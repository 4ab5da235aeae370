-- ===== src/Pageserver/Repository/Ingest.antt =====
-- Freezing and ingest: what they keep, and what a read then sees.
use aethel_db.Prelude.{
  ℕ, ◌≡◌, ◌≢◌, refl, ap, subst, sym, ◌∙◌, ◌≤◌, ◌<◌, ◌⊎◌, inl, inr, Bool, true, false, Option, none,
  some, List, [], ◌∷◌, ◌++◌, arith, All, All-append, if◌then◌else◌, Bool-cases, or_else, length,
  leb,
}
use aethel_db.Ord.{nat_ord, pair_ord, same, same_iff}
use aethel_db.Ord.Map.{
  lookup, IsSorted, insert-IsSorted, lookup-insert, find, Separate, find_rotate, Separate-back,
}
use aethel_db.Common.Lsn.{Lsn}
use aethel_db.Common.Page.{PageKey, page_key_ord}
use aethel_db.Pageserver.Page.{PageVersion, Modification}
use aethel_db.Pageserver.Redo.{WalRedoManager}
use aethel_db.Pageserver.Layer.{Layer, is_empty}
use aethel_db.Pageserver.Repository.{
  Inner, freeze, write, target, ingest_one, ingest, get_page_with_base, new_inner,
}
use aethel_db.Pageserver.Repository.Sources.{
  layer_sources, sources, IsWellFormed, version_at, own, own_ext, gather-based,
}

-- An equal history gives an equal answer, whatever the backend and the base.
pub get_page_with_base_ext :
    (manager : WalRedoManager) (a b : Inner) (key : PageKey) (lsn : Lsn)
    (base : Option (Lsn × List ℕ))
    → own a key lsn ≡ own b key lsn
    → get_page_with_base manager a key lsn base ≡ get_page_with_base manager b key lsn base
unfolding get_page_with_base
get_page_with_base_ext manager a b key lsn base h =
    rw (gather-based a key lsn base, gather-based b key lsn base, h)

layer_sources-append :
    (xs ys : List Layer) → layer_sources (xs ++ ys) ≡ layer_sources xs ++ layer_sources ys
layer_sources-append [] ys = refl
layer_sources-append (x ∷ xs) ys = rw (layer_sources-append xs ys)

-- Either there was nothing to freeze, or the memtable became the last layer.
freeze-cases :
    (inner : Inner)
    → (freeze inner ≡ inner)
      ⊎ ((sources (freeze inner) ≡ [] ∷ (layer_sources inner.layers ++ (inner.memtable ∷ [])))
          × ((freeze inner).memtable ≡ []))
unfolding freeze
freeze-cases inner = elim (Bool-cases (is_empty inner.memtable)) [
  | inl h ↦ inl (rw h)
  | inr h ↦ inr (rw h (rw layer_sources-append), rw h)
]

pub freeze-version_at :
    (inner : Inner) (key : PageKey) (l : Lsn)
    → IsWellFormed inner
    → version_at (freeze inner) key l ≡ version_at inner key l
unfolding lookup
freeze-version_at inner key l w = elim (freeze-cases inner) [
  | inl h ↦ ap (λ i. version_at i key l) h
  | inr (h, g) ↦
      ap (find (key, l)) h
      ∙ find_rotate (key, l) inner.memtable (layer_sources inner.layers) w.separate
]

pub freeze-IsWellFormed : (inner : Inner) → IsWellFormed inner → IsWellFormed (freeze inner)
unfolding lookup
freeze-IsWellFormed inner w = elim (freeze-cases inner) [
  | inl h ↦ subst IsWellFormed (sym h) w
  | inr (h, g) ↦ record {
    ordered = subst (All IsSorted) (sym h) (
      tt,
      All-append IsSorted (layer_sources inner.layers) (inner.memtable ∷ []) w.ordered.1
          (w.ordered.0, tt),
    );
    separate = subst Separate (sym h) (
      (λ k v e. cc),
      Separate-back inner.memtable (layer_sources inner.layers) w.separate.0 w.separate.1,
    );
  }
]

-- Freezing the memtable of a well-formed repository changes no read, over whatever base.
pub get_page-freeze :
    (manager : WalRedoManager) (inner : Inner) (key : PageKey) (lsn : Lsn)
    (base : Option (Lsn × List ℕ))
    → IsWellFormed inner
    → get_page_with_base manager (freeze inner) key lsn base
      ≡ get_page_with_base manager inner key lsn base
get_page-freeze manager inner key lsn base w =
    get_page_with_base_ext manager (freeze inner) inner key lsn base
      (own_ext _ _ key lsn (freeze-IsWellFormed inner w) w (λ l h. freeze-version_at inner key l w))

-- The frozen layers hold nothing at the place that a modification writes.
abbrev pub IsFresh : Inner → Modification → Type 0
IsFresh inner m = find (target m, m.lsn) (layer_sources inner.layers) ≡ none

write-version_at :
    (inner : Inner) (m : Modification) (key : PageKey) (l : Lsn)
    → version_at (write inner m) key l ≡ (
        if same {A = PageKey × Lsn} (target m, m.lsn) (key, l)
        then some m.version
        else version_at inner key l)
unfolding write
write-version_at inner m key l =
    rw (lookup-insert {K = PageKey × Lsn} (target m, m.lsn) (key, l) m.version inner.memtable) (
      or_else_if (same {A = PageKey × Lsn} (target m, m.lsn) (key, l)) m.version
        (lookup (key, l) inner.memtable) (find (key, l) (layer_sources inner.layers)))
  where
    or_else_if :
        (b : Bool) (v : PageVersion) (o rest : Option PageVersion)
        → or_else (if b then some v else o) rest ≡ (if b then some v else or_else o rest)
    or_else_if true v o rest = refl
    or_else_if false v o rest = refl

write-IsWellFormed :
    (inner : Inner) (m : Modification)
    → IsWellFormed inner
    → IsFresh inner m
    → IsWellFormed (write inner m)
unfolding write
write-IsWellFormed inner m w f = record {
  ordered = (insert-IsSorted (target m, m.lsn) m.version inner.memtable w.ordered.0, w.ordered.1);
  separate = (
    (λ k v e. elim (Bool-cases (same {A = PageKey × Lsn} (target m, m.lsn) k)) [
      | inl h ↦ subst (λ j. find j (layer_sources inner.layers) ≡ none) ((same_iff _ k).0 h) f
      | inr h ↦ w.separate.0 k v (rw (lookup-insert, h) at e)
    ]),
    w.separate.1,
  );
}

ingest_one-cases :
    (inner : Inner) (m : Modification)
    → (ingest_one inner m ≡ write inner m) ⊎ (ingest_one inner m ≡ freeze (write inner m))
unfolding ingest_one
ingest_one-cases inner m =
    elim (Bool-cases (leb (write inner m).freeze_threshold (length (write inner m).memtable))) [
      | inl h ↦ inr (rw h)
      | inr h ↦ inl (rw h)
    ]

pub ingest_one-version_at :
    (inner : Inner) (m : Modification) (key : PageKey) (l : Lsn)
    → IsWellFormed inner
    → IsFresh inner m
    → version_at (ingest_one inner m) key l ≡ (
        if same {A = PageKey × Lsn} (target m, m.lsn) (key, l)
        then some m.version
        else version_at inner key l)
ingest_one-version_at inner m key l w f = elim (ingest_one-cases inner m) [
  | inl h ↦ ap (λ i. version_at i key l) h ∙ write-version_at inner m key l
  | inr h ↦
      ap (λ i. version_at i key l) h
      ∙ freeze-version_at (write inner m) key l (write-IsWellFormed inner m w f)
      ∙ write-version_at inner m key l
]

pub ingest_one-IsWellFormed :
    (inner : Inner) (m : Modification)
    → IsWellFormed inner
    → IsFresh inner m
    → IsWellFormed (ingest_one inner m)
ingest_one-IsWellFormed inner m w f = elim (ingest_one-cases inner m) [
  | inl h ↦ subst IsWellFormed (sym h) (write-IsWellFormed inner m w f)
  | inr h ↦ subst IsWellFormed (sym h) (freeze-IsWellFormed _ (write-IsWellFormed inner m w f))
]

-- Each modification of a batch is fresh when its turn comes.
abbrev pub AllFresh : Inner → List Modification → Type 0
AllFresh inner [] = Unit {0}
AllFresh inner (m ∷ mods) = IsFresh inner m × AllFresh (ingest_one inner m) mods

-- Ingest keeps the invariant, sorted sources and no version in two of them, where no modification
-- goes to a place that a frozen layer holds.
pub ingest-IsWellFormed :
    (inner : Inner) (mods : List Modification)
    → IsWellFormed inner
    → AllFresh inner mods
    → IsWellFormed (ingest inner mods)
unfolding ingest
ingest-IsWellFormed inner [] w f = w
ingest-IsWellFormed inner (m ∷ mods) w f =
    ingest-IsWellFormed (ingest_one inner m) mods (ingest_one-IsWellFormed inner m w f.0) f.1

-- A modification of another page, or of a later LSN.
abbrev pub Elsewhere : PageKey → Lsn → Modification → Type 0
Elsewhere key lsn m = (target m ≢ key) ⊎ (lsn < m.lsn)

ingest_one-own :
    (inner : Inner) (m : Modification) (key : PageKey) (lsn : Lsn)
    → IsWellFormed inner
    → IsFresh inner m
    → Elsewhere key lsn m
    → own (ingest_one inner m) key lsn ≡ own inner key lsn
ingest_one-own inner m key lsn w f away =
    own_ext _ _ key lsn (ingest_one-IsWellFormed inner m w f) w
      (λ l h. ingest_one-version_at inner m key l w f ∙ other l h)
  where
    other :
        (l : Lsn)
        → l ≤ lsn
        → (if same {A = PageKey × Lsn} (target m, m.lsn) (key, l)
            then some m.version
            else version_at inner key l)
          ≡ version_at inner key l
    other l h = elim (Bool-cases (same {A = PageKey × Lsn} (target m, m.lsn) (key, l))) [
      | inl e ↦ absurd (apart l h ((same_iff {A = PageKey × Lsn} _ _).0 e) away)
      | inr e ↦ rw e
    ]
      where
        apart :
            (l : Lsn)
            → l ≤ lsn
            → ◌≡◌ {A = PageKey × Lsn} (target m, m.lsn) (key, l)
            → Elsewhere key lsn m
            → ⊥
        apart l h e (inl g) = g (ap (λ (p : PageKey × Lsn). p.0) e)
        apart l h e (inr g) = omega (arith, ap (λ (p : PageKey × Lsn). p.1) e)

ingest-own :
    (inner : Inner) (mods : List Modification) (key : PageKey) (lsn : Lsn)
    → IsWellFormed inner
    → AllFresh inner mods
    → All (Elsewhere key lsn) mods
    → own (ingest inner mods) key lsn ≡ own inner key lsn
unfolding ingest
ingest-own inner [] key lsn w f away = refl
ingest-own inner (m ∷ mods) key lsn w f away =
    ingest-own (ingest_one inner m) mods key lsn (ingest_one-IsWellFormed inner m w f.0) f.1 away.1
    ∙ ingest_one-own inner m key lsn w f.0 away.0

-- In a well-formed repository, ingest of other pages or of later LSNs, to places that no frozen
-- layer holds, changes no read: the past of a page does not change.
pub get_page-ingest :
    (manager : WalRedoManager) (inner : Inner) (mods : List Modification) (key : PageKey)
    (lsn : Lsn) (base : Option (Lsn × List ℕ))
    → IsWellFormed inner
    → AllFresh inner mods
    → All (Elsewhere key lsn) mods
    → get_page_with_base manager (ingest inner mods) key lsn base
      ≡ get_page_with_base manager inner key lsn base
get_page-ingest manager inner mods key lsn base w f away =
    get_page_with_base_ext manager _ _ key lsn base (ingest-own inner mods key lsn w f away)

pub new_inner-IsWellFormed : (threshold : ℕ) → IsWellFormed (new_inner threshold)
unfolding new_inner lookup
new_inner-IsWellFormed threshold = record { ordered = (tt, tt); separate = ((λ k v e. cc), tt) }
