-- ===== src/Pageserver/Repository/Writes.antt =====
-- A write and the read of the same page at its LSN, with the native backend.
use aethel_db.Prelude.{
  ℕ, ◌≡◌, ◌≢◌, refl, ap, ap₂, sym, ◌∙◌, true, false, Option, none, some, List, [], ◌∷◌, ◌++◌, arith,
  if◌then◌else◌, Bool-cases, length, length-replicate, or_else, ltb, leb, le→leb, inl, inr,
}
use aethel_db.Result.{Result, ok, err, panic, ◌>>=◌, map_err}
use aethel_db.Ord.{nat_ord, pair_ord, same, same_iff}
use aethel_db.Ord.Map.{
  lookup, find, IsSorted, IsSorted-split, below, above, IsSorted-ext, lookup-keep, keep-IsSorted,
  pick,
}
use aethel_db.Common.Lsn.{Lsn}
use aethel_db.Common.Page.{PageKey, page_key_ord, page_size}
use aethel_db.Pageserver.Page.{
  PageVersion, PageError, Modification, image, delta, is_base, apply_to, ByteEdit, apply_edits,
}
use aethel_db.Pageserver.Redo.{
  History, rust_apply, reconstruct_native, RedoError, rposition_base, from_base, replay,
}
use aethel_db.Pageserver.Redo.Laws.{rust_apply-IsRedo}
use aethel_db.Pageserver.Redo.Append.{onto, native-snoc}
use aethel_db.Pageserver.Repository.{
  Inner, PageLookup, page, not_found, target, ingest_one, get_page, get_page_with_base, to_lookup,
}
use aethel_db.Pageserver.Repository.Sources.{
  layer_sources, IsWellFormed, version_at, own, own-IsSorted, lookup-own, gather-based,
}
use aethel_db.Pageserver.Repository.Ingest.{IsFresh, ingest_one-version_at, ingest_one-IsWellFormed}

-- A sorted map without keys above `n` ends at `n`.
above_empty :
    (b : ℕ) (m : History)
    → IsSorted m
    → ((l : ℕ) → ltb b l ≡ true → lookup l m ≡ none)
    → above b m ≡ []
above_empty b m s h =
    IsSorted-ext (above b m) [] (keep-IsSorted (λ e. ltb b e.0) m s) tt
      λ l. lookup-keep (λ e. ltb b e.0) l m s ∙ (unfold lookup in none_left l (lookup l m) (h l))
  where
    none_left :
        (l : ℕ) (o : Option PageVersion)
        → (ltb b l ≡ true → o ≡ none)
        → pick (λ e. ltb b e.0) l o ≡ none
    none_left l none g = refl
    none_left l (some v) g = elim (Bool-cases (ltb b l)) [ inl e ↦ cc (g e) | inr e ↦ rw e ]

below_same :
    (b : ℕ) (m n : History)
    → IsSorted m
    → IsSorted n
    → ((l : ℕ) → ltb l b ≡ true → lookup l m ≡ lookup l n)
    → below b m ≡ below b n
below_same b m n s t h =
    IsSorted-ext (below b m) (below b n) (keep-IsSorted (λ e. ltb e.0 b) m s)
      (keep-IsSorted (λ e. ltb e.0 b) n t)
      λ l.
        rw (lookup-keep (λ e. ltb e.0 b) l m s, lookup-keep (λ e. ltb e.0 b) l n t)
          (picked l (lookup l m) (lookup l n) (h l))
  where
    none_left :
        (l : ℕ) (o : Option PageVersion) → ltb l b ≡ false → pick (λ e. ltb e.0 b) l o ≡ none
    none_left l none e = refl
    none_left l (some v) e = rw e

    picked :
        (l : ℕ) (o p : Option PageVersion)
        → (ltb l b ≡ true → o ≡ p)
        → pick (λ e. ltb e.0 b) l o ≡ pick (λ e. ltb e.0 b) l p
    picked l o p g = elim (Bool-cases (ltb l b)) [
      | inl e ↦ rw (g e)
      | inr e ↦ none_left l o e ∙ sym (none_left l p e)
    ]

-- Without an entry at `b` or above it, all is below.
below_whole :
    (b : ℕ) (m : History)
    → IsSorted m
    → ((l : ℕ) → ltb l b ≡ false → lookup l m ≡ none)
    → below b m ≡ m
below_whole b m s h =
    IsSorted-ext (below b m) m (keep-IsSorted (λ e. ltb e.0 b) m s) s
      λ l. lookup-keep (λ e. ltb e.0 b) l m s ∙ picked l (lookup l m) (h l)
  where
    picked :
        (l : ℕ) (o : Option PageVersion)
        → (ltb l b ≡ false → o ≡ none)
        → pick (λ e. ltb e.0 b) l o ≡ o
    picked l none g = refl
    picked l (some v) g = elim (Bool-cases (ltb l b)) [ inl e ↦ rw e | inr e ↦ cc (g e) ]

module _ (inner : Inner) (m : Modification) (w : IsWellFormed inner) (f : IsFresh inner m) where
  abbrev after : Inner
  after = ingest_one inner m

  after-IsWellFormed : IsWellFormed after
  after-IsWellFormed = ingest_one-IsWellFormed inner m w f

  after_at : version_at after (target m) m.lsn ≡ some m.version
  after_at =
      ingest_one-version_at inner m (target m) m.lsn w f
      ∙ rw ((same_iff {A = PageKey × Lsn} (target m, m.lsn) (target m, m.lsn)).1 refl)

  after_other :
      (l : Lsn) → l ≢ m.lsn → version_at after (target m) l ≡ version_at inner (target m) l
  after_other l ne = elim (Bool-cases (same {A = PageKey × Lsn} (target m, m.lsn) (target m, l))) [
    | inl e ↦ absurd (ne (cc ((same_iff {A = PageKey × Lsn} (target m, m.lsn) (target m, l)).0 e)))
    | inr e ↦ ingest_one-version_at inner m (target m) l w f ∙ rw e
  ]

  -- The history of the written page at its LSN: the older versions, then the new one.
  after-own :
      own after (target m) m.lsn
      ≡ below m.lsn (own inner (target m) m.lsn) ++ ((m.lsn, m.version) ∷ [])
  after-own =
      let key = target m in
      let n = m.lsn in
      let s = own-IsSorted after key n after-IsWellFormed in
      IsSorted-split n m.version (own after key n) s
        (lookup-own after key n n ∙ rw (le→leb n n (omega arith)) after_at)
      ∙ ap₂ (λ xs ys. xs ++ ((n, m.version) ∷ ys))
          (below_same n (own after key n) (own inner key n) s (own-IsSorted inner key n w) (λ l g.
            rw (lookup-own after key n l, lookup-own inner key n l)
              (ap (λ o. if leb l n then o else none) (after_other l (ground arith)))))
          (above_empty n (own after key n) s (λ l g. lookup-own after key n l ∙ rw (beyond n l g)))
    where
      beyond : (n l : ℕ) → ltb n l ≡ true → leb l n ≡ false
      beyond n l g = ground arith

read_own :
    (i : Inner) (key : PageKey) (lsn : Lsn)
    → get_page rust_apply i key lsn ≡ to_lookup (reconstruct_native key lsn (own i key lsn))
unfolding get_page get_page_with_base
read_own i key lsn = rw (gather-based i key lsn none)

pub native_image :
    (key : PageKey) (lsn l : Lsn) (img : List ℕ)
    → length img ≡ page_size
    → reconstruct_native key lsn ((l, image img) ∷ []) ≡ ok (some img)
unfolding reconstruct_native rposition_base is_base from_base replay apply_to
native_image key lsn l img h = ground (arith, length-replicate {A = ℕ} page_size 0)

-- A full image that is written to a well-formed repository, at a place that no frozen layer holds,
-- is what a read at its LSN returns with the native backend.
pub get_page-image :
    (inner : Inner) (m : Modification) (img : List ℕ)
    → IsWellFormed inner
    → IsFresh inner m
    → m.version ≡ image img
    → length img ≡ page_size
    → get_page rust_apply (ingest_one inner m) (target m) m.lsn ≡ ok (page img)
unfolding to_lookup is_base
get_page-image inner m img w f e full =
    let vs = below m.lsn (own inner (target m) m.lsn) in
    read_own (ingest_one inner m) (target m) m.lsn
    ∙ ap (λ h. to_lookup (reconstruct_native (target m) m.lsn h)) (after-own inner m w f)
    ∙ ap to_lookup (
        rust_apply-IsRedo.from_base (target m) m.lsn m.lsn m.version vs [] (rw e refl)
        ∙ ap (λ v. reconstruct_native (target m) m.lsn ((m.lsn, v) ∷ [])) e
        ∙ native_image (target m) m.lsn m.lsn img full)

-- The edits of a delta on the page that a read gave.
abbrev pub edited : List ByteEdit → PageLookup → Result PageError PageLookup
edited edits (page p) = apply_edits edits p >>= λ q. ok (page q)
edited edits not_found = ok not_found

wrapped :
    (r : Result PageError (List ℕ))
    → to_lookup (map_err RedoError.apply r >>= λ p. ok (some p)) ≡ (r >>= λ q. ok (page q))
unfolding to_lookup
wrapped (ok p) = refl
wrapped (err e) = refl
wrapped panic = refl

-- At the LSN itself there is no version, above it none is asked for.
at_or_above :
    (n l : ℕ) (at : ℕ → Option PageVersion)
    → at n ≡ none
    → ltb l n ≡ false
    → (if leb l n then at l else none) ≡ none
at_or_above n l at h g = elim (Bool-cases (leb l n)) [
  | inl e ↦ let same_lsn : l ≡ n = ground arith in rw (e, same_lsn) h
  | inr e ↦ rw e
]

onto_delta :
    (l : Lsn) (edits : List ByteEdit) (r : Result RedoError (Option (List ℕ)))
    → to_lookup (r >>= onto l (delta edits)) ≡ (to_lookup r >>= edited edits)
unfolding to_lookup replay apply_to
onto_delta l edits (ok none) = refl
onto_delta l edits (ok (some p)) = wrapped (apply_edits edits p)
onto_delta l edits (err (RedoError.apply e)) = refl
onto_delta l edits (err (RedoError.needs_postgres e)) = refl
onto_delta l edits (err (RedoError.process e)) = refl
onto_delta l edits (err (RedoError.redo_failed e)) = refl
onto_delta l edits panic = refl

-- With the native backend, a delta that is written to a well-formed repository at an LSN without a
-- version of the page there is applied, by a read at that LSN, to what the same read gave before
-- the write; an absent page stays absent.
pub get_page-delta :
    (inner : Inner) (m : Modification) (edits : List ByteEdit)
    → IsWellFormed inner
    → version_at inner (target m) m.lsn ≡ none
    → m.version ≡ delta edits
    → get_page rust_apply (ingest_one inner m) (target m) m.lsn
      ≡ (get_page rust_apply inner (target m) m.lsn >>= edited edits)
get_page-delta inner m edits w absent e =
    let key = target m in
    let n = m.lsn in
    let f =
      fresh_of_absent (lookup (key, n) inner.memtable) (find (key, n) (layer_sources inner.layers))
        absent in
    read_own (ingest_one inner m) key n
    ∙ ap (λ h. to_lookup (reconstruct_native key n h))
        ((after-own inner m w f)
          ∙ ap (λ h. h ++ ((n, m.version) ∷ []))
              (below_whole n (own inner key n) (own-IsSorted inner key n w)
                (λ l g. lookup-own inner key n l ∙ at_or_above n l (version_at inner key) absent g))
          ∙ ap (λ v. own inner key n ++ ((n, v) ∷ [])) e)
    ∙ ap to_lookup (native-snoc n (delta edits) key n (own inner key n) (unfold is_base in refl))
    ∙ onto_delta n edits (reconstruct_native key n (own inner key n))
    ∙ ap (λ r. r >>= edited edits) (sym (read_own inner key n))
  where
    fresh_of_absent : (o p : Option PageVersion) → or_else o p ≡ none → p ≡ none
    fresh_of_absent none p h = h
    fresh_of_absent (some v) p h = cc
