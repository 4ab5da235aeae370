-- ===== src/Pageserver/Repository/Compact/Horizon.antt =====
-- Which entries the compaction drops.
use aethel_db.Prelude.{
  ◌≡◌, refl, subst, sym, ◌∙◌, ◌≤◌, Bool, true, false, ◌&&◌, Option, none, some, List, [], ◌∷◌,
  arith, keep, leb, is_some, if◌then◌else◌, inl, inr, Bool-cases, leb→le, and-eq_true,
}
use aethel_db.Ord.{nat_ord, pair_ord, same, same_iff}
use aethel_db.Ord.Map.{
  lookup, insert, remove, Above, lookup-Above, IsSorted, lookup-insert, find, lookup-keep,
  lookup-remove, contains, contains-keys, keep-IsSorted, pick,
}
use aethel_db.Common.Lsn.{Lsn}
use aethel_db.Common.Page.{PageKey, page_key_ord}
use aethel_db.Pageserver.Page.{PageVersion, is_base}
use aethel_db.Pageserver.Layer.{Entries}
use aethel_db.Pageserver.Repository.{Inner}
use aethel_db.Pageserver.Repository.Sources.{layer_sources, IsWellFormed}
use aethel_db.Pageserver.Repository.Compact.{
  merge, base_lsns, older_than, drop_keys, remove_all, survivors,
}
use aethel_db.Pageserver.Repository.Compact.Merge.{Place, lookup-merge, merged-IsSorted}

abbrev Contains : List (PageKey × Lsn) → Lsn → Entries → Type 0
Contains bases h whole =
    (key : PageKey) (b : Lsn)
    → lookup key bases ≡ some b
    → (b ≤ h) × ((v : PageVersion) × (lookup (key, b) whole ≡ some v) × (is_base v ≡ true))

abbrev Within : Entries → Entries → Type 0
Within es whole = (k : Place) (v : PageVersion) → lookup k es ≡ some v → lookup k whole ≡ some v

Within-tail :
    (k : Place) (v : PageVersion) (es whole : Entries)
    → Above k es
    → Within ((k, v) ∷ es) whole
    → Within es whole
unfolding lookup
Within-tail k v es whole a w j u e = w j u (ground (arith, same_iff k j, lookup-Above k es a))

Within-head :
    (k : Place) (v : PageVersion) (es whole : Entries)
    → Within ((k, v) ∷ es) whole
    → lookup k whole ≡ some v
unfolding lookup
Within-head k v es whole w = w k v (ground (arith, same_iff k k))

inserted :
    (bases : List (PageKey × Lsn)) (h : Lsn) (whole : Entries) (key : PageKey) (l : Lsn)
    (v : PageVersion)
    → Contains bases h whole
    → lookup (key, l) whole ≡ some v
    → (leb l h ≡ true) × (is_base v ≡ true)
    → Contains (insert key l bases) h whole
inserted bases h whole key l v c e (g, i) k b f = elim (Bool-cases (same key k)) [
  | inr s ↦ c k b (rw (lookup-insert, s) at f)
  | inl s ↦
      let f' : ◌≡◌ {A = Option Lsn} (some l) (some b) = rw (lookup-insert, s) at f in
      let p : l ≡ b = cc f' in
      let q : ◌≡◌ {A = PageKey × Lsn} (key, l) (k, b) = cc ((same_iff key k).0 s) in
      (subst (λ n. n ≤ h) p (leb→le l h g), (v, subst (λ j. lookup j whole ≡ some v) q e, i))
]

Contains-insert :
    (bases : List (PageKey × Lsn)) (h : Lsn) (whole : Entries) (key : PageKey) (l : Lsn)
    (v : PageVersion)
    → Contains bases h whole
    → lookup (key, l) whole ≡ some v
    → Contains (if leb l h && is_base v then insert key l bases else bases) h whole
Contains-insert bases h whole key l v c e = elim (Bool-cases (leb l h && is_base v)) [
  | inr g ↦ rw g c
  | inl g ↦ rw g (λ k b f. inserted bases h whole key l v c e (and-eq_true _ _ g) k b f)
]

-- Every base that the scan finds is one, lies at or below the horizon and is in the merged map.
base_lsns-Contains :
    (h : Lsn) (bases : List (PageKey × Lsn)) (es whole : Entries)
    → IsSorted es
    → Within es whole
    → Contains bases h whole
    → Contains (base_lsns h bases es) h whole
unfolding base_lsns
base_lsns-Contains h bases [] whole s w c = c
base_lsns-Contains h bases (((key, l), v) ∷ es) whole s w c =
    base_lsns-Contains h (if leb l h && is_base v then insert key l bases else bases) es whole s.1
      (Within-tail (key, l) v es whole s.0 w)
      (Contains-insert bases h whole key l v c (Within-head (key, l) v es whole w))

lookup-remove_all :
    (k : Place) (ks : List Place) (m : Entries)
    → lookup k (remove_all ks m) ≡ (if contains k ks then none else lookup k m)
unfolding remove_all
lookup-remove_all k [] m = refl
lookup-remove_all k (j ∷ ks) m =
    lookup-remove_all k ks (remove j m) ∙ step (contains k ks) (same j k) (lookup-remove j k m)
  where
    step :
        (b c : Bool)
        → lookup k (remove j m) ≡ (if c then none else lookup k m)
        → (if b then none else lookup k (remove j m))
          ≡ (if (if c then true else b) then none else lookup k m)
    step true true h = refl
    step true false h = refl
    step false true h = h
    step false false h = h

remove_all-IsSorted : (ks : List Place) (m : Entries) → IsSorted m → IsSorted (remove_all ks m)
unfolding remove_all remove
remove_all-IsSorted [] m s = s
remove_all-IsSorted (k ∷ ks) m s = remove_all-IsSorted ks (remove k m) (keep-IsSorted _ m s)

drop_step :
    (bases : List (PageKey × Lsn)) (key : PageKey) (l : Lsn) (o : Option PageVersion)
    → (if is_some (pick {K = Place} (λ e. older_than (lookup e.0.0 bases) e.0.1) (key, l) o)
        then none
        else o)
      ≡ (if older_than (lookup key bases) l then none else o)
drop_step bases key l none = elim (Bool-cases (older_than (lookup key bases) l)) [
  | inl e ↦ rw e
  | inr e ↦ rw e
]
drop_step bases key l (some v) = elim (Bool-cases (older_than (lookup key bases) l)) [
  | inl e ↦ rw e
  | inr e ↦ rw e
]

module _ (inner : Inner) (h : Lsn) where
  -- The base that the compaction keeps of a page.
  abbrev pub kept_base : PageKey → Option Lsn
  kept_base key = lookup key (base_lsns h [] (merge [] inner.layers))

  pub survivors-IsSorted : IsSorted (survivors inner h)
  unfolding survivors
  survivors-IsSorted = remove_all-IsSorted _ _ (merged-IsSorted inner.layers)

  -- The compacted layer holds what the layers held, less what is older than the kept base.
  pub lookup-survivors :
      (key : PageKey) (l : Lsn)
      → IsWellFormed inner
      → lookup (key, l) (survivors inner h) ≡ (
          if older_than (kept_base key) l then none else find (key, l) (layer_sources inner.layers))
  unfolding survivors drop_keys
  lookup-survivors key l w =
      let merged = merge [] inner.layers in
      let bases = base_lsns h [] merged in
      rw
        (
          lookup-remove_all (key, l) (drop_keys bases merged) merged,
          contains-keys (key, l) (keep (λ e. older_than (lookup e.0.0 bases) e.0.1) merged),
          lookup-keep (λ e. older_than (lookup e.0.0 bases) e.0.1) (key, l) merged
              (merged-IsSorted inner.layers),
          ← lookup-merge (key, l) inner.layers w.ordered.1 w.separate.1,
        )
        (drop_step bases key l (lookup (key, l) merged))

  -- A kept base is a base version of a layer, at or below the horizon.
  pub kept_base_found :
      (key : PageKey) (b : Lsn)
      → IsWellFormed inner
      → kept_base key ≡ some b
      → (b ≤ h)
        × ((v : PageVersion) × (find (key, b) (layer_sources inner.layers) ≡ some v)
            × (is_base v ≡ true))
  unfolding lookup
  kept_base_found key b w e =
      let (le, (v, f, base)) =
        base_lsns-Contains h [] (merge [] inner.layers) (merge [] inner.layers)
          (merged-IsSorted inner.layers) (λ k u g. g) (λ k c g. cc) key b e in
      (le, (v, sym (lookup-merge (key, b) inner.layers w.ordered.1 w.separate.1) ∙ f, base))
