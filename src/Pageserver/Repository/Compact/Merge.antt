-- ===== src/Pageserver/Repository/Compact/Merge.antt =====
-- The merged map holds what the layers hold, in order.
use aethel_db.Prelude.{
  ◌≡◌, refl, ap, subst, ◌∙◌, Bool, true, false, Option, none, some, List, [], ◌∷◌, All, or_else,
  if◌then◌else◌,
}
use aethel_db.Ord.{nat_ord, pair_ord, same, same_iff}
use aethel_db.Ord.Map.{
  lookup, insert, lookup-Above, IsSorted, insert-IsSorted, lookup-insert, find, Separate,
}
use aethel_db.Common.Lsn.{Lsn}
use aethel_db.Common.Page.{PageKey, page_key_ord}
use aethel_db.Pageserver.Page.{PageVersion}
use aethel_db.Pageserver.Layer.{Entries, Layer}
use aethel_db.Pageserver.Repository.Sources.{layer_sources}
use aethel_db.Pageserver.Repository.Compact.{insert_all, merge}

abbrev pub Place : Type 0
Place = PageKey × Lsn

insert_all-IsSorted : (merged es : Entries) → IsSorted merged → IsSorted (insert_all merged es)
unfolding insert_all
insert_all-IsSorted merged [] s = s
insert_all-IsSorted merged ((k, v) ∷ es) s =
    insert_all-IsSorted (insert k v merged) es (insert-IsSorted k v merged s)

merge-IsSorted :
    (merged : Entries) (layers : List Layer) → IsSorted merged → IsSorted (merge merged layers)
unfolding merge
merge-IsSorted merged [] s = s
merge-IsSorted merged (layer ∷ layers) s =
    merge-IsSorted (insert_all merged layer.entries) layers
      (insert_all-IsSorted merged layer.entries s)

or_else-if {ℓ} :
    {V : Type ℓ} (b : Bool) (v : V) (o p : Option V)
    → (b ≡ true → o ≡ none)
    → or_else o (if b then some v else p) ≡ or_else (if b then some v else o) p
or_else-if true v o p h = rw h refl
or_else-if false v o p h = refl

lookup-insert_all :
    (k : Place) (merged es : Entries)
    → IsSorted es
    → lookup k (insert_all merged es) ≡ or_else (lookup k es) (lookup k merged)
unfolding insert_all lookup
lookup-insert_all k merged [] s = refl
lookup-insert_all k merged ((j, v) ∷ es) s =
    lookup-insert_all k (insert j v merged) es s.1
    ∙ ap (or_else (lookup k es)) (lookup-insert j k v merged)
    ∙ or_else-if (same j k) v (lookup k es) (lookup k merged)
        (λ h. subst (λ i. lookup i es ≡ none) ((same_iff j k).0 h) (lookup-Above j es s.0))

-- Without common keys it does not matter that the merge lets the last layer win.
lookup-merge_from :
    (k : Place) (merged : Entries) (layers : List Layer)
    → All IsSorted (layer_sources layers)
    → Separate (layer_sources layers)
    → lookup k (merge merged layers) ≡ or_else (find k (layer_sources layers)) (lookup k merged)
unfolding merge
lookup-merge_from k merged [] a s = refl
lookup-merge_from k merged (layer ∷ layers) a s =
    lookup-merge_from k (insert_all merged layer.entries) layers a.1 s.1
    ∙ ap (or_else (find k (layer_sources layers))) (lookup-insert_all k merged layer.entries a.0)
    ∙ swap (lookup k layer.entries) refl
  where
    swap :
        (o : Option PageVersion)
        → lookup k layer.entries ≡ o
        → or_else (find k (layer_sources layers)) (or_else o (lookup k merged))
          ≡ or_else (or_else o (find k (layer_sources layers))) (lookup k merged)
    swap none e = refl
    swap (some v) e = rw (s.0 k v e)

pub lookup-merge :
    (k : Place) (layers : List Layer)
    → All IsSorted (layer_sources layers)
    → Separate (layer_sources layers)
    → lookup k (merge [] layers) ≡ find k (layer_sources layers)
unfolding lookup
lookup-merge k layers a s =
    lookup-merge_from k [] layers a s ∙ or_none (find k (layer_sources layers))
  where
    or_none : (o : Option PageVersion) → or_else o none ≡ o
    or_none none = refl
    or_none (some v) = refl

pub merged-IsSorted : (layers : List Layer) → IsSorted (merge [] layers)
merged-IsSorted layers = merge-IsSorted [] layers tt
