-- ===== src/Ord/Map/Sorting.antt =====
-- The stable sort by key of Rust's slices, as an insertion sort, on lists of keyed entries.
use aethel_db.Prelude.{
  ◌≡◌, refl, true, none, some, List, [], ◌∷◌, ◌++◌, arith, if◌then◌else◌, or_else,
}
use aethel_db.Ord.{Ord, same, same_iff, lt-asymm}
use aethel_db.Ord.Map.Laws.{lookup, Above, IsSorted, lookup-Above}

module _ {ℓ κ} {K : Type ℓ} ⦃o : Ord K⦄ {V : Type κ} where
  -- Before the first entry whose key is not smaller: entries of one key keep their order.
  unfoldable pub place : K × V → List (K × V) → List (K × V)
  place x [] = x ∷ []
  place x (y ∷ ys) = if o.lt y.0 x.0 then y ∷ place x ys else x ∷ y ∷ ys

  -- `sort_by_key`
  unfoldable pub sort : List (K × V) → List (K × V)
  sort [] = []
  sort (x ∷ xs) = place x (sort xs)

  -- No key occurs twice.
  abbrev pub IsDistinct : List (K × V) → Type κ
  IsDistinct [] = Unit {κ}
  IsDistinct ((k, v) ∷ m) = (lookup k m ≡ none) × IsDistinct m

  lookup-place :
      (k : K) (x : K × V) (ys : List (K × V))
      → lookup k (place x ys) ≡ (if same x.0 k then some x.1 else lookup k ys)
  unfolding lookup place
  lookup-place k (i, v) [] = refl
  lookup-place k (i, v) ((j, w) ∷ ys) =
      ground (arith, same_iff i k, same_iff j k, o.irrefl k, lookup-place k (i, v) ys)

  pub lookup-sort : (k : K) (xs : List (K × V)) → lookup k (sort xs) ≡ lookup k xs
  unfolding lookup sort
  lookup-sort k [] = refl
  lookup-sort k ((i, v) ∷ xs) = ground (arith, lookup-place k (i, v) (sort xs), lookup-sort k xs)

  Above-place :
      (j : K) (x : K × V) (ys : List (K × V))
      → o.lt j x.0 ≡ true
      → Above j ys
      → Above j (place x ys)
  unfolding place
  Above-place j x [] h a = (h, tt)
  Above-place j x ((i, w) ∷ ys) h a = ground (arith, Above-place j x ys h a.1)

  Above-trans : (j k : K) (m : List (K × V)) → o.lt j k ≡ true → Above k m → Above j m
  Above-trans j k [] h a = tt
  Above-trans j k ((i, w) ∷ m) h a = (o.trans j k i h a.0, Above-trans j k m h a.1)

  place-IsSorted :
      (k : K) (v : V) (ys : List (K × V))
      → IsSorted ys
      → lookup k ys ≡ none
      → IsSorted (place (k, v) ys)
  unfolding lookup place
  place-IsSorted k v [] s h = (tt, tt)
  place-IsSorted k v ((i, w) ∷ ys) s h = ground (
    arith,
    o.total i k,
    same_iff i k,
    Above-trans k i ys,
    Above-place i (k, v) ys,
    place-IsSorted k v ys,
    lt-asymm k i,
  )

  pub sort-IsSorted : (xs : List (K × V)) → IsDistinct xs → IsSorted (sort xs)
  unfolding sort
  sort-IsSorted [] d = tt
  sort-IsSorted ((k, v) ∷ xs) d =
      ground (arith, lookup-sort k xs, place-IsSorted k v (sort xs), sort-IsSorted xs d.1)

  pub lookup-append :
      (k : K) (xs ys : List (K × V)) → lookup k (xs ++ ys) ≡ or_else (lookup k xs) (lookup k ys)
  unfolding lookup
  lookup-append k [] ys = refl
  lookup-append k ((i, v) ∷ xs) ys = ground (arith, lookup-append k xs ys)

  pub append-IsDistinct :
      (xs ys : List (K × V))
      → IsDistinct xs
      → IsDistinct ys
      → ((k : K) (v : V) → lookup k xs ≡ some v → lookup k ys ≡ none)
      → IsDistinct (xs ++ ys)
  unfolding lookup
  append-IsDistinct [] ys d e h = e
  append-IsDistinct ((k, v) ∷ xs) ys d e h = (
    ground (arith, lookup-append k xs ys, h k v, same_iff k k),
    append-IsDistinct xs ys d.1 e (λ j w g. ground (arith, h j v, h j w)),
  )

  pub IsSorted-IsDistinct : (m : List (K × V)) → IsSorted m → IsDistinct m
  IsSorted-IsDistinct [] s = tt
  IsSorted-IsDistinct ((k, v) ∷ m) s = (lookup-Above k m s.0, IsSorted-IsDistinct m s.1)
