-- ===== src/Ord/Map/Stack.antt =====
-- Several maps read together, the first that has a key deciding: `find`. Where no two of them have
-- a key in common, their order does not matter.
use aethel_db.Prelude.{
  ℕ, ◌≡◌, refl, inl, inr, Option, none, some, List, [], ◌∷◌, ◌++◌, arith, leb, All, or_else,
  if◌then◌else◌, Option-cases,
}
use aethel_db.Ord.{Ord, nat_ord, pair_ord}
use aethel_db.Ord.Map.Laws.{lookup, IsSorted}
use aethel_db.Ord.Map.Sorting.{IsDistinct, lookup-append, append-IsDistinct, IsSorted-IsDistinct}
use aethel_db.Ord.Map.Versions.{versions_of, lookup-versions_of, versions_of-IsSorted}

module _ {ℓ κ} {K : Type ℓ} ⦃o : Ord K⦄ {V : Type κ} where
  abbrev pub find : K → List (List (K × V)) → Option V
  find k [] = none
  find k (m ∷ ms) = or_else (lookup k m) (find k ms)

  -- No key occurs in two of the maps.
  abbrev pub Separate : List (List (K × V)) → Type (ℓ ⊔ κ)
  Separate [] = Unit {ℓ ⊔ κ}
  Separate (m ∷ ms) = ((k : K) (v : V) → lookup k m ≡ some v → find k ms ≡ none) × Separate ms

  pub find-append :
      (k : K) (ms ns : List (List (K × V))) → find k (ms ++ ns) ≡ or_else (find k ms) (find k ns)
  find-append k [] ns = refl
  find-append k (m ∷ ms) ns = ground (arith, find-append k ms ns)

  -- A map that moves from the front to the back leaves what is found.
  pub find_rotate :
      (k : K) (m : List (K × V)) (ms : List (List (K × V)))
      → Separate (m ∷ ms)
      → find k (ms ++ (m ∷ [])) ≡ find k (m ∷ ms)
  find_rotate k m ms s = elim (Option-cases (lookup k m)) [
    | inl e ↦ ground (arith, find-append k ms (m ∷ []))
    | inr (v, e) ↦ ground (arith, find-append k ms (m ∷ []), s.0 k v e)
  ]

  pub Separate-back :
      (m : List (K × V)) (ms : List (List (K × V)))
      → ((k : K) (v : V) → lookup k m ≡ some v → find k ms ≡ none)
      → Separate ms
      → Separate (ms ++ (m ∷ []))
  Separate-back m [] d s = ((λ k v e. refl), tt)
  Separate-back m (n ∷ ms) d s = (
    (λ k v e. elim (Option-cases (lookup k m)) [
      | inl f ↦ ground (arith, find-append k ms (m ∷ []), s.0 k v e)
      | inr (w, f) ↦ ground (arith, d k w f)
    ]),
    Separate-back m ms (λ k v e. ground (arith, d k v e)) s.1,
  )

module _ {K V : Type 0} ⦃o : Ord K⦄ where
  abbrev pub all_versions : List (List ((K × ℕ) × V)) → K → ℕ → List (ℕ × V)
  all_versions [] k n = []
  all_versions (m ∷ ms) k n = versions_of m k n ++ all_versions ms k n

  pub lookup-all_versions :
      (ms : List (List ((K × ℕ) × V))) (k : K) (n l : ℕ)
      → lookup l (all_versions ms k n) ≡ (if leb l n then find (k, l) ms else none)
  unfolding lookup
  lookup-all_versions [] k n l = ground arith
  lookup-all_versions (m ∷ ms) k n l = ground (
    arith,
    lookup-append l (versions_of m k n) (all_versions ms k n),
    lookup-versions_of m k n l,
    lookup-all_versions ms k n l,
  )

  pub all_versions-IsDistinct :
      (ms : List (List ((K × ℕ) × V))) (k : K) (n : ℕ)
      → All IsSorted ms
      → Separate ms
      → IsDistinct (all_versions ms k n)
  all_versions-IsDistinct [] k n a s = tt
  all_versions-IsDistinct (m ∷ ms) k n a s =
      append-IsDistinct (versions_of m k n) (all_versions ms k n)
        (IsSorted-IsDistinct _ (versions_of-IsSorted m k n a.0))
        (all_versions-IsDistinct ms k n a.1 s.1)
        (λ l v e.
          ground (arith, lookup-all_versions ms k n l, lookup-versions_of m k n l, s.0 (k, l) v))
