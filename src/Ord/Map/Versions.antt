-- ===== src/Ord/Map/Versions.antt =====
-- Maps whose keys are pairs of an identity and a number: the entries of one identity up to a number,
-- as the ordered range gives them.
use aethel_db.Prelude.{
  ℕ, ◌≡◌, ◌↔◌, true, not, ◌&&◌, none, List, [], ◌∷◌, map, arith, leb, if◌then◌else◌, ◌≤◌,
}
use aethel_db.Ord.{Ord, same, nat_ord, pair_ord, lt_pair}
use aethel_db.Ord.Map.Laws.{lookup, range, Above, IsSorted}

module _ {ℓ} {K : Type ℓ} ⦃o : Ord K⦄ where
  -- The test of the range holds of the entries of `k` up to `n`, and of no other.
  in_range :
      (k j : K) (n l : ℕ)
      → ((not (lt_pair o nat_ord (j, l) (k, 0)) && not (lt_pair o nat_ord (k, n) (j, l))) ≡ true)
        ↔ ((j ≡ k) × (l ≤ n))
  in_range k j n l = (λ h. ground (arith, o.total j k), λ h. ground (arith, o.irrefl k, o.irrefl j))

  same_pair : (k j : K) (n l : ℕ) → (same {A = K × ℕ} (k, n) (j, l) ≡ true) ↔ ((k ≡ j) × (n ≡ l))
  same_pair k j n l =
      (λ h. ground (arith, o.total k j), λ h. ground (arith, o.irrefl k, o.irrefl j))

module _ {K V : Type 0} ⦃o : Ord K⦄ where
  unfoldable pub versions_of : List ((K × ℕ) × V) → K → ℕ → List (ℕ × V)
  unfolding range
  versions_of m k n = map (λ e. (e.0.1, e.1)) (range (k, 0) (k, n) m)

  pub lookup-versions_of :
      (m : List ((K × ℕ) × V)) (k : K) (n l : ℕ)
      → lookup l (versions_of m k n) ≡ (if leb l n then lookup (k, l) m else none)
  unfolding versions_of lookup
  lookup-versions_of [] k n l = ground arith
  lookup-versions_of (((j, i), v) ∷ m) k n l =
      ground (arith, in_range k j n i, same_pair j k i l, lookup-versions_of m k n l)

  Above-versions :
      (m : List ((K × ℕ) × V)) (k : K) (n l : ℕ) → Above (k, l) m → Above l (versions_of m k n)
  unfolding versions_of
  Above-versions [] k n l a = tt
  Above-versions (((j, i), v) ∷ m) k n l a =
      ground (arith, in_range k j n i, o.irrefl k, Above-versions m k n l)

  pub versions_of-IsSorted :
      (m : List ((K × ℕ) × V)) (k : K) (n : ℕ) → IsSorted m → IsSorted (versions_of m k n)
  unfolding versions_of
  versions_of-IsSorted [] k n s = tt
  versions_of-IsSorted (((j, i), v) ∷ m) k n s =
      ground (arith, in_range k j n i, Above-versions m k n i, versions_of-IsSorted m k n)
