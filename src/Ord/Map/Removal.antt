-- ===== src/Ord/Map/Removal.antt =====
-- Removal by key, and the keys of a map.
use aethel_db.Prelude.{
  ◌≡◌, refl, Bool, true, false, none, List, [], ◌∷◌, map, arith, is_some, if◌then◌else◌,
}
use aethel_db.Ord.{Ord, same, same_iff}
use aethel_db.Ord.Map.Laws.{lookup, remove}

module _ {ℓ κ} {K : Type ℓ} ⦃o : Ord K⦄ {V : Type κ} where
  pub lookup-remove :
      (k j : K) (m : List (K × V)) → lookup j (remove k m) ≡ (if same k j then none else lookup j m)
  unfolding lookup remove
  lookup-remove k j [] = ground arith
  lookup-remove k j ((i, v) ∷ m) =
      ground (arith, same_iff i k, same_iff k j, same_iff i j, lookup-remove k j m)

module _ {ℓ} {K : Type ℓ} ⦃o : Ord K⦄ where
  abbrev pub contains : K → List K → Bool
  contains k [] = false
  contains k (j ∷ js) = if same j k then true else contains k js

module _ {ℓ κ} {K : Type ℓ} ⦃o : Ord K⦄ {V : Type κ} where
  pub contains-keys :
      (k : K) (m : List (K × V)) → contains k (map (λ e. e.0) m) ≡ is_some (lookup k m)
  unfolding lookup
  contains-keys k [] = refl
  contains-keys k ((j, v) ∷ m) = ground (arith, contains-keys k m)
