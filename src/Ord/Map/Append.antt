-- ===== src/Ord/Map/Append.antt =====
-- Maps that are filled in the order of their keys.
use aethel_db.Prelude.{◌≡◌, refl, true, List, [], ◌∷◌, ◌++◌, arith}
use aethel_db.Ord.{Ord, same_iff}
use aethel_db.Ord.Map.Laws.{insert, Above, IsSorted}

module _ {ℓ κ} {K : Type ℓ} ⦃o : Ord K⦄ {V : Type κ} where
  Above-middle :
      (j k : K) (v : V) (m n : List (K × V)) → Above j (m ++ ((k, v) ∷ n)) → o.lt j k ≡ true
  Above-middle j k v [] n a = a.0
  Above-middle j k v ((i, w) ∷ m) n a = Above-middle j k v m n a.1

  -- A key above all others is inserted at the end.
  pub insert-last :
      (k : K) (v : V) (m n : List (K × V))
      → IsSorted (m ++ ((k, v) ∷ n))
      → insert k v m ≡ m ++ ((k, v) ∷ [])
  unfolding insert
  insert-last k v [] n s = refl
  insert-last k v ((j, w) ∷ m) n s = ground (
    arith,
    Above-middle j k v m n s.0,
    o.irrefl k,
    o.trans j k j,
    o.irrefl j,
    same_iff j k,
    insert-last k v m n s.1,
  )
