-- ===== src/Ord/Map/Split.antt =====
-- A sorted map around one of its keys.
use aethel_db.Prelude.{◌≡◌, refl, true, some, List, [], ◌∷◌, ◌++◌, arith, keep}
use aethel_db.Ord.{Ord, same_iff, lt-asymm}
use aethel_db.Ord.Map.Laws.{lookup, Above, IsSorted, Above-ne}

module _ {ℓ κ} {K : Type ℓ} ⦃o : Ord K⦄ {V : Type κ} where
  abbrev pub below : K → List (K × V) → List (K × V)
  below b m = keep (λ e. o.lt e.0 b) m

  abbrev pub above : K → List (K × V) → List (K × V)
  above b m = keep (λ e. o.lt b e.0) m

  above_all : (b k : K) (m : List (K × V)) → o.lt b k ≡ true → Above k m → above b m ≡ m
  above_all b k [] h a = refl
  above_all b k ((j, w) ∷ m) h a = ground (arith, o.trans b k j, above_all b k m h a.1)

  above_self : (b : K) (m : List (K × V)) → Above b m → above b m ≡ m
  above_self b [] a = refl
  above_self b ((j, w) ∷ m) a = ground (arith, above_self b m a.1)

  below_none : (b : K) (m : List (K × V)) → Above b m → below b m ≡ []
  below_none b [] a = refl
  below_none b ((j, w) ∷ m) a = ground (arith, lt-asymm b j, below_none b m a.1)

  pub IsSorted-split :
      (b : K) (v : V) (m : List (K × V))
      → IsSorted m
      → lookup b m ≡ some v
      → m ≡ below b m ++ ((b, v) ∷ above b m)
  unfolding lookup
  IsSorted-split b v [] s h = cc
  IsSorted-split b v ((j, w) ∷ m) s h = ground (
    arith,
    same_iff j b,
    o.irrefl b,
    o.total j b,
    below_none b m,
    above_self b m,
    lt-asymm j b,
    IsSorted-split b v m s.1,
    Above-ne b j m s.0,
  )
