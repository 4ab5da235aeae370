-- ===== src/Ord/Map/Laws.antt =====
-- The functions of an ordered map, and what `lookup` finds after each.
use aethel_db.Prelude.{
  ◌≡◌, refl, Bool, true, not, ◌&&◌, Option, none, some, List, [], ◌∷◌, arith, keep, if◌then◌else◌,
}
use aethel_db.Ord.{Ord, same, same_iff}

module _ {ℓ κ} {K : Type ℓ} ⦃o : Ord K⦄ {V : Type κ} where
  unfoldable pub lookup : K → List (K × V) → Option V
  lookup k [] = none
  lookup k ((j, w) ∷ m) = if same j k then some w else lookup k m

  -- `BTreeMap::insert`: an equal key has its value replaced.
  unfoldable pub insert : K → V → List (K × V) → List (K × V)
  insert k v [] = (k, v) ∷ []
  insert k v ((j, w) ∷ m) =
      if o.lt k j
      then (k, v) ∷ (j, w) ∷ m
      else (if o.lt j k then (j, w) ∷ insert k v m else (k, v) ∷ m)

  -- `BTreeMap::remove`
  unfoldable pub remove : K → List (K × V) → List (K × V)
  remove k m = keep (λ e. not (same e.0 k)) m

  -- The keys of a map rise strictly.
  abbrev pub Above : K → List (K × V) → Type 0
  Above k [] = Unit {0}
  Above k ((j, w) ∷ m) = (o.lt k j ≡ true) × Above k m

  abbrev pub IsSorted : List (K × V) → Type 0
  IsSorted [] = Unit {0}
  IsSorted ((j, w) ∷ m) = Above j m × IsSorted m

  pub lookup-insert :
      (k j : K) (v : V) (m : List (K × V))
      → lookup j (insert k v m) ≡ (if same k j then some v else lookup j m)
  unfolding lookup insert
  lookup-insert k j v [] = refl
  lookup-insert k j v ((i, w) ∷ m) =
      ground (arith, same_iff k j, same_iff i j, o.total i k, lookup-insert k j v m)

  Above-lower : (j k : K) (m : List (K × V)) → o.lt j k ≡ true → Above k m → Above j m
  Above-lower j k [] h a = tt
  Above-lower j k ((i, w) ∷ m) h a = (o.trans j k i h a.0, Above-lower j k m h a.1)

  pub lookup-Above : (k : K) (m : List (K × V)) → Above k m → lookup k m ≡ none
  unfolding lookup
  lookup-Above k [] a = refl
  lookup-Above k ((i, w) ∷ m) a = ground (arith, same_iff i k, o.irrefl k, lookup-Above k m)

  Above-keep : (p : K × V → Bool) (k : K) (m : List (K × V)) → Above k m → Above k (keep p m)
  Above-keep p k [] a = tt
  Above-keep p k ((i, w) ∷ m) a = ground (arith, Above-keep p k m a.1)

  pub keep-IsSorted : (p : K × V → Bool) (m : List (K × V)) → IsSorted m → IsSorted (keep p m)
  keep-IsSorted p [] s = tt
  keep-IsSorted p ((i, w) ∷ m) s = ground (arith, Above-keep p i m s.0, keep-IsSorted p m s.1)

  Above-insert :
      (j k : K) (v : V) (m : List (K × V)) → o.lt j k ≡ true → Above j m → Above j (insert k v m)
  unfolding insert
  Above-insert j k v [] h a = (h, tt)
  Above-insert j k v ((i, w) ∷ m) h a = ground (arith, Above-insert j k v m h a.1)

  pub insert-IsSorted : (k : K) (v : V) (m : List (K × V)) → IsSorted m → IsSorted (insert k v m)
  unfolding insert
  insert-IsSorted k v [] s = (tt, tt)
  insert-IsSorted k v ((i, w) ∷ m) s =
      ground (arith, Above-lower k i m, Above-insert i k v m, insert-IsSorted k v m, o.total i k)

  -- What passes a test of the entry at a key.
  abbrev pub pick : (K × V → Bool) → K → Option V → Option V
  pick p k none = none
  pick p k (some v) = if p (k, v) then some v else none

  pub lookup-keep :
      (p : K × V → Bool) (k : K) (m : List (K × V))
      → IsSorted m
      → lookup k (keep p m) ≡ pick p k (lookup k m)
  unfolding lookup
  lookup-keep p k [] s = refl
  lookup-keep p k ((i, w) ∷ m) s = ground (
    arith,
    same_iff i k,
    lookup-keep p k m s.1,
    lookup-Above i m s.0,
    lookup-Above i (keep p m) (Above-keep p i m s.0),
  )

  pub Above-ne : (k j : K) (m : List (K × V)) → Above j m → o.lt k j ≡ true → lookup k m ≡ none
  Above-ne k j m a h = lookup-Above k m (Above-lower k j m h a)

  heads_agree :
      (i j : K) (v w : V) (m n : List (K × V))
      → Above i m
      → Above j n
      → lookup i ((i, v) ∷ m) ≡ lookup i ((j, w) ∷ n)
      → lookup j ((i, v) ∷ m) ≡ lookup j ((j, w) ∷ n)
      → (i ≡ j) × (v ≡ w)
  unfolding lookup
  heads_agree i j v w m n a b e f = ground (
    arith,
    o.irrefl i,
    o.irrefl j,
    o.total i j,
    Above-ne i j n b,
    Above-ne j i m a,
    lookup-Above i m a,
  )

  tails_agree :
      (i j : K) (v w : V) (m n : List (K × V))
      → Above i m
      → Above j n
      → i ≡ j
      → (k : K) → lookup k ((i, v) ∷ m) ≡ lookup k ((j, w) ∷ n)
      → lookup k m ≡ lookup k n
  unfolding lookup
  tails_agree i j v w m n a b h k e =
      ground (arith, same_iff i k, lookup-Above i m a, lookup-Above j n b)

  -- A sorted map is determined by its lookups.
  pub IsSorted-ext :
      (m n : List (K × V)) → IsSorted m → IsSorted n → ((k : K) → lookup k m ≡ lookup k n) → m ≡ n
  unfolding lookup
  IsSorted-ext [] [] s t e = refl
  IsSorted-ext [] ((j, w) ∷ n) s t e = ground (arith, e j, o.irrefl j)
  IsSorted-ext ((i, v) ∷ m) [] s t e = ground (arith, e i, o.irrefl i)
  IsSorted-ext ((i, v) ∷ m) ((j, w) ∷ n) s t e =
      let (h, g) = heads_agree i j v w m n s.0 t.0 (e i) (e j) in
      let rest : m ≡ n =
        IsSorted-ext m n s.1 t.1 (λ k. tails_agree i j v w m n s.0 t.0 h k (e k)) in
      cc

  -- `BTreeMap::range(lo..=hi)`
  unfoldable pub range : K → K → List (K × V) → List (K × V)
  range lo hi m = keep (λ e. not (o.lt e.0 lo) && not (o.lt hi e.0)) m
