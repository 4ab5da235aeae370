-- ===== src/Ord.antt =====
-- Rust's `Ord` as the tree maps use it: a strict total order given by a test. The derived orders
-- of the program's structs are lexicographic in the order of the fields.
pub mod Map
use aethel_db.Prelude.{ℕ, ◌≡◌, refl, ◌↔◌, Bool, true, false, not, ◌&&◌, ◌||◌, arith, ltb}

pub record Ord {ℓ} (A : Type ℓ) : Type ℓ where
  pub lt : A → A → Bool
  pub irrefl : (a : A) → lt a a ≡ false
  pub trans : (a b c : A) → lt a b ≡ true → lt b c ≡ true → lt a c ≡ true
  pub total : (a b : A) → lt a b ≡ false → lt b a ≡ false → a ≡ b

module _ {ℓ} {A : Type ℓ} ⦃o : Ord A⦄ where
  pub lt-asymm : (a b : A) → o.lt a b ≡ true → o.lt b a ≡ false
  lt-asymm a b h = ground (arith, o.trans a b a, o.irrefl a)

  -- `a == b`
  abbrev pub same : A → A → Bool
  same a b = not (o.lt a b || o.lt b a)

  pub same_iff : (a b : A) → (same a b ≡ true) ↔ (a ≡ b)
  same_iff a b = (λ h. ground (arith, o.total a b), λ e. ground (arith, o.irrefl a, o.irrefl b))

pub nat_irrefl : (a : ℕ) → ltb a a ≡ false
nat_irrefl a = ground arith

pub nat_trans : (a b c : ℕ) → ltb a b ≡ true → ltb b c ≡ true → ltb a c ≡ true
nat_trans a b c = ground arith

pub nat-total : (a b : ℕ) → ltb a b ≡ false → ltb b a ≡ false → a ≡ b
nat-total a b = ground arith

instance abbrev pub nat_ord : Ord ℕ
nat_ord = record { lt = ltb; irrefl = nat_irrefl; trans = nat_trans; total = nat-total }

module _ {ℓ κ} {A : Type ℓ} {B : Type κ} (o : Ord A) (p : Ord B) where
  abbrev pub lt_pair : A × B → A × B → Bool
  lt_pair (a, b) (c, d) = o.lt a c || (not (o.lt c a) && p.lt b d)

  pub pair_irrefl : (x : A × B) → lt_pair x x ≡ false
  pair_irrefl (a, b) = ground (arith, o.irrefl a, p.irrefl b)

  pub pair_trans : (x y z : A × B) → lt_pair x y ≡ true → lt_pair y z ≡ true → lt_pair x z ≡ true
  pair_trans (a, b) (c, d) (e, f) g h = ground (
    arith,
    o.trans a c e,
    o.trans e a c,
    o.trans c e a,
    o.total a c,
    o.total c e,
    lt-asymm ⦃o = o⦄ a c,
    lt-asymm ⦃o = o⦄ c e,
    lt-asymm ⦃o = o⦄ a e,
    o.irrefl a,
    p.trans b d f,
  )

  pub pair-total : (x y : A × B) → lt_pair x y ≡ false → lt_pair y x ≡ false → x ≡ y
  pair-total (a, b) (c, d) g h = ground (arith, o.total a c, p.total b d, lt-asymm ⦃o = o⦄ a c)

instance abbrev pub pair_ord {ℓ κ} : {A : Type ℓ} {B : Type κ} ⦃o : Ord A⦄ ⦃p : Ord B⦄ → Ord (A × B)
pair_ord ⦃o⦄ ⦃p⦄ = record {
  lt = lt_pair o p;
  irrefl = pair_irrefl o p;
  trans = pair_trans o p;
  total = pair-total o p;
}
