-- ===== src/Common/Page.antt =====
-- common/src/page.rs: the identity of a page, and the order that the derived `Ord` gives it.
use aethel_db.Prelude.{ℕ, ◌≡◌, Bool, true, false, Option, none, some, arith, if◌then◌else◌, ◌==◌}
use aethel_db.Ord.{Ord, nat_ord, pair_ord}

-- `PAGE_SIZE`
abbrev pub page_size : ℕ
page_size = 8192

pub data ForkNumber : Type 0 where
  main fsm visibility_map init : ForkNumber

-- `fork as u8`
abbrev pub fork_raw : ForkNumber → ℕ
fork_raw main = 0
fork_raw fsm = 1
fork_raw visibility_map = 2
fork_raw init = 3

unfoldable pub from_raw : ℕ → Option ForkNumber
from_raw raw =
    if raw == 0
    then some main
    else (if raw == 1
        then some fsm
        else (if raw == 2 then some visibility_map else (if raw == 3 then some init else none)))

pub record RelTag : Type 0 where
  pub spc_node : ℕ
  pub db_node : ℕ
  pub rel_node : ℕ
  pub fork : ForkNumber

pub record PageKey : Type 0 where
  pub rel : RelTag
  pub block : ℕ

-- The fields in the order of their declaration, which the derived `Ord` compares one by one.
abbrev pub rel_fields : RelTag → ℕ × (ℕ × (ℕ × ℕ))
rel_fields r = (r.spc_node, (r.db_node, (r.rel_node, fork_raw r.fork)))

abbrev pub key_fields : PageKey → (ℕ × (ℕ × (ℕ × ℕ))) × ℕ
key_fields k = (rel_fields k.rel, k.block)

-- An order on the images of an injection.
module _ {ℓ κ} {A : Type ℓ} {B : Type κ} (o : Ord B) (f : A → B) where
  abbrev pub lt_on : A → A → Bool
  lt_on a b = o.lt (f a) (f b)

  pub on_irrefl : (a : A) → lt_on a a ≡ false
  on_irrefl a = o.irrefl (f a)

  pub on_trans : (a b c : A) → lt_on a b ≡ true → lt_on b c ≡ true → lt_on a c ≡ true
  on_trans a b c = o.trans (f a) (f b) (f c)

pub fork_raw-injective : (a b : ForkNumber) → fork_raw a ≡ fork_raw b → a ≡ b
fork_raw-injective a b h = ground arith

pub rel_fields-injective : (a b : RelTag) → rel_fields a ≡ rel_fields b → a ≡ b
rel_fields-injective a b h = ground (arith, fork_raw-injective a.fork b.fork)

pub key_fields-injective : (a b : PageKey) → key_fields a ≡ key_fields b → a ≡ b
key_fields-injective a b h = ground (arith, rel_fields-injective a.rel b.rel)

abbrev pub rel_order : Ord (ℕ × (ℕ × (ℕ × ℕ)))
rel_order = pair_ord

abbrev pub key_order : Ord ((ℕ × (ℕ × (ℕ × ℕ))) × ℕ)
key_order = pair_ord

pub rel-total :
    (a b : RelTag)
    → lt_on rel_order rel_fields a b ≡ false
    → lt_on rel_order rel_fields b a ≡ false
    → a ≡ b
rel-total a b g h = rel_fields-injective a b (rel_order.total (rel_fields a) (rel_fields b) g h)

pub key-total :
    (a b : PageKey)
    → lt_on key_order key_fields a b ≡ false
    → lt_on key_order key_fields b a ≡ false
    → a ≡ b
key-total a b g h = key_fields-injective a b (key_order.total (key_fields a) (key_fields b) g h)

instance abbrev pub rel_tag_ord : Ord RelTag
rel_tag_ord = record {
  lt = lt_on rel_order rel_fields;
  irrefl = on_irrefl rel_order rel_fields;
  trans = on_trans rel_order rel_fields;
  total = rel-total;
}

instance abbrev pub page_key_ord : Ord PageKey
page_key_ord = record {
  lt = lt_on key_order key_fields;
  irrefl = on_irrefl key_order key_fields;
  trans = on_trans key_order key_fields;
  total = key-total;
}

-- Raw fork numbers and forks correspond: `from_raw` inverts the cast, and accepts nothing else.
pub from_raw-fork_raw : (f : ForkNumber) → from_raw (fork_raw f) ≡ some f
unfolding from_raw
from_raw-fork_raw f = ground arith

pub fork_raw-from_raw : (n : ℕ) {f : ForkNumber} → from_raw n ≡ some f → fork_raw f ≡ n
unfolding from_raw
fork_raw-from_raw n h = ground arith
