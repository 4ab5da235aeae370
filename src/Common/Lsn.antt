-- ===== src/Common/Lsn.antt =====
-- common/src/lsn.rs: log sequence numbers.
use aethel_db.Prelude.{
  ℕ, zero, suc, ◌+◌, ◌-◌, ◌/◌, ◌%◌, ◌^◌, Bool, not, Option, none, some, [], ◌∷◌, ◌++◌, Text, ltb,
  ◌==◌, if◌then◌else◌,
}

-- `struct Lsn(pub u64)`; its derived order is that of the numbers.
abbrev pub Lsn : Type 0
Lsn = ℕ

-- `Lsn::INVALID`
abbrev pub invalid : Lsn
invalid = 0

unfoldable pub is_valid : Lsn → Bool
is_valid l = not (l == 0)

-- `self.0 % block_size` panics at 0, which no caller passes.
unfoldable pub align_down : Lsn → ℕ → Lsn
align_down l block_size = l - l % block_size

unfoldable pub checked_add : Lsn → ℕ → Option Lsn
checked_add l bytes = if ltb (l + bytes) (2 ^ 64) then some (l + bytes) else none

-- An uppercase hexadecimal digit.
abbrev pub hex_digit : ℕ → ℕ
hex_digit d = if ltb d 10 then b'0' + d else b'A' + (d - 10)

-- `{:X}`: at most `fuel` digits, most significant first and without leading zeros.
unfoldable pub to_hex : ℕ → ℕ → Text
to_hex zero n = []
to_hex (suc fuel) n =
    let more = to_hex fuel (n / 16) in
    if ltb n 16 then hex_digit n ∷ [] else more ++ (hex_digit (n % 16) ∷ [])

-- `Display`: the two 32-bit halves, which have 8 digits at most.
unfoldable pub display : Lsn → Text
display l = to_hex 8 (l / 2 ^ 32) ++ (b'/' ∷ to_hex 8 (l % 2 ^ 32))
