-- ===== src/Common/Ids.antt =====
-- common/src/ids.rs: the 16-byte identifiers. An identifier is the number that its bytes spell, most
-- significant first: equality and the derived order of the byte arrays are those of the numbers.
use aethel_db.Prelude.{ℕ, ◌+◌, ◌-◌, ◌/◌, ◌%◌, [], ◌∷◌, Text, ltb, if◌then◌else◌}
use aethel_db.Common.Bytes.{Bytes, be}

abbrev pub TenantId : Type 0
TenantId = ℕ

abbrev pub TimelineId : Type 0
TimelineId = ℕ

-- A lowercase hexadecimal digit.
abbrev pub lower_digit : ℕ → ℕ
lower_digit d = if ltb d 10 then b'0' + d else b'a' + (d - 10)

-- `{:02x}` of each byte.
abbrev pub hex_bytes : Bytes → Text
hex_bytes [] = []
hex_bytes (b ∷ bytes) = lower_digit (b / 16) ∷ lower_digit (b % 16) ∷ hex_bytes bytes

-- `Display` of both identifiers.
unfoldable pub display_id : ℕ → Text
display_id id = hex_bytes (be 16 id)
