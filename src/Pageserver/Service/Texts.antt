-- ===== src/Pageserver/Service/Texts.antt =====
-- The messages of the page service are short texts of ASCII.
use aethel_db.Prelude.{
  ℕ, zero, suc, ◌+◌, ◌*◌, ◌/◌, ◌%◌, ◌^◌, ◌≤◌, ◌<◌, ◌≡◌, refl, ap, arith, Bool, true, ◌&&◌, [], ◌∷◌,
  ◌++◌, Text, codes, length, ltb, length-append, Bool-cases, inl, inr,
}
use aethel_db.Common.Bytes.{Bytes, be}
use aethel_db.Common.Ids.{TenantId, TimelineId, lower_digit, hex_bytes, display_id}
use aethel_db.Common.Lsn.{Lsn, hex_digit, to_hex, display}
use aethel_db.Common.Page.{page_size}
use aethel_db.Pageserver.Page.{
  PageError, truncated, bad_image_size, edit_out_of_bounds, bad_version_tag, needs_redo, redo,
}
use aethel_db.Pageserver.Service.Messages.{decimal, page_error_text, failed_text, unknown_text}

abbrev pub is_ascii : Bytes → Bool
is_ascii [] = true
is_ascii (b ∷ bytes) = ltb b 128 && is_ascii bytes

-- A text of ASCII with at most so many characters.
abbrev pub IsText : ℕ → Text → Type 0
IsText k t = (is_ascii t ≡ true) × (length t ≤ k)

is_ascii-append : (s t : Text) → is_ascii s ≡ true → is_ascii t ≡ true → is_ascii (s ++ t) ≡ true
is_ascii-append [] t h g = g
is_ascii-append (b ∷ s) t h g = ground (arith, is_ascii-append s t)

append-IsText : (j k n : ℕ) (s t : Text) → j + k ≤ n → IsText j s → IsText k t → IsText n (s ++ t)
append-IsText j k n s t le h g =
    (is_ascii-append s t h.0 g.0, omega (arith, length-append s t, h.1, g.1))

one-IsText : (b : ℕ) → b < 128 → IsText 1 (b ∷ [])
one-IsText b h = (ground arith, omega arith)

decimal-IsText : (fuel n : ℕ) → IsText fuel (decimal fuel n)
unfolding decimal
decimal-IsText zero n = (refl, omega arith)
decimal-IsText (suc fuel) n = elim (Bool-cases (ltb n 10)) [
  | inl e ↦ rw e (ground arith, omega arith)
  | inr e ↦ rw e (
      append-IsText fuel 1 (suc fuel) _ _ (omega arith) (decimal-IsText fuel (n / 10))
        (one-IsText _ (omega arith)))
]

hex_digit-bound : (d : ℕ) → d < 16 → hex_digit d < 128
hex_digit-bound d h = ground arith

lower_digit-bound : (d : ℕ) → d < 16 → lower_digit d < 128
lower_digit-bound d h = ground arith

to_hex-IsText : (fuel n : ℕ) → IsText fuel (to_hex fuel n)
unfolding to_hex
to_hex-IsText zero n = (refl, omega arith)
to_hex-IsText (suc fuel) n = elim (Bool-cases (ltb n 16)) [
  | inl e ↦ rw e ((one-IsText (hex_digit n) (hex_digit-bound n (ground arith))).0, omega arith)
  | inr e ↦ rw e (
      append-IsText fuel 1 (suc fuel) _ _ (omega arith) (to_hex-IsText fuel (n / 16))
        (one-IsText (hex_digit (n % 16)) (hex_digit-bound (n % 16) (omega arith))))
]

lsn-IsText : (l : Lsn) → IsText 17 (display l)
unfolding display
lsn-IsText l = append-IsText 8 9 17 _ _ (omega arith) (to_hex-IsText 8 (l / 2 ^ 32)) (
    append-IsText 1 8 9 (b'/' ∷ []) _ (omega arith) (refl, omega arith)
      (to_hex-IsText 8 (l % 2 ^ 32)))

hex_bytes-append : (xs ys : Bytes) → hex_bytes (xs ++ ys) ≡ hex_bytes xs ++ hex_bytes ys
hex_bytes-append [] ys = refl
hex_bytes-append (x ∷ xs) ys =
    ap (λ t. lower_digit (x / 16) ∷ lower_digit (x % 16) ∷ t) (hex_bytes-append xs ys)

two-IsText : (b : ℕ) → b < 256 → IsText 2 (hex_bytes (b ∷ []))
two-IsText b h =
    append-IsText 1 1 2 (lower_digit (b / 16) ∷ []) (lower_digit (b % 16) ∷ []) (omega arith)
      (one-IsText _ (lower_digit-bound (b / 16) (omega arith)))
      (one-IsText _ (lower_digit-bound (b % 16) (omega arith)))

be-IsText : (w v : ℕ) → IsText (2 * w) (hex_bytes (be w v))
unfolding be
be-IsText zero v = (refl, omega arith)
be-IsText (suc w) v = rw (hex_bytes-append (be w (v / 256)) (v % 256 ∷ [])) (
    append-IsText (2 * w) 2 (2 * suc w) _ _ (omega arith) (be-IsText w (v / 256))
      (two-IsText (v % 256) (omega arith)))

id-IsText : (id : ℕ) → IsText 32 (display_id id)
unfolding display_id
id-IsText id = be-IsText 16 id

pub unknown_text-IsText :
    (tenant : TenantId) (timeline : TimelineId) → IsText 100 (unknown_text tenant timeline)
unfolding unknown_text
unknown_text-IsText tenant timeline =
    append-IsText 24 65 100 (codes "unknown tenant/timeline ") _ (omega arith) (refl, omega arith)
      (append-IsText 32 33 65 _ _ (omega arith) (id-IsText tenant) (
        append-IsText 1 32 33 (b'/' ∷ []) _ (omega arith) (refl, omega arith) (id-IsText timeline)))

-- The text of a request for PostgreSQL.
pub needs_postgres-IsText :
    (l : Lsn)
    → IsText 100
        (codes "WAL record at " ++ (display l ++ codes " requires a Postgres wal-redo backend"))
needs_postgres-IsText l =
    append-IsText 14 86 100 (codes "WAL record at ") _ (omega arith) (refl, omega arith)
      (append-IsText 17 69 86 _ (codes " requires a Postgres wal-redo backend") (omega arith)
        (lsn-IsText l) (refl, omega arith))

-- The errors of a read that have a short text.
abbrev pub IsShort : PageError → Type 0
IsShort (truncated what) = ⊥
IsShort (bad_image_size n) = Unit
IsShort (edit_out_of_bounds offset len) = Unit
IsShort (bad_version_tag n) = Unit
IsShort needs_redo = Unit
IsShort (redo message) = IsText 100 message

page_error-IsText : (e : PageError) → IsShort e → IsText 200 (page_error_text e)
unfolding page_error_text
page_error-IsText (truncated what) h = absurd h
page_error-IsText (bad_image_size n) h =
    append-IsText 9 191 200 (codes "image is ") _ (omega arith) (refl, omega arith)
      (append-IsText 20 171 191 _ _ (omega arith) (decimal-IsText 20 n) (
        append-IsText 17 20 171 (codes " bytes, expected ") _ (omega arith) (refl, omega arith)
          (decimal-IsText 20 page_size)))
page_error-IsText (edit_out_of_bounds offset len) h =
    append-IsText 15 185 200 (codes "edit at offset ") _ (omega arith) (refl, omega arith)
      (append-IsText 20 165 185 _ _ (omega arith) (decimal-IsText 20 offset) (
        append-IsText 8 157 165 (codes " length ") _ (omega arith) (refl, omega arith)
          (append-IsText 20 137 157 _ (codes " runs past the end of the page") (omega arith)
            (decimal-IsText 20 len) (refl, omega arith))))
page_error-IsText (bad_version_tag n) h =
    append-IsText 20 20 200 (codes "unknown version tag ") _ (omega arith) (refl, omega arith)
      (decimal-IsText 20 n)
page_error-IsText needs_redo h = (refl, omega arith)
page_error-IsText (redo message) h =
    append-IsText 36 100 200 (codes "reconstruction via WAL redo failed: ") _ (omega arith)
      (refl, omega arith) h

pub failed_text-IsText : (e : PageError) → IsShort e → IsText 300 (failed_text e)
unfolding failed_text
failed_text-IsText e h =
    append-IsText 23 200 300 (codes "reconstruction failed: ") _ (omega arith) (refl, omega arith)
      (page_error-IsText e h)
