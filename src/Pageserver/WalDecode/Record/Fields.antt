-- ===== src/Pageserver/WalDecode/Record/Fields.antt =====
-- Reads of the fields of a record from where they were written.
use aethel_db.Prelude.{
  ℕ, zero, suc, ◌+◌, ◌-◌, ◌*◌, ◌/◌, ◌%◌, ◌^◌, ◌≤◌, ◌<◌, ◌≡◌, refl, sym, ap, ◌∙◌, arith, Bool, true,
  false, not, ◌&&◌, Option, none, some, [], ◌∷◌, ◌++◌, length, ltb, ◌==◌, if◌then◌else◌, String,
  length-append, take-append, drop-append, append_assoc,
}
use aethel_db.Result.{Result, ok, ◌>>=◌}
use aethel_db.Common.Bytes.{Bytes, slice-front}
use aethel_db.Common.Page.{ForkNumber, fork_raw, from_raw-fork_raw}
use aethel_db.Pageserver.WalDecode.{
  WalDecodeError, Compression, no_compression, pglz, lz4, zstd, DecodedImage, DecodedBlock, from_le,
}
use aethel_db.Pageserver.WalDecode.Record.{
  take_bytes, u8, le_number, has_flag, is_compressed, compression_from_info, hole_length,
  image_header, Locator, locator, fork_of, block_header,
}
use aethel_db.Pageserver.WalDecode.Record.Layout.{
  le, bit, method_bits, compresses, has_hole, info_byte, write_image_header, is_some, locator_of,
  same_locator, write_locator, has_data, flags_byte, write_block_header, IsImage, ImageIsValid,
  IsBlock, meta_of, work_of,
}

pub length-le : (n v : ℕ) → length (le n v) ≡ n
unfolding le
length-le zero v = refl
length-le (suc n) v = omega (arith, length-le n (v / 256))

from_le-le : (n v : ℕ) → v < 256 ^ n → from_le (le n v) ≡ v
unfolding le
from_le-le zero v h = omega arith
from_le-le (suc n) v h =
    let rest : from_le (le n (v / 256)) ≡ v / 256 = from_le-le n (v / 256) (omega arith) in
    omega arith

pub take_bytes-append :
    (n : ℕ) (what : String) (xs rest : Bytes)
    → length xs ≡ n
    → take_bytes n what (xs ++ rest) ≡ ok (xs, rest)
unfolding take_bytes
take_bytes-append n what xs rest h =
    let enough : ltb (length (xs ++ rest)) n ≡ false = ground (arith, length-append xs rest) in
    let there =
      slice-front {E = WalDecodeError} n (xs ++ rest) (omega (arith, length-append xs rest)) in
    rw (enough, there, take-append xs rest n h, drop-append xs rest n 0 n h (omega arith)) refl

pub number-append :
    (n : ℕ) (what : String) (v : ℕ) (rest : Bytes)
    → v < 256 ^ n
    → le_number n what (le n v ++ rest) ≡ ok (v, rest)
unfolding le_number
number-append n what v rest h =
    rw (take_bytes-append n what (le n v) rest (length-le n v), from_le-le n v h) refl

bit-flag : (n : ℕ) (b : Bool) → n ≡ bit b → (n == 1) ≡ b
bit-flag n false h = ground arith
bit-flag n true h = ground arith

bit-bound : (b : Bool) → bit b ≤ 1
bit-bound b = ground arith

fork_raw-bound : (f : ForkNumber) → fork_raw f ≤ 3
fork_raw-bound f = ground arith

-- Bits of the bytes of flags.
block_flags :
    (same : Bool) (b : DecodedBlock)
    → ((has_flag 4 (flags_byte same b) ≡ is_some b.image)
        × (has_flag 5 (flags_byte same b) ≡ has_data b))
      × (((has_flag 6 (flags_byte same b) ≡ b.will_init) × (has_flag 7 (flags_byte same b) ≡ same))
          × (flags_byte same b % 16 ≡ fork_raw b.rel.fork))
block_flags same b =
    let fork = fork_raw-bound b.rel.fork in
    let i = bit-bound (is_some b.image) in
    let d = bit-bound (has_data b) in
    let w = bit-bound b.will_init in
    let s = bit-bound same in
    (
      (bit-flag _ (is_some b.image) (omega arith), bit-flag _ (has_data b) (omega arith)),
      ((bit-flag _ b.will_init (omega arith), bit-flag _ same (omega arith)), omega arith),
    )

-- Of the bits of a method, for each of its four values.
image_bits :
    (hole apply : Bool) (m : Compression)
    → (has_flag 0 (bit hole + 2 * bit apply + method_bits m) ≡ hole)
      × ((has_flag 1 (bit hole + 2 * bit apply + method_bits m) ≡ apply)
          × ((is_compressed (bit hole + 2 * bit apply + method_bits m) ≡ compresses m)
              × (compression_from_info (bit hole + 2 * bit apply + method_bits m) ≡ m)))
unfolding compression_from_info
image_bits true true no_compression = (refl, (refl, (refl, refl)))
image_bits true false no_compression = (refl, (refl, (refl, refl)))
image_bits false true no_compression = (refl, (refl, (refl, refl)))
image_bits false false no_compression = (refl, (refl, (refl, refl)))
image_bits true true pglz = (refl, (refl, (refl, refl)))
image_bits true false pglz = (refl, (refl, (refl, refl)))
image_bits false true pglz = (refl, (refl, (refl, refl)))
image_bits false false pglz = (refl, (refl, (refl, refl)))
image_bits true true lz4 = (refl, (refl, (refl, refl)))
image_bits true false lz4 = (refl, (refl, (refl, refl)))
image_bits false true lz4 = (refl, (refl, (refl, refl)))
image_bits false false lz4 = (refl, (refl, (refl, refl)))
image_bits true true zstd = (refl, (refl, (refl, refl)))
image_bits true false zstd = (refl, (refl, (refl, refl)))
image_bits false true zstd = (refl, (refl, (refl, refl)))
image_bits false false zstd = (refl, (refl, (refl, refl)))

pub u8-cons : (what : String) (x : ℕ) (rest : Bytes) → u8 what (x ∷ rest) ≡ ok (x, rest)
unfolding u8
u8-cons what x rest = refl

hole_read :
    (info n : ℕ) (c : Bytes) (hole comp : Bool)
    → has_flag 0 info ≡ hole
    → is_compressed info ≡ comp
    → hole_length info n c ≡ (
        if hole && comp
        then le_number 2 "hole_length" c
        else if hole
        then ok ((8192 + 2 ^ 16 - n) % 2 ^ 16, c)
        else ok (0, c))
unfolding hole_length
hole_read info n c hole comp h g = rw (sym h, sym g) refl

hole_cases :
    (n len : ℕ) (hole comp : Bool) (rest : Bytes)
    → len < 2 ^ 16
    → n < 2 ^ 16
    → not (len == 0) ≡ hole
    → ((comp ≡ false) → (hole ≡ true) → n + len ≡ 8192)
    → (if hole && comp
        then le_number 2 "hole_length" ((if hole && comp then le 2 len else []) ++ rest)
        else if hole
        then ok ((8192 + 2 ^ 16 - n) % 2 ^ 16, (if hole && comp then le 2 len else []) ++ rest)
        else ok (0, (if hole && comp then le 2 len else []) ++ rest))
      ≡ ok (len, rest)
hole_cases n len true true rest w u e f = number-append 2 "hole_length" len rest w
hole_cases n len true false rest w u e f =
    let whole = f refl refl in
    let same : (8192 + 2 ^ 16 - n) % 2 ^ 16 ≡ len = ground arith in rw same refl
hole_cases n len false comp rest w u e f =
    let none_left : 0 ≡ len = ground arith in rw (sym none_left) refl

hole-written :
    (img : DecodedImage) (rest : Bytes)
    → IsImage img
    → hole_length
        (info_byte img)
        (length img.bytes)
        ((if has_hole img && compresses img.compression then le 2 img.hole_length else []) ++ rest)
      ≡ ok (img.hole_length, rest)
unfolding IsImage
hole-written img rest ((u, o), (w, f)) =
    let bits = image_bits (has_hole img) img.apply img.compression in
    hole_read (info_byte img) (length img.bytes) _ (has_hole img) (compresses img.compression)
      bits.0 bits.1.1.0
    ∙ hole_cases (length img.bytes) img.hole_length (has_hole img) (compresses img.compression) rest
        w u refl f

-- A chain goes on where its first part ended.
pub then_ok {ℓ κ} :
    {A : Type ℓ} {B : Type κ}
    → (r : Result WalDecodeError A) (a : A) (f : A → Result WalDecodeError B)
      (z : Result WalDecodeError B)
    → r ≡ ok a
    → f a ≡ z
    → (r >>= f) ≡ z
then_ok r a f z h g = ap (λ x. x >>= f) h ∙ g

pub image_header-written :
    (img : DecodedImage) (rest : Bytes)
    → IsImage img
    → image_header (write_image_header (some img) ++ rest) ≡ ok (meta_of (some img), rest)
unfolding image_header write_image_header IsImage
image_header-written img rest ((u, o), (w, f)) =
    let bits = image_bits (has_hole img) img.apply img.compression in
    let hole = if has_hole img && compresses img.compression then le 2 img.hole_length else [] in
    let e : (le 2 (length img.bytes) ++ (le 2 img.hole_offset ++ (info_byte img ∷ hole))) ++ rest
        ≡ le 2 (length img.bytes) ++ (le 2 img.hole_offset ++ (info_byte img ∷ (hole ++ rest))) =
      append_assoc (le 2 (length img.bytes)) _ rest
      ∙ ap (λ l. le 2 (length img.bytes) ++ l) (append_assoc (le 2 img.hole_offset) _ rest) in
    rw e (
      then_ok _ _ _ _ (number-append 2 "bimg_len" (length img.bytes) _ (omega arith)) (
        then_ok _ _ _ _ (number-append 2 "hole_offset" img.hole_offset _ (omega arith)) (
          then_ok _ _ _ _ (u8-cons "bimg_info" (info_byte img) _) (
            then_ok _ _ _ _ (hole-written img rest ((u, o), (w, f)))
              (rw (bits.1.1.1, bits.1.0) refl)))))

-- A block after its id: the optional image, the relation, the block number.
option_image-written :
    (o : Option DecodedImage) (rest : Bytes)
    → ImageIsValid o
    → (if is_some o
        then image_header (write_image_header o ++ rest)
        else ok (none, write_image_header o ++ rest))
      ≡ ok (meta_of o, rest)
unfolding write_image_header
option_image-written none rest h = refl
option_image-written (some img) rest h = image_header-written img rest h

same-locator :
    (last : Option Locator) (loc : Locator) → same_locator last loc ≡ true → last ≡ some loc
same-locator none loc h = absurd cc
same-locator (some last) loc h = ap some (ground arith)

abbrev IsLocator : Locator → Type 0
IsLocator loc = (loc.0 < 2 ^ 32) × ((loc.1.0 < 2 ^ 32) × (loc.1.1 < 2 ^ 32))

locator-written :
    (same : Bool) (last : Option Locator) (loc : Locator) (rest : Bytes)
    → (same ≡ true → last ≡ some loc)
    → IsLocator loc
    → locator same last (write_locator same loc ++ rest) ≡ ok (loc, rest)
unfolding locator write_locator
locator-written true last loc rest h w = rw (h refl) refl
locator-written false last loc rest h (s, (d, r)) =
    let e : (le 4 loc.0 ++ (le 4 loc.1.0 ++ le 4 loc.1.1)) ++ rest
        ≡ le 4 loc.0 ++ (le 4 loc.1.0 ++ (le 4 loc.1.1 ++ rest)) =
      append_assoc (le 4 loc.0) _ rest
      ∙ ap (λ l. le 4 loc.0 ++ l) (append_assoc (le 4 loc.1.0) _ rest) in
    ap (locator false last) e
    ∙ then_ok _ _ _ _ (number-append 4 "spcOid" loc.0 _ (omega arith)) (
        then_ok _ _ _ _ (number-append 4 "dbOid" loc.1.0 _ (omega arith))
          (then_ok _ _ _ _ (number-append 4 "relNumber" loc.1.1 rest (omega arith)) refl))

pub block_header-written :
    (last : Option Locator) (b : DecodedBlock) (rest : Bytes)
    → IsBlock b
    → block_header last (write_block_header last b ++ rest)
      ≡ ok ((locator_of b.rel, work_of b), rest)
unfolding block_header write_block_header fork_of
block_header-written last b rest (((s, d), (r, n)), (l, img)) =
    let same = same_locator last (locator_of b.rel) in
    let bits = block_flags same b in
    let wi = write_image_header b.image in
    let wl = write_locator same (locator_of b.rel) in
    let e : (le 2 (length b.block_data) ++ (wi ++ (wl ++ le 4 b.blkno))) ++ rest
        ≡ le 2 (length b.block_data) ++ (wi ++ (wl ++ (le 4 b.blkno ++ rest))) =
      append_assoc (le 2 (length b.block_data)) _ rest
      ∙ ap (λ l. le 2 (length b.block_data) ++ l)
          (append_assoc wi _ rest ∙ ap (λ l. wi ++ l) (append_assoc wl _ rest)) in
    rw
      (
        u8-cons "fork_flags" (flags_byte same b)
            ((le 2 (length b.block_data) ++ (wi ++ (wl ++ le 4 b.blkno))) ++ rest),
        e,
        bits.0.0,
        bits.0.1,
        bits.1.0.0,
        bits.1.0.1,
        bits.1.1,
        from_raw-fork_raw b.rel.fork,
      )
      (then_ok _ _ _ _ (number-append 2 "block data_len" (length b.block_data) _ (omega arith)) (
        then_ok _ _ _ _ (option_image-written b.image _ img) (
          then_ok _ _ _ _
            (locator-written same last (locator_of b.rel) _ (same-locator last (locator_of b.rel))
              (s, (d, r)))
            (then_ok _ _ _ _ (number-append 4 "blkno" b.blkno rest (omega arith)) refl))))
