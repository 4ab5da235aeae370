-- ===== src/Pageserver/WalDecode/Restore.antt =====
-- `DecodedImage::restore` and `pglz_decompress`. The decompressors of LZ4 and Zstandard are
-- parameters: they are given the bytes and the length that the image shall have.
pub mod Decompress
pub mod Pages
use aethel_db.Prelude.{
  ℕ, zero, suc, ◌+◌, ◌-◌, ◌*◌, ◌/◌, ◌%◌, ◌^◌, Bool, true, false, not, ◌||◌, Option, none, some,
  List, [], ◌∷◌, ◌++◌, length, take, drop, replicate, get_elem?, ltb, leb, ◌==◌, if◌then◌else◌,
}
use aethel_db.Result.{Result, ok, err, panic, ◌>>=◌}
use aethel_db.Common.Bytes.{Bytes}
use aethel_db.Pageserver.WalDecode.{
  WalDecodeError, bad_hole, bad_image_size, decompress, Compression, no_compression, pglz, lz4,
  zstd, DecodedImage, xlog_blcksz,
}

-- A loop's source bytes that are left, and its output.
abbrev pub Tokens : Type 0
Tokens = Bytes × Bytes

-- `dst[dst.len() - off]`: an offset in front of the output panics.
unfoldable pub byte_back : ℕ → Bytes → Option ℕ
byte_back off dst = if ltb (length dst) off then none else get_elem? dst (length dst - off)

-- The loop that copies a back reference, byte by byte, so that it may overlap what it writes.
unfoldable pub copy : ℕ → ℕ → ℕ → Bytes → Result WalDecodeError Bytes
copy zero off dst_len dst = ok dst
copy (suc len) off dst_len dst =
    if leb dst_len (length dst)
    then ok dst
    else elim (byte_back off dst) [ none ↦ panic | some b ↦ copy len off dst_len (dst ++ (b ∷ [])) ]

-- A back reference of a known length.
unfoldable pub back_reference : ℕ → ℕ → ℕ → Bytes → Bytes → Result WalDecodeError Tokens
back_reference len off dst_len src dst =
    if (off == 0) || ltb (length dst) off
    then err (decompress pglz)
    else copy len off dst_len dst >>= λ dst'. ok (src, dst')

-- The length that the low bits of its first byte give; the largest one has a byte more.
unfoldable pub reference_length : ℕ → ℕ → ℕ → Bytes → Bytes → Result WalDecodeError Tokens
reference_length len off dst_len [] dst =
    if len == 18 then err (decompress pglz) else back_reference len off dst_len [] dst
reference_length len off dst_len (b ∷ src) dst =
    if len == 18
    then back_reference (len + b) off dst_len src dst
    else back_reference len off dst_len (b ∷ src) dst

unfoldable pub token : ℕ → ℕ → ℕ → Bytes → Bytes → Result WalDecodeError Tokens
token bit dst_len b0 src dst = if bit == 0 then ok (src, dst ++ (b0 ∷ [])) else elim src [
  | [] ↦ err (decompress pglz)
  | b1 ∷ src' ↦ reference_length (b0 % 16 + 3) (b0 / 16 % 16 * 256 + b1) dst_len src' dst
]

-- The rounds that are left of `for bit in 0..8`, and the control byte shifted to the bit of the next.
unfoldable pub control : ℕ → ℕ → ℕ → Tokens → Result WalDecodeError Tokens
control zero ctrl dst_len (src, dst) = ok (src, dst)
control (suc bits) ctrl dst_len ([], dst) = ok ([], dst)
control (suc bits) ctrl dst_len (b0 ∷ src, dst) =
    if leb dst_len (length dst)
    then ok (b0 ∷ src, dst)
    else token (ctrl % 2) dst_len b0 src dst >>= control bits (ctrl / 2) dst_len

-- The outer loop. Running out of fuel is the outcome `panic`; every round takes its control byte.
unfoldable pub pglz_loop : ℕ → ℕ → Tokens → Result WalDecodeError Bytes
pglz_loop fuel dst_len ([], dst) = ok dst
pglz_loop zero dst_len (ctrl ∷ src, dst) = if leb dst_len (length dst) then ok dst else panic
pglz_loop (suc fuel) dst_len (ctrl ∷ src, dst) =
    if leb dst_len (length dst)
    then ok dst
    else control 8 ctrl dst_len (src, dst) >>= pglz_loop fuel dst_len

unfoldable pub pglz_decompress : Bytes → ℕ → Result WalDecodeError Bytes
pglz_decompress src dst_len = pglz_loop (length src) dst_len (src, [])

abbrev pub or_corrupt : Compression → Option Bytes → Result WalDecodeError Bytes
or_corrupt method none = err (decompress method)
or_corrupt method (some bytes) = ok bytes

-- The page with a hole of zeros in its body.
abbrev pub with_hole : ℕ → ℕ → Bytes → Bytes
with_hole ho hl body = take ho body ++ (replicate hl 0 ++ drop ho body)

-- The two copies into a zeroed page. A slice that leaves the page or the body panics, and so does a copy
-- between slices of different lengths.
unfoldable pub put_hole : ℕ → ℕ → Bytes → Result WalDecodeError Bytes
put_hole ho hl body =
    if ltb (length body) ho
    then panic
    else if ltb xlog_blcksz (ho + hl)
    then panic
    else if not (xlog_blcksz - (ho + hl) == length body - ho)
    then panic
    else ok (with_hole ho hl body)

module _ (lz4_decompress zstd_decompress : Bytes → ℕ → Option Bytes) where
  -- The bytes of a page without its hole, by the method that they were stored with.
  unfoldable pub decompressed : Compression → Bytes → ℕ → Result WalDecodeError Bytes
  decompressed no_compression bytes body_len =
      if not (length bytes == body_len)
      then err (bad_image_size (length bytes) body_len)
      else ok bytes
  decompressed pglz bytes body_len = pglz_decompress bytes body_len
  decompressed lz4 bytes body_len = or_corrupt lz4 (lz4_decompress bytes body_len)
  decompressed zstd bytes body_len = or_corrupt zstd (zstd_decompress bytes body_len)

  unfoldable pub restore : DecodedImage → Result WalDecodeError Bytes
  restore img =
      if ltb xlog_blcksz (img.hole_offset + img.hole_length)
      then err (bad_hole img.hole_offset img.hole_length)
      else decompressed img.compression img.bytes (xlog_blcksz - img.hole_length) >>= λ body.
          if not (length body == xlog_blcksz - img.hole_length)
          then err (bad_image_size (length body) (xlog_blcksz - img.hole_length))
          else put_hole img.hole_offset img.hole_length body
