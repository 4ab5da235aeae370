-- ===== src/Pageserver/WalDecode/Restore/Pages.antt =====
-- The page that `restore` gives, and its hole.
use aethel_db.Prelude.{
  ℕ, zero, suc, ◌+◌, ◌-◌, ◌≤◌, ◌≡◌, refl, sym, ap, ◌∙◌, arith, true, false, not, Option, none, some,
  [], ◌∷◌, ◌++◌, length, take, drop, replicate, ltb, ◌==◌, length-append, length-take, length-drop,
  length-replicate, take-append, drop-append,
}
use aethel_db.Result.{Result, ok, err, panic}
use aethel_db.Common.Bytes.{Bytes}
use aethel_db.Pageserver.WalDecode.{
  WalDecodeError, bad_hole, bad_image_size, Compression, no_compression, pglz, lz4, zstd,
  DecodedImage, xlog_blcksz,
}
use aethel_db.Pageserver.WalDecode.Restore.{
  pglz_decompress, or_corrupt, with_hole, put_hole, decompressed, restore,
}
use aethel_db.Pageserver.WalDecode.Restore.Decompress.{
  Gives, then-Gives, if-Gives, Within, pglz_decompress-Within,
}

-- A page that is zero in a hole.
abbrev pub HasHole : ℕ → ℕ → Bytes → Type 0
HasHole ho hl page = (length page ≡ xlog_blcksz) × (take hl (drop ho page) ≡ replicate hl 0)

-- What is left of a page without its hole.
abbrev pub without_hole : ℕ → ℕ → Bytes → Bytes
without_hole ho hl page = take ho page ++ drop (ho + hl) page

-- The copies of a body that fills the page around the hole do not leave it.
put_hole-inside :
    (ho hl : ℕ) (body : Bytes)
    → length body + hl ≡ xlog_blcksz
    → ho ≤ length body
    → put_hole ho hl body ≡ ok (with_hole ho hl body)
unfolding put_hole
put_hole-inside ho hl body h le =
    let front : ltb (length body) ho ≡ false = ground arith in
    let inside : ltb xlog_blcksz (ho + hl) ≡ false = ground arith in
    let whole : (xlog_blcksz - (ho + hl) == length body - ho) ≡ true = ground arith in
    rw (front, inside, whole) refl

pub with_hole-HasHole :
    (ho hl : ℕ) (body : Bytes)
    → length body + hl ≡ xlog_blcksz
    → ho ≤ length body
    → HasHole ho hl (with_hole ho hl body)
with_hole-HasHole ho hl body h le =
    let front : length (take ho body) ≡ ho = omega (arith, length-take ho body) in
    let zeros : length (replicate {A = ℕ} hl 0) ≡ hl = length-replicate hl 0 in
    let back = length-drop ho body in
    (
      omega (
        arith,
        length-append (take ho body) (replicate hl 0 ++ drop ho body),
        length-append (replicate hl 0) (drop ho body),
      ),
      ap (take hl) (
            drop-append (take ho body) (replicate hl 0 ++ drop ho body) ho 0 ho front (omega arith))
          ∙ take-append (replicate hl 0) (drop ho body) hl zeros,
    )

Gives-weaken :
    (P : Bytes → Type 0) (r : Result WalDecodeError Bytes) → Gives P r → Gives (λ x. Unit {0}) r
Gives-weaken P (ok x) h = tt
Gives-weaken P (err e) h = tt
Gives-weaken P panic h = absurd h

take-drop : (n : ℕ) (xs : Bytes) → take n xs ++ drop n xs ≡ xs
take-drop zero xs = refl
take-drop (suc n) [] = refl
take-drop (suc n) (x ∷ xs) = ap (λ l. x ∷ l) (take-drop n xs)

drop-nil : (n : ℕ) → drop {A = ℕ} n [] ≡ []
drop-nil zero = refl
drop-nil (suc n) = refl

drop-drop : (n m : ℕ) (xs : Bytes) → drop m (drop n xs) ≡ drop (n + m) xs
drop-drop zero m xs = ap (λ k. drop k xs) (omega arith)
drop-drop (suc n) m [] = drop-nil m ∙ sym (drop-nil (suc n + m))
drop-drop (suc n) m (x ∷ xs) =
    let e : suc (n + m) ≡ suc n + m = omega arith in drop-drop n m xs ∙ ap (λ k. drop k (x ∷ xs)) e

length-without_hole :
    (ho hl : ℕ) (page : Bytes)
    → ho + hl ≤ length page
    → length (without_hole ho hl page) ≡ length page - hl
length-without_hole ho hl page h =
    let front = length-take ho page in
    let back = length-drop (ho + hl) page in
    omega (arith, length-append (take ho page) (drop (ho + hl) page))

with_hole-without_hole :
    (ho hl : ℕ) (page : Bytes)
    → ho + hl ≤ length page
    → take hl (drop ho page) ≡ replicate hl 0
    → with_hole ho hl (without_hole ho hl page) ≡ page
with_hole-without_hole ho hl page le h =
    let front : length (take ho page) ≡ ho = omega (arith, length-take ho page) in
    let parts : take hl (drop ho page) ++ drop (ho + hl) page ≡ drop ho page =
      rw (sym (drop-drop ho hl page)) (take-drop hl (drop ho page)) in
    rw
      (
        take-append (take ho page) (drop (ho + hl) page) ho front,
        drop-append (take ho page) (drop (ho + hl) page) ho 0 ho front (omega arith),
        sym h,
        parts,
      )
      (take-drop ho page)

module _ (lz4_decompress zstd_decompress : Bytes → ℕ → Option Bytes) where
  corrupt-Gives : (m : Compression) (o : Option Bytes) → Gives (λ x. Unit {0}) (or_corrupt m o)
  corrupt-Gives m none = tt
  corrupt-Gives m (some x) = tt

  body-Gives :
      (m : Compression) (bytes : Bytes) (n : ℕ)
      → Gives (λ x. Unit {0}) (decompressed lz4_decompress zstd_decompress m bytes n)
  unfolding decompressed
  body-Gives no_compression bytes n =
      if-Gives (λ x. Unit {0}) (not (length bytes == n)) _ (ok bytes) (λ _. tt) (λ _. tt)
  body-Gives pglz bytes n =
      Gives-weaken (Within n) (pglz_decompress bytes n) (pglz_decompress-Within bytes n)
  body-Gives lz4 bytes n = corrupt-Gives lz4 (lz4_decompress bytes n)
  body-Gives zstd bytes n = corrupt-Gives zstd (zstd_decompress bytes n)

  -- Whatever the decompressors of LZ4 and Zstandard give, restoring an image gives an error or a page
  -- of the full size whose hole is zero, and does not read out of range.
  pub restore-HasHole :
      (img : DecodedImage)
      → Gives (HasHole img.hole_offset img.hole_length) (restore lz4_decompress zstd_decompress img)
  unfolding restore
  restore-HasHole img =
      if-Gives _ (ltb xlog_blcksz (img.hole_offset + img.hole_length))
        (err (bad_hole img.hole_offset img.hole_length)) _ (λ _. tt)
        (λ e.
          then-Gives (λ x. Unit {0}) _
            (decompressed lz4_decompress zstd_decompress img.compression img.bytes
              (xlog_blcksz - img.hole_length))
            _ (body-Gives img.compression img.bytes (xlog_blcksz - img.hole_length))
            (λ body _.
              if-Gives _ (not (length body == xlog_blcksz - img.hole_length))
                (err (bad_image_size (length body) (xlog_blcksz - img.hole_length))) _ (λ _. tt)
                (λ f.
                  let fits : length body + img.hole_length ≡ xlog_blcksz = ground arith in
                  let front : img.hole_offset ≤ length body = ground arith in
                  rw (put_hole-inside img.hole_offset img.hole_length body fits front)
                    (with_hole-HasHole img.hole_offset img.hole_length body fits front))))

  -- An image whose hole is in the page, and whose stored bytes decompress to a page without that hole,
  -- is restored to the page, if the page has the full size and is zero in the hole.
  pub restore-without_hole :
      (img : DecodedImage) (page : Bytes)
      → img.hole_offset + img.hole_length ≤ xlog_blcksz
      → HasHole img.hole_offset img.hole_length page
      → decompressed lz4_decompress zstd_decompress img.compression img.bytes
          (xlog_blcksz - img.hole_length)
        ≡ ok (without_hole img.hole_offset img.hole_length page)
      → restore lz4_decompress zstd_decompress img ≡ ok page
  unfolding restore
  restore-without_hole img page le h e =
      let size = length-without_hole img.hole_offset img.hole_length page (omega (arith, h.0)) in
      let inside : ltb xlog_blcksz (img.hole_offset + img.hole_length) ≡ false = ground arith in
      let whole : (length (without_hole img.hole_offset img.hole_length page)
            == xlog_blcksz - img.hole_length)
          ≡ true =
        ground (arith, h.0) in
      rw
        (
          inside,
          e,
          whole,
          put_hole-inside img.hole_offset img.hole_length
              (without_hole img.hole_offset img.hole_length page) (omega (arith, h.0))
              (omega (arith, h.0)),
        )
        (ap ok
          (with_hole-without_hole img.hole_offset img.hole_length page (omega (arith, h.0)) h.1))
