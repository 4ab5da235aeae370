-- ===== src/Pageserver/WalDecode/Stream/Collected.antt =====
-- Collecting a payload from a buffer, and from the same buffer with more bytes behind it.
use aethel_db.Prelude.{
  ℕ, zero, suc, ◌+◌, ◌*◌, ◌%◌, ◌≤◌, ◌≡◌, ◌≢◌, refl, arith, inl, inr, Bool, true, false, Option,
  none, some, ◌++◌, length, take, ltb, ◌==◌, if◌then◌else◌, Bool-cases, length-append, length-drop,
}
use aethel_db.Result.{Result, ok, err, panic, ◌>>=◌}
use aethel_db.Common.Bytes.{Bytes, slice-front, slice-append, take-append_le, drop-append_le}
use aethel_db.Common.Lsn.{Lsn}
use aethel_db.Pageserver.WalDecode.{WalDecodeError, xlog_blcksz}
use aethel_db.Pageserver.WalDecode.Stream.{
  Decoder, feed, page_header_size, check_page_header, Payload, Collect, skip_header, take_payload,
  wanted, collect, start, collect_payload,
}

-- More bytes behind those that a collection has.
abbrev extend : Bytes → Collect → Collect
extend m c = record c { bytes = c.bytes ++ m }

header-feed :
    (d : Decoder) (m xs : Bytes)
    → 24 ≤ length xs
    → check_page_header (feed m d) (xs ++ m) ≡ check_page_header d xs
unfolding check_page_header feed
header-feed d m xs h =
    rw
      (
        slice-append {E = WalDecodeError} 0 2 xs m (omega arith),
        slice-append {E = WalDecodeError} 2 2 xs m (omega arith),
      )
      refl

skip-extend :
    (h : ℕ) (c : Collect) (m : Bytes)
    → h ≤ length c.bytes
    → skip_header h (extend m c) ≡ extend m (skip_header h c)
unfolding skip_header
skip-extend h c m le = rw (drop-append_le h c.bytes m le) refl

take-extend :
    (c : Collect) (m : Bytes)
    → wanted c ≤ length c.bytes
    → take_payload (wanted c) (take (wanted c) (c.bytes ++ m)) (extend m c)
      ≡ extend m (take_payload (wanted c) (take (wanted c) c.bytes) c)
unfolding take_payload
take-extend c m le =
    rw (drop-append_le (wanted c) c.bytes m le, take-append_le (wanted c) c.bytes m le) refl

-- A chain agrees with another where its ends agree, if they are reached.
same_end {ℓ κ} :
    {E : Type ℓ} {A : Type κ} (r : Result E (Unit {0})) (x y z : Result E A)
    → ((r >>= λ _. x) ≢ z)
    → (x ≢ z → y ≡ x)
    → (r >>= λ _. y) ≡ (r >>= λ _. x)
same_end (ok u) x y z h f = f h
same_end (err e) x y z h f = refl
same_end panic x y z h f = refl

long_header : (d : Decoder) (lsn : Lsn) → 24 ≤ page_header_size d lsn
unfolding page_header_size
long_header d lsn = ground arith

size-feed :
    (d : Decoder) (m : Bytes) (lsn : Lsn) → page_header_size (feed m d) lsn ≡ page_header_size d lsn
unfolding page_header_size feed
size-feed d m lsn = refl

-- A collection that has come to an end does not see what follows its bytes.
collect-feed :
    (fuel : ℕ) (d : Decoder) (c : Collect) (m : Bytes)
    → collect fuel d c ≢ ok none
    → collect fuel (feed m d) (extend m c) ≡ collect fuel d c
unfolding collect
collect-feed zero d c m h = refl
collect-feed (suc fuel) d c m h = elim (Bool-cases (c.left == 0)) [
  | inl e ↦ rw e refl
  | inr e ↦ elim (Bool-cases (c.pos % xlog_blcksz == 0)) [
    | inl p ↦ elim (Bool-cases (ltb (length c.bytes) (page_header_size d c.pos))) [
      | inl short ↦ absurd (h (rw (e, p, short) refl))
      | inr long ↦
          let size = page_header_size d c.pos in
          let more : ltb (length (c.bytes ++ m)) size ≡ false =
            ground (arith, length-append c.bytes m) in
          let at_least = long_header d c.pos in
          rw
            (
              e,
              p,
              size-feed d m c.pos,
              long,
              more,
              header-feed d m c.bytes (ground arith),
              skip-extend size c m (ground arith),
            )
            (same_end (check_page_header d c.bytes) (collect fuel d (skip_header size c)) _
              (ok none) (λ g. h (rw (e, p, long) g)) (collect-feed fuel d (skip_header size c) m))
    ]
    | inr p ↦ elim (Bool-cases (ltb (length c.bytes) (wanted c))) [
      | inl short ↦ absurd (h (rw (e, p, short) refl))
      | inr long ↦
          let more : ltb (length (c.bytes ++ m)) (wanted c) ≡ false =
            ground (arith, length-append c.bytes m) in
          let there : wanted c ≤ length c.bytes = ground arith in
          let here = slice-front {E = WalDecodeError} (wanted c) c.bytes there in
          rw
            (
              e,
              p,
              long,
              more,
              here,
              slice-front {E = WalDecodeError} (wanted c) (c.bytes ++ m)
                  (omega (arith, length-append c.bytes m)),
              take-extend c m there,
            )
            (collect-feed fuel d (take_payload (wanted c) (take (wanted c) c.bytes) c) m
              (λ g. h (rw (e, p, long, here) g)))
    ]
  ]
]

pub collect_payload-feed :
    (d : Decoder) (m : Bytes) (n : ℕ)
    → collect_payload d n ≢ ok none
    → collect_payload (feed m d) n ≡ collect_payload d n
unfolding collect_payload feed
collect_payload-feed d m n h = collect-feed (2 * n) d (start d n) m h

-- The raw bytes that a collection reports are there.
abbrev pub Fits : ℕ → Result WalDecodeError (Option Payload) → Type 0
Fits k (ok (some (rec, (raw, lsn)))) = raw ≤ k
Fits k (ok none) = Unit
Fits k (err e) = Unit
Fits k panic = Unit

then-Fits :
    (k : ℕ) (r : Result WalDecodeError (Unit {0})) (x : Result WalDecodeError (Option Payload))
    → Fits k x
    → Fits k (r >>= λ _. x)
then-Fits k (ok u) x h = h
then-Fits k (err e) x h = tt
then-Fits k panic x h = tt

if-Fits :
    (k : ℕ) (b : Bool) (x y : Result WalDecodeError (Option Payload))
    → (b ≡ true → Fits k x)
    → (b ≡ false → Fits k y)
    → Fits k (if b then x else y)
if-Fits k true x y h g = h refl
if-Fits k false x y h g = g refl

collect-Fits :
    (fuel k : ℕ) (d : Decoder) (c : Collect)
    → c.off + length c.bytes ≡ k
    → Fits k (collect fuel d c)
unfolding collect skip_header take_payload
collect-Fits zero k d c h = if-Fits k (c.left == 0) _ _ (λ _. omega arith) (λ _. tt)
collect-Fits (suc fuel) k d c h =
    if-Fits k (c.left == 0) _ _ (λ _. omega arith)
      (λ _.
        if-Fits k (c.pos % xlog_blcksz == 0) _ _
          (λ _.
            if-Fits k (ltb (length c.bytes) (page_header_size d c.pos)) _ _ (λ _. tt)
              (λ long. then-Fits k (check_page_header d c.bytes) _ (
                collect-Fits fuel k d (skip_header (page_header_size d c.pos) c)
                  (ground (arith, length-drop (page_header_size d c.pos) c.bytes)))))
          (λ _.
            if-Fits k (ltb (length c.bytes) (wanted c)) _ _ (λ _. tt)
              (λ long.
                let there : wanted c ≤ length c.bytes = ground arith in
                rw (slice-front {E = WalDecodeError} (wanted c) c.bytes there) (
                  collect-Fits fuel k d (take_payload (wanted c) (take (wanted c) c.bytes) c)
                    (ground (arith, length-drop (wanted c) c.bytes))))))

pub collect_payload-Fits : (d : Decoder) (n : ℕ) → Fits (length d.buf) (collect_payload d n)
unfolding collect_payload
collect_payload-Fits d n = collect-Fits (2 * n) (length d.buf) d (start d n) (omega arith)
