-- ===== src/Pageserver/WalDecode/Stream/Payload.antt =====
-- `collect_payload` over all buffers: its rounds, the bytes that it counts, and what it returns.
use aethel_db.Prelude.{
  ℕ, zero, suc, ◌+◌, ◌-◌, ◌*◌, ◌/◌, ◌%◌, ◌^◌, ◌≤◌, ◌≡◌, ◌≢◌, refl, arith, Bool, true, false, Option,
  none, some, length, take, ltb, ◌==◌, if◌then◌else◌, length-append, length-drop, length-take,
}
use aethel_db.Result.{Result, ok, err, panic, ◌>>=◌}
use aethel_db.Common.Bytes.{Bytes, slice, slice-front}
use aethel_db.Common.Lsn.{Lsn}
use aethel_db.Pageserver.WalDecode.{WalDecodeError, xlog_blcksz}
use aethel_db.Pageserver.WalDecode.Stream.{
  Decoder, page_header_size, check_page_header, Payload, or_here, Collect, skip_header,
  take_payload, wanted, collect, start, collect_payload,
}

-- A position is a `u64`, and the source divides by the segment size.
unfoldable pub IsDecoder : Decoder → Type 0
IsDecoder d = (suc d.lsn ≤ 2 ^ 64) × (1 ≤ d.wal_seg_size)

-- A collection returns: what it finds satisfies a predicate.
abbrev pub Returns : (Payload → Type 0) → Result WalDecodeError (Option Payload) → Type 0
Returns P (ok (some x)) = P x
Returns P (ok none) = Unit
Returns P (err e) = Unit
Returns P panic = ⊥

-- What is found has `n` bytes; they span no fewer of the `k` that there are, from a position on page `p`.
abbrev pub Sound : ℕ → ℕ → ℕ → Payload → Type 0
Sound k n p (rec, (raw, lsn)) =
    ((length rec ≡ n) × (n ≤ raw)) × ((raw ≤ k) × (lsn / xlog_blcksz ≡ p))

abbrev Keeps : ℕ → ℕ → ℕ → Collect → Type 0
Keeps k n p c =
    ((c.off + length c.bytes ≡ k) × ((length c.out + c.left ≡ n) × (length c.out ≤ c.off)))
    × ((or_here c.first c.pos / xlog_blcksz ≡ p) × (suc c.pos ≤ 2 ^ 64))

-- The rounds that are left.
abbrev rounds : Collect → ℕ
rounds c = if c.pos % xlog_blcksz == 0 then 2 * c.left else 2 * c.left - 1

then-Returns :
    (P : Payload → Type 0) (r : Result WalDecodeError (Unit {0}))
    (x : Result WalDecodeError (Option Payload))
    → r ≢ panic
    → Returns P x
    → Returns P (r >>= λ _. x)
then-Returns P (ok u) x f h = h
then-Returns P (err e) x f h = tt
then-Returns P panic x f h = f refl

if-Returns :
    (P : Payload → Type 0) (b : Bool) (x y : Result WalDecodeError (Option Payload))
    → (b ≡ true → Returns P x)
    → (b ≡ false → Returns P y)
    → Returns P (if b then x else y)
if-Returns P true x y h g = h refl
if-Returns P false x y h g = g refl

header_returns : (d : Decoder) (xs : Bytes) → 24 ≤ length xs → check_page_header d xs ≢ panic
unfolding check_page_header slice
header_returns d xs h = ground arith

size_bounds :
    (d : Decoder) (lsn : Lsn) → (24 ≤ page_header_size d lsn) × (page_header_size d lsn ≤ 40)
unfolding page_header_size
size_bounds d lsn = ground arith

same_page :
    (first : Option Lsn) (pos h p : ℕ)
    → h ≤ 40
    → pos % 8192 ≡ 0
    → suc pos ≤ 2 ^ 64
    → or_here first pos / 8192 ≡ p
    → or_here first ((pos + h) % 2 ^ 64) / 8192 ≡ p
same_page none pos h p hi b u q = omega arith
same_page (some x) pos h p hi b u q = q

skip-Keeps :
    (k n p h : ℕ) (c : Collect)
    → h ≤ length c.bytes
    → 24 ≤ h
    → h ≤ 40
    → c.pos % xlog_blcksz ≡ 0
    → Keeps k n p c
    → Keeps k n p (skip_header h c)
unfolding skip_header
skip-Keeps k n p h c le lo hi b (s, (q, u)) =
    (ground (arith, length-drop h c.bytes), (same_page c.first c.pos h p hi b u q, omega arith))

take-Keeps :
    (k n p : ℕ) (c : Collect)
    → wanted c ≤ length c.bytes
    → Keeps k n p c
    → Keeps k n p (take_payload (wanted c) (take (wanted c) c.bytes) c)
unfolding take_payload
take-Keeps k n p c le (s, (q, u)) =
    let appended = length-append c.out (take (wanted c) c.bytes) in
    let taken = length-take (wanted c) c.bytes in
    let dropped = length-drop (wanted c) c.bytes in (ground arith, (q, omega arith))

skip-rounds :
    (fuel h : ℕ) (c : Collect)
    → suc c.pos ≤ 2 ^ 64
    → 24 ≤ h
    → h ≤ 40
    → ((c.left == 0) ≡ false)
    → ((c.pos % xlog_blcksz == 0) ≡ true)
    → rounds c ≤ suc fuel
    → rounds (skip_header h c) ≤ fuel
unfolding skip_header
skip-rounds fuel h c u lo hi e b f = ground arith

take-rounds :
    (fuel : ℕ) (c : Collect)
    → ((c.left == 0) ≡ false)
    → ((c.pos % xlog_blcksz == 0) ≡ false)
    → rounds c ≤ suc fuel
    → rounds (take_payload (wanted c) (take (wanted c) c.bytes) c) ≤ fuel
unfolding take_payload
take-rounds fuel c e b f = let at : rounds c ≡ 2 * c.left - 1 = rw b refl in ground arith

collect-Returns :
    (fuel k n p : ℕ) (d : Decoder) (c : Collect)
    → rounds c ≤ fuel
    → Keeps k n p c
    → Returns (Sound k n p) (collect fuel d c)
unfolding collect
collect-Returns zero k n p d c f h =
    if-Returns (Sound k n p) (c.left == 0) _ _ (λ e. ground arith) (λ e. ground arith)
collect-Returns (suc fuel) k n p d c f h =
    if-Returns (Sound k n p) (c.left == 0) _ _ (λ e. ground arith)
      (λ e.
        if-Returns (Sound k n p) (c.pos % xlog_blcksz == 0) _ _
          (λ b.
            if-Returns (Sound k n p) (ltb (length c.bytes) (page_header_size d c.pos)) _ _ (λ _. tt)
              (λ long.
                let size = size_bounds d c.pos in
                then-Returns (Sound k n p) (check_page_header d c.bytes) _
                  (header_returns d c.bytes (ground arith))
                  (collect-Returns fuel k n p d (skip_header (page_header_size d c.pos) c)
                    (skip-rounds fuel _ c (ground arith) size.0 size.1 e b f)
                    (skip-Keeps k n p (page_header_size d c.pos) c (ground arith) size.0 size.1
                      (ground arith) h))))
          (λ b.
            if-Returns (Sound k n p) (ltb (length c.bytes) (wanted c)) _ _ (λ _. tt)
              (λ long.
                let there : wanted c ≤ length c.bytes = ground arith in
                rw (slice-front {E = WalDecodeError} (wanted c) c.bytes there) (
                  collect-Returns fuel k n p d (take_payload (wanted c) (take (wanted c) c.bytes) c)
                    (take-rounds fuel c e b f) (take-Keeps k n p c there h)))))

start-Keeps :
    (d : Decoder) (n : ℕ) → IsDecoder d → Keeps (length d.buf) n (d.lsn / xlog_blcksz) (start d n)
unfolding IsDecoder
start-Keeps d n h = ground arith

-- `collect_payload` always returns. What it returns has the bytes that were asked for.
pub collect_payload-Returns :
    (d : Decoder) (n : ℕ)
    → IsDecoder d
    → Returns (Sound (length d.buf) n (d.lsn / xlog_blcksz)) (collect_payload d n)
unfolding collect_payload
collect_payload-Returns d n h =
    collect-Returns (2 * n) (length d.buf) n (d.lsn / xlog_blcksz) d (start d n) (ground arith)
      (start-Keeps d n h)
