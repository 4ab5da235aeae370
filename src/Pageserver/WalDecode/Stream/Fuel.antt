-- ===== src/Pageserver/WalDecode/Stream/Fuel.antt =====
-- What the rounds of `poll_decode` consume, and its fuel.
use aethel_db.Prelude.{
  ℕ, zero, suc, ◌+◌, ◌-◌, ◌*◌, ◌/◌, ◌%◌, ◌^◌, ◌≤◌, ◌≡◌, refl, arith, inl, inr, Option, none, some,
  length, false, ltb, ◌==◌, Bool-cases, length-drop,
}
use aethel_db.Result.{Result, ok, err, panic}
use aethel_db.Common.Lsn.{Lsn}
use aethel_db.Common.Bytes.{Bytes, slice-front}
use aethel_db.Pageserver.WalDecode.{WalDecodeError, xlog_blcksz, size_of_xlog_record, from_le}
use aethel_db.Pageserver.WalDecode.Stream.{
  Decoder, Payload, collect_payload, consume, Round, need, again, found, failed, broken, align,
  without, on_consumed, on_tot_len, skip_page, on_record, on_length, on_aligned, round, Polled,
  poll, poll_decode, settle,
}
use aethel_db.Pageserver.WalDecode.Stream.Payload.{
  IsDecoder, Returns, Sound, collect_payload-Returns,
}

-- What a round comes to: it never breaks, and it goes on, or finds a record, only by consuming bytes.
abbrev pub Progress : ℕ → Round → Type 0
Progress k (need x) = IsDecoder x × (length x.buf ≤ k)
Progress k (again x) = IsDecoder x × (suc (length x.buf) ≤ k)
Progress k (found lsn rec x) = IsDecoder x × (suc (length x.buf) ≤ k)
Progress k (failed e x) = IsDecoder x × (length x.buf ≤ k)
Progress k (broken x) = ⊥

without-Decoder : (raw : ℕ) (d : Decoder) → IsDecoder d → IsDecoder (without raw d)
unfolding IsDecoder
without-Decoder raw d h = (omega arith, h.1)

-- Bytes that are there are drained.
pub consume-inside :
    (raw : ℕ) (d : Decoder) → raw ≤ length d.buf → consume raw d ≡ ok (without raw d)
unfolding consume
consume-inside raw d h = let there : ltb (length d.buf) raw ≡ false = ground arith in rw there refl

consumed-Progress :
    (k raw : ℕ) (d : Decoder) (f : Decoder → Round)
    → raw ≤ length d.buf
    → Progress k (f (without raw d))
    → Progress k (on_consumed d f (consume raw d))
unfolding on_consumed
consumed-Progress k raw d f h p = rw (consume-inside raw d h) p

skip_size :
    (d : Decoder) (lsn : Lsn)
    → IsDecoder d
    → lsn / xlog_blcksz ≡ d.lsn / xlog_blcksz
    → 1 ≤ ((lsn / xlog_blcksz + 1) * xlog_blcksz + 2 ^ 64 - d.lsn) % 2 ^ 64
unfolding IsDecoder
skip_size d lsn (h, _) same = omega arith

skip_page-Progress :
    (k : ℕ) (d : Decoder) (lsn : Lsn)
    → IsDecoder d
    → length d.buf ≤ k
    → lsn / xlog_blcksz ≡ d.lsn / xlog_blcksz
    → Progress k (skip_page d lsn)
unfolding skip_page
skip_page-Progress k d lsn h le same =
    let skip = ((lsn / xlog_blcksz + 1) * xlog_blcksz + 2 ^ 64 - d.lsn) % 2 ^ 64 in
    elim (Bool-cases (ltb (length d.buf) skip)) [
      | inl short ↦ rw short (h, le)
      | inr long ↦
          let positive = skip_size d lsn h same in
          rw long (
            consumed-Progress k skip d again (ground arith)
              (without-Decoder skip d h, ground (arith, length-drop skip d.buf)))
    ]

on_record-Progress :
    (k n p : ℕ) (d : Decoder) (r : Result WalDecodeError (Option Payload))
    → IsDecoder d
    → length d.buf ≤ k
    → 1 ≤ n
    → Returns (Sound (length d.buf) n p) r
    → Progress k (on_record d r)
unfolding on_record
on_record-Progress k n p d (ok (some (rec, (raw, lsn)))) h le lo s =
    consumed-Progress k raw d (found lsn rec) s.1.0
      (without-Decoder raw d h, omega (arith, length-drop raw d.buf))
on_record-Progress k n p d (ok none) h le lo s = (h, le)
on_record-Progress k n p d (err e) h le lo s = (h, le)
on_record-Progress k n p d panic h le lo s = s

tot_len-Progress :
    (k : ℕ) (d : Decoder) (bytes : Bytes) (lsn : Lsn)
    → IsDecoder d
    → length d.buf ≤ k
    → lsn / xlog_blcksz ≡ d.lsn / xlog_blcksz
    → Progress k (on_tot_len d lsn (ok bytes))
unfolding on_tot_len
tot_len-Progress k d bytes lsn h le same =
    elim (Bool-cases (ltb (from_le bytes) size_of_xlog_record)) [
      | inl e ↦ rw e (skip_page-Progress k d lsn h le same)
      | inr e ↦ rw e (
          on_record-Progress k (from_le bytes) (d.lsn / xlog_blcksz) d
            (collect_payload d (from_le bytes)) h le (ground arith)
            (collect_payload-Returns d (from_le bytes) h))
    ]

on_length-Progress :
    (k : ℕ) (d : Decoder) (r : Result WalDecodeError (Option Payload))
    → IsDecoder d
    → length d.buf ≤ k
    → Returns (Sound (length d.buf) 4 (d.lsn / xlog_blcksz)) r
    → Progress k (on_length d r)
unfolding on_length
on_length-Progress k d (ok (some (bytes, (raw, lsn)))) h le s =
    rw (slice-front {E = WalDecodeError} 4 bytes (omega (arith, s.0.0)))
      (tot_len-Progress k d _ lsn h le s.1.1)
on_length-Progress k d (ok none) h le s = (h, le)
on_length-Progress k d (err e) h le s = (h, le)
on_length-Progress k d panic h le s = s

-- What padding leaves.
abbrev Aligned : ℕ → Result WalDecodeError (Option Decoder) → Type 0
Aligned k (ok none) = Unit
Aligned k (ok (some x)) = IsDecoder x × (length x.buf ≤ k)
Aligned k (err e) = Unit
Aligned k panic = ⊥

align-Aligned : (d : Decoder) → IsDecoder d → Aligned (length d.buf) (align d)
unfolding align
align-Aligned d h = elim (Bool-cases (d.lsn % 8 == 0)) [
  | inl e ↦ rw e (h, omega arith)
  | inr e ↦ elim (Bool-cases (ltb (length d.buf) (8 - d.lsn % 8))) [
    | inl short ↦ rw (e, short) tt
    | inr long ↦
        rw (e, long, consume-inside (8 - d.lsn % 8) d (ground arith))
          (without-Decoder (8 - d.lsn % 8) d h, omega (arith, length-drop (8 - d.lsn % 8) d.buf))
  ]
]

on_aligned-Progress :
    (k : ℕ) (d : Decoder) (a : Result WalDecodeError (Option Decoder))
    → IsDecoder d
    → length d.buf ≤ k
    → Aligned k a
    → Progress k (on_aligned d a)
unfolding on_aligned
on_aligned-Progress k d (ok none) h le f = (h, le)
on_aligned-Progress k d (err e) h le f = (h, le)
on_aligned-Progress k d panic h le f = f
on_aligned-Progress k d (ok (some x)) h le (g, lx) =
    on_length-Progress k x (collect_payload x 4) g lx (collect_payload-Returns x 4 g)

pub round-Progress : (d : Decoder) → IsDecoder d → Progress (length d.buf) (round d)
unfolding round
round-Progress d h =
    on_aligned-Progress (length d.buf) d (align d) h (omega arith) (align-Aligned d h)

-- What a call of `poll_decode` comes to.
abbrev pub PollReturns : ℕ → Polled → Type 0
PollReturns k (ok none, x) = IsDecoder x × (length x.buf ≤ k)
PollReturns k (ok (some r), x) = IsDecoder x × (suc (length x.buf) ≤ k)
PollReturns k (err e, x) = IsDecoder x × (length x.buf ≤ k)
PollReturns k (panic, x) = ⊥

settle-PollReturns :
    (j k : ℕ) (go : Decoder → Polled) (r : Round)
    → j ≤ k
    → Progress j r
    → ((x : Decoder) → IsDecoder x → suc (length x.buf) ≤ j → PollReturns k (go x))
    → PollReturns k (settle go r)
unfolding settle
settle-PollReturns j k go (need x) le (g, h) f = (g, omega arith)
settle-PollReturns j k go (again x) le (g, h) f = f x g h
settle-PollReturns j k go (found lsn rec x) le (g, h) f = (g, omega arith)
settle-PollReturns j k go (failed e x) le (g, h) f = (g, omega arith)
settle-PollReturns j k go (broken x) le h f = h

poll-PollReturns :
    (fuel k : ℕ) (d : Decoder)
    → IsDecoder d
    → length d.buf ≤ k
    → suc (length d.buf) ≤ fuel
    → PollReturns k (poll fuel d)
unfolding poll
poll-PollReturns zero k d h le f = absurd (omega arith)
poll-PollReturns (suc fuel) k d h le f =
    settle-PollReturns (length d.buf) k (poll fuel) (round d) le (round-Progress d h)
      (λ x g lx. poll-PollReturns fuel k x g (omega arith) (omega arith))

-- `poll_decode` returns on every buffer: it neither loops forever nor reads past the end.
pub poll_decode-PollReturns :
    (d : Decoder) → IsDecoder d → PollReturns (length d.buf) (poll_decode d)
unfolding poll_decode
poll_decode-PollReturns d h =
    poll-PollReturns (suc (length d.buf)) (length d.buf) d h (omega arith) (omega arith)

settle_same :
    (k : ℕ) (go go' : Decoder → Polled) (r : Round)
    → Progress k r
    → ((x : Decoder) → IsDecoder x → suc (length x.buf) ≤ k → go x ≡ go' x)
    → settle go r ≡ settle go' r
unfolding settle
settle_same k go go' (need x) h f = refl
settle_same k go go' (again x) (g, h) f = f x g h
settle_same k go go' (found lsn rec x) h f = refl
settle_same k go go' (failed e x) h f = refl
settle_same k go go' (broken x) h f = refl

-- More fuel than enough changes nothing.
pub poll_fuel :
    (f g : ℕ) (d : Decoder)
    → IsDecoder d
    → suc (length d.buf) ≤ f
    → suc (length d.buf) ≤ g
    → poll f d ≡ poll g d
unfolding poll
poll_fuel zero g d h lf lg = absurd (omega arith)
poll_fuel (suc f) zero d h lf lg = absurd (omega arith)
poll_fuel (suc f) (suc g) d h lf lg =
    settle_same (length d.buf) (poll f) (poll g) (round d) (round-Progress d h)
      (λ x k lx. poll_fuel f g x k (omega arith) (omega arith))
