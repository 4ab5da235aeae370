-- ===== src/Pageserver/WalDecode/Stream/Chunks.antt =====
-- A round of `poll_decode` on a buffer, and on the same buffer with more bytes behind it.
use aethel_db.Prelude.{
  ℕ, ◌+◌, ◌-◌, ◌*◌, ◌/◌, ◌%◌, ◌^◌, ◌≤◌, ◌≡◌, ◌≢◌, refl, ap, ◌∙◌, arith, ◌⊎◌, inl, inr, true, false,
  Option, none, some, ◌++◌, length, ltb, ◌==◌, Bool-cases, length-append,
}
use aethel_db.Result.{Result, ok, err, panic}
use aethel_db.Common.Bytes.{Bytes, slice, drop-append_le}
use aethel_db.Common.Lsn.{Lsn}
use aethel_db.Pageserver.WalDecode.{WalDecodeError, xlog_blcksz, size_of_xlog_record, from_le}
use aethel_db.Pageserver.WalDecode.Stream.{
  Decoder, feed, Payload, collect_payload, consume, Round, need, again, found, failed, broken,
  without, on_consumed, on_tot_len, align, skip_page, on_record, on_length, on_aligned, round,
}
use aethel_db.Pageserver.WalDecode.Stream.Fuel.{consume-inside}
use aethel_db.Pageserver.WalDecode.Stream.Collected.{
  Fits, collect_payload-feed, collect_payload-Fits,
}

pub length-feed : (m : Bytes) (d : Decoder) → length (feed m d).buf ≡ length d.buf + length m
unfolding feed
length-feed m d = length-append d.buf m

-- A round on more bytes.
abbrev pub feed_round : Bytes → Round → Round
feed_round m (need d) = need (feed m d)
feed_round m (again d) = again (feed m d)
feed_round m (found lsn rec d) = found lsn rec (feed m d)
feed_round m (failed e d) = failed e (feed m d)
feed_round m (broken d) = broken (feed m d)

without-feed :
    (raw : ℕ) (d : Decoder) (m : Bytes)
    → raw ≤ length d.buf
    → without raw (feed m d) ≡ feed m (without raw d)
unfolding feed
without-feed raw d m h = rw (drop-append_le raw d.buf m h) refl

-- Bytes that are there are drained, whatever follows them.
consume-feed :
    (raw : ℕ) (d : Decoder) (m : Bytes)
    → raw ≤ length d.buf
    → consume raw (feed m d) ≡ ok (feed m (without raw d))
consume-feed raw d m h =
    consume-inside raw (feed m d) (omega (arith, length-feed m d)) ∙ ap ok (without-feed raw d m h)

consumed-feed :
    (raw : ℕ) (d : Decoder) (m : Bytes) (f : Decoder → Round)
    → raw ≤ length d.buf
    → ((x : Decoder) → f (feed m x) ≡ feed_round m (f x))
    → on_consumed (feed m d) f (consume raw (feed m d))
      ≡ feed_round m (on_consumed d f (consume raw d))
unfolding on_consumed
consumed-feed raw d m f h g =
    rw (consume-feed raw d m h, consume-inside raw d h) (g (without raw d))

skip_page-feed :
    (d : Decoder) (m : Bytes) (rec_lsn : Lsn)
    → ((x : Decoder) → skip_page d rec_lsn ≢ need x)
    → skip_page (feed m d) rec_lsn ≡ feed_round m (skip_page d rec_lsn)
unfolding skip_page feed
skip_page-feed d m rec_lsn h =
    let skip = ((rec_lsn / xlog_blcksz + 1) * xlog_blcksz + 2 ^ 64 - d.lsn) % 2 ^ 64 in
    elim (Bool-cases (ltb (length d.buf) skip)) [
      | inl e ↦ absurd (h d (rw e refl))
      | inr e ↦
          let more : ltb (length (d.buf ++ m)) skip ≡ false =
            ground (arith, length-append d.buf m) in
          rw (e, more) (consumed-feed skip d m again (ground arith) (λ x. refl))
    ]

on_record-feed :
    (d : Decoder) (m : Bytes) (r r' : Result WalDecodeError (Option Payload))
    → Fits (length d.buf) r
    → (r ≢ ok none → r' ≡ r)
    → ((x : Decoder) → on_record d r ≢ need x)
    → on_record (feed m d) r' ≡ feed_round m (on_record d r)
unfolding on_record
on_record-feed d m (ok (some (rec, (raw, lsn)))) r' fits f h =
    rw (f (λ g. cc)) (consumed-feed raw d m (found lsn rec) fits (λ x. refl))
on_record-feed d m (ok none) r' fits f h = absurd (h d refl)
on_record-feed d m (err e) r' fits f h = rw (f (λ g. cc)) refl
on_record-feed d m panic r' fits f h = rw (f (λ g. cc)) refl

tot_len-feed :
    (d : Decoder) (m : Bytes) (lsn : Lsn) (r : Result WalDecodeError Bytes)
    → ((x : Decoder) → on_tot_len d lsn r ≢ need x)
    → on_tot_len (feed m d) lsn r ≡ feed_round m (on_tot_len d lsn r)
unfolding on_tot_len
tot_len-feed d m lsn (ok bytes) h = elim (Bool-cases (ltb (from_le bytes) size_of_xlog_record)) [
  | inl e ↦ rw e (skip_page-feed d m lsn (λ x g. h x (rw e g)))
  | inr e ↦ rw e (
      on_record-feed d m (collect_payload d (from_le bytes))
        (collect_payload (feed m d) (from_le bytes)) (collect_payload-Fits d (from_le bytes))
        (collect_payload-feed d m (from_le bytes)) (λ x g. h x (rw e g)))
]
tot_len-feed d m lsn (err e) h = refl
tot_len-feed d m lsn panic h = refl

on_length-feed :
    (d : Decoder) (m : Bytes) (r r' : Result WalDecodeError (Option Payload))
    → (r ≢ ok none → r' ≡ r)
    → ((x : Decoder) → on_length d r ≢ need x)
    → on_length (feed m d) r' ≡ feed_round m (on_length d r)
unfolding on_length feed
on_length-feed d m (ok (some (bytes, (raw, lsn)))) r' f h =
    rw (f (λ g. cc)) (tot_len-feed d m lsn (slice 0 4 bytes) h)
on_length-feed d m (ok none) r' f h = absurd (h d refl)
on_length-feed d m (err e) r' f h = rw (f (λ g. cc)) refl
on_length-feed d m panic r' f h = rw (f (λ g. cc)) refl

-- What padding comes to on more bytes, and that it is skipped once.
Aligns : Bytes → Decoder → Type 0
Aligns m d =
    (a : Decoder) × ((align d ≡ ok (some a))
      × ((align (feed m d) ≡ ok (some (feed m a))) × (align (feed m a) ≡ ok (some (feed m a)))))

pad_is_all : (x : ℕ) → ((x % 8 == 0) ≡ false) → (((x + (8 - x % 8)) % 2 ^ 64) % 8 == 0) ≡ true
pad_is_all x h = ground arith

align-cases : (d : Decoder) (m : Bytes) → (align d ≡ ok none) ⊎ Aligns m d
unfolding align feed Aligns
align-cases d m = elim (Bool-cases (d.lsn % 8 == 0)) [
  | inl e ↦ inr (d, (rw e refl, (rw e refl, rw e refl)))
  | inr e ↦ elim (Bool-cases (ltb (length d.buf) (8 - d.lsn % 8))) [
    | inl short ↦ inl (rw (e, short) refl)
    | inr long ↦
        let more : ltb (length (d.buf ++ m)) (8 - d.lsn % 8) ≡ false =
          ground (arith, length-append d.buf m) in
        let there : 8 - d.lsn % 8 ≤ length d.buf = ground arith in
        inr (
          without (8 - d.lsn % 8) d,
          (
            rw (e, long, consume-inside (8 - d.lsn % 8) d there) refl,
            (
              rw (e, more, consume-feed (8 - d.lsn % 8) d m there) refl,
              rw (pad_is_all d.lsn e) refl,
            ),
          ),
        )
  ]
]

consumed_found :
    (d x : Decoder) (f : Decoder → Round) (r : Result WalDecodeError Decoder)
    → ((y : Decoder) → f y ≢ need x)
    → on_consumed d f r ≢ need x
unfolding on_consumed
consumed_found d x f (ok y) h = h y
consumed_found d x f (err e) h = λ g. cc
consumed_found d x f panic h = λ g. cc

on_record_need :
    (d x : Decoder) (r : Result WalDecodeError (Option Payload)) → on_record d r ≡ need x → x ≡ d
unfolding on_record
on_record_need d x (ok (some (rec, (raw, lsn)))) h =
    absurd (consumed_found d x (found lsn rec) (consume raw d) (λ y g. cc) h)
on_record_need d x (ok none) h = cc
on_record_need d x (err e) h = absurd cc
on_record_need d x panic h = absurd cc

skip_page_need : (d x : Decoder) (lsn : Lsn) → skip_page d lsn ≡ need x → x ≡ d
unfolding skip_page
skip_page_need d x lsn h =
    let skip = ((lsn / xlog_blcksz + 1) * xlog_blcksz + 2 ^ 64 - d.lsn) % 2 ^ 64 in
    elim (Bool-cases (ltb (length d.buf) skip)) [
      | inl short ↦ let g : need d ≡ need x = rw short at h in cc
      | inr long ↦ absurd (consumed_found d x again (consume skip d) (λ y g. cc) (rw long at h))
    ]

tot_len_need :
    (d x : Decoder) (lsn : Lsn) (r : Result WalDecodeError Bytes)
    → on_tot_len d lsn r ≡ need x
    → x ≡ d
unfolding on_tot_len
tot_len_need d x lsn (ok bytes) h = elim (Bool-cases (ltb (from_le bytes) size_of_xlog_record)) [
  | inl e ↦ skip_page_need d x lsn (rw e at h)
  | inr e ↦ on_record_need d x (collect_payload d (from_le bytes)) (rw e at h)
]
tot_len_need d x lsn (err e) h = absurd cc
tot_len_need d x lsn panic h = absurd cc

on_length_need :
    (d x : Decoder) (r : Result WalDecodeError (Option Payload)) → on_length d r ≡ need x → x ≡ d
unfolding on_length
on_length_need d x (ok (some (bytes, (raw, lsn)))) h = tot_len_need d x lsn (slice 0 4 bytes) h
on_length_need d x (ok none) h = cc
on_length_need d x (err e) h = absurd cc
on_length_need d x panic h = absurd cc

-- More bytes do not change a round that came to something.
pub round-feed :
    (d : Decoder) (m : Bytes)
    → ((x : Decoder) → round d ≢ need x)
    → round (feed m d) ≡ feed_round m (round d)
unfolding round on_aligned Aligns
round-feed d m h = elim (align-cases d m) [
  | inl e ↦ absurd (h d (rw e refl))
  | inr (a, (e, (f, g))) ↦
      rw (e, f)
        (on_length-feed a m (collect_payload a 4) (collect_payload (feed m a) 4)
          (collect_payload-feed a m 4) (λ x k. h x (rw e k)))
]

need_same : (d x : Decoder) → need d ≡ need x → x ≡ d
need_same d x h = cc

-- A round that waited for more bytes may be started over when they arrive.
pub round_need-feed :
    (d x : Decoder) (m : Bytes) → round d ≡ need x → round (feed m x) ≡ round (feed m d)
unfolding round on_aligned Aligns
round_need-feed d x m h = elim (align-cases d m) [
  | inl e ↦ rw (need_same d x (rw e at h)) refl
  | inr (a, (e, (f, g))) ↦
      let same : x ≡ a = on_length_need a x (collect_payload a 4) (rw e at h) in
      rw (same, f, g) refl
]
