-- ===== src/Pageserver/WalDecode/Stream/Polls.antt =====
-- `poll_decode` on more bytes.
use aethel_db.Prelude.{ℕ, zero, suc, ◌+◌, ◌≤◌, ◌≡◌, refl, sym, ap, ◌∙◌, arith, none, some, length}
use aethel_db.Result.{ok, err, panic}
use aethel_db.Common.Bytes.{Bytes}
use aethel_db.Pageserver.WalDecode.Stream.{
  Decoder, feed, Round, need, again, found, failed, broken, round, Polled, poll, poll_decode,
  settle,
}
use aethel_db.Pageserver.WalDecode.Stream.Payload.{IsDecoder}
use aethel_db.Pageserver.WalDecode.Stream.Fuel.{Progress, round-Progress, poll_fuel}
use aethel_db.Pageserver.WalDecode.Stream.Chunks.{
  length-feed, feed_round, round-feed, round_need-feed,
}

-- What a call comes to when bytes arrive after it.
abbrev pub continue : Bytes → Polled → Polled
continue m (ok none, x) = poll_decode (feed m x)
continue m (ok (some r), x) = (ok (some r), feed m x)
continue m (err e, x) = (err e, feed m x)
continue m (panic, x) = (panic, feed m x)

pub feed-Decoder : (m : Bytes) (d : Decoder) → IsDecoder d → IsDecoder (feed m d)
unfolding feed IsDecoder
feed-Decoder m d h = h

settled :
    (fuel : ℕ) (d : Decoder) (r : Round) → round d ≡ r → poll (suc fuel) d ≡ settle (poll fuel) r
unfolding poll
settled fuel d r e = ap (settle (poll fuel)) e

-- Decoders with one round have one outcome.
same_round :
    (d x : Decoder) → IsDecoder d → IsDecoder x → round d ≡ round x → poll_decode d ≡ poll_decode x
unfolding poll_decode
same_round d x h g e =
    let fuel = suc (length d.buf + length x.buf) in
    poll_fuel (suc (length d.buf)) (suc fuel) d h (omega arith) (omega arith)
    ∙ (settled fuel d (round x) e ∙ sym (settled fuel x (round x) refl))
    ∙ poll_fuel (suc fuel) (suc (length x.buf)) x g (omega arith) (omega arith)

-- The first round decides, then the rounds that follow on the decoder that it leaves.
settle-feed :
    (fuel : ℕ) (d : Decoder) (m : Bytes) (r : Round)
    → round d ≡ r
    → IsDecoder d
    → Progress (length d.buf) r
    → ((x : Decoder)
        → IsDecoder x
        → suc (length x.buf) ≤ length d.buf
        → poll_decode (feed m x) ≡ continue m (poll fuel x))
    → poll_decode (feed m d) ≡ continue m (settle (poll fuel) r)
unfolding settle poll_decode
settle-feed fuel d m (need x) e h (g, _) f =
    same_round (feed m d) (feed m x) (feed-Decoder m d h) (feed-Decoder m x g)
      (sym (round_need-feed d x m e))
settle-feed fuel d m (again x) e h (g, lx) f =
    settled _ (feed m d) (again (feed m x))
      (round-feed d m (λ y k. absurd cc) ∙ ap (feed_round m) e)
    ∙ poll_fuel _ _ (feed m x) (feed-Decoder m x g)
        (omega (arith, length-feed m x, length-feed m d)) (omega arith)
    ∙ f x g lx
settle-feed fuel d m (found lsn rec x) e h g f =
    settled _ (feed m d) (found lsn rec (feed m x))
      (round-feed d m (λ y k. absurd cc) ∙ ap (feed_round m) e)
settle-feed fuel d m (failed w x) e h g f =
    settled _ (feed m d) (failed w (feed m x))
      (round-feed d m (λ y k. absurd cc) ∙ ap (feed_round m) e)
settle-feed fuel d m (broken x) e h g f = absurd g

poll-feed :
    (fuel : ℕ) (d : Decoder) (m : Bytes)
    → IsDecoder d
    → suc (length d.buf) ≤ fuel
    → poll_decode (feed m d) ≡ continue m (poll fuel d)
unfolding poll
poll-feed zero d m h le = absurd (omega arith)
poll-feed (suc fuel) d m h le =
    settle-feed fuel d m (round d) refl h (round-Progress d h)
      (λ x g lx. poll-feed fuel x m g (omega arith))

-- A record or an error that is found stays when bytes arrive; a wait is taken up again.
pub poll_decode-feed :
    (d : Decoder) (m : Bytes) → IsDecoder d → poll_decode (feed m d) ≡ continue m (poll_decode d)
unfolding poll_decode
poll_decode-feed d m h = poll-feed (suc (length d.buf)) d m h (omega arith)
