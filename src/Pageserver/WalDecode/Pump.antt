-- ===== src/Pageserver/WalDecode/Pump.antt =====
-- The loop that ingests every record that a decoder has: `while let Some(..) = decoder.poll_decode()?`,
-- of `Repository::ingest_wal` and of `WalReceiver::poll_once`.
pub mod Chunks
use aethel_db.Prelude.{
  ℕ, zero, suc, ◌+◌, ◌≤◌, ◌≡◌, ◌≢◌, refl, sym, ap, ◌∙◌, arith, Option, none, some, List, [], ◌∷◌,
  ◌++◌, length,
}
use aethel_db.Result.{Result, ok, err, panic}
use aethel_db.Common.Bytes.{Bytes}
use aethel_db.Common.Lsn.{Lsn}
use aethel_db.Pageserver.WalDecode.{WalDecodeError}
use aethel_db.Pageserver.WalDecode.Stream.{Decoder, Polled, poll_decode}
use aethel_db.Pageserver.WalDecode.Stream.Payload.{IsDecoder}
use aethel_db.Pageserver.WalDecode.Stream.Fuel.{PollReturns, poll_decode-PollReturns}

module _ {S : Type 0} (ingest_record : S → Lsn → Bytes → Result WalDecodeError S) where
  -- The count of records or the error that ended the loop, the state and the decoder.
  abbrev pub Pumped : Type 0
  Pumped = Result WalDecodeError ℕ × (S × Decoder)

  -- A record is ingested; an error of it ends the loop, and leaves the state.
  unfoldable pub on_ingested : (S → Pumped) → S → Decoder → Result WalDecodeError S → Pumped
  on_ingested go s d (ok s') = go s'
  on_ingested go s d (err e) = (err e, (s, d))
  on_ingested go s d panic = (panic, (s, d))

  -- What a call of `poll_decode` comes to; `go` runs the rounds that follow.
  unfoldable pub on_polled : (Decoder → S → Pumped) → ℕ → S → Polled → Pumped
  on_polled go n s (ok none, d) = (ok n, (s, d))
  on_polled go n s (ok (some (lsn, rec)), d) = on_ingested (go d) s d (ingest_record s lsn rec)
  on_polled go n s (err e, d) = (err e, (s, d))
  on_polled go n s (panic, d) = (panic, (s, d))

  -- The loop, with the records that were counted. Running out of fuel is the outcome `panic`.
  unfoldable pub pump : ℕ → ℕ → Decoder → S → Pumped
  pump zero n d s = (panic, (s, d))
  pump (suc fuel) n d s = on_polled (pump fuel (n + 1)) n s (poll_decode d)

  -- Every record has a byte at least.
  unfoldable pub pump_all : ℕ → Decoder → S → Pumped
  pump_all n d s = pump (suc (length d.buf)) n d s

  -- What the loop comes to where it returns, from a buffer of `k` bytes.
  abbrev pub PumpReturns : ℕ → Pumped → Type 0
  PumpReturns k (ok n, (s, d)) = IsDecoder d × (length d.buf ≤ k)
  PumpReturns k (err e, (s, d)) = IsDecoder d × (length d.buf ≤ k)
  PumpReturns k (panic, (s, d)) = ⊥

  module _ (ingests : (s : S) (lsn : Lsn) (rec : Bytes) → ingest_record s lsn rec ≢ panic) where
    on_ingested-PumpReturns :
        (j k : ℕ) (go : S → Pumped) (s : S) (d : Decoder) (r : Result WalDecodeError S)
        → IsDecoder d
        → suc (length d.buf) ≤ j
        → j ≤ k
        → r ≢ panic
        → ((x : S) → PumpReturns k (go x))
        → PumpReturns k (on_ingested go s d r)
    unfolding on_ingested
    on_ingested-PumpReturns j k go s d (ok x) h l le p f = f x
    on_ingested-PumpReturns j k go s d (err e) h l le p f = (h, omega arith)
    on_ingested-PumpReturns j k go s d panic h l le p f = p refl

    on_polled-PumpReturns :
        (j k n : ℕ) (go : Decoder → S → Pumped) (s : S) (r : Polled)
        → PollReturns j r
        → j ≤ k
        → ((x : Decoder) (t : S) → IsDecoder x → suc (length x.buf) ≤ j → PumpReturns k (go x t))
        → PumpReturns k (on_polled go n s r)
    unfolding on_polled
    on_polled-PumpReturns j k n go s (ok none, d) (h, l) le f = (h, omega arith)
    on_polled-PumpReturns j k n go s (ok (some (lsn, rec)), d) (h, l) le f =
        on_ingested-PumpReturns j k (go d) s d (ingest_record s lsn rec) h l le (ingests s lsn rec)
          (λ x. f d x h l)
    on_polled-PumpReturns j k n go s (err e, d) (h, l) le f = (h, omega arith)
    on_polled-PumpReturns j k n go s (panic, d) h le f = h

    pump-PumpReturns :
        (fuel k n : ℕ) (d : Decoder) (s : S)
        → IsDecoder d
        → suc (length d.buf) ≤ fuel
        → length d.buf ≤ k
        → PumpReturns k (pump fuel n d s)
    unfolding pump
    pump-PumpReturns zero k n d s h f le = absurd (omega arith)
    pump-PumpReturns (suc fuel) k n d s h f le =
        on_polled-PumpReturns (length d.buf) k n (pump fuel (n + 1)) s (poll_decode d)
          (poll_decode-PollReturns d h) le
          (λ x t g l. pump-PumpReturns fuel k (n + 1) x t g (omega arith) (omega arith))

    pub pump_all-PumpReturns :
        (n : ℕ) (d : Decoder) (s : S) → IsDecoder d → PumpReturns (length d.buf) (pump_all n d s)
    unfolding pump_all
    pump_all-PumpReturns n d s h =
        pump-PumpReturns (suc (length d.buf)) (length d.buf) n d s h (omega arith) (omega arith)
