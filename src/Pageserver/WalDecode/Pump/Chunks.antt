-- ===== src/Pageserver/WalDecode/Pump/Chunks.antt =====
-- The loop over the records of a buffer, and of the same buffer with more bytes behind it.
use aethel_db.Prelude.{ℕ, zero, suc, ◌+◌, ◌≤◌, ◌≡◌, refl, sym, ap, ◌∙◌, arith, none, some, length}
use aethel_db.Result.{Result, ok, err, panic}
use aethel_db.Common.Bytes.{Bytes}
use aethel_db.Common.Lsn.{Lsn}
use aethel_db.Pageserver.WalDecode.{WalDecodeError}
use aethel_db.Pageserver.WalDecode.Stream.{Decoder, Polled, poll_decode, feed}
use aethel_db.Pageserver.WalDecode.Stream.Payload.{IsDecoder}
use aethel_db.Pageserver.WalDecode.Stream.Fuel.{PollReturns, poll_decode-PollReturns}
use aethel_db.Pageserver.WalDecode.Stream.Chunks.{length-feed}
use aethel_db.Pageserver.WalDecode.Stream.Polls.{continue, feed-Decoder, poll_decode-feed}
use aethel_db.Pageserver.WalDecode.Pump.{Pumped, on_ingested, on_polled, pump, pump_all}

module _ {S : Type 0} (ingest_record : S → Lsn → Bytes → Result WalDecodeError S) where
  on_ingested_same :
      (go go' : S → Pumped ingest_record) (s : S) (d : Decoder) (r : Result WalDecodeError S)
      → ((x : S) → go x ≡ go' x)
      → on_ingested ingest_record go s d r ≡ on_ingested ingest_record go' s d r
  unfolding on_ingested
  on_ingested_same go go' s d (ok x) f = f x
  on_ingested_same go go' s d (err e) f = refl
  on_ingested_same go go' s d panic f = refl

  on_polled_same :
      (k n : ℕ) (go go' : Decoder → S → Pumped ingest_record) (s : S) (r : Polled)
      → PollReturns k r
      → ((x : Decoder) (t : S) → IsDecoder x → suc (length x.buf) ≤ k → go x t ≡ go' x t)
      → on_polled ingest_record go n s r ≡ on_polled ingest_record go' n s r
  unfolding on_polled
  on_polled_same k n go go' s (ok none, d) h f = refl
  on_polled_same k n go go' s (ok (some (lsn, rec)), d) (h, l) f =
      on_ingested_same (go d) (go' d) s d (ingest_record s lsn rec) (λ x. f d x h l)
  on_polled_same k n go go' s (err e, d) h f = refl
  on_polled_same k n go go' s (panic, d) h f = refl

  pump_fuel :
      (f g n : ℕ) (d : Decoder) (s : S)
      → IsDecoder d
      → suc (length d.buf) ≤ f
      → suc (length d.buf) ≤ g
      → pump ingest_record f n d s ≡ pump ingest_record g n d s
  unfolding pump
  pump_fuel zero g n d s h lf lg = absurd (omega arith)
  pump_fuel (suc f) zero n d s h lf lg = absurd (omega arith)
  pump_fuel (suc f) (suc g) n d s h lf lg =
      on_polled_same (length d.buf) n (pump ingest_record f (n + 1)) (pump ingest_record g (n + 1))
        s (poll_decode d) (poll_decode-PollReturns d h)
        (λ x t k l. pump_fuel f g (n + 1) x t k (omega arith) (omega arith))

  -- What the loop comes to when bytes arrive after it: it is taken up again where it waited.
  abbrev pub resume : Bytes → Pumped ingest_record → Pumped ingest_record
  resume m (ok n, (s, d)) = pump_all ingest_record n (feed m d) s
  resume m (err e, (s, d)) = (err e, (s, feed m d))
  resume m (panic, (s, d)) = (panic, (s, feed m d))

  -- The loop by its first poll.
  polled :
      (fuel n : ℕ) (d : Decoder) (s : S) (r : Polled)
      → poll_decode d ≡ r
      → pump ingest_record (suc fuel) n d s
        ≡ on_polled ingest_record (pump ingest_record fuel (n + 1)) n s r
  unfolding pump
  polled fuel n d s r e = ap (on_polled ingest_record (pump ingest_record fuel (n + 1)) n s) e

  first_poll :
      (n : ℕ) (d : Decoder) (s : S) (r : Polled)
      → poll_decode d ≡ r
      → pump_all ingest_record n d s
        ≡ on_polled ingest_record (pump ingest_record (length d.buf) (n + 1)) n s r
  unfolding pump_all
  first_poll n d s r e = polled (length d.buf) n d s r e

  same_poll :
      (n : ℕ) (d x : Decoder) (s : S)
      → IsDecoder d
      → IsDecoder x
      → poll_decode d ≡ poll_decode x
      → pump_all ingest_record n d s ≡ pump_all ingest_record n x s
  unfolding pump_all
  same_poll n d x s h g e =
      let fuel = suc (length d.buf + length x.buf) in
      pump_fuel (suc (length d.buf)) (suc fuel) n d s h (omega arith) (omega arith)
      ∙ (polled fuel n d s (poll_decode x) e ∙ sym (polled fuel n x s (poll_decode x) refl))
      ∙ pump_fuel (suc fuel) (suc (length x.buf)) n x s g (omega arith) (omega arith)

  more_fuel :
      (n : ℕ) (d x : Decoder) (m : Bytes) (s : S)
      → IsDecoder x
      → suc (length x.buf) ≤ length d.buf
      → pump ingest_record (length (feed m d).buf) n (feed m x) s
        ≡ pump_all ingest_record n (feed m x) s
  unfolding pump_all
  more_fuel n d x m s h l =
      pump_fuel _ _ n (feed m x) s (feed-Decoder m x h)
        (omega (arith, length-feed m x, length-feed m d)) (omega arith)

  on_ingested-feed :
      (m : Bytes) (go go' : S → Pumped ingest_record) (s : S) (d : Decoder)
      (r : Result WalDecodeError S)
      → ((x : S) → go' x ≡ resume m (go x))
      → on_ingested ingest_record go' s (feed m d) r ≡ resume m (on_ingested ingest_record go s d r)
  unfolding on_ingested
  on_ingested-feed m go go' s d (ok x) f = f x
  on_ingested-feed m go go' s d (err e) f = refl
  on_ingested-feed m go go' s d panic f = refl

  on_polled-feed :
      (fuel n : ℕ) (d : Decoder) (m : Bytes) (s : S) (r : Polled)
      → IsDecoder d
      → poll_decode (feed m d) ≡ continue m r
      → PollReturns (length d.buf) r
      → ((x : Decoder) (t : S)
          → IsDecoder x
          → suc (length x.buf) ≤ length d.buf
          → pump_all ingest_record (n + 1) (feed m x) t
            ≡ resume m (pump ingest_record fuel (n + 1) x t))
      → pump_all ingest_record n (feed m d) s
        ≡ resume m (on_polled ingest_record (pump ingest_record fuel (n + 1)) n s r)
  unfolding on_polled
  on_polled-feed fuel n d m s (ok none, x) h e (g, l) f =
      same_poll n (feed m d) (feed m x) s (feed-Decoder m d h) (feed-Decoder m x g) e
  on_polled-feed fuel n d m s (ok (some (lsn, rec)), x) h e (g, l) f =
      first_poll n (feed m d) s _ e
      ∙ on_ingested-feed m (pump ingest_record fuel (n + 1) x)
          (pump ingest_record (length (feed m d).buf) (n + 1) (feed m x)) s x
          (ingest_record s lsn rec) (λ t. more_fuel (n + 1) d x m t g l ∙ f x t g l)
  on_polled-feed fuel n d m s (err w, x) h e g f = first_poll n (feed m d) s _ e
  on_polled-feed fuel n d m s (panic, x) h e g f = first_poll n (feed m d) s _ e

  pump-feed :
      (fuel n : ℕ) (d : Decoder) (m : Bytes) (s : S)
      → IsDecoder d
      → suc (length d.buf) ≤ fuel
      → pump_all ingest_record n (feed m d) s ≡ resume m (pump ingest_record fuel n d s)
  unfolding pump
  pump-feed zero n d m s h le = absurd (omega arith)
  pump-feed (suc fuel) n d m s h le =
      on_polled-feed fuel n d m s (poll_decode d) h (poll_decode-feed d m h)
        (poll_decode-PollReturns d h) (λ x t g l. pump-feed fuel (n + 1) x m t g (omega arith))

  pub pump_all-feed :
      (n : ℕ) (d : Decoder) (m : Bytes) (s : S)
      → IsDecoder d
      → pump_all ingest_record n (feed m d) s ≡ resume m (pump_all ingest_record n d s)
  unfolding pump_all
  pump_all-feed n d m s h = pump-feed (suc (length d.buf)) n d m s h (omega arith)

  -- The count goes on from where it starts.
  abbrev pub counted : ℕ → Pumped ingest_record → Pumped ingest_record
  counted n (ok k, x) = (ok (n + k), x)
  counted n (err e, x) = (err e, x)
  counted n (panic, x) = (panic, x)

  on_ingested-counted :
      (n : ℕ) (go go' : S → Pumped ingest_record) (s : S) (d : Decoder)
      (r : Result WalDecodeError S)
      → ((x : S) → go' x ≡ counted n (go x))
      → on_ingested ingest_record go' s d r ≡ counted n (on_ingested ingest_record go s d r)
  unfolding on_ingested
  on_ingested-counted n go go' s d (ok x) f = f x
  on_ingested-counted n go go' s d (err e) f = refl
  on_ingested-counted n go go' s d panic f = refl

  on_polled-counted :
      (n k : ℕ) (go go' : Decoder → S → Pumped ingest_record) (s : S) (r : Polled)
      → ((x : Decoder) (t : S) → go' x t ≡ counted n (go x t))
      → on_polled ingest_record go' (n + k) s r ≡ counted n (on_polled ingest_record go k s r)
  unfolding on_polled
  on_polled-counted n k go go' s (ok none, d) f = refl
  on_polled-counted n k go go' s (ok (some (lsn, rec)), d) f =
      on_ingested-counted n (go d) (go' d) s d (ingest_record s lsn rec) (f d)
  on_polled-counted n k go go' s (err e, d) f = refl
  on_polled-counted n k go go' s (panic, d) f = refl

  pump-counted :
      (fuel n k m : ℕ) (d : Decoder) (s : S)
      → m ≡ n + k
      → pump ingest_record fuel m d s ≡ counted n (pump ingest_record fuel k d s)
  unfolding pump
  pump-counted zero n k m d s h = refl
  pump-counted (suc fuel) n k m d s h = rw h (
      on_polled-counted n k (pump ingest_record fuel (k + 1)) (pump ingest_record fuel (n + k + 1))
        s (poll_decode d) (λ x t. pump-counted fuel n (k + 1) (n + k + 1) x t (omega arith)))

  pub pump_all-counted :
      (n : ℕ) (d : Decoder) (s : S)
      → pump_all ingest_record n d s ≡ counted n (pump_all ingest_record 0 d s)
  unfolding pump_all
  pump_all-counted n d s = pump-counted (suc (length d.buf)) n 0 n d s (omega arith)

  -- The loop on a chunk goes on from what it came to before, and from its count.
  pub pump_all-next :
      (d : Decoder) (m : Bytes) (s t : S) (n : ℕ) (x : Decoder)
      → IsDecoder d
      → pump_all ingest_record 0 d s ≡ (ok n, (t, x))
      → pump_all ingest_record 0 (feed m d) s ≡ counted n (pump_all ingest_record 0 (feed m x) t)
  pump_all-next d m s t n x h e =
      pump_all-feed 0 d m s h ∙ (ap (resume m) e ∙ pump_all-counted n (feed m x) t)
