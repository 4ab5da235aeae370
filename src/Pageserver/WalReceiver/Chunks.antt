-- ===== src/Pageserver/WalReceiver/Chunks.antt =====
-- A log that arrives in chunks, against the same log at once.
use aethel_db.Prelude.{
  ℕ, ◌+◌, ◌%◌, ◌^◌, ◌≤◌, ◌<◌, ◌≡◌, refl, sym, ap, ◌∙◌, arith, true, false, Option, some, List, [],
  ◌∷◌, ◌++◌, map, length, take, ltb, ◌==◌, append_assoc, append-nil, length-append, take-append,
}
use aethel_db.Result.{Result, ok, err, panic}
use aethel_db.Common.Bytes.{Bytes, put_all, length-put_all}
use aethel_db.Common.Lsn.{Lsn}
use aethel_db.Common.WalService.{
  ReadResponse, encode_read_response, read_response_fields, response_payload_len,
}
use aethel_db.Common.WalService.RoundTrip.{
  IsReadResponse, response_payload_len-put_all, decode_read_response-encode_read_response,
}
use aethel_db.Pageserver.WalDecode.{WalDecodeError}
use aethel_db.Pageserver.WalDecode.Stream.{Decoder, new_decoder, feed}
use aethel_db.Pageserver.WalDecode.Stream.Payload.{IsDecoder}
use aethel_db.Pageserver.WalDecode.Stream.Polls.{feed-Decoder}
use aethel_db.Pageserver.WalDecode.Pump.{Pumped, pump_all}
use aethel_db.Pageserver.WalDecode.Pump.Chunks.{
  resume, counted, pump_all-feed, pump_all-next, pump_all-counted,
}
use aethel_db.Pageserver.Repository.{Inner}
use aethel_db.Pageserver.Repository.Wal.{ingest_record, ingest_wal, without_decoder}
use aethel_db.Pageserver.WalReceiver.{
  WalReceiver, ReceiveError, connect, decoder_for, wal_error, wire_error, after_pump, receive,
  poll_once, plus, go_on, run, read_reply,
}

-- The payloads of replies, one behind the other.
abbrev pub payloads : List ReadResponse → Bytes
payloads [] = []
payloads (resp ∷ resps) = resp.payload ++ payloads resps

-- Replies that are well-formed, not empty, and follow each other from an LSN.
unfoldable pub Consecutive : Lsn → List ReadResponse → Type 0
Consecutive lsn [] = Unit
Consecutive lsn (resp ∷ resps) =
    (IsReadResponse resp × (1 ≤ length resp.payload))
    × ((resp.start_lsn ≡ lsn) × Consecutive ((lsn + length resp.payload) % 2 ^ 64) resps)

-- A reply is read as it was encoded.
read_reply-encode :
    (resp : ReadResponse) → IsReadResponse resp → read_reply (encode_read_response resp) ≡ ok resp
unfolding read_reply encode_read_response
read_reply-encode resp (status, commit_lsn, start_lsn, short) =
    let header = put_all (read_response_fields resp) in
    let n = length resp.payload in
    let whole = header ++ resp.payload in
    let size : length header ≡ 28 = length-put_all (read_response_fields resp) in
    let total : length whole ≡ 28 + n = omega (arith, length-append header resp.payload) in
    let enough : ltb (length whole) 28 ≡ false = ground arith in
    let there : ltb (length whole) (28 + n) ≡ false = ground arith in
    let announced : response_payload_len header ≡ ok n =
      ap response_payload_len (sym (append-nil header))
      ∙ response_payload_len-put_all resp [] short in
    let all : take (28 + n) whole ≡ whole ++ [] =
      ap (take (28 + n)) (sym (append-nil whole))
      ∙ take-append whole [] (28 + n) total
      ∙ sym (append-nil whole) in
    rw (enough, take-append header resp.payload 28 size, announced, there, all)
      (ap wire_error
        (decode_read_response-encode_read_response resp [] (status, commit_lsn, start_lsn, short)))

feed-nil : (d : Decoder) → feed [] d ≡ d
unfolding feed
feed-nil d = ap (λ b. record d { buf = b }) (append-nil d.buf)

feed-feed : (m k : Bytes) (d : Decoder) → feed k (feed m d) ≡ feed (m ++ k) d
unfolding feed
feed-feed m k d = ap (λ b. record d { buf = b }) (append_assoc d.buf m k)

module _ (lz4 zstd : Bytes → ℕ → Option Bytes) where
  -- What is seen of a run: the count or the error, and the repository.
  abbrev pub seen : Result ReceiveError ℕ × WalReceiver → Result ReceiveError ℕ × Inner
  seen (n, r) = (n, r.repo)

  -- What is seen of ingestion at once.
  abbrev pub at_once : Result WalDecodeError ℕ × Inner → Result ReceiveError ℕ × Inner
  at_once (n, repo) = (wal_error n, repo)

  plus-plus :
      (n k : ℕ) (z : Result ReceiveError ℕ × WalReceiver)
      → seen (plus lz4 zstd n (plus lz4 zstd k z)) ≡ seen (plus lz4 zstd (n + k) z)
  plus-plus n k (ok j, r) =
      let e : n + (k + j) ≡ n + k + j = omega arith in ap (λ i. (ok i, r.repo)) e
  plus-plus n k (err e, r) = refl
  plus-plus n k (panic, r) = refl

  -- A chunk that the decoder `d` takes, and a run that goes on behind it.
  chunk :
      (resp : ReadResponse) (r : WalReceiver) (d : Decoder)
      → IsReadResponse resp
      → 1 ≤ length resp.payload
      → decoder_for resp r ≡ d
      → poll_once lz4 zstd (encode_read_response resp) r
        ≡ after_pump lz4 zstd
            ((resp.start_lsn + length resp.payload) % 2 ^ 64)
            (pump_all (ingest_record lz4 zstd) 0 (feed resp.payload d) r.repo)
  unfolding poll_once receive
  chunk resp r d h nonempty e =
      let full : (length resp.payload == 0) ≡ false = ground arith in
      rw (read_reply-encode resp h, full, e) refl

  module _ (d0 : Decoder) (repo0 : Inner) (valid : IsDecoder d0) where
    fed_two :
        (m k : Bytes)
        → pump_all (ingest_record lz4 zstd) 0 (feed (m ++ k) d0) repo0
          ≡ resume
              (ingest_record lz4 zstd)
              k
              (pump_all (ingest_record lz4 zstd) 0 (feed m d0) repo0)
    fed_two m k =
        ap (λ d. pump_all (ingest_record lz4 zstd) 0 d repo0) (sym (feed-feed m k d0))
        ∙ pump_all-feed (ingest_record lz4 zstd) 0 (feed m d0) k repo0 (feed-Decoder m d0 valid)

    fed_next :
        (m k : Bytes) (n : ℕ) (t : Inner) (d : Decoder)
        → pump_all (ingest_record lz4 zstd) 0 (feed m d0) repo0 ≡ (ok n, (t, d))
        → pump_all (ingest_record lz4 zstd) 0 (feed (m ++ k) d0) repo0
          ≡ counted (ingest_record lz4 zstd) n (pump_all (ingest_record lz4 zstd) 0 (feed k d) t)
    fed_next m k n t d h =
        ap (λ d. pump_all (ingest_record lz4 zstd) 0 d repo0) (sym (feed-feed m k d0))
        ∙ pump_all-next (ingest_record lz4 zstd) (feed m d0) k repo0 t n d (feed-Decoder m d0 valid)
            h

    -- The run behind a chunk that the loop ended on with an outcome.
    behind :
        (resps : List ReadResponse) (fed : Bytes) (n : ℕ) (cursor : Lsn)
        (out : Pumped (ingest_record lz4 zstd))
        → pump_all (ingest_record lz4 zstd) 0 (feed fed d0) repo0
          ≡ counted (ingest_record lz4 zstd) n out
        → ((k : ℕ) (t : Inner) (d : Decoder)
            → pump_all (ingest_record lz4 zstd) 0 (feed fed d0) repo0 ≡ (ok (n + k), (t, d))
            → seen (
                plus lz4 zstd (n + k) (
                  run lz4 zstd
                    (map encode_read_response resps)
                    (record { repo = t; decoder = some d; cursor = cursor })))
              ≡ at_once (
                  without_decoder lz4 zstd
                    (pump_all (ingest_record lz4 zstd) 0 (feed (fed ++ payloads resps) d0) repo0)))
        → seen (
            plus lz4 zstd n (
              go_on lz4 zstd
                (run lz4 zstd (map encode_read_response resps))
                (after_pump lz4 zstd cursor out)))
          ≡ at_once (
              without_decoder lz4 zstd
                (pump_all (ingest_record lz4 zstd) 0 (feed (fed ++ payloads resps) d0) repo0))
    behind resps fed n cursor (ok k, (t, d)) h f =
        plus-plus n k (
          run lz4 zstd (map encode_read_response resps)
            (record { repo = t; decoder = some d; cursor = cursor }))
        ∙ f k t d h
    behind resps fed n cursor (err e, (t, d)) h f = rw (fed_two fed (payloads resps), h) refl
    behind resps fed n cursor (panic, (t, d)) h f = rw (fed_two fed (payloads resps), h) refl

    -- A run over further chunks, from where the loop on the bytes before them came to.
    follow :
        (resps : List ReadResponse) (fed : Bytes) (n : ℕ) (r : WalReceiver) (d : Decoder)
        → r.decoder ≡ some d
        → Consecutive r.cursor resps
        → pump_all (ingest_record lz4 zstd) 0 (feed fed d0) repo0 ≡ (ok n, (r.repo, d))
        → seen (plus lz4 zstd n (run lz4 zstd (map encode_read_response resps) r))
          ≡ at_once (
              without_decoder lz4 zstd
                (pump_all (ingest_record lz4 zstd) 0 (feed (fed ++ payloads resps) d0) repo0))
    unfolding run Consecutive decoder_for
    follow [] fed n r d e c h =
        let same : n + 0 ≡ n = omega arith in rw (append-nil fed, h) (ap (λ k. (ok k, r.repo)) same)
    follow (resp ∷ resps) fed n r d e ((w, l), (at, c)) h =
        let here : (resp.start_lsn == r.cursor) ≡ true = ground arith in
        let cursor = (resp.start_lsn + length resp.payload) % 2 ^ 64 in
        rw
          (
            chunk resp r d w l (rw (e, here) refl),
            sym (append_assoc fed resp.payload (payloads resps)),
          )
          (behind resps (fed ++ resp.payload) n cursor
            (pump_all (ingest_record lz4 zstd) 0 (feed resp.payload d) r.repo)
            (fed_next fed resp.payload n r.repo d h)
            (λ k t x g.
              follow resps (fed ++ resp.payload) (n + k)
                (record { repo = t; decoder = some x; cursor = cursor }) x refl (rw (sym at) at c)
                g))

  plus-zero : (z : Result ReceiveError ℕ × WalReceiver) → seen z ≡ seen (plus lz4 zstd 0 z)
  plus-zero (ok k, r) = let e : k ≡ 0 + k = omega arith in ap (λ i. (ok i, r.repo)) e
  plus-zero (err e, r) = refl
  plus-zero (panic, r) = refl

  -- A receiver that is sent well-formed replies that are not empty, follow each other from the LSN where
  -- it connected, and hold some log, ends with the count or error, and with the repository, that
  -- `ingest_wal` gives for all of their payloads at once.
  pub run-ingest_wal :
      (resp : ReadResponse) (resps : List ReadResponse) (start_lsn : Lsn) (repo : Inner)
      → start_lsn < 2 ^ 64
      → Consecutive start_lsn (resp ∷ resps)
      → seen (run lz4 zstd (map encode_read_response (resp ∷ resps)) (connect repo start_lsn))
        ≡ at_once (ingest_wal lz4 zstd repo start_lsn (payloads (resp ∷ resps)))
  unfolding run ingest_wal Consecutive connect decoder_for IsDecoder new_decoder
  run-ingest_wal resp resps start_lsn repo u ((w, l), (at, c)) =
      let d0 = new_decoder start_lsn in
      let valid : IsDecoder d0 = (omega arith, omega arith) in
      let cursor = (resp.start_lsn + length resp.payload) % 2 ^ 64 in
      let first = chunk resp (connect repo start_lsn) d0 w l (ap new_decoder at) in
      plus-zero _
      ∙ (ap
            (λ z.
              seen (
                plus lz4 zstd 0 (go_on lz4 zstd (run lz4 zstd (map encode_read_response resps)) z)))
            first
          ∙ behind d0 repo valid resps resp.payload 0 cursor
              (pump_all (ingest_record lz4 zstd) 0 (feed resp.payload d0) repo)
              (pump_all-counted (ingest_record lz4 zstd) 0 (feed resp.payload d0) repo)
              (λ k t x g.
                follow d0 repo valid resps resp.payload (0 + k)
                  (record { repo = t; decoder = some x; cursor = cursor }) x refl (rw (sym at) at c)
                  g))
