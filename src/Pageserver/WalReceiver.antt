-- ===== src/Pageserver/WalReceiver.antt =====
-- pageserver/src/walreceiver.rs. The bytes that the safekeeper sends are an argument of the round
-- trip that reads them. Of the timeline the receiver only changes the repository.
pub mod Chunks
use aethel_db.Prelude.{
  ℕ, ◌+◌, ◌%◌, ◌^◌, Bool, true, false, not, Option, none, some, List, [], ◌∷◌, length, take, drop,
  ltb, ◌==◌, if◌then◌else◌,
}
use aethel_db.Result.{Result, ok, err, panic, ◌>>=◌}
use aethel_db.Common.Bytes.{Bytes}
use aethel_db.Common.Ids.{TenantId, TimelineId}
use aethel_db.Common.Lsn.{Lsn}
use aethel_db.Common.WalService.{
  WireError, ReadRequest, ReadResponse, encode_read, response_payload_len, decode_read_response,
}
use aethel_db.Pageserver.WalDecode.{WalDecodeError}
use aethel_db.Pageserver.WalDecode.Stream.{Decoder, new_decoder, feed}
use aethel_db.Pageserver.WalDecode.Pump.{Pumped, pump_all}
use aethel_db.Pageserver.Repository.{Inner}
use aethel_db.Pageserver.Repository.Wal.{ingest_record}

-- Of `WalReceiverConfig`, what a round trip reads.
pub record WalReceiverConfig : Type 0 where
  pub tenant : TenantId
  pub timeline : TimelineId
  pub max_chunk : ℕ

pub record WalReceiver : Type 0 where
  pub repo : Inner
  pub decoder : Option Decoder
  pub cursor : Lsn

-- What `anyhow::Error` wraps: the connection ended, the reply is malformed, or the log is.
pub data ReceiveError : Type 0 where
  unexpected_eof : ReceiveError
  wire : WireError → ReceiveError
  wal : WalDecodeError → ReceiveError

-- `WalReceiver::connect`
unfoldable pub connect : Inner → Lsn → WalReceiver
connect repo start_lsn = record { repo = repo; decoder = none; cursor = start_lsn }

unfoldable pub request : WalReceiverConfig → WalReceiver → Bytes
request cfg r = encode_read (record {
  tenant = cfg.tenant;
  timeline = cfg.timeline;
  start_lsn = r.cursor;
  max_bytes = cfg.max_chunk;
})

-- The decoder that takes a chunk: a new one for the first chunk, and where the safekeeper moved on.
unfoldable pub decoder_for : ReadResponse → WalReceiver → Decoder
decoder_for resp r = elim r.decoder [
  | none ↦ new_decoder resp.start_lsn
  | some d ↦ if not (resp.start_lsn == r.cursor) then new_decoder resp.start_lsn else d
]

abbrev pub wal_error : Result WalDecodeError ℕ → Result ReceiveError ℕ
wal_error (ok n) = ok n
wal_error (err e) = err (wal e)
wal_error panic = panic

abbrev pub wire_error {ℓ} : {A : Type ℓ} → Result WireError A → Result ReceiveError A
wire_error (ok a) = ok a
wire_error (err e) = err (wire e)
wire_error panic = panic

-- `read_exact` of the header, then of the payload that it announces; the whole reply is decoded.
unfoldable pub read_reply : Bytes → Result ReceiveError ReadResponse
read_reply stream =
    if ltb (length stream) 28
    then err unexpected_eof
    else wire_error (response_payload_len (take 28 stream)) >>= λ plen.
        if ltb (length stream) (28 + plen)
        then err unexpected_eof
        else wire_error (decode_read_response (take (28 + plen) stream))

module _ (lz4_decompress zstd_decompress : Bytes → ℕ → Option Bytes) where
  -- The receiver after the loop over the records of a chunk that ends at the cursor.
  abbrev pub after_pump :
      Lsn
      → Pumped (ingest_record lz4_decompress zstd_decompress)
      → Result ReceiveError ℕ × WalReceiver
  after_pump cursor (n, (repo, d)) =
      (wal_error n, record { repo = repo; decoder = some d; cursor = cursor })

  -- A reply is ingested. The cursor wraps at 64 bits, and moves before the records are decoded.
  unfoldable pub receive : ReadResponse → WalReceiver → Result ReceiveError ℕ × WalReceiver
  receive resp r =
      if length resp.payload == 0
      then (ok 0, r)
      else after_pump ((resp.start_lsn + length resp.payload) % 2 ^ 64) (
          pump_all (ingest_record lz4_decompress zstd_decompress) 0
            (feed resp.payload (decoder_for resp r)) r.repo)

  -- A reply that is not one leaves the receiver.
  abbrev pub on_reply :
      Result ReceiveError ReadResponse → WalReceiver → Result ReceiveError ℕ × WalReceiver
  on_reply (ok resp) r = receive resp r
  on_reply (err e) r = (err e, r)
  on_reply panic r = (panic, r)

  -- `poll_once`, with what the safekeeper sent.
  unfoldable pub poll_once : Bytes → WalReceiver → Result ReceiveError ℕ × WalReceiver
  poll_once stream r = on_reply (read_reply stream) r

  -- The records that were ingested before are counted in.
  abbrev pub plus : ℕ → Result ReceiveError ℕ × WalReceiver → Result ReceiveError ℕ × WalReceiver
  plus n (ok k, r) = (ok (n + k), r)
  plus n (err e, r) = (err e, r)
  plus n (panic, r) = (panic, r)

  -- The loop of `run` goes on after a round trip, unless it failed.
  abbrev pub go_on :
      (WalReceiver → Result ReceiveError ℕ × WalReceiver)
      → Result ReceiveError ℕ × WalReceiver
      → Result ReceiveError ℕ × WalReceiver
  go_on next (ok n, r) = plus n (next r)
  go_on next (err e, r) = (err e, r)
  go_on next (panic, r) = (panic, r)

  -- `run`, over the replies to its requests.
  unfoldable pub run : List Bytes → WalReceiver → Result ReceiveError ℕ × WalReceiver
  run [] r = (ok 0, r)
  run (stream ∷ streams) r = go_on (run streams) (poll_once stream r)
