-- ===== src/Pageserver/Repository/Wal.antt =====
-- pageserver/src/repository.rs: ingest of the raw log. The decompressors of images are parameters.
use aethel_db.Prelude.{
  ℕ, Bool, Option, none, some, List, [], ◌∷◌, ◌≢◌, ◌<◌, ◌^◌, refl, arith, length,
}
use aethel_db.Result.{Result, ok, err, panic, ◌>>=◌}
use aethel_db.Common.Bytes.{Bytes}
use aethel_db.Common.Lsn.{Lsn}
use aethel_db.Pageserver.Page.{PageVersion, image, wal_record, Modification}
use aethel_db.Pageserver.WalDecode.{WalDecodeError, DecodedImage, DecodedBlock, DecodedWalRecord}
use aethel_db.Pageserver.WalDecode.Restore.{restore}
use aethel_db.Pageserver.WalDecode.Restore.Decompress.{Gives}
use aethel_db.Pageserver.WalDecode.Restore.Pages.{restore-HasHole}
use aethel_db.Pageserver.WalDecode.Record.{decode_wal_record}
use aethel_db.Pageserver.WalDecode.Record.Total.{decode_wal_record_returns}
use aethel_db.Pageserver.WalDecode.Stream.{new_decoder, feed}
use aethel_db.Pageserver.WalDecode.Stream.Payload.{IsDecoder}
use aethel_db.Pageserver.WalDecode.Pump.{Pumped, pump_all, PumpReturns, pump_all-PumpReturns}
use aethel_db.Pageserver.Repository.{Inner, ingest}

module _ (lz4_decompress zstd_decompress : Bytes → ℕ → Option Bytes) where
  -- The page, where the image is restored; the record, for a redo process, where that is an error.
  unfoldable pub restored_version :
      Bool → Bytes → Result WalDecodeError Bytes → Result WalDecodeError PageVersion
  restored_version will_init raw (ok page) = ok (image page)
  restored_version will_init raw (err e) =
      ok (wal_record (record { will_init = will_init; rec = raw }))
  restored_version will_init raw panic = panic

  unfoldable pub block_version :
      Bool → Bytes → Option DecodedImage → Result WalDecodeError PageVersion
  block_version will_init raw none = ok (wal_record (record { will_init = will_init; rec = raw }))
  block_version will_init raw (some img) =
      restored_version will_init raw (restore lz4_decompress zstd_decompress img)

  unfoldable pub modifications :
      Lsn → Bytes → List DecodedBlock → Result WalDecodeError (List Modification)
  modifications lsn raw [] = ok []
  modifications lsn raw (b ∷ blocks) = block_version b.will_init raw b.image >>= λ version.
      modifications lsn raw blocks >>= λ rest.
      ok (record { rel = b.rel; block = b.blkno; lsn = lsn; version = version } ∷ rest)

  -- `modifications_from_record`
  unfoldable pub modifications_from_record :
      DecodedWalRecord → Bytes → Result WalDecodeError (List Modification)
  modifications_from_record decoded raw = modifications decoded.lsn raw decoded.blocks

  unfoldable pub ingest_record : Inner → Lsn → Bytes → Result WalDecodeError Inner
  ingest_record inner lsn rec = decode_wal_record lsn rec >>= λ decoded.
      modifications_from_record decoded rec >>= λ mods. ok (ingest inner mods)

  -- An error leaves the records before it in the repository.
  abbrev pub without_decoder : Pumped ingest_record → Result WalDecodeError ℕ × Inner
  without_decoder (n, (inner, d)) = (n, inner)

  unfoldable pub ingest_wal : Inner → Lsn → Bytes → Result WalDecodeError ℕ × Inner
  ingest_wal inner start_lsn wal =
      without_decoder (pump_all ingest_record 0 (feed wal (new_decoder start_lsn)) inner)

  restored_returns :
      (will_init : Bool) (raw : Bytes) (P : Bytes → Type 0) (r : Result WalDecodeError Bytes)
      → Gives P r
      → restored_version will_init raw r ≢ panic
  unfolding restored_version
  restored_returns will_init raw P (ok page) h = λ e. cc
  restored_returns will_init raw P (err w) h = λ e. cc
  restored_returns will_init raw P panic h = absurd h

  block_returns :
      (will_init : Bool) (raw : Bytes) (o : Option DecodedImage)
      → block_version will_init raw o ≢ panic
  unfolding block_version
  block_returns will_init raw none = λ e. cc
  block_returns will_init raw (some img) =
      restored_returns will_init raw _ (restore lz4_decompress zstd_decompress img)
        (restore-HasHole lz4_decompress zstd_decompress img)

  bind_returns :
      {A B : Type 0}
      → (r : Result WalDecodeError A) (f : A → Result WalDecodeError B) → r ≢ panic
      → ((a : A) → f a ≢ panic)
      → (r >>= f) ≢ panic
  bind_returns (ok a) f h g = g a
  bind_returns (err e) f h g = λ p. cc
  bind_returns panic f h g = λ p. h refl

  modifications_returns :
      (lsn : Lsn) (raw : Bytes) (blocks : List DecodedBlock) → modifications lsn raw blocks ≢ panic
  unfolding modifications
  modifications_returns lsn raw [] = λ e. cc
  modifications_returns lsn raw (b ∷ blocks) =
      bind_returns (block_version b.will_init raw b.image) _ (block_returns b.will_init raw b.image)
        (λ v.
          bind_returns (modifications lsn raw blocks) _ (modifications_returns lsn raw blocks)
            (λ rest e. cc))

  -- No image, whatever its bytes, breaks the ingest of a record.
  pub ingest_record_returns :
      (inner : Inner) (lsn : Lsn) (rec : Bytes) → ingest_record inner lsn rec ≢ panic
  unfolding ingest_record modifications_from_record
  ingest_record_returns inner lsn rec =
      bind_returns (decode_wal_record lsn rec) _ (decode_wal_record_returns lsn rec) (λ d.
        bind_returns (modifications d.lsn rec d.blocks) _ (modifications_returns d.lsn rec d.blocks)
          (λ mods e. cc))

  -- Ingest of any bytes from an LSN of 64 bits returns a count or an error: no loop runs out of fuel,
  -- and nothing is read out of range.
  pub ingest_wal_returns :
      (inner : Inner) (start_lsn : Lsn) (wal : Bytes)
      → start_lsn < 2 ^ 64
      → (ingest_wal inner start_lsn wal).0 ≢ panic
  unfolding ingest_wal new_decoder feed IsDecoder
  ingest_wal_returns inner start_lsn wal h =
      pumped (pump_all ingest_record 0 (feed wal (new_decoder start_lsn)) inner) (
        pump_all-PumpReturns ingest_record ingest_record_returns 0
          (feed wal (new_decoder start_lsn)) inner (omega arith, omega arith))
    where
      pumped :
          (r : Pumped ingest_record)
          → PumpReturns ingest_record (length wal) r
          → (without_decoder r).0 ≢ panic
      pumped (ok n, x) g = λ e. cc
      pumped (err n, x) g = λ e. cc
      pumped (panic, (s, d)) g = absurd g
