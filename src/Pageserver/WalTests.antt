-- ===== src/Pageserver/WalTests.antt =====
-- The theorems on the log in the page server, on records of a few bytes.
use aethel_db.Prelude.{
  ℕ, ◌≡◌, ◌≢◌, refl, sym, ap, true, false, Option, none, some, [], ◌∷◌, ◌++◌, map, arith, replicate,
  length, length-replicate, take, drop, drop-append,
}
use aethel_db.Result.{ok, panic}
use aethel_db.Common.Bytes.{Bytes}
use aethel_db.Common.Page.{RelTag, main}
use aethel_db.Common.WalService.{ReadResponse, encode_read_response}
use aethel_db.Pageserver.WalDecode.{no_compression, lz4, DecodedImage, DecodedWalRecord}
use aethel_db.Pageserver.WalDecode.Restore.{restore, with_hole, decompressed}
use aethel_db.Pageserver.WalDecode.Restore.Decompress.{Gives}
use aethel_db.Pageserver.WalDecode.Restore.Pages.{
  HasHole, with_hole-HasHole, restore-HasHole, restore-without_hole,
}
use aethel_db.Pageserver.WalDecode.Record.{decode_wal_record}
use aethel_db.Pageserver.WalDecode.Record.Layout.{
  le, IsImage, write_record, write_sections, write_block_headers, write_block_header,
  write_image_header, write_locator, write_main_length, write_bodies,
}
use aethel_db.Pageserver.WalDecode.Record.RoundTrip.{decode_wal_record-write_record}
use aethel_db.Pageserver.Repository.{new_inner}
use aethel_db.Pageserver.Repository.Wal.{ingest_wal, ingest_wal_returns}
use aethel_db.Pageserver.WalReceiver.{connect, run}
use aethel_db.Pageserver.WalReceiver.Chunks.{Consecutive, payloads, seen, at_once, run-ingest_wal}

-- A decompressor that gives as many zeros as it is asked for.
abbrev zeros : Bytes → ℕ → Option Bytes
zeros bytes n = some (replicate n 0)

abbrev heap : RelTag
heap = record { spc_node = 1663; db_node = 5; rel_node = 16384; fork = main }

abbrev stored : DecodedImage
stored = record {
  bytes = 1 ∷ 2 ∷ [];
  hole_offset = 1;
  hole_length = 8190;
  compression = no_compression;
  apply = true;
}

restore-HasHole_example : Gives (HasHole 1 8190) (restore zeros zeros stored)
restore-HasHole_example = restore-HasHole zeros zeros stored

stored-decompressed :
    decompressed zeros zeros no_compression (1 ∷ 2 ∷ []) 2
    ≡ ok (take 1 (with_hole 1 8190 (1 ∷ 2 ∷ [])) ++ drop 8191 (with_hole 1 8190 (1 ∷ 2 ∷ [])))
unfolding decompressed
stored-decompressed =
    let gap : Bytes = replicate 8190 0 in
    let size : length gap ≡ 8190 = length-replicate {A = ℕ} 8190 0 in
    ap (λ l. ok (1 ∷ l)) (sym (drop-append gap (2 ∷ []) 8190 0 8190 size refl))

restore-without_hole_example : restore zeros zeros stored ≡ ok (with_hole 1 8190 (1 ∷ 2 ∷ []))
restore-without_hole_example =
    restore-without_hole zeros zeros stored (with_hole 1 8190 (1 ∷ 2 ∷ [])) (omega arith)
      (with_hole-HasHole 1 8190 (1 ∷ 2 ∷ []) refl (omega arith)) stored-decompressed

-- A block with data, then one of the same relation with a compressed image that has a hole.
abbrev update : DecodedWalRecord
update = record {
  lsn = 40;
  rmid = 10;
  info = 32;
  xid = 777;
  main_data = 7 ∷ 8 ∷ [];
  blocks =
      record { rel = heap; blkno = 3; will_init = false; image = none; block_data = 5 ∷ [] }
      ∷ record {
        rel = heap;
        blkno = 4;
        will_init = true;
        image = some (record {
          bytes = 9 ∷ 9 ∷ 9 ∷ [];
          hole_offset = 100;
          hole_length = 300;
          compression = lz4;
          apply = true;
        });
        block_data = [];
      }
      ∷ [];
}

decode_wal_record_example : decode_wal_record 40 (write_record 0 99 update) ≡ ok update
unfolding write_sections write_block_headers write_block_header write_image_header write_locator
    write_main_length write_bodies le IsImage
decode_wal_record_example = decode_wal_record-write_record 0 99 update (omega arith) (omega arith) (
  (omega arith, omega arith),
  (
    omega arith,
    (
      omega arith,
      (
        (((omega arith, omega arith), (omega arith, omega arith)), (omega arith, tt)),
        (
          (
            ((omega arith, omega arith), (omega arith, omega arith)),
            (omega arith, ((omega arith, omega arith), (omega arith, λ c h. absurd cc))),
          ),
          tt,
        ),
      ),
    ),
  ),
)

ingest_wal_returns_example :
    (ingest_wal zeros zeros (new_inner 2) 40 (26 ∷ 0 ∷ 0 ∷ 0 ∷ [])).0 ≢ panic
ingest_wal_returns_example =
    ingest_wal_returns zeros zeros (new_inner 2) 40 (26 ∷ 0 ∷ 0 ∷ 0 ∷ []) (omega arith)

-- The reply with the first bytes of a record, and the one with the others.
abbrev first_part : ReadResponse
first_part = record {
  status = 0;
  commit_lsn = 66;
  start_lsn = 40;
  payload = 26 ∷ 0 ∷ 0 ∷ 0 ∷ 9 ∷ 3 ∷ 0 ∷ 0 ∷ [];
}

abbrev second_part : ReadResponse
second_part = record {
  status = 0;
  commit_lsn = 66;
  start_lsn = 48;
  payload = 0 ∷ 0 ∷ 0 ∷ 0 ∷ 0 ∷ 0 ∷ 0 ∷ 0 ∷ 32 ∷ 10 ∷ 0 ∷ 0 ∷ 0 ∷ 0 ∷ 0 ∷ 0 ∷ 255 ∷ 0 ∷ [];
}

run-ingest_wal_example :
    seen zeros zeros (
      run zeros zeros
        (map encode_read_response (first_part ∷ second_part ∷ []))
        (connect (new_inner 2) 40))
    ≡ at_once zeros zeros
        (ingest_wal zeros zeros (new_inner 2) 40 (payloads (first_part ∷ second_part ∷ [])))
unfolding Consecutive
run-ingest_wal_example =
    run-ingest_wal zeros zeros first_part (second_part ∷ []) 40 (new_inner 2) (omega arith) (
      ((omega arith, omega arith, omega arith, omega arith), omega arith),
      (refl, (((omega arith, omega arith, omega arith, omega arith), omega arith), (refl, tt))),
    )
