-- ===== src/Safekeeper/Storage/Meta.antt =====
-- Restarts: the metadata file says where the log was flushed to.
use aethel_db.Prelude.{
  ℕ, ◌^◌, ◌<◌, ◌≡◌, refl, ap, arith, [], ◌∷◌, length, none, some, subst, not, ◌==◌, true, false,
  List,
}
use aethel_db.Result.{Result, ok, err, panic}
use aethel_db.Common.Bytes.{put_all, get-fields, length-put_all}
use aethel_db.Common.Lsn.{Lsn}
use aethel_db.Safekeeper.Storage.{
  StorageError, WalStorage, meta_magic, meta_bytes, read_meta, wal_open, flush, commit, sync_all,
  sync_one,
}

read_meta-meta_bytes :
    (start flushed : Lsn)
    → start < 2 ^ 64
    → flushed < 2 ^ 64
    → read_meta (some (meta_bytes start flushed)) ≡ ok (some (start, flushed))
unfolding read_meta meta_bytes
read_meta-meta_bytes start flushed hs hf =
    let fs : List (ℕ × ℕ) = (4, meta_magic) ∷ (8, start) ∷ (8, flushed) ∷ [] in
    let whole : not (length (put_all fs) == 20) ≡ false = ground (arith, length-put_all fs) in
    rw
      (
        whole,
        get-fields {E = StorageError} fs 4 0 meta_magic refl (omega arith) (omega arith),
        get-fields {E = StorageError} fs 8 4 start refl hs (omega arith),
        get-fields {E = StorageError} fs 8 12 flushed refl hf (omega arith),
      )
      refl

-- A log that has just been opened in the directory that another one left.
unfoldable pub resumed : ℕ → ℕ → Lsn → Lsn → WalStorage → WalStorage
resumed segment_size ring_capacity start lsn left = record {
  segment_size = segment_size;
  ring_capacity = ring_capacity;
  start_lsn = start;
  write_lsn = lsn;
  flush_lsn = lsn;
  ring = [];
  ring_start = lsn;
  open_seg = none;
  linked = true;
  dirty_segments = [];
  disk = left.durable;
  durable = left.durable;
  meta_file = left.meta_file;
}

sync_all-positions :
    (dirty : List ℕ) (s : WalStorage)
    → ((sync_all dirty s).1.start_lsn ≡ s.start_lsn)
      × ((sync_all dirty s).1.write_lsn ≡ s.write_lsn)
unfolding sync_all
sync_all-positions [] s = (refl, refl)
sync_all-positions (index ∷ dirty) s = ground (arith, sync_all-positions dirty (sync_one index s))

reopened :
    (r : Result StorageError (Unit {0}) × WalStorage) (lsn : Lsn) (segment_size ring_capacity : ℕ)
    → r.1.start_lsn < 2 ^ 64
    → r.1.write_lsn < 2 ^ 64
    → (commit r).0 ≡ ok lsn
    → wal_open segment_size ring_capacity (commit r).1.durable (commit r).1.meta_file
      ≡ ok (resumed segment_size ring_capacity r.1.start_lsn lsn (commit r).1)
unfolding commit wal_open resumed
reopened (ok _, s) lsn segment_size ring_capacity hs hw h =
    let e : s.write_lsn ≡ lsn = ground arith in
    rw (read_meta-meta_bytes s.start_lsn s.write_lsn hs hw)
      (ap (λ l. ok (resumed segment_size ring_capacity s.start_lsn l (commit (ok tt, s)).1)) e)
reopened (err e, s) lsn segment_size ring_capacity hs hw h = absurd (cc)
reopened (panic, s) lsn segment_size ring_capacity hs hw h = absurd (cc)

-- A log whose positions fit 64 bits, and that is opened again after a flush that succeeded, with
-- whatever configuration, starts where it started and resumes at the position that the flush
-- reported.
pub wal_open-flush :
    (s : WalStorage) (lsn : Lsn) (segment_size ring_capacity : ℕ)
    → s.start_lsn < 2 ^ 64
    → s.write_lsn < 2 ^ 64
    → (flush s).0 ≡ ok lsn
    → wal_open segment_size ring_capacity (flush s).1.durable (flush s).1.meta_file
      ≡ ok (resumed segment_size ring_capacity s.start_lsn lsn (flush s).1)
unfolding flush
wal_open-flush s lsn segment_size ring_capacity hs hw h =
    let p = sync_all-positions s.dirty_segments s in
    subst
      (λ start.
        wal_open segment_size ring_capacity (flush s).1.durable (flush s).1.meta_file
        ≡ ok (resumed segment_size ring_capacity start lsn (flush s).1))
      p.0
      (reopened (sync_all s.dirty_segments s) lsn segment_size ring_capacity (omega (arith, p.0))
        (omega (arith, p.1)) h)
