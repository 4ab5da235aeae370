-- ===== src/Safekeeper/Storage.antt =====
-- safekeeper/src/storage.rs: the log of a safekeeper in segment files, with the newest bytes in
-- memory. A file is its bytes by offset; a directory gives the files of the segments by index. The
-- model has the directory twice: as the running process sees it, and as fsync has made it durable.
-- The configuration stands in the record. Reads and writes of files that exist do not fail.
pub mod Meta
pub mod Removal
pub mod Reads
pub mod Rounds
pub mod Appends
use aethel_db.Prelude.{
  ℕ, zero, suc, ◌+◌, ◌-◌, ◌*◌, ◌/◌, ◌%◌, ◌^◌, min, Bool, true, false, not, ◌&&◌, ◌||◌, Option, none,
  some, List, [], ◌∷◌, ◌++◌, length, take, drop, get_elem?, ltb, leb, ◌==◌, if◌then◌else◌, is_some,
}
use aethel_db.Result.{Result, ok, err, panic, ◌>>=◌}
use aethel_db.Common.Bytes.{Bytes, be, from_be, put_all, get}
use aethel_db.Common.Lsn.{Lsn, invalid, is_valid}

-- `io` stands for the one I/O error of the model, a file that is not there.
pub data StorageError : Type 0 where
  non_contiguous : Lsn → Lsn → StorageError
  out_of_range : Lsn → Lsn → Lsn → Lsn → StorageError
  corrupt_meta : StorageError
  io : StorageError

abbrev pub File : Type 0
File = ℕ → ℕ

abbrev pub Disk : Type 0
Disk = ℕ → Option File

-- `open_seg` is the index of the segment whose handle is kept. A handle outlives the removal of its
-- file: `linked` says whether the directory still has it; what is written to one that is gone is
-- never seen again.
pub record WalStorage : Type 0 where
  pub segment_size : ℕ
  pub ring_capacity : ℕ
  pub start_lsn : Lsn
  pub write_lsn : Lsn
  pub flush_lsn : Lsn
  pub ring : Bytes
  pub ring_start : Lsn
  pub open_seg : Option ℕ
  pub linked : Bool
  pub dirty_segments : List ℕ
  pub disk : Disk
  pub durable : Disk
  pub meta_file : Option Bytes

abbrev pub meta_magic : ℕ
meta_magic = 1397443889

-- The content of the metadata file.
unfoldable pub meta_bytes : Lsn → Lsn → Bytes
meta_bytes start flush = put_all ((4, meta_magic) ∷ (8, start) ∷ (8, flush) ∷ [])

unfoldable pub read_meta : Option Bytes → Result StorageError (Option (Lsn × Lsn))
read_meta none = ok none
read_meta (some buf) =
    if not (length buf == 20)
    then err corrupt_meta
    else get 4 0 buf >>= λ magic.
        if not (magic == meta_magic)
        then err corrupt_meta
        else get 8 4 buf >>= λ start. get 8 12 buf >>= λ flush. ok (some (start, flush))

-- `meta.unwrap_or((Lsn::INVALID, Lsn::INVALID))`
abbrev pub or_origin : Option (Lsn × Lsn) → Lsn × Lsn
or_origin none = (invalid, invalid)
or_origin (some m) = m

-- `WalStorage::open` of a directory.
unfoldable pub wal_open : ℕ → ℕ → Disk → Option Bytes → Result StorageError WalStorage
wal_open segment_size ring_capacity files meta_file = read_meta meta_file >>= λ meta.
    let lsns = or_origin meta in
    ok (record {
      segment_size = segment_size;
      ring_capacity = ring_capacity;
      start_lsn = lsns.0;
      write_lsn = lsns.1;
      flush_lsn = lsns.1;
      ring = [];
      ring_start = lsns.1;
      open_seg = none;
      linked = true;
      dirty_segments = [];
      disk = files;
      durable = files;
      meta_file = meta_file;
    })

-- `matches!(self.open_seg, Some((i, _)) if i == index)`
abbrev pub is_open : Option ℕ → ℕ → Bool
is_open none index = false
is_open (some i) index = i == index

abbrev pub put_file : ℕ → Option File → Disk → Disk
put_file index file disk i = if i == index then file else disk i

-- A preallocated segment, where there is none.
abbrev pub or_zeros : Option File → File
or_zeros none = λ _. 0
or_zeros (some f) = f

unfoldable pub append_segment : ℕ → WalStorage → WalStorage
append_segment index s = if is_open s.open_seg index then s else record s {
  open_seg = some index;
  linked = true;
  disk = put_file index (some (or_zeros (s.disk index))) s.disk;
}

abbrev pub or_zero : Option ℕ → ℕ
or_zero none = 0
or_zero (some b) = b

-- The file after a write of some bytes at an offset.
unfoldable pub write_at : ℕ → Bytes → File → File
write_at offset bytes f i =
    if leb offset i && ltb i (offset + length bytes)
    then or_zero (get_elem? bytes (i - offset))
    else f i

unfoldable pub write_open : ℕ → ℕ → Bytes → WalStorage → WalStorage
write_open index offset bytes s =
    if s.linked
    then record s {
      disk = put_file index (some (write_at offset bytes (or_zeros (s.disk index)))) s.disk;
    }
    else s

abbrev pub mark_dirty : ℕ → List ℕ → List ℕ
mark_dirty index [] = index ∷ []
mark_dirty index (i ∷ is) =
    if i == index then i ∷ is else if ltb index i then index ∷ i ∷ is else i ∷ mark_dirty index is

-- One round of the loop of `append`: the part of the data that the segment at `write_lsn` has room
-- for.
unfoldable pub write_round : ℕ → Bytes → WalStorage → WalStorage
write_round n bytes s =
    let index = s.write_lsn / s.segment_size in
    let opened = append_segment index s in
    let written = write_open index (s.write_lsn % s.segment_size) (take n bytes) opened in
    record written {
      dirty_segments = mark_dirty index written.dirty_segments;
      write_lsn = (s.write_lsn + n) % 2 ^ 64;
    }

-- How much of `len` bytes a round takes.
abbrev pub room : WalStorage → ℕ → ℕ
room s len = min (s.segment_size - s.write_lsn % s.segment_size) len

-- The loop; every round takes one byte at least, so the length of the data is enough fuel.
unfoldable pub write_loop : ℕ → Bytes → WalStorage → WalStorage
write_loop zero bytes s = s
write_loop (suc fuel) [] s = s
write_loop (suc fuel) (b ∷ bytes) s =
    let n = room s (length (b ∷ bytes)) in
    write_loop fuel (drop n (b ∷ bytes)) (write_round n (b ∷ bytes) s)

-- The eviction of the oldest bytes past the capacity.
unfoldable pub evict : ℕ → Bytes → Lsn → Bytes × Lsn
evict capacity [] start = ([], start)
evict capacity (b ∷ ring) start =
    if ltb capacity (length (b ∷ ring))
    then evict capacity ring ((start + 1) % 2 ^ 64)
    else (b ∷ ring, start)

unfoldable pub cache : Bytes → WalStorage → WalStorage
cache bytes s =
    let kept = evict s.ring_capacity (s.ring ++ bytes) s.ring_start in
    record s { ring = kept.0; ring_start = kept.1 }

-- The seeding of a log that has no origin yet.
unfoldable pub seed : Lsn → WalStorage → WalStorage
seed start s =
    if not (is_valid s.write_lsn) && not (is_valid s.start_lsn)
    then record s { start_lsn = start; write_lsn = start; flush_lsn = start; ring_start = start }
    else s

abbrev pub is_empty : Bytes → Bool
is_empty [] = true
is_empty (b ∷ bytes) = false

unfoldable pub append : Lsn → Bytes → WalStorage → Result StorageError (Unit {0}) × WalStorage
append start bytes s =
    let seeded = seed start s in
    if not (start == seeded.write_lsn)
    then (err (non_contiguous seeded.write_lsn start), seeded)
    else if is_empty bytes
    then (ok tt, seeded)
    else (ok tt, cache bytes (write_loop (length bytes) bytes seeded))

-- `sync_all` of one segment, through the handle that is kept or through its path.
abbrev pub sync_one : ℕ → WalStorage → WalStorage
sync_one index s =
    if is_open s.open_seg index && not s.linked
    then s
    else record s { durable = put_file index (s.disk index) s.durable }

-- The loop over the dirty segments; one that is gone, and has no handle, ends it.
unfoldable pub sync_all : List ℕ → WalStorage → Result StorageError (Unit {0}) × WalStorage
sync_all [] s = (ok tt, s)
sync_all (index ∷ dirty) s =
    let rest = sync_all dirty (sync_one index s) in
    if is_open s.open_seg index || is_some (s.disk index) then rest else (err io, s)

-- What follows the loop.
unfoldable pub commit :
    Result StorageError (Unit {0}) × WalStorage → Result StorageError Lsn × WalStorage
commit (ok _, s) = (
  ok s.write_lsn,
  record s {
    dirty_segments = [];
    flush_lsn = s.write_lsn;
    meta_file = some (meta_bytes s.start_lsn s.write_lsn);
  },
)
commit (err e, s) = (err e, s)
commit (panic, s) = (panic, s)

unfoldable pub flush : WalStorage → Result StorageError Lsn × WalStorage
flush s = commit (sync_all s.dirty_segments s)

-- `n` bytes of a file from an offset.
abbrev pub read_file : File → ℕ → ℕ → Bytes
read_file f offset zero = []
read_file f offset (suc n) = f offset ∷ read_file f (offset + 1) n

-- `File::open(path)?` and `read_exact`.
abbrev pub read_segment : Option File → ℕ → ℕ → Result StorageError Bytes
read_segment none offset n = err io
read_segment (some f) offset n = ok (read_file f offset n)

-- The loop over the segments, with as much fuel as there are bytes to read.
unfoldable pub read_loop : ℕ → WalStorage → Lsn → ℕ → Result StorageError Bytes
read_loop zero s pos len = ok []
read_loop (suc fuel) s pos len =
    let offset = pos % s.segment_size in
    let n = min (s.segment_size - offset) len in
    let rest = read_loop fuel s ((pos + n) % 2 ^ 64) (len - n) in
    if len == 0
    then ok []
    else (read_segment (s.disk (pos / s.segment_size)) offset n >>= λ bytes.
        rest >>= λ more. ok (bytes ++ more))

-- `self.ring[off + i]` for each byte of the buffer.
unfoldable pub read_ring : Bytes → ℕ → ℕ → Result StorageError Bytes
read_ring ring off zero = ok []
read_ring ring off (suc n) = elim (get_elem? ring off) [
  | none ↦ panic
  | some b ↦ read_ring ring (off + 1) n >>= λ more. ok (b ∷ more)
]

-- `read_at` of `len` bytes.
unfoldable pub read_at : WalStorage → Lsn → ℕ → Result StorageError Bytes
read_at s lsn len =
    let end = (lsn + len) % 2 ^ 64 in
    if ltb lsn s.start_lsn || ltb s.write_lsn end
    then err (out_of_range lsn end s.start_lsn s.write_lsn)
    else if leb s.ring_start lsn && leb end s.write_lsn && not (is_empty s.ring)
    then read_ring s.ring (lsn - s.ring_start) len
    else read_loop len s lsn len

-- The removal of `count` segments from an index on, and how many of them existed.
unfoldable pub remove_from : ℕ → ℕ → WalStorage → ℕ × WalStorage
remove_from zero index s = (0, s)
remove_from (suc count) index s =
    let gone = record s {
      disk = put_file index none s.disk;
      durable = put_file index none s.durable;
      linked = s.linked && not (is_open s.open_seg index);
    } in
    let rest = remove_from count (index + 1) (if is_some (s.disk index) then gone else s) in
    (if is_some (s.disk index) then rest.0 + 1 else rest.0, rest.1)

unfoldable pub remove_segments_before : Lsn → WalStorage → ℕ × WalStorage
remove_segments_before horizon s =
    let first = s.start_lsn / s.segment_size in
    let horizon_seg = horizon / s.segment_size in
    let removed = remove_from (horizon_seg - first) first s in
    let floor = if ltb first horizon_seg then horizon_seg * s.segment_size else s.start_lsn in
    (
      removed.0,
      record removed.1 { start_lsn = if ltb s.start_lsn floor then floor else s.start_lsn },
    )
