-- ===== src/Pageserver/Codec/RoundTrip.antt =====
-- What the writers of page versions and modifications write, the readers read back, whatever follows.
use aethel_db.Prelude.{
  ℕ, ◌%◌, ◌^◌, ◌<◌, ◌≡◌, refl, subst, arith, false, List, [], ◌∷◌, ◌++◌, length, ltb, String,
  append_assoc, length-append, take-append, drop-append, All, append-nil,
}
use aethel_db.Result.{ok}
use aethel_db.Common.Bytes.{Bytes, be, length-be, from_be-be}
use aethel_db.Common.Lsn.{Lsn}
use aethel_db.Common.Page.{RelTag, page_size, from_raw-fork_raw}
use aethel_db.Common.WalService.RoundTrip.{flag-granted}
use aethel_db.Pageserver.Page.{ByteEdit, PageVersion, image, delta, wal_record, Modification}
use aethel_db.Pageserver.Codec.{
  read_bytes, read_uint, read_byte, write_edits, write_version, read_edits, read_record,
  read_version, write_place, read_place, encode, decode,
}

read_bytes-append :
    (what : String) (n : ℕ) (xs rest : Bytes)
    → length xs ≡ n
    → read_bytes n what (xs ++ rest) ≡ ok (xs, rest)
unfolding read_bytes
read_bytes-append what n xs rest h =
    let long : ltb (length (xs ++ rest)) n ≡ false = ground (arith, length-append xs rest) in
    rw (long, take-append xs rest n h, drop-append xs rest n 0 n h (omega arith)) refl

pub read_uint-be :
    (what : String) (w v : ℕ) (rest : Bytes)
    → v < 256 ^ w
    → read_uint w what (be w v ++ rest) ≡ ok (v, rest)
unfolding read_uint
read_uint-be what w v rest h =
    rw (read_bytes-append what w (be w v) rest (length-be w v), from_be-be w v h) refl

-- The parts of a version are within the widths of their lengths.
abbrev pub IsEdit : ByteEdit → Type 0
IsEdit e = (e.offset < 2 ^ 16) × (length e.bytes < 2 ^ 16)

abbrev pub IsVersion : PageVersion → Type 0
IsVersion (image img) = length img ≡ page_size
IsVersion (delta edits) = (length edits < 2 ^ 16) × All IsEdit edits
IsVersion (wal_record w) = length w.rec < 2 ^ 32

abbrev pub IsPlace : RelTag → ℕ → Lsn → Type 0
IsPlace rel block lsn =
    (rel.spc_node < 2 ^ 32)
    × (rel.db_node < 2 ^ 32)
    × (rel.rel_node < 2 ^ 32)
    × (block < 2 ^ 32)
    × (lsn < 2 ^ 64)

read_edits-write_edits :
    (edits : List ByteEdit) (rest : Bytes)
    → All IsEdit edits
    → read_edits (length edits) (write_edits edits ++ rest) ≡ ok (edits, rest)
unfolding read_edits write_edits
read_edits-write_edits [] rest is = refl
read_edits-write_edits (e ∷ edits) rest is =
    let n : length e.bytes % 2 ^ 16 ≡ length e.bytes = omega arith in
    rw
      (
        append_assoc (be 2 e.offset)
            (be 2 (length e.bytes % 2 ^ 16) ++ (e.bytes ++ write_edits edits)) rest,
        read_uint-be "u16" 2 e.offset
            ((be 2 (length e.bytes % 2 ^ 16) ++ (e.bytes ++ write_edits edits)) ++ rest) is.0.0,
        append_assoc (be 2 (length e.bytes % 2 ^ 16)) (e.bytes ++ write_edits edits) rest,
        n,
        read_uint-be "u16" 2 (length e.bytes) ((e.bytes ++ write_edits edits) ++ rest) is.0.1,
        append_assoc e.bytes (write_edits edits) rest,
        read_bytes-append "edit data" (length e.bytes) e.bytes (write_edits edits ++ rest) refl,
        read_edits-write_edits edits rest is.1,
      )
      refl

-- A page version survives the wire.
pub read_version-write_version :
    (v : PageVersion) (rest : Bytes)
    → IsVersion v
    → read_version (write_version v ++ rest) ≡ ok (v, rest)
unfolding read_version write_version read_byte read_record
read_version-write_version (image img) rest is =
    rw (read_bytes-append "image" page_size img rest is) refl
read_version-write_version (delta edits) rest is =
    let n : length edits % 2 ^ 16 ≡ length edits = omega arith in
    rw
      (
        n,
        append_assoc (be 2 (length edits)) (write_edits edits) rest,
        read_uint-be "u16" 2 (length edits) (write_edits edits ++ rest) is.0,
        read_edits-write_edits edits rest is.1,
      )
      refl
read_version-write_version (wal_record w) rest is =
    let n : length w.rec % 2 ^ 32 ≡ length w.rec = omega arith in
    rw
      (
        n,
        append_assoc (be 4 (length w.rec)) w.rec rest,
        read_uint-be "u32" 4 (length w.rec) (w.rec ++ rest) is,
        read_bytes-append "wal record" (length w.rec) w.rec rest refl,
        (flag-granted w.will_init).1,
      )
      refl

pub read_place-write_place :
    (rel : RelTag) (block : ℕ) (lsn : Lsn) (rest : Bytes)
    → IsPlace rel block lsn
    → read_place (write_place rel block lsn rest) ≡ ok ((rel, (block, lsn)), rest)
unfolding read_place write_place read_byte
read_place-write_place rel block lsn rest (spc, db, node, blk, l) =
    rw
      (
        read_uint-be "u32" 4 rel.spc_node _ spc,
        read_uint-be "u32" 4 rel.db_node _ db,
        read_uint-be "u32" 4 rel.rel_node _ node,
        from_raw-fork_raw rel.fork,
        read_uint-be "u32" 4 block _ blk,
        read_uint-be "u64" 8 lsn rest l,
      )
      refl

-- A modification whose parts are within the widths of their fields survives the wire.
pub decode-encode :
    (m : Modification)
    → IsPlace m.rel m.block m.lsn
    → IsVersion m.version
    → decode (encode m) ≡ ok m
unfolding decode encode
decode-encode m place version =
    let whole : read_version (write_version m.version) ≡ ok (m.version, []) =
      subst (λ b. read_version b ≡ ok (m.version, [])) (append-nil (write_version m.version))
        (read_version-write_version m.version [] version) in
    rw (read_place-write_place m.rel m.block m.lsn (write_version m.version) place, whole) refl
