-- ===== src/Pageserver/Codec.antt =====
-- pageserver/src/page.rs: the wire form of page versions and modifications. The source's readers take
-- the whole buffer and a position; here they take what the buffer holds from that position, and
-- return what follows, so that `buf.len() < pos + n` compares the bytes left with `n`.
pub mod RoundTrip
use aethel_db.Prelude.{
  ℕ, zero, suc, ◌+◌, ◌%◌, ◌^◌, Bool, true, false, not, Option, none, some, List, [], ◌∷◌, ◌++◌,
  length, take, drop, ltb, ◌==◌, if◌then◌else◌, String,
}
use aethel_db.Result.{Result, ok, err, ◌>>=◌}
use aethel_db.Common.Bytes.{Bytes, be, from_be}
use aethel_db.Common.Lsn.{Lsn}
use aethel_db.Common.Page.{ForkNumber, fork_raw, from_raw, RelTag, page_size}
use aethel_db.Common.WalService.{flag}
use aethel_db.Pageserver.Page.{
  ByteEdit, WalRecord, PageVersion, image, delta, wal_record, PageError, truncated, bad_version_tag,
  Modification,
}

-- A reader's result: a value and the bytes behind it.
abbrev pub Read : Type 0 → Type 0
Read A = Result PageError (A × Bytes)

unfoldable pub read_bytes : ℕ → String → Bytes → Read Bytes
read_bytes n what buf =
    if ltb (length buf) n then err (truncated what) else ok (take n buf, drop n buf)

unfoldable pub read_uint : ℕ → String → Bytes → Read ℕ
read_uint width what buf = read_bytes width what buf >>= λ r. ok (from_be 0 r.0, r.1)

abbrev pub read_u16 : Bytes → Read ℕ
read_u16 = read_uint 2 "u16"

abbrev pub read_u32 : Bytes → Read ℕ
read_u32 = read_uint 4 "u32"

abbrev pub read_u64 : Bytes → Read ℕ
read_u64 = read_uint 8 "u64"

-- `*buf.get(pos).ok_or(..)?`
unfoldable pub read_byte : String → Bytes → Read ℕ
read_byte what [] = err (truncated what)
read_byte what (b ∷ buf) = ok (b, buf)

-- The casts of the lengths cut them off at their width.
unfoldable pub write_edits : List ByteEdit → Bytes
write_edits [] = []
write_edits (e ∷ edits) =
    be 2 e.offset ++ (be 2 (length e.bytes % 2 ^ 16) ++ (e.bytes ++ write_edits edits))

unfoldable pub write_version : PageVersion → Bytes
write_version (image img) = 0 ∷ img
write_version (delta edits) = 1 ∷ (be 2 (length edits % 2 ^ 16) ++ write_edits edits)
write_version (wal_record w) = 2 ∷ (flag w.will_init ∷ (be 4 (length w.rec % 2 ^ 32) ++ w.rec))

unfoldable pub read_edits : ℕ → Bytes → Read (List ByteEdit)
read_edits zero buf = ok ([], buf)
read_edits (suc count) buf = read_u16 buf >>= λ offset. read_u16 offset.1 >>= λ len.
    read_bytes len.0 "edit data" len.1 >>= λ bytes. read_edits count bytes.1 >>= λ edits.
    ok (record { offset = offset.0; bytes = bytes.0 } ∷ edits.0, edits.1)

unfoldable pub read_record : Bytes → Read PageVersion
read_record buf = read_byte "will_init" buf >>= λ init. read_u32 init.1 >>= λ len.
    read_bytes len.0 "wal record" len.1 >>= λ rec.
    ok (wal_record (record { will_init = not (init.0 == 0); rec = rec.0 }), rec.1)

unfoldable pub read_version : Bytes → Read PageVersion
read_version buf = read_byte "version tag" buf >>= λ tag.
    if tag.0 == 0
    then (read_bytes page_size "image" tag.1 >>= λ img. ok (image img.0, img.1))
    else (if tag.0 == 1
        then (read_u16 tag.1 >>= λ count.
            read_edits count.0 count.1 >>= λ edits. ok (delta edits.0, edits.1))
        else (if tag.0 == 2 then read_record tag.1 else err (bad_version_tag tag.0)))

-- The relation, block and LSN that a modification and every entry of a layer open with, and what is
-- written behind them.
unfoldable pub write_place : RelTag → ℕ → Lsn → Bytes → Bytes
write_place rel block lsn behind =
    be 4 rel.spc_node
    ++ (be 4 rel.db_node
        ++ (be 4 rel.rel_node ++ (fork_raw rel.fork ∷ (be 4 block ++ (be 8 lsn ++ behind)))))

-- `ForkNumber::from_raw(fork_raw).ok_or(PageError::Truncated("fork"))?`
abbrev pub known_fork : Option ForkNumber → Result PageError ForkNumber
known_fork none = err (truncated "fork")
known_fork (some fork) = ok fork

unfoldable pub read_place : Bytes → Read (RelTag × (ℕ × Lsn))
read_place buf = read_u32 buf >>= λ spc_node. read_u32 spc_node.1 >>= λ db_node.
    read_u32 db_node.1 >>= λ rel_node. read_byte "fork" rel_node.1 >>= λ raw.
    known_fork (from_raw raw.0) >>= λ fork. read_u32 raw.1 >>= λ block. read_u64 block.1 >>= λ lsn.
    ok (
      (
        record { spc_node = spc_node.0; db_node = db_node.0; rel_node = rel_node.0; fork = fork },
        (block.0, lsn.0),
      ),
      lsn.1,
    )

-- `Modification::encode`
unfoldable pub encode : Modification → Bytes
encode m = write_place m.rel m.block m.lsn (write_version m.version)

-- `Modification::decode`
unfoldable pub decode : Bytes → Result PageError Modification
decode buf = read_place buf >>= λ place. read_version place.1 >>= λ version.
    ok (record { rel = place.0.0; block = place.0.1.0; lsn = place.0.1.1; version = version.0 })
