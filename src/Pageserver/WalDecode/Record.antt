-- ===== src/Pageserver/WalDecode/Record.antt =====
-- `decode_wal_record`: the header of a record, those of its blocks, then their data. A `Cursor` is the
-- bytes that are left.
pub mod Total
pub mod Layout
pub mod Fields
pub mod RoundTrip
use aethel_db.Prelude.{
  ℕ, zero, suc, ◌+◌, ◌-◌, ◌*◌, ◌/◌, ◌%◌, ◌^◌, Bool, true, false, not, ◌&&◌, ◌||◌, Option, none,
  some, List, [], ◌∷◌, ◌++◌, length, take, drop, ltb, leb, ◌==◌, if◌then◌else◌, String,
}
use aethel_db.Result.{Result, ok, err, panic, ◌>>=◌}
use aethel_db.Common.Bytes.{Bytes, slice}
use aethel_db.Common.Lsn.{Lsn}
use aethel_db.Common.Page.{RelTag, ForkNumber, from_raw}
use aethel_db.Pageserver.WalDecode.{
  WalDecodeError, truncated, bad_total_len, short_total_len, bad_block_id, same_rel_without_prev,
  bad_fork, Compression, no_compression, pglz, lz4, zstd, DecodedImage, DecodedBlock,
  DecodedWalRecord, xlog_blcksz, size_of_xlog_record, from_le,
}

-- Reads with what they leave.
abbrev pub Read : Type 0 → Type 0
Read A = Result WalDecodeError (A × Bytes)

-- `Cursor::take`
unfoldable pub take_bytes : ℕ → String → Bytes → Read Bytes
take_bytes n what c =
    if ltb (length c) n then err (truncated what) else slice 0 n c >>= λ bytes. ok (bytes, drop n c)

-- `Cursor::skip`
unfoldable pub skip : ℕ → String → Bytes → Result WalDecodeError Bytes
skip n what c = take_bytes n what c >>= λ (_, c). ok c

-- `Cursor::u8`
unfoldable pub u8 : String → Bytes → Read ℕ
u8 what [] = err (truncated what)
u8 what (b ∷ c) = ok (b, c)

-- `Cursor::u16`, `u32` and `u64`: little-endian numbers of so many bytes.
unfoldable pub le_number : ℕ → String → Bytes → Read ℕ
le_number n what c = take_bytes n what c >>= λ (bs, c). ok (from_le bs, c)

-- Bit `k` of a byte of flags.
abbrev pub has_flag : ℕ → ℕ → Bool
has_flag k flags = flags / 2 ^ k % 2 == 1

-- `bimg_info & (PGLZ | LZ4 | ZSTD) != 0`
abbrev pub is_compressed : ℕ → Bool
is_compressed info = has_flag 2 info || (has_flag 3 info || has_flag 4 info)

unfoldable pub compression_from_info : ℕ → Compression
compression_from_info info =
    if has_flag 2 info
    then pglz
    else if has_flag 3 info
    then lz4
    else if has_flag 4 info
    then zstd
    else no_compression

pub record ImageMeta : Type 0 where
  pub bimg_len : ℕ
  pub hole_offset : ℕ
  pub hole_length : ℕ
  pub compression : Compression
  pub apply : Bool

pub record BlockWork : Type 0 where
  pub rel : RelTag
  pub blkno : ℕ
  pub will_init : Bool
  pub has_data : Bool
  pub data_len : ℕ
  pub image_meta : Option ImageMeta

-- `(XLOG_BLCKSZ - bimg_len) as u16` wraps where the image is longer than a page.
unfoldable pub hole_length : ℕ → ℕ → Bytes → Read ℕ
hole_length info bimg_len c =
    if has_flag 0 info && is_compressed info
    then le_number 2 "hole_length" c
    else if has_flag 0 info
    then ok ((xlog_blcksz + 2 ^ 16 - bimg_len) % 2 ^ 16, c)
    else ok (0, c)

unfoldable pub image_header : Bytes → Read (Option ImageMeta)
image_header c = le_number 2 "bimg_len" c >>= λ (bimg_len, c).
    le_number 2 "hole_offset" c >>= λ (hole_offset, c). u8 "bimg_info" c >>= λ (info, c).
    hole_length info bimg_len c >>= λ (hole_length, c). ok (
      some (record {
        bimg_len = bimg_len;
        hole_offset = hole_offset;
        hole_length = hole_length;
        compression = compression_from_info info;
        apply = has_flag 1 info;
      }),
      c,
    )

-- `(spcOid, dbOid, relNumber)`
abbrev pub Locator : Type 0
Locator = ℕ × (ℕ × ℕ)

unfoldable pub locator : Bool → Option Locator → Bytes → Read Locator
locator true none c = err same_rel_without_prev
locator true (some last) c = ok (last, c)
locator false last c = le_number 4 "spcOid" c >>= λ (spc, c). le_number 4 "dbOid" c >>= λ (db, c).
    le_number 4 "relNumber" c >>= λ (rel, c). ok ((spc, (db, rel)), c)

abbrev pub or_bad_fork : ℕ → Option ForkNumber → Result WalDecodeError ForkNumber
or_bad_fork raw none = err (bad_fork raw)
or_bad_fork raw (some fork) = ok fork

unfoldable pub fork_of : ℕ → Result WalDecodeError ForkNumber
fork_of raw = or_bad_fork raw (from_raw raw)

-- The header of one block, after its id: the locator that it leaves for the next, and the block.
unfoldable pub block_header : Option Locator → Bytes → Read (Locator × BlockWork)
block_header last c = u8 "fork_flags" c >>= λ (flags, c).
    le_number 2 "block data_len" c >>= λ (data_len, c).
    (if has_flag 4 flags then image_header c else ok (none, c)) >>= λ (image_meta, c).
    locator (has_flag 7 flags) last c >>= λ (loc, c). le_number 4 "blkno" c >>= λ (blkno, c).
    fork_of (flags % 16) >>= λ fork. ok (
      (
        loc,
        record {
          rel = record { spc_node = loc.0; db_node = loc.1.0; rel_node = loc.1.1; fork = fork };
          blkno = blkno;
          will_init = has_flag 6 flags;
          has_data = has_flag 5 flags;
          data_len = data_len;
          image_meta = image_meta;
        },
      ),
      c,
    )

-- The loop over the headers: the length of the main data, and the blocks behind those found before.
-- Every round takes its id, so that the bytes are fuel enough; running out of it is `panic`.
unfoldable pub headers : ℕ → Option Locator → List BlockWork → Bytes → Read (ℕ × List BlockWork)
headers zero last blocks c = panic
headers (suc fuel) last blocks c = u8 "block_id" c >>= λ (id, c).
    if id == 255
    then (u8 "main_data_len" c >>= λ (n, c). ok ((n, blocks), c))
    else if id == 254
    then (le_number 4 "main_data_len" c >>= λ (n, c). ok ((n, blocks), c))
    else if id == 253
    then (skip 2 "replication origin" c >>= headers fuel last blocks)
    else if id == 252
    then (skip 8 "toplevel xid" c >>= headers fuel last blocks)
    else if leb id 32
    then (block_header last c >>= λ ((loc, b), c). headers fuel (some loc) (blocks ++ (b ∷ [])) c)
    else err (bad_block_id id)

unfoldable pub block_image : Option ImageMeta → Bytes → Read (Option DecodedImage)
block_image none c = ok (none, c)
block_image (some meta) c = take_bytes meta.bimg_len "block image" c >>= λ (bytes, c). ok (
  some (record {
    bytes = bytes;
    hole_offset = meta.hole_offset;
    hole_length = meta.hole_length;
    compression = meta.compression;
    apply = meta.apply;
  }),
  c,
)

-- The loop over the blocks' data.
unfoldable pub block_bodies : List BlockWork → Bytes → Read (List DecodedBlock)
block_bodies [] c = ok ([], c)
block_bodies (b ∷ blocks) c = block_image b.image_meta c >>= λ (image, c).
    (if b.has_data then take_bytes b.data_len "block data" c else ok ([], c)) >>= λ (bytes, c).
    block_bodies blocks c >>= λ (rest, c). ok (
      record {
        rel = b.rel;
        blkno = b.blkno;
        will_init = b.will_init;
        image = image;
        block_data = bytes;
      }
          ∷ rest,
      c,
    )

-- The sections after the fixed header.
unfoldable pub sections : Lsn → ℕ → ℕ → ℕ → Bytes → Result WalDecodeError DecodedWalRecord
sections lsn xid info rmid c =
    headers (suc (length c)) none [] c >>= λ ((main_data_len, blocks), c).
    block_bodies blocks c >>= λ (decoded, c).
    take_bytes main_data_len "main data" c >>= λ (main_data, _). ok (record {
      lsn = lsn;
      rmid = rmid;
      info = info;
      xid = xid;
      main_data = main_data;
      blocks = decoded;
    })

unfoldable pub decode_wal_record : Lsn → Bytes → Result WalDecodeError DecodedWalRecord
decode_wal_record lsn rec = le_number 4 "xl_tot_len" rec >>= λ (tot_len, c).
    le_number 4 "xl_xid" c >>= λ (xid, c). le_number 8 "xl_prev" c >>= λ (_, c).
    u8 "xl_info" c >>= λ (info, c). u8 "xl_rmid" c >>= λ (rmid, c). skip 2 "xl_padding" c >>= λ c.
    le_number 4 "xl_crc" c >>= λ (_, c).
    if ltb tot_len size_of_xlog_record
    then err (short_total_len tot_len)
    else if not (tot_len == length rec)
    then err (bad_total_len tot_len (length rec))
    else sections lsn xid info rmid c
