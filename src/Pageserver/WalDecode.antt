-- ===== src/Pageserver/WalDecode.antt =====
-- pageserver/src/waldecode.rs: the decoder of PostgreSQL's log. This file has its error and result
-- types; the children frame the stream, decode a record and restore a page image.
pub mod Restore
pub mod Record
pub mod Stream
pub mod Pump
use aethel_db.Prelude.{ℕ, ◌+◌, ◌*◌, Bool, Option, List, [], ◌∷◌, String}
use aethel_db.Common.Bytes.{Bytes}
use aethel_db.Common.Lsn.{Lsn}
use aethel_db.Common.Page.{RelTag, page_size}

-- `XLOG_BLCKSZ`
abbrev pub xlog_blcksz : ℕ
xlog_blcksz = page_size

abbrev pub size_of_xlog_record : ℕ
size_of_xlog_record = 24

abbrev pub size_of_xlog_short_phd : ℕ
size_of_xlog_short_phd = 24

abbrev pub size_of_xlog_long_phd : ℕ
size_of_xlog_long_phd = 40

abbrev pub default_wal_seg_size : ℕ
default_wal_seg_size = 16777216

-- `XLOG_PAGE_MAGIC_PG16`, 0xD113
abbrev pub xlog_page_magic_pg16 : ℕ
xlog_page_magic_pg16 = 53523

-- `no_compression` is `Compression::None`.
pub data Compression : Type 0 where
  no_compression pglz lz4 zstd : Compression

pub data WalDecodeError : Type 0 where
  truncated : String → WalDecodeError
  bad_total_len : ℕ → ℕ → WalDecodeError
  short_total_len : ℕ → WalDecodeError
  bad_block_id : ℕ → WalDecodeError
  same_rel_without_prev : WalDecodeError
  bad_fork : ℕ → WalDecodeError
  bad_page_magic : ℕ → ℕ → WalDecodeError
  bad_image_size : ℕ → ℕ → WalDecodeError
  decompress : Compression → WalDecodeError
  bad_hole : ℕ → ℕ → WalDecodeError

pub record DecodedImage : Type 0 where
  pub bytes : Bytes
  pub hole_offset : ℕ
  pub hole_length : ℕ
  pub compression : Compression
  pub apply : Bool

pub record DecodedBlock : Type 0 where
  pub rel : RelTag
  pub blkno : ℕ
  pub will_init : Bool
  pub image : Option DecodedImage
  pub block_data : Bytes

pub record DecodedWalRecord : Type 0 where
  pub lsn : Lsn
  pub rmid : ℕ
  pub info : ℕ
  pub xid : ℕ
  pub main_data : Bytes
  pub blocks : List DecodedBlock

-- A little-endian number: `from_le_bytes`.
abbrev pub from_le : Bytes → ℕ
from_le [] = 0
from_le (b ∷ bs) = b + 256 * from_le bs
