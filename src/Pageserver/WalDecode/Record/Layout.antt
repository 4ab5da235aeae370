-- ===== src/Pageserver/WalDecode/Record/Layout.antt =====
-- The layout of a record, written down independently of the decoder: the fixed header, the header of
-- each block with its image's, the length of the main data, then images, block data and main data.
use aethel_db.Prelude.{
  ℕ, zero, suc, ◌+◌, ◌*◌, ◌/◌, ◌%◌, ◌^◌, ◌<◌, ◌≡◌, Bool, true, false, not, ◌&&◌, Option, none, some,
  List, [], ◌∷◌, ◌++◌, length, leb, ◌==◌, if◌then◌else◌,
}
use aethel_db.Common.Bytes.{Bytes}
use aethel_db.Common.Page.{RelTag, fork_raw}
use aethel_db.Pageserver.WalDecode.{
  Compression, no_compression, pglz, lz4, zstd, DecodedImage, DecodedBlock, DecodedWalRecord,
}
use aethel_db.Pageserver.WalDecode.Record.{Locator, ImageMeta, BlockWork}

-- `to_le_bytes`, of so many bytes.
unfoldable pub le : ℕ → ℕ → Bytes
le zero v = []
le (suc n) v = v % 256 ∷ le n (v / 256)

abbrev pub bit : Bool → ℕ
bit false = 0
bit true = 1

abbrev pub method_bits : Compression → ℕ
method_bits no_compression = 0
method_bits pglz = 4
method_bits lz4 = 8
method_bits zstd = 16

abbrev pub compresses : Compression → Bool
compresses no_compression = false
compresses _ = true

abbrev pub has_hole : DecodedImage → Bool
has_hole img = not (img.hole_length == 0)

abbrev pub info_byte : DecodedImage → ℕ
info_byte img = bit (has_hole img) + 2 * bit img.apply + method_bits img.compression

-- The length of the hole is written where it does not follow from that of the image.
unfoldable pub write_image_header : Option DecodedImage → Bytes
write_image_header none = []
write_image_header (some img) =
    le 2 (length img.bytes)
    ++ (le 2 img.hole_offset
        ++ (info_byte img
            ∷ (if has_hole img && compresses img.compression then le 2 img.hole_length else [])))

abbrev pub is_some {ℓ} : {A : Type ℓ} → Option A → Bool
is_some none = false
is_some (some a) = true

abbrev pub locator_of : RelTag → Locator
locator_of rel = (rel.spc_node, (rel.db_node, rel.rel_node))

-- A block of the same relation as the one before it does not name it again.
abbrev pub same_locator : Option Locator → Locator → Bool
same_locator none loc = false
same_locator (some last) loc = (last.0 == loc.0) && ((last.1.0 == loc.1.0) && (last.1.1 == loc.1.1))

unfoldable pub write_locator : Bool → Locator → Bytes
write_locator true loc = []
write_locator false loc = le 4 loc.0 ++ (le 4 loc.1.0 ++ le 4 loc.1.1)

abbrev pub has_data : DecodedBlock → Bool
has_data b = not (length b.block_data == 0)

abbrev pub flags_byte : Bool → DecodedBlock → ℕ
flags_byte same b =
    fork_raw b.rel.fork
    + 16 * bit (is_some b.image)
    + 32 * bit (has_data b)
    + 64 * bit b.will_init
    + 128 * bit same

unfoldable pub write_block_header : Option Locator → DecodedBlock → Bytes
write_block_header last b =
    let same = same_locator last (locator_of b.rel) in
    flags_byte same b
    ∷ (le 2 (length b.block_data)
        ++ (write_image_header b.image ++ (write_locator same (locator_of b.rel) ++ le 4 b.blkno)))

-- The headers of blocks, with ids that count from `id`.
unfoldable pub write_block_headers : ℕ → Option Locator → List DecodedBlock → Bytes
write_block_headers id last [] = []
write_block_headers id last (b ∷ bs) =
    id ∷ (write_block_header last b ++ write_block_headers (id + 1) (some (locator_of b.rel)) bs)

unfoldable pub write_main_length : ℕ → Bytes
write_main_length n = if leb n 255 then 255 ∷ n ∷ [] else 254 ∷ le 4 n

abbrev pub image_bytes : Option DecodedImage → Bytes
image_bytes none = []
image_bytes (some img) = img.bytes

unfoldable pub write_bodies : List DecodedBlock → Bytes
write_bodies [] = []
write_bodies (b ∷ bs) = image_bytes b.image ++ (b.block_data ++ write_bodies bs)

unfoldable pub write_sections : DecodedWalRecord → Bytes
write_sections r =
    write_block_headers 0 none r.blocks
    ++ (write_main_length (length r.main_data) ++ (write_bodies r.blocks ++ r.main_data))

-- The record, with the position of the record before it and its checksum.
unfoldable pub write_record : ℕ → ℕ → DecodedWalRecord → Bytes
write_record prev crc r =
    le 4 (24 + length (write_sections r))
    ++ (le 4 r.xid ++ (le 8 prev ++ (r.info ∷ r.rmid ∷ (le 2 0 ++ (le 4 crc ++ write_sections r)))))

-- An image's fields are within their widths, and an uncompressed one is a page without its hole.
unfoldable pub IsImage : DecodedImage → Type 0
IsImage img =
    ((length img.bytes < 2 ^ 16) × (img.hole_offset < 2 ^ 16))
    × ((img.hole_length < 2 ^ 16)
        × ((compresses img.compression ≡ false)
            → (has_hole img ≡ true)
            → length img.bytes + img.hole_length ≡ 8192))

abbrev pub ImageIsValid : Option DecodedImage → Type 0
ImageIsValid none = Unit
ImageIsValid (some img) = IsImage img

-- A block's fields are within their widths.
abbrev pub IsBlock : DecodedBlock → Type 0
IsBlock b =
    (((b.rel.spc_node < 2 ^ 32) × (b.rel.db_node < 2 ^ 32))
      × ((b.rel.rel_node < 2 ^ 32) × (b.blkno < 2 ^ 32)))
    × ((length b.block_data < 2 ^ 16) × ImageIsValid b.image)

abbrev pub AreBlocks : List DecodedBlock → Type 0
AreBlocks [] = Unit
AreBlocks (b ∷ bs) = IsBlock b × AreBlocks bs

-- What the decoder knows of a block after the headers.
abbrev pub meta_of : Option DecodedImage → Option ImageMeta
meta_of none = none
meta_of (some img) = some (record {
  bimg_len = length img.bytes;
  hole_offset = img.hole_offset;
  hole_length = img.hole_length;
  compression = img.compression;
  apply = img.apply;
})

abbrev pub work_of : DecodedBlock → BlockWork
work_of b = record {
  rel = b.rel;
  blkno = b.blkno;
  will_init = b.will_init;
  has_data = has_data b;
  data_len = length b.block_data;
  image_meta = meta_of b.image;
}
