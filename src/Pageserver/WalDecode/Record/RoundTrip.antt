-- ===== src/Pageserver/WalDecode/Record/RoundTrip.antt =====
-- `decode_wal_record` on records that were written by the layout.
use aethel_db.Prelude.{
  ℕ, zero, suc, ◌+◌, ◌^◌, ◌≤◌, ◌<◌, ◌≡◌, refl, sym, ap, ◌∙◌, arith, inl, inr, true, false, not,
  Option, none, some, List, [], ◌∷◌, ◌++◌, length, ltb, leb, ◌==◌, if◌then◌else◌, String,
  length-append, append_assoc, append-nil, Bool-cases,
}
use aethel_db.Result.{ok}
use aethel_db.Common.Bytes.{Bytes}
use aethel_db.Pageserver.WalDecode.{DecodedImage, DecodedBlock, DecodedWalRecord}
use aethel_db.Pageserver.WalDecode.Record.{
  take_bytes, skip, Locator, BlockWork, headers, block_image, block_bodies, sections,
  decode_wal_record,
}
use aethel_db.Pageserver.WalDecode.Record.Layout.{
  le, locator_of, has_data, write_block_header, write_block_headers, write_main_length, image_bytes,
  write_bodies, write_sections, write_record, IsBlock, AreBlocks, meta_of, work_of,
}
use aethel_db.Pageserver.WalDecode.Record.Fields.{
  length-le, take_bytes-append, number-append, u8-cons, then_ok, block_header-written,
}

-- The last header is the length of the main data.
main-written :
    (fuel : ℕ) (last : Option Locator) (acc : List BlockWork) (n : ℕ) (rest : Bytes)
    → n < 2 ^ 32
    → headers (suc fuel) last acc (write_main_length n ++ rest) ≡ ok ((n, acc), rest)
unfolding headers write_main_length
main-written fuel last acc n rest h = elim (Bool-cases (leb n 255)) [
  | inl e ↦ rw e (
      then_ok _ _ _ _ (u8-cons "block_id" 255 (n ∷ rest))
        (then_ok _ _ _ _ (u8-cons "main_data_len" n rest) refl))
  | inr e ↦ rw e (
      then_ok _ _ _ _ (u8-cons "block_id" 254 (le 4 n ++ rest))
        (then_ok _ _ _ _ (number-append 4 "main_data_len" n rest (omega arith)) refl))
]

abbrev works : List DecodedBlock → List BlockWork
works [] = []
works (b ∷ bs) = work_of b ∷ works bs

-- One round of the loop over the headers takes one block.
round-written :
    (fuel id : ℕ) (last : Option Locator) (acc : List BlockWork) (b : DecodedBlock) (rest : Bytes)
    → id ≤ 32
    → IsBlock b
    → headers (suc fuel) last acc (id ∷ (write_block_header last b ++ rest))
      ≡ headers fuel (some (locator_of b.rel)) (acc ++ (work_of b ∷ [])) rest
unfolding headers
round-written fuel id last acc b rest le h =
    let e5 : (id == 255) ≡ false = ground arith in
    let e4 : (id == 254) ≡ false = ground arith in
    let e3 : (id == 253) ≡ false = ground arith in
    let e2 : (id == 252) ≡ false = ground arith in
    let e1 : leb id 32 ≡ true = ground arith in
    then_ok _ _ _ _ (u8-cons "block_id" id (write_block_header last b ++ rest))
      (rw (e5, e4, e3, e2, e1) (then_ok _ _ _ _ (block_header-written last b rest h) refl))

headers-written :
    (fuel id : ℕ) (last : Option Locator) (acc : List BlockWork) (bs : List DecodedBlock) (n : ℕ)
    (rest : Bytes)
    → suc (length bs) ≤ fuel
    → id + length bs ≤ 33
    → AreBlocks bs
    → n < 2 ^ 32
    → headers fuel last acc (write_block_headers id last bs ++ (write_main_length n ++ rest))
      ≡ ok ((n, acc ++ works bs), rest)
unfolding write_block_headers
headers-written zero id last acc bs n rest f le h w = absurd (omega arith)
headers-written (suc fuel) id last acc [] n rest f le h w =
    rw (append-nil acc) (main-written fuel last acc n rest w)
headers-written (suc fuel) id last acc (b ∷ bs) n rest f le (h, hs) w =
    ap (λ c. headers (suc fuel) last acc (id ∷ c))
      (append_assoc (write_block_header last b) _ (write_main_length n ++ rest))
    ∙ (round-written fuel id last acc b _ (omega arith) h
        ∙ (headers-written fuel (id + 1) (some (locator_of b.rel)) (acc ++ (work_of b ∷ [])) bs n
              rest (omega arith) (omega arith) hs w
            ∙ ap (λ l. ok ((n, l), rest)) (append_assoc acc (work_of b ∷ []) (works bs))))

image-written :
    (o : Option DecodedImage) (rest : Bytes)
    → block_image (meta_of o) (image_bytes o ++ rest) ≡ ok (o, rest)
unfolding block_image
image-written none rest = refl
image-written (some img) rest =
    then_ok _ _ _ _ (take_bytes-append (length img.bytes) "block image" img.bytes rest refl) refl

data-written :
    (b : DecodedBlock) (rest : Bytes)
    → (if has_data b
        then take_bytes (length b.block_data) "block data" (b.block_data ++ rest)
        else ok ([], b.block_data ++ rest))
      ≡ ok (b.block_data, rest)
data-written b rest = by_bytes b.block_data
  where
    by_bytes :
        (xs : Bytes)
        → (if not (length xs == 0)
            then take_bytes (length xs) "block data" (xs ++ rest)
            else ok ([], xs ++ rest))
          ≡ ok (xs, rest)
    by_bytes [] = refl
    by_bytes (x ∷ xs) =
        let some_data : (length (x ∷ xs) == 0) ≡ false = ground arith in
        rw some_data (take_bytes-append (length (x ∷ xs)) "block data" (x ∷ xs) rest refl)

bodies-written :
    (bs : List DecodedBlock) (rest : Bytes)
    → block_bodies (works bs) (write_bodies bs ++ rest) ≡ ok (bs, rest)
unfolding block_bodies write_bodies
bodies-written [] rest = refl
bodies-written (b ∷ bs) rest =
    let e : (image_bytes b.image ++ (b.block_data ++ write_bodies bs)) ++ rest
        ≡ image_bytes b.image ++ (b.block_data ++ (write_bodies bs ++ rest)) =
      append_assoc (image_bytes b.image) _ rest
      ∙ ap (λ l. image_bytes b.image ++ l) (append_assoc b.block_data (write_bodies bs) rest) in
    rw e (
      then_ok _ _ _ _ (image-written b.image _)
        (then_ok _ _ _ _ (data-written b _) (then_ok _ _ _ _ (bodies-written bs rest) refl)))

-- A record that fits its widths.
abbrev pub IsRecord : DecodedWalRecord → Type 0
IsRecord r =
    ((r.xid < 2 ^ 32) × (length r.main_data < 2 ^ 32))
    × ((length r.blocks ≤ 33) × ((24 + length (write_sections r) < 2 ^ 32) × AreBlocks r.blocks))

blocks_fuel :
    (id : ℕ) (last : Option Locator) (bs : List DecodedBlock)
    → length bs ≤ length (write_block_headers id last bs)
unfolding write_block_headers
blocks_fuel id last [] = omega arith
blocks_fuel id last (b ∷ bs) = omega (
  arith,
  length-append (write_block_header last b)
      (write_block_headers (id + 1) (some (locator_of b.rel)) bs),
  blocks_fuel (id + 1) (some (locator_of b.rel)) bs,
)

sections-written :
    (r : DecodedWalRecord)
    → IsRecord r
    → sections r.lsn r.xid r.info r.rmid (write_sections r) ≡ ok r
unfolding sections write_sections
sections-written r ((x, m), (n, (t, bs))) =
    let main = write_main_length (length r.main_data) ++ (write_bodies r.blocks ++ r.main_data) in
    let fuel = blocks_fuel 0 none r.blocks in
    then_ok _ _ _ _
      (headers-written _ 0 none [] r.blocks (length r.main_data) _
        (omega (arith, length-append (write_block_headers 0 none r.blocks) main)) (omega arith) bs
        m)
      (then_ok _ _ _ _ (bodies-written r.blocks r.main_data) (
        then_ok _ _ _ _
          (ap (take_bytes (length r.main_data) "main data") (sym (append-nil r.main_data))
            ∙ take_bytes-append (length r.main_data) "main data" r.main_data [] refl)
          refl))

length-write_record :
    (prev crc : ℕ) (r : DecodedWalRecord)
    → length (write_record prev crc r) ≡ 24 + length (write_sections r)
unfolding write_record
length-write_record prev crc r =
    let body = write_sections r in
    let total = 24 + length body in
    let e1 =
      length-append (le 4 total)
        (le 4 r.xid ++ (le 8 prev ++ (r.info ∷ r.rmid ∷ (le 2 0 ++ (le 4 crc ++ body))))) in
    let e2 =
      length-append (le 4 r.xid)
        (le 8 prev ++ (r.info ∷ r.rmid ∷ (le 2 0 ++ (le 4 crc ++ body)))) in
    let e3 = length-append (le 8 prev) (r.info ∷ r.rmid ∷ (le 2 0 ++ (le 4 crc ++ body))) in
    let e4 = length-append (le 2 0) (le 4 crc ++ body) in
    let e5 = length-append (le 4 crc) body in
    omega (
      arith,
      length-le 4 total,
      length-le 4 r.xid,
      length-le 8 prev,
      length-le 2 0,
      length-le 4 crc,
    )

skip-append :
    (n : ℕ) (what : String) (xs rest : Bytes) → length xs ≡ n → skip n what (xs ++ rest) ≡ ok rest
unfolding skip
skip-append n what xs rest h = then_ok _ _ _ _ (take_bytes-append n what xs rest h) refl

-- A record whose fields are within their widths, with at most 33 blocks and uncompressed images that
-- are pages without their hole, is decoded as it was written, whatever the position of the record
-- before it and the checksum are.
pub decode_wal_record-write_record :
    (prev crc : ℕ) (r : DecodedWalRecord)
    → prev < 2 ^ 64
    → crc < 2 ^ 32
    → IsRecord r
    → decode_wal_record r.lsn (write_record prev crc r) ≡ ok r
unfolding decode_wal_record write_record
decode_wal_record-write_record prev crc r p c h =
    let total = 24 + length (write_sections r) in
    let long : ltb total 24 ≡ false = ground arith in
    let exact : (total == length (write_record prev crc r)) ≡ true =
      ground (arith, length-write_record prev crc r) in
    then_ok _ _ _ _ (number-append 4 "xl_tot_len" total _ (omega arith)) (
      then_ok _ _ _ _ (number-append 4 "xl_xid" r.xid _ (omega arith)) (
        then_ok _ _ _ _ (number-append 8 "xl_prev" prev _ (omega arith)) (
          then_ok _ _ _ _ (u8-cons "xl_info" r.info _) (
            then_ok _ _ _ _ (u8-cons "xl_rmid" r.rmid _) (
              then_ok _ _ _ _ (skip-append 2 "xl_padding" (le 2 0) _ (length-le 2 0)) (
                then_ok _ _ _ _ (number-append 4 "xl_crc" crc _ (omega arith))
                  (rw (long, exact) (sections-written r h))))))))
