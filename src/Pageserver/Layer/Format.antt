-- ===== src/Pageserver/Layer/Format.antt =====
-- pageserver/src/layer.rs: the file format of a layer, which the offload writes.
use aethel_db.Prelude.{
  ℕ, zero, suc, ◌%◌, ◌^◌, ◌<◌, ◌≡◌, refl, ap, subst, sym, ◌∙◌, arith, not, [], ◌∷◌, ◌++◌, length,
  ◌==◌, if◌then◌else◌, append_assoc, All, append-nil,
}
use aethel_db.Result.{Result, ok, err, ◌>>=◌}
use aethel_db.Ord.{pair_ord, nat_ord}
use aethel_db.Ord.Map.{insert, insert-last, IsSorted}
use aethel_db.Common.Bytes.{Bytes, be}
use aethel_db.Common.Lsn.{Lsn}
use aethel_db.Common.Page.{PageKey, page_key_ord}
use aethel_db.Pageserver.Page.{PageVersion, PageError, truncated, bad_version_tag}
use aethel_db.Pageserver.Codec.{
  read_byte, read_u32, read_u64, read_version, write_version, read_place, write_place,
}
use aethel_db.Pageserver.Codec.RoundTrip.{
  IsVersion, IsPlace, read_uint-be, read_place-write_place, read_version-write_version,
}
use aethel_db.Pageserver.Layer.{Layer, Entries}

abbrev pub layer_magic : ℕ
layer_magic = 1397771313

abbrev pub layer_version : ℕ
layer_version = 1

unfoldable pub write_entries : Entries → Bytes
write_entries [] = []
write_entries (((key, lsn), version) ∷ es) =
    write_place key.rel key.block lsn (write_version version ++ write_entries es)

unfoldable pub serialize : Layer → Bytes
serialize layer =
    be 4 layer_magic
    ++ (layer_version
        ∷ (be 8 layer.id ++ (be 4 (length layer.entries % 2 ^ 32) ++ write_entries layer.entries)))

-- The loop that fills the map `entries`.
unfoldable pub read_entries : ℕ → Entries → Bytes → Result PageError Entries
read_entries zero entries buf = ok entries
read_entries (suc count) entries buf = read_place buf >>= λ place.
    read_version place.1 >>= λ version.
    read_entries count
      (insert (record { rel = place.0.0; block = place.0.1.0 }, place.0.1.1) version.0 entries)
      version.1

unfoldable pub deserialize : Bytes → Result PageError Layer
deserialize buf = read_u32 buf >>= λ magic.
    if not (magic.0 == layer_magic)
    then err (truncated "layer magic")
    else read_byte "layer version" magic.1 >>= λ ver.
        if not (ver.0 == layer_version)
        then err (bad_version_tag ver.0)
        else read_u64 ver.1 >>= λ id. read_u32 id.1 >>= λ count.
            read_entries count.0 [] count.1 >>= λ entries.
            ok (record { id = id.0; entries = entries })

-- Every entry is within the widths of the format.
abbrev pub IsEntry : (PageKey × Lsn) × PageVersion → Type 0
IsEntry ((key, lsn), version) = IsPlace key.rel key.block lsn × IsVersion version

-- What the memtable hands over: a sorted map, with identifiers and sizes within their widths.
abbrev pub IsLayer : Layer → Type 0
IsLayer layer =
    (layer.id < 2 ^ 64)
    × (length layer.entries < 2 ^ 32)
    × IsSorted layer.entries
    × All IsEntry layer.entries

read_entries-write_entries :
    (before es : Entries)
    → IsSorted (before ++ es)
    → All IsEntry es
    → read_entries (length es) before (write_entries es) ≡ ok (before ++ es)
unfolding read_entries write_entries
read_entries-write_entries before [] s is = ap ok (sym (append-nil before))
read_entries-write_entries before (((key, lsn), version) ∷ es) s is =
    let e : (PageKey × Lsn) × PageVersion = ((key, lsn), version) in
    let joined : (before ++ (e ∷ [])) ++ es ≡ before ++ (e ∷ es) =
      append_assoc before (e ∷ []) es in
    rw
      (
        read_place-write_place key.rel key.block lsn (write_version version ++ write_entries es)
            is.0.0,
        read_version-write_version version (write_entries es) is.0.1,
        insert-last (key, lsn) version before es s,
      )
      (read_entries-write_entries (before ++ (e ∷ [])) es (subst IsSorted (sym joined) s) is.1
        ∙ ap ok joined)

-- A layer whose entries are sorted, and whose parts are within the widths of the format, survives
-- being written to a file and read back.
pub deserialize-serialize :
    (layer : Layer) → IsLayer layer → deserialize (serialize layer) ≡ ok layer
unfolding deserialize serialize read_byte
deserialize-serialize layer (id, short, s, is) =
    let n : length layer.entries % 2 ^ 32 ≡ length layer.entries = omega arith in
    rw
      (
        n,
        read_uint-be "u32" 4 layer_magic _ (omega arith),
        read_uint-be "u64" 8 layer.id _ id,
        read_uint-be "u32" 4 (length layer.entries) (write_entries layer.entries) short,
        read_entries-write_entries [] layer.entries s is,
      )
      refl
