-- ===== src/Pageserver/WalDecode/Stream.antt =====
-- `WalStreamDecoder`: it frames a byte stream into records. The source indexes its buffer by an
-- offset; here the loop has the bytes from that offset on, and counts the offset. All positions wrap
-- at 64 bits.
pub mod Payload
pub mod Fuel
pub mod Collected
pub mod Chunks
pub mod Polls
use aethel_db.Prelude.{
  ℕ, zero, suc, ◌+◌, ◌-◌, ◌*◌, ◌/◌, ◌%◌, ◌^◌, min, Bool, true, false, not, Option, none, some, List,
  [], ◌∷◌, ◌++◌, length, take, drop, ltb, ◌==◌, if◌then◌else◌,
}
use aethel_db.Result.{Result, ok, err, panic, ◌>>=◌}
use aethel_db.Common.Bytes.{Bytes, slice}
use aethel_db.Common.Lsn.{Lsn}
use aethel_db.Pageserver.WalDecode.{
  WalDecodeError, bad_page_magic, xlog_blcksz, size_of_xlog_record, size_of_xlog_short_phd,
  size_of_xlog_long_phd, default_wal_seg_size, xlog_page_magic_pg16, from_le,
}

-- `WalStreamDecoder`
pub record Decoder : Type 0 where
  pub lsn : Lsn
  pub wal_seg_size : ℕ
  pub check_magic : Bool
  pub buf : Bytes

-- `WalStreamDecoder::new`
unfoldable pub new_decoder : Lsn → Decoder
new_decoder start_lsn = record {
  lsn = start_lsn;
  wal_seg_size = default_wal_seg_size;
  check_magic = true;
  buf = [];
}

unfoldable pub with_segment_size : ℕ → Decoder → Decoder
with_segment_size seg_size d = record d { wal_seg_size = seg_size }

unfoldable pub without_magic_check : Decoder → Decoder
without_magic_check d = record d { check_magic = false }

-- `feed_bytes`
unfoldable pub feed : Bytes → Decoder → Decoder
feed bytes d = record d { buf = d.buf ++ bytes }

unfoldable pub page_header_size : Decoder → Lsn → ℕ
page_header_size d lsn =
    if lsn % d.wal_seg_size == 0 then size_of_xlog_long_phd else size_of_xlog_short_phd

-- The header at the front of some bytes. The flag that tells long headers is read, and then ignored.
unfoldable pub check_page_header : Decoder → Bytes → Result WalDecodeError (Unit {0})
check_page_header d bytes =
    if not d.check_magic
    then ok tt
    else slice 0 2 bytes >>= λ magic.
        if not (from_le magic == xlog_page_magic_pg16)
        then err (bad_page_magic (from_le magic) xlog_page_magic_pg16)
        else slice 2 2 bytes >>= λ info. ok tt

-- What `collect_payload` returns of enough bytes: the payload, the raw bytes that it spans, and the
-- position of its first byte.
abbrev pub Payload : Type 0
Payload = Bytes × (ℕ × Lsn)

abbrev pub or_here : Option Lsn → Lsn → Lsn
or_here none lsn = lsn
or_here (some first) lsn = first

-- One round of the loop of `collect_payload`: what is still to be collected, the bytes at the offset,
-- the offset, the position, the first payload position and the output.
pub record Collect : Type 0 where
  pub left : ℕ
  pub bytes : Bytes
  pub off : ℕ
  pub pos : Lsn
  pub first : Option Lsn
  pub out : Bytes

-- A page header is skipped.
unfoldable pub skip_header : ℕ → Collect → Collect
skip_header h c = record c { bytes = drop h c.bytes; off = c.off + h; pos = (c.pos + h) % 2 ^ 64 }

-- Payload bytes are taken, up to the end of the page.
unfoldable pub take_payload : ℕ → Bytes → Collect → Collect
take_payload want payload c = record {
  left = c.left - want;
  bytes = drop want c.bytes;
  off = c.off + want;
  pos = (c.pos + want) % 2 ^ 64;
  first = some (or_here c.first c.pos);
  out = c.out ++ payload;
}

-- How many payload bytes this page still has for the collection.
abbrev pub wanted : Collect → ℕ
wanted c = min c.left (xlog_blcksz - c.pos % xlog_blcksz)

-- The loop. Running out of fuel is the outcome `panic`.
unfoldable pub collect : ℕ → Decoder → Collect → Result WalDecodeError (Option Payload)
collect zero d c = if c.left == 0 then ok (some (c.out, (c.off, or_here c.first c.pos))) else panic
collect (suc fuel) d c =
    let h = page_header_size d c.pos in
    let past_header = collect fuel d (skip_header h c) in
    let past_payload = λ (payload : Bytes). collect fuel d (take_payload (wanted c) payload c) in
    if c.left == 0
    then ok (some (c.out, (c.off, or_here c.first c.pos)))
    else if c.pos % xlog_blcksz == 0
    then (if ltb (length c.bytes) h
        then ok none
        else check_page_header d c.bytes >>= λ _. past_header)
    else if ltb (length c.bytes) (wanted c)
    then ok none
    else slice 0 (wanted c) c.bytes >>= past_payload

abbrev pub start : Decoder → ℕ → Collect
start d n = record { left = n; bytes = d.buf; off = 0; pos = d.lsn; first = none; out = [] }

-- Two rounds collect one byte at least.
unfoldable pub collect_payload : Decoder → ℕ → Result WalDecodeError (Option Payload)
collect_payload d n = collect (2 * n) d (start d n)

-- The decoder without the first bytes of its buffer.
abbrev pub without : ℕ → Decoder → Decoder
without raw d = record d { lsn = (d.lsn + raw) % 2 ^ 64; buf = drop raw d.buf }

-- `buf.drain(0..raw)` of more bytes than there are panics.
unfoldable pub consume : ℕ → Decoder → Result WalDecodeError Decoder
consume raw d = if ltb (length d.buf) raw then panic else ok (without raw d)

-- What one round of the loop of `poll_decode` comes to: more bytes are needed, the rest of a page is
-- skipped, a record is found, or an error ends it.
pub data Round : Type 0 where
  need : Decoder → Round
  again : Decoder → Round
  found : Lsn → Bytes → Decoder → Round
  failed : WalDecodeError → Decoder → Round
  broken : Decoder → Round

-- The padding in front of a record; `none` where it is not there yet.
unfoldable pub align : Decoder → Result WalDecodeError (Option Decoder)
align d =
    let misalign = d.lsn % 8 in
    if misalign == 0
    then ok (some d)
    else if ltb (length d.buf) (8 - misalign)
    then ok none
    else consume (8 - misalign) d >>= λ d'. ok (some d')

-- What follows a call of `consume`, whose panic ends the round.
unfoldable pub on_consumed : Decoder → (Decoder → Round) → Result WalDecodeError Decoder → Round
on_consumed d f (ok d') = f d'
on_consumed d f (err e) = failed e d
on_consumed d f panic = broken d

unfoldable pub skip_page : Decoder → Lsn → Round
skip_page d rec_lsn =
    let next_page = (rec_lsn / xlog_blcksz + 1) * xlog_blcksz in
    let skip = (next_page + 2 ^ 64 - d.lsn) % 2 ^ 64 in
    if ltb (length d.buf) skip then need d else on_consumed d again (consume skip d)

unfoldable pub on_record : Decoder → Result WalDecodeError (Option Payload) → Round
on_record d (ok (some (rec, (raw, rec_lsn)))) = on_consumed d (found rec_lsn rec) (consume raw d)
on_record d (ok none) = need d
on_record d (err e) = failed e d
on_record d panic = broken d

-- `u32::from_le_bytes([len_bytes[0], ..])`, which panics where a byte is missing.
unfoldable pub on_tot_len : Decoder → Lsn → Result WalDecodeError Bytes → Round
on_tot_len d rec_lsn (ok len_bytes) =
    if ltb (from_le len_bytes) size_of_xlog_record
    then skip_page d rec_lsn
    else on_record d (collect_payload d (from_le len_bytes))
on_tot_len d rec_lsn (err e) = failed e d
on_tot_len d rec_lsn panic = broken d

unfoldable pub on_length : Decoder → Result WalDecodeError (Option Payload) → Round
on_length d (ok (some (len_bytes, (raw, rec_lsn)))) = on_tot_len d rec_lsn (slice 0 4 len_bytes)
on_length d (ok none) = need d
on_length d (err e) = failed e d
on_length d panic = broken d

unfoldable pub on_aligned : Decoder → Result WalDecodeError (Option Decoder) → Round
on_aligned d (ok none) = need d
on_aligned d (ok (some a)) = on_length a (collect_payload a 4)
on_aligned d (err e) = failed e d
on_aligned d panic = broken d

unfoldable pub round : Decoder → Round
round d = on_aligned d (align d)

abbrev pub Polled : Type 0
Polled = Result WalDecodeError (Option (Lsn × Bytes)) × Decoder

-- What a round comes to for the caller; `go` runs the rounds that follow.
unfoldable pub settle : (Decoder → Polled) → Round → Polled
settle go (need d) = (ok none, d)
settle go (again d) = go d
settle go (found lsn rec d) = (ok (some (lsn, rec)), d)
settle go (failed e d) = (err e, d)
settle go (broken d) = (panic, d)

-- The loop. Running out of fuel is the outcome `panic`.
unfoldable pub poll : ℕ → Decoder → Polled
poll zero d = (panic, d)
poll (suc fuel) d = settle (poll fuel) (round d)

-- Every round that goes on has consumed a byte at least.
unfoldable pub poll_decode : Decoder → Polled
poll_decode d = poll (suc (length d.buf)) d
