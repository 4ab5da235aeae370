-- ===== src/Common/WalService.antt =====
-- common/src/wal_service.rs: the protocol that carries the log, read requests and votes. Identifiers
-- stand on the wire as their 16 bytes.
pub mod RoundTrip
pub mod Framing
use aethel_db.Prelude.{
  ℕ, ◌+◌, ◌%◌, ◌^◌, Bool, true, false, not, ◌&&◌, ◌||◌, List, [], ◌∷◌, ◌++◌, length, ltb, ◌==◌,
  if◌then◌else◌,
}
use aethel_db.Result.{Result, ok, err, ◌>>=◌}
use aethel_db.Common.Bytes.{Bytes, put_all, slice, get}
use aethel_db.Common.Ids.{TenantId, TimelineId}
use aethel_db.Common.Lsn.{Lsn}

-- `Error::parse`, by its messages.
pub data WireError : Type 0 where
  prefix_too_short bad_magic unsupported_version unexpected_type : WireError
  header_too_short payload_truncated bad_response_header : WireError

abbrev pub magic : ℕ
magic = 1398230065

abbrev pub version : ℕ
version = 1

abbrev pub type_append : ℕ
type_append = 1

abbrev pub type_read : ℕ
type_read = 2

abbrev pub type_replicate : ℕ
type_replicate = 3

abbrev pub type_vote : ℕ
type_vote = 4

abbrev pub status_ok : ℕ
status_ok = 0

abbrev pub status_stale_term : ℕ
status_stale_term = 1

abbrev pub status_rejected : ℕ
status_rejected = 2

unfoldable pub message_type : Bytes → Result WireError ℕ
message_type prefix =
    if ltb (length prefix) 8
    then err prefix_too_short
    else get 4 0 prefix >>= λ m.
        if not (m == magic)
        then err bad_magic
        else get 1 4 prefix >>= λ v.
            if not (v == version) then err unsupported_version else get 1 5 prefix

pub record AppendRequest : Type 0 where
  pub tenant : TenantId
  pub timeline : TimelineId
  pub term : ℕ
  pub start_lsn : Lsn
  pub payload : Bytes

pub record AppendResponse : Type 0 where
  pub status : ℕ
  pub term : ℕ
  pub flush_lsn : Lsn
  pub commit_lsn : Lsn

pub record ReadRequest : Type 0 where
  pub tenant : TenantId
  pub timeline : TimelineId
  pub start_lsn : Lsn
  pub max_bytes : ℕ

pub record ReadResponse : Type 0 where
  pub status : ℕ
  pub commit_lsn : Lsn
  pub start_lsn : Lsn
  pub payload : Bytes

pub record VoteRequest : Type 0 where
  pub tenant : TenantId
  pub timeline : TimelineId
  pub term : ℕ
  pub candidate : ℕ

pub record VoteResponse : Type 0 where
  pub granted : Bool
  pub term : ℕ
  pub flush_lsn : Lsn

-- The magic, the version, the byte that follows them and the two reserved bytes.
abbrev pub prefix_fields : ℕ → List (ℕ × ℕ) → List (ℕ × ℕ)
prefix_fields tag fs = (4, magic) ∷ (1, version) ∷ (1, tag) ∷ (1, 0) ∷ (1, 0) ∷ fs

-- `payload.len() as u32` cuts the length off at 32 bits.
abbrev pub append_fields : ℕ → AppendRequest → List (ℕ × ℕ)
append_fields msg_type r = prefix_fields msg_type (
    (16, r.tenant)
    ∷ (16, r.timeline)
    ∷ (8, r.term)
    ∷ (8, r.start_lsn)
    ∷ (4, length r.payload % 2 ^ 32)
    ∷ [])

unfoldable pub encode_as : ℕ → AppendRequest → Bytes
encode_as msg_type r = put_all (append_fields msg_type r) ++ r.payload

unfoldable pub payload_len : Bytes → Result WireError ℕ
payload_len header =
    if ltb (length header) 60
    then err header_too_short
    else get 4 0 header >>= λ m.
        if not (m == magic)
        then err bad_magic
        else get 1 4 header >>= λ v.
            if not (v == version)
            then err unsupported_version
            else get 1 5 header >>= λ t.
                if not (t == type_append) && not (t == type_replicate)
                then err unexpected_type
                else get 4 56 header

unfoldable pub decode_append : Bytes → Result WireError AppendRequest
decode_append buf = payload_len buf >>= λ plen.
    if ltb (length buf) (60 + plen)
    then err payload_truncated
    else get 16 8 buf >>= λ tenant. get 16 24 buf >>= λ timeline. get 8 40 buf >>= λ term.
        get 8 48 buf >>= λ start_lsn. slice 60 plen buf >>= λ payload. ok (record {
          tenant = tenant;
          timeline = timeline;
          term = term;
          start_lsn = start_lsn;
          payload = payload;
        })

-- The sum wraps at 64 bits.
unfoldable pub end_lsn : AppendRequest → Lsn
end_lsn r = (r.start_lsn + length r.payload) % 2 ^ 64

abbrev pub append_response_fields : AppendResponse → List (ℕ × ℕ)
append_response_fields r =
    prefix_fields r.status ((8, r.term) ∷ (8, r.flush_lsn) ∷ (8, r.commit_lsn) ∷ [])

unfoldable pub encode_append_response : AppendResponse → Bytes
encode_append_response r = put_all (append_response_fields r)

-- The test that opens the decoders of the responses: `get_u32(buf, 0) != MAGIC || buf[4] != VERSION`.
unfoldable pub bad_response : Bytes → Result WireError Bool
bad_response buf = get 4 0 buf >>= λ m.
    if not (m == magic) then ok true else get 1 4 buf >>= λ v. ok (not (v == version))

unfoldable pub decode_append_response : Bytes → Result WireError AppendResponse
decode_append_response buf =
    if ltb (length buf) 32
    then err header_too_short
    else bad_response buf >>= λ bad.
        if bad
        then err bad_response_header
        else get 1 5 buf >>= λ status. get 8 8 buf >>= λ term. get 8 16 buf >>= λ flush_lsn.
            get 8 24 buf >>= λ commit_lsn. ok (record {
              status = status;
              term = term;
              flush_lsn = flush_lsn;
              commit_lsn = commit_lsn;
            })

abbrev pub read_fields : ReadRequest → List (ℕ × ℕ)
read_fields r =
    prefix_fields type_read
      ((16, r.tenant) ∷ (16, r.timeline) ∷ (8, r.start_lsn) ∷ (4, r.max_bytes) ∷ [])

unfoldable pub encode_read : ReadRequest → Bytes
encode_read r = put_all (read_fields r)

unfoldable pub decode_read : Bytes → Result WireError ReadRequest
decode_read buf =
    if ltb (length buf) 52
    then err header_too_short
    else message_type buf >>= λ t.
        if not (t == type_read)
        then err unexpected_type
        else get 16 8 buf >>= λ tenant. get 16 24 buf >>= λ timeline. get 8 40 buf >>= λ start_lsn.
            get 4 48 buf >>= λ max_bytes. ok (record {
              tenant = tenant;
              timeline = timeline;
              start_lsn = start_lsn;
              max_bytes = max_bytes;
            })

abbrev pub read_response_fields : ReadResponse → List (ℕ × ℕ)
read_response_fields r =
    prefix_fields r.status
      ((8, r.commit_lsn) ∷ (8, r.start_lsn) ∷ (4, length r.payload % 2 ^ 32) ∷ [])

unfoldable pub encode_read_response : ReadResponse → Bytes
encode_read_response r = put_all (read_response_fields r) ++ r.payload

unfoldable pub response_payload_len : Bytes → Result WireError ℕ
response_payload_len header =
    if ltb (length header) 28
    then err header_too_short
    else bad_response header >>= λ bad. if bad then err bad_response_header else get 4 24 header

unfoldable pub decode_read_response : Bytes → Result WireError ReadResponse
decode_read_response buf = response_payload_len buf >>= λ plen.
    if ltb (length buf) (28 + plen)
    then err payload_truncated
    else get 1 5 buf >>= λ status. get 8 8 buf >>= λ commit_lsn. get 8 16 buf >>= λ start_lsn.
        slice 28 plen buf >>= λ payload. ok (record {
          status = status;
          commit_lsn = commit_lsn;
          start_lsn = start_lsn;
          payload = payload;
        })

abbrev pub vote_fields : VoteRequest → List (ℕ × ℕ)
vote_fields r =
    prefix_fields type_vote
      ((16, r.tenant) ∷ (16, r.timeline) ∷ (8, r.term) ∷ (8, r.candidate) ∷ [])

unfoldable pub encode_vote : VoteRequest → Bytes
encode_vote r = put_all (vote_fields r)

unfoldable pub decode_vote : Bytes → Result WireError VoteRequest
decode_vote buf =
    if ltb (length buf) 56
    then err header_too_short
    else message_type buf >>= λ t.
        if not (t == type_vote)
        then err unexpected_type
        else get 16 8 buf >>= λ tenant. get 16 24 buf >>= λ timeline. get 8 40 buf >>= λ term.
            get 8 48 buf >>= λ candidate.
            ok (record { tenant = tenant; timeline = timeline; term = term; candidate = candidate })

-- `self.granted as u8`
abbrev pub flag : Bool → ℕ
flag true = 1
flag false = 0

abbrev pub vote_response_fields : VoteResponse → List (ℕ × ℕ)
vote_response_fields r = prefix_fields (flag r.granted) ((8, r.term) ∷ (8, r.flush_lsn) ∷ [])

unfoldable pub encode_vote_response : VoteResponse → Bytes
encode_vote_response r = put_all (vote_response_fields r)

unfoldable pub decode_vote_response : Bytes → Result WireError VoteResponse
decode_vote_response buf =
    if ltb (length buf) 24
    then err header_too_short
    else bad_response buf >>= λ bad.
        if bad
        then err bad_response_header
        else get 1 5 buf >>= λ granted. get 8 8 buf >>= λ term. get 8 16 buf >>= λ flush_lsn.
            ok (record { granted = not (granted == 0); term = term; flush_lsn = flush_lsn })
