-- ===== src/Common/PageService.antt =====
-- common/src/page_service.rs: the protocol between a compute node and the page server. Identifiers
-- stand on the wire as their 16 bytes; the text of an error is the bytes of its UTF-8.
pub mod RoundTrip
use aethel_db.Prelude.{
  ℕ, ◌+◌, ◌%◌, ◌^◌, Bool, true, false, not, ◌&&◌, Option, none, some, List, [], ◌∷◌, ◌++◌, length,
  ltb, ◌==◌, if◌then◌else◌,
}
use aethel_db.Result.{Result, ok, err, ◌>>=◌}
use aethel_db.Common.Bytes.{Bytes, put_all, slice, get}
use aethel_db.Common.Ids.{TenantId, TimelineId}
use aethel_db.Common.Lsn.{Lsn}
use aethel_db.Common.Page.{ForkNumber, fork_raw, from_raw, RelTag, page_size}

-- `Error::parse`, by its messages.
pub data ServiceError : Type 0 where
  bad_protocol_magic unsupported_protocol_version header_short : ServiceError
  unknown_request_type invalid_fork request_truncated : ServiceError
  response_short response_truncated unexpected_length unknown_status : ServiceError

abbrev pub page_magic : ℕ
page_magic = 1397770033

abbrev pub page_version : ℕ
page_version = 1

abbrev pub type_get_page : ℕ
type_get_page = 1

abbrev pub type_get_rel_size : ℕ
type_get_rel_size = 2

abbrev pub reply_ok : ℕ
reply_ok = 0

abbrev pub reply_not_found : ℕ
reply_not_found = 1

abbrev pub reply_error : ℕ
reply_error = 2

-- `Request::GetPage` with its block and LSN, and `Request::GetRelSize` with its LSN.
pub data Request : Type 0 where
  get_page_request : TenantId → TimelineId → RelTag → ℕ → Lsn → Request
  get_rel_size_request : TenantId → TimelineId → RelTag → Lsn → Request

-- `Response`
pub data Response : Type 0 where
  page_reply : Bytes → Response
  rel_size_reply : ℕ → Response
  not_found_reply : Response
  error_reply : Bytes → Response

-- The header and the fields that both requests start with.
abbrev pub common_fields : ℕ → TenantId → TimelineId → RelTag → List (ℕ × ℕ) → List (ℕ × ℕ)
common_fields tag tenant timeline rel fs =
    (4, page_magic)
    ∷ (1, page_version)
    ∷ (1, tag)
    ∷ (1, fork_raw rel.fork)
    ∷ (1, 0)
    ∷ (16, tenant)
    ∷ (16, timeline)
    ∷ (4, rel.spc_node)
    ∷ (4, rel.db_node)
    ∷ (4, rel.rel_node)
    ∷ fs

abbrev pub request_fields : Request → List (ℕ × ℕ)
request_fields (get_page_request tenant timeline rel block lsn) =
    common_fields type_get_page tenant timeline rel ((4, block) ∷ (8, lsn) ∷ [])
request_fields (get_rel_size_request tenant timeline rel lsn) =
    common_fields type_get_rel_size tenant timeline rel ((8, lsn) ∷ [])

-- `Request::encode`
unfoldable pub encode_request : Request → Bytes
encode_request r = put_all (request_fields r)

-- The length of a message by its type, header included.
abbrev pub length_of : ℕ → Result ServiceError ℕ
length_of tag =
    if tag == type_get_page
    then ok 64
    else if tag == type_get_rel_size
    then ok 60
    else err unknown_request_type

-- The tests that `total_len` and both decoders start with.
unfoldable pub check_header : Bytes → Result ServiceError (Unit {0})
check_header buf = get 4 0 buf >>= λ m.
    if not (m == page_magic)
    then err bad_protocol_magic
    else get 1 4 buf >>= λ v.
        if not (v == page_version) then err unsupported_protocol_version else ok tt

unfoldable pub total_len : Bytes → Result ServiceError ℕ
total_len header =
    if ltb (length header) 8
    then err header_short
    else check_header header >>= λ _. get 1 5 header >>= length_of

abbrev pub fork_or_invalid : Option ForkNumber → Result ServiceError ForkNumber
fork_or_invalid none = err invalid_fork
fork_or_invalid (some fork) = ok fork

-- The relation in a request, from the bytes of its numbers.
unfoldable pub read_rel : ForkNumber → Bytes → Result ServiceError RelTag
read_rel fork buf = get 4 40 buf >>= λ spc. get 4 44 buf >>= λ db. get 4 48 buf >>= λ rel.
    ok (record { spc_node = spc; db_node = db; rel_node = rel; fork = fork })

-- The fields of a request of a known type.
unfoldable pub read_request : ℕ → ForkNumber → Bytes → Result ServiceError Request
read_request tag fork buf = get 16 8 buf >>= λ tenant. get 16 24 buf >>= λ timeline.
    read_rel fork buf >>= λ rel.
    if tag == type_get_page
    then (get 4 52 buf >>= λ block.
        get 8 56 buf >>= λ lsn. ok (get_page_request tenant timeline rel block lsn))
    else (get 8 52 buf >>= λ lsn. ok (get_rel_size_request tenant timeline rel lsn))

-- `Request::decode`
unfoldable pub decode_request : Bytes → Result ServiceError Request
decode_request buf =
    if ltb (length buf) 8
    then err header_short
    else check_header buf >>= λ _. get 1 5 buf >>= λ tag. get 1 6 buf >>= λ raw.
        fork_or_invalid (from_raw raw) >>= λ fork. length_of tag >>= λ expected.
        if ltb (length buf) expected then err request_truncated else read_request tag fork buf

abbrev pub reply_status : Response → ℕ
reply_status (page_reply page) = reply_ok
reply_status (rel_size_reply n) = reply_ok
reply_status not_found_reply = reply_not_found
reply_status (error_reply message) = reply_error

abbrev pub reply_payload : Response → Bytes
reply_payload (page_reply page) = page
reply_payload (rel_size_reply n) = put_all ((4, n) ∷ [])
reply_payload not_found_reply = []
reply_payload (error_reply message) = message

abbrev pub response_fields : Response → List (ℕ × ℕ)
response_fields r =
    (4, page_magic)
    ∷ (1, page_version)
    ∷ (1, reply_status r)
    ∷ (1, 0)
    ∷ (1, 0)
    ∷ (4, length (reply_payload r) % 2 ^ 32)
    ∷ []

-- `Response::encode`; the length is cut off at 32 bits.
unfoldable pub encode_response : Response → Bytes
encode_response r = put_all (response_fields r) ++ reply_payload r

module _ (from_utf8_lossy : Bytes → Bytes) where
  unfoldable pub read_response : ℕ → Bytes → Result ServiceError Response
  read_response status payload =
      if status == reply_ok
      then (if length payload == page_size
          then ok (page_reply payload)
          else if length payload == 4
          then (get 4 0 payload >>= λ n. ok (rel_size_reply n))
          else err unexpected_length)
      else if status == reply_not_found
      then ok not_found_reply
      else if status == reply_error
      then ok (error_reply (from_utf8_lossy payload))
      else err unknown_status

  -- `Response::decode`
  unfoldable pub decode_response : Bytes → Result ServiceError Response
  decode_response buf =
      if ltb (length buf) 12
      then err response_short
      else check_header buf >>= λ _. get 1 5 buf >>= λ status. get 4 8 buf >>= λ len.
          if ltb (length buf) (12 + len)
          then err response_truncated
          else slice 12 len buf >>= read_response status
