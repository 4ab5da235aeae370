-- ===== src/Common/PageService/RoundTrip.antt =====
-- Requests and replies of the page service, encoded and decoded.
use aethel_db.Prelude.{
  ℕ, ◌+◌, ◌%◌, ◌^◌, ◌<◌, ◌≡◌, refl, ap, ◌∙◌, arith, List, [], ◌∷◌, ◌++◌, length, append_assoc,
  length-append,
}
use aethel_db.Result.{ok}
use aethel_db.Common.Bytes.{
  Bytes, put_all, get-put_all, slice-put_all, long_enough, get-fields, length-put_all,
}
use aethel_db.Common.Ids.{TenantId, TimelineId}
use aethel_db.Common.Page.{ForkNumber, fork_raw, from_raw-fork_raw, RelTag, page_size}
use aethel_db.Common.PageService.{
  ServiceError, page_magic, page_version, Request, get_page_request, get_rel_size_request, Response,
  page_reply, rel_size_reply, not_found_reply, error_reply, common_fields, encode_request,
  check_header, read_rel, read_request, decode_request, type_get_page, type_get_rel_size,
  reply_status, reply_payload, response_fields, encode_response, read_response, decode_response,
}

abbrev pub IsRel : TenantId → TimelineId → RelTag → Type 0
IsRel tenant timeline rel =
    ((tenant < 2 ^ 128) × (timeline < 2 ^ 128))
    × ((rel.spc_node < 2 ^ 32) × ((rel.db_node < 2 ^ 32) × (rel.rel_node < 2 ^ 32)))

-- The fields of a request are within their widths.
abbrev pub IsRequest : Request → Type 0
IsRequest (get_page_request tenant timeline rel block lsn) =
    IsRel tenant timeline rel × ((block < 2 ^ 32) × (lsn < 2 ^ 64))
IsRequest (get_rel_size_request tenant timeline rel lsn) =
    IsRel tenant timeline rel × (lsn < 2 ^ 64)

fork_byte : (f : ForkNumber) → fork_raw f < 256
fork_byte f = ground arith

pub check_header-put_all :
    (fs : List (ℕ × ℕ)) (rest : Bytes)
    → check_header (put_all ((4, page_magic) ∷ (1, page_version) ∷ fs) ++ rest) ≡ ok tt
unfolding check_header
check_header-put_all fs rest =
    let at = get-put_all {E = ServiceError} ((4, page_magic) ∷ (1, page_version) ∷ fs) rest in
    rw
      (
        at 4 0 page_magic refl (omega arith) (omega arith),
        at 1 4 page_version refl (omega arith) (omega arith),
      )
      refl

-- A request with fields within their widths is decoded as it was encoded, whatever follows it.
pub decode_request-encode_request :
    (r : Request) (rest : Bytes) → IsRequest r → decode_request (encode_request r ++ rest) ≡ ok r
unfolding encode_request decode_request read_request read_rel
decode_request-encode_request (get_page_request tenant timeline rel block lsn) rest
      (((t, l), (s, (d, n))), (b, u)) =
    let fs = common_fields type_get_page tenant timeline rel ((4, block) ∷ (8, lsn) ∷ []) in
    let at = get-put_all {E = ServiceError} fs rest in
    rw
      (
        long_enough fs rest 8 0 (omega arith) (omega arith),
        check_header-put_all _ rest,
        at 1 5 type_get_page refl (omega arith) (omega arith),
        at 1 6 (fork_raw rel.fork) refl (fork_byte rel.fork) (omega arith),
        from_raw-fork_raw rel.fork,
        long_enough fs rest 64 0 (omega arith) (omega arith),
        at 16 8 tenant refl t (omega arith),
        at 16 24 timeline refl l (omega arith),
        at 4 40 rel.spc_node refl s (omega arith),
        at 4 44 rel.db_node refl d (omega arith),
        at 4 48 rel.rel_node refl n (omega arith),
        at 4 52 block refl b (omega arith),
        at 8 56 lsn refl u (omega arith),
      )
      refl
decode_request-encode_request (get_rel_size_request tenant timeline rel lsn) rest
      (((t, l), (s, (d, n))), u) =
    let fs = common_fields type_get_rel_size tenant timeline rel ((8, lsn) ∷ []) in
    let at = get-put_all {E = ServiceError} fs rest in
    rw
      (
        long_enough fs rest 8 0 (omega arith) (omega arith),
        check_header-put_all _ rest,
        at 1 5 type_get_rel_size refl (omega arith) (omega arith),
        at 1 6 (fork_raw rel.fork) refl (fork_byte rel.fork) (omega arith),
        from_raw-fork_raw rel.fork,
        long_enough fs rest 60 0 (omega arith) (omega arith),
        at 16 8 tenant refl t (omega arith),
        at 16 24 timeline refl l (omega arith),
        at 4 40 rel.spc_node refl s (omega arith),
        at 4 44 rel.db_node refl d (omega arith),
        at 4 48 rel.rel_node refl n (omega arith),
        at 8 52 lsn refl u (omega arith),
      )
      refl

-- A page has the full size, a count of blocks fits its 32 bits, and a message is valid UTF-8.
abbrev pub IsResponse : (Bytes → Bytes) → Response → Type 0
IsResponse lossy (page_reply page) = length page ≡ page_size
IsResponse lossy (rel_size_reply n) = n < 2 ^ 32
IsResponse lossy not_found_reply = Unit
IsResponse lossy (error_reply message) = (length message < 2 ^ 32) × (lossy message ≡ message)

payload-length :
    (lossy : Bytes → Bytes) (r : Response) → IsResponse lossy r → length (reply_payload r) < 2 ^ 32
payload-length lossy (page_reply page) h = omega arith
payload-length lossy (rel_size_reply n) h = omega (arith, length-put_all ((4, n) ∷ []))
payload-length lossy not_found_reply h = omega arith
payload-length lossy (error_reply message) h = h.0

status_byte : (r : Response) → reply_status r < 256
status_byte (page_reply page) = omega arith
status_byte (rel_size_reply n) = omega arith
status_byte not_found_reply = omega arith
status_byte (error_reply message) = omega arith

reply_read :
    (lossy : Bytes → Bytes) (r : Response)
    → IsResponse lossy r
    → read_response lossy (reply_status r) (reply_payload r) ≡ ok r
unfolding read_response
reply_read lossy (page_reply page) h = rw h refl
reply_read lossy (rel_size_reply n) h =
    rw
      (
        length-put_all ((4, n) ∷ []),
        get-fields {E = ServiceError} ((4, n) ∷ []) 4 0 n refl (omega arith) (omega arith),
      )
      refl
reply_read lossy not_found_reply h = refl
reply_read lossy (error_reply message) h = rw h.1 refl

-- A reply with a page of the full size, a count within 32 bits, or a message that is valid UTF-8 and
-- shorter than 4 GiB, is decoded as it was encoded, whatever follows it.
pub decode_response-encode_response :
    (lossy : Bytes → Bytes) (r : Response) (rest : Bytes)
    → IsResponse lossy r
    → decode_response lossy (encode_response r ++ rest) ≡ ok r
unfolding encode_response decode_response
decode_response-encode_response lossy r rest h =
    let fs = response_fields r in
    let n = length (reply_payload r) in
    let at = get-put_all {E = ServiceError} fs (reply_payload r ++ rest) in
    let short : n % 2 ^ 32 ≡ n = omega (arith, payload-length lossy r h) in
    rw
      (
        append_assoc (put_all fs) (reply_payload r) rest,
        long_enough fs (reply_payload r ++ rest) 12 0 (omega arith) (omega arith),
        check_header-put_all ((1, reply_status r) ∷ (1, 0) ∷ (1, 0) ∷ (4, n % 2 ^ 32) ∷ [])
            (reply_payload r ++ rest),
        at 1 5 (reply_status r) refl (status_byte r) (omega arith),
        at 4 8 (n % 2 ^ 32) refl (omega arith) (omega arith) ∙ ap ok short,
        long_enough fs (reply_payload r ++ rest) (12 + n) n (omega arith)
            (omega (arith, length-append (reply_payload r) rest)),
        slice-put_all {E = ServiceError} fs (reply_payload r) rest 12 n (omega arith) refl,
      )
      (reply_read lossy r h)
