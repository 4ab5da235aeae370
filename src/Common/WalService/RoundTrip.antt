-- ===== src/Common/WalService/RoundTrip.antt =====
-- What the encoders of the protocol write, the decoders read back, whatever follows it in the buffer.
use aethel_db.Prelude.{
  ℕ, ◌+◌, ◌%◌, ◌^◌, ◌<◌, List, ◌≡◌, refl, ap, ◌⊎◌, arith, Bool, true, false, not, ◌&&◌,
  length-append, [], ◌∷◌, ◌++◌, length, ◌==◌, append_assoc,
}
use aethel_db.Result.{ok}
use aethel_db.Common.Bytes.{Bytes, put_all, get-put_all, slice-put_all, long_enough}
use aethel_db.Common.WalService.{
  AppendRequest, AppendResponse, ReadRequest, ReadResponse, VoteRequest, VoteResponse, WireError,
  prefix_fields, magic, type_append, type_replicate, type_read, type_vote, version, message_type,
  bad_response, append_fields, encode_as, payload_len, decode_append, append_response_fields,
  encode_append_response, decode_append_response, read_fields, encode_read, decode_read,
  read_response_fields, encode_read_response, response_payload_len, decode_read_response,
  vote_fields, encode_vote, decode_vote, flag, vote_response_fields, encode_vote_response,
  decode_vote_response,
}

-- The fields of a message are within their widths.
abbrev pub IsVoteRequest : VoteRequest → Type 0
IsVoteRequest r =
    (r.tenant < 2 ^ 128) × (r.timeline < 2 ^ 128) × (r.term < 2 ^ 64) × (r.candidate < 2 ^ 64)

abbrev pub IsVoteResponse : VoteResponse → Type 0
IsVoteResponse r = (r.term < 2 ^ 64) × (r.flush_lsn < 2 ^ 64)

abbrev pub IsReadRequest : ReadRequest → Type 0
IsReadRequest r =
    (r.tenant < 2 ^ 128) × (r.timeline < 2 ^ 128) × (r.start_lsn < 2 ^ 64) × (r.max_bytes < 2 ^ 32)

abbrev pub IsReadResponse : ReadResponse → Type 0
IsReadResponse r =
    (r.status < 256)
    × (r.commit_lsn < 2 ^ 64)
    × (r.start_lsn < 2 ^ 64)
    × (length r.payload < 2 ^ 32)

abbrev pub IsAppendRequest : AppendRequest → Type 0
IsAppendRequest r =
    (r.tenant < 2 ^ 128)
    × (r.timeline < 2 ^ 128)
    × (r.term < 2 ^ 64)
    × (r.start_lsn < 2 ^ 64)
    × (length r.payload < 2 ^ 32)

abbrev pub IsAppendResponse : AppendResponse → Type 0
IsAppendResponse r =
    (r.status < 256) × (r.term < 2 ^ 64) × (r.flush_lsn < 2 ^ 64) × (r.commit_lsn < 2 ^ 64)

pub message_type-put_all :
    (t : ℕ) (fs : List (ℕ × ℕ)) (rest : Bytes)
    → t < 256
    → message_type (put_all (prefix_fields t fs) ++ rest) ≡ ok t
unfolding message_type
message_type-put_all t fs rest h =
    rw
      (
        long_enough (prefix_fields t fs) rest 8 0 (omega arith) (omega arith),
        get-put_all {E = WireError} (prefix_fields t fs) rest 4 0 magic refl (omega arith)
            (omega arith),
        get-put_all {E = WireError} (prefix_fields t fs) rest 1 4 version refl (omega arith)
            (omega arith),
        get-put_all {E = WireError} (prefix_fields t fs) rest 1 5 t refl (omega arith)
            (omega arith),
      )
      refl

-- A vote request with fields within their widths is decoded as it was encoded, whatever follows it.
pub decode_vote-encode_vote :
    (r : VoteRequest) (rest : Bytes) → IsVoteRequest r → decode_vote (encode_vote r ++ rest) ≡ ok r
unfolding encode_vote decode_vote
decode_vote-encode_vote r rest (tenant, timeline, term, candidate) =
    let at = get-put_all {E = WireError} (vote_fields r) rest in
    rw
      (
        long_enough (vote_fields r) rest 56 0 (omega arith) (omega arith),
        message_type-put_all type_vote
            ((16, r.tenant) ∷ (16, r.timeline) ∷ (8, r.term) ∷ (8, r.candidate) ∷ []) rest
            (omega arith),
        at 16 8 r.tenant refl tenant (omega arith),
        at 16 24 r.timeline refl timeline (omega arith),
        at 8 40 r.term refl term (omega arith),
        at 8 48 r.candidate refl candidate (omega arith),
      )
      refl

-- A read request with fields within their widths is decoded as it was encoded, whatever follows it.
pub decode_read-encode_read :
    (r : ReadRequest) (rest : Bytes) → IsReadRequest r → decode_read (encode_read r ++ rest) ≡ ok r
unfolding encode_read decode_read
decode_read-encode_read r rest (tenant, timeline, start_lsn, max_bytes) =
    let at = get-put_all {E = WireError} (read_fields r) rest in
    rw
      (
        long_enough (read_fields r) rest 52 0 (omega arith) (omega arith),
        message_type-put_all type_read
            ((16, r.tenant) ∷ (16, r.timeline) ∷ (8, r.start_lsn) ∷ (4, r.max_bytes) ∷ []) rest
            (omega arith),
        at 16 8 r.tenant refl tenant (omega arith),
        at 16 24 r.timeline refl timeline (omega arith),
        at 8 40 r.start_lsn refl start_lsn (omega arith),
        at 4 48 r.max_bytes refl max_bytes (omega arith),
      )
      refl

pub bad_response-put_all :
    (t : ℕ) (fs : List (ℕ × ℕ)) (rest : Bytes)
    → bad_response (put_all (prefix_fields t fs) ++ rest) ≡ ok false
unfolding bad_response
bad_response-put_all t fs rest =
    rw
      (
        get-put_all {E = WireError} (prefix_fields t fs) rest 4 0 magic refl (omega arith)
            (omega arith),
        get-put_all {E = WireError} (prefix_fields t fs) rest 1 4 version refl (omega arith)
            (omega arith),
      )
      refl

-- A reply to an append with fields within their widths is decoded as it was encoded, whatever
-- follows it.
pub decode_append_response-encode_append_response :
    (r : AppendResponse) (rest : Bytes)
    → IsAppendResponse r
    → decode_append_response (encode_append_response r ++ rest) ≡ ok r
unfolding encode_append_response decode_append_response
decode_append_response-encode_append_response r rest (status, term, flush_lsn, commit_lsn) =
    let at = get-put_all {E = WireError} (append_response_fields r) rest in
    rw
      (
        long_enough (append_response_fields r) rest 32 0 (omega arith) (omega arith),
        bad_response-put_all r.status ((8, r.term) ∷ (8, r.flush_lsn) ∷ (8, r.commit_lsn) ∷ [])
            rest,
        at 1 5 r.status refl status (omega arith),
        at 8 8 r.term refl term (omega arith),
        at 8 16 r.flush_lsn refl flush_lsn (omega arith),
        at 8 24 r.commit_lsn refl commit_lsn (omega arith),
      )
      refl

pub flag-granted : (b : Bool) → (flag b < 256) × (not (flag b == 0) ≡ b)
flag-granted true = (omega arith, refl)
flag-granted false = (omega arith, refl)

-- A reply to a vote request with fields within their widths is decoded as it was encoded, whatever
-- follows it.
pub decode_vote_response-encode_vote_response :
    (r : VoteResponse) (rest : Bytes)
    → IsVoteResponse r
    → decode_vote_response (encode_vote_response r ++ rest) ≡ ok r
unfolding encode_vote_response decode_vote_response
decode_vote_response-encode_vote_response r rest (term, flush_lsn) =
    let at = get-put_all {E = WireError} (vote_response_fields r) rest in
    rw
      (
        long_enough (vote_response_fields r) rest 24 0 (omega arith) (omega arith),
        bad_response-put_all (flag r.granted) ((8, r.term) ∷ (8, r.flush_lsn) ∷ []) rest,
        at 1 5 (flag r.granted) refl (flag-granted r.granted).0 (omega arith),
        at 8 8 r.term refl term (omega arith),
        at 8 16 r.flush_lsn refl flush_lsn (omega arith),
        (flag-granted r.granted).1,
      )
      refl

-- The length that a header carries.
carried : (n : ℕ) → n < 2 ^ 32 → n % 2 ^ 32 ≡ n
carried n h = omega arith

payload_len-encode_as :
    (t : ℕ) (r : AppendRequest) (rest : Bytes)
    → (t ≡ type_append) ⊎ (t ≡ type_replicate)
    → IsAppendRequest r
    → payload_len (put_all (append_fields t r) ++ rest) ≡ ok (length r.payload)
unfolding payload_len
payload_len-encode_as t r rest kind (_, _, _, _, short) =
    let at = get-put_all {E = WireError} (append_fields t r) rest in
    let known : not (t == type_append) && not (t == type_replicate) ≡ false = ground arith in
    rw
      (
        long_enough (append_fields t r) rest 60 0 (omega arith) (omega arith),
        at 4 0 magic refl (omega arith) (omega arith),
        at 1 4 version refl (omega arith) (omega arith),
        at 1 5 t refl (ground arith) (omega arith),
        known,
        at 4 56 (length r.payload % 2 ^ 32) refl (omega arith) (omega arith),
      )
      (ap ok (carried (length r.payload) short))

-- A run of log bytes with fields within their widths is decoded as it was encoded, as an append and
-- as a replication, whatever follows it.
pub decode_append-encode_as :
    (t : ℕ) (r : AppendRequest) (rest : Bytes)
    → (t ≡ type_append) ⊎ (t ≡ type_replicate)
    → IsAppendRequest r
    → decode_append (encode_as t r ++ rest) ≡ ok r
unfolding encode_as decode_append
decode_append-encode_as t r rest kind is =
    let at = get-put_all {E = WireError} (append_fields t r) (r.payload ++ rest) in
    let n = length r.payload in
    rw
      (
        append_assoc (put_all (append_fields t r)) r.payload rest,
        payload_len-encode_as t r (r.payload ++ rest) kind is,
        long_enough (append_fields t r) (r.payload ++ rest) (60 + n) n (omega arith)
            (omega (arith, length-append r.payload rest)),
        at 16 8 r.tenant refl is.0 (omega arith),
        at 16 24 r.timeline refl is.1 (omega arith),
        at 8 40 r.term refl is.2 (omega arith),
        at 8 48 r.start_lsn refl is.3 (omega arith),
        slice-put_all {E = WireError} (append_fields t r) r.payload rest 60 n (omega arith) refl,
      )
      refl

pub response_payload_len-put_all :
    (r : ReadResponse) (rest : Bytes)
    → length r.payload < 2 ^ 32
    → response_payload_len (put_all (read_response_fields r) ++ rest) ≡ ok (length r.payload)
unfolding response_payload_len
response_payload_len-put_all r rest short =
    let fs : List (ℕ × ℕ) =
      (8, r.commit_lsn) ∷ (8, r.start_lsn) ∷ (4, length r.payload % 2 ^ 32) ∷ [] in
    rw
      (
        long_enough (read_response_fields r) rest 28 0 (omega arith) (omega arith),
        bad_response-put_all r.status fs rest,
        get-put_all {E = WireError} (read_response_fields r) rest 4 24 (length r.payload % 2 ^ 32)
            refl (omega arith) (omega arith),
      )
      (ap ok (carried (length r.payload) short))

-- A reply that carries log bytes, with fields within their widths, is decoded as it was encoded,
-- whatever follows it.
pub decode_read_response-encode_read_response :
    (r : ReadResponse) (rest : Bytes)
    → IsReadResponse r
    → decode_read_response (encode_read_response r ++ rest) ≡ ok r
unfolding encode_read_response decode_read_response
decode_read_response-encode_read_response r rest (status, commit_lsn, start_lsn, short) =
    let at = get-put_all {E = WireError} (read_response_fields r) (r.payload ++ rest) in
    let n = length r.payload in
    rw
      (
        append_assoc (put_all (read_response_fields r)) r.payload rest,
        response_payload_len-put_all r (r.payload ++ rest) short,
        long_enough (read_response_fields r) (r.payload ++ rest) (28 + n) n (omega arith)
            (omega (arith, length-append r.payload rest)),
        at 1 5 r.status refl status (omega arith),
        at 8 8 r.commit_lsn refl commit_lsn (omega arith),
        at 8 16 r.start_lsn refl start_lsn (omega arith),
        slice-put_all {E = WireError} (read_response_fields r) r.payload rest 28 n (omega arith)
            refl,
      )
      refl
