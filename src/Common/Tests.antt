-- ===== src/Common/Tests.antt =====
-- The theorems of the wire protocol on small messages.
use aethel_db.Prelude.{◌≡◌, refl, inr, [], ◌∷◌, ◌++◌, arith}
use aethel_db.Result.{ok, err}
use aethel_db.Common.WalService.Framing.{Returns, decode_append-Returns, decode_read-encode_vote}
use aethel_db.Common.WalService.{
  unexpected_type, AppendRequest, ReadResponse, VoteRequest, encode_as, decode_append, decode_read,
  encode_read_response, decode_read_response, encode_vote,
}
use aethel_db.Common.Bytes.{Bytes}
use aethel_db.Common.Page.{visibility_map}
use aethel_db.Common.PageService.{
  Request, get_page_request, rel_size_reply, encode_request, decode_request, encode_response,
  decode_response,
}
use aethel_db.Common.PageService.RoundTrip.{
  decode_request-encode_request, decode_response-encode_response,
}
use aethel_db.Common.WalService.RoundTrip.{
  decode_append-encode_as, decode_read_response-encode_read_response,
}

abbrev append : AppendRequest
append = record { tenant = 7; timeline = 8; term = 2; start_lsn = 4096; payload = 1 ∷ 2 ∷ 3 ∷ [] }

abbrev read_response : ReadResponse
read_response = record { status = 0; commit_lsn = 4099; start_lsn = 4096; payload = 1 ∷ 2 ∷ 3 ∷ [] }

abbrev vote_request : VoteRequest
vote_request = record { tenant = 7; timeline = 8; term = 3; candidate = 2 }

decode_append-encode_as_example : decode_append (encode_as 3 append ++ (9 ∷ [])) ≡ ok append
decode_append-encode_as_example =
    decode_append-encode_as 3 append (9 ∷ []) (inr refl)
      (omega arith, omega arith, omega arith, omega arith, omega arith)

decode_read_response_example :
    decode_read_response (encode_read_response read_response ++ []) ≡ ok read_response
decode_read_response_example =
    decode_read_response-encode_read_response read_response []
      (omega arith, omega arith, omega arith, omega arith)

decode_append-Returns_example : Returns (decode_append (1 ∷ 2 ∷ []))
decode_append-Returns_example = decode_append-Returns (1 ∷ 2 ∷ [])

decode_read-encode_vote_example : decode_read (encode_vote vote_request ++ []) ≡ err unexpected_type
decode_read-encode_vote_example = decode_read-encode_vote vote_request []

abbrev fetch : Request
fetch =
    get_page_request 7 8
      (record { spc_node = 1663; db_node = 5; rel_node = 16384; fork = visibility_map }) 3 4096

decode_request_example : decode_request (encode_request fetch ++ (1 ∷ [])) ≡ ok fetch
decode_request_example = decode_request-encode_request fetch (1 ∷ []) (
  ((omega arith, omega arith), (omega arith, (omega arith, omega arith))),
  (omega arith, omega arith),
)

abbrev same_text : Bytes → Bytes
same_text bytes = bytes

decode_response_example :
    decode_response same_text (encode_response (rel_size_reply 300) ++ (1 ∷ []))
    ≡ ok (rel_size_reply 300)
decode_response_example =
    decode_response-encode_response same_text (rel_size_reply 300) (1 ∷ []) (omega arith)
