-- ===== src/Pageserver/Service.antt =====
-- pageserver/src/server.rs: what the page service answers. The tenants are the map of `TenantManager`,
-- and a connection is the bytes that a client sends before it closes its side.
pub mod Messages
pub mod Texts
pub mod Errors
pub mod Connection
pub mod Answers
pub mod Ingest
use aethel_db.Prelude.{
  ℕ, zero, suc, ◌-◌, Option, none, some, List, [], ◌∷◌, ◌++◌, length, take, drop, ltb,
  if◌then◌else◌,
}
use aethel_db.Result.{Result, ok, err, panic, ◌>>=◌}
use aethel_db.Ord.{nat_ord}
use aethel_db.Ord.Map.{lookup}
use aethel_db.Common.Bytes.{Bytes}
use aethel_db.Common.Ids.{TenantId, TimelineId}
use aethel_db.Common.PageService.{
  ServiceError, Request, get_page_request, get_rel_size_request, Response, page_reply,
  rel_size_reply, not_found_reply, error_reply, total_len, decode_request, encode_response,
}
use aethel_db.Pageserver.Page.{PageError}
use aethel_db.Pageserver.Redo.{WalRedoManager}
use aethel_db.Pageserver.Repository.{PageLookup, page, not_found}
use aethel_db.Pageserver.Timeline
use aethel_db.Pageserver.Tenant.{Tenant, contains_key}
use aethel_db.Pageserver.Service.Messages.{failed_text, unknown_text}

-- `read_exact` ends a connection where the bytes end.
pub data ConnError : Type 0 where
  unexpected_eof : ConnError
  bad_request : ServiceError → ConnError

abbrev pub request_error {ℓ} : {A : Type ℓ} → Result ServiceError A → Result ConnError A
request_error (ok a) = ok a
request_error (err e) = err (bad_request e)
request_error panic = panic

-- A request, with the bytes behind it; nothing where the client closes the connection.
abbrev pub Message : Type 0
Message = Option (Request × Bytes)

-- The rest of a message of `total` bytes behind its header, which a shorter buffer has no place for.
unfoldable pub read_body : Bytes → Bytes → ℕ → Result ConnError Message
read_body header stream total =
    if ltb total 8
    then panic
    else if ltb (length stream) (total - 8)
    then err unexpected_eof
    else request_error (decode_request (header ++ take (total - 8) stream)) >>= λ r.
        ok (some (r, drop (total - 8) stream))

-- The header is read, then the rest of the message that it announces. Where the bytes end in front of a
-- header or in it, the client has gone; in the body this is an error.
unfoldable pub read_message : Bytes → Result ConnError Message
read_message stream =
    if ltb (length stream) 8
    then ok none
    else request_error (total_len (take 8 stream)) >>= read_body (take 8 stream) (drop 8 stream)

abbrev pub tenant_of : Request → TenantId
tenant_of (get_page_request tenant timeline rel block lsn) = tenant
tenant_of (get_rel_size_request tenant timeline rel lsn) = tenant

abbrev pub timeline_of : Request → TimelineId
timeline_of (get_page_request tenant timeline rel block lsn) = timeline
timeline_of (get_rel_size_request tenant timeline rel lsn) = timeline

-- What a connection comes to, and the bytes that the server wrote to it.
abbrev pub Served : Type 0
Served = Result ConnError (Unit {0}) × Bytes

module _ (manager : WalRedoManager) where
  abbrev pub page_response : Result PageError PageLookup → Result ConnError Response
  page_response (ok (page p)) = ok (page_reply p)
  page_response (ok not_found) = ok not_found_reply
  page_response (err e) = ok (error_reply (failed_text e))
  page_response panic = panic

  abbrev pub size_response : Option ℕ → Result ConnError Response
  size_response none = ok not_found_reply
  size_response (some n) = ok (rel_size_reply n)

  -- A request to a timeline that is there.
  unfoldable pub ask_timeline : Tenant → Request → Result ConnError Response
  ask_timeline t (get_page_request tenant timeline rel block lsn) =
      page_response
        (Timeline.get_page manager (record { rel = rel; block = block }) t.timelines timeline lsn)
  ask_timeline t (get_rel_size_request tenant timeline rel lsn) =
      size_response (Timeline.get_rel_size rel t.timelines timeline lsn)

  abbrev pub ask_tenant : Option Tenant → Request → Result ConnError Response
  ask_tenant none r = ok (error_reply (unknown_text (tenant_of r) (timeline_of r)))
  ask_tenant (some t) r =
      if contains_key t.timelines (timeline_of r)
      then ask_timeline t r
      else ok (error_reply (unknown_text (tenant_of r) (timeline_of r)))

  -- The request is routed to its tenant and timeline.
  unfoldable pub respond : List (TenantId × Tenant) → Request → Result ConnError Response
  respond tenants r = ask_tenant (lookup (tenant_of r) tenants) r

  -- The reply is written, and what `next` serves follows.
  unfoldable pub on_response : Served → Result ConnError Response → Served
  on_response next (ok reply) = (next.0, encode_response reply ++ next.1)
  on_response next (err e) = (err e, [])
  on_response next panic = (panic, [])

  -- A round; `go` serves the bytes behind the message.
  unfoldable pub on_message :
      (Bytes → Served) → List (TenantId × Tenant) → Result ConnError Message → Served
  on_message go tenants (ok none) = (ok tt, [])
  on_message go tenants (ok (some (r, rest))) = on_response (go rest) (respond tenants r)
  on_message go tenants (err e) = (err e, [])
  on_message go tenants panic = (panic, [])

  -- The loop. Running out of fuel is the outcome `panic`.
  unfoldable pub page_conn : ℕ → List (TenantId × Tenant) → Bytes → Served
  page_conn zero tenants stream = (panic, [])
  page_conn (suc fuel) tenants stream =
      on_message (page_conn fuel tenants) tenants (read_message stream)

  -- Every round but the last takes the bytes of a header.
  unfoldable pub handle_page_conn : List (TenantId × Tenant) → Bytes → Served
  handle_page_conn tenants stream = page_conn (suc (length stream)) tenants stream
