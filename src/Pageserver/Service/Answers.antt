-- ===== src/Pageserver/Service/Answers.antt =====
-- A request on its way to the page server, and the reply on its way back.
use aethel_db.Prelude.{
  ℕ, ◌^◌, Text, ◌<◌, ◌≡◌, refl, ap, ◌∙◌, arith, Bool, true, false, Option, none, some, List, ◌++◌,
  if◌then◌else◌,
}
use aethel_db.Result.{Result, ok, err, panic}
use aethel_db.Ord.{nat_ord}
use aethel_db.Ord.Map.{lookup}
use aethel_db.Common.Bytes.{Bytes}
use aethel_db.Common.Ids.{TenantId, TimelineId}
use aethel_db.Common.Lsn.{Lsn}
use aethel_db.Common.Page.{RelTag, PageKey}
use aethel_db.Common.PageService.{
  Request, get_page_request, Response, error_reply, encode_request, decode_response,
}
use aethel_db.Common.PageService.RoundTrip.{IsRequest, IsResponse, decode_response-encode_response}
use aethel_db.Pageserver.Page.{PageError}
use aethel_db.Pageserver.Repository.{PageLookup, page, not_found}
use aethel_db.Pageserver.Tenant.{Tenant, contains_key}
use aethel_db.Pageserver.Redo.{rust_apply}
use aethel_db.Pageserver.Tenant.Branch.{IsLinked, IsReply, get_page-IsReply}
use aethel_db.Pageserver.Service.Messages.{unknown_text}
use aethel_db.Pageserver.Service.Texts.{
  is_ascii, IsText, IsShort, unknown_text-IsText, failed_text-IsText,
}
use aethel_db.Pageserver.Service.Errors.{Errs, get_page-Errs}
use aethel_db.Pageserver.Service.Connection.{handle_page_conn-next}
use aethel_db.Pageserver.Service.{
  ConnError, page_response, ask_timeline, ask_tenant, respond, handle_page_conn,
}

-- A reply that can be sent.
abbrev pub Sendable : (Bytes → Bytes) → Result ConnError Response → Type 0
Sendable lossy (ok reply) = IsResponse lossy reply
Sendable lossy (err e) = ⊥
Sendable lossy panic = ⊥

-- What a compute node gets for a request: a reply that it decodes, whatever the server writes after it,
-- and the connection goes on with what was sent behind the request.
abbrev pub Answered : (Bytes → Bytes) → List (TenantId × Tenant) → Request → Bytes → Type 0
Answered lossy tenants r later =
    (a : Response) × ((respond rust_apply tenants r ≡ ok a)
      × ((decode_response lossy (handle_page_conn rust_apply tenants (encode_request r ++ later)).1
            ≡ ok a)
          × ((handle_page_conn rust_apply tenants (encode_request r ++ later)).0
              ≡ (handle_page_conn rust_apply tenants later).0)))

module _ (lossy : Bytes → Bytes) (ascii_kept : (t : Bytes) → is_ascii t ≡ true → lossy t ≡ t) where
  text-Sendable : (k : ℕ) (t : Text) → k < 2 ^ 32 → IsText k t → IsResponse lossy (error_reply t)
  text-Sendable k t le h = (omega (arith, h.1), ascii_kept t h.0)

  page_response-Sendable :
      (r : Result PageError PageLookup)
      → IsReply r
      → Errs IsShort r
      → Sendable lossy (page_response rust_apply r)
  page_response-Sendable (ok (page p)) h g = h
  page_response-Sendable (ok not_found) h g = tt
  page_response-Sendable (err e) h g = text-Sendable 300 _ (omega arith) (failed_text-IsText e g)
  page_response-Sendable panic h g = h

  if-Sendable :
      (b : Bool) (x y : Result ConnError Response)
      → (b ≡ true → Sendable lossy x)
      → Sendable lossy y
      → Sendable lossy (if b then x else y)
  if-Sendable true x y h g = h refl
  if-Sendable false x y h g = g

  unknown_text-Sendable :
      (tenant : TenantId) (timeline : TimelineId)
      → Sendable lossy (ok (error_reply (unknown_text tenant timeline)))
  unknown_text-Sendable tenant timeline =
      text-Sendable 100 _ (omega arith) (unknown_text-IsText tenant timeline)

  tenant-Sendable :
      (o : Option Tenant) (tenant : TenantId) (timeline : TimelineId) (rel : RelTag) (block : ℕ)
      (lsn : Lsn)
      → ((t : Tenant) → o ≡ some t → IsLinked t.timelines)
      → Sendable lossy (ask_tenant rust_apply o (get_page_request tenant timeline rel block lsn))
  unfolding ask_timeline
  tenant-Sendable none tenant timeline rel block lsn h = unknown_text-Sendable tenant timeline
  tenant-Sendable (some t) tenant timeline rel block lsn h =
      let key : PageKey = record { rel = rel; block = block } in
      if-Sendable (contains_key t.timelines timeline) _
        (ok (error_reply (unknown_text tenant timeline)))
        (λ there.
          page_response-Sendable _ (get_page-IsReply key t.timelines timeline lsn (h t refl) there)
            (get_page-Errs key t.timelines timeline lsn))
        (unknown_text-Sendable tenant timeline)

  -- What a reply that can be sent comes to at the client.
  answered :
      (tenants : List (TenantId × Tenant)) (r : Request) (later : Bytes)
      (reply : Result ConnError Response)
      → respond rust_apply tenants r ≡ reply
      → IsRequest r
      → Sendable lossy reply
      → Answered lossy tenants r later
  answered tenants r later (ok a) e h good =
      let next = handle_page_conn-next rust_apply tenants r later a h e in
      let behind = (handle_page_conn rust_apply tenants later).1 in
      (
        a,
        (
          e,
          (
            ap (λ served. decode_response lossy served.1) next
                ∙ decode_response-encode_response lossy a behind good,
            ap (λ served. served.0) next,
          ),
        ),
      )
  answered tenants r later (err x) e h good = absurd good
  answered tenants r later panic e h good = absurd good

  -- Every request for a page with fields within their widths gets an answer that its sender decodes:
  -- with the native redo backend, where every timeline's parent is an older timeline of its tenant, and
  -- where the sender's decoding of UTF-8 keeps ASCII, the page server has a reply, the sender reads this
  -- reply from the bytes that it gets, and the connection ends as it does on the bytes that were sent
  -- behind the request.
  pub get_page_request-answered :
      (tenants : List (TenantId × Tenant)) (tenant : TenantId) (timeline : TimelineId)
      (rel : RelTag) (block : ℕ) (lsn : Lsn) (later : Bytes)
      → ((id : TenantId) (t : Tenant) → lookup id tenants ≡ some t → IsLinked t.timelines)
      → IsRequest (get_page_request tenant timeline rel block lsn)
      → Answered lossy tenants (get_page_request tenant timeline rel block lsn) later
  unfolding respond
  get_page_request-answered tenants tenant timeline rel block lsn later linked h =
      answered tenants (get_page_request tenant timeline rel block lsn) later _ refl h
        (tenant-Sendable (lookup tenant tenants) tenant timeline rel block lsn (linked tenant))
