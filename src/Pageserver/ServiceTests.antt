-- ===== src/Pageserver/ServiceTests.antt =====
-- A page server with one tenant, and a request for a page of it.
use aethel_db.Prelude.{◌≡◌, refl, sym, arith, some, List, [], ◌∷◌}
use aethel_db.Result.{ok}
use aethel_db.Ord.{nat_ord}
use aethel_db.Ord.Map.{lookup}
use aethel_db.Common.Bytes.{Bytes, be}
use aethel_db.Common.Lsn.{Lsn}
use aethel_db.Common.Ids.{TenantId}
use aethel_db.Common.Page.{RelTag, main}
use aethel_db.Common.PageService.{Request, get_page_request}
use aethel_db.Pageserver.Page.{Modification, delta}
use aethel_db.Pageserver.Codec.{encode, write_place, write_version, write_edits}
use aethel_db.Pageserver.Service.Ingest.{frames, handle_ingest_conn, handle_ingest_conn-frames}
use aethel_db.Pageserver.Repository.{new_inner}
use aethel_db.Pageserver.Timeline.{root, branched, ingest}
use aethel_db.Pageserver.Tenant.{Tenant, contains_key}
use aethel_db.Pageserver.Tenant.Branch.{IsLinked}
use aethel_db.Pageserver.Service.Answers.{Answered, get_page_request-answered}

abbrev shop : Tenant
shop = record {
  timelines = branched 2 (new_inner 2) 1 20 ∷ root 1 (new_inner 2) ∷ [];
  freeze_threshold = 2;
}

abbrev tenants : List (TenantId × Tenant)
tenants = (7, shop) ∷ []

abbrev lossy : Bytes → Bytes
lossy bytes = bytes

shop-IsLinked : IsLinked shop.timelines
unfolding branched root contains_key
shop-IsLinked = ((λ parent alsn e. ground arith), ((λ parent alsn e. absurd (cc)), tt))

only_tenant : (id : TenantId) (t : Tenant) → lookup id tenants ≡ some t → shop ≡ t
unfolding lookup
only_tenant id t e = ground arith

abbrev fetch : Request
fetch =
    get_page_request 7 2 (record { spc_node = 1663; db_node = 5; rel_node = 16384; fork = main }) 0
      30

get_page_request-answered_example : Answered lossy tenants fetch []
get_page_request-answered_example =
    get_page_request-answered lossy (λ t h. refl) tenants 7 2
      (record { spc_node = 1663; db_node = 5; rel_node = 16384; fork = main }) 0 30 []
      (λ id t e. rw (sym (only_tenant id t e)) shop-IsLinked)
      (
        ((omega arith, omega arith), (omega arith, (omega arith, omega arith))),
        (omega arith, omega arith),
      )

abbrev heap : RelTag
heap = record { spc_node = 1663; db_node = 5; rel_node = 16384; fork = main }

abbrev delta_at : Lsn → Modification
delta_at lsn = record {
  rel = heap;
  block = 0;
  lsn = lsn;
  version = delta (record { offset = 4; bytes = 1 ∷ 2 ∷ [] } ∷ []);
}

handle_ingest_conn-frames_example :
    handle_ingest_conn (frames (delta_at 20 ∷ delta_at 30 ∷ [])) (root 1 (new_inner 2))
    ≡ (ok 2, ingest (root 1 (new_inner 2)) (delta_at 20 ∷ delta_at 30 ∷ []))
unfolding encode write_place write_version write_edits be
handle_ingest_conn-frames_example =
    handle_ingest_conn-frames (delta_at 20 ∷ delta_at 30 ∷ []) (root 1 (new_inner 2)) (
      (
        (
          (omega arith, omega arith, omega arith, omega arith, omega arith),
          (omega arith, ((omega arith, omega arith), tt)),
        ),
        (omega arith, omega arith),
      ),
      (
        (
          (
            (omega arith, omega arith, omega arith, omega arith, omega arith),
            (omega arith, ((omega arith, omega arith), tt)),
          ),
          (omega arith, omega arith),
        ),
        tt,
      ),
    )
