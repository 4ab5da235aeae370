-- ===== src/Pageserver/Tenant.antt =====
-- pageserver/src/tenant.rs: the timelines of one tenant, and garbage collection across them.
pub mod Gc
pub mod Isolation
pub mod Branch
use aethel_db.Prelude.{
  ℕ, ◌-◌, ◌^◌, min, Bool, true, false, Option, none, some, List, [], ◌∷◌, map, ◌==◌, if◌then◌else◌,
}
use aethel_db.Result.{Result, ok, err, panic, ◌>>=◌}
use aethel_db.Ord.{nat_ord}
use aethel_db.Ord.Map.{lookup, insert}
use aethel_db.Common.Ids.{TimelineId}
use aethel_db.Common.Lsn.{Lsn}
use aethel_db.Pageserver.Page.{Modification}
use aethel_db.Pageserver.Repository.{Inner, CompactionStats, new_inner}
use aethel_db.Pageserver.Repository.Compact.{compact}
use aethel_db.Pageserver.Timeline.{Timeline, root, branched, ingest}

pub data TenantError : Type 0 where
  already_exists : TimelineId → TenantError
  no_such_parent : TimelineId → TenantError

-- The map of the timelines is the heap itself, newest first: no timeline is ever removed.
pub record Tenant : Type 0 where
  pub timelines : List Timeline
  pub freeze_threshold : ℕ

unfoldable pub new_tenant : ℕ → Tenant
new_tenant freeze_threshold = record { timelines = []; freeze_threshold = freeze_threshold }

unfoldable pub contains_key : List Timeline → TimelineId → Bool
contains_key [] id = false
contains_key (t ∷ ts) id = if t.id == id then true else contains_key ts id

-- `Tenant::get_timeline`
unfoldable pub get_timeline : List Timeline → TimelineId → Option Timeline
get_timeline [] id = none
get_timeline (t ∷ ts) id = if t.id == id then some t else get_timeline ts id

unfoldable pub timeline_ids : Tenant → List TimelineId
timeline_ids tenant = map (λ t. t.id) tenant.timelines

unfoldable pub create_timeline : Tenant → TimelineId → Result TenantError Tenant
create_timeline tenant id =
    if contains_key tenant.timelines id
    then err (already_exists id)
    else ok (record tenant {
      timelines = root id (new_inner tenant.freeze_threshold) ∷ tenant.timelines;
    })

unfoldable pub branch_timeline : Tenant → TimelineId → TimelineId → Lsn → Result TenantError Tenant
branch_timeline tenant new_id parent_id ancestor_lsn =
    if contains_key tenant.timelines new_id
    then err (already_exists new_id)
    else (if contains_key tenant.timelines parent_id
        then ok (record tenant {
          timelines =
              branched new_id (new_inner tenant.freeze_threshold) parent_id ancestor_lsn
              ∷ tenant.timelines;
        })
        else err (no_such_parent parent_id))

-- A write through the `Arc` of one timeline.
unfoldable pub ingest_into : TimelineId → List Modification → List Timeline → List Timeline
ingest_into id mods [] = []
ingest_into id mods (t ∷ ts) = (if t.id == id then ingest t mods else t) ∷ ingest_into id mods ts

abbrev pub unwrap_or : Option Lsn → Lsn → Lsn
unwrap_or none d = d
unwrap_or (some l) d = l

-- One round of the loop over the timelines: a branch pins its parent at the branch point. The order
-- of the rounds, which the hash map leaves open, does not matter to the minimum.
unfoldable pub pin_one : List (TimelineId × Lsn) → Timeline → List (TimelineId × Lsn)
pin_one pins t = elim t.ancestor [
  | none ↦ pins
  | some (parent, alsn) ↦
      insert parent (min (unwrap_or (lookup parent pins) (2 ^ 64 - 1)) alsn) pins
]

unfoldable pub child_pins : List (TimelineId × Lsn) → List Timeline → List (TimelineId × Lsn)
child_pins pins [] = pins
child_pins pins (t ∷ ts) = child_pins (pin_one pins t) ts

unfoldable pub horizon_of : List (TimelineId × Lsn) → Lsn → TimelineId → Lsn
horizon_of pins requested id = elim (lookup id pins) [
  | none ↦ requested
  | some pin ↦ min requested pin
]

-- The second loop: every timeline is compacted at its own horizon.
unfoldable pub compact_all : List (TimelineId × Lsn) → Lsn → List Timeline → List Timeline
compact_all pins requested [] = []
compact_all pins requested (t ∷ ts) =
    record t { repo = (compact t.repo (horizon_of pins requested t.id)).0 }
    ∷ compact_all pins requested ts

unfoldable pub gc : Tenant → Lsn → Tenant × List (TimelineId × CompactionStats)
gc tenant requested_horizon =
    let pins = child_pins [] tenant.timelines in
    (
      record tenant { timelines = compact_all pins requested_horizon tenant.timelines },
      map (λ t. (t.id, (compact t.repo (horizon_of pins requested_horizon t.id)).1))
          tenant.timelines,
    )
