-- ===== src/Pageserver/Tenant/Branch.antt =====
-- Creating timelines and branches, with the native backend.
use aethel_db.Prelude.{
  ℕ, ◌≡◌, refl, ap, ◌∙◌, true, false, Option, none, some, List, [], ◌∷◌, arith, length,
  Option-cases, inl, inr, Bool-cases, ◌==◌, ==_iff,
}
use aethel_db.Result.{Result, ok, err, panic, ◌>>=◌}
use aethel_db.Common.Ids.{TimelineId}
use aethel_db.Common.Lsn.{Lsn}
use aethel_db.Common.Page.{PageKey, page_size}
use aethel_db.Pageserver.Page.{PageError}
use aethel_db.Pageserver.Redo.{RedoError, rust_apply, reconstruct_native, rposition_base}
use aethel_db.Ord.Map.{sort, place, versions_of}
use aethel_db.Pageserver.Redo.Pages.{IsAnswer, reconstruct_native-IsAnswer}
use aethel_db.Pageserver.Repository
use aethel_db.Pageserver.Repository.{
  Inner, PageLookup, page, not_found, new_inner, gather, to_lookup, get_page_with_base,
}
use aethel_db.Pageserver.Repository.Sources.{own, gather-based}
use aethel_db.Pageserver.Repository.Writes.{native_image}
use aethel_db.Pageserver.Timeline.{Timeline, branched, get_page, or_inherit, over_parent}
use aethel_db.Pageserver.Timeline.Steps.{get_page_other, get_page_root, get_page_branch}
use aethel_db.Pageserver.Tenant.{Tenant, contains_key, branch_timeline}

-- A full page, an absent page or an error.
abbrev pub IsReply : Result PageError PageLookup → Type 0
IsReply (ok (page p)) = length p ≡ page_size
IsReply (ok not_found) = Unit
IsReply (err e) = Unit
IsReply panic = ⊥

to_lookup-IsReply : (r : Result RedoError (Option (List ℕ))) → IsAnswer r → IsReply (to_lookup r)
unfolding to_lookup
to_lookup-IsReply (ok none) h = tt
to_lookup-IsReply (ok (some p)) h = h
to_lookup-IsReply (err (RedoError.apply e)) h = tt
to_lookup-IsReply (err (RedoError.needs_postgres e)) h = tt
to_lookup-IsReply (err (RedoError.process e)) h = tt
to_lookup-IsReply (err (RedoError.redo_failed e)) h = tt
to_lookup-IsReply panic h = h

with_base-IsReply :
    (repo : Inner) (key : PageKey) (lsn : Lsn) (base : Option (Lsn × List ℕ))
    → IsReply (get_page_with_base rust_apply repo key lsn base)
unfolding get_page_with_base
with_base-IsReply repo key lsn base =
    to_lookup-IsReply _ (reconstruct_native-IsAnswer key lsn (gather repo key lsn base))

own-IsReply :
    (repo : Inner) (key : PageKey) (lsn : Lsn)
    → IsReply (Repository.get_page rust_apply repo key lsn)
unfolding Repository.get_page
own-IsReply repo key lsn = with_base-IsReply repo key lsn none

-- Every parent is an older timeline.
abbrev pub IsLinked : List Timeline → Type 0
IsLinked [] = Unit
IsLinked (t ∷ ts) =
    ((parent : TimelineId) (alsn : Lsn)
      → t.ancestor ≡ some (parent, alsn)
      → contains_key ts parent ≡ true)
    × IsLinked ts

inherit-IsReply :
    (key : PageKey) (repo : Inner) (lsn alsn : Lsn) (parent own : Result PageError PageLookup)
    → IsReply parent
    → IsReply own
    → IsReply (own >>= or_inherit rust_apply key repo lsn alsn parent)
unfolding or_inherit over_parent
inherit-IsReply key repo lsn alsn parent (ok (page p)) h g = g
inherit-IsReply key repo lsn alsn (ok (page p)) (ok not_found) h g =
    with_base-IsReply repo key lsn (some (alsn, p))
inherit-IsReply key repo lsn alsn (ok not_found) (ok not_found) h g = tt
inherit-IsReply key repo lsn alsn (err e) (ok not_found) h g = tt
inherit-IsReply key repo lsn alsn panic (ok not_found) h g = h
inherit-IsReply key repo lsn alsn parent (err e) h g = tt
inherit-IsReply key repo lsn alsn parent panic h g = g

contains_tail :
    (t : Timeline) (ts : List Timeline) (id : TimelineId)
    → (t.id == id) ≡ false
    → contains_key (t ∷ ts) id ≡ true
    → contains_key ts id ≡ true
unfolding contains_key
contains_tail t ts id e h = rw e at h

none_present : (id : TimelineId) → ¬ (contains_key [] id ≡ true)
unfolding contains_key
none_present id h = cc

-- Where every branch comes after its parent, a read of a timeline that exists ends, with the native
-- backend, in a full page, an absent page or an error, through any chain of branches; it never
-- panics.
pub get_page-IsReply :
    (key : PageKey) (ts : List Timeline) (id : TimelineId) (lsn : Lsn)
    → IsLinked ts
    → contains_key ts id ≡ true
    → IsReply (get_page rust_apply key ts id lsn)
get_page-IsReply key [] id lsn l h = absurd (none_present id h)
get_page-IsReply key (t ∷ ts) id lsn l h = elim (Bool-cases (t.id == id)) [
  | inr e ↦
      rw (get_page_other rust_apply key t ts id lsn e)
        (get_page-IsReply key ts id lsn l.1 (contains_tail t ts id e h))
  | inl e ↦ elim (Option-cases t.ancestor) [
    | inl a ↦ rw (get_page_root rust_apply key t ts id lsn e a) (own-IsReply t.repo key lsn)
    | inr ((parent, alsn), a) ↦ rw (get_page_branch rust_apply key t ts id lsn parent alsn e a) (
        inherit-IsReply key t.repo lsn alsn (get_page rust_apply key ts parent alsn)
          (Repository.get_page rust_apply t.repo key lsn)
          (get_page-IsReply key ts parent alsn l.1 (l.0 parent alsn a))
          (own-IsReply t.repo key lsn))
  ]
]

empty_own : (threshold : ℕ) (key : PageKey) (lsn : Lsn) → own (new_inner threshold) key lsn ≡ []
unfolding new_inner sort versions_of
empty_own threshold key lsn = refl

-- An empty branch store passes on what its parent gives.
empty_inherits :
    (threshold : ℕ) (key : PageKey) (lsn alsn : Lsn) (parent : Result PageError PageLookup)
    → IsReply parent
    → (Repository.get_page rust_apply (new_inner threshold) key lsn
        >>= or_inherit rust_apply key (new_inner threshold) lsn alsn parent)
      ≡ parent
empty_inherits threshold key lsn alsn parent h =
    ap (λ r. r >>= or_inherit rust_apply key (new_inner threshold) lsn alsn parent) absent
    ∙ given parent h
  where
    absent : Repository.get_page rust_apply (new_inner threshold) key lsn ≡ ok not_found
    absent =
        unfold Repository.get_page get_page_with_base reconstruct_native rposition_base to_lookup in
        rw (gather-based (new_inner threshold) key lsn none, empty_own threshold key lsn)

    given :
        (r : Result PageError PageLookup)
        → IsReply r
        → (ok not_found >>= or_inherit rust_apply key (new_inner threshold) lsn alsn r) ≡ r
    given (ok (page p)) g =
        unfold or_inherit over_parent get_page_with_base to_lookup place in
        rw (
          gather-based (new_inner threshold) key lsn (some (alsn, p)),
          empty_own threshold key lsn,
          native_image key lsn alsn p g,
        )
    given (ok not_found) g = unfold or_inherit over_parent in refl
    given (err e) g = unfold or_inherit in refl
    given panic g = absurd g

branch-cases :
    (tenant tenant' : Tenant) (new_id parent : TimelineId) (alsn : Lsn)
    → branch_timeline tenant new_id parent alsn ≡ ok tenant'
    → (contains_key tenant.timelines parent ≡ true)
      × (contains_key tenant.timelines new_id ≡ false)
      × (tenant'.timelines
          ≡ branched new_id (new_inner tenant.freeze_threshold) parent alsn ∷ tenant.timelines)
unfolding branch_timeline
branch-cases tenant tenant' new_id parent alsn h = ground arith

-- A new branch of a tenant whose branches all come after their parents has, with the native
-- backend, the pages of its parent at the branch point, whatever the LSN asked for.
pub get_page-branch_timeline :
    (tenant tenant' : Tenant) (new_id parent : TimelineId) (alsn : Lsn) (key : PageKey) (lsn : Lsn)
    → IsLinked tenant.timelines
    → branch_timeline tenant new_id parent alsn ≡ ok tenant'
    → get_page rust_apply key tenant'.timelines new_id lsn
      ≡ get_page rust_apply key tenant.timelines parent alsn
get_page-branch_timeline tenant tenant' new_id parent alsn key lsn l h =
    let (present, fresh, e) = branch-cases tenant tenant' new_id parent alsn h in
    let repo = new_inner tenant.freeze_threshold in
    let ts = tenant.timelines in
    ap (λ us. get_page rust_apply key us new_id lsn) e
    ∙ get_page_branch rust_apply key (branched new_id repo parent alsn) ts new_id lsn parent alsn
        (unfold branched in (==_iff new_id new_id).1 refl) (unfold branched in refl)
    ∙ (unfold branched in
        empty_inherits tenant.freeze_threshold key lsn alsn (get_page rust_apply key ts parent alsn)
          (get_page-IsReply key ts parent alsn l present))
