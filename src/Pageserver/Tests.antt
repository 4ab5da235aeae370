-- ===== src/Pageserver/Tests.antt =====
-- The theorems of the page server on a small tenant: a timeline with an image and two deltas, frozen
-- in between, and a branch of it.
use aethel_db.Prelude.{
  ℕ, ◌≡◌, refl, inr, none, List, [], ◌∷◌, ◌++◌, arith, length, replicate, length-replicate,
}
use aethel_db.Result.{ok, ◌>>=◌}
use aethel_db.Ord.{nat_ord, pair_ord}
use aethel_db.Ord.Map.{lookup, insert}
use aethel_db.Common.Lsn.{Lsn}
use aethel_db.Common.Page.{PageKey, RelTag, main, page_size, page_key_ord}
use aethel_db.Pageserver.Page.{image, delta, ByteEdit, Modification, is_base}
use aethel_db.Pageserver.Codec.{encode, decode}
use aethel_db.Pageserver.Codec.RoundTrip.{decode-encode}
use aethel_db.Pageserver.Layer.{Layer, is_empty}
use aethel_db.Pageserver.Layer.Format.{serialize, deserialize, deserialize-serialize}
use aethel_db.Pageserver.Redo.{rust_apply, reconstruct_native}
use aethel_db.Pageserver.Redo.Laws.{rust_apply-IsRedo}
use aethel_db.Pageserver.Redo.Pages.{IsAnswer, reconstruct_native-IsAnswer}
use aethel_db.Pageserver.Redo.Append.{native-snoc, onto}
use aethel_db.Pageserver.Repository.{
  Inner, new_inner, page, freeze, write, ingest_one, ingest, get_page, get_page_with_base,
}
use aethel_db.Pageserver.Repository.Sources.{IsWellFormed, version_at}
use aethel_db.Pageserver.Repository.Ingest.{
  new_inner-IsWellFormed, ingest-IsWellFormed, get_page-freeze, get_page-ingest, AllFresh,
}
use aethel_db.Pageserver.Repository.Writes.{get_page-image, get_page-delta, edited}
use aethel_db.Pageserver.Repository.Compact.{compact}
use aethel_db.Pageserver.Repository.Compact.Reads.{compact-IsWellFormed, get_page-compact}
use aethel_db.Pageserver.Timeline
use aethel_db.Pageserver.Timeline.{Timeline, root, branched}
use aethel_db.Pageserver.Tenant.{Tenant, gc, ingest_into, branch_timeline, contains_key}
use aethel_db.Pageserver.Tenant.Gc.{AllWellFormed, get_page-gc}
use aethel_db.Pageserver.Tenant.Isolation.{AfterBranches, FreshIn, get_page-ingest_into}
use aethel_db.Pageserver.Tenant.Branch.{
  IsLinked, IsReply, get_page-IsReply, get_page-branch_timeline,
}

abbrev heap : RelTag
heap = record { spc_node = 1663; db_node = 5; rel_node = 16384; fork = main }

abbrev first : PageKey
first = record { rel = heap; block = 0 }

unfoldable sevens : List ℕ
sevens = replicate page_size 7

abbrev edit : ByteEdit
edit = record { offset = 4; bytes = 1 ∷ 2 ∷ [] }

abbrev image_at : Lsn → Modification
image_at lsn = record { rel = heap; block = 0; lsn = lsn; version = image sevens }

abbrev delta_at : Lsn → Modification
delta_at lsn = record { rel = heap; block = 0; lsn = lsn; version = delta (edit ∷ []) }

abbrev batch : List Modification
batch = image_at 10 ∷ delta_at 20 ∷ delta_at 30 ∷ []

abbrev repo : Inner
repo = ingest (new_inner 2) batch

repo-IsWellFormed : IsWellFormed repo
unfolding ingest_one write freeze is_empty insert new_inner lookup
repo-IsWellFormed =
    ingest-IsWellFormed (new_inner 2) batch (new_inner-IsWellFormed 2) (refl, (refl, (refl, tt)))

abbrev tree : List Timeline
tree = branched 2 (new_inner 2) 1 20 ∷ root 1 repo ∷ []

tree-AllWellFormed : AllWellFormed tree
unfolding branched root
tree-AllWellFormed = (new_inner-IsWellFormed 2, (repo-IsWellFormed, tt))

abbrev tenant : Tenant
tenant = record { timelines = tree; freeze_threshold = 2 }

tree-IsLinked : IsLinked tree
unfolding branched root contains_key
tree-IsLinked = ((λ parent alsn e. ground arith), ((λ parent alsn e. absurd (cc)), tt))

get_page-gc_example :
    Timeline.get_page rust_apply first (gc tenant 25).0.timelines 2 30
    ≡ Timeline.get_page rust_apply first tree 2 30
get_page-gc_example =
    get_page-gc rust_apply rust_apply-IsRedo first tenant 25 2 30 tree-AllWellFormed (omega arith)

get_page-compact_example :
    get_page rust_apply (compact repo 15).0 first 20 ≡ get_page rust_apply repo first 20
get_page-compact_example =
    get_page-compact rust_apply rust_apply-IsRedo repo 15 first 20 repo-IsWellFormed (omega arith)

compact-IsWellFormed_example : IsWellFormed (compact repo 15).0
compact-IsWellFormed_example = compact-IsWellFormed repo 15 repo-IsWellFormed

get_page-freeze_example :
    get_page_with_base rust_apply (freeze repo) first 30 none
    ≡ get_page_with_base rust_apply repo first 30 none
get_page-freeze_example = get_page-freeze rust_apply repo first 30 none repo-IsWellFormed

ingest-IsWellFormed_example : IsWellFormed (ingest (new_inner 2) batch)
unfolding ingest_one write freeze is_empty insert new_inner lookup
ingest-IsWellFormed_example =
    ingest-IsWellFormed (new_inner 2) batch (new_inner-IsWellFormed 2) (refl, (refl, (refl, tt)))

later_fresh : AllFresh repo (image_at 40 ∷ [])
unfolding ingest ingest_one write freeze is_empty insert new_inner lookup
later_fresh = (refl, tt)

get_page-ingest_example :
    get_page_with_base rust_apply (ingest repo (image_at 40 ∷ [])) first 30 none
    ≡ get_page_with_base rust_apply repo first 30 none
get_page-ingest_example =
    get_page-ingest rust_apply repo (image_at 40 ∷ []) first 30 none repo-IsWellFormed later_fresh
      (inr (omega arith), tt)

sevens_full : length sevens ≡ page_size
unfolding sevens
sevens_full = length-replicate {A = ℕ} page_size 7

get_page-image_example :
    get_page rust_apply (ingest_one repo (image_at 40)) first 40 ≡ ok (page sevens)
get_page-image_example =
    get_page-image repo (image_at 40) sevens repo-IsWellFormed later_fresh.0 refl sevens_full

unwritten : version_at repo first 40 ≡ none
unfolding ingest ingest_one write freeze is_empty insert new_inner lookup
unwritten = refl

get_page-delta_example :
    get_page rust_apply (ingest_one repo (delta_at 40)) first 40
    ≡ (get_page rust_apply repo first 40 >>= edited (edit ∷ []))
get_page-delta_example =
    get_page-delta repo (delta_at 40) (edit ∷ []) repo-IsWellFormed unwritten refl

native-snoc_example :
    reconstruct_native first 30 (((10, image sevens) ∷ []) ++ ((20, delta (edit ∷ [])) ∷ []))
    ≡ (reconstruct_native first 30 ((10, image sevens) ∷ []) >>= onto 20 (delta (edit ∷ [])))
unfolding is_base
native-snoc_example = native-snoc 20 (delta (edit ∷ [])) first 30 ((10, image sevens) ∷ []) refl

reconstruct_native-IsAnswer_example :
    IsAnswer (reconstruct_native first 20 ((20, delta (edit ∷ [])) ∷ []))
reconstruct_native-IsAnswer_example =
    reconstruct_native-IsAnswer first 20 ((20, delta (edit ∷ [])) ∷ [])

tree-FreshIn : FreshIn rust_apply first 1 (image_at 40 ∷ []) tree
unfolding branched root
tree-FreshIn = ((λ e. absurd (omega arith)), ((λ e. later_fresh), tt))

tree-AfterBranches : AfterBranches rust_apply first 1 (image_at 40 ∷ []) tree
unfolding branched root
tree-AfterBranches = ((λ alsn e. (inr (ground arith), tt)), ((λ alsn e. absurd (cc)), tt))

get_page-ingest_into_example :
    Timeline.get_page rust_apply first (ingest_into 1 (image_at 40 ∷ []) tree) 2 100
    ≡ Timeline.get_page rust_apply first tree 2 100
get_page-ingest_into_example =
    get_page-ingest_into rust_apply first 1 (image_at 40 ∷ []) tree 2 100 tree-AllWellFormed
      tree-FreshIn tree-AfterBranches (λ e. omega arith)

get_page-IsReply_example : IsReply (Timeline.get_page rust_apply first tree 2 50)
unfolding contains_key branched
get_page-IsReply_example = get_page-IsReply first tree 2 50 tree-IsLinked refl

abbrev three : Tenant
three = record { timelines = branched 3 (new_inner 2) 2 40 ∷ tree; freeze_threshold = 2 }

get_page-branch_timeline_example :
    Timeline.get_page rust_apply first three.timelines 3 5
    ≡ Timeline.get_page rust_apply first tree 2 40
unfolding branch_timeline contains_key branched root
get_page-branch_timeline_example =
    get_page-branch_timeline tenant three 3 2 40 first 5 tree-IsLinked refl

decode-encode_example : decode (encode (delta_at 20)) ≡ ok (delta_at 20)
decode-encode_example =
    decode-encode (delta_at 20) (omega arith, omega arith, omega arith, omega arith, omega arith)
      (omega arith, ((omega arith, omega arith), tt))

abbrev frozen : Layer
frozen = record {
  id = 3;
  entries = ((first, 10), delta (edit ∷ [])) ∷ ((first, 20), delta []) ∷ [];
}

deserialize-serialize_example : deserialize (serialize frozen) ≡ ok frozen
deserialize-serialize_example = deserialize-serialize frozen (
  omega arith,
  omega arith,
  ((refl, tt), (tt, tt)),
  (
    (
      (omega arith, omega arith, omega arith, omega arith, omega arith),
      (omega arith, ((omega arith, omega arith), tt)),
    ),
    (((omega arith, omega arith, omega arith, omega arith, omega arith), (omega arith, tt)), tt),
  ),
)
