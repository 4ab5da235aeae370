-- ===== src/Pageserver/Timeline.antt =====
-- pageserver/src/timeline.rs: branches. A timeline's `Arc` to its parent is the parent's identifier
-- in the heap of timelines, a list with the newest first: a parent was created before its branches,
-- so it stands further down. All timelines of a tenant share one redo backend.
pub mod Steps
use aethel_db.Prelude.{
  ℕ, max, Bool, true, false, Option, none, some, List, [], ◌∷◌, ◌==◌, if◌then◌else◌, or_else,
}
use aethel_db.Result.{Result, ok, err, panic, ◌>>=◌}
use aethel_db.Common.Ids.{TimelineId}
use aethel_db.Common.Lsn.{Lsn}
use aethel_db.Common.Page.{PageKey, RelTag}
use aethel_db.Pageserver.Page.{PageError, Modification}
use aethel_db.Pageserver.Redo.{WalRedoManager}
use aethel_db.Pageserver.Repository
use aethel_db.Pageserver.Repository.{Inner, PageLookup, page, not_found, get_page_with_base}

-- `Timeline` and `Ancestor`
pub record Timeline : Type 0 where
  pub id : TimelineId
  pub repo : Inner
  pub ancestor : Option (TimelineId × Lsn)

unfoldable pub root : TimelineId → Inner → Timeline
root id repo = record { id = id; repo = repo; ancestor = none }

unfoldable pub branched : TimelineId → Inner → TimelineId → Lsn → Timeline
branched id repo parent ancestor_lsn = record {
  id = id;
  repo = repo;
  ancestor = some (parent, ancestor_lsn);
}

unfoldable pub ingest : Timeline → List Modification → Timeline
ingest t mods = record t { repo = Repository.ingest t.repo mods }

module _ (manager : WalRedoManager) (key : PageKey) where
  -- What the parent gave at the branch point, with this branch's versions on top.
  unfoldable pub over_parent : Inner → Lsn → Lsn → PageLookup → Result PageError PageLookup
  over_parent repo lsn ancestor_lsn (page base) =
      get_page_with_base manager repo key lsn (some (ancestor_lsn, base))
  over_parent repo lsn ancestor_lsn not_found = ok not_found

  -- A page of this branch's own needs no parent.
  unfoldable pub or_inherit :
      Inner → Lsn → Lsn → Result PageError PageLookup → PageLookup → Result PageError PageLookup
  or_inherit repo lsn ancestor_lsn parent_page (page p) = ok (page p)
  or_inherit repo lsn ancestor_lsn parent_page not_found =
      parent_page >>= over_parent repo lsn ancestor_lsn

  -- `Timeline::get_page` of the timeline `id`. The heap always has it: a reference cannot dangle.
  unfoldable pub get_page : List Timeline → TimelineId → Lsn → Result PageError PageLookup
  get_page [] id lsn = panic
  get_page (t ∷ older) id lsn = elim (t.id == id) [
    | false ↦ get_page older id lsn
    | true ↦ elim t.ancestor [
      | none ↦ Repository.get_page manager t.repo key lsn
      | some (parent, ancestor_lsn) ↦
          Repository.get_page manager t.repo key lsn
          >>= or_inherit t.repo lsn ancestor_lsn (get_page older parent ancestor_lsn)
    ]
  ]

-- The larger of two sizes, or the one that is known.
abbrev pub larger : Option ℕ → Option ℕ → Option ℕ
larger (some a) (some b) = some (max a b)
larger a b = or_else a b

-- `Timeline::get_rel_size`
unfoldable pub get_rel_size : RelTag → List Timeline → TimelineId → Lsn → Option ℕ
get_rel_size rel [] id lsn = none
get_rel_size rel (t ∷ older) id lsn = elim (t.id == id) [
  | false ↦ get_rel_size rel older id lsn
  | true ↦ elim t.ancestor [
    | none ↦ Repository.get_rel_size t.repo rel lsn
    | some (parent, ancestor_lsn) ↦
        larger (Repository.get_rel_size t.repo rel lsn) (get_rel_size rel older parent ancestor_lsn)
  ]
]
