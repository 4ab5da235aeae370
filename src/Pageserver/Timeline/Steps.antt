-- ===== src/Pageserver/Timeline/Steps.antt =====
-- One step of `get_page` down the heap, as equations.
use aethel_db.Prelude.{◌≡◌, true, false, none, some, List, ◌∷◌, arith, ◌==◌}
use aethel_db.Result.{◌>>=◌}
use aethel_db.Common.Ids.{TimelineId}
use aethel_db.Common.Lsn.{Lsn}
use aethel_db.Common.Page.{PageKey}
use aethel_db.Pageserver.Redo.{WalRedoManager}
use aethel_db.Pageserver.Repository
use aethel_db.Pageserver.Timeline.{Timeline, get_page, or_inherit}

module _ (manager : WalRedoManager) (key : PageKey) (t : Timeline) (ts : List Timeline)
    (id : TimelineId) (lsn : Lsn) where
  pub get_page_other :
      (t.id == id) ≡ false → get_page manager key (t ∷ ts) id lsn ≡ get_page manager key ts id lsn
  unfolding get_page
  get_page_other e = ground arith

  pub get_page_root :
      (t.id == id) ≡ true
      → t.ancestor ≡ none
      → get_page manager key (t ∷ ts) id lsn ≡ Repository.get_page manager t.repo key lsn
  unfolding get_page
  get_page_root e a = ground arith

  pub get_page_branch :
      (parent : TimelineId) (alsn : Lsn)
      → (t.id == id) ≡ true
      → t.ancestor ≡ some (parent, alsn)
      → get_page manager key (t ∷ ts) id lsn ≡ (
          Repository.get_page manager t.repo key lsn
          >>= or_inherit manager key t.repo lsn alsn (get_page manager key ts parent alsn))
  unfolding get_page
  get_page_branch parent alsn e a = ground arith
