-- ===== src/Pageserver/Tenant/Isolation.antt =====
-- Writes to one timeline and reads of the others.
use aethel_db.Prelude.{
  ℕ, ◌≡◌, ◌≢◌, refl, ap, sym, ◌∙◌, Option, none, some, List, [], ◌∷◌, arith, All, if◌then◌else◌,
  Option-cases, inl, inr, Bool-cases, ◌==◌, ==_iff,
}
use aethel_db.Result.{Result, ok, err, panic, ◌>>=◌}
use aethel_db.Common.Ids.{TimelineId}
use aethel_db.Common.Lsn.{Lsn}
use aethel_db.Common.Page.{PageKey}
use aethel_db.Pageserver.Page.{PageError, Modification}
use aethel_db.Pageserver.Redo.{WalRedoManager}
use aethel_db.Pageserver.Repository
use aethel_db.Pageserver.Repository.{Inner, PageLookup, page, not_found, get_page_with_base}
use aethel_db.Pageserver.Repository.Sources.{IsWellFormed}
use aethel_db.Pageserver.Repository.Ingest.{AllFresh, Elsewhere, get_page-ingest}
use aethel_db.Pageserver.Timeline.{Timeline, get_page, or_inherit, over_parent, ingest}
use aethel_db.Pageserver.Timeline.Steps.{get_page_other, get_page_root, get_page_branch}
use aethel_db.Pageserver.Tenant.{ingest_into}
use aethel_db.Pageserver.Tenant.Gc.{AllWellFormed}

own_ext_page :
    (manager : WalRedoManager) (key : PageKey) (a b : Inner) (lsn : Lsn)
    → get_page_with_base manager a key lsn none ≡ get_page_with_base manager b key lsn none
    → Repository.get_page manager a key lsn ≡ Repository.get_page manager b key lsn
unfolding Repository.get_page
own_ext_page manager key a b lsn h = h

-- Repositories that answer a read alike, with and without a base, answer it alike for a branch.
module _ (manager : WalRedoManager) (key : PageKey) (a b : Inner) (lsn alsn : Lsn) where
  or_inherit_ext :
      (parent : Result PageError PageLookup)
      → ((base : Option (Lsn × List ℕ))
          → get_page_with_base manager a key lsn base ≡ get_page_with_base manager b key lsn base)
      → (Repository.get_page manager a key lsn >>= or_inherit manager key a lsn alsn parent)
        ≡ (Repository.get_page manager b key lsn >>= or_inherit manager key b lsn alsn parent)
  unfolding Repository.get_page
  or_inherit_ext parent same =
      rw (same none) (tail (get_page_with_base manager b key lsn none) parent)
    where
      over :
          (p : PageLookup)
          → over_parent manager key a lsn alsn p ≡ over_parent manager key b lsn alsn p
      over (page base) = unfold over_parent in same (some (alsn, base))
      over not_found = unfold over_parent in refl

      tail :
          (own parent : Result PageError PageLookup)
          → (own >>= or_inherit manager key a lsn alsn parent)
            ≡ (own >>= or_inherit manager key b lsn alsn parent)
      tail (ok (page p)) parent = unfold or_inherit in refl
      tail (ok not_found) (ok p) = unfold or_inherit in over p
      tail (ok not_found) (err x) = unfold or_inherit in refl
      tail (ok not_found) panic = unfold or_inherit in refl
      tail (err x) parent = refl
      tail panic parent = refl

module _ (manager : WalRedoManager) (key : PageKey) (written : TimelineId)
    (mods : List Modification) where
  -- The writes come after every branch point on the written timeline.
  abbrev pub AfterBranches : List Timeline → Type 0
  AfterBranches ts =
      All (λ t. (alsn : Lsn) → t.ancestor ≡ some (written, alsn) → All (Elsewhere key alsn) mods) ts

  abbrev pub FreshIn : List Timeline → Type 0
  FreshIn ts = All (λ t. t.id ≡ written → AllFresh t.repo mods) ts

  touched : Timeline → Timeline
  touched t = if t.id == written then ingest t mods else t

  touched-reads :
      (t : Timeline) (lsn : Lsn) (base : Option (Lsn × List ℕ))
      → IsWellFormed t.repo
      → (t.id ≡ written → AllFresh t.repo mods)
      → (t.id ≡ written → All (Elsewhere key lsn) mods)
      → get_page_with_base manager (touched t).repo key lsn base
        ≡ get_page_with_base manager t.repo key lsn base
  unfolding touched ingest
  touched-reads t lsn base w fresh away = elim (Bool-cases (t.id == written)) [
    | inl e ↦
        let g = (==_iff t.id written).0 e in
        rw e (get_page-ingest manager t.repo mods key lsn base w (fresh g) (away g))
    | inr e ↦ rw e
  ]

  touched_id : (t : Timeline) → (touched t).id ≡ t.id
  unfolding touched ingest
  touched_id t = ground arith

  touched_ancestor : (t : Timeline) → (touched t).ancestor ≡ t.ancestor
  unfolding touched ingest
  touched_ancestor t = ground arith

  ingest_into_step :
      (t : Timeline) (ts : List Timeline)
      → ingest_into written mods (t ∷ ts) ≡ touched t ∷ ingest_into written mods ts
  unfolding ingest_into touched
  ingest_into_step t ts = refl

  reads_kept :
      (ts : List Timeline) (id : TimelineId) (lsn : Lsn)
      → AllWellFormed ts
      → FreshIn ts
      → AfterBranches ts
      → (id ≡ written → All (Elsewhere key lsn) mods)
      → get_page manager key (ingest_into written mods ts) id lsn ≡ get_page manager key ts id lsn
  reads_kept [] id lsn w f c away = unfold ingest_into in refl
  reads_kept (t ∷ ts) id lsn w f c away =
      let rest = ingest_into written mods ts in
      ap (λ us. get_page manager key us id lsn) (ingest_into_step t ts)
      ∙ elim (Bool-cases (t.id == id)) [
        | inr e ↦
            get_page_other manager key (touched t) rest id lsn (rw touched_id e)
            ∙ reads_kept ts id lsn w.1 f.1 c.1 away
            ∙ sym (get_page_other manager key t ts id lsn e)
        | inl e ↦
            let here : t.id ≡ id = (==_iff t.id id).0 e in
            let same = λ (base : Option (Lsn × List ℕ)).
              touched-reads t lsn base w.0 f.0 (λ g. away (sym here ∙ g)) in
            elim (Option-cases t.ancestor) [
              | inl a ↦
                  get_page_root manager key (touched t) rest id lsn (rw touched_id e)
                    (touched_ancestor t ∙ a)
                  ∙ own_ext_page manager key (touched t).repo t.repo lsn (same none)
                  ∙ sym (get_page_root manager key t ts id lsn e a)
              | inr ((parent, alsn), a) ↦
                  get_page_branch manager key (touched t) rest id lsn parent alsn (rw touched_id e)
                    (touched_ancestor t ∙ a)
                  ∙ ap
                      (λ r.
                        Repository.get_page manager (touched t).repo key lsn
                        >>= or_inherit manager key (touched t).repo lsn alsn r)
                      (reads_kept ts parent alsn w.1 f.1 c.1
                        (λ g. c.0 alsn (a ∙ ap (λ p. some (p, alsn)) g)))
                  ∙ or_inherit_ext manager key (touched t).repo t.repo lsn alsn
                      (get_page manager key ts parent alsn) same
                  ∙ sym (get_page_branch manager key t ts id lsn parent alsn e a)
            ]
      ]

  -- A write to one timeline, after every branch point on it, changes no read of another timeline:
  -- neither of its parent, nor of its branches and theirs; where every repository is well-formed,
  -- and the written places are in no frozen layer of the timeline.
  pub get_page-ingest_into :
      (ts : List Timeline) (id : TimelineId) (lsn : Lsn)
      → AllWellFormed ts
      → FreshIn ts
      → AfterBranches ts
      → id ≢ written
      → get_page manager key (ingest_into written mods ts) id lsn ≡ get_page manager key ts id lsn
  get_page-ingest_into ts id lsn w f c ne = reads_kept ts id lsn w f c (λ e. absurd (ne e))
