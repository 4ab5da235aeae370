-- ===== src/Pageserver/Tenant/Gc.antt =====
-- Garbage collection across branches: no read at or above the horizon notices it.
use aethel_db.Prelude.{
  ◌≡◌, refl, subst, sym, ◌∙◌, ◌≤◌, ◌-◌, ◌^◌, min, some, List, [], ◌∷◌, arith, All, Option-cases,
  inl, inr, Bool-cases, ◌==◌, ==_iff,
}
use aethel_db.Result.{Result, ok, err, panic, ◌>>=◌}
use aethel_db.Ord.{nat_ord}
use aethel_db.Ord.Map.{lookup, lookup-insert}
use aethel_db.Common.Ids.{TimelineId}
use aethel_db.Common.Lsn.{Lsn}
use aethel_db.Common.Page.{PageKey}
use aethel_db.Pageserver.Page.{PageError}
use aethel_db.Pageserver.Redo.{WalRedoManager}
use aethel_db.Pageserver.Redo.Laws.{IsRedo}
use aethel_db.Pageserver.Repository
use aethel_db.Pageserver.Repository.{Inner, PageLookup, page, not_found}
use aethel_db.Pageserver.Repository.Sources.{IsWellFormed}
use aethel_db.Pageserver.Repository.Compact.{compact}
use aethel_db.Pageserver.Repository.Compact.Reads.{get_page-compact, get_page_with_base-compact}
use aethel_db.Pageserver.Timeline.{Timeline, get_page, or_inherit, over_parent}
use aethel_db.Pageserver.Timeline.Steps.{get_page_other, get_page_root, get_page_branch}
use aethel_db.Pageserver.Tenant.{
  Tenant, unwrap_or, pin_one, child_pins, horizon_of, compact_all, gc,
}

-- A pin at or below a branch point.
abbrev IsPinned : List (TimelineId × Lsn) → TimelineId → Lsn → Type 0
IsPinned pins parent alsn = (pin : Lsn) × (lookup parent pins ≡ some pin) × (pin ≤ alsn)

abbrev IsCovered : List (TimelineId × Lsn) → Timeline → Type 0
IsCovered pins t =
    (parent : TimelineId) (alsn : Lsn)
    → t.ancestor ≡ some (parent, alsn)
    → IsPinned pins parent alsn

lowered :
    (pins : List (TimelineId × Lsn)) (t : Timeline) (parent : TimelineId) (alsn : Lsn)
    → IsPinned pins parent alsn
    → IsPinned (pin_one pins t) parent alsn
unfolding pin_one
lowered pins t parent alsn (pin, e, le) = elim (Option-cases t.ancestor) [
  | inl h ↦ (pin, ground arith, le)
  | inr ((p, a), h) ↦
      let new : Lsn = min (unwrap_or (lookup p pins) (2 ^ 64 - 1)) a in
      elim (Bool-cases (p == parent)) [
        | inl s ↦ (
          min pin a,
          ground (arith, lookup-insert {K = TimelineId} p parent new pins),
          omega arith,
        )
        | inr s ↦ (pin, ground (arith, lookup-insert {K = TimelineId} p parent new pins), le)
      ]
]

covers_self : (pins : List (TimelineId × Lsn)) (t : Timeline) → IsCovered (pin_one pins t) t
unfolding pin_one
covers_self pins t parent alsn h = (
  min (unwrap_or (lookup parent pins) (2 ^ 64 - 1)) alsn,
  ground (
    arith,
    lookup-insert {K = TimelineId} parent parent
        (min (unwrap_or (lookup parent pins) (2 ^ 64 - 1)) alsn) pins,
  ),
  omega arith,
)

child_pins-lowered :
    (ts : List Timeline) (pins : List (TimelineId × Lsn)) (parent : TimelineId) (alsn : Lsn)
    → IsPinned pins parent alsn
    → IsPinned (child_pins pins ts) parent alsn
unfolding child_pins
child_pins-lowered [] pins parent alsn h = h
child_pins-lowered (t ∷ ts) pins parent alsn h =
    child_pins-lowered ts (pin_one pins t) parent alsn (lowered pins t parent alsn h)

-- The scan covers every branch that it goes through.
child_pins_cover :
    (ts : List Timeline) (pins : List (TimelineId × Lsn)) → All (IsCovered (child_pins pins ts)) ts
unfolding child_pins
child_pins_cover [] pins = tt
child_pins_cover (t ∷ ts) pins = (
  (λ parent alsn h.
      child_pins-lowered ts (pin_one pins t) parent alsn (covers_self pins t parent alsn h)),
  child_pins_cover ts (pin_one pins t),
)

horizon-le_pin :
    (pins : List (TimelineId × Lsn)) (requested : Lsn) (parent : TimelineId) (alsn : Lsn)
    → IsPinned pins parent alsn
    → horizon_of pins requested parent ≤ alsn
unfolding horizon_of
horizon-le_pin pins requested parent alsn (pin, e, le) = ground arith

horizon-le_requested :
    (pins : List (TimelineId × Lsn)) (requested : Lsn) (id : TimelineId)
    → horizon_of pins requested id ≤ requested
unfolding horizon_of
horizon-le_requested pins requested id = ground arith

abbrev pub AllWellFormed : List Timeline → Type 0
AllWellFormed ts = All (λ t. IsWellFormed t.repo) ts

module _ (manager : WalRedoManager) (law : IsRedo manager) (key : PageKey) where
  -- Equal own pages and parent pages give equal reads.
  or_inherit-compact :
      (repo : Inner) (h lsn alsn : Lsn) (before after : Result PageError PageLookup)
      → IsWellFormed repo
      → h ≤ lsn
      → after ≡ before
      → (Repository.get_page manager (compact repo h).0 key lsn
          >>= or_inherit manager key (compact repo h).0 lsn alsn after)
        ≡ (Repository.get_page manager repo key lsn >>= or_inherit manager key repo lsn alsn before)
  or_inherit-compact repo h lsn alsn before after w le e =
      rw (get_page-compact manager law repo h key lsn w le, e)
        (same_tail (Repository.get_page manager repo key lsn) refl before)
    where
      over :
          (p : PageLookup)
          → Repository.get_page manager repo key lsn ≡ ok not_found
          → over_parent manager key (compact repo h).0 lsn alsn p
            ≡ over_parent manager key repo lsn alsn p
      over (page base) absent =
          unfold over_parent in
          get_page_with_base-compact manager law repo h key lsn (some (alsn, base)) w le absent
      over not_found absent = unfold over_parent in refl

      same_tail :
          (own : Result PageError PageLookup)
          → Repository.get_page manager repo key lsn ≡ own
          → (parent : Result PageError PageLookup)
          → (own >>= or_inherit manager key (compact repo h).0 lsn alsn parent)
            ≡ (own >>= or_inherit manager key repo lsn alsn parent)
      same_tail (ok (page p)) g parent = unfold or_inherit in refl
      same_tail (ok not_found) g (ok p) = unfold or_inherit in over p g
      same_tail (ok not_found) g (err x) = unfold or_inherit in refl
      same_tail (ok not_found) g panic = unfold or_inherit in refl
      same_tail (err x) g parent = refl
      same_tail panic g parent = refl

  get_page-compact_all :
      (pins : List (TimelineId × Lsn)) (requested : Lsn) (ts : List Timeline) (id : TimelineId)
      (lsn : Lsn)
      → AllWellFormed ts
      → All (IsCovered pins) ts
      → horizon_of pins requested id ≤ lsn
      → get_page manager key (compact_all pins requested ts) id lsn ≡ get_page manager key ts id lsn
  unfolding compact_all
  get_page-compact_all pins requested [] id lsn w c le = unfold get_page in refl
  get_page-compact_all pins requested (t ∷ ts) id lsn w c le =
      let h = horizon_of pins requested t.id in
      let t' : Timeline = record t { repo = (compact t.repo h).0 } in
      let rest = compact_all pins requested ts in
      elim (Bool-cases (t.id == id)) [
        | inr e ↦
            get_page_other manager key t' rest id lsn e
            ∙ get_page-compact_all pins requested ts id lsn w.1 c.1 le
            ∙ sym (get_page_other manager key t ts id lsn e)
        | inl e ↦
            let at : h ≤ lsn =
              subst (λ i. horizon_of pins requested i ≤ lsn) (sym ((==_iff t.id id).0 e)) le in
            elim (Option-cases t.ancestor) [
              | inl a ↦
                  get_page_root manager key t' rest id lsn e a
                  ∙ get_page-compact manager law t.repo h key lsn w.0 at
                  ∙ sym (get_page_root manager key t ts id lsn e a)
              | inr ((parent, alsn), a) ↦
                  get_page_branch manager key t' rest id lsn parent alsn e a
                  ∙ or_inherit-compact t.repo h lsn alsn (get_page manager key ts parent alsn)
                      (get_page manager key rest parent alsn) w.0 at
                      (get_page-compact_all pins requested ts parent alsn w.1 c.1
                        (horizon-le_pin pins requested parent alsn (c.0 parent alsn a)))
                  ∙ sym (get_page_branch manager key t ts id lsn parent alsn e a)
            ]
      ]

  -- With any redo backend that keeps its contract, and where every repository is well-formed, a
  -- garbage collection changes no read, on any branch, at or above the requested horizon: pages
  -- that branches inherit below it are kept by the pins.
  pub get_page-gc :
      (tenant : Tenant) (requested : Lsn) (id : TimelineId) (lsn : Lsn)
      → AllWellFormed tenant.timelines
      → requested ≤ lsn
      → get_page manager key (gc tenant requested).0.timelines id lsn
        ≡ get_page manager key tenant.timelines id lsn
  unfolding gc
  get_page-gc tenant requested id lsn w le =
      let pins = child_pins [] tenant.timelines in
      let low = horizon-le_requested pins requested id in
      get_page-compact_all pins requested tenant.timelines id lsn w
        (child_pins_cover tenant.timelines []) (omega arith)
