-- ===== src/Pageserver/Repository/Compact/Reads.antt =====
-- Reads at or above the horizon do not notice a compaction.
use aethel_db.Prelude.{
  ℕ, ◌≡◌, refl, ap, subst, sym, ◌∙◌, ◌≤◌, ◌⊎◌, Bool, true, false, Option, none, some, List, [], ◌∷◌,
  ◌++◌, arith, All, ltb, leb, length, le→leb, if◌then◌else◌, Option-cases, inl, inr, Bool-cases,
  or_else, ◌==◌,
}
use aethel_db.Result.{Result, ok, err, panic}
use aethel_db.Ord.{nat_ord, pair_ord}
use aethel_db.Ord.Map.{
  lookup, IsSorted, find, Separate, lookup-keep, keep-IsSorted, pick, IsSorted-ext, IsSorted-split,
  above, below,
}
use aethel_db.Common.Lsn.{Lsn}
use aethel_db.Common.Page.{PageKey, page_key_ord}
use aethel_db.Pageserver.Page.{PageVersion, is_base}
use aethel_db.Pageserver.Redo.{WalRedoManager, RedoError}
use aethel_db.Pageserver.Redo.Laws.{IsRedo}
use aethel_db.Pageserver.Layer.{Entries, is_empty}
use aethel_db.Pageserver.Repository.{Inner, not_found, get_page, get_page_with_base, to_lookup}
use aethel_db.Pageserver.Repository.Sources.{
  layer_sources, sources, IsWellFormed, version_at, own, own_ext, own-IsSorted, lookup-own,
  gather-based,
}
use aethel_db.Pageserver.Repository.Ingest.{get_page_with_base_ext}
use aethel_db.Pageserver.Repository.Compact.{compact, survivors, older_than}
use aethel_db.Pageserver.Repository.Compact.Merge.{Place}
use aethel_db.Pageserver.Repository.Compact.Horizon.{
  kept_base, survivors-IsSorted, lookup-survivors, kept_base_found,
}

-- The layer stack of the compacted survivors.
abbrev stack_of : Entries → List Entries
stack_of kept = if is_empty kept then [] else kept ∷ []

find-stack_of : (k : Place) (kept : Entries) → find k (stack_of kept) ≡ lookup k kept
unfolding is_empty lookup
find-stack_of k [] = refl
find-stack_of k (e ∷ kept) = or_none (lookup k (e ∷ kept))
  where
    or_none : (o : Option PageVersion) → or_else o none ≡ o
    or_none none = refl
    or_none (some v) = refl

module _ (inner : Inner) (h : Lsn) where
  -- Nothing was there to compact, or one layer of the survivors at most is left.
  compact-cases :
      ((compact inner h).0 ≡ inner)
      ⊎ (sources (compact inner h).0 ≡ inner.memtable ∷ stack_of (survivors inner h))
  unfolding compact
  compact-cases = elim (Bool-cases (length inner.layers == 0)) [
    | inl e ↦ inl (rw e)
    | inr e ↦
        inr
          (rw e (elim (Bool-cases (is_empty (survivors inner h))) [ inl g ↦ rw g | inr g ↦ rw g ]))
  ]

  compacted-version_at :
      (key : PageKey) (l : Lsn)
      → IsWellFormed inner
      → (version_at (compact inner h).0 key l ≡ version_at inner key l)
        ⊎ (version_at (compact inner h).0 key l
            ≡ or_else (lookup (key, l) inner.memtable) (
                if older_than (kept_base inner h key) l
                then none
                else find (key, l) (layer_sources inner.layers)))
  compacted-version_at key l w = elim compact-cases [
    | inl e ↦ inl (ap (λ i. version_at i key l) e)
    | inr e ↦ inr (
        ap (find (key, l)) e
        ∙ ap (or_else (lookup (key, l) inner.memtable))
            (find-stack_of (key, l) (survivors inner h) ∙ lookup-survivors inner h key l w))
  ]

  -- A version that is not older than the kept base is there as before.
  compacted-same :
      (key : PageKey) (l : Lsn)
      → IsWellFormed inner
      → older_than (kept_base inner h key) l ≡ false
      → version_at (compact inner h).0 key l ≡ version_at inner key l
  compacted-same key l w young = elim (compacted-version_at key l w) [
    | inl e ↦ e
    | inr e ↦ rw young at e
  ]

  stack_of-IsSorted : (kept : Entries) → IsSorted kept → All IsSorted (stack_of kept)
  unfolding is_empty
  stack_of-IsSorted [] s = tt
  stack_of-IsSorted (e ∷ kept) s = (s, tt)

  stack_of-Separate : (kept : Entries) → Separate (stack_of kept)
  unfolding is_empty
  stack_of-Separate [] = tt
  stack_of-Separate (e ∷ kept) = ((λ k v g. refl), tt)

  -- Compaction keeps the invariant: sorted sources, and no version in two of them.
  pub compact-IsWellFormed : IsWellFormed inner → IsWellFormed (compact inner h).0
  compact-IsWellFormed w = elim compact-cases [
    | inl e ↦ subst IsWellFormed (sym e) w
    | inr e ↦ record {
      ordered =
          subst (All IsSorted) (sym e)
            (w.ordered.0, stack_of-IsSorted (survivors inner h) (survivors-IsSorted inner h));
      separate = subst Separate (sym e) (
        (λ k v g.
            find-stack_of k (survivors inner h)
            ∙ lookup-survivors inner h k.0 k.1 w
            ∙ rw (w.separate.0 k v g) (if_same (older_than (kept_base inner h k.0) k.1))),
        stack_of-Separate (survivors inner h),
      );
    }
  ]
    where
      if_same : (b : Bool) → ◌≡◌ {A = Option PageVersion} (if b then none else none) none
      if_same true = refl
      if_same false = refl

  no_base_own :
      (key : PageKey) (lsn : Lsn)
      → IsWellFormed inner
      → kept_base inner h key ≡ none
      → own (compact inner h).0 key lsn ≡ own inner key lsn
  no_base_own key lsn w e =
      own_ext _ _ key lsn (compact-IsWellFormed w) w (λ l g. compacted-same key l w (rw e))

  base_present :
      (key : PageKey) (b : Lsn)
      → IsWellFormed inner
      → kept_base inner h key ≡ some b
      → (b ≤ h) × ((v : PageVersion) × (version_at inner key b ≡ some v) × (is_base v ≡ true))
  base_present key b w e =
      let (le, (v, found, base)) = kept_base_found inner h key b w e in
      (
        le,
        (
          v,
          elim (Option-cases (lookup (key, b) inner.memtable)) [
            | inl g ↦ rw g found
            | inr (u, g) ↦ absurd (none_some (sym (w.separate.0 (key, b) u g) ∙ found))
          ],
          base,
        ),
      )
    where
      none_some : {v : PageVersion} → ¬ (none ≡ some v)
      none_some g = cc

-- The history around a version that it has, in two repositories that agree from there on.
module _ (key : PageKey) (lsn b : Lsn) (v : PageVersion) where
  own_at :
      (i : Inner)
      → IsWellFormed i
      → b ≤ lsn
      → version_at i key b ≡ some v
      → own i key lsn ≡ below b (own i key lsn) ++ ((b, v) ∷ above b (own i key lsn))
  own_at i w le e =
      IsSorted-split b v (own i key lsn) (own-IsSorted i key lsn w)
        (lookup-own i key lsn b ∙ rw (le→leb b lsn le) e)

  above-own :
      (i j : Inner)
      → IsWellFormed i
      → IsWellFormed j
      → ((l : Lsn) → ltb b l ≡ true → version_at i key l ≡ version_at j key l)
      → above b (own i key lsn) ≡ above b (own j key lsn)
  above-own i j wi wj agree =
      IsSorted-ext (above b (own i key lsn)) (above b (own j key lsn))
        (keep-IsSorted (λ e. ltb b e.0) (own i key lsn) (own-IsSorted i key lsn wi))
        (keep-IsSorted (λ e. ltb b e.0) (own j key lsn) (own-IsSorted j key lsn wj))
        λ l.
          rw
            (
              lookup-keep (λ e. ltb b e.0) l (own i key lsn) (own-IsSorted i key lsn wi),
              lookup-keep (λ e. ltb b e.0) l (own j key lsn) (own-IsSorted j key lsn wj),
              lookup-own i key lsn l,
              lookup-own j key lsn l,
            )
            (picked l (version_at i key l) (version_at j key l) (agree l))
    where
      picked :
          (l : Lsn) (o p : Option PageVersion)
          → (ltb b l ≡ true → o ≡ p)
          → pick (λ e. ltb b e.0) l (if leb l lsn then o else none)
            ≡ pick (λ e. ltb b e.0) l (if leb l lsn then p else none)
      picked l o p g = elim (Bool-cases (ltb b l)) [
        | inl e ↦ rw (g e)
        | inr e ↦
            none_picked l (if leb l lsn then o else none) e
            ∙ sym (none_picked l (if leb l lsn then p else none) e)
      ]
        where
          none_picked :
              (l : Lsn) (o : Option PageVersion)
              → ltb b l ≡ false
              → pick (λ e. ltb b e.0) l o ≡ none
          none_picked l none e = refl
          none_picked l (some u) e = rw e

to_lookup-not_found :
    (r : Result RedoError (Option (List ℕ))) → to_lookup r ≡ ok not_found → r ≡ ok none
unfolding to_lookup
to_lookup-not_found (ok (some p)) h = cc
to_lookup-not_found (ok none) h = refl
to_lookup-not_found (err (RedoError.apply e)) h = cc
to_lookup-not_found (err (RedoError.needs_postgres e)) h = cc
to_lookup-not_found (err (RedoError.process e)) h = cc
to_lookup-not_found (err (RedoError.redo_failed e)) h = cc
to_lookup-not_found panic h = cc

module _ (manager : WalRedoManager) (law : IsRedo manager) (inner : Inner) (h : Lsn) (key : PageKey)
    (lsn : Lsn) where
  get_page-own :
      (i : Inner)
      → get_page manager i key lsn ≡ to_lookup (manager.reconstruct key lsn (own i key lsn))
  unfolding get_page get_page_with_base
  get_page-own i = rw (gather-based i key lsn none)

  reconstruct_kept :
      (b : Lsn)
      → IsWellFormed inner
      → h ≤ lsn
      → kept_base inner h key ≡ some b
      → manager.reconstruct key lsn (own (compact inner h).0 key lsn)
        ≡ manager.reconstruct key lsn (own inner key lsn)
  reconstruct_kept b w le e =
      let (b_le, (v, at, base)) = base_present inner h key b w e in
      let c = (compact inner h).0 in
      let wc = compact-IsWellFormed inner h w in
      let at_c = compacted-same inner h key b w (rw e (ground arith)) ∙ at in
      let fits : b ≤ lsn = omega arith in
      rw
        (
          own_at key lsn b v c wc fits at_c,
          own_at key lsn b v inner w fits at,
          law.from_base key lsn b v (below b (own c key lsn)) (above b (own c key lsn)) base,
          law.from_base key lsn b v (below b (own inner key lsn)) (above b (own inner key lsn))
              base,
        )
        (ap (λ vs. manager.reconstruct key lsn ((b, v) ∷ vs))
          (above-own key lsn b v c inner wc w
            (λ l g. compacted-same inner h key l w (rw e (younger b l g)))))
    where
      younger : (b l : Lsn) → ltb b l ≡ true → ltb l b ≡ false
      younger b l g = ground arith

  -- With any redo backend that keeps its contract, a read of any page of a well-formed repository
  -- at or above the horizon gives the same page, absence or error before and after a compaction.
  pub get_page-compact :
      IsWellFormed inner
      → h ≤ lsn
      → get_page manager (compact inner h).0 key lsn ≡ get_page manager inner key lsn
  get_page-compact w le = elim (Option-cases (kept_base inner h key)) [
    | inl e ↦
        get_page-own (compact inner h).0
        ∙ ap (λ vs. to_lookup (manager.reconstruct key lsn vs)) (no_base_own inner h key lsn w e)
        ∙ sym (get_page-own inner)
    | inr (b, e) ↦
        get_page-own (compact inner h).0
        ∙ ap to_lookup (reconstruct_kept b w le e)
        ∙ sym (get_page-own inner)
  ]

  -- Where the repository has no page of its own, a read over a base from outside is the same too.
  pub get_page_with_base-compact :
      (base : Option (Lsn × List ℕ))
      → IsWellFormed inner
      → h ≤ lsn
      → get_page manager inner key lsn ≡ ok not_found
      → get_page_with_base manager (compact inner h).0 key lsn base
        ≡ get_page_with_base manager inner key lsn base
  get_page_with_base-compact base w le absent = elim (Option-cases (kept_base inner h key)) [
    | inl e ↦ get_page_with_base_ext manager _ _ key lsn base (no_base_own inner h key lsn w e)
    | inr (b, e) ↦
        let (b_le, (v, at, is)) = base_present inner h key b w e in
        let fits : b ≤ lsn = omega arith in
        absurd (
          law.found key lsn b v (below b (own inner key lsn)) (above b (own inner key lsn)) is (
            subst (λ vs. manager.reconstruct key lsn vs ≡ ok none)
              (own_at key lsn b v inner w fits at)
              (to_lookup-not_found _ (sym (get_page-own inner) ∙ absent))))
  ]
