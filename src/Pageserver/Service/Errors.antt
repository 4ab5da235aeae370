-- ===== src/Pageserver/Service/Errors.antt =====
-- The errors of a read with the native redo backend, whose texts are short.
use aethel_db.Prelude.{
  ℕ, ◌+◌, true, false, Option, none, some, List, [], ◌∷◌, length, Bool, ltb, ◌==◌, if◌then◌else◌,
  Option-cases, inl, inr, Bool-cases, replicate, drop, get_elem?,
}
use aethel_db.Result.{Result, ok, err, panic, ◌>>=◌, map_err}
use aethel_db.Common.Ids.{TimelineId}
use aethel_db.Common.Lsn.{Lsn}
use aethel_db.Common.Page.{PageKey, page_size}
use aethel_db.Pageserver.Page.{
  ByteEdit, PageVersion, PageError, image, delta, wal_record, bad_image_size, overwrite,
  apply_edits, apply_to,
}
use aethel_db.Pageserver.Redo.{
  RedoError, History, rust_apply, replay, from_base, rposition_base, reconstruct_native,
}
use aethel_db.Pageserver.Repository
use aethel_db.Pageserver.Repository.{
  Inner, PageLookup, page, not_found, gather, to_lookup, get_page_with_base,
}
use aethel_db.Pageserver.Timeline.{Timeline, get_page, or_inherit, over_parent}
use aethel_db.Pageserver.Timeline.Steps.{get_page_other, get_page_root, get_page_branch}
use aethel_db.Pageserver.Service.Texts.{IsShort, needs_postgres-IsText}

-- If a result is an error, it satisfies a predicate.
abbrev pub Errs {ℓ κ} : {E : Type ℓ} {A : Type κ} → (E → Type 0) → Result E A → Type 0
Errs P (ok a) = Unit
Errs P (err e) = P e
Errs P panic = Unit

bind-Errs {ℓ κ ι} :
    {E : Type ℓ} {A : Type κ} {B : Type ι} (P : E → Type 0) (r : Result E A) (f : A → Result E B)
    → Errs P r
    → ((a : A) → Errs P (f a))
    → Errs P (r >>= f)
bind-Errs P (ok a) f h g = g a
bind-Errs P (err e) f h g = h
bind-Errs P panic f h g = tt

if-Errs {ℓ κ} :
    {E : Type ℓ} {A : Type κ} (P : E → Type 0) (b : Bool) (x y : Result E A)
    → Errs P x
    → Errs P y
    → Errs P (if b then x else y)
if-Errs P true x y h g = h
if-Errs P false x y h g = g

overwrite-Errs :
    (xs : List ℕ) (start : ℕ) (bytes : List ℕ) → Errs IsShort (overwrite xs start bytes)
unfolding overwrite
overwrite-Errs xs start bytes =
    if-Errs IsShort (ltb (length xs) (start + length bytes)) panic (ok _) tt tt

apply_edits-Errs : (edits : List ByteEdit) (xs : List ℕ) → Errs IsShort (apply_edits edits xs)
unfolding apply_edits
apply_edits-Errs [] xs = tt
apply_edits-Errs (e ∷ edits) xs =
    if-Errs IsShort (ltb page_size (e.offset + length e.bytes)) (err _) _ tt (
      bind-Errs IsShort (overwrite xs e.offset e.bytes) _ (overwrite-Errs xs e.offset e.bytes)
        (λ p. apply_edits-Errs edits p))

apply_to-Errs : (v : PageVersion) (xs : List ℕ) → Errs IsShort (apply_to v xs)
unfolding apply_to
apply_to-Errs (image img) xs =
    if-Errs IsShort (length img == page_size) _ (err (bad_image_size (length img)))
      (if-Errs IsShort (length img == length xs) (ok img) panic tt tt) tt
apply_to-Errs (delta edits) xs = apply_edits-Errs edits xs
apply_to-Errs (wal_record w) xs = tt

-- The errors of the native backend.
abbrev IsNative : RedoError → Type 0
IsNative (RedoError.apply e) = IsShort e
IsNative (RedoError.needs_postgres l) = Unit
IsNative (RedoError.process t) = ⊥
IsNative (RedoError.redo_failed t) = ⊥

applied-Errs :
    (r : Result PageError (List ℕ)) (f : List ℕ → Result RedoError (Option (List ℕ)))
    → Errs IsShort r
    → ((p : List ℕ) → Errs IsNative (f p))
    → Errs IsNative (map_err RedoError.apply r >>= f)
applied-Errs (ok p) f h g = g p
applied-Errs (err e) f h g = h
applied-Errs panic f h g = tt

replay-Errs : (vs : History) (xs : List ℕ) → Errs IsNative (replay xs vs)
unfolding replay
replay-Errs [] xs = tt
replay-Errs ((l, wal_record w) ∷ vs) xs = tt
replay-Errs ((l, image img) ∷ vs) xs =
    applied-Errs (apply_to (image img) xs) (λ p. replay p vs) (apply_to-Errs (image img) xs)
      (λ p. replay-Errs vs p)
replay-Errs ((l, delta edits) ∷ vs) xs =
    applied-Errs (apply_to (delta edits) xs) (λ p. replay p vs) (apply_to-Errs (delta edits) xs)
      (λ p. replay-Errs vs p)

from_base-Errs :
    (o : Option (Lsn × PageVersion)) (rest : History) → Errs IsNative (from_base o rest)
unfolding from_base
from_base-Errs none rest = tt
from_base-Errs (some (l, delta edits)) rest = tt
from_base-Errs (some (l, wal_record w)) rest = tt
from_base-Errs (some (l, image img)) rest =
    applied-Errs (apply_to (image img) (replicate page_size 0)) (λ p. replay p rest)
      (apply_to-Errs (image img) (replicate page_size 0)) (λ p. replay-Errs rest p)

reconstruct_native-Errs :
    (key : PageKey) (lsn : Lsn) (vs : History) → Errs IsNative (reconstruct_native key lsn vs)
unfolding reconstruct_native
reconstruct_native-Errs key lsn vs = elim (Option-cases (rposition_base vs)) [
  | inl e ↦ rw (e, reconstruct_native) tt
  | inr (i, e) ↦ rw (e, reconstruct_native) (from_base-Errs (get_elem? vs i) (drop (i + 1) vs))
]

to_lookup-Errs :
    (r : Result RedoError (Option (List ℕ))) → Errs IsNative r → Errs IsShort (to_lookup r)
unfolding to_lookup
to_lookup-Errs (ok none) h = tt
to_lookup-Errs (ok (some p)) h = tt
to_lookup-Errs (err (RedoError.apply e)) h = h
to_lookup-Errs (err (RedoError.needs_postgres l)) h = needs_postgres-IsText l
to_lookup-Errs (err (RedoError.process t)) h = absurd h
to_lookup-Errs (err (RedoError.redo_failed t)) h = absurd h
to_lookup-Errs panic h = tt

with_base-Errs :
    (repo : Inner) (key : PageKey) (lsn : Lsn) (base : Option (Lsn × List ℕ))
    → Errs IsShort (get_page_with_base rust_apply repo key lsn base)
unfolding get_page_with_base
with_base-Errs repo key lsn base =
    to_lookup-Errs _ (reconstruct_native-Errs key lsn (gather repo key lsn base))

own-Errs :
    (repo : Inner) (key : PageKey) (lsn : Lsn)
    → Errs IsShort (Repository.get_page rust_apply repo key lsn)
unfolding Repository.get_page
own-Errs repo key lsn = with_base-Errs repo key lsn none

over_parent-Errs :
    (key : PageKey) (repo : Inner) (lsn alsn : Lsn) (r : PageLookup)
    → Errs IsShort (over_parent rust_apply key repo lsn alsn r)
unfolding over_parent
over_parent-Errs key repo lsn alsn (page p) = with_base-Errs repo key lsn (some (alsn, p))
over_parent-Errs key repo lsn alsn not_found = tt

inherit-Errs :
    (key : PageKey) (repo : Inner) (lsn alsn : Lsn) (parent : Result PageError PageLookup)
    (r : PageLookup)
    → Errs IsShort parent
    → Errs IsShort (or_inherit rust_apply key repo lsn alsn parent r)
unfolding or_inherit
inherit-Errs key repo lsn alsn parent (page p) h = tt
inherit-Errs key repo lsn alsn parent not_found h =
    bind-Errs IsShort parent _ h (over_parent-Errs key repo lsn alsn)

-- Whatever a read through any chain of branches meets, an error of it has a short text.
pub get_page-Errs :
    (key : PageKey) (ts : List Timeline) (id : TimelineId) (lsn : Lsn)
    → Errs IsShort (get_page rust_apply key ts id lsn)
get_page-Errs key [] id lsn = unfold get_page in tt
get_page-Errs key (t ∷ ts) id lsn = elim (Bool-cases (t.id == id)) [
  | inr e ↦ rw (get_page_other rust_apply key t ts id lsn e) (get_page-Errs key ts id lsn)
  | inl e ↦ elim (Option-cases t.ancestor) [
    | inl a ↦ rw (get_page_root rust_apply key t ts id lsn e a) (own-Errs t.repo key lsn)
    | inr ((parent, alsn), a) ↦ rw (get_page_branch rust_apply key t ts id lsn parent alsn e a) (
        bind-Errs IsShort (Repository.get_page rust_apply t.repo key lsn) _
          (own-Errs t.repo key lsn)
          (λ r.
            inherit-Errs key t.repo lsn alsn (get_page rust_apply key ts parent alsn) r
              (get_page-Errs key ts parent alsn)))
  ]
]
