-- ===== src/Pageserver/Redo/Pages.antt =====
-- The native backend gives pages of the full size, and applies versions one by one.
use aethel_db.Prelude.{
  ℕ, suc, ◌+◌, ◌≡◌, refl, ◌∙◌, ◌≤◌, true, Option, none, some, List, [], ◌∷◌, ◌++◌, arith, length,
  length-append, length-take, length-drop, length-replicate, take, drop, replicate, get_elem?, ltb,
  ◌==◌, inl, inr, Bool-cases, Option-cases, ==_iff, ◌<◌,
}
use mathlib.Core.Bool.{false≢true}
use aethel_db.Result.{Result, ok, err, panic, ◌>>=◌, map_err}
use aethel_db.Common.Lsn.{Lsn}
use aethel_db.Common.Page.{PageKey, page_size}
use aethel_db.Pageserver.Page.{
  ByteEdit, PageVersion, PageError, image, delta, wal_record, overwrite, apply_edits, apply_to,
  is_base,
}
use aethel_db.Pageserver.Redo.{
  History, RedoError, apply, replay, from_base, rposition_base, reconstruct_native,
}

length-overwrite :
    (page : List ℕ) (start : ℕ) (bytes : List ℕ) {p : List ℕ}
    → overwrite page start bytes ≡ ok p
    → length p ≡ length page
unfolding overwrite
length-overwrite page start bytes h = ground (
  arith,
  length-append (take start page) (bytes ++ drop (start + length bytes) page),
  length-append bytes (drop (start + length bytes) page),
  length-take start page,
  length-drop (start + length bytes) page,
)

-- An edit that passes the test of its bounds stays inside a full page.
overwrite_fits :
    (page : List ℕ) (start : ℕ) (bytes : List ℕ)
    → length page ≡ page_size
    → start + length bytes ≤ page_size
    → (p : List ℕ) × (overwrite page start bytes ≡ ok p)
unfolding overwrite
overwrite_fits page start bytes h le =
    (take start page ++ (bytes ++ drop (start + length bytes) page), ground arith)

-- A full page or an error, and no panic.
abbrev pub IsFull : Result PageError (List ℕ) → Type 0
IsFull (ok p) = length p ≡ page_size
IsFull (err e) = Unit
IsFull panic = ⊥

-- No page, a full page or an error, and no panic.
abbrev pub IsAnswer : Result RedoError (Option (List ℕ)) → Type 0
IsAnswer (ok none) = Unit
IsAnswer (ok (some p)) = length p ≡ page_size
IsAnswer (err e) = Unit
IsAnswer panic = ⊥

apply_edits-IsFull :
    (edits : List ByteEdit) (page : List ℕ)
    → length page ≡ page_size
    → IsFull (apply_edits edits page)
unfolding apply_edits
apply_edits-IsFull [] page h = h
apply_edits-IsFull (e ∷ edits) page h =
    elim (Bool-cases (ltb page_size (e.offset + length e.bytes))) [
      | inl big ↦ rw big tt
      | inr fits ↦
          let (p, g) = overwrite_fits page e.offset e.bytes h (ground arith) in
          rw (fits, g) (apply_edits-IsFull edits p (length-overwrite page e.offset e.bytes g ∙ h))
    ]

-- On a full page every version gives a full page or an error; nothing panics.
pub apply_to-IsFull :
    (v : PageVersion) (page : List ℕ) → length page ≡ page_size → IsFull (apply_to v page)
unfolding apply_to
apply_to-IsFull (image img) page h = elim (Bool-cases (length img == page_size)) [
  | inl e ↦ rw (e, h, e) ((==_iff (length img) page_size).0 e)
  | inr e ↦ rw e tt
]
apply_to-IsFull (delta edits) page h = apply_edits-IsFull edits page h
apply_to-IsFull (wal_record w) page h = tt

bind-IsAnswer :
    (r : Result PageError (List ℕ)) (f : List ℕ → Result RedoError (Option (List ℕ)))
    → IsFull r
    → ((p : List ℕ) → length p ≡ page_size → IsAnswer (f p))
    → IsAnswer (map_err apply r >>= f)
bind-IsAnswer (ok p) f h g = g p h
bind-IsAnswer (err e) f h g = tt
bind-IsAnswer panic f h g = h

replay-IsAnswer :
    (vs : History) (page : List ℕ) → length page ≡ page_size → IsAnswer (replay page vs)
unfolding replay
replay-IsAnswer [] page h = h
replay-IsAnswer ((l, wal_record w) ∷ vs) page h = tt
replay-IsAnswer ((l, image img) ∷ vs) page h =
    bind-IsAnswer (apply_to (image img) page) (λ p. replay p vs)
      (apply_to-IsFull (image img) page h) (λ p g. replay-IsAnswer vs p g)
replay-IsAnswer ((l, delta edits) ∷ vs) page h =
    bind-IsAnswer (apply_to (delta edits) page) (λ p. replay p vs)
      (apply_to-IsFull (delta edits) page h) (λ p g. replay-IsAnswer vs p g)

from_base-IsAnswer :
    (l : Lsn) (v : PageVersion) (rest : History)
    → is_base v ≡ true
    → IsAnswer (from_base (some (l, v)) rest)
unfolding from_base is_base
from_base-IsAnswer l (image img) rest h =
    bind-IsAnswer (apply_to (image img) (replicate page_size 0)) (λ p. replay p rest)
      (apply_to-IsFull (image img) (replicate page_size 0) (length-replicate {A = ℕ} page_size 0))
      (λ p g. replay-IsAnswer rest p g)
from_base-IsAnswer l (wal_record w) rest h = tt
from_base-IsAnswer l (delta edits) rest h = absurd (false≢true h)

-- The position that the scan finds is that of a base.
pub rposition_base-at :
    (vs : History) (i : ℕ)
    → rposition_base vs ≡ some i
    → (l : Lsn) × (v : PageVersion) × (get_elem? vs i ≡ some (l, v))
      × (is_base v ≡ true)
      × (i < length vs)
unfolding rposition_base
rposition_base-at [] i h = cc
rposition_base-at ((l, v) ∷ vs) i h = elim (Option-cases (rposition_base vs)) [
  | inr (j, e) ↦
      let (k, u, at, base, lt) = rposition_base-at vs j e in
      let next : suc j ≡ i = ground arith in (k, u, rw (← next) at, base, omega arith)
  | inl e ↦ elim (Bool-cases (is_base v)) [
    | inl b ↦ let first : i ≡ 0 = ground arith in (l, v, rw first refl, b, rw first (omega arith))
    | inr b ↦ absurd (ground arith)
  ]
]

-- A reconstruction by the native backend gives no page, a page of the full size or an error, for
-- every history; it never panics.
pub reconstruct_native-IsAnswer :
    (key : PageKey) (lsn : Lsn) (vs : History) → IsAnswer (reconstruct_native key lsn vs)
unfolding reconstruct_native
reconstruct_native-IsAnswer key lsn vs = elim (Option-cases (rposition_base vs)) [
  | inl e ↦ rw (e, reconstruct_native) tt
  | inr (i, e) ↦
      let (l, v, at, base, lt) = rposition_base-at vs i e in
      rw (e, at, reconstruct_native) (from_base-IsAnswer l v (drop (i + 1) vs) base)
]
