-- ===== src/Pageserver/Redo/Laws.antt =====
-- What the repository relies on in a redo backend, and that the native backend provides it.
use aethel_db.Prelude.{
  ℕ, suc, ◌+◌, ◌≡◌, refl, ap, ◌∙◌, true, false, Option, none, some, List, [], ◌∷◌, ◌++◌, arith, All,
  length, replicate, get_elem?, drop, drop-append, get_elem?-append, sym, Option-cases, inl, inr,
}
use aethel_db.Result.{Result, ok, err, panic, ◌>>=◌, map_err}
use aethel_db.Common.Lsn.{Lsn}
use aethel_db.Common.Page.{PageKey, page_size}
use aethel_db.Pageserver.Page.{PageVersion, image, delta, wal_record, is_base, apply_to}
use aethel_db.Pageserver.Redo.{
  History, apply, WalRedoManager, rposition_base, replay, from_base, reconstruct_native, rust_apply,
}

-- No version is a base.
abbrev pub NoBase : History → Type 0
NoBase vs = All (λ e. is_base e.1 ≡ false) vs

-- The documented contract of `WalRedoManager::reconstruct`.
pub record IsRedo (m : WalRedoManager) : Type 0 where
  -- the versions before a base do not count
  pub from_base :
      (key : PageKey) (lsn l : Lsn) (v : PageVersion) (before after : History)
      → is_base v ≡ true
      → m.reconstruct key lsn (before ++ ((l, v) ∷ after)) ≡ m.reconstruct key lsn ((l, v) ∷ after)
  -- with a base there is a page or an error
  pub found :
      (key : PageKey) (lsn l : Lsn) (v : PageVersion) (before after : History)
      → is_base v ≡ true
      → ¬ (m.reconstruct key lsn (before ++ ((l, v) ∷ after)) ≡ ok none)
  -- without one there is no page
  pub no_base :
      (key : PageKey) (lsn : Lsn) (vs : History) → NoBase vs → m.reconstruct key lsn vs ≡ ok none

rposition_some :
    (l : Lsn) (v : PageVersion) (vs : History)
    → is_base v ≡ true
    → (i : ℕ) × (rposition_base ((l, v) ∷ vs) ≡ some i)
unfolding rposition_base
rposition_some l v vs h = elim (Option-cases (rposition_base vs)) [
  | inl e ↦ (0, ground arith)
  | inr (i, e) ↦ (suc i, ground arith)
]

rposition_append :
    (before vs : History) (i : ℕ)
    → rposition_base vs ≡ some i
    → rposition_base (before ++ vs) ≡ some (length before + i)
unfolding rposition_base
rposition_append [] vs i h = rw h (ap some (omega arith))
rposition_append ((l, v) ∷ before) vs i h = ground (arith, rposition_append before vs i h)

rposition_none : (vs : History) → NoBase vs → rposition_base vs ≡ none
unfolding rposition_base
rposition_none [] h = refl
rposition_none ((l, v) ∷ vs) h = ground (arith, rposition_none vs h.1)

native_at :
    (key : PageKey) (lsn : Lsn) (before vs : History) (i : ℕ)
    → rposition_base vs ≡ some i
    → reconstruct_native key lsn (before ++ vs) ≡ from_base (get_elem? vs i) (drop (i + 1) vs)
unfolding reconstruct_native
native_at key lsn before vs i h = ground (
  arith,
  rposition_append before vs i h,
  get_elem?-append before vs i (length before + i) refl,
  drop-append before vs (length before) (i + 1) (length before + i + 1) refl (omega arith),
)

native_before :
    (key : PageKey) (lsn l : Lsn) (v : PageVersion) (before after : History)
    → is_base v ≡ true
    → reconstruct_native key lsn (before ++ ((l, v) ∷ after))
      ≡ reconstruct_native key lsn ((l, v) ∷ after)
native_before key lsn l v before after h =
    let (i, e) = rposition_some l v after h in
    native_at key lsn before ((l, v) ∷ after) i e ∙ sym (native_at key lsn [] ((l, v) ∷ after) i e)

bind_found {ℓ κ ι} :
    {E : Type ℓ} {A : Type κ} {B : Type ι} (m : Result E A) (f : A → Result E (Option B))
    → ((a : A) → ¬ (f a ≡ ok none))
    → ¬ ((m >>= f) ≡ ok none)
bind_found (ok a) f g = g a
bind_found (err e) f g = λ h. cc
bind_found panic f g = λ h. cc

-- A replay ends in a page, an error or a panic, never in `None`.
replay_found : (page : List ℕ) (vs : History) → ¬ (replay page vs ≡ ok none)
unfolding replay
replay_found page [] h = cc
replay_found page ((l, wal_record w) ∷ vs) h = cc
replay_found page ((l, image img) ∷ vs) h =
    bind_found (map_err apply (apply_to (image img) page)) (λ p. replay p vs)
      (λ p. replay_found p vs) h
replay_found page ((l, delta edits) ∷ vs) h =
    bind_found (map_err apply (apply_to (delta edits) page)) (λ p. replay p vs)
      (λ p. replay_found p vs) h

from_base_found : (o : Option (Lsn × PageVersion)) (rest : History) → ¬ (from_base o rest ≡ ok none)
unfolding from_base
from_base_found none rest h = cc
from_base_found (some (l, wal_record w)) rest h = cc
from_base_found (some (l, delta edits)) rest h = cc
from_base_found (some (l, image img)) rest h =
    bind_found (map_err apply (apply_to (image img) (replicate page_size 0))) (λ p. replay p rest)
      (λ p. replay_found p rest) h

native_found :
    (key : PageKey) (lsn l : Lsn) (v : PageVersion) (before after : History)
    → is_base v ≡ true
    → ¬ (reconstruct_native key lsn (before ++ ((l, v) ∷ after)) ≡ ok none)
native_found key lsn l v before after h e =
    let (i, p) = rposition_some l v after h in
    from_base_found _ _ (sym (native_at key lsn before ((l, v) ∷ after) i p) ∙ e)

native-NoBase :
    (key : PageKey) (lsn : Lsn) (vs : History) → NoBase vs → reconstruct_native key lsn vs ≡ ok none
unfolding reconstruct_native
native-NoBase key lsn vs h = ground (arith, rposition_none vs h)

pub rust_apply-IsRedo : IsRedo rust_apply
rust_apply-IsRedo = record {
  from_base = native_before;
  found = native_found;
  no_base = native-NoBase;
}
