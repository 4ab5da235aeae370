-- ===== src/Pageserver/Redo.antt =====
-- pageserver/src/walredo.rs: the seam to the redo backends, and the native one.
pub mod Laws
pub mod Pages
pub mod Append
pub mod Backend
use aethel_db.Prelude.{
  ℕ, zero, suc, ◌+◌, Bool, Option, none, some, List, [], ◌∷◌, ◌++◌, Text, codes, replicate,
  get_elem?, drop, if◌then◌else◌,
}
use aethel_db.Result.{Result, ok, err, panic, ◌>>=◌, map_err}
use aethel_db.Common.Lsn.{Lsn, display}
use aethel_db.Common.Page.{PageKey, page_size}
use aethel_db.Pageserver.Page.{
  PageVersion, PageError, image, delta, wal_record, redo, apply_to, is_base,
}

pub data RedoError : Type 0 where
  apply : PageError → RedoError
  needs_postgres : Lsn → RedoError
  process : Text → RedoError
  redo_failed : Text → RedoError

-- One page's versions with their LSNs.
abbrev pub History : Type 0
History = List (Lsn × PageVersion)

-- `trait WalRedoManager`
pub record WalRedoManager : Type 0 where
  pub reconstruct : PageKey → Lsn → History → Result RedoError (Option (List ℕ))

-- `versions.iter().rposition(|(_, v)| v.is_base())`
unfoldable pub rposition_base : History → Option ℕ
rposition_base [] = none
rposition_base ((l, v) ∷ vs) = elim (rposition_base vs) [
  | some i ↦ some (suc i)
  | none ↦ if is_base v then some 0 else none
]

-- The loop over the versions behind the base.
unfoldable pub replay : List ℕ → History → Result RedoError (Option (List ℕ))
replay page [] = ok (some page)
replay page ((l, wal_record w) ∷ vs) = err (needs_postgres l)
replay page ((l, image img) ∷ vs) =
    map_err apply (apply_to (image img) page) >>= λ page'. replay page' vs
replay page ((l, delta edits) ∷ vs) =
    map_err apply (apply_to (delta edits) page) >>= λ page'. replay page' vs

-- The base is installed on a zeroed page. A delta is never a base, and `versions[base]` is in
-- bounds: both would panic.
unfoldable pub from_base : Option (Lsn × PageVersion) → History → Result RedoError (Option (List ℕ))
from_base (some (l, image img)) rest =
    map_err apply (apply_to (image img) (replicate page_size 0)) >>= λ page. replay page rest
from_base (some (l, wal_record w)) rest = err (needs_postgres l)
from_base (some (l, delta edits)) rest = panic
from_base none rest = panic

unfoldable pub reconstruct_native : PageKey → Lsn → History → Result RedoError (Option (List ℕ))
reconstruct_native key request_lsn versions = elim (rposition_base versions) [
  | none ↦ ok none
  | some base ↦ from_base (get_elem? versions base) (drop (base + 1) versions)
]

-- `RustApplyRedoManager`
abbrev pub rust_apply : WalRedoManager
rust_apply = record { reconstruct = reconstruct_native }
