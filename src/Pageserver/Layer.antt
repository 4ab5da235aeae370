-- ===== src/Pageserver/Layer.antt =====
-- pageserver/src/layer.rs: frozen layers.
pub mod Format
use aethel_db.Prelude.{ℕ, Bool, true, false, List, [], ◌∷◌, map, length}
use aethel_db.Ord.{nat_ord, pair_ord}
use aethel_db.Ord.Map.{range}
use aethel_db.Common.Lsn.{Lsn, invalid}
use aethel_db.Common.Page.{PageKey, page_key_ord}
use aethel_db.Pageserver.Page.{PageVersion}
use aethel_db.Pageserver.Redo.{History}

-- `LayerId`, a u64
abbrev pub LayerId : Type 0
LayerId = ℕ

-- `BTreeMap<(PageKey, Lsn), PageVersion>`
abbrev pub Entries : Type 0
Entries = List ((PageKey × Lsn) × PageVersion)

pub record Layer : Type 0 where
  pub id : LayerId
  pub entries : Entries

unfoldable pub len : Layer → ℕ
len layer = length layer.entries

unfoldable pub is_empty : Entries → Bool
is_empty [] = true
is_empty (e ∷ es) = false

-- The versions of one page up to an LSN, of the memtable or of a layer, ascending.
unfoldable pub versions_in : Entries → PageKey → Lsn → History
versions_in entries key lsn = map (λ e. (e.0.1, e.1)) (range (key, invalid) (key, lsn) entries)

-- `Layer::range`
unfoldable pub layer_range : Layer → PageKey → Lsn → History
layer_range layer key lsn = versions_in layer.entries key lsn
