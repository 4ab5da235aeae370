-- ===== src/Pageserver/Repository.antt =====
-- pageserver/src/repository.rs: ingest, the layer stack, reconstruction and compaction. The mutex
-- makes every method one step on `Inner`, which is passed along.
pub mod Sources
pub mod Wal
pub mod Ingest
pub mod Compact
pub mod Writes
use aethel_db.Prelude.{
  ℕ, ◌+◌, ◌-◌, ◌%◌, ◌^◌, max, Bool, true, false, not, ◌&&◌, Option, none, some, List, [], ◌∷◌, ◌++◌,
  map, Text, codes, length, keep, ltb, leb, ◌==◌, if◌then◌else◌,
}
use aethel_db.Result.{Result, ok, err, panic}
use aethel_db.Ord.{nat_ord, pair_ord}
use aethel_db.Ord.Map.{lookup, insert, remove, range, sort}
use aethel_db.Common.Lsn.{Lsn, invalid, display}
use aethel_db.Common.Page.{RelTag, PageKey, rel_tag_ord, page_key_ord}
use aethel_db.Pageserver.Page.{PageVersion, PageError, image, redo, is_base, Modification}
use aethel_db.Pageserver.Redo.{
  RedoError, apply, needs_postgres, process, redo_failed, History, WalRedoManager,
}
use aethel_db.Pageserver.Layer.{LayerId, Entries, Layer, is_empty, versions_in, layer_range}

pub record CompactionStats : Type 0 where
  pub layers_before : ℕ
  pub layers_after : ℕ
  pub versions_removed : ℕ
  pub removed_layer_ids : List LayerId

pub data PageLookup : Type 0 where
  page : List ℕ → PageLookup
  not_found : PageLookup

-- `uploaded` is a hash set; only membership is read.
pub record Inner : Type 0 where
  pub memtable : Entries
  pub rel_sizes : List ((RelTag × Lsn) × ℕ)
  pub layers : List Layer
  pub uploaded : List LayerId
  pub next_layer_id : LayerId
  pub freeze_threshold : ℕ

-- `Repository::with_redo`; the backend is an argument of the methods that use it.
unfoldable pub new_inner : ℕ → Inner
new_inner freeze_threshold = record {
  memtable = [];
  rel_sizes = [];
  layers = [];
  uploaded = [];
  next_layer_id = 0;
  freeze_threshold = freeze_threshold;
}

-- `next_back` of a range: its last entry.
abbrev pub last_value {ℓ κ} : {K : Type ℓ} {V : Type κ} → List (K × V) → Option V
last_value [] = none
last_value (e ∷ []) = some e.1
last_value (e ∷ d ∷ m) = last_value (d ∷ m)

-- `Repository::get_rel_size`
unfoldable pub get_rel_size : Inner → RelTag → Lsn → Option ℕ
get_rel_size inner rel lsn = last_value (range (rel, invalid) (rel, lsn) inner.rel_sizes)

abbrev pub unwrap_or_zero : Option ℕ → ℕ
unwrap_or_zero none = 0
unwrap_or_zero (some n) = n

-- The size entry that one modification leaves: `m.block + 1` wraps at 32 bits.
unfoldable pub track_size : Inner → Modification → List ((RelTag × Lsn) × ℕ)
track_size inner m =
    let prior = unwrap_or_zero (get_rel_size inner m.rel m.lsn) in
    let size = max prior ((m.block + 1) % 2 ^ 32) in
    let slot = unwrap_or_zero (lookup (m.rel, m.lsn) inner.rel_sizes) in
    insert (m.rel, m.lsn) (max slot size) inner.rel_sizes

-- `freeze_locked`; the id counter wraps at 64 bits.
unfoldable pub freeze : Inner → Inner
freeze inner = if is_empty inner.memtable then inner else record inner {
  memtable = [];
  layers = inner.layers ++ (record { id = inner.next_layer_id; entries = inner.memtable } ∷ []);
  next_layer_id = (inner.next_layer_id + 1) % 2 ^ 64;
}

-- The page that a modification addresses.
abbrev pub target : Modification → PageKey
target m = record { rel = m.rel; block = m.block }

-- One round of the loop of `ingest`, up to the test of the threshold.
unfoldable pub write : Inner → Modification → Inner
write inner m = record inner {
  memtable = insert (target m, m.lsn) m.version inner.memtable;
  rel_sizes = track_size inner m;
}

unfoldable pub ingest_one : Inner → Modification → Inner
ingest_one inner m =
    let written = write inner m in
    if leb written.freeze_threshold (length written.memtable) then freeze written else written

unfoldable pub ingest : Inner → List Modification → Inner
ingest inner [] = inner
ingest inner (m ∷ mods) = ingest (ingest_one inner m) mods

-- The optional base, the memtable's versions, then those of each layer.
unfoldable pub layer_versions : List Layer → PageKey → Lsn → History
layer_versions [] key lsn = []
layer_versions (layer ∷ layers) key lsn = layer_range layer key lsn ++ layer_versions layers key lsn

abbrev pub base_version : Option (Lsn × List ℕ) → History
base_version none = []
base_version (some (l, p)) = (l, image p) ∷ []

unfoldable pub gather : Inner → PageKey → Lsn → Option (Lsn × List ℕ) → History
gather inner key lsn base = sort (
    base_version base
    ++ (versions_in inner.memtable key lsn ++ layer_versions inner.layers key lsn))

-- The text of a `RedoError` (the derived `Display`), for the errors that are wrapped.
abbrev pub redo_text : RedoError → Text
redo_text (needs_postgres l) =
    codes "WAL record at " ++ (display l ++ codes " requires a Postgres wal-redo backend")
redo_text (process t) = codes "wal-redo process error: " ++ t
redo_text (redo_failed t) = codes "wal-redo failed: " ++ t
redo_text (apply e) = []

-- The match on what the backend returns.
unfoldable pub to_lookup : Result RedoError (Option (List ℕ)) → Result PageError PageLookup
to_lookup (ok (some p)) = ok (page p)
to_lookup (ok none) = ok not_found
to_lookup (err (apply e)) = err e
to_lookup (err e) = err (redo (redo_text e))
to_lookup panic = panic

unfoldable pub get_page_with_base :
    WalRedoManager → Inner → PageKey → Lsn → Option (Lsn × List ℕ) → Result PageError PageLookup
get_page_with_base manager inner key lsn base =
    to_lookup (manager.reconstruct key lsn (gather inner key lsn base))

unfoldable pub get_page : WalRedoManager → Inner → PageKey → Lsn → Result PageError PageLookup
unfolding get_page_with_base
get_page manager inner key lsn = get_page_with_base manager inner key lsn none

abbrev pub contains_id : LayerId → List LayerId → Bool
contains_id id [] = false
contains_id id (j ∷ ids) = if id == j then true else contains_id id ids

unfoldable pub pending_offload : Inner → List Layer
pending_offload inner = keep (λ l. not (contains_id l.id inner.uploaded)) inner.layers

unfoldable pub mark_uploaded : Inner → LayerId → Inner
mark_uploaded inner id =
    if contains_id id inner.uploaded then inner else record inner { uploaded = id ∷ inner.uploaded }
