-- ===== src/Pageserver/Repository/Compact.antt =====
-- `Repository::compact`: the frozen layers become one, without the versions that no read at or above
-- the horizon can reach.
pub mod Merge
pub mod Horizon
pub mod Reads
use aethel_db.Prelude.{
  ℕ, ◌+◌, ◌-◌, ◌%◌, ◌^◌, Bool, true, false, ◌&&◌, Option, none, some, List, [], ◌∷◌, ◌++◌, map,
  keep, length, leb, ltb, not, ◌==◌, if◌then◌else◌,
}
use aethel_db.Ord.{nat_ord, pair_ord}
use aethel_db.Ord.Map.{lookup, insert, remove}
use aethel_db.Common.Lsn.{Lsn}
use aethel_db.Common.Page.{PageKey, page_key_ord}
use aethel_db.Pageserver.Page.{PageVersion, is_base}
use aethel_db.Pageserver.Layer.{LayerId, Entries, Layer, is_empty}
use aethel_db.Pageserver.Repository.{Inner, CompactionStats}

unfoldable pub insert_all : Entries → Entries → Entries
insert_all merged [] = merged
insert_all merged ((k, v) ∷ es) = insert_all (insert k v merged) es

-- "Merge every frozen layer's entries."
unfoldable pub merge : Entries → List Layer → Entries
merge merged [] = merged
merge merged (layer ∷ layers) = merge (insert_all merged layer.entries) layers

-- The latest base at or below the horizon of each page; `base_lsn` is a hash map whose order is
-- never read. An ascending scan: the latest wins.
unfoldable pub base_lsns : Lsn → List (PageKey × Lsn) → Entries → List (PageKey × Lsn)
base_lsns gc_horizon bases [] = bases
base_lsns gc_horizon bases (((key, lsn), v) ∷ es) =
    base_lsns gc_horizon (if leb lsn gc_horizon && is_base v then insert key lsn bases else bases)
      es

-- `base_lsn.get(key).is_some_and(|b| lsn < b)`
abbrev pub older_than : Option Lsn → Lsn → Bool
older_than none lsn = false
older_than (some b) lsn = ltb lsn b

unfoldable pub drop_keys : List (PageKey × Lsn) → Entries → List (PageKey × Lsn)
drop_keys bases merged = map (λ e. e.0) (keep (λ e. older_than (lookup e.0.0 bases) e.0.1) merged)

unfoldable pub remove_all : List (PageKey × Lsn) → Entries → Entries
remove_all [] merged = merged
remove_all (k ∷ ks) merged = remove_all ks (remove k merged)

-- `uploaded.remove` of every id.
unfoldable pub forget : List LayerId → List LayerId → List LayerId
forget [] uploaded = uploaded
forget (id ∷ ids) uploaded = forget ids (keep (λ j. not (id == j)) uploaded)

-- The entries that the compacted layer holds.
unfoldable pub survivors : Inner → Lsn → Entries
survivors inner gc_horizon =
    let merged = merge [] inner.layers in
    remove_all (drop_keys (base_lsns gc_horizon [] merged) merged) merged

unfoldable pub compact : Inner → Lsn → Inner × CompactionStats
compact inner gc_horizon =
    let before = length (merge [] inner.layers) in
    let kept = survivors inner gc_horizon in
    let ids = map (λ l. l.id) inner.layers in
    let compacted : Layer = record { id = inner.next_layer_id; entries = kept } in
    let layers = if is_empty kept then [] else (compacted ∷ []) in
    if length inner.layers == 0
    then (
      inner,
      record { layers_before = 0; layers_after = 0; versions_removed = 0; removed_layer_ids = [] },
    )
    else (
      record inner {
        layers = layers;
        next_layer_id =
            if is_empty kept then inner.next_layer_id else (inner.next_layer_id + 1) % 2 ^ 64;
        uploaded = forget ids inner.uploaded;
      },
      record {
        layers_before = length inner.layers;
        layers_after = length layers;
        versions_removed = before - length kept;
        removed_layer_ids = ids;
      },
    )
