-- ===== src/Pageserver/Repository/Sources.antt =====
-- What a repository holds: the memtable and the layers, read as a stack of maps.
use aethel_db.Prelude.{
  ℕ, ◌≡◌, refl, ◌∙◌, ◌≤◌, Option, none, some, List, [], ◌∷◌, All, leb, if◌then◌else◌, Bool-cases,
  inl, inr, leb→le,
}
use aethel_db.Ord.{nat_ord, pair_ord}
use aethel_db.Ord.Map.{
  lookup, sort, place, IsSorted, sort-IsSorted, lookup-sort, IsSorted-ext, find, Separate,
  all_versions, lookup-all_versions, all_versions-IsDistinct, versions_of,
}
use aethel_db.Common.Lsn.{Lsn}
use aethel_db.Common.Page.{PageKey, page_key_ord}
use aethel_db.Pageserver.Page.{PageVersion, image}
use aethel_db.Pageserver.Redo.{History}
use aethel_db.Pageserver.Layer.{Entries, Layer, versions_in, layer_range}
use aethel_db.Pageserver.Repository.{Inner, layer_versions, gather}

abbrev pub layer_sources : List Layer → List Entries
layer_sources [] = []
layer_sources (layer ∷ layers) = layer.entries ∷ layer_sources layers

abbrev pub sources : Inner → List Entries
sources inner = inner.memtable ∷ layer_sources inner.layers

-- Every map is in order, and no `(page, lsn)` is in two of them: "LSNs are unique per write".
pub record IsWellFormed (inner : Inner) : Type 0 where
  pub ordered : All IsSorted (sources inner)
  pub separate : Separate (sources inner)

-- The version that the repository holds of a page at exactly an LSN.
abbrev pub version_at : Inner → PageKey → Lsn → Option PageVersion
version_at inner key l = find (key, l) (sources inner)

layer_versions_all :
    (layers : List Layer) (key : PageKey) (lsn : Lsn)
    → layer_versions layers key lsn ≡ all_versions (layer_sources layers) key lsn
unfolding layer_versions layer_range versions_in versions_of
layer_versions_all [] key lsn = refl
layer_versions_all (layer ∷ layers) key lsn = rw (layer_versions_all layers key lsn)

-- The history of a page without a base from outside.
abbrev pub own : Inner → PageKey → Lsn → History
own inner key lsn = sort (all_versions (sources inner) key lsn)

-- A base from outside comes before the versions that are not older.
abbrev pub based : Option (Lsn × List ℕ) → History → History
based none vs = vs
based (some (l, p)) vs = place (l, image p) vs

pub gather-based :
    (inner : Inner) (key : PageKey) (lsn : Lsn) (base : Option (Lsn × List ℕ))
    → gather inner key lsn base ≡ based base (own inner key lsn)
unfolding gather versions_in versions_of sort
gather-based inner key lsn none = rw (layer_versions_all inner.layers key lsn)
gather-based inner key lsn (some (l, p)) = rw (layer_versions_all inner.layers key lsn)

pub lookup-own :
    (inner : Inner) (key : PageKey) (lsn l : Lsn)
    → lookup l (own inner key lsn) ≡ (if leb l lsn then version_at inner key l else none)
lookup-own inner key lsn l =
    lookup-sort l (all_versions (sources inner) key lsn)
    ∙ lookup-all_versions (sources inner) key lsn l

pub own-IsSorted :
    (inner : Inner) (key : PageKey) (lsn : Lsn) → IsWellFormed inner → IsSorted (own inner key lsn)
own-IsSorted inner key lsn w =
    sort-IsSorted _ (all_versions-IsDistinct (sources inner) key lsn w.ordered w.separate)

-- Repositories that hold the same versions of a page up to an LSN have one history of it.
pub own_ext :
    (a b : Inner) (key : PageKey) (lsn : Lsn)
    → IsWellFormed a
    → IsWellFormed b
    → ((l : Lsn) → l ≤ lsn → version_at a key l ≡ version_at b key l)
    → own a key lsn ≡ own b key lsn
own_ext a b key lsn v w same_versions =
    IsSorted-ext _ _ (own-IsSorted a key lsn v) (own-IsSorted b key lsn w) agree
  where
    agree : (l : Lsn) → lookup l (own a key lsn) ≡ lookup l (own b key lsn)
    agree l = elim (Bool-cases (leb l lsn)) [
      | inl h ↦
          rw (lookup-own a key lsn l, lookup-own b key lsn l, h) (same_versions l (leb→le l lsn h))
      | inr h ↦ rw (lookup-own a key lsn l, lookup-own b key lsn l, h)
    ]
