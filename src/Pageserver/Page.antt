-- ===== src/Pageserver/Page.antt =====
-- pageserver/src/page.rs: page versions and their application.
use aethel_db.Prelude.{
  ℕ, ◌+◌, Bool, true, false, List, [], ◌∷◌, ◌++◌, Text, String, length, take, drop, ltb, ◌==◌,
  if◌then◌else◌,
}
use aethel_db.Result.{Result, ok, err, panic, ◌>>=◌}
use aethel_db.Common.Lsn.{Lsn}
use aethel_db.Common.Page.{RelTag, page_size}

pub record ByteEdit : Type 0 where
  pub offset : ℕ
  pub bytes : List ℕ

pub record WalRecord : Type 0 where
  pub will_init : Bool
  pub rec : List ℕ

pub data PageVersion : Type 0 where
  image : List ℕ → PageVersion
  delta : List ByteEdit → PageVersion
  wal_record : WalRecord → PageVersion

pub data PageError : Type 0 where
  truncated : String → PageError
  bad_image_size : ℕ → PageError
  edit_out_of_bounds : ℕ → ℕ → PageError
  bad_version_tag : ℕ → PageError
  needs_redo : PageError
  redo : Text → PageError

-- `page[start..end].copy_from_slice(bytes)`: a range that is not in the page panics.
unfoldable pub overwrite : List ℕ → ℕ → List ℕ → Result PageError (List ℕ)
overwrite page start bytes =
    if ltb (length page) (start + length bytes)
    then panic
    else ok (take start page ++ (bytes ++ drop (start + length bytes) page))

-- The loop over the edits of a delta. An error ends it; the page that it leaves half edited is
-- dropped by every caller, so only the error is kept.
unfoldable pub apply_edits : List ByteEdit → List ℕ → Result PageError (List ℕ)
apply_edits [] page = ok page
apply_edits (e ∷ edits) page =
    if ltb page_size (e.offset + length e.bytes)
    then err (edit_out_of_bounds e.offset (length e.bytes))
    else (overwrite page e.offset e.bytes >>= λ page'. apply_edits edits page')

unfoldable pub apply_to : PageVersion → List ℕ → Result PageError (List ℕ)
apply_to (image img) page =
    if length img == page_size
    then (if length img == length page then ok img else panic)
    else err (bad_image_size (length img))
apply_to (delta edits) page = apply_edits edits page
apply_to (wal_record w) page = err needs_redo

unfoldable pub is_image : PageVersion → Bool
is_image (image img) = true
is_image _ = false

unfoldable pub is_base : PageVersion → Bool
is_base (image img) = true
is_base (wal_record w) = w.will_init
is_base (delta edits) = false

pub record Modification : Type 0 where
  pub rel : RelTag
  pub block : ℕ
  pub lsn : Lsn
  pub version : PageVersion
