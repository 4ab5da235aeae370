-- ===== src/Pageserver/Service/Messages.antt =====
-- The texts of the error messages of the page service, as bytes: the derived `Display` of `PageError`
-- in pageserver/src/page.rs, and the formats of pageserver/src/server.rs.
use aethel_db.Prelude.{ℕ, zero, suc, ◌+◌, ◌/◌, ◌%◌, [], ◌∷◌, ◌++◌, Text, codes, ltb, if◌then◌else◌}
use aethel_db.Common.Ids.{TenantId, TimelineId, display_id}
use aethel_db.Common.Page.{page_size}
use aethel_db.Pageserver.Page.{
  PageError, truncated, bad_image_size, edit_out_of_bounds, bad_version_tag, needs_redo, redo,
}

-- `{}` of a number: at most `fuel` digits, most significant first.
unfoldable pub decimal : ℕ → ℕ → Text
decimal zero n = []
decimal (suc fuel) n =
    let more = decimal fuel (n / 10) in
    if ltb n 10 then (b'0' + n) ∷ [] else more ++ ((b'0' + n % 10) ∷ [])

-- `{}` of a `usize`, which has 20 digits at most.
abbrev pub usize_text : ℕ → Text
usize_text n = decimal 20 n

-- `Display` of `PageError`
unfoldable pub page_error_text : PageError → Text
page_error_text (truncated what) = codes "buffer truncated while decoding " ++ codes what
page_error_text (bad_image_size n) =
    codes "image is " ++ (usize_text n ++ (codes " bytes, expected " ++ usize_text page_size))
page_error_text (edit_out_of_bounds offset len) =
    codes "edit at offset "
    ++ (usize_text offset
        ++ (codes " length " ++ (usize_text len ++ codes " runs past the end of the page")))
page_error_text (bad_version_tag n) = codes "unknown version tag " ++ usize_text n
page_error_text needs_redo =
    codes "this page version is a raw WAL record and requires WAL redo to apply"
page_error_text (redo message) = codes "reconstruction via WAL redo failed: " ++ message

-- `reconstruction failed: {e}`
unfoldable pub failed_text : PageError → Text
failed_text e = codes "reconstruction failed: " ++ page_error_text e

-- `unknown tenant/timeline {tenant_id}/{timeline_id}`
unfoldable pub unknown_text : TenantId → TimelineId → Text
unknown_text tenant timeline =
    codes "unknown tenant/timeline " ++ (display_id tenant ++ (b'/' ∷ display_id timeline))
