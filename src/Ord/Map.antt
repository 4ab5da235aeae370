-- ===== src/Ord/Map.antt =====
-- Rust's `BTreeMap`: an association list in the strict order of its keys. The functions are those
-- that the page server calls.
mod Laws
mod Sorting
mod Versions
mod Stack
mod Removal
mod Split
mod Append
unfoldable pub use Laws.*
unfoldable pub use Sorting.*
unfoldable pub use Versions.*
unfoldable pub use Stack.*
unfoldable pub use Split.*
unfoldable pub use Append.*
unfoldable pub use Removal.*
