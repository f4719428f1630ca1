-- ===== src/Text.antt =====
-- C strings as lists of bytes, without the terminating zero.
mod Defs
mod Laws
unfoldable pub use Defs.*
pub use Laws.*
