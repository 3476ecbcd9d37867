-- ===== src/Base/Text.antt =====
-- Rust's `str` as its list of UTF-8 bytes, with the methods of the standard library that the
-- program calls. Lengths and positions count bytes, as they do in Rust.
mod Defs
mod Laws
mod Trim
mod Words
mod Number
mod Utf8
unfoldable pub use Defs.*
pub use Laws.*
unfoldable pub use Trim.*
unfoldable pub use Words.*
unfoldable pub use Number.*
unfoldable pub use Utf8.*
