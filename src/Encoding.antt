-- ===== src/Encoding.antt =====
-- src/cbor/encoding.c: the public encoders of single CBOR headers and leaf values.
mod Headers
mod Floats
pub mod Bits
pub mod Fields
pub mod Halves
unfoldable pub use Headers.*
unfoldable pub use Floats.*
