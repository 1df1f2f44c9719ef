-- ===== src/Builder.antt =====
-- src/cbor/internal/builder_callbacks.c and stack.c: the callbacks that build items on a stack.
mod State
mod Append
mod Callbacks
pub mod Strings
pub mod Plenty
pub mod Invariant
pub mod Counters
pub mod Assertions
pub mod Room
pub mod Filled
pub mod Stored
unfoldable pub use State.*
unfoldable pub use Append.*
unfoldable pub use Callbacks.*
