-- ===== src/Api.antt =====
-- The public functions of src/fx5_core.c. A pointer to a context is an `Option Context`, `none` for
-- NULL; a function returns what the pointer points to afterwards beside its status. An output
-- pointer is a Boolean, false for NULL, and what is written through it is returned as an `Option`.
mod Handle
pub mod Configure
pub mod Build
pub mod Receive
pub mod Pool
pub mod Invariant
pub mod Frame
pub mod Parse
pub mod Feed
pub mod Ready
pub mod Requests
pub mod Session
pub mod Values
pub mod Leases
unfoldable pub use Handle.*
unfoldable pub use Configure.*
unfoldable pub use Build.*
unfoldable pub use Receive.*
