-- ===== src/Response.antt =====
-- src/fx5_response.c: finding a response in the receive ring and reading it into the context.
-- `rx_buffer` is `&context->rx_cbuffer` in every call, so the functions that read the payload take
-- the context alone. The NULL tests of these internal functions cannot fire there.
pub mod Header
pub mod Payload
pub mod Stream
pub mod Words
pub mod Nibbles
pub mod Bits
unfoldable pub use Header.*
unfoldable pub use Payload.*
