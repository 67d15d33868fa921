-- ===== src/Request.antt =====
-- src/fx5_request.c: validation, sizes and the builders of request frames.
-- A builder writes into `out_buf`, an array, from `base` on: `&out_buf[written_header_size]` is
-- `base` 11 or 15. Its result holds the status, the array, the written size (0 where C leaves the
-- caller's variable as it was, which is 0) and, for the headers, the context. The internal builders
-- get pointers that their callers have checked, so their NULL tests are not repeated here.
pub mod Devices
pub mod Builders
pub mod Encoding
pub mod Frame
unfoldable pub use Devices.*
unfoldable pub use Builders.*
