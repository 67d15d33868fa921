-- ===== src/Request/Frame.antt =====
-- The builders of src/fx5_request.c against the specified frames.
pub mod Header
pub mod Loops
pub mod Pdu
