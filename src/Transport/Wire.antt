-- ===== src/Transport/Wire.antt =====
-- The wire formats of the module's parts, and that the readers of `class payload_reader` decode
-- exactly these.
pub mod Symbols
pub mod Tags
pub mod Types
pub mod Constants
pub mod Declarations
pub mod Code
pub mod Functions
pub mod Payload
