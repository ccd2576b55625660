-- ===== src/Transport.antt =====
-- native/codegen/ir_reader.cpp: the reader of the Neri IR transport.
pub mod Reader
pub mod Cursor
pub mod Types
pub mod Constants
pub mod Declarations
pub mod Code
pub mod Payload
pub mod Format
pub mod Wire
pub mod Envelope
pub mod Exact
pub mod Examples
