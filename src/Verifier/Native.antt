-- ===== src/Verifier/Native.antt =====
-- native/codegen/native_layout.h: the layout of native records and arrays.
pub mod Layout
pub mod Align
pub mod Sound
pub mod Records
pub mod Shapes
pub mod Levels
pub mod Examples
