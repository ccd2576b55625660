-- ===== src/Verifier/Body.antt =====
-- The body of a function in native/codegen/ir_verifier.cpp: definitions, uses, edges, blocks, and the
-- part of `verify_function` behind the declaration.
pub mod Debug
pub mod Blocks
pub mod Whole
pub mod Extends
pub mod Endings
pub mod Visits
pub mod Sound
pub mod Scopes
pub mod Registered
pub mod Sample
pub mod Examples
