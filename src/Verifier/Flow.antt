-- ===== src/Verifier/Flow.antt =====
-- The control flow of native/codegen/ir_verifier.cpp: `verify_canonical_cfg` and
-- `verify_dominance`, over the blocks' numbers and their neighbours.
pub mod Dominance
pub mod Sound
pub mod Exact
pub mod Budget
pub mod Order
pub mod Breadth
