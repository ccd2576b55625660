-- ===== src/Ir.antt =====
-- The Neri IR: native/include/neri/ir_domains.h, ir_features.h and codegen/ir.h.
pub mod Domain
pub mod SymbolKind
pub mod Access
pub mod GlobalLinkage
pub mod ImportKind
pub mod FunctionKind
pub mod DispatchKind
pub mod Comparison
pub mod TypeTag
pub mod ConstantTag
pub mod TerminatorTag
pub mod Opcode
pub mod Feature
pub mod Model
