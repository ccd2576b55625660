-- ===== src/Verifier.antt =====
-- native/codegen/ir_verifier.cpp: the checks of a module before it is lowered.
pub mod Check
pub mod Effect
pub mod Types
pub mod Lookup
pub mod Context
pub mod Calls
pub mod Virtual
pub mod Constants
pub mod Scalars
pub mod Objects
pub mod Pointers
pub mod Instruction
pub mod Native
pub mod Body
pub mod Declared
pub mod Imports
pub mod Modules
pub mod Supported
pub mod Accepted
pub mod Widest
pub mod Equality
pub mod Typed
pub mod Bases
pub mod Dispatch
pub mod Flow
pub mod Examples
pub mod CallExamples
pub mod ModuleExamples
pub mod WidestExamples
pub mod ReaderExamples
