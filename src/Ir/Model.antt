-- ===== src/Ir/Model.antt =====
-- native/include/neri/codegen/ir.h: the IR in memory. A string is the list of its bytes; the
-- numbers of the model are unsigned.
use neri.Prelude.{ℕ, Bool, List, Option}
use neri.Ir.SymbolKind.{SymbolKind}
use neri.Ir.Access.{Access}
use neri.Ir.GlobalLinkage.{GlobalLinkage}
use neri.Ir.ImportKind.{ImportKind}
use neri.Ir.FunctionKind.{FunctionKind}
use neri.Ir.DispatchKind.{DispatchKind}
use neri.Ir.Comparison.{Comparison}
use neri.Ir.TypeTag.{TypeTag}
use neri.Ir.ConstantTag.{ConstantTag}
use neri.Ir.TerminatorTag.{TerminatorTag}
use neri.Ir.Opcode.{Opcode}
use neri.Ir.Feature.{Feature}

abbrev pub Bytes : Type 0
Bytes = List ℕ

pub record Version : Type 0 where
  pub major : ℕ
  pub minor : ℕ

pub record SymbolId : Type 0 where
  pub module_id : Bytes
  pub kind : SymbolKind
  pub semantic_name : Bytes

pub record SourceLocation : Type 0 where
  pub source_id : Bytes
  pub utf8_start : ℕ
  pub utf8_length : ℕ

-- `struct type`: tag, symbol, arguments, element count.
mutual
  pub data IrType : Type 0 where
    ir_type : TypeTag → Option SymbolId → IrTypes → ℕ → IrType

  pub data IrTypes : Type 0 where
    no_types : IrTypes
    more_types : IrType → IrTypes → IrTypes

-- `struct constant`: tag, bits, types, nested, symbol, text.
mutual
  pub data Constant : Type 0 where
    constant_of : ConstantTag → ℕ → List IrType → Constants → Option SymbolId → Bytes → Constant

  pub data Constants : Type 0 where
    no_constants : Constants
    more_constants : Constant → Constants → Constants

pub record Source : Type 0 where
  pub id : Bytes
  pub utf8 : Bytes

pub record Field : Type 0 where
  pub id : SymbolId
  pub value_type : IrType
  pub access : Access
  pub location : Option SourceLocation

pub record Method : Type 0 where
  pub function_id : SymbolId
  pub dispatch : DispatchKind
  pub dispatch_slot : Option SymbolId
  pub location : Option SourceLocation

pub record ClassDeclaration : Type 0 where
  pub id : SymbolId
  pub base : Option SymbolId
  pub access : Access
  pub retained : Bool
  pub fields : List Field
  pub methods : List Method
  pub location : Option SourceLocation

pub record NativeRecord : Type 0 where
  pub id : SymbolId
  pub is_union : Bool
  pub fields : List Field

pub record GlobalDeclaration : Type 0 where
  pub id : SymbolId
  pub value_type : IrType
  pub initializer : Constant
  pub linkage : GlobalLinkage
  pub location : Option SourceLocation

pub record RuntimeRequirement : Type 0 where
  pub abi_major : ℕ
  pub abi_minor : ℕ
  pub feature_bits : ℕ

pub record ImportDeclaration : Type 0 where
  pub id : SymbolId
  pub parameter_types : List IrType
  pub result_type : IrType
  pub kind : ImportKind
  pub link_name : Bytes
  pub native_library : Bytes
  pub effects : ℕ
  pub minimum_runtime : Option RuntimeRequirement
  pub location : Option SourceLocation

pub record ValueDefinition : Type 0 where
  pub id : ℕ
  pub value_type : IrType

pub record BlockParameter : Type 0 where
  pub id : ℕ
  pub value_type : IrType
  pub location : Option SourceLocation

pub record Edge : Type 0 where
  pub target : ℕ
  pub arguments : List ℕ

pub record Instruction : Type 0 where
  pub opcode : Opcode
  pub results : List ValueDefinition
  pub operands : List ℕ
  pub type_arguments : List IrType
  pub symbol : Option SymbolId
  pub constant_value : Option Constant
  pub predicate : Option Comparison
  pub flag : Bool
  pub location : Option SourceLocation
  pub debug_scope_id : ℕ

pub record Terminator : Type 0 where
  pub tag : TerminatorTag
  pub condition : Option ℕ
  pub edges : List Edge
  pub return_value : Option ℕ
  pub panic_code : Bytes
  pub panic_message : Bytes
  pub location : Option SourceLocation
  pub debug_scope_id : ℕ

pub record Block : Type 0 where
  pub id : ℕ
  pub parameters : List BlockParameter
  pub instructions : List Instruction
  pub ending : Terminator

pub record DebugLocal : Type 0 where
  pub name : Bytes
  pub value : ℕ
  pub scope_id : ℕ
  pub location : SourceLocation

pub record DebugScope : Type 0 where
  pub id : ℕ
  pub parent_id : ℕ
  pub location : SourceLocation

pub record Function : Type 0 where
  pub id : SymbolId
  pub parameter_types : List IrType
  pub result_type : IrType
  pub kind : FunctionKind
  pub effects : ℕ
  pub unsafe_call : Bool
  pub retained : Bool
  pub export_name : Bytes
  pub entry_block : ℕ
  pub unsafe_root : Option ValueDefinition
  pub declaring_class : Option SymbolId
  pub dispatch_slot : Option SymbolId
  pub location : Option SourceLocation
  pub blocks : List Block
  pub debug_scopes : List DebugScope
  pub debug_locals : List DebugLocal

pub record SessionExport : Type 0 where
  pub entry : SymbolId
  pub source_type : IrType
  pub target_type : IrType
  pub artifact_identity : Bytes

pub record IrModule : Type 0 where
  pub semantic_version : Version
  pub id : Bytes
  pub required_features : List Feature
  pub sources : List Source
  pub classes : List ClassDeclaration
  pub globals : List GlobalDeclaration
  pub imports : List ImportDeclaration
  pub functions : List Function
  pub native_records : List NativeRecord
  pub session : Option SessionExport
