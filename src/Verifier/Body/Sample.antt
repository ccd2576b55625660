-- ===== src/Verifier/Body/Sample.antt =====
-- A small function in a module, for runs of the checks of native/codegen/ir_verifier.cpp.

use neri.Prelude.{ℕ, List, [], ◌∷◌, Option, none, some, Bool, true, false}
use neri.Ir.Model.{
  Bytes, IrType, Block, BlockParameter, Edge, Terminator, Function, IrModule, Instruction,
  SourceLocation, SymbolId,
}
use neri.Ir.Opcode.{Opcode}
use neri.Ir.TypeTag.{TypeTag}
use neri.Ir.SymbolKind.{SymbolKind}
use neri.Ir.FunctionKind.{FunctionKind}
use neri.Ir.Comparison.{Comparison}
use neri.Ir.TerminatorTag.{TerminatorTag}
use neri.Verifier.Types.{plain}
use neri.Verifier.Context.{Definition}
use neri.Verifier.Body.Blocks.{Definitions}

abbrev pub legal : Bytes → Bool
legal bytes = true

abbrev pub name : SymbolId
name = record { module_id = 109 ∷ []; kind = SymbolKind.function; semantic_name = 102 ∷ [] }

abbrev pub place : Option SourceLocation
place = some (record { source_id = 115 ∷ []; utf8_start = 0; utf8_length = 1 })

abbrev pub int : IrType
int = plain TypeTag.int

abbrev pub parameter : ℕ → BlockParameter
parameter id = record { id = id; value_type = int; location = none }

abbrev pub operation : Opcode → Option Comparison → IrType → (result : ℕ) → List ℕ → Instruction
operation opcode predicate type result operands = record {
  opcode = opcode;
  results = record { id = result; value_type = type } ∷ [];
  operands = operands;
  type_arguments = [];
  symbol = none;
  constant_value = none;
  predicate = predicate;
  flag = false;
  location = place;
  debug_scope_id = 0;
}

abbrev pub ending : TerminatorTag → Option ℕ → List Edge → Option ℕ → Terminator
ending tag condition edges value = record {
  tag = tag;
  condition = condition;
  edges = edges;
  return_value = value;
  panic_code = [];
  panic_message = [];
  location = none;
  debug_scope_id = 0;
}

abbrev pub edge : ℕ → List ℕ → Edge
edge target arguments = record { target = target; arguments = arguments }

-- The entry adds and compares, both ways meet in the last block, which uses the sum of the entry.
abbrev pub first_block : Block
first_block = record {
  id = 0;
  parameters = parameter 0 ∷ [];
  instructions =
      operation Opcode.int_add_checked none int 1 (0 ∷ 0 ∷ [])
      ∷ operation Opcode.compare (some Comparison.less) (plain TypeTag.bool) 2 (0 ∷ 1 ∷ [])
      ∷ [];
  ending = ending TerminatorTag.conditional_branch (some 2) (edge 1 (1 ∷ []) ∷ edge 2 [] ∷ []) none;
}

abbrev pub last_sum : Instruction
last_sum = operation Opcode.int_add_checked none int 5 (4 ∷ 1 ∷ [])

abbrev pub last_block : Block
last_block = record {
  id = 3;
  parameters = parameter 4 ∷ [];
  instructions = last_sum ∷ [];
  ending = ending TerminatorTag.return none [] (some 5);
}

abbrev pub function : Function
function = record {
  id = name;
  parameter_types = int ∷ [];
  result_type = int;
  kind = FunctionKind.function;
  effects = 4;
  unsafe_call = false;
  retained = false;
  export_name = [];
  entry_block = 0;
  unsafe_root = none;
  declaring_class = none;
  dispatch_slot = none;
  location = none;
  blocks =
      first_block
      ∷ record {
        id = 1;
        parameters = parameter 3 ∷ [];
        instructions = [];
        ending = ending TerminatorTag.branch none (edge 3 (3 ∷ []) ∷ []) none;
      }
      ∷ record {
        id = 2;
        parameters = [];
        instructions = [];
        ending = ending TerminatorTag.branch none (edge 3 (1 ∷ []) ∷ []) none;
      }
      ∷ last_block
      ∷ [];
  debug_scopes = [];
  debug_locals = [];
}

abbrev pub whole : IrModule
whole = record {
  semantic_version = record { major = 1; minor = 0 };
  id = 109 ∷ [];
  required_features = [];
  sources = record { id = 115 ∷ []; utf8 = 97 ∷ 98 ∷ [] } ∷ [];
  classes = [];
  globals = [];
  imports = [];
  functions = function ∷ [];
  native_records = [];
  session = none;
}

abbrev pub parameter_in : ℕ → Definition
parameter_in b = record { value_type = int; block = b; instruction = none }

abbrev pub sum_definition : Definition
sum_definition = record { value_type = int; block = 3; instruction = some 0 }

abbrev pub entries : Definitions
entries =
    (0, parameter_in 0)
    ∷ (1, record { value_type = int; block = 0; instruction = some 0 })
    ∷ (2, record { value_type = plain TypeTag.bool; block = 0; instruction = some 1 })
    ∷ (3, parameter_in 1)
    ∷ (4, parameter_in 3)
    ∷ (5, sum_definition)
    ∷ []
