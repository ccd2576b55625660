-- ===== src/Verifier/CallExamples.antt =====
-- Calls and debug scopes that the checks of native/codegen/ir_verifier.cpp accept.
use mathlib.Core.List.{Memᴰ}
use neri.Prelude.{ℕ, ◌≡◌, ◌≤◌, ◌<◌, refl, List, [], ◌∷◌, Option, none, some, false, ◌⊎◌}
use neri.Ir.Model.{
  IrType, ir_type, no_types, Function, IrModule, Instruction, SymbolId, ClassDeclaration,
  DebugScope, SourceLocation,
}
use neri.Ir.Access.{Access}
use neri.Ir.Opcode.{Opcode}
use neri.Ir.TypeTag.{TypeTag}
use neri.Ir.TypeTag
use neri.Ir.SymbolKind.{SymbolKind}
use neri.Ir.SymbolKind
use neri.Ir.FunctionKind.{FunctionKind}
use neri.Ir.FunctionKind
use neri.Transport.Reader.{ok}
use neri.Verifier.Types.{is_tag, same_type, same_symbol, is_void, is_class}
use neri.Verifier.Lookup.{
  find_function, find_class, find_source, utf8_boundary, verify_location, is_same_or_base,
  same_or_base_within,
}
use neri.Verifier.Context.{
  FunctionContext, verify_instruction_shape, definition_type, operand_type, result_type,
  require_operand, require_result,
}
use neri.Verifier.Calls.{
  Callee, valid_kind, call_target, verify_signature, verify_call, call_effects,
}
use neri.Verifier.Virtual.{candidates, compatible, choose_signature, verify_virtual_call}
use neri.Verifier.Effect.{complement}
use neri.Verifier.Typed.{Typed, verify_call-Typed}
use neri.Verifier.Dispatch.{SlotCall, virtual_call_fits}
use neri.Verifier.Body.Debug.{check_scopes}
use neri.Verifier.Body.Scopes.{scopes_known}
use neri.Verifier.Body.Sample.{int, name, operation, function, whole}

abbrev class_name : ℕ → SymbolId
class_name n = record { module_id = 109 ∷ []; kind = SymbolKind.class; semantic_name = n ∷ [] }

abbrev class_type : ℕ → IrType
class_type n = ir_type TypeTag.class (some (class_name n)) no_types 0

abbrev context : IrModule → FunctionContext
context m = record {
  index = m;
  function = function;
  blocks = [];
  successors = [];
  predecessors = [];
  definitions =
      (5, record { value_type = int; block = 0; instruction = none })
      ∷ (9, record { value_type = class_type 66; block = 0; instruction = none })
      ∷ [];
  uses = [];
  required_effects = 0;
}

abbrev call : Instruction
call = record (operation Opcode.call none int 7 (5 ∷ [])) { symbol = some name }

call_accepted : verify_call (context whole) call false false false false ≡ ok 4
unfolding verify_call call_target verify_signature valid_kind find_function verify_instruction_shape
    definition_type operand_type result_type require_operand require_result is_tag same_type
    same_symbol is_void complement TypeTag.wire FunctionKind.wire SymbolKind.wire
call_accepted = refl

verify_call-Typed_example :
    (symbol : SymbolId) × (callee : Callee) × (some name ≡ some symbol)
    × (call_target (context whole) symbol false false false false ≡ ok callee)
    × Typed (context whole) call callee false
    × (4 ≡ call_effects callee.effects false)
verify_call-Typed_example =
    verify_call-Typed (context whole) call false false false false 4 call_accepted

abbrev slot : SymbolId
slot = record { module_id = 109 ∷ []; kind = SymbolKind.method; semantic_name = 115 ∷ [] }

-- The implementation of the slot in a class.
abbrev method : ℕ → Function
method n = record function {
  kind = FunctionKind.instance_method;
  parameter_types = class_type n ∷ int ∷ [];
  dispatch_slot = some slot;
  declaring_class = some (class_name n);
}

abbrev class_of : ℕ → Option SymbolId → ClassDeclaration
class_of n base = record {
  id = class_name n;
  base = base;
  access = Access.public;
  retained = false;
  fields = [];
  methods = [];
  location = none;
}

-- The class 68 derives from the class 66, and both implement the slot.
abbrev classes : IrModule
classes = record whole {
  classes = class_of 66 none ∷ class_of 68 (some (class_name 66)) ∷ [];
  functions = method 68 ∷ method 66 ∷ [];
}

abbrev virtual_call : Instruction
virtual_call = record (operation Opcode.call_virtual none int 7 (9 ∷ 5 ∷ [])) { symbol = some slot }

virtual_accepted : verify_virtual_call (context classes) virtual_call ≡ ok 4
unfolding verify_virtual_call choose_signature compatible is_same_or_base same_or_base_within
    find_class verify_signature verify_instruction_shape definition_type operand_type result_type
    require_operand require_result is_tag same_type same_symbol is_void is_class complement
    TypeTag.wire FunctionKind.wire SymbolKind.wire
virtual_accepted = refl

virtual_call_fits_example :
    (target : SymbolId) × (some slot ≡ some target)
    × (SymbolKind.wire target.kind ≡ SymbolKind.wire SymbolKind.method)
    × SlotCall (context classes) virtual_call (candidates target classes.functions) 4
virtual_call_fits_example = virtual_call_fits (context classes) virtual_call 4 virtual_accepted

abbrev here : SourceLocation
here = record { source_id = 115 ∷ []; utf8_start = 0; utf8_length = 2 }

abbrev scope : (id parent : ℕ) → DebugScope
scope id parent = record { id = id; parent_id = parent; location = here }

-- The last scope is its own parent.
abbrev scopes : List DebugScope
scopes = scope 1 0 ∷ scope 2 1 ∷ scope 5 5 ∷ []

scopes_accepted : check_scopes whole 0 [] scopes ≡ ok (1 ∷ 2 ∷ 5 ∷ [])
unfolding check_scopes verify_location find_source utf8_boundary
scopes_accepted = refl

scopes_known_example :
    (0 < 5)
    × ((DebugScope.parent_id (scope 5 5) ≡ 0)
        ⊎ ((t : DebugScope) × Memᴰ t scopes × (t.id ≡ 5) × (5 ≤ 5)))
scopes_known_example =
    scopes_known whole scopes (1 ∷ 2 ∷ 5 ∷ []) scopes_accepted (scope 5 5)
      (Memᴰ.tail (Memᴰ.tail (Memᴰ.head refl)))
