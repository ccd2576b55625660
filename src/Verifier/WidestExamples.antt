-- ===== src/Verifier/WidestExamples.antt =====
-- A virtual call in a module that `verify_supported_module` of native/codegen/ir_verifier.cpp accepts.
use mathlib.Core.List.{Memᴰ}
use neri.Prelude.{ℕ, ◌≡◌, refl, [], ◌∷◌, Option, none, some, true, false}
use neri.Ir.Model.{
  IrType, ir_type, no_types, Instruction, Bytes, SymbolId, ClassDeclaration, Function, IrModule,
}
use neri.Ir.Access.{Access}
use neri.Ir.SymbolKind.{SymbolKind}
use neri.Ir.SymbolKind
use neri.Ir.FunctionKind
use neri.Ir.FunctionKind.{FunctionKind}
use neri.Ir.TypeTag
use neri.Ir.TypeTag.{TypeTag}
use neri.Ir.Opcode
use neri.Ir.Opcode.{Opcode}
use neri.Ir.TerminatorTag
use neri.Transport.Reader.{ok}
use neri.Verifier.Body.Sample.{legal, whole, int, operation}
use neri.Verifier.Bases.{Derives}
use neri.Verifier.Calls.{verify_signature}
use neri.Verifier.Virtual.{candidates, compatible, choose_signature, verify_virtual_call, receiver}
use neri.Verifier.Dispatch.{SlotCall}
use neri.Verifier.Widest.{widest_receiver}
use neri.Verifier.Context.{
  FunctionContext, require_value_type, verify_instruction_shape, definition_type, operand_type,
  result_type, require_operand, require_result, require_unary, require_binary, require_result_type,
}
use neri.Verifier.Declared.{
  verify_function, verify_signature_of, check_export, check_declaring_class, require_declared_type,
  check_declared,
}
use neri.Verifier.Effect.{complement}
use neri.Verifier.Imports.{RuntimeContract, verify_imports, declare}
use neri.Verifier.Instruction.{verify_instruction, check_opcode}
use neri.Verifier.Lookup.{
  is_same_or_base, same_or_base_within, verify_location, find_source, utf8_boundary, has_feature,
  find_class,
}
use neri.Verifier.Modules.{
  check_version, check_session, check_native_records, uses_native_strings, check_orders,
  check_classes, check_fields, check_methods, symbol_before,
}
use neri.Verifier.Scalars.{integer_arithmetic, comparison}
use neri.Verifier.Supported.{
  verify_supported_module, verify_declarations, verify_header, check_bases, check_globals,
  check_exports,
}
use neri.Verifier.Types.{
  is_tag, same_type, same_symbol, integer_scalar, floating_scalar, extended_scalar, is_void,
  is_scalar, is_string, is_class, is_c_function, is_supported_value, is_managed_reference,
  is_pointer_element, is_pointer, is_unsafe_capability, is_borrow_capability, contains_string,
}
use neri.Verifier.Flow.Dominance.{dominators, rounds, round, visit, meet, first_sets}
use neri.Verifier.Flow.Order.{verify_canonical_cfg, search, turn}
use neri.Verifier.Body.Blocks.{
  register_definitions, define_root, define, register_use, push, add_edge, edge_to, verify_edge,
  needs_location, visit_instruction, branch, two_edges, conditional_edges, conditional_branch,
  returned_value, return_value, panic, visit_terminator, visit_block,
}
use neri.Verifier.Body.Debug.{check_scopes, check_block_scopes, check_locals}
use neri.Verifier.Body.Whole.{
  verify_body, verify_blocks_and_uses, number_blocks, check_use, verify_dominance, check_effects,
  check_debug, verify_flow,
}
use neri.Transport.Payload.{in_canonical_order}

abbrev no_catalog : Bytes → Option RuntimeContract
no_catalog name = none

abbrev class_name : ℕ → SymbolId
class_name n = record { module_id = 109 ∷ []; kind = SymbolKind.class; semantic_name = n ∷ [] }

abbrev class_type : ℕ → IrType
class_type n = ir_type TypeTag.class (some (class_name n)) no_types 0

abbrev class_of : ℕ → Option SymbolId → ClassDeclaration
class_of n base = record {
  id = class_name n;
  base = base;
  access = Access.public;
  retained = false;
  fields = [];
  methods = [];
  location = none;
}

abbrev slot : SymbolId
slot = record { module_id = 109 ∷ []; kind = SymbolKind.method; semantic_name = 115 ∷ [] }

-- The retained implementation of the slot in a class.
abbrev method : (name class : ℕ) → Function
method name class = record {
  id = record { module_id = 109 ∷ []; kind = SymbolKind.method; semantic_name = name ∷ [] };
  parameter_types = class_type class ∷ int ∷ [];
  result_type = int;
  kind = FunctionKind.instance_method;
  effects = 4;
  unsafe_call = false;
  retained = true;
  export_name = [];
  entry_block = 0;
  unsafe_root = none;
  declaring_class = some (class_name class);
  dispatch_slot = some slot;
  location = none;
  blocks = [];
  debug_scopes = [];
  debug_locals = [];
}

-- The class 68 derives from the class 66, and both implement the slot, the derived class first.
abbrev shapes : IrModule
shapes = record whole {
  classes = class_of 66 none ∷ class_of 68 (some (class_name 66)) ∷ [];
  functions = method 97 68 ∷ method 98 66 ∷ [];
}

shapes_accepted : verify_supported_module legal no_catalog shapes ≡ ok tt
unfolding verify_body verify_blocks_and_uses number_blocks register_definitions define_root define
    register_use push add_edge edge_to verify_edge needs_location visit_instruction branch two_edges
    conditional_edges conditional_branch returned_value return_value panic visit_terminator
    visit_block check_scopes check_block_scopes check_locals check_use verify_dominance
    check_effects check_debug verify_flow require_value_type verify_instruction_shape
    definition_type operand_type result_type require_operand require_result require_unary
    require_binary verify_instruction check_opcode integer_arithmetic comparison verify_location
    find_source utf8_boundary has_feature is_tag same_type same_symbol integer_scalar
    floating_scalar extended_scalar is_void is_scalar is_string is_class is_c_function
    is_supported_value is_managed_reference is_pointer_element is_pointer is_unsafe_capability
    is_borrow_capability dominators rounds round visit meet first_sets verify_canonical_cfg search
    turn complement TypeTag.wire Opcode.wire TerminatorTag.wire verify_supported_module
    verify_declarations verify_function verify_signature_of verify_header check_version
    check_session check_native_records uses_native_strings check_orders check_classes check_fields
    check_methods check_bases check_globals check_exports verify_imports declare check_export
    check_declaring_class require_declared_type check_declared symbol_before find_class
    in_canonical_order contains_string require_result_type FunctionKind.wire SymbolKind.wire
shapes_accepted = refl

abbrev context : FunctionContext
context = record {
  index = shapes;
  function = method 97 68;
  blocks = [];
  successors = [];
  predecessors = [];
  definitions =
      (5, record { value_type = int; block = 0; instruction = none })
      ∷ (9, record { value_type = class_type 66; block = 0; instruction = none })
      ∷ [];
  uses = [];
  required_effects = 0;
}

abbrev area : Instruction
area = record (operation Opcode.call_virtual none int 7 (9 ∷ 5 ∷ [])) { symbol = some slot }

area_accepted : verify_virtual_call context area ≡ ok 4
unfolding verify_virtual_call choose_signature compatible is_same_or_base same_or_base_within
    find_class verify_signature verify_instruction_shape definition_type operand_type result_type
    require_operand require_result is_tag same_type same_symbol is_void is_class complement
    TypeTag.wire FunctionKind.wire SymbolKind.wire
area_accepted = refl

widest_receiver_example :
    (target : SymbolId) × (some slot ≡ some target)
    × (call : SlotCall context area (candidates target shapes.functions) 4) × ((f : Function)
        → Memᴰ f (candidates target shapes.functions)
        → (s : SymbolId) × (receiver f ≡ some s)
          × (Derives shapes call.signature_class s → s ≡ call.signature_class))
widest_receiver_example =
    widest_receiver legal no_catalog context area 4 shapes_accepted area_accepted
