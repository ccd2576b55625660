-- ===== src/Verifier/ModuleExamples.antt =====
-- A module that `verify_supported_module` of native/codegen/ir_verifier.cpp accepts.
use mathlib.Core.List.{Memᴰ}
use neri.Prelude.{ℕ, ◌≡◌, refl, [], ◌∷◌, Option, none, some, false}
use neri.Ir.Model.{Bytes, SymbolId, ClassDeclaration, Function, IrModule}
use neri.Ir.Access.{Access}
use neri.Ir.SymbolKind.{SymbolKind}
use neri.Ir.SymbolKind
use neri.Ir.FunctionKind
use neri.Ir.TypeTag
use neri.Ir.Opcode
use neri.Ir.TerminatorTag
use neri.Transport.Reader.{ok}
use neri.Verifier.Body.Sample.{legal, whole}
use neri.Verifier.Context.{
  require_value_type, verify_instruction_shape, definition_type, operand_type, result_type,
  require_operand, require_result, require_unary, require_binary, require_result_type,
}
use neri.Verifier.Declared.{
  verify_function, verify_signature_of, check_export, check_declaring_class, require_declared_type,
  check_declared,
}
use neri.Verifier.Effect.{complement}
use neri.Verifier.Imports.{RuntimeContract, verify_imports, declare}
use neri.Verifier.Instruction.{verify_instruction, check_opcode}
use neri.Verifier.Lookup.{verify_location, find_source, utf8_boundary, has_feature, find_class}
use neri.Verifier.Modules.{
  check_version, check_session, check_native_records, uses_native_strings, check_orders,
  check_classes, check_fields, check_methods, symbol_before,
}
use neri.Verifier.Scalars.{integer_arithmetic, comparison}
use neri.Verifier.Supported.{
  verify_supported_module, verify_declarations, verify_header, check_bases, check_globals,
  check_exports, Rooted, module_accepted,
}
use neri.Verifier.Types.{
  is_tag, same_type, same_symbol, integer_scalar, floating_scalar, extended_scalar, is_void,
  is_scalar, is_string, is_class, is_c_function, is_supported_value, is_managed_reference,
  is_pointer_element, is_pointer, is_unsafe_capability, is_borrow_capability, contains_string,
}
use neri.Verifier.Flow.Dominance.{dominators, rounds, round, visit, meet, first_sets}
use neri.Verifier.Flow.Order.{verify_canonical_cfg, search, turn}
use neri.Verifier.Body.Blocks.{
  register_definitions, define_root, define, register_use, push, add_edge, edge_to, verify_edge,
  needs_location, visit_instruction, branch, two_edges, conditional_edges, conditional_branch,
  returned_value, return_value, panic, visit_terminator, visit_block,
}
use neri.Verifier.Body.Debug.{check_scopes, check_block_scopes, check_locals}
use neri.Verifier.Body.Whole.{
  verify_body, verify_blocks_and_uses, number_blocks, check_use, verify_dominance, check_effects,
  check_debug, verify_flow,
}
use neri.Transport.Payload.{in_canonical_order}

abbrev no_catalog : Bytes → Option RuntimeContract
no_catalog name = none

abbrev class_name : ℕ → SymbolId
class_name n = record { module_id = 109 ∷ []; kind = SymbolKind.class; semantic_name = n ∷ [] }

abbrev class_of : ℕ → Option SymbolId → ClassDeclaration
class_of n base = record {
  id = class_name n;
  base = base;
  access = Access.public;
  retained = false;
  fields = [];
  methods = [];
  location = none;
}

-- Two classes, the second derived from the first, and a function.
abbrev sample : IrModule
sample = record whole { classes = class_of 66 none ∷ class_of 68 (some (class_name 66)) ∷ [] }

module_checked : verify_supported_module legal no_catalog sample ≡ ok tt
unfolding verify_body verify_blocks_and_uses number_blocks register_definitions define_root define
    register_use push add_edge edge_to verify_edge needs_location visit_instruction branch two_edges
    conditional_edges conditional_branch returned_value return_value panic visit_terminator
    visit_block check_scopes check_block_scopes check_locals check_use verify_dominance
    check_effects check_debug verify_flow require_value_type verify_instruction_shape
    definition_type operand_type result_type require_operand require_result require_unary
    require_binary verify_instruction check_opcode integer_arithmetic comparison verify_location
    find_source utf8_boundary has_feature is_tag same_type same_symbol integer_scalar
    floating_scalar extended_scalar is_void is_scalar is_string is_class is_c_function
    is_supported_value is_managed_reference is_pointer_element is_pointer is_unsafe_capability
    is_borrow_capability dominators rounds round visit meet first_sets verify_canonical_cfg search
    turn complement TypeTag.wire Opcode.wire TerminatorTag.wire verify_supported_module
    verify_declarations verify_function verify_signature_of verify_header check_version
    check_session check_native_records uses_native_strings check_orders check_classes check_fields
    check_methods check_bases check_globals check_exports verify_imports declare check_export
    check_declaring_class require_declared_type check_declared symbol_before find_class
    in_canonical_order contains_string require_result_type FunctionKind.wire SymbolKind.wire
module_checked = refl

module_accepted_example :
    ((c : ClassDeclaration) → Memᴰ c sample.classes → Rooted sample c.base)
    × ((f : Function)
        → Memᴰ f sample.functions
        → f.retained ≡ false
        → verify_body legal sample f ≡ ok tt)
module_accepted_example = module_accepted legal no_catalog sample module_checked
