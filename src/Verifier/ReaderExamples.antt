-- ===== src/Verifier/ReaderExamples.antt =====
-- Input that `read_verified_module` of native/codegen/ir_reader.cpp accepts.
use mathlib.Core.List.{Memᴰ}
use neri.Prelude.{ℕ, ◌≤◌, ◌≡◌, refl, Option, none, false, length}
use neri.Ir.Model.{Bytes, ClassDeclaration, Function}
use neri.Ir.SymbolKind.{SymbolKind}
use neri.Ir.SymbolKind
use neri.Ir.FunctionKind
use neri.Ir.TypeTag
use neri.Ir.ConstantTag
use neri.Verifier.Constants.{verify_constant, verify_levels}
use neri.Ir.Opcode
use neri.Ir.TerminatorTag
use neri.Transport.Reader.{ok}
use neri.Transport.Wire.Payload.{payload}
use neri.Transport.Envelope.{initial, consistent}
use neri.Transport.Envelope.Exact.{envelope}
use neri.Transport.Examples.{
  default_options, any_text, sample, sample_bytes, zero_digest, zero_digest_size,
  sample_envelope-IsBytes, sample_accepted,
}
use neri.Verifier.Accepted.{
  accepted, outcome_of, read_then_verify, read_verified_module, read_verified_module_sound,
}
use neri.Verifier.Context.{
  require_value_type, verify_instruction_shape, definition_type, operand_type, result_type,
  require_operand, require_result, require_unary, require_binary, require_result_type,
}
use neri.Verifier.Declared.{
  verify_function, verify_signature_of, check_export, check_declaring_class, require_declared_type,
  check_declared,
}
use neri.Verifier.Effect.{complement}
use neri.Verifier.Imports.{RuntimeContract, verify_imports, declare}
use neri.Verifier.Instruction.{verify_instruction, check_opcode}
use neri.Verifier.Lookup.{verify_location, find_source, utf8_boundary, has_feature, find_class}
use neri.Verifier.Modules.{
  check_version, check_session, check_native_records, uses_native_strings, check_orders,
  check_classes, check_fields, check_methods, symbol_before,
}
use neri.Verifier.Scalars.{
  verify_constant_instruction, verify_string_global, integer_arithmetic, comparison,
}
use neri.Verifier.Supported.{
  verify_supported_module, verify_declarations, verify_header, check_bases, check_globals,
  check_exports, Rooted,
}
use neri.Verifier.Types.{
  is_tag, same_type, same_symbol, integer_scalar, floating_scalar, extended_scalar, is_void,
  is_scalar, is_string, is_class, is_c_function, is_supported_value, is_managed_reference,
  is_pointer_element, is_pointer, is_unsafe_capability, is_borrow_capability, contains_string,
}
use neri.Verifier.Flow.Dominance.{dominators, rounds, round, visit, meet, first_sets}
use neri.Verifier.Flow.Order.{verify_canonical_cfg, search, turn}
use neri.Verifier.Body.Blocks.{
  register_definitions, define_root, define, register_use, push, add_edge, edge_to, verify_edge,
  needs_location, visit_instruction, branch, two_edges, conditional_edges, conditional_branch,
  returned_value, return_value, panic, visit_terminator, visit_block,
}
use neri.Verifier.Body.Debug.{check_scopes, check_block_scopes, check_locals}
use neri.Verifier.Body.Whole.{
  verify_body, verify_blocks_and_uses, number_blocks, check_use, verify_dominance, check_effects,
  check_debug, verify_flow,
}
use neri.Transport.Payload.{in_canonical_order}

abbrev no_catalog : Bytes → Option RuntimeContract
no_catalog name = none

sample_verified : verify_supported_module any_text no_catalog sample ≡ ok tt
unfolding verify_body verify_blocks_and_uses number_blocks register_definitions define_root define
    register_use push add_edge edge_to verify_edge needs_location visit_instruction branch two_edges
    conditional_edges conditional_branch returned_value return_value panic visit_terminator
    visit_block check_scopes check_block_scopes check_locals check_use verify_dominance
    check_effects check_debug verify_flow require_value_type verify_instruction_shape
    definition_type operand_type result_type require_operand require_result require_unary
    require_binary verify_instruction check_opcode integer_arithmetic comparison verify_location
    find_source utf8_boundary has_feature is_tag same_type same_symbol integer_scalar
    floating_scalar extended_scalar is_void is_scalar is_string is_class is_c_function
    is_supported_value is_managed_reference is_pointer_element is_pointer is_unsafe_capability
    is_borrow_capability dominators rounds round visit meet first_sets verify_canonical_cfg search
    turn complement TypeTag.wire Opcode.wire TerminatorTag.wire verify_supported_module
    verify_declarations verify_function verify_signature_of verify_header check_version
    check_session check_native_records uses_native_strings check_orders check_classes check_fields
    check_methods check_bases check_globals check_exports verify_imports declare check_export
    check_declaring_class require_declared_type check_declared symbol_before find_class
    in_canonical_order contains_string require_result_type FunctionKind.wire SymbolKind.wire
    verify_constant_instruction verify_constant verify_levels verify_string_global ConstantTag.wire
sample_verified = refl

sample_outcome :
    read_verified_module zero_digest any_text no_catalog default_options
      (envelope zero_digest 9 sample_bytes)
    ≡ accepted sample
unfolding read_verified_module read_then_verify outcome_of consistent
sample_outcome = rw sample_accepted (rw sample_verified refl)

read_verified_module_sound_example :
    ((minor : ℕ) × (minor ≤ 9)
      × (length (envelope zero_digest 9 sample_bytes) ≤ 268435456)
      × (payload (initial default_options any_text minor)).Valid sample
      × (envelope zero_digest 9 sample_bytes
          ≡ envelope zero_digest minor
              ((payload (initial default_options any_text minor)).encode sample)))
    × ((c : ClassDeclaration) → Memᴰ c sample.classes → Rooted sample c.base)
    × ((f : Function)
        → Memᴰ f sample.functions
        → f.retained ≡ false
        → verify_body any_text sample f ≡ ok tt)
read_verified_module_sound_example =
    read_verified_module_sound zero_digest zero_digest_size any_text no_catalog default_options
      (envelope zero_digest 9 sample_bytes) sample sample_envelope-IsBytes sample_outcome
