-- ===== src/Verifier/Body/Examples.antt =====
-- A small function that the checks of native/codegen/ir_verifier.cpp accept.
use mathlib.Core.List.{Memᴰ}
use neri.Prelude.{ℕ, ◌≡◌, ◌≤◌, ◌<◌, refl, some, ◌⊎◌, map_find}
use neri.Ir.Opcode.{Opcode}
use neri.Ir.Opcode
use neri.Ir.TypeTag.{TypeTag}
use neri.Ir.TypeTag
use neri.Ir.TerminatorTag.{TerminatorTag}
use neri.Ir.TerminatorTag
use neri.Transport.Reader.{ok}
use neri.Verifier.Types.{
  is_tag, same_type, same_symbol, integer_scalar, floating_scalar, extended_scalar, is_void,
  is_scalar, is_string, is_class, is_c_function, is_supported_value, is_managed_reference,
  is_pointer_element, is_pointer, is_unsafe_capability, is_borrow_capability,
}
use neri.Verifier.Context.{
  Definition, FunctionContext, require_value_type, verify_instruction_shape, definition_type,
  operand_type, result_type, require_operand, require_result, require_unary, require_binary,
}
use neri.Verifier.Instruction.{verify_instruction, check_opcode}
use neri.Verifier.Effect.{digit, complement}
use neri.Verifier.Body.Blocks.{
  Definitions, register_definitions, define_root, define, register_use, push, add_edge, edge_to,
  verify_edge, needs_location, visit_instruction, branch, two_edges, conditional_edges,
  conditional_branch, returned_value, return_value, panic, visit_terminator, visit_block,
}
use neri.Verifier.Body.Whole.{
  verify_body, verify_blocks_and_uses, number_blocks, check_use, verify_dominance, check_effects,
  check_debug, verify_flow,
}
use neri.Verifier.Body.Visits.{Used}
use neri.Verifier.Body.Registered.{Defines, registered_sound}
use neri.Verifier.Body.Sound.{Precedes, Dominating, uses_dominated, effects_declared}
use neri.Verifier.Lookup.{verify_location, find_source, utf8_boundary, has_feature}
use neri.Verifier.Scalars.{integer_arithmetic, comparison}
use neri.Verifier.Flow.Dominance.{dominators, rounds, round, visit, meet, first_sets}
use neri.Verifier.Flow.Order.{verify_canonical_cfg, search, turn}
use neri.Verifier.Body.Debug.{check_scopes, check_block_scopes, check_locals}
use neri.Verifier.Body.Sample.{
  legal, last_sum, last_block, function, whole, sum_definition, entries,
}

accepted : verify_body legal whole function ≡ ok tt
unfolding verify_body verify_blocks_and_uses number_blocks register_definitions define_root define
    register_use push add_edge edge_to verify_edge needs_location visit_instruction branch two_edges
    conditional_edges conditional_branch returned_value return_value panic visit_terminator
    visit_block check_scopes check_block_scopes check_locals check_use verify_dominance
    check_effects check_debug verify_flow require_value_type verify_instruction_shape
    definition_type operand_type result_type require_operand require_result require_unary
    require_binary verify_instruction check_opcode integer_arithmetic comparison verify_location
    find_source utf8_boundary has_feature is_tag same_type same_symbol integer_scalar
    floating_scalar extended_scalar is_void is_scalar is_string is_class is_c_function
    is_supported_value is_managed_reference is_pointer_element is_pointer is_unsafe_capability
    is_borrow_capability dominators rounds round visit meet first_sets verify_canonical_cfg search
    turn complement TypeTag.wire Opcode.wire TerminatorTag.wire
accepted = refl

is_last : Memᴰ last_block function.blocks
is_last = Memᴰ.tail (Memᴰ.tail (Memᴰ.tail (Memᴰ.head refl)))

uses_dominated_example :
    (ds : Definitions) × (d : Definition) × (register_definitions whole function ≡ ok ds)
    × (map_find 1 ds ≡ some d)
    × (((d.block ≡ 3) × Precedes d.instruction 0) ⊎ Dominating function d.block 3)
uses_dominated_example =
    uses_dominated legal whole function accepted last_block is_last 0 1
      (Used.operand 0 last_sum 1 refl refl)

effects_declared_example :
    (c : FunctionContext) × (effects : ℕ) × (c.index ≡ whole)
    × (register_definitions whole function ≡ ok c.definitions)
    × (verify_instruction legal c last_sum ≡ ok effects)
    × ((place : ℕ) → place < 32 → digit place effects ≤ digit place 4)
effects_declared_example =
    effects_declared legal whole function accepted last_block is_last 0 last_sum refl

registered : register_definitions whole function ≡ ok entries
unfolding register_definitions define_root define require_value_type verify_location find_source
    utf8_boundary is_tag is_void is_scalar is_string is_class is_supported_value extended_scalar
    TypeTag.wire
registered = refl

registered_sound_example : Defines function 5 sum_definition
registered_sound_example = registered_sound whole function entries registered 5 sum_definition refl
