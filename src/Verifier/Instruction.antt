-- ===== src/Verifier/Instruction.antt =====
-- `verify_instruction` of native/codegen/ir_verifier.cpp: the operands are defined, then the check for
-- the opcode, which returns the effects.
use neri.Prelude.{ℕ, Bool, true, false, ◌&&◌, not, ◌==◌, leb, length}
use neri.Ir.Model.{Bytes, Instruction}
use neri.Ir.Opcode.{Opcode}
use neri.Ir.Opcode
use neri.Ir.TypeTag.{TypeTag}
use neri.Transport.Reader.{ErrorKind, Result, ok}
use neri.Verifier.Check.{◌>>=◌, ◌>>◌, fail_if, each}
use neri.Verifier.Context.{FunctionContext, definition_type}
use neri.Verifier.Calls.{verify_call, verify_c_function_instruction}
use neri.Verifier.Virtual.{verify_virtual_call}
use neri.Verifier.Scalars.{
  verify_constant_instruction, integer_negation, integer_arithmetic, float_negation,
  float_arithmetic, comparison, numeric_cast, unary_with, binary_with,
}
use neri.Verifier.Objects.{
  allocation, class_upcast, class_checked_cast, optional_none, optional_some, optional_is_some,
  optional_get_checked, array_new, array_length, array_load_checked, array_store_checked,
  object_alloc, field_access, worker_entry, array_generate, task_generate,
}
use neri.Verifier.Pointers.{
  unsafe_begin, unsafe_end, native_field_address, native_index_address, pointer_instruction,
}
use neri.Verifier.Effect

-- The switch.
unfoldable pub check_opcode : (legal_utf8 : Bytes → Bool) → FunctionContext → Instruction → Result ℕ
check_opcode legal_utf8 c i = elim i.opcode [
  | Opcode.array_generate ↦ array_generate c i
  | Opcode.task_generate ↦ task_generate c i
  | Opcode.constant ↦ verify_constant_instruction legal_utf8 c i
  | Opcode.int_neg_checked ↦ integer_negation c i
  | Opcode.int_add_checked ↦ integer_arithmetic c i
  | Opcode.int_sub_checked ↦ integer_arithmetic c i
  | Opcode.int_mul_checked ↦ integer_arithmetic c i
  | Opcode.int_div_checked ↦ integer_arithmetic c i
  | Opcode.float_neg ↦ float_negation c i
  | Opcode.float_add ↦ float_arithmetic c i
  | Opcode.float_sub ↦ float_arithmetic c i
  | Opcode.float_mul ↦ float_arithmetic c i
  | Opcode.float_div ↦ float_arithmetic c i
  | Opcode.bool_not ↦ unary_with c i TypeTag.bool TypeTag.bool 0
  | Opcode.bool_and ↦ binary_with c i TypeTag.bool TypeTag.bool 0
  | Opcode.bool_or ↦ binary_with c i TypeTag.bool TypeTag.bool 0
  | Opcode.compare ↦ comparison c i
  | Opcode.cast_int_to_float ↦ unary_with c i TypeTag.int TypeTag.float 0
  | Opcode.numeric_cast_checked ↦ numeric_cast c i
  | Opcode.cast_float_to_int_checked ↦ unary_with c i TypeTag.float TypeTag.int Effect.may_panic
  | Opcode.cast_int_to_byte_checked ↦ unary_with c i TypeTag.int TypeTag.byte Effect.may_panic
  | Opcode.cast_byte_to_int ↦ unary_with c i TypeTag.byte TypeTag.int 0
  | Opcode.class_upcast ↦ class_upcast c i
  | Opcode.class_checked_cast ↦ class_checked_cast c i
  | Opcode.optional_none ↦ optional_none c i
  | Opcode.optional_some ↦ optional_some c i
  | Opcode.optional_is_some ↦ optional_is_some c i
  | Opcode.optional_get_checked ↦ optional_get_checked c i
  | Opcode.string_concat ↦ binary_with c i TypeTag.string TypeTag.string allocation
  | Opcode.string_equal ↦ binary_with c i TypeTag.string TypeTag.bool Effect.read
  | Opcode.string_not_equal ↦ binary_with c i TypeTag.string TypeTag.bool Effect.read
  | Opcode.string_from_int ↦ unary_with c i TypeTag.int TypeTag.string allocation
  | Opcode.string_from_byte ↦ unary_with c i TypeTag.byte TypeTag.string allocation
  | Opcode.string_from_float ↦ unary_with c i TypeTag.float TypeTag.string allocation
  | Opcode.call ↦ verify_call c i false false false false
  | Opcode.call_direct ↦ verify_call c i false true false false
  | Opcode.call_virtual ↦ verify_virtual_call c i
  | Opcode.call_import ↦ verify_call c i true false false false
  | Opcode.call_c_abi ↦ verify_call c i true false true false
  | Opcode.c_function_address ↦ verify_c_function_instruction c i true
  | Opcode.call_c_indirect ↦ verify_c_function_instruction c i false
  | Opcode.worker_entry ↦ worker_entry c i
  | Opcode.call_unsafe ↦ verify_call c i false false false true
  | Opcode.array_new ↦ array_new c i
  | Opcode.array_length ↦ array_length c i
  | Opcode.array_load_checked ↦ array_load_checked c i
  | Opcode.array_store_checked ↦ array_store_checked c i
  | Opcode.object_alloc ↦ object_alloc c i
  | Opcode.field_load ↦ field_access c i false
  | Opcode.field_store ↦ field_access c i true
  | Opcode.unsafe_begin ↦ unsafe_begin c i
  | Opcode.unsafe_end ↦ unsafe_end c i
  | Opcode.native_field_address ↦ native_field_address c i
  | Opcode.native_index_address_checked ↦ native_index_address c i
  | Opcode.stack_alloc ↦ pointer_instruction c i
  | Opcode.pointer_load ↦ pointer_instruction c i
  | Opcode.pointer_store ↦ pointer_instruction c i
  | Opcode.pointer_offset ↦ pointer_instruction c i
  | Opcode.pointer_difference ↦ pointer_instruction c i
  | Opcode.pointer_compare ↦ pointer_instruction c i
  | Opcode.pointer_cast ↦ pointer_instruction c i
  | Opcode.native_alloc ↦ pointer_instruction c i
  | Opcode.native_realloc ↦ pointer_instruction c i
  | Opcode.native_free ↦ pointer_instruction c i
  | Opcode.borrow_begin ↦ pointer_instruction c i
  | Opcode.borrow_end ↦ pointer_instruction c i
]

-- The opcodes from INT_NEG_CHECKED to FLOAT_DIV.
abbrev numeric_arithmetic : Opcode → Bool
numeric_arithmetic o =
    leb (Opcode.wire Opcode.int_neg_checked) (Opcode.wire o)
    && leb (Opcode.wire o) (Opcode.wire Opcode.float_div)

unfoldable pub verify_instruction :
    (legal_utf8 : Bytes → Bool) → FunctionContext → Instruction → Result ℕ
verify_instruction legal_utf8 c i =
    each (λ id. definition_type c id >>= λ t. ok tt) i.operands
    >> fail_if (numeric_arithmetic i.opcode && not (length i.results == 1)) ErrorKind.invalid_type
    >> check_opcode legal_utf8 c i
