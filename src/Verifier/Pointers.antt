-- ===== src/Verifier/Pointers.antt =====
-- Unsafe code in `verify_instruction` of native/codegen/ir_verifier.cpp, and `declaration` of
-- native/codegen/native_layout.h.
use neri.Prelude.{
  ℕ, Option, none, some, Bool, true, false, ◌&&◌, ◌||◌, not, ◌==◌, if◌then◌else◌, length, bit_or,
  bytes_eq,
}
use neri.Ir.Model.{
  IrType, ir_type, no_types, more_types, Instruction, SymbolId, Field, NativeRecord, IrModule,
}
use neri.Ir.Opcode.{Opcode}
use neri.Ir.Opcode
use neri.Ir.SymbolKind.{SymbolKind}
use neri.Ir.SymbolKind
use neri.Ir.TypeTag.{TypeTag}
use neri.Transport.Reader.{ErrorKind, Result, ok}
use neri.Verifier.Check.{◌>>=◌, ◌>>◌, fail_if, found}
use neri.Verifier.Types.{
  same_symbol, is_tag, tag_of, plain, applied, is_pointer, is_pointer_element, is_void, symbol_of,
  arguments_of, no_arguments, element_count_of, is_unsafe_capability, is_borrow_capability, front,
}
use neri.Verifier.Lookup.{first}
use neri.Verifier.Context.{
  FunctionContext, verify_instruction_shape, operand_type, type_argument, require_operand,
  require_result, has_value, same,
}
use neri.Verifier.Effect

abbrev pub is_opcode : Opcode → Opcode → Bool
is_opcode a b = Opcode.wire a == Opcode.wire b

-- The first record with the module and the name of the type's symbol.
unfoldable pub declaration : IrModule → IrType → Result NativeRecord
declaration m t =
    fail_if
      (not (is_tag (tag_of t) TypeTag.native_record)
        || not (no_arguments (arguments_of t))
        || not (element_count_of t == 0))
      ErrorKind.invalid_type
    >> (found (symbol_of t) ErrorKind.invalid_type >>= λ symbol.
        fail_if (not (SymbolKind.wire symbol.kind == SymbolKind.wire SymbolKind.native_record))
          ErrorKind.invalid_type
        >> found
            (first
              (λ r.
                bytes_eq (SymbolId.module_id (NativeRecord.id r)) symbol.module_id
                && bytes_eq (SymbolId.semantic_name (NativeRecord.id r)) symbol.semantic_name)
              m.native_records)
            ErrorKind.invalid_type)

-- The operand is the capability of unsafe code.
unfoldable pub require_capability : FunctionContext → Instruction → Result (Unit {0})
require_capability c i =
    operand_type c i 0 >>= λ t. fail_if (not (is_unsafe_capability t)) ErrorKind.invalid_safety

-- What a pointer operand of an aggregate points at.
unfoldable pub pointee : FunctionContext → Instruction → TypeTag → Result IrType
pointee c i tag = operand_type c i 1 >>= λ t.
    fail_if (not (is_pointer t)) ErrorKind.invalid_type
    >> (found (front t) ErrorKind.invalid_type >>= λ element.
        fail_if (not (is_tag (tag_of element) tag)) ErrorKind.invalid_type >> ok element)

unfoldable pub unsafe_begin : FunctionContext → Instruction → Result ℕ
unsafe_begin c i =
    verify_instruction_shape i 1 0 0 false false false
    >> require_result i 0 (plain TypeTag.unsafe_capability)
    >> ok Effect.unsafe_code

unfoldable pub unsafe_end : FunctionContext → Instruction → Result ℕ
unsafe_end c i =
    verify_instruction_shape i 0 1 0 false false false
    >> require_capability c i
    >> ok Effect.unsafe_code

unfoldable pub native_field_address : FunctionContext → Instruction → Result ℕ
native_field_address c i =
    verify_instruction_shape i 1 2 0 true false false
    >> require_capability c i
    >> (pointee c i TypeTag.native_record >>= λ element. declaration c.index element >>= λ declared.
        found i.symbol ErrorKind.invalid_reference >>= λ symbol.
        found (first (λ f. same_symbol (Field.id f) symbol) declared.fields)
          ErrorKind.invalid_reference
        >>= λ field. require_result i 0 (applied TypeTag.pointer (Field.value_type field)))
    >> ok Effect.unsafe_code

-- `arguments.front()`.
abbrev first_argument : IrType → Option IrType
first_argument (ir_type tag symbol no_types n) = none
first_argument (ir_type tag symbol (more_types t ts) n) = some t

unfoldable pub native_index_address : FunctionContext → Instruction → Result ℕ
native_index_address c i =
    verify_instruction_shape i 1 3 0 false false false
    >> require_capability c i
    >> (pointee c i TypeTag.fixed_array >>= λ array.
        require_operand c i 2 (plain TypeTag.int)
        >> (found (first_argument array) ErrorKind.invalid_type >>= λ element.
            require_result i 0 (applied TypeTag.pointer element)))
    >> ok (bit_or Effect.unsafe_code Effect.may_panic)

-- `is_three_operands`, `expected_results`, `expected_operands` and `expected_types`.
unfoldable pub three_operands : Opcode → Bool
three_operands o =
    is_opcode o Opcode.pointer_store
    || is_opcode o Opcode.pointer_offset
    || is_opcode o Opcode.pointer_difference
    || is_opcode o Opcode.pointer_compare
    || is_opcode o Opcode.native_realloc

unfoldable pub expected_results : Opcode → ℕ
expected_results o =
    if is_opcode o Opcode.pointer_store
      || is_opcode o Opcode.native_free
      || is_opcode o Opcode.borrow_end
    then 0
    else if is_opcode o Opcode.borrow_begin
    then 2
    else 1

unfoldable pub expected_types : Opcode → ℕ
expected_types o =
    if is_opcode o Opcode.pointer_cast then 2 else if is_opcode o Opcode.borrow_end then 0 else 1

unfoldable pub pointer_shape : Instruction → Result (Unit {0})
pointer_shape i =
    fail_if
      (not (length i.results == expected_results i.opcode)
        || not (length i.operands == (if three_operands i.opcode then 3 else 2))
        || not (length i.type_arguments == expected_types i.opcode)
        || has_value i.symbol
        || has_value i.constant_value
        || not (same (has_value i.predicate) (is_opcode i.opcode Opcode.pointer_compare))
        || (i.flag && not (is_opcode i.opcode Opcode.native_alloc)))
      ErrorKind.invalid_type

-- Operands and results by the opcode; `element` is the first type argument. Every comparison is one of
-- the six that `pointer.compare` allows.
unfoldable pub pointer_types :
    FunctionContext → Instruction → (element : IrType) → Result (Unit {0})
pointer_types c i element =
    let pointer = applied TypeTag.pointer element in
    let integer = plain TypeTag.int in
    elim i.opcode [
      | Opcode.stack_alloc ↦ require_operand c i 1 integer >> require_result i 0 pointer
      | Opcode.native_alloc ↦ require_operand c i 1 integer >> require_result i 0 pointer
      | Opcode.pointer_load ↦ require_operand c i 1 pointer >> require_result i 0 element
      | Opcode.pointer_store ↦ require_operand c i 1 pointer >> require_operand c i 2 element
      | Opcode.pointer_offset ↦
          require_operand c i 1 pointer
          >> require_operand c i 2 integer
          >> require_result i 0 pointer
      | Opcode.pointer_difference ↦
          require_operand c i 1 pointer
          >> require_operand c i 2 pointer
          >> require_result i 0 integer
      | Opcode.pointer_compare ↦
          require_operand c i 1 pointer
          >> require_operand c i 2 pointer
          >> require_result i 0 (plain TypeTag.bool)
      | Opcode.pointer_cast ↦ type_argument i 1 >>= λ target.
          fail_if (not (is_pointer_element target)) ErrorKind.invalid_type
          >> require_operand c i 1 pointer
          >> require_result i 0 (applied TypeTag.pointer target)
      | Opcode.native_realloc ↦
          require_operand c i 1 pointer
          >> require_operand c i 2 integer
          >> require_result i 0 pointer
      | Opcode.native_free ↦ require_operand c i 1 pointer
      | Opcode.borrow_begin ↦
          require_operand c i 1 (applied TypeTag.array element)
          >> require_result i 0 pointer
          >> require_result i 1 (applied TypeTag.borrow_capability element)
      | o ↦ ok tt
    ]

-- The effects beside `unsafe`.
unfoldable pub pointer_effects : Opcode → ℕ
pointer_effects Opcode.stack_alloc = Effect.may_panic
pointer_effects Opcode.pointer_load = Effect.read
pointer_effects Opcode.borrow_begin = bit_or Effect.read Effect.safepoint
pointer_effects Opcode.pointer_store = Effect.write
pointer_effects Opcode.native_free = Effect.write
pointer_effects Opcode.native_alloc = bit_or Effect.native_allocate Effect.may_panic
pointer_effects Opcode.native_realloc = bit_or Effect.native_allocate Effect.may_panic
pointer_effects o = 0

unfoldable pub pointer_instruction : FunctionContext → Instruction → Result ℕ
pointer_instruction c i =
    pointer_shape i
    >> require_capability c i
    >> (if is_opcode i.opcode Opcode.borrow_end
        then (operand_type c i 1 >>= λ t.
            fail_if (not (is_borrow_capability t)) ErrorKind.invalid_safety
            >> ok Effect.unsafe_code)
        else (type_argument i 0 >>= λ element.
            fail_if
              (is_void element
                && not (is_opcode i.opcode Opcode.pointer_cast)
                && not (is_opcode i.opcode Opcode.pointer_compare)
                && not (is_opcode i.opcode Opcode.native_free))
              ErrorKind.invalid_type
            >> fail_if (not (is_pointer_element element)) ErrorKind.invalid_type
            >> pointer_types c i element
            >> ok (bit_or Effect.unsafe_code (pointer_effects i.opcode))))
