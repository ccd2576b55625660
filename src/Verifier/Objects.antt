-- ===== src/Verifier/Objects.antt =====
-- Classes, optionals, arrays, fields, workers and generated arrays in `verify_instruction` of
-- native/codegen/ir_verifier.cpp.
use neri.Prelude.{
  ℕ, List, [], ◌∷◌, some, Bool, true, false, ◌&&◌, ◌||◌, not, ◌==◌, if◌then◌else◌, length, bit_or,
  get_elem?,
}
use neri.Ir.Model.{
  IrType, ir_type, no_types, more_types, Instruction, ValueDefinition, Field, ClassDeclaration,
  Function,
}
use neri.Ir.Opcode.{Opcode}
use neri.Ir.SymbolKind.{SymbolKind}
use neri.Ir.SymbolKind
use neri.Ir.FunctionKind.{FunctionKind}
use neri.Ir.TypeTag.{TypeTag}
use neri.Ir.Feature.{Feature}
use neri.Transport.Reader.{ErrorKind, Result, ok}
use neri.Verifier.Check.{◌>>=◌, ◌>>◌, fail, fail_if, found}
use neri.Verifier.Types.{
  same_type, same_symbol, is_tag, tag_of, plain, applied, is_class, is_void, symbol_of, holds_for,
  is_unsafe_capability, is_none,
}
use neri.Verifier.Lookup.{
  FoundField, find_class, find_field, find_function, has_feature, is_same_or_base,
}
use neri.Verifier.Calls.{is_kind, c_signature_type}
use neri.Verifier.Virtual.{verify_virtual_call}
use neri.Verifier.Context.{
  FunctionContext, verify_instruction_shape, operand_type, result_type, type_argument,
  require_operand, require_result, require_operands, has_value,
}
use neri.Verifier.Effect

-- `arguments.size() == 1U`, and what the one argument has to satisfy.
abbrev pub one_argument : IrType → (IrType → Bool) → Bool
one_argument (ir_type tag symbol (more_types t no_types) n) f = f t
one_argument (ir_type tag symbol arguments n) f = false

-- An optional of a type.
abbrev pub optional_of : IrType → IrType → Bool
optional_of t inner = is_tag (tag_of t) TypeTag.optional && one_argument t (λ u. same_type u inner)

abbrev pub allocation : ℕ
allocation = bit_or (bit_or Effect.managed_allocate Effect.safepoint) Effect.may_panic

unfoldable pub class_upcast : FunctionContext → Instruction → Result ℕ
class_upcast c i =
    verify_instruction_shape i 1 1 0 false false false
    >> (operand_type c i 0 >>= λ source. result_type i 0 >>= λ target.
        fail_if
          (not (is_class source)
            || not (is_class target)
            || holds_for (symbol_of source) (λ s.
              holds_for (symbol_of target)
                (λ t. same_symbol s t || not (is_same_or_base c.index s t))))
          ErrorKind.invalid_type)
    >> ok 0

unfoldable pub class_checked_cast : FunctionContext → Instruction → Result ℕ
class_checked_cast c i =
    verify_instruction_shape i 1 1 1 false false false
    >> (operand_type c i 0 >>= λ source. result_type i 0 >>= λ result.
        type_argument i 0 >>= λ target.
        fail_if (not (is_class source) || not (is_class target) || not (optional_of result target))
          ErrorKind.invalid_type)
    >> ok 0

unfoldable pub optional_none : FunctionContext → Instruction → Result ℕ
optional_none c i =
    verify_instruction_shape i 1 0 1 false false false
    >> (result_type i 0 >>= λ result. type_argument i 0 >>= λ inner.
        fail_if (not (optional_of result inner)) ErrorKind.invalid_type)
    >> ok 0

unfoldable pub optional_some : FunctionContext → Instruction → Result ℕ
optional_some c i =
    verify_instruction_shape i 1 1 0 false false false
    >> (result_type i 0 >>= λ result. operand_type c i 0 >>= λ inner.
        fail_if (not (optional_of result inner)) ErrorKind.invalid_type)
    >> ok 0

unfoldable pub optional_is_some : FunctionContext → Instruction → Result ℕ
optional_is_some c i =
    verify_instruction_shape i 1 1 0 false false false
    >> require_result i 0 (plain TypeTag.bool)
    >> (operand_type c i 0 >>= λ t.
        fail_if (not (is_tag (tag_of t) TypeTag.optional)) ErrorKind.invalid_type)
    >> ok 0

unfoldable pub optional_get_checked : FunctionContext → Instruction → Result ℕ
optional_get_checked c i =
    verify_instruction_shape i 1 1 0 false false false
    >> (operand_type c i 0 >>= λ operand. result_type i 0 >>= λ result.
        fail_if (not (optional_of operand result)) ErrorKind.invalid_type)
    >> ok Effect.may_panic

unfoldable pub array_new : FunctionContext → Instruction → Result ℕ
array_new c i =
    fail_if (not (length i.type_arguments == 1)) ErrorKind.invalid_type
    >> verify_instruction_shape i 1 (length i.operands) 1 false false false
    >> (type_argument i 0 >>= λ element.
        require_result i 0 (applied TypeTag.array element)
        >> require_operands c i 0 (repeat element i.operands))
    >> ok allocation
  where
    repeat : IrType → List ℕ → List IrType
    repeat t [] = []
    repeat t (v ∷ vs) = t ∷ repeat t vs

-- The element type of an array operand.
unfoldable pub array_element : FunctionContext → Instruction → Result IrType
array_element c i = operand_type c i 0 >>= λ array. element_of array
  where
    element_of : IrType → Result IrType
    element_of (ir_type tag symbol (more_types t no_types) n) =
        if is_tag tag TypeTag.array then ok t else fail ErrorKind.invalid_type
    element_of (ir_type tag symbol arguments n) = fail ErrorKind.invalid_type

unfoldable pub array_length : FunctionContext → Instruction → Result ℕ
array_length c i =
    verify_instruction_shape i 1 1 0 false false false
    >> (array_element c i >>= λ element. require_result i 0 (plain TypeTag.int))
    >> ok Effect.read

unfoldable pub array_load_checked : FunctionContext → Instruction → Result ℕ
array_load_checked c i =
    verify_instruction_shape i 1 2 0 false false false
    >> (array_element c i >>= λ element.
        require_operand c i 1 (plain TypeTag.int) >> require_result i 0 element)
    >> ok (bit_or Effect.read Effect.may_panic)

unfoldable pub array_store_checked : FunctionContext → Instruction → Result ℕ
array_store_checked c i =
    verify_instruction_shape i 0 3 0 false false false
    >> (array_element c i >>= λ element.
        require_operand c i 1 (plain TypeTag.int) >> require_operand c i 2 element)
    >> ok (bit_or Effect.write Effect.may_panic)

unfoldable pub object_alloc : FunctionContext → Instruction → Result ℕ
object_alloc c i =
    verify_instruction_shape i 1 0 0 true false false
    >> (found i.symbol ErrorKind.invalid_reference >>= λ symbol.
        fail_if
          (not (SymbolKind.wire symbol.kind == SymbolKind.wire SymbolKind.class)
            || is_none (find_class c.index symbol))
          ErrorKind.invalid_reference
        >> require_result i 0 (ir_type TypeTag.class (some symbol) no_types 0))
    >> ok allocation

unfoldable pub field_access : FunctionContext → Instruction → (store : Bool) → Result ℕ
field_access c i store =
    verify_instruction_shape i (if store then 0 else 1) (if store then 2 else 1) 0 true false false
    >> (found i.symbol ErrorKind.invalid_reference >>= λ symbol.
        found (find_field c.index symbol) ErrorKind.invalid_reference >>= λ match.
        operand_type c i 0 >>= λ receiver.
        fail_if
          (not (is_class receiver)
            || not (
                holds_for (symbol_of receiver)
                  (λ s. is_same_or_base c.index s (ClassDeclaration.id (FoundField.owner match)))))
          ErrorKind.invalid_type
        >> (if store
            then require_operand c i 1 (Field.value_type (FoundField.value match))
            else require_result i 0 (Field.value_type (FoundField.value match))))
    >> ok (if store then Effect.write else Effect.read)

-- The type of the private entry of a worker.
abbrev worker_signature : IrType
worker_signature =
    c_signature_type (applied TypeTag.pointer (plain TypeTag.byte) ∷ plain TypeTag.uint64 ∷ [])
      (plain TypeTag.void)

-- The target takes bytes and returns nothing.
abbrev takes_bytes : Function → Bool
takes_bytes f = elim f.parameter_types [
  | [] ↦ false
  | t ∷ ts ↦
      length ts == 0
      && same_type t (applied TypeTag.array (plain TypeTag.byte))
      && is_void f.result_type
]

unfoldable pub worker_entry : FunctionContext → Instruction → Result ℕ
worker_entry c i =
    verify_instruction_shape i 1 0 0 true false false
    >> fail_if (not (has_feature c.index Feature.isolated_workers)) ErrorKind.unsupported_feature
    >> (found i.symbol ErrorKind.invalid_reference >>= λ symbol.
        found (find_function c.index symbol) ErrorKind.invalid_reference >>= λ target.
        fail_if
          (not (SymbolKind.wire symbol.kind == SymbolKind.wire SymbolKind.function)
            || not (is_kind target.kind FunctionKind.function)
            || target.unsafe_call
            || has_value target.declaring_class
            || has_value target.dispatch_slot
            || not (length target.export_name == 0))
          ErrorKind.invalid_reference
        >> fail_if (not (takes_bytes target)) ErrorKind.invalid_type)
    >> require_result i 0 worker_signature
    >> ok 0

-- The results, the first with another type.
abbrev retyped : IrType → List ValueDefinition → List ValueDefinition
retyped t [] = []
retyped t (r ∷ rs) = record r { value_type = t } ∷ rs

-- The call of the callback with an index, which generates an element.
unfoldable pub callback : Instruction → (function index : ℕ) → IrType → Instruction
callback i function index element = record i {
  opcode = Opcode.call_virtual;
  operands = function ∷ index ∷ [];
  type_arguments = [];
  results = retyped element i.results;
}

abbrev pub generation : ℕ
generation = bit_or (bit_or Effect.read Effect.write) allocation

unfoldable pub array_generate : FunctionContext → Instruction → Result ℕ
array_generate c i =
    verify_instruction_shape i 1 2 1 true false false
    >> fail_if (not (has_feature c.index Feature.sequential_arrays)) ErrorKind.unsupported_feature
    >> (type_argument i 0 >>= λ element.
        require_operand c i 0 (plain TypeTag.int)
        >> require_result i 0 (applied TypeTag.array element)
        >> (found (get_elem? i.operands 1) ErrorKind.invalid_type >>= λ function.
            found (get_elem? i.operands 0) ErrorKind.invalid_type >>= λ count.
            verify_virtual_call c (callback i function count element) >>= λ effects.
            ok (bit_or effects generation)))

unfoldable pub task_generate : FunctionContext → Instruction → Result ℕ
task_generate c i =
    verify_instruction_shape i 1 4 1 true false false
    >> fail_if (not (has_feature c.index Feature.scoped_tasks)) ErrorKind.unsupported_feature
    >> (operand_type c i 0 >>= λ capability.
        fail_if (not (is_unsafe_capability capability)) ErrorKind.invalid_safety)
    >> (type_argument i 0 >>= λ element.
        require_operand c i 1 (plain TypeTag.int)
        >> require_operand c i 2 (plain TypeTag.int)
        >> require_result i 0 (applied TypeTag.array element)
        >> (found (get_elem? i.operands 3) ErrorKind.invalid_type >>= λ function.
            found (get_elem? i.operands 1) ErrorKind.invalid_type >>= λ count.
            verify_virtual_call c (callback i function count element) >>= λ effects.
            ok (bit_or (bit_or effects Effect.unsafe_code) generation)))
