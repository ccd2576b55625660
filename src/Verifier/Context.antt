-- ===== src/Verifier/Context.antt =====
-- `struct function_context` of native/codegen/ir_verifier.cpp and the checks on one instruction's shape
-- and types.
use neri.Prelude.{
  ℕ, ◌+◌, List, [], ◌∷◌, Option, Bool, true, false, ◌&&◌, ◌||◌, not, ◌==◌, length, get_elem?,
  map_find,
}
use neri.Ir.Model.{IrType, Block, Function, IrModule, Instruction, ValueDefinition}
use neri.Ir.TypeTag.{TypeTag}
use neri.Transport.Reader.{ErrorKind, Result, ok}
use neri.Verifier.Check.{◌>>=◌, ◌>>◌, fail_if, found}
use neri.Verifier.Types.{
  same_type, is_none, plain, is_supported_value, is_void, is_c_function, tag_of, is_tag,
}

-- `instruction` is none for -1: a block parameter or the unsafe root.
pub record Definition : Type 0 where
  pub value_type : IrType
  pub block : ℕ
  pub instruction : Option ℕ

pub record UseSite : Type 0 where
  pub value : ℕ
  pub block : ℕ
  pub instruction : ℕ

pub record FunctionContext : Type 0 where
  pub index : IrModule
  pub function : Function
  pub blocks : List (ℕ × Block)
  pub successors : List (ℕ × List ℕ)
  pub predecessors : List (ℕ × List ℕ)
  pub definitions : List (ℕ × Definition)
  pub uses : List UseSite
  pub required_effects : ℕ

unfoldable pub require_result_type : IrType → Result (Unit {0})
require_result_type t =
    fail_if (is_tag (tag_of t) TypeTag.c_function && not (is_c_function t)) ErrorKind.invalid_type
    >> fail_if (not (is_void t) && not (is_supported_value t)) ErrorKind.unsupported_feature

unfoldable pub require_value_type : IrType → Result (Unit {0})
require_value_type t =
    fail_if (is_tag (tag_of t) TypeTag.c_function && not (is_c_function t)) ErrorKind.invalid_type
    >> fail_if (not (is_supported_value t)) ErrorKind.unsupported_feature

abbrev pub same : Bool → Bool → Bool
same true b = b
same false b = not b

abbrev pub has_value {ℓ} : {A : Type ℓ} → Option A → Bool
has_value o = not (is_none o)

unfoldable pub verify_instruction_shape :
    Instruction
    → (results operands type_arguments : ℕ) → (symbol constant predicate : Bool) → Result (Unit {0})
verify_instruction_shape i results operands type_arguments symbol constant predicate =
    fail_if
      (not (length i.results == results)
        || not (length i.operands == operands)
        || not (length i.type_arguments == type_arguments)
        || not (same (has_value i.symbol) symbol)
        || not (same (has_value i.constant_value) constant)
        || not (same (has_value i.predicate) predicate)
        || i.flag)
      ErrorKind.invalid_type

unfoldable pub definition_type : FunctionContext → ℕ → Result IrType
definition_type c id =
    found (map_find id c.definitions) ErrorKind.invalid_ssa >>= λ d. ok (Definition.value_type d)

-- `definition_type(context, value.operands[index])`, behind a check of the shape: the case without an
-- operand does not occur.
unfoldable pub operand_type : FunctionContext → Instruction → ℕ → Result IrType
operand_type c i index =
    found (get_elem? i.operands index) ErrorKind.invalid_type >>= λ id. definition_type c id

-- `value.results[index].value_type`, likewise.
unfoldable pub result_type : Instruction → ℕ → Result IrType
result_type i index = found (get_elem? i.results index) ErrorKind.invalid_type >>= λ r.
    ok (ValueDefinition.value_type r)

-- `value.type_arguments[index]`, likewise.
unfoldable pub type_argument : Instruction → ℕ → Result IrType
type_argument i index = found (get_elem? i.type_arguments index) ErrorKind.invalid_type

unfoldable pub require_operand : FunctionContext → Instruction → ℕ → IrType → Result (Unit {0})
require_operand c i index expected =
    operand_type c i index >>= λ t. fail_if (not (same_type t expected)) ErrorKind.invalid_type

unfoldable pub require_result : Instruction → ℕ → IrType → Result (Unit {0})
require_result i index expected =
    result_type i index >>= λ t. fail_if (not (same_type t expected)) ErrorKind.invalid_type

unfoldable pub require_unary : FunctionContext → Instruction → TypeTag → TypeTag → Result (Unit {0})
require_unary c i operand result =
    verify_instruction_shape i 1 1 0 false false false
    >> require_operand c i 0 (plain operand)
    >> require_result i 0 (plain result)

unfoldable pub require_binary :
    FunctionContext → Instruction → TypeTag → TypeTag → Result (Unit {0})
require_binary c i operand result =
    verify_instruction_shape i 1 2 0 false false false
    >> require_operand c i 0 (plain operand)
    >> require_operand c i 1 (plain operand)
    >> require_result i 0 (plain result)

-- The operands from a place on have these types.
abbrev pub require_operands : FunctionContext → Instruction → ℕ → List IrType → Result (Unit {0})
require_operands c i index [] = ok tt
require_operands c i index (t ∷ ts) =
    require_operand c i index t >> require_operands c i (index + 1) ts
