-- ===== src/Verifier/Calls.antt =====
-- The calls of native/codegen/ir_verifier.cpp: `verify_call`, `verify_c_function_instruction` and
-- `verify_virtual_call`. Each returns the effects of the instruction.
use neri.Prelude.{
  ℕ, ◌+◌, List, [], ◌∷◌, none, some, Bool, true, false, ◌||◌, not, ◌==◌, ltb, if◌then◌else◌, length,
  bit_or, bit_and,
}
use neri.Ir.Model.{
  IrType, ir_type, IrTypes, no_types, more_types, Instruction, SymbolId, ImportDeclaration,
  Function,
}
use neri.Ir.ImportKind.{ImportKind}
use neri.Ir.ImportKind
use neri.Ir.FunctionKind.{FunctionKind}
use neri.Ir.FunctionKind
use neri.Ir.TypeTag.{TypeTag}
use neri.Ir.Feature.{Feature}
use neri.Transport.Reader.{ErrorKind, Result, ok}
use neri.Verifier.Check.{◌>>=◌, ◌>>◌, fail, fail_if, found}
use neri.Verifier.Types.{plain, is_void, is_c_function, arguments_of, argument_list}
use neri.Verifier.Lookup.{find_import, find_function, has_feature}
use neri.Verifier.Context.{
  FunctionContext, verify_instruction_shape, operand_type, require_operand, require_result,
  require_operands, same,
}
use neri.Verifier.Effect

abbrev pub c_call_effects : ℕ
c_call_effects = 127

abbrev pub is_import : ImportKind → ImportKind → Bool
is_import a b = ImportKind.wire a == ImportKind.wire b

abbrev pub is_kind : FunctionKind → FunctionKind → Bool
is_kind a b = FunctionKind.wire a == FunctionKind.wire b

-- What a call needs of its target: `parameters`, `result` and `effects`.
pub record Callee : Type 0 where
  pub parameters : List IrType
  pub result : IrType
  pub effects : ℕ

abbrev import_callee : ImportDeclaration → Callee
import_callee d = record {
  parameters = d.parameter_types;
  result = d.result_type;
  effects = d.effects;
}

abbrev function_callee : Function → Callee
function_callee f = record {
  parameters = f.parameter_types;
  result = f.result_type;
  effects = f.effects;
}

-- `valid_kind` for a function.
unfoldable pub valid_kind : (require_method unsafe_call : Bool) → FunctionKind → Bool
valid_kind require_method unsafe_call kind =
    if unsafe_call
    then is_kind kind FunctionKind.function
      || is_kind kind FunctionKind.static_method
      || is_kind kind FunctionKind.instance_method
      || is_kind kind FunctionKind.constructor
      || is_kind kind FunctionKind.default_adapter
    else if require_method
    then is_kind kind FunctionKind.instance_method || is_kind kind FunctionKind.constructor
    else is_kind kind FunctionKind.function
      || is_kind kind FunctionKind.static_method
      || is_kind kind FunctionKind.default_adapter

-- The first half of `verify_call`: the target.
unfoldable pub call_target :
    FunctionContext → SymbolId → (imported require_method c_abi unsafe_call : Bool) → Result Callee
call_target c symbol imported require_method c_abi unsafe_call =
    if imported
    then (found (find_import c.index symbol) ErrorKind.invalid_reference >>= λ d.
        fail_if (not (is_import d.kind (if c_abi then ImportKind.c_abi else ImportKind.runtime)))
          ErrorKind.invalid_reference
        >> ok (import_callee d))
    else (found (find_function c.index symbol) ErrorKind.invalid_reference >>= λ f.
        fail_if
          (not (valid_kind require_method unsafe_call f.kind)
            || not (same f.unsafe_call unsafe_call))
          ErrorKind.invalid_reference
        >> ok (function_callee f))

-- The number of results of a call.
abbrev pub result_count : IrType → ℕ
result_count t = if is_void t then 0 else 1

-- The second half of `verify_call`, and the end of `verify_virtual_call`: shape, operands, result.
unfoldable pub verify_signature :
    FunctionContext → Instruction → Callee → (capability : Bool) → Result (Unit {0})
verify_signature c i callee capability =
    let offset = if capability then 1 else 0 in
    verify_instruction_shape i (result_count callee.result) (length callee.parameters + offset) 0
      true false false
    >> (if capability then require_operand c i 0 (plain TypeTag.unsafe_capability) else ok tt)
    >> require_operands c i offset callee.parameters
    >> (if is_void callee.result then ok tt else require_result i 0 callee.result)

abbrev pub call_effects : ℕ → Bool → ℕ
call_effects effects unsafe_call =
    bit_or (bit_and effects (Effect.complement Effect.no_return))
      (if unsafe_call then Effect.unsafe_code else 0)

unfoldable pub verify_call :
    FunctionContext → Instruction → (imported require_method c_abi unsafe_call : Bool) → Result ℕ
verify_call c i imported require_method c_abi unsafe_call =
    found i.symbol ErrorKind.invalid_reference >>= λ symbol.
    call_target c symbol imported require_method c_abi unsafe_call >>= λ callee.
    verify_signature c i callee (c_abi || unsafe_call)
    >> ok (call_effects callee.effects unsafe_call)

abbrev type_list : List IrType → IrTypes
type_list [] = no_types
type_list (t ∷ ts) = more_types t (type_list ts)

-- The type of a C function.
abbrev pub c_signature_type : List IrType → IrType → IrType
c_signature_type parameters result =
    ir_type TypeTag.c_function none (more_types result (type_list parameters)) 0

unfoldable pub c_function_address : FunctionContext → Instruction → Result ℕ
c_function_address c i =
    verify_instruction_shape i 1 0 0 true false false
    >> (found i.symbol ErrorKind.invalid_reference >>= λ symbol. elim (find_import c.index symbol) [
      | some d ↦
          fail_if (not (is_import d.kind ImportKind.c_abi)) ErrorKind.invalid_reference
          >> require_result i 0 (c_signature_type d.parameter_types d.result_type)
      | none ↦ elim (find_function c.index symbol) [
        | some f ↦
            fail_if (length f.export_name == 0) ErrorKind.invalid_reference
            >> require_result i 0 (c_signature_type f.parameter_types f.result_type)
        | none ↦ fail ErrorKind.invalid_reference
      ]
    ])
    >> ok 0

-- The call of a value whose type has a result and parameters.
abbrev indirect_call : FunctionContext → Instruction → List IrType → Result (Unit {0})
indirect_call c i [] = fail ErrorKind.invalid_type
indirect_call c i (result ∷ parameters) =
    verify_instruction_shape i (result_count result) (length parameters + 2) 0 false false false
    >> require_operand c i 0 (plain TypeTag.unsafe_capability)
    >> require_operands c i 2 parameters
    >> (if is_void result then ok tt else require_result i 0 result)

unfoldable pub call_c_indirect : FunctionContext → Instruction → Result ℕ
call_c_indirect c i =
    fail_if (ltb (length i.operands) 2) ErrorKind.invalid_type
    >> (operand_type c i 1 >>= λ signature.
        fail_if (not (is_c_function signature)) ErrorKind.invalid_type
        >> indirect_call c i (argument_list (arguments_of signature)))
    >> ok c_call_effects

unfoldable pub verify_c_function_instruction :
    FunctionContext → Instruction → (address : Bool) → Result ℕ
verify_c_function_instruction c i address =
    fail_if (not (has_feature c.index Feature.c_interop)) ErrorKind.unsupported_feature
    >> (if address then c_function_address c i else call_c_indirect c i)
