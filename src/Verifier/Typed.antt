-- ===== src/Verifier/Typed.antt =====
-- The types that an accepted call has checked: `verify_call` of native/codegen/ir_verifier.cpp.
use neri.Prelude.{
  ℕ, zero, suc, ◌+◌, ◌≡◌, sym, ap, ◌∙◌, subst, List, [], ◌∷◌, some, Bool, true, false, not, ◌||◌,
  ◌==◌, ==_iff, if◌then◌else◌, length, get_elem?, some_eq, arith,
}
use neri.Ir.Model.{IrType, Instruction, SymbolId}
use neri.Ir.TypeTag.{TypeTag}
use neri.Transport.Reader.{ErrorKind, Result, ok}
use neri.Verifier.Check.{◌>>◌, fail_if, found, bind_ok, then_ok, fail_if_ok, ok_eq, found_ok}
use neri.Verifier.Types.{same_type, is_void, plain}
use neri.Verifier.Equality.{same_type_eq}
use neri.Verifier.Context.{
  FunctionContext, verify_instruction_shape, operand_type, result_type, require_operand,
  require_result, require_operands, has_value, same,
}
use neri.Verifier.Calls.{
  Callee, call_target, verify_signature, verify_call, call_effects, result_count,
}

same_checked :
    (t expected : IrType) (code : ErrorKind)
    → fail_if (not (same_type t expected)) code ≡ ok tt
    → t ≡ expected
same_checked t expected code h =
    same_type_eq t expected (ground (arith, fail_if_ok (not (same_type t expected)) code h))

pub require_operand_ok :
    (c : FunctionContext) (i : Instruction) (index : ℕ) (expected : IrType)
    → require_operand c i index expected ≡ ok tt
    → operand_type c i index ≡ ok expected
unfolding require_operand
require_operand_ok c i index expected h =
    let (t, p, q) =
      bind_ok (operand_type c i index)
        (λ t. fail_if (not (same_type t expected)) ErrorKind.invalid_type) tt h in
    p ∙ ap (λ x. ok x) (same_checked t expected ErrorKind.invalid_type q)

pub require_result_ok :
    (i : Instruction) (index : ℕ) (expected : IrType)
    → require_result i index expected ≡ ok tt
    → result_type i index ≡ ok expected
unfolding require_result
require_result_ok i index expected h =
    let (t, p, q) =
      bind_ok (result_type i index)
        (λ t. fail_if (not (same_type t expected)) ErrorKind.invalid_type) tt h in
    p ∙ ap (λ x. ok x) (same_checked t expected ErrorKind.invalid_type q)

pub require_operands_ok :
    (c : FunctionContext) (i : Instruction) (index : ℕ) (ts : List IrType)
    → require_operands c i index ts ≡ ok tt
    → (k : ℕ) (t : IrType) → get_elem? ts k ≡ some t
    → operand_type c i (index + k) ≡ ok t
require_operands_ok c i index [] h k t e = absurd (ground (arith, e))
require_operands_ok c i index (u ∷ us) h zero t e =
    let both = then_ok (require_operand c i index u) (require_operands c i (index + 1) us) tt h in
    subst (λ n. operand_type c i n ≡ ok t) (omega arith)
      (subst (λ x. operand_type c i index ≡ ok x) (some_eq u t e)
        (require_operand_ok c i index u both.0))
require_operands_ok c i index (u ∷ us) h (suc k) t e =
    let both = then_ok (require_operand c i index u) (require_operands c i (index + 1) us) tt h in
    subst (λ n. operand_type c i n ≡ ok t) (omega arith)
      (require_operands_ok c i (index + 1) us both.1 k t e)

-- The operands of a call, behind the capability if there is one, and the result.
pub record Typed (c : FunctionContext) (i : Instruction) (callee : Callee) (capability : Bool)
    : Type 0 where
  pub guarded : capability ≡ true → operand_type c i 0 ≡ ok (plain TypeTag.unsafe_capability)
  pub operands :
      (k : ℕ) (t : IrType)
      → get_elem? callee.parameters k ≡ some t
      → operand_type c i ((if capability then 1 else 0) + k) ≡ ok t
  pub count : length i.operands ≡ length callee.parameters + (if capability then 1 else 0)
  pub result : is_void callee.result ≡ false → result_type i 0 ≡ ok callee.result
  pub results : length i.results ≡ result_count callee.result

shape_counts :
    (i : Instruction) (results operands types : ℕ) (symbol constant predicate : Bool)
    → verify_instruction_shape i results operands types symbol constant predicate ≡ ok tt
    → (length i.results ≡ results) × (length i.operands ≡ operands)
unfolding verify_instruction_shape
shape_counts i results operands types symbol constant predicate h =
    let bad =
      not (length i.results == results)
      || not (length i.operands == operands)
      || not (length i.type_arguments == types)
      || not (same (has_value i.symbol) symbol)
      || not (same (has_value i.constant_value) constant)
      || not (same (has_value i.predicate) predicate)
      || i.flag in
    let passed = fail_if_ok bad ErrorKind.invalid_type h in
    (
      (==_iff (length i.results) results).0 (ground (arith, passed)),
      (==_iff (length i.operands) operands).0 (ground (arith, passed)),
    )

pub verify_signature-Typed :
    (c : FunctionContext) (i : Instruction) (callee : Callee) (capability : Bool)
    → verify_signature c i callee capability ≡ ok tt
    → Typed c i callee capability
unfolding verify_signature
verify_signature-Typed c i callee capability h =
    let offset : ℕ = if capability then 1 else 0 in
    let shape : Result (Unit {0}) =
      verify_instruction_shape i (result_count callee.result) (length callee.parameters + offset) 0
        true false false in
    let guard =
      if capability then require_operand c i 0 (plain TypeTag.unsafe_capability) else ok tt in
    let end : Result (Unit {0}) =
      if is_void callee.result then ok tt else require_result i 0 callee.result in
    let last = then_ok (shape >> guard >> require_operands c i offset callee.parameters) end tt h in
    let middle =
      then_ok (shape >> guard) (require_operands c i offset callee.parameters) tt last.0 in
    let first = then_ok shape guard tt middle.0 in
    let counts = shape_counts i _ _ 0 true false false first.0 in
    record {
      guarded = λ e.
          require_operand_ok c i 0 (plain TypeTag.unsafe_capability) (ground (arith, e, first.1));
      operands = require_operands_ok c i offset callee.parameters middle.1;
      count = counts.1;
      result = λ e. require_result_ok i 0 callee.result (ground (arith, e, last.1));
      results = counts.0;
    }

-- An accepted call has a target of the kind that the opcode asks for, and its operands have exactly the
-- types of the target's parameters, behind the capability of an unsafe or C call; it has a result of the
-- target's type exactly when that is not void, and its effects are those of the target without
-- "does not return".
pub verify_call-Typed :
    (c : FunctionContext) (i : Instruction) (imported require_method c_abi unsafe_call : Bool)
    (effects : ℕ)
    → verify_call c i imported require_method c_abi unsafe_call ≡ ok effects
    → (symbol : SymbolId) × (callee : Callee) × (i.symbol ≡ some symbol)
      × (call_target c symbol imported require_method c_abi unsafe_call ≡ ok callee)
      × Typed c i callee (c_abi || unsafe_call)
      × (effects ≡ call_effects callee.effects unsafe_call)
unfolding verify_call
verify_call-Typed c i imported require_method c_abi unsafe_call effects h =
    let (symbol, p, q) = bind_ok (found i.symbol ErrorKind.invalid_reference) _ effects h in
    let (callee, r, s) =
      bind_ok (call_target c symbol imported require_method c_abi unsafe_call)
        (λ x.
          verify_signature c i x (c_abi || unsafe_call) >> ok (call_effects x.effects unsafe_call))
        effects q in
    let both =
      then_ok (verify_signature c i callee (c_abi || unsafe_call))
        (ok (call_effects callee.effects unsafe_call)) effects s in
    (
      symbol,
      callee,
      found_ok i.symbol _ symbol p,
      r,
      verify_signature-Typed c i callee (c_abi || unsafe_call) both.0,
      sym (ok_eq _ effects both.1),
    )
