-- ===== src/Verifier/Scalars.antt =====
-- Constants, arithmetic, comparisons, conversions and strings in `verify_instruction` of
-- native/codegen/ir_verifier.cpp.
use neri.Prelude.{ℕ, Option, Bool, true, false, ◌&&◌, ◌||◌, not, ◌==◌, if◌then◌else◌}
use neri.Ir.Model.{Bytes, Instruction, Constant, constant_of, SymbolId}
use neri.Ir.Comparison.{Comparison}
use neri.Ir.Comparison
use neri.Ir.ConstantTag.{ConstantTag}
use neri.Ir.ConstantTag
use neri.Ir.TypeTag.{TypeTag}
use neri.Transport.Reader.{ErrorKind, Result, ok}
use neri.Verifier.Check.{◌>>=◌, ◌>>◌, fail_if, found}
use neri.Verifier.Types.{
  same_type, is_tag, tag_of, plain, integer_scalar, floating_scalar, is_scalar, is_string,
  is_managed_reference,
}
use neri.Verifier.Lookup.{find_global}
use neri.Verifier.Constants.{verify_constant}
use neri.Verifier.Context.{
  FunctionContext, verify_instruction_shape, operand_type, result_type, require_unary,
  require_binary, require_result,
}
use neri.Verifier.Effect

abbrev pub constant_tag : Constant → ConstantTag
constant_tag (constant_of tag bits types nested symbol text) = tag

abbrev pub constant_symbol : Constant → Option SymbolId
constant_symbol (constant_of tag bits types nested symbol text) = symbol

abbrev pub is_constant : ConstantTag → ConstantTag → Bool
is_constant a b = ConstantTag.wire a == ConstantTag.wire b

-- The global that a string constant names.
unfoldable pub verify_string_global : FunctionContext → Constant → Result (Unit {0})
verify_string_global c value =
    if is_constant (constant_tag value) ConstantTag.string_global
    then (found (constant_symbol value) ErrorKind.invalid_reference >>= λ symbol.
        found (find_global c.index symbol) ErrorKind.invalid_reference >>= λ g.
        fail_if
          (not (is_string g.value_type)
            || not (is_constant (constant_tag g.initializer) ConstantTag.string_utf8))
          ErrorKind.invalid_reference)
    else ok tt

unfoldable pub verify_constant_instruction :
    (legal_utf8 : Bytes → Bool) → FunctionContext → Instruction → Result ℕ
verify_constant_instruction legal_utf8 c i =
    verify_instruction_shape i 1 0 0 false true false
    >> (found i.constant_value ErrorKind.invalid_type >>= λ value.
        result_type i 0 >>= λ t. verify_constant legal_utf8 value t >> verify_string_global c value)
    >> ok 0

-- An integer for arithmetic: not a byte.
abbrev arithmetic_integer : TypeTag → Bool
arithmetic_integer tag = integer_scalar tag && not (is_tag tag TypeTag.byte)

unfoldable pub integer_negation : FunctionContext → Instruction → Result ℕ
integer_negation c i = result_type i 0 >>= λ t.
    fail_if (not (arithmetic_integer (tag_of t))) ErrorKind.invalid_type
    >> require_unary c i (tag_of t) (tag_of t)
    >> ok Effect.may_panic

unfoldable pub integer_arithmetic : FunctionContext → Instruction → Result ℕ
integer_arithmetic c i = result_type i 0 >>= λ t.
    fail_if (not (arithmetic_integer (tag_of t))) ErrorKind.invalid_type
    >> require_binary c i (tag_of t) (tag_of t)
    >> ok Effect.may_panic

unfoldable pub float_negation : FunctionContext → Instruction → Result ℕ
float_negation c i = result_type i 0 >>= λ t.
    fail_if (not (floating_scalar (tag_of t))) ErrorKind.invalid_type
    >> require_unary c i (tag_of t) (tag_of t)
    >> ok 0

unfoldable pub float_arithmetic : FunctionContext → Instruction → Result ℕ
float_arithmetic c i = result_type i 0 >>= λ t.
    fail_if (not (floating_scalar (tag_of t))) ErrorKind.invalid_type
    >> require_binary c i (tag_of t) (tag_of t)
    >> ok 0

abbrev pub equality : Comparison → Bool
equality p =
    Comparison.wire p == Comparison.wire Comparison.equal
    || Comparison.wire p == Comparison.wire Comparison.not_equal

unfoldable pub comparison : FunctionContext → Instruction → Result ℕ
comparison c i =
    verify_instruction_shape i 1 2 0 false false true
    >> require_result i 0 (plain TypeTag.bool)
    >> (operand_type c i 0 >>= λ left. operand_type c i 1 >>= λ right.
        found i.predicate ErrorKind.invalid_type >>= λ predicate.
        fail_if (not (same_type left right)) ErrorKind.invalid_type
        >> fail_if
            ((not (is_scalar left)
                && not (is_tag (tag_of left) TypeTag.optional)
                && not (is_managed_reference left))
              || ((is_tag (tag_of left) TypeTag.bool
                    || is_tag (tag_of left) TypeTag.optional
                    || is_managed_reference left)
                  && not (equality predicate)))
            ErrorKind.invalid_type)
    >> ok 0

abbrev numeric : TypeTag → Bool
numeric tag = integer_scalar tag || floating_scalar tag

unfoldable pub numeric_cast : FunctionContext → Instruction → Result ℕ
numeric_cast c i =
    verify_instruction_shape i 1 1 0 false false false
    >> (operand_type c i 0 >>= λ source. result_type i 0 >>= λ target.
        fail_if (not (numeric (tag_of source)) || not (numeric (tag_of target)))
          ErrorKind.invalid_type)
    >> ok Effect.may_panic

-- An instruction with operands and a result of fixed types and with these effects.
abbrev pub unary_with : FunctionContext → Instruction → TypeTag → TypeTag → ℕ → Result ℕ
unary_with c i operand result effects = require_unary c i operand result >> ok effects

abbrev pub binary_with : FunctionContext → Instruction → TypeTag → TypeTag → ℕ → Result ℕ
binary_with c i operand result effects = require_binary c i operand result >> ok effects
