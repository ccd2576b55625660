-- ===== src/Verifier/Constants.antt =====
-- `verify_constant` of native/codegen/ir_verifier.cpp, with its limit of nesting. LLVM's test of UTF-8
-- is the argument `legal_utf8`.
use neri.Prelude.{ℕ, zero, suc, List, [], ◌∷◌, Bool, true, false, ◌&&◌, ◌||◌, not, ltb}
use neri.Ir.Model.{
  Bytes, IrType, no_types, more_types, Constant, constant_of, Constants, no_constants,
  more_constants,
}
use neri.Ir.TypeTag.{TypeTag}
use neri.Ir.ConstantTag.{ConstantTag}
use neri.Transport.Reader.{ErrorKind, Result}
use neri.Verifier.Check.{◌>>◌, fail, fail_if}
use neri.Verifier.Types.{same_type, is_none, is_tag, tag_of, arguments_of, is_string, no_arguments}

abbrev pub no_nested : Constants → Bool
no_nested no_constants = true
no_nested (more_constants c cs) = false

abbrev pub is_empty {ℓ} : {A : Type ℓ} → List A → Bool
is_empty [] = true
is_empty (x ∷ xs) = false

-- The one type is the expected one.
abbrev pub typed : List IrType → IrType → Bool
typed (t ∷ []) expected = same_type t expected
typed types expected = false

-- `verify_constant` with the levels that are left: 65 at the start.
unfoldable pub verify_levels :
    (legal_utf8 : Bytes → Bool) → ℕ → Constant → IrType → Result (Unit {0})
verify_levels legal_utf8 zero c expected = fail ErrorKind.invalid_type
verify_levels legal_utf8 (suc left) (constant_of tag bits types nested symbol text) expected =
    let no_extra = is_empty types && no_nested nested && is_none symbol && is_empty text in
    elim tag [
      | ConstantTag.bool ↦
          fail_if (not (is_tag (tag_of expected) TypeTag.bool) || ltb 1 bits || not no_extra)
            ErrorKind.invalid_type
      | ConstantTag.byte ↦
          fail_if (not (is_tag (tag_of expected) TypeTag.byte) || ltb 255 bits || not no_extra)
            ErrorKind.invalid_type
      | ConstantTag.int ↦
          fail_if (not (is_tag (tag_of expected) TypeTag.int) || not no_extra)
            ErrorKind.invalid_type
      | ConstantTag.float ↦
          fail_if (not (is_tag (tag_of expected) TypeTag.float) || not no_extra)
            ErrorKind.invalid_type
      | ConstantTag.optional_none ↦
          fail_if
            (not (is_tag (tag_of expected) TypeTag.optional)
              || not (typed types expected)
              || not (no_nested nested)
              || not (is_none symbol)
              || not (is_empty text))
            ErrorKind.invalid_type
      | ConstantTag.optional_some ↦ elim (arguments_of expected) [
        | no_types ↦ fail ErrorKind.invalid_type
        | more_types inner more ↦ elim nested [
          | no_constants ↦ fail ErrorKind.invalid_type
          | more_constants value others ↦
              fail_if
                (not (is_tag (tag_of expected) TypeTag.optional)
                  || not (no_arguments more)
                  || not (typed types expected)
                  || not (no_nested others)
                  || not (is_none symbol)
                  || not (is_empty text))
                ErrorKind.invalid_type
              >> verify_levels legal_utf8 left value inner
        ]
      ]
      | ConstantTag.string_global ↦
          fail_if
            (not (is_string expected)
              || not (is_empty types)
              || not (no_nested nested)
              || is_none symbol
              || not (is_empty text))
            ErrorKind.invalid_type
      | ConstantTag.string_utf8 ↦
          fail_if
            (not (is_string expected)
              || not (is_empty types)
              || not (no_nested nested)
              || not (is_none symbol)
              || not (is_empty text || legal_utf8 text))
            ErrorKind.invalid_type
    ]

unfoldable pub verify_constant : (legal_utf8 : Bytes → Bool) → Constant → IrType → Result (Unit {0})
verify_constant legal_utf8 c expected = verify_levels legal_utf8 65 c expected
