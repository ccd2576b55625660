-- ===== src/Transport/Wire/Constants.antt =====
-- The formats of constants, one level of nesting at a time.
use neri.Prelude.{
  ℕ, zero, suc, ◌+◌, ◌≡◌, refl, sym, ◌∙◌, Bool, true, false, List, [], ◌∷◌, none, some, ap, ◌==◌,
  if◌then◌else◌,
}
use neri.Ir.ConstantTag
use neri.Ir.ConstantTag.{ConstantTag}
use neri.Ir.Model.{
  Bytes, SymbolId, IrType, Constant, constant_of, Constants, no_constants, more_constants,
}
use neri.Transport.Reader.{ErrorKind, Context, Reader, ◌>>=◌, pure}
use neri.Transport.Cursor.{boolean}
use neri.Transport.Constants.{read_constant_body, read_constant_levels, read_constant}
use neri.Transport.Format.Basic.{
  Format, ReadsWhen, Reads, done, part, pure-Reads, part-Reads, offset-Reads,
}
use neri.Transport.Format.Words.{
  word, u8-Reads, u64-Reads, flag_byte, boolean-Reads, tag_word, tag_u8-Reads,
}
use neri.Transport.Format.Containers.{text, utf8-Reads}
use neri.Transport.Format.Choice.{nothing, fail-Reads, shaped, shaped-Reads, choose, choose-Reads}
use neri.Transport.Wire.Symbols.{symbol, read_symbol-Reads}
use neri.Transport.Wire.Types.{symbol_or, no_type, type_levels, type_levels-Reads}

abbrev pub kind_of : Constant → ConstantTag
kind_of (constant_of tag bits types nested s text) = tag

abbrev pub bits_of : Constant → ℕ
bits_of (constant_of tag bits types nested s text) = bits

abbrev pub head_type : List IrType → IrType
head_type [] = no_type
head_type (t ∷ ts) = t

abbrev pub type_of : Constant → IrType
type_of (constant_of tag bits types nested s text) = head_type types

abbrev pub no_constant : Constant
no_constant = constant_of ConstantTag.bool 0 [] no_constants none []

abbrev pub head_constant : Constants → Constant
head_constant no_constants = no_constant
head_constant (more_constants c cs) = c

abbrev pub nested_of : Constant → Constant
nested_of (constant_of tag bits types nested s text) = head_constant nested

abbrev pub global_of : Constant → SymbolId
global_of (constant_of tag bits types nested s text) = symbol_or s

abbrev pub text_of : Constant → Bytes
text_of (constant_of tag bits types nested s text) = text

abbrev pub flag_of : Constant → Bool
flag_of c = bits_of c == 1

abbrev pub numeric : ConstantTag → ℕ → Constant
numeric tag bits = constant_of tag bits [] no_constants none []

-- A number of `n` bytes.
unfoldable pub number_body : ℕ → ConstantTag → Format Constant
number_body n tag = shaped (λ c. c ≡ numeric tag (bits_of c)) (part bits_of (word n) done)

number_body-Reads :
    {r : Reader ℕ} (n : ℕ) (tag : ConstantTag)
    → Reads r (word n)
    → ReadsWhen
        (λ c. Unit {0} × (kind_of c ≡ tag))
        (r >>= λ bits. pure (numeric tag bits))
        (number_body n tag)
unfolding number_body
number_body-Reads n tag first =
    shaped-Reads (part-Reads first λ bits _. pure-Reads _ (refl, refl) (λ b h. rw (← h.1) h.0))
      (λ c h. (tt, ap kind_of h))

unfoldable pub bool_body : Format Constant
bool_body =
    shaped (λ c. c ≡ numeric ConstantTag.bool (if flag_of c then 1 else 0))
      (part flag_of flag_byte done)

flag_back : (value : Bool) → flag_of (numeric ConstantTag.bool (if value then 1 else 0)) ≡ value
flag_back true = refl
flag_back false = refl

bool_body-Reads :
    ReadsWhen
      (λ c. Unit {0} × (kind_of c ≡ ConstantTag.bool))
      (boolean >>= λ value. pure (numeric ConstantTag.bool (if value then 1 else 0)))
      bool_body
unfolding bool_body
bool_body-Reads =
    shaped-Reads
      (part-Reads boolean-Reads λ value _.
        pure-Reads _
          (
            ap (λ (v : Bool). numeric ConstantTag.bool (if v then 1 else 0))
                (sym (flag_back value)),
            flag_back value,
          )
          (λ b h. h.0 ∙ ap (λ (v : Bool). numeric ConstantTag.bool (if v then 1 else 0)) h.1))
      (λ c h. (tt, ap kind_of h))

abbrev pub optional_of : IrType → Constant
optional_of t = constant_of ConstantTag.optional_none 0 (t ∷ []) no_constants none []

abbrev pub present_of : IrType → Constant → Constant
present_of t c =
    constant_of ConstantTag.optional_some 0 (t ∷ []) (more_constants c no_constants) none []

abbrev pub global_constant : SymbolId → Constant
global_constant s = constant_of ConstantTag.string_global 0 [] no_constants (some s) []

abbrev pub text_constant : Bytes → Constant
text_constant bs = constant_of ConstantTag.string_utf8 0 [] no_constants none bs

-- What follows each tag; `f` and `g` are the formats of types and constants one level down.
unfoldable pub constant_body :
    Context → Format IrType → Format Constant → ConstantTag → Format Constant
constant_body x f g ConstantTag.bool = bool_body
constant_body x f g ConstantTag.byte = number_body 1 ConstantTag.byte
constant_body x f g ConstantTag.int = number_body 8 ConstantTag.int
constant_body x f g ConstantTag.float = number_body 8 ConstantTag.float
constant_body x f g ConstantTag.optional_none =
    shaped (λ c. c ≡ optional_of (type_of c)) (part type_of f done)
constant_body x f g ConstantTag.optional_some =
    shaped (λ c. c ≡ present_of (type_of c) (nested_of c)) (part type_of f (part nested_of g done))
constant_body x f g ConstantTag.string_global =
    shaped (λ c. c ≡ global_constant (global_of c)) (part global_of (symbol x) done)
constant_body x f g ConstantTag.string_utf8 =
    shaped (λ c. c ≡ text_constant (text_of c)) (part text_of (text x) done)

constant_body-Reads :
    (x : Context) {nested_type : Reader IrType} {nested : Reader Constant} {f : Format IrType}
    {g : Format Constant} (tag : ConstantTag)
    → Reads nested_type f
    → Reads nested g
    → ReadsWhen
        (λ c. Unit {0} × (kind_of c ≡ tag))
        (read_constant_body x nested_type nested tag)
        (constant_body x f g tag)
unfolding read_constant_body constant_body
constant_body-Reads x ConstantTag.bool ft fc = bool_body-Reads
constant_body-Reads x ConstantTag.byte ft fc = number_body-Reads 1 ConstantTag.byte u8-Reads
constant_body-Reads x ConstantTag.int ft fc = number_body-Reads 8 ConstantTag.int u64-Reads
constant_body-Reads x ConstantTag.float ft fc = number_body-Reads 8 ConstantTag.float u64-Reads
constant_body-Reads x ConstantTag.optional_none ft fc =
    shaped-Reads (part-Reads ft λ t _. pure-Reads _ (refl, refl) (λ b h. rw (← h.1) h.0))
      (λ c h. (tt, ap kind_of h))
constant_body-Reads x ConstantTag.optional_some ft fc =
    shaped-Reads
      (part-Reads ft λ t _.
        part-Reads fc λ n _. pure-Reads _ ((refl, refl), refl) (λ b h. rw (← h.0.1, ← h.1) h.0.0))
      (λ c h. (tt, ap kind_of h))
constant_body-Reads x ConstantTag.string_global ft fc =
    shaped-Reads
      (part-Reads (read_symbol-Reads x) λ s _. pure-Reads _ (refl, refl) (λ b h. rw (← h.1) h.0))
      (λ c h. (tt, ap kind_of h))
constant_body-Reads x ConstantTag.string_utf8 ft fc =
    shaped-Reads
      (part-Reads (utf8-Reads x) λ s _. pure-Reads _ (refl, refl) (λ b h. rw (← h.1) h.0))
      (λ c h. (tt, ap kind_of h))

-- A constant of at most `levels` levels of nesting.
unfoldable pub constant_levels : Context → ℕ → Format Constant
constant_levels x zero = nothing
constant_levels x (suc levels) =
    part kind_of (tag_word 1 ConstantTag.domain)
      (choose kind_of (constant_body x (type_levels x levels) (constant_levels x levels)))

constant_levels-Reads :
    (x : Context) (levels : ℕ) → Reads (read_constant_levels x levels) (constant_levels x levels)
unfolding read_constant_levels constant_levels
constant_levels-Reads x zero = offset-Reads λ o. fail-Reads ErrorKind.malformed_module o
constant_levels-Reads x (suc levels) = part-Reads (tag_u8-Reads ConstantTag.domain) λ tag _.
    choose-Reads (constant_body x (type_levels x levels) (constant_levels x levels)) tag
      (constant_body-Reads x tag (type_levels-Reads x levels) (constant_levels-Reads x levels))

unfoldable pub constant_within : Context → Format Constant
constant_within x = constant_levels x (x.max_nesting_depth + 1)

pub read_constant-Reads : (x : Context) → Reads (read_constant x) (constant_within x)
unfolding read_constant constant_within
read_constant-Reads x = constant_levels-Reads x (x.max_nesting_depth + 1)
