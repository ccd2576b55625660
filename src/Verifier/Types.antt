-- ===== src/Verifier/Types.antt =====
-- The predicates on types of native/codegen/ir_verifier.cpp and of
-- native/include/neri/codegen/scalar_metadata.h.
use neri.Prelude.{
  ℕ, ◌+◌, List, [], ◌∷◌, Option, none, some, Bool, true, false, ◌&&◌, ◌||◌, not, ◌==◌, ltb, leb,
  bytes_eq,
}
use neri.Ir.Model.{SymbolId, IrType, ir_type, IrTypes, no_types, more_types}
use neri.Ir.TypeTag.{TypeTag, wire_injective}
use neri.Ir.TypeTag
use neri.Ir.SymbolKind.{SymbolKind}
use neri.Ir.SymbolKind

abbrev pub is_none {ℓ} : {A : Type ℓ} → Option A → Bool
is_none none = true
is_none (some a) = false

-- `left == right` on tags.
unfoldable pub is_tag : TypeTag → TypeTag → Bool
is_tag t u = TypeTag.wire t == TypeTag.wire u

abbrev pub tag_of : IrType → TypeTag
tag_of (ir_type tag symbol arguments n) = tag

abbrev pub symbol_of : IrType → Option SymbolId
symbol_of (ir_type tag symbol arguments n) = symbol

abbrev pub arguments_of : IrType → IrTypes
arguments_of (ir_type tag symbol arguments n) = arguments

abbrev pub element_count_of : IrType → ℕ
element_count_of (ir_type tag symbol arguments n) = n

abbrev pub no_arguments : IrTypes → Bool
no_arguments no_types = true
no_arguments (more_types t ts) = false

abbrev pub argument_count : IrTypes → ℕ
argument_count no_types = 0
argument_count (more_types t ts) = argument_count ts + 1

abbrev pub argument_list : IrTypes → List IrType
argument_list no_types = []
argument_list (more_types t ts) = t ∷ argument_list ts

-- A type without a symbol and without arguments.
abbrev pub plain : TypeTag → IrType
plain tag = ir_type tag none no_types 0

-- A type with one argument.
abbrev pub applied : TypeTag → IrType → IrType
applied tag t = ir_type tag none (more_types t no_types) 0

unfoldable pub same_symbol : SymbolId → SymbolId → Bool
same_symbol left right =
    bytes_eq left.module_id right.module_id
    && SymbolKind.wire left.kind == SymbolKind.wire right.kind
    && bytes_eq left.semantic_name right.semantic_name

abbrev pub same_symbols : Option SymbolId → Option SymbolId → Bool
same_symbols none none = true
same_symbols none (some s) = false
same_symbols (some s) none = false
same_symbols (some s) (some t) = same_symbol s t

unfoldable mutual
  pub same_type : IrType → IrType → Bool
  same_type (ir_type tag symbol arguments n) (ir_type tag2 symbol2 arguments2 n2) =
      is_tag tag tag2
      && n == n2
      && same_symbols symbol symbol2
      && same_arguments arguments arguments2

  -- The loop over the arguments, whose numbers are equal.
  pub same_arguments : IrTypes → IrTypes → Bool
  same_arguments no_types no_types = true
  same_arguments no_types (more_types u us) = false
  same_arguments (more_types t ts) no_types = false
  same_arguments (more_types t ts) (more_types u us) = same_type t u && same_arguments ts us

-- `scalar_properties(tag).integer_representation`, `.floating`, `.extended` and `.c_bits`.
unfoldable pub integer_scalar : TypeTag → Bool
integer_scalar TypeTag.byte = true
integer_scalar TypeTag.int = true
integer_scalar TypeTag.int32 = true
integer_scalar TypeTag.uint32 = true
integer_scalar TypeTag.uint64 = true
integer_scalar tag = false

unfoldable pub floating_scalar : TypeTag → Bool
floating_scalar TypeTag.float = true
floating_scalar TypeTag.float32 = true
floating_scalar tag = false

unfoldable pub extended_scalar : TypeTag → Bool
extended_scalar TypeTag.int32 = true
extended_scalar TypeTag.uint32 = true
extended_scalar TypeTag.uint64 = true
extended_scalar TypeTag.float32 = true
extended_scalar tag = false

unfoldable pub c_bits : TypeTag → ℕ
c_bits TypeTag.bool = 8
c_bits TypeTag.byte = 8
c_bits TypeTag.int = 64
c_bits TypeTag.float = 64
c_bits TypeTag.int32 = 32
c_bits TypeTag.uint32 = 32
c_bits TypeTag.uint64 = 64
c_bits TypeTag.float32 = 32
c_bits tag = 0

-- Neither a symbol nor an argument.
abbrev pub is_plain : IrType → Bool
is_plain (ir_type tag symbol arguments n) = is_none symbol && no_arguments arguments

-- No symbol and one argument.
abbrev pub is_applied : IrType → Bool
is_applied (ir_type tag symbol (more_types t no_types) n) = is_none symbol
is_applied (ir_type tag symbol arguments n) = false

unfoldable pub is_void : IrType → Bool
is_void t = is_tag (tag_of t) TypeTag.void && is_plain t

-- The tags from BOOL to FLOAT are 2 to 5.
unfoldable pub is_scalar : IrType → Bool
is_scalar t =
    ((leb (TypeTag.wire TypeTag.bool) (TypeTag.wire (tag_of t))
        && leb (TypeTag.wire (tag_of t)) (TypeTag.wire TypeTag.float))
      || extended_scalar (tag_of t))
    && is_plain t

unfoldable pub is_string : IrType → Bool
is_string t = is_tag (tag_of t) TypeTag.string && is_plain t

unfoldable pub is_class : IrType → Bool
is_class t =
    is_tag (tag_of t) TypeTag.class && not (is_none (symbol_of t)) && no_arguments (arguments_of t)

unfoldable pub is_pointer : IrType → Bool
is_pointer t = is_tag (tag_of t) TypeTag.pointer && is_applied t

unfoldable mutual
  -- `is_c_function`.
  pub is_c_function : IrType → Bool
  is_c_function (ir_type tag symbol arguments n) =
      is_tag tag TypeTag.c_function && is_none symbol && n == 0 && c_signature arguments

  -- A result, which may be void, and parameters.
  pub c_signature : IrTypes → Bool
  c_signature no_types = false
  c_signature (more_types t ts) = is_c_abi_type t true && c_parameters ts

  pub c_parameters : IrTypes → Bool
  c_parameters no_types = true
  c_parameters (more_types t ts) = is_c_abi_type t false && c_parameters ts

  -- `is_nullable_pointer` of an optional type with these arguments.
  pub nullable_arguments : IrTypes → Bool
  nullable_arguments (more_types t no_types) = is_pointer t || is_c_function t
  nullable_arguments arguments = false

  -- `is_c_abi_type`.
  pub is_c_abi_type : IrType → Bool → Bool
  is_c_abi_type (ir_type tag symbol arguments n) allow_void =
      is_scalar (ir_type tag symbol arguments n)
      || is_pointer (ir_type tag symbol arguments n)
      || (is_tag tag TypeTag.c_function && is_none symbol && n == 0 && c_signature arguments)
      || (is_tag tag TypeTag.optional && is_none symbol && nullable_arguments arguments)
      || (allow_void && is_void (ir_type tag symbol arguments n))

abbrev pub is_nullable_pointer : IrType → Bool
is_nullable_pointer (ir_type tag symbol arguments n) =
    is_tag tag TypeTag.optional && is_none symbol && nullable_arguments arguments

unfoldable pub is_unsafe_capability : IrType → Bool
is_unsafe_capability t = is_tag (tag_of t) TypeTag.unsafe_capability && is_plain t

unfoldable pub is_borrow_capability : IrType → Bool
is_borrow_capability t = is_tag (tag_of t) TypeTag.borrow_capability && is_applied t

unfoldable mutual
  pub is_pointer_element : IrType → Bool
  is_pointer_element (ir_type tag symbol arguments n) =
      is_void (ir_type tag symbol arguments n)
      || is_scalar (ir_type tag symbol arguments n)
      || is_c_function (ir_type tag symbol arguments n)
      || (is_tag tag TypeTag.native_record && not (is_none symbol) && no_arguments arguments)
      || (is_tag tag TypeTag.fixed_array && is_none symbol && ltb 0 n && one_element arguments)
      || is_nullable_pointer (ir_type tag symbol arguments n)
      || (is_tag tag TypeTag.pointer && is_none symbol && one_element arguments)

  -- One argument, which is an element.
  pub one_element : IrTypes → Bool
  one_element (more_types t no_types) = is_pointer_element t
  one_element arguments = false

unfoldable mutual
  pub is_managed_reference : IrType → Bool
  is_managed_reference (ir_type tag symbol arguments n) =
      is_string (ir_type tag symbol arguments n)
      || is_class (ir_type tag symbol arguments n)
      || is_tag tag TypeTag.array
      || (is_tag tag TypeTag.optional && one_managed arguments)

  pub one_managed : IrTypes → Bool
  one_managed (more_types t no_types) = is_managed_reference t
  one_managed arguments = false

-- The one argument, if there is exactly one.
abbrev pub front : IrType → Option IrType
front (ir_type tag symbol (more_types t no_types) n) = some t
front (ir_type tag symbol arguments n) = none

abbrev pub holds_for {ℓ} : {A : Type ℓ} → Option A → (A → Bool) → Bool
holds_for none f = false
holds_for (some a) f = f a

unfoldable mutual
  pub is_supported_value : IrType → Bool
  is_supported_value (ir_type tag symbol arguments n) =
      let t = ir_type tag symbol arguments n in
      is_scalar t
      || is_string t
      || is_class t
      || is_c_function t
      || (is_tag tag TypeTag.native_record && is_pointer_element t)
      || (is_tag tag TypeTag.fixed_array && is_pointer_element t)
      || (is_pointer t && holds_for (front t) is_pointer_element)
      || is_unsafe_capability t
      || (is_borrow_capability t
          && holds_for (front t) (λ u. not (is_void u) && is_pointer_element u))
      || (is_tag tag TypeTag.array
          && is_none symbol
          && holds_for (front t) (λ u.
            not (is_void u)
            && (is_scalar u
                || (is_tag (tag_of u) TypeTag.optional && holds_for (front u) is_scalar)
                || is_managed_reference u))
          && supported_argument arguments)
      || (is_tag tag TypeTag.optional
          && is_none symbol
          && holds_for (front t) (λ u.
            not (is_void u)
            && not (is_tag (tag_of u) TypeTag.optional)
            && not (is_tag (tag_of u) TypeTag.native_record)
            && not (is_tag (tag_of u) TypeTag.fixed_array))
          && supported_argument arguments)

  pub supported_argument : IrTypes → Bool
  supported_argument (more_types t no_types) = is_supported_value t
  supported_argument arguments = false

unfoldable mutual
  pub contains_string : IrType → Bool
  contains_string (ir_type tag symbol arguments n) =
      is_string (ir_type tag symbol arguments n) || any_string arguments

  pub any_string : IrTypes → Bool
  any_string no_types = false
  any_string (more_types t ts) = contains_string t || any_string ts
