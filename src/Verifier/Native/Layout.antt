-- ===== src/Verifier/Native/Layout.antt =====
-- `native_layouts` of native/codegen/native_layout.h. The recursion is on the levels that are left of
-- the source's 128, and an exception ends the use of the object.
use neri.Prelude.{
  ℕ, zero, suc, ◌+◌, ◌-◌, ◌*◌, ◌/◌, max, List, [], ◌∷◌, ◌++◌, Option, none, some, Bool, true, false,
  ◌&&◌, ◌||◌, not, ◌==◌, ltb, if◌then◌else◌, length, bit_and, bytes_eq,
}
use neri.Ir.Model.{
  Bytes, IrType, ir_type, IrTypes, no_types, more_types, SymbolId, Field, NativeRecord, IrModule,
}
use neri.Ir.TypeTag.{TypeTag}
use neri.Transport.Reader.{ErrorKind, Result, ok}
use neri.Verifier.Check.{◌>>=◌, ◌>>◌, fail, fail_if}
use neri.Verifier.Types.{
  is_tag, tag_of, symbol_of, arguments_of, element_count_of, no_arguments, c_bits, is_none,
}
use neri.Verifier.Context.{has_value}
use neri.Verifier.Pointers.{declaration}

pub record NativeLayout : Type 0 where
  pub size : ℕ
  pub alignment : ℕ
  pub offsets : List ℕ

-- `completed_` and `visiting_`.
pub record Layouts : Type 0 where
  pub completed : List (Bytes × NativeLayout)
  pub visiting : List Bytes

abbrev pub maximum_size : ℕ
maximum_size = 1073741824

-- `(value + alignment - 1) & ~(alignment - 1)` on 64 bits.
unfoldable pub align_up : (value alignment : ℕ) → ℕ
align_up value alignment = bit_and (value + alignment - 1) (0xFFFFFFFFFFFFFFFF - (alignment - 1))

abbrev pub reject {ℓ} : {A : Type ℓ} → Result A
reject = fail ErrorKind.invalid_type

abbrev pub find_completed : Bytes → List (Bytes × NativeLayout) → Option NativeLayout
find_completed key [] = none
find_completed key ((k, l) ∷ rest) = if bytes_eq k key then some l else find_completed key rest

abbrev pub has_name : Bytes → List Bytes → Bool
has_name key [] = false
has_name key (k ∷ ks) = bytes_eq k key || has_name key ks

abbrev pub without_name : Bytes → List Bytes → List Bytes
without_name key [] = []
without_name key (k ∷ ks) =
    let rest = without_name key ks in if bytes_eq k key then rest else k ∷ rest

-- A layout with the object behind it.
abbrev pub Laid : Type 0
Laid = NativeLayout × Layouts

-- `layout`, `validate_pointer` and `validate_pointee`.
pub data Mode : Type 0 where
  inline pointer : Mode
  pointee : (allow_void : Bool) → Mode

abbrev pub address : NativeLayout
address = record { size = 8; alignment = 8; offsets = [] }

-- One turn of the loop over the fields.
unfoldable pub place_field :
    (is_union : Bool) → NativeLayout → (member : NativeLayout) → Result NativeLayout
place_field is_union result member =
    let offset = if is_union then 0 else align_up result.size member.alignment in
    let size = max result.size (offset + member.size) in
    fail_if (ltb maximum_size size) ErrorKind.invalid_type
    >> ok (record {
      size = size;
      alignment = max result.alignment member.alignment;
      offsets = result.offsets ++ (offset ∷ []);
    })

abbrev pub empty_layout : NativeLayout
empty_layout = record { size = 0; alignment = 1; offsets = [] }

abbrev pub visit_record : Bytes → Layouts → Layouts
visit_record key layouts = record layouts { visiting = key ∷ layouts.visiting }

-- The end of a record: its size is rounded up, and the layout is kept.
unfoldable pub complete : Bytes → Laid → Result Laid
complete key (inner, after) =
    let whole : NativeLayout = record inner { size = align_up inner.size inner.alignment } in
    fail_if (ltb maximum_size whole.size) ErrorKind.invalid_type
    >> ok (
      whole,
      record {
        completed = (key, whole) ∷ after.completed;
        visiting = without_name key after.visiting;
      },
    )

-- `next` is `layout` with the levels that are left.
module _ (next : Mode → IrType → Layouts → Result Laid) where
  abbrev pub place_fields : (is_union : Bool) → List Field → Laid → Result Laid
  place_fields is_union [] laid = ok laid
  place_fields is_union (f ∷ fs) (result, layouts) =
      next Mode.inline f.value_type layouts >>= λ laid.
      place_field is_union result laid.0 >>= λ more. place_fields is_union fs (more, laid.1)

  -- A record that is not complete.
  unfoldable pub lay_record : NativeRecord → Layouts → Result Laid
  lay_record r layouts =
      fail_if (has_name (SymbolId.semantic_name r.id) layouts.visiting) ErrorKind.invalid_type
      >> fail_if (length r.fields == 0) ErrorKind.invalid_type
      >> (place_fields r.is_union r.fields
            (empty_layout, visit_record (SymbolId.semantic_name r.id) layouts)
          >>= complete (SymbolId.semantic_name r.id))

  unfoldable pub record_layout : IrModule → IrType → Layouts → Result Laid
  record_layout m t layouts = declaration m t >>= λ r.
      elim (find_completed (SymbolId.semantic_name (NativeRecord.id r)) layouts.completed) [
        | some l ↦ ok (l, layouts)
        | none ↦ lay_record r layouts
      ]

  unfoldable pub array_layout : IrType → Layouts → Result Laid
  array_layout (ir_type tag symbol (more_types element no_types) n) layouts =
      fail_if (has_value symbol || n == 0) ErrorKind.invalid_type
      >> (next Mode.inline element layouts >>= λ laid.
          let inner : NativeLayout = laid.0 in
          fail_if (ltb (maximum_size / inner.size) n) ErrorKind.invalid_type
          >> ok
              (record { size = inner.size * n; alignment = inner.alignment; offsets = [] }, laid.1))
  array_layout (ir_type tag symbol arguments n) layouts = reject

  -- An argument of a C function's type behind the result.
  unfoldable pub function_argument : IrType → Layouts → Result Layouts
  function_argument t layouts =
      fail_if (is_tag (tag_of t) TypeTag.native_record || is_tag (tag_of t) TypeTag.fixed_array)
        ErrorKind.invalid_type
      >> (next Mode.inline t layouts >>= λ laid. ok laid.1)

  abbrev pub function_arguments : IrTypes → Layouts → Result Layouts
  function_arguments no_types layouts = ok layouts
  function_arguments (more_types t ts) layouts =
      function_argument t layouts >>= λ more. function_arguments ts more

  abbrev pub void_shape : IrType → Bool
  void_shape t = is_none (symbol_of t) && no_arguments (arguments_of t) && element_count_of t == 0

  abbrev pub function_types : IrTypes → Layouts → Result Layouts
  function_types no_types layouts = reject
  function_types (more_types t ts) layouts =
      if is_tag (tag_of t) TypeTag.void
      then (fail_if (not (void_shape t)) ErrorKind.invalid_type >> function_arguments ts layouts)
      else (function_argument t layouts >>= λ more. function_arguments ts more)

  unfoldable pub function_layout : IrType → Layouts → Result Laid
  function_layout t layouts =
      fail_if (has_value (symbol_of t)) ErrorKind.invalid_type
      >> (function_types (arguments_of t) layouts >>= λ more. ok (address, more))

  -- A pointer, or a C function, to be checked for its shape.
  abbrev pub behind_address : IrType → Layouts → Result Laid
  behind_address t layouts =
      next (if is_tag (tag_of t) TypeTag.c_function then Mode.inline else Mode.pointer) t layouts
      >>= λ laid. ok (address, laid.1)

  unfoldable pub optional_layout : IrType → Layouts → Result Laid
  optional_layout (ir_type tag symbol (more_types t no_types) n) layouts =
      fail_if
        (has_value symbol
          || (not (is_tag (tag_of t) TypeTag.pointer)
              && not (is_tag (tag_of t) TypeTag.c_function)))
        ErrorKind.invalid_type
      >> behind_address t layouts
  optional_layout (ir_type tag symbol arguments n) layouts = reject

  unfoldable pub scalar_layout : IrType → Layouts → Result Laid
  scalar_layout t layouts =
      fail_if (has_value (symbol_of t) || not (no_arguments (arguments_of t)))
        ErrorKind.invalid_type
      >> fail_if (c_bits (tag_of t) == 0) ErrorKind.invalid_type
      >> ok (
        record { size = c_bits (tag_of t) / 8; alignment = c_bits (tag_of t) / 8; offsets = [] },
        layouts,
      )

  -- `layout`, below its limit of levels.
  unfoldable pub inline_layout : IrModule → IrType → Layouts → Result Laid
  inline_layout m t layouts =
      if is_tag (tag_of t) TypeTag.fixed_array
      then array_layout t layouts
      else (fail_if (not (element_count_of t == 0)) ErrorKind.invalid_type
          >> (if is_tag (tag_of t) TypeTag.native_record
              then record_layout m t layouts
              else if is_tag (tag_of t) TypeTag.c_function
              then function_layout t layouts
              else if is_tag (tag_of t) TypeTag.pointer
              then behind_address t layouts
              else if is_tag (tag_of t) TypeTag.optional
              then optional_layout t layouts
              else scalar_layout t layouts))

  -- `validate_pointer`.
  unfoldable pub pointer_shape_of : IrType → Layouts → Result Laid
  pointer_shape_of (ir_type tag symbol (more_types t no_types) n) layouts =
      fail_if (has_value symbol || not (n == 0)) ErrorKind.invalid_type
      >> next (Mode.pointee true) t layouts
  pointer_shape_of (ir_type tag symbol arguments n) layouts = reject

  -- The element type of a fixed array.
  abbrev pub array_pointee : IrType → Layouts → Result Laid
  array_pointee (ir_type tag symbol (more_types t no_types) n) layouts =
      fail_if (has_value symbol || n == 0) ErrorKind.invalid_type
      >> next (Mode.pointee false) t layouts
  array_pointee (ir_type tag symbol arguments n) layouts = reject

  -- `validate_pointee`.
  unfoldable pub pointee_shape : IrModule → (allow_void : Bool) → IrType → Layouts → Result Laid
  pointee_shape m allow_void t layouts =
      if is_tag (tag_of t) TypeTag.void
      then (fail_if (not allow_void || not (void_shape t)) ErrorKind.invalid_type
          >> ok (address, layouts))
      else if is_tag (tag_of t) TypeTag.native_record
      then (declaration m t >>= λ r. ok (address, layouts))
      else if is_tag (tag_of t) TypeTag.fixed_array
      then array_pointee t layouts
      else next Mode.inline t layouts

-- The three functions with the levels that are left; the two validations have no layout, for which an
-- address stands.
unfoldable pub layout_levels : IrModule → (left : ℕ) → Mode → IrType → Layouts → Result Laid
layout_levels m zero mode t layouts = reject
layout_levels m (suc left) Mode.inline t layouts = inline_layout (layout_levels m left) m t layouts
layout_levels m (suc left) Mode.pointer t layouts =
    pointer_shape_of (layout_levels m left) t layouts
layout_levels m (suc left) (Mode.pointee allow_void) t layouts =
    pointee_shape (layout_levels m left) m allow_void t layouts

abbrev pub no_layouts : Layouts
no_layouts = record { completed = []; visiting = [] }

-- `layout` of a type with a new object.
unfoldable pub layout : IrModule → IrType → Layouts → Result Laid
layout m t layouts = layout_levels m 128 Mode.inline t layouts
