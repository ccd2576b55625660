-- ===== src/Verifier/Native/Levels.antt =====
-- The layouts of native/codegen/native_layout.h at all levels: sizes, alignments and offsets.

use neri.Prelude.{
  ℕ, zero, suc, ◌≡◌, subst, List, Bool, true, false, ◌||◌, not, ◌==◌, if◌then◌else◌, arith,
}
use neri.Ir.Model.{IrType, ir_type, no_types, more_types, SymbolId, NativeRecord, IrModule}
use neri.Ir.TypeTag.{TypeTag}
use neri.Transport.Reader.{ErrorKind, Result, ok}
use neri.Verifier.Check.{◌>>=◌, ◌>>◌, fail_if, bind_ok, then_ok, ok_eq}
use neri.Verifier.Types.{is_tag, tag_of, element_count_of}
use neri.Verifier.Pointers.{declaration}
use neri.Verifier.Native.Layout.{
  NativeLayout, Layouts, Laid, Mode, address, visit_record, lay_record, record_layout, array_layout,
  void_shape, function_layout, behind_address, optional_layout, scalar_layout, inline_layout,
  pointer_shape_of, array_pointee, pointee_shape, layout_levels, layout,
}
use neri.Verifier.Native.Records.{lay_record-Places}
use neri.Verifier.Native.Shapes.{
  Sound, record_layout-Sound, array_layout-Sound, address-Good, function_layout-Sound,
  behind_address-Sound, optional_layout-Sound, scalar_layout-Sound,
}
use neri.Verifier.Native.Sound.{Good, AllGood, Places, NextGood, Members}

module _ (next : Mode → IrType → Layouts → Result Laid) (n : NextGood next) where
  if-Sound :
      (b : Bool) (x y : Result Laid)
      → Sound next n x
      → Sound next n y
      → Sound next n (if b then x else y)
  if-Sound true x y f g = f
  if-Sound false x y f g = g

  then-Sound :
      (test : Bool) (code : ErrorKind) (x : Result Laid)
      → Sound next n x
      → Sound next n (fail_if test code >> x)
  then-Sound test code x f laid e = f laid (then_ok (fail_if test code) x laid e).1

  address_only-Sound : (s : Layouts) → AllGood s.completed → Sound next n (ok (address, s))
  address_only-Sound s g laid e =
      subst (λ y. Good y.0 × AllGood (Layouts.completed y.1)) (ok_eq (address, s) laid e)
        (address-Good next n, g)

  declared-Sound :
      (m : IrModule) (t : IrType) (s : Layouts)
      → AllGood s.completed
      → Sound next n (declaration m t >>= λ r. ok (address, s))
  declared-Sound m t s g laid e =
      let (r, p, q) = bind_ok (declaration m t) (λ r. ok (address, s)) laid e in
      address_only-Sound s g laid q

  inline_layout-Sound :
      (m : IrModule) (t : IrType) (s : Layouts)
      → AllGood s.completed
      → Sound next n (inline_layout next m t s)
  unfolding inline_layout
  inline_layout-Sound m t s g laid e =
      if-Sound (is_tag (tag_of t) TypeTag.fixed_array) (array_layout next t s) _
        (array_layout-Sound next n t s g)
        (then-Sound (not (element_count_of t == 0)) ErrorKind.invalid_type _ (
          if-Sound (is_tag (tag_of t) TypeTag.native_record) (record_layout next m t s) _
            (record_layout-Sound next n m t s g)
            (if-Sound (is_tag (tag_of t) TypeTag.c_function) (function_layout next t s) _
              (function_layout-Sound next n t s g)
              (if-Sound (is_tag (tag_of t) TypeTag.pointer) (behind_address next t s) _
                (behind_address-Sound next n t s g)
                (if-Sound (is_tag (tag_of t) TypeTag.optional) (optional_layout next t s)
                  (scalar_layout next t s) (optional_layout-Sound next n t s g)
                  (scalar_layout-Sound next n t s g))))))
        laid e

  pointer_shape-Sound :
      (t : IrType) (s : Layouts) → AllGood s.completed → Sound next n (pointer_shape_of next t s)
  unfolding pointer_shape_of
  pointer_shape-Sound (ir_type tag symbol no_types count) s g laid e = absurd (ground arith)
  pointer_shape-Sound (ir_type tag symbol (more_types t (more_types u us)) count) s g laid e =
      absurd (ground arith)
  pointer_shape-Sound (ir_type tag symbol (more_types t no_types) count) s g laid e =
      n (Mode.pointee true) t s laid (then_ok _ (next (Mode.pointee true) t s) laid e).1 g

  array_pointee-Sound :
      (t : IrType) (s : Layouts) → AllGood s.completed → Sound next n (array_pointee next t s)
  array_pointee-Sound (ir_type tag symbol no_types count) s g laid e = absurd (ground arith)
  array_pointee-Sound (ir_type tag symbol (more_types t (more_types u us)) count) s g laid e =
      absurd (ground arith)
  array_pointee-Sound (ir_type tag symbol (more_types t no_types) count) s g laid e =
      n (Mode.pointee false) t s laid (then_ok _ (next (Mode.pointee false) t s) laid e).1 g

  pointee_shape-Sound :
      (m : IrModule) (allow_void : Bool) (t : IrType) (s : Layouts)
      → AllGood s.completed
      → Sound next n (pointee_shape next m allow_void t s)
  unfolding pointee_shape
  pointee_shape-Sound m allow_void t s g laid e =
      if-Sound (is_tag (tag_of t) TypeTag.void) _ _
        (then-Sound (not allow_void || not (void_shape next t)) ErrorKind.invalid_type
          (ok (address, s)) (address_only-Sound s g))
        (if-Sound (is_tag (tag_of t) TypeTag.native_record)
          (declaration m t >>= λ r. ok (address, s)) _ (declared-Sound m t s g)
          (if-Sound (is_tag (tag_of t) TypeTag.fixed_array) (array_pointee next t s)
            (next Mode.inline t s) (array_pointee-Sound t s g) (λ x h. n Mode.inline t s x h g)))
        laid e

levels-NextGood : (m : IrModule) (left : ℕ) → NextGood (layout_levels m left)
unfolding layout_levels
levels-NextGood m zero mode t s laid e g = absurd (ground arith)
levels-NextGood m (suc left) Mode.inline t s laid e g =
    inline_layout-Sound (layout_levels m left) (levels-NextGood m left) m t s g laid e
levels-NextGood m (suc left) Mode.pointer t s laid e g =
    pointer_shape-Sound (layout_levels m left) (levels-NextGood m left) t s g laid e
levels-NextGood m (suc left) (Mode.pointee allow_void) t s laid e g =
    pointee_shape-Sound (layout_levels m left) (levels-NextGood m left) m allow_void t s g laid e

-- Every layout has a size above 0 and of at most one GiB, which is a multiple of its alignment, and the
-- alignment is 1, 2, 4 or 8; the same is true of all the layouts that are kept, if it was before.
pub layout-Good :
    (m : IrModule) (t : IrType) (s : Layouts) (laid : Laid)
    → AllGood s.completed
    → layout m t s ≡ ok laid
    → Good laid.0 × AllGood (Layouts.completed laid.1)
unfolding layout
layout-Good m t s laid g e = levels-NextGood m 128 Mode.inline t s laid e g

-- The fields of a record, at any level, are laid out in turn; each lies at a multiple of its alignment
-- and ends within the record's size, and in a record that is no union no field begins before the end of
-- the one before it.
pub record-Places :
    (m : IrModule) (left : ℕ) (r : NativeRecord) (s : Layouts) (laid : Laid)
    → AllGood s.completed
    → lay_record (layout_levels m left) r s ≡ ok laid
    → (ls : List NativeLayout) × (t : Layouts) × Members
        (layout_levels m left)
        r.fields
        ls
        (visit_record (SymbolId.semantic_name r.id) s)
        t
      × Places r.is_union 0 (NativeLayout.offsets laid.0) ls (NativeLayout.size laid.0)
record-Places m left r s laid g e =
    (lay_record-Places (layout_levels m left) (levels-NextGood m left) r s laid e g).0
