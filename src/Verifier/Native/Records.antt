-- ===== src/Verifier/Native/Records.antt =====
-- The record layouts of native/codegen/native_layout.h.

use neri.Prelude.{
  zero, ◌≤◌, ◌<◌, ◌≡◌, refl, sym, ◌∙◌, subst, List, ◌∷◌, Bool, true, false, ◌==◌, ltb,
  if◌then◌else◌, length, arith,
}
use neri.Ir.Model.{Bytes, IrType, SymbolId, NativeRecord}
use neri.Transport.Reader.{ErrorKind, Result, ok}
use neri.Verifier.Check.{◌>>=◌, ◌>>◌, fail_if, bind_ok, then_ok, fail_if_ok, ok_eq}
use neri.Verifier.Native.Layout.{
  NativeLayout, Layouts, Laid, Mode, empty_layout, visit_record, complete, maximum_size, align_up,
  place_fields, lay_record, has_name, without_name,
}
use neri.Verifier.Native.Align.{align_up_least}
use neri.Verifier.Native.Sound.{
  Good, AllGood, Places, Partial, Places-larger, NextGood, Members, place_fields-Places,
}

complete-Good :
    (key : Bytes) (inner : NativeLayout) (after : Layouts) (laid : Laid)
    → complete key (inner, after) ≡ ok laid
    → Partial inner
    → 0 < inner.size
    → AllGood after.completed
    → Good laid.0
      × AllGood (Layouts.completed laid.1)
      × (NativeLayout.offsets laid.0 ≡ inner.offsets)
      × (inner.size ≤ NativeLayout.size laid.0)
unfolding complete
complete-Good key inner after laid e p h g =
    let size = align_up inner.size inner.alignment in
    let whole : NativeLayout = record inner { size = size } in
    let state : Layouts = record {
      completed = (key, whole) ∷ after.completed;
      visiting = without_name key after.visiting;
    } in
    let checks =
      then_ok (fail_if (ltb maximum_size size) ErrorKind.invalid_type) (ok (whole, state)) laid e in
    let fits = fail_if_ok (ltb maximum_size size) ErrorKind.invalid_type checks.0 in
    let least = align_up_least inner.size inner.alignment p.power (omega (arith, p.small)) in
    let good : Good whole = record {
      positive = omega (arith, h, least);
      bounded = ground (arith, fits);
      power = p.power;
      multiple = least.2;
    } in
    subst
      (λ x.
        Good x.0
        × AllGood (Layouts.completed x.1)
        × (NativeLayout.offsets x.0 ≡ inner.offsets)
        × (inner.size ≤ NativeLayout.size x.0))
      (ok_eq (whole, state) laid checks.1) (good, (good, g), refl, least.0)

module _ (next : Mode → IrType → Layouts → Result Laid) (n : NextGood next) where
  -- A record with its fields.
  pub lay_record-Places :
      (r : NativeRecord) (s : Layouts) (laid : Laid)
      → lay_record next r s ≡ ok laid
      → AllGood s.completed
      → ((ls : List NativeLayout) × (t : Layouts) × Members next r.fields ls
            (visit_record (SymbolId.semantic_name r.id) s)
            t
          × Places r.is_union 0 (NativeLayout.offsets laid.0) ls (NativeLayout.size laid.0))
        × Good laid.0
        × AllGood (Layouts.completed laid.1)
  unfolding lay_record
  lay_record-Places r s laid e g =
      let key = SymbolId.semantic_name r.id in
      let u = visit_record key s in
      let placed : Result Laid = place_fields next r.is_union r.fields (empty_layout, u) in
      let checks =
        then_ok
          (fail_if (has_name key s.visiting) ErrorKind.invalid_type
            >> fail_if (length r.fields == 0) ErrorKind.invalid_type)
          (placed >>= complete key) laid e in
      let some_field =
        then_ok (fail_if (has_name key s.visiting) ErrorKind.invalid_type)
          (fail_if (length r.fields == 0) ErrorKind.invalid_type) tt checks.0 in
      let many = fail_if_ok (length r.fields == 0) ErrorKind.invalid_type some_field.1 in
      let (x, p, q) = bind_ok placed (complete key) laid checks.1 in
      let (os, ls, a, b, c, d, h, k, l) =
        place_fields-Places next n r.is_union r.fields empty_layout x.0 u x.1 p
          (record { small = omega arith; power = refl }) g in
      let whole = complete-Good key x.0 x.1 laid q d (l (ground (arith, many))) h in
      (
        (
          ls,
          x.1,
          b,
          subst (λ y. Places r.is_union 0 y ls (NativeLayout.size laid.0)) (sym (whole.2 ∙ a))
              (Places-larger r.is_union 0 os ls (NativeLayout.size x.0) (NativeLayout.size laid.0)
                whole.3
                (subst (λ y. Places r.is_union y os ls (NativeLayout.size x.0))
                  (from_zero r.is_union) c)),
        ),
        whole.0,
        whole.1,
      )
    where
      from_zero : (b : Bool) → (if b then zero else zero) ≡ zero
      from_zero true = refl
      from_zero false = refl
