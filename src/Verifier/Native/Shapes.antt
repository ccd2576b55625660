-- ===== src/Verifier/Native/Shapes.antt =====
-- The array, function, optional and scalar layouts of native/codegen/native_layout.h.
use native.Mathlib.Nat.{
  mul_comm, mul-pos, le-div_iff_mul-le, mod-eq-zero_of_dvd, dvd_of_mod-eq-zero,
  dvd-mul_right_of_dvd,
}
use neri.Prelude.{
  ℕ, ◌*◌, ◌/◌, ◌≤◌, ◌<◌, ◌≡◌, refl, subst, [], false, ◌||◌, not, ◌==◌, ltb, if◌then◌else◌, arith,
  Bool-cases, Option-cases, inl, inr,
}
use neri.Ir.Model.{IrType, ir_type, IrTypes, no_types, more_types, SymbolId, NativeRecord, IrModule}
use neri.Ir.TypeTag.{TypeTag}
use neri.Transport.Reader.{ErrorKind, Result, ok}
use neri.Verifier.Check.{◌>>=◌, ◌>>◌, fail_if, bind_ok, then_ok, fail_if_ok, ok_eq}
use neri.Verifier.Types.{is_tag, tag_of, symbol_of, arguments_of, no_arguments, c_bits}
use neri.Verifier.Context.{has_value}
use neri.Verifier.Pointers.{declaration}
use neri.Verifier.Native.Layout.{
  NativeLayout, Layouts, Laid, Mode, address, maximum_size, record_layout, find_completed,
  array_layout, function_argument, function_arguments, function_types, void_shape, function_layout,
  behind_address, optional_layout, scalar_layout,
}
use neri.Verifier.Native.Records.{lay_record-Places}
use neri.Verifier.Native.Sound.{Good, AllGood, find_completed-Good, NextGood}

bits_cases {ℓ} : (P : ℕ → Type ℓ) → P 0 → P 8 → P 32 → P 64 → (tag : TypeTag) → P (c_bits tag)
unfolding c_bits
bits_cases P p q r s TypeTag.void = p
bits_cases P p q r s TypeTag.bool = q
bits_cases P p q r s TypeTag.byte = q
bits_cases P p q r s TypeTag.int = s
bits_cases P p q r s TypeTag.float = s
bits_cases P p q r s TypeTag.string = p
bits_cases P p q r s TypeTag.int32 = r
bits_cases P p q r s TypeTag.uint32 = r
bits_cases P p q r s TypeTag.uint64 = s
bits_cases P p q r s TypeTag.float32 = r
bits_cases P p q r s TypeTag.array = p
bits_cases P p q r s TypeTag.class = p
bits_cases P p q r s TypeTag.optional = p
bits_cases P p q r s TypeTag.pointer = p
bits_cases P p q r s TypeTag.native_record = p
bits_cases P p q r s TypeTag.fixed_array = p
bits_cases P p q r s TypeTag.c_function = p
bits_cases P p q r s TypeTag.unsafe_capability = p
bits_cases P p q r s TypeTag.borrow_capability = p

-- The scalars of C are aligned to their size.
abbrev scalar_of : ℕ → NativeLayout
scalar_of bits = record { size = bits / 8; alignment = bits / 8; offsets = [] }

scalar_of-Good : (tag : TypeTag) → (c_bits tag == 0) ≡ false → Good (scalar_of (c_bits tag))
scalar_of-Good tag =
    bits_cases (λ n. (n == 0) ≡ false → Good (scalar_of n)) (λ h. absurd (ground (arith, h)))
      (λ h. record { positive = omega arith; bounded = omega arith; power = refl; multiple = refl })
      (λ h. record { positive = omega arith; bounded = omega arith; power = refl; multiple = refl })
      (λ h. record { positive = omega arith; bounded = omega arith; power = refl; multiple = refl })
      tag

module _ (next : Mode → IrType → Layouts → Result Laid) (n : NextGood next) where
  -- Both parts of a result.
  abbrev pub Sound : Result Laid → Type 0
  Sound r = (laid : Laid) → r ≡ ok laid → Good laid.0 × AllGood (Layouts.completed laid.1)

  pub record_layout-Sound :
      (m : IrModule) (t : IrType) (s : Layouts)
      → AllGood s.completed
      → Sound (record_layout next m t s)
  unfolding record_layout
  record_layout-Sound m t s g laid e =
      let (r, p, q) = bind_ok (declaration m t) _ laid e in
      elim (Option-cases
        (find_completed (SymbolId.semantic_name (NativeRecord.id r)) s.completed)) [
          | inl z ↦
              let whole = lay_record-Places next n r s laid (ground (arith, q, z)) g in
              (whole.1, whole.2)
          | inr (l, z) ↦
              let same = ok_eq (l, s) laid (ground (arith, q, z)) in
              subst (λ x. Good x.0 × AllGood (Layouts.completed x.1)) same
                (
                  find_completed-Good (SymbolId.semantic_name (NativeRecord.id r)) l s.completed z
                      g,
                  g,
                )
        ]

  array_size :
      (l : NativeLayout) (count : ℕ)
      → Good l
      → (count == 0) ≡ false
      → count ≤ maximum_size / l.size
      → Good (record { size = l.size * count; alignment = l.alignment; offsets = [] })
  array_size l count g h k =
      let some_count : 0 < count = ground (arith, h) in
      let fits : count * l.size ≤ maximum_size = (le-div_iff_mul-le g.positive).0 k in
      record {
        positive = mul-pos g.positive some_count;
        bounded = subst (λ x. x ≤ maximum_size) (mul_comm count l.size) fits;
        power = g.power;
        multiple =
            mod-eq-zero_of_dvd l.alignment
              (dvd-mul_right_of_dvd l.alignment (dvd_of_mod-eq-zero l.alignment g.multiple) count);
      }

  pub array_layout-Sound :
      (t : IrType) (s : Layouts) → AllGood s.completed → Sound (array_layout next t s)
  unfolding array_layout
  array_layout-Sound (ir_type tag symbol no_types count) s g laid e = absurd (ground arith)
  array_layout-Sound (ir_type tag symbol (more_types t (more_types u us)) count) s g laid e =
      absurd (ground arith)
  array_layout-Sound (ir_type tag symbol (more_types t no_types) count) s g laid e =
      let end : Laid → Result Laid = λ x.
        fail_if (ltb (maximum_size / NativeLayout.size x.0) count) ErrorKind.invalid_type
        >> ok (
          record {
            size = NativeLayout.size x.0 * count;
            alignment = NativeLayout.alignment x.0;
            offsets = [];
          },
          x.1,
        ) in
      let checks =
        then_ok (fail_if (has_value symbol || count == 0) ErrorKind.invalid_type)
          (next Mode.inline t s >>= end) laid e in
      let some_count =
        fail_if_ok (has_value symbol || count == 0) ErrorKind.invalid_type checks.0 in
      let (x, p, q) = bind_ok (next Mode.inline t s) end laid checks.1 in
      let good = n Mode.inline t s x p g in
      let last =
        then_ok (fail_if (ltb (maximum_size / NativeLayout.size x.0) count) ErrorKind.invalid_type)
          (ok (
            record {
              size = NativeLayout.size x.0 * count;
              alignment = NativeLayout.alignment x.0;
              offsets = [];
            },
            x.1,
          ))
          laid q in
      let fits =
        fail_if_ok (ltb (maximum_size / NativeLayout.size x.0) count) ErrorKind.invalid_type
          last.0 in
      subst (λ y. Good y.0 × AllGood (Layouts.completed y.1)) (ok_eq _ laid last.1)
        (array_size x.0 count good.0 (ground (arith, some_count)) (ground (arith, fits)), good.1)

  pub address-Good : Good address
  address-Good = record {
    positive = omega arith;
    bounded = omega arith;
    power = refl;
    multiple = refl;
  }

  -- A result whose layout is an address.
  address-Sound :
      (r : Result Layouts)
      → ((t : Layouts) → r ≡ ok t → AllGood t.completed)
      → Sound (r >>= λ t. ok (address, t))
  address-Sound r f laid e =
      let (t, p, q) = bind_ok r (λ t. ok (address, t)) laid e in
      subst (λ y. Good y.0 × AllGood (Layouts.completed y.1)) (ok_eq (address, t) laid q)
        (address-Good, f t p)

  abbrev Kept : Result Layouts → Type 0
  Kept r = (t : Layouts) → r ≡ ok t → AllGood t.completed

  function_argument-Kept :
      (t : IrType) (s : Layouts) → AllGood s.completed → Kept (function_argument next t s)
  unfolding function_argument
  function_argument-Kept t s g u e =
      let checks =
        then_ok
          (fail_if
            (is_tag (tag_of t) TypeTag.native_record || is_tag (tag_of t) TypeTag.fixed_array)
            ErrorKind.invalid_type)
          (next Mode.inline t s >>= λ x. ok x.1) u e in
      let (x, p, q) = bind_ok (next Mode.inline t s) (λ x. ok x.1) u checks.1 in
      subst (λ y. AllGood (Layouts.completed y)) (ok_eq x.1 u q) (n Mode.inline t s x p g).1

  function_arguments-Kept :
      (ts : IrTypes) (s : Layouts) → AllGood s.completed → Kept (function_arguments next ts s)
  function_arguments-Kept no_types s g u e =
      subst (λ y. AllGood (Layouts.completed y)) (ok_eq s u e) g
  function_arguments-Kept (more_types t ts) s g u e =
      let (x, p, q) =
        bind_ok (function_argument next t s) (λ y. function_arguments next ts y) u e in
      function_arguments-Kept ts x (function_argument-Kept t s g x p) u q

  function_types-Kept :
      (ts : IrTypes) (s : Layouts) → AllGood s.completed → Kept (function_types next ts s)
  function_types-Kept no_types s g u e = absurd (ground (arith, e))
  function_types-Kept (more_types t ts) s g u e =
      elim (Bool-cases (is_tag (tag_of t) TypeTag.void)) [
        | inl z ↦
            let inside : (fail_if (not (void_shape next t)) ErrorKind.invalid_type
                  >> function_arguments next ts s)
                ≡ ok u =
              ground (arith, e, z) in
            function_arguments-Kept ts s g u
              (then_ok (fail_if (not (void_shape next t)) ErrorKind.invalid_type)
                (function_arguments next ts s) u inside).1
        | inr z ↦
            let inside : (function_argument next t s >>= λ y. function_arguments next ts y) ≡ ok u =
              ground (arith, e, z) in
            let (x, p, q) =
              bind_ok (function_argument next t s) (λ y. function_arguments next ts y) u inside in
            function_arguments-Kept ts x (function_argument-Kept t s g x p) u q
      ]

  pub function_layout-Sound :
      (t : IrType) (s : Layouts) → AllGood s.completed → Sound (function_layout next t s)
  unfolding function_layout
  function_layout-Sound t s g laid e =
      address-Sound (function_types next (arguments_of t) s)
        (function_types-Kept (arguments_of t) s g) laid
        (then_ok (fail_if (has_value (symbol_of t)) ErrorKind.invalid_type)
          (function_types next (arguments_of t) s >>= λ u. ok (address, u)) laid e).1

  -- A check whose layout is replaced by an address.
  pub behind_address-Sound :
      (t : IrType) (s : Layouts) → AllGood s.completed → Sound (behind_address next t s)
  behind_address-Sound t s g laid e =
      let mode = if is_tag (tag_of t) TypeTag.c_function then Mode.inline else Mode.pointer in
      let (x, p, q) = bind_ok (next mode t s) (λ x. ok (address, x.1)) laid e in
      subst (λ y. Good y.0 × AllGood (Layouts.completed y.1)) (ok_eq (address, x.1) laid q)
        (address-Good, (n mode t s x p g).1)

  pub optional_layout-Sound :
      (t : IrType) (s : Layouts) → AllGood s.completed → Sound (optional_layout next t s)
  unfolding optional_layout
  optional_layout-Sound (ir_type tag symbol no_types count) s g laid e = absurd (ground arith)
  optional_layout-Sound (ir_type tag symbol (more_types t (more_types u us)) count) s g laid e =
      absurd (ground arith)
  optional_layout-Sound (ir_type tag symbol (more_types t no_types) count) s g laid e =
      behind_address-Sound t s g laid (then_ok _ (behind_address next t s) laid e).1

  pub scalar_layout-Sound :
      (t : IrType) (s : Layouts) → AllGood s.completed → Sound (scalar_layout next t s)
  unfolding scalar_layout
  scalar_layout-Sound t s g laid e =
      let l = scalar_of (c_bits (tag_of t)) in
      let checks =
        then_ok
          (fail_if (has_value (symbol_of t) || not (no_arguments (arguments_of t)))
              ErrorKind.invalid_type
            >> fail_if (c_bits (tag_of t) == 0) ErrorKind.invalid_type)
          (ok (l, s)) laid e in
      let second =
        then_ok
          (fail_if (has_value (symbol_of t) || not (no_arguments (arguments_of t)))
            ErrorKind.invalid_type)
          (fail_if (c_bits (tag_of t) == 0) ErrorKind.invalid_type) tt checks.0 in
      subst (λ y. Good y.0 × AllGood (Layouts.completed y.1)) (ok_eq (l, s) laid checks.1)
        (scalar_of-Good (tag_of t) (fail_if_ok (c_bits (tag_of t) == 0) _ second.1), g)
