-- ===== src/Verifier/Native/Sound.antt =====
-- What every layout of native/codegen/native_layout.h satisfies.
use neri.Prelude.{
  ℕ, ◌+◌, ◌%◌, ◌≤◌, ◌<◌, max, ◌≡◌, refl, sym, ap, ◌∙◌, subst, List, [], ◌∷◌, ◌++◌, append_assoc,
  append-nil, some, Bool, true, false, ltb, if◌then◌else◌, length, arith, Bool-cases, some_eq, inl,
  inr, bytes_eq,
}
use neri.Ir.Model.{Bytes, IrType, Field}
use neri.Transport.Reader.{ErrorKind, Result, ok}
use neri.Verifier.Check.{◌>>=◌, fail_if, bind_ok, then_ok, fail_if_ok, ok_eq}
use neri.Verifier.Native.Layout.{
  NativeLayout, Layouts, Laid, Mode, maximum_size, align_up, place_field, place_fields,
  find_completed,
}
use neri.Verifier.Native.Align.{Power, Power-max, Power-zero, align_up_least}

pub record Good (l : NativeLayout) : Type 0 where
  pub positive : 0 < l.size
  pub bounded : l.size ≤ maximum_size
  pub power : Power l.alignment
  pub multiple : l.size % l.alignment ≡ 0

abbrev pub AllGood : List (Bytes × NativeLayout) → Type 0
AllGood [] = Unit
AllGood ((k, l) ∷ rest) = Good l × AllGood rest

pub find_completed-Good :
    (key : Bytes) (l : NativeLayout) (ls : List (Bytes × NativeLayout))
    → find_completed key ls ≡ some l
    → AllGood ls
    → Good l
find_completed-Good key l [] e g = absurd (ground arith)
find_completed-Good key l ((k, m) ∷ rest) e g = elim (Bool-cases (bytes_eq k key)) [
  | inl z ↦ subst (λ x. Good x) (some_eq m l (ground (arith, e, z))) g.0
  | inr z ↦ find_completed-Good key l rest (ground (arith, e, z)) g.1
]

-- The fields lie at multiples of their alignments and within the size; those of a record lie one behind
-- the other.
abbrev pub Places : (is_union : Bool) (from : ℕ) → List ℕ → List NativeLayout → (size : ℕ) → Type 0
Places is_union from [] [] size = from ≤ size
Places is_union from [] (l ∷ ls) size = ⊥
Places is_union from (o ∷ os) [] size = ⊥
Places is_union from (o ∷ os) (l ∷ ls) size =
    (o % l.alignment ≡ 0)
    × (from ≤ o)
    × (o + l.size ≤ size)
    × Places is_union (if is_union then 0 else o + l.size) os ls size

pub Places-larger :
    (is_union : Bool) (from : ℕ) (os : List ℕ) (ls : List NativeLayout) (size more : ℕ)
    → size ≤ more
    → Places is_union from os ls size
    → Places is_union from os ls more
Places-larger is_union from [] [] size more h p = omega (arith, h, p)
Places-larger is_union from [] (l ∷ ls) size more h p = p
Places-larger is_union from (o ∷ os) [] size more h p = p
Places-larger is_union from (o ∷ os) (l ∷ ls) size more h (a, b, c, d) = (
  a,
  b,
  omega (arith, h, c),
  Places-larger is_union (if is_union then 0 else o + l.size) os ls size more h d,
)

same_from : (u : Bool) (a b : ℕ) → (u ≡ false → a ≡ b) → (if u then 0 else a) ≡ (if u then 0 else b)
same_from true a b h = refl
same_from false a b h = h refl

-- A layout under construction.
pub record Partial (l : NativeLayout) : Type 0 where
  pub small : l.size ≤ maximum_size
  pub power : Power l.alignment

module _ (next : Mode → IrType → Layouts → Result Laid) where
  -- What the recursion has to satisfy.
  abbrev pub NextGood : Type 0
  NextGood =
      (mode : Mode) (t : IrType) (s : Layouts) (laid : Laid)
      → next mode t s ≡ ok laid
      → AllGood s.completed
      → Good laid.0 × AllGood (Layouts.completed laid.1)

  -- The layouts of the fields in turn.
  abbrev pub Members : List Field → List NativeLayout → Layouts → Layouts → Type 0
  Members [] [] s t = s ≡ t
  Members [] (l ∷ ls) s t = ⊥
  Members (f ∷ fs) [] s t = ⊥
  Members (f ∷ fs) (l ∷ ls) s t =
      (u : Layouts) × (next Mode.inline f.value_type s ≡ ok (l, u)) × Members fs ls u t

  record Placed (is_union : Bool) (result member more : NativeLayout) (offset : ℕ) : Type 0 where
    offsets : more.offsets ≡ result.offsets ++ (offset ∷ [])
    partial : Partial more
    positive : 0 < more.size
    aligned : offset % member.alignment ≡ 0
    behind : (if is_union then 0 else result.size) ≤ offset
    within : offset + member.size ≤ more.size
    grown : result.size ≤ more.size
    exact : is_union ≡ false → more.size ≡ offset + member.size

  place_field-Placed :
      (is_union : Bool) (result member more : NativeLayout)
      → place_field is_union result member ≡ ok more
      → Partial result
      → Good member
      → (offset : ℕ) × Placed is_union result member more offset
  unfolding place_field
  place_field-Placed is_union result member more e p g =
      let offset : ℕ = if is_union then 0 else align_up result.size member.alignment in
      let size = max result.size (offset + member.size) in
      let whole : NativeLayout = record {
        size = size;
        alignment = max result.alignment member.alignment;
        offsets = result.offsets ++ (offset ∷ []);
      } in
      let checks =
        then_ok (fail_if (ltb maximum_size size) ErrorKind.invalid_type) (ok whole) more e in
      let least = align_up_least result.size member.alignment g.power (omega (arith, p.small)) in
      let fits = fail_if_ok (ltb maximum_size size) ErrorKind.invalid_type checks.0 in
      let zero_aligned : 0 % member.alignment ≡ 0 = Power-zero member.alignment g.power in
      (
        offset,
        subst (λ x. Placed is_union result member x offset) (ok_eq whole more checks.1)
            (record {
              offsets = refl;
              partial = record {
                small = ground (arith, fits);
                power = Power-max result.alignment member.alignment p.power g.power;
              };
              positive = omega (arith, g.positive);
              aligned = ground (arith, zero_aligned, least);
              behind = ground (arith, least);
              within = omega arith;
              grown = omega arith;
              exact = λ h. ground (arith, h, least);
            }),
      )

  -- The turn for one field, with the ones behind it.
  pub place_fields-Places :
      NextGood
      → (is_union : Bool) (fs : List Field) (result more : NativeLayout) (s t : Layouts)
      → place_fields next is_union fs (result, s) ≡ ok (more, t)
      → Partial result
      → AllGood s.completed
      → (os : List ℕ) × (ls : List NativeLayout) × (more.offsets ≡ result.offsets ++ os)
        × Members fs ls s t
        × Places is_union (if is_union then 0 else result.size) os ls more.size
        × Partial more
        × AllGood t.completed
        × (result.size ≤ more.size)
        × (0 < length fs → 0 < more.size)
  place_fields-Places n is_union [] result more s t e p g =
      let pair = ok_eq (result, s) (more, t) e in
      let same : result ≡ more = ap (λ x. x.0) pair in
      let state : s ≡ t = ap (λ x. x.1) pair in
      let sizes : result.size ≡ more.size = ap (λ x. NativeLayout.size x) same in
      (
        [],
        [],
        sym (ap (λ x. NativeLayout.offsets x) same) ∙ sym (append-nil result.offsets),
        state,
        ground (arith, sizes),
        subst (λ x. Partial x) same p,
        subst (λ x. AllGood (Layouts.completed x)) state g,
        omega (arith, sizes),
        λ h. absurd (omega (arith, h)),
      )
  place_fields-Places n is_union (f ∷ fs) result more s t e p g =
      let (laid, q, r) =
        bind_ok (next Mode.inline f.value_type s)
          (λ x. place_field is_union result x.0 >>= λ y. place_fields next is_union fs (y, x.1))
          (more, t) e in
      let member : NativeLayout = laid.0 in
      let u : Layouts = laid.1 in
      let (grown, v, w) =
        bind_ok (place_field is_union result member) (λ y. place_fields next is_union fs (y, u))
          (more, t) r in
      let good = n Mode.inline f.value_type s laid q g in
      let (offset, here) = place_field-Placed is_union result member grown v p good.0 in
      let (os, ls, a, b, c, d, h, k, l) =
        place_fields-Places n is_union fs grown more u t w here.partial good.1 in
      (
        offset ∷ os,
        member ∷ ls,
        a ∙ ap (λ x. x ++ os) here.offsets ∙ append_assoc result.offsets (offset ∷ []) os,
        (u, q, b),
        (
          here.aligned,
          here.behind,
          omega (arith, here.within, k),
          subst (λ x. Places is_union x os ls more.size)
              (same_from is_union grown.size (offset + member.size) here.exact) c,
        ),
        d,
        h,
        omega (arith, here.grown, k),
        λ z. omega (arith, here.positive, k),
      )
