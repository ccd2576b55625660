-- ===== src/Verifier/Native/Align.antt =====
-- `align_up` of native/codegen/native_layout.h rounds up to a multiple of the alignment.
use neri.Prelude.{
  ℕ, zero, suc, ◌+◌, ◌-◌, ◌*◌, ◌/◌, ◌%◌, ◌≤◌, ◌<◌, max, ◌≡◌, refl, sym, ap, ◌∙◌, subst, true, ◌||◌,
  ◌==◌, ==_iff, arith, bit_and, Bool-cases, inl, inr,
}
use neri.Verifier.Effect.{bit_and-half, ones}
use neri.Verifier.Native.Layout.{align_up}

-- The alignment of a C scalar.
abbrev pub Power : ℕ → Type 0
Power a = (a == 1 || a == 2 || a == 4 || a == 8) ≡ true

pub Power-cases {ℓ} : (P : ℕ → Type ℓ) → P 1 → P 2 → P 4 → P 8 → (a : ℕ) → Power a → P a
Power-cases P p q r s a h = elim (Bool-cases (a == 1)) [
  | inl e ↦ subst (λ x. P x) (sym ((==_iff a 1).0 e)) p
  | inr e ↦ elim (Bool-cases (a == 2)) [
    | inl f ↦ subst (λ x. P x) (sym ((==_iff a 2).0 f)) q
    | inr f ↦ elim (Bool-cases (a == 4)) [
      | inl g ↦ subst (λ x. P x) (sym ((==_iff a 4).0 g)) r
      | inr g ↦ subst (λ x. P x) (sym ((==_iff a 8).0 (ground (arith, h, e, f, g)))) s
    ]
  ]
]

pub Power-zero : (a : ℕ) → Power a → 0 % a ≡ 0
Power-zero a h = Power-cases (λ x. 0 % x ≡ 0) refl refl refl refl a h

pub Power-max : (a b : ℕ) → Power a → Power b → Power (max a b)
Power-max a b p q =
    Power-cases (λ x. Power (max x b)) (Power-cases (λ y. Power (max 1 y)) refl refl refl refl b q)
      (Power-cases (λ y. Power (max 2 y)) refl refl refl refl b q)
      (Power-cases (λ y. Power (max 4 y)) refl refl refl refl b q)
      (Power-cases (λ y. Power (max 8 y)) refl refl refl refl b q) a p

bit_and-ones : (width x : ℕ) → x ≤ ones width → bit_and x (ones width) ≡ x
unfolding ones
bit_and-ones zero zero h = refl
bit_and-ones zero (suc x) h = absurd (omega arith)
bit_and-ones (suc width) x h =
    let half : (ones width * 2 + 1) / 2 ≡ ones width = omega arith in
    omega (
      arith,
      bit_and-half x (ones width * 2 + 1),
      ap (λ n. bit_and (x / 2) n) half,
      bit_and-ones width (x / 2) (omega (arith, h)),
    )

abbrev Rounds : ℕ → Type 0
Rounds a = (value : ℕ) → value ≤ 4294967296 → align_up value a ≡ (value + a - 1) / a * a

Rounds-one : Rounds 1
unfolding align_up ones
Rounds-one value h = bit_and-ones 64 (value + 1 - 1) (omega arith) ∙ omega arith

Rounds-two : Rounds 2
unfolding align_up ones
Rounds-two value h = omega (
  arith,
  bit_and-half (value + 2 - 1) 0xFFFFFFFFFFFFFFFE,
  bit_and-ones 63 ((value + 2 - 1) / 2) (omega arith),
)

Rounds-four : Rounds 4
unfolding align_up ones
Rounds-four value h = omega (
  arith,
  bit_and-half (value + 4 - 1) 0xFFFFFFFFFFFFFFFC,
  bit_and-half ((value + 4 - 1) / 2) 0x7FFFFFFFFFFFFFFE,
  bit_and-ones 62 ((value + 4 - 1) / 2 / 2) (omega arith),
)

Rounds-eight : Rounds 8
unfolding align_up ones
Rounds-eight value h = omega (
  arith,
  bit_and-half (value + 8 - 1) 0xFFFFFFFFFFFFFFF8,
  bit_and-half ((value + 8 - 1) / 2) 0x7FFFFFFFFFFFFFFC,
  bit_and-half ((value + 8 - 1) / 2 / 2) 0x3FFFFFFFFFFFFFFE,
  bit_and-ones 61 ((value + 8 - 1) / 2 / 2 / 2) (omega arith),
)

-- The first multiple of the alignment that is not below the value.
pub align_up_least :
    (value a : ℕ)
    → Power a
    → value ≤ 4294967296
    → (value ≤ align_up value a) × (align_up value a < value + a) × (align_up value a % a ≡ 0)
align_up_least value a p h =
    Power-cases
      (λ x.
        (value ≤ align_up value x) × (align_up value x < value + x) × (align_up value x % x ≡ 0))
      (
        omega (arith, Rounds-one value h),
        omega (arith, Rounds-one value h),
        omega (arith, Rounds-one value h),
      )
      (
        omega (arith, Rounds-two value h),
        omega (arith, Rounds-two value h),
        omega (arith, Rounds-two value h),
      )
      (
        omega (arith, Rounds-four value h),
        omega (arith, Rounds-four value h),
        omega (arith, Rounds-four value h),
      )
      (
        omega (arith, Rounds-eight value h),
        omega (arith, Rounds-eight value h),
        omega (arith, Rounds-eight value h),
      )
      a p
