-- ===== src/Verifier/Effect.antt =====
-- `neri_ir_effect_v1` of native/include/neri/abi_catalog.h: sets of effects as 32-bit masks.
use Prim.Native.Nat.{digits, bit_and-bitwise, bit_or-bitwise, bit_xor-bitwise, bitwise, differ}
use neri.Prelude.{
  ℕ, zero, suc, ◌+◌, ◌-◌, ◌*◌, ◌/◌, ◌%◌, ◌≤◌, ◌<◌, min, max, bit_and, bit_or, bit_xor, ◌≡◌, sym,
  refl, ap, ◌∙◌, arith,
}

abbrev pub read : ℕ
read = 1

abbrev pub write : ℕ
write = 2

abbrev pub may_panic : ℕ
may_panic = 4

abbrev pub managed_allocate : ℕ
managed_allocate = 8

abbrev pub native_allocate : ℕ
native_allocate = 16

abbrev pub safepoint : ℕ
safepoint = 32

abbrev pub unsafe_code : ℕ
unsafe_code = 64

abbrev pub no_return : ℕ
no_return = 128

-- `~mask`.
unfoldable pub complement : ℕ → ℕ
complement mask = bit_xor mask 0xFFFFFFFF

-- The binary digit at a place.
abbrev pub digit : ℕ → ℕ → ℕ
digit zero n = n % 2
digit (suc place) n = digit place (n / 2)

-- An operation on the digits of two numbers: `low` when the first has none left, else `join`.
module _ (low : ℕ → ℕ) (join : ℕ → ℕ → ℕ) where
  fuel_enough : (n m a b : ℕ) → a ≤ n → a ≤ m → digits low join n a b ≡ digits low join m a b
  fuel_enough zero zero a b p q = refl
  fuel_enough zero (suc m) zero b p q = refl
  fuel_enough zero (suc m) (suc a) b p q = absurd (omega arith)
  fuel_enough (suc n) zero zero b p q = refl
  fuel_enough (suc n) zero (suc a) b p q = absurd (omega arith)
  fuel_enough (suc n) (suc m) zero b p q = refl
  fuel_enough (suc n) (suc m) (suc a) b p q =
      omega (arith, fuel_enough n m (suc a / 2) (b / 2) (omega arith) (omega arith))

  last_digit :
      ((b : ℕ) → low b ≡ low (b / 2) * 2 + join 0 (b % 2))
      → (a b : ℕ)
      → bitwise low join a b ≡ bitwise low join (a / 2) (b / 2) * 2 + join (a % 2) (b % 2)
  last_digit l zero b = l b
  last_digit l (suc a) b =
      omega (arith, fuel_enough a (suc a / 2) (suc a / 2) (b / 2) (omega arith) (omega arith))

  digit-bitwise :
      ((b : ℕ) → low b ≡ low (b / 2) * 2 + join 0 (b % 2))
      → ((x y : ℕ) → x ≤ 1 → y ≤ 1 → join x y ≤ 1)
      → (place a b : ℕ) → digit place (bitwise low join a b) ≡ join (digit place a) (digit place b)
  digit-bitwise l small zero a b =
      omega (arith, last_digit l a b, small (a % 2) (b % 2) (omega arith) (omega arith))
  digit-bitwise l small (suc place) a b =
      let half : bitwise low join a b / 2 ≡ bitwise low join (a / 2) (b / 2) =
        omega (arith, last_digit l a b, small (a % 2) (b % 2) (omega arith) (omega arith)) in
      ap (λ n. digit place n) half ∙ digit-bitwise l small place (a / 2) (b / 2)

pub bit_and-half : (a b : ℕ) → bit_and a b ≡ bit_and (a / 2) (b / 2) * 2 + min (a % 2) (b % 2)
bit_and-half a b =
    (λ i. bit_and-bitwise a b i)
    ∙ last_digit (λ x. 0) min (λ x. omega arith) a b
    ∙ ap (λ n. n * 2 + min (a % 2) (b % 2)) (sym (λ i. bit_and-bitwise (a / 2) (b / 2) i))

pub digit-bit_or : (place a b : ℕ) → digit place (bit_or a b) ≡ max (digit place a) (digit place b)
digit-bit_or place a b =
    ap (λ n. digit place n) (λ i. bit_or-bitwise a b i)
    ∙ digit-bitwise (λ x. x) max (λ x. omega arith) (λ x y p q. omega arith) place a b

pub digit-bit_and :
    (place a b : ℕ) → digit place (bit_and a b) ≡ min (digit place a) (digit place b)
digit-bit_and place a b =
    ap (λ n. digit place n) (λ i. bit_and-bitwise a b i)
    ∙ digit-bitwise (λ x. 0) min (λ x. omega arith) (λ x y p q. omega arith) place a b

differ_small : (x y : ℕ) → x ≤ 1 → y ≤ 1 → differ x y ≤ 1
differ_small zero y p q = q
differ_small (suc zero) zero p q = p
differ_small (suc zero) (suc y) p q = omega arith
differ_small (suc (suc x)) y p q = absurd (omega arith)

digit-bit_xor : (place a b : ℕ) → digit place (bit_xor a b) ≡ differ (digit place a) (digit place b)
digit-bit_xor place a b =
    ap (λ n. digit place n) (λ i. bit_xor-bitwise a b i)
    ∙ digit-bitwise (λ x. x) differ (λ x. omega arith) differ_small place a b

unfoldable pub ones : ℕ → ℕ
ones zero = 0
ones (suc width) = ones width * 2 + 1

digit-ones : (place width : ℕ) → place < width → digit place (ones width) ≡ 1
unfolding ones
digit-ones place zero h = absurd (omega arith)
digit-ones zero (suc width) h = omega arith
digit-ones (suc place) (suc width) h =
    let half : (ones width * 2 + 1) / 2 ≡ ones width = omega arith in
    ap (λ n. digit place n) half ∙ digit-ones place width (omega arith)

digit-zero : (place : ℕ) → digit place 0 ≡ 0
digit-zero zero = refl
digit-zero (suc place) = digit-zero place

digit_small : (place n : ℕ) → digit place n ≤ 1
digit_small zero n = omega arith
digit_small (suc place) n = digit_small place (n / 2)

-- The first set of effects is part of the second.
abbrev pub Within : ℕ → ℕ → Type 0
Within a b = (place : ℕ) → digit place a ≤ digit place b

pub Within-bit_or : (a b : ℕ) → Within a (bit_or a b) × Within b (bit_or a b)
Within-bit_or a b =
    (λ place. omega (arith, digit-bit_or place a b), λ place. omega (arith, digit-bit_or place a b))

differ_one : (x : ℕ) → x ≤ 1 → differ x 1 ≡ 1 - x
differ_one zero h = refl
differ_one (suc zero) h = refl
differ_one (suc (suc x)) h = absurd (omega arith)

-- No bit of the first mask is in the complement of the second.
pub Within-complement :
    (a b : ℕ)
    → bit_and a (complement b) ≡ 0
    → (place : ℕ) → place < 32
    → digit place a ≤ digit place b
unfolding complement ones
Within-complement a b e place h = omega (
  arith,
  digit-bit_and place a (bit_xor b 0xFFFFFFFF),
  digit-bit_xor place b 0xFFFFFFFF,
  ap (λ n. digit place n) e,
  digit-zero place,
  digit-ones place 32 h,
  ap (λ n. differ (digit place b) n) (digit-ones place 32 h),
  differ_one (digit place b) (digit_small place b),
  digit_small place a,
)
