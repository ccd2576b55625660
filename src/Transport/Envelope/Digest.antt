-- ===== src/Transport/Envelope/Digest.antt =====
-- native/codegen/ir_reader.cpp: the comparison of the digest, whose time does not depend on the
-- place of a difference.
use Prim.Native.Nat.{digits, differ, bit_or-bitwise, bit_xor-bitwise}
use neri.Prelude.{
  ℕ, zero, suc, ◌/◌, ◌%◌, ◌≤◌, ◌≡◌, refl, sym, ◌∙◌, ◌↔◌, subst, [], ◌∷◌, bit_or, bit_xor, max,
  length, arith, ap,
}
use mathlib.Core.Path.{ap₂}
use neri.Ir.Model.{Bytes}

-- The loop: the accumulated difference, or-ed with what each pair of bytes differs in. Both are
-- bytes, so the cast to a byte changes nothing.
unfoldable pub difference_from : ℕ → Bytes → Bytes → ℕ
difference_from acc [] ys = acc
difference_from acc (x ∷ xs) [] = acc
difference_from acc (x ∷ xs) (y ∷ ys) = difference_from (bit_or acc (bit_xor x y)) xs ys

unfoldable pub digest_difference : Bytes → Bytes → ℕ
unfolding difference_from
digest_difference xs ys = difference_from 0 xs ys

or_digits-zero : (n a b : ℕ) → a ≤ n → digits (λ b. b) max n a b ≡ 0 → (a ≡ 0) × (b ≡ 0)
or_digits-zero zero zero b h e = (refl, e)
or_digits-zero zero (suc a) b h e = absurd (omega arith)
or_digits-zero (suc n) zero b h e = (refl, e)
or_digits-zero (suc n) (suc a) b h e =
    let e' : digits (λ b. b) max n (suc a / 2) (b / 2) ≡ 0 = omega arith in
    let (p, q) = or_digits-zero n (suc a / 2) (b / 2) (omega arith) e' in (omega arith, omega arith)

or_zero : (a b : ℕ) → bit_or a b ≡ 0 → (a ≡ 0) × (b ≡ 0)
or_zero a b e = or_digits-zero a a b (omega arith) (sym (bit_or-bitwise a b) ∙ e)

differ-zero : (x y : ℕ) → differ x y ≡ 0 → x ≡ y
differ-zero zero y e = sym e
differ-zero (suc x) zero e = e
differ-zero (suc x) (suc y) e = ap suc (differ-zero x y e)

differ_self : (x : ℕ) → differ x x ≡ 0
differ_self zero = refl
differ_self (suc x) = differ_self x

xor_digits-zero : (n a b : ℕ) → a ≤ n → digits (λ b. b) differ n a b ≡ 0 → a ≡ b
xor_digits-zero zero zero b h e = sym e
xor_digits-zero zero (suc a) b h e = absurd (omega arith)
xor_digits-zero (suc n) zero b h e = sym e
xor_digits-zero (suc n) (suc a) b h e =
    let e' : digits (λ b. b) differ n (suc a / 2) (b / 2) ≡ 0 = omega arith in
    let low : differ (suc a % 2) (b % 2) ≡ 0 = omega arith in
    let same = differ-zero (suc a % 2) (b % 2) low in
    let half = xor_digits-zero n (suc a / 2) (b / 2) (omega arith) e' in omega arith

xor_zero : (a b : ℕ) → bit_xor a b ≡ 0 → a ≡ b
xor_zero a b e = xor_digits-zero a a b (omega arith) (sym (bit_xor-bitwise a b) ∙ e)

xor_digits_self : (n a : ℕ) → a ≤ n → digits (λ b. b) differ n a a ≡ 0
xor_digits_self zero zero h = refl
xor_digits_self zero (suc a) h = absurd (omega arith)
xor_digits_self (suc n) zero h = refl
xor_digits_self (suc n) (suc a) h =
    omega (arith, xor_digits_self n (suc a / 2) (omega arith), differ_self (suc a % 2))

xor_self : (a : ℕ) → bit_xor a a ≡ 0
xor_self a = bit_xor-bitwise a a ∙ xor_digits_self a a (omega arith)

difference_from-zero :
    (acc : ℕ) (xs ys : Bytes)
    → length xs ≡ length ys
    → difference_from acc xs ys ≡ 0
    → (acc ≡ 0) × (xs ≡ ys)
unfolding difference_from
difference_from-zero acc [] [] l e = (e, refl)
difference_from-zero acc [] (y ∷ ys) l e = absurd (omega arith)
difference_from-zero acc (x ∷ xs) [] l e = absurd (omega arith)
difference_from-zero acc (x ∷ xs) (y ∷ ys) l e =
    let (now, rest) = difference_from-zero (bit_or acc (bit_xor x y)) xs ys (omega arith) e in
    let (start, pair) = or_zero acc (bit_xor x y) now in (start, ap₂ ◌∷◌ (xor_zero x y pair) rest)

difference_from_self : (xs : Bytes) → difference_from 0 xs xs ≡ 0
unfolding difference_from
difference_from_self [] = refl
difference_from_self (x ∷ xs) = rw (xor_self x) (difference_from_self xs)

-- Two texts of one length have no difference just if they are the same.
pub digest_difference-zero :
    (xs ys : Bytes) → length xs ≡ length ys → (digest_difference xs ys ≡ 0) ↔ (xs ≡ ys)
unfolding digest_difference
digest_difference-zero xs ys l = (
  λ e. (difference_from-zero 0 xs ys l e).1,
  λ e. subst (λ zs. difference_from 0 xs zs ≡ 0) e (difference_from_self xs),
)
