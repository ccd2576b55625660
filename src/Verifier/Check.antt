-- ===== src/Verifier/Check.antt =====
-- The exceptions of native/codegen/ir_verifier.cpp: a check returns or throws a `reader_error`, whose
-- offset is 0.
use mathlib.Core.List.{Memᴰ}
use mathlib.Core.List.Memᴰ
use neri.Prelude.{
  ◌≡◌, refl, ap, List, [], ◌∷◌, Bool, true, false, arith, Option, none, some, subst, sym, inl, inr,
}
use neri.Transport.Reader.{ErrorKind, Result, ok, err}

-- What follows a check that returns, with its value or without.
infixl 5 ◌>>=◌
abbrev pub ◌>>=◌ {ℓ κ} : {V : Type ℓ} {W : Type κ} → Result V → (V → Result W) → Result W
err thrown >>= next = err thrown
ok value >>= next = next value

infixl 5 ◌>>◌
abbrev pub ◌>>◌ {κ} : {W : Type κ} → Result (Unit {0}) → Result W → Result W
err thrown >> next = err thrown
ok done >> next = next

-- `fail`.
abbrev pub fail {ℓ} : {A : Type ℓ} → ErrorKind → Result A
fail code = err (record { code = code; byte_offset = 0 })

-- `fail` under a test.
abbrev pub fail_if : Bool → ErrorKind → Result (Unit {0})
fail_if true code = fail code
fail_if false code = ok tt

-- A check of each element in turn.
abbrev pub each {ℓ} : {A : Type ℓ} → (A → Result (Unit {0})) → List A → Result (Unit {0})
each f [] = ok tt
each f (x ∷ xs) = f x >> each f xs

-- The value that is there, or an exception.
abbrev pub found {ℓ} : {A : Type ℓ} → Option A → ErrorKind → Result A
found none code = fail code
found (some a) code = ok a

pub bind_ok {ℓ κ} :
    {A : Type ℓ} {B : Type κ} (m : Result A) (f : A → Result B) (b : B)
    → (m >>= f) ≡ ok b
    → (a : A) × (m ≡ ok a) × (f a ≡ ok b)
bind_ok (ok a) f b e = (a, refl, e)
bind_ok (err x) f b e = absurd (ground arith)

pub then_ok {ℓ} :
    {B : Type ℓ} (m : Result (Unit {0})) (k : Result B) (b : B)
    → (m >> k) ≡ ok b
    → (m ≡ ok tt) × (k ≡ ok b)
then_ok (ok tt) k b e = (refl, e)
then_ok (err x) k b e = absurd (ground arith)

pub fail_if_ok : (test : Bool) (code : ErrorKind) → fail_if test code ≡ ok tt → test ≡ false
fail_if_ok true code e = absurd (ground arith)
fail_if_ok false code e = refl

abbrev value_or {ℓ} : {A : Type ℓ} → A → Result A → A
value_or d (ok v) = v
value_or d (err x) = d

pub ok_eq {ℓ} : {A : Type ℓ} (a b : A) → ok a ≡ ok b → a ≡ b
ok_eq a b e = ap (value_or a) e

pub found_ok {ℓ} :
    {A : Type ℓ} (o : Option A) (code : ErrorKind) (a : A) → found o code ≡ ok a → o ≡ some a
found_ok none code a e = absurd (ground arith)
found_ok (some x) code a e = ap (λ z. some z) (ok_eq x a e)

pub each_ok {ℓ} :
    {A : Type ℓ} (f : A → Result (Unit {0})) (x : A) (xs : List A)
    → each f xs ≡ ok tt
    → Memᴰ x xs
    → f x ≡ ok tt
each_ok f x [] e m = absurd (Memᴰ.not-nil m)
each_ok f x (y ∷ ys) e m =
    let both = then_ok (f y) (each f ys) tt e in
    elim (Memᴰ.cases_cons m) [
      | inl z ↦ subst (λ w. f w ≡ ok tt) (sym z) both.0
      | inr z ↦ each_ok f x ys both.1 z
    ]
