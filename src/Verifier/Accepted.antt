-- ===== src/Verifier/Accepted.antt =====
-- The whole of `read_verified_module` of native/codegen/ir_reader.cpp: the reader, then the verifier.
use mathlib.Core.List.{Memᴰ}
use neri.Prelude.{
  ℕ, ◌≤◌, ◌≡◌, Option, Bool, true, false, if◌then◌else◌, length, arith, Bool-cases, inl, inr, subst,
}
use neri.Ir.Model.{Bytes, ClassDeclaration, Function, IrModule}
use neri.Transport.Reader.{ReaderError, ReaderOptions, Result, ok, err}
use neri.Transport.Format.Basic.{IsBytes}
use neri.Transport.Wire.Payload.{payload}
use neri.Transport.Envelope.{initial, consistent, read_envelope}
use neri.Transport.Envelope.Exact.{envelope, read_envelope_sound}
use neri.Verifier.Check.{◌>>=◌, ◌>>◌, bind_ok, then_ok, ok_eq}
use neri.Verifier.Imports.{RuntimeContract}
use neri.Verifier.Body.Whole.{verify_body}
use neri.Verifier.Supported.{verify_supported_module, Rooted, module_accepted}

-- What `read_verified_module` returns or throws: `std::invalid_argument` has no offset.
pub data Outcome : Type 0 where
  accepted : IrModule → Outcome
  rejected : ReaderError → Outcome
  invalid_argument : Outcome

unfoldable pub outcome_of : Result IrModule → Outcome
outcome_of (ok m) = accepted m
outcome_of (err e) = rejected e

outcome_of-accepted : (r : Result IrModule) (m : IrModule) → outcome_of r ≡ accepted m → r ≡ ok m
unfolding outcome_of
outcome_of-accepted (ok n) m h = ground (arith, h)
outcome_of-accepted (err e) m h = absurd (ground (arith, h))

module _ (sha256 : Bytes → Bytes) (legal : Bytes → Bool)
    (catalog : Bytes → Option RuntimeContract) where
  unfoldable pub read_then_verify : ReaderOptions → Bytes → Result IrModule
  read_then_verify options input = read_envelope sha256 legal options input >>= λ m.
      verify_supported_module legal catalog m >> ok m

  unfoldable pub read_verified_module : ReaderOptions → Bytes → Outcome
  unfolding outcome_of
  read_verified_module options input =
      if consistent options then outcome_of (read_then_verify options input) else invalid_argument

  -- The two parts of an accepted input.
  read_verified_module-back :
      (options : ReaderOptions) (input : Bytes) (m : IrModule)
      → read_verified_module options input ≡ accepted m
      → (consistent options ≡ true)
        × (read_envelope sha256 legal options input ≡ ok m)
        × (verify_supported_module legal catalog m ≡ ok tt)
  unfolding read_verified_module read_then_verify outcome_of
  read_verified_module-back options input m h = elim (Bool-cases (consistent options)) [
    | inl y ↦
        let good : outcome_of (read_then_verify options input) ≡ accepted m =
          ground (arith, h, y) in
        let (n, read, rest) =
          bind_ok (read_envelope sha256 legal options input)
            (λ n. verify_supported_module legal catalog n >> ok n) m
            (outcome_of-accepted (read_then_verify options input) m good) in
        let both = then_ok (verify_supported_module legal catalog n) (ok n) m rest in
        let e = ok_eq n m both.1 in
        (
          y,
          subst (λ w. read_envelope sha256 legal options input ≡ ok w) e read,
          subst (λ w. verify_supported_module legal catalog w ≡ ok tt) e both.0,
        )
    | inr y ↦ absurd (ground (arith, h, y))
  ]

-- Input that `read_verified_module` accepts, under a digest of 32 bytes, is an envelope of a supported
-- minor around the canonical encoding of a valid module, in which the bases of every class lead to a
-- class without one and every function that is no retained declaration has an accepted body.
pub read_verified_module_sound :
    (sha256 : Bytes → Bytes) (digest_size : (bs : Bytes) → length (sha256 bs) ≡ 32)
    → (legal : Bytes → Bool) (catalog : Bytes → Option RuntimeContract) (options : ReaderOptions)
    → (input : Bytes) (m : IrModule) → IsBytes input
    → read_verified_module sha256 legal catalog options input ≡ accepted m
    → ((minor : ℕ) × (minor ≤ 9)
        × (length input ≤ options.max_input_bytes)
        × (payload (initial options legal minor)).Valid m
        × (input ≡ envelope sha256 minor ((payload (initial options legal minor)).encode m)))
      × ((c : ClassDeclaration) → Memᴰ c m.classes → Rooted m c.base)
      × ((f : Function) → Memᴰ f m.functions → f.retained ≡ false → verify_body legal m f ≡ ok tt)
read_verified_module_sound sha256 digest_size legal catalog options input m bytes h =
    let parts = read_verified_module-back sha256 legal catalog options input m h in
    let good = module_accepted legal catalog m parts.2 in
    (read_envelope_sound sha256 digest_size legal options input m bytes parts.1, good.0, good.1)
