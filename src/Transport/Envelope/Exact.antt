-- ===== src/Transport/Envelope/Exact.antt =====
-- The envelope of a payload, as the transport lays it out, against `read_verified_module`.
use native.Mathlib.Nat.{zero-add}
use neri.Prelude.{
  ℕ, zero, suc, ◌+◌, ◌≤◌, ◌<◌, ◌^◌, ◌≡◌, ◌⊎◌, refl, sym, ap, ◌∙◌, subst, Bool, [], ◌∷◌, ◌++◌, arith,
  length, length-append, take, drop, take-append-drop, length-take, length-drop, bytes_eq→eq,
  bytes_eq_self, inl, inr,
}
use neri.Ir.Model.{Bytes, IrModule}
use neri.Transport.Reader.{ReaderError, ReaderOptions, Cursor, Result, ok, err, read_le}
use neri.Transport.Payload.{read_module}
use neri.Transport.Format.Basic.{IsBytes, IsBytes-suffix, cursor}
use neri.Transport.Format.Words.{
  take-append, drop-append, le_bytes, le_bytes-read_le, read_le-le_bytes, IsBytes-take,
}
use neri.Transport.Wire.Payload.{payload}
use neri.Transport.Exact.{read_module_sound, read_module_complete}
use neri.Transport.Envelope.{header_size, magic, slice, initial, check_header, read_envelope}
use neri.Transport.Envelope.Digest.{digest_difference, digest_difference-zero}

-- The bytes of an envelope: magic, major, minor, flags, length, digest and payload.
unfoldable pub envelope : (Bytes → Bytes) → ℕ → Bytes → Bytes
envelope sha256 minor body =
    magic
    ++ (le_bytes 2 1
        ++ (le_bytes 2 minor
            ++ (le_bytes 4 0 ++ (le_bytes 8 (length body) ++ (sha256 body ++ body)))))

drop-nil : (m : ℕ) → drop {A = ℕ} m [] ≡ []
drop-nil zero = refl
drop-nil (suc m) = refl

drop-drop : (m n : ℕ) (bs : Bytes) → drop m (drop n bs) ≡ drop (n + m) bs
drop-drop m zero bs = rw zero-add refl
drop-drop m (suc n) [] = drop-nil m ∙ sym (drop-nil (suc n + m))
drop-drop m (suc n) (b ∷ bs) =
    let e : suc (n + m) ≡ suc n + m = omega arith in drop-drop m n bs ∙ ap (λ k. drop k (b ∷ bs)) e

IsBytes-drop : (n : ℕ) (bs : Bytes) → IsBytes bs → IsBytes (drop n bs)
IsBytes-drop n bs h = IsBytes-suffix bs (take n bs) (drop n bs) h (sym (take-append-drop n bs))

split_at : (m n : ℕ) (bs : Bytes) → drop m bs ≡ slice m n bs ++ drop (m + n) bs
split_at m n bs = sym (take-append-drop n (drop m bs)) ∙ ap (◌++◌ (slice m n bs)) (drop-drop n m bs)

Result-cases {ℓ} :
    {A : Type ℓ} (r : Result A) → ((a : A) × (r ≡ ok a)) ⊎ ((e : ReaderError) × (r ≡ err e))
Result-cases (ok a) = inl (a, refl)
Result-cases (err e) = inr (e, refl)

-- What `check_header` lets pass.
pub record Header (options : ReaderOptions) (input : Bytes) (minor : ℕ) : Type 0 where
  pub within : length input ≤ options.max_input_bytes
  pub marked : magic ≡ take 8 input
  pub major : read_le (slice 8 2 input) ≡ 1
  pub minor_read : read_le (slice 10 2 input) ≡ minor
  pub minor-le : minor ≤ 9
  pub flags : read_le (slice 12 4 input) ≡ 0
  pub sized : length input ≡ header_size + read_le (slice 16 8 input)

check_header-back :
    (options : ReaderOptions) (input : Bytes) (minor : ℕ)
    → check_header options input ≡ ok minor
    → Header options input minor
unfolding check_header
check_header-back options input minor e = ground (arith, bytes_eq→eq magic (take 8 input))

check_header-forth :
    (options : ReaderOptions) (input : Bytes) (minor : ℕ)
    → Header options input minor
    → check_header options input ≡ ok minor
unfolding check_header
check_header-forth options input minor h = ground (arith, bytes_eq_self magic)

-- The word that stands in the envelope at an offset.
word_at :
    (m n v : ℕ) (bs : Bytes)
    → IsBytes bs
    → m + n ≤ length bs
    → read_le (slice m n bs) ≡ v
    → slice m n bs ≡ le_bytes n v
word_at m n v bs h fits e =
    sym (
      le_bytes-read_le n (slice m n bs) (omega (arith, length-take n (drop m bs), length-drop m bs))
        (IsBytes-take n (drop m bs) (IsBytes-drop m bs h)))
    ∙ ap (le_bytes n) e

-- A header that passes, and the digest of the payload, make the envelope.
assemble :
    (sha256 : Bytes → Bytes) (options : ReaderOptions) (input : Bytes) (minor : ℕ)
    → IsBytes input
    → Header options input minor
    → sha256 (drop header_size input) ≡ slice 24 32 input
    → input ≡ envelope sha256 minor (drop header_size input)
unfolding envelope
assemble sha256 options input minor bytes h digest =
    let size : length (drop header_size input) ≡ read_le (slice 16 8 input) =
      omega (arith, length-drop header_size input, h.sized) in
    let w8 = word_at 8 2 1 input bytes (omega (arith, h.sized)) h.major in
    let w10 = word_at 10 2 minor input bytes (omega (arith, h.sized)) h.minor_read in
    let w12 = word_at 12 4 0 input bytes (omega (arith, h.sized)) h.flags in
    let w16 =
      word_at 16 8 (length (drop header_size input)) input bytes (omega (arith, h.sized))
        (sym size) in
    sym (take-append-drop 8 input)
    ∙ ap (λ z. z ++ drop 8 input) (sym h.marked)
    ∙ ap (◌++◌ magic) (
        joined 8 2 input w8 (
          joined 10 2 input w10
            (joined 12 4 input w12 (joined 16 8 input w16 (joined 24 32 input (sym digest) refl)))))
  where
    joined :
        (m n : ℕ) (bs : Bytes) {w t : Bytes}
        → slice m n bs ≡ w
        → drop (m + n) bs ≡ t
        → drop m bs ≡ w ++ t
    joined m n bs {w} {t} e e' = split_at m n bs ∙ ap (λ z. z ++ drop (m + n) bs) e ∙ ap (◌++◌ w) e'

module _ (sha256 : Bytes → Bytes) (digest_size : (bs : Bytes) → length (sha256 bs) ≡ 32) where
  digest-slice : (minor : ℕ) (body : Bytes) → slice 24 32 (envelope sha256 minor body) ≡ sha256 body
  unfolding envelope le_bytes
  digest-slice minor body =
      subst (λ n. take n (sha256 body ++ body) ≡ sha256 body) (digest_size body)
        (take-append (sha256 body) body)

  body-slice : (minor : ℕ) (body : Bytes) → drop header_size (envelope sha256 minor body) ≡ body
  unfolding envelope le_bytes
  body-slice minor body =
      subst (λ n. drop n (sha256 body ++ body) ≡ body) (digest_size body)
        (drop-append (sha256 body) body)

  pub length-envelope :
      (minor : ℕ) (body : Bytes) → length (envelope sha256 minor body) ≡ header_size + length body
  unfolding envelope le_bytes
  length-envelope minor body = omega (arith, digest_size body, length-append (sha256 body) body)

  envelope-Header :
      (options : ReaderOptions) (minor : ℕ) (body : Bytes)
      → minor ≤ 9
      → header_size + length body ≤ options.max_input_bytes
      → options.max_input_bytes < 2 ^ 64
      → Header options (envelope sha256 minor body) minor
  envelope-Header options minor body low fits word_sized = record {
    within = omega (arith, length-envelope minor body);
    marked = unfold envelope in refl;
    major = unfold envelope le_bytes read_le in refl;
    minor_read = unfold envelope le_bytes read_le in omega arith;
    minor-le = low;
    flags = unfold envelope le_bytes read_le in refl;
    sized = length-envelope minor body ∙ ap (◌+◌ header_size) (sym length_read);
  }
    where
      slice_length : slice 16 8 (envelope sha256 minor body) ≡ le_bytes 8 (length body)
      slice_length = unfold envelope le_bytes in refl

      length_read : read_le (slice 16 8 (envelope sha256 minor body)) ≡ length body
      length_read = ap read_le slice_length ∙ read_le-le_bytes 8 (length body) (omega arith)

  module _ (legal : Bytes → Bool) (options : ReaderOptions) where
    -- An envelope of at most the input limit around the payload of a module is read as the module.
    pub read_envelope_complete :
        (minor : ℕ) (m : IrModule)
        → minor ≤ 9
        → (payload (initial options legal minor)).Valid m
        → header_size + length ((payload (initial options legal minor)).encode m)
          ≤ options.max_input_bytes
        → options.max_input_bytes < 2 ^ 64
        → read_envelope sha256 legal options
            (envelope sha256 minor ((payload (initial options legal minor)).encode m))
          ≡ ok m
    unfolding read_envelope
    read_envelope_complete minor m low valid fits word_sized =
        let body = (payload (initial options legal minor)).encode m in
        let input = envelope sha256 minor body in
        let header =
          check_header-forth options input minor
            (envelope-Header options minor body low fits word_sized) in
        let same = sym (ap sha256 (body-slice minor body)) in
        let digest =
          (digest_difference-zero (sha256 (drop header_size input)) (slice 24 32 input)
              (ap length (ap sha256 (body-slice minor body) ∙ sym (digest-slice minor body)))).1
            (ap sha256 (body-slice minor body) ∙ sym (digest-slice minor body)) in
        let read =
          subst
            (λ z.
              read_module (initial options legal minor) (cursor z header_size)
              ≡ ok (m, cursor [] (header_size + length body)))
            (sym (body-slice minor body))
            (read_module_complete (initial options legal minor) m header_size valid) in
        ground (arith, header, digest, read)

    read_envelope-back :
        (input : Bytes) (m : IrModule)
        → read_envelope sha256 legal options input ≡ ok m
        → (minor : ℕ) × (check_header options input ≡ ok minor)
          × (digest_difference (sha256 (drop header_size input)) (slice 24 32 input) ≡ 0)
          × (c : Cursor) × (read_module
                (initial options legal minor)
                (cursor (drop header_size input) header_size)
              ≡ ok (m, c))
    unfolding read_envelope
    read_envelope-back input m e = elim (Result-cases (check_header options input)) [
      | inl (minor, header) ↦
          let (digest, c, read) = payload_back minor header in (minor, header, digest, c, read)
      | inr (x, failed) ↦ absurd (ground arith)
    ]
      where
        payload_back :
            (minor : ℕ)
            → check_header options input ≡ ok minor
            → (digest_difference (sha256 (drop header_size input)) (slice 24 32 input) ≡ 0)
              × (c : Cursor) × (read_module
                    (initial options legal minor)
                    (cursor (drop header_size input) header_size)
                  ≡ ok (m, c))
        payload_back minor header =
            elim (Result-cases (
              read_module (initial options legal minor)
                (cursor (drop header_size input) header_size))) [
                  | inl (r, good) ↦ (ground arith, r.1, (good ∙ ground arith))
                  | inr (x, failed) ↦ absurd (ground arith)
                ]

    -- What is read as a module is an envelope of a supported minor around the module's payload,
    -- within the input limit.
    pub read_envelope_sound :
        (input : Bytes) (m : IrModule)
        → IsBytes input
        → read_envelope sha256 legal options input ≡ ok m
        → (minor : ℕ) × (minor ≤ 9)
          × (length input ≤ options.max_input_bytes)
          × (payload (initial options legal minor)).Valid m
          × (input ≡ envelope sha256 minor ((payload (initial options legal minor)).encode m))
    read_envelope_sound input m bytes e =
        let (minor, header, digest, c, read) = read_envelope-back input m e in
        let h = check_header-back options input minor header in
        let sizes : length (sha256 (drop header_size input)) ≡ length (slice 24 32 input) = omega (
          arith,
          digest_size (drop header_size input),
          length-take 32 (drop 24 input),
          length-drop 24 input,
          h.sized,
        ) in
        let same =
          (digest_difference-zero (sha256 (drop header_size input)) (slice 24 32 input) sizes).0
            digest in
        let (valid, body) =
          read_module_sound (initial options legal minor) (drop header_size input) header_size m c
            (IsBytes-drop header_size input bytes) read in
        (
          minor,
          h.minor-le,
          h.within,
          valid,
          (assemble sha256 options input minor bytes h same ∙ ap (envelope sha256 minor) body),
        )
