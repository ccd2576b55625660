-- ===== src/Transport/Format/Containers.antt =====
-- The formats of texts, vectors, options and fields that a feature adds.
use native.Mathlib.Nat.{le_refl}
use neri.Prelude.{
  ℕ, ◌+◌, ◌^◌, ◌≤◌, ◌<◌, ◌≡◌, refl, sym, ap, subst, Bool, true, false, not, ◌++◌, arith, length,
  length-append,
}
use neri.Ir.Model.{Bytes}
use neri.Transport.Reader.{
  ErrorKind, Context, Cursor, Reader, ok, continue, ◌>>=◌, ◌>>◌, pure, fail, fail_if, offset,
  remaining, bytes, u32,
}
use neri.Transport.Cursor.{bounded, field_length, strict_utf8, is_identity, utf8, blob, identity}
use neri.Transport.Format.Basic.{
  IsBytes, IsBytes-suffix, Format, ReadsWhen, Always, Reads, part, via, via-Reads, offset-Reads,
  restate-Reads, ok_value, ok_cursor, >>=-eq-ok, sound-join, complete-join,
}
use neri.Transport.Format.Words.{raw, bytes-Reads, word, u32-Reads}

-- A word of four bytes within a limit: the number of items, or of bytes, that follow.
unfoldable pub size_within : ℕ → Format ℕ
unfolding via word
size_within limit = via (λ v. v) (word 4) (λ v. (v < 256 ^ 4) × (v ≤ limit))

bounded-back :
    (limit : ℕ) (c : Cursor) (y : ℕ) (d : Cursor)
    → bounded limit c ≡ ok (y, d)
    → (u32 c ≡ ok (y, d)) × (y ≤ limit)
unfolding bounded ◌>>=◌ continue offset remaining fail_if fail pure
bounded-back limit c y d e = ground arith

bounded-forth :
    (limit : ℕ) (c : Cursor) (y : ℕ) (d : Cursor)
    → u32 c ≡ ok (y, d)
    → y ≤ limit
    → y ≤ length d.rest
    → bounded limit c ≡ ok (y, d)
unfolding bounded ◌>>=◌ continue offset remaining fail_if fail pure
bounded-forth limit c y d e h k = ground arith

-- The rule for `bounded`: what follows takes at least as many bytes as the number says.
pub bounded-Reads :
    {A : Type 0} {C : A → Type 0} (limit : ℕ) (size : A → ℕ) {g : Format A} {k : ℕ → Reader A}
    → ((a : A) → C a → g.Valid a → size a ≤ length (g.encode a))
    → ((y : ℕ) → ReadsWhen (λ a. C a × (size a ≡ y)) (k y) g)
    → ReadsWhen C (bounded limit >>= k) (part size (size_within limit) g)
unfolding part size_within via
bounded-Reads {A} {C} limit size {g} {k} fits next = record {
  sound = λ c v c' all e.
      let (y, d, em, ek) = >>=-eq-ok (bounded limit) k c v c' e in
      let (number, within) = bounded-back limit c y d em in
      let (_, valid, erest, epos) = u32-Reads.sound c y d all number in
      let (cv, valid_rest, erest', epos') =
        (next y).sound d v c' (IsBytes-suffix c.rest ((word 4).encode y) d.rest all erest) ek in
      let same = sym cv.1 in
      let both =
        sound-join c d c' ((word 4).encode (size v)) (g.encode v)
          (subst (λ z. c.rest ≡ (word 4).encode z ++ d.rest) same erest)
          (subst (λ z. d.position ≡ c.position + length ((word 4).encode z)) same epos) erest'
          epos' in
      (
        cv.0,
        ((subst (word 4).Valid same valid, subst (λ z. z ≤ limit) same within), valid_rest),
        both.0,
        both.1,
      );
  complete = λ v t p hc valid.
      complete-join (bounded limit) k ((word 4).encode (size v)) (g.encode v) t p (size v) v
        (bounded-forth limit _ (size v) _
          (u32-Reads.complete (size v) (g.encode v ++ t) p tt valid.0.0) valid.0.1
          (omega (arith, fits v hc valid.1, length-append (g.encode v) t)))
        ((next (size v)).complete v t _ (hc, refl) valid.1);
}

-- What follows a test that lets a value pass.
pub passed :
    {A : Type 0} (test : Bool) (code : ErrorKind) (o : ℕ) (y a : A) (c c' : Cursor)
    → (fail_if test code o >> pure y) c ≡ ok (a, c')
    → (test ≡ false) × (a ≡ y) × (c' ≡ c)
unfolding fail_if fail pure ◌>>=◌ continue
passed true code o y a c c' e = cc
passed false code o y a c c' e = (refl, sym (ok_value e), sym (ok_cursor e))

pub pass :
    {A : Type 0} (test : Bool) (code : ErrorKind) (o : ℕ) (y : A) (c : Cursor)
    → test ≡ false
    → (fail_if test code o >> pure y) c ≡ ok (y, c)
unfolding fail_if fail pure ◌>>=◌ continue
pass test code o y c e = rw e

not-false : (b : Bool) → not b ≡ false → b ≡ true
not-false true e = refl
not-false false e = cc

-- Bytes as they stand, under a condition.
unfoldable pub text_where : (Bytes → Type 0) → Format Bytes
text_where P = record { encode = λ bs. bs; Valid = λ bs. IsBytes bs × P bs }

-- A text of strict UTF-8, behind its length.
unfoldable pub text : Context → Format Bytes
text x = part length (size_within x.max_string_bytes) (text_where (λ bs. strict_utf8 x bs ≡ true))

text-body :
    (x : Context) (n o : ℕ)
    → Reads
        (bytes n >>= λ contents.
          fail_if (not (strict_utf8 x contents)) ErrorKind.invalid_source o >> pure contents)
        (via (λ bs. bs) (raw n) (λ bs. (length bs ≡ n) × IsBytes bs × (strict_utf8 x bs ≡ true)))
unfolding via raw fail_if fail pure ◌>>=◌ continue
text-body x n o =
    via-Reads (λ bs. bs) (λ bs. (length bs ≡ n) × IsBytes bs × (strict_utf8 x bs ≡ true)) _
      (bytes-Reads n)
      (λ y c a c' valid e.
        let (good, same, stay) = passed _ ErrorKind.invalid_source o y a c c' e in
        (rw same (valid.0, valid.1, not-false _ good), same, stay))
      (λ a c valid. ((valid.0, valid.1), pass _ ErrorKind.invalid_source o a c (ap not valid.2)))

pub utf8-Reads : (x : Context) → Reads (utf8 x) (text x)
unfolding utf8 text field_length part via raw text_where
utf8-Reads x =
    bounded-Reads x.max_string_bytes length {g = text_where (λ bs. strict_utf8 x bs ≡ true)}
      (λ a hc valid. le_refl (length a))
      λ n. offset-Reads λ o.
        restate-Reads (text_where (λ bs. strict_utf8 x bs ≡ true)) (text-body x n o)
          (λ a d valid. refl) (λ a hd valid. ((tt, valid.0), (valid.1, valid.2)))
          (λ a hc valid. (tt, (hc.1, valid.0, valid.1)))

-- Bytes behind their length.
unfoldable pub blob_bytes : Context → Format Bytes
blob_bytes x = part length (size_within x.max_string_bytes) (text_where Always)

pub blob-Reads : (x : Context) → Reads (blob x) (blob_bytes x)
unfolding blob blob_bytes field_length part via raw text_where pure
blob-Reads x =
    bounded-Reads x.max_string_bytes length {g = text_where Always}
      (λ a hc valid. le_refl (length a))
      λ n.
        restate-Reads (text_where Always)
          (via-Reads (λ bs. bs) (λ bs. (length bs ≡ n) × IsBytes bs) (λ contents. pure contents)
            (bytes-Reads n)
            (λ y c a c' valid e. (rw (← ok_value e) valid, sym (ok_value e), sym (ok_cursor e)))
            (λ a c valid. (valid, refl)))
          (λ a d valid. refl) (λ a hd valid. ((tt, valid.0), (valid.1, tt)))
          (λ a hc valid. (tt, (hc.1, valid.0)))

-- A text that `validate_identity` accepts.
unfoldable pub identity_text : Context → Format Bytes
identity_text x = via (λ bs. bs) (text x) (λ bs. (text x).Valid bs × (is_identity bs ≡ true))

pub identity-Reads : (x : Context) → Reads (identity x) (identity_text x)
unfolding identity identity_text via fail_if fail pure ◌>>=◌ continue
identity-Reads x = offset-Reads λ o.
    via-Reads (λ bs. bs) (λ bs. (text x).Valid bs × (is_identity bs ≡ true)) _ (utf8-Reads x)
      (λ y c a c' valid e.
        let (good, same, stay) = passed _ ErrorKind.malformed_module o y a c c' e in
        (rw same (valid, not-false _ good), same, stay))
      (λ a c valid. (valid.0, pass _ ErrorKind.malformed_module o a c (ap not valid.1)))
