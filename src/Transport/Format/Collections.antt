-- ===== src/Transport/Format/Collections.antt =====
-- The formats of vectors, options and fields that a feature adds.
use native.Mathlib.Nat.{add-zero}
use neri.Prelude.{
  ℕ, zero, suc, ◌+◌, ◌≤◌, ◌≡◌, refl, ap, subst, Bool, true, false, List, [], ◌∷◌, ◌++◌, Option,
  none, some, arith, length, length-append, if◌then◌else◌,
}
use neri.Ir.Model.{Bytes}
use neri.Transport.Reader.{Context, Cursor, Reader, ok, ◌>>=◌, pure}
use neri.Transport.Cursor.{count, read_n, read_vector, read_optional}
use neri.Transport.Declarations.{read_when}
use neri.Transport.Format.Basic.{
  IsBytes-suffix, Format, cursor, ReadsWhen, Reads, done, part, pure-Reads, part-Reads,
  restate-Reads, >>=-eq-ok, >>=-ok, sound-join, complete-join, ok_value, pure_pair, ok_cursor,
  ok_pair, IsBytes,
}
use neri.Transport.Format.Words.{flag_byte, boolean-Reads}
use neri.Transport.Format.Containers.{size_within, bounded-Reads}

module _ {A : Type 0} where
  abbrev pub encode_items : (A → Bytes) → List A → Bytes
  encode_items e [] = []
  encode_items e (a ∷ as') = e a ++ encode_items e as'

  abbrev pub All : (A → Type 0) → List A → Type 0
  All P [] = Unit
  All P (a ∷ as') = P a × All P as'

module _ {A : Type 0} where
  -- The items one after the other.
  unfoldable pub items : Format A → Format (List A)
  items f = record { encode = encode_items f.encode; Valid = All f.Valid }

  read_n_sound :
      {r : Reader A} {f : Format A} (n : ℕ)
      → Reads r f
      → (c : Cursor) (vs : List A) (c' : Cursor) → IsBytes c.rest
      → read_n n r c ≡ ok (vs, c')
      → (length vs ≡ n)
        × All f.Valid vs
        × (c.rest ≡ encode_items f.encode vs ++ c'.rest)
        × (c'.position ≡ c.position + length (encode_items f.encode vs))
  unfolding read_n pure
  read_n_sound {f} zero first c [] c' bytes e = (
    refl,
    tt,
    ap (λ (d : Cursor). d.rest) (ok_cursor e),
    omega (arith, ap (λ (d : Cursor). d.position) (ok_cursor e)),
  )
  read_n_sound {f} zero first c (v ∷ vs) c' bytes e = absurd (cc (ok_value e))
  read_n_sound {r} {f} (suc n) first c vs c' bytes e =
      let (y, d, em, ek) = >>=-eq-ok r _ c vs c' e in
      let (_, valid, erest, epos) = first.sound c y d bytes em in
      let (ys, d', em', ek') = >>=-eq-ok (read_n n r) _ d vs c' ek in
      let (len, valids, erest', epos') =
        read_n_sound n first d ys d' (IsBytes-suffix c.rest (f.encode y) d.rest bytes erest) em' in
      let both =
        sound-join c d d' (f.encode y) (encode_items f.encode ys) erest epos erest' epos' in
      subst
        (λ (w : List A × Cursor).
          (length w.0 ≡ suc n)
          × All f.Valid w.0
          × (c.rest ≡ encode_items f.encode w.0 ++ w.1.rest)
          × (w.1.position ≡ c.position + length (encode_items f.encode w.0)))
        (ok_pair ek') (ap suc len, (valid, valids), both.0, both.1)

  read_n_complete :
      {r : Reader A} {f : Format A}
      → Reads r f
      → (vs : List A) (t : Bytes) (p : ℕ) → All f.Valid vs
      → read_n (length vs) r (cursor (encode_items f.encode vs ++ t) p)
        ≡ ok (vs, cursor t (p + length (encode_items f.encode vs)))
  unfolding read_n pure
  read_n_complete first [] t p valid = rw add-zero refl
  read_n_complete {r} {f} first (v ∷ vs) t p valid =
      complete-join r _ (f.encode v) (encode_items f.encode vs) t p v (v ∷ vs)
        (first.complete v _ p tt valid.0)
        (>>=-ok (read_n (length vs) r) _ _ vs _
          (read_n_complete first vs t (p + length (f.encode v)) valid.1))

  pub read_n-Reads :
      {r : Reader A} {f : Format A} (n : ℕ)
      → Reads r f
      → ReadsWhen (λ vs. Unit {0} × (length vs ≡ n)) (read_n n r) (items f)
  unfolding items
  read_n-Reads {r} {f} n first = record {
    sound = λ c v c' bytes e.
        let (len, valid, erest, epos) = read_n_sound n first c v c' bytes e in
        ((tt, len), valid, erest, epos);
    complete = λ v t p hv valid.
        subst
          (λ m.
            read_n m r (cursor (encode_items f.encode v ++ t) p)
            ≡ ok (v, cursor t (p + length (encode_items f.encode v))))
          hv.1 (read_n_complete first v t p valid);
  }

  -- A vector behind its length.
  unfoldable pub vector : Context → Format A → Format (List A)
  vector x f = part length (size_within x.max_collection_count) (items f)

  pub length-le-items :
      (f : Format A)
      → ((a : A) → f.Valid a → 1 ≤ length (f.encode a))
      → (vs : List A) → All f.Valid vs
      → length vs ≤ length (encode_items f.encode vs)
  length-le-items f some_byte [] h = omega arith
  length-le-items f some_byte (v ∷ vs) h = omega (
    arith,
    length-append (f.encode v) (encode_items f.encode vs),
    some_byte v h.0,
    length-le-items f some_byte vs h.1,
  )

  pub read_vector-Reads :
      (x : Context) {r : Reader A} {f : Format A}
      → ((a : A) → f.Valid a → 1 ≤ length (f.encode a))
      → Reads r f
      → Reads (read_vector x r) (vector x f)
  unfolding read_vector count vector
  read_vector-Reads x {r} {f} some_byte first =
      bounded-Reads x.max_collection_count length {g = items f}
        (unfold items in λ a hc valid. length-le-items f some_byte a valid)
        (λ n. read_n-Reads n first)

  abbrev is_some : Option A → Bool
  is_some none = false
  is_some (some a) = true

  abbrev option_bytes : (A → Bytes) → Option A → Bytes
  option_bytes e none = []
  option_bytes e (some a) = e a

  abbrev Whenever : (A → Type 0) → Option A → Type 0
  Whenever P none = Unit
  Whenever P (some a) = P a

  abbrev present : Format A → Format (Option A)
  present f = record { encode = option_bytes f.encode; Valid = Whenever f.Valid }

  -- A byte that says whether the value follows.
  unfoldable pub optional : Format A → Format (Option A)
  optional f = part is_some flag_byte (present f)

  present_sound :
      {r : Reader A} {f : Format A}
      → Reads r f
      → (c : Cursor) (o : Option A) (c' : Cursor) → IsBytes c.rest
      → (r >>= λ value. pure (some value)) c ≡ ok (o, c')
      → (is_some o ≡ true)
        × Whenever f.Valid o
        × (c.rest ≡ option_bytes f.encode o ++ c'.rest)
        × (c'.position ≡ c.position + length (option_bytes f.encode o))
  unfolding pure
  present_sound {r} {f} first c o c' bytes e =
      let (y, d, em, ek) = >>=-eq-ok r _ c o c' e in
      let (_, valid, erest, epos) = first.sound c y d bytes em in
      subst
        (λ (w : Option A × Cursor).
          (is_some w.0 ≡ true)
          × Whenever f.Valid w.0
          × (c.rest ≡ option_bytes f.encode w.0 ++ w.1.rest)
          × (w.1.position ≡ c.position + length (option_bytes f.encode w.0)))
        (ok_pair ek) (refl, valid, erest, epos)

  present_complete :
      {r : Reader A} {f : Format A}
      → Reads r f
      → (o : Option A) (t : Bytes) (p : ℕ) → is_some o ≡ true
      → Whenever f.Valid o
      → (r >>= λ value. pure (some value)) (cursor (option_bytes f.encode o ++ t) p)
        ≡ ok (o, cursor t (p + length (option_bytes f.encode o)))
  unfolding pure
  present_complete first none t p h valid = cc
  present_complete {r} first (some a) t p h valid = >>=-ok r _ _ a _ (first.complete a t p tt valid)

  absent : (o : Option A) → is_some o ≡ false → o ≡ none
  absent none h = refl
  absent (some a) h = cc

  present-Reads :
      {r : Reader A} {f : Format A} (b : Bool)
      → Reads r f
      → ReadsWhen
          (λ o. Unit {0} × (is_some o ≡ b))
          (if b then (r >>= λ value. pure (some value)) else pure none)
          (present f)
  present-Reads true first = record {
    sound = λ c v c' bytes e.
        let (there, valid, erest, epos) = present_sound first c v c' bytes e in
        ((tt, there), valid, erest, epos);
    complete = λ v t p hv valid. present_complete first v t p hv.1 valid;
  }
  present-Reads {f} false first = record {
    sound = λ c v c' bytes e.
        subst
          (λ (w : Option A × Cursor).
            (Unit {0} × (is_some w.0 ≡ false))
            × Whenever f.Valid w.0
            × (c.rest ≡ option_bytes f.encode w.0 ++ w.1.rest)
            × (w.1.position ≡ c.position + length (option_bytes f.encode w.0)))
          (pure_pair none v c c' e) ((tt, refl), tt, refl, omega arith);
    complete = λ v t p hv valid. rw (absent v hv.1) (unfold pure in rw add-zero refl);
  }

  pub read_optional-Reads :
      {r : Reader A} {f : Format A} → Reads r f → Reads (read_optional r) (optional f)
  unfolding read_optional optional
  read_optional-Reads first = part-Reads boolean-Reads (λ b valid. present-Reads b first)

  -- Bytes that are there if a feature is; without it the value is fixed.
  unfoldable pub only : Bool → Format A → A → Format A
  only true f missing = f
  only false f missing = record { encode = λ a. []; Valid = λ a. a ≡ missing }

  pub read_when-Reads :
      {r : Reader A} {f : Format A} (b : Bool) (missing : A)
      → Reads r f
      → Reads (read_when b r missing) (only b f missing)
  unfolding read_when only
  read_when-Reads true missing first = first
  read_when-Reads false missing first =
      restate-Reads _ (pure-Reads {C = λ a. a ≡ missing} missing refl (λ b e. e))
        (unfold done in λ a d valid. refl) (λ a d valid. (tt, d))
        (λ a c valid. (valid, unfold done in tt))
