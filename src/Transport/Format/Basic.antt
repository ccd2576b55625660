-- ===== src/Transport/Format/Basic.antt =====
-- Formats, and the readers of class `cursor` that decode exactly their bytes.
use neri.Prelude.{
  ℕ, subst, ◌+◌, ◌<◌, ◌≡◌, refl, sym, ap, ◌∙◌, Bool, false, [], ◌∷◌, ◌++◌, append_assoc, arith,
  length, length-append,
}
use native.Mathlib.Nat.{add-zero}
use neri.Ir.Model.{Bytes}
use neri.Transport.Reader.{
  ReaderError, Cursor, Result, Reader, ok, err, continue, ◌>>=◌, pure, offset,
}

abbrev pub IsBytes : Bytes → Type 0
IsBytes [] = Unit
IsBytes (b ∷ bs) = (b < 256) × IsBytes bs

pub IsBytes-suffix : (xs ys zs : Bytes) → IsBytes xs → xs ≡ ys ++ zs → IsBytes zs
IsBytes-suffix xs [] zs h e = subst_bytes e h
  where
    subst_bytes : xs ≡ zs → IsBytes xs → IsBytes zs
    subst_bytes e h = rw e at h
IsBytes-suffix [] (y ∷ ys) zs h e = cc
IsBytes-suffix (x ∷ xs) (y ∷ ys) zs h e = IsBytes-suffix xs ys zs h.1 (ground arith)

-- The bytes of a value, and which values the format holds.
pub record Format (A : Type 0) : Type 1 where
  pub encode : A → Bytes
  pub Valid : A → Type 0

abbrev pub cursor : Bytes → ℕ → Cursor
cursor bs p = record { rest = bs; position = p }

-- Of the values with `C`, the reader accepts those of the format from their bytes, and no others
-- from any bytes; it leaves the bytes behind, and moves the position by what it took.
pub record ReadsWhen {A : Type 0} (C : A → Type 0) (r : Reader A) (f : Format A) : Type 0 where
  pub sound :
      (c : Cursor) (v : A) (c' : Cursor)
      → IsBytes c.rest
      → r c ≡ ok (v, c')
      → C v
        × f.Valid v
        × (c.rest ≡ f.encode v ++ c'.rest)
        × (c'.position ≡ c.position + length (f.encode v))
  pub complete :
      (v : A) (t : Bytes) (p : ℕ)
      → C v
      → f.Valid v
      → r (cursor (f.encode v ++ t) p) ≡ ok (v, cursor t (p + length (f.encode v)))

abbrev pub Always : {A : Type 0} → A → Type 0
Always a = Unit

abbrev pub Reads : {A : Type 0} → Reader A → Format A → Type 0
Reads r f = ReadsWhen Always r f

-- A format without bytes.
unfoldable pub done : {A : Type 0} → Format A
done = record { encode = λ a. []; Valid = λ a. Unit }

-- The part `π` of a value by `f`, then the rest of it by `g`.
unfoldable pub part : {A X : Type 0} → (A → X) → Format X → Format A → Format A
part π f g = record {
  encode = λ a. f.encode (π a) ++ g.encode a;
  Valid = λ a. f.Valid (π a) × g.Valid a;
}

-- The values of `f` that pass a test.
unfoldable pub refine : {A : Type 0} → Format A → (A → Bool) → Format A
refine f bad = record { encode = f.encode; Valid = λ a. f.Valid a × (bad a ≡ false) }

pub >>=-eq-ok :
    {A B : Type 0} (m : Reader A) (k : A → Reader B) (c : Cursor) (b : B) (c' : Cursor)
    → (m >>= k) c ≡ ok (b, c')
    → (a : A) × (d : Cursor) × (m c ≡ ok (a, d)) × (k a d ≡ ok (b, c'))
unfolding ◌>>=◌ continue
>>=-eq-ok {A} {B} m k c b c' h = go (m c) refl (h)
  where
    go :
        (r : Result (A × Cursor))
        → m c ≡ r
        → continue r k ≡ ok (b, c')
        → (a : A) × (d : Cursor) × (m c ≡ ok (a, d)) × (k a d ≡ ok (b, c'))
    go (ok (a, d)) e k = (a, d, e, k)
    go (err x) e k = cc

pub >>=-ok :
    {A B : Type 0} (m : Reader A) (k : A → Reader B) (c : Cursor) (a : A) (d : Cursor)
    → m c ≡ ok (a, d)
    → (m >>= k) c ≡ k a d
unfolding ◌>>=◌ continue
>>=-ok m k c a d h = rw h

pub >>=-err :
    {A B : Type 0} (m : Reader A) (k : A → Reader B) (c : Cursor) (e : ReaderError)
    → m c ≡ err e
    → (m >>= k) c ≡ err e
unfolding ◌>>=◌ continue
>>=-err m k c e h = rw h

pub ok_value :
    {A : Type 0} {a b : A} {c d : Cursor}
    → ◌≡◌ {A = Result (A × Cursor)} (ok (a, c)) (ok (b, d))
    → a ≡ b
ok_value e = cc

pub ok_cursor :
    {A : Type 0} {a b : A} {c d : Cursor}
    → ◌≡◌ {A = Result (A × Cursor)} (ok (a, c)) (ok (b, d))
    → c ≡ d
ok_cursor e = cc

pub ok_pair :
    {A : Type 0} {a b : A} {c d : Cursor}
    → ◌≡◌ {A = Result (A × Cursor)} (ok (a, c)) (ok (b, d))
    → ◌≡◌ {A = A × Cursor} (a, c) (b, d)
ok_pair e = cc

pub pure_pair :
    {A : Type 0} (a b : A) (c d : Cursor)
    → pure a c ≡ ok (b, d)
    → ◌≡◌ {A = A × Cursor} (a, c) (b, d)
unfolding pure
pure_pair a b c d e = ok_pair e

pub pure-Reads :
    {A : Type 0} {C : A → Type 0} (a : A)
    → C a
    → ((b : A) → C b → b ≡ a)
    → ReadsWhen C (pure a) done
unfolding pure done
pure-Reads {C} a h unique = record {
  sound = λ c v c' bytes e. (
    subst C (ok_value e) h,
    tt,
    ap (λ (d : Cursor). d.rest) (ok_cursor e),
    omega (arith, ap (λ (d : Cursor). d.position) (ok_cursor e)),
  );
  complete = λ v t p hv valid. rw (unique v hv, add-zero) refl;
}

-- Two stretches of bytes, one after the other, are one.
pub sound-join :
    (c d c' : Cursor) (xs ys : Bytes)
    → c.rest ≡ xs ++ d.rest
    → d.position ≡ c.position + length xs
    → d.rest ≡ ys ++ c'.rest
    → c'.position ≡ d.position + length ys
    → (c.rest ≡ (xs ++ ys) ++ c'.rest) × (c'.position ≡ c.position + length (xs ++ ys))
sound-join c d c' xs ys e p e' p' =
    ((e ∙ ap (◌++◌ xs) e' ∙ sym (append_assoc xs ys c'.rest)), omega (arith, length-append xs ys))

-- The same of readers that succeed.
pub complete-join :
    {A X : Type 0} (m : Reader X) (k : X → Reader A) (xs ys t : Bytes) (p : ℕ) (y : X) (v : A)
    → m (cursor (xs ++ (ys ++ t)) p) ≡ ok (y, cursor (ys ++ t) (p + length xs))
    → k y (cursor (ys ++ t) (p + length xs)) ≡ ok (v, cursor t (p + length xs + length ys))
    → (m >>= k) (cursor ((xs ++ ys) ++ t) p) ≡ ok (v, cursor t (p + length (xs ++ ys)))
complete-join m k xs ys t p y v e e' = rw (append_assoc xs ys t) (
    >>=-ok m k _ y _ e
    ∙ e'
    ∙ ap (λ (n : ℕ). ok (v, cursor t n)) (omega (arith, length-append xs ys)))

-- The rule for a part of a record: what is read is that part of the value, and the rest of the
-- reader meets the rest of the format.
pub part-When :
    {A X : Type 0} {C : A → Type 0} {D : X → Type 0} {π : A → X} {f : Format X} {g : Format A}
    {m : Reader X} {k : X → Reader A}
    → ReadsWhen D m f
    → ((a : A) → C a → D (π a))
    → ((y : X) → D y → f.Valid y → ReadsWhen (λ a. C a × (π a ≡ y)) (k y) g)
    → ReadsWhen C (m >>= k) (part π f g)
unfolding part
part-When {A} {X} {C} {D} {π} {f} {g} {m} {k} first known next = record {
  sound = λ c v c' bytes e.
      let (y, d, em, ek) = >>=-eq-ok m k c v c' e in
      let (dy, valid, erest, epos) = first.sound c y d bytes em in
      let (cv, valid_rest, erest', epos') =
        (next y dy valid).sound d v c' (IsBytes-suffix c.rest (f.encode y) d.rest bytes erest) ek in
      let same = sym cv.1 in
      let both =
        sound-join c d c' (f.encode (π v)) (g.encode v)
          (subst (λ z. c.rest ≡ f.encode z ++ d.rest) same erest)
          (subst (λ z. d.position ≡ c.position + length (f.encode z)) same epos) erest' epos' in
      (cv.0, (subst f.Valid same valid, valid_rest), both.0, both.1);
  complete = λ v t p hv valid.
      complete-join m k (f.encode (π v)) (g.encode v) t p (π v) v
        (first.complete (π v) (g.encode v ++ t) p (known v hv) valid.0)
        ((next (π v) (known v hv) valid.0).complete v t _ (hv, refl) valid.1);
}

pub part-Reads :
    {A X : Type 0} {C : A → Type 0} {π : A → X} {f : Format X} {g : Format A} {m : Reader X}
    {k : X → Reader A}
    → Reads m f
    → ((y : X) → f.Valid y → ReadsWhen (λ a. C a × (π a ≡ y)) (k y) g)
    → ReadsWhen C (m >>= k) (part π f g)
part-Reads first next = part-When first (λ a h. tt) (λ y d valid. next y valid)

-- A value that is decoded from one of another format: its bytes are those of `h a`.
unfoldable pub via : {A X : Type 0} → (A → X) → Format X → (A → Type 0) → Format A
via h f V = record { encode = λ a. f.encode (h a); Valid = V }

-- The rule for a value that is decoded by a continuation which reads nothing more.
pub via-Reads :
    {A X : Type 0} (h : A → X) {f : Format X} (V : A → Type 0) {m : Reader X} (k : X → Reader A)
    → Reads m f
    → ((y : X) (c : Cursor) (a : A) (c' : Cursor)
        → f.Valid y
        → k y c ≡ ok (a, c')
        → V a × (h a ≡ y) × (c' ≡ c))
    → ((a : A) (c : Cursor) → V a → f.Valid (h a) × (k (h a) c ≡ ok (a, c)))
    → Reads (m >>= k) (via h f V)
unfolding via
via-Reads h {f} V {m} k first back forth = record {
  sound = λ c v c' bytes e.
      let (y, d, em, ek) = >>=-eq-ok m k c v c' e in
      let (_, valid, erest, epos) = first.sound c y d bytes em in
      let (valid', same, stay) = back y d v c' valid ek in
      (tt, valid', rw (same, stay) erest, rw (same, stay) epos);
  complete = λ v t p hv valid.
      let (valid', run) = forth v (cursor t (p + length (f.encode (h v)))) valid in
      >>=-ok m k _ (h v) _ (first.complete (h v) t p tt valid') ∙ run;
}

pub offset-Reads :
    {A : Type 0} {C : A → Type 0} {k : ℕ → Reader A} {f : Format A}
    → ((o : ℕ) → ReadsWhen C (k o) f)
    → ReadsWhen C (offset >>= k) f
unfolding ◌>>=◌ continue offset
offset-Reads next = record {
  sound = λ c v c' bytes e. (next c.position).sound c v c' bytes e;
  complete = λ v t p hv valid. (next p).complete v t p hv valid;
}

-- A format stated otherwise: the same bytes, and `C` and its values as those of the other.
pub restate-Reads :
    {A : Type 0} {C D : A → Type 0} {r : Reader A} {f : Format A} (g : Format A)
    → ReadsWhen D r f
    → ((a : A) → D a → f.Valid a → f.encode a ≡ g.encode a)
    → ((a : A) → D a → f.Valid a → C a × g.Valid a)
    → ((a : A) → C a → g.Valid a → D a × f.Valid a)
    → ReadsWhen C r g
restate-Reads g reads same there back = record {
  sound = λ c v c' bytes e.
      let (hd, valid, erest, epos) = reads.sound c v c' bytes e in
      let (hc, valid') = there v hd valid in
      (hc, valid', rw (← same v hd valid) erest, rw (← same v hd valid) epos);
  complete = λ v t p hc valid.
      let (hd, valid') = back v hc valid in
      rw (← same v hd valid') (reads.complete v t p hd valid');
}

-- Two readers in a row, as one.
>>=-assoc :
    {A B X : Type 0} (m : Reader X) (j : X → Reader B) (k : B → Reader A) (c : Cursor)
    → ((m >>= j) >>= k) c ≡ (m >>= λ y. j y >>= k) c
unfolding ◌>>=◌ continue
>>=-assoc m j k c = ground arith

pub assoc-Reads :
    {A B X : Type 0} {C : A → Type 0} (m : Reader X) (j : X → Reader B) (k : B → Reader A)
    {f : Format A}
    → ReadsWhen C ((m >>= j) >>= k) f
    → ReadsWhen C (m >>= λ y. j y >>= k) f
assoc-Reads m j k reads = record {
  sound = λ c v c' bytes e. reads.sound c v c' bytes (>>=-assoc m j k c ∙ e);
  complete = λ v t p hv valid. sym (>>=-assoc m j k _) ∙ reads.complete v t p hv valid;
}
