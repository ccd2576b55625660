-- ===== src/Transport/Format/Choice.antt =====
-- The formats of values of several shapes, and of what a test refuses.
use neri.Prelude.{ℕ, ◌↔◌, ◌≡◌, refl, sym, subst, ◌∙◌, ◌+◌, ◌++◌, Bool, true, false, [], length}
use neri.Transport.Reader.{
  ErrorKind, Cursor, Reader, ok, continue, ◌>>=◌, ◌>>◌, pure, fail, fail_if,
}
use neri.Transport.Format.Basic.{Format, cursor, ReadsWhen, >>=-eq-ok, >>=-ok}

module _ {A : Type 0} where
  -- No value at all.
  unfoldable pub nothing : Format A
  nothing = record { encode = λ a. []; Valid = λ a. ⊥ }

  -- A failure reads no value.
  pub fail-Reads : {C : A → Type 0} (code : ErrorKind) (o : ℕ) → ReadsWhen C (fail code o) nothing
  unfolding nothing fail
  fail-Reads code o = record {
    sound = λ c v c' bytes e. absurd (cc e);
    complete = λ v t p hv valid. absurd valid;
  }

  -- The values of `g` that have the shape `P`.
  unfoldable pub shaped : (A → Type 0) → Format A → Format A
  shaped P g = record { encode = g.encode; Valid = λ a. P a × g.Valid a }

  pub shaped-Reads :
      {C P : A → Type 0} {r : Reader A} {g : Format A}
      → ReadsWhen P r g
      → ((a : A) → P a → C a)
      → ReadsWhen C r (shaped P g)
  unfolding shaped
  shaped-Reads reads implies = record {
    sound = λ c v c' bytes e.
        let (shape, valid, erest, epos) = reads.sound c v c' bytes e in
        (implies v shape, (shape, valid), erest, epos);
    complete = λ v t p hv valid. reads.complete v t p valid.0 valid.1;
  }

  -- The values of `g`, unless the test refuses them all.
  unfoldable pub gate : Bool → Format A → Format A
  gate refused g = record { encode = g.encode; Valid = λ a. (refused ≡ false) × g.Valid a }

  pub gate-Reads :
      {C : A → Type 0} {k : Reader A} {g : Format A} (refused : Bool) (code : ErrorKind) (o : ℕ)
      → ReadsWhen C k g
      → ReadsWhen C (fail_if refused code o >> k) (gate refused g)
  unfolding gate fail_if fail pure ◌>>=◌ continue
  gate-Reads true code o reads = record {
    sound = λ c v c' bytes e. absurd (cc e);
    complete = λ v t p hv valid. cc (valid.0);
  }
  gate-Reads false code o reads = record {
    sound = λ c v c' bytes e.
        let (hv, valid, erest, epos) = reads.sound c v c' bytes e in
        (hv, (refl, valid), erest, epos);
    complete = λ v t p hv valid. reads.complete v t p hv valid.1;
  }

  -- A step that reads nothing and succeeds just if `Q` holds.
  pub guarded-Reads :
      {C P : A → Type 0} {Q : Type 0} {m : Reader (Unit {0})} {k : Reader A} {g : Format A}
      → ((c : Cursor) (u : Unit {0}) (c' : Cursor) → m c ≡ ok (u, c') → Q × (c' ≡ c))
      → ((c : Cursor) → Q → m c ≡ ok (tt, c))
      → ((a : A) → C a → P a ↔ Q)
      → ReadsWhen C k g
      → ReadsWhen C (m >> k) (shaped P g)
  unfolding shaped
  guarded-Reads {m} {k} back forth same reads = record {
    sound = λ c v c' bytes e.
        let (u, d, em, ek) = >>=-eq-ok m (λ _. k) c v c' e in
        let (q, stay) = back c u d em in
        let (hv, valid, erest, epos) =
          reads.sound c v c' bytes (subst (λ z. k z ≡ ok (v, c')) stay ek) in
        (hv, ((same v hv).1 q, valid), erest, epos);
    complete = λ v t p hv valid.
        >>=-ok m (λ _. k) _ tt _ (forth _ ((same v hv).0 valid.0))
        ∙ reads.complete v t p hv valid.1;
  }

  -- A format for each kind of value.
  unfoldable pub choose : {K : Type 0} → (A → K) → (K → Format A) → Format A
  choose kind G = record { encode = λ a. (G (kind a)).encode a; Valid = λ a. (G (kind a)).Valid a }

  pub choose-Reads :
      {K : Type 0} {C : A → Type 0} {kind : A → K} (G : K → Format A) {r : Reader A} (y : K)
      → ReadsWhen (λ a. C a × (kind a ≡ y)) r (G y)
      → ReadsWhen (λ a. C a × (kind a ≡ y)) r (choose kind G)
  unfolding choose
  choose-Reads {kind} G {r} y reads = record {
    sound = λ c v c' bytes e.
        let (hv, valid, erest, epos) = reads.sound c v c' bytes e in
        let same = sym hv.1 in
        (
          hv,
          subst (λ z. (G z).Valid v) same valid,
          subst (λ z. c.rest ≡ (G z).encode v ++ c'.rest) same erest,
          subst (λ z. c'.position ≡ c.position + length ((G z).encode v)) same epos,
        );
    complete = λ v t p hv valid.
        subst
          (λ z. r (cursor ((G z).encode v ++ t) p) ≡ ok (v, cursor t (p + length ((G z).encode v))))
          (sym hv.1) (reads.complete v t p hv (subst (λ z. (G z).Valid v) hv.1 valid));
  }
