-- ===== src/Transport/Exact.antt =====
-- The payload reader against the wire format.
use neri.Prelude.{ℕ, ◌+◌, ◌≡◌, refl, sym, ap, ◌∙◌, subst, [], ◌∷◌, ◌++◌, append-nil, arith, length}
use neri.Ir.Model.{Bytes, IrModule}
use neri.Transport.Reader.{
  ErrorKind, Context, Cursor, ok, err, continue, ◌>>=◌, remaining, offset, fail, fail_if, pure,
}
use neri.Transport.Cursor.{require_end}
use neri.Transport.Payload.{read_payload, read_module}
use neri.Transport.Format.Basic.{IsBytes, cursor, >>=-eq-ok, >>=-ok, >>=-err, pure_pair}
use neri.Transport.Wire.Payload.{payload, read_payload-Reads}

end-back :
    (c : Cursor) (u : Unit {0}) (d : Cursor) → require_end c ≡ ok (u, d) → (c.rest ≡ []) × (d ≡ c)
unfolding require_end remaining offset fail_if fail pure ◌>>=◌ continue
end-back c u d e = ground (arith, empty c.rest)
  where
    empty : (bs : Bytes) → length bs ≡ 0 → bs ≡ []
    empty [] h = refl
    empty (b ∷ bs) h = absurd (omega arith)

end-forth : (p : ℕ) → require_end (cursor [] p) ≡ ok (tt, cursor [] p)
unfolding require_end remaining offset fail_if fail pure ◌>>=◌ continue
end-forth p = refl

end-trailing :
    (b : ℕ) (bs : Bytes) (p : ℕ)
    → require_end (cursor (b ∷ bs) p)
      ≡ err (record { code = ErrorKind.malformed_module; byte_offset = p })
unfolding require_end remaining offset fail_if fail pure ◌>>=◌ continue
end-trailing b bs p = ground arith

-- A payload of bytes that the reader accepts is the encoding of the module that it returns, and
-- the module is one of the format.
pub read_module_sound :
    (x : Context) (bs : Bytes) (p : ℕ) (m : IrModule) (c : Cursor)
    → IsBytes bs
    → read_module x (cursor bs p) ≡ ok (m, c)
    → (payload x).Valid m × (bs ≡ (payload x).encode m)
unfolding read_module
read_module_sound x bs p m c bytes e =
    let (n, d, er, ek) = >>=-eq-ok (read_payload x) _ (cursor bs p) m c e in
    let (u, d', ee, ep) = >>=-eq-ok require_end _ d m c ek in
    let (last, _) = end-back d u d' ee in
    let (_, valid, erest, _) = (read_payload-Reads x).sound (cursor bs p) n d bytes er in
    let same = module_of n m d' c ep in
    (
      subst (payload x).Valid same valid,
      (erest
          ∙ ap (◌++◌ ((payload x).encode n)) last
          ∙ append-nil ((payload x).encode n)
          ∙ ap (payload x).encode same),
    )
  where
    module_of : (n m : IrModule) (d c : Cursor) → pure n d ≡ ok (m, c) → n ≡ m
    module_of n m d c e = ap (λ (w : IrModule × Cursor). w.0) (pure_pair n m d c e)

-- The encoding of a module of the format is read as that module, to the last byte.
pub read_module_complete :
    (x : Context) (m : IrModule) (p : ℕ)
    → (payload x).Valid m
    → read_module x (cursor ((payload x).encode m) p)
      ≡ ok (m, cursor [] (p + length ((payload x).encode m)))
unfolding read_module pure
read_module_complete x m p valid =
    let first =
      subst
        (λ bs. read_payload x (cursor bs p) ≡ ok (m, cursor [] (p + length ((payload x).encode m))))
        (append-nil ((payload x).encode m)) ((read_payload-Reads x).complete m [] p tt valid) in
    >>=-ok (read_payload x) _ _ m _ first ∙ >>=-ok require_end _ _ tt _ (end-forth _)

-- No two payloads are read as the same module: the encoding is canonical.
pub read_module_injective :
    (x : Context) (bs cs : Bytes) (p q : ℕ) (m : IrModule) (c d : Cursor)
    → IsBytes bs
    → IsBytes cs
    → read_module x (cursor bs p) ≡ ok (m, c)
    → read_module x (cursor cs q) ≡ ok (m, d)
    → bs ≡ cs
read_module_injective x bs cs p q m c d hb hc eb ec =
    (read_module_sound x bs p m c hb eb).1 ∙ sym (read_module_sound x cs q m d hc ec).1

-- Bytes behind a module are refused, at the offset of the first of them.
pub read_module_trailing :
    (x : Context) (m : IrModule) (b : ℕ) (bs : Bytes) (p : ℕ)
    → (payload x).Valid m
    → read_module x (cursor ((payload x).encode m ++ b ∷ bs) p)
      ≡ err (record {
        code = ErrorKind.malformed_module;
        byte_offset = p + length ((payload x).encode m);
      })
unfolding read_module
read_module_trailing x m b bs p valid =
    >>=-ok (read_payload x) _ _ m _ ((read_payload-Reads x).complete m (b ∷ bs) p tt valid)
    ∙ >>=-err require_end _ _ _ (end-trailing b bs _)
