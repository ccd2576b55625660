-- ===== src/Transport/Format/Words.antt =====
-- The formats of bytes and little-endian words, and of what is decoded from one of them.
use native.Mathlib.Nat.{pow-suc}
use neri.Prelude.{
  ℕ, zero, suc, ◌+◌, ◌*◌, ◌/◌, ◌%◌, ◌^◌, ◌≤◌, ◌<◌, ◌≡◌, refl, sym, ap, subst, ◌∙◌, Bool, [], ◌∷◌,
  ◌++◌, arith, length, length-append, take, drop, take-append-drop, length-take, get_or, ltb,
  if◌then◌else◌, Bool-cases, inl, inr,
}
use neri.Ir.Domain.{Domain}
use neri.Ir.Model.{Bytes}
use neri.Transport.Reader.{
  Cursor, ok, continue, ◌>>=◌, pure, fail, fail_if, bytes, read_le, u8, u16, u32, u64,
}
use neri.Transport.Cursor.{boolean, model_id, decode_contiguous_tag, tag_u8}
use neri.Transport.Format.Basic.{
  IsBytes, Format, ok_value, ok_cursor, Always, Reads, via, via-Reads, offset-Reads,
}

-- `n` bytes as they stand.
unfoldable pub raw : ℕ → Format Bytes
raw n = record { encode = λ bs. bs; Valid = λ bs. (length bs ≡ n) × IsBytes bs }

pub IsBytes-take : (n : ℕ) (bs : Bytes) → IsBytes bs → IsBytes (take n bs)
IsBytes-take zero bs h = tt
IsBytes-take (suc n) [] h = tt
IsBytes-take (suc n) (b ∷ bs) h = (h.0, IsBytes-take n bs h.1)

pub take-append : (bs t : Bytes) → take (length bs) (bs ++ t) ≡ bs
take-append [] t = refl
take-append (b ∷ bs) t = rw (take-append bs t)

pub drop-append : (bs t : Bytes) → drop (length bs) (bs ++ t) ≡ t
drop-append [] t = refl
drop-append (b ∷ bs) t = drop-append bs t

pub bytes-Reads : (n : ℕ) → Reads (bytes n) (raw n)
unfolding bytes raw fail
bytes-Reads n = record {
  sound = λ c v c' all e. elim (Bool-cases (ltb (length c.rest) n)) [
    | inl short ↦ absurd (ground arith)
    | inr long ↦
        let fits : n ≤ length c.rest = ground arith in
        let same : take n c.rest ≡ v = ground arith in
        let rest : drop n c.rest ≡ c'.rest = ground arith in
        (
          tt,
          (
            rw (← same) (omega (arith, length-take n c.rest)),
            rw (← same) (IsBytes-take n c.rest all),
          ),
          (rw (← same, ← rest) (sym (take-append-drop n c.rest))),
          (rw (← same) (ground (arith, length-take n c.rest))),
        )
  ];
  complete = λ v t p hv valid.
      ground (arith, valid.0, take-append v t, drop-append v t, length-append v t);
}

-- The `n` low digits of a number, to the base 256.
unfoldable pub le_bytes : ℕ → ℕ → Bytes
le_bytes zero v = []
le_bytes (suc n) v = (v % 256) ∷ le_bytes n (v / 256)

unfoldable pub word : ℕ → Format ℕ
word n = record { encode = le_bytes n; Valid = λ v. v < 256 ^ n }

pub length-le_bytes : (n v : ℕ) → length (le_bytes n v) ≡ n
unfolding le_bytes
length-le_bytes zero v = refl
length-le_bytes (suc n) v = ap suc (length-le_bytes n (v / 256))

le_bytes-IsBytes : (n v : ℕ) → IsBytes (le_bytes n v)
unfolding le_bytes
le_bytes-IsBytes zero v = tt
le_bytes-IsBytes (suc n) v = (omega arith, le_bytes-IsBytes n (v / 256))

read_le-lt : (bs : Bytes) → IsBytes bs → read_le bs < 256 ^ length bs
unfolding read_le
read_le-lt [] h = omega arith
read_le-lt (b ∷ bs) h = omega (arith, pow-suc 256 (length bs), read_le-lt bs h.1)

pub read_le-le_bytes : (n v : ℕ) → v < 256 ^ n → read_le (le_bytes n v) ≡ v
unfolding read_le le_bytes
read_le-le_bytes zero v h = omega arith
read_le-le_bytes (suc n) v h =
    let e : 256 ^ suc n ≡ 256 * 256 ^ n = omega (arith, pow-suc 256 n) in
    omega (arith, read_le-le_bytes n (v / 256) (omega arith))

pub le_bytes-read_le :
    (n : ℕ) (bs : Bytes) → length bs ≡ n → IsBytes bs → le_bytes n (read_le bs) ≡ bs
unfolding read_le le_bytes
le_bytes-read_le zero [] e h = refl
le_bytes-read_le zero (b ∷ bs) e h = absurd (omega arith)
le_bytes-read_le (suc n) [] e h = absurd (omega arith)
le_bytes-read_le (suc n) (b ∷ bs) e h =
    let low : (b + 256 * read_le bs) % 256 ≡ b = omega arith in
    let high : (b + 256 * read_le bs) / 256 ≡ read_le bs = omega arith in
    rw (low, high, le_bytes-read_le n bs (omega arith) h.1)

-- `n` bytes read as a little-endian number.
word-Reads : (n : ℕ) → Reads (bytes n >>= λ contents. pure (read_le contents)) (word n)
unfolding word raw via pure
word-Reads n =
    via-Reads (le_bytes n) (λ v. v < 256 ^ n) (λ contents. pure (read_le contents)) (bytes-Reads n)
      (λ y c a c' valid e. (
        (subst (λ (v : ℕ). v < 256 ^ n) (ok_value e) (rw (← valid.0) (read_le-lt y valid.1))),
        (ap (le_bytes n) (sym (ok_value e)) ∙ le_bytes-read_le n y valid.0 valid.1),
        sym (ok_cursor e),
      ))
      (λ a c valid. ((length-le_bytes n a, le_bytes-IsBytes n a), rw (read_le-le_bytes n a valid)))

pub u16-Reads : Reads u16 (word 2)
unfolding u16
u16-Reads = word-Reads 2

pub u32-Reads : Reads u32 (word 4)
unfolding u32
u32-Reads = word-Reads 4

pub u64-Reads : Reads u64 (word 8)
unfolding u64
u64-Reads = word-Reads 8

u8_back :
    (y : Bytes) (a : ℕ)
    → length y ≡ 1
    → IsBytes y
    → get_or y 0 0 ≡ a
    → (a < 256) × ((a % 256) ∷ [] ≡ y)
u8_back [] a l h e = absurd (omega arith)
u8_back (b ∷ []) a l h e = (omega arith, ground arith)
u8_back (b ∷ d ∷ y) a l h e = absurd (omega arith)

pub u8-Reads : Reads u8 (word 1)
unfolding u8 word raw via pure le_bytes
u8-Reads =
    via-Reads (le_bytes 1) (λ v. v < 256 ^ 1) (λ contents. pure (get_or contents 0 0))
      (bytes-Reads 1)
      (λ y c a c' valid e.
        let (low, same) = u8_back y a valid.0 valid.1 (ok_value e) in
        (low, same, sym (ok_cursor e)))
      (λ a c valid. ((refl, (omega arith, tt)), ground arith))

-- The numbers of the model: 32 bits, of which the highest is clear.
unfoldable pub model_number : Format ℕ
unfolding via word
model_number = via (λ v. v) (word 4) (λ v. v ≤ 0x7fff_ffff)

pub model_id-Reads : Reads model_id model_number
unfolding model_id model_number via word fail_if fail pure ◌>>=◌ continue
model_id-Reads = offset-Reads λ o.
    via-Reads (λ v. v) (λ v. v ≤ 0x7fff_ffff) _ u32-Reads (λ y c a c' valid e. ground arith)
      (λ a c valid. ground arith)

-- 0 and 1, and no other byte.
unfoldable pub flag_byte : Format Bool
unfolding via word
flag_byte = via (λ b. if b then 1 else 0) (word 1) Always

pub boolean-Reads : Reads boolean flag_byte
unfolding boolean flag_byte via word fail_if fail pure ◌>>=◌ continue
boolean-Reads = offset-Reads λ o.
    via-Reads (λ b. if b then 1 else 0) Always _ u8-Reads (λ y c a c' valid e. ground arith)
      (λ a c valid. ground arith)

-- An enumerator of a contiguous domain as a word of `n` bytes.
unfoldable pub tag_word : {T : Type 0} → ℕ → Domain T → Format T
unfolding via word
tag_word n d = via d.wire (word n) (λ t. d.wire t < 256 ^ n)

module _ {T : Type 0} (d : Domain T) where
  pub decode_contiguous_tag-back :
      (o y : ℕ) (c : Cursor) (a : T) (c' : Cursor)
      → decode_contiguous_tag d y o c ≡ ok (a, c')
      → (d.wire a ≡ y) × (c' ≡ c)
  unfolding decode_contiguous_tag fail_if fail pure ◌>>=◌ continue
  decode_contiguous_tag-back o y c a c' e = ground (arith, d.wire-cast y)

  pub decode_contiguous_tag-forth :
      (o : ℕ) (a : T) (c : Cursor) → decode_contiguous_tag d (d.wire a) o c ≡ ok (a, c)
  unfolding decode_contiguous_tag fail_if fail pure ◌>>=◌ continue
  decode_contiguous_tag-forth o a c = ground (arith, d.first-le a, d.le-last a, d.cast-wire a)

  pub tag_u8-Reads : Reads (tag_u8 d) (tag_word 1 d)
  unfolding tag_u8 tag_word via word
  tag_u8-Reads = offset-Reads λ o.
      via-Reads d.wire (λ t. d.wire t < 256 ^ 1) (λ value. decode_contiguous_tag d value o) u8-Reads
        (λ y c a c' valid e.
          let (same, stay) = decode_contiguous_tag-back o y c a c' e in (rw same valid, same, stay))
        (λ a c valid. (valid, decode_contiguous_tag-forth o a c))
