-- ===== src/Transport/Cursor.antt =====
-- native/codegen/ir_reader.cpp: the checked fields of `class cursor`, the generic vectors, options
-- and tags, and `validate_identity`.
use neri.Prelude.{
  ℕ, zero, suc, ◌*◌, Bool, true, false, not, ◌&&◌, ◌||◌, List, [], ◌∷◌, Option, none, some, ltb,
  leb, ◌==◌, if◌then◌else◌, length, bit_and, bit_or,
}
use neri.Ir.Domain.{Domain}
use neri.Ir.Model.{Bytes}
use neri.Transport.Reader.{
  ErrorKind, Context, Reader, ◌>>=◌, ◌>>◌, pure, fail_if, offset, remaining, bytes, u8, u32,
}

-- `strict_utf8`.
unfoldable pub strict_utf8 : Context → Bytes → Bool
strict_utf8 x [] = true
strict_utf8 x (b ∷ bs) = x.legal_utf8 (b ∷ bs)

-- `bytes[index++]`; strict UTF-8 has no sequence that runs over the end.
next_byte : Bytes → ℕ × Bytes
next_byte [] = (0, [])
next_byte (b ∷ bs) = (b, bs)

-- The continuation bytes of a scalar, `count` of them.
continuation : ℕ → ℕ → Bytes → ℕ × Bytes
unfolding next_byte
continuation zero value bs = (value, bs)
continuation (suc count) value bs =
    let (b, after) = next_byte bs in continuation count (bit_or (value * 64) (bit_and b 0x3f)) after

-- `decode_scalar`, of a text whose first byte is given.
decode_scalar : ℕ → Bytes → ℕ × Bytes
unfolding continuation
decode_scalar first bs =
    if ltb first 0x80
    then (first, bs)
    else if bit_and first 0xe0 == 0xc0
    then continuation 1 (bit_and first 0x1f) bs
    else if bit_and first 0xf0 == 0xe0
    then continuation 2 (bit_and first 0x0f) bs
    else continuation 3 (bit_and first 0x07) bs

unicode_whitespace : ℕ → Bool
unicode_whitespace v =
    v == 0x09
    || v == 0x0a
    || v == 0x0b
    || v == 0x0c
    || v == 0x0d
    || v == 0x20
    || v == 0x85
    || v == 0xa0
    || v == 0x1680
    || (leb 0x2000 v && leb v 0x200a)
    || v == 0x2028
    || v == 0x2029
    || v == 0x202f
    || v == 0x205f
    || v == 0x3000

control_character : ℕ → Bool
control_character v = leb v 0x1f || (leb 0x7f v && leb v 0x9f)

-- The loop of `validate_identity`: `none` at a control character, else whether a scalar is no
-- whitespace. Each round takes a byte, so the length is fuel enough.
scan_identity : ℕ → Bytes → Bool → Option Bool
unfolding decode_scalar unicode_whitespace control_character
scan_identity zero bs seen = some seen
scan_identity (suc fuel) [] seen = some seen
scan_identity (suc fuel) (b ∷ bs) seen =
    let (scalar, after) = decode_scalar b bs in
    let rest = scan_identity fuel after (seen || not (unicode_whitespace scalar)) in
    if control_character scalar then none else rest

-- `validate_identity` passes: no control character, and something that is no whitespace.
unfoldable pub is_identity : Bytes → Bool
unfolding scan_identity
is_identity bs = elim (scan_identity (length bs) bs false) [ none ↦ false | some seen ↦ seen ]

-- `cursor::boolean`.
unfoldable pub boolean : Reader Bool
unfolding ◌>>=◌ pure fail_if offset u8
boolean = do
  field_offset ← offset
  value ← u8
  fail_if (ltb 1 value) ErrorKind.malformed_module field_offset
  pure (value == 1)

-- `cursor::model_id`: the model's numbers are the non-negative `int32_t`.
unfoldable pub model_id : Reader ℕ
unfolding ◌>>=◌ pure fail_if offset u32
model_id = do
  field_offset ← offset
  value ← u32
  fail_if (ltb 0x7fff_ffff value) ErrorKind.malformed_module field_offset
  pure value

-- A `u32` with a reader limit that must fit in the remaining bytes: `cursor::count` with the
-- limit on collections and `cursor::length` with that on strings.
unfoldable pub bounded : ℕ → Reader ℕ
unfolding ◌>>=◌ pure fail_if offset remaining u32
bounded limit = do
  field_offset ← offset
  value ← u32
  fail_if (ltb limit value) ErrorKind.malformed_module field_offset
  left ← remaining
  fail_if (ltb left value) ErrorKind.malformed_module field_offset
  pure value

unfoldable pub count : Context → Reader ℕ
unfolding bounded
count x = bounded x.max_collection_count

unfoldable pub field_length : Context → Reader ℕ
unfolding bounded
field_length x = bounded x.max_string_bytes

-- `cursor::utf8`.
unfoldable pub utf8 : Context → Reader Bytes
unfolding ◌>>=◌ pure fail_if offset field_length bytes strict_utf8
utf8 x = do
  byte_count ← field_length x
  field_offset ← offset
  contents ← bytes byte_count
  fail_if (not (strict_utf8 x contents)) ErrorKind.invalid_source field_offset
  pure contents

-- `cursor::blob`.
unfoldable pub blob : Context → Reader Bytes
unfolding ◌>>=◌ pure field_length bytes
blob x = do size ← field_length x; contents ← bytes size; pure contents

-- `cursor::require_end`.
unfoldable pub require_end : Reader (Unit {0})
unfolding ◌>>=◌ fail_if offset remaining
require_end = do
  left ← remaining
  field_offset ← offset
  fail_if (not (left == 0)) ErrorKind.malformed_module field_offset

-- `validate_identity`, then the text itself: `payload_reader::identity`.
unfoldable pub identity : Context → Reader Bytes
unfolding ◌>>=◌ pure fail_if offset utf8 is_identity
identity x = do
  field_offset ← offset
  value ← utf8 x
  fail_if (not (is_identity value)) ErrorKind.malformed_module field_offset
  pure value

-- The loop of `read_vector`.
unfoldable pub read_n : {A : Type 0} → ℕ → Reader A → Reader (List A)
unfolding ◌>>=◌ pure
read_n zero read = pure []
read_n (suc n) read = do value ← read; values ← read_n n read; pure (value ∷ values)

unfoldable pub read_vector : {A : Type 0} → Context → Reader A → Reader (List A)
unfolding ◌>>=◌ count read_n
read_vector x read = do number ← count x; read_n number read

unfoldable pub read_optional : {A : Type 0} → Reader A → Reader (Option A)
unfolding ◌>>=◌ pure boolean
read_optional read = do
  present ← boolean
  if present then (do value ← read; pure (some value)) else pure none

unfoldable pub decode_contiguous_tag : {T : Type 0} → Domain T → ℕ → ℕ → Reader T
unfolding ◌>>=◌ pure fail_if
decode_contiguous_tag d tag field_offset = do
  fail_if (ltb tag d.first || ltb d.last tag) ErrorKind.unsupported_feature field_offset
  pure (d.cast tag)

-- A one-byte tag of a contiguous domain, with its offset for the diagnostic.
unfoldable pub tag_u8 : {T : Type 0} → Domain T → Reader T
unfolding ◌>>=◌ offset u8 decode_contiguous_tag
tag_u8 d = do field_offset ← offset; value ← u8; decode_contiguous_tag d value field_offset
