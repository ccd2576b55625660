-- ===== src/Transport/Reader.antt =====
-- native/codegen/ir_reader.cpp, `class cursor`: a reader of bytes with limits. A reader is a
-- function of the cursor, and an exception is the error that it carries. The text of a diagnostic
-- is left out; its kind and its byte offset are kept.
use neri.Prelude.{ℕ, ◌+◌, ◌*◌, Bool, [], ◌∷◌, ltb, if◌then◌else◌, length, take, drop, get_or}
use neri.Ir.Model.{Bytes}

-- `reader_error_kind`.
pub data ErrorKind : Type 0 where
  incompatible_major unsupported_minor unsupported_feature malformed_module : ErrorKind
  invalid_reference invalid_type invalid_control_flow invalid_ssa : ErrorKind
  invalid_safety invalid_source : ErrorKind

pub record ReaderError : Type 0 where
  pub code : ErrorKind
  pub byte_offset : ℕ

pub data Result {ℓ} (A : Type ℓ) : Type ℓ where
  ok : A → Result A
  err : ReaderError → Result A

-- `input_.subspan(offset_)`, and `base_offset_ + offset_`.
pub record Cursor : Type 0 where
  pub rest : Bytes
  pub position : ℕ

-- `reader_options`.
pub record ReaderOptions : Type 0 where
  pub max_input_bytes : ℕ
  pub max_string_bytes : ℕ
  pub max_collection_count : ℕ
  pub max_nesting_depth : ℕ

-- What a payload reader keeps besides its cursor: the options, the transport minor and the flags
-- that the required features set. `legal_utf8` is `llvm::isLegalUTF8String`.
pub record Context : Type 0 where
  pub options : ReaderOptions
  pub open options use *
  pub legal_utf8 : Bytes → Bool
  pub transport_minor : ℕ
  pub native_libraries : Bool
  pub native_records : Bool
  pub session_module : Bool
  pub retained_modules : Bool
  pub c_interop : Bool

abbrev pub Reader : Type 0 → Type 0
Reader A = Cursor → Result (A × Cursor)

unfoldable pub continue :
    {A B : Type 0} → Result (A × Cursor) → (A → Reader B) → Result (B × Cursor)
continue (ok (a, c)) k = k a c
continue (err e) k = err e

infixl 5 ◌>>=◌ ◌>>◌
unfoldable pub ◌>>=◌ : {A B : Type 0} → Reader A → (A → Reader B) → Reader B
unfolding continue
◌>>=◌ m k c = continue (m c) k

abbrev pub ◌>>◌ : {B : Type 0} → Reader (Unit {0}) → Reader B → Reader B
m >> k = m >>= λ _. k

unfoldable pub pure : {A : Type 0} → A → Reader A
pure a c = ok (a, c)

unfoldable pub fail : {A : Type 0} → ErrorKind → ℕ → Reader A
fail code offset c = err (record { code = code; byte_offset = offset })

-- `fail` under a test.
unfoldable pub fail_if : Bool → ErrorKind → ℕ → Reader (Unit {0})
unfolding fail pure
fail_if test code offset = if test then fail code offset else pure tt

-- `cursor::offset`.
unfoldable pub offset : Reader ℕ
offset c = ok (c.position, c)

-- `cursor::remaining`.
unfoldable pub remaining : Reader ℕ
remaining c = ok (length c.rest, c)

-- `cursor::bytes`.
unfoldable pub bytes : ℕ → Reader Bytes
unfolding fail
bytes n c =
    if ltb (length c.rest) n
    then fail ErrorKind.malformed_module c.position c
    else ok (take n c.rest, record { rest = drop n c.rest; position = c.position + n })

-- `read_u16`, `read_u32` and `read_u64`: the shifted bytes do not overlap, so `|` adds them up.
unfoldable pub read_le : Bytes → ℕ
read_le [] = 0
read_le (b ∷ bs) = b + 256 * read_le bs

unfoldable pub u8 : Reader ℕ
unfolding bytes ◌>>=◌ pure
u8 = do contents ← bytes 1; pure (get_or contents 0 0)

unfoldable pub u16 : Reader ℕ
unfolding bytes ◌>>=◌ pure read_le
u16 = do contents ← bytes 2; pure (read_le contents)

unfoldable pub u32 : Reader ℕ
unfolding bytes ◌>>=◌ pure read_le
u32 = do contents ← bytes 4; pure (read_le contents)

unfoldable pub u64 : Reader ℕ
unfolding bytes ◌>>=◌ pure read_le
u64 = do contents ← bytes 8; pure (read_le contents)
