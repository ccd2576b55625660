-- ===== src/Transport/Envelope.antt =====
-- native/codegen/ir_reader.cpp: `read_verified_module` up to the verifier, which checks the
-- envelope of a payload, and the layout of native/include/neri/ir_transport.h. The digest,
-- `llvm::SHA256::hash`, is an argument.
mod Digest
pub mod Exact
use neri.Prelude.{
  ℕ, ◌+◌, ◌-◌, ◌<◌, Bool, true, false, not, ◌||◌, List, [], ◌∷◌, ltb, ◌==◌, if◌then◌else◌, length,
  take, drop, min, bytes_eq, bit_or, bit_xor,
}
use neri.Ir.Model.{Bytes, IrModule}
use neri.Transport.Reader.{
  ErrorKind, ReaderError, Result, ok, err, ReaderOptions, Context, Cursor, read_le,
}
use neri.Transport.Payload.{read_module}
use Digest.{digest_difference}

abbrev pub header_size : ℕ
header_size = 56

abbrev pub magic : Bytes
magic = 0x4e ∷ 0x45 ∷ 0x52 ∷ 0x49 ∷ 0x52 ∷ 0x0d ∷ 0x0a ∷ 0x1a ∷ []

abbrev pub transport_major : ℕ
transport_major = 1

abbrev pub transport_minor : ℕ
transport_minor = 9

-- `validate_options` does not throw.
unfoldable pub consistent : ReaderOptions → Bool
consistent o = not (
    ltb o.max_input_bytes header_size
    || o.max_string_bytes == 0
    || ltb o.max_input_bytes o.max_string_bytes
    || o.max_collection_count == 0
    || o.max_nesting_depth == 0)

-- `envelope.subspan(offset, count)`.
abbrev pub slice : ℕ → ℕ → Bytes → Bytes
slice offset n bs = take n (drop offset bs)

-- The context in which a payload of a transport minor is read.
abbrev pub initial : ReaderOptions → (Bytes → Bool) → ℕ → Context
initial options legal minor = record {
  options = options;
  legal_utf8 = legal;
  transport_minor = minor;
  native_libraries = false;
  native_records = false;
  session_module = false;
  retained_modules = false;
  c_interop = false;
}

infixl 5 ◌>>=◌ ◌>>◌
abbrev ◌>>=◌ : {A B : Type 0} → Result A → (A → Result B) → Result B
ok a >>= f = f a
err e >>= f = err e

abbrev ◌>>◌ : {B : Type 0} → Result (Unit {0}) → Result B → Result B
m >> k = m >>= λ _. k

abbrev pub reject_if : Bool → ErrorKind → ℕ → Result (Unit {0})
reject_if true code at = err (record { code = code; byte_offset = at })
reject_if false code at = ok tt

-- The checks of the header, in order; the result is the transport minor.
unfoldable pub check_header : ReaderOptions → Bytes → Result ℕ
unfolding read_le
check_header options input = do
  reject_if (ltb options.max_input_bytes (length input)) ErrorKind.malformed_module 0
  reject_if (ltb (length input) header_size) ErrorKind.malformed_module (length input)
  reject_if (not (bytes_eq magic (take 8 input))) ErrorKind.malformed_module 0
  reject_if (not (read_le (slice 8 2 input) == transport_major)) ErrorKind.incompatible_major 8
  reject_if (ltb transport_minor (read_le (slice 10 2 input))) ErrorKind.unsupported_minor 10
  reject_if (not (read_le (slice 12 4 input) == 0)) ErrorKind.unsupported_feature 12
  reject_if (ltb (options.max_input_bytes - header_size) (read_le (slice 16 8 input)))
      ErrorKind.malformed_module 16
  reject_if (not (length input == header_size + read_le (slice 16 8 input)))
      ErrorKind.malformed_module (min (length input) (header_size + read_le (slice 16 8 input)))
  ok (read_le (slice 10 2 input))

module _ (sha256 : Bytes → Bytes) (legal : Bytes → Bool) where
  -- `read_verified_module`, without `verify_supported_module`.
  unfoldable pub read_envelope : ReaderOptions → Bytes → Result IrModule
  read_envelope options input = do
    minor ← check_header options input
    let payload = drop header_size input
    reject_if (not (digest_difference (sha256 payload) (slice 24 32 input) == 0))
        ErrorKind.malformed_module 24
    let result =
        read_module (initial options legal minor)
          (record { rest = payload; position = header_size })
    result >>= λ read. ok read.0
