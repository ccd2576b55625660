-- ===== src/Transport/Payload.antt =====
-- native/codegen/ir_reader.cpp: `payload_reader::read`, which reads a whole module.
use neri.Prelude.{
  ℕ, ◌&&◌, ◌||◌, Bool, true, false, not, List, [], ◌∷◌, Option, none, some, leb, ◌==◌, bytes_lt,
}
use neri.Ir.Feature
use neri.Ir.Feature.{Feature}
use neri.Ir.Model.{Bytes, Version, SessionExport, IrModule}
use neri.Transport.Reader.{
  ErrorKind, Context, Reader, ◌>>=◌, ◌>>◌, pure, fail, fail_if, offset, u16,
}
use neri.Transport.Cursor.{utf8, identity, read_vector, require_end}
use neri.Transport.Types.{read_symbol, read_type, too_old}
use neri.Transport.Declarations.{
  read_when, read_source, read_class, read_global, read_import, read_native_record,
}
use neri.Transport.Code.{read_function}

valid_character : ℕ → Bool
valid_character c = (leb b'a' c && leb c b'z') || (leb b'0' c && leb c b'9') || c == b'-'

all_valid : Bytes → Bool
unfolding valid_character
all_valid [] = true
all_valid (c ∷ cs) = valid_character c && all_valid cs

-- `name.back() == '-'` of a name that is not empty.
ends_with_dash : Bytes → Bool
ends_with_dash [] = false
ends_with_dash (c ∷ []) = c == b'-'
ends_with_dash (c ∷ d ∷ cs) = ends_with_dash (d ∷ cs)

starts_with_dash : Bytes → Bool
starts_with_dash [] = false
starts_with_dash (c ∷ cs) = c == b'-'

-- `name.find("--")` finds something.
has_double_dash : Bytes → Bool
has_double_dash [] = false
has_double_dash (c ∷ []) = false
has_double_dash (c ∷ d ∷ cs) = (c == b'-' && d == b'-') || has_double_dash (d ∷ cs)

is_empty : Bytes → Bool
is_empty [] = true
is_empty (c ∷ cs) = false

-- The name is not a canonical feature identifier.
unfoldable pub bad_feature_name : Bytes → Bool
unfolding all_valid ends_with_dash starts_with_dash has_double_dash is_empty
bad_feature_name n =
    is_empty n || starts_with_dash n || ends_with_dash n || not (all_valid n) || has_double_dash n

-- `*feature`, or the failure where there is none.
unfoldable pub known_feature : Option Feature → ℕ → Reader Feature
unfolding pure fail
known_feature none at = fail ErrorKind.unsupported_feature at
known_feature (some f) at = pure f

unfoldable pub read_feature : Context → Reader Feature
unfolding ◌>>=◌ offset fail_if utf8 bad_feature_name known_feature Feature.from_name
read_feature x = do
  field_offset ← offset
  name ← utf8 x
  fail_if (bad_feature_name name) ErrorKind.malformed_module field_offset
  known_feature (Feature.from_name name) field_offset

-- The loop over the required features: a feature that the transport minor does not carry fails.
unfoldable pub check_features : Context → List Feature → Reader (Unit {0})
unfolding ◌>>=◌ pure fail_if offset too_old
check_features x [] = pure tt
check_features x (f ∷ fs) = do
  field_offset ← offset
  fail_if (too_old x f) ErrorKind.unsupported_feature field_offset
  check_features x fs

-- `feature == f`.
unfoldable pub is_feature : Feature → Feature → Bool
unfolding Feature.index
is_feature f g = Feature.index f == Feature.index g

unfoldable pub requires : Feature → List Feature → Bool
unfolding is_feature
requires f [] = false
requires f (g ∷ gs) = is_feature f g || requires f gs

-- The flags that the loop sets.
unfoldable pub with_features : Context → List Feature → Context
unfolding requires
with_features x fs = record x {
  native_libraries = requires Feature.native_libraries fs;
  native_records = requires Feature.native_records fs;
  session_module = requires Feature.session_module fs;
  retained_modules = requires Feature.retained_modules fs;
  c_interop = requires Feature.c_interop fs;
}

-- `is_sorted` by name, and no `adjacent_find`: two names in order that are not one feature.
unfoldable pub in_canonical_order : List Feature → Bool
unfolding Feature.name is_feature
in_canonical_order [] = true
in_canonical_order (f ∷ []) = true
in_canonical_order (f ∷ g ∷ fs) =
    not (bytes_lt (Feature.name g) (Feature.name f))
    && not (is_feature f g)
    && in_canonical_order (g ∷ fs)

unfoldable pub read_session_export : Context → Reader SessionExport
unfolding ◌>>=◌ pure
read_session_export x = do
  entry ← read_symbol x
  source_type ← read_type x
  target_type ← read_type x
  artifact ← read_when x.retained_modules (identity x) []
  pure (record {
    entry = entry;
    source_type = source_type;
    target_type = target_type;
    artifact_identity = artifact;
  })

unfoldable pub read_session : Context → Reader (Option SessionExport)
unfolding ◌>>=◌ pure
read_session x = do session ← read_session_export x; pure (some session)

-- The sections behind the required features, under the flags that these set.
unfoldable pub read_sections : Context → Version → Bytes → List Feature → Reader IrModule
unfolding ◌>>=◌ pure
read_sections x version id features = do
  sources ← read_vector x (read_source x)
  classes ← read_vector x (read_class x)
  globals ← read_vector x (read_global x)
  imports ← read_vector x (read_import x)
  functions ← read_vector x (read_function x)
  records ← read_when x.native_records (read_vector x (read_native_record x)) []
  session ← read_when x.session_module (read_session x) none
  pure (record {
    semantic_version = version;
    id = id;
    required_features = features;
    sources = sources;
    classes = classes;
    globals = globals;
    imports = imports;
    functions = functions;
    native_records = records;
    session = session;
  })

unfoldable pub read_version : Reader Version
unfolding ◌>>=◌ pure u16
read_version = do major ← u16; minor ← u16; pure (record { major = major; minor = minor })

-- `payload_reader::read`, up to the last section.
unfoldable pub read_payload : Context → Reader IrModule
unfolding ◌>>=◌ pure fail_if offset
read_payload x = do
  version ← read_version
  id ← identity x
  features ← read_vector x (read_feature x)
  check_features x features
  field_offset ← offset
  fail_if (not (in_canonical_order features)) ErrorKind.malformed_module field_offset
  read_sections (with_features x features) version id features

-- `payload_reader::read`.
unfoldable pub read_module : Context → Reader IrModule
unfolding ◌>>=◌ pure
read_module x = do result ← read_payload x; require_end; pure result
