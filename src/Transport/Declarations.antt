-- ===== src/Transport/Declarations.antt =====
-- native/codegen/ir_reader.cpp: the sources, classes, globals and imports of
-- `class payload_reader`.
use neri.Prelude.{ℕ, Bool, false, not, [], ltb, if◌then◌else◌}
use neri.Ir.Access
use neri.Ir.DispatchKind
use neri.Ir.GlobalLinkage
use neri.Ir.ImportKind
use neri.Ir.Model.{
  Source, Field, Method, ClassDeclaration, NativeRecord, GlobalDeclaration, RuntimeRequirement,
  ImportDeclaration,
}
use neri.Transport.Reader.{
  ErrorKind, Context, Reader, ◌>>=◌, ◌>>◌, pure, fail_if, offset, u16, u32, u64,
}
use neri.Transport.Cursor.{boolean, utf8, blob, identity, read_vector, read_optional, tag_u8}
use neri.Transport.Types.{read_symbol, read_location, read_type}
use neri.Transport.Constants.{read_constant}

-- A field of the payload that a feature adds, with its value where the feature is missing.
unfoldable pub read_when : {A : Type 0} → Bool → Reader A → A → Reader A
unfolding pure
read_when enabled read missing = if enabled then read else pure missing

unfoldable pub read_source : Context → Reader Source
unfolding ◌>>=◌ pure
read_source x = do id ← identity x; contents ← blob x; pure (record { id = id; utf8 = contents })

unfoldable pub read_field : Context → Reader Field
unfolding ◌>>=◌ pure
read_field x = do
  id ← read_symbol x
  value_type ← read_type x
  access ← tag_u8 Access.domain
  location ← read_location x
  pure (record { id = id; value_type = value_type; access = access; location = location })

unfoldable pub read_method : Context → Reader Method
unfolding ◌>>=◌ pure
read_method x = do
  function_id ← read_symbol x
  dispatch ← tag_u8 DispatchKind.domain
  slot ← read_optional (read_symbol x)
  location ← read_location x
  pure (record {
    function_id = function_id;
    dispatch = dispatch;
    dispatch_slot = slot;
    location = location;
  })

unfoldable pub read_class : Context → Reader ClassDeclaration
unfolding ◌>>=◌ pure
read_class x = do
  id ← read_symbol x
  base ← read_optional (read_symbol x)
  access ← tag_u8 Access.domain
  retained ← read_when x.retained_modules boolean false
  fields ← read_vector x (read_field x)
  methods ← read_vector x (read_method x)
  location ← read_location x
  pure (record {
    id = id;
    base = base;
    access = access;
    retained = retained;
    fields = fields;
    methods = methods;
    location = location;
  })

unfoldable pub read_native_record : Context → Reader NativeRecord
unfolding ◌>>=◌ pure
read_native_record x = do
  id ← read_symbol x
  is_union ← boolean
  fields ← read_vector x (read_field x)
  pure (record { id = id; is_union = is_union; fields = fields })

unfoldable pub read_global : Context → Reader GlobalDeclaration
unfolding ◌>>=◌ pure
read_global x = do
  id ← read_symbol x
  value_type ← read_type x
  initializer ← read_constant x
  linkage ← tag_u8 GlobalLinkage.domain
  location ← read_location x
  pure (record {
    id = id;
    value_type = value_type;
    initializer = initializer;
    linkage = linkage;
    location = location;
  })

-- `read_effects`: the eight effect bits are the low byte, so the others are none when it is below
-- 256.
unfoldable pub read_effects : Reader ℕ
unfolding ◌>>=◌ pure fail_if offset u32
read_effects = do
  effects_offset ← offset
  effects ← u32
  fail_if (not (ltb effects 256)) ErrorKind.unsupported_feature effects_offset
  pure effects

unfoldable pub read_runtime_requirement : Reader RuntimeRequirement
unfolding ◌>>=◌ pure
read_runtime_requirement = do
  major ← u16
  minor ← u16
  bits ← u64
  pure (record { abi_major = major; abi_minor = minor; feature_bits = bits })

unfoldable pub read_import : Context → Reader ImportDeclaration
unfolding ◌>>=◌ pure
read_import x = do
  id ← read_symbol x
  parameters ← read_vector x (read_type x)
  result ← read_type x
  kind ← tag_u8 ImportKind.domain
  link ← utf8 x
  effects ← read_effects
  runtime ← read_optional read_runtime_requirement
  location ← read_location x
  library ← read_when x.native_libraries (utf8 x) []
  pure (record {
    id = id;
    parameter_types = parameters;
    result_type = result;
    kind = kind;
    link_name = link;
    native_library = library;
    effects = effects;
    minimum_runtime = runtime;
    location = location;
  })
