-- ===== src/Transport/Types.antt =====
-- native/codegen/ir_reader.cpp: the symbols, locations, types and constants of
-- `class payload_reader`.
use neri.Prelude.{
  ℕ, zero, suc, ◌+◌, ◌-◌, Bool, not, List, [], ◌∷◌, Option, none, some, ltb, ◌==◌, if◌then◌else◌,
}
use neri.Ir.SymbolKind
use neri.Ir.TypeTag.{TypeTag}
use neri.Ir.Feature
use neri.Ir.Feature.{Feature}
use neri.Ir.Model.{SymbolId, SourceLocation, IrType, ir_type, IrTypes, no_types, more_types}
use neri.Transport.Reader.{
  ErrorKind, Context, Reader, ◌>>=◌, ◌>>◌, pure, fail, fail_if, offset, u8, u32,
}
use neri.Transport.Cursor.{model_id, count, identity, read_n, read_optional, tag_u8}

unfoldable pub read_symbol : Context → Reader SymbolId
unfolding ◌>>=◌ pure identity tag_u8
read_symbol x = do
  module_id ← identity x
  kind ← tag_u8 SymbolKind.domain
  semantic_name ← identity x
  pure (record { module_id = module_id; kind = kind; semantic_name = semantic_name })

unfoldable pub read_source_location : Context → Reader SourceLocation
unfolding ◌>>=◌ pure identity model_id
read_source_location x = do
  source_id ← identity x
  start ← model_id
  extent ← model_id
  pure (record { source_id = source_id; utf8_start = start; utf8_length = extent })

unfoldable pub read_location : Context → Reader (Option SourceLocation)
unfolding read_optional read_source_location
read_location x = read_optional (read_source_location x)

unfoldable pub decode_type_tag : ℕ → ℕ → Reader TypeTag
unfolding pure fail
decode_type_tag tag field_offset =
    if tag == 1
    then pure TypeTag.void
    else if tag == 2
    then pure TypeTag.bool
    else if tag == 3
    then pure TypeTag.byte
    else if tag == 4
    then pure TypeTag.int
    else if tag == 5
    then pure TypeTag.float
    else if tag == 6
    then pure TypeTag.string
    else if tag == 7
    then pure TypeTag.int32
    else if tag == 8
    then pure TypeTag.uint32
    else if tag == 9
    then pure TypeTag.uint64
    else if tag == 10
    then pure TypeTag.float32
    else if tag == 16
    then pure TypeTag.array
    else if tag == 17
    then pure TypeTag.class
    else if tag == 18
    then pure TypeTag.optional
    else if tag == 19
    then pure TypeTag.pointer
    else if tag == 20
    then pure TypeTag.native_record
    else if tag == 21
    then pure TypeTag.fixed_array
    else if tag == 22
    then pure TypeTag.c_function
    else if tag == 32
    then pure TypeTag.unsafe_capability
    else if tag == 33
    then pure TypeTag.borrow_capability
    else fail ErrorKind.unsupported_feature field_offset

-- The arguments of a type, as the vector holds them.
unfoldable pub of_list : List IrType → IrTypes
of_list [] = no_types
of_list (t ∷ ts) = more_types t (of_list ts)

-- `transport_minor_ < ir_feature_metadata(feature).transport_minor`.
unfoldable pub too_old : Context → Feature → Bool
unfolding Feature.metadata
too_old x f = ltb x.transport_minor (Feature.metadata f).transport_minor

-- What follows the tag of a type; `nested` reads a type one level down.
unfoldable pub read_type_body : Context → Reader IrType → ℕ → TypeTag → Reader IrType
unfolding ◌>>=◌ pure fail_if u32 count read_n read_symbol of_list too_old
read_type_body x nested at TypeTag.void = pure (ir_type TypeTag.void none no_types 0)
read_type_body x nested at TypeTag.bool = pure (ir_type TypeTag.bool none no_types 0)
read_type_body x nested at TypeTag.byte = pure (ir_type TypeTag.byte none no_types 0)
read_type_body x nested at TypeTag.int = pure (ir_type TypeTag.int none no_types 0)
read_type_body x nested at TypeTag.float = pure (ir_type TypeTag.float none no_types 0)
read_type_body x nested at TypeTag.string = pure (ir_type TypeTag.string none no_types 0)
read_type_body x nested at TypeTag.unsafe_capability =
    pure (ir_type TypeTag.unsafe_capability none no_types 0)
read_type_body x nested at TypeTag.int32 = do
  fail_if (too_old x Feature.extended_scalars) ErrorKind.unsupported_feature at
  pure (ir_type TypeTag.int32 none no_types 0)
read_type_body x nested at TypeTag.uint32 = do
  fail_if (too_old x Feature.extended_scalars) ErrorKind.unsupported_feature at
  pure (ir_type TypeTag.uint32 none no_types 0)
read_type_body x nested at TypeTag.uint64 = do
  fail_if (too_old x Feature.extended_scalars) ErrorKind.unsupported_feature at
  pure (ir_type TypeTag.uint64 none no_types 0)
read_type_body x nested at TypeTag.float32 = do
  fail_if (too_old x Feature.extended_scalars) ErrorKind.unsupported_feature at
  pure (ir_type TypeTag.float32 none no_types 0)
read_type_body x nested at TypeTag.class = do
  symbol ← read_symbol x
  pure (ir_type TypeTag.class (some symbol) no_types 0)
read_type_body x nested at TypeTag.native_record = do
  fail_if (too_old x Feature.native_records) ErrorKind.unsupported_feature at
  symbol ← read_symbol x
  pure (ir_type TypeTag.native_record (some symbol) no_types 0)
read_type_body x nested at TypeTag.fixed_array = do
  fail_if (too_old x Feature.native_records) ErrorKind.unsupported_feature at
  element_count ← u32
  element ← nested
  pure (ir_type TypeTag.fixed_array none (more_types element no_types) element_count)
read_type_body x nested at TypeTag.c_function = do
  fail_if (not x.c_interop) ErrorKind.unsupported_feature at
  number ← count x
  result ← nested
  parameters ← read_n number nested
  pure (ir_type TypeTag.c_function none (more_types result (of_list parameters)) 0)
read_type_body x nested at TypeTag.array = do
  element ← nested
  pure (ir_type TypeTag.array none (more_types element no_types) 0)
read_type_body x nested at TypeTag.optional = do
  element ← nested
  pure (ir_type TypeTag.optional none (more_types element no_types) 0)
read_type_body x nested at TypeTag.pointer = do
  element ← nested
  pure (ir_type TypeTag.pointer none (more_types element no_types) 0)
read_type_body x nested at TypeTag.borrow_capability = do
  element ← nested
  pure (ir_type TypeTag.borrow_capability none (more_types element no_types) 0)

-- `read_type` with the levels that the nesting limit leaves: `depth > max_nesting_depth` is none.
unfoldable pub read_type_levels : Context → ℕ → Reader IrType
unfolding ◌>>=◌ fail offset u8 decode_type_tag read_type_body
read_type_levels x zero = do field_offset ← offset; fail ErrorKind.malformed_module field_offset
read_type_levels x (suc levels) = do
  tag_offset ← offset
  tag ← u8
  type_tag ← decode_type_tag tag tag_offset
  read_type_body x (read_type_levels x levels) tag_offset type_tag

-- `read_type(depth)`.
unfoldable pub read_type_at : Context → ℕ → Reader IrType
unfolding read_type_levels
read_type_at x depth = read_type_levels x (x.max_nesting_depth + 1 - depth)

unfoldable pub read_type : Context → Reader IrType
unfolding read_type_at
read_type x = read_type_at x 0
