-- ===== src/Transport/Constants.antt =====
-- native/codegen/ir_reader.cpp: `payload_reader::read_constant`.
use neri.Prelude.{ℕ, zero, suc, ◌+◌, [], ◌∷◌, none, some, if◌then◌else◌}
use neri.Ir.ConstantTag
use neri.Ir.ConstantTag.{ConstantTag}
use neri.Ir.Model.{IrType, Constant, constant_of, no_constants, more_constants}
use neri.Transport.Reader.{ErrorKind, Context, Reader, ◌>>=◌, pure, fail, offset, u8, u64}
use neri.Transport.Cursor.{boolean, utf8, tag_u8}
use neri.Transport.Types.{read_symbol, read_type_levels}

-- What follows the tag; `nested_type` and `nested` read one level down.
unfoldable pub read_constant_body :
    Context → Reader IrType → Reader Constant → ConstantTag → Reader Constant
unfolding ◌>>=◌ pure u8 u64 boolean utf8 read_symbol
read_constant_body x nested_type nested ConstantTag.bool = do
  value ← boolean
  pure (constant_of ConstantTag.bool (if value then 1 else 0) [] no_constants none [])
read_constant_body x nested_type nested ConstantTag.byte = do
  bits ← u8
  pure (constant_of ConstantTag.byte bits [] no_constants none [])
read_constant_body x nested_type nested ConstantTag.int = do
  bits ← u64
  pure (constant_of ConstantTag.int bits [] no_constants none [])
read_constant_body x nested_type nested ConstantTag.float = do
  bits ← u64
  pure (constant_of ConstantTag.float bits [] no_constants none [])
read_constant_body x nested_type nested ConstantTag.optional_none = do
  value_type ← nested_type
  pure (constant_of ConstantTag.optional_none 0 (value_type ∷ []) no_constants none [])
read_constant_body x nested_type nested ConstantTag.optional_some = do
  value_type ← nested_type
  value ← nested
  pure (
      constant_of ConstantTag.optional_some 0 (value_type ∷ []) (more_constants value no_constants)
        none [])
read_constant_body x nested_type nested ConstantTag.string_global = do
  symbol ← read_symbol x
  pure (constant_of ConstantTag.string_global 0 [] no_constants (some symbol) [])
read_constant_body x nested_type nested ConstantTag.string_utf8 = do
  text ← utf8 x
  pure (constant_of ConstantTag.string_utf8 0 [] no_constants none text)

-- `read_constant` with the levels that the nesting limit leaves.
unfoldable pub read_constant_levels : Context → ℕ → Reader Constant
unfolding ◌>>=◌ fail offset tag_u8 read_constant_body
read_constant_levels x zero = do field_offset ← offset; fail ErrorKind.malformed_module field_offset
read_constant_levels x (suc levels) = do
  tag ← tag_u8 ConstantTag.domain
  read_constant_body x (read_type_levels x levels) (read_constant_levels x levels) tag

unfoldable pub read_constant : Context → Reader Constant
unfolding read_constant_levels
read_constant x = read_constant_levels x (x.max_nesting_depth + 1)
