-- ===== src/Transport/Code.antt =====
-- native/codegen/ir_reader.cpp: the blocks and functions of `class payload_reader`.
use neri.Prelude.{ℕ, ◌&&◌, Bool, false, not, List, [], ◌∷◌, Option, none, some, leb}
use neri.Ir.Comparison
use neri.Ir.FunctionKind
use neri.Ir.TerminatorTag
use neri.Ir.TerminatorTag.{TerminatorTag}
use neri.Ir.Opcode
use neri.Ir.Opcode.{Opcode}
use neri.Ir.Feature.{Feature}
use neri.Ir.Model.{
  SourceLocation, ValueDefinition, BlockParameter, Edge, Instruction, Terminator, Block, DebugLocal,
  DebugScope, Function,
}
use neri.Transport.Reader.{
  ErrorKind, Context, Reader, ◌>>=◌, ◌>>◌, pure, fail, fail_if, offset, u16,
}
use neri.Transport.Cursor.{
  boolean, model_id, utf8, read_vector, read_optional, tag_u8, decode_contiguous_tag,
}
use neri.Transport.Types.{read_symbol, read_location, read_type, too_old}
use neri.Transport.Constants.{read_constant}
use neri.Transport.Declarations.{read_when, read_effects}

unfoldable pub read_value_definition : Context → Reader ValueDefinition
unfolding ◌>>=◌ pure
read_value_definition x = do
  id ← model_id
  value_type ← read_type x
  pure (record { id = id; value_type = value_type })

unfoldable pub read_block_parameter : Context → Reader BlockParameter
unfolding ◌>>=◌ pure
read_block_parameter x = do
  id ← model_id
  value_type ← read_type x
  location ← read_location x
  pure (record { id = id; value_type = value_type; location = location })

unfoldable pub read_edge : Context → Reader Edge
unfolding ◌>>=◌ pure
read_edge x = do
  target ← model_id
  arguments ← read_vector x model_id
  pure (record { target = target; arguments = arguments })

-- The opcodes from `c_function_address` to `call_c_indirect`.
unfoldable pub is_c_opcode : Opcode → Bool
unfolding Opcode.wire
is_c_opcode o =
    leb (Opcode.wire Opcode.c_function_address) (Opcode.wire o)
    && leb (Opcode.wire o) (Opcode.wire Opcode.call_c_indirect)

unfoldable pub read_opcode : Context → Reader Opcode
unfolding ◌>>=◌ pure fail_if offset u16 decode_contiguous_tag is_c_opcode
read_opcode x = do
  opcode_offset ← offset
  tag ← u16
  opcode ← decode_contiguous_tag Opcode.domain tag opcode_offset
  fail_if (is_c_opcode opcode && not x.c_interop) ErrorKind.unsupported_feature opcode_offset
  pure opcode

-- `transport_minor_ >= ir_feature_metadata(DebugScopes).transport_minor`.
unfoldable pub has_debug_scopes : Context → Bool
unfolding too_old
has_debug_scopes x = not (too_old x Feature.debug_scopes)

unfoldable pub read_instruction : Context → Reader Instruction
unfolding ◌>>=◌ pure
read_instruction x = do
  opcode ← read_opcode x
  results ← read_vector x (read_value_definition x)
  operands ← read_vector x model_id
  type_arguments ← read_vector x (read_type x)
  symbol ← read_optional (read_symbol x)
  constant_value ← read_optional (read_constant x)
  predicate ← read_optional (tag_u8 Comparison.domain)
  flag ← boolean
  location ← read_location x
  scope ← read_when (has_debug_scopes x) model_id 0
  pure (record {
    opcode = opcode;
    results = results;
    operands = operands;
    type_arguments = type_arguments;
    symbol = symbol;
    constant_value = constant_value;
    predicate = predicate;
    flag = flag;
    location = location;
    debug_scope_id = scope;
  })

-- What the tag of a terminator brings: condition, edges, return value, panic code and message.
pub record Ending : Type 0 where
  pub condition : Option ℕ
  pub edges : List Edge
  pub return_value : Option ℕ
  pub panic_code : List ℕ
  pub panic_message : List ℕ

abbrev pub no_ending : Ending
no_ending = record {
  condition = none;
  edges = [];
  return_value = none;
  panic_code = [];
  panic_message = [];
}

unfoldable pub read_ending : Context → TerminatorTag → Reader Ending
unfolding ◌>>=◌ pure
read_ending x TerminatorTag.branch = do
  target ← read_edge x
  pure (record no_ending { edges = target ∷ [] })
read_ending x TerminatorTag.conditional_branch = do
  condition ← model_id
  taken ← read_edge x
  other ← read_edge x
  pure (record no_ending { condition = some condition; edges = taken ∷ other ∷ [] })
read_ending x TerminatorTag.return = do
  value ← read_optional model_id
  pure (record no_ending { return_value = value })
read_ending x TerminatorTag.panic = do
  code ← utf8 x
  message ← utf8 x
  pure (record no_ending { panic_code = code; panic_message = message })

unfoldable pub read_terminator : Context → Reader Terminator
unfolding ◌>>=◌ pure
read_terminator x = do
  tag ← tag_u8 TerminatorTag.domain
  ending ← read_ending x tag
  location ← read_location x
  scope ← read_when (has_debug_scopes x) model_id 0
  pure (record {
    tag = tag;
    condition = ending.condition;
    edges = ending.edges;
    return_value = ending.return_value;
    panic_code = ending.panic_code;
    panic_message = ending.panic_message;
    location = location;
    debug_scope_id = scope;
  })

unfoldable pub read_block : Context → Reader Block
unfolding ◌>>=◌ pure
read_block x = do
  id ← model_id
  parameters ← read_vector x (read_block_parameter x)
  instructions ← read_vector x (read_instruction x)
  ending ← read_terminator x
  pure (record { id = id; parameters = parameters; instructions = instructions; ending = ending })

-- A location that must be present.
unfoldable pub require_location : Option SourceLocation → ℕ → Reader SourceLocation
unfolding pure fail
require_location none at = fail ErrorKind.malformed_module at
require_location (some location) at = pure location

unfoldable pub read_required_location : Context → Reader SourceLocation
unfolding ◌>>=◌ offset require_location
read_required_location x = do
  location ← read_location x
  field_offset ← offset
  require_location location field_offset

unfoldable pub read_debug_scope : Context → Reader DebugScope
unfolding ◌>>=◌ pure
read_debug_scope x = do
  id ← model_id
  parent ← model_id
  location ← read_required_location x
  pure (record { id = id; parent_id = parent; location = location })

unfoldable pub read_debug_local : Context → Reader DebugLocal
unfolding ◌>>=◌ pure
read_debug_local x = do
  name ← utf8 x
  value ← model_id
  scope ← read_when (has_debug_scopes x) model_id 0
  location ← read_required_location x
  pure (record { name = name; value = value; scope_id = scope; location = location })

unfoldable pub read_function : Context → Reader Function
unfolding ◌>>=◌ pure
read_function x = do
  id ← read_symbol x
  parameters ← read_vector x (read_type x)
  result ← read_type x
  kind ← tag_u8 FunctionKind.domain
  effects ← read_effects
  unsafe_call ← boolean
  retained ← read_when x.retained_modules boolean false
  export_name ← read_when x.c_interop (utf8 x) []
  entry ← model_id
  root ← read_optional (read_value_definition x)
  declaring ← read_optional (read_symbol x)
  slot ← read_optional (read_symbol x)
  location ← read_location x
  blocks ← read_vector x (read_block x)
  scopes ← read_when (has_debug_scopes x) (read_vector x (read_debug_scope x)) []
  locals ← read_when (leb 1 x.transport_minor) (read_vector x (read_debug_local x)) []
  pure (record {
    id = id;
    parameter_types = parameters;
    result_type = result;
    kind = kind;
    effects = effects;
    unsafe_call = unsafe_call;
    retained = retained;
    export_name = export_name;
    entry_block = entry;
    unsafe_root = root;
    declaring_class = declaring;
    dispatch_slot = slot;
    location = location;
    blocks = blocks;
    debug_scopes = scopes;
    debug_locals = locals;
  })
