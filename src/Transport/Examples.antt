-- ===== src/Transport/Examples.antt =====
-- Tests of the payload reader, and its theorems at one module: a function that returns 42.
use neri.Prelude.{
  ℕ, ◌+◌, ◌≤◌, ◌≡◌, refl, sym, ap, subst, Bool, true, false, [], ◌∷◌, ◌++◌, none, some, arith,
  length, replicate,
}
use neri.Ir.SymbolKind
use neri.Ir.Feature
use neri.Ir.SymbolKind.{SymbolKind}
use neri.Ir.FunctionKind
use neri.Ir.FunctionKind.{FunctionKind}
use neri.Ir.TypeTag.{TypeTag}
use neri.Ir.ConstantTag
use neri.Ir.ConstantTag.{ConstantTag}
use neri.Ir.TerminatorTag
use neri.Ir.TerminatorTag.{TerminatorTag}
use neri.Ir.Opcode
use neri.Ir.Opcode.{Opcode}
use neri.Ir.Model.{
  Bytes, IrType, ir_type, no_types, constant_of, no_constants, Block, Function, IrModule,
}
use neri.Transport.Reader.{ReaderOptions, Context, ok, err, ErrorKind}
use neri.Transport.Payload.{read_module}
use neri.Transport.Cursor.{
  strict_utf8, is_identity, boolean, model_id, bounded, count, field_length, utf8, blob,
  require_end, identity, read_n, read_vector, read_optional, decode_contiguous_tag, tag_u8,
}
use neri.Transport.Types.{
  read_symbol, read_source_location, read_location, decode_type_tag, of_list, too_old,
  read_type_body, read_type_levels, read_type_at, read_type,
}
use neri.Transport.Constants.{read_constant_body, read_constant_levels, read_constant}
use neri.Transport.Declarations.{
  read_when, read_source, read_field, read_method, read_class, read_native_record, read_global,
  read_effects, read_runtime_requirement, read_import,
}
use neri.Transport.Code.{
  read_value_definition, read_block_parameter, read_edge, is_c_opcode, read_opcode,
  has_debug_scopes, read_instruction, read_ending, read_terminator, read_block, require_location,
  read_required_location, read_debug_scope, read_debug_local, read_function,
}
use neri.Transport.Payload.{
  bad_feature_name, known_feature, read_feature, check_features, is_feature, requires,
  with_features, in_canonical_order, read_session_export, read_session, read_sections, read_version,
  read_payload,
}
use neri.Transport.Reader.{
  ◌>>=◌, continue, pure, fail, fail_if, offset, remaining, bytes, u8, u16, u32, u64, read_le,
}
use neri.Transport.Format.Basic.{IsBytes, cursor}
use neri.Transport.Envelope.{initial, read_envelope}
use neri.Transport.Envelope.Exact.{envelope, read_envelope_complete, read_envelope_sound}
use neri.Transport.Format.Words.{le_bytes}
use neri.Transport.Wire.Payload.{payload}
use neri.Transport.Exact.{
  read_module_sound, read_module_complete, read_module_injective, read_module_trailing,
}

-- The defaults of `reader_options`.
abbrev pub default_options : ReaderOptions
default_options = record {
  max_input_bytes = 268435456;
  max_string_bytes = 16777216;
  max_collection_count = 1000000;
  max_nesting_depth = 64;
}

abbrev pub any_text : Bytes → Bool
any_text bs = true

abbrev pub sample_context : Context
sample_context = initial default_options any_text 9

abbrev pub sample_bytes : Bytes
sample_bytes =
    1 ∷ 0 ∷ 0 ∷ 0 ∷ 1 ∷ 0 ∷ 0 ∷ 0 ∷ 109 ∷ 0 ∷ 0 ∷ 0 ∷ 0 ∷ 1 ∷ 0 ∷ 0 ∷ 0 ∷ 1 ∷ 0 ∷ 0 ∷ 0 ∷ 115 ∷ 1
    ∷ 0 ∷ 0 ∷ 0 ∷ 65 ∷ 0 ∷ 0 ∷ 0 ∷ 0 ∷ 0 ∷ 0 ∷ 0 ∷ 0 ∷ 0 ∷ 0 ∷ 0 ∷ 0 ∷ 1 ∷ 0 ∷ 0 ∷ 0 ∷ 1 ∷ 0 ∷ 0 ∷ 0
    ∷ 109 ∷ 4 ∷ 1 ∷ 0 ∷ 0 ∷ 0 ∷ 102 ∷ 0 ∷ 0 ∷ 0 ∷ 0 ∷ 4 ∷ 1 ∷ 0 ∷ 0 ∷ 0 ∷ 0 ∷ 0 ∷ 0 ∷ 0 ∷ 0 ∷ 0 ∷ 0
    ∷ 0 ∷ 0 ∷ 0 ∷ 1 ∷ 0 ∷ 0 ∷ 0 ∷ 0 ∷ 0 ∷ 0 ∷ 0 ∷ 0 ∷ 0 ∷ 0 ∷ 0 ∷ 1 ∷ 0 ∷ 0 ∷ 0 ∷ 1 ∷ 0 ∷ 1 ∷ 0 ∷ 0
    ∷ 0 ∷ 0 ∷ 0 ∷ 0 ∷ 0 ∷ 4 ∷ 0 ∷ 0 ∷ 0 ∷ 0 ∷ 0 ∷ 0 ∷ 0 ∷ 0 ∷ 0 ∷ 1 ∷ 3 ∷ 42 ∷ 0 ∷ 0 ∷ 0 ∷ 0 ∷ 0 ∷ 0
    ∷ 0 ∷ 0 ∷ 0 ∷ 0 ∷ 0 ∷ 0 ∷ 0 ∷ 0 ∷ 3 ∷ 1 ∷ 0 ∷ 0 ∷ 0 ∷ 0 ∷ 0 ∷ 0 ∷ 0 ∷ 0 ∷ 0 ∷ 0 ∷ 0 ∷ 0 ∷ 0 ∷ 0
    ∷ 0 ∷ 0 ∷ 0 ∷ []

abbrev int_type : IrType
int_type = ir_type TypeTag.int none no_types 0

abbrev returning : Block
returning = record {
  id = 0;
  parameters = [];
  instructions =
      record {
        opcode = Opcode.constant;
        results = record { id = 0; value_type = int_type } ∷ [];
        operands = [];
        type_arguments = [];
        symbol = none;
        constant_value = some (constant_of ConstantTag.int 42 [] no_constants none []);
        predicate = none;
        flag = false;
        location = none;
        debug_scope_id = 0;
      }
      ∷ [];
  ending = record {
    tag = TerminatorTag.return;
    condition = none;
    edges = [];
    return_value = some 0;
    panic_code = [];
    panic_message = [];
    location = none;
    debug_scope_id = 0;
  };
}

abbrev answering : Function
answering = record {
  id = record { module_id = b'm' ∷ []; kind = SymbolKind.function; semantic_name = b'f' ∷ [] };
  parameter_types = [];
  result_type = int_type;
  kind = FunctionKind.function;
  effects = 0;
  unsafe_call = false;
  retained = false;
  export_name = [];
  entry_block = 0;
  unsafe_root = none;
  declaring_class = none;
  dispatch_slot = none;
  location = none;
  blocks = returning ∷ [];
  debug_scopes = [];
  debug_locals = [];
}

abbrev pub sample : IrModule
sample = record {
  semantic_version = record { major = 1; minor = 0 };
  id = b'm' ∷ [];
  required_features = [];
  sources = record { id = b's' ∷ []; utf8 = b'A' ∷ [] } ∷ [];
  classes = [];
  globals = [];
  imports = [];
  functions = answering ∷ [];
  native_records = [];
  session = none;
}

pub sample_read : read_module sample_context (cursor sample_bytes 56) ≡ ok (sample, cursor [] 201)
unfolding read_module Opcode.wire Feature.metadata Feature.index Opcode.cast TerminatorTag.cast
    ConstantTag.cast FunctionKind.cast SymbolKind.cast strict_utf8 is_identity boolean model_id
    bounded count field_length utf8 blob require_end identity read_n read_vector read_optional
    decode_contiguous_tag tag_u8 read_symbol read_source_location read_location decode_type_tag
    of_list too_old read_type_body read_type_levels read_type_at read_type read_constant_body
    read_constant_levels read_constant read_when read_source read_field read_method read_class
    read_native_record read_global read_effects read_runtime_requirement read_import
    read_value_definition read_block_parameter read_edge is_c_opcode read_opcode has_debug_scopes
    read_instruction read_ending read_terminator read_block require_location read_required_location
    read_debug_scope read_debug_local read_function bad_feature_name known_feature read_feature
    check_features is_feature requires with_features in_canonical_order read_session_export
    read_session read_sections read_version read_payload ◌>>=◌ continue pure fail fail_if offset
    remaining bytes u8 u16 u32 u64 read_le
sample_read = refl

sample_bytes-IsBytes : IsBytes sample_bytes
sample_bytes-IsBytes = omega arith

read_module_sound_example :
    (payload sample_context).Valid sample × (sample_bytes ≡ (payload sample_context).encode sample)
read_module_sound_example =
    read_module_sound sample_context sample_bytes 56 sample (cursor [] 201) sample_bytes-IsBytes
      sample_read

sample-Valid : (payload sample_context).Valid sample
sample-Valid =
    (read_module_sound sample_context sample_bytes 56 sample (cursor [] 201) sample_bytes-IsBytes
      sample_read).0

sample_encoded : sample_bytes ≡ (payload sample_context).encode sample
sample_encoded =
    (read_module_sound sample_context sample_bytes 56 sample (cursor [] 201) sample_bytes-IsBytes
      sample_read).1

read_module_complete_example :
    read_module sample_context (cursor ((payload sample_context).encode sample) 56)
    ≡ ok (sample, cursor [] (56 + length ((payload sample_context).encode sample)))
read_module_complete_example = read_module_complete sample_context sample 56 sample-Valid

read_module_injective_example : sample_bytes ≡ sample_bytes
read_module_injective_example =
    read_module_injective sample_context sample_bytes sample_bytes 56 56 sample (cursor [] 201)
      (cursor [] 201) sample_bytes-IsBytes sample_bytes-IsBytes sample_read sample_read

read_module_trailing_example :
    read_module sample_context (cursor ((payload sample_context).encode sample ++ 7 ∷ []) 56)
    ≡ err (record {
      code = ErrorKind.malformed_module;
      byte_offset = 56 + length ((payload sample_context).encode sample);
    })
read_module_trailing_example = read_module_trailing sample_context sample 7 [] 56 sample-Valid

-- A digest of 32 bytes that stands in for SHA-256.
abbrev pub zero_digest : Bytes → Bytes
zero_digest bs = replicate 32 0

pub zero_digest_size : (bs : Bytes) → length (zero_digest bs) ≡ 32
zero_digest_size bs = refl

read_envelope_complete_example :
    read_envelope zero_digest any_text default_options
      (envelope zero_digest 9 ((payload sample_context).encode sample))
    ≡ ok sample
read_envelope_complete_example =
    read_envelope_complete zero_digest zero_digest_size any_text default_options 9 sample
      (omega arith) sample-Valid (omega (arith, ap length sample_encoded)) (omega arith)

pub sample_envelope-IsBytes : IsBytes (envelope zero_digest 9 sample_bytes)
unfolding envelope le_bytes
sample_envelope-IsBytes = omega arith

pub sample_accepted :
    read_envelope zero_digest any_text default_options (envelope zero_digest 9 sample_bytes)
    ≡ ok sample
sample_accepted =
    subst
      (λ bs.
        read_envelope zero_digest any_text default_options (envelope zero_digest 9 bs) ≡ ok sample)
      (sym sample_encoded)
      (read_envelope_complete zero_digest zero_digest_size any_text default_options 9 sample
        (omega arith) sample-Valid (omega (arith, ap length sample_encoded)) (omega arith))

read_envelope_sound_example :
    (minor : ℕ) × (minor ≤ 9)
    × (length (envelope zero_digest 9 sample_bytes) ≤ 268435456)
    × (payload (initial default_options any_text minor)).Valid sample
    × (envelope zero_digest 9 sample_bytes
        ≡ envelope zero_digest minor
            ((payload (initial default_options any_text minor)).encode sample))
read_envelope_sound_example =
    read_envelope_sound zero_digest zero_digest_size any_text default_options
      (envelope zero_digest 9 sample_bytes) sample sample_envelope-IsBytes sample_accepted
