-- ===== src/Transport/Wire/Functions.antt =====
-- The formats of blocks and functions.
use neri.Prelude.{ℕ, ◌≤◌, ◌≡◌, refl, false, [], Option, none, some, leb, arith, length}
use neri.Ir.FunctionKind
use neri.Ir.Model.{SourceLocation, Block, DebugScope, DebugLocal, Function}
use neri.Transport.Reader.{Context, Cursor, ok, continue, offset, ◌>>=◌, fail, pure}
use neri.Transport.Code.{
  read_block, has_debug_scopes, require_location, read_required_location, read_debug_scope,
  read_debug_local, read_function,
}
use neri.Transport.Format.Basic.{Format, Reads, done, part, pure-Reads, part-Reads, via, via-Reads}
use neri.Transport.Format.Words.{
  word, le_bytes, model_number, model_id-Reads, flag_byte, boolean-Reads, tag_word, tag_u8-Reads,
}
use neri.Transport.Format.Containers.{text, utf8-Reads, identity_text, size_within}
use neri.Transport.Format.Collections.{
  optional, read_optional-Reads, vector, read_vector-Reads, only, read_when-Reads,
}
use neri.Transport.Wire.Symbols.{symbol, read_symbol-Reads, location, read_location-Reads}
use neri.Transport.Wire.Types.{type_within, read_type-Reads, type_within_bytes}
use neri.Transport.Wire.Declarations.{effect_bits, read_effects-Reads}
use neri.Transport.Wire.Code.{
  value_definition, read_value_definition-Reads, block_parameter, read_block_parameter-Reads,
  block_parameter_bytes, instruction, read_instruction-Reads, instruction_bytes, terminator,
  read_terminator-Reads,
}

-- A block: its parameters, its instructions and how it ends.
unfoldable pub block : Context → Format Block
block x =
    part (λ r. r.id) (model_number)
      (part (λ r. r.parameters) (vector x (block_parameter x))
        (part (λ r. r.instructions) (vector x (instruction x))
          (part (λ r. r.ending) (terminator x) done)))

pub read_block-Reads : (x : Context) → Reads (read_block x) (block x)
unfolding read_block block
read_block-Reads x = part-Reads (model_id-Reads) λ f0 _.
    part-Reads (read_vector-Reads x (block_parameter_bytes x) (read_block_parameter-Reads x))
      λ f1 _.
        part-Reads (read_vector-Reads x (instruction_bytes x) (read_instruction-Reads x)) λ f2 _.
          part-Reads (read_terminator-Reads x)
            λ f3 _. pure-Reads _ ((((tt, refl), refl), refl), refl) (λ b h. ground arith)

pub block_bytes : (x : Context) (r : Block) → (block x).Valid r → 1 ≤ length ((block x).encode r)
unfolding block part model_number via word le_bytes
block_bytes x r h = omega arith

-- A location that is there.
unfoldable pub required_location : Context → Format SourceLocation
required_location x = via some (location x) (λ l. (location x).Valid (some l))

require-back :
    (y : Option SourceLocation) (o : ℕ) (c : Cursor) (a : SourceLocation) (c' : Cursor)
    → require_location y o c ≡ ok (a, c')
    → (some a ≡ y) × (c' ≡ c)
unfolding require_location fail pure
require-back none o c a c' e = cc
require-back (some l) o c a c' e = ground arith

pub read_required_location-Reads :
    (x : Context) → Reads (read_required_location x) (required_location x)
unfolding read_required_location required_location via ◌>>=◌ continue offset
read_required_location-Reads x =
    via-Reads some (λ l. (location x).Valid (some l)) (λ y. offset >>= λ o. require_location y o)
      (read_location-Reads x)
      (λ y c a c' valid e.
        let (same, stay) = require-back y c.position c a c' e in (rw same valid, same, stay))
      (λ a c valid. (valid, unfold require_location pure in refl))

-- A debug scope, which has a location.
unfoldable pub debug_scope : Context → Format DebugScope
debug_scope x =
    part (λ r. r.id) (model_number)
      (part (λ r. r.parent_id) (model_number) (part (λ r. r.location) (required_location x) done))

pub read_debug_scope-Reads : (x : Context) → Reads (read_debug_scope x) (debug_scope x)
unfolding read_debug_scope debug_scope
read_debug_scope-Reads x = part-Reads (model_id-Reads) λ f0 _. part-Reads (model_id-Reads) λ f1 _.
    part-Reads (read_required_location-Reads x)
      λ f2 _. pure-Reads _ (((tt, refl), refl), refl) (λ b h. ground arith)

pub debug_scope_bytes :
    (x : Context) (r : DebugScope) → (debug_scope x).Valid r → 1 ≤ length ((debug_scope x).encode r)
unfolding debug_scope part model_number via word le_bytes
debug_scope_bytes x r h = omega arith

-- A debug local, which has a location; its scope comes with the feature.
unfoldable pub debug_local : Context → Format DebugLocal
debug_local x =
    part (λ r. r.name) (text x)
      (part (λ r. r.value) (model_number)
        (part (λ r. r.scope_id) (only (has_debug_scopes x) (model_number) 0)
          (part (λ r. r.location) (required_location x) done)))

pub read_debug_local-Reads : (x : Context) → Reads (read_debug_local x) (debug_local x)
unfolding read_debug_local debug_local
read_debug_local-Reads x = part-Reads (utf8-Reads x) λ f0 _. part-Reads (model_id-Reads) λ f1 _.
    part-Reads (read_when-Reads (has_debug_scopes x) 0 (model_id-Reads)) λ f2 _.
      part-Reads (read_required_location-Reads x)
        λ f3 _. pure-Reads _ ((((tt, refl), refl), refl), refl) (λ b h. ground arith)

pub debug_local_bytes :
    (x : Context) (r : DebugLocal) → (debug_local x).Valid r → 1 ≤ length ((debug_local x).encode r)
unfolding debug_local part text via size_within word le_bytes
debug_local_bytes x r h = omega arith

-- A function; features and the transport minor decide about five of its fields.
unfoldable pub function : Context → Format Function
function x =
    part (λ r. r.id) (symbol x)
      (part (λ r. r.parameter_types) (vector x (type_within x))
        (part (λ r. r.result_type) (type_within x)
          (part (λ r. r.kind) (tag_word 1 FunctionKind.domain)
            (part (λ r. r.effects) (effect_bits)
              (part (λ r. r.unsafe_call) (flag_byte)
                (part (λ r. r.retained) (only (x.retained_modules) (flag_byte) false)
                  (part (λ r. r.export_name) (only (x.c_interop) (text x) [])
                    (part (λ r. r.entry_block) (model_number)
                      (part (λ r. r.unsafe_root) (optional (value_definition x))
                        (part (λ r. r.declaring_class) (optional (symbol x))
                          (part (λ r. r.dispatch_slot) (optional (symbol x))
                            (part (λ r. r.location) (location x)
                              (part (λ r. r.blocks) (vector x (block x))
                                (part (λ r. r.debug_scopes)
                                  (only (has_debug_scopes x) (vector x (debug_scope x)) [])
                                  (part (λ r. r.debug_locals)
                                    (only (leb 1 x.transport_minor) (vector x (debug_local x)) [])
                                    done)))))))))))))))

pub read_function-Reads : (x : Context) → Reads (read_function x) (function x)
unfolding read_function function
read_function-Reads x = part-Reads (read_symbol-Reads x) λ f0 _.
    part-Reads (read_vector-Reads x (type_within_bytes x) (read_type-Reads x)) λ f1 _.
      part-Reads (read_type-Reads x) λ f2 _. part-Reads (tag_u8-Reads FunctionKind.domain) λ f3 _.
        part-Reads (read_effects-Reads) λ f4 _. part-Reads (boolean-Reads) λ f5 _.
          part-Reads (read_when-Reads (x.retained_modules) false (boolean-Reads)) λ f6 _.
            part-Reads (read_when-Reads (x.c_interop) [] (utf8-Reads x)) λ f7 _.
              part-Reads (model_id-Reads) λ f8 _.
                part-Reads (read_optional-Reads (read_value_definition-Reads x)) λ f9 _.
                  part-Reads (read_optional-Reads (read_symbol-Reads x)) λ f10 _.
                    part-Reads (read_optional-Reads (read_symbol-Reads x)) λ f11 _.
                      part-Reads (read_location-Reads x) λ f12 _.
                        part-Reads (read_vector-Reads x (block_bytes x) (read_block-Reads x))
                          λ f13 _.
                            part-Reads
                              (read_when-Reads (has_debug_scopes x) [] (
                                read_vector-Reads x (debug_scope_bytes x)
                                  (read_debug_scope-Reads x)))
                              λ f14 _.
                                part-Reads
                                  (read_when-Reads (leb 1 x.transport_minor) [] (
                                    read_vector-Reads x (debug_local_bytes x)
                                      (read_debug_local-Reads x)))
                                  λ f15 _.
                                    pure-Reads _
                                      (
                                        (
                                          (
                                            (
                                              (
                                                (
                                                  (
                                                    (
                                                      (
                                                        (
                                                          (
                                                            (
                                                            ((((tt, refl), refl), refl), refl),
                                                            refl,
                                                            ),
                                                            refl,
                                                          ),
                                                          refl,
                                                        ),
                                                        refl,
                                                      ),
                                                      refl,
                                                    ),
                                                    refl,
                                                  ),
                                                  refl,
                                                ),
                                                refl,
                                              ),
                                              refl,
                                            ),
                                            refl,
                                          ),
                                          refl,
                                        ),
                                        refl,
                                      )
                                      (λ b h. ground arith)

pub function_bytes :
    (x : Context) (r : Function) → (function x).Valid r → 1 ≤ length ((function x).encode r)
unfolding function symbol part identity_text via text size_within word le_bytes
function_bytes x r h = omega arith
