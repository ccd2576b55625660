-- ===== src/Transport/Wire/Code.antt =====
-- The formats of instructions and terminators.
use neri.Prelude.{
  ℕ, zero, suc, ◌^◌, ◌≤◌, ◌<◌, ◌≡◌, refl, ap, ◌∙◌, false, not, ◌&&◌, List, [], ◌∷◌, Option, none,
  some, arith, length,
}
use neri.Ir.Comparison
use neri.Ir.Opcode
use neri.Ir.Opcode.{Opcode}
use neri.Ir.TerminatorTag
use neri.Ir.TerminatorTag.{TerminatorTag}
use neri.Ir.Model.{ValueDefinition, BlockParameter, Edge, Instruction, Terminator}
use neri.Transport.Reader.{ErrorKind, Context, ◌>>=◌, ◌>>◌, fail_if, pure}
use neri.Transport.Cursor.{decode_contiguous_tag}
use neri.Transport.Code.{
  read_value_definition, read_block_parameter, read_edge, is_c_opcode, read_opcode,
  has_debug_scopes, read_instruction, Ending, no_ending, read_ending, read_terminator,
}
use neri.Transport.Format.Basic.{
  Format, Reads, done, part, pure-Reads, part-Reads, offset-Reads, via, via-Reads, >>=-eq-ok,
  >>=-ok,
}
use neri.Transport.Format.Words.{
  word, le_bytes, u16-Reads, model_number, model_id-Reads, flag_byte, boolean-Reads, tag_word,
  tag_u8-Reads, decode_contiguous_tag-back, decode_contiguous_tag-forth,
}
use neri.Transport.Format.Containers.{text, utf8-Reads, passed, pass}
use neri.Transport.Format.Collections.{
  optional, read_optional-Reads, vector, read_vector-Reads, only, read_when-Reads,
}
use neri.Transport.Format.Choice.{shaped, shaped-Reads, choose, choose-Reads}
use neri.Transport.Wire.Symbols.{symbol, read_symbol-Reads, location, read_location-Reads}
use neri.Transport.Wire.Types.{type_within, read_type-Reads, type_within_bytes}
use neri.Transport.Wire.Constants.{constant_within, read_constant-Reads}

pub model_number_bytes : (n : ℕ) → model_number.Valid n → 1 ≤ length (model_number.encode n)
unfolding model_number via word le_bytes
model_number_bytes n h = omega arith

-- A value: its number and its type.
unfoldable pub value_definition : Context → Format ValueDefinition
value_definition x = part (λ r. r.id) (model_number) (part (λ r. r.value_type) (type_within x) done)

pub read_value_definition-Reads :
    (x : Context) → Reads (read_value_definition x) (value_definition x)
unfolding read_value_definition value_definition
read_value_definition-Reads x = part-Reads (model_id-Reads) λ f0 _.
    part-Reads (read_type-Reads x) λ f1 _. pure-Reads _ ((tt, refl), refl) (λ b h. ground arith)

pub value_definition_bytes :
    (x : Context) (r : ValueDefinition)
    → (value_definition x).Valid r
    → 1 ≤ length ((value_definition x).encode r)
unfolding value_definition part model_number via word le_bytes
value_definition_bytes x r h = omega arith

-- A parameter of a block.
unfoldable pub block_parameter : Context → Format BlockParameter
block_parameter x =
    part (λ r. r.id) (model_number)
      (part (λ r. r.value_type) (type_within x) (part (λ r. r.location) (location x) done))

pub read_block_parameter-Reads : (x : Context) → Reads (read_block_parameter x) (block_parameter x)
unfolding read_block_parameter block_parameter
read_block_parameter-Reads x = part-Reads (model_id-Reads) λ f0 _.
    part-Reads (read_type-Reads x) λ f1 _.
      part-Reads (read_location-Reads x)
        λ f2 _. pure-Reads _ (((tt, refl), refl), refl) (λ b h. ground arith)

pub block_parameter_bytes :
    (x : Context) (r : BlockParameter)
    → (block_parameter x).Valid r
    → 1 ≤ length ((block_parameter x).encode r)
unfolding block_parameter part model_number via word le_bytes
block_parameter_bytes x r h = omega arith

-- An edge: the target block and its arguments.
unfoldable pub edge : Context → Format Edge
edge x =
    part (λ r. r.target) (model_number) (part (λ r. r.arguments) (vector x (model_number)) done)

pub read_edge-Reads : (x : Context) → Reads (read_edge x) (edge x)
unfolding read_edge edge
read_edge-Reads x = part-Reads (model_id-Reads) λ f0 _.
    part-Reads (read_vector-Reads x (model_number_bytes) (model_id-Reads))
      λ f1 _. pure-Reads _ ((tt, refl), refl) (λ b h. ground arith)

-- An opcode; those of C functions need the feature.
unfoldable pub opcode : Context → Format Opcode
opcode x =
    via Opcode.wire (word 2)
      (λ o. (Opcode.wire o < 256 ^ 2) × ((is_c_opcode o && not x.c_interop) ≡ false))

pub read_opcode-Reads : (x : Context) → Reads (read_opcode x) (opcode x)
unfolding read_opcode opcode via word
read_opcode-Reads x = offset-Reads λ o.
    via-Reads Opcode.wire
      (λ o. (Opcode.wire o < 256 ^ 2) × ((is_c_opcode o && not x.c_interop) ≡ false))
      (λ tag. decode_contiguous_tag Opcode.domain tag o >>= λ op.
        fail_if (is_c_opcode op && not x.c_interop) ErrorKind.unsupported_feature o >> pure op)
      u16-Reads
      (λ y c a c' valid e.
        let (op, d, em, ek) = >>=-eq-ok (decode_contiguous_tag Opcode.domain y o) _ c a c' e in
        let (good, same, stay) = passed _ ErrorKind.unsupported_feature o op a d c' ek in
        let (known, stay') = decode_contiguous_tag-back Opcode.domain o y c op d em in
        ((rw (same, known) valid, rw same good), ap Opcode.wire same ∙ known, stay ∙ stay'))
      (λ a c valid. (
        valid.0,
        (>>=-ok (decode_contiguous_tag Opcode.domain (Opcode.wire a) o) _ c a c
              (decode_contiguous_tag-forth Opcode.domain o a c)
            ∙ pass _ ErrorKind.unsupported_feature o a c valid.1),
      ))

-- An instruction.
unfoldable pub instruction : Context → Format Instruction
instruction x =
    part (λ r. r.opcode) (opcode x)
      (part (λ r. r.results) (vector x (value_definition x))
        (part (λ r. r.operands) (vector x (model_number))
          (part (λ r. r.type_arguments) (vector x (type_within x))
            (part (λ r. r.symbol) (optional (symbol x))
              (part (λ r. r.constant_value) (optional (constant_within x))
                (part (λ r. r.predicate) (optional (tag_word 1 Comparison.domain))
                  (part (λ r. r.flag) (flag_byte)
                    (part (λ r. r.location) (location x)
                      (part (λ r. r.debug_scope_id) (only (has_debug_scopes x) (model_number) 0)
                        done)))))))))

pub read_instruction-Reads : (x : Context) → Reads (read_instruction x) (instruction x)
unfolding read_instruction instruction
read_instruction-Reads x = part-Reads (read_opcode-Reads x) λ f0 _.
    part-Reads (read_vector-Reads x (value_definition_bytes x) (read_value_definition-Reads x))
      λ f1 _. part-Reads (read_vector-Reads x (model_number_bytes) (model_id-Reads)) λ f2 _.
        part-Reads (read_vector-Reads x (type_within_bytes x) (read_type-Reads x)) λ f3 _.
          part-Reads (read_optional-Reads (read_symbol-Reads x)) λ f4 _.
            part-Reads (read_optional-Reads (read_constant-Reads x)) λ f5 _.
              part-Reads (read_optional-Reads (tag_u8-Reads Comparison.domain)) λ f6 _.
                part-Reads (boolean-Reads) λ f7 _. part-Reads (read_location-Reads x) λ f8 _.
                  part-Reads (read_when-Reads (has_debug_scopes x) 0 (model_id-Reads)) λ f9 _.
                    pure-Reads _
                      (
                        (((((((((tt, refl), refl), refl), refl), refl), refl), refl), refl), refl),
                        refl,
                      )
                      (λ b h. ground arith)

pub instruction_bytes :
    (x : Context) (r : Instruction)
    → (instruction x).Valid r
    → 1 ≤ length ((instruction x).encode r)
unfolding instruction opcode part via word le_bytes
instruction_bytes x r h = omega arith

abbrev pub no_edge : Edge
no_edge = record { target = 0; arguments = [] }

abbrev pub edge_at : List Edge → ℕ → Edge
edge_at [] n = no_edge
edge_at (e ∷ es) zero = e
edge_at (e ∷ es) (suc n) = edge_at es n

abbrev pub number_or : Option ℕ → ℕ
number_or none = 0
number_or (some n) = n

-- What the tag of a terminator brings.
unfoldable pub ending : Context → TerminatorTag → Format Ending
ending x TerminatorTag.branch =
    shaped (λ e. e ≡ record no_ending { edges = edge_at e.edges 0 ∷ [] })
      (part (λ e. edge_at e.edges 0) (edge x) done)
ending x TerminatorTag.conditional_branch =
    shaped
      (λ e. e ≡ record no_ending {
        condition = some (number_or e.condition);
        edges = edge_at e.edges 0 ∷ edge_at e.edges 1 ∷ [];
      })
      (part (λ e. number_or e.condition) model_number
        (part (λ e. edge_at e.edges 0) (edge x) (part (λ e. edge_at e.edges 1) (edge x) done)))
ending x TerminatorTag.return =
    shaped (λ e. e ≡ record no_ending { return_value = e.return_value })
      (part (λ e. e.return_value) (optional model_number) done)
ending x TerminatorTag.panic =
    shaped
      (λ e. e ≡ record no_ending { panic_code = e.panic_code; panic_message = e.panic_message })
      (part (λ e. e.panic_code) (text x) (part (λ e. e.panic_message) (text x) done))

read_ending-Reads : (x : Context) (tag : TerminatorTag) → Reads (read_ending x tag) (ending x tag)
unfolding read_ending ending
read_ending-Reads x TerminatorTag.branch =
    shaped-Reads
      (part-Reads (read_edge-Reads x) λ e _. pure-Reads _ (refl, refl) (λ b h. rw (← h.1) h.0))
      (λ e h. tt)
read_ending-Reads x TerminatorTag.conditional_branch =
    shaped-Reads
      (part-Reads model_id-Reads λ n _. part-Reads (read_edge-Reads x) λ d _.
        part-Reads (read_edge-Reads x) λ e _.
          pure-Reads _ (((refl, refl), refl), refl) (λ b h. rw (← h.0.0.1, ← h.0.1, ← h.1) h.0.0.0))
      (λ e h. tt)
read_ending-Reads x TerminatorTag.return =
    shaped-Reads
      (part-Reads (read_optional-Reads model_id-Reads)
        λ e _. pure-Reads _ (refl, refl) (λ b h. rw (← h.1) h.0))
      (λ e h. tt)
read_ending-Reads x TerminatorTag.panic =
    shaped-Reads
      (part-Reads (utf8-Reads x) λ c _.
        part-Reads (utf8-Reads x)
          λ m _. pure-Reads _ ((refl, refl), refl) (λ b h. rw (← h.0.1, ← h.1) h.0.0))
      (λ e h. tt)

abbrev pub ending_of : Terminator → Ending
ending_of t = record {
  condition = t.condition;
  edges = t.edges;
  return_value = t.return_value;
  panic_code = t.panic_code;
  panic_message = t.panic_message;
}

-- What follows the tag of a terminator.
unfoldable pub terminator_body : Context → TerminatorTag → Format Terminator
terminator_body x tag = part ending_of (ending x tag) (
    part (λ t. t.location) (location x)
      (part (λ t. t.debug_scope_id) (only (has_debug_scopes x) model_number 0) done))

unfoldable pub terminator : Context → Format Terminator
terminator x =
    part (λ t. t.tag) (tag_word 1 TerminatorTag.domain) (choose (λ t. t.tag) (terminator_body x))

pub read_terminator-Reads : (x : Context) → Reads (read_terminator x) (terminator x)
unfolding read_terminator terminator terminator_body
read_terminator-Reads x = part-Reads (tag_u8-Reads TerminatorTag.domain) λ tag _.
    choose-Reads (terminator_body x) tag (
      part-Reads (read_ending-Reads x tag) λ e _. part-Reads (read_location-Reads x) λ l _.
        part-Reads (read_when-Reads (has_debug_scopes x) 0 model_id-Reads)
          λ s _. pure-Reads _ ((((tt, refl), refl), refl), refl) (λ b h. ground arith))
