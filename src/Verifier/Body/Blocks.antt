-- ===== src/Verifier/Body/Blocks.antt =====
-- `register_definitions`, `register_use`, `verify_edge` and `verify_blocks_and_uses` of
-- native/codegen/ir_verifier.cpp.
use neri.Prelude.{
  ℕ, ◌+◌, List, [], ◌∷◌, ◌++◌, Option, none, some, Bool, ◌&&◌, ◌||◌, not, ◌==◌, if◌then◌else◌,
  length, bit_or, bit_and, map_find, map_set,
}
use neri.Ir.Model.{
  Bytes, Block, BlockParameter, Edge, Terminator, Function, IrModule, Instruction, ValueDefinition,
}
use neri.Ir.Opcode.{Opcode}
use neri.Ir.TypeTag.{TypeTag}
use neri.Ir.TerminatorTag.{TerminatorTag}
use neri.Transport.Reader.{ErrorKind, Result, ok}
use neri.Verifier.Check.{◌>>=◌, ◌>>◌, fail, fail_if, found}
use neri.Verifier.Types.{same_type, is_none, plain, is_void, is_unsafe_capability}
use neri.Verifier.Lookup.{verify_location}
use neri.Verifier.Context.{
  Definition, FunctionContext, require_value_type, has_value, definition_type,
}
use neri.Verifier.Pointers.{is_opcode}
use neri.Verifier.Instruction.{verify_instruction}
use neri.Verifier.Effect

abbrev pub Definitions : Type 0
Definitions = List (ℕ × Definition)

-- `definitions.emplace`, which must not find an entry.
unfoldable pub define : ErrorKind → ℕ → Definition → Definitions → Result Definitions
define code id d ds = fail_if (has_value (map_find id ds)) code >> ok (map_set id d ds)

unfoldable pub define_root : Function → Definitions → Result Definitions
define_root f ds = elim f.unsafe_root [
  | none ↦ ok ds
  | some root ↦
      fail_if (not (is_unsafe_capability (ValueDefinition.value_type root)))
        ErrorKind.invalid_safety
      >> define ErrorKind.invalid_safety (ValueDefinition.id root)
          (record {
            value_type = ValueDefinition.value_type root;
            block = f.entry_block;
            instruction = none;
          })
          ds
]

module _ (m : IrModule) (block : ℕ) where
  abbrev pub define_parameters : List BlockParameter → Definitions → Result Definitions
  define_parameters [] ds = ok ds
  define_parameters (p ∷ ps) ds =
      require_value_type p.value_type
      >> verify_location m p.location
      >> (define ErrorKind.invalid_ssa p.id
            (record { value_type = p.value_type; block = block; instruction = none }) ds
          >>= λ es. define_parameters ps es)

  abbrev pub define_results : (index : ℕ) → List ValueDefinition → Definitions → Result Definitions
  define_results index [] ds = ok ds
  define_results index (r ∷ rs) ds =
      require_value_type r.value_type
      >> (define ErrorKind.invalid_ssa r.id
            (record { value_type = r.value_type; block = block; instruction = some index }) ds
          >>= λ es. define_results index rs es)

  abbrev pub define_instructions : (index : ℕ) → List Instruction → Definitions → Result Definitions
  define_instructions index [] ds = ok ds
  define_instructions index (i ∷ is) ds =
      verify_location m i.location
      >> (define_results index i.results ds >>= λ es. define_instructions (index + 1) is es)

abbrev pub define_blocks : IrModule → List Block → Definitions → Result Definitions
define_blocks m [] ds = ok ds
define_blocks m (b ∷ bs) ds = define_parameters m b.id b.parameters ds >>= λ es.
    define_instructions m b.id 0 b.instructions es >>= λ fs. define_blocks m bs fs

unfoldable pub register_definitions : IrModule → Function → Result Definitions
register_definitions m f = define_root f [] >>= λ ds. define_blocks m f.blocks ds

unfoldable pub register_use :
    FunctionContext → (value block instruction : ℕ) → Result FunctionContext
register_use c value block instruction =
    fail_if (is_none (map_find value c.definitions)) ErrorKind.invalid_ssa
    >> ok (record c {
      uses = c.uses ++ (record { value = value; block = block; instruction = instruction } ∷ []);
    })

-- `map[key].push_back(value)`.
unfoldable pub push : ℕ → ℕ → List (ℕ × List ℕ) → List (ℕ × List ℕ)
push key value m = elim (map_find key m) [
  | none ↦ map_set key (value ∷ []) m
  | some values ↦ map_set key (values ++ (value ∷ [])) m
]

-- The arguments of an edge with the parameters of its target, whose numbers are equal.
abbrev pub edge_arguments :
    FunctionContext
    → (source instruction : ℕ) → List ℕ
    → List BlockParameter
    → Result FunctionContext
edge_arguments c source instruction [] ps = ok c
edge_arguments c source instruction (v ∷ vs) [] = ok c
edge_arguments c source instruction (v ∷ vs) (p ∷ ps) = register_use c v source instruction >>= λ d.
    definition_type d v >>= λ t.
    fail_if (not (same_type t (BlockParameter.value_type p))) ErrorKind.invalid_control_flow
    >> edge_arguments d source instruction vs ps

unfoldable pub add_edge : (source target : ℕ) → FunctionContext → FunctionContext
add_edge source target c = record c {
  successors = push source target c.successors;
  predecessors = push target source c.predecessors;
}

-- The edge with the block that it leads to.
unfoldable pub edge_to :
    FunctionContext → (source : ℕ) → Edge → (instruction : ℕ) → Block → Result FunctionContext
edge_to c source e instruction target =
    fail_if (e.target == Function.entry_block c.function) ErrorKind.unsupported_feature
    >> fail_if (not (length e.arguments == length (Block.parameters target)))
        ErrorKind.invalid_control_flow
    >> (edge_arguments c source instruction e.arguments (Block.parameters target) >>= λ d.
        ok (add_edge source e.target d))

unfoldable pub verify_edge :
    FunctionContext → (source : ℕ) → Edge → (instruction : ℕ) → Result FunctionContext
verify_edge c source e instruction =
    found (map_find e.target c.blocks) ErrorKind.invalid_control_flow >>= λ target.
    edge_to c source e instruction target

-- The uses of an instruction's operands.
abbrev pub use_operands : FunctionContext → (block index : ℕ) → List ℕ → Result FunctionContext
use_operands c block index [] = ok c
use_operands c block index (v ∷ vs) =
    register_use c v block index >>= λ d. use_operands d block index vs

-- The instruction must have a location.
unfoldable pub needs_location : Opcode → (effects : ℕ) → Bool
needs_location o effects =
    not (bit_and effects Effect.may_panic == 0)
    || is_opcode o Opcode.call
    || is_opcode o Opcode.call_direct
    || is_opcode o Opcode.call_virtual
    || is_opcode o Opcode.call_import
    || is_opcode o Opcode.call_c_abi

module _ (legal_utf8 : Bytes → Bool) where
  unfoldable pub visit_instruction :
      FunctionContext → (block index : ℕ) → Instruction → Result FunctionContext
  visit_instruction c block index i = use_operands c block index i.operands >>= λ d.
      verify_instruction legal_utf8 d i >>= λ effects.
      fail_if (needs_location i.opcode effects && is_none i.location) ErrorKind.invalid_source
      >> ok (record d { required_effects = bit_or d.required_effects effects })

  abbrev pub visit_instructions :
      FunctionContext → (block index : ℕ) → List Instruction → Result FunctionContext
  visit_instructions c block index [] = ok c
  visit_instructions c block index (i ∷ is) =
      visit_instruction c block index i >>= λ d. visit_instructions d block (index + 1) is

-- The cases of the terminator; `instruction` is the number of instructions.
abbrev pub only_edge :
    FunctionContext → (block instruction : ℕ) → List Edge → Result FunctionContext
only_edge c block instruction [] = fail ErrorKind.invalid_control_flow
only_edge c block instruction (e ∷ es) =
    fail_if (not (length es == 0)) ErrorKind.invalid_control_flow
    >> verify_edge c block e instruction

unfoldable pub branch :
    FunctionContext → (block instruction : ℕ) → Terminator → Result FunctionContext
branch c block instruction t =
    fail_if (has_value t.condition || has_value t.return_value) ErrorKind.invalid_control_flow
    >> only_edge c block instruction t.edges

unfoldable pub two_edges : List Edge → Option (Edge × Edge)
two_edges [] = none
two_edges (e ∷ []) = none
two_edges (e ∷ f ∷ []) = some (e, f)
two_edges (e ∷ f ∷ g ∷ es) = none

-- The condition and the two edges.
unfoldable pub conditional_edges :
    FunctionContext → (block instruction condition : ℕ) → Edge × Edge → Result FunctionContext
conditional_edges c block instruction condition edges =
    register_use c condition block instruction >>= λ d. definition_type d condition >>= λ type.
    fail_if (not (same_type type (plain TypeTag.bool))) ErrorKind.invalid_type
    >> (verify_edge d block edges.0 instruction >>= λ e. verify_edge e block edges.1 instruction)

unfoldable pub conditional_branch :
    FunctionContext → (block instruction : ℕ) → Terminator → Result FunctionContext
conditional_branch c block instruction t =
    fail_if (has_value t.return_value) ErrorKind.invalid_control_flow
    >> (found (two_edges t.edges) ErrorKind.invalid_control_flow >>= λ edges.
        found t.condition ErrorKind.invalid_control_flow >>= λ condition.
        conditional_edges c block instruction condition edges)

-- The value that is returned.
unfoldable pub returned_value :
    FunctionContext → (block instruction value : ℕ) → Result FunctionContext
returned_value c block instruction value = register_use c value block instruction >>= λ d.
    definition_type d value >>= λ type.
    fail_if (not (same_type type (Function.result_type c.function))) ErrorKind.invalid_type >> ok d

unfoldable pub return_value :
    FunctionContext → (block instruction : ℕ) → Terminator → Result FunctionContext
return_value c block instruction t =
    fail_if (not (length t.edges == 0) || has_value t.condition) ErrorKind.invalid_control_flow
    >> (if is_void (Function.result_type c.function)
        then (fail_if (has_value t.return_value) ErrorKind.invalid_type >> ok c)
        else (found t.return_value ErrorKind.invalid_type >>= λ value.
            returned_value c block instruction value))

unfoldable pub panic : FunctionContext → Terminator → Result FunctionContext
panic c t =
    fail_if
      (not (length t.edges == 0)
        || has_value t.condition
        || has_value t.return_value
        || length t.panic_code == 0
        || length t.panic_message == 0
        || is_none t.location)
      ErrorKind.invalid_control_flow
    >> ok (record c { required_effects = bit_or c.required_effects Effect.may_panic })

abbrev pub terminator_case :
    TerminatorTag → FunctionContext → (block instruction : ℕ) → Terminator → Result FunctionContext
terminator_case TerminatorTag.branch c block instruction t = branch c block instruction t
terminator_case TerminatorTag.conditional_branch c block instruction t =
    conditional_branch c block instruction t
terminator_case TerminatorTag.return c block instruction t = return_value c block instruction t
terminator_case TerminatorTag.panic c block instruction t = panic c t

unfoldable pub visit_terminator :
    FunctionContext → (block instruction : ℕ) → Terminator → Result FunctionContext
visit_terminator c block instruction t =
    verify_location c.index t.location >> terminator_case t.tag c block instruction t

unfoldable pub visit_block :
    (legal_utf8 : Bytes → Bool) → FunctionContext → Block → Result FunctionContext
visit_block legal_utf8 c b = visit_instructions legal_utf8 c b.id 0 b.instructions >>= λ d.
    visit_terminator d b.id (length b.instructions) b.ending

abbrev pub visit_blocks :
    (legal_utf8 : Bytes → Bool) → FunctionContext → List Block → Result FunctionContext
visit_blocks legal_utf8 c [] = ok c
visit_blocks legal_utf8 c (b ∷ bs) =
    visit_block legal_utf8 c b >>= λ d. visit_blocks legal_utf8 d bs
