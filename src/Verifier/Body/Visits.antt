-- ===== src/Verifier/Body/Visits.antt =====
-- What the context has of every block that the loop of `verify_blocks_and_uses` in
-- native/codegen/ir_verifier.cpp has visited.
use mathlib.Core.List.{Memᴰ}
use mathlib.Core.List.Memᴰ
use neri.Prelude.{
  ℕ, zero, suc, ◌+◌, ◌≡◌, refl, sym, ◌∙◌, subst, List, [], ◌∷◌, some, Bool, true, ◌&&◌, length,
  get_elem?, bit_or, member, arith, some_eq, inl, inr,
}
use neri.Ir.Model.{Bytes, Block, Edge, Instruction}
use neri.Transport.Reader.{ErrorKind, ok}
use neri.Verifier.Check.{fail_if, bind_ok, then_ok, ok_eq}
use neri.Verifier.Types.{is_none}
use neri.Verifier.Context.{FunctionContext}
use neri.Verifier.Instruction.{verify_instruction}
use neri.Verifier.Effect.{Within, Within-bit_or}
use neri.Verifier.Body.Blocks.{
  use_operands, visit_instruction, visit_instructions, needs_location, visit_terminator,
  visit_block, visit_blocks,
}
use neri.Verifier.Body.Endings.{RecordedEnding, ending_kept, visit_terminator-Extends}
use neri.Verifier.Body.Extends.{use_of, Extends, Extends-refl, Extends-trans, use_operands-Extends}

-- A block uses a value at an instruction, or behind the last one in its terminator.
pub data Used (b : Block) : (instruction value : ℕ) → Type 0 where
  operand :
      (index : ℕ) (i : Instruction) (v : ℕ)
      → get_elem? b.instructions index ≡ some i
      → member v i.operands ≡ true
      → Used b index v
  condition : (v : ℕ) → b.ending.condition ≡ some v → Used b (length b.instructions) v
  returned : (v : ℕ) → b.ending.return_value ≡ some v → Used b (length b.instructions) v
  argument :
      (e : Edge) (v : ℕ)
      → Memᴰ e b.ending.edges
      → member v e.arguments ≡ true
      → Used b (length b.instructions) v

module _ (legal_utf8 : Bytes → Bool) (all : List ℕ) where
  -- The check of an instruction has returned effects that the context has.
  abbrev pub Checked : FunctionContext → Instruction → Type 0
  Checked d i =
      (x : FunctionContext) × (effects : ℕ) × (verify_instruction legal_utf8 x i ≡ ok effects)
      × (x.definitions ≡ d.definitions)
      × (x.index ≡ d.index)
      × Within effects d.required_effects

  pub record RecordedInstruction (d : FunctionContext) (block index : ℕ) (i : Instruction)
      : Type 0 where
    pub used : (v : ℕ) → member v i.operands ≡ true → Memᴰ (use_of v block index) d.uses
    pub checked : Checked d i

  instruction_kept :
      (d e : FunctionContext) (block index : ℕ) (i : Instruction)
      → Extends all d e
      → RecordedInstruction d block index i
      → RecordedInstruction e block index i
  instruction_kept d e block index i x r =
      let (y, effects, p, q, s, w) = r.checked in
      record {
        used = λ v m. x.uses_kept (use_of v block index) (r.used v m);
        checked = (
          y,
          effects,
          p,
          q ∙ sym x.definitions_same,
          s ∙ sym x.index_same,
          λ place. omega (arith, w place, x.effects_kept place),
        );
      }

  visit_instruction-Extends :
      (c d : FunctionContext) (block index : ℕ) (i : Instruction)
      → visit_instruction legal_utf8 c block index i ≡ ok d
      → Extends all c d × RecordedInstruction d block index i
  unfolding visit_instruction
  visit_instruction-Extends c d block index i e =
      let (x, p, q) = bind_ok (use_operands c block index i.operands) _ d e in
      let (effects, r, s) = bind_ok (verify_instruction legal_utf8 x i) _ d q in
      let y : FunctionContext = record x { required_effects = bit_or x.required_effects effects } in
      let checks =
        then_ok
          (fail_if (needs_location i.opcode effects && is_none i.location) ErrorKind.invalid_source)
          (ok y) d s in
      let uses = use_operands-Extends all c x block index i.operands p in
      let both = Within-bit_or x.required_effects effects in
      let grown : Extends all x y = record {
        index_same = refl;
        function_same = refl;
        definitions_same = refl;
        blocks_same = refl;
        uses_kept = λ u m. m;
        edges_kept = λ b v m. m;
        effects_kept = both.0;
        closed_kept = λ h. h;
      } in
      subst (λ z. Extends all c z × RecordedInstruction z block index i) (ok_eq y d checks.1)
        (
          Extends-trans all c x y uses.0 grown,
          record { used = uses.1; checked = (x, effects, r, refl, refl, both.1) },
        )

  -- The record of an instruction and of those behind it.
  instruction_at :
      (d : FunctionContext) (block index : ℕ) (j : Instruction) (js : List Instruction)
      → RecordedInstruction d block index j
      → ((k : ℕ) (i : Instruction)
          → get_elem? js k ≡ some i
          → RecordedInstruction d block (index + 1 + k) i)
      → (k : ℕ) (i : Instruction) → get_elem? (j ∷ js) k ≡ some i
      → RecordedInstruction d block (index + k) i
  instruction_at d block index j js r f zero i h =
      subst (λ n. RecordedInstruction d block n i) (omega arith)
        (subst (λ x. RecordedInstruction d block index x) (some_eq j i h) r)
  instruction_at d block index j js r f (suc k) i h =
      subst (λ n. RecordedInstruction d block n i) (omega arith) (f k i h)

  visit_instructions-Extends :
      (c d : FunctionContext) (block index : ℕ) (is : List Instruction)
      → visit_instructions legal_utf8 c block index is ≡ ok d
      → Extends all c d
        × ((k : ℕ) (i : Instruction)
            → get_elem? is k ≡ some i
            → RecordedInstruction d block (index + k) i)
  visit_instructions-Extends c d block index [] e =
      subst
        (λ z.
          Extends all c z
          × ((k : ℕ) (i : Instruction)
              → get_elem? [] k ≡ some i
              → RecordedInstruction z block (index + k) i))
        (ok_eq c d e) (Extends-refl all c, λ k i h. absurd (ground (arith, h)))
  visit_instructions-Extends c d block index (j ∷ js) e =
      let (x, p, q) = bind_ok (visit_instruction legal_utf8 c block index j) _ d e in
      let here = visit_instruction-Extends c x block index j p in
      let rest = visit_instructions-Extends x d block (index + 1) js q in
      (
        Extends-trans all c x d here.0 rest.0,
        instruction_at d block index j js (instruction_kept x d block index j rest.0 here.1) rest.1,
      )

  -- What the context has of a block.
  pub record RecordedBlock (d : FunctionContext) (b : Block) : Type 0 where
    pub instructions :
        (k : ℕ) (i : Instruction)
        → get_elem? b.instructions k ≡ some i
        → RecordedInstruction d b.id k i
    pub ending : RecordedEnding all d b.id (length b.instructions) b.ending

  block_kept :
      (d e : FunctionContext) (b : Block) → Extends all d e → RecordedBlock d b → RecordedBlock e b
  block_kept d e b g r = record {
    instructions = λ k i h. instruction_kept d e b.id k i g (r.instructions k i h);
    ending = ending_kept all d e b.id (length b.instructions) b.ending g r.ending;
  }

  visit_block-Extends :
      (c d : FunctionContext) (b : Block)
      → member b.id all ≡ true
      → visit_block legal_utf8 c b ≡ ok d
      → Extends all c d × RecordedBlock d b
  unfolding visit_block
  visit_block-Extends c d b k h =
      let n = length b.instructions in
      let (x, p, q) =
        bind_ok (visit_instructions legal_utf8 c b.id 0 b.instructions)
          (λ y. visit_terminator y b.id n b.ending) d h in
      let inside = visit_instructions-Extends c x b.id 0 b.instructions p in
      let end = visit_terminator-Extends all x d b.id n b.ending k q in
      (
        Extends-trans all c x d inside.0 end.0,
        record {
          instructions = λ j i e.
              instruction_kept x d b.id j i end.0
                (subst (λ m. RecordedInstruction x b.id m i) (omega arith) (inside.1 j i e));
          ending = end.1;
        },
      )

  pub visit_blocks-Extends :
      (c d : FunctionContext) (bs : List Block)
      → ((b : Block) → Memᴰ b bs → member b.id all ≡ true)
      → visit_blocks legal_utf8 c bs ≡ ok d
      → Extends all c d × ((b : Block) → Memᴰ b bs → RecordedBlock d b)
  visit_blocks-Extends c d [] k h =
      subst (λ y. Extends all c y × ((b : Block) → Memᴰ b [] → RecordedBlock y b)) (ok_eq c d h)
        (Extends-refl all c, λ b m. absurd (Memᴰ.not-nil m))
  visit_blocks-Extends c d (a ∷ bs) k h =
      let (x, p, q) =
        bind_ok (visit_block legal_utf8 c a) (λ y. visit_blocks legal_utf8 y bs) d h in
      let here = visit_block-Extends c x a (k a (Memᴰ.head refl)) p in
      let rest = visit_blocks-Extends x d bs (λ b m. k b (Memᴰ.tail m)) q in
      (
        Extends-trans all c x d here.0 rest.0,
        λ b m. elim (Memᴰ.cases_cons m) [
          | inl z ↦ subst (λ y. RecordedBlock d y) (sym z) (block_kept x d a rest.0 here.1)
          | inr z ↦ rest.1 b z
        ],
      )

  -- Every use of a visited block is among the uses.
  pub Used-recorded :
      (d : FunctionContext) (b : Block) (index v : ℕ)
      → RecordedBlock d b
      → Used b index v
      → Memᴰ (use_of v b.id index) d.uses
  Used-recorded d b index v r (operand k i w e m) =
      RecordedInstruction.used (r.instructions k i e) w m
  Used-recorded d b index v r (condition w e) = RecordedEnding.condition r.ending w e
  Used-recorded d b index v r (returned w e) = RecordedEnding.returned r.ending w e
  Used-recorded d b index v r (argument e w m n) = (RecordedEnding.edges r.ending e m).1 w n
