-- ===== src/Verifier/Body/Sound.antt =====
-- What an accepted body promises, on all paths through the function: `verify_function` of
-- native/codegen/ir_verifier.cpp.
use mathlib.Core.List.{Memᴰ}
use mathlib.Core.List.Memᴰ
use neri.Prelude.{
  ℕ, ◌≤◌, ◌<◌, ◌≡◌, refl, sym, ap, ◌∙◌, subst, List, [], ◌∷◌, Option, none, some, Bool, true, false,
  ◌&&◌, not, ◌==◌, ==_iff, if◌then◌else◌, length, get_elem?, member, keys, map_find, map_set,
  member-keys_set, map_find-keys, bit_and, arith, Bool-cases, Option-cases, ◌⊎◌, inl, inr, map,
}
use neri.Ir.Model.{Bytes, Block, Edge, Function, IrModule, Instruction}
use neri.Transport.Reader.{ErrorKind, ok}
use neri.Verifier.Check.{
  ◌>>◌, fail_if, found, bind_ok, then_ok, fail_if_ok, found_ok, each, each_ok,
}
use neri.Verifier.Lookup.{any}
use neri.Verifier.Context.{Definition, FunctionContext, has_value}
use neri.Verifier.Instruction.{verify_instruction}
use neri.Verifier.Effect.{digit, Within, Within-complement, complement}
use neri.Verifier.Effect
use neri.Verifier.Flow.Dominance.{Dominators, at, dominators}
use neri.Verifier.Flow.Sound.{Walk, here, step}
use neri.Verifier.Flow.Exact.{dominators_visited}
use neri.Verifier.Flow.Order.{verify_canonical_cfg}
use neri.Verifier.Body.Blocks.{Definitions, register_definitions, visit_blocks}
use neri.Verifier.Body.Extends.{use_of, Closed, Extends}
use neri.Verifier.Body.Endings.{RecordedEnding}
use neri.Verifier.Body.Visits.{
  Used, RecordedInstruction, RecordedBlock, visit_blocks-Extends, Used-recorded,
}
use neri.Verifier.Body.Whole.{
  number_blocks, parameters_match, entry_first, neighbours, not_before, check_use,
  verify_blocks_and_uses, verify_dominance, verify_flow, check_effects, check_debug, verify_body,
  returns,
}

number_blocks-kept :
    (k : ℕ) (bs : List Block) (m : List (ℕ × Block))
    → member k (keys m) ≡ true
    → member k (keys (number_blocks bs m)) ≡ true
unfolding number_blocks
number_blocks-kept k [] m h = h
number_blocks-kept k (b ∷ bs) m h =
    number_blocks-kept k bs (if has_value (map_find b.id m) then m else map_set b.id b m)
      (ground (arith, h, member-keys_set k b.id b m))

number_blocks-all :
    (b : Block) (bs : List Block) (m : List (ℕ × Block))
    → Memᴰ b bs
    → member b.id (keys (number_blocks bs m)) ≡ true
unfolding number_blocks
number_blocks-all b [] m h = absurd (Memᴰ.not-nil h)
number_blocks-all b (a ∷ bs) m h =
    let next = if has_value (map_find a.id m) then m else map_set a.id a m in
    elim (Memᴰ.cases_cons h) [
      | inl z ↦
          let known : member a.id (keys next) ≡ true = elim (Option-cases (map_find a.id m)) [
            | inl e ↦ ground (arith, e, member-keys_set a.id a.id a m, (==_iff a.id a.id).1 refl)
            | inr (x, e) ↦ ground (arith, e, map_find-keys a.id x m e)
          ] in
          subst (λ y. member (Block.id y) (keys (number_blocks bs next)) ≡ true) (sym z)
            (number_blocks-kept a.id bs next known)
      | inr z ↦ number_blocks-all b bs next z
    ]

-- A path through the function, along the edges of its terminators, with the blocks it has visited.
pub data Trail (f : Function) : ℕ → List ℕ → Type 0 where
  start : Trail f f.entry_block (f.entry_block ∷ [])
  follow :
      (b : Block) (e : Edge) {visited : List ℕ}
      → Trail f b.id visited
      → Memᴰ b f.blocks
      → Memᴰ e b.ending.edges
      → Trail f e.target (e.target ∷ visited)

-- Every path to the second block has visited the first.
abbrev pub Dominating : Function → ℕ → ℕ → Type 0
Dominating f a b = (visited : List ℕ) → Trail f b visited → member a visited ≡ true

-- A parameter, or the result of an instruction before this one.
abbrev pub Precedes : Option ℕ → ℕ → Type 0
Precedes none instruction = Unit
Precedes (some index) instruction = index < instruction

precedes : (o : Option ℕ) (n : ℕ) → not_before o n ≡ false → Precedes o n
precedes none n h = tt
precedes (some index) n h = ground (arith, h)

module _ (legal_utf8 : Bytes → Bool) (m : IrModule) (f : Function) where
  abbrev numbers : List ℕ
  numbers = keys (number_blocks f.blocks [])

  abbrev first_context : Definitions → FunctionContext
  first_context ds = record {
    index = m;
    function = f;
    blocks = number_blocks f.blocks [];
    successors = [];
    predecessors = [];
    definitions = ds;
    uses = [];
    required_effects = 0;
  }

  -- The visit that an accepted body has passed.
  record Visit (c : FunctionContext) : Type 0 where
    definitions : Definitions
    registered : register_definitions m f ≡ ok definitions
    entry : member f.entry_block numbers ≡ true
    extends : Extends numbers (first_context definitions) c
    recorded : (b : Block) → Memᴰ b f.blocks → RecordedBlock legal_utf8 numbers c b

  blocks_visited : (c : FunctionContext) → verify_blocks_and_uses legal_utf8 m f ≡ ok c → Visit c
  unfolding verify_blocks_and_uses
  blocks_visited c h =
      let blocks = number_blocks f.blocks [] in
      let inside =
        then_ok (fail_if (not (length blocks == length f.blocks)) ErrorKind.invalid_control_flow) _
          c h in
      let (entry, p, q) = bind_ok (found (map_find f.entry_block blocks) _) _ c inside.1 in
      let behind = then_ok (entry_first f) _ c q in
      let (ds, r, s) = bind_ok (register_definitions m f) _ c behind.1 in
      let last =
        then_ok (parameters_match (Block.parameters entry) f.parameter_types)
          (visit_blocks legal_utf8 (first_context ds) f.blocks) c s in
      let visit =
        visit_blocks-Extends legal_utf8 numbers (first_context ds) c f.blocks
          (λ b x. number_blocks-all b f.blocks [] x) last.1 in
      record {
        definitions = ds;
        registered = r;
        entry =
            map_find-keys f.entry_block entry blocks
              (found_ok (map_find f.entry_block blocks) _ entry p);
        extends = visit.0;
        recorded = visit.1;
      }

  -- A path of the function is a walk along the recorded predecessors.
  Trail-Walk :
      (c : FunctionContext)
      → Visit c
      → {b : ℕ} {visited : List ℕ} → Trail f b visited
      → Walk f.entry_block (neighbours c.predecessors) b visited
  Trail-Walk c v start = here
  Trail-Walk c v (follow b e p k l) =
      step e.target (Trail-Walk c v p)
        (RecordedEnding.edges (RecordedBlock.ending (v.recorded b k)) e l).0

  Visit-Closed : (c : FunctionContext) → Visit c → Closed numbers c
  Visit-Closed c v = Extends.closed_kept v.extends (λ b p h. absurd (ground (arith, h)))

  -- A use that has passed its check is dominated by its definition.
  checked_use :
      (c : FunctionContext) (d : Dominators) (value block instruction : ℕ)
      → Visit c
      → dominators f.entry_block (neighbours c.predecessors) numbers ≡ ok d
      → check_use d c.definitions (use_of value block instruction) ≡ ok tt
      → (x : Definition) × (map_find value c.definitions ≡ some x)
        × (((x.block ≡ block) × Precedes x.instruction instruction) ⊎ Dominating f x.block block)
  unfolding check_use
  checked_use c d value block instruction v h e =
      let (x, p, q) = bind_ok (found (map_find value c.definitions) ErrorKind.invalid_ssa) _ tt e in
      let bad =
        if x.block == block
        then not_before x.instruction instruction
        else not (member x.block (at d block)) in
      let passed = fail_if_ok bad ErrorKind.invalid_ssa q in
      (
        x,
        found_ok (map_find value c.definitions) _ x p,
        elim (Bool-cases (x.block == block)) [
          | inl z ↦ inl (
            (==_iff x.block block).0 z,
            precedes x.instruction instruction (ground (arith, z, passed)),
          )
          | inr z ↦ inr (λ visited w.
              dominators_visited f.entry_block (neighbours c.predecessors) numbers d
                (Visit-Closed c v) v.entry h x.block block (ground (arith, z, passed)) visited
                (Trail-Walk c v w))
        ],
      )

  -- The parts of an accepted body.
  record Accepted (c : FunctionContext) : Type 0 where
    visited : Visit c
    flow : verify_flow c ≡ ok tt
    effects : check_effects f c.required_effects ≡ ok tt

  body-Accepted : verify_body legal_utf8 m f ≡ ok tt → (c : FunctionContext) × Accepted c
  unfolding verify_body
  body-Accepted h =
      let (c, p, q) = bind_ok (verify_blocks_and_uses legal_utf8 m f) _ tt h in
      let last =
        then_ok (check_debug m f c >> verify_flow c) (check_effects f c.required_effects) tt q in
      let middle = then_ok (check_debug m f c) (verify_flow c) tt last.0 in
      (c, record { visited = blocks_visited c p; flow = middle.1; effects = last.1 })

-- In a function whose body is accepted, every use is dominated by its definition: a value that an
-- instruction or a terminator uses has a definition, and this is either in the same block, as a
-- parameter or at an instruction before the use, or in a block that every path from the entry to the use
-- has visited.
pub uses_dominated :
    (legal_utf8 : Bytes → Bool) (m : IrModule) (f : Function)
    → verify_body legal_utf8 m f ≡ ok tt
    → (b : Block) → Memᴰ b f.blocks
    → (index value : ℕ) → Used b index value
    → (ds : Definitions) × (d : Definition) × (register_definitions m f ≡ ok ds)
      × (map_find value ds ≡ some d)
      × (((d.block ≡ b.id) × Precedes d.instruction index) ⊎ Dominating f d.block b.id)
unfolding verify_flow verify_dominance
uses_dominated legal_utf8 m f h b k index value u =
    let (c, a) = body-Accepted legal_utf8 m f h in
    let v = a.visited in
    let dominance =
      then_ok
        (verify_canonical_cfg (Function.entry_block c.function) (neighbours c.successors)
          (keys c.blocks) (map (λ x. Block.id x) (Function.blocks c.function)))
        (verify_dominance c) tt a.flow in
    let (d, p, q) =
      bind_ok
        (dominators (Function.entry_block c.function) (neighbours c.predecessors) (keys c.blocks))
        (λ d. each (check_use d c.definitions) c.uses) tt dominance.1 in
    let r : dominators f.entry_block (neighbours c.predecessors) (keys (number_blocks f.blocks []))
        ≡ ok d =
      subst
        (λ g.
          dominators (Function.entry_block g) (neighbours c.predecessors)
            (keys (number_blocks f.blocks []))
          ≡ ok d)
        v.extends.function_same
        (subst
          (λ x.
            dominators (Function.entry_block c.function) (neighbours c.predecessors) (keys x)
            ≡ ok d)
          v.extends.blocks_same p) in
    let used =
      Used-recorded legal_utf8 (keys (number_blocks f.blocks [])) c b index value (v.recorded b k)
        u in
    let checked =
      checked_use legal_utf8 m f c d value b.id index v r
        (each_ok (check_use d c.definitions) (use_of value b.id index) c.uses q used) in
    (
      v.definitions,
      checked.0,
      v.registered,
      subst (λ x. map_find value x ≡ some checked.0) v.extends.definitions_same checked.1,
      checked.2,
    )

-- In a function whose body is accepted, the declared effects contain those of every instruction, by
-- each of the 32 bits of the masks.
pub effects_declared :
    (legal_utf8 : Bytes → Bool) (m : IrModule) (f : Function)
    → verify_body legal_utf8 m f ≡ ok tt
    → (b : Block) → Memᴰ b f.blocks
    → (k : ℕ) (i : Instruction) → get_elem? b.instructions k ≡ some i
    → (c : FunctionContext) × (effects : ℕ) × (c.index ≡ m)
      × (register_definitions m f ≡ ok c.definitions)
      × (verify_instruction legal_utf8 c i ≡ ok effects)
      × ((place : ℕ) → place < 32 → digit place effects ≤ digit place f.effects)
unfolding check_effects
effects_declared legal_utf8 m f h b k n i e =
    let (c, a) = body-Accepted legal_utf8 m f h in
    let v = a.visited in
    let (x, effects, p, q, s, w) =
      RecordedInstruction.checked (RecordedBlock.instructions (v.recorded b k) n i e) in
    let missing = bit_and c.required_effects (complement f.effects) == 0 in
    let first =
      then_ok
        (fail_if (not missing) ErrorKind.invalid_safety
          >> fail_if (not (any returns f.blocks) && bit_and f.effects Effect.no_return == 0)
              ErrorKind.invalid_safety)
        (fail_if (any returns f.blocks && not (bit_and f.effects Effect.no_return == 0))
          ErrorKind.invalid_safety)
        tt a.effects in
    let second =
      then_ok (fail_if (not missing) ErrorKind.invalid_safety)
        (fail_if (not (any returns f.blocks) && bit_and f.effects Effect.no_return == 0)
          ErrorKind.invalid_safety)
        tt first.0 in
    let nothing : bit_and c.required_effects (complement f.effects) ≡ 0 =
      (==_iff (bit_and c.required_effects (complement f.effects)) 0).0
        (ground (arith, fail_if_ok (not missing) ErrorKind.invalid_safety second.0)) in
    (
      x,
      effects,
      s ∙ v.extends.index_same,
      v.registered ∙ ap (λ y. ok y) (sym (q ∙ v.extends.definitions_same)),
      p,
      λ place l.
          omega (arith, w place, Within-complement c.required_effects f.effects nothing place l),
    )
