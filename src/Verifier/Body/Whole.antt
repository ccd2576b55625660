-- ===== src/Verifier/Body/Whole.antt =====
-- `verify_blocks_and_uses`, the uses in `verify_dominance`, and the body in `verify_function`, of
-- native/codegen/ir_verifier.cpp.
use neri.Prelude.{
  ℕ, List, [], ◌∷◌, Option, none, some, Bool, false, ◌&&◌, not, ◌==◌, leb, if◌then◌else◌, length,
  map, map_find, map_set, keys, member, bit_and,
}
use neri.Ir.Model.{Bytes, IrType, Block, BlockParameter, Function, IrModule, Terminator}
use neri.Ir.TerminatorTag.{TerminatorTag}
use neri.Ir.TerminatorTag
use neri.Ir.Feature.{Feature}
use neri.Transport.Reader.{ErrorKind, Result, ok}
use neri.Verifier.Check.{◌>>=◌, ◌>>◌, fail, fail_if, found, each}
use neri.Verifier.Types.{same_type}
use neri.Verifier.Lookup.{has_feature, any}
use neri.Verifier.Context.{Definition, UseSite, FunctionContext, has_value}
use neri.Verifier.Flow.Dominance.{Dominators, at, dominators, set_or_none}
use neri.Verifier.Flow.Order.{verify_canonical_cfg}
use neri.Verifier.Body.Blocks.{register_definitions, visit_blocks}
use neri.Verifier.Body.Debug.{check_scopes, check_block_scopes, check_locals}
use neri.Verifier.Effect

-- `blocks.emplace` for each block: the first block with a number stays.
unfoldable pub number_blocks : List Block → List (ℕ × Block) → List (ℕ × Block)
number_blocks [] m = m
number_blocks (b ∷ bs) m =
    number_blocks bs (if has_value (map_find b.id m) then m else map_set b.id b m)

-- The parameters of the entry block and of the function agree.
abbrev pub parameters_match : List BlockParameter → List IrType → Result (Unit {0})
parameters_match [] [] = ok tt
parameters_match [] (t ∷ ts) = fail ErrorKind.invalid_type
parameters_match (p ∷ ps) [] = fail ErrorKind.invalid_type
parameters_match (p ∷ ps) (t ∷ ts) =
    fail_if (not (same_type (BlockParameter.value_type p) t)) ErrorKind.invalid_type
    >> parameters_match ps ts

-- The function's first block is its entry.
abbrev pub entry_first : Function → Result (Unit {0})
entry_first f = elim f.blocks [
  | [] ↦ fail ErrorKind.invalid_control_flow
  | b ∷ bs ↦ fail_if (not (Block.id b == f.entry_block)) ErrorKind.invalid_control_flow
]

unfoldable pub verify_blocks_and_uses :
    (legal_utf8 : Bytes → Bool) → IrModule → Function → Result FunctionContext
verify_blocks_and_uses legal_utf8 m f =
    let blocks = number_blocks f.blocks [] in
    fail_if (not (length blocks == length f.blocks)) ErrorKind.invalid_control_flow
    >> (found (map_find f.entry_block blocks) ErrorKind.invalid_control_flow >>= λ entry.
        entry_first f
        >> (register_definitions m f >>= λ definitions.
            parameters_match (Block.parameters entry) f.parameter_types
            >> visit_blocks legal_utf8
                (record {
                  index = m;
                  function = f;
                  blocks = blocks;
                  successors = [];
                  predecessors = [];
                  definitions = definitions;
                  uses = [];
                  required_effects = 0;
                })
                f.blocks))

-- The neighbours of a block, none without an entry in the map.
abbrev pub neighbours : List (ℕ × List ℕ) → ℕ → List ℕ
neighbours m b = set_or_none (map_find b m)

-- The value is defined by the instruction or behind it.
abbrev pub not_before : Option ℕ → ℕ → Bool
not_before none instruction = false
not_before (some index) instruction = leb instruction index

unfoldable pub check_use : Dominators → List (ℕ × Definition) → UseSite → Result (Unit {0})
check_use d definitions u =
    found (map_find u.value definitions) ErrorKind.invalid_ssa >>= λ definition.
    fail_if
      (if Definition.block definition == u.block
        then not_before (Definition.instruction definition) u.instruction
        else not (member (Definition.block definition) (at d u.block)))
      ErrorKind.invalid_ssa

unfoldable pub verify_dominance : FunctionContext → Result (Unit {0})
verify_dominance c =
    dominators (Function.entry_block c.function) (neighbours c.predecessors) (keys c.blocks)
    >>= λ d. each (check_use d c.definitions) c.uses

abbrev pub returns : Block → Bool
returns b = TerminatorTag.wire (Terminator.tag b.ending) == TerminatorTag.wire TerminatorTag.return

-- The effects and the returns of a function with the effects that its body needs.
unfoldable pub check_effects : Function → (required : ℕ) → Result (Unit {0})
check_effects f required =
    let has_return = any returns f.blocks in
    fail_if (not (bit_and required (Effect.complement f.effects) == 0)) ErrorKind.invalid_safety
    >> fail_if (not has_return && bit_and f.effects Effect.no_return == 0) ErrorKind.invalid_safety
    >> fail_if (has_return && not (bit_and f.effects Effect.no_return == 0))
        ErrorKind.invalid_safety

unfoldable pub check_debug : IrModule → Function → FunctionContext → Result (Unit {0})
check_debug m f c = check_scopes m 0 [] f.debug_scopes >>= λ known.
    fail_if (not (length f.debug_scopes == 0) && not (has_feature m Feature.debug_scopes))
      ErrorKind.unsupported_feature
    >> each (check_block_scopes known) f.blocks
    >> check_locals m known c.definitions [] none f.debug_locals

unfoldable pub verify_flow : FunctionContext → Result (Unit {0})
verify_flow c =
    verify_canonical_cfg (Function.entry_block c.function) (neighbours c.successors) (keys c.blocks)
      (map (λ b. Block.id b) (Function.blocks c.function))
    >> verify_dominance c

-- The part of `verify_function` for a function with a body.
unfoldable pub verify_body : (legal_utf8 : Bytes → Bool) → IrModule → Function → Result (Unit {0})
verify_body legal_utf8 m f = verify_blocks_and_uses legal_utf8 m f >>= λ c.
    check_debug m f c >> verify_flow c >> check_effects f c.required_effects
