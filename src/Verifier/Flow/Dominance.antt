-- ===== src/Verifier/Flow/Dominance.antt =====
-- `verify_dominance` of native/codegen/ir_verifier.cpp. A set of blocks is the list of their numbers
-- in order. `before` gives the predecessors of a block, none for a block without an entry in the map.
use neri.Prelude.{
  ℕ, zero, suc, ◌+◌, ◌*◌, List, [], ◌∷◌, Option, none, some, Bool, true, false, ◌==◌, if◌then◌else◌,
  length, bytes_eq, intersect, insert, map_find, map_set,
}
use neri.Transport.Reader.{ErrorKind, Result, ok}
use neri.Verifier.Check.{◌>>=◌, fail}

abbrev pub Dominators : Type 0
Dominators = List (ℕ × List ℕ)

-- `dominators.at(id)`: each block has a set, and a predecessor is a block.
abbrev pub set_or_none : Option (List ℕ) → List ℕ
set_or_none none = []
set_or_none (some s) = s

abbrev pub at : Dominators → ℕ → List ℕ
at d id = set_or_none (map_find id d)

-- The sets before the first round.
unfoldable pub first_sets : ℕ → (all ids : List ℕ) → Dominators
first_sets entry all [] = []
first_sets entry all (id ∷ ids) =
    (id, if id == entry then entry ∷ [] else all) ∷ first_sets entry all ids

-- The intersection with the sets of the other predecessors.
unfoldable pub meet : Dominators → List ℕ → List ℕ → List ℕ
meet d set [] = set
meet d set (p ∷ ps) = meet d (intersect set (at d p)) ps

pub record Round : Type 0 where
  pub sets : Dominators
  pub changed : Bool

module _ (entry : ℕ) (before : ℕ → List ℕ) where
  -- The turn of a round for one block.
  unfoldable pub visit : Round → ℕ → Result Round
  visit r id = if id == entry then ok r else elim (before id) [
    | [] ↦ fail ErrorKind.invalid_control_flow
    | p ∷ ps ↦
        let set = insert id (meet r.sets (at r.sets p) ps) in
        ok (
          if bytes_eq set (at r.sets id)
          then r
          else record { sets = map_set id set r.sets; changed = true })
  ]

  -- One round over the blocks.
  unfoldable pub round : List ℕ → Round → Result Round
  round [] r = ok r
  round (id ∷ ids) r = visit r id >>= λ s. round ids s

  -- The rounds until nothing changes, at most `remaining` of them.
  unfoldable pub rounds : (remaining : ℕ) → (all : List ℕ) → Dominators → Result Dominators
  rounds zero all d = fail ErrorKind.invalid_control_flow
  rounds (suc remaining) all d = round all (record { sets = d; changed = false }) >>= λ r.
      let again = rounds remaining all r.sets in if r.changed then again else ok r.sets

  -- The sets at the end of the loop.
  unfoldable pub dominators : (all : List ℕ) → Result Dominators
  dominators all = rounds (length all * length all + 1) all (first_sets entry all all)
