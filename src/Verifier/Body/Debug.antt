-- ===== src/Verifier/Body/Debug.antt =====
-- The debug scopes and debug locals of `verify_function` in native/codegen/ir_verifier.cpp.
use neri.Prelude.{
  ℕ, List, [], ◌∷◌, Option, none, some, Bool, true, false, ◌&&◌, ◌||◌, not, ◌==◌, ltb, leb,
  if◌then◌else◌, length, map_find, member, insert, bytes_lt, bytes_eq,
}
use neri.Ir.Model.{Bytes, Block, DebugScope, DebugLocal, Instruction, Terminator, IrModule}
use neri.Transport.Reader.{ErrorKind, Result, ok}
use neri.Verifier.Check.{◌>>=◌, ◌>>◌, fail_if, found, each}
use neri.Verifier.Types.{is_unsafe_capability, is_borrow_capability}
use neri.Verifier.Lookup.{verify_location, any}
use neri.Verifier.Context.{Definition}

-- The loop over the scopes, which returns the set of their numbers. The number of a scope is in the set
-- when its parent is looked up.
unfoldable pub check_scopes :
    IrModule → (previous : ℕ) → (known : List ℕ) → List DebugScope → Result (List ℕ)
check_scopes m previous known [] = ok known
check_scopes m previous known (s ∷ ss) =
    verify_location m (some s.location)
    >> fail_if
        (s.id == 0
          || leb s.id previous
          || member s.id known
          || (not (s.parent_id == 0) && not (member s.parent_id (insert s.id known))))
        ErrorKind.malformed_module
    >> check_scopes m s.id (insert s.id known) ss

-- A reference to a scope: none, or a known one.
abbrev pub known_scope : List ℕ → ℕ → Bool
known_scope known id = id == 0 || member id known

unfoldable pub check_block_scopes : List ℕ → Block → Result (Unit {0})
check_block_scopes known b =
    each
      (λ i.
        fail_if (not (known_scope known (Instruction.debug_scope_id i))) ErrorKind.malformed_module)
      b.instructions
    >> fail_if (not (known_scope known (Terminator.debug_scope_id b.ending)))
        ErrorKind.malformed_module

-- The order of the tuples (value, name, scope, source, start, length).
unfoldable pub before_local : DebugLocal → DebugLocal → Bool
before_local a b =
    let numbers : ℕ → ℕ → Bool → Bool =
      λ x y rest. if ltb x y then true else if ltb y x then false else rest in
    let strings : Bytes → Bytes → Bool → Bool =
      λ x y rest. if bytes_lt x y then true else if bytes_lt y x then false else rest in
    numbers a.value b.value (
      strings a.name b.name (
        numbers a.scope_id b.scope_id (
          strings a.location.source_id b.location.source_id (
            numbers a.location.utf8_start b.location.utf8_start
              (ltb a.location.utf8_length b.location.utf8_length)))))

-- The tuples are equal.
unfoldable pub same_local : DebugLocal → DebugLocal → Bool
same_local a b =
    a.value == b.value
    && bytes_eq a.name b.name
    && a.scope_id == b.scope_id
    && bytes_eq a.location.source_id b.location.source_id
    && a.location.utf8_start == b.location.utf8_start
    && a.location.utf8_length == b.location.utf8_length

abbrev in_order : Option DebugLocal → DebugLocal → Bool
in_order none local = true
in_order (some previous) local = before_local previous local

-- The loop over the locals; `seen` is the set of the tuples so far.
unfoldable pub check_locals :
    IrModule
    → (known : List ℕ) → List (ℕ × Definition)
    → (seen : List DebugLocal) → (previous : Option DebugLocal) → List DebugLocal
    → Result (Unit {0})
check_locals m known definitions seen previous [] = ok tt
check_locals m known definitions seen previous (l ∷ ls) =
    verify_location m (some l.location)
    >> fail_if (length l.name == 0) ErrorKind.invalid_safety
    >> (found (map_find l.value definitions) ErrorKind.invalid_safety >>= λ d.
        fail_if
          (not (known_scope known l.scope_id)
            || is_unsafe_capability (Definition.value_type d)
            || is_borrow_capability (Definition.value_type d)
            || any (λ k. same_local k l) seen)
          ErrorKind.invalid_safety)
    >> fail_if (not (in_order previous l)) ErrorKind.malformed_module
    >> check_locals m known definitions (l ∷ seen) (some l) ls
