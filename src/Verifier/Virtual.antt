-- ===== src/Verifier/Virtual.antt =====
-- `verify_virtual_call` of native/codegen/ir_verifier.cpp.
use neri.Prelude.{
  ℕ, List, [], ◌∷◌, Option, none, Bool, true, false, ◌&&◌, not, ◌==◌, if◌then◌else◌, bit_or,
}
use neri.Ir.Model.{IrType, Instruction, SymbolId, Function, IrModule}
use neri.Ir.FunctionKind.{FunctionKind}
use neri.Ir.SymbolKind.{SymbolKind}
use neri.Ir.SymbolKind
use neri.Transport.Reader.{ErrorKind, Result, ok}
use neri.Verifier.Check.{◌>>=◌, ◌>>◌, fail, fail_if, found}
use neri.Verifier.Types.{same_type, same_symbol, is_class, symbol_of, holds_for}
use neri.Verifier.Lookup.{is_same_or_base}
use neri.Verifier.Context.{FunctionContext, same}
use neri.Verifier.Calls.{is_kind, verify_signature, call_effects}

-- The functions of a dispatch slot, in the order of the module.
abbrev pub candidates : SymbolId → List Function → List Function
candidates slot [] = []
candidates slot (f ∷ fs) =
    let rest = candidates slot fs in
    if holds_for f.dispatch_slot (λ s. same_symbol s slot) then f ∷ rest else rest

abbrev pub same_types : List IrType → List IrType → Bool
same_types [] [] = true
same_types [] (u ∷ us) = false
same_types (t ∷ ts) [] = false
same_types (t ∷ ts) (u ∷ us) = same_type t u && same_types ts us

-- The signatures agree but for the receiver, which is a class.
abbrev pub same_parameters : List IrType → List IrType → Bool
same_parameters [] us = false
same_parameters (t ∷ ts) [] = false
same_parameters (t ∷ ts) (u ∷ us) = is_class t && same_types ts us

-- A candidate fits the signature so far. Both failures of the source have one kind.
unfoldable pub compatible : Function → Function → Bool
compatible signature candidate =
    same candidate.unsafe_call signature.unsafe_call
    && is_kind candidate.kind FunctionKind.instance_method
    && same_parameters candidate.parameter_types signature.parameter_types
    && same_type candidate.result_type signature.result_type

abbrev pub receiver : Function → Option SymbolId
receiver f = elim f.parameter_types [ [] ↦ none | t ∷ ts ↦ symbol_of t ]

-- The receiver of the candidate is the signature's or a base of it.
abbrev pub more_general : IrModule → Function → Function → Bool
more_general m signature candidate =
    holds_for (receiver signature)
      (λ s. holds_for (receiver candidate) (λ t. is_same_or_base m s t))

-- The signature and the effects at the end of the loop over the candidates.
unfoldable pub choose_signature : IrModule → Function → ℕ → List Function → Result (Function × ℕ)
choose_signature m signature effects [] = ok (signature, effects)
choose_signature m signature effects (f ∷ fs) =
    fail_if (not (compatible signature f)) ErrorKind.invalid_reference
    >> choose_signature m (if more_general m signature f then f else signature)
        (bit_or effects f.effects) fs

-- The call of the first candidate's slot; the capability is the first's.
abbrev pub call_of_slot : FunctionContext → Instruction → List Function → Result ℕ
call_of_slot c i [] = fail ErrorKind.invalid_reference
call_of_slot c i (f ∷ fs) = choose_signature c.index f 0 (f ∷ fs) >>= λ chosen.
    let signature : Function = chosen.0 in
    verify_signature c i
      (record {
        parameters = signature.parameter_types;
        result = signature.result_type;
        effects = chosen.1;
      })
      f.unsafe_call
    >> ok (call_effects chosen.1 f.unsafe_call)

unfoldable pub verify_virtual_call : FunctionContext → Instruction → Result ℕ
verify_virtual_call c i = found i.symbol ErrorKind.invalid_reference >>= λ slot.
    fail_if (not (SymbolKind.wire slot.kind == SymbolKind.wire SymbolKind.method))
      ErrorKind.invalid_reference
    >> call_of_slot c i (candidates slot c.index.functions)
