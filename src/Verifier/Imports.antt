-- ===== src/Verifier/Imports.antt =====
-- The imports in `verify_supported_module` and `verify_runtime_import` of native/codegen/ir_verifier.cpp.
-- The generated table of runtime imports is the argument `catalog`.
use neri.Prelude.{
  ℕ, List, [], ◌∷◌, Option, none, some, Bool, true, false, ◌&&◌, ◌||◌, not, ◌==◌, leb,
  if◌then◌else◌, length, bit_and, bytes_eq, codes,
}
use neri.Ir.Model.{
  Bytes, IrType, ir_type, no_types, more_types, SymbolId, ImportDeclaration, RuntimeRequirement,
  IrModule,
}
use neri.Ir.TypeTag.{TypeTag}
use neri.Ir.Feature.{Feature}
use neri.Ir.SymbolKind.{SymbolKind}
use neri.Ir.SymbolKind
use neri.Ir.ImportKind.{ImportKind}
use neri.Transport.Reader.{ErrorKind, Result, ok}
use neri.Verifier.Check.{◌>>=◌, ◌>>◌, fail, fail_if, found, each}
use neri.Verifier.Types.{same_type, same_symbol, is_none, is_tag, is_void, is_c_abi_type}
use neri.Verifier.Lookup.{has_feature, verify_location, all, any}
use neri.Verifier.Context.{require_result_type, has_value}
use neri.Verifier.Calls.{is_import, c_call_effects}
use neri.Verifier.Virtual.{same_types}
use neri.Verifier.Declared.{
  require_declared_type, printable_ascii_symbol, portable_c_identifier, native_library_name,
}
use neri.Verifier.Effect

-- `neri_abi_type_v1`: a tag with or without an argument.
pub data AbiType : Type 0 where
  abi_type : TypeTag → AbiType
  abi_type_of : TypeTag → AbiType → AbiType

-- `neri_abi_runtime_import_v1`.
pub record RuntimeContract : Type 0 where
  pub parameter_types : List AbiType
  pub result_type : AbiType
  pub effects : ℕ
  pub minimum_minor : ℕ
  pub feature_bits : ℕ

abbrev pub runtime_abi_major : ℕ
runtime_abi_major = 1

unfoldable pub matches_runtime_type : IrType → AbiType → Bool
matches_runtime_type (ir_type tag symbol arguments n) (abi_type expected) =
    is_tag tag expected
    && is_none symbol
    && n == 0
    && elim arguments [ no_types ↦ true | more_types t ts ↦ false ]
matches_runtime_type (ir_type tag symbol no_types n) (abi_type_of expected argument) = false
matches_runtime_type (ir_type tag symbol (more_types t no_types) n)
      (abi_type_of expected argument) =
    is_tag tag expected && is_none symbol && n == 0 && matches_runtime_type t argument
matches_runtime_type (ir_type tag symbol (more_types t (more_types u us)) n)
      (abi_type_of expected argument) =
    false

abbrev pub parameters_match_abi : List IrType → List AbiType → Result (Unit {0})
parameters_match_abi [] [] = ok tt
parameters_match_abi [] (a ∷ rest) = fail ErrorKind.invalid_type
parameters_match_abi (t ∷ ts) [] = fail ErrorKind.invalid_type
parameters_match_abi (t ∷ ts) (a ∷ rest) =
    fail_if (not (matches_runtime_type t a)) ErrorKind.invalid_type >> parameters_match_abi ts rest

-- The import asks for a runtime that is new enough and has the features.
abbrev pub meets_requirement : Option RuntimeRequirement → RuntimeContract → Bool
meets_requirement none contract = false
meets_requirement (some r) contract =
    r.abi_major == runtime_abi_major
    && leb contract.minimum_minor r.abi_minor
    && bit_and r.feature_bits contract.feature_bits == contract.feature_bits

unfoldable pub verify_runtime_import :
    (catalog : Bytes → Option RuntimeContract) → ImportDeclaration → Result (Unit {0})
verify_runtime_import catalog d =
    found (catalog d.link_name) ErrorKind.unsupported_feature >>= λ contract.
    let required =
      bit_and (RuntimeContract.effects contract) (Effect.complement Effect.no_return) in
    fail_if (not (meets_requirement d.minimum_runtime contract)) ErrorKind.unsupported_feature
    >> fail_if
        (not (length d.parameter_types == length (RuntimeContract.parameter_types contract))
          || not (matches_runtime_type d.result_type (RuntimeContract.result_type contract)))
        ErrorKind.invalid_type
    >> parameters_match_abi d.parameter_types (RuntimeContract.parameter_types contract)
    >> fail_if
        (not (bit_and d.effects required == required)
          || (not (bit_and d.effects Effect.no_return == 0)
              && bit_and (RuntimeContract.effects contract) Effect.no_return == 0))
        ErrorKind.invalid_safety

unfoldable pub verify_c_import :
    (catalog : Bytes → Option RuntimeContract) → ImportDeclaration → Result (Unit {0})
verify_c_import catalog d =
    fail_if
      (bytes_eq d.link_name (codes "neri_rt_v1_foreign_enter")
        || bytes_eq d.link_name (codes "neri_rt_v1_foreign_leave")
        || has_value (catalog d.link_name))
      ErrorKind.invalid_reference
    >> fail_if (not (bit_and d.effects c_call_effects == c_call_effects)) ErrorKind.invalid_safety
    >> fail_if
        (has_value d.minimum_runtime
          || not (portable_c_identifier d.link_name)
          || not (is_c_abi_type d.result_type true)
          || not (all (λ t. is_c_abi_type t false) d.parameter_types))
        ErrorKind.invalid_type

unfoldable pub same_runtime_requirement :
    Option RuntimeRequirement → Option RuntimeRequirement → Bool
same_runtime_requirement none none = true
same_runtime_requirement none (some r) = false
same_runtime_requirement (some l) none = false
same_runtime_requirement (some l) (some r) =
    l.abi_major == r.abi_major && l.abi_minor == r.abi_minor && l.feature_bits == r.feature_bits

unfoldable pub same_contract : ImportDeclaration → ImportDeclaration → Bool
same_contract previous d =
    is_import previous.kind d.kind
    && same_type previous.result_type d.result_type
    && previous.effects == d.effects
    && same_runtime_requirement previous.minimum_runtime d.minimum_runtime
    && same_types previous.parameter_types d.parameter_types

abbrev pub find_link : Bytes → List ImportDeclaration → Option ImportDeclaration
find_link name [] = none
find_link name (d ∷ ds) =
    if bytes_eq (ImportDeclaration.link_name d) name then some d else find_link name ds

-- `links`, with one import for each name.
unfoldable pub add_link :
    List ImportDeclaration → ImportDeclaration → Result (List ImportDeclaration)
add_link links d = elim (find_link d.link_name links) [
  | some previous ↦ fail_if (not (same_contract previous d)) ErrorKind.malformed_module >> ok links
  | none ↦ ok (d ∷ links)
]

-- `declarations.insert`, which must not find the symbol.
unfoldable pub declare : ErrorKind → SymbolId → List SymbolId → Result (List SymbolId)
declare code id declared = fail_if (any (λ s. same_symbol s id) declared) code >> ok (id ∷ declared)

abbrev import_symbol : SymbolKind → Bool
import_symbol k =
    SymbolKind.wire k == SymbolKind.wire SymbolKind.library_function
    || SymbolKind.wire k == SymbolKind.wire SymbolKind.intrinsic
    || SymbolKind.wire k == SymbolKind.wire SymbolKind.function

-- What is checked of an import behind its symbol.
unfoldable pub verify_import :
    (catalog : Bytes → Option RuntimeContract) → IrModule → ImportDeclaration → Result (Unit {0})
verify_import catalog m d =
    each (require_declared_type m) d.parameter_types
    >> require_result_type d.result_type
    >> (if is_void d.result_type then ok tt else require_declared_type m d.result_type)
    >> fail_if (not (printable_ascii_symbol d.link_name)) ErrorKind.malformed_module
    >> fail_if
        (not (length d.native_library == 0)
          && (not (is_import d.kind ImportKind.c_abi)
              || not (native_library_name d.native_library)
              || not (has_feature m Feature.native_libraries)))
        ErrorKind.invalid_type
    >> (if is_import d.kind ImportKind.runtime
        then verify_runtime_import catalog d
        else verify_c_import catalog d)

-- The loop over the imports, with the declarations and the links so far.
unfoldable pub verify_imports :
    (catalog : Bytes → Option RuntimeContract)
    → IrModule
    → List SymbolId
    → List ImportDeclaration
    → List ImportDeclaration
    → Result (List SymbolId × List ImportDeclaration)
verify_imports catalog m declared links [] = ok (declared, links)
verify_imports catalog m declared links (d ∷ ds) =
    verify_location m d.location
    >> fail_if
        (not (bytes_eq (SymbolId.module_id d.id) m.id) || not (import_symbol (SymbolId.kind d.id)))
        ErrorKind.invalid_reference
    >> (declare ErrorKind.invalid_reference d.id declared >>= λ more.
        verify_import catalog m d
        >> (add_link links d >>= λ next. verify_imports catalog m more next ds))
