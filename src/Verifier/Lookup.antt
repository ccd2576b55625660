-- ===== src/Verifier/Lookup.antt =====
-- The declarations that the checks of native/codegen/ir_verifier.cpp look up, and the checks of source
-- locations and of base classes. Each map of `module_verification_index` keeps the first declaration
-- with a key, so a lookup in it is a search for the first.
use neri.Prelude.{
  ℕ, zero, suc, ◌+◌, ◌-◌, ◌/◌, List, [], ◌∷◌, Option, none, some, Bool, true, false, ◌&&◌, ◌||◌,
  not, ◌==◌, ltb, if◌then◌else◌, bytes_eq, length, get_elem?,
}
use neri.Ir.Model.{
  Bytes, SymbolId, SourceLocation, Source, Field, ClassDeclaration, GlobalDeclaration,
  ImportDeclaration, Function, IrModule,
}
use neri.Ir.Feature.{Feature}
use neri.Ir.Feature
use neri.Transport.Reader.{ErrorKind, Result, ok}
use neri.Verifier.Check.{◌>>=◌, fail_if, found}
use neri.Verifier.Types.{same_symbol}

-- `std::ranges::find_if`.
abbrev pub first {ℓ} : {A : Type ℓ} → (A → Bool) → List A → Option A
first f [] = none
first f (x ∷ xs) = if f x then some x else first f xs

abbrev pub any {ℓ} : {A : Type ℓ} → (A → Bool) → List A → Bool
any f [] = false
any f (x ∷ xs) = f x || any f xs

abbrev pub all {ℓ} : {A : Type ℓ} → (A → Bool) → List A → Bool
all f [] = true
all f (x ∷ xs) = f x && all f xs

unfoldable pub find_source : IrModule → Bytes → Option Source
find_source m id = first (λ s. bytes_eq (Source.id s) id) m.sources

unfoldable pub find_class : IrModule → SymbolId → Option ClassDeclaration
find_class m id = first (λ c. same_symbol (ClassDeclaration.id c) id) m.classes

unfoldable pub find_global : IrModule → SymbolId → Option GlobalDeclaration
find_global m id = first (λ g. same_symbol (GlobalDeclaration.id g) id) m.globals

unfoldable pub find_import : IrModule → SymbolId → Option ImportDeclaration
find_import m id = first (λ d. same_symbol (ImportDeclaration.id d) id) m.imports

unfoldable pub find_function : IrModule → SymbolId → Option Function
find_function m id = first (λ f. same_symbol (Function.id f) id) m.functions

-- `struct found_field`.
pub record FoundField : Type 0 where
  pub owner : ClassDeclaration
  pub value : Field

abbrev pub field_among : List ClassDeclaration → SymbolId → Option FoundField
field_among [] id = none
field_among (c ∷ cs) id = elim (first (λ f. same_symbol (Field.id f) id) c.fields) [
  | some f ↦ some (record { owner = c; value = f })
  | none ↦ field_among cs id
]

unfoldable pub find_field : IrModule → SymbolId → Option FoundField
find_field m id = field_among m.classes id

-- `std::ranges::find(module.required_features, feature)`.
unfoldable pub has_feature : IrModule → Feature → Bool
has_feature m feature = any (λ f. Feature.index f == Feature.index feature) m.required_features

-- The byte is not a continuation: its two high bits are not 10.
abbrev pub not_continuation : Option ℕ → Bool
not_continuation none = false
not_continuation (some byte) = not (byte / 64 == 2)

-- The case of an index behind the end does not occur.
unfoldable pub utf8_boundary : Bytes → ℕ → Bool
utf8_boundary bytes index =
    index == 0 || index == length bytes || not_continuation (get_elem? bytes index)

unfoldable pub verify_location : IrModule → Option SourceLocation → Result (Unit {0})
verify_location m none = ok tt
verify_location m (some l) = found (find_source m l.source_id) ErrorKind.invalid_source >>= λ s.
    fail_if
      (ltb (length s.utf8) l.utf8_start
        || ltb (length s.utf8 - l.utf8_start) l.utf8_length
        || not (utf8_boundary s.utf8 l.utf8_start)
        || not (utf8_boundary s.utf8 (l.utf8_start + l.utf8_length)))
      ErrorKind.invalid_source

-- The loop of `is_same_or_base`, at most `remaining` times.
unfoldable pub same_or_base_within : ℕ → IrModule → SymbolId → SymbolId → Bool
same_or_base_within zero m current possible_base = false
same_or_base_within (suc remaining) m current possible_base =
    if same_symbol current possible_base then true else elim (find_class m current) [
      | none ↦ false
      | some declaration ↦ elim declaration.base [
        | none ↦ false
        | some base ↦ same_or_base_within remaining m base possible_base
      ]
    ]

unfoldable pub is_same_or_base : IrModule → SymbolId → SymbolId → Bool
is_same_or_base m derived possible_base =
    same_or_base_within (length m.classes + 1) m derived possible_base
