-- ===== src/Verifier/Modules.antt =====
-- `verify_supported_module` of native/codegen/ir_verifier.cpp. The features of the model are known and
-- its enums in range.
use neri.Prelude.{
  List, [], ◌∷◌, ◌++◌, none, some, Bool, true, false, ◌&&◌, ◌||◌, not, ◌==◌, ltb, if◌then◌else◌,
  length, bytes_eq, bytes_lt, codes,
}
use neri.Ir.Model.{
  Bytes, IrType, ir_type, no_types, SymbolId, Source, Field, Method, ClassDeclaration, NativeRecord,
  GlobalDeclaration, ImportDeclaration, ValueDefinition, BlockParameter, Instruction, Block,
  Function, SessionExport, IrModule, Version,
}
use neri.Ir.TypeTag.{TypeTag}
use neri.Ir.Feature.{Feature}
use neri.Ir.Access.{Access}
use neri.Ir.Access
use neri.Ir.SymbolKind.{SymbolKind}
use neri.Ir.SymbolKind
use neri.Ir.FunctionKind.{FunctionKind}
use neri.Ir.DispatchKind.{DispatchKind}
use neri.Ir.DispatchKind
use neri.Transport.Reader.{ErrorKind, Result, ok}
use neri.Verifier.Check.{◌>>=◌, ◌>>◌, fail_if, found, each}
use neri.Verifier.Types.{
  same_type, same_symbol, same_symbols, is_none, is_tag, tag_of, contains_string, holds_for,
}
use neri.Verifier.Lookup.{has_feature, find_class, find_function, verify_location, any, first}
use neri.Verifier.Context.{has_value, same}
use neri.Verifier.Constants.{is_empty}
use neri.Verifier.Calls.{is_kind}
use neri.Verifier.Objects.{one_argument}
use neri.Verifier.Declared.{require_declared_type, starts_with}
use neri.Verifier.Imports.{declare}
use neri.Verifier.Native.Layout.{Layouts, layout, has_name}

-- `require_unique_order`: each element is before the next.
abbrev pub unique_order {ℓ} : {A : Type ℓ} → (A → A → Bool) → List A → Bool
unique_order lt [] = true
unique_order lt (x ∷ []) = true
unique_order lt (x ∷ y ∷ ys) = lt x y && unique_order lt (y ∷ ys)

-- The order of the tuples of `symbol_key`.
unfoldable pub symbol_before : SymbolId → SymbolId → Bool
symbol_before a b =
    if bytes_lt a.module_id b.module_id
    then true
    else if bytes_lt b.module_id a.module_id
    then false
    else if ltb (SymbolKind.wire a.kind) (SymbolKind.wire b.kind)
    then true
    else if ltb (SymbolKind.wire b.kind) (SymbolKind.wire a.kind)
    then false
    else bytes_lt a.semantic_name b.semantic_name

unfoldable pub check_version : Version → Result (Unit {0})
check_version v =
    fail_if (not (v.major == 1)) ErrorKind.incompatible_major
    >> fail_if (ltb 0 v.minor) ErrorKind.unsupported_minor

-- The parameters of a session entry: none, or the source frame.
abbrev entry_takes : List IrType → IrType → Bool
entry_takes [] source = is_tag (tag_of source) TypeTag.void
entry_takes (t ∷ []) source = same_type t source && is_tag (tag_of source) TypeTag.class
entry_takes (t ∷ u ∷ ts) source = false

unfoldable pub entry_matches : Function → SessionExport → Bool
entry_matches f s =
    bytes_eq (SymbolId.semantic_name f.id) (codes "__neri_session_entry")
    && entry_takes f.parameter_types s.source_type
    && (same_type f.result_type s.target_type
        || (is_tag (tag_of f.result_type) TypeTag.optional
            && one_argument f.result_type (λ t. same_type t s.target_type)))
    && is_tag (tag_of s.target_type) TypeTag.class

unfoldable pub check_session : IrModule → Result (Unit {0})
check_session m =
    fail_if (not (same (has_feature m Feature.session_module) (has_value m.session)))
      ErrorKind.unsupported_feature
    >> elim m.session [
      | none ↦ ok tt
      | some s ↦
          fail_if
            (not (
              same (has_feature m Feature.retained_modules)
                (not (length (SessionExport.artifact_identity s) == 0))))
            ErrorKind.invalid_reference
          >> (found (first (λ f. same_symbol (Function.id f) (SessionExport.entry s)) m.functions)
                ErrorKind.invalid_reference
              >>= λ f. fail_if (not (entry_matches f s)) ErrorKind.invalid_reference)
          >> require_declared_type m (SessionExport.target_type s)
          >> (if is_tag (tag_of (SessionExport.source_type s)) TypeTag.void
              then ok tt
              else require_declared_type m (SessionExport.source_type s))
    ]

-- The fields of a native record, with the names so far.
unfoldable pub check_native_fields :
    IrModule → NativeRecord → (names : List Bytes) → List Field → Result (Unit {0})
check_native_fields m r names [] = ok tt
check_native_fields m r names (f ∷ fs) =
    let name = SymbolId.semantic_name f.id in
    fail_if
      (not (bytes_eq (SymbolId.module_id f.id) m.id)
        || not (SymbolKind.wire (SymbolId.kind f.id) == SymbolKind.wire SymbolKind.field)
        || not (starts_with (SymbolId.semantic_name r.id ++ (46 ∷ [])) name)
        || not (Access.wire f.access == Access.wire Access.public)
        || has_name name names)
      ErrorKind.invalid_reference
    >> require_declared_type m f.value_type
    >> verify_location m f.location
    >> check_native_fields m r (name ∷ names) fs

-- The records, with their names and their layouts so far.
unfoldable pub check_native_records :
    IrModule → (names : List Bytes) → Layouts → List NativeRecord → Result (Unit {0})
check_native_records m names layouts [] = ok tt
check_native_records m names layouts (r ∷ rs) =
    let name = SymbolId.semantic_name r.id in
    fail_if
      (not (bytes_eq (SymbolId.module_id r.id) m.id)
        || not (SymbolKind.wire (SymbolId.kind r.id) == SymbolKind.wire SymbolKind.native_record)
        || has_name name names)
      ErrorKind.invalid_reference
    >> check_native_fields m r [] r.fields
    >> (layout m (ir_type TypeTag.native_record (some r.id) no_types 0) layouts >>= λ laid.
        check_native_records m (name ∷ names) laid.1 rs)

-- A value of a block is a string or contains one.
abbrev pub block_strings : Block → Bool
block_strings b =
    any (λ p. contains_string (BlockParameter.value_type p)) b.parameters
    || any (λ i. any (λ r. contains_string (ValueDefinition.value_type r)) (Instruction.results i))
        b.instructions

unfoldable pub uses_native_strings : IrModule → Bool
uses_native_strings m =
    any (λ g. contains_string (GlobalDeclaration.value_type g)) m.globals
    || any (λ c. any (λ f. contains_string (Field.value_type f)) (ClassDeclaration.fields c))
        m.classes
    || any
        (λ f.
          contains_string (Function.result_type f)
          || any contains_string (Function.parameter_types f)
          || any block_strings (Function.blocks f))
        m.functions

unfoldable pub check_orders : (legal_utf8 : Bytes → Bool) → IrModule → Result (Unit {0})
check_orders legal_utf8 m =
    fail_if (not (unique_order (λ a b. bytes_lt (Source.id a) (Source.id b)) m.sources))
      ErrorKind.malformed_module
    >> each
        (λ s.
          fail_if (not (is_empty (Source.utf8 s) || legal_utf8 (Source.utf8 s)))
            ErrorKind.invalid_source)
        m.sources
    >> fail_if
        (not (
          unique_order (λ a b. symbol_before (ClassDeclaration.id a) (ClassDeclaration.id b))
            m.classes))
        ErrorKind.malformed_module
    >> fail_if
        (not (
          unique_order (λ a b. symbol_before (GlobalDeclaration.id a) (GlobalDeclaration.id b))
            m.globals))
        ErrorKind.malformed_module
    >> fail_if
        (not (
          unique_order (λ a b. symbol_before (ImportDeclaration.id a) (ImportDeclaration.id b))
            m.imports))
        ErrorKind.malformed_module
    >> fail_if
        (not (unique_order (λ a b. symbol_before (Function.id a) (Function.id b)) m.functions))
        ErrorKind.malformed_module

abbrev Declared : Type 0
Declared = List SymbolId

unfoldable pub check_fields : IrModule → Declared → List Field → Result Declared
check_fields m declared [] = ok declared
check_fields m declared (f ∷ fs) =
    verify_location m f.location
    >> fail_if
        (not (bytes_eq (SymbolId.module_id f.id) m.id)
          || not (SymbolKind.wire (SymbolId.kind f.id) == SymbolKind.wire SymbolKind.field))
        ErrorKind.invalid_reference
    >> (declare ErrorKind.invalid_reference f.id declared >>= λ more.
        require_declared_type m f.value_type >> check_fields m more fs)

abbrev is_dispatch : DispatchKind → DispatchKind → Bool
is_dispatch a b = DispatchKind.wire a == DispatchKind.wire b

-- The dispatch of a method entry fits its function.
unfoldable pub dispatch_fits : Method → Function → Bool
dispatch_fits e f =
    let is_virtual = is_dispatch e.dispatch DispatchKind.virtual in
    let is_static = is_dispatch e.dispatch DispatchKind.static in
    let is_direct = is_dispatch e.dispatch DispatchKind.direct in
    (is_virtual || is_static || is_direct)
    && same is_virtual (has_value e.dispatch_slot)
    && same is_virtual (has_value f.dispatch_slot)
    && (not is_virtual || same_symbols e.dispatch_slot f.dispatch_slot)
    && same is_static (is_kind f.kind FunctionKind.static_method)
    && (not is_virtual || is_kind f.kind FunctionKind.instance_method)
    && (not is_direct
        || is_kind f.kind FunctionKind.instance_method
        || is_kind f.kind FunctionKind.constructor)

unfoldable pub check_methods :
    IrModule → ClassDeclaration → (seen : List SymbolId) → List Method → Result (Unit {0})
check_methods m c seen [] = ok tt
check_methods m c seen (e ∷ es) =
    verify_location m e.location
    >> (declare ErrorKind.malformed_module e.function_id seen >>= λ more.
        found (find_function m e.function_id) ErrorKind.invalid_reference >>= λ f.
        fail_if (not (holds_for (Function.declaring_class f) (λ s. same_symbol s c.id)))
          ErrorKind.invalid_reference
        >> fail_if (not (dispatch_fits e f)) ErrorKind.invalid_reference
        >> check_methods m c more es)

unfoldable pub check_classes : IrModule → Declared → List ClassDeclaration → Result Declared
check_classes m declared [] = ok declared
check_classes m declared (c ∷ cs) =
    verify_location m c.location
    >> fail_if
        (not (bytes_eq (SymbolId.module_id c.id) m.id)
          || not (SymbolKind.wire (SymbolId.kind c.id) == SymbolKind.wire SymbolKind.class))
        ErrorKind.invalid_reference
    >> (declare ErrorKind.invalid_reference c.id declared >>= λ more.
        fail_if
          (holds_for c.base (λ s.
            not (SymbolKind.wire s.kind == SymbolKind.wire SymbolKind.class)
            || is_none (find_class m s)))
          ErrorKind.invalid_reference
        >> (check_fields m more c.fields >>= λ next.
            check_methods m c [] c.methods >> check_classes m next cs))
