-- ===== src/Verifier/Supported.antt =====
-- The end of `verify_supported_module` of native/codegen/ir_verifier.cpp, and what an accepted module
-- promises.
use mathlib.Core.List.{Memᴰ}
use neri.Prelude.{
  ℕ, zero, suc, ◌≡◌, List, [], ◌∷◌, Option, none, some, Bool, false, ◌&&◌, ◌||◌, not, ◌==◌,
  if◌then◌else◌, length, bytes_eq, arith,
}
use neri.Ir.Model.{
  Bytes, SymbolId, ClassDeclaration, GlobalDeclaration, ImportDeclaration, Function, IrModule,
}
use neri.Ir.Feature.{Feature}
use neri.Ir.SymbolKind.{SymbolKind}
use neri.Ir.SymbolKind
use neri.Ir.ConstantTag.{ConstantTag}
use neri.Transport.Reader.{ErrorKind, Result, ok}
use neri.Transport.Payload.{in_canonical_order}
use neri.Verifier.Check.{
  ◌>>=◌, ◌>>◌, fail, fail_if, found, each, bind_ok, then_ok, found_ok, each_ok,
}
use neri.Verifier.Types.{is_string}
use neri.Verifier.Lookup.{has_feature, find_class, verify_location}
use neri.Verifier.Context.{has_value}
use neri.Verifier.Constants.{verify_constant}
use neri.Verifier.Scalars.{constant_tag, is_constant}
use neri.Verifier.Declared.{require_declared_type, verify_signature_of, verify_function}
use neri.Verifier.Imports.{RuntimeContract, declare, verify_imports, find_link}
use neri.Verifier.Native.Layout.{no_layouts, has_name}
use neri.Verifier.Modules.{
  check_version, check_session, check_native_records, uses_native_strings, check_orders,
  check_classes,
}
use neri.Verifier.Body.Whole.{verify_body}

-- The walk from a class with this base to one without a base, at most `remaining` steps.
unfoldable pub check_bases :
    (remaining : ℕ) → IrModule → (base : Option SymbolId) → Result (Unit {0})
check_bases remaining m none = ok tt
check_bases zero m (some base) = fail ErrorKind.malformed_module
check_bases (suc remaining) m (some base) =
    found (find_class m base) ErrorKind.invalid_reference >>= λ c.
    check_bases remaining m (ClassDeclaration.base c)

unfoldable pub check_globals :
    (legal_utf8 : Bytes → Bool)
    → IrModule
    → List SymbolId
    → List GlobalDeclaration
    → Result (List SymbolId)
check_globals legal_utf8 m declared [] = ok declared
check_globals legal_utf8 m declared (g ∷ gs) =
    let is_text = is_constant (constant_tag g.initializer) ConstantTag.string_utf8 in
    verify_location m g.location
    >> fail_if
        (not (bytes_eq (SymbolId.module_id g.id) m.id)
          || not (SymbolKind.wire (SymbolId.kind g.id) == SymbolKind.wire SymbolKind.global))
        ErrorKind.invalid_reference
    >> (declare ErrorKind.invalid_reference g.id declared >>= λ more.
        require_declared_type m g.value_type
        >> verify_constant legal_utf8 g.initializer g.value_type
        >> fail_if (is_text && not (has_feature m Feature.string_data))
            ErrorKind.unsupported_feature
        >> fail_if (is_string g.value_type && not is_text) ErrorKind.invalid_type
        >> check_globals legal_utf8 m more gs)

-- The symbols and the exported names of the functions; `exported` are the names so far.
unfoldable pub check_exports :
    List SymbolId
    → List ImportDeclaration
    → (exported : List Bytes) → List Function
    → Result (Unit {0})
check_exports declared links exported [] = ok tt
check_exports declared links exported (f ∷ fs) =
    declare ErrorKind.malformed_module f.id declared >>= λ more.
    (if length f.export_name == 0
      then check_exports more links exported fs
      else (fail_if (has_value (find_link f.export_name links) || has_name f.export_name exported)
            ErrorKind.invalid_reference
          >> check_exports more links (f.export_name ∷ exported) fs))

-- The declarations in the order of the source.
unfoldable pub verify_declarations :
    (legal_utf8 : Bytes → Bool) (catalog : Bytes → Option RuntimeContract)
    → IrModule
    → Result (Unit {0})
verify_declarations legal_utf8 catalog m = check_classes m [] m.classes >>= λ declared.
    each (λ c. check_bases (length m.classes) m (ClassDeclaration.base c)) m.classes
    >> (check_globals legal_utf8 m declared m.globals >>= λ more.
        verify_imports catalog m more [] m.imports >>= λ both.
        check_exports both.0 both.1 [] m.functions)

-- What comes before the declarations.
unfoldable pub verify_header : (legal_utf8 : Bytes → Bool) → IrModule → Result (Unit {0})
verify_header legal_utf8 m =
    check_version m.semantic_version
    >> fail_if (not (in_canonical_order m.required_features)) ErrorKind.malformed_module
    >> check_session m
    >> fail_if (not (length m.native_records == 0) && not (has_feature m Feature.native_records))
        ErrorKind.unsupported_feature
    >> check_native_records m [] no_layouts m.native_records
    >> fail_if (uses_native_strings m && not (has_feature m Feature.native_strings))
        ErrorKind.unsupported_feature
    >> check_orders legal_utf8 m

unfoldable pub verify_supported_module :
    (legal_utf8 : Bytes → Bool) (catalog : Bytes → Option RuntimeContract)
    → IrModule
    → Result (Unit {0})
verify_supported_module legal_utf8 catalog m =
    verify_header legal_utf8 m
    >> verify_declarations legal_utf8 catalog m
    >> each (verify_function legal_utf8 m) m.functions

-- A class from which the bases lead to a class without one.
pub data Rooted (m : IrModule) : Option SymbolId → Type 0 where
  root : Rooted m none
  derived :
      (base : SymbolId) (c : ClassDeclaration)
      → find_class m base ≡ some c
      → Rooted m c.base
      → Rooted m (some base)

check_bases-Rooted :
    (remaining : ℕ) (m : IrModule) (base : Option SymbolId)
    → check_bases remaining m base ≡ ok tt
    → Rooted m base
unfolding check_bases
check_bases-Rooted remaining m none h = Rooted.root
check_bases-Rooted zero m (some base) h = absurd (ground (arith, h))
check_bases-Rooted (suc remaining) m (some base) h =
    let (c, p, q) =
      bind_ok (found (find_class m base) ErrorKind.invalid_reference)
        (λ c. check_bases remaining m (ClassDeclaration.base c)) tt h in
    Rooted.derived base c (found_ok (find_class m base) _ c p)
      (check_bases-Rooted remaining m (ClassDeclaration.base c) q)

-- In an accepted module the bases of every class are declared and lead to a class without a base: no
-- inheritance is a cycle. And every function that is no retained declaration has an accepted body.
pub module_accepted :
    (legal_utf8 : Bytes → Bool) (catalog : Bytes → Option RuntimeContract) (m : IrModule)
    → verify_supported_module legal_utf8 catalog m ≡ ok tt
    → ((c : ClassDeclaration) → Memᴰ c m.classes → Rooted m c.base)
      × ((f : Function)
          → Memᴰ f m.functions
          → f.retained ≡ false
          → verify_body legal_utf8 m f ≡ ok tt)
unfolding verify_supported_module verify_declarations verify_function
module_accepted legal_utf8 catalog m h =
    let last =
      then_ok (verify_header legal_utf8 m >> verify_declarations legal_utf8 catalog m)
        (each (verify_function legal_utf8 m) m.functions) tt h in
    let declared =
      then_ok (verify_header legal_utf8 m) (verify_declarations legal_utf8 catalog m) tt last.0 in
    let (ds, p, q) = bind_ok (check_classes m [] m.classes) _ tt declared.1 in
    let bases =
      then_ok (each (λ c. check_bases (length m.classes) m (ClassDeclaration.base c)) m.classes) _
        tt q in
    (
      λ c k. check_bases-Rooted (length m.classes) m c.base (
          each_ok (λ c. check_bases (length m.classes) m (ClassDeclaration.base c)) c m.classes
            bases.0 k),
      λ f k r.
          let whole = each_ok (verify_function legal_utf8 m) f m.functions last.1 k in
          let inside = then_ok (verify_signature_of m f) _ tt whole in ground (arith, r, inside.1),
    )
