-- ===== src/Verifier/Declared.antt =====
-- `require_declared_type`, the names of links, the runtime imports and the declaration part of
-- `verify_function` in native/codegen/ir_verifier.cpp.
use neri.Prelude.{
  ℕ, List, [], ◌∷◌, none, some, Bool, true, false, ◌&&◌, ◌||◌, not, ◌==◌, leb, if◌then◌else◌,
  length, bytes_eq, codes,
}
use neri.Ir.Model.{
  Bytes, IrType, ir_type, IrTypes, no_types, more_types, SymbolId, Function, IrModule,
}
use neri.Ir.TypeTag.{TypeTag}
use neri.Ir.Feature.{Feature}
use neri.Ir.SymbolKind.{SymbolKind}
use neri.Ir.SymbolKind
use neri.Ir.FunctionKind.{FunctionKind}
use neri.Transport.Reader.{ErrorKind, Result, ok}
use neri.Verifier.Check.{◌>>=◌, ◌>>◌, fail_if, each}
use neri.Verifier.Types.{
  same_type, is_none, is_tag, tag_of, symbol_of, element_count_of, is_class, is_void, is_pointer,
  is_c_function, is_c_abi_type, extended_scalar, holds_for,
}
use neri.Verifier.Lookup.{find_class, has_feature, verify_location, all}
use neri.Verifier.Context.{require_value_type, require_result_type, has_value, same}
use neri.Verifier.Calls.{is_kind}
use neri.Verifier.Native.Layout.{layout, no_layouts}
use neri.Verifier.Body.Whole.{verify_body}

-- The checks of one type, without its arguments.
unfoldable pub check_declared : IrModule → IrType → Result (Unit {0})
check_declared m t =
    fail_if (not (is_tag (tag_of t) TypeTag.fixed_array) && not (element_count_of t == 0))
      ErrorKind.invalid_type
    >> require_value_type t
    >> fail_if (is_tag (tag_of t) TypeTag.c_function && not (has_feature m Feature.c_interop))
        ErrorKind.unsupported_feature
    >> (if is_tag (tag_of t) TypeTag.native_record || is_tag (tag_of t) TypeTag.fixed_array
        then (fail_if (not (has_feature m Feature.native_records)) ErrorKind.unsupported_feature
            >> (layout m t no_layouts >>= λ laid. ok tt))
        else ok tt)
    >> fail_if (extended_scalar (tag_of t) && not (has_feature m Feature.extended_scalars))
        ErrorKind.unsupported_feature
    >> fail_if (is_class t && holds_for (symbol_of t) (λ s. is_none (find_class m s)))
        ErrorKind.invalid_reference

unfoldable mutual
  pub require_declared_type : IrModule → IrType → Result (Unit {0})
  require_declared_type m (ir_type tag symbol arguments n) =
      check_declared m (ir_type tag symbol arguments n)
      >> require_arguments m (is_pointer (ir_type tag symbol arguments n))
          (is_c_function (ir_type tag symbol arguments n)) arguments

  -- The arguments of a pointer may be void, and the first of a C function.
  pub require_arguments : IrModule → (every first : Bool) → IrTypes → Result (Unit {0})
  require_arguments m every first no_types = ok tt
  require_arguments m every first (more_types t ts) =
      let inner = require_declared_type m t in
      (if (every || first) && is_void t then ok tt else inner) >> require_arguments m every false ts

abbrev in_range : ℕ → ℕ → ℕ → Bool
in_range low high c = leb low c && leb c high

abbrev pub letter : ℕ → Bool
letter c = in_range 65 90 c || in_range 97 122 c

abbrev pub digit_character : ℕ → Bool
digit_character c = in_range 48 57 c

-- Characters from `!` to `~`.
unfoldable pub printable_ascii_symbol : Bytes → Bool
printable_ascii_symbol name = not (length name == 0) && all (in_range 33 126) name

unfoldable pub portable_c_identifier : Bytes → Bool
portable_c_identifier [] = false
portable_c_identifier (c ∷ cs) =
    (c == 95 || letter c) && all (λ x. x == 95 || letter x || digit_character x) cs

unfoldable pub native_library_name : Bytes → Bool
native_library_name [] = false
native_library_name (c ∷ cs) =
    leb (length (c ∷ cs)) 128
    && (letter c || digit_character c)
    && all (λ x. letter x || digit_character x || x == 95 || x == 45 || x == 46) (c ∷ cs)

-- `starts_with`.
abbrev pub starts_with : (prefix name : Bytes) → Bool
starts_with [] name = true
starts_with (c ∷ cs) [] = false
starts_with (c ∷ cs) (d ∷ ds) = c == d && starts_with cs ds

-- A name that a C export may have.
unfoldable pub free_export_name : Bytes → Bool
free_export_name name =
    portable_c_identifier name
    && not (bytes_eq name (codes "main"))
    && not (starts_with (codes "neri_") name)
    && not (starts_with (codes "hk1_") name)
    && not (starts_with (codes "__") name)

unfoldable pub check_export : IrModule → Function → Result (Unit {0})
check_export m f =
    if length f.export_name == 0
    then ok tt
    else (fail_if (not (has_feature m Feature.c_interop)) ErrorKind.unsupported_feature
        >> fail_if
            (not (free_export_name f.export_name)
              || not (is_kind f.kind FunctionKind.function)
              || not (is_c_abi_type f.result_type true)
              || not (all (λ t. is_c_abi_type t false) f.parameter_types))
            ErrorKind.invalid_type)

abbrev pub is_method : Function → Bool
is_method f =
    is_kind f.kind FunctionKind.static_method
    || is_kind f.kind FunctionKind.instance_method
    || is_kind f.kind FunctionKind.constructor

-- The first parameter is the class.
abbrev pub takes_receiver : List IrType → SymbolId → Bool
takes_receiver [] class_id = false
takes_receiver (t ∷ ts) class_id = same_type t (ir_type TypeTag.class (some class_id) no_types 0)

unfoldable pub check_declaring_class : IrModule → Function → Result (Unit {0})
check_declaring_class m f = elim f.declaring_class [
  | none ↦ ok tt
  | some class_id ↦
      fail_if (is_none (find_class m class_id)) ErrorKind.invalid_reference
      >> fail_if
          ((is_kind f.kind FunctionKind.instance_method || is_kind f.kind FunctionKind.constructor)
            && not (takes_receiver f.parameter_types class_id))
          ErrorKind.invalid_type
]

-- The first part of `verify_function`. Every function of the model has a valid kind.
unfoldable pub verify_signature_of : IrModule → Function → Result (Unit {0})
verify_signature_of m f =
    verify_location m f.location
    >> check_export m f
    >> fail_if
        (not (bytes_eq (SymbolId.module_id f.id) m.id)
          || not (
              SymbolKind.wire (SymbolId.kind f.id)
              == SymbolKind.wire (if is_method f then SymbolKind.method else SymbolKind.function)))
        ErrorKind.invalid_reference
    >> fail_if (not f.retained && not (same f.unsafe_call (has_value f.unsafe_root)))
        ErrorKind.invalid_safety
    >> fail_if (not (same (is_method f) (has_value f.declaring_class))) ErrorKind.malformed_module
    >> check_declaring_class m f
    >> fail_if
        (holds_for f.dispatch_slot (λ s.
          not (is_kind f.kind FunctionKind.instance_method)
          || not (SymbolKind.wire s.kind == SymbolKind.wire SymbolKind.method)))
        ErrorKind.malformed_module
    >> each (require_declared_type m) f.parameter_types
    >> require_result_type f.result_type
    >> (if is_void f.result_type then ok tt else require_declared_type m f.result_type)

-- A retained function is a declaration without a body.
unfoldable pub verify_function :
    (legal_utf8 : Bytes → Bool) → IrModule → Function → Result (Unit {0})
verify_function legal_utf8 m f =
    let body = verify_body legal_utf8 m f in
    verify_signature_of m f
    >> (if f.retained
        then fail_if
            (not (length f.blocks == 0)
              || has_value f.unsafe_root
              || not (length f.debug_scopes == 0)
              || not (length f.debug_locals == 0))
            ErrorKind.malformed_module
        else body)
