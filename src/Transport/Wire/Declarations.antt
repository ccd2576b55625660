-- ===== src/Transport/Wire/Declarations.antt =====
-- The formats of sources, classes, globals and imports.
use neri.Prelude.{ℕ, ◌≤◌, ◌<◌, ◌≡◌, refl, false, not, [], ltb, arith, length}
use neri.Ir.Access
use neri.Ir.DispatchKind
use neri.Ir.GlobalLinkage
use neri.Ir.ImportKind
use neri.Ir.Model.{
  Source, Field, Method, ClassDeclaration, NativeRecord, GlobalDeclaration, RuntimeRequirement,
  ImportDeclaration,
}
use neri.Transport.Reader.{ErrorKind, Context}
use neri.Transport.Declarations.{
  read_source, read_field, read_method, read_class, read_native_record, read_global, read_effects,
  read_runtime_requirement, read_import,
}
use neri.Transport.Format.Basic.{
  Format, Reads, done, part, pure-Reads, part-Reads, offset-Reads, via, via-Reads,
}
use neri.Transport.Format.Words.{
  word, le_bytes, u16-Reads, u32-Reads, u64-Reads, flag_byte, boolean-Reads, tag_word, tag_u8-Reads,
}
use neri.Transport.Format.Containers.{
  text, utf8-Reads, blob_bytes, blob-Reads, identity_text, identity-Reads, size_within, passed,
  pass,
}
use neri.Transport.Format.Collections.{
  optional, read_optional-Reads, vector, read_vector-Reads, only, read_when-Reads,
}
use neri.Transport.Wire.Symbols.{symbol, read_symbol-Reads, location, read_location-Reads}
use neri.Transport.Wire.Types.{type_within, read_type-Reads, type_within_bytes}
use neri.Transport.Wire.Constants.{constant_within, read_constant-Reads}

-- A source: its identity and its bytes.
unfoldable pub source : Context → Format Source
source x = part (λ r. r.id) (identity_text x) (part (λ r. r.utf8) (blob_bytes x) done)

pub read_source-Reads : (x : Context) → Reads (read_source x) (source x)
unfolding read_source source
read_source-Reads x =
    part-Reads (identity-Reads x) λ f0 _.
      part-Reads (blob-Reads x) λ f1 _. pure-Reads _ ((tt, refl), refl) (λ b h. ground arith)

pub source_bytes :
    (x : Context) (r : Source) → (source x).Valid r → 1 ≤ length ((source x).encode r)
unfolding source part identity_text via text size_within word le_bytes
source_bytes x r h = omega arith

-- A field of a class or of a native record.
unfoldable pub field : Context → Format Field
field x =
    part (λ r. r.id) (symbol x)
      (part (λ r. r.value_type) (type_within x)
        (part (λ r. r.access) (tag_word 1 Access.domain)
          (part (λ r. r.location) (location x) done)))

pub read_field-Reads : (x : Context) → Reads (read_field x) (field x)
unfolding read_field field
read_field-Reads x = part-Reads (read_symbol-Reads x) λ f0 _. part-Reads (read_type-Reads x) λ f1 _.
    part-Reads (tag_u8-Reads Access.domain) λ f2 _.
      part-Reads (read_location-Reads x)
        λ f3 _. pure-Reads _ ((((tt, refl), refl), refl), refl) (λ b h. ground arith)

pub field_bytes : (x : Context) (r : Field) → (field x).Valid r → 1 ≤ length ((field x).encode r)
unfolding field symbol part identity_text via text size_within word le_bytes
field_bytes x r h = omega arith

-- A method of a class.
unfoldable pub method : Context → Format Method
method x =
    part (λ r. r.function_id) (symbol x)
      (part (λ r. r.dispatch) (tag_word 1 DispatchKind.domain)
        (part (λ r. r.dispatch_slot) (optional (symbol x))
          (part (λ r. r.location) (location x) done)))

pub read_method-Reads : (x : Context) → Reads (read_method x) (method x)
unfolding read_method method
read_method-Reads x = part-Reads (read_symbol-Reads x) λ f0 _.
    part-Reads (tag_u8-Reads DispatchKind.domain) λ f1 _.
      part-Reads (read_optional-Reads (read_symbol-Reads x)) λ f2 _.
        part-Reads (read_location-Reads x)
          λ f3 _. pure-Reads _ ((((tt, refl), refl), refl), refl) (λ b h. ground arith)

pub method_bytes :
    (x : Context) (r : Method) → (method x).Valid r → 1 ≤ length ((method x).encode r)
unfolding method symbol part identity_text via text size_within word le_bytes
method_bytes x r h = omega arith

-- A class; the retained flag comes with the feature.
unfoldable pub class_declaration : Context → Format ClassDeclaration
class_declaration x =
    part (λ r. r.id) (symbol x)
      (part (λ r. r.base) (optional (symbol x))
        (part (λ r. r.access) (tag_word 1 Access.domain)
          (part (λ r. r.retained) (only (x.retained_modules) (flag_byte) false)
            (part (λ r. r.fields) (vector x (field x))
              (part (λ r. r.methods) (vector x (method x))
                (part (λ r. r.location) (location x) done))))))

pub read_class-Reads : (x : Context) → Reads (read_class x) (class_declaration x)
unfolding read_class class_declaration
read_class-Reads x = part-Reads (read_symbol-Reads x) λ f0 _.
    part-Reads (read_optional-Reads (read_symbol-Reads x)) λ f1 _.
      part-Reads (tag_u8-Reads Access.domain) λ f2 _.
        part-Reads (read_when-Reads (x.retained_modules) false (boolean-Reads)) λ f3 _.
          part-Reads (read_vector-Reads x (field_bytes x) (read_field-Reads x)) λ f4 _.
            part-Reads (read_vector-Reads x (method_bytes x) (read_method-Reads x)) λ f5 _.
              part-Reads (read_location-Reads x) λ f6 _.
                pure-Reads _ (((((((tt, refl), refl), refl), refl), refl), refl), refl)
                  (λ b h. ground arith)

pub class_declaration_bytes :
    (x : Context) (r : ClassDeclaration)
    → (class_declaration x).Valid r
    → 1 ≤ length ((class_declaration x).encode r)
unfolding class_declaration symbol part identity_text via text size_within word le_bytes
class_declaration_bytes x r h = omega arith

-- A native record.
unfoldable pub native_record : Context → Format NativeRecord
native_record x =
    part (λ r. r.id) (symbol x)
      (part (λ r. r.is_union) (flag_byte) (part (λ r. r.fields) (vector x (field x)) done))

pub read_native_record-Reads : (x : Context) → Reads (read_native_record x) (native_record x)
unfolding read_native_record native_record
read_native_record-Reads x = part-Reads (read_symbol-Reads x) λ f0 _.
    part-Reads (boolean-Reads) λ f1 _.
      part-Reads (read_vector-Reads x (field_bytes x) (read_field-Reads x))
        λ f2 _. pure-Reads _ (((tt, refl), refl), refl) (λ b h. ground arith)

pub native_record_bytes :
    (x : Context) (r : NativeRecord)
    → (native_record x).Valid r
    → 1 ≤ length ((native_record x).encode r)
unfolding native_record symbol part identity_text via text size_within word le_bytes
native_record_bytes x r h = omega arith

-- A global with its initializer.
unfoldable pub global_declaration : Context → Format GlobalDeclaration
global_declaration x =
    part (λ r. r.id) (symbol x)
      (part (λ r. r.value_type) (type_within x)
        (part (λ r. r.initializer) (constant_within x)
          (part (λ r. r.linkage) (tag_word 1 GlobalLinkage.domain)
            (part (λ r. r.location) (location x) done))))

pub read_global-Reads : (x : Context) → Reads (read_global x) (global_declaration x)
unfolding read_global global_declaration
read_global-Reads x = part-Reads (read_symbol-Reads x) λ f0 _.
    part-Reads (read_type-Reads x) λ f1 _. part-Reads (read_constant-Reads x) λ f2 _.
      part-Reads (tag_u8-Reads GlobalLinkage.domain) λ f3 _.
        part-Reads (read_location-Reads x)
          λ f4 _. pure-Reads _ (((((tt, refl), refl), refl), refl), refl) (λ b h. ground arith)

pub global_declaration_bytes :
    (x : Context) (r : GlobalDeclaration)
    → (global_declaration x).Valid r
    → 1 ≤ length ((global_declaration x).encode r)
unfolding global_declaration symbol part identity_text via text size_within word le_bytes
global_declaration_bytes x r h = omega arith

-- Effect bits: the low byte of a word of four.
unfoldable pub effect_bits : Format ℕ
effect_bits = via (λ n. n) (word 4) (λ n. n < 256)

pub read_effects-Reads : Reads read_effects effect_bits
unfolding read_effects effect_bits via word
read_effects-Reads = offset-Reads λ o.
    via-Reads (λ n. n) (λ n. n < 256) _ u32-Reads
      (λ y c a c' valid e.
        let (good, same, stay) = passed _ ErrorKind.unsupported_feature o y a c c' e in
        (rw same (small y good), same, stay))
      (λ a c valid. (omega arith, pass _ ErrorKind.unsupported_feature o a c (small_test a valid)))
  where
    small : (y : ℕ) → not (ltb y 256) ≡ false → y < 256
    small y h = ground arith

    small_test : (y : ℕ) → y < 256 → not (ltb y 256) ≡ false
    small_test y h = ground arith

-- The runtime that an import needs at least.
unfoldable pub runtime_requirement : Format RuntimeRequirement
runtime_requirement =
    part (λ r. r.abi_major) (word 2)
      (part (λ r. r.abi_minor) (word 2) (part (λ r. r.feature_bits) (word 8) done))

pub read_runtime_requirement-Reads : Reads (read_runtime_requirement) (runtime_requirement)
unfolding read_runtime_requirement runtime_requirement
read_runtime_requirement-Reads = part-Reads (u16-Reads) λ f0 _. part-Reads (u16-Reads) λ f1 _.
    part-Reads (u64-Reads) λ f2 _. pure-Reads _ (((tt, refl), refl), refl) (λ b h. ground arith)

-- An import; the native library comes with the feature, and last.
unfoldable pub import_declaration : Context → Format ImportDeclaration
import_declaration x =
    part (λ r. r.id) (symbol x)
      (part (λ r. r.parameter_types) (vector x (type_within x))
        (part (λ r. r.result_type) (type_within x)
          (part (λ r. r.kind) (tag_word 1 ImportKind.domain)
            (part (λ r. r.link_name) (text x)
              (part (λ r. r.effects) (effect_bits)
                (part (λ r. r.minimum_runtime) (optional runtime_requirement)
                  (part (λ r. r.location) (location x)
                    (part (λ r. r.native_library) (only (x.native_libraries) (text x) [])
                      done))))))))

pub read_import-Reads : (x : Context) → Reads (read_import x) (import_declaration x)
unfolding read_import import_declaration
read_import-Reads x = part-Reads (read_symbol-Reads x) λ f0 _.
    part-Reads (read_vector-Reads x (type_within_bytes x) (read_type-Reads x)) λ f1 _.
      part-Reads (read_type-Reads x) λ f2 _. part-Reads (tag_u8-Reads ImportKind.domain) λ f3 _.
        part-Reads (utf8-Reads x) λ f4 _. part-Reads (read_effects-Reads) λ f5 _.
          part-Reads (read_optional-Reads read_runtime_requirement-Reads) λ f6 _.
            part-Reads (read_location-Reads x) λ f7 _.
              part-Reads (read_when-Reads (x.native_libraries) [] (utf8-Reads x)) λ f8 _.
                pure-Reads _
                  (((((((((tt, refl), refl), refl), refl), refl), refl), refl), refl), refl)
                  (λ b h. ground arith)

pub import_declaration_bytes :
    (x : Context) (r : ImportDeclaration)
    → (import_declaration x).Valid r
    → 1 ≤ length ((import_declaration x).encode r)
unfolding import_declaration symbol part identity_text via text size_within word le_bytes
import_declaration_bytes x r h = omega arith
