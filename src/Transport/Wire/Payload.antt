-- ===== src/Transport/Wire/Payload.antt =====
-- The format of a whole payload.
use neri.Prelude.{
  ℕ, ◌≤◌, ◌≡◌, refl, sym, ap, subst, Bool, true, false, not, List, [], ◌∷◌, Option, none, some,
  arith, length,
}
use neri.Ir.Feature
use neri.Ir.Feature.{Feature}
use neri.Ir.Model.{Bytes, Version, SessionExport, IrModule}
use neri.Transport.Reader.{
  ErrorKind, Context, Cursor, ok, continue, offset, ◌>>=◌, ◌>>◌, fail, fail_if, pure,
}
use neri.Transport.Types.{too_old}
use neri.Transport.Payload.{
  bad_feature_name, known_feature, read_feature, check_features, with_features, in_canonical_order,
  read_session_export, read_session, read_sections, read_version, read_payload,
}
use neri.Transport.Format.Basic.{
  Format, ReadsWhen, Reads, done, part, pure-Reads, part-Reads, offset-Reads, via, via-Reads,
  ok_value, ok_cursor,
}
use neri.Transport.Format.Words.{word, le_bytes, u16-Reads}
use neri.Transport.Format.Containers.{text, utf8-Reads, identity_text, identity-Reads, size_within}
use neri.Transport.Format.Collections.{vector, read_vector-Reads, only, read_when-Reads}
use neri.Transport.Format.Choice.{shaped, guarded-Reads, choose, choose-Reads}
use neri.Transport.Wire.Symbols.{symbol, read_symbol-Reads}
use neri.Transport.Wire.Types.{no_symbol, no_type, type_within, read_type-Reads}
use neri.Transport.Wire.Declarations.{
  source, read_source-Reads, source_bytes, class_declaration, read_class-Reads,
  class_declaration_bytes, global_declaration, read_global-Reads, global_declaration_bytes,
  import_declaration, read_import-Reads, import_declaration_bytes, native_record,
  read_native_record-Reads, native_record_bytes,
}
use neri.Transport.Wire.Functions.{function, read_function-Reads, function_bytes}

-- The semantic version.
unfoldable pub version : Format Version
version = part (λ r. r.major) (word 2) (part (λ r. r.minor) (word 2) done)

pub read_version-Reads : Reads (read_version) (version)
unfolding read_version version
read_version-Reads =
    part-Reads (u16-Reads)
      λ f0 _. part-Reads (u16-Reads) λ f1 _. pure-Reads _ ((tt, refl), refl) (λ b h. ground arith)

-- A feature by its name.
unfoldable pub feature : Context → Format Feature
feature x = via Feature.name (text x) (λ f. (text x).Valid (Feature.name f))

good_name : (f : Feature) → bad_feature_name (Feature.name f) ≡ false
unfolding bad_feature_name Feature.name
good_name Feature.automatic_regions = refl
good_name Feature.c_interop = refl
good_name Feature.debug_scopes = refl
good_name Feature.extended_scalars = refl
good_name Feature.isolated_workers = refl
good_name Feature.native_libraries = refl
good_name Feature.native_records = refl
good_name Feature.native_strings = refl
good_name Feature.retained_modules = refl
good_name Feature.scoped_tasks = refl
good_name Feature.sequential_arrays = refl
good_name Feature.session_module = refl
good_name Feature.string_data = refl

known-back :
    (y : Bytes) (o : ℕ) (c : Cursor) (a : Feature) (c' : Cursor)
    → (fail_if (bad_feature_name y) ErrorKind.malformed_module o
          >> known_feature (Feature.from_name y) o)
        c
      ≡ ok (a, c')
    → (Feature.from_name y ≡ some a) × (c' ≡ c)
unfolding fail_if fail pure known_feature ◌>>=◌ continue
known-back y o c a c' e = ground arith

known-forth :
    (a : Feature) (o : ℕ) (c : Cursor)
    → (fail_if (bad_feature_name (Feature.name a)) ErrorKind.malformed_module o
          >> known_feature (Feature.from_name (Feature.name a)) o)
        c
      ≡ ok (a, c)
unfolding fail_if fail pure known_feature ◌>>=◌ continue
known-forth a o c = rw (good_name a, Feature.from_name-name a) refl

pub read_feature-Reads : (x : Context) → Reads (read_feature x) (feature x)
unfolding read_feature feature via
read_feature-Reads x = offset-Reads λ o.
    via-Reads Feature.name (λ f. (text x).Valid (Feature.name f))
      (λ y.
        fail_if (bad_feature_name y) ErrorKind.malformed_module o
        >> known_feature (Feature.from_name y) o)
      (utf8-Reads x)
      (λ y c a c' valid e.
        let (found, stay) = known-back y o c a c' e in
        let same = Feature.name_of_from_name y a found in
        (subst (text x).Valid same valid, sym same, stay))
      (λ a c valid. (valid, known-forth a o c))

pub feature_bytes :
    (x : Context) (r : Feature) → (feature x).Valid r → 1 ≤ length ((feature x).encode r)
unfolding feature part text via size_within word le_bytes
feature_bytes x r h = omega arith

-- What a session module exports.
unfoldable pub session_export : Context → Format SessionExport
session_export x =
    part (λ r. r.entry) (symbol x)
      (part (λ r. r.source_type) (type_within x)
        (part (λ r. r.target_type) (type_within x)
          (part (λ r. r.artifact_identity) (only (x.retained_modules) (identity_text x) []) done)))

pub read_session_export-Reads : (x : Context) → Reads (read_session_export x) (session_export x)
unfolding read_session_export session_export
read_session_export-Reads x = part-Reads (read_symbol-Reads x) λ f0 _.
    part-Reads (read_type-Reads x) λ f1 _. part-Reads (read_type-Reads x) λ f2 _.
      part-Reads (read_when-Reads (x.retained_modules) [] (identity-Reads x))
        λ f3 _. pure-Reads _ ((((tt, refl), refl), refl), refl) (λ b h. ground arith)

abbrev export_or : Option SessionExport → SessionExport
export_or none = record {
  entry = no_symbol;
  source_type = no_type;
  target_type = no_type;
  artifact_identity = [];
}
export_or (some s) = s

-- The export of a session module, which must be there.
unfoldable pub session : Context → Format (Option SessionExport)
session x =
    via export_or (session_export x)
      (λ s. (s ≡ some (export_or s)) × (session_export x).Valid (export_or s))

read_session-Reads : (x : Context) → Reads (read_session x) (session x)
unfolding read_session session via pure
read_session-Reads x =
    via-Reads export_or (λ s. (s ≡ some (export_or s)) × (session_export x).Valid (export_or s))
      (λ y. pure (some y)) (read_session_export-Reads x)
      (λ y c a c' valid e. (
        subst (λ s. (s ≡ some (export_or s)) × (session_export x).Valid (export_or s)) (ok_value e)
            (refl, valid),
        ap export_or (sym (ok_value e)),
        sym (ok_cursor e),
      ))
      (λ a c valid. (valid.1, ground arith))

-- The sections behind the required features.
unfoldable pub sections : Context → Format IrModule
sections x =
    part (λ m. m.sources) (vector x (source x))
      (part (λ m. m.classes) (vector x (class_declaration x))
        (part (λ m. m.globals) (vector x (global_declaration x))
          (part (λ m. m.imports) (vector x (import_declaration x))
            (part (λ m. m.functions) (vector x (function x))
              (part (λ m. m.native_records)
                (only (x.native_records) (vector x (native_record x)) [])
                (part (λ m. m.session) (only (x.session_module) (session x) none) done))))))

read_sections-Reads :
    (x : Context) (v : Version) (id : Bytes) (fs : List Feature)
    → ReadsWhen
        (λ m. ((Unit {0} × (m.semantic_version ≡ v)) × (m.id ≡ id)) × (m.required_features ≡ fs))
        (read_sections x v id fs)
        (sections x)
unfolding read_sections sections
read_sections-Reads x v id fs =
    part-Reads (read_vector-Reads x (source_bytes x) (read_source-Reads x)) λ f0 _.
      part-Reads (read_vector-Reads x (class_declaration_bytes x) (read_class-Reads x)) λ f1 _.
        part-Reads (read_vector-Reads x (global_declaration_bytes x) (read_global-Reads x)) λ f2 _.
          part-Reads (read_vector-Reads x (import_declaration_bytes x) (read_import-Reads x))
            λ f3 _.
              part-Reads (read_vector-Reads x (function_bytes x) (read_function-Reads x)) λ f4 _.
                part-Reads
                  (read_when-Reads (x.native_records) []
                    (read_vector-Reads x (native_record_bytes x) (read_native_record-Reads x)))
                  λ f5 _.
                    part-Reads (read_when-Reads (x.session_module) none (read_session-Reads x))
                      λ f6 _.
                        pure-Reads _
                          (
                            (
                              ((((((((tt, refl), refl), refl), refl), refl), refl), refl), refl),
                              refl,
                            ),
                            refl,
                          )
                          (λ b h. ground arith)

-- The transport minor carries each feature.
abbrev pub Carried : Context → List Feature → Type 0
Carried x [] = Unit
Carried x (f ∷ fs) = (too_old x f ≡ false) × Carried x fs

check-back :
    (x : Context) (fs : List Feature) (c : Cursor) (u : Unit {0}) (c' : Cursor)
    → check_features x fs c ≡ ok (u, c')
    → Carried x fs × (c' ≡ c)
unfolding check_features fail_if fail pure ◌>>=◌ continue offset
check-back x [] c u c' e = (tt, sym (ok_cursor e))
check-back x (f ∷ fs) c u c' e = ground (arith, check-back x fs c u c')

check-forth :
    (x : Context) (fs : List Feature) (c : Cursor)
    → Carried x fs
    → check_features x fs c ≡ ok (tt, c)
unfolding check_features fail_if fail pure ◌>>=◌ continue offset
check-forth x [] c h = refl
check-forth x (f ∷ fs) c h = ground (arith, check-forth x fs c h.1)

order-back :
    (b : Bool) (o : ℕ) (c : Cursor) (u : Unit {0}) (c' : Cursor)
    → fail_if (not b) ErrorKind.malformed_module o c ≡ ok (u, c')
    → (b ≡ true) × (c' ≡ c)
unfolding fail_if fail pure
order-back b o c u c' e = ground arith

order-forth :
    (b : Bool) (o : ℕ) (c : Cursor)
    → b ≡ true
    → fail_if (not b) ErrorKind.malformed_module o c ≡ ok (tt, c)
unfolding fail_if fail pure
order-forth b o c h = ground arith

-- The payload of a module: the sections are read under the flags of its required features, which
-- the transport minor carries and which stand in their canonical order.
unfoldable pub payload : Context → Format IrModule
payload x =
    part (λ m. m.semantic_version) version
      (part (λ m. m.id) (identity_text x)
        (part (λ m. m.required_features) (vector x (feature x))
          (shaped (λ m. Carried x m.required_features)
            (shaped (λ m. in_canonical_order m.required_features ≡ true)
              (choose (λ m. m.required_features) (λ fs. sections (with_features x fs)))))))

pub read_payload-Reads : (x : Context) → Reads (read_payload x) (payload x)
unfolding read_payload payload
read_payload-Reads x = part-Reads read_version-Reads λ v _. part-Reads (identity-Reads x) λ id _.
    part-Reads (read_vector-Reads x (feature_bytes x) (read_feature-Reads x)) λ fs _.
      guarded-Reads (check-back x fs) (check-forth x fs)
        (λ m h. (λ k. subst (Carried x) h.1 k, λ k. subst (Carried x) (sym h.1) k))
        (offset-Reads λ o.
          guarded-Reads (order-back (in_canonical_order fs) o)
            (order-forth (in_canonical_order fs) o)
            (λ m h. (
              λ k. subst (λ gs. in_canonical_order gs ≡ true) h.1 k,
              λ k. subst (λ gs. in_canonical_order gs ≡ true) (sym h.1) k,
            ))
            (choose-Reads (λ gs. sections (with_features x gs)) fs
              (read_sections-Reads (with_features x fs) v id fs)))
