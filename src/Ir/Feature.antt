-- ===== src/Ir/Feature.antt =====
-- native/include/neri/ir_features.h: the semantic features and their contracts.
use neri.Prelude.{
  ℕ, ◌≡◌, refl, List, [], ◌∷◌, Option, none, some, arith, if◌then◌else◌, codes, bytes_eq,
  bytes_eq→eq, Bool-cases, inl, inr,
}

pub data Feature : Type 0 where
  automatic_regions c_interop debug_scopes extended_scalars : Feature
  isolated_workers native_libraries native_records native_strings : Feature
  retained_modules scoped_tasks sequential_arrays session_module : Feature
  string_data : Feature

-- The enumerator's value.
unfoldable pub index : Feature → ℕ
index Feature.automatic_regions = 0
index Feature.c_interop = 1
index Feature.debug_scopes = 2
index Feature.extended_scalars = 3
index Feature.isolated_workers = 4
index Feature.native_libraries = 5
index Feature.native_records = 6
index Feature.native_strings = 7
index Feature.retained_modules = 8
index Feature.scoped_tasks = 9
index Feature.sequential_arrays = 10
index Feature.session_module = 11
index Feature.string_data = 12

pub record Contract : Type 0 where
  pub feature : Feature
  pub name : List ℕ
  pub transport_minor : ℕ
  pub runtime_minor : ℕ
  pub runtime_features : ℕ

-- `ir_feature_metadata`: the row of `ir_feature_contracts` for a feature.
unfoldable pub metadata : Feature → Contract
metadata Feature.automatic_regions = record {
  feature = Feature.automatic_regions;
  name = codes "automatic-regions-v1";
  transport_minor = 1;
  runtime_minor = 36;
  runtime_features = 0;
}
metadata Feature.c_interop = record {
  feature = Feature.c_interop;
  name = codes "c-interop-v1";
  transport_minor = 8;
  runtime_minor = 27;
  runtime_features = 0;
}
metadata Feature.debug_scopes = record {
  feature = Feature.debug_scopes;
  name = codes "debug-scopes-v1";
  transport_minor = 6;
  runtime_minor = 1;
  runtime_features = 0;
}
metadata Feature.extended_scalars = record {
  feature = Feature.extended_scalars;
  name = codes "extended-scalars-v1";
  transport_minor = 2;
  runtime_minor = 9;
  runtime_features = 512;
}
metadata Feature.isolated_workers = record {
  feature = Feature.isolated_workers;
  name = codes "isolated-workers-v1";
  transport_minor = 9;
  runtime_minor = 32;
  runtime_features = 1073741824;
}
metadata Feature.native_libraries = record {
  feature = Feature.native_libraries;
  name = codes "native-libraries-v1";
  transport_minor = 2;
  runtime_minor = 1;
  runtime_features = 0;
}
metadata Feature.native_records = record {
  feature = Feature.native_records;
  name = codes "native-records-v1";
  transport_minor = 3;
  runtime_minor = 1;
  runtime_features = 0;
}
metadata Feature.native_strings = record {
  feature = Feature.native_strings;
  name = codes "native-strings-v1";
  transport_minor = 1;
  runtime_minor = 2;
  runtime_features = 64;
}
metadata Feature.retained_modules = record {
  feature = Feature.retained_modules;
  name = codes "retained-modules-v1";
  transport_minor = 7;
  runtime_minor = 1;
  runtime_features = 0;
}
metadata Feature.scoped_tasks = record {
  feature = Feature.scoped_tasks;
  name = codes "scoped-tasks-v1";
  transport_minor = 4;
  runtime_minor = 10;
  runtime_features = 16384;
}
metadata Feature.sequential_arrays = record {
  feature = Feature.sequential_arrays;
  name = codes "sequential-arrays-v1";
  transport_minor = 8;
  runtime_minor = 35;
  runtime_features = 536870912;
}
metadata Feature.session_module = record {
  feature = Feature.session_module;
  name = codes "session-module-v1";
  transport_minor = 5;
  runtime_minor = 19;
  runtime_features = 8388608;
}
metadata Feature.string_data = record {
  feature = Feature.string_data;
  name = codes "string-data-v1";
  transport_minor = 1;
  runtime_minor = 1;
  runtime_features = 0;
}

unfoldable pub name : Feature → List ℕ
unfolding metadata
name f = (metadata f).name

-- `ir_feature_contracts`, in the order of the table.
unfoldable pub contracts : List Contract
unfolding metadata
contracts =
    metadata Feature.automatic_regions
    ∷ metadata Feature.c_interop
    ∷ metadata Feature.debug_scopes
    ∷ metadata Feature.extended_scalars
    ∷ metadata Feature.isolated_workers
    ∷ metadata Feature.native_libraries
    ∷ metadata Feature.native_records
    ∷ metadata Feature.native_strings
    ∷ metadata Feature.retained_modules
    ∷ metadata Feature.scoped_tasks
    ∷ metadata Feature.sequential_arrays
    ∷ metadata Feature.session_module
    ∷ metadata Feature.string_data
    ∷ []

find : List ℕ → List Contract → Option Feature
find n [] = none
find n (c ∷ cs) = if bytes_eq c.name n then some c.feature else find n cs

-- `ir_feature_from_name`: the first contract of that name.
unfoldable pub from_name : List ℕ → Option Feature
unfolding find contracts
from_name n = find n contracts

pub from_name-name : (f : Feature) → from_name (name f) ≡ some f
unfolding from_name name
from_name-name Feature.automatic_regions = refl
from_name-name Feature.c_interop = refl
from_name-name Feature.debug_scopes = refl
from_name-name Feature.extended_scalars = refl
from_name-name Feature.isolated_workers = refl
from_name-name Feature.native_libraries = refl
from_name-name Feature.native_records = refl
from_name-name Feature.native_strings = refl
from_name-name Feature.retained_modules = refl
from_name-name Feature.scoped_tasks = refl
from_name-name Feature.sequential_arrays = refl
from_name-name Feature.session_module = refl
from_name-name Feature.string_data = refl

-- Every row carries its own feature, under the name that the metadata give.
abbrev Consistent : List Contract → Type 0
Consistent [] = Unit
Consistent (c ∷ cs) = (c.name ≡ name c.feature) × Consistent cs

find-name :
    (n : List ℕ) (cs : List Contract) (f : Feature)
    → Consistent cs
    → find n cs ≡ some f
    → n ≡ name f
unfolding find
find-name n [] f k h = ground arith
find-name n (c ∷ cs) f k h = elim (Bool-cases (bytes_eq c.name n)) [
  | inl e ↦ ground (arith, bytes_eq→eq c.name n e)
  | inr e ↦ find-name n cs f k.1 (ground arith)
]

contracts-Consistent : Consistent contracts
unfolding contracts name
contracts-Consistent = (
  refl,
  (
    refl,
    (refl, (refl, (refl, (refl, (refl, (refl, (refl, (refl, (refl, (refl, (refl, tt))))))))))),
  ),
)

pub name_of_from_name : (n : List ℕ) (f : Feature) → from_name n ≡ some f → n ≡ name f
unfolding from_name
name_of_from_name n f h = find-name n contracts f contracts-Consistent h
