-- ===== src/Verifier/Equality.antt =====
-- `same_symbol` and `same_type` of native/codegen/ir_verifier.cpp decide equality.
use neri.Prelude.{
  ◌≡◌, refl, sym, ap, ◌∙◌, ◌↔◌, Option, none, some, true, ==_iff, bytes_eq→eq, bytes_eq_self, arith,
}
use neri.Ir.Model.{SymbolId, IrType, ir_type, IrTypes, no_types, more_types}
use neri.Ir.TypeTag.{TypeTag, wire_injective}
use neri.Ir.TypeTag
use neri.Ir.SymbolKind.{SymbolKind}
use neri.Ir.SymbolKind
use neri.Verifier.Types.{is_tag, same_symbol, same_symbols, same_type, same_arguments}

pub is_tag_eq : (t u : TypeTag) → is_tag t u ≡ true → t ≡ u
unfolding is_tag
is_tag_eq t u h = wire_injective t u ((==_iff (TypeTag.wire t) (TypeTag.wire u)).0 h)

pub is_tag_self : (t : TypeTag) → is_tag t t ≡ true
unfolding is_tag
is_tag_self t = (==_iff (TypeTag.wire t) (TypeTag.wire t)).1 refl

kind_injective : (j k : SymbolKind) → SymbolKind.wire j ≡ SymbolKind.wire k → j ≡ k
kind_injective j k e = sym (SymbolKind.cast-wire j) ∙ ap SymbolKind.cast e ∙ SymbolKind.cast-wire k

pub same_symbol_eq : (s t : SymbolId) → same_symbol s t ≡ true → s ≡ t
unfolding same_symbol
same_symbol_eq s t h =
    let a = bytes_eq→eq s.module_id t.module_id (ground (arith, h)) in
    let b = kind_injective s.kind t.kind ((==_iff _ _).0 (ground (arith, h))) in
    let c = bytes_eq→eq s.semantic_name t.semantic_name (ground (arith, h)) in
    λ i. record { module_id = a i; kind = b i; semantic_name = c i }

pub same_symbol_self : (s : SymbolId) → same_symbol s s ≡ true
unfolding same_symbol
same_symbol_self s = ground (
  arith,
  bytes_eq_self s.module_id,
  bytes_eq_self s.semantic_name,
  (==_iff (SymbolKind.wire s.kind) (SymbolKind.wire s.kind)).1 refl,
)

same_symbols_eq : (s t : Option SymbolId) → same_symbols s t ≡ true → s ≡ t
same_symbols_eq none none h = refl
same_symbols_eq none (some t) h = absurd (ground arith)
same_symbols_eq (some s) none h = absurd (ground arith)
same_symbols_eq (some s) (some t) h = ap (λ x. some x) (same_symbol_eq s t h)

same_symbols_self : (s : Option SymbolId) → same_symbols s s ≡ true
same_symbols_self none = refl
same_symbols_self (some s) = same_symbol_self s

mutual
  unfolding same_type same_arguments

  pub same_type_eq : (t u : IrType) → same_type t u ≡ true → t ≡ u
  same_type_eq (ir_type tag s a n) (ir_type tag2 s2 a2 n2) h =
      let e = is_tag_eq tag tag2 (ground (arith, h)) in
      let f = same_symbols_eq s s2 (ground (arith, h)) in
      let g = same_arguments_eq a a2 (ground (arith, h)) in
      let k = (==_iff n n2).0 (ground (arith, h)) in λ i. ir_type (e i) (f i) (g i) (k i)

  pub same_arguments_eq : (ts us : IrTypes) → same_arguments ts us ≡ true → ts ≡ us
  same_arguments_eq no_types no_types h = refl
  same_arguments_eq no_types (more_types u us) h = absurd (ground arith)
  same_arguments_eq (more_types t ts) no_types h = absurd (ground arith)
  same_arguments_eq (more_types t ts) (more_types u us) h =
      let e = same_type_eq t u (ground (arith, h)) in
      let f = same_arguments_eq ts us (ground (arith, h)) in λ i. more_types (e i) (f i)

mutual
  unfolding same_type same_arguments

  pub same_type_self : (t : IrType) → same_type t t ≡ true
  same_type_self (ir_type tag s a n) =
      ground
        (arith, is_tag_self tag, same_symbols_self s, same_arguments_self a, (==_iff n n).1 refl)

  pub same_arguments_self : (ts : IrTypes) → same_arguments ts ts ≡ true
  same_arguments_self no_types = refl
  same_arguments_self (more_types t ts) = ground (arith, same_type_self t, same_arguments_self ts)

-- The comparison of types answers true exactly on equal types: the tag, the element count, the symbol
-- and all arguments.
pub same_type_iff : (t u : IrType) → (same_type t u ≡ true) ↔ (t ≡ u)
same_type_iff t u = (same_type_eq t u, λ e. ap (λ x. same_type t x) (sym e) ∙ same_type_self t)
