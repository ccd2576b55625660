-- ===== src/Verifier/Widest.antt =====
-- The signature that `verify_virtual_call` of native/codegen/ir_verifier.cpp chooses, in a module whose bases
-- `verify_supported_module` has checked: its receiver is the widest.
use mathlib.Core.List.{Memᴰ}
use mathlib.Core.List.Memᴰ
use neri.Prelude.{
  ℕ, zero, suc, ◌+◌, ◌≡◌, refl, sym, ap, ◌∙◌, subst, List, [], ◌∷◌, Option, some, Bool, true, not,
  if◌then◌else◌, length, bit_or, some_eq, arith, Bool-cases, inl, inr,
}
use neri.Ir.Model.{Instruction, Bytes, SymbolId, ClassDeclaration, Function, IrModule}
use neri.Transport.Reader.{ErrorKind, ok}
use neri.Verifier.Check.{
  ◌>>◌, fail_if, found, each, bind_ok, then_ok, fail_if_ok, found_ok, each_ok,
}
use neri.Verifier.Types.{same_symbol}
use neri.Verifier.Equality.{same_symbol_self}
use neri.Verifier.Lookup.{first, find_class, same_or_base_within, is_same_or_base}
use neri.Verifier.Context.{FunctionContext}
use neri.Verifier.Virtual.{
  candidates, verify_virtual_call, receiver, compatible, more_general, choose_signature,
}
use neri.Verifier.Bases.{Derives, itself, based, Derives-trans}
use neri.Verifier.Dispatch.{
  SlotCall, Implements, virtual_call_fits, Upward, choose_sound, more_general-Derives,
  compatible-Receiver, receiver_class,
}
use neri.Verifier.Imports.{RuntimeContract}
use neri.Verifier.Modules.{check_classes}
use neri.Verifier.Supported.{
  module_accepted, Rooted, root, derived, check_bases, verify_header, verify_declarations,
  verify_supported_module,
}

first_member :
    (p : ClassDeclaration → Bool) (cs : List ClassDeclaration) (c : ClassDeclaration)
    → first p cs ≡ some c
    → Memᴰ c cs
first_member p [] c h = absurd (ground (arith, h))
first_member p (d ∷ ds) c h = elim (Bool-cases (p d)) [
  | inl e ↦ Memᴰ.head (sym (some_eq d c (ground (arith, h, e))))
  | inr e ↦ Memᴰ.tail (first_member p ds c (ground (arith, h, e)))
]

-- The steps that a check of bases takes are enough to meet each of them.
bases_met :
    (n : ℕ) (m : IrModule) (b t : SymbolId)
    → check_bases n m (some b) ≡ ok tt
    → Derives m b t
    → same_or_base_within n m b t ≡ true
unfolding check_bases same_or_base_within
bases_met zero m b t h d = absurd (ground (arith, h))
bases_met (suc n) m b _ h (itself _) = ground (arith, same_symbol_self b)
bases_met (suc n) m b t h (based _ a _ c f e d) =
    let (k, p, q) =
      bind_ok (found (find_class m b) ErrorKind.invalid_reference)
        (λ k. check_bases n m (ClassDeclaration.base k)) tt h in
    let same : k ≡ c = some_eq k c (sym (found_ok (find_class m b) _ k p) ∙ f) in
    let more =
      bases_met n m a t
        (subst (λ o. check_bases n m o ≡ ok tt) (ap ClassDeclaration.base same ∙ e) q) d in
    elim (Bool-cases (same_symbol b t)) [
      | inl z ↦ ground (arith, z)
      | inr z ↦ ground (arith, z, f, e, more)
    ]

-- The bases of all classes have been checked.
abbrev Checked : IrModule → Type 0
Checked m =
    (c : ClassDeclaration) → Memᴰ c m.classes → check_bases (length m.classes) m c.base ≡ ok tt

one_more :
    (m : IrModule) (s t : SymbolId)
    → Checked m
    → Derives m s t
    → same_or_base_within (suc (length m.classes)) m s t ≡ true
unfolding same_or_base_within find_class
one_more m s _ k (itself _) = ground (arith, same_symbol_self s)
one_more m s t k (based _ b _ c f e d) =
    let checked =
      subst (λ o. check_bases (length m.classes) m o ≡ ok tt) e
        (k c (first_member (λ x. same_symbol (ClassDeclaration.id x) s) m.classes c f)) in
    let more = bases_met (length m.classes) m b t checked d in
    elim (Bool-cases (same_symbol s t)) [
      | inl z ↦ ground (arith, z)
      | inr z ↦ ground (arith, z, f, e, more)
    ]

Derives-is_same_or_base :
    (m : IrModule) (s t : SymbolId) → Checked m → Derives m s t → is_same_or_base m s t ≡ true
unfolding is_same_or_base
Derives-is_same_or_base m s t k d =
    let e : suc (length m.classes) ≡ length m.classes + 1 = omega arith in
    subst (λ n. same_or_base_within n m s t ≡ true) e (one_more m s t k d)

-- Receivers that derive make a function more general.
derived-more_general :
    (m : IrModule) (f g : Function) (s t : SymbolId)
    → Checked m
    → receiver f ≡ some s
    → receiver g ≡ some t
    → Derives m s t
    → more_general m f g ≡ true
derived-more_general m f g s t k p q d = ground (arith, p, q, Derives-is_same_or_base m s t k d)

module _ (c : FunctionContext) (checked : Checked c.index) where
  -- A candidate that is more general than what is chosen in the end is what is chosen, up to bases.
  choose_widest :
      (fs : List Function) (g : Function) (effects : ℕ) (chosen : Function × ℕ) (s : SymbolId)
      → receiver g ≡ some s
      → choose_signature c.index g effects fs ≡ ok chosen
      → (f : Function) → Memᴰ f fs
      → more_general c.index chosen.0 f ≡ true
      → more_general c.index f chosen.0 ≡ true
  unfolding choose_signature Upward
  choose_widest [] g effects chosen s r h f m w = absurd (Memᴰ.not-nil m)
  choose_widest (a ∷ fs) g effects chosen s r h f m w =
      let next : Function = if more_general c.index g a then a else g in
      let checks =
        then_ok (fail_if (not (compatible g a)) ErrorKind.invalid_reference)
          (choose_signature c.index next (bit_or effects a.effects) fs) chosen h in
      let fits : compatible g a ≡ true =
        ground (arith, fail_if_ok (not (compatible g a)) ErrorKind.invalid_reference checks.0) in
      let above = (choose_sound c fs next (bit_or effects a.effects) chosen checks.1).2 in
      let (t, n) = receiver_class a (compatible-Receiver g a fits) in
      elim (Bool-cases (more_general c.index g a)) [
        | inl z ↦
            let e : next ≡ a = ap (λ x. if x then a else g) z in
            elim (Memᴰ.cases_cons m) [
              | inl x ↦
                  let (u, o, d) = above t (ap receiver e ∙ n) in
                  derived-more_general c.index f chosen.0 t u checked (ap receiver x ∙ n) o d
              | inr x ↦
                  choose_widest fs next (bit_or effects a.effects) chosen t (ap receiver e ∙ n)
                    checks.1 f x w
            ]
        | inr z ↦
            let e : next ≡ g = ap (λ x. if x then a else g) z in
            elim (Memᴰ.cases_cons m) [
              | inl x ↦
                  let (u, o, d) = above s (ap receiver e ∙ r) in
                  let (v, q, k) = more_general-Derives c.index chosen.0 f u w o in
                  let wider =
                    derived-more_general c.index g a s v checked r (ap receiver (sym x) ∙ q)
                      (Derives-trans c.index s u v d k) in
                  absurd (ground (arith, z, wider))
              | inr x ↦
                  choose_widest fs next (bit_or effects a.effects) chosen s (ap receiver e ∙ r)
                    checks.1 f x w
            ]
      ]

-- A class with a base that leads back to it.
pub record Cycle (m : IrModule) (s : SymbolId) : Type 0 where
  pub declaration : ClassDeclaration
  pub base : SymbolId
  pub declared : find_class m s ≡ some declaration
  pub above : declaration.base ≡ some base
  pub back : Derives m base s

next-Cycle : (m : IrModule) (s : SymbolId) (k : Cycle m s) → Cycle m k.base
next-Cycle m s k = around k.base k.back refl
  where
    around : (b : SymbolId) → Derives m b s → b ≡ k.base → Cycle m b
    around _ (itself _) e = record {
      declaration = k.declaration;
      base = k.base;
      declared = k.declared;
      above = k.above;
      back = subst (λ x. Derives m x s) e (itself s);
    }
    around _ (based b a _ c f g d) e = record {
      declaration = c;
      base = a;
      declared = f;
      above = g;
      back = Derives-trans m a s b d (
          based s k.base b k.declaration k.declared k.above
            (subst (λ x. Derives m x b) e (itself b)));
    }

no-Cycle :
    (m : IrModule) (o : Option SymbolId) (s : SymbolId) → Rooted m o → o ≡ some s → Cycle m s → ⊥
no-Cycle m _ s root e k = absurd (ground (arith, e))
no-Cycle m _ s (derived b c f r) e k =
    let here = some_eq b s e in
    let same = some_eq c k.declaration (sym f ∙ ap (find_class m) here ∙ k.declared) in
    no-Cycle m c.base k.base r (ap ClassDeclaration.base same ∙ k.above) (next-Cycle m s k)

-- No class is a base of one of its own bases.
only_itself :
    (m : IrModule) (t s : SymbolId)
    → ((c : ClassDeclaration) → Memᴰ c m.classes → Rooted m c.base)
    → Derives m t s
    → Derives m s t
    → s ≡ t
unfolding find_class
only_itself m t _ h (itself _) back = refl
only_itself m t s h (based _ b _ c f e d) back =
    let k = first_member (λ x. same_symbol (ClassDeclaration.id x) t) m.classes c f in
    absurd (
      no-Cycle m (some t) t (derived t c f (h c k)) refl (record {
        declaration = c;
        base = b;
        declared = f;
        above = e;
        back = Derives-trans m b s t d back;
      }))

accepted-Checked :
    (legal_utf8 : Bytes → Bool) (catalog : Bytes → Option RuntimeContract) (m : IrModule)
    → verify_supported_module legal_utf8 catalog m ≡ ok tt
    → Checked m
unfolding verify_supported_module verify_declarations
accepted-Checked legal_utf8 catalog m h =
    let last =
      then_ok (verify_header legal_utf8 m >> verify_declarations legal_utf8 catalog m) _ tt h in
    let declared =
      then_ok (verify_header legal_utf8 m) (verify_declarations legal_utf8 catalog m) tt last.0 in
    let (ds, p, q) = bind_ok (check_classes m [] m.classes) _ tt declared.1 in
    let bases =
      then_ok (each (λ c. check_bases (length m.classes) m (ClassDeclaration.base c)) m.classes) _
        tt q in
    λ c k.
      each_ok (λ x. check_bases (length m.classes) m (ClassDeclaration.base x)) c m.classes bases.0
        k

-- In an accepted module, the signature of an accepted virtual call has the widest receiver: every
-- implementation of the slot has a class as its receiver, and where that is the class of the signature's
-- receiver or one of its bases, it is that class itself.
pub widest_receiver :
    (legal_utf8 : Bytes → Bool) (catalog : Bytes → Option RuntimeContract) (c : FunctionContext)
    (i : Instruction) (effects : ℕ)
    → verify_supported_module legal_utf8 catalog c.index ≡ ok tt
    → verify_virtual_call c i ≡ ok effects
    → (slot : SymbolId) × (i.symbol ≡ some slot)
      × (call : SlotCall c i (candidates slot c.index.functions) effects) × ((f : Function)
          → Memᴰ f (candidates slot c.index.functions)
          → (s : SymbolId) × (receiver f ≡ some s)
            × (Derives c.index call.signature_class s → s ≡ call.signature_class))
widest_receiver legal_utf8 catalog c i effects h v =
    let (slot, symbol, kind, call) = virtual_call_fits c i effects v in
    let rooted = (module_accepted legal_utf8 catalog c.index h).0 in
    let checked = accepted-Checked legal_utf8 catalog c.index h in
    let m = c.index in
    let fs = candidates slot c.index.functions in
    let widest =
      choose_widest c checked fs call.first 0 (call.signature, call.all_effects) call.first_class
        call.first_receiver call.chosen in
    (
      slot,
      symbol,
      call,
      λ f k.
          let (s, n) = receiver_class f (Implements.receiver (call.implementations f k)) in
          (
            s,
            n,
            λ d.
                let more =
                  derived-more_general m call.signature f call.signature_class s checked
                    call.signature_receiver n d in
                let (t, o, back) = more_general-Derives m f call.signature s (widest f k more) n in
                let same : t ≡ call.signature_class =
                  some_eq t call.signature_class (sym o ∙ call.signature_receiver) in
                only_itself m call.signature_class s rooted d
                  (subst (λ x. Derives m s x) same back),
          ),
    )
