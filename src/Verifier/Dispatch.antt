-- ===== src/Verifier/Dispatch.antt =====
-- An accepted virtual call fits every implementation of its slot: `verify_virtual_call` of
-- native/codegen/ir_verifier.cpp.
use mathlib.Core.List.{Memᴰ}
use mathlib.Core.List.Memᴰ
use neri.Prelude.{
  Option-cases, none, ℕ, ◌≡◌, refl, sym, ap, ◌∙◌, subst, List, [], ◌∷◌, some, Bool, true, false,
  not, ◌==◌, ==_iff, if◌then◌else◌, arith, Bool-cases, inl, inr, bit_or, get_elem?,
}
use neri.Ir.Model.{IrType, Instruction, SymbolId, Function, IrModule}
use neri.Ir.FunctionKind.{FunctionKind}
use neri.Ir.FunctionKind
use neri.Ir.SymbolKind.{SymbolKind}
use neri.Ir.SymbolKind
use neri.Transport.Reader.{ErrorKind, ok}
use neri.Verifier.Check.{fail_if, found, bind_ok, then_ok, fail_if_ok, ok_eq, found_ok}
use neri.Verifier.Equality.{same_type_eq}
use neri.Verifier.Context.{FunctionContext, same, operand_type}
use neri.Verifier.Types.{is_class, symbol_of}
use neri.Verifier.Bases.{Derives, itself, Derives-trans, is_same_or_base-Derives}
use neri.Verifier.Calls.{Callee, verify_signature, call_effects}
use neri.Verifier.Virtual.{
  receiver, candidates, same_types, same_parameters, compatible, more_general, choose_signature,
  call_of_slot, verify_virtual_call,
}
use neri.Verifier.Typed.{Typed, verify_signature-Typed}
use neri.Verifier.Effect.{Within, Within-bit_or}

same_types_eq : (ts us : List IrType) → same_types ts us ≡ true → ts ≡ us
same_types_eq [] [] h = refl
same_types_eq [] (u ∷ us) h = absurd (ground arith)
same_types_eq (t ∷ ts) [] h = absurd (ground arith)
same_types_eq (t ∷ ts) (u ∷ us) h =
    let a = same_type_eq t u (ground (arith, h)) in
    let b = same_types_eq ts us (ground (arith, h)) in λ i. a i ∷ b i

same_eq : (a b : Bool) → same a b ≡ true → a ≡ b
same_eq true true h = refl
same_eq true false h = absurd (ground arith)
same_eq false true h = absurd (ground arith)
same_eq false false h = refl

abbrev behind {ℓ} : {A : Type ℓ} → List A → List A
behind [] = []
behind (x ∷ xs) = xs

-- Two functions of a slot: a receiver, and the same parameters behind it, result and contract.
pub record Agree (f g : Function) : Type 0 where
  pub parameters : behind f.parameter_types ≡ behind g.parameter_types
  pub result : f.result_type ≡ g.result_type
  pub contract : f.unsafe_call ≡ g.unsafe_call

Agree-refl : (f : Function) → Agree f f
Agree-refl f = record { parameters = refl; result = refl; contract = refl }

Agree-trans : (f g h : Function) → Agree f g → Agree g h → Agree f h
Agree-trans f g h a b = record {
  parameters = a.parameters ∙ b.parameters;
  result = a.result ∙ b.result;
  contract = a.contract ∙ b.contract;
}

Agree-sym : (f g : Function) → Agree f g → Agree g f
Agree-sym f g a = record {
  parameters = sym a.parameters;
  result = sym a.result;
  contract = sym a.contract;
}

parameters_agree : (ts us : List IrType) → same_parameters ts us ≡ true → behind ts ≡ behind us
parameters_agree [] us h = absurd (ground arith)
parameters_agree (t ∷ ts) [] h = absurd (ground arith)
parameters_agree (t ∷ ts) (u ∷ us) h = same_types_eq ts us (ground (arith, h))

compatible-Agree : (g f : Function) → compatible g f ≡ true → Agree f g
unfolding compatible
compatible-Agree g f h = record {
  parameters = parameters_agree f.parameter_types g.parameter_types (ground (arith, h));
  result = same_type_eq f.result_type g.result_type (ground (arith, h));
  contract = same_eq f.unsafe_call g.unsafe_call (ground (arith, h));
}

-- The receiver of an instance method: a class.
pub record Receiver (f : Function) : Type 0 where
  pub type : IrType
  pub others : List IrType
  pub first : f.parameter_types ≡ type ∷ others
  pub class : is_class type ≡ true

class_first :
    (ts us : List IrType)
    → same_parameters ts us ≡ true
    → (t : IrType) × (rest : List IrType) × (ts ≡ t ∷ rest) × (is_class t ≡ true)
class_first [] us h = absurd (ground arith)
class_first (t ∷ ts) [] h = absurd (ground arith)
class_first (t ∷ ts) (u ∷ us) h = (t, ts, refl, ground (arith, h))

pub compatible-Receiver : (g f : Function) → compatible g f ≡ true → Receiver f
unfolding compatible
compatible-Receiver g f h =
    let (t, rest, e, c) = class_first f.parameter_types g.parameter_types (ground (arith, h)) in
    record { type = t; others = rest; first = e; class = c }

compatible_kind :
    (g f : Function)
    → compatible g f ≡ true
    → FunctionKind.wire f.kind ≡ FunctionKind.wire FunctionKind.instance_method
unfolding compatible
compatible_kind g f h =
    (==_iff (FunctionKind.wire f.kind) (FunctionKind.wire FunctionKind.instance_method)).0
      (ground (arith, h))

-- The receiver of the second function is that of the first or a base of it.
unfoldable pub Upward : IrModule → Function → Function → Type 0
Upward m f g =
    (s : SymbolId) → receiver f ≡ some s → (t : SymbolId) × (receiver g ≡ some t) × Derives m s t

pub more_general-Derives :
    (m : IrModule) (f g : Function) (s : SymbolId)
    → more_general m f g ≡ true
    → receiver f ≡ some s
    → (t : SymbolId) × (receiver g ≡ some t) × Derives m s t
more_general-Derives m f g s h e = elim (Option-cases (receiver g)) [
  | inl n ↦ absurd (ground (arith, h, e, n))
  | inr (t, n) ↦ (t, n, is_same_or_base-Derives m s t (ground (arith, h, e, n)))
]

up : (m : IrModule) (f g h : Function) → more_general m f g ≡ true → Upward m g h → Upward m f h
unfolding Upward
up m f g h w u s e =
    let (t, n, d) = more_general-Derives m f g s w e in
    let (v, o, k) = u t n in (v, o, Derives-trans m s t v d k)

-- The receiver's class has a symbol.
class_symbol : (t : IrType) → is_class t ≡ true → (s : SymbolId) × (symbol_of t ≡ some s)
unfolding is_class
class_symbol t c = elim (Option-cases (symbol_of t)) [
  | inl n ↦ absurd (ground (arith, c, n))
  | inr (s, n) ↦ (s, n)
]

pub receiver_class : (f : Function) (r : Receiver f) → (s : SymbolId) × (receiver f ≡ some s)
receiver_class f r =
    let (s, n) = class_symbol r.type r.class in
    (s, subst (λ ts. (elim ts [ [] ↦ none | t ∷ us ↦ symbol_of t ]) ≡ some s) (sym r.first) n)

-- An implementation that agrees with the chosen signature behind the receiver, is an instance method of a
-- class, and has no effect beside these.
pub record Implements (signature : Function) (effects : ℕ) (f : Function) : Type 0 where
  pub agrees : Agree f signature
  pub method : FunctionKind.wire f.kind ≡ FunctionKind.wire FunctionKind.instance_method
  pub receiver : Receiver f
  pub within : Within f.effects effects

module _ (c : FunctionContext) where
  -- From the signature before a candidate to the one after it.
  next_step :
      (g a chosen : Function) (fs : List Function)
      → Agree a g
      → Upward c.index (if more_general c.index g a then a else g) chosen
      → Memᴰ chosen ((if more_general c.index g a then a else g) ∷ fs)
      → Agree g (if more_general c.index g a then a else g)
        × Upward c.index g chosen
        × Memᴰ chosen (g ∷ a ∷ fs)
  next_step g a chosen fs agree u m = elim (Bool-cases (more_general c.index g a)) [
    | inl z ↦
        let e = ap (λ t. if t then a else g) z in
        (
          subst (λ x. Agree g x) (sym e) (Agree-sym a g agree),
          up c.index g a chosen z (subst (λ x. Upward c.index x chosen) e u),
          Memᴰ.tail (subst (λ x. Memᴰ chosen (x ∷ fs)) e m),
        )
    | inr z ↦
        let e = ap (λ t. if t then a else g) z in
        (
          subst (λ x. Agree g x) (sym e) (Agree-refl g),
          subst (λ x. Upward c.index x chosen) e u,
          skip g a chosen fs (subst (λ x. Memᴰ chosen (x ∷ fs)) e m),
        )
  ]
    where
      skip :
          (g a chosen : Function) (fs : List Function)
          → Memᴰ chosen (g ∷ fs)
          → Memᴰ chosen (g ∷ a ∷ fs)
      skip g a chosen fs m = elim (Memᴰ.cases_cons m) [
        | inl e ↦ Memᴰ.head e
        | inr t ↦ Memᴰ.tail (Memᴰ.tail t)
      ]

  pub choose_sound :
      (fs : List Function) (g : Function) (effects : ℕ) (chosen : Function × ℕ)
      → choose_signature c.index g effects fs ≡ ok chosen
      → Agree g chosen.0
        × Within effects chosen.1
        × Upward c.index g chosen.0
        × Memᴰ chosen.0 (g ∷ fs)
        × ((f : Function) → Memᴰ f fs → Implements chosen.0 chosen.1 f)
  unfolding choose_signature Upward
  choose_sound [] g effects chosen h =
      let same_pair = ok_eq (g, effects) chosen h in
      subst
        (λ x.
          Agree g x.0
          × Within effects x.1
          × Upward c.index g x.0
          × Memᴰ x.0 (g ∷ [])
          × ((f : Function) → Memᴰ f [] → Implements x.0 x.1 f))
        same_pair
        (
          Agree-refl g,
          λ place. omega arith,
          λ s e. (s, e, itself s),
          Memᴰ.head refl,
          λ f m. absurd (Memᴰ.not-nil m),
        )
  choose_sound (a ∷ fs) g effects chosen h =
      let next : Function = if more_general c.index g a then a else g in
      let checks =
        then_ok (fail_if (not (compatible g a)) ErrorKind.invalid_reference)
          (choose_signature c.index next (bit_or effects a.effects) fs) chosen h in
      let fits : compatible g a ≡ true =
        ground (arith, fail_if_ok (not (compatible g a)) ErrorKind.invalid_reference checks.0) in
      let agree = compatible-Agree g a fits in
      let both = Within-bit_or effects a.effects in
      let rest = choose_sound fs next (bit_or effects a.effects) chosen checks.1 in
      let to_next = next_step g a chosen.0 fs agree rest.2 rest.3 in
      let to_chosen = Agree-trans g next chosen.0 to_next.0 rest.0 in
      (
        to_chosen,
        λ place. omega (arith, both.0 place, rest.1 place),
        to_next.1,
        to_next.2,
        λ f m. elim (Memᴰ.cases_cons m) [
          | inl z ↦
              subst (λ x. Implements chosen.0 chosen.1 x) (sym z)
                (record {
                  agrees = Agree-trans a g chosen.0 agree to_chosen;
                  method = compatible_kind g a fits;
                  receiver = compatible-Receiver g a fits;
                  within = λ place. omega (arith, both.1 place, rest.1 place);
                })
          | inr z ↦ rest.4 f z
        ],
      )

-- What a call of a slot with these implementations has passed: its signature is one of them, reached from
-- the first by steps to more general receivers; all agree with it; the operands, the receiver's included,
-- and the result have its types.
pub record SlotCall (c : FunctionContext) (i : Instruction) (fs : List Function) (effects : ℕ)
    : Type 0 where
  pub signature : Function
  pub all_effects : ℕ
  pub first : Function
  pub others : List Function
  pub implemented : fs ≡ first ∷ others
  pub chosen : choose_signature c.index first 0 fs ≡ ok (signature, all_effects)
  pub candidate : Memᴰ signature fs
  pub first_class : SymbolId
  pub signature_class : SymbolId
  pub first_receiver : receiver first ≡ some first_class
  pub signature_receiver : receiver signature ≡ some signature_class
  pub upward : Derives c.index first_class signature_class
  pub implementations : (f : Function) → Memᴰ f fs → Implements signature all_effects f
  pub receiver : Receiver signature
  pub received :
      operand_type c i (if signature.unsafe_call then 1 else 0) ≡ ok (Receiver.type receiver)
  pub typed :
      Typed c i
        (record {
          parameters = signature.parameter_types;
          result = signature.result_type;
          effects = all_effects;
        })
        signature.unsafe_call
  pub total : effects ≡ call_effects all_effects signature.unsafe_call

receiver_operand :
    (c : FunctionContext) (i : Instruction) (f : Function) (effects : ℕ)
    → Typed c i
        (record { parameters = f.parameter_types; result = f.result_type; effects = effects })
        f.unsafe_call
    → (r : Receiver f) → operand_type c i (if f.unsafe_call then 1 else 0) ≡ ok r.type
receiver_operand c i f effects t r =
    subst (λ n. operand_type c i n ≡ ok r.type) (omega arith)
      (t.operands 0 r.type (ap (λ ts. get_elem? ts 0) r.first))

slot_sound :
    (c : FunctionContext) (i : Instruction) (fs : List Function) (effects : ℕ)
    → call_of_slot c i fs ≡ ok effects
    → SlotCall c i fs effects
unfolding Upward
slot_sound c i [] effects h = absurd (ground (arith, h))
slot_sound c i (f ∷ fs) effects h =
    let (chosen, p, q) = bind_ok (choose_signature c.index f 0 (f ∷ fs)) _ effects h in
    let sound = choose_sound c (f ∷ fs) f 0 chosen p in
    let callee : Callee = record {
      parameters = Function.parameter_types chosen.0;
      result = Function.result_type chosen.0;
      effects = chosen.1;
    } in
    let both =
      then_ok (verify_signature c i callee f.unsafe_call) (ok (call_effects chosen.1 f.unsafe_call))
        effects q in
    let typed =
      subst (λ u. Typed c i callee u) (Agree.contract sound.0)
        (verify_signature-Typed c i callee f.unsafe_call both.0) in
    let candidate : Memᴰ chosen.0 (f ∷ fs) = elim (Memᴰ.cases_cons sound.3) [
      | inl e ↦ Memᴰ.head e
      | inr m ↦ m
    ] in
    let received : Receiver chosen.0 = Implements.receiver (sound.4 chosen.0 candidate) in
    let starting = receiver_class f (Implements.receiver (sound.4 f (Memᴰ.head refl))) in
    let (top, named, derives) = sound.2 starting.0 starting.1 in
    record {
      signature = chosen.0;
      all_effects = chosen.1;
      first = f;
      others = fs;
      implemented = refl;
      chosen = p;
      candidate = candidate;
      first_class = starting.0;
      signature_class = top;
      first_receiver = starting.1;
      signature_receiver = named;
      upward = derives;
      implementations = sound.4;
      receiver = received;
      received = receiver_operand c i chosen.0 chosen.1 typed received;
      typed = typed;
      total =
          subst (λ u. effects ≡ call_effects chosen.1 u) (Agree.contract sound.0)
            (sym (ok_eq (call_effects chosen.1 f.unsafe_call) effects both.1));
    }

-- An accepted virtual call names a method slot that has implementations. One of them
-- gives the signature: its receiver is the class of the first implementation or one of its bases, and the
-- operands, the receiver's included, and the result have exactly its types. Every implementation of the
-- slot is an instance method whose receiver is a class, with the same parameters behind the receiver, the
-- same result and the same safety contract, and its effects are among those that the call's are made of.
pub virtual_call_fits :
    (c : FunctionContext) (i : Instruction) (effects : ℕ)
    → verify_virtual_call c i ≡ ok effects
    → (slot : SymbolId) × (i.symbol ≡ some slot)
      × (SymbolKind.wire slot.kind ≡ SymbolKind.wire SymbolKind.method)
      × SlotCall c i (candidates slot c.index.functions) effects
unfolding verify_virtual_call
virtual_call_fits c i effects h =
    let (slot, p, q) = bind_ok (found i.symbol ErrorKind.invalid_reference) _ effects h in
    let wrong = not (SymbolKind.wire slot.kind == SymbolKind.wire SymbolKind.method) in
    let inside =
      then_ok (fail_if wrong ErrorKind.invalid_reference)
        (call_of_slot c i (candidates slot c.index.functions)) effects q in
    let fine = fail_if_ok wrong ErrorKind.invalid_reference inside.0 in
    (
      slot,
      found_ok i.symbol _ slot p,
      (==_iff (SymbolKind.wire slot.kind) (SymbolKind.wire SymbolKind.method)).0
          (ground (arith, fine)),
      slot_sound c i (candidates slot c.index.functions) effects inside.1,
    )
