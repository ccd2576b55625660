-- ===== src/Verifier/Body/Registered.antt =====
-- What `register_definitions` of native/codegen/ir_verifier.cpp records: each value of the function
-- once, with its block and instruction.
use mathlib.Core.List.{Memᴰ}
use neri.Prelude.{
  ℕ, suc, ◌+◌, ◌≡◌, refl, ap, ◌∙◌, subst, List, [], ◌∷◌, none, some, not, ◌==◌, ==_iff, get_elem?,
  map_find, map_set, map_find-set, some_eq, arith, Bool-cases, Option-cases, inl, inr,
}
use neri.Ir.Model.{Block, BlockParameter, Function, IrModule, Instruction, ValueDefinition}
use neri.Transport.Reader.{ErrorKind, ok}
use neri.Verifier.Check.{◌>>=◌, ◌>>◌, fail_if, bind_ok, then_ok, ok_eq}
use neri.Verifier.Types.{is_unsafe_capability}
use neri.Verifier.Lookup.{verify_location}
use neri.Verifier.Context.{Definition, has_value, require_value_type}
use neri.Verifier.Body.Blocks.{
  Definitions, define, define_root, define_parameters, define_results, define_instructions,
  define_blocks, register_definitions,
}

-- Where a function defines a value: its unsafe root, the parameter of a block, or a result.
pub data Defines (f : Function) (value : ℕ) : Definition → Type 0 where
  root :
      (r : ValueDefinition)
      → f.unsafe_root ≡ some r
      → r.id ≡ value
      → Defines f value
          (record { value_type = r.value_type; block = f.entry_block; instruction = none })
  parameter :
      (b : Block) (p : BlockParameter)
      → Memᴰ b f.blocks
      → Memᴰ p b.parameters
      → p.id ≡ value
      → Defines f value (record { value_type = p.value_type; block = b.id; instruction = none })
  result :
      (b : Block) (k : ℕ) (i : Instruction) (r : ValueDefinition)
      → Memᴰ b f.blocks
      → get_elem? b.instructions k ≡ some i
      → Memᴰ r i.results
      → r.id ≡ value
      → Defines f value (record { value_type = r.value_type; block = b.id; instruction = some k })

module _ (m : IrModule) (f : Function) where
  -- Every entry is a definition of the function.
  abbrev Sound : Definitions → Type 0
  Sound ds = (value : ℕ) (d : Definition) → map_find value ds ≡ some d → Defines f value d

  define-Sound :
      (code : ErrorKind) (id : ℕ) (d : Definition) (ds es : Definitions)
      → define code id d ds ≡ ok es
      → Defines f id d
      → Sound ds
      → Sound es
  unfolding define
  define-Sound code id d ds es e new old value x h =
      let checks =
        then_ok (fail_if (has_value (map_find id ds)) code) (ok (map_set id d ds)) es e in
      let found : map_find value (map_set id d ds) ≡ some x =
        ap (λ y. map_find value y) (ok_eq (map_set id d ds) es checks.1) ∙ h in
      elim (Bool-cases (id == value)) [
        | inl z ↦
            let same = some_eq d x (ground (arith, z, found, map_find-set value id d ds)) in
            subst (λ y. Defines f value y) same
              (subst (λ n. Defines f n d) ((==_iff id value).0 z) new)
        | inr z ↦ old value x (ground (arith, z, found, map_find-set value id d ds))
      ]

  root-Sound : (es : Definitions) → define_root f [] ≡ ok es → Sound es
  unfolding define_root
  root-Sound es e = elim (Option-cases f.unsafe_root) [
    | inl q ↦
        let same : ok [] ≡ ok es = ground (arith, e, q) in
        subst (λ x. Sound x) (ok_eq [] es same) (λ value d h. absurd (ground (arith, h)))
    | inr (r, q) ↦
        let d : Definition = record {
          value_type = r.value_type;
          block = f.entry_block;
          instruction = none;
        } in
        let inside : (fail_if (not (is_unsafe_capability r.value_type)) ErrorKind.invalid_safety
              >> define ErrorKind.invalid_safety r.id d [])
            ≡ ok es =
          ground (arith, e, q) in
        let checks =
          then_ok (fail_if (not (is_unsafe_capability r.value_type)) ErrorKind.invalid_safety)
            (define ErrorKind.invalid_safety r.id d []) es inside in
        define-Sound ErrorKind.invalid_safety r.id d [] es checks.1 (Defines.root r q refl)
          (λ value x h. absurd (ground (arith, h)))
  ]

  module _ (b : Block) (k : Memᴰ b f.blocks) where
    parameters-Sound :
        (ps : List BlockParameter) (ds es : Definitions)
        → ((p : BlockParameter) → Memᴰ p ps → Memᴰ p b.parameters)
        → define_parameters m b.id ps ds ≡ ok es
        → Sound ds
        → Sound es
    parameters-Sound [] ds es w e s = subst (λ x. Sound x) (ok_eq ds es e) s
    parameters-Sound (p ∷ ps) ds es w e s =
        let d : Definition = record {
          value_type = p.value_type;
          block = b.id;
          instruction = none;
        } in
        let checks =
          then_ok (require_value_type p.value_type >> verify_location m p.location)
            (define ErrorKind.invalid_ssa p.id d ds >>= λ xs. define_parameters m b.id ps xs) es
            e in
        let (xs, q, r) = bind_ok (define ErrorKind.invalid_ssa p.id d ds) _ es checks.1 in
        parameters-Sound ps xs es (λ x h. w x (Memᴰ.tail h)) r
          (define-Sound ErrorKind.invalid_ssa p.id d ds xs q
            (Defines.parameter b p k (w p (Memᴰ.head refl)) refl) s)

    results-Sound :
        (index : ℕ) (i : Instruction) (rs : List ValueDefinition) (ds es : Definitions)
        → get_elem? b.instructions index ≡ some i
        → ((r : ValueDefinition) → Memᴰ r rs → Memᴰ r i.results)
        → define_results m b.id index rs ds ≡ ok es
        → Sound ds
        → Sound es
    results-Sound index i [] ds es g w e s = subst (λ x. Sound x) (ok_eq ds es e) s
    results-Sound index i (r ∷ rs) ds es g w e s =
        let d : Definition = record {
          value_type = r.value_type;
          block = b.id;
          instruction = some index;
        } in
        let checks =
          then_ok (require_value_type r.value_type)
            (define ErrorKind.invalid_ssa r.id d ds >>= λ xs. define_results m b.id index rs xs) es
            e in
        let (xs, q, t) = bind_ok (define ErrorKind.invalid_ssa r.id d ds) _ es checks.1 in
        results-Sound index i rs xs es g (λ x h. w x (Memᴰ.tail h)) t
          (define-Sound ErrorKind.invalid_ssa r.id d ds xs q
            (Defines.result b index i r k g (w r (Memᴰ.head refl)) refl) s)

    instructions-Sound :
        (index : ℕ) (is : List Instruction) (ds es : Definitions)
        → ((j : ℕ) (i : Instruction)
            → get_elem? is j ≡ some i
            → get_elem? b.instructions (index + j) ≡ some i)
        → define_instructions m b.id index is ds ≡ ok es
        → Sound ds
        → Sound es
    instructions-Sound index [] ds es w e s = subst (λ x. Sound x) (ok_eq ds es e) s
    instructions-Sound index (i ∷ is) ds es w e s =
        let checks =
          then_ok (verify_location m i.location)
            (define_results m b.id index i.results ds >>= λ xs.
              define_instructions m b.id (index + 1) is xs)
            es e in
        let (xs, q, r) = bind_ok (define_results m b.id index i.results ds) _ es checks.1 in
        let here : get_elem? b.instructions index ≡ some i =
          subst (λ n. get_elem? b.instructions n ≡ some i) (omega arith) (w 0 i refl) in
        instructions-Sound (index + 1) is xs es
          (λ j x h. subst (λ n. get_elem? b.instructions n ≡ some x) (omega arith) (w (suc j) x h))
          r (results-Sound index i i.results ds xs here (λ x h. h) q s)

  blocks-Sound :
      (bs : List Block) (ds es : Definitions)
      → ((b : Block) → Memᴰ b bs → Memᴰ b f.blocks)
      → define_blocks m bs ds ≡ ok es
      → Sound ds
      → Sound es
  blocks-Sound [] ds es w e s = subst (λ x. Sound x) (ok_eq ds es e) s
  blocks-Sound (b ∷ bs) ds es w e s =
      let k = w b (Memᴰ.head refl) in
      let (xs, p, q) = bind_ok (define_parameters m b.id b.parameters ds) _ es e in
      let (ys, r, t) = bind_ok (define_instructions m b.id 0 b.instructions xs) _ es q in
      blocks-Sound bs ys es (λ x h. w x (Memᴰ.tail h)) t
        (instructions-Sound b k 0 b.instructions xs ys
          (λ j i h. subst (λ n. get_elem? b.instructions n ≡ some i) (omega arith) h) r
          (parameters-Sound b k b.parameters ds xs (λ x h. h) p s))

-- Every entry of the definitions is where the function defines the value: the unsafe root, a block
-- parameter, or a result of the instruction that the entry names, in the block that it names, and with
-- its type.
pub registered_sound :
    (m : IrModule) (f : Function) (ds : Definitions)
    → register_definitions m f ≡ ok ds
    → (value : ℕ) (d : Definition) → map_find value ds ≡ some d
    → Defines f value d
unfolding register_definitions
registered_sound m f ds e =
    let (xs, p, q) = bind_ok (define_root f []) (λ x. define_blocks m f.blocks x) ds e in
    blocks-Sound m f f.blocks xs ds (λ b h. h) q (root-Sound m f xs p)
