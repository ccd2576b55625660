-- ===== src/Verifier/Body/Extends.antt =====
-- What the visit of a function's blocks in native/codegen/ir_verifier.cpp only adds to: uses, edges and
-- effects.
use mathlib.Core.List.{Memᴰ}
use mathlib.Core.List.Memᴰ
use neri.Prelude.{
  ℕ, ◌≡◌, refl, ◌∙◌, subst, List, [], ◌∷◌, ◌++◌, true, not, ◌==◌, ==_iff, if◌then◌else◌, length,
  map_find, map_find-set, member, member-append, arith, Bool-cases, Option-cases, inl, inr,
}
use neri.Ir.Model.{Block, BlockParameter, Edge, Function}
use neri.Transport.Reader.{ErrorKind, ok}
use neri.Verifier.Check.{◌>>=◌, ◌>>◌, fail_if, found, bind_ok, then_ok, fail_if_ok, ok_eq}
use neri.Verifier.Context.{UseSite, FunctionContext, definition_type}
use neri.Verifier.Effect.{Within}
use neri.Verifier.Body.Blocks.{
  register_use, push, edge_arguments, verify_edge, edge_to, add_edge, use_operands,
}
use neri.Verifier.Body.Whole.{neighbours}

abbrev pub use_of : (value block instruction : ℕ) → UseSite
use_of value block instruction = record { value = value; block = block; instruction = instruction }

pub neighbours-push :
    (k v b : ℕ) (m : List (ℕ × List ℕ))
    → neighbours (push k v m) b ≡ (if k == b then neighbours m b ++ (v ∷ []) else neighbours m b)
unfolding push
neighbours-push k v b m = elim (Option-cases (map_find k m)) [
  | inl e ↦ ground (arith, e, map_find-set b k (v ∷ []) m, ==_iff k b)
  | inr (s, e) ↦ ground (arith, e, map_find-set b k (s ++ (v ∷ [])) m, ==_iff k b)
]

module _ (all : List ℕ) where
  -- A predecessor is a block.
  abbrev pub Closed : FunctionContext → Type 0
  Closed c = (b p : ℕ) → member p (neighbours c.predecessors b) ≡ true → member p all ≡ true

  pub record Extends (c d : FunctionContext) : Type 0 where
    pub index_same : d.index ≡ c.index
    pub function_same : d.function ≡ c.function
    pub definitions_same : d.definitions ≡ c.definitions
    pub blocks_same : d.blocks ≡ c.blocks
    pub uses_kept : (u : UseSite) → Memᴰ u c.uses → Memᴰ u d.uses
    pub edges_kept :
        (b p : ℕ)
        → member p (neighbours c.predecessors b) ≡ true
        → member p (neighbours d.predecessors b) ≡ true
    pub effects_kept : Within c.required_effects d.required_effects
    pub closed_kept : Closed c → Closed d

  pub Extends-refl : (c : FunctionContext) → Extends c c
  Extends-refl c = record {
    index_same = refl;
    function_same = refl;
    definitions_same = refl;
    blocks_same = refl;
    uses_kept = λ u m. m;
    edges_kept = λ b p m. m;
    effects_kept = λ place. omega arith;
    closed_kept = λ h. h;
  }

  pub Extends-trans : (c d e : FunctionContext) → Extends c d → Extends d e → Extends c e
  Extends-trans c d e x y = record {
    index_same = y.index_same ∙ x.index_same;
    function_same = y.function_same ∙ x.function_same;
    definitions_same = y.definitions_same ∙ x.definitions_same;
    blocks_same = y.blocks_same ∙ x.blocks_same;
    uses_kept = λ u m. y.uses_kept u (x.uses_kept u m);
    edges_kept = λ b p m. y.edges_kept b p (x.edges_kept b p m);
    effects_kept = λ place. omega (arith, x.effects_kept place, y.effects_kept place);
    closed_kept = λ h. y.closed_kept (x.closed_kept h);
  }

  pub register_use-Extends :
      (c d : FunctionContext) (value block instruction : ℕ)
      → register_use c value block instruction ≡ ok d
      → Extends c d × Memᴰ (use_of value block instruction) d.uses
  unfolding register_use
  register_use-Extends c d value block instruction e =
      let added : FunctionContext = record c {
        uses = c.uses ++ (use_of value block instruction ∷ []);
      } in
      let parts = then_ok _ (ok added) d e in
      subst (λ x. Extends c x × Memᴰ (use_of value block instruction) x.uses)
        (ok_eq added d parts.1)
        (
          record {
            index_same = refl;
            function_same = refl;
            definitions_same = refl;
            blocks_same = refl;
            uses_kept = λ u m. Memᴰ.append_left (use_of value block instruction ∷ []) m;
            edges_kept = λ b p m. m;
            effects_kept = λ place. omega arith;
            closed_kept = λ h. h;
          },
          Memᴰ.append_right c.uses (Memᴰ.head refl),
        )

  pub use_operands-Extends :
      (c d : FunctionContext) (block index : ℕ) (vs : List ℕ)
      → use_operands c block index vs ≡ ok d
      → Extends c d × ((v : ℕ) → member v vs ≡ true → Memᴰ (use_of v block index) d.uses)
  use_operands-Extends c d block index [] e =
      subst (λ x. Extends c x × ((v : ℕ) → member v [] ≡ true → Memᴰ (use_of v block index) x.uses))
        (ok_eq c d e) (Extends-refl c, λ v m. absurd (ground (arith, m)))
  use_operands-Extends c d block index (w ∷ ws) e =
      let (x, p, q) =
        bind_ok (register_use c w block index) (λ y. use_operands y block index ws) d e in
      let here = register_use-Extends c x w block index p in
      let rest = use_operands-Extends x d block index ws q in
      (
        Extends-trans c x d here.0 rest.0,
        λ v m. elim (Bool-cases (w == v)) [
          | inl z ↦
              subst (λ n. Memᴰ (use_of n block index) d.uses) ((==_iff w v).0 z)
                (Extends.uses_kept rest.0 (use_of w block index) here.1)
          | inr z ↦ rest.1 v (ground (arith, m, z))
        ],
      )

  pub edge_arguments-Extends :
      (c d : FunctionContext) (source instruction : ℕ) (vs : List ℕ) (ps : List BlockParameter)
      → length vs ≡ length ps
      → edge_arguments c source instruction vs ps ≡ ok d
      → Extends c d × ((v : ℕ) → member v vs ≡ true → Memᴰ (use_of v source instruction) d.uses)
  edge_arguments-Extends c d source instruction [] ps l e =
      subst
        (λ x.
          Extends c x × ((v : ℕ) → member v [] ≡ true → Memᴰ (use_of v source instruction) x.uses))
        (ok_eq c d e) (Extends-refl c, λ v m. absurd (ground (arith, m)))
  edge_arguments-Extends c d source instruction (w ∷ ws) [] l e = absurd (omega (arith, l))
  edge_arguments-Extends c d source instruction (w ∷ ws) (p ∷ ps) l e =
      let (x, q, r) = bind_ok (register_use c w source instruction) _ d e in
      let (t, s, u) = bind_ok (definition_type x w) _ d r in
      let tail = then_ok _ (edge_arguments x source instruction ws ps) d u in
      let here = register_use-Extends c x w source instruction q in
      let rest = edge_arguments-Extends x d source instruction ws ps (omega (arith, l)) tail.1 in
      (
        Extends-trans c x d here.0 rest.0,
        λ v m. elim (Bool-cases (w == v)) [
          | inl z ↦
              subst (λ n. Memᴰ (use_of n source instruction) d.uses) ((==_iff w v).0 z)
                (Extends.uses_kept rest.0 (use_of w source instruction) here.1)
          | inr z ↦ rest.1 v (ground (arith, m, z))
        ],
      )

  -- What the context has of an edge: the predecessor and the uses of the arguments.
  abbrev pub RecordedEdge : FunctionContext → (source instruction : ℕ) → Edge → Type 0
  RecordedEdge d source instruction e =
      (member source (neighbours d.predecessors e.target) ≡ true)
      × ((v : ℕ) → member v e.arguments ≡ true → Memᴰ (use_of v source instruction) d.uses)

  pub verify_edge-Extends :
      (c d : FunctionContext) (source : ℕ) (e : Edge) (instruction : ℕ)
      → member source all ≡ true
      → verify_edge c source e instruction ≡ ok d
      → Extends c d × RecordedEdge d source instruction e
  unfolding verify_edge edge_to add_edge
  verify_edge-Extends c d source e instruction k h =
      let (target, p, q) =
        bind_ok (found (map_find e.target c.blocks) ErrorKind.invalid_control_flow)
          (λ t. edge_to c source e instruction t) d h in
      let ps = Block.parameters target in
      let checks =
        then_ok
          (fail_if (e.target == Function.entry_block c.function) ErrorKind.unsupported_feature
            >> fail_if (not (length e.arguments == length ps)) ErrorKind.invalid_control_flow)
          (edge_arguments c source instruction e.arguments ps >>= λ x.
            ok (add_edge source e.target x))
          d q in
      let count =
        then_ok
          (fail_if (e.target == Function.entry_block c.function) ErrorKind.unsupported_feature)
          (fail_if (not (length e.arguments == length ps)) ErrorKind.invalid_control_flow) tt
          checks.0 in
      let (x, r, s) =
        bind_ok (edge_arguments c source instruction e.arguments ps)
          (λ x. ok (add_edge source e.target x)) d checks.1 in
      let arguments =
        edge_arguments-Extends c x source instruction e.arguments ps
          ((==_iff (length e.arguments) (length ps)).0 (
            ground (
              arith,
              fail_if_ok (not (length e.arguments == length ps)) ErrorKind.invalid_control_flow
                  count.1,
            )))
          r in
      let y : FunctionContext = add_edge source e.target x in
      let grown : Extends x y = record {
        index_same = refl;
        function_same = refl;
        definitions_same = refl;
        blocks_same = refl;
        uses_kept = λ u m. m;
        edges_kept = λ b p m. ground (
          arith,
          m,
          neighbours-push e.target source b x.predecessors,
          member-append p (neighbours x.predecessors b) (source ∷ []),
        );
        effects_kept = λ place. omega arith;
        closed_kept = λ f b p m. elim (Bool-cases (member p (neighbours x.predecessors b))) [
          | inl z ↦ f b p z
          | inr z ↦ ground (
            arith,
            m,
            z,
            k,
            ==_iff source p,
            neighbours-push e.target source b x.predecessors,
            member-append p (neighbours x.predecessors b) (source ∷ []),
          )
        ];
      } in
      subst (λ z. Extends c z × RecordedEdge z source instruction e) (ok_eq y d s)
        (
          Extends-trans c x y arguments.0 grown,
          (
            ground (
              arith,
              neighbours-push e.target source e.target x.predecessors,
              member-append source (neighbours x.predecessors e.target) (source ∷ []),
              (==_iff e.target e.target).1 refl,
              (==_iff source source).1 refl,
            ),
            arguments.1,
          ),
        )
