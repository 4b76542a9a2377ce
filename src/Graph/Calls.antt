-- ===== src/Graph/Calls.antt =====
-- The operands of a call, crates/rsdag/src/graph/calls.rs and flow.rs: the arguments, or in a
-- context the arguments and the bound expressions in the callee's parameter order, and then the
-- symbols that the callee's body reads.
use rsdag.Prelude.{
  ℕ, ◌%◌, ◌/◌, ◌==◌, if◌then◌else◌, List, [], ◌∷◌, ◌++◌, get_elem?, Option, none, some, IsPrefix,
  Option-cases, inl, inr, arith, ◌≡◌,
}
use mathlib.Core.Option
use rsdag.Node.{ExprId, OutputId, ArgList}
use rsdag.Node.Operands.{window, window_prefix}
use rsdag.Field.{Field}
use rsdag.Graph.{Graph, Context, Function, no_context, bound}

-- One parameter's operand: `s & BOUND` tells a bound one, `s & !BOUND` is its place.
slot_operand : List ExprId → List ExprId → ℕ → Option ExprId
slot_operand args bounds s =
    if s / bound % 2 == 0 then get_elem? args s else get_elem? bounds (s % bound)

abbrev cons_some : Option ExprId → Option (List ExprId) → Option (List ExprId)
cons_some (some e) (some es) = some (e ∷ es)
cons_some _ _ = none

slot_operands : List ExprId → List ExprId → List ℕ → Option (List ExprId)
unfolding slot_operand
slot_operands args bounds [] = some []
slot_operands args bounds (s ∷ ss) =
    cons_some (slot_operand args bounds s) (slot_operands args bounds ss)

context_args : List ExprId → Option (List ExprId) → List ℕ → Option (List ExprId)
unfolding slot_operands
context_args args none slots = none
context_args args (some bounds) slots = slot_operands args bounds slots

context_operands : List ExprId → List ExprId → Option Context → Option (List ExprId)
unfolding context_args
context_operands pool args none = none
context_operands pool args (some c) = context_args args (window pool c.exprs) c.slots

-- Over the pool and the contexts, so that it says what of a graph it reads.
unfoldable pub full_args_in :
    List ExprId → List Context → ℕ → Option (List ExprId) → Option (List ExprId)
unfolding context_operands
full_args_in pool contexts ctx none = none
full_args_in pool contexts ctx (some args) =
    if ctx == no_context then some args else context_operands pool args (get_elem? contexts ctx)

unfoldable pub full_args_at :
    List ExprId → List Context → Option ℕ → Option (List ExprId) → Option (List ExprId)
unfolding full_args_in
full_args_at pool contexts none args = none
full_args_at pool contexts (some ctx) args = full_args_in pool contexts ctx args

unfoldable pub globals_at : List Function → Option (ℕ × ℕ) → Option (List ExprId)
globals_at funcs none = none
globals_at funcs (some (f, k)) = Option.map (λ (fn : Function). fn.globals) (get_elem? funcs f)

abbrev pub chain : Option (List ExprId) → Option (List ExprId) → Option (List ExprId)
chain (some es) (some gs) = some (es ++ gs)
chain _ _ = none

module _ {K : Field} where
  -- `self.full_args(o, l)`
  unfoldable pub full_args : Graph K → OutputId → ArgList → Option (List ExprId)
  unfolding full_args_at
  full_args g o l =
      full_args_at g.arg_pool g.contexts (get_elem? g.output_ctx o) (window g.arg_pool l)

  -- `ctx.globals(ctx.output(o).0)`
  unfoldable pub globals_of_output : Graph K → OutputId → Option (List ExprId)
  unfolding globals_at
  globals_of_output g o = globals_at g.funcs (get_elem? g.outputs o)

  -- `full.iter().chain(&globals[..])`
  unfoldable pub call_operands : Graph K → OutputId → ArgList → Option (List ExprId)
  unfolding full_args globals_of_output
  call_operands g o l = chain (full_args g o l) (globals_of_output g o)

module _ {p q : List ExprId} (x : IsPrefix p q) where
  context_operands_prefix :
      (args : List ExprId) (c : Option Context) (es : List ExprId)
      → context_operands p args c ≡ some es
      → context_operands q args c ≡ some es
  unfolding context_operands
  context_operands_prefix args none es h = cc
  context_operands_prefix args (some c) es h = elim (Option-cases (window p c.exprs)) [
    | inl e ↦ cc (rw e at h)
    | inr (bs, e) ↦ rw (window_prefix x c.exprs e) (rw e at h)
  ]

  full_args_in_prefix :
      (contexts : List Context) (ctx : ℕ) (l : ArgList) (es : List ExprId)
      → full_args_in p contexts ctx (window p l) ≡ some es
      → full_args_in q contexts ctx (window q l) ≡ some es
  unfolding full_args_in
  full_args_in_prefix contexts ctx l es h = elim (Option-cases (window p l)) [
    | inl e ↦ cc (rw (e, full_args_in) at h)
    | inr (args, e) ↦
        let h' : full_args_in p contexts ctx (some args) ≡ some es = rw e at h in
        rw (window_prefix x l e)
          (ground (arith, h', context_operands_prefix args (get_elem? contexts ctx) es))
  ]

  full_args_at_prefix :
      (contexts : List Context) (ctx : Option ℕ) (l : ArgList) (es : List ExprId)
      → full_args_at p contexts ctx (window p l) ≡ some es
      → full_args_at q contexts ctx (window q l) ≡ some es
  unfolding full_args_at
  full_args_at_prefix contexts none l es h = cc
  full_args_at_prefix contexts (some ctx) l es h = full_args_in_prefix contexts ctx l es h

  chain_prefix :
      (contexts : List Context) (ctx : Option ℕ) (l : ArgList) (gs : Option (List ExprId))
      (es : List ExprId)
      → chain (full_args_at p contexts ctx (window p l)) gs ≡ some es
      → chain (full_args_at q contexts ctx (window q l)) gs ≡ some es
  chain_prefix contexts ctx l gs es h =
      elim (Option-cases (full_args_at p contexts ctx (window p l))) [
        | inl f ↦ cc (rw f at h)
        | inr (args, f) ↦ rw (full_args_at_prefix contexts ctx l args f) (rw f at h)
      ]

module _ {K : Field} where
  -- A call reads the same operands while the pool grows.
  pub call_operands_prefix :
      (g g' : Graph K)
      → IsPrefix g.arg_pool g'.arg_pool
      → g'.contexts ≡ g.contexts
      → g'.output_ctx ≡ g.output_ctx
      → g'.outputs ≡ g.outputs
      → g'.funcs ≡ g.funcs
      → (o : OutputId) (l : ArgList) {es : List ExprId} → call_operands g o l ≡ some es
      → call_operands g' o l ≡ some es
  unfolding call_operands
  call_operands_prefix g g' x pc po pt pf o l {es} h =
      rw (pc, po, pt, pf)
        (chain_prefix x g.contexts (get_elem? g.output_ctx o) l
          (globals_at g.funcs (get_elem? g.outputs o)) es h)
