-- ===== src/Graph/Elementary/Unary.antt =====
-- `Graph::unary` of crates/rsdag/src/graph/mod.rs against the function of its operand's value.
use mathlib.Core.Option
use rsdag.Prelude.{
  ℕ, zero, suc, ◌+◌, ◌≤◌, ◌<◌, ◌≡◌, ◌==◌, refl, sym, ◌∙◌, ap, Bool, true, false, Option, none, some,
  arith, Bool-cases, inl, inr, State,
}
use rsdag.Node.{ExprId, Node, UnaryOp}
use rsdag.Field.{Field}
use rsdag.Semantics.{Scalar}
use rsdag.Graph.{Graph}
use rsdag.Graph.Valid.{IsWf, Has, At, IsConst, Builds-imp, Builds-run, size, capacity}
use rsdag.Graph.Meaning.{Closures, IsValuation, node_value}
use rsdag.Graph.Denotes.{IsExact, embed, Denotes-imp, IsValuation-ext}
use rsdag.Graph.Build.Base.{
  Makes, kept, const_of_reads, node_total, node_as, konst_as, const_value, is_zero_id, is_one_id,
  zero-Denotes, one-Denotes,
}
use rsdag.Graph.Build.Correct.{
  Succeeds, Makes-Succeeds, Makes-value, unit_scalar, unit_closures, unit_exact, unit_same,
}
use rsdag.Graph.Elementary.{
  unary, unary_at, unary_const, unary_node, abs_node, folded_operand, unary_fold, unary_tail,
  unary_as, unary_identity,
}

-- What the constructor relies on of the scalar's functions, and of the reference functions that it
-- folds constants through.
pub record UnaryLaws {K : Field} (T : Scalar K) : Type 0 where
  pub exp_zero : T.unary UnaryOp.exp T.zero ≡ T.one
  pub ln_one : T.unary UnaryOp.ln T.one ≡ T.zero
  pub sin_zero : T.unary UnaryOp.sin T.zero ≡ T.zero
  pub cos_zero : T.unary UnaryOp.cos T.zero ≡ T.one
  pub sinh_zero : T.unary UnaryOp.sinh T.zero ≡ T.zero
  pub cosh_zero : T.unary UnaryOp.cosh T.zero ≡ T.one
  pub tanh_zero : T.unary UnaryOp.tanh T.zero ≡ T.zero
  pub sqrt_zero : T.unary UnaryOp.sqrt T.zero ≡ T.zero
  pub sqrt_one : T.unary UnaryOp.sqrt T.one ≡ T.one
  pub abs_abs : (x : T.Val) → T.unary UnaryOp.abs (T.unary UnaryOp.abs x) ≡ T.unary UnaryOp.abs x
  pub abs_sqrt : (x : T.Val) → T.unary UnaryOp.abs (T.unary UnaryOp.sqrt x) ≡ T.unary UnaryOp.sqrt x
  pub abs_neg : (x : T.Val) → T.unary UnaryOp.abs (T.neg x) ≡ T.unary UnaryOp.abs x
  pub folds :
      (op : UnaryOp) (r v : K.Const)
      → unary_fold K op r ≡ some v
      → embed T v ≡ T.unary op (embed T r)

module _ {K : Field} (T : Scalar K) (cl : Closures T) (ex : IsExact T) (laws : UnaryLaws T) where
  abbrev unit_value : Bool → T.Val
  unit_value true = T.one
  unit_value false = T.zero

  identity_value :
      (op : UnaryOp) (z o b : Bool) (x : T.Val)
      → unary_identity op z o ≡ some b
      → (z ≡ true → x ≡ T.zero)
      → (o ≡ true → x ≡ T.one)
      → unit_value b ≡ T.unary op x
  unfolding unary_identity
  identity_value UnaryOp.exp true o true x h hz ho = rw (hz refl) (sym laws.exp_zero)
  identity_value UnaryOp.ln z true false x h hz ho = rw (ho refl) (sym laws.ln_one)
  identity_value UnaryOp.sin true o false x h hz ho = rw (hz refl) (sym laws.sin_zero)
  identity_value UnaryOp.cos true o true x h hz ho = rw (hz refl) (sym laws.cos_zero)
  identity_value UnaryOp.sinh true o false x h hz ho = rw (hz refl) (sym laws.sinh_zero)
  identity_value UnaryOp.cosh true o true x h hz ho = rw (hz refl) (sym laws.cosh_zero)
  identity_value UnaryOp.tanh true o false x h hz ho = rw (hz refl) (sym laws.tanh_zero)
  identity_value UnaryOp.sqrt true o false x h hz ho = rw (hz refl) (sym laws.sqrt_zero)
  identity_value UnaryOp.sqrt false true true x h hz ho = rw (ho refl) (sym laws.sqrt_one)
  identity_value _ _ _ _ x h hz ho = cc

  module _ (g : Graph K) (w : IsWf g) where
    abbrev at_value : UnaryOp → ExprId → (ExprId → T.Val) → T.Val
    at_value op a get = T.unary op (get a)

    unary_as-Makes :
        (o : Option Bool) (op : UnaryOp) (a : ExprId)
        → Has g a
        → ((b : Bool) (get : ExprId → T.Val)
            → o ≡ some b
            → IsValuation T cl g get
            → unit_value b ≡ T.unary op (get a))
        → Makes T cl ex 2 (unary_as o op a) g (at_value op a)
    unfolding unary_as node_value
    unary_as-Makes (some true) op a ha f =
        kept T cl ex g w 2 _ g.one _ (one-Denotes T cl ex g w).has refl
          λ get v. (one-Denotes T cl ex g w).value get v ∙ f true get refl v
    unary_as-Makes (some false) op a ha f =
        kept T cl ex g w 2 _ g.zero _ (zero-Denotes T cl ex g w).has refl
          λ get v. (zero-Denotes T cl ex g w).value get v ∙ f false get refl v
    unary_as-Makes none op a ha f =
        node_as T cl ex g w (Node.unary op a) (at_value op a) ha tt (λ g' get. refl)

    unary_tail-Makes :
        (op : UnaryOp) (a : ExprId) → Has g a → Makes T cl ex 2 (unary_tail op a) g (at_value op a)
    unfolding unary_tail
    unary_tail-Makes op a ha = Builds-run refl (
        unary_as-Makes (unary_identity op (a == g.zero) (a == g.one)) op a ha λ b get h v.
          identity_value op (a == g.zero) (a == g.one) b (get a) h
            (λ p. is_zero_id T cl ex g w a p get v) (λ p. is_one_id T cl ex g w a p get v))

    node_is :
        (a : ExprId) (n : Node) {x : T.Val} (get : ExprId → T.Val)
        → At g a n
        → IsValuation T cl g get
        → node_value T cl g get n ≡ some x
        → get a ≡ x
    node_is a n get at v h = some_inj (sym (v.solves a n at) ∙ h)
      where
        some_inj : {x y : T.Val} → some x ≡ some y → x ≡ y
        some_inj p = cc

    abs_node-Makes :
        (again : ExprId → State (Graph K) ExprId) (n : Node) (a : ExprId)
        → Has g a
        → At g a n
        → ((b : ExprId) → b < a → Has g b → Makes T cl ex 2 (again b) g (at_value UnaryOp.abs b))
        → Makes T cl ex 2 (abs_node again n a) g (at_value UnaryOp.abs a)
    unfolding abs_node node_value
    abs_node-Makes again (Node.unary UnaryOp.abs b) a ha at rec =
        kept T cl ex g w 2 _ a _ ha refl λ get v.
          let is = node_is a (Node.unary UnaryOp.abs b) get at v refl in
          is ∙ sym (ap (T.unary UnaryOp.abs) is ∙ laws.abs_abs (get b))
    abs_node-Makes again (Node.unary UnaryOp.sqrt b) a ha at rec =
        kept T cl ex g w 2 _ a _ ha refl λ get v.
          let is = node_is a (Node.unary UnaryOp.sqrt b) get at v refl in
          is ∙ sym (ap (T.unary UnaryOp.abs) is ∙ laws.abs_sqrt (get b))
    abs_node-Makes again (Node.neg b) a ha at rec =
        let lt : b < a = w.ordered a (Node.neg b) at in
        Builds-run refl (
          Builds-imp (rec b lt (omega (arith, ha))) λ e g' gr d. Denotes-imp T cl g' d λ get v.
            sym (
              ap (T.unary UnaryOp.abs)
                (node_is a (Node.neg b) get at (IsValuation-ext T cl w gr.ext v) refl)
              ∙ laws.abs_neg (get b)))
    abs_node-Makes again _ a ha at rec = unary_tail-Makes UnaryOp.abs a ha

    unary_node-Makes :
        (again : ExprId → State (Graph K) ExprId) (op : UnaryOp) (a : ExprId)
        → Has g a
        → ((b : ExprId) → b < a → Has g b → Makes T cl ex 2 (again b) g (at_value UnaryOp.abs b))
        → Makes T cl ex 2 (unary_node again op a) g (at_value op a)
    unfolding unary_node
    unary_node-Makes again UnaryOp.abs a ha rec =
        let (n, at, run) = node_total g a ha in
        Builds-run (rw run refl) (abs_node-Makes again n a ha at rec)
    unary_node-Makes again op a ha rec = unary_tail-Makes op a ha

    unary_const-Makes :
        (again : ExprId → State (Graph K) ExprId) (op : UnaryOp) (c : Option K.Const) (a : ExprId)
        → Has g a
        → ((v : K.Const) (get : ExprId → T.Val)
            → c ≡ some v
            → IsValuation T cl g get
            → embed T v ≡ T.unary op (get a))
        → ((b : ExprId) → b < a → Has g b → Makes T cl ex 2 (again b) g (at_value UnaryOp.abs b))
        → Makes T cl ex 2 (unary_const again op c a) g (at_value op a)
    unfolding unary_const
    unary_const-Makes again op (some v) a ha f rec =
        konst_as T cl ex g w v (at_value op a) (λ get val. f v get refl val)
    unary_const-Makes again op none a ha f rec = unary_node-Makes again op a ha rec

    -- What is folded of an operand is a constant with the function's value.
    fold_means :
        (op : UnaryOp) (a : ExprId) (c : Option K.Const)
        → ((r : K.Const) → c ≡ some r → IsConst g a r)
        → (v : K.Const) (get : ExprId → T.Val) → Option.bind c (unary_fold K op) ≡ some v
        → IsValuation T cl g get
        → embed T v ≡ T.unary op (get a)
    unfolding Option.bind
    fold_means op a none h v get p val = cc
    fold_means op a (some r) h v get p val =
        laws.folds op r v p ∙ ap (T.unary op) (sym (const_value T cl ex g w (h r refl) get val))

    unary_at-Makes :
        (n : ℕ) (op : UnaryOp) (a : ExprId)
        → a < n
        → Has g a
        → Makes T cl ex 2 (unary_at n op a) g (at_value op a)
    unfolding unary_at folded_operand
    unary_at-Makes zero op a lt ha = elim lt [ ]
    unary_at-Makes (suc n) op a lt ha = elim (Bool-cases K.is_exact) [
      | inl p ↦ Builds-run (rw p refl) (
          unary_const-Makes (unary_at n UnaryOp.abs) op none a ha (λ v get q val. cc)
            (λ b below hb. unary_at-Makes n UnaryOp.abs b (omega arith) hb))
      | inr p ↦
          let c = const_of_reads g a w ha in
          Builds-run (rw (p, c.run) refl) (
            unary_const-Makes (unary_at n UnaryOp.abs) op (Option.bind c.value (unary_fold K op)) a
              ha (fold_means op a c.value c.const)
              (λ b below hb. unary_at-Makes n UnaryOp.abs b (omega arith) hb))
    ]

    module _ (op : UnaryOp) (a : ExprId) (ha : Has g a) where
      pub unary-Makes : Makes T cl ex 2 (unary op a) g (at_value op a)
      unfolding unary
      unary-Makes = unary_at-Makes (suc a) op a (omega arith) ha

      -- Under the laws of exact arithmetic and of the unary functions, over an id of a well-formed
      -- graph with room for 2 entries, the result of `unary` evaluates to the function of the
      -- operand's value.
      pub unary_value :
          size g + 2 ≤ capacity
          → {g' : Graph K} {e : ExprId} (get : ExprId → T.Val) → IsValuation T cl g' get
          → unary op a g ≡ some (e, g')
          → get e ≡ T.unary op (get a)
      unary_value room get val run = Makes-value T cl ex g w unary-Makes room run get val

unit_laws : (K : Field) → UnaryLaws (unit_scalar K)
unit_laws K = record {
  exp_zero = refl;
  ln_one = refl;
  sin_zero = refl;
  cos_zero = refl;
  sinh_zero = refl;
  cosh_zero = refl;
  tanh_zero = refl;
  sqrt_zero = refl;
  sqrt_one = refl;
  abs_abs = λ x. refl;
  abs_sqrt = λ x. refl;
  abs_neg = λ x. refl;
  folds = λ op r v e. unit_same _ _;
}

-- Over an id of a well-formed graph with room for two entries, `unary` does not panic or run out of
-- fuel, and leaves a well-formed graph that extends the one given.
pub unary_total :
    {K : Field} (g : Graph K) (w : IsWf g) (op : UnaryOp) (a : ExprId)
    → Has g a
    → size g + 2 ≤ capacity
    → Succeeds (unary op a) g
unary_total {K} g w op a ha room =
    Makes-Succeeds g w
      (unary-Makes (unit_scalar K) (unit_closures K) (unit_exact K) (unit_laws K) g w op a ha) room
