-- ===== src/Graph/Build/Ring.antt =====
-- The lemmas behind the ring constructors of crates/rsdag/src/graph/mod.rs: `add`, `mul`, `neg`,
-- `sub`.
use rsdag.Prelude.{
  ◌<◌, ◌≡◌, refl, sym, ◌∙◌, ap, ap₂, ◌==◌, leb, true, Bool-cases, inl, inr, Option, none, some,
  arith, ◌||◌,
}
use rsdag.Node.{ExprId, Node}
use rsdag.Field.{Field}
use rsdag.Semantics.{Scalar}
use rsdag.Graph.{Graph}
use rsdag.Graph.Valid.{IsWf, At, Has, Has-ext, IsConst, Builds-run, Builds-imp, Builds-bind}
use rsdag.Graph.Meaning.{Closures, IsValuation, node_value}
use rsdag.Graph.Denotes.{Denotes-imp, IsValuation-ext, IsExact, At-Denotes}
use rsdag.Graph.Build.{
  order, add_node, mul_node, add, add_folded, add_consts, neg, neg_folded, neg_const, neg_node, sub,
  mul, mul_folded, mul_consts,
}
use rsdag.Graph.Build.Base.{
  node_total, const_of_reads, Makes, kept, is_zero_id, is_one_id, const_value, konst_as, node_as,
  zero-Denotes,
}

module _ {K : Field} (T : Scalar K) (cl : Closures T) (ex : IsExact T) where
  module _ (g : Graph K) (w : IsWf g) where
    module _ (a b : ExprId) (ha : Has g a) (hb : Has g b) where
      add_node-Makes : Makes T cl ex 2 (add_node a b) g (λ get. T.add (get a) (get b))
      unfolding add_node order node_value
      add_node-Makes = elim (Bool-cases (leb a b)) [
        | inl e ↦
            Builds-run (rw e) (node_as T cl ex g w (Node.add a b) _ (ha, hb) tt λ g' get. refl)
        | inr e ↦ Builds-run (rw e) (
            node_as T cl ex g w (Node.add b a) _ (hb, ha) tt
              λ g' get. ap some (ex.add_comm (get b) (get a)))
      ]

      add_consts-Makes :
          (x y : Option K.Const)
          → ((r : K.Const) → x ≡ some r → IsConst g a r)
          → ((r : K.Const) → y ≡ some r → IsConst g b r)
          → Makes T cl ex 2 (add_consts x y a b) g (λ get. T.add (get a) (get b))
      unfolding add_consts
      add_consts-Makes (some x) (some y) cx cy = konst_as T cl ex g w (K.add x y) _ λ get val.
          ex.embed_add x y
          ∙ ap₂ T.add (sym (const_value T cl ex g w (cx x refl) get val))
              (sym (const_value T cl ex g w (cy y refl) get val))
      add_consts-Makes (some x) none cx cy = add_node-Makes
      add_consts-Makes none y cx cy = add_node-Makes

      -- The sum of two expressions.
      pub add-Makes : Makes T cl ex 2 (add a b) g (λ get. T.add (get a) (get b))
      unfolding add add_folded
      add-Makes = elim (Bool-cases (a == g.zero)) [
        | inl e ↦ kept T cl ex g w 2 _ b _ hb (rw e) λ get v.
            sym (ap (λ t. T.add t (get b)) (is_zero_id T cl ex g w a e get v) ∙ ex.zero_add (get b))
        | inr e ↦ elim (Bool-cases (b == g.zero)) [
          | inl f ↦ kept T cl ex g w 2 _ a _ ha (rw (e, f)) λ get v. sym (
              ap (T.add (get a)) (is_zero_id T cl ex g w b f get v)
              ∙ ex.add_comm (get a) T.zero
              ∙ ex.zero_add (get a))
          | inr f ↦
              let x = const_of_reads g a w ha in
              let y = const_of_reads g b w hb in
              Builds-run (rw (e, f, x.run, y.run))
                (add_consts-Makes x.value y.value x.const y.const)
        ]
      ]

      mul_node-Makes : Makes T cl ex 2 (mul_node a b) g (λ get. T.mul (get a) (get b))
      unfolding mul_node order node_value
      mul_node-Makes = elim (Bool-cases (leb a b)) [
        | inl e ↦
            Builds-run (rw e) (node_as T cl ex g w (Node.mul a b) _ (ha, hb) tt λ g' get. refl)
        | inr e ↦ Builds-run (rw e) (
            node_as T cl ex g w (Node.mul b a) _ (hb, ha) tt
              λ g' get. ap some (ex.mul_comm (get b) (get a)))
      ]

      mul_consts-Makes :
          (x y : Option K.Const)
          → ((r : K.Const) → x ≡ some r → IsConst g a r)
          → ((r : K.Const) → y ≡ some r → IsConst g b r)
          → Makes T cl ex 2 (mul_consts x y a b) g (λ get. T.mul (get a) (get b))
      unfolding mul_consts
      mul_consts-Makes (some x) (some y) cx cy = konst_as T cl ex g w (K.mul x y) _ λ get val.
          ex.embed_mul x y
          ∙ ap₂ T.mul (sym (const_value T cl ex g w (cx x refl) get val))
              (sym (const_value T cl ex g w (cy y refl) get val))
      mul_consts-Makes (some x) none cx cy = mul_node-Makes
      mul_consts-Makes none y cx cy = mul_node-Makes

      mul_zero : (x : T.Val) → T.mul x T.zero ≡ T.zero
      mul_zero x = ex.mul_comm x T.zero ∙ ex.zero_mul x

      mul_one : (x : T.Val) → T.mul x T.one ≡ x
      mul_one x = ex.mul_comm x T.one ∙ ex.one_mul x

      mul_at_zero :
          (get : ExprId → T.Val)
          → IsValuation T cl g get
          → (a == g.zero || b == g.zero) ≡ true
          → get g.zero ≡ T.mul (get a) (get b)
      mul_at_zero get v h = elim (Bool-cases (a == g.zero)) [
        | inl e ↦
            (zero-Denotes T cl ex g w).value get v
            ∙ sym
                (ap (λ t. T.mul t (get b)) (is_zero_id T cl ex g w a e get v) ∙ ex.zero_mul (get b))
        | inr e ↦
            let f : (b == g.zero) ≡ true = rw e at h in
            (zero-Denotes T cl ex g w).value get v
            ∙ sym (ap (T.mul (get a)) (is_zero_id T cl ex g w b f get v) ∙ mul_zero (get a))
      ]

      -- The product of two expressions.
      pub mul-Makes : Makes T cl ex 2 (mul a b) g (λ get. T.mul (get a) (get b))
      unfolding mul mul_folded
      mul-Makes = elim (Bool-cases (a == g.zero || b == g.zero)) [
        | inl e ↦
            kept T cl ex g w 2 _ g.zero _ (zero-Denotes T cl ex g w).has (rw e)
              λ get v. mul_at_zero get v e
        | inr e ↦ elim (Bool-cases (a == g.one)) [
          | inl f ↦ kept T cl ex g w 2 _ b _ hb (rw (e, f)) λ get v.
              sym (ap (λ t. T.mul t (get b)) (is_one_id T cl ex g w a f get v) ∙ ex.one_mul (get b))
          | inr f ↦ elim (Bool-cases (b == g.one)) [
            | inl h ↦ kept T cl ex g w 2 _ a _ ha (rw (e, f, h)) λ get v.
                sym (ap (T.mul (get a)) (is_one_id T cl ex g w b h get v) ∙ mul_one (get a))
            | inr h ↦
                let x = const_of_reads g a w ha in
                let y = const_of_reads g b w hb in
                Builds-run (rw (e, f, h, x.run, y.run))
                  (mul_consts-Makes x.value y.value x.const y.const)
          ]
        ]
      ]

    neg_node-Makes :
        (a : ExprId) (n : Node)
        → Has g a
        → At g a n
        → Makes T cl ex 2 (neg_node n a) g (λ get. T.neg (get a))
    unfolding neg_node node_value
    neg_node-Makes a (Node.neg inner) ha p =
        let d = At-Denotes T cl g a (Node.neg inner) (λ get. T.neg (get inner)) p (λ get. refl) in
        let below : inner < a = w.ordered a (Node.neg inner) p in
        kept T cl ex g w 2 _ inner _ (omega arith) refl
          λ get v. sym (ap T.neg (d.value get v) ∙ ex.neg_neg (get inner))
    neg_node-Makes a (Node.const c) ha p = node_as T cl ex g w (Node.neg a) _ ha tt λ g' get. refl
    neg_node-Makes a _ ha p = node_as T cl ex g w (Node.neg a) _ ha tt λ g' get. refl

    neg_const-Makes :
        (x : Option K.Const) (a : ExprId)
        → Has g a
        → ((r : K.Const) → x ≡ some r → IsConst g a r)
        → Makes T cl ex 2 (neg_const x a) g (λ get. T.neg (get a))
    unfolding neg_const
    neg_const-Makes (some x) a ha cx =
        konst_as T cl ex g w (K.neg x) _
          λ get val. ex.embed_neg x ∙ ap T.neg (sym (const_value T cl ex g w (cx x refl) get val))
    neg_const-Makes none a ha cx =
        let (n, p, q) = node_total g a ha in Builds-run (rw q) (neg_node-Makes a n ha p)

    -- The negation of an expression.
    pub neg-Makes : (a : ExprId) → Has g a → Makes T cl ex 2 (neg a) g (λ get. T.neg (get a))
    unfolding neg neg_folded
    neg-Makes a ha = elim (Bool-cases (a == g.zero)) [
      | inl e ↦ kept T cl ex g w 2 _ a _ ha (rw e) λ get v.
          is_zero_id T cl ex g w a e get v
          ∙ sym (ap T.neg (is_zero_id T cl ex g w a e get v) ∙ ex.neg_zero)
      | inr e ↦
          let x = const_of_reads g a w ha in
          Builds-run (rw (e, x.run)) (neg_const-Makes x.value a ha x.const)
    ]

  -- The difference of two expressions: the sum with the negation.
  pub sub-Makes :
      (g : Graph K)
      → IsWf g
      → (a b : ExprId) → Has g a
      → Has g b
      → Makes T cl ex 4 (sub a b) g (λ get. T.add (get a) (T.neg (get b)))
  unfolding sub
  sub-Makes g w a b ha hb = Builds-bind (neg-Makes g w b hb) λ nb g₁ gr d.
      Builds-imp (add-Makes g₁ gr.wf a nb (Has-ext a gr.ext ha) d.has) λ e g₂ gr₂ f.
        Denotes-imp T cl g₂ f
          λ get val. ap (T.add (get a)) (d.value get (IsValuation-ext T cl gr.wf gr₂.ext val))
