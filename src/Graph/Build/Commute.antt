-- ===== src/Graph/Build/Commute.antt =====
-- The commutative constructors of crates/rsdag/src/graph/mod.rs under an exchange of operands.
use rsdag.Prelude.{
  ◌≡◌, ◌==◌, ==_iff, sym, ◌∙◌, ap, Bool-cases, ◌||◌, true, false, Option, none, some, arith, inl,
  inr, ◌⊎◌,
}
use rsdag.Node.{ExprId, Node}
use rsdag.Field.{Field}
use rsdag.Graph.{Graph}
use rsdag.Graph.Valid.{IsWf, Has}
use rsdag.Graph.Intern.{intern, konst}
use rsdag.Graph.Build.{
  order, add, add_node, add_consts, add_folded, mul, mul_node, mul_consts, mul_folded,
}
use rsdag.Graph.Build.Base.{const_of_reads}

-- The canonical order does not depend on the order given.
pub order_comm : (a b : ExprId) → ◌≡◌ {A = ExprId × ExprId} (order a b) (order b a)
unfolding order
order_comm a b = ground arith

module _ {K : Field} where
  add_node_comm : (a b : ExprId) (g : Graph K) → add_node a b g ≡ add_node b a g
  unfolding add_node
  add_node_comm a b g =
      ap (λ (p : ExprId × ExprId). intern (Node.add (p.0) (p.1)) g) (order_comm a b)

  mul_node_comm : (a b : ExprId) (g : Graph K) → mul_node a b g ≡ mul_node b a g
  unfolding mul_node
  mul_node_comm a b g =
      ap (λ (p : ExprId × ExprId). intern (Node.mul (p.0) (p.1)) g) (order_comm a b)

  add_consts_comm :
      ((r s : K.Const) → K.add r s ≡ K.add s r)
      → (x y : Option K.Const) (a b : ExprId) (g : Graph K)
      → add_consts x y a b g ≡ add_consts y x b a g
  unfolding add_consts
  add_consts_comm h (some x) (some y) a b g = ap (λ r. konst r g) (h x y)
  add_consts_comm h (some x) none a b g = add_node_comm a b g
  add_consts_comm h none (some y) a b g = add_node_comm a b g
  add_consts_comm h none none a b g = add_node_comm a b g

  mul_consts_comm :
      ((r s : K.Const) → K.mul r s ≡ K.mul s r)
      → (x y : Option K.Const) (a b : ExprId) (g : Graph K)
      → mul_consts x y a b g ≡ mul_consts y x b a g
  unfolding mul_consts
  mul_consts_comm h (some x) (some y) a b g = ap (λ r. konst r g) (h x y)
  mul_consts_comm h (some x) none a b g = mul_node_comm a b g
  mul_consts_comm h none (some y) a b g = mul_node_comm a b g
  mul_consts_comm h none none a b g = mul_node_comm a b g

  module _ (g : Graph K) (w : IsWf g) (a b : ExprId) (ha : Has g a) (hb : Has g b) where
    add_folded_comm :
        ((r s : K.Const) → K.add r s ≡ K.add s r) → add_folded a b g ≡ add_folded b a g
    unfolding add_folded
    add_folded_comm h =
        let x = const_of_reads g a w ha in
        let y = const_of_reads g b w hb in
        rw (x.run, y.run, x.run, add_consts_comm h x.value y.value a b g)

    mul_folded_comm :
        ((r s : K.Const) → K.mul r s ≡ K.mul s r) → mul_folded a b g ≡ mul_folded b a g
    unfolding mul_folded
    mul_folded_comm h =
        let x = const_of_reads g a w ha in
        let y = const_of_reads g b w hb in
        rw (x.run, y.run, x.run, mul_consts_comm h x.value y.value a b g)

    add_comm_at :
        ((r s : K.Const) → K.add r s ≡ K.add s r)
        → (a == g.zero ≡ true) ⊎ (a == g.zero ≡ false)
        → (b == g.zero ≡ true) ⊎ (b == g.zero ≡ false)
        → add a b g ≡ add b a g
    unfolding add
    add_comm_at h (inl p) (inl q) =
        rw (p, q) (ap (λ e. some (e, g)) ((==_iff b g.zero).0 q ∙ sym ((==_iff a g.zero).0 p)))
    add_comm_at h (inl p) (inr q) = rw (p, q)
    add_comm_at h (inr p) (inl q) = rw (p, q)
    add_comm_at h (inr p) (inr q) = rw (p, q, add_folded_comm h)

    -- Over ids of a well-formed graph, where the addition of constants commutes, `add` gives the
    -- same id and the same graph for both orders of its operands.
    pub add_comm : ((r s : K.Const) → K.add r s ≡ K.add s r) → add a b g ≡ add b a g
    add_comm h = add_comm_at h (Bool-cases (a == g.zero)) (Bool-cases (b == g.zero))

    mul_zero : (a == g.zero || b == g.zero) ≡ true → mul a b g ≡ mul b a g
    unfolding mul
    mul_zero p = let q : (b == g.zero || a == g.zero) ≡ true = ground arith in rw (p, q)

    mul_ones :
        ((r s : K.Const) → K.mul r s ≡ K.mul s r)
        → (a == g.zero || b == g.zero) ≡ false
        → (a == g.one ≡ true) ⊎ (a == g.one ≡ false)
        → (b == g.one ≡ true) ⊎ (b == g.one ≡ false)
        → mul a b g ≡ mul b a g
    unfolding mul
    mul_ones h p x y = let q : (b == g.zero || a == g.zero) ≡ false = ground arith in at q x y
      where
        at :
            (b == g.zero || a == g.zero) ≡ false
            → (a == g.one ≡ true) ⊎ (a == g.one ≡ false)
            → (b == g.one ≡ true) ⊎ (b == g.one ≡ false)
            → mul a b g ≡ mul b a g
        at q (inl x) (inl y) =
            rw (p, q, x, y)
              (ap (λ e. some (e, g)) ((==_iff b g.one).0 y ∙ sym ((==_iff a g.one).0 x)))
        at q (inl x) (inr y) = rw (p, q, x, y)
        at q (inr x) (inl y) = rw (p, q, x, y)
        at q (inr x) (inr y) = rw (p, q, x, y, mul_folded_comm h)

    -- Over ids of a well-formed graph, where the multiplication of constants commutes, `mul` gives
    -- the same id and the same graph for both orders of its operands.
    pub mul_comm : ((r s : K.Const) → K.mul r s ≡ K.mul s r) → mul a b g ≡ mul b a g
    mul_comm h = elim (Bool-cases (a == g.zero || b == g.zero)) [
      | inl p ↦ mul_zero p
      | inr p ↦ mul_ones h p (Bool-cases (a == g.one)) (Bool-cases (b == g.one))
    ]
