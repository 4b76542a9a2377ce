-- ===== src/Graph/Build.antt =====
-- The algebraic constructors of crates/rsdag/src/graph/mod.rs: they fold constants, apply the
-- identities of zero and one, order the operands of commutative nodes and intern what is left.
pub mod Base
pub mod Ring
pub mod Choice
pub mod Correct
pub mod Values
pub mod Commute
pub mod Branches
pub mod Picks
use rsdag.Prelude.{
  ℕ, ◌==◌, if◌then◌else◌, ◌||◌, leb, Bool, true, false, Option, none, some, State, pure, ◌>>=◌,
  Ordering,
}
use rsdag.Node.{ExprId, Node, CmpOp}
use rsdag.Field.{Field}
use rsdag.Graph.{Graph}
use rsdag.Graph.Intern.{intern, konst, node, const_of}

-- Canonical operand order for commutative ops.
unfoldable pub order : ExprId → ExprId → ExprId × ExprId
order a b = if leb a b then (a, b) else (b, a)

-- A comparison of two constants; an unordered pair compares false except for `Ne`.
unfoldable pub cmp_ordering : CmpOp → Option Ordering → Bool
cmp_ordering CmpOp.ne none = true
cmp_ordering _ none = false
cmp_ordering CmpOp.gt (some Ordering.gt) = true
cmp_ordering CmpOp.ge (some Ordering.gt) = true
cmp_ordering CmpOp.ge (some Ordering.eq) = true
cmp_ordering CmpOp.lt (some Ordering.lt) = true
cmp_ordering CmpOp.le (some Ordering.lt) = true
cmp_ordering CmpOp.le (some Ordering.eq) = true
cmp_ordering CmpOp.eq (some Ordering.eq) = true
cmp_ordering CmpOp.ne (some Ordering.lt) = true
cmp_ordering CmpOp.ne (some Ordering.gt) = true
cmp_ordering _ _ = false

module _ {K : Field} where
  add_node : ExprId → ExprId → State (Graph K) ExprId
  add_node a b = let (a', b') = order a b in intern (Node.add a' b')

  add_consts : Option K.Const → Option K.Const → ExprId → ExprId → State (Graph K) ExprId
  unfolding add_node
  add_consts (some x) (some y) a b = konst (K.add x y)
  add_consts _ _ a b = add_node a b

  add_folded : ExprId → ExprId → State (Graph K) ExprId
  unfolding add_consts
  add_folded a b = do x ← const_of a; y ← const_of b; add_consts x y a b

  unfoldable pub add : ExprId → ExprId → State (Graph K) ExprId
  unfolding add_folded
  add a b g =
      if a == g.zero then some (b, g) else if b == g.zero then some (a, g) else add_folded a b g

  neg_node : Node → ExprId → State (Graph K) ExprId
  neg_node (Node.neg inner) a = pure inner
  neg_node _ a = intern (Node.neg a)

  neg_const : Option K.Const → ExprId → State (Graph K) ExprId
  unfolding neg_node
  neg_const (some x) a = konst (K.neg x)
  neg_const none a = do n ← node a; neg_node n a

  neg_folded : ExprId → State (Graph K) ExprId
  unfolding neg_const
  neg_folded a = do x ← const_of a; neg_const x a

  unfoldable pub neg : ExprId → State (Graph K) ExprId
  unfolding neg_folded
  neg a g = if a == g.zero then some (a, g) else neg_folded a g

  unfoldable pub sub : ExprId → ExprId → State (Graph K) ExprId
  unfolding neg add
  sub a b = do nb ← neg b; add a nb

  mul_node : ExprId → ExprId → State (Graph K) ExprId
  mul_node a b = let (a', b') = order a b in intern (Node.mul a' b')

  mul_consts : Option K.Const → Option K.Const → ExprId → ExprId → State (Graph K) ExprId
  unfolding mul_node
  mul_consts (some x) (some y) a b = konst (K.mul x y)
  mul_consts _ _ a b = mul_node a b

  mul_folded : ExprId → ExprId → State (Graph K) ExprId
  unfolding mul_consts
  mul_folded a b = do x ← const_of a; y ← const_of b; mul_consts x y a b

  unfoldable pub mul : ExprId → ExprId → State (Graph K) ExprId
  unfolding mul_folded
  mul a b g =
      if a == g.zero || b == g.zero
      then some (g.zero, g)
      else if a == g.one
      then some (b, g)
      else if b == g.one
      then some (a, g)
      else mul_folded a b g

  cmp_consts : CmpOp → Option K.Const → Option K.Const → ExprId → ExprId → State (Graph K) ExprId
  cmp_consts op (some x) (some y) a b g =
      if cmp_ordering op (K.partial_cmp x y) then some (g.one, g) else some (g.zero, g)
  cmp_consts op _ _ a b g = intern (Node.cmp op a b) g

  -- Comparison node; folds when both operands are constant.
  unfoldable pub cmp : CmpOp → ExprId → ExprId → State (Graph K) ExprId
  unfolding cmp_consts
  cmp op a b = do x ← const_of a; y ← const_of b; cmp_consts op x y a b

  select_const : Option K.Const → ExprId → ExprId → ExprId → State (Graph K) ExprId
  select_const (some r) c t e = if K.is_zero r then pure e else pure t
  select_const none c t e = if t == e then pure t else intern (Node.select c t e)

  -- Folds a constant condition and collapses equal branches.
  unfoldable pub select : ExprId → ExprId → ExprId → State (Graph K) ExprId
  unfolding select_const
  select c t e = do r ← const_of c; select_const r c t e
