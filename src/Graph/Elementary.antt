-- ===== src/Graph/Elementary.antt =====
-- The constructor of unary functions, `Graph::unary` of crates/rsdag/src/graph/mod.rs: it folds
-- constants of a floating field, simplifies `abs` and applies the identities at zero and one.
pub mod Unary
use mathlib.Core.Option
use rsdag.Prelude.{
  ℕ, zero, suc, ◌==◌, if◌then◌else◌, Bool, true, false, Option, none, some, State, pure, panic,
  ◌>>=◌,
}
use rsdag.Node.{ExprId, Node, UnaryOp}
use rsdag.Field.{Field}
use rsdag.Graph.{Graph}
use rsdag.Graph.Intern.{intern, konst, node, const_of}

-- The value of `op` at zero or one where it is one of them: `true` for one.
unfoldable pub unary_identity : UnaryOp → Bool → Bool → Option Bool
unary_identity UnaryOp.exp true _ = some true
unary_identity UnaryOp.ln _ true = some false
unary_identity UnaryOp.sin true _ = some false
unary_identity UnaryOp.cos true _ = some true
unary_identity UnaryOp.sinh true _ = some false
unary_identity UnaryOp.cosh true _ = some true
unary_identity UnaryOp.tanh true _ = some false
unary_identity UnaryOp.sqrt true _ = some false
unary_identity UnaryOp.sqrt false true = some true
unary_identity _ _ _ = none

-- The constant that `op` folds `x` to: none outside its domain.
unfoldable pub unary_fold : (K : Field) → UnaryOp → K.Const → Option K.Const
unary_fold K op x =
    let y = K.unary_f64 op (K.to_f64 x) in if K.real_is_nan y then none else K.from_f64 y

module _ {K : Field} where
  unary_as : Option Bool → UnaryOp → ExprId → State (Graph K) ExprId
  unary_as (some true) op a g = some (g.one, g)
  unary_as (some false) op a g = some (g.zero, g)
  unary_as none op a g = intern (Node.unary op a) g

  unary_tail : UnaryOp → ExprId → State (Graph K) ExprId
  unfolding unary_as unary_identity
  unary_tail op a g = unary_as (unary_identity op (a == g.zero) (a == g.one)) op a g

  -- What of the operand is folded: nothing in an exact field.
  folded_operand : UnaryOp → ExprId → State (Graph K) (Option K.Const)
  unfolding unary_fold
  folded_operand op a g =
      if K.is_exact
      then some (none, g)
      else (do c ← const_of a; pure (Option.bind c (unary_fold K op))) g

  -- `abs` over a node: of a magnitude itself, of a negation that of the operand.
  abs_node : (ExprId → State (Graph K) ExprId) → Node → ExprId → State (Graph K) ExprId
  unfolding unary_tail
  abs_node again (Node.unary UnaryOp.abs _) a g = some (a, g)
  abs_node again (Node.unary UnaryOp.sqrt _) a g = some (a, g)
  abs_node again (Node.neg inner) a g = again inner g
  abs_node again _ a g = unary_tail UnaryOp.abs a g

  unary_node : (ExprId → State (Graph K) ExprId) → UnaryOp → ExprId → State (Graph K) ExprId
  unfolding abs_node
  unary_node again UnaryOp.abs a = do n ← node a; abs_node again n a
  unary_node again op a = unary_tail op a

  unary_const :
      (ExprId → State (Graph K) ExprId) → UnaryOp → Option K.Const → ExprId → State (Graph K) ExprId
  unfolding unary_node
  unary_const again op (some v) a = konst v
  unary_const again op none a = unary_node again op a

  -- On fuel for the negations under an `abs`.
  unary_at : ℕ → UnaryOp → ExprId → State (Graph K) ExprId
  unfolding folded_operand unary_const
  unary_at zero op a g = none
  unary_at (suc n) op a g =
      (do c ← folded_operand op a; unary_const (unary_at n UnaryOp.abs) op c a) g

  -- An operand is older than the node that reads it, so its id is fuel enough.
  unfoldable pub unary : UnaryOp → ExprId → State (Graph K) ExprId
  unfolding unary_at
  unary op a = unary_at (suc a) op a
