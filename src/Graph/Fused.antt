-- ===== src/Graph/Fused.antt =====
-- The fused operator `Graph::dot` of crates/rsdag/src/graph/mod.rs.
pub mod Dot
use rsdag.Prelude.{
  ℕ, ◌==◌, List, [], ◌∷◌, ◌++◌, length, if◌then◌else◌, Option, none, some, State, panic, ◌>>=◌,
}
use rsdag.Node.{ExprId, Node}
use rsdag.Field.{Field}
use rsdag.Graph.{Graph}
use rsdag.Graph.Intern.{intern, intern_args}
use rsdag.Graph.Build.{mul}

module _ {K : Field} where
  -- The operands behind each other, as one list.
  dot_node : List ExprId → State (Graph K) ExprId
  dot_node all = do l ← intern_args all; intern (Node.dot l)

  -- By the first list's length; `b[0]` panics where there is none.
  dot_of : List ExprId → List ExprId → State (Graph K) ExprId
  unfolding dot_node
  dot_of [] ys g = some (g.zero, g)
  dot_of (x ∷ []) [] g = none
  dot_of (x ∷ []) (y ∷ ys) g = mul x y g
  dot_of (x ∷ x' ∷ xs) ys g = dot_node (x ∷ x' ∷ xs ++ ys) g

  -- The inner product of two lists of one length, a failed assertion otherwise.
  unfoldable pub dot : List ExprId → List ExprId → State (Graph K) ExprId
  unfolding dot_of
  dot xs ys g = if length xs == length ys then dot_of xs ys g else none
