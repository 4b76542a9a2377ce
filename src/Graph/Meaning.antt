-- ===== src/Graph/Meaning.antt =====
-- What a graph's expressions mean: `node_value` of crates/rsdag/src/eval.rs, one node over its
-- operands' values, and the valuations of a graph, which give every node the value that its
-- operands' values determine.
use mathlib.Core.Option
use rsdag.Prelude.{
  ℕ, ◌/◌, ◌≡◌, List, map, length, take, drop, get_elem?, Option, some, if◌then◌else◌,
}
use rsdag.Node.{ExprId, SymbolId, OutputId, ArgList, Node}
use rsdag.Node.Operands.{window}
use rsdag.Field.{Field}
use rsdag.Semantics.{Scalar, reduce_slice, dot_slice, as_i32}
use rsdag.Graph.{Graph}
use rsdag.Graph.Calls.{call_operands}

-- The closures that `node_value` takes: a symbol's value, a call's output and a solution's component.
pub record Closures {K : Field} (T : Scalar K) : Type 0 where
  pub sym : SymbolId → T.Val
  pub call : OutputId → ArgList → List T.Val → T.Val
  pub solve : ArgList → List T.Val → ℕ → T.Val

module _ {K : Field} (T : Scalar K) (cl : Closures T) where
  -- The values of an interned list's nodes.
  unfoldable pub list_values : Graph K → (ExprId → T.Val) → ArgList → Option (List T.Val)
  list_values g get l = Option.map (map get) (window g.arg_pool l)

  unfoldable pub dot_halves : List T.Val → Option T.Val
  dot_halves vs = dot_slice T (take (length vs / 2) vs) (drop (length vs / 2) vs)

  unfoldable pub node_value : Graph K → (ExprId → T.Val) → Node → Option T.Val
  unfolding list_values dot_halves
  node_value g get (Node.const c) =
      Option.map (λ (r : K.Const). T.from_f64 (K.to_f64 r)) (get_elem? g.consts c)
  node_value g get (Node.symbol s) = some (cl.sym s)
  node_value g get (Node.add a b) = some (T.add (get a) (get b))
  node_value g get (Node.mul a b) = some (T.mul (get a) (get b))
  node_value g get (Node.neg a) = some (T.neg (get a))
  node_value g get (Node.pow a k) = some (T.powi (get a) (as_i32 k))
  node_value g get (Node.unary op a) = some (T.unary op (get a))
  node_value g get (Node.binary op a b) = some (T.binary op (get a) (get b))
  node_value g get (Node.cmp op a b) = some (T.cmp op (get a) (get b))
  node_value g get (Node.select c t e) = some (if T.is_true (get c) then get t else get e)
  node_value g get (Node.reduce op l) = Option.map (reduce_slice T op) (list_values g get l)
  node_value g get (Node.dot l) = Option.bind (list_values g get l) dot_halves
  node_value g get (Node.call o l) =
      Option.map (λ es. cl.call o l (map get es)) (call_operands g o l)
  node_value g get (Node.solve l i) = Option.map (λ vs. cl.solve l vs i) (list_values g get l)

  -- Every node has the value that its operands' values determine.
  pub record IsValuation (g : Graph K) (get : ExprId → T.Val) : Type 0 where
    pub solves :
        (e : ExprId) (n : Node) → get_elem? g.nodes e ≡ some n → node_value g get n ≡ some (get e)
