-- ===== src/Graph/Below.antt =====
-- What a node of crates/rsdag/src/graph/mod.rs reads, while its graph grows.
use rsdag.Prelude.{ℕ, ◌≤◌, ◌<◌, List, arith, All-imp, length_prefix}
use rsdag.Node.{ExprId, ArgList, Node}
use rsdag.Node.Operands.{window_prefix}
use rsdag.Field.{Field}
use rsdag.Graph.{Graph}
use rsdag.Graph.Calls.{call_operands_prefix}
use rsdag.Graph.Valid.{Extends, Below, ListBelow}

module _ {K : Field} where
  ListBelow-ext :
      (g g' : Graph K) (i j : ℕ) (l : ArgList) {P : List ExprId → Type 0}
      → Extends g g'
      → i ≤ j
      → ListBelow g i l P
      → ListBelow g' j l P
  ListBelow-ext g g' i j l x le (es, w, b, p) =
      (es, window_prefix x.pool l w, All-imp es (λ e (h : e < i). omega arith) b, p)

  pub Below-ext :
      (g g' : Graph K) (i j : ℕ) (n : Node) → Extends g g' → i ≤ j → Below g i n → Below g' j n
  Below-ext g g' i j (Node.const c) x le b = omega (arith, length_prefix x.consts)
  Below-ext g g' i j (Node.symbol s) x le b = omega (arith, length_prefix x.names)
  Below-ext g g' i j (Node.add a c) x le b = omega arith
  Below-ext g g' i j (Node.mul a c) x le b = omega arith
  Below-ext g g' i j (Node.neg a) x le b = omega arith
  Below-ext g g' i j (Node.pow a n) x le b = omega arith
  Below-ext g g' i j (Node.unary op a) x le b = omega arith
  Below-ext g g' i j (Node.binary op a c) x le b = omega arith
  Below-ext g g' i j (Node.cmp op a c) x le b = omega arith
  Below-ext g g' i j (Node.select c t e) x le b = omega arith
  Below-ext g g' i j (Node.reduce op l) x le b = ListBelow-ext g g' i j l x le b
  Below-ext g g' i j (Node.dot l) x le b = ListBelow-ext g g' i j l x le b
  Below-ext g g' i j (Node.solve l k) x le b = ListBelow-ext g g' i j l x le b
  Below-ext g g' i j (Node.call o l) x le (es, p, b) = (
    es,
    call_operands_prefix g g' x.pool x.contexts x.output_ctx x.outputs x.funcs o l p,
    All-imp es (λ e (h : e < i). omega arith) b,
  )
