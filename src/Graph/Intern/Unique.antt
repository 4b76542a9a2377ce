-- ===== src/Graph/Intern/Unique.antt =====
-- Hash consing in crates/rsdag/src/graph/mod.rs: what is there already is not made again.
use rsdag.Prelude.{◌≡◌, some}
use rsdag.Node.{ExprId, Node}
use rsdag.Field.{Field}
use rsdag.Graph.{Graph}
use rsdag.Graph.Valid.{IsWf, At, IsConst}
use rsdag.Graph.Intern.{intern, intern_found, konst, const_id, const_found}

module _ {K : Field} (g : Graph K) (w : IsWf g) where
  -- Interning a node that a well-formed graph has gives its id and leaves the graph as it is.
  pub intern_present : (e : ExprId) (n : Node) → At g e n → intern n g ≡ some (e, g)
  unfolding intern intern_found
  intern_present e n h = rw (w.nodes_index.complete n e h)

  -- A constant that a well-formed graph has an id for is given that id, and the graph stays as it
  -- is.
  pub konst_present : (e : ExprId) (r : K.Const) → IsConst g e r → konst r g ≡ some (e, g)
  unfolding konst const_id const_found
  konst_present e r (c, p, q) =
      rw (w.consts_index.complete r c q, intern_present e (Node.const c) p)
