-- ===== src/Graph/Denotes.antt =====
-- What an expression of a graph means over every valuation, and what arithmetic has to satisfy for
-- the constructors' identities to hold.
use mathlib.Core.Option
use rsdag.Prelude.{
  ℕ, ◌≡◌, refl, sym, ◌∙◌, ap, List, map, some, not, if◌then◌else◌, get_elem?_prefix,
  get_elem?_total, get_elem?-lt,
}
use rsdag.Node.{ExprId, ArgList, Node, CmpOp}
use rsdag.Node.Operands.{window_prefix}
use rsdag.Field.{Field}
use rsdag.Semantics.{Scalar, reduce_slice}
use rsdag.Graph.{Graph}
use rsdag.Graph.Calls.{call_operands_prefix}
use rsdag.Graph.Valid.{IsWf, At, Has, Has-ext, IsConst, Extends, Below, ListBelow}
use rsdag.Graph.Meaning.{Closures, IsValuation, node_value, list_values, dot_halves}
use rsdag.Graph.Build.{cmp_ordering}

abbrev pub embed : {K : Field} (T : Scalar K) → K.Const → T.Val
embed {K} T r = T.from_f64 (K.to_f64 r)

-- Exact arithmetic: the laws that the constructors rewrite by. Constants embed with their
-- arithmetic.
pub record IsExact {K : Field} (T : Scalar K) : Type 0 where
  pub add_comm : (x y : T.Val) → T.add x y ≡ T.add y x
  pub add_assoc : (x y z : T.Val) → T.add (T.add x y) z ≡ T.add x (T.add y z)
  pub zero_add : (x : T.Val) → T.add T.zero x ≡ x
  pub mul_comm : (x y : T.Val) → T.mul x y ≡ T.mul y x
  pub mul_assoc : (x y z : T.Val) → T.mul (T.mul x y) z ≡ T.mul x (T.mul y z)
  pub one_mul : (x : T.Val) → T.mul T.one x ≡ x
  pub zero_mul : (x : T.Val) → T.mul T.zero x ≡ T.zero
  pub neg_neg : (x : T.Val) → T.neg (T.neg x) ≡ x
  pub neg_zero : T.neg T.zero ≡ T.zero
  pub embed_zero : embed T K.zero ≡ T.zero
  pub embed_one : embed T K.one ≡ T.one
  pub embed_add : (r s : K.Const) → embed T (K.add r s) ≡ T.add (embed T r) (embed T s)
  pub embed_mul : (r s : K.Const) → embed T (K.mul r s) ≡ T.mul (embed T r) (embed T s)
  pub embed_neg : (r : K.Const) → embed T (K.neg r) ≡ T.neg (embed T r)
  pub embed_cmp :
      (op : CmpOp) (r s : K.Const)
      → T.cmp op (embed T r) (embed T s)
        ≡ (if cmp_ordering op (K.partial_cmp r s) then T.one else T.zero)

-- The select predicate of a constant: it is not zero.
abbrev pub ReadsTruth : {K : Field} → Scalar K → Type 0
ReadsTruth {K} T = (r : K.Const) → T.is_true (embed T r) ≡ not (K.is_zero r)

module _ {K : Field} (T : Scalar K) (cl : Closures T) where
  -- Id `e` is an expression of the graph, and `v` its value over every valuation of the graph.
  pub record Denotes (g : Graph K) (e : ExprId) (v : (ExprId → T.Val) → T.Val) : Type 0 where
    pub has : Has g e
    pub value : (get : ExprId → T.Val) → IsValuation T cl g get → get e ≡ v get

  some_eq : {x y : T.Val} → some x ≡ some y → x ≡ y
  some_eq h = cc

  pub At-Denotes :
      (g : Graph K) (e : ExprId) (n : Node) (v : (ExprId → T.Val) → T.Val)
      → At g e n
      → ((get : ExprId → T.Val) → node_value T cl g get n ≡ some (v get))
      → Denotes g e v
  At-Denotes g e n v h f = record {
    has = get_elem?-lt g.nodes e h;
    value = λ get val. some_eq (sym (val.solves e n h) ∙ f get);
  }

  pub IsConst-Denotes :
      (g : Graph K) (e : ExprId) (r : K.Const) → IsConst g e r → Denotes g e (λ _. embed T r)
  unfolding node_value
  IsConst-Denotes g e r (c, p, q) =
      At-Denotes g e (Node.const c) _ p
        λ get. ap (Option.map (λ (s : K.Const). T.from_f64 (K.to_f64 s))) q

  window_kept :
      (g g' : Graph K) (x : Extends g g') (i : ℕ) (get : ExprId → T.Val) (l : ArgList)
      {P : List ExprId → Type 0}
      → ListBelow g i l P
      → list_values T cl g' get l ≡ list_values T cl g get l
  unfolding list_values
  window_kept g g' x i get l (es, w, _, _) =
      ap (Option.map (map get)) (window_prefix x.pool l w ∙ sym w)

  -- A node of a graph means the same in every graph that grows from it.
  pub node_value-ext :
      (g g' : Graph K) (x : Extends g g') (i : ℕ) (get : ExprId → T.Val) (n : Node)
      → Below g i n
      → node_value T cl g' get n ≡ node_value T cl g get n
  unfolding node_value
  node_value-ext g g' x i get (Node.const c) b =
      let (r, p) = get_elem?_total g.consts c b in
      ap (Option.map (λ (s : K.Const). T.from_f64 (K.to_f64 s)))
        (get_elem?_prefix x.consts c p ∙ sym p)
  node_value-ext g g' x i get (Node.reduce op l) b =
      ap (Option.map (reduce_slice T op)) (window_kept g g' x i get l b)
  node_value-ext g g' x i get (Node.dot l) b =
      ap (λ o. Option.bind o (dot_halves T cl)) (window_kept g g' x i get l b)
  node_value-ext g g' x i get (Node.call o l) (es, p, b) =
      ap (Option.map (λ es. cl.call o l (map get es)))
        (call_operands_prefix g g' x.pool x.contexts x.output_ctx x.outputs x.funcs o l p ∙ sym p)
  node_value-ext g g' x i get (Node.solve l k) b =
      ap (Option.map (λ vs. cl.solve l vs k)) (window_kept g g' x i get l b)
  node_value-ext g g' x i get _ b = refl

  -- So a valuation of a grown graph is one of the graph that it grew from.
  pub IsValuation-ext :
      {g g' : Graph K} {get : ExprId → T.Val}
      → IsWf g
      → Extends g g'
      → IsValuation T cl g' get
      → IsValuation T cl g get
  IsValuation-ext {g} {g'} {get} w x v = record {
    solves = λ e n h.
        sym (node_value-ext g g' x e get n (w.ordered e n h))
        ∙ v.solves e n (get_elem?_prefix x.nodes e h);
  }

  pub Denotes-ext :
      {g g' : Graph K} {e : ExprId} {v : (ExprId → T.Val) → T.Val}
      → IsWf g
      → Extends g g'
      → Denotes g e v
      → Denotes g' e v
  Denotes-ext {g} {g'} {e} w x d = record {
    has = Has-ext e x d.has;
    value = λ get val. d.value get (IsValuation-ext w x val);
  }

  -- The same expression under another value that agrees with the first over the graph's valuations.
  pub Denotes-imp :
      (g : Graph K) {e : ExprId} {v u : (ExprId → T.Val) → T.Val}
      → Denotes g e v
      → ((get : ExprId → T.Val) → IsValuation T cl g get → v get ≡ u get)
      → Denotes g e u
  Denotes-imp g d f = record { has = d.has; value = λ get val. d.value get val ∙ f get val }
