-- ===== src/Graph/Sweep.antt =====
-- The evaluation of a graph in id order, as `eval` of crates/rsdag/src/eval.rs sweeps its cone:
-- every node's value from the values before it.
pub mod Valuation
use mathlib.Core.Option
use rsdag.Prelude.{
  ℕ, ◌+◌, ◌≤◌, ◌<◌, ◌≡◌, refl, sym, ◌∙◌, ap, ap₂, List, [], ◌∷◌, ◌++◌, map, length, get_elem?,
  get_or, All, Bool, true, false, ltb, lt→ltb, subst, Option, none, some, arith, get_elem?_total,
  length-map, if◌then◌else◌,
}
use rsdag.Node.{ExprId, ArgList, Node}
use rsdag.Node.Operands.{window}
use rsdag.Field.{Field}
use rsdag.Semantics.{Scalar, reduce_slice}
use rsdag.Semantics.Dot.{dot_slice_total}
use rsdag.Graph.{Graph}
use rsdag.Graph.Calls.{call_operands}
use rsdag.Graph.Valid.{Below, ListBelow}
use rsdag.Graph.Meaning.{Closures, node_value, list_values, dot_halves}

module _ {K : Field} (T : Scalar K) (cl : Closures T) where
  abbrev pub push : List T.Val → Option T.Val → Option (List T.Val)
  push w none = none
  push w (some v) = some (w ++ v ∷ [])

  -- What `node_value` reads of a list that is there; a list out of range is its own panic.
  abbrev pub ids_of : Option (List ExprId) → List ExprId
  ids_of none = []
  ids_of (some es) = es

  -- The ids that `node_value` passes to `get`, of a choice the condition and the arm taken.
  unfoldable pub operands_read : Graph K → (ExprId → T.Val) → Node → List ExprId
  operands_read g get (Node.const c) = []
  operands_read g get (Node.symbol s) = []
  operands_read g get (Node.add a b) = a ∷ b ∷ []
  operands_read g get (Node.mul a b) = a ∷ b ∷ []
  operands_read g get (Node.neg a) = a ∷ []
  operands_read g get (Node.pow a k) = a ∷ []
  operands_read g get (Node.unary op a) = a ∷ []
  operands_read g get (Node.binary op a b) = a ∷ b ∷ []
  operands_read g get (Node.cmp op a b) = a ∷ b ∷ []
  operands_read g get (Node.select c t e) = c ∷ (if T.is_true (get c) then t else e) ∷ []
  operands_read g get (Node.reduce op l) = ids_of (window g.arg_pool l)
  operands_read g get (Node.dot l) = ids_of (window g.arg_pool l)
  operands_read g get (Node.call o l) = ids_of (call_operands g o l)
  operands_read g get (Node.solve l i) = ids_of (window g.arg_pool l)

  abbrev pub all_below : ℕ → List ExprId → Bool
  all_below i [] = true
  all_below i (e ∷ es) = if ltb e i then all_below i es else false

  -- The value of the next node over the values `w` before it. `w[at(e)]` panics on an operand that
  -- has no value yet, so `get_or` never yields its default where the node gets a value.
  unfoldable pub next_value : Graph K → List T.Val → Node → Option T.Val
  unfolding operands_read
  next_value g w n =
      if all_below (length w) (operands_read g (λ e. get_or w e T.nan) n)
      then node_value T cl g (λ e. get_or w e T.nan) n
      else none

  -- `for &e in &cone { w.push(v) }`, the cone being the whole arena.
  unfoldable pub sweep : Graph K → List Node → List T.Val → Option (List T.Val)
  unfolding next_value
  sweep g [] w = some w
  sweep g (n ∷ ns) w = Option.bind (push w (next_value g w n)) (sweep g ns)

  unfoldable pub eval_arena : Graph K → Option (List T.Val)
  unfolding sweep
  eval_arena g = sweep g g.nodes []

  -- Two readers of values that agree below `i`.
  abbrev pub Agree : ℕ → (ExprId → T.Val) → (ExprId → T.Val) → Type 0
  Agree i f h = (e : ExprId) → e < i → f e ≡ h e

  map-Agree :
      (i : ℕ) (f h : ExprId → T.Val) (es : List ExprId)
      → Agree i f h
      → All (λ e. e < i) es
      → map f es ≡ map h es
  map-Agree i f h [] ag b = refl
  map-Agree i f h (e ∷ es) ag b = ap₂ ◌∷◌ (ag e b.0) (map-Agree i f h es ag b.1)

  list-Agree :
      (g : Graph K) (i : ℕ) (f h : ExprId → T.Val) (l : ArgList) {P : List ExprId → Type 0}
      → Agree i f h
      → ListBelow g i l P
      → list_values T cl g f l ≡ list_values T cl g h l
  unfolding list_values
  list-Agree g i f h l ag (es, w, b, _) =
      ap (Option.map (map f)) w
      ∙ ap some (map-Agree i f h es ag b)
      ∙ sym (ap (Option.map (map h)) w)

  -- A node's value depends on its operands' values alone.
  pub node_value-Agree :
      (g : Graph K) (i : ℕ) (f h : ExprId → T.Val) (n : Node)
      → Agree i f h
      → Below g i n
      → node_value T cl g f n ≡ node_value T cl g h n
  unfolding node_value
  node_value-Agree g i f h (Node.const c) ag b = refl
  node_value-Agree g i f h (Node.symbol s) ag b = refl
  node_value-Agree g i f h (Node.add a c) ag b = rw (ag a b.0, ag c b.1)
  node_value-Agree g i f h (Node.mul a c) ag b = rw (ag a b.0, ag c b.1)
  node_value-Agree g i f h (Node.neg a) ag b = rw (ag a b)
  node_value-Agree g i f h (Node.pow a k) ag b = rw (ag a b)
  node_value-Agree g i f h (Node.unary op a) ag b = rw (ag a b)
  node_value-Agree g i f h (Node.binary op a c) ag b = rw (ag a b.0, ag c b.1)
  node_value-Agree g i f h (Node.cmp op a c) ag b = rw (ag a b.0, ag c b.1)
  node_value-Agree g i f h (Node.select c t e) ag b = rw (ag c b.0, ag t b.1, ag e b.2)
  node_value-Agree g i f h (Node.reduce op l) ag b =
      ap (Option.map (reduce_slice T op)) (list-Agree g i f h l ag b)
  node_value-Agree g i f h (Node.dot l) ag b =
      ap (λ o. Option.bind o (dot_halves T cl)) (list-Agree g i f h l ag b)
  node_value-Agree g i f h (Node.call o l) ag (es, p, b) =
      ap (Option.map (λ es. cl.call o l (map f es))) p
      ∙ ap (λ vs. some (cl.call o l vs)) (map-Agree i f h es ag b)
      ∙ sym (ap (Option.map (λ es. cl.call o l (map h es))) p)
  node_value-Agree g i f h (Node.solve l k) ag b =
      ap (Option.map (λ vs. cl.solve l vs k)) (list-Agree g i f h l ag b)

  list_total :
      (g : Graph K) (i : ℕ) (f : ExprId → T.Val) (l : ArgList) {P : List ExprId → Type 0}
      → ListBelow g i l P
      → (vs : List T.Val) × (list_values T cl g f l ≡ some vs)
  unfolding list_values
  list_total g i f l (es, w, _, _) = (map f es, ap (Option.map (map f)) w)

  -- What a node of a well-formed graph reads is there, so it has a value.
  pub node_value_total :
      (g : Graph K) (i : ℕ) (f : ExprId → T.Val) (n : Node)
      → Below g i n
      → (v : T.Val) × (node_value T cl g f n ≡ some v)
  unfolding node_value list_values dot_halves Option.bind
  node_value_total g i f (Node.const c) b =
      let (r, p) = get_elem?_total g.consts c b in (_, ap (Option.map _) p)
  node_value_total g i f (Node.symbol s) b = (_, refl)
  node_value_total g i f (Node.add a c) b = (_, refl)
  node_value_total g i f (Node.mul a c) b = (_, refl)
  node_value_total g i f (Node.neg a) b = (_, refl)
  node_value_total g i f (Node.pow a k) b = (_, refl)
  node_value_total g i f (Node.unary op a) b = (_, refl)
  node_value_total g i f (Node.binary op a c) b = (_, refl)
  node_value_total g i f (Node.cmp op a c) b = (_, refl)
  node_value_total g i f (Node.select c t e) b = (_, refl)
  node_value_total g i f (Node.reduce op l) b =
      let (vs, p) = list_total g i f l b in (_, ap (Option.map (reduce_slice T op)) p)
  node_value_total g i f (Node.dot l) (es, w, _, (n, even)) =
      let (v, p) = dot_slice_total T (map f es) n (length-map es f ∙ even) in
      (v, ap (λ o. Option.bind (Option.map (map f) o) (dot_halves T cl)) w ∙ p)
  node_value_total g i f (Node.call o l) (es, p, _) = (_, ap (Option.map _) p)
  node_value_total g i f (Node.solve l k) b =
      let (vs, p) = list_total g i f l b in (_, ap (Option.map (λ vs. cl.solve l vs k)) p)

  all_below-All : (i : ℕ) (es : List ExprId) → All (λ e. e < i) es → all_below i es ≡ true
  all_below-All i [] b = refl
  all_below-All i (e ∷ es) b = rw (lt→ltb e i b.0) (all_below-All i es b.1)

  ids_of-All :
      (i : ℕ) (o : Option (List ExprId)) (es : List ExprId)
      → o ≡ some es
      → All (λ e. e < i) es
      → All (λ e. e < i) (ids_of o)
  ids_of-All i o es h b = subst (λ o. All (λ e. e < i) (ids_of o)) (sym h) b

  operands_read-Below :
      (g : Graph K) (i : ℕ) (f : ExprId → T.Val) (n : Node)
      → Below g i n
      → All (λ e. e < i) (operands_read g f n)
  unfolding operands_read
  operands_read-Below g i f (Node.const c) b = tt
  operands_read-Below g i f (Node.symbol s) b = tt
  operands_read-Below g i f (Node.add a c) b = (b.0, (b.1, tt))
  operands_read-Below g i f (Node.mul a c) b = (b.0, (b.1, tt))
  operands_read-Below g i f (Node.neg a) b = (b, tt)
  operands_read-Below g i f (Node.pow a k) b = (b, tt)
  operands_read-Below g i f (Node.unary op a) b = (b, tt)
  operands_read-Below g i f (Node.binary op a c) b = (b.0, (b.1, tt))
  operands_read-Below g i f (Node.cmp op a c) b = (b.0, (b.1, tt))
  operands_read-Below g i f (Node.select c t e) b = (b.0, (taken (T.is_true (f c)), tt))
    where
      taken : (q : Bool) → (if q then t else e) < i
      taken true = b.1
      taken false = b.2
  operands_read-Below g i f (Node.reduce op l) (es, w, b, _) =
      ids_of-All i (window g.arg_pool l) es w b
  operands_read-Below g i f (Node.dot l) (es, w, b, _) = ids_of-All i (window g.arg_pool l) es w b
  operands_read-Below g i f (Node.call o l) (es, w, b) = ids_of-All i (call_operands g o l) es w b
  operands_read-Below g i f (Node.solve l k) (es, w, b, _) =
      ids_of-All i (window g.arg_pool l) es w b

  -- Over values of all that a node reads, the next value is the node's value.
  pub next_value-node_value :
      (g : Graph K) (w : List T.Val) (n : Node)
      → Below g (length w) n
      → next_value g w n ≡ node_value T cl g (λ e. get_or w e T.nan) n
  unfolding next_value
  next_value-node_value g w n b =
      rw
        (all_below-All (length w) (operands_read g (λ e. get_or w e T.nan) n)
          (operands_read-Below g (length w) (λ e. get_or w e T.nan) n b))
        refl
