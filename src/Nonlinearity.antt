-- ===== src/Nonlinearity.antt =====
-- How an expression depends on a set of variables: crates/rsdag/src/nonlinearity.rs. A degree is a
-- `u32`, a set of unary ops the bits of a `u64`.
pub mod Sound
pub mod Plain
use Prim.Native.Nat.{bit_or}
use mathlib.Core.Option
use rsdag.Prelude.{
  ℕ, ◌+◌, ◌*◌, ◌%◌, ◌/◌, ◌^◌, max, Bool, true, false, not, ◌&&◌, ◌||◌, Option, none, some, List, [],
  ◌∷◌, map, length, take, drop, get_elem?, ltb, ◌==◌, if◌then◌else◌, ℤ, pos, negsuc,
}
use rsdag.Node.{ExprId, Node, UnaryOp, ReduceOp}
use rsdag.Node.Ops.{unary_code}
use rsdag.Node.Operands.{window, operands}
use rsdag.Field.{Field}
use rsdag.Graph.{Graph}

pub data Degree : Type 0 where
  finite : ℕ → Degree
  unbounded : Degree

-- `checked_add`, `checked_mul`
abbrev pub checked : ℕ → Degree
checked n = if ltb n (2 ^ 32) then Degree.finite n else Degree.unbounded

unfoldable pub times : Degree → Degree → Degree
times (Degree.finite a) (Degree.finite b) = checked (a + b)
times _ _ = Degree.unbounded

unfoldable pub plus : Degree → Degree → Degree
plus (Degree.finite a) (Degree.finite b) = Degree.finite (max a b)
plus _ _ = Degree.unbounded

unfoldable pub power : Degree → ℕ → Degree
power (Degree.finite d) n = checked (d * n)
power Degree.unbounded n = Degree.unbounded

pub record Nonlinearity : Type 0 where
  pub degree : Degree
  pub transcendental : ℕ
  pub rational : Bool
  pub piecewise : Bool
  pub opaque_call : Bool

-- `UnarySet::insert`
unfoldable pub insert : ℕ → UnaryOp → ℕ
insert set op = bit_or set (2 ^ unary_code op)

unfoldable pub of_degree : Degree → Nonlinearity
of_degree d = record {
  degree = d;
  transcendental = 0;
  rational = false;
  piecewise = false;
  opaque_call = false;
}

-- `Nonlinearity::default()`
unfoldable pub constant : Nonlinearity
unfolding of_degree
constant = of_degree (Degree.finite 0)

abbrev pub is_zero_degree : Degree → Bool
is_zero_degree (Degree.finite d) = d == 0
is_zero_degree Degree.unbounded = false

unfoldable pub is_constant : Nonlinearity → Bool
is_constant c =
    is_zero_degree c.degree
    && c.transcendental == 0
    && not c.rational
    && not c.piecewise
    && not c.opaque_call

unfoldable pub absorb : Nonlinearity → Nonlinearity → Nonlinearity
absorb c d = record c {
  transcendental = bit_or c.transcendental d.transcendental;
  rational = c.rational || d.rational;
  piecewise = c.piecewise || d.piecewise;
  opaque_call = c.opaque_call || d.opaque_call;
}

unfoldable pub is_polynomial : Nonlinearity → Bool
is_polynomial c = elim (c.degree) [ Degree.finite d ↦ true | Degree.unbounded ↦ false ]

-- `for c in parts { out.absorb(c) }`
unfoldable pub joined : List Nonlinearity → Nonlinearity → Nonlinearity
unfolding absorb
joined [] out = out
joined (c ∷ cs) out = joined cs (absorb out c)

unfoldable pub all_constant : List Nonlinearity → Bool
unfolding is_constant
all_constant [] = true
all_constant (c ∷ cs) = is_constant c && all_constant cs

-- The fold of the degrees of a reduction's operands.
unfoldable pub fold_degrees : (Degree → Degree → Degree) → Degree → List Nonlinearity → Degree
fold_degrees f d [] = d
fold_degrees f d (c ∷ cs) = fold_degrees f (f d c.degree) cs

abbrev pub with_degree : Nonlinearity → Degree → Nonlinearity
with_degree c d = record c { degree = d }

abbrev pub rational_part : Nonlinearity
rational_part = record {
  degree = Degree.unbounded;
  transcendental = 0;
  rational = true;
  piecewise = false;
  opaque_call = false;
}

abbrev pub piecewise_part : Nonlinearity
piecewise_part = record {
  degree = Degree.unbounded;
  transcendental = 0;
  rational = false;
  piecewise = true;
  opaque_call = false;
}

unfoldable pub classify_pow : Nonlinearity → ℤ → Nonlinearity
unfolding is_constant constant power joined
classify_pow ca (pos n) =
    if n == 0 || is_constant ca then constant else with_degree ca (power ca.degree n)
classify_pow ca (negsuc n) = if is_constant ca then constant else joined (ca ∷ []) rational_part

unfoldable pub classify_unary : UnaryOp → Nonlinearity → Nonlinearity
unfolding is_constant constant joined insert of_degree
classify_unary op ca =
    if is_constant ca
    then constant
    else joined (ca ∷ []) (record (of_degree Degree.unbounded) { transcendental = insert 0 op })

-- A node that is no polynomial unless its operands are constant.
unfoldable pub classify_opaque : List Nonlinearity → Nonlinearity → Nonlinearity
unfolding all_constant constant joined
classify_opaque parts out = if all_constant parts then constant else joined parts out

unfoldable pub classify_select : Nonlinearity → Nonlinearity → Nonlinearity → Nonlinearity
unfolding is_constant of_degree plus joined
classify_select cc ct ce =
    joined (cc ∷ ct ∷ ce ∷ [])
      (if is_constant cc then of_degree (plus ct.degree ce.degree) else piecewise_part)

abbrev pub ordered_reduction : List Nonlinearity → Nonlinearity → Nonlinearity
ordered_reduction parts out =
    if all_constant parts
    then with_degree out (Degree.finite 0)
    else record out { degree = Degree.unbounded; piecewise = true }

unfoldable pub classify_reduce : ReduceOp → List Nonlinearity → Nonlinearity
unfolding joined constant fold_degrees plus times all_constant
classify_reduce ReduceOp.sum parts =
    with_degree (joined parts constant) (fold_degrees plus (Degree.finite 0) parts)
classify_reduce ReduceOp.product parts =
    with_degree (joined parts constant) (fold_degrees times (Degree.finite 0) parts)
classify_reduce ReduceOp.min parts = ordered_reduction parts (joined parts constant)
classify_reduce ReduceOp.max parts = ordered_reduction parts (joined parts constant)

-- The inner product's sum over its pairs.
unfoldable pub classify_pairs : List Nonlinearity → List Nonlinearity → Nonlinearity → Nonlinearity
unfolding plus times absorb
classify_pairs (x ∷ xs) (y ∷ ys) out =
    classify_pairs xs ys
      (absorb (absorb (with_degree out (plus out.degree (times x.degree y.degree))) x) y)
classify_pairs _ _ out = out

module _ (pool : List ExprId) (sub : ExprId → Nonlinearity) where
  -- A node from its operands' classes; a symbol or a call does not come here, `unreachable!`.
  unfoldable pub classify_node : Node → Option Nonlinearity
  unfolding constant joined of_degree plus times classify_pow classify_unary classify_opaque
      classify_select classify_reduce classify_pairs
  classify_node (Node.const c) = some constant
  classify_node (Node.symbol s) = none
  classify_node (Node.call o l) = none
  classify_node (Node.neg a) = some (sub a)
  classify_node (Node.add a b) =
      some (joined (sub a ∷ sub b ∷ []) (of_degree (plus (sub a).degree (sub b).degree)))
  classify_node (Node.mul a b) =
      some (joined (sub a ∷ sub b ∷ []) (of_degree (times (sub a).degree (sub b).degree)))
  classify_node (Node.pow a n) = some (classify_pow (sub a) n)
  classify_node (Node.unary op a) = some (classify_unary op (sub a))
  classify_node (Node.binary op a b) =
      some (classify_opaque (sub a ∷ sub b ∷ []) (of_degree Degree.unbounded))
  classify_node (Node.cmp op a b) = some (classify_opaque (sub a ∷ sub b ∷ []) piecewise_part)
  classify_node (Node.solve l k) =
      Option.map (λ es. classify_opaque (map sub es) rational_part) (window pool l)
  classify_node (Node.select c t e) = some (classify_select (sub c) (sub t) (sub e))
  classify_node (Node.reduce op l) =
      Option.map (λ es. classify_reduce op (map sub es)) (window pool l)
  classify_node (Node.dot l) =
      Option.map
        (λ es.
          classify_pairs (take (length es / 2) (map sub es)) (drop (length es / 2) (map sub es))
            constant)
        (window pool l)

-- `classify(g, expr, sub)`
unfoldable pub classify :
    {K : Field} → Graph K → ExprId → (ExprId → Nonlinearity) → Option Nonlinearity
unfolding classify_node
classify g e sub = Option.bind (get_elem? g.nodes e) (classify_node g.arg_pool sub)
