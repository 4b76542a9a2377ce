-- ===== src/Graph/Build/Values.antt =====
-- What the constructors' results evaluate to, over every valuation of the graph that they leave.
use rsdag.Prelude.{◌+◌, ◌≤◌, ◌≡◌, some, if◌then◌else◌}
use rsdag.Node.{ExprId, CmpOp}
use rsdag.Field.{Field}
use rsdag.Semantics.{Scalar}
use rsdag.Graph.{Graph}
use rsdag.Graph.Valid.{IsWf, Has, size, capacity}
use rsdag.Graph.Meaning.{Closures, IsValuation}
use rsdag.Graph.Denotes.{IsExact, ReadsTruth}
use rsdag.Graph.Build.{add, sub, mul, neg, cmp, select}
use rsdag.Graph.Build.Ring.{add-Makes, mul-Makes, neg-Makes, sub-Makes}
use rsdag.Graph.Build.Choice.{cmp-Makes, select-Makes}
use rsdag.Graph.Build.Correct.{Makes-value}

module _ {K : Field} (T : Scalar K) (cl : Closures T) (ex : IsExact T) (g : Graph K) (w : IsWf g)
    (a b : ExprId) (ha : Has g a) (hb : Has g b) {g' : Graph K} {e : ExprId} (get : ExprId → T.Val)
    (val : IsValuation T cl g' get) where
  -- In exact arithmetic, over ids of a well-formed graph with room for 2 entries, the result of
  -- `add` evaluates to the sum of its operands' values.
  pub add_value : size g + 2 ≤ capacity → add a b g ≡ some (e, g') → get e ≡ T.add (get a) (get b)
  add_value room run = Makes-value T cl ex g w (add-Makes T cl ex g w a b ha hb) room run get val

  -- In exact arithmetic, over ids of a well-formed graph with room for 2 entries, the result of
  -- `mul` evaluates to the product of its operands' values.
  pub mul_value : size g + 2 ≤ capacity → mul a b g ≡ some (e, g') → get e ≡ T.mul (get a) (get b)
  mul_value room run = Makes-value T cl ex g w (mul-Makes T cl ex g w a b ha hb) room run get val

  -- In exact arithmetic, over ids of a well-formed graph with room for 4 entries, the result of
  -- `sub` evaluates to the first operand's value plus the negated second's.
  pub sub_value :
      size g + 4 ≤ capacity → sub a b g ≡ some (e, g') → get e ≡ T.add (get a) (T.neg (get b))
  sub_value room run = Makes-value T cl ex g w (sub-Makes T cl ex g w a b ha hb) room run get val

  -- In exact arithmetic, over ids of a well-formed graph with room for 2 entries, the result of
  -- `cmp` evaluates to the comparison of its operands' values.
  pub cmp_value :
      (op : CmpOp)
      → size g + 2 ≤ capacity
      → cmp op a b g ≡ some (e, g')
      → get e ≡ T.cmp op (get a) (get b)
  cmp_value op room run =
      Makes-value T cl ex g w (cmp-Makes T cl ex g w op a b ha hb) room run get val

  -- In exact arithmetic where a constant is true exactly when it is not zero, over ids of a
  -- well-formed graph with room for 2 entries, the result of `select` evaluates to the value of the
  -- arm that the condition's value takes.
  pub select_value :
      ReadsTruth T
      → (c : ExprId) → Has g c
      → size g + 2 ≤ capacity
      → select c a b g ≡ some (e, g')
      → get e ≡ (if T.is_true (get c) then get a else get b)
  select_value truth c hc room run =
      Makes-value T cl ex g w (select-Makes T cl ex g w c a b hc ha hb truth) room run get val

module _ {K : Field} (T : Scalar K) (cl : Closures T) (ex : IsExact T) (g : Graph K)
    (w : IsWf g) where
  -- In exact arithmetic, over an id of a well-formed graph with room for 2 entries, the result of
  -- `neg` evaluates to the negated value.
  pub neg_value :
      (a : ExprId)
      → Has g a
      → {g' : Graph K} {e : ExprId} (get : ExprId → T.Val) → IsValuation T cl g' get
      → size g + 2 ≤ capacity
      → neg a g ≡ some (e, g')
      → get e ≡ T.neg (get a)
  neg_value a ha get val room run =
      Makes-value T cl ex g w (neg-Makes T cl ex g w a ha) room run get val
