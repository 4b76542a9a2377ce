-- ===== src/Node/Eq.antt =====
-- Derived equality of nodes, operand windows and operand lists (`#[derive(PartialEq, Eq, Hash)]`),
-- and of names.
use text.Mathlib.Text.{◌==◌ as str_eq}
use text.Mathlib.TextEquality.{eq_iff}
use rsdag.Prelude.{ℕ, List, String, ℕ_discrete, Bool-cases, inl, inr}
use rsdag.Node.{ExprId, ArgList, Node}

unfoldable pub ArgList-discrete : Discrete ArgList
ArgList-discrete = hlevel ℕ_discrete

unfoldable pub Node-discrete : Discrete Node
Node-discrete = hlevel ℕ_discrete

unfoldable pub List-discrete : Discrete (List ExprId)
List-discrete = hlevel ℕ_discrete

unfoldable pub Site-discrete : Discrete (ℕ × ArgList)
Site-discrete = hlevel ℕ_discrete

unfoldable pub String-discrete : Discrete String
String-discrete s t = elim (Bool-cases (str_eq s t)) [
  | inl e ↦ yes ((eq_iff s t).0 e)
  | inr e ↦ no (λ p. cc (e, (eq_iff s t).1 p))
]
