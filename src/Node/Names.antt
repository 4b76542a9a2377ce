-- ===== src/Node/Names.antt =====
-- The names of the elementary functions, crates/rsdag/src/node.rs: `UnaryOp::from_name`,
-- `BinOp::from_name` and `Elementary`.
use text.Mathlib.Text.{◌==◌ as str_eq}
use rsdag.Prelude.{ℕ, ◌≡◌, refl, Option, none, some, List, [], ◌∷◌, String, if◌then◌else◌}
use rsdag.Node.{UnaryOp, BinOp, ReduceOp, Elementary}
use rsdag.Node.Ops.{UnarySpec, BinarySpec, unary_ops, binary_ops, unary_row, binary_row}

find_unary : List UnarySpec → String → Option UnaryOp
find_unary [] name = none
find_unary (s ∷ rows) name = if str_eq s.name name then some s.op else find_unary rows name

find_binary : List BinarySpec → String → Option BinOp
find_binary [] name = none
find_binary (s ∷ rows) name = if str_eq s.name name then some s.op else find_binary rows name

unfoldable pub unary_from_name : String → Option UnaryOp
unfolding find_unary unary_ops
unary_from_name name = find_unary unary_ops name

unfoldable pub binary_from_name : String → Option BinOp
unfolding find_binary binary_ops
binary_from_name name = find_binary binary_ops name

-- An op's name, that of its row.
unfoldable pub unary_name : UnaryOp → String
unfolding unary_row
unary_name op = elim (unary_row op) [ none ↦ "" | some s ↦ s.name ]

unfoldable pub binary_name : BinOp → String
unfolding binary_row
binary_name op = elim (binary_row op) [ none ↦ "" | some s ↦ s.name ]

unfoldable pub reduce_name : ReduceOp → String
reduce_name ReduceOp.sum = "sum"
reduce_name ReduceOp.product = "prod"
reduce_name ReduceOp.min = "min"
reduce_name ReduceOp.max = "max"

-- `from_name` of the unary table, else of the binary one.
either : Option UnaryOp → Option BinOp → Option Elementary
either (some op) b = some (Elementary.unary op)
either none (some op) = some (Elementary.binary op)
either none none = none

unfoldable pub elementary_from_name : String → Option Elementary
unfolding either unary_from_name binary_from_name
elementary_from_name name =
    if str_eq name "min"
    then some Elementary.min
    else if str_eq name "max"
    then some Elementary.max
    else if str_eq name "pow"
    then some (Elementary.binary BinOp.powf)
    else either (unary_from_name name) (binary_from_name name)

unfoldable pub elementary_name : Elementary → String
unfolding unary_name binary_name reduce_name
elementary_name (Elementary.unary op) = unary_name op
elementary_name (Elementary.binary op) = binary_name op
elementary_name Elementary.min = reduce_name ReduceOp.min
elementary_name Elementary.max = reduce_name ReduceOp.max

unfoldable pub reduction : Elementary → Option ReduceOp
reduction Elementary.min = some ReduceOp.min
reduction Elementary.max = some ReduceOp.max
reduction _ = none

unfoldable pub arity : Elementary → ℕ
arity (Elementary.unary _) = 1
arity _ = 2

from_name-unary : (op : UnaryOp) → elementary_from_name (unary_name op) ≡ some (Elementary.unary op)
unfolding elementary_from_name elementary_name
from_name-unary UnaryOp.exp = refl
from_name-unary _ = refl

from_name-binary :
    (op : BinOp) → elementary_from_name (binary_name op) ≡ some (Elementary.binary op)
unfolding elementary_from_name elementary_name
from_name-binary BinOp.powf = refl
from_name-binary _ = refl

-- The name of every elementary function denotes that function: no two functions share a name, and
-- no unary or binary op is hidden by `min`, `max` or the alias `pow`.
pub elementary_from_name-elementary_name :
    (f : Elementary) → elementary_from_name (elementary_name f) ≡ some f
unfolding elementary_name
elementary_from_name-elementary_name (Elementary.unary op) = from_name-unary op
elementary_from_name-elementary_name (Elementary.binary op) = from_name-binary op
elementary_from_name-elementary_name Elementary.min = unfold elementary_from_name in refl
elementary_from_name-elementary_name Elementary.max = unfold elementary_from_name in refl
