-- ===== src/Node/Ops.antt =====
-- The op tables of crates/rsdag/src/node.rs: `UNARY_OPS`, `BINARY_OPS`, and an op's code, its row
-- and the way back from a code. An index past a table's end is a panic, `none`.
use rsdag.Prelude.{
  ℕ, ◌≡◌, refl, Bool, true, false, Option, none, some, List, [], ◌∷◌, get_elem?, String,
}
use rsdag.Node.{UnaryOp, BinOp}

pub record UnarySpec : Type 0 where
  pub op : UnaryOp
  pub name : String
  pub smooth : Bool

pub record BinarySpec : Type 0 where
  pub op : BinOp
  pub name : String
  pub smooth : Bool

unary_spec : UnaryOp → String → Bool → UnarySpec
unary_spec op name smooth = record { op = op; name = name; smooth = smooth }

binary_spec : BinOp → String → Bool → BinarySpec
binary_spec op name smooth = record { op = op; name = name; smooth = smooth }

unfoldable pub unary_ops : List UnarySpec
unfolding unary_spec
unary_ops =
    unary_spec UnaryOp.exp "exp" true
    ∷ unary_spec UnaryOp.ln "ln" true
    ∷ unary_spec UnaryOp.sqrt "sqrt" true
    ∷ unary_spec UnaryOp.sin "sin" true
    ∷ unary_spec UnaryOp.cos "cos" true
    ∷ unary_spec UnaryOp.sinh "sinh" true
    ∷ unary_spec UnaryOp.cosh "cosh" true
    ∷ unary_spec UnaryOp.tanh "tanh" true
    ∷ unary_spec UnaryOp.atan "atan" true
    ∷ unary_spec UnaryOp.floor "floor" false
    ∷ unary_spec UnaryOp.tan "tan" true
    ∷ unary_spec UnaryOp.log10 "log10" true
    ∷ unary_spec UnaryOp.log2 "log2" true
    ∷ unary_spec UnaryOp.log1p "log1p" true
    ∷ unary_spec UnaryOp.expm1 "expm1" true
    ∷ unary_spec UnaryOp.cbrt "cbrt" true
    ∷ unary_spec UnaryOp.abs "abs" false
    ∷ unary_spec UnaryOp.sign "sign" false
    ∷ unary_spec UnaryOp.ceil "ceil" false
    ∷ unary_spec UnaryOp.round "round" false
    ∷ unary_spec UnaryOp.trunc "trunc" false
    ∷ unary_spec UnaryOp.asin "asin" true
    ∷ unary_spec UnaryOp.acos "acos" true
    ∷ unary_spec UnaryOp.asinh "asinh" true
    ∷ unary_spec UnaryOp.acosh "acosh" true
    ∷ unary_spec UnaryOp.atanh "atanh" true
    ∷ unary_spec UnaryOp.erf "erf" true
    ∷ unary_spec UnaryOp.erfc "erfc" true
    ∷ unary_spec UnaryOp.lgamma "lgamma" true
    ∷ unary_spec UnaryOp.tgamma "tgamma" true
    ∷ unary_spec UnaryOp.digamma "digamma" true
    ∷ unary_spec UnaryOp.trigamma "trigamma" false
    ∷ unary_spec UnaryOp.rand_uniform "rand_uniform" false
    ∷ []

unfoldable pub binary_ops : List BinarySpec
unfolding binary_spec
binary_ops =
    binary_spec BinOp.powf "powf" true
    ∷ binary_spec BinOp.mod_op "mod" false
    ∷ binary_spec BinOp.atan2 "atan2" true
    ∷ binary_spec BinOp.hypot "hypot" true
    ∷ binary_spec BinOp.rand_stream "rand_stream" false
    ∷ []

-- `self as u32`, the place in the enum.
unfoldable pub unary_code : UnaryOp → ℕ
unary_code UnaryOp.exp = 0
unary_code UnaryOp.ln = 1
unary_code UnaryOp.sqrt = 2
unary_code UnaryOp.sin = 3
unary_code UnaryOp.cos = 4
unary_code UnaryOp.sinh = 5
unary_code UnaryOp.cosh = 6
unary_code UnaryOp.tanh = 7
unary_code UnaryOp.atan = 8
unary_code UnaryOp.floor = 9
unary_code UnaryOp.tan = 10
unary_code UnaryOp.log10 = 11
unary_code UnaryOp.log2 = 12
unary_code UnaryOp.log1p = 13
unary_code UnaryOp.expm1 = 14
unary_code UnaryOp.cbrt = 15
unary_code UnaryOp.abs = 16
unary_code UnaryOp.sign = 17
unary_code UnaryOp.ceil = 18
unary_code UnaryOp.round = 19
unary_code UnaryOp.trunc = 20
unary_code UnaryOp.asin = 21
unary_code UnaryOp.acos = 22
unary_code UnaryOp.asinh = 23
unary_code UnaryOp.acosh = 24
unary_code UnaryOp.atanh = 25
unary_code UnaryOp.erf = 26
unary_code UnaryOp.erfc = 27
unary_code UnaryOp.lgamma = 28
unary_code UnaryOp.tgamma = 29
unary_code UnaryOp.digamma = 30
unary_code UnaryOp.trigamma = 31
unary_code UnaryOp.rand_uniform = 32

unfoldable pub binary_code : BinOp → ℕ
binary_code BinOp.powf = 0
binary_code BinOp.mod_op = 1
binary_code BinOp.atan2 = 2
binary_code BinOp.hypot = 3
binary_code BinOp.rand_stream = 4

unfoldable pub unary_row : UnaryOp → Option UnarySpec
unfolding unary_ops unary_code
unary_row op = get_elem? unary_ops (unary_code op)

unfoldable pub binary_row : BinOp → Option BinarySpec
unfolding binary_ops binary_code
binary_row op = get_elem? binary_ops (binary_code op)

unfoldable pub unary_from_code : ℕ → Option UnaryOp
unfolding unary_ops
unary_from_code c = elim (get_elem? unary_ops c) [ none ↦ none | some s ↦ some s.op ]

unfoldable pub binary_from_code : ℕ → Option BinOp
unfolding binary_ops
binary_from_code c = elim (get_elem? binary_ops c) [ none ↦ none | some s ↦ some s.op ]

-- The op of a unary op's code is the op: every row stands at its variant's place.
pub unary_from_code-unary_code : (op : UnaryOp) → unary_from_code (unary_code op) ≡ some op
unfolding unary_from_code unary_code
unary_from_code-unary_code UnaryOp.exp = refl
unary_from_code-unary_code _ = refl

-- The op of a binary op's code is the op: every row stands at its variant's place.
pub binary_from_code-binary_code : (op : BinOp) → binary_from_code (binary_code op) ≡ some op
unfolding binary_from_code binary_code
binary_from_code-binary_code BinOp.powf = refl
binary_from_code-binary_code _ = refl
