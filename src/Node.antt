-- ===== src/Node.antt =====
-- The expression nodes, crates/rsdag/src/node.rs. An id (`ExprId`, `ConstId`, `SymbolId`,
-- `OutputId`) is its index. The op tables stand in Node/Ops.antt, the operands of a node in
-- Node/Operands.antt, the arithmetic of fingerprints in Node/Shape.antt.
pub mod Ops
pub mod Operands
pub mod Shape
pub mod Names
pub mod Eq
use rsdag.Prelude.{ℕ, ℤ}

abbrev pub ExprId : Type 0
ExprId = ℕ

abbrev pub ConstId : Type 0
ConstId = ℕ

abbrev pub SymbolId : Type 0
SymbolId = ℕ

abbrev pub OutputId : Type 0
OutputId = ℕ

-- A window into the argument pool.
pub record ArgList : Type 0 where
  pub start : ℕ
  pub len : ℕ

pub data CmpOp : Type 0 where
  gt ge lt le eq ne : CmpOp

pub data ReduceOp : Type 0 where
  sum product min max : ReduceOp

pub data UnaryOp : Type 0 where
  exp ln sqrt sin cos sinh cosh tanh atan floor : UnaryOp
  tan log10 log2 log1p expm1 cbrt abs sign ceil round trunc : UnaryOp
  asin acos asinh acosh atanh erf erfc lgamma tgamma digamma trigamma : UnaryOp
  rand_uniform : UnaryOp

pub data BinOp : Type 0 where
  powf mod_op atan2 hypot rand_stream : BinOp

pub data Elementary : Type 0 where
  unary : UnaryOp → Elementary
  binary : BinOp → Elementary
  min max : Elementary

pub data Node : Type 0 where
  const : ConstId → Node
  symbol : SymbolId → Node
  add mul : ExprId → ExprId → Node
  neg : ExprId → Node
  pow : ExprId → ℤ → Node
  unary : UnaryOp → ExprId → Node
  binary : BinOp → ExprId → ExprId → Node
  cmp : CmpOp → ExprId → ExprId → Node
  select : ExprId → ExprId → ExprId → Node
  reduce : ReduceOp → ArgList → Node
  dot : ArgList → Node
  solve : ArgList → ℕ → Node
  call : OutputId → ArgList → Node
