-- ===== src/Tape.antt =====
-- The instruction stream over slots, crates/rsdag/src/tape/mod.rs: `Op`, `Tape`, its operands and its
-- evaluation in op order. A kernel (a call, a dense product, a solve) computes its block from its
-- operands' values and its state.
pub mod Run
pub mod Gather
pub mod Phases
pub mod Lift
pub mod Stages
pub mod Specialize
use mathlib.Core.Option
use rsdag.Prelude.{
  ℕ, zero, suc, ◌+◌, ◌-◌, ◌*◌, ◌^◌, Bool, true, false, Option, none, some, List, [], ◌∷◌, ◌++◌, map,
  length, get_elem?, get_or, slice, take, drop, leb, ltb, ◌==◌, ◌&&◌, not, if◌then◌else◌, ℤ,
  write_block,
}
use rsdag.Node.{UnaryOp, BinOp, CmpOp, ReduceOp}
use rsdag.Field.{Field}
use rsdag.Semantics.{Scalar, reduce_slice, dot_slice}
use rsdag.Program.{Kind, Kernels}
use rsdag.Program.Specialize.{u32_max, byte}

-- The tag of an operand that names an input rather than a slot.
abbrev pub input_tag : ℕ
input_tag = 2 ^ 31

-- The input index of a tagged operand.
abbrev pub input_index : ℕ → Option ℕ
input_index k = if leb input_tag k then some (k - input_tag) else none

-- Where a kernel's dense operand lives.
pub data Src : Type 0 where
  inputs pool slots : ℕ → Src

-- A product kernel's accumulator operand, when a fold reads one, and where its fold codes stand.
pub record Accum : Type 0 where
  pub c : Option Src
  pub codes : ℕ

-- One instruction over slots and tagged inputs.
pub data Op (K : Field) : Type 0 where
  const : K.Real → Op K
  add mul : ℕ → ℕ → Op K
  mul_add : ℕ → ℕ → ℕ → Op K
  sub : ℕ → ℕ → Op K
  neg : ℕ → Op K
  powi : ℕ → ℤ → Op K
  unary : UnaryOp → ℕ → Op K
  binary : BinOp → ℕ → ℕ → Op K
  cmp : CmpOp → ℕ → ℕ → Op K
  select : ℕ → ℕ → ℕ → Op K
  reduce : ReduceOp → ℕ → ℕ → Op K
  dot : ℕ → ℕ → Op K
  -- Bundle, start, groups, arguments per group, those read per group, `reads`, outputs per group,
  -- state and arguments' place.
  call : ℕ → ℕ → ℕ → ℕ → ℕ → ℕ → ℕ → ℕ → ℕ → Op K
  -- Bundle, start, groups, pure arguments per group, arguments' place.
  call_prolog : ℕ → ℕ → ℕ → ℕ → ℕ → Op K
  gemv : Src → Src → ℕ → ℕ → Option Accum → Op K
  gemm : Src → Src → ℕ → ℕ → ℕ → Option Accum → Op K
  solve : Src → Src → ℕ → ℕ → ℕ → Op K

-- The stream with its destinations, operand pool and outputs. A bundle is known by the length of an
-- instance's state.
pub record Tape (K : Field) : Type 0 where
  pub ops : List (Op K)
  pub dst : List ℕ
  pub n_selects : ℕ
  pub arg_pool : List ℕ
  pub outputs : List ℕ
  pub n_work : ℕ
  pub max_args : ℕ
  pub lent : ℕ
  pub bundles : ℕ → ℕ
  pub prolog_ops : ℕ
  pub state_len : ℕ
  pub n_inputs : ℕ

-- `k..k + n`
abbrev pub range_from : ℕ → ℕ → List ℕ
range_from k zero = []
range_from k (suc n) = k ∷ range_from (suc k) n

abbrev pub no_state : ℕ
no_state = u32_max

abbrev pub all_args : ℕ
all_args = u32_max

-- A row per instance, then the row that each instance reads.
abbrev pub state_slots : ℕ → ℕ → ℕ
state_slots n_groups state_len = n_groups * (state_len + 1)

-- One list behind another, a panic where there is none.
abbrev pub both_lists : Option (List ℕ) → Option (List ℕ) → Option (List ℕ)
both_lists none b = none
both_lists (some a) none = none
both_lists (some a) (some b) = some (a ++ b)

-- The state block of a call that keeps one, by its first slot.
abbrev pub state_operand : ℕ → List ℕ
state_operand state = if state == no_state then [] else state ∷ []

module _ {K : Field} where
  -- `Tape::pool`
  abbrev pub pool_at : Tape K → ℕ → ℕ → Option (List ℕ)
  pool_at t start len = slice t.arg_pool start len

  abbrev pub dense : Tape K → Src → ℕ → Option (List ℕ)
  dense t (Src.inputs k) len = some (map (λ j. j + input_tag) (range_from k len))
  dense t (Src.pool start) len = pool_at t start len
  dense t (Src.slots s) len = some (range_from s len)

  abbrev pub accum : Tape K → Option Accum → ℕ → Option (List ℕ)
  accum t none len = some []
  accum t (some a) len = elim a.c [ none ↦ some [] | some c ↦ dense t c len ]

  -- `Tape::for_each_operand`: what an op reads, in read order.
  unfoldable pub op_operands : Tape K → Op K → Option (List ℕ)
  op_operands t (Op.const v) = some []
  op_operands t (Op.neg a) = some (a ∷ [])
  op_operands t (Op.powi a n) = some (a ∷ [])
  op_operands t (Op.unary op a) = some (a ∷ [])
  op_operands t (Op.add a b) = some (a ∷ b ∷ [])
  op_operands t (Op.mul a b) = some (a ∷ b ∷ [])
  op_operands t (Op.sub a b) = some (a ∷ b ∷ [])
  op_operands t (Op.cmp op a b) = some (a ∷ b ∷ [])
  op_operands t (Op.binary op a b) = some (a ∷ b ∷ [])
  op_operands t (Op.mul_add a b c) = some (a ∷ b ∷ c ∷ [])
  op_operands t (Op.select c a b) = some (c ∷ a ∷ b ∷ [])
  op_operands t (Op.reduce op start len) = pool_at t start len
  op_operands t (Op.dot start len) = pool_at t start (2 * len)
  op_operands t (Op.call b start n_groups n_args n_in reads n_out state args) =
      both_lists (pool_at t start (n_groups * n_in)) (some (state_operand state))
  op_operands t (Op.call_prolog b start n_groups n_pure args) = pool_at t start (n_groups * n_pure)
  op_operands t (Op.gemv a x m n c) =
      both_lists (both_lists (dense t a (m * n)) (dense t x n)) (accum t c m)
  op_operands t (Op.gemm a b m k n c) =
      both_lists (both_lists (dense t a (m * k)) (dense t b (n * k))) (accum t c (m * n))
  op_operands t (Op.solve a b n k count) =
      both_lists (dense t a (count * n * n)) (dense t b (count * n * k))

  -- `Tape::width`: how many slots an op writes from its destination.
  unfoldable pub width : Tape K → Op K → ℕ
  width t (Op.call b start n_groups n_args n_in reads n_out state args) = n_groups * n_out
  width t (Op.call_prolog b start n_groups n_pure args) = state_slots n_groups (t.bundles b)
  width t (Op.gemv a x m n c) = m
  width t (Op.gemm a b m k n c) = m * n
  width t (Op.solve a b n k count) = count * n * k
  width t _ = 1

  -- A kernel's fold codes, one per entry.
  abbrev pub codes_at : Tape K → Option Accum → ℕ → Option (Option (List ℕ))
  codes_at t none len = some none
  codes_at t (some a) len = Option.map some (pool_at t a.codes len)

  abbrev pub reads_at : Tape K → ℕ → ℕ → Option (Option (List ℕ))
  reads_at t reads n_in =
      if reads == all_args then some none else Option.map some (pool_at t reads n_in)

  -- What an op computes, its operands apart.
  unfoldable pub kind_of : Tape K → Op K → Option (Kind K)
  kind_of t (Op.const v) = some (Kind.const v)
  kind_of t (Op.add a b) = some Kind.add
  kind_of t (Op.mul a b) = some Kind.mul
  kind_of t (Op.mul_add a b c) = some Kind.mul_add
  kind_of t (Op.sub a b) = some Kind.sub
  kind_of t (Op.neg a) = some Kind.neg
  kind_of t (Op.powi a n) = some (Kind.powi n)
  kind_of t (Op.unary op a) = some (Kind.unary op)
  kind_of t (Op.binary op a b) = some (Kind.binary op)
  kind_of t (Op.cmp op a b) = some (Kind.cmp op)
  kind_of t (Op.select c a b) = some Kind.select
  kind_of t (Op.reduce op start len) = some (Kind.reduce op)
  kind_of t (Op.dot start len) = some (Kind.dot len)
  kind_of t (Op.call b start n_groups n_args n_in reads n_out state args) =
      Option.map (λ r. Kind.call b u32_max n_groups n_args r (not (state == no_state)))
        (reads_at t reads n_in)
  kind_of t (Op.call_prolog b start n_groups n_pure args) =
      some (Kind.call_prolog b n_groups n_pure)
  kind_of t (Op.gemv a x m n c) = Option.map (Kind.gemv m n) (codes_at t c m)
  kind_of t (Op.gemm a b m k n c) = Option.map (Kind.gemm m k n) (codes_at t c (m * n))
  kind_of t (Op.solve a b n k count) = some (Kind.solve n k count)
