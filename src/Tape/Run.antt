-- ===== src/Tape/Run.antt =====
-- The evaluation of a tape, crates/rsdag/src/tape/mod.rs: `read`, `Tape::scalar`, `run_range` and
-- `eval_with`. A stage's calls and a region's pieces run in op order.
use mathlib.Core.Option
use rsdag.Prelude.{
  ◌≡◌, refl, ap, ℕ, zero, suc, ◌+◌, ◌-◌, ◌*◌, Bool, true, false, Option, none, some, List, [], ◌∷◌,
  ◌++◌, length, get_elem?, get_or, slice, take, drop, leb, ◌==◌, ◌&&◌, if◌then◌else◌, write_block,
}
use rsdag.Field.{Field}
use rsdag.Semantics.{Scalar, reduce_slice, dot_slice}
use rsdag.Program.{Kernels, computed}
use rsdag.Program.Specialize.{byte}
use rsdag.Tape.{Op, Tape, input_index, pool_at, op_operands, width, kind_of, state_slots, no_state}

-- Every value, a panic where one is missing.
unfoldable pub read_all : {A B : Type 0} → (A → Option B) → List A → Option (List B)
read_all g [] = some []
read_all g (k ∷ ks) = Option.bind (g k) (λ v. Option.map (λ vs. v ∷ vs) (read_all g ks))

abbrev pub lift1 : {A B : Type 0} → (A → B) → Option A → Option B
lift1 f a = Option.map f a

abbrev pub lift2 : {A B : Type 0} → (A → A → B) → Option A → Option A → Option B
lift2 f a b = Option.bind a (λ x. Option.map (f x) b)

abbrev pub lift3 : {A B : Type 0} → (A → A → A → B) → Option A → Option A → Option A → Option B
lift3 f a b c = Option.bind a (λ x. Option.bind b (λ y. Option.map (f x y) c))

module _ {K : Field} (T : Scalar K) where
  -- The inputs as a program reads them.
  abbrev pub inputs_at : List T.Val → ℕ → T.Val
  inputs_at inputs i = get_or inputs i T.nan

  -- `read`: a slot, or an input when tagged; a missing input is `NaN`.
  unfoldable pub read : List T.Val → List T.Val → ℕ → Option T.Val
  read inputs work k = elim (input_index k) [
    | none ↦ get_elem? work k
    | some i ↦ some (get_or inputs i T.nan)
  ]

  -- `Tape::scalar`: an op of a single value over the operands that `g` reads.
  unfoldable pub op_scalar : Tape K → (ℕ → Option T.Val) → Op K → Option T.Val
  unfolding read_all
  op_scalar t g (Op.const v) = some (T.from_f64 v)
  op_scalar t g (Op.add a b) = lift2 T.add (g a) (g b)
  op_scalar t g (Op.mul a b) = lift2 T.mul (g a) (g b)
  op_scalar t g (Op.mul_add a b c) = lift3 (λ x y z. T.add (T.mul x y) z) (g a) (g b) (g c)
  op_scalar t g (Op.sub a b) = lift2 T.sub (g a) (g b)
  op_scalar t g (Op.neg a) = lift1 T.neg (g a)
  op_scalar t g (Op.powi a n) = lift1 (λ x. T.powi x n) (g a)
  op_scalar t g (Op.unary op a) = lift1 (T.unary op) (g a)
  op_scalar t g (Op.binary op a b) = lift2 (T.binary op) (g a) (g b)
  op_scalar t g (Op.cmp op a b) = lift2 (T.cmp op) (g a) (g b)
  op_scalar t g (Op.select c a b) = Option.bind (g c) (λ x. if T.is_true x then g a else g b)
  op_scalar t g (Op.reduce op start len) =
      Option.map (reduce_slice T op) (Option.bind (pool_at t start len) (read_all g))
  op_scalar t g (Op.dot start len) =
      Option.bind (Option.bind (pool_at t start (2 * len)) (read_all g))
        (λ vs. dot_slice T (take len vs) (drop len vs))
  op_scalar t g _ = none

  -- The state that a call works over.
  abbrev pub state_of : Tape K → List T.Val → Op K → Option (List T.Val)
  state_of t work (Op.call b start n_groups n_args n_in reads n_out state args) =
      if state == no_state then some [] else slice work state (state_slots n_groups (t.bundles b))
  state_of t work _ = some []

  -- Whether an op is a kernel's.
  abbrev pub is_kernel : Op K → Bool
  is_kernel (Op.call _ _ _ _ _ _ _ _ _) = true
  is_kernel (Op.call_prolog _ _ _ _ _) = true
  is_kernel (Op.gemv _ _ _ _ _) = true
  is_kernel (Op.gemm _ _ _ _ _ _) = true
  is_kernel (Op.solve _ _ _ _ _) = true
  is_kernel _ = false

  -- What an op writes; a kernel gathers its operands and its state.
  unfoldable pub op_values :
      Kernels T → Tape K → List T.Val → List T.Val → Op K → Option (List T.Val)
  unfolding op_scalar read computed
  op_values ks t inputs work op =
      if is_kernel op
      then Option.bind (kind_of t op) (λ k.
        Option.bind (Option.bind (op_operands t op) (read_all (read inputs work)))
          (λ vs. Option.bind (state_of t work op) (λ st. computed T ks k vs st)))
      else Option.map (λ v. v ∷ []) (op_scalar t (read inputs work) op)

  -- What a sink that records receives: one byte per select.
  abbrev pub choices_of : (ℕ → Option T.Val) → Op K → List ℕ
  choices_of g (Op.select c a b) = elim (g c) [ none ↦ [] | some v ↦ byte (T.is_true v) ∷ [] ]
  choices_of g _ = []

  abbrev pub traced : List ℕ → Option (List T.Val × List ℕ) → Option (List T.Val × List ℕ)
  traced bytes none = none
  traced bytes (some (work, trace)) = some (work, bytes ++ trace)

  -- The values to their block, which they fill; a panic out of range.
  abbrev pub store :
      Option (List T.Val)
      → List ℕ
      → ℕ
      → ℕ
      → List T.Val
      → (List T.Val → Option (List T.Val × List ℕ))
      → Option (List T.Val × List ℕ)
  store none bytes d w work then_run = none
  store (some vs) bytes d w work then_run =
      if (length vs == w) && leb (d + w) (length work)
      then traced bytes (then_run (write_block vs d work))
      else none

  -- Ops with their destinations, one after the other.
  unfoldable pub exec :
      Kernels T
      → Tape K
      → List T.Val
      → List (Op K)
      → List ℕ
      → List T.Val
      → Option (List T.Val × List ℕ)
  unfolding op_values read
  exec ks t inputs [] dst work = some (work, [])
  exec ks t inputs (op ∷ ops) [] work = none
  exec ks t inputs (op ∷ ops) (d ∷ dst) work =
      store (op_values ks t inputs work op) (choices_of (read inputs work) op) d (width t op) work
        (exec ks t inputs ops dst)

  -- `Tape::run_range`
  unfoldable pub run_range :
      Kernels T → Tape K → List T.Val → List T.Val → ℕ → ℕ → Option (List T.Val × List ℕ)
  unfolding exec
  run_range ks t inputs work lo hi =
      exec ks t inputs (take (hi - lo) (drop lo t.ops)) (take (hi - lo) (drop lo t.dst)) work

  -- `work.resize(n, 0)` where it is shorter.
  abbrev pub zeros : ℕ → List T.Val
  zeros zero = []
  zeros (suc n) = T.zero ∷ zeros n

  pub length-zeros : (n : ℕ) → length (zeros n) ≡ n
  length-zeros zero = refl
  length-zeros (suc n) = ap suc (length-zeros n)

  abbrev pub grown : List T.Val → ℕ → List T.Val
  grown work n = work ++ zeros (n - length work)

  abbrev pub buffer_len : Tape K → ℕ
  buffer_len t = t.n_work + t.max_args + t.lent

  -- `Tape::collect`
  abbrev pub collect_outputs : Tape K → List T.Val → List T.Val → Option (List T.Val)
  collect_outputs t inputs work = read_all (read inputs work) t.outputs

  -- `Tape::eval_with`, with a sink that records: the outputs and the trace.
  unfoldable pub eval_with :
      Kernels T → Tape K → List T.Val → List T.Val → Option (List T.Val × List ℕ)
  unfolding run_range read_all read
  eval_with ks t inputs work =
      Option.bind
        (run_range ks t inputs (take t.n_work (grown work (buffer_len t))) 0 (length t.ops))
        (λ (slots, trace). Option.map (λ out. (out, trace)) (collect_outputs t inputs slots))
