-- ===== src/Program.antt =====
-- The lowered program of a tape, crates/rsdag/src/tape/compile.rs: its instructions over a pool of
-- operands, and what they compute, as `Tape::scalar` and the kernels of
-- crates/rsdag/src/tape/mod.rs do.
pub mod Follow
pub mod Reach
pub mod Specialize
pub mod Decide
pub mod Compact
use mathlib.Core.Option
use rsdag.Prelude.{
  ℕ, ◌<◌, ◌≡◌, Bool, true, false, Option, none, some, List, [], ◌∷◌, map, length, get_elem?, get_or,
  ◌≢◌, slice, take, drop, All, if◌then◌else◌, ℤ,
}
use rsdag.Node.{UnaryOp, BinOp, CmpOp, ReduceOp}
use rsdag.Field.{Field}
use rsdag.Semantics.{Scalar, reduce_slice, dot_slice}

-- An operand of an instruction.
pub data Ref : Type 0 where
  value : ℕ → ℕ → Ref
  input : ℕ → Ref

-- What an instruction computes.
pub data Kind (K : Field) : Type 0 where
  const : K.Real → Kind K
  add mul mul_add sub neg : Kind K
  powi : ℤ → Kind K
  unary : UnaryOp → Kind K
  binary : BinOp → Kind K
  cmp : CmpOp → Kind K
  select : Kind K
  reduce : ReduceOp → Kind K
  dot : ℕ → Kind K
  -- Bundle, function, groups, arguments per group, the arguments read, and whether it is stateful.
  call : ℕ → ℕ → ℕ → ℕ → Option (List ℕ) → Bool → Kind K
  -- Bundle, groups, pure arguments per group.
  call_prolog : ℕ → ℕ → ℕ → Kind K
  gemv : ℕ → ℕ → Option (List ℕ) → Kind K
  gemm : ℕ → ℕ → ℕ → Option (List ℕ) → Kind K
  solve : ℕ → ℕ → ℕ → Kind K

-- Its operands are `pool[start .. start + len]`.
pub record Inst (K : Field) : Type 0 where
  pub kind : Kind K
  pub ins : ℕ × ℕ
  pub n_out : ℕ
  pub is_pure : Bool

-- The instructions, the operand pool and which value each root is; the place holder and the state
-- layout to keep. The bundles are what the kernels close over.
pub record Program (K : Field) : Type 0 where
  pub insts : List (Inst K)
  pub pool : List Ref
  pub roots : List Ref
  pub placeholder : Option ℕ
  pub state : Option (List ℕ × ℕ)

-- The blocks that kernels compute from their operands' values, and a call from its state's.
pub record Kernels {K : Field} (T : Scalar K) : Type 0 where
  pub block : Kind K → List T.Val → List T.Val → List T.Val

abbrev pub one_value : {A : Type 0} → Option A → Option (List A)
one_value o = Option.map (λ v. v ∷ []) o

module _ {K : Field} where
  -- `Program::ins` of an instruction.
  unfoldable pub ins_of : Program K → Inst K → Option (List Ref)
  ins_of p inst = slice p.pool inst.ins.0 inst.ins.1

  -- `p.ins(i)`
  unfoldable pub ins : Program K → ℕ → Option (List Ref)
  unfolding ins_of
  ins p i = Option.bind (get_elem? p.insts i) (ins_of p)

  unfoldable pub is_select : Kind K → Bool
  is_select Kind.select = true
  is_select _ = false

  unfoldable pub is_stateful : Kind K → Bool
  is_stateful (Kind.call _ _ _ _ _ b) = b
  is_stateful _ = false

  -- An op of a single value from single values; `none` where its operands are not there, or for a
  -- kernel.
  unfoldable pub scalar : (T : Scalar K) → Kind K → List T.Val → Option T.Val
  scalar T (Kind.const v) _ = some (T.from_f64 v)
  scalar T Kind.add (a ∷ b ∷ _) = some (T.add a b)
  scalar T Kind.mul (a ∷ b ∷ _) = some (T.mul a b)
  scalar T Kind.mul_add (a ∷ b ∷ c ∷ _) = some (T.add (T.mul a b) c)
  scalar T Kind.sub (a ∷ b ∷ _) = some (T.sub a b)
  scalar T Kind.neg (a ∷ _) = some (T.neg a)
  scalar T (Kind.powi n) (a ∷ _) = some (T.powi a n)
  scalar T (Kind.unary op) (a ∷ _) = some (T.unary op a)
  scalar T (Kind.binary op) (a ∷ b ∷ _) = some (T.binary op a b)
  scalar T (Kind.cmp op) (a ∷ b ∷ _) = some (T.cmp op a b)
  scalar T Kind.select (c ∷ t ∷ e ∷ _) = some (if T.is_true c then t else e)
  scalar T (Kind.reduce op) vs = some (reduce_slice T op vs)
  scalar T (Kind.dot n) vs = dot_slice T (take n vs) (drop n vs)
  scalar T _ _ = none

  -- The values that an instruction computes.
  unfoldable pub computed :
      (T : Scalar K) → Kernels T → Kind K → List T.Val → List T.Val → Option (List T.Val)
  unfolding scalar
  computed T ks (Kind.call b f n a r s) vs st = some (ks.block (Kind.call b f n a r s) vs st)
  computed T ks (Kind.call_prolog b n a) vs st = some (ks.block (Kind.call_prolog b n a) vs st)
  computed T ks (Kind.gemv m n acc) vs st = some (ks.block (Kind.gemv m n acc) vs st)
  computed T ks (Kind.gemm m k n acc) vs st = some (ks.block (Kind.gemm m k n acc) vs st)
  computed T ks (Kind.solve n k c) vs st = some (ks.block (Kind.solve n k c) vs st)
  computed T ks k vs st = one_value (scalar T k vs)

module _ {K : Field} (T : Scalar K) (ks : Kernels T) (inputs : ℕ → T.Val) where
  -- The value of an operand, from the blocks of values that the instructions computed.
  abbrev pub ref_value : (ℕ → List T.Val) → Ref → T.Val
  ref_value get (Ref.value i c) = get_or (get i) c T.nan
  ref_value get (Ref.input k) = inputs k

  abbrev pub block_at : (ℕ → List T.Val) → Ref → List T.Val
  block_at get (Ref.value i _) = get i
  block_at get (Ref.input k) = []

  -- The block of the last operand.
  abbrev pub last_block : (ℕ → List T.Val) → List Ref → List T.Val
  last_block get [] = []
  last_block get (r ∷ []) = block_at get r
  last_block get (r ∷ r' ∷ rs) = last_block get (r' ∷ rs)

  abbrev pub state_block : (ℕ → List T.Val) → Kind K → List Ref → List T.Val
  state_block get k rs = if is_stateful k then last_block get rs else []

  unfoldable pub inst_values : (ℕ → List T.Val) → Kind K → List Ref → Option (List T.Val)
  unfolding computed
  inst_values get k rs = computed T ks k (map (ref_value get) rs) (state_block get k rs)

  -- The value of each root.
  abbrev pub outputs : (ℕ → List T.Val) → Program K → List T.Val
  outputs get p = map (ref_value get) p.roots

  -- Every instruction's block holds what it computes from the blocks that it reads.
  pub record IsRun (p : Program K) (get : ℕ → List T.Val) : Type 0 where
    pub computes :
        (i : ℕ) (inst : Inst K) (rs : List Ref)
        → get_elem? p.insts i ≡ some inst
        → ins_of p inst ≡ some rs
        → inst_values get inst.kind rs ≡ some (get i)

-- What is placed is below the end.
abbrev pub IsPlaced : ℕ → Option ℕ → Type 0
IsPlaced n none = Unit
IsPlaced n (some i) = i < n

module _ {K : Field} (p : Program K) where
  abbrev pub kind_at : ℕ → Option (Kind K)
  kind_at i = Option.map (λ (inst : Inst K). inst.kind) (get_elem? p.insts i)

  -- An operand that an instruction below `n` computes; a select has one value.
  abbrev pub IsOlder : ℕ → Ref → Type 0
  IsOlder n (Ref.value j c) = (j < n) × (kind_at j ≡ some Kind.select → c ≡ 0)
  IsOlder n (Ref.input k) = Unit

  -- The operands of a select are its condition and its arms.
  abbrev pub HasArms : Kind K → List Ref → Type 0
  HasArms Kind.select rs = (c : Ref) × (t : Ref) × (e : Ref) × (rs ≡ c ∷ t ∷ e ∷ [])
  HasArms _ rs = Unit

  abbrev pub IsBlock : Ref → Type 0
  IsBlock (Ref.value j c) = kind_at j ≢ some Kind.select
  IsBlock (Ref.input k) = Unit

  -- The last operand is no select's value.
  abbrev pub EndsInBlock : List Ref → Type 0
  EndsInBlock [] = Unit
  EndsInBlock (r ∷ []) = IsBlock r
  EndsInBlock (r ∷ r' ∷ rs) = EndsInBlock (r' ∷ rs)

  -- Instructions stand in a dependency order and read what exists; the placeholder is one of them.
  pub record IsProgram : Type 0 where
    pub ordered :
        (i : ℕ) (inst : Inst K)
        → get_elem? p.insts i ≡ some inst
        → (rs : List Ref) × (ins_of p inst ≡ some rs) × All (IsOlder i) rs × HasArms inst.kind rs
    pub states :
        (i : ℕ) (inst : Inst K) (rs : List Ref)
        → get_elem? p.insts i ≡ some inst
        → ins_of p inst ≡ some rs
        → is_stateful inst.kind ≡ true
        → EndsInBlock rs
    pub roots : All (IsOlder (length p.insts)) p.roots
    pub placeholder : IsPlaced (length p.insts) p.placeholder
