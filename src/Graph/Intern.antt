-- ===== src/Graph/Intern.antt =====
-- The arenas and their indices: `Graph::intern`, `Graph::intern_args`, `Graph::shape_of`, the
-- readers and the leaf constructors of crates/rsdag/src/graph/mod.rs. An id is a `u32`: the length
-- of the arena wraps. An index past an arena's end panics.
pub mod Total
pub mod Sound
pub mod Lists
pub mod Leaves
pub mod New
pub mod Unique
pub mod Correct
use rsdag.Prelude.{
  ℕ, ◌-◌, ◌%◌, ◌^◌, List, [], ◌∷◌, ◌++◌, length, get_elem?, Option, none, some, State, pure, read,
  ◌>>=◌, find, ℤ, String, min, max, pos, negsuc,
}
use rsdag.Node.{ExprId, ConstId, SymbolId, OutputId, ArgList, Node, CmpOp, ReduceOp}
use rsdag.Node.Eq.{Node-discrete, List-discrete, Site-discrete, String-discrete}
use rsdag.Node.Ops.{unary_code, binary_code}
use rsdag.Node.Shape.{Tag, tag, mix}
use rsdag.Node.Operands.{window}
use rsdag.Field.{Field}
use rsdag.Graph.{Graph, no_context}

-- `self.nodes.len() as u32`
abbrev pub u32 : ℕ → ℕ
u32 n = n % 2 ^ 32

-- `n as u64` of an `i64`: the two's complement bits.
unfoldable pub as_u64 : ℤ → ℕ
as_u64 (pos n) = n % 2 ^ 64
as_u64 (negsuc n) = (2 ^ 64 - 1) - n % 2 ^ 64

unfoldable pub cmp_code : CmpOp → ℕ
cmp_code CmpOp.gt = 0
cmp_code CmpOp.ge = 1
cmp_code CmpOp.lt = 2
cmp_code CmpOp.le = 3
cmp_code CmpOp.eq = 4
cmp_code CmpOp.ne = 5

unfoldable pub reduce_code : ReduceOp → ℕ
reduce_code ReduceOp.sum = 0
reduce_code ReduceOp.product = 1
reduce_code ReduceOp.min = 2
reduce_code ReduceOp.max = 3

module _ {K : Field} where
  -- `self.node(id)`
  unfoldable pub node : ExprId → State (Graph K) Node
  node e = read λ g. get_elem? g.nodes e

  -- `self.args(l)`
  unfoldable pub args : ArgList → State (Graph K) (List ExprId)
  args l = read λ g. window g.arg_pool l

  -- `self.shape[e.0 as usize]`
  unfoldable pub fingerprint : ExprId → State (Graph K) ℕ
  fingerprint e = read λ g. get_elem? g.shape e

  -- `self.const_of(id)` of a node already read.
  unfoldable pub const_at : Node → State (Graph K) (Option K.Const)
  const_at (Node.const c) = do r ← read λ g. get_elem? g.consts c; pure (some r)
  const_at _ = pure none

  unfoldable pub const_of : ExprId → State (Graph K) (Option K.Const)
  unfolding node const_at
  const_of e = do n ← node e; const_at n

  -- The fold of a list's fingerprints onto `h`.
  unfoldable pub mix_list : ℕ → List ExprId → State (Graph K) ℕ
  unfolding fingerprint
  mix_list h [] = pure h
  mix_list h (e ∷ es) = do f ← fingerprint e; mix_list (mix h f) es

  mix_args : ℕ → ArgList → State (Graph K) ℕ
  unfolding args mix_list
  mix_args h l = do es ← args l; mix_list h es

  -- The pair of a commutative node in fingerprint order.
  mix_pair : Tag → ExprId → ExprId → State (Graph K) ℕ
  unfolding fingerprint
  mix_pair t a b = do
    x ← fingerprint a
    y ← fingerprint b
    pure (mix (mix (tag t) (min x y)) (max x y))

  -- `self.list_shape[&(self.output_ctx[o], l)]` under the callee's name and output.
  mix_call : OutputId → ArgList → State (Graph K) ℕ
  mix_call o l = do
    (f, k) ← read λ g. get_elem? g.outputs o
    fn ← read λ g. get_elem? g.funcs f
    c ← read λ g. get_elem? g.output_ctx o
    operands ← read λ g. find Site-discrete (c, l) g.list_shape
    pure (mix (mix (tag Tag.call) (mix (K.hash_text (fn.name)) k)) operands)

  unfoldable pub shape_of : Node → State (Graph K) ℕ
  unfolding fingerprint mix_args mix_pair mix_call
  shape_of (Node.const c) = do
    r ← read λ g. get_elem? g.consts c
    pure (mix (tag Tag.const) (K.stable_hash r))
  shape_of (Node.symbol s) = do
    name ← read λ g. get_elem? g.symbol_names s
    pure (mix (tag Tag.symbol) (K.hash_text name))
  shape_of (Node.add a b) = mix_pair Tag.add a b
  shape_of (Node.mul a b) = mix_pair Tag.mul a b
  shape_of (Node.neg a) = do x ← fingerprint a; pure (mix (tag Tag.neg) x)
  shape_of (Node.pow a n) = do x ← fingerprint a; pure (mix (mix (tag Tag.pow) (as_u64 n)) x)
  shape_of (Node.unary op a) = do
    x ← fingerprint a
    pure (mix (mix (tag Tag.unary) (unary_code op)) x)
  shape_of (Node.binary op a b) = do
    x ← fingerprint a
    y ← fingerprint b
    pure (mix (mix (mix (tag Tag.binary) (binary_code op)) x) y)
  shape_of (Node.cmp op a b) = do
    x ← fingerprint a
    y ← fingerprint b
    pure (mix (mix (mix (tag Tag.cmp) (cmp_code op)) x) y)
  shape_of (Node.select c t e) = do
    x ← fingerprint c
    y ← fingerprint t
    z ← fingerprint e
    pure (mix (mix (mix (tag Tag.select) x) y) z)
  shape_of (Node.reduce op l) = mix_args (mix (tag Tag.reduce) (reduce_code op)) l
  shape_of (Node.dot l) = mix_args (mix (tag Tag.dot) 0) l
  shape_of (Node.solve l k) = mix_args (mix (tag Tag.solve) k) l
  shape_of (Node.call o l) = mix_call o l

  push_node : Node → ℕ → State (Graph K) ExprId
  push_node n s g = some (
    u32 (length g.nodes),
    record g {
      nodes = g.nodes ++ n ∷ [];
      shape = g.shape ++ s ∷ [];
      dedup = (n, u32 (length g.nodes)) ∷ g.dedup;
    },
  )

  intern_found : Node → Option ExprId → State (Graph K) ExprId
  unfolding push_node
  intern_found n (some id) = pure id
  intern_found n none = do s ← shape_of n; push_node n s

  -- Intern a node, reusing an existing id if structurally identical.
  unfoldable pub intern : Node → State (Graph K) ExprId
  unfolding intern_found
  intern n g = intern_found n (find Node-discrete n g.dedup) g

  window_at_end : List ExprId → Graph K → ArgList
  window_at_end es g = record { start = u32 (length g.arg_pool); len = u32 (length es) }

  enter_args : List ExprId → ArgList → ℕ → State (Graph K) ArgList
  enter_args es l s g = some (
    l,
    record g {
      arg_pool = g.arg_pool ++ es;
      arg_dedup = (es, l) ∷ g.arg_dedup;
      list_shape = ((no_context, l), s) ∷ g.list_shape;
    },
  )

  push_args : List ExprId → ArgList → State (Graph K) ArgList
  unfolding mix_list enter_args
  push_args es l = do s ← mix_list 0 es; enter_args es l s

  args_found : List ExprId → Option ArgList → State (Graph K) ArgList
  unfolding push_args window_at_end
  args_found es (some l) g = some (l, g)
  args_found es none g = push_args es (window_at_end es g) g

  -- Intern an operand list by content.
  unfoldable pub intern_args : List ExprId → State (Graph K) ArgList
  unfolding args_found
  intern_args es g = args_found es (find List-discrete es g.arg_dedup) g

  const_found : K.Const → Option ConstId → State (Graph K) ConstId
  const_found r (some c) g = some (c, g)
  const_found r none g = some (
    u32 (length g.consts),
    record g {
      consts = g.consts ++ r ∷ [];
      const_dedup = (r, u32 (length g.consts)) ∷ g.const_dedup;
    },
  )

  const_id : K.Const → State (Graph K) ConstId
  unfolding const_found
  const_id r g = const_found r (find K.const_discrete r g.const_dedup) g

  unfoldable pub konst : K.Const → State (Graph K) ExprId
  unfolding const_id intern
  konst r = do c ← const_id r; intern (Node.const c)

  symbol_found : String → Option SymbolId → State (Graph K) SymbolId
  symbol_found name (some s) g = some (s, g)
  symbol_found name none g = some (
    u32 (length g.symbol_names),
    record g {
      symbol_names = g.symbol_names ++ name ∷ [];
      symbol_ids = (name, u32 (length g.symbol_names)) ∷ g.symbol_ids;
    },
  )

  symbol_of_name : String → State (Graph K) SymbolId
  unfolding symbol_found
  symbol_of_name name g = symbol_found name (find String-discrete name g.symbol_ids) g

  -- Look up or create a free symbol by name.
  unfoldable pub sym : String → State (Graph K) ExprId
  unfolding symbol_of_name intern
  sym name = do s ← symbol_of_name name; intern (Node.symbol s)
