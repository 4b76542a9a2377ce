-- ===== src/Node/Operands.antt =====
-- The operands of a node and its rebuilding over others: `Node::operands`, `Node::with_operands`,
-- `Node::is_variadic` of crates/rsdag/src/node.rs. A slice out of the pool's range is a panic.
use rsdag.Prelude.{
  ◌++◌, ◌+◌, ◌≡◌, Bool, true, false, Option, none, some, List, [], ◌∷◌, length, take, drop, leb,
  if◌then◌else◌, arith, length-take, length-drop, length-append, take-drop-append, take-drop-end,
  IsPrefix, Bool-cases, inl, inr,
}
use rsdag.Node.{ExprId, ArgList, Node}

-- `&pool[l.start..l.start + l.len]`
unfoldable pub window : List ExprId → ArgList → Option (List ExprId)
window pool l =
    if leb (l.start + l.len) (length pool) then some (take l.len (drop l.start pool)) else none

unfoldable pub operands : Node → List ExprId → Option (List ExprId)
operands (Node.const _) pool = some []
operands (Node.symbol _) pool = some []
operands (Node.add a b) pool = some (a ∷ b ∷ [])
operands (Node.mul a b) pool = some (a ∷ b ∷ [])
operands (Node.neg a) pool = some (a ∷ [])
operands (Node.pow a _) pool = some (a ∷ [])
operands (Node.unary _ a) pool = some (a ∷ [])
operands (Node.binary _ a b) pool = some (a ∷ b ∷ [])
operands (Node.cmp _ a b) pool = some (a ∷ b ∷ [])
operands (Node.select c t e) pool = some (c ∷ t ∷ e ∷ [])
operands (Node.reduce _ l) pool = window pool l
operands (Node.dot l) pool = window pool l
operands (Node.solve l _) pool = window pool l
operands (Node.call _ l) pool = window pool l

unfoldable pub is_variadic : Node → Bool
is_variadic (Node.reduce _ _) = true
is_variadic (Node.dot _) = true
is_variadic (Node.solve _ _) = true
is_variadic (Node.call _ _) = true
is_variadic _ = false

-- `ops[i]` panics where there is no operand `i`.
with_one : (ExprId → Node) → List ExprId → Option Node
with_one f (a ∷ _) = some (f a)
with_one f _ = none

with_two : (ExprId → ExprId → Node) → List ExprId → Option Node
with_two f (a ∷ b ∷ _) = some (f a b)
with_two f _ = none

with_three : (ExprId → ExprId → ExprId → Node) → List ExprId → Option Node
with_three f (a ∷ b ∷ c ∷ _) = some (f a b c)
with_three f _ = none

unfoldable pub with_operands : Node → List ExprId → ArgList → Option Node
unfolding with_one with_two with_three
with_operands (Node.const c) ops l = some (Node.const c)
with_operands (Node.symbol s) ops l = some (Node.symbol s)
with_operands (Node.add _ _) ops l = with_two Node.add ops
with_operands (Node.mul _ _) ops l = with_two Node.mul ops
with_operands (Node.neg _) ops l = with_one Node.neg ops
with_operands (Node.pow _ n) ops l = with_one (λ a. Node.pow a n) ops
with_operands (Node.unary op _) ops l = with_one (Node.unary op) ops
with_operands (Node.binary op _ _) ops l = with_two (Node.binary op) ops
with_operands (Node.cmp op _ _) ops l = with_two (Node.cmp op) ops
with_operands (Node.select _ _ _) ops l = with_three Node.select ops
with_operands (Node.reduce op _) ops l = some (Node.reduce op l)
with_operands (Node.dot _) ops l = some (Node.dot l)
with_operands (Node.solve _ i) ops l = some (Node.solve l i)
with_operands (Node.call o _) ops l = some (Node.call o l)

-- The operand list a node reads, none for a node of fixed arity.
unfoldable pub list_of : Node → Option ArgList
list_of (Node.reduce _ l) = some l
list_of (Node.dot l) = some l
list_of (Node.solve l _) = some l
list_of (Node.call _ l) = some l
list_of _ = none

-- A node rebuilt over its own operands, a variadic one over its own list, is the node.
pub with_operands-operands :
    (n : Node) (pool : List ExprId) (l : ArgList) {ops : List ExprId}
    → operands n pool ≡ some ops
    → (is_variadic n ≡ true → list_of n ≡ some l)
    → with_operands n ops l ≡ some n
unfolding operands is_variadic with_operands list_of
with_operands-operands n pool l h v = ground arith

-- Over other operands of the same number a node of fixed arity reads exactly those, and a variadic
-- one reads the window of the list that it is given.
pub operands-with_operands :
    (n m : Node) (pool ops : List ExprId) (l : ArgList) {old : List ExprId}
    → operands n pool ≡ some old
    → length ops ≡ length old
    → with_operands n ops l ≡ some m
    → operands m pool ≡ (if is_variadic n then window pool l else some ops)
unfolding operands is_variadic with_operands
operands-with_operands n m pool ops l h e w = ground arith

-- A window that lies in the pool has the length it states.
pub length-window :
    (pool : List ExprId) (l : ArgList) {xs : List ExprId}
    → window pool l ≡ some xs
    → length xs ≡ l.len
unfolding window
length-window pool l {xs} h = elim (Bool-cases (leb (l.start + l.len) (length pool))) [
  | inl e ↦ ground (arith, length-take l.len (drop l.start pool), length-drop l.start pool)
  | inr e ↦ ground arith
]

-- A window that lies in a pool is the same in every pool that grows from it.
pub window_prefix :
    {p q : List ExprId}
    → IsPrefix p q
    → (l : ArgList) {es : List ExprId} → window p l ≡ some es
    → window q l ≡ some es
unfolding window
window_prefix {p} x l h =
    rw x.split (ground (arith, take-drop-append p x.rest l.start l.len, length-append p x.rest))

-- The window of what was appended to the pool.
pub window-append :
    (pool es : List ExprId)
    → window (pool ++ es) (record { start = length pool; len = length es }) ≡ some es
unfolding window
window-append pool es = ground (arith, length-append pool es, take-drop-end pool es)
