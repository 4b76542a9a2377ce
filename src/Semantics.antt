-- ===== src/Semantics.antt =====
-- The execution scalar (the trait `Scalar` of crates/rsdag/src/scalar.rs) and the reference folds of
-- crates/rsdag/src/semantics.rs. A type that implements the trait is a value of the record.
pub mod Folds
pub mod Dot
use mathlib.Core.Option
use rsdag.Prelude.{
  ℕ, ◌+◌, ◌%◌, ◌^◌, ◌-◌, ℤ, pos, negsuc, ltb, if◌then◌else◌, Bool, Option, none, some, List, [],
  ◌∷◌,
}
use rsdag.Node.{UnaryOp, BinOp, CmpOp, ReduceOp}
use rsdag.Field.{Field}

pub record Scalar (K : Field) : Type 1 where
  pub Val : Type 0
  pub zero : Val
  pub one : Val
  pub nan : Val
  -- `f64::INFINITY`, `f64::NEG_INFINITY`
  pub infinity : K.Real
  pub neg_infinity : K.Real
  pub from_f64 : K.Real → Val
  pub add : Val → Val → Val
  pub mul : Val → Val → Val
  pub sub : Val → Val → Val
  pub neg : Val → Val
  pub powi : Val → ℤ → Val
  pub unary : UnaryOp → Val → Val
  pub binary : BinOp → Val → Val → Val
  pub cmp : CmpOp → Val → Val → Val
  pub is_true : Val → Bool
  pub min : Val → Val → Val
  pub max : Val → Val → Val

-- `k as i32` of an `i64`.
unfoldable pub as_i32 : ℤ → ℤ
as_i32 (pos n) =
    if ltb (n % 2 ^ 32) (2 ^ 31) then pos (n % 2 ^ 32) else negsuc (2 ^ 32 - 1 - n % 2 ^ 32)
as_i32 (negsuc n) =
    if ltb (n % 2 ^ 32) (2 ^ 31) then negsuc (n % 2 ^ 32) else pos (2 ^ 32 - 1 - n % 2 ^ 32)

module _ {A : Type 0} (f : A → A → A) where
  -- The rest of a list behind its last full chunk, one by one.
  fold_rest : A → List A → A
  fold_rest acc [] = acc
  fold_rest acc (x ∷ xs) = fold_rest (f acc x) xs

  -- Four accumulators over chunks of four, joined in pairs, then the rest.
  unfoldable pub fold_lanes : A → A → A → A → List A → A
  unfolding fold_rest
  fold_lanes a b c d (x ∷ y ∷ z ∷ w ∷ xs) = fold_lanes (f a x) (f b y) (f c z) (f d w) xs
  fold_lanes a b c d xs = fold_rest (f (f a b) (f c d)) xs

  -- The first element, then the others onto it.
  unfoldable pub fold_first : A → List A → A
  unfolding fold_rest
  fold_first empty [] = empty
  fold_first empty (x ∷ xs) = fold_rest x xs

module _ {K : Field} (T : Scalar K) where
  unfoldable pub reduce_slice : ReduceOp → List T.Val → T.Val
  unfolding fold_lanes fold_first
  reduce_slice ReduceOp.sum xs = fold_lanes T.add T.zero T.zero T.zero T.zero xs
  reduce_slice ReduceOp.product xs = fold_lanes T.mul T.one T.one T.one T.one xs
  reduce_slice ReduceOp.min xs = fold_first T.min (T.from_f64 T.infinity) xs
  reduce_slice ReduceOp.max xs = fold_first T.max (T.from_f64 T.neg_infinity) xs

  -- The products of two lists, a panic where `b` is shorter.
  unfoldable pub products : List T.Val → List T.Val → Option (List T.Val)
  products [] bs = some []
  products (a ∷ xs) [] = none
  products (a ∷ xs) (b ∷ bs) = Option.map (λ ps. T.mul a b ∷ ps) (products xs bs)

  -- The inner product, the same order over the products.
  unfoldable pub dot_slice : List T.Val → List T.Val → Option T.Val
  unfolding products fold_lanes
  dot_slice xs bs = Option.map (fold_lanes T.add T.zero T.zero T.zero T.zero) (products xs bs)
