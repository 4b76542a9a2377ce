-- ===== src/Tests/Mod3.antt =====
-- The field of three elements, small enough to be checked case by case, as a field of constants
-- that folds functions, and the scalar that computes in it.
use rsdag.Prelude.{
  sym, ℕ, ◌≡◌, ◌≢◌, refl, true, false, not, Option, none, some, ℤ, pos, negsuc, ◌%◌, suc, zero,
  ◌==◌, if◌then◌else◌, compare, Ordering, arith,
}
use rsdag.Node.{UnaryOp}
use rsdag.Field.{Field}
use rsdag.Semantics.{Scalar}
use rsdag.Graph.Build.{cmp_ordering}
use rsdag.Graph.Denotes.{IsExact, ReadsTruth}
use rsdag.Graph.Meaning.{Closures}
use rsdag.Graph.Elementary.{unary_fold}
use rsdag.Graph.Elementary.Unary.{UnaryLaws}

pub data Mod3 : Type 0 where
  nought one two : Mod3

Mod3-decides : Discrete Mod3
Mod3-decides = hlevel

unfoldable pub Mod3-discrete : Discrete Mod3
unfolding Mod3-decides
Mod3-discrete = Mod3-decides

abbrev pub residue : Mod3 → ℕ
residue nought = 0
residue one = 1
residue two = 2

abbrev pub of_residue : ℕ → Mod3
of_residue zero = nought
of_residue (suc zero) = one
of_residue (suc (suc _)) = two

abbrev pub add3 : Mod3 → Mod3 → Mod3
add3 nought y = y
add3 x nought = x
add3 one one = two
add3 one two = nought
add3 two one = nought
add3 two two = one

abbrev pub mul3 : Mod3 → Mod3 → Mod3
mul3 nought y = nought
mul3 one y = y
mul3 two nought = nought
mul3 two one = two
mul3 two two = one

abbrev pub neg3 : Mod3 → Mod3
neg3 nought = nought
neg3 one = two
neg3 two = one

abbrev odd_power : ℕ → Mod3
odd_power n = if n % 2 == 0 then one else two

-- Zero to a negative power is zero in the scalar, and left unfolded by the field.
abbrev pow3 : Mod3 → ℤ → Mod3
pow3 nought (pos n) = if n == 0 then one else nought
pow3 nought (negsuc n) = nought
pow3 one k = one
pow3 two (pos n) = odd_power n
pow3 two (negsuc n) = odd_power (suc n)

abbrev const_pow3 : Mod3 → ℤ → Option Mod3
const_pow3 nought (negsuc n) = none
const_pow3 x k = some (pow3 x k)

-- Functions that satisfy what is relied on of them: they map zero and one as the real ones do.
abbrev pub unary3 : UnaryOp → Mod3 → Mod3
unary3 UnaryOp.exp x = one
unary3 UnaryOp.cos x = one
unary3 UnaryOp.cosh x = one
unary3 UnaryOp.ln x = nought
unary3 UnaryOp.abs nought = nought
unary3 UnaryOp.abs _ = one
unary3 UnaryOp.sqrt nought = nought
unary3 UnaryOp.sqrt _ = one
unary3 _ x = x

abbrev int3 : ℤ → Mod3
int3 (pos n) = of_residue (n % 3)
int3 (negsuc n) = neg3 (of_residue (suc n % 3))

abbrev compare3 : Mod3 → Mod3 → Ordering
compare3 x y = compare (residue x) (residue y)

abbrev pub mod3_field : Field
mod3_field = record {
  Const = Mod3;
  Real = Mod3;
  const_discrete = Mod3-discrete;
  zero = nought;
  one = one;
  from_i64 = int3;
  from_ratio = λ p q. mul3 (int3 p) (int3 q);
  from_f64 = λ x. some x;
  to_f64 = λ r. r;
  add = add3;
  mul = mul3;
  neg = neg3;
  powi = const_pow3;
  is_zero = λ r. residue r == 0;
  is_one = λ r. residue r == 1;
  is_exact = false;
  partial_cmp = λ x y. some (compare3 x y);
  stable_hash = residue;
  real_bits = residue;
  real_of_int = int3;
  int_of_real = λ x. pos (residue x);
  real_is_whole = λ x. true;
  real_is_small = λ x. true;
  real_nan = nought;
  real_is_nan = λ x. false;
  unary_f64 = unary3;
  binary_f64 = λ op x y. x;
  hash_text = λ s. 7;
}

abbrev pub mod3_scalar : Scalar mod3_field
mod3_scalar = record {
  Val = Mod3;
  zero = nought;
  one = one;
  nan = nought;
  infinity = two;
  neg_infinity = nought;
  from_f64 = λ x. x;
  add = add3;
  mul = mul3;
  sub = λ x y. add3 x (neg3 y);
  neg = neg3;
  powi = pow3;
  unary = unary3;
  binary = λ op x y. x;
  cmp = λ op x y. if cmp_ordering op (some (compare3 x y)) then one else nought;
  is_true = λ x. not (residue x == 0);
  min = λ x y. x;
  max = λ x y. y;
}

abbrev pub mod3_closures : Closures mod3_scalar
mod3_closures = record {
  sym = λ s. of_residue (s % 3);
  call = λ o l vs. nought;
  solve = λ l vs i. nought;
}

pub add3_comm : (x y : Mod3) → add3 x y ≡ add3 y x
add3_comm x y = ground arith

pub add3_assoc : (x y z : Mod3) → add3 (add3 x y) z ≡ add3 x (add3 y z)
add3_assoc x y z = ground arith

pub mul3_comm : (x y : Mod3) → mul3 x y ≡ mul3 y x
mul3_comm x y = ground arith

mul3_assoc : (x y z : Mod3) → mul3 (mul3 x y) z ≡ mul3 x (mul3 y z)
mul3_assoc x y z = ground arith

neg3_neg : (x : Mod3) → neg3 (neg3 x) ≡ x
neg3_neg x = ground arith

-- Arithmetic in the field of three elements is exact.
pub mod3_exact : IsExact mod3_scalar
mod3_exact = record {
  add_comm = add3_comm;
  add_assoc = add3_assoc;
  zero_add = λ x. refl;
  mul_comm = mul3_comm;
  mul_assoc = mul3_assoc;
  one_mul = λ x. refl;
  zero_mul = λ x. refl;
  neg_neg = neg3_neg;
  neg_zero = refl;
  embed_zero = refl;
  embed_one = refl;
  embed_add = λ r s. refl;
  embed_mul = λ r s. refl;
  embed_neg = λ r. refl;
  embed_cmp = λ op r s. refl;
}

pub mod3_truth : ReadsTruth mod3_scalar
mod3_truth r = refl

pub zero-ne-one : nought ≢ one
zero-ne-one = cc

abs_abs3 : (x : Mod3) → unary3 UnaryOp.abs (unary3 UnaryOp.abs x) ≡ unary3 UnaryOp.abs x
abs_abs3 x = ground arith

abs_sqrt3 : (x : Mod3) → unary3 UnaryOp.abs (unary3 UnaryOp.sqrt x) ≡ unary3 UnaryOp.sqrt x
abs_sqrt3 x = ground arith

abs_neg3 : (x : Mod3) → unary3 UnaryOp.abs (neg3 x) ≡ unary3 UnaryOp.abs x
abs_neg3 x = ground arith

folds3 : (op : UnaryOp) (r v : Mod3) → unary_fold mod3_field op r ≡ some v → v ≡ unary3 op r
unfolding unary_fold
folds3 op r v h = some_inj (sym h)
  where
    some_inj : {x y : Mod3} → some x ≡ some y → x ≡ y
    some_inj p = cc

pub mod3_unary : UnaryLaws mod3_scalar
mod3_unary = record {
  exp_zero = refl;
  ln_one = refl;
  sin_zero = refl;
  cos_zero = refl;
  sinh_zero = refl;
  cosh_zero = refl;
  tanh_zero = refl;
  sqrt_zero = refl;
  sqrt_one = refl;
  abs_abs = abs_abs3;
  abs_sqrt = abs_sqrt3;
  abs_neg = abs_neg3;
  folds = folds3;
}
