-- ===== src/Field.antt =====
-- What a graph takes from outside: the constants' field (the trait `Field` of
-- crates/rsdag/src/field.rs), the machine's floating point numbers and the host's hashes. A type
-- that implements the trait is a value of this record.
use rsdag.Prelude.{ℕ, ℤ, Bool, Option, String, Ordering}
use rsdag.Node.{UnaryOp, BinOp}

pub record Field : Type 1 where
  pub Const : Type 0
  -- `f64`
  pub Real : Type 0
  -- `Eq` and `Hash`
  pub const_discrete : Discrete Const
  pub zero : Const
  pub one : Const
  pub from_i64 : ℤ → Const
  pub from_ratio : ℤ → ℤ → Const
  pub from_f64 : Real → Option Const
  pub to_f64 : Const → Real
  pub add : Const → Const → Const
  pub mul : Const → Const → Const
  pub neg : Const → Const
  pub powi : Const → ℤ → Option Const
  pub is_zero : Const → Bool
  pub is_one : Const → Bool
  pub is_exact : Bool
  pub partial_cmp : Const → Const → Option Ordering
  pub stable_hash : Const → ℕ
  -- `x.to_bits()`, `n as f64`, `x as i64`, `x.fract() == 0.0`, `x.abs() <= POWF_AS_POWI_MAX`,
  -- `x.is_nan()`
  pub real_bits : Real → ℕ
  -- `f64::NAN`
  pub real_nan : Real
  pub real_of_int : ℤ → Real
  pub int_of_real : Real → ℤ
  pub real_is_whole : Real → Bool
  pub real_is_small : Real → Bool
  pub real_is_nan : Real → Bool
  -- The reference functions on `f64` that constants of a floating field fold through.
  pub unary_f64 : UnaryOp → Real → Real
  pub binary_f64 : BinOp → Real → Real → Real
  -- The standard library's `Hash` of a text, through the stable hasher.
  pub hash_text : String → ℕ
