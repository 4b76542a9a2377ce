-- ===== src/Prelude/Blocks.antt =====
-- Lists with a range written over.
use rsdag.Prelude.Lists.{length, get_elem?, fill, write_block, slice, take, drop, length-append}
use Prim.Native.Nat.{ℕ, zero, suc, ◌+◌, ◌-◌, ◌<◌, ◌≤◌}
use mathlib.Core.Path.{◌≡◌, refl, ap}
use mathlib.Core.Bool.{true}
use rsdag.Prelude.Tests.{leb}
use mathlib.Core.Logic.{◌⊎◌, inl, inr}
use mathlib.Core.List.{List, [], ◌∷◌, ◌++◌}
use mathlib.Core.Option.{some}
use native.Mathlib.Omega.{arith}

-- Off a range, on either side.
abbrev pub IsOff : ℕ → ℕ → ℕ → Type 0
IsOff s l k = (k < s) ⊎ (s + l ≤ k)

module _ {ℓ} {A : Type ℓ} where
  pub length-write_block :
      (vs : List A) (d : ℕ) (xs : List A) → length (write_block vs d xs) ≡ length xs
  unfolding write_block
  length-write_block [] d xs = refl
  length-write_block (v ∷ vs) d [] = refl
  length-write_block (v ∷ vs) zero (x ∷ xs) = ap suc (length-write_block vs zero xs)
  length-write_block (v ∷ vs) (suc d) (x ∷ xs) = ap suc (length-write_block (v ∷ vs) d xs)

  write_block_within :
      (vs : List A) (d : ℕ) (xs : List A) (k o : ℕ)
      → d + length vs ≤ length xs
      → k ≡ d + o
      → o < length vs
      → get_elem? (write_block vs d xs) k ≡ get_elem? vs o
  unfolding write_block
  write_block_within [] d xs k o fits e hi = elim hi [ ]
  write_block_within (v ∷ vs) d [] k o fits e hi = let bad : ⊥ = omega arith in elim bad [ ]
  write_block_within (v ∷ vs) zero (x ∷ xs) zero zero fits e hi = refl
  write_block_within (v ∷ vs) zero (x ∷ xs) zero (suc o) fits e hi =
      let bad : ⊥ = omega arith in elim bad [ ]
  write_block_within (v ∷ vs) zero (x ∷ xs) (suc k) zero fits e hi =
      let bad : ⊥ = omega arith in elim bad [ ]
  write_block_within (v ∷ vs) zero (x ∷ xs) (suc k) (suc o) fits e hi =
      write_block_within vs zero xs k o (omega arith) (omega arith) (omega arith)
  write_block_within (v ∷ vs) (suc d) (x ∷ xs) zero o fits e hi =
      let bad : ⊥ = omega arith in elim bad [ ]
  write_block_within (v ∷ vs) (suc d) (x ∷ xs) (suc k) o fits e hi =
      write_block_within (v ∷ vs) d xs k o (omega arith) (omega arith) (omega arith)

  pub get_elem?-write_block :
      (vs : List A) (d : ℕ) (xs : List A) (k : ℕ)
      → d + length vs ≤ length xs
      → d ≤ k
      → k < d + length vs
      → get_elem? (write_block vs d xs) k ≡ get_elem? vs (k - d)
  get_elem?-write_block vs d xs k fits lo hi =
      write_block_within vs d xs k (k - d) fits (omega arith) (omega arith)

  pub get_elem?-write_block_off :
      (vs : List A) (d : ℕ) (xs : List A) (k : ℕ)
      → IsOff d (length vs) k
      → get_elem? (write_block vs d xs) k ≡ get_elem? xs k
  unfolding write_block
  get_elem?-write_block_off [] d xs k off = refl
  get_elem?-write_block_off (v ∷ vs) d [] k off = refl
  get_elem?-write_block_off (v ∷ vs) zero (x ∷ xs) zero (inl h) = elim h [ ]
  get_elem?-write_block_off (v ∷ vs) zero (x ∷ xs) zero (inr h) =
      let bad : ⊥ = omega arith in elim bad [ ]
  get_elem?-write_block_off (v ∷ vs) zero (x ∷ xs) (suc k) (inl h) = elim h [ ]
  get_elem?-write_block_off (v ∷ vs) zero (x ∷ xs) (suc k) (inr h) =
      get_elem?-write_block_off vs zero xs k (inr (omega arith))
  get_elem?-write_block_off (v ∷ vs) (suc d) (x ∷ xs) zero off = refl
  get_elem?-write_block_off (v ∷ vs) (suc d) (x ∷ xs) (suc k) (inl h) =
      get_elem?-write_block_off (v ∷ vs) d xs k (inl (omega arith))
  get_elem?-write_block_off (v ∷ vs) (suc d) (x ∷ xs) (suc k) (inr h) =
      get_elem?-write_block_off (v ∷ vs) d xs k (inr (omega arith))

  -- An entry of a filled list is the new one within the range and the old one off it.
  pub fill_cases :
      (a : A) (s l : ℕ) (xs : List A) (k : ℕ) {b : A}
      → get_elem? (fill a s l xs) k ≡ some b
      → ((s ≤ k) × (k < s + l) × (a ≡ b)) ⊎ (IsOff s l k × (get_elem? xs k ≡ some b))
  unfolding fill
  fill_cases a s l [] k h = cc
  fill_cases a zero zero (x ∷ xs) k h = inr (inr (omega arith), h)
  fill_cases a zero (suc l) (x ∷ xs) zero h = inl (omega arith, omega arith, cc)
  fill_cases a zero (suc l) (x ∷ xs) (suc k) h = elim (fill_cases a zero l xs k h) [
    | inl (lo, hi, e) ↦ inl (omega arith, omega arith, e)
    | inr (inl lt, e) ↦ elim lt [ ]
    | inr (inr le, e) ↦ inr (inr (omega arith), e)
  ]
  fill_cases a (suc s) l (x ∷ xs) zero h = inr (inl (omega arith), h)
  fill_cases a (suc s) l (x ∷ xs) (suc k) h = elim (fill_cases a s l xs k h) [
    | inl (lo, hi, e) ↦ inl (omega arith, omega arith, e)
    | inr (inl lt, e) ↦ inr (inl (omega arith), e)
    | inr (inr le, e) ↦ inr (inr (omega arith), e)
  ]

  -- All of a list.
  pub take_all : (n : ℕ) (xs : List A) → n ≡ length xs → take n xs ≡ xs
  take_all zero [] h = refl
  take_all zero (x ∷ xs) h = let bad : ⊥ = omega arith in elim bad [ ]
  take_all (suc n) [] h = refl
  take_all (suc n) (x ∷ xs) h = ap (λ ys. x ∷ ys) (take_all n xs (omega arith))

  drop-length : (xs ys : List A) → drop (length xs) (xs ++ ys) ≡ ys
  drop-length [] ys = refl
  drop-length (x ∷ xs) ys = drop-length xs ys

  pub take-length : (xs ys : List A) → take (length xs) (xs ++ ys) ≡ xs
  take-length [] ys = refl
  take-length (x ∷ xs) ys = ap (λ zs. x ∷ zs) (take-length xs ys)

  -- A list within a longer one.
  pub slice-append :
      (xs ys zs : List A) → slice (xs ++ (ys ++ zs)) (length xs) (length ys) ≡ some ys
  unfolding slice
  slice-append xs ys zs =
      rw (drop-length xs (ys ++ zs), take-length ys zs, fits (length xs + length ys) _ long) refl
    where
      long : length xs + length ys ≤ length (xs ++ (ys ++ zs))
      long = omega (arith, length-append xs (ys ++ zs), length-append ys zs)

      fits : (a b : ℕ) → a ≤ b → leb a b ≡ true
      fits a b h = ground arith
