-- ===== src/Program/Decide/Operands.antt =====
-- The operands of a program that `Tape::decide` of crates/rsdag/src/tape/specialize.rs decides, slice by
-- slice.
use rsdag.Prelude.{
  fill, length-fill, ℕ, zero, suc, ◌+◌, ◌≡◌, refl, ◌∙◌, ap, subst, Bool, true, false, Option, none,
  some, List, [], ◌∷◌, length, leb, if◌then◌else◌, take, drop, slice, not, arith,
}
use rsdag.Field.{Field}
use rsdag.Program.{Ref, Inst, Program}
use rsdag.Program.Decide.{flags, main_flags, decided, decided_pool}

-- Each operand is the other's, decided for one of the phases.
module _ (f : Ref → Bool → Ref) where
  unfoldable pub AreDecided : List Ref → List Ref → Type 0
  AreDecided [] [] = Unit
  AreDecided (x ∷ xs) (r ∷ rs) = ((b : Bool) × (x ≡ f r b)) × AreDecided xs rs
  AreDecided _ _ = ⊥

  length-AreDecided : (xs rs : List Ref) → AreDecided xs rs → length xs ≡ length rs
  unfolding AreDecided
  length-AreDecided [] [] h = refl
  length-AreDecided (x ∷ xs) [] h = elim h [ ]
  length-AreDecided [] (r ∷ rs) h = elim h [ ]
  length-AreDecided (x ∷ xs) (r ∷ rs) h = ap suc (length-AreDecided xs rs h.1)

  take-AreDecided :
      (n : ℕ) (xs rs : List Ref) → AreDecided xs rs → AreDecided (take n xs) (take n rs)
  unfolding AreDecided
  take-AreDecided zero xs rs h = tt
  take-AreDecided (suc n) [] [] h = tt
  take-AreDecided (suc n) (x ∷ xs) [] h = elim h [ ]
  take-AreDecided (suc n) [] (r ∷ rs) h = elim h [ ]
  take-AreDecided (suc n) (x ∷ xs) (r ∷ rs) h = (h.0, take-AreDecided n xs rs h.1)

  drop-AreDecided :
      (n : ℕ) (xs rs : List Ref) → AreDecided xs rs → AreDecided (drop n xs) (drop n rs)
  unfolding AreDecided
  drop-AreDecided zero xs rs h = h
  drop-AreDecided (suc n) [] [] h = tt
  drop-AreDecided (suc n) (x ∷ xs) [] h = elim h [ ]
  drop-AreDecided (suc n) [] (r ∷ rs) h = elim h [ ]
  drop-AreDecided (suc n) (x ∷ xs) (r ∷ rs) h = drop-AreDecided n xs rs h.1

  pub slice-AreDecided :
      (xs rs : List Ref) (s l : ℕ) (os : List Ref)
      → AreDecided xs rs
      → slice rs s l ≡ some os
      → (ys : List Ref) × (slice xs s l ≡ some ys) × AreDecided ys os
  unfolding slice
  slice-AreDecided xs rs s l os h e =
      rw (length-AreDecided xs rs h) (sliced (leb (s + l) (length rs)) e)
    where
      sliced :
          (b : Bool)
          → (if b then some (take l (drop s rs)) else none) ≡ some os
          → (ys : List Ref) × ((if b then some (take l (drop s xs)) else none) ≡ some ys)
            × AreDecided ys os
      sliced false k = cc
      sliced true k = (
        take l (drop s xs),
        refl,
        subst (AreDecided (take l (drop s xs))) (some_inj k)
            (take-AreDecided l (drop s xs) (drop s rs) (drop-AreDecided s xs rs h)),
      )
        where
          some_inj : {u v : List Ref} → some u ≡ some v → u ≡ v
          some_inj q = cc

length-main_flags :
    {K : Field} (insts : List (Inst K)) (main : List Bool)
    → length (main_flags insts main) ≡ length main
unfolding main_flags
length-main_flags [] main = refl
length-main_flags (inst ∷ insts) main =
    length-main_flags insts (fill (not inst.is_pure) inst.ins.0 inst.ins.1 main)
    ∙ length-fill (not inst.is_pure) inst.ins.0 inst.ins.1 main

length-flags : {A : Type 0} (xs : List A) → length (flags xs) ≡ length xs
length-flags [] = refl
length-flags (x ∷ xs) = ap suc (length-flags xs)

module _ {K : Field} (p : Program K) (arm : List (Option Ref)) where
  decided_pool-AreDecided :
      (rs : List Ref) (main : List Bool)
      → length main ≡ length rs
      → AreDecided (decided p arm) (decided_pool p arm rs main) rs
  unfolding decided_pool AreDecided
  decided_pool-AreDecided [] main h = tt
  decided_pool-AreDecided (r ∷ rs) [] h = let bad : ⊥ = omega (arith, h) in elim bad [ ]
  decided_pool-AreDecided (r ∷ rs) (b ∷ main) h =
      ((b, refl), decided_pool-AreDecided rs main (omega (arith, h)))

  -- The whole pool.
  pub pool-AreDecided :
      AreDecided
        (decided p arm)
        (decided_pool p arm p.pool (main_flags p.insts (flags p.pool)))
        p.pool
  pool-AreDecided =
      decided_pool-AreDecided p.pool (main_flags p.insts (flags p.pool))
        (length-main_flags p.insts (flags p.pool) ∙ length-flags p.pool)
