-- ===== src/Program/Follow.antt =====
-- Selects that are decided, read as the arms that they take: the loops `resolve` of
-- crates/rsdag/src/tape/specialize.rs and `decided`.
use rsdag.Prelude.{
  ℕ, zero, suc, ◌≤◌, ◌<◌, ◌≡◌, refl, ◌∙◌, Option, none, some, arith, Option-cases, inl, inr,
}
use rsdag.Program.{Ref}

abbrev follow_at : Option Ref → Ref → (Ref → Ref) → Ref
follow_at none r next = r
follow_at (some a) r next = next a

-- `while let Ref::Value(i, _) = r` on fuel: a value that `arm` redirects is followed.
unfoldable pub follow : (ℕ → Option Ref) → ℕ → Ref → Ref
follow arm n (Ref.input k) = Ref.input k
follow arm zero (Ref.value i c) = Ref.value i c
follow arm (suc n) (Ref.value i c) = follow_at (arm i) (Ref.value i c) (follow arm n)

-- The operand stays where it is.
abbrev pub IsSettled : (ℕ → Option Ref) → Ref → Type 0
IsSettled arm (Ref.value i c) = arm i ≡ none
IsSettled arm (Ref.input k) = Unit

abbrev pub IsBelow : ℕ → Ref → Type 0
IsBelow n (Ref.value i c) = i < n
IsBelow n (Ref.input k) = Unit

module _ (arm : ℕ → Option Ref) where
  -- Each arm is older than the select.
  abbrev pub Falls : Type 0
  Falls = (i : ℕ) (a : Ref) → arm i ≡ some a → IsBelow i a

  IsBelow-imp : (i n : ℕ) (r : Ref) → i ≤ n → IsBelow i r → IsBelow n r
  IsBelow-imp i n (Ref.value j c) h b = omega arith
  IsBelow-imp i n (Ref.input k) h b = tt

  -- Fuel past the operand's index is enough: the loop ends at an operand that stays.
  pub follow-IsSettled : (n : ℕ) (r : Ref) → Falls → IsBelow n r → IsSettled arm (follow arm n r)
  unfolding follow
  follow-IsSettled n (Ref.input k) h b = tt
  follow-IsSettled zero (Ref.value i c) h b = elim b [ ]
  follow-IsSettled (suc n) (Ref.value i c) h b = elim (Option-cases (arm i)) [
    | inl e ↦ rw e e
    | inr (a, e) ↦ rw e (follow-IsSettled n a h (IsBelow-imp i n a (omega arith) (h i a e)))
  ]

  -- An operand that stays is left alone.
  pub follow_settled : (n : ℕ) (r : Ref) → IsSettled arm r → follow arm n r ≡ r
  unfolding follow
  follow_settled n (Ref.input k) h = refl
  follow_settled zero (Ref.value i c) h = refl
  follow_settled (suc n) (Ref.value i c) h = rw h refl

  -- What fuel is left over does not matter.
  pub follow_more :
      (n m : ℕ) (r : Ref) → Falls → IsBelow n r → IsBelow m r → follow arm n r ≡ follow arm m r
  unfolding follow
  follow_more n m (Ref.input k) h b b' = refl
  follow_more zero m (Ref.value i c) h b b' = elim b [ ]
  follow_more (suc n) zero (Ref.value i c) h b b' = elim b' [ ]
  follow_more (suc n) (suc m) (Ref.value i c) h b b' = elim (Option-cases (arm i)) [
    | inl e ↦ rw e refl
    | inr (a, e) ↦ rw e (
        follow_more n m a h (IsBelow-imp i n a (omega arith) (h i a e))
          (IsBelow-imp i m a (omega arith) (h i a e)))
  ]

  -- A redirected operand is read as its arm.
  pub follow_one :
      (n i c : ℕ) (a : Ref)
      → Falls
      → arm i ≡ some a
      → i < n
      → follow arm n (Ref.value i c) ≡ follow arm n a
  unfolding follow
  follow_one zero i c a h e lt = elim lt [ ]
  follow_one (suc n) i c a h e lt = rw e (
      follow_more n (suc n) a h (IsBelow-imp i n a (omega arith) (h i a e))
        (IsBelow-imp i (suc n) a (omega arith) (h i a e)))

  -- A value that is kept at every step is kept by the loop, and so is a property of the operands.
  pub follow_keeps :
      {V : Type 0} (val : Ref → V) (P : Ref → Type 0)
      → ((i c : ℕ) (a : Ref)
          → arm i ≡ some a
          → P (Ref.value i c)
          → (val a ≡ val (Ref.value i c)) × P a)
      → (n : ℕ) (r : Ref) → P r
      → (val (follow arm n r) ≡ val r) × P (follow arm n r)
  unfolding follow
  follow_keeps val P step n (Ref.input k) q = (refl, q)
  follow_keeps val P step zero (Ref.value i c) q = (refl, q)
  follow_keeps val P step (suc n) (Ref.value i c) q = elim (Option-cases (arm i)) [
    | inl e ↦ rw e (refl, q)
    | inr (a, e) ↦
        let (same, q') = step i c a e q in
        let (same', q'') = follow_keeps val P step n a q' in rw e (same' ∙ same, q'')
  ]
