-- ===== src/Graph/Build/Branches.antt =====
-- What the constructors of crates/rsdag/src/graph/mod.rs make on each of their branches: the operand
-- that an identity leaves, the constant that is folded, or the node that is interned.
use rsdag.Prelude.{
  ℕ, ◌+◌, ◌≤◌, ◌≡◌, ◌≢◌, ◌==◌, ◌⊎◌, inl, inr, refl, subst, true, false, Bool-cases, Option, none,
  some, min, max, leb, arith,
}
use rsdag.Node.{ExprId, Node}
use rsdag.Field.{Field}
use rsdag.Graph.{Graph}
use rsdag.Graph.Valid.{
  IsWf, Has, At, IsConst, Builds, Builds-run, Builds-imp, Builds-weaken, Builds-at_hand, size,
  capacity,
}
use rsdag.Graph.Intern.{const_of}
use rsdag.Graph.Intern.Sound.{intern-Builds}
use rsdag.Graph.Intern.Leaves.{konst-Builds}
use rsdag.Graph.Intern.Correct.{Gives, Builds-Gives}
use rsdag.Graph.Build.{
  order, add_node, mul_node, add, add_folded, add_consts, mul, mul_folded, mul_consts,
}
use rsdag.Graph.Build.Base.{const_of_reads}

-- `==` as a decision.
pub same_or_not : (a b : ℕ) → ((a == b ≡ true) × (a ≡ b)) ⊎ ((a == b ≡ false) × (a ≢ b))
same_or_not a b = ground arith

module _ {K : Field} where
  -- Two constants fold by `f`; what is no constant leaves the node `n`.
  abbrev pub Folds :
      (K.Const → K.Const → K.Const)
      → Option K.Const
      → Option K.Const
      → Node
      → ExprId
      → Graph K
      → Type 0
  Folds f (some x) (some y) n e g' = IsConst g' e (f x y)
  Folds f _ _ n e g' = At g' e n

  -- The result for the constants that the operands are read as in `g`.
  abbrev pub FoldsIn :
      Graph K → (K.Const → K.Const → K.Const) → ExprId → ExprId → Node → ExprId → Graph K → Type 0
  FoldsIn g f a b n e g' =
      (x : Option K.Const) × (y : Option K.Const) × (const_of a g ≡ some (x, g))
      × (const_of b g ≡ some (y, g))
      × Folds f x y n e g'

  -- What `a + b` is made: the other operand of zero; else a folded constant or a node in canonical
  -- order.
  abbrev pub IsSum : Graph K → ExprId → ExprId → ExprId → Graph K → Type 0
  IsSum g a b e g' =
      ((a ≡ g.zero) × (e ≡ b))
      ⊎ (((a ≢ g.zero) × (b ≡ g.zero) × (e ≡ a))
          ⊎ ((a ≢ g.zero) × (b ≢ g.zero) × FoldsIn g K.add a b (Node.add (min a b) (max a b)) e g'))

  -- What `a * b` is made: zero where an operand is zero; the other operand of one; else a folded
  -- constant or a node in canonical order.
  abbrev pub IsProduct : Graph K → ExprId → ExprId → ExprId → Graph K → Type 0
  IsProduct g a b e g' =
      (((a ≡ g.zero) ⊎ (b ≡ g.zero)) × (e ≡ g.zero))
      ⊎ ((a ≢ g.zero)
          × (b ≢ g.zero)
          × (((a ≡ g.one) × (e ≡ b))
              ⊎ (((a ≢ g.one) × (b ≡ g.one) × (e ≡ a))
                  ⊎ ((a ≢ g.one)
                      × (b ≢ g.one)
                      × FoldsIn g K.mul a b (Node.mul (min a b) (max a b)) e g'))))

module _ {K : Field} (g : Graph K) (w : IsWf g) (a b : ExprId) (ha : Has g a) (hb : Has g b) where
  add_node-Builds : Builds 1 (add_node a b) g (λ e g'. At g' e (Node.add (min a b) (max a b)))
  unfolding add_node order
  add_node-Builds = elim (Bool-cases (leb a b)) [
    | inl e ↦ Builds-run (rw e) (
        Builds-imp (intern-Builds g (Node.add a b) w (ha, hb) tt)
          (λ r g' gr h. subst (At g' r) (ordered e) h))
    | inr e ↦ Builds-run (rw e) (
        Builds-imp (intern-Builds g (Node.add b a) w (hb, ha) tt)
          (λ r g' gr h. subst (At g' r) (swapped e) h))
  ]
    where
      ordered : leb a b ≡ true → Node.add a b ≡ Node.add (min a b) (max a b)
      ordered e = ground arith

      swapped : leb a b ≡ false → Node.add b a ≡ Node.add (min a b) (max a b)
      swapped e = ground arith

  add_consts-Builds :
      (x y : Option K.Const)
      → Builds 2 (add_consts x y a b) g (Folds K.add x y (Node.add (min a b) (max a b)))
  unfolding add_consts
  add_consts-Builds (some x) (some y) = konst-Builds g (K.add x y) w
  add_consts-Builds (some x) none = Builds-weaken (omega arith) add_node-Builds
  add_consts-Builds none y = Builds-weaken (omega arith) add_node-Builds

  add-Builds : Builds 2 (add a b) g (IsSum g a b)
  unfolding add add_folded
  add-Builds = elim (same_or_not a g.zero) [
    | inl (t, e) ↦ Builds-at_hand 2 w (rw t refl) (inl (e, refl))
    | inr (t, n) ↦ elim (same_or_not b g.zero) [
      | inl (t', e) ↦ Builds-at_hand 2 w (rw (t, t') refl) (inr (inl (n, e, refl)))
      | inr (t', n') ↦
          let x = const_of_reads g a w ha in
          let y = const_of_reads g b w hb in
          Builds-run (rw (t, t', x.run, y.run)) (
            Builds-imp (add_consts-Builds x.value y.value)
              (λ r g' gr h. inr (inr (n, n', (x.value, y.value, x.run, y.run, h)))))
    ]
  ]

  -- Over two ids of a well-formed graph with room for two entries, `add` does not panic and leaves a
  -- well-formed graph that extends the one given. Its result is the other operand where one is the id
  -- of zero; else, where both are constants, their folded sum; else the sum's node in canonical order.
  pub add-Gives : size g + 2 ≤ capacity → Gives (add a b) g (IsSum g a b)
  add-Gives = Builds-Gives add-Builds

  mul_node-Builds : Builds 1 (mul_node a b) g (λ e g'. At g' e (Node.mul (min a b) (max a b)))
  unfolding mul_node order
  mul_node-Builds = elim (Bool-cases (leb a b)) [
    | inl e ↦ Builds-run (rw e) (
        Builds-imp (intern-Builds g (Node.mul a b) w (ha, hb) tt)
          (λ r g' gr h. subst (At g' r) (ordered e) h))
    | inr e ↦ Builds-run (rw e) (
        Builds-imp (intern-Builds g (Node.mul b a) w (hb, ha) tt)
          (λ r g' gr h. subst (At g' r) (swapped e) h))
  ]
    where
      ordered : leb a b ≡ true → Node.mul a b ≡ Node.mul (min a b) (max a b)
      ordered e = ground arith

      swapped : leb a b ≡ false → Node.mul b a ≡ Node.mul (min a b) (max a b)
      swapped e = ground arith

  mul_consts-Builds :
      (x y : Option K.Const)
      → Builds 2 (mul_consts x y a b) g (Folds K.mul x y (Node.mul (min a b) (max a b)))
  unfolding mul_consts
  mul_consts-Builds (some x) (some y) = konst-Builds g (K.mul x y) w
  mul_consts-Builds (some x) none = Builds-weaken (omega arith) mul_node-Builds
  mul_consts-Builds none y = Builds-weaken (omega arith) mul_node-Builds

  mul-Builds : Builds 2 (mul a b) g (IsProduct g a b)
  unfolding mul mul_folded
  mul-Builds = elim (same_or_not a g.zero) [
    | inl (p, e) ↦ Builds-at_hand 2 w (rw p refl) (inl (inl e, refl))
    | inr (p, n) ↦ elim (same_or_not b g.zero) [
      | inl (q, e) ↦ Builds-at_hand 2 w (rw (p, q) refl) (inl (inr e, refl))
      | inr (q, m) ↦ elim (same_or_not a g.one) [
        | inl (r, e) ↦ Builds-at_hand 2 w (rw (p, q, r) refl) (inr (n, m, inl (e, refl)))
        | inr (r, n1) ↦ elim (same_or_not b g.one) [
          | inl (s, e) ↦
              Builds-at_hand 2 w (rw (p, q, r, s) refl) (inr (n, m, inr (inl (n1, e, refl))))
          | inr (s, m1) ↦
              let x = const_of_reads g a w ha in
              let y = const_of_reads g b w hb in
              Builds-run (rw (p, q, r, s, x.run, y.run)) (
                Builds-imp (mul_consts-Builds x.value y.value) (λ i g' gr h.
                  inr (n, m, inr (inr (n1, m1, (x.value, y.value, x.run, y.run, h))))))
        ]
      ]
    ]
  ]

  -- Over two ids of a well-formed graph with room for two entries, `mul` does not panic and leaves a
  -- well-formed graph that extends the one given. Its result is the id of zero where an operand is
  -- that id; else the other operand where one is the id of one; else, where both are constants, their
  -- folded product; else the product's node in canonical order.
  pub mul-Gives : size g + 2 ≤ capacity → Gives (mul a b) g (IsProduct g a b)
  mul-Gives = Builds-Gives mul-Builds
