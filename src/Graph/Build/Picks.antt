-- ===== src/Graph/Build/Picks.antt =====
-- What `neg`, `cmp` and `select` of crates/rsdag/src/graph/mod.rs make on each of their branches.
use rsdag.Prelude.{
  ◌+◌, ◌≤◌, ◌≡◌, ◌≢◌, ◌⊎◌, inl, inr, refl, Bool-cases, Option, none, some, if◌then◌else◌, arith,
}
use rsdag.Node.{ExprId, Node, CmpOp}
use rsdag.Field.{Field}
use rsdag.Graph.{Graph}
use rsdag.Graph.Valid.{
  IsWf, Has, At, IsConst, Builds, Builds-run, Builds-imp, Builds-weaken, Builds-at_hand, size,
  capacity,
}
use rsdag.Graph.Intern.{const_of, node}
use rsdag.Graph.Intern.Sound.{intern-Builds}
use rsdag.Graph.Intern.Leaves.{konst-Builds}
use rsdag.Graph.Intern.Correct.{Gives, Builds-Gives}
use rsdag.Graph.Build.{
  cmp, cmp_ordering, neg, neg_folded, neg_const, neg_node, select, select_const,
}
use rsdag.Graph.Build.Branches.{same_or_not}
use rsdag.Graph.Build.Base.{const_of_reads, node_total}

module _ {K : Field} where
  -- A comparison of two constants is folded to one or zero.
  abbrev pub Compares :
      Graph K → CmpOp → Option K.Const → Option K.Const → Node → ExprId → Graph K → Type 0
  Compares g op (some x) (some y) n e g' =
      e ≡ (if cmp_ordering op (K.partial_cmp x y) then g.one else g.zero)
  Compares g op _ _ n e g' = At g' e n

  abbrev pub IsComparison : Graph K → CmpOp → ExprId → ExprId → ExprId → Graph K → Type 0
  IsComparison g op a b e g' =
      (x : Option K.Const) × (y : Option K.Const) × (const_of a g ≡ some (x, g))
      × (const_of b g ≡ some (y, g))
      × Compares g op x y (Node.cmp op a b) e g'

  -- A constant condition takes its arm, equal arms are one, and the rest is a node.
  abbrev pub Chooses : Option K.Const → ExprId → ExprId → ExprId → ExprId → Graph K → Type 0
  Chooses (some r) c t f e g' = e ≡ (if K.is_zero r then f else t)
  Chooses none c t f e g' = ((t ≡ f) × (e ≡ t)) ⊎ ((t ≢ f) × At g' e (Node.select c t f))

  abbrev pub IsChoice : Graph K → ExprId → ExprId → ExprId → ExprId → Graph K → Type 0
  IsChoice g c t f e g' = (r : Option K.Const) × (const_of c g ≡ some (r, g)) × Chooses r c t f e g'

  -- A constant is folded and a negation taken off; the rest is a node.
  abbrev pub Negates : Option K.Const → Node → ExprId → ExprId → Graph K → Type 0
  Negates (some r) n a e g' = IsConst g' e (K.neg r)
  Negates none (Node.neg inner) a e g' = e ≡ inner
  Negates none _ a e g' = At g' e (Node.neg a)

  abbrev pub IsNegation : Graph K → ExprId → ExprId → Graph K → Type 0
  IsNegation g a e g' =
      ((a ≡ g.zero) × (e ≡ a))
      ⊎ ((a ≢ g.zero)
          × ((x : Option K.Const) × (n : Node) × (const_of a g ≡ some (x, g))
              × At g a n
              × Negates x n a e g'))

module _ {K : Field} (g : Graph K) (w : IsWf g) where
  module _ (c t f : ExprId) (hc : Has g c) (ht : Has g t) (hf : Has g f) where
    select_const-Builds : (r : Option K.Const) → Builds 2 (select_const r c t f) g (Chooses r c t f)
    unfolding select_const
    select_const-Builds (some r) = elim (Bool-cases (K.is_zero r)) [
      | inl z ↦ Builds-at_hand {a = f} 2 w (rw z refl) (rw z refl)
      | inr z ↦ Builds-at_hand {a = t} 2 w (rw z refl) (rw z refl)
    ]
    select_const-Builds none = elim (same_or_not t f) [
      | inl (p, e) ↦ Builds-at_hand 2 w (rw p refl) (inl (e, refl))
      | inr (p, n) ↦ Builds-run (rw p refl) (
          Builds-weaken (omega arith) (
            Builds-imp (intern-Builds g (Node.select c t f) w (hc, ht, hf) tt)
              (λ e g' gr h. inr (n, h))))
    ]

    select-Builds : Builds 2 (select c t f) g (IsChoice g c t f)
    unfolding select
    select-Builds =
        let r = const_of_reads g c w hc in
        Builds-run (rw r.run)
          (Builds-imp (select_const-Builds r.value) (λ e g' gr h. (r.value, r.run, h)))

    -- Over three ids of a well-formed graph with room for two entries, `select` does not panic and
    -- leaves a well-formed graph that extends the one given. Its result is the arm that a constant
    -- condition takes; else the arm where both are one; else the selection's node.
    pub select-Gives : size g + 2 ≤ capacity → Gives (select c t f) g (IsChoice g c t f)
    select-Gives = Builds-Gives select-Builds

  module _ (a : ExprId) (ha : Has g a) where
    neg_node-Builds : (n : Node) → At g a n → Builds 2 (neg_node n a) g (Negates none n a)
    unfolding neg_node
    neg_node-Builds (Node.neg inner) h = Builds-at_hand 2 w refl refl
    neg_node-Builds _ h = Builds-weaken (omega arith) (intern-Builds g (Node.neg a) w ha tt)

    neg_const-Builds :
        (x : Option K.Const) (n : Node)
        → At g a n
        → node a g ≡ some (n, g)
        → Builds 2 (neg_const x a) g (Negates x n a)
    unfolding neg_const
    neg_const-Builds (some r) n h run = konst-Builds g (K.neg r) w
    neg_const-Builds none n h run = Builds-run (rw run refl) (neg_node-Builds n h)

    neg-Builds : Builds 2 (neg a) g (IsNegation g a)
    unfolding neg neg_folded
    neg-Builds = elim (same_or_not a g.zero) [
      | inl (p, e) ↦ Builds-at_hand 2 w (rw p refl) (inl (e, refl))
      | inr (p, m) ↦
          let x = const_of_reads g a w ha in
          let (n, h, run) = node_total g a ha in
          Builds-run (rw (p, x.run)) (
            Builds-imp (neg_const-Builds x.value n h run)
              (λ e g' gr k. inr (m, (x.value, n, x.run, h, k))))
    ]

    -- Over an id of a well-formed graph with room for two entries, `neg` does not panic and leaves a
    -- well-formed graph that extends the one given. Its result is the id of zero for that id; else,
    -- of a constant, the folded negation; of a negation, its operand; else the negation's node.
    pub neg-Gives : size g + 2 ≤ capacity → Gives (neg a) g (IsNegation g a)
    neg-Gives = Builds-Gives neg-Builds
