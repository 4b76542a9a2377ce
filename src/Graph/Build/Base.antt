-- ===== src/Graph/Build/Base.antt =====
-- What the proofs about the constructors share: reading constants, and the four ways in which a
-- constructor yields its result.
use rsdag.Prelude.{
  ℕ, ◌≡◌, ◌∙◌, ◌==◌, ==_iff, true, Option, none, some, State, length, arith, get_elem?_total,
}
use rsdag.Node.{ExprId, Node}
use rsdag.Field.{Field}
use rsdag.Semantics.{Scalar}
use rsdag.Graph.{Graph}
use rsdag.Graph.Valid.{
  IsWf, Below, At, Has, IsConst, Builds, Builds-at_hand, Builds-weaken, Builds-imp,
}
use rsdag.Graph.Meaning.{Closures, IsValuation, node_value}
use rsdag.Graph.Denotes.{
  Denotes-imp, IsValuation-ext, IsExact, Denotes, At-Denotes, IsConst-Denotes, embed,
}
use rsdag.Graph.Intern.{const_of, const_at, node, konst, intern}
use rsdag.Graph.Intern.Sound.{intern-Builds}
use rsdag.Graph.Intern.Leaves.{konst-Builds}
use rsdag.Graph.Intern.Total.{NotCall}

module _ {K : Field} where
  -- What `const_of` reads: the constant that the id stands for, if it stands for one.
  pub record ReadsConst (g : Graph K) (e : ExprId) : Type 0 where
    pub value : Option K.Const
    pub run : const_of e g ≡ some (value, g)
    pub const : (r : K.Const) → value ≡ some r → IsConst g e r

  pub node_total :
      (g : Graph K) (e : ExprId) → Has g e → (n : Node) × At g e n × (node e g ≡ some (n, g))
  unfolding node
  node_total g e h = let (n, p) = get_elem?_total g.nodes e h in (n, p, rw p)

  const-At_reads :
      (g : Graph K) (e : ExprId) (n : Node)
      → IsWf g
      → At g e n
      → node e g ≡ some (n, g)
      → ReadsConst g e
  unfolding const_of const_at
  const-At_reads g e (Node.const c) w p q =
      let (r, h) = get_elem?_total g.consts c (w.ordered e (Node.const c) p) in
      record { value = some r; run = rw (q, h); const = λ s t. (c, p, h ∙ t) }
  const-At_reads g e (Node.symbol s) w p q = record { value = none; run = rw q; const = λ s t. cc }
  const-At_reads g e _ w p q = record { value = none; run = rw q; const = λ s t. cc }

  pub const_of_reads : (g : Graph K) (e : ExprId) → IsWf g → Has g e → ReadsConst g e
  const_of_reads g e w h = let (n, p, q) = node_total g e h in const-At_reads g e n w p q

module _ {K : Field} (T : Scalar K) (cl : Closures T) (ex : IsExact T) where
  -- Meanings of expressions, as functions of a valuation.
  abbrev pub Value : Type 0
  Value = (ExprId → T.Val) → T.Val

  -- What an operation promises: the result denotes `v`.
  abbrev pub Makes : ℕ → State (Graph K) ExprId → Graph K → Value → Type 0
  Makes k m g v = Builds k m g (λ e g'. Denotes T cl g' e v)

  module _ (g : Graph K) (w : IsWf g) where
    pub zero-Denotes : Denotes T cl g g.zero (λ _. T.zero)
    zero-Denotes =
        let d = IsConst-Denotes T cl g g.zero K.zero w.zero_const in
        record { has = d.has; value = λ get v. d.value get v ∙ ex.embed_zero }

    pub one-Denotes : Denotes T cl g g.one (λ _. T.one)
    one-Denotes =
        let d = IsConst-Denotes T cl g g.one K.one w.one_const in
        record { has = d.has; value = λ get v. d.value get v ∙ ex.embed_one }

    -- A constant that is made.
    pub konst-Makes : (r : K.Const) → Makes 2 (konst r) g (λ _. embed T r)
    konst-Makes r = Builds-imp (konst-Builds g r w) λ e g' gr p. IsConst-Denotes T cl g' e r p

    -- An id that is at hand under a test.
    pub kept :
        (k : ℕ) (m : State (Graph K) ExprId) (e : ExprId) (v : Value)
        → Has g e
        → m g ≡ some (e, g)
        → ((get : ExprId → T.Val) → IsValuation T cl g get → get e ≡ v get)
        → Makes k m g v
    kept k m e v h p f = Builds-at_hand k w p (record { has = h; value = f })

    pub is_zero_id :
        (e : ExprId)
        → (e == g.zero) ≡ true
        → (get : ExprId → T.Val) → IsValuation T cl g get
        → get e ≡ T.zero
    is_zero_id e p get v = rw ((==_iff e g.zero).0 p) (zero-Denotes.value get v)

    pub is_one_id :
        (e : ExprId)
        → (e == g.one) ≡ true
        → (get : ExprId → T.Val) → IsValuation T cl g get
        → get e ≡ T.one
    is_one_id e p get v = rw ((==_iff e g.one).0 p) (one-Denotes.value get v)

    pub const_value :
        {e : ExprId} {r : K.Const}
        → IsConst g e r
        → (get : ExprId → T.Val) → IsValuation T cl g get
        → get e ≡ embed T r
    const_value {e} {r} c get v = (IsConst-Denotes T cl g e r c).value get v

    -- A constant made where its value is the one asked for.
    pub konst_as :
        (r : K.Const) (v : Value)
        → ((get : ExprId → T.Val) → IsValuation T cl g get → embed T r ≡ v get)
        → Makes 2 (konst r) g v
    konst_as r v f = Builds-imp (konst-Builds g r w) λ e g' gr p.
        Denotes-imp T cl g' (IsConst-Denotes T cl g' e r p)
          λ get val. f get (IsValuation-ext T cl w gr.ext val)

    -- A node made where its value is the one asked for.
    pub node_as :
        (n : Node) (v : Value)
        → Below g (length g.nodes) n
        → NotCall n
        → ((g' : Graph K) (get : ExprId → T.Val) → node_value T cl g' get n ≡ some (v get))
        → Makes 2 (intern n) g v
    node_as n v b nc f =
        Builds-weaken (omega arith)
          (Builds-imp (intern-Builds g n w b nc) λ e g' gr p. At-Denotes T cl g' e n v p (f g'))
