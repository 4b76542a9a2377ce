-- ===== src/Graph/Build/Correct.antt =====
-- The constructors of crates/rsdag/src/graph/mod.rs over a well-formed graph, stated without the
-- vocabulary that their proofs share.
use rsdag.Prelude.{ℕ, ◌+◌, ◌≤◌, ◌≡◌, refl, sym, ◌∙◌, subst, Option, some, State, false}
use rsdag.Node.{ExprId}
use rsdag.Field.{Field}
use rsdag.Semantics.{Scalar}
use rsdag.Graph.{Graph}
use rsdag.Graph.Valid.{IsWf, Has, Extends, size, capacity}
use rsdag.Graph.Meaning.{Closures, IsValuation}
use rsdag.Graph.Denotes.{IsExact}
use rsdag.Graph.Build.{sub}
use rsdag.Graph.Build.Base.{Makes}
use rsdag.Graph.Build.Ring.{sub-Makes}

module _ {K : Field} where
  -- The operation has a result, a well-formed graph that extends the one given, and an id of it.
  abbrev pub Succeeds : State (Graph K) ExprId → Graph K → Type 0
  Succeeds m g =
      (e : ExprId) × (g' : Graph K) × (m g ≡ some (e, g')) × IsWf g' × Extends g g' × Has g' e

  same_run :
      {e e' : ExprId} {g g' : Graph K}
      → ◌≡◌ {A = Option (ExprId × Graph K)} (some (e, g)) (some (e', g'))
      → ◌≡◌ {A = ExprId × Graph K} (e, g) (e', g')
  same_run h = cc

-- The scalar with one value: what an operation does to the graph is told from what it computes.
abbrev pub unit_scalar : (K : Field) → Scalar K
unit_scalar K = record {
  Val = Unit {0};
  zero = tt;
  one = tt;
  nan = tt;
  infinity = K.to_f64 K.zero;
  neg_infinity = K.to_f64 K.zero;
  from_f64 = λ x. tt;
  add = λ x y. tt;
  mul = λ x y. tt;
  sub = λ x y. tt;
  neg = λ x. tt;
  powi = λ x n. tt;
  unary = λ op x. tt;
  binary = λ op x y. tt;
  cmp = λ op x y. tt;
  is_true = λ x. false;
  min = λ x y. tt;
  max = λ x y. tt;
}

abbrev pub unit_closures : (K : Field) → Closures (unit_scalar K)
unit_closures K = record { sym = λ s. tt; call = λ o l vs. tt; solve = λ l vs i. tt }

pub unit_same : (x y : Unit {0}) → x ≡ y
unit_same x y = refl

pub unit_exact : (K : Field) → IsExact (unit_scalar K)
unit_exact K = record {
  add_comm = λ x y. refl;
  add_assoc = λ x y z. refl;
  zero_add = λ x. refl;
  mul_comm = λ x y. refl;
  mul_assoc = λ x y z. refl;
  one_mul = λ x. refl;
  zero_mul = λ x. refl;
  neg_neg = λ x. refl;
  neg_zero = refl;
  embed_zero = refl;
  embed_one = refl;
  embed_add = λ r s. refl;
  embed_mul = λ r s. refl;
  embed_neg = λ r. refl;
  embed_cmp = λ op r s. unit_same _ _;
}

module _ {K : Field} (g : Graph K) (w : IsWf g) where
  pub Makes-Succeeds :
      {k : ℕ} {m : State (Graph K) ExprId} {v : (ExprId → Unit {0}) → Unit {0}}
      → Makes (unit_scalar K) (unit_closures K) (unit_exact K) k m g v
      → size g + k ≤ capacity
      → Succeeds m g
  Makes-Succeeds b room = let (e, g', run, gr, d) = b.run room in (e, g', run, gr.wf, gr.ext, d.has)

  module _ (a b : ExprId) (ha : Has g a) (hb : Has g b) where
    -- Over two ids of a well-formed graph with room for four entries `sub` does not panic and leaves
    -- a well-formed graph that extends the one given.
    pub sub-Succeeds : size g + 4 ≤ capacity → Succeeds (sub a b) g
    sub-Succeeds =
        Makes-Succeeds (sub-Makes (unit_scalar K) (unit_closures K) (unit_exact K) g w a b ha hb)

module _ {K : Field} (T : Scalar K) (cl : Closures T) (ex : IsExact T) (g : Graph K)
    (w : IsWf g) where
  pub Makes-value :
      {g' : Graph K} {k : ℕ} {m : State (Graph K) ExprId} {v : (ExprId → T.Val) → T.Val}
      {e : ExprId}
      → Makes T cl ex k m g v
      → size g + k ≤ capacity
      → m g ≡ some (e, g')
      → (get : ExprId → T.Val) → IsValuation T cl g' get
      → get e ≡ v get
  Makes-value {v} b room run get val =
      let (e₀, g₀, run₀, gr, d) = b.run room in
      let same = same_run (sym run₀ ∙ run) in
      subst (λ (r : ExprId × Graph K). IsValuation T cl r.1 get → get r.0 ≡ v get) same
        (d.value get) val
