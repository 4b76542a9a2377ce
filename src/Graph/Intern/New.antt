-- ===== src/Graph/Intern/New.antt =====
-- The graph that `Graph::new` makes: empty arenas, then the constants zero and one.
use rsdag.Prelude.{
  ℕ, ◌≡◌, ◌≢◌, refl, [], ◌∷◌, Option, some, State, ◌>>=◌, find, find-cons_ne, IsIndex-nil,
  IsIndex-push, arith, zero, suc, subst, ℕ_discrete,
}
use mathlib.Core.Option
use rsdag.Node.{ExprId, Node}
use rsdag.Node.Eq.{Node-discrete, String-discrete}
use rsdag.Node.Shape.{Tag, tag, mix}
use rsdag.Field.{Field}
use rsdag.Graph.{Graph}
use rsdag.Graph.Valid.{IsWf, At, Below}
use rsdag.Graph.Intern.{konst, intern, shape_of, const_id, const_found, intern_found, push_node}

some_inj : {m n : Node} → some m ≡ some n → m ≡ n
some_inj h = cc

abbrev shape_const : (K : Field) → K.Const → ℕ
shape_const K r = mix (tag Tag.const) (K.stable_hash r)

module _ {K : Field} where
  unfoldable pub empty : Graph K
  empty = record {
    nodes = [];
    shape = [];
    dedup = [];
    consts = [];
    const_dedup = [];
    f64_cache = [];
    arg_pool = [];
    arg_dedup = [];
    list_shape = [];
    zero = 0;
    one = 0;
    symbol_names = [];
    symbol_ids = [];
    funcs = [];
    outputs = [];
    output_ctx = [];
    contexts = [];
  }

  set_zero : ExprId → State (Graph K) ExprId
  set_zero z g = some (z, record g { zero = z })

  set_one : ExprId → State (Graph K) ExprId
  set_one o g = some (o, record g { one = o })

  init : State (Graph K) ExprId
  unfolding set_zero set_one konst
  init = do z ← konst K.zero; z' ← set_zero z; o ← konst K.one; set_one o

  unfoldable pub new : Option (Graph K)
  unfolding init empty
  new = Option.map (λ (r : ExprId × Graph K). r.1) (init empty)

  -- The graph that `new` makes, written out.
  abbrev pub made : Graph K
  made = record {
    nodes = Node.const 0 ∷ Node.const 1 ∷ [];
    shape = shape_const K K.zero ∷ shape_const K K.one ∷ [];
    dedup = (Node.const 1, 1) ∷ (Node.const 0, 0) ∷ [];
    consts = K.zero ∷ K.one ∷ [];
    const_dedup = (K.one, 1) ∷ (K.zero, 0) ∷ [];
    f64_cache = [];
    arg_pool = [];
    arg_dedup = [];
    list_shape = [];
    zero = 0;
    one = 1;
    symbol_names = [];
    symbol_ids = [];
    funcs = [];
    outputs = [];
    output_ctx = [];
    contexts = [];
  }

  made-eq-new : K.zero ≢ K.one → new ≡ some made
  unfolding new intern const_id const_found intern_found push_node shape_of find Node-discrete
      ℕ_discrete
  made-eq-new h = rw (find-cons_ne {V = ℕ} K.const_discrete K.one K.zero 0 [] h)

  pub made-IsWf : K.zero ≢ K.one → IsWf made
  unfolding find
  made-IsWf h = record {
    nodes_index =
        IsIndex-push Node-discrete (Node.const 0 ∷ []) ((Node.const 0, 0) ∷ []) (Node.const 1)
          (IsIndex-push Node-discrete [] [] (Node.const 0) (IsIndex-nil Node-discrete) refl)
          (find-cons_ne Node-discrete (Node.const 1) (Node.const 0) 0 [] (cc));
    consts_index =
        IsIndex-push K.const_discrete (K.zero ∷ []) ((K.zero, 0) ∷ []) K.one
          (IsIndex-push K.const_discrete [] [] K.zero (IsIndex-nil K.const_discrete) refl)
          (find-cons_ne K.const_discrete K.one K.zero 0 [] h);
    symbols_index = IsIndex-nil String-discrete;
    lists = λ es l p. cc;
    shapes = refl;
    ordered = ordered;
    zero_const = (0, refl, refl);
    one_const = (1, refl, refl);
    cache = λ x e p. cc;
  }
    where
      ordered : (i : ℕ) (n : Node) → At made i n → Below made i n
      ordered zero n p = subst (Below made 0) (some_inj p) (omega arith)
      ordered (suc zero) n p = subst (Below made 1) (some_inj p) (omega arith)
      ordered (suc (suc i)) n p = cc

  -- A new graph exists and keeps the invariant, where the field tells zero from one.
  pub new-IsWf : K.zero ≢ K.one → (g : Graph K) × (new ≡ some g) × IsWf g
  new-IsWf h = (made, made-eq-new h, made-IsWf h)
