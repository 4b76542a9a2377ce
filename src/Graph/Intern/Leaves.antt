-- ===== src/Graph/Intern/Leaves.antt =====
-- Lemmas on the leaves of crates/rsdag/src/graph/mod.rs, constants (`konst`) and symbols (`sym`).
use rsdag.Prelude.{
  ◌+◌, ◌≤◌, ◌≡◌, refl, [], ◌∷◌, ◌++◌, length, get_elem?, none, some, String, arith, inl, inr,
  Option-cases, find, IsIndex-push, length-append, prefix_refl, prefix_end, get_elem?-append_end,
  get_elem?-lt, get_elem?_prefix,
}
use rsdag.Node.{ExprId, ConstId, SymbolId, Node}
use rsdag.Node.Eq.{String-discrete}
use rsdag.Field.{Field}
use rsdag.Graph.{Graph}
use rsdag.Graph.Valid.{
  IsWf, IsCached-ext, At, Extends, Grows, Builds, Builds-pure, Builds-weaken, Builds-bind,
  Builds-imp, size, capacity, IsConst, IsConst-ext,
}
use rsdag.Graph.Below.{Below-ext}
use rsdag.Graph.Intern.{konst, const_id, const_found, sym, symbol_of_name, symbol_found, u32}
use rsdag.Graph.Intern.Sound.{intern-Builds}

module _ {K : Field} where
  abbrev with_const : Graph K → K.Const → Graph K
  with_const g r = record g {
    consts = g.consts ++ r ∷ [];
    const_dedup = (r, length g.consts) ∷ g.const_dedup;
  }

  with_const-ext : (g : Graph K) (r : K.Const) → Extends g (with_const g r)
  with_const-ext g r = record {
    nodes = prefix_refl g.nodes;
    consts = prefix_end g.consts (r ∷ []);
    pool = prefix_refl g.arg_pool;
    names = prefix_refl g.symbol_names;
    zero = refl;
    one = refl;
    funcs = refl;
    outputs = refl;
    output_ctx = refl;
    contexts = refl;
  }

  with_const-IsWf :
      (g : Graph K) (r : K.Const)
      → IsWf g
      → find K.const_discrete r g.const_dedup ≡ none
      → IsWf (with_const g r)
  with_const-IsWf g r w fresh = record {
    nodes_index = w.nodes_index;
    consts_index = IsIndex-push K.const_discrete g.consts g.const_dedup r w.consts_index fresh;
    symbols_index = w.symbols_index;
    lists = w.lists;
    shapes = w.shapes;
    ordered = λ i n h.
        Below-ext g (with_const g r) i i n (with_const-ext g r) (omega arith) (w.ordered i n h);
    zero_const = IsConst-ext g.zero (with_const-ext g r) w.zero_const;
    one_const = IsConst-ext g.one (with_const-ext g r) w.one_const;
    cache = λ y c h. IsCached-ext (K.from_f64 y) c (with_const-ext g r) (w.cache y c h);
  }

  const_pushed :
      (g : Graph K) (r : K.Const)
      → IsWf g
      → find K.const_discrete r g.const_dedup ≡ none
      → size g + 1 ≤ capacity
      → (c : ConstId) × (g' : Graph K) × (const_id r g ≡ some (c, g'))
        × Grows 1 g g'
        × (get_elem? g'.consts c ≡ some r)
  unfolding const_id const_found size
  const_pushed g r w fresh room =
      let fits : u32 (length g.consts) ≡ length g.consts = omega arith in
      (
        length g.consts,
        with_const g r,
        rw (fresh, fits),
        record {
          wf = with_const-IsWf g r w fresh;
          ext = with_const-ext g r;
          grown = omega (arith, length-append g.consts (r ∷ []));
        },
        get_elem?-append_end g.consts r [],
      )

  const_id-Builds :
      (g : Graph K) (r : K.Const)
      → IsWf g
      → Builds 1 (const_id r) g (λ c g'. get_elem? g'.consts c ≡ some r)
  unfolding const_id const_found
  const_id-Builds g r w = elim (Option-cases (find K.const_discrete r g.const_dedup)) [
    | inr (c, old) ↦
        Builds-weaken (omega arith) (Builds-pure w (rw old) (w.consts_index.sound r c old))
    | inl fresh ↦ record { run = const_pushed g r w fresh }
  ]

  -- A constant is interned: the id that comes back stands for it.
  pub konst-Builds :
      (g : Graph K) (r : K.Const) → IsWf g → Builds 2 (konst r) g (λ e g'. IsConst g' e r)
  unfolding konst
  konst-Builds g r w = Builds-bind (const_id-Builds g r w) λ c g₁ gr p.
      Builds-imp (intern-Builds g₁ (Node.const c) gr.wf (get_elem?-lt g₁.consts c p) tt)
        λ e g₂ gr₂ q. (c, q, get_elem?_prefix gr₂.ext.consts c p)

  abbrev with_symbol : Graph K → String → Graph K
  with_symbol g name = record g {
    symbol_names = g.symbol_names ++ name ∷ [];
    symbol_ids = (name, length g.symbol_names) ∷ g.symbol_ids;
  }

  with_symbol-ext : (g : Graph K) (name : String) → Extends g (with_symbol g name)
  with_symbol-ext g name = record {
    nodes = prefix_refl g.nodes;
    consts = prefix_refl g.consts;
    pool = prefix_refl g.arg_pool;
    names = prefix_end g.symbol_names (name ∷ []);
    zero = refl;
    one = refl;
    funcs = refl;
    outputs = refl;
    output_ctx = refl;
    contexts = refl;
  }

  with_symbol-IsWf :
      (g : Graph K) (name : String)
      → IsWf g
      → find String-discrete name g.symbol_ids ≡ none
      → IsWf (with_symbol g name)
  with_symbol-IsWf g name w fresh = record {
    nodes_index = w.nodes_index;
    consts_index = w.consts_index;
    symbols_index =
        IsIndex-push String-discrete g.symbol_names g.symbol_ids name w.symbols_index fresh;
    lists = w.lists;
    shapes = w.shapes;
    ordered = λ i n h.
        Below-ext g (with_symbol g name) i i n (with_symbol-ext g name) (omega arith)
          (w.ordered i n h);
    zero_const = IsConst-ext g.zero (with_symbol-ext g name) w.zero_const;
    one_const = IsConst-ext g.one (with_symbol-ext g name) w.one_const;
    cache = λ y c h. IsCached-ext (K.from_f64 y) c (with_symbol-ext g name) (w.cache y c h);
  }

  symbol_pushed :
      (g : Graph K) (name : String)
      → IsWf g
      → find String-discrete name g.symbol_ids ≡ none
      → size g + 1 ≤ capacity
      → (s : SymbolId) × (g' : Graph K) × (symbol_of_name name g ≡ some (s, g'))
        × Grows 1 g g'
        × (get_elem? g'.symbol_names s ≡ some name)
  unfolding symbol_of_name symbol_found size
  symbol_pushed g name w fresh room =
      let fits : u32 (length g.symbol_names) ≡ length g.symbol_names = omega arith in
      (
        length g.symbol_names,
        with_symbol g name,
        rw (fresh, fits),
        record {
          wf = with_symbol-IsWf g name w fresh;
          ext = with_symbol-ext g name;
          grown = omega (arith, length-append g.symbol_names (name ∷ []));
        },
        get_elem?-append_end g.symbol_names name [],
      )

  symbol_of_name-Builds :
      (g : Graph K) (name : String)
      → IsWf g
      → Builds 1 (symbol_of_name name) g (λ s g'. get_elem? g'.symbol_names s ≡ some name)
  unfolding symbol_of_name symbol_found
  symbol_of_name-Builds g name w = elim (Option-cases (find String-discrete name g.symbol_ids)) [
    | inr (s, old) ↦
        Builds-weaken (omega arith) (Builds-pure w (rw old) (w.symbols_index.sound name s old))
    | inl fresh ↦ record { run = symbol_pushed g name w fresh }
  ]

  -- Id `e` stands for the symbol called `name`.
  abbrev pub IsSymbol : Graph K → ExprId → String → Type 0
  IsSymbol g e name =
      (s : SymbolId) × At g e (Node.symbol s) × (get_elem? g.symbol_names s ≡ some name)

  -- A symbol is looked up or made by its name.
  pub sym-Builds :
      (g : Graph K) (name : String) → IsWf g → Builds 2 (sym name) g (λ e g'. IsSymbol g' e name)
  unfolding sym
  sym-Builds g name w = Builds-bind (symbol_of_name-Builds g name w) λ s g₁ gr p.
      Builds-imp (intern-Builds g₁ (Node.symbol s) gr.wf (get_elem?-lt g₁.symbol_names s p) tt)
        λ e g₂ gr₂ q. (s, q, get_elem?_prefix gr₂.ext.names s p)
