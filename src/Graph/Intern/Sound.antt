-- ===== src/Graph/Intern/Sound.antt =====
-- Lemmas on `Graph::intern` of crates/rsdag/src/graph/mod.rs: the invariant and the id.
use rsdag.Prelude.{
  ℕ, ◌+◌, ◌≤◌, ◌≡◌, refl, [], ◌∷◌, ◌++◌, length, none, some, arith, inl, inr, Option-cases, find,
  IsIndex-push, length-append, prefix_refl, prefix_end, get_elem?-append_end, get_elem?-snoc, Reads,
}
use rsdag.Node.{ExprId, Node}
use rsdag.Node.Eq.{Node-discrete}
use rsdag.Field.{Field}
use rsdag.Graph.{Graph}
use rsdag.Graph.Valid.{
  IsWf, IsCached-ext, At, Below, Extends, Grows, Builds, Builds-pure, Builds-weaken, size, capacity,
  IsConst-ext,
}
use rsdag.Graph.Below.{Below-ext}
use rsdag.Graph.Intern.{intern, intern_found, push_node, shape_of, u32}
use rsdag.Graph.Intern.Total.{NotCall, shape_of_total}

module _ {K : Field} where
  -- The graph with one node more.
  abbrev with_node : Graph K → Node → ℕ → Graph K
  with_node g n s = record g {
    nodes = g.nodes ++ n ∷ [];
    shape = g.shape ++ s ∷ [];
    dedup = (n, length g.nodes) ∷ g.dedup;
  }

  with_node-ext : (g : Graph K) (n : Node) (s : ℕ) → Extends g (with_node g n s)
  with_node-ext g n s = record {
    nodes = prefix_end g.nodes (n ∷ []);
    consts = prefix_refl g.consts;
    pool = prefix_refl g.arg_pool;
    names = prefix_refl g.symbol_names;
    zero = refl;
    one = refl;
    funcs = refl;
    outputs = refl;
    output_ctx = refl;
    contexts = refl;
  }

  with_node-IsWf :
      (g : Graph K) (n : Node) (s : ℕ)
      → IsWf g
      → Below g (length g.nodes) n
      → find Node-discrete n g.dedup ≡ none
      → IsWf (with_node g n s)
  with_node-IsWf g n s w b fresh = record {
    nodes_index = IsIndex-push Node-discrete g.nodes g.dedup n w.nodes_index fresh;
    consts_index = w.consts_index;
    symbols_index = w.symbols_index;
    lists = w.lists;
    shapes =
        omega (arith, w.shapes, length-append g.nodes (n ∷ []), length-append g.shape (s ∷ []));
    ordered = ordered;
    zero_const = IsConst-ext g.zero x w.zero_const;
    one_const = IsConst-ext g.one x w.one_const;
    cache = λ y c h. IsCached-ext (K.from_f64 y) c x (w.cache y c h);
  }
    where
      x : Extends g (with_node g n s)
      x = with_node-ext g n s

      ordered : (i : ℕ) (m : Node) → At (with_node g n s) i m → Below (with_node g n s) i m
      ordered i m h = elim (get_elem?-snoc g.nodes n i h) [
        | inl old ↦ Below-ext g (with_node g n s) i i m x (omega arith) (w.ordered i m old)
        | inr (e, p) ↦
            rw (e, ← p)
              (Below-ext g (with_node g n s) (length g.nodes) (length g.nodes) n x (omega arith) b)
      ]

  pushed :
      (g : Graph K) (n : Node)
      → IsWf g
      → Below g (length g.nodes) n
      → find Node-discrete n g.dedup ≡ none
      → Reads (shape_of n) g
      → size g + 1 ≤ capacity
      → (e : ExprId) × (g' : Graph K) × (intern n g ≡ some (e, g')) × Grows 1 g g' × At g' e n
  unfolding intern intern_found push_node size
  pushed g n w b fresh r room =
      let fits : u32 (length g.nodes) ≡ length g.nodes = omega arith in
      (
        length g.nodes,
        with_node g n r.value,
        rw (fresh, r.run, fits),
        record {
          wf = with_node-IsWf g n r.value w b fresh;
          ext = with_node-ext g n r.value;
          grown = omega (arith, length-append g.nodes (n ∷ []));
        },
        get_elem?-append_end g.nodes n [],
      )

  -- A node over valid operands, no call, is interned: the id that comes back stands for it.
  pub intern-Builds :
      (g : Graph K) (n : Node)
      → IsWf g
      → Below g (length g.nodes) n
      → NotCall n
      → Builds 1 (intern n) g (λ e g'. At g' e n)
  unfolding intern intern_found
  intern-Builds g n w b nc = elim (Option-cases (find Node-discrete n g.dedup)) [
    | inr (e, old) ↦
        Builds-weaken (omega arith) (Builds-pure w (rw old) (w.nodes_index.sound n e old))
    | inl fresh ↦ record { run = λ room. pushed g n w b fresh (shape_of_total g w n b nc) room }
  ]
