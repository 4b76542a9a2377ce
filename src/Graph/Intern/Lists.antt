-- ===== src/Graph/Intern/Lists.antt =====
-- Lemmas on `Graph::intern_args` of crates/rsdag/src/graph/mod.rs: the invariant and the window.
use rsdag.Prelude.{
  ℕ, ◌+◌, ◌≤◌, ◌≡◌, refl, sym, ◌∙◌, ap, List, ◌∷◌, ◌++◌, length, none, some, arith, inl, inr,
  Option-cases, find, find-cons_self, find-cons_ne, All, length-append, prefix_refl, prefix_end,
  Reads,
}
use rsdag.Node.{ExprId, ArgList}
use rsdag.Node.Eq.{List-discrete}
use rsdag.Node.Operands.{window, window_prefix, window-append}
use rsdag.Field.{Field}
use rsdag.Graph.{Graph, no_context}
use rsdag.Graph.Valid.{
  IsWf, Extends, Grows, Builds, Builds-pure, Builds-weaken, size, capacity, IsConst-ext,
  IsCached-ext, Has,
}
use rsdag.Graph.Below.{Below-ext}
use rsdag.Graph.Intern.{
  intern_args, args_found, push_args, enter_args, window_at_end, mix_list, u32,
}
use rsdag.Graph.Intern.Total.{mix_list_total}

module _ {K : Field} where
  abbrev end_window : Graph K → List ExprId → ArgList
  end_window g es = record { start = length g.arg_pool; len = length es }

  abbrev with_list : Graph K → List ExprId → ℕ → Graph K
  with_list g es s = record g {
    arg_pool = g.arg_pool ++ es;
    arg_dedup = (es, end_window g es) ∷ g.arg_dedup;
    list_shape = ((no_context, end_window g es), s) ∷ g.list_shape;
  }

  with_list-ext : (g : Graph K) (es : List ExprId) (s : ℕ) → Extends g (with_list g es s)
  with_list-ext g es s = record {
    nodes = prefix_refl g.nodes;
    consts = prefix_refl g.consts;
    pool = prefix_end g.arg_pool es;
    names = prefix_refl g.symbol_names;
    zero = refl;
    one = refl;
    funcs = refl;
    outputs = refl;
    output_ctx = refl;
    contexts = refl;
  }

  with_list-IsWf : (g : Graph K) (es : List ExprId) (s : ℕ) → IsWf g → IsWf (with_list g es s)
  with_list-IsWf g es s w = record {
    nodes_index = w.nodes_index;
    consts_index = w.consts_index;
    symbols_index = w.symbols_index;
    lists = lists;
    shapes = w.shapes;
    ordered = λ i n h. Below-ext g (with_list g es s) i i n x (omega arith) (w.ordered i n h);
    zero_const = IsConst-ext g.zero x w.zero_const;
    one_const = IsConst-ext g.one x w.one_const;
    cache = λ y c h. IsCached-ext (K.from_f64 y) c x (w.cache y c h);
  }
    where
      x : Extends g (with_list g es s)
      x = with_list-ext g es s

      lists :
          (fs : List ExprId) (l : ArgList)
          → find List-discrete fs ((es, end_window g es) ∷ g.arg_dedup) ≡ some l
          → window (g.arg_pool ++ es) l ≡ some fs
      lists fs l h = elim (List-discrete es fs) [
        | yes p ↦
            let found : some (end_window g es) ≡ some l =
              sym (find-cons_self List-discrete es (end_window g es) g.arg_dedup)
              ∙ ap (λ t. find List-discrete t ((es, end_window g es) ∷ g.arg_dedup)) p
              ∙ h in
            let at : end_window g es ≡ l = cc in rw (← at, ← p) (window-append g.arg_pool es)
        | no n ↦ window_prefix x.pool l (
            w.lists fs l
              (sym (find-cons_ne List-discrete fs es (end_window g es) g.arg_dedup n) ∙ h))
      ]

  pushed :
      (g : Graph K) (es : List ExprId)
      → IsWf g
      → find List-discrete es g.arg_dedup ≡ none
      → Reads (mix_list 0 es) g
      → size g + length es ≤ capacity
      → (l : ArgList) × (g' : Graph K) × (intern_args es g ≡ some (l, g'))
        × Grows (length es) g g'
        × (window g'.arg_pool l ≡ some es)
  unfolding intern_args args_found push_args enter_args window_at_end size
  pushed g es w fresh r room =
      let start_fits : u32 (length g.arg_pool) ≡ length g.arg_pool = omega arith in
      let len_fits : u32 (length es) ≡ length es = omega arith in
      (
        end_window g es,
        with_list g es r.value,
        rw (fresh, r.run, start_fits, len_fits),
        record {
          wf = with_list-IsWf g es r.value w;
          ext = with_list-ext g es r.value;
          grown = omega (arith, length-append g.arg_pool es);
        },
        window-append g.arg_pool es,
      )

  -- A list of ids of the graph is interned: the window that comes back holds it.
  pub intern_args-Builds :
      (g : Graph K) (es : List ExprId)
      → IsWf g
      → All (λ e. Has g e) es
      → Builds (length es) (intern_args es) g (λ l g'. window g'.arg_pool l ≡ some es)
  unfolding intern_args args_found
  intern_args-Builds g es w b = elim (Option-cases (find List-discrete es g.arg_dedup)) [
    | inr (l, old) ↦ Builds-weaken (omega arith) (Builds-pure w (rw old) (w.lists es l old))
    | inl fresh ↦ record {
      run = λ room. pushed g es w fresh (mix_list_total g 0 es (rw w.shapes b)) room;
    }
  ]
