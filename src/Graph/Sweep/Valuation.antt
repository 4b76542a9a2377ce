-- ===== src/Graph/Sweep/Valuation.antt =====
-- The sweep of crates/rsdag/src/eval.rs against the valuations of a well-formed graph.
use mathlib.Core.Option
use rsdag.Prelude.{
  ℕ, ◌+◌, ◌<◌, ◌≡◌, refl, sym, ◌∙◌, ap, subst, List, [], ◌∷◌, ◌++◌, length, get_elem?, get_or, some,
  arith, append_assoc, append-nil, length-append, get_or-append, get_or-append_end,
  get_elem?-append_end, get_elem?-lt, ◌⊎◌, inl, inr,
}
use rsdag.Node.{ExprId, Node}
use rsdag.Field.{Field}
use rsdag.Semantics.{Scalar}
use rsdag.Graph.{Graph}
use rsdag.Graph.Valid.{IsWf, At}
use rsdag.Graph.Meaning.{Closures, IsValuation, node_value}
use rsdag.Graph.Sweep.{
  sweep, eval_arena, push, node_value-Agree, node_value_total, next_value-node_value,
}

module _ {K : Field} (T : Scalar K) (cl : Closures T) (g : Graph K) (wf : IsWf g) where
  abbrev reader : List T.Val → ExprId → T.Val
  reader w e = get_or w e T.nan

  -- The values so far fit the nodes so far.
  abbrev Fits : List T.Val → Type 0
  Fits w =
      (e : ExprId) (n : Node)
      → e < length w
      → At g e n
      → node_value T cl g (reader w) n ≡ some (reader w e)

  some_inj : {n m : Node} → some n ≡ some m → n ≡ m
  some_inj h = cc

  Fits-push :
      (w : List T.Val) (n : Node) (v : T.Val)
      → Fits w
      → At g (length w) n
      → node_value T cl g (reader w) n ≡ some v
      → Fits (w ++ v ∷ [])
  Fits-push w n v fits at is e m lt h =
      elim (old_or_new e (omega (arith, length-append w (v ∷ [])))) [
        | inl older ↦
            widened e m (omega arith) h
            ∙ fits e m older h
            ∙ ap some (sym (get_or-append w (v ∷ []) e T.nan older))
        | inr newest ↦
            subst
              (λ k.
                At g k m
                → node_value T cl g (reader (w ++ v ∷ [])) m ≡ some (reader (w ++ v ∷ []) k))
              (sym newest) (last m) h
      ]
    where
      old_or_new : (k : ℕ) → k < length w + 1 → (k < length w) ⊎ (k ≡ length w)
      old_or_new k lt = ground arith

      widened :
          (e : ExprId) (m : Node)
          → e < length w + 1
          → At g e m
          → node_value T cl g (reader (w ++ v ∷ [])) m ≡ node_value T cl g (reader w) m
      widened e m lt h =
          node_value-Agree T cl g e _ _ m
            (λ k below. get_or-append w (v ∷ []) k T.nan (omega arith)) (wf.ordered e m h)

      last :
          (m : Node)
          → At g (length w) m
          → node_value T cl g (reader (w ++ v ∷ [])) m ≡ some (reader (w ++ v ∷ []) (length w))
      last m h =
          widened (length w) m (omega arith) h
          ∙ ap (node_value T cl g (reader w)) (some_inj (sym h ∙ at))
          ∙ is
          ∙ ap some (sym (get_or-append_end w v [] T.nan))

  sweep-Fits :
      (pre ns : List Node) (w : List T.Val)
      → pre ++ ns ≡ g.nodes
      → length w ≡ length pre
      → Fits w
      → (w' : List T.Val) × (sweep T cl g ns w ≡ some w') × (length w' ≡ length g.nodes) × Fits w'
  unfolding sweep Option.bind
  sweep-Fits pre [] w split len fits =
      (w, refl, len ∙ ap length (sym (append-nil pre) ∙ split), fits)
  sweep-Fits pre (n ∷ ns) w split len fits =
      let here : At g (length w) n =
        subst (λ k. get_elem? g.nodes k ≡ some n) (sym len)
          (subst (λ ms. get_elem? ms (length pre) ≡ some n) split
            (get_elem?-append_end pre n ns)) in
      let (v, is) =
        node_value_total T cl g (length w) (reader w) n (wf.ordered (length w) n here) in
      let (w', run, full, fits') =
        sweep-Fits (pre ++ n ∷ []) ns (w ++ v ∷ []) (append_assoc pre (n ∷ []) ns ∙ split)
          (omega (arith, len, length-append w (v ∷ []), length-append pre (n ∷ [])))
          (Fits-push w n v fits here is) in
      (
        w',
        ap (λ o. Option.bind (push T cl w o) (sweep T cl g ns))
              (next_value-node_value T cl g w n (wf.ordered (length w) n here) ∙ is)
            ∙ run,
        full,
        fits',
      )

  -- Where the closures for symbols, calls and solutions return a value on every argument, the sweep
  -- over a well-formed graph does not panic: each node's operands have their values when it is
  -- reached, it gives one value per node, and the values are a valuation of the graph.
  pub eval_arena-IsValuation :
      (w : List T.Val) × (eval_arena T cl g ≡ some w)
      × (length w ≡ length g.nodes)
      × IsValuation T cl g (λ e. get_or w e T.nan)
  unfolding eval_arena
  eval_arena-IsValuation =
      let (w, run, full, fits) = sweep-Fits [] g.nodes [] refl refl (λ e n lt h. elim lt [ ]) in
      (
        w,
        run,
        full,
        record { solves = λ e n h. fits e n (omega (arith, full, get_elem?-lt g.nodes e h)) h },
      )
