-- ===== src/Graph/Fused/Dot.antt =====
-- `Graph::dot` of crates/rsdag/src/graph/mod.rs against the sum of its operands' products.
use mathlib.Core.Option
use mathlib.Core.List.{foldr}
use rsdag.Prelude.{
  ◌+◌, ◌/◌, ◌≤◌, ◌≡◌, ==_iff, refl, sym, ◌∙◌, ap, List, [], ◌∷◌, ◌++◌, map, length, take, drop, All,
  All-append, All-imp, some, arith, length-append, length-map,
}
use rsdag.Node.{ExprId, ArgList, Node}
use rsdag.Node.Operands.{window, window_prefix}
use rsdag.Field.{Field}
use rsdag.Semantics.{Scalar, dot_slice, products, fold_lanes}
use rsdag.Semantics.Folds.{fold_lanes_unit}
use rsdag.Graph.{Graph}
use rsdag.Graph.Valid.{
  IsWf, Has, Has-ext, Extends, Below, Builds-bind, Builds-imp, Builds-weaken, Builds-run, size,
  capacity,
}
use rsdag.Graph.Meaning.{Closures, IsValuation, node_value, list_values, dot_halves}
use rsdag.Graph.Denotes.{IsExact, Denotes-imp, At-Denotes}
use rsdag.Graph.Intern.Sound.{intern-Builds}
use rsdag.Graph.Intern.Lists.{intern_args-Builds}
use rsdag.Graph.Build.Base.{Makes, kept, zero-Denotes}
use rsdag.Graph.Build.Ring.{mul-Makes}
use rsdag.Graph.Build.Correct.{
  Succeeds, Makes-Succeeds, Makes-value, unit_scalar, unit_closures, unit_exact,
}
use rsdag.Graph.Fused.{dot, dot_of, dot_node}

module _ {A : Type 0} where
  take_front : (xs ys : List A) → take (length xs) (xs ++ ys) ≡ xs
  take_front [] ys = refl
  take_front (x ∷ xs) ys = ap (◌∷◌ x) (take_front xs ys)

  drop_front : (xs ys : List A) → drop (length xs) (xs ++ ys) ≡ ys
  drop_front [] ys = refl
  drop_front (x ∷ xs) ys = drop_front xs ys

map-append : {A B : Type 0} (f : A → B) (xs ys : List A) → map f (xs ++ ys) ≡ map f xs ++ map f ys
map-append f [] ys = refl
map-append f (x ∷ xs) ys = ap (◌∷◌ (f x)) (map-append f xs ys)

module _ {K : Field} (T : Scalar K) (cl : Closures T) (ex : IsExact T) where
  -- The products of two lists' values, pair by pair.
  abbrev pub pairs : (ExprId → T.Val) → List ExprId → List ExprId → List T.Val
  pairs get (x ∷ xs) (y ∷ ys) = T.mul (get x) (get y) ∷ pairs get xs ys
  pairs get _ _ = []

  -- Their sum.
  abbrev pub sum_of_products : List ExprId → List ExprId → (ExprId → T.Val) → T.Val
  sum_of_products xs ys get = foldr T.add T.zero (pairs get xs ys)

  products-pairs :
      (get : ExprId → T.Val) (xs ys : List ExprId)
      → length xs ≡ length ys
      → products T (map get xs) (map get ys) ≡ some (pairs get xs ys)
  unfolding products
  products-pairs get [] ys h = refl
  products-pairs get (x ∷ xs) [] h = let bad : ⊥ = omega arith in elim bad [ ]
  products-pairs get (x ∷ xs) (y ∷ ys) h =
      ap (Option.map (λ ps. T.mul (get x) (get y) ∷ ps)) (products-pairs get xs ys (omega arith))

  dot_slice-pairs :
      (get : ExprId → T.Val) (xs ys : List ExprId)
      → length xs ≡ length ys
      → dot_slice T (map get xs) (map get ys) ≡ some (sum_of_products xs ys get)
  unfolding dot_slice
  dot_slice-pairs get xs ys h =
      ap (Option.map (fold_lanes T.add T.zero T.zero T.zero T.zero)) (products-pairs get xs ys h)
      ∙ ap some
          (fold_lanes_unit T.add T.zero ex.add_assoc ex.add_comm ex.zero_add (pairs get xs ys))

  halves-pairs :
      (get : ExprId → T.Val) (xs ys : List ExprId)
      → length xs ≡ length ys
      → dot_halves T cl (map get (xs ++ ys)) ≡ some (sum_of_products xs ys get)
  unfolding dot_halves
  halves-pairs get xs ys h =
      let half : length (map get xs ++ map get ys) / 2 ≡ length (map get xs) =
        omega
          (arith, length-append (map get xs) (map get ys), length-map xs get, length-map ys get) in
      rw
        (
          map-append get xs ys,
          half,
          take_front (map get xs) (map get ys),
          drop_front (map get xs) (map get ys),
        )
        (dot_slice-pairs get xs ys h)

  dot_means :
      (g : Graph K) (get : ExprId → T.Val) (l : ArgList) (xs ys : List ExprId)
      → length xs ≡ length ys
      → window g.arg_pool l ≡ some (xs ++ ys)
      → node_value T cl g get (Node.dot l) ≡ some (sum_of_products xs ys get)
  unfolding node_value list_values Option.bind
  dot_means g get l xs ys h p =
      ap (λ o. Option.bind (Option.map (map get) o) (dot_halves T cl)) p ∙ halves-pairs get xs ys h

  module _ (g : Graph K) (w : IsWf g) where
    dot_node-Makes :
        (xs ys : List ExprId)
        → All (Has g) xs
        → All (Has g) ys
        → length xs ≡ length ys
        → Makes T cl ex (length (xs ++ ys) + 1) (dot_node (xs ++ ys)) g (sum_of_products xs ys)
    unfolding dot_node
    dot_node-Makes xs ys hx hy h =
        Builds-bind (intern_args-Builds g (xs ++ ys) w (All-append (Has g) xs ys hx hy))
          λ l g₁ gr p.
            Builds-imp (intern-Builds g₁ (Node.dot l) gr.wf (reads l g₁ gr.ext p) tt) λ e g₂ gr₂ q.
              At-Denotes T cl g₂ e (Node.dot l) (sum_of_products xs ys) q
                (λ get. means l g₁ g₂ gr₂.ext p get)
      where
        reads :
            (l : ArgList) (g₁ : Graph K)
            → Extends g g₁
            → window g₁.arg_pool l ≡ some (xs ++ ys)
            → Below g₁ (length g₁.nodes) (Node.dot l)
        reads l g₁ x p = (
          xs ++ ys,
          p,
          All-imp (xs ++ ys) (λ e k. Has-ext e x k) (All-append (Has g) xs ys hx hy),
          (length xs, omega (arith, length-append xs ys)),
        )

        means :
            (l : ArgList) (g₁ g₂ : Graph K)
            → Extends g₁ g₂
            → window g₁.arg_pool l ≡ some (xs ++ ys)
            → (get : ExprId → T.Val)
            → node_value T cl g₂ get (Node.dot l) ≡ some (sum_of_products xs ys get)
        means l g₁ g₂ x p get = dot_means g₂ get l xs ys h (window_prefix x.pool l p)

    dot_of-Makes :
        (xs ys : List ExprId)
        → All (Has g) xs
        → All (Has g) ys
        → length xs ≡ length ys
        → Makes T cl ex (length xs + length ys + 2) (dot_of xs ys) g (sum_of_products xs ys)
    unfolding dot_of
    dot_of-Makes [] ys hx hy h =
        kept T cl ex g w _ _ g.zero _ (zero-Denotes T cl ex g w).has refl
          (zero-Denotes T cl ex g w).value
    dot_of-Makes (x ∷ []) [] hx hy h = let bad : ⊥ = omega arith in elim bad [ ]
    dot_of-Makes (x ∷ []) (y ∷ []) hx hy h = Builds-weaken (omega arith) (
        Builds-imp (mul-Makes T cl ex g w x y hx.0 hy.0) λ e g' gr d.
          Denotes-imp T cl g' d λ get val.
            sym (ex.add_comm (T.mul (get x) (get y)) T.zero ∙ ex.zero_add (T.mul (get x) (get y))))
    dot_of-Makes (x ∷ []) (y ∷ y' ∷ ys) hx hy h = let bad : ⊥ = omega arith in elim bad [ ]
    dot_of-Makes (x ∷ x' ∷ xs) ys hx hy h =
        Builds-weaken (omega (arith, length-append (x ∷ x' ∷ xs) ys))
          (dot_node-Makes (x ∷ x' ∷ xs) ys hx hy h)

    pub dot-Makes :
        (xs ys : List ExprId)
        → All (Has g) xs
        → All (Has g) ys
        → length xs ≡ length ys
        → Makes T cl ex (length xs + length ys + 2) (dot xs ys) g (sum_of_products xs ys)
    unfolding dot
    dot-Makes xs ys hx hy h =
        Builds-run (rw ((==_iff (length xs) (length ys)).1 h) refl) (dot_of-Makes xs ys hx hy h)

    -- In exact arithmetic, over two lists of one length of ids of a well-formed graph with room for
    -- both lists and 2 entries, the result of `dot` evaluates to the sum of the products of the
    -- operands' values, pair by pair.
    pub dot_value :
        (xs ys : List ExprId)
        → All (Has g) xs
        → All (Has g) ys
        → length xs ≡ length ys
        → {g' : Graph K} {e : ExprId} (get : ExprId → T.Val) → IsValuation T cl g' get
        → size g + (length xs + length ys + 2) ≤ capacity
        → dot xs ys g ≡ some (e, g')
        → get e ≡ sum_of_products xs ys get
    dot_value xs ys hx hy h get val room run =
        Makes-value T cl ex g w (dot-Makes xs ys hx hy h) room run get val

-- Over two lists of one length of ids of a well-formed graph with room for both lists and two entries,
-- `dot` does not panic and leaves a well-formed graph that extends the one given.
pub dot_total :
    {K : Field} (g : Graph K) (w : IsWf g) (xs ys : List ExprId)
    → All (Has g) xs
    → All (Has g) ys
    → length xs ≡ length ys
    → size g + (length xs + length ys + 2) ≤ capacity
    → Succeeds (dot xs ys) g
dot_total {K} g w xs ys hx hy h room =
    Makes-Succeeds g w
      (dot-Makes (unit_scalar K) (unit_closures K) (unit_exact K) g w xs ys hx hy h) room
