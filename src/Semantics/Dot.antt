-- ===== src/Semantics/Dot.antt =====
-- `dot_slice` of crates/rsdag/src/semantics.rs over two lists of one length.
use mathlib.Core.Option
use rsdag.Prelude.{
  ℕ, ◌+◌, ◌/◌, ◌≤◌, ◌≡◌, ap, refl, List, [], ◌∷◌, length, take, drop, some, arith, length-take,
  length-drop,
}
use rsdag.Field.{Field}
use rsdag.Semantics.{Scalar, dot_slice, products}

module _ {K : Field} (T : Scalar K) where
  products_total :
      (xs bs : List T.Val)
      → length xs ≤ length bs
      → (ps : List T.Val) × (products T xs bs ≡ some ps)
  unfolding products
  products_total [] bs h = ([], refl)
  products_total (x ∷ xs) [] h = elim h [ ]
  products_total (x ∷ xs) (b ∷ bs) h =
      let (ps, p) = products_total xs bs (omega arith) in
      (T.mul x b ∷ ps, ap (Option.map (λ ps. T.mul x b ∷ ps)) p)

  -- The inner product of a list's halves exists where its length is even.
  pub dot_slice_total :
      (vs : List T.Val) (n : ℕ)
      → length vs ≡ n + n
      → (v : T.Val) × (dot_slice T (take (length vs / 2) vs) (drop (length vs / 2) vs) ≡ some v)
  unfolding dot_slice
  dot_slice_total vs n h =
      let short : length (take (length vs / 2) vs) ≤ length (drop (length vs / 2) vs) =
        omega (arith, length-take (length vs / 2) vs, length-drop (length vs / 2) vs) in
      let (ps, p) = products_total _ _ short in (_, ap (Option.map _) p)
