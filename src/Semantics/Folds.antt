-- ===== src/Semantics/Folds.antt =====
-- The folds in four lanes of crates/rsdag/src/semantics.rs against the plain fold.
use rsdag.Prelude.{◌≡◌, sym, ◌∙◌, ap, ap₂, List, [], ◌∷◌}
use rsdag.Semantics.{fold_rest, fold_lanes}
use mathlib.Core.List.{foldr}

module _ {A : Type 0} (f : A → A → A) (e : A) (assoc : (a b c : A) → f (f a b) c ≡ f a (f b c))
    (comm : (a b : A) → f a b ≡ f b a) (unit : (a : A) → f e a ≡ a) where
  fold_rest-eq-foldr : (acc : A) (xs : List A) → fold_rest f acc xs ≡ f acc (foldr f e xs)
  unfolding fold_rest
  fold_rest-eq-foldr acc [] = sym (comm acc e ∙ unit acc)
  fold_rest-eq-foldr acc (x ∷ xs) = fold_rest-eq-foldr (f acc x) xs ∙ assoc acc x (foldr f e xs)

  medial : (a x b y : A) → f (f a x) (f b y) ≡ f (f a b) (f x y)
  medial a x b y =
      assoc a x (f b y)
      ∙ ap (f a) (sym (assoc x b y) ∙ ap (λ t. f t y) (comm x b) ∙ assoc b x y)
      ∙ sym (assoc a b (f x y))

  -- One chunk taken off the lanes.
  chunk :
      (a b c d x y z w r : A)
      → f (f (f (f a x) (f b y)) (f (f c z) (f d w))) r
        ≡ f (f (f a b) (f c d)) (f x (f y (f z (f w r))))
  chunk a b c d x y z w r =
      ap (λ t. f t r)
        (ap₂ f (medial a x b y) (medial c z d w) ∙ medial (f a b) (f x y) (f c d) (f z w))
      ∙ assoc (f (f a b) (f c d)) (f (f x y) (f z w)) r
      ∙ ap (f (f (f a b) (f c d)))
          (assoc (f x y) (f z w) r ∙ assoc x y (f (f z w) r) ∙ ap (λ t. f x (f y t)) (assoc z w r))

  pub fold_lanes-eq-foldr :
      (a b c d : A) (xs : List A) → fold_lanes f a b c d xs ≡ f (f (f a b) (f c d)) (foldr f e xs)
  unfolding fold_lanes
  fold_lanes-eq-foldr a b c d (x ∷ y ∷ z ∷ w ∷ xs) =
      fold_lanes-eq-foldr (f a x) (f b y) (f c z) (f d w) xs ∙ chunk a b c d x y z w (foldr f e xs)
  fold_lanes-eq-foldr a b c d xs = fold_rest-eq-foldr (f (f a b) (f c d)) xs

  -- Over an associative and commutative operation with a left identity, the fold in four lanes that
  -- start at the identity is the fold from the right.
  pub fold_lanes_unit : (xs : List A) → fold_lanes f e e e e xs ≡ foldr f e xs
  fold_lanes_unit xs =
      fold_lanes-eq-foldr e e e e xs
      ∙ ap (λ t. f t (foldr f e xs)) (ap₂ f (unit e) (unit e) ∙ unit e)
      ∙ unit (foldr f e xs)
