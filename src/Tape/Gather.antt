-- ===== src/Tape/Gather.antt =====
-- Every op of a tape as a kernel's: `Tape::scalar` of crates/rsdag/src/tape/mod.rs on the operands that
-- `Tape::for_each_operand` lists.
use mathlib.Core.Option
use rsdag.Prelude.{
  ℕ, ◌≡◌, refl, sym, subst, ◌∙◌, Bool, true, false, Option, none, some, List, [], ◌∷◌, ◌*◌, take,
  drop, if◌then◌else◌,
}
use rsdag.Field.{Field}
use rsdag.Semantics.{Scalar, reduce_slice, dot_slice}
use rsdag.Program.{Kernels, computed}
use rsdag.Program.Specialize.Agree.{some_inj}
use rsdag.Tape.{Op, Tape, op_operands, kind_of, pool_at}
use rsdag.Tape.Run.{read_all, lift1, lift2, lift3, read, op_scalar, state_of, op_values}

module _ {A : Type 0} where
  -- The values of given operands, one by one.
  all_of1 :
      (f : A → A) (h : List A → Option (List A))
      → ((x : A) → h (x ∷ []) ≡ some (f x ∷ []))
      → (g : ℕ → Option A) (a : ℕ)
      → Option.map (λ v. v ∷ []) (lift1 f (g a)) ≡ Option.bind (read_all g (a ∷ [])) h
  unfolding read_all Option.bind
  all_of1 f h e g a = by (g a)
    where
      by :
          (o : Option A)
          → Option.map (λ v. v ∷ []) (lift1 f o)
            ≡ Option.bind (Option.bind o (λ v. Option.map (λ vs. v ∷ vs) (some []))) h
      by none = refl
      by (some x) = sym (e x)

  all_of2 :
      (f : A → A → A) (h : List A → Option (List A))
      → ((x y : A) → h (x ∷ y ∷ []) ≡ some (f x y ∷ []))
      → (g : ℕ → Option A) (a b : ℕ)
      → Option.map (λ v. v ∷ []) (lift2 f (g a) (g b)) ≡ Option.bind (read_all g (a ∷ b ∷ [])) h
  unfolding read_all Option.bind
  all_of2 f h e g a b = by (g a) (g b)
    where
      by :
          (o q : Option A)
          → Option.map (λ v. v ∷ []) (lift2 f o q)
            ≡ Option.bind
                (Option.bind o (λ v.
                  Option.map
                    (λ vs. v ∷ vs)
                    (Option.bind q (λ w. Option.map (λ vs. w ∷ vs) (some [])))))
                h
      by none q = refl
      by (some x) none = refl
      by (some x) (some y) = sym (e x y)

  all_of3 :
      (f : A → A → A → A) (h : List A → Option (List A))
      → ((x y z : A) → h (x ∷ y ∷ z ∷ []) ≡ some (f x y z ∷ []))
      → (g : ℕ → Option A) (a b c : ℕ)
      → Option.map (λ v. v ∷ []) (lift3 f (g a) (g b) (g c))
        ≡ Option.bind (read_all g (a ∷ b ∷ c ∷ [])) h
  unfolding read_all Option.bind
  all_of3 f h e g a b c = by (g a) (g b) (g c)
    where
      by :
          (o q r : Option A)
          → Option.map (λ v. v ∷ []) (lift3 f o q r)
            ≡ Option.bind
                (Option.bind o (λ v.
                  Option.map
                    (λ vs. v ∷ vs)
                    (Option.bind q (λ w.
                      Option.map
                        (λ vs. w ∷ vs)
                        (Option.bind r (λ u. Option.map (λ vs. u ∷ vs) (some [])))))))
                h
      by none q r = refl
      by (some x) none r = refl
      by (some x) (some y) none = refl
      by (some x) (some y) (some z) = sym (e x y z)

  -- A choice that reads the arm it takes, where both arms are there.
  all_of_choice :
      (is : A → Bool) (h : List A → Option (List A))
      → ((x y z : A) → h (x ∷ y ∷ z ∷ []) ≡ some ((if is x then y else z) ∷ []))
      → (g : ℕ → Option A) (a b c : ℕ) (xs : List A) → read_all g (a ∷ b ∷ c ∷ []) ≡ some xs
      → Option.map (λ v. v ∷ []) (Option.bind (g a) (λ x. if is x then g b else g c))
        ≡ Option.bind (read_all g (a ∷ b ∷ c ∷ [])) h
  unfolding read_all Option.bind
  all_of_choice is h e g a b c xs read = by (g a) (g b) (g c) read
    where
      chosen :
          (b : Bool) (y z : A)
          → ◌≡◌ {A = Option (List A)}
              (Option.map (λ v. v ∷ []) (if b then some y else some z))
              (some ((if b then y else z) ∷ []))
      chosen true y z = refl
      chosen false y z = refl

      by :
          (o q r : Option A)
          → Option.bind o (λ v.
            Option.map
              (λ vs. v ∷ vs)
              (Option.bind q (λ w.
                Option.map
                  (λ vs. w ∷ vs)
                  (Option.bind r (λ u. Option.map (λ vs. u ∷ vs) (some []))))))
            ≡ some xs
          → Option.map (λ v. v ∷ []) (Option.bind o (λ x. if is x then q else r))
            ≡ Option.bind
                (Option.bind o (λ v.
                  Option.map
                    (λ vs. v ∷ vs)
                    (Option.bind q (λ w.
                      Option.map
                        (λ vs. w ∷ vs)
                        (Option.bind r (λ u. Option.map (λ vs. u ∷ vs) (some [])))))))
                h
      by none q r read = refl
      by (some x) none r read = cc
      by (some x) (some y) none read = cc
      by (some x) (some y) (some z) read = chosen (is x) y z ∙ sym (e x y z)

module _ {K : Field} (T : Scalar K) (ks : Kernels T) (t : Tape K) (inputs work : List T.Val) where
  -- What an op computes from the operands that it lists and its state.
  abbrev pub gathered : Op K → Option (List T.Val)
  gathered op = Option.bind (kind_of t op) (λ k.
      Option.bind (Option.bind (op_operands t op) (read_all (read T inputs work)))
        (λ vs. Option.bind (state_of T t work op) (λ st. computed T ks k vs st)))

  -- Where its operands are there, a single value's op computes from those that it lists.
  pub op_values-gathered :
      (op : Op K) (ns : List ℕ) (xs : List T.Val)
      → op_operands t op ≡ some ns
      → read_all (read T inputs work) ns ≡ some xs
      → op_values T ks t inputs work op ≡ gathered op
  unfolding op_values op_scalar kind_of op_operands computed read_all Option.bind
  op_values-gathered (Op.const v) ns xs listed reads = refl
  op_values-gathered (Op.add a b) ns xs listed reads =
      all_of2 T.add _ (λ x y. refl) (read T inputs work) a b
  op_values-gathered (Op.mul a b) ns xs listed reads =
      all_of2 T.mul _ (λ x y. refl) (read T inputs work) a b
  op_values-gathered (Op.mul_add a b c) ns xs listed reads =
      all_of3 (λ x y z. T.add (T.mul x y) z) _ (λ x y z. refl) (read T inputs work) a b c
  op_values-gathered (Op.sub a b) ns xs listed reads =
      all_of2 T.sub _ (λ x y. refl) (read T inputs work) a b
  op_values-gathered (Op.neg a) ns xs listed reads =
      all_of1 T.neg _ (λ x. refl) (read T inputs work) a
  op_values-gathered (Op.powi a n) ns xs listed reads =
      all_of1 (λ x. T.powi x n) _ (λ x. refl) (read T inputs work) a
  op_values-gathered (Op.unary op a) ns xs listed reads =
      all_of1 (T.unary op) _ (λ x. refl) (read T inputs work) a
  op_values-gathered (Op.binary op a b) ns xs listed reads =
      all_of2 (T.binary op) _ (λ x y. refl) (read T inputs work) a b
  op_values-gathered (Op.cmp op a b) ns xs listed reads =
      all_of2 (T.cmp op) _ (λ x y. refl) (read T inputs work) a b
  op_values-gathered (Op.select c a b) ns xs listed reads =
      all_of_choice T.is_true _ (λ x y z. refl) (read T inputs work) c a b xs
        (subst (λ ns. read_all (read T inputs work) ns ≡ some xs) (sym (some_inj listed)) reads)
  op_values-gathered (Op.reduce op start len) ns xs listed reads =
      by (Option.bind (pool_at t start len) (read_all (read T inputs work)))
    where
      by :
          (o : Option (List T.Val))
          → Option.map (λ v. v ∷ []) (Option.map (reduce_slice T op) o)
            ≡ Option.bind o (λ vs. some (reduce_slice T op vs ∷ []))
      by none = refl
      by (some vs) = refl
  op_values-gathered (Op.dot start len) ns xs listed reads =
      by (Option.bind (pool_at t start (2 * len)) (read_all (read T inputs work)))
    where
      by :
          (o : Option (List T.Val))
          → Option.map (λ v. v ∷ []) (Option.bind o (λ vs. dot_slice T (take len vs) (drop len vs)))
            ≡ Option.bind o
                (λ vs. Option.map (λ v. v ∷ []) (dot_slice T (take len vs) (drop len vs)))
      by none = refl
      by (some vs) = refl
  op_values-gathered (Op.call b start n_groups n_args n_in reads n_out state args) ns xs listed
        there =
      refl
  op_values-gathered (Op.call_prolog b start n_groups n_pure args) ns xs listed reads = refl
  op_values-gathered (Op.gemv a x m n c) ns xs listed reads = refl
  op_values-gathered (Op.gemm a b m k n c) ns xs listed reads = refl
  op_values-gathered (Op.solve a b n k count) ns xs listed reads = refl
