-- ===== src/Nonlinearity/Sound.antt =====
-- The class of a node, crates/rsdag/src/nonlinearity.rs: degrees against what breaks polynomial
-- structure.
use mathlib.Core.Option
use rsdag.Prelude.{
  ℕ, ◌/◌, ◌≡◌, refl, sym, zero, suc, true, Option, none, some, List, [], ◌∷◌, map, length, take,
  drop, get_elem?, All, arith, Bool-cases, Option-cases, inl, inr,
}
use rsdag.Node.{ExprId, Node, ReduceOp}
use rsdag.Node.Operands.{window}
use rsdag.Field.{Field}
use rsdag.Graph.{Graph}
use rsdag.Nonlinearity.{
  Degree, times, plus, Nonlinearity, of_degree, constant, absorb, joined, all_constant,
  fold_degrees, with_degree, rational_part, piecewise_part, ordered_reduction, classify_reduce,
  classify_pairs, classify_node, classify,
}
use rsdag.Nonlinearity.Plain.{
  IsPlain, IsSound, Finite, plus_finite, times_finite, absorb-IsPlain, joined-IsPlain, IsPlain-part,
  unbounded-IsSound, constant-IsSound, of_degree-IsPlain, of_degree_degree, pair-IsSound,
  pow-IsSound, unary-IsSound, opaque-IsSound, is_constant-IsPlain, select-IsSound,
}

-- A fold of degrees is finite only where every operand's degree is.
fold_finite :
    (f : Degree → Degree → Degree)
    → ((x y : Degree) (d : ℕ) → f x y ≡ Degree.finite d → Finite x × Finite y)
    → (e : Degree) (cs : List Nonlinearity) (d : ℕ) → fold_degrees f e cs ≡ Degree.finite d
    → Finite e × All (λ c. Finite c.degree) cs
unfolding fold_degrees
fold_finite f h e [] d p = ((d, p), tt)
fold_finite f h e (c ∷ cs) d p =
    let (fe, rest) = fold_finite f h (f e c.degree) cs d p in
    let both = h e c.degree fe.0 fe.1 in (both.0, (both.1, rest))

All-IsPlain :
    (cs : List Nonlinearity) → All IsSound cs → All (λ c. Finite c.degree) cs → All IsPlain cs
All-IsPlain [] s f = tt
All-IsPlain (c ∷ cs) s f = (IsPlain-part s.0 f.0, All-IsPlain cs s.1 f.1)

fold-IsSound :
    (f : Degree → Degree → Degree) (cs : List Nonlinearity)
    → ((x y : Degree) (d : ℕ) → f x y ≡ Degree.finite d → Finite x × Finite y)
    → All IsSound cs
    → IsSound (with_degree (joined cs constant) (fold_degrees f (Degree.finite 0) cs))
unfolding constant
fold-IsSound f cs h s = record {
  plain = λ d p.
      joined-IsPlain cs constant (All-IsPlain cs s ((fold_finite f h (Degree.finite 0) cs d p).1))
        (of_degree-IsPlain (Degree.finite 0));
}

all_constant-IsPlain : (cs : List Nonlinearity) → all_constant cs ≡ true → All IsPlain cs
unfolding all_constant
all_constant-IsPlain [] h = tt
all_constant-IsPlain (c ∷ cs) h =
    (is_constant-IsPlain c (ground arith), all_constant-IsPlain cs (ground arith))

ordered-IsSound : (cs : List Nonlinearity) → IsSound (ordered_reduction cs (joined cs constant))
unfolding constant
ordered-IsSound cs = elim (Bool-cases (all_constant cs)) [
  | inl p ↦ rw p (record {
    plain = λ d h.
        joined-IsPlain cs constant (all_constant-IsPlain cs p)
          (of_degree-IsPlain (Degree.finite 0));
  })
  | inr p ↦ rw p (unbounded-IsSound _ refl)
]

reduce-IsSound :
    (op : ReduceOp) (cs : List Nonlinearity) → All IsSound cs → IsSound (classify_reduce op cs)
unfolding classify_reduce
reduce-IsSound ReduceOp.sum cs s = fold-IsSound plus cs plus_finite s
reduce-IsSound ReduceOp.product cs s = fold-IsSound times cs times_finite s
reduce-IsSound ReduceOp.min cs s = ordered-IsSound cs
reduce-IsSound ReduceOp.max cs s = ordered-IsSound cs

step-IsSound :
    (x y out : Nonlinearity)
    → IsSound x
    → IsSound y
    → IsSound out
    → IsSound (absorb (absorb (with_degree out (plus out.degree (times x.degree y.degree))) x) y)
unfolding absorb
step-IsSound x y out sx sy so = record {
  plain = λ d h.
      let fs = plus_finite out.degree (times x.degree y.degree) d h in
      let gs = times_finite x.degree y.degree (fs.1.0) (fs.1.1) in
      let grown = with_degree out (plus out.degree (times x.degree y.degree)) in
      absorb-IsPlain (absorb grown x) y
        (absorb-IsPlain grown x (IsPlain-part so fs.0) (IsPlain-part sx gs.0))
        (IsPlain-part sy gs.1);
}

pairs-IsSound :
    (xs ys : List Nonlinearity) (out : Nonlinearity)
    → All IsSound xs
    → All IsSound ys
    → IsSound out
    → IsSound (classify_pairs xs ys out)
unfolding classify_pairs
pairs-IsSound [] ys out sx sy s = s
pairs-IsSound (x ∷ xs) [] out sx sy s = s
pairs-IsSound (x ∷ xs) (y ∷ ys) out sx sy s =
    pairs-IsSound xs ys _ sx.1 sy.1 (step-IsSound x y out sx.0 sy.0 s)

All-take : (n : ℕ) (cs : List Nonlinearity) → All IsSound cs → All IsSound (take n cs)
All-take zero cs s = tt
All-take (suc n) [] s = tt
All-take (suc n) (c ∷ cs) s = (s.0, All-take n cs s.1)

All-drop : (n : ℕ) (cs : List Nonlinearity) → All IsSound cs → All IsSound (drop n cs)
All-drop zero cs s = s
All-drop (suc n) [] s = tt
All-drop (suc n) (c ∷ cs) s = All-drop n cs s.1

map-IsSound :
    (sub : ExprId → Nonlinearity) (es : List ExprId)
    → ((a : ExprId) → IsSound (sub a))
    → All IsSound (map sub es)
map-IsSound sub [] h = tt
map-IsSound sub (e ∷ es) h = (h e, map-IsSound sub es h)

some-IsSound : {c d : Nonlinearity} → some c ≡ some d → IsSound c → IsSound d
some-IsSound h s = rw (some_inj (sym h)) s
  where
    some_inj : {x y : Nonlinearity} → some x ≡ some y → x ≡ y
    some_inj p = cc

listed-IsSound :
    (w : Option (List ExprId)) (f : List ExprId → Nonlinearity) {c : Nonlinearity}
    → ((es : List ExprId) → IsSound (f es))
    → Option.map f w ≡ some c
    → IsSound c
unfolding Option.map
listed-IsSound none f h p = cc
listed-IsSound (some es) f h p = some-IsSound p (h es)

module _ (pool : List ExprId) (sub : ExprId → Nonlinearity)
    (h : (a : ExprId) → IsSound (sub a)) where
  node-IsSound : (n : Node) (c : Nonlinearity) → classify_node pool sub n ≡ some c → IsSound c
  unfolding classify_node
  node-IsSound (Node.const _) c p = some-IsSound p constant-IsSound
  node-IsSound (Node.symbol _) c p = cc
  node-IsSound (Node.call _ _) c p = cc
  node-IsSound (Node.neg a) c p = some-IsSound p (h a)
  node-IsSound (Node.add a b) c p =
      some-IsSound p
        (pair-IsSound (sub a) (sub b) _ (h a) (h b) (plus_finite (sub a).degree (sub b).degree))
  node-IsSound (Node.mul a b) c p =
      some-IsSound p
        (pair-IsSound (sub a) (sub b) _ (h a) (h b) (times_finite (sub a).degree (sub b).degree))
  node-IsSound (Node.pow a n) c p = some-IsSound p (pow-IsSound (sub a) n (h a))
  node-IsSound (Node.unary op a) c p = some-IsSound p (unary-IsSound op (sub a))
  node-IsSound (Node.binary op a b) c p = some-IsSound p (
      opaque-IsSound (sub a ∷ sub b ∷ []) (of_degree Degree.unbounded)
        (of_degree_degree Degree.unbounded))
  node-IsSound (Node.cmp op a b) c p =
      some-IsSound p (opaque-IsSound (sub a ∷ sub b ∷ []) piecewise_part refl)
  node-IsSound (Node.solve l k) c p =
      listed-IsSound (window pool l) _ (λ es. opaque-IsSound (map sub es) rational_part refl) p
  node-IsSound (Node.select x t e) c p =
      some-IsSound p (select-IsSound (sub x) (sub t) (sub e) (h t) (h e))
  node-IsSound (Node.reduce op l) c p =
      listed-IsSound (window pool l) _ (λ es. reduce-IsSound op (map sub es) (map-IsSound sub es h))
        p
  node-IsSound (Node.dot l) c p =
      listed-IsSound (window pool l) _
        (λ es.
          pairs-IsSound _ _ constant (All-take (length es / 2) (map sub es) (map-IsSound sub es h))
            (All-drop (length es / 2) (map sub es) (map-IsSound sub es h)) constant-IsSound)
        p

module _ {K : Field} (g : Graph K) (e : ExprId) (sub : ExprId → Nonlinearity)
    (c : Nonlinearity) where
  -- Where in every operand's class a part that is no polynomial (a transcendental function, a
  -- denominator, a branch, an opaque call) makes the degree unbounded, it does so in the class of a
  -- node that is classified from them: a finite degree has no such part.
  pub classify-IsSound : ((a : ExprId) → IsSound (sub a)) → classify g e sub ≡ some c → IsSound c
  unfolding classify Option.bind
  classify-IsSound h p = elim (Option-cases (get_elem? g.nodes e)) [
    | inl q ↦ cc (rw q at p)
    | inr (n, q) ↦ node-IsSound g.arg_pool sub h n c (rw q at p)
  ]
