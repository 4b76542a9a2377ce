-- ===== src/Graph/Build/Choice.antt =====
-- The lemmas behind `cmp` and `select` of crates/rsdag/src/graph/mod.rs.
use rsdag.Prelude.{
  ◌≡◌, refl, sym, ◌∙◌, ap, ap₂, ◌==◌, ==_iff, if◌then◌else◌, Bool, true, false, not, Bool-cases,
  inl, inr, Option, none, some,
}
use rsdag.Node.{ExprId, Node, CmpOp}
use rsdag.Field.{Field}
use rsdag.Semantics.{Scalar}
use rsdag.Graph.{Graph}
use rsdag.Graph.Valid.{IsWf, Has, IsConst, Builds-run}
use rsdag.Graph.Meaning.{Closures, IsValuation, node_value}
use rsdag.Graph.Denotes.{ReadsTruth, IsExact}
use rsdag.Graph.Intern.{intern}
use rsdag.Graph.Build.{cmp_ordering, cmp, cmp_consts, select, select_const}
use rsdag.Graph.Build.Base.{
  const_of_reads, Makes, kept, const_value, node_as, zero-Denotes, one-Denotes,
}

module _ {K : Field} (T : Scalar K) (cl : Closures T) (ex : IsExact T) (g : Graph K)
    (w : IsWf g) where
  if_some :
      (b : Bool) (x y : ExprId)
      → if◌then◌else◌ {A = Option (ExprId × Graph K)} b (some (x, g)) (some (y, g))
        ≡ some (if b then x else y, g)
  if_some true x y = refl
  if_some false x y = refl

  -- A Boolean as the id of its number.
  truth :
      (b : Bool)
      → (Has g (if b then g.one else g.zero))
        × ((get : ExprId → T.Val)
            → IsValuation T cl g get
            → get (if b then g.one else g.zero) ≡ (if b then T.one else T.zero))
  truth true = ((one-Denotes T cl ex g w).has, (one-Denotes T cl ex g w).value)
  truth false = ((zero-Denotes T cl ex g w).has, (zero-Denotes T cl ex g w).value)

  module _ (op : CmpOp) (a b : ExprId) (ha : Has g a) (hb : Has g b) where
    cmp_node-Makes : Makes T cl ex 2 (intern (Node.cmp op a b)) g (λ get. T.cmp op (get a) (get b))
    unfolding node_value
    cmp_node-Makes = node_as T cl ex g w (Node.cmp op a b) _ (ha, hb) tt λ g' get. refl

    cmp_consts-Makes :
        (x y : Option K.Const)
        → ((r : K.Const) → x ≡ some r → IsConst g a r)
        → ((r : K.Const) → y ≡ some r → IsConst g b r)
        → Makes T cl ex 2 (cmp_consts op x y a b) g (λ get. T.cmp op (get a) (get b))
    unfolding cmp_consts
    cmp_consts-Makes (some x) (some y) cx cy =
        let test = cmp_ordering op (K.partial_cmp x y) in
        kept T cl ex g w 2 _ (if test then g.one else g.zero) _ (truth test).0
          (if_some test g.one g.zero)
          λ get v.
            (truth test).1 get v
            ∙ sym (
                ap₂ (T.cmp op) (const_value T cl ex g w (cx x refl) get v)
                  (const_value T cl ex g w (cy y refl) get v)
                ∙ ex.embed_cmp op x y)
    cmp_consts-Makes (some x) none cx cy = Builds-run refl cmp_node-Makes
    cmp_consts-Makes none y cx cy = Builds-run refl cmp_node-Makes

    -- The comparison of two expressions, one or zero.
    pub cmp-Makes : Makes T cl ex 2 (cmp op a b) g (λ get. T.cmp op (get a) (get b))
    unfolding cmp
    cmp-Makes =
        let x = const_of_reads g a w ha in
        let y = const_of_reads g b w hb in
        Builds-run (rw (x.run, y.run)) (cmp_consts-Makes x.value y.value x.const y.const)

  module _ (c t e : ExprId) (hc : Has g c) (ht : Has g t) (he : Has g e) where
    -- The value of the arm that the condition takes.
    abbrev pub chosen : (ExprId → T.Val) → T.Val
    chosen get = if T.is_true (get c) then get t else get e

    same_arms : (b : Bool) (x : T.Val) → x ≡ (if b then x else x)
    same_arms true x = refl
    same_arms false x = refl

    module _
        (truth_of : (r : K.Const)
          → IsConst g c r
          → (get : ExprId → T.Val) → IsValuation T cl g get
          → get (if K.is_zero r then e else t) ≡ chosen get) where
      select_const-Makes :
          (x : Option K.Const)
          → ((r : K.Const) → x ≡ some r → IsConst g c r)
          → Makes T cl ex 2 (select_const x c t e) g chosen
      unfolding select_const node_value
      select_const-Makes (some r) cx = elim (Bool-cases (K.is_zero r)) [
        | inl z ↦ kept T cl ex g w 2 _ e _ he (rw z) λ get v. rw z at (truth_of r (cx r refl) get v)
        | inr z ↦ kept T cl ex g w 2 _ t _ ht (rw z) λ get v. rw z at (truth_of r (cx r refl) get v)
      ]
      select_const-Makes none cx = elim (Bool-cases (t == e)) [
        | inl s ↦
            kept T cl ex g w 2 _ t _ ht (rw s)
              λ get v. rw (← (==_iff t e).0 s) (same_arms (T.is_true (get c)) (get t))
        | inr s ↦
            Builds-run (rw s)
              (node_as T cl ex g w (Node.select c t e) _ (hc, ht, he) tt λ g' get. refl)
      ]

      select-Makes_if : Makes T cl ex 2 (select c t e) g chosen
      unfolding select
      select-Makes_if =
          let x = const_of_reads g c w hc in
          Builds-run (rw x.run) (select_const-Makes x.value x.const)

    folded_arm :
        (b : Bool) (get : ExprId → T.Val)
        → get (if b then e else t) ≡ (if not b then get t else get e)
    folded_arm true get = refl
    folded_arm false get = refl

    -- The arm that the condition takes.
    pub select-Makes : ReadsTruth T → Makes T cl ex 2 (select c t e) g chosen
    select-Makes truth = select-Makes_if λ r k get v.
        folded_arm (K.is_zero r) get
        ∙ ap (λ b. if b then get t else get e)
            (sym (ap T.is_true (const_value T cl ex g w k get v) ∙ truth r))
