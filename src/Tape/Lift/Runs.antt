-- ===== src/Tape/Lift/Runs.antt =====
-- A run of a tape as a run of the program that it lifts to, crates/rsdag/src/tape/compile.rs.
use rsdag.Prelude.{
  ℕ, suc, ◌+◌, ◌≤◌, ◌≡◌, refl, sym, ◌∙◌, ap, subst, Option, none, some, List, [], ◌∷◌, ◌++◌, map,
  length, write_block, arith,
}
use rsdag.Field.{Field}
use rsdag.Semantics.{Scalar}
use rsdag.Program.{Ref, Kind, Kernels, is_select, ref_value, inst_values, computed}
use rsdag.Program.Specialize.{u32_max, byte}
use rsdag.Program.Specialize.Agree.{some_inj}
use rsdag.Program.Specialize.Pins.{trace_step, choice_of}
use rsdag.Program.Specialize.Whole.{bind_some, map-some}
use rsdag.Tape.{Op, Tape, op_operands, kind_of}
use rsdag.Tape.Run.{read_all, op_values, choices_of, read, inputs_at}
use rsdag.Tape.Gather.{op_values-gathered}
use rsdag.Tape.Lift.{value_at}
use rsdag.Tape.Lift.Held.{read_all-total, Holds, read_all-value_at}
use rsdag.Tape.Lift.Kept.{KeepsState, chooses, kind_of-is_select}
use rsdag.Tape.Lift.State.{op_state}

-- A sequence from `i` on is another.
abbrev pub Continues : {A : Type 0} → (ℕ → A) → ℕ → (ℕ → A) → Type 0
Continues f i g = (n : ℕ) → f (i + n) ≡ g n

pub add_suc : (i n : ℕ) → suc i + n ≡ i + suc n
add_suc i n = omega arith

pub add_zero : (i : ℕ) → i + 0 ≡ i
add_zero i = omega arith

module _ {A : Type 0} where
  pub Continues-suc :
      (f : ℕ → A) (i : ℕ) (g : ℕ → A) → Continues f i g → Continues f (suc i) (λ n. g (suc n))
  Continues-suc f i g h n = ap f (add_suc i n) ∙ h (suc n)

  pub Continues-zero : (f : ℕ → A) (i : ℕ) (g : ℕ → A) → Continues f i g → f i ≡ g 0
  Continues-zero f i g h = ap f (sym (add_zero i)) ∙ h 0

module _ {K : Field} (T : Scalar K) (ks : Kernels T) (t : Tape K) (inputs : List T.Val) where
  -- The block that each op computes.
  unfoldable pub blocks : List (Op K) → List ℕ → List T.Val → List (List T.Val)
  unfolding op_values
  blocks [] dst work = []
  blocks (op ∷ ops) [] work = []
  blocks (op ∷ ops) (d ∷ dst) work = elim (op_values T ks t inputs work op) [
    | none ↦ []
    | some vs ↦ vs ∷ blocks ops dst (write_block vs d work)
  ]

-- The bytes that an op's instruction gives to the trace are the op's.
pub step-choices_of :
    {K : Field} (T : Scalar K) (t : Tape K) (val : Ref → T.Val) (g : ℕ → Option T.Val) (op : Op K)
    (k : Kind K) (ns : List ℕ) (vs : List T.Val) (rs : List Ref) (rest : List ℕ)
    → kind_of t op ≡ some k
    → op_operands t op ≡ some ns
    → read_all g ns ≡ some vs
    → map val rs ≡ vs
    → trace_step (is_select k) (choice_of (λ r. T.is_true (val r)) (some rs)) rest
      ≡ choices_of T g op ++ rest
unfolding op_operands read_all
step-choices_of {K = K} T t val g op k ns vs rs rest kind listed read same =
    rw (kind_of-is_select t op k kind) (by op listed)
  where
    chosen :
        (v : T.Val) (o : Option T.Val) (vs' : List T.Val) (rs : List Ref)
        → o ≡ some v
        → map val rs ≡ v ∷ vs'
        → choice_of (λ r. T.is_true (val r)) (some rs) ∷ rest
          ≡ (elim o [ none ↦ [] | some v ↦ byte (T.is_true v) ∷ [] ]) ++ rest
    chosen v none vs' rs e h = cc
    chosen v (some v') vs' [] e h = cc
    chosen v (some v') vs' (r ∷ rs) e h =
        ap (λ v. byte (T.is_true v) ∷ rest) (head h ∙ sym (some_inj e))
      where
        head : {a b : T.Val} {xs ys : List T.Val} → a ∷ xs ≡ b ∷ ys → a ≡ b
        head e = cc

    by :
        (op : Op K)
        → op_operands t op ≡ some ns
        → trace_step (chooses t op) (choice_of (λ r. T.is_true (val r)) (some rs)) rest
          ≡ choices_of T g op ++ rest
    by (Op.select c a b) listed =
        let (v, at, m) =
          bind_some _ _ (subst (λ ns. read_all g ns ≡ some vs) (sym (some_inj listed)) read) in
        let (vs', _, e) = map-some _ _ m in chosen v (g c) vs' rs at (same ∙ sym e)
    by _ listed = refl

module _ {K : Field} (T : Scalar K) (ks : Kernels T) (t : Tape K) (inputs : List T.Val)
    (get : ℕ → List T.Val) (few : length t.dst ≤ u32_max) where
  -- An instruction computes what its op does.
  pub step-inst_values :
      (i : ℕ) (held : List ℕ) (work : List T.Val) (op : Op K) (k : Kind K) (ns : List ℕ)
      (rs : List Ref) (vs : List T.Val)
      → Holds T ks t inputs get i held work
      → KeepsState t held op
      → kind_of t op ≡ some k
      → op_operands t op ≡ some ns
      → read_all (value_at t held) ns ≡ some rs
      → op_values T ks t inputs work op ≡ some vs
      → (inst_values T ks (inputs_at T inputs) get k rs ≡ some vs)
        × (xs : List T.Val) × (read_all (read T inputs work) ns ≡ some xs)
        × (map (ref_value T ks (inputs_at T inputs) get) rs ≡ xs)
  unfolding inst_values
  step-inst_values i held work op k ns rs vs h kept kind listed values computed_vs =
      let (xs, reads) = read_all-total T ks t inputs get few i held work ns rs h values in
      let (k', kind', b) =
        bind_some _ _
          (sym (op_values-gathered T ks t inputs work op ns xs listed reads) ∙ computed_vs) in
      let (xs', read', b) = bind_some _ _ b in
      let (ns', listed', reads') = bind_some _ _ read' in
      let (st, state, b) = bind_some _ _ b in
      let same_xs : xs' ≡ xs = some_inj (
        sym (
          subst (λ ns. read_all (read T inputs work) ns ≡ some xs')
            (some_inj (sym listed' ∙ listed)) reads')
        ∙ reads) in
      let same = read_all-value_at T ks t inputs get few i held work ns xs rs h reads values in
      let state_same =
        op_state T ks t inputs get few i held work op k ns rs st h kept kind listed values state in
      (
        rw (same, sym state_same)
            (subst (λ xs. computed T ks k xs st ≡ some vs) same_xs
              (subst (λ k. computed T ks k xs' st ≡ some vs) (some_inj (sym kind' ∙ kind)) b)),
        xs,
        reads,
        same,
      )
