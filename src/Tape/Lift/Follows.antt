-- ===== src/Tape/Lift/Follows.antt =====
-- A run of a tape's ops beside the instructions that they lift to, crates/rsdag/src/tape/compile.rs.
use rsdag.Prelude.{
  ℕ, zero, suc, ◌+◌, ◌≤◌, ◌≡◌, refl, sym, ◌∙◌, ap, subst, false, Option, none, some, List, [], ◌∷◌,
  ◌++◌, length, get_elem?, get_or, append_assoc, append-nil, fill, write_block,
}
use rsdag.Field.{Field}
use rsdag.Semantics.{Scalar}
use rsdag.Program.{Ref, Inst, Program, Kernels, ins_of, ref_value, inst_values}
use rsdag.Program.Specialize.{u32_max}
use rsdag.Program.Specialize.Agree.{some_inj}
use rsdag.Program.Specialize.Pins.{trace_from}
use rsdag.Program.Specialize.Checked.{truth_of}
use rsdag.Tape.{Op, Tape, width}
use rsdag.Tape.Run.{op_values, choices_of, exec, read, inputs_at}
use rsdag.Tape.Lift.{Lifted, ended, lift_from, inst_of}
use rsdag.Tape.Lift.Held.{Holds, Holds-step}
use rsdag.Tape.Lift.Kept.{KeepsState, KeepsStates}
use rsdag.Tape.Lift.Steps.{step-ins_of, LiftStep, lift_step, ExecStep, exec_step}
use rsdag.Tape.Lift.Runs.{
  Continues, Continues-suc, Continues-zero, add_suc, add_zero, blocks, step-choices_of,
  step-inst_values,
}

module _ {K : Field} (T : Scalar K) (ks : Kernels T) (t : Tape K) (inputs : List T.Val)
    (get : ℕ → List T.Val) (few : length t.dst ≤ u32_max) where
  -- The lifted instructions from op `i` on compute the blocks, and record the trace.
  pub record Follows (i : ℕ) (pool : List Ref) (l : Lifted K) (work : List T.Val) (trace : List ℕ)
      : Type 0 where
    pub last : ℕ
    pub holds : Holds T ks t inputs get last l.held work
    pub no_placeholder : l.uses_placeholder ≡ false
    pub more : List Ref
    pub grows : l.pool ≡ pool ++ more
    pub computes :
        (p : Program K)
        → p.pool ≡ l.pool
        → (n : ℕ) (inst : Inst K) (rs : List Ref) → get_elem? l.insts n ≡ some inst
        → ins_of p inst ≡ some rs
        → inst_values T ks (inputs_at T inputs) get inst.kind rs ≡ some (get (i + n))
    pub traces :
        (p : Program K)
        → p.pool ≡ l.pool
        → trace_from p (truth_of T ks (inputs_at T inputs) get) 0 l.insts ≡ trace

  cons_computes :
      (p : Program K) (i : ℕ) (first : Inst K) (rs' : List Ref) (insts : List (Inst K))
      → ins_of p first ≡ some rs'
      → inst_values T ks (inputs_at T inputs) get first.kind rs' ≡ some (get i)
      → ((n : ℕ) (inst : Inst K) (rs : List Ref)
          → get_elem? insts n ≡ some inst
          → ins_of p inst ≡ some rs
          → inst_values T ks (inputs_at T inputs) get inst.kind rs ≡ some (get (suc i + n)))
      → (n : ℕ) (inst : Inst K) (rs : List Ref) → get_elem? (first ∷ insts) n ≡ some inst
      → ins_of p inst ≡ some rs
      → inst_values T ks (inputs_at T inputs) get inst.kind rs ≡ some (get (i + n))
  cons_computes p i first rs' insts at value rest zero inst rs e₁ e₂ =
      subst
        (λ (inst : Inst K).
          ins_of p inst ≡ some rs
          → inst_values T ks (inputs_at T inputs) get inst.kind rs ≡ some (get (i + 0)))
        (some_inj e₁)
        (λ e.
          subst (λ rs. inst_values T ks (inputs_at T inputs) get first.kind rs ≡ some (get (i + 0)))
            (some_inj (sym at ∙ e)) (value ∙ ap (λ n. some (get n)) (sym (add_zero i))))
        e₂
  cons_computes p i first rs' insts at value rest (suc n) inst rs e₁ e₂ =
      rest n inst rs e₁ e₂ ∙ ap (λ n. some (get n)) (add_suc i n)

  -- The instructions of the ops from `i` on, behind an op's.
  Follows-step :
      (op : Op K) (d i : ℕ) (pool : List Ref) (held : List ℕ) (work work' : List T.Val)
      (l : Lifted K) (trace : List ℕ) (then_lift : List Ref → List ℕ → Option (Lifted K))
      (then_run : List T.Val → Option (List T.Val × List ℕ))
      → (s : LiftStep t op d i pool held l then_lift)
      → (e : ExecStep T t op d
          (op_values T ks t inputs work op)
          (choices_of T (read T inputs work) op)
          work
          work'
          trace
          then_run)
      → Holds T ks t inputs get i held work
      → KeepsState t held op
      → get i ≡ e.vs
      → Follows (suc i) (pool ++ s.rs) s.rest work' e.rest
      → Follows i pool l work' trace
  unfolding trace_from
  Follows-step op d i pool held work work' l trace then_lift then_run s e h kept block rest =
      let (values, xs, reads, same) =
        step-inst_values T ks t inputs get few i held work op s.kind s.ns s.rs e.vs h kept
          s.computes s.listed s.values e.values in
      let grown : s.rest.pool ≡ pool ++ (s.rs ++ rest.more) =
        rest.grows ∙ append_assoc pool s.rs rest.more in
      let operands_at = λ (p : Program K) (at : p.pool ≡ s.rest.pool).
        step-ins_of t op i s.kind pool s.rs rest.more p (at ∙ rest.grows) in
      subst (λ l. Follows i pool l work' trace) s.here
        (subst (Follows i pool _ work') e.here (record {
          last = rest.last;
          holds = rest.holds;
          no_placeholder = rest.no_placeholder;
          more = s.rs ++ rest.more;
          grows = grown;
          computes = λ p at.
              cons_computes p i (inst_of t op i s.kind (length pool) s.rs) s.rs s.rest.insts
                (operands_at p at) (values ∙ ap some (sym block)) (rest.computes p at);
          traces = λ p at.
              rw (operands_at p at, rest.traces p at)
                (step-choices_of T t (ref_value T ks (inputs_at T inputs) get) (read T inputs work)
                  op s.kind s.ns xs s.rs e.rest s.computes s.listed reads same);
        }))

  -- The first block is the op's, and the others are the later ops'.
  blocks_step :
      (op : Op K) (d : ℕ) (ops : List (Op K)) (dst : List ℕ) (i : ℕ) (work vs : List T.Val)
      → op_values T ks t inputs work op ≡ some vs
      → Continues get i (λ n. get_or (blocks T ks t inputs (op ∷ ops) (d ∷ dst) work) n [])
      → (get i ≡ vs)
        × Continues get
            (suc i)
            (λ n. get_or (blocks T ks t inputs ops dst (write_block vs d work)) n [])
  unfolding blocks
  blocks_step op d ops dst i work vs e h =
      let h' : Continues get i
          (λ n. get_or (vs ∷ blocks T ks t inputs ops dst (write_block vs d work)) n []) =
        subst
          (λ (o : Option (List T.Val)). Continues get i (λ n.
            get_or
              (elim o [
                | none ↦ []
                | some vs ↦ vs ∷ blocks T ks t inputs ops dst (write_block vs d work)
              ])
              n []))
          e h in
      (
        Continues-zero get i
            (λ n. get_or (vs ∷ blocks T ks t inputs ops dst (write_block vs d work)) n []) h',
        Continues-suc get i
            (λ n. get_or (vs ∷ blocks T ks t inputs ops dst (write_block vs d work)) n []) h',
      )

  -- A run of the ops and what they lift to, slot by slot.
  pub follows :
      (ops : List (Op K)) (dst : List ℕ) (i : ℕ) (pool : List Ref) (held : List ℕ)
      (work work' : List T.Val) (l : Lifted K) (trace : List ℕ)
      → lift_from t ops dst i pool held ≡ some l
      → ◌≡◌ {A = Option (List T.Val × List ℕ)}
          (exec T ks t inputs ops dst work)
          (some (work', trace))
      → KeepsStates t ops dst i held
      → Continues (get_elem? t.ops) i (get_elem? ops)
      → Continues (get_elem? t.dst) i (get_elem? dst)
      → Continues get i (λ n. get_or (blocks T ks t inputs ops dst work) n [])
      → Holds T ks t inputs get i held work
      → Follows i pool l work' trace
  unfolding lift_from exec blocks trace_from
  follows [] dst i pool held work work' l trace lifted run kept at_ops at_dst at_get h =
      subst (λ l. Follows i pool l work' trace) (some_inj lifted)
        (subst (λ r. Follows i pool (ended pool held) r.0 r.1) (some_inj run)
          (record {
            last = i;
            holds = h;
            no_placeholder = refl;
            more = [];
            grows = sym (append-nil pool);
            computes = λ p at n inst rs e₁ e₂. no_inst inst n e₁;
            traces = λ p at. refl;
          }))
    where
      no_inst : {P : Type 0} (inst : Inst K) (n : ℕ) → get_elem? [] n ≡ some inst → P
      no_inst inst n e = cc
  follows (op ∷ ops) [] i pool held work work' l trace lifted run kept at_ops at_dst at_get h = cc
  follows (op ∷ ops) (d ∷ dst) i pool held work work' l trace lifted run kept at_ops at_dst at_get
        h =
      let s = lift_step t op d i pool held l (lift_from t ops dst (suc i)) kept.0 lifted in
      let e =
        exec_step T t op d (op_values T ks t inputs work op) (choices_of T (read T inputs work) op)
          work work' trace (exec T ks t inputs ops dst) run in
      let (block, later) = blocks_step op d ops dst i work e.vs e.values at_get in
      Follows-step op d i pool held work work' l trace (lift_from t ops dst (suc i))
        (exec T ks t inputs ops dst) s e h kept.1 block
        (follows ops dst (suc i) (pool ++ s.rs) (fill i d (width t op) held)
          (write_block e.vs d work) work' s.rest e.rest s.next e.next kept.2
          (Continues-suc (get_elem? t.ops) i (get_elem? (op ∷ ops)) at_ops)
          (Continues-suc (get_elem? t.dst) i (get_elem? (d ∷ dst)) at_dst) later
          (subst
            (λ vs.
              Holds T ks t inputs get (suc i) (fill i d (width t op) held) (write_block vs d work))
            block
            (Holds-step T ks t inputs get i d held work op h
              (Continues-zero (get_elem? t.ops) i (get_elem? (op ∷ ops)) at_ops)
              (Continues-zero (get_elem? t.dst) i (get_elem? (d ∷ dst)) at_dst)
              (ap length block ∙ e.size) e.fits)))
