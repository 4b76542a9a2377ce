-- ===== src/Tape/Lift/Programs.antt =====
-- What a tape lifts to is a program in dependency order, crates/rsdag/src/tape/compile.rs.
use mathlib.Core.Option
use rsdag.Prelude.{
  ℕ, zero, suc, ◌+◌, ◌≤◌, ◌≡◌, refl, sym, ◌∙◌, ap, subst, true, false, none, some, List, [], ◌∷◌,
  ◌++◌, length, get_elem?, append_assoc, append-nil, fill, arith, All, inl,
}
use rsdag.Field.{Field}
use rsdag.Program.{
  Ref, Inst, Program, IsProgram, IsOlder, HasArms, EndsInBlock, is_stateful, ins_of,
}
use rsdag.Program.Specialize.{u32_max}
use rsdag.Program.Specialize.Agree.{some_inj}
use rsdag.Program.Specialize.Whole.{bind_some, map-some}
use rsdag.Tape.{Op, Tape, width}
use rsdag.Tape.Lift.{Lifted, lift_from, inst_of, unheld, lift}
use rsdag.Tape.Lift.Kept.{KeepsStates}
use rsdag.Tape.Lift.Steps.{step-ins_of, lift_step}
use rsdag.Tape.Lift.Ordered.{Places, Places-step, read_all-All}
use rsdag.Tape.Lift.Arms.{lifted-HasArms, lifted-EndsInBlock}
use rsdag.Tape.Lift.Runs.{Continues, Continues-suc, Continues-zero, add_suc, add_zero}
use rsdag.Tape.Lift.Whole.{lifted_program-plain, IsStream, plain_program, unheld_at, zero_add}

module _ {K : Field} (t : Tape K) (p : Program K) where
  -- An instruction in its place reads older ones.
  pub record IsInst (i : ℕ) (inst : Inst K) : Type 0 where
    pub rs : List Ref
    pub at : ins_of p inst ≡ some rs
    pub older : All (IsOlder p i) rs
    pub arms : HasArms p inst.kind rs
    pub state : is_stateful inst.kind ≡ true → EndsInBlock p rs

  pub record AreInsts (i : ℕ) (pool : List Ref) (l : Lifted K) : Type 0 where
    pub last : ℕ
    pub ends : last ≡ i + length l.insts
    pub places : Places t p last l.held
    pub more : List Ref
    pub grows : l.pool ≡ pool ++ more
    pub no_placeholder : l.uses_placeholder ≡ false
    pub insts : (n : ℕ) (inst : Inst K) → get_elem? l.insts n ≡ some inst → IsInst (i + n) inst

module _ {K : Field} (t : Tape K) (few : length t.dst ≤ u32_max) where
  -- Whatever program the lists become.
  abbrev Becomes : ℕ → Lifted K → Program K → Type 0
  Becomes i l p = (p.pool ≡ l.pool) × Continues (get_elem? p.insts) i (get_elem? l.insts)

  cons_insts :
      (p : Program K) (i : ℕ) (first : Inst K) (insts : List (Inst K))
      → IsInst t p i first
      → ((n : ℕ) (inst : Inst K) → get_elem? insts n ≡ some inst → IsInst t p (suc i + n) inst)
      → (n : ℕ) (inst : Inst K) → get_elem? (first ∷ insts) n ≡ some inst
      → IsInst t p (i + n) inst
  cons_insts p i first insts here rest zero inst e =
      subst (IsInst t p (i + 0)) (some_inj e)
        (subst (λ i. IsInst t p i first) (sym (add_zero i)) here)
  cons_insts p i first insts here rest (suc n) inst e =
      subst (λ i. IsInst t p i inst) (add_suc i n) (rest n inst e)

  lifted_insts :
      (ops : List (Op K)) (dst : List ℕ) (i : ℕ) (pool : List Ref) (held : List ℕ) (l : Lifted K)
      (p : Program K)
      → lift_from t ops dst i pool held ≡ some l
      → KeepsStates t ops dst i held
      → Continues (get_elem? t.ops) i (get_elem? ops)
      → Continues (get_elem? t.dst) i (get_elem? dst)
      → Becomes i l p
      → Places t p i held
      → AreInsts t p i pool l
  unfolding lift_from
  lifted_insts [] dst i pool held l p lifted kept at_ops at_dst b h =
      subst (AreInsts t p i pool) (some_inj lifted) (record {
        last = i;
        ends = omega arith;
        places = h;
        more = [];
        grows = sym (append-nil pool);
        no_placeholder = refl;
        insts = λ n inst e. no_inst e;
      })
    where
      no_inst : {P : Type 0} {inst : Inst K} → none ≡ some inst → P
      no_inst e = cc
  lifted_insts (op ∷ ops) [] i pool held l p lifted kept at_ops at_dst b h = cc
  lifted_insts (op ∷ ops) (d ∷ dst) i pool held l p lifted kept at_ops at_dst b h =
      let s = lift_step t op d i pool held l (lift_from t ops dst (suc i)) kept.0 lifted in
      let first = inst_of t op i s.kind (length pool) s.rs in
      let (same_pool, at_insts) = subst (λ l. Becomes i l p) (sym s.here) b in
      let rest =
        lifted_insts ops dst (suc i) (pool ++ s.rs) (fill i d (width t op) held) s.rest p s.next
          kept.2 (Continues-suc (get_elem? t.ops) i (get_elem? (op ∷ ops)) at_ops)
          (Continues-suc (get_elem? t.dst) i (get_elem? (d ∷ dst)) at_dst)
          (
            same_pool,
            Continues-suc (get_elem? p.insts) i (get_elem? (first ∷ s.rest.insts)) at_insts,
          )
          (Places-step t p i d held op s.kind h
            (Continues-zero (get_elem? t.ops) i (get_elem? (op ∷ ops)) at_ops)
            (Continues-zero (get_elem? t.dst) i (get_elem? (d ∷ dst)) at_dst)
            (ap (Option.map (λ (inst : Inst K). inst.kind))
              (Continues-zero (get_elem? p.insts) i (get_elem? (first ∷ s.rest.insts)) at_insts))
            s.computes) in
      let here : IsInst t p i first = record {
        rs = s.rs;
        at = step-ins_of t op i s.kind pool s.rs rest.more p (same_pool ∙ rest.grows);
        older = read_all-All t p few i held s.ns s.rs h s.values;
        arms = lifted-HasArms t p held op s.kind s.ns s.rs s.computes s.listed s.values;
        state =
            lifted-EndsInBlock t p few i held op s.kind s.ns s.rs h kept.1 s.computes s.listed
              s.values;
      } in
      subst (AreInsts t p i pool) s.here (record {
        last = rest.last;
        ends = rest.ends ∙ add_suc i (length s.rest.insts);
        places = rest.places;
        more = s.rs ++ rest.more;
        grows = rest.grows ∙ append_assoc pool s.rs rest.more;
        no_placeholder = rest.no_placeholder;
        insts = cons_insts p i first s.rest.insts here rest.insts;
      })

module _ {K : Field} (t : Tape K) (w : IsStream t) where
  -- For a tape whose ops have their places and whose calls find their states: what it lifts to has
  -- its instructions in a dependency order, the operands of a select are its condition and its arms,
  -- and a call that keeps a state reads it from a block.
  pub lift-IsProgram : (p : Program K) → lift t ≡ some p → IsProgram p
  unfolding lift ins_of
  lift-IsProgram p lifted =
      let (l, from, h) = bind_some _ _ lifted in
      let (roots, at_roots, same) = map-some _ _ h in
      let p' = plain_program l roots in
      let all =
        lifted_insts t w.few t.ops t.dst 0 [] (unheld t.n_work) l p' from w.keeps
          (λ n. ap (get_elem? t.ops) (zero_add n)) (λ n. ap (get_elem? t.dst) (zero_add n))
          (refl, λ n. ap (get_elem? l.insts) (zero_add n)) (start p') in
      subst IsProgram (sym (lifted_program-plain t l roots all.no_placeholder) ∙ same) (record {
        ordered = λ i inst e.
            let is = inst_at l.insts p' all.insts i inst e in (is.rs, is.at, is.older, is.arms);
        states = λ i inst rs e e' stateful.
            let is = inst_at l.insts p' all.insts i inst e in
            subst (EndsInBlock p') (some_inj (sym is.at ∙ e')) (is.state stateful);
        roots =
            subst (λ n. All (IsOlder p' n) roots) (all.ends ∙ zero_add (length l.insts))
              (read_all-All t p' w.few all.last l.held t.outputs roots all.places at_roots);
        placeholder = tt;
      })
    where
      start : (p : Program K) → Places t p 0 (unheld t.n_work)
      start p = record {
        slots = λ k j e. inl (unheld_at t.n_work k e);
        kinds = λ j op lt e. elim lt [ ];
      }

      inst_at :
          (insts : List (Inst K)) (p : Program K)
          → ((n : ℕ) (inst : Inst K) → get_elem? insts n ≡ some inst → IsInst t p (0 + n) inst)
          → (n : ℕ) (inst : Inst K) → get_elem? insts n ≡ some inst
          → IsInst t p n inst
      inst_at insts p all n inst e = subst (λ i. IsInst t p i inst) (zero_add n) (all n inst e)
