-- ===== src/Program/Decide/Sound.antt =====
-- What the program that `Tape::decide` of crates/rsdag/src/tape/specialize.rs makes computes where the
-- conditions take the pattern.
use mathlib.Core.Option
use rsdag.Prelude.{
  ℕ, ◌≡◌, refl, sym, ◌∙◌, ap, ap₂, subst, Bool, true, false, Option, none, some, List, [], ◌∷◌, inl,
  inr, map, length, get_or, get_elem?, get_elem?-lt, if◌then◌else◌, arith, Option-cases, Bool-cases,
  All, All-imp, ◌&&◌,
}
use rsdag.Field.{Field}
use rsdag.Semantics.{Scalar}
use rsdag.Program.{
  Ref, Inst, Program, Kernels, IsProgram, IsRun, IsOlder, IsBlock, EndsInBlock, ins_of, inst_values,
  computed, ref_value, block_at, last_block, is_stateful, outputs,
}
use rsdag.Program.Follow.{follow, follow_keeps, follow_settled}
use rsdag.Program.Specialize.Agree.{arm_value, operand-IsOlder, IsOlder-imp, is_select-eq, some_inj}
use rsdag.Program.Specialize.Whole.{if_some, bind_some}
use rsdag.Program.Specialize.Checked.{truth_of}
use rsdag.Program.Compact.Reached.{retained-IsRun}
use rsdag.Program.Decide.{
  ParamSelects, param_selects, arms, decided_arm, kept_arm, is_input, inst_pure, decided,
  decided_program, decide, pattern,
}
use rsdag.Program.Decide.Selects.{param_selects-All}
use rsdag.Program.Decide.Arms.{AreArms, arms-IsArm}
use rsdag.Program.Decide.Operands.{AreDecided, slice-AreDecided, pool-AreDecided}

pub kept_arm-some : (o : Option Ref) (b : Bool) {a : Ref} → kept_arm o b ≡ some a → o ≡ some a
kept_arm-some none b h = cc
kept_arm-some (some x) b {a} h = at (is_input x && b) h
  where
    at : (held : Bool) → (if held then none else some x) ≡ some a → some x ≡ some a
    at true k = cc
    at false k = k

module _ {K : Field} (T : Scalar K) (ks : Kernels T) (inputs : ℕ → T.Val) (get : ℕ → List T.Val)
    (p : Program K) (w : IsProgram p) (run : IsRun T ks inputs p get) (arm : List (Option Ref))
    (are : AreArms p (truth_of T ks inputs get) arm) where
  -- An operand that is decided keeps its value, whichever phase reads it.
  decided_value :
      (r : Ref) (main : Bool)
      → IsOlder p (length p.insts) r
      → ref_value T ks inputs get (decided p arm r main) ≡ ref_value T ks inputs get r
  unfolding decided
  decided_value r main h =
      (follow_keeps (decided_arm p arm main) (ref_value T ks inputs get)
        (IsOlder p (length p.insts)) step (length p.insts) r h).0
    where
      step :
          (i c : ℕ) (a : Ref)
          → decided_arm p arm main i ≡ some a
          → IsOlder p (length p.insts) (Ref.value i c)
          → (ref_value T ks inputs get a ≡ ref_value T ks inputs get (Ref.value i c))
            × IsOlder p (length p.insts) a
      step i c a e (lt, one) =
          let (q, inst, e', pin, here) =
            are i a
              (kept_arm-some (get_or arm i none) (main && inst_pure (get_elem? p.insts i)) e) in
          (
            ap (ref_value T ks inputs get) (sym here)
                ∙ arm_value T ks inputs get p (truth_of T ks inputs get) i c inst q run e' pin
                    (one (
                      ap (Option.map (λ (x : Inst K). x.kind)) e'
                      ∙ ap some (is_select-eq inst.kind pin.select)))
                    refl,
            subst (IsOlder p (length p.insts)) here (
                IsOlder-imp p i (length p.insts) q.arm (omega (arith, lt))
                  (operand-IsOlder p (truth_of T ks inputs get) i inst q w e' pin)),
          )

  -- An operand that is no select's value stays.
  pub decided_block : (r : Ref) (main : Bool) → IsBlock p r → decided p arm r main ≡ r
  unfolding decided follow
  decided_block (Ref.input k) main b = refl
  decided_block (Ref.value i c) main b =
      follow_settled (decided_arm p arm main) (length p.insts) (Ref.value i c)
        (elim (Option-cases (decided_arm p arm main i)) [
          | inl e ↦ e
          | inr (a, e) ↦
              let (q, inst, e', pin, here) =
                are i a
                  (kept_arm-some (get_or arm i none) (main && inst_pure (get_elem? p.insts i)) e) in
              elim (b (
                ap (Option.map (λ (x : Inst K). x.kind)) e'
                ∙ ap some (is_select-eq inst.kind pin.select))) [ ]
        ])

  decided_values :
      (ys rs : List Ref)
      → AreDecided (decided p arm) ys rs
      → All (IsOlder p (length p.insts)) rs
      → map (ref_value T ks inputs get) ys ≡ map (ref_value T ks inputs get) rs
  unfolding AreDecided
  decided_values [] [] h o = refl
  decided_values (y ∷ ys) [] h o = elim h [ ]
  decided_values [] (r ∷ rs) h o = elim h [ ]
  decided_values (y ∷ ys) (r ∷ rs) ((b, e), h) o =
      ap₂ (λ v vs. v ∷ vs) (ap (ref_value T ks inputs get) e ∙ decided_value r b o.0)
        (decided_values ys rs h o.1)

  decided_last :
      (ys rs : List Ref)
      → AreDecided (decided p arm) ys rs
      → EndsInBlock p rs
      → last_block T ks inputs get ys ≡ last_block T ks inputs get rs
  unfolding AreDecided
  decided_last [] [] h b = refl
  decided_last (y ∷ ys) [] h b = elim h [ ]
  decided_last [] (r ∷ rs) h b = elim h [ ]
  decided_last (y ∷ []) (r ∷ []) ((c, e), h) b =
      ap (block_at T ks inputs get) (e ∙ decided_block r c b)
  decided_last (y ∷ []) (r ∷ r' ∷ rs) (_, h) b = elim h [ ]
  decided_last (y ∷ y' ∷ ys) (r ∷ []) (_, h) b = elim h [ ]
  decided_last (y ∷ y' ∷ ys) (r ∷ r' ∷ rs) (_, h) b = decided_last (y' ∷ ys) (r' ∷ rs) h b

  decided_inst :
      (i : ℕ) (inst : Inst K) (ys rs : List Ref)
      → get_elem? p.insts i ≡ some inst
      → ins_of p inst ≡ some rs
      → All (IsOlder p (length p.insts)) rs
      → AreDecided (decided p arm) ys rs
      → inst_values T ks inputs get inst.kind ys ≡ inst_values T ks inputs get inst.kind rs
  unfolding inst_values
  decided_inst i inst ys rs e e' o h =
      ap₂ (computed T ks inst.kind) (decided_values ys rs h o)
        (elim (Bool-cases (is_stateful inst.kind)) [
          | inl s ↦ rw s (decided_last ys rs h (w.states i inst rs e e' s))
          | inr s ↦ rw s refl
        ])

  -- A run of the program is one of the decided program.
  decided-IsRun : IsRun T ks inputs (decided_program p arm) get
  unfolding ins_of
  decided-IsRun = record {
    computes = λ i inst ys e e'.
        let (rs, e'', older, _) = w.ordered i inst e in
        let (ys', at, h) =
          slice-AreDecided (decided p arm) _ p.pool inst.ins.0 inst.ins.1 rs (pool-AreDecided p arm)
            e'' in
        decided_inst i inst ys rs e e''
          (All-imp rs
            (λ r o. IsOlder-imp p i (length p.insts) r (omega (arith, get_elem?-lt p.insts i e)) o)
            older)
          (subst (λ zs. AreDecided (decided p arm) zs rs) (some_inj (sym at ∙ e')) h)
        ∙ run.computes i inst rs e e'';
  }

  decided_roots :
      (rs : List Ref)
      → All (IsOlder p (length p.insts)) rs
      → map (ref_value T ks inputs get) (map (λ r. decided p arm r true) rs)
        ≡ map (ref_value T ks inputs get) rs
  decided_roots [] o = refl
  decided_roots (r ∷ rs) o = ap₂ (λ v vs. v ∷ vs) (decided_value r true o.0) (decided_roots rs o.1)

module _ {K : Field} (T : Scalar K) (ks : Kernels T) (inputs : ℕ → T.Val) (get : ℕ → List T.Val)
    (p : Program K) (w : IsProgram p) (run : IsRun T ks inputs p get) where
  pub kept_decide-IsRun :
      (prolog_ops : ℕ) (pure_inputs : List Bool) (ps : ParamSelects) (p' : Program K)
      → param_selects p prolog_ops pure_inputs ≡ some (some ps)
      → decide p ps (pattern T ks inputs get ps) ≡ some p'
      → (get' : ℕ → List T.Val) × IsRun T ks inputs p' get'
        × (outputs T ks inputs get' p' ≡ outputs T ks inputs get p)
  unfolding decide
  kept_decide-IsRun prolog_ops pure_inputs ps p' found h =
      let (arm, e, e') = bind_some (arms p ps (pattern T ks inputs get ps)) _ (if_some _ _ h) in
      let are =
        arms-IsArm p (truth_of T ks inputs get) ps arm
          (param_selects-All p prolog_ops pure_inputs ps found) e in
      let (get', run', same) =
        retained-IsRun T ks inputs get (decided_program p arm)
          (decided-IsRun T ks inputs get p w run arm are) p' e' in
      (get', run', same ∙ decided_roots T ks inputs get p w run arm are p.roots w.roots)
