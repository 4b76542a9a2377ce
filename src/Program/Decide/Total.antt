-- ===== src/Program/Decide/Total.antt =====
-- `Tape::decide` of crates/rsdag/src/tape/specialize.rs on the selects that `Tape::param_selects` finds.
use mathlib.Core.Option
use rsdag.Prelude.{
  ℕ, ◌≤◌, ◌≡◌, refl, sym, ◌∙◌, ap, subst, Bool, true, Option, none, some, List, [], ◌∷◌, map,
  length, get_or, get_elem?, get_elem?-lt, set, if◌then◌else◌, arith, All, length-map, ==_iff, ◌&&◌,
}
use rsdag.Field.{Field}
use rsdag.Semantics.{Scalar}
use rsdag.Program.{
  Ref, Kind, Inst, Program, Kernels, IsProgram, IsRun, IsOlder, IsBlock, EndsInBlock, HasArms,
  ins_of, ins, is_select, outputs,
}
use rsdag.Program.Follow.{follow_keeps}
use rsdag.Program.Specialize.Agree.{operand-IsOlder, IsOlder-imp, is_select-eq, some_inj}
use rsdag.Program.Specialize.Checked.{truth_of}
use rsdag.Program.Compact.Total.{IsLaidOut, retain_reachable_total}
use rsdag.Program.Decide.{
  ParamSelects, param_selects, arms, arms_from, no_arms, decided_arm, inst_pure, decided,
  decided_program, decide, pattern,
}
use rsdag.Program.Decide.Selects.{IsSelectOf, param_selects-All}
use rsdag.Program.Decide.Arms.{AreArms, get-map, arms-IsArm}
use rsdag.Program.Decide.Operands.{AreDecided, slice-AreDecided, pool-AreDecided}
use rsdag.Program.Decide.Sound.{kept_arm-some, decided_block, kept_decide-IsRun}

module _ {K : Field} (p : Program K) (w : IsProgram p) where
  ins_select :
      (i : ℕ) (inst : Inst K)
      → get_elem? p.insts i ≡ some inst
      → is_select inst.kind ≡ true
      → (a : Ref) × (t : Ref) × (e : Ref) × (ins p i ≡ some (a ∷ t ∷ e ∷ []))
  unfolding ins Option.bind
  ins_select i inst e s =
      let (rs, e', _, has) = w.ordered i inst e in
      let (a, t, f, same) = subst (λ k. HasArms p k rs) (is_select-eq inst.kind s) has in
      (a, t, f, rw e (e' ∙ ap some same))

  arms_from_total :
      (truth : Ref → Bool) (ps : ParamSelects) (of : List (ℕ × ℕ)) (arm : List (Option Ref))
      → All (IsSelectOf p ps) of
      → (arm' : List (Option Ref)) × (arms_from p (map truth ps.conds) of arm ≡ some arm')
  unfolding arms_from Option.bind
  arms_from_total truth ps [] arm all = (arm, refl)
  arms_from_total truth ps ((i, k) ∷ of) arm all =
      let (c, at, inst, e, s, rest, _) = all.0 in
      let (a, t, f, there) = ins_select i inst e s in
      let (arm', e') =
        arms_from_total truth ps of (set i (some (if truth c then t else f)) arm) all.1 in
      (arm', rw there (rw (get-map p truth ps.conds k at) e'))

module _ {K : Field} (T : Scalar K) (ks : Kernels T) (inputs : ℕ → T.Val) (get : ℕ → List T.Val)
    (p : Program K) (w : IsProgram p) (run : IsRun T ks inputs p get) (arm : List (Option Ref))
    (are : AreArms p (truth_of T ks inputs get) arm) where
  -- An operand that is decided is no younger.
  decided-IsOlder :
      (n : ℕ) (r : Ref) (main : Bool)
      → n ≤ length p.insts
      → IsOlder p n r
      → IsOlder p n (decided p arm r main)
  unfolding decided
  decided-IsOlder n r main le h =
      (follow_keeps (decided_arm p arm main) (λ s. true) (IsOlder p n) step (length p.insts) r h).1
    where
      step :
          (i c : ℕ) (a : Ref)
          → decided_arm p arm main i ≡ some a
          → IsOlder p n (Ref.value i c)
          → (true ≡ true) × IsOlder p n a
      step i c a e (lt, _) =
          let (q, inst, e', pin, here) =
            are i a
              (kept_arm-some (get_or arm i none) (main && inst_pure (get_elem? p.insts i)) e) in
          (
            refl,
            subst (IsOlder p n) here (
                IsOlder-imp p i n q.arm (omega (arith, lt))
                  (operand-IsOlder p (truth_of T ks inputs get) i inst q w e' pin)),
          )

  All-decided :
      (n : ℕ) (ys rs : List Ref)
      → n ≤ length p.insts
      → AreDecided (decided p arm) ys rs
      → All (IsOlder p n) rs
      → All (IsOlder p n) ys
  unfolding AreDecided
  All-decided n [] [] le h o = tt
  All-decided n (y ∷ ys) [] le h o = elim h [ ]
  All-decided n [] (r ∷ rs) le h o = elim h [ ]
  All-decided n (y ∷ ys) (r ∷ rs) le ((b, e), h) o =
      (subst (IsOlder p n) (sym e) (decided-IsOlder n r b le o.0), All-decided n ys rs le h o.1)

  decided_arms :
      (ys : List Ref) (c t e : Ref)
      → AreDecided (decided p arm) ys (c ∷ t ∷ e ∷ [])
      → (a : Ref) × (x : Ref) × (y : Ref) × (ys ≡ a ∷ x ∷ y ∷ [])
  unfolding AreDecided
  decided_arms [] c t e h = elim h [ ]
  decided_arms (a ∷ []) c t e h = elim h.1 [ ]
  decided_arms (a ∷ x ∷ []) c t e h = elim h.1.1 [ ]
  decided_arms (a ∷ x ∷ y ∷ []) c t e h = (a, x, y, refl)
  decided_arms (a ∷ x ∷ y ∷ z ∷ ys) c t e h = elim h.1.1.1 [ ]

  decided-HasArms :
      (k : Kind K) (ys rs : List Ref)
      → AreDecided (decided p arm) ys rs
      → HasArms p k rs
      → HasArms p k ys
  decided-HasArms Kind.select ys rs h (c, t, e, same) =
      decided_arms ys c t e (subst (AreDecided (decided p arm) ys) same h)
  decided-HasArms _ ys rs h a = tt

  decided-EndsInBlock :
      (ys rs : List Ref) → AreDecided (decided p arm) ys rs → EndsInBlock p rs → EndsInBlock p ys
  unfolding AreDecided
  decided-EndsInBlock [] [] h b = tt
  decided-EndsInBlock (y ∷ ys) [] h b = elim h [ ]
  decided-EndsInBlock [] (r ∷ rs) h b = elim h [ ]
  decided-EndsInBlock (y ∷ []) (r ∷ []) ((c, e), h) b =
      subst (IsBlock p) (sym (e ∙ decided_block T ks inputs get p w run arm are r c b)) b
  decided-EndsInBlock (y ∷ []) (r ∷ r' ∷ rs) (_, h) b = elim h [ ]
  decided-EndsInBlock (y ∷ y' ∷ ys) (r ∷ []) (_, h) b = elim h [ ]
  decided-EndsInBlock (y ∷ y' ∷ ys) (r ∷ r' ∷ rs) (_, h) b =
      decided-EndsInBlock (y' ∷ ys) (r' ∷ rs) h b

  decided_slice :
      (inst : Inst K) (rs : List Ref)
      → ins_of p inst ≡ some rs
      → (ys : List Ref) × (ins_of (decided_program p arm) inst ≡ some ys)
        × AreDecided (decided p arm) ys rs
  unfolding ins_of
  decided_slice inst rs e =
      slice-AreDecided (decided p arm) _ p.pool inst.ins.0 inst.ins.1 rs (pool-AreDecided p arm) e

  decided_roots :
      (rs : List Ref)
      → All (IsOlder p (length p.insts)) rs
      → All (IsOlder p (length p.insts)) (map (λ r. decided p arm r true) rs)
  decided_roots [] o = tt
  decided_roots (r ∷ rs) o =
      (decided-IsOlder (length p.insts) r true (omega arith) o.0, decided_roots rs o.1)

  -- The decided program stands in a dependency order too.
  decided-IsProgram : IsProgram (decided_program p arm)
  decided-IsProgram = record {
    ordered = λ i inst e.
        let (rs, e', older, has) = w.ordered i inst e in
        let (ys, there, h) = decided_slice inst rs e' in
        (
          ys,
          there,
          All-decided i ys rs (omega (arith, get_elem?-lt p.insts i e)) h older,
          decided-HasArms inst.kind ys rs h has,
        );
    states = λ i inst ys e e' s.
        let (rs, e'', _, _) = w.ordered i inst e in
        let (ys', there, h) = decided_slice inst rs e'' in
        subst (EndsInBlock p) (some_inj (sym there ∙ e'))
          (decided-EndsInBlock ys' rs h (w.states i inst rs e e'' s));
    roots = decided_roots p.roots w.roots;
    placeholder = w.placeholder;
  }

module _ {K : Field} (p : Program K) (w : IsProgram p) where
  -- For a program in dependency order whose placeholder, if it has one, is one of its instructions and
  -- whose state layout, if it has one, places each instruction, the selects that `param_selects` finds
  -- in it and a run of it: `decide` does not panic for the truths that the conditions take in the run,
  -- and the program that it gives has a run on the same inputs with the same outputs.
  pub decide-IsRun :
      IsLaidOut p.state (length p.insts)
      → (T : Scalar K) (ks : Kernels T) (inputs : ℕ → T.Val) (get : ℕ → List T.Val)
      → IsRun T ks inputs p get
      → (prolog_ops : ℕ) (pure_inputs : List Bool) (ps : ParamSelects)
      → param_selects p prolog_ops pure_inputs ≡ some (some ps)
      → (p' : Program K) × (decide p ps (pattern T ks inputs get ps) ≡ some p')
        × (get' : ℕ → List T.Val) × IsRun T ks inputs p' get'
        × (outputs T ks inputs get' p' ≡ outputs T ks inputs get p)
  unfolding decide arms Option.bind
  decide-IsRun laid T ks inputs get run prolog_ops pure_inputs ps found =
      let all = param_selects-All p prolog_ops pure_inputs ps found in
      let truth = truth_of T ks inputs get in
      let (arm, e) = arms_from_total p w truth ps ps.of (no_arms p.insts) all in
      let are = arms-IsArm p truth ps arm all e in
      let (p', e') =
        retain_reachable_total (decided_program p arm)
          (decided-IsProgram T ks inputs get p w run arm are) laid in
      let there : decide p ps (pattern T ks inputs get ps) ≡ some p' =
        rw ((==_iff (length (map truth ps.conds)) (length ps.conds)).1 (length-map ps.conds truth))
          (rw e e') in
      let (get', run', same) =
        kept_decide-IsRun T ks inputs get p w run prolog_ops pure_inputs ps p' found there in
      (p', there, get', run', same)
