-- ===== src/Program/Specialize/Whole.antt =====
-- `Tape::specialize` and `Tape::specialize_main` of crates/rsdag/src/tape/specialize.rs from the
-- trace of a run to the check of another.
use mathlib.Core.Option
use rsdag.Prelude.{
  ℕ, ◌≤◌, ◌≡◌, refl, subst, Bool, true, false, Option, none, some, List, arith, if◌then◌else◌,
  get_elem?,
}
use rsdag.Field.{Field}
use rsdag.Semantics.{Scalar}
use rsdag.Program.{Inst, Program, Kernels, IsProgram, IsRun, outputs, ins_of}
use rsdag.Program.Specialize.{
  Pinned, Pin, Specialized, pin_at, pins, live_marks, shorten, with_state, specialize,
  specialize_main, check_outputs,
}
use rsdag.Program.Specialize.Pins.{IsPin, trace_from, pins_from-HasPin}
use rsdag.Program.Specialize.Checked.{truth_of, shortened_sound}
use rsdag.Program.Specialize.Sound.{ArePins}

pub if_some :
    {A : Type 0} (b : Bool) (o : Option A) {a : A} → (if b then o else none) ≡ some a → o ≡ some a
if_some true o h = h
if_some false o h = cc

pub bind_some :
    {A B : Type 0} (o : Option A) (f : A → Option B) {b : B}
    → Option.bind o f ≡ some b
    → (a : A) × (o ≡ some a) × (f a ≡ some b)
unfolding Option.bind
bind_some none f h = cc
bind_some (some a) f h = (a, refl, h)

pub map-some :
    {A B : Type 0} (o : Option A) (f : A → B) {b : B}
    → Option.map f o ≡ some b
    → (a : A) × (o ≡ some a) × (f a ≡ b)
map-some none f h = cc
map-some (some a) f h = (a, refl, cc)

-- The trace of a run: one byte per select, the instructions before `first` left out.
unfoldable pub trace_of :
    {K : Field} (T : Scalar K) → Kernels T → Program K → (ℕ → T.Val) → (ℕ → List T.Val) → ℕ → List ℕ
unfolding trace_from
trace_of T ks p inputs get first = trace_from p (truth_of T ks inputs get) first p.insts

module _ {K : Field} (T : Scalar K) (ks : Kernels T) (p : Program K) (traced_inputs : ℕ → T.Val)
    (traced : ℕ → List T.Val) (w : IsProgram p)
    (traced-IsRun : IsRun T ks traced_inputs p traced) where
  -- What `shorten` makes of pins that were read from the trace of a run.
  shorten_sound :
      (inputs : ℕ → T.Val) (get get' : ℕ → List T.Val) (first : ℕ) (pinned : List Pin)
      (s : Specialized K)
      → ArePins p (truth_of T ks traced_inputs traced) pinned
      → ((i : ℕ) (q : Pinned) → pin_at pinned i ≡ some q → first ≤ i)
      → shorten p pinned first ≡ some s
      → IsRun T ks inputs p get
      → IsRun T ks inputs s.program get'
      → (out : List T.Val) → check_outputs T s (outputs T ks inputs get' s.program) ≡ (true, out)
      → out ≡ outputs T ks inputs get p
  unfolding shorten
  shorten_sound inputs get get' first pinned s pins after h run =
      let (live, marks, e) = map-some (live_marks p pinned) _ h in
      subst
        (λ (s : Specialized K).
          IsRun T ks inputs s.program get'
          → (out : List T.Val)
          → check_outputs T s (outputs T ks inputs get' s.program) ≡ (true, out)
          → out ≡ outputs T ks inputs get p)
        e
        (shortened_sound T ks p w traced_inputs traced traced-IsRun pinned pins inputs get get'
          first live marks after run)

  -- For a program in dependency order that `specialize` shortens by the trace of one of its runs,
  -- and for a run of the program and one of the shortened program on the same inputs: where the
  -- shortened program's outputs pass the check, the outputs that are left are the program's.
  pub check_outputs-specialize :
      (pin : List Bool) (s : Specialized K)
      → specialize p (trace_of T ks p traced_inputs traced 0) pin ≡ some s
      → (inputs : ℕ → T.Val) (get get' : ℕ → List T.Val) → IsRun T ks inputs p get
      → IsRun T ks inputs s.program get'
      → (out : List T.Val) → check_outputs T s (outputs T ks inputs get' s.program) ≡ (true, out)
      → out ≡ outputs T ks inputs get p
  unfolding specialize trace_of pins
  check_outputs-specialize pin s h inputs get get' run run' out check =
      let (pinned, e, e') = bind_some _ _ (if_some _ _ h) in
      let (_, all) = pins_from-HasPin p (truth_of T ks traced_inputs traced) 0 p.insts pin e in
      shorten_sound inputs get get' 0 pinned s
        (λ i q k. let (_, inst, at, pin) = all i q k in (inst, at, pin)) (λ i q k. omega arith) e'
        run run' out check

module _ {K : Field} (T : Scalar K) (ks : Kernels T) (p : Program K) (dst : List ℕ)
    (state_len prolog_ops : ℕ) where
  -- The state layout is no part of what a program computes.
  with_state-IsProgram : IsProgram p → IsProgram (with_state p dst state_len prolog_ops)
  unfolding ins_of
  with_state-IsProgram w = record {
    ordered = w.ordered;
    states = w.states;
    roots = w.roots;
    placeholder = w.placeholder;
  }

  with_state-IsRun :
      (inputs : ℕ → T.Val) (get : ℕ → List T.Val)
      → IsRun T ks inputs p get
      → IsRun T ks inputs (with_state p dst state_len prolog_ops) get
  unfolding ins_of
  with_state-IsRun inputs get run = record { computes = run.computes }

  with_state-ArePins :
      (inputs : ℕ → T.Val) (get : ℕ → List T.Val) (pinned : List Pin)
      → ((i : ℕ) (q : Pinned)
          → pin_at pinned i ≡ some q
          → (inst : Inst K) × (get_elem? p.insts i ≡ some inst)
            × IsPin p (truth_of T ks inputs get) inst q)
      → ArePins (with_state p dst state_len prolog_ops) (truth_of T ks inputs get) pinned
  unfolding ins_of
  with_state-ArePins inputs get pinned pins i q e =
      let (inst, at, pin) = pins i q e in
      (
        inst,
        at,
        record {
          select = pin.select;
          then_arm = pin.then_arm;
          else_arm = pin.else_arm;
          others = pin.others;
          operands = pin.operands;
          choice = pin.choice;
          arm = pin.arm;
        },
      )

module _ {K : Field} (T : Scalar K) (ks : Kernels T) (p : Program K) (traced_inputs : ℕ → T.Val)
    (traced : ℕ → List T.Val) (w : IsProgram p)
    (traced-IsRun : IsRun T ks traced_inputs p traced) where
  -- For a program in dependency order that `specialize_main` shortens by the trace of the main
  -- phase of one of its runs, and for a run of the program and one of the shortened program on the
  -- same inputs: where the shortened program's outputs pass the check, the outputs that are left
  -- are the program's.
  pub check_outputs-specialize_main :
      (dst : List ℕ) (state_len prolog_ops : ℕ) (pin : List Bool) (s : Specialized K)
      → specialize_main p dst state_len prolog_ops
          (trace_of T ks p traced_inputs traced prolog_ops)
          pin
        ≡ some s
      → (inputs : ℕ → T.Val) (get get' : ℕ → List T.Val) → IsRun T ks inputs p get
      → IsRun T ks inputs s.program get'
      → (out : List T.Val) → check_outputs T s (outputs T ks inputs get' s.program) ≡ (true, out)
      → out ≡ outputs T ks inputs get p
  unfolding specialize_main trace_of pins
  check_outputs-specialize_main dst state_len prolog_ops pin s h inputs get get' run run' out
        check =
      let (pinned, e, e') = bind_some _ _ (if_some _ _ h) in
      let (_, all) =
        pins_from-HasPin p (truth_of T ks traced_inputs traced) prolog_ops p.insts pin e in
      shorten_sound T ks (with_state p dst state_len prolog_ops) traced_inputs traced
        (with_state-IsProgram T ks p dst state_len prolog_ops w)
        (with_state-IsRun T ks p dst state_len prolog_ops traced_inputs traced traced-IsRun) inputs
        get get' prolog_ops pinned s
        (with_state-ArePins T ks p dst state_len prolog_ops traced_inputs traced pinned
          (λ i q k. let (_, inst, at, pin) = all i q k in (inst, at, pin)))
        (λ i q k. (all i q k).0) e'
        (with_state-IsRun T ks p dst state_len prolog_ops inputs get run) run' out check
