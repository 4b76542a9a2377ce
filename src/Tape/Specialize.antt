-- ===== src/Tape/Specialize.antt =====
-- `Tape::specialize` of crates/rsdag/src/tape/specialize.rs from an evaluation of the tape to the check of
-- another.
use mathlib.Core.Option
use rsdag.Prelude.{
  ℕ, suc, ◌≡◌, refl, sym, ◌∙◌, ap, subst, Bool, true, false, Option, none, some, List, [], ◌∷◌,
  length, if◌then◌else◌, ◌==◌, ==_iff, and_true,
}
use rsdag.Field.{Field}
use rsdag.Semantics.{Scalar}
use rsdag.Program.{Program, Inst, Kernels, IsRun, outputs, is_select}
use rsdag.Program.Specialize.{
  Specialized, specialize, pins, shorten, lengths_match, count_selects, check_outputs,
}
use rsdag.Program.Specialize.Pins.{trace_from, trace_step}
use rsdag.Program.Specialize.Checked.{truth_of}
use rsdag.Program.Specialize.Traced.{check_outputs-trace_of}
use rsdag.Program.Specialize.Whole.{bind_some, trace_of, check_outputs-specialize}
use rsdag.Tape.{Tape}
use rsdag.Tape.Run.{eval_with, inputs_at}
use rsdag.Tape.Lift.{lift}
use rsdag.Tape.Lift.Whole.{IsStream, lift-IsRun, block_at}
use rsdag.Tape.Lift.Programs.{lift-IsProgram}

-- `Tape::specialize`
unfoldable pub specialize_tape : {K : Field} → Tape K → List ℕ → List Bool → Option (Specialized K)
unfolding lift pins shorten
specialize_tape t choices pin =
    if lengths_match t.n_selects choices pin
    then Option.bind (lift t) (λ p. Option.bind (pins p 0 choices pin) (λ qs. shorten p qs 0))
    else none

length-trace_from :
    {K : Field} (p : Program K) (truth : _ → Bool) (insts : List (Inst K))
    → length (trace_from p truth 0 insts) ≡ count_selects insts
unfolding trace_from
length-trace_from p truth [] = refl
length-trace_from p truth (inst ∷ insts) =
    by (is_select inst.kind) _ (trace_from p truth 0 insts) (count_selects insts)
      (length-trace_from p truth insts)
  where
    by :
        (b : Bool) (c : ℕ) (rest : List ℕ) (n : ℕ)
        → length rest ≡ n
        → length (trace_step b c rest) ≡ (if b then suc n else n)
    by true c rest n h = ap suc h
    by false c rest n h = h

-- The tape's count and the program's agree on a trace of the program.
matched :
    (n m : ℕ) (choices : List ℕ) (pin : List Bool)
    → length choices ≡ m
    → lengths_match n choices pin ≡ true
    → lengths_match m choices pin ≡ true
matched n m choices pin e h =
    let (e₁, _) = and_true (length choices == n) (length pin == n) h in
    subst (λ n. lengths_match n choices pin ≡ true) (sym ((==_iff (length choices) n).0 e₁) ∙ e) h

-- A tape shortened by as many choices as its program has selects is its program shortened.
specialize_tape-specialize :
    {K : Field} (t : Tape K) (choices : List ℕ) (pin : List Bool) (s : Specialized K)
    → specialize_tape t choices pin ≡ some s
    → (p : Program K) × (lift t ≡ some p)
      × (length choices ≡ count_selects p.insts → specialize p choices pin ≡ some s)
unfolding specialize_tape specialize
specialize_tape-specialize t choices pin s h = by (lengths_match t.n_selects choices pin) refl h
  where
    asserted :
        (b : Bool) (o : Option (Specialized _))
        → b ≡ true
        → o ≡ some s
        → (if b then o else none) ≡ some s
    asserted true o e h = h
    asserted false o e h = cc

    by :
        (b : Bool)
        → lengths_match t.n_selects choices pin ≡ b
        → (if b
            then Option.bind
                (lift t)
                (λ p. Option.bind (pins p 0 choices pin) (λ qs. shorten p qs 0))
            else none)
          ≡ some s
        → (p : Program _) × (lift t ≡ some p)
          × (length choices ≡ count_selects p.insts → specialize p choices pin ≡ some s)
    by false e h = cc
    by true e h =
        let (p, lifted, h') = bind_some _ _ h in
        (
          p,
          lifted,
          λ same.
              asserted (lengths_match (count_selects p.insts) choices pin) _
                (matched t.n_selects (count_selects p.insts) choices pin same e) h',
        )

module _ {K : Field} (T : Scalar K) (ks : Kernels T) (t : Tape K) (w : IsStream t)
    (traced work out : List T.Val) (trace : List ℕ)
    (recorded : ◌≡◌ {A = Option (List T.Val × List ℕ)}
      (eval_with T ks t traced work)
      (some (out, trace))) where
  -- The recorded trace is the one of the lifted program's run.
  recorded-trace_of :
      (p : Program K)
      → lift t ≡ some p
      → (trace ≡ trace_of T ks p (inputs_at T traced) (block_at T ks t traced work) 0)
        × (length trace ≡ count_selects p.insts)
  unfolding trace_of
  recorded-trace_of p lifted =
      let (_, _, same) = lift-IsRun T ks t traced w p lifted work out trace recorded in
      (
        same,
        ap length same
            ∙ length-trace_from p (truth_of T ks (inputs_at T traced) (block_at T ks t traced work))
                p.insts,
      )

  -- For a tape whose ops have their places and whose calls find their states, and that `specialize`
  -- shortens by the trace which an evaluation with a recording sink gives: on the inputs of another
  -- evaluation of the tape, where the outputs of a run of the shortened program pass the check, the
  -- outputs that are left are those of the evaluation.
  pub specialize_tape-outputs :
      (pin : List Bool) (s : Specialized K)
      → specialize_tape t trace pin ≡ some s
      → (inputs buffer out' : List T.Val) (trace' : List ℕ)
      → ◌≡◌ {A = Option (List T.Val × List ℕ)}
          (eval_with T ks t inputs buffer)
          (some (out', trace'))
      → (get : ℕ → List T.Val) → IsRun T ks (inputs_at T inputs) s.program get
      → (left : List T.Val)
      → check_outputs T s (outputs T ks (inputs_at T inputs) get s.program) ≡ (true, left)
      → left ≡ out'
  specialize_tape-outputs pin s h inputs buffer out' trace' evaluated get run left check =
      let (p, lifted, shortened) = specialize_tape-specialize t trace pin s h in
      let (same, count) = recorded-trace_of p lifted in
      let (whole, _, _) = lift-IsRun T ks t traced w p lifted work out trace recorded in
      let (again, outs, _) = lift-IsRun T ks t inputs w p lifted buffer out' trace' evaluated in
      check_outputs-specialize T ks p (inputs_at T traced) (block_at T ks t traced work)
        (lift-IsProgram t w p lifted) whole pin s
        (subst (λ tr. specialize p tr pin ≡ some s) same (shortened count)) (inputs_at T inputs)
        (block_at T ks t inputs buffer) get again run left check
      ∙ sym outs

  -- For a tape whose ops have their places and whose calls find their states, and that `specialize`
  -- shortens by the trace which an evaluation with a recording sink gives: on that evaluation's
  -- inputs the outputs of a run of the shortened program pass the check, and the outputs that are
  -- left are those of the evaluation.
  pub specialize_tape-passes :
      (pin : List Bool) (s : Specialized K)
      → specialize_tape t trace pin ≡ some s
      → (get : ℕ → List T.Val) → IsRun T ks (inputs_at T traced) s.program get
      → ◌≡◌ {A = Bool × List T.Val}
          (check_outputs T s (outputs T ks (inputs_at T traced) get s.program))
          (true, out)
  specialize_tape-passes pin s h get run =
      let (p, lifted, shortened) = specialize_tape-specialize t trace pin s h in
      let (same, count) = recorded-trace_of p lifted in
      let (whole, outs, _) = lift-IsRun T ks t traced w p lifted work out trace recorded in
      check_outputs-trace_of T ks p (inputs_at T traced) (block_at T ks t traced work)
        (lift-IsProgram t w p lifted) whole pin s get
        (subst (λ tr. specialize p tr pin ≡ some s) same (shortened count)) run
      ∙ ap (λ xs. (true, xs)) (sym outs)
