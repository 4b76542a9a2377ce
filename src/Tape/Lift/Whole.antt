-- ===== src/Tape/Lift/Whole.antt =====
-- The evaluation of a tape and the program that it lifts to, crates/rsdag/src/tape/compile.rs.
use rsdag.Prelude.{
  take_all, ℕ, zero, suc, ◌+◌, ◌-◌, ◌≤◌, ◌≡◌, refl, sym, ◌∙◌, ap, subst, false, Option, none, some,
  List, [], ◌∷◌, ◌++◌, length, get_elem?, get_or, take, arith, if◌then◌else◌, inl, length-take,
  length-append,
}
use rsdag.Field.{Field}
use rsdag.Semantics.{Scalar}
use rsdag.Program.{Ref, Program, Kernels, IsRun, ins_of, outputs}
use rsdag.Program.Specialize.{u32_max}
use rsdag.Program.Specialize.Agree.{some_inj}
use rsdag.Program.Specialize.Whole.{bind_some, map-some, trace_of}
use rsdag.Tape.{Tape}
use rsdag.Tape.Run.{exec, run_range, eval_with, inputs_at, grown, zeros, length-zeros, buffer_len}
use rsdag.Tape.Lift.{unheld, lift_from, lift, lifted_program, placeholder_inst, Lifted}
use rsdag.Tape.Lift.Held.{Holds, read_all-value_at}
use rsdag.Tape.Lift.Kept.{KeepsStates}
use rsdag.Tape.Lift.Runs.{blocks}
use rsdag.Tape.Lift.Follows.{Follows, follows}

-- Every op has a destination, their indices are `u32`s below the maximum, every call finds its state,
-- and no product kernel folds its outputs.
pub record IsStream {K : Field} (t : Tape K) : Type 0 where
  pub placed : length t.dst ≡ length t.ops
  pub few : length t.dst ≤ u32_max
  pub keeps : KeepsStates t t.ops t.dst 0 (unheld t.n_work)

pub zero_add : (n : ℕ) → 0 + n ≡ n
zero_add n = omega arith

pub length-unheld : (n : ℕ) → length (unheld n) ≡ n
length-unheld zero = refl
length-unheld (suc n) = ap suc (length-unheld n)

pub unheld_at : (n k : ℕ) {j : ℕ} → get_elem? (unheld n) k ≡ some j → j ≡ u32_max
unheld_at zero k h = cc
unheld_at (suc n) zero h = sym (some_inj h)
unheld_at (suc n) (suc k) h = unheld_at n k h

-- The program of a stream without folds.
abbrev pub plain_program : {K : Field} → Lifted K → List Ref → Program K
plain_program l roots = record {
  insts = l.insts;
  pool = l.pool;
  roots = roots;
  placeholder = none;
  state = none;
}

pub lifted_program-plain :
    {K : Field} (t : Tape K) (l : Lifted K) (roots : List Ref)
    → l.uses_placeholder ≡ false
    → lifted_program t l roots ≡ plain_program l roots
lifted_program-plain t l roots = ap (λ b. record {
  insts = if b then l.insts ++ placeholder_inst (length l.pool) ∷ [] else l.insts;
  pool = l.pool;
  roots = roots;
  placeholder = if b then some (length t.ops) else none;
  state = none;
})

module _ {K : Field} (T : Scalar K) (ks : Kernels T) (t : Tape K) (inputs : List T.Val) where
  -- The working slots at the start of an evaluation.
  abbrev pub slots_of : List T.Val → List T.Val
  slots_of work = take t.n_work (grown T work (buffer_len T t))

  -- The blocks that an evaluation computes, op by op.
  abbrev pub block_at : List T.Val → ℕ → List T.Val
  block_at work i = get_or (blocks T ks t inputs t.ops t.dst (slots_of work)) i []

  starts_Holds :
      (work : List T.Val) (get : ℕ → List T.Val)
      → Holds T ks t inputs get 0 (unheld t.n_work) (slots_of work)
  starts_Holds work get = record {
    fits = omega (
      arith,
      length-unheld t.n_work,
      length-take t.n_work (grown T work (buffer_len T t)),
      length-append work (zeros T (buffer_len T t - length work)),
      length-zeros T (buffer_len T t - length work),
    );
    slots = λ k j e. inl (unheld_at t.n_work k e);
    sizes = λ j op lt e. elim lt [ ];
  }

  run_range_whole :
      (work : List T.Val)
      → length t.dst ≡ length t.ops
      → run_range T ks t inputs work 0 (length t.ops) ≡ exec T ks t inputs t.ops t.dst work
  unfolding run_range
  run_range_whole work e =
      rw
        (
          take_all (length t.ops - 0) t.ops (omega arith),
          take_all (length t.ops - 0) t.dst (omega arith),
        )
        refl

  lift-Follows :
      (l : Lifted K) (work slots : List T.Val) (trace : List ℕ)
      → IsStream t
      → lift_from t t.ops t.dst 0 [] (unheld t.n_work) ≡ some l
      → ◌≡◌ {A = Option (List T.Val × List ℕ)}
          (run_range T ks t inputs (slots_of work) 0 (length t.ops))
          (some (slots, trace))
      → (f : length t.dst ≤ u32_max) → Follows T ks t inputs (block_at work) f 0 [] l slots trace
  lift-Follows l work slots trace w lifted run f =
      follows T ks t inputs (block_at work) f t.ops t.dst 0 [] (unheld t.n_work) (slots_of work)
        slots l trace lifted (sym (run_range_whole (slots_of work) w.placed) ∙ run) w.keeps
        (λ n. ap (get_elem? t.ops) (zero_add n)) (λ n. ap (get_elem? t.dst) (zero_add n))
        (λ n. ap (block_at work) (zero_add n)) (starts_Holds work (block_at work))

  -- For a tape whose ops have their places and whose calls find their states, that lifts to a
  -- program and that an evaluation with a recording sink gives the outputs and a trace of: the
  -- blocks that the ops compute are a run of the program, the outputs are those of that run, and the
  -- trace is the one that the run records.
  pub lift-IsRun :
      IsStream t
      → (p : Program K) → lift t ≡ some p
      → (work out : List T.Val) (trace : List ℕ)
      → ◌≡◌ {A = Option (List T.Val × List ℕ)} (eval_with T ks t inputs work) (some (out, trace))
      → IsRun T ks (inputs_at T inputs) p (block_at work)
        × (out ≡ outputs T ks (inputs_at T inputs) (block_at work) p)
        × (trace ≡ trace_of T ks p (inputs_at T inputs) (block_at work) 0)
  unfolding lift eval_with trace_of ins_of
  lift-IsRun w p lifted work out trace evaluated =
      let (l, from, h) = bind_some _ _ lifted in
      let (roots, at_roots, same) = map-some _ _ h in
      let ((slots, trace'), ran, h') = bind_some _ _ evaluated in
      let (out', collected, same') = map-some _ _ h' in
      let follows = lift-Follows l work slots trace' w from ran w.few in
      let e = sym (lifted_program-plain t l roots follows.no_placeholder) ∙ same in
      let (same_out, same_trace) = pair_inj same' in
      (
        subst (λ p. IsRun T ks (inputs_at T inputs) p (block_at work)) e
            (record {
              computes = λ n inst rs e₁ e₂.
                  follows.computes (plain_program l roots) refl n inst rs e₁ e₂
                  ∙ ap (λ n. some (block_at work n)) (zero_add n);
            }),
        subst (λ (p : Program K). out ≡ outputs T ks (inputs_at T inputs) (block_at work) p) e
            (sym same_out
              ∙ sym (
                  read_all-value_at T ks t inputs (block_at work) w.few follows.last l.held slots
                    t.outputs out' roots follows.holds collected at_roots)),
        subst (λ (p : Program K). trace ≡ trace_of T ks p (inputs_at T inputs) (block_at work) 0) e
            (sym same_trace ∙ sym (follows.traces (plain_program l roots) refl)),
      )
    where
      pair_inj :
          {a b : List T.Val} {c d : List ℕ}
          → ◌≡◌ {A = List T.Val × List ℕ} (a, c) (b, d)
          → (a ≡ b) × (c ≡ d)
      pair_inj e = (ap (λ r. r.0) e, ap (λ r. r.1) e)
