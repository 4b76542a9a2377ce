-- ===== src/Tape/Phases.antt =====
-- The prolog and the main phase of a tape, crates/rsdag/src/tape/mod.rs: `eval_prolog` and
-- `eval_main_with`.
pub mod Append
pub mod Split
use mathlib.Core.Option
use rsdag.Prelude.{
  ℕ, zero, suc, ◌+◌, ◌-◌, ◌≤◌, ◌≡◌, refl, sym, ◌∙◌, ap, ap₂, subst, Bool, true, false, Option, none,
  some, List, [], ◌∷◌, ◌++◌, length, take, drop, leb, leb→le, ◌==◌, ◌&&◌, if◌then◌else◌,
  write_block, arith, length-append, length-take, length-drop, take-append-drop, take_all,
  take-length, length-write_block, append_assoc,
}
use rsdag.Field.{Field}
use rsdag.Semantics.{Scalar}
use rsdag.Program.{Kernels}
use rsdag.Tape.{Op, Tape, width}
use rsdag.Tape.Run.{
  exec, run_range, eval_with, collect_outputs, grown, buffer_len, store, traced, op_values,
  choices_of, read, zeros, length-zeros,
}

module _ {K : Field} (T : Scalar K) where
  -- `Tape::eval_prolog`: the buffer that it leaves, its gather area aside.
  unfoldable pub eval_prolog : Kernels T → Tape K → List T.Val → List T.Val → Option (List T.Val)
  unfolding run_range
  eval_prolog ks t inputs work =
      Option.map (λ r. r.0 ++ drop t.n_work (grown T work (buffer_len T t)))
        (run_range T ks t inputs (take t.n_work (grown T work (buffer_len T t))) 0 t.prolog_ops)

  -- `Tape::eval_main_with`: a panic where the buffer was not prepared.
  unfoldable pub eval_main_with :
      Kernels T → Tape K → List T.Val → List T.Val → Option (List T.Val × List ℕ)
  unfolding run_range collect_outputs
  eval_main_with ks t inputs work =
      if leb (buffer_len T t) (length work)
      then Option.bind (run_range T ks t inputs (take t.n_work work) t.prolog_ops (length t.ops))
          (λ (slots, trace). Option.map (λ out. (out, trace)) (collect_outputs T t inputs slots))
      else none
