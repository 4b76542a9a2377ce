-- ===== src/Tape/Phases/Split.antt =====
-- An evaluation as its prolog and its main phase, crates/rsdag/src/tape/mod.rs.
use mathlib.Core.Option
use rsdag.Prelude.{
  ℕ, ◌+◌, ◌-◌, ◌≤◌, ◌≡◌, refl, sym, ◌∙◌, ap, ap₂, subst, true, Option, none, some, List, ◌++◌,
  length, take, drop, leb, if◌then◌else◌, arith, length-append, length-take, length-drop,
  take-append-drop, take_all, take-length,
}
use rsdag.Field.{Field}
use rsdag.Semantics.{Scalar}
use rsdag.Program.{Kernels}
use rsdag.Tape.{Tape}
use rsdag.Tape.Run.{
  exec, run_range, eval_with, collect_outputs, grown, buffer_len, traced, zeros, length-zeros,
}
use rsdag.Tape.Phases.{eval_prolog, eval_main_with}
use rsdag.Tape.Phases.Append.{after, HasLength, exec-append, exec-HasLength}

module _ {K : Field} (T : Scalar K) (ks : Kernels T) (t : Tape K) (inputs : List T.Val)
    (placed : length t.dst ≡ length t.ops) (within : t.prolog_ops ≤ length t.ops) where
  run_range-split :
      (work : List T.Val)
      → run_range T ks t inputs work 0 (length t.ops)
        ≡ after T ks t inputs
            (run_range T ks t inputs work 0 t.prolog_ops)
            (λ w. run_range T ks t inputs w t.prolog_ops (length t.ops))
  unfolding run_range
  run_range-split work =
      rw
        (
          take_all (length t.ops - 0) t.ops (omega arith),
          take_all (length t.ops - 0) t.dst (omega arith),
          sub_zero t.prolog_ops,
          take_all (length t.ops - t.prolog_ops) (drop t.prolog_ops t.ops)
              (omega (arith, length-drop t.prolog_ops t.ops)),
          take_all (length t.ops - t.prolog_ops) (drop t.prolog_ops t.dst)
              (omega (arith, placed, length-drop t.prolog_ops t.dst)),
        )
        (ap₂ (λ ops dst. exec T ks t inputs ops dst work)
            (sym (take-append-drop t.prolog_ops t.ops)) (sym (take-append-drop t.prolog_ops t.dst))
          ∙ exec-append T ks t inputs (take t.prolog_ops t.ops) (drop t.prolog_ops t.ops)
              (take t.prolog_ops t.dst) (drop t.prolog_ops t.dst) work
              (omega
                (arith, placed, length-take t.prolog_ops t.ops, length-take t.prolog_ops t.dst)))
    where
      sub_zero : (n : ℕ) → n - 0 ≡ n
      sub_zero n = omega arith

  -- The outputs behind a run.
  abbrev outputs_of : Option (List T.Val × List ℕ) → Option (List T.Val)
  outputs_of r = Option.map (λ r. r.0) r

  abbrev collected : Option (List T.Val × List ℕ) → Option (List T.Val × List ℕ)
  collected r =
      Option.bind r
        (λ (slots, trace). Option.map (λ out. (out, trace)) (collect_outputs T t inputs slots))

  collected-traced :
      (a : List ℕ) (r : Option (List T.Val × List ℕ))
      → outputs_of (collected (traced T a r)) ≡ outputs_of (collected r)
  unfolding Option.bind
  collected-traced a none = refl
  collected-traced a (some (w, trace)) = by (collect_outputs T t inputs w)
    where
      by :
          (o : Option (List T.Val))
          → outputs_of (Option.map (λ out. (out, a ++ trace)) o)
            ≡ outputs_of (Option.map (λ out. (out, trace)) o)
      by none = refl
      by (some out) = refl

  -- For a tape whose ops have a destination each and whose prolog is within them: evaluating it gives
  -- the outputs of its main phase on the buffer that its prolog leaves, and panics where one of the
  -- two does.
  pub eval_with-eval_main_with :
      (work : List T.Val)
      → Option.map (λ r. r.0) (eval_with T ks t inputs work)
        ≡ Option.bind
            (eval_prolog T ks t inputs work)
            (λ w. Option.map (λ r. r.0) (eval_main_with T ks t inputs w))
  unfolding eval_with eval_prolog eval_main_with Option.bind run_range
  eval_with-eval_main_with work =
      ap (λ r. outputs_of (collected r)) (run_range-split slots)
      ∙ by (run_range T ks t inputs slots 0 t.prolog_ops) (
          subst (λ n. HasLength T ks t inputs n (run_range T ks t inputs slots 0 t.prolog_ops)) long
            (exec-HasLength T ks t inputs (take (t.prolog_ops - 0) t.ops)
              (take (t.prolog_ops - 0) t.dst) slots))
    where
      buffer : List T.Val
      buffer = grown T work (buffer_len T t)

      slots : List T.Val
      slots = take t.n_work buffer

      grown_long : length buffer ≡ length work + (buffer_len T t - length work)
      grown_long =
          length-append work (zeros T (buffer_len T t - length work))
          ∙ ap (λ n. length work + n) (length-zeros T (buffer_len T t - length work))

      long : length slots ≡ t.n_work
      long = omega (arith, length-take t.n_work buffer, grown_long)

      le→leb : (a b : ℕ) → a ≤ b → leb a b ≡ true
      le→leb a b h = ground arith

      ready :
          (w : List T.Val)
          → length w ≡ t.n_work
          → leb (buffer_len T t) (length (w ++ drop t.n_work buffer)) ≡ true
      ready w h = le→leb (buffer_len T t) (length (w ++ drop t.n_work buffer)) (
          omega (
            arith,
            h,
            grown_long,
            length-append w (drop t.n_work buffer),
            length-drop t.n_work buffer,
          ))

      kept : (w : List T.Val) → length w ≡ t.n_work → take t.n_work (w ++ drop t.n_work buffer) ≡ w
      kept w h =
          subst (λ n. take n (w ++ drop t.n_work buffer) ≡ w) h
            (take-length w (drop t.n_work buffer))

      by :
          (r : Option (List T.Val × List ℕ))
          → HasLength T ks t inputs t.n_work r
          → outputs_of (
              collected (
                after T ks t inputs r (λ w. run_range T ks t inputs w t.prolog_ops (length t.ops))))
            ≡ Option.bind (Option.map (λ r. r.0 ++ drop t.n_work buffer) r) (λ w. outputs_of (
                if leb (buffer_len T t) (length w)
                then collected
                    (run_range T ks t inputs (take t.n_work w) t.prolog_ops (length t.ops))
                else none))
      by none h = refl
      by (some (w, trace)) h =
          collected-traced trace (run_range T ks t inputs w t.prolog_ops (length t.ops))
          ∙ sym (rw (ready w h, kept w h) refl)
