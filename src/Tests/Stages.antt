-- ===== src/Tests/Stages.antt =====
-- The theorems about stages at a tape of two prologs and three calls.
use mathlib.Core.Option
use rsdag.Prelude.{ℕ, ◌+◌, ◌≡◌, refl, Option, some, List, [], ◌∷◌, All, slice, write_block, arith}
use rsdag.Program.{computed}
use rsdag.Tape.Run.{exec, op_values, read, read_all}
use rsdag.Tape.{op_operands, kind_of, width, Op, Tape, all_args, input_tag, no_state}
use rsdag.Tape.Stages.{Stage, Span, Bodies, clash, grow, plan, spans, plan_stages}
use rsdag.Tape.Stages.Planned.{IsStage, AreOrdered, plan_stages_apart}
use rsdag.Tape.Stages.Order.{exec-apart}
use rsdag.Tests.Mod3.{mod3_field, mod3_scalar, Mod3, nought, one, two}
use rsdag.Tests.Tapes.{state_kernels}

-- Two prologs, a call over each one's state, and a call that reads what the first of them writes.
abbrev calls : Tape mod3_field
calls = record {
  ops =
      Op.call_prolog 0 0 1 1 0
      ∷ Op.call_prolog 0 1 1 1 0
      ∷ Op.call 0 0 1 1 1 all_args 1 0 0
      ∷ Op.call 0 1 1 1 1 all_args 1 2 0
      ∷ Op.call 0 2 1 1 1 all_args 1 no_state 0
      ∷ [];
  dst = 0 ∷ 2 ∷ 4 ∷ 5 ∷ 6 ∷ [];
  n_selects = 0;
  arg_pool = input_tag ∷ (input_tag + 1) ∷ 4 ∷ [];
  outputs = 6 ∷ [];
  n_work = 7;
  max_args = 1;
  lent = 0;
  bundles = λ b. 1;
  prolog_ops = 2;
  state_len = 4;
  n_inputs = 2;
}

abbrev bodies : Bodies
bodies b = some (5, 2)

abbrev calls_spans : List (Option Span)
calls_spans =
    some (record { reads = []; writes = (0, 2); groups = 1; work = 2 })
    ∷ some (record { reads = []; writes = (2, 4); groups = 1; work = 2 })
    ∷ some (record { reads = (0, 2) ∷ []; writes = (4, 5); groups = 1; work = 3 })
    ∷ some (record { reads = (2, 4) ∷ []; writes = (5, 6); groups = 1; work = 3 })
    ∷ some (record { reads = (4, 5) ∷ []; writes = (6, 7); groups = 1; work = 5 })
    ∷ []

-- The prologs are a stage and the first two calls are one.
planned :
    plan_stages calls bodies
    ≡ some (
        record { lo = 0; hi = 2; instances = 2; ops = 4 }
        ∷ record { lo = 2; hi = 4; instances = 2; ops = 6 }
        ∷ [])
unfolding plan_stages spans plan grow clash slice Option.bind
planned = refl

plan_stages_apart_example :
    (sts : List Stage) × (plan_stages calls bodies ≡ some sts)
    × All (IsStage 2 0 calls_spans) sts
    × AreOrdered 0 sts
unfolding spans slice Option.bind
plan_stages_apart_example = plan_stages_apart calls bodies calls_spans refl

abbrev work : List Mod3
work = one ∷ two ∷ two ∷ one ∷ nought ∷ nought ∷ nought ∷ []

abbrev first : Op mod3_field
first = Op.call 0 0 1 1 1 all_args 1 0 0

abbrev second : Op mod3_field
second = Op.call 0 1 1 1 1 all_args 1 2 0

-- The two calls of the second stage.
exec-apart_example :
    exec mod3_scalar state_kernels calls (one ∷ one ∷ []) (first ∷ second ∷ []) (4 ∷ 5 ∷ []) work
    ≡ exec mod3_scalar state_kernels calls (one ∷ one ∷ []) (second ∷ first ∷ []) (5 ∷ 4 ∷ []) work
unfolding slice Option.bind
exec-apart_example =
    exec-apart mod3_scalar state_kernels calls bodies (one ∷ one ∷ []) first second 4 5
      (record { reads = (0, 2) ∷ []; writes = (4, 5); groups = 1; work = 3 })
      (record { reads = (2, 4) ∷ []; writes = (5, 6); groups = 1; work = 3 }) refl refl
      (omega arith) (omega arith) ((refl, tt), refl, (refl, tt)) work

ran :
    ◌≡◌ {A = Option (List Mod3 × List ℕ)}
      (exec mod3_scalar state_kernels calls
        (one ∷ one ∷ [])
        (second ∷ first ∷ [])
        (5 ∷ 4 ∷ [])
        work)
      (some (one ∷ two ∷ two ∷ one ∷ two ∷ nought ∷ nought ∷ [], []))
unfolding exec op_values read read_all op_operands kind_of width write_block slice computed
    Option.bind
ran = refl
