-- ===== src/Tests/Tapes.antt =====
-- The theorems about tapes at a tape of three ops, and at one whose call keeps a state.
use mathlib.Core.Option
use rsdag.Prelude.{
  ℕ, zero, suc, ◌+◌, ◌≡◌, refl, inr, Bool, true, false, Option, none, some, List, [], ◌∷◌, ◌++◌,
  fill, slice, write_block, arith, get_or, get_elem?, ◌<◌, set,
}
use rsdag.Program.{
  Ref, Kind, Program, Kernels, IsProgram, IsRun, outputs, ins_of, computed, scalar, inst_values,
  is_select, ins,
}
use rsdag.Program.Follow.{follow}
use rsdag.Program.Reach.{visit, weight, reach, push_all}
use rsdag.Program.Specialize.{
  u32_max, pins, pins_from, live_marks, shorten, shortened, collect, watch, lookup, resolve,
  check_outputs,
}
use rsdag.Program.Specialize.Whole.{trace_of}
use rsdag.Tape.{Op, Tape, input_tag, op_operands, width, kind_of, all_args}
use rsdag.Tape.Run.{read_all, read, op_scalar, op_values, exec, run_range, eval_with, inputs_at}
use rsdag.Tape.Phases.{eval_prolog, eval_main_with}
use rsdag.Tape.Phases.Split.{eval_with-eval_main_with}
use rsdag.Tape.Lift.{value_at, lifted_ins, lift_from, lift}
use rsdag.Tape.Lift.Kept.{IsKept}
use rsdag.Tape.Lift.Whole.{IsStream, lift-IsRun, block_at}
use rsdag.Tape.Lift.Programs.{lift-IsProgram}
use rsdag.Tape.Specialize.{specialize_tape, specialize_tape-outputs, specialize_tape-passes}
use rsdag.Tests.Mod3.{mod3_field, mod3_scalar, Mod3, nought, one, two, add3}
use rsdag.Tests.Programs.{no_kernels, three, three_shortened, values, IsRun-of, ComputesAt}

abbrev tagged : ℕ → ℕ
tagged i = input_tag + i

-- A choice between two inputs, their sum with the second one, and a choice that the sum decides, which
-- takes the first one's slot.
abbrev three_ops : Tape mod3_field
three_ops = record {
  ops = Op.select (tagged 0) (tagged 1) (tagged 0) ∷ Op.add 0 (tagged 1) ∷ Op.select 1 0 1 ∷ [];
  dst = 0 ∷ 1 ∷ 0 ∷ [];
  n_selects = 2;
  arg_pool = [];
  outputs = 0 ∷ tagged 0 ∷ [];
  n_work = 2;
  max_args = 0;
  lent = 0;
  bundles = λ b. 0;
  prolog_ops = 0;
  state_len = 0;
  n_inputs = 2;
}

three_ops-IsStream : IsStream three_ops
unfolding width fill
three_ops-IsStream = record {
  placed = refl;
  few = omega arith;
  keeps = (refl, tt, (refl, tt, (refl, tt, tt)));
}

lifted : lift three_ops ≡ some three
unfolding lift lift_from lifted_ins value_at read_all op_operands kind_of width fill Option.bind
lifted = refl

lift-IsProgram_example : IsProgram three
lift-IsProgram_example = lift-IsProgram three_ops three_ops-IsStream three lifted

recorded :
    ◌≡◌ {A = Option (List Mod3 × List ℕ)}
      (eval_with mod3_scalar no_kernels three_ops (one ∷ two ∷ []) [])
      (some (two ∷ one ∷ [], 1 ∷ 1 ∷ []))
unfolding eval_with run_range exec op_values op_scalar read read_all op_operands kind_of width
    write_block Option.bind
recorded = refl

evaluated :
    ◌≡◌ {A = Option (List Mod3 × List ℕ)}
      (eval_with mod3_scalar no_kernels three_ops (two ∷ two ∷ []) (nought ∷ one ∷ []))
      (some (two ∷ two ∷ [], 1 ∷ 1 ∷ []))
unfolding eval_with run_range exec op_values op_scalar read read_all op_operands kind_of width
    write_block Option.bind
evaluated = refl

specialized : specialize_tape three_ops (1 ∷ 1 ∷ []) (true ∷ true ∷ []) ≡ some three_shortened
unfolding specialize_tape lift lift_from lifted_ins value_at read_all op_operands kind_of width fill
    shorten shortened pins pins_from live_marks collect watch lookup resolve follow reach visit
    weight push_all ins_of slice is_select Option.bind ins set
specialized = refl

-- A prolog that keeps two values, a call that reads them, and a choice that the call decides.
abbrev stateful_ops : Tape mod3_field
stateful_ops = record {
  ops = Op.call_prolog 0 0 1 1 0 ∷ Op.call 0 1 1 1 1 all_args 1 0 0 ∷ Op.select 2 (tagged 0) 1 ∷ [];
  dst = 0 ∷ 2 ∷ 2 ∷ [];
  n_selects = 1;
  arg_pool = tagged 0 ∷ tagged 1 ∷ [];
  outputs = 2 ∷ [];
  n_work = 3;
  max_args = 1;
  lent = 0;
  bundles = λ b. 1;
  prolog_ops = 1;
  state_len = 2;
  n_inputs = 2;
}

abbrev pub kernel : Kind mod3_field → List Mod3 → List Mod3 → List Mod3
kernel (Kind.call_prolog b n a) vs st = vs ++ two ∷ []
kernel (Kind.call b f n a r s) vs st = add3 (get_or vs 0 nought) (get_or st 0 nought) ∷ []
kernel _ vs st = []

abbrev pub state_kernels : Kernels mod3_scalar
state_kernels = record { block = kernel }

abbrev stateful_program : Program mod3_field
stateful_program = record {
  insts =
      record { kind = Kind.call_prolog 0 1 1; ins = (0, 1); n_out = 2; is_pure = true }
      ∷ record {
        kind = Kind.call 0 u32_max 1 1 none true;
        ins = (1, 2);
        n_out = 1;
        is_pure = false;
      }
      ∷ record { kind = Kind.select; ins = (3, 3); n_out = 1; is_pure = false }
      ∷ [];
  pool =
      Ref.input 0 ∷ Ref.input 1 ∷ Ref.value 0 0 ∷ Ref.value 1 0 ∷ Ref.input 0 ∷ Ref.value 0 1 ∷ [];
  roots = Ref.value 2 0 ∷ [];
  placeholder = none;
  state = none;
}

stateful-IsStream : IsStream stateful_ops
unfolding width fill
stateful-IsStream = record {
  placed = refl;
  few = omega arith;
  keeps = (refl, tt, (refl, inr kept, (refl, tt, tt)));
}
  where
    kept : IsKept stateful_ops (0 ∷ 0 ∷ u32_max ∷ []) 0 1 0
    kept = record {
      prolog = 0;
      op = Op.call_prolog 0 0 1 1 0;
      is_slot = refl;
      at_op = refl;
      at_dst = refl;
      is_prolog = refl;
      size = refl;
      first = refl;
      slots = slots;
    }
      where
        slots : (o : ℕ) → o < 2 → get_elem? (0 ∷ 0 ∷ u32_max ∷ []) (0 + o) ≡ some 0
        slots zero lt = refl
        slots (suc zero) lt = refl
        slots (suc (suc o)) lt = let bad : ⊥ = omega arith in elim bad [ ]

traced-IsRun :
    IsRun mod3_scalar no_kernels
      (inputs_at mod3_scalar (one ∷ two ∷ []))
      three_shortened.program
      values
unfolding ins_of slice inst_values computed scalar
traced-IsRun =
    IsRun-of mod3_scalar no_kernels (inputs_at mod3_scalar (one ∷ two ∷ [])) three_shortened.program
      values at
  where
    at :
        (i : ℕ)
        → ComputesAt mod3_scalar no_kernels
            (inputs_at mod3_scalar (one ∷ two ∷ []))
            three_shortened.program
            values
            i
            (get_elem? three_shortened.program.insts i)
    at zero = refl
    at (suc zero) = refl
    at (suc (suc zero)) = refl
    at (suc (suc (suc i))) = tt

later-IsRun :
    IsRun mod3_scalar no_kernels
      (inputs_at mod3_scalar (two ∷ two ∷ []))
      three_shortened.program
      values
unfolding ins_of slice inst_values computed scalar
later-IsRun =
    IsRun-of mod3_scalar no_kernels (inputs_at mod3_scalar (two ∷ two ∷ [])) three_shortened.program
      values at
  where
    at :
        (i : ℕ)
        → ComputesAt mod3_scalar no_kernels
            (inputs_at mod3_scalar (two ∷ two ∷ []))
            three_shortened.program
            values
            i
            (get_elem? three_shortened.program.insts i)
    at zero = refl
    at (suc zero) = refl
    at (suc (suc zero)) = refl
    at (suc (suc (suc i))) = tt

specialize_tape-outputs_example : two ∷ two ∷ [] ≡ two ∷ two ∷ []
unfolding check_outputs
specialize_tape-outputs_example =
    specialize_tape-outputs mod3_scalar no_kernels three_ops three_ops-IsStream (one ∷ two ∷ []) []
      (two ∷ one ∷ []) (1 ∷ 1 ∷ []) recorded (true ∷ true ∷ []) three_shortened specialized
      (two ∷ two ∷ []) (nought ∷ one ∷ []) (two ∷ two ∷ []) (1 ∷ 1 ∷ []) evaluated values
      later-IsRun (two ∷ two ∷ []) refl

specialize_tape-passes_example :
    ◌≡◌ {A = Bool × List Mod3}
      (check_outputs mod3_scalar three_shortened (
        outputs mod3_scalar no_kernels
          (inputs_at mod3_scalar (one ∷ two ∷ []))
          values
          three_shortened.program))
      (true, two ∷ one ∷ [])
specialize_tape-passes_example =
    specialize_tape-passes mod3_scalar no_kernels three_ops three_ops-IsStream (one ∷ two ∷ []) []
      (two ∷ one ∷ []) (1 ∷ 1 ∷ []) recorded (true ∷ true ∷ []) three_shortened specialized values
      traced-IsRun

lift-IsRun_example :
    IsRun mod3_scalar state_kernels
      (inputs_at mod3_scalar (one ∷ two ∷ []))
      stateful_program
      (block_at mod3_scalar state_kernels stateful_ops (one ∷ two ∷ []) [])
    × (two ∷ []
        ≡ outputs mod3_scalar state_kernels
            (inputs_at mod3_scalar (one ∷ two ∷ []))
            (block_at mod3_scalar state_kernels stateful_ops (one ∷ two ∷ []) [])
            stateful_program)
    × (0 ∷ []
        ≡ trace_of mod3_scalar state_kernels stateful_program
            (inputs_at mod3_scalar (one ∷ two ∷ []))
            (block_at mod3_scalar state_kernels stateful_ops (one ∷ two ∷ []) [])
            0)
unfolding lift lift_from lifted_ins value_at read_all op_operands kind_of width fill Option.bind
    eval_with run_range exec op_values op_scalar read write_block slice computed
lift-IsRun_example =
    lift-IsRun mod3_scalar state_kernels stateful_ops (one ∷ two ∷ []) stateful-IsStream
      stateful_program refl [] (two ∷ []) (0 ∷ []) refl

-- The prolog's buffer, and the main phase on it.
eval_with-eval_main_with_example :
    Option.map (λ r. r.0) (eval_with mod3_scalar state_kernels stateful_ops (one ∷ two ∷ []) [])
    ≡ Option.bind (eval_prolog mod3_scalar state_kernels stateful_ops (one ∷ two ∷ []) []) (λ w.
      Option.map
        (λ r. r.0)
        (eval_main_with mod3_scalar state_kernels stateful_ops (one ∷ two ∷ []) w))
eval_with-eval_main_with_example =
    eval_with-eval_main_with mod3_scalar state_kernels stateful_ops (one ∷ two ∷ []) refl
      (omega arith) []

main_run :
    ◌≡◌ {A = Option (List Mod3 × List ℕ)}
      (eval_main_with mod3_scalar state_kernels stateful_ops
        (one ∷ two ∷ [])
        (one ∷ two ∷ nought ∷ nought ∷ []))
      (some (two ∷ [], 0 ∷ []))
unfolding eval_main_with run_range exec op_values op_scalar read read_all op_operands kind_of width
    write_block slice computed Option.bind
main_run = refl
