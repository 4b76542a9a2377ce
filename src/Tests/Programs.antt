-- ===== src/Tests/Programs.antt =====
-- The theorems about programs and their specializations at a program of three instructions.
use mathlib.Core.Option
use rsdag.Prelude.{
  ℕ, zero, suc, ◌≡◌, refl, subst, Bool, true, false, Option, none, some, List, [], ◌∷◌, length,
  get_elem?, slice, set, arith, All,
}
use rsdag.Field.{Field}
use rsdag.Semantics.{Scalar}
use rsdag.Program.{
  Ref, Kind, Inst, Program, Kernels, IsProgram, IsRun, IsOlder, IsPlaced, HasArms, ins_of, ins,
  inst_values, computed, scalar, outputs, is_select, is_stateful,
}
use rsdag.Program.Follow.{follow}
use rsdag.Program.Reach.{visit, weight, reach, push_all}
use rsdag.Program.Specialize.{
  Specialized, specialize, specialize_main, shorten, shortened, pins, pins_from, live_marks,
  collect, watch, lookup, resolve, check_outputs, holds, u32_max,
}
use rsdag.Program.Specialize.Pins.{trace_from}
use rsdag.Program.Specialize.Whole.{
  trace_of, check_outputs-specialize, check_outputs-specialize_main,
}
use rsdag.Program.Specialize.Traced.{check_outputs-trace_of}
use rsdag.Program.Decide.{arms}
use rsdag.Tests.Mod3.{mod3_field, mod3_scalar, Mod3, one, two}

-- What a program's instructions are checked for, one by one.
abbrev pub Computes :
    {K : Field} (T : Scalar K)
    → Kernels T
    → (ℕ → T.Val)
    → (ℕ → List T.Val)
    → ℕ
    → Inst K
    → Option (List Ref)
    → Type 0
Computes T ks inputs get i inst none = Unit
Computes T ks inputs get i inst (some rs) = inst_values T ks inputs get inst.kind rs ≡ some (get i)

abbrev pub ComputesAt :
    {K : Field} (T : Scalar K)
    → Kernels T
    → (ℕ → T.Val)
    → Program K
    → (ℕ → List T.Val)
    → ℕ
    → Option (Inst K)
    → Type 0
ComputesAt T ks inputs p get i none = Unit
ComputesAt T ks inputs p get i (some inst) = Computes T ks inputs get i inst (ins_of p inst)

pub IsRun-of :
    {K : Field} (T : Scalar K) (ks : Kernels T) (inputs : ℕ → T.Val) (p : Program K)
    (get : ℕ → List T.Val)
    → ((i : ℕ) → ComputesAt T ks inputs p get i (get_elem? p.insts i))
    → IsRun T ks inputs p get
IsRun-of T ks inputs p get all = record {
  computes = λ i inst rs e e'.
      subst (Computes T ks inputs get i inst) e' (subst (ComputesAt T ks inputs p get i) e (all i));
}

abbrev IsOrderedAt : {K : Field} → Program K → ℕ → Option (Inst K) → Type 0
IsOrderedAt p i none = Unit
IsOrderedAt p i (some inst) =
    (is_stateful inst.kind ≡ false)
    × (rs : List Ref) × (ins_of p inst ≡ some rs)
    × All (IsOlder p i) rs
    × HasArms p inst.kind rs

program_of :
    {K : Field} (p : Program K)
    → ((i : ℕ) → IsOrderedAt p i (get_elem? p.insts i))
    → All (IsOlder p (length p.insts)) p.roots
    → IsPlaced (length p.insts) p.placeholder
    → IsProgram p
program_of p all roots placeholder = record {
  ordered = λ i inst e.
      let (_, rs, e', older, arms) = subst (IsOrderedAt p i) e (all i) in (rs, e', older, arms);
  states = λ i inst rs e e' s. elim (true_false s (subst (IsOrderedAt p i) e (all i)).0) [ ];
  roots = roots;
  placeholder = placeholder;
}
  where
    true_false : {b : Bool} → b ≡ true → b ≡ false → ⊥
    true_false h k = cc

abbrev pub no_kernels : Kernels mod3_scalar
no_kernels = record { block = λ k vs st. [] }

abbrev pub inst3 : Kind mod3_field → ℕ → ℕ → Inst mod3_field
inst3 k s l = record { kind = k; ins = (s, l); n_out = 1; is_pure = false }

-- A choice between two inputs, their sum with the second one, and a choice that the sum decides.
abbrev pub three : Program mod3_field
three = record {
  insts = inst3 Kind.select 0 3 ∷ inst3 Kind.add 3 2 ∷ inst3 Kind.select 5 3 ∷ [];
  pool =
      Ref.input 0
      ∷ Ref.input 1
      ∷ Ref.input 0
      ∷ Ref.value 0 0
      ∷ Ref.input 1
      ∷ Ref.value 1 0
      ∷ Ref.value 0 0
      ∷ Ref.value 1 0
      ∷ [];
  roots = Ref.value 2 0 ∷ Ref.input 0 ∷ [];
  placeholder = none;
  state = none;
}

pub three-IsProgram : IsProgram three
unfolding ins_of slice is_stateful
three-IsProgram = program_of three at ((omega arith, λ _. refl), (tt, tt)) tt
  where
    at : (i : ℕ) → IsOrderedAt three i (get_elem? three.insts i)
    at zero = (
      refl,
      Ref.input 0 ∷ Ref.input 1 ∷ Ref.input 0 ∷ [],
      refl,
      (tt, (tt, (tt, tt))),
      (Ref.input 0, Ref.input 1, Ref.input 0, refl),
    )
    at (suc zero) =
        (refl, Ref.value 0 0 ∷ Ref.input 1 ∷ [], refl, ((omega arith, λ _. refl), (tt, tt)), tt)
    at (suc (suc zero)) = (
      refl,
      Ref.value 1 0 ∷ Ref.value 0 0 ∷ Ref.value 1 0 ∷ [],
      refl,
      ((omega arith, λ _. refl), ((omega arith, λ _. refl), ((omega arith, λ _. refl), tt))),
      (Ref.value 1 0, Ref.value 0 0, Ref.value 1 0, refl),
    )
    at (suc (suc (suc i))) = tt

abbrev pub traced_inputs : ℕ → Mod3
traced_inputs zero = one
traced_inputs (suc _) = two

abbrev pub later_inputs : ℕ → Mod3
later_inputs _ = two

-- The values of the three instructions, for both inputs.
abbrev pub values : ℕ → List Mod3
values zero = two ∷ []
values (suc zero) = one ∷ []
values (suc (suc _)) = two ∷ []

pub traced-IsRun : IsRun mod3_scalar no_kernels traced_inputs three values
unfolding ins_of slice inst_values computed scalar is_stateful
traced-IsRun = IsRun-of mod3_scalar no_kernels traced_inputs three values at
  where
    at :
        (i : ℕ)
        → ComputesAt mod3_scalar no_kernels traced_inputs three values i (get_elem? three.insts i)
    at zero = refl
    at (suc zero) = refl
    at (suc (suc zero)) = refl
    at (suc (suc (suc i))) = tt

pub later-IsRun : IsRun mod3_scalar no_kernels later_inputs three values
unfolding ins_of slice inst_values computed scalar is_stateful
later-IsRun = IsRun-of mod3_scalar no_kernels later_inputs three values at
  where
    at :
        (i : ℕ)
        → ComputesAt mod3_scalar no_kernels later_inputs three values i (get_elem? three.insts i)
    at zero = refl
    at (suc zero) = refl
    at (suc (suc zero)) = refl
    at (suc (suc (suc i))) = tt

-- The program with both choices pinned: its two outputs, and a guard for each condition.
abbrev pub three_shortened : Specialized mod3_field
three_shortened = record {
  program = record three {
    pool =
        Ref.input 0
        ∷ Ref.input 1
        ∷ Ref.input 0
        ∷ Ref.input 1
        ∷ Ref.input 1
        ∷ Ref.value 1 0
        ∷ Ref.input 1
        ∷ Ref.value 1 0
        ∷ [];
    roots = Ref.input 1 ∷ Ref.input 0 ∷ Ref.input 0 ∷ Ref.value 1 0 ∷ [];
  };
  n_real = 2;
  expected = 1 ∷ 1 ∷ [];
  guard_of = 0 ∷ 1 ∷ [];
}

specialized :
    specialize three
      (trace_of mod3_scalar no_kernels three traced_inputs values 0)
      (true ∷ true ∷ [])
    ≡ some three_shortened
unfolding specialize shorten shortened pins pins_from live_marks collect watch lookup resolve follow
    reach visit weight push_all set trace_of trace_from ins_of ins slice is_select Option.bind
specialized = refl

shortened-IsRun : IsRun mod3_scalar no_kernels later_inputs three_shortened.program values
unfolding ins_of slice inst_values computed scalar
shortened-IsRun = IsRun-of mod3_scalar no_kernels later_inputs three_shortened.program values at
  where
    at :
        (i : ℕ)
        → ComputesAt mod3_scalar no_kernels later_inputs three_shortened.program values i
            (get_elem? three_shortened.program.insts i)
    at zero = refl
    at (suc zero) = refl
    at (suc (suc zero)) = refl
    at (suc (suc (suc i))) = tt

traced_shortened-IsRun : IsRun mod3_scalar no_kernels traced_inputs three_shortened.program values
unfolding ins_of slice inst_values computed scalar
traced_shortened-IsRun =
    IsRun-of mod3_scalar no_kernels traced_inputs three_shortened.program values at
  where
    at :
        (i : ℕ)
        → ComputesAt mod3_scalar no_kernels traced_inputs three_shortened.program values i
            (get_elem? three_shortened.program.insts i)
    at zero = refl
    at (suc zero) = refl
    at (suc (suc zero)) = refl
    at (suc (suc (suc i))) = tt

check_outputs-specialize_example :
    two ∷ two ∷ [] ≡ outputs mod3_scalar no_kernels later_inputs values three
unfolding check_outputs holds
check_outputs-specialize_example =
    check_outputs-specialize mod3_scalar no_kernels three traced_inputs values three-IsProgram
      traced-IsRun (true ∷ true ∷ []) three_shortened specialized later_inputs values values
      later-IsRun shortened-IsRun (two ∷ two ∷ []) refl

check_outputs-trace_of_example :
    check_outputs mod3_scalar three_shortened
      (outputs mod3_scalar no_kernels traced_inputs values three_shortened.program)
    ≡ (true, outputs mod3_scalar no_kernels traced_inputs values three)
check_outputs-trace_of_example =
    check_outputs-trace_of mod3_scalar no_kernels three traced_inputs values three-IsProgram
      traced-IsRun (true ∷ true ∷ []) three_shortened values specialized traced_shortened-IsRun

-- The last choice alone, behind a prolog of one instruction.
abbrev three_main : Specialized mod3_field
three_main = record {
  program = record three {
    roots = Ref.value 0 0 ∷ Ref.input 0 ∷ Ref.value 1 0 ∷ [];
    state = some (5 ∷ u32_max ∷ u32_max ∷ [], 6);
  };
  n_real = 2;
  expected = 1 ∷ [];
  guard_of = 0 ∷ [];
}

specialized_main :
    specialize_main three
      (5 ∷ 6 ∷ 7 ∷ [])
      6
      1
      (trace_of mod3_scalar no_kernels three traced_inputs values 1)
      (true ∷ [])
    ≡ some three_main
unfolding specialize_main shorten shortened pins pins_from live_marks collect watch lookup resolve
    follow reach visit weight push_all set trace_of trace_from ins_of ins slice is_select
    Option.bind
specialized_main = refl

main-IsRun : IsRun mod3_scalar no_kernels later_inputs three_main.program values
unfolding ins_of slice inst_values computed scalar
main-IsRun = IsRun-of mod3_scalar no_kernels later_inputs three_main.program values at
  where
    at :
        (i : ℕ)
        → ComputesAt mod3_scalar no_kernels later_inputs three_main.program values i
            (get_elem? three_main.program.insts i)
    at zero = refl
    at (suc zero) = refl
    at (suc (suc zero)) = refl
    at (suc (suc (suc i))) = tt

check_outputs-specialize_main_example :
    two ∷ two ∷ [] ≡ outputs mod3_scalar no_kernels later_inputs values three
unfolding check_outputs holds
check_outputs-specialize_main_example =
    check_outputs-specialize_main mod3_scalar no_kernels three traced_inputs values three-IsProgram
      traced-IsRun (5 ∷ 6 ∷ 7 ∷ []) 6 1 (true ∷ []) three_main specialized_main later_inputs values
      values later-IsRun main-IsRun (two ∷ two ∷ []) refl
