-- ===== src/Tests/Decisions.antt =====
-- The theorems about programs whose choices are decided, and about what the roots reach, at a program
-- of three instructions.
use mathlib.Core.Option
use rsdag.Prelude.{
  fill, ℕ, zero, suc, ◌≡◌, ◌↔◌, refl, Bool, true, false, none, some, List, [], ◌∷◌, length,
  get_elem?, slice, set, arith, All,
}
use rsdag.Program.{Ref, Kind, Program, IsProgram, IsRun, ins_of, ins, outputs, is_select}
use rsdag.Program.Follow.{follow, IsBelow}
use rsdag.Program.Reach.{reach_marks, IsLive, reach}
use rsdag.Program.Specialize.{Specialized, specialize, reads}
use rsdag.Program.Specialize.Total.{specialize_iff}
use rsdag.Program.Decide.{
  ParamSelects, param_selects, gather, position, decide, arms, arms_from, decided_pool, main_flags,
  decided, pattern,
}
use rsdag.Program.Compact.{renumber_from, keep, compact_insts, move_all, compact_by, compact}
use rsdag.Program.Compact.Retain.{
  retain_reachable, reachable, search, dead_weight, root_ids, push_dead,
}
use rsdag.Program.Compact.Total.{retain_reachable-IsRun}
use rsdag.Program.Decide.Total.{decide-IsRun}
use rsdag.Tests.Mod3.{mod3_field, mod3_scalar, Mod3, one}
use rsdag.Tests.Programs.{
  no_kernels, inst3, three, three-IsProgram, traced_inputs, later_inputs, values, traced-IsRun,
  later-IsRun,
}

-- The choice by the first input, which is pure.
abbrev by_parameter : ParamSelects
by_parameter = record { conds = Ref.input 0 ∷ []; of = (0, 0) ∷ [] }

found : param_selects three 0 (true ∷ false ∷ []) ≡ some (some by_parameter)
unfolding param_selects gather position ins ins_of slice is_select Option.bind
found = refl

-- The first choice is gone, and what is left is renumbered.
abbrev three_decided : Program mod3_field
three_decided = record three {
  insts = inst3 Kind.add 0 2 ∷ inst3 Kind.select 2 3 ∷ [];
  pool = Ref.input 1 ∷ Ref.input 1 ∷ Ref.value 0 0 ∷ Ref.input 1 ∷ Ref.value 0 0 ∷ [];
  roots = Ref.value 1 0 ∷ Ref.input 0 ∷ [];
}

decides :
    decide three by_parameter (pattern mod3_scalar no_kernels traced_inputs values by_parameter)
    ≡ some three_decided
unfolding decide arms arms_from decided_pool main_flags fill decided follow set ins ins_of slice
    Option.bind retain_reachable reachable search dead_weight root_ids push_dead compact
    renumber_from keep compact_insts move_all compact_by
decides = refl

decide-IsRun_example :
    (p' : Program mod3_field) × (decide three by_parameter
        (pattern mod3_scalar no_kernels traced_inputs values by_parameter)
      ≡ some p')
    × (get' : ℕ → List Mod3) × IsRun mod3_scalar no_kernels traced_inputs p' get'
    × (outputs mod3_scalar no_kernels traced_inputs get' p'
        ≡ outputs mod3_scalar no_kernels traced_inputs values three)
decide-IsRun_example =
    decide-IsRun three three-IsProgram tt mod3_scalar no_kernels traced_inputs values traced-IsRun 0
      (true ∷ false ∷ []) by_parameter found

abbrev fewer_roots : Program mod3_field
fewer_roots = record three { roots = Ref.value 1 0 ∷ []; placeholder = some 0 }

-- The last choice is read by no root.
abbrev three_retained : Program mod3_field
three_retained = record three {
  insts = inst3 Kind.select 0 3 ∷ inst3 Kind.add 3 2 ∷ [];
  pool = Ref.input 0 ∷ Ref.input 1 ∷ Ref.input 0 ∷ Ref.value 0 0 ∷ Ref.input 1 ∷ [];
  roots = Ref.value 1 0 ∷ [];
  placeholder = some 0;
}

retained : retain_reachable fewer_roots ≡ some three_retained
unfolding set ins ins_of slice Option.bind retain_reachable reachable search dead_weight root_ids
    push_dead compact renumber_from keep compact_insts move_all compact_by
retained = refl

fewer_roots-IsRun : IsRun mod3_scalar no_kernels later_inputs fewer_roots values
unfolding ins_of slice
fewer_roots-IsRun = record { computes = later-IsRun.computes }

fewer_roots-IsProgram : IsProgram fewer_roots
unfolding ins_of slice
fewer_roots-IsProgram = record {
  ordered = three-IsProgram.ordered;
  states = three-IsProgram.states;
  roots = ((omega arith, λ _. refl), tt);
  placeholder = omega arith;
}

retain_reachable-IsRun_example :
    (p' : Program mod3_field) × (retain_reachable fewer_roots ≡ some p')
    × (get' : ℕ → List Mod3) × IsRun mod3_scalar no_kernels later_inputs p' get'
    × (outputs mod3_scalar no_kernels later_inputs get' p' ≡ one ∷ [])
retain_reachable-IsRun_example =
    retain_reachable-IsRun fewer_roots fewer_roots-IsProgram tt mod3_scalar no_kernels later_inputs
      values fewer_roots-IsRun

abbrev reads_of : ℕ → List Ref
reads_of i = reads none (ins three i)

reads-IsBelow : (i : ℕ) → All (IsBelow 3) (reads_of i)
unfolding ins ins_of slice Option.bind
reads-IsBelow zero = (tt, (tt, (tt, tt)))
reads-IsBelow (suc zero) = (omega arith, (tt, tt))
reads-IsBelow (suc (suc zero)) = (omega arith, (omega arith, (omega arith, tt)))
reads-IsBelow (suc (suc (suc i))) = tt

reach_marks_example :
    (found : List Bool) × (reach reads_of 3 three.roots ≡ some found)
    × (length found ≡ 3)
    × All (IsLive found) three.roots
    × ((i : ℕ) → get_elem? found i ≡ some true → All (IsLive found) (reads_of i))
reach_marks_example = reach_marks reads_of 3 three.roots reads-IsBelow (omega arith, (tt, tt))

abbrev bytes : List ℕ
bytes = 1 ∷ 0 ∷ []

abbrev mask : List Bool
mask = true ∷ false ∷ []

specialize_iff_example :
    ((s : Specialized mod3_field) × (specialize three bytes mask ≡ some s))
    ↔ ((length bytes ≡ 2) × (length mask ≡ 2))
unfolding is_select
specialize_iff_example = specialize_iff three three-IsProgram bytes mask
