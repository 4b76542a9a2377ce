-- ===== src/Program/Compact.antt =====
-- A program without its dead instructions, `Program::compact` of crates/rsdag/src/tape/compile.rs.
pub mod Places
pub mod Sound
pub mod Retain
pub mod Reached
pub mod Total
use mathlib.Core.Option
use rsdag.Prelude.{
  ℕ, suc, ◌^◌, ◌-◌, Bool, true, false, Option, none, some, List, [], ◌∷◌, ◌++◌, map, length,
  get_elem?, slice, if◌then◌else◌,
}
use rsdag.Field.{Field}
use rsdag.Program.{Ref, Inst, Program}
use rsdag.Program.Specialize.{u32_max}

-- The new number of each instruction that stays, from `next` on; the maximum for the others. A mark
-- past the instructions that one stays is a panic.
unfoldable pub renumber_from : {A : Type 0} → ℕ → List A → List Bool → Option (List ℕ)
renumber_from next [] [] = some []
renumber_from {A} next [] (true ∷ dead) = renumber_from {A = A} next [] dead
renumber_from next [] (false ∷ dead) = none
renumber_from next (x ∷ xs) [] = Option.map (λ ns. u32_max ∷ ns) (renumber_from next xs [])
renumber_from next (x ∷ xs) (true ∷ dead) =
    Option.map (λ ns. u32_max ∷ ns) (renumber_from next xs dead)
renumber_from next (x ∷ xs) (false ∷ dead) =
    Option.map (λ ns. next ∷ ns) (renumber_from (suc next) xs dead)

-- `renumber[i]`, a panic out of range.
abbrev pub move_ref : List ℕ → Ref → Option Ref
move_ref renumber (Ref.value i c) = Option.map (λ n. Ref.value n c) (get_elem? renumber i)
move_ref renumber (Ref.input k) = some (Ref.input k)

-- References moved one by one, a panic where one of them panics.
unfoldable pub move_all : (Ref → Option Ref) → List Ref → Option (List Ref)
move_all move [] = some []
move_all move (r ∷ rs) =
    Option.bind (move r) (λ r'. Option.map (λ rs'. r' ∷ rs') (move_all move rs))

-- The entries of the instructions that stay.
unfoldable pub keep : {A : Type 0} → List A → List Bool → List A
keep [] dead = []
keep (x ∷ xs) [] = []
keep (x ∷ xs) (true ∷ dead) = keep xs dead
keep (x ∷ xs) (false ∷ dead) = x ∷ keep xs dead

-- `dead[i]` and, where the placeholder stays, `renumber[i]`; either panics out of range.
abbrev pub keep_placeholder : List ℕ → List Bool → Option ℕ → Option (Option ℕ)
keep_placeholder renumber dead none = some none
keep_placeholder renumber dead (some i) =
    Option.bind (get_elem? dead i)
      (λ d. if d then some none else Option.map (λ n. some n) (get_elem? renumber i))

abbrev pub keep_state : List Bool → Option (List ℕ × ℕ) → Option (List ℕ × ℕ)
keep_state dead none = none
keep_state dead (some (at, len)) = some (keep at dead, len)

abbrev pub move_by : List ℕ → (Ref → Ref) → Ref → Option Ref
move_by renumber resolve r = move_ref renumber (resolve r)

module _ {K : Field} where
  abbrev pub add_inst :
      Inst K → ℕ → Option (List Ref × List (Inst K)) → Option (List Ref × List (Inst K))
  add_inst inst start none = none
  add_inst inst start (some (pool, insts)) =
      some (pool, record inst { ins = (start, inst.ins.1) } ∷ insts)

  -- An instruction that stays and its operands, read from the old pool and moved; a panic where one of
  -- them is out of range.
  abbrev pub move_inst :
      Inst K
      → Option (List Ref)
      → List Ref
      → (List Ref → Option (List Ref × List (Inst K)))
      → Option (List Ref × List (Inst K))
  move_inst inst none pool then_insts = none
  move_inst inst (some rs) pool then_insts = add_inst inst (length pool) (then_insts (pool ++ rs))

  -- The loop over the instructions and their marks, with the new pool so far.
  unfoldable pub compact_insts :
      (Ref → Option Ref)
      → List Ref
      → List (Inst K)
      → List Bool
      → List Ref
      → Option (List Ref × List (Inst K))
  unfolding move_all
  compact_insts move old_pool [] dead pool = some (pool, [])
  compact_insts move old_pool (inst ∷ insts) [] pool = some (pool, [])
  compact_insts move old_pool (inst ∷ insts) (true ∷ dead) pool =
      compact_insts move old_pool insts dead pool
  compact_insts move old_pool (inst ∷ insts) (false ∷ dead) pool =
      move_inst inst (Option.bind (slice old_pool inst.ins.0 inst.ins.1) (move_all move)) pool
        (compact_insts move old_pool insts dead)

  abbrev pub compacted :
      Program K → List Bool → List Ref × List (Inst K) → List Ref → Option ℕ → Program K
  compacted p dead (pool, insts) roots placeholder = record p {
    insts = insts;
    pool = pool;
    roots = roots;
    placeholder = placeholder;
    state = keep_state dead p.state;
  }

  -- `Program::compact` with the new numbers.
  unfoldable pub compact_by : Program K → List Bool → (Ref → Ref) → List ℕ → Option (Program K)
  unfolding keep compact_insts move_all
  compact_by p dead resolve renumber =
      Option.bind (compact_insts (move_by renumber resolve) p.pool p.insts dead []) (λ q.
        Option.bind (move_all (move_by renumber resolve) p.roots) (λ roots.
          Option.map (compacted p dead q roots) (keep_placeholder renumber dead p.placeholder)))

  -- `Program::compact`
  unfoldable pub compact : Program K → List Bool → (Ref → Ref) → Option (Program K)
  unfolding renumber_from compact_by
  compact p dead resolve = Option.bind (renumber_from 0 p.insts dead) (compact_by p dead resolve)
