-- ===== src/Program/Compact/Retain.antt =====
-- What the roots do not reach, dropped: `Program::retain_reachable` of
-- crates/rsdag/src/tape/compile.rs.
use mathlib.Core.Option
use rsdag.Prelude.{
  ℕ, zero, suc, ◌+◌, Bool, true, false, Option, none, some, List, [], ◌∷◌, length, get_or,
  get_elem?, set, ◌==◌, if◌then◌else◌,
}
use rsdag.Field.{Field}
use rsdag.Program.{Ref, Program, ins}
use rsdag.Program.Specialize.{u32_max, reads}
use rsdag.Program.Compact.{compact}

-- The instructions of the operands that are dead still, on top of the stack; an index out of range,
-- a panic in the code, is pushed too and is the panic when it is read.
unfoldable pub push_dead : List Ref → List Bool → List ℕ → List ℕ
push_dead [] dead st = st
push_dead (Ref.input k ∷ rs) dead st = push_dead rs dead st
push_dead (Ref.value j c ∷ rs) dead st =
    push_dead rs dead (if get_or dead j true then j ∷ st else st)

-- A mark read: a panic out of range, the rest of the stack where it is not dead.
abbrev pub search_at : Option Bool → Option (List Bool) → Option (List Bool) → Option (List Bool)
search_at none seen fresh = none
search_at (some false) seen fresh = seen
search_at (some true) seen fresh = fresh

-- `while let Some(i) = stack.pop()` on fuel, where `next i` is what instruction `i` reads.
unfoldable pub search : (ℕ → List Ref) → ℕ → List ℕ → List Bool → Option (List Bool)
unfolding push_dead
search next n [] dead = some dead
search next zero (i ∷ st) dead = none
search next (suc n) (i ∷ st) dead =
    search_at (get_elem? dead i) (search next n st dead)
      (search next n (push_dead (next i) (set i false dead) st) (set i false dead))

-- What the dead instructions can still put on the stack.
unfoldable pub dead_weight : (ℕ → List Ref) → ℕ → List Bool → ℕ
dead_weight next i [] = 0
dead_weight next i (false ∷ dead) = dead_weight next (suc i) dead
dead_weight next i (true ∷ dead) = suc (length (next i)) + dead_weight next (suc i) dead

-- `vec![true; m]`
abbrev pub all_dead : {A : Type 0} → List A → List Bool
all_dead [] = []
all_dead (x ∷ xs) = true ∷ all_dead xs

unfoldable pub root_ids : List Ref → List ℕ → List ℕ
root_ids [] st = st
root_ids (Ref.input k ∷ rs) st = root_ids rs st
root_ids (Ref.value i c ∷ rs) st = root_ids rs (i ∷ st)

-- A kept state is computed whole.
unfoldable pub state_ids : List ℕ → ℕ → List ℕ → List ℕ
state_ids [] i st = st
state_ids (a ∷ at) i st = state_ids at (suc i) (if a == u32_max then st else i ∷ st)

abbrev pub stack_of : Option (List ℕ × ℕ) → List ℕ → List ℕ
stack_of none st = st
stack_of (some (at, len)) st = state_ids at 0 st

module _ {K : Field} where
  abbrev pub read_by : Program K → ℕ → List Ref
  read_by p i = reads none (ins p i)

  abbrev pub first_stack : Program K → List ℕ
  first_stack p = stack_of p.state (root_ids p.roots [])

  unfoldable pub reachable : Program K → Option (List Bool)
  unfolding search dead_weight root_ids state_ids
  reachable p =
      search (read_by p) (length (first_stack p) + dead_weight (read_by p) 0 (all_dead p.insts))
        (first_stack p) (all_dead p.insts)

  -- `Program::retain_reachable`
  unfoldable pub retain_reachable : Program K → Option (Program K)
  unfolding reachable compact
  retain_reachable p = Option.bind (reachable p) (λ dead. compact p dead (λ r. r))
