-- ===== src/Program/Decide.antt =====
-- The selects that a parameter binding decides, `ParamSelects` and `Tape::decide` of
-- crates/rsdag/src/tape/specialize.rs.
pub mod Arms
pub mod Selects
pub mod Operands
pub mod Sound
pub mod Total
use mathlib.Core.Option
use rsdag.Prelude.{
  ℕ, zero, suc, Bool, true, false, Option, none, some, List, [], ◌∷◌, ◌++◌, map, length, get_or,
  get_elem?, set, fill, if◌then◌else◌, ◌&&◌, ◌||◌, ◌==◌, not,
}
use rsdag.Field.{Field}
use rsdag.Semantics.{Scalar}
use rsdag.Program.{Ref, Inst, Program, Kernels, ins, is_select, ref_value}
use rsdag.Program.Follow.{follow}
use rsdag.Program.Specialize.{same_ref}
use rsdag.Program.Compact.Retain.{retain_reachable}

-- The distinct conditions, and the selects with the condition of each.
pub record ParamSelects : Type 0 where
  pub conds : List Ref
  pub of : List (ℕ × ℕ)

-- `conds.iter().position(|&d| d == c)`
unfoldable pub position : List Ref → Ref → Option ℕ
position [] c = none
position (d ∷ conds) c = if same_ref d c then some 0 else Option.map suc (position conds c)

abbrev pub any : List Bool → Bool
any [] = false
any (b ∷ bs) = b || any bs

-- The condition's index, a new one where it is none of those so far.
abbrev pub add_select : Option ℕ → ℕ → Ref → ParamSelects → ParamSelects
add_select (some k) i c ps = record ps { of = ps.of ++ (i, k) ∷ [] }
add_select none i c ps = record {
  conds = ps.conds ++ c ∷ [];
  of = ps.of ++ (i, length ps.conds) ∷ [];
}

abbrev pub no_selects : ParamSelects
no_selects = record { conds = []; of = [] }

abbrev pub is_empty : {A : Type 0} → List A → Bool
is_empty [] = true
is_empty (x ∷ xs) = false

-- The arm that a truth picks; a panic without the operands or the truth.
abbrev pub picked : Option (List Ref) → Option Bool → Option Ref
picked (some (c ∷ t ∷ e ∷ _)) (some b) = some (if b then t else e)
picked _ _ = none

abbrev pub flags : {A : Type 0} → List A → List Bool
flags [] = []
flags (x ∷ xs) = false ∷ flags xs

abbrev pub no_arms : {A : Type 0} → List A → List (Option Ref)
no_arms [] = []
no_arms (x ∷ xs) = none ∷ no_arms xs

abbrev pub is_input : Ref → Bool
is_input (Ref.input k) = true
is_input (Ref.value i c) = false

-- An arm that is followed: not a pure select's input for the main phase.
abbrev pub kept_arm : Option Ref → Bool → Option Ref
kept_arm none held = none
kept_arm (some a) held = if is_input a && held then none else some a

module _ {K : Field} where
  abbrev pub inst_pure : Option (Inst K) → Bool
  inst_pure none = false
  inst_pure (some inst) = inst.is_pure

  abbrev pub pure_ref : Program K → List Bool → Ref → Bool
  pure_ref p pure_inputs (Ref.input k) = get_or pure_inputs k false
  pure_ref p pure_inputs (Ref.value j c) = inst_pure (get_elem? p.insts j)

  -- The select `i` with its operands, where its condition is pure.
  abbrev pub gather_select :
      Program K → List Bool → ℕ → Option (List Ref) → ParamSelects → Option ParamSelects
  gather_select p pure_inputs i (some (c ∷ _)) ps =
      some (if pure_ref p pure_inputs c then add_select (position ps.conds c) i c ps else ps)
  gather_select p pure_inputs i _ ps = none

  abbrev pub gather_one : Program K → List Bool → Inst K → ℕ → ParamSelects → Option ParamSelects
  gather_one p pure_inputs inst i ps =
      if is_select inst.kind then gather_select p pure_inputs i (ins p i) ps else some ps

  -- The loop of `param_selects` over the instructions from `i` on.
  unfoldable pub gather :
      Program K → List Bool → List (Inst K) → ℕ → ParamSelects → Option ParamSelects
  unfolding position
  gather p pure_inputs [] i ps = some ps
  gather p pure_inputs (inst ∷ insts) i ps =
      Option.bind (gather_one p pure_inputs inst i ps) (gather p pure_inputs insts (suc i))

  -- `Tape::param_selects`: a panic, or the selects where there are some.
  unfoldable pub param_selects : Program K → ℕ → List Bool → Option (Option ParamSelects)
  unfolding gather
  param_selects p prolog_ops pure_inputs =
      if (prolog_ops == 0) && not (any pure_inputs)
      then some none
      else Option.map (λ (ps : ParamSelects). if is_empty ps.of then none else some ps)
          (gather p pure_inputs p.insts 0 no_selects)

  unfoldable pub arms_from :
      Program K → List Bool → List (ℕ × ℕ) → List (Option Ref) → Option (List (Option Ref))
  arms_from p pattern [] arm = some arm
  arms_from p pattern ((i, c) ∷ of) arm =
      Option.bind (picked (ins p i) (get_elem? pattern c))
        (λ a. arms_from p pattern of (set i (some a) arm))

  -- `ParamSelects::arms`
  unfoldable pub arms : Program K → ParamSelects → List Bool → Option (List (Option Ref))
  unfolding arms_from
  arms p ps pattern = arms_from p pattern ps.of (no_arms p.insts)

  abbrev pub decided_arm : Program K → List (Option Ref) → Bool → ℕ → Option Ref
  decided_arm p arm main i = kept_arm (get_or arm i none) (main && inst_pure (get_elem? p.insts i))

  unfoldable pub decided : Program K → List (Option Ref) → Ref → Bool → Ref
  unfolding follow
  decided p arm r main = follow (decided_arm p arm main) (length p.insts) r

  -- Per operand, whether the main phase reads it.
  unfoldable pub main_flags : List (Inst K) → List Bool → List Bool
  unfolding fill
  main_flags [] main = main
  main_flags (inst ∷ insts) main =
      main_flags insts (fill (not inst.is_pure) inst.ins.0 inst.ins.1 main)

  -- Each operand as the instruction reading it sees it decided.
  unfoldable pub decided_pool : Program K → List (Option Ref) → List Ref → List Bool → List Ref
  unfolding decided
  decided_pool p arm [] main = []
  decided_pool p arm (r ∷ rs) [] = []
  decided_pool p arm (r ∷ rs) (b ∷ main) = decided p arm r b ∷ decided_pool p arm rs main

  -- The operands and the roots decided.
  abbrev pub decided_program : Program K → List (Option Ref) → Program K
  decided_program p arm = record p {
    pool = decided_pool p arm p.pool (main_flags p.insts (flags p.pool));
    roots = map (λ r. decided p arm r true) p.roots;
  }

  -- `Tape::decide`, up to the scheduling of what it keeps.
  unfoldable pub decide : Program K → ParamSelects → List Bool → Option (Program K)
  unfolding arms decided_pool main_flags decided retain_reachable
  decide p ps pattern =
      if length pattern == length ps.conds
      then Option.bind (arms p ps pattern) (λ arm. retain_reachable (decided_program p arm))
      else none

module _ {K : Field} (T : Scalar K) (ks : Kernels T) (inputs : ℕ → T.Val)
    (get : ℕ → List T.Val) where
  -- `ParamSelects::pattern`: the truths of the conditions.
  abbrev pub pattern : ParamSelects → List Bool
  pattern ps = map (λ c. T.is_true (ref_value T ks inputs get c)) ps.conds
