-- ===== src/Program/Specialize.antt =====
-- A program shortened against a recorded trace of its selects,
-- crates/rsdag/src/tape/specialize.rs: the pins, the guards and the outputs' check.
pub mod Pins
pub mod Collect
pub mod Guards
pub mod Agree
pub mod Sound
pub mod Runs
pub mod Checked
pub mod Whole
pub mod Total
pub mod Traced
use mathlib.Core.Option
use rsdag.Prelude.{
  ℕ, zero, suc, ◌+◌, ◌^◌, ◌-◌, ltb, ◌==◌, ◌≡◌, Bool, true, false, Option, none, some, List, [], ◌∷◌,
  ◌++◌, map, length, get_or, get_elem?, drop, take, if◌then◌else◌, ◌&&◌, not,
}
use rsdag.Field.{Field}
use rsdag.Semantics.{Scalar}
use rsdag.Program.{Ref, Kind, Inst, Program, ins_of, ins, is_select, Kernels, ref_value}
use rsdag.Program.Follow.{follow}
use rsdag.Program.Reach.{reach}

-- A pinned select: its condition, the arm it took and the choice.
pub record Pinned : Type 0 where
  pub cond : Ref
  pub arm : Ref
  pub choice : ℕ

abbrev pub Pin : Type 0
Pin = Option Pinned

-- The guards as they are collected: the index of each condition, the conditions, their expected
-- truths and the guard of each select of the trace.
pub record Watch : Type 0 where
  pub guard : List (Ref × ℕ)
  pub guards : List Ref
  pub expected : List ℕ
  pub guard_of : List ℕ

-- The shortened program, the outputs of the whole one, and what checks them.
pub record Specialized (K : Field) : Type 0 where
  pub program : Program K
  pub n_real : ℕ
  pub expected : List ℕ
  pub guard_of : List ℕ

abbrev pub u32_max : ℕ
u32_max = 2 ^ 32 - 1

-- `c != 0` of a byte.
abbrev pub taken : ℕ → Bool
taken n = not (n == 0)

abbrev pub byte : Bool → ℕ
byte true = 1
byte false = 0

abbrev pub same_ref : Ref → Ref → Bool
same_ref (Ref.value i c) (Ref.value j d) = (i == j) && (c == d)
same_ref (Ref.input k) (Ref.input l) = k == l
same_ref _ _ = false

unfoldable pub lookup : List (Ref × ℕ) → Ref → Option ℕ
lookup [] r = none
lookup ((k, g) ∷ table) r = if same_ref k r then some g else lookup table r

abbrev pub pin_at : List Pin → ℕ → Pin
pin_at pinned i = get_or pinned i none

abbrev pub arm_at : List Pin → ℕ → Option Ref
arm_at pinned i = Option.map (λ (q : Pinned). q.arm) (pin_at pinned i)

abbrev pub conses : Pin → Option (List Pin) → Option (List Pin)
conses q o = Option.map (λ qs. q ∷ qs) o

-- The pin of a select with a given choice, from its operands.
abbrev pub pin_of : Option (List Ref) → List ℕ → Pin
pin_of (some (c ∷ t ∷ e ∷ _)) (choice ∷ _) =
    some (record { cond = c; arm = if taken choice then t else e; choice = choice })
pin_of _ _ = none

-- A panic where there is no operand or choice to pin.
abbrev pub pinned_or_panic : Pin → Option (List Pin) → Option (List Pin)
pinned_or_panic none rest = none
pinned_or_panic (some q) rest = conses (some q) rest

-- `choices[k + 1 ..]` read from `choices[k ..]`.
abbrev pub rest_of : {A : Type 0} → List A → List A
rest_of [] = []
rest_of (x ∷ xs) = xs

-- A select pinned where the mask says so.
abbrev pub pin_select :
    Option (List Ref) → List ℕ → List Bool → Option (List Pin) → Option (List Pin)
pin_select rs choices [] rest = none
pin_select rs choices (true ∷ pin) rest = pinned_or_panic (pin_of rs choices) rest
pin_select rs choices (false ∷ pin) rest = conses none rest

-- An instruction of the loop: `k += 1` past a select.
abbrev pub pins_step :
    Bool
    → Option (List Ref)
    → List ℕ
    → List Bool
    → (List ℕ → List Bool → Option (List Pin))
    → Option (List Pin)
pins_step true rs choices pin then_pins =
    pin_select rs choices pin (then_pins (rest_of choices) (rest_of pin))
pins_step false rs choices pin then_pins = conses none (then_pins choices pin)

-- What the search reads of an instruction.
abbrev pub reads : Pin → Option (List Ref) → List Ref
reads (some q) rs = q.cond ∷ q.arm ∷ []
reads none (some rs) = rs
reads none none = []

-- The trace and the mask have one entry per select.
abbrev pub lengths_match : ℕ → List ℕ → List Bool → Bool
lengths_match n choices pin = (length choices == n) && (length pin == n)

-- The slots that the prolog's instructions have in the state, the maximum for the others.
abbrev pub kept_slots : List ℕ → ℕ → ℕ → ℕ → List ℕ
kept_slots dst state_len prolog_ops zero = []
kept_slots [] state_len prolog_ops (suc m) = u32_max ∷ kept_slots [] state_len prolog_ops m
kept_slots (d ∷ dst) state_len zero (suc m) = u32_max ∷ kept_slots dst state_len zero m
kept_slots (d ∷ dst) state_len (suc n) (suc m) =
    (if ltb d state_len then d else u32_max) ∷ kept_slots dst state_len n m

module _ {K : Field} where
  -- The loop of `Tape::pins` over the instructions, the first `first` of them skipped.
  unfoldable pub pins_from : Program K → ℕ → List (Inst K) → List ℕ → List Bool → Option (List Pin)
  pins_from p first [] choices pin = some []
  pins_from p (suc first) (inst ∷ insts) choices pin =
      conses none (pins_from p first insts choices pin)
  pins_from p zero (inst ∷ insts) choices pin =
      pins_step (is_select inst.kind) (ins_of p inst) choices pin (pins_from p zero insts)

  -- `Tape::pins`
  unfoldable pub pins : Program K → ℕ → List ℕ → List Bool → Option (List Pin)
  unfolding pins_from
  pins p first choices pin = pins_from p first p.insts choices pin

  -- The pinned selects read as their arms, through chains of them.
  unfoldable pub resolve : Program K → List Pin → Ref → Ref
  unfolding follow
  resolve p pinned r = follow (arm_at pinned) (length p.insts) r

  abbrev pub next : Program K → List Pin → ℕ → List Ref
  next p pinned i = reads (pin_at pinned i) (ins p i)

  unfoldable pub live_marks : Program K → List Pin → Option (List Bool)
  unfolding reach
  live_marks p pinned = reach (next p pinned) (length p.insts) p.roots

-- `guard.entry(cond).or_insert_with(..)`
abbrev pub enter : Option ℕ → Ref → ℕ → Watch → Watch
enter (some g) cond choice w = record w { guard_of = w.guard_of ++ g ∷ [] }
enter none cond choice w = record {
  guard = (cond, length w.guards) ∷ w.guard;
  guards = w.guards ++ cond ∷ [];
  expected = w.expected ++ choice ∷ [];
  guard_of = w.guard_of ++ length w.guards ∷ [];
}

unfoldable pub watch : (Ref → Ref) → Bool → Pin → Watch → Watch
unfolding lookup
watch res true (some q) w = enter (lookup w.guard (res q.cond)) (res q.cond) q.choice w
watch res _ _ w = record w { guard_of = w.guard_of ++ u32_max ∷ [] }

abbrev pub no_watch : Watch
no_watch = record { guard = []; guards = []; expected = []; guard_of = [] }

module _ {K : Field} where
  -- The loop that collects the guards, from the instruction `i` on, the first `first` skipped.
  unfoldable pub collect :
      (Ref → Ref) → List Pin → List Bool → ℕ → List (Inst K) → ℕ → Watch → Watch
  unfolding watch
  collect res pinned live first [] i w = w
  collect res pinned live (suc first) (inst ∷ insts) i w =
      collect res pinned live first insts (suc i) w
  collect res pinned live zero (inst ∷ insts) i w =
      collect res pinned live zero insts (suc i)
        (if is_select inst.kind then watch res (get_or live i false) (pin_at pinned i) w else w)

  -- The guards in their order behind the roots, and every operand resolved.
  unfoldable pub shortened : Program K → List Pin → Watch → Specialized K
  unfolding resolve
  shortened p pinned w = record {
    program = record p {
      pool = map (resolve p pinned) p.pool;
      roots = map (resolve p pinned) (p.roots ++ w.guards);
    };
    n_real = length p.roots;
    expected = w.expected;
    guard_of = w.guard_of;
  }

  -- `Tape::shorten` with `Guards::Each`, without the dropping, scheduling and emission that follow.
  unfoldable pub shorten : Program K → List Pin → ℕ → Option (Specialized K)
  unfolding live_marks collect shortened resolve
  shorten p pinned first =
      Option.map
        (λ live.
          shortened p pinned (collect (resolve p pinned) pinned live first p.insts 0 no_watch))
        (live_marks p pinned)

  abbrev pub count_selects : List (Inst K) → ℕ
  count_selects [] = 0
  count_selects (inst ∷ insts) =
      let n = count_selects insts in if is_select inst.kind then suc n else n

  -- `Tape::n_main_selects`
  abbrev pub n_main_selects : Program K → ℕ → ℕ
  n_main_selects p prolog_ops = count_selects (drop prolog_ops p.insts)

  -- `Tape::specialize`
  unfoldable pub specialize : Program K → List ℕ → List Bool → Option (Specialized K)
  unfolding pins shorten
  specialize p choices pin =
      if lengths_match (count_selects p.insts) choices pin
      then Option.bind (pins p 0 choices pin) (λ pinned. shorten p pinned 0)
      else none

  -- The program over the state as the prolog lays it out.
  abbrev pub with_state : Program K → List ℕ → ℕ → ℕ → Program K
  with_state p dst state_len prolog_ops = record p {
    state = some (kept_slots dst state_len prolog_ops (length p.insts), state_len);
  }

  -- `Tape::specialize_main` with `Guards::Each`, from the tape's slots.
  unfoldable pub specialize_main :
      Program K → List ℕ → ℕ → ℕ → List ℕ → List Bool → Option (Specialized K)
  unfolding pins shorten
  specialize_main p dst state_len prolog_ops choices pin =
      if lengths_match (n_main_selects p prolog_ops) choices pin
      then Option.bind (pins p prolog_ops choices pin)
          (λ pinned. shorten (with_state p dst state_len prolog_ops) pinned prolog_ops)
      else none

-- `==` on the truths.
abbrev pub agree : Bool → Bool → Bool
agree true b = b
agree false b = not b

module _ {K : Field} (T : Scalar K) where
  -- `SpecializedTape::holds`, one value per guard.
  unfoldable pub holds : List T.Val → List ℕ → Bool
  holds [] es = true
  holds (v ∷ vs) [] = true
  holds (v ∷ vs) (e ∷ es) = agree (T.is_true v) (taken e) && holds vs es

  -- `SpecializedTape::check_outputs`: the verdict and the outputs of the whole program.
  unfoldable pub check_outputs : Specialized K → List T.Val → Bool × List T.Val
  unfolding holds
  check_outputs s out = (holds (drop s.n_real out) s.expected, take s.n_real out)
