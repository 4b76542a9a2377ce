-- ===== src/Tape/Lift.antt =====
-- A tape as the program that it was emitted from, `Tape::lift` of crates/rsdag/src/tape/compile.rs.
pub mod Held
pub mod Kept
pub mod State
pub mod Steps
pub mod Runs
pub mod Follows
pub mod Ordered
pub mod Arms
pub mod Whole
pub mod Programs
use mathlib.Core.Option
use rsdag.Prelude.{
  ℕ, zero, suc, ◌+◌, ◌-◌, ◌*◌, ◌%◌, ◌/◌, Bool, true, false, Option, none, some, List, [], ◌∷◌, ◌++◌,
  map, length, get_elem?, get_or, take, drop, leb, ltb, ◌==◌, ◌&&◌, ◌||◌, not, if◌then◌else◌, fill,
}
use rsdag.Field.{Field}
use rsdag.Program.{Ref, Kind, Inst, Program}
use rsdag.Program.Specialize.{u32_max}
use rsdag.Tape.{Op, Accum, Src, Tape, input_index, pool_at, op_operands, width, kind_of}
use rsdag.Tape.Run.{read_all}

-- `Fold::reads_operand` of a code.
abbrev pub reads_operand : ℕ → Bool
reads_operand code = ((code % 4 == 1) || (code % 4 == 2)) && (code / 4 % 2 == 0)

-- An accumulator entry: the operand where its fold reads it, else the placeholder.
unfoldable pub entries_of : Ref → List ℕ → List Ref → List Ref
entries_of placeholder codes [] = []
entries_of placeholder [] (r ∷ rs) = r ∷ rs
entries_of placeholder (code ∷ codes) (r ∷ rs) =
    (if reads_operand code then r else placeholder) ∷ entries_of placeholder codes rs

abbrev pub any_unread : List ℕ → Bool
any_unread [] = false
any_unread (code ∷ codes) = not (reads_operand code) || any_unread codes

abbrev pub repeated : Ref → ℕ → List Ref
repeated r zero = []
repeated r (suc n) = r ∷ repeated r n

-- The operands with an accumulator's entries, the placeholder's where no operand gives them.
abbrev pub behind : Ref → Option Src → ℕ → List Ref → List Ref
behind placeholder none w rs = rs ++ repeated placeholder w
behind placeholder (some c) w rs = rs

abbrev pub entries_from : Ref → ℕ → List ℕ → List Ref → List Ref
entries_from placeholder n codes rs = take n rs ++ entries_of placeholder codes (drop n rs)

-- The operands behind which the accumulator entries stand, one per output.
abbrev pub folded : Ref → Accum → ℕ → List ℕ → List Ref → List Ref
folded placeholder a w codes rs =
    entries_from placeholder (length (behind placeholder a.c w rs) - w) codes
      (behind placeholder a.c w rs)

-- `held[d..d + w].fill(i)`, a panic out of range.
abbrev pub hold : ℕ → ℕ → ℕ → List ℕ → Option (List ℕ)
hold i d w held = if leb (d + w) (length held) then some (fill i d w held) else none

abbrev pub unheld : ℕ → List ℕ
unheld zero = []
unheld (suc n) = u32_max ∷ unheld n

-- The program's lists as they are built: pool, instructions, what holds each slot, and whether the
-- placeholder is read.
pub record Lifted (K : Field) : Type 0 where
  pub pool : List Ref
  pub insts : List (Inst K)
  pub held : List ℕ
  pub uses_placeholder : Bool

module _ {K : Field} where
  -- `value`: the op whose block holds the slot, and the offset in the block.
  unfoldable pub value_at : Tape K → List ℕ → ℕ → Option Ref
  value_at t held k = elim (input_index k) [
    | some j ↦ some (Ref.input j)
    | none ↦
        Option.bind (get_elem? held k)
          (λ j. Option.map (λ d. Ref.value j (k - d)) (get_elem? t.dst j))
  ]

  -- A product kernel's fold codes.
  abbrev pub accum_of : Op K → Option Accum
  accum_of (Op.gemv a x m n c) = c
  accum_of (Op.gemm a b m k n c) = c
  accum_of _ = none

  -- The operands of an op's instruction, and whether they use the placeholder.
  unfoldable pub lifted_ins : Tape K → Op K → List Ref → Option (List Ref × Bool)
  unfolding entries_of
  lifted_ins t op rs = elim (accum_of op) [
    | none ↦ some (rs, false)
    | some a ↦
        Option.map
          (λ codes. (folded (Ref.value (length t.ops) 0) a (width t op) codes rs, any_unread codes))
          (pool_at t a.codes (width t op))
  ]

  -- The instruction of an op, its operands behind the pool.
  abbrev pub inst_of : Tape K → Op K → ℕ → Kind K → ℕ → List Ref → Inst K
  inst_of t op i k start rs = record {
    kind = k;
    ins = (start, length rs);
    n_out = width t op;
    is_pure = ltb i t.prolog_ops;
  }

  abbrev pub add_lifted : Inst K → Bool → Option (Lifted K) → Option (Lifted K)
  add_lifted inst uses none = none
  add_lifted inst uses (some l) =
      some (record l { insts = inst ∷ l.insts; uses_placeholder = uses || l.uses_placeholder })

  -- One op of the loop.
  abbrev pub lift_op :
      Tape K
      → Op K
      → ℕ
      → ℕ
      → List Ref
      → List ℕ
      → (List Ref → List ℕ → Option (Lifted K))
      → Option (Lifted K)
  lift_op t op i d pool held then_lift =
      Option.bind (Option.bind (op_operands t op) (read_all (value_at t held))) (λ rs.
        Option.bind (kind_of t op) (λ k. Option.bind (lifted_ins t op rs) (λ (rs', uses).
          Option.bind (hold i d (width t op) held) (λ held'.
            add_lifted (inst_of t op i k (length pool) rs') uses (then_lift (pool ++ rs') held')))))

  -- The lists behind the last op.
  abbrev pub ended : List Ref → List ℕ → Lifted K
  ended pool held = record { pool = pool; insts = []; held = held; uses_placeholder = false }

  -- The loop over the ops from `i` on.
  unfoldable pub lift_from :
      Tape K → List (Op K) → List ℕ → ℕ → List Ref → List ℕ → Option (Lifted K)
  unfolding lifted_ins value_at
  lift_from t [] dst i pool held = some (ended pool held)
  lift_from t (op ∷ ops) [] i pool held = none
  lift_from t (op ∷ ops) (d ∷ dst) i pool held =
      lift_op t op i d pool held (lift_from t ops dst (suc i))

  -- The placeholder behind the stream, where a fold reads none.
  abbrev pub placeholder_inst : ℕ → Inst K
  placeholder_inst start = record {
    kind = Kind.const K.real_nan;
    ins = (start, 0);
    n_out = 1;
    is_pure = true;
  }

  abbrev pub lifted_program : Tape K → Lifted K → List Ref → Program K
  lifted_program t l roots = record {
    insts =
        if l.uses_placeholder then l.insts ++ placeholder_inst (length l.pool) ∷ [] else l.insts;
    pool = l.pool;
    roots = roots;
    placeholder = if l.uses_placeholder then some (length t.ops) else none;
    state = none;
  }

  -- `Tape::lift`
  unfoldable pub lift : Tape K → Option (Program K)
  unfolding lift_from read_all value_at
  lift t =
      Option.bind (lift_from t t.ops t.dst 0 [] (unheld t.n_work))
        (λ l. Option.map (lifted_program t l) (read_all (value_at t l.held) t.outputs))
