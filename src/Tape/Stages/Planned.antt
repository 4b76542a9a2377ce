-- ===== src/Tape/Stages/Planned.antt =====
-- The stages that `plan_stages` of crates/rsdag/src/tape/mod.rs finds.
use mathlib.Core.Option
use rsdag.Prelude.{
  ℕ, zero, suc, ◌+◌, ◌-◌, ◌≤◌, ◌≡◌, refl, sym, ◌∙◌, ap, subst, Bool, true, false, Option, none,
  some, List, [], ◌∷◌, ◌++◌, map, length, ltb, leb, leb→le, ltb→lt, ltb→ge, if◌then◌else◌, All,
  All-imp, append_assoc, append-nil, ◌⊎◌, inl, inr, arith, length-append, length-map,
}
use rsdag.Field.{Field}
use rsdag.Tape.{Tape}
use rsdag.Tape.Stages.{
  Span, Stage, Growing, grow, left_of, stage_of, plan, spans, plan_stages, Bodies,
}
use rsdag.Tape.Stages.Grown.{IsGrown, grow-IsGrown}
use rsdag.Tape.Stages.Apart.{AreApart, groups_of}

-- The ops from `lo` on, of which the first ones are the calls of the stage, which are apart and lie
-- in one phase.
pub record IsStage (prolog_ops i : ℕ) (cs : List (Option Span)) (st : Stage) : Type 0 where
  pub before : List (Option Span)
  pub calls : List Span
  pub after : List (Option Span)
  pub placed : cs ≡ before ++ (map some calls ++ after)
  pub from : st.lo ≡ i + length before
  pub to : st.hi ≡ st.lo + length calls
  pub apart : AreApart calls
  pub counted : st.instances ≡ groups_of calls
  pub two : 2 ≤ st.instances
  pub phase : (st.hi ≤ prolog_ops) ⊎ (prolog_ops ≤ st.lo)

-- Each stage ends before the next one starts.
abbrev pub AreOrdered : ℕ → List Stage → Type 0
AreOrdered i [] = Unit
AreOrdered i (st ∷ sts) = (i ≤ st.lo) × (st.lo ≤ st.hi) × AreOrdered st.hi sts

IsStage-behind :
    (prolog_ops i : ℕ) (done : List (Option Span)) (cs : List (Option Span)) (st : Stage)
    → IsStage prolog_ops (i + length done) cs st
    → IsStage prolog_ops i (done ++ cs) st
IsStage-behind prolog_ops i done cs st h = record {
  before = done ++ h.before;
  calls = h.calls;
  after = h.after;
  placed =
      ap (λ cs. done ++ cs) h.placed
      ∙ sym (append_assoc done h.before (map some h.calls ++ h.after));
  from = omega (arith, h.from, length-append done h.before);
  to = h.to;
  apart = h.apart;
  counted = h.counted;
  two = h.two;
  phase = h.phase;
}

AreOrdered-from : (i j : ℕ) (sts : List Stage) → i ≤ j → AreOrdered j sts → AreOrdered i sts
AreOrdered-from i j [] le h = tt
AreOrdered-from i j (st ∷ sts) le h = (omega (arith, h.0), h.1, h.2)

-- The stage that starts at a call.
abbrev starting : ℕ → ℕ → Span → List (Option Span) → Growing
starting prolog_ops i s cs =
    grow s.reads (s.writes ∷ []) s.groups s.work (suc i) (left_of prolog_ops i (length cs)) cs

starting-IsGrown :
    (prolog_ops i : ℕ) (s : Span) (cs : List (Option Span))
    → IsGrown
        (s ∷ [])
        s.groups
        (suc i)
        (left_of prolog_ops i (length cs))
        cs
        (starting prolog_ops i s cs)
starting-IsGrown prolog_ops i s cs =
    subst
      (λ r.
        IsGrown (s ∷ []) s.groups (suc i) (left_of prolog_ops i (length cs)) cs
          (grow r (s.writes ∷ []) s.groups s.work (suc i) (left_of prolog_ops i (length cs)) cs))
      (append-nil s.reads)
      (grow-IsGrown (s ∷ []) s.groups s.work (suc i) (left_of prolog_ops i (length cs)) cs (tt, tt))

first-IsStage :
    (prolog_ops i : ℕ) (s : Span) (cs : List (Option Span)) (g : Growing)
    → IsGrown (s ∷ []) s.groups (suc i) (left_of prolog_ops i (length cs)) cs g
    → 2 ≤ g.instances
    → IsStage prolog_ops i
        (some s ∷ cs)
        (record { lo = i; hi = g.hi; instances = g.instances; ops = g.work })
first-IsStage prolog_ops i s cs g h two = record {
  before = [];
  calls = s ∷ h.more;
  after = g.rest;
  placed = ap (λ cs. some s ∷ cs) h.taken;
  from = omega arith;
  to = omega (arith, h.to);
  apart = h.apart;
  counted = h.counted;
  two = two;
  phase = phase (ltb i prolog_ops) refl h.few;
}
  where
    phase :
        (b : Bool)
        → ltb i prolog_ops ≡ b
        → length h.more ≤ (if b then prolog_ops - suc i else length cs)
        → (g.hi ≤ prolog_ops) ⊎ (prolog_ops ≤ i)
    phase true e few = inl (omega (arith, h.to, ltb→lt i prolog_ops e))
    phase false e few = inr (ltb→ge i prolog_ops e)

-- The stage is kept where it has two instances, and stands before the others.
stage_of-AreOrdered :
    (prolog_ops i : ℕ) (s : Span) (cs : List (Option Span)) (g : Growing) (sts : List Stage)
    → IsGrown (s ∷ []) s.groups (suc i) (left_of prolog_ops i (length cs)) cs g
    → All (IsStage prolog_ops i (some s ∷ cs)) sts
    → AreOrdered g.hi sts
    → (b : Bool) → leb 2 g.instances ≡ b
    → All (IsStage prolog_ops i (some s ∷ cs)) (
        if b
        then record { lo = i; hi = g.hi; instances = g.instances; ops = g.work } ∷ sts
        else sts)
      × AreOrdered i (
          if b
          then record { lo = i; hi = g.hi; instances = g.instances; ops = g.work } ∷ sts
          else sts)
stage_of-AreOrdered prolog_ops i s cs g sts h all ordered true e = (
  (first-IsStage prolog_ops i s cs g h (leb→le 2 g.instances e), all),
  (omega arith, omega (arith, h.to), ordered),
)
stage_of-AreOrdered prolog_ops i s cs g sts h all ordered false e =
    (all, AreOrdered-from i g.hi sts (omega (arith, h.to)) ordered)

-- The loop ends within as many steps as there are ops.
plan_total :
    (fuel prolog_ops i : ℕ) (cs : List (Option Span))
    → length cs ≤ fuel
    → (sts : List Stage) × (plan fuel prolog_ops i cs ≡ some sts)
      × All (IsStage prolog_ops i cs) sts
      × AreOrdered i sts
unfolding plan
plan_total fuel prolog_ops i [] le = ([], refl, tt, tt)
plan_total zero prolog_ops i (c ∷ cs) le = let bad : ⊥ = omega arith in elim bad [ ]
plan_total (suc fuel) prolog_ops i (none ∷ cs) le =
    let (sts, e, all, ordered) = plan_total fuel prolog_ops (suc i) cs (omega arith) in
    (
      sts,
      e,
      All-imp sts
          (λ st h.
            IsStage-behind prolog_ops i (none ∷ []) cs st
              (subst (λ n. IsStage prolog_ops n cs st) (suc_add i) h))
          all,
      AreOrdered-from i (suc i) sts (omega arith) ordered,
    )
  where
    suc_add : (i : ℕ) → suc i ≡ i + 1
    suc_add i = omega arith
plan_total (suc fuel) prolog_ops i (some s ∷ cs) le =
    let g = starting prolog_ops i s cs in
    let h = starting-IsGrown prolog_ops i s cs in
    let (sts, e, all, ordered) =
      plan_total fuel prolog_ops g.hi g.rest
        (omega (arith, le, ap length h.taken, length-append (map some h.more) g.rest)) in
    let later =
      All-imp sts
        (λ st k.
          subst (λ cs. IsStage prolog_ops i (some s ∷ cs) st) (sym h.taken)
            (IsStage-behind prolog_ops i (some s ∷ map some h.more) g.rest st
              (subst (λ n. IsStage prolog_ops n g.rest st) (behind g.hi i h.more h.to) k)))
        all in
    let (kept, chain) =
      stage_of-AreOrdered prolog_ops i s cs g sts h later ordered (leb 2 g.instances) refl in
    (stage_of i g sts, ap (Option.map (stage_of i g)) e, kept, chain)
  where
    behind :
        (hi i : ℕ) (more : List Span)
        → hi ≡ suc i + length more
        → hi ≡ i + length (some s ∷ map some more)
    behind hi i more e = omega (arith, e, length-map more some)

module _ {K : Field} (t : Tape K) (bodies : Bodies) where
  -- For a tape whose calls have their operands in the pool: `plan_stages` ends, each stage that it
  -- gives holds two instances or more, in consecutive calls of one phase of which none reads or
  -- overwrites a slot that another one writes, and the stages stand in the order of their ops and
  -- share none.
  pub plan_stages_apart :
      (cs : List (Option Span))
      → spans t bodies t.ops t.dst ≡ some cs
      → (sts : List Stage) × (plan_stages t bodies ≡ some sts)
        × All (IsStage t.prolog_ops 0 cs) sts
        × AreOrdered 0 sts
  unfolding plan_stages Option.bind
  plan_stages_apart cs e =
      let (sts, found, all, ordered) = plan_total (length cs) t.prolog_ops 0 cs (omega arith) in
      (
        sts,
        ap (λ o. Option.bind o (λ cs. plan (length cs) t.prolog_ops 0 cs)) e ∙ found,
        all,
        ordered,
      )
