-- ===== src/Tape/Stages.antt =====
-- The stages of independent calls, crates/rsdag/src/tape/mod.rs: `Stage`, `call_ops` and `plan_stages`.
pub mod Apart
pub mod Grown
pub mod Planned
pub mod Swap
pub mod Unread
pub mod Order
use mathlib.Core.Option
use rsdag.Prelude.{
  ℕ, zero, suc, ◌+◌, ◌-◌, ◌*◌, max, Bool, true, false, Option, none, some, List, [], ◌∷◌, ◌++◌, map,
  length, ltb, leb, ◌==◌, ◌&&◌, ◌||◌, if◌then◌else◌,
}
use rsdag.Field.{Field}
use rsdag.Tape.{Op, Tape, input_index, no_state, state_slots, pool_at}

-- The calls are ops `lo..hi`, of so many instances and ops in all.
pub record Stage : Type 0 where
  pub lo : ℕ
  pub hi : ℕ
  pub instances : ℕ
  pub ops : ℕ

-- Per call: the slots it reads, the slots it writes, instances, ops.
pub record Span : Type 0 where
  pub reads : List (ℕ × ℕ)
  pub writes : ℕ × ℕ
  pub groups : ℕ
  pub work : ℕ

abbrev pub opaque_ops : ℕ
opaque_ops = 1000

-- The ops and the prolog's length of a bundle's body.
abbrev pub Bodies : Type 0
Bodies = ℕ → Option (ℕ × ℕ)

-- The slots among some operands.
abbrev pub slots_among : List ℕ → List (ℕ × ℕ)
slots_among [] = []
slots_among (k ∷ ks) = elim (input_index k) [
  | none ↦ (k, k + 1) ∷ slots_among ks
  | some _ ↦ slots_among ks
]

abbrev pub body_ops : Option (ℕ × ℕ) → (ℕ → ℕ → ℕ) → ℕ
body_ops none f = opaque_ops
body_ops (some (all, prolog)) f = f all prolog

abbrev pub overlaps : ℕ × ℕ → ℕ × ℕ → Bool
overlaps a b = ltb a.0 b.1 && ltb b.0 a.1

abbrev pub any_span : (ℕ × ℕ → Bool) → List (ℕ × ℕ) → Bool
any_span f [] = false
any_span f (a ∷ xs) = f a || any_span f xs

-- The call reads or overwrites what the stage writes, or writes what the stage reads.
unfoldable pub clash : Span → List (ℕ × ℕ) → List (ℕ × ℕ) → Bool
clash s reads writes =
    any_span (λ a. any_span (λ b. overlaps a b) writes) s.reads
    || (any_span (λ b. overlaps s.writes b) writes || any_span (λ a. overlaps a s.writes) reads)

-- A stage as it grows, and the ops behind it.
pub record Growing : Type 0 where
  pub hi : ℕ
  pub instances : ℕ
  pub work : ℕ
  pub rest : List (Option Span)

-- The inner loop, with `left` ops up to the end of the phase.
unfoldable pub grow : List (ℕ × ℕ) → List (ℕ × ℕ) → ℕ → ℕ → ℕ → ℕ → List (Option Span) → Growing
unfolding clash
grow reads writes instances work hi zero cs = record {
  hi = hi;
  instances = instances;
  work = work;
  rest = cs;
}
grow reads writes instances work hi (suc left) [] = record {
  hi = hi;
  instances = instances;
  work = work;
  rest = [];
}
grow reads writes instances work hi (suc left) (none ∷ cs) = record {
  hi = hi;
  instances = instances;
  work = work;
  rest = none ∷ cs;
}
grow reads writes instances work hi (suc left) (some s ∷ cs) =
    let longer =
      grow (reads ++ s.reads) (writes ++ s.writes ∷ []) (instances + s.groups) (work + s.work)
        (suc hi) left cs in
    if clash s reads writes
    then record { hi = hi; instances = instances; work = work; rest = some s ∷ cs }
    else longer

-- The ops left of a phase behind op `i`.
abbrev pub left_of : ℕ → ℕ → ℕ → ℕ
left_of prolog_ops i n = if ltb i prolog_ops then prolog_ops - suc i else n

abbrev pub stage_of : ℕ → Growing → List Stage → List Stage
stage_of lo g stages =
    if leb 2 g.instances
    then record { lo = lo; hi = g.hi; instances = g.instances; ops = g.work } ∷ stages
    else stages

-- The outer loop from op `i` on.
unfoldable pub plan : ℕ → ℕ → ℕ → List (Option Span) → Option (List Stage)
unfolding grow
plan fuel prolog_ops i [] = some []
plan zero prolog_ops i (c ∷ cs) = none
plan (suc fuel) prolog_ops i (none ∷ cs) = plan fuel prolog_ops (suc i) cs
plan (suc fuel) prolog_ops i (some s ∷ cs) =
    let g =
      grow s.reads (s.writes ∷ []) s.groups s.work (suc i) (left_of prolog_ops i (length cs)) cs in
    Option.map (stage_of i g) (plan fuel prolog_ops g.hi g.rest)

-- The slots of a call's state.
abbrev pub state_span : ℕ → ℕ → List (ℕ × ℕ)
state_span state n = if state == no_state then [] else (state, state + n) ∷ []

module _ {K : Field} where
  -- `call_ops`
  abbrev pub call_ops : Bodies → Op K → ℕ
  call_ops bodies (Op.call b _ _ _ _ _ _ state _) =
      body_ops (bodies b)
        (λ all prolog. if state == no_state then max all 1 else max (all - prolog) 1)
  call_ops bodies (Op.call_prolog b _ _ _ _) = body_ops (bodies b) (λ all prolog. max prolog 1)
  call_ops bodies _ = 0

  -- What an op reads and writes, where it is a call.
  abbrev pub span_of : Tape K → Bodies → Op K → ℕ → Option (Option Span)
  span_of t bodies (Op.call b start n_groups n_args n_in reads n_out state args) d =
      Option.map
        (λ ks. some (record {
          reads = slots_among ks ++ state_span state (state_slots n_groups (t.bundles b));
          writes = (d, d + n_groups * n_out);
          groups = n_groups;
          work =
              n_groups
              * call_ops bodies (Op.call b start n_groups n_args n_in reads n_out state args);
        }))
        (pool_at t start (n_groups * n_in))
  span_of t bodies (Op.call_prolog b start n_groups n_pure args) d =
      Option.map
        (λ ks. some (record {
          reads = slots_among ks;
          writes = (d, d + state_slots n_groups (t.bundles b));
          groups = n_groups;
          work = n_groups * call_ops bodies (Op.call_prolog b start n_groups n_pure args);
        }))
        (pool_at t start (n_groups * n_pure))
  span_of t bodies _ d = some none

  unfoldable pub spans : Tape K → Bodies → List (Op K) → List ℕ → Option (List (Option Span))
  spans t bodies [] dst = some []
  spans t bodies (op ∷ ops) [] = none
  spans t bodies (op ∷ ops) (d ∷ dst) =
      Option.bind (span_of t bodies op d) (λ c. Option.map (λ cs. c ∷ cs) (spans t bodies ops dst))

  -- `plan_stages`
  unfoldable pub plan_stages : Tape K → Bodies → Option (List Stage)
  unfolding spans plan
  plan_stages t bodies =
      Option.bind (spans t bodies t.ops t.dst) (λ cs. plan (length cs) t.prolog_ops 0 cs)
