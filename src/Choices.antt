-- ===== src/Choices.antt =====
-- What a program learns of its region choices: crates/rsdag/src/choices.rs. A trace is a list of
-- bytes, the counters are `u64`.
pub mod Pins
use rsdag.Prelude.{
  ℕ, ◌+◌, ◌*◌, ◌-◌, ◌%◌, ◌^◌, min, Bool, true, false, not, ◌&&◌, List, [], ◌∷◌, ◌++◌, map, length,
  take, zero, suc, ltb, leb, ◌==◌, if◌then◌else◌,
}

pub record ChoicePolicy : Type 0 where
  pub enabled : Bool
  pub min_selects : ℕ
  pub min_shrink_pct : ℕ
  pub flip_cooldown : ℕ
  pub thrash_flips : ℕ
  pub thrash_evals : ℕ

pub record Choices : Type 0 where
  pub trace : List ℕ
  pub unpinned : List Bool
  pub evals : ℕ
  pub flips : ℕ
  pub cooldown_until : ℕ
  pub off : Bool
  pub version : ℕ
  pub built : ℕ

-- `u64` arithmetic wraps.
abbrev pub u64 : ℕ → ℕ
u64 n = n % 2 ^ 64

abbrev pub percent : ℕ
percent = 100

abbrev pub falses : ℕ → List Bool
falses zero = []
falses (suc n) = false ∷ falses n

-- `v.resize(n, false)`
unfoldable pub resize : List Bool → ℕ → List Bool
resize v n = take n v ++ falses (n - length v)

-- The marks after a comparison of two traces: those set, and those of the places that differ.
unfoldable pub mark : List Bool → List ℕ → List ℕ → List Bool
mark (u ∷ us) (a ∷ xs) (b ∷ bs) = (if a == b then u else true) ∷ mark us xs bs
mark us _ _ = us

-- How many marks the comparison sets.
unfoldable pub fresh_marks : List Bool → List ℕ → List ℕ → ℕ
fresh_marks (u ∷ us) (a ∷ xs) (b ∷ bs) =
    (if a == b then 0 else if u then 0 else 1) + fresh_marks us xs bs
fresh_marks _ _ _ = 0

-- `if self.unpinned.len() != trace.len() { resize }`
unfoldable pub resized : Choices → List ℕ → List Bool
unfolding resize
resized c trace =
    if length c.unpinned == length trace then c.unpinned else resize c.unpinned (length trace)

unfoldable pub observe : Choices → List ℕ → ℕ × Choices
unfolding mark fresh_marks resized
observe c trace =
    let us = resized c trace in
    if length c.trace == length trace
    then (
      fresh_marks us c.trace trace,
      record c { trace = trace; unpinned = mark us c.trace trace },
    )
    else (0, record c { trace = trace; unpinned = us })

unfoldable pub pin : Choices → List Bool
pin c = map not c.unpinned

unfoldable pub ready : Choices → Bool
ready c = not c.off && leb c.cooldown_until c.evals

unfoldable pub ran : Choices → ℕ → Choices
ran c n = record c { evals = u64 (c.evals + n) }

unfoldable pub thrashes : ChoicePolicy → ℕ → ℕ → Bool
thrashes p flips evals = leb p.thrash_flips flips && ltb evals (u64 (flips * p.thrash_evals))

unfoldable pub flipped : Choices → ChoicePolicy → ℕ → Bool × Choices
unfolding thrashes
flipped c p n =
    let flips = u64 (c.flips + n) in
    if thrashes p flips c.evals
    then (true, record c { flips = flips; off = true })
    else (c.off, record c { flips = flips })

unfoldable pub cool : Choices → ChoicePolicy → Choices
cool c p = record c { cooldown_until = u64 (c.evals + p.flip_cooldown) }

unfoldable pub note_built : Choices → ChoicePolicy → ℕ → ℕ → Bool × Choices
note_built c p ops full =
    if ltb (u64 (full * (percent - min p.min_shrink_pct percent))) (u64 (ops * percent))
    then (false, record c { off = true })
    else (true, record c { built = u64 (c.built + 1) })
