-- ===== src/Tests/Parts.antt =====
-- The theorems about nodes, names, classes and choices at concrete inputs.
use mathlib.Core.Path.{◌≡◌, refl}
use mathlib.Core.Option
use rsdag.Prelude.{ℕ, ◌+◌, [], ◌∷◌, length, some, true, false}
use rsdag.Node.{UnaryOp, BinOp, Elementary, Node, ReduceOp}
use rsdag.Node.Names.{elementary_name, elementary_from_name, elementary_from_name-elementary_name}
use rsdag.Node.Operands.{window, list_of, operands, with_operands, with_operands-operands}
use rsdag.Graph.{Graph}
use rsdag.Graph.Intern.New.{made}
use rsdag.Nonlinearity.{Degree, Nonlinearity, of_degree, classify, classify_node, classify_unary}
use rsdag.Nonlinearity.Plain.{IsSound}
use rsdag.Nonlinearity.Sound.{classify-IsSound}
use rsdag.Choices.{
  Choices, ChoicePolicy, observe, resized, mark, ran, flipped, cool, note_built, ready,
}
use rsdag.Choices.Pins.{count, observe-count, observe_pins, off_stays}
use rsdag.Tests.Mod3.{mod3_field}

elementary_name_example :
    elementary_from_name (elementary_name (Elementary.binary BinOp.atan2))
    ≡ some (Elementary.binary BinOp.atan2)
elementary_name_example = elementary_from_name-elementary_name (Elementary.binary BinOp.atan2)

abbrev summed : Node
summed = Node.reduce ReduceOp.sum (record { start = 1; len = 2 })

with_operands_example :
    with_operands summed (5 ∷ 6 ∷ []) (record { start = 1; len = 2 }) ≡ some summed
unfolding operands window list_of
with_operands_example =
    with_operands-operands summed (4 ∷ 5 ∷ 6 ∷ []) (record { start = 1; len = 2 }) refl (λ v. refl)

abbrev moved : Node
moved = Node.reduce ReduceOp.sum (record { start = 0; len = 2 })

-- The constants zero and one, and the exponential of one.
abbrev with_exp : Graph mod3_field
with_exp = record (made {K = mod3_field}) {
  nodes = Node.const 0 ∷ Node.const 1 ∷ Node.unary UnaryOp.exp 1 ∷ [];
}

-- A variable's class.
abbrev moving : Nonlinearity
moving = of_degree (Degree.finite 1)

moving-IsSound : IsSound moving
unfolding of_degree
moving-IsSound = record { plain = λ d p. (refl, refl, refl, refl) }

classify_example : IsSound (classify_unary UnaryOp.exp moving)
unfolding classify classify_node Option.bind
classify_example =
    classify-IsSound with_exp 2 (λ a. moving) (classify_unary UnaryOp.exp moving)
      (λ a. moving-IsSound) refl

abbrev learned : Choices
learned = record {
  trace = 1 ∷ 0 ∷ 1 ∷ [];
  unpinned = true ∷ false ∷ false ∷ [];
  evals = 9;
  flips = 2;
  cooldown_until = 0;
  off = false;
  version = 1;
  built = 1;
}

observe-count_example :
    ((observe learned (1 ∷ 1 ∷ 1 ∷ [])).1.trace ≡ 1 ∷ 1 ∷ 1 ∷ [])
    × (length (observe learned (1 ∷ 1 ∷ 1 ∷ [])).1.unpinned ≡ 3)
    × (count (observe learned (1 ∷ 1 ∷ 1 ∷ [])).1.unpinned
        ≡ count (resized learned (1 ∷ 1 ∷ 1 ∷ [])) + (observe learned (1 ∷ 1 ∷ 1 ∷ [])).0)
observe-count_example = observe-count learned (1 ∷ 1 ∷ 1 ∷ [])

observe_pins_example : ◌≡◌ {A = ℕ} 1 1
unfolding observe resized mark
observe_pins_example = observe_pins learned (1 ∷ 1 ∷ 1 ∷ []) 2 1 1 refl refl refl refl

abbrev stopped : Choices
stopped = record learned { off = true }

abbrev policy : ChoicePolicy
policy = record {
  enabled = true;
  min_selects = 16;
  min_shrink_pct = 15;
  flip_cooldown = 32;
  thrash_flips = 8;
  thrash_evals = 8;
}

off_stays_example :
    ((ran stopped 4).off ≡ true)
    × ((flipped stopped policy 4).1.off ≡ true)
    × ((flipped stopped policy 4).0 ≡ true)
    × ((cool stopped policy).off ≡ true)
    × ((observe stopped (1 ∷ [])).1.off ≡ true)
    × ((note_built stopped policy 10 100).1.off ≡ true)
    × (ready stopped ≡ false)
off_stays_example = off_stays stopped policy (1 ∷ []) 4 10 100 refl
