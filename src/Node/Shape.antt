-- ===== src/Node/Shape.antt =====
-- The arithmetic of structural fingerprints, the module `shape` of crates/rsdag/src/node.rs: the
-- kinds' tags and the mixing function, on 64-bit words that wrap.
use Prim.Native.Nat.{bit_xor}
use rsdag.Prelude.{ℕ, ◌+◌, ◌*◌, ◌/◌, ◌%◌, ◌^◌, ◌≡◌, refl}

abbrev pub word : ℕ
word = 2 ^ 64

pub data Tag : Type 0 where
  const symbol add mul neg pow unary binary cmp select reduce dot solve call : Tag

unfoldable pub tag : Tag → ℕ
tag Tag.const = 1
tag Tag.symbol = 2
tag Tag.add = 3
tag Tag.mul = 4
tag Tag.neg = 5
tag Tag.pow = 6
tag Tag.unary = 7
tag Tag.binary = 8
tag Tag.cmp = 9
tag Tag.select = 10
tag Tag.reduce = 11
tag Tag.dot = 12
tag Tag.solve = 13
tag Tag.call = 14

-- `z ^ (z >> k)`
abbrev pub xor_shift : ℕ → ℕ → ℕ
xor_shift z k = bit_xor z (z / 2 ^ k)

-- A splitmix64 finalizer over the sum.
unfoldable pub mix : ℕ → ℕ → ℕ
mix h x =
    let z = (h * 0x9E37_79B9_7F4A_7C15 + x + 0x6A09_E667_F3BC_C909) % word in
    let z₁ = xor_shift z 30 * 0xBF58_476D_1CE4_E5B9 % word in
    let z₂ = xor_shift z₁ 27 * 0x94D0_49BB_1331_11EB % word in xor_shift z₂ 31

mix-zero-one : mix 0 1 ≡ 10414111795516018651
unfolding mix
mix-zero-one = refl
