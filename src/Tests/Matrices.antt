-- ===== src/Tests/Matrices.antt =====
-- The theorems about sparse matrices at a matrix of two rows and three columns.
use rsdag.Prelude.{ℕ, ◌≡◌, refl, [], ◌∷◌, ◌++◌, map, length, get_or, some, arith}
use rsdag.Coo.{Coo, SparseRows, from_rows, append, transpose_rows}
use rsdag.Coo.Entries.{IsAligned, entries, shifted, listed, append-entries, from_rows-entries}
use rsdag.Coo.Transpose.{column, transpose_rows-column}

abbrev two_rows : SparseRows
two_rows = ((0, 7) ∷ (2, 8) ∷ []) ∷ ((2, 9) ∷ []) ∷ []

abbrev block : Coo
block = record { rows = 0 ∷ 1 ∷ []; cols = 1 ∷ 0 ∷ []; vals = 4 ∷ 5 ∷ [] }

block-IsAligned : IsAligned block
block-IsAligned = record { rows = refl; cols = refl }

append-entries_example :
    entries (append block block 2 3) ≡ entries block ++ map (shifted 2 3) (entries block)
append-entries_example =
    append-entries block block 2 3 block-IsAligned (omega arith, (omega arith, tt))
      (omega arith, (omega arith, tt))

from_rows-entries_example :
    IsAligned (from_rows two_rows) × (entries (from_rows two_rows) ≡ listed 0 two_rows)
from_rows-entries_example = from_rows-entries two_rows

transpose_rows-column_example :
    (out : SparseRows) × (transpose_rows two_rows 3 ≡ some out)
    × (length out ≡ 3)
    × ((k : ℕ) → get_or out k [] ≡ column k 0 two_rows)
transpose_rows-column_example =
    transpose_rows-column two_rows 3 ((omega arith, (omega arith, tt)), ((omega arith, tt), tt))
