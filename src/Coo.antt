-- ===== src/Coo.antt =====
-- Sparse matrices of expressions in coordinate form: crates/rsdag/src/coo.rs.
pub mod Entries
pub mod Transpose
use mathlib.Core.Option
use rsdag.Prelude.{
  ℕ, zero, suc, ◌+◌, ◌-◌, ◌^◌, ◌%◌, Bool, List, [], ◌∷◌, ◌++◌, map, length, get_elem?, leb,
  if◌then◌else◌, Option, none, some,
}
use rsdag.Node.{ExprId}

pub record Coo : Type 0 where
  pub rows : List ℕ
  pub cols : List ℕ
  pub vals : List ExprId

-- `SparseRows` of crates/rsdag/src/autodiff.rs: per row the columns and the entries.
abbrev pub SparseRows : Type 0
SparseRows = List (List (ℕ × ExprId))

-- `Coo::default()`
abbrev pub none_yet : Coo
none_yet = record { rows = []; cols = []; vals = [] }

unfoldable pub push : Coo → ℕ → ℕ → ExprId → Coo
push m r c v = record { rows = m.rows ++ r ∷ []; cols = m.cols ++ c ∷ []; vals = m.vals ++ v ∷ [] }

unfoldable pub push_row : Coo → ℕ → List (ℕ × ExprId) → Coo
unfolding push
push_row m i [] = m
push_row m i ((j, e) ∷ row) = push_row (push m i j e) i row

unfoldable pub push_rows : Coo → ℕ → SparseRows → Coo
unfolding push_row
push_rows m i [] = m
push_rows m i (row ∷ rows) = push_rows (push_row m i row) (suc i) rows

unfoldable pub from_rows : SparseRows → Coo
unfolding push_rows
from_rows rows = push_rows none_yet 0 rows

-- What a `usize` can hold, on a target of 64 bits.
abbrev pub usize_range : ℕ
usize_range = 2 ^ 64

-- `x + d` on `usize`, which wraps as a release build does.
unfoldable pub add_usize : ℕ → ℕ → ℕ
add_usize x d = (x + d) % usize_range

unfoldable pub append : Coo → Coo → ℕ → ℕ → Coo
unfolding add_usize
append m other row col = record {
  rows = m.rows ++ map (λ r. add_usize r row) other.rows;
  cols = m.cols ++ map (λ c. add_usize c col) other.cols;
  vals = m.vals ++ other.vals;
}

-- `out[j].push(x)`, a panic past the end.
unfoldable pub push_at {ℓ} : {A : Type ℓ} → ℕ → A → List (List A) → Option (List (List A))
push_at j x [] = none
push_at zero x (row ∷ out) = some ((row ++ x ∷ []) ∷ out)
push_at (suc j) x (row ∷ out) = Option.map (λ rest. row ∷ rest) (push_at j x out)

abbrev pub empty_rows : ℕ → SparseRows
empty_rows zero = []
empty_rows (suc n) = [] ∷ empty_rows n

unfoldable pub transpose_row : ℕ → List (ℕ × ExprId) → SparseRows → Option SparseRows
unfolding push_at
transpose_row i [] out = some out
transpose_row i ((j, e) ∷ row) out = Option.bind (push_at j (i, e) out) (transpose_row i row)

unfoldable pub transpose_from : ℕ → SparseRows → SparseRows → Option SparseRows
unfolding transpose_row
transpose_from i [] out = some out
transpose_from i (row ∷ rows) out =
    Option.bind (transpose_row i row out) (transpose_from (suc i) rows)

-- The rows of the transpose of a matrix of `n_cols` columns.
unfoldable pub transpose_rows : SparseRows → ℕ → Option SparseRows
unfolding transpose_from
transpose_rows rows n_cols = transpose_from 0 rows (empty_rows n_cols)
