-- ===== src/Coo/Transpose.antt =====
-- `transpose_rows` of crates/rsdag/src/coo.rs against the columns of the matrix.
use mathlib.Core.Option
use rsdag.Prelude.{
  ℕ, ◌<◌, ◌≡◌, zero, suc, refl, sym, ◌∙◌, ap, List, [], ◌∷◌, ◌++◌, length, get_or, All, Option,
  some, false, ◌==◌, if◌then◌else◌, arith, append_assoc, append-nil,
}
use rsdag.Node.{ExprId}
use rsdag.Coo.{SparseRows, push_at, empty_rows, transpose_row, transpose_from, transpose_rows}

-- The entries of row `i` that stand in column `k`.
abbrev pub in_column : ℕ → ℕ → List (ℕ × ExprId) → List (ℕ × ExprId)
in_column k i [] = []
in_column k i ((j, e) ∷ row) = (if k == j then (i, e) ∷ [] else []) ++ in_column k i row

-- The entries of column `k`, with their rows, from row `i` on.
abbrev pub column : ℕ → ℕ → SparseRows → List (ℕ × ExprId)
column k i [] = []
column k i (row ∷ rows) = in_column k i row ++ column k (suc i) rows

-- The rows given become `out'`: as many, and row `k` grows by `f k`.
abbrev Becomes : Option SparseRows → SparseRows → (ℕ → List (ℕ × ExprId)) → Type 0
Becomes o out f =
    (out' : SparseRows) × (o ≡ some out')
    × (length out' ≡ length out)
    × ((k : ℕ) → get_or out' k [] ≡ get_or out k [] ++ f k)

suc_ne_zero : (k : ℕ) → (suc k == 0) ≡ false
suc_ne_zero k = ground arith

zero_ne_suc : (j : ℕ) → (0 == suc j) ≡ false
zero_ne_suc j = ground arith

suc_same : (k j : ℕ) → (suc k == suc j) ≡ (k == j)
suc_same k j = ground arith

push_at-Becomes :
    (j : ℕ) (x : ℕ × ExprId) (out : SparseRows)
    → j < length out
    → Becomes (push_at j x out) out (λ k. if k == j then x ∷ [] else [])
unfolding push_at
push_at-Becomes j x [] h = elim h [ ]
push_at-Becomes zero x (row ∷ out) h = ((row ++ x ∷ []) ∷ out, refl, refl, at)
  where
    at :
        (k : ℕ)
        → get_or ((row ++ x ∷ []) ∷ out) k []
          ≡ get_or (row ∷ out) k [] ++ (if k == 0 then x ∷ [] else [])
    at zero = refl
    at (suc k) = rw (suc_ne_zero k) (sym (append-nil (get_or out k [])))
push_at-Becomes (suc j) x (row ∷ out) h =
    let (out', run, len, at) = push_at-Becomes j x out (omega arith) in
    (row ∷ out', ap (Option.map (λ rest. row ∷ rest)) run, ap suc len, below out' at)
  where
    below :
        (out' : SparseRows)
        → ((k : ℕ) → get_or out' k [] ≡ get_or out k [] ++ (if k == j then x ∷ [] else []))
        → (k : ℕ)
        → get_or (row ∷ out') k [] ≡ get_or (row ∷ out) k [] ++ (if k == suc j then x ∷ [] else [])
    below out' at zero = rw (zero_ne_suc j) (sym (append-nil row))
    below out' at (suc k) = rw (suc_same k j) (at k)

transpose_row-Becomes :
    (i : ℕ) (row : List (ℕ × ExprId)) (out : SparseRows)
    → All (λ p. p.0 < length out) row
    → Becomes (transpose_row i row out) out (λ k. in_column k i row)
unfolding transpose_row Option.bind
transpose_row-Becomes i [] out h = (out, refl, refl, λ k. sym (append-nil (get_or out k [])))
transpose_row-Becomes i ((j, e) ∷ row) out h =
    let (out₁, run₁, len₁, at₁) = push_at-Becomes j (i, e) out h.0 in
    let (out₂, run₂, len₂, at₂) = transpose_row-Becomes i row out₁ (rw len₁ h.1) in
    (
      out₂,
      ap (λ o. Option.bind o (transpose_row i row)) run₁ ∙ run₂,
      len₂ ∙ len₁,
      λ k. at₂ k ∙ ap (λ es. es ++ in_column k i row) (at₁ k) ∙ append_assoc (get_or out k []) _ _,
    )

transpose_from-Becomes :
    (i : ℕ) (rows out : SparseRows)
    → All (All (λ p. p.0 < length out)) rows
    → Becomes (transpose_from i rows out) out (λ k. column k i rows)
unfolding transpose_from Option.bind
transpose_from-Becomes i [] out h = (out, refl, refl, λ k. sym (append-nil (get_or out k [])))
transpose_from-Becomes i (row ∷ rows) out h =
    let (out₁, run₁, len₁, at₁) = transpose_row-Becomes i row out h.0 in
    let (out₂, run₂, len₂, at₂) = transpose_from-Becomes (suc i) rows out₁ (rw len₁ h.1) in
    (
      out₂,
      ap (λ o. Option.bind o (transpose_from (suc i) rows)) run₁ ∙ run₂,
      len₂ ∙ len₁,
      λ k.
          at₂ k
          ∙ ap (λ es. es ++ column k (suc i) rows) (at₁ k)
          ∙ append_assoc (get_or out k []) _ _,
    )

length-empty_rows : (n : ℕ) → length (empty_rows n) ≡ n
length-empty_rows zero = refl
length-empty_rows (suc n) = ap suc (length-empty_rows n)

get_or-empty_rows : (n k : ℕ) → get_or (empty_rows n) k [] ≡ []
get_or-empty_rows zero k = refl
get_or-empty_rows (suc n) zero = refl
get_or-empty_rows (suc n) (suc k) = get_or-empty_rows n k

-- Where every column index is below `n`, transposing does not panic: the result has `n` rows, and
-- row `k` lists the entries of column `k` with their rows, in the order of the rows.
pub transpose_rows-column :
    (rows : SparseRows) (n : ℕ)
    → All (All (λ p. p.0 < n)) rows
    → (out : SparseRows) × (transpose_rows rows n ≡ some out)
      × (length out ≡ n)
      × ((k : ℕ) → get_or out k [] ≡ column k 0 rows)
unfolding transpose_rows
transpose_rows-column rows n h =
    let (out, run, len, at) =
      transpose_from-Becomes 0 rows (empty_rows n) (rw (length-empty_rows n) h) in
    (
      out,
      run,
      len ∙ length-empty_rows n,
      λ k. at k ∙ ap (λ es. es ++ column k 0 rows) (get_or-empty_rows n k),
    )
