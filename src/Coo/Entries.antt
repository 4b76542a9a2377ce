-- ===== src/Coo/Entries.antt =====
-- The entries of a sparse matrix of crates/rsdag/src/coo.rs, as the triples that its three columns
-- spell.
use rsdag.Prelude.{
  ℕ, ◌+◌, ◌<◌, ◌≡◌, suc, refl, sym, ◌∙◌, ap, ap₂, All, List, [], ◌∷◌, ◌++◌, map, length, arith,
  append_assoc, append-nil, length-append,
}
use rsdag.Node.{ExprId}
use rsdag.Coo.{
  Coo, SparseRows, usize_range, add_usize, push, push_row, push_rows, from_rows, append, none_yet,
}

-- Row, column, value.
abbrev pub Entry : Type 0
Entry = ℕ × ℕ × ExprId

abbrev pub zip3 : List ℕ → List ℕ → List ExprId → List Entry
zip3 (r ∷ rs) (c ∷ cs) (v ∷ vs) = (r, c, v) ∷ zip3 rs cs vs
zip3 _ _ _ = []

abbrev pub entries : Coo → List Entry
entries m = zip3 m.rows m.cols m.vals

-- One row index and one column index per value.
pub record IsAligned (m : Coo) : Type 0 where
  pub rows : length m.rows ≡ length m.vals
  pub cols : length m.cols ≡ length m.vals

zip3-append :
    (rs cs : List ℕ) (vs : List ExprId) (rs' cs' : List ℕ) (vs' : List ExprId)
    → length rs ≡ length vs
    → length cs ≡ length vs
    → zip3 (rs ++ rs') (cs ++ cs') (vs ++ vs') ≡ zip3 rs cs vs ++ zip3 rs' cs' vs'
zip3-append [] [] [] rs' cs' vs' h k = refl
zip3-append (r ∷ rs) (c ∷ cs) (v ∷ vs) rs' cs' vs' h k =
    ap (◌∷◌ (r, c, v)) (zip3-append rs cs vs rs' cs' vs' (omega arith) (omega arith))
zip3-append (r ∷ rs) cs [] rs' cs' vs' h k = let bad : ⊥ = omega arith in elim bad [ ]
zip3-append [] cs (v ∷ vs) rs' cs' vs' h k = let bad : ⊥ = omega arith in elim bad [ ]
zip3-append rs (c ∷ cs) [] rs' cs' vs' h k = let bad : ⊥ = omega arith in elim bad [ ]
zip3-append rs [] (v ∷ vs) rs' cs' vs' h k = let bad : ⊥ = omega arith in elim bad [ ]

-- An entry of a block that is placed at a row and a column.
abbrev pub shifted : ℕ → ℕ → Entry → Entry
shifted row col (r, c, v) = (r + row, c + col, v)

zip3-map :
    (row col : ℕ) (rs cs : List ℕ) (vs : List ExprId)
    → zip3 (map (λ r. r + row) rs) (map (λ c. c + col) cs) vs
      ≡ map (shifted row col) (zip3 rs cs vs)
zip3-map row col (r ∷ rs) (c ∷ cs) (v ∷ vs) =
    ap (◌∷◌ (r + row, c + col, v)) (zip3-map row col rs cs vs)
zip3-map row col [] cs vs = refl
zip3-map row col (r ∷ rs) [] vs = refl
zip3-map row col (r ∷ rs) (c ∷ cs) [] = refl

-- Every index has a place at the offset that a `usize` can hold.
abbrev pub FitsAt : ℕ → List ℕ → Type 0
FitsAt d is = All (λ i. i + d < usize_range) is

map-add_usize :
    (d : ℕ) (is : List ℕ) → FitsAt d is → map (λ i. add_usize i d) is ≡ map (λ i. i + d) is
unfolding add_usize
map-add_usize d [] h = refl
map-add_usize d (i ∷ is) h = ap₂ ◌∷◌ (omega (arith, h.0)) (map-add_usize d is h.1)

-- Appending a block to an aligned matrix, at offsets where none of the block's indices passes the
-- range of `usize`, adds the block's entries, shifted, behind its own.
pub append-entries :
    (m other : Coo) (row col : ℕ)
    → IsAligned m
    → FitsAt row other.rows
    → FitsAt col other.cols
    → entries (append m other row col) ≡ entries m ++ map (shifted row col) (entries other)
unfolding append
append-entries m other row col h fr fc =
    zip3-append m.rows m.cols m.vals _ _ _ h.rows h.cols
    ∙ ap₂ (λ rs cs. entries m ++ zip3 rs cs other.vals) (map-add_usize row other.rows fr)
        (map-add_usize col other.cols fc)
    ∙ ap (◌++◌ (entries m)) (zip3-map row col other.rows other.cols other.vals)

-- The entries of a matrix given by its rows, row by row from row `i` on.
abbrev pub listed_row : ℕ → List (ℕ × ExprId) → List Entry
listed_row i [] = []
listed_row i ((j, e) ∷ row) = (i, j, e) ∷ listed_row i row

abbrev pub listed : ℕ → SparseRows → List Entry
listed i [] = []
listed i (row ∷ rows) = listed_row i row ++ listed (suc i) rows

push-IsAligned : (m : Coo) (r c : ℕ) (v : ExprId) → IsAligned m → IsAligned (push m r c v)
unfolding push
push-IsAligned m r c v h = record {
  rows = omega (arith, h.rows, length-append m.rows (r ∷ []), length-append m.vals (v ∷ []));
  cols = omega (arith, h.cols, length-append m.cols (c ∷ []), length-append m.vals (v ∷ []));
}

push-entries :
    (m : Coo) (r c : ℕ) (v : ExprId)
    → IsAligned m
    → entries (push m r c v) ≡ entries m ++ (r, c, v) ∷ []
unfolding push
push-entries m r c v h = zip3-append m.rows m.cols m.vals (r ∷ []) (c ∷ []) (v ∷ []) h.rows h.cols

abbrev Adds : Coo → Coo → List Entry → Type 0
Adds m m' es = IsAligned m' × (entries m' ≡ entries m ++ es)

push_row-Adds :
    (m : Coo) (i : ℕ) (row : List (ℕ × ExprId))
    → IsAligned m
    → Adds m (push_row m i row) (listed_row i row)
unfolding push_row
push_row-Adds m i [] h = (h, sym (append-nil (entries m)))
push_row-Adds m i ((j, e) ∷ row) h =
    let (al, eq) = push_row-Adds (push m i j e) i row (push-IsAligned m i j e h) in
    (
      al,
      eq
          ∙ ap (λ es. es ++ listed_row i row) (push-entries m i j e h)
          ∙ append_assoc (entries m) ((i, j, e) ∷ []) (listed_row i row),
    )

push_rows-Adds :
    (m : Coo) (i : ℕ) (rows : SparseRows)
    → IsAligned m
    → Adds m (push_rows m i rows) (listed i rows)
unfolding push_rows
push_rows-Adds m i [] h = (h, sym (append-nil (entries m)))
push_rows-Adds m i (row ∷ rows) h =
    let (al, eq) = push_row-Adds m i row h in
    let (al', eq') = push_rows-Adds (push_row m i row) (suc i) rows al in
    (
      al',
      eq'
          ∙ ap (λ es. es ++ listed (suc i) rows) eq
          ∙ append_assoc (entries m) (listed_row i row) (listed (suc i) rows),
    )

-- The matrix of some rows is aligned, and its entries are those of the rows, row by row, each row's
-- in its order.
pub from_rows-entries :
    (rows : SparseRows) → IsAligned (from_rows rows) × (entries (from_rows rows) ≡ listed 0 rows)
unfolding from_rows
from_rows-entries rows = push_rows-Adds none_yet 0 rows (record { rows = refl; cols = refl })
