-- ===== src/Tape/Stages/Swap.antt =====
-- Blocks written apart from one another, crates/rsdag/src/tape/mod.rs.
use rsdag.Prelude.{
  ℕ, zero, suc, ◌+◌, ◌≤◌, ◌<◌, ◌≡◌, refl, sym, ◌∙◌, ap₂, false, none, some, List, [], ◌∷◌, length,
  get_elem?, take, drop, slice, leb, if◌then◌else◌, ◌⊎◌, inl, inr, write_block, length-write_block,
  get_elem?-write_block, get_elem?-write_block_off, IsOff, arith,
}
use rsdag.Program.Specialize.Agree.{some_inj}
use rsdag.Tape.Lift.State.{get_elem?-drop}
use rsdag.Tape.Stages.{overlaps}

pub outside-IsOff :
    (s e d w : ℕ) → s < e → overlaps (s, e) (d, d + w) ≡ false → (e ≤ d) ⊎ (d + w ≤ s)
outside-IsOff s e d w lt h = grind arith

-- An element is within a block or off it.
within : (d n i : ℕ) → ((d ≤ i) × (i < d + n)) ⊎ IsOff d n i
within d n i = grind arith

module _ {A : Type 0} where
  -- Lists of the same elements are the same.
  same_elements : (xs ys : List A) → ((i : ℕ) → get_elem? xs i ≡ get_elem? ys i) → xs ≡ ys
  same_elements [] [] h = refl
  same_elements [] (y ∷ ys) h = let bad : none ≡ some y = h 0 in elim (none_some bad) [ ]
    where
      none_some : {y : A} → none ≡ some y → ⊥
      none_some e = cc
  same_elements (x ∷ xs) [] h = let bad : some x ≡ none = h 0 in elim (some_none bad) [ ]
    where
      some_none : {x : A} → some x ≡ none → ⊥
      some_none e = cc
  same_elements (x ∷ xs) (y ∷ ys) h =
      ap₂ (λ x xs. x ∷ xs) (some_inj (h 0)) (same_elements xs ys (λ i. h (suc i)))

  -- Blocks that lie apart are written in either order.
  pub write_block_comm :
      (vs : List A) (d : ℕ) (us : List A) (e : ℕ) (xs : List A)
      → d + length vs ≤ length xs
      → e + length us ≤ length xs
      → (d + length vs ≤ e) ⊎ (e + length us ≤ d)
      → write_block vs d (write_block us e xs) ≡ write_block us e (write_block vs d xs)
  write_block_comm vs d us e xs fv fu apart =
      same_elements _ _ (λ i. at i (within d (length vs) i) (within e (length us) i) apart)
    where
      at :
          (i : ℕ)
          → ((d ≤ i) × (i < d + length vs)) ⊎ IsOff d (length vs) i
          → ((e ≤ i) × (i < e + length us)) ⊎ IsOff e (length us) i
          → (d + length vs ≤ e) ⊎ (e + length us ≤ d)
          → get_elem? (write_block vs d (write_block us e xs)) i
            ≡ get_elem? (write_block us e (write_block vs d xs)) i
      at i (inl (lo, hi)) (inl (lo', hi')) (inl c) = let bad : ⊥ = omega arith in elim bad [ ]
      at i (inl (lo, hi)) (inl (lo', hi')) (inr c) = let bad : ⊥ = omega arith in elim bad [ ]
      at i (inl (lo, hi)) (inr off) c =
          get_elem?-write_block vs d (write_block us e xs) i
            (omega (arith, fv, length-write_block us e xs)) lo hi
          ∙ sym (
              get_elem?-write_block_off us e (write_block vs d xs) i off
              ∙ get_elem?-write_block vs d xs i fv lo hi)
      at i (inr off) (inl (lo, hi)) c =
          get_elem?-write_block_off vs d (write_block us e xs) i off
          ∙ get_elem?-write_block us e xs i fu lo hi
          ∙ sym (
              get_elem?-write_block us e (write_block vs d xs) i
                (omega (arith, fu, length-write_block vs d xs)) lo hi)
      at i (inr off) (inr off') c =
          get_elem?-write_block_off vs d (write_block us e xs) i off
          ∙ get_elem?-write_block_off us e xs i off'
          ∙ sym (
              get_elem?-write_block_off us e (write_block vs d xs) i off'
              ∙ get_elem?-write_block_off vs d xs i off)

  get_elem?-take : (n i : ℕ) (xs : List A) → i < n → get_elem? (take n xs) i ≡ get_elem? xs i
  get_elem?-take zero i xs h = elim h [ ]
  get_elem?-take (suc n) i [] h = refl
  get_elem?-take (suc n) zero (x ∷ xs) h = refl
  get_elem?-take (suc n) (suc i) (x ∷ xs) h = get_elem?-take n i xs (omega arith)

  take_past : (n i : ℕ) (xs : List A) → n ≤ i → get_elem? (take n xs) i ≡ none
  take_past zero i xs h = refl
  take_past (suc n) i [] h = refl
  take_past (suc n) zero (x ∷ xs) h = elim h [ ]
  take_past (suc n) (suc i) (x ∷ xs) h = take_past n i xs (omega arith)

  -- A slice off a block that is written is the one before.
  pub slice-write_block :
      (vs : List A) (d : ℕ) (xs : List A) (s n : ℕ)
      → (s + n ≤ d) ⊎ (d + length vs ≤ s)
      → slice (write_block vs d xs) s n ≡ slice xs s n
  unfolding slice
  slice-write_block vs d xs s n off =
      ap₂ (λ l ys. if leb (s + n) l then some ys else none) (length-write_block vs d xs)
        (same_elements _ _ (λ i. at i (less_cases i n) off))
    where
      less_cases : (i n : ℕ) → (i < n) ⊎ (n ≤ i)
      less_cases i n = grind arith

      off_at : (i : ℕ) → i < n → (s + n ≤ d) ⊎ (d + length vs ≤ s) → IsOff d (length vs) (s + i)
      off_at i lt (inl h) = inl (omega arith)
      off_at i lt (inr h) = inr (omega arith)

      at :
          (i : ℕ)
          → (i < n) ⊎ (n ≤ i)
          → (s + n ≤ d) ⊎ (d + length vs ≤ s)
          → get_elem? (take n (drop s (write_block vs d xs))) i ≡ get_elem? (take n (drop s xs)) i
      at i (inl lt) off =
          get_elem?-take n i (drop s (write_block vs d xs)) lt
          ∙ get_elem?-drop s i (write_block vs d xs)
          ∙ get_elem?-write_block_off vs d xs (s + i) (off_at i lt off)
          ∙ sym (get_elem?-take n i (drop s xs) lt ∙ get_elem?-drop s i xs)
      at i (inr ge) off =
          take_past n i (drop s (write_block vs d xs)) ge ∙ sym (take_past n i (drop s xs) ge)
