-- ===== src/Prelude/Table.antt =====
-- Hash maps as association lists, the newest entry first, and the index of an arena by content.
use Prim.Native.Nat.{ℕ, zero, suc}
use mathlib.Core.Path.{◌≡◌, refl, sym, ◌∙◌, ap}
use mathlib.Core.Logic.{◌⊎◌, inl, inr, ◌≢◌}
unfoldable use mathlib.Core.Logic.{ite}
use mathlib.Core.Logic.{if_pos, if_neg}
use mathlib.Core.List.{List, [], ◌∷◌, ◌++◌}
use mathlib.Core.Option.{Option, none, some}
use rsdag.Prelude.Lists.{length, get_elem?, get_elem?-append, get_elem?-append_end}

module _ {A V : Type 0} (dec : Discrete A) where
  unfoldable pub find : A → List (A × V) → Option V
  find a [] = none
  find a ((b, v) ∷ m) = ite (dec b a) (some v) (find a m)

  pub find-cons_self : (a : A) (v : V) (m : List (A × V)) → find a ((a, v) ∷ m) ≡ some v
  unfolding find
  find-cons_self a v m = if_pos (dec a a) refl (some v) (find a m)

  pub find-cons_ne : (a b : A) (v : V) (m : List (A × V)) → b ≢ a → find a ((b, v) ∷ m) ≡ find a m
  unfolding find
  find-cons_ne a b v m h = if_neg (dec b a) h (some v) (find a m)

-- An element of a list grown by one is an old one, or the new one at the old length.
pub get_elem?-snoc {ℓ} :
    {A : Type ℓ} (xs : List A) (a : A) (i : ℕ) {b : A}
    → get_elem? (xs ++ a ∷ []) i ≡ some b
    → (get_elem? xs i ≡ some b) ⊎ ((i ≡ length xs) × (a ≡ b))
get_elem?-snoc [] a zero h = inr (refl, cc)
get_elem?-snoc [] a (suc i) h = inl h
get_elem?-snoc (x ∷ xs) a zero h = inl h
get_elem?-snoc (x ∷ xs) a (suc i) h = elim (get_elem?-snoc xs a i h) [
  | inl e ↦ inl e
  | inr (e, f) ↦ inr (ap suc e, f)
]

module _ {A : Type 0} (dec : Discrete A) where
  -- The map holds exactly the places of the arena, each content at one place.
  pub record IsIndex (xs : List A) (m : List (A × ℕ)) : Type 0 where
    pub sound : (a : A) (i : ℕ) → find dec a m ≡ some i → get_elem? xs i ≡ some a
    pub complete : (a : A) (i : ℕ) → get_elem? xs i ≡ some a → find dec a m ≡ some i

  pub IsIndex-nil : IsIndex [] []
  unfolding find
  IsIndex-nil = record { sound = λ a i h. cc; complete = λ a i h. cc }

  -- A content that the arena lacks, pushed and entered under its place.
  pub IsIndex-push :
      (xs : List A) (m : List (A × ℕ)) (a : A)
      → IsIndex xs m
      → find dec a m ≡ none
      → IsIndex (xs ++ a ∷ []) ((a, length xs) ∷ m)
  IsIndex-push xs m a h e = record { sound = sound; complete = complete }
    where
      sound :
          (b : A) (i : ℕ)
          → find dec b ((a, length xs) ∷ m) ≡ some i
          → get_elem? (xs ++ a ∷ []) i ≡ some b
      sound b i f = elim (dec a b) [
        | yes p ↦
            let at : some (length xs) ≡ some i =
              sym (find-cons_self dec a (length xs) m)
              ∙ ap (λ z. find dec z ((a, length xs) ∷ m)) p
              ∙ f in
            let i_eq : length xs ≡ i = cc in rw (← i_eq, ← p) (get_elem?-append_end xs a [])
        | no n ↦
            get_elem?-append xs (a ∷ []) i
              (h.sound b i (sym (find-cons_ne dec b a (length xs) m n) ∙ f))
      ]

      complete :
          (b : A) (i : ℕ)
          → get_elem? (xs ++ a ∷ []) i ≡ some b
          → find dec b ((a, length xs) ∷ m) ≡ some i
      complete b i g = elim (get_elem?-snoc xs a i g) [
        | inl old ↦ elim (dec a b) [
          | yes p ↦ let there : find dec a m ≡ some i = rw p (h.complete b i old) in cc
          | no n ↦ find-cons_ne dec b a (length xs) m n ∙ h.complete b i old
        ]
        | inr (at, p) ↦ rw (at, ← p) (find-cons_self dec a (length xs) m)
      ]

  -- Each content stands at one place.
  pub IsIndex-unique :
      {xs : List A} {m : List (A × ℕ)}
      → IsIndex xs m
      → (a : A) (i j : ℕ) → get_elem? xs i ≡ some a
      → get_elem? xs j ≡ some a
      → i ≡ j
  IsIndex-unique h a i j p q =
      let x = h.complete a i p in let y = h.complete a j q in some_inj (sym x ∙ y)
    where
      some_inj : {k l : ℕ} → some k ≡ some l → k ≡ l
      some_inj e = cc
