-- ===== src/Prelude/Lists.antt =====
-- Lists measured and indexed by the native numbers, under the library's names.
use Prim.Native.Nat.{ℕ, zero, suc, ◌+◌, ◌-◌, ◌<◌, min}
use mathlib.Core.Path.{◌≡◌, refl, ap, subst}
use mathlib.Core.List.{List, [], ◌∷◌, ◌++◌, map}
use mathlib.Core.Option.{Option, none, some}
use native.Mathlib.Omega.{arith}
use mathlib.Core.Bool.{Bool, true, false}
use rsdag.Prelude.Tests.{leb, if◌then◌else◌}

module _ {ℓ} {A : Type ℓ} where
  abbrev pub length : List A → ℕ
  length [] = 0
  length (x ∷ xs) = suc (length xs)

  abbrev pub get_elem? : List A → ℕ → Option A
  get_elem? [] i = none
  get_elem? (x ∷ xs) zero = some x
  get_elem? (x ∷ xs) (suc i) = get_elem? xs i

  abbrev pub get_or : List A → ℕ → A → A
  get_or [] i d = d
  get_or (x ∷ xs) zero d = x
  get_or (x ∷ xs) (suc i) d = get_or xs i d

  abbrev pub take : ℕ → List A → List A
  take zero xs = []
  take (suc n) [] = []
  take (suc n) (x ∷ xs) = x ∷ take n xs

  abbrev pub drop : ℕ → List A → List A
  drop zero xs = xs
  drop (suc n) [] = []
  drop (suc n) (x ∷ xs) = drop n xs

  pub length-append : (xs ys : List A) → length (xs ++ ys) ≡ length xs + length ys
  length-append [] ys = omega arith
  length-append (x ∷ xs) ys = omega (arith, length-append xs ys)

module _ {ℓ} {A : Type ℓ} where
  pub length-take : (n : ℕ) (xs : List A) → length (take n xs) ≡ min n (length xs)
  length-take zero xs = omega arith
  length-take (suc n) [] = omega arith
  length-take (suc n) (x ∷ xs) = omega (arith, length-take n xs)

  pub length-drop : (n : ℕ) (xs : List A) → length (drop n xs) ≡ length xs - n
  length-drop zero xs = omega arith
  length-drop (suc n) [] = omega arith
  length-drop (suc n) (x ∷ xs) = omega (arith, length-drop n xs)

  pub take-append-drop : (n : ℕ) (xs : List A) → take n xs ++ drop n xs ≡ xs
  take-append-drop zero xs = refl
  take-append-drop (suc n) [] = refl
  take-append-drop (suc n) (x ∷ xs) = rw (take-append-drop n xs)

  pub length-map {κ} : {B : Type κ} (xs : List A) (f : A → B) → length (map f xs) ≡ length xs
  length-map [] f = refl
  length-map (x ∷ xs) f = ap suc (length-map xs f)

  -- An index that a list has stays where it is when the list grows at its end.
  pub get_elem?-append :
      (xs ys : List A) (i : ℕ) {a : A} → get_elem? xs i ≡ some a → get_elem? (xs ++ ys) i ≡ some a
  get_elem?-append [] ys i h = cc
  get_elem?-append (x ∷ xs) ys zero h = h
  get_elem?-append (x ∷ xs) ys (suc i) h = get_elem?-append xs ys i h

  -- The first element appended stands at the old length.
  pub get_elem?-append_end :
      (xs : List A) (a : A) (ys : List A) → get_elem? (xs ++ a ∷ ys) (length xs) ≡ some a
  get_elem?-append_end [] a ys = refl
  get_elem?-append_end (x ∷ xs) a ys = get_elem?-append_end xs a ys

  pub get_elem?-lt : (xs : List A) (i : ℕ) {a : A} → get_elem? xs i ≡ some a → i < length xs
  get_elem?-lt [] i h = cc
  get_elem?-lt (x ∷ xs) zero h = omega arith
  get_elem?-lt (x ∷ xs) (suc i) h = omega (arith, get_elem?-lt xs i h)

  pub get_elem?_total : (xs : List A) (i : ℕ) → i < length xs → (a : A) × (get_elem? xs i ≡ some a)
  get_elem?_total [] i h = elim h [ ]
  get_elem?_total (x ∷ xs) zero h = (x, refl)
  get_elem?_total (x ∷ xs) (suc i) h = get_elem?_total xs i (omega arith)

  pub get_or-append :
      (xs ys : List A) (i : ℕ) (d : A) → i < length xs → get_or (xs ++ ys) i d ≡ get_or xs i d
  get_or-append [] ys i d h = elim h [ ]
  get_or-append (x ∷ xs) ys zero d h = refl
  get_or-append (x ∷ xs) ys (suc i) d h = get_or-append xs ys i d (omega arith)

  pub get_or-append_end :
      (xs : List A) (a : A) (ys : List A) (d : A) → get_or (xs ++ a ∷ ys) (length xs) d ≡ a
  get_or-append_end [] a ys d = refl
  get_or-append_end (x ∷ xs) a ys d = get_or-append_end xs a ys d

  pub get_or_of_get_elem? :
      (xs : List A) (i : ℕ) {a : A} (d : A) → get_elem? xs i ≡ some a → get_or xs i d ≡ a
  get_or_of_get_elem? [] i d h = cc
  get_or_of_get_elem? (x ∷ xs) zero d h = cc
  get_or_of_get_elem? (x ∷ xs) (suc i) d h = get_or_of_get_elem? xs i d h

module _ {ℓ} {A : Type ℓ} where
  -- `&xs[s..s + l]`, a panic where the range ends past the list.
  unfoldable pub slice : List A → ℕ → ℕ → Option (List A)
  slice xs s l = if leb (s + l) (length xs) then some (take l (drop s xs)) else none

  -- `xs[i] = a` within the list.
  unfoldable pub set : ℕ → A → List A → List A
  set i a [] = []
  set zero a (x ∷ xs) = a ∷ xs
  set (suc i) a (x ∷ xs) = x ∷ set i a xs

  pub length-set : (i : ℕ) (a : A) (xs : List A) → length (set i a xs) ≡ length xs
  unfolding set
  length-set i a [] = refl
  length-set zero a (x ∷ xs) = refl
  length-set (suc i) a (x ∷ xs) = ap suc (length-set i a xs)

module _ {ℓ} {A : Type ℓ} where
  -- `xs[s..s + l].fill(a)` within the list.
  unfoldable pub fill : A → ℕ → ℕ → List A → List A
  fill a s l [] = []
  fill a zero zero (x ∷ xs) = x ∷ xs
  fill a zero (suc l) (x ∷ xs) = a ∷ fill a zero l xs
  fill a (suc s) l (x ∷ xs) = x ∷ fill a s l xs

  pub length-fill : (a : A) (s l : ℕ) (xs : List A) → length (fill a s l xs) ≡ length xs
  unfolding fill
  length-fill a s l [] = refl
  length-fill a zero zero (x ∷ xs) = refl
  length-fill a zero (suc l) (x ∷ xs) = ap suc (length-fill a zero l xs)
  length-fill a (suc s) l (x ∷ xs) = ap suc (length-fill a s l xs)

  -- The list written over `xs` from `d` on, as far as `xs` goes.
  unfoldable pub write_block : List A → ℕ → List A → List A
  write_block [] d xs = xs
  write_block (v ∷ vs) d [] = []
  write_block (v ∷ vs) zero (x ∷ xs) = v ∷ write_block vs zero xs
  write_block (v ∷ vs) (suc d) (x ∷ xs) = x ∷ write_block (v ∷ vs) d xs

module _ {ℓ κ} {A : Type ℓ} {B : Type κ} (f : A → B) where
  take-map : (n : ℕ) (xs : List A) → take n (map f xs) ≡ map f (take n xs)
  take-map zero xs = refl
  take-map (suc n) [] = refl
  take-map (suc n) (x ∷ xs) = ap (λ ys. f x ∷ ys) (take-map n xs)

  drop-map : (n : ℕ) (xs : List A) → drop n (map f xs) ≡ map f (drop n xs)
  drop-map zero xs = refl
  drop-map (suc n) [] = refl
  drop-map (suc n) (x ∷ xs) = drop-map n xs

  -- A slice of a list that is mapped.
  pub slice-map :
      (xs : List A) (s l : ℕ) {ys : List A}
      → slice xs s l ≡ some ys
      → slice (map f xs) s l ≡ some (map f ys)
  unfolding slice
  slice-map xs s l {ys} h =
      rw (length-map xs f, drop-map s xs, take-map l (drop s xs))
        (mapped (leb (s + l) (length xs)) h)
    where
      mapped :
          (b : Bool)
          → (if b then some (take l (drop s xs)) else none) ≡ some ys
          → (if b then some (map f (take l (drop s xs))) else none) ≡ some (map f ys)
      mapped true p = ap some (ap (map f) (some_inj p))
        where
          some_inj : {u v : List A} → some u ≡ some v → u ≡ v
          some_inj q = cc
      mapped false p = cc

-- A predicate on every element, by recursion.
abbrev pub All {ℓ κ} : {A : Type ℓ} → (A → Type κ) → List A → Type κ
All P [] = Unit
All P (x ∷ xs) = P x × All P xs

module _ {ℓ κ} {A : Type ℓ} where
  pub All-append : (P : A → Type κ) (xs ys : List A) → All P xs → All P ys → All P (xs ++ ys)
  All-append P [] ys hx hy = hy
  All-append P (x ∷ xs) ys hx hy = (hx.0, All-append P xs ys hx.1 hy)

  pub All-imp {μ} :
      {P : A → Type κ} {Q : A → Type μ} (xs : List A) → ((a : A) → P a → Q a) → All P xs → All Q xs
  All-imp [] f h = tt
  All-imp (x ∷ xs) f h = (f x h.0, All-imp xs f h.1)

  pub All-get_elem? :
      (P : A → Type κ) (xs : List A) (i : ℕ) {a : A} → All P xs → get_elem? xs i ≡ some a → P a
  All-get_elem? P [] i h e = cc
  All-get_elem? P (x ∷ xs) zero h e = subst P (some_inj e) h.0
    where
      some_inj : {b c : A} → some b ≡ some c → b ≡ c
      some_inj p = cc
  All-get_elem? P (x ∷ xs) (suc i) h e = All-get_elem? P xs i h.1 e
