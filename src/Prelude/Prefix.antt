-- ===== src/Prelude/Prefix.antt =====
-- Lists that grow at their end.
use Prim.Native.Nat.{ℕ, zero, suc, ◌+◌, ◌≤◌}
use mathlib.Core.Path.{◌≡◌, refl, sym, ◌∙◌, ap}
use mathlib.Core.List.{List, [], ◌∷◌, ◌++◌, append_assoc, append-nil}
use mathlib.Core.Option.{some}
use native.Mathlib.Omega.{arith}
use rsdag.Prelude.Lists.{length, get_elem?, get_elem?-append, length-append, take, drop}

pub record IsPrefix {ℓ} {A : Type ℓ} (xs ys : List A) : Type ℓ where
  pub rest : List A
  pub split : ys ≡ xs ++ rest

pub prefix_refl {ℓ} : {A : Type ℓ} (xs : List A) → IsPrefix xs xs
prefix_refl xs = record { rest = []; split = sym (append-nil xs) }

pub prefix_end {ℓ} : {A : Type ℓ} (xs ys : List A) → IsPrefix xs (xs ++ ys)
prefix_end xs ys = record { rest = ys; split = refl }

pub prefix_trans {ℓ} :
    {A : Type ℓ} {xs ys zs : List A} → IsPrefix xs ys → IsPrefix ys zs → IsPrefix xs zs
prefix_trans {xs} p q = record {
  rest = p.rest ++ q.rest;
  split = q.split ∙ ap (λ t. t ++ q.rest) p.split ∙ append_assoc xs p.rest q.rest;
}

pub get_elem?_prefix {ℓ} :
    {A : Type ℓ} {xs ys : List A}
    → IsPrefix xs ys
    → (i : ℕ) {a : A} → get_elem? xs i ≡ some a
    → get_elem? ys i ≡ some a
get_elem?_prefix {xs} p i h = rw p.split (get_elem?-append xs p.rest i h)

pub length_prefix {ℓ} : {A : Type ℓ} {xs ys : List A} → IsPrefix xs ys → length xs ≤ length ys
length_prefix {xs} p = rw p.split (omega (arith, length-append xs p.rest))

take-append {ℓ} :
    {A : Type ℓ} (xs ys : List A) (n : ℕ) → n ≤ length xs → take n (xs ++ ys) ≡ take n xs
take-append xs ys zero h = refl
take-append [] ys (suc n) h = absurd (omega arith)
take-append (x ∷ xs) ys (suc n) h = ap (λ t. x ∷ t) (take-append xs ys n (omega arith))

pub take-drop-append {ℓ} :
    {A : Type ℓ} (xs ys : List A) (s n : ℕ)
    → s + n ≤ length xs
    → take n (drop s (xs ++ ys)) ≡ take n (drop s xs)
take-drop-append xs ys zero n h = take-append xs ys n (omega arith)
take-drop-append [] ys (suc s) n h = absurd (omega arith)
take-drop-append (x ∷ xs) ys (suc s) n h = take-drop-append xs ys s n (omega arith)

-- What was appended is read back behind the old end.
pub take-drop-end {ℓ} :
    {A : Type ℓ} (xs ys : List A) → take (length ys) (drop (length xs) (xs ++ ys)) ≡ ys
take-drop-end [] [] = refl
take-drop-end [] (y ∷ ys) = ap (λ t. y ∷ t) (take-drop-end [] ys)
take-drop-end (x ∷ xs) ys = take-drop-end xs ys
