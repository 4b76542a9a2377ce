-- ===== src/Program/Reach.antt =====
-- The searches of crates/rsdag/src/tape/specialize.rs and crates/rsdag/src/tape/compile.rs for what
-- the roots reach: a stack of operands and a mark per instruction.
use rsdag.Prelude.{
  subst, ℕ, zero, suc, ◌+◌, ◌≤◌, ◌≡◌, ◌⊎◌, inl, inr, refl, sym, ◌∙◌, ap, Bool, true, false, Option,
  none, some, List, [], ◌∷◌, length, get_elem?, get_elem?_total, set, length-set, All, arith,
}
use rsdag.Program.{Ref}
use rsdag.Program.Follow.{IsBelow}

-- `stack.extend(es)`: the last of `es` on top.
unfoldable pub push_all : List Ref → List Ref → List Ref
push_all [] st = st
push_all (e ∷ es) st = push_all es (e ∷ st)

-- `vec![false; m]`
abbrev pub unmarked : ℕ → List Bool
unmarked zero = []
unmarked (suc m) = false ∷ unmarked m

-- A mark read: a panic out of range, the rest of the stack where it is set.
abbrev pub visit_at : Option Bool → Option (List Bool) → Option (List Bool) → Option (List Bool)
visit_at none marked fresh = none
visit_at (some true) marked fresh = marked
visit_at (some false) marked fresh = fresh

-- `while let Some(r) = stack.pop()` on fuel, where `next i` is what instruction `i` reads.
unfoldable pub visit : (ℕ → List Ref) → ℕ → List Ref → List Bool → Option (List Bool)
unfolding push_all
visit next n [] live = some live
visit next zero (r ∷ st) live = none
visit next (suc n) (Ref.input k ∷ st) live = visit next n st live
visit next (suc n) (Ref.value i c ∷ st) live =
    visit_at (get_elem? live i) (visit next n st live)
      (visit next n (push_all (next i) st) (set i true live))

-- What the unmarked instructions can still put on the stack.
unfoldable pub weight : (ℕ → List Ref) → ℕ → List Bool → ℕ
weight next i [] = 0
weight next i (true ∷ live) = weight next (suc i) live
weight next i (false ∷ live) = suc (length (next i)) + weight next (suc i) live

-- What `roots` reach among `m` instructions.
unfoldable pub reach : (ℕ → List Ref) → ℕ → List Ref → Option (List Bool)
unfolding visit weight push_all
reach next m roots =
    visit next (length roots + weight next 0 (unmarked m)) (push_all roots []) (unmarked m)

abbrev pub IsLive : List Bool → Ref → Type 0
IsLive live (Ref.value i c) = get_elem? live i ≡ some true
IsLive live (Ref.input k) = Unit

length-push_all : (es st : List Ref) → length (push_all es st) ≡ length es + length st
unfolding push_all
length-push_all [] st = omega arith
length-push_all (e ∷ es) st = omega (arith, length-push_all es (e ∷ st))

All-push_all : (P : Ref → Type 0) (es st : List Ref) → All P es → All P st → All P (push_all es st)
unfolding push_all
All-push_all P [] st h k = k
All-push_all P (e ∷ es) st h k = All-push_all P es (e ∷ st) h.1 (h.0, k)

All-push_all_inv :
    (P : Ref → Type 0) (es st : List Ref) → All P (push_all es st) → All P es × All P st
unfolding push_all
All-push_all_inv P [] st h = (tt, h)
All-push_all_inv P (e ∷ es) st h = let (a, b) = All-push_all_inv P es (e ∷ st) h in ((b.0, a), b.1)

get-set_self :
    (live : List Bool) (i : ℕ) {b : Bool}
    → get_elem? live i ≡ some b
    → get_elem? (set i true live) i ≡ some true
unfolding set
get-set_self [] i h = cc
get-set_self (x ∷ live) zero h = refl
get-set_self (x ∷ live) (suc i) h = get-set_self live i h

get-set :
    (live : List Bool) (i j : ℕ)
    → get_elem? (set i true live) j ≡ some true
    → (j ≡ i) ⊎ (get_elem? live j ≡ some true)
unfolding set
get-set [] i j h = inr h
get-set (x ∷ live) zero zero h = inl refl
get-set (x ∷ live) zero (suc j) h = inr h
get-set (x ∷ live) (suc i) zero h = inr h
get-set (x ∷ live) (suc i) (suc j) h = elim (get-set live i j h) [
  | inl e ↦ inl (ap suc e)
  | inr k ↦ inr k
]

set_keeps :
    (live : List Bool) (i j : ℕ)
    → get_elem? live j ≡ some true
    → get_elem? (set i true live) j ≡ some true
unfolding set
set_keeps [] i j h = h
set_keeps (x ∷ live) zero zero h = refl
set_keeps (x ∷ live) zero (suc j) h = h
set_keeps (x ∷ live) (suc i) zero h = h
set_keeps (x ∷ live) (suc i) (suc j) h = set_keeps live i j h

pub mark_cases : (o : Option Bool) → (o ≡ none) ⊎ ((o ≡ some true) ⊎ (o ≡ some false))
mark_cases none = inl refl
mark_cases (some true) = inr (inl refl)
mark_cases (some false) = inr (inr refl)

pub none-some {ℓ} : {A : Type ℓ} {o : Option A} {a : A} → o ≡ none → o ≡ some a → ⊥
none-some h k = cc

module _ (next : ℕ → List Ref) where
  weight-set :
      (live : List Bool) (i j : ℕ)
      → get_elem? live j ≡ some false
      → weight next i live ≡ suc (length (next (i + j))) + weight next i (set j true live)
  unfolding weight set
  weight-set [] i j h = cc
  weight-set (true ∷ live) i zero h = cc
  weight-set (false ∷ live) i zero h = rw (add_zero i) refl
    where
      add_zero : (i : ℕ) → i + 0 ≡ i
      add_zero i = omega arith
  weight-set (true ∷ live) i (suc j) h = rw (sym (add_suc i j)) (weight-set live (suc i) j h)
    where
      add_suc : (i j : ℕ) → suc i + j ≡ i + suc j
      add_suc i j = omega arith
  weight-set (false ∷ live) i (suc j) h =
      rw (sym (add_suc i j)) (omega (arith, weight-set live (suc i) j h))
    where
      add_suc : (i j : ℕ) → suc i + j ≡ i + suc j
      add_suc i j = omega arith

  weight-set_first :
      (live : List Bool) (j : ℕ)
      → get_elem? live j ≡ some false
      → weight next 0 live ≡ suc (length (next j)) + weight next 0 (set j true live)
  weight-set_first live j h =
      subst (λ k. weight next 0 live ≡ suc (length (next k)) + weight next 0 (set j true live))
        (zero_add j) (weight-set live 0 j h)
    where
      zero_add : (j : ℕ) → 0 + j ≡ j
      zero_add j = omega arith

  -- Fuel for what is on the stack and what can still be put there is enough.
  pub visit_total :
      (m n : ℕ) (st : List Ref) (live : List Bool)
      → ((i : ℕ) → All (IsBelow m) (next i))
      → length live ≡ m
      → All (IsBelow m) st
      → length st + weight next 0 live ≤ n
      → (found : List Bool) × (visit next n st live ≡ some found) × (length found ≡ m)
  unfolding visit
  visit_total m n [] live h len b fuel = (live, refl, len)
  visit_total m zero (r ∷ st) live h len b fuel = let bad : ⊥ = omega arith in elim bad [ ]
  visit_total m (suc n) (Ref.input k ∷ st) live h len b fuel =
      visit_total m n st live h len b.1 (omega arith)
  visit_total m (suc n) (Ref.value i c ∷ st) live h len b fuel =
      let (mark, e) = get_elem?_total live i (omega (arith, b.0)) in
      elim (mark_cases (get_elem? live i)) [
        | inl gone ↦ elim (none-some gone e) [ ]
        | inr (inl old) ↦ rw old (visit_total m n st live h len b.1 (omega arith))
        | inr (inr new) ↦ rw new (
            visit_total m n (push_all (next i) st) (set i true live) h
              (length-set i true live ∙ len) (All-push_all (IsBelow m) (next i) st (h i) b.1)
              (omega (arith, length-push_all (next i) st, weight-set_first live i new)))
      ]

  abbrev Closes : List Ref → List Bool → List Bool → Type 0
  Closes st live found =
      ((i : ℕ) → get_elem? live i ≡ some true → get_elem? found i ≡ some true)
      × All (IsLive found) st
      × ((i : ℕ)
          → get_elem? found i ≡ some true
          → (get_elem? live i ≡ some true) ⊎ All (IsLive found) (next i))

  abbrev AtMark : ℕ → ℕ → List Ref → List Bool → List Bool → Option Bool → Type 0
  AtMark n i st live found o =
      visit_at o (visit next n st live) (visit next n (push_all (next i) st) (set i true live))
      ≡ some found

  old_marks :
      (i : ℕ) (st : List Ref) (live found : List Bool) (c : ℕ)
      → get_elem? live i ≡ some false
      → Closes (push_all (next i) st) (set i true live) found
      → Closes (Ref.value i c ∷ st) live found
  old_marks i st live found c e (keep, held, closed) =
      let (here, rest) = All-push_all_inv (IsLive found) (next i) st held in
      (
        λ j q. keep j (set_keeps live i j q),
        (keep i (get-set_self live i e), rest),
        λ j q. elim (closed j q) [
          | inr all ↦ inr all
          | inl s ↦ elim (get-set live i j s) [
            | inl eq ↦ inr (subst (λ k. All (IsLive found) (next k)) (sym eq) here)
            | inr old ↦ inl old
          ]
        ],
      )

  -- What is found holds the stack and is closed under what the new finds read.
  visit-Closes :
      (n : ℕ) (st : List Ref) (live found : List Bool)
      → visit next n st live ≡ some found
      → Closes st live found
  unfolding visit
  visit-Closes n [] live found h = rw (sym (some_inj h)) (λ i p. p, tt, λ i p. inl p)
    where
      some_inj : {a b : List Bool} → some a ≡ some b → a ≡ b
      some_inj e = cc
  visit-Closes zero (r ∷ st) live found h = cc
  visit-Closes (suc n) (Ref.input k ∷ st) live found h =
      let (keep, held, closed) = visit-Closes n st live found h in (keep, (tt, held), closed)
  visit-Closes (suc n) (Ref.value i c ∷ st) live found h = elim (mark_cases (get_elem? live i)) [
    | inl gone ↦ elim (none-some refl (subst (AtMark n i st live found) gone h)) [ ]
    | inr (inl old) ↦
        let (keep, held, closed) =
          visit-Closes n st live found (subst (AtMark n i st live found) old h) in
        (keep, (keep i old, held), closed)
    | inr (inr new) ↦ old_marks i st live found c new (
        visit-Closes n (push_all (next i) st) (set i true live) found
          (subst (AtMark n i st live found) new h))
  ]

  length-unmarked : (m : ℕ) → length (unmarked m) ≡ m
  length-unmarked zero = refl
  length-unmarked (suc m) = ap suc (length-unmarked m)

  unmarked_none : (m i : ℕ) → get_elem? (unmarked m) i ≡ some true → ⊥
  unmarked_none zero i h = cc
  unmarked_none (suc m) zero h = cc
  unmarked_none (suc m) (suc i) h = unmarked_none m i h

  -- Over instructions that read only what exists the search ends with a mark per instruction.
  pub reach_total :
      (m : ℕ) (roots : List Ref)
      → ((i : ℕ) → All (IsBelow m) (next i))
      → All (IsBelow m) roots
      → (found : List Bool) × (reach next m roots ≡ some found) × (length found ≡ m)
  unfolding reach
  reach_total m roots h b =
      visit_total m (length roots + weight next 0 (unmarked m)) (push_all roots []) (unmarked m) h
        (length-unmarked m) (All-push_all (IsBelow m) roots [] b tt)
        (omega (arith, length-push_all roots []))

  -- The search marks the roots and, with an instruction, all that it reads.
  pub reach_closed :
      (m : ℕ) (roots : List Ref) (found : List Bool)
      → reach next m roots ≡ some found
      → All (IsLive found) roots
        × ((i : ℕ) → get_elem? found i ≡ some true → All (IsLive found) (next i))
  unfolding reach
  reach_closed m roots found h =
      let (_, held, closed) = visit-Closes _ (push_all roots []) (unmarked m) found h in
      (
        (All-push_all_inv (IsLive found) roots [] held).0,
        λ i p. elim (closed i p) [ inl bad ↦ elim (unmarked_none m i bad) [ ] | inr all ↦ all ],
      )

  -- Over instructions and roots that read only what exists, the search ends with one mark per
  -- instruction, in which the roots are marked and with an instruction all that it reads.
  pub reach_marks :
      (m : ℕ) (roots : List Ref)
      → ((i : ℕ) → All (IsBelow m) (next i))
      → All (IsBelow m) roots
      → (found : List Bool) × (reach next m roots ≡ some found)
        × (length found ≡ m)
        × All (IsLive found) roots
        × ((i : ℕ) → get_elem? found i ≡ some true → All (IsLive found) (next i))
  reach_marks m roots h b =
      let (found, e, len) = reach_total m roots h b in
      let (rooted, closed) = reach_closed m roots found e in (found, e, len, rooted, closed)
