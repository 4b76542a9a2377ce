-- ===== src/Program/Compact/Reached.antt =====
-- What the search of `Program::retain_reachable`, crates/rsdag/src/tape/compile.rs, leaves.
use mathlib.Core.Option
use rsdag.Prelude.{
  ℕ, zero, suc, ◌≡◌, ◌⊎◌, refl, sym, ap, subst, Bool, true, false, Option, none, some, List, [],
  ◌∷◌, get_or, get_elem?, set, All, inl, inr, ◌==◌, if◌then◌else◌,
}
use rsdag.Field.{Field}
use rsdag.Semantics.{Scalar}
use rsdag.Program.{Ref, Inst, Program, Kernels, IsRun, ins, ins_of, outputs}
use rsdag.Program.Reach.{mark_cases, none-some}
use rsdag.Program.Specialize.{u32_max, reads}
use rsdag.Program.Specialize.Whole.{bind_some}
use rsdag.Program.Specialize.Agree.{some_inj}
use rsdag.Program.Compact.Sound.{IsAlive, IsKeptAs, kept_blocks, compact-IsRun}
use rsdag.Program.Compact.Retain.{
  push_dead, search_at, search, all_dead, root_ids, state_ids, stack_of, read_by, first_stack,
  reachable, retain_reachable,
}

abbrev IsSeen : List Bool → ℕ → Type 0
IsSeen dead i = get_elem? dead i ≡ some false

get-set-false : (dead : List Bool) (i j : ℕ) → IsSeen (set i false dead) j → (j ≡ i) ⊎ IsSeen dead j
unfolding set
get-set-false [] i j h = inr h
get-set-false (x ∷ dead) zero zero h = inl refl
get-set-false (x ∷ dead) zero (suc j) h = inr h
get-set-false (x ∷ dead) (suc i) zero h = inr h
get-set-false (x ∷ dead) (suc i) (suc j) h = elim (get-set-false dead i j h) [
  | inl e ↦ inl (ap suc e)
  | inr k ↦ inr k
]

set-IsSeen :
    (dead : List Bool) (i : ℕ) {b : Bool} → get_elem? dead i ≡ some b → IsSeen (set i false dead) i
unfolding set
set-IsSeen [] i h = cc
set-IsSeen (x ∷ dead) zero h = refl
set-IsSeen (x ∷ dead) (suc i) h = set-IsSeen dead i h

set_keeps_IsSeen : (dead : List Bool) (i j : ℕ) → IsSeen dead j → IsSeen (set i false dead) j
unfolding set
set_keeps_IsSeen [] i j h = h
set_keeps_IsSeen (x ∷ dead) zero zero h = refl
set_keeps_IsSeen (x ∷ dead) zero (suc j) h = h
set_keeps_IsSeen (x ∷ dead) (suc i) zero h = h
set_keeps_IsSeen (x ∷ dead) (suc i) (suc j) h = set_keeps_IsSeen dead i j h

not_dead : (dead : List Bool) (j : ℕ) → get_or dead j true ≡ false → IsSeen dead j
not_dead [] j h = cc
not_dead (x ∷ dead) zero h = ap some h
not_dead (x ∷ dead) (suc j) h = not_dead dead j h

-- What is pushed or was seen before covers the operands.
push_dead-All :
    (rs : List Ref) (dead found : List Bool) (st : List ℕ)
    → ((i : ℕ) → IsSeen dead i → IsSeen found i)
    → All (IsSeen found) (push_dead rs dead st)
    → All (IsAlive found) rs × All (IsSeen found) st
unfolding push_dead
push_dead-All [] dead found st keep h = (tt, h)
push_dead-All (Ref.input k ∷ rs) dead found st keep h =
    let (a, b) = push_dead-All rs dead found st keep h in ((tt, a), b)
push_dead-All (Ref.value j c ∷ rs) dead found st keep h =
    let (a, b) = push_dead-All rs dead found (if get_or dead j true then j ∷ st else st) keep h in
    let (here, rest) = split (get_or dead j true) refl b in ((here, a), rest)
  where
    split :
        (b : Bool)
        → get_or dead j true ≡ b
        → All (IsSeen found) (if b then j ∷ st else st)
        → IsSeen found j × All (IsSeen found) st
    split true e q = q
    split false e q = (keep j (not_dead dead j e), q)

root_ids-All :
    (rs : List Ref) (found : List Bool) (st : List ℕ)
    → All (IsSeen found) (root_ids rs st)
    → All (IsAlive found) rs × All (IsSeen found) st
unfolding root_ids
root_ids-All [] found st h = (tt, h)
root_ids-All (Ref.input k ∷ rs) found st h = let (a, b) = root_ids-All rs found st h in ((tt, a), b)
root_ids-All (Ref.value i c ∷ rs) found st h =
    let (a, b) = root_ids-All rs found (i ∷ st) h in ((b.0, a), b.1)

state_ids-All :
    (at : List ℕ) (i : ℕ) (found : List Bool) (st : List ℕ)
    → All (IsSeen found) (state_ids at i st)
    → All (IsSeen found) st
unfolding state_ids
state_ids-All [] i found st h = h
state_ids-All (a ∷ at) i found st h =
    rest (a == u32_max) (state_ids-All at (suc i) found (if a == u32_max then st else i ∷ st) h)
  where
    rest : (b : Bool) → All (IsSeen found) (if b then st else i ∷ st) → All (IsSeen found) st
    rest true q = q
    rest false q = q.1

stack_of-All :
    (o : Option (List ℕ × ℕ)) (found : List Bool) (st : List ℕ)
    → All (IsSeen found) (stack_of o st)
    → All (IsSeen found) st
stack_of-All none found st h = h
stack_of-All (some (at, len)) found st h = state_ids-All at 0 found st h

all_dead_none : {A : Type 0} (xs : List A) (i : ℕ) → IsSeen (all_dead xs) i → ⊥
all_dead_none [] i h = cc
all_dead_none (x ∷ xs) zero h = cc
all_dead_none (x ∷ xs) (suc i) h = all_dead_none xs i h

module _ (next : ℕ → List Ref) where
  abbrev Covered : List ℕ → List Bool → List Bool → Type 0
  Covered st dead found =
      ((i : ℕ) → IsSeen dead i → IsSeen found i)
      × All (IsSeen found) st
      × ((i : ℕ) → IsSeen found i → IsSeen dead i ⊎ All (IsAlive found) (next i))

  abbrev SearchedAt : ℕ → ℕ → List ℕ → List Bool → List Bool → Option Bool → Type 0
  SearchedAt n i st dead found o =
      search_at o (search next n st dead)
        (search next n (push_dead (next i) (set i false dead) st) (set i false dead))
      ≡ some found

  new-Covered :
      (i : ℕ) (st : List ℕ) (dead found : List Bool)
      → get_elem? dead i ≡ some true
      → Covered (push_dead (next i) (set i false dead) st) (set i false dead) found
      → Covered (i ∷ st) dead found
  new-Covered i st dead found e (keep, held, closed) =
      let (here, rest) = push_dead-All (next i) (set i false dead) found st keep held in
      (
        λ j q. keep j (set_keeps_IsSeen dead i j q),
        (keep i (set-IsSeen dead i e), rest),
        λ j q. elim (closed j q) [
          | inr all ↦ inr all
          | inl s ↦ elim (get-set-false dead i j s) [
            | inl eq ↦ inr (subst (λ k. All (IsAlive found) (next k)) (sym eq) here)
            | inr old ↦ inl old
          ]
        ],
      )

  search-Covered :
      (n : ℕ) (st : List ℕ) (dead found : List Bool)
      → search next n st dead ≡ some found
      → Covered st dead found
  unfolding search
  search-Covered n [] dead found h = rw (sym (some_inj h)) (λ i q. q, tt, λ i q. inl q)
  search-Covered zero (i ∷ st) dead found h = cc
  search-Covered (suc n) (i ∷ st) dead found h = elim (mark_cases (get_elem? dead i)) [
    | inl gone ↦ elim (none-some refl (subst (SearchedAt n i st dead found) gone h)) [ ]
    | inr (inl fresh) ↦ new-Covered i st dead found fresh (
        search-Covered n (push_dead (next i) (set i false dead) st) (set i false dead) found
          (subst (SearchedAt n i st dead found) fresh h))
    | inr (inr seen) ↦
        let (keep, held, closed) =
          search-Covered n st dead found (subst (SearchedAt n i st dead found) seen h) in
        (keep, (keep i seen, held), closed)
  ]

module _ {K : Field} (T : Scalar K) (ks : Kernels T) (inputs : ℕ → T.Val) (get : ℕ → List T.Val)
    (p : Program K) (run : IsRun T ks inputs p get) where
  kept_as :
      (dead : List Bool) (rs : List Ref)
      → All (IsAlive dead) rs
      → All (IsKeptAs T ks inputs get dead (λ r. r)) rs
  kept_as dead [] all = tt
  kept_as dead (r ∷ rs) all =
      (record { alive = all.0; value = refl; block = refl }, kept_as dead rs all.1)

  read-IsAlive :
      (dead : List Bool) (i : ℕ) (inst : Inst K) (rs : List Ref)
      → get_elem? p.insts i ≡ some inst
      → ins_of p inst ≡ some rs
      → All (IsAlive dead) (read_by p i)
      → All (IsAlive dead) rs
  unfolding ins Option.bind
  read-IsAlive dead i inst rs e e' all =
      subst (λ o. All (IsAlive dead) (reads none o)) e'
        (subst (λ o. All (IsAlive dead) (reads none (Option.bind o (ins_of p)))) e all)

  -- Where `retain_reachable` gives a program for one that has a run, the program that it gives has a
  -- run on the same inputs with the same outputs.
  pub retained-IsRun :
      (p' : Program K)
      → retain_reachable p ≡ some p'
      → (get' : ℕ → List T.Val) × IsRun T ks inputs p' get'
        × (outputs T ks inputs get' p' ≡ outputs T ks inputs get p)
  unfolding retain_reachable reachable
  retained-IsRun p' h =
      let (dead, e, e') = bind_some (reachable p) _ h in
      let (_, held, closed) =
        search-Covered (read_by p) _ (first_stack p) (all_dead p.insts) dead e in
      let (rooted, _) =
        root_ids-All p.roots dead [] (stack_of-All p.state dead (root_ids p.roots []) held) in
      let (kept, same) =
        compact-IsRun T ks inputs get p run dead (λ r. r) p'
          (λ i inst rs at alive there. kept_as dead rs (
            read-IsAlive dead i inst rs at there (elim (closed i alive) [
              | inl bad ↦ elim (all_dead_none p.insts i bad) [ ]
              | inr all ↦ all
            ])))
          (kept_as dead p.roots rooted) e' in
      (kept_blocks T ks inputs get dead, kept, same)
