-- ===== src/Program/Compact/Total.antt =====
-- The search and the renumbering of `Program::retain_reachable`, crates/rsdag/src/tape/compile.rs, on
-- programs in dependency order.
use mathlib.Core.Option
use rsdag.Prelude.{
  ℕ, zero, suc, ◌+◌, ◌≤◌, ◌<◌, ◌≡◌, refl, sym, ◌∙◌, ap, subst, Bool, true, false, Option, none,
  some, List, [], ◌∷◌, ◌++◌, length, get_or, get_elem?, get_elem?_total, get_elem?-lt, set,
  length-set, arith, All, All-imp, inl, inr, ◌==◌, if◌then◌else◌, slice,
}
use rsdag.Field.{Field}
use rsdag.Semantics.{Scalar}
use rsdag.Program.{
  Ref, Inst, Program, IsProgram, IsOlder, IsPlaced, IsRun, Kernels, outputs, ins_of,
}
use rsdag.Program.Follow.{IsBelow}
use rsdag.Program.Reach.{mark_cases, none-some}
use rsdag.Program.Specialize.{u32_max}
use rsdag.Program.Specialize.Agree.{IsOlder-IsBelow, IsOlder-imp, some_inj}
use rsdag.Program.Specialize.Total.{ins-IsBelow}
use rsdag.Program.Compact.{
  renumber_from, move_all, keep_placeholder, compact_insts, compact, compact_by, move_by, compacted,
}
use rsdag.Program.Compact.Reached.{retained-IsRun}
use rsdag.Program.Compact.Retain.{
  push_dead, search_at, search, dead_weight, all_dead, root_ids, state_ids, stack_of, read_by,
  first_stack, reachable, retain_reachable,
}

length-push_dead :
    (rs : List Ref) (dead : List Bool) (st : List ℕ)
    → length (push_dead rs dead st) ≤ length rs + length st
unfolding push_dead
length-push_dead [] dead st = omega arith
length-push_dead (Ref.input k ∷ rs) dead st = omega (arith, length-push_dead rs dead st)
length-push_dead (Ref.value j c ∷ rs) dead st = omega (
  arith,
  length-push_dead rs dead (if get_or dead j true then j ∷ st else st),
  pushed (get_or dead j true),
)
  where
    pushed : (b : Bool) → length (if b then j ∷ st else st) ≤ suc (length st)
    pushed true = omega arith
    pushed false = omega arith

push_dead-All :
    (m : ℕ) (rs : List Ref) (dead : List Bool) (st : List ℕ)
    → All (IsBelow m) rs
    → All (λ i. i < m) st
    → All (λ i. i < m) (push_dead rs dead st)
unfolding push_dead
push_dead-All m [] dead st b s = s
push_dead-All m (Ref.input k ∷ rs) dead st b s = push_dead-All m rs dead st b.1 s
push_dead-All m (Ref.value j c ∷ rs) dead st b s =
    push_dead-All m rs dead (if get_or dead j true then j ∷ st else st) b.1
      (pushed (get_or dead j true))
  where
    pushed : (h : Bool) → All (λ i. i < m) (if h then j ∷ st else st)
    pushed true = (b.0, s)
    pushed false = s

dead_weight-set :
    (next : ℕ → List Ref) (dead : List Bool) (i j : ℕ)
    → get_elem? dead j ≡ some true
    → dead_weight next i dead ≡ suc (length (next (i + j))) + dead_weight next i (set j false dead)
unfolding dead_weight set
dead_weight-set next [] i j h = cc
dead_weight-set next (false ∷ dead) i zero h = cc
dead_weight-set next (true ∷ dead) i zero h = rw (add_zero i) refl
  where
    add_zero : (i : ℕ) → i + 0 ≡ i
    add_zero i = omega arith
dead_weight-set next (false ∷ dead) i (suc j) h =
    rw (sym (add_suc i j)) (dead_weight-set next dead (suc i) j h)
  where
    add_suc : (i j : ℕ) → suc i + j ≡ i + suc j
    add_suc i j = omega arith
dead_weight-set next (true ∷ dead) i (suc j) h =
    rw (sym (add_suc i j)) (omega (arith, dead_weight-set next dead (suc i) j h))
  where
    add_suc : (i j : ℕ) → suc i + j ≡ i + suc j
    add_suc i j = omega arith

module _ (next : ℕ → List Ref) where
  dead_weight-first :
      (dead : List Bool) (j : ℕ)
      → get_elem? dead j ≡ some true
      → dead_weight next 0 dead ≡ suc (length (next j)) + dead_weight next 0 (set j false dead)
  dead_weight-first dead j h =
      subst
        (λ k.
          dead_weight next 0 dead ≡ suc (length (next k)) + dead_weight next 0 (set j false dead))
        (zero_add j) (dead_weight-set next dead 0 j h)
    where
      zero_add : (j : ℕ) → 0 + j ≡ j
      zero_add j = omega arith

  search_total :
      (m n : ℕ) (st : List ℕ) (dead : List Bool)
      → ((i : ℕ) → All (IsBelow m) (next i))
      → length dead ≡ m
      → All (λ i. i < m) st
      → length st + dead_weight next 0 dead ≤ n
      → (found : List Bool) × (search next n st dead ≡ some found)
  unfolding search
  search_total m n [] dead h len b fuel = (dead, refl)
  search_total m zero (i ∷ st) dead h len b fuel = let bad : ⊥ = omega arith in elim bad [ ]
  search_total m (suc n) (i ∷ st) dead h len b fuel =
      let (mark, e) = get_elem?_total dead i (omega (arith, b.0)) in
      elim (mark_cases (get_elem? dead i)) [
        | inl gone ↦ elim (none-some gone e) [ ]
        | inr (inl fresh) ↦ rw fresh (
            search_total m n (push_dead (next i) (set i false dead) st) (set i false dead) h
              (length-set i false dead ∙ len)
              (push_dead-All m (next i) (set i false dead) st (h i) b.1)
              (omega (
                arith,
                length-push_dead (next i) (set i false dead) st,
                dead_weight-first dead i fresh,
              )))
        | inr (inr seen) ↦ rw seen (search_total m n st dead h len b.1 (omega arith))
      ]

-- Marks of the instructions, one by one, renumber them all.
renumber_total :
    {A : Type 0} (n : ℕ) (xs : List A) (dead : List Bool)
    → length dead ≡ length xs
    → (ns : List ℕ) × (renumber_from n xs dead ≡ some ns) × (length ns ≡ length xs)
unfolding renumber_from
renumber_total n [] [] h = ([], refl, refl)
renumber_total n [] (d ∷ dead) h = let bad : ⊥ = omega arith in elim bad [ ]
renumber_total n (x ∷ xs) [] h = let bad : ⊥ = omega arith in elim bad [ ]
renumber_total n (x ∷ xs) (true ∷ dead) h =
    let (ns, e, len) = renumber_total n xs dead (omega arith) in
    (u32_max ∷ ns, rw e refl, omega (arith, len))
renumber_total n (x ∷ xs) (false ∷ dead) h =
    let (ns, e, len) = renumber_total (suc n) xs dead (omega arith) in
    (n ∷ ns, rw e refl, omega (arith, len))

move_all_total :
    (ns : List ℕ) (rs : List Ref)
    → All (IsBelow (length ns)) rs
    → (rs' : List Ref) × (move_all (move_by ns (λ r. r)) rs ≡ some rs')
unfolding move_all Option.bind
move_all_total ns [] b = ([], refl)
move_all_total ns (Ref.input k ∷ rs) b =
    let (rs', e) = move_all_total ns rs b.1 in (Ref.input k ∷ rs', rw e refl)
move_all_total ns (Ref.value i c ∷ rs) b =
    let (n, e) = get_elem?_total ns i b.0 in
    let (rs', e') = move_all_total ns rs b.1 in (Ref.value n c ∷ rs', rw e (rw e' refl))

keep_placeholder_total :
    (ns : List ℕ) (dead : List Bool) (o : Option ℕ)
    → IsPlaced (length ns) o
    → length dead ≡ length ns
    → (o' : Option ℕ) × (keep_placeholder ns dead o ≡ some o')
unfolding Option.bind
keep_placeholder_total ns dead none b h = (none, refl)
keep_placeholder_total ns dead (some i) b h =
    let (d, e) = get_elem?_total dead i (omega (arith, b, h)) in
    let (n, e') = get_elem?_total ns i b in (if d then none else some n, rw e (rw e' (split d n)))
  where
    split :
        (d : Bool) (n : ℕ)
        → (if d then some none else some (some n)) ≡ some (if d then none else some n)
    split true n = refl
    split false n = refl

module _ {K : Field} (old_pool : List Ref) (ns : List ℕ) where
  -- Every slice is there and every operand in range, so nothing panics.
  compact_insts_total :
      (insts : List (Inst K)) (dead : List Bool) (pool : List Ref)
      → ((i : ℕ) (inst : Inst K)
          → get_elem? insts i ≡ some inst
          → (rs : List Ref) × (slice old_pool inst.ins.0 inst.ins.1 ≡ some rs)
            × All (IsBelow (length ns)) rs)
      → (q : List Ref × List (Inst K)) × (compact_insts
            (move_by ns (λ r. r))
            old_pool
            insts
            dead
            pool
          ≡ some q)
  unfolding compact_insts Option.bind
  compact_insts_total [] dead pool h = ((pool, []), refl)
  compact_insts_total (inst ∷ insts) [] pool h = ((pool, []), refl)
  compact_insts_total (inst ∷ insts) (true ∷ dead) pool h =
      compact_insts_total insts dead pool (λ i inst' e. h (suc i) inst' e)
  compact_insts_total (inst ∷ insts) (false ∷ dead) pool h =
      let (rs, e, b) = h 0 inst refl in
      let (rs', m) = move_all_total ns rs b in
      let ((pool', insts'), e') =
        compact_insts_total insts dead (pool ++ rs') (λ i inst' e. h (suc i) inst' e) in
      ((pool', record inst { ins = (length pool, inst.ins.1) } ∷ insts'), rw e (rw m (rw e' refl)))

root_ids-All :
    (m : ℕ) (rs : List Ref) (st : List ℕ)
    → All (IsBelow m) rs
    → All (λ i. i < m) st
    → All (λ i. i < m) (root_ids rs st)
unfolding root_ids
root_ids-All m [] st b s = s
root_ids-All m (Ref.input k ∷ rs) st b s = root_ids-All m rs st b.1 s
root_ids-All m (Ref.value i c ∷ rs) st b s = root_ids-All m rs (i ∷ st) b.1 (b.0, s)

state_ids-All :
    (m : ℕ) (at : List ℕ) (i : ℕ) (st : List ℕ)
    → i + length at ≤ m
    → All (λ i. i < m) st
    → All (λ i. i < m) (state_ids at i st)
unfolding state_ids
state_ids-All m [] i st h s = s
state_ids-All m (a ∷ at) i st h s =
    state_ids-All m at (suc i) (if a == u32_max then st else i ∷ st) (omega (arith, h))
      (pushed (a == u32_max))
  where
    pushed : (b : Bool) → All (λ i. i < m) (if b then st else i ∷ st)
    pushed true = s
    pushed false = (omega (arith, h), s)

-- A state layout has a place for each instruction.
abbrev pub IsLaidOut : Option (List ℕ × ℕ) → ℕ → Type 0
IsLaidOut none m = Unit
IsLaidOut (some (at, len)) m = length at ≡ m

stack_of-All :
    (m : ℕ) (o : Option (List ℕ × ℕ)) (st : List ℕ)
    → IsLaidOut o m
    → All (λ i. i < m) st
    → All (λ i. i < m) (stack_of o st)
stack_of-All m none st h s = s
stack_of-All m (some (at, len)) st h s = state_ids-All m at 0 st (omega (arith, h)) s

length-all_dead : {A : Type 0} (xs : List A) → length (all_dead xs) ≡ length xs
length-all_dead [] = refl
length-all_dead (x ∷ xs) = ap suc (length-all_dead xs)

search-length :
    (next : ℕ → List Ref) (n : ℕ) (st : List ℕ) (dead found : List Bool)
    → search next n st dead ≡ some found
    → length found ≡ length dead
unfolding search
search-length next n [] dead found h = ap length (some_inj (sym h))
search-length next zero (i ∷ st) dead found h = cc
search-length next (suc n) (i ∷ st) dead found h =
    at (get_elem? dead i) (search-length next n st dead found)
      (search-length next n (push_dead (next i) (set i false dead) st) (set i false dead) found) h
  where
    at :
        (o : Option Bool) {seen fresh : Option (List Bool)}
        → (seen ≡ some found → length found ≡ length dead)
        → (fresh ≡ some found → length found ≡ length (set i false dead))
        → search_at o seen fresh ≡ some found
        → length found ≡ length dead
    at none f g k = cc
    at (some false) f g k = f k
    at (some true) f g k = g k ∙ length-set i false dead

module _ {K : Field} (p : Program K) (w : IsProgram p) where
  roots-IsBelow : (m : ℕ) → m ≡ length p.insts → All (IsBelow m) p.roots
  roots-IsBelow m h =
      All-imp p.roots (λ r o. IsOlder-IsBelow p m r (subst (λ k. IsOlder p k r) (sym h) o)) w.roots

  reachable_total :
      IsLaidOut p.state (length p.insts)
      → (dead : List Bool) × (reachable p ≡ some dead) × (length dead ≡ length p.insts)
  unfolding reachable
  reachable_total h =
      let (dead, e) =
        search_total (read_by p) (length p.insts) _ (first_stack p) (all_dead p.insts)
          (ins-IsBelow p w) (length-all_dead p.insts)
          (stack_of-All (length p.insts) p.state (root_ids p.roots []) h
            (root_ids-All (length p.insts) p.roots [] (roots-IsBelow (length p.insts) refl) tt))
          (omega arith) in
      (
        dead,
        e,
        search-length (read_by p) _ (first_stack p) (all_dead p.insts) dead e
            ∙ length-all_dead p.insts,
      )

  slices :
      (m i : ℕ) (inst : Inst K)
      → m ≡ length p.insts
      → get_elem? p.insts i ≡ some inst
      → (rs : List Ref) × (slice p.pool inst.ins.0 inst.ins.1 ≡ some rs) × All (IsBelow m) rs
  unfolding ins_of
  slices m i inst h e =
      let (rs, e', older, _) = w.ordered i inst e in
      (
        rs,
        e',
        All-imp rs
            (λ r o.
              IsOlder-IsBelow p m r
                (IsOlder-imp p i m r (omega (arith, get_elem?-lt p.insts i e, h)) o))
            older,
      )

  pub retain_reachable_total :
      IsLaidOut p.state (length p.insts) → (p' : Program K) × (retain_reachable p ≡ some p')
  unfolding retain_reachable compact compact_by Option.bind
  retain_reachable_total h =
      let (dead, e, marks) = reachable_total h in
      let (ns, numbered, len) = renumber_total 0 p.insts dead marks in
      let (q, moved) =
        compact_insts_total p.pool ns p.insts dead []
          (λ i inst e. slices (length ns) i inst len e) in
      let (roots, at_roots) = move_all_total ns p.roots (roots-IsBelow (length ns) len) in
      let (placeholder, kept) =
        keep_placeholder_total ns dead p.placeholder
          (subst (λ m. IsPlaced m p.placeholder) (sym len) w.placeholder) (marks ∙ sym len) in
      (
        compacted p dead q roots placeholder,
        rw e (rw numbered (rw moved (rw at_roots (rw kept refl)))),
      )

  -- Over a program in dependency order whose placeholder, if it has one, is one of its instructions,
  -- and whose state layout, if it has one, places each instruction: `retain_reachable` does not panic
  -- and its search ends. Where the program has a run, the program that it gives has a run on the same
  -- inputs with the same outputs.
  pub retain_reachable-IsRun :
      IsLaidOut p.state (length p.insts)
      → (T : Scalar K) (ks : Kernels T) (inputs : ℕ → T.Val) (get : ℕ → List T.Val)
      → IsRun T ks inputs p get
      → (p' : Program K) × (retain_reachable p ≡ some p')
        × (get' : ℕ → List T.Val) × IsRun T ks inputs p' get'
        × (outputs T ks inputs get' p' ≡ outputs T ks inputs get p)
  retain_reachable-IsRun h T ks inputs get run =
      let (p', e) = retain_reachable_total h in
      let (get', run', same) = retained-IsRun T ks inputs get p run p' e in
      (p', e, get', run', same)
