-- ===== src/Program/Compact/Places.antt =====
-- Where `Program::compact` of crates/rsdag/src/tape/compile.rs puts the instructions that stay and their
-- operands.
use mathlib.Core.Option
use rsdag.Prelude.{
  ℕ, zero, suc, ◌+◌, ◌≤◌, ◌≡◌, refl, sym, ◌∙◌, ap, subst, Bool, true, false, Option, none, some,
  List, [], ◌∷◌, ◌++◌, length, get_or, get_elem?, slice, take, drop, leb, if◌then◌else◌, arith,
  append_assoc, append-nil, length-append, leb→le, length-take, length-drop,
}
use rsdag.Field.{Field}
use rsdag.Program.{Ref, Inst}
use rsdag.Program.Specialize.Agree.{some_inj}
use rsdag.Program.Specialize.Whole.{bind_some, map-some}
use rsdag.Program.Compact.{renumber_from, compact_insts, move_inst, move_all, add_inst}

-- The old number of each instruction that stays, counted from `i`.
abbrev pub kept_from : ℕ → List Bool → List ℕ
kept_from i [] = []
kept_from i (true ∷ dead) = kept_from (suc i) dead
kept_from i (false ∷ dead) = i ∷ kept_from (suc i) dead

-- Marks past the instructions all say that nothing stays.
none_past :
    (A : Type 0) (n : ℕ) (dead : List Bool) (ns : List ℕ) (i : ℕ)
    → renumber_from {A = A} n [] dead ≡ some ns
    → get_elem? dead i ≡ some false
    → ⊥
unfolding renumber_from
none_past A n [] ns i r h = cc
none_past A n (true ∷ dead) ns zero r h = cc
none_past A n (true ∷ dead) ns (suc i) r h = none_past A n dead ns i r h
none_past A n (false ∷ dead) ns i r h = cc

-- The new number of an instruction leads back to it.
pub kept-renumber :
    {A : Type 0} (n k : ℕ) (xs : List A) (dead : List Bool) (ns : List ℕ) (i : ℕ)
    → renumber_from n xs dead ≡ some ns
    → get_elem? dead i ≡ some false
    → (c : ℕ) × (get_elem? ns i ≡ some (n + c)) × (get_or (kept_from k dead) c 0 ≡ k + i)
unfolding renumber_from
kept-renumber n k xs [] ns i r h = cc
kept-renumber n k [] (true ∷ dead) ns zero r h = cc
kept-renumber {A} n k [] (true ∷ dead) ns (suc i) r h =
    let bad : ⊥ = none_past A n dead ns i r h in elim bad [ ]
kept-renumber n k [] (false ∷ dead) ns i r h = cc
kept-renumber n k (x ∷ xs) (true ∷ dead) ns zero r h = cc
kept-renumber n k (x ∷ xs) (false ∷ dead) ns zero r h =
    let (rest, _, same) = map-some (renumber_from (suc n) xs dead) _ r in
    (0, subst (λ ns. get_elem? ns 0 ≡ some (n + 0)) same (ap some (omega arith)), omega arith)
kept-renumber n k (x ∷ xs) (true ∷ dead) ns (suc i) r h =
    let (rest, e, same) = map-some (renumber_from n xs dead) _ r in
    let (c, at, back) = kept-renumber n (suc k) xs dead rest i e h in
    (c, subst (λ ns. get_elem? ns (suc i) ≡ some (n + c)) same at, omega (arith, back))
kept-renumber n k (x ∷ xs) (false ∷ dead) ns (suc i) r h =
    let (rest, e, same) = map-some (renumber_from (suc n) xs dead) _ r in
    let (c, at, back) = kept-renumber (suc n) (suc k) xs dead rest i e h in
    (
      suc c,
      subst (λ ns. get_elem? ns (suc i) ≡ some (n + suc c)) same (at ∙ ap some (omega arith)),
      omega (arith, back),
    )

length-slice : (xs : List Ref) (s l : ℕ) (ys : List Ref) → slice xs s l ≡ some ys → length ys ≡ l
unfolding slice
length-slice xs s l ys h = sliced (leb (s + l) (length xs)) refl h
  where
    sliced :
        (b : Bool)
        → leb (s + l) (length xs) ≡ b
        → (if b then some (take l (drop s xs)) else none) ≡ some ys
        → length ys ≡ l
    sliced false e k = cc
    sliced true e k =
        ap length (sym (some_inj k))
        ∙ omega (arith, leb→le (s + l) (length xs) e, length-take l (drop s xs), length-drop s xs)

le→leb : (a b : ℕ) → a ≤ b → leb a b ≡ true
le→leb a b h = ground arith

drop-length : (xs ys : List Ref) → drop (length xs) (xs ++ ys) ≡ ys
drop-length [] ys = refl
drop-length (x ∷ xs) ys = drop-length xs ys

take-length : (xs ys : List Ref) → take (length xs) (xs ++ ys) ≡ xs
take-length [] ys = refl
take-length (x ∷ xs) ys = ap (λ zs. x ∷ zs) (take-length xs ys)

-- What was appended behind `xs` is a slice, whatever follows.
slice-append : (xs ys zs : List Ref) → slice (xs ++ (ys ++ zs)) (length xs) (length ys) ≡ some ys
unfolding slice
slice-append xs ys zs =
    rw (le→leb (length xs + length ys) (length (xs ++ (ys ++ zs))) fits)
      (rw (drop-length xs (ys ++ zs)) (ap some (take-length ys zs)))
  where
    fits : length xs + length ys ≤ length (xs ++ (ys ++ zs))
    fits = omega (arith, length-append xs (ys ++ zs), length-append ys zs)

-- A list that is moved, one reference at a time.
pub move_all-cons :
    (move : Ref → Option Ref) (r : Ref) (rs ys : List Ref)
    → move_all move (r ∷ rs) ≡ some ys
    → (r' : Ref) × (rs' : List Ref) × (move r ≡ some r')
      × (move_all move rs ≡ some rs')
      × (r' ∷ rs' ≡ ys)
unfolding move_all
move_all-cons move r rs ys h =
    let (r', e, k) = bind_some (move r) _ h in
    let (rs', e', same) = map-some (move_all move rs) _ k in (r', rs', e, e', same)

length-move_all :
    (move : Ref → Option Ref) (rs rs' : List Ref)
    → move_all move rs ≡ some rs'
    → length rs' ≡ length rs
unfolding move_all
length-move_all move [] rs' h = ap length (sym (some_inj h))
length-move_all move (r ∷ rs) ys h =
    let (r', rs', e, e', same) = move_all-cons move r rs ys h in
    ap length (sym same) ∙ ap suc (length-move_all move rs rs' e')

-- The slice that the operands of a moved instruction are put in.
moved_slice :
    (move : Ref → Option Ref) (old_pool pool rs rs' ext : List Ref) (s l : ℕ)
    → slice old_pool s l ≡ some rs
    → move_all move rs ≡ some rs'
    → slice ((pool ++ rs') ++ ext) (length pool) l ≡ some rs'
moved_slice move old_pool pool rs rs' ext s l e m =
    subst (λ n. slice ((pool ++ rs') ++ ext) (length pool) n ≡ some rs')
      (length-move_all move rs rs' m ∙ length-slice old_pool s l rs e)
      (subst (λ xs. slice xs (length pool) (length rs') ≡ some rs')
        (sym (append_assoc pool rs' ext)) (slice-append pool rs' ext))

module _ {K : Field} (move : Ref → Option Ref) (old_pool : List Ref) where
  -- An instruction that stays: the one that it was, and its operands moved.
  unfoldable pub IsMoved : ℕ → List (Inst K) → List Bool → List Ref → ℕ → Inst K → Type 0
  IsMoved k insts dead pool j inst' =
      (i : ℕ) × (inst : Inst K) × (rs : List Ref) × (rs' : List Ref) × (get_elem? insts i
        ≡ some inst)
      × (get_elem? dead i ≡ some false)
      × (get_or (kept_from k dead) j 0 ≡ k + i)
      × (inst'.kind ≡ inst.kind)
      × (slice old_pool inst.ins.0 inst.ins.1 ≡ some rs)
      × (move_all move rs ≡ some rs')
      × (slice pool inst'.ins.0 inst'.ins.1 ≡ some rs')

  abbrev pub AreMoved : ℕ → List (Inst K) → List Bool → List Ref → List (Inst K) → Type 0
  AreMoved k insts dead pool insts' =
      (j : ℕ) (inst' : Inst K) → get_elem? insts' j ≡ some inst' → IsMoved k insts dead pool j inst'

  -- What one instruction that stays adds to the pool.
  add_inst-cases :
      (inst : Inst K) (start : ℕ) (o : Option (List Ref × List (Inst K))) (pool : List Ref)
      (insts' : List (Inst K))
      → add_inst inst start o ≡ some (pool, insts')
      → (insts : List (Inst K)) × (o ≡ some (pool, insts))
        × (insts' ≡ record inst { ins = (start, inst.ins.1) } ∷ insts)
  add_inst-cases inst start none pool insts' h = cc
  add_inst-cases inst start (some (pool', insts)) pool insts' h =
      let both = some_inj h in
      (insts, ap (λ q. some (q, insts)) (ap (λ q. q.0) both), sym (ap (λ q. q.1) both))

  none-AreMoved :
      (k : ℕ) (insts : List (Inst K)) (dead : List Bool) (pool pool' : List Ref)
      (insts' : List (Inst K))
      → ◌≡◌ {A = Option (List Ref × List (Inst K))} (some (pool, [])) (some (pool', insts'))
      → ((ext : List Ref) × (pool' ≡ pool ++ ext)) × AreMoved k insts dead pool' insts'
  none-AreMoved k insts dead pool pool' insts' h = (
    ([], sym (ap (λ q. q.0) (some_inj h)) ∙ sym (append-nil pool)),
    λ j inst' e.
        elim (no_elem j inst'
          (subst (λ xs. get_elem? xs j ≡ some inst') (sym (ap (λ q. q.1) (some_inj h))) e)) [ ],
  )
    where
      no_elem : (j : ℕ) (inst' : Inst K) → get_elem? [] j ≡ some inst' → ⊥
      no_elem j inst' e = cc

  cons-AreMoved :
      (k : ℕ) (inst : Inst K) (insts insts' : List (Inst K)) (dead : List Bool)
      (pool pool' rs rs' : List Ref)
      → slice old_pool inst.ins.0 inst.ins.1 ≡ some rs
      → move_all move rs ≡ some rs'
      → slice pool' (length pool) inst.ins.1 ≡ some rs'
      → AreMoved (suc k) insts dead pool' insts'
      → AreMoved k
          (inst ∷ insts)
          (false ∷ dead)
          pool'
          (record inst { ins = (length pool, inst.ins.1) } ∷ insts')
  unfolding IsMoved
  cons-AreMoved k inst insts insts' dead pool pool' rs rs' e m placed all zero inst' h =
      subst (IsMoved k (inst ∷ insts) (false ∷ dead) pool' 0) (some_inj h)
        (0, inst, rs, rs', refl, refl, omega arith, refl, e, m, placed)
  cons-AreMoved k inst insts insts' dead pool pool' rs rs' e m placed all (suc j) inst' h =
      let (i, old, os, os', at, alive, kept, same, there, moved, here) = all j inst' h in
      (suc i, old, os, os', at, alive, omega (arith, kept), same, there, moved, here)

  move_inst-AreMoved :
      (k : ℕ) (inst : Inst K) (insts : List (Inst K)) (dead : List Bool) (pool pool' : List Ref)
      (insts' : List (Inst K)) (o : Option (List Ref))
      (then_insts : List Ref → Option (List Ref × List (Inst K)))
      → Option.bind (slice old_pool inst.ins.0 inst.ins.1) (move_all move) ≡ o
      → ((pool1 : List Ref) (insts1 : List (Inst K))
          → then_insts pool1 ≡ some (pool', insts1)
          → ((ext : List Ref) × (pool' ≡ pool1 ++ ext)) × AreMoved (suc k) insts dead pool' insts1)
      → move_inst inst o pool then_insts ≡ some (pool', insts')
      → ((ext : List Ref) × (pool' ≡ pool ++ ext))
        × AreMoved k (inst ∷ insts) (false ∷ dead) pool' insts'
  move_inst-AreMoved k inst insts dead pool pool' insts' none then_insts e all h = cc
  move_inst-AreMoved k inst insts dead pool pool' insts' (some rs') then_insts e all h =
      let (rs, there, m) = bind_some (slice old_pool inst.ins.0 inst.ins.1) _ e in
      let (insts1, e', e'') =
        add_inst-cases inst (length pool) (then_insts (pool ++ rs')) pool' insts' h in
      let ((ext, grown), moved) = all (pool ++ rs') insts1 e' in
      (
        (rs' ++ ext, grown ∙ append_assoc pool rs' ext),
        subst (AreMoved k (inst ∷ insts) (false ∷ dead) pool') (sym e'') (
            cons-AreMoved k inst insts insts1 dead pool pool' rs rs' there m
              (subst (λ xs. slice xs (length pool) inst.ins.1 ≡ some rs') (sym grown)
                (moved_slice move old_pool pool rs rs' ext inst.ins.0 inst.ins.1 there m))
              moved),
      )

  pub compact_insts-AreMoved :
      (k : ℕ) (insts : List (Inst K)) (dead : List Bool) (pool pool' : List Ref)
      (insts' : List (Inst K))
      → compact_insts move old_pool insts dead pool ≡ some (pool', insts')
      → ((ext : List Ref) × (pool' ≡ pool ++ ext)) × AreMoved k insts dead pool' insts'
  unfolding compact_insts IsMoved
  compact_insts-AreMoved k [] dead pool pool' insts' h = none-AreMoved k [] dead pool pool' insts' h
  compact_insts-AreMoved k (inst ∷ insts) [] pool pool' insts' h =
      none-AreMoved k (inst ∷ insts) [] pool pool' insts' h
  compact_insts-AreMoved k (inst ∷ insts) (true ∷ dead) pool pool' insts' h =
      let (ext, all) = compact_insts-AreMoved (suc k) insts dead pool pool' insts' h in
      (
        ext,
        λ j inst' e.
            let (i, old, rs, rs', at, alive, kept, same, there, moved, here) = all j inst' e in
            (suc i, old, rs, rs', at, alive, omega (arith, kept), same, there, moved, here),
      )
  compact_insts-AreMoved k (inst ∷ insts) (false ∷ dead) pool pool' insts' h =
      move_inst-AreMoved k inst insts dead pool pool' insts'
        (Option.bind (slice old_pool inst.ins.0 inst.ins.1) (move_all move))
        (compact_insts move old_pool insts dead) refl
        (λ pool1 insts1 e. compact_insts-AreMoved (suc k) insts dead pool1 pool' insts1 e) h
