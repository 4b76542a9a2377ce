-- ===== src/Program/Specialize/Total.antt =====
-- `Tape::specialize` of crates/rsdag/src/tape/specialize.rs on a trace and a mask of the right
-- lengths.
use mathlib.Core.Option
use rsdag.Prelude.{
  ℕ, zero, suc, ◌≡◌, ◌↔◌, refl, subst, Bool, true, false, Option, none, some, List, [], ◌∷◌, length,
  arith, if◌then◌else◌, get_elem?, get_elem?-lt, All, All-imp, Option-cases, Bool-cases, inl, inr,
  ==_iff, ◌==◌, ◌&&◌, drop,
}
use rsdag.Field.{Field}
use rsdag.Program.{Ref, Inst, Program, IsProgram, HasArms, ins, ins_of, is_select}
use rsdag.Program.Follow.{IsBelow}
use rsdag.Program.Reach.{reach_total}
use rsdag.Program.Specialize.{
  Pinned, Pin, Specialized, taken, rest_of, pin_at, pins, pins_from, pins_step, pin_select, next,
  reads, live_marks, shortened, collect, resolve, no_watch, shorten, specialize, lengths_match,
  count_selects,
}
use rsdag.Program.Specialize.Agree.{IsOlder-IsBelow, IsOlder-imp, is_select-eq, some_inj}

abbrev AreBelow : ℕ → List Pin → Type 0
AreBelow m qs = (i : ℕ) (q : Pinned) → pin_at qs i ≡ some q → IsBelow m q.cond × IsBelow m q.arm

AreBelow-cons :
    (m : ℕ) (q : Pin) (qs : List Pin)
    → ((r : Pinned) → q ≡ some r → IsBelow m r.cond × IsBelow m r.arm)
    → AreBelow m qs
    → AreBelow m (q ∷ qs)
AreBelow-cons m q qs here all zero r e = here r e
AreBelow-cons m q qs here all (suc i) r e = all i r e

-- A select with its operands, a choice and a mask entry to read.
pin_select_total :
    (m : ℕ) (c t e : Ref) (choices : List ℕ) (pin : List Bool) (n : ℕ) (rest : Option (List Pin))
    (qs : List Pin)
    → IsBelow m c
    → IsBelow m t
    → IsBelow m e
    → length choices ≡ suc n
    → length pin ≡ suc n
    → rest ≡ some qs
    → AreBelow m qs
    → (pinned : List Pin) × (pin_select (some (c ∷ t ∷ e ∷ [])) choices pin rest ≡ some pinned)
      × AreBelow m pinned
pin_select_total m c t e [] pin n rest qs bc bt be hc hp h all =
    let bad : ⊥ = omega arith in elim bad [ ]
pin_select_total m c t e (x ∷ xs) [] n rest qs bc bt be hc hp h all =
    let bad : ⊥ = omega arith in elim bad [ ]
pin_select_total m c t e (x ∷ xs) (false ∷ pin) n rest qs bc bt be hc hp h all =
    (none ∷ qs, rw h refl, AreBelow-cons m none qs (λ r k. cc) all)
pin_select_total m c t e (x ∷ xs) (true ∷ pin) n rest qs bc bt be hc hp h all = (
  some (record { cond = c; arm = if taken x then t else e; choice = x }) ∷ qs,
  rw h refl,
  AreBelow-cons m (some (record { cond = c; arm = if taken x then t else e; choice = x })) qs
      (λ r k.
        subst (λ (r : Pinned). IsBelow m r.cond × IsBelow m r.arm) (some_inj k)
          (bc, either (taken x)))
      all,
)
  where
    either : (b : Bool) → IsBelow m (if b then t else e)
    either true = bt
    either false = be

length-rest : {A : Type 0} (xs : List A) (n : ℕ) → length xs ≡ suc n → length (rest_of xs) ≡ n
length-rest [] n h = omega (arith, h)
length-rest (x ∷ xs) n h = omega (arith, h)

module _ {K : Field} (p : Program K) (m : ℕ) where
  -- The instruction's operands are there, a select's three of them.
  abbrev IsReady : Inst K → Type 0
  IsReady inst =
      (rs : List Ref) × (ins_of p inst ≡ some rs) × All (IsBelow m) rs × HasArms p inst.kind rs

  step_total :
      (inst : Inst K) (n : ℕ) (choices : List ℕ) (pin : List Bool)
      (then_pins : List ℕ → List Bool → Option (List Pin))
      → IsReady inst
      → length choices ≡ (if is_select inst.kind then suc n else n)
      → length pin ≡ (if is_select inst.kind then suc n else n)
      → ((choices' : List ℕ) (pin' : List Bool)
          → length choices' ≡ n
          → length pin' ≡ n
          → (qs : List Pin) × (then_pins choices' pin' ≡ some qs) × AreBelow m qs)
      → (qs : List Pin) × (pins_step (is_select inst.kind) (ins_of p inst) choices pin then_pins
          ≡ some qs)
        × AreBelow m qs
  step_total inst n choices pin then_pins (rs, e, below, arms) hc hp all =
      elim (Bool-cases (is_select inst.kind)) [
        | inr s ↦
            let (qs, e', b) =
              all choices pin (subst (λ b. length choices ≡ (if b then suc n else n)) s hc)
                (subst (λ b. length pin ≡ (if b then suc n else n)) s hp) in
            (none ∷ qs, rw s (rw e' refl), AreBelow-cons m none qs (λ r k. cc) b)
        | inl s ↦
            let hc' = subst (λ b. length choices ≡ (if b then suc n else n)) s hc in
            let hp' = subst (λ b. length pin ≡ (if b then suc n else n)) s hp in
            let (c, t, f, same) = subst (λ k. HasArms p k rs) (is_select-eq inst.kind s) arms in
            let bs = subst (All (IsBelow m)) same below in
            let (qs, e', b) =
              all (rest_of choices) (rest_of pin) (length-rest choices n hc')
                (length-rest pin n hp') in
            rw s (
              rw e (
                rw same (
                  pin_select_total m c t f choices pin n (then_pins (rest_of choices) (rest_of pin))
                    qs bs.0 bs.1.0 bs.1.1.0 hc' hp' e' b)))
      ]

  pins_from_total :
      (first : ℕ) (insts : List (Inst K)) (choices : List ℕ) (pin : List Bool)
      → ((i : ℕ) (inst : Inst K) → get_elem? insts i ≡ some inst → IsReady inst)
      → length choices ≡ count_selects (drop first insts)
      → length pin ≡ count_selects (drop first insts)
      → (qs : List Pin) × (pins_from p first insts choices pin ≡ some qs) × AreBelow m qs
  unfolding pins_from
  pins_from_total first [] choices pin ready hc hp = ([], refl, λ i q k. cc)
  pins_from_total zero (inst ∷ insts) choices pin ready hc hp =
      step_total inst (count_selects insts) choices pin (pins_from p zero insts) (ready 0 inst refl)
        hc hp
        (λ choices' pin' hc' hp'.
          pins_from_total zero insts choices' pin' (λ i inst' e. ready (suc i) inst' e) hc' hp')
  pins_from_total (suc first) (inst ∷ insts) choices pin ready hc hp =
      let (qs, e, b) =
        pins_from_total first insts choices pin (λ i inst' e. ready (suc i) inst' e) hc hp in
      (none ∷ qs, rw e refl, AreBelow-cons m none qs (λ r k. cc) b)

module _ {K : Field} (p : Program K) (w : IsProgram p) where
  ready :
      (i : ℕ) (inst : Inst K) → get_elem? p.insts i ≡ some inst → IsReady p (length p.insts) inst
  ready i inst e =
      let (rs, e', older, arms) = w.ordered i inst e in
      (
        rs,
        e',
        All-imp rs
            (λ r o.
              IsOlder-IsBelow p (length p.insts) r
                (IsOlder-imp p i (length p.insts) r (omega (arith, get_elem?-lt p.insts i e)) o))
            older,
        arms,
      )

  pub ins-IsBelow : (i : ℕ) → All (IsBelow (length p.insts)) (reads none (ins p i))
  unfolding ins Option.bind
  ins-IsBelow i = at (get_elem? p.insts i) refl
    where
      at :
          (o : Option (Inst K))
          → get_elem? p.insts i ≡ o
          → All (IsBelow (length p.insts)) (reads none (Option.bind o (ins_of p)))
      at none e = tt
      at (some inst) e = let (rs, e', below, _) = ready i inst e in rw e' below

  next-IsBelow :
      (pinned : List Pin) (i : ℕ)
      → AreBelow (length p.insts) pinned
      → All (IsBelow (length p.insts)) (next p pinned i)
  next-IsBelow pinned i b = elim (Option-cases (pin_at pinned i)) [
    | inl e ↦ rw e (ins-IsBelow i)
    | inr (q, e) ↦ rw e ((b i q e).0, ((b i q e).1, tt))
  ]

  pub shorten_total :
      (pinned : List Pin) (first : ℕ)
      → AreBelow (length p.insts) pinned
      → (s : Specialized K) × (shorten p pinned first ≡ some s)
  unfolding shorten live_marks
  shorten_total pinned first b =
      let (live, e, _) =
        reach_total (next p pinned) (length p.insts) p.roots (λ i. next-IsBelow pinned i b)
          (All-imp p.roots (λ r o. IsOlder-IsBelow p (length p.insts) r o) w.roots) in
      (
        shortened p pinned (collect (resolve p pinned) pinned live first p.insts 0 no_watch),
        rw e refl,
      )

  pub specialize_total :
      (choices : List ℕ) (pin : List Bool)
      → length choices ≡ count_selects p.insts
      → length pin ≡ count_selects p.insts
      → (s : Specialized K) × (specialize p choices pin ≡ some s)
  unfolding specialize pins Option.bind
  specialize_total choices pin hc hp =
      let (qs, e, b) = pins_from_total p (length p.insts) 0 p.insts choices pin ready hc hp in
      let (s, e') = shorten_total qs 0 b in
      (
        s,
        rw ((==_iff (length choices) (count_selects p.insts)).1 hc)
            (rw ((==_iff (length pin) (count_selects p.insts)).1 hp) (rw e e')),
      )

lengths-cases :
    (n : ℕ) (choices : List ℕ) (pin : List Bool)
    → lengths_match n choices pin ≡ true
    → (length choices ≡ n) × (length pin ≡ n)
lengths-cases n choices pin h = both (length choices == n) (length pin == n) refl refl h
  where
    both :
        (a b : Bool)
        → (length choices == n) ≡ a
        → (length pin == n) ≡ b
        → a && b ≡ true
        → (length choices ≡ n) × (length pin ≡ n)
    both true true e e' k = ((==_iff (length choices) n).0 e, (==_iff (length pin) n).0 e')
    both true false e e' k = cc
    both false b e e' k = cc

module _ {K : Field} (p : Program K) (w : IsProgram p) where
  -- For a program in dependency order, `specialize` gives a shortened program exactly when the
  -- trace and the mask have one entry per select of the program, and panics otherwise.
  pub specialize_iff :
      (choices : List ℕ) (pin : List Bool)
      → ((s : Specialized K) × (specialize p choices pin ≡ some s))
        ↔ ((length choices ≡ count_selects p.insts) × (length pin ≡ count_selects p.insts))
  unfolding specialize
  specialize_iff choices pin = (
    λ (s, e). asserted (lengths_match (count_selects p.insts) choices pin) _ refl e,
    λ (hc, hp). specialize_total p w choices pin hc hp,
  )
    where
      asserted :
          (b : Bool) (o : Option (Specialized K)) {s : Specialized K}
          → lengths_match (count_selects p.insts) choices pin ≡ b
          → (if b then o else none) ≡ some s
          → (length choices ≡ count_selects p.insts) × (length pin ≡ count_selects p.insts)
      asserted true o e k = lengths-cases (count_selects p.insts) choices pin e
      asserted false o e k = cc
