-- ===== src/Program/Specialize/Pins.antt =====
-- The pins that `Tape::pins` of crates/rsdag/src/tape/specialize.rs reads from the trace of a run.
use rsdag.Prelude.{
  subst, ℕ, zero, suc, ◌≤◌, ◌≡◌, refl, sym, ap, Bool, true, false, Option, none, some, List, [],
  ◌∷◌, length, get_elem?, if◌then◌else◌, arith,
}
use rsdag.Field.{Field}
use rsdag.Program.{Ref, Inst, Program, ins_of, is_select}
use rsdag.Program.Specialize.{
  Pinned, Pin, byte, taken, pin_at, conses, pin_of, pinned_or_panic, rest_of, pin_select, pins_step,
  pins_from,
}

-- The truth of a select's condition as the trace records it.
abbrev pub choice_of : (Ref → Bool) → Option (List Ref) → ℕ
choice_of truth (some (c ∷ _)) = byte (truth c)
choice_of truth _ = 0

abbrev pub trace_step : Bool → ℕ → List ℕ → List ℕ
trace_step true c rest = c ∷ rest
trace_step false c rest = rest

module _ {K : Field} where
  -- One byte per select of the instructions, the first `first` skipped.
  unfoldable pub trace_from : Program K → (Ref → Bool) → ℕ → List (Inst K) → List ℕ
  trace_from p truth first [] = []
  trace_from p truth (suc first) (inst ∷ insts) = trace_from p truth first insts
  trace_from p truth zero (inst ∷ insts) =
      trace_step (is_select inst.kind) (choice_of truth (ins_of p inst))
        (trace_from p truth zero insts)

  -- What a pin says of its instruction.
  pub record IsPin (p : Program K) (truth : Ref → Bool) (inst : Inst K) (q : Pinned) : Type 0 where
    pub select : is_select inst.kind ≡ true
    pub then_arm : Ref
    pub else_arm : Ref
    pub others : List Ref
    pub operands : ins_of p inst ≡ some (q.cond ∷ then_arm ∷ else_arm ∷ others)
    pub choice : q.choice ≡ byte (truth q.cond)
    pub arm : q.arm ≡ (if truth q.cond then then_arm else else_arm)

  abbrev pub HasPin : Program K → (Ref → Bool) → ℕ → List (Inst K) → ℕ → Pinned → Type 0
  HasPin p truth first insts i q =
      (first ≤ i) × (inst : Inst K) × (get_elem? insts i ≡ some inst) × IsPin p truth inst q

conses-cases :
    (q : Pin) (o : Option (List Pin)) {pinned : List Pin}
    → conses q o ≡ some pinned
    → (qs : List Pin) × (o ≡ some qs) × (pinned ≡ q ∷ qs)
conses-cases q none h = cc
conses-cases q (some qs) h = (qs, refl, cc)

pub taken-byte : (b : Bool) → taken (byte b) ≡ b
taken-byte true = refl
taken-byte false = refl

module _ {K : Field} (p : Program K) (truth : Ref → Bool) where
  -- The select at hand: pinned as the mask says, to the arm that its condition takes.
  pin_select-IsPin :
      (inst : Inst K) (pin : List Bool) (choices : List ℕ) (rest : Option (List Pin))
      {pinned : List Pin}
      → is_select inst.kind ≡ true
      → pin_select (ins_of p inst) (choice_of truth (ins_of p inst) ∷ choices) pin rest
        ≡ some pinned
      → (q : Pin) × (qs : List Pin) × (pinned ≡ q ∷ qs)
        × (rest ≡ some qs)
        × ((r : Pinned) → q ≡ some r → IsPin p truth inst r)
  pin_select-IsPin inst [] choices rest s h = cc
  pin_select-IsPin inst (false ∷ pin) choices rest s h =
      let (qs, e, e') = conses-cases none rest h in (none, qs, e', e, λ r k. cc)
  pin_select-IsPin inst (true ∷ pin) choices rest s h = read (ins_of p inst) refl h
    where
      read :
          (o : Option (List Ref)) {pinned : List Pin}
          → ins_of p inst ≡ o
          → pinned_or_panic (pin_of o (choice_of truth o ∷ choices)) rest ≡ some pinned
          → (q : Pin) × (qs : List Pin) × (pinned ≡ q ∷ qs)
            × (rest ≡ some qs)
            × ((r : Pinned) → q ≡ some r → IsPin p truth inst r)
      read none e k = cc
      read (some []) e k = cc
      read (some (c ∷ [])) e k = cc
      read (some (c ∷ t ∷ [])) e k = cc
      read (some (c ∷ t ∷ f ∷ rs)) e k =
          let (qs, e', e'') = conses-cases (some _) rest k in
          (_, qs, e'', e', λ r same. is_pin r same)
        where
          is_pin :
              (r : Pinned)
              → some (record {
                cond = c;
                arm = if taken (byte (truth c)) then t else f;
                choice = byte (truth c);
              })
                ≡ some r
              → IsPin p truth inst r
          is_pin r same = subst (IsPin p truth inst) (some_inj same) (record {
            select = s;
            then_arm = t;
            else_arm = f;
            others = rs;
            operands = e;
            choice = refl;
            arm = rw (taken-byte (truth c)) refl;
          })
            where
              some_inj : {a b : Pinned} → some a ≡ some b → a ≡ b
              some_inj h = cc

  -- A pin of the other instructions, counted from the first of all.
  abbrev AllPins : ℕ → List (Inst K) → List Pin → Type 0
  AllPins first insts pinned =
      (length pinned ≡ length insts)
      × ((i : ℕ) (q : Pinned) → pin_at pinned i ≡ some q → HasPin p truth first insts i q)

  AllPins-skip :
      (first : ℕ) (inst : Inst K) (insts : List (Inst K)) (qs : List Pin)
      → AllPins first insts qs
      → AllPins (suc first) (inst ∷ insts) (none ∷ qs)
  AllPins-skip first inst insts qs (len, all) = (ap suc len, λ i q h. at i q h)
    where
      at :
          (i : ℕ) (q : Pinned)
          → pin_at (none ∷ qs) i ≡ some q
          → HasPin p truth (suc first) (inst ∷ insts) i q
      at zero q h = cc
      at (suc i) q h = let (le, x, e, k) = all i q h in (omega (arith, le), x, e, k)

  AllPins-cons :
      (inst : Inst K) (insts : List (Inst K)) (q : Pin) (qs : List Pin)
      → ((r : Pinned) → q ≡ some r → IsPin p truth inst r)
      → AllPins zero insts qs
      → AllPins zero (inst ∷ insts) (q ∷ qs)
  AllPins-cons inst insts q qs here (len, all) = (ap suc len, λ i r h. at i r h)
    where
      at :
          (i : ℕ) (r : Pinned) → pin_at (q ∷ qs) i ≡ some r → HasPin p truth zero (inst ∷ insts) i r
      at zero r h = (omega arith, inst, refl, here r h)
      at (suc i) r h = let (_, x, e, k) = all i r h in (omega arith, x, e, k)

  pins_step-AllPins :
      (b : Bool) (inst : Inst K) (insts : List (Inst K)) (trace : List ℕ) (pin : List Bool)
      (then_pins : List ℕ → List Bool → Option (List Pin)) {pinned : List Pin}
      → is_select inst.kind ≡ b
      → ((pin' : List Bool) (qs : List Pin)
          → then_pins trace pin' ≡ some qs
          → AllPins zero insts qs)
      → pins_step b
          (ins_of p inst)
          (trace_step b (choice_of truth (ins_of p inst)) trace)
          pin
          then_pins
        ≡ some pinned
      → AllPins zero (inst ∷ insts) pinned
  pins_step-AllPins true inst insts trace pin then_pins s all h =
      let (q, qs, e, e', here) =
        pin_select-IsPin inst pin trace (then_pins trace (rest_of pin)) s h in
      subst (AllPins zero (inst ∷ insts)) (sym e)
        (AllPins-cons inst insts q qs here (all (rest_of pin) qs e'))
  pins_step-AllPins false inst insts trace pin then_pins s all h =
      let (qs, e, e') = conses-cases none (then_pins trace pin) h in
      subst (AllPins zero (inst ∷ insts)) (sym e')
        (AllPins-cons inst insts none qs (λ r k. cc) (all pin qs e))

  -- Every pin is of a select past the first ones, and as the run took it.
  pub pins_from-HasPin :
      (first : ℕ) (insts : List (Inst K)) (pin : List Bool) {pinned : List Pin}
      → pins_from p first insts (trace_from p truth first insts) pin ≡ some pinned
      → AllPins first insts pinned
  unfolding pins_from trace_from
  pins_from-HasPin first [] pin h = subst (AllPins first []) (some_inj h) (refl, λ i q k. cc)
    where
      some_inj : {a b : List Pin} → some a ≡ some b → a ≡ b
      some_inj e = cc
  pins_from-HasPin (suc first) (inst ∷ insts) pin h =
      let (qs, e, e') = conses-cases none _ h in
      subst (AllPins (suc first) (inst ∷ insts)) (sym e')
        (AllPins-skip first inst insts qs (pins_from-HasPin first insts pin e))
  pins_from-HasPin zero (inst ∷ insts) pin h =
      pins_step-AllPins (is_select inst.kind) inst insts (trace_from p truth zero insts) pin
        (pins_from p zero insts) refl (λ pin' _ e. pins_from-HasPin zero insts pin' e) h
