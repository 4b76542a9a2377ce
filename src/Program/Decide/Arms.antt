-- ===== src/Program/Decide/Arms.antt =====
-- The arms that `ParamSelects::arms` of crates/rsdag/src/tape/specialize.rs decides selects to.
use mathlib.Core.Option
use rsdag.Prelude.{
  ℕ, zero, suc, ◌≡◌, refl, sym, ◌∙◌, ap, subst, Bool, Option, none, some, List, [], ◌∷◌, inl, inr,
  map, get_or, get_elem?, set, if◌then◌else◌, All,
}
use rsdag.Field.{Field}
use rsdag.Program.{Ref, Inst, Program, ins, ins_of}
use rsdag.Program.Specialize.{Pinned, byte}
use rsdag.Program.Specialize.Pins.{IsPin}
use rsdag.Program.Specialize.Agree.{some_inj}
use rsdag.Program.Specialize.Whole.{bind_some}
use rsdag.Program.Decide.{ParamSelects, picked, no_arms, arms_from, arms}
use rsdag.Program.Decide.Selects.{IsSelectOf, get_or-set}

module _ {K : Field} (p : Program K) where
  -- The arm that a truth of the conditions picks.
  abbrev pub IsArm : (Ref → Bool) → ℕ → Ref → Type 0
  IsArm truth i a =
      (q : Pinned) × (inst : Inst K) × (get_elem? p.insts i ≡ some inst)
      × IsPin p truth inst q
      × (q.arm ≡ a)

  pub get-map :
      {A B : Type 0} (f : A → B) (xs : List A) (k : ℕ) {a : A}
      → get_elem? xs k ≡ some a
      → get_elem? (map f xs) k ≡ some (f a)
  get-map f [] k h = cc
  get-map f (x ∷ xs) zero h = ap some (ap f (some_inj h))
  get-map f (x ∷ xs) (suc k) h = get-map f xs k h

  picked_cases :
      (o : Option (List Ref)) (b : Option Bool) {a : Ref}
      → picked o b ≡ some a
      → (c : Ref) × (t : Ref) × (e : Ref) × (rest : List Ref) × (o ≡ some (c ∷ t ∷ e ∷ rest))
        × (truth : Bool) × (b ≡ some truth)
        × (a ≡ (if truth then t else e))
  picked_cases none b h = cc
  picked_cases (some []) b h = cc
  picked_cases (some (c ∷ [])) b h = cc
  picked_cases (some (c ∷ t ∷ [])) b h = cc
  picked_cases (some (c ∷ t ∷ e ∷ rest)) none h = cc
  picked_cases (some (c ∷ t ∷ e ∷ rest)) (some b) h =
      (c, t, e, rest, refl, b, refl, sym (some_inj h))

  ins_at :
      (i : ℕ) (inst : Inst K) {rs : List Ref}
      → get_elem? p.insts i ≡ some inst
      → ins p i ≡ some rs
      → ins_of p inst ≡ some rs
  unfolding ins Option.bind
  ins_at i inst {rs} e h = subst (λ o. Option.bind o (ins_of p) ≡ some rs) e h

  -- One select with its arm picked by the pattern of the conditions' truths.
  picked-IsArm :
      (truth : Ref → Bool) (ps : ParamSelects) (i k : ℕ) (a : Ref)
      → IsSelectOf p ps (i, k)
      → picked (ins p i) (get_elem? (map truth ps.conds) k) ≡ some a
      → IsArm truth i a
  picked-IsArm truth ps i k a (c, at, inst, e, s, rest, e') h =
      let (c', t, f, rest', o, b, eb, ea) =
        picked_cases (ins p i) (get_elem? (map truth ps.conds) k) h in
      (
        record { cond = c'; arm = if truth c' then t else f; choice = byte (truth c') },
        inst,
        e,
        record {
          select = s;
          then_arm = t;
          else_arm = f;
          others = rest';
          operands = ins_at i inst e o;
          choice = refl;
          arm = refl;
        },
        sym (
            ea
            ∙ ap (λ b. if b then t else f)
                (some_inj (sym eb ∙ get-map truth ps.conds k at)
                  ∙ ap truth (same_head (some_inj (sym e' ∙ o))))),
      )
    where
      same_head : {x y : Ref} {xs ys : List Ref} → x ∷ xs ≡ y ∷ ys → x ≡ y
      same_head q = cc

  abbrev pub AreArms : (Ref → Bool) → List (Option Ref) → Type 0
  AreArms truth arm = (i : ℕ) (a : Ref) → get_or arm i none ≡ some a → IsArm truth i a

  AreArms-set :
      (truth : Ref → Bool) (arm : List (Option Ref)) (i : ℕ) (a : Ref)
      → IsArm truth i a
      → AreArms truth arm
      → AreArms truth (set i (some a) arm)
  AreArms-set truth arm i a here all j b h = elim (get_or-set arm i j a b h) [
    | inr old ↦ all j b old
    | inl (at, same) ↦ subst (λ n. IsArm truth n b) (sym at) (subst (IsArm truth i) same here)
  ]

  -- Every arm is what the select takes where the conditions take the pattern.
  pub arms_from-IsArm :
      (truth : Ref → Bool) (ps : ParamSelects) (of : List (ℕ × ℕ)) (arm arm' : List (Option Ref))
      → arms_from p (map truth ps.conds) of arm ≡ some arm'
      → All (IsSelectOf p ps) of
      → AreArms truth arm
      → AreArms truth arm'
  unfolding arms_from
  arms_from-IsArm truth ps [] arm arm' h all are = subst (AreArms truth) (some_inj h) are
  arms_from-IsArm truth ps ((i, k) ∷ of) arm arm' h all are =
      let (a, e, e') = bind_some (picked (ins p i) (get_elem? (map truth ps.conds) k)) _ h in
      arms_from-IsArm truth ps of (set i (some a) arm) arm' e' all.1
        (AreArms-set truth arm i a (picked-IsArm truth ps i k a all.0 e) are)

  pub no_arms-none :
      (insts : List (Inst K)) (i : ℕ) (a : Ref) → get_or (no_arms insts) i none ≡ some a → ⊥
  no_arms-none [] i a h = cc
  no_arms-none (x ∷ insts) zero a h = cc
  no_arms-none (x ∷ insts) (suc i) a h = no_arms-none insts i a h

  pub arms-IsArm :
      (truth : Ref → Bool) (ps : ParamSelects) (arm : List (Option Ref))
      → All (IsSelectOf p ps) ps.of
      → arms p ps (map truth ps.conds) ≡ some arm
      → AreArms truth arm
  unfolding arms
  arms-IsArm truth ps arm all h =
      arms_from-IsArm truth ps ps.of (no_arms p.insts) arm h all
        (λ i a e. elim (no_arms-none p.insts i a e) [ ])
