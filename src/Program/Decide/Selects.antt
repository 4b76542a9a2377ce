-- ===== src/Program/Decide/Selects.antt =====
-- The selects that `Tape::param_selects` of crates/rsdag/src/tape/specialize.rs finds.
use mathlib.Core.Option
use rsdag.Prelude.{
  ℕ, zero, suc, ◌+◌, ◌≡◌, refl, ap, subst, Bool, true, false, Option, none, some, List, [], ◌∷◌,
  ◌⊎◌, inl, inr, length, get_or, get_elem?, get_elem?-append, get_elem?-append_end, set,
  if◌then◌else◌, arith, Option-cases, Bool-cases, All, All-imp, All-append, not, ◌&&◌, ◌==◌,
}
use rsdag.Field.{Field}
use rsdag.Program.{Ref, Inst, Program, ins, is_select}
use rsdag.Program.Specialize.{same_ref}
use rsdag.Program.Specialize.Collect.{same_ref-eq}
use rsdag.Program.Specialize.Agree.{some_inj}
use rsdag.Program.Specialize.Whole.{bind_some, map-some}
use rsdag.Program.Decide.{
  ParamSelects, no_selects, position, add_select, pure_ref, gather_select, gather_one, gather,
  param_selects, is_empty, any,
}

-- A select and its condition.
abbrev pub IsSelectOf : {K : Field} → Program K → ParamSelects → ℕ × ℕ → Type 0
IsSelectOf p ps (i, k) =
    (c : Ref) × (get_elem? ps.conds k ≡ some c)
    × (inst : Inst _) × (get_elem? p.insts i ≡ some inst)
    × (is_select inst.kind ≡ true)
    × (rest : List Ref) × (ins p i ≡ some (c ∷ rest))

position-get :
    (conds : List Ref) (c : Ref) {k : ℕ} → position conds c ≡ some k → get_elem? conds k ≡ some c
unfolding position
position-get [] c h = cc
position-get (d ∷ conds) c {k} h = elim (Bool-cases (same_ref d c)) [
  | inl e ↦
      subst (λ j. get_elem? (d ∷ conds) j ≡ some c)
        (some_inj
          (subst (λ b. (if b then some 0 else Option.map suc (position conds c)) ≡ some k) e h))
        (ap some (same_ref-eq d c e))
  | inr e ↦
      let (j, at, same) =
        map-some (position conds c) suc
          (subst (λ b. (if b then some 0 else Option.map suc (position conds c)) ≡ some k) e h) in
      subst (λ j. get_elem? (d ∷ conds) j ≡ some c) same (position-get conds c at)
]

pub get_or-set :
    (arm : List (Option Ref)) (i j : ℕ) (a b : Ref)
    → get_or (set i (some a) arm) j none ≡ some b
    → ((j ≡ i) × (a ≡ b)) ⊎ (get_or arm j none ≡ some b)
unfolding set
get_or-set [] i j a b h = cc
get_or-set (x ∷ arm) zero zero a b h = inl (refl, some_inj h)
get_or-set (x ∷ arm) zero (suc j) a b h = inr h
get_or-set (x ∷ arm) (suc i) zero a b h = inr h
get_or-set (x ∷ arm) (suc i) (suc j) a b h = elim (get_or-set arm i j a b h) [
  | inl (e, e') ↦ inl (ap suc e, e')
  | inr e ↦ inr e
]

module _ {K : Field} (p : Program K) where
  add_select-All :
      (i : ℕ) (c : Ref) (ps : ParamSelects) (inst : Inst K) (rest : List Ref)
      → get_elem? p.insts i ≡ some inst
      → is_select inst.kind ≡ true
      → ins p i ≡ some (c ∷ rest)
      → All (IsSelectOf p ps) ps.of
      → All
          (IsSelectOf p (add_select (position ps.conds c) i c ps))
          (add_select (position ps.conds c) i c ps).of
  add_select-All i c ps inst rest e s e' all = elim (Option-cases (position ps.conds c)) [
    | inr (k, at) ↦ rw at (
        All-append (IsSelectOf p ps) ps.of ((i, k) ∷ []) all
          ((c, position-get ps.conds c at, inst, e, s, rest, e'), tt))
    | inl at ↦ rw at (
        All-append (IsSelectOf p (add_select none i c ps)) ps.of ((i, length ps.conds) ∷ [])
          (All-imp ps.of
            (λ (j, k) (d, h, more0, more1, more2, more3, more4).
              (d, get_elem?-append ps.conds (c ∷ []) k h, more0, more1, more2, more3, more4))
            all)
          ((c, get_elem?-append_end ps.conds c [], inst, e, s, rest, e'), tt))
  ]

  gather_one-All :
      (pure_inputs : List Bool) (inst : Inst K) (i : ℕ) (ps ps' : ParamSelects)
      → get_elem? p.insts i ≡ some inst
      → gather_one p pure_inputs inst i ps ≡ some ps'
      → All (IsSelectOf p ps) ps.of
      → All (IsSelectOf p ps') ps'.of
  gather_one-All pure_inputs inst i ps ps' e h all = at (is_select inst.kind) refl h
    where
      kept :
          (x : ParamSelects)
          → some x ≡ some ps'
          → All (IsSelectOf p x) x.of
          → All (IsSelectOf p ps') ps'.of
      kept x q a = subst (λ (x : ParamSelects). All (IsSelectOf p x) x.of) (some_inj q) a

      operands :
          (o : Option (List Ref))
          → is_select inst.kind ≡ true
          → ins p i ≡ o
          → gather_select p pure_inputs i o ps ≡ some ps'
          → All (IsSelectOf p ps') ps'.of
      operands none s q k = cc
      operands (some []) s q k = cc
      operands (some (c ∷ rest)) s q k = chosen (pure_ref p pure_inputs c) k
        where
          chosen :
              (b : Bool)
              → some (if b then add_select (position ps.conds c) i c ps else ps) ≡ some ps'
              → All (IsSelectOf p ps') ps'.of
          chosen true k =
              kept (add_select (position ps.conds c) i c ps) k
                (add_select-All i c ps inst rest e s q all)
          chosen false k = kept ps k all

      at :
          (b : Bool)
          → is_select inst.kind ≡ b
          → (if b then gather_select p pure_inputs i (ins p i) ps else some ps) ≡ some ps'
          → All (IsSelectOf p ps') ps'.of
      at false s k = kept ps k all
      at true s k = operands (ins p i) s refl k

  gather-All :
      (pure_inputs : List Bool) (insts : List (Inst K)) (i : ℕ) (ps ps' : ParamSelects)
      → ((j : ℕ) (inst : Inst K)
          → get_elem? insts j ≡ some inst
          → get_elem? p.insts (i + j) ≡ some inst)
      → gather p pure_inputs insts i ps ≡ some ps'
      → All (IsSelectOf p ps) ps.of
      → All (IsSelectOf p ps') ps'.of
  unfolding gather
  gather-All pure_inputs [] i ps ps' at h all =
      subst (λ (x : ParamSelects). All (IsSelectOf p x) x.of) (some_inj h) all
  gather-All pure_inputs (inst ∷ insts) i ps ps' at h all =
      let (ps'', e, e') = bind_some (gather_one p pure_inputs inst i ps) _ h in
      gather-All pure_inputs insts (suc i) ps'' ps'
        (λ j inst' k.
          subst (λ n. get_elem? p.insts n ≡ some inst') (add_suc i j) (at (suc j) inst' k))
        e'
        (gather_one-All pure_inputs inst i ps ps''
          (subst (λ n. get_elem? p.insts n ≡ some inst) (add_zero i) (at 0 inst refl)) e all)
    where
      add_zero : (i : ℕ) → i + 0 ≡ i
      add_zero i = omega arith

      add_suc : (i j : ℕ) → i + suc j ≡ suc i + j
      add_suc i j = omega arith

  -- Every select that `param_selects` finds is one, with its condition.
  pub param_selects-All :
      (prolog_ops : ℕ) (pure_inputs : List Bool) (ps : ParamSelects)
      → param_selects p prolog_ops pure_inputs ≡ some (some ps)
      → All (IsSelectOf p ps) ps.of
  unfolding param_selects
  param_selects-All prolog_ops pure_inputs ps h =
      let (found, e, same) =
        map-some (gather p pure_inputs p.insts 0 no_selects)
          (λ (x : ParamSelects). if is_empty x.of then none else some x)
          (split ((prolog_ops == 0) && not (any pure_inputs)) h) in
      subst (λ (x : ParamSelects). All (IsSelectOf p x) x.of) (nonempty (is_empty found.of) same)
        (gather-All pure_inputs p.insts 0 no_selects found
          (λ j inst k. subst (λ n. get_elem? p.insts n ≡ some inst) (zero_add j) k) e tt)
    where
      zero_add : (j : ℕ) → j ≡ 0 + j
      zero_add j = omega arith

      split :
          (b : Bool) {o : Option (Option ParamSelects)}
          → (if b then some none else o) ≡ some (some ps)
          → o ≡ some (some ps)
      split true k = cc
      split false k = k

      nonempty : (b : Bool) {x : ParamSelects} → (if b then none else some x) ≡ some ps → x ≡ ps
      nonempty true k = cc
      nonempty false k = cc
