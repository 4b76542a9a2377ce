-- ===== src/Program/Specialize/Guards.antt =====
-- All the rounds of the loop of `Tape::shorten`, crates/rsdag/src/tape/specialize.rs, that collects the
-- guards.
use rsdag.Prelude.{
  ℕ, zero, suc, ◌+◌, ◌≤◌, ◌≡◌, refl, ◌∙◌, ap, subst, Bool, true, false, none, some, List, [], ◌∷◌,
  inl, inr, get_or, get_elem?, if◌then◌else◌, arith, Option-cases, All, All-append,
}
use rsdag.Field.{Field}
use rsdag.Program.{Ref, Inst, is_select}
use rsdag.Program.Specialize.{Pinned, Pin, Watch, lookup, pin_at, watch, collect}
use rsdag.Program.Specialize.Collect.{IsWatch, IsGuard, Grows, watch-IsWatch}

module _ (f : Ref → ℕ) (res : Ref → Ref) (pinned : List Pin) (live : List Bool) where
  -- What one instruction adds, and then the others.
  step-IsWatch :
      (b : Bool) (i : ℕ) (w : Watch)
      → ((j : ℕ) (q : Pinned) → pin_at pinned j ≡ some q → q.choice ≡ f (res q.cond))
      → IsWatch f w
      → IsWatch f (if b then watch res (get_or live i false) (pin_at pinned i) w else w)
        × Grows w (if b then watch res (get_or live i false) (pin_at pinned i) w else w)
        × ((q : Pinned)
            → b ≡ true
            → get_or live i false ≡ true
            → pin_at pinned i ≡ some q
            → IsGuard
                (if b then watch res (get_or live i false) (pin_at pinned i) w else w)
                (res q.cond)
                q.choice)
  step-IsWatch true i w c h =
      let (a, b, e) = watch-IsWatch f res (get_or live i false) (pin_at pinned i) w (c i) h in
      (a, b, λ q _. e q)
  step-IsWatch false i w c h = (h, λ r e k. k, λ q k. cc)

module _ {K : Field} (f : Ref → ℕ) (res : Ref → Ref) (pinned : List Pin) (live : List Bool) where
  -- The live pinned selects from the instruction `i` on, the first ones skipped, have guards.
  abbrev pub Covers : ℕ → List (Inst K) → ℕ → Watch → Type 0
  Covers first insts i w =
      (j : ℕ) (inst : Inst K) (q : Pinned)
      → first ≤ j
      → get_elem? insts j ≡ some inst
      → is_select inst.kind ≡ true
      → get_or live (i + j) false ≡ true
      → pin_at pinned (i + j) ≡ some q
      → IsGuard w (res q.cond) q.choice

  Covers-skip :
      (first : ℕ) (inst : Inst K) (insts : List (Inst K)) (i : ℕ) (w : Watch)
      → Covers first insts (suc i) w
      → Covers (suc first) (inst ∷ insts) i w
  Covers-skip first inst insts i w all zero inst' q le e s l k = elim le [ ]
  Covers-skip first inst insts i w all (suc j) inst' q le e s l k =
      all j inst' q (omega (arith, le)) e s
        (subst (λ n. get_or live n false ≡ true) (add_suc i j) l)
        (subst (λ n. pin_at pinned n ≡ some q) (add_suc i j) k)
    where
      add_suc : (i j : ℕ) → i + suc j ≡ suc i + j
      add_suc i j = omega arith

  Covers-cons :
      (inst : Inst K) (insts : List (Inst K)) (i : ℕ) (w w' : Watch)
      → Grows w w'
      → ((q : Pinned)
          → is_select inst.kind ≡ true
          → get_or live i false ≡ true
          → pin_at pinned i ≡ some q
          → IsGuard w (res q.cond) q.choice)
      → Covers zero insts (suc i) w'
      → Covers zero (inst ∷ insts) i w'
  Covers-cons inst insts i w w' grows here all zero inst' q le e s l k =
      grows (res q.cond) q.choice (
        here q (ap (λ (x : Inst K). is_select x.kind) (some_inj e) ∙ s)
          (subst (λ n. get_or live n false ≡ true) (add_zero i) l)
          (subst (λ n. pin_at pinned n ≡ some q) (add_zero i) k))
    where
      some_inj : {x y : Inst K} → some x ≡ some y → x ≡ y
      some_inj p = cc

      add_zero : (i : ℕ) → i + 0 ≡ i
      add_zero i = omega arith
  Covers-cons inst insts i w w' grows here all (suc j) inst' q le e s l k =
      all j inst' q (omega arith) e s (subst (λ n. get_or live n false ≡ true) (add_suc i j) l)
        (subst (λ n. pin_at pinned n ≡ some q) (add_suc i j) k)
    where
      add_suc : (i j : ℕ) → i + suc j ≡ suc i + j
      add_suc i j = omega arith

  -- The loop over all the instructions.
  pub collect-Covers :
      (first : ℕ) (insts : List (Inst K)) (i : ℕ) (w : Watch)
      → ((j : ℕ) (q : Pinned) → pin_at pinned j ≡ some q → q.choice ≡ f (res q.cond))
      → IsWatch f w
      → IsWatch f (collect res pinned live first insts i w)
        × Grows w (collect res pinned live first insts i w)
        × Covers first insts i (collect res pinned live first insts i w)
  unfolding collect
  collect-Covers first [] i w c h = (h, λ r e k. k, λ j inst q le e. cc)
  collect-Covers (suc first) (inst ∷ insts) i w c h =
      let (a, b, e) = collect-Covers first insts (suc i) w c h in
      (a, b, Covers-skip first inst insts i (collect res pinned live first insts (suc i) w) e)
  collect-Covers zero (inst ∷ insts) i w c h =
      let w' =
        if is_select inst.kind then watch res (get_or live i false) (pin_at pinned i) w else w in
      let (a, b, e) = step-IsWatch f res pinned live (is_select inst.kind) i w c h in
      let (a', b', e') = collect-Covers zero insts (suc i) w' c a in
      (
        a',
        λ r n k. b' r n (b r n k),
        Covers-cons inst insts i w' (collect res pinned live zero insts (suc i) w') b' e e',
      )

module _ (P : Ref → Type 0) (res : Ref → Ref) where
  watch-All :
      (live : Bool) (q : Pin) (w : Watch)
      → ((r : Pinned) → live ≡ true → q ≡ some r → P (res r.cond))
      → All P w.guards
      → All P (watch res live q w).guards
  unfolding watch
  watch-All true (some q) w here all = elim (Option-cases (lookup w.guard (res q.cond))) [
    | inl e ↦ rw e (All-append P w.guards (res q.cond ∷ []) all (here q refl refl, tt))
    | inr (g, e) ↦ rw e all
  ]
  watch-All true none w here all = all
  watch-All false none w here all = all
  watch-All false (some q) w here all = all

  -- What holds of the conditions of the live pinned selects holds of the guards.
  pub collect-All :
      {K : Field} (pinned : List Pin) (live : List Bool) (first : ℕ) (insts : List (Inst K)) (i : ℕ)
      (w : Watch)
      → ((j : ℕ) (q : Pinned)
          → get_or live j false ≡ true
          → pin_at pinned j ≡ some q
          → P (res q.cond))
      → All P w.guards
      → All P (collect res pinned live first insts i w).guards
  unfolding collect
  collect-All pinned live first [] i w here all = all
  collect-All pinned live (suc first) (inst ∷ insts) i w here all =
      collect-All pinned live first insts (suc i) w here all
  collect-All pinned live zero (inst ∷ insts) i w here all =
      collect-All pinned live zero insts (suc i)
        (if is_select inst.kind then watch res (get_or live i false) (pin_at pinned i) w else w)
        here
        (step (is_select inst.kind)
          (watch-All (get_or live i false) (pin_at pinned i) w (here i) all))
    where
      step :
          (b : Bool)
          → All P (watch res (get_or live i false) (pin_at pinned i) w).guards
          → All P (if b then watch res (get_or live i false) (pin_at pinned i) w else w).guards
      step true k = k
      step false k = all
