-- ===== src/Tape/Lift/Ordered.antt =====
-- The dependency order of the program that a tape lifts to, crates/rsdag/src/tape/compile.rs.
use rsdag.Prelude.{
  ℕ, suc, ◌+◌, ◌-◌, ◌<◌, ◌≤◌, ◌≡◌, refl, sym, ◌∙◌, ap, subst, true, false, some, List, [], ◌∷◌,
  length, get_elem?, fill, fill_cases, arith, All, ◌⊎◌, inl, inr,
}
use rsdag.Field.{Field}
use rsdag.Program.{Ref, Kind, Program, kind_at, IsOlder, is_select}
use rsdag.Program.Specialize.{u32_max}
use rsdag.Program.Specialize.Agree.{some_inj}
use rsdag.Program.Specialize.Whole.{bind_some, map-some}
use rsdag.Tape.{Op, Tape, width, kind_of}
use rsdag.Tape.Run.{read_all}
use rsdag.Tape.Lift.{value_at}
use rsdag.Tape.Lift.Held.{value_at_cases, none_at}
use rsdag.Tape.Lift.Kept.{is_prolog, chooses, kind_of-is_select}

module _ {K : Field} (t : Tape K) (p : Program K) where
  -- The slot `k` stands in the block of op `j`, an op below `i`.
  abbrev pub IsPlaced : ℕ → ℕ → ℕ → Type 0
  IsPlaced i k j =
      (d : ℕ) × (op : Op K) × (j < i)
      × (get_elem? t.dst j ≡ some d)
      × (get_elem? t.ops j ≡ some op)
      × (d ≤ k)
      × (k < d + width t op)

  -- The slots stand in the blocks of the ops below `i`, whose instructions are of their kinds.
  pub record Places (i : ℕ) (held : List ℕ) : Type 0 where
    pub slots : (k j : ℕ) → get_elem? held k ≡ some j → (j ≡ u32_max) ⊎ IsPlaced i k j
    pub kinds :
        (j : ℕ) (op : Op K)
        → j < i
        → get_elem? t.ops j ≡ some op
        → (k : Kind K) × (kind_at p j ≡ some k) × (kind_of t op ≡ some k)

  pub Places-step :
      (i d : ℕ) (held : List ℕ) (op : Op K) (k : Kind K)
      → Places i held
      → get_elem? t.ops i ≡ some op
      → get_elem? t.dst i ≡ some d
      → kind_at p i ≡ some k
      → kind_of t op ≡ some k
      → Places (suc i) (fill i d (width t op) held)
  Places-step i d held op k h at_op at_dst at kind = record {
    slots = λ k j e. elim (fill_cases i d (width t op) held k e) [
      | inl (lo, hi, same) ↦
          inr (subst (IsPlaced (suc i) k) same (d, op, omega arith, at_dst, at_op, lo, hi))
      | inr (_, e') ↦ elim (h.slots k j e') [
        | inl u ↦ inl u
        | inr (d', op', lt, at', at_op', lo, hi) ↦ inr (d', op', omega arith, at', at_op', lo, hi)
      ]
    ];
    kinds = λ j o lt e. kinded j o (less_cases j i lt) e;
  }
    where
      less_cases : (a b : ℕ) → a < suc b → (a < b) ⊎ (b ≡ a)
      less_cases a b lt = grind arith

      kinded :
          (j : ℕ) (o : Op K)
          → (j < i) ⊎ (i ≡ j)
          → get_elem? t.ops j ≡ some o
          → (k : Kind K) × (kind_at p j ≡ some k) × (kind_of t o ≡ some k)
      kinded j o (inl lt) e = h.kinds j o lt e
      kinded j o (inr same) e =
          subst
            (λ j.
              get_elem? t.ops j ≡ some o
              → (k : Kind K) × (kind_at p j ≡ some k) × (kind_of t o ≡ some k))
            same (λ e'. (k, at, subst (λ o. kind_of t o ≡ some k) (some_inj (sym at_op ∙ e')) kind))
            e

  chooses-width : (op : Op K) → chooses t op ≡ true → width t op ≡ 1
  unfolding width
  chooses-width (Op.select c a b) h = refl
  chooses-width _ h = cc

  pub prolog-chooses : (op : Op K) → is_prolog op ≡ true → chooses t op ≡ false
  prolog-chooses (Op.call_prolog b start n_groups n_pure args) h = refl
  prolog-chooses _ h = cc

  module _ (few : length t.dst ≤ u32_max) where
    pub placed :
        (i k j d : ℕ) → (j ≡ u32_max) ⊎ IsPlaced i k j → get_elem? t.dst j ≡ some d → IsPlaced i k j
    placed i k j d (inl u) at =
        let bad : ⊥ = none_at t.dst u32_max few (subst (λ n. get_elem? t.dst n ≡ some d) u at) in
        elim bad [ ]
    placed i k j d (inr h) at = h

    -- A slot's reference is an older instruction's value.
    value_at-IsOlder :
        (i : ℕ) (held : List ℕ) (k : ℕ) (r : Ref)
        → Places i held
        → value_at t held k ≡ some r
        → IsOlder p i r
    unfolding is_select
    value_at-IsOlder i held k r h e = elim (value_at_cases t held k r e) [
      | inl (j, _, same) ↦ subst (IsOlder p i) same tt
      | inr (_, (j, d, at, at', same)) ↦
          let (d', op, lt, at_dst, at_op, lo, hi) = placed i k j d (h.slots k j at) at' in
          let (kind, at_kind, computes) = h.kinds j op lt at_op in
          subst (IsOlder p i) same (
            lt,
            λ select. one_slot k d d' (width t op) lo hi (some_inj (sym at_dst ∙ at')) (
                chooses-width op (
                  sym (kind_of-is_select t op kind computes)
                  ∙ selected (some_inj (sym at_kind ∙ select)))),
          )
    ]
      where
        one_slot : (k d d' w : ℕ) → d' ≤ k → k < d' + w → d' ≡ d → w ≡ 1 → k - d ≡ 0
        one_slot k d d' w lo hi e e' = omega arith

        selected : {k : Kind K} → k ≡ Kind.select → is_select k ≡ true
        selected e = ap is_select e

    pub read_all-All :
        (i : ℕ) (held : List ℕ) (ns : List ℕ) (rs : List Ref)
        → Places i held
        → read_all (value_at t held) ns ≡ some rs
        → All (IsOlder p i) rs
    unfolding read_all
    read_all-All i held [] rs h e = subst (All (IsOlder p i)) (some_inj e) tt
    read_all-All i held (n ∷ ns) rs h e =
        let (r, er, m) = bind_some _ _ e in
        let (rs', ers, same) = map-some _ _ m in
        subst (All (IsOlder p i)) same
          (value_at-IsOlder i held n r h er, read_all-All i held ns rs' h ers)
