-- ===== src/Tape/Lift/Kept.antt =====
-- The state that a call's prolog keeps for the call, as a lifted tape reads it: crates/rsdag/src/tape/compile.rs.
use rsdag.Prelude.{
  ℕ, suc, ◌+◌, ◌-◌, ◌<◌, ◌≡◌, sym, ◌∙◌, ap, Bool, true, false, Option, none, some, List, [], ◌∷◌,
  ◌++◌, get_elem?, ◌⊎◌, inl, inr, ◌==◌, not, if◌then◌else◌, fill,
}
use rsdag.Field.{Field}
use rsdag.Program.{Ref, Kind, is_select, is_stateful}
use rsdag.Program.Specialize.Agree.{some_inj}
use rsdag.Program.Specialize.Whole.{bind_some, map-some}
use rsdag.Tape.{
  Op, Tape, width, kind_of, state_slots, no_state, both_lists, state_operand, input_index,
}
use rsdag.Tape.Run.{read_all}
use rsdag.Tape.Lift.{value_at, accum_of}
use rsdag.Tape.Lift.Held.{value_at_cases}

-- The last operand of what is read last.
pub read_all-last :
    {A B : Type 0} (g : A → Option B) (ns : List A) (s : A) (rs : List B)
    → read_all g (ns ++ s ∷ []) ≡ some rs
    → (rs' : List B) × (r : B) × (rs ≡ rs' ++ r ∷ []) × (g s ≡ some r)
unfolding read_all
read_all-last g [] s rs h = let (r, e, m) = bind_some _ _ h in ([], r, sym (some_inj m), e)
read_all-last g (n ∷ ns) s rs h =
    let (v, _, m) = bind_some _ _ h in
    let (vs, e, same) = map-some _ _ m in
    let (rs', r, e', er) = read_all-last g ns s vs e in
    (v ∷ rs', r, sym same ∙ ap (λ xs. v ∷ xs) e', er)

pub listed_state :
    (o : Option (List ℕ)) (state : ℕ) {ns : List ℕ}
    → (state == no_state) ≡ false
    → both_lists o (some (state_operand state)) ≡ some ns
    → (ns' : List ℕ) × (ns ≡ ns' ++ state ∷ [])
listed_state none state is h = cc
listed_state (some ns') state is h =
    (ns', sym (some_inj h) ∙ ap (λ b. ns' ++ (if b then [] else state ∷ [])) is)

abbrev pub is_prolog : {K : Field} → Op K → Bool
is_prolog (Op.call_prolog _ _ _ _ _) = true
is_prolog _ = false

module _ {K : Field} (t : Tape K) where
  -- The slots from `state` on hold a block that a prolog's op wrote for as many groups.
  pub record IsKept (held : List ℕ) (b n_groups state : ℕ) : Type 0 where
    pub prolog : ℕ
    pub op : Op K
    pub is_slot : input_index state ≡ none
    pub at_op : get_elem? t.ops prolog ≡ some op
    pub at_dst : get_elem? t.dst prolog ≡ some state
    pub is_prolog : is_prolog op ≡ true
    pub size : width t op ≡ state_slots n_groups (t.bundles b)
    pub first : get_elem? held state ≡ some prolog
    pub slots :
        (o : ℕ) → o < state_slots n_groups (t.bundles b) → get_elem? held (state + o) ≡ some prolog

  abbrev pub KeepsState : List ℕ → Op K → Type 0
  KeepsState held (Op.call b start n_groups n_args n_in reads n_out state args) =
      (state ≡ no_state) ⊎ IsKept held b n_groups state
  KeepsState held _ = Unit

  -- Every call finds its state, and no product kernel folds its outputs.
  abbrev pub KeepsStates : List (Op K) → List ℕ → ℕ → List ℕ → Type 0
  KeepsStates [] dst i held = Unit
  KeepsStates (op ∷ ops) [] i held = Unit
  KeepsStates (op ∷ ops) (d ∷ dst) i held =
      (accum_of op ≡ none)
      × KeepsState held op
      × KeepsStates ops dst (suc i) (fill i d (width t op) held)

  abbrev pub has_state : Op K → Bool
  has_state (Op.call b start n_groups n_args n_in reads n_out state args) = not (state == no_state)
  has_state _ = false

  pub kind_of-is_stateful :
      (op : Op K) (k : Kind K) → kind_of t op ≡ some k → is_stateful k ≡ has_state op
  unfolding kind_of is_stateful
  kind_of-is_stateful (Op.call b start n_groups n_args n_in reads n_out state args) k h =
      let (r, _, e) = map-some _ _ h in ap is_stateful (sym e)
  kind_of-is_stateful (Op.gemv a x m n c) k h =
      let (r, _, e) = map-some _ _ h in ap is_stateful (sym e)
  kind_of-is_stateful (Op.gemm a b m l n c) k h =
      let (r, _, e) = map-some _ _ h in ap is_stateful (sym e)
  kind_of-is_stateful _ k h = ap is_stateful (sym (some_inj h))

  abbrev pub chooses : Op K → Bool
  chooses (Op.select c a b) = true
  chooses _ = false

  pub kind_of-is_select :
      (op : Op K) (k : Kind K) → kind_of t op ≡ some k → is_select k ≡ chooses op
  unfolding kind_of is_select
  kind_of-is_select (Op.call b start n_groups n_args n_in reads n_out state args) k h =
      let (r, _, e) = map-some _ _ h in ap is_select (sym e)
  kind_of-is_select (Op.gemv a x m n c) k h = let (r, _, e) = map-some _ _ h in ap is_select (sym e)
  kind_of-is_select (Op.gemm a b m l n c) k h =
      let (r, _, e) = map-some _ _ h in ap is_select (sym e)
  kind_of-is_select _ k h = ap is_select (sym (some_inj h))

  pub kept_ref :
      (held : List ℕ) (b n_groups state : ℕ) (r : Ref)
      → (kept : IsKept held b n_groups state) → value_at t held state ≡ some r
      → (c : ℕ) × (r ≡ Ref.value kept.prolog c)
  kept_ref held b n_groups state r kept e = elim (value_at_cases t held state r e) [
    | inl (j, is, _) ↦ let bad : none ≡ some j = sym kept.is_slot ∙ is in elim (none_some bad) [ ]
    | inr (_, (j, d, at, _, same)) ↦
        (state - d, sym same ∙ ap (λ j. Ref.value j (state - d)) (some_inj (sym at ∙ kept.first)))
  ]
    where
      none_some : {j : ℕ} → none ≡ some j → ⊥
      none_some e = cc
