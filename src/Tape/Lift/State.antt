-- ===== src/Tape/Lift/State.antt =====
-- The state that a lifted call reads and the one that the call works over, crates/rsdag/src/tape/compile.rs and
-- crates/rsdag/src/tape/mod.rs.
use rsdag.Prelude.{
  ℕ, zero, suc, ◌+◌, ◌*◌, ◌-◌, ◌≤◌, ◌<◌, ◌≡◌, refl, sym, ◌∙◌, ap, subst, Bool, true, false, none,
  some, List, [], ◌∷◌, ◌++◌, length, get_elem?, take, drop, slice, arith, inl, inr, ◌==◌, not,
  if◌then◌else◌, ==_iff, leb, leb→le, Bool-cases, length-drop,
}
use rsdag.Field.{Field}
use rsdag.Semantics.{Scalar}
use rsdag.Program.{Ref, Kind, Kernels, is_stateful, last_block, block_at}
use rsdag.Program.Specialize.{u32_max}
use rsdag.Program.Specialize.Agree.{some_inj}
use rsdag.Tape.{Op, Tape, op_operands, kind_of, state_slots, no_state, pool_at}
use rsdag.Tape.Run.{read_all, state_of, inputs_at}
use rsdag.Tape.Lift.{value_at}
use rsdag.Tape.Lift.Held.{Holds, none_at}
use rsdag.Tape.Lift.Kept.{
  IsKept, KeepsState, has_state, kind_of-is_stateful, kept_ref, listed_state, read_all-last,
}

module _ {A : Type 0} where
  pub get_elem?-drop : (s o : ℕ) (xs : List A) → get_elem? (drop s xs) o ≡ get_elem? xs (s + o)
  get_elem?-drop zero o xs = ap (get_elem? xs) (zero_add o)
    where
      zero_add : (o : ℕ) → o ≡ 0 + o
      zero_add o = omega arith
  get_elem?-drop (suc s) o [] = refl
  get_elem?-drop (suc s) o (x ∷ xs) = get_elem?-drop s o xs ∙ ap (get_elem? (x ∷ xs)) (suc_add s o)
    where
      suc_add : (s o : ℕ) → suc (s + o) ≡ suc s + o
      suc_add s o = omega arith

  take_same :
      (n : ℕ) (xs ys : List A)
      → length ys ≡ n
      → n ≤ length xs
      → ((o : ℕ) → o < n → get_elem? xs o ≡ get_elem? ys o)
      → take n xs ≡ ys
  take_same zero xs [] size le h = refl
  take_same zero xs (y ∷ ys) size le h = let bad : ⊥ = omega arith in elim bad [ ]
  take_same (suc n) [] ys size le h = elim le [ ]
  take_same (suc n) (x ∷ xs) [] size le h = let bad : ⊥ = omega arith in elim bad [ ]
  take_same (suc n) (x ∷ xs) (y ∷ ys) size le h =
      rw
        (
          some_inj (h 0 (omega arith)),
          take_same n xs ys (omega arith) (omega arith) (λ o lt. h (suc o) (omega arith)),
        )
        refl

  -- A slice is the list that it has the elements of.
  slice_same :
      (xs : List A) (s n : ℕ) (ys st : List A)
      → slice xs s n ≡ some st
      → length ys ≡ n
      → ((o : ℕ) → o < n → get_elem? xs (s + o) ≡ get_elem? ys o)
      → st ≡ ys
  unfolding slice
  slice_same xs s n ys st e size h = by (leb (s + n) (length xs)) refl e
    where
      by :
          (b : Bool)
          → leb (s + n) (length xs) ≡ b
          → (if b then some (take n (drop s xs)) else none) ≡ some st
          → st ≡ ys
      by false l e = cc
      by true l e =
          sym (some_inj e)
          ∙ take_same n (drop s xs) ys size
              (omega (arith, leb→le (s + n) (length xs) l, length-drop s xs))
              (λ o lt. get_elem?-drop s o xs ∙ h o lt)

module _ {K : Field} (T : Scalar K) (ks : Kernels T) (inputs : ℕ → T.Val) where
  last_block-append :
      (get : ℕ → List T.Val) (rs : List Ref) (r : Ref)
      → last_block T ks inputs get (rs ++ r ∷ []) ≡ block_at T ks inputs get r
  last_block-append get [] r = refl
  last_block-append get (a ∷ []) r = refl
  last_block-append get (a ∷ b ∷ rs) r = last_block-append get (b ∷ rs) r

module _ {K : Field} (T : Scalar K) (ks : Kernels T) (t : Tape K) (inputs : List T.Val)
    (get : ℕ → List T.Val) (few : length t.dst ≤ u32_max) where
  abbrev block_of : Kind K → List Ref → List T.Val
  block_of k rs = if is_stateful k then last_block T ks (inputs_at T inputs) get rs else []

  -- A call that keeps a state works over its prolog's block.
  kept_slot :
      (i : ℕ) (held : List ℕ) (work : List T.Val) (b n_groups state k : ℕ)
      → Holds T ks t inputs get i held work
      → (kept : IsKept t held b n_groups state) → get_elem? held k ≡ some kept.prolog
      → (kept.prolog < i) × (get_elem? work k ≡ get_elem? (get kept.prolog) (k - state))
  kept_slot i held work b n_groups state k h kept e = elim (h.slots k kept.prolog e) [
    | inl u ↦
        let bad : ⊥ =
          none_at t.dst u32_max few (subst (λ n. get_elem? t.dst n ≡ some state) u kept.at_dst) in
        elim bad [ ]
    | inr (d, lt, at, le, same) ↦ (
      lt,
      subst (λ d. get_elem? work k ≡ get_elem? (get kept.prolog) (k - d))
          (some_inj (sym at ∙ kept.at_dst)) same,
    )
  ]

  -- A call that keeps a state works over its prolog's block.
  kept_state :
      (i : ℕ) (held : List ℕ) (work : List T.Val) (b n_groups state : ℕ) (ns : List ℕ)
      (rs : List Ref) (st : List T.Val)
      → Holds T ks t inputs get i held work
      → IsKept t held b n_groups state
      → read_all (value_at t held) (ns ++ state ∷ []) ≡ some rs
      → slice work state (state_slots n_groups (t.bundles b)) ≡ some st
      → st ≡ last_block T ks (inputs_at T inputs) get rs
  kept_state i held work b n_groups state ns rs st h kept reads sliced =
      let (rs', r, e, er) = read_all-last (value_at t held) ns state rs reads in
      let (c, at) = kept_ref t held b n_groups state r kept er in
      let (lt, _) = kept_slot i held work b n_groups state state h kept kept.first in
      subst (λ rs. st ≡ last_block T ks (inputs_at T inputs) get rs) (sym e)
        (slice_same work state (state_slots n_groups (t.bundles b)) (get kept.prolog) st sliced
            (h.sizes kept.prolog kept.op lt kept.at_op ∙ kept.size)
            (λ o l.
              (kept_slot i held work b n_groups state (state + o) h kept (kept.slots o l)).1
              ∙ ap (get_elem? (get kept.prolog)) (add_sub state o))
          ∙ sym (
              last_block-append T ks (inputs_at T inputs) get rs' r
              ∙ ap (block_at T ks (inputs_at T inputs) get) at))
    where
      add_sub : (a b : ℕ) → a + b - a ≡ b
      add_sub a b = omega arith

  truth_absurd : true ≡ false → ⊥
  truth_absurd e = cc

  -- The state that an op works over is the one that its instruction reads.
  pub op_state :
      (i : ℕ) (held : List ℕ) (work : List T.Val) (op : Op K) (k : Kind K) (ns : List ℕ)
      (rs : List Ref) (st : List T.Val)
      → Holds T ks t inputs get i held work
      → KeepsState t held op
      → kind_of t op ≡ some k
      → op_operands t op ≡ some ns
      → read_all (value_at t held) ns ≡ some rs
      → state_of T t work op ≡ some st
      → st ≡ block_of k rs
  unfolding op_operands
  op_state i held work op k ns rs st h kept kind listed reads state =
      by op kept (kind_of-is_stateful t op k kind) listed state
    where
      plain : is_stateful k ≡ false → some [] ≡ some st → st ≡ block_of k rs
      plain e s = rw e (sym (some_inj s))

      by :
          (op : Op K)
          → KeepsState t held op
          → is_stateful k ≡ has_state t op
          → op_operands t op ≡ some ns
          → state_of T t work op ≡ some st
          → st ≡ block_of k rs
      by (Op.call b start n_groups n_args n_in reads' n_out state' args) kept e listed s =
          elim (Bool-cases (state' == no_state)) [
            | inl is ↦ plain (e ∙ ap not is) (
                subst
                  (λ b'.
                    (if b' then some [] else slice work state' (state_slots n_groups (t.bundles b)))
                    ≡ some st)
                  is s)
            | inr is ↦ elim kept [
              | inl same ↦
                  let bad : true ≡ false = sym ((==_iff state' no_state).1 same) ∙ is in
                  elim (truth_absurd bad) [ ]
              | inr kept ↦
                  let (ns', e') =
                    listed_state (pool_at t start (n_groups * n_in)) state' is listed in
                  rw (e ∙ ap not is) (
                    kept_state i held work b n_groups state' ns' rs st h kept
                      (subst (λ ns. read_all (value_at t held) ns ≡ some rs) e' reads)
                      (subst
                        (λ b'.
                          (if b'
                            then some []
                            else slice work state' (state_slots n_groups (t.bundles b)))
                          ≡ some st)
                        is s))
            ]
          ]
      by _ kept e listed s = plain e s
