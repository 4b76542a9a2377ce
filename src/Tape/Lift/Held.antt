-- ===== src/Tape/Lift/Held.antt =====
-- What the slots hold as a tape runs and is lifted, crates/rsdag/src/tape/compile.rs.
use mathlib.Core.Option
use rsdag.Prelude.{
  ℕ, zero, suc, ◌+◌, ◌-◌, ◌≤◌, ◌<◌, ◌≡◌, refl, sym, ◌∙◌, ap, subst, Option, none, some, List, [],
  ◌∷◌, map, length, get_elem?, get_or, get_or_of_get_elem?, get_elem?_total, get_elem?-lt,
  length-fill, arith, ◌⊎◌, inl, inr, fill, fill_cases, write_block, get_elem?-write_block,
  get_elem?-write_block_off, length-write_block, IsOff,
}
use rsdag.Field.{Field}
use rsdag.Semantics.{Scalar}
use rsdag.Program.{Ref, Kernels, ref_value}
use rsdag.Program.Specialize.{u32_max}
use rsdag.Program.Specialize.Agree.{some_inj}
use rsdag.Program.Specialize.Whole.{bind_some, map-some}
use rsdag.Tape.{Op, Tape, input_index, width}
use rsdag.Tape.Run.{read_all, read, inputs_at}
use rsdag.Tape.Lift.{value_at}

pub none_at :
    {A : Type 0} (xs : List A) (n : ℕ) {a : A} → length xs ≤ n → get_elem? xs n ≡ some a → ⊥
none_at [] n le h = cc
none_at (x ∷ xs) zero le h = omega arith
none_at (x ∷ xs) (suc n) le h = none_at xs n (omega arith) h

module _ {K : Field} (t : Tape K) (held : List ℕ) where
  -- A reference is an input's, or the place of a slot in the block that it holds.
  abbrev pub IsPlace : ℕ → Ref → Type 0
  IsPlace k r =
      (j d : ℕ) × (get_elem? held k ≡ some j)
      × (get_elem? t.dst j ≡ some d)
      × (Ref.value j (k - d) ≡ r)

  pub value_at_cases :
      (k : ℕ) (r : Ref)
      → value_at t held k ≡ some r
      → ((j : ℕ) × (input_index k ≡ some j) × (Ref.input j ≡ r))
        ⊎ ((input_index k ≡ none) × IsPlace k r)
  unfolding value_at
  value_at_cases k r e = by (input_index k) refl e
    where
      by :
          (o : Option ℕ)
          → input_index k ≡ o
          → elim o [
            | some j ↦ some (Ref.input j)
            | none ↦
                Option.bind
                  (get_elem? held k)
                  (λ j. Option.map (λ d. Ref.value j (k - d)) (get_elem? t.dst j))
          ]
            ≡ some r
          → ((j : ℕ) × (input_index k ≡ some j) × (Ref.input j ≡ r))
            ⊎ ((input_index k ≡ none) × IsPlace k r)
      by none is e =
          let (j, at, m) = bind_some _ _ e in
          let (d, at', same) = map-some _ _ m in inr (is, (j, d, at, at', same))
      by (some j) is e = inl (j, is, some_inj e)

module _ {K : Field} (T : Scalar K) (ks : Kernels T) (t : Tape K) (inputs : List T.Val)
    (get : ℕ → List T.Val) where
  -- The slot `k` holds a value of the block of op `j`, an op below `i`.
  abbrev pub IsHeld : List T.Val → ℕ → ℕ → ℕ → Type 0
  IsHeld work i k j =
      (d : ℕ) × (j < i)
      × (get_elem? t.dst j ≡ some d)
      × (d ≤ k)
      × (get_elem? work k ≡ get_elem? (get j) (k - d))

  -- The slots hold what the ops below `i` computed, whose blocks have the ops' widths.
  pub record Holds (i : ℕ) (held : List ℕ) (work : List T.Val) : Type 0 where
    pub fits : length held ≤ length work
    pub slots : (k j : ℕ) → get_elem? held k ≡ some j → (j ≡ u32_max) ⊎ IsHeld work i k j
    pub sizes :
        (j : ℕ) (op : Op K) → j < i → get_elem? t.ops j ≡ some op → length (get j) ≡ width t op

  -- The next op's block is written where it is held.
  pub Holds-step :
      (i d : ℕ) (held : List ℕ) (work : List T.Val) (op : Op K)
      → Holds i held work
      → get_elem? t.ops i ≡ some op
      → get_elem? t.dst i ≡ some d
      → length (get i) ≡ width t op
      → d + width t op ≤ length work
      → Holds (suc i) (fill i d (width t op) held) (write_block (get i) d work)
  Holds-step i d held work op h at_op at_dst size fits = record {
    fits =
        omega (arith, h.fits, length-fill i d (width t op) held, length-write_block (get i) d work);
    slots = λ k j e. elim (fill_cases i d (width t op) held k e) [
      | inl (lo, hi, same) ↦ inr (
          subst (IsHeld (write_block (get i) d work) (suc i) k) same (
            d,
            omega arith,
            at_dst,
            lo,
            get_elem?-write_block (get i) d work k (omega arith) lo (omega arith),
          ))
      | inr (off, e') ↦ elim (h.slots k j e') [
        | inl u ↦ inl u
        | inr (d', lt, at, le, same) ↦ inr (
          d',
          omega arith,
          at,
          le,
          get_elem?-write_block_off (get i) d work k (subst (λ n. IsOff d n k) (sym size) off)
              ∙ same,
        )
      ]
    ];
    sizes = λ j o lt e. sized j o (less_cases j i lt) e;
  }
    where
      less_cases : (a b : ℕ) → a < suc b → (a < b) ⊎ (b ≡ a)
      less_cases a b lt = grind arith

      sized :
          (j : ℕ) (o : Op K)
          → (j < i) ⊎ (i ≡ j)
          → get_elem? t.ops j ≡ some o
          → length (get j) ≡ width t o
      sized j o (inl lt) e = h.sizes j o lt e
      sized j o (inr same) e =
          subst (λ n. get_elem? t.ops n ≡ some o → length (get n) ≡ width t o) same
            (λ e'. size ∙ ap (width t) (some_inj (sym at_op ∙ e'))) e

  module _ (few : length t.dst ≤ u32_max) where
    -- A read of the slots and its reference have one value.
    read-value_at :
        (i : ℕ) (held : List ℕ) (work : List T.Val) (k : ℕ) (v : T.Val) (r : Ref)
        → Holds i held work
        → read T inputs work k ≡ some v
        → value_at t held k ≡ some r
        → ref_value T ks (inputs_at T inputs) get r ≡ v
    unfolding read
    read-value_at i held work k v r h e e' = elim (value_at_cases t held k r e') [
      | inl (j, is, same) ↦
          subst (λ r. ref_value T ks (inputs_at T inputs) get r ≡ v) same
            (some_inj (subst (λ o. read_by o ≡ some v) is e))
      | inr (is, (j, d, at, at', same)) ↦
          subst (λ r. ref_value T ks (inputs_at T inputs) get r ≡ v) same
            (slot j d (h.slots k j at) at' (subst (λ o. read_by o ≡ some v) is e))
    ]
      where
        read_by : Option ℕ → Option T.Val
        read_by o = elim o [ none ↦ get_elem? work k | some i ↦ some (get_or inputs i T.nan) ]

        slot :
            (j d : ℕ)
            → (j ≡ u32_max) ⊎ IsHeld work i k j
            → get_elem? t.dst j ≡ some d
            → get_elem? work k ≡ some v
            → get_or (get j) (k - d) T.nan ≡ v
        slot j d (inl u) at _ =
            let bad : ⊥ =
              none_at t.dst u32_max few (subst (λ n. get_elem? t.dst n ≡ some d) u at) in
            elim bad [ ]
        slot j d (inr (d', lt, at', le, same)) at e =
            subst
              (λ d'.
                get_elem? work k ≡ get_elem? (get j) (k - d') → get_or (get j) (k - d) T.nan ≡ v)
              (some_inj (sym at ∙ at'))
              (λ same. get_or_of_get_elem? (get j) (k - d) T.nan (sym same ∙ e)) same

    -- A slot that is held is there to be read.
    pub read_all-total :
        (i : ℕ) (held : List ℕ) (work : List T.Val) (ns : List ℕ) (rs : List Ref)
        → Holds i held work
        → read_all (value_at t held) ns ≡ some rs
        → (xs : List T.Val) × (read_all (read T inputs work) ns ≡ some xs)
    unfolding read_all read Option.bind
    read_all-total i held work [] rs h e = ([], refl)
    read_all-total i held work (n ∷ ns) rs h e =
        let (r, er, m) = bind_some _ _ e in
        let (rs', ers, _) = map-some _ _ m in
        let (x, ex) = one r er in
        let (xs, exs) = read_all-total i held work ns rs' h ers in (x ∷ xs, rw (ex, exs) refl)
      where
        one : (r : Ref) → value_at t held n ≡ some r → (x : T.Val) × (read T inputs work n ≡ some x)
        one r er = elim (value_at_cases t held n r er) [
          | inl (j, is, _) ↦ (get_or inputs j T.nan, rw (read, is) refl)
          | inr (is, (j, d, at, _, _)) ↦
              let (x, ex) =
                get_elem?_total work n (omega (arith, get_elem?-lt held n at, h.fits)) in
              (x, rw (read, is) ex)
        ]

    -- So have the reads of several.
    pub read_all-value_at :
        (i : ℕ) (held : List ℕ) (work : List T.Val) (ns : List ℕ) (vs : List T.Val) (rs : List Ref)
        → Holds i held work
        → read_all (read T inputs work) ns ≡ some vs
        → read_all (value_at t held) ns ≡ some rs
        → map (ref_value T ks (inputs_at T inputs) get) rs ≡ vs
    unfolding read_all
    read_all-value_at i held work [] vs rs h e e' =
        subst (λ rs. map (ref_value T ks (inputs_at T inputs) get) rs ≡ vs) (some_inj e')
          (some_inj e)
    read_all-value_at i held work (n ∷ ns) vs rs h e e' =
        let (v, ev, m) = bind_some _ _ e in
        let (vs', evs, same) = map-some _ _ m in
        let (r, er, m') = bind_some _ _ e' in
        let (rs', ers, same') = map-some _ _ m' in
        let first = read-value_at i held work n v r h ev er in
        let rest = read_all-value_at i held work ns vs' rs' h evs ers in
        subst (λ rs. map (ref_value T ks (inputs_at T inputs) get) rs ≡ vs) same'
          (rw (first, rest) same)
