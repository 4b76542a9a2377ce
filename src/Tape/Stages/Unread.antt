-- ===== src/Tape/Stages/Unread.antt =====
-- What a call reads apart from a block that another one writes, crates/rsdag/src/tape/mod.rs.
use mathlib.Core.Option
use rsdag.Prelude.{
  ℕ, zero, suc, ◌+◌, ◌*◌, ◌≤◌, ◌<◌, ◌≡◌, refl, sym, ◌∙◌, ap, ap₂, subst, true, false, Option, none,
  some, List, [], ◌∷◌, ◌++◌, length, get_or, ◌==◌, if◌then◌else◌, All, ◌⊎◌, inl, inr, write_block,
  get_elem?-write_block_off, IsOff, arith, append-nil, Bool-cases,
}
use rsdag.Field.{Field}
use rsdag.Semantics.{Scalar}
use rsdag.Program.{Kernels, computed}
use rsdag.Program.Specialize.Agree.{some_inj}
use rsdag.Program.Specialize.Whole.{map-some}
use rsdag.Tape.{Op, Tape, input_index, op_operands, kind_of, no_state, state_slots}
use rsdag.Tape.Run.{read_all, read, state_of, is_kernel, op_values}
use rsdag.Tape.Stages.{Span, Bodies, overlaps, slots_among, state_span, span_of}
use rsdag.Tape.Stages.Apart.{IsOutside, All-append_split}
use rsdag.Tape.Stages.Swap.{outside-IsOff, slice-write_block}

module _ {K : Field} (T : Scalar K) (inputs : List T.Val) (vs : List T.Val) (d : ℕ)
    (work : List T.Val) where
  abbrev written : ℕ × ℕ
  written = (d, d + length vs)

  read_off :
      (k : ℕ)
      → IsOff d (length vs) k
      → read T inputs (write_block vs d work) k ≡ read T inputs work k
  unfolding read
  read_off k off =
      ap (λ o. elim (input_index k) [ none ↦ o | some i ↦ some (get_or inputs i T.nan) ])
        (get_elem?-write_block_off vs d work k off)

  read_tagged :
      (k i : ℕ)
      → input_index k ≡ some i
      → read T inputs (write_block vs d work) k ≡ read T inputs work k
  unfolding read
  read_tagged k i is = rw (read, is) refl

  -- Operands off a block that is written read as before.
  read_all_off :
      (ns : List ℕ)
      → All (λ a. IsOutside a written) (slots_among ns)
      → read_all (read T inputs (write_block vs d work)) ns ≡ read_all (read T inputs work) ns
  unfolding read_all
  read_all_off [] h = refl
  read_all_off (k ∷ ns) h =
      let (here, rest) = by (input_index k) refl h in rw (here, read_all_off ns rest) refl
    where
      off : (k + 1 ≤ d) ⊎ (d + length vs ≤ k) → IsOff d (length vs) k
      off (inl h) = inl (omega arith)
      off (inr h) = inr h

      by :
          (o : Option ℕ)
          → input_index k ≡ o
          → All
              (λ a. IsOutside a written)
              (elim o [ none ↦ (k, k + 1) ∷ slots_among ns | some _ ↦ slots_among ns ])
          → (read T inputs (write_block vs d work) k ≡ read T inputs work k)
            × All (λ a. IsOutside a written) (slots_among ns)
      by none is h =
          (read_off k (off (outside-IsOff k (k + 1) d (length vs) (omega arith) h.0)), h.1)
      by (some i) is h = (read_tagged k i is, h)

  state_outside :
      (state n : ℕ)
      → 0 < n
      → overlaps (state, state + n) (d, d + length vs) ≡ false
      → overlaps (state, state + 1) (d, d + length vs) ≡ false
  state_outside state n lt h = grind arith

  slots_among-append :
      (ns : List ℕ) (state n : ℕ)
      → 0 < n
      → All (λ a. IsOutside a written) (slots_among ns)
      → IsOutside (state, state + n) written
      → All (λ a. IsOutside a written) (slots_among (ns ++ state ∷ []))
  slots_among-append [] state n lt h off = by (input_index state)
    where
      by :
          (o : Option ℕ)
          → All (λ a. IsOutside a written) (elim o [ none ↦ (state, state + 1) ∷ [] | some _ ↦ [] ])
      by none = (state_outside state n lt off, tt)
      by (some i) = tt
  slots_among-append (k ∷ ns) state n lt h off =
      by (input_index k) h (λ h. slots_among-append ns state n lt h off)
    where
      by :
          (o : Option ℕ)
          → All
              (λ a. IsOutside a written)
              (elim o [ none ↦ (k, k + 1) ∷ slots_among ns | some _ ↦ slots_among ns ])
          → (All (λ a. IsOutside a written) (slots_among ns)
              → All (λ a. IsOutside a written) (slots_among (ns ++ state ∷ [])))
          → All
              (λ a. IsOutside a written)
              (elim o [
                | none ↦ (k, k + 1) ∷ slots_among (ns ++ state ∷ [])
                | some _ ↦ slots_among (ns ++ state ∷ [])
              ])
      by none h f = (h.0, f h.1)
      by (some i) h f = f h

  module _ (t : Tape K) (bodies : Bodies) where
    -- What a call reads is off a block that is written apart from it.
    abbrev IsUnread : Op K → Type 0
    IsUnread op =
        (ns : List ℕ) × (op_operands t op ≡ some ns)
        × All (λ a. IsOutside a written) (slots_among ns)
        × (state_of T t (write_block vs d work) op ≡ state_of T t work op)

    groups_slots : (n m : ℕ) → 0 < n → 0 < n * (m + 1)
    groups_slots zero m h = elim h [ ]
    groups_slots (suc n) m h = grind arith

    pub span-IsUnread :
        (op : Op K) (e : ℕ) (s : Span)
        → span_of t bodies op e ≡ some (some s)
        → 0 < s.groups
        → All (λ a. IsOutside a written) s.reads
        → IsUnread op
    unfolding op_operands
    span-IsUnread (Op.call_prolog b start n_groups n_pure args) e s h some_group off =
        let (ns, pool, same) = map-some _ _ h in
        (
          ns,
          pool,
          subst (λ (s : Span). All (λ a. IsOutside a written) s.reads) (sym (some_inj same)) off,
          refl,
        )
    span-IsUnread (Op.call b start n_groups n_args n_in reads n_out state args) e s h some_group
          off =
        let (ns, pool, same) = map-some _ _ h in
        let n = state_slots n_groups (t.bundles b) in
        let lt : 0 < n_groups =
          subst (λ (s : Span). 0 < s.groups) (sym (some_inj same)) some_group in
        let (here, last) =
          All-append_split (λ a. IsOutside a written) (slots_among ns) (state_span state n)
            (subst (λ (s : Span). All (λ a. IsOutside a written) s.reads) (sym (some_inj same))
              off) in
        elim (Bool-cases (state == no_state)) [
          | inl is ↦ (
            ns ++ [],
            rw (pool, is) refl,
            subst (λ ns. All (λ a. IsOutside a written) (slots_among ns)) (sym (append-nil ns))
                here,
            rw is refl,
          )
          | inr is ↦
              let out : IsOutside (state, state + n) written =
                (subst
                  (λ b. All (λ a. IsOutside a written) (if b then [] else (state, state + n) ∷ []))
                  is last).0 in
              (
                ns ++ state ∷ [],
                rw (pool, is) refl,
                slots_among-append ns state n (groups_slots n_groups (t.bundles b) lt) here out,
                rw is (
                    slice-write_block vs d work state n (
                      outside-IsOff state (state + n) d (length vs)
                        (omega (arith, groups_slots n_groups (t.bundles b) lt)) out)),
              )
        ]
    span-IsUnread _ e s h some_group off = cc

    -- So the call computes the same before and after the block is written.
    pub op_values_off :
        (ks : Kernels T) (op : Op K)
        → is_kernel T op ≡ true
        → IsUnread op
        → op_values T ks t inputs (write_block vs d work) op ≡ op_values T ks t inputs work op
    unfolding op_values Option.bind
    op_values_off ks op is (ns, listed, off, state) = rw is (
        ap₂
          (λ a b.
            Option.bind (kind_of t op)
              (λ k. Option.bind a (λ vs. Option.bind b (λ st. computed T ks k vs st))))
          (ap (λ o. Option.bind o (read_all (read T inputs (write_block vs d work)))) listed
            ∙ read_all_off ns off
            ∙ sym (ap (λ o. Option.bind o (read_all (read T inputs work))) listed))
          state)
