-- ===== src/Program/Compact/Sound.antt =====
-- What a program computes without its dead instructions: `Program::compact` of
-- crates/rsdag/src/tape/compile.rs.
use rsdag.Prelude.{
  ℕ, ◌+◌, ◌≡◌, refl, sym, ◌∙◌, ap, ap₂, subst, Bool, false, Option, some, List, [], ◌∷◌, map,
  get_or, get_elem?, arith, All, Bool-cases, inl, inr,
}
use rsdag.Field.{Field}
use rsdag.Semantics.{Scalar}
use rsdag.Program.{
  Ref, Kind, Inst, Program, Kernels, IsRun, ins_of, inst_values, computed, ref_value, block_at,
  last_block, is_stateful, outputs,
}
use rsdag.Program.Specialize.Agree.{some_inj}
use rsdag.Program.Specialize.Whole.{bind_some, map-some}
use rsdag.Program.Compact.{
  renumber_from, move_ref, move_all, move_by, keep_placeholder, compact_insts, compacted,
  compact_by, compact,
}
use rsdag.Program.Compact.Places.{
  kept_from, kept-renumber, move_all-cons, IsMoved, AreMoved, compact_insts-AreMoved,
}

-- The instruction of the operand stays.
abbrev pub IsAlive : List Bool → Ref → Type 0
IsAlive dead (Ref.value i c) = get_elem? dead i ≡ some false
IsAlive dead (Ref.input k) = Unit

module _ {K : Field} (T : Scalar K) (ks : Kernels T) (inputs : ℕ → T.Val) (get : ℕ → List T.Val)
    (dead : List Bool) where
  -- The blocks by the new numbers.
  abbrev pub kept_blocks : ℕ → List T.Val
  kept_blocks j = get (get_or (kept_from 0 dead) j 0)

  -- An operand is redirected to one that stays and holds the same.
  pub record IsKeptAs (resolve : Ref → Ref) (r : Ref) : Type 0 where
    pub alive : IsAlive dead (resolve r)
    pub value : ref_value T ks inputs get (resolve r) ≡ ref_value T ks inputs get r
    pub block : block_at T ks inputs get (resolve r) ≡ block_at T ks inputs get r

  module _ {A : Type 0} (xs : List A) (ns : List ℕ)
      (numbered : renumber_from 0 xs dead ≡ some ns) where
    moved_block :
        (r r' : Ref)
        → IsAlive dead r
        → move_ref ns r ≡ some r'
        → block_at T ks inputs kept_blocks r' ≡ block_at T ks inputs get r
    moved_block (Ref.input k) r' a m = ap (block_at T ks inputs kept_blocks) (some_inj (sym m))
    moved_block (Ref.value i c) r' a m =
        let (j, at, back) = kept-renumber 0 0 xs dead ns i numbered a in
        let (n, e, same) = map-some (get_elem? ns i) _ m in
        ap (block_at T ks inputs kept_blocks) (sym same)
        ∙ ap (λ n. get (get_or (kept_from 0 dead) n 0)) (some_inj (sym e ∙ at) ∙ zero_add j)
        ∙ ap get (back ∙ zero_add i)
      where
        zero_add : (n : ℕ) → 0 + n ≡ n
        zero_add n = omega arith

    moved_value :
        (r r' : Ref)
        → IsAlive dead r
        → move_ref ns r ≡ some r'
        → ref_value T ks inputs kept_blocks r' ≡ ref_value T ks inputs get r
    moved_value (Ref.input k) r' a m = ap (ref_value T ks inputs kept_blocks) (some_inj (sym m))
    moved_value (Ref.value i c) r' a m =
        let (n, _, same) = map-some (get_elem? ns i) _ m in
        ap (ref_value T ks inputs kept_blocks) (sym same)
        ∙ ap (λ vs. get_or vs c T.nan)
            (ap (block_at T ks inputs kept_blocks) same ∙ moved_block (Ref.value i c) r' a m)

    moved_values :
        (resolve : Ref → Ref) (rs rs' : List Ref)
        → All (IsKeptAs resolve) rs
        → move_all (move_by ns resolve) rs ≡ some rs'
        → map (ref_value T ks inputs kept_blocks) rs' ≡ map (ref_value T ks inputs get) rs
    unfolding move_all
    moved_values resolve [] rs' all m =
        ap (map (ref_value T ks inputs kept_blocks)) (sym (some_inj m))
    moved_values resolve (r ∷ rs) ys all m =
        let (r', rs', e, e', same) = move_all-cons (move_by ns resolve) r rs ys m in
        ap (map (ref_value T ks inputs kept_blocks)) (sym same)
        ∙ ap₂ (λ v vs. v ∷ vs) (moved_value (resolve r) r' (all.0).alive e ∙ (all.0).value)
            (moved_values resolve rs rs' all.1 e')

    moved_last :
        (resolve : Ref → Ref) (rs rs' : List Ref)
        → All (IsKeptAs resolve) rs
        → move_all (move_by ns resolve) rs ≡ some rs'
        → last_block T ks inputs kept_blocks rs' ≡ last_block T ks inputs get rs
    unfolding move_all
    moved_last resolve [] rs' all m = ap (last_block T ks inputs kept_blocks) (sym (some_inj m))
    moved_last resolve (r ∷ []) ys all m =
        let (r', rs', e, e', same) = move_all-cons (move_by ns resolve) r [] ys m in
        ap (last_block T ks inputs kept_blocks) (sym same ∙ ap (λ rs. r' ∷ rs) (sym (some_inj e')))
        ∙ moved_block (resolve r) r' (all.0).alive e
        ∙ (all.0).block
    moved_last resolve (r ∷ s ∷ rs) ys all m =
        let (r', ss, e, e', same) = move_all-cons (move_by ns resolve) r (s ∷ rs) ys m in
        let (s', rs', _, _, same') = move_all-cons (move_by ns resolve) s rs ss e' in
        ap (last_block T ks inputs kept_blocks) (sym same ∙ ap (λ qs. r' ∷ qs) (sym same'))
        ∙ ap (last_block T ks inputs kept_blocks) same'
        ∙ moved_last resolve (s ∷ rs) ss all.1 e'

    moved_inst :
        (resolve : Ref → Ref) (k : Kind K) (rs rs' : List Ref)
        → All (IsKeptAs resolve) rs
        → move_all (move_by ns resolve) rs ≡ some rs'
        → inst_values T ks inputs kept_blocks k rs' ≡ inst_values T ks inputs get k rs
    unfolding inst_values
    moved_inst resolve k rs rs' all m =
        ap₂ (computed T ks k) (moved_values resolve rs rs' all m)
          (elim (Bool-cases (is_stateful k)) [
            | inl s ↦ rw s (moved_last resolve rs rs' all m)
            | inr s ↦ rw s refl
          ])

module _ {K : Field} (T : Scalar K) (ks : Kernels T) (inputs : ℕ → T.Val) (get : ℕ → List T.Val)
    (p : Program K) (run : IsRun T ks inputs p get) where
  moved-IsRun :
      (dead : List Bool) (resolve : Ref → Ref) (ns : List ℕ) (pool : List Ref)
      (insts : List (Inst K)) (roots : List Ref) (placeholder : Option ℕ)
      → renumber_from 0 p.insts dead ≡ some ns
      → ((i : ℕ) (inst : Inst K) (rs : List Ref)
          → get_elem? p.insts i ≡ some inst
          → get_elem? dead i ≡ some false
          → ins_of p inst ≡ some rs
          → All (IsKeptAs T ks inputs get dead resolve) rs)
      → AreMoved (move_by ns resolve) p.pool 0 p.insts dead pool insts
      → IsRun T ks inputs
          (compacted p dead (pool, insts) roots placeholder)
          (kept_blocks T ks inputs get dead)
  unfolding ins_of IsMoved
  moved-IsRun dead resolve ns pool insts roots placeholder numbered operands moved = record {
    computes = λ j inst' ys e e'.
        let (i, inst, rs, rs', at, alive, kept, kind, there, m, here) = moved j inst' e in
        ap₂ (inst_values T ks inputs (kept_blocks T ks inputs get dead)) kind
          (some_inj (sym e' ∙ here))
        ∙ moved_inst T ks inputs get dead p.insts ns numbered resolve inst.kind rs rs'
            (operands i inst rs at alive there) m
        ∙ run.computes i inst rs at there
        ∙ ap (λ n. some (get n)) (sym (kept ∙ zero_add i));
  }
    where
      zero_add : (n : ℕ) → 0 + n ≡ n
      zero_add n = omega arith

  -- Where the operands of what stays, and the roots, are redirected to what stays and holds the same,
  -- the blocks of a run by the new numbers are a run of the compacted program, with the same outputs.
  pub compact-IsRun :
      (dead : List Bool) (resolve : Ref → Ref) (p' : Program K)
      → ((i : ℕ) (inst : Inst K) (rs : List Ref)
          → get_elem? p.insts i ≡ some inst
          → get_elem? dead i ≡ some false
          → ins_of p inst ≡ some rs
          → All (IsKeptAs T ks inputs get dead resolve) rs)
      → All (IsKeptAs T ks inputs get dead resolve) p.roots
      → compact p dead resolve ≡ some p'
      → IsRun T ks inputs p' (kept_blocks T ks inputs get dead)
        × (outputs T ks inputs (kept_blocks T ks inputs get dead) p' ≡ outputs T ks inputs get p)
  unfolding compact compact_by
  compact-IsRun dead resolve p' operands kept h =
      let (ns, numbered, h') = bind_some (renumber_from 0 p.insts dead) _ h in
      let ((pool, insts), e, k) =
        bind_some (compact_insts (move_by ns resolve) p.pool p.insts dead []) _ h' in
      let (roots, at_roots, k') = bind_some (move_all (move_by ns resolve) p.roots) _ k in
      let (placeholder, _, same) = map-some (keep_placeholder ns dead p.placeholder) _ k' in
      subst
        (λ (p' : Program K).
          IsRun T ks inputs p' (kept_blocks T ks inputs get dead)
          × (outputs T ks inputs (kept_blocks T ks inputs get dead) p' ≡ outputs T ks inputs get p))
        same
        (
          moved-IsRun dead resolve ns pool insts roots placeholder numbered operands
              (compact_insts-AreMoved (move_by ns resolve) p.pool 0 p.insts dead [] pool insts e).1,
          moved_values T ks inputs get dead p.insts ns numbered resolve p.roots roots kept at_roots,
        )
