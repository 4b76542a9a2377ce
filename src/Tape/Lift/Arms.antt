-- ===== src/Tape/Lift/Arms.antt =====
-- The arms of a lifted select and the state of a lifted call, crates/rsdag/src/tape/compile.rs.
use rsdag.Prelude.{
  ℕ, ◌*◌, ◌≤◌, ◌≡◌, ◌≢◌, sym, ◌∙◌, ap, subst, true, false, Option, some, List, [], ◌∷◌, ◌++◌,
  length, inl, inr, ◌==◌, not, Bool-cases, ==_iff,
}
use rsdag.Field.{Field}
use rsdag.Program.{
  Ref, Kind, Program, kind_at, HasArms, IsBlock, EndsInBlock, is_select, is_stateful,
}
use rsdag.Program.Specialize.{u32_max}
use rsdag.Program.Specialize.Agree.{some_inj}
use rsdag.Program.Specialize.Whole.{bind_some, map-some}
use rsdag.Tape.{Op, Tape, op_operands, kind_of, no_state, pool_at}
use rsdag.Tape.Run.{read_all}
use rsdag.Tape.Lift.{value_at}
use rsdag.Tape.Lift.Kept.{
  IsKept, KeepsState, chooses, has_state, kind_of-is_select, kind_of-is_stateful, kept_ref,
  listed_state, read_all-last,
}
use rsdag.Tape.Lift.Ordered.{Places, placed, prolog-chooses}

read_all-three :
    {A B : Type 0} (g : A → Option B) (a b c : A) (rs : List B)
    → read_all g (a ∷ b ∷ c ∷ []) ≡ some rs
    → (x : B) × (y : B) × (z : B) × (rs ≡ x ∷ y ∷ z ∷ [])
unfolding read_all
read_all-three g a b c rs h =
    let (x, _, m) = bind_some _ _ h in
    let (xs, h', e) = map-some _ _ m in
    let (y, _, m') = bind_some _ _ h' in
    let (ys, h'', e') = map-some _ _ m' in
    let (z, _, m'') = bind_some _ _ h'' in
    (x, y, z, sym e ∙ ap (λ xs. x ∷ xs) (sym e' ∙ ap (λ ys. y ∷ ys) (sym (some_inj m''))))

truth_absurd : true ≡ false → ⊥
truth_absurd e = cc

module _ {K : Field} (t : Tape K) (p : Program K) where
  plain_HasArms : (k : Kind K) (rs : List Ref) → is_select k ≡ false → HasArms p k rs
  unfolding is_select
  plain_HasArms Kind.select rs h = elim (truth_absurd h) [ ]
  plain_HasArms _ rs h = tt

  -- The operands of a select's instruction are its condition and its arms.
  pub lifted-HasArms :
      (held : List ℕ) (op : Op K) (k : Kind K) (ns : List ℕ) (rs : List Ref)
      → kind_of t op ≡ some k
      → op_operands t op ≡ some ns
      → read_all (value_at t held) ns ≡ some rs
      → HasArms p k rs
  unfolding kind_of op_operands
  lifted-HasArms held op k ns rs kind listed reads =
      by op kind (kind_of-is_select t op k kind) listed
    where
      by :
          (op : Op K)
          → kind_of t op ≡ some k
          → is_select k ≡ chooses t op
          → op_operands t op ≡ some ns
          → HasArms p k rs
      by (Op.select c a b) kind e listed =
          subst (λ k. HasArms p k rs) (some_inj kind)
            (read_all-three (value_at t held) c a b rs
              (subst (λ ns. read_all (value_at t held) ns ≡ some rs) (sym (some_inj listed)) reads))
      by _ kind e listed = plain_HasArms k rs e

  append-EndsInBlock : (rs : List Ref) (r : Ref) → IsBlock p r → EndsInBlock p (rs ++ r ∷ [])
  append-EndsInBlock [] r h = h
  append-EndsInBlock (a ∷ []) r h = h
  append-EndsInBlock (a ∷ b ∷ rs) r h = append-EndsInBlock (b ∷ rs) r h

  module _ (few : length t.dst ≤ u32_max) where
    prolog-IsBlock :
        (i : ℕ) (held : List ℕ) (b n_groups state : ℕ)
        → Places t p i held
        → (kept : IsKept t held b n_groups state) → kind_at p kept.prolog ≢ some Kind.select
    unfolding is_select
    prolog-IsBlock i held b n_groups state h kept select =
        let (d, op, lt, at_dst, at_op, lo, hi) =
          placed t p few i state kept.prolog state (h.slots state kept.prolog kept.first)
            kept.at_dst in
        let (kind, at_kind, computes) = h.kinds kept.prolog kept.op lt kept.at_op in
        truth_absurd (
          ap is_select (some_inj (sym select ∙ at_kind))
          ∙ kind_of-is_select t kept.op kind computes
          ∙ prolog-chooses t p kept.op kept.is_prolog)

    -- The last operand of a call that keeps a state is its prolog's block.
    pub lifted-EndsInBlock :
        (i : ℕ) (held : List ℕ) (op : Op K) (k : Kind K) (ns : List ℕ) (rs : List Ref)
        → Places t p i held
        → KeepsState t held op
        → kind_of t op ≡ some k
        → op_operands t op ≡ some ns
        → read_all (value_at t held) ns ≡ some rs
        → is_stateful k ≡ true
        → EndsInBlock p rs
    unfolding op_operands
    lifted-EndsInBlock i held op k ns rs h kept kind listed reads stateful =
        by op kept (sym stateful ∙ kind_of-is_stateful t op k kind) listed
      where
        by :
            (op : Op K)
            → KeepsState t held op
            → true ≡ has_state t op
            → op_operands t op ≡ some ns
            → EndsInBlock p rs
        by (Op.call b start n_groups n_args n_in reads' n_out state args) kept e listed =
            elim (Bool-cases (state == no_state)) [
              | inl is ↦ elim (truth_absurd (e ∙ ap not is)) [ ]
              | inr is ↦ elim kept [
                | inl same ↦ elim (truth_absurd (sym ((==_iff state no_state).1 same) ∙ is)) [ ]
                | inr kept ↦
                    let (ns', e') =
                      listed_state (pool_at t start (n_groups * n_in)) state is listed in
                    let (rs', r, same, er) =
                      read_all-last (value_at t held) ns' state rs
                        (subst (λ ns. read_all (value_at t held) ns ≡ some rs) e' reads) in
                    let (c, at) = kept_ref t held b n_groups state r kept er in
                    subst (EndsInBlock p) (sym (same ∙ ap (λ r. rs' ++ r ∷ []) at)) (
                      append-EndsInBlock rs' (Ref.value kept.prolog c)
                        (prolog-IsBlock i held b n_groups state h kept))
              ]
            ]
        by _ kept e listed = elim (truth_absurd e) [ ]
