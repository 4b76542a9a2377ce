-- ===== src/Program/Specialize/Runs.antt =====
-- A run of the whole program beside a run of the shortened one, instruction by instruction:
-- `Tape::shorten` of crates/rsdag/src/tape/specialize.rs.
use mathlib.Core.Option
use rsdag.Prelude.{
  ℕ, zero, suc, ◌<◌, ◌≤◌, ◌≡◌, refl, sym, ◌∙◌, ap, ap₂, subst, Bool, true, none, some, List, [],
  ◌∷◌, ◌⊎◌, inl, inr, map, length, get_or, get_elem?, get_elem?_total, arith, Option-cases,
  Bool-cases, All, slice, slice-map,
}
use rsdag.Field.{Field}
use rsdag.Semantics.{Scalar}
use rsdag.Program.{
  Ref, Inst, Program, Kernels, IsProgram, IsRun, IsOlder, IsBlock, EndsInBlock, ins, ins_of,
  inst_values, ref_value, block_at, last_block, state_block, is_stateful, computed,
}
use rsdag.Program.Follow.{follow}
use rsdag.Program.Reach.{IsLive}
use rsdag.Program.Specialize.{Pinned, Pin, pin_at, resolve, next, reads}
use rsdag.Program.Specialize.Agree.{arm_value, pin-IsOlder, some_inj}
use rsdag.Program.Specialize.Sound.{ArePins, arm-IsOlder, resolve-none, resolve-some, pinned_kind}

lt_last : (i n : ℕ) → i < suc n → (i < n) ⊎ (i ≡ n)
lt_last i n h = ground arith

pub map_agree :
    {A B C : Type 0} (f : B → C) (g : A → B) (h : A → C) (P : A → Type 0) (xs : List A)
    → ((a : A) → P a → f (g a) ≡ h a)
    → All P xs
    → map f (map g xs) ≡ map h xs
map_agree f g h P [] e all = refl
map_agree f g h P (x ∷ xs) e all = ap₂ (λ y ys. y ∷ ys) (e x all.0) (map_agree f g h P xs e all.1)

module _ {K : Field} (T : Scalar K) (ks : Kernels T) (inputs : ℕ → T.Val) (p : Program K)
    (w : IsProgram p) (truth : Ref → Bool) (pinned : List Pin) (pins : ArePins p truth pinned)
    (live : List Bool) (get get' : ℕ → List T.Val) (roots : List Ref)
    (run : IsRun T ks inputs p get)
    (run' : IsRun T ks inputs
      (record p { pool = map (resolve p pinned) p.pool; roots = roots })
      get')
    (closed : (i : ℕ) → get_elem? live i ≡ some true → All (IsLive live) (next p pinned i))
    (guards : (i : ℕ) (q : Pinned)
      → pin_at pinned i ≡ some q
      → get_elem? live i ≡ some true
      → (T.is_true (ref_value T ks inputs get' (resolve p pinned q.cond)) ≡ truth q.cond)
        ⊎ (T.is_true (ref_value T ks inputs get q.cond) ≡ truth q.cond)) where
  abbrev pub IsSame : Ref → Type 0
  IsSame r = ref_value T ks inputs get' (resolve p pinned r) ≡ ref_value T ks inputs get r

  -- The instructions below `n`.
  pub record AgreeTo (n : ℕ) : Type 0 where
    pub blocks :
        (i : ℕ) → i < n → get_elem? live i ≡ some true → pin_at pinned i ≡ none → get' i ≡ get i
    pub values : (r : Ref) → IsOlder p n r → IsLive live r → IsSame r

  -- An operand that is no select's value has the same block.
  same_block :
      (n : ℕ) (r : Ref)
      → AgreeTo n
      → IsBlock p r
      → IsOlder p n r
      → IsLive live r
      → block_at T ks inputs get' (resolve p pinned r) ≡ block_at T ks inputs get r
  unfolding resolve follow
  same_block n (Ref.input k) a b o l = refl
  same_block n (Ref.value i c) a b o l = elim (Option-cases (pin_at pinned i)) [
    | inl e ↦
        ap (block_at T ks inputs get') (resolve-none p w truth pinned pins i c e)
        ∙ a.blocks i o.0 l e
    | inr (q, e) ↦
        let (inst, e', pin) = pins i q e in
        elim (b (pinned_kind p w truth pinned pins i inst q e' pin)) [ ]
  ]

  same_last :
      (n : ℕ) (rs : List Ref)
      → AgreeTo n
      → EndsInBlock p rs
      → All (IsOlder p n) rs
      → All (IsLive live) rs
      → last_block T ks inputs get' (map (resolve p pinned) rs) ≡ last_block T ks inputs get rs
  same_last n [] a b o l = refl
  same_last n (r ∷ []) a b o l = same_block n r a b o.0 l.0
  same_last n (r ∷ s ∷ rs) a b o l = same_last n (s ∷ rs) a b o.1 l.1

  same_state :
      (n : ℕ) (inst : Inst K) (rs : List Ref)
      → AgreeTo n
      → get_elem? p.insts n ≡ some inst
      → ins_of p inst ≡ some rs
      → All (IsOlder p n) rs
      → All (IsLive live) rs
      → state_block T ks inputs get' inst.kind (map (resolve p pinned) rs)
        ≡ state_block T ks inputs get inst.kind rs
  same_state n inst rs a e e' o l = elim (Bool-cases (is_stateful inst.kind)) [
    | inl s ↦ rw s (same_last n rs a (w.states n inst rs e e' s) o l)
    | inr s ↦ rw s refl
  ]

  same_values :
      (n : ℕ) (inst : Inst K) (rs : List Ref)
      → AgreeTo n
      → get_elem? p.insts n ≡ some inst
      → ins_of p inst ≡ some rs
      → All (IsOlder p n) rs
      → All (IsLive live) rs
      → inst_values T ks inputs get' inst.kind (map (resolve p pinned) rs)
        ≡ inst_values T ks inputs get inst.kind rs
  unfolding inst_values
  same_values n inst rs a e e' o l =
      ap₂ (computed T ks inst.kind)
        (map_agree (ref_value T ks inputs get') (resolve p pinned) (ref_value T ks inputs get)
          (λ r. IsOlder p n r × IsLive live r) rs (λ r (o', l'). a.values r o' l') (both rs o l))
        (same_state n inst rs a e e' o l)
    where
      both :
          (xs : List Ref)
          → All (IsOlder p n) xs
          → All (IsLive live) xs
          → All (λ r. IsOlder p n r × IsLive live r) xs
      both [] u v = tt
      both (x ∷ xs) u v = ((u.0, v.0), both xs u.1 v.1)

  resolved_ins :
      (inst : Inst K) (rs : List Ref)
      → ins_of p inst ≡ some rs
      → ins_of (record p { pool = map (resolve p pinned) p.pool; roots = roots }) inst
        ≡ some (map (resolve p pinned) rs)
  unfolding ins_of
  resolved_ins inst rs e = slice-map (resolve p pinned) p.pool inst.ins.0 inst.ins.1 e

  ins_some :
      (n : ℕ) (inst : Inst K) (rs : List Ref)
      → get_elem? p.insts n ≡ some inst
      → ins_of p inst ≡ some rs
      → ins p n ≡ some rs
  unfolding ins Option.bind slice
  ins_some n inst rs e e' = rw e e'

  -- The instruction `n`, where no pin redirects it.
  new_block :
      (n : ℕ)
      → n < length p.insts
      → AgreeTo n
      → get_elem? live n ≡ some true
      → pin_at pinned n ≡ none
      → get' n ≡ get n
  new_block n lt a l e =
      let (inst, e') = get_elem?_total p.insts n lt in
      let (rs, e'', older, _) = w.ordered n inst e' in
      let lives =
        subst (All (IsLive live)) (ap₂ reads e (ins_some n inst rs e' e'')) (closed n l) in
      some_inj (
        sym (run'.computes n inst (map (resolve p pinned) rs) e' (resolved_ins inst rs e''))
        ∙ same_values n inst rs a e' e'' older lives
        ∙ run.computes n inst rs e' e'')

  new_value :
      (n c : ℕ)
      → n < length p.insts
      → AgreeTo n
      → IsOlder p (suc n) (Ref.value n c)
      → get_elem? live n ≡ some true
      → IsSame (Ref.value n c)
  new_value n c lt a o l = elim (Option-cases (pin_at pinned n)) [
    | inl e ↦
        ap (ref_value T ks inputs get') (resolve-none p w truth pinned pins n c e)
        ∙ ap (λ vs. get_or vs c T.nan) (new_block n lt a l e)
    | inr (q, e) ↦
        let (inst, e', pin) = pins n q e in
        let (cond_live, (arm_live, _)) =
          subst (λ o. All (IsLive live) (reads o (ins p n))) e (closed n l) in
        ap (ref_value T ks inputs get') (resolve-some p w truth pinned pins n c q lt e)
        ∙ a.values q.arm (arm-IsOlder p w truth pinned pins n q e) arm_live
        ∙ arm_value T ks inputs get p truth n c inst q run e' pin
            (o.1 (pinned_kind p w truth pinned pins n inst q e' pin))
            (elim (guards n q e l) [
              | inl shortened ↦
                  ap T.is_true
                    (sym (a.values q.cond (pin-IsOlder p truth n inst q w e' pin).0 cond_live))
                  ∙ shortened
              | inr whole ↦ whole
            ])
  ]

  pub agree_to : (n : ℕ) → n ≤ length p.insts → AgreeTo n
  unfolding resolve follow
  agree_to zero le = record { blocks = λ i lt. elim lt [ ]; values = λ r o l. none_older r o l }
    where
      none_older : (r : Ref) → IsOlder p zero r → IsLive live r → IsSame r
      none_older (Ref.value i c) o l = elim o.0 [ ]
      none_older (Ref.input k) o l = refl
  agree_to (suc n) le =
      let a = agree_to n (omega arith) in
      record {
        blocks = λ i lt l e. elim (lt_last i n lt) [
          | inl older ↦ a.blocks i older l e
          | inr here ↦
              subst (λ k. get' k ≡ get k) (sym here)
                (new_block n le a (subst (λ k. get_elem? live k ≡ some true) here l)
                  (subst (λ k. pin_at pinned k ≡ none) here e))
        ];
        values = λ r o l. at_last n le a r o l;
      }
    where
      at_last :
          (n : ℕ)
          → n < length p.insts
          → AgreeTo n
          → (r : Ref) → IsOlder p (suc n) r
          → IsLive live r
          → IsSame r
      at_last n lt a (Ref.input k) o l = refl
      at_last n lt a (Ref.value i c) o l = elim (lt_last i n o.0) [
        | inl older ↦ a.values (Ref.value i c) (older, o.1) l
        | inr here ↦
            subst (λ k. IsSame (Ref.value k c)) (sym here)
              (new_value n c lt a (subst (λ k. IsOlder p (suc n) (Ref.value k c)) here o)
                (subst (λ k. get_elem? live k ≡ some true) here l))
      ]
