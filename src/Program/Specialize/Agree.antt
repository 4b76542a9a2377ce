-- ===== src/Program/Specialize/Agree.antt =====
-- The runs of a program and of the one that `Tape::shorten` of
-- crates/rsdag/src/tape/specialize.rs makes of it, instruction by instruction.
use rsdag.Prelude.{
  ℕ, ◌≤◌, ◌≡◌, refl, sym, ◌∙◌, ap, subst, Bool, true, false, some, List, [], ◌∷◌, get_or, get_elem?,
  if◌then◌else◌, arith, All,
}
use rsdag.Field.{Field}
use rsdag.Semantics.{Scalar}
use rsdag.Program.{
  Ref, Kind, Inst, Program, Kernels, IsProgram, IsRun, IsOlder, inst_values, ref_value, is_select,
  computed, scalar,
}
use rsdag.Program.Follow.{IsBelow}
use rsdag.Program.Specialize.{Pinned}
use rsdag.Program.Specialize.Pins.{IsPin}

pub some_inj {ℓ} : {A : Type ℓ} {a b : A} → some a ≡ some b → a ≡ b
some_inj e = cc

pub is_select-eq : {K : Field} (k : Kind K) → is_select k ≡ true → k ≡ Kind.select
unfolding is_select
is_select-eq Kind.select h = refl
is_select-eq _ h = cc

module _ {K : Field} (p : Program K) where
  pub IsOlder-IsBelow : (n : ℕ) (r : Ref) → IsOlder p n r → IsBelow n r
  IsOlder-IsBelow n (Ref.value i c) h = h.0
  IsOlder-IsBelow n (Ref.input k) h = tt

  pub IsOlder-imp : (n m : ℕ) (r : Ref) → n ≤ m → IsOlder p n r → IsOlder p m r
  IsOlder-imp n m (Ref.value i c) le h = (omega (arith, h.0), h.1)
  IsOlder-imp n m (Ref.input k) le h = tt

  -- The operands of a pinned select.
  pub pin-IsOlder :
      (truth : Ref → Bool) (n : ℕ) (inst : Inst K) (q : Pinned)
      → IsProgram p
      → get_elem? p.insts n ≡ some inst
      → (h : IsPin p truth inst q)
      → IsOlder p n q.cond × IsOlder p n h.then_arm × IsOlder p n h.else_arm
  pin-IsOlder truth n inst q w e h =
      let (rs, e', older, _) = w.ordered n inst e in
      let all = subst (All (IsOlder p n)) (some_inj (sym e' ∙ h.operands)) older in
      (all.0, all.1.0, all.1.1.0)

  pub operand-IsOlder :
      (truth : Ref → Bool) (n : ℕ) (inst : Inst K) (q : Pinned)
      → IsProgram p
      → get_elem? p.insts n ≡ some inst
      → (h : IsPin p truth inst q) → IsOlder p n q.arm
  operand-IsOlder truth n inst q w e h =
      let (_, t, f) = pin-IsOlder truth n inst q w e h in
      subst (IsOlder p n) (sym h.arm) (either (truth q.cond) h.then_arm h.else_arm t f)
    where
      either :
          (b : Bool) (r s : Ref) → IsOlder p n r → IsOlder p n s → IsOlder p n (if b then r else s)
      either true r s t f = t
      either false r s t f = f

module _ {K : Field} (T : Scalar K) (ks : Kernels T) (inputs : ℕ → T.Val)
    (get : ℕ → List T.Val) where
  abbrev pub val : Ref → T.Val
  val r = ref_value T ks inputs get r

  -- The block of a select.
  select_block :
      (k : Kind K) (c t e : Ref) (rs : List Ref)
      → k ≡ Kind.select
      → inst_values T ks inputs get k (c ∷ t ∷ e ∷ rs)
        ≡ some ((if T.is_true (val c) then val t else val e) ∷ [])
  unfolding inst_values computed scalar
  select_block k c t e rs h = rw h refl

  val_if : (b : Bool) (t e : Ref) → val (if b then t else e) ≡ (if b then val t else val e)
  val_if true t e = refl
  val_if false t e = refl

  get_first : (xs : List T.Val) (v : T.Val) (c : ℕ) → xs ≡ v ∷ [] → c ≡ 0 → get_or xs c T.nan ≡ v
  get_first xs v c e h = rw e (rw h refl)

  -- A pinned select has its arm's value where its condition is what the pin says.
  pub arm_value :
      (p : Program K) (truth : Ref → Bool) (n c : ℕ) (inst : Inst K) (q : Pinned)
      → IsRun T ks inputs p get
      → get_elem? p.insts n ≡ some inst
      → IsPin p truth inst q
      → c ≡ 0
      → T.is_true (val q.cond) ≡ truth q.cond
      → val q.arm ≡ val (Ref.value n c)
  arm_value p truth n c inst q run e h first same =
      ap val h.arm
      ∙ val_if (truth q.cond) h.then_arm h.else_arm
      ∙ ap (λ b. if b then val h.then_arm else val h.else_arm) (sym same)
      ∙ sym (
          get_first (get n) (if T.is_true (val q.cond) then val h.then_arm else val h.else_arm) c
            (some_inj (
              sym (run.computes n inst (q.cond ∷ h.then_arm ∷ h.else_arm ∷ h.others) e h.operands)
              ∙ select_block inst.kind q.cond h.then_arm h.else_arm h.others
                  (is_select-eq inst.kind h.select)))
            first)
