-- ===== src/Program/Specialize/Sound.antt =====
-- What the shortened program of `Tape::shorten`, crates/rsdag/src/tape/specialize.rs, computes where
-- its guards hold.
use mathlib.Core.Option
use rsdag.Prelude.{
  ℕ, ◌<◌, ◌≡◌, refl, sym, ◌∙◌, ap, subst, Bool, none, some, List, length, get_elem?, arith,
}
use rsdag.Field.{Field}
use rsdag.Semantics.{Scalar}
use rsdag.Program.{Ref, Kind, Inst, Program, Kernels, IsProgram, IsRun, IsOlder, ref_value, kind_at}
use rsdag.Program.Follow.{follow, Falls, follow_keeps, follow_settled, follow_one, follow-IsSettled}
use rsdag.Program.Specialize.{Pinned, Pin, pin_at, arm_at, resolve}
use rsdag.Program.Specialize.Pins.{IsPin}
use rsdag.Program.Specialize.Agree.{
  arm_value, operand-IsOlder, IsOlder-imp, IsOlder-IsBelow, is_select-eq, some_inj,
}

-- The pins are of the program's selects.
abbrev pub ArePins : {K : Field} → Program K → (Ref → Bool) → List Pin → Type 0
ArePins p truth pinned =
    (i : ℕ) (q : Pinned)
    → pin_at pinned i ≡ some q
    → (inst : Inst _) × (get_elem? p.insts i ≡ some inst) × IsPin p truth inst q

module _ {K : Field} (p : Program K) (w : IsProgram p) (truth : Ref → Bool) (pinned : List Pin)
    (pins : ArePins p truth pinned) where
  pub arm_pin :
      (i : ℕ) (a : Ref)
      → arm_at pinned i ≡ some a
      → (q : Pinned) × (pin_at pinned i ≡ some q) × (q.arm ≡ a)
  arm_pin i a h = at (pin_at pinned i) refl h
    where
      at :
          (o : Pin)
          → pin_at pinned i ≡ o
          → Option.map (λ (q : Pinned). q.arm) o ≡ some a
          → (q : Pinned) × (pin_at pinned i ≡ some q) × (q.arm ≡ a)
      at none e k = cc
      at (some q) e k = (q, e, some_inj k)

  pub pinned_kind :
      (i : ℕ) (inst : Inst K) (q : Pinned)
      → get_elem? p.insts i ≡ some inst
      → IsPin p truth inst q
      → kind_at p i ≡ some Kind.select
  pinned_kind i inst q e pin =
      ap (Option.map (λ (x : Inst K). x.kind)) e ∙ ap some (is_select-eq inst.kind pin.select)

  pub arm-IsOlder : (i : ℕ) (q : Pinned) → pin_at pinned i ≡ some q → IsOlder p i q.arm
  arm-IsOlder i q h = let (inst, e, k) = pins i q h in operand-IsOlder p truth i inst q w e k

  pub pinned-Falls : Falls (arm_at pinned)
  pinned-Falls i a h =
      let (q, e, same) = arm_pin i a h in
      IsOlder-IsBelow p i a (subst (IsOlder p i) same (arm-IsOlder i q e))

  -- A resolved operand is resolved.
  pub resolve_once :
      (r : Ref)
      → IsOlder p (length p.insts) r
      → resolve p pinned (resolve p pinned r) ≡ resolve p pinned r
  unfolding resolve
  resolve_once r h =
      follow_settled (arm_at pinned) (length p.insts) (follow (arm_at pinned) (length p.insts) r) (
        follow-IsSettled (arm_at pinned) (length p.insts) r pinned-Falls
          (IsOlder-IsBelow p (length p.insts) r h))

  -- Of a value that no pin redirects.
  pub resolve-none :
      (i c : ℕ) → pin_at pinned i ≡ none → resolve p pinned (Ref.value i c) ≡ Ref.value i c
  unfolding resolve
  resolve-none i c h =
      follow_settled (arm_at pinned) (length p.insts) (Ref.value i c)
        (ap (Option.map (λ (q : Pinned). q.arm)) h)

  pub resolve-some :
      (i c : ℕ) (q : Pinned)
      → i < length p.insts
      → pin_at pinned i ≡ some q
      → resolve p pinned (Ref.value i c) ≡ resolve p pinned q.arm
  unfolding resolve
  resolve-some i c q lt h =
      follow_one (arm_at pinned) (length p.insts) i c q.arm pinned-Falls
        (ap (Option.map (λ (q : Pinned). q.arm)) h) lt

  -- In the run that the trace is of, resolving changes no value.
  pub resolve_value :
      (T : Scalar K) (ks : Kernels T) (inputs : ℕ → T.Val) (get : ℕ → List T.Val) (r : Ref)
      → IsRun T ks inputs p get
      → ((s : Ref) → T.is_true (ref_value T ks inputs get s) ≡ truth s)
      → IsOlder p (length p.insts) r
      → (ref_value T ks inputs get (resolve p pinned r) ≡ ref_value T ks inputs get r)
        × IsOlder p (length p.insts) (resolve p pinned r)
  unfolding resolve
  resolve_value T ks inputs get r run same h =
      follow_keeps (arm_at pinned) (ref_value T ks inputs get) (IsOlder p (length p.insts)) step
        (length p.insts) r h
    where
      step :
          (i c : ℕ) (a : Ref)
          → arm_at pinned i ≡ some a
          → IsOlder p (length p.insts) (Ref.value i c)
          → (ref_value T ks inputs get a ≡ ref_value T ks inputs get (Ref.value i c))
            × IsOlder p (length p.insts) a
      step i c a e (lt, one) =
          let (q, e', here) = arm_pin i a e in
          let (inst, e'', pin) = pins i q e' in
          (
            ap (ref_value T ks inputs get) (sym here)
                ∙ arm_value T ks inputs get p truth i c inst q run e'' pin
                    (one (pinned_kind i inst q e'' pin)) (same q.cond),
            subst (IsOlder p (length p.insts)) here
                (IsOlder-imp p i (length p.insts) q.arm (omega (arith, lt)) (arm-IsOlder i q e')),
          )
