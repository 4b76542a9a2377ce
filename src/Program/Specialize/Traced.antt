-- ===== src/Program/Specialize/Traced.antt =====
-- The outputs' check of `SpecializedTape`, crates/rsdag/src/tape/specialize.rs, in the region that the
-- trace was recorded in.
use rsdag.Prelude.{
  ℕ, zero, suc, ◌≡◌, refl, sym, ◌∙◌, ap, ap₂, subst, Bool, true, false, some, List, [], ◌∷◌, ◌++◌,
  inr, map, length, get_elem?, get_or, arith, All, take, drop, ◌&&◌,
}
use rsdag.Field.{Field}
use rsdag.Semantics.{Scalar}
use rsdag.Program.{Ref, Program, Kernels, IsProgram, IsRun, IsOlder, ref_value, outputs, ins}
use rsdag.Program.Follow.{follow_keeps}
use rsdag.Program.Reach.{IsLive, reach_closed}
use rsdag.Program.Specialize.{
  Pinned, Pin, no_watch, Specialized, byte, taken, agree, pin_at, arm_at, resolve, next, reads,
  pins, live_marks, shortened, shorten, specialize, holds, check_outputs,
}
use rsdag.Program.Specialize.Pins.{pins_from-HasPin, taken-byte}
use rsdag.Program.Specialize.Guards.{collect-Covers, collect-All}
use rsdag.Program.Specialize.Agree.{some_inj}
use rsdag.Program.Specialize.Sound.{ArePins, arm_pin, resolve_value}
use rsdag.Program.Specialize.Runs.{agree_to, map_agree}
use rsdag.Program.Specialize.Checked.{
  truth_of, condition, choice-condition, cond-IsOlder, watched, take-outputs, drop-outputs, map-map,
  no_watch-IsWatch,
}
use rsdag.Program.Specialize.Whole.{trace_of, if_some, bind_some, map-some}

and_intro : (a b : Bool) → a ≡ true → b ≡ true → a && b ≡ true
and_intro true b h k = k
and_intro false b h k = cc

agree_refl : (b : Bool) → agree b b ≡ true
agree_refl true = refl
agree_refl false = refl

-- Guards whose truths are the expected ones hold.
holds-All :
    {K : Field} (T : Scalar K) (val : Ref → T.Val) (f : Ref → Bool) (P : Ref → Type 0)
    (rs : List Ref) (es : List ℕ)
    → ((g : ℕ) (r : Ref) → get_elem? rs g ≡ some r → get_elem? es g ≡ some (byte (f r)))
    → ((r : Ref) → P r → T.is_true (val r) ≡ f r)
    → All P rs
    → holds T (map val rs) es ≡ true
unfolding holds
holds-All T val f P [] es right same all = refl
holds-All T val f P (r ∷ rs) [] right same all = refl
holds-All T val f P (r ∷ rs) (e ∷ es) right same all =
    and_intro (agree (T.is_true (val r)) (taken e)) (holds T (map val rs) es)
      (ap₂ agree (same r all.0) (ap taken (some_inj (right 0 r refl)) ∙ taken-byte (f r))
        ∙ agree_refl (f r))
      (holds-All T val f P rs es (λ g. right (suc g)) same all.1)

module _ {K : Field} (T : Scalar K) (ks : Kernels T) (p : Program K) (w : IsProgram p)
    (inputs : ℕ → T.Val) (get : ℕ → List T.Val) (run : IsRun T ks inputs p get) (pinned : List Pin)
    (pins : ArePins p (truth_of T ks inputs get) pinned) where
  -- The older operands that the search marked.
  abbrev IsKnown : List Bool → Ref → Type 0
  IsKnown live r = IsOlder p (length p.insts) r × IsLive live r

  -- Resolving stays among them.
  resolve-IsKnown :
      (live : List Bool) (r : Ref)
      → ((i : ℕ) → get_elem? live i ≡ some true → All (IsLive live) (next p pinned i))
      → IsKnown live r
      → IsKnown live (resolve p pinned r)
  unfolding resolve
  resolve-IsKnown live r closed h = (
    (resolve_value p w (truth_of T ks inputs get) pinned pins T ks inputs get r run (λ s. refl)
        h.0).1,
    (follow_keeps (arm_at pinned) (λ s. true) (IsLive live) step (length p.insts) r h.1).1,
  )
    where
      step :
          (i c : ℕ) (a : Ref)
          → arm_at pinned i ≡ some a
          → IsLive live (Ref.value i c)
          → (true ≡ true) × IsLive live a
      step i c a e l =
          let (q, e', here) = arm_pin p w (truth_of T ks inputs get) pinned pins i a e in
          let (_, (arm_live, _)) =
            subst (λ o. All (IsLive live) (reads o (ins p i))) e' (closed i l) in
          (refl, subst (IsLive live) here arm_live)

  live_of : (live : List Bool) (i : ℕ) → get_or live i false ≡ true → get_elem? live i ≡ some true
  live_of [] i h = cc
  live_of (b ∷ live) zero h = ap some h
  live_of (b ∷ live) (suc i) h = live_of live i h

  cond-IsKnown :
      (live : List Bool) (i : ℕ) (q : Pinned)
      → ((i : ℕ) → get_elem? live i ≡ some true → All (IsLive live) (next p pinned i))
      → get_or live i false ≡ true
      → pin_at pinned i ≡ some q
      → IsKnown live (resolve p pinned q.cond)
  cond-IsKnown live i q closed l e = resolve-IsKnown live q.cond closed (
    cond-IsOlder T ks p w inputs get run pinned pins i q e,
    (subst (λ o. All (IsLive live) (reads o (ins p i))) e (closed i (live_of live i l))).0,
  )

  -- In the region of the trace the check passes, with the whole program's outputs.
  pub shortened_passes :
      (get' : ℕ → List T.Val) (first : ℕ) (live : List Bool)
      → live_marks p pinned ≡ some live
      → IsRun T ks inputs
          (shortened p pinned (watched T ks p w inputs get run pinned pins live first)).program
          get'
      → check_outputs T
          (shortened p pinned (watched T ks p w inputs get run pinned pins live first))
          (outputs T ks inputs get'
            (shortened p pinned (watched T ks p w inputs get run pinned pins live first)).program)
        ≡ (true, outputs T ks inputs get p)
  unfolding live_marks shortened check_outputs
  shortened_passes get' first live marks run' =
      let watch = watched T ks p w inputs get run pinned pins live first in
      let val' = ref_value T ks inputs get' in
      let res = resolve p pinned in
      let (rooted, closed) = reach_closed (next p pinned) (length p.insts) p.roots live marks in
      let agrees =
        agree_to T ks inputs p w (truth_of T ks inputs get) pinned pins live get get'
          (map res (p.roots ++ watch.guards)) run run' closed (λ i q e l. inr refl) (length p.insts)
          (omega arith) in
      let (isw, _, _) =
        collect-Covers (condition T ks p w inputs get run pinned pins) res pinned live first p.insts
          0 no_watch (choice-condition T ks p w inputs get run pinned pins)
          (no_watch-IsWatch (condition T ks p w inputs get run pinned pins)) in
      let known =
        collect-All (IsKnown live) res pinned live first p.insts 0 no_watch
          (λ j q l e. cond-IsKnown live j q closed l e) tt in
      let held =
        holds-All T (λ r. val' (res r)) (truth_of T ks inputs get) (IsKnown live) watch.guards
          watch.expected (λ g r e. isw.right r g e) (λ r (o, l). ap T.is_true (agrees.values r o l))
          known in
      ap₂ (λ b vs. (b, vs))
        (ap (λ vs. holds T vs watch.expected)
            (ap (drop (length p.roots)) (map-map val' res (p.roots ++ watch.guards))
              ∙ drop-outputs (λ r. val' (res r)) p.roots watch.guards)
          ∙ held)
        (ap (take (length p.roots)) (map-map val' res (p.roots ++ watch.guards))
          ∙ take-outputs (λ r. val' (res r)) p.roots watch.guards
          ∙ sym (map-map val' res p.roots)
          ∙ map_agree val' res (ref_value T ks inputs get) (IsKnown live) p.roots
              (λ r (o, l). agrees.values r o l) (both p.roots w.roots rooted))
    where
      both :
          (xs : List Ref)
          → All (IsOlder p (length p.insts)) xs
          → All (IsLive live) xs
          → All (IsKnown live) xs
      both [] u v = tt
      both (x ∷ xs) u v = ((u.0, v.0), both xs u.1 v.1)

module _ {K : Field} (T : Scalar K) (ks : Kernels T) (p : Program K) (inputs : ℕ → T.Val)
    (get : ℕ → List T.Val) (w : IsProgram p) (run : IsRun T ks inputs p get) where
  -- For a program in dependency order that `specialize` shortens by the trace of a run, and for a
  -- run of the shortened program on that run's inputs: its outputs pass the check, and the outputs
  -- that are left are the program's.
  pub check_outputs-trace_of :
      (pin : List Bool) (s : Specialized K) (get' : ℕ → List T.Val)
      → specialize p (trace_of T ks p inputs get 0) pin ≡ some s
      → IsRun T ks inputs s.program get'
      → check_outputs T s (outputs T ks inputs get' s.program) ≡ (true, outputs T ks inputs get p)
  unfolding specialize shorten trace_of pins
  check_outputs-trace_of pin s get' h run' =
      let (pinned, e, e') = bind_some _ _ (if_some _ _ h) in
      let (_, all) = pins_from-HasPin p (truth_of T ks inputs get) 0 p.insts pin e in
      let (live, marks, e'') = map-some (live_marks p pinned) _ e' in
      subst
        (λ (s : Specialized K).
          IsRun T ks inputs s.program get'
          → check_outputs T s (outputs T ks inputs get' s.program)
            ≡ (true, outputs T ks inputs get p))
        e''
        (shortened_passes T ks p w inputs get run pinned
          (λ i q k. let (_, inst, at, pin) = all i q k in (inst, at, pin)) get' 0 live marks)
        run'
