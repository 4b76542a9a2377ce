-- ===== src/Program/Specialize/Checked.antt =====
-- The outputs' check of `SpecializedTape`, crates/rsdag/src/tape/specialize.rs, against the whole
-- program.
use rsdag.Prelude.{
  and_true, ℕ, zero, suc, ◌+◌, ◌≤◌, ◌≡◌, refl, sym, ◌∙◌, ap, subst, Bool, true, false, some, List,
  [], ◌∷◌, ◌++◌, inl, map, length, get_or, get_elem?, get_or_of_get_elem?, get_elem?-lt, arith, All,
  take, drop,
}
use rsdag.Field.{Field}
use rsdag.Semantics.{Scalar}
use rsdag.Program.{Ref, Program, Kernels, IsProgram, IsRun, IsOlder, ref_value, outputs}
use rsdag.Program.Reach.{IsLive, reach_closed}
use rsdag.Program.Specialize.{
  Pinned, Pin, Watch, no_watch, byte, taken, agree, pin_at, resolve, next, live_marks, collect,
  shortened, lookup, holds, check_outputs,
}
use rsdag.Program.Specialize.Pins.{taken-byte}
use rsdag.Program.Specialize.Collect.{IsWatch}
use rsdag.Program.Specialize.Guards.{collect-Covers}
use rsdag.Program.Specialize.Agree.{pin-IsOlder, IsOlder-imp, some_inj}
use rsdag.Program.Specialize.Sound.{ArePins, resolve_once, resolve_value}
use rsdag.Program.Specialize.Runs.{agree_to, map_agree}

pub take-outputs :
    {A B : Type 0} (f : A → B) (xs ys : List A) → take (length xs) (map f (xs ++ ys)) ≡ map f xs
take-outputs f [] ys = refl
take-outputs f (x ∷ xs) ys = ap (λ zs. f x ∷ zs) (take-outputs f xs ys)

pub drop-outputs :
    {A B : Type 0} (f : A → B) (xs ys : List A) → drop (length xs) (map f (xs ++ ys)) ≡ map f ys
drop-outputs f [] ys = refl
drop-outputs f (x ∷ xs) ys = drop-outputs f xs ys

pub map-map :
    {A B C : Type 0} (f : B → C) (g : A → B) (xs : List A)
    → map f (map g xs) ≡ map (λ x. f (g x)) xs
map-map f g [] = refl
map-map f g (x ∷ xs) = ap (λ ys. f (g x) ∷ ys) (map-map f g xs)

agree-eq : (a b : Bool) → agree a b ≡ true → a ≡ b
agree-eq true b h = sym h
agree-eq false true h = cc
agree-eq false false h = refl

-- Guards that hold have the truths that are expected.
holds-get :
    {K : Field} (T : Scalar K) (val : Ref → T.Val) (rs : List Ref) (es : List ℕ) (g : ℕ) (r : Ref)
    (e : ℕ)
    → holds T (map val rs) es ≡ true
    → get_elem? rs g ≡ some r
    → get_elem? es g ≡ some e
    → T.is_true (val r) ≡ taken e
unfolding holds
holds-get T val [] es g r e h k k' = cc
holds-get T val (x ∷ rs) [] g r e h k k' = cc
holds-get T val (x ∷ rs) (y ∷ es) zero r e h k k' =
    ap (λ z. T.is_true (val z)) (sym (some_inj k))
    ∙ agree-eq (T.is_true (val x)) (taken y)
        (and_true (agree (T.is_true (val x)) (taken y)) (holds T (map val rs) es) h).0
    ∙ ap taken (some_inj k')
holds-get T val (x ∷ rs) (y ∷ es) (suc g) r e h k k' =
    holds-get T val rs es g r e
      (and_true (agree (T.is_true (val x)) (taken y)) (holds T (map val rs) es) h).1 k k'

pub no_watch-IsWatch : (f : Ref → ℕ) → IsWatch f no_watch
unfolding lookup
no_watch-IsWatch f = record { same = refl; found = no_found; right = λ r g k. cc }
  where
    no_found : (r : Ref) (g : ℕ) → lookup [] r ≡ some g → get_elem? [] g ≡ some r
    no_found r g k = cc

-- The truths of the conditions in a run.
abbrev pub truth_of :
    {K : Field} (T : Scalar K) → Kernels T → (ℕ → T.Val) → (ℕ → List T.Val) → Ref → Bool
truth_of T ks inputs get r = T.is_true (ref_value T ks inputs get r)

module _ {K : Field} (T : Scalar K) (ks : Kernels T) (p : Program K) (w : IsProgram p)
    (traced_inputs : ℕ → T.Val) (traced : ℕ → List T.Val)
    (traced-IsRun : IsRun T ks traced_inputs p traced) (pinned : List Pin)
    (pins : ArePins p (truth_of T ks traced_inputs traced) pinned) where
  abbrev pub condition : Ref → ℕ
  condition r = byte (truth_of T ks traced_inputs traced r)

  pub cond-IsOlder :
      (i : ℕ) (q : Pinned) → pin_at pinned i ≡ some q → IsOlder p (length p.insts) q.cond
  cond-IsOlder i q e =
      let (inst, e', pin) = pins i q e in
      IsOlder-imp p i (length p.insts) q.cond (omega (arith, get_elem?-lt p.insts i e'))
        (pin-IsOlder p (truth_of T ks traced_inputs traced) i inst q w e' pin).0

  -- The choice of a pin is the truth of the condition that guards it.
  pub choice-condition :
      (i : ℕ) (q : Pinned)
      → pin_at pinned i ≡ some q
      → q.choice ≡ condition (resolve p pinned q.cond)
  choice-condition i q e =
      let (_, _, pin) = pins i q e in
      pin.choice
      ∙ ap (λ v. byte (T.is_true v))
          (sym
            (resolve_value p w (truth_of T ks traced_inputs traced) pinned pins T ks traced_inputs
              traced q.cond traced-IsRun (λ s. refl) (cond-IsOlder i q e)).0)

  abbrev pub watched : List Bool → ℕ → Watch
  watched live first = collect (resolve p pinned) pinned live first p.insts 0 no_watch

  -- Guards that hold give each live pinned select the truth that its pin was read from.
  guarded :
      (first : ℕ) (live : List Bool) (val : Ref → T.Val)
      → ((i : ℕ) (q : Pinned) → pin_at pinned i ≡ some q → first ≤ i)
      → holds T
          (map val (map (resolve p pinned) (watched live first).guards))
          (watched live first).expected
        ≡ true
      → (i : ℕ) (q : Pinned) → pin_at pinned i ≡ some q
      → get_elem? live i ≡ some true
      → T.is_true (val (resolve p pinned q.cond)) ≡ truth_of T ks traced_inputs traced q.cond
  guarded first live val after held i q e l =
      let (inst, e', pin) = pins i q e in
      let (isw, _, covers) =
        collect-Covers condition (resolve p pinned) pinned live first p.insts 0 no_watch
          choice-condition (no_watch-IsWatch condition) in
      let (g, here, expected) =
        covers i inst q (after i q e) e' pin.select
          (subst (λ k. get_or live k false ≡ true) (zero_add i)
            (get_or_of_get_elem? live i false l))
          (subst (λ k. pin_at pinned k ≡ some q) (zero_add i) e) in
      ap (λ r. T.is_true (val r))
        (sym (
          resolve_once p w (truth_of T ks traced_inputs traced) pinned pins q.cond
            (cond-IsOlder i q e)))
      ∙ holds-get T (λ r. val (resolve p pinned r)) (watched live first).guards
          (watched live first).expected g (resolve p pinned q.cond) q.choice
          (subst (λ vs. holds T vs (watched live first).expected ≡ true)
            (map-map val (resolve p pinned) (watched live first).guards) held)
          here expected
      ∙ ap taken pin.choice
      ∙ taken-byte (truth_of T ks traced_inputs traced q.cond)
    where
      zero_add : (j : ℕ) → j ≡ 0 + j
      zero_add j = omega arith

  -- Where the check passes, the outputs that it leaves are the whole program's.
  pub shortened_sound :
      (inputs : ℕ → T.Val) (get get' : ℕ → List T.Val) (first : ℕ) (live : List Bool)
      → live_marks p pinned ≡ some live
      → ((i : ℕ) (q : Pinned) → pin_at pinned i ≡ some q → first ≤ i)
      → IsRun T ks inputs p get
      → IsRun T ks inputs (shortened p pinned (watched live first)).program get'
      → (out : List T.Val)
      → check_outputs T
          (shortened p pinned (watched live first))
          (outputs T ks inputs get' (shortened p pinned (watched live first)).program)
        ≡ (true, out)
      → out ≡ outputs T ks inputs get p
  unfolding live_marks shortened check_outputs
  shortened_sound inputs get get' first live marks after run run' out h =
      let watch = watched live first in
      let val' = ref_value T ks inputs get' in
      let (rooted, closed) = reach_closed (next p pinned) (length p.insts) p.roots live marks in
      let (held, left) = pair_inj h in
      let guards_hold =
        subst (λ vs. holds T vs watch.expected ≡ true)
          (ap (drop (length p.roots)) (map-map val' (resolve p pinned) (p.roots ++ watch.guards))
            ∙ drop-outputs (λ r. val' (resolve p pinned r)) p.roots watch.guards
            ∙ sym (map-map val' (resolve p pinned) watch.guards))
          held in
      let agrees =
        agree_to T ks inputs p w (truth_of T ks traced_inputs traced) pinned pins live get get'
          (map (resolve p pinned) (p.roots ++ watch.guards)) run run' closed
          (λ i q e l. inl (guarded first live val' after guards_hold i q e l)) (length p.insts)
          (omega arith) in
      sym left
      ∙ ap (take (length p.roots)) (map-map val' (resolve p pinned) (p.roots ++ watch.guards))
      ∙ take-outputs (λ r. val' (resolve p pinned r)) p.roots watch.guards
      ∙ sym (map-map val' (resolve p pinned) p.roots)
      ∙ map_agree val' (resolve p pinned) (ref_value T ks inputs get)
          (λ r. IsOlder p (length p.insts) r × IsLive live r) p.roots
          (λ r (o, l). agrees.values r o l) (both p.roots w.roots rooted)
    where
      pair_inj : {q r : Bool × List T.Val} → q ≡ r → (q.0 ≡ r.0) × (q.1 ≡ r.1)
      pair_inj e = (ap (λ q. q.0) e, ap (λ q. q.1) e)

      both :
          (xs : List Ref)
          → All (IsOlder p (length p.insts)) xs
          → All (IsLive live) xs
          → All (λ r. IsOlder p (length p.insts) r × IsLive live r) xs
      both [] u v = tt
      both (x ∷ xs) u v = ((u.0, v.0), both xs u.1 v.1)
