-- ===== src/Program/Specialize/Collect.antt =====
-- The loop of `Tape::shorten`, crates/rsdag/src/tape/specialize.rs, that collects the guards of the
-- selects that the outputs reach.
use rsdag.Prelude.{
  and_true, ℕ, zero, suc, ◌≡◌, refl, sym, ◌∙◌, ap, ap₂, subst, Bool, true, false, none, some, List,
  [], ◌∷◌, ◌++◌, ◌⊎◌, inl, inr, length, get_elem?, if◌then◌else◌, arith, Option-cases,
  length-append, get_elem?-append, get_elem?-append_end, ==_iff, ◌==◌,
}
use rsdag.Program.{Ref}
use rsdag.Program.Specialize.{Pinned, Pin, Watch, lookup, same_ref, enter, watch, u32_max}

-- Each index leads to its condition, and each condition stands beside what `f` says of it.
pub record IsWatch (f : Ref → ℕ) (w : Watch) : Type 0 where
  pub same : length w.guards ≡ length w.expected
  pub found : (r : Ref) (g : ℕ) → lookup w.guard r ≡ some g → get_elem? w.guards g ≡ some r
  pub right :
      (r : Ref) (g : ℕ) → get_elem? w.guards g ≡ some r → get_elem? w.expected g ≡ some (f r)

-- A condition is among the guards with the truth that it shall have.
abbrev pub IsGuard : Watch → Ref → ℕ → Type 0
IsGuard w r e = (g : ℕ) × (get_elem? w.guards g ≡ some r) × (get_elem? w.expected g ≡ some e)

pub same_ref-eq : (r s : Ref) → same_ref r s ≡ true → r ≡ s
same_ref-eq (Ref.value i c) (Ref.value j d) h =
    let (p, q) = and_true (i == j) (c == d) h in ap₂ Ref.value ((==_iff i j).0 p) ((==_iff c d).0 q)
same_ref-eq (Ref.value i c) (Ref.input k) h = cc
same_ref-eq (Ref.input k) (Ref.value i c) h = cc
same_ref-eq (Ref.input k) (Ref.input l) h = ap Ref.input ((==_iff k l).0 h)

lookup-cons :
    (k r : Ref) (g n : ℕ) (table : List (Ref × ℕ))
    → lookup ((k, n) ∷ table) r ≡ some g
    → ((k ≡ r) × (n ≡ g)) ⊎ (lookup table r ≡ some g)
unfolding lookup
lookup-cons k r g n table h = at (same_ref k r) refl h
  where
    at :
        (b : Bool)
        → same_ref k r ≡ b
        → (if b then some n else lookup table r) ≡ some g
        → ((k ≡ r) × (n ≡ g)) ⊎ (lookup table r ≡ some g)
    at true e q = inl (same_ref-eq k r e, cc)
    at false e q = inr q

get-end :
    {A : Type 0} (xs : List A) (x a : A) (i : ℕ)
    → get_elem? (xs ++ x ∷ []) i ≡ some a
    → (get_elem? xs i ≡ some a) ⊎ ((i ≡ length xs) × (x ≡ a))
get-end [] x a zero h = inr (refl, cc)
get-end [] x a (suc i) h = cc
get-end (y ∷ xs) x a zero h = inl h
get-end (y ∷ xs) x a (suc i) h = elim (get-end xs x a i h) [
  | inl e ↦ inl e
  | inr (e, e') ↦ inr (ap suc e, e')
]

module _ (f : Ref → ℕ) (cond : Ref) (w : Watch) (h : IsWatch f w) where
  entered-same : length (w.guards ++ cond ∷ []) ≡ length (w.expected ++ f cond ∷ [])
  entered-same =
      omega
        (arith, length-append w.guards (cond ∷ []), length-append w.expected (f cond ∷ []), h.same)

  entered-found :
      (r : Ref) (g : ℕ)
      → lookup ((cond, length w.guards) ∷ w.guard) r ≡ some g
      → get_elem? (w.guards ++ cond ∷ []) g ≡ some r
  entered-found r g e = elim (lookup-cons cond r g (length w.guards) w.guard e) [
    | inl (q, q') ↦
        subst (λ i. get_elem? (w.guards ++ cond ∷ []) i ≡ some r) q'
          (get_elem?-append_end w.guards cond [] ∙ ap some q)
    | inr q ↦ get_elem?-append w.guards (cond ∷ []) g (h.found r g q)
  ]

  entered-right :
      (r : Ref) (g : ℕ)
      → get_elem? (w.guards ++ cond ∷ []) g ≡ some r
      → get_elem? (w.expected ++ f cond ∷ []) g ≡ some (f r)
  entered-right r g e = elim (get-end w.guards cond r g e) [
    | inl q ↦ get_elem?-append w.expected (f cond ∷ []) g (h.right r g q)
    | inr (q, q') ↦
        subst (λ i. get_elem? (w.expected ++ f cond ∷ []) i ≡ some (f r)) (sym (q ∙ h.same))
          (get_elem?-append_end w.expected (f cond) [] ∙ ap some (ap f q'))
  ]

-- The later guards hold the earlier ones.
abbrev pub Grows : Watch → Watch → Type 0
Grows w w' = (r : Ref) (e : ℕ) → IsGuard w r e → IsGuard w' r e

module _ (f : Ref → ℕ) where
  -- A condition is entered with what `f` says of it: nothing is lost, and it is a guard then.
  enter-IsWatch :
      (cond : Ref) (w : Watch)
      → IsWatch f w
      → IsWatch f (enter (lookup w.guard cond) cond (f cond) w)
        × Grows w (enter (lookup w.guard cond) cond (f cond) w)
        × IsGuard (enter (lookup w.guard cond) cond (f cond) w) cond (f cond)
  enter-IsWatch cond w h = elim (Option-cases (lookup w.guard cond)) [
    | inr (g, e) ↦ rw e (
      record { same = h.same; found = h.found; right = h.right },
      λ r n k. k,
      (g, h.found cond g e, h.right cond g (h.found cond g e)),
    )
    | inl e ↦ rw e (
      record {
        same = entered-same f cond w h;
        found = entered-found f cond w h;
        right = entered-right f cond w h;
      },
      λ r n (g, k, k'). (
        g,
        get_elem?-append w.guards (cond ∷ []) g k,
        get_elem?-append w.expected (f cond ∷ []) g k',
      ),
      (
        length w.guards,
        get_elem?-append_end w.guards cond [],
        entered-right f cond w h cond (length w.guards) (get_elem?-append_end w.guards cond []),
      ),
    )
  ]

  -- A select that is not watched leaves the guards as they are.
  unwatched :
      (w : Watch) → IsWatch f w → IsWatch f (record w { guard_of = w.guard_of ++ u32_max ∷ [] })
  unwatched w h = record { same = h.same; found = h.found; right = h.right }

  pub watch-IsWatch :
      (res : Ref → Ref) (live : Bool) (q : Pin) (w : Watch)
      → ((r : Pinned) → q ≡ some r → r.choice ≡ f (res r.cond))
      → IsWatch f w
      → IsWatch f (watch res live q w)
        × Grows w (watch res live q w)
        × ((r : Pinned)
            → live ≡ true
            → q ≡ some r
            → IsGuard (watch res live q w) (res r.cond) r.choice)
  unfolding watch
  watch-IsWatch res true (some q) w c h =
      let (a, b, e) = enter-IsWatch (res q.cond) w h in
      subst
        (λ n.
          IsWatch f (enter (lookup w.guard (res q.cond)) (res q.cond) n w)
          × Grows w (enter (lookup w.guard (res q.cond)) (res q.cond) n w)
          × ((r : Pinned)
              → true ≡ true
              → some q ≡ some r
              → IsGuard (enter (lookup w.guard (res q.cond)) (res q.cond) n w) (res r.cond)
                  r.choice))
        (sym (c q refl)) (a, b, λ r l k. same r k e)
    where
      same :
          (r : Pinned)
          → some q ≡ some r
          → IsGuard
              (enter (lookup w.guard (res q.cond)) (res q.cond) (f (res q.cond)) w)
              (res q.cond)
              (f (res q.cond))
          → IsGuard
              (enter (lookup w.guard (res q.cond)) (res q.cond) (f (res q.cond)) w)
              (res r.cond)
              r.choice
      same r k (g, e, e') = (
        g,
        e ∙ ap some (ap (λ (x : Pinned). res x.cond) (some_inj k)),
        e' ∙ ap some (sym (c q refl) ∙ ap (λ (x : Pinned). x.choice) (some_inj k)),
      )
        where
          some_inj : {x y : Pinned} → some x ≡ some y → x ≡ y
          some_inj p = cc
  watch-IsWatch res true none w c h = (unwatched w h, λ r e k. k, λ r l k. cc)
  watch-IsWatch res false none w c h = (unwatched w h, λ r e k. k, λ r l k. cc)
  watch-IsWatch res false (some q) w c h = (unwatched w h, λ r e k. k, λ r l k. cc)
