-- ===== src/Choices/Pins.antt =====
-- `Choices::observe` of crates/rsdag/src/choices.rs and the switch that turns specialization off.
use rsdag.Prelude.{
  ℕ, ◌+◌, ◌-◌, ◌≤◌, ◌≡◌, refl, ◌∙◌, ap, Bool, true, false, List, [], ◌∷◌, length, take, zero, suc,
  get_elem?, some, ◌==◌, ==_iff, arith, length-append, length-take, Bool-cases, inl, inr,
}
use rsdag.Choices.{
  Choices, ChoicePolicy, observe, mark, fresh_marks, resize, resized, falses, ready, ran, cool,
  flipped, note_built,
}

-- The marks that are set.
abbrev pub count : List Bool → ℕ
count [] = 0
count (true ∷ bs) = suc (count bs)
count (false ∷ bs) = count bs

length-falses : (n : ℕ) → length (falses n) ≡ n
length-falses zero = refl
length-falses (suc n) = ap suc (length-falses n)

length-resized : (c : Choices) (trace : List ℕ) → length (resized c trace) ≡ length trace
unfolding resized resize
length-resized c trace = elim (Bool-cases (length c.unpinned == length trace)) [
  | inl p ↦ rw p ((==_iff (length c.unpinned) (length trace)).0 p)
  | inr p ↦ rw p (
      omega (
        arith,
        length-append (take (length trace) c.unpinned) (falses (length trace - length c.unpinned)),
        length-take (length trace) c.unpinned,
        length-falses (length trace - length c.unpinned),
      ))
]

count-mark :
    (us : List Bool) (xs bs : List ℕ) → count (mark us xs bs) ≡ count us + fresh_marks us xs bs
unfolding mark fresh_marks
count-mark [] xs bs = omega arith
count-mark (u ∷ us) [] bs = omega arith
count-mark (u ∷ us) (a ∷ xs) [] = omega arith
count-mark (true ∷ us) (a ∷ xs) (b ∷ bs) = elim (Bool-cases (a == b)) [
  | inl p ↦ rw p (omega (arith, count-mark us xs bs))
  | inr p ↦ rw p (omega (arith, count-mark us xs bs))
]
count-mark (false ∷ us) (a ∷ xs) (b ∷ bs) = elim (Bool-cases (a == b)) [
  | inl p ↦ rw p (omega (arith, count-mark us xs bs))
  | inr p ↦ rw p (omega (arith, count-mark us xs bs))
]

length-mark : (us : List Bool) (xs bs : List ℕ) → length (mark us xs bs) ≡ length us
unfolding mark
length-mark [] xs bs = refl
length-mark (u ∷ us) [] bs = refl
length-mark (u ∷ us) (a ∷ xs) [] = refl
length-mark (u ∷ us) (a ∷ xs) (b ∷ bs) = ap suc (length-mark us xs bs)

count_bound : (us : List Bool) → count us ≤ length us
count_bound [] = omega arith
count_bound (true ∷ us) = omega (arith, count_bound us)
count_bound (false ∷ us) = omega (arith, count_bound us)

-- A trace observed becomes the one held, the marks are one per select of it, and the marks set are
-- those that were set, cut or extended to its length, and as many more as `observe` returns.
pub observe-count :
    (c : Choices) (trace : List ℕ)
    → ((observe c trace).1.trace ≡ trace)
      × (length (observe c trace).1.unpinned ≡ length trace)
      × (count (observe c trace).1.unpinned ≡ count (resized c trace) + (observe c trace).0)
unfolding observe
observe-count c trace = elim (Bool-cases (length c.trace == length trace)) [
  | inl p ↦ rw p (
    refl,
    length-mark (resized c trace) c.trace trace ∙ length-resized c trace,
    count-mark (resized c trace) c.trace trace,
  )
  | inr p ↦ rw p (refl, length-resized c trace, omega arith)
]

mark_keeps :
    (us : List Bool) (xs bs : List ℕ) (i : ℕ)
    → get_elem? us i ≡ some true
    → get_elem? (mark us xs bs) i ≡ some true
unfolding mark
mark_keeps [] xs bs i h = cc
mark_keeps (u ∷ us) [] bs i h = h
mark_keeps (u ∷ us) (a ∷ xs) [] i h = h
mark_keeps (u ∷ us) (a ∷ xs) (b ∷ bs) zero h = ground arith
mark_keeps (u ∷ us) (a ∷ xs) (b ∷ bs) (suc i) h = mark_keeps us xs bs i h

mark_pinned :
    (us : List Bool) (xs bs : List ℕ) (i : ℕ) (a b : ℕ)
    → get_elem? (mark us xs bs) i ≡ some false
    → get_elem? xs i ≡ some a
    → get_elem? bs i ≡ some b
    → a ≡ b
unfolding mark
mark_pinned [] xs bs i a b h p q = cc
mark_pinned (u ∷ us) [] bs i a b h p q = cc
mark_pinned (u ∷ us) (x ∷ xs) [] i a b h p q = cc
mark_pinned (u ∷ us) (x ∷ xs) (y ∷ bs) zero a b h p q = ground arith
mark_pinned (u ∷ us) (x ∷ xs) (y ∷ bs) (suc i) a b h p q = mark_pinned us xs bs i a b h p q

-- Between traces of one length a select that is pinned after the observation takes the same choice
-- in both traces.
pub observe_pins :
    (c : Choices) (trace : List ℕ) (i a b : ℕ)
    → length c.trace ≡ length trace
    → get_elem? (observe c trace).1.unpinned i ≡ some false
    → get_elem? c.trace i ≡ some a
    → get_elem? trace i ≡ some b
    → a ≡ b
unfolding observe
observe_pins c trace i a b h u p q =
    mark_pinned (resized c trace) c.trace trace i a b
      (rw ((==_iff (length c.trace) (length trace)).1 h) at u) p q

-- A select that is unpinned stays unpinned while the marks are as many as the trace observed has
-- selects.
pub observe_keeps :
    (c : Choices) (trace : List ℕ) (i : ℕ)
    → length c.unpinned ≡ length trace
    → get_elem? c.unpinned i ≡ some true
    → get_elem? (observe c trace).1.unpinned i ≡ some true
unfolding observe resized
observe_keeps c trace i h u = elim (Bool-cases (length c.trace == length trace)) [
  | inl p ↦
      rw (p, (==_iff (length c.unpinned) (length trace)).1 h)
        (mark_keeps c.unpinned c.trace trace i u)
  | inr p ↦ rw (p, (==_iff (length c.unpinned) (length trace)).1 h) u
]

-- Specialization that is off stays off: no evaluation, flip, cooldown, observation or build turns it
-- on again, and it is never ready.
pub off_stays :
    (c : Choices) (p : ChoicePolicy) (trace : List ℕ) (n ops full : ℕ)
    → c.off ≡ true
    → ((ran c n).off ≡ true)
      × ((flipped c p n).1.off ≡ true)
      × ((flipped c p n).0 ≡ true)
      × ((cool c p).off ≡ true)
      × ((observe c trace).1.off ≡ true)
      × ((note_built c p ops full).1.off ≡ true)
      × (ready c ≡ false)
unfolding ran flipped cool observe note_built ready
off_stays c p trace n ops full h = ground arith
