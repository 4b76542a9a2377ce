-- ===== src/Tape/Stages/Apart.antt =====
-- Calls that read and write apart, crates/rsdag/src/tape/mod.rs: the test of `plan_stages`.
use rsdag.Prelude.{
  ℕ, ◌+◌, ◌≡◌, refl, sym, ◌∙◌, ap, Bool, true, false, List, [], ◌∷◌, ◌++◌, ◌||◌, All, All-append,
  append_assoc, append-nil,
}
use rsdag.Tape.Stages.{Span, overlaps, any_span, clash}

abbrev pub IsOutside : ℕ × ℕ → ℕ × ℕ → Type 0
IsOutside a b = overlaps a b ≡ false

-- The later call reads nothing that the earlier one writes, they write apart, and the earlier one
-- reads nothing that the later one writes.
abbrev pub IsApart : Span → Span → Type 0
IsApart m s =
    All (λ a. IsOutside a m.writes) s.reads
    × IsOutside s.writes m.writes
    × All (λ a. IsOutside a s.writes) m.reads

-- Every two calls of the list.
abbrev pub AreApart : List Span → Type 0
AreApart [] = Unit
AreApart (m ∷ ms) = All (IsApart m) ms × AreApart ms

abbrev pub reads_of : List Span → List (ℕ × ℕ)
reads_of [] = []
reads_of (m ∷ ms) = m.reads ++ reads_of ms

abbrev pub writes_of : List Span → List (ℕ × ℕ)
writes_of [] = []
writes_of (m ∷ ms) = m.writes ∷ writes_of ms

abbrev pub groups_of : List Span → ℕ
groups_of [] = 0
groups_of (m ∷ ms) = m.groups + groups_of ms

or_false : (a b : Bool) → a || b ≡ false → (a ≡ false) × (b ≡ false)
or_false true b h = cc
or_false false b h = (refl, h)

any_span-All :
    (f : ℕ × ℕ → Bool) (xs : List (ℕ × ℕ)) → any_span f xs ≡ false → All (λ a. f a ≡ false) xs
any_span-All f [] h = tt
any_span-All f (a ∷ xs) h =
    let (e, e') = or_false (f a) (any_span f xs) h in (e, any_span-All f xs e')

pub All-append_split :
    {A : Type 0} (P : A → Type 0) (xs ys : List A) → All P (xs ++ ys) → All P xs × All P ys
All-append_split P [] ys h = (tt, h)
All-append_split P (x ∷ xs) ys h = let (l, r) = All-append_split P xs ys h.1 in ((h.0, l), r)

writes-IsOutside :
    (w : ℕ × ℕ) (ws xs : List (ℕ × ℕ))
    → All (λ a. any_span (λ b. overlaps a b) (w ∷ ws) ≡ false) xs
    → All (λ a. IsOutside a w) xs × All (λ a. any_span (λ b. overlaps a b) ws ≡ false) xs
writes-IsOutside w ws [] h = (tt, tt)
writes-IsOutside w ws (a ∷ xs) h =
    let (e, e') = or_false (overlaps a w) (any_span (λ b. overlaps a b) ws) h.0 in
    let (l, r) = writes-IsOutside w ws xs h.1 in ((e, l), (e', r))

All-IsApart :
    (s : Span) (ms : List Span)
    → All (λ a. any_span (λ b. overlaps a b) (writes_of ms) ≡ false) s.reads
    → All (λ b. IsOutside s.writes b) (writes_of ms)
    → All (λ a. IsOutside a s.writes) (reads_of ms)
    → All (λ m. IsApart m s) ms
All-IsApart s [] hr hw h = tt
All-IsApart s (m ∷ ms) hr hw h =
    let (here, later) = All-append_split (λ a. IsOutside a s.writes) m.reads (reads_of ms) h in
    let (first, others) = writes-IsOutside m.writes (writes_of ms) s.reads hr in
    ((first, hw.0, here), All-IsApart s ms others hw.1 later)

-- A call that does not clash with a stage is apart from each of its calls.
pub clash-IsApart :
    (s : Span) (ms : List Span)
    → clash s (reads_of ms) (writes_of ms) ≡ false
    → All (λ m. IsApart m s) ms
unfolding clash
clash-IsApart s ms h =
    let (e, e') =
      or_false (any_span (λ a. any_span (λ b. overlaps a b) (writes_of ms)) s.reads)
        (any_span (λ b. overlaps s.writes b) (writes_of ms)
          || any_span (λ a. overlaps a s.writes) (reads_of ms))
        h in
    let (e₁, e₂) =
      or_false (any_span (λ b. overlaps s.writes b) (writes_of ms))
        (any_span (λ a. overlaps a s.writes) (reads_of ms)) e' in
    All-IsApart s ms (any_span-All (λ a. any_span (λ b. overlaps a b) (writes_of ms)) s.reads e)
      (any_span-All (λ b. overlaps s.writes b) (writes_of ms) e₁)
      (any_span-All (λ a. overlaps a s.writes) (reads_of ms) e₂)

pub AreApart-snoc :
    (ms : List Span) (s : Span) → AreApart ms → All (λ m. IsApart m s) ms → AreApart (ms ++ s ∷ [])
AreApart-snoc [] s h k = (tt, tt)
AreApart-snoc (m ∷ ms) s h k =
    (All-append (IsApart m) ms (s ∷ []) h.0 (k.0, tt), AreApart-snoc ms s h.1 k.1)

pub reads_of-snoc : (ms : List Span) (s : Span) → reads_of (ms ++ s ∷ []) ≡ reads_of ms ++ s.reads
reads_of-snoc [] s = append-nil s.reads
reads_of-snoc (m ∷ ms) s =
    ap (λ xs. m.reads ++ xs) (reads_of-snoc ms s) ∙ sym (append_assoc m.reads (reads_of ms) s.reads)

pub writes_of-snoc :
    (ms : List Span) (s : Span) → writes_of (ms ++ s ∷ []) ≡ writes_of ms ++ s.writes ∷ []
writes_of-snoc [] s = refl
writes_of-snoc (m ∷ ms) s = ap (λ xs. m.writes ∷ xs) (writes_of-snoc ms s)
