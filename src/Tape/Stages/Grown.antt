-- ===== src/Tape/Stages/Grown.antt =====
-- A stage as it grows, the inner loop of `plan_stages` of crates/rsdag/src/tape/mod.rs finds.
use rsdag.Prelude.{
  ℕ, zero, suc, ◌+◌, ◌≤◌, ◌≡◌, refl, sym, ap, subst, Bool, true, false, Option, none, some, List,
  [], ◌∷◌, ◌++◌, map, length, if◌then◌else◌, All, append_assoc, append-nil, arith,
}
use rsdag.Tape.Stages.{Span, Growing, clash, grow}
use rsdag.Tape.Stages.Apart.{
  IsApart, AreApart, reads_of, writes_of, groups_of, clash-IsApart, AreApart-snoc, reads_of-snoc,
  writes_of-snoc,
}

-- What the inner loop adds to a stage of calls that are apart.
pub record IsGrown (ms : List Span) (instances hi left : ℕ) (cs : List (Option Span)) (g : Growing)
    : Type 0 where
  pub more : List Span
  pub taken : cs ≡ map some more ++ g.rest
  pub to : g.hi ≡ hi + length more
  pub few : length more ≤ left
  pub apart : AreApart (ms ++ more)
  pub counted : g.instances ≡ instances + groups_of more

nothing_more :
    (ms : List Span) (instances work hi left : ℕ) (cs : List (Option Span))
    → AreApart ms
    → IsGrown ms instances hi left cs
        (record { hi = hi; instances = instances; work = work; rest = cs })
nothing_more ms instances work hi left cs h = record {
  more = [];
  taken = refl;
  to = omega arith;
  few = omega arith;
  apart = subst AreApart (sym (append-nil ms)) h;
  counted = omega arith;
}

one_more :
    (ms : List Span) (s : Span) (instances hi left : ℕ) (cs : List (Option Span)) (g : Growing)
    → IsGrown (ms ++ s ∷ []) (instances + s.groups) (suc hi) left cs g
    → IsGrown ms instances hi (suc left) (some s ∷ cs) g
one_more ms s instances hi left cs g h = record {
  more = s ∷ h.more;
  taken = ap (λ cs. some s ∷ cs) h.taken;
  to = omega (arith, h.to);
  few = omega (arith, h.few);
  apart = subst AreApart (append_assoc ms (s ∷ []) h.more) h.apart;
  counted = omega (arith, h.counted);
}

pub grow-IsGrown :
    (ms : List Span) (instances work hi left : ℕ) (cs : List (Option Span))
    → AreApart ms
    → IsGrown ms instances hi left cs (grow (reads_of ms) (writes_of ms) instances work hi left cs)
unfolding grow
grow-IsGrown ms instances work hi zero cs h = nothing_more ms instances work hi zero cs h
grow-IsGrown ms instances work hi (suc left) [] h =
    nothing_more ms instances work hi (suc left) [] h
grow-IsGrown ms instances work hi (suc left) (none ∷ cs) h =
    nothing_more ms instances work hi (suc left) (none ∷ cs) h
grow-IsGrown ms instances work hi (suc left) (some s ∷ cs) h =
    by (clash s (reads_of ms) (writes_of ms)) refl (λ apart.
      grow-IsGrown (ms ++ s ∷ []) (instances + s.groups) (work + s.work) (suc hi) left cs
        (AreApart-snoc ms s h apart))
  where
    longer : List (ℕ × ℕ) → List (ℕ × ℕ) → Growing
    longer reads writes = grow reads writes (instances + s.groups) (work + s.work) (suc hi) left cs

    by :
        (b : Bool)
        → clash s (reads_of ms) (writes_of ms) ≡ b
        → (All (λ m. IsApart m s) ms
            → IsGrown
                (ms ++ s ∷ [])
                (instances + s.groups)
                (suc hi)
                left
                cs
                (longer (reads_of (ms ++ s ∷ [])) (writes_of (ms ++ s ∷ []))))
        → IsGrown ms instances hi (suc left) (some s ∷ cs) (
            if b
            then record { hi = hi; instances = instances; work = work; rest = some s ∷ cs }
            else longer (reads_of ms ++ s.reads) (writes_of ms ++ s.writes ∷ []))
    by true e rest = nothing_more ms instances work hi (suc left) (some s ∷ cs) h
    by false e rest = one_more ms s instances hi left cs _ (
        subst
          (λ r.
            IsGrown (ms ++ s ∷ []) (instances + s.groups) (suc hi) left cs
              (longer r (writes_of ms ++ s.writes ∷ [])))
          (reads_of-snoc ms s)
          (subst
            (λ w.
              IsGrown (ms ++ s ∷ []) (instances + s.groups) (suc hi) left cs
                (longer (reads_of (ms ++ s ∷ [])) w))
            (writes_of-snoc ms s) (rest (clash-IsApart s ms e))))
