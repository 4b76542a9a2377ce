-- ===== src/Nonlinearity/Plain.antt =====
-- The classes of single operations, crates/rsdag/src/nonlinearity.rs.
use Prim.Native.Nat.{bit_or}
use rsdag.Prelude.{
  ℕ, ◌≡◌, refl, sym, ◌∙◌, true, false, List, [], ◌∷◌, All, ◌==◌, ◌||◌, ℤ, pos, negsuc, arith,
  Bool-cases, inl, inr,
}
use rsdag.Node.{UnaryOp}
use rsdag.Nonlinearity.{
  Degree, times, plus, power, Nonlinearity, insert, of_degree, constant, is_constant, absorb,
  joined, all_constant, rational_part, piecewise_part, classify_pow, classify_unary,
  classify_opaque, classify_select,
}

-- Nothing in it breaks polynomial structure.
abbrev pub IsPlain : Nonlinearity → Type 0
IsPlain c =
    (c.transcendental ≡ 0) × (c.rational ≡ false) × (c.piecewise ≡ false) × (c.opaque_call ≡ false)

-- A finite degree is a polynomial's.
pub record IsSound (c : Nonlinearity) : Type 0 where
  pub plain : (d : ℕ) → c.degree ≡ Degree.finite d → IsPlain c

abbrev pub Finite : Degree → Type 0
Finite x = (d : ℕ) × (x ≡ Degree.finite d)

pub plus_finite : (x y : Degree) (d : ℕ) → plus x y ≡ Degree.finite d → Finite x × Finite y
unfolding plus
plus_finite (Degree.finite a) (Degree.finite b) d h = ((a, refl), (b, refl))
plus_finite (Degree.finite a) Degree.unbounded d h = cc
plus_finite Degree.unbounded y d h = cc

pub times_finite : (x y : Degree) (d : ℕ) → times x y ≡ Degree.finite d → Finite x × Finite y
unfolding times
times_finite (Degree.finite a) (Degree.finite b) d h = ((a, refl), (b, refl))
times_finite (Degree.finite a) Degree.unbounded d h = cc
times_finite Degree.unbounded y d h = cc

power_finite : (x : Degree) (n d : ℕ) → power x n ≡ Degree.finite d → Finite x
unfolding power
power_finite (Degree.finite a) n d h = (a, refl)
power_finite Degree.unbounded n d h = cc

no_bits : bit_or 0 0 ≡ 0
no_bits = refl

pub absorb-IsPlain : (c d : Nonlinearity) → IsPlain c → IsPlain d → IsPlain (absorb c d)
unfolding absorb
absorb-IsPlain c d p q = rw (p.0, q.0, p.1, q.1, p.2, q.2, p.3, q.3) (no_bits, refl, refl, refl)

joined_degree : (cs : List Nonlinearity) (out : Nonlinearity) → (joined cs out).degree ≡ out.degree
unfolding joined absorb
joined_degree [] out = refl
joined_degree (c ∷ cs) out = joined_degree cs (absorb out c)

pub joined-IsPlain :
    (cs : List Nonlinearity) (out : Nonlinearity)
    → All IsPlain cs
    → IsPlain out
    → IsPlain (joined cs out)
unfolding joined
joined-IsPlain [] out h p = p
joined-IsPlain (c ∷ cs) out h p = joined-IsPlain cs (absorb out c) h.1 (absorb-IsPlain out c p h.0)

pub IsPlain-part : {c : Nonlinearity} → IsSound c → Finite c.degree → IsPlain c
IsPlain-part s (d, h) = s.plain d h

pub unbounded-IsSound : (c : Nonlinearity) → c.degree ≡ Degree.unbounded → IsSound c
unbounded-IsSound c h = record { plain = λ d p. cc }

pub constant-IsSound : IsSound constant
unfolding constant of_degree
constant-IsSound = record { plain = λ d p. (refl, refl, refl, refl) }

pub of_degree-IsPlain : (d : Degree) → IsPlain (of_degree d)
unfolding of_degree
of_degree-IsPlain d = (refl, refl, refl, refl)

joined_unbounded :
    (cs : List Nonlinearity) (out : Nonlinearity)
    → out.degree ≡ Degree.unbounded
    → IsSound (joined cs out)
joined_unbounded cs out h = unbounded-IsSound _ (joined_degree cs out ∙ h)

pub of_degree_degree : (d : Degree) → (of_degree d).degree ≡ d
unfolding of_degree
of_degree_degree d = refl

-- The parts of a sum or a product under a degree that is finite only where theirs are.
pub pair-IsSound :
    (x y : Nonlinearity) (e : Degree)
    → IsSound x
    → IsSound y
    → ((d : ℕ) → e ≡ Degree.finite d → Finite x.degree × Finite y.degree)
    → IsSound (joined (x ∷ y ∷ []) (of_degree e))
pair-IsSound x y e sx sy f = record {
  plain = λ d h.
      let fs = f d (sym (joined_degree (x ∷ y ∷ []) (of_degree e) ∙ of_degree_degree e) ∙ h) in
      joined-IsPlain (x ∷ y ∷ []) (of_degree e) (IsPlain-part sx fs.0, (IsPlain-part sy fs.1, tt))
        (of_degree-IsPlain e);
}

pub pow-IsSound : (c : Nonlinearity) (n : ℤ) → IsSound c → IsSound (classify_pow c n)
unfolding classify_pow
pow-IsSound c (pos n) s = elim (Bool-cases (n == 0 || is_constant c)) [
  | inl p ↦ rw p constant-IsSound
  | inr p ↦ rw p (record { plain = λ d h. IsPlain-part s (power_finite c.degree n d h) })
]
pow-IsSound c (negsuc n) s = elim (Bool-cases (is_constant c)) [
  | inl p ↦ rw p constant-IsSound
  | inr p ↦ rw p (joined_unbounded (c ∷ []) rational_part refl)
]

pub unary-IsSound : (op : UnaryOp) (c : Nonlinearity) → IsSound (classify_unary op c)
unfolding classify_unary of_degree
unary-IsSound op c = elim (Bool-cases (is_constant c)) [
  | inl p ↦ rw p constant-IsSound
  | inr p ↦ rw p (
      joined_unbounded (c ∷ [])
        (record (of_degree Degree.unbounded) { transcendental = insert 0 op }) refl)
]

pub opaque-IsSound :
    (cs : List Nonlinearity) (out : Nonlinearity)
    → out.degree ≡ Degree.unbounded
    → IsSound (classify_opaque cs out)
unfolding classify_opaque
opaque-IsSound cs out h = elim (Bool-cases (all_constant cs)) [
  | inl p ↦ rw p constant-IsSound
  | inr p ↦ rw p (joined_unbounded cs out h)
]

pub is_constant-IsPlain : (c : Nonlinearity) → is_constant c ≡ true → IsPlain c
unfolding is_constant
is_constant-IsPlain c h = ground arith

pub select-IsSound :
    (x y z : Nonlinearity) → IsSound y → IsSound z → IsSound (classify_select x y z)
unfolding classify_select
select-IsSound x y z sy sz = elim (Bool-cases (is_constant x)) [
  | inl p ↦ rw p (record { plain = λ d h. fixed d p h })
  | inr p ↦ rw p (joined_unbounded (x ∷ y ∷ z ∷ []) piecewise_part refl)
]
  where
    fixed :
        (d : ℕ)
        → is_constant x ≡ true
        → (joined (x ∷ y ∷ z ∷ []) (of_degree (plus y.degree z.degree))).degree ≡ Degree.finite d
        → IsPlain (joined (x ∷ y ∷ z ∷ []) (of_degree (plus y.degree z.degree)))
    fixed d p h =
        let e = plus y.degree z.degree in
        let fs =
          plus_finite y.degree z.degree d
            (sym (joined_degree (x ∷ y ∷ z ∷ []) (of_degree e) ∙ of_degree_degree e) ∙ h) in
        joined-IsPlain (x ∷ y ∷ z ∷ []) (of_degree e)
          (is_constant-IsPlain x p, (IsPlain-part sy fs.0, (IsPlain-part sz fs.1, tt)))
          (of_degree-IsPlain e)
