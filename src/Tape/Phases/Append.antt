-- ===== src/Tape/Phases/Append.antt =====
-- Ops run behind ops, crates/rsdag/src/tape/mod.rs: `run_range`.
use rsdag.Prelude.{
  ℕ, ◌+◌, ◌≡◌, refl, sym, ◌∙◌, ap, subst, Bool, true, false, Option, none, some, List, [], ◌∷◌,
  ◌++◌, length, leb, ◌==◌, ◌&&◌, if◌then◌else◌, write_block, arith, length-write_block,
  append_assoc,
}
use rsdag.Field.{Field}
use rsdag.Semantics.{Scalar}
use rsdag.Program.{Kernels}
use rsdag.Tape.{Op, Tape, width}
use rsdag.Tape.Run.{exec, store, traced, op_values, choices_of, read}

module _ {K : Field} (T : Scalar K) (ks : Kernels T) (t : Tape K) (inputs : List T.Val) where
  abbrev pub Ran : Type 0
  Ran = Option (List T.Val × List ℕ)

  -- What runs after a run that recorded a trace.
  abbrev pub after : Ran → (List T.Val → Ran) → Ran
  after none f = none
  after (some (w, trace)) f = traced T trace (f w)

  traced-append : (a b : List ℕ) (r : Ran) → traced T (a ++ b) r ≡ traced T a (traced T b r)
  traced-append a b none = refl
  traced-append a b (some (w, trace)) = ap (λ tr. some (w, tr)) (append_assoc a b trace)

  traced-after :
      (a : List ℕ) (r : Ran) (f : List T.Val → Ran)
      → traced T a (after r f) ≡ after (traced T a r) f
  traced-after a none f = refl
  traced-after a (some (w, trace)) f = sym (traced-append a trace (f w))

  store-after :
      (vs : Option (List T.Val)) (bytes : List ℕ) (d w : ℕ) (work : List T.Val)
      (f g : List T.Val → Ran) (k : List T.Val → Ran)
      → ((work : List T.Val) → g work ≡ after (f work) k)
      → store T vs bytes d w work g ≡ after (store T vs bytes d w work f) k
  store-after none bytes d w work f g k h = refl
  store-after (some vs) bytes d w work f g k h = by ((length vs == w) && leb (d + w) (length work))
    where
      by :
          (b : Bool)
          → ◌≡◌ {A = Ran}
              (if b then traced T bytes (g (write_block vs d work)) else none)
              (after (if b then traced T bytes (f (write_block vs d work)) else none) k)
      by true =
          ap (traced T bytes) (h (write_block vs d work))
          ∙ traced-after bytes (f (write_block vs d work)) k
      by false = refl

  -- Ops behind ops run after them, and record behind them.
  pub exec-append :
      (ops ops' : List (Op K)) (dst dst' : List ℕ) (work : List T.Val)
      → length dst ≡ length ops
      → exec T ks t inputs (ops ++ ops') (dst ++ dst') work
        ≡ after (exec T ks t inputs ops dst work) (exec T ks t inputs ops' dst')
  unfolding exec
  exec-append [] ops' [] dst' work h = alone (exec T ks t inputs ops' dst' work)
    where
      alone : (r : Ran) → r ≡ traced T [] r
      alone none = refl
      alone (some r) = refl
  exec-append [] ops' (d ∷ dst) dst' work h = let bad : ⊥ = omega arith in elim bad [ ]
  exec-append (op ∷ ops) ops' [] dst' work h = let bad : ⊥ = omega arith in elim bad [ ]
  exec-append (op ∷ ops) ops' (d ∷ dst) dst' work h =
      store-after (op_values T ks t inputs work op) (choices_of T (read T inputs work) op) d
        (width t op) work (exec T ks t inputs ops dst)
        (exec T ks t inputs (ops ++ ops') (dst ++ dst')) (exec T ks t inputs ops' dst')
        (λ work. exec-append ops ops' dst dst' work (omega arith))

  -- Running keeps the slots as many as they are.
  abbrev pub HasLength : ℕ → Ran → Type 0
  HasLength n none = Unit
  HasLength n (some (w, trace)) = length w ≡ n

  traced-HasLength : (n : ℕ) (a : List ℕ) (r : Ran) → HasLength n r → HasLength n (traced T a r)
  traced-HasLength n a none h = h
  traced-HasLength n a (some r) h = h

  store-HasLength :
      (vs : Option (List T.Val)) (bytes : List ℕ) (d w : ℕ) (work : List T.Val)
      (f : List T.Val → Ran)
      → ((work : List T.Val) → HasLength (length work) (f work))
      → HasLength (length work) (store T vs bytes d w work f)
  store-HasLength none bytes d w work f h = tt
  store-HasLength (some vs) bytes d w work f h = by ((length vs == w) && leb (d + w) (length work))
    where
      by :
          (b : Bool)
          → HasLength (length work) (if b then traced T bytes (f (write_block vs d work)) else none)
      by true = traced-HasLength (length work) bytes (f (write_block vs d work)) (
          subst (λ n. HasLength n (f (write_block vs d work))) (length-write_block vs d work)
            (h (write_block vs d work)))
      by false = tt

  pub exec-HasLength :
      (ops : List (Op K)) (dst : List ℕ) (work : List T.Val)
      → HasLength (length work) (exec T ks t inputs ops dst work)
  unfolding exec
  exec-HasLength [] dst work = refl
  exec-HasLength (op ∷ ops) [] work = tt
  exec-HasLength (op ∷ ops) (d ∷ dst) work =
      store-HasLength (op_values T ks t inputs work op) (choices_of T (read T inputs work) op) d
        (width t op) work (exec T ks t inputs ops dst) (exec-HasLength ops dst)
