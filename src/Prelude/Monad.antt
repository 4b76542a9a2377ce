-- ===== src/Prelude/Monad.antt =====
-- Code that changes a state and may panic: `none` is the panic (an index out of range, a failed
-- assertion, an `unwrap` of nothing).
use mathlib.Core.Option.{Option, none, some}
use mathlib.Core.Path.{◌≡◌, refl}

abbrev pub State : Type 0 → Type 0 → Type 0
State S A = S → Option (A × S)

abbrev pub pure : {S A : Type 0} → A → State S A
pure a s = some (a, s)

abbrev pub panic : {S A : Type 0} → State S A
panic s = none

-- What a computation yields, handed on.
abbrev pub then_run : {S A B : Type 0} → Option (A × S) → (A → State S B) → Option (B × S)
then_run none f = none
then_run (some (a, s)) f = f a s

infixl 5 ◌>>=◌
abbrev pub ◌>>=◌ : {S A B : Type 0} → State S A → (A → State S B) → State S B
◌>>=◌ m f s = then_run (m s) f

abbrev pub read_run : {S A : Type 0} → Option A → S → Option (A × S)
read_run none s = none
read_run (some a) s = some (a, s)

-- A value read from the state: a panic where there is none.
abbrev pub read : {S A : Type 0} → (S → Option A) → State S A
read f s = read_run (f s) s

-- The computation does not panic and leaves the state as it is.
pub record Reads {S A : Type 0} (m : State S A) (s : S) : Type 0 where
  pub value : A
  pub run : m s ≡ some (value, s)

module _ {S A : Type 0} where
  pub Reads-pure : (s : S) (a : A) → Reads (pure a) s
  Reads-pure s a = record { value = a; run = refl }

  pub Reads-read : (s : S) (f : S → Option A) (a : A) → f s ≡ some a → Reads (read f) s
  Reads-read s f a e = record { value = a; run = rw e }

  pub Reads-bind :
      {B : Type 0} {m : State S A} {f : A → State S B} {s : S}
      → Reads m s
      → ((a : A) → Reads (f a) s)
      → Reads (m >>= f) s
  Reads-bind r k = record { value = (k r.value).value; run = rw r.run ((k r.value).run) }
