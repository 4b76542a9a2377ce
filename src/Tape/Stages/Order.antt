-- ===== src/Tape/Stages/Order.antt =====
-- The calls of a stage run in either order, crates/rsdag/src/tape/mod.rs.
use rsdag.Prelude.{
  ℕ, ◌+◌, ◌≤◌, ◌<◌, ◌≡◌, refl, sym, ◌∙◌, ap, ap₂, subst, Bool, true, false, Option, none, some,
  List, [], ◌∷◌, length, leb, leb→le, ◌==◌, ==_iff, ◌&&◌, and_true, if◌then◌else◌, All, ◌⊎◌, inl,
  inr, write_block, length-write_block, arith,
}
use rsdag.Field.{Field}
use rsdag.Semantics.{Scalar}
use rsdag.Program.{Kernels}
use rsdag.Program.Specialize.Agree.{some_inj}
use rsdag.Program.Specialize.Whole.{map-some}
use rsdag.Tape.{Op, Tape, width}
use rsdag.Tape.Run.{is_kernel, op_values, read, store, exec, traced, choices_of}
use rsdag.Tape.Stages.{Span, Bodies, overlaps, span_of}
use rsdag.Tape.Stages.Apart.{IsApart, IsOutside}
use rsdag.Tape.Stages.Swap.{write_block_comm}
use rsdag.Tape.Stages.Unread.{span-IsUnread, op_values_off}

module _ {K : Field} (T : Scalar K) (work : List T.Val) where
  abbrev Ran : Type 0
  Ran = Option (List T.Val × List ℕ)

  abbrev ends : List T.Val → Ran
  ends w = some (w, [])

  abbrev fits : List T.Val → ℕ → ℕ → Bool
  fits vs d w = (length vs == w) && leb (d + w) (length work)

  fits_cases :
      (vs : List T.Val) (d w : ℕ) → fits vs d w ≡ true → (length vs ≡ w) × (d + w ≤ length work)
  fits_cases vs d w h =
      let (e, e') = and_true (length vs == w) (leb (d + w) (length work)) h in
      ((==_iff (length vs) w).0 e, leb→le (d + w) (length work) e')

  -- A block behind a block, where what it holds does not change.
  store_behind :
      (vs : List T.Val) (d w : ℕ) (f : List T.Val → Option (List T.Val)) (o : Option (List T.Val))
      (e u : ℕ)
      → (fits vs d w ≡ true → f (write_block vs d work) ≡ o)
      → store T (some vs) [] d w work (λ w'. store T (f w') [] e u w' ends) ≡ (
          if fits vs d w then traced T [] (store T o [] e u (write_block vs d work) ends) else none)
  store_behind vs d w f o e u h = by (fits vs d w) refl
    where
      by :
          (b : Bool)
          → fits vs d w ≡ b
          → ◌≡◌ {A = Ran}
              (if b
                then traced T []
                    (store T (f (write_block vs d work)) [] e u (write_block vs d work) ends)
                else none)
              (if b then traced T [] (store T o [] e u (write_block vs d work) ends) else none)
      by true is = ap (λ o. traced T [] (store T o [] e u (write_block vs d work) ends)) (h is)
      by false is = refl

  -- Two blocks that lie apart, stored in either order.
  store_comm :
      (oa ob : Option (List T.Val)) (fa fb : List T.Val → Option (List T.Val)) (d w e u : ℕ)
      → ((vs : List T.Val) → oa ≡ some vs → fits vs d w ≡ true → fb (write_block vs d work) ≡ ob)
      → ((vs : List T.Val) → ob ≡ some vs → fits vs e u ≡ true → fa (write_block vs e work) ≡ oa)
      → (d + w ≤ e) ⊎ (e + u ≤ d)
      → store T oa [] d w work (λ w'. store T (fb w') [] e u w' ends)
        ≡ store T ob [] e u work (λ w'. store T (fa w') [] d w w' ends)
  store_comm none none fa fb d w e u hb ha apart = refl
  store_comm none (some us) fa fb d w e u hb ha apart =
      sym (store_behind us e u fa none d w (ha us refl) ∙ by (fits us e u))
    where
      by : (b : Bool) → ◌≡◌ {A = Ran} (if b then none else none) none
      by true = refl
      by false = refl
  store_comm (some vs) none fa fb d w e u hb ha apart =
      store_behind vs d w fb none e u (hb vs refl) ∙ by (fits vs d w)
    where
      by : (b : Bool) → ◌≡◌ {A = Ran} (if b then none else none) none
      by true = refl
      by false = refl
  store_comm (some vs) (some us) fa fb d w e u hb ha apart =
      store_behind vs d w fb (some us) e u (hb vs refl)
      ∙ rw (length-write_block vs d work, length-write_block us e work)
          (by (fits vs d w) (fits us e u) refl refl)
      ∙ sym (store_behind us e u fa (some vs) d w (ha us refl))
    where
      apart_by :
          length vs ≡ w
          → length us ≡ u
          → (d + w ≤ e) ⊎ (e + u ≤ d)
          → (d + length vs ≤ e) ⊎ (e + length us ≤ d)
      apart_by sv su (inl h) = inl (omega arith)
      apart_by sv su (inr h) = inr (omega arith)

      by :
          (a b : Bool)
          → fits vs d w ≡ a
          → fits us e u ≡ b
          → ◌≡◌ {A = Ran}
              (if a
                then traced T [] (
                    if b
                    then traced T [] (ends (write_block us e (write_block vs d work)))
                    else none)
                else none)
              (if b
                then traced T [] (
                    if a
                    then traced T [] (ends (write_block vs d (write_block us e work)))
                    else none)
                else none)
      by true true ea eb =
          let (sv, fv) = fits_cases vs d w ea in
          let (su, fu) = fits_cases us e u eb in
          ap (λ w. some (w, []))
            (sym
              (write_block_comm vs d us e work (omega arith) (omega arith) (apart_by sv su apart)))
      by true false ea eb = refl
      by false true ea eb = refl
      by false false ea eb = refl

module _ {K : Field} (T : Scalar K) (ks : Kernels T) (t : Tape K) (bodies : Bodies)
    (inputs : List T.Val) where
  span-is_kernel :
      (op : Op K) (d : ℕ) (s : Span) → span_of t bodies op d ≡ some (some s) → is_kernel T op ≡ true
  span-is_kernel (Op.call b start n_groups n_args n_in reads n_out state args) d s h = refl
  span-is_kernel (Op.call_prolog b start n_groups n_pure args) d s h = refl
  span-is_kernel _ d s h = cc

  span-writes :
      (op : Op K) (d : ℕ) (s : Span)
      → span_of t bodies op d ≡ some (some s)
      → s.writes ≡ (d, d + width t op)
  unfolding width
  span-writes (Op.call b start n_groups n_args n_in reads n_out state args) d s h =
      let (_, _, same) = map-some _ _ h in ap (λ (s : Span). s.writes) (sym (some_inj same))
  span-writes (Op.call_prolog b start n_groups n_pure args) d s h =
      let (_, _, same) = map-some _ _ h in ap (λ (s : Span). s.writes) (sym (some_inj same))
  span-writes _ d s h = cc

  silent : (op : Op K) (g : ℕ → Option T.Val) → is_kernel T op ≡ true → choices_of T g op ≡ []
  silent (Op.select c a b) g h = cc
  silent _ g h = refl

  -- A call computes the same before and after one that is apart from it.
  apart-op_values :
      (op op' : Op K) (d d' : ℕ) (s s' : Span) (work vs : List T.Val)
      → span_of t bodies op d ≡ some (some s)
      → span_of t bodies op' d' ≡ some (some s')
      → 0 < s.groups
      → All (λ a. IsOutside a s'.writes) s.reads
      → length vs ≡ width t op'
      → op_values T ks t inputs (write_block vs d' work) op ≡ op_values T ks t inputs work op
  apart-op_values op op' d d' s s' work vs h h' some_group off size =
      op_values_off T inputs vs d' work t bodies ks op (span-is_kernel op d s h) (
        span-IsUnread T inputs vs d' work t bodies op d s h some_group (
          subst (λ w. All (λ a. IsOutside a w) s.reads)
            (span-writes op' d' s' h' ∙ ap (λ n. (d', d' + n)) (sym size)) off))

  exec-two :
      (op op' : Op K) (d d' : ℕ) (work : List T.Val)
      → is_kernel T op ≡ true
      → is_kernel T op' ≡ true
      → exec T ks t inputs (op ∷ op' ∷ []) (d ∷ d' ∷ []) work
        ≡ store T
            (op_values T ks t inputs work op)
            []
            d
            (width t op)
            work
            (λ w. store T (op_values T ks t inputs w op') [] d' (width t op') w (ends T work))
  unfolding exec
  exec-two op op' d d' work k k' =
      ap₂
        (λ bytes (bytes' : List T.Val → List ℕ).
          store T (op_values T ks t inputs work op) bytes d (width t op) work (λ w.
            store T (op_values T ks t inputs w op') (bytes' w) d' (width t op') w (ends T work)))
        (silent op (read T inputs work) k) (λ i w. silent op' (read T inputs w) k' i)

  -- For two calls of a tape of which neither reads or writes a slot that the other one writes, with
  -- an instance each: running them in either order over the same slots gives the same slots, or
  -- panics in both.
  pub exec-apart :
      (op op' : Op K) (d d' : ℕ) (s s' : Span)
      → span_of t bodies op d ≡ some (some s)
      → span_of t bodies op' d' ≡ some (some s')
      → 0 < s.groups
      → 0 < s'.groups
      → IsApart s s'
      → (work : List T.Val)
      → exec T ks t inputs (op ∷ op' ∷ []) (d ∷ d' ∷ []) work
        ≡ exec T ks t inputs (op' ∷ op ∷ []) (d' ∷ d ∷ []) work
  exec-apart op op' d d' s s' h h' some_group some_group' apart work =
      exec-two op op' d d' work (span-is_kernel op d s h) (span-is_kernel op' d' s' h')
      ∙ store_comm T work (op_values T ks t inputs work op) (op_values T ks t inputs work op')
          (λ w. op_values T ks t inputs w op) (λ w. op_values T ks t inputs w op') d (width t op) d'
          (width t op')
          (λ vs _ e.
            apart-op_values op' op d' d s' s work vs h' h some_group' apart.0
              (fits_cases T work vs d (width t op) e).0)
          (λ vs _ e.
            apart-op_values op op' d d' s s' work vs h h' some_group apart.2
              (fits_cases T work vs d' (width t op') e).0)
          (blocks (subst (λ w. IsOutside w s.writes) (span-writes op' d' s' h') apart.1))
      ∙ sym (exec-two op' op d' d work (span-is_kernel op' d' s' h') (span-is_kernel op d s h))
    where
      split :
          (d w d' w' : ℕ) → overlaps (d', d' + w') (d, d + w) ≡ false → (d + w ≤ d') ⊎ (d' + w' ≤ d)
      split d w d' w' h = grind arith

      blocks :
          IsOutside (d', d' + width t op') s.writes → (d + width t op ≤ d') ⊎ (d' + width t op' ≤ d)
      blocks off =
          split d (width t op) d' (width t op')
            (subst (λ w. IsOutside (d', d' + width t op') w) (span-writes op d s h) off)
