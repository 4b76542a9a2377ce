-- ===== src/Tape/Lift/Steps.antt =====
-- One op of `Tape::lift` of crates/rsdag/src/tape/compile.rs beside the same op of `run_range` of
-- crates/rsdag/src/tape/mod.rs.
use mathlib.Core.Option
use rsdag.Prelude.{
  append_assoc, slice-append, ℕ, ◌+◌, ◌≤◌, ◌≡◌, refl, sym, ◌∙◌, ap, subst, Bool, true, false,
  Option, none, some, List, ◌∷◌, ◌++◌, length, and_true, leb, leb→le, ==_iff, ◌==◌, ◌&&◌,
  if◌then◌else◌, fill, write_block,
}
use rsdag.Field.{Field}
use rsdag.Semantics.{Scalar}
use rsdag.Program.{Program, ins_of, Ref, Kind}
use rsdag.Program.Specialize.Agree.{some_inj}
use rsdag.Program.Specialize.Whole.{bind_some}
use rsdag.Tape.{Op, Accum, Tape, width, op_operands, kind_of, pool_at}
use rsdag.Tape.Run.{read_all, traced, store, read}
use rsdag.Tape.Lift.{
  value_at, accum_of, Lifted, lift_op, add_lifted, inst_of, hold, lifted_ins, folded, any_unread,
}

module _ {K : Field} (t : Tape K) where
  -- What `Tape::lift` does with an op.
  pub record LiftStep (op : Op K) (d i : ℕ) (pool : List Ref) (held : List ℕ) (l : Lifted K)
      (then_lift : List Ref → List ℕ → Option (Lifted K)) : Type 0 where
    pub ns : List ℕ
    pub rs : List Ref
    pub kind : Kind K
    pub rest : Lifted K
    pub listed : op_operands t op ≡ some ns
    pub values : read_all (value_at t held) ns ≡ some rs
    pub computes : kind_of t op ≡ some kind
    pub fits : d + width t op ≤ length held
    pub next : then_lift (pool ++ rs) (fill i d (width t op) held) ≡ some rest
    pub here :
        record rest {
          insts = inst_of t op i kind (length pool) rs ∷ rest.insts;
          uses_placeholder = rest.uses_placeholder;
        }
        ≡ l

  hold-some :
      (i d w : ℕ) (held : List ℕ) {held' : List ℕ}
      → hold i d w held ≡ some held'
      → fill i d w held ≡ held'
  hold-some i d w held h = by (leb (d + w) (length held)) h
    where
      by :
          (b : Bool) {held' : List ℕ}
          → (if b then some (fill i d w held) else none) ≡ some held'
          → fill i d w held ≡ held'
      by true h = some_inj h
      by false h = cc

  hold-fits :
      (i d w : ℕ) (held : List ℕ) {held' : List ℕ}
      → hold i d w held ≡ some held'
      → d + w ≤ length held
  hold-fits i d w held {held'} h = by (leb (d + w) (length held)) refl h
    where
      by :
          (b : Bool)
          → leb (d + w) (length held) ≡ b
          → (if b then some (fill i d w held) else none) ≡ some held'
          → d + w ≤ length held
      by true e h = leb→le (d + w) (length held) e
      by false e h = cc

  add_lifted-some :
      (inst : _) (uses : Bool) (o : Option (Lifted K)) {l : Lifted K}
      → uses ≡ false
      → add_lifted inst uses o ≡ some l
      → (rest : Lifted K) × (o ≡ some rest)
        × (record rest { insts = inst ∷ rest.insts; uses_placeholder = rest.uses_placeholder } ≡ l)
  add_lifted-some inst uses none u h = cc
  add_lifted-some inst true (some rest) u h = cc
  add_lifted-some inst false (some rest) u h = (rest, refl, some_inj h)

  lifted_ins_plain :
      (op : Op K) (rs : List Ref) {r : List Ref × Bool}
      → accum_of op ≡ none
      → lifted_ins t op rs ≡ some r
      → (rs, false) ≡ r
  unfolding lifted_ins
  lifted_ins_plain op rs {r} e h = some_inj (
      subst
        (λ (o : Option Accum).
          elim o [
            | none ↦ some (rs, false)
            | some a ↦
                Option.map
                  (λ codes.
                    (folded (Ref.value (length t.ops) 0) a (width t op) codes rs, any_unread codes))
                  (pool_at t a.codes (width t op))
          ]
          ≡ some r)
        e h)

  pub lift_step :
      (op : Op K) (d i : ℕ) (pool : List Ref) (held : List ℕ) (l : Lifted K)
      (then_lift : List Ref → List ℕ → Option (Lifted K))
      → accum_of op ≡ none
      → lift_op t op i d pool held then_lift ≡ some l
      → LiftStep op d i pool held l then_lift
  lift_step op d i pool held l then_lift plain h =
      let (rs, read, h) = bind_some _ _ h in
      let (ns, listed, values) = bind_some _ _ read in
      let (kind, computes, h) = bind_some _ _ h in
      let ((rs', uses), ins, h) = bind_some _ _ h in
      let (held', at, h) = bind_some _ _ h in
      let same = lifted_ins_plain op rs plain ins in
      let (rest, next, here) = add_lifted-some _ uses _ (sym (ap (λ r. r.1) same)) h in
      record {
        ns = ns;
        rs = rs;
        kind = kind;
        rest = rest;
        listed = listed;
        values = values;
        computes = computes;
        fits = hold-fits i d (width t op) held at;
        next =
            subst (λ h. then_lift (pool ++ rs) h ≡ some rest)
              (sym (hold-some i d (width t op) held at))
              (subst (λ rs. then_lift (pool ++ rs) held' ≡ some rest) (sym (ap (λ r. r.0) same))
                next);
        here =
            subst
              (λ rs.
                record rest {
                  insts = inst_of t op i kind (length pool) rs ∷ rest.insts;
                  uses_placeholder = rest.uses_placeholder;
                }
                ≡ l)
              (sym (ap (λ r. r.0) same)) here;
      }

  -- The operands of an instruction stand where it says.
  pub step-ins_of :
      (op : Op K) (i : ℕ) (k : Kind K) (pool rs more : List Ref) (p : Program K)
      → p.pool ≡ (pool ++ rs) ++ more
      → ins_of p (inst_of t op i k (length pool) rs) ≡ some rs
  unfolding ins_of
  step-ins_of op i k pool rs more p e =
      rw (e, append_assoc pool rs more) (slice-append pool rs more)

module _ {K : Field} (T : Scalar K) (t : Tape K) where
  -- What `run_range` does with an op.
  pub record ExecStep (op : Op K) (d : ℕ) (vals : Option (List T.Val)) (bytes : List ℕ)
      (work work' : List T.Val) (trace : List ℕ)
      (then_run : List T.Val → Option (List T.Val × List ℕ)) : Type 0 where
    pub vs : List T.Val
    pub rest : List ℕ
    pub values : vals ≡ some vs
    pub size : length vs ≡ width t op
    pub fits : d + width t op ≤ length work
    pub next :
        ◌≡◌ {A = Option (List T.Val × List ℕ)}
          (then_run (write_block vs d work))
          (some (work', rest))
    pub here : bytes ++ rest ≡ trace

  pub exec_step :
      (op : Op K) (d : ℕ) (vals : Option (List T.Val)) (bytes : List ℕ) (work work' : List T.Val)
      (trace : List ℕ) (then_run : List T.Val → Option (List T.Val × List ℕ))
      → ◌≡◌ {A = Option (List T.Val × List ℕ)}
          (store T vals bytes d (width t op) work then_run)
          (some (work', trace))
      → ExecStep op d vals bytes work work' trace then_run
  exec_step op d none bytes work work' trace then_run h = cc
  exec_step op d (some vs) bytes work work' trace then_run h =
      by ((length vs == width t op) && leb (d + width t op) (length work)) refl h
    where
      run :
          (o : Option (List T.Val × List ℕ))
          → then_run (write_block vs d work) ≡ o
          → ◌≡◌ {A = Option (List T.Val × List ℕ)} (traced T bytes o) (some (work', trace))
          → (length vs ≡ width t op)
          → (d + width t op ≤ length work)
          → ExecStep op d (some vs) bytes work work' trace then_run
      run none e h size fits = cc
      run (some (w, tr)) e h size fits = record {
        vs = vs;
        rest = tr;
        values = refl;
        size = size;
        fits = fits;
        next = e ∙ ap (λ w. some (w, tr)) (ap (λ r. r.0) (some_inj h));
        here = ap (λ r. r.1) (some_inj h);
      }

      by :
          (b : Bool)
          → ((length vs == width t op) && leb (d + width t op) (length work)) ≡ b
          → ◌≡◌ {A = Option (List T.Val × List ℕ)}
              (if b then traced T bytes (then_run (write_block vs d work)) else none)
              (some (work', trace))
          → ExecStep op d (some vs) bytes work work' trace then_run
      by false e h = cc
      by true e h =
          let (e₁, e₂) =
            and_true (length vs == width t op) (leb (d + width t op) (length work)) e in
          run (then_run (write_block vs d work)) refl h ((==_iff (length vs) (width t op)).0 e₁)
            (leb→le (d + width t op) (length work) e₂)
