-- ===== src/Graph/Valid.antt =====
-- The invariant of a graph: ids are places, every content has one place, operands stand below the
-- node that reads them. `Extends` says how a graph may grow, `Builds` what an operation that grows
-- it promises.
use rsdag.Prelude.{
  ℕ, ◌+◌, ◌-◌, ◌*◌, ◌^◌, ◌≤◌, ◌<◌, ◌≡◌, refl, sym, ◌∙◌, List, length, get_elem?, some, State, ◌>>=◌,
  find, All, ℕ_discrete, Option, none, IsIndex, arith, IsPrefix, prefix_refl, prefix_trans,
  get_elem?_prefix, length_prefix,
}
use rsdag.Node.{ExprId, ArgList, Node}
use rsdag.Node.Eq.{Node-discrete, List-discrete, String-discrete}
use rsdag.Node.Operands.{window}
use rsdag.Field.{Field}
use rsdag.Graph.{Graph}
use rsdag.Graph.Calls.{call_operands}

-- Ids are `u32`: what the arenas hold together has to stay below.
abbrev pub capacity : ℕ
capacity = 2 ^ 32 - 1

module _ {K : Field} where
  -- Id `e` stands for node `n`.
  abbrev pub At : Graph K → ExprId → Node → Type 0
  At g e n = get_elem? g.nodes e ≡ some n

  -- An id of the graph.
  abbrev pub Has : Graph K → ExprId → Type 0
  Has g e = e < length g.nodes

  -- Id `e` stands for the constant `r`.
  abbrev pub IsConst : Graph K → ExprId → K.Const → Type 0
  IsConst g e r = (c : ℕ) × At g e (Node.const c) × (get_elem? g.consts c ≡ some r)

  -- What the cache of literals holds for a literal that the field has, or has not.
  abbrev pub IsCached : Graph K → ExprId → Option K.Const → Type 0
  IsCached g e (some r) = IsConst g e r
  IsCached g e none = e ≡ g.zero

  -- The window holds a list of ids below `i`.
  abbrev pub ListBelow : Graph K → ℕ → ArgList → (List ExprId → Type 0) → Type 0
  ListBelow g i l P =
      (es : List ExprId) × (window g.arg_pool l ≡ some es) × All (λ e. e < i) es × P es

  -- What node `n` reads exists, and is older than place `i`.
  abbrev pub Below : Graph K → ℕ → Node → Type 0
  Below g i (Node.const c) = c < length g.consts
  Below g i (Node.symbol s) = s < length g.symbol_names
  Below g i (Node.add a b) = (a < i) × (b < i)
  Below g i (Node.mul a b) = (a < i) × (b < i)
  Below g i (Node.neg a) = a < i
  Below g i (Node.pow a n) = a < i
  Below g i (Node.unary op a) = a < i
  Below g i (Node.binary op a b) = (a < i) × (b < i)
  Below g i (Node.cmp op a b) = (a < i) × (b < i)
  Below g i (Node.select c t e) = (c < i) × (t < i) × (e < i)
  Below g i (Node.reduce op l) = ListBelow g i l (λ _. Unit)
  Below g i (Node.dot l) = ListBelow g i l (λ es. (n : ℕ) × (length es ≡ n + n))
  Below g i (Node.solve l k) = ListBelow g i l (λ es. (n : ℕ) × (length es ≡ n * n + n) × (k < n))
  Below g i (Node.call o l) =
      (es : List ExprId) × (call_operands g o l ≡ some es) × All (λ e. e < i) es

  pub record IsWf (g : Graph K) : Type 0 where
    pub nodes_index : IsIndex Node-discrete g.nodes g.dedup
    pub consts_index : IsIndex K.const_discrete g.consts g.const_dedup
    pub symbols_index : IsIndex String-discrete g.symbol_names g.symbol_ids
    pub lists :
        (es : List ExprId) (l : ArgList)
        → find List-discrete es g.arg_dedup ≡ some l
        → window g.arg_pool l ≡ some es
    pub shapes : length g.shape ≡ length g.nodes
    pub ordered : (i : ℕ) (n : Node) → At g i n → Below g i n
    pub zero_const : IsConst g g.zero K.zero
    pub one_const : IsConst g g.one K.one
    pub cache :
        (x : K.Real) (e : ExprId)
        → find ℕ_discrete (K.real_bits x) g.f64_cache ≡ some e
        → IsCached g e (K.from_f64 x)

  -- Arenas grow at their ends; what is in them stays.
  pub record Extends (g g' : Graph K) : Type 0 where
    pub nodes : IsPrefix g.nodes g'.nodes
    pub consts : IsPrefix g.consts g'.consts
    pub pool : IsPrefix g.arg_pool g'.arg_pool
    pub names : IsPrefix g.symbol_names g'.symbol_names
    pub zero : g'.zero ≡ g.zero
    pub one : g'.one ≡ g.one
    pub funcs : g'.funcs ≡ g.funcs
    pub outputs : g'.outputs ≡ g.outputs
    pub output_ctx : g'.output_ctx ≡ g.output_ctx
    pub contexts : g'.contexts ≡ g.contexts

  unfoldable pub size : Graph K → ℕ
  size g = length g.nodes + length g.consts + length g.arg_pool + length g.symbol_names

  -- `g'` is a well-formed extension of `g` by at most `k` entries.
  pub record Grows (k : ℕ) (g g' : Graph K) : Type 0 where
    pub wf : IsWf g'
    pub ext : Extends g g'
    pub grown : size g' ≤ size g + k

  -- Where `k` more entries fit, `m` does not panic, grows the graph by at most `k` entries and
  -- yields a result of which `Q` holds.
  pub record Builds {A : Type 0} (k : ℕ) (m : State (Graph K) A) (g : Graph K)
      (Q : A → Graph K → Type 0) : Type 0 where
    pub run :
        size g + k ≤ capacity
        → (a : A) × (g' : Graph K) × (m g ≡ some (a, g')) × Grows k g g' × Q a g'

module _ {K : Field} where
  pub Extends-refl : (g : Graph K) → Extends g g
  Extends-refl g = record {
    nodes = prefix_refl g.nodes;
    consts = prefix_refl g.consts;
    pool = prefix_refl g.arg_pool;
    names = prefix_refl g.symbol_names;
    zero = refl;
    one = refl;
    funcs = refl;
    outputs = refl;
    output_ctx = refl;
    contexts = refl;
  }

  pub Extends-trans : {g h k : Graph K} → Extends g h → Extends h k → Extends g k
  Extends-trans p q = record {
    nodes = prefix_trans p.nodes q.nodes;
    consts = prefix_trans p.consts q.consts;
    pool = prefix_trans p.pool q.pool;
    names = prefix_trans p.names q.names;
    zero = q.zero ∙ p.zero;
    one = q.one ∙ p.one;
    funcs = q.funcs ∙ p.funcs;
    outputs = q.outputs ∙ p.outputs;
    output_ctx = q.output_ctx ∙ p.output_ctx;
    contexts = q.contexts ∙ p.contexts;
  }

  pub At-ext : {g g' : Graph K} {n : Node} (e : ExprId) → Extends g g' → At g e n → At g' e n
  At-ext e x h = get_elem?_prefix x.nodes e h

  pub Has-ext : {g g' : Graph K} (e : ExprId) → Extends g g' → Has g e → Has g' e
  Has-ext e x h = omega (arith, length_prefix x.nodes)

  pub IsConst-ext :
      {g g' : Graph K} {r : K.Const} (e : ExprId) → Extends g g' → IsConst g e r → IsConst g' e r
  IsConst-ext e x (c, p, q) = (c, At-ext e x p, get_elem?_prefix x.consts c q)

  pub IsCached-ext :
      {g g' : Graph K} (r : Option K.Const) (e : ExprId)
      → Extends g g'
      → IsCached g e r
      → IsCached g' e r
  IsCached-ext none e x h = h ∙ sym x.zero
  IsCached-ext (some r) e x h = IsConst-ext e x h

  pub Grows-refl : {g : Graph K} → IsWf g → Grows 0 g g
  Grows-refl {g} w = record { wf = w; ext = Extends-refl g; grown = omega arith }

module _ {K : Field} {A : Type 0} where
  -- A result that needs no growth.
  pub Builds-pure :
      {g : Graph K} {a : A} {m : State (Graph K) A} {Q : A → Graph K → Type 0}
      → IsWf g
      → m g ≡ some (a, g)
      → Q a g
      → Builds 0 m g Q
  Builds-pure {g} {a} w e q = record { run = λ room. (a, g, e, Grows-refl w, q) }

  pub Builds-weaken :
      {g : Graph K} {m : State (Graph K) A} {Q : A → Graph K → Type 0} {k j : ℕ}
      → k ≤ j
      → Builds k m g Q
      → Builds j m g Q
  Builds-weaken {g} {m} {Q} {k} {j} le b = record { run = λ room. widen (b.run (omega arith)) }
    where
      widen :
          (a : A) × (g' : Graph K) × (m g ≡ some (a, g')) × Grows k g g' × Q a g'
          → (a : A) × (g' : Graph K) × (m g ≡ some (a, g')) × Grows j g g' × Q a g'
      widen (a, g', e, gr, q) =
          (a, g', e, record { wf = gr.wf; ext = gr.ext; grown = omega (arith, gr.grown) }, q)

  -- Two computations that run alike from `g` build alike.
  pub Builds-run :
      {g : Graph K} {m m' : State (Graph K) A} {Q : A → Graph K → Type 0} {k : ℕ}
      → m g ≡ m' g
      → Builds k m' g Q
      → Builds k m g Q
  Builds-run e b = record { run = λ room. rw e (b.run room) }

  -- A result that is at hand, with room to spare.
  pub Builds-at_hand :
      {g : Graph K} {a : A} {m : State (Graph K) A} {Q : A → Graph K → Type 0} (k : ℕ)
      → IsWf g
      → m g ≡ some (a, g)
      → Q a g
      → Builds k m g Q
  Builds-at_hand k w e q = Builds-weaken (omega arith) (Builds-pure w e q)

  pub Builds-imp :
      {g : Graph K} {m : State (Graph K) A} {P Q : A → Graph K → Type 0} {k : ℕ}
      → Builds k m g P
      → ((a : A) (g' : Graph K) → Grows k g g' → P a g' → Q a g')
      → Builds k m g Q
  Builds-imp {g} {m} {P} {Q} {k} b f = record { run = λ room. imp (b.run room) }
    where
      imp :
          (a : A) × (g' : Graph K) × (m g ≡ some (a, g')) × Grows k g g' × P a g'
          → (a : A) × (g' : Graph K) × (m g ≡ some (a, g')) × Grows k g g' × Q a g'
      imp (a, g', e, gr, p) = (a, g', e, gr, f a g' gr p)

  -- One operation after another: the second starts where the first has led.
  pub Builds-bind :
      {B : Type 0} {g : Graph K} {m : State (Graph K) A} {f : A → State (Graph K) B}
      {P : A → Graph K → Type 0} {Q : B → Graph K → Type 0} {k j : ℕ}
      → Builds k m g P
      → ((a : A) (g₁ : Graph K) → Grows k g g₁ → P a g₁ → Builds j (f a) g₁ Q)
      → Builds (k + j) (m >>= f) g Q
  Builds-bind {B} {g} {m} {f} {P} {Q} {k} {j} b next = record {
    run = λ room. first room (b.run (omega arith));
  }
    where
      second :
          (a : A) (g₁ : Graph K)
          → m g ≡ some (a, g₁)
          → Grows k g g₁
          → (c : B) × (g₂ : Graph K) × (f a g₁ ≡ some (c, g₂)) × Grows j g₁ g₂ × Q c g₂
          → (c : B) × (g₂ : Graph K) × ((m >>= f) g ≡ some (c, g₂)) × Grows (k + j) g g₂ × Q c g₂
      second a g₁ e gr (c, g₂, e₂, gr₂, q) = (
        c,
        g₂,
        rw e e₂,
        record {
          wf = gr₂.wf;
          ext = Extends-trans gr.ext gr₂.ext;
          grown = omega (arith, gr.grown, gr₂.grown);
        },
        q,
      )

      first :
          size g + (k + j) ≤ capacity
          → (a : A) × (g₁ : Graph K) × (m g ≡ some (a, g₁)) × Grows k g g₁ × P a g₁
          → (c : B) × (g₂ : Graph K) × ((m >>= f) g ≡ some (c, g₂)) × Grows (k + j) g g₂ × Q c g₂
      first room (a, g₁, e, gr, p) =
          second a g₁ e gr ((next a g₁ gr p).run (omega (arith, gr.grown)))
