-- ===== src/Graph/Intern/Correct.antt =====
-- The interning operations of crates/rsdag/src/graph/mod.rs over a well-formed graph with room,
-- stated without the vocabulary that their proofs share.
use rsdag.Prelude.{ℕ, ◌+◌, ◌≤◌, ◌≡◌, List, length, some, All, State, String}
use rsdag.Node.{ExprId, Node}
use rsdag.Node.Operands.{window}
use rsdag.Field.{Field}
use rsdag.Graph.{Graph}
use rsdag.Graph.Valid.{IsWf, At, Has, IsConst, Below, Extends, Builds, size, capacity}
use rsdag.Graph.Intern
use rsdag.Graph.Intern.{intern, intern_args, konst}
use rsdag.Graph.Intern.Total.{NotCall}
use rsdag.Graph.Intern.Sound.{intern-Builds}
use rsdag.Graph.Intern.Lists.{intern_args-Builds}
use rsdag.Graph.Intern.Leaves.{konst-Builds, sym-Builds, IsSymbol}

module _ {K : Field} {A : Type 0} where
  -- The operation does not panic; it leaves a well-formed graph that extends the one given, and a
  -- result of which `Q` holds there.
  abbrev pub Gives : State (Graph K) A → Graph K → (A → Graph K → Type 0) → Type 0
  Gives m g Q = (a : A) × (g' : Graph K) × (m g ≡ some (a, g')) × IsWf g' × Extends g g' × Q a g'

  pub Builds-Gives :
      {k : ℕ} {m : State (Graph K) A} {g : Graph K} {Q : A → Graph K → Type 0}
      → Builds k m g Q
      → size g + k ≤ capacity
      → Gives m g Q
  Builds-Gives b room = let (a, g', run, gr, q) = b.run room in (a, g', run, gr.wf, gr.ext, q)

module _ {K : Field} (g : Graph K) (w : IsWf g) where
  -- In a well-formed graph with room for an entry, interning a node that is no call and reads what
  -- the graph holds does not panic: the graph stays well formed, keeps what it held, and the result
  -- stands for the node.
  pub intern-Gives :
      (n : Node)
      → Below g (length g.nodes) n
      → NotCall n
      → size g + 1 ≤ capacity
      → Gives (intern n) g (λ e g'. At g' e n)
  intern-Gives n b nc = Builds-Gives (intern-Builds g n w b nc)

  -- In a well-formed graph with room for two entries, `konst` does not panic: the graph stays well
  -- formed, keeps what it held, and the result stands for the constant.
  pub konst-Gives :
      (r : K.Const) → size g + 2 ≤ capacity → Gives (konst r) g (λ e g'. IsConst g' e r)
  konst-Gives r = Builds-Gives (konst-Builds g r w)

  -- In a well-formed graph with room for two entries, `sym` does not panic: the graph stays well
  -- formed, keeps what it held, and the result stands for a symbol of the name.
  pub sym-Gives :
      (name : String)
      → size g + 2 ≤ capacity
      → Gives (Intern.sym name) g (λ e g'. IsSymbol g' e name)
  sym-Gives name = Builds-Gives (sym-Builds g name w)

  -- In a well-formed graph with room for the list, `intern_args` over ids of the graph does not
  -- panic: the graph stays well formed, keeps what it held, and the window given holds the list.
  pub intern_args-Gives :
      (es : List ExprId)
      → All (λ e. Has g e) es
      → size g + length es ≤ capacity
      → Gives (intern_args es) g (λ l g'. window g'.arg_pool l ≡ some es)
  intern_args-Gives es b = Builds-Gives (intern_args-Builds g es w b)
