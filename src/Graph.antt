-- ===== src/Graph.antt =====
-- The hash-consed expression graph, `Graph` of crates/rsdag/src/graph/mod.rs: its state. The
-- memos, the derived functions' caches and the template cache hold no expression of the graph and
-- are left out. Graph/Intern.antt has the arenas, Graph/Build.antt the smart constructors.
pub mod Calls
pub mod Valid
pub mod Intern
pub mod Build
pub mod Denotes
pub mod Sweep
pub mod Fused
pub mod Elementary
pub mod Below
pub mod Meaning
use rsdag.Prelude.{ℕ, List, String, ◌-◌, ◌^◌}
use rsdag.Node.{ExprId, ConstId, SymbolId, OutputId, ArgList, Node}
use rsdag.Field.{Field}

-- `Output` of crates/rsdag/src/func.rs.
pub data Output : Type 0 where
  expr : ExprId → Output
  slot : ℕ → Output
  zero : Output

-- What expressions need of a `Function` (crates/rsdag/src/func.rs): its name, parameters and
-- outputs, and the symbols that its body reads beside them, as `Graph::globals` keeps them.
pub record Function : Type 0 where
  pub name : String
  pub params : List SymbolId
  pub outputs : List Output
  pub globals : List ExprId

-- Parameters of a function bound once for every call through it.
pub record Context : Type 0 where
  pub f : ℕ
  pub at : List ℕ
  pub exprs : ArgList
  pub slots : List ℕ

-- `u32::MAX`: a call passes every parameter.
abbrev pub no_context : ℕ
no_context = 2 ^ 32 - 1

-- Marks a bound parameter in a context's slots.
abbrev pub bound : ℕ
bound = 2 ^ 31

pub record Graph (K : Field) : Type 0 where
  pub nodes : List Node
  pub shape : List ℕ
  pub dedup : List (Node × ℕ)
  pub consts : List K.Const
  pub const_dedup : List (K.Const × ℕ)
  pub f64_cache : List (ℕ × ExprId)
  pub arg_pool : List ExprId
  pub arg_dedup : List (List ExprId × ArgList)
  pub list_shape : List ((ℕ × ArgList) × ℕ)
  pub zero : ExprId
  pub one : ExprId
  pub symbol_names : List String
  pub symbol_ids : List (String × ℕ)
  pub funcs : List Function
  pub outputs : List (ℕ × ℕ)
  pub output_ctx : List ℕ
  pub contexts : List Context
