-- ===== src/Lib.antt =====
-- Verification of the expression graph library rsdag (crates/rsdag). The library keeps symbolic
-- expressions as nodes of a hash-consed graph, rewrites them while they are built, classifies them
-- and evaluates them.
--
-- Parts, and the code that they model:
--   Prelude        shared names: lists, integers and tables over the native numbers, code that
--                  changes a state and may panic (`State`, `none` being the panic)
--   Node           crates/rsdag/src/node.rs: nodes, the op tables with their codes and names
--                  (`UNARY_OPS`, `BINARY_OPS`, `Elementary`), `Node::operands`,
--                  `Node::with_operands`, the mixing of fingerprints (`shape::mix`)
--   Field          crates/rsdag/src/field.rs: the arithmetic of constants, the trait `Field`, as a
--                  record that everything else is generic in
--   Semantics      crates/rsdag/src/scalar.rs, the trait `Scalar`, and the reference folds of
--                  crates/rsdag/src/semantics.rs (`reduce_slice_t`, `dot_slice_t`)
--   Graph          crates/rsdag/src/graph/mod.rs: the state (Graph), the arenas and their indices
--                  (Graph/Intern: `new`, `intern`, `intern_args`, `shape_of`, `konst`, `sym`), the
--                  constructors (Graph/Build: `add`, `sub`, `mul`, `neg`, `cmp`, `select`, what they make
--                  on each branch in Branches and Picks;
--                  Graph/Elementary: `unary`; Graph/Fused: `dot`), the operands of calls
--                  (Graph/Calls: `full_args` of graph/calls.rs), the invariant (Graph/Valid),
--                  `node_value` of crates/rsdag/src/eval.rs (Graph/Meaning) and the sweep of `eval`
--                  (Graph/Sweep)
--   Nonlinearity   crates/rsdag/src/nonlinearity.rs: the class of a node from its operands' classes
--                  (Plain: of a single operation)
--   Choices        crates/rsdag/src/choices.rs: what a program learns of its region choices
--   Program        the lowered program of a tape, crates/rsdag/src/tape/compile.rs (`Inst`, `Ref`,
--                  `Kind`, `Program`), and what it computes (`Tape::scalar` of tape/mod.rs);
--                  Program/Follow and Program/Reach are the loops `resolve` and the search of
--                  crates/rsdag/src/tape/specialize.rs, Program/Specialize its `Tape::specialize`
--                  and `specialize_main` (Pins, Collect, Guards: `pins` and the guards; Agree,
--                  Sound, Runs, Checked, Whole, Traced, Total: proofs), Program/Decide its
--                  `param_selects` and `decide` (Selects, Arms, Operands, Sound, Total),
--                  Program/Compact `Program::compact` and `retain_reachable` of compile.rs
--                  (Places, Sound, Retain, Reached, Total)
--   Tape           the stream over slots, crates/rsdag/src/tape/mod.rs (`Op`, `Tape`,
--                  `for_each_operand`, `width`): Tape/Run its evaluation in op order (`read`,
--                  `scalar`, `run_range`, `eval_with`), Tape/Phases `eval_prolog` and
--                  `eval_main_with` (Append, Split), Tape/Gather an op by its listed operands,
--                  Tape/Lift `Tape::lift` of compile.rs (Held, Kept, State, Steps, Runs, Follows,
--                  Whole: the lifted program beside the evaluation; Ordered, Arms, Programs: its
--                  order), Tape/Specialize `Tape::specialize` from evaluation to evaluation,
--                  Tape/Stages `plan_stages` (Apart, Grown, Planned; Swap,
--                  Unread, Order: its calls in either order)
--   Coo            crates/rsdag/src/coo.rs: sparse matrices in coordinate form
--   Tests          a field of three elements, and the theorems at concrete inputs
--
-- How the parts interact: a constructor of Graph/Build reads its operands' constants, decides on a
-- folding and interns what is left through Graph/Intern; Graph/Meaning says what the ids then
-- stand for, through the scalar of Semantics; Nonlinearity reads the graph's nodes.
-- A program's run gives every instruction a block of values; Program/Specialize reads a trace off a
-- run and makes a shorter program, whose guards tell in another run whether the trace still holds.
--
-- A tape lifts to a program, whose run is the evaluation of the tape; its specialization is the
-- program's.
--
-- A tape is a stream (IsStream, Tape/Lift/Whole) when every op has a destination, when the ops are
-- fewer than the largest `u32`, when a call with a state finds it in the block of a prolog's op, and
-- when no product kernel folds its outputs (`Accum`); `lift` models folds, the theorems leave them
-- out. Kernels (calls, products, solves) are a parameter: a block from the operands' values and, for
-- a call, its state's. Stages and regions run in op order, and the gather area and what is lent to
-- kernels are not part of the slots.
--
-- A graph is well formed (IsWf, Graph/Valid) when its indices tell every node, constant and name its
-- one place, when every list that is interned lies in its window, when a node reads only what exists
-- and is older, and when the ids of zero and one stand for zero and one. A valuation of a graph gives
-- every node the value that its operands' values determine; an expression means its value under
-- every valuation. The sweep reads an operand only where its value is there, and panics where the code
-- does; what `node_value` calls for symbols, calls and solutions are functions that return.
--
-- A program is in a dependency order (IsProgram, Program) when every operand is older than the
-- instruction that reads it, and roots and placeholder are instructions of it. `compact` panics, as in
-- the code, on an operand, root or placeholder out of range.
--
-- Bounds: ids are `u32` and wrap (`% 2 ^ 32`) as in the code. A graph's size is what its arenas hold
-- together; an operation is given room for the entries that it adds at most, so that no id wraps:
-- one for a node, two for a constructor, four for `sub`, its lists' lengths and two for `dot`, a
-- list's length for `intern_args`. The counters of Choices are `u64` and wrap, degrees of
-- Nonlinearity are `u32` with checked arithmetic. The offsets of `Coo::append` are `usize` of 64 bits
-- and wrap as in a release build (a debug build panics there).
-- Loops are recursion on lists. `unary` takes fuel for the negations under an `abs`: one more than
-- the operand's id, which is enough because a node reads only older ones. Following pinned selects
-- takes as much fuel as there are instructions, which is enough because an arm is older than its
-- select; the search takes fuel for its stack and for what each unmarked instruction still pushes.
-- The loop that finds a tape's stages takes as many steps as there are ops at most.
-- In Program and Tape, `u32` indices are numbers without a bound.
--
-- Exact arithmetic (IsExact, and UnaryLaws for the functions) is a commutative ring in which constants
-- embed with their arithmetic, where what the constructors make evaluates to what they are called
-- with (Graph/Build/Values, Graph/Elementary/Unary, Graph/Fused/Dot). `f64` satisfies neither: its
-- sums round and do not associate, and zero times infinity is no zero. These are lemmas about the
-- rewrites and no results about `f64`; a scalar with one value, which satisfies every such law, gives
-- from them that `unary`, `dot` and `sub` do not panic, over any field.
--
-- Not modelled: implementations of `Field` and `Scalar` and the numeric kernels (floating point), the
-- hash of a string's bytes (a field of the arithmetic), the memos and caches of derived functions,
-- `pow_i`, `binary`, `reduce` and `solve_dense`, functions and their inlining,
-- differentiation, the tape's lowering, scheduling and emission (a shortened program also keeps the
-- instructions that no root reaches any more), guards that are counted, the JIT back end and the
-- Python bindings.
pub mod Prelude
pub mod Choices
pub mod Coo
pub mod Nonlinearity
pub mod Node
pub mod Program
pub mod Tape
pub mod Field
pub mod Semantics
pub mod Graph
pub mod Tests
