-- ===== src/Tests/Graphs.antt =====
-- The graph's theorems at graphs over the field of three elements: the new graph, and one with a
-- symbol besides.
use rsdag.Prelude.{◌+◌, ◌≤◌, ◌≡◌, refl, List, [], ◌∷◌, length, get_or, get_elem?-lt, some, arith}
use rsdag.Node.{UnaryOp, ExprId, Node}
use rsdag.Node.Operands.{window}
use rsdag.Graph.{Graph}
use rsdag.Graph.Valid.{Has-ext, IsWf, At, IsConst, Has, Extends, size, capacity}
use rsdag.Graph.Meaning.{IsValuation}
use rsdag.Graph.Sweep.{eval_arena}
use rsdag.Graph.Sweep.Valuation.{eval_arena-IsValuation}
use rsdag.Graph.Intern
use rsdag.Graph.Intern.{intern, intern_args, konst}
use rsdag.Graph.Intern.New.{new, made, made-IsWf, new-IsWf}
use rsdag.Graph.Intern.Leaves.{IsSymbol, sym-Builds}
use rsdag.Graph.Intern.Correct.{Gives, intern-Gives, intern_args-Gives, konst-Gives, sym-Gives}
use rsdag.Graph.Intern.Unique.{intern_present, konst_present}
use rsdag.Graph.Build.{add, mul, neg, select}
use rsdag.Graph.Build.Branches.{IsSum, IsProduct, add-Gives, mul-Gives}
use rsdag.Graph.Build.Picks.{IsNegation, IsChoice, neg-Gives, select-Gives}
use rsdag.Graph.Build.Correct.{Succeeds}
use rsdag.Graph.Fused.{dot}
use rsdag.Graph.Fused.Dot.{dot_total}
use rsdag.Graph.Build.Commute.{add_comm, mul_comm}
use rsdag.Graph.Elementary.{unary}
use rsdag.Graph.Elementary.Unary.{unary_total}
use rsdag.Tests.Mod3.{
  Mod3, nought, one, two, mod3_field, mod3_scalar, mod3_closures, add3_comm, mul3_comm, zero-ne-one,
}

abbrev start : Graph mod3_field
start = made

start-IsWf : IsWf start
start-IsWf = made-IsWf zero-ne-one

start_room : size start + 8 ≤ capacity
unfolding size
start_room = omega arith

intern_example : Gives (intern (Node.neg 1)) start (λ e g'. At g' e (Node.neg 1))
intern_example =
    intern-Gives start start-IsWf (Node.neg 1) (omega arith) tt (omega (arith, start_room))

new_example : (g : Graph mod3_field) × (new ≡ some g) × IsWf g
new_example = new-IsWf zero-ne-one

konst_example : Gives (konst two) start (λ e g'. IsConst g' e two)
konst_example = konst-Gives start start-IsWf two (omega (arith, start_room))

sym_example : Gives (Intern.sym "x") start (λ e g'. IsSymbol g' e "x")
sym_example = sym-Gives start start-IsWf "x" (omega (arith, start_room))

intern_args_example :
    Gives
      (intern_args (1 ∷ 0 ∷ 1 ∷ []))
      start
      (λ l g'. window g'.arg_pool l ≡ some (1 ∷ 0 ∷ 1 ∷ []))
intern_args_example =
    intern_args-Gives start start-IsWf (1 ∷ 0 ∷ 1 ∷ [])
      (omega arith, (omega arith, (omega arith, tt))) (omega (arith, start_room))

intern_present_example : intern (Node.const 1) start ≡ some (1, start)
intern_present_example = intern_present start start-IsWf 1 (Node.const 1) refl

konst_present_example : konst one start ≡ some (1, start)
konst_present_example = konst_present start start-IsWf 1 one (1, refl, refl)

-- The start with a symbol `x`.
with_x :
    (e : ExprId) × (g' : Graph mod3_field) × IsWf g'
    × Extends start g'
    × IsSymbol g' e "x"
    × (size g' + 6 ≤ capacity)
with_x =
    let (e, g', _, gr, q) = (sym-Builds start "x" start-IsWf).run (omega (arith, start_room)) in
    (e, g', gr.wf, gr.ext, q, omega (arith, start_room, gr.grown))

abbrev x : ExprId
x = with_x.0

abbrev g : Graph mod3_field
g = with_x.1

g-IsWf : IsWf g
g-IsWf = with_x.2

x-IsSymbol : IsSymbol g x "x"
x-IsSymbol = with_x.4

room_two : size g + 2 ≤ capacity
room_two = omega (arith, with_x.5)

x-Has : Has g x
x-Has = get_elem?-lt g.nodes x x-IsSymbol.1

one-Has : Has g 1
one-Has = Has-ext 1 with_x.3 (omega arith)

add_comm_example : add x 1 g ≡ add 1 x g
add_comm_example = add_comm g g-IsWf x 1 x-Has one-Has add3_comm

mul_comm_example : mul x 1 g ≡ mul 1 x g
mul_comm_example = mul_comm g g-IsWf x 1 x-Has one-Has mul3_comm

eval_arena-IsValuation_example :
    (w : List Mod3) × (eval_arena mod3_scalar mod3_closures g ≡ some w)
    × (length w ≡ length g.nodes)
    × IsValuation mod3_scalar mod3_closures g (λ e. get_or w e nought)
eval_arena-IsValuation_example = eval_arena-IsValuation mod3_scalar mod3_closures g g-IsWf

add-Gives_example : Gives (add x 1) g (IsSum g x 1)
add-Gives_example = add-Gives g g-IsWf x 1 x-Has one-Has room_two

mul-Gives_example : Gives (mul x x) g (IsProduct g x x)
mul-Gives_example = mul-Gives g g-IsWf x x x-Has x-Has room_two

neg-Gives_example : Gives (neg x) g (IsNegation g x)
neg-Gives_example = neg-Gives g g-IsWf x x-Has room_two

select-Gives_example : Gives (select x 1 x) g (IsChoice g x 1 x)
select-Gives_example = select-Gives g g-IsWf x 1 x x-Has one-Has x-Has room_two

dot_total_example : Succeeds (dot (1 ∷ 1 ∷ []) (1 ∷ 0 ∷ [])) start
dot_total_example =
    dot_total start start-IsWf (1 ∷ 1 ∷ []) (1 ∷ 0 ∷ []) (omega arith, (omega arith, tt))
      (omega arith, (omega arith, tt)) refl (omega (arith, start_room))

unary_total_example : Succeeds (unary UnaryOp.abs x) g
unary_total_example = unary_total g g-IsWf UnaryOp.abs x x-Has room_two
