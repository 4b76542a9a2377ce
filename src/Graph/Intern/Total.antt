-- ===== src/Graph/Intern/Total.antt =====
-- When `Graph::shape_of` of crates/rsdag/src/graph/mod.rs reads the fingerprint of a node.
use rsdag.Prelude.{
  ℕ, ◌<◌, List, [], ◌∷◌, length, All, get_elem?_total, Reads, Reads-pure, Reads-read, Reads-bind,
}
use rsdag.Node.{ExprId, ArgList, Node}
use rsdag.Node.Shape.{Tag, mix}
use rsdag.Field.{Field}
use rsdag.Graph.{Graph}
use rsdag.Graph.Valid.{IsWf, Has, Below, ListBelow}
use rsdag.Graph.Intern.{shape_of, fingerprint, mix_list, mix_args, mix_pair, args}

-- Nodes that the algebraic constructors make: all but calls.
abbrev pub NotCall : Node → Type 0
NotCall (Node.call o l) = ⊥
NotCall _ = Unit

module _ {K : Field} where
  pub mix_list_total :
      (g : Graph K) (h : ℕ) (es : List ExprId)
      → All (λ e. e < length g.shape) es
      → Reads (mix_list h es) g
  unfolding mix_list fingerprint
  mix_list_total g h [] b = Reads-pure g h
  mix_list_total g h (e ∷ es) (b, bs) =
      let (f, p) = get_elem?_total g.shape e b in
      Reads-bind (Reads-read g _ f p) (λ f. mix_list_total g (mix h f) es bs)

  module _ (g : Graph K) (w : IsWf g) where
    pub shape_at : (e : ExprId) → Has g e → Reads (fingerprint e) g
    unfolding fingerprint
    shape_at e h = let (f, p) = get_elem?_total g.shape e (rw w.shapes h) in Reads-read g _ f p

    mix_pair_total : (t : Tag) (a b : ExprId) → Has g a → Has g b → Reads (mix_pair t a b) g
    unfolding mix_pair
    mix_pair_total t a b ha hb =
        Reads-bind (shape_at a ha) λ x. Reads-bind (shape_at b hb) λ y. Reads-pure g _

    mix_args_total :
        (h : ℕ) (l : ArgList) {P : List ExprId → Type 0}
        → ListBelow g (length g.nodes) l P
        → Reads (mix_args h l) g
    unfolding mix_args args
    mix_args_total h l (es, p, b, _) =
        let r = mix_list_total g h es (rw w.shapes b) in
        record { value = r.value; run = rw p r.run }

    pub shape_of_total : (n : Node) → Below g (length g.nodes) n → NotCall n → Reads (shape_of n) g
    unfolding shape_of
    shape_of_total (Node.const c) b _ =
        let (r, p) = get_elem?_total g.consts c b in
        Reads-bind (Reads-read g _ r p) λ r. Reads-pure g _
    shape_of_total (Node.symbol s) b _ =
        let (r, p) = get_elem?_total g.symbol_names s b in
        Reads-bind (Reads-read g _ r p) λ r. Reads-pure g _
    shape_of_total (Node.add a c) b _ = mix_pair_total Tag.add a c b.0 b.1
    shape_of_total (Node.mul a c) b _ = mix_pair_total Tag.mul a c b.0 b.1
    shape_of_total (Node.neg a) b _ = Reads-bind (shape_at a b) λ x. Reads-pure g _
    shape_of_total (Node.pow a n) b _ = Reads-bind (shape_at a b) λ x. Reads-pure g _
    shape_of_total (Node.unary op a) b _ = Reads-bind (shape_at a b) λ x. Reads-pure g _
    shape_of_total (Node.binary op a c) b _ =
        Reads-bind (shape_at a b.0) λ x. Reads-bind (shape_at c b.1) λ y. Reads-pure g _
    shape_of_total (Node.cmp op a c) b _ =
        Reads-bind (shape_at a b.0) λ x. Reads-bind (shape_at c b.1) λ y. Reads-pure g _
    shape_of_total (Node.select c t e) b _ =
        Reads-bind (shape_at c b.0)
          λ x. Reads-bind (shape_at t b.1) λ y. Reads-bind (shape_at e b.2) λ z. Reads-pure g _
    shape_of_total (Node.reduce op l) b _ = mix_args_total _ l b
    shape_of_total (Node.dot l) b _ = mix_args_total _ l b
    shape_of_total (Node.solve l k) b _ = mix_args_total _ l b
    shape_of_total (Node.call o l) b h = absurd h
