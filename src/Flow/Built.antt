-- ===== src/Flow/Built.antt =====
-- gnes/flow/__init__.py: the edges of a built graph.
use gnes.Prelude.{
  ◌≡◌, refl, ap, ◌∙◌, true, Option, none, some, List, [], ◌∷◌, Str, str_eq, ◌==◌, eq_of_==, Dict,
  lookup, has_key, has_key-insert, lookup-adjust, contains, arith, Bool-cases, inl, inr, Returns,
  Returns-then, lift_option,
}
use gnes.Flow.Data.{Node, Flow, FlowError, EdgeType, unset, incomplete, topology}
use gnes.Flow.View.{edge_out, out_of}
use gnes.Flow.Graph.{
  edge_name, add_in_edges, add_out_edges, all_edges, close_loop, collect_edges, connect_all,
  truthy_name, loop_end, build_graph,
}
use gnes.Flow.Building.{is_typed, connect_all-decides}

add_in_edges-keeps :
    (j k : Str) (l : List Str) (edges : Dict Str EdgeType)
    → has_key j edges ≡ true
    → has_key j (add_in_edges l k edges) ≡ true
unfolding add_in_edges
add_in_edges-keeps j k [] edges h = h
add_in_edges-keeps j k (s ∷ l) edges h =
    add_in_edges-keeps j k l _ (ground (arith, has_key-insert j (edge_name s k) unset edges))

add_out_edges-keeps :
    (j k : Str) (l : List Str) (edges : Dict Str EdgeType)
    → has_key j edges ≡ true
    → has_key j (add_out_edges k l edges) ≡ true
unfolding add_out_edges
add_out_edges-keeps j k [] edges h = h
add_out_edges-keeps j k (t ∷ l) edges h =
    add_out_edges-keeps j k l _ (ground (arith, has_key-insert j (edge_name k t) unset edges))

add_out_edges-member :
    (k b : Str) (l : List Str) (edges : Dict Str EdgeType)
    → contains l b ≡ true
    → has_key (edge_name k b) (add_out_edges k l edges) ≡ true
unfolding add_out_edges
add_out_edges-member k b [] edges h = cc
add_out_edges-member k b (t ∷ l) edges h = elim (Bool-cases (b == t)) [
  | inl same ↦ add_out_edges-keeps (edge_name k b) k l _ (
      ground (
        arith,
        ap (edge_name k) (eq_of_== b t same),
        has_key-insert (edge_name k b) (edge_name k t) unset edges,
      ))
  | inr other ↦ add_out_edges-member k b l _ (ground arith)
]

all_edges-keeps :
    (j : Str) (nodes : Dict Str Node) (edges : Dict Str EdgeType)
    → has_key j edges ≡ true
    → has_key j (all_edges nodes edges) ≡ true
unfolding all_edges
all_edges-keeps j [] edges h = h
all_edges-keeps j ((k, v) ∷ nodes) edges h =
    all_edges-keeps j nodes _
      (add_out_edges-keeps j k v.outgoings _ (add_in_edges-keeps j k v.incomes edges h))

all_edges-member :
    (a b : Str) (nodes : Dict Str Node) (edges : Dict Str EdgeType)
    → contains (out_of (lookup a nodes)) b ≡ true
    → has_key (edge_name a b) (all_edges nodes edges) ≡ true
unfolding all_edges lookup out_of
all_edges-member a b [] edges h = cc
all_edges-member a b ((k, v) ∷ nodes) edges h = elim (Bool-cases (a == k)) [
  | inl same ↦
      all_edges-keeps (edge_name a b) nodes _
        (rw (eq_of_== a k same) (add_out_edges-member k b v.outgoings _ (ground arith)))
  | inr other ↦ all_edges-member a b nodes _ (ground arith)
]

close_loop-outs :
    (name last : Str) (f : Flow)
    → Returns
        (λ _ g.
          (g.service_edges ≡ f.service_edges) × ((a b : Str) → edge_out g a b ≡ edge_out f a b))
        (close_loop name last f)
unfolding close_loop edge_out out_of
close_loop-outs name last f = elim (Bool-cases (has_key name f.service_nodes)) [
  | inr missing ↦ rw missing tt
  | inl there ↦ rw there (
    refl,
    λ a b.
        ground
          (arith, lookup-adjust a name (λ n. record n { incomes = last ∷ [] }) f.service_nodes),
  )
]

lifted : (e : FlowError) (o : Option Str) (f : Flow) → Returns (λ _ g. g ≡ f) (lift_option e o f)
lifted e none f = tt
lifted e (some s) f = refl

-- Where `_build_graph` returns, every edge that the services send along has a label in
-- `_service_edges`.
build_graph-decides :
    (f : Flow)
    → Returns
        (λ _ g.
          (a b : Str)
          → edge_out f a b ≡ true
          → is_typed (lookup (edge_name a b) g.service_edges) ≡ true)
        (build_graph f)
unfolding build_graph collect_edges edge_out
build_graph-decides f =
    let f0 : Flow = record f { service_edges = [] } in
    Returns-then _ _ (lift_option incomplete (truthy_name f.frontend_name) f0) _
      (lifted incomplete (truthy_name f.frontend_name) f0)
      λ front f1 e1.
        Returns-then _ _ (lift_option topology (loop_end f1) f1) _
          (lifted topology (loop_end f1) f1)
          λ last f2 e2.
            Returns-then _ _ (close_loop front last f2) _ (close_loop-outs front last f2)
              λ _ f3 (edges, outs).
                Returns-then _ _ (connect_all (collect_edges f3)) _
                  (connect_all-decides (collect_edges f3))
                  λ _ g decided a b h. decided (edge_name a b) (
                    all_edges-member a b f3.service_nodes f3.service_edges
                      (outs a b ∙ ap (λ x. edge_out x a b) (e2 ∙ e1) ∙ h))
