-- ===== src/Flow/Building.antt =====
-- gnes/flow/__init__.py: `_build_graph` gives every edge a label in `_service_edges`, or it raises.
use gnes.Prelude.{
  ℕ, ◌≡◌, refl, ap, ◌∙◌, Bool, true, false, ◌&&◌, ◌||◌, Option, none, some, List, [], ◌∷◌, Str,
  str_eq, nat_eq, ◌==◌, Dict, lookup, keys, lookup-insert, contains, arith, Bool-cases,
  Option-cases, inl, inr, ltb, for_each, Returns, Returns-then, Returns-mono, Result, ok, err,
  has_key,
}
use gnes.Service.Socket.{pull_bind, push_connect, sub_connect, pub_bind, is_bind}
use gnes.Flow.Data.{
  Node, key_error, Flow, FlowError, ParsedArgs, EdgeType, unset, pub_sub, push_pull_bind,
  push_bind_pull,
}
use gnes.Flow.Graph.{
  default_host, set_edge, change_args, args_of, start_binds, end_binds, single_sockets, is_frontend,
  single_edge, fan_out, fan_in, by_counts, connect_edge, connect_all, split_edge, count_start,
  count_end,
}

-- An edge has a label of one of the three kinds of connection.
abbrev pub is_typed : Option EdgeType → Bool
is_typed none = false
is_typed (some unset) = false
is_typed (some pub_sub) = true
is_typed (some push_pull_bind) = true
is_typed (some push_bind_pull) = true

-- From `f` to `g` the edge `k` has been given a label.
abbrev pub Decides : Str → Flow → Flow → Type 0
Decides k f g =
    (j : Str)
    → is_typed (lookup j g.service_edges) ≡ (j == k || is_typed (lookup j f.service_edges))

args_of-frame : (name : Str) (f : Flow) → Returns (λ _ g. g ≡ f) (args_of name f)
unfolding args_of
args_of-frame name f = found (lookup name f.service_nodes)
  where
    found :
        (o : Option Node)
        → Returns
            (λ _ g. g ≡ f)
            (elim o as (λ _. Result {0, 0} FlowError ParsedArgs × Flow) [
              | none ↦ (err key_error, f)
              | some n ↦ (ok n.parsed_args, f)
            ])
    found none = tt
    found (some n) = refl

insert-Decides :
    (k : Str) (t : EdgeType) (f : Flow) → is_typed (some t) ≡ true → Decides k f (set_edge k t f)
unfolding set_edge
insert-Decides k t f h j = ground (arith, lookup-insert j k t f.service_edges)

start_binds-Decides :
    (k start end_node : Str) (t : EdgeType) (f : Flow)
    → is_typed (some t) ≡ true
    → Returns (λ _ g. Decides k f g) (start_binds k start end_node t f)
unfolding start_binds change_args set_edge
start_binds-Decides k start end_node t f h =
    let f2 : Flow =
      change_args end_node (λ a. record a { host_in = start })
        (change_args start (λ a. record a { host_out = default_host }) f) in
    Returns-then _ _ (args_of start f2) _ (args_of-frame start f2)
      λ s g e. rw e (insert-Decides k t f h)

end_binds-Decides :
    (k start end_node : Str) (f : Flow)
    → Returns (λ _ g. Decides k f g) (end_binds k start end_node f)
unfolding end_binds change_args set_edge
end_binds-Decides k start end_node f =
    let f2 : Flow =
      change_args end_node (λ a. record a { host_in = default_host })
        (change_args start (λ a. record a { host_out = end_node }) f) in
    Returns-then _ _ (args_of end_node f2) _ (args_of-frame end_node f2)
      λ s g e. rw e (insert-Decides k push_pull_bind f refl)

single_sockets-edges :
    (start end_node : Str) (f : Flow)
    → Returns (λ _ g. g.service_edges ≡ f.service_edges) (single_sockets start end_node f)
unfolding single_sockets change_args
single_sockets-edges start end_node f = elim (Bool-cases (is_frontend start f)) [
  | inl first ↦ rw first refl
  | inr no_first ↦ elim (Bool-cases (is_frontend end_node f)) [
    | inl last ↦ rw (no_first, last) refl
    | inr no_last ↦
        rw (no_first, no_last)
          (Returns-then _ _ (args_of start f) _ (args_of-frame start f)
            λ s g e. ap (λ x. x.service_edges) e)
  ]
]

module _ (k start end_node : Str) (f : Flow) where
  single_edge-Decides : Returns (λ _ g. Decides k f g) (single_edge k start end_node f)
  unfolding single_edge
  single_edge-Decides =
      Returns-then _ _ (single_sockets start end_node f) _ (single_sockets-edges start end_node f)
        λ _ f1 e. Returns-then _ _ (args_of start f1) _ (args_of-frame start f1) λ s f2 e2.
          Returns-then _ _ (args_of end_node f2) _ (args_of-frame end_node f2) λ t f3 e3.
            let same : f3.service_edges ≡ f.service_edges = cc in
            elim (Bool-cases (is_bind s.socket_out)) [
              | inl first ↦ rw first (
                  Returns-mono _ _ (start_binds k start end_node push_bind_pull f3)
                    (λ _ g d j. d j ∙ ap (λ l. j == k || is_typed (lookup j l)) same)
                    (start_binds-Decides k start end_node push_bind_pull f3 refl))
              | inr other ↦ rw other (elim (Bool-cases (is_bind t.socket_in)) [
                | inl last ↦ rw last (
                    Returns-mono _ _ (end_binds k start end_node f3)
                      (λ _ g d j. d j ∙ ap (λ l. j == k || is_typed (lookup j l)) same)
                      (end_binds-Decides k start end_node f3))
                | inr neither ↦ rw neither tt
              ])
            ]

  by_counts-Decides :
      (starts ends : ℕ) → Returns (λ _ g. Decides k f g) (by_counts starts ends k start end_node f)
  unfolding by_counts fan_out fan_in change_args
  by_counts-Decides starts ends = elim (Bool-cases (ltb 1 starts && ends == 1)) [
    | inl out ↦ rw out (
        start_binds-Decides k start end_node pub_sub
          (change_args end_node (λ a. record a { socket_in = sub_connect })
            (change_args start (λ a. record a { socket_out = pub_bind }) f))
          refl)
    | inr not_out ↦ rw not_out (elim (Bool-cases (ltb 1 ends && starts == 1)) [
      | inl into ↦ rw into (
          end_binds-Decides k start end_node (
            change_args end_node (λ a. record a { socket_in = pull_bind })
              (change_args start (λ a. record a { socket_out = push_connect }) f)))
      | inr not_into ↦ rw not_into (elim (Bool-cases (starts == 1 && ends == 1)) [
        | inl alone ↦ rw alone single_edge-Decides
        | inr no_rule ↦ rw no_rule tt
      ])
    ])
  ]

connect_edge-Decides :
    (all : List Str) (k : Str) (f : Flow) → Returns (λ _ g. Decides k f g) (connect_edge all k f)
unfolding connect_edge
connect_edge-Decides all k f = elim (Option-cases (split_edge k)) [
  | inl bad ↦ rw bad tt
  | inr ((start, end_node), split) ↦ rw split (
      Returns-then _ _ (args_of start f) _ (args_of-frame start f) λ s f1 e1.
        Returns-then _ _ (args_of end_node f1) _ (args_of-frame end_node f1) λ t f2 e2.
          rw (e2 ∙ e1)
            (by_counts-Decides k start end_node f (count_start start all) (count_end end_node all)))
]

connect_loop :
    (all l : List Str) (f : Flow)
    → Returns
        (λ _ g.
          (j : Str)
          → is_typed (lookup j g.service_edges)
            ≡ (contains l j || is_typed (lookup j f.service_edges)))
        (for_each (connect_edge all) l f)
connect_loop all [] f = λ j. refl
connect_loop all (k ∷ l) f =
    Returns-then _ _ (connect_edge all k f) _ (connect_edge-Decides all k f) λ _ f1 d.
      Returns-mono _ _ (for_each (connect_edge all) l f1) (λ _ g r j. ground (arith, r j, d j))
        (connect_loop all l f1)

contains-keys : (j : Str) (d : Dict Str EdgeType) → contains (keys d) j ≡ has_key j d
unfolding has_key
contains-keys j [] = refl
contains-keys j ((k, t) ∷ d) = ap (λ b. j == k || b) (contains-keys j d)

-- Where the loop over the edges returns, it has given every edge a label.
pub connect_all-decides :
    (f : Flow)
    → Returns
        (λ _ g.
          (j : Str) → has_key j f.service_edges ≡ true → is_typed (lookup j g.service_edges) ≡ true)
        (connect_all f)
unfolding connect_all
connect_all-decides f =
    Returns-mono _ _ (for_each (connect_edge (keys f.service_edges)) (keys f.service_edges) f)
      (λ _ g r j h. ground (arith, r j, contains-keys j f.service_edges))
      (connect_loop (keys f.service_edges) (keys f.service_edges) f)
