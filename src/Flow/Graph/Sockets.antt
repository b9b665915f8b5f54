-- ===== src/Flow/Graph/Sockets.antt =====
-- gnes/flow/__init__.py: the choice of the sockets of an edge in `_build_graph`.
use gnes.Prelude.{
  ℕ, Bool, false, ◌&&◌, none, some, List, Str, ◌==◌, str_eq, nat_eq, keys, lookup, insert, adjust,
  ltb, if◌then◌else◌, ok, err, ◌>>=◌, ◌>>◌, raise, modify, lift_option, for_each,
}
use gnes.Service.Socket.{
  pull_bind, pull_connect, push_bind, push_connect, sub_connect, pub_bind, is_bind, paired,
}
use gnes.Flow.Data.{
  ParsedArgs, Flow, topology, key_error, value_error, Method, EdgeType, pub_sub, push_pull_bind,
  push_bind_pull,
}
use gnes.Flow.Graph.Edges.{default_host, split_edge, count_start, count_end}

unfoldable pub set_edge : Str → EdgeType → Flow → Flow
set_edge k t f = record f { service_edges = insert k t f.service_edges }

-- A change of the parsed arguments of a service. A service that starts and ends the same edge has
-- one object of arguments, so the changes are made one after the other.
unfoldable pub change_args : Str → (ParsedArgs → ParsedArgs) → Flow → Flow
change_args name c f = record f {
  service_nodes = adjust name (λ n. record n { parsed_args = c n.parsed_args }) f.service_nodes;
}

unfoldable pub args_of : Str → Method ParsedArgs
args_of name f = elim (lookup name f.service_nodes) [
  | none ↦ (err key_error, f)
  | some n ↦ (ok n.parsed_args, f)
]

-- The ends of an edge when the start binds: the end connects to the start's port.
unfoldable pub start_binds : Str → Str → Str → EdgeType → Method Unit
unfolding change_args args_of set_edge
start_binds k start end_node t = do
  modify (change_args start (λ a. record a { host_out = default_host }))
  modify (change_args end_node (λ a. record a { host_in = start }))
  s ← args_of start
  modify (change_args end_node (λ a. record a { port_in = s.port_out }))
  modify (set_edge k t)

-- The ends of an edge when the end binds: the start connects to the end's port.
unfoldable pub end_binds : Str → Str → Str → Method Unit
unfolding change_args args_of set_edge
end_binds k start end_node = do
  modify (change_args start (λ a. record a { host_out = end_node }))
  modify (change_args end_node (λ a. record a { host_in = default_host }))
  e ← args_of end_node
  modify (change_args start (λ a. record a { port_out = e.port_in }))
  modify (set_edge k push_pull_bind)

unfoldable pub is_frontend : Str → Flow → Bool
is_frontend name f = elim f.frontend_name [ none ↦ false | some s ↦ name == s ]

-- An edge that is alone at both ends.
unfoldable pub single_sockets : Str → Str → Method Unit
unfolding change_args args_of is_frontend
single_sockets start end_node f =
    if is_frontend start f
    then (
      ok tt,
      change_args end_node (λ a. record a { socket_in = pull_connect })
          (change_args start (λ a. record a { socket_out = push_bind }) f),
    )
    else if is_frontend end_node f
    then (
      ok tt,
      change_args end_node (λ a. record a { socket_in = pull_bind })
          (change_args start (λ a. record a { socket_out = push_connect }) f),
    )
    else (do
      s ← args_of start
      modify (change_args end_node (λ a. record a { socket_in = paired s.socket_out })))
        f

unfoldable pub single_edge : Str → Str → Str → Method Unit
unfolding single_sockets start_binds end_binds
single_edge k start end_node = do
  single_sockets start end_node
  s ← args_of start
  e ← args_of end_node
  (if is_bind s.socket_out
      then start_binds k start end_node push_bind_pull
      else if is_bind e.socket_in
      then end_binds k start end_node
      else raise topology)

-- An edge of a start with several.
unfoldable pub fan_out : Str → Str → Str → Method Unit
unfolding start_binds change_args
fan_out k start end_node = do
  modify (change_args start (λ a. record a { socket_out = pub_bind }))
  modify (change_args end_node (λ a. record a { socket_in = sub_connect }))
  start_binds k start end_node pub_sub

-- An edge of an end with several.
unfoldable pub fan_in : Str → Str → Str → Method Unit
unfolding end_binds change_args
fan_in k start end_node = do
  modify (change_args start (λ a. record a { socket_out = push_connect }))
  modify (change_args end_node (λ a. record a { socket_in = pull_bind }))
  end_binds k start end_node

-- The choice by the numbers of edges with the same start and with the same end.
unfoldable pub by_counts : ℕ → ℕ → Str → Str → Str → Method Unit
unfolding fan_out fan_in single_edge nat_eq
by_counts starts ends k start end_node =
    if ltb 1 starts && ends == 1
    then fan_out k start end_node
    else if ltb 1 ends && starts == 1
    then fan_in k start end_node
    else if starts == 1 && ends == 1
    then single_edge k start end_node
    else raise topology

-- The body of the loop over the edges. Their names do not change in it.
unfoldable pub connect_edge : List Str → Str → Method Unit
unfolding split_edge args_of by_counts count_start count_end
connect_edge all k = do
  (start, end_node) ← lift_option value_error (split_edge k)
  s ← args_of start
  e ← args_of end_node
  by_counts (count_start start all) (count_end end_node all) k start end_node

unfoldable pub connect_all : Method Unit
unfolding connect_edge
connect_all f = for_each (connect_edge (keys f.service_edges)) (keys f.service_edges) f
