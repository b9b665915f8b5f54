-- ===== src/Flow/Graph/Backends.antt =====
-- gnes/flow/__init__.py: `_build_graph` as a whole, `build`, `__enter__`, `close` and `__eq__`.
use gnes.Prelude.{
  true, Option, none, some, List, [], ◌∷◌, Str, codes, str_eq, nat_eq, Dict, has_key, adjust, ltb,
  if◌then◌else◌, Result, ok, err, ◌>>=◌, ◌>>◌, raise, pure, modify, lift_option,
}
use gnes.Flow.Data.{
  Service, ParsedArgs, Node, Flow, FlowError, topology, incomplete, key_error, not_implemented,
  Method, empty, graph, runtime, level_value,
}
use gnes.Flow.Endpoints.{last_changed, with_copy}
use gnes.Flow.Graph.Edges.{default_host, all_edges}
use gnes.Flow.Graph.Sockets.{connect_all}

-- `close the loop`: the frontend receives from the service changed last.
unfoldable pub close_loop : Str → Str → Method Unit
close_loop name last f =
    if has_key name f.service_nodes
    then (
      ok tt,
      record f {
        service_nodes = adjust name (λ n. record n { incomes = last ∷ [] }) f.service_nodes;
      },
    )
    else (err key_error, f)

unfoldable pub collect_edges : Flow → Flow
unfolding all_edges
collect_edges f = record f { service_edges = all_edges f.service_nodes f.service_edges }

unfoldable pub truthy_name : Option Str → Option Str
truthy_name none = none
truthy_name (some []) = none
truthy_name (some (c ∷ s)) = some (c ∷ s)

unfoldable pub loop_end : Flow → Option Str
unfolding last_changed
loop_end f = elim f.service_nodes [ [] ↦ none | _ ∷ _ ↦ last_changed f ]

-- `_build_graph(copy_flow=False)`
unfoldable pub build_graph : Method Unit
unfolding truthy_name loop_end close_loop collect_edges connect_all
build_graph = do
  modify (λ f. record f { service_edges = [] })
  front ← λ f. lift_option incomplete (truthy_name f.frontend_name) f
  last ← λ f. lift_option topology (loop_end f) f
  close_loop front last
  modify collect_edges
  connect_all
  modify (λ f. record f { build_level = graph })

-- The `backend` of `build`: none, one that runs locally, or another by name.
pub data Backend : Type 0 where
  nothing thread process : Backend
  named : Str → Backend

unfoldable pub backend_name : Backend → Str
backend_name nothing = []
backend_name thread = codes "thread"
backend_name process = codes "process"
backend_name (named s) = s

unfoldable pub local_args : Backend → ParsedArgs → ParsedArgs
unfolding backend_name
local_args backend a = record a {
  parallel_backend = backend_name backend;
  host_in = default_host;
  host_out = default_host;
}

-- The loop over the services of a local backend: their arguments are changed in place, and each
-- is put beside the builder of its service.
unfoldable pub local_nodes : Backend → Dict Str Node → Dict Str Node
unfolding local_args
local_nodes backend [] = []
local_nodes backend ((k, v) ∷ nodes) =
    (k, record v { parsed_args = local_args backend v.parsed_args }) ∷ local_nodes backend nodes

unfoldable pub contexts_of : Dict Str Node → List (Service × ParsedArgs)
contexts_of [] = []
contexts_of ((k, v) ∷ nodes) = (v.service, v.parsed_args) ∷ contexts_of nodes

unfoldable pub run_locally : Backend → Flow → Flow
unfolding local_nodes contexts_of
run_locally backend f = record f {
  service_nodes = local_nodes backend f.service_nodes;
  service_contexts = contexts_of (local_nodes backend f.service_nodes);
  build_level = runtime;
}

unfoldable pub choose_backend : Backend → Method Unit
unfolding run_locally
choose_backend nothing = pure tt
choose_backend thread = modify (run_locally thread)
choose_backend process = modify (run_locally process)
choose_backend (named _) = raise not_implemented

-- `build(backend, copy_flow=False)`
unfoldable pub build : Backend → Method Unit
unfolding build_graph choose_backend
build backend = build_graph >> choose_backend backend

-- `__enter__`, up to the start of the services of `_service_contexts`.
unfoldable pub enter : Method Unit
unfolding build
enter f =
    if ltb (level_value f.build_level) (level_value runtime) then build process f else (ok tt, f)

-- `close`, once the services have stopped.
unfoldable pub close : Flow → Flow
close f = record f { build_level = empty }

-- The flow that `__eq__` compares: a built copy, where the flow is not built yet.
unfoldable pub built_copy : Flow → Result FlowError Flow
unfolding with_copy build
built_copy f =
    if ltb (level_value f.build_level) (level_value graph)
    then (with_copy true (build nothing) f).0
    else ok f
