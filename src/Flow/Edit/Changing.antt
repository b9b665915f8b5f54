-- ===== src/Flow/Edit/Changing.antt =====
-- gnes/flow/__init__.py: `remove`, `set` and `__init__`.
use gnes.Prelude.{
  Bool, true, false, none, List, [], ◌∷◌, Str, Dict, str_eq, lookup, has_key, erase, adjust,
  map_values, discard, union, if◌then◌else◌, Result, ok, err, ◌>>=◌, ◌>>◌, pure, modify,
  lift_option, for_each,
}
use gnes.Flow.Data.{
  frontend, encoder, router, indexer, preprocessor, service_eq, Kwargs, Node, Flow, FlowError,
  missing_node, Method, empty,
}
use gnes.Flow.Args.{Parser, Parsed, get_parsed_args, update}
use gnes.Flow.Endpoints.{Endpoint, nothing, is_given, parse_endpoints, set_last_service}
use gnes.Flow.Edit.Adding.{link_out, link_in, reset_build_level, add, member}

unfoldable pub forget_out : Str → Node → Node
forget_out name n = record n { outgoings = discard name n.outgoings }

unfoldable pub forget_in : Str → Node → Node
forget_in name n = record n { incomes = discard name n.incomes }

-- `_last_changed_service` after a removal that leaves these services.
unfoldable pub last_without : Str → Dict Str Node → List Str → List Str
last_without name [] last = []
last_without name (_ ∷ _) last = discard name last

-- `remove(name, copy_flow=False)`
unfoldable pub remove : Str → Method Unit
unfolding forget_out forget_in last_without
remove name f =
    let rest = map_values (λ n. forget_in name (forget_out name n)) (erase name f.service_nodes) in
    if has_key name f.service_nodes
    then (
      ok tt,
      record f {
        service_nodes = rest;
        last_changed_service = last_without name rest f.last_changed_service;
        build_level = empty;
      },
    )
    else (err missing_node, f)

unfoldable pub new_incomes : Bool → List Str → Node → Node
new_incomes clear names n = record n { incomes = if clear then names else union n.incomes names }

unfoldable pub new_outgoings : Bool → List Str → Node → Node
new_outgoings clear names n = record n {
  outgoings = if clear then names else union n.outgoings names;
}

-- With `clear_old_attr` the edges that point to the service go, and its incomes are replaced;
-- without, the incomes are added to.
unfoldable pub change_incomes : Bool → Str → List Str → Flow → Flow
change_incomes clear name names f = record f {
  service_nodes =
      adjust name (new_incomes clear names)
        (if clear then map_values (forget_out name) f.service_nodes else f.service_nodes);
}

unfoldable pub change_outgoings : Bool → Str → List Str → Flow → Flow
change_outgoings clear name names f = record f {
  service_nodes =
      adjust name (new_outgoings clear names)
        (if clear then map_values (forget_in name) f.service_nodes else f.service_nodes);
}

-- `if recv_from:` of `set`, at a service that exists.
unfoldable pub set_recv_from : Bool → Str → Endpoint → Method Unit
unfolding is_given parse_endpoints change_incomes new_incomes forget_out link_out
set_recv_from clear name recv_from f =
    if is_given recv_from
    then (do
      incomes ← parse_endpoints name recv_from true
      modify (change_incomes clear name incomes)
      for_each (link_out name) incomes)
        f
    else (ok tt, f)

-- `if send_to:` of `set`, at a service that exists.
unfoldable pub set_send_to : Bool → Str → Endpoint → Method Unit
unfolding is_given parse_endpoints change_outgoings new_outgoings forget_in link_in
set_send_to clear name send_to f =
    if is_given send_to
    then (do
      outgoings ← parse_endpoints name send_to false
      modify (change_outgoings clear name outgoings)
      for_each (link_in name) outgoings)
        f
    else (ok tt, f)

unfoldable pub with_kwargs : Kwargs → Node → Node
with_kwargs kwargs n = record n { kwargs = kwargs }

unfoldable pub with_parsed : Parsed → Node → Node
with_parsed parsed n = record n {
  args = parsed.args;
  parsed_args = parsed.p_args;
  kwargs = parsed.kwargs;
  unk_args = parsed.unk_args;
}

-- The keyword arguments are updated in the node before they are parsed, unless they replace it.
unfoldable pub merge_kwargs : Bool → Str → Kwargs → Flow → Flow
unfolding with_kwargs update
merge_kwargs true name given f = f
merge_kwargs false name given f = record f {
  service_nodes = adjust name (with_kwargs (update given f.common_kwargs)) f.service_nodes;
}

unfoldable pub store_parsed : Str → Parsed → Flow → Flow
unfolding with_parsed
store_parsed name parsed f = record f {
  service_nodes = adjust name (with_parsed parsed) f.service_nodes;
}

-- `if kwargs:` of `set`.
unfoldable pub set_kwargs : Parser → Bool → Str → Node → Kwargs → Method Unit
unfolding get_parsed_args update merge_kwargs store_parsed
set_kwargs parser clear name node [] f = (ok tt, f)
set_kwargs parser clear name node (kw ∷ kwargs) f =
    let given = if clear then kw ∷ kwargs else update node.kwargs (kw ∷ kwargs) in
    (do
      modify (merge_kwargs clear name given)
      parsed ← get_parsed_args parser node.service given
      modify (store_parsed name parsed))
      f

-- `set(name, recv_from, send_to, copy_flow=False, clear_old_attr, as_last_service, **kwargs)`
unfoldable pub set : Parser → Str → Endpoint → Endpoint → Bool → Bool → Kwargs → Method Unit
unfolding set_recv_from set_send_to set_kwargs set_last_service reset_build_level
set parser name recv_from send_to clear as_last kwargs = do
  node ← λ f. lift_option missing_node (lookup name f.service_nodes) f
  set_recv_from clear name recv_from
  set_send_to clear name send_to
  set_kwargs parser clear name node kwargs
  (if as_last then set_last_service name else pure tt)
  modify reset_build_level

-- A flow before its first service, with `kwargs` as the common arguments.
unfoldable pub blank : Bool → Kwargs → Flow
blank is_trained kwargs = record {
  service_nodes = [];
  service_edges = [];
  service_name_counter =
      (encoder, 0) ∷ (router, 0) ∷ (indexer, 0) ∷ (frontend, 0) ∷ (preprocessor, 0) ∷ [];
  service_contexts = [];
  last_changed_service = [];
  common_kwargs = kwargs;
  frontend_name = none;
  build_level = empty;
  init_with_frontend = false;
  is_trained = is_trained;
}

-- `__init__(with_frontend, is_trained, **kwargs)`
unfoldable pub new_flow : Parser → Bool → Bool → Kwargs → Result {0, 0} FlowError Unit × Flow
unfolding add blank
new_flow parser with_frontend is_trained kwargs =
    if with_frontend
    then (do
      add parser (member frontend) none nothing nothing []
      modify (λ f. record f { init_with_frontend = true }))
        (blank is_trained kwargs)
    else (ok tt, blank is_trained kwargs)
