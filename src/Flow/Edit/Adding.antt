-- ===== src/Flow/Edit/Adding.antt =====
-- gnes/flow/__init__.py: `add`, from the choice of the name to the edges of the new service.
use gnes.Prelude.{
  ℕ, ◌+◌, Bool, true, false, ◌&&◌, ◌||◌, Option, none, some, [], ◌∷◌, ◌++◌, Str, codes, ◌==◌,
  str_eq, lookup, has_key, insert, adjust, add_to, show_nat, leb, if◌then◌else◌, not, ok, err,
  ◌>>=◌, ◌>>◌, gets, pure, guard, modify, lift_option, for_each,
}
use gnes.Flow.Data.{
  Service, frontend, encoder, router, indexer, preprocessor, service_name, service_eq, Kwargs, Node,
  Flow, topology, value_error, key_error, Method, empty,
}
use gnes.Flow.Args.{Parser, get_parsed_args}
use gnes.Flow.Endpoints.{Endpoint, parse_endpoints, set_last_service}

-- `name.isidentifier()`, for names in ASCII.
unfoldable pub is_id_start : ℕ → Bool
is_id_start c = leb b'a' c && leb c b'z' || leb b'A' c && leb c b'Z' || leb b'_' c && leb c b'_'

unfoldable pub is_id_part : ℕ → Bool
unfolding is_id_start
is_id_part c = is_id_start c || leb b'0' c && leb c b'9'

unfoldable pub all_id_part : Str → Bool
unfolding is_id_part
all_id_part [] = true
all_id_part (c ∷ s) = is_id_part c && all_id_part s

unfoldable pub is_identifier : Str → Bool
unfolding is_id_start all_id_part
is_identifier [] = false
is_identifier (c ∷ s) = is_id_start c && all_id_part s

-- `op_flow._service_nodes[s]['outgoings'].add(name)`
unfoldable pub link_out : Str → Str → Method Unit
link_out name s f =
    if has_key s f.service_nodes
    then (
      ok tt,
      record f {
        service_nodes =
            adjust s (λ n. record n { outgoings = add_to name n.outgoings }) f.service_nodes;
      },
    )
    else (err key_error, f)

-- `op_flow._service_nodes[s]['incomes'].add(name)`
unfoldable pub link_in : Str → Str → Method Unit
link_in name s f =
    if has_key s f.service_nodes
    then (
      ok tt,
      record f {
        service_nodes =
            adjust s (λ n. record n { incomes = add_to name n.incomes }) f.service_nodes;
      },
    )
    else (err key_error, f)

unfoldable pub reset_build_level : Flow → Flow
reset_build_level f = record f { build_level = empty }

-- A service as a member of the enumeration or by its name.
pub data ServiceArg : Type 0 where
  member : Service → ServiceArg
  by_name : Str → ServiceArg

-- `Service.from_string`
unfoldable pub from_string : Str → Option Service
unfolding service_name
from_string s =
    if s == codes "Frontend"
    then some frontend
    else if s == codes "Encoder"
    then some encoder
    else if s == codes "Router"
    then some router
    else if s == codes "Indexer"
    then some indexer
    else if s == codes "Preprocessor"
    then some preprocessor
    else none

unfoldable pub service_of : ServiceArg → Option Service
unfolding from_string
service_of (member s) = some s
service_of (by_name s) = from_string s

-- `if name in op_flow._service_nodes`, where the name may be `None`.
unfoldable pub is_used : Option Str → Flow → Bool
is_used none f = false
is_used (some name) f = has_key name f.service_nodes

unfoldable pub get_or_zero : Option ℕ → ℕ
get_or_zero none = 0
get_or_zero (some n) = n

-- The name of a new service: the one given, or the next of its kind.
unfoldable pub auto_name : Service → Flow → Str
unfolding service_name show_nat get_or_zero
auto_name service f =
    service_name service ++ show_nat (get_or_zero (lookup service f.service_name_counter))

unfoldable pub choose_auto : Service → Method Str
unfolding auto_name
choose_auto service f = (
  ok (auto_name service f),
  record f {
    service_name_counter =
        insert service (get_or_zero (lookup service f.service_name_counter) + 1)
          f.service_name_counter;
  },
)

unfoldable pub choose_name : Service → Option Str → Method Str
unfolding choose_auto
choose_name service none = choose_auto service
choose_name service (some []) = choose_auto service
choose_name service (some (c ∷ s)) = pure (c ∷ s)

unfoldable pub is_some : Option Str → Bool
is_some none = false
is_some (some []) = false
is_some (some (_ ∷ _)) = true

-- `if service == Service.Frontend: ...`
unfoldable pub claim_frontend : Service → Str → Method Unit
unfolding is_some
claim_frontend frontend name f =
    if is_some f.frontend_name
    then (err topology, f)
    else (ok tt, record f { frontend_name = some name })
claim_frontend encoder name f = (ok tt, f)
claim_frontend router name f = (ok tt, f)
claim_frontend indexer name f = (ok tt, f)
claim_frontend preprocessor name f = (ok tt, f)

unfoldable pub put_node : Str → Node → Method Unit
put_node name node f = (ok tt, record f { service_nodes = insert name node f.service_nodes })

-- The part of `add` behind the choice of the name.
unfoldable pub add_named : Parser → Service → Str → Endpoint → Endpoint → Kwargs → Method Unit
unfolding claim_frontend parse_endpoints get_parsed_args put_node link_out link_in
add_named parser service name recv_from send_to kwargs = do
  claim_frontend service name
  incomes ← parse_endpoints name recv_from true
  outgoings ← parse_endpoints name send_to false
  parsed ← get_parsed_args parser service kwargs
  put_node name (record {
    service = service;
    parsed_args = parsed.p_args;
    args = parsed.args;
    incomes = incomes;
    outgoings = outgoings;
    kwargs = parsed.kwargs;
    unk_args = parsed.unk_args;
  })
  for_each (link_out name) incomes
  for_each (link_in name) outgoings
  set_last_service name
  modify reset_build_level

-- `add(service, name, recv_from, send_to, copy_flow=False, **kwargs)`
unfoldable pub add : Parser → ServiceArg → Option Str → Endpoint → Endpoint → Kwargs → Method Unit
unfolding service_of is_used choose_name is_identifier add_named reset_build_level
add parser arg name recv_from send_to kwargs = do
  service ← lift_option value_error (service_of arg)
  used ← gets (is_used name)
  guard (not used) topology
  chosen ← choose_name service name
  guard (is_identifier chosen) value_error
  add_named parser service chosen recv_from send_to kwargs
