-- ===== src/Flow/Endpoints.antt =====
-- gnes/flow/__init__.py: `_parse_service_endpoints`, `set_last_service` and `deepcopy`.
use gnes.Prelude.{
  Bool, true, false, Option, none, some, List, [], ◌∷◌, ◌++◌, Str, ◌==◌, str_eq, has_key, to_set,
  if◌then◌else◌, Result, ok, err,
}
use gnes.Flow.Data.{Flow, FlowError, topology, missing_node, value_error, Method, empty}

-- What a caller passes as `recv_from` or `send_to`: nothing, a name, `Service.Frontend`, several
-- names, or a value of another type.
pub data Endpoint : Type 0 where
  nothing : Endpoint
  one : Str → Endpoint
  frontend : Endpoint
  many : List Str → Endpoint
  other : Endpoint

-- `if recv_from:`
unfoldable pub is_given : Endpoint → Bool
is_given nothing = false
is_given (one []) = false
is_given (one (_ ∷ _)) = true
is_given frontend = true
is_given (many []) = false
is_given (many (_ ∷ _)) = true
is_given other = true

abbrev pub last_of : List Str → Option Str
last_of [] = none
last_of (s ∷ []) = some s
last_of (s ∷ t ∷ l) = last_of (t ∷ l)

-- `_last_changed_service[-1]`, where there is one.
unfoldable pub last_changed : Flow → Option Str
last_changed f = last_of f.last_changed_service

-- The endpoints of `not service_endpoint`: the last service or none.
unfoldable pub default_endpoints : Bool → Option Str → List (Option Str)
default_endpoints true (some s) = some s ∷ []
default_endpoints _ _ = []

unfoldable pub some_each : List Str → List (Option Str)
some_each [] = []
some_each (s ∷ names) = some s ∷ some_each names

-- The list of names that an endpoint stands for, `None` being the frontend of a flow without one.
unfoldable pub resolve : Bool → Endpoint → Flow → Result FlowError (List (Option Str))
unfolding default_endpoints some_each last_changed
resolve connect nothing f = ok (default_endpoints connect (last_changed f))
resolve connect (one s) f = ok (some s ∷ [])
resolve connect frontend f = ok (f.frontend_name ∷ [])
resolve connect (many []) f = ok (default_endpoints connect (last_changed f))
resolve connect (many (s ∷ names)) f = ok (some s ∷ some_each names)
resolve connect other f = err value_error

abbrev pub with_first : Str → Result FlowError (List Str) → Result FlowError (List Str)
with_first s (ok l) = ok (s ∷ l)
with_first s (err e) = err e

-- The loop over the names, `check_name_exist` being true at every call.
unfoldable pub check_endpoints : Str → List (Option Str) → Flow → Result FlowError (List Str)
check_endpoints cur [] f = ok []
check_endpoints cur (none ∷ names) f = err missing_node
check_endpoints cur (some s ∷ names) f =
    let rest = check_endpoints cur names f in
    if s == cur
    then err topology
    else if has_key s f.service_nodes
    then with_first s rest
    else err missing_node

unfoldable pub to_endpoint_set : Result FlowError (List Str) → Result FlowError (List Str)
to_endpoint_set (ok l) = ok (to_set l)
to_endpoint_set (err e) = err e

unfoldable pub check_resolved :
    Str → Result FlowError (List (Option Str)) → Flow → Result FlowError (List Str)
unfolding check_endpoints to_endpoint_set to_set
check_resolved cur (ok names) f = to_endpoint_set (check_endpoints cur names f)
check_resolved cur (err e) f = err e

-- `_parse_service_endpoints(op_flow, cur_service_name, service_endpoint, connect_to_last_service)`
unfoldable pub parse_endpoints : Str → Endpoint → Bool → Method (List Str)
unfolding resolve check_resolved
parse_endpoints cur endpoint connect f = (check_resolved cur (resolve connect endpoint f) f, f)

unfoldable pub is_last : Str → Option Str → Bool
is_last name none = false
is_last name (some s) = name == s

-- `set_last_service(name, copy_flow=False)`
unfoldable pub set_last_service : Str → Method Unit
unfolding last_changed is_last
set_last_service name f =
    if has_key name f.service_nodes
    then (
      ok tt,
      record f {
        last_changed_service =
            if is_last name (last_changed f)
            then f.last_changed_service
            else f.last_changed_service ++ name ∷ [];
        build_level = empty;
      },
    )
    else (err missing_node, f)

-- A method with the parameter `copy_flow`: the flow that it returns, or the exception, and `self`
-- afterwards. On a copy, `self` stays as it was.
unfoldable pub with_copy : Bool → Method Unit → Flow → Result FlowError Flow × Flow
with_copy copy method self =
    let (r, f) = method self in
    ((elim r [ ok _ ↦ ok f | err e ↦ err e ]), (if copy then self else f))
