-- ===== src/Composer/Build.antt =====
-- gnes/composer/base.py: the layers of a YAML file, and `build_layers`.
use gnes.Prelude.{
  ℕ, ◌+◌, Bool, true, false, ◌&&◌, none, some, List, [], ◌∷◌, ◌++◌, map, codes, str_eq, ◌==◌,
  if◌then◌else◌, Result, ok, err,
}
use gnes.Service.Socket.{
  SocketType, SocketType-discrete, pull_bind, pull_connect, push_bind, push_connect, sub_bind,
  sub_connect, pub_connect,
}
use gnes.Composer.Layers.{
  Entry, Component, Layer, ComposerError, bad_frontend, check_fields, is_single_component,
}
use gnes.Composer.Rules.{
  Wiring, set_first, set_socket_in, set_socket_out, set_port_out, get_random_port,
}
use gnes.Composer.Wiring.{set_port_in, add_router}

-- An item of `services`: one component, or a list of them.
pub data ServiceItem : Type 0 where
  one : Entry → ServiceItem
  many : List Entry → ServiceItem

unfoldable pub entries_of : ServiceItem → List Entry
entries_of (one e) = e ∷ []
entries_of (many es) = es

unfoldable pub add_comp :
    Component
    → Result {0, 0} ComposerError (List Component)
    → Result {0, 0} ComposerError (List Component)
add_comp c (ok cs) = ok (c ∷ cs)
add_comp c (err e) = err e

-- `check_fields` on each entry; the first that fails raises.
unfoldable pub check_each : List Entry → Result {0, 0} ComposerError (List Component)
unfolding check_fields add_comp
check_each [] = ok []
check_each (e ∷ es) =
    let rest = check_each es in
    elim (check_fields e) [ ok c ↦ add_comp c rest | err error ↦ err error ]

unfoldable pub add_layer :
    ℕ
    → List Component
    → Result {0, 0} ComposerError (List Layer)
    → Result {0, 0} ComposerError (List Layer)
add_layer n cs (ok ls) = ok (record { layer_id = n; components = cs } ∷ ls)
add_layer n cs (err e) = err e

-- The loop of `__init__` over the services, the layer ids from `n` on.
unfoldable pub load_services : ℕ → List ServiceItem → Result {0, 0} ComposerError (List Layer)
unfolding entries_of check_each add_layer
load_services n [] = ok []
load_services n (s ∷ ss) =
    let rest = load_services (n + 1) ss in
    elim (check_each (entries_of s)) [ ok cs ↦ add_layer n cs rest | err e ↦ err e ]

-- The layer of the frontend, which `__init__` adds first.
unfoldable pub frontend_layer : Layer
frontend_layer = record {
  layer_id = 0;
  components =
      record {
        name = codes "Frontend";
        yaml_path = none;
        py_path = none;
        image = none;
        replicas = 1;
        income = codes "pull";
        socket_in = none;
        socket_out = none;
        port_in = none;
        port_out = none;
      }
      ∷ [];
}

unfoldable pub start_wiring : Layer → Layer → ℕ → ℕ → Wiring
start_wiring last layer n k = record {
  last_layer = last;
  layer = layer;
  router_layers = [];
  num_layer = n;
  drawn = k;
}

-- `all_layers[0] = ...`
unfoldable pub set_head : Layer → List Layer → List Layer
set_head l [] = []
set_head l (_ ∷ ls) = l ∷ ls

-- `socket_out` of the components of the last layer.
unfoldable pub set_last_out : SocketType → List Layer → List Layer
unfolding set_socket_out
set_last_out k [] = []
set_last_out k (l ∷ []) = record l { components = map (set_socket_out k) l.components } ∷ []
set_last_out k (l ∷ m ∷ ls) = l ∷ set_last_out k (m ∷ ls)

-- `socket_in` of the first component of the first layer.
unfoldable pub set_head_in : SocketType → List Layer → List Layer
unfolding set_first set_socket_in
set_head_in k [] = []
set_head_in k (l ∷ ls) = record l { components = set_first (set_socket_in k) l.components } ∷ ls

unfoldable pub has_socket_in : SocketType → Component → Bool
unfolding SocketType-discrete
has_socket_in k c = elim c.socket_in [
  | none ↦ false
  | some k' ↦ elim (SocketType-discrete k' k) [ yes _ ↦ true | no _ ↦ false ]
]

unfoldable pub head_has_in : SocketType → List Layer → Bool
unfolding has_socket_in
head_has_in k [] = false
head_has_in k (l ∷ _) = elim l.components [ [] ↦ false | c ∷ _ ↦ has_socket_in k c ]

-- The frontend turns to the bind role: the writes at the end of `build_layers`.
unfoldable pub bind_frontend : SocketType → SocketType → SocketType → List Layer → List Layer
unfolding head_has_in set_last_out set_head_in
bind_frontend k_from k_to k_out ls =
    if head_has_in k_from ls then set_last_out k_out (set_head_in k_to ls) else ls

-- The assertions: the first layer is a frontend alone.
unfoldable pub is_frontend_alone : List Layer → Bool
unfolding is_single_component str_eq
is_frontend_alone [] = false
is_frontend_alone (l ∷ ls) =
    is_single_component l && elim l.components [ [] ↦ false | c ∷ _ ↦ c.name == codes "Frontend" ]

unfoldable pub bind_role : List Layer → Result {0, 0} ComposerError (List Layer)
unfolding bind_frontend is_frontend_alone
bind_role ls =
    if is_frontend_alone ls
    then ok (
        bind_frontend pull_connect pull_bind push_connect
          (bind_frontend sub_connect sub_bind pub_connect ls))
    else err bad_frontend

module _ (random : ℕ → ℕ) where
  -- The loop of `build_layers` from the layer `last` on, the frontend once more at the end.
  unfoldable pub wire_rest :
      List Layer → Layer → Layer → List Layer → ℕ → ℕ → Result {0, 0} ComposerError (List Layer)
  unfolding add_router start_wiring set_head bind_role
  wire_rest done front last [] n k = elim (add_router random (start_wiring last front n k)) [
    | ok w ↦ bind_role (set_head w.layer (done ++ w.last_layer ∷ w.router_layers))
    | err e ↦ err e
  ]
  wire_rest done front last (l ∷ ls) n k = elim (add_router random (start_wiring last l n k)) [
    | ok w ↦ wire_rest (done ++ w.last_layer ∷ w.router_layers) front w.layer ls w.num_layer w.drawn
    | err e ↦ err e
  ]

  -- A frontend without services is both layers at once, and rule 1 writes to it twice.
  unfoldable pub wire_alone : Layer → ℕ → List Layer
  unfolding set_first set_port_out set_port_in set_socket_out set_socket_in get_random_port
  wire_alone front k =
      let port = get_random_port random k in
      record front {
        components =
            set_first
              (λ c.
                set_socket_in pull_connect
                  (set_socket_out push_bind (set_port_in port (set_port_out port c))))
              front.components;
      }
      ∷ []

  -- `build_layers` of a frontend and the layers of the services.
  unfoldable pub build_layers : Layer → List Layer → ℕ → Result {0, 0} ComposerError (List Layer)
  unfolding wire_rest wire_alone add_router start_wiring bind_role
  build_layers front [] n = bind_role (wire_alone front 0)
  build_layers front (l ∷ ls) n = elim (add_router random (start_wiring front l n 0)) [
    | ok w ↦ wire_rest (w.last_layer ∷ w.router_layers) w.last_layer w.layer ls w.num_layer w.drawn
    | err e ↦ err e
  ]
