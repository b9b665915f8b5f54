-- ===== src/Composer/Rules.antt =====
-- gnes/composer/base.py: the rules of `_add_router`, each of which joins a layer to the next one.
use gnes.Prelude.{
  ℕ, ◌+◌, Bool, Option, none, some, List, [], ◌∷◌, ◌++◌, map, Str, codes, str_eq, ◌==◌, show_nat,
  length, if◌then◌else◌,
}
use gnes.Service.Socket.{
  SocketType, pull_bind, pull_connect, push_bind, push_connect, sub_connect, pub_bind,
}
use gnes.Composer.Layers.{Component, Layer}

-- What `_add_router` works on: the two layers, the routers made so far, the number of layers and
-- of the random ports drawn.
pub record Wiring : Type 0 where
  pub last_layer : Layer
  pub layer : Layer
  pub router_layers : List Layer
  pub num_layer : ℕ
  pub drawn : ℕ

-- `components[0][...] = ...`: on a layer of one component.
unfoldable pub set_first : (Component → Component) → List Component → List Component
set_first f [] = []
set_first f (c ∷ cs) = f c ∷ cs

-- `components[0]['port_out']`
unfoldable pub first_port_out : List Component → Option Str
first_port_out [] = none
first_port_out (c ∷ cs) = c.port_out

unfoldable pub set_socket_out : SocketType → Component → Component
set_socket_out k c = record c { socket_out = some k }

unfoldable pub set_socket_in : SocketType → Component → Component
set_socket_in k c = record c { socket_in = some k }

unfoldable pub set_port_out : Option Str → Component → Component
set_port_out p c = record c { port_out = p }

unfoldable pub listen : SocketType → Option Str → Component → Component
listen k p c = record c { socket_in = some k; port_in = p }

unfoldable pub send : SocketType → Option Str → Component → Component
send k p c = record c { socket_out = some k; port_out = p }

unfoldable pub on_last : (List Component → List Component) → Wiring → Wiring
on_last f w = record w {
  last_layer = record w.last_layer { components = f w.last_layer.components };
}

unfoldable pub on_layer : (List Component → List Component) → Wiring → Wiring
on_layer f w = record w { layer = record w.layer { components = f w.layer.components } }

-- `router_layers.append(router_layer)`, with the layer's id from `_num_layer`.
unfoldable pub add_routers : List Component → ℕ → Wiring → Wiring
add_routers rs draws w = record w {
  router_layers = w.router_layers ++ record { layer_id = w.num_layer; components = rs } ∷ [];
  num_layer = w.num_layer + 1;
  drawn = w.drawn + draws;
}

-- A router as the rules make it, `check_fields` included.
unfoldable pub router : Str → SocketType → SocketType → Option Str → Option Str → Component
router yaml k_in k_out p_in p_out = record {
  name = codes "Router";
  yaml_path = some yaml;
  py_path = none;
  image = none;
  replicas = 1;
  income = codes "pull";
  socket_in = some k_in;
  socket_out = some k_out;
  port_in = p_in;
  port_out = p_out;
}

-- The YAML of a publishing router for `n` parts.
unfoldable pub publish_yaml : ℕ → Str
unfolding show_nat
publish_yaml n = codes "\"!PublishRouter {parameters: {num_part: " ++ show_nat n ++ codes "}}\""

unfoldable pub is_pull : Component → Bool
unfolding str_eq
is_pull c = c.income == codes "pull"

unfoldable pub is_sub : Component → Bool
unfolding str_eq
is_sub c = c.income == codes "sub"

unfoldable pub rule1 : Wiring → Wiring
unfolding on_last on_layer set_first set_socket_out set_socket_in
rule1 w =
    on_layer (set_first (set_socket_in pull_connect))
      (on_last (set_first (set_socket_out push_bind)) w)

unfoldable pub rule2 : Wiring → Wiring
unfolding on_last on_layer set_first set_socket_out set_socket_in
rule2 w =
    on_layer (set_first (set_socket_in sub_connect))
      (on_last (set_first (set_socket_out pub_bind)) w)

unfoldable pub rule4 : Wiring → Wiring
unfolding on_last on_layer set_first set_socket_out set_socket_in
rule4 w =
    on_layer (map (set_socket_in sub_connect)) (on_last (set_first (set_socket_out pub_bind)) w)

unfoldable pub rule9 : Wiring → Wiring
unfolding on_last on_layer set_first set_socket_out set_socket_in
rule9 w =
    on_layer (set_first (set_socket_in pull_bind))
      (on_last (set_first (set_socket_out push_connect)) w)

-- `_get_random_port`: the `k`-th port that the random generator gives, as a string.
unfoldable pub get_random_port : (ℕ → ℕ) → ℕ → Option Str
unfolding show_nat
get_random_port random k = some (show_nat (random k))

module _ (random : ℕ → ℕ) where
  unfoldable pub rule3 : Wiring → Wiring
  unfolding get_random_port on_last on_layer set_first set_socket_out listen add_routers router
      first_port_out
  rule3 w =
      let port = get_random_port random w.drawn in
      let r =
        router (codes "BaseRouter") pull_bind push_bind (first_port_out w.last_layer.components)
          port in
      add_routers (r ∷ []) 1 (
        on_layer (map (listen pull_connect port))
          (on_last (set_first (set_socket_out push_connect)) w))

  -- The routers of the first router layer, changed.
  unfoldable pub on_first_router : (Component → Component) → List Layer → List Layer
  unfolding set_first
  on_first_router f [] = []
  on_first_router f (l ∷ ls) = record l { components = set_first f l.components } ∷ ls

  unfoldable pub republish : ℕ → Component → Component
  unfolding publish_yaml
  republish n r = record r { socket_out = some pub_bind; yaml_path = some (publish_yaml n) }

  unfoldable pub rule5 : Wiring → Wiring
  unfolding rule3 on_layer set_socket_in on_first_router republish
  rule5 w =
      let w' = rule3 w in
      on_layer (map (set_socket_in sub_connect)) (record w' {
        router_layers = on_first_router (republish (length w'.layer.components)) w'.router_layers;
      })

  -- The loop of rule 6: the components and their routers, which take the ports from `k` on.
  unfoldable pub reduce_each : Option Str → ℕ → List Component → List Component × List Component
  unfolding get_random_port is_pull listen router
  reduce_each p k [] = ([], [])
  reduce_each p k (c ∷ cs) =
      let port = get_random_port random k in
      let (cs', rs) = reduce_each p (k + 1) cs in
      (
        listen (if is_pull c then pull_connect else sub_connect) port c ∷ cs',
        router (codes "BaseReduceRouter") sub_connect (if is_pull c then push_bind else pub_bind) p
              port
            ∷ rs,
      )

  unfoldable pub rule6 : Wiring → Wiring
  unfolding on_last set_first set_socket_out on_layer add_routers reduce_each first_port_out
  rule6 w =
      let (cs, rs) =
        reduce_each (first_port_out w.last_layer.components) w.drawn w.layer.components in
      add_routers rs (length w.layer.components)
        (on_layer (λ _. cs) (on_last (set_first (set_socket_out pub_bind)) w))

  -- The publishing router of rules 7 and 10, and the port that the last layer sends to then.
  unfoldable pub publish_first : Wiring → Wiring
  unfolding get_random_port on_last set_first send add_routers router publish_yaml
  publish_first w =
      let p_in = get_random_port random w.drawn in
      let p_out = get_random_port random (w.drawn + 1) in
      let r0 = router (publish_yaml (length w.layer.components)) pull_bind pub_bind p_in p_out in
      add_routers (r0 ∷ []) 2 (on_last (set_first (send push_connect p_in)) w)

  -- The loop of rule 7.
  unfoldable pub route_each : Option Str → ℕ → List Component → List Component × List Component
  unfolding get_random_port listen router
  route_each p k [] = ([], [])
  route_each p k (c ∷ cs) =
      let port = get_random_port random k in
      let (cs', rs) = route_each p (k + 1) cs in
      (
        listen pull_connect port c ∷ cs',
        router (codes "BaseRouter") sub_connect push_bind p port ∷ rs,
      )

  unfoldable pub rule7 : Wiring → Wiring
  unfolding publish_first on_layer add_routers route_each get_random_port
  rule7 w =
      let w' = publish_first w in
      let (cs, rs) =
        route_each (get_random_port random (w.drawn + 1)) w'.drawn w'.layer.components in
      add_routers rs (length w'.layer.components) (on_layer (λ _. cs) w')

  unfoldable pub rule10 : Wiring → Wiring
  unfolding publish_first on_layer listen get_random_port
  rule10 w =
      on_layer (map (listen sub_connect (get_random_port random (w.drawn + 1)))) (publish_first w)

  -- The loop of rule 8 over the last layer: the components, the routers that gather from the
  -- replicas of a component, and the number of ports drawn.
  unfoldable pub gather_each : Option Str → ℕ → List Component → List Component × List Component × ℕ
  unfolding get_random_port is_sub is_pull send router
  gather_each p k [] = ([], [], k)
  gather_each p k (c ∷ cs) =
      let port = get_random_port random k in
      let (cs', rs, k') = gather_each p (if is_sub c then k + 1 else k) cs in
      if is_sub c
      then (
        send push_connect port c ∷ cs',
        router (codes "BaseReduceRouter") pull_bind push_connect port p ∷ rs,
        k',
      )
      else if is_pull c
      then (send push_connect p c ∷ cs', rs, k')
      else (c ∷ cs', rs, k')

  -- A layer of no routers is not kept.
  unfoldable pub add_some_routers : List Component → Wiring → Wiring
  unfolding add_routers
  add_some_routers [] w = w
  add_some_routers (r ∷ rs) w = add_routers (r ∷ rs) 0 w

  unfoldable pub rule8 : Wiring → Wiring
  unfolding get_random_port on_last on_layer listen add_routers add_some_routers router gather_each
  rule8 w =
      let p_in = get_random_port random w.drawn in
      let p_out = get_random_port random (w.drawn + 1) in
      let r = router (codes "BaseReduceRouter") pull_bind push_bind p_in p_out in
      let (cs, rs, k) = gather_each p_in (w.drawn + 2) w.last_layer.components in
      add_routers (r ∷ []) 0 (
        add_some_routers rs
          (on_layer (map (listen pull_connect p_out)) (on_last (λ _. cs) (record w { drawn = k }))))
