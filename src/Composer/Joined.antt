-- ===== src/Composer/Joined.antt =====
-- gnes/composer/base.py: what each rule of `_add_router` joins.
use gnes.Prelude.{
  Each, SomeOf, Each-weaken, some_left, some_right, ℕ, refl, some, List, [], ◌∷◌, ◌++◌, map, Str,
  codes, show_nat, length,
}
use gnes.Service.Socket.{
  paired, pull_bind, pull_connect, push_bind, push_connect, sub_connect, pub_bind,
}
use gnes.Composer.Layers.{Component, Layer}
use gnes.Composer.Rules.{
  Wiring, set_first, first_port_out, set_socket_in, set_socket_out, set_port_out, listen, on_last,
  on_layer, add_routers, router, get_random_port, republish, on_first_router, rule1, rule2, rule3,
  rule4, rule5, rule9,
}
use gnes.Composer.Wiring.{set_port_in}
use gnes.Composer.Links.{Linked, IsJoined, join_map, join_fan}

-- The components of some layers.
unfoldable pub components_of : List Layer → List Component
components_of [] = []
components_of (l ∷ []) = l.components
components_of (l ∷ m ∷ ls) = l.components ++ components_of (m ∷ ls)

abbrev pub Hears : List Component → Component → Type 0
Hears ss r = SomeOf (λ s. Linked s r) ss

abbrev pub IsHeard : List Component → Component → Type 0
IsHeard rs s = SomeOf (Linked s) rs

-- In a row of layers, with `cs` the components of the one before, and `before` all up to them: those
-- of each layer hear one of the layers before it, and are heard by one of the layers behind it.
unfoldable pub AreInOrder : List Component → List Component → List Layer → List Component → Type 0
unfolding Each components_of
AreInOrder before cs [] ds = Each (Hears before) ds × Each (IsHeard ds) cs
AreInOrder before cs (l ∷ ls) ds =
    Each (Hears before) l.components
    × Each (IsHeard (components_of (l ∷ ls) ++ ds)) cs
    × AreInOrder (before ++ l.components) l.components ls ds

-- After `_add_router`: from the last layer over the routers, in their order, to the next layer.
unfoldable pub JoinsIn : Wiring → Type 0
JoinsIn w =
    AreInOrder w.last_layer.components w.last_layer.components w.router_layers w.layer.components

pub order_none : (cs ds : List Component) → IsJoined cs ds → AreInOrder cs cs [] ds
unfolding AreInOrder IsJoined
order_none cs ds j = j

pub order_one :
    (cs : List Component) (l : Layer) (ds : List Component)
    → IsJoined cs l.components
    → IsJoined l.components ds
    → AreInOrder cs cs (l ∷ []) ds
unfolding AreInOrder IsJoined components_of
order_one cs l ds (hear, heard) (hear', heard') = (
  hear,
  Each-weaken (λ s. some_left _ l.components ds) cs heard,
  (Each-weaken (λ d. some_right _ cs l.components) ds hear', heard'),
)

pub order_two :
    (cs : List Component) (l m : Layer) (ds : List Component)
    → IsJoined cs l.components
    → IsJoined l.components m.components
    → IsJoined m.components ds
    → AreInOrder cs cs (l ∷ m ∷ []) ds
unfolding AreInOrder IsJoined components_of
order_two cs l m ds (hear, heard) (hear', heard') (hear'', heard'') = (
  hear,
  Each-weaken
      (λ s h.
        some_left _ (l.components ++ m.components) ds (some_left _ l.components m.components h))
      cs heard,
  (
    Each-weaken (λ d. some_right _ cs l.components) m.components hear',
    Each-weaken (λ s. some_left _ m.components ds) l.components heard',
    (Each-weaken (λ d. some_right _ (cs ++ l.components) m.components) ds hear'', heard''),
  ),
)

-- Two layers before they are joined.
unfoldable pub unwired : ℕ → List Component → ℕ → List Component → ℕ → ℕ → Wiring
unwired i cs j ds n k = record {
  last_layer = record { layer_id = i; components = cs };
  layer = record { layer_id = j; components = ds };
  router_layers = [];
  num_layer = n;
  drawn = k;
}

-- Two layers once the ports are bound: one component, and those of the next layer.
unfoldable pub bound : Str → Component → List Component → ℕ → ℕ → ℕ → ℕ → Wiring
unfolding set_port_out set_port_in
bound p c ds i j n k = record {
  last_layer = record { layer_id = i; components = set_port_out (some p) c ∷ [] };
  layer = record { layer_id = j; components = map (set_port_in (some p)) ds };
  router_layers = [];
  num_layer = n;
  drawn = k;
}

module _ (p : Str) (c : Component) (i j n k : ℕ) where
  pub rule1-JoinsIn : (d : Component) → JoinsIn (rule1 (bound p c (d ∷ []) i j n k))
  unfolding JoinsIn bound rule1 on_last on_layer set_first set_socket_out set_socket_in set_port_out
      set_port_in Linked paired
  rule1-JoinsIn d = order_none _ _ (
      join_map (set_socket_out push_bind (set_port_out (some p) c)) (set_socket_in pull_connect)
        (set_port_in (some p)) (λ d. (push_bind, refl, refl, p, refl, refl)) d [])

  pub rule2-JoinsIn : (d : Component) → JoinsIn (rule2 (bound p c (d ∷ []) i j n k))
  unfolding JoinsIn bound rule2 on_last on_layer set_first set_socket_out set_socket_in set_port_out
      set_port_in Linked paired
  rule2-JoinsIn d = order_none _ _ (
      join_map (set_socket_out pub_bind (set_port_out (some p) c)) (set_socket_in sub_connect)
        (set_port_in (some p)) (λ d. (pub_bind, refl, refl, p, refl, refl)) d [])

  pub rule9-JoinsIn : (d : Component) → JoinsIn (rule9 (bound p c (d ∷ []) i j n k))
  unfolding JoinsIn bound rule9 on_last on_layer set_first set_socket_out set_socket_in set_port_out
      set_port_in Linked paired
  rule9-JoinsIn d = order_none _ _ (
      join_map (set_socket_out push_connect (set_port_out (some p) c)) (set_socket_in pull_bind)
        (set_port_in (some p)) (λ d. (push_connect, refl, refl, p, refl, refl)) d [])

  pub rule4-JoinsIn :
      (d : Component) (ds : List Component) → JoinsIn (rule4 (bound p c (d ∷ ds) i j n k))
  unfolding JoinsIn bound rule4 on_last on_layer set_first set_socket_out set_socket_in set_port_out
      set_port_in Linked paired
  rule4-JoinsIn d ds = order_none _ _ (
      join_map (set_socket_out pub_bind (set_port_out (some p) c)) (set_socket_in sub_connect)
        (set_port_in (some p)) (λ d. (pub_bind, refl, refl, p, refl, refl)) d ds)

  module _ (random : ℕ → ℕ) where
    -- A port that the rules draw.
    abbrev port : ℕ → Str
    port a = show_nat (random a)

    -- The sender and the one router that rules 3 and 5 put behind it.
    abbrev to_router : Component
    to_router = set_socket_out push_connect (set_port_out (some p) c)

    pub rule3-JoinsIn :
        (d : Component) (ds : List Component) → JoinsIn (rule3 random (bound p c (d ∷ ds) i j n k))
    unfolding JoinsIn bound rule3 on_last on_layer set_first set_socket_out listen get_random_port
        add_routers router first_port_out components_of set_port_out set_port_in Linked paired Each
    rule3-JoinsIn d ds =
        let r = router (codes "BaseRouter") pull_bind push_bind (some p) (some (port k)) in
        order_one _ _ _ (join_fan to_router r [] ((push_connect, refl, refl, p, refl, refl), tt)) (
          join_map r (listen pull_connect (some (port k))) (set_port_in (some p))
            (λ d. (push_bind, refl, refl, port k, refl, refl)) d ds)

    pub rule5-JoinsIn :
        (d : Component) (ds : List Component) → JoinsIn (rule5 random (bound p c (d ∷ ds) i j n k))
    unfolding JoinsIn bound rule5 rule3 on_last on_layer set_first set_socket_out set_socket_in
        listen get_random_port add_routers router first_port_out components_of set_port_out
        set_port_in Linked paired on_first_router republish Each
    rule5-JoinsIn d ds =
        let r0 = router (codes "BaseRouter") pull_bind push_bind (some p) (some (port k)) in
        let r =
          republish random
            (length
              (map (listen pull_connect (some (port k))) (map (set_port_in (some p)) (d ∷ ds))))
            r0 in
        order_one _ (record { layer_id = n; components = r ∷ [] }) _
          (join_fan to_router r [] ((push_connect, refl, refl, p, refl, refl), tt))
          (join_map r (set_socket_in sub_connect) (listen pull_connect (some (port k)))
            (λ d. (pub_bind, refl, refl, port k, refl, refl)) (set_port_in (some p) d)
            (map (set_port_in (some p)) ds))
