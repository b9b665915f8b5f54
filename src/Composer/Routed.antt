-- ===== src/Composer/Routed.antt =====
-- gnes/composer/base.py: what the rules with a loop over the components join (rules 6, 7, 8, 10).
use gnes.Prelude.{
  Each, SomeOf, ℕ, ◌+◌, ◌≡◌, refl, Bool, true, false, Option, some, List, [], ◌∷◌, map, Str,
  show_nat, if◌then◌else◌, inl, length,
}
use gnes.Service.Socket.{
  SocketType, paired, pull_bind, pull_connect, push_bind, push_connect, sub_connect, pub_bind,
}
use gnes.Composer.Layers.{Component}
use gnes.Composer.Rules.{
  set_first, first_port_out, set_socket_out, set_port_out, listen, send, on_last, on_layer,
  add_routers, router, publish_yaml, is_pull, get_random_port, publish_first, reduce_each,
  route_each, rule6, rule7, rule10,
}
use gnes.Composer.Wiring.{set_port_in}
use gnes.Composer.Links.{Linked, IsJoined, AreLinked, join_map, join_fan, join_all, join_zip}
use gnes.Composer.Joined.{components_of, JoinsIn, bound, order_one, order_two}

if_paired :
    (b : Bool)
    → ◌≡◌ {A = Option SocketType}
        (some (if b then pull_connect else sub_connect))
        (some (paired (if b then push_bind else pub_bind)))
unfolding paired
if_paired true = refl
if_paired false = refl

module _ (random : ℕ → ℕ) where
  -- The routers of rule 6 are all linked to the sender, and each to its component.
  reduce_each-Linked :
      (s : Component) (p : Str) (k : ℕ) (ds : List Component)
      → s.socket_out ≡ some pub_bind
      → s.port_out ≡ some p
      → Each (Linked s) (reduce_each random (some p) k ds).1
  unfolding Each Linked reduce_each router paired
  reduce_each-Linked s p k [] hs hp = tt
  reduce_each-Linked s p k (d ∷ ds) hs hp =
      ((pub_bind, hs, refl, p, hp, refl), reduce_each-Linked s p (k + 1) ds hs hp)

  reduce_each-AreLinked :
      (p : Str) (k : ℕ) (ds : List Component)
      → AreLinked (reduce_each random (some p) k ds).1 (reduce_each random (some p) k ds).0
  unfolding AreLinked Linked reduce_each router paired listen get_random_port
  reduce_each-AreLinked p k [] = tt
  reduce_each-AreLinked p k (d ∷ ds) = (
    (_, refl, if_paired (is_pull d), show_nat (random k), refl, refl),
    reduce_each-AreLinked p (k + 1) ds,
  )

  route_each-Linked :
      (s : Component) (p : Str) (k : ℕ) (ds : List Component)
      → s.socket_out ≡ some pub_bind
      → s.port_out ≡ some p
      → Each (Linked s) (route_each random (some p) k ds).1
  unfolding Each Linked route_each router paired
  route_each-Linked s p k [] hs hp = tt
  route_each-Linked s p k (d ∷ ds) hs hp =
      ((pub_bind, hs, refl, p, hp, refl), route_each-Linked s p (k + 1) ds hs hp)

  route_each-AreLinked :
      (p : Str) (k : ℕ) (ds : List Component)
      → AreLinked (route_each random (some p) k ds).1 (route_each random (some p) k ds).0
  unfolding AreLinked Linked route_each router paired listen get_random_port
  route_each-AreLinked p k [] = tt
  route_each-AreLinked p k (d ∷ ds) =
      ((push_bind, refl, refl, show_nat (random k), refl, refl), route_each-AreLinked p (k + 1) ds)

  pub rule6-JoinsIn :
      (p : Str) (c : Component) (i j n k : ℕ) (d : Component) (ds : List Component)
      → JoinsIn (rule6 random (bound p c (d ∷ ds) i j n k))
  unfolding JoinsIn bound rule6 on_last on_layer set_first set_socket_out add_routers first_port_out
      components_of set_port_out reduce_each router Each SomeOf
  rule6-JoinsIn p c i j n k d ds =
      let s = set_socket_out pub_bind (set_port_out (some p) c) in
      let ds' = map (set_port_in (some p)) (d ∷ ds) in
      let (cs, rs) = reduce_each random (some p) k ds' in
      order_one _ _ _
        (join_all s rs (reduce_each-Linked s p k ds' refl refl)
          (inl (reduce_each-Linked s p k ds' refl refl).0))
        (join_zip rs cs (reduce_each-AreLinked p k ds'))

  -- The sender of rules 7 and 10, and the publishing router behind it.
  abbrev to_publisher : ℕ → Component → Component
  to_publisher k c = send push_connect (some (show_nat (random k))) c

  abbrev publisher : ℕ → ℕ → Component
  publisher m k =
      router (publish_yaml m) pull_bind pub_bind (some (show_nat (random k)))
        (some (show_nat (random (k + 1))))

  to_publisher-IsJoined :
      (k m : ℕ) (c : Component) → IsJoined (to_publisher k c ∷ []) (publisher m k ∷ [])
  unfolding Linked send router paired Each
  to_publisher-IsJoined k m c =
      join_fan (to_publisher k c) (publisher m k) []
        ((push_connect, refl, refl, show_nat (random k), refl, refl), tt)

  pub rule10-JoinsIn :
      (p : Str) (c : Component) (i j n k : ℕ) (d : Component) (ds : List Component)
      → JoinsIn (rule10 random (bound p c (d ∷ ds) i j n k))
  unfolding JoinsIn bound rule10 publish_first on_last on_layer set_first send add_routers
      first_port_out components_of set_port_out listen router get_random_port Linked paired
  rule10-JoinsIn p c i j n k d ds =
      let m = length (map (set_port_in (some p)) (d ∷ ds)) in
      let r = publisher m k in
      let port = some (show_nat (random (k + 1))) in
      order_one _ _ _ (to_publisher-IsJoined k m (set_port_out (some p) c)) (
        join_map r (listen sub_connect port) (set_port_in (some p))
          (λ d. (pub_bind, refl, refl, show_nat (random (k + 1)), refl, refl)) d ds)

  pub rule7-JoinsIn :
      (p : Str) (c : Component) (i j n k : ℕ) (d : Component) (ds : List Component)
      → JoinsIn (rule7 random (bound p c (d ∷ ds) i j n k))
  unfolding JoinsIn bound rule7 publish_first on_last on_layer set_first send add_routers
      first_port_out components_of set_port_out router get_random_port route_each Each SomeOf
  rule7-JoinsIn p c i j n k d ds =
      let ds' = map (set_port_in (some p)) (d ∷ ds) in
      let m = length ds' in
      let r = publisher m k in
      let q = show_nat (random (k + 1)) in
      let (cs, rs) = route_each random (some q) (k + 2) ds' in
      order_two _ _ _ _ (to_publisher-IsJoined k m (set_port_out (some p) c))
        (join_all r rs (route_each-Linked r q (k + 2) ds' refl refl)
          (inl (route_each-Linked r q (k + 2) ds' refl refl).0))
        (join_zip rs cs (route_each-AreLinked q (k + 2) ds'))
