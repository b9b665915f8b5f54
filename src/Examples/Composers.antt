-- ===== src/Examples/Composers.antt =====
-- A frontend joined to three preprocessors, two of which are replicated, and rule 8 back.
use gnes.Prelude.{ℕ, ◌+◌, refl, none, [], ◌∷◌, codes, str_eq, inl, inr, Each, List}
use gnes.Composer.Layers.{Component}
use gnes.Composer.Rules.{is_pull, is_sub}
use gnes.Composer.Wiring.{add_router}
use gnes.Composer.Joined.{unwired}
use gnes.Composer.Gathered.{IsKnown}
use gnes.Composer.Routers.{Wired, add_router-Wired}

abbrev component : ℕ → List ℕ → Component
component n income = record {
  name = codes "Encoder";
  yaml_path = none;
  py_path = none;
  image = none;
  replicas = n;
  income = income;
  socket_in = none;
  socket_out = none;
  port_in = none;
  port_out = none;
}

add_router-Wired_example : Wired (
    add_router
      (λ k. 50000 + k)
      (unwired 1
        (component 2 (codes "sub") ∷ component 1 (codes "pull") ∷ [])
        2
        (component 3 (codes "pull") ∷ [])
        3
        0))
unfolding Each IsKnown is_pull is_sub str_eq
add_router-Wired_example =
    add_router-Wired (λ k. 50000 + k) 1 2 3 0 (component 2 (codes "sub"))
      (component 1 (codes "pull") ∷ []) (component 3 (codes "pull")) [] (inr refl, (inl refl, tt))
      (inl refl, tt)
