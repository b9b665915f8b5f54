-- ===== src/Composer/Wiring.antt =====
-- gnes/composer/base.py: which rule joins two layers, and the wiring of all of them.
use gnes.Prelude.{ℕ, ◌+◌, Option, List, [], ◌∷◌, map, Str, str_eq, if◌then◌else◌, Result, ok, err}
use gnes.Composer.Layers.{
  Component, ComposerError, bad_income, is_single_component, is_homo_multi_component,
  is_heto_single_component,
}
use gnes.Composer.Rules.{
  Wiring, set_first, set_port_out, on_last, on_layer, is_pull, is_sub, get_random_port, rule1,
  rule2, rule3, rule4, rule5, rule6, rule7, rule8, rule9, rule10,
}

-- `c['port_in'] = ...`
unfoldable pub set_port_in : Option Str → Component → Component
set_port_in p c = record c { port_in = p }

-- Which of two rules, by the `income` of the first component; another value is not known.
unfoldable pub by_income : List Component → Wiring → Wiring → Result {0, 0} ComposerError Wiring
unfolding is_pull is_sub
by_income [] w w' = err (bad_income [])
by_income (c ∷ cs) w w' =
    if is_pull c then ok w else if is_sub c then ok w' else err (bad_income c.income)

module _ (random : ℕ → ℕ) where
  -- A fresh port for the one component of the last layer, on which the next layer listens.
  unfoldable pub bind_port : Wiring → Wiring
  unfolding get_random_port on_last on_layer set_first set_port_out set_port_in
  bind_port w =
      let port = get_random_port random w.drawn in
      on_layer (map (set_port_in port))
        (on_last (set_first (set_port_out port)) (record w { drawn = w.drawn + 1 }))

  unfoldable pub from_single : Wiring → Result {0, 0} ComposerError Wiring
  unfolding is_single_component is_homo_multi_component is_heto_single_component by_income
  from_single w =
      if is_single_component w.layer
      then ok (rule1 w)
      else if is_homo_multi_component w.layer
      then by_income w.layer.components (rule1 w) (rule2 w)
      else if is_heto_single_component w.layer
      then ok (rule4 w)
      else ok (rule6 random w)

  -- Rule 5 when the first component of the next layer subscribes, rule 3 when it does not.
  unfoldable pub to_replicas : List Component → Wiring → Wiring
  unfolding is_sub
  to_replicas [] w = rule3 random w
  to_replicas (c ∷ cs) w = if is_sub c then rule5 random w else rule3 random w

  unfoldable pub from_replicas : Wiring → Result {0, 0} ComposerError Wiring
  unfolding is_single_component is_homo_multi_component is_heto_single_component by_income
      to_replicas
  from_replicas w =
      if is_single_component w.layer
      then by_income w.last_layer.components (rule9 w) (rule3 random w)
      else if is_homo_multi_component w.layer
      then ok (to_replicas w.layer.components w)
      else if is_heto_single_component w.layer
      then ok (rule5 random w)
      else by_income w.layer.components (rule7 random w) (rule10 random w)

  -- `_add_router`
  unfoldable pub add_router : Wiring → Result {0, 0} ComposerError Wiring
  unfolding is_single_component is_homo_multi_component bind_port from_single from_replicas
  add_router w =
      if is_single_component w.last_layer
      then from_single (bind_port w)
      else if is_homo_multi_component w.last_layer
      then from_replicas (bind_port w)
      else ok (rule8 random w)
