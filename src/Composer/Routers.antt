-- ===== src/Composer/Routers.antt =====
-- gnes/composer/base.py: `_add_router` joins any two layers.
use gnes.Prelude.{
  Each, ℕ, ◌+◌, ◌≡◌, refl, Bool, true, false, some, List, [], ◌∷◌, map, Str, show_nat, arith,
  if◌then◌else◌, if_cases, true_and_false, inl, inr, Result, ok, err, nat_eq,
}
use gnes.Composer.Layers.{
  Component, ComposerError, is_homogenous, is_single_component, is_homo_multi_component,
  is_heto_single_component,
}
use gnes.Composer.Rules.{
  Wiring, set_port_out, on_last, on_layer, set_first, get_random_port, is_pull, is_sub, rule1,
  rule2, rule3, rule4, rule5, rule6, rule7, rule8, rule9, rule10,
}
use gnes.Composer.Wiring.{
  set_port_in, by_income, bind_port, from_single, to_replicas, from_replicas, add_router,
}
use gnes.Composer.Joined.{
  JoinsIn, unwired, bound, rule1-JoinsIn, rule2-JoinsIn, rule3-JoinsIn, rule4-JoinsIn,
  rule5-JoinsIn, rule9-JoinsIn,
}
use gnes.Composer.Routed.{rule6-JoinsIn, rule7-JoinsIn, rule10-JoinsIn}
use gnes.Composer.Gathered.{IsKnown, rule8-JoinsIn}

-- The wiring ends without an error, and the layers and routers reach each other.
unfoldable pub Wired : Result {0, 0} ComposerError Wiring → Type 0
unfolding JoinsIn
Wired (ok w) = JoinsIn w
Wired (err e) = ⊥

by_income-Wired :
    (c : Component) (cs : List Component) (w w' : Wiring)
    → IsKnown c
    → JoinsIn w
    → JoinsIn w'
    → Wired (by_income (c ∷ cs) w w')
unfolding Wired by_income IsKnown
by_income-Wired c cs w w' known j j' =
    if_cases Wired (is_pull c) _ _ (λ pull. j)
      (λ other.
        if_cases Wired (is_sub c) _ _ (λ sub. j')
          (λ neither. elim known [ inl pull ↦ cc | inr sub ↦ cc ]))

many-is_homogenous :
    (i : ℕ) (c d : Component) (cs : List Component)
    → is_homogenous (record { layer_id = i; components = c ∷ d ∷ cs }) ≡ false
unfolding is_homogenous nat_eq
many-is_homogenous i c d cs = ground arith

many-is_single_component :
    (i : ℕ) (c d : Component) (cs : List Component)
    → is_single_component (record { layer_id = i; components = c ∷ d ∷ cs }) ≡ false
unfolding is_single_component
many-is_single_component i c d cs = rw (many-is_homogenous i c d cs)

many-is_homo_multi_component :
    (i : ℕ) (c d : Component) (cs : List Component)
    → is_homo_multi_component (record { layer_id = i; components = c ∷ d ∷ cs }) ≡ false
unfolding is_homo_multi_component
many-is_homo_multi_component i c d cs = rw (many-is_homogenous i c d cs)

-- A choice among the results of four rules, or of three.
choice :
    (b b' b'' : Bool) (x x' x'' y : Result {0, 0} ComposerError Wiring)
    → (b ≡ true → Wired x)
    → (b' ≡ true → Wired x')
    → Wired x''
    → Wired y
    → Wired (if b then x else if b' then x' else if b'' then x'' else y)
choice true b' b'' x x' x'' y f g jx jy = f refl
choice false true b'' x x' x'' y f g jx jy = g refl
choice false false true x x' x'' y f g jx jy = jx
choice false false false x x' x'' y f g jx jy = jy

-- What each branch has to give.
module _ (random : ℕ → ℕ) (w : Wiring) where
  from_single_choice :
      (is_single_component w.layer ≡ true → JoinsIn (rule1 w))
      → (is_homo_multi_component w.layer ≡ true
          → Wired (by_income w.layer.components (rule1 w) (rule2 w)))
      → JoinsIn (rule4 w)
      → JoinsIn (rule6 random w)
      → Wired (from_single random w)
  unfolding Wired from_single
  from_single_choice =
      choice (is_single_component w.layer) (is_homo_multi_component w.layer)
        (is_heto_single_component w.layer) (ok (rule1 w))
        (by_income w.layer.components (rule1 w) (rule2 w)) (ok (rule4 w)) (ok (rule6 random w))

  from_replicas_choice :
      (is_single_component w.layer ≡ true
        → Wired (by_income w.last_layer.components (rule9 w) (rule3 random w)))
      → JoinsIn (to_replicas random w.layer.components w)
      → JoinsIn (rule5 random w)
      → Wired (by_income w.layer.components (rule7 random w) (rule10 random w))
      → Wired (from_replicas random w)
  unfolding Wired from_replicas
  from_replicas_choice f jr =
      choice (is_single_component w.layer) (is_homo_multi_component w.layer)
        (is_heto_single_component w.layer)
        (by_income w.last_layer.components (rule9 w) (rule3 random w))
        (ok (to_replicas random w.layer.components w)) (ok (rule5 random w))
        (by_income w.layer.components (rule7 random w) (rule10 random w)) f (λ _. jr)

  add_router_choice :
      (is_single_component w.last_layer ≡ true → Wired (from_single random (bind_port random w)))
      → (is_homo_multi_component w.last_layer ≡ true
          → Wired (from_replicas random (bind_port random w)))
      → JoinsIn (rule8 random w)
      → Wired (add_router random w)
  unfolding Wired add_router
  add_router_choice f g j8 =
      choice (is_single_component w.last_layer) (is_homo_multi_component w.last_layer) true
        (from_single random (bind_port random w)) (from_replicas random (bind_port random w))
        (ok (rule8 random w)) (ok (rule8 random w)) f g j8 j8

module _ (random : ℕ → ℕ) (p : Str) (c : Component) (i j n k : ℕ) where
  from_single-Wired :
      (d : Component) (ds : List Component)
      → IsKnown d
      → Wired (from_single random (bound p c (d ∷ ds) i j n k))
  unfolding bound IsKnown
  from_single-Wired d [] known =
      from_single_choice random (bound p c (d ∷ []) i j n k) (λ single. rule1-JoinsIn p c i j n k d)
        (λ multi.
          by_income-Wired (set_port_in (some p) d) [] _ _ known (rule1-JoinsIn p c i j n k d)
            (rule2-JoinsIn p c i j n k d))
        (rule4-JoinsIn p c i j n k d []) (rule6-JoinsIn random p c i j n k d [])
  from_single-Wired d (d' ∷ ds) known =
      let e = set_port_in (some p) d in
      let e' = set_port_in (some p) d' in
      let es = map (set_port_in (some p)) ds in
      from_single_choice random (bound p c (d ∷ d' ∷ ds) i j n k)
        (λ single. true_and_false single (many-is_single_component j e e' es))
        (λ multi. true_and_false multi (many-is_homo_multi_component j e e' es))
        (rule4-JoinsIn p c i j n k d (d' ∷ ds)) (rule6-JoinsIn random p c i j n k d (d' ∷ ds))

  to_replicas-JoinsIn :
      (d : Component) (ds : List Component)
      → JoinsIn
          (to_replicas random (map (set_port_in (some p)) (d ∷ ds)) (bound p c (d ∷ ds) i j n k))
  unfolding to_replicas
  to_replicas-JoinsIn d ds =
      if_cases JoinsIn _ _ _ (λ sub. rule5-JoinsIn p c i j n k random d ds)
        (λ other. rule3-JoinsIn p c i j n k random d ds)

  from_replicas-Wired :
      (d : Component) (ds : List Component)
      → IsKnown c
      → IsKnown d
      → Wired (from_replicas random (bound p c (d ∷ ds) i j n k))
  unfolding bound IsKnown
  from_replicas-Wired d ds known known' =
      let e = set_port_in (some p) d in
      let es = map (set_port_in (some p)) ds in
      from_replicas_choice random (bound p c (d ∷ ds) i j n k) (λ single. to_single ds single)
        (to_replicas-JoinsIn d ds) (rule5-JoinsIn p c i j n k random d ds)
        (by_income-Wired e es _ _ known' (rule7-JoinsIn random p c i j n k d ds)
          (rule10-JoinsIn random p c i j n k d ds))
    where
      to_single :
          (ds : List Component)
          → is_single_component (bound p c (d ∷ ds) i j n k).layer ≡ true
          → Wired (
              by_income
                (set_port_out (some p) c ∷ [])
                (rule9 (bound p c (d ∷ ds) i j n k))
                (rule3 random (bound p c (d ∷ ds) i j n k)))
      to_single [] single =
          by_income-Wired (set_port_out (some p) c) [] _ _ known (rule9-JoinsIn p c i j n k d)
            (rule3-JoinsIn p c i j n k random d [])
      to_single (d' ∷ ds) single = true_and_false single (
          many-is_single_component j (set_port_in (some p) d) (set_port_in (some p) d')
            (map (set_port_in (some p)) ds))

-- `_add_router` joins any two layers that are not empty and whose components have a known
-- `income`: it raises nothing, every router and every component of the next layer then listens to
-- a component or router of a layer before its own, and every component of the last layer and every
-- router is heard by one of a layer behind its own: on the same port, and with the counterpart of
-- its socket.
pub add_router-Wired :
    (random : ℕ → ℕ) (i j n k : ℕ) (c : Component) (cs : List Component) (d : Component)
    (ds : List Component)
    → Each IsKnown (c ∷ cs)
    → Each IsKnown (d ∷ ds)
    → Wired (add_router random (unwired i (c ∷ cs) j (d ∷ ds) n k))
unfolding unwired bind_port bound on_last on_layer set_first get_random_port Each
add_router-Wired random i j n k c [] d ds (known, _) (known', _) =
    let p = show_nat (random k) in
    add_router_choice random (unwired i (c ∷ []) j (d ∷ ds) n k)
      (λ single. from_single-Wired random p c i j n (k + 1) d ds known')
      (λ multi. from_replicas-Wired random p c i j n (k + 1) d ds known known')
      (rule8-JoinsIn random i j n k c [] d ds (known, tt))
add_router-Wired random i j n k c (c' ∷ cs) d ds known known' =
    add_router_choice random (unwired i (c ∷ c' ∷ cs) j (d ∷ ds) n k)
      (λ single. true_and_false single (many-is_single_component i c c' cs))
      (λ multi. true_and_false multi (many-is_homo_multi_component i c c' cs))
      (rule8-JoinsIn random i j n k c (c' ∷ cs) d ds known)
