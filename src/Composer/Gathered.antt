-- ===== src/Composer/Gathered.antt =====
-- gnes/composer/base.py: what rule 8 joins, which gathers from several components.
use mathlib.Core.List.{append-nil}
use gnes.Prelude.{
  Each, SomeOf, Each-weaken, Each-map, some_left, some_right, ℕ, ◌+◌, ◌≡◌, refl, subst, true, some,
  List, [], ◌∷◌, ◌++◌, Str, codes, show_nat, if◌then◌else◌, if_cases, ◌⊎◌, inl, inr,
}
use gnes.Service.Socket.{paired, pull_bind, pull_connect, push_bind, push_connect}
use gnes.Composer.Layers.{Component}
use gnes.Composer.Rules.{
  Wiring, listen, send, on_last, on_layer, add_routers, router, is_pull, is_sub, get_random_port,
  gather_each, add_some_routers, rule8,
}
use gnes.Composer.Links.{Linked, IsJoined, join_all}
use gnes.Composer.Joined.{components_of, JoinsIn, unwired, Hears, IsHeard, AreInOrder}

-- The `income` is one of the two that the composer knows.
unfoldable pub IsKnown : Component → Type 0
unfolding is_pull is_sub
IsKnown c = (is_pull c ≡ true) ⊎ (is_sub c ≡ true)

module _ (random : ℕ → ℕ) where
  -- What the loop of rule 8 leaves: the components reach their routers or the last one, `r`; their
  -- routers hear them and reach `r`.
  unfoldable AreGathered : Component → List Component × List Component × ℕ → Type 0
  unfolding Each SomeOf Linked
  AreGathered r out =
      Each (λ s. SomeOf (Linked s) (out.1 ++ r ∷ [])) out.0
      × Each (λ q. SomeOf (λ s. Linked s q) out.0) out.1
      × Each (λ q. Linked q r) out.1

  gather_each-AreGathered :
      (p : Str) (r : Component) (k : ℕ) (cs : List Component)
      → r.port_in ≡ some p
      → r.socket_in ≡ some pull_bind
      → Each IsKnown cs
      → AreGathered r (gather_each random (some p) k cs)
  unfolding AreGathered Each SomeOf Linked gather_each send router paired get_random_port IsKnown
  gather_each-AreGathered p r k [] hp hs known = (tt, tt, tt)
  gather_each-AreGathered p r k (c ∷ cs) hp hs (one, known) =
      let (cs', rs, k') = gather_each random (some p) (if is_sub c then k + 1 else k) cs in
      let (reach, hear, on) =
        gather_each-AreGathered p r (if is_sub c then k + 1 else k) cs hp hs known in
      if_cases (AreGathered r) (is_sub c) _ _
        (λ sub. (
          (
            inl (push_connect, refl, refl, show_nat (random k), refl, refl),
            Each-weaken (λ s h. inr h) cs' reach,
          ),
          (
            inl (push_connect, refl, refl, show_nat (random k), refl, refl),
            Each-weaken (λ q h. inr h) rs hear,
          ),
          ((push_connect, refl, hs, p, refl, hp), on),
        ))
        (λ other.
          if_cases (AreGathered r) (is_pull c) _ _
            (λ pull. (
              (some_right _ rs (r ∷ []) (inl (push_connect, refl, hs, p, refl, hp)), reach),
              Each-weaken (λ q h. inr h) rs hear,
              on,
            ))
            (λ neither. elim one [ inl pull ↦ cc | inr sub ↦ cc ]))

  -- The last router hears one of the senders, when there are any.
  gather_each-heard :
      (p : Str) (r : Component) (k : ℕ) (c : Component) (cs : List Component)
      → r.port_in ≡ some p
      → r.socket_in ≡ some pull_bind
      → IsKnown c
      → let out = gather_each random (some p) k (c ∷ cs) in
        SomeOf (λ s. Linked s r) (out.0 ++ out.1)
  unfolding SomeOf Linked gather_each send router paired get_random_port IsKnown
  gather_each-heard p r k c cs hp hs one =
      let (cs', rs, k') = gather_each random (some p) (if is_sub c then k + 1 else k) cs in
      if_cases {A = List Component × List Component × ℕ}
        (λ out. SomeOf (λ s. Linked s r) (out.0 ++ out.1)) (is_sub c) _ _
        (λ sub. inr (some_right _ cs' _ (inl (push_connect, refl, hs, p, refl, hp))))
        (λ other.
          if_cases {A = List Component × List Component × ℕ}
            (λ out. SomeOf (λ s. Linked s r) (out.0 ++ out.1)) (is_pull c) _ _
            (λ pull. inl (push_connect, refl, hs, p, refl, hp))
            (λ neither. elim one [ inl pull ↦ cc | inr sub ↦ cc ]))

  -- Whether or not there is a layer of routers in front of the last one, `r`, of rule 8.
  gathered_join :
      (r : Component) (rs : List Component) (w : Wiring)
      → w.router_layers ≡ []
      → Each (IsHeard (rs ++ r ∷ [])) w.last_layer.components
      → Each (Hears w.last_layer.components) rs
      → Each (λ q. Linked q r) rs
      → Hears (w.last_layer.components ++ rs) r
      → IsJoined (r ∷ []) w.layer.components
      → JoinsIn (add_routers (r ∷ []) 0 (add_some_routers random rs w))
  unfolding JoinsIn AreInOrder components_of add_routers add_some_routers IsJoined Each SomeOf
  gathered_join r [] w none_yet reach hear on heard (hear', (heard', _)) =
      let cs = w.last_layer.components in
      let ds = w.layer.components in
      let first : Hears cs r = subst (λ l. Hears l r) (append-nil cs) heard in
      rw none_yet (
        (first, tt),
        Each-weaken (λ s. some_left (Linked s) (r ∷ []) ds) cs reach,
        (Each-weaken (λ d. some_right _ cs (r ∷ [])) ds hear', (heard', tt)),
      )
  gathered_join r (q ∷ rs) w none_yet reach hear on heard (hear', (heard', _)) =
      let cs = w.last_layer.components in
      let ds = w.layer.components in
      let qs = q ∷ rs in
      rw none_yet (
        hear,
        Each-weaken (λ s. some_left (Linked s) (qs ++ r ∷ []) ds) cs reach,
        (
          (heard, tt),
          Each-weaken (λ s l. inl l) qs on,
          (Each-weaken (λ d. some_right _ (cs ++ qs) (r ∷ [])) ds hear', (heard', tt)),
        ),
      )

  pub rule8-JoinsIn :
      (i j n k : ℕ) (c : Component) (cs : List Component) (d : Component) (ds : List Component)
      → Each IsKnown (c ∷ cs)
      → JoinsIn (rule8 random (unwired i (c ∷ cs) j (d ∷ ds) n k))
  unfolding rule8 unwired on_last on_layer listen get_random_port router Linked paired AreGathered
      Each
  rule8-JoinsIn i j n k c cs d ds known =
      let p_in = show_nat (random k) in
      let p_out = show_nat (random (k + 1)) in
      let r = router (codes "BaseReduceRouter") pull_bind push_bind (some p_in) (some p_out) in
      let (cs', rs, k') = gather_each random (some p_in) (k + 2) (c ∷ cs) in
      let (reach, hear, on) = gather_each-AreGathered p_in r (k + 2) (c ∷ cs) refl refl known in
      gathered_join r rs _ refl reach hear on
        (gather_each-heard p_in r (k + 2) c cs refl refl (known.0))
        (join_all r _
          (Each-map (Linked r) (listen pull_connect (some p_out))
            (λ d. (push_bind, refl, refl, p_out, refl, refl)) (d ∷ ds))
          (inl (push_bind, refl, refl, p_out, refl, refl)))
