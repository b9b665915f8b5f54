-- ===== src/Composer/Links.antt =====
-- gnes/composer/base.py: when the components of a graph reach each other.
use gnes.Prelude.{
  ◌≡◌, some, List, [], ◌∷◌, ◌++◌, map, Str, inl, inr, Each, SomeOf, Each-weaken, Each-append,
  some_left, some_right,
}
use gnes.Service.Socket.{SocketType, paired}
use gnes.Composer.Layers.{Component}

-- A sender's socket is the counterpart of the receiver's, and both are on one port.
unfoldable pub Linked : Component → Component → Type 0
Linked s r =
    (k : SocketType) × (s.socket_out ≡ some k)
    × (r.socket_in ≡ some (paired k))
    × (p : Str) × (s.port_out ≡ some p)
    × (r.port_in ≡ some p)

-- Every receiver hears a sender, and every sender is heard.
unfoldable pub IsJoined : List Component → List Component → Type 0
unfolding Each SomeOf Linked
IsJoined ss rs = Each (λ r. SomeOf (λ s. Linked s r) ss) rs × Each (λ s. SomeOf (Linked s) rs) ss

pub join_append :
    (a b c d : List Component) → IsJoined a b → IsJoined c d → IsJoined (a ++ c) (b ++ d)
unfolding IsJoined
join_append a b c d (hear, heard) (hear', heard') = (
  Each-append _ b d (Each-weaken (λ r. some_left _ a c) b hear)
      (Each-weaken (λ r. some_right _ a c) d hear'),
  Each-append _ a c (Each-weaken (λ s. some_left _ b d) a heard)
      (Each-weaken (λ s. some_right _ b d) c heard'),
)

-- One sender and what all receivers have in common with it.
pub join_fan :
    (s r : Component) (rs : List Component) → Each (Linked s) (r ∷ rs) → IsJoined (s ∷ []) (r ∷ rs)
unfolding IsJoined Each SomeOf
join_fan s r rs e = (Each-weaken (λ r l. inl l) (r ∷ rs) e, (inl (e.0), tt))

pub join_all :
    (s : Component) (rs : List Component)
    → Each (Linked s) rs
    → SomeOf (Linked s) rs
    → IsJoined (s ∷ []) rs
unfolding IsJoined Each SomeOf
join_all s rs e h = (Each-weaken (λ r l. inl l) rs e, (h, tt))

-- One sender, and receivers that two functions have set up for it.
module _ (s : Component) (f g : Component → Component) where
  pub Linked-map :
      ((d : Component) → Linked s (f (g d)))
      → (ds : List Component) → Each (Linked s) (map f (map g ds))
  unfolding Each
  Linked-map h [] = tt
  Linked-map h (d ∷ ds) = (h d, Linked-map h ds)

  pub join_map :
      ((d : Component) → Linked s (f (g d)))
      → (d : Component) (ds : List Component) → IsJoined (s ∷ []) (map f (map g (d ∷ ds)))
  unfolding Each
  join_map h d ds = join_fan s (f (g d)) (map f (map g ds)) (h d, Linked-map h ds)

-- Senders and receivers one to one.
unfoldable pub AreLinked : List Component → List Component → Type 0
unfolding Linked
AreLinked [] [] = Unit
AreLinked [] (r ∷ rs) = ⊥
AreLinked (s ∷ ss) [] = ⊥
AreLinked (s ∷ ss) (r ∷ rs) = Linked s r × AreLinked ss rs

pub join_zip : (ss rs : List Component) → AreLinked ss rs → IsJoined ss rs
unfolding IsJoined Each SomeOf AreLinked
join_zip [] [] l = (tt, tt)
join_zip [] (r ∷ rs) l = elim l [ ]
join_zip (s ∷ ss) [] l = elim l [ ]
join_zip (s ∷ ss) (r ∷ rs) (l, ls) =
    let (hear, heard) = join_zip ss rs ls in
    ((inl l, Each-weaken (λ r' h. inr h) rs hear), (inl l, Each-weaken (λ s' h. inr h) ss heard))
