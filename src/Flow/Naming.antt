-- ===== src/Flow/Naming.antt =====
-- gnes/flow/__init__.py: the names of edges, which `_build_graph` splits and counts by their ends.
use gnes.Prelude.{
  ◌≡◌, refl, ap, Bool, true, false, ◌&&◌, ◌||◌, some, [], ◌∷◌, Str, ◌==◌, nat_eq, str_eq,
  starts_with,
}
use gnes.Flow.Graph.{edge_name, has_dash, split_at_dash, only_two, split_edge}

or_false : (a b : Bool) → a || b ≡ false → (a ≡ false) × (b ≡ false)
or_false false b h = (refl, h)
or_false true b h = absurd (cc)

split_at_dash-edge_name :
    (s t : Str) → has_dash s ≡ false → split_at_dash (edge_name s t) ≡ some (s, t)
unfolding split_at_dash edge_name has_dash nat_eq
split_at_dash-edge_name [] t h = refl
split_at_dash-edge_name (c ∷ s) t h =
    let parts = or_false (c == b'-') (has_dash s) h in
    rw (parts.0, split_at_dash-edge_name s t parts.1)

-- An edge's name is split into the services it joins, where neither name has a dash.
pub split_edge-edge_name :
    (s t : Str) → has_dash s ≡ false → has_dash t ≡ false → split_edge (edge_name s t) ≡ some (s, t)
unfolding split_edge only_two
split_edge-edge_name s t hs ht = rw (split_at_dash-edge_name s t hs, ht)

-- A name without a dash is a prefix of an edge's name exactly where it is one of the start's: the
-- count of the edges with the same start also counts those of the services named further.
pub starts_with-edge_name :
    (s a t : Str) → has_dash s ≡ false → starts_with s (edge_name a t) ≡ starts_with s a
unfolding starts_with edge_name has_dash nat_eq
starts_with-edge_name [] a t h = refl
starts_with-edge_name (c ∷ s) [] t h = rw ((or_false (c == b'-') (has_dash s) h).0)
starts_with-edge_name (c ∷ s) (d ∷ a) t h =
    ap (λ b. (c == d) && b) (starts_with-edge_name s a t (or_false (c == b'-') (has_dash s) h).1)
