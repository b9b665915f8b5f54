-- ===== src/Flow/Graph/Edges.antt =====
-- gnes/flow/__init__.py: the edges that `_build_graph` collects, by their names.
use gnes.Prelude.{
  ℕ, suc, Bool, false, ◌||◌, Option, none, some, List, [], ◌∷◌, ◌++◌, Str, codes, ◌==◌, str_eq,
  nat_eq, Dict, insert, starts_with, ends_with, if◌then◌else◌,
}
use gnes.Flow.Data.{Node, EdgeType, unset}

-- `BaseService.default_host`
abbrev pub default_host : Str
default_host = codes "0.0.0.0"

-- `'%s-%s' % (s, k)`
unfoldable pub edge_name : Str → Str → Str
edge_name s t = s ++ b'-' ∷ t

-- `k.split('-')`, where it has two parts.
unfoldable pub has_dash : Str → Bool
unfolding nat_eq
has_dash [] = false
has_dash (c ∷ s) = c == b'-' || has_dash s

unfoldable pub split_at_dash : Str → Option (Str × Str)
unfolding nat_eq
split_at_dash [] = none
split_at_dash (c ∷ s) =
    let rest = split_at_dash s in
    if c == b'-' then some ([], s) else elim rest [ none ↦ none | some (a, b) ↦ some (c ∷ a, b) ]

unfoldable pub only_two : Option (Str × Str) → Option (Str × Str)
unfolding has_dash
only_two none = none
only_two (some (a, b)) = if has_dash b then none else some (a, b)

unfoldable pub split_edge : Str → Option (Str × Str)
unfolding split_at_dash only_two
split_edge k = only_two (split_at_dash k)

unfoldable pub add_in_edges : List Str → Str → Dict Str EdgeType → Dict Str EdgeType
unfolding edge_name
add_in_edges [] k edges = edges
add_in_edges (s ∷ l) k edges = add_in_edges l k (insert (edge_name s k) unset edges)

unfoldable pub add_out_edges : Str → List Str → Dict Str EdgeType → Dict Str EdgeType
unfolding edge_name
add_out_edges k [] edges = edges
add_out_edges k (t ∷ l) edges = add_out_edges k l (insert (edge_name k t) unset edges)

-- `build all edges`
unfoldable pub all_edges : Dict Str Node → Dict Str EdgeType → Dict Str EdgeType
unfolding add_in_edges add_out_edges
all_edges [] edges = edges
all_edges ((k, v) ∷ nodes) edges =
    all_edges nodes (add_out_edges k v.outgoings (add_in_edges v.incomes k edges))

unfoldable pub count_start : Str → List Str → ℕ
unfolding starts_with
count_start p [] = 0
count_start p (ed ∷ l) = let rest = count_start p l in if starts_with p ed then suc rest else rest

unfoldable pub count_end : Str → List Str → ℕ
unfolding ends_with
count_end p [] = 0
count_end p (ed ∷ l) = let rest = count_end p l in if ends_with p ed then suc rest else rest
