-- ===== src/Indexer/Results.antt =====
-- gnes/indexer/chunk/hbindexer/hbindexer.pyx: the heap of the results of a query, and the query.
use gnes.Prelude.{
  ℕ, zero, suc, ◌+◌, ◌-◌, ◌*◌, ◌/◌, ◌&&◌, Option, none, some, List, [], ◌∷◌, ◌++◌, nat_eq, ◌==◌,
  ltb, get_elem?, set, length, get_or, take, drop, if◌then◌else◌,
}
use gnes.Indexer.Hamming.{bytes_to_uint, bytes_to_ushort, vec_distance}
use gnes.Indexer.Buckets.{Bucket, IndexCore, entry_size}

-- `res_node`
pub record ResNode : Type 0 where
  pub doc_id : ℕ
  pub off_set : ℕ
  pub weight : ℕ
  pub dist : ℕ

abbrev pub zero_node : ResNode
zero_node = record { doc_id = 0; off_set = 0; weight = 0; dist = 0 }

-- `ret[i]`
unfoldable pub node_at : List ResNode → ℕ → ResNode
node_at ret i = get_or ret i zero_node

unfoldable pub dist_at : List ResNode → ℕ → ℕ
unfolding node_at
dist_at ret i = (node_at ret i).dist

-- The larger of a node and a child that is in the heap.
unfoldable pub larger : List ResNode → ℕ → ℕ → ℕ → ℕ
unfolding dist_at
larger ret count child largest =
    if ltb child count && ltb (dist_at ret largest) (dist_at ret child) then child else largest

-- The four fields of two nodes are swapped.
unfoldable pub swap : List ResNode → ℕ → ℕ → List ResNode
unfolding node_at
swap ret i j = set (set ret i (node_at ret j)) j (node_at ret i)

-- `max_heapify`, on fuel for the depth of its recursion.
unfoldable pub max_heapify : ℕ → List ResNode → ℕ → ℕ → List ResNode
unfolding larger swap nat_eq
max_heapify zero ret loc count = ret
max_heapify (suc fuel) ret loc count =
    let largest = larger ret count (2 * loc + 2) (larger ret count (2 * loc + 1) loc) in
    let rest = max_heapify fuel (swap ret loc largest) largest count in
    if largest == loc then ret else rest

-- The loop of `heap_push` that moves smaller parents down; `index` bounds its rounds.
unfoldable pub sift_up : ℕ → List ResNode → ℕ → ResNode → List ResNode
unfolding node_at dist_at
sift_up zero ret index node = set ret index node
sift_up (suc fuel) ret index node =
    let parent = (index - 1) / 2 in
    let rest = sift_up fuel (set ret index (node_at ret parent)) parent node in
    if ltb (dist_at ret parent) node.dist && ltb 0 index then rest else set ret index node

-- `heap_push`
unfoldable pub heap_push : List ResNode → ResNode → ℕ → List ResNode
unfolding sift_up nat_eq
heap_push ret node count = if count == 0 then set ret 0 node else sift_up count ret count node

-- The entry that `vec` points to, at distance `dist`.
unfoldable pub entry_at : List ℕ → ℕ → ResNode
unfolding bytes_to_uint bytes_to_ushort
entry_at vec dist = record {
  doc_id = bytes_to_uint vec;
  off_set = bytes_to_ushort (drop 4 vec);
  weight = bytes_to_ushort (drop 6 vec);
  dist = dist;
}

-- The dynamic update of the result list by an entry: the list and the number of its results.
unfoldable pub offer : ℕ → ResNode → List ResNode × ℕ → List ResNode × ℕ
unfolding heap_push max_heapify dist_at
offer top_k node (ret, count) =
    if ltb count top_k
    then (heap_push ret node count, count + 1)
    else if ltb node.dist (dist_at ret 0)
    then (max_heapify count (set ret 0 node) 0 count, count)
    else (ret, count)

-- The loop over the entries of a bucket; `vec` moves on by an entry.
unfoldable pub scan : ℕ → ℕ → List ℕ → ℕ → List ℕ → List ResNode × ℕ → List ResNode × ℕ
unfolding offer entry_at vec_distance entry_size
scan top_k n_bytes query zero vec found = found
scan top_k n_bytes query (suc n) vec found =
    scan top_k n_bytes query n (drop (entry_size n_bytes) vec)
      (offer top_k (entry_at vec (vec_distance (take n_bytes (drop 8 vec)) query)) found)

-- The loop over the slots of a query: `none` is an access out of range.
unfoldable pub scan_slots :
    ℕ → ℕ → List ℕ → List ℕ → List (List Bucket) → List ResNode × ℕ → Option (List ResNode × ℕ)
unfolding scan bytes_to_uint
scan_slots top_k n_bytes query clusters [] found = some found
scan_slots top_k n_bytes query clusters (row ∷ rows) found =
    elim (get_elem? row (bytes_to_uint clusters)) [
      | none ↦ none
      | some b ↦
          scan_slots top_k n_bytes query (drop 4 clusters) rows
            (scan top_k n_bytes query b.data_num b.bytes found)
    ]

-- The results of a query: all `top_k` nodes of the list, with the number of the query.
unfoldable pub report : ℕ → ℕ → List ResNode → List (ResNode × ℕ)
unfolding node_at
report q zero ret = []
report q (suc top_k) ret = report q top_k ret ++ (node_at ret top_k, q) ∷ []

-- The loop over the queries from `q` on. The list `ret` is not cleared between them.
unfoldable pub query_from :
    ℕ
    → ℕ
    → ℕ
    → ℕ
    → List ℕ
    → List ℕ
    → List (List Bucket)
    → List ResNode
    → Option (List (ResNode × ℕ))
unfolding scan_slots report
query_from top_k n_bytes q zero vectors clusters core ret = some []
query_from top_k n_bytes q (suc n) vectors clusters core ret =
    elim (scan_slots top_k n_bytes (take n_bytes vectors) clusters core (ret, 0)) [
      | none ↦ none
      | some (ret', count) ↦
          elim (query_from top_k n_bytes (q + 1) n (drop n_bytes vectors)
            (drop (4 * length core) clusters) core ret') [
              | none ↦ none
              | some rest ↦ some (report q top_k ret' ++ rest)
            ]
    ]

-- `query` of `n` vectors; `ret` is what the allocated list holds at first.
unfoldable pub query_core :
    IndexCore → ℕ → ℕ → List ℕ → List ℕ → List ResNode → Option (List (ResNode × ℕ))
unfolding query_from
query_core c n top_k vectors clusters ret =
    query_from top_k c.n_bytes 0 n vectors clusters c.core ret
