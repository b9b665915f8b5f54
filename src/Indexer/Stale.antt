-- ===== src/Indexer/Stale.antt =====
-- gnes/indexer/chunk/hbindexer/hbindexer.pyx: how many results a query finds, and what the list
-- holds past them.
use gnes.Prelude.{
  ℕ, zero, suc, ◌+◌, ◌-◌, ◌*◌, ◌/◌, ◌≤◌, ◌<◌, min, ◌≡◌, refl, ◌∙◌, false, ◌&&◌, List, ltb, nat_eq,
  ◌==◌, arith, get_elem?, set, get_elem?-set_ne, drop, take, if_cases,
}
use gnes.Indexer.Hamming.{vec_distance}
use gnes.Indexer.Buckets.{entry_size}
use gnes.Indexer.Results.{
  ResNode, node_at, dist_at, larger, swap, max_heapify, sift_up, heap_push, entry_at, offer, scan,
}

sift_up_past :
    (fuel : ℕ) (ret : List ResNode) (index i : ℕ) (node : ResNode)
    → index < i
    → get_elem? (sift_up fuel ret index node) i ≡ get_elem? ret i
unfolding sift_up
sift_up_past zero ret index i node h = get_elem?-set_ne ret node (omega arith)
sift_up_past (suc fuel) ret index i node h =
    if_cases (λ r. get_elem? r i ≡ get_elem? ret i)
      (ltb (dist_at ret ((index - 1) / 2)) node.dist && ltb 0 index) _ _
      (λ _.
        sift_up_past fuel _ ((index - 1) / 2) i node (omega arith)
        ∙ get_elem?-set_ne ret _ (omega arith))
      (λ _. get_elem?-set_ne ret node (omega arith))

larger_lt :
    (ret : List ResNode) (count child largest : ℕ)
    → largest < count
    → larger ret count child largest < count
unfolding larger
larger_lt ret count child largest h = ground arith

swap_past :
    (ret : List ResNode) (a b i : ℕ) → a < i → b < i → get_elem? (swap ret a b) i ≡ get_elem? ret i
unfolding swap
swap_past ret a b i ha hb =
    get_elem?-set_ne (set ret a (node_at ret b)) {i = b} {j = i} (node_at ret a) (omega arith)
    ∙ get_elem?-set_ne ret {i = a} {j = i} (node_at ret b) (omega arith)

max_heapify_past :
    (fuel : ℕ) (ret : List ResNode) (loc count i : ℕ)
    → loc < count
    → count ≤ i
    → get_elem? (max_heapify fuel ret loc count) i ≡ get_elem? ret i
unfolding max_heapify swap
max_heapify_past zero ret loc count i h k = refl
max_heapify_past (suc fuel) ret loc count i h k =
    let largest = larger ret count (2 * loc + 2) (larger ret count (2 * loc + 1) loc) in
    let below =
      larger_lt ret count (2 * loc + 2) (larger ret count (2 * loc + 1) loc)
        (larger_lt ret count (2 * loc + 1) loc h) in
    if_cases (λ r. get_elem? r i ≡ get_elem? ret i) (largest == loc) _ _ (λ _. refl)
      (λ _.
        max_heapify_past fuel _ largest count i below k
        ∙ swap_past ret loc largest i (omega arith) (omega arith))

-- What `offer` leaves of a list with `count` results: one more up to `top_k`, and nothing changed
-- past them.
offer_count :
    (top_k : ℕ) (node : ResNode) (ret : List ResNode) (count : ℕ)
    → count ≤ top_k
    → (offer top_k node (ret, count)).1 ≡ min top_k (count + 1)
unfolding offer
offer_count top_k node ret count h = ground arith

not_below : (a b : ℕ) → ltb a b ≡ false → b ≤ a
not_below a b h = ground arith

heap_push_past :
    (ret : List ResNode) (node : ResNode) (count i : ℕ)
    → count < i
    → get_elem? (heap_push ret node count) i ≡ get_elem? ret i
unfolding heap_push
heap_push_past ret node count i h =
    if_cases (λ r. get_elem? r i ≡ get_elem? ret i) (count == 0) _ _
      (λ _. get_elem?-set_ne ret node (omega arith)) (λ _. sift_up_past count ret count i node h)

offer_past :
    (top_k : ℕ) (node : ResNode) (ret : List ResNode) (count i : ℕ)
    → 0 < top_k
    → (offer top_k node (ret, count)).1 ≤ i
    → get_elem? (offer top_k node (ret, count)).0 i ≡ get_elem? ret i
unfolding offer
offer_past top_k node ret count i t =
    if_cases {A = List ResNode × ℕ} (λ r. r.1 ≤ i → get_elem? r.0 i ≡ get_elem? ret i)
      (ltb count top_k) _ _ (λ _ k. heap_push_past ret node count i (omega arith))
      (λ full.
        if_cases {A = List ResNode × ℕ} (λ r. r.1 ≤ i → get_elem? r.0 i ≡ get_elem? ret i)
          (ltb node.dist (dist_at ret 0)) _ _
          (λ _ k.
            let room = not_below count top_k full in
            max_heapify_past count (set ret 0 node) 0 count i (omega arith) k
            ∙ get_elem?-set_ne ret {i = 0} {j = i} node (omega arith))
          (λ _ k. refl))

-- The results found by a scan of `n` entries, and the rest of the list.
scan_found :
    (top_k n_bytes : ℕ) (query : List ℕ) (n : ℕ) (vec : List ℕ) (ret : List ResNode) (count : ℕ)
    → 0 < top_k
    → count ≤ top_k
    → let out = scan top_k n_bytes query n vec (ret, count) in
      (out.1 ≡ min top_k (count + n))
      × ((i : ℕ) → min top_k (count + n) ≤ i → get_elem? out.0 i ≡ get_elem? ret i)
unfolding scan
scan_found top_k n_bytes query zero vec ret count t h = (omega arith, λ i k. refl)
scan_found top_k n_bytes query (suc n) vec ret count t h =
    let node = entry_at vec (vec_distance (take n_bytes (drop 8 vec)) query) in
    let (ret', count') = offer top_k node (ret, count) in
    let found = offer_count top_k node ret count h in
    let (total, past) =
      scan_found top_k n_bytes query n (drop (entry_size n_bytes) vec) ret' count' t
        (omega arith) in
    (
      omega (arith, total, found),
      λ i k.
          past i (omega (arith, found))
          ∙ offer_past top_k node ret count i t (omega (arith, found)),
    )

-- A scan of `n` entries finds `n` more results, up to `top_k`, and what the list holds past them
-- stays: these are nodes of an earlier query, or what the memory held.
pub scan_past :
    (top_k n_bytes : ℕ) (query : List ℕ) (n : ℕ) (vec : List ℕ) (ret : List ResNode) (count i : ℕ)
    → 0 < top_k
    → count ≤ top_k
    → min top_k (count + n) ≤ i
    → ((scan top_k n_bytes query n vec (ret, count)).1 ≡ min top_k (count + n))
      × (get_elem? (scan top_k n_bytes query n vec (ret, count)).0 i ≡ get_elem? ret i)
scan_past top_k n_bytes query n vec ret count i t h k =
    let (total, past) = scan_found top_k n_bytes query n vec ret count t h in (total, past i k)
