-- ===== src/Indexer/Offering.antt =====
-- gnes/indexer/chunk/hbindexer/hbindexer.pyx: an entry offered to the results.
use gnes.Prelude.{
  ℕ, zero, suc, ◌+◌, ◌≤◌, ◌<◌, ◌≡◌, refl, sym, ap, ◌∙◌, Bool, true, false, List, [], ◌∷◌,
  ℕ_discrete, ltb, nat_eq, arith, length, length-set, set, if_cases, if◌then◌else◌, Each,
  Each-weaken,
}
use gnes.Indexer.Results.{ResNode, node_at, dist_at, heap_push, max_heapify, offer}
use gnes.Indexer.Sifting.{
  parent, AreOrdered, dist_at-set_ne, heap_push-AreOrdered, AreOrdered-first,
}
use gnes.Indexer.Tally.{count_if, tally, one_if, tally-set, tally-heap_push, length-heap_push}
use gnes.Indexer.Sinking.{IsSunk, max_heapify-AreOrdered, tally-max_heapify, length-max_heapify}

-- The list of results has room for `top_k`. Its first nodes are a heap; with the entries that were
-- dropped they are the entries offered, each as often; and an entry is dropped only when the list
-- is full, and when it is not nearer than the first node.
pub record Holds (top_k : ℕ) (found : List ResNode × ℕ) (entries : List ResNode) : Type 0 where
  pub heap : AreOrdered found.0 found.1
  pub room : top_k ≤ length found.0
  pub number : found.1 ≤ top_k
  pub dropped : List ResNode
  pub same :
      (f : ResNode → Bool) → tally f found.0 found.1 + count_if f dropped ≡ count_if f entries
  pub far : Each (λ d. dist_at found.0 0 ≤ d.dist) dropped
  pub full : found.1 < top_k → dropped ≡ []

tally_zero :
    (f : ResNode → Bool) (ret : List ResNode) (n : ℕ)
    → ((i : ℕ) → i < n → f (node_at ret i) ≡ false)
    → tally f ret n ≡ 0
unfolding tally
tally_zero f ret zero h = refl
tally_zero f ret (suc n) h =
    rw (h n (omega arith)) (omega (arith, tally_zero f ret n (λ i lt. h i (omega arith))))

no_one : (b : Bool) (m : ℕ) → m + one_if b ≡ 0 → b ≡ false
no_one true m h = absurd (omega arith)
no_one false m h = refl

tally_none :
    (f : ResNode → Bool) (ret : List ResNode) (n i : ℕ)
    → tally f ret n ≡ 0
    → i < n
    → f (node_at ret i) ≡ false
unfolding tally
tally_none f ret zero i h lt = absurd (omega arith)
tally_none f ret (suc n) i h lt = elim (ℕ_discrete i n) [
  | yes e ↦ ap (λ k. f (node_at ret k)) e ∙ no_one (f (node_at ret n)) (tally f ret n) h
  | no ne ↦ tally_none f ret n i (omega arith) (omega arith)
]

-- The test for a node farther than `b`.
abbrev is_farther : ℕ → ResNode → Bool
is_farther b node = ltb b node.dist

not_farther : (b d : ℕ) → d ≤ b → ltb b d ≡ false
not_farther b d h = ground arith

within : (b d : ℕ) → ltb b d ≡ false → d ≤ b
within b d h = ground arith

module _ (top_k : ℕ) (node : ResNode) (ret : List ResNode) (count : ℕ) (entries : List ResNode)
    (h : Holds top_k (ret, count) entries) where
  push-Holds : count < top_k → Holds top_k (heap_push ret node count, count + 1) (node ∷ entries)
  unfolding count_if Each
  push-Holds lt = record {
    heap = heap_push-AreOrdered ret node count (omega (arith, h.room)) h.heap;
    room = omega (arith, h.room, length-heap_push ret node count);
    number = omega arith;
    dropped = [];
    same = λ f. omega (
      arith,
      tally-heap_push f ret node count (omega (arith, h.room)),
      h.same f,
      ap (count_if f) (h.full lt),
    );
    far = tt;
    full = λ _. refl;
  }

  keep-Holds : count ≡ top_k → dist_at ret 0 ≤ node.dist → Holds top_k (ret, count) (node ∷ entries)
  unfolding count_if Each
  keep-Holds e far = record {
    heap = h.heap;
    room = h.room;
    number = h.number;
    dropped = node ∷ h.dropped;
    same = λ f. omega (arith, h.same f);
    far = (far, h.far);
    full = λ lt. absurd (omega arith);
  }

  -- What `max_heapify` is called on.
  root-IsSunk : 0 < count → IsSunk (set ret 0 node) count 0
  unfolding AreOrdered
  root-IsSunk pos = record {
    others = λ i pi lt ne. omega (
      arith,
      h.heap i pi lt,
      dist_at-set_ne ret 0 i node (omega arith),
      dist_at-set_ne ret 0 (parent i) node (λ e. ne (sym e)),
    );
    across = λ i pi lt e p. absurd (omega arith);
  }

  -- No node of the list is farther than its first one.
  none_farther : tally (is_farther (dist_at ret 0)) ret count ≡ 0
  unfolding dist_at
  none_farther = tally_zero (is_farther (dist_at ret 0)) ret count (λ i lt.
      not_farther (dist_at ret 0) (dist_at ret i)
        (AreOrdered-first i ret count i (omega arith) lt h.heap))

  nearer_root :
      (ret' : List ResNode)
      → 0 < count
      → node.dist < dist_at ret 0
      → tally (is_farther (dist_at ret 0)) ret' count
          + one_if (is_farther (dist_at ret 0) (node_at ret 0))
        ≡ tally (is_farther (dist_at ret 0)) ret count + one_if (is_farther (dist_at ret 0) node)
      → dist_at ret' 0 ≤ dist_at ret 0
  unfolding dist_at
  nearer_root ret' pos nearer e =
      let zero_now : tally (is_farther (dist_at ret 0)) ret' count ≡ 0 =
        omega (
          arith,
          e,
          none_farther,
          ap one_if (not_farther (dist_at ret 0) node.dist (omega arith)),
        ) in
      within (dist_at ret 0) (dist_at ret' 0)
        (tally_none (is_farther (dist_at ret 0)) ret' count 0 zero_now pos)

  replace-Holds :
      0 < count
      → count ≡ top_k
      → node.dist < dist_at ret 0
      → Holds top_k (max_heapify count (set ret 0 node) 0 count, count) (node ∷ entries)
  unfolding count_if Each dist_at
  replace-Holds pos e nearer =
      let room : count ≤ length (set ret 0 node) = omega (arith, h.room, length-set ret 0 node) in
      let tallies : (f : ResNode → Bool)
          → tally f (max_heapify count (set ret 0 node) 0 count) count + one_if (f (node_at ret 0))
            ≡ tally f ret count + one_if (f node) =
        λ f. omega (
          arith,
          tally-max_heapify f count (set ret 0 node) 0 count pos room,
          tally-set f ret 0 node count pos (omega (arith, h.room)),
        ) in
      let closer =
        nearer_root (max_heapify count (set ret 0 node) 0 count) pos nearer
          (tallies (is_farther (dist_at ret 0))) in
      record {
        heap =
            max_heapify-AreOrdered count (set ret 0 node) count 0 (omega arith) room
              (root-IsSunk pos);
        room = omega (
          arith,
          h.room,
          length-set ret 0 node,
          length-max_heapify count (set ret 0 node) 0 count,
        );
        number = h.number;
        dropped = node_at ret 0 ∷ h.dropped;
        same = λ f. omega (arith, h.same f, tallies f);
        far = (closer, Each-weaken (λ d le. omega arith) h.dropped h.far);
        full = λ lt. absurd (omega arith);
      }

full_count : (a b : ℕ) → ltb a b ≡ false → a ≤ b → a ≡ b
full_count a b h le = ground arith

pub offer-Holds :
    (top_k : ℕ) (node : ResNode) (found : List ResNode × ℕ) (entries : List ResNode)
    → 0 < top_k
    → Holds top_k found entries
    → Holds top_k (offer top_k node found) (node ∷ entries)
unfolding offer
offer-Holds top_k node (ret, count) entries pos h =
    if_cases {A = List ResNode × ℕ} (λ r. Holds top_k r (node ∷ entries)) (ltb count top_k)
      (heap_push ret node count, count + 1)
      (if ltb node.dist (dist_at ret 0)
        then (max_heapify count (set ret 0 node) 0 count, count)
        else (ret, count))
      (λ lt. push-Holds top_k node ret count entries h (ground arith))
      (λ full.
        let e = full_count count top_k full h.number in
        if_cases {A = List ResNode × ℕ} (λ r. Holds top_k r (node ∷ entries))
          (ltb node.dist (dist_at ret 0)) (max_heapify count (set ret 0 node) 0 count, count)
          (ret, count)
          (λ lt. replace-Holds top_k node ret count entries h (omega arith) e (ground arith))
          (λ ge. keep-Holds top_k node ret count entries h e (ground arith)))
