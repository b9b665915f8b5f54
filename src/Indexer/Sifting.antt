-- ===== src/Indexer/Sifting.antt =====
-- gnes/indexer/chunk/hbindexer/hbindexer.pyx: `heap_push` keeps the order of the heap.
use gnes.Prelude.{
  ℕ, zero, suc, ◌+◌, ◌-◌, ◌/◌, ◌≤◌, ◌<◌, ◌≢◌, ◌≡◌, refl, sym, ap, true, false, ◌&&◌, List, [], ◌∷◌,
  ltb, nat_eq, ◌==◌, eq_of_==, arith, length, length-set, set, if_cases, ℕ_discrete,
}
use gnes.Indexer.Results.{ResNode, node_at, dist_at, sift_up, heap_push}

dist_at-set_self :
    (ret : List ResNode) (i : ℕ) (v : ResNode) → i < length ret → dist_at (set ret i v) i ≡ v.dist
unfolding dist_at node_at
dist_at-set_self [] i v h = omega arith
dist_at-set_self (x ∷ xs) zero v h = refl
dist_at-set_self (x ∷ xs) (suc i) v h = dist_at-set_self xs i v (omega arith)

pub dist_at-set_ne :
    (ret : List ResNode) (i j : ℕ) (v : ResNode) → i ≢ j → dist_at (set ret i v) j ≡ dist_at ret j
unfolding dist_at node_at
dist_at-set_ne [] i j v h = refl
dist_at-set_ne (x ∷ xs) zero zero v h = absurd (h refl)
dist_at-set_ne (x ∷ xs) zero (suc j) v h = refl
dist_at-set_ne (x ∷ xs) (suc i) zero v h = refl
dist_at-set_ne (x ∷ xs) (suc i) (suc j) v h = dist_at-set_ne xs i j v (λ e. h (ap suc e))

-- The place of the parent.
abbrev pub parent : ℕ → ℕ
parent i = (i - 1) / 2

-- No node of the first `n` is farther than its parent.
unfoldable pub AreOrdered : List ResNode → ℕ → Type 0
AreOrdered ret n = (i : ℕ) → 0 < i → i < n → dist_at ret i ≤ dist_at ret (parent i)

-- The same, from the first node on; the first is taken for its own parent.
unfoldable pub IsHeap : List ResNode → ℕ → Type 0
IsHeap ret zero = Unit
IsHeap ret (suc n) = (dist_at ret n ≤ dist_at ret (parent n)) × IsHeap ret n

IsHeap-AreOrdered : (ret : List ResNode) (n : ℕ) → IsHeap ret n → AreOrdered ret n
unfolding AreOrdered IsHeap
IsHeap-AreOrdered ret zero h i pos lt = absurd (omega arith)
IsHeap-AreOrdered ret (suc n) (last, h) i pos lt = elim (ℕ_discrete i n) [
  | yes e ↦ omega (arith, last, ap (dist_at ret) e, ap (λ k. dist_at ret (parent k)) e)
  | no ne ↦ IsHeap-AreOrdered ret n h i pos (omega arith)
]

AreOrdered-IsHeap : (ret : List ResNode) (n : ℕ) → AreOrdered ret n → IsHeap ret n
unfolding AreOrdered IsHeap
AreOrdered-IsHeap ret zero h = tt
AreOrdered-IsHeap ret (suc zero) h = (omega arith, tt)
AreOrdered-IsHeap ret (suc (suc n)) h = (
  h (suc n) (omega arith) (omega arith),
  AreOrdered-IsHeap ret (suc n) (λ i pos lt. h i pos (omega arith)),
)

-- A heap but for the place `hole`, where a node at distance `d` may come.
record HasHole (ret : List ResNode) (n hole d : ℕ) : Type 0 where
  pub others :
      (i : ℕ) → 0 < i → i < n → i ≢ hole → parent i ≢ hole → dist_at ret i ≤ dist_at ret (parent i)
  pub below : (i : ℕ) → 0 < i → i < n → parent i ≡ hole → dist_at ret i ≤ d
  pub across :
      (i : ℕ)
      → 0 < i
      → i < n
      → parent i ≡ hole
      → 0 < hole
      → dist_at ret i ≤ dist_at ret (parent hole)

-- The node fits where its parent is not nearer.
fill-AreOrdered :
    (ret : List ResNode) (n hole : ℕ) (node : ResNode)
    → hole < n
    → n ≤ length ret
    → HasHole ret n hole node.dist
    → (0 < hole → node.dist ≤ dist_at ret (parent hole))
    → AreOrdered (set ret hole node) n
unfolding AreOrdered
fill-AreOrdered ret n hole node hn hl w fits i pos lt =
    let self = dist_at-set_self ret hole node (omega arith) in
    elim (ℕ_discrete i hole) [
      | yes e ↦ omega (
        arith,
        self,
        dist_at-set_ne ret hole (parent i) node (omega arith),
        ap (dist_at (set ret hole node)) e,
        ap (λ k. dist_at ret (parent k)) e,
        fits (omega arith),
      )
      | no ne ↦ elim (ℕ_discrete (parent i) hole) [
        | yes e ↦ omega (
          arith,
          self,
          dist_at-set_ne ret hole i node (λ q. ne (sym q)),
          ap (dist_at (set ret hole node)) e,
          w.below i pos lt e,
        )
        | no pe ↦ omega (
          arith,
          dist_at-set_ne ret hole i node (λ q. ne (sym q)),
          dist_at-set_ne ret hole (parent i) node (λ q. pe (sym q)),
          w.others i pos lt ne pe,
        )
      ]
    ]

-- A parent moves down, and the hole up.
module _ (ret : List ResNode) (n hole d : ℕ) (pos : 0 < hole) (hn : hole < n) (hl : n ≤ length ret)
    (nearer : dist_at ret (parent hole) < d) (w : HasHole ret n hole d) where
  abbrev moved : List ResNode
  moved = set ret hole (node_at ret (parent hole))

  moved_self : dist_at moved hole ≡ dist_at ret (parent hole)
  unfolding dist_at
  moved_self = dist_at-set_self ret hole (node_at ret (parent hole)) (omega arith)

  moved_ne : (i : ℕ) → i ≢ hole → dist_at moved i ≡ dist_at ret i
  moved_ne i ne = dist_at-set_ne ret hole i (node_at ret (parent hole)) (λ q. ne (sym q))

  moved_below :
      (i : ℕ) → 0 < i → i < n → parent i ≡ parent hole → dist_at moved i ≤ dist_at ret (parent hole)
  moved_below i pi lt e = elim (ℕ_discrete i hole) [
    | yes q ↦ omega (arith, moved_self, ap (dist_at moved) q)
    | no ne ↦ omega (arith, moved_ne i ne, ap (dist_at ret) e, w.others i pi lt ne (omega arith))
  ]

  move-HasHole : HasHole moved n (parent hole) d
  move-HasHole = record {
    others = λ i pi lt ne pe. elim (ℕ_discrete (parent i) hole) [
      | yes e ↦ omega (
        arith,
        moved_self,
        moved_ne i (omega arith),
        ap (dist_at moved) e,
        w.across i pi lt e pos,
      )
      | no ph ↦
          let nh : i ≢ hole = λ q. pe (ap parent q) in
          omega (arith, moved_ne i nh, moved_ne (parent i) ph, w.others i pi lt nh ph)
    ];
    below = λ i pi lt e. omega (arith, moved_below i pi lt e);
    across = λ i pi lt e pp. omega (
      arith,
      moved_below i pi lt e,
      moved_ne (parent (parent hole)) (omega arith),
      w.others (parent hole) pp (omega arith) (omega arith) (omega arith),
    );
  }

sift_up-AreOrdered :
    (fuel : ℕ) (ret : List ResNode) (n index : ℕ) (node : ResNode)
    → index ≤ fuel
    → index < n
    → n ≤ length ret
    → HasHole ret n index node.dist
    → AreOrdered (sift_up fuel ret index node) n
unfolding sift_up
sift_up-AreOrdered zero ret n index node f hn hl w =
    fill-AreOrdered ret n index node hn hl w (λ pos. absurd (omega arith))
sift_up-AreOrdered (suc fuel) ret n index node f hn hl w =
    if_cases (λ r. AreOrdered r n) (ltb (dist_at ret (parent index)) node.dist && ltb 0 index) _ _
      (λ h.
        let (nearer, pos) = goes_on h in
        sift_up-AreOrdered fuel (set ret index (node_at ret (parent index))) n (parent index) node
          (omega arith) (omega arith)
          (omega (arith, length-set ret index (node_at ret (parent index))))
          (move-HasHole ret n index node.dist pos hn hl nearer w))
      (λ h. fill-AreOrdered ret n index node hn hl w (λ pos. stops h pos))
  where
    goes_on :
        (ltb (dist_at ret (parent index)) node.dist && ltb 0 index) ≡ true
        → (dist_at ret (parent index) < node.dist) × (0 < index)
    goes_on h = ground arith

    stops :
        (ltb (dist_at ret (parent index)) node.dist && ltb 0 index) ≡ false
        → 0 < index
        → node.dist ≤ dist_at ret (parent index)
    stops h pos = ground arith

-- `heap_push` of a node behind the `count` nodes of a heap makes a heap of one more: where no node
-- was farther than its parent, none is after it.
pub heap_push-AreOrdered :
    (ret : List ResNode) (node : ResNode) (count : ℕ)
    → count < length ret
    → AreOrdered ret count
    → AreOrdered (heap_push ret node count) (count + 1)
unfolding heap_push AreOrdered
heap_push-AreOrdered ret node count hl heap =
    if_cases (λ r. AreOrdered r (count + 1)) (count == 0) _ _
      (λ z i pos lt. absurd (omega (arith, eq_of_== count 0 z)))
      (λ _.
        sift_up-AreOrdered count ret (count + 1) count node (omega arith) (omega arith)
          (omega arith)
          (record {
            others = λ i pos lt ne pe. heap i pos (omega arith);
            below = λ i pos lt e. absurd (omega arith);
            across = λ i pos lt e p. absurd (omega arith);
          }))

-- The first node of a heap is the farthest.
pub AreOrdered-first :
    (fuel : ℕ) (ret : List ResNode) (n i : ℕ)
    → i ≤ fuel
    → i < n
    → AreOrdered ret n
    → dist_at ret i ≤ dist_at ret 0
unfolding AreOrdered
AreOrdered-first fuel ret n zero f lt heap = omega arith
AreOrdered-first zero ret n (suc i) f lt heap = absurd (omega arith)
AreOrdered-first (suc fuel) ret n (suc i) f lt heap = omega (
  arith,
  heap (suc i) (omega arith) lt,
  AreOrdered-first fuel ret n (parent (suc i)) (omega arith) (omega arith) heap,
)

-- `heap_push` behind the `count` nodes of a heap makes a heap of one more, and the first node, which
-- the next entry is compared with once the list is full, is the farthest of all.
pub heap_push-first :
    (ret : List ResNode) (node : ResNode) (count i : ℕ)
    → count < length ret
    → IsHeap ret count
    → i < count + 1
    → IsHeap (heap_push ret node count) (count + 1)
      × (dist_at (heap_push ret node count) i ≤ dist_at (heap_push ret node count) 0)
heap_push-first ret node count i hl heap lt =
    let ordered = heap_push-AreOrdered ret node count hl (IsHeap-AreOrdered ret count heap) in
    (
      AreOrdered-IsHeap (heap_push ret node count) (count + 1) ordered,
      AreOrdered-first i (heap_push ret node count) (count + 1) i (omega arith) lt ordered,
    )
