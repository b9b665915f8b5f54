-- ===== src/Indexer/Sinking.antt =====
-- gnes/indexer/chunk/hbindexer/hbindexer.pyx: `max_heapify` restores the order of the heap.
use gnes.Prelude.{
  ℕ, zero, suc, ◌+◌, ◌*◌, ◌≤◌, ◌<◌, ◌≢◌, ◌≡◌, ◌⊎◌, inl, inr, refl, sym, ap, ◌∙◌, Bool, false, ◌&&◌,
  List, ltb, nat_eq, ◌==◌, eq_of_==, arith, length, length-set, set, if_cases, ℕ_discrete,
}
use gnes.Indexer.Results.{ResNode, node_at, dist_at, larger, swap, max_heapify}
use gnes.Indexer.Tally.{node_at-set_self, node_at-set_ne, tally, tally-swap}
use gnes.Indexer.Sifting.{parent, AreOrdered}

-- A choice of `larger` is as far as both, and one of them.
larger_bound :
    (ret : List ResNode) (n child largest : ℕ)
    → let l = larger ret n child largest in
      (child < n → dist_at ret child ≤ dist_at ret l)
      × (dist_at ret largest ≤ dist_at ret l)
      × ((l ≡ largest) ⊎ ((l ≡ child) × (child < n)))
unfolding larger
larger_bound ret n child largest =
    if_cases
      (λ l.
        (child < n → dist_at ret child ≤ dist_at ret l)
        × (dist_at ret largest ≤ dist_at ret l)
        × ((l ≡ largest) ⊎ ((l ≡ child) × (child < n))))
      (ltb child n && ltb (dist_at ret largest) (dist_at ret child)) child largest
      (λ h. (λ c. omega arith, ground arith, inr (refl, ground arith)))
      (λ h. (λ c. ground arith, omega arith, inl refl))

-- The place that `max_heapify` goes on with: the farthest of a node and its children.
record IsLargest (ret : List ResNode) (n loc largest : ℕ) : Type 0 where
  pub place : (largest ≡ loc) ⊎ ((loc < largest) × (largest < n) × (parent largest ≡ loc))
  pub own : dist_at ret loc ≤ dist_at ret largest
  pub children : (i : ℕ) → 0 < i → i < n → parent i ≡ loc → dist_at ret i ≤ dist_at ret largest

abbrev largest_of : List ResNode → ℕ → ℕ → ℕ
largest_of ret n loc = larger ret n (2 * loc + 2) (larger ret n (2 * loc + 1) loc)

largest_of-IsLargest : (ret : List ResNode) (n loc : ℕ) → IsLargest ret n loc (largest_of ret n loc)
largest_of-IsLargest ret n loc =
    let l = larger ret n (2 * loc + 1) loc in
    let (left, own, from) = larger_bound ret n (2 * loc + 1) loc in
    let (right, next, from') = larger_bound ret n (2 * loc + 2) l in
    record {
      place = elim from' [
        | inr (e, lt) ↦ inr (omega (arith, e), omega (arith, e), omega (arith, e))
        | inl e ↦ elim from [
          | inl e' ↦ inl (e ∙ e')
          | inr (e', lt) ↦ inr (omega (arith, e, e'), omega (arith, e, e'), omega (arith, e, e'))
        ]
      ];
      own = omega (arith, own, next);
      children = λ i pos lt e. elim (ℕ_discrete i (2 * loc + 1)) [
        | yes q ↦ omega (arith, ap (dist_at ret) q, left (omega arith), next)
        | no ne ↦
            let q : i ≡ 2 * loc + 2 = omega arith in
            omega (arith, ap (dist_at ret) q, right (omega arith))
      ];
    }

-- A heap but for the edges below `loc`.
pub record IsSunk (ret : List ResNode) (n loc : ℕ) : Type 0 where
  pub others : (i : ℕ) → 0 < i → i < n → parent i ≢ loc → dist_at ret i ≤ dist_at ret (parent i)
  pub across :
      (i : ℕ) → 0 < i → i < n → parent i ≡ loc → 0 < loc → dist_at ret i ≤ dist_at ret (parent loc)

module _ (ret : List ResNode) (n loc c : ℕ) (below : loc < c) (inside : c < n)
    (edge : parent c ≡ loc) (room : n ≤ length ret) where
  abbrev swapped : List ResNode
  swapped = swap ret loc c

  swapped_up : dist_at swapped loc ≡ dist_at ret c
  unfolding swap dist_at
  swapped_up =
      ap (λ x. x.dist)
        (node_at-set_ne (set ret loc (node_at ret c)) c loc (node_at ret loc) (omega arith)
          ∙ node_at-set_self ret loc (node_at ret c) (omega arith))

  swapped_down : dist_at swapped c ≡ dist_at ret loc
  unfolding swap dist_at
  swapped_down =
      ap (λ x. x.dist)
        (node_at-set_self (set ret loc (node_at ret c)) c (node_at ret loc)
          (omega (arith, length-set ret loc (node_at ret c))))

  swapped_ne : (i : ℕ) → i ≢ loc → i ≢ c → dist_at swapped i ≡ dist_at ret i
  unfolding swap dist_at
  swapped_ne i ne ne' =
      ap (λ x. x.dist)
        (node_at-set_ne (set ret loc (node_at ret c)) c i (node_at ret loc) (λ e. ne' (sym e))
          ∙ node_at-set_ne ret loc i (node_at ret c) (λ e. ne (sym e)))

  swap-IsSunk : IsSunk ret n loc → IsLargest ret n loc c → IsSunk swapped n c
  swap-IsSunk s l = record {
    others = λ i pos lt pe. elim (ℕ_discrete i loc) [
      | yes e ↦ omega (
        arith,
        ap (dist_at swapped) e,
        swapped_up,
        s.across c (omega arith) inside edge (omega arith),
        ap (λ k. dist_at swapped (parent k)) e,
        swapped_ne (parent loc) (omega arith) (omega arith),
      )
      | no ne ↦ elim (ℕ_discrete i c) [
        | yes e ↦ omega (
          arith,
          ap (dist_at swapped) e,
          swapped_down,
          ap (λ k. dist_at swapped (parent k)) e,
          ap (dist_at swapped) edge,
          swapped_up,
          l.own,
        )
        | no ne' ↦ elim (ℕ_discrete (parent i) loc) [
          | yes e ↦ omega (
            arith,
            swapped_ne i ne ne',
            ap (dist_at swapped) e,
            swapped_up,
            l.children i pos lt e,
          )
          | no ne'' ↦
              omega
                (arith, swapped_ne i ne ne', swapped_ne (parent i) ne'' pe, s.others i pos lt ne'')
        ]
      ]
    ];
    across = λ i pos lt e pc. omega (
      arith,
      swapped_ne i (omega arith) (omega arith),
      s.others i pos lt (omega arith),
      ap (dist_at ret) e,
      ap (dist_at swapped) edge,
      swapped_up,
    );
  }

pub length-swap : (ret : List ResNode) (i j : ℕ) → length (swap ret i j) ≡ length ret
unfolding swap
length-swap ret i j =
    length-set (set ret i (node_at ret j)) j (node_at ret i) ∙ length-set ret i (node_at ret j)

differs : (a b : ℕ) → (a == b) ≡ false → a ≢ b
differs a b h = ground arith

pub max_heapify-AreOrdered :
    (fuel : ℕ) (ret : List ResNode) (n loc : ℕ)
    → n ≤ loc + fuel
    → n ≤ length ret
    → IsSunk ret n loc
    → AreOrdered (max_heapify fuel ret loc n) n
unfolding max_heapify AreOrdered
max_heapify-AreOrdered zero ret n loc f room s = λ i pos lt. s.others i pos lt (omega arith)
max_heapify-AreOrdered (suc fuel) ret n loc f room s =
    let l = largest_of-IsLargest ret n loc in
    let c = largest_of ret n loc in
    if_cases (λ r. AreOrdered r n) (c == loc) ret (max_heapify fuel (swap ret loc c) c n)
      (λ h i pos lt. elim (ℕ_discrete (parent i) loc) [
        | yes e ↦
            omega (
              arith,
              l.children i pos lt e,
              ap (dist_at ret) (eq_of_== c loc h),
              ap (dist_at ret) e,
            )
        | no ne ↦ s.others i pos lt ne
      ])
      (λ h. elim l.place [
        | inl e ↦ absurd (differs c loc h e)
        | inr (below, inside, edge) ↦
            max_heapify-AreOrdered fuel (swap ret loc c) n c (omega arith)
              (omega (arith, length-swap ret loc c))
              (swap-IsSunk ret n loc c below inside edge room s l)
      ])

pub tally-max_heapify :
    (f : ResNode → Bool) (fuel : ℕ) (ret : List ResNode) (loc n : ℕ)
    → loc < n
    → n ≤ length ret
    → tally f (max_heapify fuel ret loc n) n ≡ tally f ret n
unfolding max_heapify
tally-max_heapify f zero ret loc n h room = refl
tally-max_heapify f (suc fuel) ret loc n h room =
    let l = largest_of-IsLargest ret n loc in
    let c = largest_of ret n loc in
    if_cases (λ r. tally f r n ≡ tally f ret n) (c == loc) ret
      (max_heapify fuel (swap ret loc c) c n) (λ _. refl)
      (λ ne. elim l.place [
        | inl e ↦ absurd (differs c loc ne e)
        | inr (below, inside, edge) ↦
            tally-max_heapify f fuel (swap ret loc c) c n inside
              (omega (arith, length-swap ret loc c))
            ∙ tally-swap f ret loc c n h inside (omega arith) room
      ])

pub length-max_heapify :
    (fuel : ℕ) (ret : List ResNode) (loc n : ℕ) → length (max_heapify fuel ret loc n) ≡ length ret
unfolding max_heapify
length-max_heapify zero ret loc n = refl
length-max_heapify (suc fuel) ret loc n =
    let c = largest_of ret n loc in
    if_cases (λ (r : List ResNode). length r ≡ length ret) (c == loc) ret
      (max_heapify fuel (swap ret loc c) c n) (λ _. refl)
      (λ _. length-max_heapify fuel (swap ret loc c) c n ∙ length-swap ret loc c)
