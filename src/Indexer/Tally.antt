-- ===== src/Indexer/Tally.antt =====
-- gnes/indexer/chunk/hbindexer/hbindexer.pyx: the operations of the heap move nodes, and lose none.
use gnes.Prelude.{
  ℕ, zero, suc, ◌+◌, ◌-◌, ◌/◌, ◌≤◌, ◌<◌, ◌≢◌, ◌≡◌, refl, ap, ◌∙◌, Bool, true, false, ◌&&◌, List, [],
  ◌∷◌, ltb, nat_eq, ◌==◌, eq_of_==, arith, length, length-set, set, if_cases, ℕ_discrete,
}
use gnes.Indexer.Results.{ResNode, node_at, dist_at, swap, sift_up, heap_push}

abbrev pub one_if : Bool → ℕ
one_if true = 1
one_if false = 0

-- How many nodes of a list pass a test.
unfoldable pub count_if : (ResNode → Bool) → List ResNode → ℕ
count_if f [] = 0
count_if f (x ∷ xs) = one_if (f x) + count_if f xs

-- How many of the first `n` places hold a node that passes.
unfoldable pub tally : (ResNode → Bool) → List ResNode → ℕ → ℕ
unfolding node_at
tally f ret zero = 0
tally f ret (suc n) = tally f ret n + one_if (f (node_at ret n))

pub node_at-set_self :
    (ret : List ResNode) (i : ℕ) (v : ResNode) → i < length ret → node_at (set ret i v) i ≡ v
unfolding node_at
node_at-set_self [] i v h = absurd (omega arith)
node_at-set_self (x ∷ xs) zero v h = refl
node_at-set_self (x ∷ xs) (suc i) v h = node_at-set_self xs i v (omega arith)

pub node_at-set_ne :
    (ret : List ResNode) (i j : ℕ) (v : ResNode) → i ≢ j → node_at (set ret i v) j ≡ node_at ret j
unfolding node_at
node_at-set_ne [] i j v h = refl
node_at-set_ne (x ∷ xs) zero zero v h = absurd (h refl)
node_at-set_ne (x ∷ xs) zero (suc j) v h = refl
node_at-set_ne (x ∷ xs) (suc i) zero v h = refl
node_at-set_ne (x ∷ xs) (suc i) (suc j) v h = node_at-set_ne xs i j v (λ e. h (ap suc e))

module _ (f : ResNode → Bool) where
  -- The test at a place.
  abbrev at : List ResNode → ℕ → ℕ
  at ret i = one_if (f (node_at ret i))

  tally-set_past :
      (ret : List ResNode) (i : ℕ) (v : ResNode) (n : ℕ)
      → n ≤ i
      → tally f (set ret i v) n ≡ tally f ret n
  unfolding tally
  tally-set_past ret i v zero h = refl
  tally-set_past ret i v (suc n) h = omega (
    arith,
    tally-set_past ret i v n (omega arith),
    ap (λ x. one_if (f x)) (node_at-set_ne ret i n v (omega arith)),
  )

  pub tally-set :
      (ret : List ResNode) (i : ℕ) (v : ResNode) (n : ℕ)
      → i < n
      → n ≤ length ret
      → tally f (set ret i v) n + at ret i ≡ tally f ret n + one_if (f v)
  unfolding tally
  tally-set ret i v zero h l = absurd (omega arith)
  tally-set ret i v (suc n) h l = elim (ℕ_discrete i n) [
    | yes e ↦ omega (
      arith,
      tally-set_past ret i v n (omega arith),
      ap (at ret) e,
      ap (at (set ret i v)) e,
      ap (λ x. one_if (f x)) (node_at-set_self ret i v (omega arith)),
    )
    | no ne ↦ omega (
      arith,
      tally-set ret i v n (omega arith) (omega arith),
      ap (λ x. one_if (f x)) (node_at-set_ne ret i n v ne),
    )
  ]

  pub tally-swap :
      (ret : List ResNode) (i j n : ℕ)
      → i < n
      → j < n
      → i ≢ j
      → n ≤ length ret
      → tally f (swap ret i j) n ≡ tally f ret n
  unfolding swap
  tally-swap ret i j n hi hj ne l = omega (
    arith,
    tally-set (set ret i (node_at ret j)) j (node_at ret i) n hj
        (omega (arith, length-set ret i (node_at ret j))),
    tally-set ret i (node_at ret j) n hi l,
    ap (λ x. one_if (f x)) (node_at-set_ne ret i j (node_at ret j) ne),
  )

  pub tally-sift_up :
      (fuel : ℕ) (ret : List ResNode) (index n : ℕ) (node : ResNode)
      → index < n
      → n ≤ length ret
      → tally f (sift_up fuel ret index node) n + at ret index ≡ tally f ret n + one_if (f node)
  unfolding sift_up
  tally-sift_up zero ret index n node h l = tally-set ret index node n h l
  tally-sift_up (suc fuel) ret index n node h l =
      let p = (index - 1) / 2 in
      if_cases (λ r. tally f r n + at ret index ≡ tally f ret n + one_if (f node))
        (ltb (dist_at ret p) node.dist && ltb 0 index) _ _
        (λ c.
          let pos : 0 < index = ground arith in
          omega (
            arith,
            tally-sift_up fuel (set ret index (node_at ret p)) p n node (omega arith)
                (omega (arith, length-set ret index (node_at ret p))),
            tally-set ret index (node_at ret p) n h l,
            ap (λ x. one_if (f x)) (node_at-set_ne ret index p (node_at ret p) (omega arith)),
          ))
        (λ _. tally-set ret index node n h l)

  tally_next : (ret : List ResNode) (n : ℕ) → tally f ret (n + 1) ≡ tally f ret n + at ret n
  unfolding tally
  tally_next ret n = let e : n + 1 ≡ suc n = omega arith in ap (tally f ret) e

  pub tally-heap_push :
      (ret : List ResNode) (node : ResNode) (count : ℕ)
      → count < length ret
      → tally f (heap_push ret node count) (count + 1) ≡ tally f ret count + one_if (f node)
  unfolding heap_push
  tally-heap_push ret node count l =
      let moved =
        if_cases
          (λ r. tally f r (count + 1) + at ret count ≡ tally f ret (count + 1) + one_if (f node))
          (count == 0) (set ret 0 node) (sift_up count ret count node)
          (λ z. omega (
            arith,
            tally-set ret 0 node (count + 1) (omega arith) (omega arith),
            ap (at ret) (eq_of_== count 0 z),
          ))
          (λ _. tally-sift_up count ret count (count + 1) node (omega arith) (omega arith)) in
      omega (arith, moved, tally_next ret count)

pub length-sift_up :
    (fuel : ℕ) (ret : List ResNode) (index : ℕ) (node : ResNode)
    → length (sift_up fuel ret index node) ≡ length ret
unfolding sift_up
length-sift_up zero ret index node = length-set ret index node
length-sift_up (suc fuel) ret index node =
    let p = (index - 1) / 2 in
    if_cases (λ (r : List ResNode). length r ≡ length ret)
      (ltb (dist_at ret p) node.dist && ltb 0 index) _ _
      (λ _.
        length-sift_up fuel (set ret index (node_at ret p)) p node
        ∙ length-set ret index (node_at ret p))
      (λ _. length-set ret index node)

pub length-heap_push :
    (ret : List ResNode) (node : ResNode) (count : ℕ)
    → length (heap_push ret node count) ≡ length ret
unfolding heap_push
length-heap_push ret node count =
    if_cases (λ (r : List ResNode). length r ≡ length ret) (count == 0) _ _
      (λ _. length-set ret 0 node) (λ _. length-sift_up count ret count node)
