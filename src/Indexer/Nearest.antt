-- ===== src/Indexer/Nearest.antt =====
-- gnes/indexer/chunk/hbindexer/hbindexer.pyx: a query finds the nearest entries of its buckets.
use mathlib.Core.List.{append-nil}
use gnes.Prelude.{
  ℕ, zero, suc, ◌+◌, ◌≤◌, ◌<◌, ◌≡◌, refl, ap, Bool, true, some, List, [], ◌∷◌, ◌++◌, arith, length,
  length-take, dec_lt, take, min, Each, Each-weaken,
}
use gnes.Indexer.Buckets.{Bucket}
use gnes.Indexer.Results.{ResNode, node_at, dist_at, scan_slots}
use gnes.Indexer.Sifting.{AreOrdered-first}
use gnes.Indexer.Tally.{count_if, tally, one_if}
use gnes.Indexer.Offering.{Holds}
use gnes.Indexer.Scanning.{slot_entries, count_if-true, Holds-same, start-Holds, slots-Holds}

-- The nodes kept are as many of the entries as fit, each as often, and none of them is farther
-- than an entry that is dropped.
pub record IsNearest (top_k : ℕ) (kept entries : List ResNode) : Type 0 where
  pub number : length kept ≡ min top_k (length entries)
  pub dropped : List ResNode
  pub same : (f : ResNode → Bool) → count_if f kept + count_if f dropped ≡ count_if f entries
  pub far : Each (λ r. Each (λ d. r.dist ≤ d.dist) dropped) kept

tally_first :
    (f : ResNode → Bool) (x : ResNode) (ret : List ResNode) (n : ℕ)
    → tally f (x ∷ ret) (suc n) ≡ one_if (f x) + tally f ret n
unfolding tally node_at
tally_first f x ret zero = omega arith
tally_first f x ret (suc n) = omega (arith, tally_first f x ret n)

count_if-take :
    (f : ResNode → Bool) (ret : List ResNode) (n : ℕ)
    → n ≤ length ret
    → count_if f (take n ret) ≡ tally f ret n
unfolding count_if tally
count_if-take f ret zero h = refl
count_if-take f [] (suc n) h = absurd (omega arith)
count_if-take f (x ∷ ret) (suc n) h =
    omega (arith, count_if-take f ret n (omega arith), tally_first f x ret n)

Each-take :
    (P : ResNode → Type 0) (ret : List ResNode) (n : ℕ)
    → n ≤ length ret
    → ((i : ℕ) → i < n → P (node_at ret i))
    → Each P (take n ret)
unfolding Each node_at
Each-take P ret zero h p = tt
Each-take P [] (suc n) h p = absurd (omega arith)
Each-take P (x ∷ ret) (suc n) h p =
    (p 0 (omega arith), Each-take P ret n (omega arith) (λ i lt. p (suc i) (omega arith)))

length-kept : (n : ℕ) (ret : List ResNode) → n ≤ length ret → length (take n ret) ≡ n
length-kept n ret h = omega (arith, length-take n ret)

Holds-IsNearest :
    (top_k : ℕ) (out : List ResNode × ℕ) (entries : List ResNode)
    → Holds top_k out entries
    → IsNearest top_k (take out.1 out.0) entries
unfolding dist_at
Holds-IsNearest top_k (ret, count) entries h =
    let inside : count ≤ length ret = omega (arith, h.room, h.number) in
    record {
      number = kept_number;
      dropped = h.dropped;
      same = λ f. omega (arith, count_if-take f ret count inside, h.same f);
      far =
          Each-take (λ r. Each (λ d. r.dist ≤ d.dist) h.dropped) ret count inside
            (λ i lt.
              Each-weaken
                (λ d le. omega (arith, AreOrdered-first i ret count i (omega arith) lt h.heap))
                h.dropped h.far);
    }
  where
    all : count + length h.dropped ≡ length entries
    all = omega (
      arith,
      h.same (λ _. true),
      count_if-true h.dropped,
      count_if-true entries,
      count_if-take (λ _. true) ret count (omega (arith, h.room, h.number)),
      count_if-true (take count ret),
      length-take count ret,
      h.room,
      h.number,
    )

    kept_number : length (take count ret) ≡ min top_k (length entries)
    kept_number = elim (dec_lt count top_k) [
      | yes lt ↦ omega (arith, all, length-take count ret, ap length (h.full lt), h.room)
      | no ge ↦ omega (arith, all, length-take count ret, h.room, h.number)
    ]

-- A query of one vector, whose clusters are in range, finds the nearest entries of their buckets:
-- it ends with as many as there are, up to `top_k`, each as often as it was indexed, and no other
-- entry of these buckets is nearer than one of them.
pub scan_slots-IsNearest :
    (top_k n_bytes : ℕ) (query clusters : List ℕ) (rows : List (List Bucket))
    (ret entries : List ResNode)
    → 0 < top_k
    → top_k ≤ length ret
    → slot_entries n_bytes query clusters rows ≡ some entries
    → (out : List ResNode × ℕ) × (scan_slots top_k n_bytes query clusters rows (ret, 0) ≡ some out)
      × IsNearest top_k (take out.1 out.0) entries
scan_slots-IsNearest top_k n_bytes query clusters rows ret entries pos room e =
    let (out, runs, holds) =
      slots-Holds top_k n_bytes query clusters rows (ret, 0) [] entries pos e
        (start-Holds top_k ret room) in
    (
      out,
      runs,
      Holds-IsNearest top_k out entries (
          Holds-same top_k out (entries ++ []) entries (λ f. ap (count_if f) (append-nil entries))
            holds),
    )
