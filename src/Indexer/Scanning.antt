-- ===== src/Indexer/Scanning.antt =====
-- gnes/indexer/chunk/hbindexer/hbindexer.pyx: the loops of a query keep the nearest entries so far.
use gnes.Prelude.{
  ℕ, zero, suc, ◌+◌, ◌≤◌, ◌<◌, ◌≡◌, refl, subst, ap, ◌∙◌, Bool, true, Option, none, some, List, [],
  ◌∷◌, ◌++◌, arith, length, take, drop, Each, get_elem?,
}
use gnes.Indexer.Hamming.{bytes_to_uint, vec_distance}
use gnes.Indexer.Buckets.{Bucket, entry_size}
use gnes.Indexer.Results.{ResNode, entry_at, offer, scan, scan_slots}
use gnes.Indexer.Sifting.{AreOrdered}
use gnes.Indexer.Tally.{count_if, tally}
use gnes.Indexer.Offering.{Holds, offer-Holds}

-- The entries of a bucket, with their distances from the query.
unfoldable pub bucket_entries : ℕ → List ℕ → ℕ → List ℕ → List ResNode
unfolding entry_at vec_distance entry_size
bucket_entries n_bytes query zero vec = []
bucket_entries n_bytes query (suc n) vec =
    entry_at vec (vec_distance (take n_bytes (drop 8 vec)) query)
    ∷ bucket_entries n_bytes query n (drop (entry_size n_bytes) vec)

unfoldable pub add_entries : List ResNode → Option (List ResNode) → Option (List ResNode)
add_entries es none = none
add_entries es (some rest) = some (es ++ rest)

-- The entries of the buckets of a query, one bucket for each slot.
unfoldable pub slot_entries : ℕ → List ℕ → List ℕ → List (List Bucket) → Option (List ResNode)
unfolding bucket_entries bytes_to_uint add_entries
slot_entries n_bytes query clusters [] = some []
slot_entries n_bytes query clusters (row ∷ rows) =
    let rest = slot_entries n_bytes query (drop 4 clusters) rows in
    elim (get_elem? row (bytes_to_uint clusters)) [
      | none ↦ none
      | some b ↦ add_entries (bucket_entries n_bytes query b.data_num b.bytes) rest
    ]

count_if-append :
    (f : ResNode → Bool) (xs ys : List ResNode)
    → count_if f (xs ++ ys) ≡ count_if f xs + count_if f ys
unfolding count_if
count_if-append f [] ys = omega arith
count_if-append f (x ∷ xs) ys = omega (arith, count_if-append f xs ys)

pub count_if-true : (xs : List ResNode) → count_if (λ _. true) xs ≡ length xs
unfolding count_if
count_if-true [] = refl
count_if-true (x ∷ xs) = omega (arith, count_if-true xs)

pub Holds-same :
    (top_k : ℕ) (found : List ResNode × ℕ) (entries entries' : List ResNode)
    → ((f : ResNode → Bool) → count_if f entries ≡ count_if f entries')
    → Holds top_k found entries
    → Holds top_k found entries'
Holds-same top_k found entries entries' e h = record {
  heap = h.heap;
  room = h.room;
  number = h.number;
  dropped = h.dropped;
  same = λ f. h.same f ∙ e f;
  far = h.far;
  full = h.full;
}

count_if_moved :
    (f : ResNode → Bool) (x : ResNode) (xs ys : List ResNode)
    → count_if f (xs ++ x ∷ ys) ≡ count_if f (x ∷ xs ++ ys)
unfolding count_if
count_if_moved f x xs ys = omega (arith, count_if-append f xs (x ∷ ys), count_if-append f xs ys)

pub start-Holds : (top_k : ℕ) (ret : List ResNode) → top_k ≤ length ret → Holds top_k (ret, 0) []
unfolding AreOrdered tally count_if Each
start-Holds top_k ret room = record {
  heap = λ i pos lt. absurd (omega arith);
  room = room;
  number = omega arith;
  dropped = [];
  same = λ f. refl;
  far = tt;
  full = λ _. refl;
}

scan-Holds :
    (top_k n_bytes : ℕ) (query : List ℕ) (n : ℕ) (vec : List ℕ) (found : List ResNode × ℕ)
    (entries : List ResNode)
    → 0 < top_k
    → Holds top_k found entries
    → Holds top_k
        (scan top_k n_bytes query n vec found)
        (bucket_entries n_bytes query n vec ++ entries)
unfolding scan bucket_entries
scan-Holds top_k n_bytes query zero vec found entries pos h = h
scan-Holds top_k n_bytes query (suc n) vec found entries pos h =
    let node = entry_at vec (vec_distance (take n_bytes (drop 8 vec)) query) in
    let rest = bucket_entries n_bytes query n (drop (entry_size n_bytes) vec) in
    Holds-same top_k _ (rest ++ node ∷ entries) (node ∷ rest ++ entries)
      (λ f. count_if_moved f node rest entries)
      (scan-Holds top_k n_bytes query n (drop (entry_size n_bytes) vec) (offer top_k node found)
        (node ∷ entries) pos (offer-Holds top_k node found entries pos h))

count_if_grouped :
    (f : ResNode → Bool) (es first before entries : List ResNode)
    → entries ≡ first ++ es
    → count_if f (es ++ (first ++ before)) ≡ count_if f (entries ++ before)
count_if_grouped f es first before entries e = omega (
  arith,
  count_if-append f es (first ++ before),
  count_if-append f first before,
  count_if-append f entries before,
  count_if-append f first es,
  ap (count_if f) e,
)

-- What is in range when the entries of the first bucket and those of the others are.
add_entries-some :
    (bucket : Option Bucket) (f : Bucket → List ResNode) (rest : Option (List ResNode))
    (entries : List ResNode)
    → elim bucket as (λ _. Option (List ResNode)) [ none ↦ none | some b ↦ add_entries (f b) rest ]
      ≡ some entries
    → (b : Bucket) × (bucket ≡ some b)
      × (es : List ResNode) × (rest ≡ some es)
      × (entries ≡ f b ++ es)
unfolding add_entries
add_entries-some none f rest entries e = absurd (cc e)
add_entries-some (some b) f none entries e = absurd (cc e)
add_entries-some (some b) f (some es) entries e = (b, refl, es, refl, cc)

pub slots-Holds :
    (top_k n_bytes : ℕ) (query clusters : List ℕ) (rows : List (List Bucket))
    (found : List ResNode × ℕ) (before entries : List ResNode)
    → 0 < top_k
    → slot_entries n_bytes query clusters rows ≡ some entries
    → Holds top_k found before
    → (out : List ResNode × ℕ) × (scan_slots top_k n_bytes query clusters rows found ≡ some out)
      × Holds top_k out (entries ++ before)
unfolding slot_entries scan_slots
slots-Holds top_k n_bytes query clusters [] found before entries pos e h =
    let nil : [] ≡ entries = cc in
    (found, refl, subst (λ es. Holds top_k found (es ++ before)) nil h)
slots-Holds top_k n_bytes query clusters (row ∷ rows) found before entries pos e h =
    let (b, at, es, more, all) =
      add_entries-some (get_elem? row (bytes_to_uint clusters))
        (λ b. bucket_entries n_bytes query b.data_num b.bytes)
        (slot_entries n_bytes query (drop 4 clusters) rows) entries e in
    let first = bucket_entries n_bytes query b.data_num b.bytes in
    let found' = scan top_k n_bytes query b.data_num b.bytes found in
    let (out, runs, holds) =
      slots-Holds top_k n_bytes query (drop 4 clusters) rows found' (first ++ before) es pos more
        (scan-Holds top_k n_bytes query b.data_num b.bytes found before pos h) in
    (
      out,
      ap
            (λ o. elim o as (λ _. Option (List ResNode × ℕ)) [
              | none ↦ none
              | some b ↦
                  scan_slots top_k n_bytes query (drop 4 clusters) rows
                    (scan top_k n_bytes query b.data_num b.bytes found)
            ])
            at
          ∙ runs,
      Holds-same top_k out (es ++ (first ++ before)) (entries ++ before)
          (λ f. count_if_grouped f es first before entries all) holds,
    )
