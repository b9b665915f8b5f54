-- ===== src/Examples/Vectors.antt =====
-- Distances of small vectors, and an index of one bucket.
use gnes.Prelude.{ℕ, ◌≡◌, refl, some, List, [], ◌∷◌, get_elem?, take, arith}
use gnes.Indexer.Hamming.{vec_distance, hamming, vec_distance-hamming}
use gnes.Indexer.Buckets.{Bucket, increase, IndexCore, new_core}
use gnes.Indexer.Results.{ResNode, zero_node, scan, scan_slots}
use gnes.Indexer.Scanning.{slot_entries}
use gnes.Indexer.Nearest.{IsNearest, scan_slots-IsNearest}
use gnes.Indexer.Stale.{scan_past}

vec_distance-hamming_example :
    vec_distance (255 ∷ 3 ∷ []) (0 ∷ 1 ∷ []) ≡ hamming (255 ∷ 3 ∷ []) (0 ∷ 1 ∷ [])
vec_distance-hamming_example = vec_distance-hamming (255 ∷ 3 ∷ []) (0 ∷ 1 ∷ []) (omega arith)

-- One cluster, vectors of one byte, one slot.
abbrev fresh : IndexCore
fresh = new_core 1 1 1

scan_past_example :
    ((scan 2 1
        (9 ∷ [])
        1
        (7 ∷ 0 ∷ 0 ∷ 0 ∷ 0 ∷ 0 ∷ 1 ∷ 0 ∷ 9 ∷ [])
        (zero_node ∷ zero_node ∷ [], 0)).1
      ≡ 1)
    × (get_elem?
          (scan 2 1
            (9 ∷ [])
            1
            (7 ∷ 0 ∷ 0 ∷ 0 ∷ 0 ∷ 0 ∷ 1 ∷ 0 ∷ 9 ∷ [])
            (zero_node ∷ zero_node ∷ [], 0)).0
          1
        ≡ get_elem? (zero_node ∷ zero_node ∷ []) 1)
scan_past_example =
    scan_past 2 1 (9 ∷ []) 1 (7 ∷ 0 ∷ 0 ∷ 0 ∷ 0 ∷ 0 ∷ 1 ∷ 0 ∷ 9 ∷ []) (zero_node ∷ zero_node ∷ []) 0
      1 (omega arith) (omega arith) (omega arith)

-- A bucket of three entries, at distances 0, 2 and 1 from the vector 9.
abbrev rows : List (List Bucket)
rows =
    (record {
      data_num = 3;
      capacity = increase;
      bytes =
          7 ∷ 0 ∷ 0 ∷ 0 ∷ 0 ∷ 0 ∷ 1 ∷ 0 ∷ 9 ∷ 8 ∷ 0 ∷ 0 ∷ 0 ∷ 1 ∷ 0 ∷ 1 ∷ 0 ∷ 10 ∷ 5 ∷ 0 ∷ 0 ∷ 0 ∷ 2
          ∷ 0 ∷ 1 ∷ 0 ∷ 8 ∷ [];
    }
      ∷ [])
    ∷ []

abbrev entries : List ResNode
entries =
    record { doc_id = 7; off_set = 0; weight = 1; dist = 0 }
    ∷ record { doc_id = 8; off_set = 1; weight = 1; dist = 2 }
    ∷ record { doc_id = 5; off_set = 2; weight = 1; dist = 1 }
    ∷ []

slot_entries_of_rows : slot_entries 1 (9 ∷ []) (0 ∷ 0 ∷ 0 ∷ 0 ∷ []) rows ≡ some entries
unfolding slot_entries
slot_entries_of_rows = refl

scan_slots-IsNearest_example :
    (out : List ResNode × ℕ) × (scan_slots 2 1
        (9 ∷ [])
        (0 ∷ 0 ∷ 0 ∷ 0 ∷ [])
        rows
        (zero_node ∷ zero_node ∷ [], 0)
      ≡ some out)
    × IsNearest 2 (take out.1 out.0) entries
scan_slots-IsNearest_example =
    scan_slots-IsNearest 2 1 (9 ∷ []) (0 ∷ 0 ∷ 0 ∷ 0 ∷ []) rows (zero_node ∷ zero_node ∷ []) entries
      (omega arith) (omega arith) slot_entries_of_rows
