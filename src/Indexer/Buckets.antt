-- ===== src/Indexer/Buckets.antt =====
-- gnes/indexer/chunk/hbindexer/hbindexer.pyx: the buckets of `IndexCore`, and what is written and
-- saved of them.
use gnes.Prelude.{
  ℕ, zero, suc, ◌+◌, ◌-◌, ◌*◌, ◌/◌, ◌%◌, ◌^◌, Bool, true, false, Option, none, some, List, [], ◌∷◌,
  ◌++◌, nat_eq, ◌==◌, length, take, drop, replicate, if◌then◌else◌,
}
use gnes.Indexer.Hamming.{bytes_to_uint}

-- `Increase`
abbrev pub increase : ℕ
increase = 10000

-- `core[j][clus]`, with `data_num[j][clus]`, the entries it has room for and its bytes so far.
pub record Bucket : Type 0 where
  pub data_num : ℕ
  pub capacity : ℕ
  pub bytes : List ℕ

pub record IndexCore : Type 0 where
  pub n_clusters : ℕ
  pub n_bytes : ℕ
  pub n_idx : ℕ
  pub initialized : Bool
  pub core : List (List Bucket)

-- `__cinit__`: nothing is allocated but the rows.
unfoldable pub new_core : ℕ → ℕ → ℕ → IndexCore
new_core n_clusters n_bytes n_idx = record {
  n_clusters = n_clusters;
  n_bytes = n_bytes;
  n_idx = n_idx;
  initialized = false;
  core = [];
}

-- `_initialize`
unfoldable pub initialize : IndexCore → IndexCore
initialize c = record c {
  initialized = true;
  core =
      replicate c.n_idx
        (replicate c.n_clusters (record { data_num = 0; capacity = increase; bytes = [] }));
}

-- The size of an entry: id, offset, weight and vector.
unfoldable pub entry_size : ℕ → ℕ
entry_size n_bytes = n_bytes + 8

-- The bytes of an entry, from where the pointers stand.
unfoldable pub entry_bytes : ℕ → List ℕ → List ℕ → List ℕ → List ℕ → List ℕ
entry_bytes n_bytes vectors doc_ids off_sets weights =
    take 4 doc_ids ++ take 2 off_sets ++ take 2 weights ++ take n_bytes vectors

-- The writes from `cur_num` on, over what is there; memory that nothing was written to reads as 0.
unfoldable pub write_at : ℕ → List ℕ → List ℕ → List ℕ
write_at pos new bytes =
    take pos bytes ++ replicate (pos - length bytes) 0 ++ new ++ drop (pos + length new) bytes

-- The body of the inner loop of `index_trie` on its bucket: room is made before the entry is
-- written, and both the position and the number are of 32 bits.
unfoldable pub put_entry : ℕ → List ℕ → Bucket → Bucket
unfolding write_at entry_size nat_eq
put_entry n_bytes entry b = record {
  data_num = (b.data_num + 1) % 2 ^ 32;
  capacity = if (b.data_num + 1) % increase == 0 then b.data_num + 1 + increase else b.capacity;
  bytes = write_at (b.data_num * entry_size n_bytes % 2 ^ 32) entry b.bytes;
}

unfoldable pub map_some : {A B : Type 0} → (A → B) → Option A → Option B
map_some f none = none
map_some f (some a) = some (f a)

-- The rows after the first, when both are in range.
unfoldable pub add_row :
    Option (List Bucket)
    → Option (List (List Bucket) × List ℕ)
    → Option (List (List Bucket) × List ℕ)
add_row (some row) (some (rows, clusters)) = some (row ∷ rows, clusters)
add_row (some row) none = none
add_row none rest = none

-- A row with an entry made in the bucket `clus`: `none` is an access out of range.
unfoldable pub put_in_row : ℕ → List ℕ → ℕ → List Bucket → Option (List Bucket)
unfolding put_entry map_some
put_in_row n_bytes entry clus [] = none
put_in_row n_bytes entry zero (b ∷ bs) = some (put_entry n_bytes entry b ∷ bs)
put_in_row n_bytes entry (suc clus) (b ∷ bs) =
    let rest = put_in_row n_bytes entry clus bs in map_some (λ bs'. b ∷ bs') rest

-- The inner loop of `index_trie`, a cluster for each slot.
unfoldable pub index_slots :
    ℕ → List ℕ → List ℕ → List (List Bucket) → Option (List (List Bucket) × List ℕ)
unfolding bytes_to_uint put_in_row add_row
index_slots n_bytes entry clusters [] = some ([], clusters)
index_slots n_bytes entry clusters (row ∷ rows) =
    add_row (put_in_row n_bytes entry (bytes_to_uint clusters) row)
      (index_slots n_bytes entry (drop 4 clusters) rows)

-- The outer loop of `index_trie`
unfoldable pub index_items :
    ℕ
    → ℕ
    → List ℕ
    → List ℕ
    → List ℕ
    → List ℕ
    → List ℕ
    → List (List Bucket)
    → Option (List (List Bucket))
unfolding index_slots entry_bytes
index_items zero n_bytes vectors clusters doc_ids off_sets weights core = some core
index_items (suc n) n_bytes vectors clusters doc_ids off_sets weights core =
    elim (index_slots n_bytes (entry_bytes n_bytes vectors doc_ids off_sets weights) clusters
      core) [
        | none ↦ none
        | some (core', clusters') ↦
            index_items n n_bytes (drop n_bytes vectors) clusters' (drop 4 doc_ids)
              (drop 2 off_sets) (drop 2 weights) core'
      ]

-- `index_trie`
unfoldable pub index_trie :
    ℕ → List ℕ → List ℕ → List ℕ → List ℕ → List ℕ → IndexCore → Option IndexCore
unfolding initialize index_items map_some
index_trie n vectors clusters doc_ids off_sets weights c =
    let c' = if c.initialized then c else initialize c in
    map_some (λ core. record c' { core = core })
      (index_items n c'.n_bytes vectors clusters doc_ids off_sets weights c'.core)

-- The number of entries of a bucket that `_save` writes, and that `_load` makes room for.
unfoldable pub saved_entries : ℕ → ℕ
saved_entries data_num = ((data_num + 1) / increase + 1) * increase

-- `_load` of a bucket from the bytes of the file.
unfoldable pub load_bucket : ℕ → ℕ → List ℕ → Bucket
unfolding saved_entries entry_size
load_bucket n_bytes data_num file = record {
  data_num = data_num;
  capacity = saved_entries data_num;
  bytes = take (entry_size n_bytes * saved_entries data_num) file;
}
