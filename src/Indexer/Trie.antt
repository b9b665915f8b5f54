-- ===== src/Indexer/Trie.antt =====
-- gnes/indexer/chunk/bindexer/bindexer.pyx: the tree of `IndexCore`, which vectors are put into and
-- looked up in. A node is reached by one pointer only, so a pointer is the subtree it leads to.
use gnes.Prelude.{
  ℕ, zero, suc, ◌+◌, ◌||◌, List, [], ◌∷◌, ◌++◌, nat_eq, ◌==◌, ltb, if◌then◌else◌, take, drop,
}
use gnes.Indexer.Hamming.{add_bytes, bytes_to_ushort}

-- The fields of `Data` that `_index_value` takes from the caller.
pub record Data : Type 0 where
  pub doc_id : ℕ
  pub offset : ℕ
  pub weight : ℕ

-- `NULL_coordi`, or a node: key, left, child, right, and the data that hang on `_next` in order.
pub data Trie : Type 0 where
  null : Trie
  node : ℕ → Trie → Trie → Trie → List Data → Trie

-- `new_node`
unfoldable pub new_node : Trie
new_node = node 0 null null null []

-- The loops of `index_trie` over the bytes of a vector, from a pointer on: where it is null, a new
-- node is made, which takes the byte for its key. At the end `_index_value` hangs up the data.
unfoldable pub index_at : Trie → List ℕ → Data → Trie
unfolding nat_eq
index_at null [] d = node 0 null null null (d ∷ [])
index_at null (b ∷ bs) d = node b null (index_at null bs d) null []
index_at (node k l c r ds) [] d = node k l c r (ds ++ d ∷ [])
index_at (node k l c r ds) (b ∷ bs) d =
    let down = index_at c bs d in
    let left = index_at l (b ∷ bs) d in
    let right = index_at r (b ∷ bs) d in
    if k == 0 || k == b
    then node b l down r ds
    else if ltb b k
    then node k left c r ds
    else node k l c right ds

-- The loops of `find_batch_trie` over the bytes of a query.
unfoldable pub find_at : Trie → List ℕ → List Data
unfolding nat_eq
find_at null bs = []
find_at (node k l c r ds) [] = ds
find_at (node k l c r ds) (b ∷ bs) =
    let down = find_at c bs in
    let left = find_at l (b ∷ bs) in
    let right = find_at r (b ∷ bs) in if k == b then down else if ltb b k then left else right

pub record TrieCore : Type 0 where
  pub bytes_per_vector : ℕ
  pub bytes_per_label : ℕ
  pub root_node : Trie

-- `bytes_to_label`
unfoldable pub bytes_to_label : ℕ → List ℕ → ℕ
unfolding add_bytes
bytes_to_label bytes_per_label bs = add_bytes bytes_per_label 0 bs 0

unfoldable pub data_of : ℕ → List ℕ → List ℕ → List ℕ → Data
unfolding bytes_to_label bytes_to_ushort
data_of bytes_per_label ids offsets weights = record {
  doc_id = bytes_to_label bytes_per_label ids;
  offset = bytes_to_ushort offsets;
  weight = bytes_to_ushort weights;
}

-- The loop of `index_trie` over the vectors.
unfoldable pub index_vectors : ℕ → ℕ → ℕ → List ℕ → List ℕ → List ℕ → List ℕ → Trie → Trie
unfolding index_at data_of
index_vectors zero n_vec n_label vectors ids offsets weights t = t
index_vectors (suc n) n_vec n_label vectors ids offsets weights t =
    index_vectors n n_vec n_label (drop n_vec vectors) (drop n_label ids) (drop 2 offsets)
      (drop 2 weights) (index_at t (take n_vec vectors) (data_of n_label ids offsets weights))

-- The root is made when the first vectors come.
unfoldable pub with_root : Trie → Trie
unfolding new_node
with_root null = new_node
with_root (node k l c r ds) = node k l c r ds

-- `index_trie`
unfoldable pub index_trie : ℕ → List ℕ → List ℕ → List ℕ → List ℕ → TrieCore → TrieCore
unfolding index_vectors with_root
index_trie num_total vectors ids offsets weights core = record core {
  root_node =
      index_vectors num_total core.bytes_per_vector core.bytes_per_label vectors ids offsets weights
        (with_root core.root_node);
}

unfoldable pub with_index : ℕ → List Data → List (ℕ × Data)
with_index q [] = []
with_index q (d ∷ ds) = (q, d) ∷ with_index q ds

-- The loop of `find_batch_trie` over the queries, from the query `q` on.
unfoldable pub find_from : ℕ → ℕ → ℕ → List ℕ → Trie → List (ℕ × Data)
unfolding find_at with_index
find_from q zero n_vec query t = []
find_from q (suc n) n_vec query t =
    with_index q (find_at t (take n_vec query)) ++ find_from (q + 1) n n_vec (drop n_vec query) t

-- `find_batch_trie`
unfoldable pub find_batch_trie : List ℕ → ℕ → TrieCore → List (ℕ × Data)
unfolding find_from
find_batch_trie query num_query core =
    find_from 0 num_query core.bytes_per_vector query core.root_node
