-- ===== src/Examples/Tries.antt =====
-- A tree that two vectors are put into.
use gnes.Prelude.{ℕ, ◌≡◌, refl, List, [], ◌∷◌, ◌++◌, arith}
use gnes.Indexer.Trie.{
  Data, null, TrieCore, new_node, index_at, find_at, index_trie, find_batch_trie,
}
use gnes.Indexer.Lookups.{IsKeyed, HasNoZero}
use gnes.Indexer.Listing.{answers, matching, find_batch_trie-index_trie, find_at_zero}

-- Vectors of two bytes, labels of one.
abbrev fresh : TrieCore
fresh = record { bytes_per_vector = 2; bytes_per_label = 1; root_node = null }

abbrev vectors : List ℕ
vectors = 3 ∷ 1 ∷ 2 ∷ 5 ∷ 3 ∷ 1 ∷ []

abbrev ids : List ℕ
ids = 7 ∷ 8 ∷ 9 ∷ []

abbrev numbers : List ℕ
numbers = 1 ∷ 0 ∷ 2 ∷ 0 ∷ 3 ∷ 0 ∷ []

find_batch_trie-index_trie_example :
    IsKeyed (index_trie 3 vectors ids numbers numbers fresh).root_node
    × (find_batch_trie (2 ∷ 5 ∷ 3 ∷ 1 ∷ []) 2 (index_trie 3 vectors ids numbers numbers fresh)
        ≡ answers 0 2 2
            (2 ∷ 5 ∷ 3 ∷ 1 ∷ [])
            (λ w. find_at null w ++ matching 3 2 1 vectors ids numbers numbers w))
unfolding HasNoZero IsKeyed
find_batch_trie-index_trie_example =
    find_batch_trie-index_trie 3 2 vectors ids numbers numbers (2 ∷ 5 ∷ 3 ∷ 1 ∷ []) fresh
      (omega arith, (omega arith, (omega arith, (omega arith, (omega arith, (omega arith, tt))))))
      tt

abbrev first : Data
first = record { doc_id = 7; offset = 0; weight = 1 }

abbrev second : Data
second = record { doc_id = 8; offset = 0; weight = 1 }

find_at_zero_example :
    (find_at (index_at (index_at new_node (0 ∷ 3 ∷ []) first) (4 ∷ 5 ∷ []) second) (0 ∷ 3 ∷ [])
      ≡ [])
    × (find_at (index_at (index_at new_node (0 ∷ 3 ∷ []) first) (4 ∷ 5 ∷ []) second) (4 ∷ 3 ∷ [])
        ≡ first ∷ [])
unfolding HasNoZero
find_at_zero_example =
    find_at_zero 4 (3 ∷ []) (5 ∷ []) first second (omega arith) (omega arith, tt) (omega arith, tt)
      (λ h. cc h)

find_batch_of_two :
    find_batch_trie (2 ∷ 5 ∷ 3 ∷ 1 ∷ []) 2 (index_trie 3 vectors ids numbers numbers fresh)
    ≡ (0, record { doc_id = 8; offset = 2; weight = 2 })
      ∷ (1, record { doc_id = 7; offset = 1; weight = 1 })
      ∷ (1, record { doc_id = 9; offset = 3; weight = 3 })
      ∷ []
unfolding find_batch_trie index_trie
find_batch_of_two = refl
