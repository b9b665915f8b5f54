-- ===== src/Examples/Keys.antt =====
-- A key indexer with one key, and two more added.
use gnes.Prelude.{ℕ, ◌-◌, ◌≡◌, refl, [], ◌∷◌, ok, ltb, if◌then◌else◌, arith}
use gnes.Indexer.Keys.{
  ListKeyIndexer, IsAligned, add_keys, entry_of, query_keys, add_keys-entries, query_keys-add_keys,
}

abbrev held : ListKeyIndexer ℕ
held = record {
  int2key = (7, 0) ∷ [];
  int2key_weight = 90 ∷ [];
  num_docs = 1;
  num_chunks = 1;
  num_chunks_in_doc = (7, 1) ∷ [];
}

abbrev added : ListKeyIndexer ℕ
added = record {
  int2key = (7, 0) ∷ (8, 0) ∷ (8, 1) ∷ [];
  int2key_weight = 90 ∷ 30 ∷ 40 ∷ [];
  num_docs = 2;
  num_chunks = 3;
  num_chunks_in_doc = (7, 1) ∷ (8, 2) ∷ [];
}

query_keys_of_added : query_keys added (0 ∷ 2 ∷ []) ≡ ok ((7, 0, 90) ∷ (8, 1, 40) ∷ [])
unfolding query_keys
query_keys_of_added = refl

add_keys-entries_example :
    ((add_keys ((8, 0) ∷ (8, 1) ∷ []) (30 ∷ 40 ∷ []) held).0 ≡ ok 3)
    × IsAligned (add_keys ((8, 0) ∷ (8, 1) ∷ []) (30 ∷ 40 ∷ []) held).1
    × ((i : ℕ)
        → entry_of
            (add_keys ((8, 0) ∷ (8, 1) ∷ []) (30 ∷ 40 ∷ []) held).1.int2key
            (add_keys ((8, 0) ∷ (8, 1) ∷ []) (30 ∷ 40 ∷ []) held).1.int2key_weight
            i
          ≡ (if ltb i 1
              then entry_of ((7, 0) ∷ []) (90 ∷ []) i
              else entry_of ((8, 0) ∷ (8, 1) ∷ []) (30 ∷ 40 ∷ []) (i - 1)))
add_keys-entries_example = add_keys-entries held (8, 0) ((8, 1) ∷ []) (30 ∷ 40 ∷ []) refl refl

query_keys-add_keys_example :
    query_keys (add_keys ((8, 0) ∷ (8, 1) ∷ []) (30 ∷ 40 ∷ []) held).1 (0 ∷ 0 ∷ [])
    ≡ query_keys held (0 ∷ 0 ∷ [])
query_keys-add_keys_example =
    query_keys-add_keys held (8, 0) ((8, 1) ∷ []) (30 ∷ 40 ∷ []) refl refl (0 ∷ 0 ∷ [])
      (omega arith, (omega arith, tt))
