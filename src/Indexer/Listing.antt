-- ===== src/Indexer/Listing.antt =====
-- gnes/indexer/chunk/bindexer/bindexer.pyx: `find_batch_trie` against the list of what was indexed.
use mathlib.Core.List.{append-nil, append_assoc}
use gnes.Prelude.{
  ℕ, zero, suc, ◌+◌, ◌≡◌, ◌≢◌, ◌<◌, inl, refl, sym, ap, ◌∙◌, List, [], ◌∷◌, ◌++◌, if◌then◌else◌,
  if_cases, str_eq, ◌==◌, eq_of_==, ==-refl, take, drop, true_and_false,
}
use gnes.Indexer.Trie.{
  Data, Trie, null, node, new_node, index_at, find_at, TrieCore, data_of, index_vectors, with_root,
  index_trie, with_index, find_from, find_batch_trie,
}
use gnes.Indexer.Lookups.{
  HasNoZero, IsKeyed, index_here, find_here, find_left, index_at-IsKeyed, find_at-index_at,
  find_null, find_unkeyed,
}
use gnes.Indexer.Apart.{find_at-other}

-- The data whose vector is `w`, in the order in which they are indexed.
unfoldable pub matching : ℕ → ℕ → ℕ → List ℕ → List ℕ → List ℕ → List ℕ → List ℕ → List Data
unfolding str_eq
matching zero n_vec n_label vectors ids offsets weights w = []
matching (suc n) n_vec n_label vectors ids offsets weights w =
    let rest =
      matching n n_vec n_label (drop n_vec vectors) (drop n_label ids) (drop 2 offsets)
        (drop 2 weights) w in
    if take n_vec vectors == w then data_of n_label ids offsets weights ∷ rest else rest

HasNoZero-take : (n : ℕ) (v : List ℕ) → HasNoZero v → HasNoZero (take n v)
unfolding HasNoZero
HasNoZero-take zero v h = tt
HasNoZero-take (suc n) [] h = tt
HasNoZero-take (suc n) (b ∷ bs) h = (h.0, HasNoZero-take n bs h.1)

HasNoZero-drop : (n : ℕ) (v : List ℕ) → HasNoZero v → HasNoZero (drop n v)
unfolding HasNoZero
HasNoZero-drop zero v h = h
HasNoZero-drop (suc n) [] h = tt
HasNoZero-drop (suc n) (b ∷ bs) h = HasNoZero-drop n bs h.1

-- What is found after the loop of `index_trie` is what was found before it, then what matches.
find_at-index_vectors :
    (n n_vec n_label : ℕ) (vectors ids offsets weights : List ℕ) (t : Trie) (w : List ℕ)
    → HasNoZero vectors
    → IsKeyed t
    → IsKeyed (index_vectors n n_vec n_label vectors ids offsets weights t)
      × (find_at (index_vectors n n_vec n_label vectors ids offsets weights t) w
          ≡ find_at t w ++ matching n n_vec n_label vectors ids offsets weights w)
unfolding index_vectors matching
find_at-index_vectors zero n_vec n_label vectors ids offsets weights t w h k =
    (k, sym (append-nil (find_at t w)))
find_at-index_vectors (suc n) n_vec n_label vectors ids offsets weights t w h k =
    let d = data_of n_label ids offsets weights in
    let v = take n_vec vectors in
    let rest =
      matching n n_vec n_label (drop n_vec vectors) (drop n_label ids) (drop 2 offsets)
        (drop 2 weights) w in
    let no_zero = HasNoZero-take n_vec vectors h in
    let (keyed, found) =
      find_at-index_vectors n n_vec n_label (drop n_vec vectors) (drop n_label ids) (drop 2 offsets)
        (drop 2 weights) (index_at t v d) w (HasNoZero-drop n_vec vectors h)
        (index_at-IsKeyed t v d no_zero k) in
    (
      keyed,
      found
          ∙ if_cases (λ (r : List Data). find_at (index_at t v d) w ++ rest ≡ find_at t w ++ r)
              (v == w) _ _
              (λ e.
                let same : w ≡ v = sym (eq_of_== v w e) in
                ap (λ (x : List Data). x ++ rest)
                  (ap (find_at (index_at t v d)) same
                    ∙ find_at-index_at t v d no_zero k
                    ∙ ap (λ u. find_at t u ++ d ∷ []) (sym same))
                ∙ append_assoc (find_at t w) (d ∷ []) rest)
              (λ ne.
                ap (λ (x : List Data). x ++ rest)
                  (find_at-other t v w d no_zero k
                    (λ same. true_and_false (ap (λ u. v == u) same ∙ ==-refl v) ne))),
    )

with_root_same :
    (t : Trie) (w : List ℕ)
    → IsKeyed t
    → IsKeyed (with_root t) × (find_at (with_root t) w ≡ find_at t w)
unfolding with_root new_node IsKeyed find_at
with_root_same null [] k = ((refl, refl, refl), refl)
with_root_same null (b ∷ bs) k =
    ((refl, refl, refl), find_unkeyed null null null [] b bs (refl, refl, refl))
with_root_same (node n l c r ds) w k = (k, refl)

-- The answers to `n` queries, from the query `q` on, where `f` has what a vector finds.
unfoldable pub answers : ℕ → ℕ → ℕ → List ℕ → (List ℕ → List Data) → List (ℕ × Data)
unfolding with_index
answers q zero n_vec query f = []
answers q (suc n) n_vec query f =
    with_index q (f (take n_vec query)) ++ answers (q + 1) n n_vec (drop n_vec query) f

find_from-answers :
    (q n n_vec : ℕ) (query : List ℕ) (t : Trie) (f : List ℕ → List Data)
    → ((w : List ℕ) → find_at t w ≡ f w)
    → find_from q n n_vec query t ≡ answers q n n_vec query f
unfolding find_from answers
find_from-answers q zero n_vec query t f same = refl
find_from-answers q (suc n) n_vec query t f same =
    cc (same (take n_vec query), find_from-answers (q + 1) n n_vec (drop n_vec query) t f same)

-- Where no byte of the indexed vectors is zero and no node below a node without a key, the tree
-- stays so, and each query of `find_batch_trie`, in its order, gets what its vector had before and
-- then the data that were indexed with that vector, in the order in which they came.
pub find_batch_trie-index_trie :
    (num_total num_query : ℕ) (vectors ids offsets weights query : List ℕ) (core : TrieCore)
    → HasNoZero vectors
    → IsKeyed core.root_node
    → IsKeyed (index_trie num_total vectors ids offsets weights core).root_node
      × (find_batch_trie query num_query (index_trie num_total vectors ids offsets weights core)
          ≡ answers 0 num_query core.bytes_per_vector query (λ w.
            find_at core.root_node w
            ++ matching num_total core.bytes_per_vector core.bytes_per_label vectors ids offsets
                weights w))
unfolding find_batch_trie index_trie
find_batch_trie-index_trie num_total num_query vectors ids offsets weights query core h k =
    let indexed =
      find_at-index_vectors num_total core.bytes_per_vector core.bytes_per_label vectors ids offsets
        weights (with_root core.root_node) in
    let before = with_root_same core.root_node in
    (
      (indexed [] h (before [] k).0).0,
      find_from-answers 0 num_query core.bytes_per_vector query _ _
          (λ w. cc ((indexed w h (before w k).0).1, (before w k).1)),
    )

-- A vector whose first byte is zero and one that starts with another byte `b`, put into an empty
-- tree one after the other: the first is no longer found, and its data are found under the vector
-- with `b` for its first byte, where the rests differ and have no zero.
pub find_at_zero :
    (b : ℕ) (v w : List ℕ) (d e : Data)
    → 0 < b
    → HasNoZero v
    → HasNoZero w
    → v ≢ w
    → (find_at (index_at (index_at new_node (0 ∷ v) d) (b ∷ w) e) (0 ∷ v) ≡ [])
      × (find_at (index_at (index_at new_node (0 ∷ v) d) (b ∷ w) e) (b ∷ v) ≡ d ∷ [])
unfolding new_node IsKeyed
find_at_zero b v w d e pos hv hw ne =
    let tree : index_at (index_at new_node (0 ∷ v) d) (b ∷ w) e
        ≡ node b null (index_at (index_at null v d) w e) null [] =
      ap (λ t. index_at t (b ∷ w) e) (index_here 0 0 null null null [] v d (inl refl))
      ∙ index_here 0 b null (index_at null v d) null [] w e (inl refl) in
    (
      ap (λ t. find_at t (0 ∷ v)) tree
          ∙ find_left b 0 null (index_at (index_at null v d) w e) null [] v pos
          ∙ find_null null (0 ∷ v) refl,
      ap (λ t. find_at t (b ∷ v)) tree
          ∙ find_here b b null (index_at (index_at null v d) w e) null [] v refl
          ∙ find_at-other (index_at null v d) w v e hw (index_at-IsKeyed null v d hv tt) ne
          ∙ find_at-index_at null v d hv tt
          ∙ ap (λ (x : List Data). x ++ d ∷ []) (find_null null v refl),
    )
