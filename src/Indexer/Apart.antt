-- ===== src/Indexer/Apart.antt =====
-- gnes/indexer/chunk/bindexer/bindexer.pyx: what is put into the tree leaves the data of other
-- vectors as they are.
use gnes.Prelude.{
  ℕ, zero, suc, ◌<◌, ◌≡◌, ◌≢◌, refl, sym, ap, ◌∙◌, subst, List, [], ◌∷◌, inl, inr, arith,
}
use gnes.Indexer.Trie.{Data, Trie, null, node, index_at, find_at}
use gnes.Indexer.Lookups.{
  HasNoZero, IsKeyed, three_ways, find_here, find_left, find_right, index_here, index_left,
  index_right, find_null, find_unkeyed,
}

-- A search goes the same way where the keys are the same.
find_same :
    (k : ℕ) (l c r l' c' r' : Trie) (ds ds' : List Data) (w : ℕ) (ws : List ℕ)
    → (k ≡ w → find_at c' ws ≡ find_at c ws)
    → (w < k → find_at l' (w ∷ ws) ≡ find_at l (w ∷ ws))
    → (k < w → find_at r' (w ∷ ws) ≡ find_at r (w ∷ ws))
    → find_at (node k l' c' r' ds') (w ∷ ws) ≡ find_at (node k l c r ds) (w ∷ ws)
find_same k l c r l' c' r' ds ds' w ws here left right = elim (three_ways k w) [
  | inl e ↦ find_here k w l' c' r' ds' ws e ∙ here e ∙ sym (find_here k w l c r ds ws e)
  | inr (inl lt) ↦ find_left k w l' c' r' ds' ws lt ∙ left lt ∙ sym (find_left k w l c r ds ws lt)
  | inr (inr gt) ↦
      find_right k w l' c' r' ds' ws gt ∙ right gt ∙ sym (find_right k w l c r ds ws gt)
]

-- A node whose pointers lead nowhere for a query answers it with nothing.
find_nothing :
    (k : ℕ) (l c r : Trie) (ds : List Data) (w : ℕ) (ws : List ℕ)
    → (k ≡ w → find_at c ws ≡ [])
    → l ≡ null
    → r ≡ null
    → find_at (node k l c r ds) (w ∷ ws) ≡ []
find_nothing k l c r ds w ws here el er = elim (three_ways k w) [
  | inl e ↦ find_here k w l c r ds ws e ∙ here e
  | inr (inl lt) ↦ find_left k w l c r ds ws lt ∙ find_null l (w ∷ ws) el
  | inr (inr gt) ↦ find_right k w l c r ds ws gt ∙ find_null r (w ∷ ws) er
]

-- The data at the node itself stay when a longer vector is put in.
index_at_data :
    (k : ℕ) (l c r : Trie) (ds : List Data) (b : ℕ) (bs : List ℕ) (d : Data)
    → find_at (index_at (node k l c r ds) (b ∷ bs) d) [] ≡ ds
unfolding find_at
index_at_data zero l c r ds b bs d =
    ap (λ x. find_at x []) (index_here 0 b l c r ds bs d (inl refl))
index_at_data (suc n) l c r ds b bs d = elim (three_ways (suc n) b) [
  | inl e ↦ ap (λ x. find_at x []) (index_here (suc n) b l c r ds bs d (inr e))
  | inr (inl lt) ↦ ap (λ x. find_at x []) (index_left (suc n) b l c r ds bs d (omega arith) lt)
  | inr (inr gt) ↦ ap (λ x. find_at x []) (index_right (suc n) b l c r ds bs d (omega arith) gt)
]

-- Another vector than the one that is put in is found with the data it had.
pub find_at-other :
    (t : Trie) (v w : List ℕ) (d : Data)
    → HasNoZero v
    → IsKeyed t
    → w ≢ v
    → find_at (index_at t v d) w ≡ find_at t w
unfolding IsKeyed HasNoZero index_at find_at
find_at-other null [] [] d h k ne = absurd (ne refl)
find_at-other null [] (w ∷ ws) d h k ne =
    find_unkeyed null null null (d ∷ []) w ws (refl, refl, refl)
find_at-other null (b ∷ bs) [] d h k ne = refl
find_at-other null (b ∷ bs) (w ∷ ws) d h k ne =
    find_nothing b null (index_at null bs d) null [] w ws
      (λ e. find_at-other null bs ws d h.1 tt (λ same. ne (cc))) refl refl
find_at-other (node n l c r ds) [] [] d h k ne = absurd (ne refl)
find_at-other (node n l c r ds) [] (w ∷ ws) d h k ne = refl
find_at-other (node n l c r ds) (b ∷ bs) [] d h k ne = index_at_data n l c r ds b bs d
find_at-other (node n l c r ds) (zero ∷ bs) (w ∷ ws) d h k ne = absurd (omega (arith, h.0))
find_at-other (node zero l c r ds) (suc b ∷ bs) (w ∷ ws) d h k ne =
    find_nothing (suc b) l (index_at c bs d) r ds w ws
      (λ e.
        find_at-other c bs ws d h.1 (subst IsKeyed (sym k.1) tt) (λ same. ne cc)
        ∙ find_null c ws k.1)
      k.0 k.2
    ∙ sym (find_unkeyed l c r ds w ws k)
find_at-other (node (suc n) l c r ds) (suc b ∷ bs) (w ∷ ws) d h (kl, kc, kr) ne =
    elim (three_ways (suc n) (suc b)) [
      | inl e ↦
          ap (λ x. find_at x (w ∷ ws)) (index_here (suc n) (suc b) l c r ds bs d (inr e))
          ∙ ap (λ x. find_at (node x l (index_at c bs d) r ds) (w ∷ ws)) (sym e)
          ∙ find_same (suc n) l c r l (index_at c bs d) r ds ds w ws
              (λ ew. find_at-other c bs ws d h.1 kc (λ same. ne cc)) (λ _. refl) (λ _. refl)
      | inr (inl lt) ↦
          ap (λ x. find_at x (w ∷ ws)) (index_left (suc n) (suc b) l c r ds bs d (omega arith) lt)
          ∙ find_same (suc n) l c r (index_at l (suc b ∷ bs) d) c r ds ds w ws (λ _. refl)
              (λ _. find_at-other l (suc b ∷ bs) (w ∷ ws) d h kl ne) (λ _. refl)
      | inr (inr gt) ↦
          ap (λ x. find_at x (w ∷ ws)) (index_right (suc n) (suc b) l c r ds bs d (omega arith) gt)
          ∙ find_same (suc n) l c r l c (index_at r (suc b ∷ bs) d) ds ds w ws (λ _. refl)
              (λ _. refl) (λ _. find_at-other r (suc b ∷ bs) (w ∷ ws) d h kr ne)
    ]
