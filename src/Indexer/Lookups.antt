-- ===== src/Indexer/Lookups.antt =====
-- gnes/indexer/chunk/bindexer/bindexer.pyx: what is put into the tree is found again.
use gnes.Prelude.{
  ℕ, zero, suc, ◌<◌, ◌≡◌, refl, sym, ap, ◌∙◌, subst, List, [], ◌∷◌, ◌++◌, nat_eq, ◌==◌, if_cases,
  dec_lt, arith, ◌⊎◌, inl, inr,
}
use gnes.Indexer.Trie.{Data, Trie, null, node, index_at, find_at}

-- A byte of 0 is the key of a node that has none yet.
unfoldable pub HasNoZero : List ℕ → Type 0
HasNoZero [] = Unit
HasNoZero (b ∷ bs) = (0 < b) × HasNoZero bs

-- A node without a key has no pointers.
unfoldable pub IsKeyed : Trie → Type 0
IsKeyed null = Unit
IsKeyed (node zero l c r ds) = (l ≡ null) × (c ≡ null) × (r ≡ null)
IsKeyed (node (suc k) l c r ds) = IsKeyed l × IsKeyed c × IsKeyed r

pub three_ways : (k b : ℕ) → (k ≡ b) ⊎ ((b < k) ⊎ (k < b))
three_ways k b = elim (dec_lt k b) [
  | yes lt ↦ inr (inr lt)
  | no ge ↦ elim (dec_lt b k) [ yes lt ↦ inr (inl lt) | no le ↦ inl (omega arith) ]
]

-- Where a byte leads, and where a new one goes.
module _ (k b : ℕ) (l c r : Trie) (ds : List Data) (bs : List ℕ) where
  pub find_here : k ≡ b → find_at (node k l c r ds) (b ∷ bs) ≡ find_at c bs
  unfolding find_at
  find_here e = if_cases (λ x. x ≡ find_at c bs) (k == b) _ _ (λ _. refl) (λ h. ground arith)

  pub find_left : b < k → find_at (node k l c r ds) (b ∷ bs) ≡ find_at l (b ∷ bs)
  unfolding find_at
  find_left lt = ground arith

  pub find_right : k < b → find_at (node k l c r ds) (b ∷ bs) ≡ find_at r (b ∷ bs)
  unfolding find_at
  find_right lt = ground arith

  module _ (d : Data) where
    pub index_here :
        (k ≡ 0) ⊎ (k ≡ b) → index_at (node k l c r ds) (b ∷ bs) d ≡ node b l (index_at c bs d) r ds
    unfolding index_at
    index_here e = ground arith

    pub index_left :
        0 < k
        → b < k
        → index_at (node k l c r ds) (b ∷ bs) d ≡ node k (index_at l (b ∷ bs) d) c r ds
    unfolding index_at
    index_left pos lt = ground arith

    pub index_right :
        0 < k
        → k < b
        → index_at (node k l c r ds) (b ∷ bs) d ≡ node k l c (index_at r (b ∷ bs) d) ds
    unfolding index_at
    index_right pos lt = ground arith

pub find_null : (t : Trie) (bs : List ℕ) → t ≡ null → find_at t bs ≡ []
unfolding find_at
find_null t bs e = ap (λ x. find_at x bs) e

-- A node without a key leads nowhere.
pub find_unkeyed :
    (l c r : Trie) (ds : List Data) (b : ℕ) (bs : List ℕ)
    → IsKeyed (node 0 l c r ds)
    → find_at (node 0 l c r ds) (b ∷ bs) ≡ []
unfolding IsKeyed
find_unkeyed l c r ds zero bs (el, ec, er) = find_here 0 0 l c r ds bs refl ∙ find_null c bs ec
find_unkeyed l c r ds (suc b) bs (el, ec, er) =
    find_right 0 (suc b) l c r ds bs (omega arith) ∙ find_null r (suc b ∷ bs) er

-- The keys of a tree stay above zero.
pub index_at-IsKeyed :
    (t : Trie) (v : List ℕ) (d : Data) → HasNoZero v → IsKeyed t → IsKeyed (index_at t v d)
unfolding IsKeyed HasNoZero index_at
index_at-IsKeyed null [] d h k = (refl, refl, refl)
index_at-IsKeyed null (zero ∷ bs) d h k = absurd (omega (arith, h.0))
index_at-IsKeyed null (suc b ∷ bs) d h k = (tt, index_at-IsKeyed null bs d h.1 tt, tt)
index_at-IsKeyed (node zero l c r ds) [] d h k = k
index_at-IsKeyed (node (suc n) l c r ds) [] d h k = k
index_at-IsKeyed (node n l c r ds) (zero ∷ bs) d h k = absurd (omega (arith, h.0))
index_at-IsKeyed (node zero l c r ds) (suc b ∷ bs) d h (el, ec, er) = (
  subst IsKeyed (sym el) tt,
  index_at-IsKeyed c bs d h.1 (subst IsKeyed (sym ec) tt),
  subst IsKeyed (sym er) tt,
)
index_at-IsKeyed (node (suc n) l c r ds) (suc b ∷ bs) d h (kl, kc, kr) =
    elim (three_ways (suc n) (suc b)) [
      | inl e ↦
          subst IsKeyed (sym (index_here (suc n) (suc b) l c r ds bs d (inr e)))
            (kl, index_at-IsKeyed c bs d h.1 kc, kr)
      | inr (inl lt) ↦
          subst IsKeyed (sym (index_left (suc n) (suc b) l c r ds bs d (omega arith) lt))
            (index_at-IsKeyed l (suc b ∷ bs) d h kl, kc, kr)
      | inr (inr gt) ↦
          subst IsKeyed (sym (index_right (suc n) (suc b) l c r ds bs d (omega arith) gt))
            (kl, kc, index_at-IsKeyed r (suc b ∷ bs) d h kr)
    ]

-- A vector that has been put in is found with its data behind those that were there.
pub find_at-index_at :
    (t : Trie) (v : List ℕ) (d : Data)
    → HasNoZero v
    → IsKeyed t
    → find_at (index_at t v d) v ≡ find_at t v ++ d ∷ []
unfolding IsKeyed HasNoZero index_at find_at
find_at-index_at null [] d h k = refl
find_at-index_at null (b ∷ bs) d h k =
    find_here b b null (index_at null bs d) null [] bs refl ∙ find_at-index_at null bs d h.1 tt
find_at-index_at (node zero l c r ds) [] d h k = refl
find_at-index_at (node (suc n) l c r ds) [] d h k = refl
find_at-index_at (node n l c r ds) (zero ∷ bs) d h k = absurd (omega (arith, h.0))
find_at-index_at (node zero l c r ds) (suc b ∷ bs) d h k =
    find_here (suc b) (suc b) l (index_at c bs d) r ds bs refl
    ∙ find_at-index_at c bs d h.1 (subst IsKeyed (sym k.1) tt)
    ∙ ap (λ (x : List Data). x ++ d ∷ [])
        (find_null c bs k.1 ∙ sym (find_unkeyed l c r ds (suc b) bs k))
find_at-index_at (node (suc n) l c r ds) (suc b ∷ bs) d h (kl, kc, kr) =
    elim (three_ways (suc n) (suc b)) [
      | inl e ↦
          ap (λ x. find_at x (suc b ∷ bs)) (index_here (suc n) (suc b) l c r ds bs d (inr e))
          ∙ find_here (suc b) (suc b) l (index_at c bs d) r ds bs refl
          ∙ find_at-index_at c bs d h.1 kc
          ∙ ap (λ (x : List Data). x ++ d ∷ []) (sym (find_here (suc n) (suc b) l c r ds bs e))
      | inr (inl lt) ↦
          ap (λ x. find_at x (suc b ∷ bs))
            (index_left (suc n) (suc b) l c r ds bs d (omega arith) lt)
          ∙ find_left (suc n) (suc b) (index_at l (suc b ∷ bs) d) c r ds bs lt
          ∙ find_at-index_at l (suc b ∷ bs) d h kl
          ∙ ap (λ (x : List Data). x ++ d ∷ []) (sym (find_left (suc n) (suc b) l c r ds bs lt))
      | inr (inr gt) ↦
          ap (λ x. find_at x (suc b ∷ bs))
            (index_right (suc n) (suc b) l c r ds bs d (omega arith) gt)
          ∙ find_right (suc n) (suc b) l c (index_at r (suc b ∷ bs) d) ds bs gt
          ∙ find_at-index_at r (suc b ∷ bs) d h kr
          ∙ ap (λ (x : List Data). x ++ d ∷ []) (sym (find_right (suc n) (suc b) l c r ds bs gt))
    ]
