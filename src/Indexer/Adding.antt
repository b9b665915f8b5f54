-- ===== src/Indexer/Adding.antt =====
-- gnes/indexer/chunk/numpy.py: what `add` leaves in a `NumpyIndexer` and its helper.
use native.Mathlib.Nat.{mod_self}
use gnes.Prelude.{
  ℕ, suc, ◌%◌, ◌≡◌, refl, sym, ap, ◌∙◌, subst, Bool, true, false, ◌⊎◌, inl, inr, Option, none, some,
  List, [], ◌∷◌, ◌++◌, length, length-append, ◌==◌, nat_eq, Bool-cases, pure, ◌>>◌, ==-refl, Result,
  ok, err, arith,
}
use gnes.Indexer.Keys.{IsAligned, add_keys, count_keys, extend}
use gnes.Indexer.Arrays.{
  IndexerError, NumpyIndexer, Numpy, joined, width, set_dim, join_rows, add_rows, add_to_helper,
  add_vectors, is_unset, is_dim, from_helper, put_rows, unequal_shapes, wrong_dim,
}

abbrev pub rows_of {ℓ} : {A : Type ℓ} → Option (List A) → List A
rows_of none = []
rows_of (some rows) = rows

joined-cases :
    {E : Type 0} (np : Numpy E) (v : Option (List (List E))) (rows : List (List E))
    → ((old new : List (List E))
        → (np.concatenate old new ≡ some (old ++ new)) ⊎ (np.concatenate old new ≡ none))
    → (joined np v rows ≡ some (rows_of v ++ rows)) ⊎ (joined np v rows ≡ none)
unfolding joined
joined-cases np none rows joins = inl refl
joined-cases np (some old) rows joins = joins old rows

no_rest : (n : ℕ) → (suc n % suc n == 0) ≡ true
unfolding nat_eq
no_rest n = rw (mod_self (suc n)) refl

module _ {E W : Type 0} where
  -- As many rows as keys, and as many weights.
  abbrev pub IsMatched : NumpyIndexer E W → Type 0
  IsMatched m =
      (length (rows_of m.vectors) ≡ length m.helper_indexer.int2key) × IsAligned m.helper_indexer

  -- Nothing but the dimension differs.
  pub record Same (m m' : NumpyIndexer E W) : Type 0 where
    pub rows : m'.vectors ≡ m.vectors
    pub helper : m'.helper_indexer ≡ m.helper_indexer

  -- Keys, rows and weights stand behind those there were.
  pub record Added (keys : List (ℕ × ℕ)) (new : List (List E)) (weights : List W)
      (m m' : NumpyIndexer E W) : Type 0 where
    pub rows : m'.vectors ≡ some (rows_of m.vectors ++ new)
    pub int2key : m'.helper_indexer.int2key ≡ m.helper_indexer.int2key ++ keys
    pub int2key_weight :
        m'.helper_indexer.int2key_weight ≡ m.helper_indexer.int2key_weight ++ weights

  set_dim-cases :
      (n : ℕ) (m : NumpyIndexer E W)
      → ((dim : Option ℕ) × (set_dim n m ≡ (ok tt, record m { num_dim = dim })))
        ⊎ ((e : IndexerError) × (set_dim n m ≡ (err e, m)))
  unfolding set_dim
  set_dim-cases n m = elim (Bool-cases (is_unset m.num_dim)) [
    | inl e ↦ inl (some n, rw e refl)
    | inr ne ↦ elim (Bool-cases (is_dim m.num_dim n)) [
      | inl same ↦ inl (m.num_dim, rw (ne, same) refl)
      | inr other ↦ inr (wrong_dim, rw (ne, other) refl)
    ]
  ]

  -- Rows for as many keys are either refused or put behind the rows there are.
  add_rows-cases :
      (np : Numpy E)
      (joins : (old new : List (List E))
        → (np.concatenate old new ≡ some (old ++ new)) ⊎ (np.concatenate old new ≡ none))
      (k : ℕ × ℕ) (keys : List (ℕ × ℕ)) (rows : List (List E)) (m : NumpyIndexer E W)
      → length rows ≡ length (k ∷ keys)
      → ((dim : Option ℕ) × (add_rows np (k ∷ keys) rows m
            ≡ (ok tt, record m { num_dim = dim; vectors = some (rows_of m.vectors ++ rows) })))
        ⊎ ((e : IndexerError) × (dim : Option ℕ) × (add_rows np (k ∷ keys) rows m
              ≡ (err e, record m { num_dim = dim })))
  unfolding add_rows join_rows put_rows nat_eq
  add_rows-cases np joins k keys rows m fit =
      let any : (length (k ∷ keys) == 0) ≡ false = ground arith in
      let even : (length rows % length (k ∷ keys) == 0) ≡ true =
        ap (λ n. n % suc (length keys) == 0) fit ∙ no_rest (length keys) in
      elim (set_dim-cases (width rows) m) [
        | inl (dim, set) ↦ elim (joined-cases np m.vectors rows joins) [
          | inl put ↦ inl (dim, rw (any, even, set, put) refl)
          | inr refused ↦ inr (unequal_shapes, dim, rw (any, even, set, refused) refl)
        ]
        | inr (e, refused) ↦ inr (e, m.num_dim, rw (any, even, refused) refl)
      ]

  add_to_helper-Added :
      (k : ℕ × ℕ) (keys : List (ℕ × ℕ)) (weights : List W) (m : NumpyIndexer E W)
      → length (k ∷ keys) ≡ length weights
      → ((add_to_helper (k ∷ keys) weights m).0 ≡ ok tt)
        × ((add_to_helper (k ∷ keys) weights m).1.vectors ≡ m.vectors)
        × ((add_to_helper (k ∷ keys) weights m).1.helper_indexer.int2key
            ≡ m.helper_indexer.int2key ++ k ∷ keys)
        × ((add_to_helper (k ∷ keys) weights m).1.helper_indexer.int2key_weight
            ≡ m.helper_indexer.int2key_weight ++ weights)
  unfolding add_to_helper add_keys count_keys extend from_helper nat_eq
  add_to_helper-Added k keys weights m fit =
      let same : (length (k ∷ keys) == length weights) ≡ true =
        ap (λ n. length (k ∷ keys) == n) (sym fit) ∙ ==-refl (length (k ∷ keys)) in
      rw same (refl, refl, refl, refl)

  -- An error leaves the rows and the helper as they were; else all is added.
  abbrev pub Outcome :
      List (ℕ × ℕ)
      → List (List E)
      → List W
      → NumpyIndexer E W
      → Result {0, 0} IndexerError Bool × NumpyIndexer E W
      → Type 0
  Outcome keys rows weights m out =
      (((e : IndexerError) × (out.0 ≡ err e)) × Same m out.1)
      ⊎ ((out.0 ≡ ok true) × Added keys rows weights m out.1)

  pub add_vectors-Outcome :
      (np : Numpy E)
      (joins : (old new : List (List E))
        → (np.concatenate old new ≡ some (old ++ new)) ⊎ (np.concatenate old new ≡ none))
      (k : ℕ × ℕ) (keys : List (ℕ × ℕ)) (rows : List (List E)) (weights : List W)
      (m : NumpyIndexer E W)
      → length rows ≡ length (k ∷ keys)
      → length (k ∷ keys) ≡ length weights
      → Outcome (k ∷ keys) rows weights m ((add_vectors np (k ∷ keys) rows weights >> pure true) m)
  unfolding add_vectors
  add_vectors-Outcome np joins k keys rows weights m fit fit' =
      elim (add_rows-cases np joins k keys rows m fit) [
        | inl (dim, done) ↦
            let put = record m { num_dim = dim; vectors = some (rows_of m.vectors ++ rows) } in
            let (returned, kept, new_keys, new_weights) =
              add_to_helper-Added k keys weights put fit' in
            inr (
              rw (done, returned) refl,
              rw (done, returned)
                  (record { rows = kept; int2key = new_keys; int2key_weight = new_weights }),
            )
        | inr (e, dim, refused) ↦
            inl (rw refused ((e, refl), record { rows = refl; helper = refl }))
      ]

  pub Same-IsMatched : (m m' : NumpyIndexer E W) → Same m m' → IsMatched m → IsMatched m'
  Same-IsMatched m m' same (rows, aligned) = (
    ap (λ v. length (rows_of v)) same.rows ∙ rows ∙ sym (ap (λ h. length h.int2key) same.helper),
    subst IsAligned (sym same.helper) aligned,
  )

  pub Added-IsMatched :
      (keys : List (ℕ × ℕ)) (new : List (List E)) (weights : List W) (m m' : NumpyIndexer E W)
      → length new ≡ length keys
      → length keys ≡ length weights
      → Added keys new weights m m'
      → IsMatched m
      → IsMatched m'
  Added-IsMatched keys new weights m m' fit fit' added (rows, aligned) = (
    omega (
      arith,
      ap (λ v. length (rows_of v)) added.rows,
      ap length added.int2key,
      length-append (rows_of m.vectors) new,
      length-append m.helper_indexer.int2key keys,
      rows,
      fit,
    ),
    omega (
      arith,
      ap length added.int2key,
      ap length added.int2key_weight,
      length-append m.helper_indexer.int2key keys,
      length-append m.helper_indexer.int2key_weight weights,
      aligned,
      fit',
    ),
  )
