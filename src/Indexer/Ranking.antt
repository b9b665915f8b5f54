-- ===== src/Indexer/Ranking.antt =====
-- gnes/indexer/chunk/numpy.py: `query` of `NumpyIndexer`. The matrix of scores that numpy makes of the
-- queries and the rows is the parameter `scores`, with `none` where it raises, as for vectors of other
-- widths; scores are only compared, so they are kept as numbers.
use gnes.Prelude.{
  Option, none, some, ℕ, ◌+◌, none, some, List, [], ◌∷◌, map, take, leb, if◌then◌else◌, Result, ok,
  err,
}
use gnes.Indexer.Keys.{ListKeyIndexer, KeyError, query_keys}
use gnes.Indexer.Arrays.{IndexerError, by_helper, no_vectors, unequal_shapes, NumpyIndexer}

-- `enumerate`, from `i` on.
unfoldable pub enumerate_from : ℕ → List ℕ → List (ℕ × ℕ)
enumerate_from i [] = []
enumerate_from i (s ∷ scores) = (i, s) ∷ enumerate_from (i + 1) scores

-- `sorted` by the score, which keeps the order of equal scores.
unfoldable pub insert_score : ℕ × ℕ → List (ℕ × ℕ) → List (ℕ × ℕ)
insert_score x [] = x ∷ []
insert_score x (y ∷ ys) =
    let rest = insert_score x ys in if leb x.1 y.1 then x ∷ y ∷ ys else y ∷ rest

unfoldable pub sort_scores : List (ℕ × ℕ) → List (ℕ × ℕ)
unfolding insert_score
sort_scores [] = []
sort_scores (x ∷ xs) = insert_score x (sort_scores xs)

-- `rk`
unfoldable pub best : ℕ → List ℕ → List (ℕ × ℕ)
unfolding enumerate_from sort_scores
best top_k scores = take top_k (sort_scores (enumerate_from 0 scores))

unfoldable pub zip_scores : {A : Type 0} → List A → List (ℕ × ℕ) → List (A × ℕ)
zip_scores [] rk = []
zip_scores (x ∷ xs) [] = []
zip_scores (x ∷ xs) ((_, s) ∷ rk) = (x, s) ∷ zip_scores xs rk

unfoldable pub with_scores :
    {A : Type 0}
    → List (ℕ × ℕ)
    → Result KeyError (List A)
    → Result {0, 0} IndexerError (List (A × ℕ))
unfolding zip_scores
with_scores rk (ok infos) = ok (zip_scores infos rk)
with_scores rk (err e) = err (by_helper e)

unfoldable pub before :
    {A : Type 0}
    → Result {0, 0} IndexerError A
    → Result {0, 0} IndexerError (List A)
    → Result {0, 0} IndexerError (List A)
before (err e) rest = err e
before (ok x) (ok xs) = ok (x ∷ xs)
before (ok x) (err e) = err e

-- The body of the loop over the scores of a query.
unfoldable pub query_row :
    {W : Type 0}
    → ListKeyIndexer W
    → ℕ
    → List ℕ
    → Result {0, 0} IndexerError (List ((ℕ × ℕ × W) × ℕ))
unfolding best query_keys with_scores
query_row helper top_k ids =
    let rk = best top_k ids in with_scores rk (query_keys helper (map (λ j. j.0) rk))

unfoldable pub query_rows :
    {W : Type 0}
    → ListKeyIndexer W
    → ℕ
    → List (List ℕ)
    → Result {0, 0} IndexerError (List (List ((ℕ × ℕ × W) × ℕ)))
unfolding query_row before
query_rows helper top_k [] = ok []
query_rows helper top_k (ids ∷ score) =
    before (query_row helper top_k ids) (query_rows helper top_k score)

unfoldable pub query_scores :
    {W : Type 0}
    → ListKeyIndexer W
    → ℕ
    → Option (List (List ℕ))
    → Result {0, 0} IndexerError (List (List ((ℕ × ℕ × W) × ℕ)))
unfolding query_rows
query_scores helper top_k none = err unequal_shapes
query_scores helper top_k (some score) = query_rows helper top_k score

-- `query`
unfoldable pub query_vectors :
    {E W : Type 0}
    → (List (List E) → List (List E) → Option (List (List ℕ)))
    → NumpyIndexer E W
    → ℕ
    → List (List E)
    → Result {0, 0} IndexerError (List (List ((ℕ × ℕ × W) × ℕ)))
unfolding query_scores
query_vectors scores m top_k keys = elim m.vectors [
  | none ↦ err no_vectors
  | some rows ↦ query_scores m.helper_indexer top_k (scores keys rows)
]
