-- ===== src/Indexer/Answered.antt =====
-- gnes/indexer/chunk/numpy.py: what `query` of `NumpyIndexer` returns.
use mathlib.Core.Path.{ap₂}
use gnes.Prelude.{
  Option, Each-weaken, ℕ, zero, suc, ◌+◌, ◌≤◌, ◌<◌, ◌≡◌, refl, sym, ap, ◌∙◌, some, List, [], ◌∷◌,
  map, length, take, ok, Each, arith, get_elem?,
}
use gnes.Indexer.Keys.{ListKeyIndexer, query_keys, entry_of, entry, with_entry, IsAligned}
use gnes.Indexer.Arrays.{NumpyIndexer}
use gnes.Indexer.Adding.{IsMatched, rows_of}
use gnes.Indexer.Ranking.{
  enumerate_from, sort_scores, best, zip_scores, with_scores, query_row, query_rows, query_scores,
  query_vectors, before,
}
use gnes.Indexer.Ranked.{AreBest, best-AreBest, Each-sort_scores}

enumerate_from_below :
    (i n : ℕ) (scores : List ℕ)
    → i + length scores ≤ n
    → Each (λ j. j.0 < n) (enumerate_from i scores)
unfolding enumerate_from Each
enumerate_from_below i n [] h = tt
enumerate_from_below i n (s ∷ scores) h =
    (omega arith, enumerate_from_below (i + 1) n scores (omega arith))

Each-take : {A : Type 0} (P : A → Type 0) (n : ℕ) (xs : List A) → Each P xs → Each P (take n xs)
unfolding Each
Each-take P zero xs h = tt
Each-take P (suc n) [] h = tt
Each-take P (suc n) (x ∷ xs) (p, h) = (p, Each-take P n xs h)

best_below :
    (top_k n : ℕ) (scores : List ℕ) → length scores ≤ n → Each (λ j. j.0 < n) (best top_k scores)
unfolding best
best_below top_k n scores h =
    Each-take (λ j. j.0 < n) top_k (sort_scores (enumerate_from 0 scores))
      (Each-sort_scores (λ j. j.0 < n) (enumerate_from 0 scores)
        (enumerate_from_below 0 n scores (omega (arith, h))))

some_at : {A : Type 0} (xs : List A) (i : ℕ) → i < length xs → (x : A) × (get_elem? xs i ≡ some x)
some_at [] i h = absurd (omega arith)
some_at (x ∷ xs) zero h = (x, refl)
some_at (x ∷ xs) (suc i) h = some_at xs i (omega arith)

-- Positions of entries are looked up without an error.
query_keys_below :
    {W : Type 0} (s : ListKeyIndexer W) (rk : List (ℕ × ℕ))
    → IsAligned s
    → Each (λ j. j.0 < length s.int2key) rk
    → (infos : List (ℕ × ℕ × W)) × (query_keys s (map (λ j. j.0) rk) ≡ ok infos)
      × (length infos ≡ length rk)
unfolding query_keys entry_of entry with_entry Each
query_keys_below s [] aligned h = ([], refl, refl)
query_keys_below s ((i, score) ∷ rk) aligned (lt, h) =
    let (infos, looked, number) = query_keys_below s rk aligned h in
    let (key, at_key) = some_at s.int2key i lt in
    let (weight, at_weight) = some_at s.int2key_weight i (omega (arith, lt, aligned)) in
    ((key.0, key.1, weight) ∷ infos, rw (at_key, at_weight, looked) refl, omega (arith, number))

zip_scores-infos :
    {A : Type 0} (infos : List A) (rk : List (ℕ × ℕ))
    → length infos ≡ length rk
    → map (λ r. r.0) (zip_scores infos rk) ≡ infos
unfolding zip_scores
zip_scores-infos [] rk h = refl
zip_scores-infos (x ∷ xs) [] h = absurd (omega arith)
zip_scores-infos (x ∷ xs) (j ∷ rk) h = ap (λ l. x ∷ l) (zip_scores-infos xs rk (omega arith))

zip_scores_scores :
    {A : Type 0} (infos : List A) (rk : List (ℕ × ℕ))
    → length infos ≡ length rk
    → map (λ r. r.1) (zip_scores infos rk) ≡ map (λ j. j.1) rk
unfolding zip_scores
zip_scores_scores [] [] h = refl
zip_scores_scores [] (j ∷ rk) h = absurd (omega arith)
zip_scores_scores (x ∷ xs) [] h = absurd (omega arith)
zip_scores_scores (x ∷ xs) (j ∷ rk) h = ap (λ l. j.1 ∷ l) (zip_scores_scores xs rk (omega arith))

module _ {W : Type 0} where
  -- The results for a query with the scores `ids`: the entries of the best rows, with their scores.
  pub record RowAnswer (helper : ListKeyIndexer W) (top_k : ℕ) (ids : List ℕ)
      (found : List ((ℕ × ℕ × W) × ℕ)) : Type 0 where
    pub rk : List (ℕ × ℕ)
    pub ranked : AreBest top_k ids rk
    pub infos : query_keys helper (map (λ j. j.0) rk) ≡ ok (map (λ r. r.0) found)
    pub scores : map (λ r. r.1) found ≡ map (λ j. j.1) rk

  unfoldable pub AreAnswers :
      ListKeyIndexer W → ℕ → List (List ℕ) → List (List ((ℕ × ℕ × W) × ℕ)) → Type 0
  AreAnswers helper top_k [] [] = Unit
  AreAnswers helper top_k (ids ∷ score) (found ∷ rest) =
      RowAnswer helper top_k ids found × AreAnswers helper top_k score rest
  AreAnswers helper top_k [] (_ ∷ _) = ⊥
  AreAnswers helper top_k (_ ∷ _) [] = ⊥

  query_row-RowAnswer :
      (helper : ListKeyIndexer W) (top_k : ℕ) (ids : List ℕ)
      → length ids ≡ length helper.int2key
      → IsAligned helper
      → (found : List ((ℕ × ℕ × W) × ℕ)) × (query_row helper top_k ids ≡ ok found)
        × RowAnswer helper top_k ids found
  unfolding query_row with_scores
  query_row-RowAnswer helper top_k ids fit aligned =
      let rk = best top_k ids in
      let (infos, looked, number) =
        query_keys_below helper rk aligned
          (best_below top_k (length helper.int2key) ids (omega (arith, fit))) in
      (
        zip_scores infos rk,
        rw looked refl,
        record {
          rk = rk;
          ranked = best-AreBest top_k ids;
          infos = looked ∙ ap ok (sym (zip_scores-infos infos rk number));
          scores = zip_scores_scores infos rk number;
        },
      )

  query_rows-AreAnswers :
      (helper : ListKeyIndexer W) (top_k : ℕ) (score : List (List ℕ))
      → Each (λ ids. length ids ≡ length helper.int2key) score
      → IsAligned helper
      → (out : List (List ((ℕ × ℕ × W) × ℕ))) × (query_rows helper top_k score ≡ ok out)
        × AreAnswers helper top_k score out
  unfolding query_rows before AreAnswers Each
  query_rows-AreAnswers helper top_k [] fit aligned = ([], refl, tt)
  query_rows-AreAnswers helper top_k (ids ∷ score) (fit, fits) aligned =
      let (found, one, answer) = query_row-RowAnswer helper top_k ids fit aligned in
      let (rest, others, answers) = query_rows-AreAnswers helper top_k score fits aligned in
      (found ∷ rest, ap₂ before one others, (answer, answers))

module _ {E W : Type 0} where
  -- Where rows have been added, as many as keys and weights, and numpy gives every query a score for
  -- each row, query raises nothing and answers each query, in order, with the entries of up to top_k
  -- rows in ascending order of their scores, such that no other row has a lower score.
  pub query_vectors-AreAnswers :
      (scores : List (List E) → List (List E) → Option (List (List ℕ))) (m : NumpyIndexer E W)
      (top_k : ℕ) (rows keys : List (List E)) (score : List (List ℕ))
      → m.vectors ≡ some rows
      → IsMatched m
      → scores keys rows ≡ some score
      → Each (λ ids. length ids ≡ length rows) score
      → (out : List (List ((ℕ × ℕ × W) × ℕ))) × (query_vectors scores m top_k keys ≡ ok out)
        × AreAnswers m.helper_indexer top_k score out
  unfolding query_vectors query_scores
  query_vectors-AreAnswers scores m top_k rows keys score e (fit, aligned) given fits =
      let same : length rows ≡ length m.helper_indexer.int2key =
        sym (ap (λ v. length (rows_of v)) e) ∙ fit in
      let (out, runs, answers) =
        query_rows-AreAnswers m.helper_indexer top_k score
          (Each-weaken (λ ids n. n ∙ same) score fits) aligned in
      (out, rw (e, given, runs) refl, answers)
