-- ===== src/Indexer/Ranked.antt =====
-- gnes/indexer/chunk/numpy.py: a query finds the entries with the lowest scores.
use gnes.Prelude.{
  ℕ, suc, ◌+◌, ◌≤◌, ◌≡◌, refl, sym, subst, ap, ◌∙◌, Bool, List, [], ◌∷◌, ◌++◌, length, length-take,
  drop, take-append-drop, min, leb, if_cases, Each, Each-weaken, arith,
}
use gnes.Indexer.Tally.{one_if}
use gnes.Indexer.Ranking.{enumerate_from, insert_score, sort_scores, best}

-- How many pairs of a list pass a test.
unfoldable pub count_pairs : (ℕ × ℕ → Bool) → List (ℕ × ℕ) → ℕ
count_pairs f [] = 0
count_pairs f (x ∷ xs) = one_if (f x) + count_pairs f xs

unfoldable pub AreAscending : List (ℕ × ℕ) → Type 0
AreAscending [] = Unit
AreAscending (x ∷ xs) = Each (λ y. x.1 ≤ y.1) xs × AreAscending xs

-- The pairs of a position and its score with the lowest scores, in ascending order, and the rest.
pub record AreBest (top_k : ℕ) (scores : List ℕ) (rk : List (ℕ × ℕ)) : Type 0 where
  pub number : length rk ≡ min top_k (length scores)
  pub dropped : List (ℕ × ℕ)
  pub ascending : AreAscending (rk ++ dropped)
  pub same :
      (f : ℕ × ℕ → Bool) → count_pairs f (rk ++ dropped) ≡ count_pairs f (enumerate_from 0 scores)

count_pairs-insert_score :
    (f : ℕ × ℕ → Bool) (x : ℕ × ℕ) (ys : List (ℕ × ℕ))
    → count_pairs f (insert_score x ys) ≡ count_pairs f (x ∷ ys)
unfolding count_pairs insert_score
count_pairs-insert_score f x [] = refl
count_pairs-insert_score f x (y ∷ ys) =
    if_cases (λ (l : List (ℕ × ℕ)). count_pairs f l ≡ count_pairs f (x ∷ y ∷ ys)) (leb x.1 y.1) _ _
      (λ _. refl) (λ _. omega (arith, count_pairs-insert_score f x ys))

count_pairs-sort_scores :
    (f : ℕ × ℕ → Bool) (xs : List (ℕ × ℕ)) → count_pairs f (sort_scores xs) ≡ count_pairs f xs
unfolding count_pairs sort_scores
count_pairs-sort_scores f [] = refl
count_pairs-sort_scores f (x ∷ xs) =
    omega (arith, count_pairs-insert_score f x (sort_scores xs), count_pairs-sort_scores f xs)

Each-insert_score :
    (P : ℕ × ℕ → Type 0) (x : ℕ × ℕ) (ys : List (ℕ × ℕ))
    → P x
    → Each P ys
    → Each P (insert_score x ys)
unfolding insert_score Each
Each-insert_score P x [] p ps = (p, tt)
Each-insert_score P x (y ∷ ys) p (py, ps) =
    if_cases (λ (l : List (ℕ × ℕ)). Each P l) (leb x.1 y.1) _ _ (λ _. (p, (py, ps)))
      (λ _. (py, Each-insert_score P x ys p ps))

pub Each-sort_scores :
    (P : ℕ × ℕ → Type 0) (xs : List (ℕ × ℕ)) → Each P xs → Each P (sort_scores xs)
unfolding sort_scores Each
Each-sort_scores P [] ps = tt
Each-sort_scores P (x ∷ xs) (p, ps) =
    Each-insert_score P x (sort_scores xs) p (Each-sort_scores P xs ps)

insert_score-AreAscending :
    (x : ℕ × ℕ) (ys : List (ℕ × ℕ)) → AreAscending ys → AreAscending (insert_score x ys)
unfolding AreAscending insert_score Each
insert_score-AreAscending x [] h = (tt, tt)
insert_score-AreAscending x (y ∷ ys) (first, h) =
    if_cases (λ (l : List (ℕ × ℕ)). AreAscending l) (leb x.1 y.1) _ _
      (λ e.
        let le : x.1 ≤ y.1 = ground arith in
        ((le, Each-weaken (λ z le'. omega arith) ys first), (first, h)))
      (λ e.
        let le : y.1 ≤ x.1 = ground arith in
        (Each-insert_score (λ z. y.1 ≤ z.1) x ys le first, insert_score-AreAscending x ys h))

sort_scores-AreAscending : (xs : List (ℕ × ℕ)) → AreAscending (sort_scores xs)
unfolding sort_scores AreAscending
sort_scores-AreAscending [] = tt
sort_scores-AreAscending (x ∷ xs) =
    insert_score-AreAscending x (sort_scores xs) (sort_scores-AreAscending xs)

length-insert_score : (x : ℕ × ℕ) (ys : List (ℕ × ℕ)) → length (insert_score x ys) ≡ suc (length ys)
unfolding insert_score
length-insert_score x [] = refl
length-insert_score x (y ∷ ys) =
    if_cases (λ (l : List (ℕ × ℕ)). length l ≡ suc (suc (length ys))) (leb x.1 y.1) _ _ (λ _. refl)
      (λ _. omega (arith, length-insert_score x ys))

length-sort_scores : (xs : List (ℕ × ℕ)) → length (sort_scores xs) ≡ length xs
unfolding sort_scores
length-sort_scores [] = refl
length-sort_scores (x ∷ xs) =
    omega (arith, length-insert_score x (sort_scores xs), length-sort_scores xs)

length-enumerate_from : (i : ℕ) (scores : List ℕ) → length (enumerate_from i scores) ≡ length scores
unfolding enumerate_from
length-enumerate_from i [] = refl
length-enumerate_from i (s ∷ scores) = omega (arith, length-enumerate_from (i + 1) scores)

pub best-AreBest : (top_k : ℕ) (scores : List ℕ) → AreBest top_k scores (best top_k scores)
unfolding best
best-AreBest top_k scores =
    let ranked = sort_scores (enumerate_from 0 scores) in
    let whole = take-append-drop top_k ranked in
    record {
      number = omega (
        arith,
        length-take top_k ranked,
        length-sort_scores (enumerate_from 0 scores),
        length-enumerate_from 0 scores,
      );
      dropped = drop top_k ranked;
      ascending =
          subst AreAscending (sym whole) (sort_scores-AreAscending (enumerate_from 0 scores));
      same = λ f. ap (count_pairs f) whole ∙ count_pairs-sort_scores f (enumerate_from 0 scores);
    }
