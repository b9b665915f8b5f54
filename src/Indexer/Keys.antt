-- ===== src/Indexer/Keys.antt =====
-- gnes/indexer/chunk/helper.py: `ListKeyIndexer`, with the counters of gnes/indexer/base.py. The keys
-- of a query are positions, not negative; `W` is the type of the weights.
use gnes.Prelude.{
  Dict, insert, lookup, ℕ, zero, suc, ◌+◌, ◌-◌, ◌<◌, ◌≡◌, refl, sym, ap, true, Option, none, some,
  List, [], ◌∷◌, ◌++◌, ◌==◌, nat_eq, arith, length, length-append, get_elem?, ltb, if◌then◌else◌,
  to_set, Result, ok, err, Exec, ◌>>◌, Bool-cases, inl, inr,
}

-- Keys and weights of different lengths, a position out of range, or no keys to take apart.
pub data KeyError : Type 0 where
  length_mismatch out_of_range nothing_to_unpack : KeyError

pub record ListKeyIndexer (W : Type 0) : Type 0 where
  pub int2key : List (ℕ × ℕ)
  pub int2key_weight : List W
  pub num_docs : ℕ
  pub num_chunks : ℕ
  pub num_chunks_in_doc : Dict ℕ ℕ

-- `doc_ids, _ = zip(*keys)`
abbrev pub doc_ids : List (ℕ × ℕ) → List ℕ
doc_ids [] = []
doc_ids ((d, _) ∷ keys) = d ∷ doc_ids keys

unfoldable pub counted : Option ℕ → ℕ
counted none = 0
counted (some n) = n

-- `_num_chunks_in_doc[doc_id] += 1` for each, of a `defaultdict(int)`.
unfoldable pub count_each : List ℕ → Dict ℕ ℕ → Dict ℕ ℕ
unfolding counted nat_eq
count_each [] d = d
count_each (i ∷ ids) d = count_each ids (insert i (counted (lookup i d) + 1) d)

module _ {W : Type 0} where
  -- `update_counter`, in front of the method.
  unfoldable pub count_keys : List (ℕ × ℕ) → Exec (ListKeyIndexer W) KeyError Unit
  unfolding to_set nat_eq count_each
  count_keys [] s = (err nothing_to_unpack, s)
  count_keys (k ∷ keys) s = (
    ok tt,
    record s {
      num_docs = s.num_docs + length (to_set (doc_ids (k ∷ keys)));
      num_chunks = s.num_chunks + length (k ∷ keys);
      num_chunks_in_doc = count_each (doc_ids (k ∷ keys)) s.num_chunks_in_doc;
    },
  )

  unfoldable pub extend : List (ℕ × ℕ) → List W → Exec (ListKeyIndexer W) KeyError ℕ
  unfolding nat_eq
  extend keys weights s =
      if length keys == length weights
      then (
        ok (length (s.int2key ++ keys)),
        record s { int2key = s.int2key ++ keys; int2key_weight = s.int2key_weight ++ weights },
      )
      else (err length_mismatch, s)

  -- `add(keys, weights)`
  unfoldable pub add_keys : List (ℕ × ℕ) → List W → Exec (ListKeyIndexer W) KeyError ℕ
  unfolding count_keys extend
  add_keys keys weights = count_keys keys >> extend keys weights

  unfoldable pub entry : Option (ℕ × ℕ) → Option W → Option (ℕ × ℕ × W)
  entry none w = none
  entry (some k) none = none
  entry (some (d, o)) (some w) = some (d, o, w)

  -- `(*_int2key[i], _int2key_weight[i])`
  unfoldable pub entry_of : List (ℕ × ℕ) → List W → ℕ → Option (ℕ × ℕ × W)
  unfolding entry
  entry_of keys weights i = entry (get_elem? keys i) (get_elem? weights i)

  unfoldable pub with_entry :
      Option (ℕ × ℕ × W) → Result KeyError (List (ℕ × ℕ × W)) → Result KeyError (List (ℕ × ℕ × W))
  with_entry none r = err out_of_range
  with_entry (some x) (ok l) = ok (x ∷ l)
  with_entry (some x) (err e) = err e

  -- `query(keys)`
  unfoldable pub query_keys : ListKeyIndexer W → List ℕ → Result KeyError (List (ℕ × ℕ × W))
  unfolding entry_of with_entry
  query_keys s [] = ok []
  query_keys s (k ∷ keys) = with_entry (entry_of s.int2key s.int2key_weight k) (query_keys s keys)

-- Positions of keys that are below `n`.
abbrev pub AreBelow : ℕ → List ℕ → Type 0
AreBelow n [] = Unit
AreBelow n (i ∷ is) = (i < n) × AreBelow n is

-- As many weights as keys.
abbrev pub IsAligned : {W : Type 0} → ListKeyIndexer W → Type 0
IsAligned s = length s.int2key ≡ length s.int2key_weight

get_elem?-append {ℓ} :
    {A : Type ℓ} (xs ys : List A) (i : ℕ)
    → get_elem? (xs ++ ys) i
      ≡ (if ltb i (length xs) then get_elem? xs i else get_elem? ys (i - length xs))
get_elem?-append [] ys i = ground arith
get_elem?-append (x ∷ xs) ys zero = ground arith
get_elem?-append (x ∷ xs) ys (suc i) = ground (arith, get_elem?-append xs ys i)

entry_of-append :
    {W : Type 0} (xs ys : List (ℕ × ℕ)) (ws vs : List W) (i : ℕ)
    → length xs ≡ length ws
    → entry_of (xs ++ ys) (ws ++ vs) i
      ≡ (if ltb i (length xs) then entry_of xs ws i else entry_of ys vs (i - length xs))
unfolding entry_of
entry_of-append xs ys ws vs i h = elim (Bool-cases (ltb i (length xs))) [
  | inl old ↦ rw (get_elem?-append xs ys i, get_elem?-append ws vs i, sym h, old)
  | inr new ↦ rw (get_elem?-append xs ys i, get_elem?-append ws vs i, sym h, new)
]

module _ {W : Type 0} (s : ListKeyIndexer W) (key : ℕ × ℕ) (keys : List (ℕ × ℕ)) (weights : List W)
    (aligned : IsAligned s) (fit : length (key ∷ keys) ≡ length weights) where
  -- Where keys come with as many weights, `add` returns the number of keys it then has, the new
  -- entries stand behind the old ones in their order, and the old ones stay where they were.
  pub add_keys-entries :
      ((add_keys (key ∷ keys) weights s).0 ≡ ok (length s.int2key + length (key ∷ keys)))
      × IsAligned (add_keys (key ∷ keys) weights s).1
      × ((i : ℕ)
          → entry_of
              (add_keys (key ∷ keys) weights s).1.int2key
              (add_keys (key ∷ keys) weights s).1.int2key_weight
              i
            ≡ (if ltb i (length s.int2key)
                then entry_of s.int2key s.int2key_weight i
                else entry_of (key ∷ keys) weights (i - length s.int2key)))
  unfolding add_keys
  add_keys-entries =
      let same : (length (key ∷ keys) == length weights) ≡ true = ground arith in
      let longer = length-append s.int2key (key ∷ keys) in
      rw same (
        ap ok longer,
        omega (arith, longer, length-append s.int2key_weight weights, aligned, fit),
        λ i. entry_of-append s.int2key (key ∷ keys) s.int2key_weight weights i aligned,
      )

  -- A query of positions that were known answers after such an `add` what it answered before.
  pub query_keys-add_keys :
      (is : List ℕ)
      → AreBelow (length s.int2key) is
      → query_keys (add_keys (key ∷ keys) weights s).1 is ≡ query_keys s is
  unfolding query_keys
  query_keys-add_keys [] below = refl
  query_keys-add_keys (i ∷ is) (first, below) =
      let old : ltb i (length s.int2key) ≡ true = ground arith in
      rw (add_keys-entries.2 i, old, query_keys-add_keys is below)
