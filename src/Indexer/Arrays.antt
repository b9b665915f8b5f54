-- ===== src/Indexer/Arrays.antt =====
-- gnes/indexer/chunk/numpy.py: `NumpyIndexer` with its helper indexer; `E` is the type of the numbers
-- of an array and `W` that of the weights. An array of two dimensions is the list of its rows.
use gnes.Prelude.{
  Str, ℕ, ◌%◌, Bool, true, false, not, Option, none, some, List, [], ◌∷◌, length, ◌==◌, nat_eq,
  if◌then◌else◌, Result, ok, err, Exec, guard, ◌>>◌,
}
use gnes.Proto.Message.{Bytes}
use gnes.Indexer.Keys.{ListKeyIndexer, KeyError, add_keys}

-- What is raised: by the tests of `add`, by numpy for shapes that differ or rows that are not there,
-- by the helper indexer, or for a model that is no indexer.
pub data IndexerError : Type 0 where
  zero_division indivisible wrong_dim unequal_shapes unsupported no_vectors : IndexerError
  by_helper : KeyError → IndexerError

pub record NumpyIndexer (E W : Type 0) : Type 0 where
  pub num_dim : Option ℕ
  pub vectors : Option (List (List E))
  pub helper_indexer : ListKeyIndexer W

-- `not self._num_dim`
unfoldable pub is_unset : Option ℕ → Bool
unfolding nat_eq
is_unset none = true
is_unset (some n) = n == 0

-- `self._num_dim == n`
unfoldable pub is_dim : Option ℕ → ℕ → Bool
unfolding nat_eq
is_dim none n = false
is_dim (some m) n = m == n

-- The functions of numpy that the indexer and its service call; `none` is a `ValueError`.
pub record Numpy (E : Type 0) : Type 0 where
  pub from_buffer : Bytes → Str → List E
  pub reshape : List E → List ℕ → List E
  pub stack : List (List E) → Option (List (List E))
  pub concatenate : List (List E) → List (List E) → Option (List (List E))

-- `vectors.shape[1]`
unfoldable pub width : {E : Type 0} → List (List E) → ℕ
width [] = 0
width (r ∷ rs) = length r

-- The new value of `_vectors`.
unfoldable pub joined :
    {E : Type 0} → Numpy E → Option (List (List E)) → List (List E) → Option (List (List E))
joined np none rows = some rows
joined np (some old) rows = np.concatenate old rows

unfoldable pub from_helper : Result KeyError ℕ → Result IndexerError (Unit {0})
from_helper (ok n) = ok tt
from_helper (err e) = err (by_helper e)

module _ {E W : Type 0} where
  unfoldable pub set_dim : ℕ → Exec (NumpyIndexer E W) IndexerError Unit
  unfolding is_unset is_dim
  set_dim n m =
      if is_unset m.num_dim
      then (ok tt, record m { num_dim = some n })
      else guard (is_dim m.num_dim n) wrong_dim m

  unfoldable pub put_rows : Option (List (List E)) → Exec (NumpyIndexer E W) IndexerError Unit
  put_rows (some rows) m = (ok tt, record m { vectors = some rows })
  put_rows none m = (err unequal_shapes, m)

  unfoldable pub join_rows : Numpy E → List (List E) → Exec (NumpyIndexer E W) IndexerError Unit
  unfolding joined put_rows
  join_rows np rows m = put_rows (joined np m.vectors rows) m

  -- `add`, before it is wrapped.
  unfoldable pub add_rows :
      Numpy E → List (ℕ × ℕ) → List (List E) → Exec (NumpyIndexer E W) IndexerError Unit
  unfolding set_dim join_rows nat_eq
  add_rows np keys rows =
      guard (not (length keys == 0)) zero_division
      >> guard (length rows % length keys == 0) indivisible
      >> set_dim (width rows)
      >> join_rows np rows

  unfoldable pub add_to_helper : List (ℕ × ℕ) → List W → Exec (NumpyIndexer E W) IndexerError Unit
  unfolding add_keys from_helper
  add_to_helper keys weights m =
      let (r, helper) = add_keys keys weights m.helper_indexer in
      (from_helper r, record m { helper_indexer = helper })

  -- `add`, wrapped by `update_helper_indexer`.
  unfoldable pub add_vectors :
      Numpy E → List (ℕ × ℕ) → List (List E) → List W → Exec (NumpyIndexer E W) IndexerError Unit
  unfolding add_rows add_to_helper
  add_vectors np keys rows weights = add_rows np keys rows >> add_to_helper keys weights
