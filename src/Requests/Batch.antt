-- ===== src/Requests/Batch.antt =====
-- gnes/helper.py: `batch_iterator`, along the first axis.
use mathlib.Core.List.{flatten, append-nil}
use gnes.Prelude.{
  ℕ, zero, suc, ◌-◌, ◌≤◌, ◌<◌, ◌≡◌, refl, List, [], ◌∷◌, arith, length, take, drop, leb,
  if◌then◌else◌, min, take-append-drop, length-take, length-drop, Bool-cases, inl, inr,
}

-- What is iterated over: a numpy array by its rows, a value with a length, or an iterator.
pub data Source {ℓ} (A : Type ℓ) : Type ℓ where
  array sized iterator : List A → Source A

module _ {ℓ} {A : Type ℓ} where
  abbrev pub items : Source A → List A
  items (array xs) = xs
  items (sized xs) = xs
  items (iterator xs) = xs

  -- The slices from the front, `size` items each. The fuel `length xs` is enough.
  unfoldable pub slices : ℕ → ℕ → List A → List (List A)
  slices zero size xs = []
  slices (suc fuel) size [] = []
  slices (suc fuel) size (x ∷ xs) = take size (x ∷ xs) ∷ slices fuel size (drop size (x ∷ xs))

  -- Zero stands for every batch size that is missing or not positive.
  unfoldable pub batch_iterator : Source A → ℕ → List (List A)
  unfolding slices
  batch_iterator src zero = items src ∷ []
  batch_iterator (array xs) (suc b) =
      if leb (length xs) (suc b) then xs ∷ [] else slices (length xs) (suc b) xs
  batch_iterator (sized xs) (suc b) =
      if leb (length xs) (suc b) then xs ∷ [] else slices (length xs) (suc b) xs
  batch_iterator (iterator xs) (suc b) = slices (length xs) (suc b) xs

  flatten-slices :
      (fuel size : ℕ) (xs : List A) → length xs ≤ fuel → flatten (slices fuel (suc size) xs) ≡ xs
  unfolding slices flatten
  flatten-slices zero size [] h = refl
  flatten-slices zero size (x ∷ xs) h = absurd (omega arith)
  flatten-slices (suc fuel) size [] h = refl
  flatten-slices (suc fuel) size (x ∷ xs) h = rw (
    flatten-slices fuel size (drop size xs) (omega (arith, length-drop size xs)),
    take-append-drop size xs,
  )

  -- The batches, one after the other, are the data: nothing is lost, added or moved.
  pub flatten-batch_iterator : (src : Source A) (b : ℕ) → flatten (batch_iterator src b) ≡ items src
  unfolding batch_iterator flatten
  flatten-batch_iterator src zero = append-nil _
  flatten-batch_iterator (array xs) (suc b) = elim (Bool-cases (leb (length xs) (suc b))) [
    | inl whole ↦ rw whole (append-nil xs)
    | inr parts ↦ rw parts (flatten-slices (length xs) b xs (omega arith))
  ]
  flatten-batch_iterator (sized xs) (suc b) = elim (Bool-cases (leb (length xs) (suc b))) [
    | inl whole ↦ rw whole (append-nil xs)
    | inr parts ↦ rw parts (flatten-slices (length xs) b xs (omega arith))
  ]
  flatten-batch_iterator (iterator xs) (suc b) = flatten-slices (length xs) b xs (omega arith)

  -- Every batch but the last has the full size, and the last has between one item and that.
  abbrev pub AreFull : ℕ → List (List A) → Type 0
  AreFull size [] = Unit
  AreFull size (xs ∷ []) = (1 ≤ length xs) × (length xs ≤ size)
  AreFull size (xs ∷ ys ∷ rest) = (length xs ≡ size) × AreFull size (ys ∷ rest)

  slices-AreFull :
      (fuel size : ℕ) (xs : List A)
      → length xs ≤ fuel
      → AreFull (suc size) (slices fuel (suc size) xs)
  unfolding slices
  slices-AreFull zero size xs h = tt
  slices-AreFull (suc fuel) size [] h = tt
  slices-AreFull (suc fuel) size (x ∷ xs) h =
      next fuel (drop size xs)
        (slices-AreFull fuel size (drop size xs) (omega (arith, length-drop size xs)))
        (length-take size xs) (length-drop size xs) (omega (arith, length-drop size xs))
    where
      next :
          (f : ℕ) (ys : List A)
          → AreFull (suc size) (slices f (suc size) ys)
          → length (take size xs) ≡ min size (length xs)
          → length ys ≡ length xs - size
          → length ys ≤ f
          → AreFull (suc size) ((x ∷ take size xs) ∷ slices f (suc size) ys)
      next zero [] full t d l = omega arith
      next zero (y ∷ ys) full t d l = absurd (omega arith)
      next (suc f) [] full t d l = omega arith
      next (suc f) (y ∷ ys) full t d l = (omega arith, full)

  -- For a positive size, of data that is not empty, every batch but the last has the full size, and
  -- the last has between one item and that.
  pub batch_iterator-AreFull :
      (src : Source A) (b : ℕ)
      → 0 < length (items src)
      → AreFull (suc b) (batch_iterator src (suc b))
  unfolding batch_iterator
  batch_iterator-AreFull (array xs) b h = elim (Bool-cases (leb (length xs) (suc b))) [
    | inl whole ↦ rw whole (h, ground arith)
    | inr parts ↦ rw parts (slices-AreFull (length xs) b xs (omega arith))
  ]
  batch_iterator-AreFull (sized xs) b h = elim (Bool-cases (leb (length xs) (suc b))) [
    | inl whole ↦ rw whole (h, ground arith)
    | inr parts ↦ rw parts (slices-AreFull (length xs) b xs (omega arith))
  ]
  batch_iterator-AreFull (iterator xs) b h = slices-AreFull (length xs) b xs (omega arith)
