-- ===== src/Prelude/Every.antt =====
-- What holds of each element of a list, or of some element.
use mathlib.Core.Logic.{◌⊎◌, inl, inr}
use mathlib.Core.List.{List, [], ◌∷◌, ◌++◌, map}

module _ {A : Type 0} where
  unfoldable pub Each : (A → Type 0) → List A → Type 0
  Each P [] = Unit
  Each P (x ∷ xs) = P x × Each P xs

  unfoldable pub SomeOf : (A → Type 0) → List A → Type 0
  SomeOf P [] = ⊥
  SomeOf P (x ∷ xs) = P x ⊎ SomeOf P xs

  pub Each-weaken :
      {P Q : A → Type 0} → ((x : A) → P x → Q x) → (xs : List A) → Each P xs → Each Q xs
  unfolding Each
  Each-weaken f [] e = tt
  Each-weaken f (x ∷ xs) (p, e) = (f x p, Each-weaken f xs e)

  pub Each-append : (P : A → Type 0) (xs ys : List A) → Each P xs → Each P ys → Each P (xs ++ ys)
  unfolding Each
  Each-append P [] ys e d = d
  Each-append P (x ∷ xs) ys (p, e) d = (p, Each-append P xs ys e d)

  pub Each-map :
      (P : A → Type 0) (f : A → A) → ((x : A) → P (f x)) → (xs : List A) → Each P (map f xs)
  unfolding Each
  Each-map P f h [] = tt
  Each-map P f h (x ∷ xs) = (h x, Each-map P f h xs)

  pub some_left : (P : A → Type 0) (xs ys : List A) → SomeOf P xs → SomeOf P (xs ++ ys)
  unfolding SomeOf
  some_left P [] ys s = elim s [ ]
  some_left P (x ∷ xs) ys (inl p) = inl p
  some_left P (x ∷ xs) ys (inr s) = inr (some_left P xs ys s)

  pub some_right : (P : A → Type 0) (xs ys : List A) → SomeOf P ys → SomeOf P (xs ++ ys)
  unfolding SomeOf
  some_right P [] ys s = s
  some_right P (x ∷ xs) ys s = inr (some_right P xs ys s)
