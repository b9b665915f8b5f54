-- ===== src/Prelude/Dicts.antt =====
-- Dicts in insertion order, and Python sets as lists of their members.
use mathlib.Core.Path.{◌≡◌, refl}
use mathlib.Core.Logic.{◌≢◌, ◌↔◌}
use mathlib.Core.Bool.{Bool, true, false, ◌||◌, ◌&&◌, not}
use mathlib.Core.Option
use mathlib.Core.Option.{Option, none, some}
use mathlib.Core.List.{List, [], ◌∷◌, ◌++◌}
use native.Mathlib.Omega.{arith}
use gnes.Prelude.Tests.{Eq, ◌==◌, contains, if◌then◌else◌}

abbrev pub Dict {ℓ κ} : Type ℓ → Type κ → Type (ℓ ⊔ κ)
Dict K V = List (K × V)

module _ {ℓ κ} {K : Type ℓ} {V : Type κ} where
  abbrev pub keys : Dict K V → List K
  keys [] = []
  keys ((k, _) ∷ d) = k ∷ keys d

  abbrev pub values : Dict K V → List V
  values [] = []
  values ((_, v) ∷ d) = v ∷ values d

module _ {ℓ κ} {K : Type ℓ} {V : Type κ} ⦃e : Eq K⦄ where
  unfoldable pub lookup : K → Dict K V → Option V
  lookup k [] = none
  lookup k ((j, v) ∷ d) = if k == j then some v else lookup k d

  unfoldable pub has_key : K → Dict K V → Bool
  has_key k [] = false
  has_key k ((j, _) ∷ d) = k == j || has_key k d

  -- `d[k] = v`
  unfoldable pub insert : K → V → Dict K V → Dict K V
  insert k v [] = (k, v) ∷ []
  insert k v ((j, w) ∷ d) = if k == j then (k, v) ∷ d else (j, w) ∷ insert k v d

  -- `d.pop(k)`. Every entry of the key goes; a real dict has at most one.
  unfoldable pub erase : K → Dict K V → Dict K V
  erase k [] = []
  erase k ((j, w) ∷ d) = let rest = erase k d in if k == j then rest else (j, w) ∷ rest

  -- A change of the object stored under `k`, where there is one.
  unfoldable pub adjust : K → (V → V) → Dict K V → Dict K V
  adjust k f [] = []
  adjust k f ((j, w) ∷ d) = (j, if k == j then f w else w) ∷ adjust k f d

  -- The same change of every object stored.
  unfoldable pub map_values : (V → V) → Dict K V → Dict K V
  map_values f [] = []
  map_values f ((j, w) ∷ d) = (j, f w) ∷ map_values f d

  pub lookup-nil : (k : K) → lookup k [] ≡ none
  unfolding lookup
  lookup-nil k = refl

  pub lookup-insert :
      (j k : K) (v : V) (d : Dict K V)
      → lookup j (insert k v d) ≡ (if j == k then some v else lookup j d)
  unfolding insert lookup
  lookup-insert j k v [] = refl
  lookup-insert j k v (_ ∷ d) = ground (arith, lookup-insert j k v d)

  pub lookup-erase :
      (j k : K) (d : Dict K V) → lookup j (erase k d) ≡ (if j == k then none else lookup j d)
  unfolding erase lookup
  lookup-erase j k [] = ground arith
  lookup-erase j k (_ ∷ d) = ground (arith, lookup-erase j k d)

  pub lookup-adjust :
      (j k : K) (f : V → V) (d : Dict K V)
      → lookup j (adjust k f d) ≡ (if j == k then Option.map f (lookup j d) else lookup j d)
  unfolding adjust lookup
  lookup-adjust j k f [] = ground arith
  lookup-adjust j k f (_ ∷ d) = ground (arith, lookup-adjust j k f d)

  pub lookup-map_values :
      (j : K) (f : V → V) (d : Dict K V) → lookup j (map_values f d) ≡ Option.map f (lookup j d)
  unfolding map_values lookup
  lookup-map_values j f [] = refl
  lookup-map_values j f (_ ∷ d) = ground (arith, lookup-map_values j f d)

  pub has_key_iff : (k : K) (d : Dict K V) → (has_key k d ≡ true) ↔ (lookup k d ≢ none)
  unfolding has_key lookup
  has_key_iff k [] = (λ h. cc, λ h. absurd (h refl))
  has_key_iff k (_ ∷ d) = ground (arith, has_key_iff k d)

module _ {ℓ κ} {K : Type ℓ} {V : Type κ} ⦃e : Eq K⦄ where
  pub has_key-insert :
      (j k : K) (v : V) (d : Dict K V) → has_key j (insert k v d) ≡ (j == k || has_key j d)
  unfolding insert has_key
  has_key-insert j k v [] = refl
  has_key-insert j k v (_ ∷ d) = ground (arith, has_key-insert j k v d)

  pub has_key-erase :
      (j k : K) (d : Dict K V) → has_key j (erase k d) ≡ (not (j == k) && has_key j d)
  unfolding erase has_key
  has_key-erase j k [] = ground arith
  has_key-erase j k (_ ∷ d) = ground (arith, has_key-erase j k d)

  pub has_key-adjust : (j k : K) (f : V → V) (d : Dict K V) → has_key j (adjust k f d) ≡ has_key j d
  unfolding adjust has_key
  has_key-adjust j k f [] = refl
  has_key-adjust j k f (_ ∷ d) = ground (arith, has_key-adjust j k f d)

  pub has_key-map_values :
      (j : K) (f : V → V) (d : Dict K V) → has_key j (map_values f d) ≡ has_key j d
  unfolding map_values has_key
  has_key-map_values j f [] = refl
  has_key-map_values j f (_ ∷ d) = ground (arith, has_key-map_values j f d)

  pub lookup-not_key : (k : K) (d : Dict K V) → has_key k d ≡ false → lookup k d ≡ none
  unfolding has_key lookup
  lookup-not_key k [] h = refl
  lookup-not_key k (_ ∷ d) h = ground (arith, lookup-not_key k d)

module _ {ℓ} {A : Type ℓ} ⦃e : Eq A⦄ where
  -- `s.add(a)`
  unfoldable pub add_to : A → List A → List A
  add_to a xs = if contains xs a then xs else xs ++ a ∷ []

  -- `s.discard(a)`, or `s.remove(a)` behind the test `a in s`.
  unfoldable pub discard : A → List A → List A
  discard a [] = []
  discard a (x ∷ xs) = let rest = discard a xs in if a == x then rest else x ∷ rest

  -- `s.union(t)`
  unfoldable pub union : List A → List A → List A
  union xs [] = xs
  union xs (y ∷ ys) = union (add_to y xs) ys

  -- `set(xs)`
  unfoldable pub to_set : List A → List A
  to_set xs = union [] xs

  pub contains-append :
      (a : A) (xs ys : List A) → contains (xs ++ ys) a ≡ (contains xs a || contains ys a)
  contains-append a [] ys = refl
  contains-append a (x ∷ xs) ys = ground (arith, contains-append a xs ys)

  pub contains-add_to :
      (a b : A) (xs : List A) → contains (add_to b xs) a ≡ (a == b || contains xs a)
  unfolding add_to
  contains-add_to a b xs = ground (arith, contains-append a xs (b ∷ []))

  pub contains-discard :
      (a b : A) (xs : List A) → contains (discard b xs) a ≡ (not (a == b) && contains xs a)
  unfolding discard
  contains-discard a b [] = ground arith
  contains-discard a b (x ∷ xs) = ground (arith, contains-discard a b xs)

  pub contains-union :
      (a : A) (xs ys : List A) → contains (union xs ys) a ≡ (contains xs a || contains ys a)
  unfolding union
  contains-union a xs [] = ground arith
  contains-union a xs (y ∷ ys) =
      ground (arith, contains-union a (add_to y xs) ys, contains-add_to a y xs)

  pub contains-to_set : (a : A) (xs : List A) → contains (to_set xs) a ≡ contains xs a
  unfolding to_set
  contains-to_set a xs = contains-union a [] xs
