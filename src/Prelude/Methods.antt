-- ===== src/Prelude/Methods.antt =====
-- Methods that mutate an object and may raise. What was written before a raise stays written, so
-- the state comes back beside the error too.
use mathlib.Core.Path.{◌≡◌, subst}
use mathlib.Core.Bool.{Bool, true, false}
use mathlib.Core.Option.{Option, none, some}
use mathlib.Core.List.{List, [], ◌∷◌}

pub data Result {ℓ κ} (E : Type ℓ) (A : Type κ) : Type (ℓ ⊔ κ) where
  ok : A → Result E A
  err : E → Result E A

abbrev pub Exec {ℓ} : Type ℓ → Type ℓ → Type ℓ → Type ℓ
Exec S E A = S → Result E A × S

module _ {ℓ} {S E A : Type ℓ} where
  abbrev pub pure : A → Exec S E A
  pure a s = (ok a, s)

  abbrev pub raise : E → Exec S E A
  raise e s = (err e, s)

  abbrev pub lift : Result E A → Exec S E A
  lift r s = (r, s)

  abbrev pub lift_option : E → Option A → Exec S E A
  lift_option e none s = (err e, s)
  lift_option e (some a) s = (ok a, s)

  abbrev pub gets : (S → A) → Exec S E A
  gets f s = (ok (f s), s)

module _ {S E : Type 0} where
  abbrev pub modify : (S → S) → Exec S E Unit
  modify f s = (ok tt, f s)

  abbrev pub guard : Bool → E → Exec S E Unit
  guard true e s = (ok tt, s)
  guard false e s = (err e, s)

module _ {ℓ} {S E A B : Type ℓ} where
  abbrev pub and_then : Result E A → (A → Exec S E B) → Exec S E B
  and_then (ok a) f s = f a s
  and_then (err e) f s = (err e, s)

  infixl 5 ◌>>=◌ ◌>>◌
  abbrev pub ◌>>=◌ : Exec S E A → (A → Exec S E B) → Exec S E B
  ◌>>=◌ m f s = let (r, s') = m s in and_then r f s'

  abbrev pub ◌>>◌ : Exec S E A → Exec S E B → Exec S E B
  m >> n = m >>= λ _. n

-- `for x in xs: f(x)`
abbrev pub for_each : {S E A : Type 0} → (A → Exec S E Unit) → List A → Exec S E Unit
for_each f [] = pure tt
for_each f (x ∷ xs) = f x >> for_each f xs

-- What holds of the value and the state when a method returns; nothing is said of a raise.
abbrev pub Returns {ℓ κ} : {S E A : Type ℓ} → (A → S → Type κ) → Result E A × S → Type κ
Returns Q (ok a, s) = Q a s
Returns Q (err _, s) = Unit

-- The rule for a bind: after a step that returns `Q`, the rest.
pub Returns-then {ℓ κ} :
    {S E A B : Type ℓ} (Q : A → S → Type κ) (R : B → S → Type κ) (r : Result E A × S)
    (k : A → Exec S E B)
    → Returns Q r
    → ((a : A) (s : S) → Q a s → Returns R (k a s))
    → Returns R (and_then r.0 k r.1)
Returns-then Q R (ok a, s) k q rest = rest a s q
Returns-then Q R (err e, s) k q rest = tt

pub Returns-ok {ℓ κ} :
    {S E A : Type ℓ} (Q : A → S → Type κ) (r : Result E A × S) (a : A)
    → Returns Q r
    → r.0 ≡ ok a
    → Q a r.1
Returns-ok Q (ok b, s) a h p = subst (λ x. Q x s) (cc) h
Returns-ok Q (err e, s) a h p = cc

pub Returns-mono {ℓ κ} :
    {S E A : Type ℓ} (P Q : A → S → Type κ) (r : Result E A × S)
    → ((a : A) (s : S) → P a s → Q a s)
    → Returns P r
    → Returns Q r
Returns-mono P Q (ok a, s) k h = k a s h
Returns-mono P Q (err e, s) k h = tt

pub Returns-intro {ℓ κ} :
    {S E A : Type ℓ} (Q : A → S → Type κ) (r : Result E A × S) → ((a : A) → Q a r.1) → Returns Q r
Returns-intro Q (ok a, s) h = h a
Returns-intro Q (err e, s) h = tt

pub Returns-err {ℓ κ} :
    {S E A : Type ℓ} (Q : A → S → Type κ) (r : Result E A × S) (e : E) → r.0 ≡ err e → Returns Q r
Returns-err Q (ok a, s) e h = cc
Returns-err Q (err x, s) e h = tt
