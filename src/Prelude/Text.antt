-- ===== src/Prelude/Text.antt =====
-- Python strings as lists of code points.
use Prim.Native.Nat.{ℕ, zero, suc, ◌+◌, ◌/◌, ◌%◌}
use Prim.Native.Char.{code}
use Prim.Native.String.{String}
use mathlib.Core.Path.{refl, ap₂}
use mathlib.Core.Logic.{dite}
use mathlib.Core.Bool.{Bool, true, false, ◌&&◌}
use mathlib.Core.List.{List, [], ◌∷◌, ◌++◌, reverse}
use native.Mathlib.Decide.{ℕ_discrete}
use gnes.Prelude.Tests.{Eq, ◌==◌, nat_eq, ltb, if◌then◌else◌}

abbrev pub Str : Type 0
Str = List ℕ

abbrev pub codes : String → Str
codes String.[] = []
codes (String.◌∷◌ c s) = code c ∷ codes s

unfoldable pub Str-discrete : Discrete Str
unfolding ℕ_discrete
Str-discrete [] [] = yes refl
Str-discrete [] (d ∷ t) = no (λ p. cc)
Str-discrete (c ∷ s) [] = no (λ p. cc)
Str-discrete (c ∷ s) (d ∷ t) =
    let rest = Str-discrete s t in
    dite (ℕ_discrete c d) (λ p. dite rest (λ q. yes (ap₂ ◌∷◌ p q)) (λ n. no (λ r. n (cc))))
      (λ n. no (λ r. n (cc)))

instance unfoldable pub str_eq : Eq Str
unfolding Str-discrete
str_eq = record { dec = Str-discrete }

-- `s.startswith(p)`, the prefix first.
unfoldable pub starts_with : Str → Str → Bool
unfolding nat_eq
starts_with [] s = true
starts_with (c ∷ p) [] = false
starts_with (c ∷ p) (d ∷ s) = c == d && starts_with p s

-- `s.endswith(p)`
unfoldable pub ends_with : Str → Str → Bool
unfolding starts_with
ends_with p s = starts_with (reverse p) (reverse s)

-- `'%d' % n`, digit by digit. The fuel `n` is enough, since `n / 10 < n` from 10 on.
unfoldable pub show_digits : ℕ → ℕ → Str
show_digits zero n = (48 + n % 10) ∷ []
show_digits (suc fuel) n =
    let more = show_digits fuel (n / 10) in
    if ltb n 10 then (48 + n) ∷ [] else more ++ (48 + n % 10) ∷ []

unfoldable pub show_nat : ℕ → Str
unfolding show_digits
show_nat n = show_digits n n
