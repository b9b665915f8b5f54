-- ===== src/Uuid/Bits.antt =====
-- `|` of fields that do not overlap is a sum, and `& (2 ** 12 - 1)` on a counter is a reset.
use Prim.Native.Nat.{max, digits, bit_and, bit_or, bit_or-bitwise}
use native.Mathlib.Nat.{pow-suc}
use gnes.Prelude.{
  ℕ, zero, suc, ◌+◌, ◌*◌, ◌/◌, ◌%◌, ◌^◌, ◌≤◌, ◌<◌, ◌≡◌, refl, Bool, true, ◌&&◌, arith, leb,
}

-- The digits do not depend on the fuel, once there is enough.
or_fuel : (n m a b : ℕ) → a ≤ n → a ≤ m → digits (λ y. y) max n a b ≡ digits (λ y. y) max m a b
or_fuel zero zero a b p q = refl
or_fuel zero (suc m) zero b p q = refl
or_fuel zero (suc m) (suc a) b p q = absurd (omega arith)
or_fuel (suc n) zero zero b p q = refl
or_fuel (suc n) zero (suc a) b p q = absurd (omega arith)
or_fuel (suc n) (suc m) zero b p q = refl
or_fuel (suc n) (suc m) (suc a) b p q =
    let same = or_fuel n m (suc a / 2) (b / 2) (omega arith) (omega arith) in omega (arith, same)

-- One binary digit of `|`.
or_digit : (a b : ℕ) → bit_or a b ≡ bit_or (a / 2) (b / 2) * 2 + max (a % 2) (b % 2)
or_digit zero b = omega (arith, bit_or-bitwise 0 b, bit_or-bitwise 0 (b / 2))
or_digit (suc a) b = omega (
  arith,
  bit_or-bitwise (suc a) b,
  bit_or-bitwise (suc a / 2) (b / 2),
  or_fuel a (suc a / 2) (suc a / 2) (b / 2) (omega arith) (omega arith),
)

or_nothing_fuel : (n a : ℕ) → a ≤ n → bit_or a 0 ≡ a
or_nothing_fuel n zero h = bit_or-bitwise 0 0
or_nothing_fuel zero (suc a) h = absurd (omega arith)
or_nothing_fuel (suc n) (suc a) h =
    omega (arith, or_digit (suc a) 0, or_nothing_fuel n (suc a / 2) (omega arith))

-- `(q << k) | r` for `r` of `k` bits.
pub or_shifted : (k q r : ℕ) → r < 2 ^ k → bit_or (q * 2 ^ k) r ≡ q * 2 ^ k + r
or_shifted zero q r h =
    let none_left : r ≡ 0 = omega arith in
    rw none_left (omega (arith, or_nothing_fuel (q * 1) (q * 1)))
or_shifted (suc k) q r h =
    let x = q * 2 ^ k in
    let twice : q * 2 ^ suc k ≡ 2 * x = rw pow-suc (omega arith) in
    let fits : r < 2 * 2 ^ k = omega (arith, pow-suc 2 k) in
    let half : 2 * x / 2 ≡ x = omega arith in
    rw twice (ground (arith, half, or_digit (2 * x) r, or_shifted k q (r / 2) (omega arith)))

below : ℕ → (ℕ → Bool) → Bool
below zero p = true
below (suc n) p = p n && below n p

below-holds : (n : ℕ) (p : ℕ → Bool) (x : ℕ) → below n p ≡ true → x < n → p x ≡ true
unfolding below
below-holds zero p x h fits = absurd (omega arith)
below-holds (suc n) p x h fits = ground (arith, below-holds n p x)

abbrev is_reset : ℕ → Bool
is_reset x =
    leb (bit_and (x + 1) 4095) ((x + 1) % 4096) && leb ((x + 1) % 4096) (bit_and (x + 1) 4095)

is_reset_table : below 4096 is_reset ≡ true
unfolding below
is_reset_table = refl

-- The counter after `(x + 1) & 4095`.
pub and_counter : (x : ℕ) → x < 4096 → bit_and (x + 1) 4095 ≡ (x + 1) % 4096
and_counter x h = ground (arith, below-holds 4096 is_reset x is_reset_table h)
