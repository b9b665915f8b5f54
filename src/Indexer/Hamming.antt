-- ===== src/Indexer/Hamming.antt =====
-- gnes/indexer/chunk/hbindexer/hbindexer.pyx: numbers in bytes, and the distance of two vectors.
use gnes.Prelude.{
  ℕ, zero, suc, ◌+◌, ◌*◌, ◌/◌, ◌%◌, ◌^◌, ◌≤◌, ◌<◌, ◌≡◌, refl, sym, subst, ◌↔◌, ◌∙◌, List, [], ◌∷◌,
  arith, length, get_or, ltb, if◌then◌else◌,
}

-- The loop of `bytes_to_uint`, from the byte `i` on, `n` bytes; an unsigned int wraps round.
unfoldable pub add_bytes : ℕ → ℕ → List ℕ → ℕ → ℕ
add_bytes zero i bs label = label
add_bytes (suc n) i bs label = add_bytes n (suc i) bs ((label + 256 ^ i * get_or bs i 0) % 2 ^ 32)

-- `bytes_to_uint`
unfoldable pub bytes_to_uint : List ℕ → ℕ
unfolding add_bytes
bytes_to_uint bs = add_bytes 4 0 bs 0

-- `bytes_to_ushort`
unfoldable pub bytes_to_ushort : List ℕ → ℕ
bytes_to_ushort bs = (get_or bs 0 0 + get_or bs 1 0 * 256) % 2 ^ 16

-- `a ^ b` of two numbers of `n` bits.
unfoldable pub xor_bits : ℕ → ℕ → ℕ → ℕ
xor_bits zero a b = 0
xor_bits (suc n) a b = (a % 2 + b % 2) % 2 + 2 * xor_bits n (a / 2) (b / 2)

-- The loop `while tmp_vec > 0`, on fuel: it ends after as many rounds as the number has bits.
unfoldable pub count_bits : ℕ → ℕ → ℕ → ℕ
count_bits zero tmp dist = dist
count_bits (suc n) tmp dist =
    let rest = count_bits n (tmp / 2) ((dist + tmp % 2) % 2 ^ 16) in
    if ltb 0 tmp then rest else dist

-- `vec_distance`, from the distance so far; the byte lists are `va` and `vb` from `i` on.
unfoldable pub distance_from : ℕ → List ℕ → List ℕ → ℕ
unfolding xor_bits count_bits
distance_from dist [] vb = dist
distance_from dist (a ∷ va) [] = dist
distance_from dist (a ∷ va) (b ∷ vb) = distance_from (count_bits 8 (xor_bits 8 a b) dist) va vb

unfoldable pub vec_distance : List ℕ → List ℕ → ℕ
unfolding distance_from
vec_distance va vb = distance_from 0 va vb

-- The number of bits in which two numbers of `n` bits differ.
unfoldable pub differing : ℕ → ℕ → ℕ → ℕ
differing zero a b = 0
differing (suc n) a b = (a % 2 + b % 2) % 2 + differing n (a / 2) (b / 2)

-- The Hamming distance of two vectors of bytes.
unfoldable pub hamming : List ℕ → List ℕ → ℕ
unfolding differing
hamming [] vb = 0
hamming (a ∷ va) [] = 0
hamming (a ∷ va) (b ∷ vb) = differing 8 a b + hamming va vb

differing_le : (n a b : ℕ) → differing n a b ≤ n
unfolding differing
differing_le zero a b = omega arith
differing_le (suc n) a b = omega (arith, differing_le n (a / 2) (b / 2))

hamming_le : (va vb : List ℕ) → hamming va vb ≤ 8 * length va
unfolding hamming
hamming_le [] vb = omega arith
hamming_le (a ∷ va) [] = omega arith
hamming_le (a ∷ va) (b ∷ vb) = omega (arith, differing_le 8 a b, hamming_le va vb)

count_bits-zero : (n dist : ℕ) → count_bits n 0 dist ≡ dist
unfolding count_bits
count_bits-zero zero dist = refl
count_bits-zero (suc n) dist = refl

-- One round of the loop, also when it has ended.
count_bits_next :
    (n tmp dist : ℕ)
    → dist + 1 < 2 ^ 16
    → count_bits (suc n) tmp dist ≡ count_bits n (tmp / 2) (dist + tmp % 2)
unfolding count_bits
count_bits_next n zero dist h = omega (arith, count_bits-zero n (dist + 0))
count_bits_next n (suc t) dist h =
    let fits : (dist + suc t % 2) % 2 ^ 16 ≡ dist + suc t % 2 = omega arith in
    rw fits (ground arith)

xor_bits-half : (n a b : ℕ) → xor_bits (suc n) a b / 2 ≡ xor_bits n (a / 2) (b / 2)
unfolding xor_bits
xor_bits-half n a b = omega arith

xor_bits-parity : (n a b : ℕ) → xor_bits (suc n) a b % 2 ≡ (a % 2 + b % 2) % 2
unfolding xor_bits
xor_bits-parity n a b = omega arith

count_bits_step :
    (n a b dist : ℕ)
    → dist + 1 < 2 ^ 16
    → count_bits (suc n) (xor_bits (suc n) a b) dist
      ≡ count_bits n (xor_bits n (a / 2) (b / 2)) (dist + (a % 2 + b % 2) % 2)
count_bits_step n a b dist h =
    count_bits_next n (xor_bits (suc n) a b) dist h
    ∙ rw (xor_bits-half n a b, xor_bits-parity n a b) refl

-- With enough fuel the loop counts the bits in which the two differ.
count_bits-xor_bits :
    (n a b dist : ℕ)
    → dist + n < 2 ^ 16
    → count_bits n (xor_bits n a b) dist ≡ dist + differing n a b
unfolding differing count_bits xor_bits
count_bits-xor_bits zero a b dist h = omega arith
count_bits-xor_bits (suc n) a b dist h =
    count_bits_step n a b dist (omega arith)
    ∙ count_bits-xor_bits n (a / 2) (b / 2) (dist + (a % 2 + b % 2) % 2) (omega arith)
    ∙ omega arith

distance_from-hamming :
    (va vb : List ℕ) (dist : ℕ)
    → dist + 8 * length va < 2 ^ 16
    → distance_from dist va vb ≡ dist + hamming va vb
unfolding distance_from hamming
distance_from-hamming [] vb dist h = omega arith
distance_from-hamming (a ∷ va) [] dist h = omega arith
distance_from-hamming (a ∷ va) (b ∷ vb) dist h =
    let rest =
      distance_from-hamming va vb (dist + differing 8 a b) (omega (arith, differing_le 8 a b)) in
    rw (count_bits-xor_bits 8 a b dist (omega arith)) (omega (arith, rest))

-- `vec_distance` is the number of bits in which two vectors differ, as long as the vectors have
-- fewer than 8192 bytes: the loop over a byte ends, and the sum does not wrap round.
pub vec_distance-hamming : (va vb : List ℕ) → length va < 8192 → vec_distance va vb ≡ hamming va vb
unfolding vec_distance
vec_distance-hamming va vb h = omega (arith, distance_from-hamming va vb 0 (omega arith))

unfoldable pub AreBytes : List ℕ → Type 0
AreBytes [] = Unit
AreBytes (b ∷ bs) = (b < 256) × AreBytes bs

differing_zero : (n a b : ℕ) → a < 2 ^ n → b < 2 ^ n → differing n a b ≡ 0 → a ≡ b
unfolding differing
differing_zero zero a b ha hb h = omega arith
differing_zero (suc n) a b ha hb h =
    let half = differing_zero n (a / 2) (b / 2) (omega arith) (omega arith) (omega arith) in
    omega arith

hamming_zero :
    (va vb : List ℕ)
    → length va ≡ length vb
    → AreBytes va
    → AreBytes vb
    → hamming va vb ≡ 0
    → va ≡ vb
unfolding hamming AreBytes
hamming_zero [] [] l ha hb h = refl
hamming_zero [] (b ∷ vb) l ha hb h = ground arith
hamming_zero (a ∷ va) [] l ha hb h = ground arith
hamming_zero (a ∷ va) (b ∷ vb) l (ha, has) (hb, hbs) h =
    let first = differing_zero 8 a b ha hb (omega arith) in
    let rest = hamming_zero va vb (omega arith) has hbs (omega arith) in cc

differing_self : (n a : ℕ) → differing n a a ≡ 0
unfolding differing
differing_self zero a = refl
differing_self (suc n) a = omega (arith, differing_self n (a / 2))

hamming_self : (va : List ℕ) → hamming va va ≡ 0
unfolding hamming
hamming_self [] = refl
hamming_self (a ∷ va) = omega (arith, differing_self 8 a, hamming_self va)

-- Two vectors of bytes of one length, below 8192 bytes, are at distance 0 just when they are the
-- same.
pub vec_distance_zero :
    (va vb : List ℕ)
    → length va ≡ length vb
    → length va < 8192
    → AreBytes va
    → AreBytes vb
    → (vec_distance va vb ≡ 0) ↔ (va ≡ vb)
vec_distance_zero va vb l h ha hb = (
  λ d. hamming_zero va vb l ha hb (sym (vec_distance-hamming va vb h) ∙ d),
  λ e. vec_distance-hamming va vb h ∙ subst (λ v. hamming va v ≡ 0) e (hamming_self va),
)

differing_comm : (n a b : ℕ) → differing n a b ≡ differing n b a
unfolding differing
differing_comm zero a b = refl
differing_comm (suc n) a b = omega (arith, differing_comm n (a / 2) (b / 2))

hamming_comm : (va vb : List ℕ) → hamming va vb ≡ hamming vb va
unfolding hamming
hamming_comm [] [] = refl
hamming_comm [] (b ∷ vb) = refl
hamming_comm (a ∷ va) [] = refl
hamming_comm (a ∷ va) (b ∷ vb) = omega (arith, differing_comm 8 a b, hamming_comm va vb)

differing_triangle : (n a b c : ℕ) → differing n a c ≤ differing n a b + differing n b c
unfolding differing
differing_triangle zero a b c = omega arith
differing_triangle (suc n) a b c = omega (arith, differing_triangle n (a / 2) (b / 2) (c / 2))

hamming_triangle :
    (va vb vc : List ℕ) → length va ≡ length vb → hamming va vc ≤ hamming va vb + hamming vb vc
unfolding hamming
hamming_triangle [] vb vc l = omega arith
hamming_triangle (a ∷ va) [] vc l = ground arith
hamming_triangle (a ∷ va) (b ∷ vb) [] l = omega arith
hamming_triangle (a ∷ va) (b ∷ vb) (c ∷ vc) l =
    omega (arith, differing_triangle 8 a b c, hamming_triangle va vb vc (omega arith))

-- `vec_distance` on vectors of one length, below 8192 bytes, is a metric: symmetric, and never
-- more than the way round by a third vector.
pub vec_distance_metric :
    (va vb vc : List ℕ)
    → length va ≡ length vb
    → length vb ≡ length vc
    → length va < 8192
    → (vec_distance va vb ≡ vec_distance vb va)
      × (vec_distance va vc ≤ vec_distance va vb + vec_distance vb vc)
vec_distance_metric va vb vc l l' h = (
  omega (
    arith,
    vec_distance-hamming va vb h,
    vec_distance-hamming vb va (omega arith),
    hamming_comm va vb,
  ),
  omega (
    arith,
    vec_distance-hamming va vc h,
    vec_distance-hamming va vb h,
    vec_distance-hamming vb vc (omega arith),
    hamming_triangle va vb vc l,
  ),
)
