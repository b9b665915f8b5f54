-- ===== src/Indexer/Room.antt =====
-- gnes/indexer/chunk/hbindexer/hbindexer.pyx: the memory of a bucket has room for its entries,
-- and they are written inside it.
use native.Mathlib.Nat.{mul_comm}
use gnes.Prelude.{
  length, length-take, Each, ℕ, ◌+◌, ◌*◌, ◌/◌, ◌%◌, ◌^◌, ◌≤◌, ◌<◌, ◌≢◌, Option, none, some, List,
  arith,
}
use gnes.Indexer.Buckets.{entry_size, increase, Bucket, saved_entries, load_bucket}

-- There is room for the entries that the number promises, up to the next round number and no more
-- than `_load` makes, and nothing was written past it.
unfoldable pub IsRoomy : ℕ → Bucket → Type 0
IsRoomy n_bytes b =
    ((b.data_num / increase + 1) * increase ≤ b.capacity)
    × (b.capacity ≤ saved_entries b.data_num)
    × (length b.bytes ≤ b.capacity * entry_size n_bytes)

-- `_save` reads inside the memory of a bucket unless its next entry is to make room.
pub saved_le_capacity :
    (n_bytes : ℕ) (b : Bucket)
    → IsRoomy n_bytes b
    → (b.data_num + 1) % increase ≢ 0
    → saved_entries b.data_num ≤ b.capacity
unfolding IsRoomy saved_entries
saved_le_capacity n_bytes b (low, high, fits) n = omega arith

-- What `_load` makes is roomy.
load_bucket-IsRoomy :
    (n_bytes data_num : ℕ) (file : List ℕ) → IsRoomy n_bytes (load_bucket n_bytes data_num file)
unfolding IsRoomy load_bucket saved_entries
load_bucket-IsRoomy n_bytes data_num file = (
  omega arith,
  omega arith,
  omega (
    arith,
    length-take (entry_size n_bytes * saved_entries data_num) file,
    mul_comm (entry_size n_bytes) (saved_entries data_num),
  ),
)

-- All buckets are roomy and can take `n` more entries before their number wraps round.
unfoldable pub AreRoomyFor : ℕ → ℕ → List (List Bucket) → Type 0
unfolding Each IsRoomy
AreRoomyFor n_bytes n = Each (Each (λ b. IsRoomy n_bytes b × (b.data_num + n < 2 ^ 32)))

-- What is said of a result in range.
unfoldable pub InRange : {A : Type 0} → (A → Type 0) → Option A → Type 0
InRange P none = Unit
InRange P (some a) = P a
