-- ===== src/Uuid/Progress.antt =====
-- `SnowflakeIDGenerator.next` returns, where the clock does not go back and moves on.
use gnes.Prelude.{
  ℕ, ◌+◌, ◌≤◌, ◌<◌, ◌≡◌, false, some, List, ◌∷◌, arith, Result, ok, err, Bool-cases, inl, inr,
  nat_eq, leb, ltb, ◌==◌,
}
use Prim.Native.Nat.{bit_and}
use gnes.Uuid.Snowflake.{
  Snowflake, ClockError, take_reading, current_timestamp, wait_after, get_next_timestamp, is_same,
  is_before, advance, finish, next,
}

-- A generator that has issued an id at `t` and reads `now` next, and `later` if it must wait.
abbrev pub waiting_for : ℕ → ℕ → ℕ → ℕ → ℕ → ℕ → ℕ → List ℕ → Snowflake
waiting_for m d e counter t now later rest = record {
  next_id = counter;
  machine_id = m;
  datacenter_id = d;
  twepoch = e;
  last_timestamp = some t;
  readings = now ∷ later ∷ rest;
}

abbrev pub IsOk : Result {0, 0} ClockError ℕ → Type 0
IsOk (ok id) = Unit
IsOk (err e) = ⊥

-- Where the clock has not gone back and its second reading is later than the first, `next` returns
-- an id: it waits for one more millisecond at most.
pub next-returns :
    (m d e counter t now later : ℕ) (rest : List ℕ)
    → t ≤ now
    → now < later
    → IsOk (next (waiting_for m d e counter t now later rest)).0
unfolding next advance finish is_same is_before current_timestamp take_reading wait_after
    get_next_timestamp
next-returns m d e counter t now later rest h k = elim (Bool-cases (t == now)) [
  | inr other ↦ let on_time : ltb now t ≡ false = ground arith in rw (other, on_time) tt
  | inl same ↦
      let on_time : ltb now t ≡ false = ground arith in
      let after : leb later now ≡ false = ground arith in
      let late : ltb later t ≡ false = ground arith in
      elim (Bool-cases (bit_and (counter + 1) 4095 == 0)) [
        | inl full ↦ rw (same, full, after, late) tt
        | inr room ↦ rw (same, room, on_time) tt
      ]
]
