-- ===== src/Uuid/Snowflake.antt =====
-- gnes/uuid.py: `SnowflakeIDGenerator`. The clock is the list of the readings to come, in
-- milliseconds; each is at least `twepoch`, which is a number of seconds.
use Prim.Native.Nat.{bit_and, bit_or}
use gnes.Prelude.{
  ℕ, ◌+◌, ◌-◌, ◌*◌, ◌^◌, Bool, false, Option, none, some, List, [], ◌∷◌, ltb, leb, ◌==◌, nat_eq,
  if◌then◌else◌, Exec, Result, ok, err, ◌>>=◌,
}

pub record Snowflake : Type 0 where
  pub next_id : ℕ
  pub machine_id : ℕ
  pub datacenter_id : ℕ
  pub twepoch : ℕ
  -- `none` stands for the initial -1.
  pub last_timestamp : Option ℕ
  pub readings : List ℕ

-- A clock that went backwards, or a wait that outlasts the readings.
pub data ClockError : Type 0 where
  backwards waiting : ClockError

-- `__init__`
unfoldable pub new_snowflake : ℕ → ℕ → ℕ → List ℕ → Snowflake
new_snowflake machine_id datacenter_id twepoch readings = record {
  next_id = 0;
  machine_id = machine_id;
  datacenter_id = datacenter_id;
  twepoch = twepoch;
  last_timestamp = none;
  readings = readings;
}

abbrev pub max_counter_mask : ℕ
max_counter_mask = 2 ^ 12 - 1

-- `current_timestamp()`
unfoldable pub take_reading : List ℕ → Snowflake → Result {0, 0} ClockError ℕ × Snowflake
take_reading [] s = (err waiting, s)
take_reading (t ∷ rest) s = (ok t, record s { readings = rest })

unfoldable pub current_timestamp : Exec Snowflake ClockError ℕ
unfolding take_reading
current_timestamp s = take_reading s.readings s

-- `_get_next_timestamp`, the busy wait for a later reading.
unfoldable pub wait_after : ℕ → List ℕ → Snowflake → Result {0, 0} ClockError ℕ × Snowflake
wait_after last [] s = (err waiting, record s { readings = [] })
wait_after last (t ∷ rest) s =
    let later = wait_after last rest s in
    if leb t last then later else (ok t, record s { readings = rest })

unfoldable pub get_next_timestamp : ℕ → Exec Snowflake ClockError ℕ
unfolding wait_after
get_next_timestamp last s = wait_after last s.readings s

unfoldable pub is_same : Option ℕ → ℕ → Bool
unfolding nat_eq
is_same none t = false
is_same (some last) t = last == t

unfoldable pub is_before : ℕ → Option ℕ → Bool
is_before t none = false
is_before t (some last) = ltb t last

-- The id of a timestamp and a counter.
unfoldable pub compose_id : Snowflake → ℕ → ℕ
compose_id s timestamp =
    bit_or ((timestamp - s.twepoch) * 2 ^ 22)
      (bit_or (s.datacenter_id * 2 ^ 17) (bit_or (s.machine_id * 2 ^ 12) s.next_id))

-- The counter within a millisecond, and the timestamp that goes with it.
unfoldable pub advance : ℕ → Exec Snowflake ClockError ℕ
unfolding is_same get_next_timestamp nat_eq
advance timestamp s =
    if is_same s.last_timestamp timestamp
    then (let counter = bit_and (s.next_id + 1) max_counter_mask in
        let s' : Snowflake = record s { next_id = counter } in
        if counter == 0 then get_next_timestamp timestamp s' else (ok timestamp, s'))
    else (ok timestamp, record s { next_id = 0 })

-- The check of the clock, and the id.
unfoldable pub finish : ℕ → Exec Snowflake ClockError ℕ
unfolding is_before compose_id
finish timestamp s =
    if is_before timestamp s.last_timestamp
    then (err backwards, s)
    else (ok (compose_id s timestamp), record s { last_timestamp = some timestamp })

-- `next`
unfoldable pub next : Exec Snowflake ClockError ℕ
unfolding current_timestamp advance finish
next = do t ← current_timestamp; timestamp ← advance t; finish timestamp
