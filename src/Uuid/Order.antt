-- ===== src/Uuid/Order.antt =====
-- Ids of a snowflake generator grow, as long as the clock does not go backwards.
use Prim.Native.Nat.{bit_and}
use gnes.Uuid.Bits.{or_shifted, and_counter}
use gnes.Prelude.{
  ℕ, zero, suc, ◌+◌, ◌-◌, ◌*◌, ◌≤◌, ◌<◌, ◌≡◌, refl, true, false, some, List, [], ◌∷◌, arith, ok,
  err, Exec, ◌>>=◌, pure, subst, Returns, Returns-then, Returns-mono, ap, ◌∙◌, Bool-cases, inl, inr,
  nat_eq, leb, ltb, ◌==◌,
}
use gnes.Uuid.Snowflake.{
  Snowflake, ClockError, backwards, take_reading, current_timestamp, wait_after, is_same, is_before,
  compose_id, advance, finish, next,
}

-- The fields fit their bits.
pub record IsInRange (s : Snowflake) : Type 0 where
  pub machine : s.machine_id < 32
  pub datacenter : s.datacenter_id < 32
  pub counter : s.next_id < 4096

-- Where the fields are in range, the shifts and bitwise ors of the id are the sum of the fields at
-- their places.
pub compose_id_lem :
    (s : Snowflake) (t : ℕ)
    → IsInRange s
    → compose_id s t
      ≡ (t - s.twepoch) * 4194304 + (s.datacenter_id * 131072 + (s.machine_id * 4096 + s.next_id))
unfolding compose_id
compose_id_lem s t r = rw (
  or_shifted 12 s.machine_id s.next_id r.counter,
  or_shifted 17 s.datacenter_id (s.machine_id * 4096 + s.next_id) (omega arith),
  or_shifted 22 (t - s.twepoch) (s.datacenter_id * 131072 + (s.machine_id * 4096 + s.next_id))
      (omega arith),
)

-- Two states that differ in the counter and the clock only.
record SameMachine (s z : Snowflake) : Type 0 where
  machine : z.machine_id ≡ s.machine_id
  datacenter : z.datacenter_id ≡ s.datacenter_id
  epoch : z.twepoch ≡ s.twepoch
  last : z.last_timestamp ≡ s.last_timestamp

same_machine : (s : Snowflake) → SameMachine s s
same_machine s = record { machine = refl; datacenter = refl; epoch = refl; last = refl }

wait_after-later :
    (last : ℕ) (readings : List ℕ) (s : Snowflake)
    → Returns
        (λ t z. (last < t) × (z.next_id ≡ s.next_id) × SameMachine s z)
        (wait_after last readings s)
unfolding wait_after
wait_after-later last [] s = tt
wait_after-later last (t ∷ rest) s = elim (Bool-cases (leb t last)) [
  | inl early ↦ rw early (wait_after-later last rest s)
  | inr later ↦
      rw later (
        ground arith,
        refl,
        record { machine = refl; datacenter = refl; epoch = refl; last = refl },
      )
]

-- The counter grows within a millisecond, or the timestamp is another one.
record Advanced (s z : Snowflake) (t0 t : ℕ) : Type 0 where
  same : SameMachine s z
  counter : z.next_id < 4096
  grows : t ≡ t0 → s.next_id < z.next_id

advance-Advanced :
    (s : Snowflake) (t0 t : ℕ)
    → s.last_timestamp ≡ some t0
    → s.next_id < 4096
    → Returns (λ t' z. Advanced s z t0 t') (advance t s)
unfolding advance is_same
advance-Advanced s t0 t e h =
    let same_eq = ap (λ o. is_same o t) e in
    elim (Bool-cases (is_same s.last_timestamp t)) [
      | inr other ↦ rw other (record {
        same = record { machine = refl; datacenter = refl; epoch = refl; last = refl };
        counter = omega arith;
        grows = λ p. ground (arith, same_eq);
      })
      | inl same ↦
          let counter = bit_and (s.next_id + 1) 4095 in
          rw same (elim (Bool-cases (counter == 0)) [
            | inl full ↦ rw full (
                Returns-mono _ _ (wait_after t s.readings (record s { next_id = counter }))
                  (λ t' z (later, kept, m). record {
                    same = record {
                      machine = m.machine;
                      datacenter = m.datacenter;
                      epoch = m.epoch;
                      last = m.last;
                    };
                    counter = ground (arith, and_counter s.next_id h);
                    grows = λ p. ground (arith, same_eq);
                  })
                  (wait_after-later t s.readings (record s { next_id = counter })))
            | inr room ↦ rw room (record {
              same = record { machine = refl; datacenter = refl; epoch = refl; last = refl };
              counter = ground (arith, and_counter s.next_id h);
              grows = λ p. ground (arith, and_counter s.next_id h);
            })
          ])
    ]

-- A generator that has handed out an id at the timestamp `t`.
pub record HasIssued (s : Snowflake) (t : ℕ) : Type 0 where
  pub last : s.last_timestamp ≡ some t
  pub after_epoch : s.twepoch ≤ t
  pub range : IsInRange s

-- A timestamp and a counter that go up give a larger id.
compose_id_grows :
    (s z : Snowflake) (t t' : ℕ)
    → IsInRange s
    → IsInRange z
    → z.machine_id ≡ s.machine_id
    → z.datacenter_id ≡ s.datacenter_id
    → z.twepoch ≡ s.twepoch
    → s.twepoch ≤ t
    → t ≤ t'
    → (t' ≡ t → s.next_id < z.next_id)
    → compose_id s t < compose_id z t'
compose_id_grows s z t t' rs rz m d e early later grows = ground (
  arith,
  compose_id_lem s t rs,
  compose_id_lem z t' rz,
  rs.counter,
  rz.counter,
  rs.machine,
  rs.datacenter,
)

finish_grows :
    (s s1 s2 : Snowflake) (t t' : ℕ)
    → HasIssued s t
    → s1.next_id ≡ s.next_id
    → SameMachine s s1
    → Advanced s1 s2 t t'
    → Returns
        (λ id z. (compose_id s t < id) × ((u : ℕ) × HasIssued z u × (compose_id z u ≡ id)))
        (finish t' s2)
unfolding finish is_before
finish_grows s s1 s2 t t' h kept m1 a =
    let before = ap (λ o. is_before t' o) (a.same.last ∙ m1.last ∙ h.last) in
    let range : IsInRange s2 = record {
      machine = omega (arith, a.same.machine, m1.machine, h.range.machine);
      datacenter = omega (arith, a.same.datacenter, m1.datacenter, h.range.datacenter);
      counter = a.counter;
    } in
    elim (Bool-cases (is_before t' s2.last_timestamp)) [
      | inl back ↦ rw back tt
      | inr forth ↦
          let later : t ≤ t' = ground (arith, before) in
          rw forth (
            compose_id_grows s s2 t t' h.range range (a.same.machine ∙ m1.machine)
                (a.same.datacenter ∙ m1.datacenter) (a.same.epoch ∙ m1.epoch) h.after_epoch later
                (λ p. omega (arith, a.grows p)),
            (
              t',
              record {
                last = refl;
                after_epoch = omega (arith, a.same.epoch, m1.epoch, h.after_epoch);
                range = record {
                  machine = range.machine;
                  datacenter = range.datacenter;
                  counter = range.counter;
                };
              },
              refl,
            ),
          )
    ]

-- The next id is larger than the last one, and is again the last one of its generator.
pub next_grows :
    (s : Snowflake) (t : ℕ)
    → HasIssued s t
    → Returns
        (λ id z. (compose_id s t < id) × ((t' : ℕ) × HasIssued z t' × (compose_id z t' ≡ id)))
        (next s)
unfolding next
next_grows s t h =
    Returns-then (λ _ z. (z.next_id ≡ s.next_id) × SameMachine s z) _ (current_timestamp s) _
      (reading s.readings)
      λ now s1 (kept, m1).
        Returns-then _ _ (advance now s1) _
          (advance-Advanced s1 t now (m1.last ∙ h.last) (rw kept h.range.counter))
          λ t' s2 a. finish_grows s s1 s2 t t' h kept m1 a
  where
    reading :
        (l : List ℕ) → Returns (λ _ z. (z.next_id ≡ s.next_id) × SameMachine s z) (take_reading l s)
    reading [] = tt
    reading (r ∷ rest) =
        (refl, record { machine = refl; datacenter = refl; epoch = refl; last = refl })

abbrev pub IsIncreasing : ℕ → List ℕ → Type 0
IsIncreasing low [] = Unit
IsIncreasing low (i ∷ ids) = (low < i) × IsIncreasing i ids

-- The ids of `n` calls of `next`.
unfoldable pub take_ids : ℕ → Exec Snowflake ClockError (List ℕ)
unfolding next
take_ids zero s = (ok [], s)
take_ids (suc n) s = (do i ← next; ids ← take_ids n; pure (i ∷ ids)) s

-- Of a generator that has issued an id, whose machine and datacenter ids are below 32 and whose last
-- timestamp is not before its epoch: when `n` calls return, each id is larger than the one before it,
-- and the first one than the id that was issued.
pub take_ids-IsIncreasing :
    (n : ℕ) (s : Snowflake) (t : ℕ)
    → HasIssued s t
    → Returns (λ ids z. IsIncreasing (compose_id s t) ids) (take_ids n s)
unfolding take_ids
take_ids-IsIncreasing zero s t h = tt
take_ids-IsIncreasing (suc n) s t h =
    Returns-then _ _ (next s) _ (next_grows s t h) λ i z (larger, (u, hz, e)).
      Returns-then _ _ (take_ids n z) _ (take_ids-IsIncreasing n z u hz)
        λ ids w more. (larger, subst (λ x. IsIncreasing x ids) e more)

-- A generator whose clock goes back to `r` and then reads `t`, the last timestamp, again.
abbrev pub set_back : ℕ → ℕ → ℕ → ℕ → ℕ → ℕ → List ℕ → Snowflake
set_back machine datacenter epoch counter t r rest = record {
  next_id = counter;
  machine_id = machine;
  datacenter_id = datacenter;
  twepoch = epoch;
  last_timestamp = some t;
  readings = r ∷ t ∷ rest;
}

module _ (m d e n t r : ℕ) (rest : List ℕ) where
  abbrev resumed : Snowflake
  resumed = record (set_back m d e n t r rest) { next_id = 0; readings = t ∷ rest }

  next-set_back : r < t → next (set_back m d e n t r rest) ≡ (err backwards, resumed)
  unfolding next is_same is_before
  next-set_back h =
      let other : (t == r) ≡ false = ground arith in
      let early : ltb r t ≡ true = ground arith in rw (other, early)

  next-resumed : (next resumed).0 ≡ ok (compose_id (record resumed { next_id = 1 }) t)
  unfolding next is_same is_before
  next-resumed =
      let same : (t == t) ≡ true = ground arith in
      let on_time : ltb t t ≡ false = ground arith in rw (same, on_time)

  -- A clock that goes back makes `next` raise and start the counter again, so that at the next
  -- reading of the last timestamp the id with the counter 1 is issued, whatever was issued before.
  pub next-repeats :
      r < t
      → ((next (set_back m d e n t r rest)).0 ≡ err backwards)
        × ((next (next (set_back m d e n t r rest)).1).0
            ≡ ok (compose_id (record (set_back m d e n t r rest) { next_id = 1 }) t))
  unfolding compose_id
  next-repeats h = rw (next-set_back h) (refl, next-resumed)
