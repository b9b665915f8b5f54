-- ===== src/Router/Merging.antt =====
-- What the routers do to the routes, the parts and the documents of a message.
use mathlib.Core.List.{flatten}
use gnes.Prelude.{
  ℕ, suc, ◌+◌, ◌≡◌, refl, sym, subst, ap, true, false, List, [], ◌∷◌, ◌++◌, nat_eq, values, arith,
  length, Bool-cases, inl, inr,
}
use gnes.Requests.Batch.{sized, batch_iterator, flatten-batch_iterator}
use gnes.Router.Envelope.{
  Route, Message, starts_before, insert_route, sort_routes, all_routes, unique_routes, merge_routes,
  pop_part, reduce, publish, part_messages, split_docs,
}

abbrev pub IsAfter : Route → List Route → Type 0
IsAfter r [] = Unit
IsAfter r (s ∷ _) = starts_before s r ≡ false

-- No route starts before the one in front of it.
abbrev pub IsOrdered : List Route → Type 0
IsOrdered [] = Unit
IsOrdered (r ∷ l) = IsAfter r l × IsOrdered l

starts_before_asym : (r s : Route) → starts_before r s ≡ true → starts_before s r ≡ false
unfolding starts_before nat_eq
starts_before_asym r s h = ground arith

insert_route-IsAfter :
    (s r : Route) (l : List Route)
    → IsAfter s l
    → starts_before r s ≡ false
    → IsAfter s (insert_route r l)
unfolding insert_route
insert_route-IsAfter s r [] a h = h
insert_route-IsAfter s r (t ∷ l) a h = elim (Bool-cases (starts_before r t)) [
  | inl first ↦ rw first h
  | inr later ↦ rw later a
]

insert_route-IsOrdered : (r : Route) (l : List Route) → IsOrdered l → IsOrdered (insert_route r l)
unfolding insert_route
insert_route-IsOrdered r [] o = (tt, tt)
insert_route-IsOrdered r (s ∷ l) o = elim (Bool-cases (starts_before r s)) [
  | inl first ↦ rw first (starts_before_asym r s first, o)
  | inr later ↦ rw later (insert_route-IsAfter s r l o.0 later, insert_route-IsOrdered r l o.1)
]

sort_routes-IsOrdered : (done l : List Route) → IsOrdered done → IsOrdered (sort_routes done l)
unfolding sort_routes
sort_routes-IsOrdered done [] o = o
sort_routes-IsOrdered done (r ∷ l) o =
    sort_routes-IsOrdered (insert_route r done) l (insert_route-IsOrdered r done o)

-- The routes of a reduced message are in the order of their start times.
pub reduce-IsOrdered :
    {B : Type 0} (msg : Message B) (accum_msgs : List (Message B))
    → IsOrdered (reduce msg accum_msgs).envelope.routes
unfolding reduce merge_routes
reduce-IsOrdered msg accum_msgs =
    sort_routes-IsOrdered [] (values (unique_routes [] (all_routes accum_msgs))) tt

pop_part-append : (n m : ℕ) (parts : List ℕ) → pop_part ((n ∷ parts) ++ m ∷ []) ≡ n ∷ parts
unfolding pop_part
pop_part-append n m [] = refl
pop_part-append n m (k ∷ []) = refl
pop_part-append n m (k ∷ j ∷ parts) = ap (λ l. n ∷ l) (pop_part-append k m (j ∷ parts))

-- A reduction takes back what the publication pushed, where the message has a number of parts to
-- start with.
pub reduce-publish :
    {B : Type 0} (num_part n : ℕ) (parts : List ℕ) (msg : Message B) (accum_msgs : List (Message B))
    → msg.envelope.num_part ≡ n ∷ parts
    → (reduce (publish num_part msg) accum_msgs).envelope.num_part ≡ n ∷ parts
unfolding reduce publish merge_routes
reduce-publish num_part n parts msg accum_msgs h = rw (h, pop_part-append n num_part parts)

module _ {D : Type 0} where
  abbrev pub bodies : List (Message (List D)) → List (List D)
  bodies [] = []
  bodies (m ∷ l) = m.body ∷ bodies l

  bodies-part_messages :
      (p_idx num_part : ℕ) (batches : List (List D)) (msg : Message (List D))
      → bodies (part_messages p_idx num_part batches msg) ≡ batches
  unfolding part_messages
  bodies-part_messages p_idx num_part [] msg = refl
  bodies-part_messages p_idx num_part (b ∷ batches) msg =
      ap (λ l. b ∷ l) (bodies-part_messages (p_idx + 1) num_part batches msg)

  -- For a positive batch size the documents of the parts of a message, in order, are those of the
  -- message.
  pub flatten-split_docs :
      (size : ℕ) (msg : Message (List D)) → flatten (bodies (split_docs (suc size) msg)) ≡ msg.body
  unfolding split_docs
  flatten-split_docs size msg =
      rw
        (bodies-part_messages 1 (length (batch_iterator (sized msg.body) (suc size)))
          (batch_iterator (sized msg.body) (suc size)) msg)
        (flatten-batch_iterator (sized msg.body) (suc size))

  -- Every part has the number `n` on top of the message's `num_part`, and the parts are numbered
  -- from `p_idx`.
  abbrev pub ArePartsOf : ℕ → ℕ → List ℕ → List (Message (List D)) → Type 0
  ArePartsOf n p_idx parts [] = Unit
  ArePartsOf n p_idx parts (m ∷ l) =
      (m.envelope.num_part ≡ parts ++ n ∷ [])
      × (m.envelope.part_id ≡ p_idx)
      × ArePartsOf n (p_idx + 1) parts l

  length-part_messages :
      (p_idx num_part : ℕ) (batches : List (List D)) (msg : Message (List D))
      → length (part_messages p_idx num_part batches msg) ≡ length batches
  unfolding part_messages
  length-part_messages p_idx num_part [] msg = refl
  length-part_messages p_idx num_part (b ∷ batches) msg =
      ap suc (length-part_messages (p_idx + 1) num_part batches msg)

  part_messages-ArePartsOf :
      (n p_idx : ℕ) (batches : List (List D)) (msg : Message (List D))
      → ArePartsOf n p_idx msg.envelope.num_part (part_messages p_idx n batches msg)
  unfolding part_messages
  part_messages-ArePartsOf n p_idx [] msg = tt
  part_messages-ArePartsOf n p_idx (b ∷ batches) msg =
      (refl, refl, part_messages-ArePartsOf n (p_idx + 1) batches msg)

  numbered :
      (p_idx : ℕ) (batches : List (List D)) (msg : Message (List D))
      → ArePartsOf
          (length (part_messages p_idx (length batches) batches msg))
          p_idx
          msg.envelope.num_part
          (part_messages p_idx (length batches) batches msg)
  numbered p_idx batches msg =
      subst
        (λ n.
          ArePartsOf n p_idx msg.envelope.num_part
            (part_messages p_idx (length batches) batches msg))
        (sym (length-part_messages p_idx (length batches) batches msg))
        (part_messages-ArePartsOf (length batches) p_idx batches msg)

  -- The parts of a message are numbered from one, and each carries their number as the last of
  -- its `num_part`, which is what the router that collects them counts up to.
  pub split_docs-ArePartsOf :
      (size : ℕ) (msg : Message (List D))
      → ArePartsOf
          (length (split_docs (suc size) msg))
          1
          msg.envelope.num_part
          (split_docs (suc size) msg)
  unfolding split_docs part_messages
  split_docs-ArePartsOf size msg = numbered 1 (batch_iterator (sized msg.body) (suc size)) msg
