-- ===== src/Router/Envelope.antt =====
-- gnes/proto/gnes.proto: `Envelope`; gnes/proto/__init__.py: `merge_routes`; gnes/router/base.py:
-- `BaseReduceRouter.apply`; gnes/router/map.py.
use gnes.Requests.Batch.{sized, batch_iterator}
use gnes.Prelude.{
  ℕ, zero, suc, ◌+◌, Bool, ◌&&◌, ◌||◌, List, [], ◌∷◌, ◌++◌, Str, str_eq, ltb, ◌==◌, nat_eq, Dict,
  values, insert, if◌then◌else◌, length,
}

pub record Route : Type 0 where
  pub service : Str
  pub service_identity : Str
  pub seconds : ℕ
  pub nanos : ℕ

pub record Envelope : Type 0 where
  pub request_id : ℕ
  pub num_part : List ℕ
  pub part_id : ℕ
  pub routes : List Route

-- A message with the body `B`.
pub record Message (B : Type 0) : Type 0 where
  pub envelope : Envelope
  pub body : B

-- The order of the tuples `(start_time.seconds, start_time.nanos)`.
unfoldable pub starts_before : Route → Route → Bool
unfolding nat_eq
starts_before r s = ltb r.seconds s.seconds || (r.seconds == s.seconds && ltb r.nanos s.nanos)

-- `sorted` keeps equal keys in their order, so a route goes before the first that starts later.
unfoldable pub insert_route : Route → List Route → List Route
unfolding starts_before
insert_route r [] = r ∷ []
insert_route r (s ∷ l) =
    let rest = insert_route r l in if starts_before r s then r ∷ s ∷ l else s ∷ rest

unfoldable pub sort_routes : List Route → List Route → List Route
unfolding insert_route
sort_routes done [] = done
sort_routes done (r ∷ l) = sort_routes (insert_route r done) l

-- The last route of a service and identity is kept, at the place of the first.
unfoldable pub unique_routes : Dict Str Route → List Route → Dict Str Route
unfolding str_eq
unique_routes d [] = d
unique_routes d (r ∷ l) = unique_routes (insert (r.service ++ r.service_identity) r d) l

-- `num_part.pop()`, where there is more than one.
unfoldable pub pop_part : List ℕ → List ℕ
pop_part [] = []
pop_part (n ∷ []) = n ∷ []
pop_part (n ∷ m ∷ []) = n ∷ []
pop_part (n ∷ m ∷ k ∷ l) = n ∷ pop_part (m ∷ k ∷ l)

module _ {B : Type 0} where
  unfoldable pub all_routes : List (Message B) → List Route
  all_routes [] = []
  all_routes (m ∷ l) = m.envelope.routes ++ all_routes l

  unfoldable pub merge_routes : Message B → List (Message B) → Message B
  unfolding all_routes unique_routes sort_routes
  merge_routes msg prev_msgs = record msg {
    envelope = record (msg.envelope) {
      routes = sort_routes [] (values (unique_routes [] (all_routes prev_msgs)));
    };
  }

  -- `BaseReduceRouter.apply`
  unfoldable pub reduce : Message B → List (Message B) → Message B
  unfolding merge_routes pop_part
  reduce msg accum_msgs =
      let merged = merge_routes msg accum_msgs in
      record merged {
        envelope = record (merged.envelope) { num_part = pop_part merged.envelope.num_part };
      }

  -- `PublishRouter.apply`
  unfoldable pub publish : ℕ → Message B → Message B
  publish num_part msg = record msg {
    envelope = record (msg.envelope) { num_part = msg.envelope.num_part ++ num_part ∷ [] };
  }

module _ {D : Type 0} where
  -- The copies for the batches, of which `p_idx` is the first part's number.
  unfoldable pub part_messages : ℕ → ℕ → List (List D) → Message (List D) → List (Message (List D))
  part_messages p_idx num_part [] msg = []
  part_messages p_idx num_part (b ∷ batches) msg =
      record {
        envelope = record (msg.envelope) {
          part_id = p_idx;
          num_part = msg.envelope.num_part ++ num_part ∷ [];
        };
        body = b;
      }
      ∷ part_messages (p_idx + 1) num_part batches msg

  -- `DocBatchRouter.apply`, of a message whose body is its documents. Zero stands for every batch
  -- size that is missing or not positive, and yields nothing.
  unfoldable pub split_docs : ℕ → Message (List D) → List (Message (List D))
  unfolding part_messages batch_iterator
  split_docs zero msg = []
  split_docs (suc size) msg =
      let batches = batch_iterator (sized msg.body) (suc size) in
      part_messages 1 (length batches) batches msg
