-- ===== src/Router/Pending.antt =====
-- gnes/service/router.py: `RouterService`. What the model's `apply` does is a parameter.
use gnes.Prelude.{
  ℕ, ◌≡◌, Bool, true, false, Option, none, some, List, [], ◌∷◌, ◌++◌, ◌==◌, nat_eq, Dict, lookup,
  insert, erase, lookup-insert, lookup-erase, if◌then◌else◌, arith, length,
}
use gnes.Router.Envelope.{Message}

-- What the handler does: it raises `BlockMessage`, it sends on a message, or `num_part[-1]` is
-- out of range.
pub data Reply (B : Type 0) : Type 0 where
  blocked index_error : Reply B
  sent : Message B → Reply B

-- `num_part[-1]`
unfoldable pub last_part : List ℕ → Option ℕ
last_part [] = none
last_part (n ∷ []) = some n
last_part (n ∷ m ∷ l) = last_part (m ∷ l)

abbrev pub Pending : Type 0 → Type 0
Pending B = Dict ℕ (List (Message B))

module _ {B : Type 0} where
  -- `_is_msg_complete(msg, num_req)`, with `args.num_part` first.
  unfoldable pub is_msg_complete : Option ℕ → Message B → ℕ → Option Bool
  unfolding last_part nat_eq
  is_msg_complete none msg num_req = elim (last_part msg.envelope.num_part) [
    | none ↦ none
    | some n ↦ some (num_req == n)
  ]
  is_msg_complete (some n) msg num_req = some (num_req == n)

  -- `_pending[req_id]`, of a `defaultdict(list)`.
  unfoldable pub pending_of : ℕ → Pending B → List (Message B)
  unfolding nat_eq
  pending_of id p = elim (lookup id p) [ none ↦ [] | some l ↦ l ]

  unfoldable pub decide_reply :
      (Message B → List (Message B) → Message B)
      → Option Bool
      → Message B
      → List (Message B)
      → Reply B
  decide_reply apply none msg prev_msgs = index_error
  decide_reply apply (some true) msg prev_msgs = sent (apply msg prev_msgs)
  decide_reply apply (some false) msg prev_msgs = blocked

  unfoldable pub drop_complete : Option Bool → ℕ → Pending B → Pending B
  unfolding nat_eq
  drop_complete none id p = p
  drop_complete (some true) id p = erase id p
  drop_complete (some false) id p = p

  -- `_handler_default` of a model that reduces.
  unfoldable pub handle_reduce :
      (Message B → List (Message B) → Message B)
      → Option ℕ
      → Message B
      → Pending B
      → Reply B × Pending B
  unfolding is_msg_complete pending_of decide_reply drop_complete nat_eq
  handle_reduce apply num_part msg p =
      let req_id = msg.envelope.request_id in
      let prev_msgs = pending_of req_id p ++ msg ∷ [] in
      let complete = is_msg_complete num_part msg (length prev_msgs) in
      (
        decide_reply apply complete msg prev_msgs,
        drop_complete complete req_id (insert req_id prev_msgs p),
      )

  -- The messages that arrive, one after the other, each reply with the request it is for.
  unfoldable pub serve :
      (Message B → List (Message B) → Message B)
      → Option ℕ
      → List (Message B)
      → Pending B
      → List (ℕ × Reply B)
  unfolding handle_reduce
  serve apply num_part [] p = []
  serve apply num_part (m ∷ l) p =
      let done = handle_reduce apply num_part m p in
      (m.envelope.request_id, done.0) ∷ serve apply num_part l (done.1)

  -- The replies to one request.
  unfoldable pub replies_to : ℕ → List (ℕ × Reply B) → List (Reply B)
  unfolding nat_eq
  replies_to id [] = []
  replies_to id ((j, r) ∷ l) = let rest = replies_to id l in if id == j then r ∷ rest else rest

  -- The messages of one request.
  unfoldable pub messages_of : ℕ → List (Message B) → List (Message B)
  unfolding nat_eq
  messages_of id [] = []
  messages_of id (m ∷ l) =
      let rest = messages_of id l in if id == m.envelope.request_id then m ∷ rest else rest

  -- What waits after a message came that is complete or not.
  unfoldable pub wait_next : Option Bool → List (Message B) → List (Message B)
  wait_next none l = l
  wait_next (some true) l = []
  wait_next (some false) l = l

  -- The barrier of one request alone: what waits is one list.
  unfoldable pub barrier :
      (Message B → List (Message B) → Message B)
      → Option ℕ
      → List (Message B)
      → List (Message B)
      → List (Reply B)
  unfolding wait_next is_msg_complete decide_reply
  barrier apply num_part waiting [] = []
  barrier apply num_part waiting (m ∷ l) =
      let now = waiting ++ m ∷ [] in
      let complete = is_msg_complete num_part m (length now) in
      decide_reply apply complete m now ∷ barrier apply num_part (wait_next complete now) l

  pending_of-drop :
      (c : Option Bool) (id j : ℕ) (now : List (Message B)) (p : Pending B)
      → pending_of id (drop_complete c j (insert j now p))
        ≡ (if id == j then wait_next c now else pending_of id p)
  unfolding pending_of drop_complete wait_next
  pending_of-drop none id j now p = ground (arith, lookup-insert id j now p)
  pending_of-drop (some true) id j now p =
      ground (arith, lookup-erase id j (insert j now p), lookup-insert id j now p)
  pending_of-drop (some false) id j now p = ground (arith, lookup-insert id j now p)

  -- What waits for a request after a message.
  pub pending_of-handle :
      (apply : Message B → List (Message B) → Message B) (num_part : Option ℕ) (m : Message B)
      (p : Pending B) (id : ℕ)
      → pending_of id (handle_reduce apply num_part m p).1 ≡ (
          let now = pending_of m.envelope.request_id p ++ m ∷ [] in
          if id == m.envelope.request_id
          then wait_next (is_msg_complete num_part m (length now)) now
          else pending_of id p)
  unfolding handle_reduce
  pending_of-handle apply num_part m p id =
      pending_of-drop
        (is_msg_complete num_part m (length (pending_of m.envelope.request_id p ++ m ∷ []))) id
        m.envelope.request_id (pending_of m.envelope.request_id p ++ m ∷ []) p
