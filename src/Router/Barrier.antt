-- ===== src/Router/Barrier.antt =====
-- gnes/service/router.py: the parts of a request are collected whatever comes between them.
use mathlib.Core.List.{append_assoc}
use gnes.Prelude.{
  ℕ, ◌+◌, ◌<◌, ◌≡◌, true, false, some, List, [], ◌∷◌, ◌++◌, nat_eq, arith, length, length-append,
  replicate,
}
use gnes.Router.Envelope.{Message}
use gnes.Router.Pending.{blocked, sent, Pending, is_msg_complete, decide_reply, wait_next, barrier}

module _ {B : Type 0} (apply : Message B → List (Message B) → Message B) where
  complete-last : (n k : ℕ) (m : Message B) → k ≡ n → is_msg_complete (some n) m k ≡ some true
  unfolding is_msg_complete nat_eq
  complete-last n k m h = ground arith

  complete-before : (n k : ℕ) (m : Message B) → k < n → is_msg_complete (some n) m k ≡ some false
  unfolding is_msg_complete nat_eq
  complete-before n k m h = ground arith

  -- A barrier for `n` parts holds all messages but the last back, then sends on one message, made
  -- of all of them in the order of their arrival, and starts afresh.
  pub barrier_complete :
      (n : ℕ) (waiting l : List (Message B)) (m : Message B) (rest : List (Message B))
      → length waiting + length l + 1 ≡ n
      → barrier apply (some n) waiting (l ++ m ∷ rest)
        ≡ replicate (length l) blocked
          ++ sent (apply m (waiting ++ (l ++ m ∷ []))) ∷ barrier apply (some n) [] rest
  unfolding barrier decide_reply wait_next
  barrier_complete n waiting [] m rest h = rw (
      complete-last n (length (waiting ++ m ∷ [])) m
        (omega (arith, length-append waiting (m ∷ []))))
  barrier_complete n waiting (k ∷ l) m rest h = rw (
    complete-before n (length (waiting ++ k ∷ [])) k
        (omega (arith, length-append waiting (k ∷ []))),
    barrier_complete n (waiting ++ k ∷ []) l m rest (omega (arith, length-append waiting (k ∷ []))),
    append_assoc waiting (k ∷ []) (l ++ m ∷ []),
  )
