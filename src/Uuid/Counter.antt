-- ===== src/Uuid/Counter.antt =====
-- gnes/uuid.py: `BaseIDGenerator`. Each method runs under the lock, so the calls of several threads
-- are one sequence of whole calls.
use gnes.Prelude.{
  ℕ, zero, suc, ◌+◌, ◌<◌, ◌≡◌, refl, Option, none, some, List, [], ◌∷◌, arith, get_elem?,
}

pub record BaseIdGenerator : Type 0 where
  pub next_id : ℕ

-- A call by some thread.
pub data Call : Type 0 where
  reset : ℕ → Call
  next : Call

abbrev pub start : ℕ → BaseIdGenerator
start start_id = record { next_id = start_id }

-- What a call returns, and the generator after it.
unfoldable pub call : BaseIdGenerator → Call → Option ℕ × BaseIdGenerator
call g (reset start_id) = (none, record { next_id = start_id })
call g next = (some g.next_id, record { next_id = g.next_id + 1 })

abbrev pub keep_some : Option ℕ → List ℕ → List ℕ
keep_some none ids = ids
keep_some (some i) ids = i ∷ ids

-- The ids that a sequence of calls hands out.
unfoldable pub issued : BaseIdGenerator → List Call → List ℕ
unfolding call
issued g [] = []
issued g (c ∷ calls) = keep_some (call g c).0 (issued (call g c).1 calls)

-- Only calls of `next`.
abbrev pub nexts : ℕ → List Call
nexts zero = []
nexts (suc n) = next ∷ nexts n

-- Between two resets the ids count up from the start, whichever threads ask for them.
pub issued-nexts :
    (n i : ℕ) (g : BaseIdGenerator)
    → i < n
    → get_elem? (issued g (nexts n)) i ≡ some (g.next_id + i)
unfolding issued
issued-nexts zero i g h = elim h [ ]
issued-nexts (suc n) zero g h = ground arith
issued-nexts (suc n) (suc i) g h = ground (arith, issued-nexts n i (call g next).1)

-- A reset forgets what was handed out.
pub issued-reset :
    (g : BaseIdGenerator) (s : ℕ) (calls : List Call)
    → issued g (reset s ∷ calls) ≡ issued (start s) calls
unfolding issued
issued-reset g s calls = refl
