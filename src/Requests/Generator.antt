-- ===== src/Requests/Generator.antt =====
-- gnes/proto/__init__.py: `RequestGenerator`.
use mathlib.Core.List.{flatten}
use gnes.Prelude.{
  ℕ, zero, suc, ◌+◌, ◌≡◌, refl, sym, ap, subst, ◌∙◌, Bool, true, false, List, [], ◌∷◌, ◌++◌, arith,
  length, map, if◌then◌else◌, Result, ok, err,
}
use gnes.Proto.Message.{Bytes}
use gnes.Requests.Batch.{Source, items, batch_iterator, flatten-batch_iterator}

-- A document as the generator makes it; its weight and type are the same for all.
pub record RawDocument : Type 0 where
  pub doc_id : ℕ
  pub raw_bytes : Bytes

pub data RequestBody : Type 0 where
  index : List RawDocument → RequestBody
  train : List RawDocument → (flush : Bool) → RequestBody
  search : Bytes → (top_k : ℕ) → RequestBody

pub record Request : Type 0 where
  pub request_id : ℕ
  pub body : RequestBody

pub data GeneratorError : Type 0 where
  bad_top_k : GeneratorError

-- `random.randint(0, ctypes.c_uint(-1).value)`, call by call.
abbrev pub Random : Type 0
Random = ℕ → ℕ

-- The documents of a batch: the id counts up, or is drawn.
unfoldable pub number_docs : Bool → Random → ℕ → List Bytes → List RawDocument
number_docs random draw id [] = []
number_docs random draw id (b ∷ data_) =
    record { doc_id = if random then draw id else id; raw_bytes = b }
    ∷ number_docs random draw (id + 1) data_

unfoldable pub index_requests : Bool → Random → ℕ → ℕ → List (List Bytes) → List Request
unfolding number_docs
index_requests random draw doc_id request_id [] = []
index_requests random draw doc_id request_id (pi ∷ batches) =
    record { request_id = request_id; body = index (number_docs random draw doc_id pi) }
    ∷ index_requests random draw (doc_id + length pi) (request_id + 1) batches

-- `RequestGenerator.index(data, batch_size, doc_id_start, request_id_start, random_doc_id)`
unfoldable pub index_all : Source Bytes → ℕ → ℕ → ℕ → Bool → Random → List Request
unfolding index_requests batch_iterator
index_all src batch_size doc_id request_id random draw =
    index_requests random draw doc_id request_id (batch_iterator src batch_size)

-- The loop of `train`, and the request that flushes behind it.
unfoldable pub train_requests : Bool → Random → ℕ → ℕ → List (List Bytes) → List Request
unfolding number_docs
train_requests random draw doc_id request_id [] =
    record { request_id = request_id; body = train [] true } ∷ []
train_requests random draw doc_id request_id (pi ∷ batches) =
    record { request_id = request_id; body = train (number_docs random draw doc_id pi) false }
    ∷ train_requests random draw (doc_id + length pi) (request_id + 1) batches

-- `RequestGenerator.train`
unfoldable pub train_all : Source Bytes → ℕ → ℕ → ℕ → Bool → Random → List Request
unfolding train_requests batch_iterator
train_all src batch_size doc_id request_id random draw =
    train_requests random draw doc_id request_id (batch_iterator src batch_size)

-- `RequestGenerator.query`. Zero stands for every `top_k` that is not positive.
unfoldable pub query : Bytes → ℕ → ℕ → Result GeneratorError (List Request)
query q zero request_id = err bad_top_k
query q (suc top_k) request_id =
    ok (record { request_id = request_id; body = search q (suc top_k) } ∷ [])

-- The documents of the requests, in order.
abbrev pub docs_in : List Request → List RawDocument
docs_in [] = []
docs_in (r ∷ rest) = elim r.body [
  | index docs ↦ docs ++ docs_in rest
  | train docs _ ↦ docs ++ docs_in rest
  | search _ _ ↦ docs_in rest
]

next_id : (id n : ℕ) → id + 1 + n ≡ id + suc n
next_id id n = omega arith

number_docs-append :
    (random : Bool) (draw : Random) (id : ℕ) (xs ys : List Bytes)
    → number_docs random draw id (xs ++ ys)
      ≡ number_docs random draw id xs ++ number_docs random draw (id + length xs) ys
unfolding number_docs
number_docs-append random draw id [] ys = ap (λ n. number_docs random draw n ys) (omega arith)
number_docs-append random draw id (x ∷ xs) ys =
    rw (number_docs-append random draw (id + 1) xs ys, next_id id (length xs))

docs_in-index_requests :
    (random : Bool) (draw : Random) (doc_id request_id : ℕ) (batches : List (List Bytes))
    → docs_in (index_requests random draw doc_id request_id batches)
      ≡ number_docs random draw doc_id (flatten batches)
unfolding index_requests flatten number_docs
docs_in-index_requests random draw doc_id request_id [] = refl
docs_in-index_requests random draw doc_id request_id (pi ∷ batches) = rw (
  docs_in-index_requests random draw (doc_id + length pi) (request_id + 1) batches,
  number_docs-append random draw doc_id pi (flatten batches),
)

docs_in-train_requests :
    (random : Bool) (draw : Random) (doc_id request_id : ℕ) (batches : List (List Bytes))
    → docs_in (train_requests random draw doc_id request_id batches)
      ≡ number_docs random draw doc_id (flatten batches)
unfolding train_requests flatten number_docs
docs_in-train_requests random draw doc_id request_id [] = refl
docs_in-train_requests random draw doc_id request_id (pi ∷ batches) = rw (
  docs_in-train_requests random draw (doc_id + length pi) (request_id + 1) batches,
  number_docs-append random draw doc_id pi (flatten batches),
)

docs_in-index_all_numbered :
    (src : Source Bytes) (batch_size doc_id request_id : ℕ) (random : Bool) (draw : Random)
    → docs_in (index_all src batch_size doc_id request_id random draw)
      ≡ number_docs random draw doc_id (items src)
unfolding index_all
docs_in-index_all_numbered src batch_size doc_id request_id random draw =
    docs_in-index_requests random draw doc_id request_id (batch_iterator src batch_size)
    ∙ ap (number_docs random draw doc_id) (flatten-batch_iterator src batch_size)

-- Training sends the same documents as indexing.
pub docs_in-train_all :
    (src : Source Bytes) (batch_size doc_id request_id : ℕ) (random : Bool) (draw : Random)
    → docs_in (train_all src batch_size doc_id request_id random draw)
      ≡ docs_in (index_all src batch_size doc_id request_id random draw)
unfolding index_all train_all
docs_in-train_all src batch_size doc_id request_id random draw =
    docs_in-train_requests random draw doc_id request_id (batch_iterator src batch_size)
    ∙ sym (docs_in-index_requests random draw doc_id request_id (batch_iterator src batch_size))

-- The documents carry the items of `data` in order; their ids are those at the positions from `k` on
-- behind the first id, or the values drawn there.
unfoldable pub AreDocsOf : Bool → Random → ℕ → ℕ → List Bytes → List RawDocument → Type 0
AreDocsOf random draw first k [] [] = Unit
AreDocsOf false draw first k (b ∷ data_) (d ∷ docs) =
    (d.raw_bytes ≡ b) × (d.doc_id ≡ first + k) × AreDocsOf false draw first (k + 1) data_ docs
AreDocsOf true draw first k (b ∷ data_) (d ∷ docs) =
    (d.raw_bytes ≡ b) × (d.doc_id ≡ draw (first + k)) × AreDocsOf true draw first (k + 1) data_ docs
AreDocsOf random draw first k [] (_ ∷ _) = ⊥
AreDocsOf random draw first k (_ ∷ _) [] = ⊥

number_docs-AreDocsOf :
    (random : Bool) (draw : Random) (first k id : ℕ) (data_ : List Bytes)
    → id ≡ first + k
    → AreDocsOf random draw first k data_ (number_docs random draw id data_)
unfolding AreDocsOf number_docs
number_docs-AreDocsOf random draw first k id [] e = tt
number_docs-AreDocsOf false draw first k id (b ∷ data_) e =
    (refl, e, number_docs-AreDocsOf false draw first (k + 1) (id + 1) data_ (omega arith))
number_docs-AreDocsOf true draw first k id (b ∷ data_) e =
    (refl, ap draw e, number_docs-AreDocsOf true draw first (k + 1) (id + 1) data_ (omega arith))

-- However the data is cut into batches, the documents in the requests of `index` have the items as
-- their bytes, one document per item and in order, and the ids from the first one on without a gap,
-- or, for random ids, the values that are drawn one after the other.
pub docs_in-index_all :
    (src : Source Bytes) (batch_size doc_id request_id : ℕ) (random : Bool) (draw : Random)
    → AreDocsOf random draw doc_id 0
        (items src)
        (docs_in (index_all src batch_size doc_id request_id random draw))
docs_in-index_all src batch_size doc_id request_id random draw =
    subst (AreDocsOf random draw doc_id 0 (items src))
      (sym (docs_in-index_all_numbered src batch_size doc_id request_id random draw))
      (number_docs-AreDocsOf random draw doc_id 0 doc_id (items src) (omega arith))

-- The ids count up from `n`.
abbrev pub CountFrom : ℕ → List ℕ → Type 0
CountFrom n [] = Unit
CountFrom n (i ∷ rest) = (i ≡ n) × CountFrom (n + 1) rest

-- A training ends with exactly one request that flushes, without documents, and no earlier one.
abbrev pub FlushesAtEnd : List Request → Type 0
FlushesAtEnd [] = ⊥
FlushesAtEnd (r ∷ []) = r.body ≡ train [] true
FlushesAtEnd (r ∷ s ∷ rest) =
    ((docs : List RawDocument) × (r.body ≡ train docs false)) × FlushesAtEnd (s ∷ rest)

-- The request ids of a training count up from the first.
pub train_all-CountFrom :
    (src : Source Bytes) (batch_size doc_id request_id : ℕ) (random : Bool) (draw : Random)
    → CountFrom request_id
        (map (λ r. r.request_id) (train_all src batch_size doc_id request_id random draw))
unfolding train_all train_requests
train_all-CountFrom src batch_size doc_id request_id random draw =
    walk doc_id request_id (batch_iterator src batch_size)
  where
    walk :
        (d r : ℕ) (batches : List (List Bytes))
        → CountFrom r (map (λ r. r.request_id) (train_requests random draw d r batches))
    walk d r [] = (refl, tt)
    walk d r (pi ∷ batches) = (refl, walk (d + length pi) (r + 1) batches)

-- The last request of a training, and only that one, asks to flush, and it has no documents.
pub train_all-FlushesAtEnd :
    (src : Source Bytes) (batch_size doc_id request_id : ℕ) (random : Bool) (draw : Random)
    → FlushesAtEnd (train_all src batch_size doc_id request_id random draw)
unfolding train_all train_requests
train_all-FlushesAtEnd src batch_size doc_id request_id random draw =
    walk doc_id request_id (batch_iterator src batch_size)
  where
    walk :
        (d r : ℕ) (batches : List (List Bytes))
        → FlushesAtEnd (train_requests random draw d r batches)
    walk d r [] = refl
    walk d r (pi ∷ []) = ((_, refl), walk (d + length pi) (r + 1) [])
    walk d r (pi ∷ qi ∷ batches) = ((_, refl), walk (d + length pi) (r + 1) (qi ∷ batches))
