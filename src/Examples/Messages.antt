-- ===== src/Examples/Messages.antt =====
-- Ids, requests, messages and their parts.
use gnes.Prelude.{
  Each, ◌++◌, true, ℕ, ◌+◌, ◌*◌, ◌≡◌, refl, false, some, List, [], ◌∷◌, codes, ok, err, Returns,
  length, arith,
}
use mathlib.Core.List.{flatten}
use gnes.Uuid.Snowflake.{Snowflake, backwards, compose_id, next}
use gnes.Uuid.Order.{
  IsInRange, HasIssued, IsIncreasing, compose_id_lem, take_ids, take_ids-IsIncreasing, set_back,
  next-repeats,
}
use gnes.Uuid.Progress.{IsOk, waiting_for, next-returns}
use gnes.Requests.Batch.{
  Source, sized, items, batch_iterator, flatten-batch_iterator, AreFull, batch_iterator-AreFull,
}
use gnes.Requests.Generator.{AreDocsOf, index_all, docs_in, docs_in-index_all}
use gnes.Proto.Message.{Bytes, NdArray, Content, Chunk, RawData, raw_bytes, Document, index}
use gnes.Proto.Transport.{
  transport, docs_of, doc_type, chunk_type, bytes_doc, raw_chunk, doc_payload,
}
use gnes.Proto.Squeeze.{transport_lem, transport_loses, strip_docs}
use gnes.Router.Envelope.{Message, Route, reduce, publish, split_docs}
use gnes.Router.Merging.{
  IsOrdered, reduce-IsOrdered, reduce-publish, bodies, flatten-split_docs, ArePartsOf,
  split_docs-ArePartsOf,
}
use gnes.Router.Pending.{blocked, sent, barrier}
use gnes.Router.Barrier.{barrier_complete}
use gnes.Flow.Data.{flag}
use gnes.Flow.Args.{is_negated, render}
use gnes.Flow.Options.{render-negated}

next-returns_example : IsOk (next (waiting_for 1 2 100 4095 200 200 201 [])).0
next-returns_example = next-returns 1 2 100 4095 200 200 201 [] (omega arith) (omega arith)

abbrev flake : Snowflake
flake = set_back 1 2 100 5 200 201 (202 ∷ [])

flake-IsInRange : IsInRange flake
flake-IsInRange = record { machine = omega arith; datacenter = omega arith; counter = omega arith }

flake-HasIssued : HasIssued flake 200
flake-HasIssued = record { last = refl; after_epoch = omega arith; range = flake-IsInRange }

compose_id_lem_example : compose_id flake 200 ≡ 100 * 4194304 + (2 * 131072 + (1 * 4096 + 5))
compose_id_lem_example = compose_id_lem flake 200 flake-IsInRange

take_ids-IsIncreasing_example :
    Returns (λ ids z. IsIncreasing (compose_id flake 200) ids) (take_ids 2 flake)
take_ids-IsIncreasing_example = take_ids-IsIncreasing 2 flake 200 flake-HasIssued

next-repeats_example :
    ((next (set_back 1 2 100 5 200 150 [])).0 ≡ err backwards)
    × ((next (next (set_back 1 2 100 5 200 150 [])).1).0
        ≡ ok (compose_id (record (set_back 1 2 100 5 200 150 []) { next_id = 1 }) 200))
next-repeats_example = next-repeats 1 2 100 5 200 150 [] (omega arith)

abbrev texts : Source Bytes
texts = sized ((1 ∷ []) ∷ (2 ∷ []) ∷ (3 ∷ []) ∷ [])

flatten-batch_iterator_example :
    flatten (batch_iterator texts 2) ≡ (1 ∷ []) ∷ (2 ∷ []) ∷ (3 ∷ []) ∷ []
flatten-batch_iterator_example = flatten-batch_iterator texts 2

batch_iterator-AreFull_example : AreFull 2 (batch_iterator texts 2)
batch_iterator-AreFull_example = batch_iterator-AreFull texts 1 (omega arith)

docs_in-index_all_example :
    AreDocsOf false (λ i. i) 10 0 (items texts) (docs_in (index_all texts 2 10 0 false (λ i. i)))
docs_in-index_all_example = docs_in-index_all texts 2 10 0 false (λ i. i)

abbrev vector : NdArray
vector = record { raw = 9 ∷ []; shape = 1 ∷ []; dtype = codes "uint8" }

abbrev chunk : Chunk
chunk = record { doc_id = 1; content = Content.raw (4 ∷ 5 ∷ []); embedding = vector; offset = 0 }

abbrev with_chunk : Document
with_chunk = record { doc_id = 1; chunks = chunk ∷ []; raw_data = RawData.raw_bytes (7 ∷ []) }

transport_lem_example :
    transport (index (with_chunk ∷ with_chunk ∷ [])) ≡ ok (with_chunk ∷ with_chunk ∷ [])
unfolding docs_of doc_type chunk_type
transport_lem_example =
    transport_lem bytes_doc raw_chunk (index (with_chunk ∷ with_chunk ∷ []))
      (refl, (λ p. cc), (refl, tt), (refl, (λ p. cc), (refl, tt), tt))

abbrev bytes_document : Bytes → Document
bytes_document b = record { doc_id = 0; chunks = []; raw_data = raw_bytes b }

transport_loses_example :
    transport (index (bytes_document [] ∷ bytes_document (1 ∷ []) ∷ []))
    ≡ ok (strip_docs (bytes_document [] ∷ bytes_document (1 ∷ []) ∷ []))
unfolding doc_payload Each
transport_loses_example =
    transport_loses (bytes_document []) (bytes_document (1 ∷ []) ∷ []) refl (refl, (refl, tt))

abbrev route_at : ℕ → Route
route_at n = record { service = codes "Enc"; service_identity = n ∷ []; seconds = n; nanos = 0 }

abbrev sample_message : ℕ → ℕ → Message (List ℕ)
sample_message id n = record {
  envelope = record { request_id = id; num_part = 1 ∷ []; part_id = 1; routes = route_at n ∷ [] };
  body = n ∷ (n + 1) ∷ (n + 2) ∷ [];
}

abbrev incoming : List (Message (List ℕ))
incoming = sample_message 1 5 ∷ sample_message 2 6 ∷ sample_message 1 4 ∷ []

reduce-IsOrdered_example : IsOrdered (reduce (sample_message 1 4) incoming).envelope.routes
reduce-IsOrdered_example = reduce-IsOrdered (sample_message 1 4) incoming

reduce-publish_example :
    (reduce (publish 3 (sample_message 1 4)) incoming).envelope.num_part ≡ 1 ∷ []
reduce-publish_example = reduce-publish 3 1 [] (sample_message 1 4) incoming refl

flatten-split_docs_example : flatten (bodies (split_docs 2 (sample_message 1 4))) ≡ 4 ∷ 5 ∷ 6 ∷ []
flatten-split_docs_example = flatten-split_docs 1 (sample_message 1 4)

split_docs-ArePartsOf_example :
    ArePartsOf
      (length (split_docs 2 (sample_message 1 4)))
      1
      (1 ∷ [])
      (split_docs 2 (sample_message 1 4))
split_docs-ArePartsOf_example = split_docs-ArePartsOf 1 (sample_message 1 4)

barrier_complete_example :
    barrier reduce (some 2) [] (sample_message 1 5 ∷ sample_message 1 4 ∷ [])
    ≡ blocked
      ∷ sent (reduce (sample_message 1 4) (sample_message 1 5 ∷ sample_message 1 4 ∷ []))
      ∷ []
unfolding barrier
barrier_complete_example =
    barrier_complete reduce 2 [] (sample_message 1 5 ∷ []) (sample_message 1 4) [] refl

render-negated_example :
    render (codes "no_" ++ codes "verbose") (flag true) ≡ render (codes "verbose") (flag true)
unfolding is_negated
render-negated_example = render-negated (codes "verbose") true refl
