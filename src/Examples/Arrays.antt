-- ===== src/Examples/Arrays.antt =====
-- An index request to a service with a chunk indexer; an array is the list of its bytes.
use gnes.Prelude.{
  ℕ, ◌+◌, ◌-◌, ◌≡◌, refl, ◌⊎◌, inl, inr, if_cases, if◌then◌else◌, ◌&&◌, ◌==◌, nat_eq, length, ◌++◌,
  Bool, true, false, Option, none, some, List, [], ◌∷◌, ok, err, map, Each, union, add_to, insert,
  lookup,
}
use gnes.Proto.Message.{Bytes}
use gnes.Service.Loop.{success}
use gnes.Indexer.Arrays.{Numpy, unequal_shapes, NumpyIndexer, width}
use gnes.Indexer.Ranking.{query_vectors}
use gnes.Indexer.Answered.{AreAnswers, query_vectors-AreAnswers}
use gnes.Service.Indexing.{
  EmbeddedChunk, IndexDoc, chunk_indexer, Handling, embed_infos, handler_index, handler_doc_index,
}
use gnes.Service.Documents.{query_docs, last_doc, last_docs, query_docs-handler_doc_index}
use gnes.Service.Indexed.{Indexed, handler_index-Indexed}

abbrev are_of_width : ℕ → List (List ℕ) → Bool
are_of_width n [] = true
are_of_width n (r ∷ rows) = length r == n && are_of_width n rows

abbrev numpy : Numpy ℕ
numpy = record {
  from_buffer = λ bytes _. bytes;
  reshape = λ xs _. xs;
  stack = λ rows. if are_of_width (width rows) rows then some rows else none;
  concatenate = λ old new. if width old == width new then some (old ++ new) else none;
}

numpy-stacks : (rows : List (List ℕ)) → (numpy.stack rows ≡ some rows) ⊎ (numpy.stack rows ≡ none)
numpy-stacks rows =
    if_cases (λ (r : Option (List (List ℕ))). (r ≡ some rows) ⊎ (r ≡ none))
      (are_of_width (width rows) rows) _ _ (λ _. inl refl) (λ _. inr refl)

numpy-joins :
    (old new : List (List ℕ))
    → (numpy.concatenate old new ≡ some (old ++ new)) ⊎ (numpy.concatenate old new ≡ none)
numpy-joins old new =
    if_cases (λ (r : Option (List (List ℕ))). (r ≡ some (old ++ new)) ⊎ (r ≡ none))
      (width old == width new) _ _ (λ _. inl refl) (λ _. inr refl)

abbrev to_json : IndexDoc ℕ → ℕ
to_json d = d.doc_id

abbrev chunk : Bytes → ℕ → EmbeddedChunk ℕ
chunk bytes offset = record {
  embedding = record { raw = bytes; shape = 2 ∷ []; dtype = [] };
  offset = offset;
  weight = 1;
}

abbrev docs : List (IndexDoc ℕ)
docs =
    record { doc_id = 4; chunks = [] }
    ∷ record { doc_id = 5; chunks = chunk (7 ∷ 8 ∷ []) 0 ∷ chunk [] 1 ∷ chunk (9 ∷ 9 ∷ []) 2 ∷ [] }
    ∷ []

abbrev fresh : NumpyIndexer ℕ ℕ
fresh = record {
  num_dim = none;
  vectors = none;
  helper_indexer = record {
    int2key = [];
    int2key_weight = [];
    num_docs = 0;
    num_chunks = 0;
    num_chunks_in_doc = [];
  };
}

abbrev service : Handling ℕ ℕ ℕ
service = record { model = chunk_indexer fresh; is_model_changed = false; index_status = none }

handler_index-Indexed_example :
    Indexed
      (embed_infos numpy docs)
      fresh
      service
      (handler_index numpy to_json true docs service).0
      (handler_index numpy to_json true docs service).1
handler_index-Indexed_example =
    handler_index-Indexed to_json numpy numpy-stacks numpy-joins true docs fresh service refl
      (refl, refl)

handler_index_of_docs : handler_index numpy to_json true docs service ≡ (
  ok tt,
  record {
    model = chunk_indexer (record {
      num_dim = some 2;
      vectors = some ((7 ∷ 8 ∷ []) ∷ (9 ∷ 9 ∷ []) ∷ []);
      helper_indexer = record {
        int2key = (5, 0) ∷ (5, 2) ∷ [];
        int2key_weight = 1 ∷ 1 ∷ [];
        num_docs = 1;
        num_chunks = 2;
        num_chunks_in_doc = (5, 2) ∷ [];
      };
    });
    is_model_changed = true;
    index_status = some success;
  },
)
unfolding handler_index union add_to insert lookup width
handler_index_of_docs = refl

abbrev filled : NumpyIndexer ℕ ℕ
filled = record {
  num_dim = some 1;
  vectors = some ((7 ∷ []) ∷ (9 ∷ []) ∷ []);
  helper_indexer = record {
    int2key = (5, 0) ∷ (5, 2) ∷ [];
    int2key_weight = 1 ∷ 1 ∷ [];
    num_docs = 1;
    num_chunks = 2;
    num_chunks_in_doc = (5, 2) ∷ [];
  };
}

-- The distance of the first numbers of a query and a row.
abbrev distance : List ℕ → List ℕ → ℕ
distance [] row = 0
distance (a ∷ _) [] = 0
distance (a ∷ _) (b ∷ _) = a - b + (b - a)

abbrev distances : List (List ℕ) → List (List ℕ) → Option (List (List ℕ))
distances keys rows =
    if width keys == width rows then some (map (λ q. map (distance q) rows) keys) else none

query_vectors-AreAnswers_example :
    (out : List (List ((ℕ × ℕ × ℕ) × ℕ))) × (query_vectors distances filled 1 ((9 ∷ []) ∷ [])
      ≡ ok out)
    × AreAnswers filled.helper_indexer 1 ((2 ∷ 0 ∷ []) ∷ []) out
unfolding width Each nat_eq
query_vectors-AreAnswers_example =
    query_vectors-AreAnswers distances filled 1 ((7 ∷ []) ∷ (9 ∷ []) ∷ []) ((9 ∷ []) ∷ [])
      ((2 ∷ 0 ∷ []) ∷ []) refl (refl, refl) refl (refl, tt)

query_of_filled : query_vectors distances filled 1 ((9 ∷ []) ∷ []) ≡ ok ((((5, 2, 1), 0) ∷ []) ∷ [])
unfolding query_vectors width nat_eq
query_of_filled = refl

query_of_other_width : query_vectors distances filled 1 ((9 ∷ 9 ∷ []) ∷ []) ≡ err unequal_shapes
unfolding query_vectors width nat_eq
query_of_other_width = refl

abbrev doc : ℕ → IndexDoc ℕ
doc id = record { doc_id = id; chunks = [] }

abbrev of_chunk : IndexDoc ℕ
of_chunk = record { doc_id = 4; chunks = chunk (7 ∷ []) 0 ∷ [] }

-- Documents that are kept as they are.
query_docs-handler_doc_index_example :
    query_docs
      (λ d. d)
      (handler_doc_index
        (λ d. d)
        (doc 4 ∷ doc 6 ∷ of_chunk ∷ [])
        (record { content = []; num_docs = 0; num_chunks = 0 })).1.content
      (6 ∷ 4 ∷ [])
    ≡ ok (doc 6 ∷ of_chunk ∷ [])
unfolding last_docs last_doc
query_docs-handler_doc_index_example =
    query_docs-handler_doc_index (λ d. d) (λ d. d) (λ d. refl) (6 ∷ 4 ∷ [])
      (doc 4 ∷ doc 6 ∷ of_chunk ∷ []) (doc 6 ∷ of_chunk ∷ [])
      (record { content = []; num_docs = 0; num_chunks = 0 }) refl
