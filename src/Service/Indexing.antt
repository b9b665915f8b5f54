-- ===== src/Service/Indexing.antt =====
-- gnes/service/indexer.py: `_handler_index` of `IndexerService`, for the chunk indexer of
-- gnes/indexer/chunk/numpy.py and the doc indexer of gnes/indexer/doc/dict.py. A chunk or document
-- has the fields that are read here, and `J` is the type of what `MessageToJson` makes.
use gnes.Prelude.{
  ℕ, ◌+◌, Bool, true, false, Option, some, List, [], ◌∷◌, ◌++◌, map, length, nat_eq, if◌then◌else◌,
  Dict, insert, Result, ok, err, Exec, pure, lift_option, ◌>>=◌, ◌>>◌,
}
use gnes.Proto.Message.{Bytes, NdArray}
use gnes.Service.Loop.{Status, success}
use gnes.Indexer.Arrays.{
  IndexerError, unequal_shapes, unsupported, Numpy, NumpyIndexer, add_vectors,
}

pub record EmbeddedChunk (W : Type 0) : Type 0 where
  pub embedding : NdArray
  pub offset : ℕ
  pub weight : W

pub record IndexDoc (W : Type 0) : Type 0 where
  pub doc_id : ℕ
  pub chunks : List (EmbeddedChunk W)

-- `(blob2array(c.embedding), d.doc_id, c.offset, c.weight)`
pub record EmbedInfo (E W : Type 0) : Type 0 where
  pub vec : List E
  pub key : ℕ × ℕ
  pub weight : W

-- The dict indexer with its counters.
pub record DictIndexer (J : Type 0) : Type 0 where
  pub content : Dict ℕ J
  pub num_docs : ℕ
  pub num_chunks : ℕ

pub data Model (E W J : Type 0) : Type 0 where
  chunk_indexer : NumpyIndexer E W → Model E W J
  doc_indexer : DictIndexer J → Model E W J
  no_indexer : Model E W J

-- The model of the service, whether `is_model_changed` is set, and the status of the response.
pub record Handling (E W J : Type 0) : Type 0 where
  pub model : Model E W J
  pub is_model_changed : Bool
  pub index_status : Option Status

unfoldable pub chunks_of : {W : Type 0} → List (IndexDoc W) → ℕ
chunks_of [] = 0
chunks_of (d ∷ ds) = length d.chunks + chunks_of ds

module _ {E W : Type 0} where
  unfoldable pub with_info : Bytes → EmbedInfo E W → List (EmbedInfo E W) → List (EmbedInfo E W)
  with_info [] info rest = rest
  with_info (b ∷ bs) info rest = info ∷ rest

  unfoldable pub add_infos :
      Numpy E → List (EmbedInfo E W) → Exec (NumpyIndexer E W) IndexerError Bool
  unfolding add_vectors
  add_infos np [] = pure false
  add_infos np (info ∷ rest) =
      lift_option unequal_shapes (np.stack (map (λ i. i.vec) (info ∷ rest))) >>= λ rows.
      add_vectors np (map (λ i. i.key) (info ∷ rest)) rows (map (λ i. i.weight) (info ∷ rest))
      >> pure true

module _ {E W J : Type 0} where
  unfoldable pub respond : Bool → Bool → Exec (Handling E W J) IndexerError Unit
  respond as_response changed s = (
    ok tt,
    record s {
      index_status = if as_response then some success else s.index_status;
      is_model_changed = if changed then true else s.is_model_changed;
    },
  )

module _ {W J : Type 0} (to_json : IndexDoc W → J) where
  unfoldable pub put_docs : List (IndexDoc W) → Dict ℕ J → Dict ℕ J
  unfolding nat_eq
  put_docs [] content = content
  put_docs (d ∷ ds) content = put_docs ds (insert d.doc_id (to_json d) content)

  -- `_handler_doc_index`, with `add` of the dict indexer.
  unfoldable pub handler_doc_index : List (IndexDoc W) → DictIndexer J → Bool × DictIndexer J
  unfolding put_docs chunks_of
  handler_doc_index [] m = (false, m)
  handler_doc_index (d ∷ ds) m = (
    true,
    record m {
      content = put_docs (d ∷ ds) m.content;
      num_docs = m.num_docs + length (d ∷ ds);
      num_chunks = m.num_chunks + chunks_of (d ∷ ds);
    },
  )

module _ {E : Type 0} (np : Numpy E) where
  -- `blob2array` of gnes/proto/__init__.py, for arrays of one dimension.
  unfoldable pub blob2array : NdArray → List E
  blob2array blob = np.reshape (np.from_buffer blob.raw blob.dtype) blob.shape

module _ {E W : Type 0} (np : Numpy E) where
  -- The chunks of a document that have an embedding.
  unfoldable pub chunk_infos : ℕ → List (EmbeddedChunk W) → List (EmbedInfo E W)
  unfolding with_info blob2array
  chunk_infos doc_id [] = []
  chunk_infos doc_id (c ∷ cs) =
      with_info c.embedding.raw
        (record { vec = blob2array np c.embedding; key = (doc_id, c.offset); weight = c.weight })
        (chunk_infos doc_id cs)

  -- The loop over the documents; one without chunks adds nothing.
  unfoldable pub embed_infos : List (IndexDoc W) → List (EmbedInfo E W)
  unfolding chunk_infos
  embed_infos [] = []
  embed_infos (d ∷ ds) = chunk_infos d.doc_id d.chunks ++ embed_infos ds

  -- `_handler_chunk_index`
  unfoldable pub handler_chunk_index : List (IndexDoc W) → Exec (NumpyIndexer E W) IndexerError Bool
  unfolding embed_infos add_infos
  handler_chunk_index docs = add_infos np (embed_infos docs)

module _ {E W J : Type 0} (np : Numpy E) (to_json : IndexDoc W → J) where
  -- What is done to the model, and whether it is changed.
  unfoldable pub index_into :
      List (IndexDoc W) → Model E W J → Result {0, 0} IndexerError Bool × Model E W J
  unfolding handler_chunk_index handler_doc_index
  index_into docs (chunk_indexer m) =
      let (r, m') = handler_chunk_index np docs m in (r, chunk_indexer m')
  index_into docs (doc_indexer m) =
      let (changed, m') = handler_doc_index to_json docs m in (ok changed, doc_indexer m')
  index_into docs no_indexer = (err unsupported, no_indexer)

  unfoldable pub index_model : List (IndexDoc W) → Exec (Handling E W J) IndexerError Bool
  unfolding index_into
  index_model docs s = let (r, model) = index_into docs s.model in (r, record s { model = model })

  -- `_handler_index`
  unfoldable pub handler_index : Bool → List (IndexDoc W) → Exec (Handling E W J) IndexerError Unit
  unfolding index_model respond
  handler_index as_response docs = index_model docs >>= respond as_response
