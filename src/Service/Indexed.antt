-- ===== src/Service/Indexed.antt =====
-- gnes/service/indexer.py: what an index request leaves in the model of the service.
use gnes.Prelude.{
  and_then, ℕ, ◌≡◌, refl, Bool, true, false, ◌⊎◌, inl, inr, none, some, List, [], ◌∷◌, ◌++◌, map,
  length-map, nat_eq, Result, ok, err, arith,
}
use gnes.Indexer.Arrays.{IndexerError, Numpy, NumpyIndexer, unequal_shapes}
use gnes.Service.Indexing.{
  EmbedInfo, IndexDoc, chunk_indexer, Handling, embed_infos, add_infos, handler_chunk_index,
  index_into, index_model, respond, handler_index,
}
use gnes.Indexer.Adding.{
  IsMatched, Same, Added, Same-IsMatched, Added-IsMatched, add_vectors-Outcome,
}

module _ {E W : Type 0} where
  abbrev pub vecs_of : List (EmbedInfo E W) → List (List E)
  vecs_of = map (λ i. i.vec)

  abbrev pub keys_of : List (EmbedInfo E W) → List (ℕ × ℕ)
  keys_of = map (λ i. i.key)

  abbrev pub weights_of : List (EmbedInfo E W) → List W
  weights_of = map (λ i. i.weight)

  -- An error and a request without embeddings change nothing, else the infos are added.
  abbrev pub Change :
      List (EmbedInfo E W)
      → NumpyIndexer E W
      → Result {0, 0} IndexerError Bool
      → NumpyIndexer E W
      → Type 0
  Change infos m r m' =
      (((e : IndexerError) × (r ≡ err e)) × Same m m')
      ⊎ (((r ≡ ok false) × (infos ≡ []) × Same m m')
          ⊎ ((r ≡ ok true) × Added (keys_of infos) (vecs_of infos) (weights_of infos) m m'))

  add_infos-Change :
      (np : Numpy E)
      (stacks : (rows : List (List E)) → (np.stack rows ≡ some rows) ⊎ (np.stack rows ≡ none))
      (joins : (old new : List (List E))
        → (np.concatenate old new ≡ some (old ++ new)) ⊎ (np.concatenate old new ≡ none))
      (infos : List (EmbedInfo E W)) (m : NumpyIndexer E W)
      → Change infos m (add_infos np infos m).0 (add_infos np infos m).1
  unfolding add_infos
  add_infos-Change np stacks joins [] m =
      inr (inl (refl, refl, record { rows = refl; helper = refl }))
  add_infos-Change np stacks joins (info ∷ rest) m =
      let infos = info ∷ rest in
      elim (stacks (vecs_of infos)) [
        | inr refused ↦
            inl (rw refused ((unequal_shapes, refl), record { rows = refl; helper = refl }))
        | inl stacked ↦
            elim (add_vectors-Outcome np joins info.key (keys_of rest) (vecs_of infos)
              (weights_of infos) m
              (omega (arith, length-map infos (λ i. i.vec), length-map infos (λ i. i.key)))
              (omega (arith, length-map infos (λ i. i.key), length-map infos (λ i. i.weight)))) [
                | inl (failed, same) ↦ inl (rw stacked (failed, same))
                | inr (done, added) ↦ inr (inr (rw stacked (done, added)))
              ]
      ]

  Change-IsMatched :
      (infos : List (EmbedInfo E W)) (m m' : NumpyIndexer E W) (r : Result {0, 0} IndexerError Bool)
      → Change infos m r m'
      → IsMatched m
      → IsMatched m'
  Change-IsMatched infos m m' r (inl (_, same)) h = Same-IsMatched m m' same h
  Change-IsMatched infos m m' r (inr (inl (_, _, same))) h = Same-IsMatched m m' same h
  Change-IsMatched infos m m' r (inr (inr (_, added))) h =
      Added-IsMatched (keys_of infos) (vecs_of infos) (weights_of infos) m m'
        (omega (arith, length-map infos (λ i. i.vec), length-map infos (λ i. i.key)))
        (omega (arith, length-map infos (λ i. i.key), length-map infos (λ i. i.weight))) added h

-- What `_handler_index` makes of a service with a chunk indexer.
pub record Indexed {E W J : Type 0} (infos : List (EmbedInfo E W)) (m : NumpyIndexer E W)
    (before : Handling E W J) (r : Result {0, 0} IndexerError Unit) (after : Handling E W J)
    : Type 0 where
  pub m' : NumpyIndexer E W
  pub model : after.model ≡ chunk_indexer m'
  pub matched : IsMatched m'
  pub change :
      (((e : IndexerError) × (r ≡ err e))
        × Same m m'
        × (after.is_model_changed ≡ before.is_model_changed))
      ⊎ ((((r ≡ ok tt) × (infos ≡ []))
            × Same m m'
            × (after.is_model_changed ≡ before.is_model_changed))
          ⊎ (((r ≡ ok tt) × (after.is_model_changed ≡ true))
              × Added (keys_of infos) (vecs_of infos) (weights_of infos) m m'))

-- The end of `_handler_index`, behind what was done to the chunk indexer.
respond-Indexed :
    {E W J : Type 0} (as_response : Bool) (infos : List (EmbedInfo E W)) (m m' : NumpyIndexer E W)
    (s : Handling E W J) (r : Result {0, 0} IndexerError Bool)
    → Change infos m r m'
    → IsMatched m'
    → Indexed infos m s
        (and_then r (respond as_response) (record s { model = chunk_indexer m' })).0
        (and_then r (respond as_response) (record s { model = chunk_indexer m' })).1
unfolding respond
respond-Indexed as_response infos m m' s r (inl ((e, failed), same)) h =
    rw failed (record { m' = m'; model = refl; matched = h; change = inl ((e, refl), same, refl) })
respond-Indexed as_response infos m m' s r (inr (inl (none_new, empty, same))) h =
    rw none_new (record {
      m' = m';
      model = refl;
      matched = h;
      change = inr (inl ((refl, empty), same, refl));
    })
respond-Indexed as_response infos m m' s r (inr (inr (done, added))) h =
    rw done
      (record { m' = m'; model = refl; matched = h; change = inr (inr ((refl, refl), added)) })

module _ {E W J : Type 0} (to_json : IndexDoc W → J) where
  -- Where np.stack and np.concatenate return the rows that they are given or raise: an index request
  -- to a service whose chunk indexer has as many rows as keys and weights leaves one that has. After
  -- an error, or where no chunk has an embedding, the rows, keys and weights are those that were, and
  -- is_model_changed is as it was; else those of the chunks with an embedding stand behind them, in
  -- the order of the chunks, and is_model_changed is set.
  pub handler_index-Indexed :
      (np : Numpy E)
      (stacks : (rows : List (List E)) → (np.stack rows ≡ some rows) ⊎ (np.stack rows ≡ none))
      (joins : (old new : List (List E))
        → (np.concatenate old new ≡ some (old ++ new)) ⊎ (np.concatenate old new ≡ none))
      (as_response : Bool) (docs : List (IndexDoc W)) (m : NumpyIndexer E W) (s : Handling E W J)
      → s.model ≡ chunk_indexer m
      → IsMatched m
      → Indexed
          (embed_infos np docs)
          m
          s
          (handler_index np to_json as_response docs s).0
          (handler_index np to_json as_response docs s).1
  unfolding handler_index index_model index_into handler_chunk_index
  handler_index-Indexed np stacks joins as_response docs m s e h =
      let infos = embed_infos np docs in
      let (r, m') = add_infos np infos m in
      let change = add_infos-Change np stacks joins infos m in
      rw e (
        respond-Indexed as_response infos m m' (record s { model = chunk_indexer m }) r change
          (Change-IsMatched infos m m' r change h))
