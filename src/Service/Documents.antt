-- ===== src/Service/Documents.antt =====
-- gnes/indexer/doc/dict.py: documents that an index request puts into the dict indexer are found by
-- `query`.
use gnes.Prelude.{
  ℕ, ◌≡◌, refl, ap, ◌∙◌, Bool-cases, inl, inr, Option, none, some, List, [], ◌∷◌, ◌==◌, nat_eq,
  if◌then◌else◌, Dict, insert, lookup, lookup-insert, Result, ok, err,
}
use gnes.Indexer.Keys.{KeyError, out_of_range}
use gnes.Service.Indexing.{IndexDoc, DictIndexer, put_docs, handler_doc_index}

unfoldable pub with_doc :
    {D J : Type 0}
    → (J → D)
    → Option J
    → Result {0, 0} KeyError (List D)
    → Result {0, 0} KeyError (List D)
with_doc parse none rest = err out_of_range
with_doc parse (some j) (ok ds) = ok (parse j ∷ ds)
with_doc parse (some j) (err e) = err e

-- `query`: a key that is not there is an error.
unfoldable pub query_docs :
    {D J : Type 0} → (J → D) → Dict ℕ J → List ℕ → Result {0, 0} KeyError (List D)
unfolding with_doc nat_eq
query_docs parse content [] = ok []
query_docs parse content (k ∷ keys) =
    with_doc parse (lookup k content) (query_docs parse content keys)

unfoldable pub or_earlier : {A : Type 0} → Option A → Option A → Option A
or_earlier none o = o
or_earlier (some a) o = some a

-- The last document of a list with an id.
unfoldable pub last_doc : {W : Type 0} → ℕ → List (IndexDoc W) → Option (IndexDoc W)
unfolding or_earlier nat_eq
last_doc k [] = none
last_doc k (d ∷ ds) = or_earlier (last_doc k ds) (if k == d.doc_id then some d else none)

unfoldable pub both : {A : Type 0} → Option A → Option (List A) → Option (List A)
both none o = none
both (some a) none = none
both (some a) (some as') = some (a ∷ as')

-- The last documents with the ids, where there is one for each.
unfoldable pub last_docs : {W : Type 0} → List ℕ → List (IndexDoc W) → Option (List (IndexDoc W))
unfolding both
last_docs [] docs = some []
last_docs (k ∷ keys) docs = both (last_doc k docs) (last_docs keys docs)

unfoldable pub json_or : {D J : Type 0} → (D → J) → Option D → Option J → Option J
json_or f none o = o
json_or f (some d) o = some (f d)

module _ {W J : Type 0} (to_json : IndexDoc W → J) where
  json_or_last :
      (k : ℕ) (d : IndexDoc W) (o : Option (IndexDoc W)) (content : Option J)
      → json_or to_json o (if k == d.doc_id then some (to_json d) else content)
        ≡ json_or to_json (or_earlier o (if k == d.doc_id then some d else none)) content
  unfolding json_or or_earlier
  json_or_last k d (some x) content = refl
  json_or_last k d none content = elim (Bool-cases (k == d.doc_id)) [
    | inl e ↦ rw e refl
    | inr ne ↦ rw ne refl
  ]

  lookup-put_docs :
      (k : ℕ) (docs : List (IndexDoc W)) (content : Dict ℕ J)
      → lookup k (put_docs to_json docs content)
        ≡ json_or to_json (last_doc k docs) (lookup k content)
  unfolding put_docs last_doc json_or
  lookup-put_docs k [] content = refl
  lookup-put_docs k (d ∷ ds) content =
      lookup-put_docs k ds (insert d.doc_id (to_json d) content)
      ∙ ap (json_or to_json (last_doc k ds)) (lookup-insert k d.doc_id (to_json d) content)
      ∙ json_or_last k d (last_doc k ds) (lookup k content)

  module _ (parse : J → IndexDoc W) (same : (d : IndexDoc W) → parse (to_json d) ≡ d) where
    with_doc_found :
        (o : Option (IndexDoc W)) (os : Option (List (IndexDoc W))) (found : List (IndexDoc W))
        (before q : Option J) (r : Result {0, 0} KeyError (List (IndexDoc W)))
        → both o os ≡ some found
        → q ≡ json_or to_json o before
        → ((rest : List (IndexDoc W)) → os ≡ some rest → r ≡ ok rest)
        → with_doc parse q r ≡ ok found
    unfolding both with_doc json_or
    with_doc_found none os found before q r e eq h = absurd (cc e)
    with_doc_found (some d) none found before q r e eq h = absurd (cc e)
    with_doc_found (some d) (some rest) found before q r e eq h =
        let all : d ∷ rest ≡ found = cc e in
        rw (eq, h rest refl) (ap ok (ap (λ x. x ∷ rest) (same d) ∙ all))

    query_docs-put_docs :
        (keys : List ℕ) (docs found : List (IndexDoc W)) (content : Dict ℕ J)
        → last_docs keys docs ≡ some found
        → query_docs parse (put_docs to_json docs content) keys ≡ ok found
    unfolding query_docs last_docs
    query_docs-put_docs [] docs found content e = cc e
    query_docs-put_docs (k ∷ keys) docs found content e =
        with_doc_found (last_doc k docs) (last_docs keys docs) found (lookup k content)
          (lookup k (put_docs to_json docs content))
          (query_docs parse (put_docs to_json docs content) keys) e (lookup-put_docs k docs content)
          (λ rest all. query_docs-put_docs keys docs rest content all)

    -- Where a document is read back from what was written of it: after an index request to a dict
    -- indexer, a query of ids that are all among those of the request returns for each, in order, the
    -- last document of the request that has it.
    pub query_docs-handler_doc_index :
        (keys : List ℕ) (docs found : List (IndexDoc W)) (m : DictIndexer J)
        → last_docs keys docs ≡ some found
        → query_docs parse (handler_doc_index to_json docs m).1.content keys ≡ ok found
    unfolding handler_doc_index put_docs
    query_docs-handler_doc_index keys [] found m e = query_docs-put_docs keys [] found m.content e
    query_docs-handler_doc_index keys (d ∷ ds) found m e =
        query_docs-put_docs keys (d ∷ ds) found m.content e
