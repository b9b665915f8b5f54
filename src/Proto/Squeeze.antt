-- ===== src/Proto/Squeeze.antt =====
-- gnes/proto/__init__.py: a squeezed message gives back its documents.
use mathlib.Core.List.{append_assoc, append-nil}
use mathlib.Core.Path.{ap₂}
use gnes.Prelude.{
  Each, ℕ, ◌≡◌, refl, sym, ap, ◌∙◌, subst, ◌⊎◌, inl, inr, List, [], ◌∷◌, ◌++◌, arith, length, take,
  drop, nat_eq, ok, ==-refl,
}
use gnes.Proto.Message.{Bytes, Chunk, RawData, Document, Body, train, index, search}
use gnes.Proto.Transport.{
  DocType, no_doc, ChunkType, doc_type, chunk_type, clear_array, doc_payload, clear_doc,
  content_payload, clear_content, Extracted, extract_chunks, extract_doc, extract_docs,
  nothing_extracted, to_frames, at, fill_chunks, fill_raw, fill_docs, fill_raw_bytes, docs_of,
  transport,
}
use gnes.Proto.RoundTrip.{
  chunks_payload, strip_chunks, ChunksOf, HasBytes, fill_raw-drop, fill_chunks-drop,
}

abbrev pub docs_payload : List Document → List Bytes
docs_payload [] = []
docs_payload (d ∷ docs) = doc_payload d.raw_data ++ docs_payload docs

abbrev pub all_chunks_payload : List Document → List Bytes
all_chunks_payload [] = []
all_chunks_payload (d ∷ docs) = chunks_payload d.chunks ++ all_chunks_payload docs

abbrev pub strip_docs : List Document → List Document
strip_docs [] = []
strip_docs (d ∷ docs) =
    record d { raw_data = clear_doc d.raw_data; chunks = strip_chunks d.chunks } ∷ strip_docs docs

-- Documents of one type of content with chunks of one type, none of whose contents is empty.
abbrev pub DocsOf : DocType → ChunkType → List Document → Type 0
DocsOf t u [] = Unit
DocsOf t u (d ∷ docs) =
    (doc_type d.raw_data ≡ t) × HasBytes d.raw_data × ChunksOf u d.chunks × DocsOf t u docs

fill_docs-drop :
    (t : DocType) (u : ChunkType) (db cb : List Bytes) (docs : List Document) (i j : ℕ)
    (r q : List Bytes)
    → (t ≡ no_doc → db ≡ [])
    → DocsOf t u docs
    → drop i db ≡ docs_payload docs ++ r
    → drop j cb ≡ all_chunks_payload docs ++ q
    → fill_docs t u db cb i j (strip_docs docs) ≡ ok docs
unfolding fill_docs
fill_docs-drop t u db cb [] i j r q n ok_docs h k = refl
fill_docs-drop t u db cb (d ∷ docs) i j r q n (dt, bytes, ct, more) h k =
    let (i', raw, next) =
      fill_raw-drop i db d.raw_data (docs_payload docs ++ r) bytes (λ e. n (sym dt ∙ e))
        (rw append_assoc at h) in
    let (j', chunks, next_chunk) =
      fill_chunks-drop u cb d.chunks j (all_chunks_payload docs ++ q) ct (rw append_assoc at k) in
    let typed = subst (λ v. fill_raw v db i (clear_doc d.raw_data) ≡ ok (d.raw_data, i')) dt raw in
    rw (typed, chunks, fill_docs-drop t u db cb docs i' j' r q n more next next_chunk)

abbrev with_chunk : Chunk → Extracted → Extracted
with_chunk c e = record e {
  chunk_bytes = e.chunk_bytes ++ c.embedding.raw ∷ content_payload c.content;
  chunk_byte_type = chunk_type c.content;
}

-- What the extraction leaves in the documents and puts in the frames.
extract_chunks-strip :
    (chunks : List Chunk) (e : Extracted) → (extract_chunks chunks e).0 ≡ strip_chunks chunks
unfolding extract_chunks
extract_chunks-strip [] e = refl
extract_chunks-strip (c ∷ chunks) e =
    ap
      (λ l. record c { content = clear_content c.content; embedding = clear_array c.embedding } ∷ l)
      (extract_chunks-strip chunks (with_chunk c e))

extract_chunks-payload :
    (chunks : List Chunk) (e : Extracted)
    → (extract_chunks chunks e).1.chunk_bytes ≡ e.chunk_bytes ++ chunks_payload chunks
unfolding extract_chunks
extract_chunks-payload [] e = rw append-nil
extract_chunks-payload (c ∷ chunks) e =
    extract_chunks-payload chunks (with_chunk c e) ∙ append_assoc e.chunk_bytes _ _

-- The documents' part of an extraction, which the chunks leave alone.
extract_chunks-docs :
    (chunks : List Chunk) (e : Extracted)
    → ((extract_chunks chunks e).1.doc_bytes ≡ e.doc_bytes)
      × ((extract_chunks chunks e).1.doc_byte_type ≡ e.doc_byte_type)
unfolding extract_chunks
extract_chunks-docs [] e = (refl, refl)
extract_chunks-docs (c ∷ chunks) e = extract_chunks-docs chunks (with_chunk c e)

module _ (d : Document) (e : Extracted) where
  abbrev with_doc : Extracted
  with_doc = record e {
    doc_bytes = e.doc_bytes ++ doc_payload d.raw_data;
    doc_byte_type = doc_type d.raw_data;
  }

  extract_doc_lem : (extract_doc d e).1 ≡ (extract_chunks d.chunks with_doc).1
  unfolding extract_doc
  extract_doc_lem = refl

  extract_doc-strip :
      (extract_doc d e).0
      ≡ record d { raw_data = clear_doc d.raw_data; chunks = strip_chunks d.chunks }
  unfolding extract_doc
  extract_doc-strip =
      ap (λ l. record d { raw_data = clear_doc d.raw_data; chunks = l })
        (extract_chunks-strip d.chunks with_doc)

extract_docs-strip :
    (docs : List Document) (e : Extracted) → (extract_docs docs e).0 ≡ strip_docs docs
unfolding extract_docs
extract_docs-strip [] e = refl
extract_docs-strip (d ∷ docs) e =
    ap₂ ◌∷◌ (extract_doc-strip d e) (extract_docs-strip docs (extract_doc d e).1)

extract_docs-doc_bytes :
    (docs : List Document) (e : Extracted)
    → (extract_docs docs e).1.doc_bytes ≡ e.doc_bytes ++ docs_payload docs
unfolding extract_docs
extract_docs-doc_bytes [] e = rw append-nil
extract_docs-doc_bytes (d ∷ docs) e =
    extract_docs-doc_bytes docs (extract_doc d e).1
    ∙ rw (extract_doc_lem d e, (extract_chunks-docs d.chunks (with_doc d e)).0)
        (append_assoc e.doc_bytes _ _)

extract_docs-chunk_bytes :
    (docs : List Document) (e : Extracted)
    → (extract_docs docs e).1.chunk_bytes ≡ e.chunk_bytes ++ all_chunks_payload docs
unfolding extract_docs
extract_docs-chunk_bytes [] e = rw append-nil
extract_docs-chunk_bytes (d ∷ docs) e =
    extract_docs-chunk_bytes docs (extract_doc d e).1
    ∙ rw (extract_doc_lem d e, extract_chunks-payload d.chunks (with_doc d e))
        (append_assoc e.chunk_bytes _ _)

-- The types are those of the last document and of the last chunk.
extract_docs-doc_type :
    (t : DocType) (u : ChunkType) (docs : List Document) (e : Extracted)
    → DocsOf t u docs
    → e.doc_byte_type ≡ t
    → (extract_docs docs e).1.doc_byte_type ≡ t
unfolding extract_docs
extract_docs-doc_type t u [] e h k = k
extract_docs-doc_type t u (d ∷ docs) e (dt, _, _, more) k =
    extract_docs-doc_type t u docs (extract_doc d e).1 more (
      ap (λ x. x.doc_byte_type) (extract_doc_lem d e)
      ∙ (extract_chunks-docs d.chunks (with_doc d e)).1
      ∙ dt)

extract_chunks-type :
    (u : ChunkType) (chunks : List Chunk) (e : Extracted)
    → ChunksOf u chunks
    → ((extract_chunks chunks e).1.chunk_byte_type ≡ u)
      ⊎ ((chunks ≡ []) × ((extract_chunks chunks e).1.chunk_byte_type ≡ e.chunk_byte_type))
unfolding extract_chunks
extract_chunks-type u [] e h = inr (refl, refl)
extract_chunks-type u (c ∷ chunks) e (ct, more) =
    elim (extract_chunks-type u chunks (with_chunk c e) more) [
      | inl p ↦ inl p
      | inr (_, p) ↦ inl (p ∙ ct)
    ]

abbrev NoChunks : List Document → Type 0
NoChunks [] = Unit
NoChunks (d ∷ docs) = (d.chunks ≡ []) × NoChunks docs

DocsOf-NoChunks :
    (t : DocType) (u v : ChunkType) (docs : List Document)
    → DocsOf t u docs
    → NoChunks docs
    → DocsOf t v docs
DocsOf-NoChunks t u v [] h n = tt
DocsOf-NoChunks t u v (d ∷ docs) (dt, b, _, more) (none_here, n) =
    (dt, b, rw none_here tt, DocsOf-NoChunks t u v docs more n)

extract_docs-chunk_type :
    (t : DocType) (u : ChunkType) (docs : List Document) (e : Extracted)
    → DocsOf t u docs
    → ((extract_docs docs e).1.chunk_byte_type ≡ u)
      ⊎ (NoChunks docs × ((extract_docs docs e).1.chunk_byte_type ≡ e.chunk_byte_type))
unfolding extract_docs extract_doc
extract_docs-chunk_type t u [] e h = inr (tt, refl)
extract_docs-chunk_type t u (d ∷ docs) e (dt, b, ct, more) =
    elim (extract_docs-chunk_type t u docs (extract_doc d e).1 more) [
      | inl p ↦ inl p
      | inr (n, p) ↦ elim (extract_chunks-type u d.chunks (with_doc d e) ct) [
        | inl q ↦ inl (p ∙ q)
        | inr (none_here, q) ↦ inr ((none_here, n), p ∙ q)
      ]
    ]

-- Some chunk type serves for all documents, and it is the one that the frames carry.
extract_docs-DocsOf :
    (t : DocType) (u : ChunkType) (docs : List Document)
    → DocsOf t u docs
    → DocsOf t (extract_docs docs nothing_extracted).1.chunk_byte_type docs
extract_docs-DocsOf t u docs h = elim (extract_docs-chunk_type t u docs nothing_extracted h) [
  | inl p ↦ subst (λ v. DocsOf t v docs) (sym p) h
  | inr (n, _) ↦ DocsOf-NoChunks t u _ docs h n
]

payload_none : (x : RawData) → doc_type x ≡ no_doc → doc_payload x ≡ []
unfolding doc_type doc_payload
payload_none x e = ground arith

docs_payload-none :
    (u : ChunkType) (docs : List Document) → DocsOf no_doc u docs → docs_payload docs ≡ []
docs_payload-none u [] h = refl
docs_payload-none u (d ∷ docs) (dt, _, _, more) =
    rw (payload_none d.raw_data dt, docs_payload-none u docs more)

take-length : (xs ys : List Bytes) → take (length xs) (xs ++ ys) ≡ xs
take-length [] ys = refl
take-length (x ∷ xs) ys = ap (λ l. x ∷ l) (take-length xs ys)

drop-length : (xs ys : List Bytes) → drop (length xs) (xs ++ ys) ≡ ys
drop-length [] ys = refl
drop-length (x ∷ xs) ys = drop-length xs ys

module _ (t : DocType) (u : ChunkType) (d : Document) (docs : List Document)
    (h : DocsOf t u (d ∷ docs)) where
  abbrev extracted : List Document × Extracted
  extracted = extract_docs (d ∷ docs) nothing_extracted

  type_is : extracted.1.doc_byte_type ≡ t
  unfolding extract_docs
  type_is = extract_docs-doc_type t u docs (extract_doc d nothing_extracted).1 h.3 (
      ap (λ x. x.doc_byte_type) (extract_doc_lem d nothing_extracted)
      ∙ (extract_chunks-docs d.chunks (with_doc d nothing_extracted)).1
      ∙ h.0)

  no_bytes : extracted.1.doc_byte_type ≡ no_doc → extracted.1.doc_bytes ≡ []
  no_bytes e =
      extract_docs-doc_bytes (d ∷ docs) nothing_extracted
      ∙ docs_payload-none u (d ∷ docs) (subst (λ v. DocsOf v u (d ∷ docs)) (sym type_is ∙ e) h)

  filled :
      fill_docs extracted.1.doc_byte_type extracted.1.chunk_byte_type extracted.1.doc_bytes
        extracted.1.chunk_bytes 0 0 extracted.0
      ≡ ok (d ∷ docs)
  filled = rw (extract_docs-strip (d ∷ docs) nothing_extracted) (
      fill_docs-drop _ _ _ _ (d ∷ docs) 0 0 [] [] no_bytes
        (subst (λ v. DocsOf v extracted.1.chunk_byte_type (d ∷ docs)) (sym type_is)
          (extract_docs-DocsOf t u (d ∷ docs) h))
        (extract_docs-doc_bytes (d ∷ docs) nothing_extracted ∙ sym (append-nil _))
        (extract_docs-chunk_bytes (d ∷ docs) nothing_extracted ∙ sym (append-nil _)))

  refilled : fill_raw_bytes extracted.0 (to_frames extracted.1) ≡ ok (d ∷ docs)
  unfolding fill_raw_bytes to_frames
  refilled =
      let db = extracted.1.doc_bytes in
      let cb = extracted.1.chunk_bytes in
      rw (take-length db cb, drop-length db cb, ==-refl (length cb)) filled

-- A squeezed message arrives with the documents that were sent, where all documents have one type
-- of content, all chunks have one, and no document's content is empty.
pub transport_lem :
    (t : DocType) (u : ChunkType) (body : Body)
    → DocsOf t u (docs_of body)
    → transport body ≡ ok (docs_of body)
unfolding transport docs_of
transport_lem t u (train []) h = refilled t u _ [] h
transport_lem t u (train (d ∷ docs)) h = refilled t u d docs h
transport_lem t u (index []) h = refilled t u _ [] h
transport_lem t u (index (d ∷ docs)) h = refilled t u d docs h
transport_lem t u (search d) h = refilled t u d [] h

module _ (t : DocType) (u : ChunkType) (bytes chunk_bytes : List Bytes) where
  -- An empty entry is not passed: documents without chunks stay as they are.
  fill_docs-stuck :
      (docs : List Document)
      → Each (λ d. d.chunks ≡ []) docs
      → fill_docs t u ([] ∷ bytes) chunk_bytes 0 0 docs ≡ ok docs
  unfolding fill_docs fill_raw fill_chunks at Each
  fill_docs-stuck [] h = refl
  fill_docs-stuck (d ∷ docs) (none_in, more) = rw (none_in, fill_docs-stuck docs more) refl

strip_docs-chunks :
    (docs : List Document)
    → Each (λ d. d.chunks ≡ []) docs
    → Each (λ d. d.chunks ≡ []) (strip_docs docs)
unfolding Each
strip_docs-chunks [] h = tt
strip_docs-chunks (d ∷ docs) (none_in, more) =
    (ap strip_chunks none_in, strip_docs-chunks docs more)

module _ (d : Document) (docs : List Document) (empty : doc_payload d.raw_data ≡ [] ∷ [])
    (bare : Each (λ x. x.chunks ≡ []) (d ∷ docs)) where
  abbrev stripped : List Document × Extracted
  stripped = extract_docs (d ∷ docs) nothing_extracted

  entries : stripped.1.doc_bytes ≡ [] ∷ docs_payload docs
  entries =
      extract_docs-doc_bytes (d ∷ docs) nothing_extracted ∙ ap (λ l. l ++ docs_payload docs) empty

  unfilled :
      fill_docs stripped.1.doc_byte_type stripped.1.chunk_byte_type stripped.1.doc_bytes
        stripped.1.chunk_bytes 0 0 stripped.0
      ≡ ok (strip_docs (d ∷ docs))
  unfilled =
      rw (extract_docs-strip (d ∷ docs) nothing_extracted, entries)
        (fill_docs-stuck stripped.1.doc_byte_type stripped.1.chunk_byte_type (docs_payload docs)
          stripped.1.chunk_bytes (strip_docs (d ∷ docs)) (strip_docs-chunks (d ∷ docs) bare))

  not_refilled : fill_raw_bytes stripped.0 (to_frames stripped.1) ≡ ok (strip_docs (d ∷ docs))
  unfolding fill_raw_bytes to_frames
  not_refilled =
      let db = stripped.1.doc_bytes in
      let cb = stripped.1.chunk_bytes in
      rw (take-length db cb, drop-length db cb, ==-refl (length cb)) unfilled

-- Of an index request of documents without chunks, the first of which has empty content, every
-- document arrives without the bytes of its content.
pub transport_loses :
    (d : Document) (docs : List Document)
    → doc_payload d.raw_data ≡ [] ∷ []
    → Each (λ x. x.chunks ≡ []) (d ∷ docs)
    → transport (index (d ∷ docs)) ≡ ok (strip_docs (d ∷ docs))
unfolding transport docs_of
transport_loses d docs empty bare = not_refilled d docs empty bare
