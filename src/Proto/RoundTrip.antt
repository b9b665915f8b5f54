-- ===== src/Proto/RoundTrip.antt =====
-- gnes/proto/__init__.py: what is extracted from a message is filled in again.
use mathlib.Core.List.{append_assoc}
use gnes.Prelude.{
  ℕ, zero, suc, ◌+◌, ◌≡◌, refl, sym, subst, ◌≢◌, List, [], ◌∷◌, ◌++◌, arith, drop, nat_eq, ok,
}
use gnes.Proto.Message.{
  Bytes, NdArray, Content, Chunk, RawData, raw_text, raw_image, raw_video, raw_bytes,
}
use gnes.Proto.Transport.{
  DocType, text_doc, image_doc, video_doc, bytes_doc, no_doc, ChunkType, doc_type, chunk_type,
  clear_array, doc_payload, clear_doc, content_payload, clear_content, at, put_raw, fill_raw,
  fill_embedding, fill_content, fill_chunks,
}

-- Reading a list of frames from an index on.
drop-suc :
    (i : ℕ) (l : List Bytes) (x : Bytes) (r : List Bytes) → drop i l ≡ x ∷ r → drop (i + 1) l ≡ r
drop-suc zero [] x r h = cc
drop-suc zero (y ∷ l) x r h = cc
drop-suc (suc i) [] x r h = cc
drop-suc (suc i) (y ∷ l) x r h =
    let step : suc i + 1 ≡ suc (i + 1) = omega arith in rw step (drop-suc i l x r h)

at-drop : (i : ℕ) (l : List Bytes) (x : Bytes) (r : List Bytes) → drop i l ≡ x ∷ r → at l i ≡ ok x
unfolding at
at-drop zero [] x r h = cc
at-drop zero (y ∷ l) x r h = cc
at-drop (suc i) [] x r h = cc
at-drop (suc i) (y ∷ l) x r h = at-drop i l x r h

fill_embedding-drop :
    (i : ℕ) (l : List Bytes) (a : NdArray) (b : Bytes) (r : List Bytes)
    → a.raw ≡ b
    → drop i l ≡ b ∷ r
    → fill_embedding l i (clear_array a) ≡ ok a
unfolding fill_embedding
fill_embedding-drop zero [] a b r e h = cc
fill_embedding-drop (suc i) [] a b r e h = cc
fill_embedding-drop i (x ∷ l) a [] r e h =
    rw (at-drop i (x ∷ l) [] r h, fill_embedding) (λ k. ok (record a { raw = sym e k }))
fill_embedding-drop i (x ∷ l) a (c ∷ b) r e h =
    rw (at-drop i (x ∷ l) (c ∷ b) r h, fill_embedding) (λ k. ok (record a { raw = sym e k }))

-- The content of a chunk comes back.
fill_content-drop :
    (i : ℕ) (l : List Bytes) (c : Content) (r : List Bytes)
    → drop i l ≡ content_payload c ++ r
    → (j : ℕ) × (fill_content (chunk_type c) l i (clear_content c) ≡ ok (c, j)) × (drop j l ≡ r)
unfolding fill_content chunk_type clear_content content_payload
fill_content-drop i l Content.nothing r h = (i, refl, h)
fill_content-drop i l (Content.text b) r h =
    (i + 1, rw (at-drop i l b r h, fill_content), drop-suc i l b r h)
fill_content-drop i l (Content.blob a) r h =
    (i + 1, rw (at-drop i l a.raw r h, fill_content), drop-suc i l a.raw r h)
fill_content-drop i l (Content.raw b) r h =
    (i + 1, rw (at-drop i l b r h, fill_content), drop-suc i l b r h)

-- What a list of chunks puts on the wire, and what it keeps.
abbrev pub chunks_payload : List Chunk → List Bytes
chunks_payload [] = []
chunks_payload (c ∷ chunks) = c.embedding.raw ∷ content_payload c.content ++ chunks_payload chunks

abbrev pub strip_chunks : List Chunk → List Chunk
strip_chunks [] = []
strip_chunks (c ∷ chunks) =
    record c { content = clear_content c.content; embedding = clear_array c.embedding }
    ∷ strip_chunks chunks

abbrev pub ChunksOf : ChunkType → List Chunk → Type 0
ChunksOf u [] = Unit
ChunksOf u (c ∷ chunks) = (chunk_type c.content ≡ u) × ChunksOf u chunks

pub fill_chunks-drop :
    (u : ChunkType) (l : List Bytes) (chunks : List Chunk) (i : ℕ) (r : List Bytes)
    → ChunksOf u chunks
    → drop i l ≡ chunks_payload chunks ++ r
    → (j : ℕ) × (fill_chunks u l i (strip_chunks chunks) ≡ ok (chunks, j)) × (drop j l ≡ r)
unfolding fill_chunks
fill_chunks-drop u l [] i r t h = (i, refl, h)
fill_chunks-drop u l (c ∷ chunks) i r t h =
    let after = drop-suc i l c.embedding.raw _ h in
    let (j, filled, next) =
      fill_content-drop (i + 1) l c.content (chunks_payload chunks ++ r)
        (rw append_assoc at after) in
    let (k, rest, last) = fill_chunks-drop u l chunks j r t.1 next in
    let typed =
      subst (λ v. fill_content v l (i + 1) (clear_content c.content) ≡ ok (c.content, j)) t.0
        filled in
    (k, rw (fill_embedding-drop i l c.embedding c.embedding.raw _ refl h, typed, rest), last)

-- The content of a document comes back, where its bytes are not empty.
abbrev pub HasBytes : RawData → Type 0
HasBytes RawData.nothing = Unit
HasBytes (raw_text b) = b ≢ []
HasBytes (raw_image a) = a.raw ≢ []
HasBytes (raw_video a) = a.raw ≢ []
HasBytes (raw_bytes b) = b ≢ []

fill_raw-at :
    (t : DocType) (i : ℕ) (l : List Bytes) (x : RawData) (b : Bytes) (r : List Bytes)
    → drop i l ≡ b ∷ r
    → b ≢ []
    → fill_raw t l i x ≡ ok ((put_raw t b x).0, i + (put_raw t b x).1)
unfolding fill_raw
fill_raw-at t zero [] x b r h n = cc
fill_raw-at t (suc i) [] x b r h n = cc
fill_raw-at t i (y ∷ l) x [] r h n = absurd (n refl)
fill_raw-at t i (y ∷ l) x (c ∷ b) r h n = rw (at-drop i (y ∷ l) (c ∷ b) r h, fill_raw)

fill_raw-none :
    (i : ℕ) (l : List Bytes) (r : List Bytes)
    → drop i l ≡ r
    → l ≡ []
    → (j : ℕ) × (fill_raw (doc_type RawData.nothing) l i RawData.nothing ≡ ok (RawData.nothing, j))
      × (drop j l ≡ r)
unfolding fill_raw
fill_raw-none i [] r h n = (i, refl, h)
fill_raw-none i (x ∷ l) r h n = cc

pub fill_raw-drop :
    (i : ℕ) (l : List Bytes) (x : RawData) (r : List Bytes)
    → HasBytes x
    → (doc_type x ≡ no_doc → l ≡ [])
    → drop i l ≡ doc_payload x ++ r
    → (j : ℕ) × (fill_raw (doc_type x) l i (clear_doc x) ≡ ok (x, j)) × (drop j l ≡ r)
unfolding doc_type doc_payload clear_doc put_raw
fill_raw-drop i l RawData.nothing r b n h = fill_raw-none i l r h (n refl)
fill_raw-drop i l (raw_text x) r b n h =
    (i + 1, fill_raw-at text_doc i l RawData.nothing x r h b, drop-suc i l x r h)
fill_raw-drop i l (raw_image a) r b n h = (
  i + 1,
  fill_raw-at image_doc i l (raw_image (clear_array a)) a.raw r h b,
  drop-suc i l a.raw r h,
)
fill_raw-drop i l (raw_video a) r b n h = (
  i + 1,
  fill_raw-at video_doc i l (raw_video (clear_array a)) a.raw r h b,
  drop-suc i l a.raw r h,
)
fill_raw-drop i l (raw_bytes x) r b n h =
    (i + 1, fill_raw-at bytes_doc i l RawData.nothing x r h b, drop-suc i l x r h)
