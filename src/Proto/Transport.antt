-- ===== src/Proto/Transport.antt =====
-- gnes/proto/__init__.py: `extract_bytes_from_msg` and `fill_raw_bytes_to_msg`.
use gnes.Prelude.{
  ℕ, ◌+◌, Bool, true, false, none, some, List, [], ◌∷◌, ◌++◌, length, get_elem?, take, drop, ◌==◌,
  nat_eq, if◌then◌else◌, Result, ok, err,
}
use gnes.Proto.Message.{
  Bytes, NdArray, Content, Chunk, RawData, raw_text, raw_image, raw_video, raw_bytes, Document,
  Body, train, index, search,
}

-- `WhichOneof('raw_data') or ''` and `WhichOneof('content') or ''`, as sent in the frames.
pub data DocType : Type 0 where
  no_doc bytes_doc image_doc video_doc text_doc : DocType

pub data ChunkType : Type 0 where
  no_chunk raw_chunk blob_chunk text_chunk : ChunkType

unfoldable pub doc_type : RawData → DocType
doc_type RawData.nothing = no_doc
doc_type (raw_text _) = text_doc
doc_type (raw_image _) = image_doc
doc_type (raw_video _) = video_doc
doc_type (raw_bytes _) = bytes_doc

unfoldable pub chunk_type : Content → ChunkType
chunk_type Content.nothing = no_chunk
chunk_type (Content.text _) = text_chunk
chunk_type (Content.blob _) = blob_chunk
chunk_type (Content.raw _) = raw_chunk

abbrev pub clear_array : NdArray → NdArray
clear_array a = record a { raw = [] }

-- The bytes that leave a document, and what stays of its content.
unfoldable pub doc_payload : RawData → List Bytes
doc_payload RawData.nothing = []
doc_payload (raw_text b) = b ∷ []
doc_payload (raw_image a) = a.raw ∷ []
doc_payload (raw_video a) = a.raw ∷ []
doc_payload (raw_bytes b) = b ∷ []

unfoldable pub clear_doc : RawData → RawData
clear_doc RawData.nothing = RawData.nothing
clear_doc (raw_text b) = RawData.nothing
clear_doc (raw_image a) = raw_image (clear_array a)
clear_doc (raw_video a) = raw_video (clear_array a)
clear_doc (raw_bytes b) = RawData.nothing

unfoldable pub content_payload : Content → List Bytes
content_payload Content.nothing = []
content_payload (Content.text b) = b ∷ []
content_payload (Content.blob a) = a.raw ∷ []
content_payload (Content.raw b) = b ∷ []

unfoldable pub clear_content : Content → Content
clear_content Content.nothing = Content.nothing
clear_content (Content.text b) = Content.nothing
clear_content (Content.blob a) = Content.blob (clear_array a)
clear_content (Content.raw b) = Content.nothing

-- The four values that the extraction builds, and the types being those of the last document and
-- of the last chunk.
pub record Extracted : Type 0 where
  pub doc_bytes : List Bytes
  pub doc_byte_type : DocType
  pub chunk_bytes : List Bytes
  pub chunk_byte_type : ChunkType

unfoldable pub extract_chunks : List Chunk → Extracted → List Chunk × Extracted
unfolding content_payload clear_content chunk_type
extract_chunks [] e = ([], e)
extract_chunks (c ∷ chunks) e =
    let (rest, e') = extract_chunks chunks (record e {
      chunk_bytes = e.chunk_bytes ++ c.embedding.raw ∷ content_payload c.content;
      chunk_byte_type = chunk_type c.content;
    }) in
    (record c { content = clear_content c.content; embedding = clear_array c.embedding } ∷ rest, e')

unfoldable pub extract_doc : Document → Extracted → Document × Extracted
unfolding doc_payload clear_doc doc_type extract_chunks
extract_doc d e =
    let (chunks, e') = extract_chunks d.chunks (record e {
      doc_bytes = e.doc_bytes ++ doc_payload d.raw_data;
      doc_byte_type = doc_type d.raw_data;
    }) in
    (record d { raw_data = clear_doc d.raw_data; chunks = chunks }, e')

unfoldable pub extract_docs : List Document → Extracted → List Document × Extracted
unfolding extract_doc
extract_docs [] e = ([], e)
extract_docs (d ∷ docs) e =
    let (d', e') = extract_doc d e in let (rest, e'') = extract_docs docs e' in (d' ∷ rest, e'')

abbrev pub nothing_extracted : Extracted
nothing_extracted = record {
  doc_bytes = [];
  doc_byte_type = no_doc;
  chunk_bytes = [];
  chunk_byte_type = no_chunk;
}

-- The frames behind the serialised message, `msg_data[2:]`.
pub record Frames : Type 0 where
  pub doc_byte_type : DocType
  pub chunk_byte_type : ChunkType
  pub doc_bytes_len : ℕ
  pub chunk_bytes_len : ℕ
  pub payload : List Bytes

-- The frames that `send_message` puts behind the message when it squeezes.
unfoldable pub to_frames : Extracted → Frames
to_frames e = record {
  doc_byte_type = e.doc_byte_type;
  chunk_byte_type = e.chunk_byte_type;
  doc_bytes_len = length e.doc_bytes;
  chunk_bytes_len = length e.chunk_bytes;
  payload = e.doc_bytes ++ e.chunk_bytes;
}

pub data FillError : Type 0 where
  index_error length_mismatch : FillError

unfoldable pub at : List Bytes → ℕ → Result FillError Bytes
at l i = elim (get_elem? l i) [ none ↦ err index_error | some b ↦ ok b ]

abbrev pub is_empty {ℓ} : {A : Type ℓ} → List A → Bool
is_empty [] = true
is_empty (_ ∷ _) = false

-- `d.raw_image.data = b` and the like: a message that is not there is made.
abbrev pub new_array : Bytes → NdArray
new_array b = record { raw = b; shape = []; dtype = [] }

unfoldable pub fill_image : RawData → Bytes → RawData
fill_image (raw_image a) b = raw_image (record a { raw = b })
fill_image _ b = raw_image (new_array b)

unfoldable pub fill_video : RawData → Bytes → RawData
fill_video (raw_video a) b = raw_video (record a { raw = b })
fill_video _ b = raw_video (new_array b)

unfoldable pub fill_blob : Content → Bytes → Content
fill_blob (Content.blob a) b = Content.blob (record a { raw = b })
fill_blob _ b = Content.blob (new_array b)

-- The branch of a document whose bytes are there: its content, and the step of `d_idx`.
unfoldable pub put_raw : DocType → Bytes → RawData → RawData × ℕ
unfolding fill_image fill_video
put_raw no_doc b r = (r, 0)
put_raw bytes_doc b r = (raw_bytes b, 1)
put_raw image_doc b r = (fill_image r b, 1)
put_raw video_doc b r = (fill_video r b, 1)
put_raw text_doc b r = (raw_text b, 1)

unfoldable pub fill_raw : DocType → List Bytes → ℕ → RawData → Result FillError (RawData × ℕ)
unfolding at put_raw
fill_raw t [] i r = ok (r, i)
fill_raw t (x ∷ l) i r = elim (at (x ∷ l) i) [
  | err e ↦ err e
  | ok [] ↦ ok (r, i)
  | ok (b ∷ bs) ↦ ok ((put_raw t (b ∷ bs) r).0, i + (put_raw t (b ∷ bs) r).1)
]

-- `if chunk_bytes and chunk_bytes[c_idx]: c.embedding.data = chunk_bytes[c_idx]`
unfoldable pub fill_embedding : List Bytes → ℕ → NdArray → Result FillError NdArray
unfolding at
fill_embedding [] i a = ok a
fill_embedding (x ∷ l) i a = elim (at (x ∷ l) i) [
  | err e ↦ err e
  | ok [] ↦ ok a
  | ok (b ∷ bs) ↦ ok (record a { raw = b ∷ bs })
]

unfoldable pub put_content : ChunkType → Content → Bytes → Content
unfolding fill_blob
put_content no_chunk c b = c
put_content raw_chunk c b = Content.raw b
put_content blob_chunk c b = fill_blob c b
put_content text_chunk c b = Content.text b

unfoldable pub fill_content : ChunkType → List Bytes → ℕ → Content → Result FillError (Content × ℕ)
unfolding at put_content
fill_content no_chunk l i c = ok (c, i)
fill_content raw_chunk l i c = elim (at l i) [
  | err e ↦ err e
  | ok b ↦ ok (put_content raw_chunk c b, i + 1)
]
fill_content blob_chunk l i c = elim (at l i) [
  | err e ↦ err e
  | ok b ↦ ok (put_content blob_chunk c b, i + 1)
]
fill_content text_chunk l i c = elim (at l i) [
  | err e ↦ err e
  | ok b ↦ ok (put_content text_chunk c b, i + 1)
]

infixl 5 ◌>>=◌
abbrev pub ◌>>=◌ {ℓ κ} :
    {A : Type ℓ} {B : Type κ} → Result FillError A → (A → Result FillError B) → Result FillError B
ok a >>= f = f a
err e >>= f = err e

unfoldable pub fill_chunks :
    ChunkType → List Bytes → ℕ → List Chunk → Result FillError (List Chunk × ℕ)
unfolding fill_embedding fill_content
fill_chunks t l i [] = ok ([], i)
fill_chunks t l i (c ∷ chunks) = do
  e ← fill_embedding l i c.embedding
  (content, j) ← fill_content t l (i + 1) c.content
  (rest, k) ← fill_chunks t l j chunks
  ok (record c { content = content; embedding = e } ∷ rest, k)

-- The loop over the documents, with the indices `d_idx` and `c_idx`.
unfoldable pub fill_docs :
    DocType
    → ChunkType
    → List Bytes
    → List Bytes
    → ℕ
    → ℕ
    → List Document
    → Result FillError (List Document)
unfolding fill_raw fill_chunks
fill_docs t u db cb i j [] = ok []
fill_docs t u db cb i j (d ∷ docs) = do
  (r, i') ← fill_raw t db i d.raw_data
  (chunks, j') ← fill_chunks u cb j d.chunks
  rest ← fill_docs t u db cb i' j' docs
  ok (record d { raw_data = r; chunks = chunks } ∷ rest)

-- `fill_raw_bytes_to_msg`
unfoldable pub fill_raw_bytes : List Document → Frames → Result FillError (List Document)
unfolding fill_docs nat_eq
fill_raw_bytes docs f =
    let doc_bytes = take f.doc_bytes_len f.payload in
    let chunk_bytes = drop f.doc_bytes_len f.payload in
    if length chunk_bytes == f.chunk_bytes_len
    then fill_docs f.doc_byte_type f.chunk_byte_type doc_bytes chunk_bytes 0 0 docs
    else err length_mismatch

abbrev pub empty_document : Document
empty_document = record { doc_id = 0; chunks = []; raw_data = RawData.nothing }

-- `train.docs or index.docs or [search.query]`: a request without documents gives the empty query.
unfoldable pub docs_of : Body → List Document
docs_of (train []) = empty_document ∷ []
docs_of (train (d ∷ docs)) = d ∷ docs
docs_of (index []) = empty_document ∷ []
docs_of (index (d ∷ docs)) = d ∷ docs
docs_of (search d) = d ∷ []

-- What a receiver makes of a squeezed message: the documents, stripped and filled again.
unfoldable pub transport : Body → Result FillError (List Document)
unfolding extract_docs to_frames fill_raw_bytes docs_of
transport body =
    let (docs, e) = extract_docs (docs_of body) nothing_extracted in
    fill_raw_bytes docs (to_frames e)
