-- ===== src/Proto/Message.antt =====
-- gnes/proto/gnes.proto: the fields of a message that the code of this development reads or writes.
-- A text is kept as its UTF-8 bytes.
use gnes.Prelude.{ℕ, List, Str}

abbrev pub Bytes : Type 0
Bytes = List ℕ

-- `NdArray`; `raw` stands for its field `data`.
pub record NdArray : Type 0 where
  pub raw : Bytes
  pub shape : List ℕ
  pub dtype : Str

-- `oneof content` of `Chunk`
pub data Content : Type 0 where
  nothing : Content
  text : Bytes → Content
  blob : NdArray → Content
  raw : Bytes → Content

pub record Chunk : Type 0 where
  pub doc_id : ℕ
  pub content : Content
  pub embedding : NdArray
  pub offset : ℕ

-- `oneof raw_data` of `Document`
pub data RawData : Type 0 where
  nothing : RawData
  raw_text : Bytes → RawData
  raw_image : NdArray → RawData
  raw_video : NdArray → RawData
  raw_bytes : Bytes → RawData

pub record Document : Type 0 where
  pub doc_id : ℕ
  pub chunks : List Chunk
  pub raw_data : RawData

-- `oneof body` of `Request`, as far as documents go.
pub data Body : Type 0 where
  train : List Document → Body
  index : List Document → Body
  search : Document → Body
