-- ===== src/IndexFile.antt =====
-- The checkpoint file of the index: `SerializeMetadata`, `DeserializeMetadata` and
-- `PeekGraphEncoding` of src/astervec_index.cc. The paged vector storage and the quantization of a
-- node's vector are parameters. Writes to the stream succeed.
pub mod Stream
pub mod Save
pub mod Load
pub mod Peek
pub mod Damage
pub mod Heads
pub mod Blocks
pub mod Nodes
pub mod RoundTrip
pub mod Filled
pub mod Restore
pub mod Back
pub mod Tests
use aster_vec.Base.{ℕ, List, Option, ◌++◌, ◌∷◌, []}
use aster_vec.Base.Bytes.{Bytes, le_bytes}
use aster_vec.Crc
use aster_vec.IdMap.{IdMap}

-- `LSMVMETA`.
abbrev pub metadata_magic : Bytes
metadata_magic = b'L' ∷ b'S' ∷ b'M' ∷ b'V' ∷ b'M' ∷ b'E' ∷ b'T' ∷ b'A' ∷ []

abbrev pub metadata_version : ℕ
metadata_version = 4

-- A vector in memory: its floats as 32-bit words, and the vector that is made of read floats.
pub record Points (P : Type 0) : Type 0 where
  pub floats : P → List ℕ
  pub load : List ℕ → P

-- The paged vector storage: what it writes, and what it makes of a stream, with the rest of it.
pub record Paged (S : Type 0) : Type 0 where
  pub save : S → Option Bytes
  pub load : S → Bytes → Option (S × Bytes)

-- A node of an upper layer, with its neighbors by layer.
pub record Node (P : Type 0) : Type 0 where
  pub id : ℕ
  pub point : P
  pub neighbors : List (ℕ × List ℕ)

-- The members of the index in the file. Signed numbers are in two's complement; `pages` is `none`
-- where the vector storage is not a paged one; `dim` and `storage_type` are options.
pub record Index (P S : Type 0) : Type 0 where
  pub nodes : List (ℕ × Node P)
  pub ids : IdMap
  pub entry_point : ℕ
  pub max_layer : ℕ
  pub graph_encoding : ℕ
  pub pages : Option S
  pub checkpoint_lsn : ℕ
  pub checkpoint_live_count : ℕ
  pub id_mode : ℕ
  pub dim : ℕ
  pub storage_type : ℕ

-- `MetaHeaderV3`.
pub record MetaHeader : Type 0 where
  pub version : ℕ
  pub entry_point : ℕ
  pub max_layer : ℕ
  pub node_count : ℕ
  pub deleted_count : ℕ
  pub graph_encoding : ℕ

unfoldable pub meta_header_crc : MetaHeader → ℕ
meta_header_crc h = Crc.value (
    metadata_magic
    ++ le_bytes 4 h.version
    ++ le_bytes 8 h.entry_point
    ++ le_bytes 4 h.max_layer
    ++ le_bytes 8 h.node_count
    ++ le_bytes 8 h.deleted_count
    ++ le_bytes 4 h.graph_encoding)
