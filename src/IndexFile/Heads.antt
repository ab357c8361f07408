-- ===== src/IndexFile/Heads.antt =====
-- The header of a checkpoint file is read back.
use aster_vec.Base.{
  ◌^◌, ◌<◌, ◌≤◌, ◌≡◌, refl, ap, true, ◌&&◌, ◌++◌, length, le→ltb, le→leb, ==_refl, if_true, arith,
}
use aster_vec.Base.Bytes.{Bytes, le_bytes, same_bytes}
use aster_vec.Base.Status.{Code, ok, corruption}
use aster_vec.Crc.{init, value}
use aster_vec.Crc.Detect.{update_crc-IsU32, finish-IsU32}
use aster_vec.IndexFile.{MetaHeader, meta_header_crc, metadata_magic, metadata_version}
use aster_vec.IndexFile.Stream.{read_value-le_bytes, read_value-front}
use aster_vec.IndexFile.Save.{write_header}
use aster_vec.IndexFile.Load.{read_magic}
use aster_vec.IndexFile.Peek.{peek_header, peek_graph_encoding}

-- The parts of a header.
abbrev pub from_encoding : MetaHeader → Bytes
from_encoding h = le_bytes 4 h.graph_encoding ++ le_bytes 4 (meta_header_crc h)

abbrev pub from_deleted : MetaHeader → Bytes
from_deleted h = le_bytes 8 h.deleted_count ++ from_encoding h

abbrev pub from_nodes : MetaHeader → Bytes
from_nodes h = le_bytes 8 h.node_count ++ from_deleted h

abbrev pub from_layer : MetaHeader → Bytes
from_layer h = le_bytes 4 h.max_layer ++ from_nodes h

abbrev pub from_entry : MetaHeader → Bytes
from_entry h = le_bytes 8 h.entry_point ++ from_layer h

abbrev pub versioned : MetaHeader → Bytes
versioned h = le_bytes 4 h.version ++ from_entry h

-- The fields of a header fit their sizes in the file.
pub record FitsHeader (h : MetaHeader) : Type 0 where
  pub version : h.version < 256 ^ 4
  pub entry_point : h.entry_point < 256 ^ 8
  pub max_layer : h.max_layer < 256 ^ 4
  pub node_count : h.node_count < 256 ^ 8
  pub deleted_count : h.deleted_count < 256 ^ 8
  pub graph_encoding : h.graph_encoding < 256 ^ 4

pub crc_lem : (h : MetaHeader) → meta_header_crc h < 256 ^ 4
unfolding meta_header_crc value
crc_lem h = omega (arith, finish-IsU32 _ (update_crc-IsU32 init _ (omega arith)))

pub read_magic-front :
    (c : Code) (block rest : Bytes)
    → read_magic c ((metadata_magic ++ block) ++ rest) ≡ ok (tt, block ++ rest)
unfolding read_magic same_bytes
read_magic-front c block rest =
    if_true _ _
      (ap (λ b. b && true) (le→leb 8 (length (metadata_magic ++ (block ++ rest))) (omega arith)))

-- The encoding that a header was written with is what is read ahead of loading, whatever follows
-- the header, where the header has a version with encodings and its fields fit.
pub peek_graph_encoding-write_header :
    (h : MetaHeader) (rest : Bytes)
    → FitsHeader h
    → 3 ≤ h.version
    → h.version ≤ metadata_version
    → peek_graph_encoding (write_header h ++ rest) ≡ ok (h.graph_encoding, rest)
unfolding peek_graph_encoding peek_header write_header
peek_graph_encoding-write_header h rest fits low high =
    rw
      (
        read_magic-front corruption (versioned h) rest,
        read_value-front 4 h.version (from_entry h) rest fits.version,
        le→ltb h.version 1 (omega (arith, low)),
        le→ltb metadata_version h.version high,
        le→ltb h.version 3 low,
        read_value-front 8 h.entry_point (from_layer h) rest fits.entry_point,
        read_value-front 4 h.max_layer (from_nodes h) rest fits.max_layer,
        read_value-front 8 h.node_count (from_deleted h) rest fits.node_count,
        read_value-front 8 h.deleted_count (from_encoding h) rest fits.deleted_count,
        read_value-front 4 h.graph_encoding (le_bytes 4 (meta_header_crc h)) rest
            fits.graph_encoding,
        read_value-le_bytes 4 (meta_header_crc h) rest (crc_lem h),
        ==_refl (meta_header_crc h),
      )
      refl
