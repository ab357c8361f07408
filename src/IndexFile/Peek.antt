-- ===== src/IndexFile/Peek.antt =====
-- `PeekGraphEncoding` of src/astervec_index.cc, and what it reads from a file that was written.
use aster_vec.Base.{ℕ, not, ◌||◌, ltb, ◌==◌, if◌then◌else◌}
use aster_vec.Base.Bytes.{Bytes}
use aster_vec.Base.Status.{Result, ok, err, corruption}
use aster_vec.IndexFile.{meta_header_crc, metadata_version}
use aster_vec.IndexFile.Stream.{Reader, read, ◌>>=◌, ◌>>◌, refuse_if, read_value}
use aster_vec.IndexFile.Load.{read_magic}

abbrev pub corrupted : {A : Type 0} → Result (A × Bytes) → Result (A × Bytes)
corrupted (err c) = err corruption
corrupted (ok a) = ok a

-- A read whose failure is reported as a corruption.
abbrev pub or_corrupt : {A : Type 0} → Reader A → Reader A
or_corrupt m bytes = corrupted (m bytes)

unfoldable pub peek_header : ℕ → Reader ℕ
peek_header version = do
  entry_point ← or_corrupt (read_value 8)
  max_layer ← or_corrupt (read_value 4)
  node_count ← or_corrupt (read_value 8)
  deleted_count ← or_corrupt (read_value 8)
  encoding ← or_corrupt (read_value 4)
  crc ← or_corrupt (read_value 4)
  refuse_if
      (not (
        meta_header_crc (record {
          version = version;
          entry_point = entry_point;
          max_layer = max_layer;
          node_count = node_count;
          deleted_count = deleted_count;
          graph_encoding = encoding;
        })
        == crc))
      corruption
  read encoding

-- On the contents of a file that can be opened.
unfoldable pub peek_graph_encoding : Reader ℕ
peek_graph_encoding = do
  read_magic corruption
  version ← or_corrupt (read_value 4)
  refuse_if (ltb version 1 || ltb metadata_version version) corruption
  if ltb version 3 then read 0 else peek_header version
