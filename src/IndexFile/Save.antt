-- ===== src/IndexFile/Save.antt =====
-- Writing the checkpoint file: `SerializeMetadataImpl` and `SerializeMetadata` of
-- src/astervec_index.cc.
use aster_vec.Base.{ℕ, List, [], ◌∷◌, ◌++◌, Option, none, some, length, ◌==◌, if◌then◌else◌}
use aster_vec.Base.Bytes.{Bytes, le_bytes}
use aster_vec.Base.Status.{Result, ok, err, io_error}
use aster_vec.Crc
use aster_vec.IdMap.{IdMap}
use aster_vec.IndexFile.{
  Points, Paged, Node, Index, MetaHeader, meta_header_crc, metadata_magic, metadata_version,
}

unfoldable pub write_each : {A : Type 0} → (A → Bytes) → List A → Bytes
write_each bytes [] = []
write_each bytes (a ∷ rest) = bytes a ++ write_each bytes rest

abbrev pub write_id : ℕ → Bytes
write_id id = le_bytes 8 id

unfoldable pub write_layer : ℕ × List ℕ → Bytes
write_layer (layer, neighbors) =
    le_bytes 4 layer ++ (le_bytes 8 (length neighbors) ++ write_each write_id neighbors)

abbrev pub write_entry : ℕ × ℕ → Bytes
write_entry (r, i) = le_bytes 8 r ++ le_bytes 8 i

unfoldable pub write_header : MetaHeader → Bytes
write_header h =
    metadata_magic
    ++ (le_bytes 4 h.version
        ++ (le_bytes 8 h.entry_point
            ++ (le_bytes 4 h.max_layer
                ++ (le_bytes 8 h.node_count
                    ++ (le_bytes 8 h.deleted_count
                        ++ (le_bytes 4 h.graph_encoding ++ le_bytes 4 (meta_header_crc h)))))))

module _ {P S : Type 0} (points : Points P) (paged : Paged S) where
  unfoldable pub write_node : ℕ × Node P → Bytes
  write_node (id, node) =
      le_bytes 8 id
      ++ (le_bytes 8 (length (points.floats node.point))
          ++ (write_each (le_bytes 4) (points.floats node.point)
              ++ (le_bytes 8 (length node.neighbors) ++ write_each write_layer node.neighbors)))

  abbrev pub saved : Option Bytes → Result Bytes
  saved none = err io_error
  saved (some bytes) = ok bytes

  abbrev pub save_pages : Option S → Result Bytes
  save_pages none = err io_error
  save_pages (some pages) = saved (paged.save pages)

  -- The block of the paged storage, where the storage is of that type.
  abbrev pub write_pages : Index P S → Result Bytes
  write_pages ix = if ix.storage_type == 1 then save_pages ix.pages else ok []

  abbrev pub header_of : Index P S → MetaHeader
  header_of ix = record {
    version = metadata_version;
    entry_point = ix.entry_point;
    max_layer = ix.max_layer;
    node_count = length ix.nodes;
    deleted_count = length ix.ids.tombstones;
    graph_encoding = ix.graph_encoding;
  }

  -- The checkpoint's lsn and live count, and the point-id mode.
  abbrev pub write_trailer : Index P S → Bytes
  write_trailer ix =
      le_bytes 8 ix.checkpoint_lsn ++ (le_bytes 8 ix.checkpoint_live_count ++ le_bytes 4 ix.id_mode)

  abbrev pub write_updates : IdMap → Bytes
  write_updates m =
      le_bytes 8 (length m.forward)
      ++ (le_bytes 8 m.next_update ++ write_each write_entry m.forward)

  unfoldable pub write_body : Index P S → Bytes → Bytes
  write_body ix pages =
      write_each write_node ix.nodes
      ++ (write_each write_id ix.ids.tombstones
          ++ (write_updates ix.ids ++ (le_bytes 4 ix.storage_type ++ (pages ++ write_trailer ix))))

  abbrev pub payload_with : Index P S → Result Bytes → Result Bytes
  payload_with ix (err c) = err c
  payload_with ix (ok pages) = ok (write_header (header_of ix) ++ write_body ix pages)

  -- `SerializeMetadataImpl`.
  unfoldable pub serialize_payload : Index P S → Result Bytes
  serialize_payload ix = payload_with ix (write_pages ix)

  abbrev pub sealed : Result Bytes → Result Bytes
  sealed (err c) = err c
  sealed (ok payload) = ok (payload ++ le_bytes 4 (Crc.value payload))

  -- `SerializeMetadata`: the payload and its checksum.
  unfoldable pub serialize_metadata : Index P S → Result Bytes
  serialize_metadata ix = sealed (serialize_payload ix)
