-- ===== src/IndexFile/Load.antt =====
-- Reading the checkpoint file: `DeserializeMetadataImpl` and `DeserializeMetadata` of
-- src/astervec_index.cc. What a failed load leaves behind in the index is left out.
use aster_vec.Base.{
  ℕ, ◌-◌, ◌*◌, ◌/◌, ◌^◌, not, ◌&&◌, ◌||◌, List, [], ◌∷◌, ◌++◌, Option, none, some, length, take,
  drop, max, ltb, leb, ◌==◌, if◌then◌else◌,
}
use aster_vec.Base.Bytes.{Bytes, le_value, same_bytes}
use aster_vec.Base.Assoc.{lookup, assign}
use aster_vec.Base.Status.{Code, Result, ok, err, corruption, invalid_argument, io_error}
use aster_vec.Crc
use aster_vec.Bloom.{Bloom, Rate, reset}
use aster_vec.IdMap.{IdMap, first_update_id, add_keys, member}
use aster_vec.IndexFile.{
  Points, Paged, Node, Index, MetaHeader, meta_header_crc, metadata_magic, metadata_version,
}
use aster_vec.IndexFile.Stream.{
  Reader, read, refuse, ◌>>=◌, ◌>>◌, bytes_left, refuse_if, read_value, read_many,
}

-- `emplace`: a key that is there keeps its value.
abbrev pub emplace : {A : Type 0} → List (ℕ × A) → ℕ → A → List (ℕ × A)
emplace m k a = elim (lookup k m) [ none ↦ m ++ ((k, a) ∷ []) | some b ↦ m ]

unfoldable pub emplace_all : {A : Type 0} → List (ℕ × A) → List (ℕ × A) → List (ℕ × A)
emplace_all m [] = m
emplace_all m ((k, a) ∷ entries) = emplace_all (emplace m k a) entries

-- The set of the tombstones.
unfoldable pub insert_all : List ℕ → List ℕ → List ℕ
insert_all marks [] = marks
insert_all marks (t ∷ ts) =
    let marked = insert_all marks ts in
    let added = insert_all (t ∷ marks) ts in if member t marks then marked else added

-- Both maps, from the entries in their order.
unfoldable pub assign_all : List (ℕ × ℕ) → IdMap → IdMap
assign_all [] m = m
assign_all ((r, i) ∷ entries) m =
    assign_all entries (record m { forward = assign r i m.forward; reverse = assign i r m.reverse })

-- The filter is built again from the map; `none` where `reset` throws.
abbrev pub filter_rebuilt : IdMap → Option Bloom → Option IdMap
filter_rebuilt m none = none
filter_rebuilt m (some f) = some (record m { bloom = add_keys m.forward f })

unfoldable pub rebuild_filter : Rate → IdMap → Option IdMap
rebuild_filter rate m = filter_rebuilt m (reset rate (max (length m.forward) 512) m.bloom)

-- A list that cannot be longer than the rest of the stream allows, `size` bytes for each element.
abbrev pub read_bounded : {A : Type 0} → ℕ → ℕ → Reader A → Reader (List A)
read_bounded size count m = do
  left ← bytes_left
  refuse_if (ltb (left / size) count) corruption
  read_many count m

unfoldable pub read_magic : Code → Reader (Unit {0})
read_magic c bytes =
    if leb 8 (length bytes) && same_bytes (take 8 bytes) metadata_magic
    then ok (tt, drop 8 bytes)
    else err c

unfoldable pub read_entry : Reader (ℕ × ℕ)
read_entry = do r ← read_value 8; i ← read_value 8; read (r, i)

unfoldable pub read_layer : Reader (ℕ × List ℕ)
read_layer = do
  layer ← read_value 4
  count ← read_value 8
  neighbors ← read_bounded 8 count (read_value 8)
  read (layer, neighbors)

-- What the trailer of an older file stands for.
abbrev pub no_count : ℕ
no_count = 2 ^ 64 - 1

module _ {P S : Type 0} (points : Points P) (paged : Paged S) (rate : Rate) where
  unfoldable pub read_node : ℕ → Reader (ℕ × Node P)
  read_node dim = do
    id ← read_value 8
    size ← read_value 8
    refuse_if (not (size == dim)) invalid_argument
    left ← bytes_left
    refuse_if (ltb left (size * 4)) corruption
    floats ← read_many size (read_value 4)
    count ← read_value 8
    layers ← read_bounded 12 count read_layer
    read (id, record { id = id; point = points.load floats; neighbors = emplace_all [] layers })

  -- The encoding of the graph and the checksum of the header; older files have neither.
  unfoldable pub check_header : Index P S → MetaHeader → Reader (Unit {0})
  check_header ix h =
      if leb 3 h.version
      then (do
        encoding ← read_value 4
        crc ← read_value 4
        refuse_if (not (meta_header_crc (record h { graph_encoding = encoding }) == crc)) corruption
        refuse_if (not (encoding == ix.graph_encoding)) corruption)
      else refuse_if (not (ix.graph_encoding == 0)) corruption

  unfoldable pub read_header : Reader MetaHeader
  read_header = do
    read_magic io_error
    version ← read_value 4
    refuse_if (ltb version 1 || ltb metadata_version version) io_error
    entry_point ← read_value 8
    max_layer ← read_value 4
    node_count ← read_value 8
    deleted_count ← read_value 8
    read (record {
      version = version;
      entry_point = entry_point;
      max_layer = max_layer;
      node_count = node_count;
      deleted_count = deleted_count;
      graph_encoding = 0;
    })

  abbrev pub no_updates : IdMap → IdMap
  no_updates m = record m { forward = []; reverse = []; next_update = first_update_id }

  unfoldable pub read_updates : ℕ → IdMap → Reader IdMap
  read_updates version m =
      if leb 2 version
      then (do
        count ← read_value 8
        next ← read_value 8
        entries ← read_bounded 16 count read_entry
        read (assign_all entries (record (no_updates m) { next_update = next })))
      else read (no_updates m)

  abbrev pub built : Option IdMap → Reader IdMap
  built none = refuse corruption
  built (some m) = read m

  abbrev pub pages_loaded : Option (S × Bytes) → Result (Option S × Bytes)
  pages_loaded none = err io_error
  pages_loaded (some (pages, rest)) = ok (some pages, rest)

  abbrev pub load_pages : Option S → Reader (Option S)
  load_pages none = refuse io_error
  load_pages (some pages) = λ bytes. pages_loaded (paged.load pages bytes)

  unfoldable pub read_pages : Index P S → Reader (Option S)
  read_pages ix = do
    storage_type ← read_value 4
    refuse_if (not (storage_type == ix.storage_type)) invalid_argument
    if storage_type == 1 then load_pages ix.pages else read ix.pages

  abbrev pub read_checkpoint : ℕ → Reader (ℕ × ℕ)
  read_checkpoint version = if leb 4 version then read_entry else read (0, no_count)

  abbrev pub corrupt_on : Result (ℕ × Bytes) → Result (ℕ × Bytes)
  corrupt_on (err c) = err corruption
  corrupt_on (ok (mode, rest)) = if ltb 1 mode then err corruption else ok (mode, rest)

  -- The point-id mode is optional.
  unfoldable pub read_id_mode : ℕ → Reader ℕ
  read_id_mode version bytes =
      if leb 4 version && not (length bytes == 0)
      then corrupt_on (read_value 4 bytes)
      else ok (0, bytes)

  unfoldable pub load_body : Index P S → MetaHeader → Reader (Index P S)
  load_body ix h = do
    nodes ← read_bounded 24 h.node_count (read_node ix.dim)
    marks ← read_bounded 8 h.deleted_count (read_value 8)
    updates ← read_updates h.version (record (ix.ids) { tombstones = insert_all [] marks })
    ids ← built (rebuild_filter rate updates)
    pages ← read_pages ix
    trailer ← read_checkpoint h.version
    mode ← read_id_mode h.version
    read (record ix {
      nodes = emplace_all [] nodes;
      ids = ids;
      pages = pages;
      checkpoint_lsn = trailer.0;
      checkpoint_live_count = trailer.1;
      id_mode = mode;
      entry_point = h.entry_point;
      max_layer = h.max_layer;
    })

  -- `DeserializeMetadataImpl`.
  unfoldable pub load_payload : Index P S → Reader (Index P S)
  load_payload ix = do h ← read_header; check_header ix h; load_body ix h

  abbrev pub loaded : Result (Index P S × Bytes) → Result (Index P S)
  loaded (err c) = err c
  loaded (ok (ix, rest)) = ok ix

  -- The checksum that stands behind the payload.
  abbrev pub payload_of : Bytes → Bytes
  payload_of all = take (length all - 4) all

  abbrev pub stored_crc : Bytes → ℕ
  stored_crc all = le_value (drop (length all - 4) all)

  -- `DeserializeMetadata`.
  unfoldable pub deserialize_metadata : Index P S → Bytes → Result (Index P S)
  deserialize_metadata ix all =
      if ltb (length all) 12
      then err corruption
      else if leb 3 (le_value (take 4 (drop 8 all)))
      then (if Crc.value (payload_of all) == stored_crc all
          then loaded (load_payload ix (payload_of all))
          else err corruption)
      else loaded (load_payload ix all)
