-- ===== src/IndexFile/RoundTrip.antt =====
-- A checkpoint that was saved is loaded again.
use mathlib.Core.List.{append-nil}
use aster_vec.Base.{
  ℕ, ◌^◌, ◌<◌, ◌≤◌, ◌≡◌, refl, ap, sym, ◌∙◌, [], ◌++◌, Option, some, map, length, le→ltb, le→leb,
  ◌==◌, ==_refl, if◌then◌else◌, All, arith,
}
use aster_vec.Base.Bytes.{Bytes, le_bytes, length-le_bytes}
use aster_vec.Base.Status.{ok, io_error}
use aster_vec.Bloom.{Rate}
use aster_vec.IdMap.{IdMap}
use aster_vec.IndexFile.{Points, Paged, Index, MetaHeader, meta_header_crc, metadata_version}
use aster_vec.IndexFile.Stream.{read, read_value, read_value-le_bytes, read_value-front}
use aster_vec.IndexFile.Save.{
  write_each, write_id, write_entry, write_header, header_of, write_trailer, write_updates,
  write_body,
}
use aster_vec.IndexFile.Load.{
  emplace_all, insert_all, assign_all, rebuild_filter, read_entry, read_header, check_header,
  no_updates, read_updates, load_pages, read_pages, read_id_mode, load_body,
}
use aster_vec.IndexFile.Heads.{
  FitsHeader, crc_lem, read_magic-front, versioned, from_entry, from_layer, from_nodes,
  from_deleted, from_encoding,
}
use aster_vec.IndexFile.Blocks.{FitsId, read_ids, read_entries}
use aster_vec.IndexFile.Nodes.{FitsNode, reloaded, read_nodes}

module _ {P S : Type 0} (points : Points P) (paged : Paged S) (rate : Rate) where
  -- The head of what is read has no encoding yet.
  abbrev pub plain : MetaHeader → MetaHeader
  plain h = record h { graph_encoding = 0 }

  pub read_header-write_header :
      (h : MetaHeader) (rest : Bytes)
      → FitsHeader h
      → 1 ≤ h.version
      → h.version ≤ metadata_version
      → read_header points paged rate (write_header h ++ rest)
        ≡ ok (plain h, from_encoding h ++ rest)
  unfolding read_header write_header
  read_header-write_header h rest fits low high =
      rw
        (
          read_magic-front io_error (versioned h) rest,
          read_value-front 4 h.version (from_entry h) rest fits.version,
          le→ltb h.version 1 low,
          le→ltb metadata_version h.version high,
          read_value-front 8 h.entry_point (from_layer h) rest fits.entry_point,
          read_value-front 4 h.max_layer (from_nodes h) rest fits.max_layer,
          read_value-front 8 h.node_count (from_deleted h) rest fits.node_count,
          read_value-front 8 h.deleted_count (from_encoding h) rest fits.deleted_count,
        )
        refl

  pub check_header-write_header :
      (base : Index P S) (h : MetaHeader) (rest : Bytes)
      → FitsHeader h
      → 3 ≤ h.version
      → base.graph_encoding ≡ h.graph_encoding
      → check_header points paged rate base (plain h) (from_encoding h ++ rest) ≡ ok (tt, rest)
  unfolding check_header
  check_header-write_header base h rest fits low same =
      rw
        (
          le→leb 3 h.version low,
          read_value-front 4 h.graph_encoding (le_bytes 4 (meta_header_crc h)) rest
              fits.graph_encoding,
          read_value-le_bytes 4 (meta_header_crc h) rest (crc_lem h),
          ==_refl (meta_header_crc h),
          same,
          ==_refl h.graph_encoding,
        )
        refl

  read_updates-write_updates :
      (m base : IdMap) (rest : Bytes)
      → All (λ e. FitsId e.0 × FitsId e.1) m.forward
      → length m.forward < 256 ^ 8
      → m.next_update < 256 ^ 8
      → read_updates points paged rate 4 base (write_updates points paged m ++ rest)
        ≡ ok (
          assign_all m.forward
              (record (no_updates points paged rate base) { next_update = m.next_update }),
          rest,
        )
  unfolding read_updates
  read_updates-write_updates m base rest entries count next =
      rw
        (
          read_value-front 8 (length m.forward)
              (le_bytes 8 m.next_update ++ write_each write_entry m.forward) rest count,
          read_value-front 8 m.next_update (write_each write_entry m.forward) rest next,
          read_entries m.forward rest entries,
        )
        refl

  read_id_mode-le_bytes :
      (mode : ℕ) → mode ≤ 1 → read_id_mode points paged rate 4 (le_bytes 4 mode) ≡ ok (mode, [])
  unfolding read_id_mode
  read_id_mode-le_bytes mode low =
      let alone : read_value 4 (le_bytes 4 mode) ≡ ok (mode, []) =
        ap (read_value 4) (sym (append-nil (le_bytes 4 mode)))
        ∙ read_value-le_bytes 4 mode [] (omega (arith, low)) in
      rw (length-le_bytes 4 mode, alone, le→ltb 1 mode low) refl

  -- An index whose parts fit their sizes in the file, and an index with the same options to load
  -- it into.
  pub record CanSave (base ix : Index P S) : Type 0 where
    pub nodes : All (FitsNode points paged rate base.dim) ix.nodes
    pub marks : All FitsId ix.ids.tombstones
    pub entries : All (λ e. FitsId e.0 × FitsId e.1) ix.ids.forward
    pub entry_count : length ix.ids.forward < 256 ^ 8
    pub next_update : ix.ids.next_update < 256 ^ 8
    pub header : FitsHeader (header_of points paged ix)
    pub checkpoint_lsn : ix.checkpoint_lsn < 256 ^ 8
    pub live_count : ix.checkpoint_live_count < 256 ^ 8
    pub id_mode : ix.id_mode ≤ 1
    pub storage_type : ix.storage_type < 256 ^ 4
    pub same_encoding : base.graph_encoding ≡ ix.graph_encoding
    pub same_storage : ix.storage_type ≡ base.storage_type

  -- The id map that the entries stand for, before its filter is built.
  abbrev pub entries_of : Index P S → Index P S → IdMap
  entries_of base ix =
      assign_all ix.ids.forward
        (record (no_updates points paged rate
          (record (base.ids) { tombstones = insert_all [] ix.ids.tombstones })) {
            next_update = ix.ids.next_update;
          })

  -- What is in the index behind a load.
  abbrev pub restored : Index P S → Index P S → IdMap → Option S → Index P S
  restored base ix ids pages = record base {
    nodes = emplace_all [] (map (reloaded points paged rate base.dim) ix.nodes);
    ids = ids;
    pages = pages;
    checkpoint_lsn = ix.checkpoint_lsn;
    checkpoint_live_count = ix.checkpoint_live_count;
    id_mode = ix.id_mode;
    entry_point = ix.entry_point;
    max_layer = ix.max_layer;
  }

  -- The block of the vector storage is read back, whatever follows.
  abbrev pub PagesBack : Index P S → Bytes → Option S → Type 0
  PagesBack base block pages =
      (rest : Bytes)
      → (if base.storage_type == 1
            then load_pages points paged rate base.pages
            else read base.pages)
          (block ++ rest)
        ≡ ok (pages, rest)

  pub load_body-write_body :
      (base ix : Index P S) (block : Bytes) (pages : Option S) (ids : IdMap)
      → CanSave base ix
      → PagesBack base block pages
      → rebuild_filter rate (entries_of base ix) ≡ some ids
      → load_body points paged rate base
          (plain (header_of points paged ix))
          (write_body points paged ix block)
        ≡ ok (restored base ix ids pages, [])
  unfolding load_body write_body read_pages read_entry
  load_body-write_body base ix block pages ids can back built =
      rw
        (
          read_nodes points paged rate base.dim ix.nodes (from_marks ix) can.nodes,
          read_ids ix.ids.tombstones (from_updates ix) can.marks,
          read_updates-write_updates ix.ids
              (record (base.ids) { tombstones = insert_all [] ix.ids.tombstones }) (from_storage ix)
              can.entries can.entry_count can.next_update,
          built,
          read_value-le_bytes 4 ix.storage_type (block ++ write_trailer points paged ix)
              can.storage_type,
          can.same_storage,
          ==_refl base.storage_type,
          back (write_trailer points paged ix),
          read_value-le_bytes 8 ix.checkpoint_lsn
              (le_bytes 8 ix.checkpoint_live_count ++ le_bytes 4 ix.id_mode) can.checkpoint_lsn,
          read_value-le_bytes 8 ix.checkpoint_live_count (le_bytes 4 ix.id_mode) can.live_count,
          read_id_mode-le_bytes ix.id_mode can.id_mode,
        )
        refl
    where
      from_storage : Index P S → Bytes
      from_storage ix = le_bytes 4 ix.storage_type ++ (block ++ write_trailer points paged ix)

      from_updates : Index P S → Bytes
      from_updates ix = write_updates points paged ix.ids ++ from_storage ix

      from_marks : Index P S → Bytes
      from_marks ix = write_each write_id ix.ids.tombstones ++ from_updates ix
