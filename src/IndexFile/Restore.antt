-- ===== src/IndexFile/Restore.antt =====
-- A checkpoint file that was written is loaded, checksum and all.
use aster_vec.Base.{
  ◌+◌, ◌-◌, ◌^◌, ◌<◌, ◌≤◌, ◌≡◌, refl, ap, sym, ◌∙◌, [], ◌++◌, Option, some, length, length-append,
  take, drop, take-append, drop-append, leb, le→ltb, ==_iff, if_true, if_false, arith,
}
use aster_vec.Base.Bytes.{Bytes, le_bytes, le_value, length-le_bytes, le_value-le_bytes}
use aster_vec.Base.Status.{Result, ok, err, ok_injective, err_absurd}
use aster_vec.Bloom.{Rate}
use aster_vec.Crc
use aster_vec.Crc.Detect.{update_crc-IsU32, finish-IsU32}
use aster_vec.IdMap.{IdMap}
use aster_vec.IndexFile.{Points, Paged, Index}
use aster_vec.IndexFile.Save.{
  write_header, header_of, write_body, write_pages, payload_with, serialize_payload, sealed,
  serialize_metadata,
}
use aster_vec.IndexFile.Load.{
  rebuild_filter, load_payload, loaded, payload_of, stored_crc, deserialize_metadata,
}
use aster_vec.IndexFile.RoundTrip.{
  CanSave, entries_of, restored, PagesBack, read_header-write_header, check_header-write_header,
  load_body-write_body,
}

module _ {P S : Type 0} (points : Points P) (paged : Paged S) (rate : Rate)
    (base ix : Index P S) where
  abbrev payload : Bytes → Bytes
  payload block = write_header (header_of points paged ix) ++ write_body points paged ix block

  abbrev checksum : Bytes → Bytes
  checksum block = le_bytes 4 (Crc.value (payload block))

  load_payload_lem :
      (block : Bytes) (pages : Option S) (ids : IdMap)
      → CanSave points paged rate base ix
      → PagesBack points paged rate base block pages
      → rebuild_filter rate (entries_of points paged rate base ix) ≡ some ids
      → load_payload points paged rate base (payload block)
        ≡ ok (restored points paged rate base ix ids pages, [])
  unfolding load_payload
  load_payload_lem block pages ids can back built =
      rw
        (
          read_header-write_header points paged rate (header_of points paged ix)
              (write_body points paged ix block) can.header (omega arith) (omega arith),
          check_header-write_header points paged rate base (header_of points paged ix)
              (write_body points paged ix block) can.header (omega arith) can.same_encoding,
          load_body-write_body points paged rate base ix block pages ids can back built,
        )
        refl

  version_lem : (block rest : Bytes) → le_value (take 4 (drop 8 (payload block ++ rest))) ≡ 4
  unfolding write_header le_bytes le_value
  version_lem block rest = refl

  value-lt : (bytes : Bytes) → Crc.value bytes < 256 ^ 4
  unfolding Crc.value
  value-lt bytes = omega (arith, finish-IsU32 _ (update_crc-IsU32 Crc.init bytes (omega arith)))

  payload_size : (block : Bytes) → 12 ≤ length (payload block)
  unfolding write_header le_bytes
  payload_size block = omega arith

  file_size :
      (block : Bytes) → length (payload block ++ checksum block) ≡ length (payload block) + 4
  file_size block = omega (
    arith,
    length-append (payload block) (checksum block),
    length-le_bytes 4 (Crc.value (payload block)),
  )

  cut_lem :
      (block : Bytes)
      → payload_of points paged rate (payload block ++ checksum block) ≡ payload block
  cut_lem block =
      take-append (payload block) (checksum block) (length (payload block ++ checksum block) - 4)
        (omega (arith, file_size block))

  stored_lem :
      (block : Bytes)
      → stored_crc points paged rate (payload block ++ checksum block) ≡ Crc.value (payload block)
  stored_lem block =
      ap le_value (
        drop-append (payload block) (checksum block) (length (payload block ++ checksum block) - 4)
          (omega (arith, file_size block)))
      ∙ le_value-le_bytes 4 (Crc.value (payload block)) (value-lt (payload block))

  open_lem :
      (block : Bytes)
      → deserialize_metadata points paged rate base (payload block ++ checksum block)
        ≡ loaded points paged rate (load_payload points paged rate base (payload block))
  unfolding deserialize_metadata
  open_lem block =
      if_false _ _ (
        le→ltb (length (payload block ++ checksum block)) 12
          (omega (arith, file_size block, payload_size block)))
      ∙ if_true _ _ (ap (leb 3) (version_lem block (checksum block)))
      ∙ if_true _ _ ((==_iff _ _).1 (ap Crc.value (cut_lem block) ∙ sym (stored_lem block)))
      ∙ ap (λ t. loaded points paged rate (load_payload points paged rate base t)) (cut_lem block)

  -- A checkpoint file that was written is loaded into an index with the same options, where all
  -- parts fit their sizes in the file, the filter can be built, and the vector storage reads back
  -- the block that it wrote. What is loaded holds the nodes and their neighbors, put in under their
  -- keys with the vectors that their floats give, the tombstones, the update map with its filter
  -- built again, the counter of update ids, the checkpoint's lsn and count, the point-id mode, the
  -- entry point and the highest layer that were written.
  pub deserialize_metadata-restored :
      (file : Bytes) (pages : Option S) (ids : IdMap)
      → CanSave points paged rate base ix
      → ((block : Bytes)
          → write_pages points paged ix ≡ ok block
          → PagesBack points paged rate base block pages)
      → rebuild_filter rate (entries_of points paged rate base ix) ≡ some ids
      → serialize_metadata points paged ix ≡ ok file
      → deserialize_metadata points paged rate base file
        ≡ ok (restored points paged rate base ix ids pages)
  unfolding serialize_metadata serialize_payload
  deserialize_metadata-restored file pages ids can back built h =
      go (write_pages points paged ix) refl h
    where
      go :
          (w : Result Bytes)
          → write_pages points paged ix ≡ w
          → sealed points paged (payload_with points paged ix w) ≡ ok file
          → deserialize_metadata points paged rate base file
            ≡ ok (restored points paged rate base ix ids pages)
      go (err c) eq h = absurd (err_absurd h)
      go (ok block) eq h =
          ap (deserialize_metadata points paged rate base) (sym (ok_injective h))
          ∙ open_lem block
          ∙ ap (loaded points paged rate)
              (load_payload_lem block pages ids can (back block eq) built)
