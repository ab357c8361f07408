-- ===== src/Checkpoint/Tests.antt =====
-- A first checkpoint of a small store with a log of three records.
use aster_vec.Base.{ℕ, ◌≡◌, refl, ap, sym, ◌∙◌, true, inr, List, [], ◌∷◌, map, none, some, arith}
use aster_vec.Base.Bytes.{Bytes}
use aster_vec.Base.Status.{ok}
use aster_vec.OpLog.Groups.{Group, file_of, all_records, Chain}
use aster_vec.OpLog.Delivery.{wanted}
use aster_vec.OpLog.Writer.{last_lsn}
use aster_vec.OpLog.Tests.{one, two, two_files, two-Chain}
use aster_vec.IndexFile.{Index}
use aster_vec.IndexFile.Save.{serialize_metadata}
use aster_vec.IndexFile.RoundTrip.{restored}
use aster_vec.IndexFile.Restore.{deserialize_metadata-restored}
use aster_vec.IndexFile.Tests.{
  words, no_pages, some_rate, empty_index, busy_index, busy_ids, busy_file, busy_saved,
  busy_index-CanSave, busy_filter, empty_block,
}
use aster_vec.Checkpoint.{
  Files, MetaIo, Store, CheckpointIo, stamped, checkpoint_locked, write_metadata_file,
  open_checkpoint, install_tmp, keep_previous,
}
use aster_vec.Checkpoint.Crash.{Holds, HoldsOpened, LoadsAs, open_checkpoint-Holds}
use aster_vec.Checkpoint.Covers.{metadata_run, checkpoint_locked-Holds}

abbrev saved_index : Index (List ℕ) ℕ
saved_index = restored words no_pages some_rate empty_index busy_index busy_ids none

busy-LoadsAs :
    (bytes : Bytes)
    → serialize_metadata words no_pages busy_index ≡ ok bytes
    → LoadsAs words no_pages some_rate true empty_index bytes saved_index
busy-LoadsAs bytes h =
    deserialize_metadata-restored words no_pages some_rate empty_index busy_index bytes none
      busy_ids busy_index-CanSave empty_block busy_filter h

abbrev no_files : Files
no_files = record { meta = none; prev = none; tmp = none }

-- A damaged metadata file with a sound `.prev`.
abbrev damaged_files : Files
damaged_files = record { meta = some []; prev = some busy_file; tmp = none }

open_checkpoint-Holds_example :
    HoldsOpened words no_pages some_rate true empty_index
      (open_checkpoint words no_pages some_rate true empty_index damaged_files)
open_checkpoint-Holds_example =
    open_checkpoint-Holds words no_pages some_rate true empty_index damaged_files

abbrev good_file : MetaIo
good_file = record {
  opens = true;
  flushes = true;
  partial = [];
  syncs = true;
  removes = true;
  links = true;
  renames = true;
  syncs_dir = true;
}

abbrev good_calls : CheckpointIo
good_calls = record {
  syncs_vectors = true;
  graph = ok tt;
  payloads = ok tt;
  file = good_file;
  counts = true;
  removes = λ seg. true;
}

abbrev small_store : Store (List ℕ) ℕ
small_store = record {
  index = record busy_index { checkpoint_lsn = 0; checkpoint_live_count = 0 };
  log = some two_files;
  live = 1;
  writes = 3;
  ops = 3;
  main_checkpoint_lsn = 0;
  files = no_files;
  count_file = none;
}

stamped_busy : stamped words no_pages small_store ≡ busy_index
unfolding stamped last_lsn
stamped_busy = refl

installed :
    (metadata_run words no_pages some_rate true empty_index good_calls small_store).status ≡ ok tt
unfolding write_metadata_file keep_previous install_tmp
installed = ap (λ new. (write_metadata_file good_file new no_files).status) (stamped_saved)
  where
    stamped_saved :
        serialize_metadata words no_pages (stamped words no_pages small_store) ≡ ok busy_file
    stamped_saved = ap (serialize_metadata words no_pages) stamped_busy ∙ busy_saved

checkpoint_locked-Holds_example :
    (t : Store (List ℕ) ℕ) × (checkpoint_locked words no_pages good_calls small_store
      ≡ some (ok tt, t))
    × Holds words no_pages some_rate true empty_index t.files saved_index
    × (t.main_checkpoint_lsn ≡ last_lsn two_files)
    × (t.writes ≡ 0)
    × ((gs' : List Group) × (t.log ≡ some (record two_files { dir = map file_of gs' }))
        × ((first : ℕ) × Chain first 4 gs')
        × (wanted 1 (all_records gs') ≡ wanted 1 (all_records (one ∷ two ∷ []))))
checkpoint_locked-Holds_example =
    checkpoint_locked-Holds words no_pages some_rate true empty_index good_calls small_store
      two_files 1 4 (one ∷ two ∷ []) empty_index saved_index refl refl refl refl installed
      (λ seg. refl) (inr (inr (refl, refl, refl)))
      (λ bytes h.
        busy-LoadsAs bytes (sym (ap (serialize_metadata words no_pages) stamped_busy) ∙ h))
      refl two-Chain (omega arith) refl
