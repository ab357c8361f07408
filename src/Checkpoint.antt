-- ===== src/Checkpoint.antt =====
-- Checkpoints of src/astervec_db.cc: `writeMetadataFile`, `checkpointLocked` and the part of `Open`
-- that chooses the checkpoint file. The exclusive gate makes a checkpoint one step but for a crash;
-- a crash keeps what was done to the directory so far, in order. What stands in `.tmp` while it is
-- written is left out: `Open` does not read it. An index into which a file failed to load is taken
-- as new when the next file is loaded into it.
pub mod Crash
pub mod Covers
mod Tests
use aster_vec.Base.{
  ℕ, ◌+◌, ◌%◌, ◌^◌, Bool, true, false, not, ◌&&◌, List, [], ◌∷◌, Option, none, some, ◌==◌,
  if◌then◌else◌,
}
use aster_vec.Base.Bytes.{Bytes}
use aster_vec.Base.Status.{Result, ok, err, corruption, io_error}
use aster_vec.Bloom.{Rate}
use aster_vec.OpLog.Names.{Segment}
use aster_vec.OpLog.Writer.{OpLog, last_lsn, truncate_below}
use aster_vec.IndexFile.{Index, Points, Paged}
use aster_vec.IndexFile.Save.{serialize_metadata}
use aster_vec.IndexFile.Load.{deserialize_metadata}

-- The metadata file with its `.prev` and `.tmp`.
pub record Files : Type 0 where
  pub meta : Option Bytes
  pub prev : Option Bytes
  pub tmp : Option Bytes

-- Which calls succeed; `partial` is what is in the file where the write to it fails.
pub record MetaIo : Type 0 where
  pub opens : Bool
  pub flushes : Bool
  pub partial : Bytes
  pub syncs : Bool
  pub removes : Bool
  pub links : Bool
  pub renames : Bool
  pub syncs_dir : Bool

-- A status, the states that the directory went through and the one that it is left in.
pub record Run : Type 0 where
  pub status : Result (Unit {0})
  pub passed : List Files
  pub files : Files

abbrev pub passing : Files → Run → Run
passing f r = record r { passed = f ∷ r.passed }

abbrev pub failed : Files → Run
failed f = record { status = err io_error; passed = []; files = f }

unfoldable pub install_tmp : MetaIo → Files → Run
install_tmp io f =
    if io.renames
    then (record {
      status = if io.syncs_dir then ok tt else err io_error;
      passed = [];
      files = record { meta = f.tmp; prev = f.prev; tmp = none };
    })
    else failed f

abbrev pub is_there : Option Bytes → Bool
is_there none = false
is_there (some bytes) = true

-- The current file becomes `.prev` by a hard link, then the new one is renamed over it. A link
-- fails where there is a `.prev` that was not removed.
unfoldable pub keep_previous : MetaIo → Files → Option Bytes → Run
keep_previous io f none = install_tmp io f
keep_previous io f (some current) =
    let removed : Files = record f { prev = if io.removes then none else f.prev } in
    let linked : Files = record f { prev = some current } in
    passing removed (
      if io.links && not (is_there removed.prev)
      then passing linked (install_tmp io linked)
      else failed removed)

abbrev pub with_written : MetaIo → Files → Result Bytes → Run
with_written io f (err c) = record {
  status = err c;
  passed = [];
  files = record f { tmp = some io.partial };
}
with_written io f (ok bytes) =
    let written : Files = record f { tmp = some bytes } in
    if io.flushes
    then passing written (if io.syncs then keep_previous io written f.meta else failed written)
    else failed (record f { tmp = some io.partial })

unfoldable pub write_metadata_file : MetaIo → Result Bytes → Files → Run
write_metadata_file io new f =
    let opened : Files = record f { tmp = some [] } in
    if io.opens then passing opened (with_written io opened new) else failed f

-- The members of the engine that a checkpoint uses; `count_file` is the file `vector_count`.
pub record Store (P S : Type 0) : Type 0 where
  pub index : Index P S
  pub log : Option OpLog
  pub live : ℕ
  pub writes : ℕ
  pub ops : ℕ
  pub main_checkpoint_lsn : ℕ
  pub files : Files
  pub count_file : Option ℕ

-- What the calls of a checkpoint answer; `removes` as in `TruncateBelow`.
pub record CheckpointIo : Type 0 where
  pub syncs_vectors : Bool
  pub graph : Result (Unit {0})
  pub payloads : Result (Unit {0})
  pub file : MetaIo
  pub counts : Bool
  pub removes : Segment → Bool

module _ {P S : Type 0} (points : Points P) (paged : Paged S) where
  -- The lsn and the count that go into the file.
  unfoldable pub stamped : Store P S → Index P S
  stamped s =
      let index : Index P S = record s.index { checkpoint_live_count = s.live } in
      elim s.log [ none ↦ index | some log ↦ record index { checkpoint_lsn = last_lsn log } ]

  -- A truncation that fails is logged and otherwise ignored; `none` where it throws.
  abbrev pub kept_log : Option (Result (Unit {0}) × OpLog) → Option (Option OpLog)
  kept_log none = none
  kept_log (some (status, log)) = some (some log)

  unfoldable pub truncate_log : CheckpointIo → ℕ → Option OpLog → Option (Option OpLog)
  truncate_log io lsn none = some none
  truncate_log io lsn (some log) = kept_log (truncate_below io.removes lsn log)

  abbrev pub with_kept_log :
      CheckpointIo
      → Store P S
      → Index P S
      → Files
      → Option (Option OpLog)
      → Option (Result (Unit {0}) × Store P S)
  with_kept_log io s index files none = none
  with_kept_log io s index files (some log) = some (
    ok tt,
    record {
      index = index;
      log = log;
      live = s.live;
      writes = 0;
      ops = 0;
      main_checkpoint_lsn = index.checkpoint_lsn;
      files = files;
      count_file = if io.counts then some s.live else s.count_file;
    },
  )

  -- Behind a file that was installed.
  unfoldable pub finish_checkpoint :
      CheckpointIo → Store P S → Index P S → Files → Option (Result (Unit {0}) × Store P S)
  finish_checkpoint io s index files =
      with_kept_log io s index files (truncate_log io ((s.main_checkpoint_lsn + 1) % 2 ^ 64) s.log)

  abbrev pub after_run :
      CheckpointIo
      → Store P S
      → Index P S
      → Run
      → Result (Unit {0})
      → Option (Result (Unit {0}) × Store P S)
  after_run io s index r (err c) = some (err c, record s { index = index; files = r.files })
  after_run io s index r (ok _) = finish_checkpoint io s index r.files

  abbrev pub write_checkpoint : CheckpointIo → Store P S → Option (Result (Unit {0}) × Store P S)
  write_checkpoint io s =
      let r = write_metadata_file io.file (serialize_metadata points paged (stamped s)) s.files in
      after_run io s (stamped s) r r.status

  abbrev pub unless_failed :
      Store P S
      → Result (Unit {0})
      → Option (Result (Unit {0}) × Store P S)
      → Option (Result (Unit {0}) × Store P S)
  unless_failed s (err c) go = some (err c, s)
  unless_failed s (ok _) go = go

  unfoldable pub checkpoint_locked :
      CheckpointIo → Store P S → Option (Result (Unit {0}) × Store P S)
  checkpoint_locked io s =
      if s.writes == 0 && is_there s.files.meta
      then some (ok tt, s)
      else (unless_failed s (if io.syncs_vectors then ok tt else err io_error)
          (unless_failed s io.graph (unless_failed s io.payloads (write_checkpoint io s))))

  -- The choice of `Open` without `reinit`, on a new index `base`; `removes` is whether the damaged
  -- file can be removed, which `Open` does not look at.
  module _ (rate : Rate) (removes : Bool) (base : Index P S) where
    abbrev pub load_index : Bytes → Result (Index P S)
    load_index = deserialize_metadata points paged rate base

    abbrev pub previous_loaded : Files → Bool → Result (Index P S) → Result (Index P S) × Files
    previous_loaded f have_main (ok index) =
        (ok index, if have_main && removes then record f { meta = none } else f)
    previous_loaded f have_main (err c) = (if have_main then err corruption else err c, f)

    -- `.prev`, where the metadata file is missing or was not loaded; a damaged one is removed.
    unfoldable pub open_previous :
        Files → Bool → Result (Index P S) → Option Bytes → Result (Index P S) × Files
    open_previous f have_main first none = (first, f)
    open_previous f have_main first (some bytes) = previous_loaded f have_main (load_index bytes)

    abbrev pub main_loaded : Files → Result (Index P S) → Result (Index P S) × Files
    main_loaded f (ok index) = (ok index, f)
    main_loaded f (err c) = open_previous f true (err c) f.prev

    abbrev pub open_main : Files → Option Bytes → Result (Index P S) × Files
    open_main f none = open_previous f false (ok base) f.prev
    open_main f (some bytes) = main_loaded f (load_index bytes)

    unfoldable pub open_checkpoint : Files → Result (Index P S) × Files
    open_checkpoint f = open_main f f.meta
