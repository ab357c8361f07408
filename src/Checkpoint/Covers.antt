-- ===== src/Checkpoint/Covers.antt =====
-- What a checkpoint leaves behind: `checkpointLocked` of src/astervec_db.cc with the operation log.
use aster_vec.Base.{
  Bool, ℕ, ◌+◌, ◌^◌, ◌%◌, ◌<◌, ◌≡◌, refl, ap, ◌∙◌, true, false, ◌&&◌, List, map, some, ◌==◌,
  if_false, if◌then◌else◌,
}
use aster_vec.Base.Bytes.{Bytes}
use aster_vec.Base.Status.{ok, err, io_error}
use aster_vec.Bloom.{Rate}
use aster_vec.OpLog.Names.{Segment}
use aster_vec.OpLog.Groups.{Group, file_of, all_records, Chain}
use aster_vec.OpLog.Delivery.{wanted}
use aster_vec.OpLog.Truncate.{truncate_below-kept}
use aster_vec.OpLog.Writer.{OpLog, last_lsn, truncate_below}
use aster_vec.IndexFile.{Index, Points, Paged}
use aster_vec.IndexFile.Save.{serialize_metadata}
use aster_vec.Checkpoint.{
  Store, CheckpointIo, Run, is_there, stamped, checkpoint_locked, finish_checkpoint, truncate_log,
  write_metadata_file, write_checkpoint, with_kept_log, kept_log, unless_failed, after_run,
}
use aster_vec.Checkpoint.Crash.{Holds, LoadsAs, write_metadata_file-IsSafe}

module _ {P S : Type 0} (points : Points P) (paged : Paged S) (rate : Rate) (removes_main : Bool)
    (base : Index P S) where
  abbrev pub metadata_run : CheckpointIo → Store P S → Run
  metadata_run io s =
      write_metadata_file io.file (serialize_metadata points paged (stamped points paged s)) s.files

  left_store : CheckpointIo → Store P S → OpLog → Store P S
  left_store io s log = record {
    index = stamped points paged s;
    log = some log;
    live = s.live;
    writes = 0;
    ops = 0;
    main_checkpoint_lsn = (stamped points paged s).checkpoint_lsn;
    files = (metadata_run io s).files;
    count_file = if io.counts then some s.live else s.count_file;
  }

  finish_log :
      (io : CheckpointIo) (s : Store P S) (log log' : OpLog)
      → s.log ≡ some log
      → truncate_below io.removes ((s.main_checkpoint_lsn + 1) % 2 ^ 64) log ≡ some (ok tt, log')
      → finish_checkpoint points paged io s (stamped points paged s) (metadata_run io s).files
        ≡ some (ok tt, left_store io s log')
  unfolding finish_checkpoint truncate_log left_store
  finish_log io s log log' there cut =
      let lsn = (s.main_checkpoint_lsn + 1) % 2 ^ 64 in
      let new = stamped points paged s in
      ap
        (λ l.
          with_kept_log points paged io s new (metadata_run io s).files
            (truncate_log points paged io lsn l))
        there
      ∙ ap
          (λ c.
            with_kept_log points paged io s new (metadata_run io s).files (kept_log points paged c))
          cut

  written :
      (io : CheckpointIo) (s : Store P S) (log : OpLog)
      → io.syncs_vectors ≡ true
      → io.graph ≡ ok tt
      → io.payloads ≡ ok tt
      → (metadata_run io s).status ≡ ok tt
      → finish_checkpoint points paged io s (stamped points paged s) (metadata_run io s).files
        ≡ some (ok tt, left_store io s log)
      → (s.writes == 0 && is_there s.files.meta) ≡ false
      → checkpoint_locked points paged io s ≡ some (ok tt, left_store io s log)
  unfolding checkpoint_locked
  written io s log vectors graph payloads run end due =
      let again = unless_failed points paged s in
      let write = write_checkpoint points paged io s in
      if_false _ _ due
      ∙ ap
          (λ c.
            again (if c then ok tt else err io_error) (again io.graph (again io.payloads write)))
          vectors
      ∙ ap (λ c. again c (again io.payloads write)) graph
      ∙ ap (λ c. again c write) payloads
      ∙ ap (after_run points paged io s (stamped points paged s) (metadata_run io s)) run
      ∙ end

  stamped_lsn :
      (s : Store P S) (log : OpLog)
      → s.log ≡ some log
      → (stamped points paged s).checkpoint_lsn ≡ last_lsn log
  unfolding stamped
  stamped_lsn s log there = rw there refl

  -- A checkpoint that is due and whose calls succeed, its metadata file put in place among them,
  -- ends with success, on an operation log that is an intact chain of segments and can drop files.
  -- From its files `Open` has the index that the stamped index is written as. The engine then
  -- remembers the last lsn of the log as the checkpoint's, and has no unsaved write. The log is an
  -- intact chain with the same end and keeps every record behind the checkpoint before, so that the
  -- previous file can be recovered from too.
  pub checkpoint_locked-Holds :
      (io : CheckpointIo) (s : Store P S) (log : OpLog) (n end : ℕ) (gs : List Group)
      (a b : Index P S)
      → (s.writes == 0 && is_there s.files.meta) ≡ false
      → io.syncs_vectors ≡ true
      → io.graph ≡ ok tt
      → io.payloads ≡ ok tt
      → (metadata_run io s).status ≡ ok tt
      → ((seg : Segment) → io.removes seg ≡ true)
      → Holds points paged rate removes_main base s.files a
      → ((bytes : Bytes)
          → serialize_metadata points paged (stamped points paged s) ≡ ok bytes
          → LoadsAs points paged rate removes_main base bytes b)
      → s.log ≡ some log
      → Chain n end gs
      → end < 2 ^ 64
      → log.dir ≡ map file_of gs
      → (t : Store P S) × (checkpoint_locked points paged io s ≡ some (ok tt, t))
        × Holds points paged rate removes_main base t.files b
        × (t.main_checkpoint_lsn ≡ last_lsn log)
        × (t.writes ≡ 0)
        × ((gs' : List Group) × (t.log ≡ some (record log { dir = map file_of gs' }))
            × ((first : ℕ) × Chain first end gs')
            × (wanted ((s.main_checkpoint_lsn + 1) % 2 ^ 64) (all_records gs')
                ≡ wanted ((s.main_checkpoint_lsn + 1) % 2 ^ 64) (all_records gs)))
  unfolding left_store
  checkpoint_locked-Holds io s log n end gs a b due vectors graph payloads run removes h back there
        chain fits files =
      let lsn = (s.main_checkpoint_lsn + 1) % 2 ^ 64 in
      let cut = truncate_below-kept io.removes removes lsn n end gs log chain fits files in
      let left = record log { dir = map file_of cut.0 } in
      let safe =
        write_metadata_file-IsSafe points paged rate removes_main base a b io.file
          (serialize_metadata points paged (stamped points paged s)) s.files back h in
      (
        left_store io s left,
        written io s left vectors graph payloads run (finish_log io s log left there cut.1) due,
        safe.2 run,
        stamped_lsn s log there,
        refl,
        (cut.0, refl, cut.2, cut.3),
      )
