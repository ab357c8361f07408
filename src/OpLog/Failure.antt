-- ===== src/OpLog/Failure.antt =====
-- `OpLog::Append` when a write fails: nothing of the record stays.
use mathlib.Core.List.{append-nil, map-append}
use aster_vec.Base.{
  ℕ, ◌≡◌, refl, ap, sym, ◌∙◌, true, List, [], ◌∷◌, ◌++◌, map, some, length, leb, Bool-cases, inl,
  inr, take, take-append,
}
use aster_vec.Base.Bytes.{Bytes}
use aster_vec.Base.Status.{err, io_error}
use aster_vec.OpLog.Record.{OpRecord, IsWritable, frame}
use aster_vec.OpLog.Names.{segment_name}
use aster_vec.OpLog.Groups.{Group, frames, content, file_of, all_records}
use aster_vec.OpLog.Refine.{fresh, change_file-last}
use aster_vec.OpLog.Writer.{on_file, OpLog, AppendIo, broke_off, write_all, append_to, append}
use aster_vec.OpLog.Represents.{Represents}
use aster_vec.OpLog.Appending.{
  rotated, full_lem, rotated-Represents, fresh_records, append-full, append-free,
}

-- A state that an operation left with the same records and the same next lsn.
pub record Kept (base : ℕ) (old : List OpRecord) (n : ℕ) (log : OpLog) : Type 0 where
  pub gs : List Group
  pub c : Group
  pub state : Represents base gs c log
  pub records : all_records (gs ++ (c ∷ [])) ≡ old
  pub lsn : log.next_lsn ≡ n

module _ (base : ℕ) (gs : List Group) (c : Group) (log : OpLog)
    (rep : Represents base gs c log) where
  -- Cutting the open file at the old end takes a partial write back.
  truncated_dir :
      (part : Bytes) → on_file log.fd (λ old. take log.offset (old ++ part)) log.dir ≡ log.dir
  truncated_dir part =
      rw (rep.open_file, rep.files)
        (change_file-last base log.next_lsn gs c (λ old. take log.offset (old ++ part)) rep.chain
            rep.in_range
          ∙ ap
              (λ (t : Bytes).
                map file_of gs ++ (record { name = segment_name c.first; content = t } ∷ []))
              (take-append (content c) part log.offset at_end)
          ∙ sym (map-append file_of gs (c ∷ [])))
    where
      at_end : log.offset ≡ length (content c)
      at_end = rep.at_end ∙ rw (rep.clean, append-nil (frames c.first c.records)) refl

  append_to-failed :
      (io : AppendIo) (r : OpRecord) (sent : ℕ)
      → write_all io.writes 0 (length (frame log.next_lsn r)) ≡ broke_off sent
      → io.truncates ≡ true
      → append_to io r log ≡ some (err io_error, log)
  append_to-failed io r sent wr cut =
      rw (wr, cut)
        (λ i.
          some
            (err io_error, record log { dir = truncated_dir (take sent (frame log.next_lsn r)) i }))

-- An `append` whose write fails on the way reports the error and, where `ftruncate` succeeds,
-- leaves a log that stands for the same records, is not broken and hands out the same lsn next.
pub append_failed-Kept :
    (base : ℕ) (gs : List Group) (c : Group) (log : OpLog) (io : AppendIo) (r : OpRecord) (sent : ℕ)
    → Represents base gs c log
    → IsWritable r
    → io.rotation.opens ≡ true
    → io.rotation.syncs ≡ true
    → write_all io.writes 0 (length (frame log.next_lsn r)) ≡ broke_off sent
    → io.truncates ≡ true
    → (log' : OpLog) × (append io r log ≡ some (err io_error, log'))
      × Kept base (all_records (gs ++ (c ∷ []))) log.next_lsn log'
append_failed-Kept base gs c log io r sent rep w opens syncs wr cut =
    elim (Bool-cases (leb log.segment_bytes log.offset)) [
      | inl full ↦
          let filled = full_lem base gs c log rep full in
          let rep' = rotated-Represents base gs c log rep filled in
          (
            rotated log (gs ++ (c ∷ [])),
            append-full base gs c log rep io r w opens syncs full
                ∙ append_to-failed base (gs ++ (c ∷ [])) (fresh log.next_lsn)
                    (rotated log (gs ++ (c ∷ []))) rep' io r sent wr cut,
            record {
              gs = gs ++ (c ∷ []);
              c = fresh log.next_lsn;
              state = rep';
              records = fresh_records base gs c log rep;
              lsn = refl;
            },
          )
      | inr free ↦ (
        log,
        append-free base gs c log rep io r w free
            ∙ append_to-failed base gs c log rep io r sent wr cut,
        record { gs = gs; c = c; state = rep; records = refl; lsn = refl },
      )
    ]
