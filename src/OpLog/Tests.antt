-- ===== src/OpLog/Tests.antt =====
-- Runs of the log on a small record, and the theorems at concrete inputs.
use aster_vec.Base.{
  ℕ, ◌+◌, ◌≡◌, ◌≢◌, refl, true, false, List, [], ◌∷◌, ◌++◌, map, some, none, arith, take, drop,
}
use aster_vec.Base.Bytes.{Bytes, le_bytes}
use aster_vec.Base.Status.{ok, err, io_error}
use aster_vec.OpLog.Record.{
  OpRecord, IsWritable, body_size, body_tail, body_crc, frame, parse_frame, numbered,
}
use aster_vec.OpLog.RoundTrip.{frame_body, parse_frame-frame}
use aster_vec.OpLog.Damage.{parse_frame-torn, parse_frame-corrupt}
use aster_vec.OpLog.Names.{segment_name}
use aster_vec.OpLog.Groups.{Group, frames, file_of, all_records, Chain}
use aster_vec.OpLog.Scan.{stuck, done, start, scan}
use aster_vec.OpLog.Delivery.{wanted, torn, passed, total, scan-Chain}
use aster_vec.OpLog.Writer.{
  wrote, interrupted, write_error, OpLog, OpenIo, AppendIo, write_all, append, open_log,
  truncate_below,
}
use aster_vec.OpLog.Refine.{fresh}
use aster_vec.OpLog.Represents.{Represents, Appended}
use aster_vec.OpLog.Appending.{append-Appended}
use aster_vec.OpLog.Failure.{Kept, append_failed-Kept}
use aster_vec.OpLog.Reopen.{open_log-Represents}
use aster_vec.OpLog.Kept.{kept}
use aster_vec.OpLog.Total.{scan-ne-stuck}
use aster_vec.OpLog.Truncate.{truncate_below-kept}

abbrev insert_one : OpRecord
insert_one = record {
  lsn = 0;
  op = 1;
  encoding = 0;
  real_id = 7;
  internal_id = 3;
  aux = 0;
  vector = 1 ∷ 2 ∷ [];
  key = [];
  payload = [];
}

insert_one-IsWritable : IsWritable insert_one
unfolding body_size
insert_one-IsWritable = record {
  op_byte = omega arith;
  encoding_byte = omega arith;
  real_word = omega arith;
  internal_word = omega arith;
  aux_word = omega arith;
  fits = omega arith;
}

abbrev pub one : Group
one = record { first = 1; records = insert_one ∷ []; junk = [] }

abbrev pub two : Group
two = record { first = 2; records = insert_one ∷ insert_one ∷ []; junk = 54 ∷ 0 ∷ [] }

junk_lem : parse_frame (54 ∷ 0 ∷ []) ≡ none
unfolding parse_frame
junk_lem = refl

pub two-Chain : Chain 1 4 (one ∷ two ∷ [])
unfolding parse_frame
two-Chain = (refl, (insert_one-IsWritable, tt), refl, omega arith, two_alone)
  where
    two_alone : Chain 2 4 (two ∷ [])
    two_alone = (refl, (insert_one-IsWritable, (insert_one-IsWritable, tt)), junk_lem, tt, refl)

parse_frame-frame_example :
    parse_frame (frame 5 insert_one ++ (9 ∷ [])) ≡ some (numbered 5 insert_one, 9 ∷ [])
parse_frame-frame_example =
    parse_frame-frame 5 insert_one (9 ∷ []) (omega arith) insert_one-IsWritable

parse_frame-torn_example : parse_frame (take 30 (frame 5 insert_one)) ≡ none
parse_frame-torn_example =
    parse_frame-torn (take 30 (frame 5 insert_one)) (drop 31 (frame 5 insert_one)) 0 5 insert_one
      insert_one-IsWritable (unfold frame body_tail le_bytes in refl)

scan-Chain_example :
    scan (λ seg. true) (map file_of (one ∷ two ∷ [])) 2 (total (λ (n : ℕ) r. n + 1)) 0
    ≡ some (
        done (
          passed
            (λ (n : ℕ) r. n + 1)
            (wanted 2 (all_records (one ∷ two ∷ [])))
            (torn 2 (one ∷ two ∷ []))
            4
            (start 2 0)))
scan-Chain_example =
    scan-Chain (λ (n : ℕ) r. n + 1) (λ seg. true) (λ seg. refl) 1 4 2 (one ∷ two ∷ []) 0 two-Chain
      (omega arith) (omega arith) (omega arith)

abbrev good_io : OpenIo
good_io = record { opens = true; syncs = true }

abbrev writes_io : AppendIo
writes_io = record {
  rotation = good_io;
  writes = wrote 20 ∷ interrupted ∷ wrote 36 ∷ [];
  truncates = true;
}

abbrev fails_io : AppendIo
fails_io = record { rotation = good_io; writes = wrote 20 ∷ write_error ∷ []; truncates = true }

abbrev pub empty_log : OpLog
empty_log = record {
  dir = map file_of (fresh 1 ∷ []);
  segment_bytes = 100;
  next_lsn = 1;
  fd = some (segment_name 1);
  offset = 0;
  broken = false;
}

empty_log-Represents : Represents 1 [] (fresh 1) empty_log
unfolding frames parse_frame
empty_log-Represents = record {
  files = refl;
  chain = (refl, tt, refl, tt, refl);
  clean = refl;
  open_file = refl;
  at_end = refl;
  sound = refl;
  limited = omega arith;
  in_range = omega arith;
}

append-Appended_example :
    Appended 1 (all_records (fresh 1 ∷ [])) 1 insert_one (append writes_io insert_one empty_log)
append-Appended_example =
    append-Appended 1 [] (fresh 1) empty_log empty_log-Represents writes_io insert_one
      insert_one-IsWritable (omega arith) refl refl
      (unfold write_all frame body_tail le_bytes in refl)

append_failed-Kept_example :
    (log' : OpLog) × (append fails_io insert_one empty_log ≡ some (err io_error, log'))
    × Kept 1 (all_records (fresh 1 ∷ [])) 1 log'
append_failed-Kept_example =
    append_failed-Kept 1 [] (fresh 1) empty_log fails_io insert_one 20 empty_log-Represents
      insert_one-IsWritable refl refl (unfold write_all frame body_tail le_bytes in refl) refl

open_log-Represents_example :
    (log : OpLog) × (open_log true (λ seg. true) good_io (map file_of (one ∷ two ∷ [])) 4 100
      ≡ some (ok tt, log))
    × Represents 1 (kept 4 (one ∷ two ∷ [])) (fresh 4) log
    × (all_records (kept 4 (one ∷ two ∷ []) ++ (fresh 4 ∷ [])) ≡ all_records (one ∷ two ∷ []))
open_log-Represents_example =
    open_log-Represents (λ seg. true) good_io 1 4 100 (one ∷ two ∷ []) (λ seg. refl) refl refl
      two-Chain (omega arith) (omega arith)

abbrev changed_back : Bytes
changed_back = drop 1 (frame_body 5 insert_one)

parse_frame-corrupt_example :
    parse_frame (
      le_bytes 4 (body_size insert_one)
      ++ (le_bytes 4 (body_crc (le_bytes 8 5) (body_tail insert_one))
          ++ (([] ++ (6 ∷ changed_back)) ++ (1 ∷ []))))
    ≡ none
parse_frame-corrupt_example =
    parse_frame-corrupt [] changed_back (1 ∷ []) 5 6 5 insert_one insert_one-IsWritable
      (omega arith) (omega arith) (omega arith) (unfold body_tail le_bytes in refl)

abbrev pub two_files : OpLog
two_files = record empty_log { dir = map file_of (one ∷ two ∷ []); next_lsn = 4 }

truncate_below-kept_example :
    (gs' : List Group) × (truncate_below (λ seg. true) 3 two_files
      ≡ some (ok tt, record two_files { dir = map file_of gs' }))
    × ((first : ℕ) × Chain first 4 gs')
    × (wanted 3 (all_records gs') ≡ wanted 3 (all_records (one ∷ two ∷ [])))
truncate_below-kept_example =
    truncate_below-kept (λ seg. true) (λ seg. refl) 3 1 4 (one ∷ two ∷ []) two_files two-Chain
      (omega arith) refl

scan-ne-stuck_example :
    scan (λ seg. true) (map file_of (one ∷ two ∷ [])) 2 (total (λ (n : ℕ) r. n + 1)) 0 ≢ some stuck
scan-ne-stuck_example =
    scan-ne-stuck 2 (total (λ (n : ℕ) r. n + 1)) (λ seg. true) (map file_of (one ∷ two ∷ [])) 0
