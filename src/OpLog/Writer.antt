-- ===== src/OpLog/Writer.antt =====
-- The writing side of the log: `Open`, `openSegmentLocked`, `Append`, `LastLsn`, `TruncateBelow`.
-- What the operating system answers is an argument of each operation. The mutex makes each
-- operation one step.
use mathlib.Core.Option
use aster_vec.Base.{
  ℕ, zero, suc, ◌+◌, ◌-◌, ◌*◌, ◌^◌, ◌%◌, Bool, true, false, List, [], ◌∷◌, ◌++◌, Option, none, some,
  length, take, ltb, leb, ◌==◌, if◌then◌else◌,
}
use aster_vec.Base.Bytes.{Bytes}
use aster_vec.Base.Status.{Result, ok, err, io_error, invalid_argument}
use aster_vec.OpLog.Record.{OpRecord, body_size, frame, max_body_bytes}
use aster_vec.OpLog.Names.{
  File, Segment, segment_name, list_segments, remove_file, create_file, change_file,
}

-- One answer of `write`: so many bytes taken, `EINTR`, or another error.
pub data Answer : Type 0 where
  wrote : ℕ → Answer
  interrupted : Answer
  write_error : Answer

-- How `writeAll` ends. `pending` is a call that has not returned: it waits for a further answer.
pub data WriteEnd : Type 0 where
  written : WriteEnd
  broke_off : ℕ → WriteEnd
  pending : WriteEnd

-- `left` bytes are still to be written and `sent` are in the file. `write` takes no more than it is
-- given.
unfoldable pub write_all : List Answer → ℕ → ℕ → WriteEnd
write_all answers sent zero = written
write_all [] sent (suc left) = pending
write_all (wrote w ∷ answers) sent (suc left) = write_all answers (sent + w) (suc left - w)
write_all (interrupted ∷ answers) sent (suc left) = write_all answers sent (suc left)
write_all (write_error ∷ answers) sent (suc left) = broke_off sent

pub record OpLog : Type 0 where
  pub dir : List File
  pub segment_bytes : ℕ
  pub next_lsn : ℕ
  -- The name of the file behind `fd_`, or `none` for -1.
  pub fd : Option Bytes
  pub offset : ℕ
  pub broken : Bool

abbrev pub default_segment_bytes : ℕ
default_segment_bytes = 64 * 2 ^ 20

-- Whether `open` succeeds, and `fsync` on the directory.
pub record OpenIo : Type 0 where
  pub opens : Bool
  pub syncs : Bool

unfoldable pub open_segment : OpenIo → OpLog → Result (Unit {0}) × OpLog
open_segment io log =
    let name = segment_name log.next_lsn in
    if io.opens
    then (let opened = record log { dir = create_file name log.dir; fd = some name; offset = 0 } in
        if io.syncs then (ok tt, opened) else (err io_error, opened))
    else (err io_error, record log { fd = none })

-- Removal of the stale segments of `Open`, and whether it succeeded on all of them.
unfoldable pub remove_stale : (Segment → Bool) → ℕ → List Segment → List File → Bool × List File
remove_stale removes next_lsn [] dir = (true, dir)
remove_stale removes next_lsn (seg ∷ segs) dir =
    let keep = remove_stale removes next_lsn segs dir in
    let drop = remove_stale removes next_lsn segs (remove_file seg.file.name dir) in
    if leb next_lsn seg.first_lsn then (if removes seg then drop else (false, dir)) else keep

abbrev pub segment_limit : ℕ → ℕ
segment_limit segment_bytes = if segment_bytes == 0 then default_segment_bytes else segment_bytes

abbrev pub new_log : List File → ℕ → ℕ → OpLog
new_log dir next_lsn segment_bytes = record {
  dir = dir;
  segment_bytes = segment_limit segment_bytes;
  next_lsn = next_lsn;
  fd = none;
  offset = 0;
  broken = false;
}

abbrev pub open_after : OpenIo → ℕ → ℕ → Bool × List File → Result (Unit {0}) × OpLog
open_after io next_lsn segment_bytes (false, dir) =
    (err io_error, new_log dir next_lsn segment_bytes)
open_after io next_lsn segment_bytes (true, dir) =
    open_segment io (new_log dir next_lsn segment_bytes)

-- `Open`: the status and, where it is OK, the log. `creates` says whether the directory can be
-- made, and `none` is an exception of `listSegments`.
unfoldable pub open_log :
    Bool → (Segment → Bool) → OpenIo → List File → ℕ → ℕ → Option (Result (Unit {0}) × OpLog)
open_log creates removes io dir next_lsn segment_bytes =
    if next_lsn == 0
    then some (err invalid_argument, new_log dir next_lsn segment_bytes)
    else if creates
    then Option.map
        (λ segs. open_after io next_lsn segment_bytes (remove_stale removes next_lsn segs dir))
        (list_segments dir)
    else some (err io_error, new_log dir next_lsn segment_bytes)

-- What the system answers to one `Append`: to the opening of the next segment, to the writes and
-- to `ftruncate`.
pub record AppendIo : Type 0 where
  pub rotation : OpenIo
  pub writes : List Answer
  pub truncates : Bool

abbrev pub on_file : Option Bytes → (Bytes → Bytes) → List File → List File
on_file none change dir = dir
on_file (some name) change dir = change_file name change dir

-- The part of `Append` behind the rotation.
abbrev pub write_record : WriteEnd → AppendIo → Bytes → OpLog → Option (Result ℕ × OpLog)
write_record pending io bytes log = none
write_record written io bytes log = some (
  ok log.next_lsn,
  record log {
    dir = on_file log.fd (λ content. content ++ bytes) log.dir;
    offset = log.offset + length bytes;
    next_lsn = (log.next_lsn + 1) % 2 ^ 64;
  },
)
write_record (broke_off sent) io bytes log = some (
  err io_error,
  (if io.truncates
      then record log {
        dir = on_file log.fd (λ content. take log.offset (content ++ take sent bytes)) log.dir;
      }
      else record log {
        dir = on_file log.fd (λ content. content ++ take sent bytes) log.dir;
        broken = true;
      }),
)

abbrev pub append_to : AppendIo → OpRecord → OpLog → Option (Result ℕ × OpLog)
append_to io r log =
    let bytes = frame log.next_lsn r in
    write_record (write_all io.writes 0 (length bytes)) io bytes log

abbrev pub after_rotation :
    AppendIo → OpRecord → Result (Unit {0}) × OpLog → Option (Result ℕ × OpLog)
after_rotation io r (err c, log) = some (err c, record log { broken = true })
after_rotation io r (ok _, log) = append_to io r log

-- `none`: a write has not returned yet.
unfoldable pub append : AppendIo → OpRecord → OpLog → Option (Result ℕ × OpLog)
append io r log =
    if ltb max_body_bytes (body_size r)
    then some (err invalid_argument, log)
    else if log.broken
    then some (err io_error, log)
    else if leb log.segment_bytes log.offset
    then after_rotation io r (open_segment io.rotation log)
    else append_to io r log

-- The unsigned subtraction wraps at 0; `Open` refuses a first lsn of 0.
unfoldable pub last_lsn : OpLog → ℕ
last_lsn log = (log.next_lsn + 2 ^ 64 - 1) % 2 ^ 64

-- The loop of `TruncateBelow`: the last segment is never looked at.
unfoldable pub remove_below : (Segment → Bool) → ℕ → List Segment → List File → Bool × List File
remove_below removes lsn [] dir = (true, dir)
remove_below removes lsn (seg ∷ []) dir = (true, dir)
remove_below removes lsn (seg ∷ next ∷ more) dir =
    let drop = remove_below removes lsn (next ∷ more) (remove_file seg.file.name dir) in
    if ltb lsn next.first_lsn then (true, dir) else if removes seg then drop else (false, dir)

abbrev pub truncated : OpLog → Bool × List File → Result (Unit {0}) × OpLog
truncated log (true, dir) = (ok tt, record log { dir = dir })
truncated log (false, dir) = (err io_error, record log { dir = dir })

-- `none` where `listSegments` throws.
unfoldable pub truncate_below : (Segment → Bool) → ℕ → OpLog → Option (Result (Unit {0}) × OpLog)
truncate_below removes lsn log =
    Option.map (λ segs. truncated log (remove_below removes lsn segs log.dir))
      (list_segments log.dir)
