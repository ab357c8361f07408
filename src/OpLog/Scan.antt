-- ===== src/OpLog/Scan.antt =====
-- `OpLog::Scan` and `OpLog::DiskBytes`. The callback works on a state of the caller and keeps its
-- changes also when it fails. Reading an open file delivers its bytes.
use mathlib.Core.Option
use aster_vec.Base.{
  ℕ, zero, suc, ◌+◌, ◌^◌, ◌%◌, Bool, true, false, List, [], ◌∷◌, Option, none, some, length, ltb,
  leb, ◌==◌, if◌then◌else◌,
}
use aster_vec.Base.Bytes.{Bytes}
use aster_vec.Base.Status.{Code, Result, ok, err, io_error}
use aster_vec.OpLog.Record.{OpRecord, parse_frame}
use aster_vec.OpLog.Names.{File, Segment, list_segments}

pub record ScanStats : Type 0 where
  pub records : ℕ
  pub last_lsn : ℕ
  pub dropped_bytes : ℕ
  pub gap : Bool

abbrev pub no_stats : ScanStats
no_stats = record { records = 0; last_lsn = 0; dropped_bytes = 0; gap = false }

-- The variables of a scan: what the callback works on, the statistics and `expected`.
pub record ScanRun (S : Type 0) : Type 0 where
  pub caller : S
  pub stats : ScanStats
  pub expected : ℕ

-- How a part of a scan ends. `stuck` is no result of the code: the fuel of the model ran out.
pub data ScanEnd (S : Type 0) : Type 0 where
  done : ScanRun S → ScanEnd S
  stopped : ScanRun S → ScanEnd S
  failed : Code → ScanRun S → ScanEnd S
  stuck : ScanEnd S

abbrev pub Callback : Type 0 → Type 0
Callback S = S → OpRecord → Result (Unit {0}) × S

module _ {S : Type 0} where
  abbrev pub and_then : ScanEnd S → (ScanRun S → ScanEnd S) → ScanEnd S
  and_then (done run) next = next run
  and_then (stopped run) next = stopped run
  and_then (failed c run) next = failed c run
  and_then stuck next = stuck

  abbrev pub after_callback : ScanRun S → OpRecord → Result (Unit {0}) × S → ScanEnd S
  after_callback run rec (err c, s) = failed c (record run { caller = s })
  after_callback run rec (ok _, s) = done (record {
    caller = s;
    stats = record (run.stats) { records = run.stats.records + 1; last_lsn = rec.lsn };
    expected = (run.expected + 1) % 2 ^ 64;
  })

  -- One sound record: skipped, a gap, or passed on.
  unfoldable pub deliver : ℕ → Callback S → OpRecord → ScanRun S → ScanEnd S
  deliver from fn rec run =
      if ltb rec.lsn from
      then done run
      else if rec.lsn == run.expected
      then after_callback run rec (fn run.caller rec)
      else stopped (record run { stats = record (run.stats) { gap = true } })

  abbrev pub drop_bytes : ℕ → ScanRun S → ScanRun S
  drop_bytes n run = record run {
    stats = record (run.stats) { dropped_bytes = run.stats.dropped_bytes + n };
  }

  -- A round of the inner loop, with what `parse_frame` found at `pos` and the rounds that follow.
  abbrev pub scan_round :
      ℕ
      → Callback S
      → Bytes
      → ScanRun S
      → (Bytes → ScanRun S → ScanEnd S)
      → Option (OpRecord × Bytes)
      → ScanEnd S
  scan_round from fn rest run loop none = done (drop_bytes (length rest) run)
  scan_round from fn rest run loop (some (rec, rest')) =
      and_then (deliver from fn rec run) (loop rest')

  -- The inner loop on the bytes from `pos` to the end of the file. At the end nothing is left to
  -- drop.
  unfoldable pub scan_file : ℕ → ℕ → Callback S → Bytes → ScanRun S → ScanEnd S
  scan_file zero from fn rest run = stuck
  scan_file (suc fuel) from fn rest run =
      scan_round from fn rest run (λ rest' next. scan_file fuel from fn rest' next)
        (parse_frame rest)

  -- One file, with fuel for more rounds than it has bytes. `opens` says which files can be opened.
  unfoldable pub scan_segment : (Segment → Bool) → ℕ → Callback S → Segment → ScanRun S → ScanEnd S
  scan_segment opens from fn seg run =
      if opens seg
      then scan_file (suc (length seg.file.content)) from fn seg.file.content run
      else failed io_error run

  -- The outer loop: a segment that ends before `from` is skipped.
  unfoldable pub scan_segments :
      (Segment → Bool) → ℕ → Callback S → List Segment → ScanRun S → ScanEnd S
  scan_segments opens from fn [] run = done run
  scan_segments opens from fn (seg ∷ []) run = scan_segment opens from fn seg run
  scan_segments opens from fn (seg ∷ next ∷ more) run =
      let skip = scan_segments opens from fn (next ∷ more) run in
      if leb next.first_lsn from
      then skip
      else and_then (scan_segment opens from fn seg run)
          (λ run'. scan_segments opens from fn (next ∷ more) run')

  abbrev pub start : ℕ → S → ScanRun S
  start from s = record { caller = s; stats = no_stats; expected = from }

  -- `none` where `listSegments` throws.
  abbrev pub scan_listed :
      (Segment → Bool) → ℕ → Callback S → S → Option (List Segment) → Option (ScanEnd S)
  scan_listed opens from fn s none = none
  scan_listed opens from fn s (some segs) = some (scan_segments opens from fn segs (start from s))

  unfoldable pub scan : (Segment → Bool) → List File → ℕ → Callback S → S → Option (ScanEnd S)
  scan opens dir from fn s = scan_listed opens from fn s (list_segments dir)

-- The sizes of the segments, summed. `sizes` says for which files the size can be read.
unfoldable pub sum_sizes : (Segment → Bool) → List Segment → ℕ
sum_sizes sizes [] = 0
sum_sizes sizes (seg ∷ segs) =
    (if sizes seg then length seg.file.content else 0) + sum_sizes sizes segs

unfoldable pub disk_bytes : (Segment → Bool) → List File → Option ℕ
disk_bytes sizes dir = Option.map (sum_sizes sizes) (list_segments dir)
