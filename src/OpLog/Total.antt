-- ===== src/OpLog/Total.antt =====
-- A scan ends, whatever bytes the files hold: the fuel of its inner loop is enough.
use aster_vec.Base.{
  ℕ, zero, suc, ◌<◌, ◌≤◌, ◌≡◌, ◌≢◌, refl, ap, sym, Bool, true, false, ◌||◌, List, [], ◌∷◌, Option,
  none, some, arith, length, length-drop, take, drop, ltb, leb, ◌==◌, if◌then◌else◌, Option-cases,
  inl, inr,
}
use mathlib.Core.Path.{subst}
use aster_vec.Base.Bytes.{Bytes, le_value}
use aster_vec.Base.Status.{Result, ok, err, io_error}
use aster_vec.OpLog.Record.{
  OpRecord, prefix_bytes, fixed_body, max_body_bytes, body_crc, get_int, view, parse_body,
  with_rest, parse_frame,
}
use aster_vec.OpLog.Names.{File, Segment, list_segments}
use aster_vec.OpLog.Scan.{
  ScanRun, ScanEnd, stuck, done, stopped, failed, Callback, and_then, deliver, after_callback,
  scan_round, scan_file, scan_segment, scan_segments, scan_listed, scan, start,
}

rest_lem :
    (rest rest' : Bytes) (o : Option OpRecord) (r : OpRecord)
    → with_rest rest o ≡ some (r, rest')
    → rest' ≡ rest
rest_lem rest rest' none r h = cc
rest_lem rest rest' (some q) r h = ap second (sym h)
  where
    second : Option (OpRecord × Bytes) → Bytes
    second none = rest
    second (some (a, b)) = b

frame_lem :
    (short bad sound : Bool) (x rest' : Bytes) (o : Option OpRecord) (r : OpRecord)
    → (if short then none else if bad then none else if sound then with_rest x o else none)
      ≡ some (r, rest')
    → (short ≡ false) × (rest' ≡ x)
frame_lem true bad sound x rest' o r h = cc
frame_lem false true sound x rest' o r h = cc
frame_lem false false false x rest' o r h = cc
frame_lem false false true x rest' o r h = (refl, rest_lem x rest' o r h)

-- A record that was read leaves fewer bytes.
parse_frame-shrinks :
    (rest rest' : Bytes) (r : OpRecord)
    → parse_frame rest ≡ some (r, rest')
    → length rest' < length rest
unfolding parse_frame get_int view
parse_frame-shrinks rest rest' r h =
    let size = le_value (take 4 rest) in
    let behind = drop 4 (drop 4 rest) in
    let body = take size behind in
    let (long, left) =
      frame_lem (ltb (length rest) prefix_bytes)
        (ltb size fixed_body || ltb max_body_bytes size || ltb (length behind) size)
        (body_crc (take 8 body) (drop 8 body) == le_value (take 4 (drop 4 rest))) (drop size behind)
        rest' (parse_body body) r h in
    omega (
      arith,
      ap length left,
      length-drop size behind,
      length-drop 4 (drop 4 rest),
      length-drop 4 rest,
      at_least long,
    )
  where
    at_least : ltb (length rest) 8 ≡ false → 8 ≤ length rest
    at_least long = ground arith

module _ {S : Type 0} where
  and_then-ne :
      (x : ScanEnd S) (next : ScanRun S → ScanEnd S)
      → x ≢ stuck
      → ((run : ScanRun S) → next run ≢ stuck)
      → and_then x next ≢ stuck
  and_then-ne (done run) next here there = there run
  and_then-ne (stopped run) next here there = cc
  and_then-ne (failed c run) next here there = cc
  and_then-ne stuck next here there = here

  done-ne : (run : ScanRun S) → done run ≢ stuck
  done-ne run h = cc

  stopped-ne : (run : ScanRun S) → stopped run ≢ stuck
  stopped-ne run h = cc

  failed-ne : (run : ScanRun S) → failed io_error run ≢ stuck
  failed-ne run h = cc

  after_callback-ne :
      (run : ScanRun S) (r : OpRecord) (p : Result (Unit {0}) × S) → after_callback run r p ≢ stuck
  after_callback-ne run r (err c, s) = cc
  after_callback-ne run r (ok _, s) = cc

  if-ne : (b : Bool) (x y : ScanEnd S) → x ≢ stuck → y ≢ stuck → (if b then x else y) ≢ stuck
  if-ne true x y p q = p
  if-ne false x y p q = q

  deliver-ne :
      (from : ℕ) (fn : Callback S) (r : OpRecord) (run : ScanRun S) → deliver from fn r run ≢ stuck
  unfolding deliver
  deliver-ne from fn r run = if-ne (ltb r.lsn from) _ _ (done-ne run) (
      if-ne (r.lsn == run.expected) _ _ (after_callback-ne run r (fn run.caller r))
        (stopped-ne (record run { stats = record (run.stats) { gap = true } })))

  module _ (from : ℕ) (fn : Callback S) where
    scan_file-ne :
        (fuel : ℕ) (rest : Bytes) (run : ScanRun S)
        → length rest < fuel
        → scan_file fuel from fn rest run ≢ stuck
    unfolding scan_file
    scan_file-ne zero rest run h = absurd (omega (arith, h))
    scan_file-ne (suc fuel) rest run h = elim (Option-cases (parse_frame rest)) [
      | inl nothing ↦
          subst
            (λ o.
              scan_round from fn rest run (λ rest' next. scan_file fuel from fn rest' next) o
              ≢ stuck)
            (sym nothing) (λ e. cc e)
      | inr ((r, rest'), found) ↦
          subst
            (λ o.
              scan_round from fn rest run (λ rest' next. scan_file fuel from fn rest' next) o
              ≢ stuck)
            (sym found)
            (and_then-ne (deliver from fn r run) _ (deliver-ne from fn r run) (λ next.
              scan_file-ne fuel rest' next
                (omega (arith, h, parse_frame-shrinks rest rest' r found))))
    ]

    module _ (opens : Segment → Bool) where
      scan_segment-ne :
          (seg : Segment) (run : ScanRun S) → scan_segment opens from fn seg run ≢ stuck
      unfolding scan_segment
      scan_segment-ne seg run =
          if-ne (opens seg) _ _
            (scan_file-ne (suc (length seg.file.content)) seg.file.content run (omega arith))
            (failed-ne run)

      scan_segments-ne :
          (segs : List Segment) (run : ScanRun S) → scan_segments opens from fn segs run ≢ stuck
      unfolding scan_segments
      scan_segments-ne [] run = done-ne run
      scan_segments-ne (seg ∷ []) run = scan_segment-ne seg run
      scan_segments-ne (seg ∷ next ∷ more) run =
          if-ne (leb next.first_lsn from) _ _ (scan_segments-ne (next ∷ more) run) (
            and_then-ne (scan_segment opens from fn seg run) _ (scan_segment-ne seg run)
              (scan_segments-ne (next ∷ more)))

      -- A scan never runs out of the model's fuel, whatever the files hold and the callback does.
      pub scan-ne-stuck : (dir : List File) (s : S) → scan opens dir from fn s ≢ some stuck
      unfolding scan
      scan-ne-stuck dir s = listed (list_segments dir)
        where
          listed : (o : Option (List Segment)) → scan_listed opens from fn s o ≢ some stuck
          listed none = λ h. cc h
          listed (some segs) = λ h. scan_segments-ne segs (start from s) (cc h)
