-- ===== src/OpLog/Delivery.antt =====
-- What a scan passes on: the records of an intact chain of segments from a given lsn on.
use mathlib.Core.List.{foldl, foldl-append, append_assoc, append-nil}
use aster_vec.Base.{
  ℕ, zero, suc, ◌+◌, ◌^◌, ◌<◌, ◌≤◌, max, ◌≡◌, refl, ap, sym, ◌∙◌, Bool, true, List, [], ◌∷◌, ◌++◌,
  map, none, some, arith, length, length-append, ltb, leb, lt→ltb, le→leb, lt→leb, All,
  if◌then◌else◌,
}
use native.Mathlib.Decide.{dec_le}
use aster_vec.Base.Bytes.{Bytes}
use aster_vec.Base.Status.{ok}
use aster_vec.OpLog.Record.{OpRecord, IsWritable, parse_frame, numbered}
use aster_vec.OpLog.RoundTrip.{parse_frame-frame, length-frame}
use aster_vec.OpLog.Names.{Segment}
use aster_vec.OpLog.Groups.{
  Group, frames, number, content, file_of, segment_of, all_records, all_records-cons, Chain,
  Chain-le, list_segments-Chain,
}
use aster_vec.OpLog.Scan.{
  ScanRun, done, Callback, deliver, drop_bytes, scan_file, scan_segment, scan_segments, start, scan,
}

-- The records with an lsn of at least `from`.
unfoldable pub wanted : ℕ → List OpRecord → List OpRecord
wanted from [] = []
wanted from (r ∷ rs) = let rest = wanted from rs in if ltb r.lsn from then rest else r ∷ rest

abbrev pub last_of : ℕ → List OpRecord → ℕ
last_of n [] = n
last_of n (r ∷ rs) = last_of r.lsn rs

wanted-append :
    (from : ℕ) (xs ys : List OpRecord) → wanted from (xs ++ ys) ≡ wanted from xs ++ wanted from ys
unfolding wanted
wanted-append from [] ys = refl
wanted-append from (x ∷ xs) ys = ground (arith, wanted-append from xs ys)

last_of-append : (n : ℕ) (xs ys : List OpRecord) → last_of n (xs ++ ys) ≡ last_of (last_of n xs) ys
last_of-append n [] ys = refl
last_of-append n (x ∷ xs) ys = last_of-append x.lsn xs ys

pub wanted_none :
    (from n : ℕ) (rs : List OpRecord) → n + length rs ≤ from → wanted from (number n rs) ≡ []
unfolding wanted number
wanted_none from n [] h = refl
wanted_none from n (r ∷ rs) h =
    rw (lt→ltb n from (omega arith)) (wanted_none from (n + 1) rs (omega arith))

length-frames : (n : ℕ) (rs : List OpRecord) → length rs ≤ length (frames n rs)
unfolding frames
length-frames n [] = omega arith
length-frames n (r ∷ rs) =
    rw length-append (omega (arith, length-frame n r, length-frames (n + 1) rs))

-- The torn bytes that a scan drops, of the segments that it does not skip.
unfoldable pub torn : ℕ → List Group → ℕ
torn from [] = 0
torn from (h ∷ []) = length h.junk
torn from (h ∷ k ∷ more) =
    let rest = torn from (k ∷ more) in if leb k.first from then rest else length h.junk + rest

module _ (from : ℕ) (h k : Group) (more : List Group) where
  torn_skip : k.first ≤ from → torn from (h ∷ k ∷ more) ≡ torn from (k ∷ more)
  unfolding torn
  torn_skip p = rw (le→leb k.first from p)

  torn_read : ¬ (k.first ≤ from) → torn from (h ∷ k ∷ more) ≡ length h.junk + torn from (k ∷ more)
  unfolding torn
  torn_read p = rw (lt→leb k.first from (omega arith))

pub wanted-all_records :
    (from : ℕ) (h : Group) (gs : List Group)
    → wanted from (all_records (h ∷ gs))
      ≡ wanted from (number h.first h.records) ++ wanted from (all_records gs)
wanted-all_records from h gs =
    ap (wanted from) (all_records-cons h gs)
    ∙ wanted-append from (number h.first h.records) (all_records gs)

module _ {S : Type 0} (g : S → OpRecord → S) where
  -- A callback that does not fail.
  abbrev pub total : Callback S
  total s r = (ok tt, g s r)

  -- The run after the records `rs` were passed on and `torn` bytes dropped.
  abbrev pub passed : List OpRecord → ℕ → ℕ → ScanRun S → ScanRun S
  passed rs torn expected run = record {
    caller = foldl g run.caller rs;
    stats = record {
      records = run.stats.records + length rs;
      last_lsn = last_of run.stats.last_lsn rs;
      dropped_bytes = run.stats.dropped_bytes + torn;
      gap = run.stats.gap;
    };
    expected = expected;
  }

  passed-passed :
      (xs ys : List OpRecord) (t u e f : ℕ) (run : ScanRun S)
      → passed ys u f (passed xs t e run) ≡ passed (xs ++ ys) (t + u) f run
  passed-passed xs ys t u e f run = ground (
    arith,
    foldl-append g run.caller xs ys,
    length-append xs ys,
    last_of-append run.stats.last_lsn xs ys,
  )

  passed_path :
      {xs ys : List OpRecord} {t u e f : ℕ} (run : ScanRun S)
      → xs ≡ ys
      → t ≡ u
      → e ≡ f
      → passed xs t e run ≡ passed ys u f run
  passed_path run p q h = λ i. passed (p i) (q i) (h i) run

  passed_nothing :
      (t e : ℕ) (run : ScanRun S) → run.expected ≡ e → drop_bytes t run ≡ passed [] t e run
  passed_nothing t e run h = ground arith

  passed_nothing_at : {e : ℕ} (run : ScanRun S) → run.expected ≡ e → run ≡ passed [] 0 e run
  passed_nothing_at run h = ground arith

  -- One record of an intact log is skipped or passed on, and the next lsn is expected.
  deliver_lem :
      (from n : ℕ) (r : OpRecord) (run : ScanRun S)
      → n + 1 < 2 ^ 64
      → run.expected ≡ max n from
      → deliver from total (numbered n r) run
        ≡ done (passed (wanted from (numbered n r ∷ [])) 0 (max (n + 1) from) run)
  unfolding deliver wanted
  deliver_lem from n r run h e = ground arith

  scan_file-frames :
      (rs : List OpRecord) (from n fuel : ℕ) (junk : Bytes) (run : ScanRun S)
      → length rs < fuel
      → All IsWritable rs
      → parse_frame junk ≡ none
      → n + length rs < 2 ^ 64
      → run.expected ≡ max n from
      → scan_file fuel from total (frames n rs ++ junk) run
        ≡ done (passed (wanted from (number n rs)) (length junk) (max (n + length rs) from) run)
  unfolding frames number scan_file
  scan_file-frames [] from n zero junk run hf w hj hn he = absurd (omega arith)
  scan_file-frames [] from n (suc fuel) junk run hf w hj hn he =
      rw hj (ap done (unfold wanted in (passed_nothing (length junk) _ run (omega (arith, he)))))
  scan_file-frames (r ∷ rs) from n zero junk run hf w hj hn he = absurd (omega arith)
  scan_file-frames (r ∷ rs) from n (suc fuel) junk run hf w hj hn he =
      rw
        (
          append_assoc,
          parse_frame-frame n r (frames (n + 1) rs ++ junk) (omega arith) w.0,
          deliver_lem from n r run (omega arith) he,
        )
        (scan_file-frames rs from (n + 1) fuel junk _ (omega arith) w.1 hj (omega arith) refl
          ∙ ap done (
              passed-passed (wanted from (numbered n r ∷ [])) (wanted from (number (n + 1) rs)) 0
                (length junk) (max (n + 1) from) (max (n + 1 + length rs) from) run
              ∙ passed_path run (sym (wanted-append from (numbered n r ∷ []) (number (n + 1) rs)))
                  (omega arith) (omega arith)))

  module _ (opens : Segment → Bool) (opened : (seg : Segment) → opens seg ≡ true) where
    scan_segment-group :
        (h : Group) (from : ℕ) (run : ScanRun S)
        → All IsWritable h.records
        → parse_frame h.junk ≡ none
        → h.first + length h.records < 2 ^ 64
        → run.expected ≡ max h.first from
        → scan_segment opens from total (segment_of h) run
          ≡ done (
              passed
                (wanted from (number h.first h.records))
                (length h.junk)
                (max (h.first + length h.records) from)
                run)
    unfolding scan_segment
    scan_segment-group h from run w hj he e =
        rw (opened (segment_of h))
          (scan_file-frames h.records from h.first _ h.junk run fuel w hj he e)
      where
        fuel : length h.records < suc (length (content h))
        fuel = omega (
          arith,
          length-append (frames h.first h.records) h.junk,
          length-frames h.first h.records,
        )

    scan_segments-Chain :
        (n end from : ℕ) (gs : List Group) (run : ScanRun S)
        → Chain n end gs
        → end < 2 ^ 64
        → run.expected ≡ max n from
        → scan_segments opens from total (map segment_of gs) run
          ≡ done (passed (wanted from (all_records gs)) (torn from gs) (max end from) run)
    unfolding scan_segments
    scan_segments-Chain n end from [] run c he e =
        ap done (unfold wanted all_records torn in (passed_nothing_at run (omega (arith, e, c))))
    scan_segments-Chain n end from (h ∷ []) run c he e =
        scan_segment-group h from run c.1 c.2 (omega (arith, c.0, c.4)) (omega (arith, c.0, e))
        ∙ ap done (
            passed_path run (unfold wanted all_records in (ap (wanted from) (sym (append-nil _))))
              (unfold torn in refl) (omega (arith, c.0, c.4)))
    scan_segments-Chain n end from (h ∷ k ∷ more) run c he e = elim (dec_le k.first from) [
      | yes skip ↦ rw (le→leb k.first from skip) (
          scan_segments-Chain (n + length h.records) end from (k ∷ more) run c.4 he
            (omega (arith, c.4.0))
          ∙ ap done (
              passed_path run
                (sym (
                  wanted-all_records from h (k ∷ more)
                  ∙ rw (wanted_none from h.first h.records (omega (arith, c.0, c.4.0)))))
                (sym (torn_skip from h k more skip)) refl))
      | no read ↦
          rw
            (
              lt→leb k.first from (omega arith),
              scan_segment-group h from run c.1 c.2
                  (omega (arith, c.0, Chain-le _ end (k ∷ more) c.4)) (omega (arith, c.0, e)),
            )
            (scan_segments-Chain (n + length h.records) end from (k ∷ more) _ c.4 he
                (omega (arith, c.0))
              ∙ ap done (
                  passed-passed (wanted from (number h.first h.records))
                    (wanted from (all_records (k ∷ more))) (length h.junk) (torn from (k ∷ more))
                    (max (h.first + length h.records) from) _ run
                  ∙ passed_path run (sym (wanted-all_records from h (k ∷ more)))
                      (sym (torn_read from h k more read)) refl))
    ]

    -- A scan of an intact chain passes on, in order, exactly the records from `from` on, and drops
    -- exactly the torn tails of the segments that it reads.
    pub scan-Chain :
        (n end from : ℕ) (gs : List Group) (s : S)
        → Chain n end gs
        → end < 2 ^ 64
        → n ≤ from
        → from ≤ end
        → scan opens (map file_of gs) from total s
          ≡ some (done (passed (wanted from (all_records gs)) (torn from gs) end (start from s)))
    unfolding scan
    scan-Chain n end from gs s c he lo hi = rw (list_segments-Chain n end gs c he) (
        ap some (
          scan_segments-Chain n end from gs (start from s) c he (omega arith)
          ∙ ap done (passed_path (start from s) refl refl (omega arith))))
