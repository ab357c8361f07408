-- ===== src/OpLog/Reopen.antt =====
-- `OpLog::Open` on what a crash left: a chain of segments with torn tails, the last one perhaps
-- without a record.
use mathlib.Core.List.{append-nil}
use mathlib.Core.Option
use aster_vec.Base.{
  ℕ, ◌^◌, ◌<◌, ◌≡◌, refl, ap, ◌∙◌, Bool, true, false, List, [], ◌∷◌, ◌++◌, map, some, arith, ne→==,
  if_false,
}
use aster_vec.Base.Status.{ok}
use aster_vec.OpLog.Names.{File, Segment, segment_name, create_file}
use aster_vec.OpLog.Groups.{Group, frames, number, file_of, all_records, Chain, list_segments-Chain}
use aster_vec.OpLog.Refine.{fresh}
use aster_vec.OpLog.Represents.{Represents, all_records-snoc}
use aster_vec.OpLog.Appending.{create_file-fresh}
use aster_vec.OpLog.Writer.{
  OpLog, OpenIo, open_segment, open_log, open_after, remove_stale, new_log, segment_limit,
}
use aster_vec.OpLog.Kept.{
  remove_stale-Chain, kept, kept_before, kept-Chain, kept_records, Chain-kept,
}

abbrev reopened : ℕ → ℕ → List Group → OpLog
reopened end segment_bytes gs = record {
  dir = map file_of (kept end gs ++ (fresh end ∷ []));
  segment_bytes = segment_limit segment_bytes;
  next_lsn = end;
  fd = some (segment_name end);
  offset = 0;
  broken = false;
}

open_segment-new :
    (io : OpenIo) (end segment_bytes : ℕ) (dir dir' : List File)
    → io.opens ≡ true
    → io.syncs ≡ true
    → create_file (segment_name end) dir ≡ dir'
    → open_segment io (new_log dir end segment_bytes) ≡ (
      ok tt,
      record (new_log dir end segment_bytes) {
        dir = dir';
        fd = some (segment_name end);
        offset = 0;
      },
    )
unfolding open_segment
open_segment-new io end segment_bytes dir dir' opens syncs e = rw (opens, syncs, e)

segment_limit-pos : (n : ℕ) → 0 < segment_limit n
segment_limit-pos n = ground arith

-- Opening the log at the lsn behind the last record of an intact chain, torn tails included, keeps
-- every record, starts an empty segment and leaves a state that stands for the same records.
pub open_log-Represents :
    (removes : Segment → Bool) (io : OpenIo) (n end segment_bytes : ℕ) (gs : List Group)
    → ((seg : Segment) → removes seg ≡ true)
    → io.opens ≡ true
    → io.syncs ≡ true
    → Chain n end gs
    → 0 < end
    → end < 2 ^ 64
    → (log : OpLog) × (open_log true removes io (map file_of gs) end segment_bytes
        ≡ some (ok tt, log))
      × Represents n (kept end gs) (fresh end) log
      × (all_records (kept end gs ++ (fresh end ∷ [])) ≡ all_records gs)
unfolding open_log
open_log-Represents removes io n end segment_bytes gs removed opens syncs h lo hi =
    (reopened end segment_bytes gs, result, state, records)
  where
    created :
        create_file (segment_name end) (map file_of (kept end gs))
        ≡ map file_of (kept end gs ++ (fresh end ∷ []))
    created =
        create_file-fresh n end (kept end gs)
          (Chain-kept n end (kept end gs) (kept-Chain n end gs h)) hi (kept_before end gs)

    result :
        open_log true removes io (map file_of gs) end segment_bytes
        ≡ some (ok tt, reopened end segment_bytes gs)
    result =
        if_false _ _ (ne→== end 0 (omega arith))
        ∙ ap
            (Option.map (λ segs.
              open_after io end segment_bytes (remove_stale removes end segs (map file_of gs))))
            (list_segments-Chain n end gs h hi)
        ∙ ap (λ p. some (open_after io end segment_bytes p))
            (remove_stale-Chain removes removed n end [] gs h hi)
        ∙ ap some (open_segment-new io end segment_bytes _ _ opens syncs created)

    state : Represents n (kept end gs) (fresh end) (reopened end segment_bytes gs)
    state = record {
      files = refl;
      chain = kept-Chain n end gs h;
      clean = refl;
      open_file = refl;
      at_end = unfold frames in refl;
      sound = refl;
      limited = segment_limit-pos segment_bytes;
      in_range = hi;
    }

    records : all_records (kept end gs ++ (fresh end ∷ [])) ≡ all_records gs
    records =
        all_records-snoc (kept end gs) (fresh end)
        ∙ unfold number in append-nil _ ∙ kept_records n end gs h
