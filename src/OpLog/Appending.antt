-- ===== src/OpLog/Appending.antt =====
-- `OpLog::Append` on the abstract log: a record that is accepted goes behind all others.
use mathlib.Core.List.{append-nil}
use aster_vec.Base.{
  ℕ, ◌+◌, ◌^◌, ◌<◌, ◌≡◌, refl, ap, sym, ◌∙◌, true, false, List, [], ◌∷◌, ◌++◌, map, some, arith,
  length, leb, leb→le, le→ltb, All, Bool-cases, if_true, if_false, inl, inr,
}
use mathlib.Core.Path.{subst, subst₂}
use aster_vec.Base.Status.{ok}
use aster_vec.OpLog.Record.{OpRecord, IsWritable, body_size, frame, max_body_bytes}
use aster_vec.OpLog.Names.{segment_name, create_file}
use aster_vec.OpLog.NameLaws.{same_bytes-segment_name_ne}
use aster_vec.OpLog.Groups.{Group, frames, number, file_of, all_records, Chain, Chain-le}
use aster_vec.OpLog.Refine.{fresh, IsFilled-snoc, Chain-fresh}
use aster_vec.OpLog.Writer.{
  OpLog, AppendIo, OpenIo, written, write_all, append_to, after_rotation, append, open_segment,
}
use aster_vec.OpLog.Represents.{
  Represents, Appended, all_records-snoc, parse_nothing, append_to-Appended,
}

-- The segment that a rotation starts.
pub create_file-fresh :
    (base n : ℕ) (gs : List Group)
    → Chain base n gs
    → n < 2 ^ 64
    → All (λ (g : Group). g.first < n) gs
    → create_file (segment_name n) (map file_of gs) ≡ map file_of (gs ++ (fresh n ∷ []))
unfolding create_file frames
create_file-fresh base n [] chain h before = refl
create_file-fresh base n (g ∷ gs) chain h before =
    rw (same_bytes-segment_name_ne g.first n (omega (arith, before.0)) h (omega (arith, before.0)))
      (ap (λ fs. file_of g ∷ fs)
        (create_file-fresh (base + length g.records) n gs chain.4 h before.1))

All-before :
    (base n : ℕ) (gs : List Group) (c : Group)
    → Chain base n (gs ++ (c ∷ []))
    → 0 < length c.records
    → All (λ (g : Group). g.first < n) (gs ++ (c ∷ []))
All-before base n [] c chain filled = (omega (arith, chain.0, chain.4), tt)
All-before base n (g ∷ gs) c chain filled = (
  omega (
    arith,
    chain.0,
    IsFilled-snoc gs c g chain.3,
    Chain-le (base + length g.records) n (gs ++ (c ∷ [])) chain.4,
  ),
  All-before (base + length g.records) n gs c chain.4 filled,
)

-- A segment that is not empty holds a record.
filled_lem : (n : ℕ) (rs : List OpRecord) → 0 < length (frames n rs) → 0 < length rs
unfolding frames
filled_lem n [] h = h
filled_lem n (r ∷ rs) h = omega arith

abbrev pub rotated : OpLog → List Group → OpLog
rotated log gs = record log {
  dir = map file_of (gs ++ (fresh log.next_lsn ∷ []));
  fd = some (segment_name log.next_lsn);
  offset = 0;
}

module _ (base : ℕ) (gs : List Group) (c : Group) (log : OpLog)
    (rep : Represents base gs c log) where
  pub full_lem : leb log.segment_bytes log.offset ≡ true → 0 < length c.records
  full_lem h = filled_lem c.first c.records (omega (arith, leb→le _ _ h, rep.limited, rep.at_end))

  open_segment-rotated :
      (io : OpenIo)
      → io.opens ≡ true
      → io.syncs ≡ true
      → 0 < length c.records
      → open_segment io log ≡ (ok tt, rotated log (gs ++ (c ∷ [])))
  unfolding open_segment
  open_segment-rotated io opens syncs filled =
      rw (opens, syncs)
        (λ i. (
          ok tt,
          record log { dir = dir_path i; fd = some (segment_name log.next_lsn); offset = 0 },
        ))
    where
      dir_path :
          create_file (segment_name log.next_lsn) log.dir
          ≡ map file_of ((gs ++ (c ∷ [])) ++ (fresh log.next_lsn ∷ []))
      dir_path = rw rep.files (
          create_file-fresh base log.next_lsn (gs ++ (c ∷ [])) rep.chain rep.in_range
            (All-before base log.next_lsn gs c rep.chain filled))

  pub rotated-Represents :
      0 < length c.records
      → Represents base (gs ++ (c ∷ [])) (fresh log.next_lsn) (rotated log (gs ++ (c ∷ [])))
  unfolding frames
  rotated-Represents filled = record {
    files = refl;
    chain = Chain-fresh base log.next_lsn gs c parse_nothing rep.chain filled;
    clean = refl;
    open_file = refl;
    at_end = refl;
    sound = rep.sound;
    limited = rep.limited;
    in_range = rep.in_range;
  }

  pub fresh_records :
      all_records ((gs ++ (c ∷ [])) ++ (fresh log.next_lsn ∷ [])) ≡ all_records (gs ++ (c ∷ []))
  unfolding number
  fresh_records = all_records-snoc (gs ++ (c ∷ [])) (fresh log.next_lsn) ∙ append-nil _

  pub append-full :
      (io : AppendIo) (r : OpRecord)
      → IsWritable r
      → io.rotation.opens ≡ true
      → io.rotation.syncs ≡ true
      → leb log.segment_bytes log.offset ≡ true
      → append io r log ≡ append_to io r (rotated log (gs ++ (c ∷ [])))
  unfolding append
  append-full io r w opens syncs full =
      if_false _ _ (le→ltb max_body_bytes (body_size r) w.fits)
      ∙ if_false _ _ rep.sound
      ∙ if_true _ _ full
      ∙ ap (after_rotation io r) (open_segment-rotated io.rotation opens syncs (full_lem full))

  pub append-free :
      (io : AppendIo) (r : OpRecord)
      → IsWritable r
      → leb log.segment_bytes log.offset ≡ false
      → append io r log ≡ append_to io r log
  unfolding append
  append-free io r w free =
      if_false _ _ (le→ltb max_body_bytes (body_size r) w.fits)
      ∙ if_false _ _ rep.sound
      ∙ if_false _ _ free

  -- In a state that stands for an abstract log, `append` of a writable record returns the next lsn
  -- and puts the record, under that lsn, behind all others, in the open segment or in a new one,
  -- where the system opens the file, syncs the directory and writes the whole frame.
  pub append-Appended :
      (io : AppendIo) (r : OpRecord)
      → IsWritable r
      → log.next_lsn + 1 < 2 ^ 64
      → io.rotation.opens ≡ true
      → io.rotation.syncs ≡ true
      → write_all io.writes 0 (length (frame log.next_lsn r)) ≡ written
      → Appended base (all_records (gs ++ (c ∷ []))) log.next_lsn r (append io r log)
  append-Appended io r w room opens syncs wr =
      elim (Bool-cases (leb log.segment_bytes log.offset)) [
        | inl full ↦
            subst₂ (λ old next. Appended base old log.next_lsn r next) fresh_records
              (sym (append-full io r w opens syncs full))
              (append_to-Appended base (gs ++ (c ∷ [])) (fresh log.next_lsn)
                (rotated log (gs ++ (c ∷ []))) io r (rotated-Represents (full_lem full)) w room wr)
        | inr free ↦
            subst (λ next. Appended base (all_records (gs ++ (c ∷ []))) log.next_lsn r next)
              (sym (append-free io r w free)) (append_to-Appended base gs c log io r rep w room wr)
      ]
