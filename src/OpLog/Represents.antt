-- ===== src/OpLog/Represents.antt =====
-- The states of the writer that stand for an abstract log, and a write to the open segment.
use mathlib.Core.List.{append_assoc, append-nil, map-append}
use aster_vec.Base.{
  ℕ, ◌+◌, ◌^◌, ◌%◌, ◌<◌, ◌≡◌, refl, ap, sym, ◌∙◌, false, List, [], ◌∷◌, ◌++◌, map, Option, none,
  some, arith, length, length-append,
}
use aster_vec.Base.Bytes.{Bytes}
use aster_vec.Base.Status.{Result, ok}
use aster_vec.OpLog.Record.{OpRecord, IsWritable, frame, parse_frame, numbered}
use aster_vec.OpLog.Names.{segment_name, change_file}
use aster_vec.OpLog.Groups.{Group, frames, number, content, file_of, all_records, Chain}
use aster_vec.OpLog.Refine.{
  with_record, frames-append, number-append, Chain-last, Chain-with_record, change_file-last,
}
use aster_vec.OpLog.Writer.{on_file, OpLog, AppendIo, written, write_all, append_to}

-- The state `log` of the writer stands for the segments `gs` followed by the open segment `c`; the
-- first lsn that is kept is `base`.
pub record Represents (base : ℕ) (gs : List Group) (c : Group) (log : OpLog) : Type 0 where
  pub files : log.dir ≡ map file_of (gs ++ (c ∷ []))
  pub chain : Chain base log.next_lsn (gs ++ (c ∷ []))
  pub clean : c.junk ≡ []
  pub open_file : log.fd ≡ some (segment_name c.first)
  pub at_end : log.offset ≡ length (frames c.first c.records)
  pub sound : log.broken ≡ false
  pub limited : 0 < log.segment_bytes
  pub in_range : log.next_lsn < 2 ^ 64

pub all_records-snoc :
    (gs : List Group) (c : Group)
    → all_records (gs ++ (c ∷ [])) ≡ all_records gs ++ number c.first c.records
unfolding all_records
all_records-snoc [] c = append-nil _
all_records-snoc (g ∷ gs) c = rw (all_records-snoc gs c, append_assoc) refl

pub parse_nothing : parse_frame [] ≡ none
unfolding parse_frame
parse_nothing = refl

-- The new content of the open file.
content-with_record :
    (n : ℕ) (c : Group) (r : OpRecord)
    → c.junk ≡ []
    → c.first + length c.records ≡ n
    → content c ++ frame n r ≡ content (with_record c r)
content-with_record n c r clean ends =
    rw (clean, append-nil, append-nil, frames-append c.first c.records r, ends) refl

pub record Appended (base : ℕ) (old : List OpRecord) (n : ℕ) (r : OpRecord)
    (next : Option (Result ℕ × OpLog)) : Type 0 where
  pub log' : OpLog
  pub result : next ≡ some (ok n, log')
  pub gs : List Group
  pub c : Group
  pub state : Represents base gs c log'
  pub records : all_records (gs ++ (c ∷ [])) ≡ old ++ (numbered n r ∷ [])

-- The directory after the frame was written to the open file.
pub written_dir :
    (base n : ℕ) (gs : List Group) (c : Group) (r : OpRecord)
    → Chain base n (gs ++ (c ∷ []))
    → c.junk ≡ []
    → n < 2 ^ 64
    → change_file (segment_name c.first) (λ old. old ++ frame n r) (map file_of (gs ++ (c ∷ [])))
      ≡ map file_of (gs ++ (with_record c r ∷ []))
written_dir base n gs c r chain clean h =
    change_file-last base n gs c (λ old. old ++ frame n r) chain h
    ∙ ap
        (λ (t : Bytes).
          map file_of gs ++ (record { name = segment_name c.first; content = t } ∷ []))
        (content-with_record n c r clean (Chain-last base n gs c chain).1)
    ∙ sym (map-append file_of gs (with_record c r ∷ []))

all_records-with_record :
    (base n : ℕ) (gs : List Group) (c : Group) (r : OpRecord)
    → Chain base n (gs ++ (c ∷ []))
    → all_records (gs ++ (with_record c r ∷ []))
      ≡ all_records (gs ++ (c ∷ [])) ++ (numbered n r ∷ [])
all_records-with_record base n gs c r chain =
    all_records-snoc gs (with_record c r)
    ∙ ap (λ rs. all_records gs ++ rs)
        (number-append c.first c.records r
          ∙ ap (λ (k : ℕ). number c.first c.records ++ (numbered k r ∷ []))
              (Chain-last base n gs c chain).1)
    ∙ sym (append_assoc (all_records gs) (number c.first c.records) (numbered n r ∷ []))
    ∙ ap (λ rs. rs ++ (numbered n r ∷ [])) (sym (all_records-snoc gs c))

pub append_to-Appended :
    (base : ℕ) (gs : List Group) (c : Group) (log : OpLog) (io : AppendIo) (r : OpRecord)
    → Represents base gs c log
    → IsWritable r
    → log.next_lsn + 1 < 2 ^ 64
    → write_all io.writes 0 (length (frame log.next_lsn r)) ≡ written
    → Appended base (all_records (gs ++ (c ∷ []))) log.next_lsn r (append_to io r log)
append_to-Appended base gs c log io r rep w room wr = record {
  log' = record log {
    dir = map file_of (gs ++ (with_record c r ∷ []));
    offset = log.offset + length (frame log.next_lsn r);
    next_lsn = log.next_lsn + 1;
  };
  result = rw wr (λ i. some (
    ok log.next_lsn,
    record log {
      dir = dir_path i;
      offset = log.offset + length (frame log.next_lsn r);
      next_lsn = lsn_path i;
    },
  ));
  gs = gs;
  c = with_record c r;
  state = record {
    files = refl;
    chain = Chain-with_record base log.next_lsn gs c r rep.chain w;
    clean = rep.clean;
    open_file = rep.open_file;
    at_end = omega (
      arith,
      rep.at_end,
      ap length (frames-append c.first c.records r),
      length-append (frames c.first c.records) (frame (c.first + length c.records) r),
      ap (λ (k : ℕ). length (frame k r)) (Chain-last base log.next_lsn gs c rep.chain).1,
    );
    sound = rep.sound;
    limited = rep.limited;
    in_range = room;
  };
  records = all_records-with_record base log.next_lsn gs c r rep.chain;
}
  where
    lsn_path : (log.next_lsn + 1) % 2 ^ 64 ≡ log.next_lsn + 1
    lsn_path = omega (arith, room)

    dir_path :
        on_file log.fd (λ old. old ++ frame log.next_lsn r) log.dir
        ≡ map file_of (gs ++ (with_record c r ∷ []))
    dir_path =
        rw (rep.open_file, rep.files)
          (written_dir base log.next_lsn gs c r rep.chain rep.clean rep.in_range)
