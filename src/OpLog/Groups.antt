-- ===== src/OpLog/Groups.antt =====
-- The abstract log: for each segment the records that it holds and the torn bytes behind them, and
-- the files that such segments are.
use aster_vec.Base.{
  ℕ, ◌+◌, ◌^◌, ◌<◌, ◌≤◌, ◌≡◌, refl, ap, List, [], ◌∷◌, ◌++◌, map, none, some, arith, length, le→ltb,
  All,
}
use aster_vec.Base.Bytes.{Bytes}
use aster_vec.OpLog.Record.{OpRecord, IsWritable, frame, parse_frame, numbered}
use aster_vec.OpLog.Names.{
  File, Segment, segment_name, insert_segment, sort_segments, collect_segments, list_segments,
}
use aster_vec.OpLog.NameLaws.{name_kind-segment_name}

pub record Group : Type 0 where
  pub first : ℕ
  pub records : List OpRecord
  pub junk : Bytes

-- The frames of records that get the numbers from `n` on.
unfoldable pub frames : ℕ → List OpRecord → Bytes
frames n [] = []
frames n (r ∷ rs) = frame n r ++ frames (n + 1) rs

unfoldable pub number : ℕ → List OpRecord → List OpRecord
number n [] = []
number n (r ∷ rs) = numbered n r ∷ number (n + 1) rs

abbrev pub content : Group → Bytes
content g = frames g.first g.records ++ g.junk

abbrev pub file_of : Group → File
file_of g = record { name = segment_name g.first; content = content g }

abbrev pub segment_of : Group → Segment
segment_of g = record { first_lsn = g.first; file = file_of g }

-- The records of all segments in the order of their lsns.
unfoldable pub all_records : List Group → List OpRecord
all_records [] = []
all_records (g ∷ gs) = number g.first g.records ++ all_records gs

pub all_records-cons :
    (h : Group) (gs : List Group)
    → all_records (h ∷ gs) ≡ number h.first h.records ++ all_records gs
unfolding all_records
all_records-cons h gs = refl

-- Only the last segment may be without a record.
abbrev pub IsFilled : List Group → Group → Type 0
IsFilled [] g = Unit
IsFilled (h ∷ gs) g = 0 < length g.records

-- Segments that hold the lsns from `n` up to, and without, `end`, with no lsn missing.
abbrev pub Chain : ℕ → ℕ → List Group → Type 0
Chain n end [] = n ≡ end
Chain n end (g ∷ gs) =
    (g.first ≡ n)
    × All IsWritable g.records
    × (parse_frame g.junk ≡ none)
    × IsFilled gs g
    × Chain (n + length g.records) end gs

pub Chain-le : (n end : ℕ) (gs : List Group) → Chain n end gs → n ≤ end
Chain-le n end [] c = omega arith
Chain-le n end (g ∷ gs) c = omega (arith, Chain-le (n + length g.records) end gs c.4)

collect_lem :
    (n end : ℕ) (gs : List Group)
    → Chain n end gs
    → end < 2 ^ 64
    → collect_segments (map file_of gs) ≡ some (map segment_of gs)
unfolding collect_segments
collect_lem n end [] c h = refl
collect_lem n end (g ∷ gs) c h =
    rw
      (
        name_kind-segment_name g.first (omega (arith, Chain-le n end (g ∷ gs) c, c.0)),
        collect_lem (n + length g.records) end gs c.4 h,
      )
      refl

sort_lem :
    (n end : ℕ) (gs : List Group)
    → Chain n end gs
    → sort_segments (map segment_of gs) ≡ map segment_of gs
unfolding sort_segments insert_segment
sort_lem n end [] c = refl
sort_lem n end (g ∷ []) c = refl
sort_lem n end (g ∷ h ∷ gs) c =
    rw
      (
        sort_lem (n + length g.records) end (h ∷ gs) c.4,
        le→ltb h.first g.first (omega (arith, c.0, c.4.0)),
      )
      refl

-- `listSegments` finds the segments of a chain, in order.
pub list_segments-Chain :
    (n end : ℕ) (gs : List Group)
    → Chain n end gs
    → end < 2 ^ 64
    → list_segments (map file_of gs) ≡ some (map segment_of gs)
unfolding list_segments
list_segments-Chain n end gs c h = rw (collect_lem n end gs c h) (ap some (sort_lem n end gs c))
