-- ===== src/OpLog/Names.antt =====
-- The files of a log: `segmentPath`, `listSegments` and the directory that they work on. A path is
-- its file name, since one log uses one directory.
use mathlib.Core.Option
use aster_vec.Base.{
  ℕ, zero, suc, ◌+◌, ◌-◌, ◌*◌, ◌/◌, ◌%◌, ◌^◌, Bool, true, ◌&&◌, List, [], ◌∷◌, ◌++◌, Option, none,
  some, length, take, drop, ltb, leb, ◌==◌, if◌then◌else◌,
}
use aster_vec.Base.Bytes.{Bytes, same_bytes}

pub record File : Type 0 where
  pub name : Bytes
  pub content : Bytes

-- A segment's first lsn, and the file that its path names.
pub record Segment : Type 0 where
  pub first_lsn : ℕ
  pub file : File

abbrev pub suffix : Bytes
suffix = b'.' ∷ b'l' ∷ b'o' ∷ b'g' ∷ []

-- `%020llu`: the last `k` decimal digits, with leading zeros. Twenty digits hold every 64-bit
-- number.
unfoldable pub dec_digits : ℕ → ℕ → Bytes
dec_digits zero n = []
dec_digits (suc k) n = dec_digits k (n / 10) ++ ((n % 10 + b'0') ∷ [])

unfoldable pub segment_name : ℕ → Bytes
segment_name n = dec_digits 20 n ++ suffix

abbrev pub is_digit : ℕ → Bool
is_digit c = leb b'0' c && leb c b'9'

unfoldable pub all_digits : Bytes → Bool
all_digits [] = true
all_digits (c ∷ cs) = is_digit c && all_digits cs

-- `std::stoull` on a text of digits, before its range check.
unfoldable pub decimal : ℕ → Bytes → ℕ
decimal acc [] = acc
decimal acc (c ∷ cs) = decimal (acc * 10 + (c - b'0')) cs

-- What a file name is to `listSegments`: skipped, a segment, or a number for which `std::stoull`
-- throws `std::out_of_range`.
pub data NameKind : Type 0 where
  other : NameKind
  segment : ℕ → NameKind
  out_of_range : NameKind

unfoldable pub name_kind : Bytes → NameKind
name_kind name =
    if length name == 24 && same_bytes (drop 20 name) suffix && all_digits (take 20 name)
    then (let v = decimal 0 (take 20 name) in if ltb v (2 ^ 64) then segment v else out_of_range)
    else other

unfoldable pub insert_segment : Segment → List Segment → List Segment
insert_segment s [] = s ∷ []
insert_segment s (t ∷ ts) =
    if ltb t.first_lsn s.first_lsn then t ∷ insert_segment s ts else s ∷ t ∷ ts

-- `std::sort` by first lsn.
unfoldable pub sort_segments : List Segment → List Segment
sort_segments [] = []
sort_segments (s ∷ ss) = insert_segment s (sort_segments ss)

abbrev pub add_named : NameKind → File → Option (List Segment) → Option (List Segment)
add_named other f rest = rest
add_named (segment n) f rest = Option.map (λ ss. record { first_lsn = n; file = f } ∷ ss) rest
add_named out_of_range f rest = none

-- The loop of `listSegments`; `none` where it throws.
unfoldable pub collect_segments : List File → Option (List Segment)
collect_segments [] = some []
collect_segments (f ∷ fs) = add_named (name_kind f.name) f (collect_segments fs)

unfoldable pub list_segments : List File → Option (List Segment)
list_segments dir = Option.map sort_segments (collect_segments dir)

-- `fs::remove(path)`.
unfoldable pub remove_file : Bytes → List File → List File
remove_file name [] = []
remove_file name (f ∷ fs) =
    let rest = remove_file name fs in if same_bytes f.name name then rest else f ∷ rest

-- `open` with `O_CREAT | O_TRUNC`.
unfoldable pub create_file : Bytes → List File → List File
create_file name [] = record { name = name; content = [] } ∷ []
create_file name (f ∷ fs) =
    if same_bytes f.name name then record f { content = [] } ∷ fs else f ∷ create_file name fs

-- A change to the content of the open file.
unfoldable pub change_file : Bytes → (Bytes → Bytes) → List File → List File
change_file name change [] = []
change_file name change (f ∷ fs) =
    if same_bytes f.name name
    then record f { content = change f.content } ∷ fs
    else f ∷ change_file name change fs
