-- ===== src/PointId.antt =====
-- include/point_id.h: a point id and its stored form. A `PointId` is built by `Int` or `Str` only,
-- so the field that the other factory fills keeps its default.
pub mod Layout
pub mod RoundTrip
mod Tests
use Prim.Native.Nat.{bit_and, bit_or}
use aster_vec.Base.{
  ℕ, ◌+◌, ◌-◌, ◌*◌, ◌/◌, ◌%◌, ◌^◌, ◌<◌, Bool, true, false, ◌&&◌, ◌||◌, [], ◌∷◌, Option, none, some,
  length, leb, ◌==◌, if◌then◌else◌, get_or,
}
use aster_vec.Base.Bytes.{Bytes, same_bytes}
use aster_vec.BigEndian.{be_bytes, be_value}

pub data PointId : Type 0 where
  int : ℕ → PointId
  str : Bytes → PointId

-- `operator==`.
unfoldable pub same_id : PointId → PointId → Bool
same_id (int a) (int b) = a == b
same_id (int a) (str t) = false
same_id (str s) (int b) = false
same_id (str s) (str t) = same_bytes s t

abbrev pub int_tag : ℕ
int_tag = 1

abbrev pub str_tag : ℕ
str_tag = 2

abbrev pub uuid_tag : ℕ
uuid_tag = 3

unfoldable pub hex_val : ℕ → ℕ
hex_val c = if leb c b'9' then c - b'0' else c - b'a' + 10

unfoldable pub is_hex : ℕ → Bool
is_hex c = (leb b'0' c && leb c b'9') || (leb b'a' c && leb c b'f')

-- The places of the hyphens among the characters.
abbrev pub dash_char : ℕ → Bool
dash_char i = i == 8 || i == 13 || i == 18 || i == 23

-- The loop of `IsCanonicalUuid` from index `i` on.
unfoldable pub uuid_chars : ℕ → Bytes → Bool
uuid_chars i [] = true
uuid_chars i (c ∷ cs) = (if dash_char i then c == b'-' else is_hex c) && uuid_chars (i + 1) cs

unfoldable pub is_canonical_uuid : Bytes → Bool
is_canonical_uuid s = length s == 36 && uuid_chars 0 s

-- The loop of `Encode` over the characters; `high` is the first digit of the current byte, if any.
-- It pushes a byte where the code fills the next of 16 places.
unfoldable pub pack : Option ℕ → Bytes → Bytes
pack high [] = []
pack none (c ∷ cs) = if c == b'-' then pack none cs else pack (some (hex_val c)) cs
pack (some h) (c ∷ cs) =
    if c == b'-' then pack (some h) cs else bit_or (h * 2 ^ 4) (hex_val c) % 256 ∷ pack none cs

unfoldable pub encode : PointId → Bytes
encode (int v) = int_tag ∷ be_bytes 8 v
encode (str s) = if is_canonical_uuid s then uuid_tag ∷ pack none s else str_tag ∷ s

-- The places of the hyphens among the stored bytes.
abbrev pub dash_byte : ℕ → Bool
dash_byte i = i == 5 || i == 7 || i == 9 || i == 11

abbrev pub hex_digits : Bytes
hex_digits =
    b'0' ∷ b'1' ∷ b'2' ∷ b'3' ∷ b'4' ∷ b'5' ∷ b'6' ∷ b'7' ∷ b'8' ∷ b'9' ∷ b'a' ∷ b'b' ∷ b'c' ∷ b'd'
    ∷ b'e' ∷ b'f' ∷ []

-- Two digits, with indices below 16: the default is never read.
unfoldable pub hex_pair : ℕ → Bytes → Bytes
hex_pair b rest = get_or hex_digits (b / 2 ^ 4) 0 ∷ get_or hex_digits (bit_and b 0x0F) 0 ∷ rest

-- The loop of `Decode` over the stored bytes from index `i` on.
unfoldable pub unpack : ℕ → Bytes → Bytes
unpack i [] = []
unpack i (b ∷ bs) =
    let rest = hex_pair b (unpack (i + 1) bs) in if dash_byte i then b'-' ∷ rest else rest

unfoldable pub decode : Bytes → Option PointId
decode [] = none
decode (tag ∷ bytes) =
    if tag == int_tag
    then (if length bytes == 8 then some (int (be_value 0 bytes)) else none)
    else if tag == str_tag
    then some (str bytes)
    else if tag == uuid_tag
    then (if length bytes == 16 then some (str (unpack 1 bytes)) else none)
    else none

-- The ids that a caller can build.
abbrev pub IsId : PointId → Type 0
IsId (int v) = v < 2 ^ 64
IsId (str s) = Unit
