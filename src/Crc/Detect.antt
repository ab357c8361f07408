-- ===== src/Crc/Detect.antt =====
-- The checksum tells two byte strings apart that differ in one byte.
use Prim.Native.Nat.{bit_xor}
use aster_vec.Base.{
  ℕ, ◌+◌, ◌/◌, ◌%◌, ◌^◌, ◌<◌, ◌≡◌, refl, ap, sym, ◌∙◌, ◌≢◌, true, List, [], ◌∷◌, ◌++◌, arith, ◌==◌,
  ==_iff, holds_to, holds_to→at, ltb, ltb→lt, get_or, set, replicate,
}
use native.Mathlib.Nat.{div-add-mod}
use aster_vec.Base.Bytes.{Bytes, IsByte}
use aster_vec.Base.Bits.{
  and_low, xor-lt, xor-zero, xor_shift, xor_low, xor_injective, xor_injective_left,
}
use aster_vec.Crc.{table, update_byte, update_crc, finish, value, init}

entry : ℕ → ℕ
entry i = get_or table i 0

-- The index at which the table holds a given top byte.
top_index : List ℕ → ℕ → List ℕ → List ℕ
top_index [] i acc = acc
top_index (t ∷ ts) i acc = top_index ts (i + 1) (set acc (t / 2 ^ 24) i)

index_of : ℕ → ℕ
index_of t = get_or (top_index table 0 (replicate 256 0)) t 0

top_table : holds_to (λ i. index_of (entry i / 2 ^ 24) == i) 256 ≡ true
unfolding holds_to index_of top_index entry table
top_table = refl

entry_table : holds_to (λ i. ltb (entry i) (2 ^ 32)) 256 ≡ true
unfolding holds_to entry table
entry_table = refl

abbrev IsU32 : ℕ → Type 0
IsU32 c = c < 2 ^ 32

entry-lt : (i : ℕ) → i < 256 → IsU32 (entry i)
entry-lt i h = ltb→lt _ _ (holds_to→at _ 256 i h entry_table)

index_of-entry : (i : ℕ) → i < 256 → index_of (entry i / 2 ^ 24) ≡ i
index_of-entry i h = (==_iff _ i).0 (holds_to→at _ 256 i h top_table)

-- The index of a round, as a remainder.
index : ℕ → ℕ → ℕ
index crc p = bit_xor crc p % 256

update_byte_lem : (crc p : ℕ) → update_byte crc p ≡ bit_xor (entry (index crc p)) (crc / 256)
unfolding update_byte entry index
update_byte_lem crc p =
    ap (λ (i : ℕ). bit_xor (get_or table i 0) (crc / 256)) (and_low 8 (bit_xor crc p))

index-lt : (crc p : ℕ) → index crc p < 256
unfolding index
index-lt crc p = omega arith

update_byte-IsU32 : (crc p : ℕ) → IsU32 crc → IsU32 (update_byte crc p)
update_byte-IsU32 crc p h =
    rw (update_byte_lem crc p)
      (xor-lt 32 (entry (index crc p)) (crc / 256) (entry-lt _ (index-lt crc p)) (omega arith))

-- The top byte of the new register is that of the entry alone.
top_lem : (crc p : ℕ) → IsU32 crc → update_byte crc p / 2 ^ 24 ≡ entry (index crc p) / 2 ^ 24
top_lem crc p h = rw (update_byte_lem crc p) (
    xor_shift 24 (entry (index crc p)) (crc / 256)
    ∙ ap (bit_xor (entry (index crc p) / 2 ^ 24)) {x = crc / 256 / 2 ^ 24} (omega arith)
    ∙ xor-zero _)

module _ (c d p q : ℕ) (hc : IsU32 c) (hd : IsU32 d)
    (same : update_byte c p ≡ update_byte d q) where
  same_index : index c p ≡ index d q
  same_index =
      sym (index_of-entry _ (index-lt c p))
      ∙ ap index_of (sym (top_lem c p hc) ∙ ap (λ (t : ℕ). t / 2 ^ 24) same ∙ top_lem d q hd)
      ∙ index_of-entry _ (index-lt d q)

  same_high : c / 256 ≡ d / 256
  same_high = xor_injective (entry (index c p)) (c / 256) (d / 256) (
      sym (update_byte_lem c p)
      ∙ same
      ∙ update_byte_lem d q
      ∙ ap (λ (i : ℕ). bit_xor (entry i) (d / 256)) (sym same_index))

-- A round with the same byte keeps two registers apart.
update_byte_injective : (c d p : ℕ) → IsU32 c → IsU32 d → update_byte c p ≡ update_byte d p → c ≡ d
unfolding index
update_byte_injective c d p hc hd same =
    omega (arith, same_high c d p p hc hd same, low, div-add-mod c 256, div-add-mod d 256)
  where
    low : c % 256 ≡ d % 256
    low =
        xor_injective_left (p % 256) (c % 256) (d % 256)
          (sym (xor_low 8 c p) ∙ same_index c d p p hc hd same ∙ xor_low 8 d p)

-- A round from the same register keeps two bytes apart.
update_byte_injective_byte :
    (c p q : ℕ) → IsU32 c → IsByte p → IsByte q → update_byte c p ≡ update_byte c q → p ≡ q
unfolding index
update_byte_injective_byte c p q hc hp hq same = omega (arith, low)
  where
    low : p % 256 ≡ q % 256
    low =
        xor_injective (c % 256) (p % 256) (q % 256)
          (sym (xor_low 8 c p) ∙ same_index c c p q hc hc same ∙ xor_low 8 c q)

pub update_crc-IsU32 : (c : ℕ) (bytes : Bytes) → IsU32 c → IsU32 (update_crc c bytes)
unfolding update_crc
update_crc-IsU32 c [] h = h
update_crc-IsU32 c (p ∷ rest) h = update_crc-IsU32 (update_byte c p) rest (update_byte-IsU32 c p h)

-- Reading the same bytes keeps two registers apart.
pub update_injective :
    (c d : ℕ) (bytes : Bytes) → IsU32 c → IsU32 d → update_crc c bytes ≡ update_crc d bytes → c ≡ d
unfolding update_crc
update_injective c d [] hc hd same = same
update_injective c d (p ∷ rest) hc hd same = update_byte_injective c d p hc hd (
    update_injective (update_byte c p) (update_byte d p) rest (update_byte-IsU32 c p hc)
      (update_byte-IsU32 d p hd) same)

pub update_crc-append :
    (c : ℕ) (xs ys : Bytes) → update_crc c (xs ++ ys) ≡ update_crc (update_crc c xs) ys
unfolding update_crc
update_crc-append c [] ys = refl
update_crc-append c (x ∷ xs) ys = update_crc-append (update_byte c x) xs ys

-- From a 32-bit register, two byte strings of bytes that differ in one byte only, and agree in
-- what stands before and behind it, lead to different registers.
pub update_detects :
    (c : ℕ) (front back : Bytes) (p q : ℕ)
    → IsU32 c
    → IsByte p
    → IsByte q
    → update_crc c (front ++ (p ∷ back)) ≡ update_crc c (front ++ (q ∷ back))
    → p ≡ q
update_detects c front back p q hc hp hq same = update_byte_injective_byte mid p q wide hp hq (
    update_injective (update_byte mid p) (update_byte mid q) back (update_byte-IsU32 mid p wide)
      (update_byte-IsU32 mid q wide)
      (unfold update_crc in
        (sym (update_crc-append c front (p ∷ back)) ∙ same ∙ update_crc-append c front (q ∷ back))))
  where
    mid : ℕ
    mid = update_crc c front

    wide : IsU32 mid
    wide = update_crc-IsU32 c front hc

pub finish_injective : (c d : ℕ) → finish c ≡ finish d → c ≡ d
unfolding finish
finish_injective c d same = xor_injective_left 0xffff_ffff c d same

pub finish-IsU32 : (c : ℕ) → IsU32 c → IsU32 (finish c)
unfolding finish
finish-IsU32 c h = xor-lt 32 c 0xffff_ffff h (omega arith)

-- Two byte strings that agree but for one byte have different checksums.
pub value_detects :
    (front back : Bytes) (p q : ℕ)
    → IsByte p
    → IsByte q
    → p ≢ q
    → value (front ++ (p ∷ back)) ≢ value (front ++ (q ∷ back))
unfolding value
value_detects front back p q hp hq differ same =
    differ (update_detects init front back p q (omega arith) hp hq (finish_injective _ _ same))
