-- ===== src/Bloom.antt =====
-- src/bloom_filter.cc: the Bloom filter in front of the id map. Floating-point arithmetic is a
-- parameter: `Rate` holds what it gives for one false-positive rate.
pub mod Contains
mod Tests
use Prim.Native.Nat.{bit_and, bit_or, bit_xor}
use aster_vec.Base.{
  ℕ, zero, suc, ◌+◌, ◌*◌, ◌/◌, ◌%◌, ◌^◌, Bool, true, false, ◌++◌, List, [], ◌∷◌, Option, none, some,
  ltb, ◌==◌, if◌then◌else◌, get_or, set, replicate,
}
use aster_vec.Base.Bytes.{Bytes, le_bytes}

pub record Bloom : Type 0 where
  pub bits : List ℕ
  pub bit_count : ℕ
  pub num_hash : ℕ
  pub capacity : ℕ
  pub inserts : ℕ

-- `BloomFilter()`.
abbrev pub no_filter : Bloom
no_filter = record { bits = []; bit_count = 0; num_hash = 0; capacity = 0; inserts = 0 }

-- A rate p: whether 0 < p < 1, the rounded-up -n ln p / (ln 2)^2 and -ln p / ln 2, and whether a
-- ratio of inserts to capacity is at least 0.7.
pub record Rate : Type 0 where
  pub in_range : Bool
  pub raw_bits : ℕ → ℕ
  pub raw_hashes : ℕ
  pub full : ℕ → ℕ → Bool

abbrev pub hash1_seed : ℕ
hash1_seed = 0x243f_6a88_85a3_08d3

abbrev pub hash2_seed : ℕ
hash2_seed = 0xb7e1_5162_8aed_2a6b

unfoldable pub splitmix64 : ℕ → ℕ
splitmix64 x0 =
    let x1 = (x0 + 0x9e37_79b9_7f4a_7c15) % 2 ^ 64 in
    let x2 = bit_xor x1 (x1 / 2 ^ 30) * 0xbf58_476d_1ce4_e5b9 % 2 ^ 64 in
    let x3 = bit_xor x2 (x2 / 2 ^ 27) * 0x94d0_49bb_1331_11eb % 2 ^ 64 in bit_xor x3 (x3 / 2 ^ 31)

unfoldable pub hash1 : ℕ → ℕ
hash1 key = splitmix64 (bit_xor key hash1_seed)

unfoldable pub hash2 : ℕ → ℕ
hash2 key = bit_or (splitmix64 (bit_xor key hash2_seed)) 1

unfoldable pub bits_for : Rate → ℕ → ℕ
bits_for rate n =
    if n == 0 then 0 else (let bits = rate.raw_bits n in if ltb bits 64 then 64 else bits)

unfoldable pub hash_count_for : Rate → ℕ
hash_count_for rate =
    let count = (if ltb rate.raw_hashes 1 then 1 else rate.raw_hashes) in
    if ltb 32 count then 32 else count

-- `allocate_for` on a filter whose other fields are set.
unfoldable pub allocate_for : ℕ → Bloom → Bloom
allocate_for bit_count f = record f {
  bit_count = bit_count;
  bits = replicate ((bit_count + 63) % 2 ^ 64 / 64) 0;
}

-- `none`: it throws `std::invalid_argument`.
unfoldable pub reset : Rate → ℕ → Bloom → Option Bloom
reset rate new_capacity f =
    if rate.in_range
    then some (
        allocate_for (bits_for rate new_capacity)
          (record f { capacity = new_capacity; inserts = 0; num_hash = hash_count_for rate }))
    else none

-- `bits_[bit >> 6] |= (1ULL << (bit & 63))`.
unfoldable pub set_bit : ℕ → List ℕ → List ℕ
set_bit bit bits =
    set bits (bit / 2 ^ 6) (bit_or (get_or bits (bit / 2 ^ 6) 0) (2 ^ bit_and bit 63))

unfoldable pub has_bit : ℕ → List ℕ → Bool
has_bit bit bits =
    if bit_and (get_or bits (bit / 2 ^ 6) 0) (2 ^ bit_and bit 63) == 0 then false else true

-- The rounds of the loop of `add` that are left.
unfoldable pub set_probes : ℕ → ℕ → ℕ → ℕ → List ℕ → List ℕ
set_probes zero bit_count probe h2 bits = bits
set_probes (suc k) bit_count probe h2 bits =
    set_probes k bit_count ((probe + h2) % 2 ^ 64) h2 (set_bit (probe % bit_count) bits)

unfoldable pub add : ℕ → Bloom → Bloom
add key f = if f.bit_count == 0 then f else record f {
  bits = set_probes f.num_hash f.bit_count (hash1 key) (hash2 key) f.bits;
  inserts = (f.inserts + 1) % 2 ^ 64;
}

-- The rounds of the loop of `might_contain` that are left.
unfoldable pub has_probes : ℕ → ℕ → ℕ → ℕ → List ℕ → Bool
has_probes zero bit_count probe h2 bits = true
has_probes (suc k) bit_count probe h2 bits =
    let rest = has_probes k bit_count ((probe + h2) % 2 ^ 64) h2 bits in
    if has_bit (probe % bit_count) bits then rest else false

unfoldable pub might_contain : ℕ → Bloom → Bool
might_contain key f =
    if f.bit_count == 0
    then false
    else has_probes f.num_hash f.bit_count (hash1 key) (hash2 key) f.bits
