-- ===== src/Bloom/Tests.antt =====
-- The filter at concrete inputs.
use aster_vec.Base.{◌≡◌, refl, true, false, arith, replicate}
use aster_vec.Bloom.{Bloom, add, might_contain, splitmix64, has_bit, set_bit, hash1, hash2}
use aster_vec.Bloom.Contains.{IsValid, might_contain-add}

abbrev small_filter : Bloom
small_filter = record {
  bits = replicate 2 0;
  bit_count = 128;
  num_hash = 3;
  capacity = 8;
  inserts = 0;
}

small_filter-IsValid : IsValid small_filter
small_filter-IsValid = record { some_bits = omega arith; words = omega arith }

unseen_key : might_contain 8 (add 7 small_filter) ≡ false
unfolding might_contain add splitmix64 has_bit set_bit hash1 hash2 aster_vec.Bloom.set_probes
    aster_vec.Bloom.has_probes
unseen_key = refl

might_contain-add_example : might_contain 7 (add 7 small_filter) ≡ true
might_contain-add_example = might_contain-add small_filter small_filter-IsValid 7
