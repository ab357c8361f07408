-- ===== src/Bloom/Contains.antt =====
-- A Bloom filter never denies a key that was added.
use Prim.Native.Nat.{bit_and, bit_or}
use native.Mathlib.Nat.{one-le-pow, mod-lt}
use aster_vec.Base.{
  ℕ, zero, suc, ◌+◌, ◌*◌, ◌/◌, ◌%◌, ◌^◌, ◌<◌, ◌≤◌, ◌≡◌, refl, ap, sym, ◌∙◌, true, false, List, [],
  ◌∷◌, some, arith, length, length-set, ◌==◌, ne→==, if_true, if_false, if◌then◌else◌, get_or, set,
  replicate, Bool-cases, inl, inr,
}
use aster_vec.Base.Bits.{and-or_left, and-or_right, and_self}
use aster_vec.Bloom.{
  Bloom, Rate, bits_for, allocate_for, reset, set_bit, has_bit, set_probes, add, has_probes,
  might_contain, hash1, hash2,
}

-- The words hold all bits, and there are bits.
pub record IsValid (f : Bloom) : Type 0 where
  pub some_bits : 0 < f.bit_count
  pub words : f.bit_count ≤ 64 * length f.bits

word_kept :
    (xs : List ℕ) (i j m t : ℕ)
    → bit_and (get_or xs j 0) t ≤ bit_and (get_or (set xs i (bit_or (get_or xs i 0) m)) j 0) t
word_kept [] i j m t = omega arith
word_kept (x ∷ xs) zero zero m t = and-or_left x m t
word_kept (x ∷ xs) zero (suc j) m t = omega arith
word_kept (x ∷ xs) (suc i) zero m t = omega arith
word_kept (x ∷ xs) (suc i) (suc j) m t = word_kept xs i j m t

word_set :
    (xs : List ℕ) (i m : ℕ)
    → i < length xs
    → m ≤ bit_and (get_or (set xs i (bit_or (get_or xs i 0) m)) i 0) m
word_set [] i m h = absurd (omega arith)
word_set (x ∷ xs) zero m h = omega (arith, and-or_right x m m, and_self m)
word_set (x ∷ xs) (suc i) m h = word_set xs i m (omega arith)

test_pos : (n : ℕ) → 0 < n → (if n == 0 then false else true) ≡ true
test_pos n h = if_false _ _ (ne→== n 0 (omega arith))

pos_test : (n : ℕ) → (if n == 0 then false else true) ≡ true → 0 < n
pos_test n h = ground arith

has_bit-kept : (i j : ℕ) (bits : List ℕ) → has_bit j bits ≡ true → has_bit j (set_bit i bits) ≡ true
unfolding has_bit set_bit
has_bit-kept i j bits h = test_pos _ (
    omega (
      arith,
      pos_test _ h,
      word_kept bits (i / 2 ^ 6) (j / 2 ^ 6) (2 ^ bit_and i 63) (2 ^ bit_and j 63),
    ))

has_bit-set_bit : (i : ℕ) (bits : List ℕ) → i < 64 * length bits → has_bit i (set_bit i bits) ≡ true
unfolding has_bit set_bit
has_bit-set_bit i bits h = test_pos _ (
    omega (
      arith,
      one-le-pow (bit_and i 63) 2 (omega arith),
      word_set bits (i / 2 ^ 6) (2 ^ bit_and i 63) (omega arith),
    ))

length-set_bit : (i : ℕ) (bits : List ℕ) → length (set_bit i bits) ≡ length bits
unfolding set_bit
length-set_bit i bits = length-set bits _ _

abbrev Extends : List ℕ → List ℕ → Type 0
Extends bits bits' = (j : ℕ) → has_bit j bits ≡ true → has_bit j bits' ≡ true

set_probes-Extends :
    (k m probe h2 : ℕ) (bits : List ℕ) → Extends bits (set_probes k m probe h2 bits)
unfolding set_probes
set_probes-Extends zero m probe h2 bits j h = h
set_probes-Extends (suc k) m probe h2 bits j h =
    set_probes-Extends k m _ h2 (set_bit (probe % m) bits) j (has_bit-kept (probe % m) j bits h)

length-set_probes :
    (k m probe h2 : ℕ) (bits : List ℕ) → length (set_probes k m probe h2 bits) ≡ length bits
unfolding set_probes
length-set_probes zero m probe h2 bits = refl
length-set_probes (suc k) m probe h2 bits =
    length-set_probes k m _ h2 (set_bit (probe % m) bits) ∙ length-set_bit (probe % m) bits

has_probes-Extends :
    (k m probe h2 : ℕ) (bits bits' : List ℕ)
    → Extends bits bits'
    → has_probes k m probe h2 bits ≡ true
    → has_probes k m probe h2 bits' ≡ true
unfolding has_probes
has_probes-Extends zero m probe h2 bits bits' e h = refl
has_probes-Extends (suc k) m probe h2 bits bits' e h =
    elim (Bool-cases (has_bit (probe % m) bits)) [
      | inl set ↦
          if_true _ _ (e (probe % m) set)
          ∙ has_probes-Extends k m _ h2 bits bits' e (sym (if_true _ _ set) ∙ h)
      | inr clear ↦ absurd (cc (sym (if_false _ _ clear) ∙ h))
    ]

has_probes-set_probes :
    (k m probe h2 : ℕ) (bits : List ℕ)
    → 0 < m
    → m ≤ 64 * length bits
    → has_probes k m probe h2 (set_probes k m probe h2 bits) ≡ true
unfolding has_probes set_probes
has_probes-set_probes zero m probe h2 bits pos fits = refl
has_probes-set_probes (suc k) m probe h2 bits pos fits =
    if_true _ _ (
      set_probes-Extends k m _ h2 (set_bit (probe % m) bits) (probe % m)
        (has_bit-set_bit (probe % m) bits (omega (arith, mod-lt probe pos))))
    ∙ has_probes-set_probes k m _ h2 (set_bit (probe % m) bits) pos
        (omega (arith, length-set_bit (probe % m) bits))

module _ (f : Bloom) (valid : IsValid f) where
  some_count : (f.bit_count == 0) ≡ false
  some_count = ne→== _ 0 (omega (arith, valid.some_bits))

  pub add-IsValid : (key : ℕ) → IsValid (add key f)
  unfolding add
  add-IsValid key = rw some_count (record {
    some_bits = valid.some_bits;
    words = omega (
      arith,
      valid.words,
      length-set_probes f.num_hash f.bit_count (hash1 key) (hash2 key) f.bits,
    );
  })

  -- A key that was just added is contained.
  pub might_contain-add : (key : ℕ) → might_contain key (add key f) ≡ true
  unfolding might_contain add
  might_contain-add key =
      rw (some_count, some_count)
        (has_probes-set_probes f.num_hash f.bit_count (hash1 key) (hash2 key) f.bits valid.some_bits
          valid.words)

  -- Adding a key keeps all others.
  pub might_contain-kept :
      (key other : ℕ) → might_contain other f ≡ true → might_contain other (add key f) ≡ true
  unfolding might_contain add
  might_contain-kept key other h =
      rw (some_count, some_count)
        (has_probes-Extends f.num_hash f.bit_count (hash1 other) (hash2 other) f.bits _
          (set_probes-Extends f.num_hash f.bit_count (hash1 key) (hash2 key) f.bits)
          (sym (if_false _ _ some_count) ∙ h))

length-replicate : (n v : ℕ) → length (replicate n v) ≡ n
length-replicate zero v = refl
length-replicate (suc n) v = ap suc (length-replicate n v)

bits_for-bounds :
    (rate : Rate) (n : ℕ)
    → 0 < n
    → rate.raw_bits n + 127 < 2 ^ 64
    → (0 < bits_for rate n) × (bits_for rate n + 63 < 2 ^ 64)
unfolding bits_for
bits_for-bounds rate n pos fits = rw (ne→== n 0 (omega (arith, pos))) (ground arith)

-- A filter for a positive capacity is valid, where its size in bits fits a word.
pub reset-IsValid :
    (rate : Rate) (n : ℕ) (f : Bloom)
    → rate.in_range ≡ true
    → 0 < n
    → rate.raw_bits n + 127 < 2 ^ 64
    → (g : Bloom) × (reset rate n f ≡ some g) × IsValid g × (g.capacity ≡ n)
unfolding reset allocate_for
reset-IsValid rate n f in_range pos fits = (
  _,
  if_true _ _ in_range,
  record {
    some_bits = bounds.0;
    words = omega (arith, bounds.1, length-replicate ((bits_for rate n + 63) % 2 ^ 64 / 64) 0);
  },
  refl,
)
  where
    bounds : (0 < bits_for rate n) × (bits_for rate n + 63 < 2 ^ 64)
    bounds = bits_for-bounds rate n pos fits
