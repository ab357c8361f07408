-- ===== src/BigEndian/Laws.antt =====
-- Big-endian bytes give the number back, and stand in the order of the numbers.
use Prim.Native.Nat.{bit_and, bit_or}
use native.Mathlib.Nat.{pow-suc}
use aster_vec.Base.{
  ℕ, zero, suc, ◌*◌, ◌/◌, ◌%◌, ◌^◌, ◌<◌, ◌≡◌, refl, ap, sym, ◌∙◌, ◌&&◌, ◌||◌, [], ◌∷◌, ◌++◌, arith,
  length, length-append, ltb, ◌==◌,
}
use aster_vec.Base.Bytes.{Bytes, same_bytes}
use aster_vec.Base.Bits.{and_low, or_fields}
use aster_vec.BigEndian.{be_bytes, be_value, bytes_less}

pub length-be_bytes : (k n : ℕ) → length (be_bytes k n) ≡ k
unfolding be_bytes
length-be_bytes zero n = refl
length-be_bytes (suc k) n =
    length-append (be_bytes k (n / 256)) _ ∙ omega (arith, length-be_bytes k (n / 256))

be_value-snoc :
    (v : ℕ) (bs : Bytes) (b : ℕ)
    → be_value v (bs ++ (b ∷ [])) ≡ bit_or (be_value v bs * 2 ^ 8 % 2 ^ 64) b
unfolding be_value
be_value-snoc v [] b = refl
be_value-snoc v (x ∷ bs) b = be_value-snoc (bit_or (v * 2 ^ 8 % 2 ^ 64) x) bs b

low_byte : (n : ℕ) → bit_and n 0xff ≡ n % 256
low_byte n = and_low 8 n

-- The bytes of a 64-bit number give it back.
pub be_value-be_bytes : (k n : ℕ) → n < 256 ^ k → n < 2 ^ 64 → be_value 0 (be_bytes k n) ≡ n
unfolding be_bytes
be_value-be_bytes zero n small fits = unfold be_value in omega arith
be_value-be_bytes (suc k) n small fits =
    be_value-snoc 0 (be_bytes k (n / 256)) (bit_and n 0xff)
    ∙ rw (be_value-be_bytes k (n / 256) (omega (arith, pow-suc 256 k)) (omega arith), low_byte n)
        (ap (λ (high : ℕ). bit_or high (n % 256)) whole
          ∙ or_fields 8 (n / 256) (n % 256) (omega arith)
          ∙ omega arith)
  where
    whole : n / 256 * 2 ^ 8 % 2 ^ 64 ≡ n / 256 * 2 ^ 8
    whole = omega arith

same_bytes-snoc :
    (xs ys : Bytes) (x y : ℕ)
    → length xs ≡ length ys
    → same_bytes (xs ++ (x ∷ [])) (ys ++ (y ∷ [])) ≡ (same_bytes xs ys && x == y)
unfolding same_bytes
same_bytes-snoc [] [] x y h = ground arith
same_bytes-snoc [] (b ∷ ys) x y h = absurd (omega arith)
same_bytes-snoc (a ∷ xs) [] x y h = absurd (omega arith)
same_bytes-snoc (a ∷ xs) (b ∷ ys) x y h =
    rw (same_bytes-snoc xs ys x y (omega arith)) (ground arith)

bytes_less-snoc :
    (xs ys : Bytes) (x y : ℕ)
    → length xs ≡ length ys
    → bytes_less (xs ++ (x ∷ [])) (ys ++ (y ∷ []))
      ≡ (bytes_less xs ys || (same_bytes xs ys && ltb x y))
unfolding bytes_less same_bytes
bytes_less-snoc [] [] x y h = ground arith
bytes_less-snoc [] (b ∷ ys) x y h = absurd (omega arith)
bytes_less-snoc (a ∷ xs) [] x y h = absurd (omega arith)
bytes_less-snoc (a ∷ xs) (b ∷ ys) x y h =
    rw (bytes_less-snoc xs ys x y (omega arith)) (ground arith)

same_length : (k a b : ℕ) → length (be_bytes k a) ≡ length (be_bytes k b)
same_length k a b = length-be_bytes k a ∙ sym (length-be_bytes k b)

pub same_bytes-be_bytes :
    (k a b : ℕ) → a < 256 ^ k → b < 256 ^ k → same_bytes (be_bytes k a) (be_bytes k b) ≡ (a == b)
unfolding be_bytes
same_bytes-be_bytes zero a b p q = unfold same_bytes in ground arith
same_bytes-be_bytes (suc k) a b p q =
    same_bytes-snoc _ _ _ _ (same_length k (a / 256) (b / 256))
    ∙ rw
        (
          low_byte a,
          low_byte b,
          same_bytes-be_bytes k (a / 256) (b / 256) (omega (arith, pow-suc 256 k))
              (omega (arith, pow-suc 256 k)),
        )
        (ground arith)

-- The bytes of two numbers of the same width stand in the order of the numbers.
pub bytes_less-be_bytes :
    (k a b : ℕ) → a < 256 ^ k → b < 256 ^ k → bytes_less (be_bytes k a) (be_bytes k b) ≡ ltb a b
unfolding be_bytes
bytes_less-be_bytes zero a b p q = unfold bytes_less in ground arith
bytes_less-be_bytes (suc k) a b p q =
    bytes_less-snoc _ _ _ _ (same_length k (a / 256) (b / 256))
    ∙ rw
        (
          low_byte a,
          low_byte b,
          same_bytes-be_bytes k (a / 256) (b / 256) high_a high_b,
          bytes_less-be_bytes k (a / 256) (b / 256) high_a high_b,
        )
        (ground arith)
  where
    high_a : a / 256 < 256 ^ k
    high_a = omega (arith, pow-suc 256 k)

    high_b : b / 256 < 256 ^ k
    high_b = omega (arith, pow-suc 256 k)
