-- ===== src/BigEndian.antt =====
-- Numbers in big-endian bytes, as src/metadata_store.cc (`EncodeKey`, `LookupKey`) and
-- include/point_id.h lay them out, and the bytewise order of keys.
pub mod Laws
use Prim.Native.Nat.{bit_and, bit_or}
use aster_vec.Base.{
  ℕ, zero, suc, ◌*◌, ◌/◌, ◌%◌, ◌^◌, Bool, true, false, ◌&&◌, ◌||◌, [], ◌∷◌, ◌++◌, ltb, ◌==◌,
}
use aster_vec.Base.Bytes.{Bytes}

-- The loop fills the bytes from the last one on.
unfoldable pub be_bytes : ℕ → ℕ → Bytes
be_bytes zero n = []
be_bytes (suc k) n = be_bytes k (n / 256) ++ (bit_and n 0xff ∷ [])

-- `v = (v << 8) | byte`, in a 64-bit register.
unfoldable pub be_value : ℕ → Bytes → ℕ
be_value v [] = v
be_value v (b ∷ bs) = be_value (bit_or (v * 2 ^ 8 % 2 ^ 64) b) bs

-- Whether a key stands before another one.
unfoldable pub bytes_less : Bytes → Bytes → Bool
bytes_less xs [] = false
bytes_less [] (y ∷ ys) = true
bytes_less (x ∷ xs) (y ∷ ys) = ltb x y || (x == y && bytes_less xs ys)
