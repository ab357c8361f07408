-- ===== src/IndexFile/Stream.antt =====
-- Reading a stream of bytes: a reader takes its value off the front, or fails.
use aster_vec.Base.{
  ℕ, zero, suc, ◌^◌, ◌<◌, ◌≡◌, ap, ap₂, sym, ◌∙◌, Bool, true, false, List, [], ◌∷◌, ◌++◌, length,
  length-append, take, drop, take-append, drop-append, leb, le→leb, if_true, arith, if◌then◌else◌,
}
use mathlib.Core.List.{append_assoc}
use aster_vec.Base.Bytes.{Bytes, le_bytes, le_value, length-le_bytes, le_value-le_bytes}
use aster_vec.Base.Status.{Code, Result, ok, err, io_error}

abbrev pub Reader : Type 0 → Type 0
Reader A = Bytes → Result (A × Bytes)

abbrev pub read : {A : Type 0} → A → Reader A
read a bytes = ok (a, bytes)

abbrev pub refuse : {A : Type 0} → Code → Reader A
refuse c bytes = err c

abbrev pub continue : {A B : Type 0} → (A → Reader B) → Result (A × Bytes) → Result (B × Bytes)
continue k (err c) = err c
continue k (ok (a, rest)) = k a rest

infixl 5 ◌>>=◌ ◌>>◌
abbrev pub ◌>>=◌ : {A B : Type 0} → Reader A → (A → Reader B) → Reader B
◌>>=◌ m k bytes = continue k (m bytes)

abbrev pub ◌>>◌ : {A B : Type 0} → Reader A → Reader B → Reader B
m >> k = m >>= λ _. k

-- What is left of the stream.
abbrev pub bytes_left : Reader ℕ
bytes_left bytes = ok (length bytes, bytes)

abbrev pub refuse_if : Bool → Code → Reader (Unit {0})
refuse_if true c = refuse c
refuse_if false c = read tt

-- `ReadValue` of an unsigned number of so many bytes.
unfoldable pub read_value : ℕ → Reader ℕ
read_value k bytes =
    if leb k (length bytes) then ok (le_value (take k bytes), drop k bytes) else err io_error

-- So many rounds of a loop of reads.
unfoldable pub read_many : {A : Type 0} → ℕ → Reader A → Reader (List A)
read_many zero m = read []
read_many (suc n) m = do a ← m; rest ← read_many n m; read (a ∷ rest)

-- A number that was written is read back, and the rest is left.
pub read_value-le_bytes :
    (k n : ℕ) (rest : Bytes) → n < 256 ^ k → read_value k (le_bytes k n ++ rest) ≡ ok (n, rest)
unfolding read_value
read_value-le_bytes k n rest h =
    if_true _ _ (
      le→leb k (length (le_bytes k n ++ rest))
        (omega (arith, length-append (le_bytes k n) rest, length-le_bytes k n)))
    ∙ ap₂ (λ a b. ok (a, b))
        (ap le_value (take-append (le_bytes k n) rest k (sym (length-le_bytes k n)))
          ∙ le_value-le_bytes k n h)
        (drop-append (le_bytes k n) rest k (sym (length-le_bytes k n)))

-- The same inside of a longer block.
pub read_value-front :
    (k n : ℕ) (block rest : Bytes)
    → n < 256 ^ k
    → read_value k ((le_bytes k n ++ block) ++ rest) ≡ ok (n, block ++ rest)
read_value-front k n block rest h =
    ap (read_value k) (append_assoc (le_bytes k n) block rest)
    ∙ read_value-le_bytes k n (block ++ rest) h
