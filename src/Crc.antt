-- ===== src/Crc.antt =====
-- include/crc32.h: the reflected, table-driven CRC-32 that guards log records and checkpoints.
-- A 32-bit register is a number, its bounds are proved in the modules below.
pub mod Detect
mod Tests
use Prim.Native.Nat.{bit_and, bit_xor}
use aster_vec.Base.{ℕ, zero, suc, ◌+◌, ◌*◌, ◌/◌, List, [], ◌∷◌, ◌==◌, get_or, if◌then◌else◌}
use aster_vec.Base.Bytes.{Bytes}

abbrev pub init : ℕ
init = 0xffff_ffff

-- One round of the inner loop: `(c & 1) ? 0xEDB88320u ^ (c >> 1) : (c >> 1)`.
table_round : ℕ → ℕ
table_round c = if bit_and c 1 == 1 then bit_xor 0xEDB8_8320 (c / 2) else c / 2

table_rounds : ℕ → ℕ → ℕ
unfolding table_round
table_rounds zero c = c
table_rounds (suc k) c = table_rounds k (table_round c)

-- The entries from index `i` on.
table_from : ℕ → ℕ → List ℕ
unfolding table_rounds
table_from zero i = []
table_from (suc n) i = table_rounds 8 i ∷ table_from n (i + 1)

table : List ℕ
unfolding table_from
table = table_from 256 0

-- The index is masked to a byte, so the default is never read.
update_byte : ℕ → ℕ → ℕ
unfolding table
update_byte crc p = bit_xor (get_or table (bit_and (bit_xor crc p) 0xff) 0) (crc / 256)

unfoldable pub update_crc : ℕ → Bytes → ℕ
unfolding update_byte
update_crc crc [] = crc
update_crc crc (p ∷ rest) = update_crc (update_byte crc p) rest

unfoldable pub finish : ℕ → ℕ
finish crc = bit_xor crc 0xffff_ffff

unfoldable pub value : Bytes → ℕ
unfolding update_crc finish
value bytes = finish (update_crc init bytes)
