-- ===== src/Crc/Tests.antt =====
-- The checksum at concrete inputs.
use aster_vec.Base.{◌≢◌, ◌≡◌, refl, [], ◌∷◌, ◌++◌, arith}
use aster_vec.Crc.{value}
use aster_vec.Crc.Detect.{value_detects}

-- The check value of this CRC, of the text 123456789.
value_check :
    value (b'1' ∷ b'2' ∷ b'3' ∷ b'4' ∷ b'5' ∷ b'6' ∷ b'7' ∷ b'8' ∷ b'9' ∷ []) ≡ 0xCBF4_3926
unfolding value
value_check = refl

value_detects_example : value ((1 ∷ []) ++ (2 ∷ (3 ∷ []))) ≢ value ((1 ∷ []) ++ (4 ∷ (3 ∷ [])))
value_detects_example =
    value_detects (1 ∷ []) (3 ∷ []) 2 4 (omega arith) (omega arith) (omega arith)
