-- ===== src/PointId/Tests.antt =====
-- Point ids at concrete inputs.
use aster_vec.Base.{◌≡◌, refl, ◌∷◌, ◌++◌, replicate, some, arith, length}
use aster_vec.Base.Bytes.{Bytes}
use aster_vec.PointId.{PointId, int, str, encode, decode, is_canonical_uuid, uuid_chars}
use aster_vec.PointId.RoundTrip.{decode-encode}

-- A text in the canonical form.
abbrev uuid_text : Bytes
uuid_text =
    replicate 8 b'0'
    ++ (b'-'
        ∷ (replicate 4 b'9'
            ++ (b'-'
                ∷ (replicate 4 b'a' ++ (b'-' ∷ (replicate 4 b'f' ++ (b'-' ∷ replicate 12 b'c')))))))

uuid_is_short : length (encode (str uuid_text)) ≡ 17
unfolding encode aster_vec.PointId.pack is_canonical_uuid uuid_chars aster_vec.PointId.is_hex
uuid_is_short = refl

seven_differs : decode (encode (int 7)) ≡ some (int 7)
seven_differs = decode-encode (int 7) (omega arith)

decode-encode_example : decode (encode (str uuid_text)) ≡ some (str uuid_text)
decode-encode_example = decode-encode (str uuid_text) tt
