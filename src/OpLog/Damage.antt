-- ===== src/OpLog/Damage.antt =====
-- What the reader makes of bytes that are not a whole, sound frame: a torn tail and a flipped byte.
use mathlib.Core.List.{append_assoc}
use aster_vec.Base.{
  ℕ, suc, ◌+◌, ◌-◌, ◌<◌, ◌≤◌, ◌≡◌, ◌≢◌, refl, ap, sym, ◌∙◌, ◌∷◌, ◌++◌, none, arith, length,
  length-append, length-drop, take, drop, take-append, drop-append, take-append_le, drop-append_le,
  take-append_add, drop-append_add, lt→ltb, le→ltb, ne→==,
}
use native.Mathlib.Decide.{dec_lt}
use aster_vec.Base.Bytes.{Bytes, IsByte, le_bytes, le_value, length-le_bytes, le_value-le_bytes}
use aster_vec.Crc.{value}
use aster_vec.Crc.Detect.{update_crc-append, value_detects}
use aster_vec.OpLog.Record.{
  OpRecord, IsWritable, body_size, body_tail, body_crc, frame, get_int, parse_frame, fixed_body,
  max_body_bytes, prefix_bytes,
}
use aster_vec.OpLog.RoundTrip.{
  frame_body, body_size-ge, length-frame, length-frame_body, body_crc-lt, parse_frame_lem,
}

-- The length that the reader takes from the front of a frame.
front_size :
    (front back : Bytes) (lsn : ℕ) (r : OpRecord)
    → IsWritable r
    → frame lsn r ≡ front ++ back
    → 4 ≤ length front
    → (get_int 4 front).0 ≡ body_size r
unfolding get_int frame
front_size front back lsn r w e h =
    ap le_value (
      sym (take-append_le front back 4 h)
      ∙ ap (take 4) (sym e)
      ∙ take-append (le_bytes 4 (body_size r)) _ 4 (sym (length-le_bytes 4 (body_size r))))
    ∙ le_value-le_bytes 4 (body_size r) (omega (arith, w.fits))

length-get_int : (k : ℕ) (p : Bytes) → length (get_int k p).1 ≡ length p - k
unfolding get_int
length-get_int k p = length-drop k p

-- A frame that was cut short ends the reading of its segment: no proper prefix of a frame is taken
-- for a record.
pub parse_frame-torn :
    (front back : Bytes) (x lsn : ℕ) (r : OpRecord)
    → IsWritable r
    → frame lsn r ≡ front ++ (x ∷ back)
    → parse_frame front ≡ none
unfolding parse_frame
parse_frame-torn front back x lsn r w e = elim (dec_lt (length front) prefix_bytes) [
  | yes short ↦ rw (lt→ltb _ _ short)
  | no long ↦
      rw
        (
          le→ltb (length front) prefix_bytes (omega arith),
          front_size front (x ∷ back) lsn r w e (omega arith),
          le→ltb (body_size r) fixed_body (body_size-ge r),
          le→ltb max_body_bytes (body_size r) w.fits,
          lt→ltb _ (body_size r) missing,
        )
        refl
]
  where
    missing : length (get_int 4 (get_int 4 front).1).1 < body_size r
    missing =
        rw (length-get_int, length-get_int)
          (omega (
            arith,
            sym (length-frame lsn r) ∙ ap length e ∙ length-append front (x ∷ back),
            body_size-ge r,
          ))

-- The checksum of a body is the plain CRC-32 of its tail followed by its lsn.
body_crc-value : (lsn tail : Bytes) → body_crc lsn tail ≡ value (tail ++ lsn)
unfolding body_crc value
body_crc-value lsn tail = rw update_crc-append

abbrev crc_of : Bytes → ℕ
crc_of body = body_crc (take 8 body) (drop 8 body)

-- The same value with the byte `p` of the body in sight, in the lsn and behind it.
crc_of_lsn :
    (front back : Bytes) (p m : ℕ)
    → 8 ≡ length front + suc m
    → crc_of (front ++ (p ∷ back)) ≡ value ((drop m back ++ front) ++ (p ∷ take m back))
crc_of_lsn front back p m h =
    rw (take-append_add front (p ∷ back) 8 (suc m) h, drop-append_add front (p ∷ back) 8 (suc m) h)
      (body_crc-value (front ++ (p ∷ take m back)) (drop m back)
        ∙ ap value (sym (append_assoc (drop m back) front (p ∷ take m back))))

crc_of_tail :
    (front back : Bytes) (p : ℕ)
    → 8 ≤ length front
    → crc_of (front ++ (p ∷ back)) ≡ value (drop 8 front ++ (p ∷ (back ++ take 8 front)))
crc_of_tail front back p h =
    rw (take-append_le front (p ∷ back) 8 h, drop-append_le front (p ∷ back) 8 h)
      (body_crc-value (take 8 front) (drop 8 front ++ (p ∷ back))
        ∙ ap value (append_assoc (drop 8 front) (p ∷ back) (take 8 front)))

-- One byte of a body, in the lsn or behind it, decides the checksum.
crc_of-ne :
    (front back : Bytes) (p q : ℕ)
    → IsByte p
    → IsByte q
    → p ≢ q
    → crc_of (front ++ (p ∷ back)) ≢ crc_of (front ++ (q ∷ back))
crc_of-ne front back p q hp hq differ same = elim (dec_lt (length front) 8) [
  | yes short ↦
      let m = 7 - length front in
      let split : 8 ≡ length front + suc m = omega arith in
      value_detects (drop m back ++ front) (take m back) p q hp hq differ
        (sym (crc_of_lsn front back p m split) ∙ same ∙ crc_of_lsn front back q m split)
  | no long ↦
      let behind : 8 ≤ length front = omega arith in
      value_detects (drop 8 front) (back ++ take 8 front) p q hp hq differ
        (sym (crc_of_tail front back p behind) ∙ same ∙ crc_of_tail front back q behind)
]

crc_of-frame_body :
    (lsn : ℕ) (r : OpRecord) → crc_of (frame_body lsn r) ≡ body_crc (le_bytes 8 lsn) (body_tail r)
crc_of-frame_body lsn r =
    rw
      (
        take-append (le_bytes 8 lsn) (body_tail r) 8 (sym (length-le_bytes 8 lsn)),
        drop-append (le_bytes 8 lsn) (body_tail r) 8 (sym (length-le_bytes 8 lsn)),
      )
      refl

-- A frame in which one byte of the body has changed, of the lsn or of what stands behind it, ends
-- the reading of its segment, whatever follows it.
pub parse_frame-corrupt :
    (front back rest : Bytes) (p q lsn : ℕ) (r : OpRecord)
    → IsWritable r
    → IsByte p
    → IsByte q
    → p ≢ q
    → frame_body lsn r ≡ front ++ (p ∷ back)
    → parse_frame (
        le_bytes 4 (body_size r)
        ++ (le_bytes 4 (body_crc (le_bytes 8 lsn) (body_tail r))
            ++ ((front ++ (q ∷ back)) ++ rest)))
      ≡ none
parse_frame-corrupt front back rest p q lsn r w hp hq differ e =
    parse_frame_lem r crc (front ++ (q ∷ back)) rest w (body_crc-lt _ _) whole
    ∙ rw (ne→== _ crc changed)
  where
    crc : ℕ
    crc = body_crc (le_bytes 8 lsn) (body_tail r)

    whole : length (front ++ (q ∷ back)) ≡ body_size r
    whole = omega (
      arith,
      length-append front (q ∷ back),
      length-append front (p ∷ back),
      ap length e,
      length-frame_body lsn r,
    )

    changed : crc_of (front ++ (q ∷ back)) ≢ crc
    changed same =
        crc_of-ne front back p q hp hq differ
          (sym (ap crc_of e) ∙ crc_of-frame_body lsn r ∙ sym same)
