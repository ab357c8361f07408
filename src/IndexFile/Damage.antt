-- ===== src/IndexFile/Damage.antt =====
-- A byte that was damaged behind the version of a checkpoint file is noticed.
use aster_vec.Base.{
  ℕ, suc, ◌+◌, ◌-◌, ◌≤◌, ◌≡◌, ◌≢◌, ap, sym, ◌∙◌, true, ◌∷◌, ◌++◌, length, length-append, take, drop,
  take-append_add, drop-append_add, drop-append_le, take-append_le, length-drop, leb, le→ltb, ne→==,
  if_true, if_false, arith,
}
use aster_vec.Base.Bytes.{Bytes, IsByte, le_value}
use aster_vec.Base.Status.{err, corruption}
use aster_vec.Bloom.{Rate}
use aster_vec.Crc
use aster_vec.Crc.Detect.{value_detects}
use aster_vec.IndexFile.{Points, Paged, Index}
use aster_vec.IndexFile.Load.{payload_of, stored_crc, deserialize_metadata}

module _ {P S : Type 0} (points : Points P) (paged : Paged S) (rate : Rate) where
  abbrev file : Bytes → ℕ → Bytes → Bytes
  file front p back = front ++ (p ∷ back)

  module _ (front back : Bytes) (behind_version : 12 ≤ length front)
      (before_crc : 4 ≤ length back) where
    size : (p : ℕ) → length (file front p back) ≡ length front + suc (length back)
    size p = length-append front (p ∷ back)

    payload_lem :
        (p : ℕ)
        → payload_of points paged rate (file front p back)
          ≡ front ++ (p ∷ take (length back - 4) back)
    payload_lem p =
        take-append_add front (p ∷ back) (length (file front p back) - 4) (suc (length back - 4))
          (omega (arith, size p, before_crc))

    stored_lem :
        (p : ℕ)
        → stored_crc points paged rate (file front p back) ≡ le_value (drop (length back - 4) back)
    stored_lem p = ap le_value (
        drop-append_add front (p ∷ back) (length (file front p back) - 4) (suc (length back - 4))
          (omega (arith, size p, before_crc)))

    version_lem : (p : ℕ) → take 4 (drop 8 (file front p back)) ≡ take 4 (drop 8 front)
    version_lem p =
        ap (take 4) (drop-append_le front (p ∷ back) 8 (omega (arith, behind_version)))
        ∙ take-append_le (drop 8 front) (p ∷ back) 4
            (omega (arith, behind_version, length-drop 8 front))

    -- Where a file of version 3 or above carries the checksum of its payload, the file with one
    -- byte between the version and the checksum changed is refused as corrupt.
    pub deserialize_metadata-damaged :
        (p q : ℕ) (ix : Index P S)
        → IsByte p
        → IsByte q
        → p ≢ q
        → leb 3 (le_value (take 4 (drop 8 front))) ≡ true
        → Crc.value (payload_of points paged rate (front ++ (p ∷ back)))
          ≡ stored_crc points paged rate (front ++ (p ∷ back))
        → deserialize_metadata points paged rate ix (front ++ (q ∷ back)) ≡ err corruption
    unfolding deserialize_metadata
    deserialize_metadata-damaged p q ix hp hq differ version sound =
        if_false _ _
          (le→ltb (length (file front q back)) 12 (omega (arith, size q, behind_version)))
        ∙ if_true _ _ (ap (λ (v : Bytes). leb 3 (le_value v)) (version_lem q) ∙ version)
        ∙ if_false _ _ (ne→== _ _ other)
      where
        other :
            Crc.value (payload_of points paged rate (file front q back))
            ≢ stored_crc points paged rate (file front q back)
        other same = value_detects front (take (length back - 4) back) p q hp hq differ (
            sym (ap Crc.value (payload_lem p))
            ∙ sound
            ∙ stored_lem p
            ∙ sym (stored_lem q)
            ∙ sym same
            ∙ ap Crc.value (payload_lem q))
