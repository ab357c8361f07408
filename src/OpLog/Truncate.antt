-- ===== src/OpLog/Truncate.antt =====
-- `OpLog::TruncateBelow` on a chain of segments: no record from the given lsn on is lost.
use aster_vec.Base.{
  ℕ, ◌+◌, ◌^◌, ◌<◌, ◌≡◌, refl, ap, sym, ◌∙◌, Bool, true, List, [], ◌∷◌, ◌++◌, map, some, arith,
  length, ltb, lt→ltb, le→ltb, if◌then◌else◌, if_true, if_false,
}
use native.Mathlib.Decide.{dec_lt}
use aster_vec.Base.Bytes.{same_bytes_refl}
use aster_vec.Base.Status.{ok}
use aster_vec.OpLog.Names.{Segment, segment_name, remove_file}
use aster_vec.OpLog.NameLaws.{same_bytes-segment_name_ne}
use aster_vec.OpLog.Groups.{
  Group, file_of, segment_of, all_records, Chain, Chain-le, list_segments-Chain,
}
use aster_vec.OpLog.Delivery.{wanted, wanted-all_records, wanted_none}
use aster_vec.OpLog.Writer.{OpLog, remove_below, truncated, truncate_below}

-- The segments that are left: those whose successor begins behind `lsn`, and the last one.
unfoldable pub left_from : ℕ → List Group → List Group
left_from lsn [] = []
left_from lsn (g ∷ []) = g ∷ []
left_from lsn (g ∷ k ∷ more) =
    let rest = left_from lsn (k ∷ more) in if ltb lsn k.first then g ∷ k ∷ more else rest

remove_file-other :
    (a n end : ℕ) (gs : List Group)
    → Chain n end gs
    → a < n
    → end < 2 ^ 64
    → remove_file (segment_name a) (map file_of gs) ≡ map file_of gs
unfolding remove_file
remove_file-other a n end [] h lt fits = refl
remove_file-other a n end (g ∷ gs) h lt fits =
    rw
      (
        same_bytes-segment_name_ne g.first a (omega (arith, h.0, Chain-le n end (g ∷ gs) h))
            (omega (arith, h.0, Chain-le n end (g ∷ gs) h)) (omega (arith, h.0)),
        remove_file-other a (n + length g.records) end gs h.4 (omega arith) fits,
      )
      refl

remove_file-first :
    (n end : ℕ) (g : Group) (gs : List Group)
    → Chain n end (g ∷ gs)
    → 0 < length g.records
    → end < 2 ^ 64
    → remove_file (segment_name g.first) (map file_of (g ∷ gs)) ≡ map file_of gs
unfolding remove_file
remove_file-first n end g gs h filled fits =
    if_true _ _ (same_bytes_refl (segment_name g.first))
    ∙ remove_file-other g.first (n + length g.records) end gs h.4 (omega (arith, h.0)) fits

module _ (removes : Segment → Bool) (removed : (seg : Segment) → removes seg ≡ true) (lsn : ℕ) where
  remove_below-Chain :
      (n end : ℕ) (gs : List Group)
      → Chain n end gs
      → end < 2 ^ 64
      → remove_below removes lsn (map segment_of gs) (map file_of gs)
        ≡ (true, map file_of (left_from lsn gs))
  unfolding remove_below left_from
  remove_below-Chain n end [] h fits = refl
  remove_below-Chain n end (g ∷ []) h fits = refl
  remove_below-Chain n end (g ∷ k ∷ more) h fits = elim (dec_lt lsn k.first) [
    | yes behind ↦ rw (lt→ltb lsn k.first behind) refl
    | no before ↦
        if_false _ _ (le→ltb lsn k.first (omega arith))
        ∙ if_true _ _ (removed (segment_of g))
        ∙ ap (remove_below removes lsn (map segment_of (k ∷ more)))
            (remove_file-first n end g (k ∷ more) h h.3 fits)
        ∙ remove_below-Chain (n + length g.records) end (k ∷ more) h.4 fits
        ∙ ap (λ gs. (true, map file_of gs)) (sym (if_false _ _ (le→ltb lsn k.first (omega arith))))
  ]

  left_records :
      (n end : ℕ) (gs : List Group)
      → Chain n end gs
      → wanted lsn (all_records (left_from lsn gs)) ≡ wanted lsn (all_records gs)
  unfolding left_from
  left_records n end [] h = refl
  left_records n end (g ∷ []) h = refl
  left_records n end (g ∷ k ∷ more) h = elim (dec_lt lsn k.first) [
    | yes behind ↦ rw (lt→ltb lsn k.first behind) refl
    | no before ↦
        ap (λ gs. wanted lsn (all_records gs)) (if_false _ _ (le→ltb lsn k.first (omega arith)))
        ∙ left_records (n + length g.records) end (k ∷ more) h.4
        ∙ ap (λ rs. rs ++ wanted lsn (all_records (k ∷ more)))
            (sym (wanted_none lsn g.first g.records (omega (arith, h.0, h.4.0))))
        ∙ sym (wanted-all_records lsn g (k ∷ more))
  ]

  left-Chain :
      (n end : ℕ) (gs : List Group)
      → Chain n end gs
      → (first : ℕ) × Chain first end (left_from lsn gs)
  unfolding left_from
  left-Chain n end [] h = (n, h)
  left-Chain n end (g ∷ []) h = (n, h)
  left-Chain n end (g ∷ k ∷ more) h =
      let rest = left-Chain (n + length g.records) end (k ∷ more) h.4 in
      elim (dec_lt lsn k.first) [
        | yes behind ↦ rw (lt→ltb lsn k.first behind) (n, h)
        | no before ↦ rw (le→ltb lsn k.first (omega arith)) rest
      ]

  -- Truncating a log that is an intact chain of segments succeeds, leaves an intact chain with the
  -- same end, and keeps every record from the given lsn on, where every file can be removed.
  pub truncate_below-kept :
      (n end : ℕ) (gs : List Group) (log : OpLog)
      → Chain n end gs
      → end < 2 ^ 64
      → log.dir ≡ map file_of gs
      → (gs' : List Group) × (truncate_below removes lsn log
          ≡ some (ok tt, record log { dir = map file_of gs' }))
        × ((first : ℕ) × Chain first end gs')
        × (wanted lsn (all_records gs') ≡ wanted lsn (all_records gs))
  unfolding truncate_below
  truncate_below-kept n end gs log h fits files = (
    left_from lsn gs,
    rw (files, list_segments-Chain n end gs h fits)
        (ap (λ p. some (truncated log p)) (remove_below-Chain n end gs h fits)),
    left-Chain n end gs h,
    left_records n end gs h,
  )
