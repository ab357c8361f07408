-- ===== src/OpLog/Kept.antt =====
-- The segments that `OpLog::Open` keeps and those that it removes, in src/oplog.cc.
use mathlib.Core.List.{append_assoc, append-nil}
use mathlib.Core.Path.{subst}
use aster_vec.Base.{
  ℕ, ◌+◌, ◌^◌, ◌<◌, ◌≤◌, ◌≡◌, refl, ap, sym, ◌∙◌, Bool, true, List, [], ◌∷◌, ◌++◌, map, arith,
  length, leb, le→leb, lt→leb, All, if_true, if_false, if◌then◌else◌,
}
use native.Mathlib.Decide.{dec_le}
use aster_vec.OpLog.Record.{OpRecord}
use aster_vec.OpLog.Names.{Segment, segment_name, remove_file}
use aster_vec.Base.Bytes.{same_bytes_refl}
use aster_vec.OpLog.NameLaws.{same_bytes-segment_name_ne}
use aster_vec.OpLog.Groups.{
  Group, number, file_of, segment_of, all_records, all_records-cons, Chain, Chain-le, IsFilled,
}
use aster_vec.OpLog.Refine.{fresh, IsFilled-snoc, snoc-IsFilled, Chain-last}
use aster_vec.OpLog.Represents.{parse_nothing}
use aster_vec.OpLog.Writer.{remove_stale}

-- The segments that begin before `end`.
unfoldable pub kept : ℕ → List Group → List Group
kept end [] = []
kept end (g ∷ gs) = let rest = kept end gs in if leb end g.first then rest else g ∷ rest

kept_nil : (end : ℕ) → kept end [] ≡ []
unfolding kept
kept_nil end = refl

module _ (end : ℕ) (g : Group) (gs : List Group) where
  kept_stale : end ≤ g.first → kept end (g ∷ gs) ≡ kept end gs
  unfolding kept
  kept_stale h = rw (le→leb end g.first h)

  kept_old : g.first < end → kept end (g ∷ gs) ≡ g ∷ kept end gs
  unfolding kept
  kept_old h = rw (lt→leb end g.first h)

number_nothing : (n : ℕ) (rs : List OpRecord) → length rs ≡ 0 → number n rs ≡ []
unfolding number
number_nothing n [] h = refl
number_nothing n (r ∷ rs) h = absurd (omega arith)

empty_group :
    (g : Group) (gs : List Group) → length g.records ≡ 0 → all_records (g ∷ gs) ≡ all_records gs
unfolding all_records
empty_group g gs h = ap (λ rs. rs ++ all_records gs) (number_nothing g.first g.records h)

-- The file of the last segment is removed from behind the others.
remove_file-last :
    (n end : ℕ) (gs : List Group) (c : Group)
    → Chain n end (gs ++ (c ∷ []))
    → end < 2 ^ 64
    → end ≤ c.first
    → remove_file (segment_name c.first) (map file_of (gs ++ (c ∷ []))) ≡ map file_of gs
unfolding remove_file
remove_file-last n end [] c h he stale = rw (same_bytes_refl (segment_name c.first))
remove_file-last n end (g ∷ gs) c h he stale =
    rw
      (same_bytes-segment_name_ne g.first c.first (omega (arith, before, ends))
        (omega (arith, ends)) (omega (arith, before)))
      (ap (λ fs. file_of g ∷ fs) (remove_file-last (n + length g.records) end gs c h.4 he stale))
  where
    ends : c.first + length c.records ≡ end
    ends = (Chain-last (n + length g.records) end gs c h.4).1

    before : g.first < c.first
    before =
        omega
          (arith, h.0, IsFilled-snoc gs c g h.3, (Chain-last (n + length g.records) end gs c h.4).0)

Chain-suffix :
    (n end : ℕ) (pre gs : List Group) → Chain n end (pre ++ gs) → (m : ℕ) × Chain m end gs
Chain-suffix n end [] gs h = (n, h)
Chain-suffix n end (g ∷ pre) gs h = Chain-suffix (n + length g.records) end pre gs h.4

module _ (removes : Segment → Bool) (removed : (seg : Segment) → removes seg ≡ true) where
  pub remove_stale-Chain :
      (n end : ℕ) (pre gs : List Group)
      → Chain n end (pre ++ gs)
      → end < 2 ^ 64
      → remove_stale removes end (map segment_of gs) (map file_of (pre ++ gs))
        ≡ (true, map file_of (pre ++ kept end gs))
  unfolding remove_stale
  remove_stale-Chain n end pre [] h he =
      ap (λ gs. (true, map file_of (pre ++ gs))) (sym (kept_nil end))
  remove_stale-Chain n end pre (g ∷ []) h he = elim (dec_le end g.first) [
    | yes stale ↦
        if_true _ _ (le→leb end g.first stale)
        ∙ if_true _ _ (removed (segment_of g))
        ∙ ap (λ fs. (true, fs))
            (remove_file-last n end pre g h he stale
              ∙ ap (map file_of) (
                  sym (
                    ap (λ gs. pre ++ gs) (kept_stale end g [] stale ∙ kept_nil end)
                    ∙ append-nil pre)))
    | no old ↦
        if_false _ _ (lt→leb end g.first (omega arith))
        ∙ ap (λ gs. (true, map file_of (pre ++ gs)))
            (sym (kept_old end g [] (omega arith) ∙ ap (λ rest. g ∷ rest) (kept_nil end)))
  ]
  remove_stale-Chain n end pre (g ∷ k ∷ more) h he =
      if_false _ _ (lt→leb end g.first old)
      ∙ ap (λ gs. remove_stale removes end (map segment_of (k ∷ more)) (map file_of gs))
          (sym regroup)
      ∙ remove_stale-Chain n end (pre ++ (g ∷ [])) (k ∷ more) (subst (Chain n end) (sym regroup) h)
          he
      ∙ ap (λ gs. (true, map file_of gs))
          (append_assoc pre (g ∷ []) (kept end (k ∷ more))
            ∙ ap (λ gs. pre ++ gs) (sym (kept_old end g (k ∷ more) old)))
    where
      regroup : (pre ++ (g ∷ [])) ++ (k ∷ more) ≡ pre ++ (g ∷ k ∷ more)
      regroup = append_assoc pre (g ∷ []) (k ∷ more)

      old : g.first < end
      old =
          let (m, c) = Chain-suffix n end pre (g ∷ k ∷ more) h in
          omega (arith, c.0, c.3, Chain-le (m + length g.records) end (k ∷ more) c.4)

pub kept_before : (end : ℕ) (gs : List Group) → All (λ (g : Group). g.first < end) (kept end gs)
kept_before end [] = subst (All (λ (g : Group). g.first < end)) (sym (kept_nil end)) tt
kept_before end (g ∷ gs) = elim (dec_le end g.first) [
  | yes stale ↦
      subst (All (λ (g : Group). g.first < end)) (sym (kept_stale end g gs stale))
        (kept_before end gs)
  | no old ↦
      subst (All (λ (g : Group). g.first < end)) (sym (kept_old end g gs (omega arith)))
        (omega arith, kept_before end gs)
]

filled_of :
    (n end : ℕ) (g : Group) (gs : List Group)
    → Chain n end (g ∷ gs)
    → g.first < end
    → 0 < length g.records
filled_of n end g [] h old = omega (arith, h.0, h.4)
filled_of n end g (k ∷ gs) h old = h.3

pub kept-Chain :
    (n end : ℕ) (gs : List Group) → Chain n end gs → Chain n end (kept end gs ++ (fresh end ∷ []))
kept-Chain n end [] h =
    subst (λ gs. Chain n end (gs ++ (fresh end ∷ []))) (sym (kept_nil end))
      (sym h, tt, parse_nothing, tt, omega (arith, h))
kept-Chain n end (g ∷ gs) h = elim (dec_le end g.first) [
  | yes stale ↦
      let same : n + length g.records ≡ n =
        omega (arith, Chain-le (n + length g.records) end gs h.4, h.0, stale) in
      subst (λ gs. Chain n end (gs ++ (fresh end ∷ []))) (sym (kept_stale end g gs stale))
        (subst (λ m. Chain m end (kept end gs ++ (fresh end ∷ []))) same
          (kept-Chain (n + length g.records) end gs h.4))
  | no old ↦
      subst (λ gs. Chain n end (gs ++ (fresh end ∷ []))) (sym (kept_old end g gs (omega arith)))
        (
          h.0,
          h.1,
          h.2,
          snoc-IsFilled (kept end gs) (fresh end) g (filled_of n end g gs h (omega arith)),
          kept-Chain (n + length g.records) end gs h.4,
        )
]

-- What begins at or behind the end holds no record.
pub kept_records :
    (n end : ℕ) (gs : List Group) → Chain n end gs → all_records (kept end gs) ≡ all_records gs
kept_records n end [] h = ap all_records (kept_nil end)
kept_records n end (g ∷ gs) h = elim (dec_le end g.first) [
  | yes stale ↦
      ap all_records (kept_stale end g gs stale)
      ∙ kept_records (n + length g.records) end gs h.4
      ∙ sym
          (empty_group g gs (omega (arith, Chain-le (n + length g.records) end gs h.4, h.0, stale)))
  | no old ↦
      ap all_records (kept_old end g gs (omega arith))
      ∙ all_records-cons g (kept end gs)
      ∙ ap (λ rs. number g.first g.records ++ rs) (kept_records (n + length g.records) end gs h.4)
      ∙ sym (all_records-cons g gs)
]

pub Chain-kept :
    (n end : ℕ) (gs : List Group) → Chain n end (gs ++ (fresh end ∷ [])) → Chain n end gs
Chain-kept n end [] h = sym h.0
Chain-kept n end (g ∷ gs) h =
    (h.0, h.1, h.2, filled gs, Chain-kept (n + length g.records) end gs h.4)
  where
    filled : (gs' : List Group) → IsFilled gs' g
    filled [] = tt
    filled (k ∷ gs') = IsFilled-snoc gs (fresh end) g h.3
