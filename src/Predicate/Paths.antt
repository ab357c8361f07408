-- ===== src/Predicate/Paths.antt =====
-- The dotted paths of src/metadata.cc.
use aster_vec.Base.{
  ◌≡◌, refl, ap, sym, ◌∙◌, false, [], ◌∷◌, ◌++◌, drop, All, All-append, ◌==◌, ==_iff, if_true,
  if_false, Bool-cases, inl, inr,
}
use mathlib.Core.Path.{subst}
use mathlib.Core.List.{append_assoc}
use aster_vec.Base.Bytes.{Bytes}
use aster_vec.Predicate.Kinds.{FieldPath}
use aster_vec.Predicate.{split_from, split_path}

-- The segments, each behind a dot.
unfoldable pub dotted : FieldPath → Bytes
dotted [] = []
dotted (seg ∷ path) = b'.' ∷ (seg ++ dotted path)

abbrev pub join : FieldPath → Bytes
join path = drop 1 (dotted path)

abbrev pub HasNoDot : Bytes → Type 0
HasNoDot seg = All (λ c. (c == b'.') ≡ false) seg

dotted-split_from : (seg key : Bytes) → dotted (split_from seg key) ≡ b'.' ∷ (seg ++ key)
unfolding split_from dotted
dotted-split_from seg [] = refl
dotted-split_from seg (c ∷ cs) = elim (Bool-cases (c == b'.')) [
  | inl dot ↦
      ap dotted (if_true _ _ dot)
      ∙ ap (λ t. b'.' ∷ (seg ++ t)) (dotted-split_from [] cs)
      ∙ ap (λ d. b'.' ∷ (seg ++ (d ∷ cs))) (sym ((==_iff c b'.').0 dot))
  | inr other ↦
      ap dotted (if_false _ _ other)
      ∙ dotted-split_from (seg ++ (c ∷ [])) cs
      ∙ ap (λ t. b'.' ∷ t) (append_assoc seg (c ∷ []) cs)
]

split_from-HasNoDot : (seg key : Bytes) → HasNoDot seg → All HasNoDot (split_from seg key)
unfolding split_from
split_from-HasNoDot seg [] h = (h, tt)
split_from-HasNoDot seg (c ∷ cs) h = elim (Bool-cases (c == b'.')) [
  | inl dot ↦ subst (All HasNoDot) (sym (if_true _ _ dot)) (h, split_from-HasNoDot [] cs tt)
  | inr other ↦ subst (All HasNoDot) (sym (if_false _ _ other)) (
      split_from-HasNoDot (seg ++ (c ∷ [])) cs
        (All-append (λ c. (c == b'.') ≡ false) seg (c ∷ []) h (other, tt)))
]

-- The path of a key holds segments without a dot, and joined by dots they are the key again.
pub join-split_path : (key : Bytes) → (join (split_path key) ≡ key) × All HasNoDot (split_path key)
unfolding split_path
join-split_path key = (ap (drop 1) (dotted-split_from [] key), split_from-HasNoDot [] key tt)
