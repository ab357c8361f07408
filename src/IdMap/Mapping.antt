-- ===== src/IdMap/Mapping.antt =====
-- The members that change the id map keep it sound, and what they change of the lookups.
use aster_vec.Base.{
  ℕ, ◌<◌, ◌≤◌, ◌≡◌, ◌≢◌, ◌⊎◌, ap, sym, ◌∙◌, false, List, Option, none, some, arith, ◌==◌, ne→==,
  if_true, if_false, if◌then◌else◌, Bool-cases, inl, inr,
}
use aster_vec.Base.Assoc.{
  lookup, erase, assign, lookup-erase, lookup-assign_same, lookup-assign_other, lookup-assign_cases,
}
use aster_vec.Bloom.{add, might_contain}
use aster_vec.Bloom.Contains.{add-IsValid, might_contain-add, might_contain-kept}
use aster_vec.IdMap.{
  resolve_internal, value_or, IdMap, first_update_id, mapped, drop_reverse, forget_update_mapping,
}
use aster_vec.IdMap.Invariant.{IsSound, resolve_internal_lem}

some_injective : {a b : ℕ} → ◌≡◌ {A = Option ℕ} (some a) (some b) → a ≡ b
some_injective h = cc

differ_lem : (a b : ℕ) → (a == b) ≡ false → a ≢ b
differ_lem a b h e = ground arith

lookup-drop_reverse :
    (o : Option ℕ) (i r : ℕ) (rev : List (ℕ × ℕ))
    → lookup i (drop_reverse o rev) ≡ some r
    → (lookup i rev ≡ some r) × (o ≢ some i)
lookup-drop_reverse none i r rev h = (h, cc)
lookup-drop_reverse (some k) i r rev h = elim (Bool-cases (i == k)) [
  | inl same ↦ absurd (cc (sym (if_true none (lookup i rev) same) ∙ sym (lookup-erase k i rev) ∙ h))
  | inr other ↦ (
    sym (if_false none (lookup i rev) other) ∙ sym (lookup-erase k i rev) ∙ h,
    λ e. differ_lem i k other (sym (some_injective e)),
  )
]

drop_reverse-kept :
    (o : Option ℕ) (i r : ℕ) (rev : List (ℕ × ℕ))
    → lookup i rev ≡ some r
    → o ≢ some i
    → lookup i (drop_reverse o rev) ≡ some r
drop_reverse-kept none i r rev h differ = h
drop_reverse-kept (some k) i r rev h differ =
    lookup-erase k i rev ∙ if_false _ _ (ne→== i k (λ e. differ (ap some (sym e)))) ∙ h

module _ (f rev : List (ℕ × ℕ)) (there : (r i : ℕ) → lookup r f ≡ some i → lookup i rev ≡ some r)
    (back : (r i : ℕ) → lookup i rev ≡ some r → lookup r f ≡ some i) where
  -- Another id than `r` keeps its entries when the ones of `r` go.
  erased_there :
      (r j i : ℕ)
      → lookup j (erase r f) ≡ some i
      → lookup i (drop_reverse (lookup r f) rev) ≡ some j
  erased_there r j i h = elim (Bool-cases (j == r)) [
    | inl same ↦ absurd (cc (sym (if_true none (lookup j f) same) ∙ sym (lookup-erase r j f) ∙ h))
    | inr other ↦
        let old : lookup j f ≡ some i =
          sym (if_false none (lookup j f) other) ∙ sym (lookup-erase r j f) ∙ h in
        drop_reverse-kept (lookup r f) i j rev (there j i old)
          (λ e. differ_lem j r other (some_injective (sym (there j i old) ∙ there r i e)))
  ]

  erased_back :
      (r j i : ℕ)
      → lookup i (drop_reverse (lookup r f) rev) ≡ some j
      → lookup j (erase r f) ≡ some i
  erased_back r j i h =
      let kept = lookup-drop_reverse (lookup r f) i j rev h in
      lookup-erase r j f
      ∙ if_false _ _
          (ne→== j r (λ e. kept.1 (ap (λ (k : ℕ). lookup k f) (sym e) ∙ back j i kept.0)))
      ∙ back j i kept.0

module _ (m : IdMap) (sound : IsSound m) where
  -- Forgetting an id keeps the map sound.
  pub forget-IsSound : (r : ℕ) → IsSound (forget_update_mapping r m)
  unfolding forget_update_mapping
  forget-IsSound r = record {
    filter = sound.filter;
    counter = sound.counter;
    known = λ j i h. sound.known j i (old j i h);
    there = λ j i h. erased_there m.forward m.reverse sound.there sound.back r j i h;
    back = λ j i h. erased_back m.forward m.reverse sound.there sound.back r j i h;
    update_ids = λ j i h. sound.update_ids j i (old j i h);
  }
    where
      old : (j i : ℕ) → lookup j (erase r m.forward) ≡ some i → lookup j m.forward ≡ some i
      old j i h = grind (arith, lookup-erase r j m.forward)

  -- A new mapping to an update id that no id has keeps the map sound.
  pub mapped-IsSound :
      (r i : ℕ)
      → lookup i m.reverse ≡ none
      → first_update_id ≤ i
      → i < m.next_update
      → IsSound (mapped r i m)
  unfolding mapped
  mapped-IsSound r i free low high = record {
    filter = add-IsValid m.bloom sound.filter r;
    counter = sound.counter;
    known = λ j k h. elim (split j k h) [
      | inl (same, _) ↦
          ap (λ (t : ℕ). might_contain t (add r m.bloom)) same
          ∙ might_contain-add m.bloom sound.filter r
      | inr (_, old) ↦ might_contain-kept m.bloom sound.filter r j (sound.known j k old)
    ];
    there = λ j k h. elim (split j k h) [
      | inl (same, at) ↦
          ap (λ (t : ℕ). lookup t (assign i r rest)) (sym at)
          ∙ lookup-assign_same i r rest
          ∙ ap some (sym same)
      | inr (other, old) ↦
          lookup-assign_other i k r rest
            (λ e. cc (sym free ∙ ap (λ (t : ℕ). lookup t m.reverse) (sym e) ∙ sound.there j k old))
          ∙ erased_there m.forward m.reverse sound.there sound.back r j k
              (lookup-erase r j m.forward ∙ if_false _ _ (ne→== j r other) ∙ old)
    ];
    back = λ j k h. elim (lookup-assign_cases i k r j rest h) [
      | inl (same, at) ↦
          ap (λ (t : ℕ). lookup t (assign r i m.forward)) (sym at)
          ∙ lookup-assign_same r i m.forward
          ∙ ap some (sym same)
      | inr (other, old) ↦
          let erased = erased_back m.forward m.reverse sound.there sound.back r j k old in
          let kept = lookup-drop_reverse (lookup r m.forward) k j m.reverse old in
          lookup-assign_other r j i m.forward
            (λ e. kept.1 (ap (λ (t : ℕ). lookup t m.forward) (sym e) ∙ sound.back j k kept.0))
          ∙ sound.back j k kept.0
    ];
    update_ids = λ j k h. elim (split j k h) [
      | inl (_, at) ↦ (omega (arith, at), omega (arith, at))
      | inr (_, old) ↦ sound.update_ids j k old
    ];
  }
    where
      rest : List (ℕ × ℕ)
      rest = drop_reverse (lookup r m.forward) m.reverse

      split :
          (j k : ℕ)
          → lookup j (assign r i m.forward) ≡ some k
          → ((j ≡ r) × (i ≡ k)) ⊎ ((j ≢ r) × (lookup j m.forward ≡ some k))
      split j k h = lookup-assign_cases r j i k m.forward h

  -- A map where an id is forgotten resolves it to itself, and the others as before.
  pub resolve_internal-forget :
      (r j : ℕ)
      → resolve_internal (forget_update_mapping r m) j
        ≡ (if j == r then j else resolve_internal m j)
  resolve_internal-forget r j = elim (Bool-cases (j == r)) [
    | inl same ↦ after ∙ ap (value_or j) (erased ∙ if_true _ _ same) ∙ sym (if_true _ _ same)
    | inr other ↦
        after
        ∙ ap (value_or j) (erased ∙ if_false _ _ other)
        ∙ sym (resolve_internal_lem m sound j)
        ∙ sym (if_false _ _ other)
  ]
    where
      after :
          resolve_internal (forget_update_mapping r m) j
          ≡ value_or j (lookup j (forget_update_mapping r m).forward)
      after = resolve_internal_lem (forget_update_mapping r m) (forget-IsSound r) j

      erased :
          lookup j (forget_update_mapping r m).forward
          ≡ (if j == r then none else lookup j m.forward)
      erased = unfold forget_update_mapping in (lookup-erase r j m.forward)
