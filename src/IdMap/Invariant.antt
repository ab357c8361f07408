-- ===== src/IdMap/Invariant.antt =====
-- What every member of the id map keeps, and what it means for the lookups.
use aster_vec.Base.{
  ℕ, ◌/◌, ◌^◌, ◌<◌, ◌≤◌, ◌≡◌, ap, sym, ◌∙◌, true, some, arith, ne→==, if_true, if_false, Bool-cases,
  Option-cases, inl, inr,
}
use aster_vec.Base.Assoc.{lookup}
use aster_vec.Bloom.{might_contain}
use aster_vec.Bloom.Contains.{IsValid}
use aster_vec.IdMap.{IdMap, first_update_id, is_direct_id, value_or, resolve_internal, resolve_real}

-- The filter knows every mapped id, the two maps are inverse to each other, and every internal id
-- in them is an update id below the counter, which counts update ids.
pub record IsSound (m : IdMap) : Type 0 where
  pub filter : IsValid m.bloom
  pub known : (r i : ℕ) → lookup r m.forward ≡ some i → might_contain r m.bloom ≡ true
  pub there : (r i : ℕ) → lookup r m.forward ≡ some i → lookup i m.reverse ≡ some r
  pub back : (r i : ℕ) → lookup i m.reverse ≡ some r → lookup r m.forward ≡ some i
  pub counter : first_update_id ≤ m.next_update
  pub update_ids :
      (r i : ℕ) → lookup r m.forward ≡ some i → (first_update_id ≤ i) × (i < m.next_update)

module _ (m : IdMap) (sound : IsSound m) where
  -- The filter in front of the map changes no answer.
  pub resolve_internal_lem : (r : ℕ) → resolve_internal m r ≡ value_or r (lookup r m.forward)
  unfolding resolve_internal
  resolve_internal_lem r = elim (Bool-cases (might_contain r m.bloom)) [
    | inl seen ↦ if_true _ _ seen
    | inr unseen ↦ elim (Option-cases (lookup r m.forward)) [
      | inl nothing ↦ if_false _ _ unseen ∙ sym (ap (value_or r) nothing)
      | inr found ↦ absurd (cc (sunk found))
    ]
  ]
    where
      sunk : ((i : ℕ) × (lookup r m.forward ≡ some i)) → might_contain r m.bloom ≡ true
      sunk (i, e) = sound.known r i e

  -- An id that a caller may use is found again behind its internal id.
  pub resolve_real-resolve_internal :
      (r : ℕ) → r < first_update_id → resolve_real m (resolve_internal m r) ≡ r
  unfolding resolve_real is_direct_id
  resolve_real-resolve_internal r small = elim (Option-cases (lookup r m.forward)) [
    | inl nothing ↦
        let same : resolve_internal m r ≡ r = resolve_internal_lem r ∙ ap (value_or r) nothing in
        rw same (ground arith)
    | inr (i, e) ↦
        let at : resolve_internal m r ≡ i = resolve_internal_lem r ∙ ap (value_or r) e in
        rw (at, sound.there r i e)
          (if_false _ _ (ne→== (i / 2 ^ 63) 0 (omega (arith, (sound.update_ids r i e).0))))
  ]
