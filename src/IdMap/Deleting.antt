-- ===== src/IdMap/Deleting.antt =====
-- What tombstoning the internal id of a point and forgetting its mapping does to liveness.
use aster_vec.Base.{
  ℕ, ◌<◌, ◌≡◌, ◌≢◌, refl, ap, sym, ◌∙◌, Bool, true, false, some, arith, ◌==◌, ==_iff, ne→==,
  if_true, if_false, if◌then◌else◌, Bool-cases, Option-cases, inl, inr,
}
use aster_vec.Base.Assoc.{lookup}
use aster_vec.IdMap.{
  IdMap, first_update_id, value_or, resolve_internal, resolve_real, member, is_tombstoned,
  tombstone, is_alive, forget_update_mapping,
}
use aster_vec.IdMap.Invariant.{IsSound, resolve_internal_lem, resolve_real-resolve_internal}
use aster_vec.IdMap.Mapping.{resolve_internal-forget}

-- A point with an update mapping has left its direct id behind.
abbrev pub IsShadowed : IdMap → Type 0
IsShadowed m = (r i : ℕ) → lookup r m.forward ≡ some i → is_tombstoned m r ≡ true

pub member-tombstone :
    (i j : ℕ) (m : IdMap)
    → is_tombstoned (tombstone i m) j ≡ (if i == j then true else is_tombstoned m j)
unfolding is_tombstoned tombstone member
member-tombstone i j m = elim (Bool-cases (member i m.tombstones)) [
  | inl present ↦ rw present (elim (Bool-cases (i == j)) [
    | inl same ↦
        ap (λ (k : ℕ). member k m.tombstones) (sym ((==_iff i j).0 same))
        ∙ present
        ∙ sym (if_true _ _ same)
    | inr other ↦ sym (if_false _ _ other)
  ])
  | inr absent ↦ rw absent refl
]

pub resolve_internal-tombstone :
    (i j : ℕ) (m : IdMap) → resolve_internal (tombstone i m) j ≡ resolve_internal m j
unfolding resolve_internal tombstone
resolve_internal-tombstone i j m = elim (Bool-cases (member i m.tombstones)) [
  | inl present ↦ rw present refl
  | inr absent ↦ rw absent refl
]

pub forget_keeps_tombstones :
    (r j : ℕ) (m : IdMap) → is_tombstoned (forget_update_mapping r m) j ≡ is_tombstoned m j
unfolding is_tombstoned forget_update_mapping
forget_keeps_tombstones r j m = refl

-- The id map after a delete of `r`.
abbrev pub deleted : ℕ → IdMap → IdMap
deleted r m = forget_update_mapping r (tombstone (resolve_internal m r) m)

module _ (m : IdMap) (sound : IsSound m) where
  pub tombstone-IsSound : (i : ℕ) → IsSound (tombstone i m)
  unfolding tombstone
  tombstone-IsSound i = elim (Bool-cases (member i m.tombstones)) [
    | inl there ↦ rw there sound
    | inr absent ↦ rw absent (record {
      filter = sound.filter;
      known = sound.known;
      there = sound.there;
      back = sound.back;
      counter = sound.counter;
      update_ids = sound.update_ids;
    })
  ]

  -- Different points have different internal ids.
  pub resolve_internal_injective :
      (j r : ℕ)
      → j < first_update_id
      → r < first_update_id
      → resolve_internal m j ≡ resolve_internal m r
      → j ≡ r
  resolve_internal_injective j r hj hr e =
      sym (resolve_real-resolve_internal m sound j hj)
      ∙ ap (resolve_real m) e
      ∙ resolve_real-resolve_internal m sound r hr

  -- Deleting a point ends its life and no other point's.
  pub is_alive-deleted :
      (exists : ℕ → Bool) (r j : ℕ)
      → IsShadowed m
      → r < first_update_id
      → j < first_update_id
      → is_alive exists (deleted r m) j ≡ (if j == r then false else is_alive exists m j)
  unfolding is_alive
  is_alive-deleted exists r j shadowed hr hj = elim (Bool-cases (j == r)) [
    | inl same ↦ if_true _ _ (gone ((==_iff j r).0 same)) ∙ sym (if_true _ _ same)
    | inr other ↦ alive_path (kept other) (unmarked other) ∙ sym (if_false _ _ other)
  ]
    where
      i : ℕ
      i = resolve_internal m r

      left : IdMap
      left = deleted r m

      marked : (k : ℕ) → is_tombstoned left k ≡ (if i == k then true else is_tombstoned m k)
      marked k = forget_keeps_tombstones r k (tombstone i m) ∙ member-tombstone i k m

      resolved :
          resolve_internal left j ≡ (if j == r then j else resolve_internal (tombstone i m) j)
      resolved = resolve_internal-forget (tombstone i m) (tombstone-IsSound i) r j

      direct_gone : (if i == r then true else is_tombstoned m r) ≡ true
      direct_gone = elim (Option-cases (lookup r m.forward)) [
        | inl nothing ↦
            if_true _ _ ((==_iff i r).1 (resolve_internal_lem m sound r ∙ ap (value_or r) nothing))
        | inr (k, found) ↦ rw (shadowed r k found) (ground arith)
      ]

      gone : j ≡ r → is_tombstoned left (resolve_internal left j) ≡ true
      gone e =
          ap (is_tombstoned left) (resolved ∙ if_true _ _ ((==_iff j r).1 e) ∙ e)
          ∙ marked r
          ∙ direct_gone

      kept : (j == r) ≡ false → resolve_internal left j ≡ resolve_internal m j
      kept other = resolved ∙ if_false _ _ other ∙ resolve_internal-tombstone i j m

      apart : (j == r) ≡ false → i ≢ resolve_internal m j
      apart other e = cc (sym other ∙ (==_iff j r).1 (resolve_internal_injective j r hj hr (sym e)))

      unmarked :
          (j == r) ≡ false
          → is_tombstoned left (resolve_internal m j) ≡ is_tombstoned m (resolve_internal m j)
      unmarked other =
          marked (resolve_internal m j)
          ∙ if_false _ _ (ne→== i (resolve_internal m j) (apart other))

      alive_path :
          resolve_internal left j ≡ resolve_internal m j
          → is_tombstoned left (resolve_internal m j) ≡ is_tombstoned m (resolve_internal m j)
          → (if is_tombstoned left (resolve_internal left j)
              then false
              else exists (resolve_internal left j))
            ≡ (if is_tombstoned m (resolve_internal m j)
                then false
                else exists (resolve_internal m j))
      alive_path e f = rw (e, f) refl
