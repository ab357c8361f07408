-- ===== src/IdMap/Versions.antt =====
-- What a new version of a point does to the liveness of all points, as inserts and updates of
-- src/astervec_db.cc make it in the id map.
use aster_vec.Base.{
  ℕ, ◌+◌, ◌%◌, ◌^◌, ◌<◌, ◌≡◌, ◌≢◌, refl, ap, sym, ◌∙◌, Bool, true, false, some, arith, ◌==◌, ==_iff,
  ==_refl, ne→==, if_true, if_false, if◌then◌else◌, Bool-cases, Option-cases, inl, inr, ◌⊎◌,
}
use aster_vec.Base.Assoc.{lookup, lookup-assign}
use aster_vec.Bloom.{Rate}
use aster_vec.IdMap.{
  IdMap, first_update_id, value_or, resolve_internal, member, is_tombstoned, tombstone, mapped,
  allocate_update_id, record_update_mapping,
}
use aster_vec.IdMap.Invariant.{resolve_internal_lem}
use aster_vec.IdMap.Deleting.{
  IsShadowed, member-tombstone, resolve_internal-tombstone, tombstone-IsSound,
  resolve_internal_injective,
}
use aster_vec.IdMap.Updating.{IsRate, Rebuilt, update_Rebuilt}
use aster_vec.IdMap.Good.{
  IsGood, HasRoom, Stored, Revived, alive_at, alive_same, Stored-other, either, tombstone-keeps,
}

module _ (m : IdMap) (good : IsGood m) where
  -- A point without a mapping is at its direct id.
  direct_lem : (r : ℕ) → is_tombstoned m r ≡ false → resolve_internal m r ≡ r
  direct_lem r free = elim (Option-cases (lookup r m.forward)) [
    | inl nothing ↦ resolve_internal_lem m good.sound r ∙ ap (value_or r) nothing
    | inr (i, found) ↦ absurd (cc (sym (good.shadowed r i found) ∙ free))
  ]

  -- Where an internal id of before is.
  pub below : (j : ℕ) → j < first_update_id → resolve_internal m j < m.next_update
  below j hj = elim (Option-cases (lookup j m.forward)) [
    | inl nothing ↦
        let at : resolve_internal m j ≡ j =
          resolve_internal_lem m good.sound j ∙ ap (value_or j) nothing in
        omega (arith, at, hj, good.sound.counter)
    | inr (i, found) ↦
        let at : resolve_internal m j ≡ i =
          resolve_internal_lem m good.sound j ∙ ap (value_or j) found in
        omega (arith, at, (good.sound.update_ids j i found).1)
  ]

  -- A first version at the direct id.
  pub first-Revived :
      (exists exists' : ℕ → Bool) (r : ℕ)
      → r < first_update_id
      → is_tombstoned m r ≡ false
      → Stored exists r exists'
      → Revived exists m r exists' m
  first-Revived exists exists' r small free stored j hj = elim (Bool-cases (j == r)) [
    | inl same ↦
        alive_at exists exists' m m r j
          (ap (resolve_internal m) ((==_iff j r).0 same) ∙ direct_lem r free) free
          (stored r ∙ if_true _ _ (==_refl r))
        ∙ sym (if_true _ _ same)
    | inr other ↦
        alive_same exists exists' m m j refl refl
          (Stored-other exists exists' r (resolve_internal m j) stored (apart other))
        ∙ sym (if_false _ _ other)
  ]
    where
      apart : (j == r) ≡ false → resolve_internal m j ≢ r
      apart other e = cc (
          sym other
          ∙ (==_iff j r).1
              (resolve_internal_injective m good.sound j r hj small (e ∙ sym (direct_lem r free))))

  module _ (rate : Rate) (fine : IsRate rate) (room : HasRoom m) (r : ℕ)
      (small : r < first_update_id) where
    pub new :
        Rebuilt
          (mapped r m.next_update (allocate_update_id m).1)
          (record_update_mapping rate r m.next_update (allocate_update_id m).1)
    new = update_Rebuilt rate m r fine good.sound room.ids room.filter

    -- The map with the new version.
    abbrev pub next_map : IdMap
    next_map = new.m'

    pub next_map_lem :
        record_update_mapping rate r m.next_update (allocate_update_id m).1 ≡ some next_map
    next_map_lem = new.result

    entry :
        (j : ℕ)
        → lookup j next_map.forward ≡ (if j == r then some m.next_update else lookup j m.forward)
    entry j =
        ap (lookup j) new.same
        ∙ unfold mapped allocate_update_id in lookup-assign r j m.next_update m.forward

    resolved :
        (j : ℕ)
        → resolve_internal next_map j ≡ (if j == r then m.next_update else resolve_internal m j)
    resolved j = elim (Bool-cases (j == r)) [
      | inl same ↦
          resolve_internal_lem next_map new.sound j
          ∙ ap (value_or j) (entry j ∙ if_true _ _ same)
          ∙ sym (if_true _ _ same)
      | inr other ↦
          resolve_internal_lem next_map new.sound j
          ∙ ap (value_or j) (entry j ∙ if_false _ _ other)
          ∙ sym (resolve_internal_lem m good.sound j)
          ∙ sym (if_false _ _ other)
    ]

    marks : (t : ℕ) → is_tombstoned next_map t ≡ is_tombstoned m t
    unfolding is_tombstoned
    marks t = ap (member t) (new.marks ∙ unfold mapped allocate_update_id in refl)

    counter : next_map.next_update ≡ m.next_update + 1
    counter =
        let wrap : (m.next_update + 1) % 2 ^ 64 ≡ m.next_update + 1 = omega (arith, room.ids) in
        new.next_id ∙ unfold mapped allocate_update_id in wrap

    fresh : is_tombstoned m m.next_update ≡ false
    fresh = elim (Bool-cases (is_tombstoned m m.next_update)) [
      | inl there ↦ absurd (omega (arith, good.marked m.next_update there))
      | inr free ↦ free
    ]

    apart_new : (j : ℕ) → j < first_update_id → resolve_internal m j ≢ m.next_update
    apart_new j hj e = omega (arith, below j hj, e)

    -- A mapped id of the next map was mapped before, or it is `r`.
    IsShadowed-by :
        (next : IdMap)
        → ((j : ℕ) → lookup j next.forward ≡ lookup j next_map.forward)
        → ((t : ℕ) → is_tombstoned m t ≡ true → is_tombstoned next t ≡ true)
        → is_tombstoned next r ≡ true
        → IsShadowed next
    IsShadowed-by next same kept gone j i h = elim (Bool-cases (j == r)) [
      | inl at ↦ ap (is_tombstoned next) ((==_iff j r).0 at) ∙ gone
      | inr other ↦ kept j (good.shadowed j i (old other h))
    ]
      where
        old : (j == r) ≡ false → lookup j next.forward ≡ some i → lookup j m.forward ≡ some i
        old other h = sym (if_false _ _ other) ∙ sym (entry j) ∙ sym (same j) ∙ h

    -- A point that comes back under a fresh id.
    pub reinsert-Revived :
        (exists exists' : ℕ → Bool)
        → Stored exists m.next_update exists'
        → Revived exists m r exists' next_map
    reinsert-Revived exists exists' stored j hj = elim (Bool-cases (j == r)) [
      | inl same ↦
          alive_at exists exists' m next_map m.next_update j (resolved j ∙ if_true _ _ same)
            (marks m.next_update ∙ fresh)
            (stored m.next_update ∙ if_true _ _ (==_refl m.next_update))
          ∙ sym (if_true _ _ same)
      | inr other ↦
          alive_same exists exists' m next_map j (resolved j ∙ if_false _ _ other)
            (marks (resolve_internal m j))
            (Stored-other exists exists' m.next_update (resolve_internal m j) stored
              (apart_new j hj))
          ∙ sym (if_false _ _ other)
    ]

    pub reinsert-IsGood : is_tombstoned m r ≡ true → IsGood next_map
    reinsert-IsGood gone = record {
      sound = new.sound;
      shadowed = IsShadowed-by next_map (λ j. refl) (λ t h. marks t ∙ h) (marks r ∙ gone);
      marked = λ t h. omega (arith, good.marked t (sym (marks t) ∙ h), counter);
    }

    -- A point that moves to a fresh id and leaves its old one behind.
    abbrev pub moved_map : IdMap
    moved_map = tombstone (resolve_internal m r) next_map

    moved_marks :
        (t : ℕ)
        → is_tombstoned moved_map t
          ≡ (if resolve_internal m r == t then true else is_tombstoned m t)
    moved_marks t =
        member-tombstone (resolve_internal m r) t next_map
        ∙ ap (λ b. if resolve_internal m r == t then true else b) (marks t)

    kept_mark : (t : ℕ) → resolve_internal m r ≢ t → is_tombstoned moved_map t ≡ is_tombstoned m t
    kept_mark t other = moved_marks t ∙ if_false _ _ (ne→== (resolve_internal m r) t other)

    pub update-Revived :
        (exists exists' : ℕ → Bool)
        → Stored exists m.next_update exists'
        → Revived exists m r exists' moved_map
    update-Revived exists exists' stored j hj = elim (Bool-cases (j == r)) [
      | inl same ↦
          alive_at exists exists' m moved_map m.next_update j
            (resolve_internal-tombstone (resolve_internal m r) j next_map
              ∙ resolved j
              ∙ if_true _ _ same)
            (kept_mark m.next_update (apart_new r small) ∙ fresh)
            (stored m.next_update ∙ if_true _ _ (==_refl m.next_update))
          ∙ sym (if_true _ _ same)
      | inr other ↦
          alive_same exists exists' m moved_map j
            (resolve_internal-tombstone (resolve_internal m r) j next_map
              ∙ resolved j
              ∙ if_false _ _ other)
            (kept_mark (resolve_internal m j) (apart_old other))
            (Stored-other exists exists' m.next_update (resolve_internal m j) stored
              (apart_new j hj))
          ∙ sym (if_false _ _ other)
    ]
      where
        apart_old : (j == r) ≡ false → resolve_internal m r ≢ resolve_internal m j
        apart_old other e = cc (
            sym other
            ∙ (==_iff j r).1 (resolve_internal_injective m good.sound j r hj small (sym e)))

    gone_lem : is_tombstoned moved_map r ≡ true
    gone_lem = elim (Option-cases (lookup r m.forward)) [
      | inl nothing ↦
          moved_marks r
          ∙ if_true _ _ (
              (==_iff (resolve_internal m r) r).1
                (resolve_internal_lem m good.sound r ∙ ap (value_or r) nothing))
      | inr (i, found) ↦ keep r (good.shadowed r i found)
    ]
      where
        keep : (t : ℕ) → is_tombstoned m t ≡ true → is_tombstoned moved_map t ≡ true
        keep t h = moved_marks t ∙ either (resolve_internal m r == t) h

    pub update-IsGood : IsGood moved_map
    update-IsGood = record {
      sound = tombstone-IsSound next_map new.sound (resolve_internal m r);
      shadowed =
          IsShadowed-by moved_map (λ j. ap (lookup j) kept.0)
            (λ t h. moved_marks t ∙ either (resolve_internal m r == t) h) gone_lem;
      marked = λ t h. omega (
        arith,
        kept.1,
        marked_below t (Bool-cases (resolve_internal m r == t)) (sym (moved_marks t) ∙ h),
        counter,
      );
    }
      where
        kept :
            (moved_map.forward ≡ next_map.forward) × (moved_map.next_update ≡ next_map.next_update)
        kept = tombstone-keeps (resolve_internal m r) next_map

        marked_below :
            (t : ℕ)
            → ((resolve_internal m r == t) ≡ true) ⊎ ((resolve_internal m r == t) ≡ false)
            → (if resolve_internal m r == t then true else is_tombstoned m t) ≡ true
            → t < m.next_update
        marked_below t (inl same) h =
            omega (arith, below r small, (==_iff (resolve_internal m r) t).0 same)
        marked_below t (inr other) h = good.marked t (sym (if_false _ _ other) ∙ h)
