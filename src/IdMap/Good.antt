-- ===== src/IdMap/Good.antt =====
-- The id map as inserts, updates and deletes of src/astervec_db.cc keep it.
use aster_vec.Base.{
  ℕ, ◌+◌, ◌*◌, ◌^◌, ◌<◌, ◌≡◌, ◌≢◌, refl, ap, ap₂, ◌∙◌, Bool, true, false, ◌==◌, ne→==, if_false,
  if◌then◌else◌, Bool-cases, inl, inr,
}
use aster_vec.IdMap.{
  IdMap, first_update_id, resolve_internal, member, is_tombstoned, tombstone, is_alive,
}
use aster_vec.IdMap.Invariant.{IsSound}
use aster_vec.IdMap.Deleting.{IsShadowed}

-- What every operation of the engine keeps: a sound map, in which mapped points have left their
-- direct ids behind, and in which no id that is still to be handed out is tombstoned.
pub record IsGood (m : IdMap) : Type 0 where
  pub sound : IsSound m
  pub shadowed : IsShadowed m
  pub marked : (t : ℕ) → is_tombstoned m t ≡ true → t < m.next_update

-- The counter of update ids and the filter have room for one more.
pub record HasRoom (m : IdMap) : Type 0 where
  pub ids : m.next_update + 1 < 2 ^ 64
  pub filter : m.bloom.capacity * 2 < 2 ^ 64

-- The storage with one more vector.
abbrev pub Stored : (ℕ → Bool) → ℕ → (ℕ → Bool) → Type 0
Stored exists i exists' = (j : ℕ) → exists' j ≡ (if j == i then true else exists j)

-- The points that are alive: `r` and those that were.
abbrev pub Revived : (ℕ → Bool) → IdMap → ℕ → (ℕ → Bool) → IdMap → Type 0
Revived exists m r exists' m' =
    (j : ℕ)
    → j < first_update_id
    → is_alive exists' m' j ≡ (if j == r then true else is_alive exists m j)

pub alive_at :
    (exists exists' : ℕ → Bool) (m m' : IdMap) (i j : ℕ)
    → resolve_internal m' j ≡ i
    → is_tombstoned m' i ≡ false
    → exists' i ≡ true
    → is_alive exists' m' j ≡ true
unfolding is_alive
alive_at exists exists' m m' i j at free there =
    ap (λ k. if is_tombstoned m' k then false else exists' k) at ∙ if_false _ _ free ∙ there

pub alive_same :
    (exists exists' : ℕ → Bool) (m m' : IdMap) (j : ℕ)
    → resolve_internal m' j ≡ resolve_internal m j
    → is_tombstoned m' (resolve_internal m j) ≡ is_tombstoned m (resolve_internal m j)
    → exists' (resolve_internal m j) ≡ exists (resolve_internal m j)
    → is_alive exists' m' j ≡ is_alive exists m j
unfolding is_alive
alive_same exists exists' m m' j at marks there =
    ap (λ k. if is_tombstoned m' k then false else exists' k) at
    ∙ ap₂ (λ a b. if a then false else b) marks there

pub Stored-other :
    (exists exists' : ℕ → Bool) (i j : ℕ) → Stored exists i exists' → j ≢ i → exists' j ≡ exists j
Stored-other exists exists' i j stored other = stored j ∙ if_false _ _ (ne→== j i other)

pub either : (b : Bool) {c : Bool} → c ≡ true → (if b then true else c) ≡ true
either true h = refl
either false h = h

pub tombstone-keeps :
    (i : ℕ) (m : IdMap)
    → ((tombstone i m).forward ≡ m.forward) × ((tombstone i m).next_update ≡ m.next_update)
unfolding tombstone
tombstone-keeps i m = elim (Bool-cases (member i m.tombstones)) [
  | inl there ↦ rw there (refl, refl)
  | inr absent ↦ rw absent (refl, refl)
]
