-- ===== src/IdMap/Updating.antt =====
-- A whole update of the id map: an id is handed out, recorded, and the filter grows where it is
-- full.
use aster_vec.Base.{
  ℕ, ◌+◌, ◌*◌, ◌%◌, ◌^◌, ◌<◌, ◌≤◌, ◌≡◌, refl, ap, sym, ◌∙◌, true, false, List, [], ◌∷◌, Option,
  none, some, arith, leb, ◌==◌, ==_iff, leb→le, if_true, if_false, if◌then◌else◌, Bool-cases,
  Option-cases, inl, inr,
}
use mathlib.Core.Path.{subst}
use aster_vec.Base.Assoc.{lookup, lookup-assign}
use aster_vec.Bloom.{Bloom, Rate, add, might_contain}
use aster_vec.Bloom.Contains.{
  IsValid, add-IsValid, might_contain-add, might_contain-kept, reset-IsValid,
}
use aster_vec.IdMap.{
  IdMap, first_update_id, value_or, resolve_internal, mapped, add_keys, rebuild_bloom_to, rebuilt,
  is_full, record_update_mapping, allocate_update_id, observe_update_id,
}
use aster_vec.IdMap.Invariant.{IsSound, resolve_internal_lem}
use aster_vec.IdMap.Mapping.{mapped-IsSound}

-- What the code relies on of the floating-point arithmetic: the rate is in range and the sizes of
-- filters fit a word.
pub record IsRate (rate : Rate) : Type 0 where
  pub in_range : rate.in_range ≡ true
  pub fits : (n : ℕ) → rate.raw_bits n + 127 < 2 ^ 64

pub add_keys-IsValid :
    (entries : List (ℕ × ℕ)) (f : Bloom) → IsValid f → IsValid (add_keys entries f)
unfolding add_keys
add_keys-IsValid [] f valid = valid
add_keys-IsValid ((r, i) ∷ entries) f valid =
    add_keys-IsValid entries (add r f) (add-IsValid f valid r)

add_keys-kept :
    (entries : List (ℕ × ℕ)) (f : Bloom) (j : ℕ)
    → IsValid f
    → might_contain j f ≡ true
    → might_contain j (add_keys entries f) ≡ true
unfolding add_keys
add_keys-kept [] f j valid h = h
add_keys-kept ((r, i) ∷ entries) f j valid h =
    add_keys-kept entries (add r f) j (add-IsValid f valid r) (might_contain-kept f valid r j h)

pub add_keys-known :
    (entries : List (ℕ × ℕ)) (f : Bloom) (j k : ℕ)
    → IsValid f
    → lookup j entries ≡ some k
    → might_contain j (add_keys entries f) ≡ true
unfolding add_keys lookup
add_keys-known [] f j k valid h = cc
add_keys-known ((r, i) ∷ entries) f j k valid h = elim (Bool-cases (r == j)) [
  | inl same ↦ add_keys-kept entries (add r f) j (add-IsValid f valid r) (
      ap (λ (t : ℕ). might_contain t (add r f)) (sym ((==_iff r j).0 same))
      ∙ might_contain-add f valid r)
  | inr other ↦
      add_keys-known entries (add r f) j k (add-IsValid f valid r) (sym (if_false _ _ other) ∙ h)
]

-- A member that leaves both maps and the counter alone, with a sound result.
pub record Rebuilt (m : IdMap) (next : Option IdMap) : Type 0 where
  pub m' : IdMap
  pub result : next ≡ some m'
  pub sound : IsSound m'
  pub same : m'.forward ≡ m.forward
  pub marks : m'.tombstones ≡ m.tombstones
  pub next_id : m'.next_update ≡ m.next_update

rebuild_lem :
    (rate : Rate) (n : ℕ) (m : IdMap)
    → IsRate rate
    → IsSound m
    → 0 < n
    → Rebuilt m (rebuild_bloom_to rate n m)
unfolding rebuild_bloom_to
rebuild_lem rate n m good sound pos =
    let (g, made, valid, size) = reset-IsValid rate n m.bloom good.in_range pos (good.fits n) in
    record {
      m' = record m { bloom = add_keys m.forward g; rebuilds = (m.rebuilds + 1) % 2 ^ 64 };
      result = ap (rebuilt m) made;
      sound = record {
        counter = sound.counter;
        filter = add_keys-IsValid m.forward g valid;
        known = λ r i h. add_keys-known m.forward g r i valid h;
        there = sound.there;
        back = sound.back;
        update_ids = sound.update_ids;
      };
      same = refl;
      marks = refl;
      next_id = refl;
    }

module _ (rate : Rate) (m : IdMap) (good : IsRate rate) (sound : IsSound m) where
  full_pos : (f : Bloom) → is_full rate f ≡ true → 0 < f.capacity
  full_pos f h = ground arith

  record_lem :
      (r i : ℕ)
      → lookup i m.reverse ≡ none
      → first_update_id ≤ i
      → i < m.next_update
      → (mapped r i m).bloom.capacity * 2 < 2 ^ 64
      → Rebuilt (mapped r i m) (record_update_mapping rate r i m)
  unfolding record_update_mapping
  record_lem r i free low high room = elim (Bool-cases (is_full rate (mapped r i m).bloom)) [
    | inl full ↦ subst (Rebuilt (mapped r i m)) (sym (if_true _ _ full)) (
        rebuild_lem rate _ (mapped r i m) good (mapped-IsSound m sound r i free low high)
          (omega (arith, room, full_pos (mapped r i m).bloom full)))
    | inr fine ↦ record {
      m' = mapped r i m;
      result = if_false _ _ fine;
      sound = mapped-IsSound m sound r i free low high;
      same = refl;
      marks = refl;
      next_id = refl;
    }
  ]

-- The next id is not in the maps.
next_is_free : (m : IdMap) → IsSound m → lookup m.next_update m.reverse ≡ none
next_is_free m sound = elim (Option-cases (lookup m.next_update m.reverse)) [
  | inl nothing ↦ nothing
  | inr (r, found) ↦
      absurd
        (omega (arith, (sound.update_ids r m.next_update (sound.back r m.next_update found)).1))
]

raised-IsSound :
    (m : IdMap) (n : ℕ) → IsSound m → m.next_update ≤ n → IsSound (record m { next_update = n })
raised-IsSound m n sound le = record {
  filter = sound.filter;
  known = sound.known;
  there = sound.there;
  back = sound.back;
  counter = omega (arith, sound.counter);
  update_ids = λ r i h. ((sound.update_ids r i h).0, omega (arith, (sound.update_ids r i h).1));
}

-- Handing out an id keeps the map sound.
pub allocate-IsSound :
    (m : IdMap) → IsSound m → m.next_update + 1 < 2 ^ 64 → IsSound (allocate_update_id m).1
unfolding allocate_update_id
allocate-IsSound m sound room = raised-IsSound m _ sound (omega (arith, room))

-- An id that the log shows is never handed out again, and the map stays sound.
pub observe-IsSound :
    (m : IdMap) (i : ℕ)
    → IsSound m
    → i + 1 < 2 ^ 64
    → IsSound (observe_update_id i m) × (i < (observe_update_id i m).next_update)
unfolding observe_update_id
observe-IsSound m i sound room = elim (Bool-cases (leb m.next_update i)) [
  | inl behind ↦
      rw behind
        (raised-IsSound m _ sound (omega (arith, room, leb→le _ _ behind)), omega (arith, room))
  | inr ahead ↦ rw ahead (sound, ahead_lem ahead)
]
  where
    ahead_lem : leb m.next_update i ≡ false → i < m.next_update
    ahead_lem h = ground arith

capacity_lem :
    (rate : Rate) (r i : ℕ) (m : IdMap) → (mapped r i m).bloom.capacity ≡ m.bloom.capacity
unfolding mapped add
capacity_lem rate r i m = ground arith

-- An id that is handed out and recorded.
pub update_Rebuilt :
    (rate : Rate) (m : IdMap) (r : ℕ)
    → IsRate rate
    → IsSound m
    → m.next_update + 1 < 2 ^ 64
    → m.bloom.capacity * 2 < 2 ^ 64
    → Rebuilt
        (mapped r m.next_update (allocate_update_id m).1)
        (record_update_mapping rate r m.next_update (allocate_update_id m).1)
update_Rebuilt rate m r good sound room size =
    unfold allocate_update_id in
    record_lem rate (allocate_update_id m).1 good (allocate-IsSound m sound room) r m.next_update
      (next_is_free m sound) sound.counter (omega arith)
      (omega (arith, size, capacity_lem rate r m.next_update (allocate_update_id m).1))

-- An update of an id in a sound map hands out an id, never fails, keeps the map sound, resolves the
-- id to the new one and every other id as before, where the counter and the filter have room.
pub update_lem :
    (rate : Rate) (m : IdMap) (r : ℕ)
    → IsRate rate
    → IsSound m
    → m.next_update + 1 < 2 ^ 64
    → m.bloom.capacity * 2 < 2 ^ 64
    → (m' : IdMap) × (record_update_mapping rate r m.next_update (allocate_update_id m).1 ≡ some m')
      × IsSound m'
      × ((j : ℕ) → resolve_internal m' j ≡ (if j == r then m.next_update else resolve_internal m j))
update_lem rate m r good sound room size = (new.m', new.result, new.sound, resolved)
  where
    new :
        Rebuilt
          (mapped r m.next_update (allocate_update_id m).1)
          (record_update_mapping rate r m.next_update (allocate_update_id m).1)
    new = update_Rebuilt rate m r good sound room size

    after : (j : ℕ) → resolve_internal new.m' j ≡ value_or j (lookup j new.m'.forward)
    after = resolve_internal_lem new.m' new.sound

    entry :
        (j : ℕ)
        → lookup j new.m'.forward ≡ (if j == r then some m.next_update else lookup j m.forward)
    entry j =
        ap (lookup j) new.same
        ∙ unfold mapped allocate_update_id in lookup-assign r j m.next_update m.forward

    resolved :
        (j : ℕ)
        → resolve_internal new.m' j ≡ (if j == r then m.next_update else resolve_internal m j)
    resolved j = elim (Bool-cases (j == r)) [
      | inl same ↦ after j ∙ ap (value_or j) (entry j ∙ if_true _ _ same) ∙ sym (if_true _ _ same)
      | inr other ↦
          after j
          ∙ ap (value_or j) (entry j ∙ if_false _ _ other)
          ∙ sym (resolve_internal_lem m sound j)
          ∙ sym (if_false _ _ other)
    ]
