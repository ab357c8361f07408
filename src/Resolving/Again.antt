-- ===== src/Resolving/Again.antt =====
-- A point id that was resolved is resolved to the same dense id again.
use aster_vec.Base.{
  ℕ, ◌+◌, ◌%◌, ◌^◌, ◌≤◌, ◌≡◌, refl, ap, sym, ◌∙◌, Bool, true, false, Option, none, some, [], ◌∷◌,
  arith, ltb, if_true, if_false, Bool-cases, inl, inr,
}
use mathlib.Core.Path.{subst}
use aster_vec.Base.Bytes.{Bytes}
use aster_vec.Base.Status.{
  Result, ok, err, err_absurd, not_found, corruption, not_supported, invalid_argument, io_error,
}
use aster_vec.PointId.{PointId, encode}
use aster_vec.IdMap.{max_real_id}
use aster_vec.MetadataStore.Store.{Kv, IsStore}
use aster_vec.MetadataStore.{lookup_key, put_key, put_keys, with_ids, write_batch, key_batch}
use aster_vec.MetadataStore.IdRows.{put_key_lem}
use aster_vec.Resolving.{
  Resolver, Resolved, is_long, after_put, allocate_dense, after_lookup, resolve_key, resolve_id,
}

module _ {D : Type 0} (kv : Kv D) (lawful : IsStore kv) (id : PointId) where
  -- Resolving without allocation gives `d` and changes nothing.
  abbrev Settled : Resolver D → ℕ → Type 0
  Settled st d = ((resolve_id kv id false st).0.dense ≡ ok d) × ((resolve_id kv id false st).1 ≡ st)

  abbrev Settles : Resolver D → Resolved × Resolver D → Type 0
  Settles st (found, st') = (d : ℕ) → found.dense ≡ ok d → Settled st' d

  -- A key that the store knows.
  Settled-key :
      (st : Resolver D) (ids : Option D) (d : ℕ)
      → st.keyed ≡ true
      → is_long id ≡ false
      → st.store ≡ some ids
      → lookup_key kv (encode id) ids ≡ ok d
      → Settled st d
  unfolding resolve_id
  Settled-key st ids d keyed short there at = rw (keyed, short, there, at) (refl, refl)

  -- A write to an id map leaves an id map.
  with_ids_there : (p : Result (Unit {0}) × D) → (with_ids kv p).1 ≡ some p.1
  with_ids_there (s, ids) = refl

  put_keys_there :
      (key : Bytes) (dense : ℕ) (ids : D)
      → (put_key kv key dense (some ids)).1
        ≡ some ((write_batch kv (key_batch kv ((key, dense) ∷ [])) ids).1)
  unfolding put_key put_keys
  put_keys_there key dense ids =
      with_ids_there (write_batch kv (key_batch kv ((key, dense) ∷ [])) ids)

  unknown_absurd : ◌≡◌ {A = Result ℕ} (err not_supported) (err not_found) → ⊥
  unknown_absurd h = cc

  none_absurd : {A : Type 0} {a : A} → ◌≡◌ {A = Option A} none (some a) → ⊥
  none_absurd h = cc

  module _ (st : Resolver D) (keyed : st.keyed ≡ true) (short : is_long id ≡ false) where
    put_Settles :
        (ids : D) (p : Result (Unit {0}) × Option D)
        → st.next_dense ≤ max_real_id
        → put_key kv (encode id) st.next_dense (some ids) ≡ p
        → Settles st (
            after_put kv
              (encode id)
              st.next_dense
              (record st { next_dense = (st.next_dense + 1) % 2 ^ 64 })
              p)
    put_Settles ids (err c, after) room eq d h = absurd (err_absurd h)
    put_Settles ids (ok _, none) room eq d h =
        absurd (none_absurd (sym (ap (λ p. p.1) eq) ∙ put_keys_there (encode id) st.next_dense ids))
    put_Settles ids (ok _, some after) room eq d h =
        Settled-key
          (record st { store = some (some after); next_dense = (st.next_dense + 1) % 2 ^ 64 })
          (some after) d keyed short refl
          ((put_key_lem kv lawful (encode id) st.next_dense ids after eq (omega (arith, room))).0
            ∙ h)

    allocate_Settles : (ids : D) → Settles st (allocate_dense kv (encode id) (some ids) st)
    allocate_Settles ids = elim (Bool-cases (ltb max_real_id st.next_dense)) [
      | inl full ↦ subst (Settles st) (sym (if_true _ _ full)) (λ d h. absurd (err_absurd h))
      | inr room ↦
          subst (Settles st) (sym (if_false _ _ room))
            (put_Settles ids (put_key kv (encode id) st.next_dense (some ids)) (room_lem room) refl)
    ]
      where
        room_lem : ltb max_real_id st.next_dense ≡ false → st.next_dense ≤ max_real_id
        room_lem h = ground arith

    found_Settles :
        (create : Bool) (ids : Option D) (s : Result ℕ)
        → st.store ≡ some ids
        → lookup_key kv (encode id) ids ≡ s
        → Settles st (after_lookup kv (encode id) create ids st s)
    found_Settles create ids (ok dense) there eq d h =
        Settled-key st ids d keyed short there (eq ∙ h)
    found_Settles true none (err not_found) there eq d h = absurd (unmapped eq)
      where
        unmapped : lookup_key kv (encode id) none ≡ err not_found → ⊥
        unmapped e = unknown_absurd (unfold lookup_key in e)
    found_Settles true (some ids) (err not_found) there eq d h = allocate_Settles ids d h
    found_Settles false ids (err not_found) there eq d h = absurd (err_absurd h)
    found_Settles true ids (err corruption) there eq d h = absurd (err_absurd h)
    found_Settles false ids (err corruption) there eq d h = absurd (err_absurd h)
    found_Settles true ids (err not_supported) there eq d h = absurd (err_absurd h)
    found_Settles false ids (err not_supported) there eq d h = absurd (err_absurd h)
    found_Settles true ids (err invalid_argument) there eq d h = absurd (err_absurd h)
    found_Settles false ids (err invalid_argument) there eq d h = absurd (err_absurd h)
    found_Settles true ids (err io_error) there eq d h = absurd (err_absurd h)
    found_Settles false ids (err io_error) there eq d h = absurd (err_absurd h)

    key_Settles :
        (create : Bool) (store : Option (Option D))
        → st.store ≡ store
        → Settles st (resolve_key kv (encode id) create st store)
    key_Settles create none there d h = absurd (err_absurd h)
    key_Settles create (some ids) there d h =
        found_Settles create ids (lookup_key kv (encode id) ids) there refl d h

  -- In a store with plain ids, resolving looks only at the id.
  dense_Settles :
      (create : Bool) (st : Resolver D) → st.keyed ≡ false → Settles st (resolve_id kv id create st)
  unfolding resolve_id
  dense_Settles create st plain = subst (Settles st) (sym (if_false _ _ plain)) (λ d h. (
    ap (λ (p : Resolved × Resolver D). p.0.dense) (if_false _ _ plain) ∙ h,
    ap (λ (p : Resolved × Resolver D). p.1) (if_false _ _ plain),
  ))

  -- An id that was resolved, with or without allocation, is resolved to the same dense id from then
  -- on, and that changes nothing.
  pub resolve_id-again :
      (create : Bool) (st : Resolver D) (d : ℕ)
      → (resolve_id kv id create st).0.dense ≡ ok d
      → ((resolve_id kv id false (resolve_id kv id create st).1).0.dense ≡ ok d)
        × ((resolve_id kv id false (resolve_id kv id create st).1).1
            ≡ (resolve_id kv id create st).1)
  resolve_id-again create st d h = settles d h
    where
      keyed_Settles : st.keyed ≡ true → Settles st (resolve_id kv id create st)
      keyed_Settles keyed = elim (Bool-cases (is_long id)) [
        | inl long ↦ subst (Settles st) (sym (long_lem keyed long)) (λ d h. absurd (err_absurd h))
        | inr short ↦
            subst (Settles st) (sym (short_lem keyed short))
              (key_Settles st keyed short create st.store refl)
      ]
        where
          long_lem :
              st.keyed ≡ true
              → is_long id ≡ true
              → resolve_id kv id create st ≡ (record { key = []; dense = err invalid_argument }, st)
          long_lem keyed long = unfold resolve_id in if_true _ _ keyed ∙ if_true _ _ long

          short_lem :
              st.keyed ≡ true
              → is_long id ≡ false
              → resolve_id kv id create st ≡ resolve_key kv (encode id) create st st.store
          short_lem keyed short = unfold resolve_id in if_true _ _ keyed ∙ if_false _ _ short

      settles : Settles st (resolve_id kv id create st)
      settles = elim (Bool-cases st.keyed) [
        | inl keyed ↦ keyed_Settles keyed
        | inr plain ↦ dense_Settles create st plain
      ]
