-- ===== src/MetadataStore/IdRows.antt =====
-- A key and its dense id are found from each other after `PutKey`, and no other entry changes.
use aster_vec.Base.{
  ℕ, ◌^◌, ◌<◌, ◌≡◌, ◌≢◌, refl, ap, sym, ◌∙◌, false, List, [], ◌∷◌, Option, some, arith, ne→==,
  if_true, if_false, if◌then◌else◌, Bool-cases, inl, inr, pair_path,
}
use aster_vec.Base.Bytes.{Bytes, same_bytes, same_bytes_refl, same_bytes→eq}
use aster_vec.Base.Status.{◌>>=◌, Result, ok, err}
use aster_vec.BigEndian.{be_bytes}
use aster_vec.BigEndian.Laws.{length-be_bytes, be_value-be_bytes, same_bytes-be_bytes}
use aster_vec.MetadataStore.Store.{Change, put, Kv, after, IsStore}
use aster_vec.MetadataStore.{
  forward_key, reverse_key, dense_of, lookup_key, reverse_lookup, key_batch, write_batch, with_ids,
  put_keys, put_key,
}

module _ {D : Type 0} (kv : Kv D) where
  -- The batch of one entry, with the answers to its two changes.
  one_batch : Bytes → ℕ → Result (Unit {0}) → Result (Unit {0}) → Result (List Change)
  one_batch key dense a b = a >>= (λ _.
      b >>= (λ _. ok (put (forward_key key) (be_bytes 8 dense) ∷ put (reverse_key dense) key ∷ [])))

  written_lem :
      (key : Bytes) (dense : ℕ) (a b : Result (Unit {0})) (ids ids' : D)
      → with_ids kv (write_batch kv (one_batch key dense a b) ids) ≡ (ok tt, some ids')
      → kv.write (put (forward_key key) (be_bytes 8 dense) ∷ put (reverse_key dense) key ∷ []) ids
        ≡ (ok tt, ids')
  unfolding one_batch
  written_lem key dense (err c) b ids ids' h = cc
  written_lem key dense (ok _) (err c) ids ids' h = cc
  written_lem key dense (ok _) (ok _) ids ids' h =
      pair_path (ap (λ p. p.0) h) (some_lem (ap (λ p. p.1) h))
    where
      some_lem : {x y : D} → ◌≡◌ {A = Option D} (some x) (some y) → x ≡ y
      some_lem e = cc

  put_key-write :
      (key : Bytes) (dense : ℕ) (ids ids' : D)
      → put_key kv key dense (some ids) ≡ (ok tt, some ids')
      → kv.write (put (forward_key key) (be_bytes 8 dense) ∷ put (reverse_key dense) key ∷ []) ids
        ≡ (ok tt, ids')
  unfolding put_key put_keys key_batch one_batch
  put_key-write key dense ids ids' h =
      written_lem key dense (kv.accepts (put (forward_key key) (be_bytes 8 dense)))
        (kv.accepts (put (reverse_key dense) key)) ids ids' h

  module _ (lawful : IsStore kv) (key : Bytes) (dense : ℕ) (ids ids' : D)
      (done : put_key kv key dense (some ids) ≡ (ok tt, some ids')) where
    forward_after :
        (other : Bytes)
        → kv.get (forward_key other) ids'
          ≡ (if same_bytes key other then ok (be_bytes 8 dense) else kv.get (forward_key other) ids)
    forward_after other =
        lawful.reads_writes _ ids ids' (forward_key other) (put_key-write key dense ids ids' done)
        ∙ unfold after same_bytes in refl

    reverse_after :
        (j : ℕ)
        → kv.get (reverse_key j) ids' ≡ (
            if same_bytes (be_bytes 8 dense) (be_bytes 8 j)
            then ok key
            else kv.get (reverse_key j) ids)
    reverse_after j =
        lawful.reads_writes _ ids ids' (reverse_key j) (put_key-write key dense ids ids' done)
        ∙ unfold after same_bytes in refl

    -- After a `PutKey` that succeeds, the key has the dense id and the dense id has the key, and
    -- every other key and every other dense id reads as before.
    pub put_key_lem :
        dense < 2 ^ 64
        → (lookup_key kv key (some ids') ≡ ok dense)
          × (reverse_lookup kv dense (some ids') ≡ ok key)
          × ((other : Bytes)
              → other ≢ key
              → lookup_key kv other (some ids') ≡ lookup_key kv other (some ids))
          × ((j : ℕ)
              → j < 2 ^ 64
              → j ≢ dense
              → reverse_lookup kv j (some ids') ≡ reverse_lookup kv j (some ids))
    unfolding lookup_key reverse_lookup
    put_key_lem small = (
      ap (dense_of kv) (forward_after key ∙ if_true _ _ (same_bytes_refl key))
          ∙ rw (length-be_bytes 8 dense, be_value-be_bytes 8 dense (omega arith) small) refl,
      reverse_after dense ∙ if_true _ _ (same_bytes_refl (be_bytes 8 dense)),
      λ other differ.
          ap (dense_of kv)
            (forward_after other ∙ if_false _ _ (not_same key other (λ e. differ (sym e)))),
      λ j fits differ.
          reverse_after j
          ∙ if_false _ _ (
              same_bytes-be_bytes 8 dense j (omega arith) (omega arith)
              ∙ ne→== dense j (λ e. differ (sym e))),
    )
      where
        not_same : (a b : Bytes) → a ≢ b → same_bytes a b ≡ false
        not_same a b differ = elim (Bool-cases (same_bytes a b)) [
          | inl same ↦ absurd (differ (same_bytes→eq a b same))
          | inr other ↦ other
        ]
