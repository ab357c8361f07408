-- ===== src/MetadataStore/Tests.antt =====
-- The metadata store on a store that is a list of keys and values.
use aster_vec.Base.{ℕ, ◌^◌, ◌<◌, ◌≡◌, ◌≢◌, refl, [], ◌∷◌, some, arith}
use aster_vec.Base.Bytes.{Bytes}
use aster_vec.Base.Status.{ok}
use aster_vec.BigEndian.{be_bytes}
use aster_vec.MetadataStore.Store.{put}
use aster_vec.MetadataStore.{lookup_key, reverse_lookup, put_key, key_batch, put_keys}
use aster_vec.MetadataStore.IdRows.{put_key_lem}
use aster_vec.MetadataStore.ListStore.{Rows, apply_changes, list_kv, list_kv-IsStore}

abbrev key_seven : Bytes
key_seven = 1 ∷ 7 ∷ []

abbrev after_put : Rows
after_put =
    apply_changes (put (b'k' ∷ key_seven) (be_bytes 8 5) ∷ put (b'r' ∷ be_bytes 8 5) key_seven ∷ [])
      []

put_key_lem_example :
    (lookup_key list_kv key_seven (some after_put) ≡ ok 5)
    × (reverse_lookup list_kv 5 (some after_put) ≡ ok key_seven)
    × ((other : Bytes)
        → other ≢ key_seven
        → lookup_key list_kv other (some after_put) ≡ lookup_key list_kv other (some []))
    × ((j : ℕ)
        → j < 2 ^ 64
        → j ≢ 5
        → reverse_lookup list_kv j (some after_put) ≡ reverse_lookup list_kv j (some []))
put_key_lem_example =
    put_key_lem list_kv list_kv-IsStore key_seven 5 [] after_put
      (unfold put_key put_keys key_batch in refl) (omega arith)
