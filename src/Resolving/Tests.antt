-- ===== src/Resolving/Tests.antt =====
-- A new point id in an empty store.
use aster_vec.Base.{◌+◌, ◌≡◌, refl, Bool, true, [], ◌∷◌, some, arith}
use aster_vec.Base.Status.{ok}
use aster_vec.PointId.{PointId, str, encode}
use aster_vec.BigEndian.{be_bytes}
use aster_vec.MetadataStore.Store.{put}
use aster_vec.MetadataStore.{lookup_key, put_key, put_keys, key_batch}
use aster_vec.MetadataStore.ListStore.{Rows, search_rows, apply_changes, list_kv, list_kv-IsStore}
use aster_vec.Resolving.{Resolver, is_long, resolve_id}
use aster_vec.Resolving.Stable.{resolve_id-new}

abbrev point : PointId
point = str (b'a' ∷ [])

abbrev empty_store : Resolver Rows
empty_store = record { keyed = true; store = some (some []); next_dense = 0 }

abbrev one_entry : Rows
one_entry =
    apply_changes
      (put (b'k' ∷ encode point) (be_bytes 8 0) ∷ put (b'r' ∷ be_bytes 8 0) (encode point) ∷ []) []

resolve_id-new_example :
    (st' : Resolver Rows) × (resolve_id list_kv point true empty_store
      ≡ (record { key = encode point; dense = ok 0 }, st'))
    × ((create : Bool)
        → resolve_id list_kv point create st' ≡ (record { key = encode point; dense = ok 0 }, st'))
    × (st'.next_dense ≡ 0 + 1)
resolve_id-new_example =
    resolve_id-new list_kv point empty_store [] one_entry list_kv-IsStore refl
      (unfold is_long in refl) refl (unfold lookup_key search_rows in refl) (omega arith)
      (unfold put_key put_keys key_batch in refl)
