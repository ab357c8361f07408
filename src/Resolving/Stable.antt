-- ===== src/Resolving/Stable.antt =====
-- A point id gets one dense id and keeps it.
use aster_vec.Base.{◌+◌, ◌%◌, ◌^◌, ◌≤◌, ◌≡◌, refl, Bool, true, false, some, arith, le→ltb}
use aster_vec.Base.Status.{ok, err, not_found}
use aster_vec.PointId.{PointId, encode}
use aster_vec.IdMap.{max_real_id}
use aster_vec.MetadataStore.Store.{Kv, IsStore}
use aster_vec.MetadataStore.{lookup_key, put_key}
use aster_vec.MetadataStore.IdRows.{put_key_lem}
use aster_vec.Resolving.{Resolver, is_long, resolve_id}

-- In a keyed store, a point id without an entry gets the next dense id where the id space has room
-- and the entry is written, and the next resolution of it, creating or not, gives the same
-- dense id and changes nothing; the next new id gets a greater one.
pub resolve_id-new :
    {D : Type 0} (kv : Kv D) (id : PointId) (st : Resolver D) (ids ids' : D)
    → IsStore kv
    → st.keyed ≡ true
    → is_long id ≡ false
    → st.store ≡ some (some ids)
    → lookup_key kv (encode id) (some ids) ≡ err not_found
    → st.next_dense ≤ max_real_id
    → put_key kv (encode id) st.next_dense (some ids) ≡ (ok tt, some ids')
    → (st' : Resolver D) × (resolve_id kv id true st
        ≡ (record { key = encode id; dense = ok st.next_dense }, st'))
      × ((create : Bool)
          → resolve_id kv id create st'
            ≡ (record { key = encode id; dense = ok st.next_dense }, st'))
      × (st'.next_dense ≡ st.next_dense + 1)
unfolding resolve_id
resolve_id-new kv id st ids ids' lawful keyed short there missing room written = (
  record st { store = some (some ids'); next_dense = (st.next_dense + 1) % 2 ^ 64 },
  rw (keyed, short, there, missing, le→ltb max_real_id st.next_dense room, written) refl,
  λ create.
      rw
        (
          keyed,
          short,
          (put_key_lem kv lawful (encode id) st.next_dense ids ids' written
              (omega (arith, room))).0,
        )
        refl,
  omega (arith, room),
)
