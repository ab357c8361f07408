-- ===== src/Resolving.antt =====
-- `AsterVecDB::resolveId` and `observeDenseId` of src/astervec_db.cc: from a caller's point id to
-- the dense id of the engine. The lock of a key makes each call one step.
pub mod Stable
pub mod Again
mod Tests
use aster_vec.Base.{
  ℕ, ◌+◌, ◌%◌, ◌^◌, Bool, true, false, [], ◌∷◌, Option, none, some, length, ltb, leb, if◌then◌else◌,
}
use aster_vec.Base.Bytes.{Bytes}
use aster_vec.Base.Status.{Result, ok, err, not_found, invalid_argument, io_error}
use aster_vec.PointId.{PointId, int, str, encode}
use aster_vec.IdMap.{max_real_id}
use aster_vec.MetadataStore.Store.{Kv}
use aster_vec.MetadataStore.{lookup_key, put_key}

abbrev pub max_string_bytes : ℕ
max_string_bytes = 1024

-- The members of the engine that resolving uses. `store` is `none` without a metadata store, and
-- its contents are `none` without an id map.
pub record Resolver (D : Type 0) : Type 0 where
  pub keyed : Bool
  pub store : Option (Option D)
  pub next_dense : ℕ

-- `*key`, which is cleared first, and the dense id or the status.
pub record Resolved : Type 0 where
  pub key : Bytes
  pub dense : Result ℕ

unfoldable pub is_long : PointId → Bool
is_long (int v) = false
is_long (str s) = ltb max_string_bytes (length s)

unfoldable pub resolve_dense : PointId → Result ℕ
resolve_dense (str s) = err invalid_argument
resolve_dense (int v) = if ltb max_real_id v then err invalid_argument else ok v

module _ {D : Type 0} (kv : Kv D) where
  abbrev pub after_put :
      Bytes → ℕ → Resolver D → Result (Unit {0}) × Option D → Resolved × Resolver D
  after_put key next st (ok _, ids) =
      (record { key = key; dense = ok next }, record st { store = some ids })
  after_put key next st (err c, ids) =
      (record { key = key; dense = err c }, record st { store = some ids })

  -- A key that is new: the counter moves also where the id space is exhausted.
  abbrev pub allocate_dense : Bytes → Option D → Resolver D → Resolved × Resolver D
  allocate_dense key ids st =
      let next = st.next_dense in
      let moved = record st { next_dense = (next + 1) % 2 ^ 64 } in
      if ltb max_real_id next
      then (record { key = key; dense = err invalid_argument }, moved)
      else after_put key next moved (put_key kv key next ids)

  abbrev pub after_lookup : Bytes → Bool → Option D → Resolver D → Result ℕ → Resolved × Resolver D
  after_lookup key create ids st (ok dense) = (record { key = key; dense = ok dense }, st)
  after_lookup key true ids st (err not_found) = allocate_dense key ids st
  after_lookup key create ids st (err c) = (record { key = key; dense = err c }, st)

  abbrev pub resolve_key : Bytes → Bool → Resolver D → Option (Option D) → Resolved × Resolver D
  resolve_key key create st none = (record { key = []; dense = err io_error }, st)
  resolve_key key create st (some ids) = after_lookup key create ids st (lookup_key kv key ids)

  unfoldable pub resolve_id : PointId → Bool → Resolver D → Resolved × Resolver D
  resolve_id id create st =
      if st.keyed
      then (if is_long id
          then (record { key = []; dense = err invalid_argument }, st)
          else resolve_key (encode id) create st st.store)
      else (record { key = []; dense = resolve_dense id }, st)

-- The exchange loop ends with the first that succeeds.
unfoldable pub observe_dense_id : {D : Type 0} → ℕ → Resolver D → Resolver D
observe_dense_id dense st =
    if leb st.next_dense dense then record st { next_dense = (dense + 1) % 2 ^ 64 } else st
