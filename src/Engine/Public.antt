-- ===== src/Engine/Public.antt =====
-- The public calls of src/astervec_db.cc on point ids: they resolve the caller's id and go on with
-- the dense id. The calls on integers pass an integer point id.
use aster_vec.Base.{ℕ, Bool, true, false, List, [], Option, none, some, if◌then◌else◌}
use aster_vec.Base.Bytes.{Bytes}
use aster_vec.Base.Status.{Result, ok, err, not_found, invalid_argument}
use aster_vec.OpLog.Writer.{AppendIo}
use aster_vec.Bloom.{Rate}
use aster_vec.MetadataStore.Store.{Kv, Json}
use aster_vec.PointId.{PointId}
use aster_vec.Resolving.{Resolver, Resolved, is_long, resolve_dense, resolve_id}
use aster_vec.Engine.{Graph, Engine, write_scope, delete_dense}
use aster_vec.Engine.Action.{Action}
use aster_vec.Engine.Writing.{
  Options, WriteIo, andthen, validate_insert_args, insert_dense, update_dense,
}
use aster_vec.Engine.Payloads.{
  empty_object, get_dense, get_payload_dense, set_payload_dense, update_payload_dense,
  delete_payload_keys_dense,
}

-- The engine on dense ids, and the members that resolving uses.
pub record Db (G D : Type 0) : Type 0 where
  pub engine : Engine G D
  pub ids : Resolver D

-- How a call goes on behind the resolution of its id.
abbrev pub Dense : Type 0 → Type 0 → Type 0 → Type 0
Dense G D A = Bytes → ℕ → Action (Engine G D) A

module _ {G D V J : Type 0} (graph : Graph G V) (kv : Kv D) (json : Json J) (rate : Rate)
    (options : Options) where
  -- `WriteScope` of the public call.
  abbrev pub scoped : Db G D → Db G D
  scoped db = record db { engine = write_scope graph kv db.engine }

  abbrev pub back :
      {A : Type 0} → Resolver D → Option (Result A × Engine G D) → Option (Result A × Db G D)
  back st none = none
  back st (some (s, e)) = some (s, record { engine = e; ids = st })

  -- The call on the dense id, or the status of the resolution; `missing` answers for an id that was
  -- never written.
  abbrev pub on_resolved :
      {A : Type 0}
      → Result A
      → Dense G D A
      → Engine G D
      → Resolver D
      → Bytes
      → Result ℕ
      → Option (Result A × Db G D)
  on_resolved missing run e st key (ok dense) = back st (run key dense e)
  on_resolved missing run e st key (err not_found) = some (missing, record { engine = e; ids = st })
  on_resolved missing run e st key (err c) = some (err c, record { engine = e; ids = st })

  abbrev pub on_dense :
      {A : Type 0}
      → Result A
      → Dense G D A
      → Engine G D
      → Resolved × Resolver D
      → Option (Result A × Db G D)
  on_dense missing run e (found, st) = on_resolved missing run e st found.key found.dense

  abbrev pub without_id : Result ℕ → Result (Unit {0})
  without_id (ok dense) = ok tt
  without_id (err c) = err c

  unfoldable pub validate_insert : Bool → PointId → V → Bytes → Result (Unit {0})
  validate_insert keyed id v payload =
      andthen
        (if keyed
          then (if is_long id then err invalid_argument else ok tt)
          else without_id (resolve_dense id))
        (validate_insert_args graph kv json rate options v payload)

  abbrev pub if_valid :
      {A : Type 0}
      → Db G D
      → Option (Result A × Db G D)
      → Result (Unit {0})
      → Option (Result A × Db G D)
  if_valid db go (err c) = some (err c, db)
  if_valid db go (ok _) = go

  unfoldable pub insert :
      WriteIo → PointId → V → Bytes → Db G D → Option (Result (Unit {0}) × Db G D)
  insert io id v payload db =
      let open_db = scoped db in
      if_valid open_db
        (on_dense (err not_found)
          (λ key r. insert_dense graph kv json rate options 2 io r v payload key) open_db.engine
          (resolve_id kv id true open_db.ids))
        (validate_insert db.ids.keyed id v payload)

  unfoldable pub update : WriteIo → PointId → V → Db G D → Option (Result (Unit {0}) × Db G D)
  update io id v db =
      let open_db = scoped db in
      if_valid open_db
        (on_dense (err not_found) (λ key r. update_dense graph kv json rate options 2 io r v [] key)
          open_db.engine (resolve_id kv id true open_db.ids))
        (validate_insert db.ids.keyed id v [])

  -- An id that was never written: there is nothing to delete.
  unfoldable pub remove : AppendIo → PointId → Db G D → Option (Result (Unit {0}) × Db G D)
  remove io id db =
      let open_db = scoped db in
      on_dense (ok tt) (λ key r. delete_dense graph kv io r) open_db.engine
        (resolve_id kv id false open_db.ids)

  -- A read leaves the engine as it is.
  abbrev pub reading : {A : Type 0} → (ℕ → Engine G D → Result A) → Dense G D A
  reading read key r e = some (read r e, e)

  unfoldable pub get : PointId → Db G D → Option (Result V × Db G D)
  get id db =
      on_dense (err not_found) (reading (get_dense graph kv json)) db.engine
        (resolve_id kv id false db.ids)

  unfoldable pub get_payload : PointId → Db G D → Option (Result Bytes × Db G D)
  get_payload id db =
      on_dense (ok empty_object) (reading (get_payload_dense graph kv json)) db.engine
        (resolve_id kv id false db.ids)

  unfoldable pub set_payload : PointId → Bytes → Db G D → Option (Result (Unit {0}) × Db G D)
  set_payload id payload db =
      let open_db = scoped db in
      on_dense (err not_found) (λ key r. set_payload_dense graph kv json r payload) open_db.engine
        (resolve_id kv id false open_db.ids)

  unfoldable pub update_payload : PointId → Bytes → Db G D → Option (Result (Unit {0}) × Db G D)
  update_payload id partial db =
      let open_db = scoped db in
      on_dense (err not_found) (λ key r. update_payload_dense graph kv json r partial)
        open_db.engine (resolve_id kv id false open_db.ids)

  unfoldable pub delete_payload_keys :
      PointId → List Bytes → Db G D → Option (Result (Unit {0}) × Db G D)
  delete_payload_keys id keys db =
      let open_db = scoped db in
      on_dense (err not_found) (λ key r. delete_payload_keys_dense graph kv json r keys)
        open_db.engine (resolve_id kv id false open_db.ids)
