-- ===== src/Engine/Replay.antt =====
-- The replay of the operation log of src/astervec_db.cc: `replayRecord` and the passes of
-- `recoverFromOpLog` over the log. Nothing else runs while a store is opened.
use aster_vec.Base.{
  ℕ, ◌+◌, ◌-◌, ◌%◌, ◌^◌, Bool, true, false, not, ◌&&◌, List, [], ◌∷◌, Option, none, some, length,
  ltb, ◌==◌, if◌then◌else◌,
}
use aster_vec.Base.Bytes.{Bytes}
use aster_vec.Base.Status.{Code, Result, ok, err, corruption, io_error}
use aster_vec.OpLog.Record.{OpRecord, op_insert, op_update, op_delete, op_abort}
use aster_vec.OpLog.Names.{File, Segment}
use aster_vec.OpLog.Scan.{ScanStats, Callback, ScanRun, ScanEnd, done, stopped, failed, stuck, scan}
use aster_vec.Bloom.{Rate}
use aster_vec.IdMap.{
  is_update_id, tombstone, is_alive, observe_update_id, forget_update_mapping, member,
}
use aster_vec.MetadataStore.Store.{Kv, Json}
use aster_vec.MetadataStore.{get_row, put_key}
use aster_vec.Resolving.{observe_dense_id}
use aster_vec.Engine.{Graph, Engine, write_scope}
use aster_vec.Engine.Action.{Action, pure, raise, gets, check, at_start, modify, ◌>>=◌, ◌>>◌}
use aster_vec.Engine.Writing.{
  Options, add_live, record_mapping, put_payload, copy_payload, delete_payload,
}
use aster_vec.Engine.Public.{Db, back}

-- The lsns of the operations that failed after they were logged: the first pass.
unfoldable pub collect_abort : Callback (List ℕ)
collect_abort aborted r = (ok tt, (if r.op == op_abort then r.aux ∷ aborted else aborted))

module _ {G D V J : Type 0} (graph : Graph G V) (kv : Kv D) (json : Json J) (rate : Rate)
    (options : Options) where
  abbrev pub node_replayed :
      Engine G D → Option (Result (Unit {0})) × G → Option (Result (Unit {0}) × Engine G D)
  node_replayed e (none, g) = some (err io_error, record e { graph = g })
  node_replayed e (some s, g) = some (s, record e { graph = g })

  unfoldable pub replay_node : ℕ → Bytes → Action (Engine G D) (Unit {0})
  replay_node i bytes e = node_replayed e (graph.insert i (graph.decode bytes) (some bytes) e.graph)

  abbrev pub row_there : ℕ → Option D → Bool
  row_there i none = false
  row_there i (some rows) = elim (get_row kv i rows) [ ok bytes ↦ true | err c ↦ false ]

  -- A missing row is filled from the record or, on an update, from the old version's row.
  abbrev pub fill_payload : Bool → Bool → ℕ → ℕ → Bytes → Action (Engine G D) (Unit {0})
  fill_payload true update old i payload = pure tt
  fill_payload false update old i (c ∷ payload) =
      put_payload graph kv json rate options i (c ∷ payload)
  fill_payload false true old i [] = copy_payload graph kv json rate options old i
  fill_payload false false old i [] = pure tt

  abbrev pub drop_old : Bool → ℕ → Action (Engine G D) (Unit {0})
  drop_old true old = delete_payload graph kv json rate options old
  drop_old false old = pure tt

  unfoldable pub replay_payload : Bool → ℕ → ℕ → Bytes → Action (Engine G D) (Unit {0})
  replay_payload update old i payload = do
    have_new ← gets (λ e. row_there i e.rows)
    fill_payload have_new update old i payload
    drop_old update old

  -- The mapping of an insert under an update id, which comes before its node.
  abbrev pub map_insert : Bool → ℕ → ℕ → Action (Engine G D) (Unit {0})
  map_insert true r i = record_mapping graph kv json rate options r i
  map_insert false r i = pure tt

  unfoldable pub mark_old : ℕ → Engine G D → Engine G D
  mark_old old e = record e { ids = tombstone old e.ids }

  -- The mapping of an update, which comes behind its node.
  unfoldable pub map_update : Bool → ℕ → ℕ → ℕ → Action (Engine G D) (Unit {0})
  map_update true r i old = record_mapping graph kv json rate options r i >> modify (mark_old old)
  map_update false r i old = pure tt

  abbrev pub fits_encoding : OpRecord → Bool
  fits_encoding rec = rec.encoding == graph.encoding && length rec.vector == graph.record_size

  unfoldable pub count_live : Bool → Engine G D → Engine G D
  count_live was_alive e = if was_alive then e else record e { live = add_live e.live }

  unfoldable pub replay_applied : Bool → OpRecord → Bool → Action (Engine G D) (Unit {0})
  replay_applied update rec was_alive = do
    map_insert (not update && is_update_id rec.internal_id) rec.real_id rec.internal_id
    replay_node rec.internal_id rec.vector
    map_update update rec.real_id rec.internal_id rec.aux
    modify (count_live was_alive)
    replay_payload update rec.aux rec.internal_id rec.payload
    modify (write_scope graph kv)

  -- An insert or an update that was not aborted.
  unfoldable pub replay_write : Bool → OpRecord → Action (Engine G D) (Unit {0})
  replay_write update rec = do
    check (if fits_encoding rec then ok tt else err corruption)
    at_start (λ e. replay_applied update rec (is_alive (graph.exists e.graph) e.ids rec.real_id))

  unfoldable pub count_dead : Bool → Engine G D → Engine G D
  count_dead was_alive e =
      if was_alive then record e { live = (e.live + 2 ^ 64 - 1) % 2 ^ 64 } else e

  unfoldable pub replay_delete : OpRecord → Action (Engine G D) (Unit {0})
  replay_delete rec = do
    was_alive ← gets (λ e. is_alive (graph.exists e.graph) e.ids rec.real_id)
    modify (λ e. record e { ids = tombstone rec.internal_id e.ids })
    delete_payload graph kv json rate options rec.internal_id
    modify (λ e. record e { ids = forget_update_mapping rec.real_id e.ids })
    modify (count_dead was_alive)
    modify (write_scope graph kv)

  -- A step of the engine in an open store.
  unfoldable pub on_engine : Action (Engine G D) (Unit {0}) → Action (Db G D) (Unit {0})
  on_engine run db = back graph kv json rate options db.ids (run db.engine)

  abbrev pub observed : OpRecord → Engine G D → Engine G D
  observed rec e =
      if is_update_id rec.internal_id
      then record e { ids = observe_update_id rec.internal_id e.ids }
      else e

  abbrev pub key_put :
      ℕ → Db G D → Result (Unit {0}) × Option D → Option (Result (Unit {0}) × Db G D)
  key_put real db (err c, ids) =
      some (err c, record db { ids = record (db.ids) { store = some ids } })
  key_put real db (ok _, ids) =
      some (ok tt, record db { ids = observe_dense_id real (record (db.ids) { store = some ids }) })

  -- The key of the record, where there is an id map.
  abbrev pub replay_key_in :
      Bytes → ℕ → Db G D → Option (Option D) → Option (Result (Unit {0}) × Db G D)
  replay_key_in [] real db store = some (ok tt, db)
  replay_key_in (c ∷ key) real db none = some (ok tt, db)
  replay_key_in (c ∷ key) real db (some none) = some (ok tt, db)
  replay_key_in (c ∷ key) real db (some (some ids)) =
      key_put real db (put_key kv (c ∷ key) real (some ids))

  unfoldable pub replay_key : Bytes → ℕ → Action (Db G D) (Unit {0})
  replay_key key real db = replay_key_in key real db db.ids.store

  -- An insert or an update: a failed one still used up its ids.
  unfoldable pub replay_ids : Bool → Bool → OpRecord → Action (Db G D) (Unit {0})
  replay_ids aborted update rec = do
    on_engine (modify (observed rec))
    replay_key rec.key rec.real_id
    if aborted then pure tt else on_engine (replay_write update rec)

  unfoldable pub replay_record : Bool → OpRecord → Action (Db G D) (Unit {0})
  replay_record aborted rec =
      if rec.op == op_abort
      then pure tt
      else if rec.op == op_insert
      then replay_ids aborted false rec
      else if rec.op == op_update
      then replay_ids aborted true rec
      else if rec.op == op_delete
      then (if aborted then pure tt else on_engine (replay_delete rec))
      else raise corruption

  -- The second pass. Its state is `none` from where an exception left the replay.
  abbrev pub replayed : Option (Result (Unit {0}) × Db G D) → Result (Unit {0}) × Option (Db G D)
  replayed none = (err io_error, none)
  replayed (some (s, db)) = (s, some db)

  abbrev pub replay_in : List ℕ → OpRecord → Option (Db G D) → Result (Unit {0}) × Option (Db G D)
  replay_in aborted rec none = (err io_error, none)
  replay_in aborted rec (some db) = replayed (replay_record (member rec.lsn aborted) rec db)

  unfoldable pub replay_step : List ℕ → Callback (Option (Db G D))
  replay_step aborted db rec = replay_in aborted rec db

  -- The lsn behind the replayed records.
  abbrev pub next_after : ℕ → ScanStats → ℕ
  next_after from stats = if ltb 0 stats.records then (stats.last_lsn + 1) % 2 ^ 64 else from

  abbrev pub recovered : ℕ → ScanRun (Option (Db G D)) → Option (Result ℕ × Db G D)
  recovered from run = elim run.caller [
    | none ↦ none
    | some db ↦ some (ok (next_after from run.stats), db)
  ]

  abbrev pub replay_failed : Code → ScanRun (Option (Db G D)) → Option (Result ℕ × Db G D)
  replay_failed c run = elim run.caller [ none ↦ none | some db ↦ some (err c, db) ]

  abbrev pub second_pass : ℕ → Option (ScanEnd (Option (Db G D))) → Option (Result ℕ × Db G D)
  second_pass from none = none
  second_pass from (some (done run)) = recovered from run
  second_pass from (some (stopped run)) = recovered from run
  second_pass from (some (failed c run)) = replay_failed c run
  second_pass from (some stuck) = none

  abbrev pub replay_with :
      (Segment → Bool) → List File → ℕ → Db G D → ScanRun (List ℕ) → Option (Result ℕ × Db G D)
  replay_with opens dir from db run =
      second_pass from (scan opens dir from (replay_step run.caller) (some db))

  abbrev pub first_pass :
      (Segment → Bool)
      → List File
      → ℕ
      → Db G D
      → Option (ScanEnd (List ℕ))
      → Option (Result ℕ × Db G D)
  first_pass opens dir from db none = none
  first_pass opens dir from db (some (done run)) = replay_with opens dir from db run
  first_pass opens dir from db (some (stopped run)) = replay_with opens dir from db run
  first_pass opens dir from db (some (failed c run)) = some (err c, db)
  first_pass opens dir from db (some stuck) = none

  -- The two passes over the log; the answer is the next lsn.
  unfoldable pub replay_log : (Segment → Bool) → List File → ℕ → Db G D → Option (Result ℕ × Db G D)
  replay_log opens dir from db = first_pass opens dir from db (scan opens dir from collect_abort [])
