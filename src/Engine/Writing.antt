-- ===== src/Engine/Writing.antt =====
-- The inserts and updates of src/astervec_db.cc on dense ids: `insertDense`, `updateDense` and what
-- they call. The lock of a point makes each call one step.
use aster_vec.Base.{
  ℕ, zero, suc, ◌+◌, ◌*◌, ◌%◌, ◌^◌, Bool, true, false, [], ◌∷◌, Option, none, some, length, ltb,
  ◌==◌, if◌then◌else◌,
}
use aster_vec.Base.Bytes.{Bytes}
use aster_vec.Base.Status.{
  Code, Result, ok, err, not_found, invalid_argument, not_supported, io_error,
}
use aster_vec.OpLog.Record.{op_insert, op_update, op_abort}
use aster_vec.OpLog.Writer.{OpLog, AppendIo, append}
use aster_vec.Bloom.{Rate}
use aster_vec.IdMap.{
  IdMap, max_real_id, resolve_internal, is_tombstoned, tombstone, is_alive, allocate_update_id,
  record_update_mapping,
}
use aster_vec.MetadataStore.Store.{Kv, Json}
use aster_vec.MetadataStore.{put_row, get_row}
use aster_vec.Engine.{Graph, Engine, write_scope, log_op, with_rows, drop_row}
use aster_vec.Engine.Action.{Action, pure, gets, check, at_start, modify, ◌>>=◌, ◌>>◌}

-- `metric` is the value of the enumeration `DistanceMetric`.
pub record Options : Type 0 where
  pub dim : ℕ
  pub metric : ℕ

abbrev pub max_metadata_json_bytes : ℕ
max_metadata_json_bytes = 64 * 1024

-- What the system answers to the record of the operation and, where it fails, to that of its abort.
pub record WriteIo : Type 0 where
  pub operation : AppendIo
  pub abort : AppendIo

-- A guard of an answer by another status.
abbrev pub andthen : {A : Type 0} → Result (Unit {0}) → Result A → Result A
andthen (err c) k = err c
andthen (ok _) k = k

abbrev pub is_absent : Bytes → Bool
is_absent [] = true
is_absent (c ∷ text) = false

module _ {J : Type 0} (json : Json J) where
  abbrev pub parsed_object : Option J → Result J
  parsed_object none = err invalid_argument
  parsed_object (some doc) = if json.is_object doc then ok doc else err invalid_argument

  unfoldable pub parse_metadata_object : Bytes → Result J
  parse_metadata_object text =
      if ltb max_metadata_json_bytes (length text)
      then err invalid_argument
      else parsed_object (json.parse text)

  abbrev pub without_value : Result J → Result (Unit {0})
  without_value (ok doc) = ok tt
  without_value (err c) = err c

  -- Metadata that is absent is fine.
  unfoldable pub validate_metadata : Bytes → Result (Unit {0})
  validate_metadata payload =
      if is_absent payload then ok tt else without_value (parse_metadata_object payload)

unfoldable pub ensure_metric_supported : Options → Result (Unit {0})
ensure_metric_supported options =
    if options.metric == 0 then ok tt else if options.metric == 1 then ok tt else err not_supported

unfoldable pub add_live : ℕ → ℕ
add_live live = (live + 1) % 2 ^ 64

module _ {G D V J : Type 0} (graph : Graph G V) (kv : Kv D) (json : Json J) (rate : Rate)
    (options : Options) where
  unfoldable pub validate_vector : V → Result (Unit {0})
  validate_vector v = if graph.size v == options.dim then ok tt else err invalid_argument

  unfoldable pub validate_insert_args : V → Bytes → Result (Unit {0})
  validate_insert_args v payload =
      andthen (ensure_metric_supported options)
        (andthen (validate_vector v) (validate_metadata json payload))

  -- The vector of a record, and the encoded bytes that `logOp` hands on: none without a log.
  abbrev pub span : V → Option V
  span v = if graph.size v == 0 then none else some v

  abbrev pub encode_span : Option V → Option Bytes
  encode_span none = none
  encode_span (some v) = some (graph.encode v)

  abbrev pub encoded : Option OpLog → V → Option Bytes
  encoded none v = none
  encoded (some log) v = encode_span (span v)

  abbrev pub keep_log : Engine G D → Option (Result ℕ × OpLog) → Option (Engine G D)
  keep_log e none = none
  keep_log e (some (s, log)) = some (record e { log = some log })

  abbrev pub abort_in : AppendIo → ℕ → Engine G D → Option OpLog → Option (Engine G D)
  abort_in io lsn e none = some e
  abort_in io lsn e (some log) =
      if lsn == 0
      then some e
      else keep_log e (
          append io
            (record {
              lsn = 0;
              op = op_abort;
              encoding = 0;
              real_id = 0;
              internal_id = 0;
              aux = lsn;
              vector = [];
              key = [];
              payload = [];
            })
            log)

  -- The status of the append is only written to the program's log.
  unfoldable pub log_abort : AppendIo → ℕ → Engine G D → Option (Engine G D)
  log_abort io lsn e = abort_in io lsn e e.log

  abbrev pub aborted : Code → Option (Engine G D) → Option (Result (Unit {0}) × Engine G D)
  aborted c none = none
  aborted c (some e) = some (err c, e)

  -- Behind `insertNode`: an error, or an exception, is logged as an abort.
  abbrev pub node_stored :
      AppendIo
      → ℕ
      → Engine G D
      → Option (Result (Unit {0})) × G
      → Option (Result (Unit {0}) × Engine G D)
  node_stored io lsn e (none, g) = aborted io_error (log_abort io lsn (record e { graph = g }))
  node_stored io lsn e (some (err c), g) = aborted c (log_abort io lsn (record e { graph = g }))
  node_stored io lsn e (some (ok _), g) = some (ok tt, record e { graph = g })

  unfoldable pub store_node : AppendIo → ℕ → ℕ → V → Option Bytes → Action (Engine G D) (Unit {0})
  store_node io lsn i v bytes e = node_stored io lsn e (graph.insert i v bytes e.graph)

  unfoldable pub allocate : Action (Engine G D) ℕ
  allocate e = let (i, ids) = allocate_update_id e.ids in some (ok i, record e { ids = ids })

  abbrev pub ids_recorded : Engine G D → Option IdMap → Option (Result (Unit {0}) × Engine G D)
  ids_recorded e none = none
  ids_recorded e (some ids) = some (ok tt, record e { ids = ids })

  unfoldable pub record_mapping : ℕ → ℕ → Action (Engine G D) (Unit {0})
  record_mapping r i e = ids_recorded e (record_update_mapping rate r i e.ids)

  -- A write to the payload rows, where there is a store.
  abbrev pub on_store :
      (D → Result (Unit {0}) × D) → Engine G D → Option D → Option (Result (Unit {0}) × Engine G D)
  on_store write e none = some (ok tt, e)
  on_store write e (some rows) = some (with_rows graph kv e (write rows))

  unfoldable pub put_payload : ℕ → Bytes → Action (Engine G D) (Unit {0})
  put_payload i payload e = on_store (put_row kv i payload) e e.rows

  abbrev pub copied : ℕ → Result Bytes → Action (Engine G D) (Unit {0})
  copied i (ok bytes) = put_payload i bytes
  copied i (err c) = pure tt

  abbrev pub copy_from : ℕ → ℕ → Option D → Action (Engine G D) (Unit {0})
  copy_from old i none = pure tt
  copy_from old i (some rows) = copied i (get_row kv old rows)

  -- The row of the old version, if it can be read, under the new id.
  unfoldable pub copy_payload : ℕ → ℕ → Action (Engine G D) (Unit {0})
  copy_payload old i = at_start (λ e. copy_from old i e.rows)

  abbrev pub tolerant : Result (Unit {0}) × Engine G D → Option (Result (Unit {0}) × Engine G D)
  tolerant (err not_found, e) = some (ok tt, e)
  tolerant (s, e) = some (s, e)

  unfoldable pub delete_payload : ℕ → Action (Engine G D) (Unit {0})
  delete_payload i e = tolerant (drop_row graph kv i e e.rows)

  unfoldable pub migrate_payload : ℕ → ℕ → Bytes → Action (Engine G D) (Unit {0})
  migrate_payload old i payload =
      (if is_absent payload then copy_payload old i else put_payload i payload)
      >> delete_payload old

  -- `updateDense` on a point that is alive.
  unfoldable pub update_alive : WriteIo → ℕ → V → Bytes → Bytes → Action (Engine G D) (Unit {0})
  update_alive io r v payload key = do
    old ← gets (λ e. resolve_internal e.ids r)
    new ← allocate
    bytes ← gets (λ e. encoded e.log v)
    lsn ← log_op graph kv io.operation op_update r new old (span v) payload key
    store_node io.abort lsn new v bytes
    record_mapping r new
    modify (λ e. record e { ids = tombstone old e.ids })
    migrate_payload old new payload

  -- The id that a new version of a point that is not alive gets, and whether it comes from the
  -- counter.
  abbrev pub choose_target : ℕ → Bool → Action (Engine G D) ℕ
  choose_target r true = allocate
  choose_target r false = pure r

  abbrev pub map_target : ℕ → ℕ → Bool → Action (Engine G D) (Unit {0})
  map_target r i true = record_mapping r i
  map_target r i false = pure tt

  unfoldable pub insert_as : WriteIo → ℕ → V → Bytes → Bytes → Bool → Action (Engine G D) (Unit {0})
  insert_as io r v payload key reinsert = do
    target ← choose_target r reinsert
    bytes ← gets (λ e. encoded e.log v)
    lsn ← log_op graph kv io.operation op_insert r target 0 (span v) payload key
    map_target r target reinsert
    store_node io.abort lsn target v bytes
    modify (λ e. record e { live = add_live e.live })
    if is_absent payload then pure tt else put_payload target payload

  -- `insertDense` on a point that is not alive.
  unfoldable pub insert_dead : WriteIo → ℕ → V → Bytes → Bytes → Action (Engine G D) (Unit {0})
  insert_dead io r v payload key =
      at_start (λ e. insert_as io r v payload key (is_tombstoned e.ids r))

  -- `insertDense` and `updateDense` call each other, and `calls` bounds how often; the point is
  -- locked, so two calls are enough.
  unfoldable mutual
    pub insert_dense : ℕ → WriteIo → ℕ → V → Bytes → Bytes → Action (Engine G D) (Unit {0})
    insert_dense zero io r v payload key = λ e. none
    insert_dense (suc calls) io r v payload key = do
      modify (write_scope graph kv)
      check (validate_insert_args v payload)
      at_start (λ e.
          if is_alive (graph.exists e.graph) e.ids r
          then update_dense calls io r v payload key
          else insert_dead io r v payload key)

    pub update_dense : ℕ → WriteIo → ℕ → V → Bytes → Bytes → Action (Engine G D) (Unit {0})
    update_dense zero io r v payload key = λ e. none
    update_dense (suc calls) io r v payload key = do
      modify (write_scope graph kv)
      check (if ltb max_real_id r then err invalid_argument else ok tt)
      check (validate_vector v)
      check (validate_metadata json payload)
      at_start (λ e.
          if is_alive (graph.exists e.graph) e.ids r
          then update_alive io r v payload key
          else insert_dense calls io r v payload key)
