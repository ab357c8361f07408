-- ===== src/Engine.antt =====
-- The delete of src/astervec_db.cc on dense ids, `logOp` and `deleteDense`. The lock of a point makes
-- it one step. `none`: a write to the log has not returned. The vector storage behind the index is
-- an interface; the index and its storage are there in an open store.
pub mod Deletes
pub mod Action
pub mod Frames
pub mod Writing
pub mod Updates
pub mod Lives
pub mod Calls
pub mod Payloads
pub mod Public
pub mod Inserted
pub mod Reads
pub mod Replay
pub mod Replayed
pub mod Queries
pub mod Answers
mod Tests
mod WriteTests
mod ReplayTests
mod QueryTests
use aster_vec.Base.{
  ℕ, ◌+◌, ◌-◌, ◌%◌, ◌^◌, ◌<◌, Bool, true, false, ◌&&◌, List, [], ◌∷◌, Option, none, some, ltb, leb,
  ◌==◌, if◌then◌else◌,
}
use aster_vec.Base.Bytes.{Bytes}
use aster_vec.Base.Status.{Result, ok, err, ◌>>=◌, not_found, invalid_argument}
use aster_vec.OpLog.Record.{OpRecord, op_insert, op_update, op_delete, op_abort}
use aster_vec.OpLog.Writer.{OpLog, AppendIo, append}
use aster_vec.Bloom.{Rate}
use aster_vec.IdMap.{
  IdMap, max_real_id, resolve_internal, is_tombstoned, tombstone, is_alive, allocate_update_id,
  record_update_mapping, forget_update_mapping,
}
use aster_vec.MetadataStore.Store.{Kv}
use aster_vec.MetadataStore.{put_row, get_row, delete_row}

-- Which vectors there are in `G`, and how a vector is stored. `insert` is `insertNode` with the
-- encoded bytes where there are some: its status, or `none` where it throws. `read` is `none` where
-- the vector cannot be read.
pub record Graph (G V : Type 0) : Type 0 where
  pub exists : G → ℕ → Bool
  pub size : V → ℕ
  pub encode : V → Bytes
  pub decode : Bytes → V
  pub encoding : ℕ
  pub record_size : ℕ
  pub insert : ℕ → V → Option Bytes → G → Option (Result (Unit {0})) × G
  pub read : ℕ → G → Option V

-- `log` is `oplog_`, `rows` the store behind `metadata_store_`, `interval` is
-- `checkpoint_interval_ops`; `live` is `live_count_`, in two's complement.
pub record Engine (G D : Type 0) : Type 0 where
  pub ids : IdMap
  pub graph : G
  pub rows : Option D
  pub live : ℕ
  pub log : Option OpLog
  pub writes : ℕ
  pub ops : ℕ
  pub due : Bool
  pub interval : ℕ

module _ {G D V : Type 0} (graph : Graph G V) (kv : Kv D) where
  abbrev pub write_scope : Engine G D → Engine G D
  write_scope e = record e { writes = (e.writes + 1) % 2 ^ 64 }

  -- The counter of operations since the last checkpoint.
  abbrev pub counted : Engine G D → Engine G D
  counted e =
      if e.interval == 0
      then e
      else (let ops = (e.ops + 1) % 2 ^ 64 in
          if leb e.interval ops then record e { ops = ops; due = true } else record e { ops = ops })

  abbrev pub logged : Engine G D → Option (Result ℕ × OpLog) → Option (Result ℕ × Engine G D)
  logged e none = none
  logged e (some (lsn, log)) = some (lsn, record e { log = some log })

  abbrev pub append_to_log :
      AppendIo → OpRecord → Engine G D → Option OpLog → Option (Result ℕ × Engine G D)
  append_to_log io r e none = some (ok 0, e)
  append_to_log io r e (some log) = logged e (append io r log)

  abbrev pub vector_bytes : Option V → Bytes
  vector_bytes none = []
  vector_bytes (some v) = graph.encode v

  abbrev pub vector_encoding : Option V → ℕ
  vector_encoding none = 0
  vector_encoding (some v) = graph.encoding

  -- The record of an operation; `Append` fills in the lsn.
  abbrev pub logged_record : ℕ → ℕ → ℕ → ℕ → Option V → Bytes → Bytes → OpRecord
  logged_record op real internal old vector payload key = record {
    lsn = 0;
    op = op;
    encoding = vector_encoding vector;
    real_id = real;
    internal_id = internal;
    aux = old;
    vector = vector_bytes vector;
    key = key;
    payload = payload;
  }

  unfoldable pub log_op :
      AppendIo
      → ℕ
      → ℕ
      → ℕ
      → ℕ
      → Option V
      → Bytes
      → Bytes
      → Engine G D
      → Option (Result ℕ × Engine G D)
  log_op io op real internal old vector payload key e =
      append_to_log io (logged_record op real internal old vector payload key) (counted e) e.log

  abbrev pub with_rows : Engine G D → Result (Unit {0}) × D → Result (Unit {0}) × Engine G D
  with_rows e (s, rows) = (s, record e { rows = some rows })

  abbrev pub drop_row : ℕ → Engine G D → Option D → Result (Unit {0}) × Engine G D
  drop_row i e none = (ok tt, e)
  drop_row i e (some rows) = with_rows e (delete_row kv i rows)

  abbrev pub finished : ℕ → Bool → Engine G D → Result (Unit {0}) × Engine G D
  finished r was_alive e = (
    ok tt,
    record e {
      ids = forget_update_mapping r e.ids;
      live = if was_alive then (e.live + 2 ^ 64 - 1) % 2 ^ 64 else e.live;
    },
  )

  -- What follows the deletion of the row; that the row is missing is fine.
  abbrev pub forgotten : ℕ → Bool → Engine G D → Result (Unit {0}) → Result (Unit {0}) × Engine G D
  forgotten r was_alive e (err not_found) = finished r was_alive e
  forgotten r was_alive e (err c) = (err c, e)
  forgotten r was_alive e (ok _) = finished r was_alive e

  abbrev pub row_dropped :
      ℕ → Bool → Result (Unit {0}) × Engine G D → Result (Unit {0}) × Engine G D
  row_dropped r was_alive (s, e) = forgotten r was_alive e s

  -- `deleteDense` behind the log.
  abbrev pub delete_logged :
      ℕ → ℕ → Bool → Option (Result ℕ × Engine G D) → Option (Result (Unit {0}) × Engine G D)
  delete_logged r i was_alive none = none
  delete_logged r i was_alive (some (err c, e)) = some (err c, e)
  delete_logged r i was_alive (some (ok _, e)) =
      let dead = record e { ids = tombstone i e.ids } in
      some (row_dropped r was_alive (drop_row i dead dead.rows))

  unfoldable pub delete_dense : AppendIo → ℕ → Engine G D → Option (Result (Unit {0}) × Engine G D)
  delete_dense io r e =
      let was_alive = is_alive (graph.exists e.graph) e.ids r in
      let i = resolve_internal e.ids r in
      if graph.exists e.graph i
      then delete_logged r i was_alive (log_op io op_delete r i 0 none [] [] (write_scope e))
      else some (ok tt, write_scope e)
