-- ===== src/Engine/ReplayTests.antt =====
-- The record of an update of src/astervec_db.cc, logged and replayed in a small store.
use aster_vec.Base.{ℕ, ◌≡◌, refl, true, false, List, [], ◌∷◌, Option, none, some, arith}
use aster_vec.Base.Assoc.{lookup}
use aster_vec.Base.Status.{Result, ok}
use aster_vec.OpLog.Writer.{AppendIo}
use aster_vec.Base.Assoc.{assign, erase}
use aster_vec.Base.Bytes.{same_bytes}
use aster_vec.BigEndian.{be_bytes}
use aster_vec.Bloom.{might_contain, add, has_probes, has_bit, hash1, splitmix64}
use aster_vec.IdMap.{
  member, is_alive, is_tombstoned, resolve_internal, tombstone, mapped, allocate_update_id,
  record_update_mapping,
}
use aster_vec.MetadataStore.{get_row, delete_row}
use aster_vec.MetadataStore.ListStore.{search_rows, apply_changes}
use aster_vec.Engine.{log_op}
use aster_vec.Engine.Writing.{
  allocate, store_node, record_mapping, migrate_payload, copy_payload, delete_payload,
}
use aster_vec.MetadataStore.ListStore.{Rows, list_kv}
use aster_vec.Engine.{Graph, Engine}
use aster_vec.Engine.Frames.{engine_of}
use aster_vec.Engine.Writing.{WriteIo, update_alive}
use aster_vec.Engine.Updates.{IsGraph}
use aster_vec.Engine.Public.{Db}
use aster_vec.IdMap.{is_update_id, observe_update_id}
use aster_vec.Engine.Replay.{
  replay_record, replay_ids, replay_key, on_engine, replay_write, replay_applied, replay_node,
  map_update, mark_old, count_live, replay_payload,
}
use aster_vec.Engine.Replayed.{update_record, replay-update}
use aster_vec.Engine.WriteTests.{
  listed, listed-IsGraph, easy_rate, easy_rate-IsRate, any_json, options, no_mappings,
  no_mappings-IsGood, no_mappings-HasRoom, with_three, quiet, quiet_io, plain_db, db_after,
}
use aster_vec.OpLog.Writer.{OpLog, append, write_all, wrote}
use aster_vec.OpLog.Record.{OpRecord, frame, body_size, body_tail, numbered}
use aster_vec.Base.{length}
use aster_vec.Base.Bytes.{Bytes, le_bytes}
use aster_vec.OpLog.Tests.{empty_log}

-- A vector is a byte, which is its own encoding.
abbrev first_or_zero : Bytes → ℕ
first_or_zero [] = 0
first_or_zero (c ∷ bytes) = c

abbrev bytewise : Graph (List ℕ) ℕ
bytewise = record listed { encode = λ v. v ∷ []; decode = first_or_zero; record_size = 1 }

bytewise-IsGraph : IsGraph bytewise
bytewise-IsGraph = record { stores = listed-IsGraph.stores }

abbrev logging : Engine (List ℕ) Rows
logging = record with_three { log = some empty_log }

abbrev three_record : OpRecord
three_record =
    update_record bytewise list_kv any_json easy_rate options bytewise-IsGraph easy_rate-IsRate 3
      (omega arith) 7 [] [] logging

abbrev one_write : AppendIo
one_write = record quiet { writes = wrote (length (frame 1 three_record)) ∷ [] }

abbrev log_io : WriteIo
log_io = record quiet_io { operation = one_write }

abbrev log_of : Option (Result ℕ × OpLog) → OpLog
log_of none = empty_log
log_of (some (s, log)) = log

abbrev three_logged : OpLog
three_logged = log_of (append one_write three_record empty_log)

three_appended : append one_write three_record empty_log ≡ some (ok 1, three_logged)
unfolding append body_size body_tail write_all frame le_bytes
three_appended = refl

abbrev move_three : Option (Result (Unit {0}) × Engine (List ℕ) Rows)
move_three = update_alive bytewise list_kv any_json easy_rate options log_io 3 7 [] [] logging

abbrev three_moved : Engine (List ℕ) Rows
three_moved = engine_of logging move_three

move_three_returns : move_three ≡ some (ok tt, three_moved)
unfolding update_alive is_alive is_tombstoned member resolve_internal might_contain allocate
    allocate_update_id log_op store_node record_mapping record_update_mapping mapped add lookup
    assign erase tombstone migrate_payload copy_payload delete_payload get_row delete_row
    search_rows apply_changes be_bytes same_bytes has_probes has_bit hash1 splitmix64 append
    body_size body_tail write_all frame le_bytes
move_three_returns = refl

abbrev replay_three : Option (Result (Unit {0}) × Db (List ℕ) Rows)
replay_three =
    replay_record bytewise list_kv any_json easy_rate options false (numbered 1 three_record)
      (record { engine = logging; ids = plain_db.ids })

replay_three_returns : replay_three ≡ some (ok tt, db_after replay_three)
unfolding replay_record replay_ids replay_key on_engine replay_write replay_applied replay_node
    map_update mark_old count_live replay_payload is_update_id observe_update_id is_alive
    is_tombstoned member resolve_internal might_contain record_mapping record_update_mapping mapped
    add lookup assign erase tombstone copy_payload delete_payload get_row delete_row search_rows
    apply_changes be_bytes same_bytes has_probes has_bit hash1 splitmix64
replay_three_returns = refl

three_alive : is_alive (λ i. member i (3 ∷ [])) no_mappings 3 ≡ true
unfolding is_alive is_tombstoned member resolve_internal might_contain has_probes has_bit hash1
    splitmix64 lookup
three_alive = refl

replay-update_example :
    (three_moved.log ≡ some three_logged)
    × ((db_after replay_three).engine.ids ≡ three_moved.ids)
    × ((db_after replay_three).engine.live ≡ three_moved.live)
    × ((db_after replay_three).engine.graph ≡ three_moved.graph)
replay-update_example =
    replay-update bytewise list_kv any_json easy_rate options bytewise-IsGraph easy_rate-IsRate 3
      (omega arith) log_io 7 [] [] 1 empty_log three_logged logging three_moved (plain_db.ids)
      (db_after replay_three) no_mappings-IsGood no_mappings-HasRoom three_alive refl refl refl
      three_appended move_three_returns replay_three_returns
