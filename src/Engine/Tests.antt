-- ===== src/Engine/Tests.antt =====
-- A delete in a store without a log and without payloads, where every vector is there.
use aster_vec.Base.{
  ◌+◌, ◌-◌, ◌%◌, ◌^◌, ◌<◌, ◌≡◌, refl, ℕ, true, false, [], none, some, arith, ◌==◌, if◌then◌else◌,
  replicate,
}
use aster_vec.Base.Assoc.{lookup}
use aster_vec.Base.Status.{ok}
use aster_vec.OpLog.Writer.{AppendIo}
use aster_vec.IdMap.{IdMap, first_update_id, is_alive}
use aster_vec.IdMap.Invariant.{IsSound}
use aster_vec.IdMap.Deleting.{IsShadowed, deleted}
use aster_vec.MetadataStore.ListStore.{Rows, list_kv}
use aster_vec.Engine.{Graph, Engine, log_op, delete_dense}
use aster_vec.Engine.Deletes.{delete_dense_lem}

abbrev small_map : IdMap
small_map = record {
  bloom = record { bits = replicate 2 0; bit_count = 128; num_hash = 3; capacity = 8; inserts = 0 };
  forward = [];
  reverse = [];
  tombstones = [];
  next_update = first_update_id;
  rebuilds = 0;
}

small_map-IsSound : IsSound small_map
unfolding lookup
small_map-IsSound = record {
  filter = record { some_bits = omega arith; words = omega arith };
  known = λ r i h. cc;
  there = λ r i h. cc;
  back = λ r i h. cc;
  counter = omega arith;
  update_ids = λ r i h. cc;
}

small_map-IsShadowed : IsShadowed small_map
unfolding lookup
small_map-IsShadowed r i h = cc

-- The graph is the number of its vectors.
abbrev all_there : Graph ℕ ℕ
all_there = record {
  exists = λ g i. true;
  size = λ v. 4;
  encode = λ v. [];
  decode = λ bytes. 0;
  encoding = 0;
  record_size = 0;
  insert = λ i v bytes g. (some (ok tt), g + 1);
  read = λ i g. some 0;
}

abbrev start : Engine ℕ Rows
start = record {
  ids = small_map;
  graph = 1;
  rows = none;
  live = 1;
  log = none;
  writes = 0;
  ops = 0;
  due = false;
  interval = 0;
}

abbrev without_three : Engine ℕ Rows
without_three = record start {
  ids = deleted 3 small_map;
  live = if is_alive (λ i. true) small_map 3 then (1 + 2 ^ 64 - 1) % 2 ^ 64 else 1;
  writes = 1;
}

abbrev silent : AppendIo
silent = record { rotation = record { opens = true; syncs = true }; writes = []; truncates = true }

delete_dense_lem_example :
    ((j : ℕ)
      → j < first_update_id
      → is_alive (λ i. true) without_three.ids j
        ≡ (if j == 3 then false else is_alive (λ i. true) small_map j))
    × (without_three.live
        ≡ (if is_alive (λ i. true) small_map 3 then (1 + 2 ^ 64 - 1) % 2 ^ 64 else 1))
delete_dense_lem_example =
    delete_dense_lem all_there list_kv silent 3 start without_three small_map-IsSound
      small_map-IsShadowed (omega arith) (unfold delete_dense log_op in refl)
