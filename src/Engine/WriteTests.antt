-- ===== src/Engine/WriteTests.antt =====
-- Writes in a store without a log, whose graph is the list of its vectors' ids.
use aster_vec.Base.{
  ℕ, ◌<◌, ◌≡◌, ◌≢◌, refl, ap, sym, ◌∙◌, true, false, List, [], ◌∷◌, Option, none, some, arith, ◌==◌,
  if_true, if_false, if◌then◌else◌, Bool-cases, inl, inr, replicate,
}
use aster_vec.Base.Assoc.{lookup}
use aster_vec.Base.Status.{io_error, Result, ok}
use aster_vec.OpLog.Writer.{AppendIo}
use aster_vec.Base.Assoc.{assign, erase}
use aster_vec.Base.Bytes.{same_bytes}
use aster_vec.BigEndian.{be_bytes}
use aster_vec.Bloom.{Rate, might_contain, add, has_probes, has_bit, hash1, splitmix64}
use aster_vec.IdMap.{
  IdMap, first_update_id, member, is_alive, is_tombstoned, resolve_internal, tombstone, mapped,
  allocate_update_id, record_update_mapping,
}
use aster_vec.MetadataStore.{get_row, delete_row, put_row}
use aster_vec.MetadataStore.ListStore.{search_rows, apply_changes}
use aster_vec.Engine.{log_op}
use aster_vec.Engine.Writing.{
  validate_vector, validate_metadata, validate_insert_args, ensure_metric_supported,
  parse_metadata_object, allocate, store_node, record_mapping, migrate_payload, copy_payload,
  delete_payload, insert_dead, insert_as,
}
use aster_vec.IdMap.Updating.{IsRate}
use aster_vec.IdMap.Good.{IsGood, HasRoom, Revived}
use aster_vec.MetadataStore.Store.{Json}
use aster_vec.MetadataStore.ListStore.{Rows, list_kv, list_kv-IsStore}
use aster_vec.PointId.{int}
use aster_vec.Resolving.{resolve_id}
use aster_vec.Engine.{Graph, Engine}
use aster_vec.Engine.Frames.{engine_of}
use aster_vec.Engine.Writing.{Options, WriteIo, insert_dense, update_dense, update_alive, add_live}
use aster_vec.Engine.Updates.{IsGraph}
use aster_vec.Engine.Lives.{update_dense_lem, insert_dense_lem}
use aster_vec.Engine.Action.{raise}
use aster_vec.Engine.Calls.{insert_by, update_by, insert_dense-calls}
use aster_vec.Engine.Payloads.{has_live_vector, get_payload_dense, set_payload_dense}
use aster_vec.Engine.Public.{Db, insert}
use aster_vec.Engine.Inserted.{insert-alive}
use aster_vec.Engine.Reads.{get_payload-set_payload}
use aster_vec.Engine.Public.{validate_insert}
use aster_vec.Resolving.{resolve_dense}

abbrev pub listed : Graph (List ℕ) ℕ
listed = record {
  exists = λ g i. member i g;
  size = λ v. 4;
  encode = λ v. [];
  decode = λ bytes. 0;
  encoding = 0;
  record_size = 0;
  insert = λ i v bytes g. (some (ok tt), i ∷ g);
  read = λ i g. some 0;
}

pub listed-IsGraph : IsGraph listed
unfolding member
listed-IsGraph = record {
  stores = λ i v bytes g g' h j.
      ap (member j) (ap (λ p. p.1) (sym h)) ∙ elim (Bool-cases (i == j)) [
        | inl same ↦ if_true _ _ same ∙ sym (if_true _ _ (flip i j same))
        | inr other ↦ if_false _ _ other ∙ sym (if_false _ _ (flip_not i j other))
      ];
}
  where
    flip : (i j : ℕ) → (i == j) ≡ true → (j == i) ≡ true
    flip i j h = ground arith

    flip_not : (i j : ℕ) → (i == j) ≡ false → (j == i) ≡ false
    flip_not i j h = ground arith

abbrev pub easy_rate : Rate
easy_rate = record { in_range = true; raw_bits = λ n. 0; raw_hashes = 1; full = λ n c. false }

pub easy_rate-IsRate : IsRate easy_rate
easy_rate-IsRate = record { in_range = refl; fits = λ n. omega arith }

abbrev pub any_json : Json ℕ
any_json = record {
  parse = λ text. some 0;
  dump = λ doc. [];
  object = 0;
  is_object = λ doc. true;
  merge_patch = λ a b. b;
  erase = λ k doc. doc;
}

abbrev pub options : Options
options = record { dim = 4; metric = 0 }

abbrev pub no_mappings : IdMap
no_mappings = record {
  bloom = record { bits = replicate 2 0; bit_count = 128; num_hash = 3; capacity = 8; inserts = 0 };
  forward = [];
  reverse = [];
  tombstones = [];
  next_update = first_update_id;
  rebuilds = 0;
}

pub no_mappings-IsGood : IsGood no_mappings
unfolding lookup is_tombstoned member
no_mappings-IsGood = record {
  sound = record {
    filter = record { some_bits = omega arith; words = omega arith };
    known = λ r i h. cc;
    there = λ r i h. cc;
    back = λ r i h. cc;
    counter = omega arith;
    update_ids = λ r i h. cc;
  };
  shadowed = λ r i h. cc;
  marked = λ t h. cc;
}

pub no_mappings-HasRoom : HasRoom no_mappings
no_mappings-HasRoom = record { ids = omega arith; filter = omega arith }

abbrev pub with_three : Engine (List ℕ) Rows
with_three = record {
  ids = no_mappings;
  graph = 3 ∷ [];
  rows = some [];
  live = 1;
  log = none;
  writes = 0;
  ops = 0;
  due = false;
  interval = 0;
}

abbrev pub quiet : AppendIo
quiet = record { rotation = record { opens = true; syncs = true }; writes = []; truncates = true }

abbrev pub quiet_io : WriteIo
quiet_io = record { operation = quiet; abort = quiet }

abbrev update_three : Option (Result (Unit {0}) × Engine (List ℕ) Rows)
update_three =
    update_dense listed list_kv any_json easy_rate options 2 quiet_io 3 7 [] [] with_three

abbrev insert_five : Option (Result (Unit {0}) × Engine (List ℕ) Rows)
insert_five = insert_dense listed list_kv any_json easy_rate options 2 quiet_io 5 7 [] [] with_three

abbrev three_updated : Engine (List ℕ) Rows
three_updated = engine_of with_three update_three

abbrev five_inserted : Engine (List ℕ) Rows
five_inserted = engine_of with_three insert_five

update_three_returns : update_three ≡ some (ok tt, three_updated)
unfolding update_dense update_alive validate_vector validate_metadata is_alive is_tombstoned member
    resolve_internal might_contain allocate allocate_update_id log_op store_node record_mapping
    record_update_mapping mapped add lookup assign erase tombstone migrate_payload copy_payload
    delete_payload get_row delete_row search_rows apply_changes be_bytes same_bytes has_probes
    has_bit hash1 splitmix64
update_three_returns = refl

insert_five_returns : insert_five ≡ some (ok tt, five_inserted)
unfolding insert_dense insert_dead insert_as validate_insert_args ensure_metric_supported
    validate_vector validate_metadata is_alive is_tombstoned member resolve_internal might_contain
    log_op store_node has_probes has_bit hash1 splitmix64
insert_five_returns = refl

update_dense_lem_example :
    Revived
      (λ i. member i (3 ∷ []))
      no_mappings
      3
      (λ i. member i three_updated.graph)
      three_updated.ids
    × IsGood three_updated.ids
    × (three_updated.live
        ≡ (if is_alive (λ i. member i (3 ∷ [])) no_mappings 3 then 1 else add_live 1))
update_dense_lem_example =
    update_dense_lem listed list_kv any_json easy_rate options listed-IsGraph easy_rate-IsRate
      quiet_io 3 (omega arith) 7 [] [] 2 with_three three_updated no_mappings-IsGood
      no_mappings-HasRoom update_three_returns

insert_dense_lem_example :
    Revived
      (λ i. member i (3 ∷ []))
      no_mappings
      5
      (λ i. member i five_inserted.graph)
      five_inserted.ids
    × IsGood five_inserted.ids
    × (five_inserted.live
        ≡ (if is_alive (λ i. member i (3 ∷ [])) no_mappings 5 then 1 else add_live 1))
insert_dense_lem_example =
    insert_dense_lem listed list_kv any_json easy_rate options listed-IsGraph easy_rate-IsRate
      quiet_io 5 (omega arith) 7 [] [] 2 with_three five_inserted no_mappings-IsGood
      no_mappings-HasRoom insert_five_returns

insert_dense-calls_example :
    (insert_dense listed list_kv any_json easy_rate options 5 quiet_io 3 7 [] [] with_three
      ≡ insert_by listed list_kv any_json easy_rate options quiet_io 3 7 [] []
          (update_by listed list_kv any_json easy_rate options quiet_io 3 7 [] [] (raise io_error))
          with_three)
    × (update_dense listed list_kv any_json easy_rate options 5 quiet_io 3 7 [] [] with_three
        ≡ update_by listed list_kv any_json easy_rate options quiet_io 3 7 [] []
            (insert_by listed list_kv any_json easy_rate options quiet_io 3 7 [] []
              (raise io_error))
            with_three)
insert_dense-calls_example =
    insert_dense-calls listed list_kv any_json easy_rate options quiet_io 3 7 [] [] 3 with_three
      (raise io_error)

-- A store with plain ids.
abbrev pub plain_db : Db (List ℕ) Rows
plain_db = record {
  engine = with_three;
  ids = record { keyed = false; store = some none; next_dense = 0 };
}

abbrev pub db_after : Option (Result (Unit {0}) × Db (List ℕ) Rows) → Db (List ℕ) Rows
db_after none = plain_db
db_after (some (s, db)) = db

abbrev insert_point : Option (Result (Unit {0}) × Db (List ℕ) Rows)
insert_point = insert listed list_kv any_json easy_rate options quiet_io (int 5) 7 [] plain_db

insert_point_returns : insert_point ≡ some (ok tt, db_after insert_point)
unfolding insert resolve_id resolve_dense validate_insert insert_dense insert_dead insert_as
    validate_insert_args ensure_metric_supported validate_vector validate_metadata is_alive
    is_tombstoned member resolve_internal might_contain log_op store_node has_probes has_bit hash1
    splitmix64
insert_point_returns = refl

five_in_range :
    (r : ℕ) → (resolve_id list_kv (int 5) true (plain_db.ids)).0.dense ≡ ok r → r < first_update_id
unfolding resolve_id resolve_dense
five_in_range r h = let five : 5 ≡ r = cc h in omega (arith, five)

insert-alive_example :
    (r : ℕ) × ((resolve_id list_kv (int 5) false (db_after insert_point).ids).0.dense ≡ ok r)
    × ((resolve_id list_kv (int 5) false (db_after insert_point).ids).1
        ≡ (db_after insert_point).ids)
    × (has_live_vector listed list_kv any_json r (db_after insert_point).engine ≡ true)
    × IsGood (db_after insert_point).engine.ids
insert-alive_example =
    insert-alive listed list_kv any_json easy_rate options quiet_io (int 5) 7 [] plain_db
      (db_after insert_point) listed-IsGraph easy_rate-IsRate list_kv-IsStore no_mappings-IsGood
      no_mappings-HasRoom five_in_range insert_point_returns

abbrev set_three : Option (Result (Unit {0}) × Engine (List ℕ) Rows)
set_three = set_payload_dense listed list_kv any_json 3 (1 ∷ []) with_three

abbrev three_set : Engine (List ℕ) Rows
three_set = engine_of with_three set_three

set_three_returns : set_three ≡ some (ok tt, three_set)
unfolding set_payload_dense has_live_vector parse_metadata_object is_alive is_tombstoned member
    resolve_internal might_contain has_probes has_bit hash1 splitmix64 put_row
set_three_returns = refl

get_payload-set_payload_example :
    (get_payload_dense listed list_kv any_json 3 three_set ≡ ok (1 ∷ []))
    × ((j : ℕ)
        → j < first_update_id
        → j ≢ 3
        → get_payload_dense listed list_kv any_json j three_set
          ≡ get_payload_dense listed list_kv any_json j with_three)
get_payload-set_payload_example =
    get_payload-set_payload listed list_kv any_json 3 (1 ∷ []) with_three three_set list_kv-IsStore
      no_mappings-IsGood no_mappings-HasRoom (omega arith) set_three_returns
