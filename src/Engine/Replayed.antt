-- ===== src/Engine/Replayed.antt =====
-- Replaying the record of an update does to the points what the update did.
use mathlib.Core.Path.{subst}
use aster_vec.Base.{
  ℕ, ◌+◌, ◌/◌, ◌%◌, ◌^◌, ◌<◌, ◌≡◌, refl, ap, sym, ◌∙◌, Bool, true, false, [], ◌∷◌, Option, none,
  some, leb, le→leb, arith, ◌==◌, ==_iff, if_true, if_false, if◌then◌else◌,
}
use aster_vec.Base.Bytes.{Bytes}
use aster_vec.Base.Status.{Result, ok, err, corruption}
use aster_vec.OpLog.Record.{OpRecord, op_update, numbered}
use aster_vec.OpLog.Writer.{OpLog, append}
use aster_vec.Bloom.{Rate}
use aster_vec.IdMap.{
  IdMap, first_update_id, is_update_id, resolve_internal, is_tombstoned, tombstone, is_alive,
  allocate_update_id, observe_update_id, record_update_mapping,
}
use aster_vec.IdMap.Updating.{IsRate}
use aster_vec.IdMap.Versions.{next_map, next_map_lem}
use aster_vec.IdMap.Good.{IsGood, HasRoom}
use aster_vec.MetadataStore.Store.{Kv, Json}
use aster_vec.Engine.{Graph, Engine, write_scope, logged_record, vector_bytes}
use aster_vec.Engine.Action.{follow_ok, check_ok, some_injective}
use aster_vec.Engine.Frames.{IsSame, engine_of, log_op-SamePoints, log_op_lem}
use aster_vec.Engine.Writing.{
  Options, WriteIo, add_live, span, encoded, encode_span, update_alive, allocate,
}
use aster_vec.Engine.Updates.{
  IsGraph, IsMoved, store_node_lem, migrate_payload_lem, record_mapping_lem, Keeps, pure-Keeps,
  put_payload-Keeps, copy_payload-Keeps, delete_payload-Keeps, then_Keeps,
}
use aster_vec.MetadataStore.{put_key}
use aster_vec.Resolving.{Resolver}
use aster_vec.Engine.Lives.{update_alive_moves}
use aster_vec.Engine.Public.{Db}
use aster_vec.Engine.Inserted.{back_lem}
use aster_vec.Engine.Replay.{
  node_replayed, replay_node, fill_payload, drop_old, row_there, replay_payload, map_update,
  mark_old, fits_encoding, count_live, replay_write, replay_applied, observed, key_put,
  replay_key_in, replay_key, on_engine, replay_ids, replay_record,
}

module _ {G D V J : Type 0} (graph : Graph G V) (kv : Kv D) (json : Json J) (rate : Rate)
    (options : Options) where
  fill_payload-Keeps :
      (have_new update : Bool) (old i : ℕ) (payload : Bytes)
      → Keeps graph kv json rate options
          (fill_payload graph kv json rate options have_new update old i payload)
  fill_payload-Keeps true update old i payload = pure-Keeps graph kv json rate options
  fill_payload-Keeps false update old i (c ∷ payload) =
      put_payload-Keeps graph kv json rate options i (c ∷ payload)
  fill_payload-Keeps false true old i [] = copy_payload-Keeps graph kv json rate options old i
  fill_payload-Keeps false false old i [] = pure-Keeps graph kv json rate options

  drop_old-Keeps :
      (update : Bool) (old : ℕ)
      → Keeps graph kv json rate options (drop_old graph kv json rate options update old)
  drop_old-Keeps true old = delete_payload-Keeps graph kv json rate options old
  drop_old-Keeps false old = pure-Keeps graph kv json rate options

  replay_payload_lem :
      (update : Bool) (old i : ℕ) (payload : Bytes) (e e' : Engine G D)
      → replay_payload graph kv json rate options update old i payload e ≡ some (ok tt, e')
      → IsSame e e'
  unfolding replay_payload
  replay_payload_lem update old i payload e e' h =
      then_Keeps graph kv json rate options
        (fill_payload graph kv json rate options (row_there graph kv json rate options i e.rows)
          update old i payload)
        (drop_old graph kv json rate options update old) e e'
        (fill_payload-Keeps (row_there graph kv json rate options i e.rows) update old i payload)
        (drop_old-Keeps update old) h

  -- A node that was replayed without an error.
  record IsReplayed (i : ℕ) (bytes : Bytes) (e e' : Engine G D) : Type 0 where
    inserted : graph.insert i (graph.decode bytes) (some bytes) e.graph ≡ (some (ok tt), e'.graph)
    ids : e'.ids ≡ e.ids
    live : e'.live ≡ e.live

  replay_node_lem :
      (i : ℕ) (bytes : Bytes) (e e' : Engine G D)
      → replay_node graph kv json rate options i bytes e ≡ some (ok tt, e')
      → IsReplayed i bytes e e'
  unfolding replay_node
  replay_node_lem i bytes e e' h =
      at (graph.insert i (graph.decode bytes) (some bytes) e.graph) refl h
    where
      at :
          (p : Option (Result (Unit {0})) × G)
          → graph.insert i (graph.decode bytes) (some bytes) e.graph ≡ p
          → node_replayed graph kv json rate options e p ≡ some (ok tt, e')
          → IsReplayed i bytes e e'
      at (none, g) eq h = absurd (cc h)
      at (some (err c), g) eq h = absurd (cc h)
      at (some (ok _), g) eq h =
          let same : e' ≡ record e { graph = g } = ap (engine_of e) (sym h) in
          record {
            inserted = eq ∙ ap (λ d. (some (ok tt), d.graph)) (sym same);
            ids = ap (λ d. d.ids) same;
            live = ap (λ d. d.live) same;
          }

  module _ (good_graph : IsGraph graph) (fine : IsRate rate) (r : ℕ)
      (small : r < first_update_id) where
    -- The record of an update of `r` to `v`, as `logOp` makes it of the state `e` before the update.
    abbrev pub update_record : V → Bytes → Bytes → Engine G D → OpRecord
    update_record v payload key e =
        logged_record graph kv op_update r e.ids.next_update (resolve_internal e.ids r)
          (span graph kv json rate options v) payload key

    abbrev vector_of : V → Bytes
    vector_of v = vector_bytes graph kv (span graph kv json rate options v)

    -- The node that a replay puts in, from the bytes of the record.
    abbrev IsInserted : V → Engine G D → Engine G D → Type 0
    IsInserted v e e' =
        graph.insert e.ids.next_update (graph.decode (vector_of v)) (some (vector_of v)) e.graph
        ≡ (some (ok tt), e'.graph)

    observed_lem :
        (rec : OpRecord) (e : Engine G D)
        → IsGood e.ids
        → HasRoom e.ids
        → rec.internal_id ≡ e.ids.next_update
        → observed graph kv json rate options rec e
          ≡ record e { ids = (allocate_update_id e.ids).1 }
    unfolding is_update_id observe_update_id allocate_update_id
    observed_lem rec e good room at =
        if_true _ _ (subst (λ (i : ℕ). (i / 2 ^ 63 == 1) ≡ true) (sym at) high)
        ∙ ap (λ m. record e { ids = m })
            (ap
                (λ (i : ℕ).
                  if leb e.ids.next_update i
                  then record (e.ids) { next_update = (i + 1) % 2 ^ 64 }
                  else e.ids)
                at
              ∙ if_true _ _ (le→leb e.ids.next_update e.ids.next_update (omega arith)))
      where
        high : (e.ids.next_update / 2 ^ 63 == 1) ≡ true
        high =
            (==_iff (e.ids.next_update / 2 ^ 63) 1).1 (omega (arith, room.ids, good.sound.counter))

    record IsRemapped (i old : ℕ) (e e' : Engine G D) : Type 0 where
      m : IdMap
      mapping : record_update_mapping rate r i e.ids ≡ some m
      ids : e'.ids ≡ tombstone old m
      graph' : e'.graph ≡ e.graph
      live : e'.live ≡ e.live

    map_update_lem :
        (i old : ℕ) (e e' : Engine G D)
        → map_update graph kv json rate options true r i old e ≡ some (ok tt, e')
        → IsRemapped i old e e'
    unfolding map_update mark_old
    map_update_lem i old e e' h =
        let (u, d, recorded, h1) = follow_ok _ _ tt e' h in
        let one = record_mapping_lem graph kv json rate options r i e d recorded in
        let same : e' ≡ mark_old graph kv json rate options old d = ap (engine_of e) (sym h1) in
        record {
          m = d.ids;
          mapping = one.mapping;
          ids = ap (λ d. d.ids) same;
          graph' = ap (λ d. d.graph) same ∙ one.graph';
          live = ap (λ d. d.live) same ∙ one.live;
        }

    applied_lem :
        (lsn : ℕ) (v : V) (payload key : Bytes) (was : Bool) (e e' : Engine G D)
        (good : IsGood e.ids) (room : HasRoom e.ids)
        → was ≡ true
        → replay_applied graph kv json rate options true
            (numbered lsn (update_record v payload key e))
            was
            (record e { ids = (allocate_update_id e.ids).1 })
          ≡ some (ok tt, e')
        → IsMoved graph rate fine r small e e' good room × IsInserted v e e'
    unfolding replay_applied count_live
    applied_lem lsn v payload key was e e' good room living h =
        let (u1, d1, node, h1) = follow_ok _ _ tt e' h in
        let (u2, d2, mapping, h2) = follow_ok _ _ tt e' h1 in
        let (u3, d3, row, h3) = follow_ok _ _ tt e' h2 in
        let one = replay_node_lem _ (vector_of v) _ d1 node in
        let two = map_update_lem _ _ d1 d2 mapping in
        let three = replay_payload_lem true _ _ payload _ d3 row in
        let same : e' ≡ write_scope graph kv d3 = ap (engine_of e) (sym h3) in
        let uncounted : (if was then d2 else record d2 { live = add_live d2.live }) ≡ d2 =
          if_true _ _ living in
        let map2 : two.m ≡ next_map e.ids good rate fine room r small = some_injective (
          sym two.mapping
          ∙ ap (record_update_mapping rate r e.ids.next_update) one.ids
          ∙ next_map_lem e.ids good rate fine room r small) in
        let graph' : e'.graph ≡ d1.graph =
          ap (λ d. d.graph) same ∙ three.graph ∙ ap (λ d. d.graph) uncounted ∙ two.graph' in
        (
          record {
            ids =
                ap (λ d. d.ids) same
                ∙ three.ids
                ∙ ap (λ d. d.ids) uncounted
                ∙ two.ids
                ∙ ap (tombstone (resolve_internal e.ids r)) map2;
            stored = λ j.
                ap (λ g. graph.exists g j) graph'
                ∙ good_graph.stores _ _ _ e.graph d1.graph one.inserted j;
            live =
                ap (λ d. d.live) same
                ∙ three.live
                ∙ ap (λ d. d.live) uncounted
                ∙ two.live
                ∙ one.live;
          },
          one.inserted ∙ ap (λ g. (some (ok tt), g)) (sym graph'),
        )

    alive_after_allocate :
        (exists : ℕ → Bool) (m : IdMap)
        → is_alive exists (allocate_update_id m).1 r ≡ is_alive exists m r
    unfolding is_alive resolve_internal is_tombstoned allocate_update_id
    alive_after_allocate exists m = refl

    redo_lem :
        (lsn : ℕ) (v : V) (payload key : Bytes) (e e' : Engine G D) (good : IsGood e.ids)
        (room : HasRoom e.ids)
        → is_alive (graph.exists e.graph) e.ids r ≡ true
        → replay_write graph kv json rate options true
            (numbered lsn (update_record v payload key e))
            (record e { ids = (allocate_update_id e.ids).1 })
          ≡ some (ok tt, e')
        → IsMoved graph rate fine r small e e' good room × IsInserted v e e'
    unfolding replay_write
    redo_lem lsn v payload key e e' good room living h =
        let rec = numbered lsn (update_record v payload key e) in
        let (u, fits, h1) =
          check_ok (if fits_encoding graph kv json rate options rec then ok tt else err corruption)
            (λ _ d.
              replay_applied graph kv json rate options true rec
                (is_alive (graph.exists d.graph) d.ids r) d)
            (record e { ids = (allocate_update_id e.ids).1 }) tt e' h in
        applied_lem lsn v payload key _ e e' good room
          (alive_after_allocate (graph.exists e.graph) e.ids ∙ living) h1

    state_of :
        {x : Result (Unit {0})} {d d' : Db G D}
        → ◌≡◌ {A = Option (Result (Unit {0}) × Db G D)} (some (x, d)) (some (ok tt, d'))
        → d ≡ d'
    state_of h = cc

    key_lem :
        (real : ℕ) (db db' : Db G D) (key : Bytes) (store : Option (Option D))
        → replay_key_in graph kv json rate options key real db store ≡ some (ok tt, db')
        → db'.engine ≡ db.engine
    key_lem real db db' [] store h = ap (λ d. d.engine) (sym (state_of h))
    key_lem real db db' (c ∷ key) none h = ap (λ d. d.engine) (sym (state_of h))
    key_lem real db db' (c ∷ key) (some none) h = ap (λ d. d.engine) (sym (state_of h))
    key_lem real db db' (c ∷ key) (some (some ids)) h =
        put_lem (put_key kv (c ∷ key) real (some ids)) h
      where
        put_lem :
            (p : Result (Unit {0}) × Option D)
            → key_put graph kv json rate options real db p ≡ some (ok tt, db')
            → db'.engine ≡ db.engine
        put_lem (err c, ids) h = absurd (cc h)
        put_lem (ok _, ids) h = ap (λ d. d.engine) (sym (state_of h))

    -- What an update puts in the log and into the graph.
    record IsUpdated (io : WriteIo) (v : V) (log' : OpLog) (e e' : Engine G D) : Type 0 where
      log_there : e'.log ≡ some log'
      inserted :
          graph.insert e.ids.next_update v (encoded graph kv json rate options e.log v) e.graph
          ≡ (some (ok tt), e'.graph)

    update_alive_logs :
        (io : WriteIo) (v : V) (payload key : Bytes) (lsn : ℕ) (log log' : OpLog)
        (e e' : Engine G D)
        → e.log ≡ some log
        → append io.operation (update_record v payload key e) log ≡ some (ok lsn, log')
        → update_alive graph kv json rate options io r v payload key e ≡ some (ok tt, e')
        → IsUpdated io v log' e e'
    unfolding update_alive allocate allocate_update_id
    update_alive_logs io v payload key lsn log log' e e' there done h =
        let (n, d1, logged, h1) = follow_ok _ _ tt e' h in
        let (u2, d2, stored, h2) = follow_ok _ _ tt e' h1 in
        let (u3, d3, recorded, h3) = follow_ok _ _ tt e' h2 in
        let same = log_op-SamePoints graph kv _ _ _ _ _ _ _ _ _ _ _ logged in
        let one = log_op_lem graph kv _ _ _ _ _ _ _ _ _ _ lsn n log log' there done logged in
        let two = store_node_lem graph kv json rate options _ _ _ v _ d1 d2 stored in
        let three = record_mapping_lem graph kv json rate options _ _ d2 d3 recorded in
        let four = migrate_payload_lem graph kv json rate options _ _ payload _ e' h3 in
        record {
          log_there = four.log ∙ three.log ∙ two.log ∙ one;
          inserted =
              ap (graph.insert e.ids.next_update v (encoded graph kv json rate options e.log v))
                (sym same.graph)
              ∙ two.inserted
              ∙ ap (λ g. (some (ok tt), g)) (sym (four.graph ∙ three.graph'));
        }

    -- An update of a point that was alive, in a good id map with room, to a vector that is not empty
    -- and that its encoding gives back. Where the log takes the record of the update and the update
    -- returns OK, the log of the engine is the one with this record behind it; and where a replay of
    -- this record under the lsn that it got, from the state before the update, returns OK, it gives
    -- the same id map, the same count and the same graph, vectors included, as the update itself.
    pub replay-update :
        (io : WriteIo) (v : V) (payload key : Bytes) (lsn : ℕ) (log log' : OpLog)
        (e e1 : Engine G D) (st : Resolver D) (db' : Db G D)
        → IsGood e.ids
        → HasRoom e.ids
        → is_alive (graph.exists e.graph) e.ids r ≡ true
        → (graph.size v == 0) ≡ false
        → graph.decode (graph.encode v) ≡ v
        → e.log ≡ some log
        → append io.operation (update_record v payload key e) log ≡ some (ok lsn, log')
        → update_alive graph kv json rate options io r v payload key e ≡ some (ok tt, e1)
        → replay_record graph kv json rate options false
            (numbered lsn (update_record v payload key e))
            (record { engine = e; ids = st })
          ≡ some (ok tt, db')
        → (e1.log ≡ some log')
          × (db'.engine.ids ≡ e1.ids)
          × (db'.engine.live ≡ e1.live)
          × (db'.engine.graph ≡ e1.graph)
    unfolding replay_record replay_ids on_engine replay_key
    replay-update io v payload key lsn log log' e e1 st db' good room living some_floats lossless
          there appended h replay =
        let rec = numbered lsn (update_record v payload key e) in
        let (u1, db1, keyed, h1) = follow_ok _ _ tt db' replay in
        let same : db1.engine ≡ record e { ids = (allocate_update_id e.ids).1 } =
          key_lem r _ db1 key st.store keyed ∙ observed_lem rec e good room refl in
        let run =
          back_lem graph kv json rate options (replay_write graph kv json rate options true rec)
            db1.engine db1.ids db' (replay_write graph kv json rate options true rec db1.engine)
            refl h1 in
        let (redone, again) =
          redo_lem lsn v payload key e db'.engine good room living
            (ap (replay_write graph kv json rate options true rec) (sym same) ∙ run.ran) in
        let done =
          update_alive_moves graph kv json rate options good_graph fine io r small v payload key e
            e1 good room h in
        let put = update_alive_logs io v payload key lsn log log' e e1 there appended h in
        let bytes : vector_of v ≡ graph.encode v =
          ap (vector_bytes graph kv) (if_false _ _ some_floats) in
        let given : encoded graph kv json rate options e.log v ≡ some (graph.encode v) =
          ap (λ l. encoded graph kv json rate options l v) there
          ∙ ap (encode_span graph kv json rate options) (if_false _ _ some_floats) in
        (
          put.log_there,
          redone.ids ∙ sym done.ids,
          redone.live ∙ sym done.live,
          ap (λ p. p.1)
              (sym again
                ∙ ap (λ b. graph.insert e.ids.next_update (graph.decode b) (some b) e.graph) bytes
                ∙ ap (λ w. graph.insert e.ids.next_update w (some (graph.encode v)) e.graph)
                    lossless
                ∙ ap (λ b. graph.insert e.ids.next_update v b e.graph) (sym given)
                ∙ put.inserted),
        )
