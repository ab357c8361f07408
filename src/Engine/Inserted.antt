-- ===== src/Engine/Inserted.antt =====
-- What the public insert of src/astervec_db.cc promises: the point id leads to a live point from
-- then on.
use aster_vec.Base.{
  ℕ, ◌<◌, ◌≡◌, refl, ap, ap₂, sym, ◌∙◌, true, false, Option, none, some, ==_refl, if_true,
}
use aster_vec.Base.Bytes.{Bytes}
use aster_vec.Base.Status.{
  Result, ok, err, not_found, corruption, not_supported, invalid_argument, io_error,
}
use aster_vec.Bloom.{Rate}
use aster_vec.IdMap.{first_update_id}
use aster_vec.IdMap.Updating.{IsRate}
use aster_vec.IdMap.Good.{IsGood, HasRoom}
use aster_vec.MetadataStore.Store.{Kv, Json, IsStore}
use aster_vec.PointId.{PointId}
use aster_vec.Resolving.{Resolver, resolve_id}
use aster_vec.Resolving.Again.{resolve_id-again}
use aster_vec.Engine.{Graph, Engine, write_scope}
use aster_vec.Engine.Writing.{Options, WriteIo, insert_dense}
use aster_vec.Engine.Updates.{IsGraph}
use aster_vec.Engine.Lives.{insert_dense_lem}
use aster_vec.Engine.Payloads.{has_live_vector}
use aster_vec.Engine.Public.{Db, back, on_resolved, if_valid, validate_insert, insert}

module _ {G D V J : Type 0} (graph : Graph G V) (kv : Kv D) (json : Json J) (rate : Rate)
    (options : Options) where
  db_of : {A : Type 0} → Db G D → Option (A × Db G D) → Db G D
  db_of d none = d
  db_of d (some (x, d')) = d'

  valid_lem :
      (db db' : Db G D) (go : Option (Result (Unit {0}) × Db G D)) (s : Result (Unit {0}))
      → if_valid graph kv json rate options db go s ≡ some (ok tt, db')
      → go ≡ some (ok tt, db')
  valid_lem db db' go (ok _) h = h
  valid_lem db db' go (err c) h = cc

  -- The engine behind a call on a dense id that returned OK.
  pub record IsRun (run : Engine G D → Option (Result (Unit {0}) × Engine G D)) (e : Engine G D)
      (st : Resolver D) (db' : Db G D) : Type 0 where
    pub ran : run e ≡ some (ok tt, db'.engine)
    pub ids : db'.ids ≡ st

  pub back_lem :
      (run : Engine G D → Option (Result (Unit {0}) × Engine G D)) (e : Engine G D)
      (st : Resolver D) (db' : Db G D) (o : Option (Result (Unit {0}) × Engine G D))
      → run e ≡ o
      → back graph kv json rate options st o ≡ some (ok tt, db')
      → IsRun run e st db'
  back_lem run e st db' none eq h = absurd (cc h)
  back_lem run e st db' (some (s, e')) eq h = record {
    ran = eq ∙ ap₂ (λ a b. some (a, b)) (status_lem h) (ap (λ d. d.engine) (state_lem h));
    ids = ap (λ d. d.ids) (sym (state_lem h));
  }
    where
      status_lem :
          ◌≡◌ {A = Option (Result (Unit {0}) × Db G D)}
            (some (s, record { engine = e'; ids = st }))
            (some (ok tt, db'))
          → s ≡ ok tt
      status_lem h = cc

      state_lem :
          ◌≡◌ {A = Option (Result (Unit {0}) × Db G D)}
            (some (s, record { engine = e'; ids = st }))
            (some (ok tt, db'))
          → record { engine = e'; ids = st } ≡ db'
      state_lem h = cc

  resolved_lem :
      (run : Bytes → ℕ → Engine G D → Option (Result (Unit {0}) × Engine G D)) (e : Engine G D)
      (st : Resolver D) (key : Bytes) (dense : Result ℕ) (db' : Db G D)
      → on_resolved graph kv json rate options (err not_found) run e st key dense
        ≡ some (ok tt, db')
      → (r : ℕ) × (dense ≡ ok r) × IsRun (run key r) e st db'
  resolved_lem run e st key (ok r) db' h =
      (r, refl, back_lem (run key r) e st db' (run key r e) refl h)
  resolved_lem run e st key (err not_found) db' h = absurd (cc h)
  resolved_lem run e st key (err corruption) db' h = absurd (cc h)
  resolved_lem run e st key (err not_supported) db' h = absurd (cc h)
  resolved_lem run e st key (err invalid_argument) db' h = absurd (cc h)
  resolved_lem run e st key (err io_error) db' h = absurd (cc h)

  -- An insert that returns OK makes its point id lead to a live point: resolving the id afterwards
  -- gives a dense id whose point is alive, and changes nothing; and the id map of the index stays
  -- good. The id map of the index was good and had room, the dense id that the insert is resolved
  -- to is in range, and the parameters do what is documented of them.
  pub insert-alive :
      (io : WriteIo) (id : PointId) (v : V) (payload : Bytes) (db db' : Db G D)
      → IsGraph graph
      → IsRate rate
      → IsStore kv
      → IsGood db.engine.ids
      → HasRoom db.engine.ids
      → ((r : ℕ) → (resolve_id kv id true db.ids).0.dense ≡ ok r → r < first_update_id)
      → insert graph kv json rate options io id v payload db ≡ some (ok tt, db')
      → (r : ℕ) × ((resolve_id kv id false db'.ids).0.dense ≡ ok r)
        × ((resolve_id kv id false db'.ids).1 ≡ db'.ids)
        × (has_live_vector graph kv json r db'.engine ≡ true)
        × IsGood db'.engine.ids
  unfolding insert has_live_vector
  insert-alive io id v payload db db' good_graph fine lawful good room small h =
      let e1 = write_scope graph kv db.engine in
      let (r, at, run) =
        resolved_lem (λ key r. insert_dense graph kv json rate options 2 io r v payload key) e1
          (resolve_id kv id true db.ids).1 (resolve_id kv id true db.ids).0.key
          (resolve_id kv id true db.ids).0.dense db'
          (valid_lem _ db' _ (validate_insert graph kv json rate options db.ids.keyed id v payload)
            h) in
      let again = resolve_id-again kv lawful id true db.ids r at in
      let done =
        insert_dense_lem graph kv json rate options good_graph fine io r (small r at) v payload
          (resolve_id kv id true db.ids).0.key 2 e1 db'.engine good room run.ran in
      (
        r,
        ap (λ st. (resolve_id kv id false st).0.dense) run.ids ∙ again.0,
        ap (λ st. (resolve_id kv id false st).1) run.ids ∙ again.1 ∙ sym run.ids,
        done.0 r (small r at) ∙ if_true _ _ (==_refl r),
        done.1,
      )
