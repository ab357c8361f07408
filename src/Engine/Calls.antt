-- ===== src/Engine/Calls.antt =====
-- The calls that `insertDense` and `updateDense` of src/astervec_db.cc make of each other.
use aster_vec.Base.{
  ℕ, suc, ◌≡◌, refl, ap, sym, ◌∙◌, Bool, true, false, ltb, if_true, if_false, if◌then◌else◌,
  Bool-cases, inl, inr,
}
use aster_vec.Base.Bytes.{Bytes}
use aster_vec.Base.Status.{err, ok, invalid_argument}
use aster_vec.Bloom.{Rate}
use aster_vec.IdMap.{max_real_id, is_alive}
use aster_vec.MetadataStore.Store.{Kv, Json}
use aster_vec.Engine.{Graph, Engine, write_scope}
use aster_vec.Engine.Action.{Action, check, modify, ◌>>◌, check_path}
use aster_vec.Engine.Writing.{
  Options, WriteIo, validate_insert_args, validate_vector, validate_metadata, update_alive,
  insert_dead, insert_dense, update_dense,
}

module _ {G D V J : Type 0} (graph : Graph G V) (kv : Kv D) (json : Json J) (rate : Rate)
    (options : Options) (io : WriteIo) (r : ℕ) (v : V) (payload key : Bytes) where
  abbrev pub alive : Engine G D → ℕ → Bool
  alive e j = is_alive (graph.exists e.graph) e.ids j

  abbrev insert_in : ℕ → Action (Engine G D) (Unit {0})
  insert_in calls = insert_dense graph kv json rate options calls io r v payload key

  abbrev update_in : ℕ → Action (Engine G D) (Unit {0})
  update_in calls = update_dense graph kv json rate options calls io r v payload key

  abbrev pub moved : Action (Engine G D) (Unit {0})
  moved = update_alive graph kv json rate options io r v payload key

  abbrev pub fresh : Action (Engine G D) (Unit {0})
  fresh = insert_dead graph kv json rate options io r v payload key

  -- The branch behind the tests.
  abbrev pub by_life :
      Action (Engine G D) (Unit {0})
      → Action (Engine G D) (Unit {0})
      → Action (Engine G D) (Unit {0})
  by_life here there e = (if alive e r then here else there) e

  -- The two functions call each other at most twice.
  more_calls :
      (e : Engine G D) (here here' there there' : Action (Engine G D) (Unit {0}))
      → (alive e r ≡ true → here e ≡ here' e)
      → (alive e r ≡ false → there e ≡ there' e)
      → by_life here there e ≡ by_life here' there' e
  more_calls e here here' there there' if_here if_there = elim (Bool-cases (alive e r)) [
    | inl living ↦
        ap (λ m. m e) (if_true here there living)
        ∙ if_here living
        ∙ ap (λ m. m e) (sym (if_true here' there' living))
    | inr dead ↦
        ap (λ m. m e) (if_false here there dead)
        ∙ if_there dead
        ∙ ap (λ m. m e) (sym (if_false here' there' dead))
  ]

  -- `updateDense` with `there` for its call of `insertDense`.
  abbrev pub update_by : Action (Engine G D) (Unit {0}) → Action (Engine G D) (Unit {0})
  update_by there = do
    modify (write_scope graph kv)
    check (if ltb max_real_id r then err invalid_argument else ok tt)
    check (validate_vector graph kv json rate options v)
    check (validate_metadata json payload)
    by_life moved there

  -- `insertDense` with `here` for its call of `updateDense`.
  abbrev pub insert_by : Action (Engine G D) (Unit {0}) → Action (Engine G D) (Unit {0})
  insert_by here = do
    modify (write_scope graph kv)
    check (validate_insert_args graph kv json rate options v payload)
    by_life here fresh

  update_of_alive :
      (calls : ℕ) (there : Action (Engine G D) (Unit {0})) (e : Engine G D)
      → alive e r ≡ true
      → update_in (suc calls) e ≡ update_by there e
  unfolding update_dense
  update_of_alive calls there e living =
      let e1 = write_scope graph kv e in
      check_path (if ltb max_real_id r then err invalid_argument else ok tt) _ _ e1 (λ u1.
        check_path (validate_vector graph kv json rate options v) _ _ e1 (λ u2.
          check_path (validate_metadata json payload) _ _ e1 (λ u3.
            more_calls e1 moved moved (insert_in calls) there (λ h. refl)
              (λ dead. absurd (cc (sym living ∙ dead))))))

  insert_of_dead :
      (calls : ℕ) (here : Action (Engine G D) (Unit {0})) (e : Engine G D)
      → alive e r ≡ false
      → insert_in (suc calls) e ≡ insert_by here e
  unfolding insert_dense
  insert_of_dead calls here e dead =
      let e1 = write_scope graph kv e in
      check_path (validate_insert_args graph kv json rate options v payload) _ _ e1 (λ u1.
        more_calls e1 (update_in calls) here fresh fresh (λ living. absurd (cc (sym living ∙ dead)))
          (λ h. refl))

  -- With two calls allowed or more, an insert runs the body of `insertDense`, where the call of
  -- `updateDense` runs that body, and an update the other way round; what stands for the next call
  -- between them, a fault or anything else, is never run. So the two call each other at most once.
  pub insert_dense-calls :
      (calls : ℕ) (e : Engine G D) (never : Action (Engine G D) (Unit {0}))
      → (insert_in (suc (suc calls)) e ≡ insert_by (update_by never) e)
        × (update_in (suc (suc calls)) e ≡ update_by (insert_by never) e)
  unfolding insert_dense update_dense
  insert_dense-calls calls e never =
      let e1 = write_scope graph kv e in
      (
        check_path (validate_insert_args graph kv json rate options v payload) _ _ e1 (λ u1.
            more_calls e1 (update_in (suc calls)) (update_by never) fresh fresh
              (update_of_alive calls never e1) (λ h. refl)),
        check_path (if ltb max_real_id r then err invalid_argument else ok tt) _ _ e1 (λ u1.
            check_path (validate_vector graph kv json rate options v) _ _ e1 (λ u2.
              check_path (validate_metadata json payload) _ _ e1 (λ u3.
                more_calls e1 moved moved (insert_in (suc calls)) (insert_by never) (λ h. refl)
                  (insert_of_dead calls never e1)))),
      )
