-- ===== src/Engine/Deletes.antt =====
-- A delete that succeeds ends the life of its point, and of no other.
use aster_vec.Base.{
  ℕ, ◌+◌, ◌-◌, ◌%◌, ◌^◌, ◌<◌, ◌≡◌, refl, ap, ap₂, sym, ◌∙◌, Bool, true, false, [], Option, none,
  some, ◌==◌, ==_iff, if_true, if_false, if◌then◌else◌, Bool-cases, inl, inr,
}
use aster_vec.Base.Status.{
  Result, ok, err, not_found, corruption, not_supported, invalid_argument, io_error,
}
use aster_vec.OpLog.Record.{op_delete}
use aster_vec.OpLog.Writer.{AppendIo}
use aster_vec.IdMap.{
  first_update_id, resolve_internal, is_alive, is_tombstoned, tombstone, forget_update_mapping,
}
use aster_vec.IdMap.Invariant.{IsSound}
use aster_vec.IdMap.Deleting.{IsShadowed, is_alive-deleted}
use aster_vec.MetadataStore.Store.{Kv}
use aster_vec.Engine.Action.{some_injective}
use aster_vec.Engine.Frames.{SamePoints, engine_of, log_op-SamePoints, drop_row-IsSame}
use aster_vec.Engine.{
  Graph, Engine, write_scope, logged, log_op, drop_row, finished, forgotten, row_dropped,
  delete_logged, delete_dense,
}

module _ {G D V : Type 0} (graph : Graph G V) (kv : Kv D) where
  -- What an `ok` delete did behind the log.
  finished_lem :
      (r : ℕ) (was : Bool) (e e' : Engine G D) (s : Result (Unit {0}))
      → forgotten graph kv r was e s ≡ (ok tt, e')
      → e' ≡ (finished graph kv r was e).1
  finished_lem r was e e' (ok _) h = ap (λ p. p.1) (sym h)
  finished_lem r was e e' (err not_found) h = ap (λ p. p.1) (sym h)
  finished_lem r was e e' (err corruption) h = cc
  finished_lem r was e e' (err not_supported) h = cc
  finished_lem r was e e' (err invalid_argument) h = cc
  finished_lem r was e e' (err io_error) h = cc

  -- The points behind a delete: the map without `r`, the same graph, the count moved.
  record IsDeleted (r i : ℕ) (was : Bool) (e e' : Engine G D) : Type 0 where
    ids : e'.ids ≡ forget_update_mapping r (tombstone i e.ids)
    graph' : e'.graph ≡ e.graph
    live : e'.live ≡ (if was then (e.live + 2 ^ 64 - 1) % 2 ^ 64 else e.live)

  dropped_lem :
      (r i : ℕ) (was : Bool) (e e' : Engine G D) (p : Result (Unit {0}) × Engine G D)
      → p.1.ids ≡ tombstone i e.ids
      → p.1.graph ≡ e.graph
      → p.1.live ≡ e.live
      → row_dropped graph kv r was p ≡ (ok tt, e')
      → IsDeleted r i was e e'
  dropped_lem r i was e e' (s, d) ids same live h =
      let done = finished_lem r was d e' s h in
      record {
        ids = ap (λ x. x.ids) done ∙ ap (forget_update_mapping r) ids;
        graph' = ap (λ x. x.graph) done ∙ same;
        live =
            ap (λ x. x.live) done
            ∙ ap (λ (n : ℕ). if was then (n + 2 ^ 64 - 1) % 2 ^ 64 else n) live;
      }

  delete_logged_lem :
      (r i : ℕ) (was : Bool) (e e' : Engine G D) (o : Option (Result ℕ × Engine G D))
      → ((x : Result ℕ) (d : Engine G D) → o ≡ some (x, d) → SamePoints e d)
      → delete_logged graph kv r i was o ≡ some (ok tt, e')
      → IsDeleted r i was e e'
  delete_logged_lem r i was e e' none same h = cc
  delete_logged_lem r i was e e' (some (err c, d)) same h = cc
  delete_logged_lem r i was e e' (some (ok n, d)) same h =
      let before = same (ok n) d refl in
      let dead = record d { ids = tombstone i d.ids } in
      let row = drop_row-IsSame graph kv i dead d.rows in
      dropped_lem r i was e e' (drop_row graph kv i dead d.rows)
        (row.ids ∙ ap (tombstone i) before.ids) (row.graph ∙ before.graph) (row.live ∙ before.live)
        (some_injective h)

  no_vector :
      (marked : Bool) {there : Bool} → there ≡ false → (if marked then false else there) ≡ false
  no_vector true h = refl
  no_vector false h = h

  -- A delete that returns OK ends the life of its point and of no other one, and the count of live
  -- points goes down exactly where the point was alive, where the id map is sound and every point
  -- with an update mapping has left its direct id behind.
  pub delete_dense_lem :
      (io : AppendIo) (r : ℕ) (e e' : Engine G D)
      → IsSound e.ids
      → IsShadowed e.ids
      → r < first_update_id
      → delete_dense graph kv io r e ≡ some (ok tt, e')
      → ((j : ℕ)
          → j < first_update_id
          → is_alive (graph.exists e'.graph) e'.ids j
            ≡ (if j == r then false else is_alive (graph.exists e.graph) e.ids j))
        × (e'.live ≡ (
            if is_alive (graph.exists e.graph) e.ids r
            then (e.live + 2 ^ 64 - 1) % 2 ^ 64
            else e.live))
  unfolding delete_dense
  delete_dense_lem io r e e' sound shadowed small h =
      elim (Bool-cases (graph.exists e.graph (resolve_internal e.ids r))) [
        | inl there ↦ behind_log (
            delete_logged_lem r (resolve_internal e.ids r) was e e' _ (λ x d. behind_scope x d)
              (sym (if_true _ _ there) ∙ h))
        | inr missing ↦ nothing missing (ap (engine_of e) (sym h ∙ if_false _ _ missing))
      ]
    where
      behind_scope :
          (x : Result ℕ) (d : Engine G D)
          → log_op graph kv io op_delete r
              (resolve_internal e.ids r)
              0
              none
              []
              []
              (write_scope graph kv e)
            ≡ some (x, d)
          → SamePoints e d
      behind_scope x d logged =
          let same =
            log_op-SamePoints graph kv io op_delete r (resolve_internal e.ids r) 0 none [] []
              (write_scope graph kv e) x d logged in
          record { ids = same.ids; graph = same.graph; live = same.live }

      was : Bool
      was = is_alive (graph.exists e.graph) e.ids r

      behind_log :
          IsDeleted r (resolve_internal e.ids r) was e e'
          → ((j : ℕ)
              → j < first_update_id
              → is_alive (graph.exists e'.graph) e'.ids j
                ≡ (if j == r then false else is_alive (graph.exists e.graph) e.ids j))
            × (e'.live ≡ (if was then (e.live + 2 ^ 64 - 1) % 2 ^ 64 else e.live))
      behind_log d = (
        λ j hj.
            ap₂ (λ g m. is_alive (graph.exists g) m j) d.graph' d.ids
            ∙ is_alive-deleted e.ids sound (graph.exists e.graph) r j shadowed small hj,
        d.live,
      )

      nothing :
          graph.exists e.graph (resolve_internal e.ids r) ≡ false
          → e' ≡ write_scope graph kv e
          → ((j : ℕ)
              → j < first_update_id
              → is_alive (graph.exists e'.graph) e'.ids j
                ≡ (if j == r then false else is_alive (graph.exists e.graph) e.ids j))
            × (e'.live ≡ (if was then (e.live + 2 ^ 64 - 1) % 2 ^ 64 else e.live))
      nothing missing same = (
        λ j hj.
            ap₂ (λ g m. is_alive (graph.exists g) m j) (ap (λ d. d.graph) same)
              (ap (λ d. d.ids) same)
            ∙ others j,
        ap (λ d. d.live) same ∙ sym (if_false _ _ dead),
      )
        where
          dead : is_alive (graph.exists e.graph) e.ids r ≡ false
          dead =
              unfold is_alive in no_vector (is_tombstoned e.ids (resolve_internal e.ids r)) missing

          others :
              (j : ℕ)
              → is_alive (graph.exists e.graph) e.ids j
                ≡ (if j == r then false else is_alive (graph.exists e.graph) e.ids j)
          others j = elim (Bool-cases (j == r)) [
            | inl at ↦
                ap (is_alive (graph.exists e.graph) e.ids) ((==_iff j r).0 at)
                ∙ dead
                ∙ sym (if_true _ _ at)
            | inr other ↦ sym (if_false _ _ other)
          ]
