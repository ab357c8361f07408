-- ===== src/Engine/Lives.antt =====
-- An insert or an update that returns OK makes its point alive and leaves every other point as it
-- was.
use mathlib.Core.Path.{subst}
use aster_vec.Base.{
  ℕ, zero, suc, ◌<◌, ◌≡◌, refl, ap, ap₂, sym, ◌∙◌, Bool, true, false, some, ltb, ◌==◌, if_true,
  if_false, if◌then◌else◌, Bool-cases, inl, inr,
}
use aster_vec.Base.Bytes.{Bytes}
use aster_vec.Base.Status.{Result, ok, err, invalid_argument}
use aster_vec.Bloom.{Rate}
use aster_vec.IdMap.{
  IdMap, first_update_id, max_real_id, resolve_internal, is_tombstoned, tombstone, is_alive,
  allocate_update_id, record_update_mapping,
}
use aster_vec.IdMap.Updating.{IsRate}
use aster_vec.IdMap.Versions.{
  next_map, next_map_lem, first-Revived, reinsert-Revived, reinsert-IsGood, moved_map,
  update-Revived, update-IsGood,
}
use aster_vec.IdMap.Good.{IsGood, HasRoom, Revived}
use aster_vec.MetadataStore.Store.{Kv, Json}
use aster_vec.Engine.{Graph, Engine, write_scope}
use aster_vec.Engine.Action.{Action, follow, follow_ok, check_ok, some_injective}
use aster_vec.Engine.Frames.{log_op-SamePoints}
use aster_vec.Engine.Writing.{
  Options, WriteIo, is_absent, add_live, validate_insert_args, validate_vector, validate_metadata,
  update_alive, insert_dead, insert_as, allocate, insert_dense, update_dense,
}
use aster_vec.Engine.Updates.{
  IsGraph, IsMoved, store_node_lem, record_mapping_lem, migrate_payload_lem, optional_payload_lem,
}

module _ {G D V J : Type 0} (graph : Graph G V) (kv : Kv D) (json : Json J) (rate : Rate)
    (options : Options) (good_graph : IsGraph graph) (fine : IsRate rate) where
  abbrev alive : Engine G D → ℕ → Bool
  alive e j = is_alive (graph.exists e.graph) e.ids j

  -- The points behind a write of `r` that returned OK: it is alive and so is every point that was,
  -- the id map is good, and `live` is the new count.
  record IsWritten (r live : ℕ) (e e' : Engine G D) : Type 0 where
    points : Revived (graph.exists e.graph) e.ids r (graph.exists e'.graph) e'.ids
    good : IsGood e'.ids
    count : e'.live ≡ live

  -- From the parts of the new state.
  written :
      (r live i : ℕ) (e e' : Engine G D) (ids : IdMap) (exists' : ℕ → Bool)
      → Revived (graph.exists e.graph) e.ids r exists' ids
      → IsGood ids
      → e'.ids ≡ ids
      → graph.exists e'.graph ≡ exists'
      → e'.live ≡ live
      → IsWritten r live e e'
  written r live i e e' ids exists' points good same_ids same_graph count = record {
    points = λ j hj. ap₂ (λ x m. is_alive x m j) same_graph same_ids ∙ points j hj;
    good = subst IsGood (sym same_ids) good;
    count = count;
  }

  module _ (io : WriteIo) (r : ℕ) (small : r < first_update_id) (v : V) (payload key : Bytes) where
    pub update_alive_moves :
        (e e' : Engine G D) (good : IsGood e.ids) (room : HasRoom e.ids)
        → update_alive graph kv json rate options io r v payload key e ≡ some (ok tt, e')
        → IsMoved graph rate fine r small e e' good room
    unfolding update_alive allocate allocate_update_id
    update_alive_moves e e' good room h =
        let (lsn, d1, logged, h1) = follow_ok _ _ tt e' h in
        let (u2, d2, stored, h2) = follow_ok _ _ tt e' h1 in
        let (u3, d3, recorded, h3) = follow_ok _ _ tt e' h2 in
        let one = log_op-SamePoints graph kv _ _ _ _ _ _ _ _ _ _ _ logged in
        let two = store_node_lem graph kv json rate options _ _ _ v _ d1 d2 stored in
        let three = record_mapping_lem graph kv json rate options _ _ d2 d3 recorded in
        let four = migrate_payload_lem graph kv json rate options _ _ payload _ e' h3 in
        let before : d2.ids ≡ (allocate_update_id e.ids).1 = two.ids ∙ one.ids in
        let ids3 : d3.ids ≡ next_map e.ids good rate fine room r small = some_injective (
          sym three.mapping
          ∙ ap (record_update_mapping rate r e.ids.next_update) before
          ∙ next_map_lem e.ids good rate fine room r small) in
        record {
          ids = four.ids ∙ ap (tombstone (resolve_internal e.ids r)) ids3;
          stored = λ j.
              ap (λ g. graph.exists g j) (four.graph ∙ three.graph')
              ∙ good_graph.stores _ v _ d1.graph d2.graph two.inserted j
              ∙ ap (λ g. if j == e.ids.next_update then true else graph.exists g j) one.graph;
          live = four.live ∙ three.live ∙ two.live ∙ one.live;
        }

    update_alive_lem :
        (e e' : Engine G D)
        → IsGood e.ids
        → HasRoom e.ids
        → update_alive graph kv json rate options io r v payload key e ≡ some (ok tt, e')
        → IsWritten r e.live e e'
    update_alive_lem e e' good room h =
        let moved = update_alive_moves e e' good room h in
        written r e.live e.ids.next_update e e' (moved_map e.ids good rate fine room r small)
          (graph.exists e'.graph)
          (update-Revived e.ids good rate fine room r small (graph.exists e.graph)
            (graph.exists e'.graph) moved.stored)
          (update-IsGood e.ids good rate fine room r small) moved.ids refl moved.live

    insert_as_lem :
        (reinsert : Bool) (e e' : Engine G D)
        → IsGood e.ids
        → HasRoom e.ids
        → is_tombstoned e.ids r ≡ reinsert
        → insert_as graph kv json rate options io r v payload key reinsert e ≡ some (ok tt, e')
        → IsWritten r (add_live e.live) e e'
    unfolding insert_as allocate allocate_update_id
    insert_as_lem true e e' good room gone h =
        let (lsn, d1, logged, h1) = follow_ok _ _ tt e' h in
        let (u2, d2, recorded, h2) = follow_ok _ _ tt e' h1 in
        let (u3, d3, stored, h3) = follow_ok _ _ tt e' h2 in
        let one = log_op-SamePoints graph kv _ _ _ _ _ _ _ _ _ _ _ logged in
        let two = record_mapping_lem graph kv json rate options _ _ d1 d2 recorded in
        let three = store_node_lem graph kv json rate options _ _ _ v _ d2 d3 stored in
        let four =
          optional_payload_lem graph kv json rate options (is_absent payload) _ payload _ e' h3 in
        let ids2 : d2.ids ≡ next_map e.ids good rate fine room r small = some_injective (
          sym two.mapping
          ∙ ap (record_update_mapping rate r e.ids.next_update) one.ids
          ∙ next_map_lem e.ids good rate fine room r small) in
        written r (add_live e.live) e.ids.next_update e e'
          (next_map e.ids good rate fine room r small) (graph.exists d3.graph)
          (reinsert-Revived e.ids good rate fine room r small (graph.exists e.graph)
            (graph.exists d3.graph)
            (λ j.
              good_graph.stores _ v _ d2.graph d3.graph three.inserted j
              ∙ ap (λ g. if j == e.ids.next_update then true else graph.exists g j)
                  (two.graph' ∙ one.graph)))
          (reinsert-IsGood e.ids good rate fine room r small gone) (four.ids ∙ three.ids ∙ ids2)
          (ap graph.exists four.graph) (four.live ∙ ap add_live (three.live ∙ two.live ∙ one.live))
    insert_as_lem false e e' good room free h =
        let (lsn, d1, logged, h1) = follow_ok _ _ tt e' h in
        let (u3, d3, stored, h3) = follow_ok _ _ tt e' h1 in
        let one = log_op-SamePoints graph kv _ _ _ _ _ _ _ _ _ _ _ logged in
        let three = store_node_lem graph kv json rate options _ _ _ v _ d1 d3 stored in
        let four =
          optional_payload_lem graph kv json rate options (is_absent payload) _ payload _ e' h3 in
        written r (add_live e.live) r e e' e.ids (graph.exists d3.graph)
          (first-Revived e.ids good (graph.exists e.graph) (graph.exists d3.graph) r small free
            (λ j.
              good_graph.stores _ v _ d1.graph d3.graph three.inserted j
              ∙ ap (λ g. if j == r then true else graph.exists g j) one.graph))
          good (four.ids ∙ three.ids ∙ one.ids) (ap graph.exists four.graph)
          (four.live ∙ ap add_live (three.live ∙ one.live))

    insert_dead_lem :
        (e e' : Engine G D)
        → IsGood e.ids
        → HasRoom e.ids
        → insert_dead graph kv json rate options io r v payload key e ≡ some (ok tt, e')
        → IsWritten r (add_live e.live) e e'
    unfolding insert_dead
    insert_dead_lem e e' good room h = insert_as_lem (is_tombstoned e.ids r) e e' good room refl h

    abbrev count : Engine G D → ℕ
    count e = if alive e r then e.live else add_live e.live

    -- Behind the tests of an insert or an update, with what is done where the point is not alive.
    branch_lem :
        (e e' : Engine G D) (here there : Action (Engine G D) (Unit {0}))
        → (alive e r ≡ true → here e ≡ some (ok tt, e') → IsWritten r (count e) e e')
        → (alive e r ≡ false → there e ≡ some (ok tt, e') → IsWritten r (count e) e e')
        → (if alive e r then here else there) e ≡ some (ok tt, e')
        → IsWritten r (count e) e e'
    branch_lem e e' here there if_here if_there h = elim (Bool-cases (alive e r)) [
      | inl living ↦ (if_here living (ap (λ m. m e) (sym (if_true here there living)) ∙ h))
      | inr dead ↦ if_there dead (ap (λ m. m e) (sym (if_false here there dead)) ∙ h)
    ]

    behind_scope :
        (n : ℕ) (e e' : Engine G D) → IsWritten r n (write_scope graph kv e) e' → IsWritten r n e e'
    behind_scope n e e' w = record { points = w.points; good = w.good; count = w.count }

    abbrev insert_in : ℕ → Action (Engine G D) (Unit {0})
    insert_in calls = insert_dense graph kv json rate options calls io r v payload key

    abbrev update_in : ℕ → Action (Engine G D) (Unit {0})
    update_in calls = update_dense graph kv json rate options calls io r v payload key

    abbrev moved : Action (Engine G D) (Unit {0})
    moved = update_alive graph kv json rate options io r v payload key

    abbrev fresh : Action (Engine G D) (Unit {0})
    fresh = insert_dead graph kv json rate options io r v payload key

    -- The branch behind the tests.
    abbrev by_life :
        Action (Engine G D) (Unit {0})
        → Action (Engine G D) (Unit {0})
        → Action (Engine G D) (Unit {0})
    by_life here there e = (if alive e r then here else there) e

    abbrev checked :
        Result (Unit {0}) → Action (Engine G D) (Unit {0}) → Action (Engine G D) (Unit {0})
    checked s k e = follow (λ _. k) (some (s, e))

    mutual
      unfolding insert_dense update_dense

      insert_lem :
          (calls : ℕ) (e e' : Engine G D)
          → IsGood e.ids
          → HasRoom e.ids
          → insert_dense graph kv json rate options calls io r v payload key e ≡ some (ok tt, e')
          → IsWritten r (count e) e e'
      insert_lem zero e e' good room h = absurd (cc h)
      insert_lem (suc calls) e e' good room h =
          let e1 = write_scope graph kv e in
          let (u1, valid, h1) =
            check_ok (validate_insert_args graph kv json rate options v payload)
              (λ _. by_life (update_in calls) fresh) e1 tt e' h in
          behind_scope (count e) e e' (
            branch_lem e1 e' (update_in calls) fresh
              (λ living g. update_lem calls e1 e' good room g)
              (λ dead g.
                subst (λ n. IsWritten r n e1 e') (sym (if_false _ _ dead))
                  (insert_dead_lem e1 e' good room g))
              h1)

      update_lem :
          (calls : ℕ) (e e' : Engine G D)
          → IsGood e.ids
          → HasRoom e.ids
          → update_dense graph kv json rate options calls io r v payload key e ≡ some (ok tt, e')
          → IsWritten r (count e) e e'
      update_lem zero e e' good room h = absurd (cc h)
      update_lem (suc calls) e e' good room h =
          let e1 = write_scope graph kv e in
          let (u1, small', h1) =
            check_ok (if ltb max_real_id r then err invalid_argument else ok tt)
              (λ _.
                checked (validate_vector graph kv json rate options v)
                  (checked (validate_metadata json payload) (by_life moved (insert_in calls))))
              e1 tt e' h in
          let (u2, sized, h2) =
            check_ok (validate_vector graph kv json rate options v)
              (λ _. checked (validate_metadata json payload) (by_life moved (insert_in calls))) e1
              tt e' h1 in
          let (u3, valid, h3) =
            check_ok (validate_metadata json payload) (λ _. by_life moved (insert_in calls)) e1 tt
              e' h2 in
          behind_scope (count e) e e' (
            branch_lem e1 e' moved (insert_in calls)
              (λ living g.
                subst (λ n. IsWritten r n e1 e') (sym (if_true _ _ living))
                  (update_alive_lem e1 e' good room g))
              (λ dead g. insert_lem calls e1 e' good room g) h3)

    -- An update that returns OK makes its point alive and leaves the life of every other point as it
    -- was, keeps the id map good, and counts the point where it was not alive, where the id map was
    -- good and had room.
    pub update_dense_lem :
        (calls : ℕ) (e e' : Engine G D)
        → IsGood e.ids
        → HasRoom e.ids
        → update_dense graph kv json rate options calls io r v payload key e ≡ some (ok tt, e')
        → Revived (graph.exists e.graph) e.ids r (graph.exists e'.graph) e'.ids
          × IsGood e'.ids
          × (e'.live
              ≡ (if is_alive (graph.exists e.graph) e.ids r then e.live else add_live e.live))
    update_dense_lem calls e e' good room h =
        let w = update_lem calls e e' good room h in (w.points, w.good, w.count)

    -- An insert that returns OK does the same.
    pub insert_dense_lem :
        (calls : ℕ) (e e' : Engine G D)
        → IsGood e.ids
        → HasRoom e.ids
        → insert_dense graph kv json rate options calls io r v payload key e ≡ some (ok tt, e')
        → Revived (graph.exists e.graph) e.ids r (graph.exists e'.graph) e'.ids
          × IsGood e'.ids
          × (e'.live
              ≡ (if is_alive (graph.exists e.graph) e.ids r then e.live else add_live e.live))
    insert_dense_lem calls e e' good room h =
        let w = insert_lem calls e e' good room h in (w.points, w.good, w.count)
