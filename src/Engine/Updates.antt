-- ===== src/Engine/Updates.antt =====
-- What an insert or an update that succeeds does to the points, step by step.
use mathlib.Core.Path.{subst}
use aster_vec.Base.{
  ℕ, ◌<◌, ◌≡◌, refl, ap, sym, ◌∙◌, Bool, true, false, Option, none, some, if◌then◌else◌,
}
use aster_vec.Base.Bytes.{Bytes}
use aster_vec.Base.Status.{
  Code, Result, ok, err, not_found, corruption, not_supported, invalid_argument, io_error,
}
use aster_vec.Bloom.{Rate}
use aster_vec.IdMap.{IdMap, first_update_id, record_update_mapping}
use aster_vec.IdMap.Updating.{IsRate}
use aster_vec.IdMap.Versions.{moved_map}
use aster_vec.IdMap.Good.{IsGood, HasRoom, Stored}
use aster_vec.MetadataStore.Store.{Kv, Json}
use aster_vec.MetadataStore.{put_row, get_row}
use aster_vec.Engine.{Graph, Engine, drop_row}
use aster_vec.Engine.Action.{Action, pure, follow_ok, ◌>>◌}
use aster_vec.Engine.Frames.{
  IsSame, engine_of, IsSame-refl, IsSame-trans, with_rows-IsSame, drop_row-IsSame,
}
use aster_vec.Engine.Writing.{
  Options, is_absent, aborted, node_stored, store_node, ids_recorded, record_mapping, on_store,
  put_payload, copied, copy_from, copy_payload, tolerant, delete_payload, migrate_payload,
}

-- A node that was inserted is there, and no other vector comes or goes.
pub record IsGraph {G V : Type 0} (graph : Graph G V) : Type 0 where
  pub stores :
      (i : ℕ) (v : V) (bytes : Option Bytes) (g g' : G)
      → graph.insert i v bytes g ≡ (some (ok tt), g')
      → Stored (graph.exists g) i (graph.exists g')

-- A point that moved: the id map with its new version, one more vector, the same count.
pub record IsMoved {G D V : Type 0} (graph : Graph G V) (rate : Rate) (fine : IsRate rate) (r : ℕ)
    (small : r < first_update_id) (e e' : Engine G D) (good : IsGood e.ids) (room : HasRoom e.ids)
    : Type 0 where
  pub ids : e'.ids ≡ moved_map e.ids good rate fine room r small
  pub stored : Stored (graph.exists e.graph) e.ids.next_update (graph.exists e'.graph)
  pub live : e'.live ≡ e.live

module _ {G D V J : Type 0} (graph : Graph G V) (kv : Kv D) (json : Json J) (rate : Rate)
    (options : Options) where
  aborted_lem :
      (c : Code) (o : Option (Engine G D)) (e' : Engine G D)
      → aborted graph kv json rate options c o ≡ some (ok tt, e')
      → ⊥
  aborted_lem c none e' h = cc
  aborted_lem c (some e) e' h = cc

  -- A node that was stored without an error.
  pub record IsStored (i : ℕ) (v : V) (bytes : Option Bytes) (e e' : Engine G D) : Type 0 where
    pub inserted : graph.insert i v bytes e.graph ≡ (some (ok tt), e'.graph)
    pub ids : e'.ids ≡ e.ids
    pub live : e'.live ≡ e.live
    pub log : e'.log ≡ e.log

  pub store_node_lem :
      (io : _) (lsn i : ℕ) (v : V) (bytes : Option Bytes) (e e' : Engine G D)
      → store_node graph kv json rate options io lsn i v bytes e ≡ some (ok tt, e')
      → IsStored i v bytes e e'
  unfolding store_node
  store_node_lem io lsn i v bytes e e' h = at (graph.insert i v bytes e.graph) refl h
    where
      at :
          (p : Option (Result (Unit {0})) × G)
          → graph.insert i v bytes e.graph ≡ p
          → node_stored graph kv json rate options io lsn e p ≡ some (ok tt, e')
          → IsStored i v bytes e e'
      at (none, g) eq h = absurd (aborted_lem _ _ e' h)
      at (some (err c), g) eq h = absurd (aborted_lem _ _ e' h)
      at (some (ok _), g) eq h =
          let same : e' ≡ record e { graph = g } = ap (engine_of e) (sym h) in
          record {
            inserted = eq ∙ ap (λ d. (some (ok tt), d.graph)) (sym same);
            ids = ap (λ d. d.ids) same;
            live = ap (λ d. d.live) same;
            log = ap (λ d. d.log) same;
          }

  -- A call that leaves the points as they are.
  abbrev pub Keeps : Action (Engine G D) (Unit {0}) → Type 0
  Keeps m = (s : Result (Unit {0})) (e e' : Engine G D) → m e ≡ some (s, e') → IsSame e e'

  IsSame-of : (e d e' : Engine G D) → IsSame e d → d ≡ e' → IsSame e e'
  IsSame-of e d e' same at = subst (IsSame e) at same

  pub pure-Keeps : Keeps (pure tt)
  pure-Keeps s e e' h = IsSame-of e e e' (IsSame-refl e) (ap (engine_of e) h)

  pub put_payload-Keeps :
      (i : ℕ) (payload : Bytes) → Keeps (put_payload graph kv json rate options i payload)
  unfolding put_payload
  put_payload-Keeps i payload s e e' h = at e.rows h
    where
      at :
          (rows : Option D)
          → on_store graph kv json rate options (put_row kv i payload) e rows ≡ some (s, e')
          → IsSame e e'
      at none h = IsSame-of e e e' (IsSame-refl e) (ap (engine_of e) h)
      at (some rows) h =
          IsSame-of e _ e' (with_rows-IsSame graph kv e (put_row kv i payload rows))
            (ap (engine_of e) h)

  pub copy_payload-Keeps : (old i : ℕ) → Keeps (copy_payload graph kv json rate options old i)
  unfolding copy_payload
  copy_payload-Keeps old i s e e' h = at e.rows h
    where
      row :
          (bytes : Result Bytes)
          → copied graph kv json rate options i bytes e ≡ some (s, e')
          → IsSame e e'
      row (ok bytes) h = put_payload-Keeps i bytes s e e' h
      row (err c) h = pure-Keeps s e e' h

      at :
          (rows : Option D)
          → copy_from graph kv json rate options old i rows e ≡ some (s, e')
          → IsSame e e'
      at none h = pure-Keeps s e e' h
      at (some rows) h = row (get_row kv old rows) h

  tolerant_lem :
      (p : Result (Unit {0}) × Engine G D) (s : Result (Unit {0})) (e' : Engine G D)
      → tolerant graph kv json rate options p ≡ some (s, e')
      → p.1 ≡ e'
  tolerant_lem (ok _, e) s e' h = ap (engine_of e) h
  tolerant_lem (err not_found, e) s e' h = ap (engine_of e) h
  tolerant_lem (err corruption, e) s e' h = ap (engine_of e) h
  tolerant_lem (err not_supported, e) s e' h = ap (engine_of e) h
  tolerant_lem (err invalid_argument, e) s e' h = ap (engine_of e) h
  tolerant_lem (err io_error, e) s e' h = ap (engine_of e) h

  pub delete_payload-Keeps : (i : ℕ) → Keeps (delete_payload graph kv json rate options i)
  unfolding delete_payload
  delete_payload-Keeps i s e e' h =
      IsSame-of e _ e' (drop_row-IsSame graph kv i e e.rows)
        (tolerant_lem (drop_row graph kv i e e.rows) s e' h)

  pub then_Keeps :
      (m k : Action (Engine G D) (Unit {0})) (e e' : Engine G D)
      → Keeps m
      → Keeps k
      → (m >> k) e ≡ some (ok tt, e')
      → IsSame e e'
  then_Keeps m k e e' keeps_m keeps_k h =
      let (a, d, first, second) = follow_ok (λ _. k) (m e) tt e' h in
      IsSame-trans (keeps_m (ok a) e d first) (keeps_k (ok tt) d e' second)

  pub migrate_payload_lem :
      (old i : ℕ) (payload : Bytes) (e e' : Engine G D)
      → migrate_payload graph kv json rate options old i payload e ≡ some (ok tt, e')
      → IsSame e e'
  unfolding migrate_payload
  migrate_payload_lem old i payload e e' h =
      then_Keeps (write (is_absent payload)) (delete_payload graph kv json rate options old) e e'
        (keeps (is_absent payload)) (delete_payload-Keeps old) h
    where
      write : Bool → Action (Engine G D) (Unit {0})
      write b =
          if b
          then copy_payload graph kv json rate options old i
          else put_payload graph kv json rate options i payload

      keeps : (b : Bool) → Keeps (write b)
      keeps true = copy_payload-Keeps old i
      keeps false = put_payload-Keeps i payload

  -- The payload of an insert, where it has one.
  pub optional_payload_lem :
      (absent : Bool) (i : ℕ) (payload : Bytes) (e e' : Engine G D)
      → (if absent then pure tt else put_payload graph kv json rate options i payload) e
        ≡ some (ok tt, e')
      → IsSame e e'
  optional_payload_lem true i payload e e' h = pure-Keeps (ok tt) e e' h
  optional_payload_lem false i payload e e' h = put_payload-Keeps i payload (ok tt) e e' h

  pub record IsMapped (r i : ℕ) (e e' : Engine G D) : Type 0 where
    pub mapping : record_update_mapping rate r i e.ids ≡ some e'.ids
    pub graph' : e'.graph ≡ e.graph
    pub live : e'.live ≡ e.live
    pub log : e'.log ≡ e.log

  pub record_mapping_lem :
      (r i : ℕ) (e e' : Engine G D)
      → record_mapping graph kv json rate options r i e ≡ some (ok tt, e')
      → IsMapped r i e e'
  unfolding record_mapping
  record_mapping_lem r i e e' h = at (record_update_mapping rate r i e.ids) refl h
    where
      at :
          (o : Option IdMap)
          → record_update_mapping rate r i e.ids ≡ o
          → ids_recorded graph kv json rate options e o ≡ some (ok tt, e')
          → IsMapped r i e e'
      at none eq h = absurd (cc h)
      at (some ids) eq h =
          let same : e' ≡ record e { ids = ids } = ap (engine_of e) (sym h) in
          record {
            mapping = eq ∙ ap (λ d. some d.ids) (sym same);
            graph' = ap (λ d. d.graph) same;
            live = ap (λ d. d.live) same;
            log = ap (λ d. d.log) same;
          }
