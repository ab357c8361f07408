-- ===== src/Engine/Payloads.antt =====
-- The reads and the payload operations of src/astervec_db.cc on dense ids.
use aster_vec.Base.{ℕ, Bool, true, false, List, [], ◌∷◌, Option, none, some, if◌then◌else◌}
use aster_vec.Base.Bytes.{Bytes}
use aster_vec.Base.Status.{Code, Result, ok, err, not_found, io_error}
use aster_vec.IdMap.{resolve_internal, is_alive}
use aster_vec.MetadataStore.Store.{Kv, Json}
use aster_vec.MetadataStore.{put_row, get_row, put_rows, update_doc, delete_keys}
use aster_vec.PointId.{PointId}
use aster_vec.Resolving.{Resolver, resolve_id}
use aster_vec.Engine.{Graph, Engine, write_scope, with_rows}
use aster_vec.Engine.Action.{Action, check, at_start, modify, ◌>>=◌, ◌>>◌}
use aster_vec.Engine.Writing.{parse_metadata_object}

-- `{}`.
abbrev pub empty_object : Bytes
empty_object = b'{' ∷ b'}' ∷ []

module _ {G D V J : Type 0} (graph : Graph G V) (kv : Kv D) (json : Json J) where
  unfoldable pub has_live_vector : ℕ → Engine G D → Bool
  has_live_vector r e = is_alive (graph.exists e.graph) e.ids r

  abbrev pub read_vector : Option V → Result V
  read_vector none = err io_error
  read_vector (some v) = ok v

  -- The statistics of the read are left out.
  unfoldable pub get_dense : ℕ → Engine G D → Result V
  get_dense r e =
      if is_alive (graph.exists e.graph) e.ids r
      then read_vector (graph.read (resolve_internal e.ids r) e.graph)
      else err not_found

  abbrev pub payload_or_empty : Result Bytes → Result Bytes
  payload_or_empty (err not_found) = ok empty_object
  payload_or_empty s = s

  abbrev pub payload_in : ℕ → Option D → Result Bytes
  payload_in i none = err not_found
  payload_in i (some rows) = payload_or_empty (get_row kv i rows)

  unfoldable pub get_payload_dense : ℕ → Engine G D → Result Bytes
  get_payload_dense r e = payload_in (resolve_internal e.ids r) e.rows

  -- A call that needs the metadata store.
  abbrev pub in_store :
      (D → Result (Unit {0}) × D) → Engine G D → Option D → Option (Result (Unit {0}) × Engine G D)
  in_store write e none = some (err not_found, e)
  in_store write e (some rows) = some (with_rows graph kv e (write rows))

  abbrev pub has_rows : Option D → Bool
  has_rows none = false
  has_rows (some rows) = true

  abbrev pub needs : Bool → Code → Result (Unit {0})
  needs true c = ok tt
  needs false c = err c

  unfoldable pub set_payload_dense : ℕ → Bytes → Action (Engine G D) (Unit {0})
  set_payload_dense r payload = do
    modify (write_scope graph kv)
    at_start (λ e. check (needs (has_rows e.rows) not_found))
    at_start (λ e. check (needs (has_live_vector r e) not_found))
    doc ← check (parse_metadata_object json payload)
    at_start (λ e e'. in_store (put_row kv (resolve_internal e.ids r) payload) e' e'.rows)

  unfoldable pub update_payload_dense : ℕ → Bytes → Action (Engine G D) (Unit {0})
  update_payload_dense r partial = do
    modify (write_scope graph kv)
    at_start (λ e. check (needs (has_rows e.rows) not_found))
    at_start (λ e. check (needs (has_live_vector r e) not_found))
    patch ← check (parse_metadata_object json partial)
    at_start (λ e e'. in_store (update_doc kv json (resolve_internal e.ids r) patch) e' e'.rows)

  unfoldable pub delete_payload_keys_dense : ℕ → List Bytes → Action (Engine G D) (Unit {0})
  delete_payload_keys_dense r keys = do
    modify (write_scope graph kv)
    at_start (λ e. check (needs (has_rows e.rows) not_found))
    at_start (λ e e'. in_store (delete_keys kv json (resolve_internal e.ids r) keys) e' e'.rows)

  -- One item of a batch on a resolved id: the internal id, where the point is alive and the payload
  -- is an object.
  abbrev pub batch_item : Engine G D → Bytes → Result ℕ → Result (ℕ × Bytes)
  batch_item e payload (err c) = err c
  batch_item e payload (ok r) =
      if has_live_vector r e
      then elim (parse_metadata_object json payload) [
        | ok doc ↦ ok (resolve_internal e.ids r, payload)
        | err c ↦ err c
      ]
      else err not_found

  -- The loop of `SetPayloadBatch`; resolving without `create` changes nothing.
  unfoldable pub batch_items :
      Engine G D → Resolver D → List (PointId × Bytes) → Result (List (ℕ × Bytes))
  batch_items e st [] = ok []
  batch_items e st ((id, payload) ∷ items) =
      elim (batch_item e payload ((resolve_id kv id false st).0.dense)) [
        | ok item ↦ elim (batch_items e st items) [ ok rest ↦ ok (item ∷ rest) | err c ↦ err c ]
        | err c ↦ err c
      ]

  unfoldable pub set_payload_batch :
      Resolver D → List (PointId × Bytes) → Action (Engine G D) (Unit {0})
  set_payload_batch st items = do
    modify (write_scope graph kv)
    at_start (λ e. check (needs (has_rows e.rows) not_found))
    rows ← at_start (λ e. check (batch_items e st items))
    at_start (λ e e'. in_store (put_rows kv rows) e' e'.rows)
