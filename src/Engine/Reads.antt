-- ===== src/Engine/Reads.antt =====
-- A payload that was set is read back, and no other payload changes.
use aster_vec.Base.{
  ℕ, ◌^◌, ◌<◌, ◌≡◌, ◌≢◌, refl, ap, ap₂, sym, ◌∙◌, Option, none, some, arith, ◌==◌, ==_refl, ne→==,
  if_true, if_false, if◌then◌else◌,
}
use aster_vec.Base.Bytes.{Bytes}
use aster_vec.Base.Status.{Result, ok, err, not_found}
use aster_vec.IdMap.{first_update_id, resolve_internal}
use aster_vec.IdMap.Deleting.{resolve_internal_injective}
use aster_vec.IdMap.Versions.{below}
use aster_vec.IdMap.Good.{IsGood, HasRoom}
use aster_vec.MetadataStore.Store.{Kv, Json, IsStore}
use aster_vec.MetadataStore.{put_row, get_row}
use aster_vec.MetadataStore.Rows.{get_row-put_row}
use aster_vec.Engine.{Graph, Engine, write_scope, with_rows}
use aster_vec.Engine.Action.{Action, follow, check_ok}
use aster_vec.Engine.Frames.{engine_of}
use aster_vec.Engine.Writing.{parse_metadata_object}
use aster_vec.Engine.Payloads.{
  has_live_vector, payload_or_empty, payload_in, get_payload_dense, in_store, has_rows, needs,
  set_payload_dense,
}

module _ {G D V J : Type 0} (graph : Graph G V) (kv : Kv D) (json : Json J) where
  -- A write to the rows that went well.
  record IsRowWrite (write : D → Result (Unit {0}) × D) (e e' : Engine G D) : Type 0 where
    old : D
    new : D
    before : e.rows ≡ some old
    wrote : write old ≡ (ok tt, new)
    behind : e'.rows ≡ some new
    ids : e'.ids ≡ e.ids

  in_store_lem :
      (write : D → Result (Unit {0}) × D) (e e' : Engine G D) (rows : Option D)
      → e.rows ≡ rows
      → in_store graph kv json write e rows ≡ some (ok tt, e')
      → IsRowWrite write e e'
  in_store_lem write e e' none eq h = absurd (cc h)
  in_store_lem write e e' (some rows) eq h = at (write rows) refl h
    where
      at :
          (p : Result (Unit {0}) × D)
          → write rows ≡ p
          → some (with_rows graph kv e p) ≡ some (ok tt, e')
          → IsRowWrite write e e'
      at (err c, rows') made h = absurd (cc h)
      at (ok _, rows') made h =
          let same : e' ≡ record e { rows = some rows' } = ap (engine_of e) (sym h) in
          record {
            old = rows;
            new = rows';
            before = eq;
            wrote = made;
            behind = ap (λ d. d.rows) same;
            ids = ap (λ d. d.ids) same;
          }

  -- A payload that was set on a point is read back, and the payload of every other point stays as
  -- it was, where the id map is good and has room and the store reads what it wrote.
  pub get_payload-set_payload :
      (r : ℕ) (payload : Bytes) (e e' : Engine G D)
      → IsStore kv
      → IsGood e.ids
      → HasRoom e.ids
      → r < first_update_id
      → set_payload_dense graph kv json r payload e ≡ some (ok tt, e')
      → (get_payload_dense graph kv json r e' ≡ ok payload)
        × ((j : ℕ)
            → j < first_update_id
            → j ≢ r
            → get_payload_dense graph kv json j e' ≡ get_payload_dense graph kv json j e)
  unfolding set_payload_dense get_payload_dense
  get_payload-set_payload r payload e e' lawful good room small h = (
    read r small ∙ ap payload_or (if_true _ _ (==_refl (resolve_internal e.ids r))),
    λ j hj other.
        read j hj
        ∙ ap payload_or (if_false _ _ (ne→== _ _ (apart j hj other)))
        ∙ sym (ap (payload_in graph kv json (resolve_internal e.ids j)) made.before),
  )
    where
      payload_or : Result Bytes → Result Bytes
      payload_or = payload_or_empty graph kv json

      e1 : Engine G D
      e1 = write_scope graph kv e

      store : Action (Engine G D) (Unit {0})
      store d = in_store graph kv json (put_row kv (resolve_internal d.ids r) payload) d d.rows

      parse : Action (Engine G D) (Unit {0})
      parse d = follow (λ _. store) (some (parse_metadata_object json payload, d))

      living : Action (Engine G D) (Unit {0})
      living d =
          follow (λ _. parse)
            (some (needs graph kv json (has_live_vector graph kv json r d) not_found, d))

      made : IsRowWrite (put_row kv (resolve_internal e.ids r) payload) e e'
      made =
          let (u1, there, h1) =
            check_ok (needs graph kv json (has_rows graph kv json e.rows) not_found) (λ _. living)
              e1 tt e' (unfold set_payload_dense in h) in
          let (u2, lives, h2) =
            check_ok (needs graph kv json (has_live_vector graph kv json r e1) not_found)
              (λ _. parse) e1 tt e' h1 in
          let (doc, parsed, h3) =
            check_ok (parse_metadata_object json payload) (λ _. store) e1 tt e' h2 in
          let w =
            in_store_lem (put_row kv (resolve_internal e.ids r) payload) e1 e' e.rows refl h3 in
          record {
            old = w.old;
            new = w.new;
            before = w.before;
            wrote = w.wrote;
            behind = w.behind;
            ids = w.ids;
          }

      fits : (j : ℕ) → j < first_update_id → resolve_internal e.ids j < 2 ^ 64
      fits j hj = omega (arith, below e.ids good j hj, room.ids)

      apart :
          (j : ℕ)
          → j < first_update_id
          → j ≢ r
          → resolve_internal e.ids r ≢ resolve_internal e.ids j
      apart j hj other eq =
          other (resolve_internal_injective e.ids good.sound j r hj small (sym eq))

      read :
          (j : ℕ)
          → j < first_update_id
          → payload_in graph kv json (resolve_internal e'.ids j) e'.rows
            ≡ payload_or (
                if resolve_internal e.ids r == resolve_internal e.ids j
                then ok payload
                else get_row kv (resolve_internal e.ids j) made.old)
      read j hj =
          ap₂ (λ m rows. payload_in graph kv json (resolve_internal m j) rows) made.ids made.behind
          ∙ ap payload_or (
              get_row-put_row kv lawful (resolve_internal e.ids r) (fits r small) payload made.old
                made.new made.wrote (resolve_internal e.ids j) (fits j hj))
