-- ===== src/MetadataStore/Rows.antt =====
-- Payload rows are read back, and other rows stay.
use aster_vec.Base.{ℕ, ◌^◌, ◌<◌, ◌≡◌, refl, ◌∙◌, ◌∷◌, [], arith, ◌==◌, if◌then◌else◌}
use aster_vec.Base.Bytes.{Bytes}
use aster_vec.Base.Status.{ok, err, not_found}
use aster_vec.BigEndian.{be_bytes}
use aster_vec.BigEndian.Laws.{same_bytes-be_bytes}
use aster_vec.MetadataStore.Store.{put, delete, Kv, after, IsStore}
use aster_vec.MetadataStore.{put_row, get_row, delete_row}

module _ {D : Type 0} (kv : Kv D) (lawful : IsStore kv) (id : ℕ) (fits : id < 2 ^ 64) where
  -- A row that was written is read back, and every other row reads as before.
  pub get_row-put_row :
      (bytes : Bytes) (rows rows' : D)
      → put_row kv id bytes rows ≡ (ok tt, rows')
      → (j : ℕ) → j < 2 ^ 64
      → get_row kv j rows' ≡ (if id == j then ok bytes else get_row kv j rows)
  unfolding put_row get_row after
  get_row-put_row bytes rows rows' done j small =
      lawful.reads_writes (put (be_bytes 8 id) bytes ∷ []) rows rows' (be_bytes 8 j) done
      ∙ rw (same_bytes-be_bytes 8 id j (omega arith) (omega arith)) refl

  -- A row that was deleted is not found, and every other row reads as before.
  pub get_row-delete_row :
      (rows rows' : D)
      → delete_row kv id rows ≡ (ok tt, rows')
      → (j : ℕ) → j < 2 ^ 64
      → get_row kv j rows' ≡ (if id == j then err not_found else get_row kv j rows)
  unfolding delete_row get_row after
  get_row-delete_row rows rows' done j small =
      lawful.reads_writes (delete (be_bytes 8 id) ∷ []) rows rows' (be_bytes 8 j) done
      ∙ rw (same_bytes-be_bytes 8 id j (omega arith) (omega arith)) refl
