-- ===== src/MetadataStore.antt =====
-- src/metadata_store.cc: the payload rows and the point id map. RocksDB and the JSON library are
-- parameters. A payload row lives in one column family, the id map in another one.
pub mod Store
pub mod ListStore
pub mod IdRows
pub mod Rows
mod Tests
use aster_vec.Base.{
  ℕ, ◌+◌, ◌%◌, ◌^◌, Bool, true, false, ◌&&◌, List, [], ◌∷◌, Option, none, some, length, ◌==◌,
  if◌then◌else◌, drop,
}
use aster_vec.Base.Bytes.{Bytes}
use aster_vec.Base.Status.{
  ◌>>=◌, Result, ok, err, not_found, corruption, not_supported, invalid_argument,
}
use aster_vec.BigEndian.{be_bytes, be_value}
use aster_vec.MetadataStore.Store.{Change, put, delete, Kv, Json}

abbrev pub forward_prefix : ℕ
forward_prefix = b'k'

abbrev pub reverse_prefix : ℕ
reverse_prefix = b'r'

abbrev pub forward_key : Bytes → Bytes
forward_key key = forward_prefix ∷ key

abbrev pub reverse_key : ℕ → Bytes
reverse_key dense = reverse_prefix ∷ be_bytes 8 dense

module _ {D : Type 0} (kv : Kv D) where
  abbrev pub dense_of : Result Bytes → Result ℕ
  dense_of (err c) = err c
  dense_of (ok v) = if length v == 8 then ok (be_value 0 v) else err corruption

  -- The id map is there only in keyed stores.
  unfoldable pub lookup_key : Bytes → Option D → Result ℕ
  lookup_key key none = err not_supported
  lookup_key key (some ids) = dense_of (kv.get (forward_key key) ids)

  unfoldable pub reverse_lookup : ℕ → Option D → Result Bytes
  reverse_lookup dense none = err not_supported
  reverse_lookup dense (some ids) = kv.get (reverse_key dense) ids

  -- The loop of `PutKeys`: the batch, or the status of the first entry that it refuses.
  unfoldable pub key_batch : List (Bytes × ℕ) → Result (List (Change))
  key_batch [] = ok []
  key_batch ((key, dense) ∷ items) =
      let fwd = put (forward_key key) (be_bytes 8 dense) in
      let rev = put (reverse_key dense) key in
      kv.accepts fwd
      >>= (λ _. kv.accepts rev >>= (λ _. key_batch items >>= (λ batch. ok (fwd ∷ rev ∷ batch))))

  abbrev pub write_batch : Result (List Change) → D → Result (Unit {0}) × D
  write_batch (err c) d = (err c, d)
  write_batch (ok batch) d = kv.write batch d

  abbrev pub with_ids : Result (Unit {0}) × D → Result (Unit {0}) × Option D
  with_ids (s, ids) = (s, some ids)

  unfoldable pub put_keys : List (Bytes × ℕ) → Option D → Result (Unit {0}) × Option D
  put_keys items none = (err not_supported, none)
  put_keys items (some ids) = with_ids (write_batch (key_batch items) ids)

  unfoldable pub put_key : Bytes → ℕ → Option D → Result (Unit {0}) × Option D
  put_key key dense ids = put_keys ((key, dense) ∷ []) ids

  abbrev pub last_reverse : Option Bytes → Result (Option ℕ)
  last_reverse none = ok none
  last_reverse (some []) = ok none
  last_reverse (some (c ∷ id)) =
      if c == reverse_prefix
      then (if length id == 8 then ok (some (be_value 0 id)) else err corruption)
      else ok none

  -- `MaxMappedId`: `ok none` where no entry is found; the iterator's own status is the last word.
  unfoldable pub max_mapped_id : Option D → Result (Option ℕ)
  max_mapped_id none = err not_supported
  max_mapped_id (some ids) =
      last_reverse (kv.seek_back ((reverse_prefix + 1) ∷ []) ids)
      >>= (λ id. kv.iterator_status ids >>= (λ _. ok id))

  -- Rows of raw bytes.
  unfoldable pub put_row : ℕ → Bytes → D → Result (Unit {0}) × D
  put_row id bytes rows = kv.write (put (be_bytes 8 id) bytes ∷ []) rows

  unfoldable pub row_batch : List (ℕ × Bytes) → Result (List Change)
  row_batch [] = ok []
  row_batch ((id, bytes) ∷ items) =
      let row = put (be_bytes 8 id) bytes in
      kv.accepts row >>= (λ _. row_batch items >>= (λ batch. ok (row ∷ batch)))

  unfoldable pub put_rows : List (ℕ × Bytes) → D → Result (Unit {0}) × D
  put_rows items rows = write_batch (row_batch items) rows

  unfoldable pub get_row : ℕ → D → Result Bytes
  get_row id rows = kv.get (be_bytes 8 id) rows

  unfoldable pub delete_row : ℕ → D → Result (Unit {0}) × D
  delete_row id rows = kv.write (delete (be_bytes 8 id) ∷ []) rows

  module _ {J : Type 0} (json : Json J) where
    unfoldable pub put_doc : ℕ → J → D → Result (Unit {0}) × D
    put_doc id doc rows = put_row id (json.dump doc) rows

    abbrev pub parsed : Option J → Result J
    parsed none = err corruption
    parsed (some doc) = ok doc

    unfoldable pub get_doc : ℕ → D → Result J
    get_doc id rows = get_row id rows >>= (λ bytes. parsed (json.parse bytes))

    abbrev pub patched : ℕ → J → D → Result J → Result (Unit {0}) × D
    patched id partial rows (ok existing) = put_doc id (json.merge_patch existing partial) rows
    patched id partial rows (err not_found) = put_doc id (json.merge_patch json.object partial) rows
    patched id partial rows (err c) = (err c, rows)

    unfoldable pub update_doc : ℕ → J → D → Result (Unit {0}) × D
    update_doc id partial rows = patched id partial rows (get_doc id rows)

    unfoldable pub erase_keys : List Bytes → J → J
    erase_keys [] doc = doc
    erase_keys (k ∷ ks) doc = erase_keys ks (json.erase k doc)

    abbrev pub without_keys : ℕ → List Bytes → D → Result J → Result (Unit {0}) × D
    without_keys id keys rows (err c) = (err c, rows)
    without_keys id keys rows (ok existing) =
        if json.is_object existing
        then put_doc id (erase_keys keys existing) rows
        else (err invalid_argument, rows)

    unfoldable pub delete_keys : ℕ → List Bytes → D → Result (Unit {0}) × D
    delete_keys id keys rows = without_keys id keys rows (get_doc id rows)
