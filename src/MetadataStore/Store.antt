-- ===== src/MetadataStore/Store.antt =====
-- What the metadata store uses of RocksDB and of the JSON library, and what it relies on.
use aster_vec.Base.{◌≡◌, Bool, List, [], ◌∷◌, Option, if◌then◌else◌}
use aster_vec.Base.Bytes.{Bytes, same_bytes}
use aster_vec.Base.Status.{Result, ok, err, not_found}

pub data Change : Type 0 where
  put : Bytes → Bytes → Change
  delete : Bytes → Change

-- A column family with contents `D`. `write` is one atomic batch, `accepts` is the status of adding
-- a change to a batch, `seek_back` the last key that is not behind the given one.
pub record Kv (D : Type 0) : Type 0 where
  pub get : Bytes → D → Result Bytes
  pub write : List Change → D → Result (Unit {0}) × D
  pub accepts : Change → Result (Unit {0})
  pub seek_back : Bytes → D → Option Bytes
  pub iterator_status : D → Result (Unit {0})

-- What a key reads as after the changes of a batch, in their order.
unfoldable pub after : List Change → Bytes → Result Bytes → Result Bytes
after [] k old = old
after (put j v ∷ changes) k old = after changes k (if same_bytes j k then ok v else old)
after (delete j ∷ changes) k old = after changes k (if same_bytes j k then err not_found else old)

-- A batch that was written is read back.
pub record IsStore {D : Type 0} (kv : Kv D) : Type 0 where
  pub reads_writes :
      (changes : List Change) (d d' : D) (k : Bytes)
      → kv.write changes d ≡ (ok tt, d')
      → kv.get k d' ≡ after changes k (kv.get k d)

pub record Json (J : Type 0) : Type 0 where
  pub parse : Bytes → Option J
  pub dump : J → Bytes
  pub object : J
  pub is_object : J → Bool
  pub merge_patch : J → J → J
  pub erase : Bytes → J → J
