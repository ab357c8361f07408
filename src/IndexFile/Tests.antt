-- ===== src/IndexFile/Tests.antt =====
-- A small checkpoint file, sound and damaged.
use aster_vec.Base.{
  ◌∙◌, ◌==◌, ==_iff, if_true, if_false, Bool-cases, inl, inr, ◌+◌, ap, sym, Option, ℕ, ◌≡◌, refl,
  true, false, List, [], ◌∷◌, ◌++◌, none, some, arith, replicate,
}
use aster_vec.Base.Bytes.{Bytes, le_bytes, le_value, length-le_bytes}
use aster_vec.Base.Status.{Result, ok, err, corruption, ok_injective}
use aster_vec.Bloom.{Rate}
use aster_vec.Crc
use aster_vec.IdMap.{IdMap, first_update_id}
use aster_vec.IndexFile.{Points, Paged, Index, MetaHeader, metadata_magic}
use aster_vec.Bloom.{reset, add, might_contain}
use aster_vec.Bloom.Contains.{IsValid, add-IsValid, might_contain-add}
use aster_vec.IdMap.Invariant.{IsSound}
use aster_vec.IdMap.Updating.{IsRate}
use aster_vec.Base.Assoc.{lookup}
use aster_vec.IndexFile.Blocks.{FitsLayer}
use aster_vec.IndexFile.RoundTrip.{CanSave, entries_of, PagesBack}
use aster_vec.IndexFile.Back.{IsBack, deserialize_metadata-serialize_metadata}
use aster_vec.IndexFile.Save.{write_pages, serialize_metadata, serialize_payload}
use aster_vec.IndexFile.Load.{deserialize_metadata, payload_of, stored_crc, rebuild_filter}
use aster_vec.IndexFile.Damage.{deserialize_metadata-damaged}
use aster_vec.IndexFile.Heads.{FitsHeader}

abbrev small_header : MetaHeader
small_header = record {
  version = 4;
  entry_point = 7;
  max_layer = 2;
  node_count = 0;
  deleted_count = 0;
  graph_encoding = 1;
}

small_header-FitsHeader : FitsHeader small_header
small_header-FitsHeader = record {
  version = omega arith;
  entry_point = omega arith;
  max_layer = omega arith;
  node_count = omega arith;
  deleted_count = omega arith;
  graph_encoding = omega arith;
}

abbrev pub words : Points (List ℕ)
words = record { floats = λ p. p; load = λ p. p }

abbrev pub no_pages : Paged ℕ
no_pages = record { save = λ s. none; load = λ s bytes. none }

abbrev pub some_rate : Rate
some_rate = record { in_range = true; raw_bits = λ n. 64; raw_hashes = 1; full = λ n c. false }

abbrev empty_ids : IdMap
empty_ids = record {
  bloom = record { bits = replicate 1 0; bit_count = 64; num_hash = 1; capacity = 8; inserts = 0 };
  forward = [];
  reverse = [];
  tombstones = [];
  next_update = first_update_id;
  rebuilds = 0;
}

abbrev pub empty_index : Index (List ℕ) ℕ
empty_index = record {
  nodes = [];
  ids = empty_ids;
  entry_point = 0;
  max_layer = 0;
  graph_encoding = 0;
  pages = none;
  checkpoint_lsn = 0;
  checkpoint_live_count = 0;
  id_mode = 0;
  dim = 1;
  storage_type = 0;
}

abbrev version_four : Bytes
version_four = metadata_magic ++ (4 ∷ 0 ∷ 0 ∷ 0 ∷ [])

abbrev checksum : Bytes
checksum = le_bytes 4 (Crc.value (version_four ++ (5 ∷ [])))

abbrev sound_file : Bytes
sound_file = version_four ++ (5 ∷ checksum)

checksum_there :
    Crc.value (payload_of words no_pages some_rate sound_file)
    ≡ stored_crc words no_pages some_rate sound_file
unfolding Crc.value Crc.update_crc Crc.finish le_bytes le_value
checksum_there = refl

deserialize_metadata-damaged_example :
    deserialize_metadata words no_pages some_rate empty_index (version_four ++ (6 ∷ checksum))
    ≡ err corruption
deserialize_metadata-damaged_example =
    deserialize_metadata-damaged words no_pages some_rate version_four checksum (omega arith)
      (omega (arith, length-le_bytes 4 (Crc.value (version_four ++ (5 ∷ []))))) 5 6 empty_index
      (omega arith) (omega arith) (λ h. absurd (omega arith)) (unfold le_value in refl)
      checksum_there

-- An index with a node, a tombstone and an update mapping.
abbrev pub busy_index : Index (List ℕ) ℕ
busy_index = record empty_index {
  nodes = (9, record { id = 9; point = 5 ∷ []; neighbors = (1, 2 ∷ []) ∷ [] }) ∷ [];
  ids = record empty_ids {
    tombstones = 3 ∷ [];
    bloom = add 3 empty_ids.bloom;
    forward = (3, first_update_id) ∷ [];
    reverse = (first_update_id, 3) ∷ [];
    next_update = first_update_id + 1;
  };
  entry_point = 9;
  max_layer = 1;
  checkpoint_lsn = 3;
  checkpoint_live_count = 1;
}

pub busy_index-CanSave : CanSave words no_pages some_rate empty_index busy_index
unfolding FitsLayer
busy_index-CanSave = record {
  nodes = (
    record {
      id = omega arith;
      floats = (omega arith, tt);
      size = refl;
      dimension = omega arith;
      layers = ((omega arith, ((omega arith, tt), omega arith)), tt);
      count = omega arith;
    },
    tt,
  );
  marks = (omega arith, tt);
  entries = ((omega arith, omega arith), tt);
  entry_count = omega arith;
  next_update = omega arith;
  header = record {
    version = omega arith;
    entry_point = omega arith;
    max_layer = omega arith;
    node_count = omega arith;
    deleted_count = omega arith;
    graph_encoding = omega arith;
  };
  checkpoint_lsn = omega arith;
  live_count = omega arith;
  id_mode = omega arith;
  storage_type = omega arith;
  same_encoding = refl;
  same_storage = refl;
}

abbrev ids_or : IdMap → Option IdMap → IdMap
ids_or m none = m
ids_or m (some m') = m'

abbrev file_or : Result Bytes → Bytes
file_or (ok file) = file
file_or (err c) = []

abbrev pub busy_ids : IdMap
busy_ids =
    ids_or empty_ids
      (rebuild_filter some_rate (entries_of words no_pages some_rate empty_index busy_index))

pub busy_filter :
    rebuild_filter some_rate (entries_of words no_pages some_rate empty_index busy_index)
    ≡ some busy_ids
unfolding rebuild_filter reset
busy_filter = refl

abbrev pub busy_file : Bytes
busy_file = file_or (serialize_metadata words no_pages busy_index)

pub busy_saved : serialize_metadata words no_pages busy_index ≡ ok busy_file
unfolding serialize_metadata serialize_payload
busy_saved = refl

pub empty_block :
    (block : Bytes)
    → write_pages words no_pages busy_index ≡ ok block
    → PagesBack words no_pages some_rate empty_index block none
empty_block block h rest = ap (λ (b : Bytes). ok (none, b ++ rest)) (sym (ok_injective h))

some_rate-IsRate : IsRate some_rate
some_rate-IsRate = record { in_range = refl; fits = λ n. omega arith }

only_entry : (k a r i : ℕ) → lookup r ((k, a) ∷ []) ≡ some i → (k ≡ r) × (a ≡ i)
unfolding lookup
only_entry k a r i h = elim (Bool-cases (k == r)) [
  | inl same ↦ ((==_iff k r).0 same, some_injective (sym (if_true _ _ same) ∙ h))
  | inr other ↦ absurd (cc (sym (if_false _ _ other) ∙ h))
]
  where
    some_injective : {x y : ℕ} → ◌≡◌ {A = Option ℕ} (some x) (some y) → x ≡ y
    some_injective e = cc e

busy_index-IsSound : IsSound busy_index.ids
busy_index-IsSound = record {
  filter = add-IsValid empty_ids.bloom valid 3;
  known = λ r i h.
      ap (λ (k : ℕ). might_contain k (add 3 empty_ids.bloom)) (sym (only_entry 3 _ r i h).0)
      ∙ might_contain-add empty_ids.bloom valid 3;
  there = λ r i h. there r i (only_entry 3 _ r i h).0 (only_entry 3 _ r i h).1;
  back = λ r i h. back r i (only_entry _ 3 i r h).0 (only_entry _ 3 i r h).1;
  counter = omega arith;
  update_ids = λ r i h. let e = (only_entry 3 _ r i h).1 in (omega (arith, e), omega (arith, e));
}
  where
    valid : IsValid empty_ids.bloom
    valid = record { some_bits = omega arith; words = omega arith }

    there : (r i : ℕ) → 3 ≡ r → first_update_id ≡ i → lookup i busy_index.ids.reverse ≡ some r
    there r i e d =
        ap (λ (k : ℕ). lookup k busy_index.ids.reverse) (sym d) ∙ (unfold lookup in ap some e)

    back : (r i : ℕ) → first_update_id ≡ i → 3 ≡ r → lookup r busy_index.ids.forward ≡ some i
    back r i d e =
        ap (λ (k : ℕ). lookup k busy_index.ids.forward) (sym e) ∙ (unfold lookup in ap some d)

deserialize_metadata-serialize_metadata_example :
    (index : Index (List ℕ) ℕ) × (deserialize_metadata words no_pages some_rate empty_index
        busy_file
      ≡ ok index)
    × IsBack words no_pages some_rate empty_index busy_index index none
deserialize_metadata-serialize_metadata_example =
    deserialize_metadata-serialize_metadata words no_pages some_rate empty_index busy_index
      busy_file none busy_index-CanSave some_rate-IsRate busy_index-IsSound
      (unfold lookup in (refl, tt)) empty_block busy_saved
