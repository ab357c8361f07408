-- ===== src/IdMap/Tests.antt =====
-- The id map at concrete inputs: an empty map, and the map after an update of id 7.
use aster_vec.Base.{ℕ, ◌*◌, ◌≡◌, refl, true, [], some, arith, leb, ◌==◌, if◌then◌else◌, replicate}
use aster_vec.Base.Assoc.{lookup}
use aster_vec.Bloom.{Bloom, Rate}
use aster_vec.IdMap.{
  IdMap, first_update_id, resolve_internal, resolve_real, record_update_mapping, allocate_update_id,
}
use aster_vec.IdMap.Invariant.{IsSound, resolve_real-resolve_internal}
use aster_vec.IdMap.Updating.{IsRate, update_lem}

-- Ten bits for each id, seven probes, and full at seven tenths.
abbrev one_percent : Rate
one_percent = record {
  in_range = true;
  raw_bits = λ n. if leb n 1024 then n * 10 else 10240;
  raw_hashes = 7;
  full = λ inserts capacity. leb (capacity * 7) (inserts * 10);
}

one_percent-IsRate : IsRate one_percent
one_percent-IsRate = record { in_range = refl; fits = λ n. ground arith }

abbrev empty_filter : Bloom
empty_filter = record {
  bits = replicate 80 0;
  bit_count = 5120;
  num_hash = 7;
  capacity = 512;
  inserts = 0;
}

abbrev empty_map : IdMap
empty_map = record {
  bloom = empty_filter;
  forward = [];
  reverse = [];
  tombstones = [];
  next_update = first_update_id;
  rebuilds = 0;
}

empty_map-IsSound : IsSound empty_map
unfolding lookup
empty_map-IsSound = record {
  filter = record { some_bits = omega arith; words = omega arith };
  known = λ r i h. cc;
  there = λ r i h. cc;
  back = λ r i h. cc;
  counter = omega arith;
  update_ids = λ r i h. cc;
}

update_lem_example :
    (m' : IdMap) × (record_update_mapping one_percent 7 first_update_id
        (allocate_update_id empty_map).1
      ≡ some m')
    × IsSound m'
    × ((j : ℕ)
        → resolve_internal m' j
          ≡ (if j == 7 then first_update_id else resolve_internal empty_map j))
update_lem_example =
    update_lem one_percent empty_map 7 one_percent-IsRate empty_map-IsSound (omega arith)
      (omega arith)

abbrev updated : IdMap
updated =
    (update_lem one_percent empty_map 7 one_percent-IsRate empty_map-IsSound (omega arith)
      (omega arith)).0

updated-IsSound : IsSound updated
updated-IsSound =
    (update_lem one_percent empty_map 7 one_percent-IsRate empty_map-IsSound (omega arith)
      (omega arith)).2

resolve_real-resolve_internal_example : resolve_real updated (resolve_internal updated 7) ≡ 7
resolve_real-resolve_internal_example =
    resolve_real-resolve_internal updated updated-IsSound 7 (omega arith)
