-- ===== src/IdMap.antt =====
-- The id map of the index: include/id_types.h, and of include/astervec_index.h and
-- src/astervec_index.cc the members on update mappings and tombstones. The locks make each member
-- one step. What the vector storage holds is a parameter.
pub mod Invariant
pub mod Mapping
pub mod Updating
pub mod Deleting
pub mod Good
pub mod Versions
mod Tests
use aster_vec.Base.{
  ℕ, ◌+◌, ◌-◌, ◌*◌, ◌/◌, ◌%◌, ◌^◌, Bool, true, false, ◌&&◌, List, [], ◌∷◌, Option, none, some, leb,
  ◌==◌, if◌then◌else◌,
}
use aster_vec.Base.Assoc.{lookup, erase, assign}
use aster_vec.Bloom.{Bloom, Rate, reset, add, might_contain}

abbrev pub update_id_bit : ℕ
update_id_bit = 2 ^ 63

abbrev pub first_update_id : ℕ
first_update_id = update_id_bit

abbrev pub max_real_id : ℕ
max_real_id = update_id_bit - 1

unfoldable pub is_direct_id : ℕ → Bool
is_direct_id i = i / 2 ^ 63 == 0

unfoldable pub is_update_id : ℕ → Bool
is_update_id i = i / 2 ^ 63 == 1

pub record IdMap : Type 0 where
  pub bloom : Bloom
  -- `updated_real_to_internal_` and `updated_internal_to_real_`.
  pub forward : List (ℕ × ℕ)
  pub reverse : List (ℕ × ℕ)
  pub tombstones : List ℕ
  pub next_update : ℕ
  pub rebuilds : ℕ

abbrev pub value_or : ℕ → Option ℕ → ℕ
value_or d none = d
value_or d (some v) = v

unfoldable pub resolve_internal : IdMap → ℕ → ℕ
resolve_internal m r = if might_contain r m.bloom then value_or r (lookup r m.forward) else r

unfoldable pub resolve_real : IdMap → ℕ → ℕ
resolve_real m i = if is_direct_id i then i else value_or i (lookup i m.reverse)

unfoldable pub member : ℕ → List ℕ → Bool
member i [] = false
member i (t ∷ ts) = if t == i then true else member i ts

unfoldable pub is_tombstoned : IdMap → ℕ → Bool
is_tombstoned m i = member i m.tombstones

unfoldable pub tombstone : ℕ → IdMap → IdMap
tombstone i m = if member i m.tombstones then m else record m { tombstones = i ∷ m.tombstones }

-- `exists` says which vectors the storage holds, where there is a storage.
unfoldable pub is_alive : (ℕ → Bool) → IdMap → ℕ → Bool
is_alive exists m r = let i = resolve_internal m r in if is_tombstoned m i then false else exists i

-- The keys of a map, added to a filter.
unfoldable pub add_keys : List (ℕ × ℕ) → Bloom → Bloom
add_keys [] f = f
add_keys ((r, i) ∷ entries) f = add_keys entries (add r f)

abbrev pub rebuilt : IdMap → Option Bloom → Option IdMap
rebuilt m none = none
rebuilt m (some f) =
    some (record m { bloom = add_keys m.forward f; rebuilds = (m.rebuilds + 1) % 2 ^ 64 })

-- `none` where `reset` throws.
unfoldable pub rebuild_bloom_to : Rate → ℕ → IdMap → Option IdMap
rebuild_bloom_to rate new_capacity m = rebuilt m (reset rate new_capacity m.bloom)

abbrev pub drop_reverse : Option ℕ → List (ℕ × ℕ) → List (ℕ × ℕ)
drop_reverse none reverse = reverse
drop_reverse (some i) reverse = erase i reverse

-- The maps and the filter of `record_update_mapping`, before a rebuild.
unfoldable pub mapped : ℕ → ℕ → IdMap → IdMap
mapped r new_i m = record m {
  forward = assign r new_i m.forward;
  reverse = assign new_i r (drop_reverse (lookup r m.forward) m.reverse);
  bloom = add r m.bloom;
}

-- `fill_ratio` of a filter without capacity is 0.
abbrev pub is_full : Rate → Bloom → Bool
is_full rate f = if f.capacity == 0 then false else rate.full f.inserts f.capacity

unfoldable pub record_update_mapping : Rate → ℕ → ℕ → IdMap → Option IdMap
record_update_mapping rate r new_i m =
    let next = mapped r new_i m in
    if is_full rate next.bloom
    then rebuild_bloom_to rate (next.bloom.capacity * 2 % 2 ^ 64) next
    else some next

unfoldable pub forget_update_mapping : ℕ → IdMap → IdMap
forget_update_mapping r m = record m {
  forward = erase r m.forward;
  reverse = drop_reverse (lookup r m.forward) m.reverse;
}

-- The id handed out, and the counter moved on.
unfoldable pub allocate_update_id : IdMap → ℕ × IdMap
allocate_update_id m = (m.next_update, record m { next_update = (m.next_update + 1) % 2 ^ 64 })

-- The exchange loop ends with the first that succeeds, since nobody else moves the counter here.
unfoldable pub observe_update_id : ℕ → IdMap → IdMap
observe_update_id i m =
    if leb m.next_update i then record m { next_update = (i + 1) % 2 ^ 64 } else m
