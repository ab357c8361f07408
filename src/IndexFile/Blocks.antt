-- ===== src/IndexFile/Blocks.antt =====
-- Lists and nodes that were written to a checkpoint file are read back.
use mathlib.Core.List.{append_assoc}
use native.Mathlib.Nat.{mul-suc}
use aster_vec.Base.{
  ℕ, ◌*◌, ◌/◌, ◌^◌, ◌<◌, ◌≤◌, ◌≡◌, refl, ap, ◌∙◌, false, List, [], ◌∷◌, ◌++◌, map, length,
  length-append, ltb, le→ltb, All, arith,
}
use aster_vec.Base.Bytes.{Bytes, le_bytes, length-le_bytes}
use aster_vec.Base.Status.{ok}
use aster_vec.IndexFile.Stream.{
  Reader, read_value, read_many, read_value-le_bytes, read_value-front,
}
use aster_vec.IndexFile.Save.{write_each, write_id, write_layer, write_entry}
use aster_vec.IndexFile.Load.{read_bounded, read_entry, read_layer}

-- What is written for `x` is read as `y`, whatever follows.
abbrev pub Reads : {A B : Type 0} → Reader B → (A → Bytes) → (A → B) → A → Type 0
Reads m write back x = (rest : Bytes) → m (write x ++ rest) ≡ ok (back x, rest)

module _ {A B : Type 0} (m : Reader B) (write : A → Bytes) (back : A → B) where
  pub read_many-write_each :
      (xs : List A) (rest : Bytes)
      → All (Reads m write back) xs
      → read_many (length xs) m (write_each write xs ++ rest) ≡ ok (map back xs, rest)
  unfolding read_many write_each
  read_many-write_each [] rest h = refl
  read_many-write_each (x ∷ xs) rest h =
      rw
        (
          append_assoc (write x) (write_each write xs) rest,
          h.0 (write_each write xs ++ rest),
          read_many-write_each xs rest h.1,
        )
        refl

  pub length-write_each :
      (xs : List A) (size : ℕ)
      → All (λ x. size ≤ length (write x)) xs
      → size * length xs ≤ length (write_each write xs)
  unfolding write_each
  length-write_each [] size h = omega arith
  length-write_each (x ∷ xs) size h = omega (
    arith,
    h.0,
    length-write_each xs size h.1,
    length-append (write x) (write_each write xs),
    mul-suc size (length xs),
  )

  -- The bound on the count holds for a list that was written.
  pub read_bounded-write_each :
      (size : ℕ) (xs : List A) (rest : Bytes)
      → All (Reads m write back) xs
      → ltb (length (write_each write xs ++ rest) / size) (length xs) ≡ false
      → read_bounded size (length xs) m (write_each write xs ++ rest) ≡ ok (map back xs, rest)
  read_bounded-write_each size xs rest h room = rw (room, read_many-write_each xs rest h) refl

pub map_same : {A : Type 0} (xs : List A) → map (λ x. x) xs ≡ xs
map_same [] = refl
map_same (x ∷ xs) = ap (λ t. x ∷ t) (map_same xs)

pub each_of : {A : Type 0} (Q : A → Type 0) → ((x : A) → Q x) → (xs : List A) → All Q xs
each_of Q all [] = tt
each_of Q all (x ∷ xs) = (all x, each_of Q all xs)

pub All-map :
    {A : Type 0} (Q R : A → Type 0) → ((x : A) → Q x → R x) → (xs : List A) → All Q xs → All R xs
All-map Q R step [] h = tt
All-map Q R step (x ∷ xs) h = (step x h.0, All-map Q R step xs h.1)

abbrev pub FitsId : ℕ → Type 0
FitsId id = id < 256 ^ 8

abbrev pub FitsIds : List ℕ → Type 0
FitsIds ids = All FitsId ids × (length ids < 256 ^ 8)

id-Reads : (id : ℕ) → FitsId id → Reads (read_value 8) write_id (λ x. x) id
id-Reads id h rest = read_value-le_bytes 8 id rest h

-- Ids behind their count.
pub read_ids :
    (ids : List ℕ) (rest : Bytes)
    → All FitsId ids
    → read_bounded 8 (length ids) (read_value 8) (write_each write_id ids ++ rest) ≡ ok (ids, rest)
read_ids ids rest h =
    read_bounded-write_each (read_value 8) write_id (λ x. x) 8 ids rest
      (All-map FitsId (Reads (read_value 8) write_id (λ x. x)) id-Reads ids h)
      (le→ltb (length (write_each write_id ids ++ rest) / 8) (length ids) (
        omega (
          arith,
          length-append (write_each write_id ids) rest,
          length-write_each (read_value 8) write_id (λ x. x) ids 8
              (each_of (λ x. 8 ≤ length (write_id x)) (λ x. omega (arith, length-le_bytes 8 x))
                ids),
        )))
    ∙ ap (λ xs. ok (xs, rest)) (map_same ids)

unfoldable pub FitsLayer : ℕ × List ℕ → Type 0
FitsLayer (layer, neighbors) = (layer < 256 ^ 4) × FitsIds neighbors

layer-Reads : (l : ℕ × List ℕ) → FitsLayer l → Reads read_layer write_layer (λ x. x) l
unfolding read_layer write_layer FitsLayer
layer-Reads (layer, neighbors) (fits, (ids, count)) rest =
    rw
      (
        read_value-front 4 layer (le_bytes 8 (length neighbors) ++ write_each write_id neighbors)
            rest fits,
        read_value-front 8 (length neighbors) (write_each write_id neighbors) rest count,
        read_ids neighbors rest ids,
      )
      refl

layer_size : (l : ℕ × List ℕ) → 12 ≤ length (write_layer l)
unfolding write_layer
layer_size (layer, neighbors) = omega (
  arith,
  length-append (le_bytes 4 layer) (le_bytes 8 (length neighbors) ++ write_each write_id neighbors),
  length-append (le_bytes 8 (length neighbors)) (write_each write_id neighbors),
  length-le_bytes 4 layer,
  length-le_bytes 8 (length neighbors),
)

pub read_layers :
    (layers : List (ℕ × List ℕ)) (rest : Bytes)
    → All FitsLayer layers
    → read_bounded 12 (length layers) read_layer (write_each write_layer layers ++ rest)
      ≡ ok (layers, rest)
read_layers layers rest h =
    read_bounded-write_each read_layer write_layer (λ x. x) 12 layers rest
      (All-map FitsLayer (Reads read_layer write_layer (λ x. x)) layer-Reads layers h)
      (le→ltb (length (write_each write_layer layers ++ rest) / 12) (length layers) (
        omega (
          arith,
          length-append (write_each write_layer layers) rest,
          length-write_each read_layer write_layer (λ x. x) layers 12
              (each_of (λ l. 12 ≤ length (write_layer l)) layer_size layers),
        )))
    ∙ ap (λ xs. ok (xs, rest)) (map_same layers)

entry-Reads : (e : ℕ × ℕ) → FitsId e.0 × FitsId e.1 → Reads read_entry write_entry (λ x. x) e
unfolding read_entry
entry-Reads (r, i) (hr, hi) rest =
    rw (read_value-front 8 r (le_bytes 8 i) rest hr, read_value-le_bytes 8 i rest hi) refl

-- The entries of the update map.
pub read_entries :
    (entries : List (ℕ × ℕ)) (rest : Bytes)
    → All (λ e. FitsId e.0 × FitsId e.1) entries
    → read_bounded 16 (length entries) read_entry (write_each write_entry entries ++ rest)
      ≡ ok (entries, rest)
read_entries entries rest h =
    read_bounded-write_each read_entry write_entry (λ x. x) 16 entries rest
      (All-map (λ e. FitsId e.0 × FitsId e.1) (Reads read_entry write_entry (λ x. x)) entry-Reads
        entries h)
      (le→ltb (length (write_each write_entry entries ++ rest) / 16) (length entries) (
        omega (
          arith,
          length-append (write_each write_entry entries) rest,
          length-write_each read_entry write_entry (λ x. x) entries 16
              (each_of (λ e. 16 ≤ length (write_entry e)) entry_size entries),
        )))
    ∙ ap (λ xs. ok (xs, rest)) (map_same entries)
  where
    entry_size : (e : ℕ × ℕ) → 16 ≤ length (write_entry e)
    entry_size (r, i) = omega (
      arith,
      length-append (le_bytes 8 r) (le_bytes 8 i),
      length-le_bytes 8 r,
      length-le_bytes 8 i,
    )
