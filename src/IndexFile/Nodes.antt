-- ===== src/IndexFile/Nodes.antt =====
-- The nodes that were written to a checkpoint file are read back.
use mathlib.Core.List.{append_assoc}
use aster_vec.Base.{
  ℕ, ◌*◌, ◌/◌, ◌^◌, ◌<◌, ◌≤◌, ◌≡◌, refl, ap, ◌∙◌, true, false, List, [], ◌++◌, map, length,
  length-append, ltb, le→ltb, ◌==◌, ==_refl, All, arith,
}
use aster_vec.Base.Bytes.{Bytes, le_bytes, length-le_bytes}
use aster_vec.Base.Status.{ok}
use aster_vec.Bloom.{Rate}
use aster_vec.IndexFile.{Points, Paged, Node}
use aster_vec.IndexFile.Stream.{read_value, read_many, read_value-le_bytes, read_value-front}
use aster_vec.IndexFile.Save.{write_each, write_layer, write_node}
use aster_vec.IndexFile.Load.{emplace_all, read_bounded, read_node}
use aster_vec.IndexFile.Blocks.{
  Reads, FitsLayer, map_same, All-map, each_of, read_many-write_each, length-write_each,
  read_bounded-write_each, read_layers,
}

module _ {P S : Type 0} (points : Points P) (paged : Paged S) (rate : Rate) (dim : ℕ) where
  -- A node whose parts fit their sizes in the file, and whose vector has the dimension of the index.
  pub record FitsNode (node : ℕ × Node P) : Type 0 where
    pub id : node.0 < 256 ^ 8
    pub floats : All (λ w. w < 256 ^ 4) (points.floats node.1.point)
    pub size : length (points.floats node.1.point) ≡ dim
    pub dimension : dim < 256 ^ 8
    pub layers : All FitsLayer node.1.neighbors
    pub count : length node.1.neighbors < 256 ^ 8

  -- What a load makes of a node that was saved.
  abbrev pub reloaded : ℕ × Node P → ℕ × Node P
  reloaded (id, node) = (
    id,
    record {
      id = id;
      point = points.load (points.floats node.point);
      neighbors = emplace_all [] node.neighbors;
    },
  )

  read_floats :
      (floats : List ℕ) (rest : Bytes)
      → All (λ w. w < 256 ^ 4) floats
      → read_many (length floats) (read_value 4) (write_each (le_bytes 4) floats ++ rest)
        ≡ ok (floats, rest)
  read_floats floats rest h =
      read_many-write_each (read_value 4) (le_bytes 4) (λ x. x) floats rest
        (All-map (λ w. w < 256 ^ 4) (Reads (read_value 4) (le_bytes 4) (λ x. x))
          (λ w hw rest. read_value-le_bytes 4 w rest hw) floats h)
      ∙ ap (λ xs. ok (xs, rest)) (map_same floats)

  floats_there :
      (floats : List ℕ) (rest : Bytes)
      → ltb (length (write_each (le_bytes 4) floats ++ rest)) (length floats * 4) ≡ false
  floats_there floats rest =
      le→ltb (length (write_each (le_bytes 4) floats ++ rest)) (length floats * 4) (
        omega (
          arith,
          length-append (write_each (le_bytes 4) floats) rest,
          length-write_each (read_value 4) (le_bytes 4) (λ x. x) floats 4
              (each_of (λ w. 4 ≤ length (le_bytes 4 w)) (λ w. omega (arith, length-le_bytes 4 w))
                floats),
        ))

  node-Reads :
      (node : ℕ × Node P)
      → FitsNode node
      → Reads (read_node points paged rate dim) (write_node points paged) reloaded node
  unfolding read_node write_node
  node-Reads (id, node) fits rest =
      rw
        (
          read_value-front 8 id (sized node) rest fits.id,
          read_value-front 8 (length (points.floats node.point)) (vector node) rest count_fits,
          same_size,
          append_assoc (write_each (le_bytes 4) (points.floats node.point)) (layered node) rest,
          floats_there (points.floats node.point) (layered node ++ rest),
          read_floats (points.floats node.point) (layered node ++ rest) fits.floats,
          read_value-front 8 (length node.neighbors) (write_each write_layer node.neighbors) rest
              fits.count,
          read_layers node.neighbors rest fits.layers,
        )
        refl
    where
      layered : Node P → Bytes
      layered node = le_bytes 8 (length node.neighbors) ++ write_each write_layer node.neighbors

      vector : Node P → Bytes
      vector node = write_each (le_bytes 4) (points.floats node.point) ++ layered node

      sized : Node P → Bytes
      sized node = le_bytes 8 (length (points.floats node.point)) ++ vector node

      count_fits : length (points.floats node.point) < 256 ^ 8
      count_fits = omega (arith, fits.size, fits.dimension)

      same_size : (length (points.floats node.point) == dim) ≡ true
      same_size = ap (λ (n : ℕ). n == dim) fits.size ∙ ==_refl dim

  node_size : (node : ℕ × Node P) → 24 ≤ length (write_node points paged node)
  unfolding write_node
  node_size (id, node) = omega (
    arith,
    length-append (le_bytes 8 id) sized,
    length-append (le_bytes 8 (length floats)) vector,
    length-append (write_each (le_bytes 4) floats) layered,
    length-append (le_bytes 8 (length node.neighbors)) (write_each write_layer node.neighbors),
    length-le_bytes 8 id,
    length-le_bytes 8 (length floats),
    length-le_bytes 8 (length node.neighbors),
  )
    where
      floats : List ℕ
      floats = points.floats node.point

      layered : Bytes
      layered = le_bytes 8 (length node.neighbors) ++ write_each write_layer node.neighbors

      vector : Bytes
      vector = write_each (le_bytes 4) floats ++ layered

      sized : Bytes
      sized = le_bytes 8 (length floats) ++ vector

  -- All nodes, behind their count.
  pub read_nodes :
      (nodes : List (ℕ × Node P)) (rest : Bytes)
      → All FitsNode nodes
      → read_bounded 24
          (length nodes)
          (read_node points paged rate dim)
          (write_each (write_node points paged) nodes ++ rest)
        ≡ ok (map reloaded nodes, rest)
  read_nodes nodes rest h =
      read_bounded-write_each (read_node points paged rate dim) (write_node points paged) reloaded
        24 nodes rest
        (All-map FitsNode
          (Reads (read_node points paged rate dim) (write_node points paged) reloaded) node-Reads
          nodes h)
        (le→ltb (length (write_each (write_node points paged) nodes ++ rest) / 24) (length nodes) (
          omega (
            arith,
            length-append (write_each (write_node points paged) nodes) rest,
            length-write_each (read_node points paged rate dim) (write_node points paged) reloaded
                nodes 24 (each_of (λ n. 24 ≤ length (write_node points paged n)) node_size nodes),
          )))
