-- ===== src/IndexFile/Back.antt =====
-- What an index holds behind `DeserializeMetadata` of src/astervec_index.cc, read by lookups.
use aster_vec.Base.{
  ℕ, ◌≡◌, refl, ap, sym, ◌∙◌, List, [], ◌∷◌, map, Option, none, some, arith, length, max, ◌==◌,
  ==_iff, if◌then◌else◌, Bool-cases, inl, inr,
}
use mathlib.Core.Path.{subst}
use aster_vec.Base.Bytes.{Bytes}
use aster_vec.Base.Status.{ok}
use aster_vec.Base.Assoc.{lookup}
use aster_vec.Bloom.{Bloom, Rate}
use aster_vec.Bloom.Contains.{IsValid, reset-IsValid}
use aster_vec.IdMap.{
  IdMap, is_tombstoned, resolve_internal, resolve_real, member, is_direct_id, value_or, add_keys,
}
use aster_vec.IdMap.Invariant.{IsSound, resolve_internal_lem}
use aster_vec.IdMap.Updating.{IsRate, add_keys-IsValid, add_keys-known}
use aster_vec.IndexFile.{Points, Paged, Index, Node}
use aster_vec.IndexFile.Save.{write_pages, serialize_metadata}
use aster_vec.IndexFile.Load.{deserialize_metadata, rebuild_filter, filter_rebuilt}
use aster_vec.IndexFile.Nodes.{reloaded}
use aster_vec.IndexFile.RoundTrip.{CanSave, entries_of, restored, PagesBack}
use aster_vec.IndexFile.Restore.{deserialize_metadata-restored}
use aster_vec.IndexFile.Filled.{
  Agrees, emplaced_lem, lookup-assigned, inserted_lem, assign_all-forward, assign_all-reverse,
  assign_all-rest, lookup-swapped, Agrees-swapped, swapped,
}

module _ {P S : Type 0} (points : Points P) (paged : Paged S) (rate : Rate)
    (base ix : Index P S) where
  -- A node that is back under its key: its id, the vector that its floats give, and its neighbors
  -- on each layer.
  abbrev pub NodeBack : ℕ → Option (Node P) → Option (Node P) → Type 0
  NodeBack i none none = Unit {0}
  NodeBack i none (some n) = ⊥
  NodeBack i (some n) none = ⊥
  NodeBack i (some n) (some n') =
      (n'.id ≡ i)
      × (n'.point ≡ points.load (points.floats n.point))
      × ((layer : ℕ) → lookup layer n'.neighbors ≡ lookup layer n.neighbors)

  -- An index that holds what `ix` holds.
  pub record IsBack (index : Index P S) (pages : Option S) : Type 0 where
    pub nodes : (i : ℕ) → NodeBack i (lookup i ix.nodes) (lookup i index.nodes)
    pub marks : (t : ℕ) → is_tombstoned index.ids t ≡ is_tombstoned ix.ids t
    pub internal : (r : ℕ) → resolve_internal index.ids r ≡ resolve_internal ix.ids r
    pub real : (i : ℕ) → resolve_real index.ids i ≡ resolve_real ix.ids i
    pub sound : IsSound index.ids
    pub next_update : index.ids.next_update ≡ ix.ids.next_update
    pub pages_back : index.pages ≡ pages
    pub checkpoint_lsn : index.checkpoint_lsn ≡ ix.checkpoint_lsn
    pub checkpoint_live_count : index.checkpoint_live_count ≡ ix.checkpoint_live_count
    pub id_mode : index.id_mode ≡ ix.id_mode
    pub entry_point : index.entry_point ≡ ix.entry_point
    pub max_layer : index.max_layer ≡ ix.max_layer

  nodes_back :
      (nodes : List (ℕ × Node P)) (i : ℕ)
      → NodeBack i (lookup i nodes) (lookup i (map (reloaded points paged rate base.dim) nodes))
  unfolding lookup
  nodes_back [] i = tt
  nodes_back ((k, n) ∷ nodes) i = elim (Bool-cases (k == i)) [
    | inl same ↦ rw same ((==_iff k i).0 same, refl, emplaced_lem n.neighbors)
    | inr other ↦ rw other (nodes_back nodes i)
  ]

  -- The map that the filter is built for.
  abbrev entries : IdMap
  entries = entries_of points paged rate base ix

  forward_back :
      Agrees ix.ids.forward ix.ids.forward
      → (r : ℕ) → lookup r entries.forward ≡ lookup r ix.ids.forward
  forward_back distinct r =
      ap (lookup r) (assign_all-forward ix.ids.forward _)
      ∙ lookup-assigned ix.ids.forward ix.ids.forward r distinct (λ x h. (x, h))

  reverse_back :
      IsSound ix.ids
      → Agrees ix.ids.forward ix.ids.forward
      → (i : ℕ) → lookup i entries.reverse ≡ lookup i ix.ids.reverse
  reverse_back sound distinct i =
      ap (lookup i) (assign_all-reverse ix.ids.forward _)
      ∙ lookup-assigned ix.ids.reverse (swapped ix.ids.forward) i
          (Agrees-swapped ix.ids.forward ix.ids.forward ix.ids.reverse sound.there distinct)
          (λ r h. lookup-swapped ix.ids.forward r i (sound.back r i h))

  module _ (f : Bloom) (valid : IsValid f) (sound : IsSound ix.ids)
      (distinct : Agrees ix.ids.forward ix.ids.forward) where
    abbrev ids : IdMap
    ids = record entries { bloom = add_keys entries.forward f }

    next_back : entries.next_update ≡ ix.ids.next_update
    next_back = (assign_all-rest ix.ids.forward _).1

    ids-IsSound : IsSound ids
    ids-IsSound = record {
      filter = add_keys-IsValid entries.forward f valid;
      known = λ r i h. add_keys-known entries.forward f r i valid h;
      there = λ r i h.
          reverse_back sound distinct i ∙ sound.there r i (sym (forward_back distinct r) ∙ h);
      back = λ r i h.
          forward_back distinct r ∙ sound.back r i (sym (reverse_back sound distinct i) ∙ h);
      counter = omega (arith, next_back, sound.counter);
      update_ids = λ r i h.
          let range = sound.update_ids r i (sym (forward_back distinct r) ∙ h) in
          (range.0, omega (arith, range.1, next_back));
    }

    real_back : (i : ℕ) → resolve_real ids i ≡ resolve_real ix.ids i
    unfolding resolve_real
    real_back i =
        ap (λ o. if is_direct_id i then i else value_or i o) (reverse_back sound distinct i)

    restored-IsBack :
        (pages : Option S) → IsBack (restored points paged rate base ix ids pages) pages
    unfolding is_tombstoned
    restored-IsBack pages = record {
      nodes = λ i.
          subst (NodeBack i (lookup i ix.nodes))
            (sym (emplaced_lem (map (reloaded points paged rate base.dim) ix.nodes) i))
            (nodes_back ix.nodes i);
      marks = λ t.
          ap (member t) (assign_all-rest ix.ids.forward _).0 ∙ inserted_lem ix.ids.tombstones t;
      internal = λ r.
          resolve_internal_lem ids ids-IsSound r
          ∙ ap (value_or r) (forward_back distinct r)
          ∙ sym (resolve_internal_lem ix.ids sound r);
      real = real_back;
      sound = ids-IsSound;
      next_update = next_back;
      pages_back = refl;
      checkpoint_lsn = refl;
      checkpoint_live_count = refl;
      id_mode = refl;
      entry_point = refl;
      max_layer = refl;
    }

  -- A checkpoint file that was written is loaded into an index with the same options, where all
  -- parts fit their sizes in the file, the id map is sound and no point is mapped twice in it, the
  -- sizes of filters fit a word, and the vector storage reads back the block that it wrote. Then in
  -- what is loaded each key has the node that it had, under that key, with the vector that its
  -- floats give and the same neighbors on each layer; the same ids are tombstoned; every id resolves
  -- as before in both directions, in a sound map with a new filter; and the counter of update ids,
  -- the checkpoint's lsn and count, the point-id mode, the entry point and the highest layer are
  -- those that were written.
  pub deserialize_metadata-serialize_metadata :
      (file : Bytes) (pages : Option S)
      → CanSave points paged rate base ix
      → IsRate rate
      → IsSound ix.ids
      → Agrees ix.ids.forward ix.ids.forward
      → ((block : Bytes)
          → write_pages points paged ix ≡ ok block
          → PagesBack points paged rate base block pages)
      → serialize_metadata points paged ix ≡ ok file
      → (index : Index P S) × (deserialize_metadata points paged rate base file ≡ ok index)
        × IsBack index pages
  unfolding rebuild_filter
  deserialize_metadata-serialize_metadata file pages can fine sound distinct back h =
      let n = max (length entries.forward) 512 in
      let (f, made, valid, size) =
        reset-IsValid rate n entries.bloom fine.in_range (omega arith) (fine.fits n) in
      (
        restored points paged rate base ix (ids f valid sound distinct) pages,
        deserialize_metadata-restored points paged rate base ix file pages
            (ids f valid sound distinct) can back (ap (filter_rebuilt entries) made) h,
        restored-IsBack f valid sound distinct pages,
      )
