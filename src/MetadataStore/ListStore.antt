-- ===== src/MetadataStore/ListStore.antt =====
-- A column family as a list of keys and values, the newest first: the interface can be filled.
use aster_vec.Base.{◌≡◌, refl, ap, sym, ◌∙◌, List, [], ◌∷◌, Option, none, some, if◌then◌else◌}
use aster_vec.Base.Bytes.{Bytes, same_bytes}
use aster_vec.Base.Status.{Result, ok, err, not_found}
use aster_vec.MetadataStore.Store.{Change, put, delete, Kv, after, IsStore}

abbrev pub Rows : Type 0
Rows = List (Bytes × Option Bytes)

abbrev pub found : Option Bytes → Result Bytes
found none = err not_found
found (some v) = ok v

unfoldable pub search_rows : Bytes → Rows → Result Bytes
search_rows k [] = err not_found
search_rows k ((j, v) ∷ rows) = if same_bytes j k then found v else search_rows k rows

unfoldable pub apply_changes : List Change → Rows → Rows
apply_changes [] rows = rows
apply_changes (put j v ∷ changes) rows = apply_changes changes ((j, some v) ∷ rows)
apply_changes (delete j ∷ changes) rows = apply_changes changes ((j, none) ∷ rows)

abbrev pub list_kv : Kv Rows
list_kv = record {
  get = search_rows;
  write = λ changes rows. (ok tt, apply_changes changes rows);
  accepts = λ change. ok tt;
  seek_back = λ k rows. none;
  iterator_status = λ rows. ok tt;
}

search-apply :
    (changes : List Change) (rows : Rows) (k : Bytes)
    → search_rows k (apply_changes changes rows) ≡ after changes k (search_rows k rows)
unfolding search_rows apply_changes after
search-apply [] rows k = refl
search-apply (put j v ∷ changes) rows k = search-apply changes ((j, some v) ∷ rows) k
search-apply (delete j ∷ changes) rows k = search-apply changes ((j, none) ∷ rows) k

pub list_kv-IsStore : IsStore list_kv
list_kv-IsStore = record {
  reads_writes =
      λ changes d d' k h. ap (search_rows k) (ap (λ p. p.1) (sym h)) ∙ search-apply changes d k;
}
