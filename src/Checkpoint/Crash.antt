-- ===== src/Checkpoint/Crash.antt =====
-- A crash in `writeMetadataFile` of src/astervec_db.cc, and what `Open` finds behind it.
use mathlib.Core.Path.{subst}
use aster_vec.Base.{
  ◌≡◌, refl, sym, ap, ◌∙◌, Bool, true, false, ◌⊎◌, inl, inr, [], Option, none, some, if◌then◌else◌,
  All, not, ◌&&◌, Bool-cases, if_true, if_false,
}
use aster_vec.Base.Bytes.{Bytes}
use aster_vec.Base.Status.{Result, ok, err, io_error, err_absurd, Code}
use aster_vec.Bloom.{Rate}
use aster_vec.IndexFile.{Index, Points, Paged}
use aster_vec.Checkpoint.{
  Files, MetaIo, Run, passing, failed, install_tmp, keep_previous, with_written,
  write_metadata_file, load_index, open_previous, open_checkpoint, open_main, main_loaded,
  previous_loaded, is_there,
}

module _ {P S : Type 0} (points : Points P) (paged : Paged S) (rate : Rate) (removes : Bool)
    (base : Index P S) where
  abbrev pub LoadsAs : Bytes → Index P S → Type 0
  LoadsAs bytes index = load_index points paged rate removes base bytes ≡ ok index

  abbrev pub opened : Files → Result (Index P S)
  opened f = (open_checkpoint points paged rate removes base f).0

  opened_meta :
      (f : Files) (bytes : Bytes) (a : Index P S)
      → f.meta ≡ some bytes
      → LoadsAs bytes a
      → opened f ≡ ok a
  unfolding open_checkpoint
  opened_meta f bytes a e l =
      ap (λ m. (open_main points paged rate removes base f m).0) e
      ∙ ap (λ r. (main_loaded points paged rate removes base f r).0) l

  opened_prev :
      (f : Files) (bytes : Bytes) (a : Index P S)
      → f.meta ≡ none
      → f.prev ≡ some bytes
      → LoadsAs bytes a
      → opened f ≡ ok a
  unfolding open_checkpoint open_previous
  opened_prev f bytes a e p l =
      ap (λ m. (open_main points paged rate removes base f m).0) e
      ∙ ap (λ o. (open_previous points paged rate removes base f false (ok base) o).0) p
      ∙ ap (λ r. (previous_loaded points paged rate removes base f false r).0) l

  -- From these files `Open` has the checkpoint `a`, without removing one.
  abbrev pub Holds : Files → Index P S → Type 0
  Holds f a =
      ((bytes : Bytes) × (f.meta ≡ some bytes) × LoadsAs bytes a)
      ⊎ (((f.meta ≡ none) × ((bytes : Bytes) × (f.prev ≡ some bytes) × LoadsAs bytes a))
          ⊎ ((f.meta ≡ none) × (f.prev ≡ none) × (a ≡ base)))

  Holds-opened : (f : Files) (a : Index P S) → Holds f a → opened f ≡ ok a
  unfolding open_checkpoint open_previous
  Holds-opened f a (inl (m, p, q)) = opened_meta f m a p q
  Holds-opened f a (inr (inl (p, (m, p', q)))) = opened_prev f m a p p' q
  Holds-opened f a (inr (inr (p, p', e))) =
      ap (λ m. (open_main points paged rate removes base f m).0) p
      ∙ ap (λ o. (open_previous points paged rate removes base f false (ok base) o).0) p'
      ∙ ap ok (sym e)

  -- Opening gave `a` and left files from which it is opened again; no damaged file stands in front
  -- of it, where such a file can be removed.
  abbrev pub HoldsOpened : Result (Index P S) × Files → Type 0
  HoldsOpened (ok a, f) = (removes ≡ true → Holds f a) × (opened f ≡ ok a)
  HoldsOpened (err c, f) = Unit {0}

  Holds-HoldsOpened : (f : Files) (a : Index P S) → Holds f a → HoldsOpened (ok a, f)
  Holds-HoldsOpened f a h = (λ _. h, Holds-opened f a h)

  alone_lem :
      (f : Files) (bytes : Bytes) (r : Result (Index P S))
      → f.meta ≡ none
      → f.prev ≡ some bytes
      → load_index points paged rate removes base bytes ≡ r
      → HoldsOpened (previous_loaded points paged rate removes base f false r)
  alone_lem f bytes (ok a) e p l = Holds-HoldsOpened f a (inr (inl (e, (bytes, p, l))))
  alone_lem f bytes (err c) e p l = tt

  -- `.prev` behind a damaged file.
  opened_behind :
      (f : Files) (main bytes : Bytes) (c : Code) (a : Index P S)
      → f.meta ≡ some main
      → load_index points paged rate removes base main ≡ err c
      → f.prev ≡ some bytes
      → LoadsAs bytes a
      → opened f ≡ ok a
  unfolding open_checkpoint open_previous
  opened_behind f main bytes c a e bad p l =
      ap (λ m. (open_main points paged rate removes base f m).0) e
      ∙ ap (λ r. (main_loaded points paged rate removes base f r).0) bad
      ∙ ap (λ o. (open_previous points paged rate removes base f true (err c) o).0) p
      ∙ ap (λ r. (previous_loaded points paged rate removes base f true r).0) l

  damaged_lem :
      (f : Files) (main bytes : Bytes) (c : Code) (r : Result (Index P S))
      → f.meta ≡ some main
      → load_index points paged rate removes base main ≡ err c
      → f.prev ≡ some bytes
      → load_index points paged rate removes base bytes ≡ r
      → HoldsOpened (previous_loaded points paged rate removes base f true r)
  damaged_lem f main bytes c (err c') e bad p l = tt
  damaged_lem f main bytes c (ok a) e bad p l =
      let gone : Files = record f { meta = none } in
      elim (Bool-cases removes) [
        | inl same ↦
            subst (λ g. HoldsOpened (ok a, g)) (sym (if_true gone f same))
              (Holds-HoldsOpened gone a (inr (inl (refl, (bytes, p, l)))))
        | inr other ↦
            subst (λ g. HoldsOpened (ok a, g)) (sym (if_false gone f other))
              (λ same. absurd (cc (sym same ∙ other)), opened_behind f main bytes c a e bad p l)
      ]

  -- Where `Open` loads a checkpoint, it leaves files from which the same checkpoint is opened again.
  -- Where a damaged metadata file that `.prev` stood in for can be removed, that checkpoint is the
  -- one in the metadata file, or the one in `.prev` without a metadata file, or that of a new store,
  -- so that the next checkpoint cannot keep a damaged file in place of a sound one.
  pub open_checkpoint-Holds :
      (f : Files) → HoldsOpened (open_checkpoint points paged rate removes base f)
  unfolding open_checkpoint open_previous
  open_checkpoint-Holds f = from_main f.meta refl
    where
      from_alone :
          (p : Option Bytes)
          → f.meta ≡ none
          → f.prev ≡ p
          → HoldsOpened (open_previous points paged rate removes base f false (ok base) p)
      from_alone none e p = Holds-HoldsOpened f base (inr (inr (e, p, refl)))
      from_alone (some bytes) e p = alone_lem f bytes _ e p refl

      from_damaged :
          (p : Option Bytes) (main : Bytes) (c : Code)
          → f.meta ≡ some main
          → load_index points paged rate removes base main ≡ err c
          → f.prev ≡ p
          → HoldsOpened (open_previous points paged rate removes base f true (err c) p)
      from_damaged none main c e bad p = tt
      from_damaged (some bytes) main c e bad p = damaged_lem f main bytes c _ e bad p refl

      from_loaded :
          (bytes : Bytes) (r : Result (Index P S))
          → f.meta ≡ some bytes
          → load_index points paged rate removes base bytes ≡ r
          → HoldsOpened (main_loaded points paged rate removes base f r)
      from_loaded bytes (ok a) e l = Holds-HoldsOpened f a (inl (bytes, e, l))
      from_loaded bytes (err c) e l = from_damaged f.prev bytes c e l refl

      from_main :
          (m : Option Bytes)
          → f.meta ≡ m
          → HoldsOpened (open_main points paged rate removes base f m)
      from_main none e = from_alone f.prev e refl
      from_main (some bytes) e = from_loaded bytes _ e refl

  module _ (a b : Index P S) where
    -- `Open` gives one of the two checkpoints.
    abbrev pub Opens : Files → Type 0
    Opens f = (opened f ≡ ok a) ⊎ (opened f ≡ ok b)

    -- In each state on the way and at the end; the new one where the call succeeds.
    abbrev pub IsSafe : Run → Type 0
    IsSafe r = All Opens r.passed × Opens r.files × (r.status ≡ ok tt → Holds r.files b)

    failed-IsSafe : (f : Files) → opened f ≡ ok a → IsSafe (failed f)
    failed-IsSafe f old = (tt, inl old, λ e. absurd (err_absurd e))

    install_tmp-IsSafe :
        (io : MetaIo) (f : Files) (bytes : Bytes)
        → f.tmp ≡ some bytes
        → LoadsAs bytes b
        → opened f ≡ ok a
        → IsSafe (install_tmp io f)
    unfolding install_tmp
    install_tmp-IsSafe io f bytes e l old =
        let new : Files = record { meta = f.tmp; prev = f.prev; tmp = none } in
        elim io.renames
          as (λ c. IsSafe (
            if c
            then (record {
              status = if io.syncs_dir then ok tt else err io_error;
              passed = [];
              files = new;
            })
            else failed f)) [
              | true ↦ (tt, inr (opened_meta new bytes b e l), λ _. inl (bytes, e, l))
              | false ↦ failed-IsSafe f old
            ]

    passing-IsSafe : (f : Files) (r : Run) → opened f ≡ ok a → IsSafe r → IsSafe (passing f r)
    passing-IsSafe f r old (all, last, new) = ((inl old, all), last, new)

    keep_previous-IsSafe :
        (io : MetaIo) (f : Files) (meta : Option Bytes) (bytes : Bytes)
        → f.meta ≡ meta
        → f.tmp ≡ some bytes
        → LoadsAs bytes b
        → Holds f a
        → IsSafe (keep_previous io f meta)
    unfolding keep_previous
    keep_previous-IsSafe io f none bytes em e l h =
        install_tmp-IsSafe io f bytes e l (Holds-opened f a h)
    keep_previous-IsSafe io f (some current) bytes em e l h =
        let removed : Files = record f { prev = if io.removes then none else f.prev } in
        let linked : Files = record f { prev = some current } in
        let kept_linked = opened_meta linked current a em (current_loads h) in
        let kept_removed = opened_meta removed current a em (current_loads h) in
        passing-IsSafe removed _ kept_removed
          (elim (io.links && not (is_there removed.prev))
            as (λ c.
              IsSafe (if c then passing linked (install_tmp io linked) else failed removed)) [
                | true ↦
                    passing-IsSafe linked _ kept_linked
                      (install_tmp-IsSafe io linked bytes e l kept_linked)
                | false ↦ failed-IsSafe removed kept_removed
              ])
      where
        current_loads : Holds f a → LoadsAs current a
        current_loads (inl (m, p, q)) = cc
        current_loads (inr (inl (p, (m, p', q)))) = cc
        current_loads (inr (inr (p, p', e))) = cc

    with_written-IsSafe :
        (io : MetaIo) (f : Files) (new : Result Bytes)
        → ((bytes : Bytes) → new ≡ ok bytes → LoadsAs bytes b)
        → Holds f a
        → IsSafe (with_written io f new)
    with_written-IsSafe io f (err c) l h =
        let broken : Files = record f { tmp = some io.partial } in
        (tt, inl (Holds-opened broken a h), λ e. absurd (err_absurd e))
    with_written-IsSafe io f (ok bytes) l h =
        let written : Files = record f { tmp = some bytes } in
        elim io.flushes
          as (λ c. IsSafe (
            if c
            then passing written
                (if io.syncs then keep_previous io written f.meta else failed written)
            else failed (record f { tmp = some io.partial }))) [
              | true ↦
                  passing-IsSafe written _ (Holds-opened written a h)
                    (elim io.syncs
                      as (λ c.
                        IsSafe (if c then keep_previous io written f.meta else failed written)) [
                          | true ↦
                              keep_previous-IsSafe io written f.meta bytes refl refl (l bytes refl)
                                h
                          | false ↦ failed-IsSafe written (Holds-opened written a h)
                        ])
              | false ↦
                  let broken : Files = record f { tmp = some io.partial } in
                  failed-IsSafe broken (Holds-opened broken a h)
            ]

    pub write_metadata_file-IsSafe :
        (io : MetaIo) (new : Result Bytes) (f : Files)
        → ((bytes : Bytes) → new ≡ ok bytes → LoadsAs bytes b)
        → Holds f a
        → IsSafe (write_metadata_file io new f)
    unfolding write_metadata_file
    write_metadata_file-IsSafe io new f l h =
        let begun : Files = record f { tmp = some [] } in
        elim io.opens
          as (λ c. IsSafe (if c then passing begun (with_written io begun new) else failed f)) [
            | true ↦
                passing-IsSafe begun _ (Holds-opened begun a h)
                  (with_written-IsSafe io begun new l h)
            | false ↦ failed-IsSafe f (Holds-opened f a h)
          ]
