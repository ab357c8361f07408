-- ===== src/Search/FilteredFound.antt =====
-- The hits of the filtered `searchLayer` of src/astervec_index.cc when it returns, and that it does.
use mathlib.Core.Logic.{⊎_elim}
use mathlib.Core.Path.{subst}
use mathlib.Core.List.{Memᴰ}
use mathlib.Core.List.Memᴰ
use aster_vec.Base.{
  ℕ, zero, ◌≤◌, ◌<◌, ◌≡◌, refl, sym, ap, Bool, true, false, ◌⊎◌, inl, inr, List, [], ◌∷◌, none,
  some, length, if◌then◌else◌, if_true, if_false, Bool-cases,
}
use aster_vec.Search.{Hit, GraphIndex, is_visited, get_edges, filter_located}
use aster_vec.Search.Filtered.{FilterSearch, take_in, offer_filtered, expand_filtered}
use aster_vec.Search.Heaps.{Memᴰ-cons}
use aster_vec.Search.Keep.{Apart}
use aster_vec.Search.Walk.{Reach, here, step, is_visited-cons}
use aster_vec.Search.Rounds.{targets}
use aster_vec.Search.FilteredWalk.{at_disk, IsFiltering, offer_filtered-IsFiltering}

module _ (x : GraphIndex) (fits : ℕ → Bool) (k : ℕ) where
  offer_filtered-visited :
      (ids : List ℕ) (s : FilterSearch) (j : ℕ)
      → (is_visited j s.visited ≡ true) ⊎ Memᴰ j ids
      → is_visited j (offer_filtered x fits k ids s).visited ≡ true
  unfolding offer_filtered
  offer_filtered-visited [] s j there = ⊎_elim (λ v. v) (λ m. absurd (Memᴰ.not-nil m)) there
  offer_filtered-visited (i ∷ ids) s j there =
      offer_filtered-visited ids (if is_visited i s.visited then s else take_in x fits k i s) j (
        ⊎_elim (λ v. inl (at_first (inl v)))
          (λ m. ⊎_elim (λ e. inl (at_first (inr e))) inr (Memᴰ.cases_cons m)) there)
    where
      at_first :
          (is_visited j s.visited ≡ true) ⊎ (j ≡ i)
          → is_visited j (if is_visited i s.visited then s else take_in x fits k i s).visited ≡ true
      at_first h = elim (Bool-cases (is_visited i s.visited)) [
        | inl seen ↦
            rw (if_true s (take_in x fits k i s) seen)
              (⊎_elim (λ v. v) (λ e. subst (λ t. is_visited t s.visited ≡ true) (sym e) seen) h)
        | inr new ↦
            rw (if_false s (take_in x fits k i s) new)
              (unfold take_in in (is_visited-cons j i s.visited).1 (⊎_elim inr inl h))
      ]

  -- One round offers the neighbours of the node.
  pub expand_rule :
      (i : ℕ) (s : FilterSearch) (P : FilterSearch → Type 0)
      → ((corrupt : Bool)
          → P (offer_filtered x fits k (targets x zero i) (record s { corrupt = corrupt })))
      → P (expand_filtered x fits k i s)
  unfolding expand_filtered get_edges
  expand_rule i s P each =
      elim (x.edges i)
          as (λ o.
            ((corrupt : Bool)
              → P (
                  offer_filtered x fits k
                    (elim o as (λ _. List ℕ) [
                      | none ↦ []
                      | some ids ↦ filter_located x.has_location ids
                    ])
                    (record s { corrupt = corrupt })))
            → (let r = elim o as (λ _. List ℕ × Bool) [
              | none ↦ ([], true)
              | some ids ↦ (filter_located x.has_location ids, s.corrupt)
            ] in
                P (offer_filtered x fits k r.0 (record s { corrupt = r.1 })))) [
                  | none ↦ λ h. h true
                  | some ids ↦ λ h. h s.corrupt
                ]
        each

module _ (x : GraphIndex) (fits : ℕ → Bool) (k entry : ℕ) where
  abbrev pub Filtering : (ℕ → Type 0) → FilterSearch → Type 0
  Filtering = IsFiltering x fits k entry

  abbrev pub Expanded : FilterSearch → ℕ → Type 0
  Expanded s i = (j : ℕ) → Memᴰ j (targets x zero i) → is_visited j s.visited ≡ true

  -- The results of a search that has ended: each is reached, fits, stands once and has its own
  -- distance, and where there are fewer than `k` and the cap was not hit, they are all that fit.
  pub record IsMatched (capped : Bool) (l : List Hit) : Type 0 where
    pub reached : (h : Hit) → Memᴰ h l → Reach (targets x zero) entry h.id
    pub exact : (h : Hit) → Memᴰ h l → h.distance ≡ x.disk h.id
    pub fitting : (h : Hit) → Memᴰ h l → fits h.id ≡ true
    pub short : length l ≤ k
    pub apart : Apart l
    pub all :
        capped ≡ false
        → length l < k
        → (i : ℕ) → Reach (targets x zero) entry i
        → fits i ≡ true
        → Memᴰ (record { id = i; distance = x.disk i }) l

  module _ (P Q : ℕ → Type 0) (s : FilterSearch) (w : Filtering P s) where
    with_candidates :
        (candidates : List Hit) (corrupt : Bool)
        → ((h : Hit) → Memᴰ h candidates → Memᴰ h s.candidates)
        → (length s.results < k
            → (i : ℕ) → is_visited i s.visited ≡ true
            → Memᴰ (at_disk x fits k entry i) candidates ⊎ Q i)
        → Filtering Q (record s { candidates = candidates; corrupt = corrupt })
    with_candidates candidates corrupt fewer opens = record {
      entered = w.entered;
      reached = w.reached;
      exact = w.exact;
      known = w.known;
      fitting = w.fitting;
      waits = λ h m. w.waits h (fewer h m);
      short = w.short;
      heap = w.heap;
      apart = w.apart;
      opens = opens;
      kept = w.kept;
    }

  module _ (s : FilterSearch) (w : Filtering (Expanded s) s) where
    -- Where no node waits, what is reached is visited.
    reached_seen :
        ((i : ℕ) → is_visited i s.visited ≡ true → Expanded s i)
        → {i : ℕ} → Reach (targets x zero) entry i
        → is_visited i s.visited ≡ true
    reached_seen closed here = w.entered
    reached_seen closed (step {i} {j} r m) = closed i (reached_seen closed r) j m

    pub matched :
        (capped : Bool)
        → (capped ≡ false
            → length s.results < k
            → (i : ℕ) → is_visited i s.visited ≡ true
            → Expanded s i)
        → IsMatched capped s.results
    matched capped closed = record {
      reached = λ h m. w.reached h.id (w.known h m);
      exact = λ h m. ap (λ (t : Hit). t.distance) (w.exact h m);
      fitting = w.fitting;
      short = w.short;
      apart = w.apart;
      all = λ whole few i r f. w.kept few i (reached_seen (closed whole few) r) f;
    }

    module _ (c : Hit) (rest : List Hit) (e : s.candidates ≡ c ∷ rest) where
      abbrev IsPopped : ℕ → Type 0
      IsPopped i = (i ≡ c.id) ⊎ Expanded s i

      pop-Filtering :
          (corrupt : Bool) → Filtering IsPopped (record s { candidates = rest; corrupt = corrupt })
      pop-Filtering corrupt =
          with_candidates (Expanded s) IsPopped s w rest corrupt
            (λ h m. subst (Memᴰ h) (sym e) (Memᴰ.tail m))
            (λ few i v.
              ⊎_elim
                (λ q.
                  ⊎_elim (λ same. inr (inl (ap (λ (t : Hit). t.id) same))) inl
                    ((Memᴰ-cons (at_disk x fits k entry i) c rest).0
                      (subst (Memᴰ (at_disk x fits k entry i)) e q)))
                (λ old. inr (inr old)) (w.opens few i v))

      offered-Filtering :
          (corrupt : Bool)
          → (let next =
                offer_filtered x fits k
                  (targets x zero c.id)
                  (record s { candidates = rest; corrupt = corrupt }) in
              Filtering (Expanded next) next)
      offered-Filtering corrupt =
          let s' : FilterSearch = record s { candidates = rest; corrupt = corrupt } in
          let next = offer_filtered x fits k (targets x zero c.id) s' in
          let to_c = w.reached c.id (w.waits c (subst (Memᴰ c) (sym e) (Memᴰ.head refl))) in
          let w' =
            offer_filtered-IsFiltering x fits k entry IsPopped (targets x zero c.id) s'
              (pop-Filtering corrupt) (λ j m. step to_c m) in
          let seen = offer_filtered-visited x fits k (targets x zero c.id) s' in
          with_candidates IsPopped (Expanded next) next w' next.candidates next.corrupt (λ h m. m)
            (λ few i v.
              ⊎_elim inl
                (λ p. inr (λ j n.
                  ⊎_elim (λ same. seen j (inr (subst (λ t. Memᴰ j (targets x zero t)) same n)))
                    (λ old. seen j (inl (old j n))) p))
                (w'.opens few i v))

      pub round :
          let next = expand_filtered x fits k c.id (record s { candidates = rest }) in
          Filtering (Expanded next) next
      round =
          expand_rule x fits k c.id (record s { candidates = rest }) (λ t. Filtering (Expanded t) t)
            offered-Filtering
