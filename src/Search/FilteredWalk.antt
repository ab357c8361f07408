-- ===== src/Search/FilteredWalk.antt =====
-- What the filtered `searchLayer` of src/astervec_index.cc finds.
use mathlib.Core.Logic.{⊎_elim}
use mathlib.Core.Path.{subst}
use mathlib.Core.List.{Memᴰ}
use aster_vec.Base.{
  ℕ, zero, ◌+◌, ◌≤◌, ◌<◌, ◌≡◌, ◌≢◌, refl, sym, ap, ◌∙◌, Bool, true, false, ◌&&◌, ◌||◌, ◌⊎◌, inl,
  inr, List, [], ◌∷◌, length, arith, ltb, if◌then◌else◌, if_true, if_false, Bool-cases,
}
use aster_vec.Search.{Hit, GraphIndex, closer, farther, push, trim, top_exceeds, is_visited}
use aster_vec.Search.Filtered.{FilterSearch, disk_hit, take_in, offer_filtered}
use aster_vec.Search.Heaps.{Ordered, NotCloser, mem-push}
use aster_vec.Search.Keep.{Apart, Grown, taken-Grown}
use aster_vec.Search.Walk.{Reach, is_visited-cons}
use aster_vec.Search.Rounds.{targets}

either_mem :
    (b : Bool) (above : Hit → Hit → Bool) (g h : Hit) (l : List Hit)
    → Memᴰ g (if b then push above h l else l)
    → (g ≡ h) ⊎ Memᴰ g l
either_mem true above g h l m = (mem-push above h l g).0 m
either_mem false above g h l m = inr m

mem_either :
    (b : Bool) (above : Hit → Hit → Bool) (g h : Hit) (l : List Hit)
    → Memᴰ g l
    → Memᴰ g (if b then push above h l else l)
mem_either true above g h l m = (mem-push above h l g).1 (inr m)
mem_either false above g h l m = m

pub and_both : (a b : Bool) → a && b ≡ true → (a ≡ true) × (b ≡ true)
and_both true b h = (refl, h)
and_both false b h = cc

module _ (x : GraphIndex) (fits : ℕ → Bool) (k entry : ℕ) where
  abbrev pub next_ids : ℕ → List ℕ
  next_ids = targets x zero

  abbrev pub at_disk : ℕ → Hit
  at_disk = disk_hit x fits k

  abbrev pub Seen : FilterSearch → ℕ → Type 0
  Seen s i = is_visited i s.visited ≡ true

  -- While there are fewer than `k` results, every visited node waits or is `Handled`, and every
  -- visited node that fits is a result.
  pub record IsFiltering (Handled : ℕ → Type 0) (s : FilterSearch) : Type 0 where
    pub entered : Seen s entry
    pub reached : (i : ℕ) → Seen s i → Reach next_ids entry i
    pub exact : (h : Hit) → Memᴰ h s.results → h ≡ at_disk h.id
    pub known : (h : Hit) → Memᴰ h s.results → Seen s h.id
    pub fitting : (h : Hit) → Memᴰ h s.results → fits h.id ≡ true
    pub waits : (h : Hit) → Memᴰ h s.candidates → Seen s h.id
    pub short : length s.results ≤ k
    pub heap : Ordered NotCloser s.results
    pub apart : Apart s.results
    pub opens :
        length s.results < k → (i : ℕ) → Seen s i → Memᴰ (at_disk i) s.candidates ⊎ Handled i
    pub kept :
        length s.results < k → (i : ℕ) → Seen s i → fits i ≡ true → Memᴰ (at_disk i) s.results

  module _ (Handled : ℕ → Type 0) where
    module _ (i : ℕ) (s : FilterSearch) (w : IsFiltering Handled s)
        (new : is_visited i s.visited ≡ false) (there : Reach next_ids entry i) where
      cons_cases : (j : ℕ) → is_visited j (i ∷ s.visited) ≡ true → (j ≡ i) ⊎ Seen s j
      cons_cases j = (is_visited-cons j i s.visited).0

      grows : (j : ℕ) → Seen s j → is_visited j (i ∷ s.visited) ≡ true
      grows j v = (is_visited-cons j i s.visited).1 (inr v)

      itself : (j : ℕ) → j ≡ i → is_visited j (i ∷ s.visited) ≡ true
      itself j e = (is_visited-cons j i s.visited).1 (inl e)

      fresh : (g : Hit) → Memᴰ g s.results → g.id ≢ i
      fresh g m e = cc (w.known g m, new)

      reaches : (j : ℕ) → is_visited j (i ∷ s.visited) ≡ true → Reach next_ids entry j
      reaches j v =
          ⊎_elim (λ e. subst (Reach next_ids entry) (sym e) there) (w.reached j) (cons_cases j v)

      abbrev near : Bool
      near = ltb (length s.results) k || top_exceeds s.results (x.disk i)

      near_if_few : length s.results < k → near ≡ true
      near_if_few few = ground arith

      abbrev ahead : List Hit
      ahead = if near then push closer (at_disk i) s.candidates else s.candidates

      waits_ahead : (h : Hit) → Memᴰ h ahead → is_visited h.id (i ∷ s.visited) ≡ true
      waits_ahead h m =
          ⊎_elim (λ e. itself h.id (ap (λ (t : Hit). t.id) e)) (λ n. grows h.id (w.waits h n))
            (either_mem near closer h (at_disk i) s.candidates m)

      opens_ahead :
          length s.results < k
          → (j : ℕ) → is_visited j (i ∷ s.visited) ≡ true
          → Memᴰ (at_disk j) ahead ⊎ Handled j
      opens_ahead few j v =
          ⊎_elim
            (λ e. inl (
              subst
                (λ b.
                  Memᴰ (at_disk j)
                    (if b then push closer (at_disk i) s.candidates else s.candidates))
                (sym (near_if_few few))
                ((mem-push closer (at_disk i) s.candidates (at_disk j)).1 (inl (ap at_disk e)))))
            (λ n.
              ⊎_elim (λ m. inl (mem_either near closer (at_disk j) (at_disk i) s.candidates m)) inr
                (w.opens few j n))
            (cons_cases j v)

      -- A node that does not fit, or is too far.
      passed_IsFiltering :
          fits i && near ≡ false
          → IsFiltering Handled
              (record s { visited = i ∷ s.visited; scanned = s.scanned + 1; candidates = ahead })
      passed_IsFiltering no_ = record {
        entered = grows entry w.entered;
        reached = reaches;
        exact = w.exact;
        known = λ h m. grows h.id (w.known h m);
        fitting = w.fitting;
        waits = waits_ahead;
        short = w.short;
        heap = w.heap;
        apart = w.apart;
        opens = opens_ahead;
        kept = λ few j v f.
            ⊎_elim (λ e. absurd (not_passed few (sym (ap fits e) ∙ f))) (λ n. w.kept few j n f)
              (cons_cases j v);
      }
        where
          not_passed : length s.results < k → fits i ≡ true → ⊥
          not_passed few f = cc (no_, f, near_if_few few)

      -- A node that fits and is near enough.
      taken_IsFiltering :
          fits i ≡ true
          → Grown k (at_disk i) s.results (trim k (push farther (at_disk i) s.results))
          → IsFiltering Handled (record s {
            visited = i ∷ s.visited;
            scanned = s.scanned + 1;
            candidates = ahead;
            results = trim k (push farther (at_disk i) s.results);
          })
      taken_IsFiltering fit g =
          let l = trim k (push farther (at_disk i) s.results) in
          record {
            entered = grows entry w.entered;
            reached = reaches;
            exact = λ h m.
                ⊎_elim (λ e. e ∙ ap (λ (t : Hit). at_disk t.id) (sym e)) (w.exact h) (g.from h m);
            known = λ h m.
                ⊎_elim (λ e. itself h.id (ap (λ (t : Hit). t.id) e)) (λ n. grows h.id (w.known h n))
                  (g.from h m);
            fitting =
                λ h m. ⊎_elim (λ e. ap (λ (t : Hit). fits t.id) e ∙ fit) (w.fitting h) (g.from h m);
            waits = waits_ahead;
            short = g.short;
            heap = g.heap;
            apart = g.apart fresh w.apart;
            opens = λ few. opens_ahead (omega (arith, g.longer));
            kept = λ few j v f.
                ⊎_elim
                  (λ e.
                    subst (λ t. Memᴰ (at_disk t) l) (sym e)
                      (⊎_elim (λ m. m) (λ full. absurd (omega (arith, full.0))) g.self))
                  (λ n.
                    ⊎_elim (λ m. m) (λ full. absurd (omega (arith, full.0)))
                      (g.stays (at_disk j) (w.kept (omega (arith, g.longer)) j n f)))
                  (cons_cases j v);
          }

      take_in-IsFiltering : IsFiltering Handled (take_in x fits k i s)
      unfolding take_in
      take_in-IsFiltering = elim (Bool-cases (fits i && near)) [
        | inl yes_ ↦
            let (fit, room) = and_both (fits i) near yes_ in
            subst
              (λ b. IsFiltering Handled (record s {
                visited = i ∷ s.visited;
                scanned = s.scanned + 1;
                candidates = ahead;
                results = if b then trim k (push farther (at_disk i) s.results) else s.results;
              }))
              (sym yes_)
              (taken_IsFiltering fit (taken-Grown k (at_disk i) s.results w.heap w.short room))
        | inr no_ ↦
            subst
              (λ b. IsFiltering Handled (record s {
                visited = i ∷ s.visited;
                scanned = s.scanned + 1;
                candidates = ahead;
                results = if b then trim k (push farther (at_disk i) s.results) else s.results;
              }))
              (sym no_) (passed_IsFiltering no_)
      ]

    pub offer_filtered-IsFiltering :
        (ids : List ℕ) (s : FilterSearch)
        → IsFiltering Handled s
        → ((j : ℕ) → Memᴰ j ids → Reach next_ids entry j)
        → IsFiltering Handled (offer_filtered x fits k ids s)
    unfolding offer_filtered
    offer_filtered-IsFiltering [] s w there = w
    offer_filtered-IsFiltering (i ∷ ids) s w there =
        offer_filtered-IsFiltering ids (if is_visited i s.visited then s else take_in x fits k i s)
          (elim (Bool-cases (is_visited i s.visited)) [
            | inl seen ↦ subst (IsFiltering Handled) (sym (if_true s (take_in x fits k i s) seen)) w
            | inr new ↦
                subst (IsFiltering Handled) (sym (if_false s (take_in x fits k i s) new))
                  (take_in-IsFiltering i s w new (there i (Memᴰ.head refl)))
          ])
          (λ j m. there j (Memᴰ.tail m))
