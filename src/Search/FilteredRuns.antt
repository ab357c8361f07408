-- ===== src/Search/FilteredRuns.antt =====
-- What a run of the filtered `searchLayer` of src/astervec_index.cc returns when it ends.
use mathlib.Core.Logic.{⊎_elim}
use mathlib.Core.Path.{subst}
use mathlib.Core.List.{Memᴰ}
use mathlib.Core.List.Memᴰ
use aster_vec.Base.{
  ℕ, zero, suc, ◌+◌, ◌<◌, ◌≡◌, ◌≢◌, refl, sym, ap, ◌∙◌, Bool, true, false, ◌&&◌, ◌↔◌, ◌⊎◌, inl, inr,
  List, [], ◌∷◌, length, arith, leb, if◌then◌else◌, if_true, if_false, Bool-cases, leb→le,
}
use aster_vec.Search.{Hit, GraphIndex, Outcome, done, below_top, is_visited}
use aster_vec.Search.Filtered.{
  FilterSearch, disk_hit, expand_filtered, filtered_loop, start_filtered, drain,
}
use aster_vec.Search.Heaps.{Memᴰ-cons, Ordered, NotFarther, NotCloser}
use aster_vec.Search.Walk.{Reach, here, is_visited-cons}
use aster_vec.Search.Rounds.{targets, done_injective, not_done, is_visited_one}
use aster_vec.Search.FilteredWalk.{and_both}
use aster_vec.Search.FilteredFound.{Filtering, Expanded, IsMatched, matched, round}

mem-drain : (l out : List Hit) (g : Hit) → Memᴰ g (drain l out) ↔ (Memᴰ g l ⊎ Memᴰ g out)
unfolding drain
mem-drain [] out g = (inr, ⊎_elim (λ m. absurd (Memᴰ.not-nil m)) (λ m. m))
mem-drain (h ∷ l) out g =
    ground (arith, mem-drain l (h ∷ out) g, Memᴰ-cons g h l, Memᴰ-cons g h out)

length-drain : (l out : List Hit) → length (drain l out) ≡ length l + length out
unfolding drain
length-drain [] out = omega arith
length-drain (h ∷ l) out = omega (arith, length-drain l (h ∷ out))

-- Draining turns the order of a queue.
drain-Ordered :
    (R S : Hit → Hit → Type 0) (l out : List Hit)
    → ((a b : Hit) → R a b → S b a)
    → ((a b : Hit) → Memᴰ a l → Memᴰ b out → S a b)
    → Ordered R l
    → Ordered S out
    → Ordered S (drain l out)
unfolding drain
drain-Ordered R S [] out turn across o p = p
drain-Ordered R S (h ∷ l) out turn across o p =
    drain-Ordered R S l (h ∷ out) turn
      (λ a b m n.
        ⊎_elim (λ e. subst (S a) (sym e) (turn h a (o.0 a m))) (across a b (Memᴰ.tail m))
          ((Memᴰ-cons b h out).0 n))
      o.1 (λ b n. across h b (Memᴰ.head refl) n, p)

module _ (x : GraphIndex) (fits : ℕ → Bool) (k entry cap : ℕ) where
  -- The next round, or the end.
  loop_step :
      (fuel : ℕ) (s : FilterSearch) (r : FilterSearch × Bool) (q : List Hit)
      → s.candidates ≡ q
      → Filtering x fits k entry (Expanded x fits k entry s) s
      → ((s' : FilterSearch)
          → Filtering x fits k entry (Expanded x fits k entry s') s'
          → filtered_loop x fits k fuel cap s' ≡ done r
          → IsMatched x fits k entry r.1 r.0.results × Ordered NotCloser r.0.results)
      → filtered_loop x fits k (suc fuel) cap (record s { candidates = q }) ≡ done r
      → IsMatched x fits k entry r.1 r.0.results × Ordered NotCloser r.0.results
  unfolding filtered_loop
  loop_step fuel s r [] e w next_lem h =
      subst
        (λ (t : FilterSearch × Bool).
          IsMatched x fits k entry t.1 t.0.results × Ordered NotCloser t.0.results)
        (done_injective h)
        (
          matched x fits k entry s w false (λ whole few i v.
              ⊎_elim (λ m. absurd (Memᴰ.not-nil (subst (Memᴰ _) e m))) (λ done_. done_)
                (w.opens few i v)),
          w.heap,
        )
  loop_step fuel s r (c ∷ rest) e w next_lem h =
      let s' : FilterSearch = record s { candidates = rest } in
      let s'' = expand_filtered x fits k c.id s' in
      let next = filtered_loop x fits k fuel cap s'' in
      let at_cap : Outcome (FilterSearch × Bool) =
        if leb cap s.scanned then done (s', true) else next in
      let stop = leb k (length s.results) && below_top s.results c.distance in
      let family = λ (t : FilterSearch × Bool).
        IsMatched x fits k entry t.1 t.0.results × Ordered NotCloser t.0.results in
      elim (Bool-cases stop) [
        | inl yes_ ↦
            let enough = leb→le k (length s.results) (and_both _ _ yes_).0 in
            subst family (done_injective (sym (if_true (done (s', false)) at_cap yes_) ∙ h))
              (matched x fits k entry s w false (λ whole few. absurd (omega arith)), w.heap)
        | inr no_ ↦
            let h' = sym (if_false (done (s', false)) at_cap no_) ∙ h in
            elim (Bool-cases (leb cap s.scanned)) [
              | inl capped ↦
                  subst family (done_injective (sym (if_true (done (s', true)) next capped) ∙ h'))
                    (matched x fits k entry s w true (λ whole. absurd (cc whole)), w.heap)
              | inr more ↦
                  next_lem s'' (round x fits k entry s w c rest e)
                    (sym (if_false (done (s', true)) next more) ∙ h')
            ]
      ]

  pub loop_lem :
      (fuel : ℕ) (s : FilterSearch) (r : FilterSearch × Bool)
      → Filtering x fits k entry (Expanded x fits k entry s) s
      → filtered_loop x fits k fuel cap s ≡ done r
      → IsMatched x fits k entry r.1 r.0.results × Ordered NotCloser r.0.results
  loop_lem zero s r w h = unfold filtered_loop in absurd (not_done h)
  loop_lem (suc fuel) s r w h =
      loop_step fuel s r s.candidates refl w (λ s' w' h'. loop_lem fuel s' r w' h') h

  pub start-Filtering :
      (corrupt : Bool)
      → 0 < k
      → (let s = start_filtered x fits k entry corrupt in
          Filtering x fits k entry (Expanded x fits k entry s) s)
  unfolding start_filtered
  start-Filtering corrupt room = by_fit (fits entry) refl
    where
      first : is_visited entry (entry ∷ []) ≡ true
      first = (is_visited-cons entry entry []).1 (inl refl)

      only : (g : Hit) → Memᴰ g (disk_hit x fits k entry ∷ []) → is_visited g.id (entry ∷ []) ≡ true
      only g m =
          (is_visited-cons g.id entry []).1 (inl (ap (λ (t : Hit). t.id) (Memᴰ.eq_of_singleton m)))

      there :
          (i : ℕ)
          → is_visited i (entry ∷ []) ≡ true
          → Memᴰ (disk_hit x fits k i) (disk_hit x fits k entry ∷ [])
      there i v = Memᴰ.head (ap (disk_hit x fits k) (is_visited_one i entry v))

      by_fit :
          (b : Bool)
          → fits entry ≡ b
          → (let s : FilterSearch = record {
            visited = entry ∷ [];
            candidates = disk_hit x fits k entry ∷ [];
            results = if b then disk_hit x fits k entry ∷ [] else [];
            scanned = 0;
            corrupt = corrupt;
          } in
              Filtering x fits k entry (Expanded x fits k entry s) s)
      by_fit true fit = record {
        entered = first;
        reached = λ i v. subst (Reach (targets x zero) entry) (sym (is_visited_one i entry v)) here;
        exact = λ h m.
            let e = Memᴰ.eq_of_singleton m in e ∙ ap (λ (t : Hit). disk_hit x fits k t.id) (sym e);
        known = only;
        fitting = λ h m. ap (λ (t : Hit). fits t.id) (Memᴰ.eq_of_singleton m) ∙ fit;
        waits = only;
        short = omega arith;
        heap = (λ g m. absurd (Memᴰ.not-nil m), tt);
        apart = (λ g m. absurd (Memᴰ.not-nil m), tt);
        opens = λ few i v. inl (there i v);
        kept = λ few i v f. there i v;
      }
      by_fit false unfit = record {
        entered = first;
        reached = λ i v. subst (Reach (targets x zero) entry) (sym (is_visited_one i entry v)) here;
        exact = λ h m. absurd (Memᴰ.not-nil m);
        known = λ h m. absurd (Memᴰ.not-nil m);
        fitting = λ h m. absurd (Memᴰ.not-nil m);
        waits = only;
        short = omega arith;
        heap = tt;
        apart = tt;
        opens = λ few i v. inl (there i v);
        kept = λ few i v f. absurd (cc (ap fits (is_visited_one i entry v), unfit, f));
      }

  pub drained :
      (capped : Bool) (l : List Hit)
      → IsMatched x fits k entry capped l
      → Ordered NotCloser l
      → IsMatched x fits k entry capped (drain l []) × Ordered NotFarther (drain l [])
  drained capped l f o =
      let back = λ (h : Hit) (m : Memᴰ h (drain l [])).
        ⊎_elim {C = Memᴰ h l} (λ n. n) (λ n. absurd (Memᴰ.not-nil n)) ((mem-drain l [] h).0 m) in
      let size = length-drain l [] in
      (
        record {
          reached = λ h m. f.reached h (back h m);
          exact = λ h m. f.exact h (back h m);
          fitting = λ h m. f.fitting h (back h m);
          short = omega (arith, f.short, size);
          apart =
              drain-Ordered (λ h g. g.id ≢ h.id) (λ h g. g.id ≢ h.id) l [] (λ a b d e. d (sym e))
                (λ a b m n. absurd (Memᴰ.not-nil n)) f.apart tt;
          all = λ whole few i r fit.
              (mem-drain l [] (record { id = i; distance = x.disk i })).1
                (inl (f.all whole (omega (arith, few, size)) i r fit));
        },
        drain-Ordered NotCloser NotFarther l [] (λ a b d. d) (λ a b m n. absurd (Memᴰ.not-nil n)) o
            tt,
      )
