-- ===== src/Search/Keep.antt =====
-- What the queue of the nearest hits keeps, in `searchLayer` of src/astervec_index.cc.
use mathlib.Core.Logic.{⊎_elim}
use mathlib.Core.Path.{subst}
use mathlib.Core.List.{Memᴰ}
use mathlib.Core.List.Memᴰ
use aster_vec.Base.{
  ℕ, suc, ◌≤◌, ◌<◌, ◌≡◌, ◌≢◌, refl, sym, ap, Bool, true, false, ◌||◌, ◌⊎◌, inl, inr, List, [], ◌∷◌,
  length, arith, if◌then◌else◌, ltb, if_true, if_false, le→ltb, lt→ltb, ltb→lt, Bool-cases, ◌∙◌,
}
use aster_vec.Search.{Hit, farther, push, pop, trim, top_exceeds}
use aster_vec.Search.Heaps.{Memᴰ-cons, Ordered, NotCloser, length-push, mem-push, push-farther}

-- No id stands twice.
abbrev pub Apart : List Hit → Type 0
Apart = Ordered (λ h g. g.id ≢ h.id)

pub push-Apart :
    (above : Hit → Hit → Bool) (h : Hit) (l : List Hit)
    → ((g : Hit) → Memᴰ g l → g.id ≢ h.id)
    → Apart l
    → Apart (push above h l)
unfolding push
push-Apart above h [] new o = (λ g m. absurd (Memᴰ.not-nil m), tt)
push-Apart above h (k ∷ l) new o =
    elim (above h k) as (λ b. Apart (if b then h ∷ k ∷ l else k ∷ push above h l)) [
      | true ↦ (new, o)
      | false ↦ (
        λ g m.
            ⊎_elim (λ (p : g ≡ h) q. new k (Memᴰ.head refl) (sym q ∙ ap (λ (t : Hit). t.id) p))
              (o.0 g) ((mem-push above h l g).0 m),
        push-Apart above h l (λ g m. new g (Memᴰ.tail m)) o.1,
      )
    ]

mem-pop : (l : List Hit) (g : Hit) → Memᴰ g (pop l) → Memᴰ g l
unfolding pop
mem-pop [] g m = m
mem-pop (h ∷ l) g m = Memᴰ.tail m

pop-Ordered : (R : Hit → Hit → Type 0) (l : List Hit) → Ordered R l → Ordered R (pop l)
unfolding pop
pop-Ordered R [] o = tt
pop-Ordered R (h ∷ l) o = o.1

-- What is popped is no closer than what stays.
popped :
    (l : List Hit) (g : Hit)
    → Ordered NotCloser l
    → Memᴰ g l
    → Memᴰ g (pop l) ⊎ ((k : Hit) → Memᴰ k (pop l) → k.distance ≤ g.distance)
unfolding pop
popped [] g o m = inl m
popped (h ∷ l) g o m = elim ((Memᴰ-cons g h l).0 m) [
  | inl e ↦ inr (λ k mk. omega (arith, o.0 k mk, ap (λ (t : Hit). t.distance) e))
  | inr mg ↦ inl mg
]

length-pop : (l : List Hit) (n : ℕ) → length l ≡ suc n → length (pop l) ≡ n
unfolding pop
length-pop [] n h = absurd (omega arith)
length-pop (h ∷ l) n e = omega arith

module _ (ef : ℕ) where
  -- There is no room for a hit at distance `d`.
  abbrev pub Full : List Hit → ℕ → Type 0
  Full l d = (length l ≡ ef) × ((g : Hit) → Memᴰ g l → g.distance ≤ d)

  -- From `l` to `l'` with the new hit `h`.
  pub record Grown (h : Hit) (l l' : List Hit) : Type 0 where
    pub from : (g : Hit) → Memᴰ g l' → (g ≡ h) ⊎ Memᴰ g l
    pub stays : (g : Hit) → Memᴰ g l → Memᴰ g l' ⊎ Full l' g.distance
    pub full : (d : ℕ) → Full l d → Full l' d
    pub self : Memᴰ h l' ⊎ Full l' h.distance
    pub short : length l' ≤ ef
    pub longer : length l ≤ length l'
    pub heap : Ordered NotCloser l'
    pub apart : ((g : Hit) → Memᴰ g l → g.id ≢ h.id) → Apart l → Apart l'

  module _ (h : Hit) (l : List Hit) (heap : Ordered NotCloser l) where
    pushed-Grown : length l < ef → Grown h l (push farther h l)
    pushed-Grown room = record {
      from = λ g. (mem-push farther h l g).0;
      stays = λ g m. inl ((mem-push farther h l g).1 (inr m));
      full = λ d f. absurd (omega (arith, f.0));
      self = inl ((mem-push farther h l h).1 (inl refl));
      short = omega (arith, length-push farther h l);
      longer = omega (arith, length-push farther h l);
      heap = push-farther h l heap;
      apart = push-Apart farther h l;
    }

    top_lem :
        (k : List Hit) (d e : ℕ)
        → top_exceeds k d ≡ true
        → ((g : Hit) → Memᴰ g k → g.distance ≤ e)
        → d ≤ e
    unfolding top_exceeds
    top_lem [] d e t all = cc
    top_lem (g ∷ k) d e t all = ground (arith, all g (Memᴰ.head refl))

    not_above :
        (k : List Hit) (d : ℕ)
        → Ordered NotCloser k
        → top_exceeds k d ≡ false
        → (g : Hit) → Memᴰ g k
        → g.distance ≤ d
    unfolding top_exceeds
    not_above [] d o t g m = absurd (Memᴰ.not-nil m)
    not_above (k ∷ l') d o t g m =
        let first : k.distance ≤ d = ground arith in
        ⊎_elim (λ e. omega (arith, ap (λ (t : Hit). t.distance) e)) (λ n. omega (arith, o.0 g n))
          ((Memᴰ-cons g k l').0 m)

    popped-Grown :
        length l ≡ ef → top_exceeds l h.distance ≡ true → Grown h l (pop (push farther h l))
    popped-Grown size nearer =
        let f = push farther h l in
        let order = push-farther h l heap in
        let count = length-pop f ef (omega (arith, length-push farther h l)) in
        let kept = λ (g : Hit) (m : Memᴰ g f).
          ⊎_elim {C = Memᴰ g (pop f) ⊎ Full (pop f) g.distance} inl (λ all. inr (count, all))
            (popped f g order m) in
        record {
          from = λ g m. (mem-push farther h l g).0 (mem-pop f g m);
          stays = λ g m. kept g ((mem-push farther h l g).1 (inr m));
          full = λ d below. (
            count,
            λ g m.
                ⊎_elim
                  (λ e.
                    omega (
                      arith,
                      ap (λ (t : Hit). t.distance) e,
                      top_lem l h.distance d nearer below.1,
                    ))
                  (below.1 g) ((mem-push farther h l g).0 (mem-pop f g m)),
          );
          self = kept h ((mem-push farther h l h).1 (inl refl));
          short = omega (arith, count);
          longer = omega (arith, count, size);
          heap = pop-Ordered NotCloser f order;
          apart = λ new o. pop-Ordered _ f (push-Apart farther h l new o);
        }

    -- Taken in, and the farthest dropped where there was no room.
    pub taken-Grown :
        length l ≤ ef
        → (ltb (length l) ef || top_exceeds l h.distance) ≡ true
        → Grown h l (trim ef (push farther h l))
    unfolding trim
    taken-Grown short test = elim (Bool-cases (ltb (length l) ef)) [
      | inl room ↦
          let count = length-push farther h l in
          let fits =
            le→ltb ef (length (push farther h l)) (omega (arith, ltb→lt (length l) ef room)) in
          subst (Grown h l) (sym (if_false (pop (push farther h l)) (push farther h l) fits))
            (pushed-Grown (ltb→lt (length l) ef room))
      | inr none_left ↦
          let size : length l ≡ ef = ground arith in
          let count = length-push farther h l in
          let over = lt→ltb ef (length (push farther h l)) (omega arith) in
          subst (Grown h l) (sym (if_true (pop (push farther h l)) (push farther h l) over))
            (popped-Grown size (ground arith))
    ]

    -- Refused: there is no room and it is not nearer.
    pub refused-Grown :
        length l ≤ ef → (ltb (length l) ef || top_exceeds l h.distance) ≡ false → Grown h l l
    refused-Grown short test = record {
      from = λ g. inr;
      stays = λ g. inl;
      full = λ d f. f;
      self = inr (ground arith, not_above l h.distance heap (ground arith));
      short = short;
      longer = omega arith;
      heap = heap;
      apart = λ new o. o;
    }
