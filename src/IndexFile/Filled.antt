-- ===== src/IndexFile/Filled.antt =====
-- What the maps and sets hold that `DeserializeMetadata` of src/astervec_index.cc fills, by lookups.
use mathlib.Core.Logic.{⊎_elim}
use aster_vec.Base.{
  ℕ, ◌≡◌, refl, ap, sym, ◌∙◌, Bool, true, false, ◌||◌, List, [], ◌∷◌, ◌++◌, map, Option, none, some,
  ◌==◌, ==_iff, if◌then◌else◌, if_true, if_false, Bool-cases, Option-cases, inl, inr, ◌⊎◌, All,
}
use aster_vec.Base.Assoc.{lookup, assign, lookup-assign}
use aster_vec.IdMap.{IdMap, member}
use aster_vec.IndexFile.Load.{emplace, emplace_all, insert_all, assign_all}

some_injective : {A : Type 0} {a b : A} → ◌≡◌ {A = Option A} (some a) (some b) → a ≡ b
some_injective h = cc

-- The first entry of a key stays.
or_else : {A : Type 0} → Option A → Option A → Option A
or_else none o = o
or_else (some a) o = some a

module _ {A : Type 0} where
  lookup-snoc :
      (j k : ℕ) (a : A) (m : List (ℕ × A))
      → lookup j (m ++ ((k, a) ∷ [])) ≡ or_else (lookup j m) (if k == j then some a else none)
  unfolding lookup or_else
  lookup-snoc j k a [] = refl
  lookup-snoc j k a ((i, b) ∷ m) = elim (Bool-cases (i == j)) [
    | inl same ↦ rw same refl
    | inr other ↦ rw other (lookup-snoc j k a m)
  ]

  or_none : (o : Option A) → or_else o none ≡ o
  unfolding or_else
  or_none none = refl
  or_none (some a) = refl

  or_assoc : (o p q : Option A) → or_else (or_else o p) q ≡ or_else o (or_else p q)
  unfolding or_else
  or_assoc none p q = refl
  or_assoc (some a) p q = refl

  or_some : (o p : Option A) (a : A) → o ≡ some a → or_else o p ≡ o
  unfolding or_else
  or_some o p a e = ap (λ o. or_else o p) e ∙ sym e

  lookup-emplace :
      (j k : ℕ) (a : A) (m : List (ℕ × A))
      → lookup j (emplace m k a) ≡ or_else (lookup j m) (if k == j then some a else none)
  lookup-emplace j k a m = elim (Option-cases (lookup k m)) [
    | inl nothing ↦ ap opened nothing ∙ lookup-snoc j k a m
    | inr (b, there) ↦ ap opened there ∙ kept b there
  ]
    where
      opened : Option A → Option A
      opened o = lookup j (elim o as (λ _. List (ℕ × A)) [ none ↦ m ++ ((k, a) ∷ []) | some b ↦ m ])

      kept :
          (b : A)
          → lookup k m ≡ some b
          → lookup j m ≡ or_else (lookup j m) (if k == j then some a else none)
      kept b there = elim (Bool-cases (k == j)) [
        | inl same ↦ sym (
            or_some (lookup j m) _ b
              (ap (λ (i : ℕ). lookup i m) (sym ((==_iff k j).0 same)) ∙ there))
        | inr other ↦ rw other (sym (or_none (lookup j m)))
      ]

  lookup-emplace_all :
      (entries m : List (ℕ × A)) (j : ℕ)
      → lookup j (emplace_all m entries) ≡ or_else (lookup j m) (lookup j entries)
  unfolding emplace_all or_else lookup
  lookup-emplace_all [] m j = sym (or_none (lookup j m))
  lookup-emplace_all ((k, a) ∷ entries) m j =
      lookup-emplace_all entries (emplace m k a) j
      ∙ ap (λ o. or_else o (lookup j entries)) (lookup-emplace j k a m)
      ∙ or_assoc (lookup j m) (if k == j then some a else none) (lookup j entries)
      ∙ ap (or_else (lookup j m)) (first (k == j))
    where
      first :
          (b : Bool)
          → or_else (if b then some a else none) (lookup j entries)
            ≡ (if b then some a else lookup j entries)
      first true = refl
      first false = refl

  pub emplaced_lem :
      (entries : List (ℕ × A)) (j : ℕ) → lookup j (emplace_all [] entries) ≡ lookup j entries
  unfolding or_else lookup
  emplaced_lem entries j = lookup-emplace_all entries [] j

  -- Where each entry is what `target` holds and each of what it holds is an entry, assigning the
  -- entries gives `target`.
  pub assigned : List (ℕ × A) → List (ℕ × A) → List (ℕ × A)
  assigned [] m = m
  assigned ((k, a) ∷ entries) m = assigned entries (assign k a m)

  module _ (target : List (ℕ × A)) where
    abbrev pub Agrees : List (ℕ × A) → Type 0
    Agrees entries = All (λ e. lookup e.0 target ≡ some e.1) entries

    lookup-assign_agrees :
        (j k : ℕ) (a : A) (m : List (ℕ × A))
        → lookup k target ≡ some a
        → (k ≡ j) ⊎ (lookup j m ≡ lookup j target)
        → lookup j (assign k a m) ≡ lookup j target
    lookup-assign_agrees j k a m e h = lookup-assign k j a m ∙ elim (Bool-cases (j == k)) [
      | inl same ↦
          if_true _ _ same ∙ sym e ∙ ap (λ (i : ℕ). lookup i target) (sym ((==_iff j k).0 same))
      | inr other ↦
          if_false _ _ other
          ∙ ⊎_elim (λ same. absurd (cc (sym other ∙ (==_iff j k).1 (sym same)))) (λ old. old) h
    ]

    assigned-stays :
        (entries m : List (ℕ × A)) (j : ℕ)
        → Agrees entries
        → lookup j m ≡ lookup j target
        → lookup j (assigned entries m) ≡ lookup j target
    unfolding assigned
    assigned-stays [] m j all h = h
    assigned-stays ((k, a) ∷ entries) m j all h =
        assigned-stays entries (assign k a m) j all.1 (lookup-assign_agrees j k a m all.0 (inr h))

    assigned-entry :
        (entries m : List (ℕ × A)) (j : ℕ) (x : A)
        → Agrees entries
        → lookup j entries ≡ some x
        → lookup j (assigned entries m) ≡ lookup j target
    unfolding assigned lookup
    assigned-entry [] m j x all h = absurd (cc h)
    assigned-entry ((k, a) ∷ entries) m j x all h = elim (Bool-cases (k == j)) [
      | inl same ↦
          assigned-stays entries (assign k a m) j all.1
            (lookup-assign_agrees j k a m all.0 (inl ((==_iff k j).0 same)))
      | inr other ↦ assigned-entry entries (assign k a m) j x all.1 (sym (if_false _ _ other) ∙ h)
    ]

    pub lookup-assigned :
        (entries : List (ℕ × A)) (j : ℕ)
        → Agrees entries
        → ((x : A) → lookup j target ≡ some x → (y : A) × (lookup j entries ≡ some y))
        → lookup j (assigned entries []) ≡ lookup j target
    lookup-assigned entries j all complete = elim (Option-cases (lookup j target)) [
      | inl nothing ↦ assigned-stays entries [] j all (unfold lookup in sym nothing)
      | inr (x, there) ↦ assigned-entry entries [] j (complete x there).0 all (complete x there).1
    ]

or_false : (b : Bool) → b ≡ (b || false)
or_false true = refl
or_false false = refl

member-insert_all :
    (ts marks : List ℕ) (i : ℕ) → member i (insert_all marks ts) ≡ (member i marks || member i ts)
unfolding insert_all member
member-insert_all [] marks i = or_false (member i marks)
member-insert_all (t ∷ ts) marks i = elim (Bool-cases (member t marks)) [
  | inl old ↦
      ap (member i) (if_true _ _ old) ∙ member-insert_all ts marks i ∙ elim (Bool-cases (t == i)) [
        | inl same ↦
            let here : member i marks ≡ true =
              ap (λ (j : ℕ). member j marks) (sym ((==_iff t i).0 same)) ∙ old in
            rw (here) refl
        | inr other ↦ rw other refl
      ]
  | inr new ↦
      ap (member i) (if_false _ _ new)
      ∙ member-insert_all ts (t ∷ marks) i
      ∙ elim (Bool-cases (t == i)) [
        | inl same ↦ rw same (or_true (member i marks))
        | inr other ↦ rw other refl
      ]
]
  where
    or_true : (b : Bool) → true ≡ (b || true)
    or_true true = refl
    or_true false = refl

abbrev pub swapped : List (ℕ × ℕ) → List (ℕ × ℕ)
swapped entries = map (λ e. (e.1, e.0)) entries

pub assign_all-forward :
    (entries : List (ℕ × ℕ)) (m : IdMap)
    → (assign_all entries m).forward ≡ assigned entries m.forward
unfolding assign_all assigned
assign_all-forward [] m = refl
assign_all-forward ((r, i) ∷ entries) m = assign_all-forward entries _

pub assign_all-reverse :
    (entries : List (ℕ × ℕ)) (m : IdMap)
    → (assign_all entries m).reverse ≡ assigned (swapped entries) m.reverse
unfolding assign_all assigned
assign_all-reverse [] m = refl
assign_all-reverse ((r, i) ∷ entries) m = assign_all-reverse entries _

pub assign_all-rest :
    (entries : List (ℕ × ℕ)) (m : IdMap)
    → ((assign_all entries m).tombstones ≡ m.tombstones)
      × ((assign_all entries m).next_update ≡ m.next_update)
unfolding assign_all
assign_all-rest [] m = (refl, refl)
assign_all-rest ((r, i) ∷ entries) m = assign_all-rest entries _

pub lookup-swapped :
    (entries : List (ℕ × ℕ)) (r i : ℕ)
    → lookup r entries ≡ some i
    → (y : ℕ) × (lookup i (swapped entries) ≡ some y)
unfolding lookup
lookup-swapped [] r i h = absurd (cc h)
lookup-swapped ((k, a) ∷ entries) r i h = elim (Bool-cases (a == i)) [
  | inl same ↦ (k, if_true _ _ same)
  | inr other ↦ elim (Bool-cases (k == r)) [
    | inl here ↦ absurd (clash (sym (if_true _ _ here) ∙ h) other)
    | inr there ↦
        let (y, e) = lookup-swapped entries r i (sym (if_false _ _ there) ∙ h) in
        (y, if_false _ _ other ∙ e)
  ]
]
  where
    clash : {a i : ℕ} → ◌≡◌ {A = Option ℕ} (some a) (some i) → (a == i) ≡ false → ⊥
    clash {a} {i} e other = cc (sym ((==_iff a i).1 (some_injective e)) ∙ other)

pub Agrees-swapped :
    (entries forward reverse : List (ℕ × ℕ))
    → ((r i : ℕ) → lookup r forward ≡ some i → lookup i reverse ≡ some r)
    → Agrees forward entries
    → Agrees reverse (swapped entries)
Agrees-swapped [] forward reverse inverse all = tt
Agrees-swapped ((r, i) ∷ entries) forward reverse inverse all =
    (inverse r i all.0, Agrees-swapped entries forward reverse inverse all.1)

pub inserted_lem : (ts : List ℕ) (i : ℕ) → member i (insert_all [] ts) ≡ member i ts
unfolding member
inserted_lem ts i = member-insert_all ts [] i
