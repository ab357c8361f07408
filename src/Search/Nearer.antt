-- ===== src/Search/Nearer.antt =====
-- How many nodes are nearer than a distance, which bounds the descent of `greedySearchUpperLayer`
-- in src/astervec_index.cc.
use aster_vec.Base.{
  ℕ, suc, ◌+◌, ◌≤◌, ◌<◌, ◌≡◌, inl, inr, List, [], ◌∷◌, Option, none, some, length, arith, ltb, ◌==◌,
  if◌then◌else◌, Bool-cases,
}
use aster_vec.Base.Assoc.{lookup}
use aster_vec.Search.{MemNode}

abbrev below : Option ℕ → ℕ → ℕ
below none d = 0
below (some e) d = if ltb e d then 1 else 0

-- How many nodes in memory are nearer than `d`.
abbrev pub nearer : List (ℕ × MemNode) → ℕ → ℕ
nearer [] d = 0
nearer ((i, n) ∷ nodes) d = below n.point d + nearer nodes d

below_mono : (o : Option ℕ) (d e : ℕ) → d ≤ e → below o d ≤ below o e
below_mono none d e h = omega arith
below_mono (some c) d e h = ground arith

nearer_mono : (nodes : List (ℕ × MemNode)) (d e : ℕ) → d ≤ e → nearer nodes d ≤ nearer nodes e
nearer_mono [] d e h = omega arith
nearer_mono ((i, n) ∷ nodes) d e h =
    omega (arith, below_mono n.point d e h, nearer_mono nodes d e h)

below-some : (o : Option ℕ) (d e : ℕ) → o ≡ some d → d < e → suc (below o d) ≤ below o e
below-some none d e p h = cc
below-some (some c) d e p h = ground arith

pub nearer_falls :
    (nodes : List (ℕ × MemNode)) (i : ℕ) (d e : ℕ)
    → (elim (lookup i nodes) as (λ _. Option ℕ) [ none ↦ none | some n ↦ n.point ]) ≡ some d
    → d < e
    → suc (nearer nodes d) ≤ nearer nodes e
unfolding lookup
nearer_falls [] i d e p h = cc
nearer_falls ((j, n) ∷ nodes) i d e p h = elim (Bool-cases (j == i)) [
  | inl same ↦
      let q : n.point ≡ some d = rw same at p in
      omega (arith, below-some n.point d e q h, nearer_mono nodes d e (omega arith))
  | inr other ↦
      let q : (elim (lookup i nodes) as (λ _. Option ℕ) [ none ↦ none | some n ↦ n.point ])
          ≡ some d =
        rw other at p in
      omega (arith, below_mono n.point d e (omega arith), nearer_falls nodes i d e q h)
]

pub nearer-le-length : (nodes : List (ℕ × MemNode)) (d : ℕ) → nearer nodes d ≤ length nodes
nearer-le-length [] d = omega arith
nearer-le-length ((i, n) ∷ nodes) d = at_point n.point (nearer-le-length nodes d)
  where
    at_point :
        (o : Option ℕ)
        → nearer nodes d ≤ length nodes
        → below o d + nearer nodes d ≤ suc (length nodes)
    at_point none h = omega arith
    at_point (some c) h = ground arith
