-- ===== src/PointId/Layout.antt =====
-- The digits of a UUID and the places of its hyphens, in include/point_id.h.
use aster_vec.Base.{
  ℕ, ◌+◌, ◌*◌, ◌/◌, ◌%◌, ◌^◌, ◌<◌, ◌≡◌, refl, ap, sym, ◌∙◌, Bool, true, false, not, ◌&&◌, ◌||◌,
  List, [], ◌∷◌, none, arith, ltb, ltb→lt, ◌==◌, ==_iff, if_true, if_false, get_or, holds_to,
  holds_to→at,
}
use mathlib.Core.Path.{subst}
use aster_vec.Base.Bytes.{Bytes}
use aster_vec.Base.Bits.{and_low, or_fields}
use aster_vec.PointId.{
  hex_val, is_hex, dash_char, uuid_chars, pack, dash_byte, hex_digits, hex_pair,
}

-- What a hexadecimal digit is good for.
digit_test : ℕ → Bool
digit_test c =
    not (is_hex c)
    || (ltb (hex_val c) 16 && (get_or hex_digits (hex_val c) 0 == c && not (c == b'-')))

digit_table : holds_to digit_test 256 ≡ true
unfolding holds_to digit_test is_hex hex_val
digit_table = refl

is_hex-lt : (c : ℕ) → is_hex c ≡ true → c < 256
unfolding is_hex
is_hex-lt c h = ground arith

record IsDigit (c : ℕ) : Type 0 where
  small : hex_val c < 16
  back : get_or hex_digits (hex_val c) 0 ≡ c
  no_dash : (c == b'-') ≡ false

pub both : (a b : Bool) → (a && b) ≡ true → (a ≡ true) × (b ≡ true)
both true b h = (refl, h)
both false b h = cc

pub from_not : (a : Bool) → not a ≡ true → a ≡ false
from_not true h = cc
from_not false h = refl

digit_lem : (c : ℕ) → is_hex c ≡ true → IsDigit c
unfolding digit_test
digit_lem c h = record {
  small = ltb→lt _ _ tests.0;
  back = (==_iff _ c).0 more.0;
  no_dash = from_not _ more.1;
}
  where
    rest : Bool
    rest = ltb (hex_val c) 16 && (get_or hex_digits (hex_val c) 0 == c && not (c == b'-'))

    all : rest ≡ true
    all =
        subst (λ b. (not b || rest) ≡ true) h
          (holds_to→at digit_test 256 c (is_hex-lt c h) digit_table)

    tests :
        (ltb (hex_val c) 16 ≡ true)
        × ((get_or hex_digits (hex_val c) 0 == c && not (c == b'-')) ≡ true)
    tests = both _ _ all

    more : ((get_or hex_digits (hex_val c) 0 == c) ≡ true) × (not (c == b'-') ≡ true)
    more = both _ _ tests.1

-- Which bytes have a hyphen before them.
abbrev pub layout : List Bool
layout =
    false ∷ false ∷ false ∷ false ∷ true ∷ false ∷ true ∷ false ∷ true ∷ false ∷ true ∷ false
    ∷ false ∷ false ∷ false ∷ false ∷ []

abbrev pub chars : List Bool → ℕ
chars [] = 0
chars (true ∷ ds) = 3 + chars ds
chars (false ∷ ds) = 2 + chars ds

-- The layout agrees with both tables of places, from character `p` and byte `o` on.
unfoldable pub fits : ℕ → ℕ → List Bool → Bool
fits p o [] = true
fits p o (true ∷ ds) =
    dash_char p
    && (not (dash_char (p + 1))
        && (not (dash_char (p + 2)) && (dash_byte o && fits (p + 3) (o + 1) ds)))
fits p o (false ∷ ds) =
    not (dash_char p) && (not (dash_char (p + 1)) && (not (dash_byte o) && fits (p + 2) (o + 1) ds))

pub layout_fits : fits 0 1 layout ≡ true
unfolding fits
layout_fits = refl

pub pack_pair :
    (x y : ℕ) (cs : Bytes)
    → is_hex x ≡ true
    → is_hex y ≡ true
    → pack none (x ∷ y ∷ cs) ≡ (hex_val x * 2 ^ 4 + hex_val y) ∷ pack none cs
unfolding pack
pack_pair x y cs hx hy =
    if_false _ _ dx.no_dash
    ∙ if_false _ _ dy.no_dash
    ∙ ap (λ (b : ℕ). b ∷ pack none cs)
        (ap (λ (b : ℕ). b % 256) (or_fields 4 (hex_val x) (hex_val y) dy.small)
          ∙ omega (arith, dx.small, dy.small))
  where
    dx : IsDigit x
    dx = digit_lem x hx

    dy : IsDigit y
    dy = digit_lem y hy

pub hex_pair_lem :
    (x y : ℕ) (rest : Bytes)
    → is_hex x ≡ true
    → is_hex y ≡ true
    → hex_pair (hex_val x * 2 ^ 4 + hex_val y) rest ≡ x ∷ y ∷ rest
unfolding hex_pair
hex_pair_lem x y rest hx hy =
    rw (high, and_low 4 (hex_val x * 2 ^ 4 + hex_val y), low, dx.back, dy.back) refl
  where
    dx : IsDigit x
    dx = digit_lem x hx

    dy : IsDigit y
    dy = digit_lem y hy

    high : (hex_val x * 2 ^ 4 + hex_val y) / 2 ^ 4 ≡ hex_val x
    high = omega (arith, dx.small, dy.small)

    low : (hex_val x * 2 ^ 4 + hex_val y) % 2 ^ 4 ≡ hex_val y
    low = omega (arith, dx.small, dy.small)

pub hex_char :
    (p c : ℕ) (cs : Bytes)
    → dash_char p ≡ false
    → uuid_chars p (c ∷ cs) ≡ true
    → (is_hex c ≡ true) × (uuid_chars (p + 1) cs ≡ true)
unfolding uuid_chars
hex_char p c cs place h = both _ _ (rw (sym (if_false (c == b'-') (is_hex c) place)) h)

pub dash_at :
    (p c : ℕ) (cs : Bytes)
    → dash_char p ≡ true
    → uuid_chars p (c ∷ cs) ≡ true
    → (c ≡ b'-') × (uuid_chars (p + 1) cs ≡ true)
unfolding uuid_chars
dash_at p c cs place h = ((==_iff c b'-').0 parts.0, parts.1)
  where
    parts : ((c == b'-') ≡ true) × (uuid_chars (p + 1) cs ≡ true)
    parts = both _ _ (rw (sym (if_true (c == b'-') (is_hex c) place)) h)
