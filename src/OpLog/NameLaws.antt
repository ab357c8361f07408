-- ===== src/OpLog/NameLaws.antt =====
-- A segment's file name reads back as its first lsn, so different lsns have different names.
use aster_vec.Base.{
  ℕ, zero, suc, ◌+◌, ◌-◌, ◌*◌, ◌/◌, ◌%◌, ◌^◌, ◌<◌, ◌≡◌, ◌≢◌, refl, ap, sym, ◌∙◌, true, false, [],
  ◌∷◌, ◌++◌, arith, length, length-append, take, drop, take-append, drop-append, lt→ltb, Bool-cases,
  inl, inr,
}
use native.Mathlib.Nat.{pow-suc}
use aster_vec.Base.Bytes.{Bytes, same_bytes, same_bytes_refl, same_bytes→eq}
use aster_vec.OpLog.Names.{
  dec_digits, segment_name, all_digits, decimal, NameKind, segment, name_kind, suffix,
}

length-dec_digits : (k n : ℕ) → length (dec_digits k n) ≡ k
unfolding dec_digits
length-dec_digits zero n = refl
length-dec_digits (suc k) n =
    length-append (dec_digits k (n / 10)) _ ∙ omega (arith, length-dec_digits k (n / 10))

decimal-append :
    (acc : ℕ) (xs : Bytes) (c : ℕ) → decimal acc (xs ++ (c ∷ [])) ≡ decimal acc xs * 10 + (c - 48)
unfolding decimal
decimal-append acc [] c = refl
decimal-append acc (x ∷ xs) c = decimal-append (acc * 10 + (x - 48)) xs c

decimal-dec_digits : (k n : ℕ) → n < 10 ^ k → decimal 0 (dec_digits k n) ≡ n
unfolding dec_digits
decimal-dec_digits zero n h = unfold decimal in omega arith
decimal-dec_digits (suc k) n h =
    decimal-append 0 (dec_digits k (n / 10)) (n % 10 + 48)
    ∙ omega (arith, decimal-dec_digits k (n / 10) (omega (arith, pow-suc 10 k)))

all_digits-append :
    (xs ys : Bytes) → all_digits xs ≡ true → all_digits ys ≡ true → all_digits (xs ++ ys) ≡ true
unfolding all_digits
all_digits-append [] ys p q = q
all_digits-append (x ∷ xs) ys p q = ground (arith, all_digits-append xs ys)

last_digit : (n : ℕ) → all_digits ((n % 10 + 48) ∷ []) ≡ true
unfolding all_digits
last_digit n = ground arith

all_digits-dec_digits : (k n : ℕ) → all_digits (dec_digits k n) ≡ true
unfolding dec_digits
all_digits-dec_digits zero n = unfold all_digits in refl
all_digits-dec_digits (suc k) n =
    all_digits-append (dec_digits k (n / 10)) _ (all_digits-dec_digits k (n / 10)) (last_digit n)

-- The name of a segment is read as the segment of its first lsn, for every 64-bit lsn.
pub name_kind-segment_name : (n : ℕ) → n < 2 ^ 64 → name_kind (segment_name n) ≡ segment n
unfolding name_kind segment_name
name_kind-segment_name n h =
    rw (size, tail, same_bytes_refl suffix, head, all_digits-dec_digits 20 n, number, lt→ltb _ _ h)
      refl
  where
    size : length (dec_digits 20 n ++ suffix) ≡ 24
    size = omega (arith, length-append (dec_digits 20 n) suffix, length-dec_digits 20 n)

    tail : drop 20 (dec_digits 20 n ++ suffix) ≡ suffix
    tail = drop-append (dec_digits 20 n) suffix 20 (sym (length-dec_digits 20 n))

    head : take 20 (dec_digits 20 n ++ suffix) ≡ dec_digits 20 n
    head = take-append (dec_digits 20 n) suffix 20 (sym (length-dec_digits 20 n))

    number : decimal 0 (dec_digits 20 n) ≡ n
    number = decimal-dec_digits 20 n (omega arith)

abbrev first_of_kind : NameKind → ℕ
first_of_kind (segment n) = n
first_of_kind _ = 0

pub segment_name_injective :
    (a b : ℕ) → a < 2 ^ 64 → b < 2 ^ 64 → segment_name a ≡ segment_name b → a ≡ b
segment_name_injective a b ha hb e =
    ap first_of_kind
      (sym (name_kind-segment_name a ha) ∙ ap name_kind e ∙ name_kind-segment_name b hb)

pub same_bytes-segment_name_ne :
    (a b : ℕ)
    → a < 2 ^ 64
    → b < 2 ^ 64
    → a ≢ b
    → same_bytes (segment_name a) (segment_name b) ≡ false
same_bytes-segment_name_ne a b ha hb differ =
    elim (Bool-cases (same_bytes (segment_name a) (segment_name b))) [
      | inl e ↦ absurd (differ (segment_name_injective a b ha hb (same_bytes→eq _ _ e)))
      | inr e ↦ e
    ]
