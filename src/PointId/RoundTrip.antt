-- ===== src/PointId/RoundTrip.antt =====
-- The stored form of a point id gives the id back: the integer, the text, and the UUID with its
-- hyphens.
use aster_vec.Base.{
  ℕ, suc, ◌+◌, ◌*◌, ◌^◌, ◌≡◌, refl, ap, sym, ◌∙◌, ap₂, Bool, true, false, List, [], ◌∷◌, none, some,
  arith, length, ◌==◌, ==_iff, if_true, if_false, Bool-cases, inl, inr,
}
use mathlib.Core.Path.{subst}
use aster_vec.Base.Bytes.{Bytes}
use aster_vec.BigEndian.Laws.{length-be_bytes, be_value-be_bytes}
use aster_vec.PointId.{
  PointId, int, str, hex_val, is_hex, dash_char, uuid_chars, is_canonical_uuid, pack, encode,
  hex_pair, unpack, decode, IsId, uuid_tag,
}
use aster_vec.PointId.Layout.{
  both, from_not, layout, chars, fits, layout_fits, pack_pair, hex_pair_lem, hex_char, dash_at,
}

-- Packing keeps the digits of a text that follows the layout.
record Packed (o : ℕ) (ds : List Bool) (s : Bytes) : Type 0 where
  bytes : length (pack none s) ≡ length ds
  text : unpack o (pack none s) ≡ s

module _ (o x y : ℕ) (ds : List Bool) (cs : Bytes) where
  pair_text :
      (p : ℕ)
      → dash_char p ≡ false
      → dash_char (p + 1) ≡ false
      → uuid_chars p (x ∷ y ∷ cs) ≡ true
      → (uuid_chars (p + 2) cs ≡ true → Packed (o + 1) ds cs)
      → (length (pack none (x ∷ y ∷ cs)) ≡ suc (length ds))
        × (hex_pair (hex_val x * 2 ^ 4 + hex_val y) (unpack (o + 1) (pack none cs)) ≡ x ∷ y ∷ cs)
        × (pack none (x ∷ y ∷ cs) ≡ (hex_val x * 2 ^ 4 + hex_val y) ∷ pack none cs)
  pair_text p place next h more = (
    ap length pair ∙ ap suc rest.bytes,
    hex_pair_lem x y _ one.0 two.0 ∙ ap (λ t. x ∷ y ∷ t) rest.text,
    pair,
  )
    where
      one : (is_hex x ≡ true) × (uuid_chars (p + 1) (y ∷ cs) ≡ true)
      one = hex_char p x (y ∷ cs) place h

      two : (is_hex y ≡ true) × (uuid_chars (p + 1 + 1) cs ≡ true)
      two = hex_char (p + 1) y cs next one.1

      rest : Packed (o + 1) ds cs
      rest = more (subst (λ (q : ℕ). uuid_chars q cs ≡ true) (omega arith) two.1)

      pair : pack none (x ∷ y ∷ cs) ≡ (hex_val x * 2 ^ 4 + hex_val y) ∷ pack none cs
      pair = pack_pair x y cs one.0 two.0

  pair_Packed :
      (p : ℕ)
      → fits p o (false ∷ ds) ≡ true
      → uuid_chars p (x ∷ y ∷ cs) ≡ true
      → (fits (p + 2) (o + 1) ds ≡ true → uuid_chars (p + 2) cs ≡ true → Packed (o + 1) ds cs)
      → Packed o (false ∷ ds) (x ∷ y ∷ cs)
  unfolding fits unpack
  pair_Packed p f h ih =
      let (place, f1) = both _ _ f in
      let (next, f2) = both _ _ f1 in
      let (byte, rest) = both _ _ f2 in
      let pair = pair_text p (from_not _ place) (from_not _ next) h (ih rest) in
      record {
        bytes = pair.0;
        text = ap (unpack o) pair.2 ∙ if_false _ _ (from_not _ byte) ∙ pair.1;
      }

  dash_Packed :
      (p c : ℕ)
      → fits p o (true ∷ ds) ≡ true
      → uuid_chars p (c ∷ x ∷ y ∷ cs) ≡ true
      → (fits (p + 3) (o + 1) ds ≡ true → uuid_chars (p + 3) cs ≡ true → Packed (o + 1) ds cs)
      → Packed o (true ∷ ds) (c ∷ x ∷ y ∷ cs)
  unfolding fits unpack pack
  dash_Packed p c f h ih =
      let (place, f1) = both _ _ f in
      let (next, f2) = both _ _ f1 in
      let (last, f3) = both _ _ f2 in
      let (byte, rest) = both _ _ f3 in
      let dash = dash_at p c (x ∷ y ∷ cs) place h in
      let step : p + 1 + 1 ≡ p + 2 = omega arith in
      let third : dash_char (p + 1 + 1) ≡ false = ap dash_char step ∙ from_not _ last in
      let behind : uuid_chars (p + 1 + 2) cs ≡ true → Packed (o + 1) ds cs =
        λ more. ih rest (subst (λ (q : ℕ). uuid_chars q cs ≡ true) (omega arith) more) in
      let pair = pair_text (p + 1) (from_not _ next) third dash.1 behind in
      let skip : pack none (c ∷ x ∷ y ∷ cs) ≡ pack none (x ∷ y ∷ cs) =
        if_true {b = c == b'-'} _ _ (rw dash.0 refl) in
      record {
        bytes = ap length skip ∙ pair.0;
        text =
            ap (unpack o) (skip ∙ pair.2)
            ∙ if_true _ _ byte
            ∙ ap₂ (λ (a : ℕ) t. a ∷ t) (sym dash.0) pair.1;
      }

unpack-pack :
    (ds : List Bool) (p o : ℕ) (s : Bytes)
    → fits p o ds ≡ true
    → length s ≡ chars ds
    → uuid_chars p s ≡ true
    → Packed o ds s
unfolding fits pack unpack
unpack-pack [] p o [] f n h = record { bytes = refl; text = refl }
unpack-pack [] p o (c ∷ s) f n h = absurd (omega arith)
unpack-pack (true ∷ ds) p o [] f n h = absurd (omega arith)
unpack-pack (true ∷ ds) p o (c ∷ []) f n h = absurd (omega arith)
unpack-pack (true ∷ ds) p o (c ∷ x ∷ []) f n h = absurd (omega arith)
unpack-pack (true ∷ ds) p o (c ∷ x ∷ y ∷ cs) f n h =
    dash_Packed o x y ds cs p c f h (λ f' h'. unpack-pack ds (p + 3) (o + 1) cs f' (omega arith) h')
unpack-pack (false ∷ ds) p o [] f n h = absurd (omega arith)
unpack-pack (false ∷ ds) p o (x ∷ []) f n h = absurd (omega arith)
unpack-pack (false ∷ ds) p o (x ∷ y ∷ cs) f n h =
    pair_Packed o x y ds cs p f h (λ f' h'. unpack-pack ds (p + 2) (o + 1) cs f' (omega arith) h')

stored_uuid :
    (s : Bytes) → is_canonical_uuid s ≡ true → decode (uuid_tag ∷ pack none s) ≡ some (str s)
unfolding is_canonical_uuid decode
stored_uuid s h = rw (packed.bytes, packed.text) refl
  where
    parts : ((length s == 36) ≡ true) × (uuid_chars 0 s ≡ true)
    parts = both _ _ h

    packed : Packed 1 layout s
    packed = unpack-pack layout 0 1 s layout_fits ((==_iff _ 36).0 parts.0) parts.1

-- What `Encode` stores of a 64-bit integer or of any text, `Decode` gives back.
pub decode-encode : (id : PointId) → IsId id → decode (encode id) ≡ some id
unfolding encode
decode-encode (int v) h =
    unfold decode in rw (length-be_bytes 8 v, be_value-be_bytes 8 v (omega arith) h) refl
decode-encode (str s) h = elim (Bool-cases (is_canonical_uuid s)) [
  | inl uuid ↦ ap decode (if_true _ _ uuid) ∙ stored_uuid s uuid
  | inr other ↦ ap decode (if_false _ _ other) ∙ (unfold decode in refl)
]
