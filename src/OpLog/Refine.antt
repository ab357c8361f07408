-- ===== src/OpLog/Refine.antt =====
-- The writer keeps the files that the abstract log stands for.
use mathlib.Core.List.{append_assoc, append-nil}
use aster_vec.Base.{
  ℕ, ◌+◌, ◌^◌, ◌<◌, ◌≤◌, ◌≡◌, ap, sym, ◌∙◌, List, [], ◌∷◌, ◌++◌, map, none, arith, length,
  length-append, All-append,
}
use aster_vec.Base.Bytes.{Bytes, same_bytes_refl}
use aster_vec.OpLog.Record.{OpRecord, IsWritable, frame, parse_frame, numbered}
use aster_vec.OpLog.Names.{segment_name, change_file}
use aster_vec.OpLog.NameLaws.{same_bytes-segment_name_ne}
use aster_vec.OpLog.Groups.{Group, frames, number, content, file_of, Chain, IsFilled}

abbrev pub with_record : Group → OpRecord → Group
with_record g r = record g { records = g.records ++ (r ∷ []) }

abbrev pub fresh : ℕ → Group
fresh n = record { first = n; records = []; junk = [] }

pub frames-append :
    (n : ℕ) (rs : List OpRecord) (r : OpRecord)
    → frames n (rs ++ (r ∷ [])) ≡ frames n rs ++ frame (n + length rs) r
unfolding frames
frames-append n [] r = append-nil _ ∙ ap (λ (k : ℕ). frame k r) (omega arith)
frames-append n (x ∷ rs) r =
    rw (frames-append (n + 1) rs r, append_assoc)
      (ap (λ (k : ℕ). frame n x ++ (frames (n + 1) rs ++ frame k r)) (omega arith))

pub number-append :
    (n : ℕ) (rs : List OpRecord) (r : OpRecord)
    → number n (rs ++ (r ∷ [])) ≡ number n rs ++ (numbered (n + length rs) r ∷ [])
unfolding number
number-append n [] r = ap (λ (k : ℕ). numbered k r ∷ []) (omega arith)
number-append n (x ∷ rs) r =
    rw (number-append (n + 1) rs r)
      (ap (λ (k : ℕ). numbered n x ∷ (number (n + 1) rs ++ (numbered k r ∷ []))) (omega arith))

pub IsFilled-snoc :
    (gs : List Group) (c g : Group) → IsFilled (gs ++ (c ∷ [])) g → 0 < length g.records
IsFilled-snoc [] c g h = h
IsFilled-snoc (x ∷ gs) c g h = h

pub snoc-IsFilled :
    (gs : List Group) (c g : Group) → 0 < length g.records → IsFilled (gs ++ (c ∷ [])) g
snoc-IsFilled [] c g h = h
snoc-IsFilled (x ∷ gs) c g h = h

-- Where the last segment of a chain begins and ends.
pub Chain-last :
    (n end : ℕ) (gs : List Group) (c : Group)
    → Chain n end (gs ++ (c ∷ []))
    → (n ≤ c.first) × (c.first + length c.records ≡ end)
Chain-last n end [] c h = omega (arith, h.0, h.4)
Chain-last n end (g ∷ gs) c h = omega (arith, Chain-last (n + length g.records) end gs c h.4)

pub Chain-with_record :
    (n end : ℕ) (gs : List Group) (c : Group) (r : OpRecord)
    → Chain n end (gs ++ (c ∷ []))
    → IsWritable r
    → Chain n (end + 1) (gs ++ (with_record c r ∷ []))
Chain-with_record n end [] c r h w = (
  h.0,
  All-append IsWritable c.records (r ∷ []) h.1 (w, tt),
  h.2,
  tt,
  omega (arith, h.4, length-append c.records (r ∷ [])),
)
Chain-with_record n end (g ∷ gs) c r h w = (
  h.0,
  h.1,
  h.2,
  snoc-IsFilled gs (with_record c r) g (IsFilled-snoc gs c g h.3),
  Chain-with_record (n + length g.records) end gs c r h.4 w,
)

pub Chain-fresh :
    (n end : ℕ) (gs : List Group) (c : Group)
    → parse_frame [] ≡ none
    → Chain n end (gs ++ (c ∷ []))
    → 0 < length c.records
    → Chain n end ((gs ++ (c ∷ [])) ++ (fresh end ∷ []))
Chain-fresh n end [] c e h filled =
    (h.0, h.1, h.2, filled, (sym h.4, tt, e, tt, omega (arith, h.4)))
Chain-fresh n end (g ∷ gs) c e h filled = (
  h.0,
  h.1,
  h.2,
  snoc-IsFilled (gs ++ (c ∷ [])) (fresh end) g (IsFilled-snoc gs c g h.3),
  Chain-fresh (n + length g.records) end gs c e h.4 filled,
)

-- A change to the open file changes the last segment alone.
pub change_file-last :
    (n end : ℕ) (gs : List Group) (c : Group) (change : Bytes → Bytes)
    → Chain n end (gs ++ (c ∷ []))
    → end < 2 ^ 64
    → change_file (segment_name c.first) change (map file_of (gs ++ (c ∷ [])))
      ≡ map file_of gs
        ++ (record { name = segment_name c.first; content = change (content c) } ∷ [])
unfolding change_file
change_file-last n end [] c change h he = rw (same_bytes_refl (segment_name c.first))
change_file-last n end (g ∷ gs) c change h he =
    rw
      (same_bytes-segment_name_ne g.first c.first (omega (arith, before, ends))
        (omega (arith, ends)) (omega (arith, before)))
      (ap (λ fs. file_of g ∷ fs) (change_file-last (n + length g.records) end gs c change h.4 he))
  where
    ends : c.first + length c.records ≡ end
    ends = (Chain-last (n + length g.records) end gs c h.4).1

    before : g.first < c.first
    before =
        omega
          (arith, h.0, IsFilled-snoc gs c g h.3, (Chain-last (n + length g.records) end gs c h.4).0)
