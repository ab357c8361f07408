-- ===== src/OpLog/RoundTrip.antt =====
-- Reading a frame gives back the record that was written, whatever follows it.
use mathlib.Core.List.{append-nil, append_assoc}
use aster_vec.Base.{
  ℕ, ◌+◌, ◌-◌, ◌^◌, ◌<◌, ◌≤◌, ◌≡◌, refl, ap, sym, pair_path, ◌∙◌, [], ◌++◌, none, some, arith,
  length, length-append, take, drop, take-append, drop-append, le→ltb, ==_refl, ◌==◌, if◌then◌else◌,
}
use aster_vec.Base.Bytes.{Bytes, le_bytes, le_value, length-le_bytes, le_value-le_bytes}
use aster_vec.Crc.{init, update_crc}
use aster_vec.Crc.Detect.{update_crc-IsU32, finish-IsU32}
use aster_vec.OpLog.Record.{
  OpRecord, IsWritable, numbered, body_size, body_tail, body_crc, frame, get_int, view,
  parse_fields, parse_body, parse_frame, with_rest, fixed_body, max_body_bytes, prefix_bytes,
}

pub get_int-le_bytes :
    (k n : ℕ) (rest : Bytes) → n < 256 ^ k → get_int k (le_bytes k n ++ rest) ≡ (n, rest)
unfolding get_int
get_int-le_bytes k n rest h =
    pair_path
      (ap le_value (take-append (le_bytes k n) rest k (sym (length-le_bytes k n)))
        ∙ le_value-le_bytes k n h)
      (drop-append (le_bytes k n) rest k (sym (length-le_bytes k n)))

pub view-append : (xs rest : Bytes) → view (length xs) (xs ++ rest) ≡ (xs, rest)
unfolding view
view-append xs rest = pair_path (take-append xs rest _ refl) (drop-append xs rest _ refl)

view-all : (xs : Bytes) → view (length xs) xs ≡ (xs, [])
view-all xs = rw (append-nil xs) at (view-append xs [])

pub length-body_tail : (r : OpRecord) → length (body_tail r) + 8 ≡ body_size r
unfolding body_tail body_size
length-body_tail r = simp (length-append, length-le_bytes) (omega arith)

parse_fields_lem :
    (build : Bytes → Bytes → Bytes → OpRecord) (r : OpRecord)
    → length r.vector < 256 ^ 4
    → length r.key < 256 ^ 4
    → length r.payload < 256 ^ 4
    → parse_fields build (
        le_bytes 4 (length r.vector)
        ++ (r.vector
            ++ (le_bytes 4 (length r.key)
                ++ (r.key ++ (le_bytes 4 (length r.payload) ++ r.payload)))))
      ≡ some (build r.vector r.key r.payload)
unfolding parse_fields
parse_fields_lem build r hv hk hp =
    rw
      (
        get_int-le_bytes 4 (length r.vector) _ hv,
        le→ltb _ (length r.vector) room_1,
        view-append r.vector _,
        get_int-le_bytes 4 (length r.key) _ hk,
        le→ltb _ (length r.key) room_2,
        view-append r.key _,
        get_int-le_bytes 4 (length r.payload) r.payload hp,
        ==_refl (length r.payload),
        view-all r.payload,
      )
      refl
  where
    room_2 : length r.key ≤ length (r.key ++ (le_bytes 4 (length r.payload) ++ r.payload)) - 4
    room_2 = simp (length-append, length-le_bytes) (omega arith)

    room_1 :
        length r.vector
        ≤ length (
            r.vector
            ++ (le_bytes 4 (length r.key)
                ++ (r.key ++ (le_bytes 4 (length r.payload) ++ r.payload))))
          - 8
    room_1 = simp (length-append, length-le_bytes) (omega arith)

-- The bounds of a writable record that the reader's tests need.
part_bounds :
    (r : OpRecord)
    → IsWritable r
    → (length r.vector < 256 ^ 4) × (length r.key < 256 ^ 4) × (length r.payload < 256 ^ 4)
unfolding body_size
part_bounds r w = omega (arith, w.fits)

parse_body_lem :
    (lsn : ℕ) (r : OpRecord)
    → lsn < 256 ^ 8
    → IsWritable r
    → parse_body (le_bytes 8 lsn ++ body_tail r) ≡ some (numbered lsn r)
unfolding parse_body body_tail
parse_body_lem lsn r h w =
    let (hv, hk, hp) = part_bounds r w in
    rw
      (
        get_int-le_bytes 8 lsn _ h,
        get_int-le_bytes 1 r.op _ w.op_byte,
        get_int-le_bytes 1 r.encoding _ w.encoding_byte,
        get_int-le_bytes 8 r.real_id _ w.real_word,
        get_int-le_bytes 8 r.internal_id _ w.internal_word,
        get_int-le_bytes 8 r.aux _ w.aux_word,
      )
      (parse_fields_lem _ r hv hk hp)

pub body_crc-lt : (lsn tail : Bytes) → body_crc lsn tail < 256 ^ 4
unfolding body_crc
body_crc-lt lsn tail =
    finish-IsU32 _
      (update_crc-IsU32 (update_crc init tail) lsn (update_crc-IsU32 init tail (omega arith)))

pub length-frame : (lsn : ℕ) (r : OpRecord) → length (frame lsn r) ≡ prefix_bytes + body_size r
unfolding frame
length-frame lsn r = simp (length-append, length-le_bytes) (omega (arith, length-body_tail r))

pub body_size-ge : (r : OpRecord) → fixed_body ≤ body_size r
unfolding body_size
body_size-ge r = omega arith

abbrev pub frame_body : ℕ → OpRecord → Bytes
frame_body lsn r = le_bytes 8 lsn ++ body_tail r

pub length-frame_body : (lsn : ℕ) (r : OpRecord) → length (frame_body lsn r) ≡ body_size r
length-frame_body lsn r = simp (length-append, length-le_bytes) (omega (arith, length-body_tail r))

-- The reader on a prefix with the right length, in front of a body of that length.
pub parse_frame_lem :
    (r : OpRecord) (crc : ℕ) (body rest : Bytes)
    → IsWritable r
    → crc < 256 ^ 4
    → length body ≡ body_size r
    → parse_frame (le_bytes 4 (body_size r) ++ (le_bytes 4 crc ++ (body ++ rest))) ≡ (
        if body_crc (take 8 body) (drop 8 body) == crc
        then with_rest rest (parse_body body)
        else none)
unfolding parse_frame
parse_frame_lem r crc body rest w hc hl =
    rw
      (
        le→ltb _ prefix_bytes room,
        get_int-le_bytes 4 (body_size r) _ small,
        get_int-le_bytes 4 crc _ hc,
        le→ltb (body_size r) fixed_body (body_size-ge r),
        le→ltb max_body_bytes (body_size r) w.fits,
        le→ltb _ (body_size r) enough,
        cut,
      )
      refl
  where
    small : body_size r < 256 ^ 4
    small = omega (arith, w.fits)

    room : prefix_bytes ≤ length (le_bytes 4 (body_size r) ++ (le_bytes 4 crc ++ (body ++ rest)))
    room = simp (length-append, length-le_bytes) (omega arith)

    enough : body_size r ≤ length (body ++ rest)
    enough = simp (length-append, hl) (omega arith)

    cut : view (body_size r) (body ++ rest) ≡ (body, rest)
    cut = rw (← hl) (view-append body rest)

-- A frame reads back as the numbered record, and leaves the bytes behind it.
pub parse_frame-frame :
    (lsn : ℕ) (r : OpRecord) (rest : Bytes)
    → lsn < 2 ^ 64
    → IsWritable r
    → parse_frame (frame lsn r ++ rest) ≡ some (numbered lsn r, rest)
unfolding frame
parse_frame-frame lsn r rest h w =
    rw (append_assoc, append_assoc)
      (parse_frame_lem r crc (frame_body lsn r) rest w (body_crc-lt _ _) (length-frame_body lsn r)
        ∙ rw (head, tail, ==_refl crc) (rw (parse_body_lem lsn r h w)))
  where
    crc : ℕ
    crc = body_crc (le_bytes 8 lsn) (body_tail r)

    head : take 8 (frame_body lsn r) ≡ le_bytes 8 lsn
    head = take-append (le_bytes 8 lsn) (body_tail r) 8 (sym (length-le_bytes 8 lsn))

    tail : drop 8 (frame_body lsn r) ≡ body_tail r
    tail = drop-append (le_bytes 8 lsn) (body_tail r) 8 (sym (length-le_bytes 8 lsn))
