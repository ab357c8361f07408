-- ===== src/OpLog/Record.antt =====
-- A log record and its bytes: the body that `OpLog::Append` fills and the frame that `OpLog::Scan`
-- reads back.
use aster_vec.Base.{
  ℕ, ◌+◌, ◌-◌, ◌*◌, ◌≤◌, ◌<◌, ◌^◌, ◌||◌, ◌++◌, Option, none, some, length, take, drop, ltb, ◌==◌,
  if◌then◌else◌,
}
use aster_vec.Base.Bytes.{Bytes, le_bytes, le_value}
use aster_vec.Crc.{init, update_crc, finish}

-- The values of `OpType`; a record read from disk may hold any byte there.
abbrev pub op_insert : ℕ
op_insert = 1

abbrev pub op_update : ℕ
op_update = 2

abbrev pub op_delete : ℕ
op_delete = 3

abbrev pub op_abort : ℕ
op_abort = 4

pub record OpRecord : Type 0 where
  pub lsn : ℕ
  pub op : ℕ
  pub encoding : ℕ
  pub real_id : ℕ
  pub internal_id : ℕ
  pub aux : ℕ
  pub vector : Bytes
  pub key : Bytes
  pub payload : Bytes

abbrev pub prefix_bytes : ℕ
prefix_bytes = 8

abbrev pub fixed_body : ℕ
fixed_body = 8 + 1 + 1 + 8 + 8 + 8 + 4 + 4 + 4

abbrev pub max_body_bytes : ℕ
max_body_bytes = 64 * 2 ^ 20

unfoldable pub body_size : OpRecord → ℕ
body_size r = fixed_body + length r.vector + length r.key + length r.payload

-- The body behind the lsn.
unfoldable pub body_tail : OpRecord → Bytes
body_tail r =
    le_bytes 1 r.op
    ++ (le_bytes 1 r.encoding
        ++ (le_bytes 8 r.real_id
            ++ (le_bytes 8 r.internal_id
                ++ (le_bytes 8 r.aux
                    ++ (le_bytes 4 (length r.vector)
                        ++ (r.vector
                            ++ (le_bytes 4 (length r.key)
                                ++ (r.key ++ (le_bytes 4 (length r.payload) ++ r.payload)))))))))

-- The checksum runs over the tail of the body first, then over the lsn.
unfoldable pub body_crc : Bytes → Bytes → ℕ
body_crc lsn tail = finish (update_crc (update_crc init tail) lsn)

-- What `Append` hands to `writeAll` for a record that gets the number `lsn`.
unfoldable pub frame : ℕ → OpRecord → Bytes
frame lsn r =
    le_bytes 4 (body_size r)
    ++ (le_bytes 4 (body_crc (le_bytes 8 lsn) (body_tail r)) ++ (le_bytes 8 lsn ++ body_tail r))

-- `get<T>(p)` for a T of `k` bytes: the value, and where `p` stands then.
unfoldable pub get_int : ℕ → Bytes → ℕ × Bytes
get_int k p = (le_value (take k p), drop k p)

-- `std::string_view(p, n)`, and `p += n`.
unfoldable pub view : ℕ → Bytes → Bytes × Bytes
view n p = (take n p, drop n p)

-- The fields behind `aux`. `length p` is `end - p`: at least 8 at the first test and at least 4 at
-- the second, so the subtractions do not wrap.
unfoldable pub parse_fields : (Bytes → Bytes → Bytes → OpRecord) → Bytes → Option OpRecord
parse_fields build p =
    let (rec_len, p1) = get_int 4 p in
    if ltb (length p1 - 8) rec_len
    then none
    else (let (vector, p2) = view rec_len p1 in
        let (key_len, p3) = get_int 4 p2 in
        if ltb (length p3 - 4) key_len
        then none
        else (let (key, p4) = view key_len p3 in
            let (pay_len, p5) = get_int 4 p4 in
            if pay_len == length p5 then some (build vector key (view pay_len p5).0) else none))

unfoldable pub parse_body : Bytes → Option OpRecord
parse_body body =
    let (lsn, p1) = get_int 8 body in
    let (op, p2) = get_int 1 p1 in
    let (encoding, p3) = get_int 1 p2 in
    let (real_id, p4) = get_int 8 p3 in
    let (internal_id, p5) = get_int 8 p4 in
    let (aux, p6) = get_int 8 p5 in
    parse_fields
      (λ vector key payload. record {
        lsn = lsn;
        op = op;
        encoding = encoding;
        real_id = real_id;
        internal_id = internal_id;
        aux = aux;
        vector = vector;
        key = key;
        payload = payload;
      })
      p6

abbrev pub with_rest : Bytes → Option OpRecord → Option (OpRecord × Bytes)
with_rest rest none = none
with_rest rest (some r) = some (r, rest)

-- One round of the inner loop of `Scan` on the bytes from `pos` to the end of the file: the record
-- and the bytes behind it, or `none` where the loop breaks.
unfoldable pub parse_frame : Bytes → Option (OpRecord × Bytes)
parse_frame rest =
    if ltb (length rest) prefix_bytes
    then none
    else (let (body_len, p) = get_int 4 rest in
        let (crc, after) = get_int 4 p in
        if ltb body_len fixed_body || ltb max_body_bytes body_len || ltb (length after) body_len
        then none
        else (let (body, rest') = view body_len after in
            if body_crc (take 8 body) (drop 8 body) == crc
            then with_rest rest' (parse_body body)
            else none))

-- The fields of a record that a writer fills: each within its width, the whole within the limit.
pub record IsWritable (r : OpRecord) : Type 0 where
  pub op_byte : r.op < 256
  pub encoding_byte : r.encoding < 256
  pub real_word : r.real_id < 2 ^ 64
  pub internal_word : r.internal_id < 2 ^ 64
  pub aux_word : r.aux < 2 ^ 64
  pub fits : body_size r ≤ max_body_bytes

-- The record as the log numbers it.
abbrev pub numbered : ℕ → OpRecord → OpRecord
numbered n r = record r { lsn = n }
