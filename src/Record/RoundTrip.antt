-- ===== src/Record/RoundTrip.antt =====
-- `decode_record` reads back what `encode_record` wrote.
use db_storage.Prelude.{ℕ, zero, suc, ◌+◌, ◌-◌, ◌^◌, ◌≤◌, ◌<◌, ◌≡◌, refl, ap}
use db_storage.Prelude.{List, [], ◌∷◌, ◌++◌, length, arith, u64_max, sat_add, length-append}
use db_storage.Prelude.{◌==◌, true, lt→ltb, le→ltb, ==_iff, map, All}
use db_storage.Prelude.{ok, slice_from?-append, append_assoc, IsU64}
use db_storage.Record.Value.{Value, null, integer, real, text, blob, TextEncoding, IsValue}
use db_storage.Record.Varint.{encode_varint}
use db_storage.Record.Varint.RoundTrip.{decode_varint-encode_varint, length-encode_varint}
use db_storage.Record.Decode.{decode_varint_at, declared_header, header_entry, serial_types}
use db_storage.Record.Decode.{decode_bodies, decode_record}
use db_storage.Record.Encode.{
  header_body_len, header_length, header_types, column_types, bodies, encode_record,
}
use db_storage.Record.Encode.{serial_type_and_body_len, integer_serial_type}
use db_storage.Record.Encode.Header.{header_length_lem, header_body_len_lem, varint_len_bounds}
use db_storage.Record.Encode.Values.{normalise, serial_type, body_of, decode_serial_value-body}

-- A varint between any bytes.
decode_varint_at-append :
    (xs zs : List ℕ) (at v : ℕ)
    → at ≡ length xs
    → IsU64 v
    → decode_varint_at (xs ++ (encode_varint v ++ zs)) at ≡ ok (v, length (encode_varint v))
unfolding decode_varint_at
decode_varint_at-append xs zs at v ha fits =
    rw (slice_from?-append xs (encode_varint v ++ zs) at ha, decode_varint-encode_varint v zs fits)
      refl

serial_type-IsU64 : (value : Value) (encoding : TextEncoding) → IsU64 (serial_type value encoding)
unfolding serial_type_and_body_len integer_serial_type
serial_type-IsU64 null encoding = omega arith
serial_type-IsU64 (integer i) encoding = ground arith
serial_type-IsU64 (real bits) encoding = omega arith
serial_type-IsU64 (text s) encoding = omega arith
serial_type-IsU64 (blob b) encoding = omega arith

-- The declared header of a payload that begins with its varint.
declared_header-append :
    (header_len : ℕ) (rest : List ℕ)
    → IsU64 header_len
    → length (encode_varint header_len) ≤ header_len
    → declared_header (encode_varint header_len ++ rest)
      ≡ ok (header_len, length (encode_varint header_len))
unfolding declared_header
declared_header-append header_len rest fits long =
    rw
      (
        decode_varint_at-append [] rest 0 header_len refl fits,
        le→ltb header_len (length (encode_varint header_len)) long,
      )
      refl

header_entry-append :
    (xs zs : List ℕ) (at st header_len : ℕ)
    → at ≡ length xs
    → IsU64 st
    → at + length (encode_varint st) ≤ header_len
    → header_len ≤ u64_max
    → header_entry (xs ++ (encode_varint st ++ zs)) header_len at
      ≡ ok (st, at + length (encode_varint st))
unfolding header_entry
header_entry-append xs zs at st header_len ha fits inside small =
    let step : sat_add at (length (encode_varint st)) ≡ at + length (encode_varint st) =
      omega arith in
    rw
      (
        decode_varint_at-append xs zs at st ha fits,
        step,
        le→ltb header_len (at + length (encode_varint st)) inside,
      )
      refl

abbrev types_of : List Value → TextEncoding → List ℕ
types_of values encoding = map (λ v. serial_type v encoding) values

-- The walk over the serial types, which begin at `at` and end the header.
serial_types-header_types :
    (values : List Value) (encoding : TextEncoding) (fuel : ℕ) (xs zs : List ℕ) (at header_len : ℕ)
    → at ≡ length xs
    → header_len ≡ at + length (header_types (column_types values encoding))
    → header_len ≤ u64_max
    → header_len - at ≤ fuel
    → serial_types fuel (xs ++ (header_types (column_types values encoding) ++ zs)) header_len at
      ≡ ok (types_of values encoding)
unfolding serial_types header_types column_types
serial_types-header_types [] encoding zero xs zs at header_len ha total small enough = refl
serial_types-header_types [] encoding (suc fuel) xs zs at header_len ha total small enough =
    rw (le→ltb at header_len (omega arith)) refl
serial_types-header_types (value ∷ values) encoding zero xs zs at header_len ha total small enough =
    let st = serial_type value encoding in
    absurd (
      omega (
        arith,
        length-append (encode_varint st) (header_types (column_types values encoding)),
        length-encode_varint st,
        varint_len_bounds st,
      ))
serial_types-header_types (value ∷ values) encoding (suc fuel) xs zs at header_len ha total small
      enough =
    let st = serial_type value encoding in
    let one = encode_varint st in
    let more = header_types (column_types values encoding) in
    let sizes = length-append one more in
    let size = length-encode_varint st in
    let bounds = varint_len_bounds st in
    let entry =
      header_entry-append xs (more ++ zs) at st header_len ha (serial_type-IsU64 value encoding)
        (omega arith) small in
    let rest =
      serial_types-header_types values encoding fuel (xs ++ one) zs (at + length one) header_len
        (omega (arith, length-append xs one)) (omega arith) small (omega arith) in
    rw
      (
        lt→ltb at header_len (omega arith),
        append_assoc one more zs,
        entry,
        ← append_assoc xs one (more ++ zs),
        rest,
      )
      refl

-- The bodies behind the header, in order; the last one ends the payload.
decode_bodies-bodies :
    (values : List Value) (encoding : TextEncoding) (xs : List ℕ) (at : ℕ)
    → All IsValue values
    → at ≡ length xs
    → at + length (bodies values (column_types values encoding) encoding) < 2 ^ 62
    → decode_bodies
        (types_of values encoding)
        (xs ++ bodies values (column_types values encoding) encoding)
        at
        encoding
      ≡ ok (
        map normalise values,
        at + length (bodies values (column_types values encoding) encoding),
      )
unfolding decode_bodies bodies column_types
decode_bodies-bodies [] encoding xs at valid ha small =
    let e : at ≡ at + 0 = omega arith in ap (λ k. ok ([], k)) e
decode_bodies-bodies (value ∷ values) encoding xs at valid ha small =
    let one = body_of value encoding in
    let more = bodies values (column_types values encoding) encoding in
    let sizes = length-append one more in
    let step : sat_add at (length one) ≡ at + length one = omega arith in
    let first =
      decode_serial_value-body xs more at ha value encoding valid.0 (omega arith) (omega arith) in
    let rest =
      decode_bodies-bodies values encoding (xs ++ one) (at + length one) valid.1
        (omega (arith, length-append xs one)) (omega arith) in
    let total : at + length one + length more ≡ at + length (one ++ more) = omega arith in
    rw (first, step, ← append_assoc xs one more, rest, total) refl

-- Decoding an encoded record returns its values, a NaN as `Null`, where every payload is one of its
-- Rust type and the record is shorter than 2 ^ 62 bytes.
pub decode_record-encode_record :
    (values : List Value) (encoding : TextEncoding)
    → All IsValue values
    → length (encode_record values encoding) < 2 ^ 62
    → decode_record (encode_record values encoding) encoding ≡ ok (map normalise values)
unfolding decode_record encode_record
decode_record-encode_record values encoding valid small =
    let types = column_types values encoding in
    let h = header_types types in
    let b = bodies values types encoding in
    let sum = header_body_len 0 types in
    let hl = header_length sum in
    let v = encode_varint hl in
    let outer = length-append v (h ++ b) in
    let inner = length-append h b in
    let same : sum ≡ 0 + length h = header_body_len_lem 0 types (omega arith) in
    let declared : length v + sum ≡ hl = header_length_lem sum (omega arith) in
    let start = declared_header-append hl (h ++ b) (omega arith) (omega arith) in
    let walk =
      serial_types-header_types values encoding (hl - length v) v b (length v) hl refl (omega arith)
        (omega arith) (omega arith) in
    let front : length (v ++ h) ≡ hl = omega (arith, length-append v h) in
    let read = decode_bodies-bodies values encoding (v ++ h) hl valid (omega arith) (omega arith) in
    let end : (hl + length b == length (v ++ (h ++ b))) ≡ true = (==_iff _ _).1 (omega arith) in
    rw (start, walk, ← append_assoc v h b, read) (rw (append_assoc v h b, end) refl)
