-- ===== src/Record/Encode.antt =====
-- src/row/record/encode.rs: values into record payloads. What the source appends to its output
-- vector is what these functions return.
pub mod Integers
pub mod Header
pub mod Values
use db_storage.Prelude.{
  ℕ, zero, suc, ◌+◌, ◌*◌, ◌/◌, ◌%◌, ◌^◌, List, [], ◌∷◌, ◌++◌, length, drop, map,
}
use db_storage.Prelude.{sat_add, sat_mul, be_bytes, ◌==◌, ltb, if◌then◌else◌, ◌&&◌, not}
use db_storage.Prelude.{ℤ, pos, negsuc, bits64, in_width}
use db_storage.Record.Varint.{encode_varint, varint_len}
use db_storage.Record.Value.{Value, null, integer, real, text, blob}
use db_storage.Record.Value.{TextEncoding, utf8, utf16_le, utf16_be}
use db_storage.Text.Utf8.{utf8_bytes}
use db_storage.Text.Utf16.{encode_utf16}
use mathlib.Core.Bool.{Bool, false}

pub is_pos : ℤ → ℕ → Bool
is_pos (pos n) k = n == k
is_pos (negsuc n) k = false

-- `try_from(i).is_ok()` and the `contains` of the 24-bit and 48-bit ranges are `in_width`.
unfoldable pub integer_serial_type : ℤ → ℕ
unfolding is_pos
integer_serial_type i =
    if is_pos i 0
    then 8
    else if is_pos i 1
    then 9
    else if in_width (2 ^ 7) i
    then 1
    else if in_width (2 ^ 15) i
    then 2
    else if in_width (2 ^ 23) i
    then 3
    else if in_width (2 ^ 31) i
    then 4
    else if in_width (2 ^ 47) i
    then 5
    else 6

-- The source has 5 for the 6 bytes of serial type 5; only a capacity is computed from it.
unfoldable pub integer_body_len : ℕ → ℕ
integer_body_len serial_type =
    if serial_type == 1
    then 1
    else if serial_type == 2
    then 2
    else if serial_type == 3
    then 3
    else if serial_type == 4
    then 4
    else if serial_type == 5
    then 5
    else if serial_type == 6
    then 8
    else 0

-- `i as i8`, `i as i16` and `i as i32` keep the low bits; `[5..8]` and `[2..8]` of the 8 bytes.
unfoldable pub integer_body : ℤ → ℕ → List ℕ
unfolding bits64 be_bytes
integer_body i serial_type =
    if serial_type == 1
    then (bits64 i % 2 ^ 8) ∷ []
    else if serial_type == 2
    then be_bytes 2 (bits64 i % 2 ^ 16)
    else if serial_type == 3
    then drop 5 (be_bytes 8 (bits64 i))
    else if serial_type == 4
    then be_bytes 4 (bits64 i % 2 ^ 32)
    else if serial_type == 5
    then drop 2 (be_bytes 8 (bits64 i))
    else if serial_type == 6
    then be_bytes 8 (bits64 i)
    else []

unfoldable pub encoded_text_len : List ℕ → TextEncoding → ℕ
unfolding utf8_bytes encode_utf16
encoded_text_len s utf8 = length (utf8_bytes s)
encoded_text_len s utf16_le = sat_mul (length (encode_utf16 s)) 2
encoded_text_len s utf16_be = sat_mul (length (encode_utf16 s)) 2

-- `flat_map(|u| u.to_le_bytes())` and `flat_map(|u| u.to_be_bytes())`
unfoldable pub unit_bytes_le : List ℕ → List ℕ
unit_bytes_le [] = []
unit_bytes_le (u ∷ us) = (u % 256) ∷ (u / 256) ∷ unit_bytes_le us

unfoldable pub unit_bytes_be : List ℕ → List ℕ
unit_bytes_be [] = []
unit_bytes_be (u ∷ us) = (u / 256) ∷ (u % 256) ∷ unit_bytes_be us

unfoldable pub text_body : List ℕ → TextEncoding → List ℕ
unfolding utf8_bytes encode_utf16 unit_bytes_le unit_bytes_be
text_body s utf8 = utf8_bytes s
text_body s utf16_le = unit_bytes_le (encode_utf16 s)
text_body s utf16_be = unit_bytes_be (encode_utf16 s)

abbrev pub blob_serial_type : ℕ → ℕ
blob_serial_type len = sat_add 12 (sat_mul 2 len)

abbrev pub text_serial_type : ℕ → ℕ
text_serial_type len = sat_add 13 (sat_mul 2 len)

unfoldable pub serial_type_and_body_len : Value → TextEncoding → ℕ × ℕ
unfolding integer_serial_type integer_body_len encoded_text_len
serial_type_and_body_len null encoding = (0, 0)
serial_type_and_body_len (integer i) encoding =
    (integer_serial_type i, integer_body_len (integer_serial_type i))
serial_type_and_body_len (real bits) encoding = (7, 8)
serial_type_and_body_len (blob b) encoding = (blob_serial_type (length b), length b)
serial_type_and_body_len (text s) encoding =
    (text_serial_type (encoded_text_len s encoding), encoded_text_len s encoding)

unfoldable pub body : Value → ℕ → TextEncoding → List ℕ
unfolding integer_body text_body be_bytes
body null serial_type encoding = []
body (integer i) serial_type encoding = integer_body i serial_type
body (real bits) serial_type encoding = be_bytes 8 bits
body (blob b) serial_type encoding = b
body (text s) serial_type encoding = text_body s encoding

-- The serial types of the columns; the body lengths beside them only size the output buffer.
unfoldable pub column_types : List Value → TextEncoding → List (ℕ × ℕ)
unfolding serial_type_and_body_len
column_types [] encoding = []
column_types (value ∷ rest) encoding =
    serial_type_and_body_len value encoding ∷ column_types rest encoding

unfoldable pub header_body_len : ℕ → List (ℕ × ℕ) → ℕ
unfolding varint_len
header_body_len sum [] = sum
header_body_len sum ((st, len) ∷ rest) = header_body_len (sat_add sum (varint_len st)) rest

-- `while varint_len(header_len) + header_body_len != header_len { header_len += 1 }`, on fuel.
unfoldable pub grow_header : ℕ → ℕ → ℕ → ℕ
unfolding varint_len
grow_header zero body_len header_len = header_len
grow_header (suc fuel) body_len header_len =
    let more = grow_header fuel body_len (sat_add header_len 1) in
    if sat_add (varint_len header_len) body_len == header_len then header_len else more

-- The loop makes at most eight rounds, since a varint has at most nine bytes.
unfoldable pub header_length : ℕ → ℕ
unfolding grow_header
header_length body_len = grow_header 9 body_len (sat_add body_len 1)

unfoldable pub header_types : List (ℕ × ℕ) → List ℕ
unfolding encode_varint
header_types [] = []
header_types ((st, len) ∷ rest) = encode_varint st ++ header_types rest

-- The loop over `values.iter().zip(serial_types.iter())`.
unfoldable pub bodies : List Value → List (ℕ × ℕ) → TextEncoding → List ℕ
unfolding body
bodies [] types encoding = []
bodies (value ∷ values) [] encoding = []
bodies (value ∷ values) ((st, len) ∷ rest) encoding =
    body value st encoding ++ bodies values rest encoding

unfoldable pub encode_record : List Value → TextEncoding → List ℕ
unfolding column_types header_body_len header_length header_types bodies encode_varint
encode_record values encoding =
    let types = column_types values encoding in
    encode_varint (header_length (header_body_len 0 types))
    ++ (header_types types ++ bodies values types encoding)
