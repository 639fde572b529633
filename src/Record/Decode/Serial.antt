-- ===== src/Record/Decode/Serial.antt =====
-- src/row/record/decode.rs: the length and the value of one column body.
use db_storage.Prelude.{ℕ, ◌+◌, ◌-◌, ◌*◌, ◌/◌, ◌%◌, ◌^◌, List, [], ◌∷◌, length, not}
use db_storage.Prelude.{slice?, u64_max, from_be, bit_and, bit_or, ltb, ◌==◌}
use db_storage.Prelude.{if◌then◌else◌, ◌||◌, Result, ok, err, ◌>>=◌, ok_or}
use db_storage.Prelude.{ℤ, signed, sub_ℕ}
use db_storage.Record.Error.{RecordError, unexpected_eof, invalid_utf8, invalid_utf16}
use db_storage.Record.Value.{Value, null, integer, real, text, blob, is_nan}
use db_storage.Record.Value.{TextEncoding, utf8, utf16_le, utf16_be}
use db_storage.Text.Utf8.{from_utf8}
use db_storage.Text.Utf16 as StdUtf16

unfoldable pub serial_type_len : ℕ → ℕ
serial_type_len n =
    if n == 0 || (n == 8 || (n == 9 || (n == 10 || n == 11)))
    then 0
    else if n == 1
    then 1
    else if n == 2
    then 2
    else if n == 3
    then 3
    else if n == 4
    then 4
    else if n == 5
    then 6
    else if n == 6 || n == 7
    then 8
    else if n % 2 == 0
    then (n + 2 ^ 64 - 12) % 2 ^ 64 / 2
    else (n + 2 ^ 64 - 13) % 2 ^ 64 / 2

-- `take`, and `take_array`, whose slice has the length of the array.
unfoldable pub take_bytes : List ℕ → ℕ → ℕ → Result RecordError (List ℕ)
take_bytes buf pos len =
    if ltb u64_max (pos + len)
    then err (unexpected_eof pos)
    else ok_or (slice? buf pos (pos + len)) (unexpected_eof pos)

-- `((b0 as i64) << 16) | ((b1 as i64) << 8) | (b2 as i64)`, with the sign of 24 bits. The array
-- pattern has three bytes.
unfoldable pub i24 : List ℕ → ℤ
i24 (b0 ∷ b1 ∷ b2 ∷ []) =
    let v = bit_or (bit_or (b0 * 2 ^ 16) (b1 * 2 ^ 8)) b2 in
    if not (bit_and b0 0x80 == 0) then sub_ℕ v (2 ^ 24) else ℤ.pos v
i24 bytes = ℤ.pos 0

-- `for byte in bytes { v = (v << 8) | byte as i64 }`
unfoldable pub shift_in : ℕ → List ℕ → ℕ
shift_in v [] = v
shift_in v (byte ∷ rest) = shift_in (bit_or (v * 2 ^ 8) byte) rest

-- The same with the sign of 48 bits; the array has six bytes.
unfoldable pub i48 : List ℕ → ℤ
unfolding shift_in
i48 [] = ℤ.pos 0
i48 (b0 ∷ rest) =
    let v = shift_in 0 (b0 ∷ rest) in
    if not (bit_and b0 0x80 == 0) then sub_ℕ v (2 ^ 48) else ℤ.pos v

-- `bytes.as_chunks::<2>()` with `u16::from_le_bytes` or `u16::from_be_bytes`; an odd byte at the
-- end is dropped.
unfoldable pub units : (ℕ → ℕ → ℕ) → List ℕ → List ℕ
units unit [] = []
units unit (a ∷ []) = []
units unit (a ∷ b ∷ rest) = unit a b ∷ units unit rest

abbrev pub le_unit : ℕ → ℕ → ℕ
le_unit a b = a + 256 * b

abbrev pub be_unit : ℕ → ℕ → ℕ
be_unit a b = 256 * a + b

unfoldable pub decode_utf16 : List ℕ → (ℕ → ℕ → ℕ) → Result RecordError (List ℕ)
unfolding units StdUtf16.decode_utf16
decode_utf16 bytes unit =
    if not (length bytes % 2 == 0)
    then err invalid_utf16
    else ok_or (StdUtf16.decode_utf16 (units unit bytes)) invalid_utf16

unfoldable pub decode_text : List ℕ → TextEncoding → Result RecordError (List ℕ)
unfolding from_utf8 decode_utf16
decode_text bytes utf8 = ok_or (from_utf8 bytes) invalid_utf8
decode_text bytes utf16_le = decode_utf16 bytes le_unit
decode_text bytes utf16_be = decode_utf16 bytes be_unit

-- A fixed-width integer.
unfoldable pub fixed : List ℕ → ℕ → ℕ → (List ℕ → ℤ) → Result RecordError (Value × ℕ)
unfolding take_bytes
fixed buf pos width read = do b ← take_bytes buf pos width; ok (integer (read b), width)

unfoldable pub decode_real : List ℕ → ℕ → Result RecordError (Value × ℕ)
unfolding take_bytes
decode_real buf pos = do
  b ← take_bytes buf pos 8
  if is_nan (from_be b) then ok (null, 8) else ok (real (from_be b), 8)

unfoldable pub decode_blob : List ℕ → ℕ → ℕ → Result RecordError (Value × ℕ)
unfolding take_bytes
decode_blob buf pos len = do bytes ← take_bytes buf pos len; ok (blob bytes, len)

unfoldable pub decode_str : List ℕ → ℕ → ℕ → TextEncoding → Result RecordError (Value × ℕ)
unfolding take_bytes decode_text
decode_str buf pos len encoding = do
  bytes ← take_bytes buf pos len
  s ← decode_text bytes encoding
  ok (text s, len)

-- The serial types from 12 on: `n.wrapping_sub(12) / 2` bytes of a blob, or
-- `n.wrapping_sub(13) / 2` bytes of text.
unfoldable pub decode_variable : ℕ → List ℕ → ℕ → TextEncoding → Result RecordError (Value × ℕ)
unfolding decode_blob decode_str
decode_variable n buf pos encoding =
    if n % 2 == 0
    then decode_blob buf pos ((n + 2 ^ 64 - 12) % 2 ^ 64 / 2)
    else decode_str buf pos ((n + 2 ^ 64 - 13) % 2 ^ 64 / 2) encoding

unfoldable pub decode_serial_value : ℕ → List ℕ → ℕ → TextEncoding → Result RecordError (Value × ℕ)
unfolding fixed decode_real decode_variable i24 i48 from_be
decode_serial_value n buf pos encoding =
    if n == 0
    then ok (null, 0)
    else if n == 1
    then fixed buf pos 1 (λ b. signed (2 ^ 7) (2 ^ 8) (from_be b))
    else if n == 2
    then fixed buf pos 2 (λ b. signed (2 ^ 15) (2 ^ 16) (from_be b))
    else if n == 3
    then fixed buf pos 3 i24
    else if n == 4
    then fixed buf pos 4 (λ b. signed (2 ^ 31) (2 ^ 32) (from_be b))
    else if n == 5
    then fixed buf pos 6 i48
    else if n == 6
    then fixed buf pos 8 (λ b. signed (2 ^ 63) (2 ^ 64) (from_be b))
    else if n == 7
    then decode_real buf pos
    else if n == 8
    then ok (integer (ℤ.pos 0), 0)
    else if n == 9
    then ok (integer (ℤ.pos 1), 0)
    else if n == 10 || n == 11
    then ok (null, 0)
    else decode_variable n buf pos encoding
