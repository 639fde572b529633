-- ===== src/Record/Encode/Values.antt =====
-- Each value's body is read back under the serial type that encode.rs gives it.
use db_storage.Prelude.{ℕ, ◌+◌, ◌-◌, ◌*◌, ◌/◌, ◌%◌, ◌^◌, ◌≤◌, ◌<◌, ◌≡◌, refl, sym, ◌∙◌}
use db_storage.Prelude.{List, [], ◌∷◌, ◌++◌, length, All, IsU16, arith}
use db_storage.Prelude.{◌==◌, true, false, if◌then◌else◌, Bool-cases, inl, inr}
use db_storage.Prelude.{ok, u64_max, some}
use db_storage.Prelude.{be_bytes, length-be_bytes, from_be-be_bytes}
use db_storage.Record.Value.{Value, null, integer, real, text, blob, is_nan, IsValue}
use db_storage.Record.Value.{TextEncoding, utf8, utf16_le, utf16_be}
use db_storage.Record.Decode.Serial.{decode_serial_value, decode_variable, decode_real}
use db_storage.Record.Decode.Serial.{
  decode_text, decode_utf16, units, le_unit, be_unit, decode_blob, decode_str,
}
use db_storage.Record.Decode.Lengths.{decode_serial_value-variable}
use db_storage.Record.Encode.{serial_type_and_body_len, body, text_body, encoded_text_len}
use db_storage.Record.Encode.{unit_bytes_le, unit_bytes_be, blob_serial_type, text_serial_type}
use db_storage.Record.Encode.Integers.{take_bytes-append, Carries-integer_serial_type}
use db_storage.Text.{IsScalar}
use db_storage.Text.Utf8.{from_utf8-utf8_bytes}
use db_storage.Text.Utf16.{encode_utf16, encode_utf16-IsU16, decode_utf16-encode_utf16}
use db_storage.Text.Utf16 as StdUtf16

-- What a value is read back as: a NaN comes back as `Null`.
unfoldable pub normalise : Value → Value
normalise null = null
normalise (integer i) = integer i
normalise (real bits) = if is_nan bits then null else real bits
normalise (text s) = text s
normalise (blob b) = blob b

abbrev pub serial_type : Value → TextEncoding → ℕ
serial_type value encoding = (serial_type_and_body_len value encoding).0

-- The bytes of a column.
abbrev pub body_of : Value → TextEncoding → List ℕ
body_of value encoding = body value (serial_type value encoding) encoding

length-unit_bytes_le : (us : List ℕ) → length (unit_bytes_le us) ≡ length us * 2
unfolding unit_bytes_le
length-unit_bytes_le [] = refl
length-unit_bytes_le (u ∷ us) = omega (arith, length-unit_bytes_le us)

length-unit_bytes_be : (us : List ℕ) → length (unit_bytes_be us) ≡ length us * 2
unfolding unit_bytes_be
length-unit_bytes_be [] = refl
length-unit_bytes_be (u ∷ us) = omega (arith, length-unit_bytes_be us)

units-unit_bytes_le : (us : List ℕ) → All IsU16 us → units le_unit (unit_bytes_le us) ≡ us
unfolding unit_bytes_le units
units-unit_bytes_le [] h = refl
units-unit_bytes_le (u ∷ us) h =
    let e : u % 256 + 256 * (u / 256) ≡ u = omega arith in rw (e, units-unit_bytes_le us h.1) refl

units-unit_bytes_be : (us : List ℕ) → All IsU16 us → units be_unit (unit_bytes_be us) ≡ us
unfolding unit_bytes_be units
units-unit_bytes_be [] h = refl
units-unit_bytes_be (u ∷ us) h =
    let e : 256 * (u / 256) + u % 256 ≡ u = omega arith in rw (e, units-unit_bytes_be us h.1) refl

-- The text of a column is read back under every encoding.
pub decode_text-text_body :
    (s : List ℕ) (encoding : TextEncoding)
    → All IsScalar s
    → decode_text (text_body s encoding) encoding ≡ ok s
unfolding decode_text text_body decode_utf16
decode_text-text_body s utf8 h = rw (from_utf8-utf8_bytes s h) refl
decode_text-text_body s utf16_le h =
    let us = encode_utf16 s in
    let even : (length (unit_bytes_le us) % 2 == 0) ≡ true =
      ground (arith, length-unit_bytes_le us) in
    let back : StdUtf16.decode_utf16 (units le_unit (unit_bytes_le us)) ≡ some s =
      rw (units-unit_bytes_le us (encode_utf16-IsU16 s h)) (decode_utf16-encode_utf16 s h) in
    rw (even, back) refl
decode_text-text_body s utf16_be h =
    let us = encode_utf16 s in
    let even : (length (unit_bytes_be us) % 2 == 0) ≡ true =
      ground (arith, length-unit_bytes_be us) in
    let back : StdUtf16.decode_utf16 (units be_unit (unit_bytes_be us)) ≡ some s =
      rw (units-unit_bytes_be us (encode_utf16-IsU16 s h)) (decode_utf16-encode_utf16 s h) in
    rw (even, back) refl

-- A text's length, short of saturation.
encoded_text_len_lem :
    (s : List ℕ) (encoding : TextEncoding)
    → length (text_body s encoding) ≤ u64_max
    → encoded_text_len s encoding ≡ length (text_body s encoding)
unfolding encoded_text_len text_body
encoded_text_len_lem s utf8 h = refl
encoded_text_len_lem s utf16_le h = omega (arith, length-unit_bytes_le (encode_utf16 s))
encoded_text_len_lem s utf16_be h = omega (arith, length-unit_bytes_be (encode_utf16 s))

decode_variable-blob :
    (len : ℕ) (buf : List ℕ) (at : ℕ) (encoding : TextEncoding)
    → len < 2 ^ 62
    → decode_variable (12 + 2 * len) buf at encoding ≡ decode_blob buf at len
unfolding decode_variable
decode_variable-blob len buf at encoding h =
    let even : ((12 + 2 * len) % 2 == 0) ≡ true = ground arith in
    let e : (12 + 2 * len + 2 ^ 64 - 12) % 2 ^ 64 / 2 ≡ len = omega arith in rw (even, e) refl

decode_variable-text :
    (len : ℕ) (buf : List ℕ) (at : ℕ) (encoding : TextEncoding)
    → len < 2 ^ 62
    → decode_variable (13 + 2 * len) buf at encoding ≡ decode_str buf at len encoding
unfolding decode_variable
decode_variable-text len buf at encoding h =
    let odd : ((13 + 2 * len) % 2 == 0) ≡ false = ground arith in
    let e : (13 + 2 * len + 2 ^ 64 - 13) % 2 ^ 64 / 2 ≡ len = omega arith in rw (odd, e) refl

module _ (xs zs : List ℕ) (at : ℕ) (ha : at ≡ length xs) where
  decode_real-be_bytes :
      (bits : ℕ)
      → bits < 2 ^ 64
      → at + 8 ≤ u64_max
      → decode_real (xs ++ (be_bytes 8 bits ++ zs)) at
        ≡ ok (if is_nan bits then null else real bits, 8)
  unfolding decode_real
  decode_real-be_bytes bits fits small =
      rw
        (
          take_bytes-append xs (be_bytes 8 bits) zs at 8 ha (sym (length-be_bytes 8 bits)) small,
          from_be-be_bytes 8 bits (omega arith),
        )
        (elim (Bool-cases (is_nan bits)) [ inl e ↦ rw e refl | inr e ↦ rw e refl ])

  -- A column's body between any bytes is read back under its serial type, with its length.
  pub decode_serial_value-body :
      (value : Value) (encoding : TextEncoding)
      → IsValue value
      → length (body_of value encoding) < 2 ^ 62
      → at + length (body_of value encoding) ≤ u64_max
      → decode_serial_value
          (serial_type value encoding)
          (xs ++ (body_of value encoding ++ zs))
          at
          encoding
        ≡ ok (normalise value, length (body_of value encoding))
  unfolding body serial_type_and_body_len normalise
  decode_serial_value-body null encoding h short small = unfold decode_serial_value in refl
  decode_serial_value-body (integer i) encoding h short small =
      Carries-integer_serial_type xs zs at ha encoding i h small
  decode_serial_value-body (real bits) encoding h short small =
      let e = length-be_bytes 8 bits in
      rw e (unfold decode_serial_value in decode_real-be_bytes bits h (rw e at small))
  decode_serial_value-body (blob b) encoding h short small =
      let st : blob_serial_type (length b) ≡ 12 + 2 * length b = omega arith in
      rw st (
        decode_serial_value-variable (12 + 2 * length b) (xs ++ (b ++ zs)) at encoding (omega arith)
        ∙ decode_variable-blob (length b) (xs ++ (b ++ zs)) at encoding short
        ∙ unfold decode_blob in rw (take_bytes-append xs b zs at (length b) ha refl small) refl)
  decode_serial_value-body (text s) encoding h short small =
      let t = text_body s encoding in
      let len = encoded_text_len_lem s encoding (omega arith) in
      let st : text_serial_type (encoded_text_len s encoding) ≡ 13 + 2 * length t =
        omega (arith, len) in
      rw st (
        decode_serial_value-variable (13 + 2 * length t) (xs ++ (t ++ zs)) at encoding (omega arith)
        ∙ decode_variable-text (length t) (xs ++ (t ++ zs)) at encoding short
        ∙ unfold decode_str in
          rw
            (
              take_bytes-append xs t zs at (length t) ha refl small,
              decode_text-text_body s encoding h,
            )
            refl)
