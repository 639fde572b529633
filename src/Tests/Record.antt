-- ===== src/Tests/Record.antt =====
-- src/row/record: records of a few columns.
use db_storage.Prelude.{ℕ, ◌+◌, ◌≡◌, refl, List, [], ◌∷◌, map, length, ok, arith}
use db_storage.Prelude.{negsuc, slice?, slice_from?}
use db_storage.Record.Value.{Value, null, integer, text, blob, utf8}
use db_storage.Record.Varint.{encode_varint, decode_varint}
use db_storage.Record.Decode.{decode_record, decode_column, decode_record_upto}
use db_storage.Record.Decode.{decode_record_only, serial_types}
use db_storage.Record.Decode.Serial.{decode_serial_value, serial_type_len}
use db_storage.Record.Decode.Lengths.{decode_serial_value-len}
use db_storage.Record.Decode.Columns.{decode_column-decode_record}
use db_storage.Record.Decode.Columns.{decode_record_upto-decode_record}
use db_storage.Record.Decode.Single.{decode_record_only-decode_record}
use db_storage.Record.Decode.Loops.{serial_types-enough}
use db_storage.Record.Encode.{encode_record, header_length}
use db_storage.Record.Encode.Header.{header_length_lem}
use db_storage.Record.Encode.Values.{normalise}
use db_storage.Record.RoundTrip.{decode_record-encode_record}

-- A negative number, a text with a character of two bytes, a blob, and no value.
abbrev values : List Value
values = integer (negsuc 299) ∷ text (0x68 ∷ 0xe9 ∷ []) ∷ blob (1 ∷ 2 ∷ []) ∷ null ∷ []

-- The same record in bytes.
abbrev payload : List ℕ
payload = 5 ∷ 2 ∷ 19 ∷ 16 ∷ 0 ∷ 0xfe ∷ 0xd4 ∷ 0x68 ∷ 0xc3 ∷ 0xa9 ∷ 1 ∷ 2 ∷ []

decode_record-encode_record_example :
    decode_record (encode_record values utf8) utf8 ≡ ok (map normalise values)
decode_record-encode_record_example =
    decode_record-encode_record values utf8
      (
        omega arith,
        ((omega arith, (omega arith, tt)), ((omega arith, (omega arith, tt)), (tt, tt))),
      )
      (unfold encode_record in omega arith)

decoded : decode_record payload utf8 ≡ ok values
unfolding decode_record slice_from? decode_varint decode_serial_value slice?
decoded = refl

decode_column-decode_record_example : decode_column payload 1 utf8 ≡ ok (text (0x68 ∷ 0xe9 ∷ []))
decode_column-decode_record_example = decode_column-decode_record payload 1 utf8 values decoded

decode_record_upto-decode_record_example :
    decode_record_upto payload 1 utf8 ≡ ok (integer (negsuc 299) ∷ [])
decode_record_upto-decode_record_example =
    decode_record_upto-decode_record payload 1 utf8 values decoded

-- A column that is there and one that is not.
decode_record_only-decode_record_example :
    decode_record_only payload (2 ∷ 9 ∷ []) utf8 ≡ ok (blob (1 ∷ 2 ∷ []) ∷ null ∷ [])
decode_record_only-decode_record_example =
    decode_record_only-decode_record payload (2 ∷ 9 ∷ []) utf8 values
      (omega arith, (omega arith, tt)) decoded

decode_serial_value-len_example : 2 ≡ serial_type_len 2
decode_serial_value-len_example =
    decode_serial_value-len 2 payload 5 utf8 (integer (negsuc 299)) 2
      (unfold decode_serial_value slice? in refl)

-- The body of 127 bytes is the first for which the header's own length takes two bytes.
header_length_lem_example : length (encode_varint (header_length 127)) + 127 ≡ header_length 127
header_length_lem_example = header_length_lem 127 (omega arith)

serial_types-enough_example : serial_types 5 payload 5 1 ≡ serial_types 4 payload 5 1
serial_types-enough_example = serial_types-enough 4 payload 5 1 (omega arith) (omega arith)
