-- ===== src/Record/Decode.antt =====
-- src/row/record/decode.rs: the decoders of columns and of records. `usize` has 64 bits, so
-- `as usize` of a `u64` changes nothing.
pub mod Serial
pub mod Lengths
pub mod Columns
pub mod Single
pub mod Loops
use db_storage.Prelude.{ℕ, zero, suc, ◌+◌, ◌-◌, ◌*◌, ◌/◌, ◌^◌, List, [], ◌∷◌, length}
use db_storage.Prelude.{Option, none, some, get_elem?, take, min, slice_from?, sat_add, ltb, ◌==◌}
use db_storage.Prelude.{if◌then◌else◌, Result, ok, err, ◌>>=◌, ◌>>◌, ok_or, map_err}
use db_storage.Record.Error.{RecordError, unexpected_eof, header_too_short, header_overrun}
use db_storage.Record.Error.{trailing_data, invalid_utf8, invalid_utf16}
use db_storage.Record.Varint.{decode_varint}
use db_storage.Record.Value.{Value, null, TextEncoding}
use Serial.{decode_serial_value, serial_type_len}

unfoldable pub shift_offset : ℕ → RecordError → RecordError
shift_offset pos (unexpected_eof offset) = unexpected_eof (sat_add pos offset)
shift_offset pos (header_too_short declared varint_len) = header_too_short declared varint_len
shift_offset pos (header_overrun offset header_len) = header_overrun offset header_len
shift_offset pos (trailing_data trailing) = trailing_data trailing
shift_offset pos invalid_utf8 = invalid_utf8
shift_offset pos invalid_utf16 = invalid_utf16

unfoldable pub decode_varint_at : List ℕ → ℕ → Result RecordError (ℕ × ℕ)
unfolding shift_offset
decode_varint_at buf pos = do
  slice ← ok_or (slice_from? buf pos) (unexpected_eof pos)
  map_err (shift_offset pos) (decode_varint slice)

-- The header length, with the size of its own varint: how every walk begins.
unfoldable pub declared_header : List ℕ → Result RecordError (ℕ × ℕ)
declared_header payload = do
  (header_len, n) ← decode_varint_at payload 0
  if ltb header_len n then err (header_too_short header_len n) else ok (header_len, n)

-- A header entry: the serial type at `pos`, and where the next entry begins.
unfoldable pub header_entry : List ℕ → ℕ → ℕ → Result RecordError (ℕ × ℕ)
header_entry payload header_len pos = do
  (serial_type, len) ← decode_varint_at payload pos
  if ltb header_len (sat_add pos len)
      then err (header_overrun pos header_len)
      else ok (serial_type, sat_add pos len)

-- `while pos < header_len` of `decode_record`. An entry takes a byte at least, so with
-- `header_len - pos` rounds the test has failed when they are used up.
unfoldable pub serial_types : ℕ → List ℕ → ℕ → ℕ → Result RecordError (List ℕ)
serial_types zero payload header_len pos = ok []
serial_types (suc fuel) payload header_len pos =
    let walk =
      (header_entry payload header_len pos >>= λ (serial_type, next).
      serial_types fuel payload header_len next >>= λ rest. ok (serial_type ∷ rest)) in
    if ltb pos header_len then walk else ok []

-- The values of the columns, and where the last body ends.
unfoldable pub decode_bodies :
    List ℕ → List ℕ → ℕ → TextEncoding → Result RecordError (List Value × ℕ)
decode_bodies [] payload body_pos encoding = ok ([], body_pos)
decode_bodies (serial_type ∷ rest) payload body_pos encoding = do
  (value, len) ← decode_serial_value serial_type payload body_pos encoding
  (values, end_pos) ← decode_bodies rest payload (sat_add body_pos len) encoding
  ok (value ∷ values, end_pos)

unfoldable pub decode_record : List ℕ → TextEncoding → Result RecordError (List Value)
unfolding decode_varint_at declared_header header_entry serial_types decode_bodies
decode_record payload encoding = do
  (header_len, n) ← declared_header payload
  types ← serial_types (header_len - n) payload header_len n
  (values, body_pos) ← decode_bodies types payload header_len encoding
  if body_pos == length payload then ok values else err (trailing_data (length payload - body_pos))

-- The loop of `parse_header_into`: each serial type with the offset of its column's body.
unfoldable pub walk_entries : ℕ → List ℕ → ℕ → ℕ → ℕ → Result RecordError (List (ℕ × ℕ))
walk_entries zero payload header_len pos body_pos = ok []
walk_entries (suc fuel) payload header_len pos body_pos =
    let walk =
      (header_entry payload header_len pos >>= λ (serial_type, next).
      walk_entries fuel payload header_len next (sat_add body_pos (serial_type_len serial_type))
      >>= λ rest. ok ((serial_type, body_pos) ∷ rest)) in
    if ltb pos header_len then walk else ok []

-- `parse_header_into` clears the caller's vector before it fills it, so what the vector held does
-- not matter, and every caller drops it on an error.
unfoldable pub parse_header : List ℕ → Result RecordError (List (ℕ × ℕ))
unfolding decode_varint_at declared_header header_entry walk_entries
parse_header payload = do
  (header_len, n) ← declared_header payload
  walk_entries (header_len - n) payload header_len n header_len

-- The column that a header entry describes; `Value::Null` for a column that is not there.
unfoldable pub decode_entry : Option (ℕ × ℕ) → List ℕ → TextEncoding → Result RecordError Value
decode_entry none payload encoding = ok null
decode_entry (some (serial_type, offset)) payload encoding = do
  (value, len) ← decode_serial_value serial_type payload offset encoding
  ok value

unfoldable pub decode_column : List ℕ → ℕ → TextEncoding → Result RecordError Value
unfolding parse_header decode_entry
decode_column payload idx encoding = do
  entries ← parse_header payload
  decode_entry (get_elem? entries idx) payload encoding

unfoldable pub record_column_count : List ℕ → Result RecordError ℕ
unfolding parse_header
record_column_count payload = do entries ← parse_header payload; ok (length entries)

unfoldable pub decode_entries :
    List (ℕ × ℕ) → List ℕ → TextEncoding → Result RecordError (List Value)
unfolding decode_entry
decode_entries [] payload encoding = ok []
decode_entries (entry ∷ rest) payload encoding = do
  value ← decode_entry (some entry) payload encoding
  values ← decode_entries rest payload encoding
  ok (value ∷ values)

unfoldable pub decode_record_upto : List ℕ → ℕ → TextEncoding → Result RecordError (List Value)
unfolding parse_header decode_entries
decode_record_upto payload max_columns encoding = do
  entries ← parse_header payload
  decode_entries (take (min max_columns (length entries)) entries) payload encoding

-- The loop of `decode_single_column`, which stops at the column that is asked for.
unfoldable pub single_column :
    ℕ → List ℕ → ℕ → ℕ → ℕ → ℕ → ℕ → TextEncoding → Result RecordError Value
single_column zero payload header_len pos body_pos col idx encoding = ok null
single_column (suc fuel) payload header_len pos body_pos col idx encoding =
    let walk =
      (header_entry payload header_len pos >>= λ (serial_type, next).
      let more =
        single_column fuel payload header_len next (sat_add body_pos (serial_type_len serial_type))
          (sat_add col 1) idx encoding in
      if col == idx
      then (decode_serial_value serial_type payload body_pos encoding >>= λ (value, len). ok value)
      else more) in
    if ltb pos header_len then walk else ok null

unfoldable pub decode_single_column : List ℕ → ℕ → TextEncoding → Result RecordError Value
unfolding decode_varint_at declared_header header_entry single_column
decode_single_column payload idx encoding = do
  (header_len, n) ← declared_header payload
  single_column (header_len - n) payload header_len n header_len 0 idx encoding

unfoldable pub decode_wanted :
    List ℕ → List (ℕ × ℕ) → List ℕ → TextEncoding → Result RecordError (List Value)
unfolding decode_entry
decode_wanted [] entries payload encoding = ok []
decode_wanted (idx ∷ rest) entries payload encoding = do
  value ← decode_entry (get_elem? entries idx) payload encoding
  values ← decode_wanted rest entries payload encoding
  ok (value ∷ values)

unfoldable pub walk_wanted : List ℕ → List ℕ → TextEncoding → Result RecordError (List Value)
unfolding parse_header decode_wanted
walk_wanted payload wanted encoding = do
  entries ← parse_header payload
  decode_wanted wanted entries payload encoding

-- A single wanted column takes the path without the vector of entries.
unfoldable pub decode_record_only : List ℕ → List ℕ → TextEncoding → Result RecordError (List Value)
unfolding decode_single_column walk_wanted
decode_record_only payload [] encoding = walk_wanted payload [] encoding
decode_record_only payload (only ∷ []) encoding = do
  value ← decode_single_column payload only encoding
  ok (value ∷ [])
decode_record_only payload (idx ∷ idx' ∷ rest) encoding =
    walk_wanted payload (idx ∷ idx' ∷ rest) encoding
