-- ===== src/Record/Decode/Columns.antt =====
-- The decoders of single columns agree with `decode_record`.
use db_storage.Prelude.{ℕ, zero, suc, ◌-◌, ◌≡◌, refl, ap}
use db_storage.Prelude.{
  List, [], ◌∷◌, length, arith, min, sat_add, get_elem?, get_or, take, take-min, map,
}
use db_storage.Prelude.{ltb, Bool-cases, inl, inr}
use db_storage.Prelude.{ok, ◌>>=◌, >>=-eq-ok, Result-cases}
use db_storage.Record.Value.{Value, null, TextEncoding}
use db_storage.Record.Decode.{
  declared_header, header_entry, serial_types, decode_bodies, decode_record,
}
use db_storage.Record.Decode.{
  walk_entries, parse_header, decode_entry, decode_column, record_column_count,
}
use db_storage.Record.Decode.{decode_entries, decode_record_upto}
use db_storage.Record.Decode.{decode_wanted}
use db_storage.Record.Decode.Lengths.{decode_serial_value-len}
use db_storage.Record.Decode.Serial.{serial_type_len, decode_serial_value}

-- The entries of the header are the serial types with the offsets of their bodies.
pub offsets : ℕ → List ℕ → List (ℕ × ℕ)
offsets body_pos [] = []
offsets body_pos (st ∷ rest) = (st, body_pos) ∷ offsets (sat_add body_pos (serial_type_len st)) rest

length-offsets : (body_pos : ℕ) (types : List ℕ) → length (offsets body_pos types) ≡ length types
unfolding offsets
length-offsets body_pos [] = refl
length-offsets body_pos (st ∷ rest) =
    ap suc (length-offsets (sat_add body_pos (serial_type_len st)) rest)

walk_entries-serial_types :
    (fuel : ℕ) (payload : List ℕ) (header_len pos body_pos : ℕ)
    → walk_entries fuel payload header_len pos body_pos
      ≡ (serial_types fuel payload header_len pos >>= λ types. ok (offsets body_pos types))
unfolding walk_entries serial_types offsets
walk_entries-serial_types zero payload header_len pos body_pos = refl
walk_entries-serial_types (suc fuel) payload header_len pos body_pos =
    elim (Bool-cases (ltb pos header_len)) [
      | inr done ↦ rw done refl
      | inl more ↦ rw more (elim (Result-cases (header_entry payload header_len pos)) [
        | inr (x, e) ↦ rw e refl
        | inl ((st, next), e) ↦
            let ih =
              walk_entries-serial_types fuel payload header_len next
                (sat_add body_pos (serial_type_len st)) in
            rw (e, ih)
              (elim (Result-cases (serial_types fuel payload header_len next)) [
                | inl (types, k) ↦ rw k refl
                | inr (x, k) ↦ rw k refl
              ])
      ])
    ]

-- What a successful `decode_record` went through.
pub record Decoded (payload : List ℕ) (encoding : TextEncoding) (values : List Value) : Type 0 where
  pub header_len : ℕ
  pub varint_size : ℕ
  pub types : List ℕ
  pub declared : declared_header payload ≡ ok (header_len, varint_size)
  pub walked : serial_types (header_len - varint_size) payload header_len varint_size ≡ ok types
  pub read : decode_bodies types payload header_len encoding ≡ ok (values, length payload)

pub decode_record-Decoded :
    (payload : List ℕ) (encoding : TextEncoding) (values : List Value)
    → decode_record payload encoding ≡ ok values
    → Decoded payload encoding values
unfolding decode_record
decode_record-Decoded payload encoding values h =
    let ((header_len, n), declared, h1) = >>=-eq-ok (declared_header payload) _ h in
    let (types, walked, h2) = >>=-eq-ok (serial_types (header_len - n) payload header_len n) _ h1 in
    let ((vs, last), read, h3) = >>=-eq-ok (decode_bodies types payload header_len encoding) _ h2 in
    let full : last ≡ length payload = ground arith in
    let same : vs ≡ values = ground arith in
    record {
      header_len = header_len;
      varint_size = n;
      types = types;
      declared = declared;
      walked = walked;
      read = cc (read, same, full);
    }

-- A successful decoding of bodies, taken apart at its first column.
pub record FirstColumn (st : ℕ) (types payload : List ℕ) (at : ℕ) (encoding : TextEncoding)
    (values : List Value) (last : ℕ) : Type 0 where
  pub value : Value
  pub others : List Value
  pub parts : values ≡ value ∷ others
  pub first : decode_serial_value st payload at encoding ≡ ok (value, serial_type_len st)
  pub later :
      decode_bodies types payload (sat_add at (serial_type_len st)) encoding ≡ ok (others, last)

pub decode_bodies-FirstColumn :
    (st : ℕ) (types payload : List ℕ) (at : ℕ) (encoding : TextEncoding) (values : List Value)
    (last : ℕ)
    → decode_bodies (st ∷ types) payload at encoding ≡ ok (values, last)
    → FirstColumn st types payload at encoding values last
unfolding decode_bodies
decode_bodies-FirstColumn st types payload at encoding values last h =
    let ((v, len), first, h1) = >>=-eq-ok (decode_serial_value st payload at encoding) _ h in
    let ((vs, end_pos), later, h2) =
      >>=-eq-ok (decode_bodies types payload (sat_add at len) encoding) _ h1 in
    let size : len ≡ serial_type_len st =
      decode_serial_value-len st payload at encoding v len first in
    record {
      value = v;
      others = vs;
      parts = cc h2;
      first = cc (first, size);
      later = cc (later, size, h2);
    }

pub decode_bodies-nil :
    (payload : List ℕ) (at : ℕ) (encoding : TextEncoding) (values : List Value) (last : ℕ)
    → decode_bodies [] payload at encoding ≡ ok (values, last)
    → values ≡ []
unfolding decode_bodies
decode_bodies-nil payload at encoding values last h = cc

length-decode_bodies :
    (types payload : List ℕ) (at : ℕ) (encoding : TextEncoding) (values : List Value) (last : ℕ)
    → decode_bodies types payload at encoding ≡ ok (values, last)
    → length types ≡ length values
length-decode_bodies [] payload at encoding values last h =
    rw (decode_bodies-nil payload at encoding values last h) refl
length-decode_bodies (st ∷ types) payload at encoding values last h =
    let c = decode_bodies-FirstColumn st types payload at encoding values last h in
    rw c.parts (ap suc (length-decode_bodies types payload _ encoding c.others last c.later))

-- Each column by its own entry.
decode_entry-offsets :
    (types payload : List ℕ) (at : ℕ) (encoding : TextEncoding) (values : List Value) (last idx : ℕ)
    → decode_bodies types payload at encoding ≡ ok (values, last)
    → decode_entry (get_elem? (offsets at types) idx) payload encoding ≡ ok (get_or values idx null)
unfolding decode_entry offsets
decode_entry-offsets [] payload at encoding values last idx h =
    rw (decode_bodies-nil payload at encoding values last h) refl
decode_entry-offsets (st ∷ types) payload at encoding values last zero h =
    let c = decode_bodies-FirstColumn st types payload at encoding values last h in
    rw (c.parts, c.first) refl
decode_entry-offsets (st ∷ types) payload at encoding values last (suc idx) h =
    let c = decode_bodies-FirstColumn st types payload at encoding values last h in
    rw c.parts (
      decode_entry-offsets types payload (sat_add at (serial_type_len st)) encoding c.others last
        idx c.later)

decode_entries-offsets :
    (types payload : List ℕ) (at : ℕ) (encoding : TextEncoding) (values : List Value) (last n : ℕ)
    → decode_bodies types payload at encoding ≡ ok (values, last)
    → decode_entries (take n (offsets at types)) payload encoding ≡ ok (take n values)
unfolding decode_entries decode_entry offsets
decode_entries-offsets types payload at encoding values last zero h = refl
decode_entries-offsets [] payload at encoding values last (suc n) h =
    rw (decode_bodies-nil payload at encoding values last h) refl
decode_entries-offsets (st ∷ types) payload at encoding values last (suc n) h =
    let c = decode_bodies-FirstColumn st types payload at encoding values last h in
    rw
      (
        c.parts,
        c.first,
        decode_entries-offsets types payload (sat_add at (serial_type_len st)) encoding c.others
            last n c.later,
      )
      refl

pub decode_wanted-offsets :
    (wanted types payload : List ℕ) (at : ℕ) (encoding : TextEncoding) (values : List Value)
    (last : ℕ)
    → decode_bodies types payload at encoding ≡ ok (values, last)
    → decode_wanted wanted (offsets at types) payload encoding
      ≡ ok (map (λ i. get_or values i null) wanted)
unfolding decode_wanted
decode_wanted-offsets [] types payload at encoding values last h = refl
decode_wanted-offsets (i ∷ wanted) types payload at encoding values last h =
    rw
      (
        decode_entry-offsets types payload at encoding values last i h,
        decode_wanted-offsets wanted types payload at encoding values last h,
      )
      refl

pub parse_header-Decoded :
    {payload : List ℕ} {encoding : TextEncoding} {values : List Value}
    (d : Decoded payload encoding values)
    → parse_header payload ≡ ok (offsets d.header_len d.types)
unfolding parse_header
parse_header-Decoded {payload} d =
    rw
      (
        d.declared,
        walk_entries-serial_types (d.header_len - d.varint_size) payload d.header_len d.varint_size
            d.header_len,
        d.walked,
      )
      refl

-- On a payload that `decode_record` accepts, `decode_column` returns the column's value, and `Null`
-- for a column that is not there.
pub decode_column-decode_record :
    (payload : List ℕ) (idx : ℕ) (encoding : TextEncoding) (values : List Value)
    → decode_record payload encoding ≡ ok values
    → decode_column payload idx encoding ≡ ok (get_or values idx null)
unfolding decode_column
decode_column-decode_record payload idx encoding values h =
    let d = decode_record-Decoded payload encoding values h in
    rw
      (
        parse_header-Decoded d,
        decode_entry-offsets d.types payload d.header_len encoding values (length payload) idx
            d.read,
      )
      refl

-- On a payload that `decode_record` accepts, the column count is the number of its values.
pub record_column_count-decode_record :
    (payload : List ℕ) (encoding : TextEncoding) (values : List Value)
    → decode_record payload encoding ≡ ok values
    → record_column_count payload ≡ ok (length values)
unfolding record_column_count
record_column_count-decode_record payload encoding values h =
    let d = decode_record-Decoded payload encoding values h in
    rw
      (
        parse_header-Decoded d,
        length-offsets d.header_len d.types,
        length-decode_bodies d.types payload d.header_len encoding values (length payload) d.read,
      )
      refl

-- On a payload that `decode_record` accepts, the first `max_columns` values are decoded, or all if
-- there are fewer.
pub decode_record_upto-decode_record :
    (payload : List ℕ) (max_columns : ℕ) (encoding : TextEncoding) (values : List Value)
    → decode_record payload encoding ≡ ok values
    → decode_record_upto payload max_columns encoding ≡ ok (take max_columns values)
unfolding decode_record_upto
decode_record_upto-decode_record payload max_columns encoding values h =
    let d = decode_record-Decoded payload encoding values h in
    let n = min max_columns (length (offsets d.header_len d.types)) in
    let same : take n values ≡ take max_columns values =
      let count = length-offsets d.header_len d.types in
      let size =
        length-decode_bodies d.types payload d.header_len encoding values (length payload) d.read in
      let clamp : n ≡ min max_columns (length values) = omega arith in
      rw clamp (take-min max_columns values) in
    rw
      (
        parse_header-Decoded d,
        decode_entries-offsets d.types payload d.header_len encoding values (length payload) n
            d.read,
        same,
      )
      refl
