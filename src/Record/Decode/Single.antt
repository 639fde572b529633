-- ===== src/Record/Decode/Single.antt =====
-- The walk that stops at its column agrees with `decode_record`.
use db_storage.Prelude.{ℕ, zero, suc, ◌+◌, ◌-◌, ◌≤◌, ◌<◌, ◌≡◌, refl}
use db_storage.Prelude.{List, [], ◌∷◌, length, arith, sat_add, u64_max, All, get_or, map}
use db_storage.Prelude.{ltb, ◌==◌, true, false, Bool-cases, inl, inr}
use db_storage.Prelude.{ok, >>=-eq-ok}
use db_storage.Record.Value.{Value, null, TextEncoding}
use db_storage.Record.Decode.{header_entry, serial_types, decode_bodies, decode_record}
use db_storage.Record.Decode.{decode_single_column, single_column}
use db_storage.Record.Decode.{decode_record_only, walk_wanted}
use db_storage.Record.Decode.Columns.{
  decode_record-Decoded, decode_bodies-nil, decode_bodies-FirstColumn,
}
use db_storage.Record.Decode.Columns.{parse_header-Decoded, decode_wanted-offsets}
use db_storage.Record.Decode.Serial.{serial_type_len}

-- A round of the walk that found a serial type.
record Round (fuel : ℕ) (payload : List ℕ) (header_len pos : ℕ) (types : List ℕ) : Type 0 where
  st : ℕ
  next : ℕ
  others : List ℕ
  parts : types ≡ st ∷ others
  entry : header_entry payload header_len pos ≡ ok (st, next)
  later : serial_types fuel payload header_len next ≡ ok others

serial_types-Round :
    (fuel : ℕ) (payload : List ℕ) (header_len pos : ℕ) (types : List ℕ)
    → ltb pos header_len ≡ true
    → serial_types (suc fuel) payload header_len pos ≡ ok types
    → Round fuel payload header_len pos types
unfolding serial_types
serial_types-Round fuel payload header_len pos types more h =
    let ((st, next), entry, h1) =
      >>=-eq-ok (header_entry payload header_len pos) _ (rw more at h) in
    let (others, later, h2) = >>=-eq-ok (serial_types fuel payload header_len next) _ h1 in
    record { st = st; next = next; others = others; parts = cc h2; entry = entry; later = later }

serial_types-done :
    (fuel : ℕ) (payload : List ℕ) (header_len pos : ℕ) (types : List ℕ)
    → ltb pos header_len ≡ false
    → serial_types (suc fuel) payload header_len pos ≡ ok types
    → types ≡ []
unfolding serial_types
serial_types-done fuel payload header_len pos types done h = cc (rw done at h)

-- It reads what the whole walk finds at the column.
single_column-get_or :
    (fuel : ℕ) (payload : List ℕ) (header_len pos body_pos col idx : ℕ) (encoding : TextEncoding)
    (types : List ℕ) (values : List Value) (last : ℕ)
    → serial_types fuel payload header_len pos ≡ ok types
    → decode_bodies types payload body_pos encoding ≡ ok (values, last)
    → col ≤ idx
    → idx < u64_max
    → single_column fuel payload header_len pos body_pos col idx encoding
      ≡ ok (get_or values (idx - col) null)
unfolding single_column
single_column-get_or zero payload header_len pos body_pos col idx encoding types values last walked
      read le small =
    let none_left : types ≡ [] = unfold serial_types in cc walked in
    rw (decode_bodies-nil payload body_pos encoding values last (rw none_left at read)) refl
single_column-get_or (suc fuel) payload header_len pos body_pos col idx encoding types values last
      walked read le small =
    elim (Bool-cases (ltb pos header_len)) [
      | inr done ↦
          let none_left = serial_types-done fuel payload header_len pos types done walked in
          rw (done, decode_bodies-nil payload body_pos encoding values last (rw none_left at read))
            refl
      | inl more ↦
          let r = serial_types-Round fuel payload header_len pos types more walked in
          let c =
            decode_bodies-FirstColumn r.st r.others payload body_pos encoding values last
              (rw r.parts at read) in
          rw (more, r.entry, c.parts)
            (elim (Bool-cases (col == idx)) [
              | inl found ↦
                  let here : idx - col ≡ 0 = ground arith in rw (found, c.first, here) refl
              | inr other ↦
                  let lt : col < idx = ground arith in
                  let step : sat_add col 1 ≡ col + 1 = omega arith in
                  let there : idx - col ≡ suc (idx - (col + 1)) = omega arith in
                  rw (other, step, there)
                    (single_column-get_or fuel payload header_len r.next
                      (sat_add body_pos (serial_type_len r.st)) (col + 1) idx encoding r.others
                      c.others last r.later c.later (omega arith) small)
            ])
    ]

-- On a payload that `decode_record` accepts, the walk that stops early returns the column's value,
-- and `Null` for a column that is not there.
pub decode_single_column-decode_record :
    (payload : List ℕ) (idx : ℕ) (encoding : TextEncoding) (values : List Value)
    → idx < u64_max
    → decode_record payload encoding ≡ ok values
    → decode_single_column payload idx encoding ≡ ok (get_or values idx null)
unfolding decode_single_column
decode_single_column-decode_record payload idx encoding values small h =
    let d = decode_record-Decoded payload encoding values h in
    let start : idx - 0 ≡ idx = omega arith in
    rw
      (
        d.declared,
        single_column-get_or (d.header_len - d.varint_size) payload d.header_len d.varint_size
            d.header_len 0 idx encoding d.types values (length payload) d.walked d.read
            (omega arith) small,
        start,
      )
      refl

-- On a payload that `decode_record` accepts, the wanted columns are returned in the order in which
-- they were asked for, with `Null` for a column that is not there, on the path for a single column
-- and on the one for several; the column numbers are below the largest `usize`.
pub decode_record_only-decode_record :
    (payload wanted : List ℕ) (encoding : TextEncoding) (values : List Value)
    → All (λ i. i < u64_max) wanted
    → decode_record payload encoding ≡ ok values
    → decode_record_only payload wanted encoding ≡ ok (map (λ i. get_or values i null) wanted)
unfolding decode_record_only walk_wanted
decode_record_only-decode_record payload [] encoding values small h =
    let d = decode_record-Decoded payload encoding values h in
    rw
      (
        parse_header-Decoded d,
        decode_wanted-offsets [] d.types payload d.header_len encoding values (length payload)
            d.read,
      )
      refl
decode_record_only-decode_record payload (only ∷ []) encoding values small h =
    rw (decode_single_column-decode_record payload only encoding values small.0 h) refl
decode_record_only-decode_record payload (i ∷ j ∷ rest) encoding values small h =
    let d = decode_record-Decoded payload encoding values h in
    rw
      (
        parse_header-Decoded d,
        decode_wanted-offsets (i ∷ j ∷ rest) d.types payload d.header_len encoding values
            (length payload) d.read,
      )
      refl
