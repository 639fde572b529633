-- ===== src/Record/Decode/Loops.antt =====
-- The `while pos < header_len` loops of decode.rs end by their test.
use db_storage.Prelude.{ℕ, zero, suc, ◌-◌, ◌≤◌, ◌<◌, ◌≡◌, refl, ap, List, ◌∷◌, arith}
use db_storage.Prelude.{
  sat_add, u64_max, ltb, ◌==◌, if◌then◌else◌, Bool-cases, le→ltb, ltb→lt, inl, inr,
}
use db_storage.Prelude.{ok, ◌>>=◌, >>=-eq-ok, Result-cases, ok_or, slice_from?}
use db_storage.Record.Error.{unexpected_eof}
use db_storage.Record.Value.{TextEncoding}
use db_storage.Record.Varint.{decode_varint}
use db_storage.Record.Varint.Bounds.{decode_varint-takes}
use db_storage.Record.Decode.{
  decode_varint_at, header_entry, serial_types, walk_entries, single_column,
}
use db_storage.Record.Decode.Serial.{serial_type_len, decode_serial_value}

decode_varint_at-takes : (buf : List ℕ) (at v n : ℕ) → decode_varint_at buf at ≡ ok (v, n) → 1 ≤ n
unfolding decode_varint_at
decode_varint_at-takes buf at v n h =
    let (slice, found, h1) = >>=-eq-ok (ok_or (slice_from? buf at) (unexpected_eof at)) _ h in
    elim (Result-cases (decode_varint slice)) [
      | inl ((v', n'), e) ↦
          let same : n' ≡ n = cc (rw e at h1) in omega (arith, decode_varint-takes slice v' n' e)
      | inr (x, e) ↦ cc (rw e at h1)
    ]

header_entry-takes :
    (payload : List ℕ) (header_len at st next : ℕ)
    → at < header_len
    → header_len ≤ u64_max
    → header_entry payload header_len at ≡ ok (st, next)
    → at < next
unfolding header_entry
header_entry-takes payload header_len at st next lt small h =
    let ((v, n), found, h1) = >>=-eq-ok (decode_varint_at payload at) _ h in
    let taken = decode_varint_at-takes payload at v n found in
    let moved : sat_add at n ≡ next = ground arith in omega arith

-- The walk of `decode_record`: with `header_len - pos` rounds or more, one more changes nothing, so
-- what stops it is its test.
pub serial_types-enough :
    (fuel : ℕ) (payload : List ℕ) (header_len pos : ℕ)
    → header_len ≤ u64_max
    → header_len - pos ≤ fuel
    → serial_types (suc fuel) payload header_len pos ≡ serial_types fuel payload header_len pos
unfolding serial_types
serial_types-enough zero payload header_len pos small enough =
    rw (le→ltb pos header_len (omega arith)) refl
serial_types-enough (suc fuel) payload header_len pos small enough =
    elim (Bool-cases (ltb pos header_len)) [
      | inr done ↦ rw done refl
      | inl more ↦ rw more (elim (Result-cases (header_entry payload header_len pos)) [
        | inr (x, e) ↦ rw e refl
        | inl ((st, next), e) ↦
            let moved =
              header_entry-takes payload header_len pos st next (ltb→lt pos header_len more) small
                e in
            let ih = serial_types-enough fuel payload header_len next small (omega arith) in
            rw e (ap (λ r. r >>= λ rest. ok (st ∷ rest)) ih)
      ])
    ]

-- The walk of `parse_header_into`: with `header_len - pos` rounds or more, one more changes
-- nothing.
pub walk_entries-enough :
    (fuel : ℕ) (payload : List ℕ) (header_len pos body_pos : ℕ)
    → header_len ≤ u64_max
    → header_len - pos ≤ fuel
    → walk_entries (suc fuel) payload header_len pos body_pos
      ≡ walk_entries fuel payload header_len pos body_pos
unfolding walk_entries
walk_entries-enough zero payload header_len pos body_pos small enough =
    rw (le→ltb pos header_len (omega arith)) refl
walk_entries-enough (suc fuel) payload header_len pos body_pos small enough =
    elim (Bool-cases (ltb pos header_len)) [
      | inr done ↦ rw done refl
      | inl more ↦ rw more (elim (Result-cases (header_entry payload header_len pos)) [
        | inr (x, e) ↦ rw e refl
        | inl ((st, next), e) ↦
            let moved =
              header_entry-takes payload header_len pos st next (ltb→lt pos header_len more) small
                e in
            let ih =
              walk_entries-enough fuel payload header_len next
                (sat_add body_pos (serial_type_len st)) small (omega arith) in
            rw e (ap (λ r. r >>= λ rest. ok ((st, body_pos) ∷ rest)) ih)
      ])
    ]

-- The walk of `decode_single_column`: with `header_len - pos` rounds or more, one more changes
-- nothing.
pub single_column-enough :
    (fuel : ℕ) (payload : List ℕ) (header_len pos body_pos col idx : ℕ) (encoding : TextEncoding)
    → header_len ≤ u64_max
    → header_len - pos ≤ fuel
    → single_column (suc fuel) payload header_len pos body_pos col idx encoding
      ≡ single_column fuel payload header_len pos body_pos col idx encoding
unfolding single_column
single_column-enough zero payload header_len pos body_pos col idx encoding small enough =
    rw (le→ltb pos header_len (omega arith)) refl
single_column-enough (suc fuel) payload header_len pos body_pos col idx encoding small enough =
    elim (Bool-cases (ltb pos header_len)) [
      | inr done ↦ rw done refl
      | inl more ↦ rw more (elim (Result-cases (header_entry payload header_len pos)) [
        | inr (x, e) ↦ rw e refl
        | inl ((st, next), e) ↦
            let moved =
              header_entry-takes payload header_len pos st next (ltb→lt pos header_len more) small
                e in
            let ih =
              single_column-enough fuel payload header_len next
                (sat_add body_pos (serial_type_len st)) (sat_add col 1) idx encoding small
                (omega arith) in
            let read =
              decode_serial_value st payload body_pos encoding >>= λ (value, len). ok value in
            rw e (ap (λ r. if col == idx then read else r) ih)
      ])
    ]
