-- ===== src/Record/Encode/Header.antt =====
-- The header length of encode.rs counts its own varint.
use db_storage.Prelude.{ℕ, zero, suc, ◌+◌, ◌^◌, ◌≤◌, ◌<◌, ◌≡◌, refl, ◌∙◌}
use db_storage.Prelude.{List, [], ◌∷◌, length, arith, u64_max, sat_add, length-append}
use db_storage.Prelude.{◌==◌, lt→ltb, le→ltb, ==_iff}
use db_storage.Prelude.{Bool-cases, inl, inr}
use db_storage.Record.Varint.{encode_varint, varint_len, group_count}
use db_storage.Record.Varint.Groups.{group_count-IsLeastCount, two_pow_seven}
use db_storage.Record.Varint.RoundTrip.{length-encode_varint}
use db_storage.Record.Varint.Bounds.{group_count-le}
use db_storage.Record.Encode.{header_body_len, grow_header, header_length, header_types}
use native.Mathlib.Decide.{dec_lt}

pub varint_len_bounds : (v : ℕ) → (1 ≤ varint_len v) × (varint_len v ≤ 9)
unfolding varint_len
varint_len_bounds v = elim (dec_lt v (2 ^ 56)) [
  | yes h ↦
      let c = group_count-IsLeastCount v h in
      rw (lt→ltb v (2 ^ 56) h) (c.one_le, omega (arith, c.le_eight))
  | no h ↦ rw (le→ltb v (2 ^ 56) (omega arith)) (omega arith)
]

-- A larger number needs no fewer bytes.
pub varint_len_mono : (v w : ℕ) → v ≤ w → varint_len v ≤ varint_len w
varint_len_mono v w h = elim (dec_lt w (2 ^ 56)) [
  | yes small ↦
      let c = group_count-IsLeastCount w small in
      let holds : w < 128 ^ group_count w = rw (← two_pow_seven (group_count w)) c.fits in
      let few = group_count-le v (group_count w) (omega arith) c.one_le (λ _. omega arith) in
      unfold varint_len in rw (lt→ltb v (2 ^ 56) (omega arith), lt→ltb w (2 ^ 56) small) few
  | no big ↦
      let nine : varint_len w ≡ 9 =
        unfold varint_len in rw (le→ltb w (2 ^ 56) (omega arith)) refl in
      omega (arith, varint_len_bounds v)
]

-- With fuel for the bytes that the varint may still grow by, the loop ends at a fixed point.
grow_header_lem :
    (fuel body_len header_len : ℕ)
    → body_len + 9 < header_len + fuel
    → body_len + 9 < u64_max
    → header_len ≤ varint_len header_len + body_len
    → varint_len (grow_header fuel body_len header_len) + body_len
      ≡ grow_header fuel body_len header_len
unfolding grow_header
grow_header_lem zero body_len header_len enough small below =
    absurd (omega (arith, varint_len_bounds header_len))
grow_header_lem (suc fuel) body_len header_len enough small below =
    let wide : sat_add (varint_len header_len) body_len ≡ varint_len header_len + body_len =
      omega (arith, varint_len_bounds header_len) in
    let step : sat_add header_len 1 ≡ header_len + 1 =
      omega (arith, varint_len_bounds header_len) in
    elim (Bool-cases (varint_len header_len + body_len == header_len)) [
      | inl fixed ↦ rw (wide, fixed) ((==_iff _ _).0 fixed)
      | inr less ↦
          let lt : header_len + 1 ≤ varint_len header_len + body_len = ground arith in
          rw (wide, less, step)
            (grow_header_lem fuel body_len (header_len + 1) (omega arith) small
              (omega (arith, varint_len_mono header_len (header_len + 1) (omega arith))))
    ]

-- The declared header length is that of the header's varint and of the serial types together, where
-- their length is below the largest `u64` less 9.
pub header_length_lem :
    (body_len : ℕ)
    → body_len + 9 < u64_max
    → length (encode_varint (header_length body_len)) + body_len ≡ header_length body_len
unfolding header_length
header_length_lem body_len small =
    let start : sat_add body_len 1 ≡ body_len + 1 = omega arith in
    rw (start, length-encode_varint (grow_header 9 body_len (body_len + 1)))
      (grow_header_lem 9 body_len (body_len + 1) (omega arith) small
        (omega (arith, varint_len_bounds (body_len + 1))))

-- What `encode_record_into` adds up is the length of the serial types that it writes.
pub header_body_len_lem :
    (sum : ℕ) (types : List (ℕ × ℕ))
    → sum + length (header_types types) ≤ u64_max
    → header_body_len sum types ≡ sum + length (header_types types)
unfolding header_body_len header_types
header_body_len_lem sum [] h = omega arith
header_body_len_lem sum ((st, len) ∷ rest) h =
    let both = length-append (encode_varint st) (header_types rest) in
    let one = length-encode_varint st in
    let step : sat_add sum (varint_len st) ≡ sum + varint_len st = omega arith in
    rw step (header_body_len_lem (sum + varint_len st) rest (omega arith) ∙ omega arith)
