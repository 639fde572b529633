-- ===== src/Record/Encode/Integers.antt =====
-- The integer bodies of encode.rs are read back by decode.rs.
use db_storage.Prelude.{ℕ, ◌+◌, ◌*◌, ◌%◌, ◌^◌, ◌≤◌, ◌<◌, ◌≡◌, refl, ap, ◌∙◌}
use db_storage.Prelude.{List, [], ◌∷◌, ◌++◌, length, drop, All, IsByte, arith, bit_and, bit_or}
use db_storage.Prelude.{leb, ◌==◌, true, not, Bool-cases, inl, inr}
use db_storage.Prelude.{ok, slice?-append, u64_max}
use db_storage.Prelude.{be_bytes, from_be, from_be_acc, from_be-be_bytes}
use db_storage.Prelude.{ℤ, pos, negsuc, IsI64, bits64, signed, in_width, le→ltb}
use db_storage.Prelude.Bits.{bit_and_high, bit_or_shifted}
use db_storage.Record.Value.{integer, TextEncoding}
use db_storage.Record.Decode.Serial.{take_bytes, fixed, i24, i48, shift_in, decode_serial_value}
use db_storage.Record.Encode.{integer_serial_type, integer_body, is_pos}

-- A range in the middle of a buffer.
pub take_bytes-append :
    (xs ys zs : List ℕ) (at len : ℕ)
    → at ≡ length xs
    → len ≡ length ys
    → at + len ≤ u64_max
    → take_bytes (xs ++ (ys ++ zs)) at len ≡ ok ys
unfolding take_bytes
take_bytes-append xs ys zs at len ha hl small =
    rw (le→ltb u64_max (at + len) small, slice?-append xs ys zs at (at + len) ha (omega arith)) refl

-- Shifting bytes in is reading a big-endian word.
shift_in-from_be_acc :
    (v : ℕ) (bytes : List ℕ) → All IsByte bytes → shift_in v bytes ≡ from_be_acc v bytes
unfolding shift_in from_be_acc
shift_in-from_be_acc v [] h = refl
shift_in-from_be_acc v (b ∷ rest) h =
    rw (bit_or_shifted 8 v b h.0) (shift_in-from_be_acc (v * 256 + b) rest h.1)

high_bit : (b : ℕ) → b < 256 → not (bit_and b 0x80 == 0) ≡ leb 128 b
high_bit b h = ground (arith, bit_and_high b)

i24_lem :
    (b0 b1 b2 : ℕ)
    → b0 < 256
    → b1 < 256
    → b2 < 256
    → i24 (b0 ∷ b1 ∷ b2 ∷ []) ≡ signed (2 ^ 23) (2 ^ 24) (from_be (b0 ∷ b1 ∷ b2 ∷ []))
unfolding i24 from_be from_be_acc
i24_lem b0 b1 b2 h0 h1 h2 =
    let two : bit_or (b0 * 2 ^ 16) (b1 * 2 ^ 8) ≡ (b0 * 256 + b1) * 2 ^ 8 =
      omega (arith, bit_or_shifted 16 b0 (b1 * 2 ^ 8) (omega arith)) in
    rw (high_bit b0 h0, two, bit_or_shifted 8 (b0 * 256 + b1) b2 h2) (ground arith)

i48_lem :
    (b0 b1 b2 b3 b4 b5 : ℕ)
    → All IsByte (b0 ∷ b1 ∷ b2 ∷ b3 ∷ b4 ∷ b5 ∷ [])
    → i48 (b0 ∷ b1 ∷ b2 ∷ b3 ∷ b4 ∷ b5 ∷ [])
      ≡ signed (2 ^ 47) (2 ^ 48) (from_be (b0 ∷ b1 ∷ b2 ∷ b3 ∷ b4 ∷ b5 ∷ []))
unfolding i48 from_be
i48_lem b0 b1 b2 b3 b4 b5 h =
    rw (high_bit b0 h.0, shift_in-from_be_acc 0 (b0 ∷ b1 ∷ b2 ∷ b3 ∷ b4 ∷ b5 ∷ []) h)
      (unfold from_be_acc in ground arith)

-- Two's complement at each width of the format.
signed-bits64_8 :
    (i : ℤ) → in_width (2 ^ 7) i ≡ true → signed (2 ^ 7) (2 ^ 8) (bits64 i % 2 ^ 8) ≡ i
unfolding bits64
signed-bits64_8 i h = ground arith

signed-bits64_16 :
    (i : ℤ) → in_width (2 ^ 15) i ≡ true → signed (2 ^ 15) (2 ^ 16) (bits64 i % 2 ^ 16) ≡ i
unfolding bits64
signed-bits64_16 i h = ground arith

signed-bits64_24 :
    (i : ℤ) → in_width (2 ^ 23) i ≡ true → signed (2 ^ 23) (2 ^ 24) (bits64 i % 2 ^ 24) ≡ i
unfolding bits64
signed-bits64_24 i h = ground arith

signed-bits64_32 :
    (i : ℤ) → in_width (2 ^ 31) i ≡ true → signed (2 ^ 31) (2 ^ 32) (bits64 i % 2 ^ 32) ≡ i
unfolding bits64
signed-bits64_32 i h = ground arith

signed-bits64_48 :
    (i : ℤ) → in_width (2 ^ 47) i ≡ true → signed (2 ^ 47) (2 ^ 48) (bits64 i % 2 ^ 48) ≡ i
unfolding bits64
signed-bits64_48 i h = ground arith

signed-bits64 : (i : ℤ) → IsI64 i → signed (2 ^ 63) (2 ^ 64) (bits64 i) ≡ i
unfolding bits64
signed-bits64 (pos n) h = ground arith
signed-bits64 (negsuc n) h = ground arith

bits64_lt : (i : ℤ) → IsI64 i → bits64 i < 2 ^ 64
unfolding bits64
bits64_lt (pos n) h = omega arith
bits64_lt (negsuc n) h = omega arith

-- The last bytes of a word say what it leaves modulo their range.
from_be-low3 : (v : ℕ) → from_be (drop 5 (be_bytes 8 v)) ≡ v % 2 ^ 24
unfolding from_be from_be_acc be_bytes
from_be-low3 v = omega arith

from_be-low6 : (v : ℕ) → from_be (drop 2 (be_bytes 8 v)) ≡ v % 2 ^ 48
unfolding from_be from_be_acc be_bytes
from_be-low6 v = omega arith

from_be-byte : (b : ℕ) → from_be (b ∷ []) ≡ b
unfolding from_be from_be_acc
from_be-byte b = omega arith

module _ (xs zs : List ℕ) (at : ℕ) (ha : at ≡ length xs) (encoding : TextEncoding) (i : ℤ) where
  -- Serial type `k` carries `i` at `at`.
  abbrev Carries : ℕ → Type 0
  Carries k =
      at + length (integer_body i k) ≤ u64_max
      → decode_serial_value k (xs ++ (integer_body i k ++ zs)) at encoding
        ≡ ok (integer i, length (integer_body i k))

  fixed_lem :
      (ys : List ℕ) (width : ℕ) (read : List ℕ → ℤ)
      → width ≡ length ys
      → at + width ≤ u64_max
      → read ys ≡ i
      → fixed (xs ++ (ys ++ zs)) at width read ≡ ok (integer i, width)
  unfolding fixed
  fixed_lem ys width read hw small e = rw (take_bytes-append xs ys zs at width ha hw small, e) refl

  Carries-one : in_width (2 ^ 7) i ≡ true → Carries 1
  unfolding decode_serial_value integer_body
  Carries-one h small =
      fixed_lem ((bits64 i % 2 ^ 8) ∷ []) 1 _ refl small
        (rw (from_be-byte (bits64 i % 2 ^ 8)) (signed-bits64_8 i h))

  Carries-two : in_width (2 ^ 15) i ≡ true → Carries 2
  unfolding decode_serial_value integer_body
  Carries-two h small =
      fixed_lem (be_bytes 2 (bits64 i % 2 ^ 16)) 2 _ refl small
        (rw (from_be-be_bytes 2 (bits64 i % 2 ^ 16) (omega arith)) (signed-bits64_16 i h))

  Carries-three : in_width (2 ^ 23) i ≡ true → Carries 3
  unfolding decode_serial_value integer_body
  Carries-three h small = fixed_lem (drop 5 (be_bytes 8 (bits64 i))) 3 i24 refl small (
      i24_lem _ _ _ (omega arith) (omega arith) (omega arith)
      ∙ ap (signed (2 ^ 23) (2 ^ 24)) (from_be-low3 (bits64 i))
      ∙ signed-bits64_24 i h)

  Carries-four : in_width (2 ^ 31) i ≡ true → Carries 4
  unfolding decode_serial_value integer_body
  Carries-four h small =
      fixed_lem (be_bytes 4 (bits64 i % 2 ^ 32)) 4 _ refl small
        (rw (from_be-be_bytes 4 (bits64 i % 2 ^ 32) (omega arith)) (signed-bits64_32 i h))

  Carries-five : in_width (2 ^ 47) i ≡ true → Carries 5
  unfolding decode_serial_value integer_body
  Carries-five h small = fixed_lem (drop 2 (be_bytes 8 (bits64 i))) 6 i48 refl small (
      i48_lem _ _ _ _ _ _ (omega arith)
      ∙ ap (signed (2 ^ 47) (2 ^ 48)) (from_be-low6 (bits64 i))
      ∙ signed-bits64_48 i h)

  Carries-six : IsI64 i → Carries 6
  unfolding decode_serial_value integer_body
  Carries-six h small =
      fixed_lem (be_bytes 8 (bits64 i)) 8 _ refl small
        (rw (from_be-be_bytes 8 (bits64 i) (omega (arith, bits64_lt i h))) (signed-bits64 i h))

  Carries-zero : is_pos i 0 ≡ true → Carries 8
  unfolding decode_serial_value integer_body is_pos
  Carries-zero h small = ground arith

  Carries-unit : is_pos i 1 ≡ true → Carries 9
  unfolding decode_serial_value integer_body is_pos
  Carries-unit h small = ground arith

  -- Whatever serial type the encoder chooses carries the integer.
  pub Carries-integer_serial_type : IsI64 i → Carries (integer_serial_type i)
  unfolding integer_serial_type
  Carries-integer_serial_type h = elim (Bool-cases (is_pos i 0)) [
    | inl t ↦ rw t (Carries-zero t)
    | inr f0 ↦ rw f0 (elim (Bool-cases (is_pos i 1)) [
      | inl t ↦ rw t (Carries-unit t)
      | inr f1 ↦ rw f1 (elim (Bool-cases (in_width (2 ^ 7) i)) [
        | inl t ↦ rw t (Carries-one t)
        | inr f2 ↦ rw f2 (elim (Bool-cases (in_width (2 ^ 15) i)) [
          | inl t ↦ rw t (Carries-two t)
          | inr f3 ↦ rw f3 (elim (Bool-cases (in_width (2 ^ 23) i)) [
            | inl t ↦ rw t (Carries-three t)
            | inr f4 ↦ rw f4 (elim (Bool-cases (in_width (2 ^ 31) i)) [
              | inl t ↦ rw t (Carries-four t)
              | inr f5 ↦ rw f5 (elim (Bool-cases (in_width (2 ^ 47) i)) [
                | inl t ↦ rw t (Carries-five t)
                | inr f6 ↦ rw f6 (Carries-six h)
              ])
            ])
          ])
        ])
      ])
    ])
  ]
