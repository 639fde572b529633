-- ===== src/Record/Decode/Lengths.antt =====
-- The lengths of column bodies.
use db_storage.Prelude.{ℕ, zero, suc, ◌+◌, ◌-◌, ◌/◌, ◌%◌, ◌^◌, ◌≤◌, ◌<◌, ◌≡◌, refl}
use db_storage.Prelude.{List, arith, ℤ}
use db_storage.Prelude.{◌==◌, false, if◌then◌else◌, Bool-cases, inl, inr}
use db_storage.Prelude.{ok}
use native.Mathlib.Decide.{dec_lt}
use db_storage.Record.Value.{Value, TextEncoding}
use db_storage.Record.Decode.{}
use db_storage.Record.Decode.{}
use db_storage.Record.Decode.{}
use db_storage.Record.Decode.Serial.{
  serial_type_len, decode_serial_value, fixed, decode_real, decode_variable,
}
use db_storage.Record.Decode.Serial.{decode_blob, decode_str}

fixed-len :
    (buf : List ℕ) (at width : ℕ) (read : List ℕ → ℤ) {v : Value} {len : ℕ}
    → fixed buf at width read ≡ ok (v, len)
    → len ≡ width
unfolding fixed
fixed-len buf at width read h = ground arith

decode_real-len :
    (buf : List ℕ) (at : ℕ) {v : Value} {len : ℕ} → decode_real buf at ≡ ok (v, len) → len ≡ 8
unfolding decode_real
decode_real-len buf at h = ground arith

decode_blob-len :
    (buf : List ℕ) (at n : ℕ) {v : Value} {len : ℕ} → decode_blob buf at n ≡ ok (v, len) → len ≡ n
unfolding decode_blob
decode_blob-len buf at n h = ground arith

decode_str-len :
    (buf : List ℕ) (at n : ℕ) (encoding : TextEncoding) {v : Value} {len : ℕ}
    → decode_str buf at n encoding ≡ ok (v, len)
    → len ≡ n
unfolding decode_str
decode_str-len buf at n encoding h = ground arith

-- From 12 on a serial type is one of a blob or a text.
pub decode_serial_value-variable :
    (n : ℕ) (buf : List ℕ) (at : ℕ) (encoding : TextEncoding)
    → 12 ≤ n
    → decode_serial_value n buf at encoding ≡ decode_variable n buf at encoding
unfolding decode_serial_value
decode_serial_value-variable n buf at encoding h =
    let ne : (k : ℕ) → k < 12 → (n == k) ≡ false = λ k hk. ground arith in
    rw
      (
        ne 0 (omega arith),
        ne 1 (omega arith),
        ne 2 (omega arith),
        ne 3 (omega arith),
        ne 4 (omega arith),
        ne 5 (omega arith),
        ne 6 (omega arith),
        ne 7 (omega arith),
        ne 8 (omega arith),
        ne 9 (omega arith),
        ne 10 (omega arith),
        ne 11 (omega arith),
      )
      refl

serial_type_len-variable :
    (n : ℕ)
    → 12 ≤ n
    → serial_type_len n
      ≡ (if n % 2 == 0 then (n + 2 ^ 64 - 12) % 2 ^ 64 / 2 else (n + 2 ^ 64 - 13) % 2 ^ 64 / 2)
unfolding serial_type_len
serial_type_len-variable n h =
    let ne : (k : ℕ) → k < 12 → (n == k) ≡ false = λ k hk. ground arith in
    rw
      (
        ne 0 (omega arith),
        ne 1 (omega arith),
        ne 2 (omega arith),
        ne 3 (omega arith),
        ne 4 (omega arith),
        ne 5 (omega arith),
        ne 6 (omega arith),
        ne 7 (omega arith),
        ne 8 (omega arith),
        ne 9 (omega arith),
        ne 10 (omega arith),
        ne 11 (omega arith),
      )
      refl

decode_variable-len :
    (n : ℕ) (buf : List ℕ) (at : ℕ) (encoding : TextEncoding) {v : Value} {len : ℕ}
    → decode_variable n buf at encoding ≡ ok (v, len)
    → len ≡ (if n % 2 == 0 then (n + 2 ^ 64 - 12) % 2 ^ 64 / 2 else (n + 2 ^ 64 - 13) % 2 ^ 64 / 2)
unfolding decode_variable
decode_variable-len n buf at encoding h = elim (Bool-cases (n % 2 == 0)) [
  | inl even ↦ rw even (decode_blob-len buf at _ (rw even at h))
  | inr odd ↦ rw odd (decode_str-len buf at _ encoding (rw odd at h))
]

small-len :
    (n : ℕ) (buf : List ℕ) (at : ℕ) (encoding : TextEncoding) (v : Value) (len : ℕ)
    → n < 12
    → decode_serial_value n buf at encoding ≡ ok (v, len)
    → len ≡ serial_type_len n
unfolding decode_serial_value serial_type_len
small-len zero buf at encoding v len lt h = cc
small-len (suc zero) buf at encoding v len lt h = fixed-len buf at 1 _ h
small-len (suc (suc zero)) buf at encoding v len lt h = fixed-len buf at 2 _ h
small-len (suc (suc (suc zero))) buf at encoding v len lt h = fixed-len buf at 3 _ h
small-len (suc (suc (suc (suc zero)))) buf at encoding v len lt h = fixed-len buf at 4 _ h
small-len (suc (suc (suc (suc (suc zero))))) buf at encoding v len lt h = fixed-len buf at 6 _ h
small-len (suc (suc (suc (suc (suc (suc zero)))))) buf at encoding v len lt h =
    fixed-len buf at 8 _ h
small-len (suc (suc (suc (suc (suc (suc (suc zero))))))) buf at encoding v len lt h =
    decode_real-len buf at h
small-len (suc (suc (suc (suc (suc (suc (suc (suc zero)))))))) buf at encoding v len lt h = cc
small-len (suc (suc (suc (suc (suc (suc (suc (suc (suc zero))))))))) buf at encoding v len lt h = cc
small-len (suc (suc (suc (suc (suc (suc (suc (suc (suc (suc zero)))))))))) buf at encoding v len lt
      h =
    cc
small-len (suc (suc (suc (suc (suc (suc (suc (suc (suc (suc (suc zero))))))))))) buf at encoding v
      len lt h =
    cc
small-len (suc (suc (suc (suc (suc (suc (suc (suc (suc (suc (suc (suc n)))))))))))) buf at encoding
      v len lt h =
    absurd (omega arith)

-- `serial_type_len` is the length that `decode_serial_value` returns, for every serial type.
pub decode_serial_value-len :
    (n : ℕ) (buf : List ℕ) (at : ℕ) (encoding : TextEncoding) (v : Value) (len : ℕ)
    → decode_serial_value n buf at encoding ≡ ok (v, len)
    → len ≡ serial_type_len n
decode_serial_value-len n buf at encoding v len h = elim (dec_lt n 12) [
  | yes small ↦ small-len n buf at encoding v len small h
  | no big ↦
      let e = decode_serial_value-variable n buf at encoding (omega arith) in
      rw (serial_type_len-variable n (omega arith))
        (decode_variable-len n buf at encoding (rw e at h))
]
