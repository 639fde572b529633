-- ===== src/Record/Varint/Bounds.antt =====
-- What `decode_varint` returns on any bytes, and on a cut encoding.
use db_storage.Prelude.{
  ℕ, zero, suc, ◌+◌, ◌-◌, ◌*◌, ◌/◌, ◌%◌, ◌^◌, ◌≤◌, ◌<◌, ◌≡◌, refl, ap, sym, ◌∙◌,
}
use db_storage.Prelude.{List, [], ◌∷◌, ◌++◌, length, All, IsByte, IsU64, arith, bit_and, bit_or}
use db_storage.Prelude.{◌==◌, false}
use db_storage.Prelude.{lt→ltb, le→ltb, ok, err, Result, Bool-cases, inl, inr}
use db_storage.Prelude.Bits.{bit_and_low, bit_and_high, bit_or_shifted}
use db_storage.Record.Error.{RecordError, unexpected_eof}
use db_storage.Record.Varint.{
  decode_loop, last_byte, decode_varint, encode_varint, varint_len, group_count,
}
use db_storage.Record.Varint.Groups.{flagged, length-flagged, two_pow_seven}
use db_storage.Record.Varint.Groups.{group_count-IsLeastCount}
use db_storage.Record.Varint.RoundTrip.{
  encode_varint_short, encode_varint_long, length-encode_varint,
}
use native.Mathlib.Decide.{dec_lt}
use native.Mathlib.Numerals.{add-one}
use native.Mathlib.Nat.{pow-suc, pow-le-pow_right}

-- A round of the loop in plain arithmetic.
abbrev next_result : ℕ → ℕ → ℕ
next_result result byte = bit_or (result * 2 ^ 7 % 2 ^ 64) (bit_and byte 0x7f)

next_result_lem :
    (result byte : ℕ) → result < 2 ^ 56 → next_result result byte ≡ result * 128 + byte % 128
next_result_lem result byte h =
    let wide : result * 2 ^ 7 % 2 ^ 64 ≡ result * 2 ^ 7 = omega arith in
    rw (wide, bit_and_low 7 byte) (bit_or_shifted 7 result (byte % 128) (omega arith))

-- What holds of a decoded value `v` that took `n` bytes.
pub record IsDecoded (v n size : ℕ) : Type 0 where
  pub is_u64 : IsU64 v
  pub one_le : 1 ≤ n
  pub le_nine : n ≤ 9
  pub in_buffer : n ≤ size
  pub small : n ≤ 8 → v < 128 ^ n

pow_le : (i : ℕ) → i ≤ 8 → 128 ^ i ≤ 2 ^ 56
pow_le i h = pow-le-pow_right {n = 128} (omega arith) {i = i} {j = 8} h

decode_loop-IsDecoded :
    (left : ℕ) (buf : List ℕ) (i result v n : ℕ)
    → i + left ≡ 8
    → result < 128 ^ i
    → All IsByte buf
    → decode_loop left buf i result ≡ ok (v, n)
    → IsDecoded v n (i + length buf)
unfolding decode_loop last_byte
decode_loop-IsDecoded zero [] i result v n count lt bytes e = cc
decode_loop-IsDecoded zero (b ∷ rest) i result v n count lt bytes e =
    let top : i ≡ 8 = omega arith in
    let low : result < 2 ^ 56 = omega (arith, pow_le i (omega arith)) in
    let wide : result * 2 ^ 8 % 2 ^ 64 ≡ result * 2 ^ 8 = omega arith in
    let sum : bit_or (result * 2 ^ 8 % 2 ^ 64) b ≡ result * 2 ^ 8 + b =
      rw wide (bit_or_shifted 8 result b bytes.0) in
    ground (arith, sum)
decode_loop-IsDecoded (suc left) [] i result v n count lt bytes e = cc
decode_loop-IsDecoded (suc left) (b ∷ rest) i result v n count lt bytes e =
    let low : result < 2 ^ 56 = omega (arith, pow_le i (omega arith)) in
    let sum = next_result_lem result b low in
    let power : 128 ^ (i + 1) ≡ 128 ^ i * 128 = ap (λ k. 128 ^ k) (add-one i) ∙ pow-suc 128 i in
    let grown : next_result result b < 128 ^ (i + 1) = omega (arith, sum, power) in
    elim (Bool-cases (bit_and b 0x80 == 0)) [
      | inl last ↦
          let answer : ◌≡◌ {A = Result RecordError (ℕ × ℕ)} (ok (next_result result b, i + 1))
              (ok (v, n)) =
            rw last at e in
          ground (arith, answer, grown, pow_le (i + 1) (omega arith))
      | inr more ↦
          let later =
            decode_loop-IsDecoded left rest (i + 1) (next_result result b) v n (omega arith) grown
              bytes.1 (rw more at e) in
          let same : i + 1 + length rest ≡ i + suc (length rest) = omega arith in rw (← same) later
    ]

-- Fewer groups than `group_count` says do not hold the value.
pub group_count-le : (v n : ℕ) → v < 2 ^ 56 → 1 ≤ n → (n ≤ 8 → v < 128 ^ n) → group_count v ≤ n
group_count-le v n small one_le holds = elim (dec_lt n (group_count v)) [
  | no enough ↦ omega arith
  | yes short ↦
      let c = group_count-IsLeastCount v small in
      let g : ℕ = group_count v - 1 in
      let least : 128 ^ g ≤ v = rw (← two_pow_seven g) (c.needed (omega arith)) in
      let up : 128 ^ n ≤ 128 ^ g =
        pow-le-pow_right {n = 128} (omega arith) {i = n} {j = g} (omega arith) in
      let v_lt : v < 128 ^ n = holds (omega (arith, c.le_eight)) in absurd (omega arith)
]

varint_len-le : (v n size : ℕ) → IsDecoded v n size → varint_len v ≤ n
unfolding varint_len
varint_len-le v n size d = elim (dec_lt v (2 ^ 56)) [
  | yes small ↦ rw (lt→ltb v (2 ^ 56) small) (group_count-le v n small d.one_le d.small)
  | no big ↦ rw (le→ltb v (2 ^ 56) (omega arith)) (elim (dec_lt n 9) [
    | no top ↦ omega arith
    | yes few ↦ absurd (omega (arith, d.small (omega arith), pow_le n (omega arith)))
  ])
]

-- A decoded value is a `u64`, it took 1 to 9 bytes, all of them in the buffer, and `encode_varint`
-- needs no more bytes for it.
pub decode_varint_bounds :
    (buf : List ℕ) (v n : ℕ)
    → All IsByte buf
    → decode_varint buf ≡ ok (v, n)
    → IsU64 v × (1 ≤ n) × (n ≤ 9) × (n ≤ length buf) × (length (encode_varint v) ≤ n)
unfolding decode_varint
decode_varint_bounds buf v n bytes e =
    let d : IsDecoded v n (0 + length buf) =
      decode_loop-IsDecoded 8 buf 0 0 v n refl (omega arith) bytes e in
    (
      d.is_u64,
      d.one_le,
      d.le_nine,
      omega (arith, d.in_buffer),
      omega (arith, length-encode_varint v, varint_len-le v n (0 + length buf) d),
    )

abbrev IsFlagged : ℕ → Type 0
IsFlagged b = (128 ≤ b) × (b < 256)

flagged-IsFlagged : (n v : ℕ) → All IsFlagged (flagged n v)
unfolding flagged
flagged-IsFlagged zero v = tt
flagged-IsFlagged (suc n) v = (omega arith, flagged-IsFlagged n v)

-- The loop asks for a byte behind flagged ones.
decode_loop-eof :
    (left : ℕ) (buf : List ℕ) (i result : ℕ)
    → i + left ≡ 8
    → length buf ≤ left
    → All IsFlagged buf
    → decode_loop left buf i result ≡ err (unexpected_eof (i + length buf))
unfolding decode_loop last_byte
decode_loop-eof zero [] i result count short flags = ap (λ k. err (unexpected_eof k)) (omega arith)
decode_loop-eof zero (b ∷ rest) i result count short flags = absurd (omega arith)
decode_loop-eof (suc left) [] i result count short flags =
    let e : i ≡ i + 0 = omega arith in ap (λ k. err (unexpected_eof k)) e
decode_loop-eof (suc left) (b ∷ rest) i result count short (flag, flags) =
    let high : (bit_and b 0x80 == 0) ≡ false = ground (arith, bit_and_high b flag.1) in
    let e : i + 1 + length rest ≡ i + suc (length rest) = omega arith in
    rw high (
      decode_loop-eof left rest (i + 1) (next_result result b) (omega arith) (omega arith) flags
      ∙ ap (λ k. err (unexpected_eof k)) e)

-- A strict prefix of flagged bytes and a last byte has flagged bytes only.
prefix-IsFlagged :
    (xs : List ℕ) (y : ℕ) (front : List ℕ) (x : ℕ) (back : List ℕ)
    → All IsFlagged xs
    → xs ++ (y ∷ []) ≡ front ++ (x ∷ back)
    → All IsFlagged front × (length front ≤ length xs)
prefix-IsFlagged xs y [] x back flags e = (tt, omega arith)
prefix-IsFlagged [] y (f ∷ []) x back flags e = cc
prefix-IsFlagged [] y (f ∷ g ∷ front) x back flags e = cc
prefix-IsFlagged (z ∷ xs) y (f ∷ front) x back flags e =
    let tails : xs ++ (y ∷ []) ≡ front ++ (x ∷ back) = cc in
    let heads : z ≡ f = cc in
    let rec = prefix-IsFlagged xs y front x back flags.1 tails in
    ((rw heads at flags.0, rec.0), omega (arith, rec.1))

-- A strict prefix of an encoding is refused, with the offset of the byte that is missing.
pub decode_varint_truncated :
    (v : ℕ) (front : List ℕ) (x : ℕ) (back : List ℕ)
    → IsU64 v
    → encode_varint v ≡ front ++ (x ∷ back)
    → decode_varint front ≡ err (unexpected_eof (length front))
unfolding decode_varint
decode_varint_truncated v front x back fits e =
    let start : 0 + length front ≡ length front = omega arith in
    decode_loop-eof 8 front 0 0 refl short.1 short.0 ∙ ap (λ k. err (unexpected_eof k)) start
  where
    short : All IsFlagged front × (length front ≤ 8)
    short = elim (dec_lt v (2 ^ 56)) [
      | yes small ↦
          let n : ℕ = group_count v - 1 in
          let p =
            prefix-IsFlagged (flagged n (v / 128)) (v % 128) front x back (flagged-IsFlagged n _)
              (sym (encode_varint_short v small) ∙ e) in
          (
            p.0,
            omega (
              arith,
              p.1,
              length-flagged n (v / 128),
              (group_count-IsLeastCount v small).le_eight,
            ),
          )
      | no big ↦
          let p =
            prefix-IsFlagged (flagged 8 (v / 256)) (v % 256) front x back (flagged-IsFlagged 8 _)
              (sym (encode_varint_long v (omega arith)) ∙ e) in
          (p.0, omega (arith, p.1, length-flagged 8 (v / 256)))
    ]

decode_loop-takes :
    (left : ℕ) (buf : List ℕ) (i result v n : ℕ)
    → i + left ≤ 8
    → decode_loop left buf i result ≡ ok (v, n)
    → i < n
unfolding decode_loop last_byte
decode_loop-takes zero [] i result v n h e = cc
decode_loop-takes zero (b ∷ rest) i result v n h e = ground arith
decode_loop-takes (suc left) [] i result v n h e = cc
decode_loop-takes (suc left) (b ∷ rest) i result v n h e = elim (Bool-cases (bit_and b 0x80 == 0)) [
  | inl last ↦
      let answer : ◌≡◌ {A = Result RecordError (ℕ × ℕ)} (ok (next_result result b, i + 1))
          (ok (v, n)) =
        rw last at e in
      ground arith
  | inr more ↦
      let later =
        decode_loop-takes left rest (i + 1) (next_result result b) v n (omega arith)
          (rw more at e) in
      omega arith
]

-- A decoded number took a byte at least, whatever the buffer holds.
pub decode_varint-takes : (buf : List ℕ) (v n : ℕ) → decode_varint buf ≡ ok (v, n) → 1 ≤ n
unfolding decode_varint
decode_varint-takes buf v n e = decode_loop-takes 8 buf 0 0 v n (omega arith) e
