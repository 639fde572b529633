-- ===== src/Record/Varint/RoundTrip.antt =====
-- `decode_varint` reads back what `encode_varint` wrote.
use db_storage.Prelude.{
  ℕ, zero, suc, ◌+◌, ◌-◌, ◌*◌, ◌/◌, ◌%◌, ◌^◌, ◌≤◌, ◌<◌, ◌≡◌, refl, ap, sym, ◌∙◌,
}
use db_storage.Prelude.{List, [], ◌∷◌, ◌++◌, length, All, IsByte, IsU64, arith, bit_and}
use db_storage.Prelude.{length-append, append_assoc, All-append, ◌==◌, true, false}
use db_storage.Prelude.{lt→ltb, le→ltb, ok}
use db_storage.Prelude.Bits.{bit_and_low, bit_and_high, bit_or_shifted}
use db_storage.Record.Varint.{decode_loop, last_byte, decode_varint, group_count, encode_varint}
use db_storage.Record.Varint.{emit_groups, varint_len}
use db_storage.Record.Varint.Groups.{
  flagged, length-flagged, flagged-IsByte, two_pow_seven, div_step, div_first,
}
use db_storage.Record.Varint.Groups.{emit_groups-flagged, emit_top56-flagged}
use db_storage.Record.Varint.Groups.{group_count-IsLeastCount}
use native.Mathlib.Decide.{dec_lt}
use native.Mathlib.Nat.{div-eq_of_lt}

-- The short form, of `group_count v` groups.
pub encode_varint_short :
    (v : ℕ) → v < 2 ^ 56 → encode_varint v ≡ flagged (group_count v - 1) (v / 128) ++ (v % 128 ∷ [])
unfolding encode_varint
encode_varint_short v h =
    let c = group_count-IsLeastCount v h in
    let e : group_count v ≡ suc (group_count v - 1) = omega (arith, c.one_le) in
    rw (lt→ltb v (2 ^ 56) h) (
      ap (λ n. emit_groups n 0 (group_count v) v) e
      ∙ emit_groups-flagged (group_count v - 1) 0 (group_count v) v (omega (arith, c.one_le)))

pub encode_varint_long :
    (v : ℕ) → 2 ^ 56 ≤ v → encode_varint v ≡ flagged 8 (v / 256) ++ (v % 256 ∷ [])
unfolding encode_varint
encode_varint_long v h =
    let last : bit_and v 0xff % 256 ≡ v % 256 = omega (arith, bit_and_low 8 v) in
    rw (le→ltb v (2 ^ 56) h, last)
      (ap (λ t. t ++ (v % 256 ∷ [])) (emit_top56-flagged 8 0 (v / 2 ^ 8) refl))

-- `varint_len` is the length of what `encode_varint` writes.
pub length-encode_varint : (v : ℕ) → length (encode_varint v) ≡ varint_len v
unfolding varint_len
length-encode_varint v = elim (dec_lt v (2 ^ 56)) [
  | yes h ↦
      rw (encode_varint_short v h, lt→ltb v (2 ^ 56) h)
        (omega (
          arith,
          length-append (flagged (group_count v - 1) (v / 128)) (v % 128 ∷ []),
          length-flagged (group_count v - 1) (v / 128),
          (group_count-IsLeastCount v h).one_le,
        ))
  | no h ↦
      rw (encode_varint_long v (omega arith), le→ltb v (2 ^ 56) (omega arith))
        (omega
          (arith, length-append (flagged 8 (v / 256)) (v % 256 ∷ []), length-flagged 8 (v / 256)))
]

pub encode_varint-IsByte : (v : ℕ) → All IsByte (encode_varint v)
encode_varint-IsByte v = elim (dec_lt v (2 ^ 56)) [
  | yes h ↦ rw (encode_varint_short v h) (
      All-append IsByte (flagged (group_count v - 1) (v / 128)) (v % 128 ∷ [])
        (flagged-IsByte _ (v / 128)) (omega arith, tt))
  | no h ↦ rw (encode_varint_long v (omega arith)) (
      All-append IsByte (flagged 8 (v / 256)) (v % 256 ∷ []) (flagged-IsByte 8 (v / 256))
        (omega arith, tt))
]

-- One round of the decoder: a flagged group, and a last one.
decode_loop_flagged :
    (left g : ℕ) (rest : List ℕ) (i q : ℕ)
    → g < 128
    → q < 2 ^ 56
    → decode_loop (suc left) ((g + 128) ∷ rest) i q ≡ decode_loop left rest (i + 1) (q * 128 + g)
unfolding decode_loop
decode_loop_flagged left g rest i q hg hq =
    let low : bit_and (g + 128) 0x7f ≡ g = omega (arith, bit_and_low 7 (g + 128)) in
    let high : (bit_and (g + 128) 0x80 == 0) ≡ false = ground (arith, bit_and_high (g + 128)) in
    let wide : q * 2 ^ 7 % 2 ^ 64 ≡ q * 2 ^ 7 = omega arith in
    rw (high, low, wide, bit_or_shifted 7 q g hg) refl

decode_loop_last :
    (left g : ℕ) (rest : List ℕ) (i q : ℕ)
    → g < 128
    → q < 2 ^ 56
    → decode_loop (suc left) (g ∷ rest) i q ≡ ok (q * 128 + g, i + 1)
unfolding decode_loop
decode_loop_last left g rest i q hg hq =
    let low : bit_and g 0x7f ≡ g = omega (arith, bit_and_low 7 g) in
    let high : (bit_and g 0x80 == 0) ≡ true = ground (arith, bit_and_high g) in
    let wide : q * 2 ^ 7 % 2 ^ 64 ≡ q * 2 ^ 7 = omega arith in
    rw (high, low, wide, bit_or_shifted 7 q g hg) refl

-- The loop over flagged groups: it holds what the groups read so far say.
decode_loop-flagged :
    (n left v : ℕ) (rest : List ℕ) (i : ℕ)
    → v < 2 ^ 56
    → decode_loop (n + left) (flagged n v ++ rest) i (v / 128 ^ n) ≡ decode_loop left rest (i + n) v
unfolding flagged
decode_loop-flagged zero left v rest i h =
    let a : 0 + left ≡ left = omega arith in
    let b : i + 0 ≡ i = omega arith in let c : v / 128 ^ 0 ≡ v = omega arith in rw (a, b, c) refl
decode_loop-flagged (suc n) left v rest i h =
    let a : suc n + left ≡ suc (n + left) = omega arith in
    let b : i + suc n ≡ i + 1 + n = omega arith in
    let q : v / 128 ^ suc n < 2 ^ 56 = omega (arith, div_step v n) in
    let c : v / 128 ^ suc n * 128 + v / 128 ^ n % 128 ≡ v / 128 ^ n = omega (arith, div_step v n) in
    rw (a, b)
      (decode_loop_flagged (n + left) (v / 128 ^ n % 128) (flagged n v ++ rest) i _ (omega arith) q
        ∙ ap (decode_loop (n + left) (flagged n v ++ rest) (i + 1)) c
        ∙ decode_loop-flagged n left v rest (i + 1) h)

short_round_trip :
    (v n : ℕ) (rest : List ℕ)
    → n ≤ 7
    → v < 128 ^ suc n
    → v < 2 ^ 56
    → decode_loop 8 ((flagged n (v / 128) ++ (v % 128 ∷ [])) ++ rest) 0 0 ≡ ok (v, n + 1)
short_round_trip v n rest hn fits small =
    let tail : List ℕ = v % 128 ∷ rest in
    let rounds : 8 ≡ n + suc (7 - n) = omega arith in
    let start : 0 ≡ v / 128 / 128 ^ n = div_small ∙ div_first v n in
    let whole : v / 128 * 128 + v % 128 ≡ v = omega arith in
    let count : 0 + n + 1 ≡ n + 1 = omega arith in
    ap (λ t. decode_loop 8 t 0 0) (append_assoc (flagged n (v / 128)) (v % 128 ∷ []) rest)
    ∙ ap (λ k. decode_loop k (flagged n (v / 128) ++ tail) 0 0) rounds
    ∙ ap (decode_loop (n + suc (7 - n)) (flagged n (v / 128) ++ tail) 0) start
    ∙ decode_loop-flagged n (suc (7 - n)) (v / 128) tail 0 (omega arith)
    ∙ decode_loop_last (7 - n) (v % 128) rest (0 + n) (v / 128) (omega arith) (omega arith)
    ∙ rw (whole, count)
  where
    div_small : 0 ≡ v / 128 ^ suc n
    div_small = sym (div-eq_of_lt fits)

long_round_trip :
    (v : ℕ) (rest : List ℕ)
    → v < 2 ^ 64
    → decode_loop 8 ((flagged 8 (v / 256) ++ (v % 256 ∷ [])) ++ rest) 0 0 ≡ ok (v, 9)
long_round_trip v rest fits =
    let tail : List ℕ = v % 256 ∷ rest in
    let start : 0 ≡ v / 256 / 128 ^ 8 = omega arith in
    ap (λ t. decode_loop 8 t 0 0) (append_assoc (flagged 8 (v / 256)) (v % 256 ∷ []) rest)
    ∙ ap (decode_loop (8 + 0) (flagged 8 (v / 256) ++ tail) 0) start
    ∙ decode_loop-flagged 8 0 (v / 256) tail 0 (omega arith)
    ∙ finish
  where
    finish : decode_loop 0 (v % 256 ∷ rest) 8 (v / 256) ≡ ok (v, 9)
    finish =
        let wide : v / 256 * 2 ^ 8 % 2 ^ 64 ≡ v / 256 * 2 ^ 8 = omega arith in
        let whole : v / 256 * 2 ^ 8 + v % 256 ≡ v = omega arith in
        unfold decode_loop last_byte in
        rw (wide, bit_or_shifted 8 (v / 256) (v % 256) (omega arith), whole) refl

-- Whatever follows an encoded `u64`, decoding returns the value and the length of its encoding.
pub decode_varint-encode_varint :
    (v : ℕ) (rest : List ℕ)
    → IsU64 v
    → decode_varint (encode_varint v ++ rest) ≡ ok (v, length (encode_varint v))
unfolding decode_varint
decode_varint-encode_varint v rest h = elim (dec_lt v (2 ^ 56)) [
  | yes small ↦
      let c = group_count-IsLeastCount v small in
      let n : ℕ = group_count v - 1 in
      let e : suc n ≡ group_count v = omega (arith, c.one_le) in
      let fits : v < 128 ^ suc n = rw (e, ← two_pow_seven (group_count v)) c.fits in
      let size : n + 1 ≡ length (encode_varint v) = omega (arith, short_length v small, c.one_le) in
      rw (← size) (
        ap (λ t. decode_loop 8 (t ++ rest) 0 0) (encode_varint_short v small)
        ∙ short_round_trip v n rest (omega (arith, c.le_eight)) fits small)
  | no big ↦
      let size : 9 ≡ length (encode_varint v) = omega (arith, long_length v (omega arith)) in
      rw (← size) (
        ap (λ t. decode_loop 8 (t ++ rest) 0 0) (encode_varint_long v (omega arith))
        ∙ long_round_trip v rest h)
]
  where
    short_length : (w : ℕ) → w < 2 ^ 56 → length (encode_varint w) ≡ group_count w
    short_length w small =
        length-encode_varint w ∙ unfold varint_len in rw (lt→ltb w (2 ^ 56) small) refl

    long_length : (w : ℕ) → 2 ^ 56 ≤ w → length (encode_varint w) ≡ 9
    long_length w big =
        length-encode_varint w ∙ unfold varint_len in rw (le→ltb w (2 ^ 56) big) refl
