-- ===== src/Tests/Varint.antt =====
-- src/row/record/varint.rs on concrete bytes.
use db_storage.Prelude.{ℕ, ◌-◌, ◌^◌, ◌≤◌, ◌≡◌, refl, [], ◌∷◌, ◌++◌, length, ok, err, arith, IsU64}
use db_storage.Record.Error.{unexpected_eof}
use db_storage.Record.Varint.{decode_varint, encode_varint}
use db_storage.Record.Varint.RoundTrip.{decode_varint-encode_varint}
use db_storage.Record.Varint.Bounds.{decode_varint_bounds, decode_varint_truncated}

decode_varint-encode_varint_example :
    decode_varint (encode_varint 300 ++ (7 ∷ [])) ≡ ok (300, length (encode_varint 300))
decode_varint-encode_varint_example = decode_varint-encode_varint 300 (7 ∷ []) (omega arith)

-- Nine bytes, for a value above 2 ^ 56.
encode_varint_max :
    encode_varint (2 ^ 64 - 1) ≡ 0xff ∷ 0xff ∷ 0xff ∷ 0xff ∷ 0xff ∷ 0xff ∷ 0xff ∷ 0xff ∷ 0xff ∷ []
unfolding encode_varint
encode_varint_max = refl

-- An overlong zero.
decode_varint_bounds_example :
    IsU64 0
    × (1 ≤ 2)
    × (2 ≤ 9)
    × (2 ≤ length {A = ℕ} (0x80 ∷ 0 ∷ []))
    × (length (encode_varint 0) ≤ 2)
decode_varint_bounds_example =
    decode_varint_bounds (0x80 ∷ 0 ∷ []) 0 2 (omega arith, (omega arith, tt))
      (unfold decode_varint in refl)

decode_varint_truncated_example : decode_varint (0x82 ∷ []) ≡ err (unexpected_eof 1)
decode_varint_truncated_example =
    decode_varint_truncated 300 (0x82 ∷ []) 0x2c [] (omega arith) (unfold encode_varint in refl)
