-- ===== src/Record/Varint.antt =====
-- src/row/record/varint.rs and the varint part of src/row/record/encode.rs. A byte slice is a list
-- of numbers below 256, a `u64` a number below 2 ^ 64.
pub mod Groups
pub mod RoundTrip
pub mod Bounds
use db_storage.Prelude.{ℕ, zero, suc, ◌+◌, ◌-◌, ◌*◌, ◌/◌, ◌%◌, ◌^◌, bit_and, bit_or}
use db_storage.Prelude.{List, [], ◌∷◌, ◌++◌, ltb, leb, ◌==◌, if◌then◌else◌, ◌&&◌}
use db_storage.Prelude.{Result, ok, err}
use db_storage.Record.Error.{RecordError, unexpected_eof}

-- The 9th byte contributes all of its 8 bits.
pub last_byte : List ℕ → ℕ → Result RecordError (ℕ × ℕ)
last_byte [] result = err (unexpected_eof 8)
last_byte (byte ∷ rest) result = ok (bit_or (result * 2 ^ 8 % 2 ^ 64) byte, 9)

-- The rounds of `for i in 0..8` that are left; the list is `buf[i..]`.
pub decode_loop : ℕ → List ℕ → ℕ → ℕ → Result RecordError (ℕ × ℕ)
decode_loop zero buf i result = last_byte buf result
decode_loop (suc left) [] i result = err (unexpected_eof i)
decode_loop (suc left) (byte ∷ rest) i result =
    let result' = bit_or (result * 2 ^ 7 % 2 ^ 64) (bit_and byte 0x7f) in
    let more = decode_loop left rest (i + 1) result' in
    if bit_and byte 0x80 == 0 then ok (result', i + 1) else more

unfoldable pub decode_varint : List ℕ → Result RecordError (ℕ × ℕ)
unfolding decode_loop last_byte
decode_varint buf = decode_loop 8 buf 0 0

-- `while groups < 8 && value >= (1 << (7 * groups)) { groups += 1 }`, on fuel.
pub count_groups : ℕ → ℕ → ℕ → ℕ
count_groups zero value groups = groups
count_groups (suc fuel) value groups =
    let more = count_groups fuel value (groups + 1) in
    if ltb groups 8 && leb (2 ^ (7 * groups)) value then more else groups

-- From `groups = 1` the loop has at most seven rounds.
unfoldable pub group_count : ℕ → ℕ
unfolding count_groups
group_count value = count_groups 8 value 1

-- The rounds of `for i in 0..groups` that are left.
pub emit_groups : ℕ → ℕ → ℕ → ℕ → List ℕ
emit_groups zero i groups value = []
emit_groups (suc left) i groups value =
    let shift = 7 * (groups - 1 - i) in
    let byte = bit_and (value / 2 ^ shift) 0x7f % 256 in
    (if i == groups - 1 then byte else bit_or byte 0x80) ∷ emit_groups left (i + 1) groups value

-- The rounds of `for i in 0..8` that are left, each byte with its continuation bit.
pub emit_top56 : ℕ → ℕ → ℕ → List ℕ
emit_top56 zero i top56 = []
emit_top56 (suc left) i top56 =
    let shift = 7 * (7 - i) in
    bit_or (bit_and (top56 / 2 ^ shift) 0x7f % 256) 0x80 ∷ emit_top56 left (i + 1) top56

-- What `write_varint_into` pushes on `out`.
unfoldable pub encode_varint : ℕ → List ℕ
unfolding group_count emit_groups emit_top56
encode_varint value =
    if ltb value (2 ^ 56)
    then emit_groups (group_count value) 0 (group_count value) value
    else emit_top56 8 0 (value / 2 ^ 8) ++ (bit_and value 0xff % 256 ∷ [])

unfoldable pub varint_len : ℕ → ℕ
unfolding group_count
varint_len value = if ltb value (2 ^ 56) then group_count value else 9
