-- ===== src/Btree/Cells.antt =====
-- A cell that `encode_leaf_cell` of src/row/btree/table/insert.rs made, as `decode_cell_head` and
-- `reassemble_payload` of src/row/btree/mod.rs read it.
use db_storage.Prelude.{
  ℕ, ◌+◌, ◌-◌, ◌^◌, ◌≤◌, ◌<◌, ◌≡◌, refl, sym, ◌∙◌, true, false, List, [], ◌++◌, ok, ltb, ◌==◌,
  ==_iff, length, take, sat_add, be_bytes, max, u64_max, arith, IsU32, length-take, length-be_bytes,
  from_be-be_bytes, slice?-append, slice_from?-append,
}
use db_storage.Record.Varint.{encode_varint}
use db_storage.Record.Varint.RoundTrip.{decode_varint-encode_varint}
use db_storage.Btree.{
  Source, max_payload_len, max_local, min_local, local_payload_size, decode_cell_head, read_chain,
  read_overflow, reassemble_payload,
}

pub local_payload_size-le :
    (usable_size payload_len : ℕ)
    → IsU32 usable_size
    → local_payload_size usable_size payload_len false ≤ payload_len
unfolding local_payload_size max_local min_local
local_payload_size-le usable_size payload_len fits = ground (arith)

pub decode_cell_head-encode :
    (front rest : List ℕ) (size rowid page_num : ℕ)
    → size < 2 ^ 64
    → rowid < 2 ^ 64
    → length front + (length (encode_varint size) + length (encode_varint rowid)) ≤ u64_max
    → decode_cell_head
        (front ++ (encode_varint size ++ (encode_varint rowid ++ rest)))
        (length front)
        page_num
      ≡ ok
          (rowid, size, length front + (length (encode_varint size) + length (encode_varint rowid)))
unfolding decode_cell_head
decode_cell_head-encode front rest size rowid page_num fits1 fits2 small =
    let code1 = encode_varint size in
    let code2 = encode_varint rowid in
    let at : sat_add (sat_add (length front) (length code1)) (length code2)
        ≡ length front + (length code1 + length code2) =
      omega arith in
    rw
      (
        slice_from?-append front (code1 ++ (code2 ++ rest)) (length front) refl,
        decode_varint-encode_varint size (code2 ++ rest) fits1,
        slice_from?-append code1 (code2 ++ rest) (length code1) refl,
        decode_varint-encode_varint rowid rest fits2,
        at,
      )
      refl

-- The local bytes, behind whatever comes first.
pub reassemble_payload-local :
    (source : Source) (usable_size page_num : ℕ) (front payload back : List ℕ)
    → length payload ≤ max_payload_len
    → local_payload_size usable_size (length payload) false ≡ length payload
    → reassemble_payload source usable_size page_num
        (front ++ (payload ++ back))
        (length front)
        (length payload)
        false
      ≡ ok payload
unfolding reassemble_payload
reassemble_payload-local source usable_size page_num front payload back short whole =
    let size = length payload in
    let small : ltb max_payload_len size ≡ false = ground arith in
    let equal : (size == size) ≡ true = (==_iff size size).1 refl in
    rw
      (
        small,
        slice_from?-append front (payload ++ back) (length front) refl,
        whole,
        slice?-append [] payload back 0 size refl (omega arith),
        equal,
      )
      refl

pub reassemble_payload-overflow :
    (source : Source) (usable_size page_num : ℕ) (front payload back : List ℕ) (first : ℕ)
    → length payload ≤ max_payload_len
    → local_payload_size usable_size (length payload) false < length payload
    → IsU32 first
    → read_chain
        (length payload - local_payload_size usable_size (length payload) false)
        source
        page_num
        (max (usable_size - 4) 1)
        (length payload - local_payload_size usable_size (length payload) false)
        first
        []
        0
        (take (local_payload_size usable_size (length payload) false) payload)
      ≡ ok payload
    → reassemble_payload source usable_size page_num
        (front
          ++ (take (local_payload_size usable_size (length payload) false) payload
              ++ (be_bytes 4 first ++ back)))
        (length front)
        (length payload)
        false
      ≡ ok payload
unfolding reassemble_payload read_overflow
reassemble_payload-overflow source usable_size page_num front payload back first short long fits
      chain =
    let size = length payload in
    let local_size = local_payload_size usable_size size false in
    let word = be_bytes 4 first in
    let bytes = take local_size payload in
    let four : length word ≡ 4 = length-be_bytes 4 first in
    let width : length bytes ≡ local_size = length-take local_size payload ∙ omega arith in
    let small : ltb max_payload_len size ≡ false = ground arith in
    let other : (local_size == size) ≡ false = ground arith in
    rw
      (
        small,
        slice_from?-append front (bytes ++ (word ++ back)) (length front) refl,
        slice?-append [] bytes (word ++ back) 0 local_size refl (omega (arith, width)),
        other,
        slice?-append bytes word back local_size (sat_add local_size 4) (sym width)
            (omega (arith, width, four)),
        from_be-be_bytes 4 first (omega (arith, fits)),
      )
      chain
