-- ===== src/Btree/RoundTrip.antt =====
-- `encode_leaf_cell` of src/row/btree/table/insert.rs and `reassemble_payload` of
-- src/row/btree/mod.rs.
use db_storage.Prelude.{
  ℕ, ◌+◌, ◌-◌, ◌^◌, ◌≤◌, ◌<◌, ◌≡◌, refl, sym, ◌∙◌, ap, false, List, [], ◌∷◌, ◌++◌, append_assoc, ok,
  >>=-eq-ok, length, take, drop, be_bytes, min, max, u64_max, arith, IsU32, length-drop,
  length-append, take-append-drop, take_all,
}
use mathlib.Core.Path.{subst}
use db_storage.Pager.{Pager}
use db_storage.Record.Varint.{encode_varint}
use db_storage.Btree.{
  Source, max_pages_visited, max_payload_len, local_payload_size, decode_cell_head, read_chain,
  reassemble_payload, chunks_of, first_of, allocate_pages, write_links, write_overflow_chain,
  encode_overflow, encode_leaf_cell,
}
use db_storage.Btree.Overflow.{IsFresh, Shows, first_of-fits, read_chain-write_links}
use db_storage.Btree.Cells.{
  local_payload_size-le, decode_cell_head-encode, reassemble_payload-local,
  reassemble_payload-overflow,
}

-- The pages that the chain of a payload gets.
abbrev pub IsChained : Pager → ℕ → List ℕ → Type 0
IsChained p usable_size rest =
    (page_nums : List ℕ) (after : Pager)
    → allocate_pages (chunks_of (length rest) (max (usable_size - 4) 1) rest) p
      ≡ ok (page_nums, after)
    → IsFresh [] page_nums × (length page_nums ≤ max_pages_visited)

write_overflow_chain-read :
    (p : Pager) (usable_size : ℕ) (rest : List ℕ) {first : ℕ} {q : Pager} (source : Source)
    (page_num : ℕ) (result : List ℕ)
    → IsU32 usable_size
    → IsChained p usable_size rest
    → Shows source q
    → write_overflow_chain p usable_size rest ≡ ok (first, q)
    → IsU32 first
      × (read_chain
            (length rest)
            source
            page_num
            (max (usable_size - 4) 1)
            (length rest)
            first
            []
            0
            result
          ≡ ok (result ++ rest))
unfolding write_overflow_chain
write_overflow_chain-read p usable_size rest {first} {q} source page_num result small chained shows
      h =
    let available = max (usable_size - 4) 1 in
    let chunks = chunks_of (length rest) available rest in
    let (pair, allocated, e1) = >>=-eq-ok (allocate_pages chunks p) _ h in
    let (q2, wrote, e2) = >>=-eq-ok (write_links pair.1 pair.0 chunks) _ e1 in
    let is_first : first_of pair.0 ≡ first = cc in
    let is_q : q2 ≡ q = cc in
    let (fresh, short) = chained pair.0 pair.1 allocated in
    let wrote_q : write_links pair.1 pair.0 chunks ≡ ok q = wrote ∙ ap ok is_q in
    let read =
      read_chain-write_links source q shows page_num available (omega arith) (omega arith)
        (length rest) rest pair.1 [] pair.0 0 result (omega arith) fresh (omega arith) wrote_q in
    (
      subst IsU32 is_first (first_of-fits [] pair.0 fresh),
      subst
          (λ n.
            read_chain (length rest) source page_num available (length rest) n [] 0 result
            ≡ ok (result ++ rest))
          is_first read,
    )

abbrev local_len : ℕ → List ℕ → ℕ
local_len usable_size payload = local_payload_size usable_size (length payload) false

module _ (p : Pager) (usable_size page_num : ℕ) (payload : List ℕ) (q : Pager) (source : Source)
    (small : IsU32 usable_size) (short : length payload ≤ max_payload_len)
    (chained : IsChained p usable_size (drop (local_len usable_size payload) payload))
    (shows : Shows source q) where
  payload-back :
      (rest tail : List ℕ)
      → drop (local_len usable_size payload) payload ≡ rest
      → encode_overflow p usable_size rest ≡ ok (tail, q)
      → (before back : List ℕ)
      → reassemble_payload source usable_size page_num
          (before ++ (take (local_len usable_size payload) payload ++ (tail ++ back)))
          (length before)
          (length payload)
          false
        ≡ ok payload
  unfolding encode_overflow
  payload-back [] tail is h before back =
      let local_size = local_len usable_size payload in
      let size : length payload - local_size ≡ 0 =
        sym (length-drop local_size payload) ∙ ap length is in
      let le : local_size ≤ length payload =
        local_payload_size-le usable_size (length payload) small in
      let whole : local_size ≡ length payload = omega arith in
      let no_tail : tail ≡ [] = cc in
      let all : take local_size payload ≡ payload = take_all local_size payload (omega arith) in
      rw (all, no_tail)
        (reassemble_payload-local source usable_size page_num before payload back short whole)
  payload-back (b ∷ rest) tail is h before back =
      let local_size = local_len usable_size payload in
      let bytes = b ∷ rest in
      let size : length bytes ≡ length payload - local_size =
        ap length (sym is) ∙ length-drop local_size payload in
      let less : local_size < length payload = omega arith in
      let (pair, wrote, e) = >>=-eq-ok (write_overflow_chain p usable_size bytes) _ h in
      let is_tail : be_bytes 4 pair.0 ≡ tail = cc in
      let is_pair : pair ≡ (pair.0, q) = cc in
      let chained_rest : IsChained p usable_size bytes =
        subst (IsChained p usable_size) is chained in
      let (fits, read) =
        write_overflow_chain-read p usable_size bytes source page_num (take local_size payload)
          small chained_rest shows (wrote ∙ ap ok is_pair) in
      let whole : take local_size payload ++ bytes ≡ payload =
        ap (λ t. take local_size payload ++ t) (sym is) ∙ take-append-drop local_size payload in
      let chain =
        subst
          (λ n.
            read_chain n source page_num (max (usable_size - 4) 1) n pair.0 [] 0
              (take local_size payload)
            ≡ ok payload)
          size (read ∙ ap ok whole) in
      subst
        (λ t.
          reassemble_payload source usable_size page_num
            (before ++ (take local_size payload ++ (t ++ back))) (length before) (length payload)
            false
          ≡ ok payload)
        is_tail
        (reassemble_payload-overflow source usable_size page_num before payload back pair.0 short
          less fits chain)

  -- A cell that `encode_leaf_cell` made without an error, wherever it stands in a page:
  -- `decode_cell_head` gives its rowid, its payload's length and the place of the payload, and
  -- `reassemble_payload` gives the payload back, through the overflow chain where there is one. The
  -- source shows the dirty pages, the pages that were allocated for the chain are different ones,
  -- from 1 up and at most a million, and the payload is not longer than SQLite allows.
  pub reassemble_payload-encode_leaf_cell :
      (rowid : ℕ) (front back : List ℕ) {cell : List ℕ}
      → rowid < 2 ^ 64
      → length front + length cell ≤ u64_max
      → encode_leaf_cell p usable_size rowid payload ≡ ok (cell, q)
      → (start : ℕ) × (decode_cell_head (front ++ (cell ++ back)) (length front) page_num
          ≡ ok (rowid, length payload, start))
        × (reassemble_payload source usable_size page_num
              (front ++ (cell ++ back))
              start
              (length payload)
              false
            ≡ ok payload)
  unfolding encode_leaf_cell
  reassemble_payload-encode_leaf_cell rowid front back {cell} fits room h =
      let size = length payload in
      let local_size = local_len usable_size payload in
      let v1 = encode_varint size in
      let v2 = encode_varint rowid in
      let bytes = take local_size payload in
      let at_most : min local_size size ≡ local_size =
        omega (arith, local_payload_size-le usable_size size small) in
      let (tail, wrote, made) =
        >>=-eq-ok (encode_overflow p usable_size (drop (min local_size size) payload)) _ h in
      let is_tail : tail ≡ (tail.0, q) = cc in
      let is_cell : cell ≡ v1 ++ (v2 ++ (bytes ++ tail.0)) =
        sym (cc) ∙ ap (λ n. v1 ++ (v2 ++ (take n payload ++ tail.0))) at_most in
      let wrote_tail : encode_overflow p usable_size (drop local_size payload) ≡ ok (tail.0, q) =
        ap (λ n. encode_overflow p usable_size (drop n payload)) (sym at_most)
        ∙ wrote
        ∙ ap ok is_tail in
      let behind = bytes ++ (tail.0 ++ back) in
      let shape : cell ++ back ≡ v1 ++ (v2 ++ behind) =
        ap (λ t. t ++ back) is_cell ∙ simp append_assoc refl in
      let page1 : front ++ (cell ++ back) ≡ front ++ (v1 ++ (v2 ++ behind)) =
        ap (λ t. front ++ t) shape in
      let page2 : front ++ (cell ++ back) ≡ (front ++ (v1 ++ v2)) ++ behind =
        page1 ∙ simp append_assoc refl in
      let start = length front + (length v1 + length v2) in
      let width : length (front ++ (v1 ++ v2)) ≡ start =
        rw (length-append front (v1 ++ v2), length-append v1 v2) refl in
      let room_head : start ≤ u64_max = omega (
        arith,
        room,
        ap length is_cell,
        length-append v1 (v2 ++ (bytes ++ tail.0)),
        length-append v2 (bytes ++ tail.0),
      ) in
      (
        start,
        ap (λ t. decode_cell_head t (length front) page_num) page1
            ∙ decode_cell_head-encode front behind size rowid page_num (omega (arith, short)) fits
                room_head,
        ap (λ t. reassemble_payload source usable_size page_num t start size false) page2
            ∙ ap
                (λ n.
                  reassemble_payload source usable_size page_num ((front ++ (v1 ++ v2)) ++ behind) n
                    size false)
                (sym width)
            ∙ payload-back (drop local_size payload) tail.0 refl wrote_tail (front ++ (v1 ++ v2))
                back,
      )
