-- ===== src/Btree/LastWord.antt =====
-- The overflow page of a cell on a leaf, of src/row/btree/mod.rs: the last four bytes of the cell.
use db_storage.Prelude.{
  ℕ, ◌+◌, ◌-◌, ◌≤◌, ◌≡◌, refl, sym, inl, inr, ◌∙◌, ap, true, false, List, some, ok, >>=-eq-ok,
  map_err, ok_or, if◌then◌else◌, ltb, leb, Bool-cases, length, slice?, slice_from?, take, drop,
  sat_add, from_be, min, u64_max, arith, ◌&&◌, length-take, length-drop, drop-drop, take-drop-take,
  take_all,
}
use db_storage.Record.Varint.{decode_varint}
use db_storage.Btree.{read_u32, local_payload_size, decode_cell_head}
use db_storage.Btree.Leaf.{
  LeafCell, leaf_cell, cell_end, read_cell_pointer, cell_ptr_offset, overflow_page,
}

-- The page that the last four bytes of a cell name, or 0 where the payload is all in the cell.
unfoldable pub named_page : ℕ → ℕ → List ℕ → ℕ
named_page usable_size payload_len bytes =
    if ltb (local_payload_size usable_size payload_len false) payload_len
    then from_be (drop (length bytes - 4) bytes)
    else 0

-- The last bytes of a range.
drop-take_end :
    (n m : ℕ) (xs : List ℕ) → m ≤ n → n ≤ length xs → drop m (take n xs) ≡ take (n - m) (drop m xs)
drop-take_end n m xs le inside =
    sym (
      take_all (n - m) (drop m (take n xs))
        (omega (arith, length-drop m (take n xs), length-take n xs)))
    ∙ take-drop-take (n - m) m n xs (omega arith)

slice-last :
    (buf : List ℕ) (start at : ℕ) {bytes : List ℕ}
    → start ≤ at
    → slice? buf start (at + 4) ≡ some bytes
    → slice? buf at (at + 4) ≡ some (drop (length bytes - 4) bytes)
unfolding slice?
slice-last buf start at {bytes} le h =
    elim (Bool-cases (leb start (at + 4) && leb (at + 4) (length buf))) [
      | inl inside ↦
          let is : bytes ≡ take (at + 4 - start) (drop start buf) = cc in
          let bounds : (start ≤ at + 4) × (at + 4 ≤ length buf) = ground arith in
          let size : length bytes ≡ at + 4 - start =
            ap length is
            ∙ length-take (at + 4 - start) (drop start buf)
            ∙ omega (arith, length-drop start buf) in
          let skip : length bytes - 4 ≡ at - start = omega arith in
          let width : at + 4 - start - (at - start) ≡ at + 4 - at = omega arith in
          let place : start + (at - start) ≡ at = omega arith in
          let last : drop (length bytes - 4) bytes ≡ take (at + 4 - at) (drop at buf) =
            ap (λ n. drop n bytes) skip
            ∙ ap (drop (at - start)) is
            ∙ drop-take_end (at + 4 - start) (at - start) (drop start buf) (omega arith)
                (omega (arith, length-drop start buf))
            ∙ ap (λ n. take n (drop (at - start) (drop start buf))) width
            ∙ ap (take (at + 4 - at))
                (drop-drop (at - start) start buf ∙ ap (λ n. drop n buf) place) in
          let here : leb at (at + 4) && leb (at + 4) (length buf) ≡ true = ground arith in
          rw (here, last) refl
      | inr outside ↦ cc
    ]

-- The payload of a cell starts in it.
leaf_cell-start :
    (buf : List ℕ) (ptr_base page_num i : ℕ) {c : LeafCell}
    → leaf_cell buf ptr_base page_num i ≡ ok c
    → min c.cell_start u64_max ≤ c.tail_start
unfolding leaf_cell decode_cell_head
leaf_cell-start buf ptr_base page_num i {c} h =
    let (start, is_start, e1) =
      >>=-eq-ok (read_cell_pointer buf (cell_ptr_offset ptr_base i) page_num i) _ h in
    let (head, is_head, e2) = >>=-eq-ok (decode_cell_head buf start page_num) _ e1 in
    let (cell, is_cell, e3) = >>=-eq-ok (ok_or (slice_from? buf start) _) _ is_head in
    let (v1, is_v1, e4) = >>=-eq-ok (map_err _ (decode_varint cell)) _ e3 in
    let (rest, is_rest, e5) = >>=-eq-ok (ok_or (slice_from? cell v1.1) _) _ e4 in
    let (v2, is_v2, e6) = >>=-eq-ok (map_err _ (decode_varint rest)) _ e5 in
    let is_tail : head.2 ≡ sat_add (sat_add start v1.1) v2.1 = cc in
    let same_start : c.cell_start ≡ start = cc in
    let same_tail : c.tail_start ≡ head.2 = cc in omega arith

slice-bounds :
    (buf : List ℕ) (i j : ℕ) {bytes : List ℕ}
    → slice? buf i j ≡ some bytes
    → (i ≤ j) × (j ≤ length buf)
unfolding slice?
slice-bounds buf i j h = elim (Bool-cases (leb i j && leb j (length buf))) [
  | inl inside ↦ ground arith
  | inr outside ↦ cc
]

read_u32-some :
    (buf : List ℕ) (at page_num : ℕ) {word : List ℕ}
    → at + 4 ≤ u64_max
    → slice? buf at (at + 4) ≡ some word
    → read_u32 buf at page_num ≡ ok (from_be word)
unfolding read_u32
read_u32-some buf at page_num small is =
    let end : sat_add at 4 ≡ at + 4 = omega arith in rw (end, is) refl

pub overflow_page-named_page :
    (buf : List ℕ) (ptr_base page_num usable_size i : ℕ) (c : LeafCell) {bytes : List ℕ}
    → length buf ≤ 65536
    → leaf_cell buf ptr_base page_num i ≡ ok c
    → slice? buf c.cell_start (cell_end usable_size c) ≡ some bytes
    → overflow_page buf page_num usable_size c ≡ ok (named_page usable_size c.payload_len bytes)
unfolding overflow_page named_page cell_end
overflow_page-named_page buf ptr_base page_num usable_size i c {bytes} small is_c is =
    let local_size = local_payload_size usable_size c.payload_len false in
    let at = sat_add c.tail_start local_size in
    let start = leaf_cell-start buf ptr_base page_num i is_c in
    elim (Bool-cases (ltb local_size c.payload_len)) [
      | inl more ↦
          let spread : slice? buf c.cell_start (sat_add at 4) ≡ some bytes =
            ap (λ b. slice? buf c.cell_start (sat_add at (if b then 4 else 0))) (sym more) ∙ is in
          let bounds = slice-bounds buf c.cell_start (sat_add at 4) spread in
          let end : sat_add at 4 ≡ at + 4 = omega arith in
          let last =
            slice-last buf c.cell_start at (omega arith)
              (ap (slice? buf c.cell_start) (sym end) ∙ spread) in
          rw more (read_u32-some buf at page_num (omega arith) last)
      | inr whole ↦ rw whole refl
    ]
