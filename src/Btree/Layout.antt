-- ===== src/Btree/Layout.antt =====
-- The layout of a leaf page, of src/row/btree/mod.rs.
use db_storage.Prelude.{
  ℕ, suc, ◌-◌, List, [], ◌∷◌, ◌++◌, Option, some, none, Result, ok, err, ◌>>=◌, ok_or,
  if◌then◌else◌, ltb, leb, length, take, replicate, sat_add, be_bytes,
}
use db_storage.Btree.{BtreeError, internal, page_too_short, put}
use db_storage.Btree.Leaf.{cell_ptr_offset}

abbrev pub leaf_table : ℕ
leaf_table = 13

unfoldable pub put_u8 : List ℕ → ℕ → ℕ → ℕ → Result BtreeError (List ℕ)
put_u8 buf offset value page_num = put buf offset (value ∷ []) page_num

-- The bytes that the cells and their pointers need, behind `ptr_base`.
unfoldable pub needed : ℕ → List (List ℕ) → ℕ
needed sum [] = sum
needed sum (cell ∷ cells) = needed (sat_add sum (sat_add (length cell) 2)) cells

-- `buf.get_mut(header_start..)` and `fill(0)`
unfoldable pub fill_from : List ℕ → ℕ → Option (List ℕ)
fill_from buf header_start =
    if leb header_start (length buf)
    then some (take header_start buf ++ replicate (length buf - header_start) 0)
    else none

-- The cells from the last one on, each in front of the one before; their offsets, in order.
unfoldable pub put_cells : List ℕ → ℕ → List (List ℕ) → Result BtreeError (List ℕ × ℕ × List ℕ)
put_cells buf page_num [] = ok (buf, length buf, [])
put_cells buf page_num (cell ∷ cells) = do
  (buf, content_end, ptr_offsets) ← put_cells buf page_num cells
  let content_end = content_end - length cell
  buf ← put buf content_end cell page_num
  ok (buf, content_end, content_end ∷ ptr_offsets)

-- An offset in 16 bits: 65536 is 0.
abbrev pub offset_word : ℕ → List ℕ
offset_word offset = be_bytes 2 (if leb 65536 offset then 0 else offset)

-- The pointers, from the one of cell `i`.
unfoldable pub put_pointers : List ℕ → ℕ → ℕ → ℕ → List ℕ → Result BtreeError (List ℕ)
put_pointers buf page_num ptr_base i [] = ok buf
put_pointers buf page_num ptr_base i (offset ∷ ptr_offsets) = do
  buf ← put buf (cell_ptr_offset ptr_base i) (offset_word offset) page_num
  put_pointers buf page_num ptr_base (suc i) ptr_offsets

-- The fields of the header behind the page type.
unfoldable pub put_counts : List ℕ → ℕ → ℕ → ℕ → ℕ → Result BtreeError (List ℕ)
put_counts buf header_start page_num num_cells content_end = do
  buf ← put buf (sat_add header_start 3) (be_bytes 2 num_cells) page_num
  buf ← put buf (sat_add header_start 5) (offset_word content_end) page_num
  put_u8 buf (sat_add header_start 7) 0 page_num

-- `write_page_common` behind its check that the cells fit.
unfoldable pub lay_out : List ℕ → ℕ → ℕ → ℕ → ℕ → List (List ℕ) → Result BtreeError (List ℕ)
lay_out buf header_start page_num page_type header_len cells = do
  buf ← ok_or (fill_from buf header_start) (page_too_short page_num (length buf))
  buf ← put_u8 buf header_start page_type page_num
  (buf, content_end, ptr_offsets) ← put_cells buf page_num cells
  buf ← put_pointers buf page_num (sat_add header_start header_len) 0 ptr_offsets
  put_counts buf header_start page_num (length cells) content_end

unfoldable pub write_page_common :
    List ℕ → ℕ → ℕ → ℕ → ℕ → List (List ℕ) → Result BtreeError (List ℕ)
write_page_common buf header_start page_num page_type header_len cells =
    let laid = lay_out buf header_start page_num page_type header_len cells in
    if ltb (length buf) (needed (sat_add header_start header_len) cells) then err internal else laid

-- `cell_bytes`
unfoldable pub cell_bytes : List (ℕ × List ℕ) → List (List ℕ)
cell_bytes [] = []
cell_bytes ((rowid, bytes) ∷ cells) = bytes ∷ cell_bytes cells

unfoldable pub write_leaf_page : List ℕ → ℕ → ℕ → List (List ℕ) → Result BtreeError (List ℕ)
write_leaf_page buf header_start page_num cells =
    write_page_common buf header_start page_num leaf_table 8 cells
