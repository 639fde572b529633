-- ===== src/Btree/Leaf.antt =====
-- The walks over the cells of a leaf page, of src/row/btree/mod.rs.
use db_storage.Prelude.{
  ℕ, zero, suc, ◌+◌, ◌-◌, ◌^◌, ◌%◌, ◌&&◌, Bool, List, [], ◌∷◌, Option, some, none, Result, ok, err,
  ◌>>=◌, ok_or, false, if◌then◌else◌, ltb, ◌==◌, length, slice?, sat_add, sat_mul, from_be,
}
use db_storage.Btree.{
  BtreeError, page_too_short, invalid_cell_pointer, payload_too_short, duplicate_rowid, read_u32,
  local_payload_size, decode_cell_head,
}

-- An `i64` behind another.
unfoldable pub gt_i64 : ℕ → ℕ → Bool
gt_i64 a b = ltb ((b + 2 ^ 63) % 2 ^ 64) ((a + 2 ^ 63) % 2 ^ 64)

unfoldable pub read_num_cells : List ℕ → ℕ → ℕ → Result BtreeError ℕ
read_num_cells page header_start page_num = do
  bytes ←
      ok_or (slice? page (sat_add header_start 3) (sat_add header_start 5))
        (page_too_short page_num (length page))
  ok (from_be bytes)

unfoldable pub read_cell_pointer : List ℕ → ℕ → ℕ → ℕ → Result BtreeError ℕ
read_cell_pointer page ptr_off page_num cell_index = do
  bytes ← ok_or (slice? page ptr_off (sat_add ptr_off 2)) (invalid_cell_pointer page_num cell_index)
  ok (from_be bytes)

unfoldable pub cell_ptr_offset : ℕ → ℕ → ℕ
cell_ptr_offset base i = sat_add base (sat_mul i 2)

pub record LeafCell : Type 0 where
  pub cell_start : ℕ
  pub rowid : ℕ
  pub payload_len : ℕ
  pub tail_start : ℕ

-- The head of cell `i`.
unfoldable pub leaf_cell : List ℕ → ℕ → ℕ → ℕ → Result BtreeError LeafCell
leaf_cell buf ptr_base page_num i = do
  cell_start ← read_cell_pointer buf (cell_ptr_offset ptr_base i) page_num i
  (rowid, payload_len, tail_start) ← decode_cell_head buf cell_start page_num
  ok (record {
    cell_start = cell_start;
    rowid = rowid;
    payload_len = payload_len;
    tail_start = tail_start;
  })

-- The end of a cell.
unfoldable pub cell_end : ℕ → LeafCell → ℕ
cell_end usable_size c =
    let local_size = local_payload_size usable_size c.payload_len false in
    sat_add (sat_add c.tail_start local_size) (if ltb local_size c.payload_len then 4 else 0)

-- The loop of `collect_leaf_cells`, from cell `i`.
unfoldable pub collect_cells : ℕ → List ℕ → ℕ → ℕ → ℕ → ℕ → Result BtreeError (List (ℕ × List ℕ))
collect_cells zero buf ptr_base page_num usable_size i = ok []
collect_cells (suc left) buf ptr_base page_num usable_size i = do
  c ← leaf_cell buf ptr_base page_num i
  bytes ← ok_or (slice? buf c.cell_start (cell_end usable_size c)) (payload_too_short page_num)
  cells ← collect_cells left buf ptr_base page_num usable_size (suc i)
  ok ((c.rowid, bytes) ∷ cells)

unfoldable pub collect_leaf_cells : List ℕ → ℕ → ℕ → ℕ → Result BtreeError (List (ℕ × List ℕ))
collect_leaf_cells buf header_start page_num usable_size = do
  num_cells ← read_num_cells buf header_start page_num
  collect_cells num_cells buf (sat_add header_start 8) page_num usable_size 0

-- An iteration of `scan_leaf_cells`, with what the others give.
unfoldable pub scan_cell :
    List ℕ → ℕ → ℕ → ℕ → LeafCell → Result BtreeError (ℕ × ℕ × ℕ) → Result BtreeError (ℕ × ℕ × ℕ)
scan_cell buf page_num usable_size rowid c rest =
    if c.rowid == rowid
    then err (duplicate_rowid rowid)
    else if ltb (length buf) (cell_end usable_size c)
    then err (payload_too_short page_num)
    else rest

-- The loop of `scan_leaf_cells`, from cell `i`.
unfoldable pub scan_cells :
    ℕ → List ℕ → ℕ → ℕ → ℕ → ℕ → ℕ → ℕ → ℕ → ℕ → Result BtreeError (ℕ × ℕ × ℕ)
scan_cells zero buf ptr_base page_num usable_size rowid num_cells i insert_pos total_bytes =
    ok (insert_pos, num_cells, total_bytes)
scan_cells (suc left) buf ptr_base page_num usable_size rowid num_cells i insert_pos total_bytes =
    leaf_cell buf ptr_base page_num i >>= λ c. scan_cell buf page_num usable_size rowid c (
      scan_cells left buf ptr_base page_num usable_size rowid num_cells (suc i)
        (if gt_i64 c.rowid rowid && (insert_pos == num_cells) then i else insert_pos)
        (sat_add total_bytes (cell_end usable_size c - c.cell_start)))

unfoldable pub scan_leaf_cells : List ℕ → ℕ → ℕ → ℕ → ℕ → Result BtreeError (ℕ × ℕ × ℕ)
scan_leaf_cells buf header_start page_num usable_size rowid = do
  num_cells ← read_num_cells buf header_start page_num
  scan_cells num_cells buf (sat_add header_start 8) page_num usable_size rowid num_cells 0 num_cells
      0

-- The first overflow page of a cell, or 0.
unfoldable pub overflow_page : List ℕ → ℕ → ℕ → LeafCell → Result BtreeError ℕ
overflow_page buf page_num usable_size c =
    let local_size = local_payload_size usable_size c.payload_len false in
    if ltb local_size c.payload_len
    then read_u32 buf (sat_add c.tail_start local_size) page_num
    else ok 0

-- An iteration of `find_leaf_cell` at cell `i`, with what the others give.
unfoldable pub find_cell :
    List ℕ
    → ℕ
    → ℕ
    → ℕ
    → ℕ
    → ℕ
    → LeafCell
    → Result BtreeError (Option (ℕ × ℕ × ℕ))
    → Result BtreeError (Option (ℕ × ℕ × ℕ))
find_cell buf page_num usable_size rowid num_cells i c rest =
    let here : Result BtreeError (Option (ℕ × ℕ × ℕ)) =
      overflow_page buf page_num usable_size c >>= λ first. ok (some (i, num_cells, first)) in
    if c.rowid == rowid then here else rest

-- The loop of `find_leaf_cell`, from cell `i`.
unfoldable pub find_cells :
    ℕ → List ℕ → ℕ → ℕ → ℕ → ℕ → ℕ → ℕ → Result BtreeError (Option (ℕ × ℕ × ℕ))
find_cells zero buf ptr_base page_num usable_size rowid num_cells i = ok none
find_cells (suc left) buf ptr_base page_num usable_size rowid num_cells i =
    leaf_cell buf ptr_base page_num i >>= λ c.
    find_cell buf page_num usable_size rowid num_cells i c
      (find_cells left buf ptr_base page_num usable_size rowid num_cells (suc i))

unfoldable pub find_leaf_cell : List ℕ → ℕ → ℕ → ℕ → ℕ → Result BtreeError (Option (ℕ × ℕ × ℕ))
find_leaf_cell buf header_start page_num usable_size rowid = do
  num_cells ← read_num_cells buf header_start page_num
  find_cells num_cells buf (sat_add header_start 8) page_num usable_size rowid num_cells 0
