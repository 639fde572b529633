-- ===== src/Tests/Btree.antt =====
-- src/row/btree: a payload of six bytes on a page with room for none, in a chain of two pages.
use db_storage.Prelude.{
  ℕ, ◌≤◌, ◌≡◌, refl, ap, List, [], ◌∷◌, ◌++◌, length, replicate, Result, ok, err, none, arith,
  false, some, from_be, slice?, slice_from?, write_slice?,
}
use mathlib.Core.Path.{subst}
use db_storage.Record.Varint.{decode_varint, encode_varint}
use db_storage.Pager.{Pager, PagerError}
use db_storage.Pager.Allocate.{read_dirty_page, allocate_page, extend}
use db_storage.Vfs.PageSource.{PageError, read_page}
use db_storage.Btree.{
  read_u32, BtreeError, Source, put, max_local, min_local, local_payload_size, chunks_of,
  allocate_pages, write_links, write_overflow_chain, encode_overflow, encode_leaf_cell,
  decode_cell_head, reassemble_payload, seen,
}
use db_storage.Btree.Leaf.{
  find_leaf_cell, find_cells, find_cell, overflow_page, collect_leaf_cells, read_num_cells,
  collect_cells, leaf_cell, read_cell_pointer, cell_ptr_offset, cell_end, gt_i64, scan_leaf_cells,
}
use db_storage.Btree.Find.{IsFound, lookup_cell, find_leaf_cell-collect_leaf_cells}
use db_storage.Btree.Scan.{has_rowid, place, total, scan_leaf_cells-collect_leaf_cells}
use db_storage.Btree.Layout.{write_leaf_page, cell_bytes}
use db_storage.Btree.Placed.{sizes}
use db_storage.Btree.Touched.{Touched}
use db_storage.Btree.LeafPages.{collect_leaf_cells-write_leaf_page}
use db_storage.Btree.Overflow.{IsFresh}
use db_storage.Btree.RoundTrip.{IsChained, reassemble_payload-encode_leaf_cell}

abbrev pager_1 : Pager
pager_1 = record {
  source = [];
  journal_file = none;
  page_size = 40;
  dirty = (1, replicate 28 1 ++ (0 ∷ 0 ∷ 0 ∷ 1 ∷ replicate 8 0)) ∷ [];
}

abbrev payload : List ℕ
payload = 10 ∷ 11 ∷ 12 ∷ 13 ∷ 14 ∷ 15 ∷ []

abbrev cell : List ℕ
cell = 6 ∷ 7 ∷ 0 ∷ 0 ∷ 0 ∷ 2 ∷ []

abbrev pager_3 : Pager
pager_3 = record pager_1 {
  dirty =
      (1, replicate 28 1 ++ (0 ∷ 0 ∷ 0 ∷ 3 ∷ replicate 8 0))
      ∷ (2, 0 ∷ 0 ∷ 0 ∷ 3 ∷ 10 ∷ 11 ∷ 12 ∷ 13 ∷ replicate 32 0)
      ∷ (3, 0 ∷ 0 ∷ 0 ∷ 0 ∷ 14 ∷ 15 ∷ replicate 34 0)
      ∷ [];
}

abbrev shown : Result PagerError (List ℕ) → Result PageError (List ℕ)
shown (ok bytes) = ok bytes
shown (err e) = read_page [] 8 0

abbrev source_of : Pager → Source
source_of q n = shown (read_dirty_page q n)

encoded : encode_leaf_cell pager_1 8 7 payload ≡ ok (cell, pager_3)
unfolding encode_leaf_cell encode_varint encode_overflow local_payload_size max_local min_local
    write_overflow_chain chunks_of allocate_pages write_links put allocate_page extend write_slice?
    slice?
encoded = refl

pages_of : Result BtreeError (List ℕ × Pager) → List ℕ
pages_of (ok pair) = pair.0
pages_of (err e) = []

chained : IsChained pager_1 8 payload
unfolding allocate_pages pages_of chunks_of allocate_page extend slice? write_slice? IsFresh seen
chained page_nums after h =
    let are : 2 ∷ 3 ∷ [] ≡ page_nums = ap pages_of h in
    let fresh : IsFresh [] (2 ∷ 3 ∷ []) =
      (omega arith, omega arith, refl, (omega arith, omega arith, refl, tt)) in
    (subst (IsFresh []) are fresh, subst (λ ns. length ns ≤ 1000000) are (omega arith))

-- The cell stands behind one byte, and the cell of a null follows it.
reassemble_payload-encode_leaf_cell_example :
    (start : ℕ) × (decode_cell_head (5 ∷ (cell ++ (1 ∷ 8 ∷ 0 ∷ []))) 1 3 ≡ ok (7, 6, start))
    × (reassemble_payload (source_of pager_3) 8 3 (5 ∷ (cell ++ (1 ∷ 8 ∷ 0 ∷ []))) start 6 false
        ≡ ok payload)
reassemble_payload-encode_leaf_cell_example =
    reassemble_payload-encode_leaf_cell pager_1 8 3 payload pager_3 (source_of pager_3)
      (omega arith) (omega arith) (unfold local_payload_size max_local min_local in chained)
      (λ n bytes h. ap shown h) 7 (5 ∷ []) (1 ∷ 8 ∷ 0 ∷ []) (omega arith) (omega arith) encoded

-- A leaf with the cells of rowids 5 and 8.
abbrev leaf_page : List ℕ
leaf_page = 13 ∷ 0 ∷ 0 ∷ 0 ∷ 2 ∷ 0 ∷ 0 ∷ 0 ∷ 0 ∷ 12 ∷ 0 ∷ 16 ∷ 2 ∷ 5 ∷ 9 ∷ 9 ∷ 1 ∷ 8 ∷ 7 ∷ []

abbrev leaf_cells : List (ℕ × List ℕ)
leaf_cells = (5, 2 ∷ 5 ∷ 9 ∷ 9 ∷ []) ∷ (8, 1 ∷ 8 ∷ 7 ∷ []) ∷ []

collected : collect_leaf_cells leaf_page 0 3 64 ≡ ok leaf_cells
unfolding collect_leaf_cells read_num_cells collect_cells leaf_cell read_cell_pointer
    cell_ptr_offset decode_cell_head decode_varint cell_end local_payload_size max_local min_local
    slice? slice_from? from_be
collected = refl

scan_leaf_cells-collect_leaf_cells_example : scan_leaf_cells leaf_page 0 3 64 6 ≡ ok (1, 2, 7)
unfolding has_rowid place total gt_i64
scan_leaf_cells-collect_leaf_cells_example =
    scan_leaf_cells-collect_leaf_cells leaf_page 0 3 64 6 collected

-- The same cells, written behind a header of four bytes.
collect_leaf_cells-write_leaf_page_example :
    (changed : List ℕ) × (write_leaf_page (replicate 40 1) 4 3 (cell_bytes leaf_cells) ≡ ok changed)
    × Touched 4 40 (replicate 40 1) changed
    × (collect_leaf_cells changed 4 3 64 ≡ ok leaf_cells)
unfolding cell_bytes sizes local_payload_size max_local min_local encode_varint
collect_leaf_cells-write_leaf_page_example =
    collect_leaf_cells-write_leaf_page (replicate 40 1) 4 3 64 leaf_cells (omega arith)
      (omega arith)
      (
        (2, 9 ∷ 9 ∷ [], omega arith, omega arith, refl, refl),
        ((1, 7 ∷ [], omega arith, omega arith, refl, refl), tt),
      )

-- A leaf with a cell without payload, and one whose payload is on page 2.
abbrev chained_page : List ℕ
chained_page = 13 ∷ 0 ∷ 0 ∷ 0 ∷ 2 ∷ 0 ∷ 0 ∷ 0 ∷ 0 ∷ 12 ∷ 0 ∷ 14 ∷ 0 ∷ 5 ∷ 6 ∷ 7 ∷ 0 ∷ 0 ∷ 0 ∷ 2 ∷ []

abbrev chained_cells : List (ℕ × List ℕ)
chained_cells = (5, 0 ∷ 5 ∷ []) ∷ (7, cell) ∷ []

found_overflow : find_leaf_cell chained_page 0 3 8 7 ≡ ok (some (1, 2, 2))
unfolding find_leaf_cell find_cells find_cell overflow_page read_u32 read_num_cells leaf_cell
    read_cell_pointer cell_ptr_offset decode_cell_head decode_varint local_payload_size max_local
    min_local slice? slice_from? from_be
found_overflow = refl

collected_chained : collect_leaf_cells chained_page 0 3 8 ≡ ok chained_cells
unfolding collect_leaf_cells read_num_cells collect_cells leaf_cell read_cell_pointer
    cell_ptr_offset decode_cell_head decode_varint cell_end local_payload_size max_local min_local
    slice? slice_from? from_be
collected_chained = refl

find_leaf_cell-collect_leaf_cells_example :
    IsFound chained_page 8 3 8 7 2 (find_leaf_cell chained_page 0 3 8 7) (some (1, cell))
unfolding lookup_cell
find_leaf_cell-collect_leaf_cells_example =
    find_leaf_cell-collect_leaf_cells chained_page 0 3 8 7 (omega arith) collected_chained
