-- ===== src/Btree/LeafPages.antt =====
-- `write_leaf_page` and `collect_leaf_cells` of src/row/btree/mod.rs, together.
use db_storage.Prelude.{
  ℕ, ◌+◌, ◌-◌, ◌*◌, ◌≤◌, ◌≡◌, inl, ◌∙◌, ap, false, List, [], ◌∷◌, ok, All, length, ltb, sat_add,
  arith,
}
use db_storage.Btree.Leaf.{collect_cells, collect_leaf_cells}
use db_storage.Btree.Layout.{
  needed, leaf_table, cell_bytes, write_page_common, write_leaf_page, lay_out,
}
use db_storage.Btree.Touched.{Touched, Touched-trans, Touched-widen, put-ok}
use db_storage.Btree.Placed.{
  sizes, Laid-Touched, put_cells-Laid, Pointed-Touched, put_pointers-Pointed,
}
use db_storage.Btree.Pages.{IsLeafCell, collect_cells-placed}
use db_storage.Btree.Rewrite.{
  needed-bound, fill_from-ok, put_counts-ok, length-Laid, length-cell_bytes, lay_out-eq,
  collect_leaf_cells-eq,
}

write_leaf_page-eq :
    (buf : List ℕ) (header_start page_num : ℕ) (cells : List (List ℕ)) {changed : List ℕ}
    → header_start + (8 + (sizes cells + length cells * 2)) ≤ length buf
    → length buf ≤ 65536
    → lay_out buf header_start page_num leaf_table 8 cells ≡ ok changed
    → write_leaf_page buf header_start page_num cells ≡ ok changed
unfolding write_leaf_page write_page_common
write_leaf_page-eq buf header_start page_num cells room small laid =
    let fits : ltb (length buf) (needed (sat_add header_start 8) cells) ≡ false =
      ground (arith, needed-bound (sat_add header_start 8) cells) in
    rw fits laid

-- Cells of a table leaf that fit in the page, of at most 65536 bytes, with their pointers behind
-- the header: `write_leaf_page` writes them without an error, leaves the bytes in front of the
-- header as they were and the length of the page, and `collect_leaf_cells` reads the same cells
-- back in the same order.
pub collect_leaf_cells-write_leaf_page :
    (buf : List ℕ) (header_start page_num usable_size : ℕ) (cells : List (ℕ × List ℕ))
    → header_start + (8 + (sizes (cell_bytes cells) + length cells * 2)) ≤ length buf
    → length buf ≤ 65536
    → All (IsLeafCell usable_size) cells
    → (changed : List ℕ) × (write_leaf_page buf header_start page_num (cell_bytes cells)
        ≡ ok changed)
      × Touched header_start (length buf) buf changed
      × (collect_leaf_cells changed header_start page_num usable_size ≡ ok cells)
collect_leaf_cells-write_leaf_page buf header_start page_num usable_size cells room small all =
    let hs = header_start in
    let bytes = cell_bytes cells in
    let n = length bytes in
    let number : n ≡ length cells = length-cell_bytes cells in
    let top = length buf in
    let base = hs + 8 in
    let (b0, is0, t0) = fill_from-ok buf hs (omega arith) in
    let (b1, is1, t1, _) = put-ok b0 hs (leaf_table ∷ []) page_num (omega (arith, t0.0)) in
    let size1 : length b1 ≡ top = t1.0 ∙ t0.0 in
    let (b2, offsets, is2, t2, laid2) = put_cells-Laid b1 page_num bytes (omega arith) in
    let low = length b1 - sizes bytes in
    let count : length offsets ≡ n = length-Laid low b2 offsets bytes laid2 in
    let end = base + (0 + length offsets) * 2 in
    let (b3, is3, t3, pointed3) =
      put_pointers-Pointed b2 page_num base 0 offsets (omega (arith, t2.0)) (omega (arith, t2.0)) in
    let (b4, is4, t4, counted) =
      put_counts-ok page_num hs b3 n low (omega (arith, t2.0, t3.0)) (omega (arith, t2.0, t3.0))
        (omega arith) in
    let at : sat_add hs 8 ≡ base = omega arith in
    let laid4 =
      Laid-Touched low hs base b3 b4 offsets bytes (omega arith) t4
        (Laid-Touched low (base + 0 * 2) end b2 b3 offsets bytes (omega arith) t3 laid2) in
    let pointed4 = Pointed-Touched base 0 hs base b3 b4 offsets (inl (omega arith)) t4 pointed3 in
    let wrote =
      lay_out-eq buf hs page_num leaf_table 8 bytes b0 b1 b2 b3 b4 low offsets base at is0 is1 is2
        is3 is4 in
    let collected : collect_cells n b4 base page_num usable_size 0 ≡ ok cells =
      ap (λ k. collect_cells k b4 base page_num usable_size 0) number
      ∙ collect_cells-placed b4 page_num usable_size (omega (arith, t2.0, t3.0, t4.0)) base low 0
          offsets cells (omega arith) pointed4 laid4 all in
    let w1 =
      Touched-widen hs (hs + length {A = ℕ} (leaf_table ∷ [])) hs top b0 b1 (omega arith)
        (omega arith) t1 in
    let w2 = Touched-widen low (length b1) hs top b1 b2 (omega arith) (omega arith) t2 in
    let w3 = Touched-widen (base + 0 * 2) end hs top b2 b3 (omega arith) (omega arith) t3 in
    let w4 = Touched-widen hs base hs top b3 b4 (omega arith) (omega arith) t4 in
    (
      b4,
      write_leaf_page-eq buf hs page_num bytes (omega arith) small wrote,
      Touched-trans hs top buf b1 b4 (Touched-trans hs top buf b0 b1 t0 w1)
          (Touched-trans hs top b1 b3 b4 (Touched-trans hs top b1 b2 b3 w2 w3) w4),
      collect_leaf_cells-eq b4 hs page_num usable_size n (omega arith) counted collected,
    )
