-- ===== src/Btree/Pages.antt =====
-- `write_leaf_page` and `collect_leaf_cells` of src/row/btree/mod.rs.
use db_storage.Prelude.{
  ℕ, suc, ◌+◌, ◌*◌, ◌^◌, ◌≤◌, ◌<◌, ◌≡◌, refl, sym, ◌∙◌, ap, false, List, [], ◌∷◌, ◌++◌,
  append_assoc, some, ok, All, leb, length, slice?, ltb, if◌then◌else◌, arith, sat_add, sat_mul,
  from_be, from_be-be_bytes, length-append,
}
use db_storage.Record.Varint.{encode_varint}
use db_storage.Record.Varint.RoundTrip.{length-encode_varint}
use db_storage.Record.Encode.Header.{varint_len_bounds}
use db_storage.Btree.{local_payload_size, decode_cell_head}
use db_storage.Btree.Cells.{decode_cell_head-encode}
use db_storage.Btree.Leaf.{
  cell_ptr_offset, read_cell_pointer, LeafCell, leaf_cell, cell_end, collect_cells,
}
use db_storage.Btree.Layout.{offset_word, cell_bytes}
use db_storage.Btree.Touched.{slice-split}
use db_storage.Btree.Placed.{Laid, Pointed}

-- The payload's bytes in a cell, and the number of the overflow page.
abbrev pub body_len : ℕ → ℕ → ℕ
body_len usable_size size =
    local_payload_size usable_size size false
    + (if ltb (local_payload_size usable_size size false) size then 4 else 0)

-- A rowid with its cell: the payload's length, the rowid, and the bytes of the payload.
abbrev pub IsLeafCell : ℕ → ℕ × List ℕ → Type 0
IsLeafCell usable_size cell =
    (size : ℕ) × (body : List ℕ) × (size < 2 ^ 64)
    × (cell.0 < 2 ^ 64)
    × (length body ≡ body_len usable_size size)
    × (cell.1 ≡ encode_varint size ++ (encode_varint cell.0 ++ body))

module _ (buf : List ℕ) (page_num usable_size : ℕ) (small : length buf ≤ 65536) where
  read_cell_pointer-some :
      (ptr_base i o : ℕ)
      → ptr_base + i * 2 ≤ 65536
      → o < 65536
      → slice? buf (ptr_base + i * 2) (ptr_base + i * 2 + 2) ≡ some (offset_word o)
      → read_cell_pointer buf (cell_ptr_offset ptr_base i) page_num i ≡ ok o
  unfolding read_cell_pointer cell_ptr_offset
  read_cell_pointer-some ptr_base i o inside low is =
      let at : sat_add ptr_base (sat_mul i 2) ≡ ptr_base + i * 2 = omega arith in
      let end : sat_add (ptr_base + i * 2) 2 ≡ ptr_base + i * 2 + 2 = omega arith in
      let value : from_be (offset_word o) ≡ o =
        from_be-be_bytes 2 (if leb 65536 o then 0 else o) (ground arith) ∙ ground arith in
      rw (at, end, is, value) refl

  -- The cell at an offset.
  decode-placed :
      (o rowid : ℕ) (bytes : List ℕ)
      → slice? buf o (o + length bytes) ≡ some bytes
      → IsLeafCell usable_size (rowid, bytes)
      → (size tail_start : ℕ) × (decode_cell_head buf o page_num ≡ ok (rowid, size, tail_start))
        × (cell_end usable_size (record {
          cell_start = o;
          rowid = rowid;
          payload_len = size;
          tail_start = tail_start;
        })
            ≡ o + length bytes)
        × (1 ≤ length bytes)
  unfolding cell_end
  decode-placed o rowid bytes here (size, body, fits1, fits2, width, is) =
      let v1 = encode_varint size in
      let v2 = encode_varint rowid in
      let (front, back, shape, at, inside) = slice-split buf o (o + length bytes) here in
      let whole : length bytes ≡ length v1 + (length v2 + length body) =
        ap length is
        ∙ length-append v1 (v2 ++ body)
        ∙ ap (λ n. length v1 + n) (length-append v2 body) in
      let tail_start = o + (length v1 + length v2) in
      let spread : buf ≡ front ++ (v1 ++ (v2 ++ (body ++ back))) =
        shape ∙ ap (λ t. front ++ (t ++ back)) is ∙ ap (λ t. front ++ t) (simp append_assoc refl) in
      let decoded : decode_cell_head buf o page_num ≡ ok (rowid, size, tail_start) =
        ap (λ t. decode_cell_head t o page_num) spread
        ∙ ap (λ n. decode_cell_head (front ++ (v1 ++ (v2 ++ (body ++ back)))) n page_num) (sym at)
        ∙ decode_cell_head-encode front (body ++ back) size rowid page_num fits1 fits2 (omega arith)
        ∙ ap (λ n. ok (rowid, size, n + (length v1 + length v2))) at in
      (
        size,
        tail_start,
        decoded,
        omega arith,
        omega (arith, length-encode_varint size, varint_len_bounds size),
      )

  leaf_cell-placed :
      (ptr_base i o rowid size tail_start : ℕ)
      → ptr_base + i * 2 ≤ 65536
      → o < 65536
      → slice? buf (ptr_base + i * 2) (ptr_base + i * 2 + 2) ≡ some (offset_word o)
      → decode_cell_head buf o page_num ≡ ok (rowid, size, tail_start)
      → leaf_cell buf ptr_base page_num i
        ≡ ok (record { cell_start = o; rowid = rowid; payload_len = size; tail_start = tail_start })
  unfolding leaf_cell
  leaf_cell-placed ptr_base i o rowid size tail_start inside low is decoded =
      rw (read_cell_pointer-some ptr_base i o inside low is, decoded) refl

  collect_cells-cons :
      (left ptr_base i : ℕ) (c : LeafCell) (bytes : List ℕ) (end : ℕ) (cells : List (ℕ × List ℕ))
      → leaf_cell buf ptr_base page_num i ≡ ok c
      → cell_end usable_size c ≡ end
      → slice? buf c.cell_start end ≡ some bytes
      → collect_cells left buf ptr_base page_num usable_size (suc i) ≡ ok cells
      → collect_cells (suc left) buf ptr_base page_num usable_size i ≡ ok ((c.rowid, bytes) ∷ cells)
  unfolding collect_cells
  collect_cells-cons left ptr_base i c bytes end cells is_c is_end here others =
      rw (is_c, is_end, here, others) refl

  pub collect_cells-placed :
      (ptr_base low i : ℕ) (offsets : List ℕ) (cells : List (ℕ × List ℕ))
      → ptr_base + (i + length cells) * 2 ≤ 65536
      → Pointed ptr_base i buf offsets
      → Laid low buf offsets (cell_bytes cells)
      → All (IsLeafCell usable_size) cells
      → collect_cells (length cells) buf ptr_base page_num usable_size i ≡ ok cells
  unfolding Pointed Laid collect_cells cell_bytes
  collect_cells-placed ptr_base low i offsets [] room pointed laid all = refl
  collect_cells-placed ptr_base low i [] (cell ∷ cells) room pointed laid all = absurd laid
  collect_cells-placed ptr_base low i (o ∷ offsets) ((rowid, bytes) ∷ cells) room (word, pointed)
        (above, inside, here, laid) (is_cell, all) =
      let (size, tail_start, decoded, ends, some_bytes) =
        decode-placed o rowid bytes here is_cell in
      let c : LeafCell = record {
        cell_start = o;
        rowid = rowid;
        payload_len = size;
        tail_start = tail_start;
      } in
      collect_cells-cons (length cells) ptr_base i c bytes (o + length bytes) cells
        (leaf_cell-placed ptr_base i o rowid size tail_start (omega arith) (omega arith) word
          decoded)
        ends here
        (collect_cells-placed ptr_base low (suc i) offsets cells (omega arith) pointed laid all)
