-- ===== src/Btree/Scan.antt =====
-- `scan_leaf_cells` of src/row/btree/mod.rs against `collect_leaf_cells`.
use db_storage.Prelude.{
  ℕ, zero, suc, ◌+◌, ◌-◌, ◌≤◌, ◌<◌, ◌≡◌, inl, inr, refl, ◌∙◌, ap, Bool, true, false, ◌&&◌, ◌||◌,
  List, [], ◌∷◌, Option, some, none, Result, ok, err, ◌>>=◌, >>=-eq-ok, ok_or, if◌then◌else◌, ltb,
  leb, ◌==◌, ==_iff, Bool-cases, length, slice?, take, drop, sat_add, min, u64_max, arith,
  length-take, length-drop,
}
use db_storage.Btree.{BtreeError, duplicate_rowid}
use db_storage.Btree.Leaf.{
  gt_i64, LeafCell, leaf_cell, cell_end, read_num_cells, collect_cells, collect_leaf_cells,
  scan_cell, scan_cells, scan_leaf_cells,
}

abbrev Cells : Type 0
Cells = List (ℕ × List ℕ)

-- A cell has the rowid.
unfoldable pub has_rowid : ℕ → List (ℕ × List ℕ) → Bool
has_rowid rowid [] = false
has_rowid rowid ((r, bytes) ∷ cells) = (r == rowid) || has_rowid rowid cells

-- How many cells stand before the first one with a greater rowid.
unfoldable pub place : ℕ → List (ℕ × List ℕ) → ℕ
place rowid [] = 0
place rowid ((r, bytes) ∷ cells) = if gt_i64 r rowid then 0 else suc (place rowid cells)

unfoldable pub total : List (ℕ × List ℕ) → ℕ
total [] = 0
total ((r, bytes) ∷ cells) = length bytes + total cells

slice_sound :
    (buf : List ℕ) (i j : ℕ) (e : BtreeError) {bytes : List ℕ}
    → ok_or (slice? buf i j) e ≡ ok bytes
    → (ltb (length buf) j ≡ false) × (length bytes ≡ j - i)
unfolding slice?
slice_sound buf i j e {bytes} h = elim (Bool-cases (leb i j && leb j (length buf))) [
  | inl inside ↦
      let is : bytes ≡ take (j - i) (drop i buf) = cc in
      let bounds : (i ≤ j) × (j ≤ length buf) = ground (arith) in
      (
        ground arith,
        ap length is ∙ length-take (j - i) (drop i buf) ∙ omega (arith, length-drop i buf),
      )
  | inr outside ↦ cc
]

ok_or-eq-ok :
    (found : Option (List ℕ)) (e : BtreeError) {bytes : List ℕ}
    → ok_or found e ≡ ok bytes
    → found ≡ some bytes
ok_or-eq-ok none e h = cc
ok_or-eq-ok (some b) e h = cc

-- A successful step of `collect_leaf_cells`.
pub collect_cells-step :
    (left : ℕ) (buf : List ℕ) (ptr_base page_num usable_size i : ℕ) {cells : List (ℕ × List ℕ)}
    → collect_cells (suc left) buf ptr_base page_num usable_size i ≡ ok cells
    → (c : LeafCell) × (bytes : List ℕ) × (rest : List (ℕ × List ℕ)) × (leaf_cell buf ptr_base
          page_num i
        ≡ ok c)
      × (ltb (length buf) (cell_end usable_size c) ≡ false)
      × (length bytes ≡ cell_end usable_size c - c.cell_start)
      × (collect_cells left buf ptr_base page_num usable_size (suc i) ≡ ok rest)
      × (cells ≡ (c.rowid, bytes) ∷ rest)
      × (slice? buf c.cell_start (cell_end usable_size c) ≡ some bytes)
unfolding collect_cells
collect_cells-step left buf ptr_base page_num usable_size i {cells} h =
    let (c, is_c, e1) = >>=-eq-ok (leaf_cell buf ptr_base page_num i) _ h in
    let (bytes, is_bytes, e2) =
      >>=-eq-ok (ok_or (slice? buf c.cell_start (cell_end usable_size c)) _) _ e1 in
    let (rest, is_rest, e3) =
      >>=-eq-ok (collect_cells left buf ptr_base page_num usable_size (suc i)) _ e2 in
    let (inside, size) = slice_sound buf c.cell_start (cell_end usable_size c) _ is_bytes in
    let is : cells ≡ (c.rowid, bytes) ∷ rest = cc in
    (c, bytes, rest, is_c, inside, size, is_rest, is, ok_or-eq-ok _ _ is_bytes)

-- What the scan returns, where it was at cell `i` of `num_cells`.
abbrev scanned : ℕ → ℕ → ℕ → ℕ → ℕ → List (ℕ × List ℕ) → Result BtreeError (ℕ × ℕ × ℕ)
scanned rowid num_cells i insert_pos total_bytes cells =
    if has_rowid rowid cells
    then err (duplicate_rowid rowid)
    else ok (
      if insert_pos == num_cells then i + place rowid cells else insert_pos,
      num_cells,
      min (total_bytes + total cells) u64_max,
    )

-- The position after a cell.
place-step :
    (rowid r : ℕ) (bytes : List ℕ) (cells : List (ℕ × List ℕ)) (num_cells i insert_pos : ℕ)
    → i < num_cells
    → (let next : ℕ = if gt_i64 r rowid && (insert_pos == num_cells) then i else insert_pos in
        (if next == num_cells then suc i + place rowid cells else next)
        ≡ (if insert_pos == num_cells then i + place rowid ((r, bytes) ∷ cells) else insert_pos))
unfolding place
place-step rowid r bytes cells num_cells i insert_pos inside = elim (Bool-cases (gt_i64 r rowid)) [
  | inl greater ↦ rw greater (ground arith)
  | inr other ↦ rw other (ground arith)
]

-- An iteration, where the others return what they should.
scan_cell-scanned :
    (buf : List ℕ) (page_num usable_size rowid num_cells i insert_pos total_bytes : ℕ)
    (c : LeafCell) (bytes : List ℕ) (rest : List (ℕ × List ℕ))
    → i < num_cells
    → ltb (length buf) (cell_end usable_size c) ≡ false
    → length bytes ≡ cell_end usable_size c - c.cell_start
    → scan_cell buf page_num usable_size rowid c (
        scanned rowid num_cells
          (suc i)
          (if gt_i64 c.rowid rowid && (insert_pos == num_cells) then i else insert_pos)
          (sat_add total_bytes (cell_end usable_size c - c.cell_start))
          rest)
      ≡ scanned rowid num_cells i insert_pos total_bytes ((c.rowid, bytes) ∷ rest)
unfolding scan_cell has_rowid total
scan_cell-scanned buf page_num usable_size rowid num_cells i insert_pos total_bytes c bytes rest at
      inside size =
    elim (Bool-cases (c.rowid == rowid)) [
      | inl same ↦ rw same refl
      | inr other ↦
          let position = place-step rowid c.rowid bytes rest num_cells i insert_pos at in
          let sum : min (sat_add total_bytes (cell_end usable_size c - c.cell_start) + total rest)
                u64_max
              ≡ min (total_bytes + (length bytes + total rest)) u64_max =
            omega arith in
          rw (other, inside, position, sum) refl
    ]

scan_cells-collect_cells :
    (left : ℕ) (buf : List ℕ)
    (ptr_base page_num usable_size rowid num_cells i insert_pos total_bytes : ℕ)
    {cells : List (ℕ × List ℕ)}
    → i + left ≡ num_cells
    → total_bytes ≤ u64_max
    → collect_cells left buf ptr_base page_num usable_size i ≡ ok cells
    → scan_cells left buf ptr_base page_num usable_size rowid num_cells i insert_pos total_bytes
      ≡ scanned rowid num_cells i insert_pos total_bytes cells
unfolding collect_cells scan_cells has_rowid place total
scan_cells-collect_cells zero buf ptr_base page_num usable_size rowid num_cells i insert_pos
      total_bytes {cells} at small h =
    let none_left : cells ≡ [] = cc in
    let position : (if insert_pos == num_cells then i + 0 else insert_pos) ≡ insert_pos =
      ground arith in
    let bytes : min (total_bytes + 0) u64_max ≡ total_bytes = omega arith in
    rw (none_left, position, bytes) refl
scan_cells-collect_cells (suc left) buf ptr_base page_num usable_size rowid num_cells i insert_pos
      total_bytes {cells} at small h =
    let (c, bytes, rest, is_c, inside, size, is_rest, is, _) =
      collect_cells-step left buf ptr_base page_num usable_size i h in
    let next : ℕ = if gt_i64 c.rowid rowid && (insert_pos == num_cells) then i else insert_pos in
    let sum = sat_add total_bytes (cell_end usable_size c - c.cell_start) in
    let others =
      scan_cells-collect_cells left buf ptr_base page_num usable_size rowid num_cells (suc i) next
        sum (omega arith) (omega arith) is_rest in
    rw (is_c, others, is)
      (scan_cell-scanned buf page_num usable_size rowid num_cells i insert_pos total_bytes c bytes
        rest (omega arith) inside size)

pub length-collect_cells :
    (left : ℕ) (buf : List ℕ) (ptr_base page_num usable_size i : ℕ) {cells : List (ℕ × List ℕ)}
    → collect_cells left buf ptr_base page_num usable_size i ≡ ok cells
    → length cells ≡ left
unfolding collect_cells
length-collect_cells zero buf ptr_base page_num usable_size i {cells} h =
    let none_left : cells ≡ [] = cc in ap length none_left
length-collect_cells (suc left) buf ptr_base page_num usable_size i h =
    let (c, bytes, rest, is_c, inside, size, is_rest, is, _) =
      collect_cells-step left buf ptr_base page_num usable_size i h in
    let others = length-collect_cells left buf ptr_base page_num usable_size (suc i) is_rest in
    ap length is ∙ omega arith

-- On a page whose cells `collect_leaf_cells` reads, in whatever order they are, `scan_leaf_cells`
-- refuses a rowid that one of them has, and else returns how many cells stand before the first one
-- with a greater rowid, the number of the cells, and the sum of their lengths, which saturates.
pub scan_leaf_cells-collect_leaf_cells :
    (buf : List ℕ) (header_start page_num usable_size rowid : ℕ) {cells : List (ℕ × List ℕ)}
    → collect_leaf_cells buf header_start page_num usable_size ≡ ok cells
    → scan_leaf_cells buf header_start page_num usable_size rowid ≡ (
        if has_rowid rowid cells
        then err (duplicate_rowid rowid)
        else ok (place rowid cells, length cells, min (total cells) u64_max))
unfolding collect_leaf_cells scan_leaf_cells
scan_leaf_cells-collect_leaf_cells buf header_start page_num usable_size rowid {cells} h =
    let ptr_base = sat_add header_start 8 in
    let (n, is_n, collected) = >>=-eq-ok (read_num_cells buf header_start page_num) _ h in
    let scan =
      scan_cells-collect_cells n buf ptr_base page_num usable_size rowid n 0 n 0 (omega arith)
        (omega arith) collected in
    let size : length cells ≡ n =
      length-collect_cells n buf ptr_base page_num usable_size 0 collected in
    let same : (n == n) ≡ true = (==_iff n n).1 refl in
    let position : 0 + place rowid cells ≡ place rowid cells = omega arith in
    let bytes : min (0 + total cells) u64_max ≡ min (total cells) u64_max = omega arith in
    let form : scanned rowid n 0 n 0 cells ≡ (
        if has_rowid rowid cells
        then err (duplicate_rowid rowid)
        else ok (place rowid cells, length cells, min (total cells) u64_max)) =
      rw (same, position, bytes, size) refl in
    ap (λ r. r >>= λ m. scan_cells m buf ptr_base page_num usable_size rowid m 0 m 0) is_n
    ∙ scan
    ∙ form
