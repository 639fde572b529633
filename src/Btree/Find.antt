-- ===== src/Btree/Find.antt =====
-- `find_leaf_cell` of src/row/btree/mod.rs against `collect_leaf_cells`.
use db_storage.Prelude.{
  ℕ, zero, suc, ◌≤◌, ◌≡◌, refl, sym, inl, inr, ap, List, [], ◌∷◌, Option, some, none, Result, ok,
  ◌>>=◌, >>=-eq-ok, if◌then◌else◌, ◌==◌, ==_iff, Bool-cases, length, sat_add,
}
use mathlib.Core.Path.{subst}
use db_storage.Btree.{BtreeError}
use db_storage.Btree.Leaf.{
  LeafCell, leaf_cell, read_num_cells, collect_cells, collect_leaf_cells, overflow_page, find_cell,
  find_cells, find_leaf_cell,
}
use db_storage.Btree.Scan.{collect_cells-step, length-collect_cells}
use db_storage.Btree.LastWord.{named_page, overflow_page-named_page}

-- The first cell with the rowid, and its index behind `i`.
unfoldable pub lookup_cell : ℕ → ℕ → List (ℕ × List ℕ) → Option (ℕ × List ℕ)
lookup_cell rowid i [] = none
lookup_cell rowid i ((r, bytes) ∷ cells) =
    let rest = lookup_cell rowid (suc i) cells in if r == rowid then some (i, bytes) else rest

-- What the search returns for the cell that it should find.
abbrev pub IsFound :
    List ℕ
    → ℕ
    → ℕ
    → ℕ
    → ℕ
    → ℕ
    → Result BtreeError (Option (ℕ × ℕ × ℕ))
    → Option (ℕ × List ℕ)
    → Type 0
IsFound buf ptr_base page_num usable_size rowid num_cells found none = found ≡ ok none
IsFound buf ptr_base page_num usable_size rowid num_cells found (some (i, bytes)) =
    (c : LeafCell) × (leaf_cell buf ptr_base page_num i ≡ ok c)
    × (c.rowid ≡ rowid)
    × (found ≡ ok (some (i, num_cells, named_page usable_size c.payload_len bytes)))

module _ (buf : List ℕ) (ptr_base page_num usable_size rowid num_cells : ℕ)
    (small : length buf ≤ 65536) where
  Found : Result BtreeError (Option (ℕ × ℕ × ℕ)) → Option (ℕ × List ℕ) → Type 0
  Found = IsFound buf ptr_base page_num usable_size rowid num_cells

  -- An iteration, where the others find what they should.
  find_cell-IsFound :
      (i : ℕ) (c : LeafCell) (bytes : List ℕ) (rest : List (ℕ × List ℕ))
      (found : Result BtreeError (Option (ℕ × ℕ × ℕ)))
      → leaf_cell buf ptr_base page_num i ≡ ok c
      → overflow_page buf page_num usable_size c ≡ ok (named_page usable_size c.payload_len bytes)
      → Found found (lookup_cell rowid (suc i) rest)
      → Found
          (find_cell buf page_num usable_size rowid num_cells i c found)
          (lookup_cell rowid i ((c.rowid, bytes) ∷ rest))
  unfolding Found find_cell lookup_cell
  find_cell-IsFound i c bytes rest found is_c named others = elim (Bool-cases (c.rowid == rowid)) [
    | inl same ↦ rw (same, named) (c, is_c, (==_iff c.rowid rowid).0 same, refl)
    | inr other ↦ rw other others
  ]

  find_cells-IsFound :
      (left i : ℕ) {cells : List (ℕ × List ℕ)}
      → collect_cells left buf ptr_base page_num usable_size i ≡ ok cells
      → Found
          (find_cells left buf ptr_base page_num usable_size rowid num_cells i)
          (lookup_cell rowid i cells)
  unfolding Found collect_cells find_cells lookup_cell
  find_cells-IsFound zero i {cells} h =
      let none_left : [] ≡ cells = cc in
      subst (λ cs. Found (ok none) (lookup_cell rowid i cs)) none_left refl
  find_cells-IsFound (suc left) i {cells} h =
      let (c, bytes, rest, is_c, inside, size, is_rest, is, here) =
        collect_cells-step left buf ptr_base page_num usable_size i h in
      let others = find_cells-IsFound left (suc i) is_rest in
      let named = overflow_page-named_page buf ptr_base page_num usable_size i c small is_c here in
      let later = find_cells left buf ptr_base page_num usable_size rowid num_cells (suc i) in
      let found = find_cell-IsFound i c bytes rest later is_c named others in
      subst (λ r. Found r (lookup_cell rowid i cells))
        (ap (λ r. r >>= λ k. find_cell buf page_num usable_size rowid num_cells i k later)
          (sym is_c))
        (subst
          (λ cs.
            Found (find_cell buf page_num usable_size rowid num_cells i c later)
              (lookup_cell rowid i cs))
          (sym is) found)

-- On a page of at most 65536 bytes whose cells `collect_leaf_cells` reads, in whatever order they
-- are: `find_leaf_cell` gives nothing where no cell has the rowid; else it gives, without an error,
-- the index of the first cell that has it, the number of the cells, and the overflow page that the
-- last four bytes of that cell name, or 0 where its payload is all in the cell.
pub find_leaf_cell-collect_leaf_cells :
    (buf : List ℕ) (header_start page_num usable_size rowid : ℕ) {cells : List (ℕ × List ℕ)}
    → length buf ≤ 65536
    → collect_leaf_cells buf header_start page_num usable_size ≡ ok cells
    → IsFound buf
        (sat_add header_start 8)
        page_num
        usable_size
        rowid
        (length cells)
        (find_leaf_cell buf header_start page_num usable_size rowid)
        (lookup_cell rowid 0 cells)
unfolding collect_leaf_cells find_leaf_cell lookup_cell Found
find_leaf_cell-collect_leaf_cells buf header_start page_num usable_size rowid {cells} small h =
    let ptr_base = sat_add header_start 8 in
    let (n, is_n, collected) = >>=-eq-ok (read_num_cells buf header_start page_num) _ h in
    let size : length cells ≡ n =
      length-collect_cells n buf ptr_base page_num usable_size 0 collected in
    let found = find_cells-IsFound buf ptr_base page_num usable_size rowid n small n 0 collected in
    let run : find_cells n buf ptr_base page_num usable_size rowid n 0 ≡ (
        read_num_cells buf header_start page_num >>= λ m.
        find_cells m buf ptr_base page_num usable_size rowid m 0) =
      ap (λ r. r >>= λ m. find_cells m buf ptr_base page_num usable_size rowid m 0) (sym is_n) in
    subst
      (λ r.
        IsFound buf ptr_base page_num usable_size rowid (length cells) r
          (lookup_cell rowid 0 cells))
      run
      (subst
        (λ k.
          IsFound buf ptr_base page_num usable_size rowid k
            (find_cells n buf ptr_base page_num usable_size rowid n 0) (lookup_cell rowid 0 cells))
        (sym size) found)
