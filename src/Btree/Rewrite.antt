-- ===== src/Btree/Rewrite.antt =====
-- A leaf page that `write_leaf_page` of src/row/btree/mod.rs wrote, read by `collect_leaf_cells`.
use db_storage.Prelude.{
  ℕ, ◌+◌, ◌-◌, ◌*◌, ◌≤◌, ◌<◌, ◌≡◌, ◌⊎◌, inl, inr, refl, sym, ◌∙◌, ap, List, [], ◌∷◌, ◌++◌,
  append-nil, some, ok, drop_all, length, take, drop, replicate, overwrite, slice?, arith, sat_add,
  be_bytes, length-be_bytes, from_be-be_bytes, length-replicate, slice?-overwrite_ne,
  length-overwrite,
}
use db_storage.Btree.{put}
use db_storage.Btree.Leaf.{read_num_cells, collect_cells, collect_leaf_cells}
use db_storage.Btree.Layout.{
  put_u8, needed, fill_from, put_cells, put_pointers, put_counts, offset_word, lay_out, cell_bytes,
}
use db_storage.Btree.Touched.{Touched, Touched-trans, Touched-widen, put-ok}
use db_storage.Btree.Placed.{sizes, Laid}

pub needed-bound :
    (sum : ℕ) (cells : List (List ℕ)) → needed sum cells ≤ sum + (sizes cells + length cells * 2)
unfolding needed sizes
needed-bound sum [] = omega arith
needed-bound sum (cell ∷ cells) =
    omega (arith, needed-bound (sat_add sum (sat_add (length cell) 2)) cells)

pub fill_from-ok :
    (buf : List ℕ) (header_start : ℕ)
    → header_start ≤ length buf
    → (cleared : List ℕ) × (fill_from buf header_start ≡ some cleared)
      × Touched header_start (length buf) buf cleared
unfolding fill_from overwrite
fill_from-ok buf header_start fits =
    let zeros = replicate (length buf - header_start) 0 in
    let width : length zeros ≡ length buf - header_start = length-replicate _ 0 in
    let end : header_start + length zeros ≡ length buf = omega (arith, width) in
    let none_left : drop (header_start + length zeros) buf ≡ [] =
      drop_all _ buf (omega (arith, end)) in
    let is : take header_start buf ++ zeros ≡ overwrite buf header_start zeros =
      ap (λ t. take header_start buf ++ t)
        (sym (append-nil zeros) ∙ ap (λ t. zeros ++ t) (sym none_left)) in
    let fill : fill_from buf header_start ≡ some (take header_start buf ++ zeros) = ground arith in
    (
      overwrite buf header_start zeros,
      fill ∙ ap some is,
      (
        length-overwrite buf header_start zeros (omega (arith, end)),
        λ i j apart.
            slice?-overwrite_ne buf header_start zeros i j (omega (arith, end))
              (apart_of i j apart),
      ),
    )
  where
    apart_of :
        (i j : ℕ)
        → (j ≤ header_start) ⊎ (length buf ≤ i)
        → (j ≤ header_start)
          ⊎ (header_start + length (replicate {A = ℕ} (length buf - header_start) 0) ≤ i)
    apart_of i j (inl before) = inl before
    apart_of i j (inr behind) =
        inr (omega (arith, length-replicate {A = ℕ} (length buf - header_start) 0))

module _ (page_num header_start : ℕ) where
  put_counts-eq :
      (buf b1 b2 b3 : List ℕ) (num_cells content_end : ℕ)
      → header_start ≤ 65536
      → put buf (header_start + 3) (be_bytes 2 num_cells) page_num ≡ ok b1
      → put b1 (header_start + 5) (offset_word content_end) page_num ≡ ok b2
      → put b2 (header_start + 7) (0 ∷ []) page_num ≡ ok b3
      → put_counts buf header_start page_num num_cells content_end ≡ ok b3
  unfolding put_counts put_u8
  put_counts-eq buf b1 b2 b3 num_cells content_end small is1 is2 is3 =
      let at3 : sat_add header_start 3 ≡ header_start + 3 = omega arith in
      let at5 : sat_add header_start 5 ≡ header_start + 5 = omega arith in
      let at7 : sat_add header_start 7 ≡ header_start + 7 = omega arith in
      rw (at3, at5, at7, is1, is2) is3

  read_num_cells-some :
      (buf : List ℕ) (num_cells : ℕ)
      → header_start ≤ 65536
      → num_cells < 65536
      → slice? buf (header_start + 3) (header_start + 5) ≡ some (be_bytes 2 num_cells)
      → read_num_cells buf header_start page_num ≡ ok num_cells
  unfolding read_num_cells
  read_num_cells-some buf num_cells small few is =
      let at3 : sat_add header_start 3 ≡ header_start + 3 = omega arith in
      let at5 : sat_add header_start 5 ≡ header_start + 5 = omega arith in
      rw (at3, at5, is, from_be-be_bytes 2 num_cells (omega arith)) refl

  pub put_counts-ok :
      (buf : List ℕ) (num_cells content_end : ℕ)
      → header_start + 8 ≤ length buf
      → length buf ≤ 65536
      → num_cells < 65536
      → (changed : List ℕ) × (put_counts buf header_start page_num num_cells content_end
          ≡ ok changed)
        × Touched header_start (header_start + 8) buf changed
        × (read_num_cells changed header_start page_num ≡ ok num_cells)
  put_counts-ok buf num_cells content_end fits small few =
      let hs = header_start in
      let word = be_bytes 2 num_cells in
      let two : length word ≡ 2 = length-be_bytes 2 num_cells in
      let two2 : length (offset_word content_end) ≡ 2 = length-be_bytes 2 _ in
      let (b1, is1, t1, here) = put-ok buf (hs + 3) word page_num (omega (arith, two)) in
      let (b2, is2, t2, _) =
        put-ok b1 (hs + 5) (offset_word content_end) page_num (omega (arith, two2, t1.0)) in
      let (b3, is3, t3, _) = put-ok b2 (hs + 7) (0 ∷ []) page_num (omega (arith, t1.0, t2.0)) in
      let high = hs + 8 in
      let w1 =
        Touched-widen (hs + 3) (hs + 3 + length word) hs high buf b1 (omega arith)
          (omega (arith, two)) t1 in
      let w2 =
        Touched-widen (hs + 5) (hs + 5 + length (offset_word content_end)) hs high b1 b2
          (omega arith) (omega (arith, two2)) t2 in
      let w3 =
        Touched-widen (hs + 7) (hs + 7 + length {A = ℕ} (0 ∷ [])) hs high b2 b3 (omega arith)
          (omega arith) t3 in
      let end : hs + 3 + length word ≡ hs + 5 = omega (arith, two) in
      let count : slice? b3 (hs + 3) (hs + 5) ≡ some word =
        t3.1 (hs + 3) (hs + 5) (inl (omega arith))
        ∙ t2.1 (hs + 3) (hs + 5) (inl (omega arith))
        ∙ ap (slice? b1 (hs + 3)) (sym end)
        ∙ here in
      (
        b3,
        put_counts-eq buf b1 b2 b3 num_cells content_end (omega arith) is1 is2 is3,
        Touched-trans hs high buf b2 b3 (Touched-trans hs high buf b1 b2 w1 w2) w3,
        read_num_cells-some b3 num_cells (omega arith) few count,
      )

pub length-Laid :
    (low : ℕ) (buf offsets : List ℕ) (cells : List (List ℕ))
    → Laid low buf offsets cells
    → length offsets ≡ length cells
unfolding Laid
length-Laid low buf [] [] laid = refl
length-Laid low buf [] (cell ∷ cells) laid = absurd laid
length-Laid low buf (o ∷ offsets) [] laid = absurd laid
length-Laid low buf (o ∷ offsets) (cell ∷ cells) (_, _, _, laid) =
    omega (arith, length-Laid low buf offsets cells laid)

pub length-cell_bytes : (cells : List (ℕ × List ℕ)) → length (cell_bytes cells) ≡ length cells
unfolding cell_bytes
length-cell_bytes [] = refl
length-cell_bytes ((rowid, bytes) ∷ cells) = omega (arith, length-cell_bytes cells)

pub lay_out-eq :
    (buf : List ℕ) (header_start page_num page_type header_len : ℕ) (cells : List (List ℕ))
    (b0 b1 b2 b3 b4 : List ℕ) (content_end : ℕ) (offsets : List ℕ) (ptr_base : ℕ)
    → sat_add header_start header_len ≡ ptr_base
    → fill_from buf header_start ≡ some b0
    → put b0 header_start (page_type ∷ []) page_num ≡ ok b1
    → put_cells b1 page_num cells ≡ ok (b2, content_end, offsets)
    → put_pointers b2 page_num ptr_base 0 offsets ≡ ok b3
    → put_counts b3 header_start page_num (length cells) content_end ≡ ok b4
    → lay_out buf header_start page_num page_type header_len cells ≡ ok b4
unfolding lay_out put_u8
lay_out-eq buf header_start page_num page_type header_len cells b0 b1 b2 b3 b4 content_end offsets
      ptr_base is_base is0 is1 is2 is3 is4 =
    rw (is_base, is0, is1, is2, is3) is4

pub collect_leaf_cells-eq :
    (buf : List ℕ) (header_start page_num usable_size n : ℕ) {cells : List (ℕ × List ℕ)}
    → header_start ≤ 65536
    → read_num_cells buf header_start page_num ≡ ok n
    → collect_cells n buf (header_start + 8) page_num usable_size 0 ≡ ok cells
    → collect_leaf_cells buf header_start page_num usable_size ≡ ok cells
unfolding collect_leaf_cells
collect_leaf_cells-eq buf header_start page_num usable_size n small is_n collected =
    let at : sat_add header_start 8 ≡ header_start + 8 = omega arith in rw (is_n, at) collected
