-- ===== src/Btree/Placed.antt =====
-- Where `put_cells` and `put_pointers` of Btree/Layout put the cells of a page.
use db_storage.Prelude.{
  ℕ, suc, ◌+◌, ◌-◌, ◌*◌, ◌≤◌, ◌≡◌, ◌⊎◌, inl, inr, refl, sym, ◌∙◌, ap, List, [], ◌∷◌, some, ok,
  length, slice?, arith, sat_add, sat_mul, length-be_bytes,
}
use db_storage.Btree.{put}
use db_storage.Btree.Leaf.{cell_ptr_offset}
use db_storage.Btree.Layout.{put_cells, put_pointers, offset_word}
use db_storage.Btree.Touched.{Touched, Touched-trans, Touched-widen, put-ok}

-- The bytes of all cells.
unfoldable pub sizes : List (List ℕ) → ℕ
sizes [] = 0
sizes (cell ∷ cells) = length cell + sizes cells

-- The cells stand at the offsets, which are from `low` up.
unfoldable pub Laid : ℕ → List ℕ → List ℕ → List (List ℕ) → Type 0
Laid low buf [] [] = Unit
Laid low buf [] (cell ∷ cells) = ⊥
Laid low buf (o ∷ offsets) [] = ⊥
Laid low buf (o ∷ offsets) (cell ∷ cells) =
    (low ≤ o)
    × (o + length cell ≤ length buf)
    × (slice? buf o (o + length cell) ≡ some cell)
    × Laid low buf offsets cells

pub Laid-Touched :
    (low lo hi : ℕ) (a b offsets : List ℕ) (cells : List (List ℕ))
    → hi ≤ low
    → Touched lo hi a b
    → Laid low a offsets cells
    → Laid low b offsets cells
unfolding Laid
Laid-Touched low lo hi a b [] [] under ab laid = tt
Laid-Touched low lo hi a b [] (cell ∷ cells) under ab laid = laid
Laid-Touched low lo hi a b (o ∷ offsets) [] under ab laid = laid
Laid-Touched low lo hi a b (o ∷ offsets) (cell ∷ cells) under ab (above, inside, is, rest) = (
  above,
  omega (arith, ab.0),
  ab.1 o (o + length cell) (inr (omega arith)) ∙ is,
  Laid-Touched low lo hi a b offsets cells under ab rest,
)

Laid-lower :
    (low low2 : ℕ) (buf offsets : List ℕ) (cells : List (List ℕ))
    → low2 ≤ low
    → Laid low buf offsets cells
    → Laid low2 buf offsets cells
unfolding Laid
Laid-lower low low2 buf [] [] le laid = tt
Laid-lower low low2 buf [] (cell ∷ cells) le laid = laid
Laid-lower low low2 buf (o ∷ offsets) [] le laid = laid
Laid-lower low low2 buf (o ∷ offsets) (cell ∷ cells) le (above, inside, is, rest) =
    (omega arith, inside, is, Laid-lower low low2 buf offsets cells le rest)

put_cells-cons :
    (buf : List ℕ) (page_num : ℕ) (cell : List ℕ) (cells : List (List ℕ)) (b1 b2 : List ℕ)
    (end1 end2 : ℕ) (offsets : List ℕ)
    → put_cells buf page_num cells ≡ ok (b1, end1, offsets)
    → end1 - length cell ≡ end2
    → put b1 end2 cell page_num ≡ ok b2
    → put_cells buf page_num (cell ∷ cells) ≡ ok (b2, end2, end2 ∷ offsets)
unfolding put_cells
put_cells-cons buf page_num cell cells b1 b2 end1 end2 offsets is1 start is2 =
    rw (is1, start, is2) refl

-- The cells end up behind each other at the end of the page.
pub put_cells-Laid :
    (buf : List ℕ) (page_num : ℕ) (cells : List (List ℕ))
    → sizes cells ≤ length buf
    → (changed offsets : List ℕ) × (put_cells buf page_num cells
        ≡ ok (changed, length buf - sizes cells, offsets))
      × Touched (length buf - sizes cells) (length buf) buf changed
      × Laid (length buf - sizes cells) changed offsets cells
unfolding put_cells sizes Laid
put_cells-Laid buf page_num [] fits =
    let e : length buf ≡ length buf - 0 = omega arith in
    (buf, [], ap (λ n. ok (buf, n, [])) e, (refl, λ i j apart. refl), tt)
put_cells-Laid buf page_num (cell ∷ cells) fits =
    let (b1, offsets, is1, t1, laid1) = put_cells-Laid buf page_num cells (omega arith) in
    let end1 = length buf - sizes cells in
    let end2 = length buf - (length cell + sizes cells) in
    let start : end1 - length cell ≡ end2 = omega arith in
    let bound : end2 + length cell ≡ end1 = omega arith in
    let (b2, is2, t2, here) = put-ok b1 end2 cell page_num (omega (arith, t1.0)) in
    let touched =
      Touched-trans end2 (length buf) buf b1 b2
        (Touched-widen end1 (length buf) end2 (length buf) buf b1 (omega arith) (omega arith) t1)
        (Touched-widen end2 (end2 + length cell) end2 (length buf) b1 b2 (omega arith) (omega arith)
          t2) in
    let others =
      Laid-lower end1 end2 b2 offsets cells (omega arith)
        (Laid-Touched end1 end2 (end2 + length cell) b1 b2 offsets cells (omega arith) t2 laid1) in
    (
      b2,
      end2 ∷ offsets,
      put_cells-cons buf page_num cell cells b1 b2 end1 end2 offsets is1 start is2,
      touched,
      (omega arith, omega (arith, t1.0, t2.0), here, others),
    )

-- The pointers from that of cell `i` on are the offsets.
unfoldable pub Pointed : ℕ → ℕ → List ℕ → List ℕ → Type 0
Pointed base i buf [] = Unit
Pointed base i buf (o ∷ offsets) =
    (slice? buf (base + i * 2) (base + i * 2 + 2) ≡ some (offset_word o))
    × Pointed base (suc i) buf offsets

pub Pointed-Touched :
    (base i lo hi : ℕ) (a b offsets : List ℕ)
    → (hi ≤ base + i * 2) ⊎ (base + (i + length offsets) * 2 ≤ lo)
    → Touched lo hi a b
    → Pointed base i a offsets
    → Pointed base i b offsets
unfolding Pointed
Pointed-Touched base i lo hi a b [] apart ab pointed = tt
Pointed-Touched base i lo hi a b (o ∷ offsets) apart ab (here, rest) = (
  ab.1 (base + i * 2) (base + i * 2 + 2) (clear apart) ∙ here,
  Pointed-Touched base (suc i) lo hi a b offsets (others apart) ab rest,
)
  where
    clear :
        (hi ≤ base + i * 2) ⊎ (base + (i + suc (length offsets)) * 2 ≤ lo)
        → (base + i * 2 + 2 ≤ lo) ⊎ (hi ≤ base + i * 2)
    clear (inl under) = inr under
    clear (inr over) = inl (omega arith)

    others :
        (hi ≤ base + i * 2) ⊎ (base + (i + suc (length offsets)) * 2 ≤ lo)
        → (hi ≤ base + suc i * 2) ⊎ (base + (suc i + length offsets) * 2 ≤ lo)
    others (inl under) = inl (omega arith)
    others (inr over) = inr (omega arith)

put_pointers-cons :
    (buf : List ℕ) (page_num base i o : ℕ) (offsets b1 b2 : List ℕ)
    → base + i * 2 ≤ 65536
    → put buf (base + i * 2) (offset_word o) page_num ≡ ok b1
    → put_pointers b1 page_num base (suc i) offsets ≡ ok b2
    → put_pointers buf page_num base i (o ∷ offsets) ≡ ok b2
unfolding put_pointers cell_ptr_offset
put_pointers-cons buf page_num base i o offsets b1 b2 small is1 is2 =
    let at : sat_add base (sat_mul i 2) ≡ base + i * 2 = omega arith in rw (at, is1) is2

pub put_pointers-Pointed :
    (buf : List ℕ) (page_num base i : ℕ) (offsets : List ℕ)
    → base + (i + length offsets) * 2 ≤ length buf
    → length buf ≤ 65536
    → (changed : List ℕ) × (put_pointers buf page_num base i offsets ≡ ok changed)
      × Touched (base + i * 2) (base + (i + length offsets) * 2) buf changed
      × Pointed base i changed offsets
unfolding put_pointers Pointed cell_ptr_offset
put_pointers-Pointed buf page_num base i [] fits small = (buf, refl, (refl, λ i j apart. refl), tt)
put_pointers-Pointed buf page_num base i (o ∷ offsets) fits small =
    let at = base + i * 2 in
    let two : length (offset_word o) ≡ 2 = length-be_bytes 2 _ in
    let low = base + i * 2 in
    let high = base + (i + suc (length offsets)) * 2 in
    let (b1, is1, t1, here) = put-ok buf at (offset_word o) page_num (omega (arith, two)) in
    let (b2, is2, t2, others) =
      put_pointers-Pointed b1 page_num base (suc i) offsets (omega (arith, t1.0))
        (omega (arith, t1.0)) in
    let after : at + length (offset_word o) ≡ at + 2 = ap (λ n. at + n) two in
    let word : slice? b2 at (at + 2) ≡ some (offset_word o) =
      t2.1 at (at + 2) (inl (omega arith)) ∙ ap (slice? b1 at) (sym after) ∙ here in
    let touched =
      Touched-trans low high buf b1 b2
        (Touched-widen at (at + length (offset_word o)) low high buf b1 (omega arith)
          (omega (arith, two)) t1)
        (Touched-widen (base + suc i * 2) (base + (suc i + length offsets) * 2) low high b1 b2
          (omega arith) (omega arith) t2) in
    (
      b2,
      put_pointers-cons buf page_num base i o offsets b1 b2 (omega arith) is1 is2,
      touched,
      (word, others),
    )
