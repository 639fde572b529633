-- ===== src/Btree/Touched.antt =====
-- The writes of src/row/btree/mod.rs into a page: which ranges they leave.
use db_storage.Prelude.{
  ℕ, ◌+◌, ◌-◌, ◌≤◌, ◌≡◌, ◌⊎◌, inl, inr, sym, ◌∙◌, ap, List, ◌++◌, some, ok, leb, Bool-cases, length,
  slice?, ◌&&◌, write_slice?, overwrite, take, drop, arith, slice?-overwrite_self,
  slice?-overwrite_ne, length-overwrite, take-append-drop, length-take,
}
use db_storage.Btree.{put}

-- `b` is `a` but for bytes from `lo` up to `hi`.
abbrev pub Touched : ℕ → ℕ → List ℕ → List ℕ → Type 0
Touched lo hi a b =
    (length b ≡ length a) × ((i j : ℕ) → (j ≤ lo) ⊎ (hi ≤ i) → slice? b i j ≡ slice? a i j)

pub Touched-trans :
    (lo hi : ℕ) (a b c : List ℕ) → Touched lo hi a b → Touched lo hi b c → Touched lo hi a c
Touched-trans lo hi a b c ab bc = (bc.0 ∙ ab.0, λ i j apart. bc.1 i j apart ∙ ab.1 i j apart)

pub Touched-widen :
    (lo hi lo2 hi2 : ℕ) (a b : List ℕ)
    → lo2 ≤ lo
    → hi ≤ hi2
    → Touched lo hi a b
    → Touched lo2 hi2 a b
Touched-widen lo hi lo2 hi2 a b low high ab = (ab.0, λ i j apart. ab.1 i j (wider i j apart))
  where
    wider : (i j : ℕ) → (j ≤ lo2) ⊎ (hi2 ≤ i) → (j ≤ lo) ⊎ (hi ≤ i)
    wider i j (inl before) = inl (omega arith)
    wider i j (inr behind) = inr (omega arith)

-- A write that fits is made, and touches its range only.
pub put-ok :
    (buf : List ℕ) (offset : ℕ) (bytes : List ℕ) (page_num : ℕ)
    → offset + length bytes ≤ length buf
    → (changed : List ℕ) × (put buf offset bytes page_num ≡ ok changed)
      × Touched offset (offset + length bytes) buf changed
      × (slice? changed offset (offset + length bytes) ≡ some bytes)
unfolding put write_slice?
put-ok buf offset bytes page_num fits = (
  overwrite buf offset bytes,
  ground arith,
  (
    length-overwrite buf offset bytes fits,
    λ i j apart. slice?-overwrite_ne buf offset bytes i j fits apart,
  ),
  slice?-overwrite_self buf offset bytes fits,
)

-- A range of a page, as what stands before, in and behind it.
pub slice-split :
    (buf : List ℕ) (i j : ℕ) {bytes : List ℕ}
    → slice? buf i j ≡ some bytes
    → (front : List ℕ) × (back : List ℕ) × (buf ≡ front ++ (bytes ++ back))
      × (length front ≡ i)
      × (j ≤ length buf)
unfolding slice?
slice-split buf i j {bytes} h = elim (Bool-cases (leb i j && leb j (length buf))) [
  | inl inside ↦
      let is : take (j - i) (drop i buf) ≡ bytes = cc in
      let bounds : (i ≤ j) × (j ≤ length buf) = ground arith in
      (
        take i buf,
        drop (j - i) (drop i buf),
        sym (
            ap (λ t. take i buf ++ (t ++ drop (j - i) (drop i buf))) (sym is)
            ∙ ap (λ t. take i buf ++ t) (take-append-drop (j - i) (drop i buf))
            ∙ take-append-drop i buf),
        length-take i buf ∙ omega arith,
        bounds.1,
      )
  | inr outside ↦ cc
]
