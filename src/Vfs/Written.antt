-- ===== src/Vfs/Written.antt =====
-- A page that was written is read back, and the others are as before.
use db_storage.Prelude.{
  ℕ, zero, suc, ◌+◌, ◌-◌, ◌*◌, ◌≤◌, ◌<◌, ◌≡◌, refl, ap, sym, ◌∙◌, List, ◌++◌, arith,
}
use db_storage.Prelude.{
  length, take, drop, replicate, min, length-take, length-drop, take-append, drop-append,
  drop-append_le,
}
use db_storage.Prelude.{
  take-append_le, take-drop-overwrite, overwrite, length-overwrite, ◌==◌, ==_iff, ok,
}
use db_storage.Prelude.{
  leb, ltb, ltb→lt, ltb→le, Bool-cases, ◌⊎◌, inl, inr, true, false, u64_max, sat_mul,
}
use native.Mathlib.Nat.{mul-le-mul_right}
use db_storage.Vfs.Memory.{
  read_at, write_at, resize, length-resize, write_at-inside, write_at-outside,
}
use db_storage.Vfs.PageSource.{read_page, write_page}
use db_storage.Vfs.Pages.{page_of, read_page-ok, write_page-ok}

drop-overwrite_self :
    (file : List ℕ) (offset : ℕ) (bytes : List ℕ)
    → offset + length bytes ≤ length file
    → take (length bytes) (drop offset (overwrite file offset bytes)) ≡ bytes
unfolding overwrite
drop-overwrite_self file offset bytes inside =
    let rest = drop (offset + length bytes) file in
    let front : offset ≡ length (take offset file) = omega (arith, length-take offset file) in
    let e : drop offset (take offset file ++ (bytes ++ rest)) ≡ bytes ++ rest =
      ap (λ k. drop k (take offset file ++ (bytes ++ rest))) front
      ∙ drop-append (take offset file) (bytes ++ rest) in
    rw e (take-append bytes rest)

window-resize :
    (file : List ℕ) (end len offset : ℕ)
    → length file < end
    → offset + len ≤ length file
    → take len (drop offset (resize file end)) ≡ take len (drop offset file)
unfolding resize
window-resize file end len offset grows inside =
    let longer : leb end (length file) ≡ false = ground arith in
    let zeros : List ℕ = replicate (end - length file) 0 in
    rw longer (
      ap (take len) (drop-append_le offset file zeros (omega arith))
      ∙ take-append_le len (drop offset file) zeros (omega (arith, length-drop offset file)))

-- What stands in the file after a write: the bytes, and every window beside them.
write_at-window :
    (file bytes : List ℕ) (offset : ℕ)
    → offset + length bytes ≤ u64_max
    → (offset + length bytes ≤ length (write_at file bytes offset))
      × (length file ≤ length (write_at file bytes offset))
      × (take (length bytes) (drop offset (write_at file bytes offset)) ≡ bytes)
      × ((at len : ℕ)
          → at + len ≤ length file
          → (at + len ≤ offset) ⊎ (offset + length bytes ≤ at)
          → take len (drop at (write_at file bytes offset)) ≡ take len (drop at file))
write_at-window file bytes offset small =
    let end = offset + length bytes in
    elim (Bool-cases (ltb (length file) end)) [
      | inl grows ↦
          let longer : length file < end = ltb→lt _ _ grows in
          let size = length-resize file end in
          let after = length-overwrite (resize file end) offset bytes (omega (arith, size)) in
          rw (write_at-outside file bytes offset longer small) (
            omega (arith, size, after),
            omega (arith, size, after),
            drop-overwrite_self (resize file end) offset bytes (omega (arith, size)),
            λ at len inside apart.
                take-drop-overwrite (resize file end) offset len at bytes (omega (arith, size))
                  apart
                ∙ window-resize file end len at longer inside,
          )
      | inr room_ ↦
          let room = ltb→le _ _ room_ in
          let after = length-overwrite file offset bytes room in
          rw (write_at-inside file bytes offset room) (
            omega (arith, after),
            omega (arith, after),
            drop-overwrite_self file offset bytes room,
            λ at len inside apart. take-drop-overwrite file offset len at bytes room apart,
          )
    ]

-- A page inside of the file is read.
read_page-inside :
    (file : List ℕ) (page_size page_num : ℕ)
    → (page_num == 0) ≡ false
    → 0 < page_size
    → (page_num - 1) * page_size + page_size ≤ length file
    → (page_num - 1) * page_size ≤ u64_max
    → read_page file page_size page_num ≡ ok (page_of page_size file page_num)
unfolding read_page read_at
read_page-inside file page_size page_num nonzero pos inside small =
    let offset : sat_mul (page_num - 1) page_size ≡ (page_num - 1) * page_size = omega arith in
    let start = (page_num - 1) * page_size in
    let here : leb (length file) start ≡ false = ground arith in
    let left = length-drop start file in
    let width : min page_size (length (drop start file)) ≡ page_size = omega arith in
    let size = length-take page_size (drop start file) in
    let full : (length (take page_size (drop start file)) == page_size) ≡ true =
      (==_iff _ _).1 (omega arith) in
    rw (nonzero, offset, here, width, full) refl

pub page_end : (n page_size : ℕ) → 1 ≤ n → (n - 1) * page_size + page_size ≡ n * page_size
page_end zero page_size h = absurd (omega arith)
page_end (suc n) page_size h = let e : suc n - 1 ≡ n = omega arith in rw e (omega arith)

-- Two pages have no byte in common.
pages_apart :
    (m n page_size : ℕ)
    → 1 ≤ m
    → 1 ≤ n
    → (m == n) ≡ false
    → ((m - 1) * page_size + page_size ≤ (n - 1) * page_size)
      ⊎ ((n - 1) * page_size + page_size ≤ (m - 1) * page_size)
pages_apart m n page_size hm hn other =
    let end_m = page_end m page_size hm in
    let end_n = page_end n page_size hn in
    elim (Bool-cases (ltb m n)) [
      | inl before ↦
          let lt = ltb→lt _ _ before in
          let far = mul-le-mul_right {m = m} {n = n - 1} page_size (omega arith) in
          inl (omega arith)
      | inr behind ↦
          let le : n ≤ m - 1 = ground arith in
          let far = mul-le-mul_right {m = n} {n = m - 1} page_size le in inr (omega arith)
    ]

-- A page that was written is read back, and a page that was read before is read as before, if it is
-- another one; pages end within 64 bits.
pub read_page-write_page :
    (file : List ℕ) (page_size n : ℕ) (bytes after : List ℕ)
    → 0 < page_size
    → length file ≤ u64_max
    → n * page_size ≤ u64_max
    → write_page file page_size n bytes ≡ ok after
    → (read_page after page_size n ≡ ok bytes)
      × ((m : ℕ) (other : List ℕ)
          → (m == n) ≡ false
          → read_page file page_size m ≡ ok other
          → read_page after page_size m ≡ ok other)
read_page-write_page file page_size n bytes after pos small fits wrote =
    let (positive, size, same) = write_page-ok file page_size n bytes wrote in
    let end = page_end n page_size positive in
    let offset : sat_mul (n - 1) page_size ≡ (n - 1) * page_size = omega arith in
    let result : after ≡ write_at file bytes ((n - 1) * page_size) =
      same ∙ ap (write_at file bytes) offset in
    let (long, longer, self, others) =
      write_at-window file bytes ((n - 1) * page_size) (omega arith) in
    let sized = ap length result in
    let nonzero : (n == 0) ≡ false = ground arith in
    (
      read_page-inside after page_size n nonzero pos (omega arith) (omega arith)
          ∙ ap ok (
              ap (λ t. take page_size (drop ((n - 1) * page_size) t)) result
              ∙ ap
                  (λ k.
                    take k (drop ((n - 1) * page_size) (write_at file bytes ((n - 1) * page_size))))
                  (sym size)
              ∙ self),
      λ m other apart read.
          let (positive_m, other_is, inside) = read_page-ok file page_size m pos small read in
          let nonzero_m : (m == 0) ≡ false = ground arith in
          let disjoint = pages_apart m n page_size positive_m positive apart in
          read_page-inside after page_size m nonzero_m pos (omega arith) (omega arith)
          ∙ ap ok (
              ap (λ t. take page_size (drop ((m - 1) * page_size) t)) result
              ∙ others ((m - 1) * page_size) page_size inside (omega arith)
              ∙ sym other_is),
    )
