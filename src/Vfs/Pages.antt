-- ===== src/Vfs/Pages.antt =====
-- Pages of a file: what `read_page` and `write_page` do to its bytes, and to each other.
use db_storage.Prelude.{ℕ, ◌+◌, ◌-◌, ◌*◌, ◌≤◌, ◌<◌, ◌≡◌, ap, ◌∙◌, List, arith}
use db_storage.Prelude.{length, take, drop, replicate, length-take, length-drop, min, take-min}
use db_storage.Prelude.{
  get_elem?, get_elem?-append_lt, get_elem?-overwrite_ne, length-overwrite, ◌==◌, ==_iff,
}
use db_storage.Prelude.{ok, leb, ltb, ltb→lt, ltb→le, Bool-cases, ◌⊎◌, inl, inr, false}
use db_storage.Prelude.{u64_max, sat_mul}
use db_storage.Vfs.Memory.{
  read_at, write_at, resize, length-resize, write_at-inside, write_at-outside,
}
use db_storage.Vfs.PageSource.{read_page, write_page, page_offset}

-- The page `page_num` of a file.
abbrev pub page_of : ℕ → List ℕ → ℕ → List ℕ
page_of page_size file page_num = take page_size (drop ((page_num - 1) * page_size) file)

-- What `write_at` leaves of a file that it grows.
resized :
    (file : List ℕ) (len j : ℕ)
    → length file < len
    → j < length file
    → get_elem? (resize file len) j ≡ get_elem? file j
unfolding resize
resized file len j grows h =
    let longer : leb len (length file) ≡ false = ground arith in
    rw longer (get_elem?-append_lt file (replicate (len - length file) 0) j h)

-- A write keeps the bytes beside it, and shortens no file.
pub write_at-keeps :
    (file buf : List ℕ) (offset : ℕ)
    → offset + length buf ≤ u64_max
    → (length file ≤ length (write_at file buf offset))
      × ((j : ℕ)
          → j < length file
          → (j < offset) ⊎ (offset + length buf ≤ j)
          → get_elem? (write_at file buf offset) j ≡ get_elem? file j)
write_at-keeps file buf offset small =
    let end = offset + length buf in
    elim (Bool-cases (ltb (length file) end)) [
      | inl grows ↦
          let longer = ltb→lt _ _ grows in
          let size = length-resize file end in
          let same = write_at-outside file buf offset longer small in
          let size_after = length-overwrite (resize file end) offset buf (omega (arith, size)) in
          rw same (
            omega (arith, size, size_after),
            λ j h apart.
                get_elem?-overwrite_ne (resize file end) offset buf j (omega (arith, size)) apart
                ∙ resized file end j longer h,
          )
      | inr inside ↦
          let room = ltb→le _ _ inside in
          let same = write_at-inside file buf offset room in
          let size_after = length-overwrite file offset buf room in
          rw same (
            omega (arith, size_after),
            λ j h apart. get_elem?-overwrite_ne file offset buf j room apart,
          )
    ]

nonzero : (n : ℕ) → (n == 0) ≡ false → 1 ≤ n
nonzero n h = ground arith

-- A read that fills the buffer.
read_at-full :
    (file : List ℕ) (len offset : ℕ)
    → 0 < len
    → length (read_at file len offset) ≡ len
    → (offset + len ≤ length file) × (read_at file len offset ≡ take len (drop offset file))
unfolding read_at
read_at-full file len offset pos size = elim (Bool-cases (leb (length file) offset)) [
  | inl beyond ↦ let e = (rw beyond at size) in absurd (omega (arith, e))
  | inr room ↦
      let e = (rw room at size) in
      let all = length-take (min len (length (drop offset file))) (drop offset file) in
      let left = length-drop offset file in
      let inside : offset + len ≤ length file = omega arith in
      rw room (inside, take-min len (drop offset file))
]

-- What a successful read of a page gives.
pub read_page-ok :
    (file : List ℕ) (page_size page_num : ℕ) {bytes : List ℕ}
    → 0 < page_size
    → length file ≤ u64_max
    → read_page file page_size page_num ≡ ok bytes
    → (1 ≤ page_num)
      × (bytes ≡ page_of page_size file page_num)
      × ((page_num - 1) * page_size + page_size ≤ length file)
unfolding read_page
read_page-ok file page_size page_num {bytes} pos small h = elim (Bool-cases (page_num == 0)) [
  | inl z ↦ let e = (rw z at h) in cc
  | inr nz ↦
      let offset = page_offset page_size page_num in
      let got = read_at file page_size offset in
      elim (Bool-cases (length got == page_size)) [
        | inr other ↦ let e = (rw (nz, other) at h) in cc
        | inl full ↦
            let e = (rw (nz, full) at h) in
            let result : bytes ≡ got = cc in
            let size : length got ≡ page_size = (==_iff (length got) page_size).0 full in
            let (inside, value) = read_at-full file page_size offset pos size in
            let exact : offset ≡ (page_num - 1) * page_size = omega arith in
            (
              nonzero page_num nz,
              result ∙ value ∙ ap (λ k. take page_size (drop k file)) exact,
              omega arith,
            )
      ]
]

-- What a successful write of a page does.
pub write_page-ok :
    (file : List ℕ) (page_size page_num : ℕ) (bytes : List ℕ) {after : List ℕ}
    → write_page file page_size page_num bytes ≡ ok after
    → (1 ≤ page_num)
      × (length bytes ≡ page_size)
      × (after ≡ write_at file bytes (sat_mul (page_num - 1) page_size))
unfolding write_page
write_page-ok file page_size page_num bytes {after} h = elim (Bool-cases (page_num == 0)) [
  | inl z ↦ let e = (rw z at h) in cc
  | inr nz ↦ elim (Bool-cases (length bytes == page_size)) [
    | inl same ↦
        let e = (rw (nz, same) at h) in
        let result : after ≡ write_at file bytes (sat_mul (page_num - 1) page_size) = cc in
        (nonzero page_num nz, (==_iff (length bytes) page_size).0 same, result)
    | inr other ↦ let e = (rw (nz, other) at h) in cc
  ]
]
