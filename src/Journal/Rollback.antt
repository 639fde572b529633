-- ===== src/Journal/Rollback.antt =====
-- What the pages of the journal restore when they are written back.
use db_storage.Prelude.{
  ℕ, ◌+◌, ◌-◌, ◌*◌, ◌≤◌, ◌<◌, ◌≡◌, refl, ap, ◌∙◌, List, [], ◌∷◌, ◌⊎◌, inl, inr,
}
use db_storage.Prelude.{
  length, get_elem?, drop, length-take, length-drop, length-overwrite, arith, u64_max, All,
}
use db_storage.Prelude.{
  get_elem?-overwrite_self, get_elem?-overwrite_ne, get_elem?-take, get_elem?-drop, overwrite,
  sat_mul,
}
use db_storage.Vfs.Memory.{write_at, write_at-inside}
use db_storage.Vfs.Pages.{page_of}
use db_storage.Journal.Records.{PreImage, restore}

-- The page as it stands in `db`.
abbrev pub IsPageOf : ℕ → List ℕ → PreImage → Type 0
IsPageOf page_size db (page_num, page) =
    (page ≡ page_of page_size db page_num) × ((page_num - 1) * page_size + page_size ≤ length db)

-- Byte `j` of the file is in the page.
abbrev pub InPage : ℕ → ℕ → ℕ → Type 0
InPage page_size page_num j =
    ((page_num - 1) * page_size ≤ j) × (j < (page_num - 1) * page_size + page_size)

-- Byte `j` of the file is in one of the pages.
abbrev pub InPages : ℕ → List PreImage → ℕ → Type 0
InPages page_size [] j = ⊥
InPages page_size ((page_num, page) ∷ pages) j =
    InPage page_size page_num j ⊎ InPages page_size pages j

module _ (page_size : ℕ) (db : List ℕ) (small : length db ≤ u64_max) where
  pub length-page : (p : PreImage) → IsPageOf page_size db p → length (p.1) ≡ page_size
  length-page (page_num, page) (same, inside) = rw same (
      omega (
        arith,
        length-take page_size (drop ((page_num - 1) * page_size) db),
        length-drop ((page_num - 1) * page_size) db,
      ))

  module _ (cur : List ℕ) (page_num : ℕ) (page : List ℕ) (long : length db ≤ length cur) where
    written :
        IsPageOf page_size db (page_num, page)
        → write_at cur page (sat_mul (page_num - 1) page_size)
          ≡ overwrite cur ((page_num - 1) * page_size) page
    written good =
        let size = length-page (page_num, page) good in
        let inside = good.1 in
        let offset : sat_mul (page_num - 1) page_size ≡ (page_num - 1) * page_size = omega arith in
        rw offset (write_at-inside cur page ((page_num - 1) * page_size) (omega arith))

    length-written :
        IsPageOf page_size db (page_num, page)
        → length (write_at cur page (sat_mul (page_num - 1) page_size)) ≡ length cur
    length-written good =
        let size = length-page (page_num, page) good in
        let inside = good.1 in
        ap length (written good)
        ∙ length-overwrite cur ((page_num - 1) * page_size) page (omega arith)

    -- A byte of the page, or one that was right before.
    get_elem?-written :
        (j : ℕ)
        → IsPageOf page_size db (page_num, page)
        → InPage page_size page_num j ⊎ (get_elem? cur j ≡ get_elem? db j)
        → get_elem? (write_at cur page (sat_mul (page_num - 1) page_size)) j ≡ get_elem? db j
    get_elem?-written j good known =
        let size = length-page (page_num, page) good in
        let inside = good.1 in
        let start = (page_num - 1) * page_size in
        let back : start + (j - start) ≡ start + (j - start) = refl in
        rw (written good) (elim (page_cases start j) [
          | inl (lo, hi) ↦
              let there : start + (j - start) ≡ j = omega arith in
              get_elem?-overwrite_self cur start page j (omega arith) lo (omega arith)
              ∙ ap (λ t. get_elem? t (j - start)) good.0
              ∙ get_elem?-take page_size (drop start db) (j - start) (omega arith)
              ∙ get_elem?-drop start db (j - start)
              ∙ ap (get_elem? db) there
          | inr apart ↦
              get_elem?-overwrite_ne cur start page j (omega arith) (omega arith)
              ∙ elim known [ inl here ↦ absurd (omega arith) | inr same ↦ same ]
        ])
      where
        page_cases :
            (start k : ℕ)
            → ((start ≤ k) × (k < start + page_size)) ⊎ ((k < start) ⊎ (start + page_size ≤ k))
        page_cases start k = ground arith

  -- A byte of `cur` that one of the pages holds, or that is as in `db`, is as in `db` when the
  -- pages are written back.
  pub restore-get_elem? :
      (pages : List PreImage) (cur : List ℕ)
      → All (IsPageOf page_size db) pages
      → length db ≤ length cur
      → (length (restore page_size pages cur) ≡ length cur)
        × ((j : ℕ)
            → InPages page_size pages j ⊎ (get_elem? cur j ≡ get_elem? db j)
            → get_elem? (restore page_size pages cur) j ≡ get_elem? db j)
  unfolding restore
  restore-get_elem? [] cur good long =
      (refl, λ j known. elim known [ inl none_ ↦ absurd none_ | inr same ↦ same ])
  restore-get_elem? ((page_num, page) ∷ pages) cur (good, goods) long =
      let next = write_at cur page (sat_mul (page_num - 1) page_size) in
      let size = length-written cur page_num page long good in
      let rest = restore-get_elem? pages next goods (omega (arith, size)) in
      (
        rest.0 ∙ size,
        λ j known. rest.1 j (elim known [
          | inl (inl here) ↦ inr (get_elem?-written cur page_num page long j good (inl here))
          | inl (inr later) ↦ inl later
          | inr same ↦ inr (get_elem?-written cur page_num page long j good (inr same))
        ]),
      )
