-- ===== src/Pager/Cache/Transparent.antt =====
-- The pager of src/row/pager/mod.rs with its cache, against the pages that a caller sees.
use db_storage.Prelude.{
  ℕ, ◌≡◌, refl, sym, ◌∙◌, List, [], ◌∷◌, some, none, false, ◌==◌, arith, inl, inr, Bool-cases,
  Option-cases, Result, ok, Result-cases,
}
use db_storage.Pager.{Pager, Page}
use db_storage.Pager.Allocate.{lookup, insert}
use db_storage.Pager.Cache.{
  CachedPager, get, read_missed, read_through, read_cached_page, read_uncached,
}
use db_storage.Pager.Cache.Valid.{Valid, get-Valid, insert_cached-Valid, evict_one_if_full-Valid}
use db_storage.Pager.Flush.{Absent}
use db_storage.Vfs.PageSource.{PageError, read_page}

-- What a caller reads: the dirty page, or the WAL's, or the main file's.
unfoldable pub read_plain : CachedPager → ℕ → Result PageError (List ℕ)
unfolding lookup read_uncached
read_plain p n = elim (lookup p.pager.dirty n) [
  | some bytes ↦ ok bytes
  | none ↦ read_uncached p.wal_pages p.pager.source p.pager.page_size n
]

-- A page as the main file has it, which is not dirty.
abbrev pub Clean : Pager → ℕ → List ℕ → Type 0
Clean pager n bytes = (read_page pager.source pager.page_size n ≡ ok bytes) × Absent n pager.dirty

-- The cache has only such pages, and not more than its capacity.
abbrev pub Coherent : CachedPager → Type 0
Coherent p = Valid (Clean p.pager) p.page_cache

pub eq-sym : (m n : ℕ) → (m == n) ≡ false → (n == m) ≡ false
eq-sym m n h = ground arith

lookup-Absent : (pages : List Page) (n : ℕ) → lookup pages n ≡ none → Absent n pages
unfolding lookup
lookup-Absent [] n h = tt
lookup-Absent ((m, bytes) ∷ pages) n h = elim (Bool-cases (m == n)) [
  | inl same ↦ let found : lookup ((m, bytes) ∷ pages) n ≡ some bytes = rw same refl in absurd cc
  | inr other ↦
      let there : lookup ((m, bytes) ∷ pages) n ≡ lookup pages n = rw other refl in
      (eq-sym m n other, lookup-Absent pages n (sym there ∙ h))
]

pub Absent-insert :
    (pages : List Page) (n k : ℕ) (bytes : List ℕ)
    → (k == n) ≡ false
    → Absent k pages
    → Absent k (insert pages n bytes)
unfolding insert
Absent-insert [] n k bytes other absent = (other, tt)
Absent-insert ((m, old) ∷ pages) n k bytes other absent = elim (Bool-cases (m == n)) [
  | inl same ↦ rw same (other, absent.1)
  | inr apart ↦ rw apart (absent.0, Absent-insert pages n k bytes other absent.1)
]

-- A page that is neither dirty nor in the WAL is that of the main file.
read_missed-Coherent :
    (p : CachedPager) (n : ℕ)
    → Coherent p
    → lookup p.pager.dirty n ≡ none
    → ((read_missed p n).1 ≡ read_page p.pager.source p.pager.page_size n)
      × Valid (Clean p.pager) (read_missed p n).0.page_cache
      × ((read_missed p n).0.pager ≡ p.pager)
      × ((read_missed p n).0.wal_pages ≡ p.wal_pages)
unfolding read_missed
read_missed-Coherent p n coherent clean =
    let evicted = evict_one_if_full-Valid (Clean p.pager) p.page_cache coherent in
    elim (Result-cases (read_page p.pager.source p.pager.page_size n)) [
      | inl (bytes, e) ↦
          rw (read_missed, e)
            (
              refl,
              insert_cached-Valid (Clean p.pager) _ n bytes evicted
                  (e, lookup-Absent p.pager.dirty n clean),
              refl,
              refl,
            )
      | inr (failed, e) ↦ rw (read_missed, e) (refl, evicted, refl, refl)
    ]

read_through-Coherent :
    (p : CachedPager) (n : ℕ)
    → Coherent p
    → lookup p.pager.dirty n ≡ none
    → ((read_through p n).1 ≡ read_page p.pager.source p.pager.page_size n)
      × Valid (Clean p.pager) (read_through p n).0.page_cache
      × ((read_through p n).0.pager ≡ p.pager)
      × ((read_through p n).0.wal_pages ≡ p.wal_pages)
unfolding read_through
read_through-Coherent p n coherent clean =
    let (valid, fits) = get-Valid (Clean p.pager) p.page_cache n coherent in
    elim (Option-cases (get p.page_cache n).1) [
      | inr (bytes, hit) ↦ rw (read_through, hit) (sym (fits bytes hit).0, valid, refl, refl)
      | inl missed ↦
          rw (read_through, missed)
            (read_missed-Coherent (record p { page_cache = (get p.page_cache n).0 }) n valid clean)
    ]

-- With the cache, `read_page` returns what it returns without, errors included: the dirty page, or
-- the page of the WAL, or that of the main file. It leaves all but the cache as it was, and the
-- cache with no more than its capacity, with pages of the main file only, none of them dirty, as it
-- was before.
pub read_cached_page-read_plain :
    (p : CachedPager) (n : ℕ)
    → Coherent p
    → ((read_cached_page p n).1 ≡ read_plain p n)
      × Valid (Clean p.pager) (read_cached_page p n).0.page_cache
      × ((read_cached_page p n).0.pager ≡ p.pager)
      × ((read_cached_page p n).0.wal_pages ≡ p.wal_pages)
unfolding read_cached_page read_plain read_uncached
read_cached_page-read_plain p n coherent = elim (Option-cases (lookup p.pager.dirty n)) [
  | inr (bytes, dirty) ↦ rw (read_cached_page, read_plain, dirty) (refl, coherent, refl, refl)
  | inl clean ↦ elim (Option-cases (lookup p.wal_pages n)) [
    | inr (bytes, logged) ↦
        rw (read_cached_page, read_plain, read_uncached, clean, logged) (refl, coherent, refl, refl)
    | inl absent ↦
        rw (read_cached_page, read_plain, read_uncached, clean, absent)
          (read_through-Coherent p n coherent clean)
  ]
]
