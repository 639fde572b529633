-- ===== src/Pager/Flush.antt =====
-- A commit that returns without an error: the main file has the dirty pages.
use db_storage.Prelude.{ℕ, ◌≤◌, ◌<◌, ◌≡◌, ap, sym, ◌∙◌, List, [], ◌∷◌, arith}
use db_storage.Prelude.{
  length, Result, ok, err, >>=-eq-ok, map_err, All, IsU32, u64_max, ◌==◌, leb, false,
}
use db_storage.Prelude.{Bool-cases, inl, inr}
use db_storage.Vfs.PageSource.{read_page, write_page}
use db_storage.Vfs.Written.{read_page-write_page}
use db_storage.Pager.{
  Pager, Page, PagerError, page, insert_page, sort_pages, write_pages, write_journal, contents,
  flush_locked,
}
use db_storage.Pager.Commit.{map_err-eq-ok, Small, write_pages-keeps}
use db_storage.Pager.Sorted.{insert_page-All, sort_pages-All}
use db_storage.Pager.Crash.{Small-IsU32}

-- No page has this number.
abbrev pub Absent : ℕ → List Page → Type 0
Absent n pages = All (λ (d : Page). (n == d.0) ≡ false) pages

-- The keys of a map.
abbrev pub Distinct : List Page → Type 0
Distinct [] = Unit
Distinct ((n, bytes) ∷ pages) = Absent n pages × Distinct pages

symmetric : (m n : ℕ) → (m == n) ≡ false → (n == m) ≡ false
symmetric m n h = ground arith

insert_page-Distinct :
    (n : ℕ) (bytes : List ℕ) (pages : List Page)
    → Absent n pages
    → Distinct pages
    → Distinct (insert_page (n, bytes) pages)
unfolding insert_page
insert_page-Distinct n bytes [] absent h = (tt, tt)
insert_page-Distinct n bytes ((m, other) ∷ pages) (first, absent) (apart, h) =
    elim (Bool-cases (leb n m)) [
      | inl before ↦ rw before ((first, absent), (apart, h))
      | inr behind ↦ rw behind (
        insert_page-All (λ (d : Page). (m == d.0) ≡ false) (n, bytes) pages (symmetric n m first)
            apart,
        insert_page-Distinct n bytes pages absent h,
      )
    ]

sort_pages-Distinct : (pages : List Page) → Distinct pages → Distinct (sort_pages pages)
unfolding sort_pages
sort_pages-Distinct [] h = tt
sort_pages-Distinct ((n, bytes) ∷ pages) (absent, h) =
    insert_page-Distinct n bytes (sort_pages pages)
      (sort_pages-All (λ (d : Page). (n == d.0) ≡ false) pages absent) (sort_pages-Distinct pages h)

All-insert_page :
    (P : Page → Type 0) (p : Page) (pages : List Page)
    → All P (insert_page p pages)
    → P p × All P pages
unfolding insert_page
All-insert_page P (n, bytes) [] h = h
All-insert_page P (n, bytes) ((m, other) ∷ pages) h = elim (Bool-cases (leb n m)) [
  | inl before ↦ (rw before at h)
  | inr behind ↦
      let (first, rest) = (rw behind at h) in
      let (here, others) = All-insert_page P (n, bytes) pages rest in (here, (first, others))
]

All-sort_pages : (P : Page → Type 0) (pages : List Page) → All P (sort_pages pages) → All P pages
unfolding sort_pages
All-sort_pages P [] h = tt
All-sort_pages P (p ∷ pages) h =
    let (first, rest) = All-insert_page P p (sort_pages pages) h in
    (first, All-sort_pages P pages rest)

-- The loop over the dirty pages.
write_pages-reads :
    (page_size : ℕ) (pages : List Page) (source : List ℕ) {after : List ℕ}
    → 0 < page_size
    → Small page_size pages
    → Distinct pages
    → length after ≤ u64_max
    → write_pages source page_size pages ≡ ok after
    → All (λ (d : Page). read_page after page_size d.0 ≡ ok d.1) pages
      × ((m : ℕ) (other : List ℕ)
          → Absent m pages
          → read_page source page_size m ≡ ok other
          → read_page after page_size m ≡ ok other)
unfolding write_pages
write_pages-reads page_size [] source {after} pos small apart fits e =
    let same : source ≡ after = cc in (tt, λ m other absent read. rw (sym same) read)
write_pages-reads page_size ((n, bytes) ∷ pages) source {after} pos (one, small) (absent, apart)
      fits e =
    let (next, wrote, rest) = >>=-eq-ok (map_err page (write_page source page_size n bytes)) _ e in
    let written = map_err-eq-ok page (write_page source page_size n bytes) wrote in
    let (long, _) =
      write_pages-keeps 0 page_size ((n, bytes) ∷ pages) source (omega arith) (one, small) e in
    let (here, beside) =
      read_page-write_page source page_size n bytes next pos (omega arith) one written in
    let (others, keeps) = write_pages-reads page_size pages next pos small apart fits rest in
    (
      (keeps n bytes absent here, others),
      λ m other (first, away) read. keeps m other away (beside m other first read),
    )

-- After a `flush_locked` that returned without an error, every dirty page is read from the main
-- file with its content, every other page that was read before is read as before, and no page is
-- dirty; the page numbers are distinct 32-bit words, a page has 1 to 65536 bytes, and the file's
-- size is one of 64 bits.
pub flush_locked-commits :
    (p : Pager) (nonce : ℕ) (q : Pager)
    → 0 < p.page_size
    → p.page_size ≤ 65536
    → All (λ (d : Page). IsU32 d.0) p.dirty
    → Distinct p.dirty
    → length q.source ≤ u64_max
    → flush_locked p nonce ≡ ok q
    → All (λ (d : Page). read_page q.source p.page_size d.0 ≡ ok d.1) p.dirty
      × ((m : ℕ) (other : List ℕ)
          → Absent m p.dirty
          → read_page p.source p.page_size m ≡ ok other
          → read_page q.source p.page_size m ≡ ok other)
      × (q.dirty ≡ [])
unfolding flush_locked
flush_locked-commits p nonce q pos narrow numbers apart fits e =
    let pages = sort_pages p.dirty in
    let (written, _, e1) = >>=-eq-ok (write_journal p (contents p.journal_file) nonce) _ e in
    let (source, wrote, e2) = >>=-eq-ok (write_pages p.source p.page_size pages) _ e1 in
    let same : source ≡ q.source = ap source_of e2 in
    let clean : [] ≡ q.dirty = ap dirty_of e2 in
    let all = sort_pages-All (λ (d : Page). IsU32 d.0) p.dirty numbers in
    let (reads, keeps) =
      write_pages-reads p.page_size pages p.source pos (Small-IsU32 p.page_size pages narrow all)
        (sort_pages-Distinct p.dirty apart) fits (wrote ∙ ap ok same) in
    (
      All-sort_pages (λ (d : Page). read_page q.source p.page_size d.0 ≡ ok d.1) p.dirty reads,
      (λ m other absent read.
          keeps m other (sort_pages-All (λ (d : Page). (m == d.0) ≡ false) p.dirty absent) read),
      sym clean,
    )
  where
    source_of : Result PagerError Pager → List ℕ
    source_of (ok r) = r.source
    source_of (err failed) = []

    dirty_of : Result PagerError Pager → List Page
    dirty_of (ok r) = r.dirty
    dirty_of (err failed) = []

pub flush_locked-page_size :
    (p : Pager) (nonce : ℕ) (q : Pager) → flush_locked p nonce ≡ ok q → q.page_size ≡ p.page_size
unfolding flush_locked
flush_locked-page_size p nonce q e =
    let (written, _, e1) = >>=-eq-ok (write_journal p (contents p.journal_file) nonce) _ e in
    let (source, _, e2) = >>=-eq-ok (write_pages p.source p.page_size (sort_pages p.dirty)) _ e1 in
    ap page_size_of (sym e2)
  where
    page_size_of : Result PagerError Pager → ℕ
    page_size_of (ok r) = r.page_size
    page_size_of (err failed) = p.page_size
