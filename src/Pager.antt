-- ===== src/Pager.antt =====
-- src/row/pager/mod.rs: the commit of the dirty pages with a rollback journal, and what `open` does
-- with a journal that a crash left. The files are their bytes (Vfs/Memory.antt), and the journal
-- file is absent or its bytes; `sync` does not change them. The map `dirty` is the list of its
-- entries, and `nonce` is what `random_nonce` gave.
use db_storage.Prelude.{
  ℕ, zero, suc, ◌+◌, ◌%◌, ◌^◌, ◌≤◌, List, [], ◌∷◌, length, map, Option, some, none,
}
use db_storage.Prelude.{Result, ok, err, ◌>>=◌, map_err, if◌then◌else◌, leb, sat_mul}
use db_storage.Vfs.Memory.{truncate}
use db_storage.Vfs.PageSource.{PageError, read_page, write_page}
use db_storage.Freelist.{FreelistError, read_u32}
use db_storage.Journal.{
  JournalError, JournalHeader, RecoveredJournal, create, write_record, recover,
}
pub mod Commit
pub mod Sorted
pub mod Crash
pub mod Flush
pub mod Allocate
pub mod Mode
pub mod Cache

-- The paths, and the errors inside `Wal` and `Vfs`, are left out.
pub data PagerError : Type 0 where
  hot_journal : PagerError
  journal : JournalError → PagerError
  wal : PagerError
  page : PageError → PagerError
  vfs : PagerError
  freelist : FreelistError → PagerError
  pending_transaction : PagerError
  checkpoint_incomplete : PagerError

abbrev pub page_count_offset : ℕ
page_count_offset = 28

-- A page number and the page's content.
abbrev pub Page : Type 0
Page = ℕ × List ℕ

pub record Pager : Type 0 where
  pub source : List ℕ
  pub journal_file : Option (List ℕ)
  pub page_size : ℕ
  pub dirty : List Page

-- `sort_unstable` on the page numbers, each with its page.
unfoldable pub insert_page : Page → List Page → List Page
insert_page (n, bytes) [] = (n, bytes) ∷ []
insert_page (n, bytes) ((m, other) ∷ pages) =
    let rest = insert_page (n, bytes) pages in
    if leb n m then (n, bytes) ∷ (m, other) ∷ pages else (m, other) ∷ rest

unfoldable pub sort_pages : List Page → List Page
unfolding insert_page
sort_pages [] = []
sort_pages (p ∷ pages) = insert_page p (sort_pages pages)

-- The numbers up to `initial_page_count`, in their order.
unfoldable pub to_journal : ℕ → List Page → List ℕ
to_journal initial_page_count [] = []
to_journal initial_page_count ((n, bytes) ∷ pages) =
    let rest = to_journal initial_page_count pages in
    if leb n initial_page_count then n ∷ rest else rest

-- The loop over `to_journal`, from record `index` on: the journal file after it.
unfoldable pub write_originals :
    List ℕ → ℕ → JournalHeader → List ℕ → ℕ → List ℕ → Result PagerError (List ℕ)
unfolding read_page write_record
write_originals source page_size h file index [] = ok file
write_originals source page_size h file index (n ∷ page_nums) = do
  original ← map_err page (read_page source page_size n)
  write_originals source page_size h (write_record file h index n original) (index + 1) page_nums

-- The loop over the dirty pages: the main file after it.
unfoldable pub write_pages : List ℕ → ℕ → List Page → Result PagerError (List ℕ)
unfolding write_page
write_pages source page_size [] = ok source
write_pages source page_size ((n, bytes) ∷ pages) = do
  source ← map_err page (write_page source page_size n bytes)
  write_pages source page_size pages

-- `initial_page_count`, as page 1 of the main file has it.
unfoldable pub initial_page_count : Pager → Result PagerError ℕ
unfolding read_u32 read_page
initial_page_count p = do
  page1 ← map_err page (read_page p.source p.page_size 1)
  map_err freelist (read_u32 page1 page_count_offset)

abbrev pub journal_header : Pager → ℕ → ℕ → List ℕ → JournalHeader
journal_header p nonce initial page_nums = record {
  n_rec = length page_nums % 2 ^ 32;
  nonce = nonce;
  initial_page_count = initial;
  sector_size = p.page_size;
  page_size = p.page_size;
}

-- The journal with the pages `to_journal`, in a journal file that holds `stale` so far; none where
-- there is no page.
unfoldable pub journal_pages : Pager → List ℕ → ℕ → ℕ → List ℕ → Result PagerError (Option (List ℕ))
unfolding create write_originals
journal_pages p stale nonce initial [] = ok none
journal_pages p stale nonce initial (n ∷ page_nums) = do
  let h = journal_header p nonce initial (n ∷ page_nums)
  file ← map_err journal (create stale h)
  file ← write_originals p.source p.page_size h file 0 (n ∷ page_nums)
  ok (some file)

-- The first half of `flush_locked`.
unfoldable pub write_journal : Pager → List ℕ → ℕ → Result PagerError (Option (List ℕ))
unfolding initial_page_count to_journal sort_pages journal_pages
write_journal p stale nonce = do
  initial ← initial_page_count p
  journal_pages p stale nonce initial (to_journal initial (sort_pages p.dirty))

-- `create_or_open_write` keeps what a file holds.
unfoldable pub contents : Option (List ℕ) → List ℕ
contents none = []
contents (some file) = file

-- `flush_locked`: the journal is deleted where it was written.
unfoldable pub flush_locked : Pager → ℕ → Result PagerError Pager
unfolding write_journal write_pages contents
flush_locked p nonce = do
  written ← write_journal p (contents p.journal_file) nonce
  source ← write_pages p.source p.page_size (sort_pages p.dirty)
  ok (record {
    source = source;
    journal_file = elim written [ none ↦ p.journal_file | some file ↦ none ];
    page_size = p.page_size;
    dirty = [];
  })

-- The main file after the recovery; the journal is deleted then.
unfoldable pub recover_hot_journal : List ℕ → List ℕ → Result PagerError (List ℕ)
unfolding recover truncate
recover_hot_journal journal_bytes db_file = do
  recovered ← map_err journal (recover journal_bytes db_file)
  ok (truncate recovered.1 (sat_mul recovered.0.initial_page_count recovered.0.page_size))
