-- ===== src/Tests/Pager.antt =====
-- src/row/pager: a journal, a crash and the recovery, on a file of two pages of 32 bytes.
use db_storage.Prelude.{All, ◌==◌, false}
use db_storage.Vfs.PageSource.{read_page, write_page}
use db_storage.Vfs.Written.{read_page-write_page}
use db_storage.Pager.{flush_locked, Page}
use db_storage.Pager.Flush.{flush_locked-commits, Absent}
use db_storage.Prelude.{length}
use db_storage.Prelude.{
  ℕ, ◌+◌, ◌<◌, ◌≤◌, ◌≡◌, refl, List, [], ◌∷◌, ◌++◌, replicate, Result, ok, err, arith,
}
use db_storage.Prelude.{
  Option, some, none, get_elem?, ◌⊎◌, inl, inr, Bool-cases, leb, leb→le, get_elem?-append_lt, sym,
  ◌∙◌, slice?,
}
use db_storage.Journal.{
  JournalHeader, parse, serialize, create, recover, journal_magic, page_checksum, checksum_loop,
}
use db_storage.Journal.Checksum.{checksum_loop-enough}
use db_storage.Journal.Header.{parse-serialize}
use db_storage.Journal.Records.{PreImage, write_records, restore}
use db_storage.Journal.Replay.{recover-write_records}
use db_storage.Pager.{
  Pager, PagerError, write_journal, write_pages, sort_pages, recover_hot_journal,
}
use db_storage.Pager.{initial_page_count}
use db_storage.Freelist.{parse as parse_trunk, read_u32}
use db_storage.Pager.Allocate.{read_dirty_page}
use db_storage.Pager.Allocate.Reuse.{Reused, allocate_page-deallocate_page}
use db_storage.Header.{wal}
use db_storage.Pager.Mode.{journal_mode_from_page1, patch_journal_mode_bytes}
use db_storage.Pager.Mode.{journal_mode_from_page1-patch_journal_mode_bytes}
use db_storage.Pager.Crash.{flush_locked-crash, recover_hot_journal-restores}

abbrev first_page : List ℕ
first_page = replicate 28 1 ++ (0 ∷ 0 ∷ 0 ∷ 2 ∷ [])

abbrev two_pages : List ℕ
two_pages = first_page ++ replicate 32 7

abbrev pager : Pager
pager = record {
  source = two_pages;
  journal_file = none;
  page_size = 32;
  dirty = (2, replicate 32 9) ∷ (1, replicate 32 8) ∷ (3, replicate 32 5) ∷ [];
}

abbrev journal_of : Result PagerError (Option (List ℕ)) → List ℕ
journal_of (ok (some file)) = file
journal_of (ok none) = []
journal_of (err e) = []

abbrev file_of : Result PagerError (List ℕ) → List ℕ
file_of (ok file) = file
file_of (err e) = []

-- The first two of three dirty pages are written before the crash.
flush_locked-crash_example :
    recover_hot_journal
      (journal_of (write_journal pager [] 5))
      (file_of (write_pages two_pages 32 ((1, replicate 32 8) ∷ (2, replicate 32 9) ∷ [])))
    ≡ ok two_pages
unfolding write_journal write_pages slice?
flush_locked-crash_example =
    flush_locked-crash pager [] 5 2
      (
        omega arith,
        omega arith,
        (unfold initial_page_count slice? in refl),
        omega arith,
        refl,
        (omega arith, (omega arith, (omega arith, tt))),
        omega arith,
      )
      (omega arith) ((1, replicate 32 8) ∷ (2, replicate 32 9) ∷ []) ((3, replicate 32 5) ∷ [])
      (unfold sort_pages in refl) refl refl

abbrev header : JournalHeader
header = record { n_rec = 1; nonce = 5; initial_page_count = 2; sector_size = 32; page_size = 32 }

abbrev originals : List PreImage
originals = (2, replicate 32 7) ∷ []

abbrev created : List ℕ
unfolding serialize
created = serialize header journal_magic ++ (0 ∷ 0 ∷ 0 ∷ 0 ∷ [])

-- The second page is torn: its first half is new, its second half is old.
recover_hot_journal-restores_example :
    recover_hot_journal
      (write_records created header 0 originals)
      (first_page ++ (replicate 16 9 ++ replicate 16 7))
    ≡ ok two_pages
recover_hot_journal-restores_example =
    recover_hot_journal-restores [] header originals created two_pages
      (first_page ++ (replicate 16 9 ++ replicate 16 7)) (unfold create serialize in refl)
      (omega arith, omega arith, omega arith, omega arith, omega arith) (omega arith) refl
      ((omega arith, refl), tt) ((refl, omega arith), tt) refl (omega arith) (omega arith) torn
  where
    torn :
        (j : ℕ)
        → j < 64
        → (((32 ≤ j) × (j < 64)) ⊎ ⊥)
          ⊎ (get_elem? (first_page ++ (replicate 16 9 ++ replicate 16 7)) j ≡ get_elem? two_pages j)
    torn j h = elim (Bool-cases (leb 32 j)) [
      | inl second ↦ inl (inl (leb→le 32 j second, h))
      | inr first ↦
          let front : j < 32 = ground arith in
          inr (
            get_elem?-append_lt first_page (replicate 16 9 ++ replicate 16 7) j front
            ∙ sym (get_elem?-append_lt first_page (replicate 32 7) j front))
    ]

abbrev stale_bytes : List ℕ
stale_bytes = replicate 100 1

abbrev two_records : JournalHeader
two_records = record {
  n_rec = 2;
  nonce = 5;
  initial_page_count = 2;
  sector_size = 32;
  page_size = 32;
}

abbrev created_over : List ℕ
unfolding serialize
created_over = (serialize two_records journal_magic ++ (0 ∷ 0 ∷ 0 ∷ 0 ∷ [])) ++ replicate 68 1

-- Two records, in a journal file that an older and longer journal left behind.
recover-write_records_example :
    recover
      (write_records (created_over) two_records 0 ((2, replicate 32 7) ∷ (1, first_page) ∷ []))
      (replicate 64 0)
    ≡ ok (
      record { initial_page_count = 2; page_size = 32 },
      restore 32 ((2, replicate 32 7) ∷ (1, first_page) ∷ []) (replicate 64 0),
    )
recover-write_records_example =
    recover-write_records stale_bytes two_records ((2, replicate 32 7) ∷ (1, first_page) ∷ [])
      created_over (unfold create serialize in refl)
      (omega arith, omega arith, omega arith, omega arith, omega arith) (omega arith)
      ((omega arith, refl), ((omega arith, refl), tt)) (replicate 64 0) refl

parse-serialize_example : parse (serialize header journal_magic ++ (1 ∷ 2 ∷ [])) ≡ ok header
parse-serialize_example =
    parse-serialize header journal_magic (1 ∷ 2 ∷ []) refl
      (omega arith, omega arith, omega arith, omega arith, omega arith)

-- The checksum of a page of 512 bytes 1 is the salt and two.
page_checksum_ones : page_checksum 0 (replicate 512 1) ≡ 2
unfolding page_checksum
page_checksum_ones = refl

-- Two samples: at 112 and at 312 bytes.
checksum_loop-enough_example :
    checksum_loop (312 + 7) (replicate 512 1) 312 0 ≡ checksum_loop 312 (replicate 512 1) 312 0
checksum_loop-enough_example = checksum_loop-enough 312 7 (replicate 512 1) 312 0 (omega arith)

-- Page 1 of 64 bytes: one page more, page 3 as the first trunk page, one free page.
abbrev first_of_64 : List ℕ
first_of_64 = replicate 31 0 ++ (3 ∷ 0 ∷ 0 ∷ 0 ∷ 3 ∷ 0 ∷ 0 ∷ 0 ∷ 1 ∷ replicate 24 0)

abbrev three_pages : Pager
three_pages = record {
  source = first_of_64 ++ (replicate 64 9 ++ replicate 64 0);
  journal_file = none;
  page_size = 64;
  dirty = [];
}

-- Page 2 becomes a leaf of the empty trunk page 3, and is allocated from it.
allocate_page-deallocate_page_example : Reused three_pages 2 3 3 1
allocate_page-deallocate_page_example =
    allocate_page-deallocate_page three_pages 2 3 3 1
      (record {
        header = first_of_64;
        first_page = unfold read_dirty_page in refl;
        long = (omega arith, omega arith);
        counted = unfold read_u32 slice? in refl;
        trunk_is = unfold read_u32 slice? in refl;
        free_is = unfold read_u32 slice? in refl;
      })
      (omega arith) (omega arith) (replicate 64 9) (replicate 64 0)
      (record { next_trunk = 0; leaves = [] }) (omega arith) refl refl refl
      (unfold read_dirty_page in refl) (omega arith) (omega arith)
      (inr (
        (unfold read_dirty_page in refl),
        (unfold parse_trunk read_u32 slice? in refl),
        (omega arith, tt),
        refl,
        omega arith,
      ))

journal_mode_from_page1-patch_journal_mode_bytes_example :
    (after : List ℕ) × (patch_journal_mode_bytes first_of_64 2 2 ≡ ok after)
    × (journal_mode_from_page1 after ≡ wal)
    × (length after ≡ 64)
    × ((j : ℕ) → (j < 18) ⊎ (20 ≤ j) → get_elem? after j ≡ get_elem? first_of_64 j)
journal_mode_from_page1-patch_journal_mode_bytes_example =
    journal_mode_from_page1-patch_journal_mode_bytes first_of_64 2 2 (omega arith)

-- The three dirty pages of `pager` are committed.
abbrev committed : Pager
committed = record {
  source = replicate 32 8 ++ (replicate 32 9 ++ replicate 32 5);
  journal_file = none;
  page_size = 32;
  dirty = [];
}

flush_locked-commits_example :
    All (λ (d : Page). read_page committed.source 32 d.0 ≡ ok d.1) pager.dirty
    × ((m : ℕ) (other : List ℕ)
        → Absent m pager.dirty
        → read_page two_pages 32 m ≡ ok other
        → read_page committed.source 32 m ≡ ok other)
    × (committed.dirty ≡ [])
flush_locked-commits_example =
    flush_locked-commits pager 5 committed (omega arith) (omega arith)
      (omega arith, (omega arith, (omega arith, tt))) ((refl, (refl, tt)), ((refl, tt), (tt, tt)))
      (omega arith) (unfold flush_locked slice? in refl)

-- Page 2 of two is written; page 1 is as before.
read_page-write_page_example :
    (read_page (first_page ++ replicate 32 9) 32 2 ≡ ok (replicate 32 9))
    × ((m : ℕ) (other : List ℕ)
        → (m == 2) ≡ false
        → read_page two_pages 32 m ≡ ok other
        → read_page (first_page ++ replicate 32 9) 32 m ≡ ok other)
read_page-write_page_example =
    read_page-write_page two_pages 32 2 (replicate 32 9) (first_page ++ replicate 32 9)
      (omega arith) (omega arith) (omega arith) (unfold write_page in refl)
