-- ===== src/Pager/Crash.antt =====
-- A crash between the journal and the end of the commit: the recovery gives back the main file of
-- before the transaction.
use db_storage.Prelude.{ℕ, ◌+◌, ◌*◌, ◌^◌, ◌≤◌, ◌<◌, ◌≡◌, ap, sym, ◌∙◌, List, [], ◌∷◌, ◌++◌, arith}
use db_storage.Prelude.{length, get_elem?, Result, ok, >>=-eq-ok, map_err, All, IsU32, u64_max}
use db_storage.Prelude.{◌⊎◌, inl, inr, Bool-cases, leb, leb→le, le→leb, sat_mul}
use db_storage.Prelude.{Option, some, take-get_elem?}
use native.Mathlib.Nat.{mul-le-mul}
use db_storage.Vfs.Memory.{truncate, resize}
use db_storage.Journal.{JournalHeader, create}
use db_storage.Journal.Header.{IsJournalHeader}
use db_storage.Journal.Records.{PreImage, IsPreImage, write_records, restore, record_offset}
use db_storage.Journal.Rollback.{IsPageOf, InPages, restore-get_elem?}
use db_storage.Journal.Replay.{recover-write_records}
use db_storage.Pager.{
  Pager, Page, write_originals, write_pages, write_journal, to_journal, sort_pages, journal_pages,
  journal_header,
}
use db_storage.Pager.{initial_page_count, recover_hot_journal, journal}
use db_storage.Pager.Commit.{
  write_originals-ok, write_pages-keeps, InDirty, InNumbers, Small, map_err-eq-ok,
}
use db_storage.Pager.Sorted.{sort_pages-All, length-sort_pages, length-to_journal}

-- A file that has the bytes of `db` in front is cut to `db`.
truncate-restores :
    (after db : List ℕ)
    → length db ≤ length after
    → ((j : ℕ) → j < length db → get_elem? after j ≡ get_elem? db j)
    → truncate after (length db) ≡ db
unfolding truncate resize
truncate-restores after db long same =
    rw (le→leb (length db) (length after) long) (take-get_elem? after db long same)

-- The page numbers in the journal cover what is overwritten of the file.
to_journal-InNumbers :
    (initial page_size : ℕ) (pages : List Page) (j : ℕ)
    → InDirty initial page_size pages j
    → InNumbers page_size (to_journal initial pages) j
unfolding to_journal
to_journal-InNumbers initial page_size [] j none_ = none_
to_journal-InNumbers initial page_size ((n, bytes) ∷ pages) j known =
    elim (Bool-cases (leb n initial)) [
      | inl old ↦ rw old (elim known [
        | inl here ↦ inl here.1
        | inr later ↦ inr (to_journal-InNumbers initial page_size pages j later)
      ])
      | inr new ↦ rw new (elim known [
        | inl here ↦ let le = here.0 in absurd (ground arith)
        | inr later ↦ to_journal-InNumbers initial page_size pages j later
      ])
    ]

InDirty-append :
    (initial page_size : ℕ) (pages others : List Page) (j : ℕ)
    → InDirty initial page_size pages j
    → InDirty initial page_size (pages ++ others) j
InDirty-append initial page_size [] others j none_ = absurd none_
InDirty-append initial page_size (p ∷ pages) others j (inl here) = inl here
InDirty-append initial page_size (p ∷ pages) others j (inr later) =
    inr (InDirty-append initial page_size pages others j later)

to_journal-IsU32 :
    (initial : ℕ) (pages : List Page) → IsU32 initial → All IsU32 (to_journal initial pages)
unfolding to_journal
to_journal-IsU32 initial [] h = tt
to_journal-IsU32 initial ((n, bytes) ∷ pages) h =
    let rest = to_journal-IsU32 initial pages h in
    elim (Bool-cases (leb n initial)) [
      | inl old ↦ let le = leb→le n initial old in rw old (omega arith, rest)
      | inr new ↦ rw new rest
    ]

-- A journal of pre-images of pages of a file, whose size its header has, brings the file back from
-- one that is as long or longer and has the same bytes outside of these pages, whatever stands in
-- the pages, torn writes included.
pub recover_hot_journal-restores :
    (stale : List ℕ) (h : JournalHeader) (pages : List PreImage) (file db crashed : List ℕ)
    → create stale h ≡ ok file
    → IsJournalHeader h
    → record_offset h (length pages) ≤ u64_max
    → h.n_rec ≡ length pages
    → All (IsPreImage h.page_size) pages
    → All (IsPageOf h.page_size db) pages
    → length db ≡ h.initial_page_count * h.page_size
    → length db ≤ u64_max
    → length db ≤ length crashed
    → ((j : ℕ)
        → j < length db
        → InPages h.page_size pages j ⊎ (get_elem? crashed j ≡ get_elem? db j))
    → recover_hot_journal (write_records file h 0 pages) crashed ≡ ok db
unfolding recover_hot_journal
recover_hot_journal-restores stale h pages file db crashed made good fits counted whole right size
      small long known =
    let replayed = recover-write_records stale h pages file made good fits whole crashed counted in
    let (same_length, same) = restore-get_elem? h.page_size db small pages crashed right long in
    let after = restore h.page_size pages crashed in
    let cut : sat_mul h.initial_page_count h.page_size ≡ length db = omega arith in
    rw (replayed, cut)
      (ap ok (truncate-restores after db (omega arith) (λ j lt. same j (known j lt))))

All-front : (P : Page → Type 0) (pages others : List Page) → All P (pages ++ others) → All P pages
All-front P [] others h = tt
All-front P (p ∷ pages) others h = (h.0, All-front P pages others h.1)

pub Small-IsU32 :
    (page_size : ℕ) (pages : List Page)
    → page_size ≤ 65536
    → All (λ (p : Page). IsU32 p.0) pages
    → Small page_size pages
Small-IsU32 page_size [] h fits = tt
Small-IsU32 page_size ((n, bytes) ∷ pages) h (fit, fits) =
    let one = mul-le-mul {n₁ = n} {m₁ = page_size} {n₂ = 2 ^ 32} {m₂ = 65536} (omega arith) h in
    (omega arith, Small-IsU32 page_size pages h fits)

-- A pager whose file has the pages that its first page counts, with fewer than `2 ^ 32` dirty
-- pages, whose numbers are 32-bit words.
abbrev pub IsPager : Pager → ℕ → Type 0
IsPager p initial =
    (28 ≤ p.page_size)
    × (p.page_size ≤ 65536)
    × (initial_page_count p ≡ ok initial)
    × IsU32 initial
    × (length p.source ≡ initial * p.page_size)
    × All (λ (d : Page). IsU32 d.0) p.dirty
    × (length p.dirty < 2 ^ 32)

ok-some :
    {E A : Type 0} (a b : A) → ◌≡◌ {A = Result E (Option A)} (ok (some a)) (ok (some b)) → b ≡ a
ok-some a b h = cc

module _ (p : Pager) (stale : List ℕ) (nonce initial : ℕ) (sound : IsPager p initial)
    (salt : IsU32 nonce) where
  -- The pages with these numbers are in the journal, which then undoes what was written of them.
  journal_pages-restores :
      (page_nums : List ℕ) (crashed : List ℕ) {written : List ℕ}
      → All IsU32 page_nums
      → length page_nums < 2 ^ 32
      → journal_pages p stale nonce initial page_nums ≡ ok (some written)
      → length p.source ≤ length crashed
      → ((j : ℕ)
          → j < length p.source
          → InNumbers p.page_size page_nums j ⊎ (get_elem? crashed j ≡ get_elem? p.source j))
      → recover_hot_journal written crashed ≡ ok p.source
  unfolding journal_pages
  journal_pages-restores [] crashed fits few e long known = cc
  journal_pages-restores (n ∷ ns) crashed {written} fits few e long known =
      let (room, narrow, counted, small_initial, size, _, _) = sound in
      let page_nums = n ∷ ns in
      let h = journal_header p nonce initial page_nums in
      let (file, made, e1) = >>=-eq-ok (map_err journal (create stale h)) _ e in
      let created = map_err-eq-ok journal (create stale h) made in
      let (last, loop, e2) =
        >>=-eq-ok (write_originals p.source p.page_size h file 0 page_nums) _ e1 in
      let bound =
        mul-le-mul {n₁ = initial} {m₁ = p.page_size} {n₂ = 2 ^ 32} {m₂ = 65536} (omega arith)
          narrow in
      let small : length p.source ≤ u64_max = omega arith in
      let o =
        write_originals-ok p.source p.page_size h file 0 page_nums (omega arith) small fits loop in
      let count = o.count in
      let records_bound =
        mul-le-mul {n₁ = length o.pages} {m₁ = p.page_size + 8} {n₂ = 2 ^ 32} {m₂ = 65544}
          (omega arith) (omega arith) in
      let header : IsJournalHeader h =
        (omega arith, salt, small_initial, omega arith, omega arith) in
      let same : written ≡ write_records file h 0 o.pages = ok-some last written e2 ∙ o.written in
      rw same (
        recover_hot_journal-restores stale h o.pages file p.source crashed created header
          (omega arith) (omega arith) o.whole o.right size small long
          (λ j lt. elim (known j lt) [ inl here ↦ inl (o.covers j here) | inr kept ↦ inr kept ]))

  -- A crash while `flush_locked` writes the dirty pages, after any number of them: with the journal
  -- that it wrote before, over any old journal file, `recover_hot_journal` gives back the main file
  -- of before the transaction. The file has the pages that its first page counts, a page has 28 to
  -- 65536 bytes, the nonce and the page numbers are 32-bit words, and fewer than 2 ^ 32 pages are
  -- dirty.
  pub flush_locked-crash :
      (done rest : List Page) {written partial : List ℕ}
      → sort_pages p.dirty ≡ done ++ rest
      → write_journal p stale nonce ≡ ok (some written)
      → write_pages p.source p.page_size done ≡ ok partial
      → recover_hot_journal written partial ≡ ok p.source
  unfolding write_journal
  flush_locked-crash done rest {written} {partial} sorted journaled wrote =
      let (room, narrow, counted, small_initial, size, numbers, few) = sound in
      let pages = sort_pages p.dirty in
      let e = (rw counted at journaled) in
      let all = sort_pages-All (λ (d : Page). IsU32 d.0) p.dirty numbers in
      let front = All-front (λ (d : Page). IsU32 d.0) done rest (rw (sym sorted) all) in
      let (long, kept) =
        write_pages-keeps initial p.page_size done p.source (omega arith)
          (Small-IsU32 p.page_size done narrow front) wrote in
      journal_pages-restores (to_journal initial pages) partial
        (to_journal-IsU32 initial pages small_initial)
        (omega (arith, length-to_journal initial pages, length-sort_pages p.dirty)) e long
        (λ j lt. elim (kept j (omega arith)) [
          | inl here ↦ inl (
              to_journal-InNumbers initial p.page_size pages j
                (rw sorted (InDirty-append initial p.page_size done rest j here)))
          | inr same ↦ inr same
        ])
