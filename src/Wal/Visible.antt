-- ===== src/Wal/Visible.antt =====
-- What a reader of the log (src/row/pager/wal.rs) sees after a commit of src/row/pager/mod.rs.
use db_storage.Prelude.{
  ℕ, ◌+◌, ◌<◌, ◌≡◌, refl, sym, ◌∙◌, ap, false, List, [], ◌∷◌, ◌++◌, some, length, u64_max, All,
  IsU32, ok, err, Result, ◌==◌,
}
use db_storage.Pager.{Page}
use db_storage.Pager.Allocate.{lookup, insert}
use db_storage.Pager.Allocate.Patch.{lookup-insert_self, lookup-insert_ne}
use db_storage.Pager.Flush.{Absent, Distinct}
use db_storage.Pager.Cache.Transparent.{eq-sym}
use db_storage.Wal.{WalHeader, Sum, WalError, parse}
use db_storage.Wal.Append.{Fits, frames_of, log_of}
use db_storage.Wal.Committed.{
  Snapshot, publish, publish_all, no_frames, valid_frames, committed_pages-publish_all,
}
use db_storage.Wal.Flush.{flush_wal-Flushed}
use db_storage.Wal.Frames.{sum_after}
use db_storage.Wal.Log.{Frame, committed_pages, last_valid_frame_state}
use db_storage.Wal.Words.{IsSum}
use db_storage.Wal.Writer.{full, flush_wal}

All-map :
    {A : Type 0} (P Q : A → Type 0) → ((a : A) → P a → Q a) → (xs : List A) → All P xs → All Q xs
All-map P Q f [] h = tt
All-map P Q f (x ∷ xs) h = (f x h.0, All-map P Q f xs h.1)

bytes_inj : {x y : List ℕ} → ◌≡◌ {A = Result WalError (List ℕ)} (ok x) (ok y) → x ≡ y
bytes_inj {x} h = ap (λ r. elim r [ ok v ↦ v | err e ↦ x ]) h

publish_all-append :
    (t : Snapshot) (fs gs : List Frame)
    → publish_all t (fs ++ gs) ≡ publish_all (publish_all t fs) gs
unfolding publish_all
publish_all-append t [] gs = refl
publish_all-append t (f ∷ fs) gs = publish_all-append (publish t f) fs gs

pub insert_all : List Page → List Page → List Page
insert_all pages [] = pages
insert_all pages ((n, bytes) ∷ more) = insert_all (insert pages n bytes) more

insert_all-Absent :
    (more pages : List Page) (k : ℕ)
    → Absent k more
    → lookup (insert_all pages more) k ≡ lookup pages k
unfolding insert_all
insert_all-Absent [] pages k absent = refl
insert_all-Absent ((n, bytes) ∷ more) pages k (other, absent) =
    insert_all-Absent more (insert pages n bytes) k absent
    ∙ lookup-insert_ne pages n bytes k (eq-sym k n other)

insert_all-Distinct :
    (more pages : List Page)
    → Distinct more
    → All (λ (d : Page). lookup (insert_all pages more) d.0 ≡ some d.1) more
unfolding insert_all
insert_all-Distinct [] pages apart = tt
insert_all-Distinct ((n, bytes) ∷ more) pages (absent, apart) = (
  insert_all-Absent more (insert pages n bytes) n absent ∙ lookup-insert_self pages n bytes,
  insert_all-Distinct more (insert pages n bytes) apart,
)

-- The frames of a transaction are published at its last one.
publish_all-frames_of :
    (from_ne_bytes : List ℕ → ℕ) (h : WalHeader) (running : Sum) (t : Snapshot) (page : Page)
    (pages : List Page) (post : ℕ)
    → (post == 0) ≡ false
    → ((publish_all t (frames_of from_ne_bytes h running (page ∷ pages) post)).published
        ≡ insert_all t.candidate (page ∷ pages))
      × ((publish_all t (frames_of from_ne_bytes h running (page ∷ pages) post)).db_size ≡ post)
unfolding publish_all frames_of publish insert_all
publish_all-frames_of from_ne_bytes h running t (n, bytes) [] post commits =
    rw (publish, commits) (refl, refl)
publish_all-frames_of from_ne_bytes h running t (n, bytes) (page ∷ pages) post commits =
    publish_all-frames_of from_ne_bytes h (sum_after from_ne_bytes h running n bytes 0)
      (record t { candidate = insert t.candidate n bytes }) page pages post commits

-- After a commit to the log with `synchronous` FULL, `committed_pages` gives every page of the
-- transaction with its content, the page count that the transaction declared, and every other page
-- as the last valid frame before the transaction has it. The log's frames are valid up to its end,
-- its header is parsed and has the page size of the pager, the salts, the checksum, the page
-- numbers and the page count are 32-bit words and the page count is not 0, the page numbers are
-- distinct, the pages have the page size, and the sizes fit in 64 bits.
pub committed_pages-flush_wal :
    (from_ne_bytes : List ℕ → ℕ) (file : List ℕ) (page_size : ℕ) (page : Page) (pages : List Page)
    (post : ℕ) (h : WalHeader) (last : Sum) (after : List ℕ)
    → parse from_ne_bytes file ≡ ok h
    → h.page_size ≡ page_size
    → last_valid_frame_state from_ne_bytes h file ≡ (length file, last)
    → IsU32 h.salt1
    → IsU32 h.salt2
    → IsSum last
    → All (Fits h) (page ∷ pages)
    → Distinct (page ∷ pages)
    → IsU32 post
    → (post == 0) ≡ false
    → length file + length (log_of from_ne_bytes h last (page ∷ pages) post) + 24 + h.page_size
      < u64_max
    → flush_wal from_ne_bytes file page_size full (page ∷ pages) post ≡ ok after
    → All
        (λ (d : Page). lookup (committed_pages from_ne_bytes h after).0 d.0 ≡ some d.1)
        (page ∷ pages)
      × ((k : ℕ)
          → Absent k (page ∷ pages)
          → lookup (committed_pages from_ne_bytes h after).0 k
            ≡ lookup (publish_all no_frames (valid_frames from_ne_bytes h file)).candidate k)
      × ((committed_pages from_ne_bytes h after).1 ≡ post)
committed_pages-flush_wal from_ne_bytes file page_size page pages post h last after parsed size
      state s1 s2 sum fits apart count commits small done =
    let flushed =
      flush_wal-Flushed from_ne_bytes file page_size (page ∷ pages) post h last parsed size state s1
        s2 sum fits count small in
    let same : flushed.after ≡ after = bytes_inj (sym flushed.with_full ∙ done) in
    let old = valid_frames from_ne_bytes h file in
    let base = publish_all no_frames old in
    let split =
      ap (publish_all no_frames) (ap (valid_frames from_ne_bytes h) (sym same) ∙ flushed.frames)
      ∙ publish_all-append no_frames old (frames_of from_ne_bytes h last (page ∷ pages) post) in
    let (seen, db_size) = committed_pages-publish_all from_ne_bytes h after in
    let (published, size_eq) =
      publish_all-frames_of from_ne_bytes h last base page pages post commits in
    let view : (k : ℕ)
        → lookup (committed_pages from_ne_bytes h after).0 k
          ≡ lookup (insert_all base.candidate (page ∷ pages)) k =
      λ k.
        seen k
        ∙ ap (λ (t : Snapshot). lookup t.published k) split
        ∙ ap (λ l. lookup l k) published in
    (
      All-map (λ (d : Page). lookup (insert_all base.candidate (page ∷ pages)) d.0 ≡ some d.1)
          (λ (d : Page). lookup (committed_pages from_ne_bytes h after).0 d.0 ≡ some d.1)
          (λ d e. view d.0 ∙ e) (page ∷ pages)
          (insert_all-Distinct (page ∷ pages) base.candidate apart),
      (λ k absent. view k ∙ insert_all-Absent (page ∷ pages) base.candidate k absent),
      db_size ∙ ap (λ (t : Snapshot). t.db_size) split ∙ size_eq,
    )
