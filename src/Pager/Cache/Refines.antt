-- ===== src/Pager/Cache/Refines.antt =====
-- Reads and changes of pages with the cache of src/row/pager/mod.rs, against a function from page
-- numbers to pages; and `flush` with the cache.
use db_storage.Prelude.{
  ℕ, ◌≤◌, ◌<◌, ◌≡◌, refl, sym, ◌∙◌, ap, List, [], ◌∷◌, false, ◌==◌, if◌then◌else◌, length, All,
  arith, ◌⊎◌, inl, inr, Bool-cases, Option-cases, Result, ok, err, ◌>>=◌, >>=-eq-ok, Result-cases,
  IsU32, u64_max,
}
use db_storage.Pager.{Pager, Page, PagerError, flush_locked}
use db_storage.Pager.Allocate.{lookup, insert}
use db_storage.Pager.Allocate.Patch.{lookup-insert_self, lookup-insert_ne}
use db_storage.Pager.Cache.{
  CachedPager, invalidate, read_cached_page, read_uncached, change_cached_page,
}
use db_storage.Pager.Cache.Entries.{eq-page}
use db_storage.Pager.Cache.Evict.{discarded-found}
use db_storage.Pager.Cache.Transparent.{
  read_plain, Clean, Coherent, Absent-insert, eq-sym, read_cached_page-read_plain,
}
use db_storage.Pager.Cache.Valid.{Valid, invalidate-Valid}
use db_storage.Pager.Flush.{Absent, Distinct, flush_locked-commits, flush_locked-page_size}
use db_storage.Vfs.PageSource.{PageError, read_page}
use mathlib.Core.Path.{subst, ap₂}

-- The pages after a change of one that can be read.
unfoldable pub changed :
    (ℕ → Result PageError (List ℕ)) → ℕ → (List ℕ → List ℕ) → ℕ → Result PageError (List ℕ)
changed view n change k = elim (view n) [
  | ok bytes ↦ if n == k then ok (change bytes) else view k
  | err e ↦ view k
]

abbrev pub Reads : CachedPager → (ℕ → Result PageError (List ℕ)) → Type 0
Reads p view = (k : ℕ) → read_plain p k ≡ view k

-- The pager where page `n` is dirty with `bytes`, and not in the cache.
abbrev dirtied : CachedPager → ℕ → List ℕ → CachedPager
dirtied p n bytes = record p {
  page_cache = invalidate p.page_cache n;
  pager = record p.pager { dirty = insert p.pager.dirty n bytes };
}

dirtied-Coherent :
    (p : CachedPager) (n : ℕ) (bytes : List ℕ) → Coherent p → Coherent (dirtied p n bytes)
unfolding invalidate
dirtied-Coherent p n bytes coherent =
    let valid = invalidate-Valid (Clean p.pager) p.page_cache n coherent in
    record {
      indexed = valid.indexed;
      bounded = valid.bounded;
      agrees = λ k e h.
          let (before, apart) = discarded-found p.page_cache.entries n k e h in
          let (reads, absent) = coherent.agrees k e before in
          (reads, Absent-insert p.pager.dirty n k bytes (eq-sym n k apart) absent);
    }

read_plain-dirtied_self :
    (p : CachedPager) (n : ℕ) (bytes : List ℕ) → read_plain (dirtied p n bytes) n ≡ ok bytes
unfolding read_plain
read_plain-dirtied_self p n bytes = rw (read_plain, lookup-insert_self p.pager.dirty n bytes) refl

read_plain-dirtied_ne :
    (p : CachedPager) (n k : ℕ) (bytes : List ℕ)
    → (n == k) ≡ false
    → read_plain (dirtied p n bytes) k ≡ read_plain p k
unfolding read_plain
read_plain-dirtied_ne p n k bytes other =
    rw (read_plain, lookup-insert_ne p.pager.dirty n bytes k other) refl

-- A change of a page that can be read, or an error and no change.
change_cached_page-cases :
    (p : CachedPager) (n : ℕ) (change : List ℕ → List ℕ)
    → ((bytes : List ℕ) × (read_plain p n ≡ ok bytes)
        × (change_cached_page p n change ≡ (dirtied p n (change bytes), ok tt)))
      ⊎ ((e : PageError) × (read_plain p n ≡ err e)
          × (change_cached_page p n change
              ≡ (record p { page_cache = invalidate p.page_cache n }, err e)))
unfolding change_cached_page read_plain
change_cached_page-cases p n change = elim (Option-cases (lookup p.pager.dirty n)) [
  | inr (bytes, dirty) ↦
      inl (bytes, rw (read_plain, dirty) refl, rw (change_cached_page, dirty) refl)
  | inl clean ↦ elim (Result-cases (read_uncached p.wal_pages p.pager.source p.pager.page_size n)) [
    | inl (bytes, e) ↦
        inl (bytes, rw (read_plain, clean, e) refl, rw (change_cached_page, clean, e) refl)
    | inr (failed, e) ↦
        inr (failed, rw (read_plain, clean, e) refl, rw (change_cached_page, clean, e) refl)
  ]
]

-- The cache plays no part in what is to be read.
read_plain-same :
    (p q : CachedPager) (k : ℕ)
    → p.pager ≡ q.pager
    → p.wal_pages ≡ q.wal_pages
    → read_plain p k ≡ read_plain q k
unfolding read_plain
read_plain-same p q k pager wal_pages =
    ap₂ (λ (x : Pager) (y : List Page). read_plain (record p { pager = x; wal_pages = y }) k) pager
      wal_pages

invalidated-Coherent :
    (p : CachedPager) (n : ℕ)
    → Coherent p
    → Coherent (record p { page_cache = invalidate p.page_cache n })
invalidated-Coherent p n coherent = invalidate-Valid (Clean p.pager) p.page_cache n coherent

changed-ok :
    (view : ℕ → Result PageError (List ℕ)) (n : ℕ) (change : List ℕ → List ℕ) (k : ℕ)
    (bytes : List ℕ)
    → view n ≡ ok bytes
    → changed view n change k ≡ (if n == k then ok (change bytes) else view k)
unfolding changed
changed-ok view n change k bytes e = rw (changed, e) refl

changed-err :
    (view : ℕ → Result PageError (List ℕ)) (n : ℕ) (change : List ℕ → List ℕ) (k : ℕ)
    (e : PageError)
    → view n ≡ err e
    → changed view n change k ≡ view k
unfolding changed
changed-err view n change k e h = rw (changed, h) refl

-- `get_page_mut` and a change of the page: it is read with the change and every other page as before,
-- or the page cannot be read and no page is changed; the cache stays coherent.
change_cached_page-Reads :
    (p : CachedPager) (n : ℕ) (change : List ℕ → List ℕ) (view : ℕ → Result PageError (List ℕ))
    → Coherent p
    → Reads p view
    → Coherent (change_cached_page p n change).0
      × Reads (change_cached_page p n change).0 (changed view n change)
change_cached_page-Reads p n change view coherent reads =
    elim (change_cached_page-cases p n change) [
      | inl (bytes, read, after) ↦ rw after (
        dirtied-Coherent p n (change bytes) coherent,
        (λ k. elim (Bool-cases (n == k)) [
          | inl same ↦
              let at_n = changed-ok view n change k bytes (sym (reads n) ∙ read) in
              let self =
                subst (λ j. read_plain (dirtied p n (change bytes)) j ≡ ok (change bytes))
                  (eq-page n k same) (read_plain-dirtied_self p n (change bytes)) in
              self ∙ sym (at_n ∙ rw same refl)
          | inr other ↦
              let at_k = changed-ok view n change k bytes (sym (reads n) ∙ read) in
              read_plain-dirtied_ne p n k (change bytes) other
              ∙ reads k
              ∙ sym (at_k ∙ rw other refl)
        ]),
      )
      | inr (e, failed, after) ↦ rw after (
        invalidated-Coherent p n coherent,
        (λ k.
            read_plain-same (record p { page_cache = invalidate p.page_cache n }) p k refl refl
            ∙ reads k
            ∙ sym (changed-err view n change k e (sym (reads n) ∙ failed))),
      )
    ]

-- A read, or a change of a page.
pub data Op : Type 0 where
  read : ℕ → Op
  edit : ℕ → (List ℕ → List ℕ) → Op

-- What the reads return, in their order.
unfoldable pub run_cached : CachedPager → List Op → List (Result PageError (List ℕ))
unfolding read_cached_page change_cached_page
run_cached p [] = []
run_cached p (read n ∷ ops) = (read_cached_page p n).1 ∷ run_cached (read_cached_page p n).0 ops
run_cached p (edit n change ∷ ops) = run_cached (change_cached_page p n change).0 ops

unfoldable pub run_view :
    (ℕ → Result PageError (List ℕ)) → List Op → List (Result PageError (List ℕ))
unfolding changed
run_view view [] = []
run_view view (read n ∷ ops) = view n ∷ run_view view ops
run_view view (edit n change ∷ ops) = run_view (changed view n change) ops

-- Whatever pages are read and changed, in whatever order and with whatever capacity: the reads
-- return what a function from page numbers to pages returns that every change updates at its page.
-- At the start the cache has only pages of the main file that are not dirty, and the function gives
-- the pages that are to be read.
pub run_cached-run_view :
    (ops : List Op) (p : CachedPager) (view : ℕ → Result PageError (List ℕ))
    → Coherent p
    → Reads p view
    → run_cached p ops ≡ run_view view ops
unfolding run_cached run_view
run_cached-run_view [] p view coherent reads = refl
run_cached-run_view (read n ∷ ops) p view coherent reads =
    let (result, valid, pager, wal_pages) = read_cached_page-read_plain p n coherent in
    let after = (read_cached_page p n).0 in
    ap₂ ◌∷◌ (result ∙ reads n) (
      run_cached-run_view ops after view
        (subst (λ pager. Valid (Clean pager) after.page_cache) (sym pager) valid)
        (λ k. read_plain-same after p k pager wal_pages ∙ reads k))
run_cached-run_view (edit n change ∷ ops) p view coherent reads =
    let (kept, seen) = change_cached_page-Reads p n change view coherent reads in
    run_cached-run_view ops (change_cached_page p n change).0 (changed view n change) kept seen

-- `flush` does not touch the cache.
unfoldable pub flush_cached : CachedPager → ℕ → Result PagerError CachedPager
unfolding flush_locked
flush_cached p nonce = do flushed ← flush_locked p.pager nonce; ok (record p { pager = flushed })

pager_inj : {x y : CachedPager} → ◌≡◌ {A = Result PagerError CachedPager} (ok x) (ok y) → x ≡ y
pager_inj {x} h = ap (λ r. elim r [ ok v ↦ v | err e ↦ x ]) h

-- After a `flush` that returned without an error, the cache that was coherent still has only pages
-- of the main file, although that was written; the page numbers are distinct 32-bit words, a page
-- has 1 to 65536 bytes, and the file's size is one of 64 bits.
pub flush_cached-Coherent :
    (p : CachedPager) (nonce : ℕ) (q : CachedPager)
    → 0 < p.pager.page_size
    → p.pager.page_size ≤ 65536
    → All (λ (d : Page). IsU32 d.0) p.pager.dirty
    → Distinct p.pager.dirty
    → length q.pager.source ≤ u64_max
    → Coherent p
    → flush_cached p nonce ≡ ok q
    → Coherent q
unfolding flush_cached
flush_cached-Coherent p nonce q pos narrow numbers apart fits coherent e =
    let (flushed, done, e1) = >>=-eq-ok (flush_locked p.pager nonce) _ e in
    let same : record p { pager = flushed } ≡ q = pager_inj e1 in
    let source_eq = ap (λ (x : CachedPager). length x.pager.source) same in
    let (written, keeps, clean) =
      flush_locked-commits p.pager nonce flushed pos narrow numbers apart (omega (arith, source_eq))
        done in
    let size = flush_locked-page_size p.pager nonce flushed done in
    subst Coherent same (record {
      indexed = coherent.indexed;
      bounded = coherent.bounded;
      agrees = λ n e h.
          let (reads, absent) = coherent.agrees n e h in
          (
            subst (λ s. read_page flushed.source s n ≡ ok e.bytes) (sym size)
                (keeps n e.bytes absent reads),
            subst (Absent n) (sym clean) tt,
          );
    })
