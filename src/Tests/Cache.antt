-- ===== src/Tests/Cache.antt =====
-- src/row/pager/mod.rs with a cache of one page and a main file of three pages of 16 bytes.
use db_storage.Prelude.{
  ℕ, ◌≡◌, refl, List, [], ◌∷◌, ◌++◌, replicate, arith, none, some, ok, err, slice?,
}
use db_storage.Pager.{Page, flush_locked}
use db_storage.Pager.Cache.{
  PageCache, CachedPager, new_cache, insert_cached, evict_one, read_cached_page,
}
use db_storage.Pager.Cache.Evict.{Eviction, evict_one-Eviction}
use db_storage.Pager.Cache.Refines.{
  Op, read, edit, run_cached, run_view, run_cached-run_view, flush_cached, flush_cached-Coherent,
}
use db_storage.Pager.Cache.Transparent.{read_plain, Clean, Coherent, read_cached_page-read_plain}
use db_storage.Pager.Cache.Valid.{Valid, new_cache-Valid, insert_cached-Valid}
use db_storage.Vfs.PageSource.{read_page, short_read}

abbrev three : CachedPager
three = record {
  pager = record {
    source = replicate 16 1 ++ (replicate 16 2 ++ replicate 16 3);
    journal_file = none;
    page_size = 16;
    dirty = [];
  };
  wal_pages = (3, replicate 16 7) ∷ [];
  page_cache = new_cache 1;
}

three-Coherent : Coherent three
three-Coherent = new_cache-Valid (Clean three.pager) 1

read_cached_page-read_plain_example :
    ((read_cached_page three 2).1 ≡ read_plain three 2)
    × Valid (Clean three.pager) (read_cached_page three 2).0.page_cache
    × ((read_cached_page three 2).0.pager ≡ three.pager)
    × ((read_cached_page three 2).0.wal_pages ≡ three.wal_pages)
read_cached_page-read_plain_example = read_cached_page-read_plain three 2 three-Coherent

abbrev ops : List Op
ops = read 2 ∷ read 1 ∷ edit 2 (λ bytes. 9 ∷ bytes) ∷ read 2 ∷ read 3 ∷ read 4 ∷ read 1 ∷ []

-- Two misses, a change, a read of it, a page of the WAL, none behind the end, and a hit.
run_of_seven :
    run_cached three ops
    ≡ ok (replicate 16 2)
      ∷ ok (replicate 16 1)
      ∷ ok (9 ∷ replicate 16 2)
      ∷ ok (replicate 16 7)
      ∷ err (short_read 4 16 0)
      ∷ ok (replicate 16 1)
      ∷ []
unfolding run_cached new_cache
run_of_seven = refl

run_cached-run_view_example : run_cached three ops ≡ run_view (read_plain three) ops
run_cached-run_view_example =
    run_cached-run_view ops three (read_plain three) three-Coherent (λ k. refl)

abbrev two_entries : PageCache
two_entries = insert_cached (insert_cached (new_cache 5) 4 (9 ∷ [])) 6 (8 ∷ [])

abbrev Any : ℕ → List ℕ → Type 0
Any n bytes = n ≡ n

two_entries-Valid : Valid Any two_entries
two_entries-Valid =
    insert_cached-Valid Any (insert_cached (new_cache 5) 4 (9 ∷ [])) 6 (8 ∷ [])
      (insert_cached-Valid Any (new_cache 5) 4 (9 ∷ []) (new_cache-Valid Any 5) refl) refl

oldest_is_page_4 :
    (evict_one two_entries).1 ≡ some (record { page_num = 4; bytes = 9 ∷ []; tick = 1 })
unfolding evict_one insert_cached new_cache
oldest_is_page_4 = refl

evict_one-Eviction_example : Eviction two_entries (evict_one two_entries)
evict_one-Eviction_example = evict_one-Eviction two_entries two_entries-Valid.indexed

abbrev first_page : List ℕ
first_page = replicate 28 1 ++ (0 ∷ 0 ∷ 0 ∷ 2 ∷ [])

abbrev with_source : List ℕ → List Page → CachedPager
with_source source dirty = record {
  pager = record { source = source; journal_file = none; page_size = 32; dirty = dirty };
  wal_pages = [];
  page_cache = insert_cached (new_cache 5) 1 first_page;
}

abbrev before : CachedPager
before = with_source (first_page ++ replicate 32 7) ((2, replicate 32 9) ∷ [])

-- Page 2 is written, page 1 is in the cache.
abbrev after : CachedPager
after = with_source (first_page ++ replicate 32 9) []

flush_cached-Coherent_example : Coherent after
unfolding read_page
flush_cached-Coherent_example =
    flush_cached-Coherent before 5 after (omega arith) (omega arith) (omega arith, tt) (tt, tt)
      (omega arith)
      (insert_cached-Valid (Clean before.pager) (new_cache 5) 1 first_page
        (new_cache-Valid (Clean before.pager) 5) (refl, (refl, tt)))
      (unfold flush_cached flush_locked slice? in refl)
