-- ===== src/Pager/Cache.antt =====
-- src/row/pager/mod.rs: the page cache. The map of entries is the list of them, by page number; the
-- heap is the list of its candidates, from which `pop` takes the one with the smallest tick. A shared
-- buffer is its bytes, so a clone is the buffer.
use db_storage.Prelude.{
  ℕ, zero, suc, ◌+◌, ◌*◌, ◌%◌, ◌^◌, List, [], ◌∷◌, Option, some, none, Bool, true, false, ◌||◌,
  ◌&&◌, if◌then◌else◌, ltb, ◌==◌, length, map, max, sat_mul, Result, ok, err,
}
use db_storage.Pager.{Pager, Page}
use db_storage.Pager.Allocate.{lookup, insert}
use db_storage.Vfs.PageSource.{PageError, read_page}
use mathlib.Core.Option
pub mod Entries
pub mod Evict
pub mod Valid
pub mod Transparent
pub mod Refines

pub record Entry : Type 0 where
  pub page_num : ℕ
  pub bytes : List ℕ
  pub tick : ℕ

-- A tick and a page number.
abbrev pub Candidate : Type 0
Candidate = ℕ × ℕ

pub record PageCache : Type 0 where
  pub capacity : ℕ
  pub entries : List Entry
  pub eviction_heap : List Candidate
  pub tick : ℕ

-- The map's `get`, `insert` and `remove`.
unfoldable pub find : List Entry → ℕ → Option Entry
find [] n = none
find (e ∷ entries) n = let rest = find entries n in if e.page_num == n then some e else rest

unfoldable pub put : List Entry → Entry → List Entry
put [] new = new ∷ []
put (e ∷ entries) new =
    let rest = put entries new in if e.page_num == new.page_num then new ∷ entries else e ∷ rest

unfoldable pub discard : List Entry → ℕ → List Entry
discard [] n = []
discard (e ∷ entries) n = let rest = discard entries n in if e.page_num == n then rest else e ∷ rest

-- The order of the pairs.
unfoldable pub before : Candidate → Candidate → Bool
before (t, p) (u, q) = ltb t u || ((t == u) && ltb p q)

-- The heap's `pop`: its least candidate, and the others.
unfoldable pub pop_least : List Candidate → Option (Candidate × List Candidate)
unfolding before
pop_least [] = none
pop_least (c ∷ heap) = elim (pop_least heap) [
  | none ↦ some (c, [])
  | some (least, others) ↦ if before least c then some (least, c ∷ others) else some (c, heap)
]

unfoldable pub new_cache : ℕ → PageCache
new_cache capacity = record { capacity = capacity; entries = []; eviction_heap = []; tick = 0 }

abbrev pub next_tick : PageCache → PageCache
next_tick c = record c { tick = (c.tick + 1) % 2 ^ 64 }

unfoldable pub compact_eviction_heap : PageCache → PageCache
compact_eviction_heap c = record c {
  eviction_heap = map (λ (e : Entry). (e.tick, e.page_num)) c.entries;
}

abbrev pub heap_limit : ℕ → ℕ
heap_limit capacity = max (sat_mul capacity 4) 16

-- A hit: the entry with the new tick, and a candidate for it.
unfoldable pub touch : PageCache → Entry → PageCache
unfolding put compact_eviction_heap
touch c e =
    let touched = record c {
      entries = put c.entries (record e { tick = c.tick });
      eviction_heap = (c.tick, e.page_num) ∷ c.eviction_heap;
    } in
    if ltb (heap_limit c.capacity) (length touched.eviction_heap)
    then compact_eviction_heap touched
    else touched

unfoldable pub get : PageCache → ℕ → PageCache × Option (List ℕ)
unfolding find touch
get c page_num =
    let ticked = next_tick c in
    elim (find c.entries page_num) [
      | none ↦ (ticked, none)
      | some e ↦ (touch ticked e, some e.bytes)
    ]

-- The loop of `evict_one`: each round takes a candidate off the heap.
unfoldable pub evict_from : ℕ → PageCache → PageCache × Option Entry
unfolding pop_least find discard
evict_from zero c = (c, none)
evict_from (suc fuel) c = elim (pop_least c.eviction_heap) [
  | none ↦ (c, none)
  | some ((tick, page_num), heap) ↦
      let popped = record c { eviction_heap = heap } in
      let next = evict_from fuel popped in
      elim (find c.entries page_num) [
        | none ↦ next
        | some e ↦
            if e.tick == tick
            then (record popped { entries = discard c.entries page_num }, some e)
            else next
      ]
]

unfoldable pub evict_one : PageCache → PageCache × Option Entry
unfolding evict_from
evict_one c = evict_from (length c.eviction_heap) c

unfoldable pub insert_cached : PageCache → ℕ → List ℕ → PageCache
unfolding put evict_one
insert_cached c page_num bytes =
    let ticked = next_tick c in
    let inserted = record ticked {
      entries = put c.entries (record { page_num = page_num; bytes = bytes; tick = ticked.tick });
      eviction_heap = (ticked.tick, page_num) ∷ c.eviction_heap;
    } in
    if ltb c.capacity (length inserted.entries) then (evict_one inserted).0 else inserted

unfoldable pub evict_one_if_full : PageCache → PageCache × Option (List ℕ)
unfolding evict_one
evict_one_if_full c =
    let evicted = evict_one c in
    if ltb (length c.entries) c.capacity
    then (c, none)
    else (evicted.0, Option.map (λ (e : Entry). e.bytes) evicted.1)

unfoldable pub invalidate : PageCache → ℕ → PageCache
unfolding discard
invalidate c page_num = record c { entries = discard c.entries page_num }

-- A pager with its overlay of WAL pages and its cache.
pub record CachedPager : Type 0 where
  pub pager : Pager
  pub wal_pages : List Page
  pub page_cache : PageCache

-- A miss: the page of the main file. A recycled buffer gets the same bytes as a new one.
unfoldable pub read_missed : CachedPager → ℕ → CachedPager × Result PageError (List ℕ)
unfolding evict_one_if_full insert_cached read_page
read_missed p page_num =
    let evicted = (evict_one_if_full p.page_cache).0 in
    elim (read_page p.pager.source p.pager.page_size page_num) [
      | err e ↦ (record p { page_cache = evicted }, err e)
      | ok bytes ↦ (record p { page_cache = insert_cached evicted page_num bytes }, ok bytes)
    ]

unfoldable pub read_through : CachedPager → ℕ → CachedPager × Result PageError (List ℕ)
unfolding get read_missed
read_through p page_num =
    let hit = get p.page_cache page_num in
    elim hit.1 [
      | some bytes ↦ (record p { page_cache = hit.0 }, ok bytes)
      | none ↦ read_missed (record p { page_cache = hit.0 }) page_num
    ]

-- `read_page` of the pager
unfoldable pub read_cached_page : CachedPager → ℕ → CachedPager × Result PageError (List ℕ)
unfolding lookup read_through
read_cached_page p page_num = elim (lookup p.pager.dirty page_num) [
  | some bytes ↦ (p, ok bytes)
  | none ↦ elim (lookup p.wal_pages page_num) [
    | some bytes ↦ (p, ok bytes)
    | none ↦ read_through p page_num
  ]
]

-- `read_page` without the cache: the free function `read_page` behind the dirty pages.
unfoldable pub read_uncached : List Page → List ℕ → ℕ → ℕ → Result PageError (List ℕ)
unfolding lookup read_page
read_uncached wal_pages source page_size page_num = elim (lookup wal_pages page_num) [
  | some bytes ↦ ok bytes
  | none ↦ read_page source page_size page_num
]

-- `get_page_mut`, with what the caller makes of the page.
unfoldable pub change_cached_page :
    CachedPager → ℕ → (List ℕ → List ℕ) → CachedPager × Result PageError Unit
unfolding invalidate lookup read_uncached insert
change_cached_page p page_num change =
    let clean = record p { page_cache = invalidate p.page_cache page_num } in
    let with_dirty = λ (bytes : List ℕ). record clean {
      pager = record p.pager { dirty = insert p.pager.dirty page_num (change bytes) };
    } in
    elim (lookup p.pager.dirty page_num) [
      | some bytes ↦ (with_dirty bytes, ok tt)
      | none ↦ elim (read_uncached p.wal_pages p.pager.source p.pager.page_size page_num) [
        | err e ↦ (clean, err e)
        | ok bytes ↦ (with_dirty bytes, ok tt)
      ]
    ]
