-- ===== src/Pager/Allocate.antt =====
-- src/row/pager/mod.rs: `allocate_page` and `deallocate_page`, without a write-ahead log: a page is
-- the dirty one, or the one in the file. The page cache only answers for pages of the file.
use db_storage.Prelude.{
  ℕ, zero, suc, ◌+◌, ◌-◌, ◌≤◌, List, [], ◌∷◌, ◌++◌, length, Option, some, none, replicate,
}
use db_storage.Prelude.{
  Result, ok, err, ◌>>=◌, map_err, if◌then◌else◌, ltb, ◌==◌, sat_add32, true, false,
}
use db_storage.Vfs.PageSource.{read_page}
use db_storage.Freelist.{
  read_u32, write_u32, TrunkPage, parse, write, max_leaves_per_trunk, FreelistError,
}
use db_storage.Pager.{Pager, Page, PagerError, page, freelist, page_count_offset}
pub mod Patch
pub mod Fields
pub mod Reuse

abbrev pub freelist_trunk_page_offset : ℕ
freelist_trunk_page_offset = 32

abbrev pub freelist_page_count_offset : ℕ
freelist_page_count_offset = 36

-- `dirty.get`
unfoldable pub lookup : List Page → ℕ → Option (List ℕ)
lookup [] n = none
lookup ((m, bytes) ∷ pages) n = let rest = lookup pages n in if m == n then some bytes else rest

-- `dirty.insert`
unfoldable pub insert : List Page → ℕ → List ℕ → List Page
insert [] n bytes = (n, bytes) ∷ []
insert ((m, old) ∷ pages) n bytes =
    let rest = insert pages n bytes in if m == n then (n, bytes) ∷ pages else (m, old) ∷ rest

unfoldable pub read_dirty_page : Pager → ℕ → Result PagerError (List ℕ)
unfolding lookup read_page
read_dirty_page p n = elim (lookup p.dirty n) [
  | some bytes ↦ ok bytes
  | none ↦ map_err page (read_page p.source p.page_size n)
]

unfoldable pub with_page : Pager → ℕ → List ℕ → Pager
unfolding insert
with_page p n bytes = record {
  source = p.source;
  journal_file = p.journal_file;
  page_size = p.page_size;
  dirty = insert p.dirty n bytes;
}

-- `get_page_mut`, and what `change` does to the page it gives.
unfoldable pub change_page :
    Pager → ℕ → (List ℕ → Result FreelistError (List ℕ)) → Result PagerError Pager
unfolding read_dirty_page with_page
change_page p n change = do
  bytes ← read_dirty_page p n
  changed ← map_err freelist (change bytes)
  ok (with_page p n changed)

-- The two writes to page 1 at the end of both functions.
unfoldable pub set_freelist : Pager → ℕ → ℕ → Result PagerError Pager
unfolding change_page write_u32
set_freelist p trunk_page page_count = change_page p 1 λ page1.
    write_u32 page1 freelist_trunk_page_offset trunk_page >>= λ changed.
    write_u32 changed freelist_page_count_offset page_count

-- `Vec::pop`: the last leaf, and the others.
unfoldable pub pop : List ℕ → Option (ℕ × List ℕ)
pop [] = none
pop (leaf ∷ leaves) = elim (pop leaves) [
  | none ↦ some (leaf, [])
  | some (last, others) ↦ some (last, leaf ∷ others)
]

-- The allocated page, and the trunk page that comes first after it.
unfoldable pub take_leaf :
    Pager → ℕ → TrunkPage → Option (ℕ × List ℕ) → Result PagerError (Pager × ℕ × ℕ)
unfolding change_page write
take_leaf p trunk_page trunk none = ok (p, trunk_page, trunk.next_trunk)
take_leaf p trunk_page trunk (some (leaf, others)) = do
  p ← change_page p trunk_page (write (record { next_trunk = trunk.next_trunk; leaves = others }))
  ok (p, leaf, trunk_page)

-- A page behind the end of the database.
unfoldable pub extend : Pager → ℕ → Result PagerError (ℕ × Pager)
unfolding change_page write_u32 with_page
extend p page_count = do
  let new_page_num = sat_add32 page_count 1
  let grown = with_page p new_page_num (replicate p.page_size 0)
  p ← change_page grown 1 (λ page1. write_u32 page1 page_count_offset new_page_num)
  ok (new_page_num, p)

unfoldable pub allocate_page : Pager → Result PagerError (ℕ × Pager)
unfolding read_dirty_page read_u32 extend take_leaf pop set_freelist parse
allocate_page p = do
  header ← read_dirty_page p 1
  page_count ← map_err freelist (read_u32 header page_count_offset)
  trunk_page ← map_err freelist (read_u32 header freelist_trunk_page_offset)
  free_count ← map_err freelist (read_u32 header freelist_page_count_offset)
  elim (trunk_page == 0) [
    | true ↦ extend p page_count
    | false ↦ do
      trunk_buf ← read_dirty_page p trunk_page
      trunk ← map_err freelist (parse trunk_buf)
      taken ← take_leaf p trunk_page trunk (pop trunk.leaves)
      p ← set_freelist taken.0 taken.2 (free_count - 1)
      ok (taken.1, p)
  ]

-- `page_num` as the first trunk page.
unfoldable pub push_trunk : Pager → ℕ → ℕ → Result PagerError (Pager × ℕ)
unfolding change_page write
push_trunk p page_num next_trunk = do
  p ← change_page p page_num (write (record { next_trunk = next_trunk; leaves = [] }))
  ok (p, page_num)

-- `page_num` as the last leaf of the trunk page, or as a trunk page before it.
unfoldable pub push_page : Pager → ℕ → ℕ → TrunkPage → Result PagerError (Pager × ℕ)
unfolding push_trunk change_page write max_leaves_per_trunk
push_page p page_num trunk_page trunk =
    let leaf = do
      p ← change_page p trunk_page (
          write
            (record { next_trunk = trunk.next_trunk; leaves = trunk.leaves ++ (page_num ∷ []) }))
      ok (p, trunk_page)
    in if ltb (length trunk.leaves) (max_leaves_per_trunk p.page_size)
      then leaf
      else push_trunk p page_num trunk_page

unfoldable pub deallocate_page : Pager → ℕ → Result PagerError Pager
unfolding read_dirty_page read_u32 push_trunk push_page set_freelist parse
deallocate_page p page_num = do
  header ← read_dirty_page p 1
  trunk_page ← map_err freelist (read_u32 header freelist_trunk_page_offset)
  free_count ← map_err freelist (read_u32 header freelist_page_count_offset)
  pushed ← elim (trunk_page == 0) [
    | true ↦ push_trunk p page_num 0
    | false ↦ do
      trunk_buf ← read_dirty_page p trunk_page
      trunk ← map_err freelist (parse trunk_buf)
      push_page p page_num trunk_page trunk
  ]
  set_freelist pushed.0 pushed.1 (sat_add32 free_count 1)
