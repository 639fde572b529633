-- ===== src/Btree.antt =====
-- src/row/btree/mod.rs and table/insert.rs: the cells of a table b-tree's leaf, and the chains of
-- overflow pages. A page source is a function from page numbers; an `i64` is its 64 bits.
use db_storage.Prelude.{
  ℕ, zero, suc, ◌+◌, ◌-◌, ◌*◌, ◌/◌, ◌%◌, ◌≤◌, ◌<◌, ◌||◌, not, Bool, true, false, List, [], ◌∷◌,
  ◌++◌, Option, some, none, Result, ok, err, ◌>>=◌, ok_or, map_err, if◌then◌else◌, ltb, leb, ◌==◌,
  length, take, drop, slice?, slice_from?, write_slice?, sat_add, sat_mul, be_bytes, from_be, min,
  max,
}
use db_storage.Pager.{Pager, PagerError}
use db_storage.Pager.Allocate.{lookup, read_dirty_page, with_page, allocate_page}
use db_storage.Record.Error.{RecordError}
use db_storage.Record.Varint.{decode_varint, encode_varint}
use db_storage.Vfs.PageSource.{PageError, read_page}
pub mod Overflow
pub mod Cells
pub mod Leaf
pub mod Scan
pub mod LastWord
pub mod Find
pub mod Layout
pub mod Touched
pub mod Placed
pub mod Pages
pub mod Rewrite
pub mod LeafPages
pub mod RoundTrip

abbrev pub max_payload_len : ℕ
max_payload_len = 2147483647

abbrev pub max_pages_visited : ℕ
max_pages_visited = 1000000

-- The literal texts in `CursorNotPositioned`, `InvalidRootPage`, `MasterEntryNotFound` and
-- `Internal` are left out.
pub data BtreeError : Type 0 where
  invalid_key_record : RecordError → BtreeError
  page_source : ℕ → PageError → BtreeError
  page_too_short : ℕ → ℕ → BtreeError
  cursor_not_positioned : BtreeError
  unexpected_page_type : ℕ → ℕ → BtreeError
  invalid_cell_pointer : ℕ → ℕ → BtreeError
  invalid_cell_varint : ℕ → RecordError → BtreeError
  payload_too_short : ℕ → BtreeError
  payload_too_large : ℕ → ℕ → BtreeError
  overflow_chain_too_long : ℕ → ℕ → BtreeError
  overflow_chain_cycle : ℕ → ℕ → BtreeError
  overflow_chain_truncated : ℕ → BtreeError
  traversal_too_long : ℕ → BtreeError
  pager : PagerError → BtreeError
  duplicate_rowid : ℕ → BtreeError
  missing_child_route : ℕ → ℕ → BtreeError
  rowid_not_found : ℕ → BtreeError
  duplicate_key : BtreeError
  key_not_found : BtreeError
  invalid_root_page : ℕ → BtreeError
  master_entry_not_found : BtreeError
  internal : BtreeError

abbrev pub Source : Type 0
Source = ℕ → Result PageError (List ℕ)

unfoldable pub max_local : ℕ → Bool → ℕ
max_local usable_size true = sat_mul (usable_size - 12) 64 / 255 - 23
max_local usable_size false = usable_size - 35

unfoldable pub min_local : ℕ → ℕ
min_local usable_size = sat_mul (usable_size - 12) 32 / 255 - 23

unfoldable pub local_payload_size : ℕ → ℕ → Bool → ℕ
unfolding max_local min_local
local_payload_size usable_size payload_len is_index =
    let least = min_local usable_size in
    let k = sat_add least ((payload_len - least) % max (usable_size - 4) 1) in
    if leb payload_len (max_local usable_size is_index)
    then payload_len
    else if leb k (max_local usable_size is_index)
    then k
    else least

unfoldable pub read_u32 : List ℕ → ℕ → ℕ → Result BtreeError ℕ
unfolding slice? from_be
read_u32 page offset page_num = do
  bytes ← ok_or (slice? page offset (sat_add offset 4)) (page_too_short page_num (length page))
  ok (from_be bytes)

unfoldable pub decode_cell_head : List ℕ → ℕ → ℕ → Result BtreeError (ℕ × ℕ × ℕ)
decode_cell_head page cell_start page_num = do
  cell ← ok_or (slice_from? page cell_start) (invalid_cell_pointer page_num cell_start)
  (payload_len, n1) ← map_err (invalid_cell_varint page_num) (decode_varint cell)
  rest ← ok_or (slice_from? cell n1) (payload_too_short page_num)
  (rowid, n2) ← map_err (invalid_cell_varint page_num) (decode_varint rest)
  ok (rowid, payload_len, sat_add (sat_add cell_start n1) n2)

-- A page that the walk has seen.
unfoldable pub seen : ℕ → List ℕ → Bool
seen n [] = false
seen n (m ∷ visited) = (m == n) || seen n visited

-- The tests at the head of an iteration, with the number of hops that it makes.
unfoldable pub chain_error : ℕ → ℕ → List ℕ → ℕ → Option BtreeError
unfolding seen
chain_error page_num overflow_page visited hops =
    if overflow_page == 0
    then some (overflow_chain_truncated page_num)
    else if seen overflow_page visited
    then some (overflow_chain_cycle page_num overflow_page)
    else if ltb max_pages_visited hops
    then some (overflow_chain_too_long page_num max_pages_visited)
    else none

-- The page of an iteration: the number of the next one, and the chunk.
unfoldable pub read_link : Source → ℕ → ℕ → Result BtreeError (ℕ × List ℕ)
unfolding read_u32 slice?
read_link source overflow_page count = do
  page ← map_err (page_source overflow_page) (source overflow_page)
  next ← read_u32 page 0 overflow_page
  chunk ← ok_or (slice? page 4 (sat_add 4 count)) (page_too_short overflow_page (length page))
  ok (next, chunk)

-- The loop of `reassemble_payload`, on fuel; an iteration takes a byte or more.
unfoldable pub read_chain :
    ℕ → Source → ℕ → ℕ → ℕ → ℕ → List ℕ → ℕ → List ℕ → Result BtreeError (List ℕ)
read_chain zero source page_num available remaining overflow_page visited hops result = ok result
read_chain (suc fuel) source page_num available remaining overflow_page visited hops result =
    let count = min remaining available in
    let next : Result BtreeError (List ℕ) =
      elim (chain_error page_num overflow_page visited (suc hops)) [
        | some e ↦ err e
        | none ↦ read_link source overflow_page count >>= λ link.
            read_chain fuel source page_num available (remaining - count) link.0
              (overflow_page ∷ visited) (suc hops) (result ++ link.1)
      ] in
    if remaining == 0 then ok result else next

-- The end of `reassemble_payload`, behind the local bytes.
unfoldable pub read_overflow : Source → ℕ → ℕ → List ℕ → List ℕ → ℕ → ℕ → Result BtreeError (List ℕ)
read_overflow source usable_size page_num cell_tail local_bytes local_size payload_len = do
  bytes ← ok_or (slice? cell_tail local_size (sat_add local_size 4)) (payload_too_short page_num)
  read_chain (payload_len - local_size) source page_num (max (usable_size - 4) 1)
      (payload_len - local_size) (from_be bytes) [] 0 local_bytes

unfoldable pub reassemble_payload :
    Source → ℕ → ℕ → List ℕ → ℕ → ℕ → Bool → Result BtreeError (List ℕ)
reassemble_payload source usable_size page_num page tail_start payload_len is_index =
    let local_size = local_payload_size usable_size payload_len is_index in
    let rest = ok_or (slice_from? page tail_start) (payload_too_short page_num) >>= λ cell_tail.
    ok_or (slice? cell_tail 0 local_size) (payload_too_short page_num) >>= λ local_bytes.
    if local_size == payload_len
    then ok local_bytes
    else read_overflow source usable_size page_num cell_tail local_bytes local_size payload_len in
    if ltb max_payload_len payload_len then err (payload_too_large page_num payload_len) else rest

-- `put`
unfoldable pub put : List ℕ → ℕ → List ℕ → ℕ → Result BtreeError (List ℕ)
unfolding write_slice?
put buf offset bytes page_num =
    ok_or (write_slice? buf offset bytes) (page_too_short page_num (length buf))

-- The loop of `write_overflow_chain` that cuts the data, on fuel.
unfoldable pub chunks_of : ℕ → ℕ → List ℕ → List (List ℕ)
chunks_of zero available rest = []
chunks_of (suc fuel) available [] = []
chunks_of (suc fuel) available (b ∷ rest) =
    let count = min (length (b ∷ rest)) available in
    take count (b ∷ rest) ∷ chunks_of fuel available (drop count (b ∷ rest))

-- A page for each chunk.
unfoldable pub allocate_pages : List (List ℕ) → Pager → Result BtreeError (List ℕ × Pager)
unfolding allocate_page
allocate_pages [] p = ok ([], p)
allocate_pages (chunk ∷ chunks) p = do
  (page_num, p) ← map_err pager (allocate_page p)
  (page_nums, p) ← allocate_pages chunks p
  ok (page_num ∷ page_nums, p)

abbrev pub first_of : List ℕ → ℕ
first_of [] = 0
first_of (n ∷ page_nums) = n

-- The loop that writes the pages of the chain.
unfoldable pub write_links : Pager → List ℕ → List (List ℕ) → Result BtreeError Pager
unfolding read_dirty_page with_page put
write_links p page_nums [] = ok p
write_links p [] (chunk ∷ chunks) = err internal
write_links p (n ∷ page_nums) (chunk ∷ chunks) = do
  buf ← map_err pager (read_dirty_page p n)
  buf ← put buf 0 (be_bytes 4 (first_of page_nums)) n
  buf ← put buf 4 chunk n
  write_links (with_page p n buf) page_nums chunks

unfoldable pub write_overflow_chain : Pager → ℕ → List ℕ → Result BtreeError (ℕ × Pager)
unfolding chunks_of allocate_pages write_links
write_overflow_chain p usable_size rest = do
  let chunks = chunks_of (length rest) (max (usable_size - 4) 1) rest
  (page_nums, p) ← allocate_pages chunks p
  p ← write_links p page_nums chunks
  ok (first_of page_nums, p)

-- The bytes behind the local ones, in a chain if there are any.
unfoldable pub encode_overflow : Pager → ℕ → List ℕ → Result BtreeError (List ℕ × Pager)
unfolding write_overflow_chain
encode_overflow p usable_size [] = ok ([], p)
encode_overflow p usable_size (b ∷ rest) = do
  (overflow_first, p) ← write_overflow_chain p usable_size (b ∷ rest)
  ok (be_bytes 4 overflow_first, p)

unfoldable pub encode_leaf_cell : Pager → ℕ → ℕ → List ℕ → Result BtreeError (List ℕ × Pager)
encode_leaf_cell p usable_size rowid payload =
    let size = length payload in
    let local_size = min (local_payload_size usable_size size false) size in
    encode_overflow p usable_size (drop local_size payload) >>= λ tail.
    ok (encode_varint size ++ (encode_varint rowid ++ (take local_size payload ++ tail.0)), tail.1)
