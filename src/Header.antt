-- ===== src/Header.antt =====
-- src/row/header.rs: the 100 bytes at the start of a database file.
pub mod Parse
pub mod Page1
use db_storage.Prelude.{
  ℕ, zero, suc, ◌+◌, ◌-◌, ◌*◌, ◌/◌, ◌%◌, ◌^◌, List, [], ◌∷◌, length, replicate,
}
use db_storage.Prelude.{Option, none, some, get_elem?, slice?, overwrite, ltb, leb, ◌==◌, u64_max}
use db_storage.Prelude.{Bool, true, false, ◌&&◌, ◌||◌, not, if◌then◌else◌, sat_add}
use db_storage.Prelude.{Result, ok, err, ◌>>=◌, ◌>>◌, ok_or, be_bytes, from_be}
use db_storage.Record.Value.{TextEncoding, utf8, utf16_le, utf16_be}

abbrev pub header_len : ℕ
header_len = 100

abbrev pub default_page_size : ℕ
default_page_size = 4096

-- "SQLite format 3\0"
abbrev pub magic : List ℕ
magic =
    0x53 ∷ 0x51 ∷ 0x4c ∷ 0x69 ∷ 0x74 ∷ 0x65 ∷ 0x20 ∷ 0x66 ∷ 0x6f ∷ 0x72 ∷ 0x6d ∷ 0x61 ∷ 0x74 ∷ 0x20
    ∷ 0x33 ∷ 0x00 ∷ []

pub data VersionField : Type 0 where
  write read : VersionField

pub data HeaderError : Type 0 where
  too_short : ℕ → HeaderError
  invalid_magic : HeaderError
  invalid_page_size : ℕ → HeaderError
  invalid_file_format_version : VersionField → ℕ → HeaderError
  invalid_reserved_space : ℕ → ℕ → HeaderError
  invalid_text_encoding : ℕ → HeaderError

pub data JournalMode : Type 0 where
  legacy wal : JournalMode

pub record DatabaseHeader : Type 0 where
  pub page_size : ℕ
  pub write_version : ℕ
  pub read_version : ℕ
  pub reserved_space : ℕ
  pub page_count : ℕ
  pub freelist_trunk_page : ℕ
  pub freelist_page_count : ℕ
  pub schema_cookie : ℕ
  pub schema_format : ℕ
  pub largest_root_btree_page : ℕ
  pub text_encoding : TextEncoding
  pub user_version : ℕ
  pub application_id : ℕ

-- Equality of byte slices.
unfoldable pub bytes_eq : List ℕ → List ℕ → Bool
bytes_eq [] [] = true
bytes_eq [] (b ∷ bs) = false
bytes_eq (a ∷ rest) [] = false
bytes_eq (a ∷ rest) (b ∷ bs) = (a == b) && bytes_eq rest bs

unfoldable pub slice_is : Option (List ℕ) → List ℕ → Bool
unfolding bytes_eq
slice_is none bytes = false
slice_is (some slice) bytes = bytes_eq slice bytes

unfoldable pub read_u8 : List ℕ → ℕ → Result HeaderError ℕ
read_u8 buf offset = ok_or (get_elem? buf offset) (too_short (length buf))

-- The offsets are literals, so `checked_add` does not fail.
unfoldable pub read_u32 : List ℕ → ℕ → Result HeaderError ℕ
unfolding from_be
read_u32 buf offset = do
  bytes ← ok_or (slice? buf offset (offset + 4)) (too_short (length buf))
  ok (from_be bytes)

-- `u32::is_power_of_two`
pub is_power_from : ℕ → ℕ → Bool
is_power_from zero n = false
is_power_from (suc k) n = (n == 2 ^ k) || is_power_from k n

unfoldable pub is_power_of_two : ℕ → Bool
unfolding is_power_from
is_power_of_two n = is_power_from 32 n

unfoldable pub resolve_page_size : ℕ → ℕ
resolve_page_size raw = if raw == 1 then 65536 else raw

unfoldable pub check : Bool → HeaderError → Result HeaderError (Unit {0})
check true e = ok tt
check false e = err e

unfoldable pub is_version : ℕ → Bool
is_version v = v == 1 || v == 2

unfoldable pub text_encoding_of : ℕ → Result HeaderError TextEncoding
text_encoding_of raw =
    if raw == 1
    then ok utf8
    else if raw == 2
    then ok utf16_le
    else if raw == 3
    then ok utf16_be
    else err (invalid_text_encoding raw)

-- The fields that `parse` only reads, once the others are checked.
unfoldable pub fields : List ℕ → ℕ → ℕ → ℕ → ℕ → Result HeaderError DatabaseHeader
unfolding read_u32 text_encoding_of
fields buf page_size write_version read_version reserved_space = do
  page_count ← read_u32 buf 28
  freelist_trunk_page ← read_u32 buf 32
  freelist_page_count ← read_u32 buf 36
  schema_cookie ← read_u32 buf 40
  schema_format ← read_u32 buf 44
  largest_root_btree_page ← read_u32 buf 52
  text_encoding_raw ← read_u32 buf 56
  text_encoding ← text_encoding_of text_encoding_raw
  user_version ← read_u32 buf 60
  application_id ← read_u32 buf 68
  ok (record {
    page_size = page_size;
    write_version = write_version;
    read_version = read_version;
    reserved_space = reserved_space;
    page_count = page_count;
    freelist_trunk_page = freelist_trunk_page;
    freelist_page_count = freelist_page_count;
    schema_cookie = schema_cookie;
    schema_format = schema_format;
    largest_root_btree_page = largest_root_btree_page;
    text_encoding = text_encoding;
    user_version = user_version;
    application_id = application_id;
  })

unfoldable pub parse : List ℕ → Result HeaderError DatabaseHeader
unfolding check slice_is resolve_page_size is_power_of_two is_version read_u8 fields
parse buf = do
  check (not (ltb (length buf) header_len)) (too_short (length buf))
  check (slice_is (slice? buf 0 16) magic) invalid_magic
  b16 ← read_u8 buf 16
  b17 ← read_u8 buf 17
  let raw_page_size = from_be (b16 ∷ b17 ∷ [])
  let page_size = resolve_page_size raw_page_size
  check (not (ltb page_size 512 || not (is_power_of_two page_size)))
      (invalid_page_size raw_page_size)
  write_version ← read_u8 buf 18
  check (is_version write_version) (invalid_file_format_version write write_version)
  read_version ← read_u8 buf 19
  check (is_version read_version) (invalid_file_format_version read read_version)
  reserved_space ← read_u8 buf 20
  check (not (leb page_size reserved_space)) (invalid_reserved_space reserved_space page_size)
  fields buf page_size write_version read_version reserved_space

unfoldable pub journal_mode : DatabaseHeader → JournalMode
journal_mode h = if h.write_version == 2 && h.read_version == 2 then wal else legacy

-- `parse` rejects a header whose reserved space is not below the page size.
unfoldable pub usable_page_size : DatabaseHeader → ℕ
usable_page_size h = h.page_size - h.reserved_space

-- Nothing is written out of bounds.
unfoldable pub put : List ℕ → ℕ → List ℕ → List ℕ
unfolding overwrite
put buf offset bytes =
    if leb (sat_add offset (length bytes)) (length buf) then overwrite buf offset bytes else buf

-- The on-disk form of a 16-bit field in which 65536 does not fit.
unfoldable pub field16 : ℕ → ℕ → ℕ
field16 page_size wide = if page_size == 65536 then wide else page_size % 2 ^ 16

unfoldable pub new_empty_page1 : ℕ → List ℕ
unfolding put field16 be_bytes
new_empty_page1 page_size =
    let blank = replicate page_size 0 in
    let p1 = put blank 0 magic in
    let p2 = put p1 16 (be_bytes 2 (field16 page_size 1)) in
    let p3 = put p2 18 (1 ∷ []) in
    let p4 = put p3 19 (1 ∷ []) in
    let p5 = put p4 21 (64 ∷ []) in
    let p6 = put p5 22 (32 ∷ []) in
    let p7 = put p6 23 (32 ∷ []) in
    let p8 = put p7 28 (be_bytes 4 1) in
    let p9 = put p8 44 (be_bytes 4 4) in
    let p10 = put p9 56 (be_bytes 4 1) in
    let p11 = put p10 header_len (0x0d ∷ []) in
    put p11 (header_len + 5) (be_bytes 2 (field16 page_size 0))
