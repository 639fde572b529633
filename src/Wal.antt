-- ===== src/Wal.antt =====
-- src/row/pager/wal.rs: the write-ahead log. A file is its bytes, so no read or write fails, and
-- `WalError::Vfs` does not occur. `from_ne_bytes` is the host's byte order: a parameter.
use db_storage.Prelude.{
  ℕ, zero, suc, ◌+◌, ◌-◌, ◌*◌, ◌/◌, ◌%◌, ◌^◌, ◌≤◌, ◌<◌, ◌&&◌, ◌||◌, not, Bool, true, false, List,
  [], ◌∷◌, ◌++◌, Option, some, none, and_then, Result, ok, err, ◌>>=◌, ok_or, if◌then◌else◌, ltb,
  leb, ◌==◌, length, take, drop, slice?, sat_add, sat_mul, be_bytes, from_be, max,
}
use db_storage.Header.{is_power_of_two}
use db_storage.Pager.{Page}
use db_storage.Pager.Allocate.{lookup, insert}
use db_storage.Vfs.Memory.{write_at}
use mathlib.Core.Option
pub mod Log
pub mod Writer
pub mod Committed
pub mod Words
pub mod Header
pub mod Frames
pub mod Append
pub mod Prefix
pub mod Flush
pub mod Visible

abbrev pub header_len : ℕ
header_len = 32

abbrev pub frame_header_len : ℕ
frame_header_len = 24

abbrev pub format_version : ℕ
format_version = 3007000

-- A running checksum.
abbrev pub Sum : Type 0
Sum = ℕ × ℕ

pub data WalError : Type 0 where
  header_too_short : ℕ → WalError
  invalid_magic : ℕ → WalError
  invalid_page_size : ℕ → WalError
  header_checksum_mismatch : Sum → Sum → WalError

pub record WalHeader : Type 0 where
  pub native_checksum : Bool
  pub page_size : ℕ
  pub salt1 : ℕ
  pub salt2 : ℕ
  pub version : ℕ
  pub checkpoint_seq : ℕ
  pub header_checksum : Sum

-- `read_u32_opt`
unfoldable pub read_u32_opt : List ℕ → ℕ → Option ℕ
unfolding slice? from_be
read_u32_opt buf offset = Option.map from_be (slice? buf offset (sat_add offset 4))

unfoldable pub read_u32 : List ℕ → ℕ → Result WalError ℕ
unfolding read_u32_opt
read_u32 buf offset = ok_or (read_u32_opt buf offset) (header_too_short (length buf))

unfoldable pub sum_eq : Sum → Sum → Bool
sum_eq (a, b) (c, d) = (a == c) && (b == d)

-- `to_be_bytes` of the words, one after another.
unfoldable pub words : List ℕ → List ℕ
unfolding be_bytes
words [] = []
words (v ∷ vs) = be_bytes 4 v ++ words vs

unfoldable pub magic_of : Bool → ℕ
magic_of true = 0x377f_0682
magic_of false = 0x377f_0683

-- The first 24 bytes of `serialize`, and all of them.
unfoldable pub checksummed : WalHeader → List ℕ
unfolding words magic_of
checksummed h = words (
    magic_of h.native_checksum
    ∷ h.version
    ∷ h.page_size
    ∷ h.checkpoint_seq
    ∷ h.salt1
    ∷ h.salt2
    ∷ [])

unfoldable pub serialize : WalHeader → List ℕ
unfolding checksummed
serialize h = checksummed h ++ words (h.header_checksum.0 ∷ h.header_checksum.1 ∷ [])

unfoldable pub is_native : ℕ → Option Bool
is_native magic =
    if magic == 0x377f_0682 then some true else if magic == 0x377f_0683 then some false else none

unfoldable pub frame_size : WalHeader → ℕ
frame_size h = sat_add frame_header_len h.page_size

unfoldable pub is_page_size : ℕ → Bool
unfolding is_power_of_two
is_page_size n = not (ltb n 512 || (not (is_power_of_two n) || ltb 65536 n))

-- The header with the checksum that it has to have.
unfoldable pub verified : Sum → WalHeader → Result WalError WalHeader
unfolding sum_eq
verified computed h =
    if sum_eq computed h.header_checksum
    then ok h
    else err (header_checksum_mismatch h.header_checksum computed)

module _ (from_ne_bytes : List ℕ → ℕ) where
  unfoldable pub read_word : Bool → List ℕ → ℕ
  unfolding from_be
  read_word true bytes = from_ne_bytes bytes
  read_word false bytes = from_be bytes

  -- The loop of `checksum`, over so many chunks of eight bytes.
  unfoldable pub checksum_chunks : ℕ → Bool → List ℕ → Sum → Sum
  unfolding read_word
  checksum_chunks zero native chunk (s1, s2) = (s1, s2)
  checksum_chunks (suc n) native chunk (s1, s2) =
      let w0 = read_word native (take 4 chunk) in
      let w1 = read_word native (take 4 (drop 4 chunk)) in
      let t1 = ((s1 + w0) % 2 ^ 32 + s2) % 2 ^ 32 in
      let t2 = ((s2 + w1) % 2 ^ 32 + t1) % 2 ^ 32 in
      checksum_chunks n native (drop 8 chunk) (t1, t2)

  unfoldable pub checksum : Bool → List ℕ → Sum → Sum
  unfolding checksum_chunks
  checksum native bytes init = checksum_chunks (length bytes / 8) native bytes init

  -- `parse` from the format version on.
  unfoldable pub parse_fields : List ℕ → Bool → ℕ → Result WalError WalHeader
  unfolding read_u32
  parse_fields bytes native page_size = do
    version ← read_u32 bytes 4
    checkpoint_seq ← read_u32 bytes 12
    salt1 ← read_u32 bytes 16
    salt2 ← read_u32 bytes 20
    stored1 ← read_u32 bytes 24
    stored2 ← read_u32 bytes 28
    summed ← ok_or (slice? bytes 0 24) (header_too_short (length bytes))
    verified (checksum native summed (0, 0)) (record {
      native_checksum = native;
      page_size = page_size;
      salt1 = salt1;
      salt2 = salt2;
      version = version;
      checkpoint_seq = checkpoint_seq;
      header_checksum = (stored1, stored2);
    })

  unfoldable pub parse_sized : List ℕ → Bool → ℕ → Result WalError WalHeader
  unfolding is_page_size parse_fields
  parse_sized bytes native page_size =
      if is_page_size page_size
      then parse_fields bytes native page_size
      else err (invalid_page_size page_size)

  unfoldable pub parse : List ℕ → Result WalError WalHeader
  unfolding read_u32 is_native parse_sized
  parse bytes = if ltb (length bytes) header_len then err (header_too_short (length bytes)) else do
    magic ← read_u32 bytes 0
    native ← ok_or (is_native magic) (invalid_magic magic)
    page_size ← read_u32 bytes 8
    parse_sized bytes native page_size

  -- `WalHeader::new`
  unfoldable pub new_header : Bool → ℕ → ℕ → ℕ → ℕ → WalHeader
  unfolding serialize checksum
  new_header native page_size salt1 salt2 checkpoint_seq =
      let header : WalHeader = record {
        native_checksum = native;
        page_size = page_size;
        salt1 = salt1;
        salt2 = salt2;
        version = format_version;
        checkpoint_seq = checkpoint_seq;
        header_checksum = (0, 0);
      } in
      record header { header_checksum = checksum native (take 24 (serialize header)) (0, 0) }
