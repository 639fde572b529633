-- ===== src/Journal.antt =====
-- src/row/pager/journal.rs: the rollback journal, a header and the pre-images of the pages that a
-- transaction changes. A file is its bytes (Vfs/Memory.antt), so no read or write fails, and
-- `JournalError::Vfs` does not occur.
use db_storage.Prelude.{
  ℕ, zero, suc, ◌+◌, ◌-◌, ◌*◌, ◌/◌, ◌%◌, ◌^◌, ◌≤◌, ◌<◌, ◌&&◌, List, [], ◌∷◌, ◌++◌,
}
use db_storage.Prelude.{
  Option, some, none, and_then, Result, ok, err, ◌>>=◌, ok_or, if◌then◌else◌, ltb, leb, ◌==◌,
}
use db_storage.Prelude.{
  length, get_or, take, drop, replicate, overwrite, slice?, slice_from?, sat_add, sat_mul,
}
use db_storage.Prelude.{be_bytes, from_be}
use db_storage.Vfs.Memory.{write_at}
pub mod Header
pub mod Checksum
pub mod Records
pub mod Rollback
pub mod Replay

abbrev pub journal_header_len : ℕ
journal_header_len = 28

-- `JOURNAL_MAGIC` of src/row/pager/mod.rs
abbrev pub journal_magic : List ℕ
journal_magic = 0xd9 ∷ 0xd5 ∷ 0x05 ∷ 0xf9 ∷ 0x20 ∷ 0xa1 ∷ 0x63 ∷ 0xd7 ∷ []

pub data JournalError : Type 0 where
  header_too_short : ℕ → JournalError
  record_truncated : ℕ → ℕ → ℕ → JournalError

unfoldable pub record_len : ℕ → ℕ
record_len page_size = sat_add (sat_add 4 page_size) 4

pub record JournalHeader : Type 0 where
  pub n_rec : ℕ
  pub nonce : ℕ
  pub initial_page_count : ℕ
  pub sector_size : ℕ
  pub page_size : ℕ

-- `be32` on the four bytes from `start` on
abbrev pub be32 : List ℕ → ℕ → ℕ
unfolding from_be
be32 bytes start = from_be (take 4 (drop start bytes))

unfoldable pub parse : List ℕ → Result JournalError JournalHeader
unfolding slice? be32
parse buf = do
  bytes ← ok_or (slice? buf 0 journal_header_len) (header_too_short (length buf))
  ok (record {
    n_rec = be32 bytes 8;
    nonce = be32 bytes 12;
    initial_page_count = be32 bytes 16;
    sector_size = be32 bytes 20;
    page_size = be32 bytes 24;
  })

-- The ranges that the source fills follow one another and cover the array.
unfoldable pub serialize : JournalHeader → List ℕ → List ℕ
unfolding be_bytes
serialize h magic =
    magic
    ++ (be_bytes 4 h.n_rec
        ++ (be_bytes 4 h.nonce
            ++ (be_bytes 4 h.initial_page_count
                ++ (be_bytes 4 h.sector_size ++ be_bytes 4 h.page_size))))

-- The `while` loop, on fuel.
unfoldable pub checksum_loop : ℕ → List ℕ → ℕ → ℕ → ℕ
checksum_loop zero page idx cksum = cksum
checksum_loop (suc fuel) page idx cksum =
    let rest = checksum_loop fuel page (idx - 200) ((cksum + get_or page idx 0) % 2 ^ 32) in
    if ltb 0 idx && ltb idx (length page) then rest else cksum

unfoldable pub page_checksum : ℕ → List ℕ → ℕ
unfolding checksum_loop
page_checksum nonce page = checksum_loop (length page) page (length page - 200) nonce

-- `JournalWriter::create` on the file that `create_or_open_write` gives.
unfoldable pub create : List ℕ → JournalHeader → Result JournalError (List ℕ)
unfolding serialize overwrite write_at
create file h =
    let region = replicate h.sector_size 0 in
    if leb journal_header_len (length region)
    then ok (write_at file (overwrite region 0 (serialize h journal_magic)) 0)
    else err (header_too_short h.sector_size)

unfoldable pub record_bytes : ℕ → ℕ → List ℕ → List ℕ
unfolding be_bytes page_checksum
record_bytes nonce page_num original =
    be_bytes 4 page_num ++ (original ++ be_bytes 4 (page_checksum nonce original))

-- `JournalWriter::write_record`
unfoldable pub write_record : List ℕ → JournalHeader → ℕ → ℕ → List ℕ → List ℕ
unfolding write_at record_bytes record_len
write_record file h index page_num original =
    let offset = sat_add h.sector_size (sat_mul index (record_len h.page_size)) in
    write_at file (record_bytes h.nonce page_num original) offset

-- `<[u8; 4]>::try_from`
unfoldable pub word? : Option (List ℕ) → Option ℕ
unfolding from_be
word? none = none
word? (some bytes) = if length bytes == 4 then some (from_be bytes) else none

-- The record of an iteration of `recover`, `none` where it breaks.
unfoldable pub valid_record : JournalHeader → List ℕ → ℕ → Option (ℕ × List ℕ)
unfolding record_len slice? slice_from? word? page_checksum
valid_record h journal index =
    let offset = sat_add h.sector_size (sat_mul index (record_len h.page_size)) in
    and_then (slice? journal offset (sat_add offset (record_len h.page_size))) λ bytes.
      and_then (word? (slice? bytes 0 4)) λ page_num.
        and_then (slice? bytes 4 (sat_add 4 h.page_size)) λ page_data.
          and_then (word? (slice_from? bytes (sat_add 4 h.page_size))) λ checksum.
            if page_checksum h.nonce page_data == checksum then some (page_num, page_data) else none

-- `n` iterations of `recover` from `index` on.
unfoldable pub recover_from : ℕ → JournalHeader → List ℕ → ℕ → List ℕ → List ℕ
unfolding valid_record write_at
recover_from zero h journal index db_file = db_file
recover_from (suc n) h journal index db_file = elim (valid_record h journal index) [
  | none ↦ db_file
  | some (page_num, page_data) ↦
      recover_from n h journal (index + 1)
        (write_at db_file page_data (sat_mul (page_num - 1) h.page_size))
]

pub record RecoveredJournal : Type 0 where
  pub initial_page_count : ℕ
  pub page_size : ℕ

-- What was recovered, and the database file after it.
unfoldable pub recover : List ℕ → List ℕ → Result JournalError (RecoveredJournal × List ℕ)
unfolding parse recover_from
recover journal db_file = do
  h ← parse journal
  let recovered : RecoveredJournal = record {
    initial_page_count = h.initial_page_count;
    page_size = h.page_size;
  }
  ok (recovered, recover_from h.n_rec h journal 0 db_file)
