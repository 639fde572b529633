-- ===== src/Tests/Wal.antt =====
-- src/row/pager/wal.rs on a log with a header and no frames yet, with the byte order of a
-- little-endian host.
use db_storage.Prelude.{
  ℕ, ◌+◌, ◌*◌, ◌<◌, ◌≡◌, refl, List, [], ◌∷◌, ◌++◌, true, length, replicate, All, arith, ok, some,
  u64_max, ◌^◌,
}
use db_storage.Header.{is_power_of_two}
use db_storage.Pager.{Page}
use db_storage.Pager.Allocate.{lookup}
use db_storage.Pager.Flush.{Absent}
use db_storage.Wal.{WalHeader, serialize, new_header, parse}
use db_storage.Wal.Append.{log_of}
use db_storage.Wal.Committed.{publish_all, no_frames, valid_frames, committed_pages-publish_all}
use db_storage.Wal.Flush.{Flushed, flush_wal-Flushed}
use db_storage.Wal.Header.{parse-new_header}
use db_storage.Wal.Log.{committed_pages, last_valid_frame_state}
use db_storage.Wal.Writer.{frame_bytes}
use db_storage.Wal.Visible.{committed_pages-flush_wal}

from_le_bytes : List ℕ → ℕ
from_le_bytes [] = 0
from_le_bytes (b ∷ bytes) = b + 256 * from_le_bytes bytes

abbrev header : WalHeader
header = new_header from_le_bytes true 512 11 22 1

abbrev file : List ℕ
file = serialize header ++ []

parse-new_header_example : parse from_le_bytes file ≡ ok header
parse-new_header_example =
    parse-new_header from_le_bytes true 512 11 22 1 []
      (omega arith, omega arith, (unfold is_power_of_two in refl)) (omega arith) (omega arith)
      (omega arith)

abbrev page : Page
page = (1, replicate 512 7)

-- The walk over a log without frames ends behind its header.
no_frame_yet :
    last_valid_frame_state from_le_bytes header file ≡ (length file, header.header_checksum)
unfolding last_valid_frame_state new_header serialize
no_frame_yet = refl

header_IsSum : (header.header_checksum.0 < 2 ^ 32) × (header.header_checksum.1 < 2 ^ 32)
unfolding new_header serialize from_le_bytes
header_IsSum = (omega arith, omega arith)

abbrev log : List ℕ
log = log_of from_le_bytes header header.header_checksum (page ∷ []) 1

small_enough : length file + length log + 24 + header.page_size < u64_max
unfolding log_of frame_bytes new_header serialize
small_enough = omega arith

flush_wal-Flushed_example :
    Flushed from_le_bytes file 512 (page ∷ []) 1 header header.header_checksum
flush_wal-Flushed_example =
    flush_wal-Flushed from_le_bytes file 512 (page ∷ []) 1 header header.header_checksum
      parse-new_header_example (unfold new_header in refl) no_frame_yet
      (unfold new_header in omega arith) (unfold new_header in omega arith) header_IsSum
      ((omega arith, (unfold new_header in refl)), tt) (omega arith) small_enough

abbrev flushed : Flushed from_le_bytes file 512 (page ∷ []) 1 header header.header_checksum
flushed =
    flush_wal-Flushed from_le_bytes file 512 (page ∷ []) 1 header header.header_checksum
      parse-new_header_example (unfold new_header in refl) no_frame_yet
      (unfold new_header in omega arith) (unfold new_header in omega arith) header_IsSum
      ((omega arith, (unfold new_header in refl)), tt) (omega arith) small_enough

committed_pages-publish_all_example :
    ((k : ℕ)
      → lookup (committed_pages from_le_bytes header flushed.after).0 k
        ≡ lookup
            (publish_all no_frames (valid_frames from_le_bytes header flushed.after)).published
            k)
    × ((committed_pages from_le_bytes header flushed.after).1
        ≡ (publish_all no_frames (valid_frames from_le_bytes header flushed.after)).db_size)
committed_pages-publish_all_example = committed_pages-publish_all from_le_bytes header flushed.after

committed_pages-flush_wal_example :
    All
      (λ (d : Page). lookup (committed_pages from_le_bytes header flushed.after).0 d.0 ≡ some d.1)
      (page ∷ [])
    × ((k : ℕ)
        → Absent k (page ∷ [])
        → lookup (committed_pages from_le_bytes header flushed.after).0 k
          ≡ lookup (publish_all no_frames (valid_frames from_le_bytes header file)).candidate k)
    × ((committed_pages from_le_bytes header flushed.after).1 ≡ 1)
committed_pages-flush_wal_example =
    committed_pages-flush_wal from_le_bytes file 512 page [] 1 header header.header_checksum
      flushed.after parse-new_header_example (unfold new_header in refl) no_frame_yet
      (unfold new_header in omega arith) (unfold new_header in omega arith) header_IsSum
      ((omega arith, (unfold new_header in refl)), tt) (tt, tt) (omega arith) refl small_enough
      flushed.with_full
