-- ===== src/Wal/Writer.antt =====
-- src/row/pager/wal.rs: the writer of a log, and how src/row/pager/mod.rs commits with it.
use db_storage.Prelude.{
  ℕ, List, [], ◌∷◌, ◌++◌, Option, some, none, Result, ok, err, ◌>>=◌, if◌then◌else◌, ◌==◌, length,
  sat_add,
}
use db_storage.Pager.{Page}
use db_storage.Vfs.Memory.{write_at}
use db_storage.Wal.{
  header_len, Sum, WalError, invalid_page_size, WalHeader, words, serialize, checksum, parse,
}
use db_storage.Wal.Log.{last_valid_frame_state}

-- `WalWriter`, over the bytes of its file.
pub record WalWriter : Type 0 where
  pub file : List ℕ
  pub header : WalHeader
  pub running : Sum
  pub offset : ℕ
  pub pending_offset : Option ℕ
  pub pending : List ℕ

-- `WalWriter::create`, over what the file held before.
unfoldable pub create : List ℕ → WalHeader → WalWriter
unfolding write_at serialize
create file h = record {
  file = write_at file (serialize h) 0;
  header = h;
  running = h.header_checksum;
  offset = header_len;
  pending_offset = none;
  pending = [];
}

-- `WalWriter::sync`
unfoldable pub sync : WalWriter → WalWriter
unfolding write_at
sync w = elim w.pending_offset [
  | none ↦ w
  | some offset ↦ record w {
    file = write_at w.file w.pending offset;
    pending_offset = none;
    pending = [];
  }
]

-- `PRAGMA synchronous`
pub data SynchronousMode : Type 0 where
  off normal full : SynchronousMode

-- `if self.synchronous == SynchronousMode::Full { writer.sync() }`, and the file then.
unfoldable pub synced_file : SynchronousMode → WalWriter → List ℕ
unfolding sync
synced_file full w = (sync w).file
synced_file normal w = w.file
synced_file off w = w.file

module _ (from_ne_bytes : List ℕ → ℕ) where
  -- The frame that `append_frame` builds, and the running checksum behind it.
  unfoldable pub frame_bytes : WalHeader → Sum → ℕ → List ℕ → ℕ → List ℕ × Sum
  frame_bytes h running page_num page_data commit_db_size =
      let head = words (page_num ∷ commit_db_size ∷ []) in
      let after_page =
        checksum from_ne_bytes h.native_checksum page_data
          (checksum from_ne_bytes h.native_checksum head running) in
      (
        words (page_num ∷ commit_db_size ∷ h.salt1 ∷ h.salt2 ∷ after_page.0 ∷ after_page.1 ∷ [])
            ++ page_data,
        after_page,
      )

  -- `WalWriter::append_frame`
  unfoldable pub append_frame : WalWriter → ℕ → List ℕ → ℕ → WalWriter
  unfolding frame_bytes
  append_frame w page_num page_data commit_db_size =
      let frame = frame_bytes w.header w.running page_num page_data commit_db_size in
      record w {
        pending_offset = elim w.pending_offset [ none ↦ some w.offset | some offset ↦ some offset ];
        pending = w.pending ++ frame.0;
        running = frame.1;
        offset = sat_add w.offset (length frame.0);
      }

  -- The writer behind the last valid frame.
  unfoldable pub resume : List ℕ → ℕ → WalHeader → Result WalError WalWriter
  unfolding last_valid_frame_state
  resume file page_size header =
      let state = last_valid_frame_state from_ne_bytes header file in
      if header.page_size == page_size
      then ok (record {
        file = file;
        header = header;
        running = state.1;
        offset = state.0;
        pending_offset = none;
        pending = [];
      })
      else err (invalid_page_size header.page_size)

  -- `WalWriter::open_existing` without a hint, where the file can be opened.
  unfoldable pub open_existing : List ℕ → ℕ → Result WalError WalWriter
  unfolding parse resume
  open_existing file page_size = parse from_ne_bytes file >>= resume file page_size

  -- The loop of `flush_wal_locked` over the sorted pages: the last one commits.
  unfoldable pub append_pages : WalWriter → List Page → ℕ → WalWriter
  unfolding append_frame
  append_pages w [] post_page_count = w
  append_pages w ((n, bytes) ∷ []) post_page_count = append_frame w n bytes post_page_count
  append_pages w ((n, bytes) ∷ page ∷ pages) post_page_count =
      append_pages (append_frame w n bytes 0) (page ∷ pages) post_page_count

  -- The writes of `flush_wal_locked` to the log: the file after them.
  unfoldable pub flush_wal : List ℕ → ℕ → SynchronousMode → List Page → ℕ → Result WalError (List ℕ)
  unfolding open_existing append_pages synced_file
  flush_wal file page_size synchronous pages post_page_count = do
    writer ← open_existing file page_size
    ok (synced_file synchronous (append_pages writer pages post_page_count))
