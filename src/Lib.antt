-- ===== src/Lib.antt =====
-- Verification of db-storage, the storage engine of a SQLite-compatible database: records, the
-- database header, the freelist, the pager with its rollback journal and write-ahead log, and the
-- cells of b-trees.
--
-- The parts of the program and the files here that model them:
-- src/row/record/varint.rs, decode.rs and encode.rs turn rows into bytes and back. Record/Varint
-- has `decode_varint` and `encode_varint`; Record/Decode and Record/Decode/Serial have the
-- decoders, one definition per function (`decode_record_only` is `decode_record_only_into`);
-- Record/Encode has `encode_record`. Record/Value has the values; an `f64` is its 64 bits, a
-- text the list of its characters. Text has the UTF-8 and UTF-16 of the language.
-- src/row/header.rs: Header has `parse` and `new_empty_page1` of `DatabaseHeader`.
-- src/row/pager/freelist.rs: Freelist has `parse` and `write` of `TrunkPage`.
-- src/row/vfs/memory.rs and page_source.rs: Vfs/Memory and Vfs/PageSource. A file is its bytes;
-- a write returns the file after it.
-- src/row/pager/journal.rs: Journal has the header, the checksum, `create`, `write_record` and
-- `recover`. Journal/Header, Checksum, Records, Rollback and Replay prove what they do.
-- src/row/pager/mod.rs: Pager has `flush_locked`, split at the end of the journal
-- (`write_journal`) so that a crash can stand between the writes, and `recover_hot_journal`.
-- Pager/Allocate has `allocate_page` and `deallocate_page`, Pager/Mode the journal mode's bytes.
-- Pager/Cache has `PageCache` and the reads and changes of pages through it.
-- src/row/pager/wal.rs: Wal has the header and the checksum, Wal/Log the walks over the frames
-- (`committed_pages`, `last_valid_frame_state`), Wal/Writer the writer and the part of
-- `flush_wal_locked` that writes to the log. The host's byte order is a parameter.
-- src/row/btree/mod.rs and table/insert.rs: Btree has the cells of a table leaf and their overflow
-- chains (`decode_cell_head`, `reassemble_payload`, `encode_leaf_cell`, `write_overflow_chain`);
-- a page source is a function from page numbers. Btree/Layout has `write_leaf_page`, Btree/Leaf the
-- walks over its cells (`collect_leaf_cells`, `scan_leaf_cells`, `find_leaf_cell`).
-- src/row/vfs/lock.rs: Vfs/Lock has the lock ladder, with `fcntl` as a parameter. Vfs/Lock/Processes
-- has several processes on one file, whose calls come in any order, and an interface with what
-- POSIX says of record locks; a process can be between any two calls.
--
-- In WAL mode, `flush_wal` opens the log behind its last valid frame, appends the dirty pages, the
-- last one with the page count, and syncs; readers take the pages from `committed_pages`.
--
-- How they interact: `flush_locked` reads the old pages through the page source, writes them with
-- `JournalWriter` into the journal file, writes the dirty pages into the main file and deletes the
-- journal. When the next connection finds a journal, `recover_hot_journal` writes its pages back
-- with `recover` and cuts the file to the page count of before. A crash is a prefix of the page
-- writes, or any bytes at all in the pages that the journal has.
--
-- Numbers: `usize` and `u64` have 64 bits and saturate where the source says so; a u32 is a number
-- below 2 ^ 32 where a theorem needs it. Prelude has byte slices, big-endian words and `Result`.
-- Loops: a header walk runs on fuel, `header_len - pos`; a round moves `pos` by a byte or more.
-- The checksum loop runs on the length of the page; each round takes 200 off its index. The growth
-- of the header length has fuel for the 9 bytes of its varint. The lock ladder has five levels, and
-- each of its loops four rounds. `evict_one` takes a candidate off the heap in each round.
-- The walks over a log run on its length; a frame has 24 bytes or more. The walk of an overflow
-- chain runs on the bytes that are left; a page gives one or more.
--
-- Not modelled: `sync` and the order in which a disk keeps writes, so durability is that the
-- journal is whole before the first page is written; errors of the operating system; the
-- shared memory of the write-ahead log and its checkpoint, the interior and index pages of a
-- b-tree, its cursors, splits and merges, the schema, and the column (Parquet) side. The value
-- type and UTF-8, UTF-16 and `f64` belong to the language or to a crate beside this one; reading a NaN as `Null` is in the source and in the model.
pub mod Prelude
pub mod Record
pub mod Text
pub mod Header
pub mod Freelist
pub mod Vfs
pub mod Journal
pub mod Pager
pub mod Wal
pub mod Btree
pub mod Tests
