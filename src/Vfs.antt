-- ===== src/Vfs.antt =====
-- src/row/vfs: files, the pages of a file, and the lock ladder.
pub mod Memory
pub mod PageSource
pub mod Pages
pub mod Written
pub mod Lock
