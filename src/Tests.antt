-- ===== src/Tests.antt =====
-- Runs of the components on concrete inputs.
mod Btree
mod Record
mod Varint
mod Header
mod Freelist
mod Pager
mod Lock
pub mod TwoProcesses
mod Cache
mod Wal
mod Processes
