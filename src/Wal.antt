-- ===== src/Wal.antt =====
-- raft/persistence.go: the write-ahead log, from the integers in a record to recovery.
pub mod Ints
pub mod Crc
pub mod File
pub mod Record
pub mod Read
pub mod Ops
pub mod Recovery
pub mod Durable
