-- ===== src/Tcm.antt =====
-- The backstores and storage objects of rtslib/tcm.py.
pub mod Cache
pub mod Backstore
pub mod Lookup
pub mod Delete
pub mod Create
pub mod Info
pub mod Sizes
pub mod InfoSearch
pub mod Dump
mod Tests
