-- ===== src/Target.antt =====
-- The targets of rtslib/target.py: Target, TPG, LUN, NetworkPortal, NodeACL and MappedLUN.
pub mod Objects
pub mod Children
pub mod Delete
pub mod Alua
pub mod Getters
pub mod Sessions
pub mod Dump
pub mod Deleted
pub mod AluaRoundTrip
pub mod Portals
pub mod Create
pub mod Names
pub mod Factories
pub mod Enable
mod Tests
