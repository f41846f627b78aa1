-- ===== src/NatMgmt.antt =====
-- nat_mgmt.c: the cache of the node address table, which maps a node id to the block of the node.
pub mod Types
pub mod Cache
pub mod Lookup
pub mod AllocFree
pub mod Flush
