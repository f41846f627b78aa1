-- ===== src/ZoneMgmt.antt =====
-- zone_mgmt.c: the zones of the device, the lists of open and active ones, and the blocks in them.
pub mod Types
pub mod Slots
pub mod Device
pub mod Ops
pub mod Blocks
pub mod Alloc
pub mod Reach
pub mod Zit
pub mod Report
