-- ===== src/Tests.antt =====
-- Runs of the model at concrete inputs, component by component.
mod Device
mod Paths
mod Zones
mod Writes
mod Table
mod Nats
mod Dirs
mod Io
mod Files
mod Mkfs
mod Inodes
mod Checkpoints
