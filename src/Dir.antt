-- ===== src/Dir.antt =====
-- dir.c: directories. A directory is a file with one entry in each of its pages.
pub mod Types
pub mod Entries
pub mod Readdir
pub mod Ops
