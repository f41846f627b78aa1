-- ===== src/Meta.antt =====
-- meta.c: the class of a page, and the way from an inode to one of its data blocks.
pub mod Path
pub mod Pages
