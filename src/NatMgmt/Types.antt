-- ===== src/NatMgmt/Types.antt =====
-- The state of nat_mgmt.c, from xcpfs.h. The ids and addresses are `int`s that are not negative. A
-- `list_head` is the list from its first entry on, `list_add` puts an entry in front. (`cp_nat` is
-- never used.)
use xcpfs.Base.{ℕ, Bool, List}

-- `struct nat_entry`
pub record NatEntry : Type 0 where
  pub pinned : Bool
  pub dirty : Bool
  pub nid : ℕ
  pub ino : ℕ
  pub block_addr : ℕ

-- `struct xcpfs_nat_info`
pub record NatInfo : Type 0 where
  pub cached_nat_count : ℕ
  pub nat_list : List NatEntry
  pub free_nat : List NatEntry

-- `struct xcpfs_nat_entry` on disk; its version byte is never used.
pub record RawNat : Type 0 where
  pub ino : ℕ
  pub block_addr : ℕ

-- The table in the meta inode's file, by block and by entry, as the page cache shows it: what
-- `read_raw_nat_block` gives a pointer to.
abbrev pub NatFile : Type 0
NatFile = ℕ → ℕ → RawNat
