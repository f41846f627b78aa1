-- ===== src/Format.antt =====
-- The constants of xcpfs.h and the sizes of its packed on-disk structures.
use xcpfs.Base.{ℕ, ◌+◌, ◌-◌, ◌*◌, ◌/◌}

abbrev pub page_size : ℕ
page_size = 4096

-- `PAGE_SECTORS_SHIFT` of the kernel: a page is 8 sectors.
abbrev pub page_sectors : ℕ
page_sectors = 8

abbrev pub xcpfs_magic : ℕ
xcpfs_magic = 0x520264

abbrev pub def_addrs_per_inode : ℕ
def_addrs_per_inode = 900

abbrev pub def_addrs_per_block : ℕ
def_addrs_per_block = 1018

abbrev pub def_nids_per_block : ℕ
def_nids_per_block = 1018

-- `sizeof(struct xcpfs_nat_entry)`: a version byte, the inode number and the block address.
abbrev pub nat_entry_size : ℕ
nat_entry_size = 1 + 4 + 4

abbrev pub nat_entry_per_block : ℕ
nat_entry_per_block = page_size / nat_entry_size

-- `sizeof(struct xcpfs_nat_entry_sb)`: the node id in front of an entry.
abbrev pub nat_entry_sb_size : ℕ
nat_entry_sb_size = 4 + nat_entry_size

-- `sizeof(struct xcpfs_super_block)`, the flexible array `meta_nat` not counted.
abbrev pub super_block_size : ℕ
super_block_size = 4 * 7 + 2

-- The entries of `meta_nat` that a page holds. (`META_NAT_NR` is one more.)
abbrev pub sb_nat_count : ℕ
sb_nat_count = (page_size - super_block_size) / nat_entry_sb_size

abbrev pub zone_valid_map_size : ℕ
zone_valid_map_size = 64

-- `sizeof(struct xcpfs_zit_entry)`: the two bit fields, the map and the time.
abbrev pub zit_entry_size : ℕ
zit_entry_size = 2 + zone_valid_map_size + 8

abbrev pub zit_entry_per_block : ℕ
zit_entry_per_block = page_size / zit_entry_size

abbrev pub reg_nat_start : ℕ
reg_nat_start = 6000

abbrev pub zit_start : ℕ
zit_start = 600000

-- `enum page_type` of xcpfs.h, and the number of each.
pub data PageType : Type 0 where
  meta_node meta_data reg_node reg_data superblock : PageType

abbrev pub type_code : PageType → ℕ
type_code meta_node = 1
type_code meta_data = 2
type_code reg_node = 3
type_code reg_data = 4
type_code superblock = 5
