-- ===== src/Lib.antt =====
-- XCPFS is a log-structured file system for zoned block devices, a kernel module. This library
-- models its state and its operations and proves what they keep and what they come to.
--
-- The program's parts and how they interact:
--   * zone_mgmt.c keeps the zones of the device, with the lists of open and of active zones, and for
--     each zone the set of its valid blocks with their number. `alloc_zone` chooses the zone for a
--     write and releases the block that is replaced, `validate_blkaddr` books a finished write.
--     Module ZoneMgmt: Types (state), Slots (the two lists), Device (the commands to the device),
--     Ops (open, close, finish, reset), Blocks (`validate_blkaddr`, `invalidate_blkaddr`), Alloc
--     (`get_zone`, `alloc_zone`), Reach (sequences of calls, with those left out), Report (the zone report at a mount,
--     `xcpfs_report_zones_cb` of xcpfs.c), Zit (the table of zones on disk: `flush_zit`, and
--     `xcpfs_get_zit_info` of xcpfs.c).
--   * nat_mgmt.c maps a node id to the block of the node, with a cache over a table on disk. Module
--     NatMgmt: Cache (the operations on the cache; Cache/Mount is a round of the loop of
--     `xcpfs_read_super` of xcpfs.c), Lookup (`lookup_nat`, `invalidate_nat`), AllocFree (`alloc_free_nat`), Flush
--     (`flush_nat`).
--   * meta.c has the way from an inode to a data block and the classes of pages. Module Meta: Path
--     (`get_path`) and Pages (`get_page_type`). Module Node: the pages of nodes, got from the page
--     cache or from the device (`get_node_page`, with `__prepare_page` of data.c), Node/Dnode
--     (`get_dnode_page`, for a reader and for a writer, who has missing nodes made by nat_mgmt.c), and
--     Node/File, which reads a file's blocks off its nodes.
--   * inode.c: module Inode (`xcpfs_new_inode`, which takes an id from nat_mgmt.c) and Inode/Attributes
--     (`xcpfs_iget`, `xcpfs_update_inode_page`: the kernel's inode and its image in a node page).
--   * file.c cuts a file: it releases addresses in zone_mgmt.c and ids in nat_mgmt.c, down the tree of
--     nodes. Module Truncate, with `xcpfs_setattr` of reg.c in Truncate/Setattr.
--   * dir.c keeps a directory as a file with one entry in each page. Module Dir: Entries (search,
--     add, delete), Readdir, Ops (`xcpfs_mknod`, `xcpfs_mkdir`, `xcpfs_unlink`, `xcpfs_rmdir`, which
--     take new inodes from inode.c).
--   * xio.c writes a node page: it looks its address up, has a zone chosen, and at the end of the
--     write enters the new address and marks the block valid. Module Xio. A page of data goes by the
--     node that holds its address. Module Xio/Data (with `do_write_single_page` of data.c, and
--     `do_prepare_page`, which gets such a page from the device).
--   * checkpoint.c fills the super block, super.c appends it to one of the zones 0 and 1, and
--     `xcpfs_read_super` of xcpfs.c reads it at a mount. Modules Checkpoint and Super;
--     Checkpoint/Nodes has the end of `do_checkpoint`, in which the submissions and the ends of the
--     writes of nodes are a sequence of steps; a restart is the next pass.
--     super.c also has an inode written (`xcpfs_write_inode`: inode.c stores it, xio.c writes its page)
--     and one without links emptied (`xcpfs_evict_inode`, by file.c). Modules Super/Inodes,
--     Super/Written and Super/Evicted.
--   * mkfs/mkfs.c writes the super block, the meta file's inode and the root directory of a new file
--     system. Modules Mkfs, Mkfs/Made (a run) and Mkfs/Mounted (the first mount).
--   * xcpfs.h: Format (constants and page classes) and Errno (return codes).
-- Base holds what all modules share, Tests the runs at concrete inputs.
--
-- Correspondence: a record stands for a struct and a function for each function of the code, by its
-- name (a leading __ left out); a loop is a function on the number of rounds left or on the list.
-- Arrays over zones, bitmaps and tables on disk are functions of the index, and a pointer into an
-- array is an index. Counters and addresses are natural numbers, below 2^28 for block addresses;
-- `vblocks` is an integer. An operation under a lock is one step.
--
-- A node page is an inode or an array of pointers. The state has the pages that are up to date, by
-- node id; what the device holds in each block is a function. Reading a node whose id is not in the
-- map of addresses follows a NULL pointer, so the theorems take the ids on the way to be in the map
-- (`Known`), for a writer to be in use (`UsedPath`). A file is read off its nodes as a map from its
-- blocks to addresses (`file_addr`), where its nodes form a tree (`IsTree`).
--
-- Bounds: the page of the super block holds 312 entries; what `cp_append_nat` writes behind them is in
-- other memory. The name of an entry has 256 bytes with its NUL; a longer one runs into the number
-- behind it (`stored_name` in Dir/Types), and the theorems on new names take up to 255 bytes.
-- `get_zone` and `alloc_free_nat` loop until they find something. They run on a number of
-- rounds, and theorems below say which number is enough and when none is. The chain of requests in
-- Device goes on by a zone for each request, so one round for each sector is enough.
--
-- Not modelled: the device, the page cache and the kernel's inodes, which are parameters (a device
-- answers a command with a return code, a page can be had or not); times and reference counts (but for the
-- times that are stored with an inode); the contents of data pages (the rest of data.c), the rest of
-- `do_checkpoint`, and the rest of mounting and unmounting (xcpfs.c, super.c), which allocates and
-- frees memory.
pub mod Base
pub mod Format
pub mod Errno
pub mod Meta
pub mod ZoneMgmt
pub mod NatMgmt
pub mod Node
pub mod Inode
pub mod Truncate
pub mod Mkfs
pub mod Dir
pub mod Checkpoint
pub mod Xio
pub mod Super
pub mod Tests
