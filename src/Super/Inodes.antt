-- ===== src/Super/Inodes.antt =====
-- super.c: the inodes that the kernel has written and drops. The kernel's own part, the pages of the
-- inode that it frees, is left out.
use xcpfs.Base.{ℕ, Bool, false, Option, none, some, leb, ◌==◌, if◌then◌else◌}
use xcpfs.Node.{NodeEnv, NodeState, get_node_page}
use xcpfs.Xio.{sent, zeroed, fault, waiting, write_end_io}
use xcpfs.Xio.Data.{XioSubmitted, node_io, data_io, do_write_single_page}
use xcpfs.Inode.Attributes.{VfsInode, xcpfs_update_inode_page}
use xcpfs.Truncate.Setattr.{xcpfs_truncate}

-- The write of a node's page up to `wait_on_page_writeback`: `written` is the block that the device
-- writes to, in the zone that begins at a block. `none` is a NULL pointer followed, or no answer within
-- the rounds.
abbrev pub end_node_write : NodeEnv → (ℕ → ℕ) → ℕ → NodeState → XioSubmitted → Option NodeState
end_node_write env written nid st (node_io (sent new io)) =
    elim (write_end_io env.io nid (written new) io) [
      | none ↦ none
      | some io' ↦ some (record st { io = io' })
    ]
end_node_write env written nid st (node_io (zeroed io)) = none
end_node_write env written nid st (node_io fault) = none
end_node_write env written nid st (node_io waiting) = none
end_node_write env written nid st (data_io r) = none

-- `xcpfs_write_inode`; `all` is `wbc->sync_mode == WB_SYNC_ALL`.
unfoldable pub xcpfs_write_inode :
    NodeEnv → Bool → (ℕ → ℕ) → VfsInode → NodeState → Option NodeState
xcpfs_write_inode env all written inode st =
    if inode.i_ino == 2 then some st else elim (xcpfs_update_inode_page env inode st) [
      | none ↦ none
      | some updated ↦ elim (get_node_page env inode.i_ino updated) [
        | none ↦ none
        | some (page, got) ↦
            if all
            then end_node_write env written inode.i_ino got
                (do_write_single_page env env.node_ino inode.i_ino got)
            else some got
      ]
    ]

-- the state after a truncation, of which the inode is given up
abbrev pub dropped : Option (VfsInode × NodeState) → Option NodeState
dropped none = none
dropped (some (inode, st)) = some st

-- `xcpfs_evict_inode`; `dirty` is whether `sync_inode_metadata` of the kernel finds the inode changed,
-- and has it written. The inode's page is dirty after a truncation, and stays in the page cache.
unfoldable pub xcpfs_evict_inode :
    NodeEnv → Bool → (ℕ → ℕ) → VfsInode → NodeState → Option NodeState
xcpfs_evict_inode env dirty written inode st =
    if leb inode.i_ino 2
    then some st
    else elim (if dirty then xcpfs_write_inode env false written inode st else some st) [
      | none ↦ none
      | some synced ↦
          if inode.i_nlink == 0
          then dropped (xcpfs_truncate env false (record inode { i_size = 0 }) synced)
          else some synced
    ]
