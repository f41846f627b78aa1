-- ===== src/Inode/Attributes.antt =====
-- inode.c: the kernel's inode and its image in the inode's node page.
use xcpfs.Base.{
  ℕ, ◌/◌, ◌%◌, ◌^◌, Bool, true, false, Option, none, some, ◌⊎◌, inl, inr, ◌==◌, if◌then◌else◌,
}
use xcpfs.Errno.{Errno, enomem}
use xcpfs.Node.{RawInode, NodeEnv, NodeState, keep_page, get_node_page}

-- The tables of operations that `xcpfs_set_inode` gives an inode.
pub data InodeOps : Type 0 where
  no_ops file_ops dir_ops : InodeOps

-- `struct inode` of the kernel, as far as the code uses it.
pub record VfsInode : Type 0 where
  pub i_ino : ℕ
  pub i_mode : ℕ
  pub i_uid : ℕ
  pub i_gid : ℕ
  pub i_nlink : ℕ
  pub i_size : ℕ
  pub i_blocks : ℕ
  pub i_atime : ℕ
  pub i_ctime : ℕ
  pub i_mtime : ℕ
  pub i_atime_nsec : ℕ
  pub i_ctime_nsec : ℕ
  pub i_mtime_nsec : ℕ
  pub i_generation : ℕ
  pub ops : InodeOps

-- `i_blocks` stays what it was.
unfoldable pub xcpfs_fill_inode : VfsInode → RawInode → VfsInode
xcpfs_fill_inode inode ri = record inode {
  i_mode = ri.i_mode;
  i_uid = ri.i_uid;
  i_gid = ri.i_gid;
  i_nlink = ri.i_links;
  i_size = ri.i_size;
  i_atime = ri.i_atime;
  i_ctime = ri.i_ctime;
  i_mtime = ri.i_mtime;
  i_atime_nsec = ri.i_atime_nsec;
  i_ctime_nsec = ri.i_ctime_nsec;
  i_mtime_nsec = ri.i_mtime_nsec;
  i_generation = ri.i_generation;
}

-- `S_ISREG` and `S_ISDIR` of the kernel: the four bits of the file type.
abbrev pub s_isreg : ℕ → Bool
s_isreg mode = mode / 2 ^ 12 % 2 ^ 4 == 8

abbrev pub s_isdir : ℕ → Bool
s_isdir mode = mode / 2 ^ 12 % 2 ^ 4 == 4

-- The table of the page cache is the same for all.
unfoldable pub xcpfs_set_inode : VfsInode → VfsInode
xcpfs_set_inode inode =
    if inode.i_ino == 1
    then inode
    else if inode.i_ino == 2
    then inode
    else if s_isreg inode.i_mode
    then record inode { ops = file_ops }
    else if s_isdir inode.i_mode
    then record inode { ops = dir_ops }
    else inode

-- `xcpfs_iget`; `cached` is what `iget_locked` of the kernel gives: nothing, an inode that is there
-- already (`true`), or a new one. `none` is a NULL pointer followed.
unfoldable pub xcpfs_iget :
    NodeEnv → Option (Bool × VfsInode) → ℕ → NodeState → Option ((Errno ⊎ VfsInode) × NodeState)
xcpfs_iget env none ino st = some (inl enomem, st)
xcpfs_iget env (some (true, inode)) ino st = some (inr inode, st)
xcpfs_iget env (some (false, inode)) ino st =
    if ino == 2 then some (inr (xcpfs_set_inode inode), st) else elim (get_node_page env ino st) [
      | none ↦ none
      | some (page, got) ↦ some (inr (xcpfs_set_inode (xcpfs_fill_inode inode page.i)), got)
    ]

-- What is written over the image, in the widths of `struct xcpfs_inode`; `i_ctime` is not written.
unfoldable pub stored_inode : RawInode → VfsInode → RawInode
stored_inode xi inode = record xi {
  i_mode = inode.i_mode % 2 ^ 16;
  i_uid = inode.i_uid % 2 ^ 32;
  i_gid = inode.i_gid % 2 ^ 32;
  i_links = inode.i_nlink % 2 ^ 32;
  i_size = inode.i_size % 2 ^ 64;
  i_blocks = inode.i_blocks % 2 ^ 64;
  i_atime = inode.i_atime % 2 ^ 64;
  i_mtime = inode.i_mtime % 2 ^ 64;
  i_atime_nsec = inode.i_atime_nsec % 2 ^ 32;
  i_mtime_nsec = inode.i_mtime_nsec % 2 ^ 32;
  i_generation = inode.i_generation % 2 ^ 32;
}

-- `xcpfs_update_inode_page`; `none` is a NULL pointer followed.
unfoldable pub xcpfs_update_inode_page : NodeEnv → VfsInode → NodeState → Option NodeState
xcpfs_update_inode_page env inode st = elim (get_node_page env inode.i_ino st) [
  | none ↦ none
  | some (page, got) ↦
      some (keep_page got inode.i_ino (record page { i = stored_inode page.i inode }))
]
