-- ===== src/Dir/Ops.antt =====
-- The inode operations of dir.c. The state is what they change: the cache of node ids, the pages of
-- the directory and of the inode that its entry names, and the link counts of both. The kernel holds
-- the directory's lock, so each operation is one step.
pub mod Create
pub mod Remove
use xcpfs.Base.{
  ℕ, ◌+◌, ◌-◌, ◌⊎◌, inl, inr, Bool, true, false, List, [], Option, none, some, if◌then◌else◌,
}
use xcpfs.Errno.{Ret, einval, enoent, enotempty}
use xcpfs.NatMgmt.Types.{NatInfo, NatFile}
use xcpfs.Inode.{xcpfs_new_inode}
use xcpfs.Dir.Types.{Name, Dentry}
use xcpfs.Dir.Entries.{
  xcpfs_find_entry, xcpfs_add_link, xcpfs_delete_entry, xcpfs_empty_dir, xcpfs_init_dir,
}

pub record DirState : Type 0 where
  pub nm : NatInfo
  pub pages : List Dentry
  pub nlink : ℕ
  pub inode_pages : List Dentry
  pub inode_nlink : ℕ

-- What the operations rely on: the table of node addresses with the rounds to search it, whether the
-- kernel gives a new inode, and which pages can be had: those read, those written, and those of the
-- inode itself.
pub record Env : Type 0 where
  pub rounds : ℕ
  pub file : NatFile
  pub had : Bool
  pub fault : ℕ → Ret
  pub write_fault : ℕ → Ret
  pub inode_fault : ℕ → Ret

-- a new inode, with one link and no pages
abbrev pub with_inode : DirState → NatInfo → DirState
with_inode st nm = record st { nm = nm; inode_pages = []; inode_nlink = 1 }

-- `xcpfs_mknod` from `xcpfs_add_link` on
unfoldable pub link_node : Env → Name → ℕ → DirState → Ret × DirState
link_node env name ino st =
    let added = xcpfs_add_link env.fault env.write_fault name ino st.pages in
    elim added.0 [
      | none ↦ (none, record st { pages = added.1 })
      | some err ↦ (some err, record st { pages = added.1; inode_nlink = st.inode_nlink - 1 })
    ]

-- `xcpfs_mknod`; `valid_dev` is the kernel's test of the device number.
unfoldable pub xcpfs_mknod : Env → Bool → Name → DirState → Option (Ret × DirState)
xcpfs_mknod env valid_dev name st =
    if valid_dev
    then elim (xcpfs_new_inode env.rounds env.file st.nm env.had) [
      | none ↦ none
      | some (inl err, nm) ↦ some (some err, record st { nm = nm })
      | some (inr ino, nm) ↦ some (link_node env name ino (with_inode st nm))
    ]
    else some (some einval, st)

-- The device number 0 is valid.
unfoldable pub xcpfs_create : Env → Name → DirState → Option (Ret × DirState)
xcpfs_create env name st = xcpfs_mknod env true name st

-- The label `fail` of `xcpfs_mkdir`, which returns 0.
abbrev pub mkdir_fail : DirState → Ret × DirState
mkdir_fail st = (none, record st { inode_nlink = st.inode_nlink - 1 - 1 })

-- `xcpfs_mkdir` from the first link count on
unfoldable pub link_dir : Env → Name → ℕ → DirState → Ret × DirState
link_dir env name ino st =
    let made = xcpfs_init_dir env.inode_fault ino st.inode_pages in
    let counted = record st {
      nlink = st.nlink + 1;
      inode_nlink = st.inode_nlink + 1;
      inode_pages = made.1;
    } in
    let added = xcpfs_add_link env.fault env.write_fault name ino st.pages in
    elim made.0 [
      | some err ↦ mkdir_fail counted
      | none ↦ elim added.0 [
        | some err ↦ mkdir_fail (record counted { pages = added.1 })
        | none ↦ (none, record counted { pages = added.1 })
      ]
    ]

unfoldable pub xcpfs_mkdir : Env → Name → DirState → Option (Ret × DirState)
xcpfs_mkdir env name st = elim (xcpfs_new_inode env.rounds env.file st.nm env.had) [
  | none ↦ none
  | some (inl err, nm) ↦ some (some err, record st { nm = nm })
  | some (inr ino, nm) ↦ some (link_dir env name ino (with_inode st nm))
]

unfoldable pub xcpfs_unlink : Env → Name → DirState → Ret × DirState
xcpfs_unlink env name st = elim (xcpfs_find_entry env.fault name st.pages) [
  | none ↦ (some enoent, st)
  | some (i, de) ↦
      let deleted = xcpfs_delete_entry env.write_fault i st.pages in
      elim deleted.0 [
        | some err ↦ (some err, record st { pages = deleted.1 })
        | none ↦ (none, record st { pages = deleted.1; inode_nlink = st.inode_nlink - 1 })
      ]
]

unfoldable pub xcpfs_rmdir : Env → Name → DirState → Ret × DirState
xcpfs_rmdir env name st =
    let unlinked = xcpfs_unlink env name st in
    if xcpfs_empty_dir env.inode_fault st.inode_pages
    then elim unlinked.0 [
      | some err ↦ unlinked
      | none ↦
          let after = unlinked.1 in
          (none, record after { nlink = after.nlink - 1; inode_nlink = after.inode_nlink - 1 })
    ]
    else (some enotempty, st)
