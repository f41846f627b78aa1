-- ===== src/Dir/Ops/Remove.antt =====
-- Removing files and directories.
use xcpfs.Base.{
  ℕ, ◌-◌, ◌≡◌, ◌≢◌, refl, sym, inl, inr, List, none, some, arith, if◌then◌else◌, Bool-cases,
  Option-cases,
}
use xcpfs.Errno.{enoent, enotempty}
use xcpfs.Dir.Types.{Name, same_name, Dentry}
use xcpfs.Dir.Entries.{xcpfs_find_entry, xcpfs_empty_dir, behind_two}
use xcpfs.Dir.Entries.Lookup.{
  ino_of, DirInv, find_entry_ino, find_entry_place, AllFreePages, xcpfs_empty_dir_lem,
}
use xcpfs.Dir.Entries.Update.{xcpfs_delete_entry_lem}
use xcpfs.Dir.Ops.{DirState, Env, xcpfs_unlink, xcpfs_rmdir}

-- The name is gone and every other name is as it was.
abbrev pub Gone : Name → List Dentry → List Dentry → Type 0
Gone name pages after =
    ((other : Name)
      → ino_of other after ≡ (if same_name name other then none else ino_of other pages))
    × DirInv after

module _ (env : Env) (reads : (i : ℕ) → env.fault i ≡ none)
    (writes : (i : ℕ) → env.write_fault i ≡ none) (name : Name) (st : DirState)
    (dir : DirInv st.pages) where
  -- An unlink of a name that is there takes the name away, leaves every other name, and takes one
  -- link from the inode; of a name that is not there it changes nothing and gives ENOENT.
  pub xcpfs_unlink_lem :
      (ino_of name st.pages ≡ none → xcpfs_unlink env name st ≡ (some enoent, st))
      × (ino_of name st.pages ≢ none
          → ((xcpfs_unlink env name st).0 ≡ none)
            × Gone name st.pages (xcpfs_unlink env name st).1.pages
            × ((xcpfs_unlink env name st).1.inode_nlink ≡ st.inode_nlink - 1)
            × ((xcpfs_unlink env name st).1.nlink ≡ st.nlink))
  unfolding xcpfs_unlink
  xcpfs_unlink_lem =
      let looked = find_entry_ino env.fault reads name st.pages in
      elim (Option-cases (xcpfs_find_entry env.fault name st.pages)) [
        | inl e ↦
            (λ gone. rw (e, xcpfs_unlink) refl, λ there. absurd (there (sym (rw e at looked))))
        | inr ((i, de), e) ↦
            let (did, map, inv) =
              xcpfs_delete_entry_lem env.fault env.write_fault reads writes st.pages dir name i de
                (find_entry_place env.fault reads name st.pages i de e) in
            (
              λ gone. ground (arith, looked, e, gone),
              λ there. rw (e, xcpfs_unlink, did) (refl, (map, inv), refl, refl),
            )
      ]

  -- A directory with an entry in use behind its first two stays, with ENOTEMPTY. Any other one whose
  -- name is there loses that name and two links, and its parent one link.
  pub xcpfs_rmdir_lem :
      (inode_reads : (i : ℕ) → env.inode_fault i ≡ none)
      → (¬ AllFreePages (behind_two st.inode_pages)
          → xcpfs_rmdir env name st ≡ (some enotempty, st))
        × (AllFreePages (behind_two st.inode_pages)
            → ino_of name st.pages ≢ none
            → ((xcpfs_rmdir env name st).0 ≡ none)
              × Gone name st.pages (xcpfs_rmdir env name st).1.pages
              × ((xcpfs_rmdir env name st).1.inode_nlink ≡ st.inode_nlink - 2)
              × ((xcpfs_rmdir env name st).1.nlink ≡ st.nlink - 1))
  unfolding xcpfs_rmdir
  xcpfs_rmdir_lem inode_reads =
      let empty = xcpfs_empty_dir_lem env.inode_fault inode_reads st.inode_pages in
      (
        λ kept. elim (Bool-cases (xcpfs_empty_dir env.inode_fault st.inode_pages)) [
          | inl e ↦ absurd (kept (empty.0 e))
          | inr e ↦ rw (e, xcpfs_rmdir) refl
        ],
        λ free there.
            let (did, gone, links, parent) = xcpfs_unlink_lem.1 there in
            rw (empty.1 free, xcpfs_rmdir, did)
              (refl, gone, omega (arith, links), omega (arith, parent)),
      )
