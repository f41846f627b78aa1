-- ===== src/Dir/Ops/Create.antt =====
-- New files and new directories.
use xcpfs.Base.{
  ℕ, ◌+◌, ◌<◌, ◌≡◌, ◌≢◌, refl, ap, inr, true, false, List, [], ◌∷◌, none, some, length, arith,
}
use xcpfs.Errno.{Ret, eexist}
use xcpfs.NatMgmt.Types.{NatEntry, NatInfo}
use xcpfs.NatMgmt.Cache.{modify}
use xcpfs.NatMgmt.Cache.Count.{NatInv}
use xcpfs.NatMgmt.AllocFree.{alloc_free_nat, wrong_area}
use xcpfs.NatMgmt.AllocFree.Fresh.{IsFresh, alloc_free_nat-IsFresh}
use xcpfs.Inode.{xcpfs_new_inode}
use xcpfs.Dir.Types.{Name, max_fname_len, Dentry}
use xcpfs.Dir.Entries.{xcpfs_add_link, xcpfs_init_dir, write_page, dot, dot_dot}
use xcpfs.Dir.Entries.Lookup.{ino_of, DirInv}
use xcpfs.Dir.Entries.Update.{Added, named, xcpfs_add_link_lem}
use xcpfs.Dir.Ops.{DirState, Env, link_node, xcpfs_create, xcpfs_mknod, link_dir, xcpfs_mkdir}

-- An id of the regular area is not 0.
regular : (nid : ℕ) → wrong_area false nid ≡ false → nid ≢ 0
unfolding wrong_area
regular nid h = ground (arith, h)

-- No page fails to be read or written.
pub record NoFaults (env : Env) : Type 0 where
  pub had : env.had ≡ true
  pub reads : (i : ℕ) → env.fault i ≡ none
  pub writes : (i : ℕ) → env.write_fault i ≡ none
  pub inode_writes : (i : ℕ) → env.inode_fault i ≡ none

abbrev pub entry_set : NatInfo → ℕ → NatInfo
entry_set nm nid = modify nm nid (λ e. record e { ino = e.nid })

module _ (env : Env) (ok : NoFaults env) (name : Name) (some_name : name ≢ [])
    (fits : length name < max_fname_len) (st : DirState) (dir : DirInv st.pages)
    (cache : NatInv st.nm) (ne : NatEntry) (after : NatInfo)
    (allocated : alloc_free_nat env.rounds env.file st.nm false ≡ some (ne, after)) where
  fresh : IsFresh env.file st.nm false ne after
  fresh = alloc_free_nat-IsFresh env.rounds env.file st.nm false cache ne after allocated

  new_inode :
      xcpfs_new_inode env.rounds env.file st.nm env.had ≡ some (inr ne.nid, entry_set after ne.nid)
  unfolding xcpfs_new_inode
  new_inode = rw (ok.had, allocated) refl

  abbrev added : Ret × List Dentry
  added = xcpfs_add_link env.fault env.write_fault name ne.nid st.pages

  add_link_lem :
      (ino_of name st.pages ≢ none → added ≡ (some eexist, st.pages))
      × (ino_of name st.pages ≡ none → (added.0 ≡ none) × Added name ne.nid st.pages added.1)
  add_link_lem =
      xcpfs_add_link_lem env.fault env.write_fault ok.reads ok.writes st.pages dir name ne.nid
        some_name fits (regular ne.nid fresh.right_area)

  -- For a name of 1 to 255 bytes, in a directory in which no name is used twice, with the cache in
  -- order, where no page fails to be read or written, the kernel has an inode and a free id is found:
  -- A file with a new name gets that id: the name leads to it, every other name is as it was, and the
  -- inode has one link. Where the name is in use, the error is EEXIST, the directory is as it was, and
  -- the new inode is left without a link.
  pub xcpfs_create_lem :
      (ino_of name st.pages ≡ none
        → (st' : DirState) × (xcpfs_create env name st ≡ some (none, st'))
          × Added name ne.nid st.pages st'.pages
          × (st'.inode_nlink ≡ 1))
      × (ino_of name st.pages ≢ none
          → (st' : DirState) × (xcpfs_create env name st ≡ some (some eexist, st'))
            × (st'.pages ≡ st.pages)
            × (st'.inode_nlink ≡ 0))
  unfolding xcpfs_create xcpfs_mknod link_node
  xcpfs_create_lem = (
    λ new.
        let (did, map) = add_link_lem.1 new in
        rw (new_inode, xcpfs_mknod, did, link_node) (_, refl, map, refl),
    λ old.
        rw (new_inode, xcpfs_mknod, link_node, add_link_lem.0 old)
          (_, refl, ap (λ r. r.1) (add_link_lem.0 old), refl),
  )

  -- `xcpfs_init_dir` in a new directory: both names lead to the directory itself.
  init_dir_lem :
      (ino : ℕ)
      → xcpfs_init_dir env.inode_fault ino [] ≡ (none, named dot ino ∷ named dot_dot ino ∷ [])
  unfolding xcpfs_init_dir write_page
  init_dir_lem ino =
      rw (xcpfs_init_dir, ok.inode_writes 0, xcpfs_init_dir, ok.inode_writes 1, write_page) refl

  -- For a name of 1 to 255 bytes, in a directory in which no name is used twice, with the cache in
  -- order, where no page fails to be read or written, the kernel has an inode and a free id is found:
  -- A directory with a new name gets that id and two entries, "." and "..", which both lead to the new
  -- directory itself; it has two links and its parent one more. Where the name is in use, 0 is
  -- returned all the same: the directory is as it was, but has one link more.
  pub xcpfs_mkdir_lem :
      (ino_of name st.pages ≡ none
        → (st' : DirState) × (xcpfs_mkdir env name st ≡ some (none, st'))
          × Added name ne.nid st.pages st'.pages
          × (st'.inode_pages ≡ named dot ne.nid ∷ named dot_dot ne.nid ∷ [])
          × (st'.inode_nlink ≡ 2)
          × (st'.nlink ≡ st.nlink + 1))
      × (ino_of name st.pages ≢ none
          → (st' : DirState) × (xcpfs_mkdir env name st ≡ some (none, st'))
            × (st'.pages ≡ st.pages)
            × (st'.inode_nlink ≡ 0)
            × (st'.nlink ≡ st.nlink + 1))
  unfolding xcpfs_mkdir link_dir
  xcpfs_mkdir_lem = (
    λ new.
        let (did, map) = add_link_lem.1 new in
        rw (new_inode, xcpfs_mkdir, init_dir_lem ne.nid, link_dir, did)
          (_, refl, map, ap (λ r. r.1) (init_dir_lem ne.nid), refl, refl),
    λ old.
        rw (new_inode, xcpfs_mkdir, init_dir_lem ne.nid, link_dir, add_link_lem.0 old)
          (_, refl, ap (λ r. r.1) (add_link_lem.0 old), refl, refl),
  )
