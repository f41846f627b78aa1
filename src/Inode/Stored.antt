-- ===== src/Inode/Stored.antt =====
-- An inode that is stored in its page and got again.
use xcpfs.Base.{
  ℕ, ◌^◌, ◌<◌, ◌≡◌, ◌≢◌, refl, sym, ◌∙◌, ap, Bool, true, false, some, inr, arith, ◌==◌, ==_ne,
  ==_iff, inl, Bool-cases,
}
use xcpfs.Base.Table.{update_self}
use xcpfs.NatMgmt.Cache.Count.{NatInv}
use xcpfs.Node.{RawInode, NodePage, NodeEnv, NodeState, keep_page, get_node_page}
use xcpfs.Node.View.{node_view, IsKnown, same_views, view-keep_page, cached_page, get_node_page_lem}
use xcpfs.Node.Dnode.{nid_at, addr_at}
use xcpfs.Node.File.{file_addr}
use xcpfs.Node.File.Same.{SamePointers, file_addr_same}
use xcpfs.Inode.Attributes.{
  VfsInode, xcpfs_fill_inode, xcpfs_set_inode, xcpfs_iget, stored_inode, xcpfs_update_inode_page,
}

-- The fields fit into those on disk, as the kernel's types make them.
pub record Fits (inode : VfsInode) : Type 0 where
  pub mode : inode.i_mode < 2 ^ 16
  pub uid : inode.i_uid < 2 ^ 32
  pub gid : inode.i_gid < 2 ^ 32
  pub links : inode.i_nlink < 2 ^ 32
  pub size : inode.i_size < 2 ^ 64
  pub atime : inode.i_atime < 2 ^ 64
  pub mtime : inode.i_mtime < 2 ^ 64
  pub atime_nsec : inode.i_atime_nsec < 2 ^ 32
  pub mtime_nsec : inode.i_mtime_nsec < 2 ^ 32
  pub generation : inode.i_generation < 2 ^ 32

-- The inode that is got back: the one stored, with the new inode's number of blocks and table, and
-- the change time that the page held before.
abbrev pub restored : VfsInode → VfsInode → RawInode → VfsInode
restored new inode xi = record inode {
  i_ino = new.i_ino;
  i_blocks = new.i_blocks;
  i_ctime = xi.i_ctime;
  i_ctime_nsec = xi.i_ctime_nsec;
  ops = new.ops;
}

fill_stored :
    (new inode : VfsInode) (xi : RawInode)
    → Fits inode
    → xcpfs_fill_inode new (stored_inode xi inode) ≡ restored new inode xi
unfolding xcpfs_fill_inode stored_inode
fill_stored new inode xi f = ground (arith, f)

nid_kept :
    (page : NodePage) (inode : VfsInode) (top : Bool) (o : ℕ)
    → nid_at top (record page { i = stored_inode page.i inode }) o ≡ nid_at top page o
unfolding stored_inode
nid_kept page inode true o = refl
nid_kept page inode false o = refl

addr_kept :
    (page : NodePage) (inode : VfsInode) (top : Bool) (o : ℕ)
    → addr_at top (record page { i = stored_inode page.i inode }) o ≡ addr_at top page o
unfolding stored_inode
addr_kept page inode true o = refl
addr_kept page inode false o = refl

-- What two pages agree on, all nodes agree on when one page takes the other's place.
pub replaced :
    {B : Type 0} (f : NodePage → B) (env : NodeEnv) (st : NodeState) (ino : ℕ) (new : NodePage)
    → f new ≡ f (node_view env st ino)
    → (x : ℕ) → f (node_view env (keep_page st ino new) x) ≡ f (node_view env st x)
replaced f env st ino new e x =
    ap f (view-keep_page env st ino new x) ∙ elim (Bool-cases (ino == x)) [
      | inl z ↦ rw z (e ∙ ap (λ n. f (node_view env st n)) ((==_iff ino x).0 z))
      | inr z ↦ rw z refl
    ]

pub attributes_kept :
    (env : NodeEnv) (st : NodeState) (ino : ℕ) (inode : VfsInode) (page : NodePage)
    → page ≡ node_view env st ino
    → SamePointers
        (node_view env st)
        (node_view env (keep_page st ino (record page { i = stored_inode page.i inode })))
attributes_kept env st ino inode page here =
    let new = record page { i = stored_inode page.i inode } in
    record {
      nids = λ x top o.
          replaced (λ p. nid_at top p o) env st ino new
            (nid_kept page inode top o ∙ ap (λ p. nid_at top p o) here) x;
      addrs = λ x top o.
          replaced (λ p. addr_at top p o) env st ino new
            (addr_kept page inode top o ∙ ap (λ p. addr_at top p o) here) x;
    }

-- An inode that is stored in its page and got anew by number, the kernel having dropped it in the
-- meantime, is the one that was stored, but for the time of its last change, which is the one that
-- the page held before, and for its number of blocks, which is the new inode's. No file's block has
-- another address afterwards.
pub xcpfs_iget-update_inode_page :
    (env : NodeEnv) (inode new : VfsInode) (st : NodeState)
    → NatInv st.io.nm
    → IsKnown env st inode.i_ino
    → Fits inode
    → inode.i_ino ≢ 2
    → (st1 : NodeState) × (st2 : NodeState) × (xcpfs_update_inode_page env inode st ≡ some st1)
      × (xcpfs_iget env (some (false, new)) inode.i_ino st1
          ≡ some (inr (xcpfs_set_inode (restored new inode (node_view env st inode.i_ino).i)), st2))
      × ((file b : ℕ) → file_addr (node_view env st2) file b ≡ file_addr (node_view env st) file b)
unfolding xcpfs_update_inode_page xcpfs_iget
xcpfs_iget-update_inode_page env inode new st v known fits n =
    let ino = inode.i_ino in
    let (got, e, k, there) = get_node_page_lem env ino st v known in
    let page = record (node_view env st ino) { i = stored_inode (node_view env st ino).i inode } in
    let st1 = keep_page got ino page in
    let at_1 : st1.pages ino ≡ some page = update_self got.pages ino (some page) in
    let read : get_node_page env ino st1 ≡ some (page, st1) = cached_page env ino st1 page at_1 in
    (
      st1,
      st1,
      rw (e, xcpfs_update_inode_page) refl,
      rw (==_ne ino 2 n, read, xcpfs_iget)
          (ap (λ i. some (inr (xcpfs_set_inode i), st1))
            (fill_stored new inode (node_view env st ino).i fits)),
      λ file b.
          file_addr_same (node_view env got) (node_view env st1)
            (attributes_kept env got ino inode (node_view env st ino) (sym (k.views ino))) file b
          ∙ ap (λ v. file_addr v file b) (same_views env st got k),
    )
