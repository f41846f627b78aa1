-- ===== src/Super/Written.antt =====
-- An inode that the kernel has written.
use xcpfs.Base.{
  ℕ, ◌≡◌, ◌≢◌, refl, sym, subst, ◌∙◌, ap, fun_ext, true, false, some, arith, ◌==◌, ==_ne,
  if◌then◌else◌, inl, inr, Option-cases,
}
use mathlib.Core.Option.{some-injective}
use xcpfs.Base.Table.{update_self}
use xcpfs.ZoneMgmt.Device.{zone_append}
use xcpfs.ZoneMgmt.Blocks.Owners.{Owners}
use xcpfs.ZoneMgmt.Blocks.Account.{is_valid}
use xcpfs.NatMgmt.Types.{NatEntry}
use xcpfs.NatMgmt.Cache.{find, lookup_cached}
use xcpfs.NatMgmt.Cache.Count.{NatInv}
use xcpfs.NatMgmt.Lookup.Translate.{translate, block_addr_of, node_block}
use xcpfs.Meta.Pages.{get_page_type}
use xcpfs.Node.{NodePage, NodeEnv, NodeState, keep_page}
use xcpfs.Node.View.{node_view, IsKnown, Kept, cached_page, get_node_page_lem}
use xcpfs.Xio.{IoState, Submitted, sent, fault, submit_node_xio, write_end_io}
use xcpfs.Xio.Data.{XioSubmitted, node_io, data_io, xcpfs_submit_xio, do_write_single_page}
use xcpfs.Xio.Nodes.{write_end_io-NodesValid}
use xcpfs.Xio.Nodes.View.{NodesValid}
use xcpfs.Inode.Attributes.{VfsInode, stored_inode, xcpfs_update_inode_page}
use xcpfs.Super.Inodes.{end_node_write, xcpfs_write_inode}

-- the page of an inode once the inode has been stored in it
abbrev pub stored_page : NodeEnv → NodeState → VfsInode → NodePage
stored_page env st inode =
    let page = node_view env st inode.i_ino in record page { i = stored_inode page.i inode }

pub update_inode_page_lem :
    (env : NodeEnv) (inode : VfsInode) (st : NodeState)
    → NatInv st.io.nm
    → IsKnown env st inode.i_ino
    → (got : NodeState) × Kept env st got
      × (xcpfs_update_inode_page env inode st
          ≡ some (keep_page got inode.i_ino (stored_page env st inode)))
unfolding xcpfs_update_inode_page
update_inode_page_lem env inode st v known =
    let (got, e, k, there) = get_node_page_lem env inode.i_ino st v known in
    (got, k, rw (e, xcpfs_update_inode_page) refl)

-- A page of the file of nodes is submitted as a node.
submits_node :
    (env : NodeEnv) (nid : ℕ) (st : NodeState)
    → env.meta_ino ≢ env.node_ino
    → do_write_single_page env env.node_ino nid st
      ≡ node_io (
          submit_node_xio env.io zone_append
            (get_page_type env.meta_ino env.node_ino env.node_ino nid)
            nid
            st.io)
unfolding do_write_single_page xcpfs_submit_xio get_page_type
submits_node env nid st n = ground (arith, n)

io_of : Submitted → XioSubmitted → Submitted
io_of other (node_io r) = r
io_of other (data_io r) = other

NodesValid-Kept :
    (env : NodeEnv) (st st' : NodeState)
    → Kept env st st'
    → NodesValid env.io.file st.io.nm st.io.zm
    → NodesValid env.io.file st'.io.nm st'.io.zm
NodesValid-Kept env st st' k v =
    let blocks : node_block env.io.file st'.io.nm ≡ node_block env.io.file st.io.nm =
      fun_ext λ n. ap block_addr_of (k.entries n) in
    subst (λ z. NodesValid env.io.file st'.io.nm z) (sym k.zm)
      (subst (λ a. Owners a st.io.zm) (sym blocks) v)

listed-Kept :
    (env : NodeEnv) (st st' : NodeState) (nid : ℕ) (ne : NatEntry)
    → Kept env st st'
    → find nid st.io.nm.nat_list ≡ some ne
    → (ne' : NatEntry) × (find nid st'.io.nm.nat_list ≡ some ne')
listed-Kept env st st' nid ne k listed = elim (Option-cases (find nid st'.io.nm.nat_list)) [
  | inl z ↦ ground (arith, k.listed nid z, listed)
  | inr found ↦ found
]

-- the parts of a write that comes to its end
writes :
    (env : NodeEnv) (inode : VfsInode) (st updated : NodeState) (page : NodePage)
    → inode.i_ino ≢ 2
    → xcpfs_update_inode_page env inode st ≡ some updated
    → updated.pages inode.i_ino ≡ some page
    → (new : ℕ) (io io' : IoState)
    → do_write_single_page env env.node_ino inode.i_ino updated ≡ node_io (sent new io)
    → (written : ℕ → ℕ) → write_end_io env.io inode.i_ino (written new) io ≡ some io'
    → xcpfs_write_inode env true written inode st ≡ some (record updated { io = io' })
unfolding xcpfs_write_inode
writes env inode st updated page n u there new io io' s written ended =
    let read = cached_page env inode.i_ino updated page there in
    rw (==_ne inode.i_ino 2 n, u, read, s, ended, xcpfs_write_inode, end_node_write) refl

-- An inode whose id is in use is written: once the device has written to a block that was not valid
-- when the request was sent, the function comes to an end; the inode's node is at that block, every
-- other node is where it was, every node that has a block has a valid one, and no two share one. The
-- page that is up to date is the one with the inode's attributes.
pub xcpfs_write_inode-NodesValid :
    (env : NodeEnv) (inode : VfsInode) (st : NodeState)
    → NatInv st.io.nm
    → NodesValid env.io.file st.io.nm st.io.zm
    → (ne : NatEntry) → find inode.i_ino st.io.nm.nat_list ≡ some ne
    → inode.i_ino ≢ 2
    → env.meta_ino ≢ env.node_ino
    → (updated : NodeState) → xcpfs_update_inode_page env inode st ≡ some updated
    → (new : ℕ) (io : IoState)
    → do_write_single_page env env.node_ino inode.i_ino updated ≡ node_io (sent new io)
    → (written : ℕ → ℕ) → is_valid io.zm (written new) ≡ false
    → (st' : NodeState) × (xcpfs_write_inode env true written inode st ≡ some st')
      × NodesValid env.io.file st'.io.nm st'.io.zm
      × NatInv st'.io.nm
      × ((other : ℕ)
          → node_block env.io.file st'.io.nm other
            ≡ (if inode.i_ino == other then written new else node_block env.io.file st.io.nm other))
      × (st'.pages inode.i_ino ≡ some (stored_page env st inode))
unfolding io_of translate lookup_cached
xcpfs_write_inode-NodesValid env inode st v valid ne listed n differ updated u new io s written
      unwritten =
    let ino = inode.i_ino in
    let known : IsKnown env st ino = (ne, ground (arith, listed)) in
    let (got, k, u') = update_inode_page_lem env inode st v known in
    let page = stored_page env st inode in
    let at_page : (keep_page got ino page).pages ino ≡ some page =
      update_self got.pages ino (some page) in
    let same : keep_page got ino page ≡ updated = some-injective _ updated (sym u' ∙ u) in
    let (ne', listed') = listed-Kept env st got ino ne k listed in
    let type = get_page_type env.meta_ino env.node_ino env.node_ino ino in
    let submitted : submit_node_xio env.io zone_append type ino got.io ≡ sent new io =
      ap (io_of fault) (
        sym (submits_node env ino (keep_page got ino page) differ)
        ∙ ap (do_write_single_page env env.node_ino ino) same
        ∙ s) in
    let (io', ended, valid', inv', blocks) =
      write_end_io-NodesValid env.io zone_append refl type ino got.io ne' listed' k.inv
        (NodesValid-Kept env st got k valid) new io submitted (written new) unwritten in
    let there : updated.pages ino ≡ some page = ap (λ w. w.pages ino) (sym same) ∙ at_page in
    (
      record updated { io = io' },
      writes env inode st updated page n u there new io io' s written ended,
      valid',
      inv',
      λ other.
          blocks other
          ∙ ap (λ x. if ino == other then written new else x) (ap block_addr_of (k.entries other)),
      there,
    )
