-- ===== src/Mkfs/Mounted.antt =====
-- The file system that mkfs has made, at its first mount.
use xcpfs.Base.{
  ℕ, ◌*◌, ◌<◌, ◌≡◌, refl, ◌∙◌, ap, true, false, Option, none, some, arith, ◌==◌, inl, inr,
  Bool-cases,
}
use xcpfs.NatMgmt.Types.{NatInfo, NatFile}
use xcpfs.NatMgmt.Cache.{find, delete, lookup_cached, insert_nat, update_nat, init_nat_info}
use xcpfs.NatMgmt.Cache.Count.{count, NatInv, insert_nat-NatInv, update_nat-NatInv}
use xcpfs.NatMgmt.Cache.Mount.{SbNat, mount_nat}
use xcpfs.NatMgmt.Lookup.Translate.{translate, node_block}
use xcpfs.Format.{page_size}
use xcpfs.Node.File.{file_addr, in_inode_lem}
use xcpfs.Truncate.Shrink.{IsKnown-of_ge}
use xcpfs.Checkpoint.{SbInfo, SuperBlock, info_of, read_nats, read_super}
use xcpfs.Xio.{IoState, IoEnv}
use xcpfs.Node.{RawInode, NodePage, zero_node, NodeEnv, NodeState}
use xcpfs.Node.View.{node_view, stored, get_node_page_lem}
use xcpfs.Inode.Attributes.{VfsInode, dir_ops, xcpfs_fill_inode, xcpfs_set_inode, xcpfs_iget}
use xcpfs.Mkfs.{
  Image, dir_page, inode_page, super_page, Nvme, dot, dot_dot, root_dentry, root_inode, init_root,
  init_meta, first_super, mkfs, Appends,
}
use xcpfs.Mkfs.Made.{mkfs-Made}

mount_nat-NatInv : (nm : NatInfo) (ne : SbNat) → NatInv nm → NatInv (mount_nat nm ne)
unfolding mount_nat
mount_nat-NatInv nm ne v = elim (Bool-cases (ne.nid == 0)) [
  | inl z ↦ rw (z, mount_nat) v
  | inr z ↦
      rw (z, mount_nat)
        (update_nat-NatInv _ ne.nid ne.block_addr true
          (insert_nat-NatInv nm ne.nid ne.ino ne.block_addr true true v))
]

-- the cache of addresses after the first mount
abbrev first_nm : ℕ → ℕ → NatInfo
first_nm root meta = read_nats 2 0 (first_super root meta) init_nat_info

first_nm-NatInv : (root meta : ℕ) → NatInv (first_nm root meta)
unfolding read_nats count
first_nm-NatInv root meta = mount_nat-NatInv _ _ (
    mount_nat-NatInv init_nat_info _
      (record { unique = λ nid. ground arith; counted = refl; free = tt }))

first_nm-root :
    (file : NatFile) (root meta : ℕ) → 0 < root → node_block file (first_nm root meta) 3 ≡ root
unfolding read_nats mount_nat insert_nat update_nat find delete lookup_cached translate
first_nm-root file root meta h = ground (arith, h)

read_first :
    (root meta : ℕ) (old : SbInfo)
    → read_super (first_super root meta) old init_nat_info
      ≡ (none, (info_of (first_super root meta), first_nm root meta))
unfolding read_super
read_first root meta old = refl

-- what a node page holds of a block
abbrev pub page_at : Option Image → NodePage
page_at none = zero_node
page_at (some (dir_page de)) = zero_node
page_at (some (inode_page ri)) = record zero_node { i = ri }
page_at (some (super_page sb)) = zero_node

-- The mounted file system, with no page in the cache yet: the device is the one that mkfs has
-- written, and the addresses are those of the super block.
abbrev pub first_env : {D : Type 0} → Nvme D → D → IoEnv → NodeEnv
first_env dev d io = record {
  io = io;
  disk = λ addr. page_at (dev.block addr d);
  meta_ino = 1;
  node_ino = 2;
}

abbrev pub first_state : IoState → NatInfo → NodeState
first_state io nm = record { pages = λ nid. none; io = record io { nm = nm } }

root_view :
    {D : Type 0} (dev : Nvme D) (d : D) (env : IoEnv) (io : IoState) (root meta : ℕ) (ri : RawInode)
    → 0 < root
    → dev.block root d ≡ some (inode_page ri)
    → node_view (first_env dev d env) (first_state io (first_nm root meta)) 3
      ≡ record zero_node { i = ri }
unfolding node_view stored
root_view dev d env io root meta ri h e =
    let at = first_nm-root env.file root meta h in rw at (ground (arith, h, e))

-- the root directory as the kernel has it
abbrev pub root_of : VfsInode → ℕ → ℕ → VfsInode
root_of new first second = xcpfs_set_inode (xcpfs_fill_inode new (root_inode first second))

unfoldable pub IsDirectory : VfsInode → Type 0
IsDirectory inode = (inode.ops ≡ dir_ops) × (inode.i_size ≡ 2 * page_size) × (inode.i_nlink ≡ 2)

root_of-IsDirectory :
    (new : VfsInode) (first second : ℕ)
    → (new.i_ino == 1) ≡ false
    → (new.i_ino == 2) ≡ false
    → IsDirectory (root_of new first second)
unfolding xcpfs_set_inode xcpfs_fill_inode IsDirectory
root_of-IsDirectory new first second n m = rw (n, m) (refl, refl, refl)

-- After a run of mkfs in which no command for the root and for the meta file fails, the super block
-- that was written is read without an error, and root, meta file and file of nodes have the numbers 3,
-- 1 and 2; the root that is got by number then is a directory of two pages with two links, and its
-- pages are at blocks that hold the entries "." and ".." of that number.
pub xcpfs_iget-mkfs :
    {D : Type 0} (dev : Nvme D)
    → Appends dev
    → (d d1 d2 d3 : D) (root meta lba : ℕ) → init_root dev d ≡ (some root, d1)
    → init_meta dev d1 ≡ (some meta, d2)
    → mkfs dev d ≡ (some lba, d3)
    → (old : SbInfo) (new : VfsInode) (env : IoEnv) (io : IoState) → new.i_ino ≡ 3
    → (sb : SuperBlock) × (nm : NatInfo) × (inode : VfsInode) × (st : NodeState) × (dev.block lba d3
        ≡ some (super_page sb))
      × (read_super sb old init_nat_info ≡ (none, (info_of sb, nm)))
      × (sb.root_ino ≡ 3)
      × (sb.meta_ino ≡ 1)
      × (sb.node_ino ≡ 2)
      × (xcpfs_iget (first_env dev d3 env) (some (false, new)) 3 (first_state io nm)
          ≡ some (inr inode, st))
      × IsDirectory inode
      × (let view = node_view (first_env dev d3 env) st in
          (dev.block (file_addr view 3 0) d3 ≡ some (dir_page (root_dentry dot)))
          × (dev.block (file_addr view 3 1) d3 ≡ some (dir_page (root_dentry dot_dot))))
unfolding xcpfs_iget
xcpfs_iget-mkfs dev law d d1 d2 d3 root meta lba er em e old new env io i3 =
    let (first, second, m) = mkfs-Made dev law d d1 d2 d3 root meta lba er em e in
    let r = m.of_root in
    let fenv = first_env dev d3 env in
    let st = first_state io (first_nm root meta) in
    let view = root_view dev d3 env io root meta (root_inode first second) r.low r.node in
    let (got, got_e, k, there) =
      get_node_page_lem fenv 3 st (first_nm-NatInv root meta)
        (IsKnown-of_ge fenv st 3 (omega arith)) in
    let addr : (b : ℕ)
        → b < 900
        → file_addr (node_view fenv got) 3 b ≡ (root_inode first second).i_addr b =
      λ b h. in_inode_lem (node_view fenv got) 3 b h ∙ ap (λ p. p.i.i_addr b) (k.views 3 ∙ view) in
    (
      first_super root meta,
      first_nm root meta,
      root_of new first second,
      got,
      m.super,
      read_first root meta old,
      refl,
      refl,
      refl,
      rw (got_e, xcpfs_iget)
          (ap (λ p. some (inr (xcpfs_set_inode (xcpfs_fill_inode new p.i)), got)) view),
      root_of-IsDirectory new first second (ground (arith, i3)) (ground (arith, i3)),
      (
        ap (λ a. dev.block a d3) (addr 0 (omega arith)) ∙ r.page,
        ap (λ a. dev.block a d3) (addr 1 (omega arith)) ∙ r.page_too,
      ),
    )
