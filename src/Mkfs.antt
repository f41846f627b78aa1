-- ===== src/Mkfs.antt =====
-- mkfs.c of mkfs/: the blocks of a new file system. A command to the device, by libnvme, is a
-- parameter.
pub mod Made
pub mod Mounted
use xcpfs.Base.{
  ℕ, ◌+◌, ◌*◌, ◌/◌, ◌^◌, ◌-◌, Bool, true, false, List, [], ◌∷◌, Option, none, some, length, ◌==◌,
  if◌then◌else◌, ◌≡◌, ◌≢◌, ◌≤◌,
}
use xcpfs.Format.{xcpfs_magic}
use xcpfs.NatMgmt.Cache.Mount.{SbNat}
use xcpfs.Dir.Types.{Name, Dentry}
use xcpfs.Checkpoint.{SuperBlock, no_nat}
use xcpfs.Node.{RawInode, zero_node}

-- What a page that is appended holds.
pub data Image : Type 0 where
  dir_page : Dentry → Image
  inode_page : RawInode → Image
  super_page : SuperBlock → Image

-- The commands to a device in a state of `D`, for the zone that starts at a block: to open it (`true`
-- for an error), and to append a page, whose block is the result. `block` is what a block holds.
pub record Nvme (D : Type 0) : Type 0 where
  pub zone_mgmt_open : ℕ → D → Bool × D
  pub zone_append : ℕ → Image → D → Option ℕ × D
  pub block : ℕ → D → Option Image

unfoldable pub zone2zslba : ℕ → ℕ
zone2zslba zoneid = zoneid * 8 * 1024 / 4

-- A function that answers -1 as soon as a command fails.
abbrev pub Run : Type 0 → Type 0 → Type 0
Run D A = D → Option A × D

abbrev pub and_then : {D A B : Type 0} → Run D A → (A → Run D B) → Run D B
and_then m f d = let r = m d in elim r.0 [ none ↦ (none, r.1) | some a ↦ f a r.1 ]

abbrev pub opening : {D A : Type 0} → Nvme D → ℕ → Run D A → Run D A
opening dev zoneid m d =
    let r = dev.zone_mgmt_open (zone2zslba zoneid) d in if r.0 then (none, r.1) else m r.1

abbrev pub appending : {D : Type 0} → Nvme D → ℕ → Image → Run D ℕ
appending dev zoneid image d = dev.zone_append (zone2zslba zoneid) image d

abbrev pub dot : Name
dot = 46 ∷ []

abbrev pub dot_dot : Name
dot_dot = 46 ∷ 46 ∷ []

abbrev pub root_dentry : Name → Dentry
root_dentry name = record { name = name; ino = 3; namelen = length name }

-- `S_IFDIR | S_IRWXU | (S_IRGRP | S_IXGRP) | (S_IROTH | S_IXOTH)`
abbrev pub root_mode : ℕ
root_mode = 2 ^ 14 + 7 * 8 ^ 2 + 5 * 8 + 5

abbrev pub root_inode : ℕ → ℕ → RawInode
root_inode first second = record zero_node.i {
  i_mode = root_mode;
  i_size = 2 * 4096;
  i_blocks = 2;
  i_uid = 1000;
  i_gid = 1000;
  i_links = 2;
  i_addr = λ k. if k == 0 then first else if k == 1 then second else 0;
}

-- `S_IFREG | S_IRWXU`
abbrev pub meta_inode : RawInode
meta_inode = record zero_node.i {
  i_mode = 2 ^ 15 + 7 * 8 ^ 2;
  i_uid = 1000;
  i_gid = 1000;
  i_links = 1;
}

-- `init_root`, from its last part to its first.
abbrev pub write_root : {D : Type 0} → Nvme D → ℕ → ℕ → Run D ℕ
write_root dev first second = opening dev 5 (appending dev 5 (inode_page (root_inode first second)))

abbrev pub write_dot_dot : {D : Type 0} → Nvme D → ℕ → Run D ℕ
write_dot_dot dev first =
    and_then (appending dev 6 (dir_page (root_dentry dot_dot))) (write_root dev first)

unfoldable pub init_root : {D : Type 0} → Nvme D → Run D ℕ
init_root dev =
    opening dev 6 (and_then (appending dev 6 (dir_page (root_dentry dot))) (write_dot_dot dev))

unfoldable pub init_meta : {D : Type 0} → Nvme D → Run D ℕ
init_meta dev = opening dev 3 (appending dev 3 (inode_page meta_inode))

-- an answer in 32 bits, where -1 is all ones
abbrev pub le32 : Option ℕ → ℕ
le32 none = 2 ^ 32 - 1
le32 (some lba) = lba

abbrev pub first_super : ℕ → ℕ → SuperBlock
first_super root meta = record {
  magic = xcpfs_magic;
  root_ino = 3;
  meta_ino = 1;
  node_ino = 2;
  nat_page_count = 1;
  zit_page_count = 1;
  ssa_page_count = 1;
  meta_nat_cnt = 2;
  meta_nat = λ i.
      if i == 0
      then record { nid = 3; ino = 3; block_addr = root }
      else if i == 1
      then record { nid = 1; ino = 1; block_addr = meta }
      else no_nat;
}

-- `main`, whose answer is always 0: no answer is looked at but those of the pages' blocks. The result
-- is the last append's.
unfoldable pub mkfs : {D : Type 0} → Nvme D → Run D ℕ
mkfs dev d =
    let root = init_root dev d in
    let meta = init_meta dev root.1 in
    appending dev 0 (super_page (first_super (le32 root.0) (le32 meta.0)))
      (dev.zone_mgmt_open (zone2zslba 0) meta.1).1

-- What a device promises: an append that does not fail puts the page into a block of the zone or of
-- one behind it, which held nothing, and nothing else changes a block.
pub record Appends {D : Type 0} (dev : Nvme D) : Type 0 where
  pub placed :
      (slba : ℕ) (image : Image) (d d' : D) (lba : ℕ)
      → dev.zone_append slba image d ≡ (some lba, d')
      → (slba ≤ lba)
        × (dev.block lba d' ≡ some image)
        × ((b : ℕ) → dev.block b d ≢ none → dev.block b d' ≡ dev.block b d)
  pub opened : (slba b : ℕ) (d : D) → dev.block b (dev.zone_mgmt_open slba d).1 ≡ dev.block b d
