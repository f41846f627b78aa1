-- ===== src/Tests/Mkfs.antt =====
-- A run of mkfs on a device that appends in each zone at a counter of its own.
use xcpfs.Base.{
  ℕ, ◌+◌, ◌≤◌, ◌≡◌, ◌≢◌, refl, sym, ap, ◌∙◌, false, Option, none, some, arith, inl, inr, subst,
  Option-cases,
}
use mathlib.Core.Option.{some-injective}
use xcpfs.Base.Table.{update, update_self, update_ne}
use xcpfs.NatMgmt.Types.{NatInfo}
use xcpfs.NatMgmt.Cache.{init_nat_info}
use xcpfs.Checkpoint.{SuperBlock, read_super, info_of}
use xcpfs.Node.{NodeState}
use xcpfs.Node.View.{node_view}
use xcpfs.Node.File.{file_addr}
use xcpfs.Inode.Attributes.{VfsInode, xcpfs_iget}
use xcpfs.Mkfs.{
  Image, dir_page, super_page, Nvme, zone2zslba, dot, dot_dot, root_dentry, init_root, init_meta,
  mkfs, Appends,
}
use xcpfs.Mkfs.Mounted.{first_env, first_state, IsDirectory, xcpfs_iget-mkfs}
use xcpfs.Tests.Io.{env, st, numbers}
use xcpfs.Tests.Files.{blank_inode}

-- the number of pages appended to the zone at a block, and what each block holds
pub record Drive : Type 0 where
  count : ℕ → ℕ
  held : ℕ → Option Image

-- An append that would meet a block in use fails.
unfoldable append_at : ℕ → Image → Drive → Option ℕ × Drive
append_at slba image d =
    let lba = slba + d.count slba in
    elim (d.held lba) [
      | some other ↦ (none, d)
      | none ↦ (
        some lba,
        record {
          count = update d.count slba (d.count slba + 1);
          held = update d.held lba (some image);
        },
      )
    ]

abbrev drive : Nvme Drive
drive = record {
  zone_mgmt_open = λ slba d. (false, d);
  zone_append = append_at;
  block = λ lba d. d.held lba;
}

abbrev new_drive : Drive
new_drive = record { count = λ slba. 0; held = λ lba. none }

abbrev Keeps : Drive → Drive → Type 0
Keeps d d' = (b : ℕ) → d.held b ≢ none → d'.held b ≡ d.held b

append_at_lem :
    (slba : ℕ) (image : Image) (d d' : Drive) (lba : ℕ)
    → append_at slba image d ≡ (some lba, d')
    → (slba ≤ lba) × (d'.held lba ≡ some image) × Keeps d d'
unfolding append_at
append_at_lem slba image d d' lba e =
    let here = slba + d.count slba in
    elim (Option-cases (d.held here)) [
      | inr (other, z) ↦ ground (arith, ap (λ r. r.0) (rw (z, append_at) at e))
      | inl z ↦
          let ends = rw (z, append_at) at e in
          subst (λ x. (slba ≤ x) × (d'.held x ≡ some image) × Keeps d d')
            (some-injective here lba (ap (λ r. r.0) ends))
            (subst (λ y. (slba ≤ here) × (y.held here ≡ some image) × Keeps d y)
              (ap (λ r. r.1) ends)
              (
                omega arith,
                update_self d.held here (some image),
                λ b n. update_ne d.held here b (some image) (λ q. n (ap d.held (sym q) ∙ z)),
              ))
    ]

drive-Appends : Appends drive
drive-Appends = record { placed = append_at_lem; opened = λ slba b d. refl }

abbrev after_root : Drive
after_root = (init_root drive new_drive).1

abbrev after_meta : Drive
after_meta = (init_meta drive after_root).1

abbrev made : Drive
made = (mkfs drive new_drive).1

root_made : init_root drive new_drive ≡ (some 10240, after_root)
unfolding init_root append_at zone2zslba
root_made = refl

meta_made : init_meta drive after_root ≡ (some 6144, after_meta)
unfolding init_meta init_root append_at zone2zslba
meta_made = refl

super_made : mkfs drive new_drive ≡ (some 0, made)
unfolding mkfs init_meta init_root append_at zone2zslba
super_made = refl

abbrev root_new : VfsInode
root_new = record blank_inode { i_ino = 3 }

xcpfs_iget-mkfs_example :
    (sb : SuperBlock) × (nm : NatInfo) × (inode : VfsInode) × (after : NodeState) × (drive.block 0
        made
      ≡ some (super_page sb))
    × (read_super sb numbers init_nat_info ≡ (none, (info_of sb, nm)))
    × (sb.root_ino ≡ 3)
    × (sb.meta_ino ≡ 1)
    × (sb.node_ino ≡ 2)
    × (xcpfs_iget (first_env drive made env) (some (false, root_new)) 3 (first_state st nm)
        ≡ some (inr inode, after))
    × IsDirectory inode
    × (let view = node_view (first_env drive made env) after in
        (drive.block (file_addr view 3 0) made ≡ some (dir_page (root_dentry dot)))
        × (drive.block (file_addr view 3 1) made ≡ some (dir_page (root_dentry dot_dot))))
xcpfs_iget-mkfs_example =
    xcpfs_iget-mkfs drive drive-Appends new_drive after_root after_meta made 10240 6144 0 root_made
      meta_made super_made numbers root_new env st refl
