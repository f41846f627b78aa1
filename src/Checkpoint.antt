-- ===== src/Checkpoint.antt =====
-- The super block: checkpoint.c fills it, `xcpfs_read_super` of xcpfs.c reads it at a mount.
pub mod Remount
pub mod Nodes
use xcpfs.Base.{
  ℕ, zero, suc, ◌+◌, ◌%◌, ◌^◌, Bool, List, [], ◌∷◌, Option, none, some, ◌==◌, ltb, if◌then◌else◌,
}
use xcpfs.Base.Table.{update}
use xcpfs.Errno.{Ret, eio}
use xcpfs.Format.{xcpfs_magic, sb_nat_count}
use xcpfs.NatMgmt.Types.{NatEntry, NatInfo}
use xcpfs.NatMgmt.Cache.Mount.{SbNat, mount_nat}

-- The numbers of `struct xcpfs_sb_info` that are read from the super block and written to it.
pub record SbInfo : Type 0 where
  pub root_ino : ℕ
  pub meta_ino : ℕ
  pub node_ino : ℕ
  pub nat_page_count : ℕ
  pub zit_page_count : ℕ
  pub ssa_page_count : ℕ
  pub total_meta_page_count : ℕ

-- `struct xcpfs_super_block`; `meta_nat_cnt` has 16 bits, and of `meta_nat` the first `sb_nat_count`
-- entries are in the page.
pub record SuperBlock : Type 0 where
  pub magic : ℕ
  pub root_ino : ℕ
  pub meta_ino : ℕ
  pub node_ino : ℕ
  pub nat_page_count : ℕ
  pub zit_page_count : ℕ
  pub ssa_page_count : ℕ
  pub meta_nat_cnt : ℕ
  pub meta_nat : ℕ → SbNat

abbrev pub no_nat : SbNat
no_nat = record { nid = 0; ino = 0; block_addr = 0 }

unfoldable pub init_cpsb : SbInfo → SuperBlock
init_cpsb sbi = record {
  magic = xcpfs_magic;
  root_ino = sbi.root_ino;
  meta_ino = sbi.meta_ino;
  node_ino = sbi.node_ino;
  nat_page_count = sbi.nat_page_count;
  zit_page_count = sbi.zit_page_count;
  ssa_page_count = sbi.ssa_page_count;
  meta_nat_cnt = 0;
  meta_nat = λ i. no_nat;
}

-- The place is not checked against the end of the page: an entry behind it is not in the super block
-- that is written, but in memory that does not belong to the page.
unfoldable pub cp_append_nat : SuperBlock → NatEntry → SuperBlock
cp_append_nat raw_sb ne = record raw_sb {
  meta_nat =
      if ltb raw_sb.meta_nat_cnt sb_nat_count
      then update raw_sb.meta_nat raw_sb.meta_nat_cnt
          (record { nid = ne.nid; ino = ne.ino; block_addr = ne.block_addr })
      else raw_sb.meta_nat;
  meta_nat_cnt = (raw_sb.meta_nat_cnt + 1) % 2 ^ 16;
}

-- The loop of `xcpfs_read_super` from entry `i` on, with `n` entries left.
unfoldable pub read_nats : ℕ → ℕ → SuperBlock → NatInfo → NatInfo
read_nats zero i raw_super nm = nm
read_nats (suc n) i raw_super nm =
    read_nats n (i + 1) raw_super (mount_nat nm (raw_super.meta_nat i))

-- the numbers that a super block holds
abbrev pub info_of : SuperBlock → SbInfo
info_of raw_super = record {
  root_ino = raw_super.root_ino;
  meta_ino = raw_super.meta_ino;
  node_ino = raw_super.node_ino;
  nat_page_count = raw_super.nat_page_count;
  zit_page_count = raw_super.zit_page_count;
  ssa_page_count = raw_super.ssa_page_count;
  total_meta_page_count =
      raw_super.nat_page_count + raw_super.zit_page_count + raw_super.ssa_page_count;
}

-- `xcpfs_read_super` for a page that could be had.
unfoldable pub read_super : SuperBlock → SbInfo → NatInfo → Ret × (SbInfo × NatInfo)
read_super raw_super sbi nm =
    if raw_super.magic == xcpfs_magic
    then (none, (info_of raw_super, read_nats raw_super.meta_nat_cnt 0 raw_super nm))
    else (some eio, (sbi, nm))
