-- ===== src/NatMgmt/Cache/Mount.antt =====
-- A round of the loop of `xcpfs_read_super` (xcpfs.c) that puts the super block's NAT entries into
-- the cache.
use xcpfs.Base.{ℕ, ◌≡◌, true, none, some, arith, ◌==◌, if◌then◌else◌}
use xcpfs.NatMgmt.Types.{NatInfo}
use xcpfs.NatMgmt.Cache.{find, lookup_cached, insert_nat, update_nat}

-- `struct xcpfs_nat_entry_sb`, unpacked
pub record SbNat : Type 0 where
  pub nid : ℕ
  pub ino : ℕ
  pub block_addr : ℕ

-- The condition `err = -EEXIST` is an assignment, so the update is made in either case.
unfoldable pub mount_nat : NatInfo → SbNat → NatInfo
mount_nat nm ne =
    if ne.nid == 0
    then nm
    else (update_nat (insert_nat nm ne.nid ne.ino ne.block_addr true true).1 ne.nid ne.block_addr
        true).1

-- The round with the comparison `err == -EEXIST`.
unfoldable pub meant : NatInfo → SbNat → NatInfo
meant nm ne =
    if ne.nid == 0
    then nm
    else let inserted = insert_nat nm ne.nid ne.ino ne.block_addr true true in
      elim inserted.0 [
        | none ↦ inserted.1
        | some err ↦ (update_nat inserted.1 ne.nid ne.block_addr true).1
      ]

-- The assignment does no harm: after an insertion that succeeded the update changes nothing.
pub mount_nat-meant : (nm : NatInfo) (ne : SbNat) → mount_nat nm ne ≡ meant nm ne
unfolding mount_nat meant insert_nat update_nat find lookup_cached
mount_nat-meant nm ne = ground arith
