-- ===== src/ZoneMgmt/Blocks.antt =====
-- `validate_blkaddr` and `invalidate_blkaddr` of zone_mgmt.c: the block counters and bitmaps. The
-- spin lock makes each one step.
pub mod Account
pub mod Invariant
pub mod Owners
use xcpfs.Base.{ℕ, ◌+◌, ◌*◌, ◌/◌, ◌%◌, Bool, true, false, ◌==◌, if◌then◌else◌, max}
use xcpfs.Base.Table.{update}
use xcpfs.Base.Int.{add_one, sub_one}
use xcpfs.Format.{page_sectors}
use xcpfs.ZoneMgmt.Types.{ZoneInfo, ZmInfo, full, zone_blocks}
use xcpfs.ZoneMgmt.Slots.{remove_zone_opened, remove_zone_active}
use xcpfs.ZoneMgmt.Ops.{set_zone}

unfoldable pub blk2zone : ZmInfo → ℕ → ℕ
blk2zone zm iblock = iblock / zone_blocks zm

-- `blkaddr % (zm->zone_size >> PAGE_SECTORS_SHIFT)`
unfoldable pub blk_index : ZmInfo → ℕ → ℕ
blk_index zm iblock = iblock % zone_blocks zm

-- The zone's record after `validate_blkaddr`, its condition aside. The address is below 2^28, so
-- that its sector is an `int` too.
abbrev pub marked : ZoneInfo → ℕ → ℕ → ZoneInfo
marked zi idx blkaddr = record zi {
  valid_map = update zi.valid_map idx true;
  vblocks = add_one zi.vblocks;
  dirty = true;
  wp = max zi.wp ((blkaddr + 1) * page_sectors);
}

-- What `validate_blkaddr` does with a zone whose last block was written.
unfoldable pub mark_full : ZmInfo → ℕ → ZoneInfo → ZmInfo
mark_full zm zone_id zi =
    let stored = set_zone zm zone_id (record zi { cond = full }) in
    (remove_zone_opened (remove_zone_active stored zone_id).1 zone_id).1

unfoldable pub validate_blkaddr : ZmInfo → ℕ → ZmInfo
validate_blkaddr zm blkaddr =
    let zone_id = blk2zone zm blkaddr in
    let zi = marked (zm.zone_info zone_id) (blk_index zm blkaddr) blkaddr in
    if zi.wp == zm.zone_capacity + zi.start then mark_full zm zone_id zi else set_zone zm zone_id zi

unfoldable pub invalidate_blkaddr : ZmInfo → ℕ → ZmInfo
invalidate_blkaddr zm blkaddr =
    let zone_id = blk2zone zm blkaddr in
    let zi = zm.zone_info zone_id in
    set_zone zm zone_id (record zi {
      valid_map = update zi.valid_map (blk_index zm blkaddr) false;
      vblocks = sub_one zi.vblocks;
      dirty = true;
    })
