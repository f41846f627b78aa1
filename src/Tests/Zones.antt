-- ===== src/Tests/Zones.antt =====
-- Zone commands and finished writes.
use xcpfs.Base.{List, [], none, some, length, ◌∷◌, ◌*◌, ◌+◌, ◌≤◌, ℕ, ◌≡◌, refl, arith}
use xcpfs.ZoneMgmt.Types.{Cond, empty, imp_open, closed, ZmInfo}
use xcpfs.ZoneMgmt.Device.{zone_open, blkdev_zone_mgmt}
use xcpfs.ZoneMgmt.Slots.{insert_zone, insert_zone_opened, insert_zone_active}
use xcpfs.ZoneMgmt.Ops.{mark_open, xcpfs_zone_open, xcpfs_zone_mgmt}
use xcpfs.ZoneMgmt.Ops.Invariant.{ZonesInv, xcpfs_zone_mgmt-ZonesInv}
use xcpfs.ZoneMgmt.Blocks.{blk2zone, validate_blkaddr, invalidate_blkaddr}
use xcpfs.ZoneMgmt.Blocks.Account.{count_bits, IsCounted}
use xcpfs.ZoneMgmt.Alloc.Keeps.{AllocInv}
use xcpfs.ZoneMgmt.Report.{BlkZone, report_zones}
use xcpfs.ZoneMgmt.Report.Appended.{open_ids, active_ids, Appended, report_zones-Appended}
use xcpfs.ZoneMgmt.Reach.{manage, written, released, here, next, Reach-limits}
use xcpfs.Tests.Device.{bdev, new_zm, new_zm-ZonesInv, new_zm-AllocInv}

xcpfs_zone_mgmt-ZonesInv_example : ZonesInv (xcpfs_zone_mgmt bdev new_zm 3 zone_open).1
xcpfs_zone_mgmt-ZonesInv_example =
    xcpfs_zone_mgmt-ZonesInv bdev new_zm 3 new_zm-ZonesInv zone_open (λ e. ground (arith, e))
      (λ e. refl)

new_zm-IsCounted : (z : ℕ) → IsCounted new_zm z
unfolding count_bits
new_zm-IsCounted z = refl

-- zone 3 opened, its first block written and released
abbrev end_zm : ZmInfo
end_zm = invalidate_blkaddr (validate_blkaddr (xcpfs_zone_mgmt bdev new_zm 3 zone_open).1 24) 24

zone_of_24 : blk2zone (xcpfs_zone_mgmt bdev new_zm 3 zone_open).1 24 ≡ 3
unfolding blk2zone xcpfs_zone_mgmt xcpfs_zone_open blkdev_zone_mgmt mark_open insert_zone_opened
    insert_zone_active insert_zone
zone_of_24 = refl

Reach-limits_example :
    AllocInv end_zm
    × (end_zm.zone_opened_count ≤ end_zm.max_open_zones)
    × (end_zm.zone_active_count ≤ end_zm.max_active_zones)
Reach-limits_example = Reach-limits new_zm-AllocInv (
    next
      (next
        (next here (manage new_zm 3 zone_open (omega arith) (λ e. ground (arith, e)) (λ e. refl)))
        (written (xcpfs_zone_mgmt bdev new_zm 3 zone_open).1 24 (ground (arith, zone_of_24))))
      (released (validate_blkaddr (xcpfs_zone_mgmt bdev new_zm 3 zone_open).1 24) 24))

-- a report of three zones, one open, one closed and one empty
abbrev blk_zone : ℕ → Cond → BlkZone
blk_zone z cond = record { start = z * 64; len = 64; wp = z * 64 + 8; cond = cond; capacity = 64 }

abbrev report : List BlkZone
report = blk_zone 0 imp_open ∷ blk_zone 1 closed ∷ blk_zone 2 empty ∷ []

-- as `kmalloc` may leave the lists: each counts a slot that was never set
abbrev unset_zm : ZmInfo
unset_zm = record new_zm {
  zone_opened = some 9 ∷ none ∷ none ∷ none ∷ [];
  zone_opened_count = 1;
  zone_active = some 7 ∷ some 8 ∷ none ∷ none ∷ [];
  zone_active_count = 2;
}

few_open : 1 + length (open_ids 0 report) ≤ 4
unfolding open_ids
few_open = omega arith

few_active : 2 + length (active_ids 0 report) ≤ 4
unfolding active_ids
few_active = omega arith

report_zones-Appended_example :
    Appended
      (open_ids 0 report)
      unset_zm.zone_opened
      1
      (report_zones unset_zm 0 report).zone_opened
      (report_zones unset_zm 0 report).zone_opened_count
    × Appended
        (active_ids 0 report)
        unset_zm.zone_active
        2
        (report_zones unset_zm 0 report).zone_active
        (report_zones unset_zm 0 report).zone_active_count
report_zones-Appended_example = report_zones-Appended report unset_zm few_open few_active
