-- ===== src/ZoneMgmt/Blocks/Invariant.antt =====
-- The lists of open and active zones across the writes and releases of blocks.
use xcpfs.Base.{ℕ, ◌+◌, refl, arith, ◌==◌, inl, inr, Bool-cases}
use xcpfs.ZoneMgmt.Types.{ZoneInfo, ZmInfo}
use xcpfs.ZoneMgmt.Slots.Tracks.{
  remove_zone-Tracks, Tracks-ext, remove_zone_opened_lem, remove_zone_active_lem,
}
use xcpfs.ZoneMgmt.Ops.Invariant.{ZonesInv, set_zone-ZonesInv}
use xcpfs.ZoneMgmt.Blocks.{
  blk2zone, blk_index, marked, mark_full, validate_blkaddr, invalidate_blkaddr,
}

mark_full-ZonesInv :
    (zm : ZmInfo) (z : ℕ) (zi : ZoneInfo) → ZonesInv zm → ZonesInv (mark_full zm z zi)
unfolding mark_full
mark_full-ZonesInv zm z zi v =
    rw (remove_zone_opened_lem, remove_zone_active_lem)
      (record {
        opened = Tracks-ext (λ x. ground arith) (remove_zone-Tracks v.opened z);
        active = Tracks-ext (λ x. ground arith) (remove_zone-Tracks v.active z);
      })

-- A block that becomes valid keeps the lists right: a zone that is full leaves both of them.
pub validate_blkaddr-ZonesInv :
    (zm : ZmInfo) (blkaddr : ℕ) → ZonesInv zm → ZonesInv (validate_blkaddr zm blkaddr)
unfolding validate_blkaddr
validate_blkaddr-ZonesInv zm blkaddr v =
    let z = blk2zone zm blkaddr in
    let zi = marked (zm.zone_info z) (blk_index zm blkaddr) blkaddr in
    elim (Bool-cases (zi.wp == zm.zone_capacity + zi.start)) [
      | inl e ↦ rw e (mark_full-ZonesInv zm z zi v)
      | inr e ↦ rw e (set_zone-ZonesInv zm z zi refl v)
    ]

pub invalidate_blkaddr-ZonesInv :
    (zm : ZmInfo) (blkaddr : ℕ) → ZonesInv zm → ZonesInv (invalidate_blkaddr zm blkaddr)
unfolding invalidate_blkaddr
invalidate_blkaddr-ZonesInv zm blkaddr v = set_zone-ZonesInv zm (blk2zone zm blkaddr) _ refl v
