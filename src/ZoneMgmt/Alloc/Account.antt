-- ===== src/ZoneMgmt/Alloc/Account.antt =====
-- `alloc_zone` and the block counters: the block that is replaced, and the one that never was.
use xcpfs.Base.{
  ℕ, ◌<◌, ◌≡◌, refl, inl, inr, Bool, true, false, ◌||◌, Option, arith, ◌==◌, Bool-cases,
}
use xcpfs.Base.Int.{sub_one}
use xcpfs.Format.{type_code}
use xcpfs.ZoneMgmt.Types.{ZmInfo, zone_blocks}
use xcpfs.ZoneMgmt.Device.{BlockDevice}
use xcpfs.ZoneMgmt.Ops.Invariant.{set_zone-ZonesInv}
use xcpfs.ZoneMgmt.Blocks.{blk2zone, invalidate_blkaddr}
use xcpfs.ZoneMgmt.Blocks.Account.{
  IsCounted, is_valid, is_valid-invalidate, invalidate-IsCounted, vblocks-invalidate,
}
use xcpfs.ZoneMgmt.Alloc.{AllocReq, is_read, zone_is_full, get_zone, alloc_zone, take_zone}
use xcpfs.ZoneMgmt.Alloc.Search.{Finds}
use xcpfs.ZoneMgmt.Alloc.Keeps.{AllocInv, get_zone_keeps, take_zone-AllocInv}
use xcpfs.ZoneMgmt.Alloc.Write.{
  SameBlocks, SameBlocks-refl, take_zone-SameBlocks, is_valid-SameBlocks, place-Finds,
}

pub invalidate_blkaddr-AllocInv :
    (zm : ZmInfo) (b : ℕ) → AllocInv zm → AllocInv (invalidate_blkaddr zm b)
unfolding invalidate_blkaddr
invalidate_blkaddr-AllocInv zm b v = record {
  zones = set_zone-ZonesInv zm (blk2zone zm b) _ refl v.zones;
  indexed = λ z. ground (arith, v.indexed z, v.indexed (blk2zone zm b));
  sb_ready = (λ h. ground (arith, v.sb_ready.0), ground (arith, v.sb_ready.1));
}

blk2zone-zero : (zm : ZmInfo) → blk2zone zm 0 ≡ 0
unfolding blk2zone
blk2zone-zero zm = omega arith

IsCounted-SameBlocks :
    (zm zm' : ZmInfo) (z : ℕ) → SameBlocks zm zm' → IsCounted zm z → IsCounted zm' z
IsCounted-SameBlocks zm zm' z s h = rw (s.same_size, s.same_map z, s.same_vblocks z) h

module _ (bdev : BlockDevice) (cp_locked : Bool) (fuel : ℕ) (xio : AllocReq) (zm : ZmInfo)
    (cpc : Option Bool) (writes : is_read xio.op ≡ false) where
  abbrev old : ℕ
  old = xio.old_blkaddr

  -- Where a property holds of the state that the zone is chosen in, `alloc_zone` ends in that state
  -- with the old block released.
  alloc_zone_keeps :
      (P Q : ZmInfo → Type 0)
      → P zm
      → ((zm' : ZmInfo) → P zm' → P (take_zone bdev zm' (type_code xio.type)))
      → ((zm' : ZmInfo) → P zm' → Q (invalidate_blkaddr zm' old))
      → Finds (λ _. Q) (alloc_zone bdev cp_locked fuel xio zm cpc)
  unfolding alloc_zone
  alloc_zone_keeps P Q start take release =
      let own = blk2zone zm old in
      let type = type_code xio.type in
      rw writes (elim (Bool-cases (zone_is_full zm own || own == 0)) [
        | inl elsewhere ↦ rw elsewhere (
            place-Finds (λ _. Q) (λ _. P) old (get_zone bdev cp_locked type fuel zm cpc)
              (get_zone_keeps bdev cp_locked type P take fuel zm cpc start) (λ z zm'. release zm'))
        | inr here ↦ rw here (release zm start)
      ])

  -- The lists of open and active zones stay right while a place for a write is sought.
  pub alloc_zone-AllocInv :
      AllocInv zm → Finds (λ _. AllocInv) (alloc_zone bdev cp_locked fuel xio zm cpc)
  alloc_zone-AllocInv v =
      alloc_zone_keeps AllocInv AllocInv v (λ zm' v'. take_zone-AllocInv bdev zm' v' _)
        (λ zm'. invalidate_blkaddr-AllocInv zm' old)

  -- Where the old block was valid, every zone's counter goes on counting its valid blocks.
  pub alloc_zone-IsCounted :
      0 < zone_blocks zm
      → is_valid zm old ≡ true
      → ((z : ℕ) → IsCounted zm z)
      → Finds (λ _ zm'. (z : ℕ) → IsCounted zm' z) (alloc_zone bdev cp_locked fuel xio zm cpc)
  alloc_zone-IsCounted positive valid counted =
      alloc_zone_keeps (SameBlocks zm) (λ zm'. (z : ℕ) → IsCounted zm' z) (SameBlocks-refl zm)
        (λ zm'. take_zone-SameBlocks bdev zm zm' _)
        (λ zm' s z.
          invalidate-IsCounted zm' old (rw s.same_size positive)
            (rw (is_valid-SameBlocks zm zm' old s) valid) z
            (IsCounted-SameBlocks zm zm' z s (counted z)))

  -- A block that is written for the first time has the address 0 for its old one: the block counter
  -- of zone 0 is lowered for it, and the bit of the super block's first block is cleared.
  pub alloc_zone_new_block :
      old ≡ 0
      → Finds
          (λ _ zm'.
            ((zm'.zone_info 0).vblocks ≡ sub_one (zm.zone_info 0).vblocks)
            × (is_valid zm' 0 ≡ false))
          (alloc_zone bdev cp_locked fuel xio zm cpc)
  alloc_zone_new_block e =
      alloc_zone_keeps (SameBlocks zm)
        (λ zm'.
          ((zm'.zone_info 0).vblocks ≡ sub_one (zm.zone_info 0).vblocks) × (is_valid zm' 0 ≡ false))
        (SameBlocks-refl zm) (λ zm'. take_zone-SameBlocks bdev zm zm' _)
        (λ zm' s. rw e (first_block zm' s))
    where
      first_block :
          (zm' : ZmInfo)
          → SameBlocks zm zm'
          → (((invalidate_blkaddr zm' 0).zone_info 0).vblocks ≡ sub_one (zm.zone_info 0).vblocks)
            × (is_valid (invalidate_blkaddr zm' 0) 0 ≡ false)
      first_block zm' s = (
        rw (vblocks-invalidate zm' 0 0, blk2zone-zero zm', s.same_vblocks 0),
        is_valid-invalidate zm' 0 0,
      )
