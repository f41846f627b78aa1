-- ===== src/ZoneMgmt/Reach.antt =====
-- The zones under sequences of zone commands, finished writes, releases and choices of a zone.
-- Each of these holds the spin lock for its whole length, so those of several threads come one after
-- the other; `alloc_zone` is a choice and then a release, with other steps between the two. `Step`
-- says which calls are left out.
use xcpfs.Base.{
  sym, ◌∙◌, ℕ, ◌+◌, ◌≤◌, ◌≡◌, ◌≢◌, refl, inl, inr, Bool, Option, arith, ◌==◌, Bool-cases,
}
use xcpfs.ZoneMgmt.Types.{ZmInfo, ZoneInfo, imp_open}
use xcpfs.ZoneMgmt.Device.{BlockDevice, ReqOp, zone_open}
use xcpfs.ZoneMgmt.Slots.Tracks.{Tracks-le, remove_zone_opened_lem, remove_zone_active_lem}
use xcpfs.ZoneMgmt.Ops.{mark_closed, mark_finished, mark_reset, xcpfs_zone_mgmt}
use xcpfs.ZoneMgmt.Ops.Invariant.{
  ZonesInv, TakesOpen, xcpfs_zone_mgmt-ZonesInv, zone_info-mark_open, xcpfs_zone_open_cases,
  xcpfs_zone_close_cases, xcpfs_zone_finish_cases, xcpfs_zone_reset_cases,
}
use xcpfs.ZoneMgmt.Blocks.{
  blk2zone, blk_index, marked, mark_full, validate_blkaddr, invalidate_blkaddr,
}
use xcpfs.ZoneMgmt.Blocks.Invariant.{validate_blkaddr-ZonesInv}
use xcpfs.ZoneMgmt.Alloc.{Found, done, get_zone}
use xcpfs.ZoneMgmt.Alloc.Keeps.{AllocInv, get_zone_keeps, take_zone-AllocInv}
use xcpfs.ZoneMgmt.Alloc.Search.{Finds}
use xcpfs.ZoneMgmt.Alloc.Account.{invalidate_blkaddr-AllocInv}

-- One call. Zone commands and finished writes are for zones other than the super block's first, and an
-- open command is not for a zone that is open implicitly, which the code would list a second time.
pub data Step (bdev : BlockDevice) : ZmInfo → ZmInfo → Type 0 where
  manage :
      (zm : ZmInfo) (z : ℕ) (op : ReqOp)
      → z ≢ 0
      → ((zm.zone_info z).cond ≡ imp_open → op ≢ zone_open)
      → TakesOpen bdev zm z
      → Step bdev zm (xcpfs_zone_mgmt bdev zm z op).1
  written : (zm : ZmInfo) (b : ℕ) → blk2zone zm b ≢ 0 → Step bdev zm (validate_blkaddr zm b)
  released : (zm : ZmInfo) (b : ℕ) → Step bdev zm (invalidate_blkaddr zm b)
  chosen :
      (zm zm' : ZmInfo) (locked : Bool) (type fuel zone_id : ℕ) (cpc cpc' : Option Bool)
      → get_zone bdev locked type fuel zm cpc ≡ done zone_id zm' cpc'
      → Step bdev zm zm'

pub data Reach (bdev : BlockDevice) (start : ZmInfo) : ZmInfo → Type 0 where
  here : Reach bdev start start
  next : {zm zm' : ZmInfo} → Reach bdev start zm → Step bdev zm zm' → Reach bdev start zm'

-- A change at another zone than 0 that leaves the indices leaves the rest of the invariant.
abbrev Elsewhere : ZmInfo → ZmInfo → Type 0
Elsewhere zm zm' =
    ((z : ℕ) → (zm'.zone_info z).zone_id ≡ (zm.zone_info z).zone_id)
    × ((zm'.zone_info 0).cond ≡ (zm.zone_info 0).cond)

module _ (bdev : BlockDevice) (zm : ZmInfo) (z : ℕ) (other : z ≢ 0) where
  same : Elsewhere zm zm
  same = (λ i. refl, refl)

  closed : Elsewhere zm (mark_closed zm z)
  unfolding mark_closed
  closed = rw (remove_zone_opened_lem zm z) (λ i. ground arith, ground arith)

  finished : Elsewhere zm (mark_finished zm z)
  unfolding mark_finished
  finished =
      rw (remove_zone_active_lem, remove_zone_opened_lem zm z) (λ i. ground arith, ground arith)

  reset : Elsewhere zm (mark_reset zm z)
  unfolding mark_reset
  reset = rw (remove_zone_active_lem, remove_zone_opened_lem zm z) (λ i. ground arith, ground arith)

  manage-Elsewhere : (op : ReqOp) → Elsewhere zm (xcpfs_zone_mgmt bdev zm z op).1
  unfolding xcpfs_zone_mgmt
  manage-Elsewhere ReqOp.zone_open =
      xcpfs_zone_open_cases (Elsewhere zm) bdev zm z same
        (λ _ _ _ _. rw (zone_info-mark_open zm z) (λ i. ground arith, ground arith))
  manage-Elsewhere ReqOp.zone_close =
      xcpfs_zone_close_cases (Elsewhere zm) bdev zm z same (λ _. closed)
  manage-Elsewhere ReqOp.zone_finish =
      xcpfs_zone_finish_cases (Elsewhere zm) bdev zm z same finished
  manage-Elsewhere ReqOp.zone_reset = xcpfs_zone_reset_cases (Elsewhere zm) bdev zm z same reset
  manage-Elsewhere ReqOp.read = same
  manage-Elsewhere ReqOp.zone_append = same

mark_full-Elsewhere :
    (zm : ZmInfo) (z : ℕ) (zi : ZoneInfo)
    → z ≢ 0
    → zi.zone_id ≡ (zm.zone_info z).zone_id
    → Elsewhere zm (mark_full zm z zi)
unfolding mark_full
mark_full-Elsewhere zm z zi other e =
    rw (remove_zone_opened_lem, remove_zone_active_lem) (λ i. ground arith, ground arith)

Elsewhere-AllocInv :
    {zm zm' : ZmInfo} → ZonesInv zm' → Elsewhere zm zm' → AllocInv zm → AllocInv zm'
Elsewhere-AllocInv {zm} {zm'} zones (ids, first) v = record {
  zones = zones;
  indexed = λ z. ids z ∙ v.indexed z;
  sb_ready = (λ h. v.sb_ready.0 (sym first ∙ h), rw first v.sb_ready.1);
}

written-Elsewhere : (zm : ZmInfo) (b : ℕ) → blk2zone zm b ≢ 0 → Elsewhere zm (validate_blkaddr zm b)
unfolding validate_blkaddr
written-Elsewhere zm b other =
    let z = blk2zone zm b in
    let zi = marked (zm.zone_info z) (blk_index zm b) b in
    elim (Bool-cases (zi.wp == zm.zone_capacity + zi.start)) [
      | inl e ↦ rw e (mark_full-Elsewhere zm z zi other refl)
      | inr e ↦ rw e (λ i. ground arith, ground arith)
    ]

Found-done :
    (found : Found) {z : ℕ} {zm : ZmInfo} {cpc : Option Bool}
    → Finds (λ _. AllocInv) found
    → found ≡ done z zm cpc
    → AllocInv zm
Found-done found h e = rw e at h

Step-AllocInv :
    {bdev : BlockDevice} {zm zm' : ZmInfo} → Step bdev zm zm' → AllocInv zm → AllocInv zm'
Step-AllocInv {bdev} (manage zm z op other explicit takes) v =
    Elsewhere-AllocInv (xcpfs_zone_mgmt-ZonesInv bdev zm z v.zones op explicit takes)
      (manage-Elsewhere bdev zm z other op) v
Step-AllocInv (written zm b other) v =
    Elsewhere-AllocInv (validate_blkaddr-ZonesInv zm b v.zones) (written-Elsewhere zm b other) v
Step-AllocInv (released zm b) v = invalidate_blkaddr-AllocInv zm b v
Step-AllocInv {bdev} (chosen zm zm' locked type fuel zone_id cpc cpc' e) v =
    Found-done (get_zone bdev locked type fuel zm cpc)
      (get_zone_keeps bdev locked type AllocInv (λ zm'' v'. take_zone-AllocInv bdev zm'' v' type)
        fuel zm cpc v)
      e

Reach-AllocInv :
    {bdev : BlockDevice} {zm zm' : ZmInfo} → AllocInv zm → Reach bdev zm zm' → AllocInv zm'
Reach-AllocInv v here = v
Reach-AllocInv v (next r s) = Step-AllocInv s (Reach-AllocInv v r)

-- A state in order is one in which the two lists agree with the zones, each zone has its own index,
-- and zone 0 is usable and not implicitly open. From such a state a sequence of steps leads to such a
-- state, with no more zones open or active than the device allows. A step is a release, a choice of a
-- zone, the end of a write in a zone other than zone 0, or a command for a zone other than zone 0,
-- where an open command is not for a zone that a write has opened implicitly and the device takes it
-- only for a zone that is neither full nor out of order.
pub Reach-limits :
    {bdev : BlockDevice} {zm zm' : ZmInfo}
    → AllocInv zm
    → Reach bdev zm zm'
    → AllocInv zm'
      × (zm'.zone_opened_count ≤ zm'.max_open_zones)
      × (zm'.zone_active_count ≤ zm'.max_active_zones)
Reach-limits v r =
    let w = Reach-AllocInv v r in (w, Tracks-le w.zones.opened 0, Tracks-le w.zones.active 0)
