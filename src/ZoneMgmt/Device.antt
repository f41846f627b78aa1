-- ===== src/ZoneMgmt/Device.antt =====
-- `xcpfs_blkdev_zone_mgmt` of zone_mgmt.c: a command to the zoned block device.
use xcpfs.Base.{
  ℕ, zero, suc, ◌+◌, Bool, true, false, not, ◌&&◌, ◌||◌, List, [], ◌∷◌, some, ltb, leb, ◌==◌,
  if◌then◌else◌,
}
use xcpfs.Errno.{Ret, eperm, einval, eopnotsupp}

-- `enum req_op` of the kernel, as far as the code names it.
pub data ReqOp : Type 0 where
  read zone_append zone_open zone_close zone_finish zone_reset : ReqOp

-- `op_is_zone_mgmt` of the kernel.
abbrev pub op_is_zone_mgmt : ReqOp → Bool
op_is_zone_mgmt read = false
op_is_zone_mgmt zone_append = false
op_is_zone_mgmt _ = true

-- What the kernel says of the device, and what becomes of a chain of requests, one for each sector
-- given. These are parameters of the model.
pub record BlockDevice : Type 0 where
  pub is_zoned : Bool
  pub read_only : Bool
  pub zone_sectors : ℕ
  pub nr_sectors : ℕ
  pub is_zone_start : ℕ → Bool
  pub submit : ReqOp → List ℕ → Ret

-- The `while` loop: the sectors of the requests that it chains. Each round goes on by
-- `zone_sectors`, so for a device that has zones `end - sector` rounds are enough.
unfoldable pub chain : ℕ → ℕ → ℕ → ℕ → List ℕ
chain zero zone_sectors sector end_sector = []
chain (suc fuel) zone_sectors sector end_sector =
    let rest = sector ∷ chain fuel zone_sectors (sector + zone_sectors) end_sector in
    if ltb sector end_sector then rest else []

unfoldable pub blkdev_zone_mgmt : BlockDevice → ReqOp → ℕ → ℕ → Ret
unfolding chain
blkdev_zone_mgmt bdev op sector nr_sectors =
    let end_sector = sector + nr_sectors in
    let capacity = bdev.nr_sectors in
    if not bdev.is_zoned
    then some eopnotsupp
    else if bdev.read_only
    then some eperm
    else if not (op_is_zone_mgmt op)
    then some eopnotsupp
    else if leb end_sector sector || ltb capacity end_sector
    then some einval
    else if not (bdev.is_zone_start sector)
    then some einval
    else if not (bdev.is_zone_start nr_sectors) && not (end_sector == capacity)
    then some einval
    else bdev.submit op (chain nr_sectors bdev.zone_sectors sector end_sector)
