-- ===== src/ZoneMgmt/Ops.antt =====
-- The zone commands of zone_mgmt.c. A command answers with its return code and the new state; where
-- the device refuses, or a guard fails, the state stays as it was. The spin lock makes each command
-- one step.
pub mod Invariant
use xcpfs.Base.{ℕ, ◌+◌, ◌≡◌, Bool, true, false, Option, none, some, ◌==◌, if◌then◌else◌}
use xcpfs.Base.Table.{update}
use xcpfs.Errno.{Ret, eio, emaxopen, emaxactive, ezone}
use xcpfs.ZoneMgmt.Types.{
  ZoneInfo, ZmInfo, Cond, empty, exp_open, closed, full, is_empty, is_exp_open, is_closed,
}
use xcpfs.ZoneMgmt.Device.{
  BlockDevice, ReqOp, zone_open, zone_close, zone_finish, zone_reset, blkdev_zone_mgmt,
}
use xcpfs.ZoneMgmt.Slots.{
  insert_zone_opened, remove_zone_opened, insert_zone_active, remove_zone_active,
}

-- the assignments to one zone's record
abbrev pub set_zone : ZmInfo → ℕ → ZoneInfo → ZmInfo
set_zone zm zone_id zi = record zm { zone_info = update zm.zone_info zone_id zi }

-- What follows the device's answer: nothing if it is an error.
abbrev pub on_success : Ret → ZmInfo → ZmInfo → Ret × ZmInfo
on_success none before after = (none, after)
on_success (some e) before after = (some e, before)

-- The bookkeeping of `xcpfs_zone_open` after the device's answer, and so on below.
unfoldable pub mark_open : ZmInfo → ℕ → ZmInfo
mark_open zm zone_id =
    let zi = zm.zone_info zone_id in
    let opened = (insert_zone_opened zm zone_id).1 in
    let both = if is_closed zi.cond then opened else (insert_zone_active opened zone_id).1 in
    set_zone both zone_id (record zi { cond = exp_open; dirty = true })

unfoldable pub mark_closed : ZmInfo → ℕ → ZmInfo
mark_closed zm zone_id =
    set_zone (remove_zone_opened zm zone_id).1 zone_id
      (record (zm.zone_info zone_id) { cond = closed; dirty = true })

abbrev pub drop_zone : ZmInfo → ℕ → ZmInfo
drop_zone zm zone_id = (remove_zone_active (remove_zone_opened zm zone_id).1 zone_id).1

unfoldable pub mark_finished : ZmInfo → ℕ → ZmInfo
mark_finished zm zone_id =
    set_zone (drop_zone zm zone_id) zone_id
      (record (zm.zone_info zone_id) { cond = full; wp = zm.zone_capacity; dirty = true })

unfoldable pub mark_reset : ZmInfo → ℕ → ZmInfo
mark_reset zm zone_id =
    set_zone (drop_zone zm zone_id) zone_id
      (record (zm.zone_info zone_id) { cond = empty; wp = 0; dirty = true })

module _ (bdev : BlockDevice) (zm : ZmInfo) (zone_id : ℕ) where
  -- the command to the device about this zone
  abbrev pub send : ReqOp → Ret
  send op = blkdev_zone_mgmt bdev op (zm.zone_info zone_id).start zm.zone_size

  unfoldable pub xcpfs_zone_open : Ret × ZmInfo
  xcpfs_zone_open =
      if is_exp_open (zm.zone_info zone_id).cond
      then (none, zm)
      else if zm.zone_opened_count == zm.max_open_zones
      then (some emaxopen, zm)
      else if zm.zone_active_count == zm.max_active_zones
      then (some emaxactive, zm)
      else on_success (send zone_open) zm (mark_open zm zone_id)

  unfoldable pub xcpfs_zone_close : Ret × ZmInfo
  xcpfs_zone_close =
      if is_exp_open (zm.zone_info zone_id).cond
      then on_success (send zone_close) zm (mark_closed zm zone_id)
      else (some ezone, zm)

  unfoldable pub xcpfs_zone_finish : Ret × ZmInfo
  xcpfs_zone_finish =
      if is_empty (zm.zone_info zone_id).cond
      then (some ezone, zm)
      else on_success (send zone_finish) zm (mark_finished zm zone_id)

  unfoldable pub xcpfs_zone_reset : Ret × ZmInfo
  xcpfs_zone_reset = on_success (send zone_reset) zm (mark_reset zm zone_id)

  unfoldable pub xcpfs_zone_mgmt : ReqOp → Ret × ZmInfo
  xcpfs_zone_mgmt zone_open = xcpfs_zone_open
  xcpfs_zone_mgmt zone_close = xcpfs_zone_close
  xcpfs_zone_mgmt zone_finish = xcpfs_zone_finish
  xcpfs_zone_mgmt zone_reset = xcpfs_zone_reset
  xcpfs_zone_mgmt _ = (some eio, zm)
