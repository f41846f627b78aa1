-- ===== src/ZoneMgmt/Report.antt =====
-- `xcpfs_report_zones_cb` of xcpfs.c: the device reports its zones at a mount, one call for each.
pub mod Appended
use xcpfs.Base.{
  ℕ, suc, ◌+◌, Bool, true, false, List, [], ◌∷◌, Option, none, some, set, if◌then◌else◌,
}
use xcpfs.ZoneMgmt.Types.{ZoneInfo, ZmInfo, Cond, is_open, is_active}
use xcpfs.ZoneMgmt.Ops.{set_zone}

-- `struct blk_zone` of the kernel, as far as the code reads it.
pub record BlkZone : Type 0 where
  pub start : ℕ
  pub len : ℕ
  pub wp : ℕ
  pub cond : Cond
  pub capacity : ℕ

-- `zone_opened[zone_opened_count++]`. (A write behind the slots is to other memory.)
abbrev pub push_opened : ZmInfo → ℕ → ZmInfo
push_opened zm idx = record zm {
  zone_opened = set zm.zone_opened zm.zone_opened_count (some idx);
  zone_opened_count = zm.zone_opened_count + 1;
}

abbrev pub push_active : ZmInfo → ℕ → ZmInfo
push_active zm idx = record zm {
  zone_active = set zm.zone_active zm.zone_active_count (some idx);
  zone_active_count = zm.zone_active_count + 1;
}

unfoldable pub report_zone : ZmInfo → ℕ → BlkZone → ZmInfo
report_zone zm idx zone =
    let sized = record zm { zone_size = zone.len; zone_capacity = zone.capacity } in
    let known = set_zone sized idx (record (zm.zone_info idx) {
      cond = zone.cond;
      wp = zone.wp;
      zone_id = idx;
      start = zone.start;
    }) in
    if is_open zone.cond
    then push_active (push_opened known idx) idx
    else if is_active zone.cond
    then push_active known idx
    else known

-- All calls, from zone `idx` on.
unfoldable pub report_zones : ZmInfo → ℕ → List BlkZone → ZmInfo
report_zones zm idx [] = zm
report_zones zm idx (zone ∷ rest) = report_zones (report_zone zm idx zone) (idx + 1) rest
