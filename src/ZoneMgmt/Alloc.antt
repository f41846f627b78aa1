-- ===== src/ZoneMgmt/Alloc.antt =====
-- `get_empty_zone`, `get_zone` and `alloc_zone` of zone_mgmt.c: where a block is written next.
pub mod Choice
pub mod Search
pub mod Keeps
pub mod Progress
pub mod Write
pub mod Account
use xcpfs.Base.{
  ℕ, zero, suc, ◌+◌, ◌-◌, ◌/◌, ◌%◌, ◌^◌, Bool, true, false, ◌&&◌, ◌||◌, List, [], ◌∷◌, Option, none,
  some, ltb, ◌==◌, if◌then◌else◌,
}
use xcpfs.Base.Table.{update}
use xcpfs.Format.{page_sectors, PageType, type_code}
use xcpfs.ZoneMgmt.Types.{ZoneInfo, ZmInfo, is_empty, is_full}
use xcpfs.ZoneMgmt.Device.{BlockDevice, ReqOp, read}
use xcpfs.ZoneMgmt.Ops.{set_zone, xcpfs_zone_open}
use xcpfs.ZoneMgmt.Blocks.{blk2zone, invalidate_blkaddr}

-- The loop of `get_empty_zone` from zone `i` on, with `n` zones left.
unfoldable pub find_empty : ZmInfo → ℕ → ℕ → ℕ
find_empty zm zero i = 0
find_empty zm (suc n) i =
    let rest = find_empty zm n (i + 1) in
    let zi = zm.zone_info i in if is_empty zi.cond then zi.zone_id else rest

-- The first empty zone behind the two of the super block; zone 0 where there is none.
unfoldable pub get_empty_zone : ZmInfo → ℕ
get_empty_zone zm = find_empty zm (zm.nr_zones - 2) 2

abbrev pub zone_is_full : ZmInfo → ℕ → Bool
zone_is_full zm zone_id = is_full (zm.zone_info zone_id).cond

-- `sector_t` is an `unsigned long`.
abbrev pub u64 : ℕ
u64 = 2 ^ 64

abbrev pub long_max : ℕ
long_max = 2 ^ 63 - 1

-- The test of the `for` loop of `get_zone`.
abbrev pub is_better : ZoneInfo → ℕ → ℕ → Bool
is_better zi type inflight =
    zi.zone_type == type && ltb ((zi.wp + zi.write_inflight + u64 - zi.start) % u64) inflight

-- The `for` loop of `get_zone` over the slots that are left, with the best zone so far.
unfoldable pub best_zone : ZmInfo → ℕ → List (Option ℕ) → ℕ → Option ℕ → Option ℕ
best_zone zm type [] inflight tar = tar
best_zone zm type (none ∷ list) inflight tar = best_zone zm type list inflight tar
best_zone zm type (some i ∷ list) inflight tar =
    let zi = zm.zone_info i in
    let better = is_better zi type inflight in
    best_zone zm type list (if better then (zi.wp + zi.write_inflight) % u64 else inflight)
      (if better then some i else tar)

-- What `get_zone` comes to: a zone with the state and the checkpoint's `restart`; a fault, where it
-- follows the checkpoint pointer while that is NULL; or no answer within the rounds given.
pub data Found : Type 0 where
  done : ℕ → ZmInfo → Option Bool → Found
  null_deref : Found
  spinning : Found

-- `sbi->cpc->restart = true`, if `cp_sem` is held by anyone: `none` is the fault.
abbrev pub ask_restart : Bool → Option Bool → Option (Option Bool)
ask_restart true none = none
ask_restart true (some restart) = some (some true)
ask_restart false cpc = some cpc

-- The assignments that give a zone to a type.
unfoldable pub give_zone : ZmInfo → ℕ → ℕ → ZmInfo
give_zone zm zone_id type =
    let typed = set_zone zm zone_id (record (zm.zone_info zone_id) { zone_type = type }) in
    record typed { nr_type = update zm.nr_type type (zm.nr_type type + 1) }

-- The state when an empty zone has been opened for `type`. The return code of the open command is
-- not looked at.
unfoldable pub take_zone : BlockDevice → ZmInfo → ℕ → ZmInfo
take_zone bdev zm type =
    let zone_id = get_empty_zone zm in give_zone (xcpfs_zone_open bdev zm zone_id).1 zone_id type

module _ (bdev : BlockDevice) (cp_locked : Bool) (type : ℕ) where
  -- From the label `open` up to `goto retry`.
  unfoldable pub open_more : ZmInfo → Option Bool → Option (ZmInfo × Option Bool)
  open_more zm cpc =
      if ltb zm.zone_opened_count zm.max_open_zones
      then elim (ask_restart cp_locked cpc) [
        | none ↦ none
        | some cpc' ↦ some (take_zone bdev zm type, cpc')
      ]
      else some (zm, cpc)

  -- From the label `retry` on. Where no zone was found `inflight` is still LONG_MAX.
  unfoldable pub retry : ℕ → ZmInfo → Option Bool → Found
  retry zero zm cpc = spinning
  retry (suc fuel) zm cpc = elim (best_zone zm type zm.zone_opened long_max none) [
    | some tar ↦ done (zm.zone_info tar).zone_id zm cpc
    | none ↦ elim (open_more zm cpc) [ none ↦ null_deref | some (zm', cpc') ↦ retry fuel zm' cpc' ]
  ]

  unfoldable pub get_zone : ℕ → ZmInfo → Option Bool → Found
  get_zone fuel zm cpc =
      if ltb (zm.nr_type type) (zm.limit_type type)
      then elim (open_more zm cpc) [ none ↦ null_deref | some (zm', cpc') ↦ retry fuel zm' cpc' ]
      else retry fuel zm cpc

-- the fields of `struct xcpfs_io_info` that `alloc_zone` uses
pub record AllocReq : Type 0 where
  pub op : ReqOp
  pub old_blkaddr : ℕ
  pub type : PageType

abbrev pub is_read : ReqOp → Bool
is_read read = true
is_read _ = false

-- The end of `alloc_zone`, for the zone chosen: `new_blkaddr` stands in place of the zone.
abbrev pub place : ℕ → Found → Found
place old (done zone_id zm cpc) =
    done ((zm.zone_info zone_id).start / page_sectors) (invalidate_blkaddr zm old) cpc
place old null_deref = null_deref
place old spinning = spinning

unfoldable pub alloc_zone : BlockDevice → Bool → ℕ → AllocReq → ZmInfo → Option Bool → Found
alloc_zone bdev cp_locked fuel xio zm cpc =
    let old = xio.old_blkaddr in
    let zone_id = blk2zone zm old in
    let chosen = get_zone bdev cp_locked (type_code xio.type) fuel zm cpc in
    if is_read xio.op
    then done old zm cpc
    else place old (if zone_is_full zm zone_id || zone_id == 0 then chosen else done zone_id zm cpc)
