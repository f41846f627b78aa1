-- ===== src/ZoneMgmt/Types.antt =====
-- The state of zone_mgmt.c, from xcpfs.h. Sector numbers and counters are numbers; `vblocks`, which
-- the code lowers with no check, is an integer. An array over zones, and a bitmap, is a function of
-- the index; a pointer into `zone_info` is the zone's index there.
use xcpfs.Base.{ℕ, Bool, true, false, List, Option, ◌/◌}
use xcpfs.Base.Int.{ℤ}
use xcpfs.Format.{page_sectors}

-- `enum blk_zone_cond` of the kernel.
pub data Cond : Type 0 where
  not_wp empty imp_open exp_open closed readonly full offline : Cond

abbrev pub is_empty : Cond → Bool
is_empty empty = true
is_empty _ = false

abbrev pub is_exp_open : Cond → Bool
is_exp_open exp_open = true
is_exp_open _ = false

abbrev pub is_closed : Cond → Bool
is_closed closed = true
is_closed _ = false

abbrev pub is_full : Cond → Bool
is_full full = true
is_full _ = false

-- open, by a command or by a write
abbrev pub is_open : Cond → Bool
is_open imp_open = true
is_open exp_open = true
is_open _ = false

-- open or closed: the zone holds one of the device's active resources
abbrev pub is_active : Cond → Bool
is_active imp_open = true
is_active exp_open = true
is_active closed = true
is_active _ = false

-- neither full nor out of order
abbrev pub is_usable : Cond → Bool
is_usable empty = true
is_usable imp_open = true
is_usable exp_open = true
is_usable closed = true
is_usable _ = false

pub record ZoneInfo : Type 0 where
  pub zone_id : ℕ
  pub cond : Cond
  pub wp : ℕ
  pub start : ℕ
  pub write_inflight : ℕ
  pub dirty : Bool
  pub zone_type : ℕ
  pub vblocks : ℤ
  pub valid_map : ℕ → Bool

pub record ZmInfo : Type 0 where
  pub zone_size : ℕ
  pub zone_capacity : ℕ
  pub nr_zones : ℕ
  pub max_open_zones : ℕ
  pub max_active_zones : ℕ
  pub nr_type : ℕ → ℕ
  pub limit_type : ℕ → ℕ
  pub zone_info : ℕ → ZoneInfo
  pub zone_opened_count : ℕ
  pub zone_opened : List (Option ℕ)
  pub zone_active_count : ℕ
  pub zone_active : List (Option ℕ)

-- `zm->zone_size >> PAGE_SECTORS_SHIFT`: the blocks from one zone's start to the next.
abbrev pub zone_blocks : ZmInfo → ℕ
zone_blocks zm = zm.zone_size / page_sectors
