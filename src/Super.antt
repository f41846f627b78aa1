-- ===== src/Super.antt =====
-- The two zones of the super block: where `flush_super_block` of super.c writes it, and where
-- `xcpfs_read_super` of xcpfs.c looks for it.
pub mod Inodes
pub mod Written
pub mod Evicted
use xcpfs.Base.{
  ℕ, ◌+◌, ◌-◌, ◌*◌, ◌/◌, ◌%◌, ◌^◌, ◌<◌, ◌≡◌, Bool, true, false, arith, ltb, if◌then◌else◌,
}
use xcpfs.Format.{page_sectors}
use xcpfs.ZoneMgmt.Types.{ZmInfo, ZoneInfo, is_empty}
use xcpfs.ZoneMgmt.Ops.{set_zone}
use xcpfs.ZoneMgmt.Alloc.{u64}

-- `zone0->wp > zone1->wp - zm->zone_size`, on `sector_t`s
unfoldable pub first_is_ahead : ZmInfo → Bool
first_is_ahead zm = ltb (((zm.zone_info 1).wp + u64 - zm.zone_size) % u64) (zm.zone_info 0).wp

-- The zone that `flush_super_block` appends to.
unfoldable pub flush_zone_id : ZmInfo → ℕ
flush_zone_id zm =
    if is_empty (zm.zone_info 0).cond
    then 1
    else if is_empty (zm.zone_info 1).cond
    then 0
    else if first_is_ahead zm
    then 1
    else 0

-- `sector_to_block(zone->wp - 1)`, for a sector whose block is an `int`
unfoldable pub last_block : ZoneInfo → ℕ
last_block zi = (zi.wp + u64 - 1) % u64 / page_sectors

-- The block that `xcpfs_read_super` reads.
unfoldable pub sb_block : ZmInfo → ℕ
sb_block zm =
    if is_empty (zm.zone_info 0).cond
    then last_block (zm.zone_info 1)
    else if is_empty (zm.zone_info 1).cond
    then last_block (zm.zone_info 0)
    else if first_is_ahead zm
    then last_block (zm.zone_info 1)
    else last_block (zm.zone_info 0)

-- The zones as the next mount finds them after the append to a zone that is in use: the device moves
-- the write pointer.
unfoldable pub appended : ZmInfo → ZmInfo
appended zm =
    let z = flush_zone_id zm in
    set_zone zm z (record (zm.zone_info z) { wp = (zm.zone_info z).wp + page_sectors })

module _ (zm : ZmInfo) (first second size : ℕ) (used : is_empty (zm.zone_info 0).cond ≡ false)
    (first_wp : (zm.zone_info 0).wp ≡ first * page_sectors)
    (second_wp : (zm.zone_info 1).wp ≡ (size + second) * page_sectors)
    (zone_size : zm.zone_size ≡ size * page_sectors) (small : first < 2 ^ 28)
    (small_too : size + second < 2 ^ 28) where
  -- Zone 0 holds `first` super blocks. While zone 1 is empty, the super block goes to zone 0 and is the
  -- one read at the next mount. Where zone 1 holds `second` of them, it goes to the zone that holds
  -- fewer, zone 0 for a tie; and if both then hold the same number, or did so before, the next mount
  -- reads the last block of the other zone, an older super block.
  pub sb_block-appended :
      (is_empty (zm.zone_info 1).cond ≡ true
        → (flush_zone_id zm ≡ 0) × (sb_block (appended zm) ≡ first))
      × (is_empty (zm.zone_info 1).cond ≡ false
          → (second + 1 < first → (flush_zone_id zm ≡ 1) × (sb_block (appended zm) ≡ size + second))
            × (second + 1 ≡ first → (flush_zone_id zm ≡ 1) × (sb_block (appended zm) ≡ first - 1))
            × (first ≡ second
                → 0 < first
                → (flush_zone_id zm ≡ 0) × (sb_block (appended zm) ≡ size + second - 1))
            × (first < second → (flush_zone_id zm ≡ 0) × (sb_block (appended zm) ≡ first)))
  unfolding flush_zone_id sb_block appended last_block first_is_ahead
  sb_block-appended = (
    λ e. ground (arith, used, first_wp, e),
    λ e. (
      λ h. ground (arith, used, first_wp, second_wp, zone_size, e, h),
      λ h. ground (arith, used, first_wp, second_wp, zone_size, e, h),
      λ h k. ground (arith, used, first_wp, second_wp, zone_size, e, h, k),
      λ h. ground (arith, used, first_wp, second_wp, zone_size, e, h),
    ),
  )
