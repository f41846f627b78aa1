-- ===== src/ZoneMgmt/Blocks/Account.antt =====
-- The bitmaps of all zones as one set of block addresses, and `vblocks` as its size in each zone.
use native.Mathlib.Nat.{div-add-mod', mod-lt}
use xcpfs.Base.{
  ℕ, zero, suc, ◌+◌, ◌/◌, ◌%◌, ◌≤◌, ◌<◌, ◌≡◌, refl, ap, Bool, true, false, arith, ◌==◌,
  if◌then◌else◌,
}
use xcpfs.Base.Table.{update}
use xcpfs.Base.Int.{pos, add_one, sub_one}
use xcpfs.ZoneMgmt.Types.{ZoneInfo, ZmInfo, full, zone_blocks}
use xcpfs.ZoneMgmt.Slots.Tracks.{remove_zone_opened_lem, remove_zone_active_lem}
use xcpfs.ZoneMgmt.Blocks.{
  blk2zone, blk_index, marked, mark_full, validate_blkaddr, invalidate_blkaddr,
}

-- whether the block's bit is set
abbrev pub is_valid : ZmInfo → ℕ → Bool
is_valid zm blkaddr = (zm.zone_info (blk2zone zm blkaddr)).valid_map (blk_index zm blkaddr)

-- the bits set below `n`
unfoldable pub count_bits : ℕ → (ℕ → Bool) → ℕ
count_bits zero map = 0
count_bits (suc n) map = (if map n then 1 else 0) + count_bits n map

-- `vblocks` counts the bits of the zone's blocks.
abbrev pub IsCounted : ZmInfo → ℕ → Type 0
IsCounted zm z =
    (zm.zone_info z).vblocks ≡ pos (count_bits (zone_blocks zm) (zm.zone_info z).valid_map)

count_bits-above :
    (n i : ℕ) (map : ℕ → Bool) (b : Bool) → n ≤ i → count_bits n (update map i b) ≡ count_bits n map
unfolding count_bits
count_bits-above zero i map b h = refl
count_bits-above (suc n) i map b h = ground (arith, count_bits-above n i map b)

count_bits-set :
    (n i : ℕ) (map : ℕ → Bool)
    → i < n
    → map i ≡ false
    → count_bits n (update map i true) ≡ suc (count_bits n map)
unfolding count_bits
count_bits-set zero i map h e = absurd (omega arith)
count_bits-set (suc n) i map h e =
    ground (arith, count_bits-above n i map true, count_bits-set n i map)

count_bits-clear :
    (n i : ℕ) (map : ℕ → Bool)
    → i < n
    → map i ≡ true
    → suc (count_bits n (update map i false)) ≡ count_bits n map
unfolding count_bits
count_bits-clear zero i map h e = absurd (omega arith)
count_bits-clear (suc n) i map h e =
    ground (arith, count_bits-above n i map false, count_bits-clear n i map)

-- An address is its zone and its index there.
blkaddr_unique : (n a b : ℕ) → a / n ≡ b / n → a % n ≡ b % n → a ≡ b
blkaddr_unique n a b h k = cc (div-add-mod' a n, div-add-mod' b n)

abbrev pub if_zone {ℓ} : {A : Type ℓ} → ZmInfo → ℕ → ℕ → A → A → A
if_zone zm blkaddr z here elsewhere = if blk2zone zm blkaddr == z then here else elsewhere

-- What the two functions leave of each zone: the bitmap, the counter, and the zone size.
module _ (zm : ZmInfo) (blkaddr z : ℕ) where
  abbrev old : ZoneInfo
  old = zm.zone_info z

  mark_full_lem :
      (i : ℕ) (zi : ZoneInfo)
      → ((mark_full zm i zi).zone_info z ≡ update zm.zone_info i (record zi { cond = full }) z)
        × ((mark_full zm i zi).zone_size ≡ zm.zone_size)
  unfolding mark_full
  mark_full_lem i zi = rw (remove_zone_opened_lem, remove_zone_active_lem) (refl, refl)

  abbrev stored : ZoneInfo
  stored = marked (zm.zone_info (blk2zone zm blkaddr)) (blk_index zm blkaddr) blkaddr

  zone_size-validate : (validate_blkaddr zm blkaddr).zone_size ≡ zm.zone_size
  unfolding validate_blkaddr
  zone_size-validate = ground (arith, (mark_full_lem (blk2zone zm blkaddr) stored).1)

  valid_map-validate :
      ((validate_blkaddr zm blkaddr).zone_info z).valid_map
      ≡ if_zone zm blkaddr z (update old.valid_map (blk_index zm blkaddr) true) old.valid_map
  unfolding validate_blkaddr
  valid_map-validate =
      ground
        (arith, ap (λ (x : ZoneInfo). x.valid_map) (mark_full_lem (blk2zone zm blkaddr) stored).0)

  vblocks-validate :
      ((validate_blkaddr zm blkaddr).zone_info z).vblocks
      ≡ if_zone zm blkaddr z (add_one old.vblocks) old.vblocks
  unfolding validate_blkaddr
  vblocks-validate =
      ground
        (arith, ap (λ (x : ZoneInfo). x.vblocks) (mark_full_lem (blk2zone zm blkaddr) stored).0)

  zone_size-invalidate : (invalidate_blkaddr zm blkaddr).zone_size ≡ zm.zone_size
  unfolding invalidate_blkaddr
  zone_size-invalidate = refl

  valid_map-invalidate :
      ((invalidate_blkaddr zm blkaddr).zone_info z).valid_map
      ≡ if_zone zm blkaddr z (update old.valid_map (blk_index zm blkaddr) false) old.valid_map
  unfolding invalidate_blkaddr
  valid_map-invalidate = ground arith

  pub vblocks-invalidate :
      ((invalidate_blkaddr zm blkaddr).zone_info z).vblocks
      ≡ if_zone zm blkaddr z (sub_one old.vblocks) old.vblocks
  unfolding invalidate_blkaddr
  vblocks-invalidate = ground arith

module _ (zm : ZmInfo) (blkaddr : ℕ) where
  -- A block that is written becomes valid, and no other block changes: the bitmaps of all zones are
  -- one set of addresses.
  pub is_valid-validate :
      (other : ℕ)
      → is_valid (validate_blkaddr zm blkaddr) other
        ≡ (if blkaddr == other then true else is_valid zm other)
  unfolding blk2zone blk_index
  is_valid-validate other =
      rw
        (
          zone_size-validate zm blkaddr other,
          valid_map-validate zm blkaddr (other / zone_blocks zm),
        )
        (ground (arith, blkaddr_unique (zone_blocks zm) blkaddr other))

  pub is_valid-invalidate :
      (other : ℕ)
      → is_valid (invalidate_blkaddr zm blkaddr) other
        ≡ (if blkaddr == other then false else is_valid zm other)
  unfolding blk2zone blk_index
  is_valid-invalidate other =
      rw
        (
          zone_size-invalidate zm blkaddr other,
          valid_map-invalidate zm blkaddr (other / zone_blocks zm),
        )
        (ground (arith, blkaddr_unique (zone_blocks zm) blkaddr other))

module _ (zm : ZmInfo) (blkaddr : ℕ) (positive : 0 < zone_blocks zm) where
  -- Where the block was not valid, every zone's counter goes on counting the bits set in its map.
  pub validate-IsCounted :
      is_valid zm blkaddr ≡ false
      → (z : ℕ) → IsCounted zm z
      → IsCounted (validate_blkaddr zm blkaddr) z
  unfolding blk_index
  validate-IsCounted clear z h =
      rw
        (
          zone_size-validate zm blkaddr z,
          valid_map-validate zm blkaddr z,
          vblocks-validate zm blkaddr z,
        )
        (ground (
          arith,
          mod-lt blkaddr positive,
          count_bits-set (zone_blocks zm) (blk_index zm blkaddr) (zm.zone_info z).valid_map,
        ))

  -- The same for a release, where the block was valid.
  pub invalidate-IsCounted :
      is_valid zm blkaddr ≡ true
      → (z : ℕ) → IsCounted zm z
      → IsCounted (invalidate_blkaddr zm blkaddr) z
  unfolding blk_index
  invalidate-IsCounted valid z h =
      rw
        (
          zone_size-invalidate zm blkaddr z,
          valid_map-invalidate zm blkaddr z,
          vblocks-invalidate zm blkaddr z,
        )
        (ground (
          arith,
          mod-lt blkaddr positive,
          count_bits-clear (zone_blocks zm) (blk_index zm blkaddr) (zm.zone_info z).valid_map,
        ))
