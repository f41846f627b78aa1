-- ===== src/ZoneMgmt/Zit/Roundtrip.antt =====
-- A zone's entry written by `flush_zit` at a checkpoint and read by `xcpfs_get_zit_info` at the next
-- mount.
use xcpfs.Base.{
  ℕ, ◌/◌, ◌*◌, ◌%◌, ap, ◌∙◌, ◌<◌, ◌≡◌, refl, Bool, true, false, arith, ltb, if◌then◌else◌,
}
use xcpfs.Base.Int.{pos}
use xcpfs.Format.{zit_entry_per_block}
use xcpfs.ZoneMgmt.Types.{ZoneInfo, ZmInfo, is_empty}
use xcpfs.ZoneMgmt.Zit.{
  ZitFile, zit_block, zit_slot, map_bits, low_10_bits, copy_map, store_entry, flush_zit,
  get_zit_info,
}
use xcpfs.ZoneMgmt.Zit.Flush.{flushed, entry, flush_zit_lem}
use xcpfs.ZoneMgmt.Zit.Load.{first_entry, get_zit_info_lem}

-- The first zone of the same block of the table.
abbrev pub leader : ℕ → ℕ
leader z = z / zit_entry_per_block * zit_entry_per_block

leader-entry : (file : ZitFile) (z : ℕ) → first_entry file z ≡ entry file (leader z)
leader-entry file z =
    let same_block : zit_block z ≡ zit_block (leader z) = omega arith in
    let slot : 0 ≡ zit_slot (leader z) = omega arith in
    ap (file (zit_block z)) slot ∙ ap (λ i. file i (zit_slot (leader z))) same_block

leader_known : {n : ℕ} → (z : ℕ) → z < n → leader z < n
leader_known z h = omega arith

module _ (zm : ZmInfo) (file : ZitFile) (mounted : ZmInfo) (junk : ℕ → ℕ → Bool)
    (readable : ℕ → Bool) (z n : ℕ) where
  -- the zone's record at the next mount
  abbrev pub back : ZoneInfo
  back = (get_zit_info junk readable (flush_zit zm file).1 mounted).zone_info z

  module _ (known : z < zm.nr_zones) (still_known : z < mounted.nr_zones)
      (changed : (zm.zone_info z).dirty ≡ true) (used : is_empty (mounted.zone_info z).cond ≡ false)
      (had : readable (zit_block z) ≡ true) (counted : (zm.zone_info z).vblocks ≡ pos n) where
    -- A zone that was dirty, and that the device does not report empty, comes back with its type
    -- modulo 64 and its block count modulo 1024. The first 512 bits of its map are those that the
    -- first zone of its block of the table has there after the flush (the zone's own ones only if
    -- it is that zone); behind those is whatever the allocator left in the new map.
    pub zit_roundtrip :
        (back.zone_type ≡ (zm.zone_info z).zone_type % 64)
        × (back.vblocks ≡ pos (n % 1024))
        × ((b : ℕ)
            → back.valid_map b ≡ (
                if ltb b map_bits
                then (flushed (zm.zone_info (leader z)) (entry file (leader z))).valid_map b
                else junk z b))
    unfolding store_entry copy_map low_10_bits
    zit_roundtrip =
        rw
          (
            get_zit_info_lem junk readable (flush_zit zm file).1 mounted z still_known,
            (flush_zit_lem zm file z known).0,
            had,
            used,
            changed,
            counted,
          )
          (
            refl,
            refl,
            λ b.
                rw
                  (
                    leader-entry (flush_zit zm file).1 z,
                    (flush_zit_lem zm file (leader z) (leader_known z known)).0,
                  )
                  (ground arith),
          )
