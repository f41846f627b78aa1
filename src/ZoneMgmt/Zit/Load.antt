-- ===== src/ZoneMgmt/Zit/Load.antt =====
-- What `xcpfs_get_zit_info` reads for each zone.
use xcpfs.Base.{
  ℕ, zero, suc, ◌+◌, ◌-◌, ◌*◌, ◌≤◌, ◌<◌, ◌≡◌, Bool, true, ◌&&◌, arith, ltb, leb, ◌==◌,
  if◌then◌else◌, inl, inr, Bool-cases,
}
use xcpfs.Base.Int.{pos}
use xcpfs.Format.{zit_entry_per_block, zit_start}
use xcpfs.Meta.Path.{div_round_up}
use xcpfs.ZoneMgmt.Types.{ZoneInfo, ZmInfo, is_empty}
use xcpfs.ZoneMgmt.Ops.{set_zone}
use xcpfs.ZoneMgmt.Zit.{
  ZitEntry, ZitFile, zit_block, zit_slot, copy_map, alloc_maps, load_zone, load_slots, load_block,
  load_blocks, get_zit_info,
}
use xcpfs.ZoneMgmt.Zit.Flush.{entry}

-- A zone's record after its entry has been read, the map from the entry `first`.
abbrev pub loaded : ZoneInfo → ZitEntry → ZitEntry → ZoneInfo
loaded zi first ze = if is_empty zi.cond then zi else record zi {
  zone_type = ze.zone_type;
  vblocks = pos ze.vblocks;
  dirty = true;
  valid_map = copy_map first.valid_map zi.valid_map;
}

module _ (zm : ZmInfo) (y : ℕ) (first ze : ZitEntry) where
  load_zone_lem :
      (z : ℕ)
      → ((load_zone zm y first ze).zone_info z
          ≡ (if y == z then loaded (zm.zone_info z) first ze else zm.zone_info z))
        × ((load_zone zm y first ze).nr_zones ≡ zm.nr_zones)
  unfolding load_zone
  load_zone_lem z = ground arith

load_slots_lem :
    (n i j : ℕ) (entries : ℕ → ZitEntry) (zm : ZmInfo) (z : ℕ)
    → i * zit_entry_per_block + j ≤ zm.nr_zones
    → ((load_slots n i j entries zm).zone_info z ≡ (
        if leb (i * zit_entry_per_block + j) z
          && ltb z (i * zit_entry_per_block + j + n)
          && ltb z zm.nr_zones
        then loaded (zm.zone_info z) (entries 0) (entries (z - i * zit_entry_per_block))
        else zm.zone_info z))
      × ((load_slots n i j entries zm).nr_zones ≡ zm.nr_zones)
unfolding load_slots
load_slots_lem zero i j entries zm z h = ground arith
load_slots_lem (suc n) i j entries zm z h =
    let y = i * zit_entry_per_block + j in
    elim (Bool-cases (y == zm.nr_zones)) [
      | inl e ↦ ground arith
      | inr e ↦ ground (
        arith,
        load_zone_lem zm y (entries 0) (entries j) z,
        load_slots_lem n i (j + 1) entries (load_zone zm y (entries 0) (entries j)) z,
      )
    ]

-- the first entry of a zone's block
abbrev pub first_entry : ZitFile → ℕ → ZitEntry
first_entry file z = file (zit_block z) 0

abbrev in_blocks : ℕ → ℕ → ℕ → Bool
in_blocks i n z =
    leb (i * zit_entry_per_block) z && ltb z (i * zit_entry_per_block + n * zit_entry_per_block)

abbrev found : (ℕ → Bool) → ℕ → ZmInfo → Bool
found readable z zm = ltb z zm.nr_zones && readable (zit_block z)

zit_block_of : (i z : ℕ) → in_blocks i 1 z ≡ true → zit_block z ≡ i + zit_start
zit_block_of i z h = ground arith

zit_slot_of : (i z : ℕ) → in_blocks i 1 z ≡ true → zit_slot z ≡ z - i * zit_entry_per_block
zit_slot_of i z h = ground arith

module _ (readable : ℕ → Bool) (file : ZitFile) where
  load_block_lem :
      (i : ℕ) (zm : ZmInfo) (z : ℕ)
      → i * zit_entry_per_block ≤ zm.nr_zones
      → ((load_block i readable file zm).zone_info z ≡ (
          if in_blocks i 1 z && found readable z zm
          then loaded (zm.zone_info z) (first_entry file z) (entry file z)
          else zm.zone_info z))
        × ((load_block i readable file zm).nr_zones ≡ zm.nr_zones)
  unfolding load_block
  load_block_lem i zm z h = ground (
    arith,
    load_slots_lem zit_entry_per_block i 0 (file (i + zit_start)) zm z,
    zit_block_of i z,
    zit_slot_of i z,
  )

  load_blocks_lem :
      (n i : ℕ) (zm : ZmInfo) (z : ℕ)
      → i * zit_entry_per_block + n * zit_entry_per_block < zm.nr_zones + zit_entry_per_block
      → ((load_blocks n i readable file zm).zone_info z ≡ (
          if in_blocks i n z && found readable z zm
          then loaded (zm.zone_info z) (first_entry file z) (entry file z)
          else zm.zone_info z))
        × ((load_blocks n i readable file zm).nr_zones ≡ zm.nr_zones)
  unfolding load_blocks
  load_blocks_lem zero i zm z h = ground arith
  load_blocks_lem (suc n) i zm z h =
      ground
        (arith, load_block_lem i zm z, load_blocks_lem n (i + 1) (load_block i readable file zm) z)

alloc_maps_lem :
    (n i : ℕ) (junk : ℕ → ℕ → Bool) (zm : ZmInfo) (z : ℕ)
    → ((alloc_maps n i junk zm).zone_info z ≡ (
        if leb i z && ltb z (i + n)
        then record (zm.zone_info z) { valid_map = junk z; write_inflight = 0 }
        else zm.zone_info z))
      × ((alloc_maps n i junk zm).nr_zones ≡ zm.nr_zones)
unfolding alloc_maps
alloc_maps_lem zero i junk zm z = ground arith
alloc_maps_lem (suc n) i junk zm z = ground (
  arith,
  alloc_maps_lem n (i + 1) junk
      (set_zone zm i (record (zm.zone_info i) { valid_map = junk i; write_inflight = 0 })) z,
)

-- Every zone whose page can be had is read from its own entry, but for the map, which is read from
-- the first entry of the block; an empty one, or one whose page
-- cannot be had, keeps the fresh map.
pub get_zit_info_lem :
    (junk : ℕ → ℕ → Bool) (readable : ℕ → Bool) (file : ZitFile) (zm : ZmInfo) (z : ℕ)
    → z < zm.nr_zones
    → let fresh = record (zm.zone_info z) { valid_map = junk z; write_inflight = 0 } in
      (get_zit_info junk readable file zm).zone_info z
      ≡ (if readable (zit_block z) then loaded fresh (first_entry file z) (entry file z) else fresh)
unfolding get_zit_info
get_zit_info_lem junk readable file zm z known =
    let start = alloc_maps zm.nr_zones 0 junk zm in
    ground (
      arith,
      alloc_maps_lem zm.nr_zones 0 junk zm z,
      load_blocks_lem readable file (div_round_up zm.nr_zones zit_entry_per_block) 0 start z,
    )
