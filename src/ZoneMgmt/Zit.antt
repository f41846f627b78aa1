-- ===== src/ZoneMgmt/Zit.antt =====
-- The zone information table: `flush_zit` of zone_mgmt.c writes it, `xcpfs_get_zit_info` of xcpfs.c
-- reads it back at a mount. The table is the file of the meta inode from block ZIT_START on, as the
-- page cache shows it: one entry for each block and slot.
pub mod Flush
pub mod Load
pub mod Roundtrip
use xcpfs.Base.{
  ℕ, zero, suc, ◌+◌, ◌-◌, ◌*◌, ◌/◌, ◌%◌, Bool, true, false, Option, none, some, ltb, ◌==◌,
  if◌then◌else◌,
}
use xcpfs.Base.Int.{ℤ, pos, negsuc}
use xcpfs.Base.Table.{update}
use xcpfs.Format.{zit_start, zit_entry_per_block}
use xcpfs.Meta.Path.{div_round_up}
use xcpfs.ZoneMgmt.Types.{ZoneInfo, ZmInfo, is_empty}
use xcpfs.ZoneMgmt.Ops.{set_zone}

-- `struct xcpfs_zit_entry`: a field of 6 bits, one of 10, and a map of 64 bytes.
pub record ZitEntry : Type 0 where
  pub zone_type : ℕ
  pub vblocks : ℕ
  pub valid_map : ℕ → Bool

abbrev pub ZitFile : Type 0
ZitFile = ℕ → ℕ → ZitEntry

abbrev pub zit_block : ℕ → ℕ
zit_block z = z / zit_entry_per_block + zit_start

abbrev pub zit_slot : ℕ → ℕ
zit_slot z = z % zit_entry_per_block

-- ZONE_VALID_MAP_SIZE bytes
abbrev pub map_bits : ℕ
map_bits = 512

-- An `int` stored in the 10 bits of `vblocks`.
unfoldable pub low_10_bits : ℤ → ℕ
low_10_bits (pos n) = n % 1024
low_10_bits (negsuc n) = 1023 - n % 1024

-- The `memcpy` of a map: the bits behind its end stay.
unfoldable pub copy_map : (ℕ → Bool) → (ℕ → Bool) → ℕ → Bool
copy_map from to i = if ltb i map_bits then from i else to i

unfoldable pub store_entry : ZoneInfo → ZitEntry → ZitEntry
store_entry zi ze = record {
  zone_type = zi.zone_type % 64;
  vblocks = low_10_bits zi.vblocks;
  valid_map = copy_map zi.valid_map ze.valid_map;
}

abbrev pub write_entry : ZitFile → ℕ → ZitEntry → ZitFile
write_entry file z ze = update file (zit_block z) (update (file (zit_block z)) (zit_slot z) ze)

-- One round of the loop of `flush_zit`.
unfoldable pub flush_zone : ZmInfo × ZitFile → ℕ → ZmInfo × ZitFile
flush_zone (zm, file) i =
    let zi = zm.zone_info i in
    if zi.dirty
    then (
      set_zone zm i (record zi { dirty = false }),
      write_entry file i (store_entry zi (file (zit_block i) (zit_slot i))),
    )
    else (zm, file)

-- The loop from zone `i` on, with `n` zones left.
unfoldable pub flush_zones : ℕ → ℕ → ZmInfo × ZitFile → ZmInfo × ZitFile
flush_zones zero i s = s
flush_zones (suc n) i s = flush_zones n (i + 1) (flush_zone s i)

unfoldable pub flush_zit : ZmInfo → ZitFile → ZmInfo × ZitFile
flush_zit zm file = flush_zones zm.nr_zones 0 (zm, file)

-- The first loop of `xcpfs_get_zit_info`: `kmalloc` returns maps whose contents it does not set.
unfoldable pub alloc_maps : ℕ → ℕ → (ℕ → ℕ → Bool) → ZmInfo → ZmInfo
alloc_maps zero i junk zm = zm
alloc_maps (suc n) i junk zm =
    alloc_maps n (i + 1) junk
      (set_zone zm i (record (zm.zone_info i) { valid_map = junk i; write_inflight = 0 }))

-- One round of the inner loop, for a zone within range. `ze[j]` is the entry `ze`, but the map is
-- copied from `ze->valid_map`, that of the block's first entry.
unfoldable pub load_zone : ZmInfo → ℕ → ZitEntry → ZitEntry → ZmInfo
load_zone zm z first ze =
    let zi = zm.zone_info z in
    if is_empty zi.cond
    then zm
    else record (set_zone zm z (record zi {
      zone_type = ze.zone_type;
      vblocks = pos ze.vblocks;
      dirty = true;
      valid_map = copy_map first.valid_map zi.valid_map;
    })) { nr_type = update zm.nr_type ze.zone_type (zm.nr_type ze.zone_type + 1) }

-- The inner loop from slot `j` of block `i` on, with `n` slots left; it breaks at the last zone.
unfoldable pub load_slots : ℕ → ℕ → ℕ → (ℕ → ZitEntry) → ZmInfo → ZmInfo
load_slots zero i j entries zm = zm
load_slots (suc n) i j entries zm =
    let z = i * zit_entry_per_block + j in
    let rest = load_slots n i (j + 1) entries (load_zone zm z (entries 0) (entries j)) in
    if z == zm.nr_zones then zm else rest

-- One round of the outer loop. A block whose page cannot be had is passed over.
unfoldable pub load_block : ℕ → (ℕ → Bool) → ZitFile → ZmInfo → ZmInfo
load_block i readable file zm =
    let iblock = i + zit_start in
    if readable iblock then load_slots zit_entry_per_block i 0 (file iblock) zm else zm

-- The outer loop from block `i` on, with `n` blocks left.
unfoldable pub load_blocks : ℕ → ℕ → (ℕ → Bool) → ZitFile → ZmInfo → ZmInfo
load_blocks zero i readable file zm = zm
load_blocks (suc n) i readable file zm =
    load_blocks n (i + 1) readable file (load_block i readable file zm)

unfoldable pub get_zit_info : (ℕ → ℕ → Bool) → (ℕ → Bool) → ZitFile → ZmInfo → ZmInfo
get_zit_info junk readable file zm =
    load_blocks (div_round_up zm.nr_zones zit_entry_per_block) 0 readable file
      (alloc_maps zm.nr_zones 0 junk zm)
