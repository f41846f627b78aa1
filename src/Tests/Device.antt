-- ===== src/Tests/Device.antt =====
-- A small zoned device: 16 zones of 64 sectors (8 blocks), of which four may be open.
use xcpfs.Base.{
  ℕ, ◌*◌, ◌%◌, ◌≡◌, refl, true, false, none, ◌==◌, [], ◌∷◌, arith, inl, inr, Bool-cases,
}
use xcpfs.Base.Int.{pos}
use xcpfs.Base.Table.{update}
use xcpfs.ZoneMgmt.Types.{ZoneInfo, ZmInfo, empty}
use xcpfs.ZoneMgmt.Device.{BlockDevice}
use xcpfs.ZoneMgmt.Slots.Tracks.{filled, holds}
use xcpfs.ZoneMgmt.Blocks.{blk2zone, blk_index}
use xcpfs.ZoneMgmt.Blocks.Account.{count_bits, is_valid, IsCounted}
use xcpfs.ZoneMgmt.Ops.Invariant.{ZonesInv}
use xcpfs.ZoneMgmt.Alloc.Keeps.{AllocInv}

abbrev pub bdev : BlockDevice
bdev = record {
  is_zoned = true;
  read_only = false;
  zone_sectors = 64;
  nr_sectors = 1024;
  is_zone_start = λ sector. sector % 64 == 0;
  submit = λ op sectors. none;
}

abbrev pub empty_zone : ℕ → ZoneInfo
empty_zone z = record {
  zone_id = z;
  cond = empty;
  wp = z * 64;
  start = z * 64;
  write_inflight = 0;
  dirty = false;
  zone_type = 0;
  vblocks = pos 0;
  valid_map = λ b. false;
}

abbrev pub new_zm : ZmInfo
new_zm = record {
  zone_size = 64;
  zone_capacity = 64;
  nr_zones = 16;
  max_open_zones = 4;
  max_active_zones = 4;
  nr_type = λ type. 0;
  limit_type = λ type. 1;
  zone_info = empty_zone;
  zone_opened_count = 0;
  zone_opened = none ∷ none ∷ none ∷ none ∷ [];
  zone_active_count = 0;
  zone_active = none ∷ none ∷ none ∷ none ∷ [];
}

pub new_zm-ZonesInv : ZonesInv new_zm
unfolding filled holds
new_zm-ZonesInv = record {
  opened = record { size = refl; counted = refl; once = λ z. refl };
  active = record { size = refl; counted = refl; once = λ z. refl };
}

pub new_zm-AllocInv : AllocInv new_zm
new_zm-AllocInv = record {
  zones = new_zm-ZonesInv;
  indexed = λ z. refl;
  sb_ready = (λ e. ground (arith, e), refl);
}

-- a state in which block 31, the last of zone 3, is valid
abbrev pub used_zm : ZmInfo
used_zm = record new_zm {
  zone_info =
      update empty_zone 3
        (record (empty_zone 3) { vblocks = pos 1; valid_map = update (λ b. false) 7 true });
}

pub used_zm-IsCounted : (z : ℕ) → IsCounted used_zm z
unfolding count_bits
used_zm-IsCounted z = elim (Bool-cases (3 == z)) [ inl e ↦ rw e refl | inr e ↦ rw e refl ]

pub used_zm-31 : is_valid used_zm 31 ≡ true
unfolding blk2zone blk_index
used_zm-31 = refl
