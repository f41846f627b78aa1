-- ===== src/Tests/Table.antt =====
-- The zone information table of a small device.
use xcpfs.Base.{ℕ, ◌≡◌, refl, Bool, true, false, ltb, if◌then◌else◌, arith}
use xcpfs.Base.Int.{pos}
use xcpfs.Base.Table.{update}
use xcpfs.ZoneMgmt.Types.{ZmInfo, ZoneInfo, closed}
use xcpfs.ZoneMgmt.Zit.{ZitFile, map_bits}
use xcpfs.ZoneMgmt.Zit.Flush.{flushed, entry}
use xcpfs.ZoneMgmt.Zit.Roundtrip.{back, leader, zit_roundtrip}
use xcpfs.Tests.Device.{empty_zone, new_zm}

abbrev no_file : ZitFile
no_file = λ block slot. record { zone_type = 0; vblocks = 0; valid_map = λ b. false }

-- zone 3 closed, with three blocks valid and changed since the last checkpoint
abbrev changed_zone : ZoneInfo
changed_zone = record (empty_zone 3) {
  cond = closed;
  zone_type = 4;
  vblocks = pos 3;
  dirty = true;
  valid_map = λ b. ltb b 3;
}

abbrev changed_zm : ZmInfo
changed_zm = record new_zm { zone_info = update empty_zone 3 changed_zone }

abbrev junk : ℕ → ℕ → Bool
junk z b = true

abbrev all_readable : ℕ → Bool
all_readable block = true

zit_roundtrip_example :
    let zi = back changed_zm no_file changed_zm junk all_readable 3 3 in
    (zi.zone_type ≡ 4)
    × (zi.vblocks ≡ pos 3)
    × ((b : ℕ)
        → zi.valid_map b ≡ (
            if ltb b map_bits
            then (flushed (changed_zm.zone_info (leader 3)) (entry no_file (leader 3))).valid_map b
            else junk 3 b))
zit_roundtrip_example =
    zit_roundtrip changed_zm no_file changed_zm junk all_readable 3 3 (omega arith) (omega arith)
      refl refl refl refl
