-- ===== src/ZoneMgmt/Zit/Flush.antt =====
-- What `flush_zit` leaves in the table.
use xcpfs.Base.{
  ℕ, zero, suc, ◌+◌, ◌<◌, ◌≡◌, Bool, false, ◌&&◌, arith, ltb, leb, ◌==◌, if◌then◌else◌,
}
use xcpfs.ZoneMgmt.Types.{ZoneInfo, ZmInfo}
use xcpfs.ZoneMgmt.Zit.{
  ZitEntry, ZitFile, zit_block, zit_slot, store_entry, flush_zone, flush_zones, flush_zit,
}

-- what one zone's entry becomes
abbrev pub flushed : ZoneInfo → ZitEntry → ZitEntry
flushed zi ze = if zi.dirty then store_entry zi ze else ze

abbrev pub entry : ZitFile → ℕ → ZitEntry
entry file z = file (zit_block z) (zit_slot z)

-- Two zones never share an entry.
entry_unique : (y z : ℕ) → zit_block y ≡ zit_block z → zit_slot y ≡ zit_slot z → y ≡ z
entry_unique y z h k = omega arith

module _ (zm : ZmInfo) (file : ZitFile) (i : ℕ) where
  zone_info-flush_zone :
      (z : ℕ)
      → (flush_zone (zm, file) i).0.zone_info z
        ≡ (if i == z then record (zm.zone_info z) { dirty = false } else zm.zone_info z)
  unfolding flush_zone
  zone_info-flush_zone z = ground arith

  entry-flush_zone :
      (z : ℕ)
      → entry (flush_zone (zm, file) i).1 z
        ≡ (if i == z then flushed (zm.zone_info z) (entry file z) else entry file z)
  unfolding flush_zone
  entry-flush_zone z = ground (arith, entry_unique i z)

abbrev within : ℕ → ℕ → ℕ → Bool
within i n z = leb i z && ltb z (i + n)

zone_info-flush_zones :
    (n i : ℕ) (s : ZmInfo × ZitFile) (z : ℕ)
    → (flush_zones n i s).0.zone_info z
      ≡ (if within i n z then record (s.0.zone_info z) { dirty = false } else s.0.zone_info z)
unfolding flush_zones
zone_info-flush_zones zero i s z = ground arith
zone_info-flush_zones (suc n) i s z =
    ground
      (arith, zone_info-flush_zones n (i + 1) (flush_zone s i) z, zone_info-flush_zone s.0 s.1 i z)

entry-flush_zones :
    (n i : ℕ) (s : ZmInfo × ZitFile) (z : ℕ)
    → entry (flush_zones n i s).1 z
      ≡ (if within i n z then flushed (s.0.zone_info z) (entry s.1 z) else entry s.1 z)
unfolding flush_zones
entry-flush_zones zero i s z = ground arith
entry-flush_zones (suc n) i s z = ground (
  arith,
  entry-flush_zones n (i + 1) (flush_zone s i) z,
  zone_info-flush_zone s.0 s.1 i z,
  entry-flush_zone s.0 s.1 i z,
)

module _ (zm : ZmInfo) (file : ZitFile) (z : ℕ) (known : z < zm.nr_zones) where
  -- Every zone's entry is written if the zone was dirty and kept otherwise, and no zone is dirty
  -- afterwards.
  pub flush_zit_lem :
      (entry (flush_zit zm file).1 z ≡ flushed (zm.zone_info z) (entry file z))
      × ((flush_zit zm file).0.zone_info z ≡ record (zm.zone_info z) { dirty = false })
  unfolding flush_zit
  flush_zit_lem = (
    ground (arith, entry-flush_zones zm.nr_zones 0 (zm, file) z),
    ground (arith, zone_info-flush_zones zm.nr_zones 0 (zm, file) z),
  )
