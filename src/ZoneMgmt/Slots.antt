-- ===== src/ZoneMgmt/Slots.antt =====
-- The lists of open and of active zones: `__insert_zone`, `__remove_zone` and their four callers.
pub mod Tracks
use xcpfs.Base.{ℕ, ◌+◌, ◌-◌, List, [], ◌∷◌, Option, none, some, ◌==◌, if◌then◌else◌}
use mathlib.Core.Option
use xcpfs.Errno.{Ret, eperm}
use xcpfs.ZoneMgmt.Types.{ZmInfo}

-- `__insert_zone`: into the first slot that is NULL; `none` where it returns -1. The list has `len`
-- slots, and neither it nor the zone is NULL.
unfoldable pub insert_zone : List (Option ℕ) → ℕ → Option (List (Option ℕ))
insert_zone [] tar = none
insert_zone (none ∷ list) tar = some (some tar ∷ list)
insert_zone (some z ∷ list) tar = Option.map (λ l. some z ∷ l) (insert_zone list tar)

-- `__remove_zone`: clears the first slot that points to the zone; `none` where it returns -1.
unfoldable pub remove_zone : List (Option ℕ) → ℕ → Option (List (Option ℕ))
remove_zone [] tar = none
remove_zone (none ∷ list) tar = Option.map (λ l. none ∷ l) (remove_zone list tar)
remove_zone (some z ∷ list) tar =
    let rest = Option.map (λ l. some z ∷ l) (remove_zone list tar) in
    if z == tar then some (none ∷ list) else rest

-- -1 is -EPERM.
unfoldable pub insert_zone_opened : ZmInfo → ℕ → Ret × ZmInfo
insert_zone_opened zm tar = elim (insert_zone zm.zone_opened tar) [
  | none ↦ (some eperm, zm)
  | some l ↦ (none, record zm { zone_opened = l; zone_opened_count = zm.zone_opened_count + 1 })
]

-- A counter is lowered only where a slot was cleared, so it counted that slot and is not 0.
unfoldable pub remove_zone_opened : ZmInfo → ℕ → Ret × ZmInfo
remove_zone_opened zm tar = elim (remove_zone zm.zone_opened tar) [
  | none ↦ (some eperm, zm)
  | some l ↦ (none, record zm { zone_opened = l; zone_opened_count = zm.zone_opened_count - 1 })
]

unfoldable pub insert_zone_active : ZmInfo → ℕ → Ret × ZmInfo
insert_zone_active zm tar = elim (insert_zone zm.zone_active tar) [
  | none ↦ (some eperm, zm)
  | some l ↦ (none, record zm { zone_active = l; zone_active_count = zm.zone_active_count + 1 })
]

unfoldable pub remove_zone_active : ZmInfo → ℕ → Ret × ZmInfo
remove_zone_active zm tar = elim (remove_zone zm.zone_active tar) [
  | none ↦ (some eperm, zm)
  | some l ↦ (none, record zm { zone_active = l; zone_active_count = zm.zone_active_count - 1 })
]
