-- ===== src/ZoneMgmt/Alloc/Progress.antt =====
-- `get_zone` comes to an end where there is an empty zone that the device opens.
use mathlib.Core.Bool.{false≢true}
use xcpfs.Base.Table.{update_self}
use xcpfs.ZoneMgmt.Slots.Tracks.{holds}
use xcpfs.Base.{
  sym, ◌∙◌, ℕ, suc, ◌≤◌, ◌<◌, ◌≡◌, ◌≢◌, refl, inl, inr, Bool, true, false, Option, none, some,
  arith, ltb, lt→ltb, Bool-cases, Option-cases,
}
use xcpfs.ZoneMgmt.Types.{ZmInfo, Cond, empty, exp_open, is_empty}
use xcpfs.ZoneMgmt.Device.{BlockDevice, zone_open}
use xcpfs.ZoneMgmt.Ops.{send, mark_open}
use xcpfs.ZoneMgmt.Ops.Invariant.{
  ZonesInv, mark_open_empty, zone_info-mark_open, xcpfs_zone_open_empty,
}
use xcpfs.ZoneMgmt.Alloc.{
  long_max, best_zone, Found, done, get_empty_zone, take_zone, give_zone, ask_restart, open_more,
  retry, get_zone,
}
use xcpfs.ZoneMgmt.Alloc.Choice.{IsIndexed, HasRoom, Serves, best_zone-finds, get_empty_zone_lem}

-- There is an empty zone outside the super block's two, room in both lists, and a device that opens
-- the zone that `get_empty_zone` picks, in which a page can be written.
pub record CanTake (bdev : BlockDevice) (zm : ZmInfo) : Type 0 where
  pub inv : ZonesInv zm
  pub indexed : IsIndexed zm
  pub room : zm.zone_opened_count < zm.max_open_zones
  pub active_room : zm.zone_active_count < zm.max_active_zones
  pub some_empty : (j : ℕ) × (2 ≤ j) × (j < zm.nr_zones) × (is_empty (zm.zone_info j).cond ≡ true)
  pub opens : send bdev zm (get_empty_zone zm) zone_open ≡ none
  pub writable : HasRoom (zm.zone_info (get_empty_zone zm))

is_empty_lem : (c : Cond) → is_empty c ≡ true → c ≡ empty
is_empty_lem c e = ground arith

ask_restart-some :
    (locked : Bool) (cpc : Option Bool)
    → (locked ≡ true → cpc ≢ none)
    → (cpc' : Option Bool) × (ask_restart locked cpc ≡ some cpc')
ask_restart-some true none h = absurd (h refl refl)
ask_restart-some true (some r) h = (some true, refl)
ask_restart-some false cpc h = (cpc, refl)

module _ (bdev : BlockDevice) (zm : ZmInfo) (c : CanTake bdev zm) where
  abbrev e : ℕ
  e = get_empty_zone zm

  picked_empty : (zm.zone_info e).cond ≡ empty
  picked_empty = elim (get_empty_zone_lem zm c.indexed) [
    | inl (_, all) ↦
        let (j, l, u, hit) = c.some_empty in absurd (false≢true (sym (all j l u) ∙ hit))
    | inr (_, _, hit) ↦ is_empty_lem _ hit
  ]

  take_zone_lem : (type : ℕ) → take_zone bdev zm type ≡ give_zone (mark_open zm e) e type
  unfolding take_zone
  take_zone_lem type =
      rw (xcpfs_zone_open_empty bdev zm e picked_empty c.room c.active_room c.opens)

  opened_zone :
      (mark_open zm e).zone_info e ≡ record (zm.zone_info e) { cond = exp_open; dirty = true }
  opened_zone = rw (zone_info-mark_open zm e) (update_self zm.zone_info e _)

  holds_opened : 0 < holds e (mark_open zm e).zone_opened
  holds_opened =
      let v = mark_open_empty zm e c.inv picked_empty c.room c.active_room in
      rw (v.opened.once e, opened_zone) (omega arith)

  given_zone :
      (type : ℕ)
      → (give_zone (mark_open zm e) e type).zone_info e
        ≡ record (zm.zone_info e) { cond = exp_open; dirty = true; zone_type = type }
  unfolding give_zone
  given_zone type = rw (update_self, opened_zone)

  holds_given : (type : ℕ) → 0 < holds e (give_zone (mark_open zm e) e type).zone_opened
  unfolding give_zone
  holds_given type = holds_opened

  -- the zone that is taken then serves the type
  take_zone-Serves :
      (type : ℕ)
      → Serves (take_zone bdev zm type) type (take_zone bdev zm type).zone_opened e
        × HasRoom ((take_zone bdev zm type).zone_info e)
  take_zone-Serves type =
      rw (take_zone_lem type, given_zone type) ((holds_given type, refl), c.writable)

  -- what the search comes to when a zone is found in the next round
  abbrev pub Ends : Found → Type 0
  Ends found = (z : ℕ) × (zm' : ZmInfo) × (cpc : Option Bool) × (found ≡ done z zm' cpc)

  module _ (cp_locked : Bool) (type : ℕ) (cpc : Option Bool)
      (checkpointed : cp_locked ≡ true → cpc ≢ none) where
    open_more-some :
        (cpc' : Option Bool) × (open_more bdev cp_locked type zm cpc
          ≡ some (take_zone bdev zm type, cpc'))
    unfolding open_more
    open_more-some =
        let (cpc', asked) = ask_restart-some cp_locked cpc checkpointed in
        (cpc', rw (lt→ltb zm.zone_opened_count zm.max_open_zones c.room, open_more, asked))

    retry_taken :
        (fuel : ℕ) (cpc' : Option Bool)
        → Ends (retry bdev cp_locked type (suc fuel) (take_zone bdev zm type) cpc')
    unfolding retry
    retry_taken fuel cpc' =
        let (s, room) = take_zone-Serves type in
        let (k, found) = best_zone-finds (take_zone bdev zm type) type _ e s room in
        rw (found, retry) (_, _, _, refl)

    -- Where the lists agree with the zones, there is room in both, there is an empty zone behind the
    -- super block's two, the device opens the one that is picked, a page fits between that zone's write
    -- pointer and its end, and there is a checkpoint's record if one is running, two rounds are enough
    -- to find a zone.
    pub get_zone-Ends : (fuel : ℕ) → Ends (get_zone bdev cp_locked type (suc (suc fuel)) zm cpc)
    unfolding get_zone retry
    get_zone-Ends fuel =
        let (cpc', more) = open_more-some in
        elim (Bool-cases (ltb (zm.nr_type type) (zm.limit_type type))) [
          | inl t ↦ rw (t, get_zone, more) (retry_taken (suc fuel) cpc')
          | inr t ↦ rw t (elim (Option-cases (best_zone zm type zm.zone_opened long_max none)) [
            | inr (i, found) ↦ rw (found, retry) (_, _, _, refl)
            | inl missing ↦ rw (missing, retry, more) (retry_taken fuel cpc')
          ])
        ]
