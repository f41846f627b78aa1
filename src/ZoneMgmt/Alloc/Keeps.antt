-- ===== src/ZoneMgmt/Alloc/Keeps.antt =====
-- What stays true while `get_zone` looks for a zone.
use xcpfs.Base.{
  ℕ, zero, suc, ◌≡◌, ◌≢◌, refl, inl, inr, Bool, true, Option, none, some, arith, ltb, Bool-cases,
  Option-cases,
}
use xcpfs.ZoneMgmt.Types.{ZmInfo, imp_open, is_usable}
use xcpfs.ZoneMgmt.Device.{BlockDevice}
use xcpfs.ZoneMgmt.Ops.{xcpfs_zone_open}
use xcpfs.ZoneMgmt.Ops.Invariant.{
  ZonesInv, open-ZonesInv, set_zone-ZonesInv, zone_info-mark_open, xcpfs_zone_open_cases,
}
use xcpfs.ZoneMgmt.Alloc.{
  long_max, best_zone, get_empty_zone, give_zone, take_zone, open_more, retry, get_zone,
}
use xcpfs.ZoneMgmt.Alloc.Choice.{IsIndexed, get_empty_zone_lem}
use xcpfs.ZoneMgmt.Alloc.Search.{Finds}

-- A property that survives the taking of a zone holds of whatever state `get_zone` comes back with.
module _ (bdev : BlockDevice) (cp_locked : Bool) (type : ℕ) (P : ZmInfo → Type 0)
    (keep : (zm : ZmInfo) → P zm → P (take_zone bdev zm type)) where
  open_more_keeps :
      (zm zm' : ZmInfo) (cpc cpc' : Option Bool)
      → open_more bdev cp_locked type zm cpc ≡ some (zm', cpc')
      → P zm
      → P zm'
  unfolding open_more
  open_more_keeps zm zm' cpc cpc' e h = ground (arith, keep zm h)

  retry_keeps :
      (fuel : ℕ) (zm : ZmInfo) (cpc : Option Bool)
      → P zm
      → Finds (λ _. P) (retry bdev cp_locked type fuel zm cpc)
  unfolding retry
  retry_keeps zero zm cpc h = tt
  retry_keeps (suc fuel) zm cpc h =
      elim (Option-cases (best_zone zm type zm.zone_opened long_max none)) [
        | inr (i, e) ↦ rw (e, retry) h
        | inl e ↦ elim (Option-cases (open_more bdev cp_locked type zm cpc)) [
          | inl f ↦ rw (e, retry, f) tt
          | inr ((zm', cpc'), f) ↦
              rw (e, retry, f) (retry_keeps fuel zm' cpc' (open_more_keeps zm zm' cpc cpc' f h))
        ]
      ]

  pub get_zone_keeps :
      (fuel : ℕ) (zm : ZmInfo) (cpc : Option Bool)
      → P zm
      → Finds (λ _. P) (get_zone bdev cp_locked type fuel zm cpc)
  unfolding get_zone
  get_zone_keeps fuel zm cpc h = elim (Bool-cases (ltb (zm.nr_type type) (zm.limit_type type))) [
    | inr e ↦ rw e (retry_keeps fuel zm cpc h)
    | inl e ↦ elim (Option-cases (open_more bdev cp_locked type zm cpc)) [
      | inl f ↦ rw (e, get_zone, f) tt
      | inr ((zm', cpc'), f) ↦
          rw (e, get_zone, f) (retry_keeps fuel zm' cpc' (open_more_keeps zm zm' cpc cpc' f h))
    ]
  ]

-- Zone 0 of the super block may be opened: `get_zone` takes it where no other zone is empty.
abbrev pub SbReady : ZmInfo → Type 0
SbReady zm = ((zm.zone_info 0).cond ≢ imp_open) × (is_usable (zm.zone_info 0).cond ≡ true)

pub record AllocInv (zm : ZmInfo) : Type 0 where
  pub zones : ZonesInv zm
  pub indexed : IsIndexed zm
  pub sb_ready : SbReady zm

-- The assignments of `give_zone` touch neither list, nor a condition or an index.
give_zone-AllocInv :
    (zm : ZmInfo) (zone_id type : ℕ) → AllocInv zm → AllocInv (give_zone zm zone_id type)
unfolding give_zone
give_zone-AllocInv zm zone_id type v =
    let z =
      set_zone-ZonesInv zm zone_id (record (zm.zone_info zone_id) { zone_type = type }) refl
        v.zones in
    record {
      zones = record { opened = z.opened; active = z.active };
      indexed = λ x. ground (arith, v.indexed x, v.indexed zone_id);
      sb_ready = (λ h. ground (arith, v.sb_ready.0), ground (arith, v.sb_ready.1));
    }

module _ (bdev : BlockDevice) (zm : ZmInfo) (v : AllocInv zm) where
  abbrev e : ℕ
  e = get_empty_zone zm

  -- the zone that `get_empty_zone` picks may be opened
  picked : ((zm.zone_info e).cond ≢ imp_open) × (is_usable (zm.zone_info e).cond ≡ true)
  picked = elim (get_empty_zone_lem zm v.indexed) [
    | inl (z, _) ↦ rw z v.sb_ready
    | inr (_, _, hit) ↦ ground arith
  ]

  open-AllocInv : AllocInv (xcpfs_zone_open bdev zm e).1
  open-AllocInv = record {
    zones = open-ZonesInv bdev zm e v.zones picked.0 (λ _. picked.1);
    indexed =
        xcpfs_zone_open_cases IsIndexed bdev zm e v.indexed (λ _ _ _ _.
          rw (zone_info-mark_open zm e) (λ z. ground (arith, v.indexed z, v.indexed e)));
    sb_ready = xcpfs_zone_open_cases SbReady bdev zm e v.sb_ready (λ _ _ _ _.
        rw (zone_info-mark_open zm e)
          (λ h. ground (arith, v.sb_ready.0), ground (arith, v.sb_ready.1)));
  }

  pub take_zone-AllocInv : (type : ℕ) → AllocInv (take_zone bdev zm type)
  unfolding take_zone
  take_zone-AllocInv type = give_zone-AllocInv _ e type open-AllocInv
