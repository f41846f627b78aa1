-- ===== src/ZoneMgmt/Alloc/Search.antt =====
-- What `get_zone` comes to: the zone's type, the rounds that are enough, and where none are.
use xcpfs.Base.{
  ℕ, zero, suc, ◌≤◌, ◌≡◌, refl, ◌⊎◌, inl, inr, Bool, Option, none, some, arith, ltb, Bool-cases,
  Option-cases,
}
use xcpfs.ZoneMgmt.Types.{ZmInfo}
use xcpfs.ZoneMgmt.Device.{BlockDevice}
use xcpfs.ZoneMgmt.Alloc.{
  long_max, best_zone, Found, done, null_deref, spinning, open_more, retry, get_zone,
}
use xcpfs.ZoneMgmt.Alloc.Choice.{Serves, best_zone-Serves}

-- A postcondition on the zone and the state that are found.
abbrev pub Finds : (ℕ → ZmInfo → Type 0) → Found → Type 0
Finds P (done z zm cpc) = P z zm
Finds P null_deref = Unit
Finds P spinning = Unit

-- `z` is the id of an open zone of the type.
abbrev pub IsOpenOf : ℕ → ℕ → ZmInfo → Type 0
IsOpenOf type z zm = (i : ℕ) × (z ≡ (zm.zone_info i).zone_id) × Serves zm type zm.zone_opened i

served : {P : Type 0} {i : ℕ} → (◌≡◌ {A = Option ℕ} none (some i)) ⊎ P → P
served (inl e) = cc
served (inr p) = p

module _ (bdev : BlockDevice) (cp_locked : Bool) (type : ℕ) where
  retry-IsOpenOf :
      (fuel : ℕ) (zm : ZmInfo) (cpc : Option Bool)
      → Finds (IsOpenOf type) (retry bdev cp_locked type fuel zm cpc)
  unfolding retry
  retry-IsOpenOf zero zm cpc = tt
  retry-IsOpenOf (suc fuel) zm cpc =
      elim (Option-cases (best_zone zm type zm.zone_opened long_max none)) [
        | inr (i, e) ↦
            rw (e, retry)
              (i, refl, served (best_zone-Serves zm type zm.zone_opened long_max none i e))
        | inl e ↦ elim (Option-cases (open_more bdev cp_locked type zm cpc)) [
          | inl f ↦ rw (e, retry, f) tt
          | inr ((zm', cpc'), f) ↦ rw (e, retry, f) (retry-IsOpenOf fuel zm' cpc')
        ]
      ]

  -- Whatever `get_zone` answers is an open zone of the type asked for.
  pub get_zone-IsOpenOf :
      (fuel : ℕ) (zm : ZmInfo) (cpc : Option Bool)
      → Finds (IsOpenOf type) (get_zone bdev cp_locked type fuel zm cpc)
  unfolding get_zone
  get_zone-IsOpenOf fuel zm cpc = elim (Bool-cases (ltb (zm.nr_type type) (zm.limit_type type))) [
    | inr e ↦ rw e (retry-IsOpenOf fuel zm cpc)
    | inl e ↦ elim (Option-cases (open_more bdev cp_locked type zm cpc)) [
      | inl f ↦ rw (e, get_zone, f) tt
      | inr ((zm', cpc'), f) ↦ rw (e, get_zone, f) (retry-IsOpenOf fuel zm' cpc')
    ]
  ]

  best_zone-none :
      (zm : ZmInfo)
      → ((i : ℕ) → ¬ Serves zm type zm.zone_opened i)
      → best_zone zm type zm.zone_opened long_max none ≡ none
  best_zone-none zm none_open =
      elim (Option-cases (best_zone zm type zm.zone_opened long_max none)) [
        | inl e ↦ e
        | inr (i, e) ↦
            absurd
              (none_open i (served (best_zone-Serves zm type zm.zone_opened long_max none i e)))
      ]

  open_more_full :
      (zm : ZmInfo) (cpc : Option Bool)
      → zm.max_open_zones ≤ zm.zone_opened_count
      → open_more bdev cp_locked type zm cpc ≡ some (zm, cpc)
  unfolding open_more
  open_more_full zm cpc h = ground arith

  retry_hangs :
      (fuel : ℕ) (zm : ZmInfo) (cpc : Option Bool)
      → zm.max_open_zones ≤ zm.zone_opened_count
      → ((i : ℕ) → ¬ Serves zm type zm.zone_opened i)
      → retry bdev cp_locked type fuel zm cpc ≡ spinning
  unfolding retry
  retry_hangs zero zm cpc h none_open = refl
  retry_hangs (suc fuel) zm cpc h none_open =
      rw (best_zone-none zm none_open, retry, open_more_full zm cpc h)
        (retry_hangs fuel zm cpc h none_open)

  -- With every slot taken, and by no zone of the type, `get_zone` does not come to an end in any
  -- number of rounds. (It makes them under the spin lock.)
  pub get_zone_hangs :
      (fuel : ℕ) (zm : ZmInfo) (cpc : Option Bool)
      → zm.max_open_zones ≤ zm.zone_opened_count
      → ((i : ℕ) → ¬ Serves zm type zm.zone_opened i)
      → get_zone bdev cp_locked type fuel zm cpc ≡ spinning
  unfolding get_zone
  get_zone_hangs fuel zm cpc h none_open =
      elim (Bool-cases (ltb (zm.nr_type type) (zm.limit_type type))) [
        | inr e ↦ rw e (retry_hangs fuel zm cpc h none_open)
        | inl e ↦ rw (e, get_zone, open_more_full zm cpc h) (retry_hangs fuel zm cpc h none_open)
      ]
