-- ===== src/ZoneMgmt/Alloc/Choice.antt =====
-- The zone that `get_zone` answers with.
use xcpfs.Base.{
  ℕ, zero, suc, ◌+◌, ◌-◌, ◌%◌, ◌≤◌, ◌<◌, ◌≡◌, refl, ◌⊎◌, inl, inr, true, false, List, [], ◌∷◌,
  Option, none, some, arith, ◌==◌, Bool-cases,
}
use xcpfs.ZoneMgmt.Types.{ZoneInfo, ZmInfo, is_empty}
use xcpfs.ZoneMgmt.Slots.Tracks.{holds}
use xcpfs.ZoneMgmt.Alloc.{find_empty, get_empty_zone, u64, long_max, is_better, best_zone}

-- Each zone's record bears the zone's index.
abbrev pub IsIndexed : ZmInfo → Type 0
IsIndexed zm = (z : ℕ) → (zm.zone_info z).zone_id ≡ z

module _ (zm : ZmInfo) (indexed : IsIndexed zm) where
  find_empty_lem :
      (n i : ℕ)
      → ((find_empty zm n i ≡ 0)
          × ((j : ℕ) → i ≤ j → j < i + n → is_empty (zm.zone_info j).cond ≡ false))
        ⊎ ((i ≤ find_empty zm n i)
            × (find_empty zm n i < i + n)
            × (is_empty (zm.zone_info (find_empty zm n i)).cond ≡ true))
  unfolding find_empty
  find_empty_lem zero i = inl (refl, λ j h k. absurd (omega arith))
  find_empty_lem (suc n) i = elim (Bool-cases (is_empty (zm.zone_info i).cond)) [
    | inl e ↦ rw (e, indexed i) (inr (omega arith, omega arith, e))
    | inr e ↦ rw e (elim (find_empty_lem n (i + 1)) [
      | inl (z, all) ↦ inl (
        z,
        λ j h k. elim (Bool-cases (i == j)) [
          | inl same ↦ ground arith
          | inr other ↦ all j (ground arith) (omega arith)
        ],
      )
      | inr (l, u, hit) ↦ inr (omega arith, omega arith, hit)
    ])
  ]

  -- `get_empty_zone` finds an empty zone outside the super block's two if there is one, and answers
  -- with zone 0 only if there is none.
  pub get_empty_zone_lem :
      ((get_empty_zone zm ≡ 0)
        × ((j : ℕ) → 2 ≤ j → j < zm.nr_zones → is_empty (zm.zone_info j).cond ≡ false))
      ⊎ ((2 ≤ get_empty_zone zm)
          × (get_empty_zone zm < zm.nr_zones)
          × (is_empty (zm.zone_info (get_empty_zone zm)).cond ≡ true))
  unfolding get_empty_zone
  get_empty_zone_lem = elim (find_empty_lem (zm.nr_zones - 2) 2) [
    | inl (z, all) ↦ inl (z, λ j h k. all j h (omega arith))
    | inr (l, u, hit) ↦ inr (l, omega arith, hit)
  ]

-- The zone is in the list and is of the type.
abbrev pub Serves : ZmInfo → ℕ → List (Option ℕ) → ℕ → Type 0
Serves zm type list i = (0 < holds i list) × ((zm.zone_info i).zone_type ≡ type)

pub best_zone-Serves :
    (zm : ZmInfo) (type : ℕ) (list : List (Option ℕ)) (inflight : ℕ) (tar : Option ℕ) (i : ℕ)
    → best_zone zm type list inflight tar ≡ some i
    → (tar ≡ some i) ⊎ Serves zm type list i
unfolding best_zone holds
best_zone-Serves zm type [] inflight tar i e = inl e
best_zone-Serves zm type (none ∷ list) inflight tar i e =
    best_zone-Serves zm type list inflight tar i e
best_zone-Serves zm type (some k ∷ list) inflight tar i e =
    let zi = zm.zone_info k in
    elim (Bool-cases (is_better zi type inflight)) [
      | inl better ↦
          elim (best_zone-Serves zm type list ((zi.wp + zi.write_inflight) % u64) (some k) i
            (ground arith)) [
              | inl same ↦ inr (ground arith, ground arith)
              | inr later ↦ inr (ground arith, ground arith)
            ]
      | inr worse ↦ elim (best_zone-Serves zm type list inflight tar i (ground arith)) [
        | inl same ↦ inl same
        | inr later ↦ inr (ground arith, ground arith)
      ]
    ]

-- A zone of the type that has room beats LONG_MAX, so the search does not come back with nothing.
abbrev pub HasRoom : ZoneInfo → Type 0
HasRoom zi = (zi.wp + zi.write_inflight + u64 - zi.start) % u64 < long_max

best_zone-some :
    (zm : ZmInfo) (type : ℕ) (list : List (Option ℕ)) (inflight k : ℕ)
    → (i : ℕ) × (best_zone zm type list inflight (some k) ≡ some i)
unfolding best_zone
best_zone-some zm type [] inflight k = (k, refl)
best_zone-some zm type (none ∷ list) inflight k = best_zone-some zm type list inflight k
best_zone-some zm type (some j ∷ list) inflight k =
    let zi = zm.zone_info j in
    elim (Bool-cases (is_better zi type inflight)) [
      | inl better ↦ rw better (best_zone-some zm type list ((zi.wp + zi.write_inflight) % u64) j)
      | inr worse ↦ rw worse (best_zone-some zm type list inflight k)
    ]

pub best_zone-finds :
    (zm : ZmInfo) (type : ℕ) (list : List (Option ℕ)) (i : ℕ)
    → Serves zm type list i
    → HasRoom (zm.zone_info i)
    → (k : ℕ) × (best_zone zm type list long_max none ≡ some k)
unfolding best_zone holds
best_zone-finds zm type [] i s r = absurd (omega arith)
best_zone-finds zm type (none ∷ list) i s r = best_zone-finds zm type list i s r
best_zone-finds zm type (some j ∷ list) i s r =
    let zi = zm.zone_info j in
    elim (Bool-cases (is_better zi type long_max)) [
      | inl better ↦ rw better (best_zone-some zm type list ((zi.wp + zi.write_inflight) % u64) j)
      | inr worse ↦ rw worse (best_zone-finds zm type list i (ground arith, s.1) r)
    ]
