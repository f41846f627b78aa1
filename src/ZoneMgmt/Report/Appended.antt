-- ===== src/ZoneMgmt/Report/Appended.antt =====
-- What the report of the zones makes of the lists of open and of active zones. Neither the lists nor
-- their counters are set by `xcpfs_init_zm_info` before it.
use xcpfs.Base.{
  ℕ, zero, suc, ◌+◌, ◌≤◌, ◌<◌, ◌≡◌, refl, ◌∙◌, ap, List, [], ◌∷◌, Option, some, length, get_elem?,
  set, arith, if◌then◌else◌, inl, inr, Bool-cases, length-set, get_elem?-set_self, get_elem?-set_ne,
}
use xcpfs.ZoneMgmt.Types.{ZmInfo, is_open, is_active}
use xcpfs.ZoneMgmt.Report.{BlkZone, report_zone, report_zones}

-- The zones of a report from zone `idx` on that are open, and active.
unfoldable pub open_ids : ℕ → List BlkZone → List ℕ
open_ids idx [] = []
open_ids idx (zone ∷ rest) =
    let later = open_ids (idx + 1) rest in if is_open zone.cond then idx ∷ later else later

unfoldable pub active_ids : ℕ → List BlkZone → List ℕ
active_ids idx [] = []
active_ids idx (zone ∷ rest) =
    let later = active_ids (idx + 1) rest in if is_active zone.cond then idx ∷ later else later

-- Zones entered from slot `k` on.
push_all : List (Option ℕ) → ℕ → List ℕ → List (Option ℕ)
push_all list k [] = list
push_all list k (z ∷ rest) = push_all (set list k (some z)) (k + 1) rest

push_all_before :
    (list : List (Option ℕ)) (k : ℕ) (ids : List ℕ) (i : ℕ)
    → i < k
    → get_elem? (push_all list k ids) i ≡ get_elem? list i
unfolding push_all
push_all_before list k [] i h = refl
push_all_before list k (z ∷ rest) i h =
    push_all_before (set list k (some z)) (k + 1) rest i (omega (arith, h))
    ∙ get_elem?-set_ne list {i = k} {j = i} (some z) (λ e. omega (arith, e, h))

push_all_in :
    (list : List (Option ℕ)) (k : ℕ) (ids : List ℕ) (j z : ℕ)
    → k + length ids ≤ length list
    → get_elem? ids j ≡ some z
    → get_elem? (push_all list k ids) (k + j) ≡ some (some z)
unfolding push_all
push_all_in list k [] j z h e = cc
push_all_in list k (x ∷ rest) zero z h e =
    let here : k + 0 ≡ k = omega arith in
    rw here (
      push_all_before (set list k (some x)) (k + 1) rest k (omega arith)
      ∙ get_elem?-set_self list k (some x) (omega (arith, h))
      ∙ ap some e)
push_all_in list k (x ∷ rest) (suc j) z h e =
    let there : k + suc j ≡ k + 1 + j = omega arith in
    rw there (
      push_all_in (set list k (some x)) (k + 1) rest j z
        (omega (arith, h, length-set list k (some x))) e)

-- A list of slots with its counter, after `ids` have been entered behind the slots counted before.
pub record Appended (ids : List ℕ) (list : List (Option ℕ)) (count : ℕ) (after : List (Option ℕ))
    (count_after : ℕ) : Type 0 where
  pub counted : count_after ≡ count + length ids
  pub entered : (j z : ℕ) → get_elem? ids j ≡ some z → get_elem? after (count + j) ≡ some (some z)
  pub before : (i : ℕ) → i < count → get_elem? after i ≡ get_elem? list i

appended :
    (ids : List ℕ) (list : List (Option ℕ)) (count : ℕ) (after : List (Option ℕ)) (count_after : ℕ)
    → count + length ids ≤ length list
    → after ≡ push_all list count ids
    → count_after ≡ count + length ids
    → Appended ids list count after count_after
appended ids list count after count_after room same counts = record {
  counted = counts;
  entered = λ j z e. rw same (push_all_in list count ids j z room e);
  before = λ i h. rw same (push_all_before list count ids i h);
}

opened_lem :
    (zones : List BlkZone) (idx : ℕ) (zm : ZmInfo)
    → ((report_zones zm idx zones).zone_opened
        ≡ push_all zm.zone_opened zm.zone_opened_count (open_ids idx zones))
      × ((report_zones zm idx zones).zone_opened_count
          ≡ zm.zone_opened_count + length (open_ids idx zones))
unfolding report_zones report_zone open_ids push_all
opened_lem [] idx zm = (refl, omega arith)
opened_lem (zone ∷ rest) idx zm =
    let (same, counts) = opened_lem rest (idx + 1) (report_zone zm idx zone) in
    elim (Bool-cases (is_open zone.cond)) [
      | inl o ↦ ground (arith, o, same, counts)
      | inr o ↦ ground (arith, o, same, counts)
    ]

active_lem :
    (zones : List BlkZone) (idx : ℕ) (zm : ZmInfo)
    → ((report_zones zm idx zones).zone_active
        ≡ push_all zm.zone_active zm.zone_active_count (active_ids idx zones))
      × ((report_zones zm idx zones).zone_active_count
          ≡ zm.zone_active_count + length (active_ids idx zones))
unfolding report_zones report_zone active_ids push_all
active_lem [] idx zm = (refl, omega arith)
active_lem (zone ∷ rest) idx zm =
    let (same, counts) = active_lem rest (idx + 1) (report_zone zm idx zone) in
    elim (Bool-cases (is_active zone.cond)) [
      | inl o ↦ ground (arith, o, same, counts)
      | inr o ↦ ground (arith, o, same, counts)
    ]

-- What the two lists and their counters hold before the report is not looked at and stays: The open
-- zones of the report are entered behind the slots that the counter counts before, in the order of the
-- report, the active ones likewise, and the counters go up by their numbers, where the slots from
-- there on are enough for them. The slots in front hold what they held.
pub report_zones-Appended :
    (zones : List BlkZone) (zm : ZmInfo)
    → zm.zone_opened_count + length (open_ids 0 zones) ≤ length zm.zone_opened
    → zm.zone_active_count + length (active_ids 0 zones) ≤ length zm.zone_active
    → let after = report_zones zm 0 zones in
      Appended
        (open_ids 0 zones)
        zm.zone_opened
        zm.zone_opened_count
        after.zone_opened
        after.zone_opened_count
      × Appended
          (active_ids 0 zones)
          zm.zone_active
          zm.zone_active_count
          after.zone_active
          after.zone_active_count
report_zones-Appended zones zm room room' =
    let (opens, opened_count) = opened_lem zones 0 zm in
    let (actives, active_count) = active_lem zones 0 zm in
    (
      appended (open_ids 0 zones) zm.zone_opened zm.zone_opened_count _ _ room opens opened_count,
      appended (active_ids 0 zones) zm.zone_active zm.zone_active_count _ _ room' actives
          active_count,
    )
