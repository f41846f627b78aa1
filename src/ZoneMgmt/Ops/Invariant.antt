-- ===== src/ZoneMgmt/Ops/Invariant.antt =====
-- The lists of open and of active zones agree with the conditions of the zones.
use xcpfs.Base.{ℕ, ◌<◌, ◌≡◌, ◌≢◌, refl, ◌⊎◌, inl, inr, Bool, true, none, arith, ==_ne, Bool-cases}
use xcpfs.Base.Table.{update}
use xcpfs.ZoneMgmt.Types.{
  ZoneInfo, ZmInfo, Cond, empty, imp_open, exp_open, closed, is_open, is_active, is_closed,
  is_usable,
}
use xcpfs.ZoneMgmt.Device.{BlockDevice, ReqOp, zone_open}
use xcpfs.ZoneMgmt.Slots.Tracks.{
  Tracks, insert_zone-Tracks, remove_zone-Tracks, Tracks-le, Tracks-ext, insert_zone_opened_lem,
  remove_zone_opened_lem, insert_zone_active_lem, remove_zone_active_lem,
}
use xcpfs.ZoneMgmt.Ops.{
  set_zone, mark_open, mark_closed, mark_finished, mark_reset, send, xcpfs_zone_open,
  xcpfs_zone_close, xcpfs_zone_finish, xcpfs_zone_reset, xcpfs_zone_mgmt,
}

abbrev pub open_zones : ZmInfo → ℕ → Bool
open_zones zm z = is_open (zm.zone_info z).cond

abbrev pub active_zones : ZmInfo → ℕ → Bool
active_zones zm z = is_active (zm.zone_info z).cond

-- Every open zone is in one slot of `zone_opened` and every active zone in one of `zone_active`,
-- no other zone is, and the counters count the slots in use.
pub record ZonesInv (zm : ZmInfo) : Type 0 where
  pub opened : Tracks (open_zones zm) zm.zone_opened zm.zone_opened_count zm.max_open_zones
  pub active : Tracks (active_zones zm) zm.zone_active zm.zone_active_count zm.max_active_zones

-- A change of a zone's record that leaves its condition leaves the lists right.
pub set_zone-ZonesInv :
    (zm : ZmInfo) (z : ℕ) (zi : ZoneInfo)
    → zi.cond ≡ (zm.zone_info z).cond
    → ZonesInv zm
    → ZonesInv (set_zone zm z zi)
set_zone-ZonesInv zm z zi e v = record {
  opened = Tracks-ext (λ x. ground arith) v.opened;
  active = Tracks-ext (λ x. ground arith) v.active;
}

-- the zones that an open command may be sent to
abbrev pub CanOpen : Cond → Type 0
CanOpen c = (c ≡ empty) ⊎ (c ≡ closed)

module _ (zm : ZmInfo) (zone_id : ℕ) (v : ZonesInv zm) where
  pub mark_open_empty :
      (zm.zone_info zone_id).cond ≡ empty
      → zm.zone_opened_count < zm.max_open_zones
      → zm.zone_active_count < zm.max_active_zones
      → ZonesInv (mark_open zm zone_id)
  unfolding mark_open
  mark_open_empty e room room' =
      rw (e, insert_zone_opened_lem zm zone_id, insert_zone_active_lem)
        (record {
          opened = Tracks-ext (λ z. ground arith) (insert_zone-Tracks v.opened zone_id (rw e) room);
          active =
              Tracks-ext (λ z. ground arith) (insert_zone-Tracks v.active zone_id (rw e) room');
        })

  mark_open-closed :
      (zm.zone_info zone_id).cond ≡ closed
      → zm.zone_opened_count < zm.max_open_zones
      → ZonesInv (mark_open zm zone_id)
  unfolding mark_open
  mark_open-closed e room =
      rw (e, insert_zone_opened_lem zm zone_id)
        (record {
          opened = Tracks-ext (λ z. ground arith) (insert_zone-Tracks v.opened zone_id (rw e) room);
          active = Tracks-ext (λ z. ground arith) v.active;
        })

  mark_closed-ZonesInv : (zm.zone_info zone_id).cond ≡ exp_open → ZonesInv (mark_closed zm zone_id)
  unfolding mark_closed
  mark_closed-ZonesInv e = rw (remove_zone_opened_lem zm zone_id) (record {
    opened = Tracks-ext (λ z. ground arith) (remove_zone-Tracks v.opened zone_id);
    active = Tracks-ext (λ z. ground arith) v.active;
  })

  mark_finished-ZonesInv : ZonesInv (mark_finished zm zone_id)
  unfolding mark_finished
  mark_finished-ZonesInv =
      rw (remove_zone_active_lem, remove_zone_opened_lem zm zone_id)
        (record {
          opened = Tracks-ext (λ z. ground arith) (remove_zone-Tracks v.opened zone_id);
          active = Tracks-ext (λ z. ground arith) (remove_zone-Tracks v.active zone_id);
        })

  mark_reset-ZonesInv : ZonesInv (mark_reset zm zone_id)
  unfolding mark_reset
  mark_reset-ZonesInv =
      rw (remove_zone_active_lem, remove_zone_opened_lem zm zone_id)
        (record {
          opened = Tracks-ext (λ z. ground arith) (remove_zone-Tracks v.opened zone_id);
          active = Tracks-ext (λ z. ground arith) (remove_zone-Tracks v.active zone_id);
        })

-- The device takes an open command only for a zone that is neither full nor out of order.
abbrev pub TakesOpen : BlockDevice → ZmInfo → ℕ → Type 0
TakesOpen bdev zm zone_id =
    send bdev zm zone_id zone_open ≡ none → is_usable (zm.zone_info zone_id).cond ≡ true

CanOpen_lem : (c : Cond) → is_usable c ≡ true → c ≢ imp_open → c ≢ exp_open → CanOpen c
CanOpen_lem c u i e = ground arith

-- What a command leaves: the state as it was, or its bookkeeping where the device has agreed.
module _ (P : ZmInfo → Type 0) (bdev : BlockDevice) (zm : ZmInfo) (zone_id : ℕ) (same : P zm) where
  pub xcpfs_zone_open_cases :
      ((zm.zone_info zone_id).cond ≢ exp_open
        → zm.zone_opened_count ≢ zm.max_open_zones
        → zm.zone_active_count ≢ zm.max_active_zones
        → send bdev zm zone_id zone_open ≡ none
        → P (mark_open zm zone_id))
      → P (xcpfs_zone_open bdev zm zone_id).1
  unfolding xcpfs_zone_open
  xcpfs_zone_open_cases done = ground (arith, done)

  pub xcpfs_zone_close_cases :
      ((zm.zone_info zone_id).cond ≡ exp_open → P (mark_closed zm zone_id))
      → P (xcpfs_zone_close bdev zm zone_id).1
  unfolding xcpfs_zone_close
  xcpfs_zone_close_cases done = ground (arith, done)

  pub xcpfs_zone_finish_cases :
      P (mark_finished zm zone_id) → P (xcpfs_zone_finish bdev zm zone_id).1
  unfolding xcpfs_zone_finish
  xcpfs_zone_finish_cases done = ground arith

  pub xcpfs_zone_reset_cases : P (mark_reset zm zone_id) → P (xcpfs_zone_reset bdev zm zone_id).1
  unfolding xcpfs_zone_reset
  xcpfs_zone_reset_cases done = ground arith

module _ (bdev : BlockDevice) (zm : ZmInfo) (zone_id : ℕ) (v : ZonesInv zm) where
  pub open-ZonesInv :
      (zm.zone_info zone_id).cond ≢ imp_open
      → TakesOpen bdev zm zone_id
      → ZonesInv (xcpfs_zone_open bdev zm zone_id).1
  open-ZonesInv explicit takes =
      xcpfs_zone_open_cases ZonesInv bdev zm zone_id v λ shut room room' sent.
        elim (CanOpen_lem _ (takes sent) explicit shut) [
          | inl e ↦
              mark_open_empty zm zone_id v e (omega (arith, Tracks-le v.opened zone_id))
                (omega (arith, Tracks-le v.active zone_id))
          | inr e ↦ mark_open-closed zm zone_id v e (omega (arith, Tracks-le v.opened zone_id))
        ]

  -- A command keeps the two lists right, whether the device takes it or not, if an open command is not
  -- for a zone that a write has opened implicitly, and is taken by the device only for a zone that is
  -- neither full nor out of order.
  pub xcpfs_zone_mgmt-ZonesInv :
      (op : ReqOp)
      → ((zm.zone_info zone_id).cond ≡ imp_open → op ≢ zone_open)
      → TakesOpen bdev zm zone_id
      → ZonesInv (xcpfs_zone_mgmt bdev zm zone_id op).1
  unfolding xcpfs_zone_mgmt
  xcpfs_zone_mgmt-ZonesInv ReqOp.zone_open explicit takes =
      open-ZonesInv (λ e. explicit e refl) takes
  xcpfs_zone_mgmt-ZonesInv ReqOp.zone_close explicit takes =
      xcpfs_zone_close_cases ZonesInv bdev zm zone_id v (mark_closed-ZonesInv zm zone_id v)
  xcpfs_zone_mgmt-ZonesInv ReqOp.zone_finish explicit takes =
      xcpfs_zone_finish_cases ZonesInv bdev zm zone_id v (mark_finished-ZonesInv zm zone_id v)
  xcpfs_zone_mgmt-ZonesInv ReqOp.zone_reset explicit takes =
      xcpfs_zone_reset_cases ZonesInv bdev zm zone_id v (mark_reset-ZonesInv zm zone_id v)
  xcpfs_zone_mgmt-ZonesInv ReqOp.read explicit takes = v
  xcpfs_zone_mgmt-ZonesInv ReqOp.zone_append explicit takes = v

-- The records of the zones after an open command that succeeds.
pub zone_info-mark_open :
    (zm : ZmInfo) (zone_id : ℕ)
    → (mark_open zm zone_id).zone_info
      ≡ update zm.zone_info zone_id
          (record (zm.zone_info zone_id) { cond = exp_open; dirty = true })
unfolding mark_open
zone_info-mark_open zm zone_id = elim (Bool-cases (is_closed (zm.zone_info zone_id).cond)) [
  | inl e ↦ rw (e, insert_zone_opened_lem zm zone_id)
  | inr e ↦ rw (e, insert_zone_active_lem, insert_zone_opened_lem zm zone_id)
]

pub xcpfs_zone_open_empty :
    (bdev : BlockDevice) (zm : ZmInfo) (zone_id : ℕ)
    → (zm.zone_info zone_id).cond ≡ empty
    → zm.zone_opened_count < zm.max_open_zones
    → zm.zone_active_count < zm.max_active_zones
    → send bdev zm zone_id zone_open ≡ none
    → (xcpfs_zone_open bdev zm zone_id).1 ≡ mark_open zm zone_id
unfolding xcpfs_zone_open
xcpfs_zone_open_empty bdev zm zone_id e room room' sent = rw (
  e,
  ==_ne zm.zone_opened_count zm.max_open_zones (omega arith),
  ==_ne zm.zone_active_count zm.max_active_zones (omega arith),
  sent,
)

pub zone_size-mark_open :
    (zm : ZmInfo) (zone_id : ℕ) → (mark_open zm zone_id).zone_size ≡ zm.zone_size
unfolding mark_open
zone_size-mark_open zm zone_id = elim (Bool-cases (is_closed (zm.zone_info zone_id).cond)) [
  | inl e ↦ rw (e, insert_zone_opened_lem zm zone_id)
  | inr e ↦ rw (e, insert_zone_active_lem, insert_zone_opened_lem zm zone_id)
]
