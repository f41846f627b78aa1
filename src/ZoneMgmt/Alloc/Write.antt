-- ===== src/ZoneMgmt/Alloc/Write.antt =====
-- `alloc_zone`: where a block goes, and what becomes of the one that it replaces.
use xcpfs.Base.{
  ℕ, ◌/◌, ◌≡◌, ◌≢◌, refl, ◌⊎◌, inl, inr, Bool, false, ◌||◌, Option, arith, ◌==◌, if◌then◌else◌,
  Bool-cases,
}
use xcpfs.Format.{page_sectors, type_code}
use xcpfs.ZoneMgmt.Types.{ZmInfo, zone_blocks}
use xcpfs.ZoneMgmt.Device.{BlockDevice}
use xcpfs.ZoneMgmt.Ops.{mark_open}
use xcpfs.ZoneMgmt.Ops.Invariant.{zone_info-mark_open, zone_size-mark_open, xcpfs_zone_open_cases}
use xcpfs.ZoneMgmt.Blocks.{blk2zone, blk_index, invalidate_blkaddr}
use xcpfs.ZoneMgmt.Blocks.Account.{is_valid, is_valid-invalidate}
use xcpfs.ZoneMgmt.Alloc.{
  Found, done, null_deref, spinning, AllocReq, is_read, place, zone_is_full, give_zone, take_zone,
  get_empty_zone, get_zone, alloc_zone,
}
use xcpfs.ZoneMgmt.Alloc.Search.{Finds, IsOpenOf, get_zone-IsOpenOf}
use xcpfs.ZoneMgmt.Alloc.Keeps.{get_zone_keeps}

-- The same blocks at the same places.
pub record SameBlocks (zm zm' : ZmInfo) : Type 0 where
  pub same_size : zm'.zone_size ≡ zm.zone_size
  pub same_start : (z : ℕ) → (zm'.zone_info z).start ≡ (zm.zone_info z).start
  pub same_vblocks : (z : ℕ) → (zm'.zone_info z).vblocks ≡ (zm.zone_info z).vblocks
  pub same_map : (z : ℕ) → (zm'.zone_info z).valid_map ≡ (zm.zone_info z).valid_map

pub SameBlocks-refl : (zm : ZmInfo) → SameBlocks zm zm
SameBlocks-refl zm = record {
  same_size = refl;
  same_start = λ z. refl;
  same_vblocks = λ z. refl;
  same_map = λ z. refl;
}

give_zone-SameBlocks :
    (zm zm' : ZmInfo) (zone_id type : ℕ)
    → SameBlocks zm zm'
    → SameBlocks zm (give_zone zm' zone_id type)
unfolding give_zone
give_zone-SameBlocks zm zm' zone_id type s = record {
  same_size = s.same_size;
  same_start = λ z. ground (arith, s.same_start z, s.same_start zone_id);
  same_vblocks = λ z. ground (arith, s.same_vblocks z, s.same_vblocks zone_id);
  same_map = λ z. ground (arith, s.same_map z, s.same_map zone_id);
}

mark_open-SameBlocks :
    (zm zm' : ZmInfo) (z : ℕ) → SameBlocks zm zm' → SameBlocks zm (mark_open zm' z)
mark_open-SameBlocks zm zm' i s = record {
  same_size = rw (zone_size-mark_open zm' i) s.same_size;
  same_start = λ z. rw (zone_info-mark_open zm' i) (ground (arith, s.same_start z, s.same_start i));
  same_vblocks =
      λ z. rw (zone_info-mark_open zm' i) (ground (arith, s.same_vblocks z, s.same_vblocks i));
  same_map = λ z. rw (zone_info-mark_open zm' i) (ground (arith, s.same_map z, s.same_map i));
}

pub take_zone-SameBlocks :
    (bdev : BlockDevice) (zm zm' : ZmInfo) (type : ℕ)
    → SameBlocks zm zm'
    → SameBlocks zm (take_zone bdev zm' type)
unfolding take_zone
take_zone-SameBlocks bdev zm zm' type s =
    let e = get_empty_zone zm' in
    give_zone-SameBlocks zm _ e type (
      xcpfs_zone_open_cases (SameBlocks zm) bdev zm' e s
        (λ _ _ _ _. mark_open-SameBlocks zm zm' e s))

pub is_valid-SameBlocks :
    (zm zm' : ZmInfo) (b : ℕ) → SameBlocks zm zm' → is_valid zm' b ≡ is_valid zm b
unfolding blk2zone blk_index
is_valid-SameBlocks zm zm' b s = rw (s.same_size, s.same_map (b / zone_blocks zm))

pub place-Finds :
    (P Q : ℕ → ZmInfo → Type 0) (old : ℕ) (found : Found)
    → Finds Q found
    → ((z : ℕ) (zm : ZmInfo)
        → Q z zm
        → P ((zm.zone_info z).start / page_sectors) (invalidate_blkaddr zm old))
    → Finds P (place old found)
place-Finds P Q old (done z zm cpc) q h = h z zm q
place-Finds P Q old null_deref q h = tt
place-Finds P Q old spinning q h = tt

Finds-both :
    (P Q : ℕ → ZmInfo → Type 0) (found : Found)
    → Finds P found
    → Finds Q found
    → Finds (λ z zm. P z zm × Q z zm) found
Finds-both P Q (done z zm cpc) p q = (p, q)
Finds-both P Q null_deref p q = tt
Finds-both P Q spinning p q = tt

-- The zone that a block of `zm` at `old`, of the type, may be written to: its own, unless that is
-- full or is zone 0; or one of the open zones of the type.
abbrev pub IsTarget : ZmInfo → ℕ → ℕ → ℕ → ZmInfo → Type 0
IsTarget zm old type z zm' =
    ((z ≡ blk2zone zm old) × (z ≢ 0) × (zone_is_full zm z ≡ false)) ⊎ IsOpenOf type z zm'

-- The address is the first block of a target zone (the device appends behind the zone's write
-- pointer), the replaced block is no longer valid, and no other block is touched.
abbrev pub Placed : ZmInfo → ℕ → ℕ → ℕ → ZmInfo → Type 0
Placed zm old type new zm' =
    ((z : ℕ) × (new ≡ (zm.zone_info z).start / page_sectors) × IsTarget zm old type z zm')
    × ((b : ℕ) → is_valid zm' b ≡ (if old == b then false else is_valid zm b))

IsOpenOf-invalidate :
    (type z : ℕ) (zm : ZmInfo) (old : ℕ)
    → IsOpenOf type z zm
    → IsOpenOf type z (invalidate_blkaddr zm old)
unfolding invalidate_blkaddr
IsOpenOf-invalidate type z zm old (i, same, (held, typed)) = (i, ground arith, (held, ground arith))

module _ (bdev : BlockDevice) (cp_locked : Bool) (fuel : ℕ) (xio : AllocReq) (zm : ZmInfo)
    (cpc : Option Bool) (writes : is_read xio.op ≡ false) where
  abbrev old : ℕ
  old = xio.old_blkaddr

  place_lem :
      (zm' : ZmInfo) (z : ℕ)
      → SameBlocks zm zm'
      → IsTarget zm old (type_code xio.type) z zm'
      → Placed zm old
          (type_code xio.type)
          ((zm'.zone_info z).start / page_sectors)
          (invalidate_blkaddr zm' old)
  place_lem zm' z s t = (
    (z, rw (s.same_start z), target t),
    λ b. rw (is_valid-invalidate zm' old b, is_valid-SameBlocks zm zm' b s),
  )
    where
      target :
          IsTarget zm old (type_code xio.type) z zm'
          → IsTarget zm old (type_code xio.type) z (invalidate_blkaddr zm' old)
      target (inl own) = inl own
      target (inr open_zone) = inr (IsOpenOf-invalidate (type_code xio.type) z zm' old open_zone)

  -- A write goes to the first block of the replaced block's own zone, if that is neither full nor
  -- zone 0, or else of an open zone of the type; the replaced block is no longer valid afterwards,
  -- and no other block is touched. (Where the search does not end, nothing is claimed.)
  pub alloc_zone-Placed :
      Finds (Placed zm old (type_code xio.type)) (alloc_zone bdev cp_locked fuel xio zm cpc)
  unfolding alloc_zone
  alloc_zone-Placed =
      let type = type_code xio.type in
      let own = blk2zone zm old in
      let found = get_zone bdev cp_locked type fuel zm cpc in
      let both : Finds (λ z zm'. IsOpenOf type z zm' × SameBlocks zm zm') found =
        Finds-both (IsOpenOf type) (λ _. SameBlocks zm) found
          (get_zone-IsOpenOf bdev cp_locked type fuel zm cpc)
          (get_zone_keeps bdev cp_locked type (SameBlocks zm)
            (λ zm'. take_zone-SameBlocks bdev zm zm' type) fuel zm cpc (SameBlocks-refl zm)) in
      rw writes (elim (Bool-cases (zone_is_full zm own || own == 0)) [
        | inl elsewhere ↦ rw elsewhere (
            place-Finds (Placed zm old type) _ old found both
              (λ z zm' q. place_lem zm' z q.1 (inr q.0)))
        | inr here ↦
            rw here (place_lem zm own (SameBlocks-refl zm) (inl (refl, ground arith, ground arith)))
      ])
